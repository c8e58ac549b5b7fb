-- ===== src/Provider/NextValidators/Filtered.antt =====
-- The addresses that `FilterValidators` keeps under the predicate of `ComputeNextValidators`.
use interchain_security.Common.{
  ℕ, ◌≡◌, refl, sym, ap, ◌∙◌, Bool, true, false, List, [], ◌∷◌, Option, none, some, if◌then◌else◌,
  map,
}
use interchain_security.Common.Outcome.{Outcome, ok, then_ok, then_ok-ok, ok_inj}
use interchain_security.Provider.Staking.{Staking, StakingValidator, Block}
use interchain_security.Provider.Chain.{Chain}
use interchain_security.Provider.ValidatorSet.{ConsensusValidator}
use interchain_security.Provider.PowerShaping.Parameters.{Parameters}
use interchain_security.Provider.PowerShaping.TopN.{or_external, last_power}
use interchain_security.Provider.NextValidators.{
  may_validate, filter_validator, filter_validators, create_consumer_validator, append_if,
  consumer_public_key,
}
use interchain_security.Provider.NextValidators.Eligible.{eligible, may_validate-eligible}

abbrev pub addrs : List ConsensusValidator → List ℕ
addrs = map λ v. v.provider_cons_addr

abbrev pub keep_if : (ℕ → Bool) → Option ℕ → List ℕ → List ℕ
keep_if f none rest = rest
keep_if f (some addr) rest = if f addr then addr ∷ rest else rest

-- The addresses of those among the given validators that are eligible, in their order.
abbrev pub eligible_addrs : Staking → Chain → Parameters → ℕ → List StakingValidator → List ℕ
eligible_addrs k c p min_power [] = []
eligible_addrs k c p min_power (v ∷ vs) =
    keep_if (eligible k c p min_power) v.cons_addr (eligible_addrs k c p min_power vs)

create_consumer_validator-addr :
    (k : Staking) (b : Block) (c : Chain) (v : StakingValidator) (addr : ℕ) (n : ConsensusValidator)
    → v.cons_addr ≡ some addr
    → create_consumer_validator k b c v ≡ ok n
    → n.provider_cons_addr ≡ addr
unfolding create_consumer_validator
create_consumer_validator-addr k b c v addr n e h =
    let power = then_ok-ok (last_power k v) _ n h in
    let found = then_ok-ok (or_external v.cons_addr) _ n power.1.1 in
    let key = then_ok-ok (consumer_public_key c v found.0) _ n found.1.1 in
    ap (λ m. m.provider_cons_addr) (sym (ok_inj key.1.1))
    ∙ sym (ok_inj (ap or_external (sym e) ∙ found.1.0))

module _ (k : Staking) (b : Block) (c : Chain) (p : Parameters) (min_power : ℕ) where
  filtered :
      (v : StakingValidator) (addr : ℕ) (n : Option ConsensusValidator)
      (ns : List ConsensusValidator)
      → v.cons_addr ≡ some addr
      → (good : Bool) → good ≡ eligible k c p min_power addr
      → (if good then then_ok (create_consumer_validator k b c v) (λ m. ok (some m)) else ok none)
        ≡ ok n
      → addrs (append_if n ns) ≡ keep_if (eligible k c p min_power) (some addr) (addrs ns)
  filtered v addr n ns e true g h =
      let made = then_ok-ok (create_consumer_validator k b c v) _ n h in
      rw (sym g, sym (ok_inj made.1.1))
        (ap (λ a. a ∷ addrs ns) (create_consumer_validator-addr k b c v addr made.0 e made.1.0))
  filtered v addr n ns e false g h = rw (sym g, sym (ok_inj h)) refl

  filter_validator-addr :
      (v : StakingValidator) (n : Option ConsensusValidator) (ns : List ConsensusValidator)
      → filter_validator k b c (may_validate k c p min_power) v ≡ ok n
      → addrs (append_if n ns) ≡ keep_if (eligible k c p min_power) v.cons_addr (addrs ns)
  unfolding filter_validator
  filter_validator-addr v n ns h = go v.cons_addr refl h
    where
      go :
          (o : Option ℕ)
          → v.cons_addr ≡ o
          → (elim o as (λ x. Outcome (Option ConsensusValidator)) [
            | none ↦ ok none
            | some addr ↦ then_ok (may_validate k c p min_power addr) λ good.
                if good
                then then_ok (create_consumer_validator k b c v) (λ m. ok (some m))
                else ok none
          ])
            ≡ ok n
          → addrs (append_if n ns) ≡ keep_if (eligible k c p min_power) o (addrs ns)
      go none e h = rw (sym (ok_inj h)) refl
      go (some addr) e h =
          let test = then_ok-ok (may_validate k c p min_power addr) _ n h in
          filtered v addr n ns e test.0 (may_validate-eligible k c p min_power addr test.0 test.1.0)
            test.1.1

  pub filter_validators-addrs :
      (vs : List StakingValidator) (ns : List ConsensusValidator)
      → filter_validators k b c (may_validate k c p min_power) vs ≡ ok ns
      → addrs ns ≡ eligible_addrs k c p min_power vs
  unfolding filter_validators
  filter_validators-addrs [] ns h = ap addrs (sym (ok_inj h))
  filter_validators-addrs (v ∷ vs) ns h =
      let first = then_ok-ok (filter_validator k b c (may_validate k c p min_power) v) _ ns h in
      let rest =
        then_ok-ok (filter_validators k b c (may_validate k c p min_power) vs) _ ns first.1.1 in
      ap addrs (sym (ok_inj rest.1.1))
      ∙ filter_validator-addr v first.0 rest.0 first.1.0
      ∙ ap (keep_if (eligible k c p min_power) v.cons_addr)
          (filter_validators-addrs vs rest.0 rest.1.0)
