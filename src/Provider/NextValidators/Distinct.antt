-- ===== src/Provider/NextValidators/Distinct.antt =====
-- Where the bonded validators have distinct addresses and distinct keys on a consumer chain, so have the
-- validators that `ComputeNextValidators` gives.
use interchain_security.Common.{
  ℕ, ◌+◌, ◌≤◌, ◌≡◌, sym, ap, ◌∙◌, subst, Bool, true, false, List, [], ◌∷◌, Option, none, some,
  arith, if◌then◌else◌,
}
use interchain_security.Common.Outcome.{Outcome, ok, err, panic, then_ok, then_ok-ok, ok_inj}
use interchain_security.Sorting.Perms.{sum_by}
use interchain_security.Provider.Staking.{Staking, StakingValidator, Block}
use interchain_security.Provider.Chain.{Chain}
use interchain_security.Provider.ValidatorSet.Counts.{hit}
use interchain_security.Provider.ValidatorSet.{ConsensusValidator}
use interchain_security.Provider.PowerShaping.Parameters.{Parameters}
use interchain_security.Provider.PowerShaping.TopN.{or_external, last_power}
use interchain_security.Provider.NextValidators.{
  Library, filter_validator, filter_validators, may_validate, shape, considered,
  compute_next_validators, create_consumer_validator, consumer_public_key, append_if,
}
use interchain_security.Provider.NextValidators.Counted.{counted, shape-counted, considered-counted}

-- Whether a bonded validator has the address, and whether it has the key on the chain.
abbrev pub uses_addr : ℕ → StakingValidator → ℕ
uses_addr a v = elim v.cons_addr [ none ↦ 0 | some addr ↦ hit a addr ]

abbrev pub hit_if_ok : ℕ → Outcome ℕ → ℕ
hit_if_ok key (ok j) = hit key j
hit_if_ok key (err e) = 0
hit_if_ok key panic = 0

abbrev pub uses_key : Chain → ℕ → StakingValidator → ℕ
uses_key c key v = elim v.cons_addr [
  | none ↦ 0
  | some addr ↦ hit_if_ok key (consumer_public_key c v addr)
]

module _ (k : Staking) (b : Block) (c : Chain) where
  create_consumer_validator-uses :
      (v : StakingValidator) (n : ConsensusValidator)
      → create_consumer_validator k b c v ≡ ok n
      → (v.cons_addr ≡ some n.provider_cons_addr)
        × (consumer_public_key c v n.provider_cons_addr ≡ ok n.public_key)
  unfolding create_consumer_validator
  create_consumer_validator-uses v n h =
      let power = then_ok-ok (last_power k v) _ n h in
      let found = then_ok-ok (or_external v.cons_addr) _ n power.1.1 in
      let key = then_ok-ok (consumer_public_key c v found.0) _ n found.1.1 in
      let made = ok_inj key.1.1 in
      let addr : found.0 ≡ n.provider_cons_addr = ap (λ m. m.provider_cons_addr) made in
      (
        or_external_some v.cons_addr found.0 found.1.0 ∙ ap some addr,
        (subst (λ a. consumer_public_key c v a ≡ ok n.public_key) addr
            (key.1.0 ∙ ap (λ m. ok m.public_key) made)),
      )
    where
      or_external_some : (o : Option ℕ) (a : ℕ) → or_external o ≡ ok a → o ≡ some a
      or_external_some none a e = cc
      or_external_some (some x) a e = ap some (ok_inj e)

  uses_addr-created :
      (a : ℕ) (v : StakingValidator) (n : ConsensusValidator)
      → create_consumer_validator k b c v ≡ ok n
      → hit a n.provider_cons_addr ≤ uses_addr a v
  uses_addr-created a v n h =
      let used = create_consumer_validator-uses v n h in rw (used.0) (omega arith)

  uses_key-created :
      (key : ℕ) (v : StakingValidator) (n : ConsensusValidator)
      → create_consumer_validator k b c v ≡ ok n
      → hit key n.public_key ≤ uses_key c key v
  unfolding consumer_public_key
  uses_key-created key v n h =
      let used = create_consumer_validator-uses v n h in rw (used.0) (rw (used.1) (omega arith))

  -- What holds of each created validator holds of the sums over the filtered ones.
  module _ (test : ℕ → Outcome Bool) (f : ConsensusValidator → ℕ) (g : StakingValidator → ℕ)
      (below : (v : StakingValidator) (n : ConsensusValidator)
        → create_consumer_validator k b c v ≡ ok n
        → f n ≤ g v) where
    filter_validator-counted :
        (v : StakingValidator) (n : Option ConsensusValidator) (ns : List ConsensusValidator)
        → filter_validator k b c test v ≡ ok n
        → sum_by f (append_if n ns) ≤ g v + sum_by f ns
    unfolding filter_validator
    filter_validator-counted v n ns h = go v.cons_addr h
      where
        tested :
            (good : Bool)
            → (if good
                then then_ok (create_consumer_validator k b c v) (λ m. ok (some m))
                else ok none)
              ≡ ok n
            → sum_by f (append_if n ns) ≤ g v + sum_by f ns
        tested true e =
            let made = then_ok-ok (create_consumer_validator k b c v) (λ m. ok (some m)) n e in
            rw (sym (ok_inj made.1.1)) (omega (arith, below v made.0 made.1.0))
        tested false e = rw (sym (ok_inj e)) (omega arith)

        go :
            (o : Option ℕ)
            → (elim o as (λ x. Outcome (Option ConsensusValidator)) [
              | none ↦ ok none
              | some addr ↦ then_ok (test addr) λ good.
                  if good
                  then then_ok (create_consumer_validator k b c v) (λ m. ok (some m))
                  else ok none
            ])
              ≡ ok n
            → sum_by f (append_if n ns) ≤ g v + sum_by f ns
        go none e = rw (sym (ok_inj e)) (omega arith)
        go (some addr) e = let good = then_ok-ok (test addr) _ n e in tested good.0 good.1.1

    filter_validators-counted :
        (vs : List StakingValidator) (ns : List ConsensusValidator)
        → filter_validators k b c test vs ≡ ok ns
        → sum_by f ns ≤ sum_by g vs
    unfolding filter_validators
    filter_validators-counted [] ns h = rw (sym (ok_inj h)) (omega arith)
    filter_validators-counted (v ∷ vs) ns h =
        let first = then_ok-ok (filter_validator k b c test v) _ ns h in
        let rest = then_ok-ok (filter_validators k b c test vs) _ ns first.1.1 in
        rw (sym (ok_inj rest.1.1)) (
          omega (
            arith,
            filter_validator-counted v first.0 rest.0 first.1.0,
            filter_validators-counted vs rest.0 rest.1.0,
          ))

-- No two of the bonded validators have one address, or one key on the chain.
abbrev pub Distinguished : Chain → List StakingValidator → Type 0
Distinguished c bonded =
    ((a : ℕ) → sum_by (uses_addr a) bonded ≤ 1) × ((key : ℕ) → sum_by (uses_key c key) bonded ≤ 1)

module _ (l : Library) (k : Staking) (b : Block) (max_vals : ℕ) (c : Chain)
    (bonded : List StakingValidator) (p : Parameters) (min_power : ℕ)
    (next : List ConsensusValidator)
    (computed : compute_next_validators l k b max_vals c bonded p min_power ≡ ok next) where
  next-counted :
      (f : ℕ × ℕ × ℕ → ℕ) (g : StakingValidator → ℕ)
      → ((v : StakingValidator) (n : ConsensusValidator)
          → create_consumer_validator k b c v ≡ ok n
          → counted f n ≤ g v)
      → sum_by (counted f) next ≤ sum_by g bonded
  unfolding compute_next_validators
  next-counted f g below =
      let test = may_validate k c p min_power in
      let r = filter_validators k b c test (considered l max_vals p bonded) in
      let done = then_ok-ok r (λ ns. ok (shape l c p ns)) next computed in
      rw (sym (ok_inj done.1.1)) (
        omega (
          arith,
          shape-counted f l c p done.0,
          filter_validators-counted k b c test (counted f) g below (considered l max_vals p bonded)
              done.0 done.1.0,
          considered-counted g l max_vals p bonded,
        ))

  pub next-addrs :
      Distinguished c bonded → (a : ℕ) → sum_by (λ v. hit a v.provider_cons_addr) next ≤ 1
  next-addrs d a =
      omega (arith, d.0 a, next-counted (λ i. hit a i.0) (uses_addr a) (uses_addr-created k b c a))

  pub next-keys : Distinguished c bonded → (key : ℕ) → sum_by (λ v. hit key v.public_key) next ≤ 1
  next-keys d key = omega (
    arith,
    d.1 key,
    next-counted (λ i. hit key i.1) (uses_key c key) (uses_key-created k b c key),
  )
