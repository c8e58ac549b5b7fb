-- ===== src/Provider/NextValidators/Eligible.antt =====
-- `ComputeNextValidators` takes the validators that may validate the consumer chain, all of them
-- where no cap on the set applies.
use interchain_security.Common.{
  ℕ, ◌≡◌, refl, sym, ap, ◌∙◌, Bool, true, false, not, [], ◌∷◌, arith, ltb, leb, ◌==◌, ◌&&◌, ◌||◌,
  if◌then◌else◌,
}
use interchain_security.Common.Outcome.{Outcome, ok, err, panic, then_ok, then_ok-ok}
use interchain_security.Provider.Staking.{Staking, StakingValidator}
use interchain_security.Provider.Chain.{Chain, Addresses, contains, is_empty}
use interchain_security.Provider.PowerShaping.Parameters.{Parameters}
use interchain_security.Provider.PowerShaping.TopN.{last_power}
use interchain_security.Provider.PowerShaping.Eligibility.{
  can_validate_chain, fulfills_min_stake, has_min_power,
}
use interchain_security.Provider.NextValidators.{may_validate}

-- Whether a call gave a value that passes a test.
abbrev pub passes : {A : Type 0} → (A → Bool) → Outcome A → Bool
passes f (ok a) = f a
passes f (err e) = false
passes f panic = false

-- The validator opted in, or the chain is a Top N chain and the validator's power reaches the minimum.
abbrev pub joins : Staking → Chain → Parameters → ℕ → ℕ → Bool
joins k c p min_power addr =
    contains addr c.opted_in
    || (ltb 0 p.top_n
        && passes (λ v. passes (leb min_power) (last_power k v))
            (k.get_validator_by_cons_addr addr))

abbrev pub is_listed : Chain → ℕ → Bool
is_listed c addr = (is_empty c.allowed || contains addr c.allowed) && not (contains addr c.denied)

abbrev pub has_stake : Staking → Parameters → ℕ → Bool
has_stake k p addr =
    p.min_stake == 0
    || passes (λ v. leb p.min_stake v.bonded_tokens) (k.get_validator_by_cons_addr addr)

-- Who may validate the chain.
abbrev pub eligible : Staking → Chain → Parameters → ℕ → ℕ → Bool
eligible k c p min_power addr =
    (joins k c p min_power addr && is_listed c addr) && has_stake k p addr

passes-ok :
    {A : Type 0} (f : A → Bool) (r : Outcome A) (b : Bool)
    → then_ok r (λ a. ok (f a)) ≡ ok b
    → b ≡ passes f r
passes-ok f (ok a) b h = cc
passes-ok f (err e) b h = cc
passes-ok f panic b h = cc

passes-passes :
    {A B : Type 0} (f : B → Bool) (g : A → Outcome B) (r : Outcome A) (b : Bool)
    → then_ok r (λ a. then_ok (g a) λ x. ok (f x)) ≡ ok b
    → b ≡ passes (λ a. passes f (g a)) r
passes-passes f g (ok a) b h = passes-ok f (g a) b h
passes-passes f g (err e) b h = cc
passes-passes f g panic b h = cc

not_denied :
    (addr : ℕ) (s : Addresses) → is_empty s || not (contains addr s) ≡ not (contains addr s)
not_denied addr [] = refl
not_denied addr (e ∷ s) = refl

joined :
    (already top x allow deny : Bool) (r : Outcome Bool) (b : Bool)
    → ((y : Bool) → r ≡ ok y → y ≡ x)
    → then_ok (if not already && top then r else ok already) (λ o. ok (o && allow && deny)) ≡ ok b
    → b ≡ (already || (top && x)) && (allow && deny)
joined true top x allow deny r b hr h = ground arith
joined false true x allow deny (ok y) b hr h = ground (arith, hr y refl)
joined false true x allow deny (err e) b hr h = cc
joined false true x allow deny panic b hr h = cc
joined false false x allow deny r b hr h = ground arith

can_validate_chain-joins :
    (k : Staking) (c : Chain) (p : Parameters) (min_power addr : ℕ) (b : Bool)
    → can_validate_chain k c addr p.top_n min_power ≡ ok b
    → b ≡ joins k c p min_power addr && is_listed c addr
unfolding can_validate_chain has_min_power
can_validate_chain-joins k c p min_power addr b h =
    joined (contains addr c.opted_in) (ltb 0 p.top_n) _ _ _ (has_min_power k addr min_power) b
      (λ y e. passes-passes (leb min_power) (last_power k) (k.get_validator_by_cons_addr addr) y e)
      h
    ∙ ap (λ d. joins k c p min_power addr && ((is_empty c.allowed || contains addr c.allowed) && d))
        (not_denied addr c.denied)

fulfills_min_stake-has_stake :
    (k : Staking) (p : Parameters) (addr : ℕ) (b : Bool)
    → fulfills_min_stake k p.min_stake addr ≡ ok b
    → b ≡ has_stake k p addr
unfolding fulfills_min_stake
fulfills_min_stake-has_stake k p addr b h =
    go (p.min_stake == 0) (k.get_validator_by_cons_addr addr) h
  where
    go :
        (free : Bool) (r : Outcome StakingValidator)
        → (if free then ok true else then_ok r (λ v. ok (leb p.min_stake v.bonded_tokens))) ≡ ok b
        → b ≡ free || passes (λ v. leb p.min_stake v.bonded_tokens) r
    go true r e = cc
    go false r e = passes-ok (λ v. leb p.min_stake v.bonded_tokens) r b e

-- The filter of `ComputeNextValidators` decides who is eligible, wherever it gives an answer.
pub may_validate-eligible :
    (k : Staking) (c : Chain) (p : Parameters) (min_power addr : ℕ) (b : Bool)
    → may_validate k c p min_power addr ≡ ok b
    → b ≡ eligible k c p min_power addr
unfolding may_validate
may_validate-eligible k c p min_power addr b h =
    let can = then_ok-ok (can_validate_chain k c addr p.top_n min_power) _ b h in
    let stake = then_ok-ok (fulfills_min_stake k p.min_stake addr) _ b can.1.1 in
    both stake.1.1
    ∙ rw
        (
          sym (can_validate_chain-joins k c p min_power addr can.0 can.1.0),
          sym (fulfills_min_stake-has_stake k p addr stake.0 stake.1.0),
        )
        refl
  where
    both : {x y : Bool} → ok x ≡ ok y → y ≡ x
    both e = cc
