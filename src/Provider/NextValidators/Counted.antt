-- ===== src/Provider/NextValidators/Counted.antt =====
-- The caps and the sorts of the power shaping add no validator to those that they get.
use interchain_security.Common.{
  ℕ, zero, suc, ◌≤◌, ◌≡◌, refl, sym, ◌∙◌, Bool, true, false, List, [], ◌∷◌, ◌++◌, arith, ltb, ◌!=◌,
  ◌&&◌, if◌then◌else◌, inl, inr, Bool-cases, length, take, map,
}
use interchain_security.Sorting.Perms.{sum_by, sum_by-perm}
use interchain_security.Provider.Staking.{StakingValidator}
use interchain_security.Provider.Chain.{Chain}
use interchain_security.Provider.ValidatorSet.{ConsensusValidator}
use interchain_security.Provider.PowerShaping.Parameters.{Parameters}
use interchain_security.Provider.PowerShaping.PowerCap.{
  cap_validators_power, no_more_than_percent_of_the_sum,
}
use interchain_security.Provider.PowerShaping.PowerCap.Result.{identity, no_more_than_percent-perm}
use interchain_security.Provider.PowerShaping.TopN.{cap_validator_set}
use interchain_security.Provider.PowerShaping.Eligibility.{partition_based_on_priority_list}
use interchain_security.Provider.NextValidators.{Library, shape, considered}
use interchain_security.Provider.NextValidators.Shaped.{partition_based-addrs}

sum_by-take {ℓ} :
    {A : Type ℓ} (f : A → ℕ) (n : ℕ) (xs : List A) → sum_by f (take n xs) ≤ sum_by f xs
sum_by-take f zero xs = omega arith
sum_by-take f (suc n) [] = omega arith
sum_by-take f (suc n) (x ∷ xs) = omega (arith, sum_by-take f n xs)

sum_by-map {ℓ κ} :
    {A : Type ℓ} {B : Type κ} (g : B → ℕ) (f : A → B) (xs : List A)
    → sum_by g (map f xs) ≡ sum_by (λ x. g (f x)) xs
sum_by-map g f [] = refl
sum_by-map g f (x ∷ xs) = omega (arith, sum_by-map g f xs)

-- Caps and sorts add no validator; `f` looks at all of a validator but its power.
module _ (f : ℕ × ℕ × ℕ → ℕ) where
  abbrev pub counted : ConsensusValidator → ℕ
  counted v = f (identity v)

  cap_validators_power-counted :
      (l : Library) (cap : ℕ) (vs : List ConsensusValidator)
      → sum_by counted (cap_validators_power l.decimals l.sort_power cap vs) ≡ sum_by counted vs
  unfolding cap_validators_power
  cap_validators_power-counted l cap vs = elim (Bool-cases (ltb 0 cap)) [
    | inl capped ↦ rw (capped) (
        sym (sum_by-map f identity (no_more_than_percent_of_the_sum l.decimals l.sort_power vs cap))
        ∙ sum_by-perm f (no_more_than_percent-perm l.decimals l.sort_power vs cap)
        ∙ sum_by-map f identity vs)
    | inr free ↦ rw (free) refl
  ]

  cap_validator_set-counted :
      (top_n cap : ℕ) (vs : List ConsensusValidator)
      → sum_by counted (cap_validator_set top_n cap vs) ≤ sum_by counted vs
  unfolding cap_validator_set
  cap_validator_set-counted top_n cap vs = go (ltb 0 top_n) (cap != 0 && ltb cap (length vs))
    where
      go :
          (x y : Bool)
          → sum_by counted (if x then vs else if y then take cap vs else vs) ≤ sum_by counted vs
      go true y = omega arith
      go false true = sum_by-take counted cap vs
      go false false = omega arith

  pub shape-counted :
      (l : Library) (c : Chain) (p : Parameters) (vs : List ConsensusValidator)
      → sum_by counted (shape l c p vs) ≤ sum_by counted vs
  unfolding shape
  shape-counted l c p vs =
      let parts = partition_based_on_priority_list l.sort_power c vs in
      let all = parts.0 ++ parts.1 in
      omega (
        arith,
        cap_validators_power-counted l p.validators_power_cap
            (cap_validator_set p.top_n p.validator_set_cap all),
        cap_validator_set-counted p.top_n p.validator_set_cap all,
        sum_by-perm counted (partition_based-addrs l.sort_power c vs),
      )

pub considered-counted :
    (g : StakingValidator → ℕ) (l : Library) (max_vals : ℕ) (p : Parameters)
    (bonded : List StakingValidator)
    → sum_by g (considered l max_vals p bonded) ≤ sum_by g bonded
unfolding considered
considered-counted g l max_vals p bonded =
    let sorted = l.sort_tokens.sort bonded in
    omega (
      arith,
      sum_by-perm g (l.sort_tokens.sort_perm bonded),
      go sorted p.allow_inactive_vals (ltb max_vals (length sorted)),
    )
  where
    go :
        (sorted : List StakingValidator) (x y : Bool)
        → sum_by g (if x then sorted else if y then take max_vals sorted else sorted)
          ≤ sum_by g sorted
    go sorted true y = omega arith
    go sorted false true = sum_by-take g max_vals sorted
    go sorted false false = omega arith
