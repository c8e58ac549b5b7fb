-- ===== src/Provider/NextValidators/Chosen.antt =====
-- The set that `ComputeNextValidators` gives: eligible validators only, all of them where no cap on
-- the set applies, and no more than the cap where one does.
use mathlib.Core.List.{Perm}
use mathlib.Core.List.Perm
use mathlib.Core.Bool.{Bool-set}
use interchain_security.Common.{
  ℕ, ◌≤◌, ◌≡◌, sym, subst, true, false, List, [], ◌∷◌, ◌++◌, Option, none, some, arith, ltb, ◌==◌,
  ◌||◌, inl, inr, Bool-cases, length, All, length-map,
}
use interchain_security.Common.Outcome.{ok, then_ok-ok, ok_inj}
use interchain_security.Sorting.Perms.{All-perm, length-perm}
use interchain_security.Provider.Staking.{Staking, StakingValidator, Block}
use interchain_security.Provider.Chain.{Chain}
use interchain_security.Provider.ValidatorSet.{ConsensusValidator}
use interchain_security.Provider.PowerShaping.Parameters.{Parameters}
use interchain_security.Provider.PowerShaping.TopN.{cap_validator_set}
use interchain_security.Provider.PowerShaping.Eligibility.{partition_based_on_priority_list}
use interchain_security.Provider.NextValidators.{
  Library, may_validate, filter_validators, shape, considered, compute_next_validators,
}
use interchain_security.Provider.NextValidators.Eligible.{eligible}
use interchain_security.Provider.NextValidators.Filtered.{
  addrs, keep_if, eligible_addrs, filter_validators-addrs,
}
use interchain_security.Provider.NextValidators.Shaped.{
  cap_validators_power-addrs, partition_based-addrs, cap_validator_set-All,
  cap_validator_set-uncapped, cap_validator_set-le, All-of_addrs, All-addrs,
}

module _ (l : Library) (k : Staking) (b : Block) (max_vals : ℕ) (c : Chain)
    (bonded : List StakingValidator) (p : Parameters) (min_power : ℕ)
    (next : List ConsensusValidator)
    (computed : compute_next_validators l k b max_vals c bonded p min_power ≡ ok next) where
  abbrev IsEligible : ℕ → Type 0
  IsEligible addr = eligible k c p min_power addr ≡ true

  keep_if-All :
      (rest : List ℕ) (o : Option ℕ)
      → All IsEligible rest
      → All IsEligible (keep_if (eligible k c p min_power) o rest)
  keep_if-All rest none h = h
  keep_if-All rest (some addr) h = elim (Bool-cases (eligible k c p min_power addr)) [
    | inl good ↦ rw (good) (good, h)
    | inr bad ↦ rw (bad) h
  ]

  eligible_addrs-All :
      (vs : List StakingValidator) → All IsEligible (eligible_addrs k c p min_power vs)
  eligible_addrs-All [] = tt
  eligible_addrs-All (v ∷ vs) = keep_if-All _ v.cons_addr (eligible_addrs-All vs)

  -- The filtered validators, and the set that is made of them.
  went_through :
      (ns : List ConsensusValidator) × ((addrs ns
          ≡ eligible_addrs k c p min_power (considered l max_vals p bonded))
        × (shape l c p ns ≡ next))
  unfolding compute_next_validators
  went_through =
      let r =
        filter_validators k b c (may_validate k c p min_power) (considered l max_vals p bonded) in
      let done = then_ok-ok r (λ ns. ok (shape l c p ns)) next computed in
      (
        done.0,
        (
          filter_validators-addrs k b c p min_power (considered l max_vals p bonded) done.0
              done.1.0,
          ok_inj done.1.1,
        ),
      )

  -- Every validator in a set that `ComputeNextValidators` gives may validate the chain: it opted in, or
  -- the chain is a Top N chain and its power reaches the minimum; it is on the allowlist unless that
  -- is empty, it is not on the denylist, and it has the minimal stake.
  pub compute_next_validators-eligible :
      All (λ v. eligible k c p min_power v.provider_cons_addr ≡ true) next
  unfolding shape
  compute_next_validators-eligible =
      let ns = went_through.0 in
      let parts = partition_based_on_priority_list l.sort_power c ns in
      let all = parts.0 ++ parts.1 in
      let capped = cap_validator_set p.top_n p.validator_set_cap all in
      let P : ConsensusValidator → Type 0 = λ v. IsEligible v.provider_cons_addr in
      let ns_all = All-of_addrs IsEligible ns (
        subst (All IsEligible) (sym went_through.1.0)
          (eligible_addrs-All (considered l max_vals p bonded))) in
      let all_all =
        All-perm P (λ v. Bool-set _ _) (Perm.symm (partition_based-addrs l.sort_power c ns))
          ns_all in
      let capped_all = cap_validator_set-All P p.top_n p.validator_set_cap all all_all in
      subst (All P) went_through.1.1 (
        All-of_addrs IsEligible (shape l c p ns) (
          All-perm IsEligible (λ a. Bool-set _ _)
            (Perm.symm
              (cap_validators_power-addrs l.decimals l.sort_power p.validators_power_cap capped))
            (All-addrs IsEligible capped capped_all)))

  -- On a Top N chain, and on any chain without a cap on its set, a set that `ComputeNextValidators`
  -- gives has exactly the eligible ones of the validators that it considers: none is left out.
  pub compute_next_validators-perm :
      ltb 0 p.top_n || p.validator_set_cap == 0 ≡ true
      → Perm (addrs next) (eligible_addrs k c p min_power (considered l max_vals p bonded))
  unfolding shape
  compute_next_validators-perm uncapped =
      let ns = went_through.0 in
      let parts = partition_based_on_priority_list l.sort_power c ns in
      let all = parts.0 ++ parts.1 in
      let capped = cap_validator_set p.top_n p.validator_set_cap all in
      subst
        (λ vs. Perm (addrs vs) (eligible_addrs k c p min_power (considered l max_vals p bonded)))
        went_through.1.1
        (Perm.trans
          (cap_validators_power-addrs l.decimals l.sort_power p.validators_power_cap capped)
          (subst (Perm (addrs capped)) went_through.1.0 (
            subst (λ vs. Perm (addrs vs) (addrs ns))
              (sym (cap_validator_set-uncapped p.top_n p.validator_set_cap all uncapped))
              (Perm.map (λ v. v.provider_cons_addr) (partition_based-addrs l.sort_power c ns)))))

  -- On a chain that is not a Top N chain and has a cap on its set, a set that `ComputeNextValidators`
  -- gives is no larger than the cap.
  pub compute_next_validators-le :
      ltb 0 p.top_n || p.validator_set_cap == 0 ≡ false → length next ≤ p.validator_set_cap
  unfolding shape
  compute_next_validators-le capped =
      let ns = went_through.0 in
      let parts = partition_based_on_priority_list l.sort_power c ns in
      let all = parts.0 ++ parts.1 in
      let kept = cap_validator_set p.top_n p.validator_set_cap all in
      subst (λ vs. length vs ≤ p.validator_set_cap) went_through.1.1
        (omega (
          arith,
          length-map (λ v. v.provider_cons_addr) (shape l c p ns),
          length-map (λ v. v.provider_cons_addr) kept,
          length-perm
              (cap_validators_power-addrs l.decimals l.sort_power p.validators_power_cap kept),
          cap_validator_set-le p.top_n p.validator_set_cap all capped,
        ))
