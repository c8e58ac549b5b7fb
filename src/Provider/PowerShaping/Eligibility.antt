-- ===== src/Provider/PowerShaping/Eligibility.antt =====
-- Who may validate a consumer chain and in which order, in power_shaping.go; and the getters and
-- setters of the power-shaping parameters.
pub mod Indexes
use interchain_security.Common.{
  ℕ, Bool, true, false, not, List, [], ◌∷◌, Option, none, some, ltb, leb, ◌==◌, ◌!=◌, ◌&&◌, ◌||◌,
  if◌then◌else◌,
}
use interchain_security.Common.Outcome.{Outcome, ok, err, panic, then_ok, store_key_not_found}
use interchain_security.Sorting.{SortSlice}
use interchain_security.Provider.Staking.{Staking}
use interchain_security.Provider.Chain.{Chain, contains}
use interchain_security.Provider.ValidatorSet.{ConsensusValidator}
use interchain_security.Provider.PowerShaping.Parameters.{Parameters, zero_parameters}
use interchain_security.Provider.PowerShaping.PowerCap.{by_power}
use interchain_security.Provider.PowerShaping.TopN.{last_power}
use interchain_security.Provider.PowerShaping.AddressLists.{
  is_allowlisted, is_allowlist_empty, is_denylisted, is_denylist_empty, is_prioritylisted,
  update_allowlist, update_denylist, update_prioritylist,
}

-- `IsOptedIn` of partial_set_security.go.
abbrev pub is_opted_in : ℕ → Chain → Bool
is_opted_in addr c = contains addr c.opted_in

unfoldable pub has_min_power : Staking → ℕ → ℕ → Outcome Bool
unfolding last_power
has_min_power k addr min_power =
    then_ok (k.get_validator_by_cons_addr addr)
      λ v. then_ok (last_power k v) λ power. ok (leb min_power power)

unfoldable pub can_validate_chain : Staking → Chain → ℕ → ℕ → ℕ → Outcome Bool
unfolding has_min_power
can_validate_chain k c addr top_n min_power_to_opt_in =
    let already = is_opted_in addr c in
    then_ok
      (if not already && ltb 0 top_n then has_min_power k addr min_power_to_opt_in else ok already)
      λ opted_in. ok (
        opted_in
        && (is_allowlist_empty c || is_allowlisted addr c)
        && (is_denylist_empty c || not (is_denylisted addr c)))

unfoldable pub fulfills_min_stake : Staking → ℕ → ℕ → Outcome Bool
fulfills_min_stake k min_stake addr =
    if min_stake == 0
    then ok true
    else then_ok (k.get_validator_by_cons_addr addr) λ v. ok (leb min_stake v.bonded_tokens)

-- The loop of `PartitionBasedOnPriorityList`.
unfoldable pub partition :
    Chain → List ConsensusValidator → List ConsensusValidator × List ConsensusValidator
partition c [] = ([], [])
partition c (v ∷ vs) =
    let (priority, others) = partition c vs in
    if is_prioritylisted v.provider_cons_addr c
    then (v ∷ priority, others)
    else (priority, v ∷ others)

unfoldable pub partition_based_on_priority_list :
    SortSlice by_power
    → Chain
    → List ConsensusValidator
    → List ConsensusValidator × List ConsensusValidator
unfolding partition
partition_based_on_priority_list by c vs =
    let (priority, others) = partition c vs in (by.sort priority, by.sort others)

abbrev pub get_consumer_power_shaping_parameters : Chain → Outcome Parameters
get_consumer_power_shaping_parameters c = elim c.parameters [
  | none ↦ err store_key_not_found
  | some p ↦ ok p
]

abbrev pub equal_string_slices : List ℕ → List ℕ → Bool
equal_string_slices [] [] = true
equal_string_slices [] (y ∷ ys) = false
equal_string_slices (x ∷ xs) [] = false
equal_string_slices (x ∷ xs) (y ∷ ys) = x == y && equal_string_slices xs ys

-- `oldParameters`: the zero value where none are stored.
abbrev pub old_parameters : Outcome Parameters → Parameters
old_parameters (ok p) = p
old_parameters (err e) = zero_parameters
old_parameters panic = zero_parameters

abbrev pub update_if : Bool → (Chain → Chain) → Chain → Chain
update_if true f c = f c
update_if false f c = c

unfoldable pub set_consumer_power_shaping_parameters : Staking → Parameters → Chain → Chain
unfolding update_allowlist update_denylist update_prioritylist
set_consumer_power_shaping_parameters k p c =
    let old = old_parameters (get_consumer_power_shaping_parameters c) in
    let c₀ = record c { parameters = some p } in
    let c₁ =
      update_if (not (equal_string_slices old.allowlist p.allowlist))
        (update_allowlist k p.allowlist) c₀ in
    let c₂ =
      update_if (not (equal_string_slices old.denylist p.denylist)) (update_denylist k p.denylist)
        c₁ in
    update_if (not (equal_string_slices old.prioritylist p.prioritylist))
      (update_prioritylist k p.prioritylist) c₂

-- `SetMinimumPowerInTopN`, `GetMinimumPowerInTopN` and `DeleteMinimumPowerInTopN`.
abbrev pub set_minimum_power_in_top_n : ℕ → Chain → Chain
set_minimum_power_in_top_n power c = record c { minimum_power_in_top_n = some power }

abbrev pub get_minimum_power_in_top_n : Chain → Option ℕ
get_minimum_power_in_top_n c = c.minimum_power_in_top_n

abbrev pub delete_minimum_power_in_top_n : Chain → Chain
delete_minimum_power_in_top_n c = record c { minimum_power_in_top_n = none }
