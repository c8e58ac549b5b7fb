-- ===== src/Provider/NextValidators.antt =====
-- The next validator set of a consumer chain: x/ccv/provider/keeper/validator_set_update.go.
pub mod Eligible
pub mod Filtered
pub mod Shaped
pub mod Chosen
pub mod Sent
pub mod Counted
pub mod Distinct
pub mod Stored
use interchain_security.Common.{
  ℕ, Bool, true, false, List, [], ◌∷◌, ◌++◌, Option, none, some, ltb, ◌&&◌, if◌then◌else◌, length,
  take,
}
use interchain_security.Common.Outcome.{
  Outcome, ok, err, panic, then_ok, Handler, ◌>>=◌, ◌>>◌, pure, gets, modify, attempt, or_fail,
  invalid_consumer_state,
}
use interchain_security.Store
use interchain_security.Sorting.{SortSlice, greater}
use interchain_security.Updates.{ValidatorUpdate}
use interchain_security.Provider.Decimals.{LegacyDec}
use interchain_security.Provider.Staking.{Staking, StakingValidator, Block}
use interchain_security.Provider.KeyAssignment.{get_validator_consumer_pub_key}
use interchain_security.Provider.Chain.{Chain}
use interchain_security.Provider.ValidatorSet.{ConsensusValidator, set_val_set, diff_validators}
use interchain_security.Provider.PowerShaping.Parameters.{Parameters}
use interchain_security.Provider.PowerShaping.PowerCap.{by_power, cap_validators_power}
use interchain_security.Provider.PowerShaping.TopN.{
  or_external, last_power, powers_greater, compute_min_power_in_top_n, cap_validator_set,
}
use interchain_security.Provider.PowerShaping.Eligibility.{
  can_validate_chain, fulfills_min_stake, partition_based_on_priority_list,
  set_minimum_power_in_top_n,
}
use interchain_security.Provider.OptIn.{opt_in_top_n_validators}

-- The consumer key that the validator assigned, else its own.
unfoldable pub consumer_public_key : Chain → StakingValidator → ℕ → Outcome ℕ
consumer_public_key c v addr = elim (get_validator_consumer_pub_key addr c.keys) [
  | some key ↦ ok key
  | none ↦ or_external v.cmt_cons_public_key
]

-- The height at which the validator joined, kept from the stored set.
abbrev pub join_height_of : Block → Option ConsensusValidator → ℕ
join_height_of b none = b.height
join_height_of b (some v) = v.join_height

unfoldable pub create_consumer_validator :
    Staking → Block → Chain → StakingValidator → Outcome ConsensusValidator
unfolding last_power consumer_public_key
create_consumer_validator k b c v = then_ok (last_power k v) λ power.
    then_ok (or_external v.cons_addr) λ addr. then_ok (consumer_public_key c v addr) λ key.
      ok record {
        provider_cons_addr = addr;
        power = power;
        public_key = key;
        join_height = join_height_of b (Store.get addr c.val_set);
      }

-- One turn of the loop of `FilterValidators`: `none` passes over the validator.
unfoldable pub filter_validator :
    Staking
    → Block
    → Chain
    → (ℕ → Outcome Bool)
    → StakingValidator
    → Outcome (Option ConsensusValidator)
unfolding create_consumer_validator
filter_validator k b c predicate v = elim v.cons_addr [
  | none ↦ ok none
  | some addr ↦ then_ok (predicate addr) λ good.
      if good then then_ok (create_consumer_validator k b c v) (λ n. ok (some n)) else ok none
]

abbrev pub append_if : Option ConsensusValidator → List ConsensusValidator → List ConsensusValidator
append_if none vs = vs
append_if (some v) vs = v ∷ vs

unfoldable pub filter_validators :
    Staking
    → Block
    → Chain
    → (ℕ → Outcome Bool)
    → List StakingValidator
    → Outcome (List ConsensusValidator)
unfolding filter_validator
filter_validators k b c predicate [] = ok []
filter_validators k b c predicate (v ∷ vs) =
    then_ok (filter_validator k b c predicate v)
      λ n. then_ok (filter_validators k b c predicate vs) λ ns. ok (append_if n ns)

abbrev pub by_tokens : StakingValidator → StakingValidator → Bool
by_tokens = greater λ v. v.bonded_tokens

-- The library code that a computation runs with: decimals and the three sorts.
pub record Library : Type 0 where
  pub decimals : LegacyDec
  pub sort_tokens : SortSlice by_tokens
  pub sort_power : SortSlice by_power
  pub sort_powers : SortSlice powers_greater

-- The predicate that `ComputeNextValidators` filters by.
unfoldable pub may_validate : Staking → Chain → Parameters → ℕ → ℕ → Outcome Bool
unfolding can_validate_chain fulfills_min_stake
may_validate k c p min_power addr =
    then_ok (can_validate_chain k c addr p.top_n min_power)
      λ can. then_ok (fulfills_min_stake k p.min_stake addr) λ stake. ok (can && stake)

-- The bonded validators that are considered: all, or those in the consensus of the provider.
unfoldable pub considered : Library → ℕ → Parameters → List StakingValidator → List StakingValidator
considered l max_vals p bonded =
    let sorted = l.sort_tokens.sort bonded in
    if p.allow_inactive_vals
    then sorted
    else if ltb max_vals (length sorted)
    then take max_vals sorted
    else sorted

-- What `ComputeNextValidators` does with the filtered validators.
unfoldable pub shape :
    Library → Chain → Parameters → List ConsensusValidator → List ConsensusValidator
unfolding partition_based_on_priority_list cap_validator_set cap_validators_power
shape l c p vs =
    let (priority, others) = partition_based_on_priority_list l.sort_power c vs in
    cap_validators_power l.decimals l.sort_power p.validators_power_cap
      (cap_validator_set p.top_n p.validator_set_cap (priority ++ others))

unfoldable pub compute_next_validators :
    Library
    → Staking
    → Block
    → ℕ
    → Chain
    → List StakingValidator
    → Parameters
    → ℕ
    → Outcome (List ConsensusValidator)
unfolding shape considered filter_validators may_validate
compute_next_validators l k b max_vals c bonded p min_power =
    then_ok
      (filter_validators k b c (may_validate k c p min_power) (considered l max_vals p bonded))
      λ next. ok (shape l c p next)

-- The Top N part of `ComputeConsumerNextValSet`, which gives the minimal power.
unfoldable pub opt_in_top_n :
    Library → Staking → List StakingValidator → Parameters → Handler Chain ℕ
unfolding compute_min_power_in_top_n opt_in_top_n_validators
opt_in_top_n l k active p =
    if ltb 0 p.top_n
    then (do
      min_power ← attempt (compute_min_power_in_top_n l.decimals l.sort_powers k active p.top_n)
      modify (set_minimum_power_in_top_n min_power)
      opt_in_top_n_validators k active min_power
      pure min_power)
    else pure 0

abbrev pub store_val_set : List ConsensusValidator → Chain → Chain
store_val_set next c = record c { val_set = set_val_set next c.val_set }

unfoldable pub compute_consumer_next_val_set :
    Library
    → Staking
    → Block
    → ℕ
    → List StakingValidator
    → List StakingValidator
    → List ConsensusValidator
    → Handler Chain (List ValidatorUpdate)
unfolding opt_in_top_n compute_next_validators set_val_set diff_validators
compute_consumer_next_val_set l k b max_vals bonded active current = do
  stored ← gets λ c. c.parameters
  p ← or_fail stored invalid_consumer_state
  min_power ← opt_in_top_n l k active p
  computed ← gets λ c. compute_next_validators l k b max_vals c bonded p min_power
  next ← attempt computed
  modify (store_val_set next)
  pure (diff_validators current next)
