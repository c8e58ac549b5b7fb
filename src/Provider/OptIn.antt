-- ===== src/Provider/OptIn.antt =====
-- x/ccv/provider/keeper/partial_set_security.go: validators opt in to and out of a consumer chain.
pub mod Membership
use interchain_security.Common.{
  ℕ, Bool, true, false, not, List, [], ◌∷◌, Option, none, some, ltb, leb, if◌then◌else◌,
}
use interchain_security.Common.Outcome.{
  Outcome, ok, err, panic, Handler, ◌>>=◌, ◌>>◌, pure, gets, modify, reject_if, attempt, or_fail,
  Error, invalid_phase, unknown_consumer_id, invalid_consumer_state, cannot_opt_out_from_top_n,
  external,
}
use interchain_security.Store
use interchain_security.Provider.Phase.{Phase, is_consumer_active, is_launched, is_unspecified}
use interchain_security.Provider.Staking.{Staking, StakingValidator, Block}
use interchain_security.Provider.KeyAssignment.{assign_consumer_key, Keys}
use interchain_security.Provider.Chain.{Chain, add, contains, delete_all}
use interchain_security.Provider.PowerShaping.Parameters.{Parameters}
use interchain_security.Provider.PowerShaping.TopN.{last_power}
use interchain_security.Provider.PowerShaping.Eligibility.{get_minimum_power_in_top_n}

abbrev pub set_opted_in : ℕ → Chain → Chain
set_opted_in addr c = record c { opted_in = add addr c.opted_in }

abbrev pub delete_opted_in : ℕ → Chain → Chain
delete_opted_in addr c = record c { opted_in = Store.delete addr c.opted_in }

abbrev pub get_all_opted_in : Chain → List ℕ
get_all_opted_in c = Store.keys c.opted_in

unfoldable pub delete_all_opted_in : Chain → Chain
delete_all_opted_in c = record c { opted_in = delete_all c.opted_in }

-- A handler of the key assignment within the chain's state.
abbrev pub on_keys : Handler Keys (Unit {0}) → Handler Chain (Unit {0})
on_keys h c = let (r, keys) = h c.keys in (r, record c { keys = keys })

-- The rest of `HandleOptIn` where a consumer key is given.
unfoldable pub opt_in_with_key : Staking → Block → ℕ → Option ℕ → Handler Chain (Unit {0})
opt_in_with_key k b addr parsed_key = do
  consumer_key ← or_fail parsed_key external
  v ← attempt (k.get_validator_by_cons_addr addr)
  phase ← gets λ c. c.phase
  on_keys (assign_consumer_key k b phase v consumer_key)

-- `HandleOptIn`. The key is `none` for the empty string, else what `ParseConsumerKey` makes of it.
unfoldable pub handle_opt_in : Staking → Block → ℕ → Option (Option ℕ) → Handler Chain (Unit {0})
unfolding opt_in_with_key
handle_opt_in k b addr consumer_key = do
  phase ← gets λ c. c.phase
  reject_if (not (is_consumer_active phase)) invalid_phase
  modify (set_opted_in addr)
  elim consumer_key [ none ↦ pure tt | some parsed_key ↦ opt_in_with_key k b addr parsed_key ]

-- The check of `HandleOptOut` on a Top N chain.
unfoldable pub check_not_in_top_n : Staking → ℕ → Handler Chain (Unit {0})
unfolding last_power
check_not_in_top_n k addr = do
  v ← attempt (k.get_validator_by_cons_addr addr)
  power ← attempt (last_power k v)
  found ← gets get_minimum_power_in_top_n
  min_power_in_top_n ← or_fail found unknown_consumer_id
  reject_if (leb min_power_in_top_n power) cannot_opt_out_from_top_n

unfoldable pub handle_opt_out : Staking → ℕ → Handler Chain (Unit {0})
unfolding check_not_in_top_n
handle_opt_out k addr = do
  phase ← gets λ c. c.phase
  reject_if (is_unspecified phase) unknown_consumer_id
  reject_if (not (is_launched phase)) invalid_phase
  stored ← gets λ c. c.parameters
  parameters ← or_fail stored invalid_consumer_state
  if ltb 0 parameters.top_n then check_not_in_top_n k addr else pure tt
  modify (delete_opted_in addr)

-- One turn of the loop of `OptInTopNValidators`.
unfoldable pub opt_in_if_top : Staking → ℕ → StakingValidator → Handler Chain (Unit {0})
unfolding last_power
opt_in_if_top k min_power_to_opt_in v = do
  power ← attempt (last_power k v)
  if leb min_power_to_opt_in power
      then (do addr ← or_fail v.cons_addr external; modify (set_opted_in addr))
      else pure tt

unfoldable pub opt_in_top_n_validators :
    Staking → List StakingValidator → ℕ → Handler Chain (Unit {0})
unfolding opt_in_if_top
opt_in_top_n_validators k [] min_power_to_opt_in = pure tt
opt_in_top_n_validators k (v ∷ vs) min_power_to_opt_in =
    opt_in_if_top k min_power_to_opt_in v >> opt_in_top_n_validators k vs min_power_to_opt_in
