-- ===== src/Examples/Powers.antt =====
-- Power shaping, run with insertion sort and exact decimals.
use mathlib.Core.List.{Perm}
use interchain_security.Common.{
  ℕ, ◌≤◌, ◌<◌, ◌*◌, ◌⊎◌, length, ◌≡◌, ◌≢◌, refl, List, [], ◌∷◌, some, true, false, arith, map, All,
}
use interchain_security.Common.Outcome.{ok}
use interchain_security.Sorting.{SortSlice}
use interchain_security.Sorting.Insertion.{insertion, greater-StrictWeak}
use interchain_security.Provider.Decimals.{exact_dec, exact_dec-RoundsQuotient}
use interchain_security.Provider.Staking.{Staking, StakingValidator}
use interchain_security.Provider.ValidatorSet.{ConsensusValidator}
use interchain_security.Provider.PowerShaping.PowerCap.{by_power, no_more_than_percent_of_the_sum}
use interchain_security.Provider.PowerShaping.PowerCap.Agreement.{total, IsBounded, powers_of}
use interchain_security.Provider.PowerShaping.PowerCap.Result.{
  cap_of, identity, no_more_than_percent-le, no_more_than_percent-total, no_more_than_percent-perm,
}
use interchain_security.Provider.PowerShaping.TopN.{
  powers_greater, collect_powers, compute_min_power_in_top_n,
}
use interchain_security.Provider.PowerShaping.TopN.Minimum.{
  at_least, more_than, compute_min_power_in_top_n-Found,
}

abbrev val : ℕ → ℕ → ConsensusValidator
val addr power = record {
  provider_cons_addr = addr;
  power = power;
  public_key = addr;
  join_height = 1;
}

abbrev pub by : SortSlice by_power
by = insertion by_power (greater-StrictWeak (λ v. v.power))

-- The example of the source's comment: the cap is 264, and 295 goes to the two others.
abbrev three : List ConsensusValidator
three = val 1 60 ∷ val 2 138 ∷ val 3 559 ∷ []

capped_powers :
    powers_of (no_more_than_percent_of_the_sum exact_dec by three 35) ≡ 264 ∷ 264 ∷ 229 ∷ []
unfolding no_more_than_percent_of_the_sum insertion
capped_powers = refl

three-IsBounded : IsBounded three
three-IsBounded = record { total_le = omega arith; count_le = omega arith }

no_more_than_percent-le_example :
    let result = no_more_than_percent_of_the_sum exact_dec by three 35 in
    All (λ v. v.power ≤ 264) result
    × (All (λ v. v.power ≤ cap_of result 35) result ⊎ (length three * 264 < total three))
no_more_than_percent-le_example =
    no_more_than_percent-le exact_dec by three 35 (λ s p. refl) three-IsBounded (omega arith)

-- Ten percent for each of three validators cannot be met: all get the cap, 75 of 757, which is more than ten
-- percent of their new total.
infeasible_powers :
    powers_of (no_more_than_percent_of_the_sum exact_dec by three 10) ≡ 75 ∷ 75 ∷ 75 ∷ []
unfolding no_more_than_percent_of_the_sum insertion
infeasible_powers = refl

no_more_than_percent-total_example :
    total (no_more_than_percent_of_the_sum exact_dec by three 35) ≡ 757
no_more_than_percent-total_example =
    no_more_than_percent-total exact_dec by three 35 (λ s p. refl) three-IsBounded (omega arith)
      (omega arith)

no_more_than_percent-perm_example :
    Perm (map identity (no_more_than_percent_of_the_sum exact_dec by three 35)) (map identity three)
no_more_than_percent-perm_example = no_more_than_percent-perm exact_dec by three 35

abbrev pub by_number : SortSlice powers_greater
by_number = insertion powers_greater (greater-StrictWeak (λ p. p))

-- The operator address is the validator's power here.
abbrev pub staked : ℕ → StakingValidator
staked power = record {
  operator = power;
  cons_addr = some power;
  cmt_cons_public_key = some power;
  bonded_tokens = power;
  is_jailed = false;
  is_unbonded = false;
}

abbrev pub staking : Staking
staking = record {
  val_address = λ a. some a;
  cons_address = λ a. some a;
  get_last_validator_power = λ a. ok a;
  get_validator_by_cons_addr = λ a. ok (staked a);
  unbonding_time = ok 100;
  is_tombstoned = λ a. false;
  key_address = λ a. some a;
}

abbrev pub bonded : List StakingValidator
bonded = staked 5 ∷ staked 60 ∷ staked 35 ∷ []

top_60_percent : compute_min_power_in_top_n exact_dec by_number staking bonded 60 ≡ ok 60
unfolding compute_min_power_in_top_n insertion
top_60_percent = refl

top_61_percent : compute_min_power_in_top_n exact_dec by_number staking bonded 61 ≡ ok 35
unfolding compute_min_power_in_top_n insertion
top_61_percent = refl

collected : collect_powers staking bonded ≡ ok (5 ∷ 60 ∷ 35 ∷ [])
unfolding collect_powers
collected = refl

compute_min_power_in_top_n-Found_example :
    (m : ℕ) × (compute_min_power_in_top_n exact_dec by_number staking bonded 61 ≡ ok m)
    × (exact_dec.share_reaches (at_least m (5 ∷ 60 ∷ 35 ∷ [])) 100 61 ≡ some true)
    × (exact_dec.share_reaches (more_than m (5 ∷ 60 ∷ 35 ∷ [])) 100 61 ≢ some true)
compute_min_power_in_top_n-Found_example =
    compute_min_power_in_top_n-Found exact_dec exact_dec-RoundsQuotient by_number staking bonded
      (5 ∷ 60 ∷ 35 ∷ []) 61 collected (omega arith) (omega arith) (omega arith)
