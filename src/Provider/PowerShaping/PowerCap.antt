-- ===== src/Provider/PowerShaping/PowerCap.antt =====
-- `NoMoreThanPercentOfTheSum` and `CapValidatorsPower` of power_shaping.go. Powers and the running
-- amounts are int64 patterns, with their wrap-around.
pub mod Exact
pub mod Agreement
pub mod Result
use interchain_security.Common.{ℕ, ◌≡◌, Bool, List, [], ◌∷◌, ltb, ◌==◌, if◌then◌else◌}
use interchain_security.Common.Words.{add64, sub64, ge_i64, div_i64}
use interchain_security.Sorting.{SortSlice, greater}
use interchain_security.Provider.Decimals.{LegacyDec}
use interchain_security.Provider.ValidatorSet.{ConsensusValidator}

abbrev pub by_power : ConsensusValidator → ConsensusValidator → Bool
by_power = greater (λ v. v.power)

-- `sum`
sum_from : ℕ → List ConsensusValidator → ℕ
unfolding add64
sum_from s [] = s
sum_from s (v ∷ vs) = sum_from (add64 s v.power) vs

unfoldable pub sum : List ConsensusValidator → ℕ
unfolding sum_from
sum vs = sum_from 0 vs

-- The first loop: what is above `max_power`, and how many validators are below it.
excess : ℕ → ℕ → List ConsensusValidator → ℕ
unfolding add64 sub64 ge_i64
excess max_power remaining [] = remaining
excess max_power remaining (v ∷ vs) =
    excess max_power
      (if ge_i64 v.power max_power then add64 remaining (sub64 v.power max_power) else remaining) vs

count_below : ℕ → ℕ → List ConsensusValidator → ℕ
unfolding add64 ge_i64
count_below max_power count [] = count
count_below max_power count (v ∷ vs) =
    count_below max_power (if ge_i64 v.power max_power then count else add64 count 1) vs

-- `remainingPower`, `remainingValidators` and `powerPerValidator`.
pub record Spread : Type 0 where
  pub remaining_power : ℕ
  pub remaining_validators : ℕ
  pub power_per_validator : ℕ

-- The end of each round: no division when no validator is left.
abbrev pub next_share : Spread → Spread
next_share s =
    if s.remaining_validators == 0
    then s
    else record s { power_per_validator = div_i64 s.remaining_power s.remaining_validators }

-- The new power of one validator.
give : ℕ → Spread → ConsensusValidator → ℕ
unfolding add64 ge_i64
give max_power s v =
    if ge_i64 v.power max_power
    then max_power
    else if ge_i64 (add64 v.power s.power_per_validator) max_power
    then max_power
    else add64 v.power s.power_per_validator

-- The running amounts after it.
taken : ℕ → Spread → ConsensusValidator → Spread
unfolding give sub64 ge_i64
taken max_power s v = if ge_i64 v.power max_power then s else record s {
  remaining_power = sub64 s.remaining_power (sub64 (give max_power s v) v.power);
  remaining_validators = sub64 s.remaining_validators 1;
}

-- The second loop.
pub spread : ℕ → Spread → List ConsensusValidator → List ConsensusValidator
unfolding give taken div_i64
spread max_power s [] = []
spread max_power s (v ∷ vs) =
    record v { power = give max_power s v } ∷ spread max_power (next_share (taken max_power s v)) vs

-- `maxPower`, at least 1.
pub max_power_of : LegacyDec → List ConsensusValidator → ℕ → ℕ
unfolding sum
max_power_of d vs percent =
    let max_power = d.percent_truncated (sum vs) percent in if max_power == 0 then 1 else max_power

pub start_spread : ℕ → List ConsensusValidator → Spread
unfolding excess count_below div_i64
start_spread max_power vs = next_share (record {
  remaining_power = excess max_power 0 vs;
  remaining_validators = count_below max_power 0 vs;
  power_per_validator = 0;
})

-- The validators are sorted after `maxPower` is computed.
unfoldable pub no_more_than_percent_of_the_sum :
    LegacyDec → SortSlice by_power → List ConsensusValidator → ℕ → List ConsensusValidator
unfolding max_power_of start_spread spread
no_more_than_percent_of_the_sum d by vs percent =
    let max_power = max_power_of d vs percent in
    let sorted = by.sort vs in spread max_power (start_spread max_power sorted) sorted

unfoldable pub cap_validators_power :
    LegacyDec → SortSlice by_power → ℕ → List ConsensusValidator → List ConsensusValidator
cap_validators_power d by validators_power_cap vs =
    if ltb 0 validators_power_cap
    then no_more_than_percent_of_the_sum d by vs validators_power_cap
    else vs
