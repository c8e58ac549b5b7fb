-- ===== src/Provider/PowerShaping/TopN.antt =====
-- `ComputeMinPowerInTopN` and `CapValidatorSet` of power_shaping.go.
pub mod Minimum
use interchain_security.Common.{
  ℕ, ◌+◌, Bool, true, false, List, [], ◌∷◌, Option, none, some, ltb, ◌==◌, ◌!=◌, ◌&&◌, ◌||◌,
  if◌then◌else◌, length, take,
}
use interchain_security.Common.Outcome.{
  Outcome, ok, err, panic, then_ok, Error, external, invalid_top_n, unreachable,
}
use interchain_security.Sorting.{SortSlice, greater}
use interchain_security.Provider.Decimals.{LegacyDec}
use interchain_security.Provider.Staking.{Staking, StakingValidator}
use interchain_security.Provider.ValidatorSet.{ConsensusValidator}

abbrev pub or_external : {A : Type 0} → Option A → Outcome A
or_external none = err external
or_external (some a) = ok a

-- `sdk.ValAddressFromBech32` and `GetLastValidatorPower`.
unfoldable pub last_power : Staking → StakingValidator → Outcome ℕ
last_power k v = then_ok (or_external (k.val_address v.operator)) k.get_last_validator_power

-- The loop that collects the powers.
unfoldable pub collect_powers : Staking → List StakingValidator → Outcome (List ℕ)
unfolding last_power
collect_powers k [] = ok []
collect_powers k (v ∷ vs) =
    then_ok (last_power k v) λ p. then_ok (collect_powers k vs) λ ps. ok (p ∷ ps)

sum_powers : List ℕ → ℕ
sum_powers [] = 0
sum_powers (p ∷ ps) = p + sum_powers ps

-- The loop over the powers in descending order.
find_min_power : LegacyDec → ℕ → ℕ → ℕ → List ℕ → Outcome ℕ
find_min_power d top_n total sum [] = err unreachable
find_min_power d top_n total sum (p ∷ ps) = elim (d.share_reaches (sum + p) total top_n) [
  | none ↦ panic
  | some true ↦ ok p
  | some false ↦ find_min_power d top_n total (sum + p) ps
]

abbrev pub powers_greater : ℕ → ℕ → Bool
powers_greater = greater (λ p. p)

unfoldable pub compute_min_power_in_top_n :
    LegacyDec → SortSlice powers_greater → Staking → List StakingValidator → ℕ → Outcome ℕ
unfolding find_min_power collect_powers sum_powers
compute_min_power_in_top_n d by k bonded top_n =
    if top_n == 0 || ltb 100 top_n
    then err invalid_top_n
    else then_ok (collect_powers k bonded)
        λ powers. find_min_power d top_n (sum_powers powers) 0 (by.sort powers)

-- A Top N chain has no cap on its set; a cap of 0 is none.
unfoldable pub cap_validator_set : ℕ → ℕ → List ConsensusValidator → List ConsensusValidator
cap_validator_set top_n validator_set_cap vs =
    if ltb 0 top_n
    then vs
    else if validator_set_cap != 0 && ltb validator_set_cap (length vs)
    then take validator_set_cap vs
    else vs
