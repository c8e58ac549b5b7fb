-- ===== src/Provider/SlashMeter.antt =====
-- The throttle of jailing, x/ccv/provider/keeper/throttle.go: a meter that every handled slash packet
-- draws the validator's power from, and that is filled again from time to time. And where
-- `OnRecvSlashPacket` of relay.go draws from it.
pub mod Range
pub mod History
use interchain_security.Common.{
  ℕ, ◌+◌, ◌-◌, Bool, true, false, Option, none, some, ltb, ◌==◌, ◌||◌, if◌then◌else◌, not,
}
use interchain_security.Common.Int.{ℤ, pos, negsuc, ◌+ℤ◌, ◌-ℤ◌, ltb_ℤ, leb_ℤ, is_negative}
use interchain_security.Common.Outcome.{
  Outcome, ok, err, panic, Handler, ◌>>=◌, ◌>>◌, pure, gets, modify, panics, then_ok,
}
use interchain_security.Provider.Staking.{Staking, StakingValidator, Block}

pub record Throttle : Type 0 where
  pub slash_meter : Option ℤ
  pub replenish_time_candidate : Option ℕ

-- What the throttle reads: the allowance that the parameter's fraction of the total power rounds to
-- (`decFrac.MulInt(totalPower).RoundInt64()`, for a fraction in [0, 1]), and the replenish period.
pub record Allowance : Type 0 where
  pub rounded : ℕ
  pub replenish_period : ℕ

-- tmtypes.MaxTotalVotingPower: math.MaxInt64 / 8.
abbrev pub max_total_voting_power : ℕ
max_total_voting_power = 0xfff_ffff_ffff_ffff

-- The staking module's getters are taken to return, so that the cases of a panic never occur.
abbrev pub get_effective_val_power : Staking → ℕ → ℕ
get_effective_val_power k addr = elim (k.get_validator_by_cons_addr addr) [
  | ok v ↦ if v.is_jailed then 0 else power_or_zero (address v.operator)
  | err e ↦ 0
  | panic ↦ 0
]
  where
    address : ℕ → Outcome ℕ
    address operator = elim (k.val_address operator) [
      | none ↦ panic
      | some a ↦ k.get_last_validator_power a
    ]

    power_or_zero : Outcome ℕ → ℕ
    power_or_zero (ok power) = power
    power_or_zero (err e) = 0
    power_or_zero panic = 0

abbrev pub get_slash_meter_allowance : Allowance → ℕ
get_slash_meter_allowance a = if a.rounded == 0 then 1 else a.rounded

abbrev pub or_panic : {A : Type 0} → Option A → Handler Throttle A
or_panic none t = (panic, t)
or_panic (some a) t = (ok a, t)

abbrev pub get_slash_meter : Handler Throttle ℤ
get_slash_meter t = or_panic t.slash_meter t

-- The value panics outside of the range of the total voting power.
unfoldable pub set_slash_meter : ℤ → Handler Throttle (Unit {0})
set_slash_meter value t =
    if ltb_ℤ (pos max_total_voting_power) value || ltb_ℤ value (pos 0 -ℤ pos max_total_voting_power)
    then (panic, t)
    else (ok tt, record t { slash_meter = some value })

abbrev pub get_slash_meter_replenish_time_candidate : Handler Throttle ℕ
get_slash_meter_replenish_time_candidate t = or_panic t.replenish_time_candidate t

abbrev pub set_slash_meter_replenish_time_candidate : Allowance → Block → Throttle → Throttle
set_slash_meter_replenish_time_candidate a b t = record t {
  replenish_time_candidate = some (b.time + a.replenish_period);
}

unfoldable pub initialize_slash_meter : Allowance → Block → Handler Throttle (Unit {0})
unfolding set_slash_meter
initialize_slash_meter a b = do
  set_slash_meter (pos (get_slash_meter_allowance a))
  modify (set_slash_meter_replenish_time_candidate a b)

-- The meter after a replenishment.
abbrev pub replenished : ℕ → ℤ → ℤ
replenished allowance meter =
    let sum = meter +ℤ pos allowance in if ltb_ℤ (pos allowance) sum then pos allowance else sum

unfoldable pub replenish_slash_meter : Allowance → Handler Throttle (Unit {0})
unfolding set_slash_meter
replenish_slash_meter a = do
  meter ← get_slash_meter
  set_slash_meter (replenished (get_slash_meter_allowance a) meter)

-- The first half of `CheckForSlashMeterReplenishment`.
unfoldable pub replenish_if_due : Allowance → Block → Handler Throttle (Unit {0})
unfolding replenish_slash_meter
replenish_if_due a b = do
  candidate ← get_slash_meter_replenish_time_candidate
  if not (ltb b.time candidate)
      then (do replenish_slash_meter a; modify (set_slash_meter_replenish_time_candidate a b))
      else pure tt

-- The second half: a full meter waits and is cut to the allowance.
unfoldable pub cap_if_full : Allowance → Block → Handler Throttle (Unit {0})
unfolding set_slash_meter
cap_if_full a b = do
  meter ← get_slash_meter
  if leb_ℤ (pos (get_slash_meter_allowance a)) meter
      then (do
        modify (set_slash_meter_replenish_time_candidate a b)
        set_slash_meter (pos (get_slash_meter_allowance a)))
      else pure tt

unfoldable pub check_for_slash_meter_replenishment : Allowance → Block → Handler Throttle (Unit {0})
unfolding replenish_if_due cap_if_full
check_for_slash_meter_replenishment a b = replenish_if_due a b >> cap_if_full a b

-- `OnRecvSlashPacket` at the meter: whether the packet is handled or bounced.
unfoldable pub draw_from_meter : ℕ → Handler Throttle Bool
unfolding set_slash_meter
draw_from_meter effective_power = do
  meter ← get_slash_meter
  if is_negative meter
      then pure false
      else set_slash_meter (meter -ℤ pos effective_power) >> pure true
