-- ===== src/Examples/Meter.antt =====
-- Runs of the slash meter with an allowance of 5 and a period of 60, and instances of its theorems.
use interchain_security.Common.{
  ℕ, ◌≤◌, ◌≡◌, refl, ◌+◌, false, List, [], ◌∷◌, arith, leb, ◌||◌, if◌then◌else◌, map,
}
use interchain_security.Common.Int.{pos, negsuc, ◌+ℤ◌, ◌-ℤ◌, leb_ℤ}
use interchain_security.Common.Outcome.{ok}
use interchain_security.Provider.Staking.{Block}
use interchain_security.Provider.SlashMeter.{
  Throttle, Allowance, check_for_slash_meter_replenishment, set_slash_meter, draw_from_meter,
}
use interchain_security.Provider.SlashMeter.Range.{
  throttle, InRange, min_ℤ, refilled, check_for_slash_meter_replenishment-ok,
}
use interchain_security.Provider.SlashMeter.History.{
  Event, check, slash, run, IsSound, run-IsSound, budget, run-budget,
}

abbrev five : Allowance
five = record { rounded = 5; replenish_period = 60 }

abbrev at : ℕ → Block
at t = record { time = t; height = 1 }

meter-InRange : InRange (pos 3)
meter-InRange = record { high = omega arith; low = omega arith }

-- The meter goes below zero with the packet for power 10, and is filled at time 100.
refill :
    check_for_slash_meter_replenishment five (at 100) (throttle (negsuc 6) 100)
    ≡ (ok tt, throttle (negsuc 1) 160)
unfolding check_for_slash_meter_replenishment set_slash_meter ◌+ℤ◌ ◌-ℤ◌
refill = refl

bounced : draw_from_meter 4 (throttle (negsuc 1) 160) ≡ (ok false, throttle (negsuc 1) 160)
unfolding draw_from_meter
bounced = refl

check_for_slash_meter_replenishment-ok_example :
    check_for_slash_meter_replenishment five (at 100) (throttle (pos 3) 100) ≡ (
      ok tt,
      throttle (min_ℤ (pos 5) (refilled (leb 100 100) 5 (pos 3))) (
          if leb 100 100 || leb_ℤ (pos 5) (refilled (leb 100 100) 5 (pos 3))
          then 100 + 60
          else 100),
    )
check_for_slash_meter_replenishment-ok_example =
    check_for_slash_meter_replenishment-ok five (at 100) (omega arith) (pos 3) 100 meter-InRange

abbrev events : List Event
events = slash 10 ∷ slash 4 ∷ check five (at 100) ∷ slash 4 ∷ []

run-IsSound_example : IsSound (run events (throttle (pos 3) 100))
run-IsSound_example =
    run-IsSound events (pos 3) 100 (omega arith, (omega arith, (omega arith, (omega arith, tt))))
      meter-InRange

run-budget_example :
    (total : ℕ) × ((t : Throttle) × ((run (map slash (2 ∷ 10 ∷ 4 ∷ [])) (throttle (pos 3) 100)
          ≡ (ok total, t))
        × (total ≤ budget 10 (pos 3))))
run-budget_example =
    run-budget (2 ∷ 10 ∷ 4 ∷ []) 10 (pos 3) 100 (omega arith, (omega arith, (omega arith, tt)))
      (omega arith) meter-InRange
