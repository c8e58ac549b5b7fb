-- ===== src/Provider/SlashMeter/History.antt =====
-- The slash meter over any sequence of checks and drawings.
use interchain_security.Common.{
  ℕ, ◌+◌, ◌≤◌, ◌≡◌, refl, ap, ◌∙◌, Bool, true, false, List, [], ◌∷◌, arith, leb, ◌||◌,
  if◌then◌else◌, All, not, map,
}
use interchain_security.Common.Int.{ℤ, pos, negsuc, ◌+ℤ◌, ◌-ℤ◌, leb_ℤ, neg_part, is_negative}
use interchain_security.Common.Outcome.{Outcome, ok, Handler, ◌>>◌, ◌>>=◌, continue, pure}
use interchain_security.Provider.Staking.{Block}
use interchain_security.Provider.SlashMeter.{
  Throttle, Allowance, max_total_voting_power, get_slash_meter_allowance,
  check_for_slash_meter_replenishment, draw_from_meter,
}
use interchain_security.Provider.SlashMeter.Range.{
  throttle, InRange, set_slash_meter-ok, min_ℤ, refilled, check_for_slash_meter_replenishment-ok,
}

-- What happens to the meter: a block's check, or a slash packet for a validator with some power.
pub data Event : Type 0 where
  check : Allowance → Block → Event
  slash : ℕ → Event

-- The events of a history, with the power of the validators whose packets were handled.
pub run : List Event → Handler Throttle ℕ
unfolding check_for_slash_meter_replenishment draw_from_meter
run [] = pure 0
run (check a b ∷ es) = check_for_slash_meter_replenishment a b >> run es
run (slash power ∷ es) = draw_from_meter power >>= λ handled.
    run es >>= λ rest. pure (if handled then power + rest else rest)

-- No allowance and no power exceeds the largest total voting power.
abbrev pub IsBounded : Event → Type 0
IsBounded (check a b) = get_slash_meter_allowance a ≤ max_total_voting_power
IsBounded (slash power) = power ≤ max_total_voting_power

-- The meter after a packet for a validator with some power.
abbrev pub drawn : ℤ → ℕ → ℤ
drawn (pos m) power = pos m -ℤ pos power
drawn (negsuc m) power = negsuc m

drawn-InRange :
    (meter : ℤ) (power : ℕ)
    → InRange meter
    → power ≤ max_total_voting_power
    → InRange (drawn meter power)
unfolding ◌-ℤ◌
drawn-InRange (pos m) power r h = record {
  high = ground (arith, r.high);
  low = ground (arith, r.high);
}
drawn-InRange (negsuc m) power r h = r

draw_from_meter-ok :
    (meter : ℤ) (candidate power : ℕ)
    → InRange meter
    → power ≤ max_total_voting_power
    → draw_from_meter power (throttle meter candidate)
      ≡ (ok (not (is_negative meter)), throttle (drawn meter power) candidate)
unfolding draw_from_meter
draw_from_meter-ok (pos m) candidate power r h =
    ap (λ x. continue x λ u. pure true)
      (set_slash_meter-ok (pos m -ℤ pos power) (throttle (pos m) candidate)
        (drawn-InRange (pos m) power r h))
draw_from_meter-ok (negsuc m) candidate power r h = refl

min_ℤ-InRange :
    (n : ℕ) (z : ℤ)
    → n ≤ max_total_voting_power
    → neg_part z ≤ max_total_voting_power
    → InRange (min_ℤ (pos n) z)
min_ℤ-InRange n (pos m) h k = record { high = ground arith; low = ground arith }
min_ℤ-InRange n (negsuc m) h k = record { high = ground arith; low = ground arith }

refilled-low : (due : Bool) (n : ℕ) (meter : ℤ) → neg_part (refilled due n meter) ≤ neg_part meter
unfolding ◌+ℤ◌
refilled-low true n (pos m) = ground arith
refilled-low true n (negsuc m) = ground arith
refilled-low false n meter = omega arith

-- A packet and the rest of a history.
slash-run :
    (power : ℕ) (es : List Event) (meter : ℤ) (candidate rest : ℕ) (t : Throttle)
    → draw_from_meter power (throttle meter candidate)
      ≡ (ok (not (is_negative meter)), throttle (drawn meter power) candidate)
    → run es (throttle (drawn meter power) candidate) ≡ (ok rest, t)
    → run (slash power ∷ es) (throttle meter candidate)
      ≡ (ok (if not (is_negative meter) then power + rest else rest), t)
unfolding run
slash-run power es meter candidate rest t d e =
    ap (λ x. continue x λ handled. run es >>= λ n. pure (if handled then power + n else n)) d
    ∙ ap (λ x. continue x λ n. pure (if not (is_negative meter) then power + n else n)) e

-- Where a history of the throttle ends: with a value, and with a meter in the range.
abbrev pub IsSound : Outcome ℕ × Throttle → Type 0
IsSound r =
    (total : ℕ) × ((meter : ℤ) × ((candidate : ℕ) × ((r ≡ (ok total, throttle meter candidate))
          × InRange meter)))

-- The throttle never panics: from any meter in the range of the total voting power, any sequence of
-- checks and slash packets, with allowances and powers of at most the largest total voting power,
-- runs to its end and leaves the meter in the range.
pub run-IsSound :
    (es : List Event) (meter : ℤ) (candidate : ℕ)
    → All IsBounded es
    → InRange meter
    → IsSound (run es (throttle meter candidate))
unfolding run
run-IsSound [] meter candidate h r = (0, (meter, (candidate, (refl, r))))
run-IsSound (check a b ∷ es) meter candidate h r =
    let n = get_slash_meter_allowance a in
    let due = leb candidate b.time in
    let after = min_ℤ (pos n) (refilled due n meter) in
    let rest =
      run-IsSound es after
        (if due || leb_ℤ (pos n) (refilled due n meter)
          then b.time + a.replenish_period
          else candidate)
        h.1
        (min_ℤ-InRange n (refilled due n meter) h.0
          (omega (arith, refilled-low due n meter, r.low))) in
    (
      rest.0,
      (
        rest.1.0,
        (
          rest.1.1.0,
          (
            ap (λ x. continue x λ u. run es)
                  (check_for_slash_meter_replenishment-ok a b h.0 meter candidate r)
                ∙ rest.1.1.1.0,
            rest.1.1.1.1,
          ),
        ),
      ),
    )
run-IsSound (slash power ∷ es) meter candidate h r =
    let rest = run-IsSound es (drawn meter power) candidate h.1 (drawn-InRange meter power r h.0) in
    (
      if not (is_negative meter) then power + rest.0 else rest.0,
      (
        rest.1.0,
        (
          rest.1.1.0,
          (
            slash-run power es meter candidate rest.0 (throttle rest.1.0 rest.1.1.0)
                (draw_from_meter-ok meter candidate power r h.0) rest.1.1.1.0,
            rest.1.1.1.1,
          ),
        ),
      ),
    )

-- What may be handled before the meter is filled again.
abbrev pub budget : ℕ → ℤ → ℕ
budget limit (pos m) = m + limit
budget limit (negsuc m) = 0

budget-drawn :
    (limit power : ℕ) (meter : ℤ) (rest : ℕ)
    → power ≤ limit
    → rest ≤ budget limit (drawn meter power)
    → (if not (is_negative meter) then power + rest else rest) ≤ budget limit meter
unfolding ◌-ℤ◌
budget-drawn limit power (pos m) rest h k = ground arith
budget-drawn limit power (negsuc m) rest h k = k

-- Without a check in between, the slash packets that are handled are for validators whose powers sum to at
-- most what the meter holds and the power of one more validator, where no validator has more
-- than the given power; and while the meter is negative, none is handled.
pub run-budget :
    (powers : List ℕ) (limit : ℕ) (meter : ℤ) (candidate : ℕ)
    → All (λ p. p ≤ limit) powers
    → limit ≤ max_total_voting_power
    → InRange meter
    → (total : ℕ) × ((t : Throttle) × ((run (map slash powers) (throttle meter candidate)
            ≡ (ok total, t))
          × (total ≤ budget limit meter)))
unfolding run
run-budget [] limit meter candidate h k r = (0, (throttle meter candidate, (refl, omega arith)))
run-budget (p ∷ powers) limit meter candidate h k r =
    let small : p ≤ max_total_voting_power = omega (arith, h.0, k) in
    let rest =
      run-budget powers limit (drawn meter p) candidate h.1 k (drawn-InRange meter p r small) in
    (
      if not (is_negative meter) then p + rest.0 else rest.0,
      (
        rest.1.0,
        (
          slash-run p (map slash powers) meter candidate rest.0 rest.1.0
              (draw_from_meter-ok meter candidate p r small) rest.1.1.0,
          budget-drawn limit p meter rest.0 h.0 rest.1.1.1,
        ),
      ),
    )
