-- ===== src/Provider/SlashMeter/Range.antt =====
-- The slash meter stays within the range of the voting power, and what a check makes of it.
use interchain_security.Common.{
  ℕ, ◌+◌, ◌≤◌, ◌≡◌, refl, ap, ◌∙◌, Bool, true, false, some, arith, ltb, leb, ◌||◌, if◌then◌else◌,
  not,
}
use interchain_security.Common.Int.{ℤ, pos, negsuc, ◌+ℤ◌, ◌-ℤ◌, ltb_ℤ, leb_ℤ, pos_part, neg_part}
use interchain_security.Common.Outcome.{Outcome, ok, ◌>>◌, continue, modify, pure}
use interchain_security.Provider.Staking.{Block}
use interchain_security.Provider.SlashMeter.{
  Throttle, Allowance, max_total_voting_power, get_slash_meter_allowance, set_slash_meter,
  replenished, set_slash_meter_replenish_time_candidate, check_for_slash_meter_replenishment,
  replenish_if_due, cap_if_full, replenish_slash_meter,
}

-- A throttle that is set up.
abbrev pub throttle : ℤ → ℕ → Throttle
throttle meter candidate = record {
  slash_meter = some meter;
  replenish_time_candidate = some candidate;
}

pub record InRange (meter : ℤ) : Type 0 where
  pub high : pos_part meter ≤ max_total_voting_power
  pub low : neg_part meter ≤ max_total_voting_power

pub set_slash_meter-ok :
    (meter : ℤ) (t : Throttle)
    → InRange meter
    → set_slash_meter meter t ≡ (ok tt, record t { slash_meter = some meter })
unfolding set_slash_meter ◌-ℤ◌
set_slash_meter-ok (pos n) t r = ground (arith, r.high)
set_slash_meter-ok (negsuc n) t r = ground (arith, r.low)

abbrev pub min_ℤ : ℤ → ℤ → ℤ
min_ℤ x y = if leb_ℤ x y then x else y

replenished-high :
    (n : ℕ) (meter : ℤ)
    → n ≤ max_total_voting_power
    → pos_part (replenished n meter) ≤ max_total_voting_power
unfolding ◌+ℤ◌
replenished-high n (pos m) h = ground arith
replenished-high n (negsuc m) h = ground arith

replenished-low :
    (n : ℕ) (meter : ℤ) → InRange meter → neg_part (replenished n meter) ≤ max_total_voting_power
unfolding ◌+ℤ◌
replenished-low n (pos m) r = ground (arith, r.low)
replenished-low n (negsuc m) r = ground (arith, r.low)

replenished-InRange :
    (n : ℕ) (meter : ℤ) → n ≤ max_total_voting_power → InRange meter → InRange (replenished n meter)
replenished-InRange n meter h r = record {
  high = replenished-high n meter h;
  low = replenished-low n meter r;
}

cut-min : (n : ℕ) (z : ℤ) → (if ltb_ℤ (pos n) z then pos n else z) ≡ min_ℤ (pos n) z
cut-min n (pos m) = ground arith
cut-min n (negsuc m) = ground arith

min-min : (n : ℕ) (z : ℤ) → min_ℤ (pos n) (min_ℤ (pos n) z) ≡ min_ℤ (pos n) z
min-min n (pos m) = ground arith
min-min n (negsuc m) = ground arith

full-min : (n : ℕ) (z : ℤ) → leb_ℤ (pos n) (min_ℤ (pos n) z) ≡ leb_ℤ (pos n) z
full-min n (pos m) = ground arith
full-min n (negsuc m) = ground arith

same_branch : (x : Bool) (y : ℕ) → (if x then y else y) ≡ y
same_branch true y = refl
same_branch false y = refl

not_before : (t c : ℕ) → not (ltb t c) ≡ leb c t
not_before t c = ground arith

-- What a meter is after a check, before it is cut to the allowance.
abbrev pub refilled : Bool → ℕ → ℤ → ℤ
refilled due n meter = if due then meter +ℤ pos n else meter

module _ (a : Allowance) (b : Block)
    (bounded : get_slash_meter_allowance a ≤ max_total_voting_power) where
  replenish_if_due-ok :
      (meter : ℤ) (candidate : ℕ)
      → InRange meter
      → (let due = not (ltb b.time candidate) in
          replenish_if_due a b (throttle meter candidate) ≡ (
            ok tt,
            if due
                then throttle
                    (replenished (get_slash_meter_allowance a) meter)
                    (b.time + a.replenish_period)
                else throttle meter candidate,
          ))
  unfolding replenish_if_due replenish_slash_meter
  replenish_if_due-ok meter candidate r = go (not (ltb b.time candidate))
    where
      go :
          (due : Bool)
          → (if due
                then replenish_slash_meter a
                  >> modify (set_slash_meter_replenish_time_candidate a b)
                else pure tt)
              (throttle meter candidate)
            ≡ (
              ok tt,
              if due
                  then throttle
                      (replenished (get_slash_meter_allowance a) meter)
                      (b.time + a.replenish_period)
                  else throttle meter candidate,
            )
      go true =
          ap (λ x. continue x λ u. modify (set_slash_meter_replenish_time_candidate a b))
            (set_slash_meter-ok (replenished (get_slash_meter_allowance a) meter)
              (throttle meter candidate)
              (replenished-InRange (get_slash_meter_allowance a) meter bounded r))
      go false = refl

  cap_if_full-ok :
      (meter : ℤ) (candidate : ℕ)
      → cap_if_full a b (throttle meter candidate) ≡ (
        ok tt,
        throttle (min_ℤ (pos (get_slash_meter_allowance a)) meter) (
            if leb_ℤ (pos (get_slash_meter_allowance a)) meter
            then b.time + a.replenish_period
            else candidate),
      )
  unfolding cap_if_full
  cap_if_full-ok meter candidate = go (leb_ℤ (pos (get_slash_meter_allowance a)) meter)
    where
      go :
          (full : Bool)
          → (if full
                then modify (set_slash_meter_replenish_time_candidate a b)
                  >> set_slash_meter (pos (get_slash_meter_allowance a))
                else pure tt)
              (throttle meter candidate)
            ≡ (
              ok tt,
              throttle
                  (if full then pos (get_slash_meter_allowance a) else meter)
                  (if full then b.time + a.replenish_period else candidate),
            )
      go true =
          set_slash_meter-ok (pos (get_slash_meter_allowance a))
            (throttle meter (b.time + a.replenish_period))
            (record { high = bounded; low = omega arith })
      go false = refl

  -- On a throttle that is set up, with the meter in the range of the total voting power and an allowance
  -- within it, `CheckForSlashMeterReplenishment` does not panic: it adds the allowance to the meter if the
  -- candidate time has come, cuts it to the allowance, and moves the candidate time to one period
  -- from now if the time had come or the meter is full.
  pub check_for_slash_meter_replenishment-ok :
      (meter : ℤ) (candidate : ℕ)
      → InRange meter
      → (let n = get_slash_meter_allowance a in
          let due = leb candidate b.time in
          check_for_slash_meter_replenishment a b (throttle meter candidate) ≡ (
            ok tt,
            throttle (min_ℤ (pos n) (refilled due n meter)) (
                if due || leb_ℤ (pos n) (refilled due n meter)
                then b.time + a.replenish_period
                else candidate),
          ))
  unfolding check_for_slash_meter_replenishment
  check_for_slash_meter_replenishment-ok meter candidate r =
      ap (λ x. continue x λ u. cap_if_full a b) (replenish_if_due-ok meter candidate r)
      ∙ capped (not (ltb b.time candidate))
      ∙ ap (λ due. after due) (not_before b.time candidate)
    where
      n : ℕ
      n = get_slash_meter_allowance a

      after : Bool → Outcome (Unit {0}) × Throttle
      after due = (
        ok tt,
        throttle (min_ℤ (pos n) (refilled due n meter)) (
            if due || leb_ℤ (pos n) (refilled due n meter)
            then b.time + a.replenish_period
            else candidate),
      )

      capped :
          (due : Bool)
          → cap_if_full a b (
              if due
              then throttle (replenished n meter) (b.time + a.replenish_period)
              else throttle meter candidate)
            ≡ after due
      capped true =
          cap_if_full-ok (replenished n meter) (b.time + a.replenish_period)
          ∙ ap (λ y. (ok tt, throttle (min_ℤ (pos n) (replenished n meter)) y))
              (same_branch (leb_ℤ (pos n) (replenished n meter)) (b.time + a.replenish_period))
          ∙ ap (λ x. (ok tt, throttle x (b.time + a.replenish_period)))
              (ap (min_ℤ (pos n)) (cut-min n (meter +ℤ pos n)) ∙ min-min n (meter +ℤ pos n))
      capped false = cap_if_full-ok meter candidate
