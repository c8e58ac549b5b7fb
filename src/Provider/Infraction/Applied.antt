-- ===== src/Provider/Infraction/Applied.antt =====
-- `BeginBlockUpdateInfractionParameters`: it applies what is queued for the chains whose time has come.
use interchain_security.Common.{
  ℕ, ◌+◌, ◌≤◌, ◌≡◌, refl, sym, ap, ◌∙◌, subst, Bool, true, false, List, Option, none, some, arith,
  if◌then◌else◌, is_some, take,
}
use interchain_security.Common.Outcome.{ok}
use interchain_security.Store.{elem}
use interchain_security.Store.Ordered.{Ascending}
use interchain_security.Provider.Staking.{Block}
use interchain_security.Provider.TimeQueue.{Queue, consume_ids_from_time_queue}
use interchain_security.Provider.TimeQueue.Consume.{due_ids, consume_ids_from_time_queue-due}
use interchain_security.Provider.TimeQueue.Counts.{
  count, tally, count-elem, elem-count, consume_ids_from_time_queue-Ascending,
  consume_ids_from_time_queue-tally,
}
use interchain_security.Provider.Infraction.{
  SlashJail, InfractionParameters, Infractions, get_queued_infraction_parameters,
  begin_block_update_infraction_parameters,
}
use interchain_security.Provider.Infraction.Unscheduled.{IsScheduled}
use interchain_security.Provider.Infraction.Turns.{Applied, Ready, apply_each-Applied}

abbrev flag : Option InfractionParameters → ℕ
flag o = if is_some o then 1 else 0

flag_of : (o : Option InfractionParameters) → 1 ≤ flag o → (p : InfractionParameters) × (o ≡ some p)
flag_of none h = absurd (omega (arith, h))
flag_of (some p) h = (p, refl)

flag_le : (o : Option InfractionParameters) → flag o ≤ 1
flag_le none = omega arith
flag_le (some p) = omega arith

complete_of : (o : Option SlashJail) → is_some o ≡ true → (d : SlashJail) × (o ≡ some d)
complete_of none h = cc
complete_of (some d) h = (d, refl)

-- The ids that a schedule gives and what is left of it.
module _ (now : ℕ) (s : Infractions) (h : IsScheduled s) where
  abbrev consumed : List ℕ × Queue
  consumed = consume_ids_from_time_queue 200 now s.schedule

  abbrev left : Infractions
  left = record s { schedule = consumed.1 }

  split :
      (j : ℕ)
      → count j consumed.0 + tally j consumed.1 ≡ flag (get_queued_infraction_parameters j s)
  split j = consume_ids_from_time_queue-tally 200 now j s.schedule h.ordered ∙ h.counted j

  consumed-Ready : Ready consumed.0 left
  consumed-Ready j listed =
      let o = get_queued_infraction_parameters j s in
      let found = flag_of o (omega (arith, split j, elem-count j consumed.0 listed)) in
      let d = complete_of found.0.downtime (h.usable j found.0 found.1) in
      (omega (arith, split j, flag_le o), (found.0, (d.0, (found.1, d.1))))

  left-IsScheduled :
      (s' : Infractions)
      → s'.schedule ≡ consumed.1
      → ((j : ℕ) → Applied (elem j consumed.0) j s s')
      → IsScheduled s'
  left-IsScheduled s' e a = record {
    ordered =
        subst Ascending (sym e)
          (consume_ids_from_time_queue-Ascending 200 now s.schedule h.ordered);
    counted = λ j. ap (tally j) e ∙ counted_at j (elem j consumed.0) refl (a j);
    usable = λ j p q. usable_at j p (elem j consumed.0) (a j) q;
  }
    where
      counted_at :
          (j : ℕ) (x : Bool)
          → elem j consumed.0 ≡ x
          → Applied x j s s'
          → tally j consumed.1 ≡ flag (get_queued_infraction_parameters j s')
      counted_at j true listed (p, q) = omega (
        arith,
        split j,
        flag_le (get_queued_infraction_parameters j s),
        elem-count j consumed.0 listed,
        ap flag q,
      )
      counted_at j false other (p, q) =
          omega (arith, split j, count-elem j consumed.0 other, ap flag q)

      usable_at :
          (j : ℕ) (p : InfractionParameters) (x : Bool)
          → Applied x j s s'
          → get_queued_infraction_parameters j s' ≡ some p
          → is_some p.downtime ≡ true
      usable_at j p true (e, e') q = cc
      usable_at j p false (e, e') q = h.usable j p (sym e' ∙ q)

-- Where the schedule is in ascending order of times, every chain with queued parameters is scheduled once, no
-- other chain is scheduled, and all queued parameters have a downtime part, without which
-- `SetInfractionParameters` panics,
-- `BeginBlockUpdateInfractionParameters` does not fail. The chains among the first 200 ids of the schedule
-- whose time has come have the parameters that were queued for them, and nothing is queued for them
-- any more; the others keep both. What is left meets the same conditions.
pub begin_block_update_infraction_parameters-Applied :
    (b : Block) (s : Infractions)
    → IsScheduled s
    → (s' : Infractions) × ((begin_block_update_infraction_parameters b s ≡ (ok tt, s'))
        × (IsScheduled s'
            × ((j : ℕ) → Applied (elem j (take 200 (due_ids b.time s.schedule))) j s s')))
unfolding begin_block_update_infraction_parameters
begin_block_update_infraction_parameters-Applied b s h =
    let run =
      apply_each-Applied (consumed b.time s h).0 (left b.time s h) (consumed-Ready b.time s h) in
    let s' = run.0 in
    let due = consume_ids_from_time_queue-due 200 b.time s.schedule h.ordered in
    let at = λ (j : ℕ). from_left (elem j (consumed b.time s h).0) j s' (run.1.1.1 j) in
    (
      s',
      (
        run.1.0,
        (
          left-IsScheduled b.time s h s' run.1.1.0 at,
          λ j. subst (λ ids. Applied (elem j ids) j s s') due (at j),
        ),
      ),
    )
  where
    from_left :
        (x : Bool) (j : ℕ) (s' : Infractions) → Applied x j (left b.time s h) s' → Applied x j s s'
    from_left true j s' a = a
    from_left false j s' a = a
