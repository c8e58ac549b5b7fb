-- ===== src/Provider/Infraction/Unscheduled.antt =====
-- The schedule of the infraction parameters after `RemoveConsumerInfractionQueuedData`.
use interchain_security.Common.{
  ℕ, ◌+◌, ◌≤◌, ◌≡◌, refl, sym, ap, ◌∙◌, subst, Bool, true, false, [], ◌∷◌, Option, none, some,
  arith, ◌==◌, if◌then◌else◌, inl, inr, Bool-cases, is_some,
}
use interchain_security.Common.Outcome.{ok, continue, pure}
use interchain_security.Store.{elem, get-delete}
use interchain_security.Store.Ordered.{Ascending}
use interchain_security.Provider.TimeQueue.{Queue, ids_at, get_ids, remove_id}
use interchain_security.Provider.TimeQueue.Consume.{Reads, Reads-self}
use interchain_security.Provider.TimeQueue.Counts.{
  tally, count-elem, tally-elem, remove_id-ok, remove_id-absent,
}
use interchain_security.Provider.Infraction.{
  InfractionParameters, Infractions, get_queued_infraction_parameters,
  has_queued_infraction_parameters, scheduled_time, get_consumer_infraction_update_time, unschedule,
  remove_consumer_infraction_queued_data,
}

pub record IsScheduled (s : Infractions) : Type 0 where
  pub ordered : Ascending s.schedule
  pub counted :
      (id : ℕ) → tally id s.schedule ≡ (if has_queued_infraction_parameters id s then 1 else 0)
  pub usable :
      (id : ℕ) (p : InfractionParameters)
      → get_queued_infraction_parameters id s ≡ some p
      → is_some p.downtime ≡ true

-- An id that is in a queue is found under a time.
scheduled_time-found :
    (id : ℕ) (q rest : Queue)
    → Reads q rest
    → 1 ≤ tally id rest
    → (ts : ℕ) × ((scheduled_time id q rest ≡ some ts) × (elem id (get_ids ts q) ≡ true))
unfolding scheduled_time
scheduled_time-found id q [] r h = absurd (omega (arith, h))
scheduled_time-found id q ((ts, v) ∷ rest) r h =
    let here : get_ids ts q ≡ v = ap ids_at r.0 in
    elim (Bool-cases (elem id (get_ids ts q))) [
      | inl listed ↦ (ts, (rw (listed) refl, listed))
      | inr other ↦
          let found =
            scheduled_time-found id q rest r.1
              (omega (arith, h, count-elem id v (ap (elem id) (sym here) ∙ other))) in
          (found.0, (rw (other) found.1.0, found.1.1))
    ]

-- An id that is scheduled once is unscheduled.
abbrev Unscheduled : ℕ → Queue → Queue → Type 0
Unscheduled id q q' = Ascending q' × ((j : ℕ) → tally j q' + (if j == id then 1 else 0) ≡ tally j q)

unschedule-once :
    (id : ℕ) (q : Queue) → Ascending q → tally id q ≡ 1 → Unscheduled id q (unschedule id q).1
unfolding unschedule get_consumer_infraction_update_time
unschedule-once id q a once =
    let found = scheduled_time-found id q q (Reads-self q a) (omega (arith, once)) in
    let ts = found.0 in
    let gone = remove_id-ok id ts q a found.1.1 in
    let q' = gone.0 in
    let none_left : tally id q' ≡ 0 = ground (arith, gone.1.1.1 id, once) in
    let first : get_consumer_infraction_update_time id q ≡ (ok ts, q') =
      rw (get_consumer_infraction_update_time, found.1.0)
        (ap (λ r. continue r (λ u. pure ts)) gone.1.0) in
    let both : (unschedule id q).1 ≡ q' =
      ap (λ r. (continue r (λ t. remove_id id t)).1) first
      ∙ remove_id-absent id ts q' (tally-elem id ts q' none_left) in
    subst (Unscheduled id q) (sym both) gone.1.1

-- The state after `RemoveConsumerInfractionQueuedData`.
abbrev pub cleared : ℕ → Infractions → Infractions
cleared id s = remove_consumer_infraction_queued_data id s

pub cleared-queued :
    (id j : ℕ) (s : Infractions)
    → get_queued_infraction_parameters j (cleared id s)
      ≡ (if j == id then none else get_queued_infraction_parameters j s)
unfolding remove_consumer_infraction_queued_data
cleared-queued id j s = elim (Bool-cases (has_queued_infraction_parameters id s)) [
  | inl queued ↦ rw (queued, cleared) (get-delete id j s.queued)
  | inr nothing ↦
      rw (nothing, cleared)
        (elim (Bool-cases (j == id)) [
          | inl at ↦
              let same : id ≡ j = ground (arith, at) in
              rw (at) (
                none_if (get_queued_infraction_parameters j s)
                  (subst (λ m. has_queued_infraction_parameters m s ≡ false) same nothing))
          | inr other ↦ rw (other) refl
        ])
]
  where
    none_if : {A : Type 0} (o : Option A) → is_some o ≡ false → o ≡ none
    none_if none e = refl
    none_if (some x) e = cc

pub cleared-parameters : (id : ℕ) (s : Infractions) → (cleared id s).parameters ≡ s.parameters
unfolding remove_consumer_infraction_queued_data
cleared-parameters id s = elim (Bool-cases (has_queued_infraction_parameters id s)) [
  | inl queued ↦ rw (queued, cleared) refl
  | inr nothing ↦ rw (nothing, cleared) refl
]

cleared-schedule :
    (id : ℕ) (s : Infractions)
    → IsScheduled s
    → Ascending (cleared id s).schedule
      × ((j : ℕ) → tally j (cleared id s).schedule ≡ (if j == id then 0 else tally j s.schedule))
unfolding remove_consumer_infraction_queued_data
cleared-schedule id s h = elim (Bool-cases (has_queued_infraction_parameters id s)) [
  | inl queued ↦
      let once : tally id s.schedule ≡ 1 = h.counted id ∙ ap (λ x. if x then 1 else 0) queued in
      let gone = unschedule-once id s.schedule h.ordered once in
      rw (queued, cleared)
        (
          gone.0,
          λ j. at_most j id s.schedule (tally j (unschedule id s.schedule).1) (gone.1 j) once,
        )
  | inr nothing ↦
      let never : tally id s.schedule ≡ 0 = h.counted id ∙ ap (λ x. if x then 1 else 0) nothing in
      rw (nothing, cleared) (h.ordered, λ j. not_there j id s.schedule never)
]
  where
    at_most :
        (j id : ℕ) (q : Queue) (n : ℕ)
        → n + (if j == id then 1 else 0) ≡ tally j q
        → tally id q ≡ 1
        → n ≡ (if j == id then 0 else tally j q)
    at_most j id q n e once = elim (Bool-cases (j == id)) [
      | inl at ↦
          let same : j ≡ id = ground (arith, at) in
          rw (at) (
            omega (
              arith,
              sym (ap (λ x. n + (if x then 1 else 0)) at) ∙ e ∙ ap (λ m. tally m q) same ∙ once,
            ))
      | inr other ↦ rw (other) (omega (arith, sym (ap (λ x. n + (if x then 1 else 0)) other) ∙ e))
    ]

    not_there :
        (j id : ℕ) (q : Queue) → tally id q ≡ 0 → tally j q ≡ (if j == id then 0 else tally j q)
    not_there j id q never = elim (Bool-cases (j == id)) [
      | inl at ↦
          let same : j ≡ id = ground (arith, at) in rw (at) (ap (λ m. tally m q) same ∙ never)
      | inr other ↦ rw (other) refl
    ]

pub cleared-IsScheduled : (id : ℕ) (s : Infractions) → IsScheduled s → IsScheduled (cleared id s)
cleared-IsScheduled id s h = record {
  ordered = (cleared-schedule id s h).0;
  counted = λ j.
      (cleared-schedule id s h).1 j
      ∙ counted_at j (j == id)
      ∙ ap (λ o. if is_some o then 1 else 0) (sym (cleared-queued id j s));
  usable = λ j p e. usable_at j p (j == id) (sym (cleared-queued id j s) ∙ e);
}
  where
    counted_at :
        (j : ℕ) (x : Bool)
        → (if x then 0 else tally j s.schedule)
          ≡ (if is_some (if x then none else get_queued_infraction_parameters j s) then 1 else 0)
    counted_at j true = refl
    counted_at j false = h.counted j

    usable_at :
        (j : ℕ) (p : InfractionParameters) (x : Bool)
        → (if x then none else get_queued_infraction_parameters j s) ≡ some p
        → is_some p.downtime ≡ true
    usable_at j p true e = cc
    usable_at j p false e = h.usable j p e
