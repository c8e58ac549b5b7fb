-- ===== src/Provider/Infraction/Scheduled.antt =====
-- The schedule of the infraction parameters: a consumer chain is in it once if it has queued parameters, and
-- else it is not.
use interchain_security.Common.{
  ℕ, ◌+◌, ◌≡◌, ◌≢◌, ◌⊎◌, inl, inr, refl, sym, ap, ◌∙◌, subst, Bool, true, false, List, [], ◌∷◌,
  ◌++◌, Option, none, some, arith, ◌==◌, Bool-cases, if◌then◌else◌, is_some,
}
use interchain_security.Common.Outcome.{
  Outcome, ok, continue-ok, ◌>>=◌, ◌>>◌, pure, or_fail, or_fail-ok, modify, attempt, external,
}
use interchain_security.Store
use interchain_security.Store.{elem, get-set, get-delete}
use interchain_security.Provider.Staking.{Staking, Block}
use interchain_security.Provider.TimeQueue.{ids_at, get_ids}
use interchain_security.Provider.TimeQueue.Counts.{tally, append_id-tally, append_id-Ascending}
use interchain_security.Provider.Infraction.{
  SlashJail, InfractionParameters, Infractions, compare_slash_jail_parameters, same_flag,
  compare_infraction_parameters, get_infraction_parameters, get_queued_infraction_parameters,
  set_queued_infraction_parameters, has_queued_infraction_parameters,
  add_to_infraction_update_schedule, update_queued_infraction_params,
}
use interchain_security.Provider.Infraction.Unscheduled.{
  IsScheduled, cleared, cleared-queued, cleared-parameters, cleared-IsScheduled,
}

-- New parameters are queued and scheduled.
abbrev queue_new : ℕ → InfractionParameters → ℕ → Infractions → Infractions
queue_new id new ts s =
    add_to_infraction_update_schedule id ts (set_queued_infraction_parameters id new s)

queue_new-IsScheduled :
    (id ts : ℕ) (new : InfractionParameters) (s : Infractions)
    → is_some new.downtime ≡ true
    → has_queued_infraction_parameters id s ≡ false
    → IsScheduled s
    → IsScheduled (queue_new id new ts s)
queue_new-IsScheduled id ts new s complete free h = record {
  ordered = append_id-Ascending id ts s.schedule h.ordered;
  counted = λ j.
      append_id-tally j id ts s.schedule h.ordered
      ∙ counted_at j (j == id) refl
      ∙ ap (λ o. if is_some o then 1 else 0) (sym (get-set id j new s.queued));
  usable = λ j p e. usable_at j p (j == id) (sym (get-set id j new s.queued) ∙ e);
}
  where
    counted_at :
        (j : ℕ) (x : Bool)
        → (j == id) ≡ x
        → tally j s.schedule + (if x then 1 else 0) ≡ (
            if is_some (if x then some new else get_queued_infraction_parameters j s) then 1 else 0)
    counted_at j true at =
        let same : id ≡ j = ground (arith, at) in
        let never : tally j s.schedule ≡ 0 =
          h.counted j
          ∙ ap (λ x. if x then 1 else 0)
              (subst (λ m. has_queued_infraction_parameters m s ≡ false) same free) in
        omega (arith, never)
    counted_at j false other = omega (arith, h.counted j)

    usable_at :
        (j : ℕ) (p : InfractionParameters) (x : Bool)
        → (if x then some new else get_queued_infraction_parameters j s) ≡ some p
        → is_some p.downtime ≡ true
    usable_at j p true e = ap (λ o. is_some (downtime_of o)) (sym e) ∙ complete
      where
        downtime_of : Option InfractionParameters → Option SlashJail
        downtime_of none = none
        downtime_of (some q) = q.downtime
    usable_at j p false e = h.usable j p e

-- The comparison of the parameters decides whether they are equal.
compare_slash_jail_parameters-decides :
    (a b : Option SlashJail)
    → ((compare_slash_jail_parameters a b ≡ true) × (a ≡ b))
      ⊎ ((compare_slash_jail_parameters a b ≡ false) × (a ≢ b))
unfolding compare_slash_jail_parameters
compare_slash_jail_parameters-decides none none = inl (refl, refl)
compare_slash_jail_parameters-decides none (some b) = inr (refl, λ e. cc)
compare_slash_jail_parameters-decides (some a) none = inr (refl, λ e. cc)
compare_slash_jail_parameters-decides (some a) (some b) =
    elim (same_flag-decides a.tombstone b.tombstone) [
      | inr (x, different) ↦ inr (rw (x) refl, λ e. different (ap tombstone_of e))
      | inl (x, same) ↦ elim (Bool-cases (a.slash_fraction == b.slash_fraction)) [
        | inr other ↦ inr (
          rw (x, other) refl,
          λ e.
              let f : a.slash_fraction ≡ b.slash_fraction = ap fraction_of e in
              ground (arith, f, other),
        )
        | inl fraction ↦ elim (Bool-cases (a.jail_duration == b.jail_duration)) [
          | inr other ↦ inr (
            rw (x, fraction, other) refl,
            λ e.
                let f : a.jail_duration ≡ b.jail_duration = ap duration_of e in
                ground (arith, f, other),
          )
          | inl duration ↦ inl (
            rw (x, fraction, duration) refl,
            let f : a.slash_fraction ≡ b.slash_fraction = ground (arith, fraction) in
                let d : a.jail_duration ≡ b.jail_duration = ground (arith, duration) in
                ap some (
                  ap
                    (λ n. record {
                      slash_fraction = n;
                      jail_duration = a.jail_duration;
                      tombstone = a.tombstone;
                    })
                    f
                  ∙ ap
                      (λ n. record {
                        slash_fraction = b.slash_fraction;
                        jail_duration = n;
                        tombstone = a.tombstone;
                      })
                      d
                  ∙ ap
                      (λ n. record {
                        slash_fraction = b.slash_fraction;
                        jail_duration = b.jail_duration;
                        tombstone = n;
                      })
                      same),
          )
        ]
      ]
    ]
  where
    same_flag-decides :
        (x y : Bool) → ((same_flag x y ≡ true) × (x ≡ y)) ⊎ ((same_flag x y ≡ false) × (x ≢ y))
    same_flag-decides true true = inl (refl, refl)
    same_flag-decides true false = inr (refl, λ e. cc)
    same_flag-decides false true = inr (refl, λ e. cc)
    same_flag-decides false false = inl (refl, refl)

    fraction_of : Option SlashJail → ℕ
    fraction_of none = 0
    fraction_of (some c) = c.slash_fraction

    duration_of : Option SlashJail → ℕ
    duration_of none = 0
    duration_of (some c) = c.jail_duration

    tombstone_of : Option SlashJail → Bool
    tombstone_of none = false
    tombstone_of (some c) = c.tombstone

compare_infraction_parameters-decides :
    (a b : InfractionParameters)
    → ((compare_infraction_parameters a b ≡ true) × (a ≡ b))
      ⊎ ((compare_infraction_parameters a b ≡ false) × (a ≢ b))
unfolding compare_infraction_parameters
compare_infraction_parameters-decides a b =
    elim (compare_slash_jail_parameters-decides a.double_sign b.double_sign) [
      | inr (x, different) ↦ inr (rw (x) refl, λ e. different (ap (λ p. p.double_sign) e))
      | inl (x, same) ↦ elim (compare_slash_jail_parameters-decides a.downtime b.downtime) [
        | inr (y, different) ↦ inr (rw (x, y) refl, λ e. different (ap (λ p. p.downtime) e))
        | inl (y, same') ↦ inl (
          rw (x, y) refl,
          ap (λ d. record { double_sign = d; downtime = a.downtime }) same
              ∙ ap (λ d. record { double_sign = b.double_sign; downtime = d }) same',
        )
      ]
    ]

-- What is done for the chain once its old request is gone: nothing, or the new one is queued for the time when
-- the unbonding period has passed.
abbrev Requested :
    Staking → Block → ℕ → InfractionParameters → Bool → Infractions → Infractions → Type 0
Requested k b id new true s s' = s' ≡ s
Requested k b id new false s s' =
    (period : ℕ) × ((k.unbonding_time ≡ ok period) × (s' ≡ queue_new id new (b.time + period) s))

update_queued_infraction_params-Requested :
    (k : Staking) (b : Block) (id : ℕ) (new : InfractionParameters) (s s' : Infractions)
    → update_queued_infraction_params k b id new s ≡ (ok tt, s')
    → (current : InfractionParameters) × ((get_infraction_parameters id s ≡ some current)
        × Requested k b id new (compare_infraction_parameters current new) (cleared id s) s')
unfolding update_queued_infraction_params
update_queued_infraction_params-Requested k b id new s s' e =
    let s1 = cleared id s in
    let found = continue-ok (or_fail (get_infraction_parameters id s1) external s1) _ tt s' e in
    let current = found.0 in
    let stored =
      or_fail-ok (get_infraction_parameters id s1) external s1 current found.1.0 found.1.1.0 in
    (
      current,
      (
        ap (λ m. Store.get id m) (sym (cleared-parameters id s)) ∙ stored.0,
        go (compare_infraction_parameters current new)
            (ap (after current) (stored.1) ∙ found.1.1.1),
      ),
    )
  where
    request : Infractions → Outcome (Unit {0}) × Infractions
    request = do
      modify (set_queued_infraction_parameters id new)
      unbonding_period ← attempt k.unbonding_time
      modify (add_to_infraction_update_schedule id (b.time + unbonding_period))

    after : InfractionParameters → Infractions → Outcome (Unit {0}) × Infractions
    after current = if compare_infraction_parameters current new then pure tt else request

    go :
        (x : Bool)
        → (if x then pure tt else request) (cleared id s) ≡ (ok tt, s')
        → Requested k b id new x (cleared id s) s'
    go true q = sym (ap (λ r. r.1) q)
    go false q =
        let s2 : Infractions = set_queued_infraction_parameters id new (cleared id s) in
        let period = continue-ok (k.unbonding_time, s2) _ tt s' q in
        (
          period.0,
          (
            ap (λ r. r.0) period.1.1.0,
            sym (
                ap (λ y. add_to_infraction_update_schedule id (b.time + period.0) y)
                  (ap (λ r. r.1) period.1.1.0)
                ∙ ap (λ r. r.1) period.1.1.1),
          ),
        )

-- The chain's own request: nothing where the new parameters are those that hold, and else the new ones, under
-- the time when the unbonding period has passed.
abbrev pub Request :
    Staking → Block → ℕ → InfractionParameters → InfractionParameters → Infractions → Type 0
Request k b id current new s' =
    ((new ≡ current) × (get_queued_infraction_parameters id s' ≡ none))
    ⊎ ((new ≢ current)
        × ((get_queued_infraction_parameters id s' ≡ some new)
            × ((period : ℕ) × ((k.unbonding_time ≡ ok period)
                  × (elem id (get_ids (b.time + period) s'.schedule) ≡ true)))))

elem-last : (id : ℕ) (ids : List ℕ) → elem id (ids ++ id ∷ []) ≡ true
elem-last id [] = ground arith
elem-last id (x ∷ ids) = ground (arith, elem-last id ids)

module _ (k : Staking) (b : Block) (id : ℕ) (new : InfractionParameters) (s : Infractions)
    (complete : is_some new.downtime ≡ true) (h : IsScheduled s) where
  cleared-own : get_queued_infraction_parameters id (cleared id s) ≡ none
  cleared-own =
      let own : (id == id) ≡ true = ground arith in
      cleared-queued id id s
      ∙ ap (λ x. if x then none else get_queued_infraction_parameters id s) own

  Requested-IsScheduled :
      (x : Bool) (s' : Infractions)
      → Requested k b id new x (cleared id s) s'
      → IsScheduled s'
        × ((s'.parameters ≡ s.parameters)
            × ((j : ℕ)
                → (j == id) ≡ false
                → get_queued_infraction_parameters j s' ≡ get_queued_infraction_parameters j s))
  Requested-IsScheduled true s' same = (
    subst IsScheduled (sym same) (cleared-IsScheduled id s h),
    (
      ap (λ y. y.parameters) same ∙ cleared-parameters id s,
      λ j other.
          ap (get_queued_infraction_parameters j) same
          ∙ cleared-queued id j s
          ∙ ap (λ x. if x then none else get_queued_infraction_parameters j s) other,
    ),
  )
  Requested-IsScheduled false s' (period, (e, same)) = (
    subst IsScheduled (sym same) (
        queue_new-IsScheduled id (b.time + period) new (cleared id s) complete
          (ap is_some cleared-own) (cleared-IsScheduled id s h)),
    (
      ap (λ y. y.parameters) same ∙ cleared-parameters id s,
      λ j other.
          ap (get_queued_infraction_parameters j) same
          ∙ get-set id j new (cleared id s).queued
          ∙ ap (λ x. if x then some new else get_queued_infraction_parameters j (cleared id s))
              other
          ∙ cleared-queued id j s
          ∙ ap (λ x. if x then none else get_queued_infraction_parameters j s) other,
    ),
  )

  Requested-Request :
      (current : InfractionParameters) (s' : Infractions)
      → Requested k b id new (compare_infraction_parameters current new) (cleared id s) s'
      → Request k b id current new s'
  Requested-Request current s' r = elim (compare_infraction_parameters-decides current new) [
    | inl (x, same) ↦ inl (
      sym same,
      ap (get_queued_infraction_parameters id)
            (subst (λ y. Requested k b id new y (cleared id s) s') x r)
          ∙ cleared-own,
    )
    | inr (x, different) ↦
        let (period, (e, q)) = subst (λ y. Requested k b id new y (cleared id s) s') x r in
        let own : (id == id) ≡ true = ground arith in
        let ts = b.time + period in
        let s1 = cleared id s in
        inr (
          λ y. different (sym y),
          (
            ap (get_queued_infraction_parameters id) q
                ∙ get-set id id new s1.queued
                ∙ ap (λ x. if x then some new else get_queued_infraction_parameters id s1) own,
            (
              period,
              (
                e,
                ap (λ y. elem id (get_ids ts y.schedule)) q
                    ∙ ap (λ o. elem id (ids_at o))
                        (get-set ts ts (get_ids ts s1.schedule ++ id ∷ []) s1.schedule)
                    ∙ ap
                        (λ x. elem id (
                          ids_at (
                            if x
                            then some (get_ids ts s1.schedule ++ id ∷ [])
                            else Store.get ts s1.schedule)))
                        (at_own ts)
                    ∙ elem-last id (get_ids ts s1.schedule),
              ),
            ),
          ),
        )
  ]
    where
      at_own : (n : ℕ) → (n == n) ≡ true
      at_own n = ground arith

-- Where `UpdateQueuedInfractionParams` succeeds with parameters that have a downtime part, as the handlers
-- fill them in, every chain is scheduled once if it has queued parameters and else not at all, in ascending
-- order of times, and all queued ones have a downtime part, provided that this was so before. The parameters that hold stay. If the new
-- parameters equal those that hold for the chain, nothing is queued for it; if they differ from them in any
-- field, the new ones are queued, under the time when the unbonding period has passed. What is queued for
-- the other chains stays.
pub update_queued_infraction_params-IsScheduled :
    (k : Staking) (b : Block) (id : ℕ) (new : InfractionParameters) (s s' : Infractions)
    → is_some new.downtime ≡ true
    → IsScheduled s
    → update_queued_infraction_params k b id new s ≡ (ok tt, s')
    → (IsScheduled s'
        × ((s'.parameters ≡ s.parameters)
            × ((j : ℕ)
                → (j == id) ≡ false
                → get_queued_infraction_parameters j s' ≡ get_queued_infraction_parameters j s)))
      × ((current : InfractionParameters) × ((get_infraction_parameters id s ≡ some current)
            × Request k b id current new s'))
update_queued_infraction_params-IsScheduled k b id new s s' complete h e =
    let (current, (stored, r)) = update_queued_infraction_params-Requested k b id new s s' e in
    (
      Requested-IsScheduled k b id new s complete h (compare_infraction_parameters current new) s'
          r,
      (current, (stored, Requested-Request k b id new s complete h current s' r)),
    )
