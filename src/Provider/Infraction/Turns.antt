-- ===== src/Provider/Infraction/Turns.antt =====
-- The loop that applies the queued infraction parameters of the due chains, one turn for each.
use interchain_security.Common.{
  ℕ, ◌≤◌, ◌≡◌, refl, sym, ap, ◌∙◌, subst, Bool, true, false, List, [], ◌∷◌, none, some, arith, ◌==◌,
  ◌||◌, if◌then◌else◌, inl, inr, Bool-cases,
}
use interchain_security.Common.Outcome.{ok, continue}
use interchain_security.Store
use interchain_security.Store.{elem, get-set, get-delete}
use interchain_security.Provider.TimeQueue.Counts.{count, elem-count}
use interchain_security.Provider.Infraction.{
  SlashJail, InfractionParameters, Infractions, get_infraction_parameters,
  set_infraction_parameters, get_queued_infraction_parameters, apply_queued, apply_each,
}

-- What becomes of a chain's parameters, by whether it is due.
abbrev pub Applied : Bool → ℕ → Infractions → Infractions → Type 0
Applied true j s s' =
    (get_infraction_parameters j s' ≡ get_queued_infraction_parameters j s)
    × (get_queued_infraction_parameters j s' ≡ none)
Applied false j s s' =
    (get_infraction_parameters j s' ≡ get_infraction_parameters j s)
    × (get_queued_infraction_parameters j s' ≡ get_queued_infraction_parameters j s)

-- The state after one turn.
abbrev applied : ℕ → InfractionParameters → Infractions → Infractions
applied id p s = record s {
  parameters = Store.set id p s.parameters;
  queued = Store.delete id s.queued;
}

apply_queued-ok :
    (id : ℕ) (p : InfractionParameters) (d : SlashJail) (s : Infractions)
    → get_queued_infraction_parameters id s ≡ some p
    → p.downtime ≡ some d
    → apply_queued id s ≡ (ok tt, applied id p s)
unfolding apply_queued set_infraction_parameters
apply_queued-ok id p d s e e' = rw (e, e') refl

-- The ids are those of chains with complete queued parameters, and none is there twice.
abbrev pub Ready : List ℕ → Infractions → Type 0
Ready ids s =
    (j : ℕ)
    → elem j ids ≡ true
    → (count j ids ≤ 1)
      × ((p : InfractionParameters) × ((d : SlashJail) × ((get_queued_infraction_parameters j s
                ≡ some p)
              × (p.downtime ≡ some d))))

-- A first turn on another chain.
Applied-other :
    (y : Bool) (id j : ℕ) (p : InfractionParameters) (s s' : Infractions)
    → (j == id) ≡ false
    → Applied y j (applied id p s) s'
    → Applied y j s s'
Applied-other true id j p s s' other (e, e') = (
  e
      ∙ get-delete id j s.queued
      ∙ ap (λ x. if x then none else get_queued_infraction_parameters j s) other,
  e',
)
Applied-other false id j p s s' other (e, e') = (
  e
      ∙ get-set id j p s.parameters
      ∙ ap (λ x. if x then some p else get_infraction_parameters j s) other,
  e'
      ∙ get-delete id j s.queued
      ∙ ap (λ x. if x then none else get_queued_infraction_parameters j s) other,
)

-- And on the chain itself, which is not due again.
Applied-own :
    (id : ℕ) (p : InfractionParameters) (s s' : Infractions)
    → get_queued_infraction_parameters id s ≡ some p
    → Applied false id (applied id p s) s'
    → Applied true id s s'
Applied-own id p s s' found (e, e') =
    let own : (id == id) ≡ true = ground arith in
    (
      e
          ∙ get-set id id p s.parameters
          ∙ ap (λ x. if x then some p else get_infraction_parameters id s) own
          ∙ sym found,
      e'
          ∙ get-delete id id s.queued
          ∙ ap (λ x. if x then none else get_queued_infraction_parameters id s) own,
    )

once-first : (id : ℕ) (ids : List ℕ) → count id (id ∷ ids) ≤ 1 → elem id ids ≡ false
once-first id ids h = elim (Bool-cases (elem id ids)) [
  | inl again ↦
      let own : (id == id) ≡ true = ground arith in
      absurd (ground (arith, h, elem-count id ids again, own))
  | inr none_left ↦ none_left
]

Applied-cons :
    (id j : ℕ) (ids : List ℕ) (p : InfractionParameters) (s s' : Infractions)
    → elem id ids ≡ false
    → get_queued_infraction_parameters id s ≡ some p
    → Applied (elem j ids) j (applied id p s) s'
    → Applied (elem j (id ∷ ids)) j s s'
Applied-cons id j ids p s s' once found h = go (j == id) refl
  where
    go : (x : Bool) → (j == id) ≡ x → Applied (x || elem j ids) j s s'
    go true at =
        let there : j ≡ id = ground (arith, at) in
        subst (λ m. Applied true m s s') (sym there)
          (Applied-own id p s s' found (
            subst (λ x. Applied x id (applied id p s) s') once
              (subst (λ m. Applied (elem m ids) m (applied id p s) s') there h)))
    go false other = Applied-other (elem j ids) id j p s s' other h

Ready-tail :
    (id : ℕ) (ids : List ℕ) (p : InfractionParameters) (s : Infractions)
    → Ready (id ∷ ids) s
    → elem id ids ≡ false
    → Ready ids (applied id p s)
Ready-tail id ids p s ready once j listed =
    let other : (j == id) ≡ false = elim (Bool-cases (j == id)) [
      | inl at ↦
          let there : j ≡ id = ground (arith, at) in
          absurd (ground (arith, sym once ∙ ap (λ m. elem m ids) (sym there) ∙ listed))
      | inr apart ↦ apart
    ] in
    let at_j = ready j (ground (arith, listed)) in
    (
      omega (arith, at_j.0),
      (
        at_j.1.0,
        (
          at_j.1.1.0,
          (
            get-delete id j s.queued
                ∙ ap (λ x. if x then none else get_queued_infraction_parameters j s) other
                ∙ at_j.1.1.1.0,
            at_j.1.1.1.1,
          ),
        ),
      ),
    )

pub apply_each-Applied :
    (ids : List ℕ) (s : Infractions)
    → Ready ids s
    → (s' : Infractions) × ((apply_each ids s ≡ (ok tt, s'))
        × ((s'.schedule ≡ s.schedule) × ((j : ℕ) → Applied (elem j ids) j s s')))
unfolding apply_each
apply_each-Applied [] s ready = (s, (refl, (refl, λ j. (refl, refl))))
apply_each-Applied (id ∷ ids) s ready =
    let own : (id == id) ≡ true = ground arith in
    let first = ready id (ground arith) in
    let p = first.1.0 in
    let s1 = applied id p s in
    let once = once-first id ids first.0 in
    let rest = apply_each-Applied ids s1 (Ready-tail id ids p s ready once) in
    (
      rest.0,
      (
        ap (λ r. continue r (λ u. apply_each ids))
              (apply_queued-ok id p first.1.1.0 s first.1.1.1.0 first.1.1.1.1)
            ∙ rest.1.0,
        (rest.1.1.0, λ j. Applied-cons id j ids p s rest.0 once first.1.1.1.0 (rest.1.1.1 j)),
      ),
    )
