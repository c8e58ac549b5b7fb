-- ===== src/Provider/ValidatorSet/Diff.antt =====
-- `DiffValidators` computes what turns the current validator set into the next one.
use interchain_security.Common.{
  ℕ, ◌≡◌, refl, ◌⊎◌, inl, inr, false, List, [], ◌∷◌, none, some, arith, ◌==◌, Option-cases,
  Bool-cases, All, Option,
}
use interchain_security.Store
use interchain_security.Store.{Map}
use interchain_security.Updates.{
  ValidatorUpdate, Powers, apply_update, apply_updates, apply_updates-append,
}
use interchain_security.Provider.ValidatorSet.{
  ConsensusValidator, index_from, index_by_key, diff_current, diff_next, diff_validators,
}

abbrev pub entry_power : Option ConsensusValidator → ℕ
entry_power none = 0
entry_power (some v) = v.power

-- The voting powers that a validator set stands for.
abbrev pub powers : List ConsensusValidator → Powers
powers vs k = entry_power (Store.get k (index_by_key vs))

-- Each entry of the index stands under its own key.
abbrev IsIndex : Map ConsensusValidator → Type 0
IsIndex m = (k : ℕ) (v : ConsensusValidator) → Store.get k m ≡ some v → v.public_key ≡ k

index_from-IsIndex :
    (m : Map ConsensusValidator) (vs : List ConsensusValidator)
    → IsIndex m
    → IsIndex (index_from m vs)
index_from-IsIndex m [] h = h
index_from-IsIndex m (v ∷ vs) h =
    index_from-IsIndex (Store.set v.public_key v m) vs
      λ k w e. ground (arith, h k w, Store.get-set v.public_key k v m)

module _ (k : ℕ) where
  -- No validator of the list has the key.
  abbrev Absent : List ConsensusValidator → Type 0
  Absent = All λ v. (k == v.public_key) ≡ false

  -- All validators of the list with the key have the power.
  abbrev Agree : ℕ → List ConsensusValidator → Type 0
  Agree t = All λ v. v.public_key ≡ k → v.power ≡ t

  index_from-some :
      (v : ConsensusValidator) (m : Map ConsensusValidator) (vs : List ConsensusValidator)
      → Store.get k m ≡ some v
      → (w : ConsensusValidator) × (Store.get k (index_from m vs) ≡ some w)
  index_from-some v m [] e = (v, e)
  index_from-some v m (x ∷ vs) e = elim (Bool-cases (k == x.public_key)) [
    | inl same ↦ index_from-some x _ vs (rw (Store.get-set x.public_key k x m, same))
    | inr other ↦ index_from-some v _ vs (rw (Store.get-set x.public_key k x m, other) e)
  ]

  index_from-Absent :
      (m : Map ConsensusValidator) (vs : List ConsensusValidator)
      → Store.get k (index_from m vs) ≡ none
      → Absent vs
  index_from-Absent m [] e = tt
  index_from-Absent m (x ∷ vs) e = elim (Bool-cases (k == x.public_key)) [
    | inl same ↦
        let found =
          index_from-some x (Store.set x.public_key x m) vs
            (rw (Store.get-set x.public_key k x m, same)) in
        cc (found.1)
    | inr other ↦ (other, index_from-Absent (Store.set x.public_key x m) vs e)
  ]

  index_from-Agree :
      (t : ℕ) (m : Map ConsensusValidator) (vs : List ConsensusValidator)
      → ((w : ConsensusValidator) → Store.get k m ≡ some w → w.power ≡ t)
      → Agree t vs
      → (w : ConsensusValidator) → Store.get k (index_from m vs) ≡ some w
      → w.power ≡ t
  index_from-Agree t m [] hm h w e = hm w e
  index_from-Agree t m (x ∷ vs) hm h w e =
      index_from-Agree t (Store.set x.public_key x m) vs
        (λ u q. ground (arith, hm u, Store.get-set x.public_key k x m)) h.1 w e

  diff_current-Absent :
      (n : Map ConsensusValidator) (vs : List ConsensusValidator) (f : Powers)
      → IsIndex n
      → Absent vs
      → apply_updates (diff_current n vs) f k ≡ f k
  unfolding diff_current
  diff_current-Absent n [] f i h = refl
  diff_current-Absent n (x ∷ vs) f i h = elim (Option-cases (Store.get x.public_key n)) [
    | inl e ↦
        rw (e, diff_current)
          (ground (
            arith,
            diff_current-Absent n vs (apply_update (record { pub_key = x.public_key; power = 0 }) f)
                i h.1,
          ))
    | inr (w, e) ↦ ground (
      arith,
      e,
      i x.public_key w e,
      diff_current-Absent n vs f i h.1,
      diff_current-Absent n vs (apply_update (record { pub_key = w.public_key; power = w.power }) f)
          i h.1,
    )
  ]

  -- What the first loop leaves at the key: its next power, or what was there if no entry differs.
  abbrev Settled : Map ConsensusValidator → List ConsensusValidator → ℕ → ℕ → Type 0
  Settled n vs before after =
      let t = entry_power (Store.get k n) in (after ≡ t) ⊎ ((after ≡ before) × Agree t vs)

  -- The head's own update, if there is one, and then the rest.
  Settled-cons :
      (n : Map ConsensusValidator) (v : ConsensusValidator) (vs : List ConsensusValidator)
      (before middle after : ℕ)
      → ((middle ≡ entry_power (Store.get k n))
          ⊎ ((middle ≡ before) × (v.public_key ≡ k → v.power ≡ entry_power (Store.get k n))))
      → Settled n vs middle after
      → Settled n (v ∷ vs) before after
  Settled-cons n v vs before middle after h (inl done) = inl done
  Settled-cons n v vs before middle after (inl set) (inr (same, agree)) = inl (cc)
  Settled-cons n v vs before middle after (inr (kept, a)) (inr (same, agree)) = inr (cc, (a, agree))

  diff_current-Settled :
      (n : Map ConsensusValidator) (vs : List ConsensusValidator) (f : Powers)
      → IsIndex n
      → Settled n vs (f k) (apply_updates (diff_current n vs) f k)
  unfolding diff_current
  diff_current-Settled n [] f i = inr (refl, tt)
  diff_current-Settled n (v ∷ vs) f i = elim (Option-cases (Store.get v.public_key n)) [
    | inl e ↦
        let u : ValidatorUpdate = record { pub_key = v.public_key; power = 0 } in
        rw (e, diff_current)
          (Settled-cons n v vs (f k) (apply_update u f k) _ (ground arith)
            (diff_current-Settled n vs (apply_update u f) i))
    | inr (w, e) ↦
        let u : ValidatorUpdate = record { pub_key = w.public_key; power = w.power } in
        elim (Bool-cases (v.power == w.power)) [
          | inl same ↦
              rw (e, same, diff_current)
                (Settled-cons n v vs (f k) (f k) _ (ground arith) (diff_current-Settled n vs f i))
          | inr differ ↦
              rw (e, differ, diff_current)
                (Settled-cons n v vs (f k) (apply_update u f k) _
                  (ground (arith, i v.public_key w e))
                  (diff_current-Settled n vs (apply_update u f) i))
        ]
  ]

  diff_next-kept :
      (c : Map ConsensusValidator) (v : ConsensusValidator) (vs : List ConsensusValidator)
      (f : Powers)
      → Store.get k c ≡ some v
      → apply_updates (diff_next c vs) f k ≡ f k
  unfolding diff_next
  diff_next-kept c v [] f e = refl
  diff_next-kept c v (x ∷ vs) f e = ground (
    arith,
    diff_next-kept c v vs f e,
    diff_next-kept c v vs (apply_update (record { pub_key = x.public_key; power = x.power }) f) e,
  )

  diff_next-new :
      (c m : Map ConsensusValidator) (vs : List ConsensusValidator) (f : Powers)
      → Store.get k c ≡ none
      → f k ≡ entry_power (Store.get k m)
      → apply_updates (diff_next c vs) f k ≡ entry_power (Store.get k (index_from m vs))
  unfolding diff_next
  diff_next-new c m [] f e h = h
  diff_next-new c m (x ∷ vs) f e h =
      let m' = Store.set x.public_key x m in
      let u : ValidatorUpdate = record { pub_key = x.public_key; power = x.power } in
      elim (Option-cases (Store.get x.public_key c)) [
        | inl absent ↦
            rw (absent, diff_next)
              (diff_next-new c m' vs (apply_update u f) e
                (ground (arith, Store.get-set x.public_key k x m)))
        | inr (w, present) ↦
            rw (present, diff_next)
              (diff_next-new c m' vs f e (ground (arith, Store.get-set x.public_key k x m)))
      ]

  current_settles :
      (current : List ConsensusValidator) (t after : ℕ)
      → (v : ConsensusValidator) → Store.get k (index_by_key current) ≡ some v
      → (after ≡ t) ⊎ ((after ≡ powers current k) × Agree t current)
      → after ≡ t
  current_settles current t after v e (inl done) = done
  current_settles current t after v e (inr (same, agree)) =
      ground (arith, index_from-Agree t [] current (λ w q. cc) agree v e, e)

-- Applied to the powers of the current set, the computed updates give the powers of the next set,
-- for every public key and whatever the two sets are, also where one names a key twice.
pub diff_validators-powers :
    (current next : List ConsensusValidator) (k : ℕ)
    → apply_updates (diff_validators current next) (powers current) k ≡ powers next k
unfolding diff_validators
diff_validators-powers current next k =
    let n = index_by_key next in
    let c = index_by_key current in
    let us = diff_current n current in
    let mid = apply_updates us (powers current) in
    let is_index = index_from-IsIndex [] next (λ j v e. cc) in
    rw (apply_updates-append us (diff_next c next) (powers current))
      (elim (Option-cases (Store.get k c)) [
        | inl absent ↦ diff_next-new k c [] next mid absent (
            rw
              (diff_current-Absent k n current (powers current) is_index
                (index_from-Absent k [] current absent))
              (rw absent))
        | inr (v, present) ↦ rw (diff_next-kept k c v next mid present) (
            current_settles k current (powers next k) (mid k) v present
              (diff_current-Settled k n current (powers current) is_index))
      ])
