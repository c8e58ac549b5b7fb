-- ===== src/Consumer/Changes/Accumulate.antt =====
-- Merged updates do what the updates of the packets do one after the other.
use mathlib.Core.List.{Perm}
use interchain_security.Common.{
  ℕ, ◌≤◌, ◌≡◌, refl, ap, ◌∙◌, subst, Bool, true, false, List, [], ◌∷◌, Option, none, some, arith,
  ◌==◌, if◌then◌else◌, inl, inr, Bool-cases, Option-cases, All,
}
use interchain_security.Store
use interchain_security.Store.{Map, values, get-set}
use interchain_security.Store.Ordered.{Ascending, get_below, set-Ascending}
use interchain_security.Sorting.{SortSlice}
use interchain_security.Sorting.Perms.{sum_by, sum_by-perm}
use interchain_security.Updates.{ValidatorUpdate, Powers, apply_update, apply_updates}
use interchain_security.Consumer.Changes.{by_power_and_key, index_updates, accumulate_changes}

-- How many updates are for a key, and the sum of their powers.
abbrev updates_for : ℕ → List ValidatorUpdate → ℕ
updates_for k = sum_by λ u. if k == u.pub_key then 1 else 0

abbrev power_for : ℕ → List ValidatorUpdate → ℕ
power_for k = sum_by λ u. if k == u.pub_key then u.power else 0

no_power : (k : ℕ) (us : List ValidatorUpdate) → updates_for k us ≡ 0 → power_for k us ≡ 0
no_power k [] h = refl
no_power k (u ∷ us) h = ground (arith, no_power k us)

-- With at most one update for a key, the order of the updates does not matter.
apply_once :
    (k : ℕ) (us : List ValidatorUpdate) (f : Powers)
    → updates_for k us ≤ 1
    → apply_updates us f k ≡ (if updates_for k us == 0 then f k else power_for k us)
apply_once k [] f h = refl
apply_once k (u ∷ us) f h = ground (arith, apply_once k us (apply_update u f), no_power k us)

-- The map holds each update under its key.
abbrev Keyed : Map ValidatorUpdate → Type 0
Keyed = All λ e. e.1.pub_key ≡ e.0

abbrev power_or : ℕ → Option ValidatorUpdate → ℕ
power_or p none = p
power_or p (some u) = u.power

updates_for-absent :
    (k : ℕ) (m : Map ValidatorUpdate)
    → Keyed m
    → Store.get k m ≡ none
    → updates_for k (values m) ≡ 0
updates_for-absent k [] h e = refl
updates_for-absent k ((j, u) ∷ m) h e = ground (arith, updates_for-absent k m h.1, h.0)

updates_for-present :
    (k : ℕ) (m : Map ValidatorUpdate) (u : ValidatorUpdate)
    → Keyed m
    → Ascending m
    → Store.get k m ≡ some u
    → (updates_for k (values m) ≡ 1) × (power_for k (values m) ≡ u.power)
updates_for-present k [] u h a e = cc
updates_for-present k ((j, v) ∷ m) u h a e = elim (Bool-cases (k == j)) [
  | inl here ↦
      let below : Store.get k m ≡ none =
        subst (λ i. Store.get i m ≡ none) (ground arith) (get_below j m a.0) in
      let empty = updates_for-absent k m h.1 below in
      ground (arith, empty, no_power k (values m) empty, h.0, e)
  | inr other ↦ ground (arith, updates_for-present k m u h.1 a.1, h.0)
]

-- The values of the map, in any order, give each key the power of its entry.
values-apply :
    (k : ℕ) (m : Map ValidatorUpdate) (us : List ValidatorUpdate) (f : Powers)
    → Keyed m
    → Ascending m
    → Perm us (values m)
    → apply_updates us f k ≡ power_or (f k) (Store.get k m)
values-apply k m us f h a p =
    let counts : updates_for k us ≡ updates_for k (values m) =
      sum_by-perm (λ u. if k == u.pub_key then 1 else 0) p in
    let powers : power_for k us ≡ power_for k (values m) =
      sum_by-perm (λ u. if k == u.pub_key then u.power else 0) p in
    elim (Option-cases (Store.get k m)) [
      | inl absent ↦
          let none_for = updates_for-absent k m h absent in
          rw (absent) (ground (arith, apply_once k us f, none_for, counts))
      | inr (u, present) ↦
          let one = updates_for-present k m u h a present in
          rw (present) (ground (arith, apply_once k us f, one.0, one.1, counts, powers))
    ]

set-Keyed :
    (u : ValidatorUpdate) (m : Map ValidatorUpdate) → Keyed m → Keyed (Store.set u.pub_key u m)
unfolding Store.set
set-Keyed u [] h = (refl, tt)
set-Keyed u ((j, v) ∷ m) h = ground (arith, set-Keyed u m h.1)

pub apply_updates-cong :
    (us : List ValidatorUpdate) (f g : Powers) (k : ℕ)
    → ((j : ℕ) → f j ≡ g j)
    → apply_updates us f k ≡ apply_updates us g k
apply_updates-cong [] f g k h = h k
apply_updates-cong (u ∷ us) f g k h =
    apply_updates-cong us (apply_update u f) (apply_update u g) k
      λ j. ap (λ x. if j == u.pub_key then u.power else x) (h j)

-- A map of updates over some powers, and the map after more updates.
module _ (f : Powers) where
  abbrev over : Map ValidatorUpdate → Powers
  over m k = power_or (f k) (Store.get k m)

  over-set :
      (u : ValidatorUpdate) (m : Map ValidatorUpdate) (k : ℕ)
      → over (Store.set u.pub_key u m) k ≡ apply_update u (over m) k
  over-set u m k = rw (get-set u.pub_key k u m) (go (k == u.pub_key))
    where
      go :
          (x : Bool)
          → power_or (f k) (if x then some u else Store.get k m)
            ≡ (if x then u.power else power_or (f k) (Store.get k m))
      go true = refl
      go false = refl

  over-index_updates :
      (us : List ValidatorUpdate) (m : Map ValidatorUpdate) (k : ℕ)
      → over (index_updates m us) k ≡ apply_updates us (over m) k
  unfolding index_updates
  over-index_updates [] m k = refl
  over-index_updates (u ∷ us) m k =
      over-index_updates us (Store.set u.pub_key u m) k
      ∙ apply_updates-cong us (over (Store.set u.pub_key u m)) (apply_update u (over m)) k
          (over-set u m)

index_updates_sound :
    (us : List ValidatorUpdate) (m : Map ValidatorUpdate)
    → Keyed m × Ascending m
    → Keyed (index_updates m us) × Ascending (index_updates m us)
unfolding index_updates
index_updates_sound [] m h = h
index_updates_sound (u ∷ us) m h =
    index_updates_sound us (Store.set u.pub_key u m)
      (set-Keyed u m h.0, set-Ascending u.pub_key u m h.1)

-- Applying the merged updates gives every key the power that it has after applying first the current updates
-- and then the new ones, for any sort that meets its contract.
pub accumulate_changes-powers :
    (by : SortSlice by_power_and_key) (current new : List ValidatorUpdate) (f : Powers) (k : ℕ)
    → apply_updates (accumulate_changes by current new) f k
      ≡ apply_updates new (apply_updates current f) k
unfolding accumulate_changes
accumulate_changes-powers by current new f k =
    let m = index_updates [] current in
    let m' = index_updates m new in
    let sound = index_updates_sound new m (index_updates_sound current [] (tt, tt)) in
    values-apply k m' (by.sort (values m')) f sound.0 sound.1 (by.sort_perm (values m'))
    ∙ over-index_updates f new m k
    ∙ apply_updates-cong new (over f m) (apply_updates current f) k
        (over-index_updates f current [])
