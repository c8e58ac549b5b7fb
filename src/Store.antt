-- ===== src/Store.antt =====
-- The key-value store that the keepers read and write through `ctx.KVStore(k.storeKey)`: one map for
-- each key prefix of provider/types/keys.go and consumer/types/keys.go, in ascending order of keys,
-- as the store's iterators visit it. A key stands for the bytes behind the prefix.
pub mod Ordered
use mathlib.Core.List.{Perm}
use mathlib.Core.List.Perm
use interchain_security.Common.{
  inl, inr, Bool-cases, ℕ, ◌≡◌, refl, Bool, true, false, List, [], ◌∷◌, Option, none, some, arith,
  ltb, ◌==◌, ◌||◌, if◌then◌else◌, is_some,
}

abbrev pub Map : Type 0 → Type 0
Map V = List (ℕ × V)

abbrev pub elem : ℕ → List ℕ → Bool
elem k [] = false
elem k (j ∷ js) = k == j || elem k js

module _ {V : Type 0} where
  -- `store.Get(key)`
  abbrev pub get : ℕ → Map V → Option V
  get k [] = none
  get k ((j, v) ∷ m) = if k == j then some v else get k m

  -- `store.Get(key) != nil`
  abbrev pub has : ℕ → Map V → Bool
  has k m = is_some (get k m)

  -- `store.Set(key, value)`
  unfoldable pub set : ℕ → V → Map V → Map V
  set k v [] = (k, v) ∷ []
  set k v ((j, w) ∷ m) =
      if k == j then (k, v) ∷ m else if ltb k j then (k, v) ∷ (j, w) ∷ m else (j, w) ∷ set k v m

  -- `store.Delete(key)`
  unfoldable pub delete : ℕ → Map V → Map V
  delete k [] = []
  delete k ((j, w) ∷ m) = if k == j then delete k m else (j, w) ∷ delete k m

  -- What an iterator over the prefix visits.
  abbrev pub keys : Map V → List ℕ
  keys [] = []
  keys ((j, w) ∷ m) = j ∷ keys m

  abbrev pub values : Map V → List V
  values [] = []
  values ((j, w) ∷ m) = w ∷ values m

  -- `for _, key := range keysToDel { store.Delete(key) }`
  unfoldable pub delete_keys : List ℕ → Map V → Map V
  unfolding delete
  delete_keys [] m = m
  delete_keys (k ∷ ks) m = delete_keys ks (delete k m)

  pub get-set :
      (k j : ℕ) (v : V) (m : Map V) → get j (set k v m) ≡ (if j == k then some v else get j m)
  unfolding set
  get-set k j v [] = ground arith
  get-set k j v ((i, w) ∷ m) = ground (arith, get-set k j v m)

  pub get-delete : (k j : ℕ) (m : Map V) → get j (delete k m) ≡ (if j == k then none else get j m)
  unfolding delete
  get-delete k j [] = ground arith
  get-delete k j ((i, w) ∷ m) = ground (arith, get-delete k j m)

  -- Every key of the map is among the given ones.
  abbrev Covers : List ℕ → Map V → Type 0
  Covers ks [] = Unit
  Covers ks ((j, w) ∷ m) = (elem j ks ≡ true) × Covers ks m

  Covers-cons : (k : ℕ) (ks : List ℕ) (m : Map V) → Covers ks m → Covers (k ∷ ks) m
  Covers-cons k ks [] c = tt
  Covers-cons k ks ((j, w) ∷ m) c = (ground arith, Covers-cons k ks m c.1)

  Covers-keys : (m : Map V) → Covers (keys m) m
  Covers-keys [] = tt
  Covers-keys ((j, w) ∷ m) = (ground arith, Covers-cons j (keys m) m (Covers-keys m))

  Covers-delete : (k : ℕ) (ks : List ℕ) (m : Map V) → Covers (k ∷ ks) m → Covers ks (delete k m)
  unfolding delete
  Covers-delete k ks [] c = tt
  Covers-delete k ks ((j, w) ∷ m) c = ground (arith, Covers-delete k ks m c.1)

  delete_keys-Covers : (ks : List ℕ) (m : Map V) → Covers ks m → delete_keys ks m ≡ []
  unfolding delete_keys
  delete_keys-Covers [] [] c = refl
  delete_keys-Covers [] ((j, w) ∷ m) c = cc
  delete_keys-Covers (k ∷ ks) m c = delete_keys-Covers ks (delete k m) (Covers-delete k ks m c)

  -- Deleting every key that the iterator visits leaves nothing under the prefix.
  pub delete_keys-keys : (m : Map V) → delete_keys (keys m) m ≡ []
  delete_keys-keys m = delete_keys-Covers (keys m) m (Covers-keys m)

  -- A new key adds its value to what the iterator yields, wherever it lands in the order.
  pub values-set_new :
      (k : ℕ) (v : V) (m : Map V) → get k m ≡ none → Perm (values (set k v m)) (v ∷ values m)
  unfolding set
  values-set_new k v [] e = Perm.rfl
  values-set_new k v ((j, w) ∷ m) e = elim (Bool-cases (k == j)) [
    | inl same ↦ ground arith
    | inr other ↦ elim (Bool-cases (ltb k j)) [
      | inl before ↦ rw (other, before, set) Perm.rfl
      | inr after ↦
          rw (other, after, set)
            (Perm.trans (Perm.cons w (values-set_new k v m (ground arith)))
              (Perm.swap v w (values m)))
    ]
  ]
