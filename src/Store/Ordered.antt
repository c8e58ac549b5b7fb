-- ===== src/Store/Ordered.antt =====
-- The maps stay in ascending order of keys, and what deleting many keys leaves.
use interchain_security.Common.{
  ℕ, ◌<◌, ◌≡◌, refl, ap, List, [], ◌∷◌, ◌++◌, none, arith, if◌then◌else◌, All, All-map, sym, ◌∙◌,
}
use interchain_security.Store.{Map, get, set, delete, delete_keys, elem}

module _ {V : Type 0} where
  abbrev pub Above : ℕ → Map V → Type 0
  Above k = All λ e. k < e.0

  abbrev pub Ascending : Map V → Type 0
  Ascending [] = Unit
  Ascending ((j, w) ∷ m) = Above j m × Ascending m

  pub get_below : (k : ℕ) (m : Map V) → Above k m → get k m ≡ none
  get_below k [] h = refl
  get_below k ((j, w) ∷ m) h = ground (arith, get_below k m h.1)

  set-Above : (b k : ℕ) (v : V) (m : Map V) → b < k → Above b m → Above b (set k v m)
  unfolding set
  set-Above b k v [] h a = (h, tt)
  set-Above b k v ((j, w) ∷ m) h a = ground (arith, set-Above b k v m h a.1)

  Above-mono : (b k : ℕ) (m : Map V) → b < k → Above k m → Above b m
  Above-mono b k m h a = All-map _ _ (λ e q. omega arith) m a

  pub set-Ascending : (k : ℕ) (v : V) (m : Map V) → Ascending m → Ascending (set k v m)
  unfolding set
  set-Ascending k v [] a = (tt, tt)
  set-Ascending k v ((j, w) ∷ m) a =
      ground (arith, set-Ascending k v m a.1, set-Above j k v m, Above-mono k j m)

  delete-Above : (b k : ℕ) (m : Map V) → Above b m → Above b (delete k m)
  unfolding delete
  delete-Above b k [] a = tt
  delete-Above b k ((j, w) ∷ m) a = ground (arith, delete-Above b k m a.1)

  pub delete-Ascending : (k : ℕ) (m : Map V) → Ascending m → Ascending (delete k m)
  unfolding delete
  delete-Ascending k [] a = tt
  delete-Ascending k ((j, w) ∷ m) a =
      ground (arith, delete-Ascending k m a.1, delete-Above j k m a.0)

  pub delete_keys-Ascending : (ks : List ℕ) (m : Map V) → Ascending m → Ascending (delete_keys ks m)
  unfolding delete_keys
  delete_keys-Ascending [] m a = a
  delete_keys-Ascending (k ∷ ks) m a =
      delete_keys-Ascending ks (delete k m) (delete-Ascending k m a)

  -- The map without the given keys, in one pass.
  abbrev pub without : List ℕ → Map V → Map V
  without ks [] = []
  without ks ((j, w) ∷ m) = if elem j ks then without ks m else (j, w) ∷ without ks m

  without-nil : (m : Map V) → without [] m ≡ m
  without-nil [] = refl
  without-nil ((j, w) ∷ m) = ap (◌∷◌ (j, w)) (without-nil m)

  without-delete : (k : ℕ) (ks : List ℕ) (m : Map V) → without ks (delete k m) ≡ without (k ∷ ks) m
  unfolding delete
  without-delete k ks [] = refl
  without-delete k ks ((j, w) ∷ m) = ground (arith, without-delete k ks m)

  pub delete_keys-without : (ks : List ℕ) (m : Map V) → delete_keys ks m ≡ without ks m
  unfolding delete_keys
  delete_keys-without [] m = sym (without-nil m)
  delete_keys-without (k ∷ ks) m = delete_keys-without ks (delete k m) ∙ without-delete k ks m

  pub get-delete_keys :
      (ks : List ℕ) (k : ℕ) (m : Map V)
      → get k (delete_keys ks m) ≡ (if elem k ks then none else get k m)
  get-delete_keys ks k m = rw (delete_keys-without ks m) (pass m)
    where
      pass : (m : Map V) → get k (without ks m) ≡ (if elem k ks then none else get k m)
      pass [] = ground arith
      pass ((j, w) ∷ m) = ground (arith, pass m)

  pub delete-absent : (k : ℕ) (m : Map V) → Above k m → delete k m ≡ m
  unfolding delete
  delete-absent k [] a = refl
  delete-absent k (e ∷ m) a = ground (arith, delete-absent k m a.1)

  -- Deleting the least key takes the first entry away.
  pub delete-first : (k : ℕ) (v : V) (m : Map V) → Above k m → delete k ((k, v) ∷ m) ≡ m
  unfolding delete
  delete-first k v m a = ground (arith, delete-absent k m a)

  -- Setting a key above all others appends its entry.
  pub set-last : (k : ℕ) (v : V) (m : Map V) → All (λ e. e.0 < k) m → set k v m ≡ m ++ (k, v) ∷ []
  unfolding set
  set-last k v [] a = refl
  set-last k v ((j, w) ∷ m) a = ground (arith, set-last k v m a.1)
