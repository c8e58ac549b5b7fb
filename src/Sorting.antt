-- ===== src/Sorting.antt =====
-- `sort.Slice(s, less)` of Go's library, as the program uses it. It is not stable, so the model takes
-- any function that meets its contract: the result is a rearrangement of the slice in which no later
-- element is less than an earlier one.
pub mod Insertion
pub mod Perms
use mathlib.Core.List.{Perm, Mem}
use interchain_security.Common.{ℕ, ◌≤◌, ◌≡◌, Bool, false, List, [], ◌∷◌, arith, ltb, All}

module _ {A : Type 0} (less : A → A → Bool) where
  -- No later element is less than an earlier one.
  abbrev pub Ordered : List A → Type 0
  Ordered [] = Unit
  Ordered (x ∷ xs) = All (λ y. less y x ≡ false) xs × Ordered xs

  pub record SortSlice : Type 0 where
    pub sort : List A → List A
    pub sort_perm : (xs : List A) → Perm (sort xs) xs
    pub sort_ordered : (xs : List A) → Ordered (sort xs)

-- `less` for a descending order by a key: `s[i].Power > s[j].Power`.
abbrev pub greater {ℓ} : {A : Type ℓ} → (A → ℕ) → A → A → Bool
greater key a b = ltb (key b) (key a)
