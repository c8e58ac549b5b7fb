-- ===== src/Sorting/Insertion.antt =====
-- A sort that meets the contract, for every strict weak order: insertion sort. The witnesses and
-- the tests run the program with it.
use mathlib.Core.List.{Perm}
use mathlib.Core.List.Perm
use interchain_security.Common.{
  ◌≡◌, Bool, true, false, List, [], ◌∷◌, inl, inr, arith, All, All-map, if◌then◌else◌, Bool-cases,
  ℕ,
}
use interchain_security.Sorting.{Ordered, SortSlice, greater}

pub record StrictWeak {A : Type 0} (less : A → A → Bool) : Type 0 where
  pub asymm : (a b : A) → less a b ≡ true → less b a ≡ false
  pub neg_trans : (a b c : A) → less b a ≡ false → less c b ≡ false → less c a ≡ false

module _ {A : Type 0} (less : A → A → Bool) where
  insert : A → List A → List A
  insert x [] = x ∷ []
  insert x (y ∷ ys) = if less y x then y ∷ insert x ys else x ∷ y ∷ ys

  unfoldable pub insertion_sort : List A → List A
  unfolding insert
  insertion_sort [] = []
  insertion_sort (x ∷ xs) = insert x (insertion_sort xs)

  insert-perm : (x : A) (ys : List A) → Perm (insert x ys) (x ∷ ys)
  unfolding insert
  insert-perm x [] = Perm.rfl
  insert-perm x (y ∷ ys) = elim (Bool-cases (less y x)) [
    | inl e ↦ rw (e, insert) (Perm.trans (Perm.cons y (insert-perm x ys)) (Perm.swap x y ys))
    | inr e ↦ rw (e, insert) Perm.rfl
  ]

  pub insertion_sort-perm : (xs : List A) → Perm (insertion_sort xs) xs
  unfolding insertion_sort
  insertion_sort-perm [] = Perm.rfl
  insertion_sort-perm (x ∷ xs) =
      Perm.trans (insert-perm x (insertion_sort xs)) (Perm.cons x (insertion_sort-perm xs))

  insert-All : (P : A → Type 0) (x : A) (ys : List A) → P x → All P ys → All P (insert x ys)
  unfolding insert
  insert-All P x [] px h = (px, tt)
  insert-All P x (y ∷ ys) px h = elim (Bool-cases (less y x)) [
    | inl e ↦ rw (e, insert) (h.0, insert-All P x ys px h.1)
    | inr e ↦ rw (e, insert) (px, h)
  ]

  insert-Ordered :
      StrictWeak less → (x : A) (ys : List A) → Ordered less ys → Ordered less (insert x ys)
  unfolding insert
  insert-Ordered w x [] h = (tt, tt)
  insert-Ordered w x (y ∷ ys) h = elim (Bool-cases (less y x)) [
    | inl e ↦
        rw (e, insert)
          (insert-All (λ z. less z y ≡ false) x ys (w.asymm y x e) h.0, insert-Ordered w x ys h.1)
    | inr e ↦ rw (e, insert) ((e, All-map _ _ (λ z q. w.neg_trans x y z e q) ys h.0), h)
  ]

  pub insertion_sort-Ordered : StrictWeak less → (xs : List A) → Ordered less (insertion_sort xs)
  unfolding insertion_sort
  insertion_sort-Ordered w [] = tt
  insertion_sort-Ordered w (x ∷ xs) =
      insert-Ordered w x (insertion_sort xs) (insertion_sort-Ordered w xs)

unfoldable pub insertion : {A : Type 0} (less : A → A → Bool) → StrictWeak less → SortSlice less
unfolding insertion_sort
insertion less w = record {
  sort = insertion_sort less;
  sort_perm = insertion_sort-perm less;
  sort_ordered = insertion_sort-Ordered less w;
}

pub greater-StrictWeak : {A : Type 0} (key : A → ℕ) → StrictWeak (greater key)
greater-StrictWeak key = record {
  asymm = λ a b h. ground arith;
  neg_trans = λ a b c h k. ground arith;
}
