-- ===== src/Provider/KeyAssignment/Pruning.antt =====
-- How often a consumer address waits to be pruned, and what consuming the due ones leaves.
use interchain_security.Common.{
  ℕ, ◌+◌, ◌≡◌, refl, List, [], ◌∷◌, ◌++◌, none, arith, leb, ◌==◌, true, false, if◌then◌else◌, ltb,
  All, All-map,
}
use interchain_security.Store
use interchain_security.Store.Ordered.{Above, Ascending, get_below, without, delete_keys-without}
use interchain_security.Store.{Map, elem}
use interchain_security.Provider.KeyAssignment.{due_keys, due_addrs, stored_list}

abbrev pub occurrences : ℕ → List ℕ → ℕ
occurrences a [] = 0
occurrences a (x ∷ xs) = (if a == x then 1 else 0) + occurrences a xs

-- An address occurs in two lists as often as in both together.
pub occurrences-append :
    (addr : ℕ) (first second : List ℕ)
    → occurrences addr (first ++ second) ≡ occurrences addr first + occurrences addr second
occurrences-append addr [] second = omega arith
occurrences-append addr (b ∷ first) second = omega (arith, occurrences-append addr first second)

-- How often the address stands in the lists.
abbrev pub waits : ℕ → Map (List ℕ) → ℕ
waits a [] = 0
waits a ((t, l) ∷ m) = occurrences a l + waits a m

-- Appending an address to the list of a time adds one occurrence of it, where the time has one list.
pub waits-append :
    (a ts b : ℕ) (m : Map (List ℕ))
    → Ascending m
    → waits a (Store.set ts (stored_list (Store.get ts m) ++ b ∷ []) m)
      ≡ waits a m + (if a == b then 1 else 0)
unfolding Store.set
waits-append a ts b [] h = omega arith
waits-append a ts b ((t, l) ∷ m) h =
    ground
      (arith, occurrences-append a l (b ∷ []), waits-append a ts b m h.1, later_none ts t m h.0)
  where
    later_none : (ts t : ℕ) (m : Map (List ℕ)) → Above t m → ltb ts t ≡ true → Store.get ts m ≡ none
    later_none ts t m h lt = get_below ts m (All-map _ _ (λ e q. ground arith) m h)

-- The lists of the times after `now`.
abbrev later : ℕ → Map (List ℕ) → Map (List ℕ)
later now [] = []
later now ((t, l) ∷ m) = if leb t now then later now m else (t, l) ∷ later now m

due_keys-due : (now j : ℕ) (m : Map (List ℕ)) → elem j (due_keys now m) ≡ true → leb j now ≡ true
unfolding due_keys
due_keys-due now j [] e = cc
due_keys-due now j ((t, l) ∷ m) e = ground (arith, due_keys-due now j m)

-- All due entries of the map are among the keys.
abbrev Lists : ℕ → List ℕ → Map (List ℕ) → Type 0
Lists now ks = All λ e. elem e.0 ks ≡ leb e.0 now

without-later :
    (now : ℕ) (ks : List ℕ) (m : Map (List ℕ)) → Lists now ks m → without ks m ≡ later now m
without-later now ks [] h = refl
without-later now ks ((t, l) ∷ m) h = ground (arith, without-later now ks m h.1)

Lists-cons :
    (now k : ℕ) (ks : List ℕ) (m : Map (List ℕ))
    → leb k now ≡ true
    → Lists now ks m
    → Lists now (k ∷ ks) m
Lists-cons now k ks m h = All-map _ _ (λ e q. ground arith) m

Lists-due_keys : (now : ℕ) (m : Map (List ℕ)) → Lists now (due_keys now m) m
unfolding due_keys
Lists-due_keys now [] = tt
Lists-due_keys now ((t, l) ∷ m) =
    ground (arith, Lists-due_keys now m, Lists-cons now t (due_keys now m) m, due_keys-due now t m)

waits-later :
    (a now : ℕ) (m : Map (List ℕ))
    → waits a (later now m) + occurrences a (due_addrs now m) ≡ waits a m
unfolding due_addrs
waits-later a now [] = omega arith
waits-later a now ((t, l) ∷ m) =
    ground (arith, waits-later a now m, occurrences-append a l (due_addrs now m))

-- Each waiting occurrence is either handed out or kept.
pub waits-consume :
    (a now : ℕ) (m : Map (List ℕ))
    → waits a (Store.delete_keys (due_keys now m) m) + occurrences a (due_addrs now m) ≡ waits a m
waits-consume a now m =
    rw
      (
        delete_keys-without (due_keys now m) m,
        without-later now (due_keys now m) m (Lists-due_keys now m),
      )
      (waits-later a now m)

-- What is put aside for a later time is not due.
pub due-append :
    (a now ts b : ℕ) (m : Map (List ℕ))
    → leb ts now ≡ false
    → occurrences a (due_addrs now (Store.set ts (stored_list (Store.get ts m) ++ b ∷ []) m))
      ≡ occurrences a (due_addrs now m)
unfolding Store.set due_addrs
due-append a now ts b [] h = ground arith
due-append a now ts b ((t, l) ∷ m) h = ground (
  arith,
  occurrences-append a l (due_addrs now m),
  due-append a now ts b m h,
  occurrences-append a l (due_addrs now (Store.set ts (stored_list (Store.get ts m) ++ b ∷ []) m)),
)
