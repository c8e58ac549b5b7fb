-- ===== src/Provider/TimeQueue/Leftover.antt =====
-- What the loop over the times to delete leaves in a queue.
use mathlib.Core.List.{append_assoc, append-nil}
use interchain_security.Common.{
  ℕ, ◌≡◌, refl, ap, sym, ◌∙◌, List, [], ◌∷◌, ◌++◌, arith, take, drop, take-append-drop,
}
use interchain_security.Store
use interchain_security.Store.Ordered.{Above, get_below, delete-first}
use interchain_security.Provider.TimeQueue.{Queue, ids_at, append_id, append_ids, delete_times}

-- All ids of a queue in the order of their times.
abbrev pub all_ids : Queue → List ℕ
all_ids [] = []
all_ids ((ts, ids) ∷ q) = ids ++ all_ids q

append_id-head :
    (n ts : ℕ) (l : List ℕ) (q : Queue) → append_id n ts ((ts, l) ∷ q) ≡ (ts, l ++ n ∷ []) ∷ q
unfolding Store.set
append_id-head n ts l q = ground arith

append_ids-head :
    (ns : List ℕ) (ts : ℕ) (l : List ℕ) (q : Queue)
    → append_ids ns ts ((ts, l) ∷ q) ≡ (ts, l ++ ns) ∷ q
unfolding append_ids
append_ids-head [] ts l q = rw (append-nil l)
append_ids-head (n ∷ ns) ts l q =
    ap (append_ids ns ts) (append_id-head n ts l q)
    ∙ append_ids-head ns ts (l ++ n ∷ []) q
    ∙ ap (λ m. (ts, m) ∷ q) (append_assoc l (n ∷ []) ns)

set-below : (ts : ℕ) (l : List ℕ) (q : Queue) → Above ts q → Store.set ts l q ≡ (ts, l) ∷ q
unfolding Store.set
set-below ts l [] a = refl
set-below ts l ((t, m) ∷ q) a = ground arith

append_id-Above : (n ts : ℕ) (q : Queue) → Above ts q → append_id n ts q ≡ (ts, n ∷ []) ∷ q
append_id-Above n ts q a =
    ap (λ o. Store.set ts (ids_at o ++ n ∷ []) q) (get_below ts q a) ∙ set-below ts (n ∷ []) q a

pub append_ids-all :
    (ns : List ℕ) (ts : ℕ) (q : Queue) → Above ts q → all_ids (append_ids ns ts q) ≡ ns ++ all_ids q
unfolding append_ids
append_ids-all [] ts q a = refl
append_ids-all (n ∷ ns) ts q a =
    ap (λ m. all_ids (append_ids ns ts m)) (append_id-Above n ts q a)
    ∙ ap all_ids (append_ids-head ns ts (n ∷ []) q)

-- Deleting the first time of a queue and those after it is deleting the ones after it from the rest.
pub delete_times-first :
    (ns : List ℕ) (ts : ℕ) (l tss : List ℕ) (q : Queue)
    → Above ts q
    → (tss ≡ [] → ns ≡ [])
    → delete_times ns (ts ∷ tss) ((ts, l) ∷ q) ≡ delete_times ns tss q
unfolding delete_times append_ids Store.delete
delete_times-first ns ts l [] q a h = rw (h refl) (delete-first ts l q a)
delete_times-first ns ts l (t ∷ tss) q a h = ap (delete_times ns (t ∷ tss)) (delete-first ts l q a)

-- The ids of a time that do not fit go back under it.
pub split_time :
    (r v : List ℕ) (n ts : ℕ) (rest : Queue)
    → Above ts rest
    → r ++ take n v ++ all_ids (append_ids (drop n v) ts (Store.delete ts ((ts, v) ∷ rest)))
      ≡ r ++ (v ++ all_ids rest)
split_time r v n ts rest a =
    rw (delete-first ts v rest a, append_ids-all (drop n v) ts rest a)
      (append_assoc r (take n v) (drop n v ++ all_ids rest)
        ∙ ap (λ l. r ++ l)
            (sym (append_assoc (take n v) (drop n v) (all_ids rest))
              ∙ ap (λ l. l ++ all_ids rest) (take-append-drop n v)))
