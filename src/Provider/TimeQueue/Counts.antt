-- ===== src/Provider/TimeQueue/Counts.antt =====
-- How often an id is in a time queue, over the operations that put ids in and take them out.
use interchain_security.Common.{
  ℕ, ◌+◌, ◌≤◌, ◌<◌, ◌≡◌, ◌⊎◌, refl, sym, ap, ◌∙◌, true, false, List, [], ◌∷◌, ◌++◌, arith, ltb,
  ◌==◌, if◌then◌else◌, inl, inr, Bool-cases, length,
}
use interchain_security.Common.Outcome.{Outcome, ok, err, no_such_time, no_such_id}
use interchain_security.Store
use interchain_security.Store.{elem}
use interchain_security.Store.Ordered.{
  Above, Ascending, get_below, delete-absent, set-Ascending, delete-Ascending,
}
use interchain_security.Provider.TimeQueue.{
  Queue, ids_at, get_ids, append_id, append_ids, remove_first, remove_id, delete_times,
  consume_ids_from_time_queue, scan,
}
use interchain_security.Provider.TimeQueue.Leftover.{all_ids}
use interchain_security.Provider.TimeQueue.Consume.{consume_ids_from_time_queue-all}

abbrev pub count : ℕ → List ℕ → ℕ
count id [] = 0
count id (x ∷ xs) = (if id == x then 1 else 0) + count id xs

-- How often an id is in the whole queue.
abbrev pub tally : ℕ → Queue → ℕ
tally id [] = 0
tally id ((ts, ids) ∷ q) = count id ids + tally id q

pub count-append : (id : ℕ) (xs ys : List ℕ) → count id (xs ++ ys) ≡ count id xs + count id ys
count-append id [] ys = omega arith
count-append id (x ∷ xs) ys = omega (arith, count-append id xs ys)

pub count-elem : (id : ℕ) (xs : List ℕ) → elem id xs ≡ false → count id xs ≡ 0
count-elem id [] e = refl
count-elem id (x ∷ xs) e = ground (arith, e, count-elem id xs)

pub elem-count : (id : ℕ) (xs : List ℕ) → elem id xs ≡ true → 1 ≤ count id xs
elem-count id (x ∷ xs) e = ground (arith, e, elem-count id xs)
elem-count id [] e = cc

all_ids-tally : (id : ℕ) (q : Queue) → count id (all_ids q) ≡ tally id q
all_ids-tally id [] = refl
all_ids-tally id ((ts, ids) ∷ q) =
    omega (arith, count-append id ids (all_ids q), all_ids-tally id q)

get_ids-below : (k ts : ℕ) (q : Queue) → k < ts → Above ts q → get_ids k q ≡ []
get_ids-below k ts q lt a = ap ids_at (get_below k q (below q a))
  where
    below : (m : Queue) → Above ts m → Above k m
    below [] a = tt
    below (e ∷ m) a = (omega (arith, lt, a.0), below m a.1)

set-tally :
    (id ts : ℕ) (l : List ℕ) (q : Queue)
    → Ascending q
    → tally id (Store.set ts l q) + count id (get_ids ts q) ≡ tally id q + count id l
unfolding Store.set
set-tally id ts l [] a = omega arith
set-tally id ts l ((t, v) ∷ q) a = elim (Bool-cases (ts == t)) [
  | inl at ↦ rw (at) (omega arith)
  | inr other ↦ elim (Bool-cases (ltb ts t)) [
    | inl before ↦
        rw (other, before)
          (omega (arith, ap (count id) (get_ids-below ts t q (ground (arith, before)) a.0)))
    | inr after ↦ rw (other, after) (omega (arith, set-tally id ts l q a.1))
  ]
]

delete-tally :
    (id ts : ℕ) (q : Queue)
    → Ascending q
    → tally id (Store.delete ts q) + count id (get_ids ts q) ≡ tally id q
unfolding Store.delete
delete-tally id ts [] a = refl
delete-tally id ts ((t, v) ∷ q) a = elim (Bool-cases (ts == t)) [
  | inl at ↦
      let same : t ≡ ts = ground (arith, at) in
      rw (at) (
        omega
          (arith, ap (tally id) (ap (λ x. Store.delete x q) (sym same) ∙ delete-absent t q a.0)))
  | inr other ↦ rw (other) (omega (arith, delete-tally id ts q a.1))
]

pub append_id-tally :
    (id n ts : ℕ) (q : Queue)
    → Ascending q
    → tally id (append_id n ts q) ≡ tally id q + (if id == n then 1 else 0)
append_id-tally id n ts q a =
    omega
      (arith, set-tally id ts (get_ids ts q ++ n ∷ []) q a, count-append id (get_ids ts q) (n ∷ []))

pub append_id-Ascending : (n ts : ℕ) (q : Queue) → Ascending q → Ascending (append_id n ts q)
append_id-Ascending n ts q a = set-Ascending ts (get_ids ts q ++ n ∷ []) q a

remove_first-count :
    (id n : ℕ) (xs : List ℕ)
    → elem n xs ≡ true
    → count id (remove_first n xs) + (if id == n then 1 else 0) ≡ count id xs
remove_first-count id n [] e = cc
remove_first-count id n (x ∷ xs) e = elim (Bool-cases (x == n)) [
  | inl at ↦
      let same : x ≡ n = ground (arith, at) in
      rw (at) (ap (λ y. count id xs + (if id == y then 1 else 0)) (sym same) ∙ omega arith)
  | inr other ↦ rw (other) (omega (arith, remove_first-count id n xs (ground (arith, e, other))))
]

remove_id-cases :
    (n ts : ℕ) (q : Queue)
    → elem n (get_ids ts q) ≡ true
    → (remove_id n ts q ≡ (ok tt, Store.delete ts q)) × (get_ids ts q ≡ n ∷ [])
      ⊎ (remove_id n ts q ≡ (ok tt, Store.set ts (remove_first n (get_ids ts q)) q))
unfolding remove_id
remove_id-cases n ts q e = go (get_ids ts q) e
  where
    answer : List ℕ → Outcome (Unit {0}) × Queue
    answer ids =
        if length ids == 0
        then (err no_such_time, q)
        else if elem n ids
        then (
          ok tt,
          if length ids == 1 then Store.delete ts q else Store.set ts (remove_first n ids) q,
        )
        else (err no_such_id, q)

    go :
        (ids : List ℕ)
        → elem n ids ≡ true
        → (answer ids ≡ (ok tt, Store.delete ts q)) × (ids ≡ n ∷ [])
          ⊎ (answer ids ≡ (ok tt, Store.set ts (remove_first n ids) q))
    go [] e = cc
    go (x ∷ []) e = inl (rw (e, answer) refl, ap (λ z. z ∷ []) (ground (arith, e)))
    go (x ∷ y ∷ ids) e =
        let some_ids : (length (x ∷ y ∷ ids) == 0) ≡ false = ground arith in
        let two : (length (x ∷ y ∷ ids) == 1) ≡ false = ground arith in
        inr (rw (answer, e, some_ids, two) refl)

-- An id that is listed under a time is taken out once.
pub remove_id-ok :
    (n ts : ℕ) (q : Queue)
    → Ascending q
    → elem n (get_ids ts q) ≡ true
    → (q' : Queue) × ((remove_id n ts q ≡ (ok tt, q'))
        × (Ascending q' × ((id : ℕ) → tally id q' + (if id == n then 1 else 0) ≡ tally id q)))
remove_id-ok n ts q a e = elim (remove_id-cases n ts q e) [
  | inl (gone, only) ↦ (
    Store.delete ts q,
    (
      gone,
      (delete-Ascending ts q a, λ id. omega (arith, delete-tally id ts q a, ap (count id) only)),
    ),
  )
  | inr kept ↦ (
    Store.set ts (remove_first n (get_ids ts q)) q,
    (
      kept,
      (
        set-Ascending ts (remove_first n (get_ids ts q)) q a,
        λ id. omega (
          arith,
          set-tally id ts (remove_first n (get_ids ts q)) q a,
          remove_first-count id n (get_ids ts q) e,
        ),
      ),
    ),
  )
]

pub remove_id-absent :
    (n ts : ℕ) (q : Queue) → elem n (get_ids ts q) ≡ false → (remove_id n ts q).1 ≡ q
unfolding remove_id
remove_id-absent n ts q e = elim (Bool-cases (length (get_ids ts q) == 0)) [
  | inl nothing ↦ rw (nothing) refl
  | inr some_ids ↦ rw (some_ids, e) refl
]

pub tally-elem : (n ts : ℕ) (q : Queue) → tally n q ≡ 0 → elem n (get_ids ts q) ≡ false
tally-elem n ts [] e = refl
tally-elem n ts ((t, v) ∷ q) e = elim (Bool-cases (ts == t)) [
  | inl at ↦ rw (at) (elim (Bool-cases (elem n v)) [
    | inl listed ↦ absurd (omega (arith, e, elem-count n v listed))
    | inr not_there ↦ not_there
  ])
  | inr other ↦ rw (other) (tally-elem n ts q (omega (arith, e)))
]

append_ids-Ascending :
    (ids : List ℕ) (ts : ℕ) (q : Queue) → Ascending q → Ascending (append_ids ids ts q)
unfolding append_ids
append_ids-Ascending [] ts q a = a
append_ids-Ascending (id ∷ ids) ts q a =
    append_ids-Ascending ids ts (append_id id ts q) (append_id-Ascending id ts q a)

delete_times-Ascending :
    (ids tss : List ℕ) (q : Queue) → Ascending q → Ascending (delete_times ids tss q)
unfolding delete_times
delete_times-Ascending ids [] q a = a
delete_times-Ascending ids (ts ∷ []) q a =
    append_ids-Ascending ids ts (Store.delete ts q) (delete-Ascending ts q a)
delete_times-Ascending ids (ts ∷ t ∷ tss) q a =
    delete_times-Ascending ids (t ∷ tss) (Store.delete ts q) (delete-Ascending ts q a)

pub consume_ids_from_time_queue-Ascending :
    (limit now : ℕ) (q : Queue)
    → Ascending q
    → Ascending (consume_ids_from_time_queue limit now q).1
unfolding consume_ids_from_time_queue
consume_ids_from_time_queue-Ascending limit now q a =
    let s = scan limit now q [] q in delete_times-Ascending s.next_time s.to_delete q a

-- What is consumed and what is left.
pub consume_ids_from_time_queue-tally :
    (limit now id : ℕ) (q : Queue)
    → Ascending q
    → count id (consume_ids_from_time_queue limit now q).0
        + tally id (consume_ids_from_time_queue limit now q).1
      ≡ tally id q
consume_ids_from_time_queue-tally limit now id q a =
    let r = consume_ids_from_time_queue limit now q in
    omega (
      arith,
      count-append id r.0 (all_ids r.1),
      ap (count id) (consume_ids_from_time_queue-all limit now q a),
      all_ids-tally id q,
      all_ids-tally id r.1,
    )
