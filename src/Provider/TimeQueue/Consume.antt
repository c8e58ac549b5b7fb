-- ===== src/Provider/TimeQueue/Consume.antt =====
-- `ConsumeIdsFromTimeQueue` takes the ids whose time has come, in order and up to the limit, and
-- loses none.
use mathlib.Core.List.{append_assoc, append-nil}
use interchain_security.Common.{
  ℕ, ◌-◌, ◌≤◌, ◌<◌, ◌≡◌, refl, ap, sym, ◌∙◌, true, false, List, [], ◌∷◌, ◌++◌, some, arith, leb,
  ltb, if◌then◌else◌, length, take, drop, inl, inr, Bool-cases, take-all, take-full, take-more, All,
  ◌||◌, length-append,
}
use interchain_security.Store
use interchain_security.Store.Ordered.{Above, Ascending}
use interchain_security.Provider.TimeQueue.{
  Queue, deletes, scan, delete_times, consume_ids_from_time_queue,
}
use interchain_security.Provider.TimeQueue.Leftover.{all_ids, delete_times-first, split_time}

-- The ids of a queue whose time has come.
abbrev pub due_ids : ℕ → Queue → List ℕ
due_ids now [] = []
due_ids now ((ts, ids) ∷ q) = if leb ts now then ids ++ due_ids now q else due_ids now q

-- A time's ids are read from the queue as the iterator shows them.
abbrev pub Reads : Queue → Queue → Type 0
Reads q = All λ e. Store.get e.0 q ≡ some e.1

pub Reads-self : (q : Queue) → Ascending q → Reads q q
Reads-self [] a = tt
Reads-self ((ts, ids) ∷ q) a = (ground arith, Reads-cons ts ids q q a.0 (Reads-self q a.1))
  where
    Reads-cons :
        (ts : ℕ) (ids : List ℕ) (q r : Queue) → Above ts r → Reads q r → Reads ((ts, ids) ∷ q) r
    Reads-cons ts ids q [] a h = tt
    Reads-cons ts ids q (e ∷ r) a h = (ground arith, Reads-cons ts ids q r a.1 h.1)

due_ids-Above : (now ts : ℕ) (q : Queue) → now < ts → Above ts q → due_ids now q ≡ []
due_ids-Above now ts [] h a = refl
due_ids-Above now ts ((t, l) ∷ q) h a = ground (arith, due_ids-Above now ts q h a.1)

scan-next_time :
    (limit now : ℕ) (q : Queue) (r : List ℕ) (rest : Queue)
    → (scan limit now q r rest).to_delete ≡ []
    → (scan limit now q r rest).next_time ≡ []
unfolding scan
scan-next_time limit now q r [] h = refl
scan-next_time limit now q r ((ts, v) ∷ rest) h = ground arith

due_ids-due :
    (now ts : ℕ) (v : List ℕ) (q : Queue)
    → ltb now ts ≡ false
    → due_ids now ((ts, v) ∷ q) ≡ v ++ due_ids now q
due_ids-due now ts v q h = ground arith

due_ids-later :
    (now ts : ℕ) (v : List ℕ) (q : Queue)
    → ltb now ts ≡ true
    → Above ts q
    → due_ids now ((ts, v) ∷ q) ≡ []
due_ids-later now ts v q h a = ground (arith, due_ids-Above now ts q (ground arith) a)

-- The branches of the loop at a time that the queue holds the ids `v` for.
module _ (limit now : ℕ) (q : Queue) (r : List ℕ) (ts : ℕ) (v : List ℕ) (rest : Queue) where
  scan-stops :
      leb limit (length r) || ltb now ts ≡ true
      → scan limit now q r ((ts, v) ∷ rest) ≡ record { result = r; next_time = []; to_delete = [] }
  unfolding scan
  scan-stops h = ground arith

  scan-fits :
      leb limit (length r) ≡ false
      → ltb now ts ≡ false
      → Store.get ts q ≡ some v
      → leb (length v) (limit - length r) ≡ true
      → scan limit now q r ((ts, v) ∷ rest) ≡ deletes ts (scan limit now q (r ++ v) rest)
  unfolding scan
  scan-fits h h' g f = rw (h, h', g, f)

  scan-more :
      leb limit (length r) ≡ false
      → ltb now ts ≡ false
      → Store.get ts q ≡ some v
      → leb (length v) (limit - length r) ≡ false
      → scan limit now q r ((ts, v) ∷ rest) ≡ record {
        result = r ++ take (limit - length r) v;
        next_time = drop (limit - length r) v;
        to_delete = ts ∷ [];
      }
  unfolding scan
  scan-more h h' g f = rw (h, h', g, f)

-- What the loop collects, from a point where it holds the ids `r`.
scan-result :
    (limit now : ℕ) (q : Queue) (r : List ℕ) (rest : Queue)
    → length r ≤ limit
    → Reads q rest
    → Ascending rest
    → (scan limit now q r rest).result ≡ take limit (r ++ due_ids now rest)
unfolding scan
scan-result limit now q r [] h g a = sym (ap (take limit) (append-nil r) ∙ take-all limit r h)
scan-result limit now q r ((ts, v) ∷ rest) h g a = elim (Bool-cases (leb limit (length r))) [
  | inl full ↦
      ap (λ s. s.result) (scan-stops limit now q r ts v rest (ground arith))
      ∙ sym (take-full r (due_ids now ((ts, v) ∷ rest)) (ground arith))
  | inr room ↦ elim (Bool-cases (ltb now ts)) [
    | inl later ↦
        ap (λ s. s.result) (scan-stops limit now q r ts v rest (ground arith))
        ∙ sym (
            ap (take limit)
              (ap (λ l. r ++ l) (due_ids-later now ts v rest later a.0) ∙ append-nil r)
            ∙ take-all limit r h)
    | inr due ↦ elim (Bool-cases (leb (length v) (limit - length r))) [
      | inl fits ↦
          ap (λ s. s.result) (scan-fits limit now q r ts v rest room due g.0 fits)
          ∙ scan-result limit now q (r ++ v) rest (ground (arith, length-append r v)) g.1 a.1
          ∙ ap (take limit) (
              append_assoc r v (due_ids now rest)
              ∙ sym (ap (λ l. r ++ l) (due_ids-due now ts v rest due)))
      | inr more ↦
          ap (λ s. s.result) (scan-more limit now q r ts v rest room due g.0 more)
          ∙ sym (
              ap (λ l. take limit (r ++ l)) (due_ids-due now ts v rest due)
              ∙ take-more limit r v (due_ids now rest) (ground arith) (ground arith))
    ]
  ]
]

scan-all :
    (limit now : ℕ) (q : Queue) (r : List ℕ) (rest : Queue)
    → Reads q rest
    → Ascending rest
    → (scan limit now q r rest).result
        ++ all_ids (
            delete_times
              (scan limit now q r rest).next_time
              (scan limit now q r rest).to_delete
              rest)
      ≡ r ++ all_ids rest
unfolding scan delete_times
scan-all limit now q r [] g a = refl
scan-all limit now q r ((ts, v) ∷ rest) g a = elim (Bool-cases (leb limit (length r))) [
  | inl full ↦ rw (scan-stops limit now q r ts v rest (ground arith)) refl
  | inr room ↦ elim (Bool-cases (ltb now ts)) [
    | inl later ↦ rw (scan-stops limit now q r ts v rest (ground arith)) refl
    | inr due ↦ elim (Bool-cases (leb (length v) (limit - length r))) [
      | inl fits ↦ rw (scan-fits limit now q r ts v rest room due g.0 fits) (
          ap (λ l. (scan limit now q (r ++ v) rest).result ++ all_ids l)
            (delete_times-first (scan limit now q (r ++ v) rest).next_time ts v
              (scan limit now q (r ++ v) rest).to_delete rest a.0
              (scan-next_time limit now q (r ++ v) rest))
          ∙ scan-all limit now q (r ++ v) rest g.1 a.1
          ∙ append_assoc r v (all_ids rest))
      | inr more ↦
          rw (scan-more limit now q r ts v rest room due g.0 more)
            (split_time r v (limit - length r) ts rest a.0)
    ]
  ]
]

-- On a queue in ascending order of times, `ConsumeIdsFromTimeQueue` returns the ids whose time is
-- not after the block's, in the queue's order and no more than the limit.
pub consume_ids_from_time_queue-due :
    (limit now : ℕ) (q : Queue)
    → Ascending q
    → (consume_ids_from_time_queue limit now q).0 ≡ take limit (due_ids now q)
unfolding consume_ids_from_time_queue
consume_ids_from_time_queue-due limit now q a =
    scan-result limit now q [] q (omega arith) (Reads-self q a) a

-- On a queue in ascending order of times, the ids that `ConsumeIdsFromTimeQueue` returns and those it
-- leaves in the queue are together the queue's ids in their order: none is lost or taken twice.
pub consume_ids_from_time_queue-all :
    (limit now : ℕ) (q : Queue)
    → Ascending q
    → (consume_ids_from_time_queue limit now q).0
        ++ all_ids (consume_ids_from_time_queue limit now q).1
      ≡ all_ids q
unfolding consume_ids_from_time_queue
consume_ids_from_time_queue-all limit now q a = scan-all limit now q [] q (Reads-self q a) a
