-- ===== src/Provider/TimeQueue.antt =====
-- The time queues of x/ccv/provider/keeper/consumer_lifecycle.go: the consumer ids that are to be
-- launched or removed at a time, in ascending order of times.
pub mod Leftover
pub mod Consume
pub mod Counts
use interchain_security.Common.{
  ℕ, ◌+◌, ◌-◌, Bool, true, false, List, [], ◌∷◌, ◌++◌, Option, none, some, leb, ltb, ◌==◌,
  if◌then◌else◌, length, take, drop,
}
use interchain_security.Common.Outcome.{Outcome, ok, err, Handler, no_such_time, no_such_id}
use interchain_security.Store
use interchain_security.Store.{Map, elem}

abbrev pub Queue : Type 0
Queue = Map (List ℕ)

-- `getConsumerIdsBasedOnTime`
abbrev pub ids_at : Option (List ℕ) → List ℕ
ids_at none = []
ids_at (some ids) = ids

abbrev pub get_ids : ℕ → Queue → List ℕ
get_ids ts q = ids_at (Store.get ts q)

-- `appendConsumerIdOnTime`
abbrev pub append_id : ℕ → ℕ → Queue → Queue
append_id id ts q = Store.set ts (get_ids ts q ++ id ∷ []) q

-- The ids without the first occurrence of one of them.
abbrev pub remove_first : ℕ → List ℕ → List ℕ
remove_first id [] = []
remove_first id (x ∷ xs) = if x == id then xs else x ∷ remove_first id xs

-- `removeConsumerIdFromTime`
unfoldable pub remove_id : ℕ → ℕ → Handler Queue (Unit {0})
remove_id id ts q =
    let ids = get_ids ts q in
    if length ids == 0
    then (err no_such_time, q)
    else if elem id ids
    then (
      ok tt,
      if length ids == 1 then Store.delete ts q else Store.set ts (remove_first id ids) q,
    )
    else (err no_such_id, q)

-- `result`, `nextTime` and `timestampsToDelete` of `ConsumeIdsFromTimeQueue`.
pub record Scan : Type 0 where
  pub result : List ℕ
  pub next_time : List ℕ
  pub to_delete : List ℕ

abbrev pub deletes : ℕ → Scan → Scan
deletes ts s = record s { to_delete = ts ∷ s.to_delete }

-- The loop over the iterator, which reads the ids of each time from the queue.
pub scan : ℕ → ℕ → Queue → List ℕ → Queue → Scan
scan limit now q result [] = record { result = result; next_time = []; to_delete = [] }
scan limit now q result ((ts, value) ∷ rest) =
    if leb limit (length result)
    then record { result = result; next_time = []; to_delete = [] }
    else if ltb now ts
    then record { result = result; next_time = []; to_delete = [] }
    else (let ids = get_ids ts q in
        let available_slots = limit - length result in
        let all_of_them = deletes ts (scan limit now q (result ++ ids) rest) in
        if leb (length ids) available_slots then all_of_them else record {
          result = result ++ take available_slots ids;
          next_time = drop available_slots ids;
          to_delete = ts ∷ [];
        })

pub append_ids : List ℕ → ℕ → Queue → Queue
append_ids [] ts q = q
append_ids (id ∷ ids) ts q = append_ids ids ts (append_id id ts q)

-- The loop over the times to delete: the ids left over go back under the last of them.
pub delete_times : List ℕ → List ℕ → Queue → Queue
unfolding append_ids
delete_times next_time [] q = q
delete_times next_time (ts ∷ []) q = append_ids next_time ts (Store.delete ts q)
delete_times next_time (ts ∷ t ∷ tss) q = delete_times next_time (t ∷ tss) (Store.delete ts q)

unfoldable pub consume_ids_from_time_queue : ℕ → ℕ → Queue → List ℕ × Queue
unfolding scan delete_times
consume_ids_from_time_queue limit now q =
    let s = scan limit now q [] q in (s.result, delete_times s.next_time s.to_delete q)
