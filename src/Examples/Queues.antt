-- ===== src/Examples/Queues.antt =====
-- Runs of the time queue, and instances of its theorems.
use interchain_security.Common.{[], ◌∷◌, ◌≡◌, ◌++◌, refl, take, arith}
use interchain_security.Store
use interchain_security.Store.Ordered.{Ascending}
use interchain_security.Provider.TimeQueue.{Queue, consume_ids_from_time_queue}
use interchain_security.Provider.TimeQueue.Leftover.{all_ids}
use interchain_security.Provider.TimeQueue.Consume.{
  due_ids, consume_ids_from_time_queue-due, consume_ids_from_time_queue-all,
}

-- Consumers 1 and 2 are due at time 10, 3 to 5 at 20 and 6 at 30.
abbrev queue : Queue
queue = (10, 1 ∷ 2 ∷ []) ∷ (20, 3 ∷ 4 ∷ 5 ∷ []) ∷ (30, 6 ∷ []) ∷ []

consume_four :
    consume_ids_from_time_queue 4 25 queue ≡ (1 ∷ 2 ∷ 3 ∷ 4 ∷ [], (20, 5 ∷ []) ∷ (30, 6 ∷ []) ∷ [])
unfolding consume_ids_from_time_queue Store.set Store.delete
consume_four = refl

queue-Ascending : Ascending queue
queue-Ascending = omega arith

consume_ids_from_time_queue-due_example :
    (consume_ids_from_time_queue 4 25 queue).0 ≡ take 4 (due_ids 25 queue)
consume_ids_from_time_queue-due_example = consume_ids_from_time_queue-due 4 25 queue queue-Ascending

consume_ids_from_time_queue-all_example :
    (consume_ids_from_time_queue 4 25 queue).0 ++ all_ids (consume_ids_from_time_queue 4 25 queue).1
    ≡ all_ids queue
consume_ids_from_time_queue-all_example = consume_ids_from_time_queue-all 4 25 queue queue-Ascending
