-- ===== src/Provider/Infraction.antt =====
-- x/ccv/provider/keeper/infraction_parameters.go: how infractions on a consumer chain are punished, and
-- the queue of changes that wait for the unbonding period.
pub mod Unscheduled
pub mod Scheduled
pub mod Turns
pub mod Applied
use interchain_security.Common.{
  ℕ, ◌+◌, Bool, true, false, not, List, [], ◌∷◌, Option, none, some, ◌==◌, ◌&&◌, if◌then◌else◌,
}
use interchain_security.Common.Outcome.{
  Outcome, ok, panic, Handler, ◌>>=◌, ◌>>◌, pure, gets, modify, attempt, or_fail, external,
  no_such_time,
}
use interchain_security.Store
use interchain_security.Store.{Map, elem}
use interchain_security.Provider.Staking.{Staking, Block}
use interchain_security.Provider.TimeQueue.{
  Queue, get_ids, append_id, remove_id, consume_ids_from_time_queue,
}

-- types.SlashJailParameters; the decimal by its 18 digits after the point.
pub record SlashJail : Type 0 where
  pub slash_fraction : ℕ
  pub jail_duration : ℕ
  pub tombstone : Bool

-- types.InfractionParameters; the messages of the two are pointers.
pub record InfractionParameters : Type 0 where
  pub double_sign : Option SlashJail
  pub downtime : Option SlashJail

-- The three prefixes: by consumer id the parameters and the queued ones, by time the ids.
pub record Infractions : Type 0 where
  pub parameters : Map InfractionParameters
  pub queued : Map InfractionParameters
  pub schedule : Queue

abbrev same_flag : Bool → Bool → Bool
same_flag true b = b
same_flag false b = not b

unfoldable pub compare_slash_jail_parameters : Option SlashJail → Option SlashJail → Bool
compare_slash_jail_parameters none none = true
compare_slash_jail_parameters none (some b) = false
compare_slash_jail_parameters (some a) none = false
compare_slash_jail_parameters (some a) (some b) =
    same_flag a.tombstone b.tombstone
    && (a.slash_fraction == b.slash_fraction)
    && (a.jail_duration == b.jail_duration)

unfoldable pub compare_infraction_parameters : InfractionParameters → InfractionParameters → Bool
unfolding compare_slash_jail_parameters
compare_infraction_parameters a b =
    compare_slash_jail_parameters a.double_sign b.double_sign
    && compare_slash_jail_parameters a.downtime b.downtime

abbrev pub get_infraction_parameters : ℕ → Infractions → Option InfractionParameters
get_infraction_parameters id s = Store.get id s.parameters

-- The downtime pointer is dereferenced for a log line.
unfoldable pub set_infraction_parameters : ℕ → InfractionParameters → Handler Infractions (Unit {0})
set_infraction_parameters id p s = elim p.downtime [
  | none ↦ (panic, s)
  | some d ↦ (ok tt, record s { parameters = Store.set id p s.parameters })
]

abbrev pub delete_infraction_parameters : ℕ → Infractions → Infractions
delete_infraction_parameters id s = record s { parameters = Store.delete id s.parameters }

abbrev pub get_queued_infraction_parameters : ℕ → Infractions → Option InfractionParameters
get_queued_infraction_parameters id s = Store.get id s.queued

abbrev pub set_queued_infraction_parameters : ℕ → InfractionParameters → Infractions → Infractions
set_queued_infraction_parameters id p s = record s { queued = Store.set id p s.queued }

abbrev pub delete_queued_infraction_parameters : ℕ → Infractions → Infractions
delete_queued_infraction_parameters id s = record s { queued = Store.delete id s.queued }

abbrev pub has_queued_infraction_parameters : ℕ → Infractions → Bool
has_queued_infraction_parameters id s = Store.has id s.queued

abbrev pub add_to_infraction_update_schedule : ℕ → ℕ → Infractions → Infractions
add_to_infraction_update_schedule id ts s = record s { schedule = append_id id ts s.schedule }

-- The first time under which the iterator finds the id.
unfoldable pub scheduled_time : ℕ → Queue → Queue → Option ℕ
scheduled_time id q [] = none
scheduled_time id q ((ts, ids) ∷ rest) =
    if elem id (get_ids ts q) then some ts else scheduled_time id q rest

-- The id is taken out of the schedule as well.
unfoldable pub get_consumer_infraction_update_time : ℕ → Handler Queue ℕ
unfolding scheduled_time remove_id
get_consumer_infraction_update_time id = do
  found ← gets (λ q. scheduled_time id q q)
  ts ← or_fail found no_such_time
  remove_id id ts
  pure ts

-- `RemoveFromInfractionUpdateSchedule` after it, whose error is dropped.
unfoldable pub unschedule : ℕ → Handler Queue (Unit {0})
unfolding get_consumer_infraction_update_time remove_id
unschedule id = do ts ← get_consumer_infraction_update_time id; remove_id id ts

unfoldable pub remove_consumer_infraction_queued_data : ℕ → Infractions → Infractions
unfolding unschedule
remove_consumer_infraction_queued_data id s =
    if has_queued_infraction_parameters id s
    then (let s' = delete_queued_infraction_parameters id s in
        record s' { schedule = (unschedule id s'.schedule).1 })
    else s

unfoldable pub update_queued_infraction_params :
    Staking → Block → ℕ → InfractionParameters → Handler Infractions (Unit {0})
unfolding remove_consumer_infraction_queued_data compare_infraction_parameters
update_queued_infraction_params k b id new = do
  modify (remove_consumer_infraction_queued_data id)
  stored ← gets (get_infraction_parameters id)
  current ← or_fail stored external
  if compare_infraction_parameters current new then pure tt else (do
    modify (set_queued_infraction_parameters id new)
    unbonding_period ← attempt k.unbonding_time
    modify (add_to_infraction_update_schedule id (b.time + unbonding_period)))

-- One turn of the loop of `BeginBlockUpdateInfractionParameters`.
unfoldable pub apply_queued : ℕ → Handler Infractions (Unit {0})
unfolding set_infraction_parameters
apply_queued id = do
  found ← gets (get_queued_infraction_parameters id)
  p ← or_fail found external
  set_infraction_parameters id p
  modify (delete_queued_infraction_parameters id)

unfoldable pub apply_each : List ℕ → Handler Infractions (Unit {0})
unfolding apply_queued
apply_each [] = pure tt
apply_each (id ∷ ids) = apply_queued id >> apply_each ids

unfoldable pub begin_block_update_infraction_parameters : Block → Handler Infractions (Unit {0})
unfolding apply_each consume_ids_from_time_queue
begin_block_update_infraction_parameters b s =
    let (ids, schedule) = consume_ids_from_time_queue 200 b.time s.schedule in
    apply_each ids (record s { schedule = schedule })
