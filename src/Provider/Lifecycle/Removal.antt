-- ===== src/Provider/Lifecycle/Removal.antt =====
-- Stopping a consumer chain and removing its state, in consumer_lifecycle.go.
pub mod Turns
pub mod Links
pub mod Loop
pub mod Removed
use interchain_security.Common.{ℕ, ◌+◌, not, List, [], ◌∷◌, Option, none, some}
use interchain_security.Common.Outcome.{
  Handler, ◌>>=◌, ◌>>◌, pure, gets, modify, attempt, reject_if, non_stopped,
}
use interchain_security.Store
use interchain_security.Store.{Map}
use interchain_security.Provider.Phase.{Phase, is_stopped}
use interchain_security.Provider.Staking.{Staking, Block}
use interchain_security.Provider.Chain.{delete_all}
use interchain_security.Provider.KeyAssignment.{delete_key_assignments}
use interchain_security.Provider.ValidatorSet.{delete_val_set}
use interchain_security.Provider.TimeQueue.{consume_ids_from_time_queue}
use interchain_security.Provider.Infraction.{remove_consumer_infraction_queued_data}
use interchain_security.Provider.Consumers.{
  Consumer, Provider, update_consumer, get_consumer_phase, set_consumer_phase,
  delete_consumer_client_id, append_consumer_to_be_removed, set_consumer_removal_time,
}
use interchain_security.Provider.Cached.{cached}

unfoldable pub stop_and_prepare_for_consumer_removal :
    Staking → Block → ℕ → Handler Provider (Unit {0})
stop_and_prepare_for_consumer_removal k b id = do
  modify (set_consumer_phase id Phase.stopped)
  unbonding_period ← attempt k.unbonding_time
  modify (set_consumer_removal_time id (b.time + unbonding_period))
  modify (append_consumer_to_be_removed id (b.time + unbonding_period))

-- The channel mappings that are deleted; a channel that cannot be closed is only logged.
abbrev pub drop_channel : Option ℕ → Map ℕ → Map ℕ
drop_channel none m = m
drop_channel (some channel) m = Store.delete channel m

-- What `DeleteConsumerChain` leaves of a consumer's entries.
abbrev pub cleaned : Consumer → Consumer
cleaned c = record c {
  chain = record (c.chain) {
    phase = Phase.deleted;
    allowed = delete_all c.chain.allowed;
    denied = delete_all c.chain.denied;
    prioritized = delete_all c.chain.prioritized;
    minimum_power_in_top_n = none;
    opted_in = delete_all c.chain.opted_in;
    val_set = delete_val_set c.chain.val_set;
    keys = delete_key_assignments c.chain.keys;
  };
  genesis = none;
  channel = none;
  init_chain_height = none;
  evidence_min_height = none;
  slash_acks = [];
  pending_vsc_packets = [];
  commission_rates = Store.delete_keys (Store.keys c.commission_rates) c.commission_rates;
  removal_time = none;
}

unfoldable pub delete_consumer_chain : ℕ → Handler Provider (Unit {0})
unfolding remove_consumer_infraction_queued_data delete_val_set delete_key_assignments
delete_consumer_chain id = do
  phase ← gets (get_consumer_phase id)
  reject_if (not (is_stopped phase)) non_stopped
  modify (delete_consumer_client_id id)
  modify (λ s. record s {
    channel_consumers = drop_channel (s.consumers id).channel s.channel_consumers;
  })
  modify (λ s. record s { infractions = remove_consumer_infraction_queued_data id s.infractions })
  modify (update_consumer id cleaned)

unfoldable pub remove_each : List ℕ → Handler Provider (Unit {0})
unfolding delete_consumer_chain
remove_each [] = pure tt
remove_each (id ∷ ids) = cached (delete_consumer_chain id) (λ e. pure tt) >> remove_each ids

unfoldable pub begin_block_remove_consumers : Block → Handler Provider (Unit {0})
unfolding remove_each consume_ids_from_time_queue
begin_block_remove_consumers b s =
    let (ids, q) = consume_ids_from_time_queue 200 b.time s.to_remove in
    remove_each ids (record s { to_remove = q })
