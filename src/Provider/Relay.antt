-- ===== src/Provider/Relay.antt =====
-- How the provider tells consumer chains about their validator sets: the VSU part of
-- x/ccv/provider/keeper/relay.go.
pub mod Told
pub mod Queued
pub mod Sending
pub mod Delivered
pub mod Epoch
use interchain_security.Common.{
  ℕ, ◌+◌, ◌-◌, ◌%◌, Bool, true, false, List, [], ◌∷◌, ◌++◌, Option, none, some, ltb, ◌==◌,
  if◌then◌else◌, length, take,
}
use interchain_security.Common.Outcome.{
  Outcome, ok, err, Handler, ◌>>=◌, ◌>>◌, pure, fail, gets, modify, attempt, or_fail, then_ok,
  unknown_channel, invalid_channel_state, external,
}
use interchain_security.Store
use interchain_security.Updates.{ValidatorUpdate}
use interchain_security.Provider.Phase.{is_launched}
use interchain_security.Provider.Staking.{Staking, StakingValidator, Block}
use interchain_security.Provider.KeyAssignment.{prune_key_assignments}
use interchain_security.Provider.ValidatorSet.{
  ConsensusValidator, get_val_set, set_val_set, diff_validators,
}
use interchain_security.Provider.NextValidators.{Library, compute_consumer_next_val_set}
use interchain_security.Provider.PowerShaping.TopN.{or_external, last_power}
use interchain_security.Provider.Ibc.{
  Ibc, SendResult, accepted, client_not_active, failed, send_ibc_packet,
}
use interchain_security.Provider.Lifecycle.Launch.{Bonded}
use interchain_security.Provider.Lifecycle.Removal.{stop_and_prepare_for_consumer_removal}
use interchain_security.Provider.SlashMeter.{Allowance, check_for_slash_meter_replenishment}
use interchain_security.Provider.Consumers.{
  on_throttle, VscPacket, SentPacket, Provider, on_chain, update_consumer, get_consumer_phase,
  get_all_consumers_with_ibc_clients, get_consumer_id_to_channel_id, get_channel_id_to_consumer_id,
  get_validator_set_update_id, increment_validator_set_update_id, set_valset_update_block_height,
  consume_slash_acks, append_pending_vsc_packets, delete_pending_vsc_packets,
}

-- The packet of a chain whose set has changed.
unfoldable pub enqueue : ℕ → ℕ → List ValidatorUpdate → Handler Provider (Unit {0})
enqueue id vsc_id [] = pure tt
enqueue id vsc_id (u ∷ us) = do
  acks ← consume_slash_acks id
  modify (
      append_pending_vsc_packets id
        (record { validator_updates = u ∷ us; valset_update_id = vsc_id; slash_acks = acks }))

-- What the loop of `QueueVSCPackets` does for a launched chain.
unfoldable pub queue_vsc_packet :
    Library
    → Staking
    → Block
    → ℕ
    → List StakingValidator
    → List StakingValidator
    → ℕ
    → ℕ
    → Handler Provider (Unit {0})
unfolding on_chain compute_consumer_next_val_set enqueue
queue_vsc_packet l k b max_vals bonded active vsc_id id = do
  current ← gets (λ s. get_val_set (s.consumers id).chain.val_set)
  updates ← on_chain id (compute_consumer_next_val_set l k b max_vals bonded active current)
  enqueue id vsc_id updates

unfoldable pub queue_if_launched :
    Library
    → Staking
    → Block
    → ℕ
    → List StakingValidator
    → List StakingValidator
    → ℕ
    → ℕ
    → Handler Provider (Unit {0})
unfolding queue_vsc_packet
queue_if_launched l k b max_vals bonded active vsc_id id = do
  phase ← gets (get_consumer_phase id)
  if is_launched phase then queue_vsc_packet l k b max_vals bonded active vsc_id id else pure tt

unfoldable pub queue_each :
    Library
    → Staking
    → Block
    → ℕ
    → List StakingValidator
    → List StakingValidator
    → ℕ
    → List ℕ
    → Handler Provider (Unit {0})
unfolding queue_if_launched
queue_each l k b max_vals bonded active vsc_id [] = pure tt
queue_each l k b max_vals bonded active vsc_id (id ∷ ids) =
    queue_if_launched l k b max_vals bonded active vsc_id id
    >> queue_each l k b max_vals bonded active vsc_id ids

unfoldable pub queue_vsc_packets : Library → Staking → Block → Bonded → Handler Provider (Unit {0})
unfolding queue_each
queue_vsc_packets l k b v = do
  vsc_id ← gets get_validator_set_update_id
  bonded ← attempt v.validators
  active ← attempt v.active
  ids ← gets get_all_consumers_with_ibc_clients
  queue_each l k b v.max_provider_consensus_validators bonded active vsc_id ids
  modify increment_validator_set_update_id

abbrev log_sent : ℕ → ℕ → VscPacket → Provider → Provider
log_sent channel timeout p s = record s {
  sent = s.sent ++ record { channel = channel; packet = p; timeout = timeout } ∷ [];
}

-- The loop of `SendVSCPacketsToChain` up to the first packet that is not accepted.
unfoldable pub send_each : Ibc → ℕ → ℕ → List VscPacket → Provider → SendResult × Provider
send_each i channel timeout [] s = (accepted, s)
send_each i channel timeout (p ∷ ps) s = elim (send_ibc_packet i channel p) [
  | accepted ↦ send_each i channel timeout ps (log_sent channel timeout p s)
  | client_not_active ↦ (client_not_active, s)
  | failed ↦ (failed, s)
]

-- An error of stopping the chain is only logged.
abbrev pub ignore_error : {S : Type 0} → Outcome (Unit {0}) × S → Outcome (Unit {0}) × S
ignore_error (ok u, s) = (ok tt, s)
ignore_error (err e, s) = (ok tt, s)
ignore_error (Outcome.panic, s) = (Outcome.panic, s)

-- What follows the loop.
unfoldable pub after_sending : Staking → Block → ℕ → SendResult → Handler Provider (Unit {0})
unfolding stop_and_prepare_for_consumer_removal
after_sending k b id accepted = modify (delete_pending_vsc_packets id)
after_sending k b id client_not_active = pure tt
after_sending k b id failed = λ s. ignore_error (stop_and_prepare_for_consumer_removal k b id s)

unfoldable pub send_vsc_packets_to_chain :
    Staking → Ibc → Block → ℕ → ℕ → ℕ → Handler Provider (Unit {0})
unfolding send_each after_sending
send_vsc_packets_to_chain k i b timeout_period id channel s =
    let (r, s') =
      send_each i channel (b.time + timeout_period) (s.consumers id).pending_vsc_packets s in
    after_sending k b id r s'

unfoldable pub send_if_launched : Staking → Ibc → Block → ℕ → ℕ → Handler Provider (Unit {0})
unfolding send_vsc_packets_to_chain
send_if_launched k i b timeout_period id s =
    if is_launched (get_consumer_phase id s)
    then elim (get_consumer_id_to_channel_id id s) [
      | none ↦ (ok tt, s)
      | some channel ↦ send_vsc_packets_to_chain k i b timeout_period id channel s
    ]
    else (ok tt, s)

unfoldable pub send_to_each : Staking → Ibc → Block → ℕ → List ℕ → Handler Provider (Unit {0})
unfolding send_if_launched
send_to_each k i b timeout_period [] = pure tt
send_to_each k i b timeout_period (id ∷ ids) =
    send_if_launched k i b timeout_period id >> send_to_each k i b timeout_period ids

unfoldable pub send_vsc_packets : Staking → Ibc → Block → ℕ → Handler Provider (Unit {0})
unfolding send_to_each
send_vsc_packets k i b timeout_period = do
  ids ← gets get_all_consumers_with_ibc_clients
  send_to_each k i b timeout_period ids

-- `OnAcknowledgementPacket`, by whether the acknowledgement is an error.
unfoldable pub on_acknowledgement_packet : Staking → Block → Bool → ℕ → Handler Provider (Unit {0})
unfolding stop_and_prepare_for_consumer_removal
on_acknowledgement_packet k b false channel = pure tt
on_acknowledgement_packet k b true channel = do
  found ← gets (get_channel_id_to_consumer_id channel)
  id ← or_fail found unknown_channel
  stop_and_prepare_for_consumer_removal k b id

unfoldable pub on_timeout_packet : Staking → Block → ℕ → Handler Provider (Unit {0})
unfolding stop_and_prepare_for_consumer_removal
on_timeout_packet k b channel = do
  found ← gets (get_channel_id_to_consumer_id channel)
  id ← or_fail found invalid_channel_state
  stop_and_prepare_for_consumer_removal k b id

unfoldable pub create_provider_consensus_validator :
    Staking → StakingValidator → Outcome ConsensusValidator
unfolding last_power
create_provider_consensus_validator k v = then_ok (or_external v.cons_addr) λ addr.
    then_ok (or_external v.cmt_cons_public_key) λ key. then_ok (last_power k v) λ power.
      ok record { provider_cons_addr = addr; power = power; public_key = key; join_height = 0 }

unfoldable pub create_each : Staking → List StakingValidator → Outcome (List ConsensusValidator)
unfolding create_provider_consensus_validator
create_each k [] = ok []
create_each k (v ∷ vs) =
    then_ok (create_provider_consensus_validator k v)
      λ n. then_ok (create_each k vs) λ ns. ok (n ∷ ns)

-- `bondedValidators[:maxValidators]`, with the bound cut to the length.
unfoldable pub provider_validator_updates :
    Staking → Outcome (List StakingValidator) → ℕ → Handler Provider (List ValidatorUpdate)
unfolding create_each set_val_set diff_validators
provider_validator_updates k by_power max_vals = do
  bonded ← attempt by_power
  current ← gets (λ s. get_val_set s.last_provider_val_set)
  next ← attempt (create_each k (take max_vals bonded))
  modify (λ s. record s { last_provider_val_set = set_val_set next s.last_provider_val_set })
  pure (diff_validators current next)

-- `BlocksUntilNextEpoch`; the validation of the parameter keeps it positive.
unfoldable pub blocks_until_next_epoch : ℕ → ℕ → ℕ
blocks_until_next_epoch blocks_per_epoch height =
    let since = height % blocks_per_epoch in if since == 0 then 0 else blocks_per_epoch - since

-- The parameters of the module that the end of a block reads.
pub record Params : Type 0 where
  pub blocks_per_epoch : ℕ
  pub ccv_timeout_period : ℕ

unfoldable pub end_block_vsu :
    Library
    → Staking
    → Ibc
    → Block
    → Bonded
    → Params
    → Outcome (List StakingValidator)
    → Handler Provider (List ValidatorUpdate)
unfolding provider_validator_updates blocks_until_next_epoch queue_vsc_packets send_vsc_packets
end_block_vsu l k i b v params by_power = do
  updates ← provider_validator_updates k by_power v.max_provider_consensus_validators
  if blocks_until_next_epoch params.blocks_per_epoch b.height == 0
      then (do queue_vsc_packets l k b v; send_vsc_packets k i b params.ccv_timeout_period)
      else pure tt
  pure updates

unfoldable pub prune_each : Block → List ℕ → Provider → Provider
unfolding prune_key_assignments
prune_each b [] s = s
prune_each b (id ∷ ids) s = prune_each b ids (
    update_consumer id
      (λ c. record c { chain = record (c.chain) { keys = prune_key_assignments b c.chain.keys } })
      s)

-- `EndBlockCIS`
unfoldable pub end_block_cis : Block → Provider → Provider
unfolding prune_each
end_block_cis b s =
    let s' = set_valset_update_block_height (get_validator_set_update_id s) (b.height + 1) s in
    prune_each b (get_all_consumers_with_ibc_clients s') s'

-- `BeginBlockCIS`
unfoldable pub begin_block_cis : Allowance → Block → Handler Provider (Unit {0})
unfolding check_for_slash_meter_replenishment
begin_block_cis a b = on_throttle (check_for_slash_meter_replenishment a b)
