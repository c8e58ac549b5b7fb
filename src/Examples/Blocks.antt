-- ===== src/Examples/Blocks.antt =====
-- The packet of the first epoch on its way to the consumer chain, and the block that receives it.
use interchain_security.Common.{
  ℕ, ◌≡◌, refl, false, true, List, [], ◌∷◌, none, some, inl, map, arith, ◌==◌, if◌then◌else◌,
}
use interchain_security.Common.Outcome.{ok, err, panic, external}
use interchain_security.Store
use interchain_security.Sorting.Insertion.{insertion}
use interchain_security.Updates.{ValidatorUpdate, apply_updates}
use interchain_security.Provider.ValidatorSet.{get_val_set}
use interchain_security.Provider.ValidatorSet.Diff.{powers}
use interchain_security.Provider.NextValidators.Stored.{compute_consumer_next_val_set-powers}
use interchain_security.Provider.Consumers
use interchain_security.Provider.Consumers.{VscPacket}
use interchain_security.Provider.Relay.Told.{told, InSync}
use interchain_security.Consumer.Packets.{Context}
use interchain_security.Consumer.Changes.{accumulate_changes, apply_cc_validator_changes}
use interchain_security.Consumer.Blocks.{Module, on_recv_vsc_packet, end_block}
use interchain_security.Consumer.Blocks.Received.{receive_all, voting_in}
use interchain_security.Consumer.Blocks.Changeover.{end_block-changeover}
use interchain_security.Consumer.Blocks.InStep.{as_received, consumer_in_step}
use interchain_security.Examples.Powers.{staking, bonded}
use interchain_security.Examples.Selection.{library, block, top_chain, after_epoch, sent, epoch}
use interchain_security.Examples.Chains.{with_chain, bonded-Distinguished}
use interchain_security.Examples.Changes.{by, itself, update, itself-NoCollision, itself-Decodes}

-- The provider's entry of the chain once the packet with the id 3 is queued.
abbrev queued : Consumers.Consumer
queued = record (with_chain after_epoch) {
  channel = some 4;
  pending_vsc_packets =
      record { validator_updates = sent; valset_update_id = 3; slash_acks = 60 ∷ [] } ∷ [];
}

queued-InSync : InSync [] queued
queued-InSync key =
    compute_consumer_next_val_set-powers library staking block 100 bonded bonded [] top_chain
      after_epoch sent (bonded-Distinguished top_chain) epoch key

abbrev context : Context
context = record {
  time = 50;
  retry_delay_period = 10;
  send_ibc_packet = λ channel p. true;
  chan_close_init = λ channel. ok tt;
}

-- A consumer chain without validators, which still waits for the acknowledgement of a slash of 60.
abbrev fresh : Module
fresh = record {
  cross_chain_validators = [];
  packets = record {
    provider_channel = none;
    slash_record = none;
    pending_packets = [];
    pending_packets_index = none;
    outstanding_downtime = (60, tt) ∷ [];
  };
  pending_changes = none;
  height_valset_update_ids = [];
  initial_val_set = [];
  pre_ccv = false;
  sent = [];
}

abbrev with_packet : Module
with_packet = (receive_all by itself 20 8 (map as_received queued.pending_vsc_packets) fresh).1

received_packet :
    (with_packet.packets.outstanding_downtime ≡ [])
    × ((with_packet.packets.provider_channel ≡ some 8)
        × (with_packet.height_valset_update_ids ≡ (21, 3) ∷ []))
unfolding receive_all on_recv_vsc_packet accumulate_changes Store.set Store.delete insertion
received_packet = (refl, (refl, refl))

-- A packet on another channel panics.
other_channel_panics :
    (on_recv_vsc_packet by itself 21 9
      (record { validator_updates = some sent; valset_update_id = 4; slash_acks = [] })
      with_packet).0
    ≡ panic
unfolding receive_all on_recv_vsc_packet accumulate_changes Store.set Store.delete insertion
other_channel_panics = refl

consumer_in_step_example :
    (m1 : Module) × ((receive_all by itself 20 8 (map as_received queued.pending_vsc_packets) fresh
        ≡ (ok tt, m1))
      × ((ret : List ValidatorUpdate) × ((m' : Module) × ((end_block itself context
                  (err external)
                  m1
                ≡ (ok ret, m'))
              × ((key : ℕ)
                  → (voting_in itself m' key ≡ powers (get_val_set queued.chain.val_set) key)
                    × (apply_updates ret (told [] queued) key
                        ≡ powers (get_val_set queued.chain.val_set) key))))))
consumer_in_step_example =
    consumer_in_step itself itself-NoCollision (λ key. (key, refl)) by itself 20 8 context
      (err external) [] queued fresh queued-InSync (refl, tt) (λ key. refl) (inl refl) refl refl
      (λ addr v e. cc)

-- A standalone chain of the validators 60 and 7, whose initial set is that of the packet.
abbrev standalone_chain : Module
standalone_chain = record fresh { initial_val_set = sent; pre_ccv = true }

abbrev standalone_power : ℕ → ℕ
standalone_power key = if key == 60 then 4 else if key == 7 then 4 else 0

changed_over :
    (end_block itself context (ok (60 ∷ 7 ∷ [])) standalone_chain).0
    ≡ ok (update 35 35 ∷ update 60 60 ∷ update 7 0 ∷ [])
unfolding end_block apply_cc_validator_changes Store.set Store.delete
changed_over = refl

end_block-changeover_example :
    (ret : List ValidatorUpdate) × ((m' : Module) × ((end_block itself context
            (ok (60 ∷ 7 ∷ []))
            standalone_chain
          ≡ (ok ret, m'))
        × ((m'.pre_ccv ≡ false)
            × ((key : ℕ)
                → (apply_updates ret standalone_power key ≡ apply_updates sent (λ k. 0) key)
                  × (voting_in itself m' key
                      ≡ apply_updates sent (voting_in itself standalone_chain) key)))))
end_block-changeover_example =
    end_block-changeover itself itself-NoCollision context (60 ∷ 7 ∷ []) standalone_chain
      standalone_power refl (λ addr v e. cc) (itself-Decodes sent) (λ key e. ground (arith, e))
