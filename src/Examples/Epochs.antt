-- ===== src/Examples/Epochs.antt =====
-- The end of an epoch on the provider: the Top 61 chain is told about the validators 35 and 60.
use interchain_security.Common.{ℕ, ◌≡◌, refl, ap, [], ◌∷◌, some, arith, ◌==◌, inl, inr, Bool-cases}
use interchain_security.Common.Outcome.{ok}
use interchain_security.Store
use interchain_security.Sorting.Insertion.{insertion}
use interchain_security.Provider.NextValidators.{compute_consumer_next_val_set}
use interchain_security.Provider.ValidatorSet.{diff_validators, set_val_set}
use interchain_security.Provider.Consumers.{Consumer, Provider}
use interchain_security.Provider.Ibc.{send_ibc_packet}
use interchain_security.Provider.Relay.{Params, end_block_vsu}
use interchain_security.Provider.Relay.Sending.{Steady}
use interchain_security.Provider.Relay.Queued.{IsReady}
use interchain_security.Provider.Relay.Delivered.{IsSound}
use interchain_security.Provider.Relay.Epoch.{end_block_vsu-IsSound}
use interchain_security.Examples.Powers.{staking, bonded}
use interchain_security.Examples.Selection.{library, block, top_chain, sent}
use interchain_security.Examples.Chains.{
  with_chain, unknown, provider, ibc, all_bonded, bonded-Distinguished,
}

abbrev top_consumer : Consumer
top_consumer = record (with_chain top_chain) { channel = some 4 }

abbrev params : Params
params = record { blocks_per_epoch = 7; ccv_timeout_period = 30 }

-- The packets that were accepted after the epoch, and the parts of the state that it reads.
told_packets :
    (end_block_vsu library staking ibc block all_bonded params
      (ok [])
      (provider top_consumer)).1.sent
    ≡ record {
      channel = 4;
      packet = record { validator_updates = sent; valset_update_id = 3; slash_acks = [] };
      timeout = 130;
    }
      ∷ []
unfolding end_block_vsu compute_consumer_next_val_set Store.set Store.delete_keys insertion
    diff_validators set_val_set send_ibc_packet
told_packets = refl

ended :
    (end_block_vsu library staking ibc block all_bonded params (ok []) (provider top_consumer)).0
    ≡ ok []
unfolding end_block_vsu compute_consumer_next_val_set Store.set Store.delete_keys insertion
    diff_validators set_val_set send_ibc_packet
ended = refl

abbrev after_block : Provider
after_block =
    (end_block_vsu library staking ibc block all_bonded params (ok []) (provider top_consumer)).1

steady : Steady ibc
unfolding send_ibc_packet
steady channel p q e = e

ready : (j : ℕ) → IsReady bonded [] ((provider top_consumer).consumers j)
ready j = elim (Bool-cases (j == 0)) [
  | inl at ↦ rw (at) (bonded-Distinguished top_chain, λ l key. refl)
  | inr other ↦ rw (other) (bonded-Distinguished unknown.chain, λ l key. refl)
]

sound : IsSound bonded (provider top_consumer)
sound = (ready, λ j k channel e e'. ground (arith, e, e'))

end_block_vsu-IsSound_example : IsSound bonded after_block
end_block_vsu-IsSound_example =
    end_block_vsu-IsSound library staking ibc block all_bonded params (ok []) bonded
      (provider top_consumer) after_block [] refl steady sound (ap (λ o. (o, after_block)) ended)
