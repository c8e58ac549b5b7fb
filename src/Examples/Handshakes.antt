-- ===== src/Examples/Handshakes.antt =====
-- The channel 4 is opened for the launched chain 0, on the connection 6 with the client 2.
use interchain_security.Common.{ℕ, ◌≡◌, refl, [], ◌∷◌, none, some, arith}
use interchain_security.Common.Outcome.{ok, err, duplicate_channel, too_many_hops}
use interchain_security.Provider.Consumers.{
  Provider, get_consumer_id_to_channel_id, get_channel_id_to_consumer_id,
}
use interchain_security.Provider.Relay.Sending.{OneChannel}
use interchain_security.Provider.Handshake.{verify_consumer_chain, set_consumer_chain}
use interchain_security.Provider.Handshake.Paired.{IsPaired, IsFor, set_consumer_chain-IsPaired}
use interchain_security.Examples.Selection.{block, top_chain}
use interchain_security.Examples.Chains.{with_chain, provider, ibc}

abbrev unconnected : Provider
unconnected = record (provider (with_chain top_chain)) { channel_consumers = [] }

verified : verify_consumer_chain ibc (6 ∷ []) unconnected ≡ (ok tt, unconnected)
unfolding verify_consumer_chain
verified = refl

two_hops_rejected :
    verify_consumer_chain ibc (6 ∷ 7 ∷ []) unconnected ≡ (err too_many_hops, unconnected)
unfolding verify_consumer_chain
two_hops_rejected = refl

abbrev connected : Provider
connected = (set_consumer_chain ibc block 4 unconnected).1

connects : set_consumer_chain ibc block 4 unconnected ≡ (ok tt, connected)
unfolding set_consumer_chain
connects = refl

second_channel_rejected : (set_consumer_chain ibc block 5 connected).0 ≡ err duplicate_channel
unfolding set_consumer_chain
second_channel_rejected = refl

unconnected-IsPaired : IsPaired unconnected
unconnected-IsPaired j channel e = ground (arith, e)

set_consumer_chain-IsPaired_example :
    (IsPaired connected × OneChannel connected)
    × ((id : ℕ) × (IsFor ibc 4 id unconnected
          × ((get_consumer_id_to_channel_id id unconnected ≡ none)
              × ((get_consumer_id_to_channel_id id connected ≡ some 4)
                  × ((get_channel_id_to_consumer_id 4 connected ≡ some id)
                      × ((connected.consumers id).init_chain_height ≡ some block.height))))))
set_consumer_chain-IsPaired_example =
    set_consumer_chain-IsPaired ibc block 4 unconnected connected refl unconnected-IsPaired connects
