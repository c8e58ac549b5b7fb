-- ===== src/Provider/Handshake.antt =====
-- The channel handshake on the provider, in x/ccv/provider/keeper/keeper.go: which consumer chain a channel
-- is for.
pub mod Paired
use interchain_security.Common.{
  ℕ, Bool, true, false, not, List, [], ◌∷◌, Option, none, some, ◌!=◌, if◌then◌else◌, is_some,
}
use interchain_security.Common.Outcome.{
  Outcome, ok, err, Handler, ◌>>=◌, ◌>>◌, pure, gets, modify, attempt, or_fail, reject_if, then_ok,
  channel_not_found, too_many_hops, connection_not_found, client_not_found, invalid_client_type,
  no_consumer_id, invalid_consumer_client, duplicate_channel, unknown_consumer_id,
}
use interchain_security.Store
use interchain_security.Provider.Staking.{Block}
use interchain_security.Provider.Ibc.{Ibc, ClientState}
use interchain_security.Provider.Consumers.{
  Consumer, Provider, update_consumer, get_consumer_id_to_channel_id,
}

abbrev pub get_client_id_to_consumer_id : ℕ → Provider → Option ℕ
get_client_id_to_consumer_id client s = Store.get client s.client_consumers

abbrev pub get_consumer_client_id : ℕ → Provider → Option ℕ
get_consumer_client_id id s = Store.get id s.clients

abbrev pub with_channel : ℕ → Consumer → Consumer
with_channel channel c = record c { channel = some channel }

abbrev pub set_consumer_id_to_channel_id : ℕ → ℕ → Provider → Provider
set_consumer_id_to_channel_id id channel = update_consumer id (with_channel channel)

abbrev pub set_channel_to_consumer_id : ℕ → ℕ → Provider → Provider
set_channel_to_consumer_id channel id s = record s {
  channel_consumers = Store.set channel id s.channel_consumers;
}

abbrev pub with_init_height : ℕ → Consumer → Consumer
with_init_height height c = record c { init_chain_height = some height }

abbrev pub set_init_chain_height : ℕ → ℕ → Provider → Provider
set_init_chain_height id height = update_consumer id (with_init_height height)

-- `getUnderlyingClient`
unfoldable pub get_underlying_client : Ibc → ℕ → Outcome (ℕ × ClientState)
get_underlying_client i connection_id = elim (i.get_connection connection_id) [
  | none ↦ err connection_not_found
  | some connection ↦ elim (i.get_client_state connection.client_id) [
    | none ↦ err client_not_found
    | some client ↦
        if client.is_tendermint then ok (connection.client_id, client) else err invalid_client_type
  ]
]

-- The only hop.
abbrev pub only_hop : List ℕ → Outcome ℕ
only_hop [] = err too_many_hops
only_hop (h ∷ []) = ok h
only_hop (h ∷ k ∷ hops) = err too_many_hops

unfoldable pub verify_consumer_chain : Ibc → List ℕ → Handler Provider (Unit {0})
unfolding get_underlying_client
verify_consumer_chain i hops = do
  connection_id ← attempt (only_hop hops)
  client ← attempt (get_underlying_client i connection_id)
  found ← gets (get_client_id_to_consumer_id client.0)
  id ← or_fail found unknown_consumer_id
  stored ← gets (get_consumer_client_id id)
  ccv_client ← or_fail stored client_not_found
  reject_if (ccv_client != client.0) invalid_consumer_client
  previous ← gets (get_consumer_id_to_channel_id id)
  reject_if (is_some previous) duplicate_channel

unfoldable pub set_consumer_chain : Ibc → Block → ℕ → Handler Provider (Unit {0})
unfolding get_underlying_client
set_consumer_chain i b channel = do
  hops ← or_fail (i.connection_hops channel) channel_not_found
  connection_id ← attempt (only_hop hops)
  client ← attempt (get_underlying_client i connection_id)
  found ← gets (get_client_id_to_consumer_id client.0)
  id ← or_fail found no_consumer_id
  previous ← gets (get_consumer_id_to_channel_id id)
  reject_if (is_some previous) duplicate_channel
  modify (set_consumer_id_to_channel_id id channel)
  modify (set_channel_to_consumer_id channel id)
  modify (set_init_chain_height id b.height)
