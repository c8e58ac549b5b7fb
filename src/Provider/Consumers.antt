-- ===== src/Provider/Consumers.antt =====
-- The state of the provider module: what it keeps of every consumer chain, by the setters and getters of
-- x/ccv/provider/keeper/keeper.go and permissionless.go, and what it keeps once.
use interchain_security.Common.{
  ℕ, Bool, List, [], ◌∷◌, ◌++◌, Option, none, some, ◌==◌, if◌then◌else◌,
}
use interchain_security.Common.Outcome.{Outcome, Handler}
use interchain_security.Common.Words.{add64}
use interchain_security.Store
use interchain_security.Store.{Map}
use interchain_security.Updates.{ValidatorUpdate}
use interchain_security.Provider.Phase.{Phase}
use interchain_security.Provider.Chain.{Chain}
use interchain_security.Provider.ValidatorSet.{ConsensusValidator}
use interchain_security.Provider.TimeQueue.{Queue, append_id}
use interchain_security.Provider.SlashMeter.{Throttle}
use interchain_security.Provider.Infraction.{Infractions}

-- ccv.ValidatorSetChangePacketData
pub record VscPacket : Type 0 where
  pub validator_updates : List ValidatorUpdate
  pub valset_update_id : ℕ
  pub slash_acks : List ℕ

-- The fields of types.ConsumerInitializationParameters that the provider decides by. A spawn time of 0
-- is Go's zero time, and a connection id of `none` the empty string.
pub record Initialization : Type 0 where
  pub spawn_time : ℕ
  pub initial_revision_number : ℕ
  pub initial_revision_height : ℕ
  pub unbonding_period : ℕ
  pub connection_id : Option ℕ

-- What of ccv.ConsumerGenesisState differs from chain to chain: the rest is parameters and client states.
pub record Genesis : Type 0 where
  pub initial_val_set : List ValidatorUpdate
  pub pre_ccv : Bool
  pub counterparty_connection_id : Option ℕ

-- What is stored under keys that hold the consumer id.
pub record Consumer : Type 0 where
  pub chain : Chain
  pub chain_id : Option ℕ
  pub initialization : Option Initialization
  pub genesis : Option Genesis
  pub channel : Option ℕ
  pub init_chain_height : Option ℕ
  pub evidence_min_height : Option ℕ
  pub slash_acks : List ℕ
  pub pending_vsc_packets : List VscPacket
  pub commission_rates : Map ℕ
  pub removal_time : Option ℕ

-- A packet that the channel keeper accepted, with its timeout.
pub record SentPacket : Type 0 where
  pub channel : ℕ
  pub packet : VscPacket
  pub timeout : ℕ

-- A call of the staking and slashing modules that punishes a validator.
pub data Punishment : Type 0 where
  slash : (addr infraction_height power fraction : ℕ) → Punishment
  jail : ℕ → Punishment
  jail_until : (addr time : ℕ) → Punishment
  tombstone : ℕ → Punishment

-- The maps by consumer id are kept for all ids at once, but for the client ids, which are iterated over.
-- `sent` and `punished` list the calls of other modules in their order.
pub record Provider : Type 0 where
  pub consumers : ℕ → Consumer
  pub clients : Map ℕ
  pub client_consumers : Map ℕ
  pub channel_consumers : Map ℕ
  pub to_launch : Queue
  pub to_remove : Queue
  pub valset_update_id : Option ℕ
  pub valset_update_heights : Map ℕ
  pub last_provider_val_set : Map ConsensusValidator
  pub slash_log : Map (Unit {0})
  pub throttle : Throttle
  pub infractions : Infractions
  pub sent : List SentPacket
  pub punished : List Punishment

abbrev pub update_at : ℕ → (Consumer → Consumer) → (ℕ → Consumer) → ℕ → Consumer
update_at id f consumers j = if j == id then f (consumers id) else consumers j

abbrev pub update_consumer : ℕ → (Consumer → Consumer) → Provider → Provider
update_consumer id f s = record s { consumers = update_at id f s.consumers }

-- A handler of one chain's state within the provider's.
unfoldable pub on_chain : {A : Type 0} → ℕ → Handler Chain A → Handler Provider A
on_chain id h s =
    let (r, c) = h (s.consumers id).chain in (r, update_consumer id (λ x. record x { chain = c }) s)

abbrev pub on_throttle : {A : Type 0} → Handler Throttle A → Handler Provider A
on_throttle h s = let (r, t) = h s.throttle in (r, record s { throttle = t })

abbrev pub get_consumer_phase : ℕ → Provider → Phase
get_consumer_phase id s = (s.consumers id).chain.phase

abbrev pub with_phase : Phase → Consumer → Consumer
with_phase p c = record c { chain = record (c.chain) { phase = p } }

abbrev pub set_consumer_phase : ℕ → Phase → Provider → Provider
set_consumer_phase id p = update_consumer id (with_phase p)

abbrev pub get_all_consumers_with_ibc_clients : Provider → List ℕ
get_all_consumers_with_ibc_clients s = Store.keys s.clients

abbrev pub get_consumer_id_to_channel_id : ℕ → Provider → Option ℕ
get_consumer_id_to_channel_id id s = (s.consumers id).channel

abbrev pub get_channel_id_to_consumer_id : ℕ → Provider → Option ℕ
get_channel_id_to_consumer_id channel s = Store.get channel s.channel_consumers

-- The value that is stored, 0 if there is none.
abbrev pub or_zero : Option ℕ → ℕ
or_zero none = 0
or_zero (some n) = n

abbrev pub get_validator_set_update_id : Provider → ℕ
get_validator_set_update_id s = or_zero s.valset_update_id

abbrev pub increment_validator_set_update_id : Provider → Provider
increment_validator_set_update_id s = record s {
  valset_update_id = some (add64 (get_validator_set_update_id s) 1);
}

abbrev pub set_valset_update_block_height : ℕ → ℕ → Provider → Provider
set_valset_update_block_height id height s = record s {
  valset_update_heights = Store.set id height s.valset_update_heights;
}

abbrev pub append_ack : ℕ → Consumer → Consumer
append_ack ack c = record c { slash_acks = c.slash_acks ++ ack ∷ [] }

abbrev pub append_slash_ack : ℕ → ℕ → Provider → Provider
append_slash_ack id ack = update_consumer id (append_ack ack)

abbrev pub clear_acks : Consumer → Consumer
clear_acks c = record c { slash_acks = [] }

-- `ConsumeSlashAcks`: a missing entry and an empty list are the same to every reader.
abbrev pub consume_slash_acks : ℕ → Provider → Outcome (List ℕ) × Provider
consume_slash_acks id s = (Outcome.ok (s.consumers id).slash_acks, update_consumer id clear_acks s)

abbrev pub append_packet : VscPacket → Consumer → Consumer
append_packet p c = record c { pending_vsc_packets = c.pending_vsc_packets ++ p ∷ [] }

abbrev pub append_pending_vsc_packets : ℕ → VscPacket → Provider → Provider
append_pending_vsc_packets id p = update_consumer id (append_packet p)

abbrev pub clear_packets : Consumer → Consumer
clear_packets c = record c { pending_vsc_packets = [] }

abbrev pub delete_pending_vsc_packets : ℕ → Provider → Provider
delete_pending_vsc_packets id = update_consumer id clear_packets

-- The reverse index of a client id that is given up.
abbrev pub drop_client : Option ℕ → Map ℕ → Map ℕ
drop_client none m = m
drop_client (some client) m = Store.delete client m

abbrev pub set_consumer_client_id : ℕ → ℕ → Provider → Provider
set_consumer_client_id id client s = record s {
  client_consumers = Store.set client id (drop_client (Store.get id s.clients) s.client_consumers);
  clients = Store.set id client s.clients;
}

abbrev pub delete_consumer_client_id : ℕ → Provider → Provider
delete_consumer_client_id id s = record s {
  client_consumers = drop_client (Store.get id s.clients) s.client_consumers;
  clients = Store.delete id s.clients;
}

abbrev pub set_slash_log : ℕ → Provider → Provider
set_slash_log addr s = record s { slash_log = Store.set addr tt s.slash_log }

abbrev pub append_consumer_to_be_launched : ℕ → ℕ → Provider → Provider
append_consumer_to_be_launched id ts s = record s { to_launch = append_id id ts s.to_launch }

abbrev pub append_consumer_to_be_removed : ℕ → ℕ → Provider → Provider
append_consumer_to_be_removed id ts s = record s { to_remove = append_id id ts s.to_remove }

abbrev pub set_consumer_removal_time : ℕ → ℕ → Provider → Provider
set_consumer_removal_time id ts = update_consumer id (λ c. record c { removal_time = some ts })
