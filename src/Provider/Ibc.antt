-- ===== src/Provider/Ibc.antt =====
-- What the provider asks of IBC (channel, client and connection keepers of ibc-go), as one block sees it.
use interchain_security.Common.{ℕ, Bool, List, Option, if◌then◌else◌}
use interchain_security.Common.Outcome.{Outcome}
use interchain_security.Provider.Consumers.{VscPacket}

-- How `SendPacket` leaves: `client_not_active` is clienttypes.ErrClientNotActive, `failed` any other error.
pub data SendResult : Type 0 where
  accepted client_not_active failed : SendResult

-- The fields of a client state that are read; `is_tendermint` says whether it is one of 07-tendermint.
pub record ClientState : Type 0 where
  pub is_tendermint : Bool
  pub chain_id : ℕ
  pub latest_revision_height : ℕ

pub record ConnectionEnd : Type 0 where
  pub client_id : ℕ
  pub counterparty_connection_id : ℕ

pub record Ibc : Type 0 where
  pub has_channel : ℕ → Bool
  -- `ConnectionHops` of `GetChannel`.
  pub connection_hops : ℕ → Option (List ℕ)
  pub is_channel_closed : ℕ → Bool
  pub send_packet : ℕ → VscPacket → SendResult
  pub chan_close_init : ℕ → Outcome (Unit {0})
  pub get_connection : ℕ → Option ConnectionEnd
  pub get_client_state : ℕ → Option ClientState
  -- `clienttypes.ParseChainID`: the revision number.
  pub parse_chain_id : ℕ → ℕ
  -- `CreateClient` for the chain with the consumer id.
  pub create_client : ℕ → Outcome ℕ
  -- `CalculateTrustPeriod` of an unbonding period, and `getSelfConsensusState`.
  pub calculate_trust_period : ℕ → Outcome ℕ
  pub self_consensus_state : Outcome (Unit {0})
  -- `PB2TM.ValidatorUpdates` and the hash of the validator set.
  pub valset_hash : Outcome ℕ

-- `ccv.SendIBCPacket`: a channel that is not there is an error of its own.
unfoldable pub send_ibc_packet : Ibc → ℕ → VscPacket → SendResult
send_ibc_packet i channel p = if i.has_channel channel then i.send_packet channel p else failed
