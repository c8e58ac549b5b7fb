-- ===== src/Examples/Chains.antt =====
-- A provider with one launched consumer chain, with id 0 on channel 4, and the calls of its blocks.
use interchain_security.Common.{ℕ, true, false, [], ◌∷◌, none, some, arith, ◌==◌, if◌then◌else◌}
use interchain_security.Common.Int.{pos}
use interchain_security.Common.Outcome.{ok}
use interchain_security.Provider.Phase.{Phase}
use interchain_security.Provider.Chain.{Chain}
use interchain_security.Provider.KeyAssignment.{no_keys}
use interchain_security.Provider.NextValidators.{consumer_public_key}
use interchain_security.Provider.NextValidators.Distinct.{Distinguished}
use interchain_security.Provider.Ibc.{Ibc, accepted}
use interchain_security.Provider.Lifecycle.Launch.{Bonded}
use interchain_security.Provider.Consumers.{Initialization, Consumer, Provider}
use interchain_security.Examples.Powers.{bonded}
use interchain_security.Examples.Selection.{new_chain}

abbrev pub start_at : ℕ → Initialization
start_at time = record {
  spawn_time = time;
  initial_revision_number = 1;
  initial_revision_height = 1;
  unbonding_period = 50;
  connection_id = none;
}

abbrev pub with_chain : Chain → Consumer
with_chain c = record {
  chain = c;
  chain_id = some 9;
  initialization = some (start_at 100);
  genesis = none;
  channel = none;
  init_chain_height = none;
  evidence_min_height = none;
  slash_acks = [];
  pending_vsc_packets = [];
  commission_rates = [];
  removal_time = none;
}

abbrev pub unknown : Consumer
unknown = with_chain (record new_chain { phase = Phase.unspecified; opted_in = [] })

-- The provider with an entry for the id 0.
abbrev pub provider : Consumer → Provider
provider c = record {
  consumers = λ id. if id == 0 then c else unknown;
  clients = (0, 2) ∷ [];
  client_consumers = (2, 0) ∷ [];
  channel_consumers = (4, 0) ∷ [];
  to_launch = [];
  to_remove = [];
  valset_update_id = some 3;
  valset_update_heights = [];
  last_provider_val_set = [];
  slash_log = [];
  throttle = record { slash_meter = some (pos 3); replenish_time_candidate = some 160 };
  infractions = record { parameters = []; queued = []; schedule = [] };
  sent = [];
  punished = [];
}

abbrev pub ibc : Ibc
ibc = record {
  has_channel = λ c. true;
  connection_hops = λ c. some (6 ∷ []);
  is_channel_closed = λ c. false;
  send_packet = λ c p. accepted;
  chan_close_init = λ c. ok tt;
  get_connection = λ c. some (record { client_id = 2; counterparty_connection_id = 1 });
  get_client_state =
      λ c. some (record { is_tendermint = true; chain_id = 9; latest_revision_height = 5 });
  parse_chain_id = λ c. 1;
  create_client = λ id. ok 2;
  calculate_trust_period = λ p. ok p;
  self_consensus_state = ok tt;
  valset_hash = ok 1;
}

abbrev pub all_bonded : Bonded
all_bonded = record {
  validators = ok bonded;
  active = ok bonded;
  max_provider_consensus_validators = 100;
}

-- The three bonded validators have an address and a key each.
pub bonded-Distinguished : (c : Chain) → Distinguished (record c { keys = no_keys }) bonded
unfolding consumer_public_key
bonded-Distinguished c = ((λ a. ground arith), λ key. ground arith)
