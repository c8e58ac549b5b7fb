-- ===== src/Provider/Lifecycle/Launch.antt =====
-- Registration, initialization and launch of a consumer chain, in consumer_lifecycle.go.
pub mod Started
pub mod Others
pub mod Each
use interchain_security.Common.{
  ℕ, Bool, true, false, not, List, [], ◌∷◌, Option, none, some, ◌==◌, ◌!=◌, ◌||◌, if◌then◌else◌,
}
use interchain_security.Common.Outcome.{
  Outcome, ok, err, Handler, ◌>>=◌, ◌>>◌, pure, gets, modify, attempt, or_fail, reject_if, then_ok,
  external, invalid_phase, invalid_consumer_state, no_validators, no_active_validator,
}
use interchain_security.Store
use interchain_security.Store.{Map}
use interchain_security.Updates.{ValidatorUpdate}
use interchain_security.Provider.Phase.{Phase, is_consumer_prelaunched}
use interchain_security.Provider.Staking.{Staking, StakingValidator, Block}
use interchain_security.Provider.Chain.{Chain}
use interchain_security.Provider.ValidatorSet.{ConsensusValidator, get_val_set}
use interchain_security.Provider.NextValidators.{Library, compute_consumer_next_val_set}
use interchain_security.Provider.TimeQueue.{remove_id, consume_ids_from_time_queue}
use interchain_security.Provider.Ibc.{Ibc}
use interchain_security.Provider.Consumers.{
  Initialization, Genesis, Provider, update_consumer, on_chain, get_consumer_phase,
  set_consumer_phase, set_consumer_client_id, append_consumer_to_be_launched,
}
use interchain_security.Provider.Cached.{cached}

-- What the staking module answers about the bonded validators, `GetBondedValidatorsByPower` cut to
-- `MaxValidators` and to the parameter MaxProviderConsensusValidators.
pub record Bonded : Type 0 where
  pub validators : Outcome (List StakingValidator)
  pub active : Outcome (List StakingValidator)
  pub max_provider_consensus_validators : ℕ

-- `PrepareConsumerForLaunch`; a spawn time of 0 is the zero time.
unfoldable pub prepare_consumer_for_launch : ℕ → ℕ → ℕ → Handler Provider (Unit {0})
unfolding remove_id
prepare_consumer_for_launch id previous_spawn_time spawn_time = do
  if previous_spawn_time == 0 then pure tt else (λ s.
      let (r, q) = remove_id id previous_spawn_time s.to_launch in (r, record s { to_launch = q }))
  modify (append_consumer_to_be_launched id spawn_time)

-- `InitializeConsumer`: the spawn time if the chain moved to the initialized phase.
unfoldable pub initialize_consumer : ℕ → Provider → Option ℕ × Provider
initialize_consumer id s =
    if is_consumer_prelaunched (get_consumer_phase id s)
    then elim (s.consumers id).initialization [
      | none ↦ (none, s)
      | some p ↦
          if p.spawn_time == 0
          then (none, s)
          else (some p.spawn_time, set_consumer_phase id Phase.initialized s)
    ]
    else (none, s)

-- The addresses of `isActiveValidator`, and the test of the stored set against them.
unfoldable pub active_addrs : List StakingValidator → Outcome (List ℕ)
active_addrs [] = ok []
active_addrs (v ∷ vs) = elim v.cons_addr [
  | none ↦ err external
  | some addr ↦ then_ok (active_addrs vs) λ addrs. ok (addr ∷ addrs)
]

unfoldable pub any_active : List ℕ → List ConsensusValidator → Bool
any_active addrs [] = false
any_active addrs (v ∷ vs) = Store.elem v.provider_cons_addr addrs || any_active addrs vs

unfoldable pub has_active_consumer_validator : List StakingValidator → Chain → Outcome Bool
unfolding active_addrs any_active
has_active_consumer_validator active c =
    then_ok (active_addrs active) λ addrs. ok (any_active addrs (get_val_set c.val_set))

abbrev pub is_empty : List ValidatorUpdate → Bool
is_empty [] = true
is_empty (u ∷ us) = false

abbrev set_evidence_min_height : ℕ → ℕ → Provider → Provider
set_evidence_min_height id height =
    update_consumer id (λ c. record c { evidence_min_height = some height })

abbrev pub set_genesis : ℕ → Genesis → Provider → Provider
set_genesis id g = update_consumer id (λ c. record c { genesis = some g })

-- The branch of `MakeConsumerGenesis` with a new client.
unfoldable pub genesis_with_client : Staking → Ibc → List ValidatorUpdate → Handler Provider Genesis
genesis_with_client k i updates = do
  unbonding_period ← attempt k.unbonding_time
  trusting_period ← attempt (i.calculate_trust_period unbonding_period)
  attempt i.self_consensus_state
  pure (record { initial_val_set = updates; pre_ccv = false; counterparty_connection_id = none })

-- The branch with the client of a connection that is there.
unfoldable pub genesis_on_connection : Ibc → ℕ → ℕ → List ValidatorUpdate → Handler Provider Genesis
genesis_on_connection i id connection_id updates = do
  connection ← or_fail (i.get_connection connection_id) external
  client ← or_fail (i.get_client_state connection.client_id) external
  reject_if (not client.is_tendermint) external
  stored ← gets (λ s. (s.consumers id).chain_id)
  chain_id ← or_fail stored external
  reject_if (client.chain_id != chain_id) external
  modify (set_consumer_client_id id connection.client_id)
  modify (set_evidence_min_height id client.latest_revision_height)
  pure (record {
    initial_val_set = updates;
    pre_ccv = true;
    counterparty_connection_id = some connection.counterparty_connection_id;
  })

unfoldable pub make_consumer_genesis :
    Staking → Ibc → ℕ → List ValidatorUpdate → Handler Provider Genesis
unfolding genesis_with_client genesis_on_connection
make_consumer_genesis k i id updates = do
  stored ← gets (λ s. (s.consumers id).initialization)
  p ← or_fail stored invalid_consumer_state
  elim p.connection_id [
    | none ↦ genesis_with_client k i updates
    | some connection_id ↦ genesis_on_connection i id connection_id updates
  ]

abbrev is_initialized : Phase → Bool
is_initialized Phase.initialized = true
is_initialized _ = false

-- `CreateConsumerClient` where no connection was given.
unfoldable pub create_new_client : Ibc → ℕ → Initialization → Handler Provider (Unit {0})
create_new_client i id p = do
  phase ← gets (get_consumer_phase id)
  reject_if (not (is_initialized phase)) invalid_phase
  stored ← gets (λ s. (s.consumers id).chain_id)
  chain_id ← or_fail stored external
  modify (set_evidence_min_height id p.initial_revision_height)
  trusting_period ← attempt (i.calculate_trust_period p.unbonding_period)
  client ← attempt (i.create_client id)
  modify (set_consumer_client_id id client)

unfoldable pub create_consumer_client : Ibc → ℕ → Handler Provider (Unit {0})
unfolding create_new_client
create_consumer_client i id = do
  stored ← gets (λ s. (s.consumers id).initialization)
  p ← or_fail stored external
  elim p.connection_id [ some c ↦ pure tt | none ↦ create_new_client i id p ]

unfoldable pub launch_consumer :
    Library
    → Staking
    → Ibc
    → Block
    → ℕ
    → List StakingValidator
    → List StakingValidator
    → ℕ
    → Handler Provider (Unit {0})
unfolding on_chain compute_consumer_next_val_set has_active_consumer_validator make_consumer_genesis
    create_consumer_client
launch_consumer l k i b max_vals bonded active id = do
  updates ← on_chain id (compute_consumer_next_val_set l k b max_vals bonded active [])
  reject_if (is_empty updates) no_validators
  checked ← gets (λ s. has_active_consumer_validator active (s.consumers id).chain)
  has_active ← attempt checked
  reject_if (not has_active) no_active_validator
  genesis ← make_consumer_genesis k i id updates
  modify (set_genesis id genesis)
  valset_hash ← attempt i.valset_hash
  create_consumer_client i id
  modify (set_consumer_phase id Phase.launched)

unfoldable pub set_consumer_initialization_parameters :
    Ibc → ℕ → Initialization → Handler Provider (Unit {0})
set_consumer_initialization_parameters i id p = do
  stored ← gets (λ s. (s.consumers id).chain_id)
  chain_id ← or_fail stored external
  reject_if (p.initial_revision_number != i.parse_chain_id chain_id) external
  modify (update_consumer id (λ c. record c { initialization = some p }))

-- What follows a failed launch: the owner may set a spawn time again.
unfoldable pub reset_launch : Ibc → ℕ → Handler Provider (Unit {0})
unfolding set_consumer_initialization_parameters
reset_launch i id = do
  stored ← gets (λ s. (s.consumers id).initialization)
  p ← or_fail stored invalid_consumer_state
  set_consumer_initialization_parameters i id (record p { spawn_time = 0 })
  modify (set_consumer_phase id Phase.registered)

unfoldable pub launch_each :
    Library
    → Staking
    → Ibc
    → Block
    → ℕ
    → List StakingValidator
    → List StakingValidator
    → List ℕ
    → Handler Provider (Unit {0})
unfolding launch_consumer reset_launch
launch_each l k i b max_vals bonded active [] = pure tt
launch_each l k i b max_vals bonded active (id ∷ ids) =
    cached (launch_consumer l k i b max_vals bonded active id) (λ e. reset_launch i id)
    >> launch_each l k i b max_vals bonded active ids

abbrev no_ids : List ℕ → Bool
no_ids [] = true
no_ids (id ∷ ids) = false

unfoldable pub begin_block_launch_consumers :
    Library → Staking → Ibc → Block → Bonded → Handler Provider (Unit {0})
unfolding launch_each consume_ids_from_time_queue
begin_block_launch_consumers l k i b v s =
    let (ids, q) = consume_ids_from_time_queue 200 b.time s.to_launch in
    let s' = record s { to_launch = q } in
    if no_ids ids
    then (ok tt, s')
    else (do
      bonded ← attempt v.validators
      active ← attempt v.active
      launch_each l k i b v.max_provider_consensus_validators bonded active ids)
        s'
