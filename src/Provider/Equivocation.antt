-- ===== src/Provider/Equivocation.antt =====
-- Double voting on a consumer chain, x/ccv/provider/keeper/consumer_equivocation.go: the check of the evidence and
-- the punishment of the validator.
pub mod Calls
pub mod Proven
use interchain_security.Common.{
  ℕ, ◌+◌, Bool, true, false, not, List, [], ◌∷◌, Option, none, some, ltb, ◌==◌, ◌!=◌, ◌||◌,
  if◌then◌else◌, is_some,
}
use interchain_security.Common.Outcome.{
  Outcome, ok, err, panic, Handler, ◌>>=◌, ◌>>◌, pure, fail, gets, modify, attempt, or_fail,
  reject_if, panics, external, invalid_evidence, invalid_signature, validator_unbonded,
  validator_tombstoned,
}
use interchain_security.Common.Words.{add64}
use interchain_security.Provider.Staking.{Staking, StakingValidator, Block}
use interchain_security.Provider.KeyAssignment.{get_provider_addr_from_consumer_addr}
use interchain_security.Provider.Infraction.{
  SlashJail, InfractionParameters, get_infraction_parameters,
}
use interchain_security.Provider.Consumers.{
  Punishment, slash, jail, jail_until, tombstone, Provider, or_zero,
}
use interchain_security.Provider.Handshake.{get_consumer_client_id}
use interchain_security.Provider.SlashPackets.{Slashing, log_punished}

-- tmtypes.Vote
pub record Vote : Type 0 where
  pub height : ℕ
  pub round : ℕ
  pub vote_type : ℕ
  pub validator_address : ℕ
  pub block_id : ℕ
  pub signature : ℕ

-- tmtypes.DuplicateVoteEvidence
pub record Evidence : Type 0 where
  pub vote_a : Vote
  pub vote_b : Vote

-- What the evidence is checked with: the address of a public key, and `VerifySignature` of a vote on a chain.
pub record Crypto : Type 0 where
  pub address : ℕ → ℕ
  pub verify_signature : (pubkey chain_id : ℕ) → Vote → Bool

-- What is asked of the staking and slashing modules beyond Slashing: the amounts that slashing all of each
-- undelegation and redelegation from a validator gives in a cached context, 0 for an error;
-- `TokensToConsensusPower`; and how `Tombstone` leaves.
pub record Unbonding : Type 0 where
  pub undelegations : ℕ → Outcome (List ℕ)
  pub redelegations : ℕ → Outcome (List ℕ)
  pub tokens_to_power : ℕ → Outcome ℕ
  pub tombstone_result : ℕ → Bool

unfoldable pub verify_double_voting_evidence :
    Crypto → Evidence → ℕ → Option ℕ → Handler Provider (Unit {0})
verify_double_voting_evidence c e chain_id pubkey = do
  key ← or_fail pubkey invalid_evidence
  reject_if (c.address key != e.vote_a.validator_address) invalid_evidence
  reject_if
      ((e.vote_a.height != e.vote_b.height)
        || (e.vote_a.round != e.vote_b.round)
        || (e.vote_a.vote_type != e.vote_b.vote_type))
      invalid_evidence
  reject_if (e.vote_a.validator_address != e.vote_b.validator_address) invalid_evidence
  reject_if (e.vote_a.block_id == e.vote_b.block_id) invalid_evidence
  reject_if (not (c.verify_signature key chain_id e.vote_a)) invalid_signature
  reject_if (not (c.verify_signature key chain_id e.vote_b)) invalid_signature

abbrev pub sum_of : List ℕ → ℕ
sum_of [] = 0
sum_of (n ∷ ns) = n + sum_of ns

-- `ComputePowerToSlash`; the sum of powers is an int64.
unfoldable pub compute_power_to_slash : Unbonding → List ℕ → List ℕ → ℕ → Handler Provider ℕ
compute_power_to_slash u undelegations redelegations power = do
  unbonding ← attempt (u.tokens_to_power (sum_of undelegations + sum_of redelegations))
  pure (add64 power unbonding)

-- A pointer to parameters that is dereferenced.
abbrev pub deref : {A : Type 0} → Option A → Handler Provider A
deref none s = (panic, s)
deref (some a) s = (ok a, s)

-- A call of the slashing or staking module that punishes.
abbrev pub call : Bool → Punishment → Handler Provider (Unit {0})
call true p s = (ok tt, log_punished p s)
call false p s = (err external, s)

unfoldable pub slash_validator :
    Staking → Slashing → Unbonding → ℕ → Option SlashJail → Handler Provider (Unit {0})
unfolding compute_power_to_slash
slash_validator k sl u addr p = do
  v ← attempt (k.get_validator_by_cons_addr addr)
  reject_if v.is_unbonded validator_unbonded
  reject_if (k.is_tombstoned addr) validator_tombstoned
  val_addr ← or_fail (k.val_address v.operator) external
  undelegations ← attempt (u.undelegations val_addr)
  redelegations ← attempt (u.redelegations val_addr)
  last_power ← attempt (k.get_last_validator_power val_addr)
  total_power ← compute_power_to_slash u undelegations redelegations last_power
  cons_addr ← or_fail v.cons_addr external
  params ← deref p
  call (sl.slash_result cons_addr) (slash cons_addr 0 total_power params.slash_fraction)

unfoldable pub jail_and_tombstone_validator :
    Staking → Slashing → Unbonding → Block → ℕ → Option SlashJail → Handler Provider (Unit {0})
jail_and_tombstone_validator k sl u b addr p = do
  v ← attempt (k.get_validator_by_cons_addr addr)
  reject_if v.is_unbonded validator_unbonded
  reject_if (k.is_tombstoned addr) validator_tombstoned
  if v.is_jailed then pure tt else call (sl.jail_result addr) (jail addr)
  params ← deref p
  call (sl.jail_until_result addr) (jail_until addr (b.time + params.jail_duration))
  if params.tombstone then call (u.tombstone_result addr) (tombstone addr) else pure tt

unfoldable pub handle_consumer_double_voting :
    Staking
    → Slashing
    → Unbonding
    → Crypto
    → Block
    → ℕ
    → Evidence
    → Option ℕ
    → Handler Provider (Unit {0})
unfolding verify_double_voting_evidence slash_validator jail_and_tombstone_validator
handle_consumer_double_voting k sl u c b id e pubkey = do
  client ← gets (get_consumer_client_id id)
  reject_if (not (is_some client)) invalid_evidence
  min_height ← gets (λ s. or_zero (s.consumers id).evidence_min_height)
  reject_if (ltb e.vote_a.height min_height) invalid_evidence
  stored ← gets (λ s. (s.consumers id).chain_id)
  chain_id ← or_fail stored external
  verify_double_voting_evidence c e chain_id pubkey
  addr ← gets (λ s.
      get_provider_addr_from_consumer_addr e.vote_a.validator_address (s.consumers id).chain.keys)
  found ← gets (λ s. get_infraction_parameters id s.infractions)
  params ← or_fail found external
  slash_validator k sl u addr params.double_sign
  jail_and_tombstone_validator k sl u b addr params.double_sign
