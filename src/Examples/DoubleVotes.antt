-- ===== src/Examples/DoubleVotes.antt =====
-- The validator 60 votes for two blocks of the launched chain, where its key on the chain is its own.
use interchain_security.Common.{ap, sym, ℕ, ◌≤◌, ◌≡◌, refl, true, [], ◌∷◌, none, some, is_some}
use interchain_security.Common.Outcome.{ok, ok_inj, err, invalid_evidence}
use interchain_security.Common.Words.{add64}
use interchain_security.Provider.KeyAssignment.{get_provider_addr_from_consumer_addr}
use interchain_security.Provider.Infraction.{InfractionParameters}
use interchain_security.Provider.Consumers.{Provider, slash, jail, jail_until, tombstone, or_zero}
use interchain_security.Provider.Handshake.{get_consumer_client_id}
use interchain_security.Provider.SlashPackets.Calls.{Adds}
use interchain_security.Provider.Equivocation.{
  Vote, Evidence, Crypto, Unbonding, handle_consumer_double_voting,
}
use interchain_security.Provider.Equivocation.Proven.{
  IsDoubleVote, handle_consumer_double_voting-Adds,
}
use interchain_security.Examples.Powers.{staking}
use interchain_security.Examples.Selection.{block, after_epoch}
use interchain_security.Examples.Chains.{with_chain, provider}
use interchain_security.Examples.Slashes.{slashing}

abbrev vote_for : ℕ → Vote
vote_for block_id = record {
  height = 12;
  round = 0;
  vote_type = 2;
  validator_address = 60;
  block_id = block_id;
  signature = block_id;
}

abbrev evidence : Evidence
evidence = record { vote_a = vote_for 1; vote_b = vote_for 2 }

-- A key is its own address, and all signatures are good.
abbrev crypto : Crypto
crypto = record { address = λ key. key; verify_signature = λ key chain_id v. true }

-- Undelegations of 20 and 4 and a redelegation of 6, with a reduction that is the identity.
abbrev unbonding : Unbonding
unbonding = record {
  undelegations = λ a. ok (20 ∷ 4 ∷ []);
  redelegations = λ a. ok (6 ∷ []);
  tokens_to_power = λ tokens. ok tokens;
  tombstone_result = λ a. true;
}

abbrev parameters : InfractionParameters
parameters = record {
  double_sign = some (record { slash_fraction = 50; jail_duration = 900; tombstone = true });
  downtime = none;
}

abbrev accused : Provider
accused = record (provider (record (with_chain after_epoch) { evidence_min_height = some 10 })) {
  infractions = record { parameters = (0, parameters) ∷ []; queued = []; schedule = [] };
}

abbrev sentenced : Provider
sentenced =
    (handle_consumer_double_voting staking slashing unbonding crypto block 0 evidence (some 60)
      accused).1

handled :
    handle_consumer_double_voting staking slashing unbonding crypto block 0 evidence
      (some 60)
      accused
    ≡ (ok tt, sentenced)
unfolding handle_consumer_double_voting add64
handled = refl

calls : sentenced.punished ≡ slash 60 0 90 50 ∷ jail 60 ∷ jail_until 60 1000 ∷ tombstone 60 ∷ []
unfolding handle_consumer_double_voting add64
calls = refl

one_block_rejected :
    handle_consumer_double_voting staking slashing unbonding crypto block 0
      (record { vote_a = vote_for 1; vote_b = vote_for 1 })
      (some 60)
      accused
    ≡ (err invalid_evidence, accused)
unfolding handle_consumer_double_voting
one_block_rejected = refl

handle_consumer_double_voting-Adds_example :
    (is_some (get_consumer_client_id 0 accused) ≡ true)
    × ((or_zero (accused.consumers 0).evidence_min_height ≤ evidence.vote_a.height)
        × ((chain_id : ℕ) × (((accused.consumers 0).chain_id ≡ some chain_id)
              × ((key : ℕ) × ((some 60 ≡ some key)
                    × (IsDoubleVote crypto evidence chain_id key
                        × Adds
                            (get_provider_addr_from_consumer_addr 60
                              (accused.consumers 0).chain.keys)
                            accused
                            sentenced))))))
handle_consumer_double_voting-Adds_example =
    handle_consumer_double_voting-Adds staking slashing unbonding crypto block 0 evidence (some 60)
      accused sentenced (λ addr v e. ap (λ w. w.cons_addr) (sym (ok_inj e))) handled
