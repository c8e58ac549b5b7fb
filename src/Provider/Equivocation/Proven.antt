-- ===== src/Provider/Equivocation/Proven.antt =====
-- What is known of a validator that was punished for double voting.
use interchain_security.Common.{
  ℕ, ◌≤◌, ◌≡◌, ◌≢◌, refl, sym, ap, ◌∙◌, subst, Bool, true, false, not, Option, some, arith, ltb,
  ◌==◌, ◌!=◌, ◌||◌, is_some,
}
use interchain_security.Common.Outcome.{
  ok, or_fail, or_fail-ok, reject_if, reject_if-ok, continue-ok, continue-holds, external,
  invalid_evidence, invalid_signature,
}
use interchain_security.Provider.Staking.{Staking, StakingValidator, Block}
use interchain_security.Provider.KeyAssignment.{get_provider_addr_from_consumer_addr}
use interchain_security.Provider.Infraction.{get_infraction_parameters}
use interchain_security.Provider.Consumers.{Provider, or_zero}
use interchain_security.Provider.Handshake.{get_consumer_client_id}
use interchain_security.Provider.SlashPackets.{Slashing}
use interchain_security.Provider.SlashPackets.Calls.{Adds, Adds-none}
use interchain_security.Provider.Equivocation.{
  Evidence, Crypto, Unbonding, verify_double_voting_evidence, slash_validator,
  handle_consumer_double_voting,
}
use interchain_security.Provider.Equivocation.Calls.{
  slash_validator-Adds, jail_and_tombstone_validator-Adds,
}

-- Two votes of the key's owner for different blocks at one height, round and type, both signed for the chain.
pub record IsDoubleVote (c : Crypto) (e : Evidence) (chain_id key : ℕ) : Type 0 where
  pub owner : c.address key ≡ e.vote_a.validator_address
  pub same_height : e.vote_a.height ≡ e.vote_b.height
  pub same_round : e.vote_a.round ≡ e.vote_b.round
  pub same_type : e.vote_a.vote_type ≡ e.vote_b.vote_type
  pub same_validator : e.vote_a.validator_address ≡ e.vote_b.validator_address
  pub other_block : e.vote_a.block_id ≢ e.vote_b.block_id
  pub signed_a : c.verify_signature key chain_id e.vote_a ≡ true
  pub signed_b : c.verify_signature key chain_id e.vote_b ≡ true

signed : (x : Bool) → not x ≡ false → x ≡ true
signed true e = refl
signed false e = cc

verify_double_voting_evidence-IsDoubleVote :
    (c : Crypto) (e : Evidence) (chain_id : ℕ) (pubkey : Option ℕ) (s s' : Provider)
    → verify_double_voting_evidence c e chain_id pubkey s ≡ (ok tt, s')
    → ((key : ℕ) × ((pubkey ≡ some key) × IsDoubleVote c e chain_id key)) × (s ≡ s')
unfolding verify_double_voting_evidence
verify_double_voting_evidence-IsDoubleVote c e chain_id pubkey s s' h =
    let a = e.vote_a in
    let b = e.vote_b in
    let found = continue-ok (or_fail pubkey invalid_evidence s) _ tt s' h in
    let key = found.0 in
    let s1 = found.1.0 in
    let known = or_fail-ok pubkey invalid_evidence s key s1 found.1.1.0 in
    let m1 =
      reject_if-ok (c.address key != a.validator_address) invalid_evidence s1 _ tt s' found.1.1.1 in
    let m2 =
      reject_if-ok ((a.height != b.height) || (a.round != b.round) || (a.vote_type != b.vote_type))
        invalid_evidence s1 _ tt s' m1.1 in
    let m3 =
      reject_if-ok (a.validator_address != b.validator_address) invalid_evidence s1 _ tt s' m2.1 in
    let m4 = reject_if-ok (a.block_id == b.block_id) invalid_evidence s1 _ tt s' m3.1 in
    let m5 =
      reject_if-ok (not (c.verify_signature key chain_id a)) invalid_signature s1 _ tt s' m4.1 in
    (
      (
        key,
        (
          known.0,
          record {
            owner = ground (arith, m1.0);
            same_height = ground (arith, m2.0);
            same_round = ground (arith, m2.0);
            same_type = ground (arith, m2.0);
            same_validator = ground (arith, m3.0);
            other_block = ground (arith, m4.0);
            signed_a = signed (c.verify_signature key chain_id a) m5.0;
            signed_b =
                signed (c.verify_signature key chain_id b)
                  (last (not (c.verify_signature key chain_id b)) s1 s' m5.1).0;
          },
        ),
      ),
      known.1 ∙ (last (not (c.verify_signature key chain_id b)) s1 s' m5.1).1,
    )
  where
    last :
        (x : Bool) (s s' : Provider)
        → reject_if x invalid_signature s ≡ (ok tt, s')
        → (x ≡ false) × (s ≡ s')
    last true s s' h = cc
    last false s s' h = (refl, ap (λ r. r.1) h)

-- Where `HandleConsumerDoubleVoting` succeeds, the chain has a client, the votes are not older than the
-- minimal height for evidence, they are a double vote of the owner of the given public key, signed for
-- the chain's id, and the calls that punish are all against the validator to which the vote's
-- address resolves. This is where the staking module finds validators by their own address.
pub handle_consumer_double_voting-Adds :
    (k : Staking) (sl : Slashing) (u : Unbonding) (c : Crypto) (b : Block) (id : ℕ) (e : Evidence)
    (pubkey : Option ℕ) (s s' : Provider)
    → ((addr : ℕ) (v : StakingValidator)
        → k.get_validator_by_cons_addr addr ≡ ok v
        → v.cons_addr ≡ some addr)
    → handle_consumer_double_voting k sl u c b id e pubkey s ≡ (ok tt, s')
    → (is_some (get_consumer_client_id id s) ≡ true)
      × ((or_zero (s.consumers id).evidence_min_height ≤ e.vote_a.height)
          × ((chain_id : ℕ) × (((s.consumers id).chain_id ≡ some chain_id)
                × ((key : ℕ) × ((pubkey ≡ some key)
                      × (IsDoubleVote c e chain_id key
                          × Adds
                              (get_provider_addr_from_consumer_addr e.vote_a.validator_address
                                (s.consumers id).chain.keys)
                              s
                              s'))))))
unfolding handle_consumer_double_voting
handle_consumer_double_voting-Adds k sl u c b id e pubkey s s' found h =
    let client =
      reject_if-ok (not (is_some (get_consumer_client_id id s))) invalid_evidence s _ tt s' h in
    let age =
      reject_if-ok (ltb e.vote_a.height (or_zero (s.consumers id).evidence_min_height))
        invalid_evidence s _ tt s' client.1 in
    let chain = continue-ok (or_fail (s.consumers id).chain_id external s) _ tt s' age.1 in
    let stored = or_fail-ok (s.consumers id).chain_id external s chain.0 chain.1.0 chain.1.1.0 in
    let s1 = chain.1.0 in
    let proof =
      continue-ok (verify_double_voting_evidence c e chain.0 pubkey s1) _ tt s' chain.1.1.1 in
    let proven =
      verify_double_voting_evidence-IsDoubleVote c e chain.0 pubkey s1 proof.1.0 proof.1.1.0 in
    let s2 = proof.1.0 in
    let addr =
      get_provider_addr_from_consumer_addr e.vote_a.validator_address
        (s2.consumers id).chain.keys in
    let params =
      continue-ok (or_fail (get_infraction_parameters id s2.infractions) external s2) _ tt s'
        proof.1.1.1 in
    let read =
      or_fail-ok (get_infraction_parameters id s2.infractions) external s2 params.0 params.1.0
        params.1.1.0 in
    let s3 = params.1.0 in
    let same : s ≡ s2 = stored.1 ∙ proven.1 in
    let start : Adds addr s2 s3 =
      Adds-none addr s2 s3 (ap (λ x. x.throttle) (sym read.1))
        (ap (λ x. x.punished) (sym read.1)) in
    let slashed =
      slash_validator-Adds addr s2 k sl u b params.0.double_sign s3 (found addr) start in
    let all_calls : Adds addr s2 s' =
      subst (λ r. Adds addr s2 r.1) params.1.1.1
        (continue-holds (Adds addr s2) (slash_validator k sl u addr params.0.double_sign s3) _
          slashed
          λ x s4 h4.
            jail_and_tombstone_validator-Adds addr s2 k sl u b params.0.double_sign s4 h4) in
    (
      signed (is_some (get_consumer_client_id id s)) client.0,
      (
        ground (arith, age.0),
        (
          chain.0,
          (
            stored.0,
            (
              proven.0.0,
              (
                proven.0.1.0,
                (
                  proven.0.1.1,
                  subst
                      (λ x.
                        Adds
                          (get_provider_addr_from_consumer_addr e.vote_a.validator_address
                            (x.consumers id).chain.keys)
                          x s')
                      (sym same) all_calls,
                ),
              ),
            ),
          ),
        ),
      ),
    )
