-- ===== src/Provider/Lifecycle/Launch/Started.antt =====
-- The launch of a consumer chain: what holds of a chain that was launched, and what is left of one whose
-- launch failed.
use interchain_security.Common.{
  ℕ, ◌≡◌, refl, sym, ap, ◌∙◌, subst, Bool, true, false, not, List, [], some, arith,
}
use interchain_security.Common.Outcome.{
  ok, continue-ok, reject_if-ok, no_validators, no_active_validator,
}
use interchain_security.Updates.{ValidatorUpdate, apply_updates}
use interchain_security.Provider.Phase.{Phase}
use interchain_security.Provider.Staking.{Staking, StakingValidator, Block}
use interchain_security.Provider.ValidatorSet.{get_val_set}
use interchain_security.Provider.ValidatorSet.Diff.{powers}
use interchain_security.Provider.NextValidators.{Library, compute_consumer_next_val_set}
use interchain_security.Provider.NextValidators.Distinct.{Distinguished}
use interchain_security.Provider.NextValidators.Stored.{compute_consumer_next_val_set-powers}
use interchain_security.Provider.Ibc.{Ibc}
use interchain_security.Provider.Consumers.{
  Genesis, Consumer, Provider, update_consumer, on_chain, with_phase,
}
use interchain_security.Provider.Lifecycle.Launch.{
  has_active_consumer_validator, is_empty, set_genesis, make_consumer_genesis,
  create_consumer_client, launch_consumer,
}

-- The chain that a launch leaves: launched, with the set that its genesis tells it, which is not empty and has
-- a validator of the provider's active ones.
pub record IsStarted (active : List StakingValidator) (c : Consumer) : Type 0 where
  pub launched : c.chain.phase ≡ Phase.launched
  pub has_active : has_active_consumer_validator active c.chain ≡ ok true
  pub genesis : Genesis
  pub told : c.genesis ≡ some genesis
  pub not_empty : is_empty genesis.initial_val_set ≡ false
  pub in_step :
      (key : ℕ)
      → apply_updates genesis.initial_val_set (λ k. 0) key
        ≡ powers (get_val_set c.chain.val_set) key

pub at_own :
    (id : ℕ) (f : Consumer → Consumer) (s : Provider)
    → (update_consumer id f s).consumers id ≡ f (s.consumers id)
at_own id f s = ground arith

module _ (l : Library) (k : Staking) (i : Ibc) (b : Block) (max_vals : ℕ)
    (bonded active : List StakingValidator) (id : ℕ) where
  make_consumer_genesis-chain :
      (updates : List ValidatorUpdate) (s s' : Provider) (g : Genesis)
      → make_consumer_genesis k i id updates s ≡ (ok g, s')
      → (g.initial_val_set ≡ updates) × ((s'.consumers id).chain ≡ (s.consumers id).chain)
  unfolding make_consumer_genesis
  make_consumer_genesis-chain updates s s' g e = ground (arith, e)

  create_consumer_client-chain :
      (s s' : Provider)
      → create_consumer_client i id s ≡ (ok tt, s')
      → ((s'.consumers id).chain ≡ (s.consumers id).chain)
        × ((s'.consumers id).genesis ≡ (s.consumers id).genesis)
  unfolding create_consumer_client
  create_consumer_client-chain s s' e = ground (arith, e)

  -- A launch that succeeds leaves a chain that is started.
  pub launch_consumer-IsStarted :
      (s s' : Provider)
      → Distinguished (s.consumers id).chain bonded
      → launch_consumer l k i b max_vals bonded active id s ≡ (ok tt, s')
      → IsStarted active (s'.consumers id)
  unfolding launch_consumer on_chain has_active_consumer_validator
  launch_consumer-IsStarted s s' d e =
      let c = (s.consumers id).chain in
      let call = compute_consumer_next_val_set l k b max_vals bonded active [] in
      let r = call c in
      let s1 : Provider = update_consumer id (λ x. record x { chain = r.1 }) s in
      let m1 = continue-ok (r.0, s1) _ tt s' e in
      let updates = m1.0 in
      let computed : call c ≡ (ok updates, r.1) = ap (λ o. (o, r.1)) (ap (λ x. x.0) m1.1.1.0) in
      let m2 = reject_if-ok (is_empty updates) no_validators m1.1.0 _ tt s' m1.1.1.1 in
      let m3 =
        continue-ok (has_active_consumer_validator active (m1.1.0.consumers id).chain, m1.1.0) _ tt
          s' m2.1 in
      let m4 = reject_if-ok (not m3.0) no_active_validator m3.1.0 _ tt s' m3.1.1.1 in
      let m5 = continue-ok (make_consumer_genesis k i id updates m3.1.0) _ tt s' m4.1 in
      let s5 : Provider = set_genesis id m5.0 m5.1.0 in
      let m6 = continue-ok (i.valset_hash, s5) _ tt s' m5.1.1.1 in
      let m7 = continue-ok (create_consumer_client i id m6.1.0) _ tt s' m6.1.1.1 in
      let at1 : (m1.1.0.consumers id).chain ≡ r.1 =
        ap (λ x. (x.consumers id).chain) (sym (ap (λ x. x.1) m1.1.1.0))
        ∙ ap (λ x. x.chain) (at_own id (λ x. record x { chain = r.1 }) s) in
      let at3 : (m3.1.0.consumers id).chain ≡ (m1.1.0.consumers id).chain =
        ap (λ x. (x.1.consumers id).chain) (sym m3.1.1.0) in
      let made = make_consumer_genesis-chain updates m3.1.0 m5.1.0 m5.0 m5.1.1.0 in
      let at6 : m6.1.0.consumers id ≡ record (m5.1.0.consumers id) { genesis = some m5.0 } =
        ap (λ x. x.1.consumers id) (sym m6.1.1.0)
        ∙ at_own id (λ x. record x { genesis = some m5.0 }) m5.1.0 in
      let client = create_consumer_client-chain m6.1.0 m7.1.0 m7.1.1.0 in
      let c7 = m7.1.0.consumers id in
      let chain7 : c7.chain ≡ (m1.1.0.consumers id).chain =
        client.0 ∙ ap (λ x. x.chain) at6 ∙ made.1 ∙ at3 in
      let result : with_phase Phase.launched c7 ≡ s'.consumers id =
        sym (at_own id (with_phase Phase.launched) m7.1.0) ∙ ap (λ x. x.1.consumers id) m7.1.1.1 in
      subst (IsStarted active) result (record {
        launched = refl;
        has_active =
            ap (has_active_consumer_validator active) chain7
            ∙ ap (λ x. x.0) m3.1.1.0
            ∙ ap ok (is_true m3.0 m4.0);
        genesis = m5.0;
        told = client.1 ∙ ap (λ x. x.genesis) at6;
        not_empty = ap is_empty made.0 ∙ m2.0;
        in_step = λ key.
            ap (λ us. apply_updates us (λ j. 0) key) made.0
            ∙ compute_consumer_next_val_set-powers l k b max_vals bonded active [] c r.1 updates d
                computed key
            ∙ ap (λ x. powers (get_val_set x.val_set) key) (sym (chain7 ∙ at1));
      })
    where
      is_true : (x : Bool) → not x ≡ false → x ≡ true
      is_true true e = refl
      is_true false e = cc
