-- ===== src/Provider/Lifecycle/Launch/Others.antt =====
-- The launch of one chain and the entries of the other chains.
use interchain_security.Common.{
  ℕ, ◌≡◌, refl, ap, ◌∙◌, Bool, true, false, not, List, [], some, arith, ◌==◌, if◌then◌else◌,
}
use interchain_security.Common.Outcome.{
  Error, continue-keeps, reject_if, no_validators, no_active_validator,
}
use interchain_security.Updates.{ValidatorUpdate}
use interchain_security.Provider.Phase.{Phase}
use interchain_security.Provider.Staking.{Staking, StakingValidator, Block}
use interchain_security.Provider.NextValidators.{Library, compute_consumer_next_val_set}
use interchain_security.Provider.Ibc.{Ibc}
use interchain_security.Provider.Consumers.{
  Consumer, Provider, update_consumer, on_chain, with_phase,
}
use interchain_security.Provider.Lifecycle.Launch.{
  has_active_consumer_validator, is_empty, set_genesis, make_consumer_genesis,
  create_consumer_client, launch_consumer, reset_launch,
}

-- The other chains keep their entries, however the launch of one ends.
module _ (id j : ℕ) (other : (j == id) ≡ false) where
  abbrev entry : Provider → Consumer
  entry s = s.consumers j

  updated-entry :
      (f : Consumer → Consumer) (s : Provider) → entry (update_consumer id f s) ≡ entry s
  updated-entry f s = ap (λ x. if x then f (s.consumers id) else s.consumers j) other

  make_consumer_genesis-entry :
      (k : Staking) (i : Ibc) (updates : List ValidatorUpdate) (s : Provider)
      → entry (make_consumer_genesis k i id updates s).1 ≡ entry s
  unfolding make_consumer_genesis
  make_consumer_genesis-entry k i updates s = ground (arith, other)

  create_consumer_client-entry :
      (i : Ibc) (s : Provider) → entry (create_consumer_client i id s).1 ≡ entry s
  unfolding create_consumer_client
  create_consumer_client-entry i s = ground (arith, other)

  pub reset_launch-entry : (i : Ibc) (s : Provider) → entry (reset_launch i id s).1 ≡ entry s
  unfolding reset_launch
  reset_launch-entry i s = ground (arith, other)

  pub launch_consumer-entry :
      (l : Library) (k : Staking) (i : Ibc) (b : Block) (max_vals : ℕ)
      (bonded active : List StakingValidator) (s : Provider)
      → entry (launch_consumer l k i b max_vals bonded active id s).1 ≡ entry s
  unfolding launch_consumer on_chain
  launch_consumer-entry l k i b max_vals bonded active s =
      let r =
        compute_consumer_next_val_set l k b max_vals bonded active [] (s.consumers id).chain in
      let set_chain : Consumer → Consumer = λ x. record x { chain = r.1 } in
      continue-keeps entry (r.0, update_consumer id set_chain s) _
        (λ updates s1.
          continue-keeps entry (reject_if (is_empty updates) no_validators s1) _ (λ u s2.
            continue-keeps entry (has_active_consumer_validator active (s2.consumers id).chain, s2)
              _
              (λ x s3.
                continue-keeps entry (reject_if (not x) no_active_validator s3) _ (λ u3 s4.
                  continue-keeps entry (make_consumer_genesis k i id updates s4) _ (λ g s5.
                    continue-keeps entry (i.valset_hash, set_genesis id g s5) _
                      (λ h s6.
                        continue-keeps entry (create_consumer_client i id s6) _
                          (λ u6 s7. updated-entry (with_phase Phase.launched) s7)
                        ∙ create_consumer_client-entry i s6)
                    ∙ updated-entry (λ x. record x { genesis = some g }) s5)
                  ∙ make_consumer_genesis-entry k i updates s4)
                ∙ kept (not x) no_active_validator s3))
          ∙ kept (is_empty updates) no_validators s1)
      ∙ updated-entry set_chain s
    where
      kept : (bad : Bool) (e : Error) (s : Provider) → entry (reject_if bad e s).1 ≡ entry s
      kept true e s = refl
      kept false e s = refl
