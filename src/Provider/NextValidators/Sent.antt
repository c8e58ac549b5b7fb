-- ===== src/Provider/NextValidators/Sent.antt =====
-- What `ComputeConsumerNextValSet` stores and what it returns to be sent to the consumer chain.
use interchain_security.Common.{ℕ, ◌≡◌, sym, ap, ◌∙◌, List, none}
use interchain_security.Common.Outcome.{ok, continue-ok, ok_inj, or_fail, invalid_consumer_state}
use interchain_security.Store
use interchain_security.Updates.{ValidatorUpdate, apply_updates}
use interchain_security.Provider.Staking.{Staking, StakingValidator, Block}
use interchain_security.Provider.Chain.{Chain}
use interchain_security.Provider.ValidatorSet.{ConsensusValidator, diff_validators}
use interchain_security.Provider.ValidatorSet.Storage.{find_last, get-set_val_set}
use interchain_security.Provider.ValidatorSet.Diff.{powers, diff_validators-powers}
use interchain_security.Provider.NextValidators.{
  Library, compute_consumer_next_val_set, compute_next_validators, opt_in_top_n, store_val_set,
}

-- Where `ComputeConsumerNextValSet` succeeds, there is one next validator set such that the chain's
-- stored set has, for every address, the validator of the next set with it, and such that applying the
-- returned updates to the powers of the current set gives the powers of the next set for every key.
pub compute_consumer_next_val_set-sent :
    (l : Library) (k : Staking) (b : Block) (max_vals : ℕ) (bonded active : List StakingValidator)
    (current : List ConsensusValidator) (c c' : Chain) (updates : List ValidatorUpdate)
    → compute_consumer_next_val_set l k b max_vals bonded active current c ≡ (ok updates, c')
    → (next : List ConsensusValidator) × (((addr : ℕ)
          → Store.get addr c'.val_set ≡ find_last addr next none)
        × ((key : ℕ) → apply_updates updates (powers current) key ≡ powers next key))
unfolding compute_consumer_next_val_set
compute_consumer_next_val_set-sent l k b max_vals bonded active current c c' updates h =
    let stored = continue-ok (or_fail c.parameters invalid_consumer_state c) _ updates c' h in
    let p = stored.0 in
    let opted = continue-ok (opt_in_top_n l k active p stored.1.0) _ updates c' stored.1.1.1 in
    let mid = opted.1.0 in
    let made =
      continue-ok (compute_next_validators l k b max_vals mid bonded p opted.0, mid) _ updates c'
        opted.1.1.1 in
    let next = made.0 in
    let last : (ok (diff_validators current next), store_val_set next made.1.0) ≡ (ok updates, c') =
      made.1.1.1 in
    (
      next,
      (
        (λ addr.
            ap (λ r. Store.get addr r.1.val_set) (sym last)
            ∙ get-set_val_set addr next made.1.0.val_set),
        (λ key.
            ap (λ us. apply_updates us (powers current) key) (sym (ok_inj (ap (λ r. r.0) last)))
            ∙ diff_validators-powers current next key),
      ),
    )
