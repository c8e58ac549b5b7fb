-- ===== src/Consumer/Changes/Carried.antt =====
-- From the provider's validator sets to the consumer's: DiffValidators of x/ccv/provider/keeper,
-- then AccumulateChanges of x/ccv/types/utils.go and ApplyCCValidatorChanges of x/ccv/consumer/keeper.
use interchain_security.Common.{ℕ, ◌≡◌, sym, ◌∙◌, List, All, Option}
use interchain_security.Common.Outcome.{ok}
use interchain_security.Sorting.{SortSlice}
use interchain_security.Updates.{ValidatorUpdate, apply_updates}
use interchain_security.Provider.ValidatorSet.{ConsensusValidator, diff_validators}
use interchain_security.Provider.ValidatorSet.Diff.{powers, diff_validators-powers}
use interchain_security.Consumer.Changes.{
  Validators, by_power_and_key, accumulate_changes, apply_cc_validator_changes,
}
use interchain_security.Consumer.Changes.Accumulate.{apply_updates-cong, accumulate_changes-powers}
use interchain_security.Consumer.Changes.Step.{Addressed, voting}
use interchain_security.Consumer.Changes.Keys.{NoCollision}
use interchain_security.Consumer.Changes.Apply.{Decodes, apply_cc_validator_changes-applies}

-- The updates of two packets, merged: what a consumer applies at the end of its block.
abbrev pub two_packets :
    SortSlice by_power_and_key
    → List ConsensusValidator
    → List ConsensusValidator
    → List ConsensusValidator
    → List ValidatorUpdate
two_packets by last mid next =
    accumulate_changes by (diff_validators last mid) (diff_validators mid next)

module _ (address : ℕ → Option ℕ) (no_collision : NoCollision address)
    (by : SortSlice by_power_and_key) (last mid next : List ConsensusValidator)
    (s : Validators) where
  -- A consumer chain whose validators have the powers of the set that the provider computed last, and which
  -- receives the differences to the next two sets before it ends a block, has after it the powers of
  -- the second of them, for every key, and hands CometBFT updates that lead there from the same
  -- powers. This is where the keys in the updates decode, no two keys have one address, and each
  -- validator is stored under its address; and applying the updates does not fail.
  pub consumer_follows_provider :
      Addressed s
      → ((k : ℕ) → voting address s k ≡ powers last k)
      → All (Decodes address) (two_packets by last mid next)
      → (ret : List ValidatorUpdate) × ((s' : Validators) × ((apply_cc_validator_changes address
                (two_packets by last mid next)
                s
              ≡ (ok ret, s'))
            × ((k : ℕ)
                → (voting address s' k ≡ powers next k)
                  × (apply_updates ret (powers last) k ≡ powers next k))))
  consumer_follows_provider h same d =
      let run =
        apply_cc_validator_changes-applies address no_collision (two_packets by last mid next) s h
          d in
      (
        run.0,
        (
          run.1.0,
          (
            run.1.1.0,
            λ k. (
              (run.1.1.1.1 k).0 ∙ arrives k,
              sym (apply_updates-cong run.0 (voting address s) (powers last) k same)
                  ∙ (run.1.1.1.1 k).1
                  ∙ arrives k,
            ),
          ),
        ),
      )
    where
      arrives :
          (k : ℕ)
          → apply_updates (two_packets by last mid next) (voting address s) k ≡ powers next k
      arrives k =
          apply_updates-cong (two_packets by last mid next) (voting address s) (powers last) k same
          ∙ accumulate_changes-powers by (diff_validators last mid) (diff_validators mid next)
              (powers last) k
          ∙ apply_updates-cong (diff_validators mid next)
              (apply_updates (diff_validators last mid) (powers last)) (powers mid) k
              (diff_validators-powers last mid)
          ∙ diff_validators-powers mid next k
