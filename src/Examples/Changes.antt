-- ===== src/Examples/Changes.antt =====
-- AccumulateChanges and ApplyCCValidatorChanges, run with insertion sort where a key is its own address.
use interchain_security.Common.{ℕ, ◌≡◌, refl, List, [], ◌∷◌, Option, none, some, arith, All}
use interchain_security.Common.Outcome.{ok, panic}
use interchain_security.Store
use interchain_security.Sorting.{SortSlice}
use interchain_security.Sorting.Insertion.{StrictWeak, insertion}
use interchain_security.Updates.{ValidatorUpdate, apply_updates}
use interchain_security.Provider.ValidatorSet.{ConsensusValidator}
use interchain_security.Provider.ValidatorSet.Diff.{powers}
use interchain_security.Consumer.Changes.{
  CrossChainValidator, Validators, by_power_and_key, accumulate_changes, apply_cc_validator_changes,
}
use interchain_security.Consumer.Changes.Accumulate.{accumulate_changes-powers}
use interchain_security.Consumer.Changes.Step.{Addressed, voting}
use interchain_security.Consumer.Changes.Keys.{NoCollision}
use interchain_security.Consumer.Changes.Apply.{
  Follows, Decodes, apply_cc_validator_changes-applies,
}
use interchain_security.Consumer.Changes.Carried.{two_packets, consumer_follows_provider}

pub by_power_and_key-StrictWeak : StrictWeak by_power_and_key
by_power_and_key-StrictWeak = record {
  asymm = λ a b h. ground arith;
  neg_trans = λ a b c h k. ground arith;
}

abbrev pub by : SortSlice by_power_and_key
by = insertion by_power_and_key by_power_and_key-StrictWeak

abbrev pub update : ℕ → ℕ → ValidatorUpdate
update key power = record { pub_key = key; power = power }

-- The removal of 1 and the new power of 2 are overridden; 9 is not known to the consumer.
abbrev first : List ValidatorUpdate
first = update 1 0 ∷ update 2 25 ∷ []

abbrev second : List ValidatorUpdate
second = update 9 0 ∷ update 1 7 ∷ update 2 0 ∷ update 5 7 ∷ []

merged_descends :
    accumulate_changes by first second ≡ update 5 7 ∷ update 1 7 ∷ update 9 0 ∷ update 2 0 ∷ []
unfolding accumulate_changes Store.set insertion
merged_descends = refl

accumulate_changes-powers_example :
    apply_updates (accumulate_changes by first second) (λ k. k) 2
    ≡ apply_updates second (apply_updates first (λ k. k)) 2
accumulate_changes-powers_example = accumulate_changes-powers by first second (λ k. k) 2

abbrev pub itself : ℕ → Option ℕ
itself k = some k

pub itself-NoCollision : NoCollision itself
itself-NoCollision j k a e e' = cc

pub itself-Decodes : (us : List ValidatorUpdate) → All (Decodes itself) us
itself-Decodes [] = tt
itself-Decodes (u ∷ us) = ((u.pub_key, refl), itself-Decodes us)

abbrev ccv : ℕ → ℕ → CrossChainValidator
ccv key power = record { address = key; power = power; pub_key = key }

abbrev two_validators : Validators
two_validators = record {
  cross_chain_validators = (1, ccv 1 10) ∷ (2, ccv 2 20) ∷ [];
  outstanding_downtime = (5, tt) ∷ [];
}

removal_of_unknown_is_dropped : apply_cc_validator_changes itself second two_validators ≡ (
  ok (update 1 7 ∷ update 2 0 ∷ update 5 7 ∷ []),
  record { cross_chain_validators = (1, ccv 1 7) ∷ (5, ccv 5 7) ∷ []; outstanding_downtime = [] },
)
unfolding apply_cc_validator_changes Store.set Store.delete
removal_of_unknown_is_dropped = refl

undecodable_key_panics : (apply_cc_validator_changes (λ k. none) second two_validators).0 ≡ panic
unfolding apply_cc_validator_changes
undecodable_key_panics = refl

two_validators-Addressed : Addressed two_validators
two_validators-Addressed addr v e = ground arith

apply_cc_validator_changes-applies_example :
    (ret : List ValidatorUpdate) × ((s' : Validators) × ((apply_cc_validator_changes itself second
            two_validators
          ≡ (ok ret, s'))
        × Follows itself second two_validators ret s'))
apply_cc_validator_changes-applies_example =
    apply_cc_validator_changes-applies itself itself-NoCollision second two_validators
      two_validators-Addressed (itself-Decodes second)

abbrev val : ℕ → ℕ → ConsensusValidator
val key power = record {
  provider_cons_addr = key;
  power = power;
  public_key = key;
  join_height = 1;
}

-- Validator 3 joins with the first packet and leaves with the second, before the consumer applies any.
abbrev last : List ConsensusValidator
last = val 1 10 ∷ val 2 20 ∷ []

abbrev mid : List ConsensusValidator
mid = val 2 25 ∷ val 3 30 ∷ []

abbrev next : List ConsensusValidator
next = val 1 12 ∷ val 2 25 ∷ []

two_validators-powers : (k : ℕ) → voting itself two_validators k ≡ powers last k
unfolding Store.set
two_validators-powers k = ground arith

consumer_follows_provider_example :
    (ret : List ValidatorUpdate) × ((s' : Validators) × ((apply_cc_validator_changes itself
            (two_packets by last mid next)
            two_validators
          ≡ (ok ret, s'))
        × ((k : ℕ)
            → (voting itself s' k ≡ powers next k)
              × (apply_updates ret (powers last) k ≡ powers next k))))
consumer_follows_provider_example =
    consumer_follows_provider itself itself-NoCollision by last mid next two_validators
      two_validators-Addressed two_validators-powers (itself-Decodes (two_packets by last mid next))
