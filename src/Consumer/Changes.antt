-- ===== src/Consumer/Changes.antt =====
-- The validator set of a consumer chain: AccumulateChanges of x/ccv/types/utils.go, which merges the
-- updates of several packets, and ApplyCCValidatorChanges of x/ccv/consumer/keeper/validators.go.
pub mod Accumulate
pub mod Step
pub mod Keys
pub mod Apply
pub mod Carried
use interchain_security.Common.{
  ℕ, Bool, true, false, List, [], ◌∷◌, Option, none, some, ltb, ◌==◌, if◌then◌else◌,
}
use interchain_security.Common.Outcome.{Outcome, ok, panic, Handler, ◌>>=◌, pure, panics}
use interchain_security.Store
use interchain_security.Store.{Map}
use interchain_security.Sorting.{SortSlice}
use interchain_security.Updates.{ValidatorUpdate}

-- The order of the merged updates: by power, then by key, both descending.
abbrev pub by_power_and_key : ValidatorUpdate → ValidatorUpdate → Bool
by_power_and_key u v = if u.power == v.power then ltb v.pub_key u.pub_key else ltb v.power u.power

-- The loops that put the updates into a map by their keys.
unfoldable pub index_updates : Map ValidatorUpdate → List ValidatorUpdate → Map ValidatorUpdate
index_updates m [] = m
index_updates m (u ∷ us) = index_updates (Store.set u.pub_key u m) us

-- The order in which Go visits the map does not matter, since what it yields is sorted.
unfoldable pub accumulate_changes :
    SortSlice by_power_and_key → List ValidatorUpdate → List ValidatorUpdate → List ValidatorUpdate
unfolding index_updates
accumulate_changes by current new =
    by.sort (Store.values (index_updates (index_updates [] current) new))

-- types.CrossChainValidator, without the deprecated field opted_out.
pub record CrossChainValidator : Type 0 where
  pub address : ℕ
  pub power : ℕ
  pub pub_key : ℕ

-- The keeper's two prefixes that hold the validators and the outstanding downtime flags.
pub record Validators : Type 0 where
  pub cross_chain_validators : Map CrossChainValidator
  pub outstanding_downtime : Map (Unit {0})

abbrev pub set_cc_validator : CrossChainValidator → Validators → Validators
set_cc_validator v s = record s {
  cross_chain_validators = Store.set v.address v s.cross_chain_validators;
}

abbrev pub delete_cc_validator : ℕ → Validators → Validators
delete_cc_validator addr s = record s {
  cross_chain_validators = Store.delete addr s.cross_chain_validators;
}

abbrev pub delete_outstanding_downtime : ℕ → Validators → Validators
delete_outstanding_downtime addr s = record s {
  outstanding_downtime = Store.delete addr s.outstanding_downtime;
}

-- Powers are natural numbers, so `change.Power < 1` is a power of 0. The slashing module's hook AfterValidatorBonded
-- leaves these two prefixes alone, and packing a decoded key does not fail.
-- One turn of the loop, for a key with the address `addr`: whether the update is forwarded, and the state.
unfoldable pub apply_change : ℕ → ValidatorUpdate → Validators → Bool × Validators
apply_change addr change s = elim (Store.get addr s.cross_chain_validators) [
  | some val ↦ (
    true,
    if change.power == 0
        then delete_cc_validator addr s
        else set_cc_validator (record val { power = change.power }) s,
  )
  | none ↦ if change.power == 0 then (false, s) else (
    true,
    delete_outstanding_downtime addr (
        set_cc_validator (record { address = addr; power = change.power; pub_key = change.pub_key })
          s),
  )
]

abbrev pub forward : Bool → ValidatorUpdate → List ValidatorUpdate → List ValidatorUpdate
forward true u us = u ∷ us
forward false u us = us

-- `address` is the address of a public key, none for a key that does not decode.
unfoldable pub apply_cc_validator_changes :
    (ℕ → Option ℕ) → List ValidatorUpdate → Handler Validators (List ValidatorUpdate)
unfolding apply_change
apply_cc_validator_changes address [] s = (ok [], s)
apply_cc_validator_changes address (change ∷ changes) s = elim (address change.pub_key) [
  | none ↦ (panic, s)
  | some addr ↦
      let (forwarded, s') = apply_change addr change s in
      (apply_cc_validator_changes address changes >>= λ ret. pure (forward forwarded change ret)) s'
]
