-- ===== src/Provider/ValidatorSet.antt =====
-- The validator sets that the provider keeps: x/ccv/provider/keeper/validator_set_storage.go and the
-- comparison of two sets in validator_set_update.go.
pub mod Storage
pub mod Diff
pub mod Counts
use interchain_security.Common.{
  ℕ, ◌+◌, Bool, List, [], ◌∷◌, ◌++◌, Option, none, some, ◌!=◌, if◌then◌else◌, is_some,
}
use interchain_security.Store
use interchain_security.Store.{Map}
use interchain_security.Updates.{ValidatorUpdate}

-- types.ConsensusValidator. Addresses and public keys are numbers that stand for their bytes.
pub record ConsensusValidator : Type 0 where
  pub provider_cons_addr : ℕ
  pub power : ℕ
  pub public_key : ℕ
  pub join_height : ℕ

abbrev pub set_validator : ConsensusValidator → Map ConsensusValidator → Map ConsensusValidator
set_validator v m = Store.set v.provider_cons_addr v m

-- The loop of `setValSet`.
set_validators : List ConsensusValidator → Map ConsensusValidator → Map ConsensusValidator
set_validators [] m = m
set_validators (v ∷ vs) m = set_validators vs (set_validator v m)

abbrev pub delete_validator : ℕ → Map ConsensusValidator → Map ConsensusValidator
delete_validator addr m = Store.delete addr m

unfoldable pub delete_val_set : Map ConsensusValidator → Map ConsensusValidator
delete_val_set m = Store.delete_keys (Store.keys m) m

unfoldable pub set_val_set :
    List ConsensusValidator → Map ConsensusValidator → Map ConsensusValidator
unfolding set_validators delete_val_set
set_val_set next m = set_validators next (delete_val_set m)

abbrev pub is_validator : ℕ → Map ConsensusValidator → Bool
is_validator addr m = Store.has addr m

abbrev pub get_val_set : Map ConsensusValidator → List ConsensusValidator
get_val_set m = Store.values m

-- The loop of `getTotalPower`; math.Int does not overflow.
unfoldable pub sum_powers : ℕ → List ConsensusValidator → ℕ
sum_powers acc [] = acc
sum_powers acc (v ∷ vs) = sum_powers (acc + v.power) vs

unfoldable pub get_total_power : Map ConsensusValidator → ℕ
unfolding sum_powers
get_total_power m = sum_powers 0 (get_val_set m)

-- `isCurrentValidator` and `isNextValidator`: a later entry for a key replaces an earlier one.
abbrev pub index_from : Map ConsensusValidator → List ConsensusValidator → Map ConsensusValidator
index_from m [] = m
index_from m (v ∷ vs) = index_from (Store.set v.public_key v m) vs

abbrev pub index_by_key : List ConsensusValidator → Map ConsensusValidator
index_by_key vs = index_from [] vs

-- The loop of `DiffValidators` over the current validators.
diff_current : Map ConsensusValidator → List ConsensusValidator → List ValidatorUpdate
diff_current is_next [] = []
diff_current is_next (v ∷ vs) = elim (Store.get v.public_key is_next) [
  | none ↦ record { pub_key = v.public_key; power = 0 } ∷ diff_current is_next vs
  | some next_val ↦
      if v.power != next_val.power
      then record { pub_key = next_val.public_key; power = next_val.power }
        ∷ diff_current is_next vs
      else diff_current is_next vs
]

-- The loop over the next validators.
diff_next : Map ConsensusValidator → List ConsensusValidator → List ValidatorUpdate
diff_next is_current [] = []
diff_next is_current (v ∷ vs) =
    if is_some (Store.get v.public_key is_current)
    then diff_next is_current vs
    else record { pub_key = v.public_key; power = v.power } ∷ diff_next is_current vs

unfoldable pub diff_validators :
    List ConsensusValidator → List ConsensusValidator → List ValidatorUpdate
unfolding diff_current diff_next
diff_validators current next =
    diff_current (index_by_key next) current ++ diff_next (index_by_key current) next
