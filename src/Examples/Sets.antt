-- ===== src/Examples/Sets.antt =====
-- Validator sets: DiffValidators and the stored sets, on two small sets.
use mathlib.Core.List.{Perm}
use interchain_security.Common.{ℕ, ◌≡◌, refl, List, [], ◌∷◌, none}
use interchain_security.Store
use interchain_security.Store.{Map}
use interchain_security.Updates.{apply_updates}
use interchain_security.Provider.ValidatorSet.{
  ConsensusValidator, diff_validators, set_val_set, get_val_set, get_total_power,
}
use interchain_security.Provider.ValidatorSet.Diff.{powers, diff_validators-powers}
use interchain_security.Provider.ValidatorSet.Storage.{
  get-set_val_set, set_val_set-perm, get_total_power-set_val_set,
}

abbrev val : ℕ → ℕ → ℕ → ConsensusValidator
val addr power key = record {
  provider_cons_addr = addr;
  power = power;
  public_key = key;
  join_height = 1;
}

-- Validator 1 leaves, 2 changes its power, 3 stays, 4 joins.
abbrev before : List ConsensusValidator
before = val 1 10 101 ∷ val 2 20 102 ∷ val 3 30 103 ∷ []

abbrev next : List ConsensusValidator
next = val 3 30 103 ∷ val 2 25 102 ∷ val 4 5 104 ∷ []

diff_removes_updates_adds :
    diff_validators before next
    ≡ record { pub_key = 101; power = 0 }
      ∷ record { pub_key = 102; power = 25 }
      ∷ record { pub_key = 104; power = 5 }
      ∷ []
unfolding diff_validators Store.set
diff_removes_updates_adds = refl

diff_validators-powers_example :
    apply_updates (diff_validators before next) (powers before) 102 ≡ powers next 102
diff_validators-powers_example = diff_validators-powers before next 102

abbrev stored : Map ConsensusValidator
stored = (7, val 7 70 107) ∷ []

set_val_set_in_key_order :
    get_val_set (set_val_set next stored) ≡ val 2 25 102 ∷ val 3 30 103 ∷ val 4 5 104 ∷ []
unfolding set_val_set Store.set Store.delete_keys
set_val_set_in_key_order = refl

get-set_val_set_example : Store.get 7 (set_val_set next stored) ≡ none
get-set_val_set_example = get-set_val_set 7 next stored

set_val_set-perm_example : Perm (get_val_set (set_val_set next stored)) next
set_val_set-perm_example = set_val_set-perm next stored ((refl, (refl, tt)), ((refl, tt), (tt, tt)))

get_total_power_example : get_total_power (set_val_set next stored) ≡ 60
get_total_power_example =
    get_total_power-set_val_set next stored ((refl, (refl, tt)), ((refl, tt), (tt, tt)))
