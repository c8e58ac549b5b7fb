-- ===== src/Provider/ValidatorSet/Storage.antt =====
-- What the stored validator set is after `setValSet`.
use mathlib.Core.List.{Perm, perm_middle, append-nil}
use mathlib.Core.List.Perm
use interchain_security.Common.{
  ℕ, ◌+◌, ◌≡◌, refl, false, List, [], ◌∷◌, ◌++◌, none, subst, some, arith, ◌==◌, All, if◌then◌else◌,
  Option,
}
use interchain_security.Store
use interchain_security.Sorting.Perms.{sum_by, sum_by-perm}
use interchain_security.Store.{Map}
use interchain_security.Provider.ValidatorSet.{
  ConsensusValidator, set_validators, delete_val_set, set_val_set, get_val_set, sum_powers,
  get_total_power, set_validator,
}

-- The last validator of the list with the address.
abbrev pub find_last :
    ℕ → List ConsensusValidator → Option ConsensusValidator → Option ConsensusValidator
find_last a [] found = found
find_last a (v ∷ vs) found = find_last a vs (if a == v.provider_cons_addr then some v else found)

-- No two validators of the list have one provider address.
abbrev pub DistinctAddrs : List ConsensusValidator → Type 0
DistinctAddrs [] = Unit
DistinctAddrs (v ∷ vs) =
    All (λ w. (w.provider_cons_addr == v.provider_cons_addr) ≡ false) vs × DistinctAddrs vs

get-set_validators :
    (a : ℕ) (vs : List ConsensusValidator) (m : Map ConsensusValidator)
    → Store.get a (set_validators vs m) ≡ find_last a vs (Store.get a m)
unfolding set_validators
get-set_validators a [] m = refl
get-set_validators a (v ∷ vs) m =
    rw (get-set_validators a vs (set_validator v m), Store.get-set v.provider_cons_addr a v m)

-- After a reset a lookup finds the last given validator with the address, or nothing: what was
-- stored before plays no part.
pub get-set_val_set :
    (a : ℕ) (next : List ConsensusValidator) (m : Map ConsensusValidator)
    → Store.get a (set_val_set next m) ≡ find_last a next none
unfolding set_val_set delete_val_set
get-set_val_set a next m = rw (Store.delete_keys-keys m) (get-set_validators a next [])

-- The map has none of the addresses.
abbrev Fresh : Map ConsensusValidator → List ConsensusValidator → Type 0
Fresh m = All λ v. Store.get v.provider_cons_addr m ≡ none

Fresh-set :
    (v : ConsensusValidator) (m : Map ConsensusValidator) (vs : List ConsensusValidator)
    → All (λ w. (w.provider_cons_addr == v.provider_cons_addr) ≡ false) vs
    → Fresh m vs
    → Fresh (set_validator v m) vs
Fresh-set v m [] d f = tt
Fresh-set v m (w ∷ vs) d f = (
  ground (arith, d.0, Store.get-set v.provider_cons_addr w.provider_cons_addr v m),
  Fresh-set v m vs d.1 f.1,
)

values-set_validators :
    (vs : List ConsensusValidator) (m : Map ConsensusValidator)
    → DistinctAddrs vs
    → Fresh m vs
    → Perm (get_val_set (set_validators vs m)) (vs ++ get_val_set m)
unfolding set_validators
values-set_validators [] m d f = Perm.rfl
values-set_validators (v ∷ vs) m d f =
    Perm.trans (values-set_validators vs (set_validator v m) d.1 (Fresh-set v m vs d.0 f.1)) (
      Perm.trans (Perm.append_left vs (Store.values-set_new v.provider_cons_addr v m f.0))
        (perm_middle vs (get_val_set m)))

Fresh-nil : (vs : List ConsensusValidator) → Fresh [] vs
Fresh-nil [] = tt
Fresh-nil (v ∷ vs) = (refl, Fresh-nil vs)

-- A set of distinct validators is read back as it was given, in the order of the addresses,
-- whatever was stored before.
pub set_val_set-perm :
    (next : List ConsensusValidator) (m : Map ConsensusValidator)
    → DistinctAddrs next
    → Perm (get_val_set (set_val_set next m)) next
unfolding set_val_set delete_val_set
set_val_set-perm next m d = rw (Store.delete_keys-keys m) (
    subst (Perm (get_val_set (set_validators next []))) (append-nil next)
      (values-set_validators next [] d (Fresh-nil next)))

sum_powers-eq :
    (acc : ℕ) (vs : List ConsensusValidator) → sum_powers acc vs ≡ acc + sum_by (λ v. v.power) vs
unfolding sum_powers
sum_powers-eq acc [] = omega arith
sum_powers-eq acc (v ∷ vs) = omega (arith, sum_powers-eq (acc + v.power) vs)

-- For validators with distinct addresses, the total power that is read back is the sum of the powers that were stored.
pub get_total_power-set_val_set :
    (next : List ConsensusValidator) (m : Map ConsensusValidator)
    → DistinctAddrs next
    → get_total_power (set_val_set next m) ≡ sum_by (λ v. v.power) next
unfolding get_total_power
get_total_power-set_val_set next m d = omega (
  arith,
  sum_powers-eq 0 (get_val_set (set_val_set next m)),
  sum_by-perm (λ v. v.power) (set_val_set-perm next m d),
)
