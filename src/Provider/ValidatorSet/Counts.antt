-- ===== src/Provider/ValidatorSet/Counts.antt =====
-- Validators with distinct addresses and keys, by counting them; and the powers that such a set stands for
-- once it is stored.
use mathlib.Core.List.{Perm}
use interchain_security.Common.{
  ℕ, ◌≤◌, ◌≡◌, refl, false, List, [], ◌∷◌, arith, ◌==◌, if◌then◌else◌, All,
}
use interchain_security.Sorting.Perms.{sum_by, sum_by-perm}
use interchain_security.Store
use interchain_security.Store.{Map}
use interchain_security.Provider.ValidatorSet.{
  ConsensusValidator, index_from, get_val_set, set_val_set,
}
use interchain_security.Provider.ValidatorSet.Storage.{DistinctAddrs, set_val_set-perm}
use interchain_security.Provider.ValidatorSet.Diff.{powers, entry_power}

-- 1 for the one address or key that is asked for.
abbrev pub hit : ℕ → ℕ → ℕ
hit k j = if k == j then 1 else 0

-- With at most one validator for an address, the addresses are distinct.
DistinctAddrs-counts :
    (vs : List ConsensusValidator)
    → ((a : ℕ) → sum_by (λ v. hit a v.provider_cons_addr) vs ≤ 1)
    → DistinctAddrs vs
DistinctAddrs-counts [] h = tt
DistinctAddrs-counts (v ∷ vs) h = (
  none_left v.provider_cons_addr vs (ground (arith, h v.provider_cons_addr)),
  DistinctAddrs-counts vs λ a. omega (arith, h a),
)
  where
    none_left :
        (a : ℕ) (ws : List ConsensusValidator)
        → sum_by (λ w. hit a w.provider_cons_addr) ws ≡ 0
        → All (λ w. (w.provider_cons_addr == a) ≡ false) ws
    none_left a [] e = tt
    none_left a (w ∷ ws) e = (ground arith, none_left a ws (omega arith))

-- The power of a key, summed over the validators with it.
abbrev power_of_key : ℕ → List ConsensusValidator → ℕ
power_of_key key = sum_by λ v. if key == v.public_key then v.power else 0

no_power :
    (key : ℕ) (vs : List ConsensusValidator)
    → sum_by (λ v. hit key v.public_key) vs ≡ 0
    → power_of_key key vs ≡ 0
no_power key [] e = refl
no_power key (v ∷ vs) e = ground (arith, no_power key vs)

index_from-power :
    (key : ℕ) (vs : List ConsensusValidator) (m : Map ConsensusValidator)
    → sum_by (λ v. hit key v.public_key) vs ≤ 1
    → entry_power (Store.get key (index_from m vs)) ≡ (
        if sum_by (λ v. hit key v.public_key) vs == 0
        then entry_power (Store.get key m)
        else power_of_key key vs)
index_from-power key [] m h = refl
index_from-power key (v ∷ vs) m h = ground (
  arith,
  index_from-power key vs (Store.set v.public_key v m),
  Store.get-set v.public_key key v m,
  no_power key vs,
)

-- A rearrangement of validators with distinct keys stands for the same powers.
pub powers-perm :
    {vs ws : List ConsensusValidator} (key : ℕ)
    → Perm vs ws
    → sum_by (λ v. hit key v.public_key) ws ≤ 1
    → powers vs key ≡ powers ws key
powers-perm {vs} {ws} key p h =
    let counts = sum_by-perm (λ (v : ConsensusValidator). hit key v.public_key) p in
    let sums =
      sum_by-perm (λ (v : ConsensusValidator). if key == v.public_key then v.power else 0) p in
    ground
      (arith, index_from-power key vs [], index_from-power key ws [], counts, sums, no_power key ws)

-- What is stored of a computed set stands for the powers of the set.
pub powers-stored :
    (next : List ConsensusValidator) (m : Map ConsensusValidator)
    → ((a : ℕ) → sum_by (λ v. hit a v.provider_cons_addr) next ≤ 1)
    → ((key : ℕ) → sum_by (λ v. hit key v.public_key) next ≤ 1)
    → (key : ℕ) → powers (get_val_set (set_val_set next m)) key ≡ powers next key
powers-stored next m addrs keys key =
    powers-perm key (set_val_set-perm next m (DistinctAddrs-counts next addrs)) (keys key)
