-- ===== src/Provider/NextValidators/Shaped.antt =====
-- What the caps, the partition by priority and the sorts keep of a list of validators.
use mathlib.Core.List.{Perm, map-map, perm_middle}
use mathlib.Core.List.Perm
use interchain_security.Common.{
  ℕ, ◌≤◌, ◌≡◌, subst, Bool, true, false, List, [], ◌∷◌, ◌++◌, arith, ltb, ◌==◌, ◌!=◌, ◌&&◌, ◌||◌,
  if◌then◌else◌, inl, inr, Bool-cases, length, take, map, All, All-take, length-take,
}
use interchain_security.Sorting.{SortSlice}
use interchain_security.Provider.Decimals.{LegacyDec}
use interchain_security.Provider.Chain.{Chain}
use interchain_security.Provider.ValidatorSet.{ConsensusValidator}
use interchain_security.Provider.PowerShaping.PowerCap.{
  by_power, cap_validators_power, no_more_than_percent_of_the_sum,
}
use interchain_security.Provider.PowerShaping.PowerCap.Result.{identity, no_more_than_percent-perm}
use interchain_security.Provider.PowerShaping.TopN.{cap_validator_set}
use interchain_security.Provider.PowerShaping.AddressLists.{is_prioritylisted}
use interchain_security.Provider.PowerShaping.Eligibility.{
  partition, partition_based_on_priority_list,
}
use interchain_security.Provider.NextValidators.Filtered.{addrs}

-- The cap on powers, the partition by priority and the sorts only rearrange.
map-identity : (vs : List ConsensusValidator) → map (λ i. i.0) (map identity vs) ≡ addrs vs
map-identity vs = map-map (λ i. i.0) identity vs

pub cap_validators_power-addrs :
    (d : LegacyDec) (by : SortSlice by_power) (cap : ℕ) (vs : List ConsensusValidator)
    → Perm (addrs (cap_validators_power d by cap vs)) (addrs vs)
unfolding cap_validators_power
cap_validators_power-addrs d by cap vs = elim (Bool-cases (ltb 0 cap)) [
  | inl capped ↦ rw (capped) (
      subst (λ l. Perm l (addrs vs)) (map-identity (no_more_than_percent_of_the_sum d by vs cap))
        (subst (Perm (map (λ i. i.0) (map identity (no_more_than_percent_of_the_sum d by vs cap))))
          (map-identity vs) (Perm.map (λ i. i.0) (no_more_than_percent-perm d by vs cap))))
  | inr free ↦ rw (free) Perm.rfl
]

partition-addrs :
    (c : Chain) (vs : List ConsensusValidator) → Perm ((partition c vs).0 ++ (partition c vs).1) vs
unfolding partition
partition-addrs c [] = Perm.rfl
partition-addrs c (v ∷ vs) =
    let split = partition c vs in
    elim (Bool-cases (is_prioritylisted v.provider_cons_addr c)) [
      | inl first ↦ rw (first) (Perm.cons v (partition-addrs c vs))
      | inr later ↦
          rw (later) (Perm.trans (perm_middle split.0 split.1) (Perm.cons v (partition-addrs c vs)))
    ]

pub partition_based-addrs :
    (by : SortSlice by_power) (c : Chain) (vs : List ConsensusValidator)
    → (let parts = partition_based_on_priority_list by c vs in Perm (parts.0 ++ parts.1) vs)
unfolding partition_based_on_priority_list
partition_based-addrs by c vs =
    let parts = partition c vs in
    Perm.trans (Perm.append (by.sort_perm parts.0) (by.sort_perm parts.1)) (partition-addrs c vs)

pub cap_validator_set-All :
    (P : ConsensusValidator → Type 0) (top_n cap : ℕ) (vs : List ConsensusValidator)
    → All P vs
    → All P (cap_validator_set top_n cap vs)
unfolding cap_validator_set
cap_validator_set-All P top_n cap vs h = go (ltb 0 top_n) (cap != 0 && ltb cap (length vs))
  where
    go : (x y : Bool) → All P (if x then vs else if y then take cap vs else vs)
    go true y = h
    go false true = All-take P cap vs h
    go false false = h

pub cap_validator_set-uncapped :
    (top_n cap : ℕ) (vs : List ConsensusValidator)
    → ltb 0 top_n || cap == 0 ≡ true
    → cap_validator_set top_n cap vs ≡ vs
unfolding cap_validator_set
cap_validator_set-uncapped top_n cap vs h = ground arith

pub cap_validator_set-le :
    (top_n cap : ℕ) (vs : List ConsensusValidator)
    → ltb 0 top_n || cap == 0 ≡ false
    → length (cap_validator_set top_n cap vs) ≤ cap
unfolding cap_validator_set
cap_validator_set-le top_n cap vs h = ground (arith, length-take cap vs)

pub All-of_addrs :
    (P : ℕ → Type 0) (vs : List ConsensusValidator)
    → All P (addrs vs)
    → All (λ v. P v.provider_cons_addr) vs
All-of_addrs P [] h = tt
All-of_addrs P (v ∷ vs) h = (h.0, All-of_addrs P vs h.1)

pub All-addrs :
    (P : ℕ → Type 0) (vs : List ConsensusValidator)
    → All (λ v. P v.provider_cons_addr) vs
    → All P (addrs vs)
All-addrs P [] h = tt
All-addrs P (v ∷ vs) h = (h.0, All-addrs P vs h.1)
