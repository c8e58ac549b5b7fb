-- ===== src/Consumer/Changes/Step.antt =====
-- One turn of the loop of ApplyCCValidatorChanges: what an update does to the stored validators.
use interchain_security.Common.{
  ℕ, ◌≡◌, refl, sym, ap, ◌∙◌, subst, Bool, true, false, Option, none, some, arith, ◌==◌,
  if◌then◌else◌, inl, inr, Bool-cases,
}
use interchain_security.Store
use interchain_security.Store.{Map, get-set, get-delete}
use interchain_security.Updates.{ValidatorUpdate, Powers}
use interchain_security.Consumer.Changes.{
  CrossChainValidator, Validators, set_cc_validator, delete_cc_validator,
  delete_outstanding_downtime, apply_change,
}

abbrev pub power_of : Option CrossChainValidator → ℕ
power_of none = 0
power_of (some v) = v.power

abbrev pub power_at : Validators → Option ℕ → ℕ
power_at s none = 0
power_at s (some addr) = power_of (Store.get addr s.cross_chain_validators)

-- The power of each public key on the consumer chain, 0 where it does not validate.
abbrev pub voting : (ℕ → Option ℕ) → Validators → Powers
voting address s k = power_at s (address k)

-- Each validator is stored under its address.
abbrev pub Addressed : Validators → Type 0
Addressed s =
    (addr : ℕ) (v : CrossChainValidator)
    → Store.get addr s.cross_chain_validators ≡ some v
    → v.address ≡ addr

-- What an update does to the map of the validators, and whether it is forwarded.
pub data Changed (addr : ℕ) (change : ValidatorUpdate) (m : Map CrossChainValidator)
    : Bool → Map CrossChainValidator → Type 0 where
  ignored : Store.get addr m ≡ none → change.power ≡ 0 → Changed addr change m false m
  removed : change.power ≡ 0 → Changed addr change m true (Store.delete addr m)
  stored :
      (w : CrossChainValidator)
      → w.power ≡ change.power
      → w.address ≡ addr
      → Changed addr change m true (Store.set addr w m)

pub apply_change-Changed :
    (addr : ℕ) (change : ValidatorUpdate) (s : Validators)
    → Addressed s
    → Changed addr change s.cross_chain_validators
        (apply_change addr change s).0
        (apply_change addr change s).1.cross_chain_validators
unfolding apply_change
apply_change-Changed addr change s h =
    go (Store.get addr s.cross_chain_validators) (change.power == 0) refl refl
  where
    fresh : CrossChainValidator
    fresh = record { address = addr; power = change.power; pub_key = change.pub_key }

    outcome : Option CrossChainValidator → Bool → Bool × Validators
    outcome o z = elim o [
      | some val ↦ (
        true,
        if z
            then delete_cc_validator addr s
            else set_cc_validator (record val { power = change.power }) s,
      )
      | none ↦
          if z
          then (false, s)
          else (true, delete_outstanding_downtime addr (set_cc_validator fresh s))
    ]

    go :
        (o : Option CrossChainValidator) (z : Bool)
        → Store.get addr s.cross_chain_validators ≡ o
        → (change.power == 0) ≡ z
        → Changed addr change s.cross_chain_validators
            (outcome o z).0
            (outcome o z).1.cross_chain_validators
    go none true e q = ignored e (ground arith)
    go none false e q = stored fresh refl refl
    go (some v) true e q = removed (ground arith)
    go (some v) false e q =
        subst
          (λ a.
            Changed addr change s.cross_chain_validators true
              (Store.set a (record v { power = change.power }) s.cross_chain_validators))
          (sym (h addr v e)) (stored (record v { power = change.power }) refl (h addr v e))

pub Changed-power :
    {addr : ℕ} {change : ValidatorUpdate} {m m' : Map CrossChainValidator} {forwarded : Bool}
    (a : ℕ)
    → Changed addr change m forwarded m'
    → power_of (Store.get a m') ≡ (if a == addr then change.power else power_of (Store.get a m))
Changed-power {addr} {change} {m} a (ignored e z) = elim (Bool-cases (a == addr)) [
  | inl same ↦
      let there : a ≡ addr = ground arith in
      rw (same) (ap (λ x. power_of (Store.get x m)) there ∙ ap power_of e ∙ sym z)
  | inr other ↦ rw (other) refl
]
Changed-power {addr} {change} {m} a (removed z) =
    rw (get-delete addr a m) (go (a == addr) (Store.get a m))
  where
    go :
        (x : Bool) (o : Option CrossChainValidator)
        → power_of (if x then none else o) ≡ (if x then change.power else power_of o)
    go true o = sym z
    go false o = refl
Changed-power {addr} {change} {m} a (stored w p q) =
    rw (get-set addr a w m) (go (a == addr) (Store.get a m))
  where
    go :
        (x : Bool) (o : Option CrossChainValidator)
        → power_of (if x then some w else o) ≡ (if x then change.power else power_of o)
    go true o = p
    go false o = refl

pub Changed-Addressed :
    {addr : ℕ} {change : ValidatorUpdate} {m m' : Map CrossChainValidator} {forwarded : Bool}
    → Changed addr change m forwarded m'
    → ((a : ℕ) (v : CrossChainValidator) → Store.get a m ≡ some v → v.address ≡ a)
    → (a : ℕ) (v : CrossChainValidator) → Store.get a m' ≡ some v
    → v.address ≡ a
Changed-Addressed (ignored e z) h a v e' = h a v e'
Changed-Addressed {addr} {change} {m} (removed z) h a v e =
    h a v (go (a == addr) (Store.get a m) (sym (get-delete addr a m) ∙ e))
  where
    go : (x : Bool) (o : Option CrossChainValidator) → (if x then none else o) ≡ some v → o ≡ some v
    go true o k = cc
    go false o k = k
Changed-Addressed {addr} {change} {m} (stored w p q) h a v e = elim (Bool-cases (a == addr)) [
  | inl same ↦
      let this : some w ≡ some v =
        ap (λ x. if x then some w else Store.get a m) (sym same) ∙ sym (get-set addr a w m) ∙ e in
      let there : a ≡ addr = ground arith in sym (some_address this) ∙ q ∙ sym there
  | inr other ↦
      h a v
        (ap (λ x. if x then some w else Store.get a m) (sym other) ∙ sym (get-set addr a w m) ∙ e)
]
  where
    some_address : some w ≡ some v → w.address ≡ v.address
    some_address k = cc

pub ignored-power :
    {addr : ℕ} {change : ValidatorUpdate} {m m' : Map CrossChainValidator} {forwarded : Bool}
    → Changed addr change m forwarded m'
    → forwarded ≡ false
    → change.power ≡ power_of (Store.get addr m)
ignored-power (ignored e z) f = z ∙ ap power_of (sym e)
ignored-power (removed z) f = cc
ignored-power (stored w p q) f = cc
