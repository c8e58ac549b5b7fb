-- ===== src/Consumer/Changes/Keys.antt =====
-- One turn of the loop of ApplyCCValidatorChanges, in terms of public keys instead of addresses.
use interchain_security.Common.{
  ℕ, ◌≡◌, refl, sym, ap, ◌∙◌, Bool, true, false, List, Option, none, some, arith, ◌==◌,
  if◌then◌else◌, inl, inr, Bool-cases,
}
use interchain_security.Updates.{ValidatorUpdate, apply_update, apply_updates}
use interchain_security.Consumer.Changes.Accumulate.{apply_updates-cong}
use interchain_security.Consumer.Changes.{Validators, apply_change, forward}
use interchain_security.Consumer.Changes.Step.{
  power_at, voting, Addressed, apply_change-Changed, Changed-power, ignored-power,
}

-- Two public keys with one address are one key.
abbrev pub NoCollision : (ℕ → Option ℕ) → Type 0
NoCollision address = (j k a : ℕ) → address j ≡ some a → address k ≡ some a → j ≡ k

module _ (address : ℕ → Option ℕ) (no_collision : NoCollision address) where
  other_key : (j k addr : ℕ) → address j ≡ some addr → address k ≡ none → (k == j) ≡ false
  other_key j k addr e e' = elim (Bool-cases (k == j)) [
    | inl same ↦ let there : k ≡ j = ground arith in differs (sym e' ∙ ap address there ∙ e)
    | inr other ↦ other
  ]
    where
      differs : none ≡ some addr → (k == j) ≡ false
      differs d = cc

  same_key : (j k a addr : ℕ) → address j ≡ some addr → address k ≡ some a → (a == addr) ≡ (k == j)
  same_key j k a addr e e' = elim (Bool-cases (a == addr)) [
    | inl same ↦
        let there : a ≡ addr = ground arith in
        let keys : k ≡ j = no_collision k j a e' (e ∙ ap some (sym there)) in
        ground (arith, there, keys)
    | inr other ↦ elim (Bool-cases (k == j)) [
      | inl same ↦
          let there : k ≡ j = ground arith in
          let addrs : a ≡ addr = some_inj (sym e' ∙ ap address there ∙ e) in ground (arith, addrs)
      | inr other' ↦ other ∙ sym other'
    ]
  ]
    where
      some_inj : {x y : ℕ} → some x ≡ some y → x ≡ y
      some_inj d = cc

  pub apply_change-voting :
      (addr : ℕ) (change : ValidatorUpdate) (s : Validators)
      → Addressed s
      → address change.pub_key ≡ some addr
      → (k : ℕ)
      → voting address (apply_change addr change s).1 k ≡ apply_update change (voting address s) k
  apply_change-voting addr change s h at k = go (address k) refl
    where
      s' : Validators
      s' = (apply_change addr change s).1

      go :
          (o : Option ℕ)
          → address k ≡ o
          → power_at s' o ≡ (if k == change.pub_key then change.power else power_at s o)
      go none e = rw (other_key change.pub_key k addr at e) refl
      go (some a) e =
          Changed-power a (apply_change-Changed addr change s h)
          ∙ ap (λ x. if x then change.power else power_at s (some a))
              (same_key change.pub_key k a addr at e)

  pub forward-powers :
      (addr : ℕ) (change : ValidatorUpdate) (s : Validators) (ret : List ValidatorUpdate)
      → Addressed s
      → address change.pub_key ≡ some addr
      → (k : ℕ)
      → apply_updates (forward (apply_change addr change s).0 change ret) (voting address s) k
        ≡ apply_updates ret (apply_update change (voting address s)) k
  forward-powers addr change s ret h at k = go (apply_change addr change s).0 refl
    where
      unchanged :
          (apply_change addr change s).0 ≡ false
          → (j : ℕ) → voting address s j ≡ apply_update change (voting address s) j
      unchanged f j = elim (Bool-cases (j == change.pub_key)) [
        | inl same ↦
            let there : j ≡ change.pub_key = ground arith in
            rw (same) (
              ap (voting address s) there
              ∙ ap (power_at s) at
              ∙ sym (ignored-power (apply_change-Changed addr change s h) f))
        | inr other ↦ rw (other) refl
      ]

      go :
          (b : Bool)
          → (apply_change addr change s).0 ≡ b
          → apply_updates (forward b change ret) (voting address s) k
            ≡ apply_updates ret (apply_update change (voting address s)) k
      go true f = refl
      go false f =
          apply_updates-cong ret (voting address s) (apply_update change (voting address s)) k
            (unchanged f)
