-- ===== src/Provider/KeyAssignment/Invariant.antt =====
-- The invariant of the key assignments of a consumer chain, and what `AssignConsumerKey` does on
-- each of its branches.
use interchain_security.Common.{
  ℕ, ◌+◌, ◌≤◌, ◌<◌, ◌≡◌, ◌≢◌, refl, true, false, Option, none, some, ◌==◌, inl, inr, ◌⊎◌,
  Bool-cases, Option-cases, is_some, sym, subst, ◌∙◌,
}
use interchain_security.Common.Outcome.{
  Outcome, ok, err, panic, is_ok, consumer_key_in_use, cannot_assign_default_key, external, or_fail,
  continue-fails, continue-state, Handler, ◌>>=◌,
}
use interchain_security.Store
use interchain_security.Store.Ordered.{Ascending}
use interchain_security.Provider.Phase.{Phase, is_consumer_active, is_launched}
use interchain_security.Provider.Staking.{Staking, StakingValidator, Block}
use interchain_security.Provider.KeyAssignment.{
  Keys, append_consumer_addrs_to_prune, delete_validator_by_consumer_addr,
  set_validator_consumer_pub_key, set_validator_by_consumer_addr, assign_consumer_key,
  retire_old_key, check_provider_use, assign_addr,
}
use interchain_security.Provider.KeyAssignment.Pruning.{waits}

module _ (k : Staking) where
  -- Every assigned key is known by its address, a waiting address is mapped but is nobody's current
  -- one, it waits once, and every mapped address is current or waiting.
  pub record IsConsistent (s : Keys) : Type 0 where
    pub known :
        (p key a : ℕ)
        → Store.get p s.pub_keys ≡ some key
        → k.key_address key ≡ some a
        → Store.get a s.by_consumer_addr ≡ some p
    pub mapped : (a : ℕ) → 0 < waits a s.to_prune → Store.get a s.by_consumer_addr ≢ none
    pub retired :
        (a p key : ℕ)
        → 0 < waits a s.to_prune
        → Store.get p s.pub_keys ≡ some key
        → k.key_address key ≢ some a
    pub once : (a : ℕ) → waits a s.to_prune ≤ 1
    pub ordered : Ascending s.to_prune
    pub covered :
        (a p : ℕ)
        → Store.get a s.by_consumer_addr ≡ some p
        → (0 < waits a s.to_prune)
          ⊎ ((key : ℕ) × (Store.get p s.pub_keys ≡ some key) × (k.key_address key ≡ some a))

  module _ (b : Block) (phase : Phase) where
    -- The old key of the validator is put aside: there is none, its address waits for the unbonding
    -- period if the chain is launched, or it is forgotten.
    pub data Retires (p : ℕ) (s : Keys) : Keys → Type 0 where
      fresh : {t : Keys} → t ≡ s → Store.get p s.pub_keys ≡ none → Retires p s t
      waits_until :
          {t : Keys} (period old a : ℕ)
          → t ≡ append_consumer_addrs_to_prune (b.time + period) a s
          → Store.get p s.pub_keys ≡ some old
          → k.key_address old ≡ some a
          → is_launched phase ≡ true
          → k.unbonding_time ≡ ok period
          → Retires p s t
      forgets :
          {t : Keys} (old a : ℕ)
          → t ≡ delete_validator_by_consumer_addr a s
          → Store.get p s.pub_keys ≡ some old
          → k.key_address old ≡ some a
          → is_launched phase ≡ false
          → Retires p s t

    -- What a call has done: nothing if it fails, or the whole assignment.
    pub data Assigns (v : StakingValidator) (key : ℕ) (s : Keys)
        : Outcome (Unit {0}) × Keys → Type 0 where
      refused : {r : Outcome (Unit {0}) × Keys} → is_ok r.0 ≡ false → r.1 ≡ s → Assigns v key s r
      installed :
          {r : Outcome (Unit {0}) × Keys} (c p : ℕ) (t : Keys)
          → k.key_address key ≡ some c
          → v.cons_addr ≡ some p
          → Store.get c s.by_consumer_addr ≡ none
          → Retires p s t
          → r ≡ (ok tt, set_validator_by_consumer_addr c p (set_validator_consumer_pub_key p key t))
          → Assigns v key s r

    abbrev Retired : ℕ → Keys → Outcome (Unit {0}) × Keys → Type 0
    Retired p s r =
        ((is_ok r.0 ≡ false) × (r.1 ≡ s)) ⊎ ((t : Keys) × (r ≡ (ok tt, t)) × Retires p s t)

    launched :
        (p : ℕ) (s : Keys) (old a : ℕ)
        → Store.get p s.pub_keys ≡ some old
        → k.key_address old ≡ some a
        → is_launched phase ≡ true
        → (period : Outcome ℕ) → k.unbonding_time ≡ period
        → Retired p s (retire_old_key k b phase (Store.get p s.pub_keys) s)
    unfolding retire_old_key
    launched p s old a e q l (ok period) u = inr (
      append_consumer_addrs_to_prune (b.time + period) a s,
      rw (e, retire_old_key, q, l, u),
      waits_until period old a refl e q l u,
    )
    launched p s old a e q l (err x) u = rw (e, q, l, u, retire_old_key) (inl (refl, refl))
    launched p s old a e q l panic u = rw (e, q, l, u, retire_old_key) (inl (refl, refl))

    retire_old_key-Retires :
        (p : ℕ) (s : Keys) → Retired p s (retire_old_key k b phase (Store.get p s.pub_keys) s)
    unfolding retire_old_key
    retire_old_key-Retires p s = elim (Option-cases (Store.get p s.pub_keys)) [
      | inl e ↦ rw (e, retire_old_key) (inr (s, refl, fresh refl e))
      | inr (old, e) ↦ elim (Option-cases (k.key_address old)) [
        | inl q ↦ rw (e, q, retire_old_key) (inl (refl, refl))
        | inr (a, q) ↦ elim (Bool-cases (is_launched phase)) [
          | inl l ↦ launched p s old a e q l k.unbonding_time refl
          | inr n ↦
              rw (e, q, n, retire_old_key)
                (inr (delete_validator_by_consumer_addr a s, refl, forgets old a refl e q n))
        ]
      ]
    ]

    check_provider_use-reads :
        (v : StakingValidator) (c p : ℕ) (s : Keys)
        → (r : Outcome (Unit {0})) × (check_provider_use k v c p s ≡ (r, s))
    unfolding check_provider_use
    check_provider_use-reads v c p s = go (k.get_validator_by_cons_addr c) refl
      where
        go :
            (o : Outcome StakingValidator)
            → k.get_validator_by_cons_addr c ≡ o
            → (r : Outcome (Unit {0})) × (check_provider_use k v c p s ≡ (r, s))
        go (err e) q = (ok tt, rw (q, check_provider_use))
        go panic q = (panic, rw (q, check_provider_use))
        go (ok existing) q = elim (Bool-cases (existing.operator == v.operator)) [
          | inr other ↦ (err consumer_key_in_use, rw (q, other, check_provider_use))
          | inl same ↦ elim (Bool-cases (is_some (Store.get p s.pub_keys))) [
            | inl assigned ↦ (ok tt, rw (q, same, assigned, check_provider_use))
            | inr default ↦
                (err cannot_assign_default_key, rw (q, same, default, check_provider_use))
          ]
        ]

    assign_addr-Assigns :
        (v : StakingValidator) (key c p : ℕ) (s : Keys) (w : Outcome (Unit {0}))
        → k.key_address key ≡ some c
        → v.cons_addr ≡ some p
        → check_provider_use k v c p s ≡ (w, s)
        → Assigns v key s (assign_addr k b phase v key c p s)
    unfolding assign_addr
    assign_addr-Assigns v key c p s (err x) e g w = rw (w, assign_addr) (refused refl refl)
    assign_addr-Assigns v key c p s panic e g w = rw (w, assign_addr) (refused refl refl)
    assign_addr-Assigns v key c p s (ok x) e g w =
        elim (Option-cases (Store.get c s.by_consumer_addr)) [
          | inr (q, used) ↦ rw (w, used, assign_addr) (refused refl refl)
          | inl free ↦ elim (retire_old_key-Retires p s) [
            | inl (bad, same) ↦
                rw (w, free, assign_addr)
                  (refused (continue-fails _ _ bad) (continue-state _ _ bad ∙ same))
            | inr (t, r, retires) ↦
                rw (w, free, r, assign_addr) (installed c p t e g free retires refl)
          ]
        ]

    abbrev at_addr : ℕ → ℕ → StakingValidator → Option ℕ → Handler Keys (Unit {0})
    at_addr key c v o = or_fail o external >>= λ p. assign_addr k b phase v key c p

    -- Every call leaves the state alone and fails, or makes the whole assignment.
    pub assign_consumer_key-Assigns :
        (v : StakingValidator) (key : ℕ) (s : Keys)
        → Assigns v key s (assign_consumer_key k b phase v key s)
    unfolding assign_consumer_key
    assign_consumer_key-Assigns v key s = elim (Bool-cases (is_consumer_active phase)) [
      | inr inactive ↦ rw (inactive, assign_consumer_key) (refused refl refl)
      | inl active ↦ elim (Option-cases (k.key_address key)) [
        | inl none_there ↦ rw (active, none_there, assign_consumer_key) (refused refl refl)
        | inr (c, e) ↦ elim (Option-cases v.cons_addr) [
          | inl none_there ↦
              rw (active, e, assign_consumer_key)
                (subst (λ o. Assigns v key s (at_addr key c v o s)) (sym none_there)
                  (refused refl refl))
          | inr (p, q) ↦
              let (w, reads) = check_provider_use-reads v c p s in
              rw (active, e, assign_consumer_key)
                (subst (λ o. Assigns v key s (at_addr key c v o s)) (sym q)
                  (assign_addr-Assigns v key c p s w e q reads))
        ]
      ]
    ]
