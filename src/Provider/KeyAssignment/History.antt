-- ===== src/Provider/KeyAssignment/History.antt =====
-- The key assignments after any history of assignments, prunings, removals of validators and deletions.
use interchain_security.Common.{
  ℕ, ◌<◌, ◌≡◌, ◌⊎◌, sym, ◌∙◌, subst, some, arith, inl, inr, Option-cases,
}
use interchain_security.Store
use interchain_security.Provider.Phase.{Phase}
use interchain_security.Provider.Staking.{Staking, StakingValidator, Block}
use interchain_security.Provider.KeyAssignment.{
  Keys, no_keys, assign_consumer_key, after_validator_removed, forget_key,
  delete_validator_by_consumer_addr, delete_validator_consumer_pub_key, prune_key_assignments,
  delete_key_assignments, get_provider_addr_from_consumer_addr,
}
use interchain_security.Provider.KeyAssignment.Invariant.{IsConsistent}
use interchain_security.Provider.KeyAssignment.Preserved.{
  assign_consumer_key-IsConsistent, prune_key_assignments-IsConsistent,
}
use interchain_security.Provider.KeyAssignment.Pruning.{waits}

-- Deleting the key assignments of a chain leaves nothing of them.
pub delete_key_assignments-empty : (s : Keys) → delete_key_assignments s ≡ no_keys
unfolding delete_key_assignments
delete_key_assignments-empty s = rw (
  Store.delete_keys-keys s.pub_keys,
  Store.delete_keys-keys s.by_consumer_addr,
  Store.delete_keys-keys s.to_prune,
)

-- Removing a validator keeps the key assignments consistent.
module _ (k : Staking) (s : Keys) (i : IsConsistent k s) (p : ℕ) where
  removed-IsConsistent :
      (old gone : ℕ)
      → Store.get p s.pub_keys ≡ some old
      → k.key_address old ≡ some gone
      → IsConsistent k
          (delete_validator_consumer_pub_key p (delete_validator_by_consumer_addr gone s))
  removed-IsConsistent old gone had address = record {
    known = λ q key a e h. ground (
      arith,
      Store.get-delete p q s.pub_keys,
      Store.get-delete gone a s.by_consumer_addr,
      i.known p old gone had address,
      i.known q key a,
    );
    mapped = λ a h.
        ground (
          arith,
          Store.get-delete gone a s.by_consumer_addr,
          i.mapped a h,
          i.retired a p old h had,
        );
    retired = λ a q key h e. ground (arith, Store.get-delete p q s.pub_keys, i.retired a q key h);
    once = i.once;
    ordered = i.ordered;
    covered = λ a q e. ground (
      arith,
      Store.get-delete p q s.pub_keys,
      Store.get-delete gone a s.by_consumer_addr,
      i.covered a q,
    );
  }

  after_validator_removed-IsConsistent : IsConsistent k (after_validator_removed k p s).1
  unfolding after_validator_removed forget_key
  after_validator_removed-IsConsistent = elim (Option-cases (Store.get p s.pub_keys)) [
    | inl unassigned ↦ rw (unassigned, after_validator_removed) i
    | inr (old, had) ↦ elim (Option-cases (k.key_address old)) [
      | inl bad ↦ rw (had, forget_key, bad) i
      | inr (gone, address) ↦
          rw (had, forget_key, address) (removed-IsConsistent old gone had address)
    ]
  ]

-- The staking states of a history agree on the addresses of the keys, which are computed from the keys.
abbrev pub SameAddresses : Staking → Staking → Type 0
SameAddresses k k' = (key : ℕ) → k'.key_address key ≡ k.key_address key

SameAddresses-IsConsistent :
    (k k' : Staking) (s : Keys) → SameAddresses k k' → IsConsistent k s → IsConsistent k' s
SameAddresses-IsConsistent k k' s same i = record {
  known = λ p key a e h. i.known p key a e (sym (same key) ∙ h);
  mapped = i.mapped;
  retired = λ a p key w e h. i.retired a p key w e (sym (same key) ∙ h);
  once = i.once;
  ordered = i.ordered;
  covered = λ a p e. covered_at a p (i.covered a p e);
}
  where
    covered_at :
        (a p : ℕ)
        → (0 < waits a s.to_prune)
          ⊎ ((key : ℕ) × (Store.get p s.pub_keys ≡ some key) × (k.key_address key ≡ some a))
        → (0 < waits a s.to_prune)
          ⊎ ((key : ℕ) × (Store.get p s.pub_keys ≡ some key) × (k'.key_address key ≡ some a))
    covered_at a p (inl w) = inl w
    covered_at a p (inr (key, e, h)) = inr (key, e, same key ∙ h)

module _ (k : Staking) where
  -- What the keeper and its hooks change of the key assignments of a chain while the provider runs, each call in
  -- a block and with a staking state of its own. A genesis import and the migrations are not among it.
  pub data Step : Keys → Keys → Type 0 where
    assigns :
        (k' : Staking) (b : Block) (phase : Phase) (v : StakingValidator) (key : ℕ) (s : Keys)
        → SameAddresses k k'
        → Step s (assign_consumer_key k' b phase v key s).1
    prunes : (b : Block) (s : Keys) → Step s (prune_key_assignments b s)
    validator_removed :
        (k' : Staking) (addr : ℕ) (s : Keys)
        → SameAddresses k k'
        → Step s (after_validator_removed k' addr s).1
    keys_deleted : (s : Keys) → Step s (delete_key_assignments s)

  pub data Reach : Keys → Type 0 where
    start : Reach no_keys
    next : {s t : Keys} → Reach s → Step s t → Reach t

  no_keys-IsConsistent : IsConsistent k no_keys
  no_keys-IsConsistent = record {
    known = λ p key a e h. cc;
    mapped = λ a h. absurd (omega arith);
    retired = λ a p key h e. absurd (omega arith);
    once = λ a. omega arith;
    ordered = tt;
    covered = λ a p e. cc;
  }

  via :
      (k' : Staking) {s t : Keys}
      → SameAddresses k k'
      → (IsConsistent k' s → IsConsistent k' t)
      → IsConsistent k s
      → IsConsistent k t
  via k' {s} {t} same f i =
      SameAddresses-IsConsistent k' k t (λ key. sym (same key))
        (f (SameAddresses-IsConsistent k k' s same i))

  Step-IsConsistent : {s t : Keys} → Step s t → IsConsistent k s → IsConsistent k t
  Step-IsConsistent (assigns k' b phase v key s same) =
      via k' same (assign_consumer_key-IsConsistent k' b phase v key s)
  Step-IsConsistent (prunes b s) = prune_key_assignments-IsConsistent b s k
  Step-IsConsistent (validator_removed k' addr s same) =
      via k' same (λ i. after_validator_removed-IsConsistent k' s i addr)
  Step-IsConsistent (keys_deleted s) =
      λ i. subst (IsConsistent k) (sym (delete_key_assignments-empty s)) no_keys-IsConsistent

  pub Reach-IsConsistent : {s : Keys} → Reach s → IsConsistent k s
  Reach-IsConsistent start = no_keys-IsConsistent
  Reach-IsConsistent (next r st) = Step-IsConsistent st (Reach-IsConsistent r)

  -- Start from no assigned keys, and let there be any sequence of calls of `AssignConsumerKey` (failing ones too),
  -- prunings, removals of validators from the staking module and deletions of the chain's keys, with any
  -- staking states that compute the same addresses of keys. Then the consumer address of a validator's
  -- assigned key leads back to the validator, so no two validators share one.
  pub assigned_key_resolves :
      (s : Keys) (p key a : ℕ)
      → Reach s
      → Store.get p s.pub_keys ≡ some key
      → k.key_address key ≡ some a
      → (get_provider_addr_from_consumer_addr a s ≡ p)
        × ((q key' : ℕ) → Store.get q s.pub_keys ≡ some key' → k.key_address key' ≡ some a → q ≡ p)
  assigned_key_resolves s p key a r e h =
      let i = Reach-IsConsistent r in
      let mine = i.known p key a e h in
      (
        rw (mine, get_provider_addr_from_consumer_addr),
        λ q key' e' h'. ground (arith, mine, i.known q key' a e' h'),
      )
