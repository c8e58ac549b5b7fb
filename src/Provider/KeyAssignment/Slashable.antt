-- ===== src/Provider/KeyAssignment/Slashable.antt =====
-- A validator that changes its key on a launched chain can still be found by its old address for the
-- whole unbonding period, so it can be punished for what it did with the old key.
use interchain_security.Common.{ℕ, ◌+◌, ◌<◌, ◌≡◌, true, some, arith, none}
use interchain_security.Common.Outcome.{Outcome, ok, is_ok}
use interchain_security.Store
use interchain_security.Provider.Phase.{Phase}
use interchain_security.Provider.Staking.{Staking, StakingValidator, Block}
use interchain_security.Provider.KeyAssignment.{
  Keys, assign_consumer_key, prune_key_assignments, append_consumer_addrs_to_prune,
  set_validator_by_consumer_addr, set_validator_consumer_pub_key,
}
use interchain_security.Provider.KeyAssignment.Pruning.{due-append, waits-consume}
use interchain_security.Provider.KeyAssignment.Invariant.{
  IsConsistent, fresh, waits_until, forgets, Assigns, refused, installed,
  assign_consumer_key-Assigns,
}
use interchain_security.Provider.KeyAssignment.Preserved.{prune_key_assignments-lookup}

module _ (k : Staking) (b later : Block) (v : StakingValidator) (key : ℕ) (s : Keys)
    (p old gone period : ℕ) (i : IsConsistent k s) (validator : v.cons_addr ≡ some p)
    (had : Store.get p s.pub_keys ≡ some old) (address : k.key_address old ≡ some gone)
    (unbonding : k.unbonding_time ≡ ok period) (early : later.time < b.time + period) where
  still_found :
      (c : ℕ)
      → Store.get c s.by_consumer_addr ≡ none
      → Store.get gone
          (prune_key_assignments later (
            set_validator_by_consumer_addr c p (
              set_validator_consumer_pub_key p key
                (append_consumer_addrs_to_prune (b.time + period) gone s)))).by_consumer_addr
        ≡ some p
  still_found c free =
      let t = set_validator_by_consumer_addr c p (
        set_validator_consumer_pub_key p key
          (append_consumer_addrs_to_prune (b.time + period) gone s)) in
      ground (
        arith,
        prune_key_assignments-lookup later t gone,
        due-append gone later.time (b.time + period) gone s.to_prune,
        waits-consume gone later.time s.to_prune,
        i.retired gone p old,
        i.known p old gone,
        Store.get-set c gone p s.by_consumer_addr,
      )

  after_assignment :
      (r : Outcome (Unit {0}) × Keys)
      → Assigns k b Phase.launched v key s r
      → is_ok r.0 ≡ true
      → Store.get gone (prune_key_assignments later r.1).by_consumer_addr ≡ some p
  after_assignment r (refused bad same) h = cc
  after_assignment r (installed c q t e g free (fresh x n) w) h = ground arith
  after_assignment r (installed c q t e g free (forgets o a x n y l) w) h = cc
  after_assignment r (installed c q t e g free (waits_until d o a x n y l u) w) h =
      ground (arith, still_found c free)

  -- If a validator with an assigned key successfully assigns another one on a launched chain, then
  -- a pruning at any time before the unbonding period is over leaves its old address mapped to it.
  pub old_address_resolves :
      is_ok (assign_consumer_key k b Phase.launched v key s).0 ≡ true
      → Store.get gone
          (prune_key_assignments later
            (assign_consumer_key k b Phase.launched v key s).1).by_consumer_addr
        ≡ some p
  old_address_resolves h =
      after_assignment _ (assign_consumer_key-Assigns k b Phase.launched v key s) h
