-- ===== src/Provider/KeyAssignment/Preserved.antt =====
-- Assigning a key, pruning and deleting keep the invariant of the key assignments.
use interchain_security.Common.{
  ℕ, ◌+◌, ◌≡◌, refl, List, [], ◌∷◌, none, some, arith, if◌then◌else◌, ltb,
}
use interchain_security.Common.Outcome.{Outcome}
use interchain_security.Store
use interchain_security.Store.Ordered.{Ascending, set-Ascending, delete_keys-Ascending}
use interchain_security.Provider.Phase.{Phase}
use interchain_security.Provider.Staking.{Staking, StakingValidator, Block}
use interchain_security.Provider.KeyAssignment.{
  Keys, append_consumer_addrs_to_prune, delete_validator_by_consumer_addr,
  set_validator_consumer_pub_key, set_validator_by_consumer_addr, assign_consumer_key, delete_addrs,
  due_addrs, due_keys, prune_key_assignments,
}
use interchain_security.Provider.KeyAssignment.Pruning.{
  occurrences, waits, waits-append, waits-consume,
}
use interchain_security.Provider.KeyAssignment.Invariant.{
  IsConsistent, Retires, fresh, waits_until, forgets, Assigns, refused, installed,
  assign_consumer_key-Assigns,
}

module _ (k : Staking) (s : Keys) (i : IsConsistent k s) (c p key : ℕ)
    (address : k.key_address key ≡ some c) (free : Store.get c s.by_consumer_addr ≡ none) where
  abbrev install : Keys → Keys
  install t = set_validator_by_consumer_addr c p (set_validator_consumer_pub_key p key t)

  install_fresh : Store.get p s.pub_keys ≡ none → IsConsistent k (install s)
  install_fresh none_yet = record {
    known = λ q key' a e h. ground (
      arith,
      Store.get-set p q key s.pub_keys,
      Store.get-set c a p s.by_consumer_addr,
      i.known q key' a,
    );
    mapped = λ a h. ground (arith, Store.get-set c a p s.by_consumer_addr, i.mapped a h);
    retired = λ a q key' h e.
        ground (arith, Store.get-set p q key s.pub_keys, i.mapped a h, i.retired a q key' h);
    once = i.once;
    ordered = i.ordered;
    covered = λ a q e. ground (
      arith,
      Store.get-set p q key s.pub_keys,
      Store.get-set c a p s.by_consumer_addr,
      i.covered a q,
    );
  }

  module _ (old gone : ℕ) (had : Store.get p s.pub_keys ≡ some old)
      (gone_address : k.key_address old ≡ some gone) where
    owner : Store.get gone s.by_consumer_addr ≡ some p
    owner = i.known p old gone had gone_address

    install_forgets : IsConsistent k (install (delete_validator_by_consumer_addr gone s))
    install_forgets = record {
      known = λ q key' a e h. ground (
        arith,
        owner,
        Store.get-set p q key s.pub_keys,
        Store.get-set c a p (Store.delete gone s.by_consumer_addr),
        Store.get-delete gone a s.by_consumer_addr,
        i.known q key' a,
      );
      mapped = λ a h. ground (
        arith,
        Store.get-set c a p (Store.delete gone s.by_consumer_addr),
        Store.get-delete gone a s.by_consumer_addr,
        i.mapped a h,
        i.retired a p old h had,
      );
      retired = λ a q key' h e.
          ground (arith, Store.get-set p q key s.pub_keys, i.mapped a h, i.retired a q key' h);
      once = i.once;
      ordered = i.ordered;
      covered = λ a q e. ground (
        arith,
        Store.get-set p q key s.pub_keys,
        Store.get-set c a p (Store.delete gone s.by_consumer_addr),
        Store.get-delete gone a s.by_consumer_addr,
        i.covered a q,
      );
    }

    install_waits : (ts : ℕ) → IsConsistent k (install (append_consumer_addrs_to_prune ts gone s))
    install_waits ts =
        let more = λ (a : ℕ). waits-append a ts gone s.to_prune i.ordered in
        record {
          known = λ q key' a e h. ground (
            arith,
            Store.get-set p q key s.pub_keys,
            Store.get-set c a p s.by_consumer_addr,
            i.known q key' a,
          );
          mapped = λ a h.
              ground (arith, owner, more a, Store.get-set c a p s.by_consumer_addr, i.mapped a);
          retired = λ a q key' h e. ground (
            arith,
            owner,
            more a,
            Store.get-set p q key s.pub_keys,
            i.mapped a,
            i.retired a q key',
            i.known q key' gone,
          );
          once = λ a. ground (arith, more a, i.once a, i.retired gone p old);
          ordered = set-Ascending ts _ s.to_prune i.ordered;
          covered = λ a q e. ground (
            arith,
            more a,
            Store.get-set p q key s.pub_keys,
            Store.get-set c a p s.by_consumer_addr,
            i.covered a q,
          );
        }

  install-IsConsistent :
      (b : Block) (phase : Phase) (t : Keys) → Retires k b phase p s t → IsConsistent k (install t)
  install-IsConsistent b phase t (fresh e n) = rw e (install_fresh n)
  install-IsConsistent b phase t (waits_until period old a e h g l u) =
      rw e (install_waits old a h g (b.time + period))
  install-IsConsistent b phase t (forgets old a e h g l) = rw e (install_forgets old a h g)

Assigns-IsConsistent :
    (k : Staking) (b : Block) (phase : Phase) (v : StakingValidator) (key : ℕ) (s : Keys)
    {r : Outcome (Unit {0}) × Keys}
    → IsConsistent k s
    → Assigns k b phase v key s r
    → IsConsistent k r.1
Assigns-IsConsistent k b phase v key s i (refused bad same) = rw same i
Assigns-IsConsistent k b phase v key s i (installed c p t e g free x q) =
    rw q (install-IsConsistent k s i c p key e free b phase t x)

-- Whatever a call of `AssignConsumerKey` returns, the key assignments stay consistent.
pub assign_consumer_key-IsConsistent :
    (k : Staking) (b : Block) (phase : Phase) (v : StakingValidator) (key : ℕ) (s : Keys)
    → IsConsistent k s
    → IsConsistent k (assign_consumer_key k b phase v key s).1
assign_consumer_key-IsConsistent k b phase v key s i =
    Assigns-IsConsistent k b phase v key s i (assign_consumer_key-Assigns k b phase v key s)

get-delete_addrs :
    (a : ℕ) (addrs : List ℕ) (s : Keys)
    → Store.get a (delete_addrs addrs s).by_consumer_addr
      ≡ (if ltb 0 (occurrences a addrs) then none else Store.get a s.by_consumer_addr)
unfolding delete_addrs
get-delete_addrs a [] s = ground arith
get-delete_addrs a (x ∷ addrs) s = ground (
  arith,
  get-delete_addrs a addrs (delete_validator_by_consumer_addr x s),
  Store.get-delete x a s.by_consumer_addr,
)

delete_addrs-pub_keys : (addrs : List ℕ) (s : Keys) → (delete_addrs addrs s).pub_keys ≡ s.pub_keys
unfolding delete_addrs
delete_addrs-pub_keys [] s = refl
delete_addrs-pub_keys (x ∷ addrs) s =
    delete_addrs-pub_keys addrs (delete_validator_by_consumer_addr x s)

delete_addrs-to_prune : (addrs : List ℕ) (s : Keys) → (delete_addrs addrs s).to_prune ≡ s.to_prune
unfolding delete_addrs
delete_addrs-to_prune [] s = refl
delete_addrs-to_prune (x ∷ addrs) s =
    delete_addrs-to_prune addrs (delete_validator_by_consumer_addr x s)

module _ (b : Block) (s : Keys) where
  abbrev pub due : ℕ → ℕ
  due a = occurrences a (due_addrs b.time s.to_prune)

  -- Pruning forgets exactly the addresses whose time has come.
  pub prune_key_assignments-lookup :
      (a : ℕ)
      → Store.get a (prune_key_assignments b s).by_consumer_addr
        ≡ (if ltb 0 (due a) then none else Store.get a s.by_consumer_addr)
  unfolding prune_key_assignments
  prune_key_assignments-lookup a = get-delete_addrs a (due_addrs b.time s.to_prune) _

  pub prune_key_assignments-pub_keys : (prune_key_assignments b s).pub_keys ≡ s.pub_keys
  unfolding prune_key_assignments
  prune_key_assignments-pub_keys = delete_addrs-pub_keys (due_addrs b.time s.to_prune) _

  pruned-waits : (a : ℕ) → waits a (prune_key_assignments b s).to_prune + due a ≡ waits a s.to_prune
  unfolding prune_key_assignments
  pruned-waits a =
      rw (delete_addrs-to_prune (due_addrs b.time s.to_prune) _) (waits-consume a b.time s.to_prune)

  pruned-ordered : Ascending s.to_prune → Ascending (prune_key_assignments b s).to_prune
  unfolding prune_key_assignments
  pruned-ordered h =
      rw (delete_addrs-to_prune (due_addrs b.time s.to_prune) _)
        (delete_keys-Ascending (due_keys b.time s.to_prune) s.to_prune h)

  -- Pruning keeps the key assignments consistent: no current key of a validator is ever pruned.
  pub prune_key_assignments-IsConsistent :
      (k : Staking) → IsConsistent k s → IsConsistent k (prune_key_assignments b s)
  prune_key_assignments-IsConsistent k i = record {
    known = λ q key a e h. ground (
      arith,
      prune_key_assignments-pub_keys,
      prune_key_assignments-lookup a,
      pruned-waits a,
      i.known q key a,
      i.retired a q key,
    );
    mapped =
        λ a h. ground (arith, prune_key_assignments-lookup a, pruned-waits a, i.mapped a, i.once a);
    retired = λ a q key h e.
        ground (arith, prune_key_assignments-pub_keys, pruned-waits a, i.retired a q key);
    once = λ a. omega (arith, pruned-waits a, i.once a);
    ordered = pruned-ordered i.ordered;
    covered = λ a q e. ground (
      arith,
      prune_key_assignments-pub_keys,
      prune_key_assignments-lookup a,
      pruned-waits a,
      i.covered a q,
    );
  }
