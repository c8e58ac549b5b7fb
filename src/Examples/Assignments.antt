-- ===== src/Examples/Assignments.antt =====
-- Key assignment: validator 1 assigns key 11 and then, on the launched chain, key 12.
use interchain_security.Common.{ℕ, ◌≡◌, refl, some, true, false, [], ◌∷◌, arith}
use interchain_security.Common.Outcome.{ok, err, external, consumer_key_in_use, is_ok}
use interchain_security.Store
use interchain_security.Provider.Phase.{Phase}
use interchain_security.Provider.Staking.{Staking, StakingValidator, Block}
use interchain_security.Provider.KeyAssignment.{
  Keys, no_keys, assign_consumer_key, assign_addr, check_provider_use, retire_old_key,
  prune_key_assignments, after_validator_removed, forget_key, delete_key_assignments,
  get_provider_addr_from_consumer_addr,
}
use interchain_security.Provider.KeyAssignment.Invariant.{IsConsistent}
use interchain_security.Provider.KeyAssignment.Preserved.{
  assign_consumer_key-IsConsistent, prune_key_assignments-IsConsistent,
}
use interchain_security.Provider.KeyAssignment.History.{
  Reach, start, next, assigns, Reach-IsConsistent, assigned_key_resolves,
}
use interchain_security.Provider.KeyAssignment.Slashable.{old_address_resolves}

abbrev validator : ℕ → StakingValidator
validator a = record {
  operator = a;
  cons_addr = some a;
  cmt_cons_public_key = some a;
  bonded_tokens = 1;
  is_jailed = false;
  is_unbonded = false;
}

-- The address of a key is the key, and nobody validates with the keys on the provider.
abbrev staking : Staking
staking = record {
  val_address = λ a. some a;
  cons_address = λ a. some a;
  get_last_validator_power = λ a. ok 1;
  get_validator_by_cons_addr = λ a. err external;
  unbonding_time = ok 100;
  is_tombstoned = λ a. false;
  key_address = λ a. some a;
}

abbrev at : ℕ → Block
at t = record { time = t; height = 1 }

abbrev assign : ℕ → ℕ → ℕ → Keys → Keys
assign t v key s = (assign_consumer_key staking (at t) Phase.launched (validator v) key s).1

abbrev once_assigned : Keys
once_assigned = record { pub_keys = (1, 11) ∷ []; by_consumer_addr = (11, 1) ∷ []; to_prune = [] }

assign_first : assign 5 1 11 no_keys ≡ once_assigned
unfolding assign_consumer_key assign_addr check_provider_use retire_old_key Store.set
assign_first = refl

abbrev twice_assigned : Keys
twice_assigned = record {
  pub_keys = (1, 12) ∷ [];
  by_consumer_addr = (11, 1) ∷ (12, 1) ∷ [];
  to_prune = (107, 11 ∷ []) ∷ [];
}

assign_second : assign 7 1 12 once_assigned ≡ twice_assigned
unfolding assign_consumer_key assign_addr check_provider_use retire_old_key Store.set
assign_second = refl

-- Nobody can take a key that still waits to be pruned.
waiting_key_refused :
    (assign_consumer_key staking (at 8) Phase.launched (validator 2) 11 twice_assigned).0
    ≡ err consumer_key_in_use
unfolding assign_consumer_key assign_addr check_provider_use retire_old_key
waiting_key_refused = refl

prune_when_due :
    prune_key_assignments (at 107) twice_assigned
    ≡ record { pub_keys = (1, 12) ∷ []; by_consumer_addr = (12, 1) ∷ []; to_prune = [] }
unfolding prune_key_assignments Store.delete Store.delete_keys
prune_when_due = refl

-- Where the validator is removed, its current key is forgotten, and the old one still waits.
removal_forgets :
    after_validator_removed staking 1 twice_assigned
    ≡ (ok tt, record twice_assigned { pub_keys = []; by_consumer_addr = (11, 1) ∷ [] })
unfolding after_validator_removed forget_key Store.delete
removal_forgets = refl

once_assigned-Reach : Reach staking once_assigned
unfolding assign_consumer_key assign_addr check_provider_use retire_old_key Store.set
once_assigned-Reach =
    next start (assigns staking (at 5) Phase.launched (validator 1) 11 no_keys (λ key. refl))

assigned_key_resolves_example :
    (get_provider_addr_from_consumer_addr 11 once_assigned ≡ 1)
    × ((q key' : ℕ) → Store.get q once_assigned.pub_keys ≡ some key' → some key' ≡ some 11 → q ≡ 1)
assigned_key_resolves_example =
    assigned_key_resolves staking once_assigned 1 11 11 once_assigned-Reach refl refl

assign_consumer_key-IsConsistent_example :
    IsConsistent staking
      (assign_consumer_key staking (at 7) Phase.launched (validator 1) 12 once_assigned).1
assign_consumer_key-IsConsistent_example =
    assign_consumer_key-IsConsistent staking (at 7) Phase.launched (validator 1) 12 once_assigned
      (Reach-IsConsistent staking once_assigned-Reach)

twice_assigned-Reach : Reach staking twice_assigned
unfolding assign_consumer_key assign_addr check_provider_use retire_old_key Store.set
twice_assigned-Reach =
    next once_assigned-Reach
      (assigns staking (at 7) Phase.launched (validator 1) 12 once_assigned (λ key. refl))

prune_key_assignments-IsConsistent_example :
    IsConsistent staking (prune_key_assignments (at 107) twice_assigned)
prune_key_assignments-IsConsistent_example =
    prune_key_assignments-IsConsistent (at 107) twice_assigned staking
      (Reach-IsConsistent staking twice_assigned-Reach)

second_succeeds :
    is_ok (assign_consumer_key staking (at 7) Phase.launched (validator 1) 12 once_assigned).0
    ≡ true
unfolding assign_consumer_key assign_addr check_provider_use retire_old_key
second_succeeds = refl

old_address_resolves_example :
    Store.get 11 (prune_key_assignments (at 106) (assign 7 1 12 once_assigned)).by_consumer_addr
    ≡ some 1
old_address_resolves_example =
    old_address_resolves staking (at 7) (at 106) (validator 1) 12 once_assigned 1 11 11 100
      (Reach-IsConsistent staking once_assigned-Reach) refl refl refl refl (omega arith)
      second_succeeds

nothing_is_left : delete_key_assignments twice_assigned ≡ no_keys
unfolding delete_key_assignments Store.delete_keys
nothing_is_left = refl
