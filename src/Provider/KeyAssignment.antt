-- ===== src/Provider/KeyAssignment.antt =====
-- x/ccv/provider/keeper/key_assignment.go: which key a validator uses on a consumer chain. The
-- state is that of one consumer chain, whose keys in the store carry its id.
pub mod Pruning
pub mod Invariant
pub mod Preserved
pub mod History
pub mod Slashable
use interchain_security.Common.{
  ℕ, ◌+◌, Bool, true, false, not, List, [], ◌∷◌, ◌++◌, Option, none, some, leb, ◌==◌, ◌!=◌, ◌&&◌,
  if◌then◌else◌, is_some,
}
use interchain_security.Common.Outcome.{
  Outcome, ok, err, panic, Handler, ◌>>=◌, ◌>>◌, pure, gets, modify, reject_if, attempt, or_fail,
  fail, panics, Error, invalid_phase, consumer_key_in_use, cannot_assign_default_key, external,
}
use interchain_security.Store
use interchain_security.Store.{Map}
use interchain_security.Provider.Phase.{Phase, is_consumer_active, is_launched}
use interchain_security.Provider.Staking.{Staking, StakingValidator, Block}

pub record Keys : Type 0 where
  -- ValidatorConsumerPubKey: provider address ↦ consumer key
  pub pub_keys : Map ℕ
  -- ValidatorByConsumerAddr: consumer address ↦ provider address
  pub by_consumer_addr : Map ℕ
  -- ConsumerAddrsToPrune: time ↦ consumer addresses
  pub to_prune : Map (List ℕ)

abbrev pub no_keys : Keys
no_keys = record { pub_keys = []; by_consumer_addr = []; to_prune = [] }

abbrev pub get_validator_consumer_pub_key : ℕ → Keys → Option ℕ
get_validator_consumer_pub_key provider_addr s = Store.get provider_addr s.pub_keys

abbrev pub set_validator_consumer_pub_key : ℕ → ℕ → Keys → Keys
set_validator_consumer_pub_key provider_addr key s = record s {
  pub_keys = Store.set provider_addr key s.pub_keys;
}

abbrev pub get_validator_by_consumer_addr : ℕ → Keys → Option ℕ
get_validator_by_consumer_addr consumer_addr s = Store.get consumer_addr s.by_consumer_addr

abbrev pub set_validator_by_consumer_addr : ℕ → ℕ → Keys → Keys
set_validator_by_consumer_addr consumer_addr provider_addr s = record s {
  by_consumer_addr = Store.set consumer_addr provider_addr s.by_consumer_addr;
}

abbrev pub delete_validator_by_consumer_addr : ℕ → Keys → Keys
delete_validator_by_consumer_addr consumer_addr s = record s {
  by_consumer_addr = Store.delete consumer_addr s.by_consumer_addr;
}

abbrev pub stored_list : Option (List ℕ) → List ℕ
stored_list none = []
stored_list (some l) = l

abbrev pub append_consumer_addrs_to_prune : ℕ → ℕ → Keys → Keys
append_consumer_addrs_to_prune ts addr s = record s {
  to_prune = Store.set ts (stored_list (Store.get ts s.to_prune) ++ addr ∷ []) s.to_prune;
}

-- The keys and the addresses that the iterator of `ConsumeConsumerAddrsToPrune` visits up to a time.
unfoldable pub due_keys : ℕ → Map (List ℕ) → List ℕ
due_keys ts [] = []
due_keys ts ((t, l) ∷ m) = if leb t ts then t ∷ due_keys ts m else due_keys ts m

unfoldable pub due_addrs : ℕ → Map (List ℕ) → List ℕ
due_addrs ts [] = []
due_addrs ts ((t, l) ∷ m) = if leb t ts then l ++ due_addrs ts m else due_addrs ts m

unfoldable pub consume_consumer_addrs_to_prune : ℕ → Keys → List ℕ × Keys
unfolding due_keys due_addrs
consume_consumer_addrs_to_prune ts s = (
  due_addrs ts s.to_prune,
  record s { to_prune = Store.delete_keys (due_keys ts s.to_prune) s.to_prune },
)

-- The tests of `AssignConsumerKey` on the staking module: nobody else may validate with the key on the
-- provider, and the own default key may only be taken back.
unfoldable pub check_provider_use : Staking → StakingValidator → ℕ → ℕ → Handler Keys (Unit {0})
check_provider_use k v consumer_addr provider_addr =
    elim (k.get_validator_by_cons_addr consumer_addr) [
      | ok existing ↦ do
        reject_if (existing.operator != v.operator) consumer_key_in_use
        found ← gets (get_validator_consumer_pub_key provider_addr)
        reject_if (not (is_some found)) cannot_assign_default_key
      | err e ↦ pure tt
      | panic ↦ panics
    ]

-- What becomes of the consumer address of the key that is replaced.
unfoldable pub retire_old_key : Staking → Block → Phase → Option ℕ → Handler Keys (Unit {0})
retire_old_key k b phase none = pure tt
retire_old_key k b phase (some old_key) = do
  old_addr ← or_fail (k.key_address old_key) external
  if is_launched phase
      then (do
        unbonding_period ← attempt k.unbonding_time
        modify (append_consumer_addrs_to_prune (b.time + unbonding_period) old_addr))
      else modify (delete_validator_by_consumer_addr old_addr)

-- `AssignConsumerKey` from where it has both addresses.
unfoldable pub assign_addr :
    Staking → Block → Phase → StakingValidator → ℕ → ℕ → ℕ → Handler Keys (Unit {0})
assign_addr k b phase v consumer_key consumer_addr provider_addr = do
  check_provider_use k v consumer_addr provider_addr
  in_use ← gets (get_validator_by_consumer_addr consumer_addr)
  reject_if (is_some in_use) consumer_key_in_use
  old_key ← gets (get_validator_consumer_pub_key provider_addr)
  retire_old_key k b phase old_key
  modify (set_validator_consumer_pub_key provider_addr consumer_key)
  modify (set_validator_by_consumer_addr consumer_addr provider_addr)

unfoldable pub assign_consumer_key :
    Staking → Block → Phase → StakingValidator → ℕ → Handler Keys (Unit {0})
assign_consumer_key k b phase v consumer_key = do
  reject_if (not (is_consumer_active phase)) invalid_phase
  consumer_addr ← or_fail (k.key_address consumer_key) external
  provider_addr ← or_fail v.cons_addr external
  assign_addr k b phase v consumer_key consumer_addr provider_addr

abbrev pub delete_validator_consumer_pub_key : ℕ → Keys → Keys
delete_validator_consumer_pub_key provider_addr s = record s {
  pub_keys = Store.delete provider_addr s.pub_keys;
}

-- `AfterValidatorRemoved` of keeper/hooks.go on the keys of one chain. The store has at most one key for each
-- chain and provider address, so the loop over all keys finds this one or none.
unfoldable pub forget_key : Staking → ℕ → Option ℕ → Handler Keys (Unit {0})
forget_key k provider_addr none = pure tt
forget_key k provider_addr (some consumer_key) = elim (k.key_address consumer_key) [
  | none ↦ panics
  | some consumer_addr ↦ do
    modify (delete_validator_by_consumer_addr consumer_addr)
    modify (delete_validator_consumer_pub_key provider_addr)
]

unfoldable pub after_validator_removed : Staking → ℕ → Handler Keys (Unit {0})
unfolding forget_key
after_validator_removed k val_cons_addr = do
  found ← gets (get_validator_consumer_pub_key val_cons_addr)
  forget_key k val_cons_addr found

abbrev pub get_provider_addr_from_consumer_addr : ℕ → Keys → ℕ
get_provider_addr_from_consumer_addr consumer_addr s =
    elim (get_validator_by_consumer_addr consumer_addr s) [
      | some provider_addr ↦ provider_addr
      | none ↦ consumer_addr
    ]

pub delete_addrs : List ℕ → Keys → Keys
delete_addrs [] s = s
delete_addrs (a ∷ addrs) s = delete_addrs addrs (delete_validator_by_consumer_addr a s)

unfoldable pub prune_key_assignments : Block → Keys → Keys
unfolding consume_consumer_addrs_to_prune delete_addrs
prune_key_assignments b s =
    let (addrs, s') = consume_consumer_addrs_to_prune b.time s in delete_addrs addrs s'

unfoldable pub delete_key_assignments : Keys → Keys
delete_key_assignments s = record {
  pub_keys = Store.delete_keys (Store.keys s.pub_keys) s.pub_keys;
  by_consumer_addr = Store.delete_keys (Store.keys s.by_consumer_addr) s.by_consumer_addr;
  to_prune = Store.delete_keys (Store.keys s.to_prune) s.to_prune;
}
