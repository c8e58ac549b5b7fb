-- ===== src/Provider/Chain.antt =====
-- What the provider keeps of one consumer chain to choose and to name its validators: the entries of
-- the store whose keys hold the chain's consumer id (x/ccv/provider/types/keys.go).
pub mod Contains
use interchain_security.Common.{ℕ, Bool, true, false, List, [], ◌∷◌, Option, none, some, not}
use interchain_security.Store
use interchain_security.Store.{Map}
use interchain_security.Provider.Staking.{Staking}
use interchain_security.Provider.Phase.{Phase}
use interchain_security.Provider.KeyAssignment.{Keys}
use interchain_security.Provider.ValidatorSet.{ConsensusValidator}
use interchain_security.Provider.PowerShaping.Parameters.{Parameters}

-- The addresses under one prefix, with empty values.
abbrev pub Addresses : Type 0
Addresses = Map (Unit {0})

abbrev pub add : ℕ → Addresses → Addresses
add addr s = Store.set addr tt s

abbrev pub contains : ℕ → Addresses → Bool
contains addr s = Store.has addr s

-- `!iterator.Valid()`
abbrev pub is_empty : Addresses → Bool
is_empty [] = true
is_empty (e ∷ s) = false

abbrev pub delete_all : Addresses → Addresses
delete_all s = Store.delete_keys (Store.keys s) s

-- The loop of `UpdateAllowlist` and its like, which passes over what is no address.
abbrev pub add_parsed : Option ℕ → Addresses → Addresses
add_parsed none s = s
add_parsed (some addr) s = add addr s

unfoldable pub add_each : Staking → List ℕ → Addresses → Addresses
add_each k [] s = s
add_each k (a ∷ addresses) s = add_each k addresses (add_parsed (k.cons_address a) s)

unfoldable pub update_addresses : Staking → List ℕ → Addresses → Addresses
unfolding add_each
update_addresses k addresses s = add_each k addresses (delete_all s)

pub record Chain : Type 0 where
  pub phase : Phase
  pub parameters : Option Parameters
  pub allowed : Addresses
  pub denied : Addresses
  pub prioritized : Addresses
  pub minimum_power_in_top_n : Option ℕ
  pub opted_in : Addresses
  pub val_set : Map ConsensusValidator
  pub keys : Keys
