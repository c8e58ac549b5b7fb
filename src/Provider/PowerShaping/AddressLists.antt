-- ===== src/Provider/PowerShaping/AddressLists.antt =====
-- The allowlist, denylist and prioritylist of a consumer chain, in power_shaping.go.
use interchain_security.Common.{ℕ, Bool, List}
use interchain_security.Store
use interchain_security.Provider.Staking.{Staking}
use interchain_security.Provider.Chain.{
  Chain, add, contains, is_empty, delete_all, update_addresses,
}

-- `SetAllowlist`
abbrev pub set_allowlist : ℕ → Chain → Chain
set_allowlist addr c = record c { allowed = add addr c.allowed }

-- `GetAllowList`
abbrev pub get_allow_list : Chain → List ℕ
get_allow_list c = Store.keys c.allowed

-- `IsAllowlisted`
abbrev pub is_allowlisted : ℕ → Chain → Bool
is_allowlisted addr c = contains addr c.allowed

-- `DeleteAllowlist`
unfoldable pub delete_allowlist : Chain → Chain
delete_allowlist c = record c { allowed = delete_all c.allowed }

-- `IsAllowlistEmpty`
abbrev pub is_allowlist_empty : Chain → Bool
is_allowlist_empty c = is_empty c.allowed

-- `UpdateAllowlist`
unfoldable pub update_allowlist : Staking → List ℕ → Chain → Chain
unfolding update_addresses
update_allowlist k addresses c = record c { allowed = update_addresses k addresses c.allowed }

-- `SetDenylist`
abbrev pub set_denylist : ℕ → Chain → Chain
set_denylist addr c = record c { denied = add addr c.denied }

-- `GetDenyList`
abbrev pub get_deny_list : Chain → List ℕ
get_deny_list c = Store.keys c.denied

-- `IsDenylisted`
abbrev pub is_denylisted : ℕ → Chain → Bool
is_denylisted addr c = contains addr c.denied

-- `DeleteDenylist`
unfoldable pub delete_denylist : Chain → Chain
delete_denylist c = record c { denied = delete_all c.denied }

-- `IsDenylistEmpty`
abbrev pub is_denylist_empty : Chain → Bool
is_denylist_empty c = is_empty c.denied

-- `UpdateDenylist`
unfoldable pub update_denylist : Staking → List ℕ → Chain → Chain
unfolding update_addresses
update_denylist k addresses c = record c { denied = update_addresses k addresses c.denied }

-- `SetPrioritylist`
abbrev pub set_prioritylist : ℕ → Chain → Chain
set_prioritylist addr c = record c { prioritized = add addr c.prioritized }

-- `GetPriorityList`
abbrev pub get_priority_list : Chain → List ℕ
get_priority_list c = Store.keys c.prioritized

-- `IsPrioritylisted`
abbrev pub is_prioritylisted : ℕ → Chain → Bool
is_prioritylisted addr c = contains addr c.prioritized

-- `DeletePrioritylist`
unfoldable pub delete_prioritylist : Chain → Chain
delete_prioritylist c = record c { prioritized = delete_all c.prioritized }

-- `IsPrioritylistEmpty`
abbrev pub is_prioritylist_empty : Chain → Bool
is_prioritylist_empty c = is_empty c.prioritized

-- `UpdatePrioritylist`
unfoldable pub update_prioritylist : Staking → List ℕ → Chain → Chain
unfolding update_addresses
update_prioritylist k addresses c = record c {
  prioritized = update_addresses k addresses c.prioritized;
}
