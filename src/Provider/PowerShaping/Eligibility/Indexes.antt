-- ===== src/Provider/PowerShaping/Eligibility/Indexes.antt =====
-- The indexes of the allowlist, denylist and prioritylist follow the power-shaping parameters.
use interchain_security.Common.{
  ℕ, ◌≡◌, refl, sym, ap, ◌∙◌, Bool, true, false, not, List, [], ◌∷◌, Option, none, some, arith,
  ◌==◌, ◌||◌, if◌then◌else◌, subst, inl, inr, Bool-cases,
}
use interchain_security.Store.{delete_keys-keys}
use interchain_security.Provider.Staking.{Staking}
use interchain_security.Provider.Chain.{
  Chain, Addresses, contains, add_parsed, add_each, update_addresses,
}
use interchain_security.Provider.Chain.Contains.{contains-add, or_swap}
use interchain_security.Provider.PowerShaping.Parameters.{Parameters}
use interchain_security.Provider.PowerShaping.AddressLists.{
  update_allowlist, update_denylist, update_prioritylist,
}
use interchain_security.Provider.PowerShaping.Eligibility.{
  set_consumer_power_shaping_parameters, get_consumer_power_shaping_parameters, old_parameters,
  equal_string_slices, update_if,
}

abbrev pub is_address : ℕ → Option ℕ → Bool
is_address addr none = false
is_address addr (some b) = addr == b

-- Some string of the list is the address.
abbrev pub named : Staking → ℕ → List ℕ → Bool
named k addr [] = false
named k addr (a ∷ l) = is_address addr (k.cons_address a) || named k addr l

abbrev pub Indexes : Staking → List ℕ → Addresses → Type 0
Indexes k l s = (addr : ℕ) → contains addr s ≡ named k addr l

-- The indexes hold the addresses of the stored parameters' lists.
abbrev pub IsIndexed : Staking → Chain → Type 0
IsIndexed k c =
    let p = old_parameters (get_consumer_power_shaping_parameters c) in
    Indexes k p.allowlist c.allowed
    × (Indexes k p.denylist c.denied × Indexes k p.prioritylist c.prioritized)

contains-add_parsed :
    (addr : ℕ) (o : Option ℕ) (s : Addresses)
    → contains addr (add_parsed o s) ≡ is_address addr o || contains addr s
contains-add_parsed addr none s = refl
contains-add_parsed addr (some b) s = contains-add addr b s

contains-add_each :
    (k : Staking) (addr : ℕ) (l : List ℕ) (s : Addresses)
    → contains addr (add_each k l s) ≡ named k addr l || contains addr s
unfolding add_each
contains-add_each k addr [] s = refl
contains-add_each k addr (a ∷ l) s =
    contains-add_each k addr l (add_parsed (k.cons_address a) s)
    ∙ ap (λ x. named k addr l || x) (contains-add_parsed addr (k.cons_address a) s)
    ∙ or_swap (named k addr l) (is_address addr (k.cons_address a)) (contains addr s)

update_addresses-Indexes :
    (k : Staking) (l : List ℕ) (s : Addresses) → Indexes k l (update_addresses k l s)
unfolding update_addresses
update_addresses-Indexes k l s addr =
    rw (delete_keys-keys s) (contains-add_each k addr l [] ∙ ground (arith))

equal_string_slices-eq : (xs ys : List ℕ) → equal_string_slices xs ys ≡ true → xs ≡ ys
equal_string_slices-eq [] [] h = refl
equal_string_slices-eq [] (y ∷ ys) h = cc
equal_string_slices-eq (x ∷ xs) [] h = cc
equal_string_slices-eq (x ∷ xs) (y ∷ ys) h = ground (arith, equal_string_slices-eq xs ys)

-- What becomes of an index when its list changes from `old` to `new`.
abbrev reindexed : Staking → List ℕ → List ℕ → Addresses → Addresses
reindexed k old new s = if equal_string_slices old new then s else update_addresses k new s

reindexed-Indexes :
    (k : Staking) (old new : List ℕ) (s : Addresses)
    → Indexes k old s
    → Indexes k new (reindexed k old new s)
reindexed-Indexes k old new s h = elim (Bool-cases (equal_string_slices old new)) [
  | inl same ↦ rw (same) (subst (λ l. Indexes k l s) (equal_string_slices-eq old new same) h)
  | inr other ↦ rw (other) (update_addresses-Indexes k new s)
]

-- `SetConsumerPowerShapingParameters` by fields.
set_parameters-fields :
    (k : Staking) (p : Parameters) (c : Chain)
    → (let old = old_parameters (get_consumer_power_shaping_parameters c) in
        set_consumer_power_shaping_parameters k p c ≡ record c {
          parameters = some p;
          allowed = reindexed k old.allowlist p.allowlist c.allowed;
          denied = reindexed k old.denylist p.denylist c.denied;
          prioritized = reindexed k old.prioritylist p.prioritylist c.prioritized;
        })
unfolding set_consumer_power_shaping_parameters update_allowlist update_denylist update_prioritylist
set_parameters-fields k p c =
    let old = old_parameters (get_consumer_power_shaping_parameters c) in
    go (equal_string_slices old.allowlist p.allowlist) (equal_string_slices old.denylist p.denylist)
      (equal_string_slices old.prioritylist p.prioritylist)
  where
    go :
        (x y z : Bool)
        → update_if (not z) (update_prioritylist k p.prioritylist) (
            update_if (not y) (update_denylist k p.denylist) (
              update_if
                (not x)
                (update_allowlist k p.allowlist)
                (record c { parameters = some p })))
          ≡ record c {
            parameters = some p;
            allowed = if x then c.allowed else update_addresses k p.allowlist c.allowed;
            denied = if y then c.denied else update_addresses k p.denylist c.denied;
            prioritized =
                if z then c.prioritized else update_addresses k p.prioritylist c.prioritized;
          }
    go true true true = refl
    go true true false = refl
    go true false true = refl
    go true false false = refl
    go false true true = refl
    go false true false = refl
    go false false true = refl
    go false false false = refl

-- `SetConsumerPowerShapingParameters` keeps the allowlist, denylist and prioritylist indexes equal to the
-- addresses of the stored parameters' lists: if they were so for the parameters stored before, or
-- empty where none were stored, they are so for the new ones, although only the lists that
-- differ are indexed anew and strings that are no addresses are passed over.
pub set_consumer_power_shaping_parameters-IsIndexed :
    (k : Staking) (p : Parameters) (c : Chain)
    → IsIndexed k c
    → IsIndexed k (set_consumer_power_shaping_parameters k p c)
set_consumer_power_shaping_parameters-IsIndexed k p c h =
    let old = old_parameters (get_consumer_power_shaping_parameters c) in
    subst (IsIndexed k) (sym (set_parameters-fields k p c)) (
      reindexed-Indexes k old.allowlist p.allowlist c.allowed h.0,
      (
        reindexed-Indexes k old.denylist p.denylist c.denied h.1.0,
        reindexed-Indexes k old.prioritylist p.prioritylist c.prioritized h.1.1,
      ),
    )
