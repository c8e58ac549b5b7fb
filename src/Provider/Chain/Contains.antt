-- ===== src/Provider/Chain/Contains.antt =====
-- The addresses under a prefix after one is added or deleted.
use interchain_security.Common.{
  ℕ, ◌≡◌, refl, Bool, true, false, not, Option, none, some, ◌==◌, ◌&&◌, ◌||◌, if◌then◌else◌,
  is_some,
}
use interchain_security.Store
use interchain_security.Store.{get-set, get-delete}
use interchain_security.Provider.Chain.{Addresses, add, contains}

pub or_swap : (x y z : Bool) → x || (y || z) ≡ (y || x) || z
or_swap true true z = refl
or_swap true false z = refl
or_swap false true z = refl
or_swap false false z = refl

pub contains-add :
    (addr b : ℕ) (s : Addresses) → contains addr (add b s) ≡ (addr == b) || contains addr s
contains-add addr b s = rw (get-set b addr tt s) (go (addr == b))
  where
    go : (x : Bool) → is_some (if x then some tt else Store.get addr s) ≡ x || contains addr s
    go true = refl
    go false = refl

pub contains-delete :
    (a addr : ℕ) (s : Addresses)
    → contains a (Store.delete addr s) ≡ contains a s && not (a == addr)
contains-delete a addr s = rw (get-delete addr a s) (go (a == addr) (Store.get a s))
  where
    go : (x : Bool) (o : Option (Unit {0})) → is_some (if x then none else o) ≡ is_some o && not x
    go true none = refl
    go true (some u) = refl
    go false none = refl
    go false (some u) = refl
