-- ===== src/Updates.antt =====
-- Validator updates (abci.ValidatorUpdate) and what a list of them means to whoever applies it.
use interchain_security.Common.{ℕ, ◌≡◌, refl, List, [], ◌∷◌, ◌++◌, ◌==◌, if◌then◌else◌}

-- A power of 0 removes the validator.
pub record ValidatorUpdate : Type 0 where
  pub pub_key : ℕ
  pub power : ℕ

-- The voting power of each public key; 0 for a key that does not validate.
abbrev pub Powers : Type 0
Powers = ℕ → ℕ

abbrev pub apply_update : ValidatorUpdate → Powers → Powers
apply_update u f k = if k == u.pub_key then u.power else f k

-- Updates are applied in order, so a later one for a key overrides an earlier one.
abbrev pub apply_updates : List ValidatorUpdate → Powers → Powers
apply_updates [] f = f
apply_updates (u ∷ us) f = apply_updates us (apply_update u f)

pub apply_updates-append :
    (us vs : List ValidatorUpdate) (f : Powers)
    → apply_updates (us ++ vs) f ≡ apply_updates vs (apply_updates us f)
apply_updates-append [] vs f = refl
apply_updates-append (u ∷ us) vs f = apply_updates-append us vs (apply_update u f)
