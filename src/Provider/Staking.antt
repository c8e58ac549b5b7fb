-- ===== src/Provider/Staking.antt =====
-- What the provider reads of the staking and slashing modules of the SDK, which are other modules'
-- code, as one block sees it; and the block itself.
use interchain_security.Common.{ℕ, Bool, Option}
use interchain_security.Common.Outcome.{Outcome}

-- stakingtypes.Validator: its accessors. `none` is an error of GetConsAddr and CmtConsPublicKey.
pub record StakingValidator : Type 0 where
  pub operator : ℕ
  pub cons_addr : Option ℕ
  pub cmt_cons_public_key : Option ℕ
  pub bonded_tokens : ℕ
  pub is_jailed : Bool
  pub is_unbonded : Bool

pub record Staking : Type 0 where
  -- `sdk.ValAddressFromBech32` of an operator address, and `sdk.ConsAddressFromBech32`.
  pub val_address : ℕ → Option ℕ
  pub cons_address : ℕ → Option ℕ
  pub get_last_validator_power : ℕ → Outcome ℕ
  pub get_validator_by_cons_addr : ℕ → Outcome StakingValidator
  pub unbonding_time : Outcome ℕ
  pub is_tombstoned : ℕ → Bool
  -- `ccv.TMCryptoPublicKeyToConsAddr`
  pub key_address : ℕ → Option ℕ

-- sdk.Context: the block's time (nanoseconds) and height.
pub record Block : Type 0 where
  pub time : ℕ
  pub height : ℕ
