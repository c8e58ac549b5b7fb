-- ===== src/Provider/PowerShaping/Parameters.antt =====
-- types.PowerShapingParameters of x/ccv/provider/types/provider.pb.go. The lists hold addresses as the
-- strings that the owner of the chain gave, here numbers.
use interchain_security.Common.{ℕ, Bool, false, List, []}

pub record Parameters : Type 0 where
  pub top_n : ℕ
  pub validators_power_cap : ℕ
  pub validator_set_cap : ℕ
  pub allowlist : List ℕ
  pub denylist : List ℕ
  pub min_stake : ℕ
  pub allow_inactive_vals : Bool
  pub prioritylist : List ℕ

-- Go's zero value.
abbrev pub zero_parameters : Parameters
zero_parameters = record {
  top_n = 0;
  validators_power_cap = 0;
  validator_set_cap = 0;
  allowlist = [];
  denylist = [];
  min_stake = 0;
  allow_inactive_vals = false;
  prioritylist = [];
}
