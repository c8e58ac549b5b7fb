-- ===== src/Provider/PowerShaping.antt =====
-- x/ccv/provider/keeper/power_shaping.go.
pub mod Parameters
pub mod PowerCap
pub mod TopN
pub mod AddressLists
pub mod Eligibility
