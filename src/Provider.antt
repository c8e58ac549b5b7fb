-- ===== src/Provider.antt =====
-- The provider module (x/ccv/provider).
pub mod Decimals
pub mod Staking
pub mod Phase
pub mod ValidatorSet
pub mod PowerShaping
pub mod OptIn
pub mod NextValidators
pub mod KeyAssignment
pub mod Chain
pub mod TimeQueue
pub mod SlashMeter
pub mod Infraction
pub mod Consumers
pub mod Ibc
pub mod Cached
pub mod Lifecycle
pub mod Relay
pub mod SlashPackets
pub mod Handshake
pub mod Equivocation
