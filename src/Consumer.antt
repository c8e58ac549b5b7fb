-- ===== src/Consumer.antt =====
-- x/ccv/consumer: what a consumer chain sends to the provider.
pub mod Packets
pub mod Changes
pub mod Blocks
