-- ===== src/Provider/Lifecycle.antt =====
-- The life of a consumer chain, x/ccv/provider/keeper/consumer_lifecycle.go: its registration and the
-- launch at its spawn time (Launch), and the removal of its state (Removal).
pub mod Launch
pub mod Removal
