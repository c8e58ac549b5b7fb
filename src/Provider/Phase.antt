-- ===== src/Provider/Phase.antt =====
-- The phases of a consumer chain (types.ConsumerPhase) and the tests of permissionless.go.
use interchain_security.Common.{Bool, true, false}

pub data Phase : Type 0 where
  unspecified registered initialized launched stopped deleted : Phase

abbrev pub is_launched : Phase → Bool
is_launched Phase.launched = true
is_launched _ = false

abbrev pub is_stopped : Phase → Bool
is_stopped Phase.stopped = true
is_stopped _ = false

abbrev pub is_unspecified : Phase → Bool
is_unspecified Phase.unspecified = true
is_unspecified _ = false

-- `IsConsumerPrelaunched`
abbrev pub is_consumer_prelaunched : Phase → Bool
is_consumer_prelaunched Phase.registered = true
is_consumer_prelaunched Phase.initialized = true
is_consumer_prelaunched _ = false

-- `IsConsumerActive`
abbrev pub is_consumer_active : Phase → Bool
is_consumer_active Phase.registered = true
is_consumer_active Phase.initialized = true
is_consumer_active Phase.launched = true
is_consumer_active _ = false
