-- ===== src/Provider/Lifecycle/Removal/Removed.antt =====
-- What `DeleteConsumerChain` leaves, and that a stopped chain is removed when its time has come.
use interchain_security.Common.{ℕ, ◌≡◌, Bool, true, false, [], none}
use interchain_security.Provider.Phase.{Phase}
use interchain_security.Provider.KeyAssignment.{no_keys}
use interchain_security.Provider.Consumers.{Consumer, Provider}
use interchain_security.Provider.Lifecycle.Removal.Links.{IsUnlinked, SameLinks}

-- Of what is stored under the chain's own keys, all that is left are the phase, the chain id and the parameters.
pub record IsRemoved (c : Consumer) : Type 0 where
  pub deleted : c.chain.phase ≡ Phase.deleted
  pub no_lists : (c.chain.allowed ≡ []) × (c.chain.denied ≡ []) × (c.chain.prioritized ≡ [])
  pub no_opted_in : c.chain.opted_in ≡ []
  pub no_minimum : c.chain.minimum_power_in_top_n ≡ none
  pub no_validators : c.chain.val_set ≡ []
  pub keys_gone : c.chain.keys ≡ no_keys
  pub no_packets : (c.pending_vsc_packets ≡ []) × (c.slash_acks ≡ [])
  pub no_channel :
      (c.channel ≡ none) × (c.init_chain_height ≡ none) × (c.evidence_min_height ≡ none)
  pub no_rest : (c.genesis ≡ none) × (c.commission_rates ≡ []) × (c.removal_time ≡ none)

-- What becomes of a chain: it is removed, or nothing changes.
abbrev pub Fate : Bool → ℕ → Provider → Provider → Type 0
Fate true j s s' = IsRemoved (s'.consumers j) × IsUnlinked j s s'
Fate false j s s' = (s'.consumers j ≡ s.consumers j) × SameLinks j s s'
