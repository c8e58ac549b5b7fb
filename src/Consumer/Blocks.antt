-- ===== src/Consumer/Blocks.antt =====
-- A block of a consumer chain: OnRecvVSCPacket of x/ccv/consumer/keeper/relay.go, the end of the block in
-- x/ccv/consumer/module.go, and ChangeoverToConsumer of changeover.go.
pub mod Received
pub mod InStep
pub mod Changeover
use interchain_security.Common.{
  ℕ, ◌+◌, Bool, true, false, List, [], ◌∷◌, ◌++◌, Option, none, some, ◌==◌, ◌||◌, if◌then◌else◌,
}
use interchain_security.Common.Outcome.{
  Outcome, ok, err, panic, Handler, ◌>>=◌, ◌>>◌, pure, gets, modify, invalid_packet,
}
use interchain_security.Store
use interchain_security.Store.{Map}
use interchain_security.Sorting.{SortSlice}
use interchain_security.Updates.{ValidatorUpdate}
use interchain_security.Consumer.Packets.{Packet, Consumer, Context, send_packets}
use interchain_security.Consumer.Changes.{
  CrossChainValidator, Validators, by_power_and_key, accumulate_changes, apply_cc_validator_changes,
}

-- ccv.ValidatorSetChangePacketData as it is decoded; `none` are updates that are nil.
pub record VscPacketData : Type 0 where
  pub validator_updates : Option (List ValidatorUpdate)
  pub valset_update_id : ℕ
  pub slash_acks : List ℕ

-- The entries of the consumer's store; those that the packets use are in `packets`, and `sent` lists what
-- IBC accepted.
pub record Module : Type 0 where
  pub cross_chain_validators : Map CrossChainValidator
  pub packets : Consumer
  pub pending_changes : Option (List ValidatorUpdate)
  pub height_valset_update_ids : Map ℕ
  pub initial_val_set : List ValidatorUpdate
  pub pre_ccv : Bool
  pub sent : List Packet

-- The validators and the outstanding downtime flags, and what a handler of them leaves.
abbrev pub validators_of : Module → Validators
validators_of m = record {
  cross_chain_validators = m.cross_chain_validators;
  outstanding_downtime = m.packets.outstanding_downtime;
}

abbrev pub with_validators : Validators → Module → Module
with_validators v m = record m {
  cross_chain_validators = v.cross_chain_validators;
  packets = record (m.packets) { outstanding_downtime = v.outstanding_downtime };
}

abbrev pub on_validators : {A : Type 0} → Handler Validators A → Handler Module A
on_validators h m = let (r, v) = h (validators_of m) in (r, with_validators v m)

abbrev pub set_provider_channel : ℕ → Module → Module
set_provider_channel channel m = record m {
  packets = record (m.packets) { provider_channel = some channel };
}

abbrev pub set_pending_changes : List ValidatorUpdate → Module → Module
set_pending_changes us m = record m { pending_changes = some us }

abbrev pub delete_pending_changes : Module → Module
delete_pending_changes m = record m { pending_changes = none }

abbrev pub set_height_valset_update_id : ℕ → ℕ → Module → Module
set_height_valset_update_id height id m = record m {
  height_valset_update_ids = Store.set height id m.height_valset_update_ids;
}

-- `GetHeightValsetUpdateID`, 0 for a height that is not there.
abbrev pub id_or_zero : Option ℕ → ℕ
id_or_zero none = 0
id_or_zero (some id) = id

abbrev pub get_height_valset_update_id : ℕ → Module → ℕ
get_height_valset_update_id height m = id_or_zero (Store.get height m.height_valset_update_ids)

-- The pending updates, none if there are none.
abbrev pub current_changes : Option (List ValidatorUpdate) → List ValidatorUpdate
current_changes none = []
current_changes (some us) = us

-- The channel of the first packet is the provider's; a packet on another one panics.
unfoldable pub establish : ℕ → Handler Module (Unit {0})
establish channel m = elim m.packets.provider_channel [
  | none ↦ (ok tt, set_provider_channel channel m)
  | some c ↦ if c == channel then (ok tt, m) else (panic, m)
]

-- The acknowledged slashes; an address that does not decode is passed over.
abbrev pub clear_flag : Option ℕ → Map (Unit {0}) → Map (Unit {0})
clear_flag none flags = flags
clear_flag (some addr) flags = Store.delete addr flags

abbrev pub clear_flags : (ℕ → Option ℕ) → List ℕ → Map (Unit {0}) → Map (Unit {0})
clear_flags decode [] flags = flags
clear_flags decode (ack ∷ acks) flags = clear_flags decode acks (clear_flag (decode ack) flags)

abbrev pub clear_acknowledged : (ℕ → Option ℕ) → List ℕ → Module → Module
clear_acknowledged decode acks m = record m {
  packets = record (m.packets) {
    outstanding_downtime = clear_flags decode acks m.packets.outstanding_downtime;
  };
}

-- What follows the validation.
unfoldable pub receive :
    SortSlice by_power_and_key
    → (ℕ → Option ℕ)
    → (height channel id : ℕ) → List ℕ
    → List ValidatorUpdate
    → Handler Module (Unit {0})
unfolding establish accumulate_changes
receive by decode height channel id acks updates = do
  establish channel
  modify (λ m.
      set_pending_changes (accumulate_changes by (current_changes m.pending_changes) updates) m)
  modify (set_height_valset_update_id (height + 1) id)
  modify (clear_acknowledged decode acks)

-- `OnRecvVSCPacket` in the block of the height; `decode` is the address of a bech32 string.
unfoldable pub on_recv_vsc_packet :
    SortSlice by_power_and_key
    → (ℕ → Option ℕ)
    → (height channel : ℕ) → VscPacketData
    → Handler Module (Unit {0})
unfolding receive
on_recv_vsc_packet by decode height channel p m = elim p.validator_updates [
  | none ↦ (err invalid_packet, m)
  | some updates ↦
      if p.valset_update_id == 0
      then (err invalid_packet, m)
      else receive by decode height channel p.valset_update_id p.slash_acks updates m
]

-- `BeginBlock`: the next height has the id of this one until a packet comes.
unfoldable pub begin_block : ℕ → Module → Module
begin_block height m =
    set_height_valset_update_id (height + 1) (get_height_valset_update_id height m) m

-- The updates with a zero power for the standalone validators whose key is not in the initial set.
abbrev pub has_key : ℕ → List ValidatorUpdate → Bool
has_key key [] = false
has_key key (u ∷ us) = u.pub_key == key || has_key key us

unfoldable pub zero_updates : List ValidatorUpdate → List ℕ → List ValidatorUpdate
zero_updates initial [] = []
zero_updates initial (key ∷ keys) =
    let rest = zero_updates initial keys in
    if has_key key initial then rest else record { pub_key = key; power = 0 } ∷ rest

-- An error of the staking module panics.
abbrev pub must : {S A : Type 0} → Outcome A → Handler S A
must (ok a) s = (ok a, s)
must (err e) s = (panic, s)
must Outcome.panic s = (panic, s)

-- `ChangeoverToConsumer`, with the keys of the last standalone validators. What
-- `ApplyCCValidatorChanges` returns is not used.
unfoldable pub changeover_to_consumer :
    (ℕ → Option ℕ) → Outcome (List ℕ) → Handler Module (List ValidatorUpdate)
unfolding apply_cc_validator_changes zero_updates
changeover_to_consumer address standalone = do
  initial ← gets (λ m. m.initial_val_set)
  ret ← on_validators (apply_cc_validator_changes address initial)
  keys ← must standalone
  modify (λ m. record m { pre_ccv = false })
  pure (initial ++ zero_updates initial keys)

abbrev pub log_packets : List Packet × Consumer → Module → Module
log_packets r m = record m { packets = r.1; sent = m.sent ++ r.0 }

-- The pending changes are applied and handed to CometBFT.
unfoldable pub flush_changes : (ℕ → Option ℕ) → Handler Module (List ValidatorUpdate)
unfolding apply_cc_validator_changes
flush_changes address m = elim m.pending_changes [
  | none ↦ (ok [], m)
  | some changes ↦
      (do
        ret ← on_validators (apply_cc_validator_changes address changes)
        modify delete_pending_changes
        pure ret)
        m
]

-- `EndBlock` but for the distribution of rewards, `EndBlockRD`, which has a state of its own.
unfoldable pub end_block :
    (ℕ → Option ℕ) → Context → Outcome (List ℕ) → Handler Module (List ValidatorUpdate)
unfolding changeover_to_consumer send_packets flush_changes
end_block address c standalone m =
    if m.pre_ccv
    then changeover_to_consumer address standalone m
    else flush_changes address (log_packets (send_packets c m.packets) m)
