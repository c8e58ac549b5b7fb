-- ===== src/Consumer/Packets.antt =====
-- The packets that a consumer chain sends: the queue of pending packets of x/ccv/consumer/keeper/keeper.go,
-- the retries of slash packets in throttle_retry.go, and QueueSlashPacket, SendPackets and
-- OnAcknowledgementPacket of relay.go.
pub mod Queue
pub mod Standby
pub mod Replies
pub mod History
use interchain_security.Common.{
  ℕ, ◌+◌, Bool, true, false, not, List, [], ◌∷◌, Option, none, some, ltb, ◌==◌, ◌!=◌, ◌&&◌,
  if◌then◌else◌, is_some,
}
use interchain_security.Common.Outcome.{
  Outcome, ok, err, panic, Handler, ◌>>=◌, ◌>>◌, pure, fail, gets, modify, attempt, or_fail, panics,
  unknown_channel, bad_acknowledgement,
}
use interchain_security.Common.Words.{add64}
use interchain_security.Store
use interchain_security.Store.{Map}

pub data Infraction : Type 0 where
  unspecified double_sign downtime : Infraction

abbrev pub is_downtime : Infraction → Bool
is_downtime Infraction.downtime = true
is_downtime _ = false

-- ccv.ConsumerPacketData, by its type; a VSCMatured packet holds the id of the update.
pub data Packet : Type 0 where
  slash_packet : (validator power valset_update_id : ℕ) → Infraction → Packet
  vsc_matured_packet : ℕ → Packet

abbrev pub is_slash : Packet → Bool
is_slash (slash_packet v p u i) = true
is_slash (vsc_matured_packet u) = false

pub record SlashRecord : Type 0 where
  pub send_time : ℕ
  pub waiting_on_reply : Bool

-- The entries of the consumer's store that the packets use.
pub record Consumer : Type 0 where
  pub provider_channel : Option ℕ
  pub slash_record : Option SlashRecord
  pub pending_packets : Map Packet
  pub pending_packets_index : Option ℕ
  pub outstanding_downtime : Map (Unit {0})

-- The block's time, the parameter, and IBC: whether a packet is accepted on a channel, and ChanCloseInit.
pub record Context : Type 0 where
  pub time : ℕ
  pub retry_delay_period : ℕ
  pub send_ibc_packet : ℕ → Packet → Bool
  pub chan_close_init : ℕ → Outcome (Unit {0})

abbrev pub set_slash_record : SlashRecord → Consumer → Consumer
set_slash_record r s = record s { slash_record = some r }

abbrev pub clear_slash_record : Consumer → Consumer
clear_slash_record s = record s { slash_record = none }

abbrev pub packet_sending_permitted : Context → Consumer → Bool
packet_sending_permitted c s = elim s.slash_record [
  | none ↦ true
  | some r ↦ if r.waiting_on_reply then false else ltb (r.send_time + c.retry_delay_period) c.time
]

abbrev pub update_slash_record_on_send : Context → Consumer → Consumer
update_slash_record_on_send c =
    set_slash_record (record { send_time = c.time; waiting_on_reply = true })

unfoldable pub update_slash_record_on_bounce : Handler Consumer (Unit {0})
update_slash_record_on_bounce s = elim s.slash_record [
  | none ↦ (panic, s)
  | some r ↦ (ok tt, set_slash_record (record r { waiting_on_reply = false }) s)
]

-- The index of a new packet; the counter is a uint64 that starts at 0.
abbrev pub current_index : Option ℕ → ℕ
current_index none = 0
current_index (some n) = n

unfoldable pub append_pending_packet : Packet → Consumer → Consumer
append_pending_packet p s =
    let idx = current_index s.pending_packets_index in
    record s {
      pending_packets = Store.set idx p s.pending_packets;
      pending_packets_index = some (add64 idx 1);
    }

-- The first entry that the iterator visits is deleted.
unfoldable pub delete_head : Map Packet → Map Packet
delete_head [] = []
delete_head ((idx, p) ∷ m) = Store.delete idx ((idx, p) ∷ m)

abbrev pub delete_head_of_pending_packets : Consumer → Consumer
delete_head_of_pending_packets s = record s { pending_packets = delete_head s.pending_packets }

abbrev pub get_pending_packets : Consumer → List Packet
get_pending_packets s = Store.values s.pending_packets

abbrev pub delete_pending_data_packets : List ℕ → Consumer → Consumer
delete_pending_data_packets idxs s = record s {
  pending_packets = Store.delete_keys idxs s.pending_packets;
}

unfoldable pub queue_slash_packet : ℕ → ℕ → ℕ → Infraction → Consumer → Consumer
unfolding append_pending_packet
queue_slash_packet validator power valset_update_id infraction s =
    let downtime = is_downtime infraction in
    if downtime && Store.has validator s.outstanding_downtime
    then s
    else (let s' =
          if downtime
          then record s { outstanding_downtime = Store.set validator tt s.outstanding_downtime }
          else s in
        append_pending_packet (slash_packet validator power valset_update_id infraction) s')

-- What the loop of `SendPackets` leaves: the packets that IBC accepted, `idxsForDeletion`, the state.
pub record Sending : Type 0 where
  pub sent : List Packet
  pub idxs_for_deletion : List ℕ
  pub state : Consumer

abbrev pub stopped : Consumer → Sending
stopped s = record { sent = []; idxs_for_deletion = []; state = s }

abbrev pub one_slash : Context → Packet → Consumer → Sending
one_slash c p s = record {
  sent = p ∷ [];
  idxs_for_deletion = [];
  state = update_slash_record_on_send c s;
}

abbrev pub one_more : ℕ → Packet → Sending → Sending
one_more idx p r = record r { sent = p ∷ r.sent; idxs_for_deletion = idx ∷ r.idxs_for_deletion }

-- The loop over the pending packets. Every error of the sending ends it.
unfoldable pub send_each : Context → ℕ → Map Packet → Consumer → Sending
send_each c channel [] s = stopped s
send_each c channel ((idx, p) ∷ ps) s =
    let rest = send_each c channel ps s in
    if not (packet_sending_permitted c s)
    then stopped s
    else if not (c.send_ibc_packet channel p)
    then stopped s
    else if is_slash p
    then one_slash c p s
    else one_more idx p rest

-- The packets that were sent, and the state.
unfoldable pub send_packets : Context → Consumer → List Packet × Consumer
unfolding send_each
send_packets c s = elim s.provider_channel [
  | none ↦ ([], s)
  | some channel ↦
      let r = send_each c channel s.pending_packets s in
      (r.sent, delete_pending_data_packets r.idxs_for_deletion r.state)
]

-- channeltypes.Acknowledgement: the bytes of a result, or an error.
pub data Acknowledgement : Type 0 where
  result : List ℕ → Acknowledgement
  error : Acknowledgement

-- The result of a slash packet: V1Result is 1, SlashPacketHandledResult 2, SlashPacketBouncedResult 3.
unfoldable pub on_slash_result : ℕ → Handler Consumer (Unit {0})
unfolding update_slash_record_on_bounce delete_head
on_slash_result byte =
    if byte == 1
    then modify (λ s. delete_head_of_pending_packets (clear_slash_record s))
    else if byte == 2
    then modify (λ s. delete_head_of_pending_packets (clear_slash_record s))
    else if byte == 3
    then update_slash_record_on_bounce
    else fail bad_acknowledgement

-- `OnAcknowledgementPacket`, with the packet that its data decodes to.
unfoldable pub on_acknowledgement_packet :
    Context → (source_channel : ℕ) → Packet → Acknowledgement → Handler Consumer (Unit {0})
unfolding on_slash_result
on_acknowledgement_packet c source_channel p (result []) = fail bad_acknowledgement
on_acknowledgement_packet c source_channel p (result (byte ∷ [])) =
    if is_slash p then on_slash_result byte else pure tt
on_acknowledgement_packet c source_channel p (result (byte ∷ b ∷ bytes)) = fail bad_acknowledgement
on_acknowledgement_packet c source_channel p error = do
  attempt (c.chan_close_init source_channel)
  found ← gets (λ s. s.provider_channel)
  channel ← or_fail found unknown_channel
  if channel != source_channel then attempt (c.chan_close_init channel) else pure tt
