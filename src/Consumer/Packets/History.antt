-- ===== src/Consumer/Packets/History.antt =====
-- Any history of a consumer's packets: queueing, sending, and acknowledgements in any order.
use interchain_security.Common.{ℕ, ◌+◌, ◌<◌, Option, none, []}
use interchain_security.Common.Words.{two64}
use interchain_security.Consumer.Packets.{
  Packet, Infraction, Consumer, Context, Acknowledgement, send_packets, queue_slash_packet,
  on_acknowledgement_packet, current_index,
}
use interchain_security.Consumer.Packets.Standby.{
  IsStandby, send_packets-IsStandby, queue_slash_packet-IsStandby,
}
use interchain_security.Consumer.Packets.Replies.{on_acknowledgement_packet-IsStandby}

-- A consumer without packets.
abbrev pub new_consumer : Option ℕ → Consumer
new_consumer channel = record {
  provider_channel = channel;
  slash_record = none;
  pending_packets = [];
  pending_packets_index = none;
  outstanding_downtime = [];
}

-- One operation on the packets. Packets are queued while the index counter is below its last value.
pub data Operation : Consumer → Consumer → Type 0 where
  sends : (c : Context) (s : Consumer) → Operation s (send_packets c s).1
  queues :
      (validator power valset_update_id : ℕ) (infraction : Infraction) (s : Consumer)
      → current_index s.pending_packets_index + 1 < two64
      → Operation s (queue_slash_packet validator power valset_update_id infraction s)
  hears :
      (c : Context) (source_channel : ℕ) (p : Packet) (ack : Acknowledgement) (s : Consumer)
      → Operation s (on_acknowledgement_packet c source_channel p ack s).1

-- The states that operations lead to from a new consumer.
pub data Lived (channel : Option ℕ) : Consumer → Type 0 where
  fresh : Lived channel (new_consumer channel)
  lives : {s s' : Consumer} → Lived channel s → Operation s s' → Lived channel s'

Operation-IsStandby : {s s' : Consumer} → Operation s s' → IsStandby s → IsStandby s'
Operation-IsStandby (sends c s) h = send_packets-IsStandby c s h
Operation-IsStandby (queues v p u i s fits) h = queue_slash_packet-IsStandby v p u i s fits h
Operation-IsStandby (hears c ch p ack s) h = on_acknowledgement_packet-IsStandby c ch p ack s h

-- After any sequence of queueing, sending and acknowledgements from a new consumer, as long as
-- the 64-bit index counter is not used up: if there is a slash record, the packet at the head of the
-- queue is a slash packet, and the queue is in ascending order of indexes below the next one.
pub Lived-IsStandby : (channel : Option ℕ) (s : Consumer) → Lived channel s → IsStandby s
Lived-IsStandby channel s fresh = record { ascending = tt; below = tt; standby = λ r e. cc }
Lived-IsStandby channel s' (lives {s} l op) = Operation-IsStandby op (Lived-IsStandby channel s l)
