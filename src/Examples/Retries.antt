-- ===== src/Examples/Retries.antt =====
-- A consumer that reports a downtime: the slash packet is sent, bounced, sent again and handled.
use interchain_security.Common.{ℕ, ◌≡◌, refl, true, [], ◌∷◌, none, some, arith, inr}
use interchain_security.Common.Outcome.{ok}
use interchain_security.Store
use interchain_security.Consumer.Packets.{
  Packet, slash_packet, vsc_matured_packet, is_slash, Infraction, Consumer, Context, result,
  packet_sending_permitted, send_packets, get_pending_packets, queue_slash_packet,
  on_acknowledgement_packet,
}
use interchain_security.Consumer.Packets.Queue.{Split, send_packets-Split}
use interchain_security.Consumer.Packets.Standby.{IsStandby, send_packets-waiting}
use interchain_security.Consumer.Packets.Replies.{on_acknowledgement_packet-handled}
use interchain_security.Consumer.Packets.History.{
  new_consumer, Lived, fresh, lives, sends, queues, hears, Lived-IsStandby,
}

abbrev at : ℕ → Context
at t = record {
  time = t;
  retry_delay_period = 60;
  send_ibc_packet = λ channel p. true;
  chan_close_init = λ channel. ok tt;
}

abbrev report : Packet
report = slash_packet 7 10 3 Infraction.downtime

-- The packet waits in the queue, with a VSCMatured packet of an older version before it.
abbrev queued : Consumer
queued = record (new_consumer (some 0)) {
  pending_packets = (0, vsc_matured_packet 2) ∷ (1, report) ∷ [];
  pending_packets_index = some 2;
  outstanding_downtime = (7, tt) ∷ [];
}

abbrev waiting : Consumer
waiting = record queued {
  pending_packets = (1, report) ∷ [];
  slash_record = some (record { send_time = 100; waiting_on_reply = true });
}

sent_in_order : send_packets (at 100) queued ≡ (vsc_matured_packet 2 ∷ report ∷ [], waiting)
unfolding send_packets Store.delete_keys Store.delete
sent_in_order = refl

handled :
    (on_acknowledgement_packet (at 105) 0 report (result (2 ∷ [])) waiting).1
    ≡ record waiting { pending_packets = []; slash_record = none }
unfolding on_acknowledgement_packet Store.delete
handled = refl

send_packets-Split_example :
    Split
      (at 100)
      queued
      (get_pending_packets queued)
      (get_pending_packets (send_packets (at 100) queued).1)
      (send_packets (at 100) queued).0
      (send_packets (at 100) queued).1
send_packets-Split_example = send_packets-Split (at 100) queued (omega arith)

send_packets-waiting_example : send_packets (at 200) waiting ≡ ([], waiting)
send_packets-waiting_example =
    send_packets-waiting (at 200) waiting (record { send_time = 100; waiting_on_reply = true }) refl
      refl

waiting-IsStandby : IsStandby waiting
waiting-IsStandby = record { ascending = omega arith; below = omega arith; standby = λ r e. refl }

on_acknowledgement_packet-handled_example :
    (q : Packet) × ((is_slash q ≡ true)
      × ((get_pending_packets waiting
            ≡ q
              ∷ get_pending_packets
                  (on_acknowledgement_packet (at 105) 0 report (result (2 ∷ [])) waiting).1)
          × (packet_sending_permitted
                (at 105)
                (on_acknowledgement_packet (at 105) 0 report (result (2 ∷ [])) waiting).1
              ≡ true)))
on_acknowledgement_packet-handled_example =
    on_acknowledgement_packet-handled (at 105) 0 report 2 waiting
      (record { send_time = 100; waiting_on_reply = true }) waiting-IsStandby refl refl (inr refl)

-- The state in which the packet was queued, sent and bounced.
abbrev reported : Consumer
reported = queue_slash_packet 7 10 3 Infraction.downtime (new_consumer (some 0))

abbrev bounced : Consumer
bounced =
    (on_acknowledgement_packet (at 105) 0 report (result (3 ∷ []))
      (send_packets (at 100) reported).1).1

bounced-Lived : Lived (some 0) bounced
bounced-Lived =
    lives
      (lives (lives fresh (queues 7 10 3 Infraction.downtime (new_consumer (some 0)) (omega arith)))
        (sends (at 100) reported))
      (hears (at 105) 0 report (result (3 ∷ [])) (send_packets (at 100) reported).1)

Lived-IsStandby_example : IsStandby bounced
Lived-IsStandby_example = Lived-IsStandby (some 0) bounced bounced-Lived
