-- ===== src/Consumer/Packets/Replies.antt =====
-- What the replies to slash packets do to the queue.
use interchain_security.Common.{
  ℕ, ◌≡◌, refl, sym, ap, subst, Bool, true, false, [], ◌∷◌, Option, none, some, ◌==◌, ◌!=◌,
  if◌then◌else◌, inl, inr, ◌⊎◌,
}
use interchain_security.Common.Outcome.{
  Outcome, ok, panic, Handler, modify, fail, pure, attempt, bad_acknowledgement, unknown_channel,
}
use interchain_security.Store.{Map, values}
use interchain_security.Store.Ordered.{Above, Ascending, delete-first}
use interchain_security.Consumer.Packets.{
  Packet, slash_packet, vsc_matured_packet, is_slash, Consumer, Context, SlashRecord,
  Acknowledgement, result, error, set_slash_record, packet_sending_permitted, get_pending_packets,
  current_index, delete_head, on_slash_result, on_acknowledgement_packet,
  update_slash_record_on_bounce, clear_slash_record, delete_head_of_pending_packets,
}
use interchain_security.Consumer.Packets.Standby.{head_is_slash, Below, IsStandby, delete-Below}
use interchain_security.Common.ReadOnly.{after_attempt, after_or_fail}

delete_head-first :
    (idx : ℕ) (p : Packet) (m : Map Packet) → Above idx m → delete_head ((idx, p) ∷ m) ≡ m
unfolding delete_head
delete_head-first idx p m a = delete-first idx p m a

-- A handled slash packet is taken off the head of the queue, and nothing else is.
removed :
    (m : Map Packet)
    → Ascending m
    → head_is_slash (values m) ≡ true
    → (q : Packet) × ((is_slash q ≡ true) × (values m ≡ q ∷ values (delete_head m)))
removed [] a h = cc
removed ((idx, p) ∷ m) a h = (p, (h, ap (λ l. p ∷ values l) (sym (delete_head-first idx p m a.0))))

cleared-IsStandby :
    (s : Consumer) → IsStandby s → IsStandby (delete_head_of_pending_packets (clear_slash_record s))
unfolding delete_head
cleared-IsStandby s h = record {
  ascending = delete_head-Ascending s.pending_packets h.ascending;
  below = delete_head-Below s.pending_packets h.below;
  standby = λ r e. cc;
}
  where
    delete_head-Ascending : (m : Map Packet) → Ascending m → Ascending (delete_head m)
    delete_head-Ascending [] a = a
    delete_head-Ascending ((idx, p) ∷ m) a =
        subst Ascending (sym (delete_head-first idx p m a.0)) a.1

    delete_head-Below :
        (m : Map Packet)
        → Below (current_index s.pending_packets_index) m
        → Below (current_index s.pending_packets_index) (delete_head m)
    delete_head-Below [] b = tt
    delete_head-Below ((idx, p) ∷ m) b =
        delete-Below (current_index s.pending_packets_index) idx ((idx, p) ∷ m) b

bounced-IsStandby : (s : Consumer) → IsStandby s → IsStandby (update_slash_record_on_bounce s).1
unfolding update_slash_record_on_bounce
bounced-IsStandby s h = go s.slash_record refl
  where
    go :
        (o : Option SlashRecord)
        → s.slash_record ≡ o
        → IsStandby
            (elim o as (λ x. Outcome (Unit {0}) × Consumer) [
              | none ↦ (panic, s)
              | some r ↦ (ok tt, set_slash_record (record r { waiting_on_reply = false }) s)
            ]).1
    go none e = h
    go (some r) e = record {
      ascending = h.ascending;
      below = h.below;
      standby = λ r' e'. h.standby r e;
    }

on_slash_result-IsStandby :
    (byte : ℕ) (s : Consumer) → IsStandby s → IsStandby (on_slash_result byte s).1
unfolding on_slash_result
on_slash_result-IsStandby byte s h = turn (byte == 1) (byte == 2) (byte == 3)
  where
    clear : Handler Consumer (Unit {0})
    clear = modify λ t. delete_head_of_pending_packets (clear_slash_record t)

    turn :
        (x y z : Bool)
        → IsStandby
            ((if x
                then clear
                else if y
                then clear
                else if z
                then update_slash_record_on_bounce
                else fail bad_acknowledgement)
              s).1
    turn true y z = cleared-IsStandby s h
    turn false true z = cleared-IsStandby s h
    turn false false true = bounced-IsStandby s h
    turn false false false = h

-- Every acknowledgement keeps the state of the retries sound, whatever it says.
pub on_acknowledgement_packet-IsStandby :
    (c : Context) (source_channel : ℕ) (p : Packet) (ack : Acknowledgement) (s : Consumer)
    → IsStandby s
    → IsStandby (on_acknowledgement_packet c source_channel p ack s).1
unfolding on_acknowledgement_packet
on_acknowledgement_packet-IsStandby c ch p (result []) s h = h
on_acknowledgement_packet-IsStandby c ch (slash_packet v w u i) (result (byte ∷ [])) s h =
    on_slash_result-IsStandby byte s h
on_acknowledgement_packet-IsStandby c ch (vsc_matured_packet u) (result (byte ∷ [])) s h = h
on_acknowledgement_packet-IsStandby c ch p (result (byte ∷ b ∷ bytes)) s h = h
on_acknowledgement_packet-IsStandby c ch p error s h =
    let Q : Outcome (Unit {0}) × Consumer → Type 0 = λ r. IsStandby r.1 in
    after_attempt Q s (λ r e. h) (c.chan_close_init ch) _
      λ u.
        after_or_fail Q s (λ r e. h) s.provider_channel unknown_channel _
          λ channel. close (channel != ch) channel
  where
    close :
        (b : Bool) (channel : ℕ)
        → IsStandby ((if b then attempt (c.chan_close_init channel) else pure tt) s).1
    close true channel = h
    close false channel = h

on_slash_result-clears :
    (byte : ℕ) (s : Consumer)
    → (byte ≡ 1) ⊎ (byte ≡ 2)
    → on_slash_result byte s ≡ (ok tt, delete_head_of_pending_packets (clear_slash_record s))
unfolding on_slash_result
on_slash_result-clears byte s (inl one) = rw (one) refl
on_slash_result-clears byte s (inr two) = rw (two) refl

-- A reply that the awaited slash packet was handled, by either version of the provider, takes exactly that
-- packet off the queue and lets the consumer send again.
pub on_acknowledgement_packet-handled :
    (c : Context) (source_channel : ℕ) (p : Packet) (byte : ℕ) (s : Consumer) (r : SlashRecord)
    → IsStandby s
    → s.slash_record ≡ some r
    → is_slash p ≡ true
    → (byte ≡ 1) ⊎ (byte ≡ 2)
    → (let s' = (on_acknowledgement_packet c source_channel p (result (byte ∷ [])) s).1 in
        (q : Packet) × ((is_slash q ≡ true)
          × ((get_pending_packets s ≡ q ∷ get_pending_packets s')
              × (packet_sending_permitted c s' ≡ true))))
unfolding on_acknowledgement_packet
on_acknowledgement_packet-handled c ch (slash_packet v w u i) byte s r h e k b =
    subst
      (λ x.
        (q : Packet) × ((is_slash q ≡ true)
          × ((get_pending_packets s ≡ q ∷ get_pending_packets x.1)
              × (packet_sending_permitted c x.1 ≡ true))))
      (sym (on_slash_result-clears byte s b))
      (let q = removed s.pending_packets h.ascending (h.standby r e) in
        (q.0, (q.1.0, (q.1.1, refl))))
on_acknowledgement_packet-handled c ch (vsc_matured_packet u) byte s r h e k b = cc
