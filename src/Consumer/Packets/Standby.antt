-- ===== src/Consumer/Packets/Standby.antt =====
-- While the consumer waits on a slash packet, that packet is at the head of its queue.
use interchain_security.Common.{
  ℕ, ◌+◌, ◌<◌, ◌≡◌, refl, sym, ap, ◌∙◌, subst, Bool, true, false, List, [], ◌∷◌, ◌++◌, Option, none,
  some, arith, ◌&&◌, if◌then◌else◌, inl, inr, All, All-map, All-append,
}
use interchain_security.Common.Words.{two64, add64_exact}
use interchain_security.Store
use interchain_security.Store.{Map, values}
use interchain_security.Store.Ordered.{Ascending, set-last, set-Ascending, delete_keys-Ascending}
use interchain_security.Consumer.Packets.{
  Packet, slash_packet, is_slash, Infraction, is_downtime, Consumer, Context, SlashRecord,
  send_packets, send_each, stopped, packet_sending_permitted, get_pending_packets,
  append_pending_packet, queue_slash_packet, current_index, delete_pending_data_packets,
}
use interchain_security.Consumer.Packets.Queue.{
  Split, send_packets-Split, send_packets-deletes, sent_on, first,
}

abbrev pub head_is_slash : List Packet → Bool
head_is_slash [] = false
head_is_slash (p ∷ ps) = is_slash p

-- Indexes are below a bound.
abbrev pub Below : ℕ → Map Packet → Type 0
Below n = All λ e. e.0 < n

pub record IsStandby (s : Consumer) : Type 0 where
  -- The queue is in ascending order of indexes, which the next index exceeds.
  pub ascending : Ascending s.pending_packets
  pub below : Below (current_index s.pending_packets_index) s.pending_packets
  -- A slash record stands for the slash packet at the head.
  pub standby :
      (r : SlashRecord) → s.slash_record ≡ some r → head_is_slash (get_pending_packets s) ≡ true

not_permitted :
    (c : Context) (s : Consumer) (r : SlashRecord)
    → s.slash_record ≡ some r
    → r.waiting_on_reply ≡ true
    → packet_sending_permitted c s ≡ false
not_permitted c s r e w = rw (e, w) refl

send_each-stopped :
    (c : Context) (channel : ℕ) (s : Consumer) (ps : Map Packet)
    → packet_sending_permitted c s ≡ false
    → send_each c channel ps s ≡ stopped s
unfolding send_each
send_each-stopped c channel s [] h = refl
send_each-stopped c channel s ((idx, p) ∷ ps) h = ground (arith, h)

-- While a reply is awaited, nothing is sent and nothing changes.
pub send_packets-waiting :
    (c : Context) (s : Consumer) (r : SlashRecord)
    → s.slash_record ≡ some r
    → r.waiting_on_reply ≡ true
    → send_packets c s ≡ ([], s)
unfolding send_packets Store.delete_keys
send_packets-waiting c s r e w = go s.provider_channel
  where
    stays : (channel : ℕ) → send_each c channel s.pending_packets s ≡ stopped s
    stays channel = send_each-stopped c channel s s.pending_packets (not_permitted c s r e w)

    go : (o : Option ℕ) → sent_on c s o ≡ ([], s)
    go none = refl
    go (some channel) =
        ap (λ x. (x.sent, delete_pending_data_packets x.idxs_for_deletion x.state)) (stays channel)

pub delete-Below : (n k : ℕ) (m : Map Packet) → Below n m → Below n (Store.delete k m)
unfolding Store.delete
delete-Below n k [] h = tt
delete-Below n k ((j, w) ∷ m) h = ground (arith, delete-Below n k m h.1)

delete_keys-Below :
    (n : ℕ) (ks : List ℕ) (m : Map Packet) → Below n m → Below n (Store.delete_keys ks m)
unfolding Store.delete_keys
delete_keys-Below n [] m h = h
delete_keys-Below n (k ∷ ks) m h = delete_keys-Below n ks (Store.delete k m) (delete-Below n k m h)

head_kept :
    (matured left : List Packet)
    → All (λ p. is_slash p ≡ false) matured
    → head_is_slash (matured ++ left) ≡ true
    → head_is_slash left ≡ true
head_kept [] left a h = h
head_kept (p ∷ matured) left a h = cc

first-slash :
    (left : List Packet) (p : Packet)
    → is_slash p ≡ true
    → first left ≡ some p
    → head_is_slash left ≡ true
first-slash [] p h e = cc
first-slash (q ∷ left) p h e = cc

pub Split-standby :
    (c : Context) (s s' : Consumer) (queue left sent : List Packet)
    → Split c s queue left sent s'
    → ((r : SlashRecord) → s.slash_record ≡ some r → head_is_slash queue ≡ true)
    → (r : SlashRecord) → s'.slash_record ≡ some r
    → head_is_slash left ≡ true
Split-standby c s s' queue left sent split h r e = elim split.ending [
  | inl (same, kept) ↦
      head_kept split.matured left split.none_slashes
        (subst (λ l. head_is_slash l ≡ true) split.in_order (h r (sym kept ∙ e)))
  | inr (p, (slash, (all, (head, record')))) ↦ first-slash left p slash head
]

-- `SendPackets` keeps the state of the retries sound.
pub send_packets-IsStandby :
    (c : Context) (s : Consumer) → IsStandby s → IsStandby (send_packets c s).1
send_packets-IsStandby c s h =
    let deleted = send_packets-deletes c s in
    record {
      ascending =
          subst Ascending (sym deleted.1.0)
            (delete_keys-Ascending deleted.0 s.pending_packets h.ascending);
      below =
          subst (λ n. Below (current_index n) (send_packets c s).1.pending_packets)
            (sym deleted.1.1)
            (subst (Below (current_index s.pending_packets_index)) (sym deleted.1.0) (
              delete_keys-Below (current_index s.pending_packets_index) deleted.0 s.pending_packets
                h.below));
      standby =
          Split-standby c s (send_packets c s).1 (get_pending_packets s)
            (get_pending_packets (send_packets c s).1) (send_packets c s).0
            (send_packets-Split c s h.ascending) h.standby;
    }

values-append : (m k : Map Packet) → values (m ++ k) ≡ values m ++ values k
values-append [] k = refl
values-append (e ∷ m) k = ap (λ l. e.1 ∷ l) (values-append m k)

head-append : (ps qs : List Packet) → head_is_slash ps ≡ true → head_is_slash (ps ++ qs) ≡ true
head-append [] qs h = cc
head-append (p ∷ ps) qs h = h

append_pending_packet-IsStandby :
    (p : Packet) (s : Consumer)
    → current_index s.pending_packets_index + 1 < two64
    → IsStandby s
    → IsStandby (append_pending_packet p s)
unfolding append_pending_packet
append_pending_packet-IsStandby p s fits h =
    let idx = current_index s.pending_packets_index in
    let last = set-last idx p s.pending_packets h.below in
    record {
      ascending = set-Ascending idx p s.pending_packets h.ascending;
      below =
          subst (λ n. Below n (Store.set idx p s.pending_packets)) (sym (add64_exact idx 1 fits))
            (subst (Below (idx + 1)) (sym last) (
              All-append (λ e. e.0 < idx + 1) s.pending_packets ((idx, p) ∷ [])
                (All-map _ _ (λ e b. omega arith) s.pending_packets h.below) (omega arith, tt)));
      standby = λ r e.
          subst (λ m. head_is_slash (values m) ≡ true) (sym last)
            (subst (λ l. head_is_slash l ≡ true)
              (sym (values-append s.pending_packets ((idx, p) ∷ [])))
              (head-append (values s.pending_packets) (p ∷ []) (h.standby r e)));
    }

-- `QueueSlashPacket` keeps the state of the retries sound, as long as the index counter does not overflow.
pub queue_slash_packet-IsStandby :
    (validator power valset_update_id : ℕ) (infraction : Infraction) (s : Consumer)
    → current_index s.pending_packets_index + 1 < two64
    → IsStandby s
    → IsStandby (queue_slash_packet validator power valset_update_id infraction s)
unfolding queue_slash_packet
queue_slash_packet-IsStandby validator power id infraction s fits h =
    turn (is_downtime infraction) (Store.has validator s.outstanding_downtime)
  where
    p : Packet
    p = slash_packet validator power id infraction

    turn :
        (downtime outstanding : Bool)
        → IsStandby (
            if downtime && outstanding
            then s
            else append_pending_packet p (
                if downtime
                then record s {
                  outstanding_downtime = Store.set validator tt s.outstanding_downtime;
                }
                else s))
    turn true true = h
    turn true false =
        append_pending_packet-IsStandby p
          (record s { outstanding_downtime = Store.set validator tt s.outstanding_downtime }) fits
          (record { ascending = h.ascending; below = h.below; standby = h.standby })
    turn false true = append_pending_packet-IsStandby p s fits h
    turn false false = append_pending_packet-IsStandby p s fits h
