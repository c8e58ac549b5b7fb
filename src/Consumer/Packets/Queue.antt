-- ===== src/Consumer/Packets/Queue.antt =====
-- `SendPackets` sends the pending packets in the order of the queue and keeps a slash packet at its head.
use interchain_security.Common.{
  ℕ, ◌≡◌, refl, sym, ap, subst, Bool, true, false, not, List, [], ◌∷◌, ◌++◌, Option, none, some,
  if◌then◌else◌, inl, inr, ◌⊎◌, All,
}
use interchain_security.Store
use interchain_security.Store.{Map, values}
use interchain_security.Store.Ordered.{Above, Ascending, delete-first}
use interchain_security.Consumer.Packets.{
  Packet, is_slash, Consumer, Context, Sending, stopped, one_slash, one_more, send_each,
  send_packets, packet_sending_permitted, delete_pending_data_packets, get_pending_packets,
}

abbrev pub first : List Packet → Option Packet
first [] = none
first (p ∷ ps) = some p

-- How the sending from a queue ends: `matured` were sent and leave the queue; nothing else was sent, or the
-- slash packet that is now at the head of the queue, with the reply awaited from now on.
pub record Split (c : Context) (s : Consumer) (queue left sent : List Packet) (s' : Consumer)
    : Type 0 where
  pub matured : List Packet
  pub none_slashes : All (λ p. is_slash p ≡ false) matured
  pub in_order : queue ≡ matured ++ left
  pub ending :
      ((sent ≡ matured) × (s'.slash_record ≡ s.slash_record))
      ⊎ ((p : Packet) × ((is_slash p ≡ true)
            × ((sent ≡ matured ++ p ∷ [])
                × ((first left ≡ some p)
                    × (s'.slash_record
                        ≡ some (record { send_time = c.time; waiting_on_reply = true }))))))

abbrev pub queue_of : Consumer → Map Packet × Option ℕ
queue_of t = (t.pending_packets, t.pending_packets_index)

module _ (c : Context) (channel : ℕ) (s : Consumer) where
  abbrev SplitOf : Map Packet → Sending → Type 0
  SplitOf ps r =
      Split c s (values ps) (values (Store.delete_keys r.idxs_for_deletion ps)) r.sent r.state

  stopped-SplitOf : (ps : Map Packet) → SplitOf ps (stopped s)
  unfolding Store.delete_keys
  stopped-SplitOf ps = record {
    matured = [];
    none_slashes = tt;
    in_order = refl;
    ending = inl (refl, refl);
  }

  one_slash-SplitOf :
      (idx : ℕ) (p : Packet) (ps : Map Packet)
      → is_slash p ≡ true
      → SplitOf ((idx, p) ∷ ps) (one_slash c p s)
  unfolding Store.delete_keys
  one_slash-SplitOf idx p ps h = record {
    matured = [];
    none_slashes = tt;
    in_order = refl;
    ending = inr (p, (h, (refl, (refl, refl))));
  }

  one_more-SplitOf :
      (idx : ℕ) (p : Packet) (ps : Map Packet) (r : Sending)
      → is_slash p ≡ false
      → Above idx ps
      → SplitOf ps r
      → SplitOf ((idx, p) ∷ ps) (one_more idx p r)
  unfolding Store.delete_keys
  one_more-SplitOf idx p ps r h a split =
      subst
        (λ m.
          Split c s (p ∷ values ps) (values (Store.delete_keys r.idxs_for_deletion m)) (p ∷ r.sent)
            r.state)
        (sym (delete-first idx p ps a))
        record {
          matured = p ∷ split.matured;
          none_slashes = (h, split.none_slashes);
          in_order = ap (λ l. p ∷ l) split.in_order;
          ending = elim split.ending [
            | inl (e, e') ↦ inl (ap (λ l. p ∷ l) e, e')
            | inr (q, (k, (e, rest))) ↦ inr (q, (k, (ap (λ l. p ∷ l) e, rest)))
          ];
        }

  send_each-SplitOf : (ps : Map Packet) → Ascending ps → SplitOf ps (send_each c channel ps s)
  unfolding send_each
  send_each-SplitOf [] a = stopped-SplitOf []
  send_each-SplitOf ((idx, p) ∷ ps) a =
      turn (not (packet_sending_permitted c s)) (not (c.send_ibc_packet channel p)) (is_slash p)
        refl (send_each-SplitOf ps a.1)
    where
      turn :
          (x y z : Bool)
          → is_slash p ≡ z
          → SplitOf ps (send_each c channel ps s)
          → SplitOf ((idx, p) ∷ ps) (
              if x
              then stopped s
              else if y
              then stopped s
              else if z
              then one_slash c p s
              else one_more idx p (send_each c channel ps s))
      turn true y z h rest = stopped-SplitOf ((idx, p) ∷ ps)
      turn false true z h rest = stopped-SplitOf ((idx, p) ∷ ps)
      turn false false true h rest = one_slash-SplitOf idx p ps h
      turn false false false h rest =
          one_more-SplitOf idx p ps (send_each c channel ps s) h a.0 rest

  -- The loop leaves the queue to the deletion after it.
  send_each-queue_of : (ps : Map Packet) → queue_of (send_each c channel ps s).state ≡ queue_of s
  unfolding send_each
  send_each-queue_of [] = refl
  send_each-queue_of ((idx, p) ∷ ps) =
      turn (not (packet_sending_permitted c s)) (not (c.send_ibc_packet channel p)) (is_slash p)
        (send_each-queue_of ps)
    where
      turn :
          (x y z : Bool)
          → queue_of (send_each c channel ps s).state ≡ queue_of s
          → queue_of
              (if x
                then stopped s
                else if y
                then stopped s
                else if z
                then one_slash c p s
                else one_more idx p (send_each c channel ps s)).state
            ≡ queue_of s
      turn true y z rest = refl
      turn false true z rest = refl
      turn false false true rest = refl
      turn false false false rest = rest

-- `SendPackets` on the channel, if there is one.
abbrev pub sent_on : Context → Consumer → Option ℕ → List Packet × Consumer
sent_on c s none = ([], s)
sent_on c s (some channel) =
    let r = send_each c channel s.pending_packets s in
    (r.sent, delete_pending_data_packets r.idxs_for_deletion r.state)

-- From a queue in ascending order of indexes, `SendPackets` sends packets in the order of the queue: first VSCMatured
-- packets, which leave the queue, and then at most one slash packet, which stays at the head of the
-- queue and whose reply is awaited from now on. All other packets stay in the queue in their order.
pub send_packets-Split :
    (c : Context) (s : Consumer)
    → Ascending s.pending_packets
    → Split c s
        (get_pending_packets s)
        (get_pending_packets (send_packets c s).1)
        (send_packets c s).0
        (send_packets c s).1
unfolding send_packets
send_packets-Split c s a = go s.provider_channel
  where
    go :
        (o : Option ℕ)
        → Split c s
            (get_pending_packets s)
            (get_pending_packets (sent_on c s o).1)
            (sent_on c s o).0
            (sent_on c s o).1
    go none = record { matured = []; none_slashes = tt; in_order = refl; ending = inl (refl, refl) }
    go (some channel) =
        let r = send_each c channel s.pending_packets s in
        let split = send_each-SplitOf c channel s s.pending_packets a in
        subst
          (λ m.
            Split c s (get_pending_packets s) (values (Store.delete_keys r.idxs_for_deletion m))
              r.sent (record r.state { pending_packets = Store.delete_keys r.idxs_for_deletion m }))
          (sym (ap (λ x. x.0) (send_each-queue_of c channel s s.pending_packets)))
          record {
            matured = split.matured;
            none_slashes = split.none_slashes;
            in_order = split.in_order;
            ending = split.ending;
          }

-- `SendPackets` only deletes pending packets.
pub send_packets-deletes :
    (c : Context) (s : Consumer)
    → (idxs : List ℕ) × (((send_packets c s).1.pending_packets
          ≡ Store.delete_keys idxs s.pending_packets)
        × ((send_packets c s).1.pending_packets_index ≡ s.pending_packets_index))
unfolding send_packets Store.delete_keys
send_packets-deletes c s = go s.provider_channel
  where
    go :
        (o : Option ℕ)
        → (idxs : List ℕ) × (((sent_on c s o).1.pending_packets
              ≡ Store.delete_keys idxs s.pending_packets)
            × ((sent_on c s o).1.pending_packets_index ≡ s.pending_packets_index))
    go none = ([], (refl, refl))
    go (some channel) =
        let r = send_each c channel s.pending_packets s in
        let same = send_each-queue_of c channel s s.pending_packets in
        (
          r.idxs_for_deletion,
          (ap (λ x. Store.delete_keys r.idxs_for_deletion x.0) same, ap (λ x. x.1) same),
        )
