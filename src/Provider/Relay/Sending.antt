-- ===== src/Provider/Relay/Sending.antt =====
-- What the loop of `SendVSCPacketsToChain` sends, and what stopping a chain changes.
use mathlib.Core.List.{append-nil, append_assoc}
use interchain_security.Common.{
  ℕ, ◌≡◌, ◌≢◌, ◌⊎◌, refl, sym, ap, ◌∙◌, false, List, [], ◌∷◌, ◌++◌, map, Option, none, some, arith,
  ◌==◌, inl, inr, Bool-cases,
}
use interchain_security.Common.Outcome.{Outcome-cases}
use interchain_security.Updates.{apply_updates}
use interchain_security.Provider.Phase.{is_launched}
use interchain_security.Provider.Staking.{Staking, Block}
use interchain_security.Provider.Ibc.{
  Ibc, SendResult, accepted, client_not_active, failed, send_ibc_packet,
}
use interchain_security.Provider.Lifecycle.Removal.{stop_and_prepare_for_consumer_removal}
use interchain_security.Provider.Consumers.{
  VscPacket, Consumer, SentPacket, Provider, clear_packets,
}
use interchain_security.Provider.Relay.{log_sent, send_each}
use interchain_security.Provider.Relay.Told.{
  InSync, told, genesis_updates, on_channel, on_channel-append, packet_updates,
  packet_updates-append,
}

abbrev pub logged : ℕ → ℕ → VscPacket → SentPacket
logged channel timeout p = record { channel = channel; packet = p; timeout = timeout }

on_channel-logged :
    (channel timeout : ℕ) (ps : List VscPacket)
    → on_channel (some channel) (map (logged channel timeout) ps) ≡ ps
on_channel-logged channel timeout [] = refl
on_channel-logged channel timeout (p ∷ ps) = ground (arith, on_channel-logged channel timeout ps)

-- A packet on another channel is not for the chain.
on_channel-other :
    (o : Option ℕ) (channel timeout : ℕ) (ps : List VscPacket)
    → o ≢ some channel
    → on_channel o (map (logged channel timeout) ps) ≡ []
on_channel-other none channel timeout ps h = refl
on_channel-other (some j) channel timeout [] h = refl
on_channel-other (some j) channel timeout (p ∷ ps) h = elim (Bool-cases (channel == j)) [
  | inl same ↦ absurd (h (ap some (ground arith)))
  | inr other ↦ rw (other) (on_channel-other (some j) channel timeout ps h)
]

pub result-cases : (r : SendResult) → (r ≡ accepted) ⊎ ((r ≡ client_not_active) ⊎ (r ≡ failed))
result-cases accepted = inl refl
result-cases client_not_active = inr (inl refl)
result-cases failed = inr (inr refl)

module _ (i : Ibc) (channel timeout : ℕ) where
  -- The packets that are accepted before the first that is not.
  abbrev pub taken : List VscPacket → List VscPacket
  taken [] = []
  taken (p ∷ ps) = elim (send_ibc_packet i channel p) [
    | accepted ↦ p ∷ taken ps
    | client_not_active ↦ []
    | failed ↦ []
  ]

  pub send_each-sent :
      (ps : List VscPacket) (s : Provider)
      → (send_each i channel timeout ps s).1.sent
        ≡ s.sent ++ map (logged channel timeout) (taken ps)
  unfolding send_each
  send_each-sent [] s = sym (append-nil s.sent)
  send_each-sent (p ∷ ps) s = elim (result-cases (send_ibc_packet i channel p)) [
    | inl e' ↦
        rw (e', send_each, taken)
          (send_each-sent ps (log_sent channel timeout p s)
            ∙ append_assoc s.sent (logged channel timeout p ∷ [])
                (map (logged channel timeout) (taken ps)))
    | inr (inl e') ↦ rw (e', send_each, taken) (sym (append-nil s.sent))
    | inr (inr e') ↦ rw (e', send_each, taken) (sym (append-nil s.sent))
  ]

  pub send_each-consumers :
      (ps : List VscPacket) (s : Provider)
      → (send_each i channel timeout ps s).1.consumers ≡ s.consumers
  unfolding send_each
  send_each-consumers [] s = refl
  send_each-consumers (p ∷ ps) s = elim (result-cases (send_ibc_packet i channel p)) [
    | inl e' ↦ rw (e', send_each) (send_each-consumers ps (log_sent channel timeout p s))
    | inr (inl e') ↦ rw (e', send_each) refl
    | inr (inr e') ↦ rw (e', send_each) refl
  ]

  pub send_each-accepted :
      (ps : List VscPacket) (s : Provider)
      → (send_each i channel timeout ps s).0 ≡ accepted
      → taken ps ≡ ps
  unfolding send_each
  send_each-accepted [] s e = refl
  send_each-accepted (p ∷ ps) s e = elim (result-cases (send_ibc_packet i channel p)) [
    | inl e' ↦ ground (arith, e, e', send_each-accepted ps (log_sent channel timeout p s))
    | inr (inl e') ↦ ground (arith, e, e')
    | inr (inr e') ↦ ground (arith, e, e')
  ]

  send_each-some_inactive :
      (ps : List VscPacket) (s : Provider)
      → (send_each i channel timeout ps s).0 ≡ client_not_active
      → (q : VscPacket) × (send_ibc_packet i channel q ≡ client_not_active)
  unfolding send_each
  send_each-some_inactive [] s e = cc
  send_each-some_inactive (p ∷ ps) s e = elim (result-cases (send_ibc_packet i channel p)) [
    | inl e' ↦ send_each-some_inactive ps (log_sent channel timeout p s) (ground (arith, e, e'))
    | inr (inl e') ↦ (p, e')
    | inr (inr e') ↦ absurd (ground (arith, e, e'))
  ]

  -- A client does not expire between two packets.
  pub send_each-inactive :
      ((p q : VscPacket)
        → send_ibc_packet i channel p ≡ client_not_active
        → send_ibc_packet i channel q ≡ client_not_active)
      → (ps : List VscPacket) (s : Provider)
      → (send_each i channel timeout ps s).0 ≡ client_not_active
      → taken ps ≡ []
  unfolding send_each
  send_each-inactive steady [] s e = refl
  send_each-inactive steady (p ∷ ps) s e = elim (result-cases (send_ibc_packet i channel p)) [
    | inl e' ↦
        let found =
          send_each-some_inactive ps (log_sent channel timeout p s) (ground (arith, e, e')) in
        ground (arith, e', steady found.0 p found.1)
    | inr (inl e') ↦ ground (arith, e')
    | inr (inr e') ↦ ground (arith, e')
  ]

-- Nothing is sent on a channel of its own to another chain.
abbrev pub OneChannel : Provider → Type 0
OneChannel s =
    (j k channel : ℕ)
    → (s.consumers j).channel ≡ some channel
    → (s.consumers k).channel ≡ some channel
    → j ≡ k

-- A client does not expire between two packets of a block.
abbrev pub Steady : Ibc → Type 0
Steady i =
    (channel : ℕ) (p q : VscPacket)
    → send_ibc_packet i channel p ≡ client_not_active
    → send_ibc_packet i channel q ≡ client_not_active

-- More packets on the chain's channel.
told-more :
    (sent : List SentPacket) (channel timeout : ℕ) (ps : List VscPacket) (c : Consumer) (key : ℕ)
    → c.channel ≡ some channel
    → told (sent ++ map (logged channel timeout) ps) c key
      ≡ apply_updates (packet_updates ps) (told sent c) key
told-more sent channel timeout ps c key e =
    let first = apply_updates (genesis_updates c.genesis) (λ k. 0) in
    ap (λ xs. apply_updates (packet_updates xs) first key)
      (on_channel-append c.channel sent (map (logged channel timeout) ps)
        ∙ ap (λ o. on_channel c.channel sent ++ on_channel o (map (logged channel timeout) ps)) e
        ∙ ap (λ xs. on_channel c.channel sent ++ xs) (on_channel-logged channel timeout ps))
    ∙ packet_updates-append (on_channel c.channel sent) ps first key

-- And on that of another chain.
told-other :
    (sent : List SentPacket) (channel timeout : ℕ) (ps : List VscPacket) (c : Consumer)
    → c.channel ≢ some channel
    → told (sent ++ map (logged channel timeout) ps) c ≡ told sent c
told-other sent channel timeout ps c h =
    ap
      (λ xs. apply_updates (packet_updates xs) (apply_updates (genesis_updates c.genesis) (λ k. 0)))
      (on_channel-append c.channel sent (map (logged channel timeout) ps)
        ∙ ap (λ xs. on_channel c.channel sent ++ xs)
            (on_channel-other c.channel channel timeout ps h)
        ∙ append-nil (on_channel c.channel sent))

pub InSync-other :
    (sent : List SentPacket) (channel timeout : ℕ) (ps : List VscPacket) (c : Consumer)
    → c.channel ≢ some channel
    → InSync sent c
    → InSync (sent ++ map (logged channel timeout) ps) c
InSync-other sent channel timeout ps c h sync key =
    ap (λ f. apply_updates (packet_updates c.pending_vsc_packets) f key)
      (told-other sent channel timeout ps c h)
    ∙ sync key

pub InSync-sent :
    (sent : List SentPacket) (channel timeout : ℕ) (c : Consumer)
    → c.channel ≡ some channel
    → InSync sent c
    → InSync (sent ++ map (logged channel timeout) c.pending_vsc_packets) (clear_packets c)
InSync-sent sent channel timeout c e sync key =
    told-more sent channel timeout c.pending_vsc_packets c key e ∙ sync key

-- What becomes of the chain that is stopped, and that the others stay.
pub stopped-chain :
    (k : Staking) (b : Block) (id : ℕ) (s : Provider)
    → let s' = (stop_and_prepare_for_consumer_removal k b id s).1 in
      ((s'.consumers id).chain.keys ≡ (s.consumers id).chain.keys)
      × (is_launched (s'.consumers id).chain.phase ≡ false)
      × (s'.sent ≡ s.sent)
      × ((s'.consumers id).channel ≡ (s.consumers id).channel)
unfolding stop_and_prepare_for_consumer_removal
stopped-chain k b id s = elim (Outcome-cases k.unbonding_time) [
  | inl (period, e) ↦ rw (e) (ground arith, ground arith, refl, ground arith)
  | inr (inl (x, e)) ↦ rw (e) (ground arith, ground arith, refl, ground arith)
  | inr (inr e) ↦ rw (e) (ground arith, ground arith, refl, ground arith)
]

pub stopped-others :
    (k : Staking) (b : Block) (id j : ℕ) (s : Provider)
    → (j == id) ≡ false
    → (stop_and_prepare_for_consumer_removal k b id s).1.consumers j ≡ s.consumers j
unfolding stop_and_prepare_for_consumer_removal
stopped-others k b id j s other = elim (Outcome-cases k.unbonding_time) [
  | inl (period, e) ↦ rw (e, other) refl
  | inr (inl (x, e)) ↦ rw (e, other) refl
  | inr (inr e) ↦ rw (e, other) refl
]
