-- ===== src/Provider/Relay/Told.antt =====
-- What a consumer chain was told about its validators, and that what is pending completes it.
use interchain_security.Common.{
  ℕ, ◌≡◌, refl, sym, ap, ◌∙◌, List, [], ◌∷◌, ◌++◌, Option, none, some, arith, ◌==◌, if◌then◌else◌,
}
use interchain_security.Updates.{ValidatorUpdate, Powers, apply_updates, apply_updates-append}
use interchain_security.Consumer.Changes.Accumulate.{apply_updates-cong}
use interchain_security.Provider.Chain.{Chain}
use interchain_security.Provider.ValidatorSet.{get_val_set}
use interchain_security.Provider.ValidatorSet.Diff.{powers}
use interchain_security.Provider.Consumers.{
  VscPacket, Genesis, Consumer, SentPacket, append_packet, clear_acks,
}

-- The updates of packets in their order.
abbrev pub packet_updates : List VscPacket → List ValidatorUpdate
packet_updates [] = []
packet_updates (p ∷ ps) = p.validator_updates ++ packet_updates ps

-- The packets that IBC accepted on a channel, in their order.
abbrev pub on_channel : Option ℕ → List SentPacket → List VscPacket
on_channel none sent = []
on_channel (some channel) [] = []
on_channel (some channel) (x ∷ sent) =
    let rest = on_channel (some channel) sent in
    if x.channel == channel then x.packet ∷ rest else rest

abbrev pub genesis_updates : Option Genesis → List ValidatorUpdate
genesis_updates none = []
genesis_updates (some g) = g.initial_val_set

-- The powers that a consumer chain has once it has handled its genesis and all packets on its channel.
abbrev pub told : List SentPacket → Consumer → Powers
told sent c =
    apply_updates (packet_updates (on_channel c.channel sent))
      (apply_updates (genesis_updates c.genesis) (λ k. 0))

-- With the pending packets it has the powers of the set that the provider stores for it.
abbrev pub InSync : List SentPacket → Consumer → Type 0
InSync sent c =
    (key : ℕ)
    → apply_updates (packet_updates c.pending_vsc_packets) (told sent c) key
      ≡ powers (get_val_set c.chain.val_set) key

pub packet_updates-append :
    (ps qs : List VscPacket) (f : Powers) (key : ℕ)
    → apply_updates (packet_updates (ps ++ qs)) f key
      ≡ apply_updates (packet_updates qs) (apply_updates (packet_updates ps) f) key
packet_updates-append [] qs f key = refl
packet_updates-append (p ∷ ps) qs f key =
    ap (λ g. g key) (apply_updates-append p.validator_updates (packet_updates (ps ++ qs)) f)
    ∙ packet_updates-append ps qs (apply_updates p.validator_updates f) key
    ∙ sym (
        ap (λ g. apply_updates (packet_updates qs) g key)
          (apply_updates-append p.validator_updates (packet_updates ps) f))

pub one_packet :
    (p : VscPacket) (f : Powers) (key : ℕ)
    → apply_updates (packet_updates (p ∷ [])) f key ≡ apply_updates p.validator_updates f key
one_packet p f key = ap (λ g. g key) (apply_updates-append p.validator_updates [] f)

pub on_channel-append :
    (o : Option ℕ) (sent more : List SentPacket)
    → on_channel o (sent ++ more) ≡ on_channel o sent ++ on_channel o more
on_channel-append none sent more = refl
on_channel-append (some channel) [] more = refl
on_channel-append (some channel) (x ∷ sent) more =
    ground (arith, on_channel-append (some channel) sent more)

-- A new packet that leads from the stored set to a new one.
pub append_packet-InSync :
    (sent : List SentPacket) (c : Consumer) (chain : Chain) (p : VscPacket)
    → InSync sent c
    → ((key : ℕ)
        → apply_updates p.validator_updates (powers (get_val_set c.chain.val_set)) key
          ≡ powers (get_val_set chain.val_set) key)
    → InSync sent (append_packet p (clear_acks (record c { chain = chain })))
append_packet-InSync sent c chain p h leads key =
    packet_updates-append c.pending_vsc_packets (p ∷ []) (told sent c) key
    ∙ one_packet p (apply_updates (packet_updates c.pending_vsc_packets) (told sent c)) key
    ∙ apply_updates-cong p.validator_updates
        (apply_updates (packet_updates c.pending_vsc_packets) (told sent c))
        (powers (get_val_set c.chain.val_set)) key h
    ∙ leads key
