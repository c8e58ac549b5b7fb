-- ===== src/Consumer/Blocks/InStep.antt =====
-- From the packets that the provider has pending for a consumer chain to the validators of that chain.
use interchain_security.Common.{
  ℕ, ◌≡◌, refl, sym, ap, ◌∙◌, false, List, [], ◌∷◌, ◌++◌, Option, none, some, ◌==◌, All, map,
}
use interchain_security.Common.Outcome.{Outcome, ok}
use interchain_security.Sorting.{SortSlice}
use interchain_security.Updates.{ValidatorUpdate, apply_updates}
use interchain_security.Provider.ValidatorSet.{get_val_set}
use interchain_security.Provider.ValidatorSet.Diff.{powers}
use interchain_security.Provider.Consumers.{VscPacket, SentPacket}
use interchain_security.Provider.Consumers
use interchain_security.Provider.Relay.Told.{packet_updates, told, InSync}
use interchain_security.Consumer.Packets.{Context}
use interchain_security.Consumer.Changes.{by_power_and_key}
use interchain_security.Consumer.Changes.Accumulate.{apply_updates-cong}
use interchain_security.Consumer.Changes.Step.{Addressed}
use interchain_security.Consumer.Changes.Keys.{NoCollision}
use interchain_security.Consumer.Blocks.{VscPacketData, Module, validators_of, end_block}
use interchain_security.Consumer.Blocks.Received.{
  all_updates, IsValid, Expects, receive_all, voting_in, block-Flushed,
}

-- The packet as the consumer chain decodes it.
abbrev pub as_received : VscPacket → VscPacketData
as_received p = record {
  validator_updates = some p.validator_updates;
  valset_update_id = p.valset_update_id;
  slash_acks = p.slash_acks;
}

all_updates-as_received :
    (ps : List VscPacket) → all_updates (map as_received ps) ≡ packet_updates ps
all_updates-as_received [] = refl
all_updates-as_received (p ∷ ps) = ap (λ us. p.validator_updates ++ us) (all_updates-as_received ps)

abbrev pub HasId : VscPacket → Type 0
HasId p = (p.valset_update_id == 0) ≡ false

as_received-IsValid : (ps : List VscPacket) → All HasId ps → All IsValid (map as_received ps)
as_received-IsValid [] h = tt
as_received-IsValid (p ∷ ps) (h, hs) = ((p.validator_updates, (refl, h)), as_received-IsValid ps hs)

-- The provider's record of a consumer chain is in step with the set that it stores for it, in the sense of
-- InSync, and the chain's validators have the powers that it was told so far. Once the chain has
-- received the pending packets, in their order and in one block, and ended that block, its validators have the
-- powers of the stored set, for every key, and so has CometBFT by the updates that it is handed; and
-- nothing of this fails. The packets arrive on the channel that the chain expects. The chain is past its
-- changeover, has no pending changes, and stores each validator under its address; the ids of the
-- packets are positive, every public key has an address, and no two have the same one.
pub consumer_in_step :
    (address : ℕ → Option ℕ)
    → NoCollision address
    → ((key : ℕ) → (addr : ℕ) × (address key ≡ some addr))
    → (by : SortSlice by_power_and_key) (decode : ℕ → Option ℕ) (height channel : ℕ) (c : Context)
      (standalone : Outcome (List ℕ)) (sent : List SentPacket) (entry : Consumers.Consumer)
      (m : Module)
    → InSync sent entry
    → All HasId entry.pending_vsc_packets
    → ((key : ℕ) → voting_in address m key ≡ told sent entry key)
    → Expects channel m
    → m.pre_ccv ≡ false
    → m.pending_changes ≡ none
    → Addressed (validators_of m)
    → (m1 : Module) × ((receive_all by decode height channel
            (map as_received entry.pending_vsc_packets)
            m
          ≡ (ok tt, m1))
        × ((ret : List ValidatorUpdate) × ((m' : Module) × ((end_block address c standalone m1
                  ≡ (ok ret, m'))
                × ((key : ℕ)
                    → (voting_in address m' key ≡ powers (get_val_set entry.chain.val_set) key)
                      × (apply_updates ret (told sent entry) key
                          ≡ powers (get_val_set entry.chain.val_set) key))))))
consumer_in_step address no_collision decodes by decode height channel c standalone sent entry m
      sync ids same expects ccv nothing h =
    let ps = map as_received entry.pending_vsc_packets in
    let run =
      block-Flushed address no_collision decodes by decode height channel c standalone ps m
        (as_received-IsValid entry.pending_vsc_packets ids) expects ccv nothing h in
    let end = run.1.1 in
    let arrives : (key : ℕ)
        → apply_updates (all_updates ps) (voting_in address m) key
          ≡ powers (get_val_set entry.chain.val_set) key =
      λ key.
        ap (λ us. apply_updates us (voting_in address m) key)
          (all_updates-as_received entry.pending_vsc_packets)
        ∙ apply_updates-cong (packet_updates entry.pending_vsc_packets) (voting_in address m)
            (told sent entry) key same
        ∙ sync key in
    (
      run.0,
      (
        run.1.0,
        (
          end.0,
          (
            end.1.0,
            (
              end.1.1.0,
              λ key. (
                (end.1.1.1.1.1 key).0 ∙ arrives key,
                sym (apply_updates-cong end.0 (voting_in address m) (told sent entry) key same)
                    ∙ (end.1.1.1.1.1 key).1
                    ∙ arrives key,
              ),
            ),
          ),
        ),
      ),
    )
