-- ===== src/Consumer/Blocks/Received.antt =====
-- What a block of a consumer chain makes of the packets that it received.
use interchain_security.Common.{
  ℕ, ◌≡◌, ◌⊎◌, refl, sym, ap, ◌∙◌, subst, true, false, List, [], ◌∷◌, ◌++◌, Option, none, some,
  arith, ◌==◌, if◌then◌else◌, inl, inr, All,
}
use interchain_security.Common.Outcome.{Outcome, ok, Handler, continue, ◌>>◌, pure}
use interchain_security.Sorting.{SortSlice}
use interchain_security.Updates.{ValidatorUpdate, Powers, apply_updates, apply_updates-append}
use interchain_security.Consumer.Packets.{Context, send_packets}
use interchain_security.Consumer.Changes.{by_power_and_key}
use interchain_security.Consumer.Changes.Accumulate.{apply_updates-cong, accumulate_changes-powers}
use interchain_security.Consumer.Changes.Step.{Addressed, voting}
use interchain_security.Consumer.Changes.Keys.{NoCollision}
use interchain_security.Consumer.Changes.Apply.{Decodes, apply_cc_validator_changes-applies}
use interchain_security.Consumer.Blocks.{
  VscPacketData, Module, validators_of, with_validators, current_changes, delete_pending_changes,
  log_packets, establish, receive, on_recv_vsc_packet, changeover_to_consumer, flush_changes,
  end_block,
}

-- The updates of the packets in their order; nil has none.
abbrev pub all_updates : List VscPacketData → List ValidatorUpdate
all_updates [] = []
all_updates (p ∷ ps) = current_changes p.validator_updates ++ all_updates ps

-- A packet that passes the validation.
abbrev pub IsValid : VscPacketData → Type 0
IsValid p =
    (updates : List ValidatorUpdate) × ((p.validator_updates ≡ some updates)
      × ((p.valset_update_id == 0) ≡ false))

-- The channel is not known yet, or it is this one.
abbrev pub Expects : ℕ → Module → Type 0
Expects channel m =
    (m.packets.provider_channel ≡ none) ⊎ (m.packets.provider_channel ≡ some channel)

module _ (by : SortSlice by_power_and_key) (decode : ℕ → Option ℕ) (height channel : ℕ) where
  -- The packets of a block, in the order of the channel.
  unfoldable pub receive_all : List VscPacketData → Handler Module (Unit {0})
  receive_all [] = pure tt
  receive_all (p ∷ ps) = on_recv_vsc_packet by decode height channel p >> receive_all ps

  -- What a packet changes of the part of the state that the end of the block reads.
  abbrev Merged : List ValidatorUpdate → Module → Module → Type 0
  Merged updates m m' =
      (m'.cross_chain_validators ≡ m.cross_chain_validators)
      × ((m'.pre_ccv ≡ m.pre_ccv)
          × (((f : Powers) (key : ℕ)
              → apply_updates (current_changes m'.pending_changes) f key
                ≡ apply_updates updates (apply_updates (current_changes m.pending_changes) f) key)))

  on_recv_vsc_packet-Merged :
      (p : VscPacketData) (m : Module)
      → IsValid p
      → Expects channel m
      → (m' : Module) × ((on_recv_vsc_packet by decode height channel p m ≡ (ok tt, m'))
          × (Expects channel m' × Merged (current_changes p.validator_updates) m m'))
  unfolding on_recv_vsc_packet receive establish
  on_recv_vsc_packet-Merged p m (updates, (some_updates, positive)) (inl first) =
      let m' = (receive by decode height channel p.valset_update_id p.slash_acks updates m).1 in
      (
        m',
        (
          rw (some_updates, positive, receive, first) refl,
          (
            inr (rw (first) refl),
            (
              rw (first) refl,
              (
                rw (first) refl,
                λ f key.
                    rw (first, some_updates)
                      (accumulate_changes-powers by (current_changes m.pending_changes) updates f
                        key),
              ),
            ),
          ),
        ),
      )
  on_recv_vsc_packet-Merged p m (updates, (some_updates, positive)) (inr known) =
      let m' = (receive by decode height channel p.valset_update_id p.slash_acks updates m).1 in
      let own : (channel == channel) ≡ true = ground arith in
      (
        m',
        (
          rw (some_updates, positive, receive, known, own) refl,
          (
            inr (rw (known, own) refl),
            (
              rw (known, own) refl,
              (
                rw (known, own) refl,
                λ f key.
                    rw (known, own, some_updates)
                      (accumulate_changes-powers by (current_changes m.pending_changes) updates f
                        key),
              ),
            ),
          ),
        ),
      )

  receive_all-Merged :
      (ps : List VscPacketData) (m : Module)
      → All IsValid ps
      → Expects channel m
      → (m' : Module) × ((receive_all ps m ≡ (ok tt, m')) × Merged (all_updates ps) m m')
  unfolding receive_all
  receive_all-Merged [] m valid expects = (m, (refl, (refl, (refl, λ f key. refl))))
  receive_all-Merged (p ∷ ps) m valid expects =
      let first = on_recv_vsc_packet-Merged p m valid.0 expects in
      let rest = receive_all-Merged ps first.0 valid.1 first.1.1.0 in
      (
        rest.0,
        (
          ap (λ r. continue r (λ u. receive_all ps)) first.1.0 ∙ rest.1.0,
          (
            rest.1.1.0 ∙ first.1.1.1.0,
            (
              rest.1.1.1.0 ∙ first.1.1.1.1.0,
              λ f key.
                  rest.1.1.1.1 f key
                  ∙ apply_updates-cong (all_updates ps)
                      (apply_updates (current_changes first.0.pending_changes) f)
                      (apply_updates (current_changes p.validator_updates)
                        (apply_updates (current_changes m.pending_changes) f))
                      key (first.1.1.1.1.1 f)
                  ∙ sym (
                      ap (λ g. g key)
                        (apply_updates-append (current_changes p.validator_updates) (all_updates ps)
                          (apply_updates (current_changes m.pending_changes) f))),
            ),
          ),
        ),
      )

-- The consumer's validators as they vote.
abbrev pub voting_in : (ℕ → Option ℕ) → Module → Powers
voting_in address m = voting address (validators_of m)

module _ (address : ℕ → Option ℕ) (no_collision : NoCollision address)
    (decodes : (key : ℕ) → (addr : ℕ) × (address key ≡ some addr)) where
  -- The end of a block: the validators follow the given updates, and so does CometBFT by what it is handed.
  abbrev pub Flushed : List ValidatorUpdate → Powers → List ValidatorUpdate → Module → Type 0
  Flushed updates before ret m' =
      Addressed (validators_of m')
      × ((m'.pending_changes ≡ none)
          × ((key : ℕ)
              → (voting_in address m' key ≡ apply_updates updates before key)
                × (apply_updates ret before key ≡ apply_updates updates before key)))

  every_Decodes : (us : List ValidatorUpdate) → All (Decodes address) us
  every_Decodes [] = tt
  every_Decodes (u ∷ us) = (decodes u.pub_key, every_Decodes us)

  flush_changes-Flushed :
      (m : Module)
      → Addressed (validators_of m)
      → (ret : List ValidatorUpdate) × ((m' : Module) × ((flush_changes address m ≡ (ok ret, m'))
            × Flushed (current_changes m.pending_changes) (voting_in address m) ret m'))
  unfolding flush_changes
  flush_changes-Flushed m h = go m.pending_changes
    where
      go :
          (o : Option (List ValidatorUpdate))
          → (ret : List ValidatorUpdate) × ((m' : Module) × ((flush_changes address
                    (record m { pending_changes = o })
                  ≡ (ok ret, m'))
                × Flushed (current_changes o) (voting_in address m) ret m'))
      go none =
          ([], (record m { pending_changes = none }, (refl, (h, (refl, λ key. (refl, refl))))))
      go (some changes) =
          let run =
            apply_cc_validator_changes-applies address no_collision changes (validators_of m) h
              (every_Decodes changes) in
          (
            run.0,
            (
              record (with_validators run.1.0 m) { pending_changes = none },
              (
                ap
                    (λ r.
                      continue
                        (r.0, record (with_validators r.1 m) { pending_changes = some changes })
                        (λ ret m'. (ok ret, delete_pending_changes m')))
                    run.1.1.0,
                (run.1.1.1.0, (refl, run.1.1.1.1)),
              ),
            ),
          )

  -- A block in which valid packets came in on the provider's channel, after one that left no pending changes:
  -- neither the packets nor the end of the block fail, the validators have after it the powers to which the
  -- updates of the packets lead in their order, and what is handed to CometBFT leads there as well.
  pub block-Flushed :
      (by : SortSlice by_power_and_key) (decode : ℕ → Option ℕ) (height channel : ℕ) (c : Context)
      (standalone : Outcome (List ℕ)) (ps : List VscPacketData) (m : Module)
      → All IsValid ps
      → Expects channel m
      → m.pre_ccv ≡ false
      → m.pending_changes ≡ none
      → Addressed (validators_of m)
      → (m1 : Module) × ((receive_all by decode height channel ps m ≡ (ok tt, m1))
          × ((ret : List ValidatorUpdate) × ((m' : Module) × ((end_block address c standalone m1
                    ≡ (ok ret, m'))
                  × Flushed (all_updates ps) (voting_in address m) ret m'))))
  unfolding end_block
  block-Flushed by decode height channel c standalone ps m valid expects ccv nothing h =
      let run = receive_all-Merged by decode height channel ps m valid expects in
      let m1 = run.0 in
      let sent : Module = log_packets (send_packets c m1.packets) m1 in
      let kept : sent.cross_chain_validators ≡ m.cross_chain_validators = run.1.1.0 in
      let addressed : Addressed (validators_of sent) =
        subst (λ x. Addressed (record { cross_chain_validators = x; outstanding_downtime = [] }))
          (sym kept) h in
      let end = flush_changes-Flushed sent addressed in
      let votes : voting_in address sent ≡ voting_in address m =
        ap (λ x. voting address (record { cross_chain_validators = x; outstanding_downtime = [] }))
          kept in
      let arrives : (key : ℕ)
          → apply_updates (current_changes m1.pending_changes) (voting_in address sent) key
            ≡ apply_updates (all_updates ps) (voting_in address m) key =
        λ key.
          ap (λ f. apply_updates (current_changes m1.pending_changes) f key) votes
          ∙ run.1.1.1.1 (voting_in address m) key
          ∙ ap
              (λ o.
                apply_updates (all_updates ps)
                  (apply_updates (current_changes o) (voting_in address m)) key)
              nothing in
      (
        m1,
        (
          run.1.0,
          (
            end.0,
            (
              end.1.0,
              (
                ap
                      (λ x.
                        if x
                        then changeover_to_consumer address standalone m1
                        else flush_changes address sent)
                      (run.1.1.1.0 ∙ ccv)
                    ∙ end.1.1.0,
                (
                  end.1.1.1.0,
                  (
                    end.1.1.1.1.0,
                    λ key. (
                      (end.1.1.1.1.1 key).0 ∙ arrives key,
                      ap (λ f. apply_updates end.0 f key) (sym votes)
                          ∙ (end.1.1.1.1.1 key).1
                          ∙ arrives key,
                    ),
                  ),
                ),
              ),
            ),
          ),
        ),
      )
