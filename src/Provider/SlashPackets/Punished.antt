-- ===== src/Provider/SlashPackets/Punished.antt =====
-- Whom `OnRecvSlashPacket` punishes, and when.
use interchain_security.Common.{
  ℕ, ◌≡◌, refl, sym, ap, ◌∙◌, subst, Bool, true, false, not, ◌&&◌, List, ◌++◌, Option, none, some,
  arith, if◌then◌else◌, inl, inr, Bool-cases, Option-cases, All, is_some,
}
use interchain_security.Common.Int.{ℤ, pos, ◌-ℤ◌, is_negative}
use interchain_security.Common.Outcome.{
  Outcome, ok, panic, ◌>>=◌, ◌>>◌, pure, gets, modify, reject_if, reject_if-ok, invalid_packet,
  unknown_infraction_height, continue-ok, Outcome-cases, ok_inj,
}
use interchain_security.Provider.Phase.{is_launched}
use interchain_security.Provider.Staking.{Staking, StakingValidator, Block}
use interchain_security.Provider.ValidatorSet.{is_validator}
use interchain_security.Provider.SlashMeter.{
  Throttle, draw_from_meter, set_slash_meter, get_effective_val_power,
}
use interchain_security.Provider.Infraction.{get_infraction_parameters}
use interchain_security.Provider.Consumers.{
  Punishment, Provider, get_consumer_phase, get_channel_id_to_consumer_id, append_slash_ack,
  set_slash_log, on_throttle,
}
use interchain_security.Provider.SlashPackets.{
  SlashPacketData, Slashing, AckResult, v1, handled, bounced, is_double_sign, is_valid_data,
  provider_address, get_mapped_infraction_height, handle_for, handle_slash_packet, on_recv_downtime,
  on_recv_slash_packet,
}
use interchain_security.Provider.SlashPackets.Calls.{target, Adds, Adds-none, punish_downtime-Adds}

module _ (k : Staking) (sl : Slashing) (b : Block) (id : ℕ) (d : SlashPacketData) where
  handle_for-Adds :
      (addr : ℕ) (v : StakingValidator) (s : Provider)
      → Adds addr s (handle_for k sl b id d addr v s).1
  unfolding handle_for
  handle_for-Adds addr v s = elim (Bool-cases v.is_unbonded) [
    | inl unbonded ↦ rw (unbonded) (Adds-none addr s s refl refl)
    | inr bonded ↦ elim (Bool-cases (k.is_tombstoned addr)) [
      | inl tombstoned ↦ rw (bonded, tombstoned) (Adds-none addr s s refl refl)
      | inr alive ↦ elim (Option-cases (get_mapped_infraction_height id d.valset_update_id s)) [
        | inl absent ↦ rw (bonded, alive, absent) (Adds-none addr s s refl refl)
        | inr (height, e) ↦
            rw (bonded, alive, e)
              (punish_downtime-Adds sl b addr height d.power v.is_jailed
                (get_infraction_parameters id s.infractions) (append_slash_ack id d.address s))
      ]
    ]
  ]

  handle_slash_packet-Adds :
      (s : Provider) → Adds (provider_address id d s) s (handle_slash_packet k sl b id d s).1
  unfolding handle_slash_packet
  handle_slash_packet-Adds s =
      let addr = provider_address id d s in
      elim (Outcome-cases (k.get_validator_by_cons_addr addr)) [
        | inl (v, e) ↦ rw (e, handle_slash_packet) (handle_for-Adds addr v s)
        | inr (inl (x, e)) ↦ rw (e, handle_slash_packet) (Adds-none addr s s refl refl)
        | inr (inr e) ↦ rw (e, handle_slash_packet) (Adds-none addr s s refl refl)
      ]

  -- How a packet of a chain is received.
  pub data Received (s s' : Provider) : AckResult → Type 0 where
    -- A double-sign packet only enters the slash log.
    noted :
        is_double_sign d.infraction ≡ true
        → s' ≡ set_slash_log (provider_address id d s) s
        → Received s s' v1
    -- A packet for a chain that is not launched, or for a validator that is not in its set, is only acknowledged.
    dropped :
        is_launched (get_consumer_phase id s)
            && is_validator (provider_address id d s) (s.consumers id).chain.val_set
          ≡ false
        → s' ≡ append_slash_ack id d.address s
        → Received s s' handled
    -- With a negative meter a packet is bounced, and nothing changes.
    full :
        (meter : ℤ)
        → s.throttle.slash_meter ≡ some meter
        → is_negative meter ≡ true
        → s' ≡ s
        → Received s s' bounced
    -- Else the meter pays for it, and only the validator with the key is punished.
    paid :
        is_launched (get_consumer_phase id s) ≡ true
        → is_validator (provider_address id d s) (s.consumers id).chain.val_set ≡ true
        → (meter : ℤ) → s.throttle.slash_meter ≡ some meter
        → is_negative meter ≡ false
        → s'.throttle.slash_meter
          ≡ some (meter -ℤ pos (get_effective_val_power k (provider_address id d s)))
        → (ps : List Punishment) → s'.punished ≡ s.punished ++ ps
        → All (λ p. target p ≡ provider_address id d s) ps
        → Received s s' handled

  draw-cases :
      (power : ℕ) (t t' : Throttle) (drawn : Bool)
      → draw_from_meter power t ≡ (ok drawn, t')
      → (meter : ℤ) × ((t.slash_meter ≡ some meter)
          × (is_negative meter ≡ not drawn)
          × (t' ≡ (if drawn then record t { slash_meter = some (meter -ℤ pos power) } else t)))
  unfolding draw_from_meter set_slash_meter
  draw-cases power t t' drawn e = elim (Option-cases t.slash_meter) [
    | inl absent ↦ absurd (ground (arith, e, absent))
    | inr (meter, found) ↦ (meter, (found, ground (arith, e, found), ground (arith, e, found)))
  ]

  abbrev Answers : AckResult → Provider → Outcome AckResult × Provider → Type 0
  Answers r s' x = x ≡ (ok r, s')

  acknowledges :
      {s s' s'' : Provider} {a r : AckResult}
      → Answers r s' (ok a, s'')
      → (s' ≡ s'' → Received s s' a)
      → Received s s' r
  acknowledges {s} {s'} e h =
      subst (Received s s') (ok_inj (ap (λ x. x.0) e)) (h (sym (ap (λ x. x.1) e)))

  after_drawing :
      (s s' : Provider) (r : AckResult)
      → is_launched (get_consumer_phase id s) ≡ true
      → is_validator (provider_address id d s) (s.consumers id).chain.val_set ≡ true
      → (drawn : Bool) (t : Throttle)
      → draw_from_meter (get_effective_val_power k (provider_address id d s)) s.throttle
        ≡ (ok drawn, t)
      → (if drawn then (do handle_slash_packet k sl b id d; pure handled) else pure bounced)
          (record s { throttle = t })
        ≡ (ok r, s')
      → Received s s' r
  after_drawing s s' r launched member false t e q =
      let meter =
        draw-cases (get_effective_val_power k (provider_address id d s)) s.throttle t false e in
      acknowledges q λ same.
        full meter.0 meter.1.0 meter.1.1 (same ∙ ap (λ x. record s { throttle = x }) meter.1.2)
  after_drawing s s' r launched member true t e q =
      let power = get_effective_val_power k (provider_address id d s) in
      let meter = draw-cases power s.throttle t true e in
      let s2 : Provider = record s { throttle = t } in
      let h = continue-ok (handle_slash_packet k sl b id d s2) (λ u. pure handled) r s' q in
      let adds = handle_slash_packet-Adds s2 in
      let same : (handle_slash_packet k sl b id d s2).1 ≡ s' =
        ap (λ x. x.1) h.1.1.0 ∙ ap (λ x. x.1) h.1.1.1 in
      subst (Received s s') (ok_inj (ap (λ x. x.0) h.1.1.1)) (
        paid launched member meter.0 meter.1.0 meter.1.1
          (sym (ap (λ x. x.throttle.slash_meter) same)
            ∙ ap (λ x. x.slash_meter) adds.0
            ∙ ap (λ x. x.slash_meter) meter.1.2)
          adds.1.0 (sym (ap (λ x. x.punished) same) ∙ adds.1.1.0) adds.1.1.1)

  on_recv_downtime-Received :
      (s s' : Provider) (r : AckResult)
      → on_recv_downtime k sl b id d s ≡ (ok r, s')
      → Received s s' r
  unfolding on_recv_downtime
  on_recv_downtime-Received s s' r e =
      go (is_launched (get_consumer_phase id s))
        (is_validator (provider_address id d s) (s.consumers id).chain.val_set) refl refl e
    where
      go :
          (x y : Bool)
          → is_launched (get_consumer_phase id s) ≡ x
          → is_validator (provider_address id d s) (s.consumers id).chain.val_set ≡ y
          → (if not x
              then (ok handled, append_slash_ack id d.address s)
              else if not y
              then (ok handled, append_slash_ack id d.address s)
              else (do
                drawn ←
                    on_throttle
                      (draw_from_meter (get_effective_val_power k (provider_address id d s)))
                if drawn then (do handle_slash_packet k sl b id d; pure handled) else pure bounced)
                  s)
            ≡ (ok r, s')
          → Received s s' r
      go false y launched member q = acknowledges q (dropped (rw (launched) refl))
      go true false launched member q = acknowledges q (dropped (rw (launched, member) refl))
      go true true launched member q =
          let draw =
            draw_from_meter (get_effective_val_power k (provider_address id d s)) s.throttle in
          let step = continue-ok (draw.0, record s { throttle = draw.1 }) _ r s' q in
          let drawn : draw ≡ (ok step.0, draw.1) =
            ap (λ o. (o, draw.1)) (ap (λ x. x.0) step.1.1.0) in
          after_drawing s s' r launched member step.0 draw.1 drawn (
            ap
              (λ x.
                (if step.0
                    then (do handle_slash_packet k sl b id d; pure handled)
                    else pure bounced)
                  x)
              (ap (λ x. x.1) step.1.1.0)
            ∙ step.1.1.1)

-- A slash packet that `OnRecvSlashPacket` answers with a result comes from the channel of a consumer chain, and
-- the result is as follows. A double-sign packet gives V1Result and enters the slash log only. A downtime
-- packet for a chain that is not launched, or for a validator that is not in the chain's stored set, gives
-- SlashPacketHandledResult and a slash ack, and nothing else. Else a negative meter gives
-- SlashPacketBouncedResult and no change, and a meter that is not negative gives
-- SlashPacketHandledResult and pays the validator's effective power; the calls that then punish are all against
-- the validator to which the packet's address resolves.
pub on_recv_slash_packet-Received :
    (k : Staking) (sl : Slashing) (b : Block) (channel : ℕ) (d : SlashPacketData) (s s' : Provider)
    (r : AckResult)
    → on_recv_slash_packet k sl b channel d s ≡ (ok r, s')
    → (id : ℕ) × ((get_channel_id_to_consumer_id channel s ≡ some id) × Received k sl b id d s s' r)
unfolding on_recv_slash_packet
on_recv_slash_packet-Received k sl b channel d s s' r e =
    go (get_channel_id_to_consumer_id channel s) refl e
  where
    for_chain : ℕ → Outcome AckResult × Provider
    for_chain id =
        (do
          reject_if (not (is_valid_data sl d)) invalid_packet
          height ← gets (get_mapped_infraction_height id d.valset_update_id)
          reject_if (not (is_some height)) unknown_infraction_height
          if is_double_sign d.infraction
              then (do modify (set_slash_log (provider_address id d s)); pure v1)
              else on_recv_downtime k sl b id d)
          s

    by_infraction :
        (id : ℕ) (x : Bool)
        → is_double_sign d.infraction ≡ x
        → (if x
              then (do modify (set_slash_log (provider_address id d s)); pure v1)
              else on_recv_downtime k sl b id d)
            s
          ≡ (ok r, s')
        → Received k sl b id d s s' r
    by_infraction id true double q = acknowledges k sl b id d q (noted double)
    by_infraction id false down q = on_recv_downtime-Received k sl b id d s s' r q

    go :
        (o : Option ℕ)
        → get_channel_id_to_consumer_id channel s ≡ o
        → (elim o as (λ x. Outcome AckResult × Provider) [
          | none ↦ (panic, s)
          | some id ↦ for_chain id
        ])
          ≡ (ok r, s')
        → (id : ℕ) × ((get_channel_id_to_consumer_id channel s ≡ some id)
            × Received k sl b id d s s' r)
    go none absent q = cc
    go (some id) found q =
        let valid = reject_if-ok (not (is_valid_data sl d)) invalid_packet s _ r s' q in
        let known =
          reject_if-ok (not (is_some (get_mapped_infraction_height id d.valset_update_id s)))
            unknown_infraction_height s _ r s' valid.1 in
        (id, (found, by_infraction id (is_double_sign d.infraction) refl known.1))
