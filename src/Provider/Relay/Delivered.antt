-- ===== src/Provider/Relay/Delivered.antt =====
-- `SendVSCPackets` keeps every launched chain in step with the set that is stored for it.
use mathlib.Core.List.{append-nil}
use interchain_security.Common.{
  ℕ, ◌+◌, ◌≡◌, ◌≢◌, refl, sym, ap, ◌∙◌, subst, true, false, List, [], ◌∷◌, ◌++◌, map, some, arith,
  ◌==◌, inl, inr, Bool-cases, Option-cases,
}
use interchain_security.Common.Outcome.{Outcome, ok, err, panic, continue-holds}
use interchain_security.Provider.Phase.{is_launched}
use interchain_security.Provider.Staking.{Staking, StakingValidator, Block}
use interchain_security.Provider.NextValidators.Stored.{Distinguished-keys}
use interchain_security.Provider.Ibc.{Ibc, accepted, client_not_active}
use interchain_security.Provider.Lifecycle.Removal.{stop_and_prepare_for_consumer_removal}
use interchain_security.Provider.Consumers.{
  VscPacket, Consumer, Provider, get_consumer_phase, clear_packets, delete_pending_vsc_packets,
  get_all_consumers_with_ibc_clients, get_consumer_id_to_channel_id,
}
use interchain_security.Provider.Relay.{
  ignore_error, send_each, after_sending, send_vsc_packets_to_chain, send_if_launched, send_to_each,
  send_vsc_packets,
}
use interchain_security.Provider.Relay.Queued.{IsReady, AllReady}
use interchain_security.Provider.Relay.Sending.{
  logged, taken, OneChannel, Steady, send_each-sent, send_each-consumers, send_each-accepted,
  send_each-inactive, InSync-other, InSync-sent, stopped-chain, stopped-others, result-cases,
}

-- A packet is not for a chain on another channel.
other_channel :
    (s : Provider) (id j channel : ℕ)
    → OneChannel s
    → (s.consumers id).channel ≡ some channel
    → (j == id) ≡ false
    → (s.consumers j).channel ≢ some channel
other_channel s id j channel one e other e' =
    let same = one j id channel e' e in ground (arith, same, other)

ignore_error-state : {S : Type 0} (r : Outcome (Unit {0}) × S) → (ignore_error r).1 ≡ r.1
ignore_error-state (ok u, s) = refl
ignore_error-state (err x, s) = refl
ignore_error-state (panic, s) = refl

-- Every launched chain is in step, and no two chains have one channel.
abbrev pub IsSound : List StakingValidator → Provider → Type 0
IsSound bonded s = AllReady bonded s × OneChannel s

module _ (bonded : List StakingValidator) (k : Staking) (i : Ibc) (b : Block) (timeout_period : ℕ)
    (steady : Steady i) where
  module _ (id channel : ℕ) (s : Provider) (h : AllReady bonded s) (one : OneChannel s)
      (e : (s.consumers id).channel ≡ some channel)
      (launched : is_launched (get_consumer_phase id s) ≡ true) where
    abbrev timeout : ℕ
    timeout = b.time + timeout_period

    abbrev pending : List VscPacket
    pending = (s.consumers id).pending_vsc_packets

    abbrev after_loop : Provider
    after_loop = (send_each i channel timeout pending s).1

    -- Every other chain is ready whatever was sent on this one's channel.
    others-IsReady :
        (j : ℕ) (c : Consumer)
        → (j == id) ≡ false
        → c ≡ s.consumers j
        → IsReady bonded after_loop.sent c
    others-IsReady j c other same =
        subst (λ x. IsReady bonded x c) (sym (send_each-sent i channel timeout pending s))
          (subst
            (IsReady bonded
              (s.sent ++ map (logged channel timeout) (taken i channel timeout pending)))
            (sym same)
            (
              (h j).0,
              λ l.
                  InSync-other s.sent channel timeout (taken i channel timeout pending)
                    (s.consumers j) (other_channel s id j channel one e other) ((h j).1 l),
            ))

    accepted-IsReady :
        (send_each i channel timeout pending s).0 ≡ accepted
        → IsReady bonded after_loop.sent (clear_packets (s.consumers id))
    accepted-IsReady r =
        subst (λ x. IsReady bonded x (clear_packets (s.consumers id)))
          (sym (
            send_each-sent i channel timeout pending s
            ∙ ap (λ ps. s.sent ++ map (logged channel timeout) ps)
                (send_each-accepted i channel timeout pending s r)))
          ((h id).0, λ l. InSync-sent s.sent channel timeout (s.consumers id) e ((h id).1 l))

    consumers_kept : (j : ℕ) → after_loop.consumers j ≡ s.consumers j
    consumers_kept j = ap (λ cs. cs j) (send_each-consumers i channel timeout pending s)

    abbrev Sound : Provider → Type 0
    Sound s' = AllReady bonded s' × OneChannel s'

    channels_kept :
        (s' : Provider)
        → ((j : ℕ) → (s'.consumers j).channel ≡ (s.consumers j).channel)
        → OneChannel s'
    channels_kept s' kept j m ch p q = one j m ch (sym (kept j) ∙ p) (sym (kept m) ∙ q)

    -- The id's own entry and those of the others.
    by_id :
        (s' : Provider)
        → s'.sent ≡ after_loop.sent
        → IsReady bonded after_loop.sent (s'.consumers id)
        → ((j : ℕ) → (j == id) ≡ false → s'.consumers j ≡ s.consumers j)
        → AllReady bonded s'
    by_id s' same own others j =
        subst (λ x. IsReady bonded x (s'.consumers j)) (sym same)
          (elim (Bool-cases (j == id)) [
            | inl at ↦
                let there : id ≡ j = ground arith in
                subst (λ m. IsReady bonded after_loop.sent (s'.consumers m)) there own
            | inr other ↦ others-IsReady j (s'.consumers j) other (others j other)
          ])

    after_accepted :
        (send_each i channel timeout pending s).0 ≡ accepted
        → Sound (delete_pending_vsc_packets id after_loop)
    after_accepted r =
        let s' = delete_pending_vsc_packets id after_loop in
        let own : s'.consumers id ≡ clear_packets (s.consumers id) =
          ground arith ∙ ap clear_packets (consumers_kept id) in
        let others : (j : ℕ) → (j == id) ≡ false → s'.consumers j ≡ s.consumers j =
          λ j other. rw (other) (consumers_kept j) in
        (
          by_id s' refl (subst (IsReady bonded after_loop.sent) (sym own) (accepted-IsReady r))
              others,
          channels_kept s' λ j. elim (Bool-cases (j == id)) [
            | inl at ↦
                let there : id ≡ j = ground arith in
                subst (λ m. (s'.consumers m).channel ≡ (s.consumers m).channel) there
                  (ap (λ c. c.channel) own)
            | inr other ↦ ap (λ c. c.channel) (others j other)
          ],
        )

    after_inactive :
        (send_each i channel timeout pending s).0 ≡ client_not_active → Sound after_loop
    after_inactive r =
        let none_taken = send_each-inactive i channel timeout (steady channel) pending s r in
        let same_sent : after_loop.sent ≡ s.sent =
          send_each-sent i channel timeout pending s
          ∙ ap (λ ps. s.sent ++ map (logged channel timeout) ps) none_taken
          ∙ append-nil s.sent in
        (
          (λ j.
              subst (λ x. IsReady bonded x (after_loop.consumers j)) (sym same_sent)
                (subst (IsReady bonded s.sent) (sym (consumers_kept j)) (h j))),
          channels_kept after_loop (λ j. ap (λ c. c.channel) (consumers_kept j)),
        )

    after_failed : Sound (stop_and_prepare_for_consumer_removal k b id after_loop).1
    after_failed =
        let s' = (stop_and_prepare_for_consumer_removal k b id after_loop).1 in
        let stopped = stopped-chain k b id after_loop in
        let c = s.consumers id in
        let c' = s'.consumers id in
        let kept = consumers_kept id in
        let keys : c'.chain.keys ≡ c.chain.keys = stopped.0 ∙ ap (λ x. x.chain.keys) kept in
        let channel_kept : c'.channel ≡ c.channel = stopped.3 ∙ ap (λ x. x.channel) kept in
        let not_launched : is_launched c'.chain.phase ≡ false = stopped.1 in
        let others : (j : ℕ) → (j == id) ≡ false → s'.consumers j ≡ s.consumers j =
          λ j other. stopped-others k b id j after_loop other ∙ consumers_kept j in
        (
          by_id s' stopped.2
              (
                Distinguished-keys c.chain c'.chain bonded keys (h id).0,
                λ l. differs (sym not_launched ∙ l),
              )
              others,
          channels_kept s' λ j. elim (Bool-cases (j == id)) [
            | inl at ↦
                let there : id ≡ j = ground arith in
                subst (λ m. (s'.consumers m).channel ≡ (s.consumers m).channel) there channel_kept
            | inr other ↦ ap (λ x. x.channel) (others j other)
          ],
        )
      where
        differs : {X : Type 0} → false ≡ true → X
        differs d = cc

    pub send_vsc_packets_to_chain-Sound :
        Sound (send_vsc_packets_to_chain k i b timeout_period id channel s).1
    unfolding send_vsc_packets_to_chain
    send_vsc_packets_to_chain-Sound =
        elim (result-cases (send_each i channel timeout pending s).0) [
          | inl r ↦
              subst (λ x. Sound (after_sending k b id x after_loop).1) (sym r)
                (unfold after_sending in after_accepted r)
          | inr (inl r) ↦
              subst (λ x. Sound (after_sending k b id x after_loop).1) (sym r)
                (unfold after_sending in after_inactive r)
          | inr (inr r) ↦
              subst (λ x. Sound (after_sending k b id x after_loop).1) (sym r)
                (unfold after_sending in
                  subst Sound
                    (sym (
                      ignore_error-state (stop_and_prepare_for_consumer_removal k b id after_loop)))
                    after_failed)
        ]

  send_if_launched-IsSound :
      (id : ℕ) (s : Provider)
      → IsSound bonded s
      → IsSound bonded (send_if_launched k i b timeout_period id s).1
  unfolding send_if_launched
  send_if_launched-IsSound id s (h, one) =
      elim (Bool-cases (is_launched (get_consumer_phase id s))) [
        | inr waits ↦ rw (waits) (h, one)
        | inl launched ↦ elim (Option-cases (get_consumer_id_to_channel_id id s)) [
          | inl absent ↦ rw (launched, absent) (h, one)
          | inr (channel, e) ↦
              rw (launched, e) (send_vsc_packets_to_chain-Sound id channel s h one e launched)
        ]
      ]

  send_to_each-IsSound :
      (ids : List ℕ) (s : Provider)
      → IsSound bonded s
      → IsSound bonded (send_to_each k i b timeout_period ids s).1
  unfolding send_to_each
  send_to_each-IsSound [] s h = h
  send_to_each-IsSound (id ∷ ids) s h =
      continue-holds (IsSound bonded) (send_if_launched k i b timeout_period id s) _
        (send_if_launched-IsSound id s h) λ u s1 h1. send_to_each-IsSound ids s1 h1

  pub send_vsc_packets-IsSound :
      (s : Provider) → IsSound bonded s → IsSound bonded (send_vsc_packets k i b timeout_period s).1
  unfolding send_vsc_packets
  send_vsc_packets-IsSound s h = send_to_each-IsSound (get_all_consumers_with_ibc_clients s) s h
