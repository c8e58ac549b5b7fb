-- ===== src/Provider/Relay/Epoch.antt =====
-- The end of a block on the provider, `EndBlockVSU`, and the chains that it keeps in step.
use interchain_security.Common.{
  ℕ, ◌≡◌, refl, sym, ap, ◌∙◌, subst, Bool, true, false, List, Option, arith, [], ◌∷◌, ◌==◌,
  if◌then◌else◌, inl, inr, Bool-cases, take,
}
use interchain_security.Common.Outcome.{
  Outcome, ok, ◌>>◌, continue, continue-ok, continue-keeps, pure,
}
use interchain_security.Updates.{ValidatorUpdate}
use interchain_security.Provider.Staking.{Staking, StakingValidator, Block}
use interchain_security.Provider.NextValidators.{Library, compute_consumer_next_val_set}
use interchain_security.Provider.ValidatorSet.{get_val_set}
use interchain_security.Provider.Ibc.{Ibc}
use interchain_security.Provider.Lifecycle.Launch.{Bonded}
use interchain_security.Provider.Consumers.{
  Consumer, Provider, update_consumer, on_chain, append_packet, clear_acks, get_consumer_phase,
  get_validator_set_update_id, get_all_consumers_with_ibc_clients,
}
use interchain_security.Provider.Phase.{is_launched}
use interchain_security.Provider.Relay.{
  enqueue, queue_vsc_packet, queue_if_launched, queue_each, create_each, Params,
  provider_validator_updates, blocks_until_next_epoch, queue_vsc_packets, send_vsc_packets,
  end_block_vsu,
}
use interchain_security.Provider.Relay.Queued.{queue_vsc_packets-AllReady}
use interchain_security.Provider.Relay.Sending.{Steady}
use interchain_security.Provider.Relay.Delivered.{IsSound, send_vsc_packets-IsSound}

-- Queueing leaves the channels alone.
module _ (j : ℕ) where
  abbrev channel_of : Provider → Option ℕ
  channel_of s = (s.consumers j).channel

  updated-channel :
      (id : ℕ) (f : Consumer → Consumer) (s : Provider)
      → ((c : Consumer) → (f c).channel ≡ c.channel)
      → channel_of (update_consumer id f s) ≡ channel_of s
  updated-channel id f s h = elim (Bool-cases (j == id)) [
    | inl at ↦
        let there : id ≡ j = ground arith in
        rw (at, channel_of) (h (s.consumers id) ∙ ap (λ m. (s.consumers m).channel) there)
    | inr other ↦ rw (other, channel_of) refl
  ]

  enqueue-channel :
      (id vsc_id : ℕ) (us : List ValidatorUpdate) (s : Provider)
      → channel_of (enqueue id vsc_id us s).1 ≡ channel_of s
  unfolding enqueue
  enqueue-channel id vsc_id [] s = refl
  enqueue-channel id vsc_id (u ∷ us) s =
      updated-channel id
        (append_packet (record {
          validator_updates = u ∷ us;
          valset_update_id = vsc_id;
          slash_acks = (s.consumers id).slash_acks;
        }))
        (update_consumer id clear_acks s) (λ c. refl)
      ∙ updated-channel id clear_acks s (λ c. refl)

  module _ (l : Library) (k : Staking) (b : Block) (max_vals : ℕ)
      (bonded active : List StakingValidator) (vsc_id : ℕ) where
    queue_if_launched-channel :
        (id : ℕ) (s : Provider)
        → channel_of (queue_if_launched l k b max_vals bonded active vsc_id id s).1 ≡ channel_of s
    unfolding queue_if_launched queue_vsc_packet on_chain
    queue_if_launched-channel id s = elim (Bool-cases (is_launched (get_consumer_phase id s))) [
      | inl launched ↦ rw (launched) (
          let c = (s.consumers id).chain in
          let call =
            compute_consumer_next_val_set l k b max_vals bonded active (get_val_set c.val_set) in
          continue-keeps channel_of (on_chain id call s) (λ us. enqueue id vsc_id us)
            (λ us s1. enqueue-channel id vsc_id us s1)
          ∙ updated-channel id (λ x. record x { chain = (call c).1 }) s (λ x. refl))
      | inr waits ↦ rw (waits) refl
    ]

    queue_each-channel :
        (ids : List ℕ) (s : Provider)
        → channel_of (queue_each l k b max_vals bonded active vsc_id ids s).1 ≡ channel_of s
    unfolding queue_each
    queue_each-channel [] s = refl
    queue_each-channel (id ∷ ids) s =
        continue-keeps channel_of (queue_if_launched l k b max_vals bonded active vsc_id id s) _
          (λ u s1. queue_each-channel ids s1)
        ∙ queue_if_launched-channel id s

  queue_vsc_packets-channel :
      (l : Library) (k : Staking) (b : Block) (v : Bonded) (s : Provider)
      → channel_of (queue_vsc_packets l k b v s).1 ≡ channel_of s
  unfolding queue_vsc_packets
  queue_vsc_packets-channel l k b v s =
      continue-keeps channel_of (v.validators, s) _
        λ bonded s1.
          continue-keeps channel_of (v.active, s1) _
            λ active s2.
              continue-keeps channel_of
                (queue_each l k b v.max_provider_consensus_validators bonded active
                  (get_validator_set_update_id s) (get_all_consumers_with_ibc_clients s2) s2)
                _ (λ u s3. refl)
              ∙ queue_each-channel l k b v.max_provider_consensus_validators bonded active
                  (get_validator_set_update_id s) (get_all_consumers_with_ibc_clients s2) s2

-- `EndBlockVSU` first computes the provider's own updates, which no consumer chain sees.
provider_validator_updates-consumers :
    (k : Staking) (by_power : Outcome (List StakingValidator)) (max_vals : ℕ) (s : Provider)
    → ((provider_validator_updates k by_power max_vals s).1.consumers ≡ s.consumers)
      × ((provider_validator_updates k by_power max_vals s).1.sent ≡ s.sent)
unfolding provider_validator_updates
provider_validator_updates-consumers k by_power max_vals s = (
  continue-keeps (λ x. x.consumers) (by_power, s) _
      (λ bonded s1.
        continue-keeps (λ x. x.consumers) (create_each k (take max_vals bonded), s1) _
          (λ next s2. refl)),
  continue-keeps (λ x. x.sent) (by_power, s) _
      (λ bonded s1.
        continue-keeps (λ x. x.sent) (create_each k (take max_vals bonded), s1) _
          (λ next s2. refl)),
)

module _ (l : Library) (k : Staking) (i : Ibc) (b : Block) (v : Bonded) (params : Params)
    (by_power : Outcome (List StakingValidator)) (bonded : List StakingValidator) where
  IsSound-same :
      (s s' : Provider)
      → s'.consumers ≡ s.consumers
      → s'.sent ≡ s.sent
      → IsSound bonded s
      → IsSound bonded s'
  IsSound-same s s' e e' h =
      subst (λ x. IsSound bonded (record s' { consumers = x })) (sym e)
        (subst (λ x. IsSound bonded (record s' { consumers = s.consumers; sent = x })) (sym e') h)

  queue_vsc_packets-IsSound :
      (s s' : Provider)
      → v.validators ≡ ok bonded
      → IsSound bonded s
      → queue_vsc_packets l k b v s ≡ (ok tt, s')
      → IsSound bonded s'
  queue_vsc_packets-IsSound s s' e h q = (
    queue_vsc_packets-AllReady l k b v bonded s s' e h.0 q,
    λ j m channel p p'. h.1 j m channel (kept j ∙ p) (kept m ∙ p'),
  )
    where
      kept : (j : ℕ) → (s.consumers j).channel ≡ (s'.consumers j).channel
      kept j = sym (queue_vsc_packets-channel j l k b v s) ∙ ap (λ r. (r.1.consumers j).channel) q

  -- The part of the block's end after the provider's own updates.
  after_own-IsSound :
      (x : Bool) (us updates : List ValidatorUpdate) (s s' : Provider)
      → v.validators ≡ ok bonded
      → Steady i
      → IsSound bonded s
      → continue
          ((if x
              then (do queue_vsc_packets l k b v; send_vsc_packets k i b params.ccv_timeout_period)
              else pure tt)
            s)
          (λ u. pure us)
        ≡ (ok updates, s')
      → IsSound bonded s'
  after_own-IsSound false us updates s s' e steady h q = subst (IsSound bonded) (ap (λ r. r.1) q) h
  after_own-IsSound true us updates s s' e steady h q =
      let send = λ (y : Provider). send_vsc_packets k i b params.ccv_timeout_period y in
      let both =
        continue-ok (continue (queue_vsc_packets l k b v s) (λ u. send)) (λ u. pure us) updates s'
          q in
      let queue =
        continue-ok (queue_vsc_packets l k b v s) (λ u. send) both.0 both.1.0 both.1.1.0 in
      let sent =
        send_vsc_packets-IsSound bonded k i b params.ccv_timeout_period steady queue.1.0
          (queue_vsc_packets-IsSound s queue.1.0 e h queue.1.1.0) in
      subst (IsSound bonded) (ap (λ r. r.1) queue.1.1.1 ∙ ap (λ r. r.1) both.1.1.1) sent

  -- Where `EndBlockVSU` succeeds, every launched consumer chain stays in step: its genesis, the packets
  -- that IBC accepted on its channel, and the pending ones together give the powers of the set that is
  -- stored for it. This is where no two bonded validators have one address or one key on a chain, no two
  -- chains have one channel, and no client expires between two packets of a block.
  pub end_block_vsu-IsSound :
      (s s' : Provider) (updates : List ValidatorUpdate)
      → v.validators ≡ ok bonded
      → Steady i
      → IsSound bonded s
      → end_block_vsu l k i b v params by_power s ≡ (ok updates, s')
      → IsSound bonded s'
  unfolding end_block_vsu
  end_block_vsu-IsSound s s' updates e steady h q =
      let own = provider_validator_updates k by_power v.max_provider_consensus_validators s in
      let first = continue-ok own _ updates s' q in
      let same : own.1 ≡ first.1.0 = ap (λ x. x.1) first.1.1.0 in
      let kept =
        provider_validator_updates-consumers k by_power v.max_provider_consensus_validators s in
      let s1 = first.1.0 in
      let h1 : IsSound bonded s1 =
        subst (IsSound bonded) same (IsSound-same s own.1 kept.0 kept.1 h) in
      after_own-IsSound (blocks_until_next_epoch params.blocks_per_epoch b.height == 0) first.0
        updates s1 s' e steady h1 first.1.1.1
