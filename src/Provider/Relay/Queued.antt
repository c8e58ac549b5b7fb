-- ===== src/Provider/Relay/Queued.antt =====
-- `QueueVSCPackets` keeps every launched chain in step with the set that is stored for it.
use interchain_security.Common.{
  ℕ, ◌≡◌, refl, sym, ap, ◌∙◌, subst, Bool, true, false, List, [], ◌∷◌, arith, ◌==◌, if◌then◌else◌,
  inl, inr, Bool-cases,
}
use interchain_security.Common.Outcome.{ok, continue-ok, ok_inj, pure}
use interchain_security.Updates.{ValidatorUpdate, apply_updates}
use interchain_security.Provider.Phase.{is_launched}
use interchain_security.Provider.Staking.{Staking, StakingValidator, Block}
use interchain_security.Provider.Chain.{Chain}
use interchain_security.Provider.ValidatorSet.{ConsensusValidator, get_val_set}
use interchain_security.Provider.ValidatorSet.Diff.{powers}
use interchain_security.Provider.NextValidators.{Library, compute_consumer_next_val_set}
use interchain_security.Provider.NextValidators.Distinct.{Distinguished}
use interchain_security.Provider.NextValidators.Stored.{
  Distinguished-keys, compute_consumer_next_val_set-powers, compute_consumer_next_val_set-keys,
}
use interchain_security.Provider.Lifecycle.Launch.{Bonded}
use interchain_security.Provider.Consumers.{
  Consumer, SentPacket, Provider, update_at, update_consumer, on_chain, append_packet, clear_acks,
  get_consumer_phase, get_all_consumers_with_ibc_clients, get_validator_set_update_id,
}
use interchain_security.Provider.Relay.{
  enqueue, queue_vsc_packet, queue_if_launched, queue_each, queue_vsc_packets,
}
use interchain_security.Provider.Relay.Told.{InSync, append_packet-InSync}

-- What `enqueue` does to the chain's entries.
abbrev queued : ℕ → List ValidatorUpdate → Consumer → Consumer
queued vsc_id [] c = c
queued vsc_id (u ∷ us) c =
    append_packet
      (record { validator_updates = u ∷ us; valset_update_id = vsc_id; slash_acks = c.slash_acks })
      (clear_acks c)

-- A launched chain is in step, and the bonded validators are told apart on every chain.
abbrev pub IsReady : List StakingValidator → List SentPacket → Consumer → Type 0
IsReady bonded sent c =
    Distinguished c.chain bonded × (is_launched c.chain.phase ≡ true → InSync sent c)

module _ (l : Library) (k : Staking) (b : Block) (max_vals : ℕ)
    (bonded active : List StakingValidator) where
  queued-IsReady :
      (vsc_id : ℕ) (sent : List SentPacket) (c : Consumer) (chain : Chain)
      (updates : List ValidatorUpdate)
      → IsReady bonded sent c
      → is_launched c.chain.phase ≡ true
      → compute_consumer_next_val_set l k b max_vals bonded active
          (get_val_set c.chain.val_set)
          c.chain
        ≡ (ok updates, chain)
      → IsReady bonded sent (queued vsc_id updates (record c { chain = chain }))
  queued-IsReady vsc_id sent c chain updates (d, h) launched e =
      go updates
        (Distinguished-keys c.chain chain bonded
          (compute_consumer_next_val_set-keys l k b max_vals bonded active current c.chain chain
            updates e)
          d)
        (compute_consumer_next_val_set-powers l k b max_vals bonded active current c.chain chain
          updates d e)
    where
      current : List ConsensusValidator
      current = get_val_set c.chain.val_set

      go :
          (us : List ValidatorUpdate)
          → Distinguished chain bonded
          → ((key : ℕ)
              → apply_updates us (powers (get_val_set c.chain.val_set)) key
                ≡ powers (get_val_set chain.val_set) key)
          → IsReady bonded sent (queued vsc_id us (record c { chain = chain }))
      go [] d' leads = (d', λ q. λ key. h launched key ∙ leads key)
      go (u ∷ us) d' leads = (
        d',
        λ q.
            append_packet-InSync sent c chain
              (record {
                validator_updates = u ∷ us;
                valset_update_id = vsc_id;
                slash_acks = c.slash_acks;
              })
              (h launched) leads,
      )

pub update_at_twice :
    (id j : ℕ) (f g : Consumer → Consumer) (cs : ℕ → Consumer)
    → update_at id g (update_at id f cs) j ≡ (if j == id then g (f (cs id)) else cs j)
update_at_twice id j f g cs = ground arith

at_id : (id j : ℕ) (cs : ℕ → Consumer) → cs j ≡ (if j == id then cs id else cs j)
at_id id j cs = elim (Bool-cases (j == id)) [
  | inl same ↦ let there : j ≡ id = ground arith in rw (same) (ap cs there)
  | inr other ↦ rw (other) refl
]

enqueue-consumers :
    (id vsc_id : ℕ) (us : List ValidatorUpdate) (s : Provider) (j : ℕ)
    → (enqueue id vsc_id us s).1.consumers j
      ≡ (if j == id then queued vsc_id us (s.consumers id) else s.consumers j)
unfolding enqueue
enqueue-consumers id vsc_id [] s j = at_id id j s.consumers
enqueue-consumers id vsc_id (u ∷ us) s j =
    update_at_twice id j clear_acks
      (append_packet (record {
        validator_updates = u ∷ us;
        valset_update_id = vsc_id;
        slash_acks = (s.consumers id).slash_acks;
      }))
      s.consumers

enqueue-sent :
    (id vsc_id : ℕ) (us : List ValidatorUpdate) (s : Provider)
    → (enqueue id vsc_id us s).1.sent ≡ s.sent
unfolding enqueue
enqueue-sent id vsc_id [] s = refl
enqueue-sent id vsc_id (u ∷ us) s = refl

abbrev pub AllReady : List StakingValidator → Provider → Type 0
AllReady bonded s = (j : ℕ) → IsReady bonded s.sent (s.consumers j)

-- A state in which one chain has been replaced by one that is ready, and nothing was sent.
AllReady-at :
    (bonded : List StakingValidator) (id : ℕ) (c : Consumer) (s s' : Provider)
    → AllReady bonded s
    → IsReady bonded s.sent c
    → s'.sent ≡ s.sent
    → ((j : ℕ) → s'.consumers j ≡ (if j == id then c else s.consumers j))
    → AllReady bonded s'
AllReady-at bonded id c s s' h hc e at j =
    subst (λ x. IsReady bonded x (s'.consumers j)) (sym e)
      (subst (IsReady bonded s.sent) (sym (at j)) (go (j == id)))
  where
    go : (x : Bool) → IsReady bonded s.sent (if x then c else s.consumers j)
    go true = hc
    go false = h j

module _ (l : Library) (k : Staking) (b : Block) (max_vals : ℕ)
    (bonded active : List StakingValidator) (vsc_id : ℕ) where
  queue_vsc_packet-AllReady :
      (id : ℕ) (s s' : Provider)
      → AllReady bonded s
      → is_launched (get_consumer_phase id s) ≡ true
      → queue_vsc_packet l k b max_vals bonded active vsc_id id s ≡ (ok tt, s')
      → AllReady bonded s'
  unfolding queue_vsc_packet on_chain
  queue_vsc_packet-AllReady id s s' h launched e =
      let c = s.consumers id in
      let call =
        compute_consumer_next_val_set l k b max_vals bonded active (get_val_set c.chain.val_set) in
      let r = call c.chain in
      let s1 = update_consumer id (λ x. record x { chain = r.1 }) s in
      let step = continue-ok (r.0, s1) (λ us. enqueue id vsc_id us) tt s' e in
      let us = step.0 in
      let same : step.1.0 ≡ s1 = sym (ap (λ x. x.1) step.1.1.0) in
      let computed : call c.chain ≡ (ok us, r.1) = ap (λ o. (o, r.1)) (ap (λ x. x.0) step.1.1.0) in
      let enqueued : (enqueue id vsc_id us s1) ≡ (ok tt, s') =
        ap (enqueue id vsc_id us) (sym same) ∙ step.1.1.1 in
      AllReady-at bonded id (queued vsc_id us (record c { chain = r.1 })) s s' h
        (queued-IsReady l k b max_vals bonded active vsc_id s.sent c r.1 us (h id) launched
          computed)
        (sym (ap (λ x. x.1.sent) enqueued) ∙ enqueue-sent id vsc_id us s1)
        λ j.
          sym (ap (λ x. x.1.consumers j) enqueued)
          ∙ enqueue-consumers id vsc_id us s1 j
          ∙ ground arith

  queue_if_launched-AllReady :
      (id : ℕ) (s s' : Provider)
      → AllReady bonded s
      → queue_if_launched l k b max_vals bonded active vsc_id id s ≡ (ok tt, s')
      → AllReady bonded s'
  unfolding queue_if_launched
  queue_if_launched-AllReady id s s' h e = go (is_launched (get_consumer_phase id s)) refl e
    where
      go :
          (x : Bool)
          → is_launched (get_consumer_phase id s) ≡ x
          → (if x then queue_vsc_packet l k b max_vals bonded active vsc_id id else pure tt) s
            ≡ (ok tt, s')
          → AllReady bonded s'
      go true launched e' = queue_vsc_packet-AllReady id s s' h launched e'
      go false waits e' = subst (AllReady bonded) (ap (λ x. x.1) e') h

  queue_each-AllReady :
      (ids : List ℕ) (s s' : Provider)
      → AllReady bonded s
      → queue_each l k b max_vals bonded active vsc_id ids s ≡ (ok tt, s')
      → AllReady bonded s'
  unfolding queue_each
  queue_each-AllReady [] s s' h e = subst (AllReady bonded) (ap (λ x. x.1) e) h
  queue_each-AllReady (id ∷ ids) s s' h e =
      let step =
        continue-ok (queue_if_launched l k b max_vals bonded active vsc_id id s) _ tt s' e in
      queue_each-AllReady ids step.1.0 s' (queue_if_launched-AllReady id s step.1.0 h step.1.1.0)
        step.1.1.1

module _ (l : Library) (k : Staking) (b : Block) (v : Bonded) (bonded : List StakingValidator) where
  -- Where `QueueVSCPackets` succeeds on the given bonded validators, no two of which have one address or
  -- one key on a chain, every launched chain stays in step: the packets that IBC accepted for
  -- it so far and those that are pending, applied after its genesis, give the powers of the set that is now
  -- stored for it.
  pub queue_vsc_packets-AllReady :
      (s s' : Provider)
      → v.validators ≡ ok bonded
      → AllReady bonded s
      → queue_vsc_packets l k b v s ≡ (ok tt, s')
      → AllReady bonded s'
  unfolding queue_vsc_packets
  queue_vsc_packets-AllReady s s' e h q =
      let vals = continue-ok (v.validators, s) _ tt s' q in
      let act = continue-ok (v.active, vals.1.0) _ tt s' vals.1.1.1 in
      let ids = get_all_consumers_with_ibc_clients act.1.0 in
      let each =
        continue-ok
          (queue_each l k b v.max_provider_consensus_validators vals.0 act.0
            (get_validator_set_update_id s) ids act.1.0)
          _ tt s' act.1.1.1 in
      let same : s ≡ act.1.0 = ap (λ x. x.1) vals.1.1.0 ∙ ap (λ x. x.1) act.1.1.0 in
      let vals_eq : bonded ≡ vals.0 = ok_inj (sym e ∙ ap (λ x. x.0) vals.1.1.0) in
      let before : AllReady vals.0 act.1.0 =
        subst (λ y. AllReady y act.1.0) vals_eq (subst (AllReady bonded) same h) in
      subst (λ y. AllReady y s') (sym vals_eq)
        (subst (AllReady vals.0) (ap (λ x. x.1) each.1.1.1) (
          queue_each-AllReady l k b v.max_provider_consensus_validators vals.0 act.0
            (get_validator_set_update_id s) ids act.1.0 each.1.0 before each.1.1.0))
