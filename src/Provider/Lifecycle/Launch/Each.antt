-- ===== src/Provider/Lifecycle/Launch/Each.antt =====
-- `BeginBlockLaunchConsumers`: every chain whose time has come is started or may be scheduled again.
use interchain_security.Common.{
  ℕ, ◌≡◌, ◌⊎◌, refl, sym, ap, ◌∙◌, subst, Bool, true, false, List, [], ◌∷◌, some, arith, ◌==◌, ◌||◌,
  if◌then◌else◌, inl, inr, Bool-cases, take,
}
use interchain_security.Common.Outcome.{
  Outcome, ok, err, panic, continue, continue-ok, attempt, ◌>>=◌, or_fail, or_fail-ok,
  invalid_consumer_state,
}
use interchain_security.Store.{elem}
use interchain_security.Store.Ordered.{Ascending}
use interchain_security.Provider.Phase.{Phase}
use interchain_security.Provider.Staking.{Staking, StakingValidator, Block}
use interchain_security.Provider.NextValidators.{Library}
use interchain_security.Provider.NextValidators.Distinct.{Distinguished}
use interchain_security.Provider.TimeQueue.{Queue, consume_ids_from_time_queue}
use interchain_security.Provider.TimeQueue.Consume.{due_ids, consume_ids_from_time_queue-due}
use interchain_security.Provider.Ibc.{Ibc}
use interchain_security.Provider.Cached.{commit, cached}
use interchain_security.Provider.Consumers.{Initialization, Consumer, Provider, with_phase}
use interchain_security.Provider.Lifecycle.Launch.{
  Bonded, launch_consumer, reset_launch, set_consumer_initialization_parameters, launch_each,
  no_ids, begin_block_launch_consumers,
}
use interchain_security.Provider.Lifecycle.Launch.Started.{
  IsStarted, at_own, launch_consumer-IsStarted,
}
use interchain_security.Provider.Lifecycle.Launch.Others.{reset_launch-entry, launch_consumer-entry}

-- A chain whose launch failed: registered, without a spawn time, and as it was in all else.
abbrev pub IsReset : Consumer → Consumer → Type 0
IsReset c c' =
    (p : Initialization) × ((c.initialization ≡ some p)
      × (c'
          ≡ with_phase Phase.registered
              (record c { initialization = some (record p { spawn_time = 0 }) })))

-- What becomes of a chain, by whether it is due.
abbrev pub Fate : List StakingValidator → Bool → Consumer → Consumer → Type 0
Fate active true c c' = IsStarted active c' ⊎ IsReset c c'
Fate active false c c' = c' ≡ c

-- No id twice.
abbrev pub Distinct : List ℕ → Type 0
Distinct [] = Unit
Distinct (id ∷ ids) = (elem id ids ≡ false) × Distinct ids

set_consumer_initialization_parameters-at :
    (i : Ibc) (id : ℕ) (p : Initialization) (s s' : Provider)
    → set_consumer_initialization_parameters i id p s ≡ (ok tt, s')
    → s'.consumers id ≡ record (s.consumers id) { initialization = some p }
unfolding set_consumer_initialization_parameters
set_consumer_initialization_parameters-at i id p s s' e = ground (arith, e)

reset_launch-IsReset :
    (i : Ibc) (id : ℕ) (s s' : Provider)
    → reset_launch i id s ≡ (ok tt, s')
    → IsReset (s.consumers id) (s'.consumers id)
unfolding reset_launch
reset_launch-IsReset i id s s' e =
    let found =
      continue-ok (or_fail (s.consumers id).initialization invalid_consumer_state s) _ tt s' e in
    let p = found.0 in
    let stored =
      or_fail-ok (s.consumers id).initialization invalid_consumer_state s p found.1.0 found.1.1.0 in
    let p' : Initialization = record p { spawn_time = 0 } in
    let put =
      continue-ok (set_consumer_initialization_parameters i id p' found.1.0) _ tt s' found.1.1.1 in
    (
      p,
      (
        stored.0,
        (ap (λ r. r.1.consumers id) (sym put.1.1.1)
            ∙ at_own id (with_phase Phase.registered) put.1.0
            ∙ ap (with_phase Phase.registered) (
                set_consumer_initialization_parameters-at i id p' found.1.0 put.1.0 put.1.1.0
                ∙ ap (λ x. record (x.consumers id) { initialization = some p' }) (sym stored.1))),
      ),
    )

module _ (l : Library) (k : Staking) (i : Ibc) (b : Block) (max_vals : ℕ)
    (bonded active : List StakingValidator) where
  -- One turn of the loop.
  launch_turn : ℕ → Provider → Outcome (Unit {0}) × Provider
  launch_turn id =
      cached (launch_consumer l k i b max_vals bonded active id) (λ e. reset_launch i id)

  launch_turn-own :
      (id : ℕ) (s s' : Provider)
      → Distinguished (s.consumers id).chain bonded
      → launch_turn id s ≡ (ok tt, s')
      → Fate active true (s.consumers id) (s'.consumers id)
  unfolding launch_turn
  launch_turn-own id s s' d e = go (launch_consumer l k i b max_vals bonded active id s) refl e
    where
      go :
          (r : Outcome (Unit {0}) × Provider)
          → launch_consumer l k i b max_vals bonded active id s ≡ r
          → commit (λ x. reset_launch i id) s r ≡ (ok tt, s')
          → Fate active true (s.consumers id) (s'.consumers id)
      go (ok u, s1) q h =
          inl (launch_consumer-IsStarted l k i b max_vals bonded active id s s' d (q ∙ h))
      go (err x, s1) q h = inr (reset_launch-IsReset i id s s' h)
      go (panic, s1) q h = cc

  launch_turn-other :
      (id j : ℕ) (s s' : Provider)
      → (j == id) ≡ false
      → launch_turn id s ≡ (ok tt, s')
      → s'.consumers j ≡ s.consumers j
  unfolding launch_turn
  launch_turn-other id j s s' other e =
      go (launch_consumer l k i b max_vals bonded active id s) refl e
    where
      go :
          (r : Outcome (Unit {0}) × Provider)
          → launch_consumer l k i b max_vals bonded active id s ≡ r
          → commit (λ x. reset_launch i id) s r ≡ (ok tt, s')
          → s'.consumers j ≡ s.consumers j
      go (ok u, s1) q h =
          ap (λ r. r.1.consumers j) (sym h)
          ∙ ap (λ r. r.1.consumers j) (sym q)
          ∙ launch_consumer-entry id j other l k i b max_vals bonded active s
      go (err x, s1) q h = ap (λ r. r.1.consumers j) (sym h) ∙ reset_launch-entry id j other i s
      go (panic, s1) q h = cc

  launch_turn-Fate :
      (id j : ℕ) (ids : List ℕ) (s s1 s' : Provider)
      → elem id ids ≡ false
      → Distinguished (s.consumers id).chain bonded
      → launch_turn id s ≡ (ok tt, s1)
      → Fate active (elem j ids) (s1.consumers j) (s'.consumers j)
      → Fate active (elem j (id ∷ ids)) (s.consumers j) (s'.consumers j)
  launch_turn-Fate id j ids s s1 s' once d turn rest = go (j == id) refl
    where
      go :
          (x : Bool)
          → (j == id) ≡ x
          → Fate active (x || elem j ids) (s.consumers j) (s'.consumers j)
      go true at =
          let there : id ≡ j = ground (arith, at) in
          let kept : s'.consumers j ≡ s1.consumers j =
            subst (λ x. Fate active x (s1.consumers j) (s'.consumers j))
              (subst (λ m. elem m ids ≡ false) there once) rest in
          subst (Fate active true (s.consumers j)) (sym kept) (
            subst (λ m. Fate active true (s.consumers m) (s1.consumers m)) there
              (launch_turn-own id s s1 d turn))
      go false other =
          subst (λ c. Fate active (elem j ids) c (s'.consumers j))
            (launch_turn-other id j s s1 other turn) rest

  launch_each-Fate :
      (ids : List ℕ) (s s' : Provider)
      → Distinct ids
      → ((j : ℕ) → elem j ids ≡ true → Distinguished (s.consumers j).chain bonded)
      → launch_each l k i b max_vals bonded active ids s ≡ (ok tt, s')
      → (j : ℕ) → Fate active (elem j ids) (s.consumers j) (s'.consumers j)
  unfolding launch_each launch_turn
  launch_each-Fate [] s s' distinct d e j = ap (λ r. r.1.consumers j) (sym e)
  launch_each-Fate (id ∷ ids) s s' distinct d e j =
      let turn = continue-ok (launch_turn id s) _ tt s' e in
      let done = turn.1.1.0 in
      launch_turn-Fate id j ids s turn.1.0 s' distinct.0 (d id (ground arith)) done (
        launch_each-Fate ids turn.1.0 s' distinct.1
          (λ m listed.
            subst (λ c. Distinguished c.chain bonded)
              (sym (launch_turn-other id m s turn.1.0 (not_first distinct.0 m listed) done))
              (d m (ground (arith, listed))))
          turn.1.1.1 j)
    where
      not_first : elem id ids ≡ false → (m : ℕ) → elem m ids ≡ true → (m == id) ≡ false
      not_first once m listed = elim (Bool-cases (m == id)) [
        | inl at ↦
            let same : m ≡ id = ground (arith, at) in
            absurd (ground (arith, sym once ∙ ap (λ x. elem x ids) (sym same) ∙ listed))
        | inr other ↦ other
      ]

-- Where `BeginBlockLaunchConsumers` succeeds, each chain among the first 200 ids of the launch queue whose
-- time has come is either started, in the sense of IsStarted, or it is registered again with a
-- spawn time of zero and with nothing else of its entries changed, whatever its launch had written. Every
-- other chain keeps its entries. The queue is in ascending order of times, no id is due twice, and no two
-- bonded validators have one address or one key on a chain that is due.
pub begin_block_launch_consumers-Fate :
    (l : Library) (k : Staking) (i : Ibc) (b : Block) (v : Bonded)
    (bonded active : List StakingValidator) (s s' : Provider)
    → v.validators ≡ ok bonded
    → v.active ≡ ok active
    → Ascending s.to_launch
    → Distinct (take 200 (due_ids b.time s.to_launch))
    → ((j : ℕ)
        → elem j (take 200 (due_ids b.time s.to_launch)) ≡ true
        → Distinguished (s.consumers j).chain bonded)
    → begin_block_launch_consumers l k i b v s ≡ (ok tt, s')
    → (j : ℕ)
    → Fate active (elem j (take 200 (due_ids b.time s.to_launch))) (s.consumers j) (s'.consumers j)
unfolding begin_block_launch_consumers
begin_block_launch_consumers-Fate l k i b v bonded active s s' eb ea asc distinct d e j =
    let consumed = consume_ids_from_time_queue 200 b.time s.to_launch in
    let due : consumed.0 ≡ take 200 (due_ids b.time s.to_launch) =
      consume_ids_from_time_queue-due 200 b.time s.to_launch asc in
    subst (λ ids. Fate active (elem j ids) (s.consumers j) (s'.consumers j)) due
      (go consumed.0 consumed.1 (subst Distinct (sym due) distinct)
        (λ m listed. d m (ap (elem m) (sym due) ∙ listed)) e)
  where
    all_of :
        List ℕ
        → List StakingValidator
        → List StakingValidator
        → Provider
        → Outcome (Unit {0}) × Provider
    all_of ids bonded active =
        launch_each l k i b v.max_provider_consensus_validators bonded active ids

    go :
        (ids : List ℕ) (q : Queue)
        → Distinct ids
        → ((m : ℕ) → elem m ids ≡ true → Distinguished (s.consumers m).chain bonded)
        → (if no_ids ids
            then (ok tt, record s { to_launch = q })
            else (do
              bonded ← attempt v.validators
              active ← attempt v.active
              all_of ids bonded active)
                (record s { to_launch = q }))
          ≡ (ok tt, s')
        → Fate active (elem j ids) (s.consumers j) (s'.consumers j)
    go [] q distinct d e = ap (λ r. r.1.consumers j) (sym e)
    go (id ∷ ids) q distinct d e =
        let s1 : Provider = record s { to_launch = q } in
        let with_bonded =
          ap (λ r. continue (r, s1) (λ x. attempt v.active >>= λ a. all_of (id ∷ ids) x a)) (sym eb)
          ∙ e in
        let with_both =
          ap (λ r. continue (r, s1) (all_of (id ∷ ids) bonded)) (sym ea) ∙ with_bonded in
        launch_each-Fate l k i b v.max_provider_consensus_validators bonded active (id ∷ ids) s1 s'
          distinct d with_both j
