-- ===== src/Examples/Lifecycles.antt =====
-- The launch of the Top 61 chain and the removal of a stopped one.
use interchain_security.Common.{
  ℕ, ◌≡◌, refl, [], ◌∷◌, some, take, ap, inl, inr, Bool-cases, ◌==◌, arith,
}
use interchain_security.Common.Outcome.{ok}
use interchain_security.Store
use interchain_security.Store.{elem}
use interchain_security.Sorting.Insertion.{insertion}
use interchain_security.Provider.Phase.{Phase}
use interchain_security.Provider.Chain.{Chain}
use interchain_security.Provider.ValidatorSet.{diff_validators, set_val_set}
use interchain_security.Provider.NextValidators.{compute_consumer_next_val_set}
use interchain_security.Provider.TimeQueue.Consume.{due_ids}
use interchain_security.Provider.Consumers.{Provider}
use interchain_security.Provider.NextValidators.Distinct.{Distinguished}
use interchain_security.Provider.Lifecycle.Launch
use interchain_security.Provider.Lifecycle.Launch.{launch_consumer, begin_block_launch_consumers}
use interchain_security.Provider.Lifecycle.Launch.Each.{begin_block_launch_consumers-Fate}
use interchain_security.Provider.Lifecycle.Removal.{begin_block_remove_consumers}
use interchain_security.Provider.Lifecycle.Removal.Removed.{Fate}
use interchain_security.Examples.Powers.{staking, bonded}
use interchain_security.Examples.Selection.{library, block, top_chain, after_epoch}
use interchain_security.Examples.Chains.{
  start_at, unknown, all_bonded, with_chain, provider, ibc, bonded-Distinguished,
}
use interchain_security.Examples.Infractions.{before}

abbrev initialized_chain : Chain
initialized_chain = record top_chain { phase = Phase.initialized }

abbrev waiting : Provider
waiting = record (provider (with_chain initialized_chain)) { clients = []; client_consumers = [] }

abbrev started : Provider
started = (launch_consumer library staking ibc block 100 bonded bonded 0 waiting).1

launched : (launch_consumer library staking ibc block 100 bonded bonded 0 waiting).0 ≡ ok tt
unfolding launch_consumer compute_consumer_next_val_set Store.set Store.delete_keys insertion
    diff_validators set_val_set
launched = refl

-- The chain was stopped, and its time is 90.
abbrev stopping : Provider
stopping = record (provider (with_chain (record after_epoch { phase = Phase.stopped }))) {
  to_remove = (90, 0 ∷ []) ∷ (120, 1 ∷ []) ∷ [];
  infractions = before;
}

removed : ((begin_block_remove_consumers block stopping).1.consumers 0).chain.phase ≡ Phase.deleted
unfolding begin_block_remove_consumers
removed = refl

-- The launch queue has the chain 0 at the time 90 and the chain 1, which was not initialized, at 95.
abbrev scheduled : Provider
scheduled = record waiting { to_launch = (90, 0 ∷ []) ∷ (95, 1 ∷ []) ∷ (120, 2 ∷ []) ∷ [] }

abbrev after_launches : Provider
after_launches = (begin_block_launch_consumers library staking ibc block all_bonded scheduled).1

launches : (begin_block_launch_consumers library staking ibc block all_bonded scheduled).0 ≡ ok tt
unfolding begin_block_launch_consumers compute_consumer_next_val_set Store.set Store.delete_keys
    insertion diff_validators set_val_set
launches = refl

launched_one :
    ((after_launches.consumers 0).chain.phase ≡ Phase.launched)
    × (((after_launches.consumers 1).chain.phase ≡ Phase.registered)
        × ((after_launches.consumers 1).initialization ≡ some (start_at 0)))
unfolding begin_block_launch_consumers compute_consumer_next_val_set Store.set Store.delete_keys
    insertion diff_validators set_val_set
launched_one = (refl, (refl, refl))

scheduled-Distinguished : (j : ℕ) → Distinguished (scheduled.consumers j).chain bonded
scheduled-Distinguished j = elim (Bool-cases (j == 0)) [
  | inl at ↦ rw (at) (bonded-Distinguished initialized_chain)
  | inr other ↦ rw (other) (bonded-Distinguished unknown.chain)
]

begin_block_launch_consumers-Fate_example :
    Launch.Each.Fate bonded
      (elem 1 (take 200 (due_ids block.time scheduled.to_launch)))
      (scheduled.consumers 1)
      (after_launches.consumers 1)
begin_block_launch_consumers-Fate_example =
    begin_block_launch_consumers-Fate library staking ibc block all_bonded bonded bonded scheduled
      after_launches refl refl ((omega arith, (omega arith, tt)), ((omega arith, tt), (tt, tt)))
      (refl, (refl, tt)) (λ j listed. scheduled-Distinguished j)
      (ap (λ o. (o, after_launches)) launches) 1
