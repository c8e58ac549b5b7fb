-- ===== src/Examples/Infractions.antt =====
-- The infraction parameters of the chains 0 and 1: new ones wait for the chain 0.
use interchain_security.Common.{ℕ, ◌≡◌, refl, false, [], ◌∷◌, none, some, arith, take, ◌==◌}
use interchain_security.Common.Outcome.{ok}
use interchain_security.Store
use interchain_security.Store.{elem}
use interchain_security.Provider.TimeQueue.Consume.{due_ids}
use interchain_security.Provider.Infraction.{
  InfractionParameters, Infractions, get_infraction_parameters, get_queued_infraction_parameters,
  update_queued_infraction_params, begin_block_update_infraction_parameters,
}
use interchain_security.Provider.Infraction.Unscheduled.{IsScheduled}
use interchain_security.Provider.Infraction.Scheduled.{
  Request, update_queued_infraction_params-IsScheduled,
}
use interchain_security.Provider.Infraction.Turns.{Applied}
use interchain_security.Provider.Infraction.Applied.{
  begin_block_update_infraction_parameters-Applied,
}
use interchain_security.Examples.Powers.{staking}
use interchain_security.Examples.Selection.{block}

-- Downtime costs so many parts of the stake.
abbrev costs : ℕ → InfractionParameters
costs n = record {
  double_sign = none;
  downtime = some (record { slash_fraction = n; jail_duration = 600; tombstone = false });
}

abbrev pub before : Infractions
before = record {
  parameters = (0, costs 1) ∷ (1, costs 1) ∷ [];
  queued = (0, costs 2) ∷ [];
  schedule = (90, 0 ∷ []) ∷ [];
}

pub before-IsScheduled : IsScheduled before
before-IsScheduled = record {
  ordered = (tt, tt);
  counted = λ id. ground arith;
  usable = λ id p e. ground (arith, e);
}

begin_block_update_infraction_parameters-Applied_example :
    (s' : Infractions) × ((begin_block_update_infraction_parameters block before ≡ (ok tt, s'))
      × (IsScheduled s'
          × ((j : ℕ)
              → Applied (elem j (take 200 (due_ids block.time before.schedule))) j before s')))
begin_block_update_infraction_parameters-Applied_example =
    begin_block_update_infraction_parameters-Applied block before before-IsScheduled

-- The chain 0 asks for other parameters: the old request is dropped, and the new one waits until 200.
abbrev changed : Infractions
changed = record before { queued = (0, costs 3) ∷ []; schedule = (200, 0 ∷ []) ∷ [] }

update_changes : update_queued_infraction_params staking block 0 (costs 3) before ≡ (ok tt, changed)
unfolding update_queued_infraction_params Store.set Store.delete
update_changes = refl

-- Asking for the ones that hold takes the request back.
update_cancels :
    update_queued_infraction_params staking block 0 (costs 1) before
    ≡ (ok tt, record before { queued = []; schedule = [] })
unfolding update_queued_infraction_params Store.set Store.delete
update_cancels = refl

update_queued_infraction_params-IsScheduled_example :
    (IsScheduled changed
      × ((changed.parameters ≡ before.parameters)
          × ((j : ℕ)
              → (j == 0) ≡ false
              → get_queued_infraction_parameters j changed
                ≡ get_queued_infraction_parameters j before)))
    × ((current : InfractionParameters) × ((get_infraction_parameters 0 before ≡ some current)
          × Request staking block 0 current (costs 3) changed))
update_queued_infraction_params-IsScheduled_example =
    update_queued_infraction_params-IsScheduled staking block 0 (costs 3) before changed refl
      before-IsScheduled update_changes
