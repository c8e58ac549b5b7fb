-- ===== src/Examples/Selection.antt =====
-- The choice of a consumer chain's validators on three bonded validators with powers 5, 60 and 35,
-- whose addresses are their powers.
use mathlib.Core.List.{Perm}
use interchain_security.Common.{
  ℕ, ◌≤◌, ◌≡◌, refl, true, not, List, [], ◌∷◌, none, some, ◌==◌, ◌&&◌, ◌||◌, length, All,
}
use interchain_security.Common.Outcome.{ok, err, is_ok, cannot_opt_out_from_top_n}
use interchain_security.Store
use interchain_security.Sorting.Insertion.{insertion, greater-StrictWeak}
use interchain_security.Updates.{ValidatorUpdate, apply_updates}
use interchain_security.Provider.Phase.{Phase}
use interchain_security.Provider.Decimals.{exact_dec}
use interchain_security.Provider.Staking.{Block}
use interchain_security.Provider.KeyAssignment.{no_keys}
use interchain_security.Provider.Chain.{Chain}
use interchain_security.Provider.ValidatorSet.{ConsensusValidator}
use interchain_security.Provider.ValidatorSet.Storage.{find_last}
use interchain_security.Provider.ValidatorSet.Diff.{powers}
use interchain_security.Provider.PowerShaping.Parameters.{Parameters, zero_parameters}
use interchain_security.Provider.PowerShaping.Eligibility.{
  is_opted_in, set_consumer_power_shaping_parameters,
}
use interchain_security.Provider.PowerShaping.Eligibility.Indexes.{
  IsIndexed, set_consumer_power_shaping_parameters-IsIndexed,
}
use interchain_security.Provider.OptIn.{handle_opt_out, opt_in_top_n_validators}
use interchain_security.Provider.OptIn.Membership.{
  in_top, handle_opt_out-opted_in, opt_in_top_n_validators-opted_in,
}
use interchain_security.Provider.NextValidators.{
  Library, by_tokens, considered, compute_next_validators, compute_consumer_next_val_set,
}
use interchain_security.Provider.NextValidators.Eligible.{eligible}
use interchain_security.Provider.NextValidators.Filtered.{addrs, eligible_addrs}
use interchain_security.Provider.NextValidators.Chosen.{
  compute_next_validators-eligible, compute_next_validators-perm, compute_next_validators-le,
}
use interchain_security.Provider.NextValidators.Sent.{compute_consumer_next_val_set-sent}
use interchain_security.Examples.Powers.{by, by_number, staking, bonded}

abbrev pub library : Library
library = record {
  decimals = exact_dec;
  sort_tokens = insertion by_tokens (greater-StrictWeak (λ v. v.bonded_tokens));
  sort_power = by;
  sort_powers = by_number;
}

abbrev pub block : Block
block = record { time = 100; height = 7 }

-- A Top 61 chain that asks for a stake of 10 and gives priority to validator 35.
abbrev top_parameters : Parameters
top_parameters = record zero_parameters {
  top_n = 61;
  min_stake = 10;
  allow_inactive_vals = true;
  prioritylist = 35 ∷ [];
}

-- An opt-in chain with a cap of one validator.
abbrev capped_parameters : Parameters
capped_parameters = record zero_parameters { validator_set_cap = 1; denylist = 60 ∷ [] }

abbrev pub new_chain : Chain
new_chain = record {
  phase = Phase.launched;
  parameters = none;
  allowed = [];
  denied = [];
  prioritized = [];
  minimum_power_in_top_n = none;
  opted_in = (5, tt) ∷ [];
  val_set = [];
  keys = no_keys;
}

abbrev pub top_chain : Chain
top_chain = record new_chain { parameters = some top_parameters; prioritized = (35, tt) ∷ [] }

set_parameters_indexes :
    set_consumer_power_shaping_parameters staking top_parameters new_chain ≡ top_chain
unfolding set_consumer_power_shaping_parameters Store.set Store.delete_keys
set_parameters_indexes = refl

set_consumer_power_shaping_parameters-IsIndexed_example :
    IsIndexed staking (set_consumer_power_shaping_parameters staking top_parameters new_chain)
set_consumer_power_shaping_parameters-IsIndexed_example =
    set_consumer_power_shaping_parameters-IsIndexed staking top_parameters new_chain
      ((λ addr. refl), ((λ addr. refl), (λ addr. refl)))

abbrev validator : ℕ → ConsensusValidator
validator a = record { provider_cons_addr = a; power = a; public_key = a; join_height = 7 }

abbrev pub after_epoch : Chain
after_epoch = record top_chain {
  minimum_power_in_top_n = some 35;
  opted_in = (5, tt) ∷ (35, tt) ∷ (60, tt) ∷ [];
  val_set = (35, validator 35) ∷ (60, validator 60) ∷ [];
}

abbrev pub sent : List ValidatorUpdate
sent = record { pub_key = 35; power = 35 } ∷ record { pub_key = 60; power = 60 } ∷ []

pub epoch :
    compute_consumer_next_val_set library staking block 100 bonded bonded [] top_chain
    ≡ (ok sent, after_epoch)
unfolding compute_consumer_next_val_set Store.set Store.delete_keys insertion
epoch = refl

-- The set of the Top 61 chain once its top validators are opted in.
abbrev opted_chain : Chain
opted_chain = record after_epoch { val_set = [] }

abbrev chosen : List ConsensusValidator
chosen = validator 35 ∷ validator 60 ∷ []

chosen_by_the_code :
    compute_next_validators library staking block 100 opted_chain bonded top_parameters 35
    ≡ ok chosen
unfolding compute_next_validators insertion
chosen_by_the_code = refl

compute_next_validators-eligible_example :
    All (λ v. eligible staking opted_chain top_parameters 35 v.provider_cons_addr ≡ true) chosen
compute_next_validators-eligible_example =
    compute_next_validators-eligible library staking block 100 opted_chain bonded top_parameters 35
      chosen chosen_by_the_code

compute_next_validators-perm_example : Perm (addrs chosen) (
    eligible_addrs staking opted_chain top_parameters 35
      (considered library 100 top_parameters bonded))
compute_next_validators-perm_example =
    compute_next_validators-perm library staking block 100 opted_chain bonded top_parameters 35
      chosen chosen_by_the_code refl

-- An opt-in chain with a cap of one validator, which 5 and 35 opted in to.
abbrev pub capped_chain : Chain
capped_chain = record new_chain {
  parameters = some capped_parameters;
  opted_in = (5, tt) ∷ (35, tt) ∷ [];
}

abbrev capped : List ConsensusValidator
capped = validator 35 ∷ []

capped_by_the_code :
    compute_next_validators library staking block 100 capped_chain bonded capped_parameters 0
    ≡ ok capped
unfolding compute_next_validators insertion
capped_by_the_code = refl

compute_next_validators-le_example : length capped ≤ capped_parameters.validator_set_cap
compute_next_validators-le_example =
    compute_next_validators-le library staking block 100 capped_chain bonded capped_parameters 0
      capped capped_by_the_code refl

compute_consumer_next_val_set-sent_example :
    (next : List ConsensusValidator) × (((addr : ℕ)
        → Store.get addr after_epoch.val_set ≡ find_last addr next none)
      × ((key : ℕ) → apply_updates sent (powers []) key ≡ powers next key))
compute_consumer_next_val_set-sent_example =
    compute_consumer_next_val_set-sent library staking block 100 bonded bonded [] top_chain
      after_epoch sent epoch

top_validator_stays :
    handle_opt_out staking 60 after_epoch ≡ (err cannot_opt_out_from_top_n, after_epoch)
unfolding handle_opt_out
top_validator_stays = refl

handle_opt_out-opted_in_example :
    is_opted_in 5 (handle_opt_out staking 5 after_epoch).1
    ≡ is_opted_in 5 after_epoch && not (is_ok (handle_opt_out staking 5 after_epoch).0 && 5 == 5)
handle_opt_out-opted_in_example = handle_opt_out-opted_in staking 5 5 after_epoch

abbrev top_opted_in : Chain
top_opted_in = record top_chain { opted_in = (5, tt) ∷ (35, tt) ∷ (60, tt) ∷ [] }

top_opts_in : opt_in_top_n_validators staking bonded 35 top_chain ≡ (ok tt, top_opted_in)
unfolding opt_in_top_n_validators Store.set
top_opts_in = refl

opt_in_top_n_validators-opted_in_example :
    is_opted_in 60 top_opted_in ≡ in_top staking 35 60 bonded || is_opted_in 60 top_chain
opt_in_top_n_validators-opted_in_example =
    opt_in_top_n_validators-opted_in staking 35 60 bonded top_chain top_opted_in top_opts_in
