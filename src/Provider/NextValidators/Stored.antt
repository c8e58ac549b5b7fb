-- ===== src/Provider/NextValidators/Stored.antt =====
-- From one stored validator set of a consumer chain to the next: what `ComputeConsumerNextValSet` returns
-- is the difference between the powers that are stored before and after it.
use interchain_security.Common.{
  ℕ, ◌≤◌, ◌≡◌, refl, sym, ap, ◌∙◌, List, [], ◌∷◌, Option, none, some, arith, ltb, leb, inl, inr,
  Bool-cases,
}
use interchain_security.Common.Outcome.{
  ok, continue-ok, continue-keeps, ok_inj, Error, or_fail, invalid_consumer_state, external,
}
use interchain_security.Sorting.Perms.{sum_by}
use interchain_security.Updates.{ValidatorUpdate, apply_updates}
use interchain_security.Provider.Staking.{Staking, StakingValidator, Block}
use interchain_security.Provider.Chain.{Chain}
use interchain_security.Provider.ValidatorSet.{ConsensusValidator, get_val_set, diff_validators}
use interchain_security.Provider.ValidatorSet.Diff.{powers, diff_validators-powers}
use interchain_security.Provider.ValidatorSet.Counts.{hit, powers-stored}
use interchain_security.Provider.PowerShaping.Parameters.{Parameters}
use interchain_security.Provider.PowerShaping.TopN.{last_power, compute_min_power_in_top_n}
use interchain_security.Provider.PowerShaping.Eligibility.{set_minimum_power_in_top_n}
use interchain_security.Provider.OptIn.{opt_in_if_top, opt_in_top_n_validators, set_opted_in}
use interchain_security.Provider.NextValidators.{
  Library, compute_consumer_next_val_set, compute_next_validators, opt_in_top_n, store_val_set,
  consumer_public_key,
}
use interchain_security.Provider.NextValidators.Distinct.{
  Distinguished, uses_key, next-addrs, next-keys,
}

or_fail-keeps :
    {A X : Type 0} (read : Chain → X) (o : Option A) (e : Error) (c : Chain)
    → read (or_fail o e c).1 ≡ read c
or_fail-keeps read none e c = refl
or_fail-keeps read (some a) e c = refl

-- Opting validators in leaves the keys, the phase and the stored set alone.
module _ {X : Type 0} (read : Chain → X)
    (ignores : (addr : ℕ) (c : Chain) → read (set_opted_in addr c) ≡ read c) where
  opt_in_if_top-keeps :
      (k : Staking) (min_power : ℕ) (v : StakingValidator) (c : Chain)
      → read (opt_in_if_top k min_power v c).1 ≡ read c
  unfolding opt_in_if_top
  opt_in_if_top-keeps k min_power v c =
      continue-keeps read (last_power k v, c) _
        λ power c1. elim (Bool-cases (leb min_power power)) [
          | inl top ↦ rw (top) (
              continue-keeps read (or_fail v.cons_addr external c1) _ (λ a c2. ignores a c2)
              ∙ or_fail-keeps read v.cons_addr external c1)
          | inr low ↦ rw (low) refl
        ]

  opt_in_top_n_validators-keeps :
      (k : Staking) (vs : List StakingValidator) (min_power : ℕ) (c : Chain)
      → read (opt_in_top_n_validators k vs min_power c).1 ≡ read c
  unfolding opt_in_top_n_validators
  opt_in_top_n_validators-keeps k [] min_power c = refl
  opt_in_top_n_validators-keeps k (v ∷ vs) min_power c =
      continue-keeps read (opt_in_if_top k min_power v c) _
        (λ u c1. opt_in_top_n_validators-keeps k vs min_power c1)
      ∙ opt_in_if_top-keeps k min_power v c

-- The Top N part changes the minimum power and who opted in, and nothing else that is read here.
opt_in_top_n-keeps :
    {X : Type 0} (read : Chain → X)
    → ((addr : ℕ) (c : Chain) → read (set_opted_in addr c) ≡ read c)
    → ((m : ℕ) (c : Chain) → read (set_minimum_power_in_top_n m c) ≡ read c)
    → (l : Library) (k : Staking) (active : List StakingValidator) (p : Parameters) (c : Chain)
    → read (opt_in_top_n l k active p c).1 ≡ read c
unfolding opt_in_top_n
opt_in_top_n-keeps read ignores ignores_min l k active p c = elim (Bool-cases (ltb 0 p.top_n)) [
  | inl top ↦ rw (top) (
      continue-keeps read (compute_min_power_in_top_n l.decimals l.sort_powers k active p.top_n, c)
        _
        λ m c1.
          continue-keeps read (opt_in_top_n_validators k active m (set_minimum_power_in_top_n m c1))
            _ (λ u c2. refl)
          ∙ opt_in_top_n_validators-keeps read ignores k active m (set_minimum_power_in_top_n m c1)
          ∙ ignores_min m c1)
  | inr plain ↦ rw (plain) refl
]

uses_key-keys :
    (c c' : Chain) (key : ℕ) (v : StakingValidator)
    → c'.keys ≡ c.keys
    → uses_key c' key v ≡ uses_key c key v
unfolding consumer_public_key
uses_key-keys c c' key v e = ap (λ ks. uses_key (record c { keys = ks }) key v) e

sum_by-cong :
    {A : Type 0} (f g : A → ℕ) (xs : List A) → ((x : A) → f x ≡ g x) → sum_by f xs ≡ sum_by g xs
sum_by-cong f g [] h = refl
sum_by-cong f g (x ∷ xs) h = omega (arith, h x, sum_by-cong f g xs h)

-- Only the keys of the chain matter.
pub Distinguished-keys :
    (c c' : Chain) (bonded : List StakingValidator)
    → c'.keys ≡ c.keys
    → Distinguished c bonded
    → Distinguished c' bonded
Distinguished-keys c c' bonded e d = (
  d.0,
  λ key. omega (
    arith,
    d.1 key,
    sum_by-cong (uses_key c' key) (uses_key c key) bonded (λ v. uses_key-keys c c' key v e),
  ),
)

module _ (l : Library) (k : Staking) (b : Block) (max_vals : ℕ)
    (bonded active : List StakingValidator) (current : List ConsensusValidator) (c c' : Chain)
    (updates : List ValidatorUpdate) where
  -- The parts of a call that succeeds: the next set, and the chain that it is stored in.
  record Computed : Type 0 where
    next : List ConsensusValidator
    before_storing : Chain
    addrs : Distinguished c bonded → (a : ℕ) → sum_by (λ v. hit a v.provider_cons_addr) next ≤ 1
    distinct_keys : Distinguished c bonded → (key : ℕ) → sum_by (λ v. hit key v.public_key) next ≤ 1
    keys : before_storing.keys ≡ c.keys
    phase : before_storing.phase ≡ c.phase
    returned : diff_validators current next ≡ updates
    result : store_val_set next before_storing ≡ c'

  computed :
      compute_consumer_next_val_set l k b max_vals bonded active current c ≡ (ok updates, c')
      → Computed
  unfolding compute_consumer_next_val_set
  computed h =
      let stored = continue-ok (or_fail c.parameters invalid_consumer_state c) _ updates c' h in
      let p = stored.0 in
      let opted = continue-ok (opt_in_top_n l k active p stored.1.0) _ updates c' stored.1.1.1 in
      let mid = opted.1.0 in
      let made =
        continue-ok (compute_next_validators l k b max_vals mid bonded p opted.0, mid) _ updates c'
          opted.1.1.1 in
      let next = made.0 in
      let last : (ok (diff_validators current next), store_val_set next made.1.0)
          ≡ (ok updates, c') =
        made.1.1.1 in
      let keeps =
        λ (X : Type 0) (read : Chain → X)
            (ignores : (addr : ℕ) (x : Chain) → read (set_opted_in addr x) ≡ read x)
            (ignores_min : (m : ℕ) (x : Chain) → read (set_minimum_power_in_top_n m x) ≡ read x).
          (sym (ap (λ r. read r.1) opted.1.1.0)
            ∙ opt_in_top_n-keeps read ignores ignores_min l k active p stored.1.0
            ∙ sym (ap (λ r. read r.1) stored.1.1.0)
            ∙ or_fail-keeps read c.parameters invalid_consumer_state c) in
      let keys : mid.keys ≡ c.keys = keeps _ (λ x. x.keys) (λ a x. refl) (λ m x. refl) in
      let done = ap (λ r. r.0) made.1.1.0 in
      let same_chain : mid ≡ made.1.0 = ap (λ r. r.1) made.1.1.0 in
      record {
        next = next;
        before_storing = made.1.0;
        addrs = λ d.
            next-addrs l k b max_vals mid bonded p opted.0 next done
              (Distinguished-keys c mid bonded keys d);
        distinct_keys = λ d.
            next-keys l k b max_vals mid bonded p opted.0 next done
              (Distinguished-keys c mid bonded keys d);
        keys = sym (ap (λ x. x.keys) same_chain) ∙ keys;
        phase =
            sym (ap (λ x. x.phase) same_chain) ∙ keeps _ (λ x. x.phase) (λ a x. refl) (λ m x. refl);
        returned = ok_inj (ap (λ r. r.0) last);
        result = ap (λ r. r.1) last;
      }

  -- Where no two bonded validators have one address or one key on the chain, the updates that
  -- `ComputeConsumerNextValSet` returns lead from the powers of the given set to those of the set that
  -- is stored after it.
  pub compute_consumer_next_val_set-powers :
      Distinguished c bonded
      → compute_consumer_next_val_set l k b max_vals bonded active current c ≡ (ok updates, c')
      → (key : ℕ) → apply_updates updates (powers current) key ≡ powers (get_val_set c'.val_set) key
  compute_consumer_next_val_set-powers d h key =
      let r = computed h in
      ap (λ us. apply_updates us (powers current) key) (sym r.returned)
      ∙ diff_validators-powers current r.next key
      ∙ sym (powers-stored r.next r.before_storing.val_set (r.addrs d) (r.distinct_keys d) key)
      ∙ ap (λ x. powers (get_val_set x.val_set) key) r.result

  -- The keys and the phase stay.
  pub compute_consumer_next_val_set-keys :
      compute_consumer_next_val_set l k b max_vals bonded active current c ≡ (ok updates, c')
      → c'.keys ≡ c.keys
  compute_consumer_next_val_set-keys h =
      let r = computed h in sym (ap (λ x. x.keys) r.result) ∙ r.keys

  pub compute_consumer_next_val_set-phase :
      compute_consumer_next_val_set l k b max_vals bonded active current c ≡ (ok updates, c')
      → c'.phase ≡ c.phase
  compute_consumer_next_val_set-phase h =
      let r = computed h in sym (ap (λ x. x.phase) r.result) ∙ r.phase
