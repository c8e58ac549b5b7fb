-- ===== src/Provider/Equivocation/Calls.antt =====
-- What `SlashValidator` and `JailAndTombstoneValidator` call of the slashing module.
use mathlib.Core.List.{append_assoc}
use interchain_security.Common.{
  ℕ, ◌+◌, ◌≡◌, refl, sym, ap, ◌∙◌, subst, Bool, true, false, List, [], ◌∷◌, ◌++◌, Option, none,
  some, if◌then◌else◌, inl, inr, All,
}
use interchain_security.Common.Outcome.{
  Error, ok, Handler, ◌>>=◌, ◌>>◌, pure, attempt, or_fail, reject_if, continue, continue-holds,
  Outcome-cases, external, validator_unbonded, validator_tombstoned,
}
use interchain_security.Provider.Staking.{Staking, StakingValidator, Block}
use interchain_security.Provider.Infraction.{SlashJail}
use interchain_security.Provider.Consumers.{
  Punishment, slash, jail, jail_until, tombstone, Provider,
}
use interchain_security.Provider.SlashPackets.{Slashing}
use interchain_security.Provider.SlashPackets.Calls.{target, Adds}
use interchain_security.Provider.Equivocation.{
  Unbonding, sum_of, compute_power_to_slash, deref, call, slash_validator,
  jail_and_tombstone_validator,
}

-- The calls of a handler are all against one validator.
module _ (addr : ℕ) (s0 : Provider) where
  call-Adds :
      (x : Bool) (p : Punishment) (s : Provider)
      → target p ≡ addr
      → Adds addr s0 s
      → Adds addr s0 (call x p s).1
  call-Adds false p s e h = h
  call-Adds true p s e (t, (ps, (added, all))) = (
    t,
    (
      ps ++ p ∷ [],
      (ap (λ l. l ++ p ∷ []) added ∙ append_assoc s0.punished ps (p ∷ []), all_more ps all),
    ),
  )
    where
      all_more :
          (ps : List Punishment)
          → All (λ q. target q ≡ addr) ps
          → All (λ q. target q ≡ addr) (ps ++ p ∷ [])
      all_more [] h = (e, tt)
      all_more (q ∷ qs) (h, hs) = (h, all_more qs hs)

  reject_if-Adds :
      (x : Bool) (e : Error) (s : Provider) → Adds addr s0 s → Adds addr s0 (reject_if x e s).1
  reject_if-Adds true e s h = h
  reject_if-Adds false e s h = h

  or_fail-Adds :
      {A : Type 0} (o : Option A) (e : Error) (s : Provider)
      → Adds addr s0 s
      → Adds addr s0 (or_fail o e s).1
  or_fail-Adds none e s h = h
  or_fail-Adds (some a) e s h = h

  deref-Adds :
      {A : Type 0} (o : Option A) (s : Provider) → Adds addr s0 s → Adds addr s0 (deref o s).1
  deref-Adds none s h = h
  deref-Adds (some a) s h = h

  -- A step with the validator's own address.
  own_address :
      (o : Option ℕ) (f : ℕ → Handler Provider (Unit {0})) (s : Provider)
      → o ≡ some addr
      → Adds addr s0 (f addr s).1
      → Adds addr s0 (continue (or_fail o external s) f).1
  own_address none f s e h = cc
  own_address (some a) f s e h =
      let same : addr ≡ a = some_inj (sym e) in subst (λ x. Adds addr s0 (f x s).1) same h
    where
      some_inj : {x y : ℕ} → some x ≡ some y → x ≡ y
      some_inj q = cc

  module _ (k : Staking) (sl : Slashing) (u : Unbonding) (b : Block) (p : Option SlashJail) where
    pub slash_validator-Adds :
        (s : Provider)
        → ((v : StakingValidator)
            → k.get_validator_by_cons_addr addr ≡ ok v
            → v.cons_addr ≡ some addr)
        → Adds addr s0 s
        → Adds addr s0 (slash_validator k sl u addr p s).1
    unfolding slash_validator compute_power_to_slash
    slash_validator-Adds s at h = elim (Outcome-cases (k.get_validator_by_cons_addr addr)) [
      | inl (v, e) ↦ rw (e, slash_validator) (of_known v (at v e))
      | inr (inl (x, e)) ↦ rw (e, slash_validator) h
      | inr (inr e) ↦ rw (e, slash_validator) h
    ]
      where
        of_known :
            (v : StakingValidator)
            → v.cons_addr ≡ some addr
            → Adds addr s0
                ((do
                  reject_if v.is_unbonded validator_unbonded
                  reject_if (k.is_tombstoned addr) validator_tombstoned
                  val_addr ← or_fail (k.val_address v.operator) external
                  undelegations ← attempt (u.undelegations val_addr)
                  redelegations ← attempt (u.redelegations val_addr)
                  last_power ← attempt (k.get_last_validator_power val_addr)
                  total_power ← compute_power_to_slash u undelegations redelegations last_power
                  cons_addr ← or_fail v.cons_addr external
                  params ← deref p
                  call
                      (sl.slash_result cons_addr)
                      (slash cons_addr 0 total_power params.slash_fraction))
                  s).1
        of_known v own =
            continue-holds (Adds addr s0) (reject_if v.is_unbonded validator_unbonded s) _
              (reject_if-Adds v.is_unbonded validator_unbonded s h)
              λ u1 s1 h1.
                continue-holds (Adds addr s0)
                  (reject_if (k.is_tombstoned addr) validator_tombstoned s1) _
                  (reject_if-Adds (k.is_tombstoned addr) validator_tombstoned s1 h1)
                  λ u2 s2 h2.
                    continue-holds (Adds addr s0) (or_fail (k.val_address v.operator) external s2) _
                      (or_fail-Adds (k.val_address v.operator) external s2 h2)
                      λ val_addr s3 h3.
                        continue-holds (Adds addr s0) (u.undelegations val_addr, s3) _ h3
                          λ undelegations s4 h4.
                            continue-holds (Adds addr s0) (u.redelegations val_addr, s4) _ h4
                              λ redelegations s5 h5.
                                continue-holds (Adds addr s0)
                                  (k.get_last_validator_power val_addr, s5) _ h5
                                  λ last_power s6 h6.
                                    continue-holds (Adds addr s0)
                                      (compute_power_to_slash u undelegations redelegations
                                        last_power s6)
                                      _
                                      (continue-holds (Adds addr s0)
                                        (
                                          u.tokens_to_power
                                              (sum_of undelegations + sum_of redelegations),
                                          s6,
                                        )
                                        _ h6 λ unbonding s' h'. h')
                                      λ total_power s7 h7. own_address v.cons_addr _ s7 own (
                                        continue-holds (Adds addr s0) (deref p s7) _
                                          (deref-Adds p s7 h7)
                                          λ params s8 h8.
                                            call-Adds (sl.slash_result addr)
                                              (slash addr 0 total_power params.slash_fraction) s8
                                              refl h8)

    pub jail_and_tombstone_validator-Adds :
        (s : Provider)
        → Adds addr s0 s
        → Adds addr s0 (jail_and_tombstone_validator k sl u b addr p s).1
    unfolding jail_and_tombstone_validator
    jail_and_tombstone_validator-Adds s h =
        continue-holds (Adds addr s0) (k.get_validator_by_cons_addr addr, s) _ h
          λ v s1 h1.
            continue-holds (Adds addr s0) (reject_if v.is_unbonded validator_unbonded s1) _
              (reject_if-Adds v.is_unbonded validator_unbonded s1 h1)
              λ u2 s2 h2.
                continue-holds (Adds addr s0)
                  (reject_if (k.is_tombstoned addr) validator_tombstoned s2) _
                  (reject_if-Adds (k.is_tombstoned addr) validator_tombstoned s2 h2)
                  λ u3 s3 h3.
                    continue-holds (Adds addr s0)
                      ((if v.is_jailed then pure tt else call (sl.jail_result addr) (jail addr)) s3)
                      _ (if_jailed v.is_jailed s3 h3)
                      λ u4 s4 h4.
                        continue-holds (Adds addr s0) (deref p s4) _ (deref-Adds p s4 h4)
                          λ params s5 h5.
                            continue-holds (Adds addr s0)
                              (call (sl.jail_until_result addr)
                                (jail_until addr (b.time + params.jail_duration)) s5)
                              _
                              (call-Adds (sl.jail_until_result addr)
                                (jail_until addr (b.time + params.jail_duration)) s5 refl h5)
                              λ u6 s6 h6. if_tombstone params.tombstone s6 h6
      where
        if_jailed :
            (x : Bool) (s : Provider)
            → Adds addr s0 s
            → Adds addr s0 ((if x then pure tt else call (sl.jail_result addr) (jail addr)) s).1
        if_jailed true s h = h
        if_jailed false s h = call-Adds (sl.jail_result addr) (jail addr) s refl h

        if_tombstone :
            (x : Bool) (s : Provider)
            → Adds addr s0 s
            → Adds addr s0
                ((if x then call (u.tombstone_result addr) (tombstone addr) else pure tt) s).1
        if_tombstone true s h = call-Adds (u.tombstone_result addr) (tombstone addr) s refl h
        if_tombstone false s h = h
