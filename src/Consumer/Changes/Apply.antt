-- ===== src/Consumer/Changes/Apply.antt =====
-- ApplyCCValidatorChanges on a whole list of updates: the powers of the stored validators, and the
-- updates that it returns.
use interchain_security.Common.{
  ℕ, ◌≡◌, refl, sym, ap, ◌∙◌, subst, Bool, List, [], ◌∷◌, Option, none, some, inl, inr,
  Option-cases, All,
}
use interchain_security.Common.Outcome.{
  Outcome, ok, err, panic, pure, ◌>>=◌, continue, continue-ok, ok_inj,
}
use interchain_security.Updates.{ValidatorUpdate, apply_update, apply_updates}
use interchain_security.Consumer.Changes.Accumulate.{apply_updates-cong}
use interchain_security.Consumer.Changes.{
  Validators, apply_change, forward, apply_cc_validator_changes,
}
use interchain_security.Consumer.Changes.Step.{
  voting, Addressed, apply_change-Changed, Changed-Addressed,
}
use interchain_security.Consumer.Changes.Keys.{NoCollision, apply_change-voting, forward-powers}

module _ (address : ℕ → Option ℕ) where
  -- What applying updates comes to, for the stored validators and for those the updates are forwarded to.
  abbrev pub Follows :
      List ValidatorUpdate → Validators → List ValidatorUpdate → Validators → Type 0
  Follows changes s ret s' =
      Addressed s'
      × ((k : ℕ)
          → (voting address s' k ≡ apply_updates changes (voting address s) k)
            × (apply_updates ret (voting address s) k ≡ apply_updates changes (voting address s) k))

  abbrev pub Decodes : ValidatorUpdate → Type 0
  Decodes change = (addr : ℕ) × (address change.pub_key ≡ some addr)

module _ (address : ℕ → Option ℕ) (no_collision : NoCollision address) where
  abbrev Gives :
      Outcome (List ValidatorUpdate) × Validators → List ValidatorUpdate → Validators → Type 0
  Gives r ret s' = r ≡ (ok ret, s')

  Follows-cons :
      (addr : ℕ) (change : ValidatorUpdate) (changes : List ValidatorUpdate) (s : Validators)
      → Addressed s
      → address change.pub_key ≡ some addr
      → (ret : List ValidatorUpdate) (s' : Validators) (ret1 : List ValidatorUpdate)
        (s2 : Validators)
      → Follows address changes (apply_change addr change s).1 ret1 s2
      → Gives (ok (forward (apply_change addr change s).0 change ret1), s2) ret s'
      → Follows address (change ∷ changes) s ret s'
  Follows-cons addr change changes s h at ret s' ret1 s2 ih e =
      subst (λ x. Follows address (change ∷ changes) s x s') (ok_inj (ap (λ x. x.0) e))
        (subst (λ x. Follows address (change ∷ changes) s (forward fw change ret1) x)
          (ap (λ x. x.1) e)
          (
            ih.0,
            λ k. (
              (ih.1 k).0 ∙ moved changes k,
              forward-powers address no_collision addr change s ret1 h at k
                  ∙ sym (moved ret1 k)
                  ∙ (ih.1 k).1
                  ∙ moved changes k,
            ),
          ))
    where
      fw : Bool
      fw = (apply_change addr change s).0

      moved :
          (us : List ValidatorUpdate) (k : ℕ)
          → apply_updates us (voting address (apply_change addr change s).1) k
            ≡ apply_updates us (apply_update change (voting address s)) k
      moved us k =
          apply_updates-cong us (voting address (apply_change addr change s).1)
            (apply_update change (voting address s)) k
            (apply_change-voting address no_collision addr change s h at)

  pub apply_cc_validator_changes-Follows :
      (changes : List ValidatorUpdate) (s : Validators) (ret : List ValidatorUpdate)
      (s' : Validators)
      → Addressed s
      → apply_cc_validator_changes address changes s ≡ (ok ret, s')
      → Follows address changes s ret s'
  unfolding apply_cc_validator_changes
  apply_cc_validator_changes-Follows [] s ret s' h e =
      subst (λ x. Follows address [] s (outcome_list x.0) x.1) e (h, λ k. (refl, refl))
    where
      outcome_list : Outcome (List ValidatorUpdate) → List ValidatorUpdate
      outcome_list (ok us) = us
      outcome_list (err x) = []
      outcome_list panic = []
  apply_cc_validator_changes-Follows (change ∷ changes) s ret s' h e =
      elim (Option-cases (address change.pub_key)) [
        | inl absent ↦ panicked (sym (decode absent) ∙ e)
        | inr (addr, at) ↦
            let s1 : Validators = (apply_change addr change s).1 in
            let h1 : Addressed s1 = Changed-Addressed (apply_change-Changed addr change s h) h in
            let rest =
              continue-ok (apply_cc_validator_changes address changes s1)
                (λ us. pure (forward (apply_change addr change s).0 change us)) ret s'
                (sym (decode at) ∙ e) in
            Follows-cons addr change changes s h at ret s' rest.0 rest.1.0
              (apply_cc_validator_changes-Follows changes s1 rest.0 rest.1.0 h1 rest.1.1.0)
              rest.1.1.1
      ]
    where
      body : Option ℕ → Outcome (List ValidatorUpdate) × Validators
      body o = elim o [
        | none ↦ (panic, s)
        | some addr ↦
            let (forwarded, s1) = apply_change addr change s in
            (apply_cc_validator_changes address changes >>= λ us.
            pure (forward forwarded change us))
              s1
      ]

      decode :
          {o : Option ℕ}
          → address change.pub_key ≡ o
          → apply_cc_validator_changes address (change ∷ changes) s ≡ body o
      decode at = ap body at

      panicked :
          {x : Validators} → Gives (panic, x) ret s' → Follows address (change ∷ changes) s ret s'
      panicked d = cc

  pub apply_cc_validator_changes-ok :
      (changes : List ValidatorUpdate) (s : Validators)
      → All (Decodes address) changes
      → (ret : List ValidatorUpdate) × ((s' : Validators) × (apply_cc_validator_changes address
              changes s
            ≡ (ok ret, s')))
  unfolding apply_cc_validator_changes
  apply_cc_validator_changes-ok [] s h = ([], (s, refl))
  apply_cc_validator_changes-ok (change ∷ changes) s ((addr, at), h) =
      let fw = (apply_change addr change s).0 in
      let rest = apply_cc_validator_changes-ok changes (apply_change addr change s).1 h in
      (
        forward fw change rest.0,
        (
          rest.1.0,
          rw (at, apply_cc_validator_changes)
              (ap (λ r. continue r (λ us. pure (forward fw change us))) rest.1.1),
        ),
      )

  -- Where the public keys of the updates decode, no two keys have one address, and each validator is stored
  -- under its address, `ApplyCCValidatorChanges` returns, gives the stored validators the
  -- powers that the updates say and keeps each under its address; the updates that it forwards say the same,
  -- although it drops removals of validators that are not there.
  pub apply_cc_validator_changes-applies :
      (changes : List ValidatorUpdate) (s : Validators)
      → Addressed s
      → All (Decodes address) changes
      → (ret : List ValidatorUpdate) × ((s' : Validators) × ((apply_cc_validator_changes address
                changes s
              ≡ (ok ret, s'))
            × Follows address changes s ret s'))
  apply_cc_validator_changes-applies changes s h d =
      let run = apply_cc_validator_changes-ok changes s d in
      (
        run.0,
        (run.1.0, (run.1.1, apply_cc_validator_changes-Follows changes s run.0 run.1.0 h run.1.1)),
      )
