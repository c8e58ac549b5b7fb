-- ===== src/Provider/OptIn/Membership.antt =====
-- Who is opted in after each operation of partial_set_security.go.
use interchain_security.Common.{
  ℕ, ◌≡◌, refl, sym, ap, ◌∙◌, Bool, true, false, not, List, [], ◌∷◌, Option, none, some, ltb, leb,
  ◌==◌, ◌&&◌, ◌||◌, if◌then◌else◌,
}
use interchain_security.Common.Outcome.{
  Outcome, ok, err, panic, is_ok, continue, continue-ok, cannot_opt_out_from_top_n, pure, modify,
  reject_if, or_fail, external, ◌>>=◌, unknown_consumer_id, invalid_phase, invalid_consumer_state,
}
use interchain_security.Common.ReadOnly.{
  after_attempt, after_or_fail, after_reject_if, after_state, Applied, Applied-stop,
}
use interchain_security.Provider.Phase.{is_launched, is_unspecified}
use interchain_security.Provider.Staking.{Staking, StakingValidator}
use interchain_security.Provider.Chain.{Chain}
use interchain_security.Provider.Chain.Contains.{contains-add, contains-delete, or_swap}
use interchain_security.Provider.PowerShaping.TopN.{last_power}
use interchain_security.Provider.PowerShaping.Eligibility.{is_opted_in}
use interchain_security.Provider.OptIn.{
  set_opted_in, delete_opted_in, handle_opt_out, check_not_in_top_n, opt_in_if_top,
  opt_in_top_n_validators,
}

-- The check reads only.
check_not_in_top_n-state :
    (k : Staking) (addr : ℕ) (c : Chain) → (check_not_in_top_n k addr c).1 ≡ c
unfolding check_not_in_top_n
check_not_in_top_n-state k addr c =
    let Q : Outcome (Unit {0}) × Chain → Type 0 = λ r. r.1 ≡ c in
    let stop : (r : Outcome (Unit {0})) → is_ok r ≡ false → Q (r, c) = λ r h. refl in
    after_attempt Q c stop (k.get_validator_by_cons_addr addr) _ λ v.
      after_attempt Q c stop (last_power k v) _ λ power.
        after_or_fail Q c stop c.minimum_power_in_top_n unknown_consumer_id _
          λ m. rejects (leb m power)
  where
    rejects : (b : Bool) → (reject_if b cannot_opt_out_from_top_n c).1 ≡ c
    rejects true = refl
    rejects false = refl

handle_opt_out-Applied :
    (k : Staking) (addr : ℕ) (c : Chain)
    → Applied (delete_opted_in addr) c (handle_opt_out k addr c)
unfolding handle_opt_out
handle_opt_out-Applied k addr c =
    let del = delete_opted_in addr in
    let stop = Applied-stop del c in
    after_reject_if (Applied del c) c stop (is_unspecified c.phase) unknown_consumer_id _ (
      after_reject_if (Applied del c) c stop (not (is_launched c.phase)) invalid_phase _ (
        after_or_fail (Applied del c) c stop c.parameters invalid_consumer_state _ λ p.
          after_state (Applied del c) c stop
            ((if ltb 0 p.top_n then check_not_in_top_n k addr else pure tt) c) _
            (check (ltb 0 p.top_n)) λ u. refl))
  where
    check : (b : Bool) → ((if b then check_not_in_top_n k addr else pure tt) c).1 ≡ c
    check true = check_not_in_top_n-state k addr c
    check false = refl

-- `HandleOptOut` takes exactly the given validator out of those who are opted in where it succeeds,
-- and changes nobody's membership where it fails.
pub handle_opt_out-opted_in :
    (k : Staking) (addr a : ℕ) (c : Chain)
    → is_opted_in a (handle_opt_out k addr c).1
      ≡ is_opted_in a c && not (is_ok (handle_opt_out k addr c).0 && a == addr)
handle_opt_out-opted_in k addr a c =
    ap (is_opted_in a) (handle_opt_out-Applied k addr c) ∙ go (is_ok (handle_opt_out k addr c).0)
  where
    go :
        (x : Bool)
        → is_opted_in a (if x then delete_opted_in addr c else c)
          ≡ is_opted_in a c && not (x && a == addr)
    go true = contains-delete a addr c.opted_in
    go false = unchanged (is_opted_in a c)
      where
        unchanged : (y : Bool) → y ≡ y && true
        unchanged true = refl
        unchanged false = refl

abbrev pub is_addr : ℕ → Option ℕ → Bool
is_addr a none = false
is_addr a (some b) = a == b

abbrev pub reaches : ℕ → Outcome ℕ → Bool
reaches min_power (ok power) = leb min_power power
reaches min_power (err e) = false
reaches min_power panic = false

-- Whether the address is that of one of the validators whose power reaches the minimum.
abbrev pub in_top : Staking → ℕ → ℕ → List StakingValidator → Bool
in_top k min_power a [] = false
in_top k min_power a (v ∷ vs) =
    (reaches min_power (last_power k v) && is_addr a v.cons_addr) || in_top k min_power a vs

opt_in_if_top-opted_in :
    (k : Staking) (min_power a : ℕ) (v : StakingValidator) (c : Chain) (c' : Chain)
    → opt_in_if_top k min_power v c ≡ (ok tt, c')
    → is_opted_in a c'
      ≡ (reaches min_power (last_power k v) && is_addr a v.cons_addr) || is_opted_in a c
unfolding opt_in_if_top
opt_in_if_top-opted_in k min_power a v c c' h = go (last_power k v) h
  where
    add_addr :
        (o : Option ℕ)
        → continue (or_fail o external c) (λ addr. modify (set_opted_in addr)) ≡ (ok tt, c')
        → is_opted_in a c' ≡ is_addr a o || is_opted_in a c
    add_addr none e = cc
    add_addr (some addr) e = ap (λ r. is_opted_in a r.1) (sym e) ∙ contains-add a addr c.opted_in

    turn :
        (b : Bool)
        → (if b
              then (or_fail v.cons_addr external >>= λ addr. modify (set_opted_in addr))
              else pure tt)
            c
          ≡ (ok tt, c')
        → is_opted_in a c' ≡ (b && is_addr a v.cons_addr) || is_opted_in a c
    turn true e = add_addr v.cons_addr e
    turn false e = ap (λ r. is_opted_in a r.1) (sym e)

    go :
        (r : Outcome ℕ)
        → continue
            (r, c)
            (λ power.
              if leb min_power power
              then (or_fail v.cons_addr external >>= λ addr. modify (set_opted_in addr))
              else pure tt)
          ≡ (ok tt, c')
        → is_opted_in a c' ≡ (reaches min_power r && is_addr a v.cons_addr) || is_opted_in a c
    go (ok power) e = turn (leb min_power power) e
    go (err x) e = cc
    go panic e = cc

-- Where `OptInTopNValidators` succeeds, exactly those are opted in who were before and the given
-- validators whose power reaches the minimum.
pub opt_in_top_n_validators-opted_in :
    (k : Staking) (min_power a : ℕ) (vs : List StakingValidator) (c c' : Chain)
    → opt_in_top_n_validators k vs min_power c ≡ (ok tt, c')
    → is_opted_in a c' ≡ in_top k min_power a vs || is_opted_in a c
unfolding opt_in_top_n_validators
opt_in_top_n_validators-opted_in k min_power a [] c c' h = ap (λ r. is_opted_in a r.1) (sym h)
opt_in_top_n_validators-opted_in k min_power a (v ∷ vs) c c' h =
    let first =
      continue-ok (opt_in_if_top k min_power v c) (λ u. opt_in_top_n_validators k vs min_power) tt
        c' h in
    opt_in_top_n_validators-opted_in k min_power a vs first.1.0 c' first.1.1.1
    ∙ ap (λ x. in_top k min_power a vs || x)
        (opt_in_if_top-opted_in k min_power a v c first.1.0 first.1.1.0)
    ∙ or_swap (in_top k min_power a vs) _ _
