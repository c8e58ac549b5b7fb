-- ===== src/Provider/Lifecycle/Removal/Turns.antt =====
-- One turn of the loop of `BeginBlockRemoveConsumers`, and the entries of a consumer chain after it.
use interchain_security.Common.{
  ℕ, ◌≡◌, refl, sym, ap, ◌∙◌, subst, Bool, true, false, List, ◌∷◌, arith, ◌==◌, ◌&&◌, if◌then◌else◌,
  inl, inr, Bool-cases,
}
use interchain_security.Common.Outcome.{ok, err, non_stopped, continue, pure}
use interchain_security.Provider.Cached.{commit}
use interchain_security.Provider.Phase.{is_stopped}
use interchain_security.Provider.Consumers.{Consumer, Provider, get_consumer_phase}
use interchain_security.Provider.Lifecycle.Removal.{cleaned, delete_consumer_chain, remove_each}

-- A chain that is not stopped is left alone.
delete_consumer_chain-refused :
    (id : ℕ) (s : Provider)
    → is_stopped (get_consumer_phase id s) ≡ false
    → delete_consumer_chain id s ≡ (err non_stopped, s)
unfolding delete_consumer_chain
delete_consumer_chain-refused id s e = rw (e) refl

abbrev pub deleted : ℕ → Provider → Provider
deleted id s = (delete_consumer_chain id s).1

delete_consumer_chain-ok :
    (id : ℕ) (s : Provider)
    → is_stopped (get_consumer_phase id s) ≡ true
    → (delete_consumer_chain id s).0 ≡ ok tt
unfolding delete_consumer_chain
delete_consumer_chain-ok id s e = rw (e) refl

deleted-consumers :
    (id j : ℕ) (s : Provider)
    → is_stopped (get_consumer_phase id s) ≡ true
    → (deleted id s).consumers j ≡ (if j == id then cleaned (s.consumers id) else s.consumers j)
unfolding delete_consumer_chain
deleted-consumers id j s e = rw (e, deleted, delete_consumer_chain) refl

-- The state after one turn of the loop.
abbrev pub after : ℕ → Provider → Provider
after id s = if is_stopped (get_consumer_phase id s) then deleted id s else s

pub remove_each-cons :
    (id : ℕ) (ids : List ℕ) (s : Provider) → remove_each (id ∷ ids) s ≡ remove_each ids (after id s)
unfolding remove_each
remove_each-cons id ids s = elim (Bool-cases (is_stopped (get_consumer_phase id s))) [
  | inl stopped ↦
      let done : delete_consumer_chain id s ≡ (ok tt, deleted id s) =
        ap (λ o. (o, deleted id s)) (delete_consumer_chain-ok id s stopped) in
      ap (λ r. continue (commit (λ e. pure tt) s r) (λ u. remove_each ids)) done
      ∙ ap (λ x. remove_each ids (if x then deleted id s else s)) (sym stopped)
  | inr other ↦
      ap (λ r. continue (commit (λ e. pure tt) s r) (λ u. remove_each ids))
        (delete_consumer_chain-refused id s other)
      ∙ ap (λ x. remove_each ids (if x then deleted id s else s)) (sym other)
]

-- The entries of a chain after the loop over the ids.
abbrev pub removed_if : Bool → Consumer → Consumer
removed_if x c = if x && is_stopped c.chain.phase then cleaned c else c

removed_if-cleaned : (x : Bool) (c : Consumer) → removed_if x (cleaned c) ≡ cleaned c
removed_if-cleaned true c = refl
removed_if-cleaned false c = refl

pub after-consumers :
    (id j : ℕ) (s : Provider) → (after id s).consumers j ≡ removed_if (j == id) (s.consumers j)
after-consumers id j s = elim (Bool-cases (is_stopped (get_consumer_phase id s))) [
  | inl stopped ↦ elim (Bool-cases (j == id)) [
    | inl at ↦
        let there : id ≡ j = ground arith in
        ap (λ x. (if x then deleted id s else s).consumers j) stopped
        ∙ deleted-consumers id j s stopped
        ∙ ap (λ x. if x then cleaned (s.consumers id) else s.consumers j) at
        ∙ ap (λ m. cleaned (s.consumers m)) there
        ∙ ap (λ x. if x then cleaned (s.consumers j) else s.consumers j)
            (sym (subst (λ m. is_stopped (get_consumer_phase m s) ≡ true) there stopped))
        ∙ ap (λ x. removed_if x (s.consumers j)) (sym at)
    | inr elsewhere ↦
        ap (λ x. (if x then deleted id s else s).consumers j) stopped
        ∙ deleted-consumers id j s stopped
        ∙ ap (λ x. if x then cleaned (s.consumers id) else s.consumers j) elsewhere
        ∙ ap (λ x. removed_if x (s.consumers j)) (sym elsewhere)
  ]
  | inr other ↦ elim (Bool-cases (j == id)) [
    | inl at ↦
        let there : id ≡ j = ground arith in
        ap (λ x. (if x then deleted id s else s).consumers j) other
        ∙ ap (λ x. if x then cleaned (s.consumers j) else s.consumers j)
            (sym (subst (λ m. is_stopped (get_consumer_phase m s) ≡ false) there other))
        ∙ ap (λ x. removed_if x (s.consumers j)) (sym at)
    | inr elsewhere ↦
        ap (λ x. (if x then deleted id s else s).consumers j) other
        ∙ ap (λ x. removed_if x (s.consumers j)) (sym elsewhere)
  ]
]
