-- ===== src/Provider/Lifecycle/Removal/Loop.antt =====
-- The loop of `BeginBlockRemoveConsumers` over what is not stored under a consumer's own keys.
use interchain_security.Common.{
  ℕ, ◌≡◌, refl, sym, ap, ◌∙◌, subst, Bool, true, false, List, [], ◌∷◌, arith, ◌==◌, ◌||◌, ◌&&◌,
  if◌then◌else◌, inl, inr, Bool-cases,
}
use interchain_security.Store.{elem}
use interchain_security.Provider.Phase.{is_stopped}
use interchain_security.Provider.Infraction.Unscheduled.{IsScheduled, cleared-IsScheduled}
use interchain_security.Provider.Consumers.{Provider, get_consumer_phase}
use interchain_security.Provider.Lifecycle.Removal.{remove_each}
use interchain_security.Provider.Lifecycle.Removal.Turns.{
  deleted, after, remove_each-cons, removed_if, after-consumers,
}
use interchain_security.Provider.Lifecycle.Removal.Links.{
  IsUnlinked, SameLinks, deleted-infractions, deleted-IsUnlinked, deleted-SameLinks, deleted-keeps,
}

abbrev pub ended : List ℕ → Provider → Provider
ended ids s = (remove_each ids s).1

-- A property that every turn keeps.
module _ (P : Provider → Type 0)
    (kept : (id : ℕ) (s : Provider)
      → is_stopped (get_consumer_phase id s) ≡ true
      → P s
      → P (deleted id s)) where
  after-keeps : (id : ℕ) (s : Provider) → P s → P (after id s)
  after-keeps id s p = go (is_stopped (get_consumer_phase id s)) refl
    where
      go : (x : Bool) → is_stopped (get_consumer_phase id s) ≡ x → P (if x then deleted id s else s)
      go true e = kept id s e p
      go false e = p

  remove_each-keeps : (ids : List ℕ) (s : Provider) → P s → P (ended ids s)
  unfolding remove_each
  remove_each-keeps [] s p = p
  remove_each-keeps (id ∷ ids) s p =
      subst (λ r. P r.1) (sym (remove_each-cons id ids s))
        (remove_each-keeps ids (after id s) (after-keeps id s p))

pub remove_each-IsScheduled :
    (ids : List ℕ) (s : Provider)
    → IsScheduled s.infractions
    → IsScheduled (ended ids s).infractions
remove_each-IsScheduled =
    remove_each-keeps (λ s. IsScheduled s.infractions)
      λ id s stopped h.
        subst IsScheduled (sym (deleted-infractions id s stopped))
          (cleared-IsScheduled id s.infractions h)

after-SameLinks : (id j : ℕ) (s : Provider) → (j == id) ≡ false → SameLinks j s (after id s)
after-SameLinks id j s other = go (is_stopped (get_consumer_phase id s)) refl
  where
    go :
        (x : Bool)
        → is_stopped (get_consumer_phase id s) ≡ x
        → SameLinks j s (if x then deleted id s else s)
    go true e = deleted-SameLinks id s e j other
    go false e = (refl, refl)

-- The entries of another chain are those from before the turn.
after-other :
    (id j : ℕ) (s : Provider) → (j == id) ≡ false → (after id s).consumers j ≡ s.consumers j
after-other id j s other = after-consumers id j s ∙ ap (λ x. removed_if x (s.consumers j)) other

-- The loop over the ids, for a chain that is among them and stopped.
pub remove_each-IsUnlinked :
    (j : ℕ) (ids : List ℕ) (s : Provider)
    → (elem j ids && is_stopped (get_consumer_phase j s)) ≡ true
    → IsUnlinked j s (ended ids s)
unfolding remove_each
remove_each-IsUnlinked j [] s e = cc
remove_each-IsUnlinked j (id ∷ ids) s e = elim (Bool-cases (j == id)) [
  | inl at ↦
      let there : j ≡ id = ground (arith, at) in
      let stopped : is_stopped (get_consumer_phase j s) ≡ true = second (elem j (id ∷ ids)) e in
      let first : IsUnlinked j s (after j s) =
        subst (λ x. IsUnlinked j s (if x then deleted j s else s)) (sym stopped)
          (deleted-IsUnlinked j s stopped) in
      subst (λ r. IsUnlinked j s r.1) (sym (remove_each-cons id ids s))
        (remove_each-keeps (IsUnlinked j s) (λ i t h. deleted-keeps i t h j s) ids (after id s)
          (subst (λ i. IsUnlinked j s (after i s)) there first))
  | inr other ↦
      let same = after-SameLinks id j s other in
      let entry = after-other id j s other in
      let later : (elem j ids && is_stopped (get_consumer_phase j (after id s))) ≡ true =
        ap (λ c. elem j ids && is_stopped c.chain.phase) entry
        ∙ ap (λ x. (x || elem j ids) && is_stopped (get_consumer_phase j s)) (sym other)
        ∙ e in
      let rest = remove_each-IsUnlinked j ids (after id s) later in
      subst (λ r. IsUnlinked j s r.1) (sym (remove_each-cons id ids s))
        (record {
          no_client = rest.no_client;
          no_client_index = λ client q. rest.no_client_index client (same.0 ∙ q);
          no_channel_index =
              λ channel q. rest.no_channel_index channel (ap (λ c. c.channel) entry ∙ q);
          no_queued = rest.no_queued;
        })
]
  where
    second : (x : Bool) {y : Bool} → (x && y) ≡ true → y ≡ true
    second true e = e
    second false e = cc

-- And for any other chain.
pub remove_each-SameLinks :
    (j : ℕ) (ids : List ℕ) (s : Provider)
    → (elem j ids && is_stopped (get_consumer_phase j s)) ≡ false
    → SameLinks j s (ended ids s)
unfolding remove_each
remove_each-SameLinks j [] s e = (refl, refl)
remove_each-SameLinks j (id ∷ ids) s e =
    subst (λ r. SameLinks j s r.1) (sym (remove_each-cons id ids s))
      (elim (Bool-cases (j == id)) [
        | inl at ↦
            let there : j ≡ id = ground (arith, at) in
            let running : is_stopped (get_consumer_phase j s) ≡ false =
              ap (λ x. (x || elem j ids) && is_stopped (get_consumer_phase j s)) (sym at) ∙ e in
            let idle : after id s ≡ s =
              ap (λ i. after i s) (sym there) ∙ ap (λ x. if x then deleted j s else s) running in
            subst (λ t. SameLinks j s (ended ids t)) (sym idle)
              (remove_each-SameLinks j ids s (never (elem j ids) running))
        | inr other ↦
            let same = after-SameLinks id j s other in
            let later : (elem j ids && is_stopped (get_consumer_phase j (after id s))) ≡ false =
              ap (λ c. elem j ids && is_stopped c.chain.phase) (after-other id j s other)
              ∙ ap (λ x. (x || elem j ids) && is_stopped (get_consumer_phase j s)) (sym other)
              ∙ e in
            let rest = remove_each-SameLinks j ids (after id s) later in
            (rest.0 ∙ same.0, rest.1 ∙ same.1)
      ])
  where
    never : (x : Bool) {y : Bool} → y ≡ false → (x && y) ≡ false
    never true e = e
    never false e = refl
