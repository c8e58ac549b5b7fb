-- ===== src/Consumer/Blocks/Changeover.antt =====
-- The changeover of a standalone chain to a consumer chain.
use interchain_security.Common.{
  ℕ, ◌≡◌, refl, sym, ap, ◌∙◌, Bool, true, false, not, List, [], ◌∷◌, ◌++◌, Option, arith, ◌==◌,
  ◌||◌, ◌&&◌, if◌then◌else◌, inl, inr, Bool-cases, All,
}
use interchain_security.Common.Outcome.{ok, continue}
use interchain_security.Store.{elem}
use interchain_security.Updates.{
  ValidatorUpdate, Powers, apply_update, apply_updates, apply_updates-append,
}
use interchain_security.Consumer.Changes.Step.{Addressed}
use interchain_security.Consumer.Changes.Keys.{NoCollision}
use interchain_security.Consumer.Changes.Apply.{Decodes, apply_cc_validator_changes-applies}
use interchain_security.Consumer.Packets.{Context, send_packets}
use interchain_security.Consumer.Blocks.{
  Module, validators_of, with_validators, has_key, zero_updates, changeover_to_consumer,
  log_packets, flush_changes, end_block,
}
use interchain_security.Consumer.Blocks.Received.{voting_in}

-- Updates decide the power of the keys in them, and of no other.
apply_updates-absent :
    (us : List ValidatorUpdate) (f : Powers) (key : ℕ)
    → has_key key us ≡ false
    → apply_updates us f key ≡ f key
apply_updates-absent [] f key h = refl
apply_updates-absent (u ∷ us) f key h =
    let rest : has_key key us ≡ false = ground (arith, h) in
    let other : (key == u.pub_key) ≡ false = ground (arith, h) in
    apply_updates-absent us (apply_update u f) key rest
    ∙ ap (λ x. if x then u.power else f key) other

apply_updates-present :
    (us : List ValidatorUpdate) (f g : Powers) (key : ℕ)
    → has_key key us ≡ true
    → apply_updates us f key ≡ apply_updates us g key
apply_updates-present [] f g key h = cc
apply_updates-present (u ∷ us) f g key h = elim (Bool-cases (has_key key us)) [
  | inl later ↦ apply_updates-present us (apply_update u f) (apply_update u g) key later
  | inr last ↦
      let at : (key == u.pub_key) ≡ true = ground (arith, h, last) in
      apply_updates-absent us (apply_update u f) key last
      ∙ ap (λ x. if x then u.power else f key) at
      ∙ sym (ap (λ x. if x then u.power else g key) at)
      ∙ sym (apply_updates-absent us (apply_update u g) key last)
]

zero_updates-powers :
    (initial : List ValidatorUpdate) (keys : List ℕ) (f : Powers) (key : ℕ)
    → apply_updates (zero_updates initial keys) f key
      ≡ (if elem key keys && not (has_key key initial) then 0 else f key)
unfolding zero_updates
zero_updates-powers initial [] f key = refl
zero_updates-powers initial (k ∷ keys) f key = elim (Bool-cases (has_key k initial)) [
  | inl listed ↦ rw (listed) (
      zero_updates-powers initial keys f key
      ∙ no_update (key == k) (elem key keys) (has_key key initial) (f key)
          (λ at. ap (λ x. has_key x initial) (ground (arith, at)) ∙ listed))
  | inr other ↦ rw (other) (
      zero_updates-powers initial keys (apply_update (record { pub_key = k; power = 0 }) f) key
      ∙ one_update (key == k) (elem key keys) (has_key key initial) (f key)
          (λ at. ap (λ x. has_key x initial) (ground (arith, at)) ∙ other))
]
  where
    no_update :
        (x y z : Bool) (n : ℕ)
        → (x ≡ true → z ≡ true)
        → (if y && not z then 0 else n) ≡ (if (x || y) && not z then 0 else n)
    no_update false y z n h = refl
    no_update true true true n h = refl
    no_update true false true n h = refl
    no_update true y false n h = let absent = h refl in cc

    one_update :
        (x y z : Bool) (n : ℕ)
        → (x ≡ true → z ≡ false)
        → (if y && not z then 0 else (if x then 0 else n)) ≡ (if (x || y) && not z then 0 else n)
    one_update false y z n h = refl
    one_update true true false n h = refl
    one_update true false false n h = refl
    one_update true y true n h = let present = h refl in cc

module _ (address : ℕ → Option ℕ) (no_collision : NoCollision address) where
  -- Where no two keys have the same address and the module stores each validator under its address, the block at
  -- whose end a standalone chain becomes a consumer chain does not fail if the keys of the initial set
  -- decode and the standalone validators are known. The updates for CometBFT then lead from the
  -- standalone set, in which only the standalone validators' keys have a power, to the initial set alone; the
  -- validators that the module stores get the updates of the initial set; and the changeover is over.
  pub end_block-changeover :
      (c : Context) (keys : List ℕ) (m : Module) (standalone : Powers)
      → m.pre_ccv ≡ true
      → Addressed (validators_of m)
      → All (Decodes address) m.initial_val_set
      → ((key : ℕ) → elem key keys ≡ false → standalone key ≡ 0)
      → (ret : List ValidatorUpdate) × ((m' : Module) × ((end_block address c (ok keys) m
              ≡ (ok ret, m'))
            × ((m'.pre_ccv ≡ false)
                × ((key : ℕ)
                    → (apply_updates ret standalone key
                        ≡ apply_updates m.initial_val_set (λ k. 0) key)
                      × (voting_in address m' key
                          ≡ apply_updates m.initial_val_set (voting_in address m) key)))))
  unfolding end_block changeover_to_consumer
  end_block-changeover c keys m standalone ccv h decodes only =
      let initial = m.initial_val_set in
      let run =
        apply_cc_validator_changes-applies address no_collision initial (validators_of m) h
          decodes in
      let ret = initial ++ zero_updates initial keys in
      let m' : Module = record (with_validators run.1.0 m) { pre_ccv = false } in
      (
        ret,
        (
          m',
          (
            ap
                  (λ x.
                    if x
                    then changeover_to_consumer address (ok keys) m
                    else flush_changes address (log_packets (send_packets c m.packets) m))
                  ccv
                ∙ ap
                    (λ r.
                      continue (r.0, with_validators r.1 m)
                        (λ us m1. (ok ret, record m1 { pre_ccv = false })))
                    run.1.1.0,
            (
              refl,
              λ key. (
                ap (λ g. g key)
                      (apply_updates-append initial (zero_updates initial keys) standalone)
                    ∙ zero_updates-powers initial keys (apply_updates initial standalone) key
                    ∙ replaced (has_key key initial) (elem key keys) key refl refl,
                (run.1.1.1.1 key).0,
              ),
            ),
          ),
        ),
      )
    where
      replaced :
          (x y : Bool) (key : ℕ)
          → has_key key m.initial_val_set ≡ x
          → elem key keys ≡ y
          → (if y && not x then 0 else apply_updates m.initial_val_set standalone key)
            ≡ apply_updates m.initial_val_set (λ k. 0) key
      replaced true true key e e' =
          apply_updates-present m.initial_val_set standalone (λ k. 0) key e
      replaced true false key e e' =
          apply_updates-present m.initial_val_set standalone (λ k. 0) key e
      replaced false true key e e' = sym (apply_updates-absent m.initial_val_set (λ k. 0) key e)
      replaced false false key e e' =
          apply_updates-absent m.initial_val_set standalone key e
          ∙ only key e'
          ∙ sym (apply_updates-absent m.initial_val_set (λ k. 0) key e)
