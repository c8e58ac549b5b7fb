-- ===== src/Common/Outcome.antt =====
-- Go's ways to leave a function: a value, an error, or a panic; and handlers that pass a state on.
-- The state that a handler reaches before it fails is kept, as in the source, where only the
-- caller decides whether the writes of a failed call are dropped.
use mathlib.Core.Path.{ap, ◌≡◌, refl}
use mathlib.Core.Logic.{◌⊎◌, inl, inr}
use mathlib.Core.Bool.{Bool, true, false}
use mathlib.Core.Option.{Option, none, some}

-- The errors that the modelled code returns, by their registered names; `external` is an error
-- that a call of another module or library gave.
pub data Error : Type 0 where
  invalid_phase unknown_consumer_id invalid_consumer_state : Error
  consumer_key_in_use cannot_assign_default_key cannot_opt_out_from_top_n : Error
  store_key_not_found invalid_top_n unreachable : Error
  no_such_time no_such_id : Error
  non_stopped no_validators no_active_validator : Error
  invalid_packet unknown_infraction_height invalid_channel_state unknown_channel : Error
  bad_acknowledgement : Error
  channel_not_found too_many_hops connection_not_found client_not_found : Error
  invalid_evidence invalid_signature validator_unbonded validator_tombstoned : Error
  invalid_client_type no_consumer_id invalid_consumer_client duplicate_channel : Error
  external : Error

pub data Outcome {ℓ} (A : Type ℓ) : Type ℓ where
  ok : A → Outcome A
  err : Error → Outcome A
  panic : Outcome A

abbrev pub Handler : Type 0 → Type 0 → Type 0
Handler S A = S → Outcome A × S

-- What follows a call that left by `r` in the state `s`.
abbrev pub continue : {S A B : Type 0} → Outcome A × S → (A → Handler S B) → Outcome B × S
continue (ok a, s) f = f a s
continue (err e, s) f = (err e, s)
continue (panic, s) f = (panic, s)

infixl 5 ◌>>=◌ ◌>>◌
abbrev pub ◌>>=◌ : {S A B : Type 0} → Handler S A → (A → Handler S B) → Handler S B
◌>>=◌ m f s = continue (m s) f

abbrev pub ◌>>◌ : {S B : Type 0} → Handler S (Unit {0}) → Handler S B → Handler S B
m >> k = m >>= λ _. k

abbrev pub pure : {S A : Type 0} → A → Handler S A
pure a s = (ok a, s)

abbrev pub fail : {S A : Type 0} → Error → Handler S A
fail e s = (err e, s)

abbrev pub panics : {S A : Type 0} → Handler S A
panics s = (panic, s)

abbrev pub gets : {S A : Type 0} → (S → A) → Handler S A
gets f s = (ok (f s), s)

abbrev pub modify : {S : Type 0} → (S → S) → Handler S (Unit {0})
modify f s = (ok tt, f s)

-- `if bad { return err }`
abbrev pub reject_if : {S : Type 0} → Bool → Error → Handler S (Unit {0})
reject_if true e s = (err e, s)
reject_if false e s = (ok tt, s)

-- A result of a read-only call, which the caller returns early if it is an error.
abbrev pub attempt : {S A : Type 0} → Outcome A → Handler S A
attempt r s = (r, s)

-- A missing entry is the given error.
abbrev pub or_fail : {S A : Type 0} → Option A → Error → Handler S A
or_fail none e s = (err e, s)
or_fail (some a) e s = (ok a, s)

-- Read-only chains, with no state.
abbrev pub then_ok : {A B : Type 0} → Outcome A → (A → Outcome B) → Outcome B
then_ok (ok a) f = f a
then_ok (err e) f = err e
then_ok panic f = panic

-- The branches by how a call left.
abbrev pub is_ok : {A : Type 0} → Outcome A → Bool
is_ok (ok a) = true
is_ok (err e) = false
is_ok panic = false

-- A call that fails ends the chain, in the state that it left.
pub continue-fails :
    {S A B : Type 0} (r : Outcome A × S) (f : A → Handler S B)
    → is_ok r.0 ≡ false
    → is_ok (continue r f).0 ≡ false
continue-fails (ok a, s) f h = cc
continue-fails (err e, s) f h = refl
continue-fails (panic, s) f h = refl

pub continue-state :
    {S A B : Type 0} (r : Outcome A × S) (f : A → Handler S B)
    → is_ok r.0 ≡ false
    → (continue r f).1 ≡ r.1
continue-state (ok a, s) f h = cc
continue-state (err e, s) f h = refl
continue-state (panic, s) f h = refl

-- What a chain that ends with a value went through.
pub continue-ok :
    {S A B : Type 0} (r : Outcome A × S) (f : A → Handler S B) (b : B) (s' : S)
    → continue r f ≡ (ok b, s')
    → (a : A) × ((s : S) × ((r ≡ (ok a, s)) × (f a s ≡ (ok b, s'))))
continue-ok (ok a, s) f b s' h = (a, (s, (refl, h)))
continue-ok (err e, s) f b s' h = cc
continue-ok (panic, s) f b s' h = cc

-- An invariant of the state that a call and what follows it keep.
pub continue-holds :
    {S A B : Type 0} (P : S → Type 0) (r : Outcome A × S) (f : A → Handler S B)
    → P r.1
    → ((a : A) (s : S) → P s → P (f a s).1)
    → P (continue r f).1
continue-holds P (ok a, s) f p h = h a s p
continue-holds P (err e, s) f p h = p
continue-holds P (panic, s) f p h = p

-- What neither a call nor what follows it changes.
pub continue-keeps :
    {S A B X : Type 0} (read : S → X) (r : Outcome A × S) (f : A → Handler S B)
    → ((a : A) (s : S) → read (f a s).1 ≡ read s)
    → read (continue r f).1 ≡ read r.1
continue-keeps read (ok a, s) f h = h a s
continue-keeps read (err e, s) f h = refl
continue-keeps read (panic, s) f h = refl

pub reject_if-ok :
    {S B : Type 0} (bad : Bool) (e : Error) (s : S) (f : Unit {0} → Handler S B) (b : B) (s' : S)
    → continue (reject_if bad e s) f ≡ (ok b, s')
    → (bad ≡ false) × (f tt s ≡ (ok b, s'))
reject_if-ok true e s f b s' h = cc
reject_if-ok false e s f b s' h = (refl, h)

pub ok_inj : {A : Type 0} {a b : A} → ok a ≡ ok b → a ≡ b
ok_inj e = cc

pub or_fail-ok :
    {S A : Type 0} (o : Option A) (e : Error) (s : S) (a : A) (s' : S)
    → or_fail o e s ≡ (ok a, s')
    → (o ≡ some a) × (s ≡ s')
or_fail-ok none e s a s' h = cc
or_fail-ok (some x) e s a s' h = (ap some (ok_inj (ap (λ r. r.0) h)), ap (λ r. r.1) h)

pub then_ok-ok :
    {A B : Type 0} (r : Outcome A) (f : A → Outcome B) (b : B)
    → then_ok r f ≡ ok b
    → (a : A) × ((r ≡ ok a) × (f a ≡ ok b))
then_ok-ok (ok a) f b h = (a, (refl, h))
then_ok-ok (err e) f b h = cc
then_ok-ok panic f b h = cc

pub Outcome-cases :
    {A : Type 0} (r : Outcome A)
    → ((a : A) × (r ≡ ok a)) ⊎ (((x : Error) × (r ≡ err x)) ⊎ (r ≡ panic))
Outcome-cases (ok a) = inl (a, refl)
Outcome-cases (err x) = inr (inl (x, refl))
Outcome-cases panic = inr (inr refl)
