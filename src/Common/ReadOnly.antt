-- ===== src/Common/ReadOnly.antt =====
-- What holds after a handler, by what holds where it stops early and after the rest: rules for the steps
-- that only read.
use mathlib.Core.Path.{◌≡◌, refl, sym, subst}
use mathlib.Core.Bool.{Bool, true, false}
use mathlib.Core.Option.{Option, none, some}
use interchain_security.Common.Tests.{if◌then◌else◌}
use interchain_security.Common.Outcome.{
  Outcome, ok, err, panic, Error, Handler, continue, or_fail, reject_if, is_ok,
}

module _ {S B : Type 0} (Q : Outcome B × S → Type 0) (s : S)
    (stop : (r : Outcome B) → is_ok r ≡ false → Q (r, s)) where
  pub after_attempt :
      {A : Type 0} (r : Outcome A) (f : A → Handler S B)
      → ((a : A) → Q (f a s))
      → Q (continue (r, s) f)
  after_attempt (ok a) f h = h a
  after_attempt (err e) f h = stop (err e) refl
  after_attempt panic f h = stop panic refl

  pub after_or_fail :
      {A : Type 0} (o : Option A) (e : Error) (f : A → Handler S B)
      → ((a : A) → Q (f a s))
      → Q (continue (or_fail o e s) f)
  after_or_fail none e f h = stop (err e) refl
  after_or_fail (some a) e f h = h a

  pub after_reject_if :
      (b : Bool) (e : Error) (f : Unit {0} → Handler S B)
      → Q (f tt s)
      → Q (continue (reject_if b e s) f)
  after_reject_if true e f h = stop (err e) refl
  after_reject_if false e f h = h

  -- A step that is known to leave the state alone.
  pub after_state :
      {A : Type 0} (r : Outcome A × S) (f : A → Handler S B)
      → r.1 ≡ s
      → ((a : A) → Q (f a s))
      → Q (continue r f)
  after_state (ok a, s') f e h = subst (λ t. Q (f a t)) (sym e) (h a)
  after_state (err x, s') f e h = subst (λ t. Q (err x, t)) (sym e) (stop (err x) refl)
  after_state (panic, s') f e h = subst (λ t. Q (panic, t)) (sym e) (stop panic refl)

-- The state is changed by `g` exactly if the call succeeds.
abbrev pub Applied : {S B : Type 0} → (S → S) → S → Outcome B × S → Type 0
Applied g s r = r.1 ≡ (if is_ok r.0 then g s else s)

pub Applied-stop :
    {S B : Type 0} (g : S → S) (s : S) (r : Outcome B) → is_ok r ≡ false → Applied g s (r, s)
Applied-stop g s (ok b) h = cc
Applied-stop g s (err e) h = refl
Applied-stop g s panic h = refl
