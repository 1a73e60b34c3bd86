-- ===== src/Prelude/Action.antt =====
-- A method call of Python: state and exceptions. The state comes back after a raise too, since
-- what was written stays written.
use mathlib.Core.Bool.{Bool}
use kairos_quant_scouts.Prelude.Tests.{if◌then◌else◌}
use mathlib.Core.Path.{◌≡◌}
use kairos_quant_scouts.Prelude.Result.{Result, ok, err}

abbrev pub Action : Type 0 → Type 0 → Type 0 → Type 0
Action S E A = S → Result E A × S

module _ {S E A : Type 0} where
  abbrev pub pure : A → Action S E A
  pure a s = (ok a, s)

  abbrev pub raise : E → Action S E A
  raise e s = (err e, s)

abbrev pub resume : {S E A B : Type 0} → Result E A × S → (A → Action S E B) → Result E B × S
resume (ok a, s) f = f a s
resume (err e, s) f = (err e, s)

infixl 5 ◌>>=◌ ◌>>◌
abbrev pub ◌>>=◌ : {S E A B : Type 0} → Action S E A → (A → Action S E B) → Action S E B
◌>>=◌ m f s = resume (m s) f

abbrev pub ◌>>◌ : {S E A B : Type 0} → Action S E A → Action S E B → Action S E B
◌>>◌ m k s = resume (m s) (λ _. k)

abbrev pub raise_if : {S E : Type 0} → Bool → E → Action S E (Unit {0})
raise_if c e s = (if c then err e else ok tt, s)

abbrev pub modify : {S E : Type 0} → (S → S) → Action S E (Unit {0})
modify f s = (ok tt, f s)

abbrev pub gets : {S E A : Type 0} → (S → A) → Action S E A
gets f s = (ok (f s), s)

module _ {S E A B : Type 0} (m : Action S E A) (f : A → Action S E B) (s : S) where
  -- A block runs on where its first step returned, and ends where it raised.
  pub bind_ok : {a : A} {t : S} → m s ≡ (ok a, t) → (m >>= f) s ≡ f a t
  bind_ok e = rw e

  pub bind_err : {e : E} {t : S} → m s ≡ (err e, t) → (m >>= f) s ≡ (err e, t)
  bind_err e = rw e
