-- ===== src/Prelude/Result.antt =====
-- What a call of Python gives back: a value or an exception. The `do` blocks of code that keeps
-- no state run over it.
use mathlib.Core.Bool.{Bool, true, false}
use mathlib.Core.Path.{◌≡◌, refl}
use mathlib.Core.Logic.{◌↔◌}
use kairos_quant_scouts.Prelude.Tests.{if◌then◌else◌}

pub data Result {ℓ} (E A : Type ℓ) : Type ℓ where
  ok : A → Result E A
  err : E → Result E A

infixl 5 ◌>>=◌ ◌>>◌
abbrev pub ◌>>=◌ {ℓ} : {E A B : Type ℓ} → Result E A → (A → Result E B) → Result E B
ok a >>= f = f a
err e >>= f = err e

abbrev pub ◌>>◌ {ℓ} : {E B : Type ℓ} {A : Type ℓ} → Result E A → Result E B → Result E B
m >> k = m >>= λ _. k

abbrev pub raise_if : {E : Type 0} → Bool → E → Result E (Unit {0})
raise_if c e = if c then err e else ok tt

-- `Q` holds of the value, if there is one.
abbrev pub Returns {ℓ} : {E A : Type ℓ} → (A → Type ℓ) → Result E A → Type ℓ
Returns Q (ok a) = Q a
Returns Q (err e) = Unit

module _ {E A B : Type 0} where
  -- What ran before a value came back.
  pub bind_ok :
      (m : Result E A) (f : A → Result E B) (b : B)
      → (m >>= f) ≡ ok b
      → (a : A) × (m ≡ ok a) × (f a ≡ ok b)
  bind_ok (ok a) f b h = (a, refl, h)
  bind_ok (err e) f b h = cc

  pub then_ok :
      (m : Result E A) (k : Result E B) (b : B)
      → (m >> k) ≡ ok b
      → ((a : A) × (m ≡ ok a)) × (k ≡ ok b)
  then_ok (ok a) k b h = ((a, refl), h)
  then_ok (err e) k b h = cc

  pub Returns-bind :
      (P : A → Type 0) (Q : B → Type 0) (m : Result E A) (f : A → Result E B)
      → Returns P m
      → ((a : A) → P a → Returns Q (f a))
      → Returns Q (m >>= f)
  Returns-bind P Q (ok a) f h k = k a h
  Returns-bind P Q (err e) f h k = tt

  pub Returns-bind_any :
      (Q : B → Type 0) (m : Result E A) (f : A → Result E B)
      → ((a : A) → Returns Q (f a))
      → Returns Q (m >>= f)
  Returns-bind_any Q (ok a) f k = k a
  Returns-bind_any Q (err e) f k = tt

  pub Returns-then :
      (Q : B → Type 0) (m : Result E A) (k : Result E B) → Returns Q k → Returns Q (m >> k)
  Returns-then Q (ok a) k h = h
  Returns-then Q (err e) k h = tt

module _ {E A : Type 0} where
  pub Returns-elim : (Q : A → Type 0) (m : Result E A) (a : A) → m ≡ ok a → Returns Q m → Q a
  Returns-elim Q (ok b) a e h = let eq : b ≡ a = cc e in rw (← eq) h
  Returns-elim Q (err x) a e h = cc

module _ {E B : Type 0} where
  -- A test that did not raise.
  pub passed :
      (c : Bool) (e : E) (k : Result E B) (b : B)
      → (raise_if c e >> k) ≡ ok b
      → (c ≡ false) × (k ≡ ok b)
  passed true e k b h = cc
  passed false e k b h = (refl, h)

module _ {E B : Type 0} where
  pub passed_iff :
      (c : Bool) (e : E) (k : Result E B) (b : B)
      → ((raise_if c e >> k) ≡ ok b) ↔ ((c ≡ false) × (k ≡ ok b))
  passed_iff true e k b = (λ h. cc, λ (p, q). cc)
  passed_iff false e k b = (λ h. (refl, h), λ (p, q). q)

module _ {E A : Type 0} where
  -- The value of a conditional that did not raise.
  pub guard_ok :
      (c : Bool) (e : E) (x y : A) → (if c then ok x else err e) ≡ ok y → (c ≡ true) × (x ≡ y)
  guard_ok true e x y h = (refl, cc h)
  guard_ok false e x y h = cc

  pub unless_ok :
      (c : Bool) (e : E) (x y : A) → (if c then err e else ok x) ≡ ok y → (c ≡ false) × (x ≡ y)
  unless_ok true e x y h = cc
  unless_ok false e x y h = (refl, cc h)

pub not_raised : {E : Type 0} (c : Bool) (e : E) (u : Unit {0}) → raise_if c e ≡ ok u → c ≡ false
not_raised true e u h = cc
not_raised false e u h = refl

pub ok_injective : {E A : Type 0} {x y : A} → Path (Result E A) (ok x) (ok y) → x ≡ y
ok_injective h = cc h

-- What a call gave back.
pub returned : {E A : Type 0} (m : Result E A) → Returns (λ a. m ≡ ok a) m
returned (ok a) = refl
returned (err e) = tt
