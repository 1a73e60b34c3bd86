-- ===== src/Examples.antt =====
-- Concrete instances of the parameters, at which the theorems are applied and the definitions run:
-- natural numbers for the floats.
use kairos_quant_scouts.Prelude.{
  ℕ, ◌+◌, ◌-◌, ◌*◌, ◌/◌, ◌^◌, ◌≡◌, ◌==◌, Bool, true, false, not, ltb, leb, arith,
}
use kairos_quant_scouts.Prelude.Int.{pos, ltb_ℤ}
use kairos_quant_scouts.Prelude.Result.{Result, ok, err}
use kairos_quant_scouts.Floats.{Floats, IsOrdered, IsExact}
mod Books
mod Tapes
mod Klines
mod Repairs
mod Rules
mod Venues
mod Runs
mod Captures
mod Snapshots
mod Replays

abbrev pub numbers : Floats
numbers = record {
  F = ℕ;
  finite = λ a. true;
  less = ltb;
  at_most = leb;
  same = λ a b. a == b;
  add = λ a b. a + b;
  sub = λ a b. a - b;
  mul = λ a b. a * b;
  div = λ a b. a / b;
  of_nat = λ a. a;
  absolute = λ a. a;
  negate = λ a. 0;
  infinity = 10 ^ 18;
  floor = λ a. a;
  ceiling = λ a. a;
  int_above = λ n a. ltb_ℤ (pos a) n;
}

pub numbers-IsOrdered : IsOrdered numbers
numbers-IsOrdered = record {
  at_most_not_less = λ a b p q. complement a b;
  less_asymmetric = λ a b h. asymmetric a b h;
  not_less_trans = λ a b c p h k. transitive a b c h k;
}
  where
    complement : (a b : ℕ) → leb a b ≡ not (ltb b a)
    complement a b = ground arith

    asymmetric : (a b : ℕ) → ltb a b ≡ true → ltb b a ≡ false
    asymmetric a b h = ground arith

    transitive : (a b c : ℕ) → ltb b a ≡ false → ltb c b ≡ false → ltb c a ≡ false
    transitive a b c h k = ground arith

pub numbers-IsExact : IsExact numbers
numbers-IsExact = record { same_positive = λ a b p q h. equal a b h }
  where
    equal : (a b : ℕ) → (a == b) ≡ true → a ≡ b
    equal a b h = ground (arith, h)

-- The value of a call, or another one if it raised.
abbrev pub value_or {ℓ} : {E A : Type ℓ} → A → Result E A → A
value_or a (ok b) = b
value_or a (err e) = a
