-- ===== src/Floats.antt =====
-- Python's floats, which the program reads from JSON and computes with: IEEE 754 doubles, which are
-- no code of the repository. The type and its operations are a parameter of every module that
-- computes with them; what a proof needs of them is a separate record of named hypotheses.
use kairos_quant_scouts.Prelude.{ℕ, ◌≡◌, Bool, true, false, not}
use kairos_quant_scouts.Prelude.Int.{ℤ}

pub record Floats : Type 1 where
  pub F : Type 0
  -- `math.isfinite(a)`, `a < b`, `a <= b`, `a == b`
  pub finite : F → Bool
  pub less : F → F → Bool
  pub at_most : F → F → Bool
  pub same : F → F → Bool
  pub add : F → F → F
  pub sub : F → F → F
  pub mul : F → F → F
  pub div : F → F → F
  -- `float(n)`
  pub of_nat : ℕ → F
  -- `abs(a)`, `-a`, `math.inf`
  pub absolute : F → F
  pub negate : F → F
  pub infinity : F
  -- `math.floor(a)` and `math.ceil(a)` of an `a` that is not negative
  pub floor : F → ℕ
  pub ceiling : F → ℕ
  -- `n > a` of an integer, which Python compares exactly
  pub int_above : ℤ → F → Bool

-- IEEE 754 comparison: `less` is a strict weak order on the finite values, and `at_most` its
-- complement the other way round.
pub record IsOrdered (fl : Floats) : Type 0 where
  pub at_most_not_less :
      (a b : fl.F) → fl.finite a ≡ true → fl.finite b ≡ true → fl.at_most a b ≡ not (fl.less b a)
  pub less_asymmetric : (a b : fl.F) → fl.less a b ≡ true → fl.less b a ≡ false
  pub not_less_trans :
      (a b c : fl.F)
      → fl.finite b ≡ true
      → fl.less b a ≡ false
      → fl.less c b ≡ false
      → fl.less c a ≡ false

-- A number that equals a positive one is that number.
pub record IsExact (fl : Floats) : Type 0 where
  pub same_positive :
      (a b : fl.F)
      → fl.finite b ≡ true
      → fl.at_most b (fl.of_nat 0) ≡ false
      → fl.same a b ≡ true
      → a ≡ b
