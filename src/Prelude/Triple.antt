-- ===== src/Prelude/Triple.antt =====
-- What holds after a call: `Q` of its value and state if it returns, `R` of its error and state if
-- it raises. A bound call is proved step by step.
use kairos_quant_scouts.Prelude.Result.{Result, ok, err}
use kairos_quant_scouts.Prelude.Action.{Action, resume}

abbrev pub After : {S E A : Type 0} → (A → S → Type 0) → (E → S → Type 0) → Result E A × S → Type 0
After Q R (ok a, s) = Q a s
After Q R (err e, s) = R e s

module _ {S E A B : Type 0} where
  pub After-resume :
      (P : A → S → Type 0) (Q : B → S → Type 0) (R : E → S → Type 0) (r : Result E A × S)
      (f : A → Action S E B)
      → After P R r
      → ((a : A) (s : S) → P a s → After Q R (f a s))
      → After Q R (resume r f)
  After-resume P Q R (ok a, s) f h k = k a s h
  After-resume P Q R (err e, s) f h k = h

module _ {S E A : Type 0} where
  pub After-weaken :
      (P Q : A → S → Type 0) (R T : E → S → Type 0) (r : Result E A × S)
      → After P R r
      → ((a : A) (s : S) → P a s → Q a s)
      → ((e : E) (s : S) → R e s → T e s)
      → After Q T r
  After-weaken P Q R T (ok a, s) h k l = k a s h
  After-weaken P Q R T (err e, s) h k l = l e s h

  pub After-both :
      (P Q : A → S → Type 0) (R T : E → S → Type 0) (r : Result E A × S)
      → After P R r
      → After Q T r
      → After (λ a s. P a s × Q a s) (λ e s. R e s × T e s) r
  After-both P Q R T (ok a, s) h k = (h, k)
  After-both P Q R T (err e, s) h k = (h, k)
