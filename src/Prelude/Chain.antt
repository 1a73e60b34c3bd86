-- ===== src/Prelude/Chain.antt =====
-- Lists of timed items that follow one another without a gap, and bounded queues.
use Prim.Native.Nat.{ℕ, zero, suc, ◌+◌, ◌-◌, ◌*◌, ◌≤◌}
use mathlib.Core.Path.{◌≡◌, refl}
use mathlib.Core.List.{List, [], ◌∷◌, ◌++◌}
use native.Mathlib.Omega.{arith}
use kairos_quant_scouts.Prelude.Lists.{length, drop, length-drop}

module _ {ℓ} {A : Type ℓ} (time : A → ℕ) (step : ℕ) where
  -- The first item is `step` after `t`, and every item `step` after the one before it.
  abbrev pub Follows : ℕ → List A → Type 0
  Follows t [] = Unit
  Follows t (x ∷ xs) = (time x ≡ t + step) × Follows (time x) xs

  -- Every item but the first is `step` after the one before it.
  abbrev pub Contiguous : List A → Type 0
  Contiguous [] = Unit
  Contiguous (x ∷ []) = Unit
  Contiguous (x ∷ y ∷ ys) = (time y ≡ time x + step) × Contiguous (y ∷ ys)

  -- The last item, if there is one, stands at `t`.
  abbrev pub Ends : ℕ → List A → Type 0
  Ends t [] = Unit
  Ends t (x ∷ []) = time x ≡ t
  Ends t (x ∷ y ∷ ys) = Ends t (y ∷ ys)

  -- The time of the last item, `t` if there is none.
  abbrev pub last_time : ℕ → List A → ℕ
  last_time t [] = t
  last_time t (x ∷ xs) = last_time (time x) xs

module _ {ℓ} {A : Type ℓ} (time : A → ℕ) (step : ℕ) where
  pub Follows-append :
      (t : ℕ) (xs ys : List A)
      → Follows time step t xs
      → Follows time step (last_time time step t xs) ys
      → Follows time step t (xs ++ ys)
  Follows-append t [] ys h k = k
  Follows-append t (x ∷ xs) ys h k = (h.0, Follows-append (time x) xs ys h.1 k)

  pub last_time-append :
      (t : ℕ) (xs ys : List A)
      → last_time time step t (xs ++ ys) ≡ last_time time step (last_time time step t xs) ys
  last_time-append t [] ys = refl
  last_time-append t (x ∷ xs) ys = last_time-append (time x) xs ys

  pub last_time-eq :
      (t : ℕ) (xs : List A)
      → Follows time step t xs
      → last_time time step t xs ≡ t + length xs * step
  last_time-eq t [] h = omega arith
  last_time-eq t (x ∷ xs) h = grind (arith, last_time-eq (time x) xs h.1)

  Contiguous-tail : (x : A) (xs : List A) → Contiguous time step (x ∷ xs) → Contiguous time step xs
  Contiguous-tail x [] h = tt
  Contiguous-tail x (y ∷ ys) h = h.1

  pub Contiguous-drop :
      (n : ℕ) (xs : List A) → Contiguous time step xs → Contiguous time step (drop n xs)
  Contiguous-drop zero xs h = h
  Contiguous-drop (suc n) [] h = tt
  Contiguous-drop (suc n) (x ∷ xs) h = Contiguous-drop n xs (Contiguous-tail x xs h)

  Ends-tail : (t : ℕ) (x : A) (xs : List A) → Ends time step t (x ∷ xs) → Ends time step t xs
  Ends-tail t x [] h = tt
  Ends-tail t x (y ∷ ys) h = h

  pub Ends-drop : (n t : ℕ) (xs : List A) → Ends time step t xs → Ends time step t (drop n xs)
  Ends-drop zero t xs h = h
  Ends-drop (suc n) t [] h = tt
  Ends-drop (suc n) t (x ∷ xs) h = Ends-drop n t xs (Ends-tail t x xs h)

  pub Ends-append : (x : A) (xs : List A) → Ends time step (time x) (xs ++ x ∷ [])
  Ends-append x [] = refl
  Ends-append x (y ∷ []) = refl
  Ends-append x (y ∷ z ∷ zs) = Ends-append x (z ∷ zs)

  pub Contiguous-append :
      (t : ℕ) (x : A) (xs : List A)
      → Contiguous time step xs
      → Ends time step t xs
      → time x ≡ t + step
      → Contiguous time step (xs ++ x ∷ [])
  Contiguous-append t x [] h k e = tt
  Contiguous-append t x (y ∷ []) h k e = (omega (arith, k), tt)
  Contiguous-append t x (y ∷ z ∷ zs) h k e = (h.0, Contiguous-append t x (z ∷ zs) h.1 k e)

module _ {ℓ} {A : Type ℓ} where
  -- Python's `deque(maxlen=n)`: an append beyond `n` items drops the oldest ones.
  abbrev pub keep_last : ℕ → List A → List A
  keep_last n xs = drop (length xs - n) xs

  pub length-keep_last-le : (n : ℕ) (xs : List A) → length (keep_last n xs) ≤ n
  length-keep_last-le n xs = omega (arith, length-drop (length xs - n) xs)
