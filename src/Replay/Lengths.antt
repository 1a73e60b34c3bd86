-- ===== src/Replay/Lengths.antt =====
-- kairos_quant/indicators.py: the moving average keeps the length of its series.
use kairos_quant_scouts.Prelude.{
  ℕ, zero, suc, ◌+◌, ◌-◌, ◌≤◌, ◌≡◌, refl, ap, Bool, true, false, not, ◌||◌, List, [], ◌∷◌, ◌++◌,
  take, drop, ltb, ◌==◌, length, length-append, length-drop, if◌then◌else◌, arith,
}
use kairos_quant_scouts.Prelude.Result.{ok, ◌>>=◌, bind_ok, passed, ok_injective}
use kairos_quant_scouts.Floats.{Floats}
use kairos_quant_scouts.Snapshot.Builder.{all_finite}
use kairos_quant_scouts.Replay.Series.{
  bad_period, infinite_value, gap_in_series, Numpy, positive_period, stable_mean, any_infinite,
  from_finite, nans, smoothed, seeded, ema,
}

module _ (fl : Floats) (np : Numpy fl) where
  open fl use {F, finite}

  length-nans : (n : ℕ) → length (nans fl np n) ≡ n
  unfolding nans
  length-nans zero = refl
  length-nans (suc n) = ap suc (length-nans n)

  length-smoothed :
      (period : ℕ) (xs : List F) (last : F) → length (smoothed fl np period last xs) ≡ length xs
  unfolding smoothed
  length-smoothed period [] last = refl
  length-smoothed period (x ∷ xs) last = ap suc (length-smoothed period xs _)

  length-from_finite : (xs : List F) → length (from_finite fl np xs) ≤ length xs
  unfolding from_finite
  length-from_finite [] = omega arith
  length-from_finite (x ∷ xs) = go (finite x) (length-from_finite xs)
    where
      go :
          (b : Bool)
          → length (from_finite fl np xs) ≤ length xs
          → length (if b then x ∷ xs else from_finite fl np xs) ≤ suc (length xs)
      go true h = omega arith
      go false h = omega (arith, h)

  sized :
      (l n p whole front back rest : ℕ)
      → l ≤ n
      → (p == 0) ≡ false
      → (ltb l p || (l == 0)) ≡ false
      → whole ≡ front + suc back
      → front ≡ n - l + (p - 1)
      → back ≡ rest
      → rest ≡ l - p
      → whole ≡ n
  sized l n p whole front back rest h1 h2 h3 h4 h5 h6 h7 =
      ground (arith, h1, h2, h3, h4, h5, h6, h7)

  length-seeded :
      (period n : ℕ) (xs out : List F)
      → length xs ≤ n
      → (period == 0) ≡ false
      → seeded fl np period n xs ≡ ok out
      → length out ≡ n
  unfolding seeded
  length-seeded period n xs out few positive h =
      go (ltb (length xs) period || (length xs == 0)) refl h
    where
      go :
          (b : Bool)
          → (ltb (length xs) period || (length xs == 0)) ≡ b
          → (if b
              then ok (nans fl np n)
              else (stable_mean fl np (take period xs) >>= λ seed. ok (
                  nans fl np (n - length xs + (period - 1))
                  ++ seed ∷ smoothed fl np period seed (drop period xs))))
            ≡ ok out
          → length out ≡ n
      go true e k = rw (← ok_injective k) (length-nans n)
      go false e k =
          let (seed, s, k1) = bind_ok (stable_mean fl np (take period xs)) _ out k in
          let a =
            length-append (nans fl np (n - length xs + (period - 1)))
              (seed ∷ smoothed fl np period seed (drop period xs)) in
          let b = length-nans (n - length xs + (period - 1)) in
          let c = length-smoothed period (drop period xs) seed in
          let d = length-drop period xs in
          rw (← ok_injective k1) (sized (length xs) n period _ _ _ _ few positive e a b c d)

  -- A moving average that returns has one entry for each value of the series.
  pub length-ema :
      (values out : List F) (period : ℕ)
      → ema fl np values period ≡ ok out
      → length out ≡ length values
  unfolding ema positive_period
  length-ema values out period h =
      let (positive, h1) = passed (period == 0) bad_period _ out h in
      let (finite_or_nan, h2) = passed (any_infinite fl np values) infinite_value _ out h1 in
      let (no_gap, h3) =
        passed (not (all_finite fl (from_finite fl np values))) gap_in_series _ out h2 in
      length-seeded period (length values) (from_finite fl np values) out
        (length-from_finite values) positive h3
