-- ===== src/Venue/Qualified.antt =====
-- kairos_quant/venue_comparison.py: what the samples of a symbol that is not blocked are like.
use kairos_quant_scouts.Prelude.{
  ℕ, ◌≤◌, ◌≡◌, refl, Bool, false, not, ◌&&◌, List, [], ◌∷◌, map, Option, none, some, ltb, length,
  if◌then◌else◌, arith,
}
use kairos_quant_scouts.Prelude.Int.{ℤ, ◌≤ℤ◌, max_ℤ, max_ℤ-≤ℤ}
use kairos_quant_scouts.Prelude.Result.{Result, ok}
use mathlib.Core.Path.{subst}
use kairos_quant_scouts.Floats.{Floats}
use kairos_quant_scouts.Venue.Book.{VenueError}
use kairos_quant_scouts.Venue.Admission.{AllFalse}
use kairos_quant_scouts.Venue.Compare.{
  VenueSample, Thresholds, present, incomplete, or_infinity, none_or_above, none_or_int_above,
  slippage_above, max_skew, max_age, largest, largest_from, shortfall_tests, percentile,
}

abbrev pub AllAtMost : ℤ → List ℤ → Type 0
AllAtMost n [] = Unit
AllAtMost n (x ∷ xs) = (x ≤ℤ n) × AllAtMost n xs

largest_from-AllAtMost :
    (m : ℤ) (xs : List ℤ) → (m ≤ℤ largest_from m xs) × AllAtMost (largest_from m xs) xs
unfolding largest_from
largest_from-AllAtMost m [] = (omega arith, tt)
largest_from-AllAtMost m (x ∷ xs) =
    let (top, others) = largest_from-AllAtMost (max_ℤ m x) xs in
    let (left, right) = (max_ℤ-≤ℤ m x (largest_from (max_ℤ m x) xs)).0 top in
    (left, (right, others))

largest-AllAtMost : (xs : List ℤ) (n : ℤ) → largest xs ≡ some n → AllAtMost n xs
unfolding largest
largest-AllAtMost [] n h = tt
largest-AllAtMost (x ∷ xs) n h =
    let eq : largest_from x xs ≡ n = cc h in
    let h : AllAtMost (largest_from x xs) (x ∷ xs) = largest_from-AllAtMost x xs in
    subst (λ m. AllAtMost m (x ∷ xs)) eq h

AllAtMost-max :
    {A : Type 0} (f g : A → ℤ) (xs : List A) (n : ℤ)
    → AllAtMost n (map (λ x. max_ℤ (f x) (g x)) xs)
    → AllAtMost n (map f xs) × AllAtMost n (map g xs)
AllAtMost-max f g [] n h = (tt, tt)
AllAtMost-max f g (x ∷ xs) n (here, rest) =
    let (left, right) = (max_ℤ-≤ℤ (f x) (g x) n).0 here in
    let (lefts, rights) = AllAtMost-max f g xs n rest in ((left, lefts), (right, rights))

not_ltb : {a b : ℕ} → ltb a b ≡ false → b ≤ a
not_ltb h = ground (arith, h)

module _ (fl : Floats) where
  open fl use {F, less, div, of_nat, floor, absolute, int_above}

  -- A percentile exists and is not above the limit.
  abbrev pub IsBelow : F → Result VenueError (Option F) → Type 0
  IsBelow limit r = (x : F) × (r ≡ ok (some x)) × (less limit x ≡ false)

  -- Some number is not above the limit, and no item is above the number.
  abbrev pub AllWithin : F → List ℤ → Type 0
  AllWithin limit xs = (n : ℤ) × (int_above n limit ≡ false) × AllAtMost n xs

  -- The greater of two percentiles, a missing one or a zero counting as infinite, is not above the
  -- limit.
  abbrev pub AreBelow : F → Result VenueError (Option F) → Result VenueError (Option F) → Type 0
  AreBelow limit r s =
      (b : Option F) × (c : Option F) × (r ≡ ok b)
      × (s ≡ ok c)
      × (less limit (
            if less (or_infinity fl b) (or_infinity fl c)
            then or_infinity fl c
            else or_infinity fl b)
          ≡ false)

  abbrev p95 : F
  p95 = div (of_nat 95) (of_nat 100)

  -- What a verdict rests on: one condition for each test of the code.
  pub record IsQualified (samples : List (VenueSample fl)) (requested : ℕ) (limits : Thresholds fl)
      : Type 0 where
    pub enough : floor limits.minimum_samples ≤ length samples
    pub available :
        less (div (of_nat (length samples)) (of_nat requested)) limits.minimum_availability ≡ false
    pub basis :
        IsBelow limits.maximum_p95_abs_basis_bps
          (percentile fl (map (λ x. absolute x.basis_bps) samples) (div (of_nat 95) (of_nat 100)))
    pub spread :
        IsBelow limits.maximum_p95_evedex_spread_bps
          (percentile fl (map (λ x. x.evedex_spread_bps) samples) (div (of_nat 95) (of_nat 100)))
    pub complete : incomplete fl samples ≡ false
    pub slippage :
        AreBelow limits.maximum_p95_evedex_slippage_bps
          (percentile fl
            (present (map (λ x. x.evedex_buy_slippage_bps) samples))
            (div (of_nat 95) (of_nat 100)))
          (percentile fl
            (present (map (λ x. x.evedex_sell_slippage_bps) samples))
            (div (of_nat 95) (of_nat 100)))
    pub skew : AllWithin limits.maximum_timestamp_skew_ms (map (λ x. x.timestamp_skew_ms) samples)
    pub evedex_age : AllWithin limits.maximum_book_age_ms (map (λ x. x.evedex_age_ms) samples)
    pub binance_age : AllWithin limits.maximum_book_age_ms (map (λ x. x.binance_age_ms) samples)

  below :
      (limit : F) (r : Result VenueError (Option F)) (o : Option F)
      → r ≡ ok o
      → none_or_above fl limit o ≡ false
      → IsBelow limit r
  unfolding none_or_above
  below limit r none e h = cc
  below limit r (some x) e h = (x, e, h)

  within :
      (limit : F) (xs : List ℤ) (o : Option ℤ)
      → largest xs ≡ o
      → none_or_int_above fl limit o ≡ false
      → AllWithin limit xs
  unfolding none_or_int_above
  within limit xs none e h = cc
  within limit xs (some n) e h = (n, h, largest-AllAtMost xs n e)

  both_false : (a b : Bool) → a ≡ false → not a && b ≡ false → b ≡ false
  both_false a b h k = ground (arith, h, k)

  pub shortfall_tests-IsQualified :
      (samples : List (VenueSample fl)) (requested : ℕ) (limits : Thresholds fl)
      (b e y z : Option F)
      → percentile fl (map (λ x. absolute x.basis_bps) samples) (div (of_nat 95) (of_nat 100))
        ≡ ok b
      → percentile fl (map (λ x. x.evedex_spread_bps) samples) (div (of_nat 95) (of_nat 100)) ≡ ok e
      → percentile fl
          (present (map (λ x. x.evedex_buy_slippage_bps) samples))
          (div (of_nat 95) (of_nat 100))
        ≡ ok y
      → percentile fl
          (present (map (λ x. x.evedex_sell_slippage_bps) samples))
          (div (of_nat 95) (of_nat 100))
        ≡ ok z
      → AllFalse (shortfall_tests fl samples requested limits b e y z)
      → IsQualified samples requested limits
  unfolding shortfall_tests slippage_above max_skew max_age
  shortfall_tests-IsQualified samples requested limits b e y z hb he hy hz
        (few, (seldom, (far, (wide, (thin, (slipped, (skewed, (old, _)))))))) =
      let (n, top, all) =
        within limits.maximum_book_age_ms
          (map (λ x. max_ℤ x.evedex_age_ms x.binance_age_ms) samples) (max_age fl samples) refl
          old in
      let (evedex, binance) =
        AllAtMost-max (λ (x : VenueSample fl). x.evedex_age_ms) (λ x. x.binance_age_ms) samples n
          all in
      record {
        enough = omega (arith, not_ltb few);
        available = seldom;
        basis = below limits.maximum_p95_abs_basis_bps _ b hb far;
        spread = below limits.maximum_p95_evedex_spread_bps _ e he wide;
        complete = thin;
        slippage = (y, z, hy, hz, both_false (incomplete fl samples) _ thin slipped);
        skew = within limits.maximum_timestamp_skew_ms _ (max_skew fl samples) refl skewed;
        evedex_age = (n, top, evedex);
        binance_age = (n, top, binance);
      }
