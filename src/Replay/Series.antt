-- ===== src/Replay/Series.antt =====
-- kairos_quant/indicators.py: `ema`, `rsi`, `macd` and `atr` over a whole series. The mean of an array and its
-- missing values are numpy's, and parameters; a period is a number that is not negative.
use kairos_quant_scouts.Prelude.{
  ℕ, zero, suc, ◌+◌, ◌-◌, Bool, false, not, ◌&&◌, ◌||◌, List, [], ◌∷◌, ◌++◌, map, take, drop, ◌==◌,
  ltb, leb, length, if◌then◌else◌,
}
use kairos_quant_scouts.Prelude.Result.{Result, ok, err, ◌>>=◌, ◌>>◌, raise_if}
use kairos_quant_scouts.Floats.{Floats}
use kairos_quant_scouts.OrderBook.{maximum_or_zero}
use kairos_quant_scouts.Snapshot.Builder.{all_finite}

-- The messages of the `ValueError`s.
pub data SeriesError : Type 0 where
  bad_period not_finite infinite_value gap_in_series out_of_range bad_periods unequal_lengths
        bad_ranges :
      SeriesError

-- `np.mean` of an array that is not empty, and `np.nan`.
pub record Numpy (fl : Floats) : Type 0 where
  pub mean : List fl.F → fl.F
  pub nan : fl.F

module _ (fl : Floats) (np : Numpy fl) where
  open fl use {F, finite, less, at_most, same, add, sub, mul, div, of_nat, absolute, negate}
  open np use {mean, nan}

  -- `_positive_period`
  unfoldable pub positive_period : ℕ → Result SeriesError (Unit {0})
  positive_period period = raise_if (period == 0) bad_period

  -- `_stable_mean` of an array that is not empty
  unfoldable pub stable_mean : List F → Result SeriesError F
  unfolding maximum_or_zero
  stable_mean xs =
      let scale = maximum_or_zero fl (map absolute xs) in
      let result = mul (mean (map (λ x. div x scale) xs)) scale in
      if same scale (of_nat 0)
      then ok (of_nat 0)
      else if finite result
      then ok result
      else err out_of_range

  -- `np.isinf`: neither finite nor a NaN, which differs from itself
  unfoldable pub any_infinite : List F → Bool
  any_infinite [] = false
  any_infinite (x ∷ xs) = (not (finite x) && same x x) || any_infinite xs

  -- the values from the first finite one on
  unfoldable pub from_finite : List F → List F
  from_finite [] = []
  from_finite (x ∷ xs) = if finite x then x ∷ xs else from_finite xs

  -- `np.full`
  unfoldable pub nans : ℕ → List F
  nans zero = []
  nans (suc n) = nan ∷ nans n

  -- the loop of `ema`
  unfoldable pub smoothed : ℕ → F → List F → List F
  smoothed period last [] = []
  smoothed period last (x ∷ xs) =
      let alpha = div (of_nat 2) (add (of_nat period) (of_nat 1)) in
      let next = add (mul alpha x) (mul (sub (of_nat 1) alpha) last) in
      next ∷ smoothed period next xs

  -- the end of `ema`, from the first finite value on
  unfoldable pub seeded : ℕ → ℕ → List F → Result SeriesError (List F)
  unfolding stable_mean nans smoothed
  seeded period size finite_values =
      if ltb (length finite_values) period || (length finite_values == 0)
      then ok (nans size)
      else (do
        seed ← stable_mean (take period finite_values)
        ok (
            nans (size - length finite_values + (period - 1))
            ++ seed ∷ smoothed period seed (drop period finite_values)))

  unfoldable pub ema : List F → ℕ → Result SeriesError (List F)
  unfolding positive_period any_infinite from_finite seeded all_finite
  ema values period = do
    positive_period period
    raise_if (any_infinite values) infinite_value
    raise_if (not (all_finite fl (from_finite values))) gap_in_series
    seeded period (length values) (from_finite values)

  -- `np.diff`
  unfoldable pub diff_from : F → List F → List F
  diff_from x [] = []
  diff_from x (y ∷ ys) = sub y x ∷ diff_from y ys

  unfoldable pub diff : List F → List F
  unfolding diff_from
  diff [] = []
  diff (x ∷ xs) = diff_from x xs

  -- an entry of `gains`, and of `losses`
  unfoldable pub gain : F → F
  gain delta = if less (of_nat 0) delta then delta else of_nat 0

  unfoldable pub loss : F → F
  loss delta = if less delta (of_nat 0) then negate delta else of_nat 0

  -- the loop of `rsi`, for one of the two averages
  unfoldable pub averaged : ℕ → F → List F → F
  averaged period average [] = average
  averaged period average (x ∷ xs) =
      averaged period (add average (div (sub x average) (of_nat period))) xs

  -- the end of `rsi`
  unfoldable pub strength : F → F → F
  strength avg_gain avg_loss =
      if same avg_gain (of_nat 0) && same avg_loss (of_nat 0)
      then of_nat 50
      else if same avg_loss (of_nat 0)
      then of_nat 100
      else sub (of_nat 100) (div (of_nat 100) (add (of_nat 1) (div avg_gain avg_loss)))

  -- `rsi` of a series longer than the period
  unfoldable pub rsi_of : ℕ → List F → Result SeriesError F
  unfolding all_finite gain loss stable_mean averaged strength
  rsi_of period deltas = do
    raise_if (not (all_finite fl deltas)) out_of_range
    avg_gain ← stable_mean (take period (map gain deltas))
    avg_loss ← stable_mean (take period (map loss deltas))
    ok (
        strength (averaged period avg_gain (drop period (map gain deltas)))
          (averaged period avg_loss (drop period (map loss deltas))))

  unfoldable pub rsi : List F → ℕ → Result SeriesError F
  unfolding positive_period all_finite rsi_of diff
  rsi values period = do
    positive_period period
    raise_if (not (all_finite fl values)) not_finite
    if leb (length values) period then ok (of_nat 50) else rsi_of period (diff values)

  -- the difference of two arrays of equal lengths
  unfoldable pub minus : List F → List F → List F
  minus (x ∷ xs) (y ∷ ys) = sub x y ∷ minus xs ys
  minus _ _ = []

  -- `xs[-1]`, of an array that is not empty
  unfoldable pub last_item : F → List F → F
  last_item x [] = x
  last_item x (y ∷ ys) = last_item y ys

  -- `macd` of a series that is long enough
  unfoldable pub macd_of : List F → ℕ → ℕ → ℕ → Result SeriesError (F × F × F)
  unfolding ema minus all_finite last_item
  macd_of values fast slow signal = do
    fast_line ← ema values fast
    slow_line ← ema values slow
    let macd_line = minus fast_line slow_line
    raise_if (not (all_finite fl (drop (slow - 1) macd_line))) out_of_range
    signal_line ← ema (drop (slow - 1) macd_line) signal
    let m = last_item nan macd_line
    let s = last_item nan signal_line
    ok (m, s, sub m s)

  unfoldable pub macd : List F → ℕ → ℕ → ℕ → Result SeriesError (F × F × F)
  unfolding positive_period all_finite macd_of
  macd values fast slow signal = do
    positive_period fast
    positive_period slow
    positive_period signal
    raise_if (leb slow fast) bad_periods
    raise_if (not (all_finite fl values)) not_finite
    (if ltb (length values) (slow + signal - 1)
        then ok (of_nat 0, of_nat 0, of_nat 0)
        else macd_of values fast slow signal)

  -- the test of `atr` that raises, of arrays of equal lengths
  unfoldable pub any_bad_range : List F → List F → List F → Bool
  any_bad_range (h ∷ hs) (l ∷ ls) (c ∷ cs) =
      at_most h (of_nat 0)
      || at_most l (of_nat 0)
      || at_most c (of_nat 0)
      || less h l
      || less h c
      || less c l
      || any_bad_range hs ls cs
  any_bad_range _ _ _ = false

  abbrev pub largest : F → F → F
  largest a b = if less a b then b else a

  -- `tr`, of the rows after the first, with the closes of the rows before
  unfoldable pub true_ranges : List F → List F → List F → List F
  true_ranges (h ∷ hs) (l ∷ ls) (p ∷ ps) =
      largest (largest (sub h l) (absolute (sub h p))) (absolute (sub l p)) ∷ true_ranges hs ls ps
  true_ranges _ _ _ = []

  -- `atr` of series that are long enough
  unfoldable pub atr_of : ℕ → List F → Result SeriesError F
  unfolding stable_mean averaged
  atr_of period ranges = do
    value ← stable_mean (take period ranges)
    ok (averaged period value (drop period ranges))

  unfoldable pub atr : List F → List F → List F → ℕ → Result SeriesError F
  unfolding positive_period all_finite any_bad_range true_ranges atr_of
  atr highs lows closes period = do
    positive_period period
    raise_if (not (all_finite fl highs)) not_finite
    raise_if (not (all_finite fl lows)) not_finite
    raise_if (not (all_finite fl closes)) not_finite
    raise_if (not (length highs == length lows) || not (length lows == length closes))
        unequal_lengths
    raise_if (any_bad_range highs lows closes) bad_ranges
    (if ltb (length highs) (period + 1)
        then ok (of_nat 0)
        else atr_of period (true_ranges (drop 1 highs) (drop 1 lows) closes))
