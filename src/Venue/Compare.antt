-- ===== src/Venue/Compare.antt =====
-- kairos_quant/venue_comparison.py: the percentile, the summary of a symbol and the comparison over
-- rounds of samples. The thresholds are held as a record, of whose keys the code checks that they are
-- exactly these; the symbol map is held as its sorted items.
use kairos_quant_scouts.Prelude.{
  ℕ, Bool, true, not, ◌&&◌, ◌||◌, List, [], ◌∷◌, map, Option, none, some, String, ◌==◌, ltb, length,
  get_elem?, if◌then◌else◌,
}
use kairos_quant_scouts.Prelude.Int.{ℤ, max_ℤ}
use kairos_quant_scouts.Prelude.Result.{Result, ok, err, ◌>>=◌}
use kairos_quant_scouts.Floats.{Floats}
use kairos_quant_scouts.OrderBook.{sorted}
use kairos_quant_scouts.Venue.Book.{VenueError, index_out_of_range}
use kairos_quant_scouts.Venue.Quality.{raised}

pub data ComparisonStatus : Type 0 where
  pass blocked fail : ComparisonStatus

-- The texts of the reasons.
pub data Shortfall : Type 0 where
  insufficient_samples insufficient_availability basis_exceeds_limit evedex_spread_exceeds_limit
        insufficient_evedex_depth evedex_slippage_exceeds_limit timestamp_skew_exceeds_limit
        stale_order_book :
      Shortfall

-- `PASS if not reasons else BLOCKED`
unfoldable pub status_of : List Shortfall → ComparisonStatus
status_of [] = pass
status_of (_ ∷ _) = blocked

-- `[item for item in xs if item is not None]`
unfoldable pub present {ℓ} : {A : Type ℓ} → List (Option A) → List A
present [] = []
present (none ∷ xs) = present xs
present (some x ∷ xs) = x ∷ present xs

-- `max(xs, default=None)`
unfoldable pub largest_from : ℤ → List ℤ → ℤ
largest_from m [] = m
largest_from m (x ∷ xs) = largest_from (max_ℤ m x) xs

unfoldable pub largest : List ℤ → Option ℤ
unfolding largest_from
largest [] = none
largest (x ∷ xs) = some (largest_from x xs)

module _ (fl : Floats) where
  open fl use {
    F, finite, less, same, add, sub, mul, div, of_nat, absolute, infinity, floor, ceiling,
    int_above,
  }

  pub record VenueSample : Type 0 where
    pub logical_symbol : String
    pub captured_at : String
    pub evedex_timestamp_ms : ℤ
    pub binance_timestamp_ms : ℤ
    pub timestamp_skew_ms : ℤ
    pub evedex_age_ms : ℤ
    pub binance_age_ms : ℤ
    pub basis_bps : F
    pub evedex_spread_bps : F
    pub binance_spread_bps : F
    pub evedex_buy_slippage_bps : Option F
    pub evedex_sell_slippage_bps : Option F
    pub binance_buy_slippage_bps : Option F
    pub binance_sell_slippage_bps : Option F
    pub evedex_latency_ms : F
    pub binance_latency_ms : F

  pub record SymbolComparison : Type 0 where
    pub logical_symbol : String
    pub samples : ℕ
    pub availability : F
    pub p50_abs_basis_bps : Option F
    pub p95_abs_basis_bps : Option F
    pub p95_evedex_spread_bps : Option F
    pub p95_evedex_buy_slippage_bps : Option F
    pub p95_evedex_sell_slippage_bps : Option F
    pub max_timestamp_skew_ms : Option ℤ
    pub max_book_age_ms : Option ℤ
    pub status : ComparisonStatus
    pub reasons : List Shortfall

  pub record Thresholds : Type 0 where
    pub minimum_samples : F
    pub minimum_availability : F
    pub maximum_p95_abs_basis_bps : F
    pub maximum_p95_evedex_spread_bps : F
    pub maximum_p95_evedex_slippage_bps : F
    pub maximum_timestamp_skew_ms : F
    pub maximum_book_age_ms : F

  -- `DEFAULT_THRESHOLDS`
  unfoldable pub default_thresholds : Thresholds
  default_thresholds = record {
    minimum_samples = of_nat 30;
    minimum_availability = div (of_nat 99) (of_nat 100);
    maximum_p95_abs_basis_bps = of_nat 25;
    maximum_p95_evedex_spread_bps = of_nat 25;
    maximum_p95_evedex_slippage_bps = of_nat 25;
    maximum_timestamp_skew_ms = of_nat 2_000;
    maximum_book_age_ms = of_nat 5_000;
  }

  pub record VenueComparisonReport : Type 0 where
    pub samples_requested : ℕ
    pub interval_s : F
    pub notional_usd : F
    pub symbol_map : List (String × String)
    pub thresholds : Thresholds
    pub samples : List VenueSample
    pub symbols : List SymbolComparison

  -- `ordered[i]`
  unfoldable pub item_at : List F → ℕ → Result VenueError F
  item_at xs i = elim (get_elem? xs i) as (λ _. Result VenueError F) [
    | none ↦ err index_out_of_range
    | some x ↦ ok x
  ]

  -- `_percentile`
  unfoldable pub interpolate : List F → F → Result VenueError F
  unfolding item_at
  interpolate ordered index = do
    low ← item_at ordered (floor index)
    let weight = sub index (of_nat (floor index))
    if floor index == ceiling index
        then ok low
        else (do high ← item_at ordered (ceiling index); ok (add low (mul (sub high low) weight)))

  unfoldable pub percentile : List F → F → Result VenueError (Option F)
  unfolding interpolate
  percentile [] p = ok none
  percentile (x ∷ xs) p = do
    value ← interpolate (sorted (λ b a. less b a) (x ∷ xs)) (mul (of_nat (length xs)) p)
    ok (some value)

  -- `p or math.inf`
  unfoldable pub or_infinity : Option F → F
  or_infinity none = infinity
  or_infinity (some p) = if same p (of_nat 0) then infinity else p

  -- `p is None or p > limit`
  unfoldable pub none_or_above : F → Option F → Bool
  none_or_above limit none = true
  none_or_above limit (some p) = less limit p

  unfoldable pub none_or_int_above : F → Option ℤ → Bool
  none_or_int_above limit none = true
  none_or_int_above limit (some n) = int_above n limit

  unfoldable pub incomplete : List VenueSample → Bool
  unfolding present
  incomplete samples =
      not (length (present (map (λ s. s.evedex_buy_slippage_bps) samples)) == length samples)
      || not (length (present (map (λ s. s.evedex_sell_slippage_bps) samples)) == length samples)

  unfoldable pub slippage_above : F → Option F → Option F → Bool
  unfolding or_infinity
  slippage_above limit buy sell =
      less limit
        (if less (or_infinity buy) (or_infinity sell) then or_infinity sell else or_infinity buy)

  unfoldable pub max_skew : List VenueSample → Option ℤ
  unfolding largest
  max_skew samples = largest (map (λ s. s.timestamp_skew_ms) samples)

  unfoldable pub max_age : List VenueSample → Option ℤ
  unfolding largest
  max_age samples = largest (map (λ s. max_ℤ s.evedex_age_ms s.binance_age_ms) samples)

  -- the tests of `_summary`, in their order
  unfoldable pub shortfall_tests :
      List VenueSample
      → ℕ
      → Thresholds
      → Option F
      → Option F
      → Option F
      → Option F
      → List (Bool × Shortfall)
  unfolding none_or_above none_or_int_above incomplete slippage_above max_skew max_age
  shortfall_tests samples requested limits p95_basis p95_spread p95_buy p95_sell =
      (ltb (length samples) (floor limits.minimum_samples), insufficient_samples)
      ∷ (
        less (div (of_nat (length samples)) (of_nat requested)) limits.minimum_availability,
        insufficient_availability,
      )
      ∷ (none_or_above limits.maximum_p95_abs_basis_bps p95_basis, basis_exceeds_limit)
      ∷ (none_or_above limits.maximum_p95_evedex_spread_bps p95_spread, evedex_spread_exceeds_limit)
      ∷ (incomplete samples, insufficient_evedex_depth)
      ∷ (
        not (incomplete samples)
            && slippage_above limits.maximum_p95_evedex_slippage_bps p95_buy p95_sell,
        evedex_slippage_exceeds_limit,
      )
      ∷ (
        none_or_int_above limits.maximum_timestamp_skew_ms (max_skew samples),
        timestamp_skew_exceeds_limit,
      )
      ∷ (none_or_int_above limits.maximum_book_age_ms (max_age samples), stale_order_book)
      ∷ []

  -- `_summary`
  unfoldable pub summary :
      String → List VenueSample → ℕ → Thresholds → Result VenueError SymbolComparison
  unfolding percentile shortfall_tests status_of raised max_skew max_age
  summary symbol samples requested limits = do
    let availability = div (of_nat (length samples)) (of_nat requested)
    let basis = map (λ s. absolute s.basis_bps) samples
    let p95 = div (of_nat 95) (of_nat 100)
    p95_basis ← percentile basis p95
    p95_spread ← percentile (map (λ s. s.evedex_spread_bps) samples) p95
    p95_buy ← percentile (present (map (λ s. s.evedex_buy_slippage_bps) samples)) p95
    p95_sell ← percentile (present (map (λ s. s.evedex_sell_slippage_bps) samples)) p95
    let reasons =
        raised (shortfall_tests samples requested limits p95_basis p95_spread p95_buy p95_sell)
    p50 ← percentile basis (div (of_nat 1) (of_nat 2))
    ok (record {
      logical_symbol = symbol;
      samples = length samples;
      availability = availability;
      p50_abs_basis_bps = p50;
      p95_abs_basis_bps = p95_basis;
      p95_evedex_spread_bps = p95_spread;
      p95_evedex_buy_slippage_bps = p95_buy;
      p95_evedex_sell_slippage_bps = p95_sell;
      max_timestamp_skew_ms = max_skew samples;
      max_book_age_ms = max_age samples;
      status = status_of reasons;
      reasons = reasons;
    })
