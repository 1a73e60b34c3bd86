-- ===== src/Venue/Rounds.antt =====
-- kairos_quant/venue_comparison.py: `compare_venues` and the status of its report.
use kairos_quant_scouts.Prelude.{
  ℕ, zero, suc, Bool, true, false, not, ◌||◌, List, [], ◌∷◌, ◌++◌, Option, none, some, String,
  str_eq, ◌==◌, if◌then◌else◌,
}
use kairos_quant_scouts.Prelude.Int.{ℤ, pos, ◌-ℤ◌, max_ℤ, abs_ℤ}
use kairos_quant_scouts.Prelude.Result.{Result, ok, ◌>>=◌, ◌>>◌, raise_if}
use kairos_quant_scouts.Floats.{Floats}
use kairos_quant_scouts.Venue.Book.{
  VenueError, wrong_order, bad_request, bad_threshold, BookSnapshot, mid, divided, spread_bps,
  positive, market_slippage_bps,
}
use kairos_quant_scouts.Venue.Compare.{
  ComparisonStatus, pass, blocked, fail, VenueSample, SymbolComparison, Thresholds,
  VenueComparisonReport, summary,
}

-- What the comparison reads from outside: in round `n`, the two books that `fetch_pair` returns for a
-- symbol, EVEDEX first, or nothing if it raised, and the clock after the round.
pub record Market (fl : Floats) : Type 0 where
  pub fetch_pair : ℕ → String → String → Option (BookSnapshot fl × BookSnapshot fl)
  pub captured_at : ℕ → String
  pub captured_ms : ℕ → ℤ

-- `ComparisonStatus.X in statuses`
unfoldable pub is_fail : ComparisonStatus → Bool
is_fail fail = true
is_fail _ = false

unfoldable pub is_blocked : ComparisonStatus → Bool
is_blocked blocked = true
is_blocked _ = false

unfoldable pub any {ℓ} : {A : Type ℓ} → (A → Bool) → List A → Bool
any p [] = false
any p (x ∷ xs) = p x || any p xs

module _ (fl : Floats) where
  open fl use {F, finite, less, sub, mul, of_nat}

  -- the property `status` of a report
  unfoldable pub status : VenueComparisonReport fl → ComparisonStatus
  unfolding is_fail is_blocked any
  status report =
      if any (λ s. is_fail s.status) report.symbols
      then fail
      else if any (λ s. is_blocked s.status) report.symbols
      then blocked
      else pass

  -- the sample of one pair of books
  unfoldable pub sample_of :
      String
      → String
      → ℤ
      → BookSnapshot fl
      → BookSnapshot fl
      → F
      → Result VenueError (VenueSample fl)
  sample_of logical at ms evedex binance notional = do
    raise_if (not (str_eq evedex.source "evedex") || not (str_eq binance.source "binance"))
        wrong_order
    ratio ← divided fl (sub (mid fl evedex) (mid fl binance)) (mid fl binance)
    evedex_spread ← spread_bps fl evedex
    binance_spread ← spread_bps fl binance
    evedex_buy ← market_slippage_bps fl evedex true notional
    evedex_sell ← market_slippage_bps fl evedex false notional
    binance_buy ← market_slippage_bps fl binance true notional
    binance_sell ← market_slippage_bps fl binance false notional
    ok (record {
      logical_symbol = logical;
      captured_at = at;
      evedex_timestamp_ms = evedex.timestamp_ms;
      binance_timestamp_ms = binance.timestamp_ms;
      timestamp_skew_ms = abs_ℤ (evedex.timestamp_ms -ℤ binance.timestamp_ms);
      evedex_age_ms = max_ℤ (pos 0) (ms -ℤ evedex.timestamp_ms);
      binance_age_ms = max_ℤ (pos 0) (ms -ℤ binance.timestamp_ms);
      basis_bps = mul ratio (of_nat 10_000);
      evedex_spread_bps = evedex_spread;
      binance_spread_bps = binance_spread;
      evedex_buy_slippage_bps = evedex_buy;
      evedex_sell_slippage_bps = evedex_sell;
      binance_buy_slippage_bps = binance_buy;
      binance_sell_slippage_bps = binance_sell;
      evedex_latency_ms = evedex.latency_ms;
      binance_latency_ms = binance.latency_ms;
    })

  module _ (market : Market fl) (notional : F) where
    -- the samples of one symbol in a round: one, or none if `fetch_pair` raised
    unfoldable pub sample_in : ℕ → String × String → Result VenueError (List (VenueSample fl))
    unfolding sample_of
    sample_in n (logical, venue) =
        elim (market.fetch_pair n logical venue)
          as (λ _. Result VenueError (List (VenueSample fl))) [
            | none ↦ ok []
            | some (evedex, binance) ↦ do
              sample ←
                  sample_of logical (market.captured_at n) (market.captured_ms n) evedex binance
                    notional
              ok (sample ∷ [])
          ]

    unfoldable pub round : ℕ → List (String × String) → Result VenueError (List (VenueSample fl))
    unfolding sample_in
    round n [] = ok []
    round n (item ∷ items) = do first ← sample_in n item; rest ← round n items; ok (first ++ rest)

    -- the rounds from `n` on, `left` of them
    unfoldable pub rounds :
        ℕ → ℕ → List (String × String) → Result VenueError (List (VenueSample fl))
    unfolding round
    rounds zero n items = ok []
    rounds (suc left) n items = do
      first ← round n items
      rest ← rounds left (suc n) items
      ok (first ++ rest)

  -- `[item for item in captured_samples if item.logical_symbol == logical]`
  unfoldable pub samples_of : String → List (VenueSample fl) → List (VenueSample fl)
  samples_of logical [] = []
  samples_of logical (s ∷ ss) =
      if str_eq s.logical_symbol logical then s ∷ samples_of logical ss else samples_of logical ss

  unfoldable pub summaries :
      List (VenueSample fl)
      → ℕ
      → Thresholds fl
      → List (String × String)
      → Result VenueError (List (SymbolComparison fl))
  unfolding samples_of
  summaries captured requested limits [] = ok []
  summaries captured requested limits (item ∷ items) = do
    first ← summary fl item.0 (samples_of item.0 captured) requested limits
    rest ← summaries captured requested limits items
    ok (first ∷ rest)

  -- the checks of the policy
  unfoldable pub check_limits : Thresholds fl → Result VenueError (Unit {0})
  check_limits limits = do
    positive fl limits.minimum_samples
    positive fl limits.minimum_availability
    positive fl limits.maximum_p95_abs_basis_bps
    positive fl limits.maximum_p95_evedex_spread_bps
    positive fl limits.maximum_p95_evedex_slippage_bps
    positive fl limits.maximum_timestamp_skew_ms
    positive fl limits.maximum_book_age_ms
    raise_if (less (of_nat 1) limits.minimum_availability) bad_threshold

  unfoldable pub compare_venues :
      Market fl
      → List (String × String)
      → ℕ
      → F
      → F
      → Thresholds fl
      → Result VenueError (VenueComparisonReport fl)
  unfolding check_limits rounds summaries
  compare_venues market items requested interval notional limits = do
    raise_if (requested == 0) bad_request
    raise_if (less interval (of_nat 0) || not (finite interval)) bad_request
    positive fl notional
    check_limits limits
    captured ← rounds market notional requested 0 items
    symbols ← summaries captured requested limits items
    ok (record {
      samples_requested = requested;
      interval_s = interval;
      notional_usd = notional;
      symbol_map = items;
      thresholds = limits;
      samples = captured;
      symbols = symbols;
    })
