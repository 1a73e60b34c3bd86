-- ===== src/Examples/Venues.antt =====
-- Two books of a venue pair over natural numbers, their comparison and a poll.
use kairos_quant_scouts.Prelude.{
  ℕ, ◌≤◌, ◌≡◌, ◌≢◌, refl, true, List, [], ◌∷◌, none, some, String, ◌==◌, ◌↔◌, inl, not, length, ltb,
  ◌/◌, if◌then◌else◌, arith,
}
use kairos_quant_scouts.Prelude.Int.{pos, ◌+ℤ◌, ◌-ℤ◌}
use kairos_quant_scouts.Prelude.Result.{ok}
use kairos_quant_scouts.Examples.{numbers, numbers-IsOrdered, numbers-IsExact, value_or}
use kairos_quant_scouts.OrderBook.{sorted}
use kairos_quant_scouts.Venue.Book.{
  Json, parsed, value, BookLevel, BookSnapshot, RawLevel, EvedexPayload, parse_evedex_book,
  positive, divided, mid, spread_bps, market_slippage_bps,
}
use kairos_quant_scouts.Venue.Parsing.{IsExecutable, parse_book-IsExecutable}
use kairos_quant_scouts.Venue.Quality.{prod, VenueGatePolicy, VenueQuality, build_venue_quality}
use kairos_quant_scouts.Venue.Mapping.{IsMapped, build_venue_quality-IsMapped}
use kairos_quant_scouts.Venue.Admission.{IsAdmissible, build_venue_quality-entry_allowed}
use kairos_quant_scouts.Venue.Compare.{pass, fail, Thresholds, VenueComparisonReport, summary}
use kairos_quant_scouts.Venue.Rounds.{Market, status, samples_of, compare_venues}
use kairos_quant_scouts.Venue.Verdict.{AllJudged, AllQualified, compare_venues-AllJudged}
use kairos_quant_scouts.Venue.Counts.{compare_venues-bounded}
use kairos_quant_scouts.Venue.Poll.{
  succeeded, Formats, VenuePollFact, fact_of, build_venue_poll_fact,
}

abbrev json : Json numbers
json = record {
  V = ℕ;
  float_of = λ n. parsed n;
  int_of = λ n. parsed (pos n);
  truthy = λ n. not (n == 0);
}

abbrev raw : ℕ → ℕ → RawLevel ℕ
raw price quantity = some (value price, value quantity)

abbrev payload : EvedexPayload ℕ
payload = record {
  bids = some (raw 100 20 ∷ raw 99 10 ∷ []);
  asks = some (raw 101 20 ∷ raw 102 10 ∷ []);
  t = value 1_000;
}

abbrev level : ℕ → ℕ → BookLevel numbers
level price quantity = record { price = price; quantity = quantity }

abbrev book : String → String → BookSnapshot numbers
book source symbol = record {
  source = source;
  symbol = symbol;
  timestamp_ms = pos 1_000;
  bids = level 100 20 ∷ level 99 10 ∷ [];
  asks = level 101 20 ∷ level 102 10 ∷ [];
  latency_ms = 3;
}

abbrev evedex : BookSnapshot numbers
evedex = book "evedex" "BTCUSD"

abbrev binance : BookSnapshot numbers
binance = book "binance" "BTCUSDT"

parsed_book : parse_evedex_book numbers json "BTCUSD" (some payload) 3 ≡ ok evedex
unfolding parse_evedex_book
parsed_book = refl

parse_book-IsExecutable_example : IsExecutable numbers evedex
parse_book-IsExecutable_example =
    parse_book-IsExecutable numbers json numbers-IsOrdered numbers-IsExact "BTCUSD" 3 (some payload)
      none evedex (inl parsed_book)

abbrev policy : VenueGatePolicy numbers
policy = record {
  assessed_notional_usd = 1_000;
  maximum_abs_basis_bps = 25;
  maximum_spread_bps = 25;
  maximum_slippage_bps = 25;
  maximum_book_age_ms = pos 5_000;
  maximum_timestamp_skew_ms = pos 2_000;
  maximum_latency_ms = pos 5_000;
  measurement_ttl_ms = pos 5_000;
  taker_fee_bps = 5;
}

abbrev quality : VenueQuality numbers
quality = record {
  source = "quant-scouts";
  profile = prod;
  symbol = "BTCUSD";
  observed_at_ms = pos 2_000;
  expires_at_ms = pos 7_000;
  reference_timestamp_ms = pos 1_000;
  book_timestamp_ms = pos 1_000;
  reference_mid_price = 100;
  best_bid = 100;
  best_ask = 101;
  venue_mid_price = 100;
  basis_bps = 0;
  spread_bps = 0;
  assessed_notional_usd = 1_000;
  depth_usd = 2_990;
  buy_slippage_bps = 0;
  sell_slippage_bps = 0;
  taker_fee_bps = 5;
  reference_age_ms = pos 1_000;
  book_age_ms = pos 1_000;
  latency_ms = pos 3;
  timestamp_skew_ms = pos 0;
  entry_allowed = true;
  reason_codes = [];
}

measured :
    build_venue_quality numbers
      (λ s. s)
      (λ q. true)
      binance
      evedex
      "BTCUSD"
      (pos 2_000)
      (pos 3)
      policy
      prod
      "quant-scouts"
    ≡ ok quality
unfolding build_venue_quality divided mid market_slippage_bps spread_bps ◌+ℤ◌ ◌-ℤ◌
measured = refl

build_venue_quality-entry_allowed_example :
    ((true ≡ true) ↔ IsAdmissible numbers binance evedex (pos 2_000) (pos 3) policy)
    × ((true ≡ true) ↔ (quality.reason_codes ≡ []))
build_venue_quality-entry_allowed_example =
    build_venue_quality-entry_allowed numbers (λ s. s) (λ q. true) binance evedex "BTCUSD"
      (pos 2_000) (pos 3) policy prod "quant-scouts" quality measured

build_venue_quality-IsMapped_example : IsMapped numbers (λ s. s) binance evedex "BTCUSD" prod
build_venue_quality-IsMapped_example =
    build_venue_quality-IsMapped numbers (λ s. s) binance evedex "BTCUSD" (λ q. true) (pos 2_000)
      (pos 3) policy prod "quant-scouts" quality measured

abbrev market : Market numbers
market = record {
  fetch_pair = λ n logical venue. some (evedex, binance);
  captured_at = λ n. "now";
  captured_ms = λ n. pos 2_000;
}

abbrev limits : Thresholds numbers
limits = record {
  minimum_samples = 2;
  minimum_availability = 1;
  maximum_p95_abs_basis_bps = 25;
  maximum_p95_evedex_spread_bps = 25;
  maximum_p95_evedex_slippage_bps = 25;
  maximum_timestamp_skew_ms = 2_000;
  maximum_book_age_ms = 5_000;
}

abbrev symbols : List (String × String)
symbols = ("BTCUSDT", "BTCUSD:DEV") ∷ []

abbrev report : VenueComparisonReport numbers
report =
    value_or
      (record {
        samples_requested = 2;
        interval_s = 1;
        notional_usd = 1_000;
        symbol_map = symbols;
        thresholds = limits;
        samples = [];
        symbols = [];
      })
      (compare_venues numbers market symbols 2 1 1_000 limits)

compared_books : compare_venues numbers market symbols 2 1 1_000 limits ≡ ok report
unfolding compare_venues positive divided mid spread_bps market_slippage_bps summary sorted
compared_books = refl

compare_venues-AllJudged_example :
    AllJudged numbers report.samples 2 limits symbols report.symbols
    × (status numbers report ≢ fail)
    × (status numbers report ≡ pass → AllQualified numbers report.samples 2 limits symbols)
compare_venues-AllJudged_example =
    compare_venues-AllJudged numbers market symbols 2 1 1_000 limits report compared_books

compare_venues-bounded_example : length (samples_of numbers "BTCUSDT" report.samples) ≤ 2
compare_venues-bounded_example =
    compare_venues-bounded numbers market symbols 2 1 1_000 limits report "BTCUSDT" (omega arith)
      compared_books

-- A datetime is a number of two seconds, and there are 30_000 of them.
abbrev formats : Formats
formats = record {
  D = ℕ;
  datetime_from_unix_ms = λ t. if ltb t 60_000_000 then some (t / 2_000) else none;
  is_message = λ source id d. true;
  poll_sha256 = λ p. "poll";
  message_sha256 = λ m. "message";
  is_sha256 = λ s. true;
  is_binance_symbol = λ s. true;
  is_venue_symbol = λ s. true;
  is_failure_code = λ s. true;
}

abbrev fact : VenuePollFact ℕ
fact =
    fact_of formats "scouts" "config" succeeded "BTCUSDT" "BTCUSD:DEV" ("BTCUSD:DEV" ∷ []) 1_000
      5_000 5_001 (some 5_002) none 2

built :
    build_venue_poll_fact formats "scouts" "config" succeeded "BTCUSDT" "BTCUSD:DEV"
      ("BTCUSD:DEV" ∷ [])
      1_000
      5_000
      5_001
      (some 5_002)
      none
      none
    ≡ ok fact
unfolding build_venue_poll_fact fact_of sorted
built = refl
