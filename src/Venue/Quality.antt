-- ===== src/Venue/Quality.antt =====
-- kairos_quant/runtime_venue_gate.py: the policy and the measurement that admits or blocks an entry.
use kairos_quant_scouts.Prelude.{
  Bool, true, false, not, ◌&&◌, ◌||◌, List, [], ◌∷◌, Option, none, some, String, str_eq,
  if◌then◌else◌,
}
use kairos_quant_scouts.Prelude.Int.{ℤ, pos, ltb_ℤ, ◌-ℤ◌, ◌+ℤ◌, max_ℤ, abs_ℤ}
use kairos_quant_scouts.Prelude.Result.{Result, ok, err, ◌>>=◌, ◌>>◌, raise_if}
use kairos_quant_scouts.Floats.{Floats}
use kairos_quant_scouts.Tape.State.{PyInt, int, other}
use kairos_quant_scouts.Venue.Book.{
  VenueError, late_timestamp, bad_threshold, bad_profile, wrong_order, bad_symbol, bad_mapping,
  rejected_contract, BookLevel, BookSnapshot, best, mid, divided, spread_bps, market_slippage_bps,
}

-- `EvedexProfile` of kairos_core: the two members that are named, another one, and a value that is no
-- member.
pub data Profile : Type 0 where
  dev prod another_profile no_profile : Profile

-- The texts of the reasons.
pub data Reason : Type 0 where
  exchange_clock_ahead basis_exceeds_limit spread_exceeds_limit insufficient_depth
        buy_slippage_exceeds_limit sell_slippage_exceeds_limit stale_order_book
        timestamp_skew_exceeds_limit latency_exceeds_limit :
      Reason

-- The reasons whose test holds, in the order of the tests.
unfoldable pub raised {ℓ} : {R : Type ℓ} → List (Bool × R) → List R
raised [] = []
raised ((true, r) ∷ rs) = r ∷ raised rs
raised ((false, r) ∷ rs) = raised rs

-- `not reasons`
unfoldable pub no_reason {ℓ} : {R : Type ℓ} → List R → Bool
no_reason [] = true
no_reason (_ ∷ _) = false

-- `PROD_SYMBOL_MAP`
unfoldable pub prod_symbol : String → Option String
prod_symbol symbol =
    if str_eq symbol "BTCUSDT"
    then some "BTCUSD"
    else if str_eq symbol "ETHUSDT"
    then some "ETHUSD"
    else if str_eq symbol "SOLUSDT"
    then some "SOLUSD"
    else if str_eq symbol "BNBUSDT"
    then some "BNBUSD"
    else if str_eq symbol "XRPUSDT"
    then some "XRPUSD"
    else none

-- `isinstance(value, bool) or not isinstance(value, int) or value <= 0`
unfoldable pub bad_time : PyInt → Bool
bad_time (int n) = not (ltb_ℤ (pos 0) n)
bad_time other = true

module _ (fl : Floats) where
  open fl use {F, finite, less, at_most, add, sub, mul, of_nat, absolute}

  -- The arguments of `VenueGatePolicy`.
  pub record VenueGatePolicy : Type 0 where
    pub assessed_notional_usd : F
    pub maximum_abs_basis_bps : F
    pub maximum_spread_bps : F
    pub maximum_slippage_bps : F
    pub maximum_book_age_ms : ℤ
    pub maximum_timestamp_skew_ms : ℤ
    pub maximum_latency_ms : ℤ
    pub measurement_ttl_ms : ℤ
    pub taker_fee_bps : F

  unfoldable pub bad_numeric : F → Bool
  bad_numeric a = not (finite a && at_most (of_nat 0) a)

  -- `VenueGatePolicy.__post_init__`, of integers that may be other objects
  unfoldable pub venue_gate_policy :
      F → F → F → F → PyInt → PyInt → PyInt → PyInt → F → Result VenueError VenueGatePolicy
  unfolding bad_numeric
  venue_gate_policy notional basis spread slippage (int age) (int skew) (int latency) (int ttl)
        fee =
      do
        raise_if
            (bad_numeric notional
              || bad_numeric basis
              || bad_numeric spread
              || bad_numeric slippage
              || bad_numeric fee)
            bad_threshold
        raise_if (at_most notional (of_nat 0)) bad_threshold
        raise_if
            (bad_time (int age)
              || bad_time (int skew)
              || bad_time (int latency)
              || bad_time (int ttl))
            bad_threshold
        ok (record {
          assessed_notional_usd = notional;
          maximum_abs_basis_bps = basis;
          maximum_spread_bps = spread;
          maximum_slippage_bps = slippage;
          maximum_book_age_ms = age;
          maximum_timestamp_skew_ms = skew;
          maximum_latency_ms = latency;
          measurement_ttl_ms = ttl;
          taker_fee_bps = fee;
        })
  venue_gate_policy _ _ _ _ _ _ _ _ _ = err bad_threshold

  -- The fields of `VenueQualityV1`.
  pub record VenueQuality : Type 0 where
    pub source : String
    pub profile : Profile
    pub symbol : String
    pub observed_at_ms : ℤ
    pub expires_at_ms : ℤ
    pub reference_timestamp_ms : ℤ
    pub book_timestamp_ms : ℤ
    pub reference_mid_price : F
    pub best_bid : F
    pub best_ask : F
    pub venue_mid_price : F
    pub basis_bps : F
    pub spread_bps : F
    pub assessed_notional_usd : F
    pub depth_usd : F
    pub buy_slippage_bps : F
    pub sell_slippage_bps : F
    pub taker_fee_bps : F
    pub reference_age_ms : ℤ
    pub book_age_ms : ℤ
    pub latency_ms : ℤ
    pub timestamp_skew_ms : ℤ
    pub entry_allowed : Bool
    pub reason_codes : List Reason

  -- `_validate_book_pair`, with `s.strip().upper()` as `normalized`; the symbols are texts
  unfoldable pub validate_prod :
      (String → String) → BookSnapshot fl → BookSnapshot fl → String → Result VenueError (Unit {0})
  unfolding prod_symbol
  validate_prod normalized binance evedex venue_symbol = do
    raise_if (not (str_eq binance.symbol (normalized binance.symbol))) bad_symbol
    elim (prod_symbol (normalized binance.symbol)) as (λ _. Result VenueError (Unit {0})) [
      | none ↦ err bad_symbol
      | some expected ↦
          raise_if (not (str_eq venue_symbol expected) || not (str_eq evedex.symbol expected))
            bad_mapping
    ]

  unfoldable pub validate_book_pair :
      (String → String)
      → BookSnapshot fl
      → BookSnapshot fl
      → String
      → Profile
      → Result VenueError (Unit {0})
  unfolding validate_prod
  validate_book_pair normalized binance evedex venue_symbol profile = elim profile [
    | no_profile ↦ err bad_profile
    | another_profile ↦ err bad_profile
    | dev ↦ ordered
    | prod ↦ ordered >> validate_prod normalized binance evedex venue_symbol
  ]
    where
      ordered : Result VenueError (Unit {0})
      ordered =
          raise_if (not (str_eq binance.source "binance") || not (str_eq evedex.source "evedex"))
            wrong_order

  -- `sum(...)`, which starts at the integer 0
  unfoldable pub depth_from : F → List (BookLevel fl) → F
  depth_from total [] = total
  depth_from total (l ∷ ls) = depth_from (add total (mul l.price l.quantity)) ls

  unfoldable pub side_depth_usd : BookSnapshot fl → Bool → F
  unfolding depth_from
  side_depth_usd book buy = depth_from (of_nat 0) (if buy then book.asks else book.bids)

  -- What the tests of `build_venue_quality` read.
  pub record Measured : Type 0 where
    pub basis_bps : F
    pub spread_bps : F
    pub depth_usd : F
    pub buy_slippage : Option F
    pub sell_slippage : Option F

  unfoldable pub measure :
      BookSnapshot fl → BookSnapshot fl → VenueGatePolicy → Result VenueError Measured
  unfolding side_depth_usd
  measure binance evedex policy = do
    ratio ← divided fl (sub (mid fl evedex) (mid fl binance)) (mid fl binance)
    buy ← market_slippage_bps fl evedex true policy.assessed_notional_usd
    sell ← market_slippage_bps fl evedex false policy.assessed_notional_usd
    spread ← spread_bps fl evedex
    let bid_depth = side_depth_usd evedex false
    let ask_depth = side_depth_usd evedex true
    ok (record {
      basis_bps = mul ratio (of_nat 10_000);
      spread_bps = spread;
      depth_usd = if less ask_depth bid_depth then ask_depth else bid_depth;
      buy_slippage = buy;
      sell_slippage = sell;
    })

  abbrev pub is_none : Option F → Bool
  is_none none = true
  is_none (some _) = false

  -- `x is not None and x > limit`
  abbrev pub exceeds : F → Option F → Bool
  exceeds limit none = false
  exceeds limit (some x) = less limit x

  unfoldable pub or_blocked : F → Option F → F
  or_blocked blocked none = blocked
  or_blocked blocked (some x) = x

  -- `max(observed_at_ms, binance.timestamp_ms, evedex.timestamp_ms)`
  unfoldable pub observed_at : BookSnapshot fl → BookSnapshot fl → ℤ → ℤ
  observed_at binance evedex now = max_ℤ (max_ℤ now binance.timestamp_ms) evedex.timestamp_ms

  -- the tests, in their order
  unfoldable pub checks :
      BookSnapshot fl → BookSnapshot fl → ℤ → ℤ → VenueGatePolicy → Measured → List (Bool × Reason)
  unfolding observed_at
  checks binance evedex now latency policy m =
      let observed = observed_at binance evedex now in
      let newest = max_ℤ binance.timestamp_ms evedex.timestamp_ms in
      let oldest = max_ℤ (observed -ℤ binance.timestamp_ms) (observed -ℤ evedex.timestamp_ms) in
      let skew = abs_ℤ (binance.timestamp_ms -ℤ evedex.timestamp_ms) in
      (ltb_ℤ policy.maximum_timestamp_skew_ms (newest -ℤ now), exchange_clock_ahead)
      ∷ (less policy.maximum_abs_basis_bps (absolute m.basis_bps), basis_exceeds_limit)
      ∷ (less policy.maximum_spread_bps m.spread_bps, spread_exceeds_limit)
      ∷ (
        less m.depth_usd policy.assessed_notional_usd
            || is_none m.buy_slippage
            || is_none m.sell_slippage,
        insufficient_depth,
      )
      ∷ (exceeds policy.maximum_slippage_bps m.buy_slippage, buy_slippage_exceeds_limit)
      ∷ (exceeds policy.maximum_slippage_bps m.sell_slippage, sell_slippage_exceeds_limit)
      ∷ (ltb_ℤ policy.maximum_book_age_ms oldest, stale_order_book)
      ∷ (ltb_ℤ policy.maximum_timestamp_skew_ms skew, timestamp_skew_exceeds_limit)
      ∷ (ltb_ℤ policy.maximum_latency_ms latency, latency_exceeds_limit)
      ∷ []

  -- The validators of `VenueQualityV1`, which are kairos_core's, are `accepts`.
  unfoldable pub build_venue_quality :
      (String → String)
      → (VenueQuality → Bool)
      → BookSnapshot fl
      → BookSnapshot fl
      → String
      → ℤ
      → ℤ
      → VenueGatePolicy
      → Profile
      → String
      → Result VenueError VenueQuality
  unfolding validate_book_pair measure checks raised no_reason or_blocked observed_at
  build_venue_quality normalized accepts binance evedex symbol now latency policy profile source =
      do
        validate_book_pair normalized binance evedex symbol profile
        raise_if (not (ltb_ℤ (pos 0) now)) late_timestamp
        m ← measure binance evedex policy
        let observed = observed_at binance evedex now
        let reasons = raised (checks binance evedex now latency policy m)
        let blocked = add policy.maximum_slippage_bps (of_nat 1)
        let quality : VenueQuality = record {
          source = source;
          profile = profile;
          symbol = symbol;
          observed_at_ms = observed;
          expires_at_ms = observed +ℤ policy.measurement_ttl_ms;
          reference_timestamp_ms = binance.timestamp_ms;
          book_timestamp_ms = evedex.timestamp_ms;
          reference_mid_price = mid fl binance;
          best_bid = best fl evedex.bids;
          best_ask = best fl evedex.asks;
          venue_mid_price = mid fl evedex;
          basis_bps = m.basis_bps;
          spread_bps = m.spread_bps;
          assessed_notional_usd = policy.assessed_notional_usd;
          depth_usd = m.depth_usd;
          buy_slippage_bps = or_blocked blocked m.buy_slippage;
          sell_slippage_bps = or_blocked blocked m.sell_slippage;
          taker_fee_bps = policy.taker_fee_bps;
          reference_age_ms = observed -ℤ binance.timestamp_ms;
          book_age_ms = observed -ℤ evedex.timestamp_ms;
          latency_ms = latency;
          timestamp_skew_ms = abs_ℤ (binance.timestamp_ms -ℤ evedex.timestamp_ms);
          entry_allowed = no_reason reasons;
          reason_codes = reasons;
        }
        if accepts quality then ok quality else err rejected_contract
