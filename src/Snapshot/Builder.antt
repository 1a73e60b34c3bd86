-- ===== src/Snapshot/Builder.antt =====
-- kairos_quant/snapshot.py: `SnapshotBuilder`. The rolling windows and the indicators of a symbol are
-- held together, since every method sets or removes all four entries; the contracts of kairos_core
-- that `build` fills are records here, and their own validators a parameter.
use kairos_quant_scouts.Prelude.{
  ℕ, suc, ◌-◌, Bool, true, false, not, ◌&&◌, ◌||◌, List, [], ◌∷◌, ◌++◌, Option, none, some, String,
  str_eq, ◌==◌, ltb, leb, length, drop, if◌then◌else◌,
}
use kairos_quant_scouts.Prelude.Text.{Table, put, remove}
use kairos_quant_scouts.Prelude.Result.{Result, ok, err, ◌>>=◌, ◌>>◌, raise_if}
use kairos_quant_scouts.Floats.{Floats}
use kairos_quant_scouts.OrderBook.{
  BookError, Level, normalize_order_book, spread_bps, order_book_imbalance, depth_usd,
}
use kairos_quant_scouts.Bias.{Side, flat, BiasError, Rule, derive_bias}
use kairos_quant_scouts.Snapshot.Streaming.{
  macd_min_samples, StreamingIndicators, new_indicators, Candle, push,
}

pub data SnapshotError : Type 0 where
  bad_window bad_depth no_symbol invalid_candle one_sided no_timeframe not_finite negative :
      SnapshotError
  book_error : BookError → SnapshotError
  bias_error : BiasError → SnapshotError
  zero_division rejected_contract : SnapshotError

-- The text methods that are used: `s.strip().upper()`, and whether `s.strip()` is empty.
pub record Names : Type 0 where
  pub normalized : String → String
  pub blank : String → Bool

-- An error of another module, as this module's.
unfoldable pub book_result : {A : Type 0} → Result BookError A → Result SnapshotError A
book_result (ok a) = ok a
book_result (err e) = err (book_error e)

unfoldable pub bias_result : {A : Type 0} → Result BiasError A → Result SnapshotError A
bias_result (ok a) = ok a
bias_result (err e) = err (bias_error e)

-- `deque(maxlen=n).append(x)`, newest last
unfoldable pub append_bounded {ℓ} : {A : Type ℓ} → ℕ → A → List A → List A
append_bounded n x xs = drop (suc (length xs) - n) (xs ++ x ∷ [])

module _ (fl : Floats) where
  open fl use {F, finite, less, at_most, same, add, sub, mul, div, of_nat, negate}

  -- The entries of one symbol.
  pub record History : Type 0 where
    pub highs : List F
    pub lows : List F
    pub closes : List F
    pub indicators : StreamingIndicators fl

  pub record Builder : Type 0 where
    pub source : String
    pub depth_levels : ℕ
    pub window : ℕ
    pub histories : Table History

  -- `SnapshotBuilder.__init__`; `none` is no integer, or a negative one
  unfoldable pub init : String → Option ℕ → Option ℕ → Result SnapshotError Builder
  init source none depth = err bad_window
  init source (some window) none =
      if ltb window macd_min_samples then err bad_window else err bad_depth
  init source (some window) (some depth) = do
    raise_if (ltb window macd_min_samples) bad_window
    raise_if (depth == 0) bad_depth
    ok (record {
      source = source;
      depth_levels = depth;
      window = window;
      histories = λ symbol. none;
    })

  -- the test of `push_candle`
  unfoldable pub bad_candle : Candle fl → Bool
  bad_candle c =
      not (
        (finite c.high && less (of_nat 0) c.high)
        && (finite c.low && less (of_nat 0) c.low)
        && (finite c.close && less (of_nat 0) c.close))
      || less c.high c.low
      || not (at_most c.low c.close && at_most c.close c.high)

  unfoldable pub new_history : History
  new_history = record { highs = []; lows = []; closes = []; indicators = new_indicators fl }

  -- `setdefault(key, ...)`
  abbrev pub or_new : Option History → History
  or_new none = new_history
  or_new (some h) = h

  unfoldable pub extend : ℕ → Candle fl → History → History
  unfolding append_bounded
  extend window c h = record {
    highs = append_bounded window c.high h.highs;
    lows = append_bounded window c.low h.lows;
    closes = append_bounded window c.close h.closes;
    indicators = push fl c h.indicators;
  }

  module _ (names : Names) where
    -- `_symbol_key`
    unfoldable pub symbol_key : String → Result SnapshotError String
    symbol_key symbol =
        if str_eq (names.normalized symbol) "" then err no_symbol else ok (names.normalized symbol)

    -- `push_candle`, and `push_close` by it
    unfoldable pub push_candle : String → Candle fl → Builder → Result SnapshotError Builder
    unfolding symbol_key bad_candle extend
    push_candle symbol c b = do
      key ← symbol_key symbol
      raise_if (bad_candle c) invalid_candle
      ok (record b {
        histories = put key (extend b.window c (or_new (b.histories key))) b.histories;
      })

    unfoldable pub push_close : String → F → Builder → Result SnapshotError Builder
    unfolding push_candle
    push_close symbol close b =
        push_candle symbol (record { high = close; low = close; close = close }) b

    -- `reset`
    unfoldable pub reset : String → Builder → Result SnapshotError Builder
    unfolding symbol_key
    reset symbol b = do
      key ← symbol_key symbol
      ok (record b { histories = remove key b.histories })

  -- The arguments of `build`.
  pub record Inputs : Type 0 where
    pub bids : List (Level fl)
    pub asks : List (Level fl)
    pub funding_rate : F
    pub open_interest : F
    pub timeframe : String
    pub oi_change_pct_1h : F
    pub long_liq_usd : F
    pub short_liq_usd : F
    pub volume_usd : F

  -- `MarketSnapshot` and the contracts in it.
  pub record MarketSnapshot : Type 0 where
    pub source : String
    pub symbol : String
    pub timeframe : String
    pub mid_price : F
    pub volume_usd : F
    pub best_bid : F
    pub best_ask : F
    pub spread_bps : F
    pub imbalance : F
    pub depth_usd : F
    pub funding_rate : F
    pub open_interest : F
    pub oi_change_pct_1h : F
    pub long_liquidations_usd : F
    pub short_liquidations_usd : F
    pub rsi_14 : F
    pub macd : F
    pub macd_signal : F
    pub macd_hist : F
    pub atr_pct : Option F
    pub quant_bias : Side

  unfoldable pub all_finite : List F → Bool
  all_finite [] = true
  all_finite (x ∷ xs) = finite x && all_finite xs

  -- `min(...) < 0`, of finite numbers
  unfoldable pub any_negative : List F → Bool
  any_negative [] = false
  any_negative (x ∷ xs) = less x (of_nat 0) || any_negative xs

  -- `sides[0][0]`, if there is one
  unfoldable pub best_of : List (Level fl) → Result SnapshotError F
  best_of [] = err one_sided
  best_of (l ∷ _) = ok l.price

  -- `best or mid`
  unfoldable pub or_mid : F → F → F
  or_mid best mid = if same best (of_nat 0) then mid else best

  -- `atr_value / closes[-1]`, when both are there
  unfoldable pub last_of : F → List F → F
  last_of x [] = x
  last_of x (y ∷ ys) = last_of y ys

  unfoldable pub range_share : Option F → List F → Result SnapshotError (Option F)
  unfolding last_of
  range_share none closes = ok none
  range_share (some range) [] = ok none
  range_share (some range) (x ∷ xs) =
      if same (last_of x xs) (of_nat 0)
      then err zero_division
      else ok (some (div range (last_of x xs)))

  -- the share of the range, and the bias, of a symbol that may have no history
  unfoldable pub share_of : Option History → Result SnapshotError (Option F)
  unfolding range_share
  share_of none = ok none
  share_of (some h) = range_share h.indicators.atr_value h.closes

  -- the defaults of `derive_bias`
  unfoldable pub bias_rule : F → F → F → Rule fl
  bias_rule rsi hist imbalance = record {
    rsi_14 = rsi;
    macd_hist = hist;
    ob_imbalance = imbalance;
    rsi_high = of_nat 55;
    rsi_low = of_nat 45;
    imb_thr = div (of_nat 15) (of_nat 100);
  }

  unfoldable pub bias_of : Option History → F → Result SnapshotError Side
  unfolding bias_rule derive_bias bias_result
  bias_of none imbalance = ok flat
  bias_of (some h) imbalance =
      if leb macd_min_samples h.indicators.samples
      then bias_result
          (derive_bias fl (bias_rule h.indicators.rsi_value h.indicators.macd_hist imbalance))
      else ok flat

  -- a value of the indicators, or its default
  abbrev pub value_of : (StreamingIndicators fl → F) → F → Option History → F
  value_of field default none = default
  value_of field default (some h) = field h.indicators

  -- the checks of `build` on the other inputs
  unfoldable pub check_inputs : Names → Inputs → Result SnapshotError (Unit {0})
  unfolding all_finite any_negative
  check_inputs names i = do
    raise_if (names.blank i.timeframe) no_timeframe
    raise_if
        (not (
          all_finite (
            i.funding_rate ∷ i.open_interest ∷ i.oi_change_pct_1h ∷ i.long_liq_usd ∷ i.short_liq_usd
            ∷ i.volume_usd ∷ [])))
        not_finite
    raise_if (any_negative (i.open_interest ∷ i.long_liq_usd ∷ i.short_liq_usd ∷ i.volume_usd ∷ []))
        negative

  -- the contracts that `build` returns
  unfoldable pub snapshot_of :
      String
      → String
      → Inputs
      → Option History
      → F
      → F
      → Option F
      → F
      → Side
      → F
      → F
      → MarketSnapshot
  unfolding or_mid
  snapshot_of source key i history best_bid best_ask share imbalance bias spread depth =
      let mid = add best_bid (div (sub best_ask best_bid) (of_nat 2)) in
      record {
        source = source;
        symbol = key;
        timeframe = i.timeframe;
        mid_price = mid;
        volume_usd = i.volume_usd;
        best_bid = or_mid best_bid mid;
        best_ask = or_mid best_ask mid;
        spread_bps = spread;
        imbalance = imbalance;
        depth_usd = depth;
        funding_rate = i.funding_rate;
        open_interest = i.open_interest;
        oi_change_pct_1h = i.oi_change_pct_1h;
        long_liquidations_usd = i.long_liq_usd;
        short_liquidations_usd = i.short_liq_usd;
        rsi_14 = value_of (λ s. s.rsi_value) (of_nat 50) history;
        macd = value_of (λ s. s.macd_value) (of_nat 0) history;
        macd_signal = value_of (λ s. s.macd_signal) (of_nat 0) history;
        macd_hist = value_of (λ s. s.macd_hist) (of_nat 0) history;
        atr_pct = share;
        quant_bias = bias;
      }

  -- the contracts' own validation
  abbrev pub accepted :
      (MarketSnapshot → Bool) → MarketSnapshot → Result SnapshotError MarketSnapshot
  accepted accepts m = if accepts m then ok m else err rejected_contract

  -- `build`
  unfoldable pub build :
      Names
      → (MarketSnapshot → Bool)
      → Builder
      → String
      → Inputs
      → Result SnapshotError MarketSnapshot
  unfolding symbol_key book_result best_of check_inputs share_of bias_of or_mid snapshot_of
  build names accepts b symbol i = do
    key ← symbol_key names symbol
    (bids, asks) ← book_result (normalize_order_book fl i.bids i.asks)
    best_bid ← best_of bids
    best_ask ← best_of asks
    check_inputs names i
    share ← share_of (b.histories key)
    imbalance ← book_result (order_book_imbalance fl bids asks b.depth_levels)
    bias ← bias_of (b.histories key) imbalance
    let mid = add best_bid (div (sub best_ask best_bid) (of_nat 2))
    spread ← book_result (spread_bps fl (or_mid best_bid mid) (or_mid best_ask mid))
    depth ← book_result (depth_usd fl bids asks b.depth_levels)
    accepted accepts (
        snapshot_of b.source key i (b.histories key) best_bid best_ask share imbalance bias spread
          depth)

  -- the candles of one symbol, pushed one after another
  unfoldable pub feed : Names → String → List (Candle fl) → Builder → Result SnapshotError Builder
  unfolding push_candle
  feed names symbol [] b = ok b
  feed names symbol (c ∷ cs) b = do next ← push_candle names symbol c b; feed names symbol cs next
