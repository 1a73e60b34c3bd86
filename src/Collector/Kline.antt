-- ===== src/Collector/Kline.antt =====
-- `ClosedKline` of kairos_quant/collectors/binance_ws.py, its validation and its equality.
use kairos_quant_scouts.Prelude.{
  ℕ, ◌+◌, ◌-◌, ◌%◌, Bool, true, not, ◌&&◌, Option, none, some, List, [], ◌∷◌, String, str_eq, ◌==◌,
  if◌then◌else◌,
}
use kairos_quant_scouts.Prelude.Int.{ℤ, pos, negsuc}
use kairos_quant_scouts.Floats.{Floats}

-- `_ONE_MINUTE_MS`
abbrev pub one_minute_ms : ℕ
one_minute_ms = 60_000

-- A bar. Its times are not negative: `make_closed_kline` refuses those that are.
pub record ClosedKline (fl : Floats) : Type 0 where
  pub symbol : String
  pub timeframe : String
  pub open_time_ms : ℕ
  pub close_time_ms : ℕ
  pub opened : fl.F
  pub high : fl.F
  pub low : fl.F
  pub close : fl.F
  pub base_volume : fl.F
  pub quote_volume : fl.F
  pub taker_buy_base_volume : fl.F
  pub taker_buy_quote_volume : fl.F

-- The raw values of a bar; the times are any integers.
pub record RawKline (fl : Floats) : Type 0 where
  pub symbol : String
  pub open_time_ms : ℤ
  pub close_time_ms : ℤ
  pub opened : fl.F
  pub high : fl.F
  pub low : fl.F
  pub close : fl.F
  pub base_volume : fl.F
  pub quote_volume : fl.F
  pub taker_buy_base_volume : fl.F
  pub taker_buy_quote_volume : fl.F

module _ (fl : Floats) where
  open fl use {F, finite, less}

  abbrev pub larger : F → F → F
  larger a b = if less a b then b else a

  abbrev pub smaller : F → F → F
  smaller a b = if less b a then b else a

  unfoldable pub all_finite : List F → Bool
  all_finite [] = true
  all_finite (x ∷ xs) = finite x && all_finite xs

  unfoldable pub minimum : F → List F → F
  minimum m [] = m
  minimum m (x ∷ xs) = minimum (smaller m x) xs

module _ {fl : Floats} where
  open fl use {less, at_most, same, of_nat}

  -- `a == b` of two bars: the generated equality of the dataclass
  unfoldable pub same_kline : ClosedKline fl → ClosedKline fl → Bool
  same_kline a b =
      str_eq a.symbol b.symbol
      && str_eq a.timeframe b.timeframe
      && a.open_time_ms == b.open_time_ms
      && a.close_time_ms == b.close_time_ms
      && same a.opened b.opened
      && same a.high b.high
      && same a.low b.low
      && same a.close b.close
      && same a.base_volume b.base_volume
      && same a.quote_volume b.quote_volume
      && same a.taker_buy_base_volume b.taker_buy_base_volume
      && same a.taker_buy_quote_volume b.taker_buy_quote_volume

  unfoldable pub valid_closed_kline : ClosedKline fl → Bool
  unfolding all_finite minimum
  valid_closed_kline c =
      c.close_time_ms == c.open_time_ms + one_minute_ms - 1
      && c.close_time_ms % one_minute_ms == one_minute_ms - 1
      && all_finite fl (
          c.opened ∷ c.high ∷ c.low ∷ c.close ∷ c.base_volume ∷ c.quote_volume
          ∷ c.taker_buy_base_volume ∷ c.taker_buy_quote_volume ∷ [])
      && not (at_most (minimum fl c.opened (c.high ∷ c.low ∷ c.close ∷ [])) (of_nat 0))
      && not (less c.high (larger fl c.opened c.close))
      && not (less (smaller fl c.opened c.close) c.low)
      && not (
          less
            (minimum fl c.base_volume
              (c.quote_volume ∷ c.taker_buy_base_volume ∷ c.taker_buy_quote_volume ∷ []))
            (of_nat 0))
      && not (less c.base_volume c.taker_buy_base_volume)
      && not (less c.quote_volume c.taker_buy_quote_volume)

  -- the bar of validated times, `symbol` being `symbol.upper()`
  unfoldable pub kline_at : RawKline fl → String → ℕ → ℕ → ClosedKline fl
  kline_at raw symbol open_time_ms close_time_ms = record {
    symbol = symbol;
    timeframe = "1m";
    open_time_ms = open_time_ms;
    close_time_ms = close_time_ms;
    opened = raw.opened;
    high = raw.high;
    low = raw.low;
    close = raw.close;
    base_volume = raw.base_volume;
    quote_volume = raw.quote_volume;
    taker_buy_base_volume = raw.taker_buy_base_volume;
    taker_buy_quote_volume = raw.taker_buy_quote_volume;
  }

  -- `_make_closed_kline`. A negative opening time is refused, and a negative closing time is none
  -- that ends the minute of an opening time that is not.
  unfoldable pub make_closed_kline : (String → String) → RawKline fl → Option (ClosedKline fl)
  unfolding kline_at
  make_closed_kline upper raw = elim raw.open_time_ms [
    | negsuc _ ↦ none
    | pos open_time_ms ↦ elim raw.close_time_ms [
      | negsuc _ ↦ none
      | pos close_time_ms ↦
          let candle = kline_at raw (upper raw.symbol) open_time_ms close_time_ms in
          if valid_closed_kline candle then some candle else none
    ]
  ]
