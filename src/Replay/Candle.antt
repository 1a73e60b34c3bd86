-- ===== src/Replay/Candle.antt =====
-- kairos_quant/candles.py: `Candle` and its checks.
use kairos_quant_scouts.Prelude.{
  ℕ, Bool, true, false, not, ◌||◌, List, [], ◌∷◌, Option, none, some, String, leb, if◌then◌else◌,
}
use kairos_quant_scouts.Prelude.Result.{Result, ok, ◌>>◌, raise_if}
use kairos_quant_scouts.Floats.{Floats}
use kairos_quant_scouts.Snapshot.Builder.{Names, all_finite, any_negative}

-- The messages of the `ValueError`s.
pub data CandleError : Type 0 where
  required bad_timestamps not_finite not_positive bad_bounds negative_volume bad_taker_volume :
      CandleError

module _ (fl : Floats) where
  open fl use {F, less, at_most, of_nat}

  pub record Candle : Type 0 where
    pub symbol : String
    pub timeframe : String
    pub open_time_ms : ℕ
    pub close_time_ms : ℕ
    pub open_price : F
    pub high : F
    pub low : F
    pub close : F
    pub volume : F
    pub quote_volume : F
    pub taker_buy_volume : F

  -- `max(a, b)` and `min(a, b)`, which keep `a` unless `b` is beyond it
  unfoldable pub larger : F → F → F
  larger a b = if less a b then b else a

  unfoldable pub smaller : F → F → F
  smaller a b = if less b a then b else a

  -- `min(prices) <= 0`, of finite prices
  unfoldable pub any_not_positive : List F → Bool
  any_not_positive [] = false
  any_not_positive (x ∷ xs) = at_most x (of_nat 0) || any_not_positive xs

  -- `none` is no integer, or a negative one
  unfoldable pub bad_timestamps_of : Option ℕ → Option ℕ → Bool
  bad_timestamps_of (some opened) (some closed) = leb closed opened
  bad_timestamps_of _ _ = true

  abbrev pub time_of : Option ℕ → ℕ
  time_of none = 0
  time_of (some t) = t

  -- the fields but the two times, as they are given
  pub record Bar : Type 0 where
    pub symbol : String
    pub timeframe : String
    pub open_price : F
    pub high : F
    pub low : F
    pub close : F
    pub volume : F
    pub quote_volume : F
    pub taker_buy_volume : F

  -- `Candle.__post_init__`
  unfoldable pub candle : Names → Bar → Option ℕ → Option ℕ → Result CandleError Candle
  unfolding all_finite any_negative larger smaller any_not_positive bad_timestamps_of
  candle names b opened closed = do
    raise_if (names.blank b.symbol || names.blank b.timeframe) required
    raise_if (bad_timestamps_of opened closed) bad_timestamps
    raise_if
        (not (
          all_finite fl (
            b.open_price ∷ b.high ∷ b.low ∷ b.close ∷ b.volume ∷ b.quote_volume ∷ b.taker_buy_volume
            ∷ [])))
        not_finite
    raise_if (any_not_positive (b.open_price ∷ b.high ∷ b.low ∷ b.close ∷ [])) not_positive
    raise_if
        (less b.high (larger b.open_price b.close) || less (smaller b.open_price b.close) b.low)
        bad_bounds
    raise_if (any_negative fl (b.volume ∷ b.quote_volume ∷ b.taker_buy_volume ∷ [])) negative_volume
    raise_if (less b.volume b.taker_buy_volume) bad_taker_volume
    ok (record {
      symbol = b.symbol;
      timeframe = b.timeframe;
      open_time_ms = time_of opened;
      close_time_ms = time_of closed;
      open_price = b.open_price;
      high = b.high;
      low = b.low;
      close = b.close;
      volume = b.volume;
      quote_volume = b.quote_volume;
      taker_buy_volume = b.taker_buy_volume;
    })
