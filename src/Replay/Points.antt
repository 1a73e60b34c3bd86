-- ===== src/Replay/Points.antt =====
-- kairos_quant/replay.py: `replay_candles`.
use kairos_quant_scouts.Prelude.{
  ℕ, suc, Bool, not, ◌||◌, List, [], ◌∷◌, ◌++◌, Option, none, some, String, str_eq, ◌==◌, ltb,
  length, max, if◌then◌else◌,
}
use kairos_quant_scouts.Prelude.Result.{Result, ok, err, ◌>>=◌, ◌>>◌, raise_if}
use kairos_quant_scouts.Floats.{Floats}
use kairos_quant_scouts.OrderBook.{sorted}
use kairos_quant_scouts.Bias.{Side, flat, BiasError, derive_bias}
use kairos_quant_scouts.Snapshot.Builder.{bias_rule}
use kairos_quant_scouts.Snapshot.Streaming.{
  rsi_period, macd_fast_period, macd_slow_period, macd_signal_period, macd_min_samples,
}
use kairos_quant_scouts.Replay.Candle.{Candle}
use kairos_quant_scouts.Replay.Series.{SeriesError, Numpy, rsi, macd}

pub data ReplayError : Type 0 where
  bad_warmup mixed_candles not_contiguous : ReplayError
  series_error : SeriesError → ReplayError
  bias_error : BiasError → ReplayError

-- An error of another module, as this module's.
unfoldable pub series_result : {A : Type 0} → Result SeriesError A → Result ReplayError A
series_result (ok a) = ok a
series_result (err e) = err (series_error e)

unfoldable pub side_result : Result BiasError Side → Result ReplayError Side
side_result (ok a) = ok a
side_result (err e) = err (bias_error e)

pub record ReplayPoint : Type 0 where
  pub timestamp_ms : ℕ
  pub bias : Side

module _ (fl : Floats) (np : Numpy fl) where
  open fl use {F, of_nat}

  -- the key of the sort: an earlier candle stands before
  abbrev pub opens_before : Candle fl → Candle fl → Bool
  opens_before c d = ltb c.open_time_ms d.open_time_ms

  -- the loop of the first checks, after `previous`
  unfoldable pub check_series :
      String → String → Candle fl → List (Candle fl) → Result ReplayError (Unit {0})
  check_series symbol timeframe previous [] = ok tt
  check_series symbol timeframe previous (c ∷ cs) = do
    raise_if (not (str_eq c.symbol symbol) || not (str_eq c.timeframe timeframe)) mixed_candles
    raise_if (not (c.open_time_ms == suc previous.close_time_ms)) not_contiguous
    check_series symbol timeframe c cs

  unfoldable pub check_ordered : List (Candle fl) → Result ReplayError (Unit {0})
  unfolding check_series
  check_ordered [] = ok tt
  check_ordered (c ∷ cs) = check_series c.symbol c.timeframe c cs

  -- `side` from the closes that are seen
  unfoldable pub derived_side : List F → Result ReplayError Side
  unfolding series_result side_result macd rsi bias_rule derive_bias
  derived_side closes = do
    (m, s, histogram) ←
        series_result (macd fl np closes macd_fast_period macd_slow_period macd_signal_period)
    strength ← series_result (rsi fl np closes rsi_period)
    side_result (derive_bias fl (bias_rule fl strength histogram (of_nat 0)))

  unfoldable pub side_at : ℕ → List F → Result ReplayError Side
  unfolding derived_side
  side_at required closes = if ltb (length closes) required then ok flat else derived_side closes

  -- the loop, with the closes seen so far
  unfoldable pub points : ℕ → List F → List (Candle fl) → Result ReplayError (List ReplayPoint)
  unfolding side_at
  points required closes [] = ok []
  points required closes (c ∷ cs) = do
    side ← side_at required (closes ++ c.close ∷ [])
    rest ← points required (closes ++ c.close ∷ []) cs
    ok (record { timestamp_ms = c.close_time_ms; bias = side } ∷ rest)

  -- `none` is no integer, or one that is not positive
  unfoldable pub replay_candles :
      List (Candle fl) → Option ℕ → Result ReplayError (List ReplayPoint)
  unfolding sorted check_ordered points
  replay_candles candles none = err bad_warmup
  replay_candles candles (some warmup) = do
    let ordered = sorted opens_before candles
    raise_if (warmup == 0) bad_warmup
    check_ordered ordered
    points (max warmup macd_min_samples) [] ordered
