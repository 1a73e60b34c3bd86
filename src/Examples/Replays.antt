-- ===== src/Examples/Replays.antt =====
-- Two candles given in the wrong order, their replay, and an average, over natural numbers.
use kairos_quant_scouts.Prelude.{
  ℕ, ◌+◌, ◌/◌, ◌≡◌, refl, false, max, List, [], ◌∷◌, ◌++◌, some, take, length,
}
use kairos_quant_scouts.Prelude.Result.{ok}
use kairos_quant_scouts.OrderBook.{sorted, insert_sorted, sum_from}
use kairos_quant_scouts.Bias.{flat}
use kairos_quant_scouts.Examples.{numbers}
use kairos_quant_scouts.Snapshot.Builder.{Names}
use kairos_quant_scouts.Snapshot.Streaming.{macd_min_samples}
use kairos_quant_scouts.Replay.Candle.{Candle, Bar, candle}
use kairos_quant_scouts.Replay.Series.{Numpy}
use kairos_quant_scouts.Replay.Points.{ReplayPoint, opens_before, replay_candles}
use kairos_quant_scouts.Replay.Causal.{IsReplay, replay_candles-causal, replay_candles-IsReplay}

abbrev arrays : Numpy numbers
arrays = record { mean = λ xs. sum_from numbers 0 xs / length xs; nan = 0 }

abbrev names : Names
names = record { normalized = λ s. s; blank = λ s. false }

abbrev bar : ℕ → Bar numbers
bar close = record {
  symbol = "BTCUSDT";
  timeframe = "1m";
  open_price = close;
  high = close;
  low = close;
  close = close;
  volume = 5;
  quote_volume = 0;
  taker_buy_volume = 2;
}

abbrev minute : ℕ → ℕ → Candle numbers
minute n close = record {
  symbol = "BTCUSDT";
  timeframe = "1m";
  open_time_ms = n;
  close_time_ms = n + 59_999;
  open_price = close;
  high = close;
  low = close;
  close = close;
  volume = 5;
  quote_volume = 0;
  taker_buy_volume = 2;
}

accepted : candle numbers names (bar 100) (some 0) (some 59_999) ≡ ok (minute 0 100)
unfolding candle
accepted = refl

abbrev candles : List (Candle numbers)
candles = minute 60_000 101 ∷ minute 0 100 ∷ []

abbrev replayed : List ReplayPoint
replayed =
    record { timestamp_ms = 59_999; bias = flat }
    ∷ record { timestamp_ms = 119_999; bias = flat }
    ∷ []

ordered :
    sorted (opens_before numbers arrays) candles
    ≡ sorted (opens_before numbers arrays) (minute 0 100 ∷ []) ++ minute 60_000 101 ∷ []
unfolding sorted insert_sorted
ordered = refl

replaying : replay_candles numbers arrays candles (some 1) ≡ ok replayed
unfolding replay_candles
replaying = refl

replay_candles-causal_example :
    replay_candles numbers arrays (minute 0 100 ∷ []) (some 1)
    ≡ ok (take (length (sorted (opens_before numbers arrays) (minute 0 100 ∷ []))) replayed)
replay_candles-causal_example =
    replay_candles-causal numbers arrays (minute 0 100 ∷ []) (minute 60_000 101 ∷ []) candles 1
      replayed ordered replaying

replay_candles-IsReplay_example :
    IsReplay numbers arrays
      (max 1 macd_min_samples)
      0
      (sorted (opens_before numbers arrays) candles)
      replayed
replay_candles-IsReplay_example =
    replay_candles-IsReplay numbers arrays candles 1 replayed replaying

abbrev series : List ℕ
series = 20 ∷ 20 ∷ 20 ∷ []

abbrev averages : List ℕ
averages = 0 ∷ 20 ∷ 20 ∷ []
