-- ===== src/Examples/Snapshots.antt =====
-- Two candles after a reset, and the snapshot of their symbol, over natural numbers.
use kairos_quant_scouts.Prelude.{ℕ, ◌<◌, ◌≡◌, refl, true, false, List, [], ◌∷◌, none, some}
use kairos_quant_scouts.Prelude.Result.{ok}
use kairos_quant_scouts.OrderBook.{
  Level, normalize_order_book, order_book_imbalance, spread_bps, depth_usd,
}
use kairos_quant_scouts.Bias.{flat}
use kairos_quant_scouts.Examples.{numbers, value_or}
use kairos_quant_scouts.Snapshot.Streaming.{
  macd_min_samples, Candle, new_indicators, push, push_all,
}
use kairos_quant_scouts.Snapshot.Warm.{IsWarm, push_all-IsWarm}
use kairos_quant_scouts.Snapshot.Builder.{
  Names, Builder, Inputs, MarketSnapshot, new_history, init, reset, feed, snapshot_of, build,
}
use kairos_quant_scouts.Snapshot.Flat.{IsHistory, build-flat}

abbrev names : Names
names = record { normalized = λ s. s; blank = λ s. false }

abbrev candle : ℕ → Candle numbers
candle close = record { high = close; low = close; close = close }

abbrev candles : List (Candle numbers)
candles = candle 100 ∷ candle 101 ∷ []

abbrev level : ℕ → ℕ → Level numbers
level price size = record { price = price; size = size }

abbrev inputs : Inputs numbers
inputs = record {
  bids = level 100 5 ∷ [];
  asks = level 101 5 ∷ [];
  funding_rate = 1;
  open_interest = 10;
  timeframe = "1m";
  oi_change_pct_1h = 0;
  long_liq_usd = 0;
  short_liq_usd = 0;
  volume_usd = 7;
}

abbrev empty : Builder numbers
empty = record {
  source = "quant-scouts";
  depth_levels = 10;
  window = 200;
  histories = λ symbol. none;
}

initial : init numbers "quant-scouts" (some 200) (some 10) ≡ ok empty
unfolding init
initial = refl

abbrev cleared : Builder numbers
cleared = value_or empty (reset numbers names "BTCUSDT" empty)

abbrev fed : Builder numbers
fed = value_or empty (feed numbers names "BTCUSDT" candles cleared)

abbrev snapshot : MarketSnapshot numbers
snapshot =
    value_or (snapshot_of numbers "" "" inputs none 0 0 none 0 flat 0 0)
      (build numbers names (λ m. true) fed "BTCUSDT" inputs)

clearing : reset numbers names "BTCUSDT" empty ≡ ok cleared
unfolding reset
clearing = refl

feeding : feed numbers names "BTCUSDT" candles cleared ≡ ok fed
unfolding feed reset
feeding = refl

building : build numbers names (λ m. true) fed "BTCUSDT" inputs ≡ ok snapshot
unfolding build feed reset normalize_order_book push new_history new_indicators order_book_imbalance
    spread_bps depth_usd
building = refl

build-flat_example :
    IsHistory numbers fed.window 2 (fed.histories "BTCUSDT")
    × (2 < macd_min_samples → snapshot.quant_bias ≡ flat)
build-flat_example =
    build-flat numbers names "BTCUSDT" (λ m. true) empty cleared fed candles inputs snapshot
      clearing feeding building

push_all-IsWarm_example : IsWarm numbers 2 (push_all numbers candles (new_indicators numbers))
push_all-IsWarm_example = push_all-IsWarm numbers candles
