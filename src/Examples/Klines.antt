-- ===== src/Examples/Klines.antt =====
-- The bars of a symbol: minutes that follow one another, one after a gap, and a revised one.
use kairos_quant_scouts.Prelude.{
  ℕ, ◌+◌, ◌*◌, ◌≡◌, ◌<◌, refl, true, false, none, some, List, [], ◌∷◌, ◌++◌, keep_last, arith,
}
use kairos_quant_scouts.Prelude.Int.{pos}
use kairos_quant_scouts.Prelude.Dict.{lookup, evict}
use kairos_quant_scouts.Examples.{numbers}
use kairos_quant_scouts.Collector.Kline.{
  one_minute_ms, ClosedKline, RawKline, same_kline, make_closed_kline, valid_closed_kline,
}
use kairos_quant_scouts.Collector.Bars.{
  Bars, conflicting_closed_bar, append_authoritative, observe_valid, promote_pending,
  is_stream_safe, empty_bars, observe_rest, restore, not_independent,
}
use kairos_quant_scouts.Collector.Sound.{IsSound, promote_pending_complete}
use kairos_quant_scouts.Collector.Finality.{no_source}
use kairos_quant_scouts.Collector.Publish.{first_seen, observe_valid_twice}
use kairos_quant_scouts.Collector.Life.{
  Event, observed, step, live, restore_all, live-IsSound-restored,
}
use kairos_quant_scouts.Collector.Latch.{IsStopped, live-unsafe}
use kairos_quant_scouts.Collector.Gap.{append_authoritative_filled}

-- The minute `n` with the closing price `price`.
abbrev bar : ℕ → ℕ → ClosedKline numbers
bar n price = record {
  symbol = "BTCUSDT";
  timeframe = "1m";
  open_time_ms = n * one_minute_ms;
  close_time_ms = n * one_minute_ms + 59_999;
  opened = 100;
  high = 110;
  low = 90;
  close = price;
  base_volume = 10;
  quote_volume = 1_000;
  taker_buy_base_volume = 5;
  taker_buy_quote_volume = 500;
}

abbrev raw_bar : ℕ → ℕ → RawKline numbers
raw_bar n price = record {
  symbol = "BTCUSDT";
  open_time_ms = pos (n * one_minute_ms);
  close_time_ms = pos (n * one_minute_ms + 59_999);
  opened = 100;
  high = 110;
  low = 90;
  close = price;
  base_volume = 10;
  quote_volume = 1_000;
  taker_buy_base_volume = 5;
  taker_buy_quote_volume = 500;
}

-- Minute 10 is the last bar, and it is queued.
abbrev after_ten : Bars numbers
after_ten = record {
  buffer_size = 5;
  closed = bar 10 100 ∷ [];
  pending = [];
  ws_candidates = [];
  rest_candidates = [];
  needs_backfill = false;
  known = (659_999, bar 10 100) ∷ [];
  integrity_error = none;
  last_close_time_ms = 659_999;
  restored_through_ms = 0;
  updated_at = none;
  volume_usd = 0;
  bar_sources = [];
}

abbrev seen : ℕ → ℕ → Event numbers
seen n price = observed 0 (λ s. s) (raw_bar n price) no_source

-- Minute 11 twice, minute 13 twice, and then the gap, minute 12 twice.
abbrev events : List (Event numbers)
events = seen 11 100 ∷ seen 11 100 ∷ seen 13 101 ∷ seen 13 101 ∷ seen 12 99 ∷ seen 12 99 ∷ []

restored_and_live :
    (live events (restore_all (bar 9 100 ∷ bar 10 100 ∷ []) (empty_bars 5))).closed
    ≡ bar 11 100 ∷ bar 12 99 ∷ bar 13 101 ∷ []
unfolding live restore_all empty_bars step observe_rest make_closed_kline valid_closed_kline restore
    evict same_kline
restored_and_live = refl

five : 0 < 5
five = omega arith

live-IsSound-restored_example :
    IsSound (live events (restore_all (bar 9 100 ∷ bar 10 100 ∷ []) (empty_bars 5)))
live-IsSound-restored_example = live-IsSound-restored 5 (bar 9 100 ∷ bar 10 100 ∷ []) events five

observe_valid_twice_example :
    let t = observe_valid 1 (bar 11 100) no_source after_ten in
    let u = observe_valid 2 (bar 11 100) no_source t.1 in
    (t.0 ≡ false)
    × (t.1.closed ≡ bar 10 100 ∷ [])
    × (u.0 ≡ true)
    × (u.1.closed ≡ keep_last 5 (bar 10 100 ∷ bar 11 100 ∷ []))
    × (u.1.last_close_time_ms ≡ 719_999)
    × (is_stream_safe u.1 ≡ true)
unfolding same_kline not_independent
observe_valid_twice_example =
    observe_valid_twice 1 2 (bar 11 100) no_source no_source after_ten refl refl refl refl
      (omega arith) (omega arith) refl refl refl

abbrev broken : Bars numbers
broken = record after_ten { integrity_error = some conflicting_closed_bar }

live-unsafe_example :
    IsStopped broken (live events broken) × (is_stream_safe (live events broken) ≡ false)
live-unsafe_example = live-unsafe events broken refl

append_authoritative_filled_example :
    let t = append_authoritative 1 (bar 12 100) after_ten in
    let u = append_authoritative 1 (bar 11 100) t.1 in
    ((t.1.closed ≡ bar 10 100 ∷ [])
      × (t.1.last_close_time_ms ≡ 659_999)
      × (is_stream_safe t.1 ≡ false))
    × ((u.1.closed ≡ keep_last 5 (keep_last 5 (bar 10 100 ∷ bar 11 100 ∷ []) ++ bar 12 100 ∷ []))
        × (u.1.last_close_time_ms ≡ 779_999)
        × (u.1.pending ≡ [])
        × (is_stream_safe u.1 ≡ true))
append_authoritative_filled_example =
    append_authoritative_filled 1 (bar 11 100) (bar 12 100) after_ten refl refl (omega arith)
      (omega arith) refl refl refl refl (omega arith)

abbrev once : Bars numbers
once = record after_ten { rest_candidates = (719_999, first_seen (bar 11 100) no_source) ∷ [] }

abbrev filled : Bars numbers
filled = record after_ten {
  pending = (719_999, bar 11 100) ∷ (839_999, bar 13 100) ∷ [];
  needs_backfill = true;
}

promote_pending_complete_example :
    let t = promote_pending 1 2 719_999 filled in
    lookup (t.last_close_time_ms + one_minute_ms) t.pending ≡ none
promote_pending_complete_example =
    promote_pending_complete 1 2 719_999 filled (refl, (refl, tt)) refl (omega arith)
