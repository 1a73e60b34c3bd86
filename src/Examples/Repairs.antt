-- ===== src/Examples/Repairs.antt =====
-- A repair of two minutes, against an endpoint that has every bar.
use kairos_quant_scouts.Prelude.{
  ℕ, zero, suc, ◌+◌, ◌-◌, ◌*◌, ◌/◌, ◌%◌, ◌==◌, ◌≡◌, refl, true, false, Option, none, some, List, [],
  ◌∷◌, String, if◌then◌else◌, arith, Bool-cases, inl, inr, ◌⊎◌, ap,
}
use kairos_quant_scouts.Prelude.Int.{ℤ, pos, negsuc}
use kairos_quant_scouts.Prelude.Result.{ok}
use kairos_quant_scouts.Prelude.Triple.{After}
use kairos_quant_scouts.Examples.{numbers}
use kairos_quant_scouts.Tape.State.{int}
use kairos_quant_scouts.Collector.Kline.{RawKline, one_minute_ms}
use kairos_quant_scouts.Recovery.Contract.{
  value, Row, RawPage, Contract, IsContract, Outside, IsDurable,
}
use kairos_quant_scouts.Recovery.Status.{Phase, Run}
use kairos_quant_scouts.Recovery.Page.{IsPage, parse_page, parse_page-IsPage}
use kairos_quant_scouts.Recovery.Symbol.{confirm_page, recover_symbol}
use kairos_quant_scouts.Recovery.Publishing.{IsPartial, IsKept}
use kairos_quant_scouts.Recovery.Repair.{IsConfirmed}
use kairos_quant_scouts.Recovery.Reread.{IsReread, confirm_page-IsReread}
use kairos_quant_scouts.Recovery.Lease.{load_anchor, recover_all}
use kairos_quant_scouts.Recovery.Budget.{
  IsWithin, recover_all-IsWithin, IsHistory, load_anchor-IsHistory,
}
use kairos_quant_scouts.Recovery.Complete.{IsComplete, recover_symbol-IsComplete}

-- A bar is its symbol and the number of its minute.
unfoldable pub made_of : RawKline numbers → ℤ → Option (String × ℕ)
made_of raw (negsuc n) = none
made_of raw (pos n) = if n % one_minute_ms == 0 then some (raw.symbol, n / one_minute_ms) else none

abbrev pub contract : Contract numbers
contract = record {
  E = String × ℕ;
  symbol = λ e. e.0;
  open_time_ms = λ e. e.1 * one_minute_ms;
  close_time_ms = λ e. e.1 * one_minute_ms + 59_999;
  canonical_bar_bytes = λ e. e.0;
  same = λ a b. a.1 == b.1;
  make = λ raw. made_of raw raw.open_time_ms;
  V = ℕ;
  float_of = λ v. some v;
}

made_of-values :
    (raw : RawKline numbers) (o : ℤ) (e : String × ℕ)
    → made_of raw o ≡ some e
    → (e.0 ≡ raw.symbol) × (pos (e.1 * one_minute_ms) ≡ o)
unfolding made_of
made_of-values raw (negsuc n) e h = cc
made_of-values raw (pos n) e h = elim (Bool-cases (n % one_minute_ms == 0)) [
  | inl whole ↦
      let same : some (raw.symbol, n / one_minute_ms) ≡ some e = rw whole at h in
      let bar : (raw.symbol, n / one_minute_ms) ≡ e = cc same in
      let back : n / one_minute_ms * one_minute_ms ≡ n = ground (arith, whole) in
      (rw (← bar) refl, rw (← bar) (ap pos back))
  | inr odd ↦ cc (rw odd at h)
]

contract-IsContract : IsContract contract
contract-IsContract = record {
  make-symbol = λ raw e h. (made_of-values raw raw.open_time_ms e h).0;
  make-open = λ raw e h. (made_of-values raw raw.open_time_ms e h).1;
  minute = λ e. later e.1;
  aligned = λ e. whole e.1;
}
  where
    later : (n : ℕ) → n * one_minute_ms + 59_999 + 1 ≡ n * one_minute_ms + one_minute_ms
    later n = omega arith

    whole : (n : ℕ) → n * one_minute_ms % one_minute_ms ≡ zero
    whole n = omega arith

abbrev row : ℕ → Row ℕ
row at = record {
  open_time = int (pos at);
  opened = value 100;
  high = value 110;
  low = value 90;
  close = value 100;
  base_volume = value 10;
  close_time = int (pos (at + 59_999));
  quote_volume = value 1_000;
  taker_buy_base_volume = value 5;
  taker_buy_quote_volume = value 500;
}

abbrev rows : ℕ → ℕ → List (Option (Row ℕ))
rows zero at = []
rows (suc n) at = some (row at) ∷ rows n (at + one_minute_ms)

-- The endpoint and the writer count their calls.
abbrev pub outside : Outside contract
outside = record {
  W = ℕ;
  fetch = λ symbol start end w. (some (some (rows ((end - start) / one_minute_ms) start)), w + 1);
  pause = λ w. (true, w);
  append = λ e w. ((true, true), w + 1);
  rows = λ symbol w. (some (some ("BTCUSDT", 4) ∷ some ("BTCUSDT", 5) ∷ []), w);
  now_utc = λ w. "now";
}

outside-IsDurable : IsDurable outside
outside-IsDurable e w h = refl

abbrev pub start : Run outside
start = record {
  status = record {
    phase = Phase.validate_settings;
    symbol = none;
    window_start_ms = none;
    window_end_exclusive_ms = none;
    last_progress_at_utc = none;
    confirmed_through_exclusive_ms = λ s. none;
    total_appended_bars = 0;
    first_failure_phase = none;
    end_exclusive_ms = none;
    maximum_append_bars = none;
    planned_remaining_bars = none;
    publish_outcome_unknown = false;
  };
  published = [];
  emitted = [];
  world = 0;
}

abbrev anchor : String × ℕ
anchor = ("BTCUSDT", 3)

abbrev page : RawPage ℕ
page = some (rows 2 180_000)

parsed_page : parse_page contract page "BTCUSDT" 180_000 300_000 ≡ ok (anchor ∷ ("BTCUSDT", 4) ∷ [])
unfolding parse_page made_of
parsed_page = refl

parse_page-IsPage_example : IsPage contract "BTCUSDT" 180_000 2 (anchor ∷ ("BTCUSDT", 4) ∷ [])
parse_page-IsPage_example =
    parse_page-IsPage contract contract-IsContract page "BTCUSDT" 180_000 300_000
      (anchor ∷ ("BTCUSDT", 4) ∷ []) parsed_page

confirm_page-IsReread_example :
    After
      (λ es t.
        IsReread outside anchor 180_000 300_000 start es t
        × IsConfirmed contract anchor 180_000 300_000 es
        × IsKept start t)
      (λ e t. IsKept start t)
      (confirm_page outside anchor 180_000 300_000 start)
confirm_page-IsReread_example =
    confirm_page-IsReread outside contract-IsContract anchor 180_000 300_000 start

-- Minutes 4, 5 and 6, by pages of two.
repaired : (recover_symbol outside anchor 420_000 2 start).0 ≡ ok 3
unfolding recover_symbol made_of
repaired = refl

recover_symbol-IsComplete_example :
    After
      (λ n t. IsComplete [] anchor 420_000 0 n t)
      (λ x t. IsKept start t ⊎ IsPartial [] anchor 420_000 0 t)
      (recover_symbol outside anchor 420_000 2 start)
recover_symbol-IsComplete_example =
    recover_symbol-IsComplete contract-IsContract outside-IsDurable anchor 420_000 2 start

recover_all-IsWithin_example :
    After
      (λ done t. IsWithin 2 t)
      (λ x t. IsWithin 2 t)
      (recover_all outside 2 420_000 (anchor ∷ ("ETHUSDT", 5) ∷ []) start)
recover_all-IsWithin_example =
    recover_all-IsWithin contract-IsContract outside-IsDurable (anchor ∷ ("ETHUSDT", 5) ∷ []) 2
      420_000 start (omega arith)

loaded : (load_anchor outside "BTCUSDT" start).0 ≡ ok ("BTCUSDT", 5)
unfolding load_anchor
loaded = refl

load_anchor-IsHistory_example :
    After
      (λ a t.
        ((rows : List (Option (String × ℕ))) × (outside.rows "BTCUSDT" start.world
            ≡ (some rows, t.world))
          × IsHistory contract rows a)
        × IsKept start t)
      (λ e t. IsKept start t)
      (load_anchor outside "BTCUSDT" start)
load_anchor-IsHistory_example = load_anchor-IsHistory outside "BTCUSDT" start
