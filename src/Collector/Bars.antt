-- ===== src/Collector/Bars.antt =====
-- The bars of one symbol in kairos_quant/collectors/binance_ws.py. Each dict of the collector that is
-- keyed by the symbol is a field here, at that symbol. `now` is the last reading of the monotonic
-- clock in a call.
use kairos_quant_scouts.Prelude.{
  ℕ, zero, suc, ◌+◌, Bool, true, false, not, ◌&&◌, ◌||◌, Option, none, some, List, [], ◌∷◌, ◌++◌,
  String, str_eq, ltb, leb, ◌==◌, length, drop, keep_last, if◌then◌else◌,
}
use kairos_quant_scouts.Prelude.Dict.{Dict, lookup, insert, erase, pop_max, evict}
use kairos_quant_scouts.Prelude.Int.{ℤ, pos, negsuc}
use kairos_quant_scouts.Floats.{Floats}
use kairos_quant_scouts.Collector.Kline.{
  one_minute_ms, ClosedKline, same_kline, valid_closed_kline, RawKline, make_closed_kline,
}

-- `_kline_integrity_error`
pub data Integrity : Type 0 where
  conflicting_closed_bar reordered_closed_bar gap_in_restored_closed_bars : Integrity

-- A REST row that waits for its confirmation: the bar, how often it was seen, and where and when
-- the first response came from, if sources are captured.
pub record Candidate (fl : Floats) : Type 0 where
  pub candle : ClosedKline fl
  pub confirmations : ℕ
  pub source_id : Option String
  pub received_at_ms : Option ℕ
  pub requested_at_ms : Option ℕ

pub record Bars (fl : Floats) : Type 0 where
  -- `_kline_buffer_size`, above 0
  pub buffer_size : ℕ
  pub closed : List (ClosedKline fl)
  pub pending : Dict (ClosedKline fl)
  pub ws_candidates : Dict (ClosedKline fl)
  pub rest_candidates : Dict (Candidate fl)
  pub needs_backfill : Bool
  pub known : Dict (ClosedKline fl)
  pub integrity_error : Option Integrity
  pub last_close_time_ms : ℕ
  pub restored_through_ms : ℕ
  pub updated_at : Option fl.F
  pub volume_usd : fl.F
  pub bar_sources : Dict ((String × String) × ℕ)

-- `_REST_CONFIRMATIONS_REQUIRED`
abbrev pub rest_confirmations_required : ℕ
rest_confirmations_required = 2

abbrev pub is_none {ℓ} : {A : Type ℓ} → Option A → Bool
is_none none = true
is_none (some _) = false

abbrev pub is_empty {ℓ} : {A : Type ℓ} → List A → Bool
is_empty [] = true
is_empty (_ ∷ _) = false

-- Where a REST response came from and when, if sources are captured.
pub record Source : Type 0 where
  pub source_id : Option String
  pub received_at_ms : Option ℕ
  pub requested_at_ms : Option ℕ

module _ {fl : Floats} where
  open fl use {F, less, at_most, sub, of_nat}

  -- `_record_known_kline`
  unfoldable pub record_known : ClosedKline fl → Bars fl → Bars fl
  record_known c s = record s {
    known = evict s.buffer_size (insert c.close_time_ms c s.known);
    last_close_time_ms = c.close_time_ms;
  }

  -- `_promote_closed_kline`; the queue is a deque of at most `buffer_size` bars
  unfoldable pub promote : F → ClosedKline fl → Bars fl → Bars fl
  unfolding record_known
  promote now c s =
      record (record_known c (record s { closed = keep_last s.buffer_size (s.closed ++ c ∷ []) })) {
        updated_at = some now;
        volume_usd = c.quote_volume;
      }

  -- `while next_close_time_ms in pending`, with at least as many rounds as `pending` has keys
  unfoldable pub promote_pending : F → ℕ → ℕ → Bars fl → Bars fl
  promote_pending now zero next s = s
  promote_pending now (suc rounds) next s = elim (lookup next s.pending) [
    | none ↦ s
    | some c ↦
        promote_pending now rounds (next + one_minute_ms)
          (promote now c (record s { pending = erase next s.pending }))
  ]

  -- `if not pending: self._needs_kline_backfill.discard(symbol)`
  unfoldable pub settle : Bars fl → Bars fl
  settle s = record s { needs_backfill = if is_empty s.pending then false else s.needs_backfill }

  unfoldable pub fail : Integrity → Bars fl → Bars fl
  fail e s = record s { integrity_error = some e }

  -- `if seen != candle: self._kline_integrity_error[symbol] = "conflicting_closed_bar"`
  unfoldable pub compare_seen : ClosedKline fl → ClosedKline fl → Bars fl → Bars fl
  unfolding fail
  compare_seen seen c s = if same_kline seen c then s else fail conflicting_closed_bar s

  -- a bar after a gap is held
  unfoldable pub hold : ClosedKline fl → Bars fl → Bars fl
  hold c s =
      let held = insert c.close_time_ms c s.pending in
      record s {
        pending = if ltb s.buffer_size (length held) then pop_max held else held;
        needs_backfill = true;
      }

  -- the bar that follows, and the held bars that follow it
  unfoldable pub advance : F → ClosedKline fl → Bars fl → Bars fl
  unfolding promote promote_pending settle
  advance now c s =
      settle
        (promote_pending now (length s.pending) (c.close_time_ms + one_minute_ms) (promote now c s))

  -- `_append_authoritative_kline` of a bar that is neither known nor held
  unfoldable pub append_new : F → ClosedKline fl → Bars fl → Bool × Bars fl
  unfolding hold advance
  append_new now c s =
      if not (s.last_close_time_ms == 0)
        && not (c.close_time_ms == s.last_close_time_ms + one_minute_ms)
      then (true, hold c s)
      else (true, advance now c s)

  -- ... of a bar that is not known
  unfoldable pub append_unknown : F → ClosedKline fl → Bars fl → Bool × Bars fl
  unfolding fail compare_seen append_new
  append_unknown now c s =
      if leb c.close_time_ms s.restored_through_ms
      then (false, s)
      else if not (s.last_close_time_ms == 0) && ltb c.close_time_ms s.last_close_time_ms
      then (false, fail reordered_closed_bar s)
      else elim (lookup c.close_time_ms s.pending) [
        | some held ↦ (false, compare_seen held c s)
        | none ↦ append_new now c s
      ]

  -- `_append_authoritative_kline`
  unfoldable pub append_authoritative : F → ClosedKline fl → Bars fl → Bool × Bars fl
  unfolding compare_seen append_unknown
  append_authoritative now c s = elim s.integrity_error [
    | some _ ↦ (false, s)
    | none ↦ elim (lookup c.close_time_ms s.known) [
      | some seen ↦ (false, compare_seen seen c s)
      | none ↦ append_unknown now c s
    ]
  ]

  -- `previous[2] == id or type(...) is not int or ... or previous[3] > source_requested_at_ms`
  unfoldable pub not_independent : Candidate fl → Source → Bool
  not_independent p src = elim src.source_id [
    | none ↦ false
    | some id ↦
        (elim p.source_id [ none ↦ false | some other ↦ str_eq other id ])
        || (elim p.received_at_ms [
          | none ↦ true
          | some received ↦ elim src.requested_at_ms [
            | none ↦ true
            | some requested ↦ ltb requested received
          ]
        ])
  ]

  -- the first sight of a row
  unfoldable pub remember : ClosedKline fl → Source → Bars fl → Bars fl
  remember c src s = record s {
    rest_candidates = evict s.buffer_size (
        insert c.close_time_ms
          (record {
            candle = c;
            confirmations = 1;
            source_id = src.source_id;
            received_at_ms = src.received_at_ms;
            requested_at_ms = src.requested_at_ms;
          })
          s.rest_candidates);
  }

  abbrev pub lineage : Candidate fl → Source → Option ((String × String) × ℕ)
  lineage p src = elim src.source_id [
    | none ↦ none
    | some id ↦ elim p.source_id [
      | none ↦ none
      | some first ↦ elim src.received_at_ms [ none ↦ none | some at ↦ some ((first, id), at) ]
    ]
  ]

  -- the row is confirmed
  unfoldable pub confirm : F → ClosedKline fl → Candidate fl → Source → Bars fl → Bool × Bars fl
  unfolding append_authoritative
  confirm now c p src s = append_authoritative now c (record s {
    rest_candidates = erase c.close_time_ms s.rest_candidates;
    ws_candidates = erase c.close_time_ms s.ws_candidates;
    bar_sources = elim (lineage p src) [
      | none ↦ s.bar_sources
      | some from ↦ insert c.close_time_ms from s.bar_sources
    ];
  })

  -- the row was seen before, with the same values
  unfoldable pub seen_again : F → ClosedKline fl → Candidate fl → Source → Bars fl → Bool × Bars fl
  unfolding not_independent confirm
  seen_again now c p src s =
      if not_independent p src
      then (false, s)
      else if ltb (p.confirmations + 1) rest_confirmations_required
      then (
        false,
        record s {
          rest_candidates =
              insert c.close_time_ms (record p { candle = c; confirmations = p.confirmations + 1 })
                s.rest_candidates;
        },
      )
      else confirm now c p src s

  -- `_observe_rest_closed_kline` of a valid bar
  unfoldable pub observe_valid : F → ClosedKline fl → Source → Bars fl → Bool × Bars fl
  unfolding append_authoritative remember seen_again
  observe_valid now c src s =
      if not (is_none (lookup c.close_time_ms s.known))
      then append_authoritative now c s
      else elim (lookup c.close_time_ms s.rest_candidates) [
        | none ↦ (false, remember c src s)
        | some p ↦
            if same_kline p.candle c then seen_again now c p src s else (false, remember c src s)
      ]

  -- `_observe_rest_closed_kline`
  unfoldable pub observe_rest :
      F → (String → String) → RawKline fl → Source → Bars fl → Bool × Bars fl
  unfolding observe_valid
  observe_rest now upper raw src s = elim (make_closed_kline upper raw) [
    | none ↦ (false, s)
    | some c ↦ if not (is_none s.integrity_error) then (false, s) else observe_valid now c src s
  ]

  -- `restore_closed_kline` of a bar that is not known
  unfoldable pub restore_unknown : ClosedKline fl → Bars fl → Bool × Bars fl
  unfolding fail record_known
  restore_unknown c s =
      if not (s.last_close_time_ms == 0) && ltb c.close_time_ms s.last_close_time_ms
      then (false, fail reordered_closed_bar s)
      else if not (s.last_close_time_ms == 0)
          && not (c.close_time_ms == s.last_close_time_ms + one_minute_ms)
      then (false, fail gap_in_restored_closed_bars s)
      else (
        true,
        record (record_known c s) {
          restored_through_ms = c.close_time_ms;
          volume_usd = c.quote_volume;
        },
      )

  -- `restore_closed_kline` of a symbol that the collector has
  unfoldable pub restore : ClosedKline fl → Bars fl → Bool × Bars fl
  unfolding compare_seen restore_unknown
  restore c s =
      if not (valid_closed_kline c) || not (is_none s.integrity_error)
      then (false, s)
      else elim (lookup c.close_time_ms s.known) [
        | some seen ↦ (false, compare_seen seen c s)
        | none ↦ restore_unknown c s
      ]

  -- the end of `_on_kline`: a bar that the WebSocket calls closed is kept as evidence only
  unfoldable pub on_ws_kline : ClosedKline fl → Bars fl → Bool × Bars fl
  on_ws_kline c s = (
    elim (lookup c.close_time_ms s.ws_candidates) [
      | none ↦ true
      | some previous ↦ not (same_kline previous c)
    ],
    record s { ws_candidates = evict s.buffer_size (insert c.close_time_ms c s.ws_candidates) },
  )

  -- `acknowledge_closed_klines` of a symbol that the collector has; `none` is the `ValueError`
  unfoldable pub acknowledge : ℤ → Bars fl → Option (Bars fl)
  acknowledge (negsuc _) s = none
  acknowledge (pos count) s =
      if ltb (length s.closed) count then none else some (record s { closed = drop count s.closed })

  -- `drain_closed_klines`
  unfoldable pub drain : Bars fl → List (ClosedKline fl) × Bars fl
  drain s = (s.closed, record s { closed = [] })

  -- `is_kline_stream_safe`
  unfoldable pub is_stream_safe : Bars fl → Bool
  is_stream_safe s = not s.needs_backfill && is_none s.integrity_error

  -- the state that the constructor sets up for a symbol
  unfoldable pub empty_bars : ℕ → Bars fl
  empty_bars size = record {
    buffer_size = size;
    closed = [];
    pending = [];
    ws_candidates = [];
    rest_candidates = [];
    needs_backfill = false;
    known = [];
    integrity_error = none;
    last_close_time_ms = 0;
    restored_through_ms = 0;
    updated_at = none;
    volume_usd = of_nat 0;
    bar_sources = [];
  }
