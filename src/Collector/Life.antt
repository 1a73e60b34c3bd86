-- ===== src/Collector/Life.antt =====
-- The life of one symbol's bars in kairos_quant/collectors/binance_ws.py: `restore_closed_kline` at the
-- start, then REST observations, WebSocket bars, acknowledgements and drains in any order.
use kairos_quant_scouts.Prelude.{
  ℕ, zero, suc, ◌+◌, ◌<◌, ◌≡◌, refl, Bool, true, false, not, ◌&&◌, ◌||◌, Option, none, some, List,
  [], ◌∷◌, String, ltb, ◌==◌, length, drop, length-drop, Contiguous-drop, Ends-drop, arith,
  Bool-cases, inl, inr,
}
use kairos_quant_scouts.Prelude.Int.{ℤ, pos, negsuc}
use kairos_quant_scouts.Prelude.Dict.{lookup, insert, evict}
use kairos_quant_scouts.Prelude.DictLaws.{length-evict-le}
use kairos_quant_scouts.Floats.{Floats}
use kairos_quant_scouts.Collector.Kline.{
  one_minute_ms, ClosedKline, same_kline, valid_closed_kline, RawKline,
}
use kairos_quant_scouts.Collector.Bars.{
  Bars, Source, Integrity, is_none, record_known, compare_seen, fail, observe_rest, restore_unknown,
  restore, on_ws_kline, acknowledge, drain, empty_bars,
}
use kairos_quant_scouts.Collector.Sound.{IsSound, closes, fail-IsSound}
use kairos_quant_scouts.Collector.Finality.{
  valid_closed_kline-positive, with_candidates, observe_rest-IsSound,
}

-- What happens to a symbol after the start.
pub data Event (fl : Floats) : Type 0 where
  observed : fl.F → (String → String) → RawKline fl → Source → Event fl
  ws_closed : ClosedKline fl → Event fl
  acknowledged : ℤ → Event fl
  drained : Event fl

module _ {fl : Floats} where
  -- A refused acknowledgement changes nothing.
  abbrev pub acked : Option (Bars fl) → Bars fl → Bars fl
  acked none s = s
  acked (some t) s = t

  unfoldable pub step : Event fl → Bars fl → Bars fl
  step (Event.observed now upper raw src) s = (observe_rest now upper raw src s).1
  step (Event.ws_closed c) s = (on_ws_kline c s).1
  step (Event.acknowledged count) s = acked (acknowledge count s) s
  step Event.drained s = (drain s).1

  unfoldable pub live : List (Event fl) → Bars fl → Bars fl
  live [] s = s
  live (e ∷ es) s = live es (step e s)

  unfoldable pub restore_all : List (ClosedKline fl) → Bars fl → Bars fl
  restore_all [] s = s
  restore_all (c ∷ cs) s = restore_all cs (restore c s).1

  with_closed : (s : Bars fl) (n : ℕ) → IsSound s → IsSound (record s { closed = drop n s.closed })
  with_closed s n v = record {
    core = record {
      positive = v.core.positive;
      contiguous = Contiguous-drop closes one_minute_ms n s.closed v.core.contiguous;
      ends = Ends-drop closes one_minute_ms n s.last_close_time_ms s.closed v.core.ends;
      fresh = λ e. rw (v.core.fresh e) (drop-nil n);
      queue_bound = omega (arith, length-drop n s.closed, v.core.queue_bound);
      pending_bound = v.core.pending_bound;
      known_bound = v.core.known_bound;
      rest_bound = v.core.rest_bound;
      ws_bound = v.core.ws_bound;
      seen = v.core.seen;
      keyed = v.core.keyed;
      covered = v.core.covered;
    };
    held = v.held;
  }
    where
      drop-nil : (n : ℕ) → drop {A = ClosedKline fl} n [] ≡ []
      drop-nil zero = refl
      drop-nil (suc n) = refl

  drain-IsSound : (s : Bars fl) → IsSound s → IsSound (drain s).1
  unfolding drain
  drain-IsSound s v = record {
    core = record {
      positive = v.core.positive;
      contiguous = tt;
      ends = tt;
      fresh = λ e. refl;
      queue_bound = omega arith;
      pending_bound = v.core.pending_bound;
      known_bound = v.core.known_bound;
      rest_bound = v.core.rest_bound;
      ws_bound = v.core.ws_bound;
      seen = v.core.seen;
      keyed = v.core.keyed;
      covered = v.core.covered;
    };
    held = v.held;
  }

  on_ws_kline-IsSound : (c : ClosedKline fl) (s : Bars fl) → IsSound s → IsSound (on_ws_kline c s).1
  unfolding on_ws_kline
  on_ws_kline-IsSound c s v =
      with_candidates s s.rest_candidates
        (evict s.buffer_size (insert c.close_time_ms c s.ws_candidates)) s.bar_sources v v.core.seen
        v.core.rest_bound (length-evict-le s.buffer_size (insert c.close_time_ms c s.ws_candidates))

  acknowledge-IsSound :
      (count : ℤ) (s : Bars fl) → IsSound s → IsSound (acked (acknowledge count s) s)
  unfolding acknowledge
  acknowledge-IsSound (negsuc n) s v = v
  acknowledge-IsSound (pos n) s v = elim (Bool-cases (ltb (length s.closed) n)) [
    | inl over ↦ rw over v
    | inr fits ↦ rw fits (with_closed s n v)
  ]

  step-IsSound : (e : Event fl) (s : Bars fl) → IsSound s → IsSound (step e s)
  unfolding step
  step-IsSound (Event.observed now upper raw src) s v = observe_rest-IsSound now upper raw src s v
  step-IsSound (Event.ws_closed c) s v = on_ws_kline-IsSound c s v
  step-IsSound (Event.acknowledged count) s v = acknowledge-IsSound count s v
  step-IsSound Event.drained s v = drain-IsSound s v

  live-IsSound : (es : List (Event fl)) (s : Bars fl) → IsSound s → IsSound (live es s)
  unfolding live
  live-IsSound [] s v = v
  live-IsSound (e ∷ es) s v = live-IsSound es (step e s) (step-IsSound e s v)

  -- A state in which nothing waits to be published, as at the start.
  abbrev pub IsQuiet : Bars fl → Type 0
  IsQuiet s = IsSound s × (s.closed ≡ [])

  restored-IsQuiet :
      (c : ClosedKline fl) (s : Bars fl)
      → IsQuiet s
      → 0 < c.close_time_ms
      → IsQuiet (record (record_known c s) {
        restored_through_ms = c.close_time_ms;
        volume_usd = c.quote_volume;
      })
  unfolding record_known
  restored-IsQuiet c s (v, nothing) p = (
    record {
      core = record {
        positive = v.core.positive;
        contiguous = v.core.contiguous;
        ends = rw nothing tt;
        fresh = λ e. nothing;
        queue_bound = v.core.queue_bound;
        pending_bound = v.core.pending_bound;
        known_bound = length-evict-le s.buffer_size (insert c.close_time_ms c s.known);
        rest_bound = v.core.rest_bound;
        ws_bound = v.core.ws_bound;
        seen = v.core.seen;
        keyed = v.core.keyed;
        covered = v.core.covered;
      };
      held = v.held;
    },
    nothing,
  )

  fail-IsQuiet : (e : Integrity) (s : Bars fl) → IsQuiet s → IsQuiet (fail e s)
  fail-IsQuiet e s (v, nothing) = (fail-IsSound e s v, unfold fail in nothing)

  compare_seen-IsQuiet :
      (seen c : ClosedKline fl) (s : Bars fl) → IsQuiet s → IsQuiet (compare_seen seen c s)
  unfolding compare_seen
  compare_seen-IsQuiet seen c s q = elim (Bool-cases (same_kline seen c)) [
    | inl same ↦ rw same q
    | inr revised ↦ rw revised (fail-IsQuiet Integrity.conflicting_closed_bar s q)
  ]

  -- `restore_closed_kline` of a valid bar that is not known
  restore_unknown-IsQuiet :
      (c : ClosedKline fl) (s : Bars fl)
      → IsQuiet s
      → 0 < c.close_time_ms
      → IsQuiet (restore_unknown c s).1
  unfolding restore_unknown
  restore_unknown-IsQuiet c s q p = elim (Bool-cases back) [
    | inl reordered ↦ rw reordered (fail-IsQuiet Integrity.reordered_closed_bar s q)
    | inr forth ↦ rw forth (elim (Bool-cases gap) [
      | inl skipped ↦ rw skipped (fail-IsQuiet Integrity.gap_in_restored_closed_bars s q)
      | inr next ↦ rw next (restored-IsQuiet c s q p)
    ])
  ]
    where
      back : Bool
      back = not (s.last_close_time_ms == 0) && ltb c.close_time_ms s.last_close_time_ms

      gap : Bool
      gap =
          not (s.last_close_time_ms == 0)
          && not (c.close_time_ms == s.last_close_time_ms + one_minute_ms)

  restore-IsQuiet : (c : ClosedKline fl) (s : Bars fl) → IsQuiet s → IsQuiet (restore c s).1
  unfolding restore
  restore-IsQuiet c s q = elim (Bool-cases refused) [
    | inl stop ↦ rw stop q
    | inr ready ↦ rw ready (go (valid ready) (lookup c.close_time_ms s.known))
  ]
    where
      refused : Bool
      refused = not (valid_closed_kline c) || not (is_none s.integrity_error)

      valid : refused ≡ false → valid_closed_kline c ≡ true
      valid h = ground arith

      go :
          valid_closed_kline c ≡ true
          → (o : Option (ClosedKline fl))
          → IsQuiet
              (elim o as (λ _. Bool × Bars fl) [
                | some seen ↦ (false, compare_seen seen c s)
                | none ↦ restore_unknown c s
              ]).1
      go h (some seen) = compare_seen-IsQuiet seen c s q
      go h none = restore_unknown-IsQuiet c s q (valid_closed_kline-positive c h).0

  restore_all-IsQuiet :
      (cs : List (ClosedKline fl)) (s : Bars fl) → IsQuiet s → IsQuiet (restore_all cs s)
  unfolding restore_all
  restore_all-IsQuiet [] s q = q
  restore_all-IsQuiet (c ∷ cs) s q = restore_all-IsQuiet cs (restore c s).1 (restore-IsQuiet c s q)

  empty_bars-IsQuiet : (size : ℕ) → 0 < size → IsQuiet (empty_bars size)
  unfolding empty_bars
  empty_bars-IsQuiet size p = (
    record {
      core = record {
        positive = p;
        contiguous = tt;
        ends = tt;
        fresh = λ e. refl;
        queue_bound = omega arith;
        pending_bound = omega arith;
        known_bound = omega arith;
        rest_bound = omega arith;
        ws_bound = omega arith;
        seen = tt;
        keyed = tt;
        covered = λ e. cc;
      };
      held = refl;
    },
    refl,
  )

  -- A collector with room for a bar, restored from any bars and then driven by any sequence of
  -- REST observations, WebSocket bars, acknowledgements and drains, is sound: the queue of bars to
  -- publish has no gap and ends at the last bar, every buffer is within its bound, and the symbol
  -- waits for a backfill exactly while bars are held after a gap.
  pub live-IsSound-restored :
      (size : ℕ) (cs : List (ClosedKline fl)) (es : List (Event fl))
      → 0 < size
      → IsSound (live es (restore_all cs (empty_bars size)))
  live-IsSound-restored size cs es p =
      live-IsSound es _ (restore_all-IsQuiet cs _ (empty_bars-IsQuiet size p)).0
