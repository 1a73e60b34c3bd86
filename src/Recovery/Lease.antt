-- ===== src/Recovery/Lease.antt =====
-- `load_anchor` and `_recover_with_lease` of kairos_quant/long_gap_recovery.py, which
-- kairos_quant/controlled_runtime_data_recovery.py repeats.
use kairos_quant_scouts.Prelude.{
  ℕ, ◌+◌, ◌-◌, ◌*◌, ◌/◌, min, Bool, true, false, not, ◌||◌, Option, none, some, List, [], ◌∷◌,
  String, ltb, ◌==◌, if◌then◌else◌,
}
use kairos_quant_scouts.Prelude.Result.{Result, ok, err}
use kairos_quant_scouts.Prelude.Action.{pure, raise, raise_if, modify, ◌>>=◌, ◌>>◌}
use kairos_quant_scouts.Floats.{Floats}
use kairos_quant_scouts.Collector.Kline.{one_minute_ms}
use kairos_quant_scouts.Recovery.Contract.{Contract, Outside}
use kairos_quant_scouts.Recovery.Status.{
  Phase, RecoveryError, operation_failed, history_not_contiguous, no_anchor,
  deadline_precedes_history, over_budget, State, Recovery, at_phase, entering, confirmed, emit,
}
use kairos_quant_scouts.Recovery.Symbol.{answer, recover_symbol}

-- `SYMBOLS`
abbrev pub recovered_symbols : List String
recovered_symbols = "BTCUSDT" ∷ "ETHUSDT" ∷ "SOLUSDT" ∷ "BNBUSDT" ∷ "XRPUSDT" ∷ []

module _ {fl : Floats} (ct : Contract fl) where
  -- the loop of `load_anchor` over the rows, each validated when its turn comes
  unfoldable pub last_of : Option ct.E → List (Option ct.E) → Result RecoveryError (Option ct.E)
  last_of previous [] = ok previous
  last_of previous (none ∷ rows) = err operation_failed
  last_of none (some e ∷ rows) = last_of (some e) rows
  last_of (some p) (some e ∷ rows) =
      let rest = last_of (some e) rows in
      if not (ct.open_time_ms e == ct.close_time_ms p + 1) then err history_not_contiguous else rest

  -- `sum((end_exclusive - anchor.close_time_ms - 1) // MINUTE ...)`, no anchor being after the end
  unfoldable pub required_bars : ℕ → List ct.E → ℕ
  required_bars end_exclusive [] = 0
  required_bars end_exclusive (a ∷ as_rest) =
      (end_exclusive - (ct.close_time_ms a + 1)) / one_minute_ms
      + required_bars end_exclusive as_rest

  -- `any(anchor.close_time_ms + 1 > end_exclusive ...)`
  unfoldable pub any_after : ℕ → List ct.E → Bool
  any_after end_exclusive [] = false
  any_after end_exclusive (a ∷ others) =
      ltb end_exclusive (ct.close_time_ms a + 1) || any_after end_exclusive others

module _ {fl : Floats} {ct : Contract fl} (out : Outside ct) where
  abbrev pub anchored : Result RecoveryError (Option ct.E) → Recovery out ct.E
  anchored (err x) = raise x
  anchored (ok none) = raise no_anchor
  anchored (ok (some e)) = modify (confirmed out e false) >> pure e

  -- `await writer.repository.pool.fetch(...)`
  unfoldable pub fetch_rows : String → Recovery out (List (Option ct.E))
  fetch_rows symbol s = answer out (out.rows symbol s.world) s

  -- `load_anchor`
  unfoldable pub load_anchor : String → Recovery out ct.E
  unfolding at_phase confirmed fetch_rows last_of
  load_anchor symbol = do
    entering out Phase.restore_read (some symbol) none none
    rows ← fetch_rows symbol
    entering out Phase.restore_validate (some symbol) none none
    anchored (last_of ct none rows)

  unfoldable pub load_anchors : List String → Recovery out (List ct.E)
  unfolding load_anchor
  load_anchors [] = pure []
  load_anchors (symbol ∷ symbols) = do
    anchor ← load_anchor symbol
    anchors ← load_anchors symbols
    pure (anchor ∷ anchors)

  -- the loop over the anchors, with `append_limit`; `recover_symbol`'s page size is its default
  unfoldable pub recover_all : ℕ → ℕ → List ct.E → Recovery out (Unit {0})
  unfolding recover_symbol
  recover_all append_limit end_exclusive [] s = (ok tt, s)
  recover_all append_limit end_exclusive (anchor ∷ anchors) s =
      let available = append_limit - s.status.total_appended_bars in
      elim (available == 0) [
        | true ↦ (ok tt, s)
        | false ↦
            (recover_symbol out anchor
                  (min end_exclusive (ct.close_time_ms anchor + 1 + available * one_minute_ms)) 200
                >> recover_all append_limit end_exclusive anchors)
              s
      ]

  abbrev pub limit_of : ℕ → Option ℕ → ℕ
  limit_of maximum_bars none = maximum_bars
  limit_of maximum_bars (some limit) = limit

  -- `_recover_with_lease`
  unfoldable pub recover_with_lease : ℕ → ℕ → Option ℕ → Recovery out (Unit {0})
  unfolding load_anchors required_bars any_after recover_all at_phase emit
  recover_with_lease end_exclusive maximum_bars maximum_append_bars = do
    anchors ← load_anchors recovered_symbols
    entering out Phase.validate_budget none none none
    raise_if (any_after ct end_exclusive anchors) deadline_precedes_history
    modify (λ s. record s {
      status = record s.status {
        planned_remaining_bars = some (required_bars ct end_exclusive anchors);
      };
    })
    raise_if (ltb maximum_bars (required_bars ct end_exclusive anchors)) over_budget
    modify (emit out State.progress none)
    entering out Phase.rest_session_open none none none
    recover_all (limit_of maximum_bars maximum_append_bars) end_exclusive anchors
    entering out Phase.rest_session_close none none none
