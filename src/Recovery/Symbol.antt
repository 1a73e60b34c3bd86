-- ===== src/Recovery/Symbol.antt =====
-- `recover_symbol` and `load_anchor` of kairos_quant/long_gap_recovery.py.
use kairos_quant_scouts.Prelude.{
  ℕ, zero, suc, ◌+◌, ◌*◌, ◌/◌, ◌%◌, min, Bool, true, false, not, ◌&&◌, ◌||◌, Option, none, some,
  List, [], ◌∷◌, ◌++◌, String, str_eq, ltb, leb, ◌==◌, if◌then◌else◌,
}
use kairos_quant_scouts.Prelude.Result.{Result, ok, err}
use kairos_quant_scouts.Prelude.Action.{pure, raise_if, modify, ◌>>=◌, ◌>>◌}
use kairos_quant_scouts.Floats.{Floats}
use kairos_quant_scouts.Collector.Kline.{one_minute_ms}
use kairos_quant_scouts.Recovery.Contract.{RawPage, Contract, Outside}
use kairos_quant_scouts.Recovery.Status.{
  Phase, RecoveryError, operation_failed, invalid_interval, confirmation_conflict, State, Recovery,
  at_phase, entering, confirmed, emit,
}
use kairos_quant_scouts.Recovery.Page.{parse_page}

module _ {fl : Floats} (ct : Contract fl) where
  -- `first != second`, of tuples
  abbrev pub same_events : List ct.E → List ct.E → Bool
  same_events [] [] = true
  same_events [] (b ∷ bs) = false
  same_events (a ∷ tail) [] = false
  same_events (a ∷ tail) (b ∷ bs) = ct.same a b && same_events tail bs

  -- `first[0].canonical_bar_bytes() != current.canonical_bar_bytes()`; a page has two rows or more
  abbrev pub starts_at : ct.E → List ct.E → Bool
  starts_at current [] = false
  starts_at current (e ∷ es) = str_eq (ct.canonical_bar_bytes e) (ct.canonical_bar_bytes current)

  abbrev pub rest : List ct.E → List ct.E
  rest [] = []
  rest (e ∷ es) = es

module _ {fl : Floats} {ct : Contract fl} (out : Outside ct) where
  abbrev pub answer : {A : Type 0} → Option A × out.W → Recovery out A
  answer (none, w) s = (err operation_failed, record s { world = w })
  answer (some a, w) s = (ok a, record s { world = w })

  -- `await fetch(...)`
  unfoldable pub fetch : String → ℕ → ℕ → Recovery out (RawPage ct.V)
  fetch symbol start end s = answer (out.fetch symbol start end s.world) s

  abbrev pub returned : Bool × out.W → Recovery out (Unit {0})
  returned (b, w) s = (if b then ok tt else err operation_failed, record s { world = w })

  -- `await pause()`
  unfoldable pub pause : Recovery out (Unit {0})
  pause s = returned (out.pause s.world) s

  abbrev pub stored : ct.E → (Bool × Bool) × out.W → Recovery out (Unit {0})
  stored e ((kept, back), w) s = (
    if back then ok tt else err operation_failed,
    record s { published = if kept then s.published ++ e ∷ [] else s.published; world = w },
  )

  -- `await publish(event)`
  unfoldable pub publish : ct.E → Recovery out (Unit {0})
  publish e s = stored e (out.append e s.world) s

  abbrev pub parsed : {A : Type 0} → Result RecoveryError A → Recovery out A
  parsed r s = (r, s)

  -- `for event in first[1:]`, which gives back `current` and `appended`
  unfoldable pub publish_all : List ct.E → ct.E → ℕ → Recovery out (ct.E × ℕ)
  unfolding publish confirmed at_phase
  publish_all [] current appended = pure (current, appended)
  publish_all (e ∷ es) current appended = do
    entering out Phase.durable_publish (some (ct.symbol e)) (some (ct.open_time_ms e))
        (some (ct.close_time_ms e + 1))
    publish e
    modify (confirmed out e true)
    publish_all es e (suc appended)

  -- a page of the window of `current`, and its validation
  unfoldable pub fetch_page : Phase → Phase → ct.E → ℕ → ℕ → Recovery out (List ct.E)
  unfolding fetch parse_page at_phase
  fetch_page get validate current start end = do
    entering out get (some (ct.symbol current)) (some start) (some end)
    raw ← fetch (ct.symbol current) start end
    entering out validate (some (ct.symbol current)) (some start) (some end)
    parsed (parse_page ct raw (ct.symbol current) start end)

  -- the two equal pages of a window
  unfoldable pub confirm_page : ct.E → ℕ → ℕ → Recovery out (List ct.E)
  unfolding fetch_page pause at_phase
  confirm_page current start end = do
    first ← fetch_page Phase.rest_get_first Phase.rest_validate_first current start end
    entering out Phase.confirmation_delay (some (ct.symbol current)) (some start) (some end)
    pause
    second ← fetch_page Phase.rest_get_second Phase.rest_validate_second current start end
    entering out Phase.confirmation_compare (some (ct.symbol current)) (some start) (some end)
    raise_if (not (same_events ct first second) || not (starts_at ct current first))
        confirmation_conflict
    pure first

  -- one round of the loop
  unfoldable pub recover_page : ℕ → ℕ → ct.E → ℕ → Recovery out (ct.E × ℕ)
  unfolding confirm_page publish_all emit at_phase
  recover_page end_exclusive page_size current appended =
      let start = ct.open_time_ms current in
      let end = min end_exclusive (start + page_size * one_minute_ms) in
      do
        first ← confirm_page current start end
        last ← publish_all (rest ct first) current appended
        entering out Phase.page_committed (some (ct.symbol last.0)) (some start) (some end)
        modify (emit out State.progress none)
        pure last

  -- `while current.close_time_ms + 1 < end_exclusive`, with the rounds that are left
  unfoldable pub recover_loop : ℕ → ℕ → ℕ → ct.E → ℕ → Recovery out ℕ
  unfolding recover_page
  recover_loop zero end_exclusive page_size current appended = pure appended
  recover_loop (suc fuel) end_exclusive page_size current appended =
      elim (ltb (ct.close_time_ms current + 1) end_exclusive) [
        | false ↦ pure appended
        | true ↦ do
          last ← recover_page end_exclusive page_size current appended
          recover_loop fuel end_exclusive page_size last.0 last.1
      ]

  -- `recover_symbol`; a window takes the bars of one minute at least, so a round for each minute is
  -- enough
  unfoldable pub recover_symbol : ct.E → ℕ → ℕ → Recovery out ℕ
  unfolding confirmed recover_loop at_phase
  recover_symbol anchor end_exclusive page_size = do
    entering out Phase.validate_interval (some (ct.symbol anchor)) (some (ct.open_time_ms anchor))
        (some end_exclusive)
    raise_if
        (not (leb 2 page_size && leb page_size 200)
          || not (end_exclusive % one_minute_ms == 0)
          || leb end_exclusive (ct.open_time_ms anchor))
        invalid_interval
    modify (confirmed out anchor false)
    recover_loop (suc (end_exclusive / one_minute_ms)) end_exclusive page_size anchor 0
