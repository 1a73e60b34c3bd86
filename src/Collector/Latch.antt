-- ===== src/Collector/Latch.antt =====
-- What stops the strategy input of one symbol in kairos_quant/collectors/binance_ws.py: a
-- contradiction, for good, and a gap, until it is filled.
use kairos_quant_scouts.Prelude.{
  ◌+◌, ◌≤◌, ◌<◌, ◌≡◌, refl, Bool, true, false, not, ◌&&◌, Option, none, some, List, [], ◌∷◌, String,
  ltb, leb, ◌==◌, length, length-drop, if◌then◌else◌, arith, Bool-cases, inl, inr, ◌∙◌,
}
use kairos_quant_scouts.Prelude.Int.{ℤ, pos, negsuc}
use kairos_quant_scouts.Prelude.Dict.{lookup}
use kairos_quant_scouts.Floats.{Floats}
use kairos_quant_scouts.Collector.Kline.{one_minute_ms, ClosedKline, RawKline, make_closed_kline}
use kairos_quant_scouts.Collector.Bars.{
  Bars, Source, Integrity, is_none, compare_seen, hold, append_new, append_unknown,
  append_authoritative, observe_valid, observe_rest, on_ws_kline, acknowledge, drain,
  is_stream_safe,
}
use kairos_quant_scouts.Collector.Life.{Event, step, live, acked}

module _ {fl : Floats} where
  -- Nothing is appended from `s` to `t`, and the error stays.
  pub record IsStopped (s t : Bars fl) : Type 0 where
    pub error : t.integrity_error ≡ s.integrity_error
    pub last : t.last_close_time_ms ≡ s.last_close_time_ms
    pub known : t.known ≡ s.known
    pub shorter : length t.closed ≤ length s.closed

  IsStopped-refl : (s : Bars fl) → IsStopped s s
  IsStopped-refl s = record { error = refl; last = refl; known = refl; shorter = omega arith }

  IsStopped-trans : (s t u : Bars fl) → IsStopped s t → IsStopped t u → IsStopped s u
  IsStopped-trans s t u p q = record {
    error = q.error ∙ p.error;
    last = q.last ∙ p.last;
    known = q.known ∙ p.known;
    shorter = omega (arith, p.shorter, q.shorter);
  }

  observe_rest_stopped :
      (now : fl.F) (upper : String → String) (raw : RawKline fl) (src : Source) (s : Bars fl)
      → is_none s.integrity_error ≡ false
      → observe_rest now upper raw src s ≡ (false, s)
  unfolding observe_rest
  observe_rest_stopped now upper raw src s h = go (make_closed_kline upper raw)
    where
      go :
          (o : Option (ClosedKline fl))
          → (elim o as (λ _. Bool × Bars fl) [
            | none ↦ (false, s)
            | some c ↦
                if not (is_none s.integrity_error) then (false, s) else observe_valid now c src s
          ])
            ≡ (false, s)
      go none = refl
      go (some c) = rw h refl

  acknowledge-IsStopped : (count : ℤ) (s : Bars fl) → IsStopped s (acked (acknowledge count s) s)
  unfolding acknowledge
  acknowledge-IsStopped (negsuc n) s = IsStopped-refl s
  acknowledge-IsStopped (pos n) s = elim (Bool-cases (ltb (length s.closed) n)) [
    | inl over ↦ rw over (IsStopped-refl s)
    | inr fits ↦ rw fits (record {
      error = refl;
      last = refl;
      known = refl;
      shorter = omega (arith, length-drop n s.closed);
    })
  ]

  step-IsStopped :
      (e : Event fl) (s : Bars fl) → is_none s.integrity_error ≡ false → IsStopped s (step e s)
  unfolding step
  step-IsStopped (Event.observed now upper raw src) s h =
      same_state (observe_rest now upper raw src s) (observe_rest_stopped now upper raw src s h)
    where
      same_state : (r : Bool × Bars fl) → r ≡ (false, s) → IsStopped s r.1
      same_state r e = rw e (IsStopped-refl s)
  step-IsStopped (Event.ws_closed c) s h =
      unfold on_ws_kline in
      record { error = refl; last = refl; known = refl; shorter = omega arith }
  step-IsStopped (Event.acknowledged count) s h = acknowledge-IsStopped count s
  step-IsStopped Event.drained s h =
      unfold drain in record { error = refl; last = refl; known = refl; shorter = omega arith }

  live-IsStopped :
      (es : List (Event fl)) (s : Bars fl)
      → is_none s.integrity_error ≡ false
      → IsStopped s (live es s)
  unfolding live
  live-IsStopped [] s h = IsStopped-refl s
  live-IsStopped (e ∷ es) s h =
      let once : IsStopped s (step e s) = step-IsStopped e s h in
      IsStopped-trans s (step e s) _ once (live-IsStopped es (step e s) (rw once.error h))

  -- Once a symbol has an integrity error, no sequence of REST observations, WebSocket bars,
  -- acknowledgements and drains clears it, adds a bar to the queue, changes the last or the known
  -- bars, or makes the stream safe again.
  pub live-unsafe :
      (es : List (Event fl)) (s : Bars fl)
      → is_none s.integrity_error ≡ false
      → IsStopped s (live es s) × (is_stream_safe (live es s) ≡ false)
  live-unsafe es s h = (live-IsStopped es s h, unsafe (live es s) (live-IsStopped es s h).error)
    where
      unsafe : (t : Bars fl) → t.integrity_error ≡ s.integrity_error → is_stream_safe t ≡ false
      unsafe t e =
          let broken : is_none t.integrity_error ≡ false = rw e h in
          unfold is_stream_safe in ground (arith, broken)

  pub append_authoritative_gap :
      (now : fl.F) (c : ClosedKline fl) (s : Bars fl)
      → s.integrity_error ≡ none
      → lookup c.close_time_ms s.known ≡ none
      → lookup c.close_time_ms s.pending ≡ none
      → s.restored_through_ms < c.close_time_ms
      → 0 < s.last_close_time_ms
      → s.last_close_time_ms + one_minute_ms < c.close_time_ms
      → let t = append_authoritative now c s in
        (t ≡ (true, hold c s))
        × (t.1.closed ≡ s.closed)
        × (t.1.last_close_time_ms ≡ s.last_close_time_ms)
        × (is_stream_safe t.1 ≡ false)
  unfolding is_stream_safe
  append_authoritative_gap now c s whole unknown free live some_bar after =
      rw held (refl, unfold hold in refl, unfold hold in refl, unfold hold in refl)
    where
      live_bar : leb c.close_time_ms s.restored_through_ms ≡ false
      live_bar = ground arith

      forth : (not (s.last_close_time_ms == 0) && ltb c.close_time_ms s.last_close_time_ms) ≡ false
      forth = ground arith

      gap :
          (not (s.last_close_time_ms == 0)
            && not (c.close_time_ms == s.last_close_time_ms + one_minute_ms))
          ≡ true
      gap = ground arith

      new : append_new now c s ≡ (true, hold c s)
      new = unfold append_new in rw gap refl

      absent :
          (o : Option (ClosedKline fl))
          → o ≡ none
          → (elim o as (λ _. Bool × Bars fl) [
            | some held ↦ (false, compare_seen held c s)
            | none ↦ append_new now c s
          ])
            ≡ (true, hold c s)
      absent none e = new
      absent (some x) e = cc

      unseen : append_unknown now c s ≡ (true, hold c s)
      unseen =
          unfold append_unknown in
          rw (live_bar, forth) (absent (lookup c.close_time_ms s.pending) free)

      go :
          (e : Option Integrity) (o : Option (ClosedKline fl))
          → e ≡ none
          → o ≡ none
          → (elim e as (λ _. Bool × Bars fl) [
            | some _ ↦ (false, s)
            | none ↦ elim o as (λ _. Bool × Bars fl) [
              | some seen ↦ (false, compare_seen seen c s)
              | none ↦ append_unknown now c s
            ]
          ])
            ≡ (true, hold c s)
      go none none p q = unseen
      go none (some x) p q = cc
      go (some x) o p q = cc

      held : append_authoritative now c s ≡ (true, hold c s)
      held =
          unfold append_authoritative in
          go s.integrity_error (lookup c.close_time_ms s.known) whole unknown
