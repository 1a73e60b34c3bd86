-- ===== src/Collector/Publish.antt =====
-- How a bar of kairos_quant/collectors/binance_ws.py is published: its first REST observation is
-- remembered, and the second one, with the same values, appends it.
use kairos_quant_scouts.Prelude.{
  ◌+◌, ◌<◌, ◌≡◌, refl, Bool, true, false, not, ◌&&◌, Option, none, some, [], ◌∷◌, ◌++◌, ltb, leb,
  ◌==◌, length, keep_last, if◌then◌else◌, arith, ap, ◌∙◌,
}
use kairos_quant_scouts.Prelude.Dict.{lookup, insert, erase}
use kairos_quant_scouts.Prelude.DictLaws.{length-insert-le, evict_within, lookup-insert_self}
use kairos_quant_scouts.Floats.{Floats}
use kairos_quant_scouts.Collector.Kline.{one_minute_ms, ClosedKline, same_kline}
use kairos_quant_scouts.Collector.Bars.{
  Bars, Candidate, Source, Integrity, promote, append_authoritative, append_unknown, append_new,
  advance, settle, compare_seen, not_independent, lineage, remember, confirm, seen_again,
  observe_valid, is_stream_safe,
}
use kairos_quant_scouts.Collector.Finality.{observe_valid_unconfirmed, seen_again-cases}

module _ {fl : Floats} where
  advance_alone :
      (now : fl.F) (c : ClosedKline fl) (s : Bars fl)
      → s.pending ≡ []
      → advance now c s ≡ settle (promote now c s)
  unfolding advance
  advance_alone now c s empty = rw empty

  append_new_next :
      (now : fl.F) (c : ClosedKline fl) (s : Bars fl)
      → s.pending ≡ []
      → c.close_time_ms ≡ s.last_close_time_ms + one_minute_ms
      → append_new now c s ≡ (true, settle (promote now c s))
  unfolding append_new
  append_new_next now c s empty next = rw (no_gap, advance_alone now c s empty)
    where
      no_gap :
          (not (s.last_close_time_ms == 0)
            && not (c.close_time_ms == s.last_close_time_ms + one_minute_ms))
          ≡ false
      no_gap = ground arith

  append_unknown_next :
      (now : fl.F) (c : ClosedKline fl) (s : Bars fl)
      → s.pending ≡ []
      → s.restored_through_ms < c.close_time_ms
      → c.close_time_ms ≡ s.last_close_time_ms + one_minute_ms
      → append_unknown now c s ≡ (true, settle (promote now c s))
  unfolding append_unknown
  append_unknown_next now c s empty live next =
      rw (old, forth) (go (lookup c.close_time_ms s.pending) (rw empty))
    where
      old : leb c.close_time_ms s.restored_through_ms ≡ false
      old = ground arith

      forth : (not (s.last_close_time_ms == 0) && ltb c.close_time_ms s.last_close_time_ms) ≡ false
      forth = ground arith

      go :
          (o : Option (ClosedKline fl))
          → o ≡ none
          → (elim o as (λ _. Bool × Bars fl) [
            | some held ↦ (false, compare_seen held c s)
            | none ↦ append_new now c s
          ])
            ≡ (true, settle (promote now c s))
      go none e = append_new_next now c s empty next
      go (some x) e = cc

  -- The next minute, with nothing held, is promoted.
  append_next :
      (now : fl.F) (c : ClosedKline fl) (s : Bars fl)
      → s.integrity_error ≡ none
      → s.pending ≡ []
      → lookup c.close_time_ms s.known ≡ none
      → s.restored_through_ms < c.close_time_ms
      → c.close_time_ms ≡ s.last_close_time_ms + one_minute_ms
      → append_authoritative now c s ≡ (true, settle (promote now c s))
  unfolding append_authoritative
  append_next now c s whole empty unknown live next =
      go s.integrity_error (lookup c.close_time_ms s.known) whole unknown
    where
      go :
          (e : Option Integrity) (o : Option (ClosedKline fl))
          → e ≡ none
          → o ≡ none
          → (elim e as (λ _. Bool × Bars fl) [
            | some _ ↦ (false, s)
            | none ↦ elim o as (λ _. Bool × Bars fl) [
              | some seen ↦ (false, compare_seen seen c s)
              | none ↦ append_unknown now c s
            ]
          ])
            ≡ (true, settle (promote now c s))
      go none none p q = append_unknown_next now c s empty live next
      go none (some x) p q = cc
      go (some x) o p q = cc

  -- An equal and independent observation confirms.
  observe_valid_confirmed :
      (now : fl.F) (c : ClosedKline fl) (p : Candidate fl) (src : Source) (s : Bars fl)
      → lookup c.close_time_ms s.known ≡ none
      → lookup c.close_time_ms s.rest_candidates ≡ some p
      → same_kline p.candle c ≡ true
      → 0 < p.confirmations
      → not_independent p src ≡ false
      → observe_valid now c src s ≡ confirm now c p src s
  unfolding observe_valid
  observe_valid_confirmed now c p src s unknown seen same once independent =
      rw unknown (go (lookup c.close_time_ms s.rest_candidates) seen)
    where
      seen_again-confirms :
          (q : Candidate fl)
          → 0 < q.confirmations
          → not_independent q src ≡ false
          → seen_again now c q src s ≡ confirm now c q src s
      seen_again-confirms q h i =
          seen_again-cases now c q src s h
          ∙ ap (λ b. if b then (false, s) else confirm now c q src s) i

      go :
          (o : Option (Candidate fl))
          → o ≡ some p
          → (elim o as (λ _. Bool × Bars fl) [
            | none ↦ (false, remember c src s)
            | some p ↦
                if same_kline p.candle c
                then seen_again now c p src s
                else (false, remember c src s)
          ])
            ≡ confirm now c p src s
      go none e = cc
      go (some q) e =
          let eq : q ≡ p = cc e in
          let same_q : same_kline q.candle c ≡ true = rw eq same in
          rw same_q (
            seen_again-confirms q (rw eq once) (rw eq independent)
            ∙ ap (λ r. confirm now c r src s) eq)

  -- The candidate of a row that was seen once.
  abbrev pub first_seen : ClosedKline fl → Source → Candidate fl
  first_seen c src = record {
    candle = c;
    confirmations = 1;
    source_id = src.source_id;
    received_at_ms = src.received_at_ms;
    requested_at_ms = src.requested_at_ms;
  }

  remember-lookup :
      (c : ClosedKline fl) (src : Source) (s : Bars fl)
      → length s.rest_candidates < s.buffer_size
      → lookup c.close_time_ms (remember c src s).rest_candidates ≡ some (first_seen c src)
  unfolding remember
  remember-lookup c src s room =
      rw
        (evict_within s.buffer_size (insert c.close_time_ms (first_seen c src) s.rest_candidates) (
          omega
            (arith, room, length-insert-le c.close_time_ms (first_seen c src) s.rest_candidates)))
        (lookup-insert_self c.close_time_ms (first_seen c src) s.rest_candidates)

  -- What is published when the next minute is appended.
  append_next-published :
      (now : fl.F) (c : ClosedKline fl) (s : Bars fl)
      → s.integrity_error ≡ none
      → s.pending ≡ []
      → lookup c.close_time_ms s.known ≡ none
      → s.restored_through_ms < c.close_time_ms
      → c.close_time_ms ≡ s.last_close_time_ms + one_minute_ms
      → let u = append_authoritative now c s in
        (u.0 ≡ true)
        × (u.1.closed ≡ keep_last s.buffer_size (s.closed ++ c ∷ []))
        × (u.1.last_close_time_ms ≡ c.close_time_ms)
        × (is_stream_safe u.1 ≡ true)
  unfolding is_stream_safe
  append_next-published now c s whole empty unknown live next =
      rw (append_next now c s whole empty unknown live next)
        (unfold settle promote in (refl, refl, refl, rw (empty, whole)))

  confirm_next :
      (now : fl.F) (c : ClosedKline fl) (p : Candidate fl) (src : Source) (s : Bars fl)
      → s.integrity_error ≡ none
      → s.pending ≡ []
      → lookup c.close_time_ms s.known ≡ none
      → s.restored_through_ms < c.close_time_ms
      → c.close_time_ms ≡ s.last_close_time_ms + one_minute_ms
      → let u = confirm now c p src s in
        (u.0 ≡ true)
        × (u.1.closed ≡ keep_last s.buffer_size (s.closed ++ c ∷ []))
        × (u.1.last_close_time_ms ≡ c.close_time_ms)
        × (is_stream_safe u.1 ≡ true)
  unfolding confirm
  confirm_next now c p src s = append_next-published now c (record s {
    rest_candidates = erase c.close_time_ms s.rest_candidates;
    ws_candidates = erase c.close_time_ms s.ws_candidates;
    bar_sources = elim (lineage p src) [
      | none ↦ s.bar_sources
      | some from ↦ insert c.close_time_ms from s.bar_sources
    ];
  })

  -- A bar of the next minute is published by the second of two equal and independent observations
  -- and not by the first, and the symbol is safe afterwards: if there is no integrity error,
  -- nothing is held, the minute is neither known nor a candidate yet and lies after the restored
  -- bars, the candidates have room for one more, and the bar equals itself.
  pub observe_valid_twice :
      (now later : fl.F) (c : ClosedKline fl) (first second : Source) (s : Bars fl)
      → s.integrity_error ≡ none
      → s.pending ≡ []
      → lookup c.close_time_ms s.known ≡ none
      → lookup c.close_time_ms s.rest_candidates ≡ none
      → length s.rest_candidates < s.buffer_size
      → s.restored_through_ms < c.close_time_ms
      → c.close_time_ms ≡ s.last_close_time_ms + one_minute_ms
      → same_kline c c ≡ true
      → not_independent (first_seen c first) second ≡ false
      → let t = observe_valid now c first s in
        let u = observe_valid later c second t.1 in
        (t.0 ≡ false)
        × (t.1.closed ≡ s.closed)
        × (u.0 ≡ true)
        × (u.1.closed ≡ keep_last s.buffer_size (s.closed ++ c ∷ []))
        × (u.1.last_close_time_ms ≡ c.close_time_ms)
        × (is_stream_safe u.1 ≡ true)
  observe_valid_twice now later c first second s whole empty unknown unseen room live next same
        indep =
      rw
        (
          observe_valid_unconfirmed now c first s unknown (λ p e. cc (unseen, e)),
          observe_valid_confirmed later c (first_seen c first) second (remember c first s)
              (unfold remember in unknown) (remember-lookup c first s room) same (omega arith)
              indep,
        )
        (refl, unfold remember in refl, done.0, done.1, done.2, done.3)
    where
      done :
          let u = confirm later c (first_seen c first) second (remember c first s) in
          (u.0 ≡ true)
          × (u.1.closed ≡ keep_last s.buffer_size (s.closed ++ c ∷ []))
          × (u.1.last_close_time_ms ≡ c.close_time_ms)
          × (is_stream_safe u.1 ≡ true)
      done =
          unfold remember in
          confirm_next later c (first_seen c first) second (remember c first s) whole empty unknown
            live next
