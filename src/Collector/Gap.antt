-- ===== src/Collector/Gap.antt =====
-- kairos_quant/collectors/binance_ws.py: a bar after a gap waits for the missing one, then follows it.
use kairos_quant_scouts.Prelude.{
  ℕ, ◌+◌, ◌<◌, ◌≡◌, refl, Bool, true, false, not, ◌&&◌, Option, none, some, [], ◌∷◌, ◌++◌, ltb, leb,
  ◌==◌, keep_last, arith, ap, ◌∙◌,
}
use kairos_quant_scouts.Prelude.Dict.{lookup, erase}
use kairos_quant_scouts.Floats.{Floats}
use kairos_quant_scouts.Collector.Kline.{one_minute_ms, ClosedKline}
use kairos_quant_scouts.Collector.Bars.{
  Bars, Integrity, promote, promote_pending, settle, hold, advance, append_new, append_unknown,
  append_authoritative, compare_seen, record_known, is_stream_safe,
}
use kairos_quant_scouts.Collector.Latch.{append_authoritative_gap}

module _ {fl : Floats} where
  -- The state that holds `d` alone.
  abbrev holding : ClosedKline fl → Bars fl → Bars fl
  holding d s = record s { pending = (d.close_time_ms, d) ∷ []; needs_backfill = true }

  hold_first :
      (d : ClosedKline fl) (s : Bars fl)
      → s.pending ≡ []
      → 0 < s.buffer_size
      → hold d s ≡ holding d s
  unfolding hold
  hold_first d s empty room =
      let fits : ltb s.buffer_size 1 ≡ false = ground arith in rw empty (rw fits refl)

  one_round :
      (now : fl.F) (next : ℕ) (d : ClosedKline fl) (s : Bars fl)
      → lookup next s.pending ≡ some d
      → promote_pending now 1 next s ≡ promote now d (record s { pending = erase next s.pending })
  unfolding promote_pending
  one_round now next d s h = go (lookup next s.pending) h
    where
      go :
          (o : Option (ClosedKline fl))
          → o ≡ some d
          → (elim o as (λ _. Bars fl) [
            | none ↦ s
            | some c ↦ promote now c (record s { pending = erase next s.pending })
          ])
            ≡ promote now d (record s { pending = erase next s.pending })
      go none e = cc
      go (some x) e = let eq : x ≡ d = cc e in rw eq refl

  -- The held bar follows the one that was missing.
  followed :
      (now : fl.F) (c d : ClosedKline fl) (s : Bars fl)
      → d.close_time_ms ≡ c.close_time_ms + one_minute_ms
      → advance now c (holding d s)
        ≡ settle (promote now d (record (promote now c (holding d s)) { pending = [] }))
  unfolding advance promote record_known
  followed now c d s next =
      let here : (c.close_time_ms + one_minute_ms == d.close_time_ms) ≡ true = ground arith in
      let found : lookup (c.close_time_ms + one_minute_ms) (promote now c (holding d s)).pending
          ≡ some d =
        rw here refl in
      let gone : erase (c.close_time_ms + one_minute_ms) (promote now c (holding d s)).pending
          ≡ [] =
        rw here refl in
      ap settle (
        one_round now (c.close_time_ms + one_minute_ms) d (promote now c (holding d s)) found
        ∙ ap (λ left. promote now d (record (promote now c (holding d s)) { pending = left })) gone)

  module _ (now : fl.F) (c d : ClosedKline fl) (s : Bars fl) (whole : s.integrity_error ≡ none)
      (unknown : lookup c.close_time_ms s.known ≡ none)
      (live : s.restored_through_ms < c.close_time_ms) (some_bar : 0 < s.last_close_time_ms)
      (next : c.close_time_ms ≡ s.last_close_time_ms + one_minute_ms)
      (after : d.close_time_ms ≡ c.close_time_ms + one_minute_ms) where
    new : append_new now c (holding d s) ≡ (true, advance now c (holding d s))
    unfolding append_new
    new =
        let no_gap : (not (s.last_close_time_ms == 0)
              && not (c.close_time_ms == s.last_close_time_ms + one_minute_ms))
            ≡ false =
          ground arith in
        rw no_gap refl

    absent :
        (o : Option (ClosedKline fl))
        → o ≡ none
        → (elim o as (λ _. Bool × Bars fl) [
          | some held ↦ (false, compare_seen held c (holding d s))
          | none ↦ append_new now c (holding d s)
        ])
          ≡ (true, advance now c (holding d s))
    absent none e = new
    absent (some x) e = cc

    unseen : append_unknown now c (holding d s) ≡ (true, advance now c (holding d s))
    unfolding append_unknown
    unseen =
        let old : leb c.close_time_ms s.restored_through_ms ≡ false = ground arith in
        let forth : (not (s.last_close_time_ms == 0) && ltb c.close_time_ms s.last_close_time_ms)
            ≡ false =
          ground arith in
        let other : (c.close_time_ms == d.close_time_ms) ≡ false = ground arith in
        rw (old, forth) (absent (lookup c.close_time_ms (holding d s).pending) (rw other refl))

    appended : append_authoritative now c (holding d s) ≡ (true, advance now c (holding d s))
    unfolding append_authoritative
    appended = go s.integrity_error (lookup c.close_time_ms s.known) whole unknown
      where
        go :
            (e : Option Integrity) (o : Option (ClosedKline fl))
            → e ≡ none
            → o ≡ none
            → (elim e as (λ _. Bool × Bars fl) [
              | some _ ↦ (false, holding d s)
              | none ↦ elim o as (λ _. Bool × Bars fl) [
                | some seen ↦ (false, compare_seen seen c (holding d s))
                | none ↦ append_unknown now c (holding d s)
              ]
            ])
              ≡ (true, advance now c (holding d s))
        go none none p q = unseen
        go none (some x) p q = cc
        go (some x) o p q = cc

    done :
        (u : Bool × Bars fl)
        → u ≡ (true, settle (promote now d (record (promote now c (holding d s)) { pending = [] })))
        → (u.1.closed
            ≡ keep_last s.buffer_size (keep_last s.buffer_size (s.closed ++ c ∷ []) ++ d ∷ []))
          × (u.1.last_close_time_ms ≡ d.close_time_ms)
          × (u.1.pending ≡ [])
          × (is_stream_safe u.1 ≡ true)
    unfolding settle promote record_known is_stream_safe
    done u e = rw e (refl, refl, refl, rw whole refl)

    -- A bar after a gap of one minute waits, and follows once the missing bar has come. Without an
    -- integrity error, when no bar is held: let `c` be the bar of the minute after the last one, and
    -- `d` that of the minute after `c`, both not known. When `d` comes first, nothing is queued, the
    -- last bar stays and the symbol is not safe; when `c` comes then, `c` and `d` are queued in this
    -- order, `d` is the last bar, no bar is held and the symbol is safe.
    pub append_authoritative_filled :
        lookup d.close_time_ms s.known ≡ none
        → s.pending ≡ []
        → 0 < s.buffer_size
        → let t = append_authoritative now d s in
          let u = append_authoritative now c t.1 in
          ((t.1.closed ≡ s.closed)
            × (t.1.last_close_time_ms ≡ s.last_close_time_ms)
            × (is_stream_safe t.1 ≡ false))
          × ((u.1.closed
                ≡ keep_last s.buffer_size (keep_last s.buffer_size (s.closed ++ c ∷ []) ++ d ∷ []))
              × (u.1.last_close_time_ms ≡ d.close_time_ms)
              × (u.1.pending ≡ [])
              × (is_stream_safe u.1 ≡ true))
    append_authoritative_filled other empty room =
        let (held, queue, last, unsafe) =
          append_authoritative_gap now d s whole other (rw empty refl) (omega (arith, live, after))
            some_bar (omega (arith, next, after)) in
        let waiting : append_authoritative now d s ≡ (true, holding d s) =
          held ∙ ap (λ x. (true, x)) (hold_first d s empty room) in
        let filled : append_authoritative now c (append_authoritative now d s).1 ≡ (
          true,
          settle (promote now d (record (promote now c (holding d s)) { pending = [] })),
        ) =
          ap (λ r. append_authoritative now c r.1) waiting
          ∙ appended
          ∙ ap (λ x. (true, x)) (followed now c d s after) in
        ((queue, last, unsafe), done _ filled)
