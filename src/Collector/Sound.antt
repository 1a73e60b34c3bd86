-- ===== src/Collector/Sound.antt =====
-- The invariant of one symbol's bars (kairos_quant/collectors/binance_ws.py): the queue of bars that
-- wait to be published has no gap, and every buffer is bounded.
use kairos_quant_scouts.Prelude.{
  ℕ, zero, suc, ◌+◌, ◌≤◌, ◌<◌, ◌≡◌, refl, Bool, true, false, not, ◌&&◌, Option, none, some, [], ◌∷◌,
  ◌++◌, ltb, leb, ◌==◌, length, length-keep_last-le, Contiguous, Ends, Contiguous-drop, Ends-drop,
  Ends-append, Contiguous-append, arith, Bool-cases, inl, inr, ◌⊎◌, ◌∙◌,
}
use kairos_quant_scouts.Prelude.Dict.{Dict, lookup, insert, erase, pop_max}
use kairos_quant_scouts.Prelude.DictLaws.{
  length-erase-le, length-erase, length-insert-le, length-pop_max, length-evict-le, Keyed,
  Keyed-lookup, Keyed-insert, Keyed-erase, Keyed-pop_max, insert-ne-nil,
}
use kairos_quant_scouts.Floats.{Floats}
use kairos_quant_scouts.Collector.Kline.{one_minute_ms, ClosedKline}
use kairos_quant_scouts.Collector.Bars.{
  Bars, Candidate, Integrity, is_empty, promote, promote_pending, settle, fail, compare_seen, hold,
  advance, append_new, append_unknown, append_authoritative,
}

module _ {fl : Floats} where
  abbrev pub closes : ClosedKline fl → ℕ
  closes c = c.close_time_ms

  -- Every candidate has been seen at least once.
  abbrev pub AllSeen : Dict (Candidate fl) → Type 0
  AllSeen [] = Unit
  AllSeen ((k, p) ∷ d) = (0 < p.confirmations) × AllSeen d

  -- What holds at every moment, inside a call too.
  pub record IsCore (s : Bars fl) : Type 0 where
    pub positive : 0 < s.buffer_size
    pub contiguous : Contiguous closes one_minute_ms s.closed
    pub ends : Ends closes one_minute_ms s.last_close_time_ms s.closed
    pub fresh : s.last_close_time_ms ≡ 0 → s.closed ≡ []
    pub queue_bound : length s.closed ≤ s.buffer_size
    pub pending_bound : length s.pending ≤ s.buffer_size
    pub known_bound : length s.known ≤ s.buffer_size
    pub rest_bound : length s.rest_candidates ≤ s.buffer_size
    pub ws_bound : length s.ws_candidates ≤ s.buffer_size
    pub seen : AllSeen s.rest_candidates
    pub keyed : Keyed closes s.pending
    pub covered : is_empty s.pending ≡ false → s.needs_backfill ≡ true

  -- Between calls the symbol waits for a backfill exactly while bars are held after a gap.
  pub record IsSound (s : Bars fl) : Type 0 where
    pub core : IsCore s
    pub held : s.needs_backfill ≡ not (is_empty s.pending)

  -- A bar that may be promoted: the next minute, or the first bar of all.
  abbrev pub IsNext : Bars fl → ClosedKline fl → Type 0
  IsNext s c =
      (0 < c.close_time_ms)
      × ((s.last_close_time_ms ≡ 0) ⊎ (c.close_time_ms ≡ s.last_close_time_ms + one_minute_ms))

  appended :
      (s : Bars fl) (c : ClosedKline fl)
      → IsCore s
      → IsNext s c
      → Contiguous closes one_minute_ms (s.closed ++ c ∷ [])
  appended s c v (p, inl e) = rw (v.fresh e) tt
  appended s c v (p, inr e) =
      Contiguous-append closes one_minute_ms s.last_close_time_ms c s.closed v.contiguous v.ends e

  promote-IsCore :
      (now : fl.F) (c : ClosedKline fl) (s : Bars fl)
      → IsCore s
      → IsNext s c
      → IsCore (promote now c s)
  unfolding promote
  promote-IsCore now c s v n = record {
    positive = v.positive;
    contiguous = Contiguous-drop closes one_minute_ms _ (s.closed ++ c ∷ []) (appended s c v n);
    ends =
        Ends-drop closes one_minute_ms _ c.close_time_ms (s.closed ++ c ∷ [])
          (Ends-append closes one_minute_ms c s.closed);
    fresh = λ e. absurd (omega (arith, n.0));
    queue_bound = length-keep_last-le s.buffer_size (s.closed ++ c ∷ []);
    pending_bound = v.pending_bound;
    known_bound = length-evict-le s.buffer_size (insert c.close_time_ms c s.known);
    rest_bound = v.rest_bound;
    ws_bound = v.ws_bound;
    seen = v.seen;
    keyed = v.keyed;
    covered = v.covered;
  }

  pub is_empty-erase :
      (k : ℕ) (d : Dict (ClosedKline fl)) → is_empty (erase k d) ≡ false → is_empty d ≡ false
  is_empty-erase k [] h = h
  is_empty-erase k (e ∷ d) h = refl

  -- Taking a held bar out of the dict.
  release-IsCore :
      (k : ℕ) (s : Bars fl) → IsCore s → IsCore (record s { pending = erase k s.pending })
  release-IsCore k s v = record {
    positive = v.positive;
    contiguous = v.contiguous;
    ends = v.ends;
    fresh = v.fresh;
    queue_bound = v.queue_bound;
    pending_bound = omega (arith, length-erase-le k s.pending, v.pending_bound);
    known_bound = v.known_bound;
    rest_bound = v.rest_bound;
    ws_bound = v.ws_bound;
    seen = v.seen;
    keyed = Keyed-erase closes k s.pending v.keyed;
    covered = λ e. v.covered (is_empty-erase k s.pending e);
  }

  promote_pending-IsCore :
      (now : fl.F) (rounds next : ℕ) (s : Bars fl)
      → IsCore s
      → next ≡ s.last_close_time_ms + one_minute_ms
      → IsCore (promote_pending now rounds next s)
  unfolding promote_pending
  promote_pending-IsCore now zero next s v e = v
  promote_pending-IsCore now (suc rounds) next s v e =
      go (lookup next s.pending) refl (λ n t. promote_pending-IsCore now rounds n t)
    where
      go :
          (o : Option (ClosedKline fl))
          → lookup next s.pending ≡ o
          → ((n : ℕ) (t : Bars fl)
              → IsCore t
              → n ≡ t.last_close_time_ms + one_minute_ms
              → IsCore (promote_pending now rounds n t))
          → IsCore (elim o [
            | none ↦ s
            | some c ↦
                promote_pending now rounds
                  (next + one_minute_ms)
                  (promote now c (record s { pending = erase next s.pending }))
          ])
      go none p ih = v
      go (some c) p ih =
          let at : c.close_time_ms ≡ next = Keyed-lookup closes next s.pending c v.keyed p in
          ih (next + one_minute_ms) (promote now c (record s { pending = erase next s.pending }))
            (promote-IsCore now c (record s { pending = erase next s.pending })
              (release-IsCore next s v) (omega arith, inr (at ∙ e)))
            (unfold promote in omega arith)

  -- If the held bars stand at their closing times and there are as many rounds as held bars, the
  -- loop over them from the minute after the last bar leaves nothing behind: the minute after the
  -- last bar is not held any more.
  pub promote_pending_complete :
      (now : fl.F) (rounds next : ℕ) (s : Bars fl)
      → Keyed closes s.pending
      → next ≡ s.last_close_time_ms + one_minute_ms
      → length s.pending ≤ rounds
      → let t = promote_pending now rounds next s in
        lookup (t.last_close_time_ms + one_minute_ms) t.pending ≡ none
  unfolding promote_pending
  promote_pending_complete now zero next s k e h =
      let none_left : s.pending ≡ [] = no_keys s.pending h in rw none_left
    where
      no_keys : (d : Dict (ClosedKline fl)) → length d ≤ 0 → d ≡ []
      no_keys [] p = refl
      no_keys (x ∷ d) p = absurd (omega arith)
  promote_pending_complete now (suc rounds) next s k e h =
      go (lookup next s.pending) refl (λ n t. promote_pending_complete now rounds n t)
    where
      branch : Option (ClosedKline fl) → Bars fl
      branch o = elim o [
        | none ↦ s
        | some c ↦
            promote_pending now rounds (next + one_minute_ms)
              (promote now c (record s { pending = erase next s.pending }))
      ]

      go :
          (o : Option (ClosedKline fl))
          → lookup next s.pending ≡ o
          → ((n : ℕ) (t : Bars fl)
              → Keyed closes t.pending
              → n ≡ t.last_close_time_ms + one_minute_ms
              → length t.pending ≤ rounds
              → lookup
                  ((promote_pending now rounds n t).last_close_time_ms + one_minute_ms)
                  (promote_pending now rounds n t).pending
                ≡ none)
          → lookup ((branch o).last_close_time_ms + one_minute_ms) (branch o).pending ≡ none
      go none p ih = rw (← e) p
      go (some c) p ih =
          let at : c.close_time_ms ≡ next = Keyed-lookup closes next s.pending c k p in
          ih (next + one_minute_ms) (promote now c (record s { pending = erase next s.pending }))
            (unfold promote in Keyed-erase closes next s.pending k) (unfold promote in omega arith)
            (unfold promote in omega (arith, length-erase next s.pending c p))

  pub fail-IsSound : (e : Integrity) (s : Bars fl) → IsSound s → IsSound (fail e s)
  unfolding fail
  fail-IsSound e s v = record { core = assumption; held = v.held }

  pub compare_seen-IsSound :
      (seen c : ClosedKline fl) (s : Bars fl) → IsSound s → IsSound (compare_seen seen c s)
  unfolding compare_seen
  compare_seen-IsSound seen c s v =
      ground (arith, v, fail-IsSound Integrity.conflicting_closed_bar s v)

  pub settle-IsSound : (s : Bars fl) → IsCore s → IsSound (settle s)
  unfolding settle
  settle-IsSound s v = record { core = core; held = held }
    where
      core : IsCore (settle s)
      core = record {
        positive = v.positive;
        contiguous = v.contiguous;
        ends = v.ends;
        fresh = v.fresh;
        queue_bound = v.queue_bound;
        pending_bound = v.pending_bound;
        known_bound = v.known_bound;
        rest_bound = v.rest_bound;
        ws_bound = v.ws_bound;
        seen = v.seen;
        keyed = v.keyed;
        covered = λ e. rw e (v.covered e);
      }

      held : (settle s).needs_backfill ≡ not (is_empty s.pending)
      held = ground (arith, v.covered)

  not_empty : (d : Dict (ClosedKline fl)) → 0 < length d → is_empty d ≡ false
  not_empty [] h = absurd (omega arith)
  not_empty (e ∷ d) h = refl

  hold-IsSound : (c : ClosedKline fl) (s : Bars fl) → IsSound s → IsSound (hold c s)
  unfolding hold
  hold-IsSound c s v = elim (Bool-cases (ltb s.buffer_size (length held))) [
    | inl over ↦ rw over (
        with_pending (pop_max held)
          (omega (arith, length-pop_max held, length-insert-le c.close_time_ms c s.pending))
          (ground (arith, length-pop_max held))
          (Keyed-pop_max closes held (Keyed-insert closes c s.pending v.core.keyed)))
    | inr fits ↦ rw fits (
        with_pending held (ground arith) (insert-ne-nil c.close_time_ms c s.pending)
          (Keyed-insert closes c s.pending v.core.keyed))
  ]
    where
      held : Dict (ClosedKline fl)
      held = insert c.close_time_ms c s.pending

      with_pending :
          (d : Dict (ClosedKline fl))
          → length d ≤ s.buffer_size
          → 0 < length d
          → Keyed closes d
          → IsSound (record s { pending = d; needs_backfill = true })
      with_pending d bound some_key keyed = record {
        core = record {
          positive = v.core.positive;
          contiguous = v.core.contiguous;
          ends = v.core.ends;
          fresh = v.core.fresh;
          queue_bound = v.core.queue_bound;
          pending_bound = bound;
          known_bound = v.core.known_bound;
          rest_bound = v.core.rest_bound;
          ws_bound = v.core.ws_bound;
          seen = v.core.seen;
          keyed = keyed;
          covered = λ e. refl;
        };
        held = rw (not_empty d some_key);
      }

  advance-IsSound :
      (now : fl.F) (c : ClosedKline fl) (s : Bars fl)
      → IsSound s
      → IsNext s c
      → IsSound (advance now c s)
  unfolding advance
  advance-IsSound now c s v n = settle-IsSound _ (
      promote_pending-IsCore now (length s.pending) (c.close_time_ms + one_minute_ms)
        (promote now c s) (promote-IsCore now c s v.core n) (unfold promote in refl))

  append_new-IsSound :
      (now : fl.F) (c : ClosedKline fl) (s : Bars fl)
      → IsSound s
      → 0 < c.close_time_ms
      → IsSound (append_new now c s).1
  unfolding append_new
  append_new-IsSound now c s v p = elim (Bool-cases gap) [
    | inl held ↦ rw held (hold-IsSound c s v)
    | inr next ↦ rw next (advance-IsSound now c s v (p, ground arith))
  ]
    where
      gap : Bool
      gap =
          not (s.last_close_time_ms == 0)
          && not (c.close_time_ms == s.last_close_time_ms + one_minute_ms)

  append_unknown-IsSound :
      (now : fl.F) (c : ClosedKline fl) (s : Bars fl)
      → IsSound s
      → 0 < c.close_time_ms
      → IsSound (append_unknown now c s).1
  unfolding append_unknown
  append_unknown-IsSound now c s v p =
      elim (Bool-cases (leb c.close_time_ms s.restored_through_ms)) [
        | inl old ↦ rw old v
        | inr live ↦ rw live (elim (Bool-cases reordered) [
          | inl back ↦ rw back (fail-IsSound Integrity.reordered_closed_bar s v)
          | inr forth ↦ rw forth (go (lookup c.close_time_ms s.pending))
        ])
      ]
    where
      reordered : Bool
      reordered = not (s.last_close_time_ms == 0) && ltb c.close_time_ms s.last_close_time_ms

      go :
          (o : Option (ClosedKline fl))
          → IsSound
              (elim o as (λ _. Bool × Bars fl) [
                | some seen ↦ (false, compare_seen seen c s)
                | none ↦ append_new now c s
              ]).1
      go (some seen) = compare_seen-IsSound seen c s v
      go none = append_new-IsSound now c s v p

  -- Offering a final bar keeps the invariant, whatever the bar is.
  pub append_authoritative-IsSound :
      (now : fl.F) (c : ClosedKline fl) (s : Bars fl)
      → IsSound s
      → 0 < c.close_time_ms
      → IsSound (append_authoritative now c s).1
  unfolding append_authoritative
  append_authoritative-IsSound now c s v p = go s.integrity_error (lookup c.close_time_ms s.known)
    where
      go :
          (e : Option Integrity) (o : Option (ClosedKline fl))
          → IsSound
              (elim e as (λ _. Bool × Bars fl) [
                | some _ ↦ (false, s)
                | none ↦ elim o as (λ _. Bool × Bars fl) [
                  | some seen ↦ (false, compare_seen seen c s)
                  | none ↦ append_unknown now c s
                ]
              ]).1
      go (some x) o = v
      go none (some seen) = compare_seen-IsSound seen c s v
      go none none = append_unknown-IsSound now c s v p
