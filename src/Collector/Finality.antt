-- ===== src/Collector/Finality.antt =====
-- What makes a bar final in kairos_quant/collectors/binance_ws.py: two equal REST observations, and no
-- contradiction afterwards.
use kairos_quant_scouts.Prelude.{
  ℕ, zero, suc, ◌+◌, ◌-◌, ◌≤◌, ◌<◌, ◌≡◌, refl, Bool, true, false, not, Option, none, some, [], ◌∷◌,
  String, ltb, length, if◌then◌else◌, arith, Bool-cases, inl, inr, ◌⊎◌,
}
use kairos_quant_scouts.Prelude.Int.{ℤ, pos, negsuc}
use kairos_quant_scouts.Prelude.Dict.{Dict, lookup, insert, erase, evict}
use kairos_quant_scouts.Prelude.DictLaws.{length-erase-le, length-evict-le}
use kairos_quant_scouts.Prelude.Dict.{min_key, pop_min_times}
use kairos_quant_scouts.Floats.{Floats}
use kairos_quant_scouts.Collector.Kline.{
  one_minute_ms, ClosedKline, same_kline, valid_closed_kline, RawKline, kline_at, make_closed_kline,
}
use kairos_quant_scouts.Collector.Bars.{
  Bars, Candidate, rest_confirmations_required, Source, conflicting_closed_bar, is_none, remember,
  confirm, seen_again, observe_valid, observe_rest, not_independent,
}
use kairos_quant_scouts.Collector.Sound.{IsSound, AllSeen, append_authoritative-IsSound}

-- A response whose source is not captured.
abbrev pub no_source : Source
no_source = record { source_id = none; received_at_ms = none; requested_at_ms = none }

module _ {fl : Floats} where
  -- A valid bar closes at the last millisecond of a minute, so never at 0.
  pub valid_closed_kline-positive :
      (c : ClosedKline fl)
      → valid_closed_kline c ≡ true
      → (0 < c.close_time_ms) × (c.close_time_ms + 1 ≡ c.open_time_ms + one_minute_ms)
  unfolding valid_closed_kline
  valid_closed_kline-positive c h = ground arith

  make_closed_kline-valid :
      (upper : String → String) (raw : RawKline fl) (c : ClosedKline fl)
      → make_closed_kline upper raw ≡ some c
      → valid_closed_kline c ≡ true
  unfolding make_closed_kline
  make_closed_kline-valid upper raw c h = go raw.open_time_ms raw.close_time_ms h
    where
      branch : ℤ → ℤ → Option (ClosedKline fl)
      branch o k = elim o [
        | negsuc _ ↦ none
        | pos open_time_ms ↦ elim k [
          | negsuc _ ↦ none
          | pos close_time_ms ↦
              let candle = kline_at raw (upper raw.symbol) open_time_ms close_time_ms in
              if valid_closed_kline candle then some candle else none
        ]
      ]

      go : (o k : ℤ) → branch o k ≡ some c → valid_closed_kline c ≡ true
      go (negsuc _) k e = cc
      go (pos o) (negsuc _) e = cc
      go (pos o) (pos k) e =
          elim (Bool-cases (valid_closed_kline (kline_at raw (upper raw.symbol) o k))) [
            | inl valid ↦
                let same : some (kline_at raw (upper raw.symbol) o k) ≡ some c = rw valid at e in
                let bar : kline_at raw (upper raw.symbol) o k ≡ c = cc same in rw bar at valid
            | inr refused ↦ cc (rw refused at e)
          ]

  AllSeen-insert :
      (k : ℕ) (p : Candidate fl) (d : Dict (Candidate fl))
      → 0 < p.confirmations
      → AllSeen d
      → AllSeen (insert k p d)
  AllSeen-insert k p [] h a = (h, tt)
  AllSeen-insert k p (e ∷ d) h a = ground (arith, AllSeen-insert k p d h a.1)

  AllSeen-erase : (k : ℕ) (d : Dict (Candidate fl)) → AllSeen d → AllSeen (erase k d)
  AllSeen-erase k [] a = tt
  AllSeen-erase k (e ∷ d) a = ground (arith, AllSeen-erase k d a.1)

  AllSeen-pop_min_times :
      (n : ℕ) (d : Dict (Candidate fl)) → AllSeen d → AllSeen (pop_min_times n d)
  unfolding pop_min_times
  AllSeen-pop_min_times zero d a = a
  AllSeen-pop_min_times (suc n) [] a = AllSeen-pop_min_times n [] a
  AllSeen-pop_min_times (suc n) ((k, p) ∷ d) a =
      AllSeen-pop_min_times n _ (AllSeen-erase (min_key k d) ((k, p) ∷ d) a)

  AllSeen-evict : (n : ℕ) (d : Dict (Candidate fl)) → AllSeen d → AllSeen (evict n d)
  unfolding evict
  AllSeen-evict n d a = AllSeen-pop_min_times (length d - n) d a

  AllSeen-lookup :
      (k : ℕ) (d : Dict (Candidate fl)) (p : Candidate fl)
      → AllSeen d
      → lookup k d ≡ some p
      → 0 < p.confirmations
  AllSeen-lookup k [] p a e = cc
  AllSeen-lookup k ((j, q) ∷ d) p a e = ground (arith, AllSeen-lookup k d p a.1)

  -- The invariant reads no more of the candidates than their number.
  pub with_candidates :
      (s : Bars fl) (rest : Dict (Candidate fl)) (ws : Dict (ClosedKline fl))
      (sources : Dict ((String × String) × ℕ))
      → IsSound s
      → AllSeen rest
      → length rest ≤ s.buffer_size
      → length ws ≤ s.buffer_size
      → IsSound (record s { rest_candidates = rest; ws_candidates = ws; bar_sources = sources })
  with_candidates s rest ws sources v a p q = record {
    core = record {
      positive = v.core.positive;
      contiguous = v.core.contiguous;
      ends = v.core.ends;
      fresh = v.core.fresh;
      queue_bound = v.core.queue_bound;
      pending_bound = v.core.pending_bound;
      known_bound = v.core.known_bound;
      rest_bound = p;
      ws_bound = q;
      seen = a;
      keyed = v.core.keyed;
      covered = v.core.covered;
    };
    held = v.held;
  }

  remember-IsSound :
      (c : ClosedKline fl) (src : Source) (s : Bars fl) → IsSound s → IsSound (remember c src s)
  unfolding remember
  remember-IsSound c src s v =
      with_candidates s _ s.ws_candidates s.bar_sources v
        (AllSeen-evict s.buffer_size _
          (AllSeen-insert c.close_time_ms _ s.rest_candidates (omega arith) v.core.seen))
        (length-evict-le s.buffer_size (insert c.close_time_ms _ s.rest_candidates)) v.core.ws_bound

  confirm-IsSound :
      (now : fl.F) (c : ClosedKline fl) (p : Candidate fl) (src : Source) (s : Bars fl)
      → IsSound s
      → 0 < c.close_time_ms
      → IsSound (confirm now c p src s).1
  unfolding confirm
  confirm-IsSound now c p src s v q =
      append_authoritative-IsSound now c _
        (with_candidates s _ _ _ v (AllSeen-erase c.close_time_ms s.rest_candidates v.core.seen)
          (omega (arith, length-erase-le c.close_time_ms s.rest_candidates, v.core.rest_bound))
          (omega (arith, length-erase-le c.close_time_ms s.ws_candidates, v.core.ws_bound)))
        q

  -- A candidate that was seen before is confirmed by this observation, or left alone.
  pub seen_again-cases :
      (now : fl.F) (c : ClosedKline fl) (p : Candidate fl) (src : Source) (s : Bars fl)
      → 0 < p.confirmations
      → seen_again now c p src s
        ≡ (if not_independent p src then (false, s) else confirm now c p src s)
  unfolding seen_again
  seen_again-cases now c p src s h =
      let e : ltb (p.confirmations + 1) rest_confirmations_required ≡ false = ground arith in
      rw (e, seen_again)

  seen_again-IsSound :
      (now : fl.F) (c : ClosedKline fl) (p : Candidate fl) (src : Source) (s : Bars fl)
      → IsSound s
      → 0 < p.confirmations
      → 0 < c.close_time_ms
      → IsSound (seen_again now c p src s).1
  seen_again-IsSound now c p src s v h q =
      rw (seen_again-cases now c p src s h) (elim (Bool-cases (not_independent p src)) [
        | inl dependent ↦ rw dependent v
        | inr confirmed ↦ rw confirmed (confirm-IsSound now c p src s v q)
      ])

  observe_valid-IsSound :
      (now : fl.F) (c : ClosedKline fl) (src : Source) (s : Bars fl)
      → IsSound s
      → 0 < c.close_time_ms
      → IsSound (observe_valid now c src s).1
  unfolding observe_valid
  observe_valid-IsSound now c src s v q =
      elim (Bool-cases (not (is_none (lookup c.close_time_ms s.known)))) [
        | inl known ↦ rw known (append_authoritative-IsSound now c s v q)
        | inr unknown ↦ rw unknown (go (lookup c.close_time_ms s.rest_candidates) refl)
      ]
    where
      go :
          (o : Option (Candidate fl))
          → lookup c.close_time_ms s.rest_candidates ≡ o
          → IsSound
              (elim o as (λ _. Bool × Bars fl) [
                | none ↦ (false, remember c src s)
                | some p ↦
                    if same_kline p.candle c
                    then seen_again now c p src s
                    else (false, remember c src s)
              ]).1
      go none e = remember-IsSound c src s v
      go (some p) e = elim (Bool-cases (same_kline p.candle c)) [
        | inl same ↦ rw same (
            seen_again-IsSound now c p src s v
              (AllSeen-lookup c.close_time_ms s.rest_candidates p v.core.seen e) q)
        | inr revised ↦ rw revised (remember-IsSound c src s v)
      ]

  -- A REST observation keeps the invariant, whatever the row holds.
  pub observe_rest-IsSound :
      (now : fl.F) (upper : String → String) (raw : RawKline fl) (src : Source) (s : Bars fl)
      → IsSound s
      → IsSound (observe_rest now upper raw src s).1
  unfolding observe_rest
  observe_rest-IsSound now upper raw src s v = go (make_closed_kline upper raw) refl
    where
      go :
          (o : Option (ClosedKline fl))
          → make_closed_kline upper raw ≡ o
          → IsSound
              (elim o as (λ _. Bool × Bars fl) [
                | none ↦ (false, s)
                | some c ↦
                    if not (is_none s.integrity_error)
                    then (false, s)
                    else observe_valid now c src s
              ]).1
      go none e = v
      go (some c) e = elim (Bool-cases (not (is_none s.integrity_error))) [
        | inl broken ↦ rw broken v
        | inr whole ↦ rw whole (
            observe_valid-IsSound now c src s v
              (valid_closed_kline-positive c (make_closed_kline-valid upper raw c e)).0)
      ]

  pub observe_valid_unconfirmed :
      (now : fl.F) (c : ClosedKline fl) (src : Source) (s : Bars fl)
      → lookup c.close_time_ms s.known ≡ none
      → ((p : Candidate fl)
          → lookup c.close_time_ms s.rest_candidates ≡ some p
          → same_kline p.candle c ≡ false)
      → observe_valid now c src s ≡ (false, remember c src s)
  unfolding observe_valid
  observe_valid_unconfirmed now c src s unknown differs =
      rw unknown (go (lookup c.close_time_ms s.rest_candidates) differs)
    where
      go :
          (o : Option (Candidate fl))
          → ((p : Candidate fl) → o ≡ some p → same_kline p.candle c ≡ false)
          → (elim o as (λ _. Bool × Bars fl) [
            | none ↦ (false, remember c src s)
            | some p ↦
                if same_kline p.candle c
                then seen_again now c p src s
                else (false, remember c src s)
          ])
            ≡ (false, remember c src s)
      go none d = refl
      go (some p) d = rw (d p refl)

  -- What an observation leaves alone that publishes nothing: all but the candidates and the error,
  -- which is set only by other values of a minute that is known.
  pub record IsUnpublished (c : ClosedKline fl) (s t : Bars fl) : Type 0 where
    pub closed : t.closed ≡ s.closed
    pub known : t.known ≡ s.known
    pub pending : t.pending ≡ s.pending
    pub last : t.last_close_time_ms ≡ s.last_close_time_ms
    pub backfill : t.needs_backfill ≡ s.needs_backfill
    pub error :
        (t.integrity_error ≡ s.integrity_error)
        ⊎ ((seen : ClosedKline fl) × (lookup c.close_time_ms s.known ≡ some seen)
            × (same_kline seen c ≡ false)
            × (t.integrity_error ≡ some conflicting_closed_bar))

  -- A minute that is not known has a candidate with the same values, from an independent response.
  abbrev pub IsConfirmedBy : ClosedKline fl → Source → Bars fl → Type 0
  IsConfirmedBy c src s =
      (lookup c.close_time_ms s.known ≡ none)
      × ((p : Candidate fl) × (lookup c.close_time_ms s.rest_candidates ≡ some p)
          × (same_kline p.candle c ≡ true)
          × (not_independent p src ≡ false))
