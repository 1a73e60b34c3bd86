-- ===== src/Snapshot/Warm.antt =====
-- kairos_quant/snapshot.py: when the streaming indicators have values.
use kairos_quant_scouts.Prelude.{
  ℕ, suc, ◌+◌, ◌-◌, ◌≤◌, ◌<◌, ◌≡◌, refl, sym, ap, ◌∙◌, min, Bool, true, false, List, [], ◌∷◌,
  Option, none, some, ◌==◌, ltb, leb, ltb→lt, length, if◌then◌else◌, arith, Bool-cases, inl, inr,
}
use kairos_quant_scouts.Floats.{Floats}
use kairos_quant_scouts.Snapshot.Streaming.{
  rsi_period, atr_period, macd_fast_period, macd_slow_period, macd_signal_period, new_ema,
  StreamingIndicators, new_indicators, Candle, push_macd, push_delta, average_delta, rated, rate,
  push_rsi, true_range, push_range, push_change, push, push_all,
}
use kairos_quant_scouts.Snapshot.Averages.{
  has, has-if, below, reached, still, full, IsEma, IsMacd, push_macd-IsMacd,
}

not_ltb : (a b : ℕ) → ltb a b ≡ false → b ≤ a
not_ltb a b h = ground (arith, h)

none_before : (n : ℕ) → ltb 0 n ≡ false → n ≡ 0
none_before n h = ground (arith, h)

some_before : (n : ℕ) → true ≡ ltb 0 (suc n)
some_before n = ground arith

not_yet : (p : ℕ) → 0 < p → leb p 0 ≡ false
not_yet p h = ground (arith, h)

one_more :
    (d e : ℕ)
    → e ≡ min d rsi_period
    → (if ltb e rsi_period then suc e else e) ≡ min (suc d) rsi_period
one_more d e h = elim (Bool-cases (ltb e rsi_period)) [
  | inl p ↦ let less = ltb→lt e rsi_period p in rw p (omega (arith, h, less))
  | inr p ↦ let more = not_ltb e rsi_period p in rw p (omega (arith, h, more))
]

module _ (fl : Floats) where
  open fl use {F}

  -- The relative strength and the true range after `n` closes, of which `n - 1` have a previous one.
  pub record IsChange (n : ℕ) (s : StreamingIndicators fl) : Type 0 where
    pub deltas : s.rsi_deltas ≡ min (n - 1) rsi_period
    pub ranges : s.atr_ranges ≡ min (n - 1) atr_period
    pub range : has s.atr_value ≡ leb atr_period (n - 1)

  pub record IsWarm (n : ℕ) (s : StreamingIndicators fl) : Type 0 where
    pub counted : s.samples ≡ n
    pub macd : IsMacd fl n s
    pub change : IsChange n s
    pub previous : has s.previous_close ≡ ltb 0 n

  -- The averages and the counters after the part of `push` that compares closes.
  abbrev IsRated : StreamingIndicators fl → StreamingIndicators fl → Type 0
  IsRated s t =
      (t.samples ≡ s.samples)
      × (t.fast_ema ≡ s.fast_ema)
      × (t.slow_ema ≡ s.slow_ema)
      × (t.signal_ema ≡ s.signal_ema)

  unmoved : (s : StreamingIndicators fl) → IsRated s s
  unmoved s = (refl, refl, refl, refl)

  -- The counters after a delta.
  abbrev IsDelta : Bool → StreamingIndicators fl → StreamingIndicators fl → Type 0
  IsDelta missing s t =
      IsRated s t
      × (t.rsi_deltas ≡ (if missing then suc s.rsi_deltas else s.rsi_deltas))
      × (t.atr_ranges ≡ s.atr_ranges)
      × (t.atr_value ≡ s.atr_value)

  average_delta-IsDelta :
      (b c : Bool) (g l : F) (s : StreamingIndicators fl) → IsDelta b s (average_delta fl b c g l s)
  unfolding average_delta
  average_delta-IsDelta true true g l s = (unmoved s, refl, refl, refl)
  average_delta-IsDelta true false g l s = (unmoved s, refl, refl, refl)
  average_delta-IsDelta false c g l s = (unmoved s, refl, refl, refl)

  rated-IsDelta :
      (b missing : Bool) (s t : StreamingIndicators fl)
      → IsDelta missing s t
      → IsDelta missing s (rated fl b t)
  unfolding rated
  rated-IsDelta true missing s t h = h
  rated-IsDelta false missing s t h = h

  push_rsi-IsDelta :
      (previous close : F) (s : StreamingIndicators fl)
      → IsDelta (ltb s.rsi_deltas rsi_period) s (push_rsi fl previous close s)
  unfolding push_rsi rate push_delta
  push_rsi-IsDelta previous close s =
      rated-IsDelta _ (ltb s.rsi_deltas rsi_period) s _
        (average_delta-IsDelta (ltb s.rsi_deltas rsi_period) (suc s.rsi_deltas == rsi_period) _ _ s)

  -- The counters of the true range after one more.
  abbrev IsRanged : StreamingIndicators fl → StreamingIndicators fl → Type 0
  IsRanged s t = IsRated s t × (t.rsi_deltas ≡ s.rsi_deltas)

  push_range-counted :
      (r : F) (o : Option F) (d : ℕ) (s : StreamingIndicators fl)
      → has o ≡ leb atr_period d
      → s.atr_ranges ≡ min d atr_period
      → IsRanged s (push_range fl r o s)
        × ((push_range fl r o s).atr_ranges ≡ min (suc d) atr_period)
        × (has (push_range fl r o s).atr_value ≡ leb atr_period (suc d))
  unfolding push_range
  push_range-counted r none d s h k =
      let few : d < atr_period = below atr_period d (sym h) in
      let count : s.atr_ranges ≡ d = omega (arith, k, few) in
      (
        (unmoved s, refl),
        omega (arith, count, few),
        rw count (has-if (suc d == atr_period) _ ∙ reached atr_period d few),
      )
  push_range-counted r (some last) d s h k =
      let past : leb atr_period d ≡ true = sym h in
      ((unmoved s, refl), k ∙ full atr_period d past, sym (still atr_period d past))

  IsRated-trans : (a b c : StreamingIndicators fl) → IsRated a b → IsRated b c → IsRated a c
  IsRated-trans a b c (p, q, r, s) (t, u, v, w) = (t ∙ p, u ∙ q, v ∙ r, w ∙ s)

  push_change-IsChange :
      (n : ℕ) (c : Candle fl) (o : Option F) (s : StreamingIndicators fl)
      → has o ≡ ltb 0 n
      → IsChange n s
      → IsChange (suc n) (push_change fl c o s) × IsRated s (push_change fl c o s)
  unfolding push_change
  push_change-IsChange n c none s h k =
      let same : n - 1 ≡ suc n - 1 = omega (arith, none_before n (sym h)) in
      (
        record {
          deltas = rw (← same) k.deltas;
          ranges = rw (← same) k.ranges;
          range = rw (← same) k.range;
        },
        unmoved s,
      )
  push_change-IsChange n c (some p) s h k =
      let step : suc (n - 1) ≡ suc n - 1 = omega (arith, ltb→lt 0 n (sym h)) in
      let pushed = push_rsi fl p c.close s in
      let (moved, deltas, ranges, range) = push_rsi-IsDelta p c.close s in
      let ((kept, held), counted, valued) =
        push_range-counted (true_range fl p c) pushed.atr_value (n - 1) pushed
          (cc (ap has range, k.range)) (cc (ranges, k.ranges)) in
      let more = one_more (n - 1) s.rsi_deltas k.deltas in
      (
        record {
          deltas = rw (← step) (cc (held, deltas, more));
          ranges = rw (← step) counted;
          range = rw (← step) valued;
        },
        IsRated-trans s pushed (push_range fl (true_range fl p c) pushed.atr_value pushed) moved
            kept,
      )

  pub push-IsWarm :
      (n : ℕ) (c : Candle fl) (s : StreamingIndicators fl)
      → IsWarm n s
      → IsWarm (suc n) (push fl c s)
  unfolding push
  push-IsWarm n c s h =
      let (m, (samples, previous, deltas, ranges, range)) =
        push_macd-IsMacd fl n c.close (record s { samples = suc s.samples })
          (record { fast = h.macd.fast; slow = h.macd.slow; signal = h.macd.signal }) in
      let t = push_macd fl c.close (record s { samples = suc s.samples }) in
      let change : IsChange n t = record {
        deltas = deltas ∙ h.change.deltas;
        ranges = ranges ∙ h.change.ranges;
        range = ap has range ∙ h.change.range;
      } in
      let (changed, (kept, fast, slow, signal)) =
        push_change-IsChange n c t.previous_close t (ap has previous ∙ h.previous) change in
      record {
        counted = kept ∙ samples ∙ ap suc h.counted;
        macd = record { fast = rw fast m.fast; slow = rw slow m.slow; signal = rw signal m.signal };
        change = record { deltas = changed.deltas; ranges = changed.ranges; range = changed.range };
        previous = some_before n;
      }

  new_ema-IsEma : (p : ℕ) → 0 < p → IsEma fl p 0 (new_ema fl p)
  unfolding new_ema
  new_ema-IsEma p h = record { period = refl; counted = omega arith; valued = sym (not_yet p h) }

  pub new_indicators-IsWarm : IsWarm 0 (new_indicators fl)
  unfolding new_indicators
  new_indicators-IsWarm = record {
    counted = refl;
    macd = record {
      fast = new_ema-IsEma macd_fast_period (omega arith);
      slow = new_ema-IsEma macd_slow_period (omega arith);
      signal = new_ema-IsEma macd_signal_period (omega arith);
    };
    change = record { deltas = refl; ranges = refl; range = refl };
    previous = refl;
  }

  push_all-IsWarm-later :
      (cs : List (Candle fl)) (n : ℕ) (s : StreamingIndicators fl)
      → IsWarm n s
      → IsWarm (n + length cs) (push_all fl cs s)
  unfolding push_all
  push_all-IsWarm-later [] n s h = let same : n ≡ n + 0 = omega arith in rw (← same) h
  push_all-IsWarm-later (c ∷ cs) n s h =
      let same : suc n + length cs ≡ n + suc (length cs) = omega arith in
      rw (← same) (push_all-IsWarm-later cs (suc n) (push fl c s) (push-IsWarm n c s h))

  -- The indicators warm up exactly on time, whatever the candles are. After `n` of them the fast and the
  -- slow average have a value from the 12th and the 26th candle on, the signal from the 34th, the true
  -- range from the 15th, and the relative strength has counted all deltas up to 14; an average that has
  -- a value keeps it.
  pub push_all-IsWarm :
      (cs : List (Candle fl)) → IsWarm (length cs) (push_all fl cs (new_indicators fl))
  push_all-IsWarm cs =
      let same : 0 + length cs ≡ length cs = omega arith in
      rw (← same) (push_all-IsWarm-later cs 0 (new_indicators fl) new_indicators-IsWarm)
