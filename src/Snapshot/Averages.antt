-- ===== src/Snapshot/Averages.antt =====
-- kairos_quant/snapshot.py: when the three streaming averages have values.
use kairos_quant_scouts.Prelude.{
  ℕ, suc, ◌-◌, ◌≤◌, ◌<◌, ◌≡◌, refl, sym, ap, ◌∙◌, min, Bool, true, false, Option, none, some, ◌==◌,
  leb, if◌then◌else◌, arith,
}
use kairos_quant_scouts.Floats.{Floats}
use kairos_quant_scouts.Snapshot.Streaming.{
  macd_fast_period, macd_slow_period, macd_signal_period, StreamingEma, seed, smooth, push_ema,
  StreamingIndicators, signalled, push_signal, push_macd,
}

abbrev pub has : {A : Type 0} → Option A → Bool
has none = false
has (some _) = true

pub has-if : {A : Type 0} (b : Bool) (m : A) → has (if b then some m else none) ≡ b
has-if true m = refl
has-if false m = refl

pub below : (p k : ℕ) → leb p k ≡ false → k < p
below p k h = ground (arith, h)

pub reached : (p k : ℕ) → k < p → (suc k == p) ≡ leb p (suc k)
reached p k h = ground (arith, h)

pub still : (p k : ℕ) → leb p k ≡ true → leb p (suc k) ≡ true
still p k h = ground (arith, h)

pub full : (p k : ℕ) → leb p k ≡ true → min k p ≡ min (suc k) p
full p k h = let le : p ≤ k = ground (arith, h) in omega (arith, le)

pub late : (p k : ℕ) → leb p k ≡ true → p ≤ k
late p k h = ground (arith, h)

module _ (fl : Floats) where
  open fl use {F, sub}

  -- An average of period `p` after `k` observations: it has a value from the `p`-th on.
  pub record IsEma (p k : ℕ) (e : StreamingEma fl) : Type 0 where
    pub period : e.period ≡ p
    pub counted : e.seed_count ≡ min k p
    pub valued : has e.value ≡ leb p k

  pub seeded :
      (p k : ℕ) (x : F) (e : StreamingEma fl)
      → has e.value ≡ false
      → IsEma p k e
      → IsEma p (suc k) (seed fl x e)
  unfolding seed
  seeded p k x e off h =
      let few : k < p = below p k (cc (off, h.valued)) in
      let count : e.seed_count ≡ k = omega (arith, h.counted, few) in
      record {
        period = h.period;
        counted = omega (arith, count, few);
        valued = rw (count, h.period) (has-if (suc k == p) _ ∙ reached p k few);
      }

  pub smoothed :
      (p k : ℕ) (x last : F) (e : StreamingEma fl)
      → has e.value ≡ true
      → IsEma p k e
      → IsEma p (suc k) (smooth fl x last e)
  unfolding smooth
  smoothed p k x last e on h =
      let past : leb p k ≡ true = cc (on, h.valued) in
      record {
        period = h.period;
        counted = h.counted ∙ full p k past;
        valued = sym (still p k past);
      }

  pub push_ema-IsEma :
      (p k : ℕ) (x : F) (e : StreamingEma fl) → IsEma p k e → IsEma p (suc k) (push_ema fl x e)
  unfolding push_ema
  push_ema-IsEma p k x e h = go e.value refl
    where
      go :
          (o : Option F)
          → e.value ≡ o
          → IsEma p (suc k) (elim o as (λ _. StreamingEma fl) [
            | none ↦ seed fl x e
            | some last ↦ smooth fl x last e
          ])
      go none q = seeded p k x e (ap has q) h
      go (some last) q = smoothed p k x last e (ap has q) h

  -- The three averages after `n` closes.
  pub record IsMacd (n : ℕ) (s : StreamingIndicators fl) : Type 0 where
    pub fast : IsEma macd_fast_period n s.fast_ema
    pub slow : IsEma macd_slow_period n s.slow_ema
    pub signal : IsEma macd_signal_period (n - 25) s.signal_ema

  -- What `push_macd` leaves alone.
  abbrev pub IsSame : StreamingIndicators fl → StreamingIndicators fl → Type 0
  IsSame s t =
      (t.samples ≡ s.samples)
      × (t.previous_close ≡ s.previous_close)
      × (t.rsi_deltas ≡ s.rsi_deltas)
      × (t.atr_ranges ≡ s.atr_ranges)
      × (t.atr_value ≡ s.atr_value)

  -- The averages of a state after a new signal value.
  pub signalled-Macd :
      (macd : F) (o : Option F) (s : StreamingIndicators fl)
      → (((signalled fl macd o s).fast_ema ≡ s.fast_ema)
          × ((signalled fl macd o s).slow_ema ≡ s.slow_ema)
          × ((signalled fl macd o s).signal_ema ≡ s.signal_ema))
        × IsSame s (signalled fl macd o s)
  unfolding signalled
  signalled-Macd macd none s = ((refl, refl, refl), (refl, refl, refl, refl, refl))
  signalled-Macd macd (some x) s = ((refl, refl, refl), (refl, refl, refl, refl, refl))

  pub early :
      (n : ℕ) (s : StreamingIndicators fl)
      → IsEma macd_fast_period (suc n) s.fast_ema
      → IsEma macd_slow_period (suc n) s.slow_ema
      → IsEma macd_signal_period (n - 25) s.signal_ema
      → n < 25
      → IsMacd (suc n) s × IsSame s s
  early n s ef es eg h =
      let same : n - 25 ≡ suc n - 25 = omega (arith, h) in
      (record { fast = ef; slow = es; signal = rw (← same) eg }, (refl, refl, refl, refl, refl))

  pub push_signal-IsMacd :
      (n : ℕ) (fast slow : Option F) (s : StreamingIndicators fl)
      → has fast ≡ leb macd_fast_period (suc n)
      → has slow ≡ leb macd_slow_period (suc n)
      → IsEma macd_fast_period (suc n) s.fast_ema
      → IsEma macd_slow_period (suc n) s.slow_ema
      → IsEma macd_signal_period (n - 25) s.signal_ema
      → IsMacd (suc n) (push_signal fl fast slow s) × IsSame s (push_signal fl fast slow s)
  unfolding push_signal
  push_signal-IsMacd n (some f) (some l) s hf hs ef es eg =
      let macd = sub f l in
      let average = push_ema fl macd s.signal_ema in
      let moved = push_ema-IsEma macd_signal_period (n - 25) macd s.signal_ema eg in
      let step : suc (n - 25) ≡ suc n - 25 = omega (arith, late 26 (suc n) (sym hs)) in
      let ((f1, f2, f3), same) =
        signalled-Macd macd average.value (record s { signal_ema = average }) in
      (record { fast = rw f1 ef; slow = rw f2 es; signal = rw (f3, ← step) moved }, same)
  push_signal-IsMacd n (some f) none s hf hs ef es eg =
      early n s ef es eg (omega (arith, below 26 (suc n) (sym hs)))
  push_signal-IsMacd n none slow s hf hs ef es eg =
      early n s ef es eg (omega (arith, below 12 (suc n) (sym hf)))

  pub push_macd-IsMacd :
      (n : ℕ) (close : F) (s : StreamingIndicators fl)
      → IsMacd n s
      → IsMacd (suc n) (push_macd fl close s) × IsSame s (push_macd fl close s)
  unfolding push_macd
  push_macd-IsMacd n close s h =
      let fast = push_ema-IsEma macd_fast_period n close s.fast_ema h.fast in
      let slow = push_ema-IsEma macd_slow_period n close s.slow_ema h.slow in
      let (m, same) =
        push_signal-IsMacd n (push_ema fl close s.fast_ema).value
          (push_ema fl close s.slow_ema).value
          (record s {
            fast_ema = push_ema fl close s.fast_ema;
            slow_ema = push_ema fl close s.slow_ema;
          })
          fast.valued slow.valued fast slow h.signal in
      (m, same)
