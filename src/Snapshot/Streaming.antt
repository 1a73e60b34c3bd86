-- ===== src/Snapshot/Streaming.antt =====
-- kairos_quant/snapshot.py: `_StreamingEma` and `_StreamingIndicators`, with the periods of
-- kairos_quant/indicators.py.
use kairos_quant_scouts.Prelude.{
  ℕ, suc, Bool, true, false, ◌&&◌, List, [], ◌∷◌, Option, none, some, ◌==◌, ltb, if◌then◌else◌,
}
use kairos_quant_scouts.Floats.{Floats}

-- `RSI_PERIOD` and its neighbours
abbrev pub rsi_period : ℕ
rsi_period = 14

abbrev pub atr_period : ℕ
atr_period = 14

abbrev pub macd_fast_period : ℕ
macd_fast_period = 12

abbrev pub macd_slow_period : ℕ
macd_slow_period = 26

abbrev pub macd_signal_period : ℕ
macd_signal_period = 9

abbrev pub macd_min_samples : ℕ
macd_min_samples = 34

module _ (fl : Floats) where
  open fl use {F, less, same, add, sub, mul, div, of_nat, absolute, negate}

  pub record StreamingEma : Type 0 where
    pub period : ℕ
    pub seed_mean : F
    pub seed_count : ℕ
    pub value : Option F

  unfoldable pub new_ema : ℕ → StreamingEma
  new_ema period = record { period = period; seed_mean = of_nat 0; seed_count = 0; value = none }

  -- the seeding branch of `push`
  unfoldable pub seed : F → StreamingEma → StreamingEma
  seed observation e =
      let count = suc e.seed_count in
      let mean = add e.seed_mean (div (sub observation e.seed_mean) (of_nat count)) in
      record e {
        seed_count = count;
        seed_mean = mean;
        value = if count == e.period then some mean else none;
      }

  unfoldable pub smooth : F → F → StreamingEma → StreamingEma
  smooth observation last e =
      let alpha = div (of_nat 2) (add (of_nat e.period) (of_nat 1)) in
      record e { value = some (add (mul alpha observation) (mul (sub (of_nat 1) alpha) last)) }

  -- `_StreamingEma.push`, whose result is the new `value`
  unfoldable pub push_ema : F → StreamingEma → StreamingEma
  unfolding seed smooth
  push_ema observation e = elim e.value [
    | none ↦ seed observation e
    | some last ↦ smooth observation last e
  ]

  pub record StreamingIndicators : Type 0 where
    pub samples : ℕ
    pub previous_close : Option F
    pub rsi_gain : F
    pub rsi_loss : F
    pub rsi_deltas : ℕ
    pub rsi_value : F
    pub atr_total : F
    pub atr_ranges : ℕ
    pub atr_value : Option F
    pub macd_value : F
    pub macd_signal : F
    pub macd_hist : F
    pub fast_ema : StreamingEma
    pub slow_ema : StreamingEma
    pub signal_ema : StreamingEma

  -- `_StreamingIndicators()`
  unfoldable pub new_indicators : StreamingIndicators
  unfolding new_ema
  new_indicators = record {
    samples = 0;
    previous_close = none;
    rsi_gain = of_nat 0;
    rsi_loss = of_nat 0;
    rsi_deltas = 0;
    rsi_value = of_nat 50;
    atr_total = of_nat 0;
    atr_ranges = 0;
    atr_value = none;
    macd_value = of_nat 0;
    macd_signal = of_nat 0;
    macd_hist = of_nat 0;
    fast_ema = new_ema macd_fast_period;
    slow_ema = new_ema macd_slow_period;
    signal_ema = new_ema macd_signal_period;
  }

  pub record Candle : Type 0 where
    pub high : F
    pub low : F
    pub close : F

  -- `max(a, b)` of Python, which keeps `a` unless `b` is greater
  abbrev pub maximum : F → F → F
  maximum a b = if less a b then b else a

  -- the signal of `push`, once both averages have a value
  unfoldable pub signalled : F → Option F → StreamingIndicators → StreamingIndicators
  signalled macd none s = s
  signalled macd (some signal) s = record s {
    macd_value = macd;
    macd_signal = signal;
    macd_hist = sub macd signal;
  }

  unfoldable pub push_signal : Option F → Option F → StreamingIndicators → StreamingIndicators
  unfolding push_ema signalled
  push_signal (some fast) (some slow) s =
      let macd = sub fast slow in
      let signal_ema = push_ema macd s.signal_ema in
      signalled macd signal_ema.value (record s { signal_ema = signal_ema })
  push_signal _ _ s = s

  unfoldable pub push_macd : F → StreamingIndicators → StreamingIndicators
  unfolding push_ema push_signal
  push_macd close s =
      let fast = push_ema close s.fast_ema in
      let slow = push_ema close s.slow_ema in
      push_signal fast.value slow.value (record s { fast_ema = fast; slow_ema = slow })

  -- the averages of the gains and losses, by whether deltas are still missing and whether this is the
  -- last of them: summed up to the period, divided there, smoothed after it
  unfoldable pub average_delta : Bool → Bool → F → F → StreamingIndicators → StreamingIndicators
  average_delta true true gain loss s = record s {
    rsi_gain = div (add s.rsi_gain gain) (of_nat rsi_period);
    rsi_loss = div (add s.rsi_loss loss) (of_nat rsi_period);
    rsi_deltas = suc s.rsi_deltas;
  }
  average_delta true false gain loss s = record s {
    rsi_gain = add s.rsi_gain gain;
    rsi_loss = add s.rsi_loss loss;
    rsi_deltas = suc s.rsi_deltas;
  }
  average_delta false last gain loss s = record s {
    rsi_gain = add s.rsi_gain (div (sub gain s.rsi_gain) (of_nat rsi_period));
    rsi_loss = add s.rsi_loss (div (sub loss s.rsi_loss) (of_nat rsi_period));
  }

  unfoldable pub push_delta : F → F → StreamingIndicators → StreamingIndicators
  unfolding average_delta
  push_delta gain loss s =
      average_delta (ltb s.rsi_deltas rsi_period) (suc s.rsi_deltas == rsi_period) gain loss s

  unfoldable pub rsi_of : F → F → F
  rsi_of gain loss =
      if same gain (of_nat 0) && same loss (of_nat 0)
      then of_nat 50
      else if same loss (of_nat 0)
      then of_nat 100
      else sub (of_nat 100) (div (of_nat 100) (add (of_nat 1) (div gain loss)))

  unfoldable pub rated : Bool → StreamingIndicators → StreamingIndicators
  unfolding rsi_of
  rated true s = record s { rsi_value = rsi_of s.rsi_gain s.rsi_loss }
  rated false s = s

  unfoldable pub rate : StreamingIndicators → StreamingIndicators
  unfolding rated
  rate s = rated (s.rsi_deltas == rsi_period) s

  unfoldable pub push_rsi : F → F → StreamingIndicators → StreamingIndicators
  unfolding push_delta rate
  push_rsi previous close s =
      let delta = sub close previous in
      rate (push_delta (maximum delta (of_nat 0)) (maximum (negate delta) (of_nat 0)) s)

  unfoldable pub true_range : F → Candle → F
  true_range previous c =
      maximum (maximum (sub c.high c.low) (absolute (sub c.high previous)))
        (absolute (sub c.low previous))

  -- the average true range, by whether it has a value
  unfoldable pub push_range : F → Option F → StreamingIndicators → StreamingIndicators
  push_range range none s =
      let total = add s.atr_total range in
      record s {
        atr_total = total;
        atr_ranges = suc s.atr_ranges;
        atr_value =
            if suc s.atr_ranges == atr_period then some (div total (of_nat atr_period)) else none;
      }
  push_range range (some last) s = record s {
    atr_value = some (add last (div (sub range last) (of_nat atr_period)));
  }

  -- the part of `push` that compares with the previous close
  unfoldable pub push_change : Candle → Option F → StreamingIndicators → StreamingIndicators
  unfolding push_rsi true_range push_range
  push_change c none s = s
  push_change c (some previous) s =
      let rated = push_rsi previous c.close s in
      push_range (true_range previous c) rated.atr_value rated

  -- `_StreamingIndicators.push`
  unfoldable pub push : Candle → StreamingIndicators → StreamingIndicators
  unfolding push_macd push_change
  push c s =
      let counted = push_macd c.close (record s { samples = suc s.samples }) in
      let changed = push_change c counted.previous_close counted in
      record changed { previous_close = some c.close }

  unfoldable pub push_all : List Candle → StreamingIndicators → StreamingIndicators
  unfolding push
  push_all [] s = s
  push_all (c ∷ cs) s = push_all cs (push c s)
