-- ===== src/Replay/Streams.antt =====
-- The moving average over a whole series (kairos_quant/indicators.py) against the streaming one
-- (kairos_quant/snapshot.py).
use kairos_quant_scouts.Prelude.{
  ℕ, ◌+◌, ◌-◌, ◌≤◌, ◌<◌, ◌≡◌, List, [], ◌∷◌, ◌++◌, map, take, drop, Option, some, length,
}
use kairos_quant_scouts.Prelude.Result.{ok}
use kairos_quant_scouts.Floats.{Floats}
use kairos_quant_scouts.Snapshot.Streaming.{StreamingEma, push_ema}
use kairos_quant_scouts.Replay.Series.{Numpy, stable_mean, from_finite, nans}

module _ (fl : Floats) (np : Numpy fl) where
  open fl use {F, add, sub, mul, div, of_nat}

  -- The values of a streaming average after each of the pushes.
  abbrev pub streamed : StreamingEma fl → List F → List (Option F)
  streamed e [] = []
  streamed e (x ∷ xs) = (push_ema fl x e).value ∷ streamed (push_ema fl x e) xs

  -- What an average over a whole series is: missing values, and nothing else, if the series has fewer
  -- values than the period from its first finite one on; otherwise missing values up to the period, the
  -- mean of the first period, and then what a streaming average of that period and that value gives back
  -- as the other values are pushed one by one.
  pub record IsAverage (values : List F) (period : ℕ) (out : List F) : Type 0 where
    pub sized : length out ≡ length values
    pub short : length (from_finite fl np values) < period → out ≡ nans fl np (length values)
    pub long :
        period ≤ length (from_finite fl np values)
        → (mean : F) × (rest : List F) × (stable_mean fl np (take period (from_finite fl np values))
            ≡ ok mean)
          × (out
              ≡ nans fl np (length values - length (from_finite fl np values) + (period - 1))
                ++ mean ∷ rest)
          × ((e : StreamingEma fl)
              → e.period ≡ period
              → e.value ≡ some mean
              → map some rest ≡ streamed e (drop period (from_finite fl np values)))
