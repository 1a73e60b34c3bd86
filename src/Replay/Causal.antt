-- ===== src/Replay/Causal.antt =====
-- kairos_quant/replay.py: the replay has no look-ahead, and is flat before the indicators have values.
use kairos_quant_scouts.Prelude.{
  ℕ, suc, ◌<◌, ◌≡◌, refl, sym, max, Bool, true, false, not, ◌||◌, List, [], ◌∷◌, ◌++◌, take, some,
  String, str_eq, ◌==◌, ltb, length, length-append, if◌then◌else◌, arith,
}
use kairos_quant_scouts.Prelude.Result.{Result, ok, bind_ok, then_ok, passed, ok_injective}
use kairos_quant_scouts.Floats.{Floats}
use kairos_quant_scouts.OrderBook.{sorted}
use kairos_quant_scouts.Bias.{Side, flat}
use kairos_quant_scouts.Snapshot.Streaming.{macd_min_samples}
use kairos_quant_scouts.Replay.Candle.{Candle}
use kairos_quant_scouts.Replay.Series.{Numpy}
use kairos_quant_scouts.Replay.Points.{
  ReplayError, mixed_candles, not_contiguous, bad_warmup, ReplayPoint, opens_before, check_series,
  check_ordered, derived_side, side_at, points, replay_candles,
}

module _ (fl : Floats) (np : Numpy fl) where
  open fl use {F}

  check_series-append :
      (symbol timeframe : String) (p : Candle fl) (xs ys : List (Candle fl)) (u : Unit {0})
      → check_series fl np symbol timeframe p (xs ++ ys) ≡ ok u
      → check_series fl np symbol timeframe p xs ≡ ok tt
  unfolding check_series
  check_series-append symbol timeframe p [] ys u h = refl
  check_series-append symbol timeframe p (c ∷ xs) ys u h =
      let (one, h1) =
        passed (not (str_eq c.symbol symbol) || not (str_eq c.timeframe timeframe)) mixed_candles _
          u h in
      let (next, h2) = passed (not (c.open_time_ms == suc p.close_time_ms)) not_contiguous _ u h1 in
      rw one (rw next (check_series-append symbol timeframe c xs ys u h2))

  check_ordered-append :
      (xs ys : List (Candle fl)) (u : Unit {0})
      → check_ordered fl np (xs ++ ys) ≡ ok u
      → check_ordered fl np xs ≡ ok tt
  unfolding check_ordered
  check_ordered-append [] ys u h = refl
  check_ordered-append (c ∷ xs) ys u h = check_series-append c.symbol c.timeframe c xs ys u h

  points-append :
      (n : ℕ) (seen : List F) (xs ys : List (Candle fl)) (ps : List ReplayPoint)
      → points fl np n seen (xs ++ ys) ≡ ok ps
      → points fl np n seen xs ≡ ok (take (length xs) ps)
  unfolding points
  points-append n seen [] ys ps h = refl
  points-append n seen (c ∷ xs) ys ps h =
      let (side, e, h1) = bind_ok (side_at fl np n (seen ++ c.close ∷ [])) _ ps h in
      let (rest, r, h2) = bind_ok (points fl np n (seen ++ c.close ∷ []) (xs ++ ys)) _ ps h1 in
      let same : record { timestamp_ms = c.close_time_ms; bias = side } ∷ rest ≡ ps =
        ok_injective h2 in
      rw e (rw (points-append n (seen ++ c.close ∷ []) xs ys rest r) (rw (← same) refl))

  -- What the candles of a replay say does not depend on those after them: if a replay of candles
  -- returns, and the candles in the order of their opening times are `early` in that order and then
  -- `later`, the replay of `early` alone returns the first points of it, one for each of `early`.
  pub replay_candles-causal :
      (early later all : List (Candle fl)) (warmup : ℕ) (ps : List ReplayPoint)
      → sorted (opens_before fl np) all ≡ sorted (opens_before fl np) early ++ later
      → replay_candles fl np all (some warmup) ≡ ok ps
      → replay_candles fl np early (some warmup)
        ≡ ok (take (length (sorted (opens_before fl np) early)) ps)
  unfolding replay_candles
  replay_candles-causal early later all warmup ps split h =
      let (positive, h1) = passed (warmup == 0) bad_warmup _ ps h in
      let ((u, checked), h2) =
        then_ok (check_ordered fl np (sorted (opens_before fl np) all)) _ ps h1 in
      rw positive (
        rw (check_ordered-append (sorted (opens_before fl np) early) later u (rw (← split) checked))
          (points-append (max warmup macd_min_samples) [] (sorted (opens_before fl np) early) later
            ps (rw (← split) h2)))

  -- The points `ps` match the candles one for one in time, and a point has no direction where fewer
  -- than `n` closes have been seen; `seen` were before these candles.
  unfoldable pub IsReplay : ℕ → ℕ → List (Candle fl) → List ReplayPoint → Type 0
  IsReplay n seen [] [] = Unit
  IsReplay n seen [] (p ∷ ps) = ⊥
  IsReplay n seen (c ∷ cs) [] = ⊥
  IsReplay n seen (c ∷ cs) (p ∷ ps) =
      (p.timestamp_ms ≡ c.close_time_ms)
      × (suc seen < n → p.bias ≡ flat)
      × IsReplay n (suc seen) cs ps

  side_at-flat :
      (n : ℕ) (closes : List F) (side : Side)
      → side_at fl np n closes ≡ ok side
      → length closes < n
      → side ≡ flat
  unfolding side_at
  side_at-flat n closes side h few =
      let early : ltb (length closes) n ≡ true = ground (arith, few) in
      go (ltb (length closes) n) (derived_side fl np closes) early h
    where
      go :
          (b : Bool) (r : Result ReplayError Side)
          → b ≡ true
          → (if b then ok flat else r) ≡ ok side
          → side ≡ flat
      go true r p e = sym (ok_injective e)
      go false r p e = cc

  points-IsReplay :
      (n m : ℕ) (seen : List F) (cs : List (Candle fl)) (ps : List ReplayPoint)
      → length seen ≡ m
      → points fl np n seen cs ≡ ok ps
      → IsReplay n m cs ps
  unfolding points IsReplay
  points-IsReplay n m seen [] [] l h = tt
  points-IsReplay n m seen [] (p ∷ ps) l h = cc
  points-IsReplay n m seen (c ∷ cs) ps l h =
      let (side, e, h1) = bind_ok (side_at fl np n (seen ++ c.close ∷ [])) _ ps h in
      let (rest, r, h2) = bind_ok (points fl np n (seen ++ c.close ∷ []) cs) _ ps h1 in
      let more : length (seen ++ c.close ∷ []) ≡ suc m =
        omega (arith, length-append seen (c.close ∷ []), l) in
      let same : record { timestamp_ms = c.close_time_ms; bias = side } ∷ rest ≡ ps =
        ok_injective h2 in
      rw (← same) (
        refl,
        (λ few. side_at-flat n (seen ++ c.close ∷ []) side e (omega (arith, few, more))),
        points-IsReplay n (suc m) (seen ++ c.close ∷ []) cs rest more r,
      )

  -- A replay that returns has one point for each candle, in the order of their opening times and at
  -- its closing time, and no point has a direction before the 34th candle or the warm-up that was
  -- asked for.
  pub replay_candles-IsReplay :
      (candles : List (Candle fl)) (warmup : ℕ) (ps : List ReplayPoint)
      → replay_candles fl np candles (some warmup) ≡ ok ps
      → IsReplay (max warmup macd_min_samples) 0 (sorted (opens_before fl np) candles) ps
  unfolding replay_candles
  replay_candles-IsReplay candles warmup ps h =
      let (positive, h1) = passed (warmup == 0) bad_warmup _ ps h in
      let ((u, checked), h2) =
        then_ok (check_ordered fl np (sorted (opens_before fl np) candles)) _ ps h1 in
      points-IsReplay (max warmup macd_min_samples) 0 [] (sorted (opens_before fl np) candles) ps
        refl h2
