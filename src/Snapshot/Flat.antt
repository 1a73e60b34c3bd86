-- ===== src/Snapshot/Flat.antt =====
-- kairos_quant/snapshot.py: the history of a symbol after a reset, and the bias of a snapshot.
use kairos_quant_scouts.Prelude.{
  ℕ, suc, ◌+◌, ◌-◌, ◌≤◌, ◌<◌, ◌≡◌, refl, sym, Bool, true, false, List, [], ◌∷◌, ◌++◌, Option, none,
  some, String, str_eq, eq_iff, leb, length, length-append, length-drop, if◌then◌else◌, arith,
}
use kairos_quant_scouts.Prelude.Result.{
  Result, ok, err, ok_injective, bind_ok, Returns, Returns-bind, Returns-bind_any, Returns-then,
  Returns-elim, returned, passed, unless_ok,
}
use kairos_quant_scouts.Floats.{Floats}
use kairos_quant_scouts.OrderBook.{
  normalize_order_book, order_book_imbalance, depth_usd, spread_bps,
}
use kairos_quant_scouts.Bias.{Side, flat}
use kairos_quant_scouts.Snapshot.Streaming.{macd_min_samples, Candle}
use kairos_quant_scouts.Snapshot.Warm.{IsWarm, push-IsWarm, new_indicators-IsWarm}
use kairos_quant_scouts.Snapshot.Builder.{
  SnapshotError, no_symbol, invalid_candle, rejected_contract, book_result, best_of, share_of,
  or_mid, check_inputs, accepted, Names, append_bounded, History, Builder, bad_candle, new_history,
  or_new, extend, symbol_key, push_candle, reset, Inputs, MarketSnapshot, bias_of, build, feed,
}

module _ (fl : Floats) where
  open fl use {F, add, sub, div, of_nat}

  length-append_bounded :
      {A : Type 0} (n : ℕ) (x : A) (xs : List A) → length (append_bounded n x xs) ≤ n
  unfolding append_bounded
  length-append_bounded n x xs =
      omega (arith, length-drop (suc (length xs) - n) (xs ++ x ∷ []), length-append xs (x ∷ []))

  -- The history of a symbol after `n` candles since its last reset: none yet, or warm by `n`, its
  -- windows within the bound.
  abbrev pub IsHistory : ℕ → ℕ → Option (History fl) → Type 0
  IsHistory window n none = n ≡ 0
  IsHistory window n (some h) =
      IsWarm fl n h.indicators
      × (length h.highs ≤ window)
      × (length h.lows ≤ window)
      × (length h.closes ≤ window)

  extended :
      (window n : ℕ) (c : Candle fl) (h : History fl)
      → IsWarm fl n h.indicators
      → IsHistory window (suc n) (some (extend fl window c h))
  unfolding extend
  extended window n c h warm = (
    push-IsWarm fl n c h.indicators warm,
    length-append_bounded window c.high h.highs,
    length-append_bounded window c.low h.lows,
    length-append_bounded window c.close h.closes,
  )

  extend-IsHistory :
      (window n : ℕ) (c : Candle fl) (o : Option (History fl))
      → IsHistory window n o
      → IsHistory window (suc n) (some (extend fl window c (or_new fl o)))
  unfolding new_history
  extend-IsHistory window n c none h =
      rw h (extended window 0 c (new_history fl) (new_indicators-IsWarm fl))
  extend-IsHistory window n c (some o) h = extended window n c o h.0

  module _ (names : Names) (symbol : String) where
    key : String
    key = names.normalized symbol

    abbrev IsFed : ℕ → Builder fl → Type 0
    IsFed n b = IsHistory b.window n (b.histories (names.normalized symbol))

    symbol_key_ok : (k : String) → symbol_key fl names symbol ≡ ok k → names.normalized symbol ≡ k
    unfolding symbol_key
    symbol_key_ok k h =
        (unless_ok (str_eq (names.normalized symbol) "") no_symbol (names.normalized symbol) k h).1

    own :
        {A : Type 0} (k : String) (v : Option A) (w : Option A) → (if str_eq k k then v else w) ≡ v
    own k v w = rw ((eq_iff k k).1 refl) refl

    push_candle-IsFed :
        (n : ℕ) (c : Candle fl) (b d : Builder fl)
        → push_candle fl names symbol c b ≡ ok d
        → IsFed n b
        → IsFed (suc n) d
    unfolding push_candle
    push_candle-IsFed n c b d e h =
        let (k, hk, e1) = bind_ok (symbol_key fl names symbol) _ d e in
        let (_, e2) = passed (bad_candle fl c) invalid_candle _ d e1 in
        let same = symbol_key_ok k hk in
        let eq = ok_injective e2 in
        rw (← eq, ← same)
          (rw
            (own (names.normalized symbol)
              (some (extend fl b.window c (or_new fl (b.histories (names.normalized symbol))))) _)
            (extend-IsHistory b.window n c (b.histories (names.normalized symbol)) h))

    feed-IsFed :
        (cs : List (Candle fl)) (n : ℕ) (b d : Builder fl)
        → feed fl names symbol cs b ≡ ok d
        → IsFed n b
        → IsFed (n + length cs) d
    unfolding feed
    feed-IsFed [] n b d e h =
        let eq = ok_injective e in let same : n ≡ n + 0 = omega arith in rw (← eq, ← same) h
    feed-IsFed (c ∷ cs) n b d e h =
        let (next, first, e1) = bind_ok (push_candle fl names symbol c b) _ d e in
        let same : suc n + length cs ≡ n + suc (length cs) = omega arith in
        rw (← same) (feed-IsFed cs (suc n) next d e1 (push_candle-IsFed n c b next first h))

    reset-IsFed : (b d : Builder fl) → reset fl names symbol b ≡ ok d → IsFed 0 d
    unfolding reset
    reset-IsFed b d e =
        let (k, hk, e1) = bind_ok (symbol_key fl names symbol) _ d e in
        let same = symbol_key_ok k hk in
        let eq = ok_injective e1 in
        rw (← eq, ← same)
          (rw (own (names.normalized symbol) none (b.histories (names.normalized symbol))) refl)

    bias_of-flat :
        (n window : ℕ) (o : Option (History fl)) (x : F) (side : Side)
        → IsHistory window n o
        → n < macd_min_samples
        → bias_of fl o x ≡ ok side
        → side ≡ flat
    unfolding bias_of
    bias_of-flat n window none x side h few e = sym (ok_injective e)
    bias_of-flat n window (some o) x side h few e =
        let count : o.indicators.samples ≡ n = h.0.counted in
        go (leb macd_min_samples o.indicators.samples) _ (early n o.indicators.samples count few) e
      where
        early : (n m : ℕ) → m ≡ n → n < macd_min_samples → leb macd_min_samples m ≡ false
        early n m p q = ground (arith, p, q)

        go :
            (b : Bool) (r : Result SnapshotError Side)
            → b ≡ false
            → (if b then r else ok flat) ≡ ok side
            → side ≡ flat
        go true r p k = cc
        go false r p k = sym (ok_injective k)

    -- The bias that a snapshot carries is that of its symbol's history.
    abbrev IsBiased : Builder fl → MarketSnapshot fl → Type 0
    IsBiased b m =
        (x : F) × (bias_of fl (b.histories (names.normalized symbol)) x ≡ ok m.quant_bias)

    accepted-Returns :
        (Q : MarketSnapshot fl → Type 0) (accepts : MarketSnapshot fl → Bool)
        (m : MarketSnapshot fl)
        → Q m
        → Returns Q (accepted fl accepts m)
    accepted-Returns Q accepts m h = go (accepts m)
      where
        go : (c : Bool) → Returns Q (if c then ok m else err rejected_contract)
        go true = h
        go false = tt

    keyed : Returns (λ k. names.normalized symbol ≡ k) (symbol_key fl names symbol)
    unfolding symbol_key
    keyed = go (str_eq (names.normalized symbol) "")
      where
        go :
            (c : Bool)
            → Returns
                (λ k. names.normalized symbol ≡ k)
                (if c then err no_symbol else ok (names.normalized symbol))
        go true = tt
        go false = refl

    build-IsBiased :
        (accepts : MarketSnapshot fl → Bool) (b : Builder fl) (i : Inputs fl)
        → Returns (IsBiased b) (build fl names accepts b symbol i)
    unfolding build
    build-IsBiased accepts b i =
        let Q = IsBiased b in
        Returns-bind (λ k. names.normalized symbol ≡ k) Q (symbol_key fl names symbol) _ keyed
          (λ k same.
            Returns-bind_any Q (book_result (normalize_order_book fl i.bids i.asks)) _ (λ sides.
              Returns-bind_any Q (best_of fl sides.0) _ (λ bid.
                Returns-bind_any Q (best_of fl sides.1) _ (λ ask.
                  Returns-then Q (check_inputs fl names i) _ (
                    Returns-bind_any Q (share_of fl (b.histories k)) _ (λ share.
                      Returns-bind_any Q
                        (book_result (order_book_imbalance fl sides.0 sides.1 b.depth_levels)) _
                        (λ x.
                          Returns-bind (λ side. bias_of fl (b.histories k) x ≡ ok side) Q
                            (bias_of fl (b.histories k) x) _
                            (returned (bias_of fl (b.histories k) x))
                            (λ side hs.
                              let mid = add bid (div (sub ask bid) (of_nat 2)) in
                              Returns-bind_any Q
                                (book_result
                                  (spread_bps fl (or_mid fl bid mid) (or_mid fl ask mid)))
                                _
                                (λ spread.
                                  Returns-bind_any Q
                                    (book_result (depth_usd fl sides.0 sides.1 b.depth_levels)) _
                                    (λ depth. accepted-Returns Q accepts _ (x, rw same hs)))))))))))

    -- No snapshot has a direction before its indicators are warm. After a reset of a symbol and `n`
    -- candles that were all accepted, the windows of the symbol are within their bound and its
    -- indicators are warm by exactly those `n`; and with fewer than 34 of them, every snapshot that
    -- is built is FLAT, whatever the book.
    pub build-flat :
        (accepts : MarketSnapshot fl → Bool) (b c d : Builder fl) (cs : List (Candle fl))
        (i : Inputs fl) (m : MarketSnapshot fl)
        → reset fl names symbol b ≡ ok c
        → feed fl names symbol cs c ≡ ok d
        → build fl names accepts d symbol i ≡ ok m
        → IsHistory d.window (length cs) (d.histories (names.normalized symbol))
          × (length cs < macd_min_samples → m.quant_bias ≡ flat)
    build-flat accepts b c d cs i m cleared fed built =
        let start : 0 + length cs ≡ length cs = omega arith in
        let history : IsFed (length cs) d =
          rw (← start) (feed-IsFed cs 0 c d fed (reset-IsFed b c cleared)) in
        let (x, bias) =
          Returns-elim (IsBiased d) (build fl names accepts d symbol i) m built
            (build-IsBiased accepts d i) in
        (
          history,
          λ few.
              bias_of-flat (length cs) d.window (d.histories (names.normalized symbol)) x
                m.quant_bias history few bias,
        )
