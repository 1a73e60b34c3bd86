-- ===== src/Bias.antt =====
-- `derive_bias` of kairos_quant/bias.py: a direction from three votes.
use kairos_quant_scouts.Prelude.{
  ℕ, ◌+◌, ◌≤◌, ◌≡◌, refl, Bool, true, false, not, ◌&&◌, ◌||◌, ltb, leb, if◌then◌else◌, arith, ◌↔◌,
}
use kairos_quant_scouts.Prelude.Result.{Result, ok, err}
use kairos_quant_scouts.Floats.{Floats, IsOrdered}

-- `kairos_core.enums.Side`, as far as it is used
pub data Side : Type 0 where
  long short flat : Side

-- `ValueError("invalid bias thresholds")`
pub data BiasError : Type 0 where
  invalid_thresholds : BiasError

-- `sum` of Booleans
abbrev pub vote : Bool → ℕ
vote true = 1
vote false = 0

-- the two majority tests
unfoldable pub decide : ℕ → ℕ → Result BiasError Side
decide longs shorts =
    if leb 2 longs && ltb shorts longs
    then ok long
    else if leb 2 shorts && ltb longs shorts
    then ok short
    else ok flat

module _ (fl : Floats) where
  open fl use {F, finite, less, at_most, sub, of_nat}

  -- What the rule reads, and its thresholds.
  pub record Rule : Type 0 where
    pub rsi_14 : F
    pub macd_hist : F
    pub ob_imbalance : F
    pub rsi_high : F
    pub rsi_low : F
    pub imb_thr : F

  abbrev pub negative : F → F
  negative a = sub (of_nat 0) a

  unfoldable pub valid_thresholds : Rule → Bool
  valid_thresholds r =
      at_most (of_nat 0) r.rsi_low
      && less r.rsi_low r.rsi_high
      && at_most r.rsi_high (of_nat 100)
      && at_most (of_nat 0) r.imb_thr
      && at_most r.imb_thr (of_nat 1)

  unfoldable pub usable : Rule → Bool
  usable r =
      finite r.rsi_14
      && finite r.macd_hist
      && finite r.ob_imbalance
      && at_most (of_nat 0) r.rsi_14
      && at_most r.rsi_14 (of_nat 100)
      && at_most (negative (of_nat 1)) r.ob_imbalance
      && at_most r.ob_imbalance (of_nat 1)

  unfoldable pub long_votes : Rule → ℕ
  long_votes r =
      vote (at_most r.rsi_high r.rsi_14)
      + vote (less (of_nat 0) r.macd_hist)
      + vote (less r.imb_thr r.ob_imbalance)

  unfoldable pub short_votes : Rule → ℕ
  short_votes r =
      vote (at_most r.rsi_14 r.rsi_low)
      + vote (less r.macd_hist (of_nat 0))
      + vote (less r.ob_imbalance (negative r.imb_thr))

  unfoldable pub derive_bias : Rule → Result BiasError Side
  unfolding valid_thresholds usable long_votes short_votes decide
  derive_bias r =
      if not (valid_thresholds r)
      then err invalid_thresholds
      else if not (usable r)
      then ok flat
      else decide (long_votes r) (short_votes r)

not_both : (a b : Bool) → (a ≡ true → b ≡ true → ⊥) → vote a + vote b ≤ 1
not_both true true h = absurd (h refl refl)
not_both true false h = omega arith
not_both false true h = omega arith
not_both false false h = omega arith

majority :
    (l s : ℕ)
    → l + s ≤ 3
    → ((decide l s ≡ ok long) ↔ (2 ≤ l)) × ((decide l s ≡ ok short) ↔ (2 ≤ s)) × (l + s ≤ 3)
unfolding decide
majority l s h = (
  (λ e. ground (arith, e), λ e. ground (arith, e)),
  (λ e. ground (arith, e), λ e. ground (arith, e)),
  h,
)

module _ {fl : Floats} where
  open fl use {finite, less, at_most, of_nat}

  -- The thresholds are finite, and `-imb_thr` is not above `imb_thr`, as IEEE 754 has it of a
  -- threshold that is not negative.
  pub record IsPlain (r : Rule fl) : Type 0 where
    pub finite_high : finite r.rsi_high ≡ true
    pub finite_low : finite r.rsi_low ≡ true
    pub finite_thr : finite r.imb_thr ≡ true
    pub mirrored : less r.imb_thr (negative fl r.imb_thr) ≡ false

  module _ (law : IsOrdered fl) (r : Rule fl) (plain : IsPlain r) where
    -- Each of the three votes goes one way at most.
    votes_within :
        less r.rsi_low r.rsi_high ≡ true
        → finite r.rsi_14 ≡ true
        → long_votes fl r + short_votes fl r ≤ 3
    unfolding long_votes short_votes
    votes_within apart finite_rsi = omega (
      arith,
      not_both (at_most r.rsi_high r.rsi_14) (at_most r.rsi_14 r.rsi_low) rsi,
      not_both (less (of_nat 0) r.macd_hist) (less r.macd_hist (of_nat 0)) macd,
      not_both (less r.imb_thr r.ob_imbalance) (less r.ob_imbalance (negative fl r.imb_thr)) book,
    )
      where
        rsi : at_most r.rsi_high r.rsi_14 ≡ true → at_most r.rsi_14 r.rsi_low ≡ true → ⊥
        rsi p q =
            let up : less r.rsi_14 r.rsi_high ≡ false =
              ground
                (arith, law.at_most_not_less r.rsi_high r.rsi_14 plain.finite_high finite_rsi, p) in
            let down : less r.rsi_low r.rsi_14 ≡ false =
              ground
                (arith, law.at_most_not_less r.rsi_14 r.rsi_low finite_rsi plain.finite_low, q) in
            cc (law.not_less_trans r.rsi_high r.rsi_14 r.rsi_low finite_rsi up down, apart)

        macd : less (of_nat 0) r.macd_hist ≡ true → less r.macd_hist (of_nat 0) ≡ true → ⊥
        macd p q = cc (law.less_asymmetric (of_nat 0) r.macd_hist p, q)

        book :
            less r.imb_thr r.ob_imbalance ≡ true
            → less r.ob_imbalance (negative fl r.imb_thr) ≡ true
            → ⊥
        book p q = cc (
          law.not_less_trans (negative fl r.imb_thr) r.imb_thr r.ob_imbalance plain.finite_thr
              plain.mirrored (law.less_asymmetric r.imb_thr r.ob_imbalance p),
          q,
        )

    derive_bias-majority :
        valid_thresholds fl r ≡ true
        → usable fl r ≡ true
        → ((derive_bias fl r ≡ ok long) ↔ (2 ≤ long_votes fl r))
          × ((derive_bias fl r ≡ ok short) ↔ (2 ≤ short_votes fl r))
          × (long_votes fl r + short_votes fl r ≤ 3)
    unfolding derive_bias
    derive_bias-majority valid fit =
        rw (valid, fit) (majority (long_votes fl r) (short_votes fl r) within)
      where
        within : long_votes fl r + short_votes fl r ≤ 3
        within =
            votes_within (unfold valid_thresholds in ground (arith, valid))
              (unfold usable in ground (arith, fit))

    -- Where the docstring and the code agree. With valid thresholds and usable inputs, over ordered
    -- floats: the bias is long if momentum and MACD both lean up and the book does not lean down, and
    -- short in the mirror case; it is long only if momentum or MACD leans up, and short only if one of
    -- them leans down. What the code does besides, where the two differ, is not stated.
    pub derive_bias-agreed :
        valid_thresholds fl r ≡ true
        → usable fl r ≡ true
        → (at_most r.rsi_high r.rsi_14 ≡ true
            → less (of_nat 0) r.macd_hist ≡ true
            → less r.ob_imbalance (negative fl r.imb_thr) ≡ false
            → derive_bias fl r ≡ ok long)
          × (at_most r.rsi_14 r.rsi_low ≡ true
              → less r.macd_hist (of_nat 0) ≡ true
              → less r.imb_thr r.ob_imbalance ≡ false
              → derive_bias fl r ≡ ok short)
          × (derive_bias fl r ≡ ok long
              → at_most r.rsi_high r.rsi_14 || less (of_nat 0) r.macd_hist ≡ true)
          × (derive_bias fl r ≡ ok short
              → at_most r.rsi_14 r.rsi_low || less r.macd_hist (of_nat 0) ≡ true)
    unfolding long_votes short_votes
    derive_bias-agreed valid fit =
        let (longs, shorts, _) = derive_bias-majority valid fit in
        (
          λ p q a. longs.1 (rw (p, q) (two (less r.imb_thr r.ob_imbalance))),
          λ p q a. shorts.1 (rw (p, q) (two (less r.ob_imbalance (negative fl r.imb_thr)))),
          λ e.
              one_of_two (at_most r.rsi_high r.rsi_14) (less (of_nat 0) r.macd_hist)
                (less r.imb_thr r.ob_imbalance) (longs.0 e),
          λ e.
              one_of_two (at_most r.rsi_14 r.rsi_low) (less r.macd_hist (of_nat 0))
                (less r.ob_imbalance (negative fl r.imb_thr)) (shorts.0 e),
        )
      where
        two : (b : Bool) → 2 ≤ 1 + 1 + vote b
        two true = omega arith
        two false = omega arith

        one_of_two : (a b c : Bool) → 2 ≤ vote a + vote b + vote c → a || b ≡ true
        one_of_two true b c h = refl
        one_of_two false true c h = refl
        one_of_two false false true h = absurd (omega (arith, h))
        one_of_two false false false h = absurd (omega (arith, h))
