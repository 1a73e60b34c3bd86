-- ===== src/Examples/Rules.antt =====
-- A rule whose momentum, MACD and book lean up, over natural numbers.
use kairos_quant_scouts.Prelude.{◌≡◌, refl, true, false, ◌||◌, ltb, leb}
use kairos_quant_scouts.Prelude.Result.{ok}
use kairos_quant_scouts.Examples.{numbers, numbers-IsOrdered}
use kairos_quant_scouts.Bias.{
  long, short, Rule, IsPlain, valid_thresholds, usable, derive_bias, derive_bias-agreed, negative,
}

abbrev rule : Rule numbers
rule = record {
  rsi_14 = 60;
  macd_hist = 3;
  ob_imbalance = 1;
  rsi_high = 55;
  rsi_low = 45;
  imb_thr = 0;
}

rule-IsPlain : IsPlain rule
rule-IsPlain = record { finite_high = refl; finite_low = refl; finite_thr = refl; mirrored = refl }

derive_bias-agreed_example :
    (leb 55 60 ≡ true
      → ltb 0 3 ≡ true
      → ltb 1 (negative numbers 0) ≡ false
      → derive_bias numbers rule ≡ ok long)
    × (leb 60 45 ≡ true → ltb 3 0 ≡ true → ltb 0 1 ≡ false → derive_bias numbers rule ≡ ok short)
    × (derive_bias numbers rule ≡ ok long → leb 55 60 || ltb 0 3 ≡ true)
    × (derive_bias numbers rule ≡ ok short → leb 60 45 || ltb 3 0 ≡ true)
unfolding valid_thresholds usable
derive_bias-agreed_example = derive_bias-agreed numbers-IsOrdered rule rule-IsPlain refl refl
