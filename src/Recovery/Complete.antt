-- ===== src/Recovery/Complete.antt =====
-- `recover_symbol` (kairos_quant/long_gap_recovery.py) ends, and a repair that returns has filled the
-- whole interval.
use kairos_quant_scouts.Prelude.{
  ℕ, zero, suc, ◌+◌, ◌*◌, ◌/◌, ◌%◌, ◌≤◌, ◌<◌, ◌≡◌, refl, Bool, true, false, not, ◌&&◌, ◌||◌, some,
  List, [], ◌∷◌, ◌++◌, leb, ltb, ◌==◌, last_time-eq, arith, Bool-cases, inl, inr, ◌⊎◌,
}
use kairos_quant_scouts.Prelude.Action.{pure, ◌>>=◌}
use kairos_quant_scouts.Prelude.Triple.{After, After-resume, After-weaken}
use kairos_quant_scouts.Floats.{Floats}
use kairos_quant_scouts.Collector.Kline.{one_minute_ms}
use kairos_quant_scouts.Recovery.Contract.{Contract, IsContract, Outside, IsDurable}
use kairos_quant_scouts.Recovery.Status.{Phase, RecoveryError, Run, Recovery, at_phase, confirmed}
use kairos_quant_scouts.Recovery.Symbol.{recover_page, recover_loop, recover_symbol}
use kairos_quant_scouts.Recovery.Publishing.{IsRepair, IsPartial, IsKept}
use kairos_quant_scouts.Recovery.Repair.{recover_page-IsRepair}

append-nil : {A : Type 0} → (es : List A) → es ≡ es ++ []
append-nil [] = refl
append-nil (e ∷ es) = rw (← append-nil es) refl

module _ {fl : Floats} {ct : Contract fl} {out : Outside ct} where
  -- A repair of `anchor` up to `bound` that is complete, with `n` bars.
  abbrev pub IsComplete : List ct.E → ct.E → ℕ → ℕ → ℕ → Run out → Type 0
  IsComplete base anchor bound total n t =
      (last : ct.E) × IsRepair base anchor bound total n last t
      × (ct.close_time_ms anchor + 1 + n * one_minute_ms ≡ bound)

module _ {fl : Floats} {ct : Contract fl} {out : Outside ct} (law : IsContract ct)
    (durable : IsDurable out) where
  module _ {base : List ct.E} {anchor : ct.E} {bound total : ℕ} (whole : bound % one_minute_ms ≡ 0)
      (page_size : ℕ) (large : 2 ≤ page_size) where
    all_filled :
        (current : ct.E) (n : ℕ) (s : Run out)
        → IsRepair base anchor bound total n current s
        → bound ≤ ct.close_time_ms current + 1
        → ct.close_time_ms anchor + 1 + n * one_minute_ms ≡ bound
    all_filled current n s v h = omega (
      arith,
      law.minute anchor,
      law.minute current,
      v.within,
      v.last,
      v.count,
      last_time-eq ct.open_time_ms one_minute_ms (ct.open_time_ms anchor) v.new v.follows,
    )

    recover_loop-IsComplete :
        (rounds : ℕ) (current : ct.E) (n : ℕ) (s : Run out)
        → IsRepair base anchor bound total n current s
        → bound < ct.close_time_ms current + 1 + rounds * one_minute_ms
        → After
            (λ m t. IsComplete base anchor bound total m t)
            (λ x t. IsPartial base anchor bound total t)
            (recover_loop out rounds bound page_size current n s)
    unfolding recover_loop
    recover_loop-IsComplete zero current n s v h =
        (current, v, all_filled current n s v (omega arith))
    recover_loop-IsComplete (suc rounds) current n s v h =
        go (ltb (ct.close_time_ms current + 1) bound) refl (recover_loop-IsComplete rounds)
      where
        Q : ℕ → Run out → Type 0
        Q m t = IsComplete base anchor bound total m t

        R : RecoveryError → Run out → Type 0
        R x t = IsPartial base anchor bound total t

        go :
            (b : Bool)
            → ltb (ct.close_time_ms current + 1) bound ≡ b
            → ((c : ct.E) (m : ℕ) (t : Run out)
                → IsRepair base anchor bound total m c t
                → bound < ct.close_time_ms c + 1 + rounds * one_minute_ms
                → After Q R (recover_loop out rounds bound page_size c m t))
            → After Q R (
                (elim b as (λ _. Recovery out ℕ) [
                  | false ↦ pure n
                  | true ↦ do
                    last ← recover_page out bound page_size current n
                    recover_loop out rounds bound page_size last.0 last.1
                ])
                  s)
        go false e ih = (current, v, all_filled current n s v (ground (arith, e)))
        go true e ih =
            After-resume
              (λ r t.
                IsRepair base anchor bound total r.1 r.0 t
                × (ct.open_time_ms current + one_minute_ms ≤ ct.open_time_ms r.0))
              Q R _ _
              (recover_page-IsRepair law durable whole page_size large current n s v
                (ground (arith, e)))
              (λ r t p.
                ih r.0 r.1 t p.0 (omega (arith, p.1, h, law.minute current, law.minute r.0)))

  -- Given a contract that keeps the values it is given and makes whole minutes, and a writer that
  -- returns only after it has stored the bar, whatever the REST endpoint, the writer and the clock
  -- answer: a repair that returns `n` has published exactly the `n` minutes from the anchor to the
  -- end, in order and once each, and counted them; one that raises has published nothing, or a
  -- part of those minutes without a gap, which the count states exactly unless the failure is in
  -- the durable publish. The loop never runs out of rounds before the end is reached.
  pub recover_symbol-IsComplete :
      (anchor : ct.E) (end_exclusive page_size : ℕ) (s : Run out)
      → After
          (λ n t. IsComplete s.published anchor end_exclusive s.status.total_appended_bars n t)
          (λ x t.
            IsKept s t ⊎ IsPartial s.published anchor end_exclusive s.status.total_appended_bars t)
          (recover_symbol out anchor end_exclusive page_size s)
  unfolding recover_symbol confirmed at_phase
  recover_symbol-IsComplete anchor end_exclusive page_size s = elim (Bool-cases invalid) [
    | inl refused ↦ rw refused (inl (refl, refl))
    | inr valid ↦ rw valid (
        After-weaken _
          (λ n t. IsComplete s.published anchor end_exclusive s.status.total_appended_bars n t)
          (λ x t. IsPartial s.published anchor end_exclusive s.status.total_appended_bars t) _ _
          (recover_loop-IsComplete (whole valid) page_size (large valid)
            (suc (end_exclusive / one_minute_ms)) anchor 0 _ (start valid) (omega arith))
          (λ n t p. p) (λ x t p. inr p))
  ]
    where
      invalid : Bool
      invalid =
          not (leb 2 page_size && leb page_size 200)
          || not (end_exclusive % one_minute_ms == 0)
          || leb end_exclusive (ct.open_time_ms anchor)

      whole : invalid ≡ false → end_exclusive % one_minute_ms ≡ 0
      whole h = ground arith

      large : invalid ≡ false → 2 ≤ page_size
      large h = ground arith

      after : invalid ≡ false → ct.open_time_ms anchor < end_exclusive
      after h = ground arith

      start :
          invalid ≡ false
          → IsRepair s.published anchor end_exclusive s.status.total_appended_bars 0 anchor (
              confirmed out anchor false (
                at_phase out Phase.validate_interval
                  (some (ct.symbol anchor))
                  (some (ct.open_time_ms anchor))
                  (some end_exclusive)
                  s))
      start h = record {
        new = [];
        published = append-nil s.published;
        follows = tt;
        last = refl;
        all = tt;
        count = refl;
        within = omega (arith, whole h, after h, law.aligned anchor);
        of_symbol = refl;
        counted = omega arith;
      }
