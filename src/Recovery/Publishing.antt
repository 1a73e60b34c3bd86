-- ===== src/Recovery/Publishing.antt =====
-- What `recover_symbol` (kairos_quant/long_gap_recovery.py) has published at every moment, whatever the
-- REST endpoint, the writer and the clock answer: the minutes after the anchor, without a gap.
use kairos_quant_scouts.Prelude.{
  ℕ, suc, ◌+◌, ◌*◌, ◌≤◌, ◌≡◌, refl, Bool, true, false, some, List, [], ◌∷◌, ◌++◌, String, length,
  Follows, last_time, Follows-append, last_time-append, arith, inl, inr, ◌⊎◌, ap, ◌∙◌,
}
use kairos_quant_scouts.Prelude.Action.{resume, modify, ◌>>◌}
use kairos_quant_scouts.Prelude.Triple.{After, After-weaken}
use kairos_quant_scouts.Floats.{Floats}
use kairos_quant_scouts.Collector.Kline.{one_minute_ms}
use kairos_quant_scouts.Recovery.Contract.{Contract, Outside, IsDurable}
use kairos_quant_scouts.Recovery.Status.{Phase, RecoveryError, Run, at_phase, confirmed}
use kairos_quant_scouts.Recovery.Page.{AllOf, OpenFrom}
use kairos_quant_scouts.Recovery.Symbol.{stored, publish, publish_all}

module _ {A : Type 0} where
  append_assoc : (xs bs cs : List A) → (xs ++ bs) ++ cs ≡ xs ++ (bs ++ cs)
  append_assoc [] bs cs = refl
  append_assoc (x ∷ xs) bs cs = ap (λ ys. x ∷ ys) (append_assoc xs bs cs)

  length-snoc : (es : List A) (e : A) → length (es ++ e ∷ []) ≡ suc (length es)
  length-snoc [] e = refl
  length-snoc (x ∷ es) e = ap suc (length-snoc es e)

module _ {fl : Floats} (ct : Contract fl) where
  AllOf-append :
      (symbol : String) (es : List ct.E) (e : ct.E)
      → AllOf ct symbol es
      → ct.symbol e ≡ symbol
      → AllOf ct symbol (es ++ e ∷ [])
  AllOf-append symbol [] e a p = (p, tt)
  AllOf-append symbol (x ∷ es) e a p = (a.0, AllOf-append symbol es e a.1 p)

module _ {fl : Floats} {ct : Contract fl} {out : Outside ct} where
  -- What was published after `base` when `current` was confirmed: the minutes after the anchor up to
  -- it, of the anchor's symbol, before `bound`; `n` bars, which the status counts from `total`.
  pub record IsRepair (base : List ct.E) (anchor : ct.E) (bound total n : ℕ) (current : ct.E)
      (s : Run out) : Type 0 where
    pub new : List ct.E
    pub published : s.published ≡ base ++ new
    pub follows : Follows ct.open_time_ms one_minute_ms (ct.open_time_ms anchor) new
    pub last :
        last_time ct.open_time_ms one_minute_ms (ct.open_time_ms anchor) new
        ≡ ct.open_time_ms current
    pub all : AllOf ct (ct.symbol anchor) new
    pub count : length new ≡ n
    pub within : ct.open_time_ms current + one_minute_ms ≤ bound
    pub of_symbol : ct.symbol current ≡ ct.symbol anchor
    pub counted : s.status.total_appended_bars ≡ total + n

  -- What was published when an exception left the loop. The count is exact, except in the phase of
  -- the durable publish, where one bar more may have been stored.
  pub record IsPartial (base : List ct.E) (anchor : ct.E) (bound total : ℕ) (s : Run out)
      : Type 0 where
    pub new : List ct.E
    pub published : s.published ≡ base ++ new
    pub follows : Follows ct.open_time_ms one_minute_ms (ct.open_time_ms anchor) new
    pub all : AllOf ct (ct.symbol anchor) new
    pub within :
        last_time ct.open_time_ms one_minute_ms (ct.open_time_ms anchor) new + one_minute_ms ≤ bound
    pub counted :
        (s.status.total_appended_bars ≡ total + length new)
        ⊎ ((suc s.status.total_appended_bars ≡ total + length new)
            × (s.status.phase ≡ Phase.durable_publish))

  -- Nothing was published from `s` to `t`.
  abbrev pub IsKept : Run out → Run out → Type 0
  IsKept s t =
      (t.published ≡ s.published) × (t.status.total_appended_bars ≡ s.status.total_appended_bars)

  module _ {base : List ct.E} {anchor : ct.E} {bound total : ℕ} where
    pub IsRepair-kept :
        (n : ℕ) (current : ct.E) (s t : Run out)
        → IsKept s t
        → IsRepair base anchor bound total n current s
        → IsRepair base anchor bound total n current t
    IsRepair-kept n current s t k v = record {
      new = v.new;
      published = k.0 ∙ v.published;
      follows = v.follows;
      last = v.last;
      all = v.all;
      count = v.count;
      within = v.within;
      of_symbol = v.of_symbol;
      counted = k.1 ∙ v.counted;
    }

    pub IsRepair-IsPartial :
        (n : ℕ) (current : ct.E) (s : Run out)
        → IsRepair base anchor bound total n current s
        → IsPartial base anchor bound total s
    IsRepair-IsPartial n current s v = record {
      new = v.new;
      published = v.published;
      follows = v.follows;
      all = v.all;
      within = omega (arith, v.last, v.within);
      counted = inl (omega (arith, v.counted, v.count));
    }

    -- The next minute is stored.
    module _ (n : ℕ) (current e : ct.E) (s t : Run out)
        (v : IsRepair base anchor bound total n current s)
        (next : ct.open_time_ms e ≡ ct.open_time_ms current + one_minute_ms)
        (of_symbol : ct.symbol e ≡ ct.symbol anchor)
        (room : ct.open_time_ms e + one_minute_ms ≤ bound)
        (kept : t.published ≡ s.published ++ e ∷ []) where
      longer : t.published ≡ base ++ (v.new ++ e ∷ [])
      longer = kept ∙ ap (λ es. es ++ e ∷ []) v.published ∙ append_assoc base v.new (e ∷ [])

      followed : Follows ct.open_time_ms one_minute_ms (ct.open_time_ms anchor) (v.new ++ e ∷ [])
      followed =
          Follows-append ct.open_time_ms one_minute_ms (ct.open_time_ms anchor) v.new (e ∷ [])
            v.follows (omega (arith, next, v.last), tt)

      ended :
          last_time ct.open_time_ms one_minute_ms (ct.open_time_ms anchor) (v.new ++ e ∷ [])
          ≡ ct.open_time_ms e
      ended = last_time-append ct.open_time_ms one_minute_ms (ct.open_time_ms anchor) v.new (e ∷ [])

      IsRepair-next :
          t.status.total_appended_bars ≡ suc s.status.total_appended_bars
          → IsRepair base anchor bound total (suc n) e t
      IsRepair-next one_more = record {
        new = v.new ++ e ∷ [];
        published = longer;
        follows = followed;
        last = ended;
        all = AllOf-append ct (ct.symbol anchor) v.new e v.all of_symbol;
        count = length-snoc v.new e ∙ ap suc v.count;
        within = room;
        of_symbol = of_symbol;
        counted = omega (arith, one_more, v.counted);
      }

      IsPartial-next :
          t.status.total_appended_bars ≡ s.status.total_appended_bars
          → t.status.phase ≡ Phase.durable_publish
          → IsPartial base anchor bound total t
      IsPartial-next same phase = record {
        new = v.new ++ e ∷ [];
        published = longer;
        follows = followed;
        all = AllOf-append ct (ct.symbol anchor) v.new e v.all of_symbol;
        within = omega (arith, ended, room);
        counted = inr (omega (arith, same, v.counted, v.count, length-snoc v.new e), phase);
      }

    -- The loop over a page's further events publishes all of them, or stops within them.
    pub publish_all-IsRepair :
        (durable : IsDurable out) (es : List ct.E) (current : ct.E) (n : ℕ) (s : Run out)
        → IsRepair base anchor bound total n current s
        → AllOf ct (ct.symbol anchor) es
        → OpenFrom ct (ct.open_time_ms current + one_minute_ms) es
        → ct.open_time_ms current + (1 + length es) * one_minute_ms ≤ bound
        → After
            (λ r t.
              IsRepair base anchor bound total r.1 r.0 t
              × (ct.open_time_ms r.0 ≡ ct.open_time_ms current + length es * one_minute_ms))
            (λ x t. IsPartial base anchor bound total t)
            (publish_all out es current n s)
    unfolding publish_all publish confirmed at_phase
    publish_all-IsRepair durable [] current n s v a o b = (v, omega arith)
    publish_all-IsRepair durable (e ∷ es) current n s v a o b =
        go (out.append e s.world) (durable e s.world) (publish_all-IsRepair durable es e (suc n))
      where
        Done : ℕ → ct.E × ℕ → Run out → Type 0
        Done end r t = IsRepair base anchor bound total r.1 r.0 t × (ct.open_time_ms r.0 ≡ end)

        Stopped : RecoveryError → Run out → Type 0
        Stopped x t = IsPartial base anchor bound total t

        at : Run out
        at =
            at_phase out Phase.durable_publish (some (ct.symbol e)) (some (ct.open_time_ms e))
              (some (ct.close_time_ms e + 1)) s

        go :
            (r : (Bool × Bool) × out.W)
            → (r.0.1 ≡ true → r.0.0 ≡ true)
            → ((t : Run out)
                → IsRepair base anchor bound total (suc n) e t
                → AllOf ct (ct.symbol anchor) es
                → OpenFrom ct (ct.open_time_ms e + one_minute_ms) es
                → ct.open_time_ms e + (1 + length es) * one_minute_ms ≤ bound
                → After
                    (λ r t.
                      IsRepair base anchor bound total r.1 r.0 t
                      × (ct.open_time_ms r.0 ≡ ct.open_time_ms e + length es * one_minute_ms))
                    (λ x t. IsPartial base anchor bound total t)
                    (publish_all out es e (suc n) t))
            → After
                (λ r t.
                  IsRepair base anchor bound total r.1 r.0 t
                  × (ct.open_time_ms r.0
                      ≡ ct.open_time_ms current + length (e ∷ es) * one_minute_ms))
                (λ x t. IsPartial base anchor bound total t)
                (resume
                  (stored out e r at)
                  (λ _. modify (confirmed out e true) >> publish_all out es e (suc n)))
        go ((true, true), w) d ih =
            After-weaken (Done (ct.open_time_ms e + length es * one_minute_ms))
              (Done (ct.open_time_ms current + length (e ∷ es) * one_minute_ms)) Stopped Stopped _
              (ih _ (IsRepair-next n current e s _ v o.0 a.0 (omega (arith, o.0, b)) refl refl) a.1
                (rw o.0 o.1) (omega (arith, o.0, b)))
              (λ r t p. (p.0, omega (arith, p.1, o.0))) (λ x t p. p)
        go ((false, true), w) d ih = cc (d refl)
        go ((true, false), w) d ih =
            IsPartial-next n current e s _ v o.0 a.0 (omega (arith, o.0, b)) refl refl refl
        go ((false, false), w) d ih =
            IsRepair-IsPartial n current _ (IsRepair-kept n current s _ (refl, refl) v)
