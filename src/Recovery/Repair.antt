-- ===== src/Recovery/Repair.antt =====
-- `recover_symbol` (kairos_quant/long_gap_recovery.py): every window is confirmed twice, the loop ends,
-- and a repair that returns has filled the whole interval.
use kairos_quant_scouts.Prelude.{
  ℕ, ◌+◌, ◌-◌, ◌*◌, ◌/◌, ◌%◌, ◌≤◌, ◌<◌, ◌≡◌, refl, min, Bool, true, false, not, ◌||◌, Option, none,
  some, List, [], ◌∷◌, String, length, arith, Bool-cases, inl, inr,
}
use kairos_quant_scouts.Prelude.Result.{Result, ok, err}
use kairos_quant_scouts.Prelude.Action.{resume, pure, raise_if, modify, ◌>>◌}
use kairos_quant_scouts.Prelude.Triple.{After, After-resume, After-weaken}
use kairos_quant_scouts.Floats.{Floats}
use kairos_quant_scouts.Collector.Kline.{one_minute_ms}
use kairos_quant_scouts.Recovery.Contract.{RawPage, Contract, IsContract, Outside, IsDurable}
use kairos_quant_scouts.Recovery.Status.{
  Phase, RecoveryError, confirmation_conflict, State, Run, at_phase, entering, emit,
}
use kairos_quant_scouts.Recovery.Page.{AllOf, OpenFrom, IsPage, parse_page, parse_page-IsPage}
use kairos_quant_scouts.Recovery.Symbol.{
  same_events, answer, fetch, fetch_page, returned, pause, parsed, starts_at, rest, publish_all,
  confirm_page, recover_page,
}
use kairos_quant_scouts.Recovery.Publishing.{
  IsRepair, IsPartial, IsKept, IsRepair-kept, IsRepair-IsPartial, publish_all-IsRepair,
}

module _ {fl : Floats} (ct : Contract fl) where
  -- What a confirmed page is: two pages of the window, equal event by event, that begin with the
  -- bytes of `current`.
  abbrev pub IsConfirmed : ct.E → ℕ → ℕ → List ct.E → Type 0
  IsConfirmed current start end es =
      IsPage ct (ct.symbol current) start ((end - start) / one_minute_ms) es
      × (starts_at ct current es ≡ true)
      × ((second : List ct.E) × IsPage ct (ct.symbol current) start ((end - start) / one_minute_ms)
            second
          × (same_events ct es second ≡ true))

  -- The rows after the first of a confirmed page, from the bar that the first row is.
  confirmed_rest :
      (current : ct.E) (n : ℕ) (es : List ct.E)
      → IsPage ct (ct.symbol current) (ct.open_time_ms current) n es
      → starts_at ct current es ≡ true
      → AllOf ct (ct.symbol current) (rest ct es)
        × OpenFrom ct (ct.open_time_ms current + one_minute_ms) (rest ct es)
        × (1 + length (rest ct es) ≡ n)
  confirmed_rest current n [] p h = cc
  confirmed_rest current n (e ∷ es) p h = (p.0.1, p.1.1, omega (arith, p.2))

-- A window from a whole minute, of a page of two bars or more, has two minutes or more, if two are left.
window :
    (start bound size : ℕ)
    → start % one_minute_ms ≡ 0
    → bound % one_minute_ms ≡ 0
    → 2 ≤ size
    → start + one_minute_ms < bound
    → let n = (min bound (start + size * one_minute_ms) - start) / one_minute_ms in
      (2 ≤ n) × (start + n * one_minute_ms ≤ bound)
window start bound size p q r h = (omega arith, omega arith)

module _ {fl : Floats} {ct : Contract fl} {out : Outside ct} where
  at_phase-IsKept :
      (phase : Phase) (symbol : Option String) (start end : Option ℕ) (s₀ s : Run out)
      → IsKept s₀ s
      → IsKept s₀ (at_phase out phase symbol start end s)
  unfolding at_phase
  at_phase-IsKept phase symbol start end s₀ s k = k

  fetch-IsKept :
      (symbol : String) (start end : ℕ) (s₀ s : Run out)
      → IsKept s₀ s
      → After (λ page t. IsKept s₀ t) (λ e t. IsKept s₀ t) (fetch out symbol start end s)
  unfolding fetch
  fetch-IsKept symbol start end s₀ s k = go (out.fetch symbol start end s.world)
    where
      go :
          (r : Option (RawPage ct.V) × out.W)
          → After (λ page t. IsKept s₀ t) (λ e t. IsKept s₀ t) (answer out r s)
      go (none, w) = k
      go (some page, w) = k

  pause-IsKept :
      (s₀ s : Run out)
      → IsKept s₀ s
      → After (λ done t. IsKept s₀ t) (λ e t. IsKept s₀ t) (pause out s)
  unfolding pause
  pause-IsKept s₀ s k = go (out.pause s.world)
    where
      go :
          (r : Bool × out.W) → After (λ done t. IsKept s₀ t) (λ e t. IsKept s₀ t) (returned out r s)
      go (true, w) = k
      go (false, w) = k

  module _ (law : IsContract ct) where
    parsed-IsPage :
        (raw : RawPage ct.V) (symbol : String) (start end : ℕ) (s₀ s : Run out)
        → IsKept s₀ s
        → After
            (λ es t. IsPage ct symbol start ((end - start) / one_minute_ms) es × IsKept s₀ t)
            (λ e t. IsKept s₀ t)
            (parsed out (parse_page ct raw symbol start end) s)
    parsed-IsPage raw symbol start end s₀ s k = go (parse_page ct raw symbol start end) refl
      where
        go :
            (r : Result RecoveryError (List ct.E))
            → parse_page ct raw symbol start end ≡ r
            → After
                (λ es t. IsPage ct symbol start ((end - start) / one_minute_ms) es × IsKept s₀ t)
                (λ e t. IsKept s₀ t)
                (parsed out r s)
        go (ok es) e = (parse_page-IsPage ct law raw symbol start end es e, k)
        go (err x) e = k

    fetch_page-IsPage :
        (get validate : Phase) (current : ct.E) (start end : ℕ) (s₀ s : Run out)
        → IsKept s₀ s
        → After
            (λ es t.
              IsPage ct (ct.symbol current) start ((end - start) / one_minute_ms) es × IsKept s₀ t)
            (λ e t. IsKept s₀ t)
            (fetch_page out get validate current start end s)
    unfolding fetch_page
    fetch_page-IsPage get validate current start end s₀ s k =
        After-resume (λ page t. IsKept s₀ t)
          (λ es t.
            IsPage ct (ct.symbol current) start ((end - start) / one_minute_ms) es × IsKept s₀ t)
          (λ (e : RecoveryError) t. IsKept s₀ t) _ _
          (fetch-IsKept (ct.symbol current) start end s₀
            (at_phase out get (some (ct.symbol current)) (some start) (some end) s)
            (at_phase-IsKept get (some (ct.symbol current)) (some start) (some end) s₀ s k))
          (λ raw t m.
            parsed-IsPage raw (ct.symbol current) start end s₀
              (at_phase out validate (some (ct.symbol current)) (some start) (some end) t)
              (at_phase-IsKept validate (some (ct.symbol current)) (some start) (some end) s₀ t m))

    -- Given a contract that keeps the values it is given and makes whole minutes: if the
    -- confirmation of a window returns, two pages of it were fetched and accepted, one event for
    -- each minute of the window, equal event by event, and the first event has the canonical bytes
    -- of the current bar. Nothing is published, whether it returns or raises.
    pub confirm_page-IsConfirmed :
        (current : ct.E) (start end : ℕ) (s : Run out)
        → After
            (λ es t. IsConfirmed ct current start end es × IsKept s t)
            (λ e t. IsKept s t)
            (confirm_page out current start end s)
    unfolding confirm_page
    confirm_page-IsConfirmed current start end s =
        After-resume PageOk Q R _ _
          (fetch_page-IsPage Phase.rest_get_first Phase.rest_validate_first current start end s s
            (refl, refl))
          (λ first t₂ k₂.
            After-resume (λ done t. IsKept s t) Q R _ _
              (pause-IsKept s (at Phase.confirmation_delay t₂)
                (kept Phase.confirmation_delay t₂ k₂.1))
              (λ done t₃ k₃.
                After-resume PageOk Q R _ _
                  (fetch_page-IsPage Phase.rest_get_second Phase.rest_validate_second current start
                    end s t₃ k₃)
                  (λ second t₅ k₅.
                    compared first second (at Phase.confirmation_compare t₅) k₂.0 k₅.0
                      (kept Phase.confirmation_compare t₅ k₅.1))))
      where
        at : Phase → Run out → Run out
        at phase t = at_phase out phase (some (ct.symbol current)) (some start) (some end) t

        kept : (phase : Phase) (t : Run out) → IsKept s t → IsKept s (at phase t)
        kept phase t k =
            at_phase-IsKept phase (some (ct.symbol current)) (some start) (some end) s t k

        Q : List ct.E → Run out → Type 0
        Q es t = IsConfirmed ct current start end es × IsKept s t

        R : RecoveryError → Run out → Type 0
        R e t = IsKept s t

        PageOk : List ct.E → Run out → Type 0
        PageOk es t =
            IsPage ct (ct.symbol current) start ((end - start) / one_minute_ms) es × IsKept s t

        compared :
            (first second : List ct.E) (t : Run out)
            → IsPage ct (ct.symbol current) start ((end - start) / one_minute_ms) first
            → IsPage ct (ct.symbol current) start ((end - start) / one_minute_ms) second
            → IsKept s t
            → After Q R (
                resume
                  (raise_if
                    (not (same_events ct first second) || not (starts_at ct current first))
                    confirmation_conflict
                    t)
                  (λ _. pure first))
        compared first second t p q k =
            elim (Bool-cases
              (not (same_events ct first second) || not (starts_at ct current first))) [
                | inl conflict ↦ rw conflict k
                | inr agree ↦ rw agree ((p, ground arith, (second, q, ground arith)), k)
              ]

    module _ {base : List ct.E} {anchor : ct.E} {bound total : ℕ} (durable : IsDurable out)
        (whole : bound % one_minute_ms ≡ 0) (page_size : ℕ) (large : 2 ≤ page_size) where
      pub recover_page-IsRepair :
          (current : ct.E) (n : ℕ) (s : Run out)
          → IsRepair base anchor bound total n current s
          → ct.close_time_ms current + 1 < bound
          → After
              (λ r t.
                IsRepair base anchor bound total r.1 r.0 t
                × (ct.open_time_ms current + one_minute_ms ≤ ct.open_time_ms r.0))
              (λ x t. IsPartial base anchor bound total t)
              (recover_page out bound page_size current n s)
      unfolding recover_page
      recover_page-IsRepair current n s v open_end =
          After-resume (λ es t. IsConfirmed ct current start end es × IsKept s t) Q R _ _
            (After-weaken _ (λ es t. IsConfirmed ct current start end es × IsKept s t)
              (λ e t. IsKept s t) R _ (confirm_page-IsConfirmed current start end s) (λ es t p. p)
              (λ e t k. IsRepair-IsPartial n current t (IsRepair-kept n current s t k v)))
            (λ es t p. publishing es t p)
        where
          start : ℕ
          start = ct.open_time_ms current

          end : ℕ
          end = min bound (ct.open_time_ms current + page_size * one_minute_ms)

          Q : ct.E × ℕ → Run out → Type 0
          Q r t =
              IsRepair base anchor bound total r.1 r.0 t
              × (ct.open_time_ms current + one_minute_ms ≤ ct.open_time_ms r.0)

          R : RecoveryError → Run out → Type 0
          R x t = IsPartial base anchor bound total t

          count : ℕ
          count = (end - start) / one_minute_ms

          sizes : (2 ≤ count) × (start + count * one_minute_ms ≤ bound)
          sizes =
              window start bound page_size (law.aligned current) whole large
                (omega (arith, law.minute current, open_end))

          publishing :
              (es : List ct.E) (t : Run out)
              → IsConfirmed ct current start end es × IsKept s t
              → After Q R (
                  resume (publish_all out (rest ct es) current n t) (λ last.
                    entering out Phase.page_committed
                      (some (ct.symbol last.0))
                      (some start)
                      (some end)
                    >> modify (emit out State.progress none)
                    >> pure last))
          publishing es t ((page, starts, again), k) =
              let rows = confirmed_rest ct current count es page starts in
              After-resume
                (λ r u.
                  IsRepair base anchor bound total r.1 r.0 u
                  × (ct.open_time_ms r.0
                      ≡ ct.open_time_ms current + length (rest ct es) * one_minute_ms))
                Q R _ _
                (publish_all-IsRepair durable (rest ct es) current n t
                  (IsRepair-kept n current s t k v) (rw (← v.of_symbol) rows.0) rows.1
                  (omega (arith, rows.2, sizes.1)))
                (λ r u q.
                  unfold emit at_phase in
                  (IsRepair-kept r.1 r.0 u _ (refl, refl) q.0, omega (arith, q.1, rows.2, sizes.0)))
