-- ===== src/Recovery/Reported.antt =====
-- `run_recovery` of the two recovery programs: every failure is reported, the first one is kept, and a
-- run that returns has an exact remaining count.
use kairos_quant_scouts.Prelude.{
  ℕ, zero, suc, ◌≡◌, refl, ap, Bool, true, false, Option, none, some, List, [], ◌∷◌, ◌++◌, String,
  if◌then◌else◌,
}
use kairos_quant_scouts.Prelude.Int.{ℤ, pos, negsuc, sub_ℕ}
use kairos_quant_scouts.Prelude.Result.{Result, ok, err}
use kairos_quant_scouts.Prelude.Action.{raise_if, ◌>>◌}
use kairos_quant_scouts.Prelude.Triple.{After, After-resume}
use kairos_quant_scouts.Floats.{Floats}
use kairos_quant_scouts.Tape.State.{PyInt}
use kairos_quant_scouts.Recovery.Contract.{Contract, Outside}
use kairos_quant_scouts.Recovery.Status.{
  Phase, RecoveryError, no_exact_remaining, State, Report, remaining_bars, Run, Recovery, at_phase,
  emit, failed, or_else, note_failure,
}
use kairos_quant_scouts.Recovery.Symbol.{returned}
use kairos_quant_scouts.Recovery.Runs.{Profile, Platform}
use kairos_quant_scouts.Recovery.Writer.{
  noting, failed_now, failed_if, failed_first, closed, finally_close, with_writer, run_checked,
  inexact, final_state, started, run_recovery,
}

abbrev pub is_zero : ℕ → Bool
is_zero zero = true
is_zero (suc n) = false

module _ {fl : Floats} {ct : Contract fl} (out : Outside ct) where
  -- A failure has been noted.
  abbrev pub IsNoted : Run out → Type 0
  IsNoted t = (p : Phase) × (t.status.first_failure_phase ≡ some p)

  -- The number of bars that are left is known, every publish is accounted for, and the last record
  -- says whether any bar is left.
  pub record IsDone (t : Run out) : Type 0 where
    pub left : ℕ
    pub exact : remaining_bars t.status ≡ some (pos left)
    pub known : t.status.publish_outcome_unknown ≡ false
    pub finished : t.status.phase ≡ Phase.finished
    pub earlier : List Report
    pub told :
        t.emitted
        ≡ earlier
          ++ (record {
            state = if is_zero left then State.completed else State.paused_limit;
            status = t.status;
            error = none;
          })
            ∷ []

  failed_if-IsNoted :
      (o : Option Phase) (e : RecoveryError) (t : Run out)
      → t.status.first_failure_phase ≡ o
      → IsNoted (failed_if out o e t)
  unfolding failed_if failed_now failed note_failure emit
  failed_if-IsNoted none e t h = (or_else t.status.first_failure_phase t.status.phase, refl)
  failed_if-IsNoted (some p) e t h = (p, h)

  anything :
      {A : Type 0} (r : Result RecoveryError A × Run out) → After (λ a t. Unit) (λ e t. Unit) r
  anything (ok a, t) = tt
  anything (err e, t) = tt

  noting-After :
      {A : Type 0} (P : A → Run out → Type 0) (r : Result RecoveryError A × Run out)
      → After P (λ e t. Unit) r
      → After P (λ e t. IsNoted t) (noting out (failed_first out) r)
  unfolding noting failed_first
  noting-After P (ok a, t) h = h
  noting-After P (err e, t) h = failed_if-IsNoted t.status.first_failure_phase e t refl

  known_of :
      (t : Run out) (n : ℤ)
      → remaining_bars t.status ≡ some n
      → t.status.publish_outcome_unknown ≡ false
  unfolding remaining_bars
  known_of t n h = go t.status.planned_remaining_bars t.status.publish_outcome_unknown h
    where
      go :
          (o : Option ℕ) (b : Bool)
          → elim o as (λ _. Option ℤ) [
            | none ↦ none
            | some planned ↦ if b then none else some (sub_ℕ planned t.status.total_appended_bars)
          ]
            ≡ some n
          → b ≡ false
      go none b k = cc
      go (some p) true k = cc
      go (some p) false k = refl

  exact_of :
      (o : Option ℤ)
      → inexact o ≡ false
      → (n : ℕ) × (o ≡ some (pos n))
        × (final_state o ≡ (if is_zero n then State.completed else State.paused_limit))
  unfolding inexact final_state
  exact_of none h = cc
  exact_of (some (pos zero)) h = (0, refl, refl)
  exact_of (some (pos (suc n))) h = (suc n, refl, refl)
  exact_of (some (negsuc n)) h = cc

  exact_raise :
      (b : Bool) (t : Run out)
      → inexact (remaining_bars t.status) ≡ b
      → After
          (λ u v. inexact (remaining_bars v.status) ≡ false)
          (λ e v. Unit)
          (raise_if b no_exact_remaining t)
  exact_raise true t h = tt
  exact_raise false t h = h

  kept_remaining :
      (t : Run out)
      → remaining_bars (at_phase out Phase.finished none none none t).status
        ≡ remaining_bars t.status
  unfolding remaining_bars at_phase
  kept_remaining t = refl

  finished_run : Recovery out (Unit {0})
  finished_run s = (
    ok tt,
    emit out (final_state (remaining_bars s.status)) none
        (at_phase out Phase.finished none none none s),
  )

  finished_run-IsDone :
      (u : Unit {0}) (t : Run out)
      → inexact (remaining_bars t.status) ≡ false
      → After (λ u v. IsDone v) (λ e v. IsNoted v) (finished_run t)
  unfolding finished_run emit at_phase
  finished_run-IsDone u t h =
      let (n, exact, told) = exact_of (remaining_bars t.status) h in
      record {
        left = n;
        exact = cc (kept_remaining t, exact);
        known = known_of t (pos n) exact;
        finished = refl;
        earlier = t.emitted;
        told =
            ap
              (λ z.
                t.emitted
                ++ (record {
                  state = z;
                  status = (at_phase out Phase.finished none none none t).status;
                  error = none;
                })
                  ∷ [])
              told;
      }

  module _ (pf : Platform out) (profile : Profile) (end_exclusive : ℕ) (maximum_bars : ℤ)
      (maximum_append_bars : Option PyInt) (database : String) where
    -- Either program reports what it did, whatever the database, the venue and the writer do. If a run
    -- raises, the phase of a failure has been noted. If it returns, the number of bars that are left is
    -- known exactly and is not negative, the outcome of every publish is known, and the last record that
    -- was emitted is COMPLETED if no bar is left and PAUSED_LIMIT otherwise.
    pub run_recovery-IsDone :
        (s : Run out)
        → After
            (λ u t. IsDone t)
            (λ e t. IsNoted t)
            (run_recovery out pf profile end_exclusive maximum_bars maximum_append_bars database s)
    unfolding run_recovery finished_run
    run_recovery-IsDone s =
        After-resume Exact (λ u t. IsDone t) (λ e t. IsNoted t) _ (λ u. finished_run)
          (noting-After Exact _ checked) finished_run-IsDone
      where
        Exact : Unit {0} → Run out → Type 0
        Exact u t = inexact (remaining_bars t.status) ≡ false

        first : Result RecoveryError (Unit {0}) × Run out
        first =
            run_checked out pf profile end_exclusive maximum_bars maximum_append_bars database
              (started out pf profile end_exclusive maximum_bars maximum_append_bars database s)

        checked :
            After Exact
              (λ e t. Unit)
              ((run_checked out pf profile end_exclusive maximum_bars maximum_append_bars database
                  >> λ t. raise_if (inexact (remaining_bars t.status)) no_exact_remaining t)
                (started out pf profile end_exclusive maximum_bars maximum_append_bars database s))
        checked =
            After-resume (λ u t. Unit {0}) Exact (λ e t. Unit) first
              (λ u t. raise_if (inexact (remaining_bars t.status)) no_exact_remaining t)
              (anything first) (λ u t h. exact_raise (inexact (remaining_bars t.status)) t refl)

  closed-kept :
      (pf : Platform out) (okay : Bool) (p : Phase) (e : RecoveryError) (t : Run out)
      → t.status.first_failure_phase ≡ some p
      → ((closed out pf {A = Unit {0}} okay (some p) (err e) t).0 ≡ err e)
        × ((closed out pf {A = Unit {0}} okay (some p) (err e) t).1.status.first_failure_phase
            ≡ some p)
  unfolding closed failed_now failed note_failure emit
  closed-kept pf true p e t h = (refl, h)
  closed-kept pf false p e t h = (refl, ap (λ o. some (or_else o t.status.phase)) h)

  -- The first failure is what a run reports, whatever the cleanup does. If the work of a run raises
  -- once its writer has started, the run raises that very error, and the phase that is noted is the
  -- one in which the work failed, unless the work itself had noted one before; neither a failure to
  -- close the writer nor the phase of closing replaces it.
  pub with_writer-first :
      (pf : Platform out) (body : Recovery out (Unit {0})) (s t u : Run out) (e : RecoveryError)
      → returned out (pf.start s.world) (at_phase out Phase.offline_writer_start none none none s)
        ≡ (ok tt, t)
      → body t ≡ (err e, u)
      → ((with_writer out pf body s).0 ≡ err e)
        × ((with_writer out pf body s).1.status.first_failure_phase
            ≡ some (or_else u.status.first_failure_phase u.status.phase))
  unfolding with_writer noting failed_now failed_first failed_if finally_close closed failed
      note_failure emit at_phase
  with_writer-first pf body s t u e h k =
      rw (h, k)
        (closed-kept pf (pf.close u.world).0 (or_else u.status.first_failure_phase u.status.phase) e
          _ refl)
