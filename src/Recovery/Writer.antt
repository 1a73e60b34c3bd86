-- ===== src/Recovery/Writer.antt =====
-- `run_recovery` and `_run_recovery` of kairos_quant/long_gap_recovery.py and of
-- kairos_quant/controlled_runtime_data_recovery.py: the life of the durable writer, the failure that is
-- kept and the final report. The checks are in Recovery/Runs.
use kairos_quant_scouts.Prelude.{
  ℕ, zero, Bool, true, false, not, ◌||◌, Option, none, some, String, str_eq,
}
use kairos_quant_scouts.Prelude.Int.{ℤ, pos, negsuc, pos_part}
use kairos_quant_scouts.Prelude.Result.{Result, ok, err}
use kairos_quant_scouts.Prelude.Action.{pure, raise_if, modify, ◌>>=◌, ◌>>◌}
use kairos_quant_scouts.Floats.{Floats}
use kairos_quant_scouts.Tape.State.{PyInt}
use kairos_quant_scouts.Recovery.Contract.{Contract, Outside}
use kairos_quant_scouts.Recovery.Status.{
  Phase, RecoveryError, bad_append_limit, bad_deadline, bad_database_name, wrong_profile,
  wrong_manifest, wrong_identity, no_exact_remaining, operation_failed, State, remaining_bars, Run,
  Recovery, at_phase, entering, emit, failed,
}
use kairos_quant_scouts.Recovery.Symbol.{answer, returned}
use kairos_quant_scouts.Recovery.Lease.{recover_with_lease}
use kairos_quant_scouts.Recovery.Runs.{
  Profile, long_gap, controlled_runtime, Platform, maximum_run, bad_limit, between, bad_end,
  wrong_settings, same_names, controlled_runtime_schema_versions, schema_versions, limit_number,
}

-- `remaining is None or remaining < 0`
unfoldable pub inexact : Option ℤ → Bool
inexact none = true
inexact (some (pos _)) = false
inexact (some (negsuc _)) = true

-- `"PAUSED_LIMIT" if remaining else "COMPLETED"`
unfoldable pub final_state : Option ℤ → State
final_state (some (pos zero)) = State.completed
final_state _ = State.paused_limit

module _ {fl : Floats} {ct : Contract fl} (out : Outside ct) where
  -- the handler of an `except BaseException as exc: <note>; raise`
  unfoldable pub noting :
      {A : Type 0}
      → (RecoveryError → Run out → Run out)
      → Result RecoveryError A × Run out
      → Result RecoveryError A × Run out
  noting note (ok a, t) = (ok a, t)
  noting note (err e, t) = (err e, note e t)

  -- `status.failed(exc)`, and the same under `if status.first_failure_phase is None`
  unfoldable pub failed_now : RecoveryError → Run out → Run out
  unfolding failed
  failed_now e t = failed out e t

  unfoldable pub failed_if : Option Phase → RecoveryError → Run out → Run out
  unfolding failed_now
  failed_if none e t = failed_now e t
  failed_if (some _) e t = t

  unfoldable pub failed_first : RecoveryError → Run out → Run out
  unfolding failed_if
  failed_first e t = failed_if t.status.first_failure_phase e t

  module _ (pf : Platform out) where
    -- the `finally` of `_run_recovery`, once the phase is entered and `close` has answered
    unfoldable pub closed :
        {A : Type 0}
        → Bool
        → Option Phase
        → Result RecoveryError A
        → Run out
        → Result RecoveryError A × Run out
    unfolding failed_now
    closed true earlier r t = (r, t)
    closed false none r t = (err operation_failed, failed_now operation_failed t)
    closed false (some _) r t = (r, failed_now operation_failed t)

    unfoldable pub finally_close :
        {A : Type 0} → Result RecoveryError A × Run out → Result RecoveryError A × Run out
    unfolding closed at_phase
    finally_close (r, t) =
        let entered = at_phase out Phase.offline_writer_close none none none t in
        let (okay, w) = pf.close entered.world in
        closed okay entered.status.first_failure_phase r (record entered { world = w })

    -- `async with ... fetchrow(...)`, then the grants
    unfoldable pub verify_runtime_identity : Recovery out (Unit {0})
    verify_runtime_identity = do
      row ← (λ s. answer out (pf.identity s.world) s)
      raise_if (wrong_actor row) wrong_identity
      λ s. returned out (pf.verify_access s.world) s
      where
        wrong_actor : Option (String × String) → Bool
        wrong_actor none = true
        wrong_actor (some (current, session)) =
            not (str_eq current "kairos_runtime") || not (str_eq session "kairos_runtime")

    -- the identity check, which only one of the profiles has
    unfoldable pub verified : Profile → Recovery out (Unit {0})
    unfolding verify_runtime_identity at_phase
    verified long_gap = pure tt
    verified controlled_runtime = do
      entering out Phase.verify_runtime_identity none none none
      verify_runtime_identity

    -- the `try` of `_run_recovery`, its handlers and its `finally`
    unfoldable pub with_writer : Recovery out (Unit {0}) → Recovery out (Unit {0})
    unfolding noting failed_now failed_first finally_close at_phase
    with_writer body s = finally_close (
        noting failed_first (
          (do
            entering out Phase.offline_writer_start none none none
            λ t. returned out (pf.start t.world) t
            λ t. noting failed_now (body t))
            s))

    -- `maximum_bars` is an integer, as its annotation says and the command line parses it; the append
    -- limit may be another object.
    module _ (profile : Profile) (end_exclusive : ℕ) (maximum_bars : ℤ)
        (maximum_append_bars : Option PyInt) (database : String) where
      -- the checks that one of the profiles makes before the settings
      unfoldable pub early_checks : Profile → Recovery out (Unit {0})
      unfolding between same_names
      early_checks long_gap = pure tt
      early_checks controlled_runtime = do
        raise_if (not (between maximum_bars (pos maximum_run))) bad_deadline
        raise_if (not (same_names pf.migration_names controlled_runtime_schema_versions))
            wrong_manifest

      unfoldable pub late_budget : Profile → Bool
      unfolding between
      late_budget long_gap = not (between maximum_bars (pos maximum_run))
      late_budget controlled_runtime = false

      -- the checks of `_run_recovery`
      unfoldable pub preflight : Recovery out (Unit {0})
      unfolding bad_limit early_checks wrong_settings bad_end late_budget
      preflight = do
        raise_if (bad_limit maximum_append_bars maximum_bars) bad_append_limit
        raise_if (pf.blank database) bad_database_name
        early_checks profile
        settings ← (λ s. answer out (pf.settings s.world) s)
        raise_if (wrong_settings settings) wrong_profile
        λ s.
            raise_if (bad_end end_exclusive (pf.now_ms s.world) settings || late_budget profile)
              bad_deadline s

      -- `_run_recovery`
      unfoldable pub run_checked : Recovery out (Unit {0})
      unfolding preflight schema_versions verified with_writer recover_with_lease limit_number
          at_phase
      run_checked = do
        preflight
        entering out Phase.build_offline_writer none none none
        λ s. returned out (pf.build profile (schema_versions profile) s.world) s
        with_writer (do
          verified profile
          recover_with_lease out end_exclusive (pos_part maximum_bars)
              (limit_number maximum_append_bars))

      -- the start of `run_recovery`
      unfoldable pub started : Run out → Run out
      unfolding emit
      started s = emit out State.started none (record s {
        status = record s.status {
          end_exclusive_ms = some end_exclusive;
          maximum_append_bars = maximum_append_bars;
        };
      })

      -- `run_recovery`
      unfoldable pub run_recovery : Recovery out (Unit {0})
      unfolding noting failed_first started run_checked inexact final_state remaining_bars emit
          at_phase
      run_recovery = do
        modify started
        λ s. noting failed_first (
            (do run_checked; λ t. raise_if (inexact (remaining_bars t.status)) no_exact_remaining t)
              s)
        λ s.
            let remaining = remaining_bars s.status in
            (
              ok tt,
              emit out (final_state remaining) none (at_phase out Phase.finished none none none s),
            )
