-- ===== src/Recovery/Status.antt =====
-- `RecoveryStatus` of kairos_quant/long_gap_recovery.py, and the state of a run.
use kairos_quant_scouts.Prelude.{
  ℕ, suc, ◌+◌, Bool, true, false, ◌||◌, Option, none, some, List, [], ◌∷◌, ◌++◌, String,
  if◌then◌else◌,
}
use kairos_quant_scouts.Prelude.Int.{ℤ, sub_ℕ}
use kairos_quant_scouts.Prelude.Text.{Table, put}
use kairos_quant_scouts.Prelude.Action.{Action, modify}
use kairos_quant_scouts.Floats.{Floats}
use kairos_quant_scouts.Tape.State.{PyInt}
use kairos_quant_scouts.Recovery.Contract.{Contract, Outside}

-- the texts of `phase`
pub data Phase : Type 0 where
  validate_settings validate_interval rest_get_first rest_validate_first confirmation_delay : Phase
  rest_get_second rest_validate_second confirmation_compare durable_publish page_committed : Phase
  restore_read restore_validate validate_budget rest_session_open rest_session_close : Phase
  build_offline_writer offline_writer_start offline_writer_close finished : Phase
  verify_runtime_identity : Phase

-- the texts of `state` in a record that is emitted
pub data State : Type 0 where
  started progress failed_state paused_limit completed : State

pub data RecoveryError : Type 0 where
  page_incomplete row_malformed bars_reordered boolean_values : RecoveryError
  invalid_interval confirmation_conflict history_not_contiguous no_anchor : RecoveryError
  deadline_precedes_history over_budget bad_append_limit bad_deadline : RecoveryError
  no_exact_remaining bad_database_name wrong_profile wrong_manifest wrong_identity : RecoveryError
  -- an exception that is no `RecoveryError`: a REST, database or contract failure
  operation_failed : RecoveryError

pub record Status : Type 0 where
  pub phase : Phase
  pub symbol : Option String
  pub window_start_ms : Option ℕ
  pub window_end_exclusive_ms : Option ℕ
  pub last_progress_at_utc : Option String
  pub confirmed_through_exclusive_ms : Table ℕ
  pub total_appended_bars : ℕ
  pub first_failure_phase : Option Phase
  pub end_exclusive_ms : Option ℕ
  pub maximum_append_bars : Option PyInt
  pub planned_remaining_bars : Option ℕ
  pub publish_outcome_unknown : Bool

unfoldable pub remaining_bars : Status → Option ℤ
remaining_bars t = elim t.planned_remaining_bars [
  | none ↦ none
  | some planned ↦
      if t.publish_outcome_unknown then none else some (sub_ℕ planned t.total_appended_bars)
]

abbrev pub enter : Phase → Option String → Option ℕ → Option ℕ → Status → Status
enter phase symbol start end t = record t {
  phase = phase;
  symbol = symbol;
  window_start_ms = start;
  window_end_exclusive_ms = end;
}

-- `publish_outcome` of a failure: whether the phase is that of the durable publish
abbrev pub is_publish : Phase → Bool
is_publish Phase.durable_publish = true
is_publish _ = false

abbrev pub or_else : {A : Type 0} → Option A → A → A
or_else none a = a
or_else (some b) a = b

-- What `failed` notes before it emits the record.
unfoldable pub note_failure : Status → Status
note_failure t = record t {
  first_failure_phase = some (or_else t.first_failure_phase t.phase);
  publish_outcome_unknown = t.publish_outcome_unknown || is_publish t.phase;
}

-- A record that is emitted: its state, the status at that moment, and the error of a failure.
pub record Report : Type 0 where
  pub state : State
  pub status : Status
  pub error : Option RecoveryError

module _ {fl : Floats} {ct : Contract fl} (out : Outside ct) where
  -- The state of a run. `published` is what the durable writer has stored in it.
  pub record Run : Type 0 where
    pub status : Status
    pub published : List ct.E
    pub emitted : List Report
    pub world : out.W

  abbrev pub Recovery : Type 0 → Type 0
  Recovery A = Action Run RecoveryError A

  unfoldable pub at_phase : Phase → Option String → Option ℕ → Option ℕ → Run → Run
  at_phase phase symbol start end s = record s { status = enter phase symbol start end s.status }

  abbrev pub entering : Phase → Option String → Option ℕ → Option ℕ → Recovery (Unit {0})
  entering phase symbol start end = modify (at_phase phase symbol start end)

  -- `confirmed`
  unfoldable pub confirmed : ct.E → Bool → Run → Run
  confirmed e appended s = record s {
    status = record s.status {
      confirmed_through_exclusive_ms =
          put (ct.symbol e) (ct.close_time_ms e + 1) s.status.confirmed_through_exclusive_ms;
      last_progress_at_utc = some (out.now_utc s.world);
      total_appended_bars =
          if appended then suc s.status.total_appended_bars else s.status.total_appended_bars;
    };
  }

  -- `record`
  unfoldable pub emit : State → Option RecoveryError → Run → Run
  emit state error s = record s {
    emitted = s.emitted ++ (record { state = state; status = s.status; error = error }) ∷ [];
  }

  -- `failed`
  unfoldable pub failed : RecoveryError → Run → Run
  unfolding note_failure emit
  failed e s = emit failed_state (some e) (record s { status = note_failure s.status })
