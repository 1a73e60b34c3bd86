-- ===== src/Tape/Ops.antt =====
-- The methods of `SimulationBookTapeRecorder` (kairos_quant/simulation_book.py). An action returns
-- its result or the exception, and the state that it leaves. `now` is what the wall clock returns
-- if the method reads it; no method reads it twice.
use kairos_quant_scouts.Prelude.{
  ℕ, suc, ◌+◌, ◌-◌, Bool, false, not, ◌&&◌, ◌||◌, Option, none, some, List, [], ◌∷◌, ◌++◌, String,
  str_eq, leb, ltb, length, max, if◌then◌else◌,
}
use kairos_quant_scouts.Prelude.Int.{pos, negsuc}
use kairos_quant_scouts.Prelude.Text.{codes, put, one_of}
use kairos_quant_scouts.Prelude.Result.{Result, ok, err}
use kairos_quant_scouts.Prelude.Action.{pure, raise, ◌>>=◌, ◌>>◌, raise_if, modify, gets}
use kairos_quant_scouts.Floats.{Floats}
use kairos_quant_scouts.OrderBook.{Level}
use kairos_quant_scouts.Tape.State.{
  PyInt, int, other, Continuity, unknown, admitted, TapeError, tape_blocked, queue_overflow,
  not_started, already_active, bad_symbol, queue_empty, not_the_head, value_error, assertion_error,
  contract_error, simulation_symbols, FrameFields, Frame, Host, Recorder, Tape, is_some, same_texts,
}

-- `exchange_update_id` that is an integer above 0
abbrev pub update_number : PyInt → Option ℕ
update_number (int (pos (suc n))) = some (suc n)
update_number _ = none

-- `prior_update_id is not None and exchange_update_id <= prior_update_id`
abbrev pub regressed : Option ℕ → ℕ → Bool
regressed none id = false
regressed (some prior) id = leb id prior

module _ {fl : Floats} where
  -- `_validate_timestamp`
  unfoldable pub validate_timestamp : PyInt → Tape fl ℕ
  validate_timestamp (int (pos n)) = pure n
  validate_timestamp (int (negsuc _)) = raise value_error
  validate_timestamp other = raise value_error

  -- `if self._blocked_reason is not None: raise ...`
  unfoldable pub refuse_blocked : Tape fl (Unit {0})
  refuse_blocked r = elim r.blocked_reason [
    | none ↦ pure tt r
    | some reason ↦ raise (tape_blocked reason) r
  ]

  -- `if self._stream_epoch is None: raise ...`
  unfoldable pub active_epoch : Tape fl ℕ
  active_epoch r = elim r.stream_epoch [ none ↦ raise not_started r | some n ↦ pure n r ]

  unfoldable pub begin_public_stream : PyInt → Tape fl ℕ
  unfolding validate_timestamp refuse_blocked
  begin_public_stream connected_at_ms = do
    validate_timestamp connected_at_ms
    refuse_blocked
    raise_if (is_some (← gets (λ r. r.stream_epoch))) already_active
    modify (λ r. record r {
      stream_epoch = some (r.epoch_number + 1);
      epoch_number = r.epoch_number + 1;
    })
    gets (λ r. r.epoch_number)

  -- `_append`
  unfoldable pub append : Frame fl → Tape fl (Unit {0})
  append f = modify (λ r. record r {
    pending = r.pending ++ f ∷ [];
    next_sequence = r.next_sequence + 1;
    previous_frame_sha256 = some f.frame_sha256;
  })

  -- `_reserve_capture_capacity`
  unfoldable pub reserve_capture_capacity : Tape fl (Unit {0})
  reserve_capture_capacity r =
      if ltb (length r.pending) (r.capacity - 1)
      then pure tt r
      else raise queue_overflow (record r { blocked_reason = some "PENDING_QUEUE_OVERFLOW" })

  unfoldable pub acknowledge : String → Tape fl (Unit {0})
  acknowledge frame_sha256 r = elim r.pending [
    | [] ↦ raise queue_empty r
    | f ∷ fs ↦
        if str_eq frame_sha256 f.frame_sha256
        then pure tt (record r { pending = fs })
        else raise not_the_head r
  ]

module _ {fl : Floats} (host : Host fl) where
  open host use {strip, upper, payload_sha256, marker_sha256, contract_accepts, contract_sha256}

  -- the constructor; `symbols` holds what the caller passes, sorted after the normalisation
  unfoldable pub init :
      String
      → (List String → List String)
      → List String
      → String
      → PyInt
      → Result TapeError (Recorder fl)
  unfolding same_texts
  init tape_id normalized symbols source (int (pos max_pending_frames)) =
      if str_eq tape_id ""
        || not (str_eq tape_id (strip tape_id))
        || ltb 128 (length (codes tape_id))
      then err value_error
      else if str_eq source "" || not (str_eq source (strip source))
      then err value_error
      else if not (same_texts (normalized symbols) simulation_symbols)
      then err value_error
      else if leb max_pending_frames 1
      then err value_error
      else ok (record {
        tape_id = tape_id;
        source = source;
        capacity = max_pending_frames;
        pending = [];
        next_sequence = 1;
        previous_frame_sha256 = none;
        stream_epoch = none;
        epoch_number = 0;
        last_update_id = λ _. none;
        blocked_reason = none;
      })
  init tape_id normalized symbols source _ = err value_error

  -- `_build_frame` of the fields, with the contract's refusal, and the assertion of `_append`
  unfoldable pub build_frame : FrameFields fl → Tape fl (Frame fl)
  build_frame fields r =
      if contract_accepts fields
      then elim (contract_sha256 fields) [
        | none ↦ raise assertion_error r
        | some sha ↦ pure (record { fields = fields; frame_sha256 = sha }) r
      ]
      else raise contract_error r

  -- the fields of a barrier frame, once its epoch number is `epoch`
  unfoldable pub barrier_fields : Recorder fl → Continuity → String → ℕ → ℕ → FrameFields fl
  barrier_fields r continuity reason at_ms now = record {
    source = r.source;
    tape_id = r.tape_id;
    stream_epoch = r.epoch_number;
    symbol = "BNBUSDT";
    tape_sequence = r.next_sequence;
    exchange_update_id = 1;
    exchange_at_ms = at_ms;
    received_at_ms = at_ms;
    persisted_at_ms = max at_ms now;
    raw_payload_sha256 = marker_sha256 (record {
      at_ms = at_ms;
      continuity = continuity;
      reason = reason;
      stream_epoch = r.epoch_number;
      tape_id = r.tape_id;
    });
    previous_frame_sha256 = r.previous_frame_sha256;
    continuity = continuity;
    bids = [];
    asks = [];
  }

  -- `_block_with_barrier` after its timestamp and room are checked
  unfoldable pub write_barrier : Continuity → ℕ → String → PyInt → Tape fl (Frame fl)
  unfolding validate_timestamp build_frame barrier_fields append
  write_barrier continuity at_ms reason now = do
    modify (λ r. record r { epoch_number = r.epoch_number + 1 })
    clock ← validate_timestamp now
    fields ← gets (λ r. barrier_fields r continuity reason at_ms clock)
    frame ← build_frame fields
    append frame
    modify (λ r. record r { stream_epoch = none; blocked_reason = some reason })
    pure frame

  -- `_block_with_barrier`
  unfoldable pub block_with_barrier : Continuity → PyInt → String → PyInt → Tape fl (Frame fl)
  unfolding validate_timestamp write_barrier
  block_with_barrier continuity at_ms reason now = do
    at ← validate_timestamp at_ms
    full ← gets (λ r. ltb r.capacity (length r.pending + 1))
    if full
        then (λ r.
            raise queue_overflow
              (record r { blocked_reason = some "SOURCE_BARRIER_QUEUE_OVERFLOW" }))
        else write_barrier continuity at reason now

  -- a barrier, and then `SimulationBookTapeBlocked`
  unfoldable pub block_capture : PyInt → String → PyInt → Tape fl (Frame fl)
  unfolding block_with_barrier
  block_capture received_at_ms reason now = do
    block_with_barrier unknown received_at_ms reason now
    raise (tape_blocked reason)

  -- `_normalize_symbol`; `none` stands for an argument that is no text
  unfoldable pub normalize_symbol : Option String → Tape fl String
  normalize_symbol none = raise bad_symbol
  normalize_symbol (some symbol) =
      if one_of (upper (strip symbol)) simulation_symbols && str_eq symbol (upper (strip symbol))
      then pure symbol
      else raise bad_symbol

  -- the fields of a frame that holds a checked book
  unfoldable pub capture_fields :
      Recorder fl
      → ℕ
      → String
      → String
      → ℕ
      → ℕ
      → ℕ
      → List (Level fl) × List (Level fl)
      → ℕ
      → FrameFields fl
  capture_fields r epoch payload_sha symbol update_id exchange_at received_at book clock = record {
    source = r.source;
    tape_id = r.tape_id;
    stream_epoch = epoch;
    symbol = symbol;
    tape_sequence = r.next_sequence;
    exchange_update_id = update_id;
    exchange_at_ms = exchange_at;
    received_at_ms = received_at;
    persisted_at_ms = max received_at clock;
    raw_payload_sha256 = payload_sha;
    previous_frame_sha256 = r.previous_frame_sha256;
    continuity = admitted;
    bids = book.0;
    asks = book.1;
  }

  -- the end of `capture_depth`
  unfoldable pub record_frame :
      ℕ
      → String
      → String
      → ℕ
      → ℕ
      → ℕ
      → List (Level fl) × List (Level fl)
      → PyInt
      → Tape fl (Frame fl)
  unfolding validate_timestamp build_frame capture_fields append
  record_frame epoch payload_sha symbol update_id exchange_at received_at book now = do
    clock ← validate_timestamp now
    fields ← gets (λ r.
        capture_fields r epoch payload_sha symbol update_id exchange_at received_at book clock)
    frame ← build_frame fields
    append frame
    modify (λ r. record r { last_update_id = put symbol update_id r.last_update_id })
    pure frame
