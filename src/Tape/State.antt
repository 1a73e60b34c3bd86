-- ===== src/Tape/State.antt =====
-- The state of `SimulationBookTapeRecorder` (kairos_quant/simulation_book.py), its frames, and what
-- it takes from elsewhere: the frame contract of kairos_core, the hash, the text methods.
use kairos_quant_scouts.Prelude.{
  ℕ, Bool, true, false, ◌&&◌, Option, none, some, List, [], ◌∷◌, String, str_eq, length,
  if◌then◌else◌,
}
use kairos_quant_scouts.Prelude.Int.{ℤ}
use kairos_quant_scouts.Prelude.Text.{Table}
use kairos_quant_scouts.Prelude.Action.{Action}
use kairos_quant_scouts.Floats.{Floats}
use kairos_quant_scouts.OrderBook.{Level}

-- What stands where an integer is expected: an integer, or a Boolean or any other object.
pub data PyInt : Type 0 where
  int : ℤ → PyInt
  other : PyInt

-- `_CONTINUITIES`, and the one of a recorded book
pub data Continuity : Type 0 where
  gap reconnect unknown unavailable admitted : Continuity

pub data TapeError : Type 0 where
  -- `SimulationBookTapeBlocked`, with the reason that its message names
  tape_blocked : String → TapeError
  -- `SimulationBookQueueOverflow`
  queue_overflow : TapeError
  -- other uses of `SimulationBookCaptureError`
  not_started already_active bad_symbol queue_empty not_the_head : TapeError
  value_error assertion_error : TapeError
  -- the frame contract refuses the fields
  contract_error : TapeError

abbrev pub simulation_symbols : List String
simulation_symbols = "BNBUSDT" ∷ "BTCUSDT" ∷ "ETHUSDT" ∷ "SOLUSDT" ∷ "XRPUSDT" ∷ []

-- The fields of `RecordedTopNBookFrameV1` that the recorder sets. The epoch text
-- `public-{n:06d}` is held as its number.
pub record FrameFields (fl : Floats) : Type 0 where
  pub source : String
  pub tape_id : String
  pub stream_epoch : ℕ
  pub symbol : String
  pub tape_sequence : ℕ
  pub exchange_update_id : ℕ
  pub exchange_at_ms : ℕ
  pub received_at_ms : ℕ
  pub persisted_at_ms : ℕ
  pub raw_payload_sha256 : String
  pub previous_frame_sha256 : Option String
  pub continuity : Continuity
  pub bids : List (Level fl)
  pub asks : List (Level fl)

-- A frame with the identity that its contract computes.
pub record Frame (fl : Floats) : Type 0 where
  pub fields : FrameFields fl
  pub open fields use *
  pub frame_sha256 : String

-- The JSON object that a barrier hashes.
pub record Marker : Type 0 where
  pub at_ms : ℕ
  pub continuity : Continuity
  pub reason : String
  pub stream_epoch : ℕ
  pub tape_id : String

-- Code that the recorder calls: text methods, the hash of a payload (`none` where the text has no
-- UTF-8 form), the hash of a marker, and the contract, which refuses fields or computes an identity.
pub record Host (fl : Floats) : Type 0 where
  pub strip : String → String
  pub upper : String → String
  pub payload_sha256 : String → Option String
  pub marker_sha256 : Marker → String
  pub contract_accepts : FrameFields fl → Bool
  pub contract_sha256 : FrameFields fl → Option String

pub record Recorder (fl : Floats) : Type 0 where
  pub tape_id : String
  pub source : String
  pub capacity : ℕ
  pub pending : List (Frame fl)
  pub next_sequence : ℕ
  pub previous_frame_sha256 : Option String
  pub stream_epoch : Option ℕ
  pub epoch_number : ℕ
  pub last_update_id : Table ℕ
  pub blocked_reason : Option String

abbrev pub Tape : Floats → Type 0 → Type 0
Tape fl A = Action (Recorder fl) TapeError A

-- `SimulationBookRecorderStatus`
pub data Phase : Type 0 where
  idle recording blocked : Phase

pub record Status : Type 0 where
  pub tape_id : String
  pub state : Phase
  pub stream_epoch : Option ℕ
  pub next_tape_sequence : ℕ
  pub pending_frames : ℕ
  pub blocked_reason : Option String

abbrev pub is_some {ℓ} : {A : Type ℓ} → Option A → Bool
is_some none = false
is_some (some _) = true

unfoldable pub status : {fl : Floats} → Recorder fl → Status
status r = record {
  tape_id = r.tape_id;
  state =
      if is_some r.blocked_reason
      then blocked
      else if is_some r.stream_epoch
      then recording
      else idle;
  stream_epoch = r.stream_epoch;
  next_tape_sequence = r.next_sequence;
  pending_frames = length r.pending;
  blocked_reason = r.blocked_reason;
}

-- the sorted, normalised symbols are the fixed universe
unfoldable pub same_texts : List String → List String → Bool
same_texts [] [] = true
same_texts (s ∷ ss) (t ∷ ts) = str_eq s t && same_texts ss ts
same_texts _ _ = false
