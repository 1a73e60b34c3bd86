-- ===== src/Examples/Tapes.antt =====
-- A tape of the fixed universe, its captures and acknowledgements.
use kairos_quant_scouts.Prelude.{ℕ, ◌≡◌, refl, true, none, some, List, [], ◌∷◌, String, str_eq}
use kairos_quant_scouts.Prelude.Int.{pos}
use kairos_quant_scouts.Prelude.Result.{ok}
use kairos_quant_scouts.Examples.{numbers}
use kairos_quant_scouts.OrderBook.{Level, normalize_order_book}
use kairos_quant_scouts.Tape.Book.{normalize_simulation_book}
use kairos_quant_scouts.Tape.State.{
  PyInt, int, Continuity, Frame, Host, Recorder, simulation_symbols,
}
use kairos_quant_scouts.Tape.Ops.{
  begin_public_stream, acknowledge, init, refuse_blocked, active_epoch, reserve_capture_capacity,
  normalize_symbol, validate_timestamp, record_frame,
}
use kairos_quant_scouts.Tape.Capture.{Depth, capture_depth}
use kairos_quant_scouts.Tape.Invariant.{IsValid}
use kairos_quant_scouts.Tape.Captures.{init-IsValid}
use kairos_quant_scouts.Tape.Traces.{
  Call, begin, capture, ack, run, run-IsValid, IsFrozen, run-IsFrozen,
}
use kairos_quant_scouts.Tape.Safety.{
  begin_public_stream-first, acknowledge_head, IsCaptured, capture_depth-IsCaptured,
}

abbrev host : Host numbers
host = record {
  strip = λ s. s;
  upper = λ s. s;
  payload_sha256 = λ s. some s;
  marker_sha256 = λ m. m.reason;
  contract_accepts = λ f. true;
  contract_sha256 = λ f. some f.raw_payload_sha256;
}

abbrev empty_tape : Recorder numbers
empty_tape = record {
  tape_id = "tape";
  source = "source";
  capacity = 3;
  pending = [];
  next_sequence = 1;
  previous_frame_sha256 = none;
  stream_epoch = none;
  epoch_number = 0;
  last_update_id = λ s. none;
  blocked_reason = none;
}

abbrev at : ℕ → PyInt
at n = int (pos n)

abbrev bids : List (Level numbers)
bids = record { price = 100; size = 1 } ∷ []

abbrev asks : List (Level numbers)
asks = record { price = 101; size = 2 } ∷ []

abbrev depth : ℕ → String → Depth numbers
depth id payload = record {
  raw_payload = some payload;
  symbol = some "BTCUSDT";
  exchange_update_id = at id;
  exchange_at_ms = at 5;
  received_at_ms = at 6;
  bids = bids;
  asks = asks;
}

abbrev open_tape : Recorder numbers
open_tape = record empty_tape { stream_epoch = some 1; epoch_number = 1 }

abbrev first_frame : Frame numbers
first_frame = record {
  fields = record {
    source = "source";
    tape_id = "tape";
    stream_epoch = 1;
    symbol = "BTCUSDT";
    tape_sequence = 1;
    exchange_update_id = 7;
    exchange_at_ms = 5;
    received_at_ms = 6;
    persisted_at_ms = 9;
    raw_payload_sha256 = "p";
    previous_frame_sha256 = none;
    continuity = Continuity.admitted;
    bids = bids;
    asks = asks;
  };
  frame_sha256 = "p";
}

abbrev one_frame : Recorder numbers
one_frame = record open_tape {
  pending = first_frame ∷ [];
  next_sequence = 2;
  previous_frame_sha256 = some "p";
}

made : init host "tape" (λ ss. ss) simulation_symbols "source" (at 3) ≡ ok empty_tape
unfolding init
made = refl

init-IsValid_example : IsValid empty_tape
init-IsValid_example = init-IsValid host "tape" (λ ss. ss) simulation_symbols "source" (at 3) made

empty_tape-IsValid : IsValid empty_tape
empty_tape-IsValid = init-IsValid host "tape" (λ ss. ss) simulation_symbols "source" (at 3) made

captured : (capture_depth host (depth 7 "p") (at 9) open_tape).0 ≡ ok first_frame
unfolding capture_depth refuse_blocked active_epoch reserve_capture_capacity normalize_symbol
    validate_timestamp normalize_simulation_book normalize_order_book record_frame
captured = refl

-- Begin, two captures that fill what is not reserved, one that overflows, and an acknowledgement.
abbrev calls : List (Call numbers)
calls =
    begin (at 1)
    ∷ capture (depth 7 "p") (at 9)
    ∷ capture (depth 8 "q") (at 9)
    ∷ capture (depth 9 "r") (at 9)
    ∷ ack "p"
    ∷ []

overflown : (run host calls empty_tape).blocked_reason ≡ some "PENDING_QUEUE_OVERFLOW"
unfolding run acknowledge begin_public_stream capture_depth refuse_blocked active_epoch
    reserve_capture_capacity normalize_symbol normalize_simulation_book normalize_order_book
    record_frame
overflown = refl

run-IsValid_example : IsValid (run host calls empty_tape)
run-IsValid_example = run-IsValid host calls empty_tape empty_tape-IsValid

abbrev blocked_tape : Recorder numbers
blocked_tape = record one_frame { blocked_reason = some "GAP" }

run-IsFrozen_example : IsFrozen host blocked_tape (run host calls blocked_tape)
run-IsFrozen_example = run-IsFrozen host calls blocked_tape "GAP" refl

begun : (begin_public_stream (at 1) empty_tape).0 ≡ ok 1
unfolding begin_public_stream
begun = refl

abbrev one : ℕ
one = 1

begin_public_stream-first_example :
    (empty_tape.epoch_number ≡ 0)
    × (one ≡ 1)
    × ((begin_public_stream (at 1) empty_tape).1.stream_epoch ≡ some 1)
    × (empty_tape.blocked_reason ≡ none)
begin_public_stream-first_example =
    begin_public_stream-first (at 1) empty_tape empty_tape-IsValid begun

acknowledged : (acknowledge "p" one_frame).0 ≡ ok tt
unfolding acknowledge
acknowledged = refl

acknowledge_head_example :
    (f : Frame numbers) × (one_frame.pending ≡ f ∷ (acknowledge "p" one_frame).1.pending)
    × (str_eq "p" f.frame_sha256 ≡ true)
acknowledge_head_example = acknowledge_head "p" one_frame acknowledged

capture_depth-IsCaptured_example :
    IsCaptured host
      (depth 7 "p")
      open_tape
      first_frame
      (capture_depth host (depth 7 "p") (at 9) open_tape).1
capture_depth-IsCaptured_example =
    capture_depth-IsCaptured host (depth 7 "p") (at 9) open_tape first_frame captured
