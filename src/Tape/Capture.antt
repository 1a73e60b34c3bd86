-- ===== src/Tape/Capture.antt =====
-- `capture_depth` and `record_source_barrier` of `SimulationBookTapeRecorder`
-- (kairos_quant/simulation_book.py), stage by stage.
use kairos_quant_scouts.Prelude.{
  ℕ, Bool, true, false, not, ◌&&◌, ◌||◌, Option, none, some, List, [], ◌∷◌, ◌==◌, String, str_eq,
  leb, ltb, length, if◌then◌else◌,
}
use kairos_quant_scouts.Prelude.Text.{codes}
use kairos_quant_scouts.Prelude.Result.{ok, err}
use kairos_quant_scouts.Prelude.Action.{◌>>=◌, ◌>>◌, raise_if}
use kairos_quant_scouts.Floats.{Floats}
use kairos_quant_scouts.OrderBook.{Level}
use kairos_quant_scouts.Tape.Book.{normalize_simulation_book}
use kairos_quant_scouts.Tape.State.{PyInt, Continuity, admitted, value_error, Frame, Host, Tape}
use kairos_quant_scouts.Tape.Ops.{
  validate_timestamp, refuse_blocked, active_epoch, reserve_capture_capacity, block_with_barrier,
  block_capture, normalize_symbol, record_frame, update_number, regressed,
}

-- The arguments of `capture_depth`; a payload or a symbol that is no text is `none`.
pub record Depth (fl : Floats) : Type 0 where
  pub raw_payload : Option String
  pub symbol : Option String
  pub exchange_update_id : PyInt
  pub exchange_at_ms : PyInt
  pub received_at_ms : PyInt
  pub bids : List (Level fl)
  pub asks : List (Level fl)

-- a code point that `[A-Z0-9_]` matches
abbrev pub snake_code : ℕ → Bool
snake_code c = leb b'A' c && leb c b'Z' || leb b'0' c && leb c b'9' || c == b'_'

abbrev pub all_snake : List ℕ → Bool
all_snake [] = true
all_snake (c ∷ cs) = snake_code c && all_snake cs

-- the continuities that `_CONTINUITIES` holds
abbrev pub is_source_gap : Continuity → Bool
is_source_gap admitted = false
is_source_gap _ = true

module _ {fl : Floats} (host : Host fl) where
  open host use {strip, payload_sha256}

  -- the book and the payload are checked
  unfoldable pub capture_book :
      Depth fl → ℕ → String → String → ℕ → ℕ → ℕ → PyInt → Tape fl (Frame fl)
  capture_book d epoch payload symbol exchange_at received_at id now =
      elim (normalize_simulation_book fl d.bids d.asks 10) [
        | err _ ↦ block_capture host d.received_at_ms "INVALID_BOOK" now
        | ok book ↦ elim (payload_sha256 payload) [
          | none ↦ block_capture host d.received_at_ms "RAW_PAYLOAD_NOT_UTF8" now
          | some sha ↦ record_frame host epoch sha symbol id exchange_at received_at book now
        ]
      ]

  -- the update identifier is a number above 0
  unfoldable pub capture_numbered :
      Depth fl → ℕ → String → String → ℕ → ℕ → ℕ → PyInt → Tape fl (Frame fl)
  capture_numbered d epoch payload symbol exchange_at received_at id now r =
      if regressed (r.last_update_id symbol) id
      then block_capture host d.received_at_ms "UPDATE_ID_REGRESSION" now r
      else capture_book d epoch payload symbol exchange_at received_at id now r

  -- the clocks are in order
  unfoldable pub capture_update :
      Depth fl → ℕ → String → String → ℕ → ℕ → PyInt → Tape fl (Frame fl)
  capture_update d epoch payload symbol exchange_at received_at now =
      elim (update_number d.exchange_update_id) [
        | none ↦ block_capture host d.received_at_ms "INVALID_UPDATE_ID" now
        | some id ↦ capture_numbered d epoch payload symbol exchange_at received_at id now
      ]

  -- the payload is a text
  unfoldable pub capture_text : Depth fl → ℕ → String → PyInt → Tape fl (Frame fl)
  capture_text d epoch payload now = do
    symbol ← normalize_symbol host d.symbol
    exchange_at ← validate_timestamp d.exchange_at_ms
    received_at ← validate_timestamp d.received_at_ms
    if ltb received_at exchange_at
        then block_capture host d.received_at_ms "SOURCE_CLOCK_REGRESSION" now
        else capture_update d epoch payload symbol exchange_at received_at now

  unfoldable pub capture_payload : Depth fl → ℕ → PyInt → Tape fl (Frame fl)
  capture_payload d epoch now = elim d.raw_payload [
    | none ↦ block_capture host d.received_at_ms "RAW_PAYLOAD_NOT_TEXT" now
    | some payload ↦ capture_text d epoch payload now
  ]

  unfoldable pub capture_depth : Depth fl → PyInt → Tape fl (Frame fl)
  unfolding capture_payload capture_text capture_update capture_numbered capture_book
  capture_depth d now = do
    refuse_blocked
    epoch ← active_epoch
    reserve_capture_capacity
    capture_payload d epoch now

  -- `not reason or reason != reason.strip() or not re.fullmatch(r"[A-Z0-9_]{1,100}", reason)`
  unfoldable pub bad_reason : String → Bool
  bad_reason reason =
      str_eq reason ""
      || not (str_eq reason (strip reason))
      || not (
          all_snake (codes reason)
          && leb 1 (length (codes reason))
          && leb (length (codes reason)) 100)

  unfoldable pub record_source_barrier : Continuity → PyInt → String → PyInt → Tape fl (Frame fl)
  record_source_barrier continuity at_ms reason now = do
    raise_if (not (is_source_gap continuity)) value_error
    validate_timestamp at_ms
    raise_if (bad_reason reason) value_error
    refuse_blocked
    active_epoch
    block_with_barrier host continuity at_ms reason now
