-- ===== src/Native/State.antt =====
-- kairos_quant/native_capture.py: the state of `NativeQuantCapture`, its budgets and its sink. Bytes,
-- their encoding, the hash and the sink are parameters; no two calls run at once, since the methods
-- hold a lock.
use kairos_quant_scouts.Prelude.{
  ℕ, suc, ◌+◌, ◌*◌, Bool, true, false, not, ◌&&◌, List, [], ◌∷◌, Option, none, some, String, str_eq,
  ltb, leb, length, if◌then◌else◌,
}
use kairos_quant_scouts.Prelude.Int.{ℤ}
use kairos_quant_scouts.Prelude.Text.{one_of}
use kairos_quant_scouts.Prelude.Result.{Result, ok, err}
use kairos_quant_scouts.Prelude.Action.{Action, pure, modify, ◌>>◌}
use kairos_quant_scouts.Native.Text.{Kind, PyText, PyNumber, is_id}

-- The messages of `NativeQuantSourceCaptureFailure`, and the errors of the constructor.
pub data CaptureError : Type 0 where
  latched bad_arguments bad_defer bad_ws_fields bad_rest_fields bad_source oversized : CaptureError
  records_exhausted bytes_exhausted sink_failed sink_returned : CaptureError
  bad_ids never_staged bad_output bad_lineage not_canonical : CaptureError
  -- `dict(event_payload)` of an object that is no mapping, which `_fail` does not see
  no_mapping : CaptureError
  no_sink bad_record_limit bad_byte_limit bad_epoch : CaptureError

-- The constants of the module.
abbrev pub maximum_body_bytes : ℕ
maximum_body_bytes = 1_000_000

abbrev pub maximum_record_bytes : ℕ
maximum_record_bytes = 2_000_000

abbrev pub maximum_capture_records : ℕ
maximum_capture_records = 8_000

abbrev pub maximum_capture_bytes : ℕ
maximum_capture_bytes = 64 * 1_024 * 1_024

-- What the sink does with a record: it returns `None`, returns something else, or raises.
pub data Answer : Type 0 where
  stored returned_value raised : Answer

-- The fields of a source record; the digest and the encoding of the body are the codec's.
pub record SourceRecord (B : Type 0) : Type 0 where
  pub kind : Kind
  pub url : String
  pub query_json : PyText
  pub route : PyText
  pub stream_epoch : PyText
  pub requested_at_ms : PyNumber
  pub received_at_ms : ℤ
  pub status : PyNumber
  pub body : B
  pub capture_epoch : String
  pub capture_sequence : ℕ

pub data EventKind : Type 0 where
  closed_bar market_snapshot : EventKind

-- The parents of an output by their keys, each a single id or a list of ids.
pub data Parent : Type 0 where
  single : String → Parent
  several : List String → Parent

pub record DerivedRecord (B P : Type 0) : Type 0 where
  pub event_kind : EventKind
  pub event_id : String
  pub event_bytes : B
  pub event_payload : P
  pub output_observed_at_ms : ℤ
  pub parents : List (String × Parent)
  pub replay_profile : Option (List (String × ℕ))

-- Bytes `B`, event payloads `P` and the world `W` of the sink.
pub record Codec : Type 1 where
  pub B : Type 0
  pub P : Type 0
  pub W : Type 0
  pub size : B → ℕ
  pub encode_source : SourceRecord B → B
  pub source_id : B → String
  pub encode_payload : P → Option B
  pub is_mapping : P → Bool
  pub encode_derived : DerivedRecord B P → Option B
  pub derived_id : EventKind → String → String
  pub create_only : String → B → W → Answer × W

module _ (cd : Codec) where
  pub record Session : Type 0 where
    pub capture_epoch : String
    pub maximum_records : ℕ
    pub maximum_bytes : ℕ
    pub sequence : ℕ
    pub records : ℕ
    pub records_written : ℕ
    pub bytes_written : ℕ
    pub bytes_reserved : ℕ
    pub pending_sources : List (String × cd.B)
    pub persisted_ids : List String
    pub failed : Bool
    pub world : cd.W

  abbrev pub Capturing : Type 0 → Type 0
  Capturing A = Action Session CaptureError A

  -- the dict of the staged sources: `d[key] = x`, `d.get(key)`, `del d[key]`
  unfoldable pub stage : String → cd.B → List (String × cd.B) → List (String × cd.B)
  stage key x [] = (key, x) ∷ []
  stage key x ((k, v) ∷ items) =
      if str_eq k key then (key, x) ∷ items else (k, v) ∷ stage key x items

  unfoldable pub staged : String → List (String × cd.B) → Option cd.B
  staged key [] = none
  staged key ((k, v) ∷ items) = if str_eq k key then some v else staged key items

  unfoldable pub unstage : String → List (String × cd.B) → List (String × cd.B)
  unstage key [] = []
  unstage key ((k, v) ∷ items) = if str_eq k key then items else (k, v) ∷ unstage key items

  -- the properties `pending_records` and `pending_bytes`
  unfoldable pub pending_records : Session → ℕ
  pending_records s = length s.pending_sources

  unfoldable pub total_size : List (String × cd.B) → ℕ
  total_size [] = 0
  total_size ((k, v) ∷ items) = cd.size v + total_size items

  unfoldable pub pending_bytes : Session → ℕ
  unfolding total_size
  pending_bytes s = total_size s.pending_sources

  unfoldable pub fresh : String → ℕ → ℕ → cd.W → Session
  fresh epoch records bytes w = record {
    capture_epoch = epoch;
    maximum_records = records;
    maximum_bytes = bytes;
    sequence = 0;
    records = 0;
    records_written = 0;
    bytes_written = 0;
    bytes_reserved = 0;
    pending_sources = [];
    persisted_ids = [];
    failed = false;
    world = w;
  }

  -- `type(n) is not int or not 1 <= n <= bound`; `none` is no integer, or a negative one
  unfoldable pub out_of_bound : ℕ → Option ℕ → Bool
  out_of_bound bound none = true
  out_of_bound bound (some n) = not (leb 1 n && leb n bound)

  abbrev pub number_of : Option ℕ → ℕ
  number_of none = 0
  number_of (some n) = n

  abbrev pub name_of : PyText → String
  name_of (PyText.text s) = s
  name_of _ = ""

  -- `NativeQuantCapture.__init__`: whether the sink can be called, the limits and the epoch in use
  unfoldable pub init : Bool → Option ℕ → Option ℕ → PyText → cd.W → Result CaptureError Session
  unfolding fresh out_of_bound
  init has_sink records bytes epoch w =
      if not has_sink
      then err no_sink
      else if out_of_bound maximum_capture_records records
      then err bad_record_limit
      else if out_of_bound maximum_capture_bytes bytes
      then err bad_byte_limit
      else if not (is_id epoch)
      then err bad_epoch
      else ok (fresh (name_of epoch) (number_of records) (number_of bytes) w)

  -- `_fail`
  unfoldable pub fail : {A : Type 0} → CaptureError → Capturing A
  fail e s = (err e, record s { failed = true })

  unfoldable pub fail_if : Bool → CaptureError → Capturing (Unit {0})
  unfolding fail
  fail_if c e s = if c then fail e s else (ok tt, s)

  -- a value that is there, or the failure
  unfoldable pub wanted : {A : Type 0} → Option A → CaptureError → Capturing A
  unfolding fail
  wanted none e = fail e
  wanted (some a) e = pure a

  -- `_ensure_healthy`
  unfoldable pub ensure_healthy : Capturing (Unit {0})
  ensure_healthy s = if s.failed then (err latched, s) else (ok tt, s)

  -- `_next_sequence`
  unfoldable pub next_sequence : Capturing ℕ
  unfolding fail_if
  next_sequence = do
    λ s. fail_if (leb s.maximum_records s.records) records_exhausted s
    λ s. (ok (suc s.sequence), record s { sequence = suc s.sequence })

  -- `_reserve`
  unfoldable pub reserved : cd.B → Session → Session
  reserved encoded s = record s {
    records = suc s.records;
    bytes_reserved = s.bytes_reserved + cd.size encoded;
  }

  unfoldable pub reserve : cd.B → Capturing (Unit {0})
  unfolding fail_if reserved
  reserve encoded = do
    λ s. fail_if (leb s.maximum_records s.records) records_exhausted s
    λ s. fail_if (ltb s.maximum_bytes (s.bytes_reserved + cd.size encoded)) bytes_exhausted s
    modify (reserved encoded)

  -- the end of `_persist`
  unfoldable pub written : String → cd.B → Session → Session
  written id encoded s = record s {
    records_written = suc s.records_written;
    bytes_written = s.bytes_written + cd.size encoded;
    persisted_ids = if one_of id s.persisted_ids then s.persisted_ids else id ∷ s.persisted_ids;
  }

  -- what `_persist` does with the sink's answer
  unfoldable pub answered : Answer → String → cd.B → Capturing (Unit {0})
  unfolding fail written
  answered stored id encoded = modify (written id encoded)
  answered returned_value id encoded = fail sink_returned
  answered raised id encoded = fail sink_failed

  -- `_persist`, once the record is reserved
  unfoldable pub in_world : cd.W → Session → Session
  in_world w s = record s { world = w }

  unfoldable pub persist_reserved : String → cd.B → Capturing (Unit {0})
  unfolding answered in_world
  persist_reserved id encoded s =
      let (answer, w) = cd.create_only id encoded s.world in
      answered answer id encoded (in_world w s)

  -- `_persist`
  unfoldable pub persist : String → cd.B → Capturing (Unit {0})
  unfolding reserve persist_reserved
  persist id encoded = do reserve encoded; persist_reserved id encoded
