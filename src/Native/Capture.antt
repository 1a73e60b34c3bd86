-- ===== src/Native/Capture.antt =====
-- kairos_quant/native_capture.py: `capture_source`, `flush_sources`, `capture_derived_payload`, and
-- sequences of these calls.
use kairos_quant_scouts.Prelude.{
  ℕ, Bool, true, false, not, ◌&&◌, ◌||◌, List, [], ◌∷◌, Option, none, some, String, ◌==◌, ltb,
  length, if◌then◌else◌,
}
use kairos_quant_scouts.Prelude.Int.{ℤ, pos}
use kairos_quant_scouts.Prelude.Text.{codes, one_of}
use kairos_quant_scouts.Prelude.Result.{ok}
use kairos_quant_scouts.Prelude.Action.{pure, raise_if, modify, ◌>>=◌, ◌>>◌}
use kairos_quant_scouts.Tape.State.{PyInt, int}
use kairos_quant_scouts.Native.Text.{Kind, is_ws, PyText, text, Parsers, fixed_source}
use kairos_quant_scouts.Native.State.{
  bad_arguments, bad_defer, bad_ws_fields, bad_rest_fields, bad_source, oversized, bad_ids,
  never_staged, bad_output, bad_lineage, not_canonical, no_mapping, maximum_body_bytes,
  maximum_record_bytes, maximum_capture_records, SourceRecord, EventKind, Parent, DerivedRecord,
  Codec, Session, Capturing, wanted, stage, staged, unstage, fail, fail_if, ensure_healthy,
  next_sequence, reserve, persist_reserved, persist,
}
use kairos_quant_scouts.Native.Calls.{
  SourceCall, DerivedCall, good_ws_fields, good_rest_fields, repeats, texts_of, parents_of,
  profile_of,
}

module _ (cd : Codec) where
  -- The arguments that the first test of `capture_source` lets through.
  unfoldable pub source_arguments : SourceCall cd.B → Option (Kind × String × cd.B × ℤ)
  source_arguments c = given c.kind c.url c.raw_body c.received_at_ms
    where
      given : Option Kind → PyText → Option cd.B → PyInt → Option (Kind × String × cd.B × ℤ)
      given (some kind) (text url) (some body) (int (pos at)) =
          if length (codes url) == 0
            || ltb 2_048 (length (codes url))
            || ltb maximum_body_bytes (cd.size body)
          then none
          else some (kind, url, body, pos at)
      given _ _ _ _ = none

  -- `type(defer_persist) is not bool or (defer_persist and not is_websocket)`
  unfoldable pub deferred : Kind → Option Bool → Option Bool
  deferred kind none = none
  deferred kind (some false) = some false
  deferred kind (some true) = if is_ws kind then some true else none

  -- `self._pending_sources[observation_id] = encoded`
  unfoldable pub staging : String → cd.B → Session cd → Session cd
  staging id encoded s = record s { pending_sources = stage cd id encoded s.pending_sources }

  unfoldable pub keep : Bool → String → cd.B → Capturing cd (Unit {0})
  unfolding staging persist_reserved
  keep true id encoded = modify (staging id encoded)
  keep false id encoded = persist_reserved cd id encoded

  -- the record of a source
  unfoldable pub source_record :
      SourceCall cd.B → Kind → String → cd.B → ℤ → String → ℕ → SourceRecord cd.B
  source_record c kind url body at epoch sequence = record {
    kind = kind;
    url = url;
    query_json = c.query_json;
    route = c.route;
    stream_epoch = c.stream_epoch;
    requested_at_ms = c.requested_at_ms;
    received_at_ms = at;
    status = c.status;
    body = body;
    capture_epoch = epoch;
    capture_sequence = sequence;
  }

  -- the loop of `flush_sources`
  unfoldable pub unstaging : String → Session cd → Session cd
  unstaging id s = record s { pending_sources = unstage cd id s.pending_sources }

  unfoldable pub flush_staged : String → Option cd.B → Capturing cd (Unit {0})
  unfolding fail persist_reserved unstaging
  flush_staged id none = fail cd never_staged
  flush_staged id (some encoded) = do persist_reserved cd id encoded; modify (unstaging id)

  unfoldable pub flush_one : String → Capturing cd (Unit {0})
  unfolding flush_staged
  flush_one id s =
      if one_of id s.persisted_ids
      then (ok tt, s)
      else flush_staged id (staged cd id s.pending_sources) s

  unfoldable pub flush_all : List String → Capturing cd (Unit {0})
  unfolding flush_one
  flush_all [] = pure tt
  flush_all (id ∷ ids) = do flush_one id; flush_all ids

  -- the ids of `flush_sources`; `none` if they are not iterable
  unfoldable pub selected : Option (List PyText) → Option (List String)
  unfolding texts_of repeats
  selected none = none
  selected (some ids) =
      if ltb maximum_capture_records (length ids) then none else distinct (texts_of ids)
    where
      distinct : Option (List String) → Option (List String)
      distinct none = none
      distinct (some names) = if repeats names then none else some names

  unfoldable pub flush_sources : Option (List PyText) → Capturing cd (Unit {0})
  unfolding ensure_healthy wanted selected flush_all
  flush_sources ids = do
    ensure_healthy cd
    names ← wanted cd (selected ids) bad_ids
    flush_all names

  -- The event that the first test of `capture_derived_payload` lets through.
  unfoldable pub output_of : DerivedCall cd.P → Option (EventKind × String × ℤ)
  output_of c = given c.event_kind c.event_id c.output_observed_at_ms
    where
      given : Option EventKind → PyText → PyInt → Option (EventKind × String × ℤ)
      given (some kind) (text id) (int (pos at)) =
          if length (codes id) == 0 then none else some (kind, id, pos at)
      given _ _ _ = none

  -- the record of an output
  unfoldable pub derived_record :
      cd.P
      → EventKind × String × ℤ
      → List (String × Parent)
      → Option (List (String × ℕ))
      → cd.B
      → DerivedRecord cd.B cd.P
  derived_record payload (kind, id, at) parents profile event_bytes = record {
    event_kind = kind;
    event_id = id;
    event_bytes = event_bytes;
    event_payload = payload;
    output_observed_at_ms = at;
    parents = parents;
    replay_profile = profile;
  }

  -- the end of `capture_derived_payload`, from the size test on
  unfoldable pub persist_derived : String → cd.B → Capturing cd String
  unfolding fail_if persist
  persist_derived id encoded = do
    fail_if cd (ltb maximum_record_bytes (cd.size encoded)) oversized
    persist cd id encoded
    pure id

  -- `capture_derived_payload`
  unfoldable pub capture_derived_payload : DerivedCall cd.P → Capturing cd String
  unfolding ensure_healthy wanted output_of parents_of profile_of derived_record persist_derived
  capture_derived_payload c = do
    ensure_healthy cd
    output ← wanted cd (output_of c) bad_output
    parents ← wanted cd (parents_of c.parents) bad_lineage
    profile ← wanted cd (profile_of c.replay_profile) bad_lineage
    event_bytes ← wanted cd (cd.encode_payload c.event_payload) not_canonical
    raise_if (not (cd.is_mapping c.event_payload)) no_mapping
    encoded ←
        wanted cd
          (cd.encode_derived (derived_record c.event_payload output parents profile event_bytes))
          not_canonical
    persist_derived (cd.derived_id output.0 output.1) encoded

module _ (cd : Codec) (ps : Parsers) where
  -- `capture_source` under the lock, from the record's size test on
  unfoldable pub persist_source : Bool → cd.B → Capturing cd String
  unfolding fail_if reserve keep
  persist_source defer encoded = do
    fail_if cd (ltb maximum_record_bytes (cd.size encoded)) oversized
    reserve cd encoded
    keep cd defer (cd.source_id encoded) encoded
    pure (cd.source_id encoded)

  -- `capture_source`
  unfoldable pub capture_source : SourceCall cd.B → Capturing cd String
  unfolding ensure_healthy wanted fail_if source_arguments deferred good_ws_fields good_rest_fields
      fixed_source next_sequence source_record persist_source
  capture_source c = do
    ensure_healthy cd
    (kind, url, body, at) ← wanted cd (source_arguments cd c) bad_arguments
    defer ← wanted cd (deferred cd kind c.defer_persist) bad_defer
    fail_if cd (is_ws kind && not (good_ws_fields c)) bad_ws_fields
    fail_if cd (not (is_ws kind) && not (good_rest_fields c at)) bad_rest_fields
    fail_if cd (not (fixed_source ps kind url c.query_json c.route)) bad_source
    sequence ← next_sequence cd
    λ s.
        persist_source defer
          (cd.encode_source (source_record cd c kind url body at s.capture_epoch sequence)) s

  -- The calls of a session.
  pub data Call : Type 0 where
    source : SourceCall cd.B → Call
    flush : Option (List PyText) → Call
    derived : DerivedCall cd.P → Call

  -- The session after a call, whether it returned or raised.
  unfoldable pub step : Call → Session cd → Session cd
  unfolding capture_source flush_sources capture_derived_payload
  step (source c) s = (capture_source c s).1
  step (flush ids) s = (flush_sources cd ids s).1
  step (derived c) s = (capture_derived_payload cd c s).1

  unfoldable pub run : List Call → Session cd → Session cd
  unfolding step
  run [] s = s
  run (c ∷ cs) s = run cs (step c s)
