-- ===== src/Examples/Captures.antt =====
-- A capture session with a deferred WebSocket frame; records are numbers that are their own size.
use kairos_quant_scouts.Prelude.{
  ℕ, ◌+◌, ◌≡◌, ◌<◌, refl, true, false, List, [], ◌∷◌, Option, none, some, String, arith,
}
use kairos_quant_scouts.Prelude.Int.{pos}
use kairos_quant_scouts.Prelude.Result.{ok, err}
use kairos_quant_scouts.Tape.State.{int}
use kairos_quant_scouts.Native.Text.{
  ws_frame, PyText, no_text, text, no_number, malformed, Parsers, is_id,
}
use kairos_quant_scouts.Native.State.{stored, latched, Codec, Session, init, fresh, stage, staged}
use kairos_quant_scouts.Native.Calls.{SourceCall, DerivedCall}
use kairos_quant_scouts.Native.Capture.{
  capture_source, flush_sources, capture_derived_payload, selected, Call, source, flush, step, run,
}
use kairos_quant_scouts.Native.Budget.{IsBudgeted}
use kairos_quant_scouts.Native.Bounded.{run-IsBudgeted-init}
use kairos_quant_scouts.Native.Lineage.{run-latched}
use kairos_quant_scouts.Native.Stored.{IsSink, AllHeld, flush_sources-AllHeld}

abbrev id : String
id = "0123456789abcdef0123456789abcdef"

abbrev codec : Codec
codec = record {
  B = ℕ;
  P = ℕ;
  W = ℕ;
  size = λ n. n;
  encode_source = λ r. 700;
  source_id = λ b. id;
  encode_payload = λ p. some p;
  is_mapping = λ p. true;
  encode_derived = λ r. some 300;
  derived_id = λ k e. e;
  create_only = λ name b w. (stored, w + 1);
}

abbrev parsers : Parsers
parsers = record {
  urlsplit = λ s. some (record {
    scheme = "wss";
    netloc = "fstream.binance.com";
    path = "/public/stream";
    query = "streams=btcusdt@depth";
    fragment = "";
    login = false;
  });
  parse_qs = λ s. some (("streams", "btcusdt@depth" ∷ []) ∷ []);
  split_slash = λ s. s ∷ [];
  is_stream = λ s. true;
  loads = λ s. malformed;
  isalnum = λ s. true;
  is_upper = λ s. true;
  digits = λ s. none;
}

abbrev frame : SourceCall ℕ
frame = record {
  kind = some ws_frame;
  url = text "wss://fstream.binance.com/public/stream?streams=btcusdt@depth";
  raw_body = some 500;
  received_at_ms = int (pos 1_000);
  route = text "public";
  stream_epoch = text id;
  requested_at_ms = no_number;
  query_json = no_text;
  status = no_number;
  defer_persist = some true;
}

abbrev opened : Session codec
opened = fresh codec id 10 2_000 0

opening : init codec true (some 10) (some 2_000) (text id) 0 ≡ ok opened
unfolding init is_id
opening = refl

captured : (capture_source codec parsers frame opened).0 ≡ ok id
unfolding capture_source fresh is_id
captured = refl

calls : List (Call codec parsers)
calls = source frame ∷ flush (some (text id ∷ [])) ∷ source frame ∷ flush none ∷ []

run-IsBudgeted-init_example : IsBudgeted codec (run codec parsers calls opened)
run-IsBudgeted-init_example =
    run-IsBudgeted-init codec parsers true (some 10) (some 2_000) (text id) 0 opened calls opening

abbrev framed : Session codec
framed = step codec parsers (source frame) opened

abbrev flushed : Session codec
flushed = step codec parsers (flush (some (text id ∷ []))) framed

flushing : flush_sources codec (some (text id ∷ [])) framed ≡ (ok tt, flushed)
unfolding step flush_sources fresh is_id staged stage
flushing = refl

selecting : selected codec (some (text id ∷ [])) ≡ some (id ∷ [])
unfolding selected is_id
selecting = refl

-- A sink that counts its records holds some under every id once it has one.
counting : IsSink codec (λ j w. 0 < w)
counting = record {
  storing = λ i x w v e. let eq : w + 1 ≡ v = cc e in omega (arith, eq);
  keeping = λ i x w v a j e h. let eq : w + 1 ≡ v = cc e in omega (arith, eq, h);
}

flush_sources-AllHeld_example :
    AllHeld counting parsers (id ∷ []) flushed
    × (flush_sources codec (some (text id ∷ [])) flushed ≡ (ok tt, flushed))
unfolding run step
flush_sources-AllHeld_example =
    flush_sources-AllHeld counting parsers id 10 2_000 0 (source frame ∷ []) (some (text id ∷ []))
      (id ∷ []) flushed selecting flushing

abbrev broken : Session codec
broken = step codec parsers (flush none) framed

breaking : broken.failed ≡ true
unfolding step fresh is_id
breaking = refl

run-latched_example :
    (run codec parsers calls broken ≡ broken)
    × ((c : SourceCall ℕ) → capture_source codec parsers c broken ≡ (err latched, broken))
    × ((ids : Option (List PyText)) → flush_sources codec ids broken ≡ (err latched, broken))
    × ((c : DerivedCall ℕ) → capture_derived_payload codec c broken ≡ (err latched, broken))
run-latched_example = run-latched codec parsers broken calls breaking
