-- ===== src/Recovery/Contract.antt =====
-- What kairos_quant/long_gap_recovery.py takes from elsewhere: the bar contract of kairos_core, the REST
-- endpoint, the durable writer and the clock. All of it is a parameter.
use kairos_quant_scouts.Prelude.{ℕ, zero, ◌+◌, ◌%◌, ◌≡◌, Bool, Option, some, List, String, true}
use kairos_quant_scouts.Prelude.Int.{pos}
use kairos_quant_scouts.Floats.{Floats}
use kairos_quant_scouts.Tape.State.{PyInt}
use kairos_quant_scouts.Collector.Kline.{RawKline, one_minute_ms}

-- An item of a JSON row: a Boolean, or another value.
pub data Cell (V : Type 0) : Type 0 where
  boolean : Bool → Cell V
  value : V → Cell V

-- A JSON row of at least eleven items, of which the code reads these.
pub record Row (V : Type 0) : Type 0 where
  pub open_time : PyInt
  pub opened : Cell V
  pub high : Cell V
  pub low : Cell V
  pub close : Cell V
  pub base_volume : Cell V
  pub close_time : PyInt
  pub quote_volume : Cell V
  pub taker_buy_base_volume : Cell V
  pub taker_buy_quote_volume : Cell V

-- A JSON page: `none` if it is no list, and a row is `none` if it is no list or too short.
abbrev pub RawPage : Type 0 → Type 0
RawPage V = Option (List (Option (Row V)))

-- `ClosedBarEventV1`, as far as the code reads it.
pub record Contract (fl : Floats) : Type 1 where
  pub E : Type 0
  pub symbol : E → String
  pub open_time_ms : E → ℕ
  pub close_time_ms : E → ℕ
  pub canonical_bar_bytes : E → String
  -- `a == b`
  pub same : E → E → Bool
  -- `ClosedBarEventV1(source=SOURCE, ...)`; `none` is the validation error
  pub make : RawKline fl → Option E
  -- `float(v)` of a JSON value, `none` if it raises
  pub V : Type 0
  pub float_of : V → Option fl.F

-- What the code relies on: the contract keeps the values it is given, and its bar is a whole minute,
-- up to the last millisecond of it.
pub record IsContract {fl : Floats} (ct : Contract fl) : Type 0 where
  pub make-symbol : (raw : RawKline fl) (e : ct.E) → ct.make raw ≡ some e → ct.symbol e ≡ raw.symbol
  pub make-open :
      (raw : RawKline fl) (e : ct.E)
      → ct.make raw ≡ some e
      → pos (ct.open_time_ms e) ≡ raw.open_time_ms
  pub minute : (e : ct.E) → ct.close_time_ms e + 1 ≡ ct.open_time_ms e + one_minute_ms
  pub aligned : (e : ct.E) → ct.open_time_ms e % one_minute_ms ≡ zero

-- The world outside the process. `append` says whether the event was stored, and whether the call
-- returned.
pub record Outside {fl : Floats} (ct : Contract fl) : Type 1 where
  pub W : Type 0
  pub fetch : String → ℕ → ℕ → W → Option (RawPage ct.V) × W
  pub pause : W → Bool × W
  pub append : ct.E → W → (Bool × Bool) × W
  -- the payloads of `load_anchor`'s query in its order; a payload that the contract refuses is `none`
  pub rows : String → W → Option (List (Option ct.E)) × W
  pub now_utc : W → String

-- The durable writer returns only after it has stored the event.
abbrev pub IsDurable : {fl : Floats} {ct : Contract fl} → Outside ct → Type 0
IsDurable {fl} {ct} out =
    (e : ct.E) (w : out.W) → (out.append e w).0.1 ≡ true → (out.append e w).0.0 ≡ true
