-- ===== src/Recovery/Page.antt =====
-- `parse_page` of kairos_quant/long_gap_recovery.py, and what a page that it accepts holds.
use kairos_quant_scouts.Prelude.{
  ℕ, suc, ◌+◌, ◌-◌, ◌/◌, ◌≡◌, refl, Bool, true, false, not, ◌||◌, Option, none, some, List, [], ◌∷◌,
  String, ◌==◌, length, if◌then◌else◌, arith, Bool-cases, inl, inr, ap,
}
use kairos_quant_scouts.Prelude.Int.{ℤ, pos, negsuc}
use kairos_quant_scouts.Prelude.Result.{
  Result, ok, err, raise_if, ◌>>=◌, ◌>>◌, Returns, Returns-bind, Returns-bind_any, Returns-then,
  Returns-elim,
}
use kairos_quant_scouts.Floats.{Floats}
use kairos_quant_scouts.Tape.State.{PyInt}
use kairos_quant_scouts.Collector.Kline.{RawKline, one_minute_ms}
use kairos_quant_scouts.Recovery.Contract.{Cell, boolean, value, Row, RawPage, Contract, IsContract}
use kairos_quant_scouts.Recovery.Status.{
  RecoveryError, page_incomplete, row_malformed, bars_reordered, boolean_values, operation_failed,
}

-- `row[0] == at`, of an integer
abbrev pub opens_at : ℤ → ℕ → Bool
opens_at (pos n) at = n == at
opens_at (negsuc n) at = false

abbrev pub integer : PyInt → Option ℤ
integer (PyInt.int n) = some n
integer PyInt.other = none

abbrev pub is_boolean : {V : Type 0} → Cell V → Bool
is_boolean (boolean b) = true
is_boolean (value v) = false

-- `any(isinstance(value, bool) for value in numeric)`
abbrev pub any_boolean : {V : Type 0} → Row V → Bool
any_boolean r =
    is_boolean r.opened
    || is_boolean r.high
    || is_boolean r.low
    || is_boolean r.close
    || is_boolean r.base_volume
    || is_boolean r.quote_volume
    || is_boolean r.taker_buy_base_volume
    || is_boolean r.taker_buy_quote_volume

abbrev pub made : {A : Type 0} → Option A → Result RecoveryError A
made none = err operation_failed
made (some a) = ok a

module _ {fl : Floats} (ct : Contract fl) where
  -- `float(row[i])`
  abbrev pub float_at : Cell ct.V → Result RecoveryError fl.F
  float_at (boolean b) = err operation_failed
  float_at (value v) = made (ct.float_of v)

  -- the event of a row whose times were checked
  unfoldable pub event_of : String → ℤ → ℤ → Row ct.V → Result RecoveryError ct.E
  event_of symbol open_time_ms close_time_ms r = do
    opened ← float_at r.opened
    high ← float_at r.high
    low ← float_at r.low
    close ← float_at r.close
    base_volume ← float_at r.base_volume
    quote_volume ← float_at r.quote_volume
    taker_buy_base_volume ← float_at r.taker_buy_base_volume
    taker_buy_quote_volume ← float_at r.taker_buy_quote_volume
    made (
        ct.make (record {
          symbol = symbol;
          open_time_ms = open_time_ms;
          close_time_ms = close_time_ms;
          opened = opened;
          high = high;
          low = low;
          close = close;
          base_volume = base_volume;
          quote_volume = quote_volume;
          taker_buy_base_volume = taker_buy_base_volume;
          taker_buy_quote_volume = taker_buy_quote_volume;
        }))

  -- the end of a round, of two times that are integers
  unfoldable pub checked_row : String → ℕ → ℤ → ℤ → Row ct.V → Result RecoveryError ct.E
  unfolding event_of
  checked_row symbol at open_time_ms close_time_ms r = do
    raise_if (not (opens_at open_time_ms at)) bars_reordered
    raise_if (any_boolean r) boolean_values
    event_of symbol open_time_ms close_time_ms r

  -- a round, of a row whose times may be other objects
  unfoldable pub timed_row : String → ℕ → Option ℤ → Option ℤ → Row ct.V → Result RecoveryError ct.E
  unfolding checked_row
  timed_row symbol at (some open_time_ms) (some close_time_ms) r =
      checked_row symbol at open_time_ms close_time_ms r
  timed_row symbol at _ _ r = err bars_reordered

  -- one round of the loop, at `start + index * MINUTE`
  unfoldable pub parse_row : String → ℕ → Option (Row ct.V) → Result RecoveryError ct.E
  unfolding timed_row
  parse_row symbol at none = err row_malformed
  parse_row symbol at (some r) = timed_row symbol at (integer r.open_time) (integer r.close_time) r

  unfoldable pub parse_rows :
      String → ℕ → List (Option (Row ct.V)) → Result RecoveryError (List ct.E)
  unfolding parse_row
  parse_rows symbol at [] = ok []
  parse_rows symbol at (row ∷ rows) = do
    e ← parse_row symbol at row
    es ← parse_rows symbol (at + one_minute_ms) rows
    ok (e ∷ es)

  -- `parse_page`
  unfoldable pub parse_page : RawPage ct.V → String → ℕ → ℕ → Result RecoveryError (List ct.E)
  unfolding parse_rows
  parse_page raw symbol start end = elim raw [
    | none ↦ err page_incomplete
    | some rows ↦
        if not (length rows == (end - start) / one_minute_ms)
        then err page_incomplete
        else parse_rows symbol start rows
  ]

  -- Every event has the symbol.
  abbrev pub AllOf : String → List ct.E → Type 0
  AllOf symbol [] = Unit
  AllOf symbol (e ∷ es) = (ct.symbol e ≡ symbol) × AllOf symbol es

  -- The events open at `at` and every minute from there on.
  abbrev pub OpenFrom : ℕ → List ct.E → Type 0
  OpenFrom at [] = Unit
  OpenFrom at (e ∷ es) = (ct.open_time_ms e ≡ at) × OpenFrom (at + one_minute_ms) es

  -- The event of a row has the symbol and opens where the row stands.
  abbrev pub IsAt : String → ℕ → ct.E → Type 0
  IsAt symbol at e = (ct.symbol e ≡ symbol) × (ct.open_time_ms e ≡ at)

  -- The symbol, the start and the number of a page's events.
  abbrev pub IsPage : String → ℕ → ℕ → List ct.E → Type 0
  IsPage symbol at n es = AllOf symbol es × OpenFrom at es × (length es ≡ n)

  module _ (law : IsContract ct) where
    made-IsAt :
        (raw : RawKline fl) (at : ℕ) (o : Option ct.E)
        → ct.make raw ≡ o
        → raw.open_time_ms ≡ pos at
        → Returns (IsAt raw.symbol at) (made o)
    made-IsAt raw at none e p = tt
    made-IsAt raw at (some x) e p = (law.make-symbol raw x e, cc (law.make-open raw x e, p))

    event_of-IsAt :
        (symbol : String) (at : ℕ) (close_time_ms : ℤ) (r : Row ct.V)
        → Returns (IsAt symbol at) (event_of symbol (pos at) close_time_ms r)
    unfolding event_of
    event_of-IsAt symbol at k r = Returns-bind_any _ (float_at r.opened) _ (λ o.
        Returns-bind_any _ (float_at r.high) _ (λ h. Returns-bind_any _ (float_at r.low) _ (λ l.
          Returns-bind_any _ (float_at r.close) _ (λ c.
            Returns-bind_any _ (float_at r.base_volume) _ (λ b.
              Returns-bind_any _ (float_at r.quote_volume) _ (λ q.
                Returns-bind_any _ (float_at r.taker_buy_base_volume) _ (λ tb.
                  Returns-bind_any _ (float_at r.taker_buy_quote_volume) _
                    (λ tq. made-IsAt _ at _ refl refl))))))))

    checked_row-IsAt :
        (symbol : String) (at : ℕ) (open_time_ms close_time_ms : ℤ) (r : Row ct.V)
        → Returns (IsAt symbol at) (checked_row symbol at open_time_ms close_time_ms r)
    unfolding checked_row
    checked_row-IsAt symbol at (negsuc n) k r = tt
    checked_row-IsAt symbol at (pos n) k r = elim (Bool-cases (n == at)) [
      | inl same ↦
          let eq : n ≡ at = ground (arith, same) in
          rw same (
            rw eq (
              Returns-then _ (raise_if (any_boolean r) boolean_values) _
                (event_of-IsAt symbol at k r)))
      | inr other ↦ rw other tt
    ]

    parse_row-IsAt :
        (symbol : String) (at : ℕ) (row : Option (Row ct.V))
        → Returns (IsAt symbol at) (parse_row symbol at row)
    unfolding parse_row timed_row
    parse_row-IsAt symbol at none = tt
    parse_row-IsAt symbol at (some r) = go (integer r.open_time) (integer r.close_time)
      where
        go : (o k : Option ℤ) → Returns (IsAt symbol at) (timed_row symbol at o k r)
        go none k = tt
        go (some o) none = tt
        go (some o) (some k) = checked_row-IsAt symbol at o k r

    parse_rows-IsPage :
        (symbol : String) (at : ℕ) (rows : List (Option (Row ct.V)))
        → Returns (IsPage symbol at (length rows)) (parse_rows symbol at rows)
    unfolding parse_rows
    parse_rows-IsPage symbol at [] = (tt, tt, refl)
    parse_rows-IsPage symbol at (row ∷ rows) =
        Returns-bind _ _ (parse_row symbol at row) _ (parse_row-IsAt symbol at row) (λ e p.
          Returns-bind _ _ (parse_rows symbol (at + one_minute_ms) rows) _
            (parse_rows-IsPage symbol (at + one_minute_ms) rows)
            (λ es q. ((p.0, q.0), (p.1, q.1), ap suc q.2)))

    -- Given a contract that keeps the values it is given and makes whole minutes: a page that
    -- `parse_page` accepts holds one event for each minute from `start` up to `end`, in order, all
    -- of the symbol that was asked for.
    pub parse_page-IsPage :
        (raw : RawPage ct.V) (symbol : String) (start end : ℕ) (es : List ct.E)
        → parse_page raw symbol start end ≡ ok es
        → IsPage symbol start ((end - start) / one_minute_ms) es
    unfolding parse_page
    parse_page-IsPage raw symbol start end es e =
        Returns-elim _ (parse_page raw symbol start end) es e (go raw)
      where
        go :
            (raw : RawPage ct.V)
            → Returns
                (IsPage symbol start ((end - start) / one_minute_ms))
                (parse_page raw symbol start end)
        go none = tt
        go (some rows) = elim (Bool-cases (length rows == (end - start) / one_minute_ms)) [
          | inl full ↦
              let count : length rows ≡ (end - start) / one_minute_ms = ground (arith, full) in
              rw full (rw (← count) (parse_rows-IsPage symbol start rows))
          | inr short ↦ rw short tt
        ]
