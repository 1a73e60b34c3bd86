-- ===== src/Native/Calls.antt =====
-- kairos_quant/native_capture.py: the arguments of the captures and their checks.
use kairos_quant_scouts.Prelude.{
  ℕ, Bool, true, false, not, ◌&&◌, ◌||◌, List, [], ◌∷◌, Option, none, some, String, str_eq, ◌==◌,
  ltb, leb, length, if◌then◌else◌,
}
use kairos_quant_scouts.Prelude.Int.{ℤ, pos, ltb_ℤ}
use kairos_quant_scouts.Prelude.Text.{codes, one_of}
use kairos_quant_scouts.Tape.State.{PyInt, int}
use kairos_quant_scouts.Native.Text.{
  Kind, PyText, text, PyNumber, number, absent, absent_number, is_id,
}
use kairos_quant_scouts.Native.State.{EventKind, Parent, single, several}

-- The arguments of `capture_source`: `none` for a kind that is no known one, a URL that is no text, a
-- body that is no bytes and a flag that is no Boolean.
pub record SourceCall (B : Type 0) : Type 0 where
  pub kind : Option Kind
  pub url : PyText
  pub raw_body : Option B
  pub received_at_ms : PyInt
  pub route : PyText
  pub stream_epoch : PyText
  pub requested_at_ms : PyNumber
  pub query_json : PyText
  pub status : PyNumber
  pub defer_persist : Option Bool

-- A parent of `capture_derived_payload`: a text, a sequence of objects, or neither.
pub data RawParent : Type 0 where
  one : String → RawParent
  many : List PyText → RawParent
  no_parent : RawParent

-- The arguments of `capture_derived_payload`.
pub record DerivedCall (P : Type 0) : Type 0 where
  pub event_kind : Option EventKind
  pub event_id : PyText
  pub event_payload : P
  pub output_observed_at_ms : PyInt
  pub parents : List (PyText × RawParent)
  pub replay_profile : Option (List (String × PyInt))

unfoldable pub is_route : PyText → Bool
is_route (text s) = str_eq s "public" || str_eq s "market"
is_route _ = false

-- the fields of a WebSocket capture
unfoldable pub good_ws_fields : {B : Type 0} → SourceCall B → Bool
unfolding is_route
good_ws_fields c =
    is_route c.route
    && is_id c.stream_epoch
    && absent_number c.requested_at_ms
    && absent c.query_json
    && absent_number c.status

-- `100 <= status <= 599`, `0 <= requested <= received` and the query text
unfoldable pub good_status : PyNumber → Bool
good_status (number n) = not (ltb_ℤ n (pos 100)) && not (ltb_ℤ (pos 599) n)
good_status _ = false

unfoldable pub requested_before : PyNumber → ℤ → Bool
requested_before (number n) received = not (ltb_ℤ n (pos 0)) && not (ltb_ℤ received n)
requested_before _ received = false

unfoldable pub short_text : ℕ → PyText → Bool
short_text limit (text s) = leb (length (codes s)) limit
short_text limit _ = false

unfoldable pub good_rest_fields : {B : Type 0} → SourceCall B → ℤ → Bool
unfolding requested_before good_status short_text
good_rest_fields c received =
    absent c.route
    && absent c.stream_epoch
    && requested_before c.requested_at_ms received
    && good_status c.status
    && short_text 512 c.query_json

-- `len(ids) != len(set(ids))`
unfoldable pub repeats : List String → Bool
repeats [] = false
repeats (x ∷ xs) = one_of x xs || repeats xs

-- The texts of a list of ids, if all of them are ids.
unfoldable pub texts_of : List PyText → Option (List String)
texts_of [] = some []
texts_of (text s ∷ rest) = consed (is_id (text s)) (texts_of rest)
  where
    consed : Bool → Option (List String) → Option (List String)
    consed true (some ss) = some (s ∷ ss)
    consed _ _ = none
texts_of (_ ∷ rest) = none

-- a parent's value
unfoldable pub parent_of : RawParent → Option Parent
unfolding texts_of repeats
parent_of (one s) = if is_id (text s) then some (single s) else none
parent_of no_parent = none
parent_of (many values) = if ltb 2_000 (length values) then none else distinct (texts_of values)
  where
    distinct : Option (List String) → Option Parent
    distinct none = none
    distinct (some ids) = if repeats ids then none else some (several ids)

-- the loop over the parents
unfoldable pub parents_of : List (PyText × RawParent) → Option (List (String × Parent))
unfolding parent_of
parents_of [] = some []
parents_of ((text key, value) ∷ rest) =
    consed (not (length (codes key) == 0) && leb (length (codes key)) 64) (parent_of value)
      (parents_of rest)
  where
    consed :
        Bool → Option Parent → Option (List (String × Parent)) → Option (List (String × Parent))
    consed true (some p) (some ps) = some ((key, p) ∷ ps)
    consed _ _ _ = none
parents_of (_ ∷ rest) = none

abbrev pub profile_keys : List String
profile_keys =
    "price_window" ∷ "depth_levels" ∷ "snapshot_interval_ms" ∷ "kline_finality_delay_ms"
    ∷ "maximum_binance_future_skew_ms" ∷ "book_stale_after_ms" ∷ "kline_stale_after_ms"
    ∷ "derivatives_stale_after_ms" ∷ []

abbrev pub may_be_zero : List String
may_be_zero = "kline_finality_delay_ms" ∷ "maximum_binance_future_skew_ms" ∷ []

-- The items of a replay profile, if each has a known key and a value that it may have.
unfoldable pub profile_items : List (String × PyInt) → Option (List (String × ℕ))
profile_items [] = some []
profile_items ((key, int (pos n)) ∷ rest) =
    consed (one_of key profile_keys && (not (n == 0) || one_of key may_be_zero))
      (profile_items rest)
  where
    consed : Bool → Option (List (String × ℕ)) → Option (List (String × ℕ))
    consed true (some items) = some ((key, n) ∷ items)
    consed _ _ = none
profile_items (_ ∷ rest) = none

-- the profile, whose keys are those of a dict; `none` inside is an absent profile
unfoldable pub profile_of : Option (List (String × PyInt)) → Option (Option (List (String × ℕ)))
unfolding profile_items
profile_of none = some none
profile_of (some items) =
    if length items == length profile_keys then wrapped (profile_items items) else none
  where
    wrapped : Option (List (String × ℕ)) → Option (Option (List (String × ℕ)))
    wrapped none = none
    wrapped (some xs) = some (some xs)
