-- ===== src/Native/Text.antt =====
-- kairos_quant/native_capture.py: values that may be no text or no integer, identities of 32 hex
-- digits, and the fixed requests of `_validate_fixed_source`. URL, query string and JSON parsing and
-- the character tests are the standard library's, and parameters.
use Prim.Native.String.{◌++◌}
use kairos_quant_scouts.Prelude.{
  ℕ, Bool, true, false, not, ◌&&◌, ◌||◌, List, [], ◌∷◌, Option, none, some, String, str_eq, ◌==◌,
  leb, length, if◌then◌else◌,
}
use kairos_quant_scouts.Prelude.Int.{ℤ}
use kairos_quant_scouts.Prelude.Text.{codes, one_of}

-- `None`, a text, or another object.
pub data PyText : Type 0 where
  no_text : PyText
  text : String → PyText
  other_object : PyText

-- `None`, an integer, or another object.
pub data PyNumber : Type 0 where
  no_number : PyNumber
  number : ℤ → PyNumber
  other_number : PyNumber

pub data Kind : Type 0 where
  klines_rest ws_frame open_interest_rest premium_index_rest : Kind

abbrev pub is_ws : Kind → Bool
is_ws ws_frame = true
is_ws _ = false

-- `char in _HEX32`, of a code point
unfoldable pub hex_digit : ℕ → Bool
hex_digit c = (leb 48 c && leb c 57) || (leb 97 c && leb c 102)

unfoldable pub all_hex : List ℕ → Bool
unfolding hex_digit
all_hex [] = true
all_hex (c ∷ cs) = hex_digit c && all_hex cs

-- `isinstance(item, str) and len(item) == 32 and all(char in _HEX32 for char in item)`
unfoldable pub is_hex32 : String → Bool
unfolding all_hex
is_hex32 s = length (codes s) == 32 && all_hex (codes s)

unfoldable pub is_id : PyText → Bool
unfolding is_hex32
is_id (text s) = is_hex32 s
is_id no_text = false
is_id other_object = false

abbrev pub absent : PyText → Bool
absent no_text = true
absent _ = false

abbrev pub absent_number : PyNumber → Bool
absent_number no_number = true
absent_number _ = false

-- The parts of `urlsplit(url)`; `login` is whether a user name or a password is given.
pub record Url : Type 0 where
  pub scheme : String
  pub netloc : String
  pub path : String
  pub query : String
  pub fragment : String
  pub login : Bool

-- `json.loads(query_json)`: an object, whether the text is its canonical one and whether all values
-- are texts, with its items if they are.
pub data Query : Type 0 where
  malformed : Query
  no_object : Query
  object : Bool → Bool → List (String × String) → Query

pub record Parsers : Type 0 where
  pub urlsplit : String → Option Url
  -- `parse_qs(query, keep_blank_values=True, strict_parsing=True)`
  pub parse_qs : String → Option (List (String × List String))
  -- `s.split("/")`, and the pattern of one stream
  pub split_slash : String → List String
  pub is_stream : String → Bool
  pub loads : String → Query
  pub isalnum : String → Bool
  pub is_upper : String → Bool
  -- `int(s)` if `s.isdigit()`
  pub digits : String → Option ℕ

-- `d[key]` of a dict of texts
unfoldable pub value_of : String → List (String × String) → Option String
value_of key [] = none
value_of key ((k, v) ∷ items) = if str_eq k key then some v else value_of key items

abbrev pub is_value : String → Option String → Bool
is_value s none = false
is_value s (some v) = str_eq v s

-- `set(d) == {...}`, of three keys; the keys of a dict are distinct
unfoldable pub has_keys : List String → List (String × String) → Bool
has_keys names items = length items == length names && all_in items
  where
    all_in : List (String × String) → Bool
    all_in [] = true
    all_in ((k, v) ∷ rest) = one_of k names && all_in rest

unfoldable pub all_streams : (String → Bool) → List String → Bool
all_streams test [] = true
all_streams test (s ∷ ss) = not (str_eq s "") && test s && all_streams test ss

module _ (ps : Parsers) where
  -- `s.isalnum() and s == s.upper()`
  unfoldable pub good_symbol : Option String → Bool
  good_symbol none = false
  good_symbol (some s) = ps.isalnum s && ps.is_upper s

  -- `s.isdigit() and 1 <= int(s) <= 1_500`
  unfoldable pub good_limit : Option String → Bool
  good_limit none = false
  good_limit (some s) = within (ps.digits s)
    where
      within : Option ℕ → Bool
      within none = false
      within (some n) = leb 1 n && leb n 1_500

  -- the subscription of a WebSocket URL
  unfoldable pub good_subscription : Option (List (String × List String)) → Bool
  unfolding all_streams
  good_subscription (some ((name, value ∷ []) ∷ [])) =
      str_eq name "streams"
      && not (str_eq value "")
      && leb (length (codes value)) 4_096
      && all_streams ps.is_stream (ps.split_slash value)
  good_subscription _ = false

  abbrev pub rest_path : Kind → String
  rest_path klines_rest = "/fapi/v1/klines"
  rest_path open_interest_rest = "/futures/data/openInterestHist"
  rest_path premium_index_rest = "/fapi/v1/premiumIndex"
  rest_path ws_frame = ""

  unfoldable pub good_query : Kind → List (String × String) → Bool
  unfolding has_keys value_of good_symbol good_limit
  good_query klines_rest items =
      has_keys ("symbol" ∷ "interval" ∷ "limit" ∷ []) items
      && is_value "1m" (value_of "interval" items)
      && good_symbol (value_of "symbol" items)
      && good_limit (value_of "limit" items)
  good_query open_interest_rest items =
      has_keys ("symbol" ∷ "period" ∷ "limit" ∷ []) items
      && is_value "5m" (value_of "period" items)
      && is_value "13" (value_of "limit" items)
      && good_symbol (value_of "symbol" items)
  good_query premium_index_rest items = length items == 0
  good_query ws_frame items = false

  unfoldable pub good_object : Kind → Query → Bool
  unfolding good_query
  good_object kind malformed = false
  good_object kind no_object = false
  good_object kind (object canonical texts items) = canonical && texts && good_query kind items

  unfoldable pub good_ws_url : PyText → Url → Bool
  unfolding good_subscription
  good_ws_url (text route) url =
      str_eq url.scheme "wss"
      && str_eq url.netloc "fstream.binance.com"
      && str_eq url.path ("/" ++ route ++ "/stream")
      && str_eq url.fragment ""
      && not url.login
      && good_subscription (ps.parse_qs url.query)
  good_ws_url _ url = false

  unfoldable pub good_rest_url : Kind → PyText → Url → Bool
  unfolding good_object
  good_rest_url kind (text query) url =
      str_eq url.scheme "https"
      && str_eq url.netloc "fapi.binance.com"
      && str_eq url.path (rest_path kind)
      && str_eq url.query ""
      && str_eq url.fragment ""
      && not url.login
      && good_object kind (ps.loads query)
  good_rest_url kind _ url = false

  -- whether `_validate_fixed_source` returns
  unfoldable pub fixed_source : Kind → String → PyText → PyText → Bool
  unfolding good_ws_url good_rest_url
  fixed_source kind url query route = elim (ps.urlsplit url) [
    | none ↦ false
    | some parts ↦ if is_ws kind then good_ws_url route parts else good_rest_url kind query parts
  ]
