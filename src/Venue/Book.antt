-- ===== src/Venue/Book.antt =====
-- kairos_quant/venue_comparison.py: the snapshot of a book, the two parsers of the venues' answers and
-- the slippage of a market order.
use kairos_quant_scouts.Prelude.{
  ◌^◌, Bool, true, false, not, ◌&&◌, ◌||◌, List, [], ◌∷◌, Option, none, some, String, if◌then◌else◌,
}
use kairos_quant_scouts.Prelude.Int.{ℤ, pos, ltb_ℤ}
use kairos_quant_scouts.Prelude.Result.{Result, ok, err, ◌>>=◌, ◌>>◌, raise_if}
use kairos_quant_scouts.Floats.{Floats}
use kairos_quant_scouts.OrderBook.{sorted}

-- What these modules raise.
pub data VenueError : Type 0 where
  missing_side crossed_book not_object not_list malformed_level not_numeric not_positive
        bad_timestamp late_timestamp overflowed unavailable unsorted zero_division wrong_order
        bad_threshold bad_profile bad_symbol bad_mapping bad_request rejected_contract
        index_out_of_range :
      VenueError

-- What `float(v)` and `int(v)` do of a JSON value: a value, a TypeError or ValueError, or an
-- OverflowError, which the parsers do not catch.
pub data Parsed (A : Type 0) : Type 0 where
  parsed : A → Parsed A
  refused : Parsed A
  too_large : Parsed A

-- A JSON value where a number is expected. `truthy` is `bool(v)`.
pub data Cell (V : Type 0) : Type 0 where
  boolean : Bool → Cell V
  value : V → Cell V

pub record Json (fl : Floats) : Type 1 where
  pub V : Type 0
  pub float_of : V → Parsed fl.F
  pub int_of : V → Parsed ℤ
  pub truthy : V → Bool

pub record BookLevel (fl : Floats) : Type 0 where
  pub price : fl.F
  pub quantity : fl.F

pub record BookSnapshot (fl : Floats) : Type 0 where
  pub source : String
  pub symbol : String
  pub timestamp_ms : ℤ
  pub bids : List (BookLevel fl)
  pub asks : List (BookLevel fl)
  pub latency_ms : fl.F

-- A level of an answer: `none` if it is no object, or no list of at least two items.
abbrev pub RawLevel : Type 0 → Type 0
RawLevel V = Option (Cell V × Cell V)

-- A side of an answer: `none` if it is no list.
abbrev pub RawSide : Type 0 → Type 0
RawSide V = Option (List (RawLevel V))

-- An answer that is an object; a missing key reads as the value `None`.
pub record EvedexPayload (V : Type 0) : Type 0 where
  pub bids : RawSide V
  pub asks : RawSide V
  pub t : Cell V

pub record BinancePayload (V : Type 0) : Type 0 where
  pub bids : RawSide V
  pub asks : RawSide V
  pub transaction : Cell V
  pub event : Cell V

module _ (fl : Floats) where
  open fl use {F, finite, less, at_most, same, add, sub, mul, div, of_nat}

  unfoldable pub empty : List (BookLevel fl) → Bool
  empty [] = true
  empty (_ ∷ _) = false

  -- `bids[0].price` and `asks[0].price` of a snapshot, whose sides are not empty
  unfoldable pub best : List (BookLevel fl) → F
  best [] = of_nat 0
  best (l ∷ _) = l.price

  -- `BookSnapshot.__post_init__`
  unfoldable pub check_snapshot : BookSnapshot fl → Result VenueError (BookSnapshot fl)
  unfolding empty best
  check_snapshot book = do
    raise_if (empty book.bids || empty book.asks) missing_side
    raise_if (at_most (best book.asks) (best book.bids)) crossed_book
    ok book

  unfoldable pub mid : BookSnapshot fl → F
  unfolding best
  mid book = div (add (best book.bids) (best book.asks)) (of_nat 2)

  -- `a / b`, which raises on a zero
  unfoldable pub divided : F → F → Result VenueError F
  divided a b = if same b (of_nat 0) then err zero_division else ok (div a b)

  -- the property `spread_bps`
  unfoldable pub spread_bps : BookSnapshot fl → Result VenueError F
  unfolding best mid divided
  spread_bps book = do
    ratio ← divided (sub (best book.asks) (best book.bids)) (mid book)
    ok (mul ratio (of_nat 10_000))

  -- the test of `_positive`
  unfoldable pub bad_number : F → Bool
  bad_number a = not (finite a) || at_most a (of_nat 0)

  unfoldable pub positive : F → Result VenueError F
  unfolding bad_number
  positive a = if bad_number a then err not_positive else ok a

  -- `bids != sorted(bids)`, with the order of the side
  unfoldable pub before : Bool → BookLevel fl → BookLevel fl → Bool
  before bids y x = if bids then less x.price y.price else less y.price x.price

  unfoldable pub same_levels : List (BookLevel fl) → List (BookLevel fl) → Bool
  same_levels [] [] = true
  same_levels (x ∷ xs) (y ∷ ys) =
      same x.price y.price && same x.quantity y.quantity && same_levels xs ys
  same_levels _ _ = false

  unfoldable pub best_first : Bool → List (BookLevel fl) → Result VenueError (Unit {0})
  unfolding same_levels before sorted
  best_first bids side = raise_if (not (same_levels (sorted (before bids) side) side)) unsorted

  -- the loop of `market_slippage_bps`: what was spent and bought, once the rest is small enough
  unfoldable pub fill : F → List (BookLevel fl) → F → F → F → Result VenueError (Option (F × F))
  fill enough [] remaining spent quantity = ok none
  fill enough (l ∷ ls) remaining spent quantity =
      let level_notional = mul l.price l.quantity in
      let taken = if less level_notional remaining then level_notional else remaining in
      let bought = div taken l.price in
      let rest = fill enough ls (sub remaining taken) (add spent taken) (add quantity bought) in
      if same l.price (of_nat 0)
      then err zero_division
      else if at_most (sub remaining taken) enough
      then ok (some (add spent taken, add quantity bought))
      else rest

  -- `max(1e-9, notional_usd * 1e-12)`
  unfoldable pub tolerance : F → F
  tolerance notional =
      let least = div (of_nat 1) (of_nat (10 ^ 9)) in
      let part = mul notional (div (of_nat 1) (of_nat (10 ^ 12))) in
      if less least part then part else least

  -- the result of `market_slippage_bps` for a filled order
  unfoldable pub slippage_of : Bool → F → F × F → Result VenueError F
  unfolding divided
  slippage_of buy reference filled = do
    average ← divided filled.0 filled.1
    ratio ← divided (if buy then sub average reference else sub reference average) reference
    ok (mul ratio (of_nat 10_000))

  unfoldable pub market_slippage_bps : BookSnapshot fl → Bool → F → Result VenueError (Option F)
  unfolding positive fill tolerance slippage_of mid
  market_slippage_bps book buy notional = do
    remaining ← positive notional
    filled ←
        fill (tolerance notional) (if buy then book.asks else book.bids) remaining (of_nat 0)
          (of_nat 0)
    elim filled as (λ _. Result VenueError (Option F)) [
      | none ↦ ok none
      | some both ↦ do bps ← slippage_of buy (mid book) both; ok (some bps)
    ]

  module _ (js : Json fl) where
    -- `_positive`
    unfoldable pub positive_cell : Cell js.V → Result VenueError F
    unfolding positive
    positive_cell (boolean _) = err not_numeric
    positive_cell (value v) = elim (js.float_of v) [
      | parsed a ↦ positive a
      | refused ↦ err not_numeric
      | too_large ↦ err overflowed
    ]

    -- `_timestamp`
    unfoldable pub timestamp : Cell js.V → Result VenueError ℤ
    timestamp (boolean _) = err bad_timestamp
    timestamp (value v) = elim (js.int_of v) [
      | parsed n ↦ if ltb_ℤ (pos 0) n then ok n else err late_timestamp
      | refused ↦ err bad_timestamp
      | too_large ↦ err overflowed
    ]

    unfoldable pub level_of : RawLevel js.V → Result VenueError (BookLevel fl)
    unfolding positive_cell
    level_of none = err malformed_level
    level_of (some (p, q)) = do
      price ← positive_cell p
      quantity ← positive_cell q
      ok (record { price = price; quantity = quantity })

    -- the loop of `levels`
    unfoldable pub levels_of : List (RawLevel js.V) → Result VenueError (List (BookLevel fl))
    unfolding level_of
    levels_of [] = ok []
    levels_of (l ∷ ls) = do level ← level_of l; rest ← levels_of ls; ok (level ∷ rest)

    -- `all(isinstance(item, dict) for item in raw)`
    unfoldable pub all_objects : List (RawLevel js.V) → Bool
    all_objects [] = true
    all_objects (none ∷ _) = false
    all_objects (some _ ∷ ls) = all_objects ls

    unfoldable pub evedex_levels : RawSide js.V → Result VenueError (List (BookLevel fl))
    unfolding all_objects levels_of
    evedex_levels none = err not_list
    evedex_levels (some raw) = if all_objects raw then levels_of raw else err malformed_level

    unfoldable pub binance_levels : RawSide js.V → Result VenueError (List (BookLevel fl))
    unfolding levels_of
    binance_levels none = err not_list
    binance_levels (some raw) = levels_of raw

    unfoldable pub parse_evedex_book :
        String → Option (EvedexPayload js.V) → F → Result VenueError (BookSnapshot fl)
    unfolding evedex_levels empty best_first timestamp check_snapshot
    parse_evedex_book symbol none latency = err not_object
    parse_evedex_book symbol (some payload) latency = do
      bids ← evedex_levels payload.bids
      asks ← evedex_levels payload.asks
      raise_if (empty bids || empty asks) unavailable
      best_first true bids
      best_first false asks
      t ← timestamp payload.t
      check_snapshot (record {
        source = "evedex";
        symbol = symbol;
        timestamp_ms = t;
        bids = bids;
        asks = asks;
        latency_ms = latency;
      })

    -- `payload.get("T") or payload.get("E")`
    unfoldable pub first_truthy : Cell js.V → Cell js.V → Cell js.V
    first_truthy (boolean true) other = boolean true
    first_truthy (boolean false) other = other
    first_truthy (value v) other = if js.truthy v then value v else other

    unfoldable pub parse_binance_book :
        String → Option (BinancePayload js.V) → F → Result VenueError (BookSnapshot fl)
    unfolding binance_levels best_first timestamp check_snapshot first_truthy
    parse_binance_book symbol none latency = err not_object
    parse_binance_book symbol (some payload) latency = do
      bids ← binance_levels payload.bids
      asks ← binance_levels payload.asks
      best_first true bids
      best_first false asks
      t ← timestamp (first_truthy payload.transaction payload.event)
      check_snapshot (record {
        source = "binance";
        symbol = symbol;
        timestamp_ms = t;
        bids = bids;
        asks = asks;
        latency_ms = latency;
      })
