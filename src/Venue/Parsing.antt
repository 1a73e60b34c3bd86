-- ===== src/Venue/Parsing.antt =====
-- kairos_quant/venue_comparison.py: what a parsed book is.
use kairos_quant_scouts.Prelude.{
  ◌≡◌, refl, Bool, true, false, not, ◌&&◌, ◌||◌, List, [], ◌∷◌, Option, none, some, String,
  if◌then◌else◌, ◌⊎◌, inl, inr, arith,
}
use kairos_quant_scouts.Prelude.Int.{ℤ, pos, ltb_ℤ}
use kairos_quant_scouts.Prelude.Result.{
  Result, ok, err, ◌>>=◌, ◌>>◌, guard_ok, unless_ok, bind_ok, passed,
}
use kairos_quant_scouts.Floats.{Floats, IsOrdered, IsExact}
use kairos_quant_scouts.OrderBook.{sorted}
use kairos_quant_scouts.OrderBook.Order.{IsSorted, sorted-IsSorted}
use kairos_quant_scouts.Venue.Book.{
  VenueError, bad_timestamp, malformed_level, late_timestamp, Parsed, not_positive, not_numeric,
  overflowed, missing_side, crossed_book, unsorted, unavailable, Json, parsed, refused, too_large,
  boolean, value, BookLevel, BookSnapshot, RawLevel, Cell, EvedexPayload, BinancePayload, best,
  bad_number, positive, before, same_levels, best_first, check_snapshot, positive_cell, timestamp,
  level_of, levels_of, all_objects, evedex_levels, binance_levels, empty, first_truthy,
  parse_evedex_book, parse_binance_book,
}

all_three : (a b c : Bool) → a && b && c ≡ true → (a ≡ true) × (b ≡ true) × (c ≡ true)
all_three a b c h = ground (arith, h)

module _ (fl : Floats) where
  open fl use {F, finite, less, at_most, same, of_nat}

  -- Every level has a finite and positive price and quantity.
  abbrev pub AllTradable : List (BookLevel fl) → Type 0
  AllTradable [] = Unit
  AllTradable (l ∷ ls) =
      (bad_number fl l.price ≡ false) × (bad_number fl l.quantity ≡ false) × AllTradable ls

  -- A book that orders can be executed on.
  pub record IsExecutable (book : BookSnapshot fl) : Type 0 where
    pub bids_tradable : AllTradable book.bids
    pub asks_tradable : AllTradable book.asks
    pub bids_best_first : IsSorted (before fl true) book.bids
    pub asks_best_first : IsSorted (before fl false) book.asks
    pub two_sided : (empty fl book.bids ≡ false) × (empty fl book.asks ≡ false)
    pub uncrossed : at_most (best fl book.asks) (best fl book.bids) ≡ false
    pub dated : ltb_ℤ (pos 0) book.timestamp_ms ≡ true

  same_level : (x y : BookLevel fl) → x.price ≡ y.price → x.quantity ≡ y.quantity → x ≡ y
  same_level x y p q = cc (p, q)

  before_asymmetric :
      (law : IsOrdered fl) (bids : Bool) (a b : BookLevel fl)
      → before fl bids a b ≡ true
      → before fl bids b a ≡ false
  unfolding before
  before_asymmetric law true a b e = law.less_asymmetric b.price a.price e
  before_asymmetric law false a b e = law.less_asymmetric a.price b.price e

  positive_ok : (a b : F) → positive fl a ≡ ok b → bad_number fl b ≡ false
  unfolding positive
  positive_ok a b h =
      let (good, eq) = unless_ok (bad_number fl a) not_positive a b h in rw (← eq) good

  check_snapshot_ok :
      (book b : BookSnapshot fl)
      → check_snapshot fl book ≡ ok b
      → (book ≡ b)
        × ((empty fl book.bids ≡ false) × (empty fl book.asks ≡ false))
        × (at_most (best fl book.asks) (best fl book.bids) ≡ false)
  unfolding check_snapshot
  check_snapshot_ok book b h =
      let (sides, h1) = passed (empty fl book.bids || empty fl book.asks) missing_side _ b h in
      let (apart, h2) =
        passed (at_most (best fl book.asks) (best fl book.bids)) crossed_book _ b h1 in
      (cc h2, ground (arith, sides), apart)

  good_number :
      (a : F) → bad_number fl a ≡ false → (finite a ≡ true) × (at_most a (of_nat 0) ≡ false)
  unfolding bad_number
  good_number a h = ground (arith, h)

  module _ (exact : IsExact fl) where
    same_levels-≡ :
        (xs ys : List (BookLevel fl)) → AllTradable ys → same_levels fl xs ys ≡ true → xs ≡ ys
    unfolding same_levels
    same_levels-≡ [] [] h e = refl
    same_levels-≡ [] (y ∷ ys) h e = cc
    same_levels-≡ (x ∷ xs) [] h e = cc
    same_levels-≡ (x ∷ xs) (y ∷ ys) (p, q, h) e =
        let (ep, eq, er) = all_three (same x.price y.price) (same x.quantity y.quantity) _ e in
        let (fp, zp) = good_number y.price p in
        let (fq, zq) = good_number y.quantity q in
        let price = exact.same_positive x.price y.price fp zp ep in
        let quantity = exact.same_positive x.quantity y.quantity fq zq eq in
        cc (same_level x y price quantity, same_levels-≡ xs ys h er)

    best_first_ok :
        (law : IsOrdered fl) (bids : Bool) (side : List (BookLevel fl))
        → AllTradable side
        → same_levels fl (sorted (before fl bids) side) side ≡ true
        → IsSorted (before fl bids) side
    best_first_ok law bids side h e =
        rw (← same_levels-≡ (sorted (before fl bids) side) side h e)
          (sorted-IsSorted (before fl bids) (before_asymmetric law bids) side)

  module _ (js : Json fl) where
    positive_cell_ok :
        (c : Cell js.V) (a : F) → positive_cell fl js c ≡ ok a → bad_number fl a ≡ false
    unfolding positive_cell
    positive_cell_ok (boolean b) a h = cc
    positive_cell_ok (value v) a h = go (js.float_of v) h
      where
        go :
            (r : Parsed F)
            → elim r as (λ _. Result VenueError F) [
              | parsed a ↦ positive fl a
              | refused ↦ err not_numeric
              | too_large ↦ err overflowed
            ]
              ≡ ok a
            → bad_number fl a ≡ false
        go (parsed b) k = positive_ok b a k
        go refused k = cc
        go too_large k = cc

    level_of_ok :
        (raw : RawLevel js.V) (l : BookLevel fl)
        → level_of fl js raw ≡ ok l
        → (bad_number fl l.price ≡ false) × (bad_number fl l.quantity ≡ false)
    unfolding level_of
    level_of_ok none l h = cc
    level_of_ok (some (p, q)) l h =
        let (price, hp, h1) = bind_ok (positive_cell fl js p) _ l h in
        let (quantity, hq, h2) = bind_ok (positive_cell fl js q) _ l h1 in
        let whole : BookLevel fl = record { price = price; quantity = quantity } in
        let eq : whole ≡ l = cc h2 in
        rw (← eq) (positive_cell_ok p price hp, positive_cell_ok q quantity hq)

    levels_of-AllTradable :
        (raw : List (RawLevel js.V)) (side : List (BookLevel fl))
        → levels_of fl js raw ≡ ok side
        → AllTradable side
    unfolding levels_of
    levels_of-AllTradable [] side h = let eq : [] ≡ side = cc h in rw (← eq) tt
    levels_of-AllTradable (r ∷ rs) side h =
        let (l, hl, h1) = bind_ok (level_of fl js r) _ side h in
        let (rest, hr, h2) = bind_ok (levels_of fl js rs) _ side h1 in
        let eq : l ∷ rest ≡ side = cc h2 in
        let (p, q) = level_of_ok r l hl in rw (← eq) (p, q, levels_of-AllTradable rs rest hr)

    timestamp_ok : (c : Cell js.V) (n : ℤ) → timestamp fl js c ≡ ok n → ltb_ℤ (pos 0) n ≡ true
    unfolding timestamp
    timestamp_ok (boolean b) n h = cc
    timestamp_ok (value v) n h = go (js.int_of v) h
      where
        go :
            (r : Parsed ℤ)
            → elim r as (λ _. Result VenueError ℤ) [
              | parsed n ↦ if ltb_ℤ (pos 0) n then ok n else err late_timestamp
              | refused ↦ err bad_timestamp
              | too_large ↦ err overflowed
            ]
              ≡ ok n
            → ltb_ℤ (pos 0) n ≡ true
        go (parsed m) k =
            let (late, eq) = guard_ok (ltb_ℤ (pos 0) m) late_timestamp m n k in rw (← eq) late
        go refused k = cc
        go too_large k = cc

    evedex_levels_ok :
        (raw : Option (List (RawLevel js.V))) (side : List (BookLevel fl))
        → evedex_levels fl js raw ≡ ok side
        → AllTradable side
    unfolding evedex_levels
    evedex_levels_ok none side h = cc
    evedex_levels_ok (some raw) side h = go (all_objects fl js raw) h
      where
        go :
            (c : Bool)
            → (if c then levels_of fl js raw else err malformed_level) ≡ ok side
            → AllTradable side
        go true k = levels_of-AllTradable raw side k
        go false k = cc

    binance_levels_ok :
        (raw : Option (List (RawLevel js.V))) (side : List (BookLevel fl))
        → binance_levels fl js raw ≡ ok side
        → AllTradable side
    unfolding binance_levels
    binance_levels_ok none side h = cc
    binance_levels_ok (some raw) side h = levels_of-AllTradable raw side h

    module _ (law : IsOrdered fl) (exact : IsExact fl) where
      -- The tail that the two parsers share.
      dated_book :
          (bids asks : List (BookLevel fl)) (c : Cell js.V) (source symbol : String) (latency : F)
          (book : BookSnapshot fl)
          → AllTradable bids
          → AllTradable asks
          → (best_first fl true bids
              >> (best_first fl false asks
                  >> (timestamp fl js c >>= λ t. check_snapshot fl (record {
                    source = source;
                    symbol = symbol;
                    timestamp_ms = t;
                    bids = bids;
                    asks = asks;
                    latency_ms = latency;
                  }))))
            ≡ ok book
          → IsExecutable book
      unfolding best_first
      dated_book bids asks c source symbol latency book hb ha h =
          let (sb, h1) =
            passed (not (same_levels fl (sorted (before fl true) bids) bids)) unsorted _ book h in
          let (sa, h2) =
            passed (not (same_levels fl (sorted (before fl false) asks) asks)) unsorted _ book h1 in
          let (t, ht, h3) = bind_ok (timestamp fl js c) _ book h2 in
          let (eq, sides, apart) = check_snapshot_ok _ book h3 in
          rw (← eq) (record {
            bids_tradable = hb;
            asks_tradable = ha;
            bids_best_first = best_first_ok exact law true bids hb (ground (arith, sb));
            asks_best_first = best_first_ok exact law false asks ha (ground (arith, sa));
            two_sided = sides;
            uncrossed = apart;
            dated = timestamp_ok c t ht;
          })

      -- Over ordered and exact floats, whatever the answer of a venue was: a book that either parser
      -- returns is executable. Both sides have levels, every price and quantity is finite and positive,
      -- each side stands best price first, the best bid is below the best ask and the time is positive.
      pub parse_book-IsExecutable :
          (symbol : String) (latency : F) (evedex : Option (EvedexPayload js.V))
          (binance : Option (BinancePayload js.V)) (book : BookSnapshot fl)
          → (parse_evedex_book fl js symbol evedex latency ≡ ok book)
            ⊎ (parse_binance_book fl js symbol binance latency ≡ ok book)
          → IsExecutable book
      unfolding parse_evedex_book parse_binance_book
      parse_book-IsExecutable symbol latency none binance book (inl h) = cc
      parse_book-IsExecutable symbol latency evedex none book (inr h) = cc
      parse_book-IsExecutable symbol latency (some p) binance book (inl h) =
          let (bids, hb, h1) = bind_ok (evedex_levels fl js p.bids) _ book h in
          let (asks, ha, h2) = bind_ok (evedex_levels fl js p.asks) _ book h1 in
          let (_, h3) = passed (empty fl bids || empty fl asks) unavailable _ book h2 in
          dated_book bids asks p.t "evedex" symbol latency book (evedex_levels_ok p.bids bids hb)
            (evedex_levels_ok p.asks asks ha) h3
      parse_book-IsExecutable symbol latency evedex (some p) book (inr h) =
          let (bids, hb, h1) = bind_ok (binance_levels fl js p.bids) _ book h in
          let (asks, ha, h2) = bind_ok (binance_levels fl js p.asks) _ book h1 in
          dated_book bids asks (first_truthy fl js p.transaction p.event) "binance" symbol latency
            book (binance_levels_ok p.bids bids hb) (binance_levels_ok p.asks asks ha) h2
