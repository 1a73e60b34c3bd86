-- ===== src/OrderBook.antt =====
-- kairos_quant/orderbook.py: validation and price order of a book, spread, imbalance and depth.
pub mod Order
use kairos_quant_scouts.Prelude.{
  ℕ, ◌≡◌, Bool, true, false, not, ◌&&◌, ◌||◌, List, [], ◌∷◌, ◌++◌, map, take, ◌==◌, if◌then◌else◌,
}
use kairos_quant_scouts.Prelude.Result.{Result, ok, err, ◌>>=◌, ◌>>◌, raise_if}
use kairos_quant_scouts.Floats.{Floats}

-- The messages of the `ValueError`s.
pub data BookError : Type 0 where
  levels_not_positive invalid_level crossed_book bad_quote inverted_quote overflow : BookError

pub record Level (fl : Floats) : Type 0 where
  pub price : fl.F
  pub size : fl.F

-- `sorted(xs, key=price, reverse=bids)`: a stable insertion sort, with `ahead y x` for "`y` must
-- stand before an earlier `x`".
module _ {ℓ} {A : Type ℓ} (ahead : A → A → Bool) where
  unfoldable pub insert_sorted : A → List A → List A
  insert_sorted x [] = x ∷ []
  insert_sorted x (y ∷ ys) = if ahead y x then y ∷ insert_sorted x ys else x ∷ y ∷ ys

  unfoldable pub sorted : List A → List A
  unfolding insert_sorted
  sorted [] = []
  sorted (x ∷ xs) = insert_sorted x (sorted xs)

module _ (fl : Floats) where
  open fl use {F, finite, less, at_most, same, add, sub, mul, div, of_nat}

  -- `_positive_levels`
  unfoldable pub positive_levels : ℕ → Result BookError (Unit {0})
  positive_levels levels = raise_if (levels == 0) levels_not_positive

  -- the test of `_validated_levels` that raises
  unfoldable pub bad_level : Level fl → Bool
  bad_level l =
      not (finite l.price)
      || not (finite l.size)
      || at_most l.price (of_nat 0)
      || less l.size (of_nat 0)

  -- the loop of `_validated_levels`
  unfoldable pub clean_levels : List (Level fl) → Result BookError (List (Level fl))
  clean_levels [] = ok []
  clean_levels (l ∷ ls) = do
    raise_if (bad_level l) invalid_level
    rest ← clean_levels ls
    ok (if less (of_nat 0) l.size then l ∷ rest else rest)

  unfoldable pub ahead : Bool → Level fl → Level fl → Bool
  ahead bids y x = if bids then less x.price y.price else less y.price x.price

  -- `_validated_levels`
  unfoldable pub validated_levels : List (Level fl) → Bool → Result BookError (List (Level fl))
  unfolding bad_level clean_levels ahead sorted
  validated_levels values bids = do clean ← clean_levels values; ok (sorted (ahead bids) clean)

  -- `bids and asks and bids[0][0] > asks[0][0]`
  unfoldable pub crossed : List (Level fl) → List (Level fl) → Bool
  crossed (b ∷ _) (a ∷ _) = less a.price b.price
  crossed _ _ = false

  unfoldable pub normalize_order_book :
      List (Level fl) → List (Level fl) → Result BookError (List (Level fl) × List (Level fl))
  unfolding validated_levels crossed
  normalize_order_book bids asks = do
    normalized_bids ← validated_levels bids true
    normalized_asks ← validated_levels asks false
    raise_if (crossed normalized_bids normalized_asks) crossed_book
    ok (normalized_bids, normalized_asks)

  unfoldable pub spread_bps : F → F → Result BookError F
  spread_bps best_bid best_ask = do
    raise_if
        (not (
          finite best_bid
          && less (of_nat 0) best_bid
          && finite best_ask
          && less (of_nat 0) best_ask))
        bad_quote
    raise_if (less best_ask best_bid) inverted_quote
    let mid = add best_bid (div (sub best_ask best_bid) (of_nat 2))
    ok (mul (div (sub best_ask best_bid) mid) (of_nat 10_000))

  -- `max(..., default=0.0)`, and `sum(...)`, which starts at the integer 0
  unfoldable pub maximum : F → List F → F
  maximum m [] = m
  maximum m (x ∷ xs) = maximum (if less m x then x else m) xs

  unfoldable pub maximum_or_zero : List F → F
  unfolding maximum
  maximum_or_zero [] = of_nat 0
  maximum_or_zero (x ∷ xs) = maximum x xs

  unfoldable pub sum_from : F → List F → F
  sum_from s [] = s
  sum_from s (x ∷ xs) = sum_from (add s x) xs

  abbrev pub sizes : ℕ → List (Level fl) → List F
  sizes levels side = map (λ l. l.size) (take levels side)

  unfoldable pub order_book_imbalance : List (Level fl) → List (Level fl) → ℕ → Result BookError F
  unfolding positive_levels normalize_order_book maximum_or_zero sum_from
  order_book_imbalance bids asks levels = do
    positive_levels levels
    (nb, na) ← normalize_order_book bids asks
    let bid_sizes = sizes levels nb
    let ask_sizes = sizes levels na
    let scale = maximum_or_zero (bid_sizes ++ ask_sizes)
    let bid_vol = sum_from (of_nat 0) (map (λ size. div size scale) bid_sizes)
    let ask_vol = sum_from (of_nat 0) (map (λ size. div size scale) ask_sizes)
    if same scale (of_nat 0)
        then ok (of_nat 0)
        else ok (div (sub bid_vol ask_vol) (add bid_vol ask_vol))

  -- the loop of `depth_usd`
  unfoldable pub depth_from : F → List (Level fl) → Result BookError F
  depth_from total [] = ok total
  depth_from total (l ∷ ls) =
      let notional = mul l.price l.size in
      let rest = depth_from (add total notional) ls in
      if not (finite notional) || not (finite (add total notional)) then err overflow else rest

  unfoldable pub depth_usd : List (Level fl) → List (Level fl) → ℕ → Result BookError F
  unfolding positive_levels normalize_order_book depth_from
  depth_usd bids asks levels = do
    positive_levels levels
    (nb, na) ← normalize_order_book bids asks
    depth_from (of_nat 0) (take levels nb ++ take levels na)
