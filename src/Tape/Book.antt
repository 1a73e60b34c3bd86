-- ===== src/Tape/Book.antt =====
-- `normalize_simulation_book` of kairos_quant/simulation_book.py: the strict book of a frame.
use kairos_quant_scouts.Prelude.{ℕ, Bool, true, false, not, ◌&&◌, ◌||◌, List, [], ◌∷◌, take, leb}
use kairos_quant_scouts.Prelude.Result.{Result, ok, err, ◌>>=◌, ◌>>◌, raise_if}
use kairos_quant_scouts.Floats.{Floats}
use kairos_quant_scouts.OrderBook.{Level, BookError, normalize_order_book}

-- The messages of the `ValueError`s; `rejected` is one of `normalize_order_book`.
pub data StrictError : Type 0 where
  bad_maximum one_sided locked duplicate_prices not_finite : StrictError
  rejected : BookError → StrictError

module _ (fl : Floats) where
  open fl use {F, finite, at_most, same}

  -- `len(prices) != len(set(prices))`
  unfoldable pub repeated : F → List (Level fl) → Bool
  repeated p [] = false
  repeated p (l ∷ ls) = same p l.price || repeated p ls

  unfoldable pub has_duplicates : List (Level fl) → Bool
  unfolding repeated
  has_duplicates [] = false
  has_duplicates (l ∷ ls) = repeated l.price ls || has_duplicates ls

  unfoldable pub has_infinite : List (Level fl) → Bool
  has_infinite [] = false
  has_infinite (l ∷ ls) = not (finite l.price) || not (finite l.size) || has_infinite ls

  -- one round of the loop over both sides
  unfoldable pub check_side : List (Level fl) → Result StrictError (Unit {0})
  unfolding has_duplicates has_infinite
  check_side levels = do
    raise_if (has_duplicates levels) duplicate_prices
    raise_if (has_infinite levels) not_finite

  -- `normalized_bids[0][0] >= normalized_asks[0][0]` of two sides that are not empty
  unfoldable pub touching : List (Level fl) → List (Level fl) → Bool
  touching (b ∷ _) (a ∷ _) = at_most a.price b.price
  touching _ _ = false

  abbrev pub is_empty : List (Level fl) → Bool
  is_empty [] = true
  is_empty (_ ∷ _) = false

  abbrev pub lift_book : {A : Type 0} → Result BookError A → Result StrictError A
  lift_book (ok a) = ok a
  lift_book (err e) = err (rejected e)

  unfoldable pub normalize_simulation_book :
      List (Level fl) → List (Level fl) → ℕ → Result StrictError (List (Level fl) × List (Level fl))
  unfolding check_side touching
  normalize_simulation_book bids asks maximum_levels = do
    raise_if (not (leb 1 maximum_levels && leb maximum_levels 100)) bad_maximum
    (nb, na) ← lift_book (normalize_order_book fl bids asks)
    raise_if (is_empty nb || is_empty na) one_sided
    raise_if (touching nb na) locked
    check_side nb
    check_side na
    ok (take maximum_levels nb, take maximum_levels na)
