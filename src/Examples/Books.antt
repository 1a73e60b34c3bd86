-- ===== src/Examples/Books.antt =====
-- Order books of natural numbers.
use kairos_quant_scouts.Prelude.{ℕ, ◌≡◌, refl, true, false, List, [], ◌∷◌}
use kairos_quant_scouts.Prelude.Result.{ok}
use kairos_quant_scouts.Examples.{numbers, numbers-IsOrdered}
use kairos_quant_scouts.OrderBook.{Level, crossed, normalize_order_book}
use kairos_quant_scouts.OrderBook.Order.{IsSide, normalize_order_book-IsSide}

abbrev level : ℕ → ℕ → Level numbers
level price size = record { price = price; size = size }

abbrev raw_bids : List (Level numbers)
raw_bids = level 99 2 ∷ level 100 1 ∷ level 98 0 ∷ []

abbrev raw_asks : List (Level numbers)
raw_asks = level 102 4 ∷ level 101 3 ∷ []

abbrev best_bids : List (Level numbers)
best_bids = level 100 1 ∷ level 99 2 ∷ []

abbrev best_asks : List (Level numbers)
best_asks = level 101 3 ∷ level 102 4 ∷ []

normalized : normalize_order_book numbers raw_bids raw_asks ≡ ok (best_bids, best_asks)
unfolding normalize_order_book
normalized = refl

normalize_order_book-IsSide_example :
    IsSide numbers true raw_bids best_bids
    × IsSide numbers false raw_asks best_asks
    × (crossed numbers best_bids best_asks ≡ false)
normalize_order_book-IsSide_example =
    normalize_order_book-IsSide numbers numbers-IsOrdered raw_bids raw_asks best_bids best_asks
      normalized
