-- ===== src/OrderBook/Order.antt =====
-- kairos_quant/orderbook.py: what `normalize_order_book` returns.
use mathlib.Core.List.{Perm}
use mathlib.Core.List.Perm
use kairos_quant_scouts.Prelude.{
  ◌≡◌, refl, Bool, true, false, Bool-cases, inl, inr, List, [], ◌∷◌, if◌then◌else◌, arith, ap, ◌∙◌,
}
use kairos_quant_scouts.Prelude.Result.{Result, ok, err, ◌>>=◌, ◌>>◌, raise_if}
use kairos_quant_scouts.Floats.{Floats, IsOrdered}
use kairos_quant_scouts.OrderBook.{
  BookError, crossed_book, invalid_level, Level, insert_sorted, sorted, bad_level, clean_levels,
  ahead, validated_levels, crossed, normalize_order_book,
}

module _ {ℓ} {A : Type ℓ} (before : A → A → Bool) where
  -- No element must stand before the one to its left.
  abbrev pub IsSorted : List A → Type 0
  IsSorted [] = Unit
  IsSorted (x ∷ []) = Unit
  IsSorted (x ∷ y ∷ ys) = (before y x ≡ false) × IsSorted (y ∷ ys)

  pub insert_sorted-Perm : (x : A) (xs : List A) → Perm (insert_sorted before x xs) (x ∷ xs)
  unfolding insert_sorted
  insert_sorted-Perm x [] = Perm.refl (x ∷ [])
  insert_sorted-Perm x (y ∷ ys) = elim (Bool-cases (before y x)) [
    | inl first ↦ rw first (Perm.trans (Perm.cons y (insert_sorted-Perm x ys)) (Perm.swap x y ys))
    | inr after ↦ rw after (Perm.refl (x ∷ y ∷ ys))
  ]

  pub sorted-Perm : (xs : List A) → Perm (sorted before xs) xs
  unfolding sorted
  sorted-Perm [] = Perm.refl []
  sorted-Perm (x ∷ xs) =
      Perm.trans (insert_sorted-Perm x (sorted before xs)) (Perm.cons x (sorted-Perm xs))

module _ {ℓ} {A : Type ℓ} (before : A → A → Bool)
    (asymmetric : (a b : A) → before a b ≡ true → before b a ≡ false) where
  insert_after :
      (x y : A) (ys : List A)
      → before y x ≡ true
      → IsSorted before (y ∷ ys)
      → IsSorted before (insert_sorted before x ys)
      → IsSorted before (y ∷ insert_sorted before x ys)
  unfolding insert_sorted
  insert_after x y [] e h k = (asymmetric y x e, tt)
  insert_after x y (z ∷ zs) e h k = elim (Bool-cases (before z x)) [
    | inl first ↦ ground (arith)
    | inr after ↦ ground (arith, asymmetric y x)
  ]

  tail-IsSorted : (y : A) (ys : List A) → IsSorted before (y ∷ ys) → IsSorted before ys
  tail-IsSorted y [] h = tt
  tail-IsSorted y (z ∷ zs) h = h.1

  insert_sorted-IsSorted :
      (x : A) (xs : List A) → IsSorted before xs → IsSorted before (insert_sorted before x xs)
  unfolding insert_sorted
  insert_sorted-IsSorted x [] h = tt
  insert_sorted-IsSorted x (y ∷ ys) h = elim (Bool-cases (before y x)) [
    | inl first ↦
        rw first (insert_after x y ys first h (insert_sorted-IsSorted x ys (tail-IsSorted y ys h)))
    | inr after ↦ rw after (after, h)
  ]

  pub sorted-IsSorted : (xs : List A) → IsSorted before (sorted before xs)
  unfolding sorted
  sorted-IsSorted [] = tt
  sorted-IsSorted (x ∷ xs) = insert_sorted-IsSorted x (sorted before xs) (sorted-IsSorted xs)

module _ (fl : Floats) where
  open fl use {F, less, of_nat}

  -- The levels that have a size above 0.
  abbrev pub positive : List (Level fl) → List (Level fl)
  positive [] = []
  positive (l ∷ ls) = if less (of_nat 0) l.size then l ∷ positive ls else positive ls

  abbrev pub AllValid : List (Level fl) → Type 0
  AllValid [] = Unit
  AllValid (l ∷ ls) = (bad_level fl l ≡ false) × AllValid ls

  clean_levels-ok :
      (ls clean : List (Level fl))
      → clean_levels fl ls ≡ ok clean
      → AllValid ls × (clean ≡ positive ls)
  unfolding clean_levels
  clean_levels-ok [] clean h = (tt, cc)
  clean_levels-ok (l ∷ ls) clean h =
      go (bad_level fl l) (clean_levels fl ls) refl (λ rest. clean_levels-ok ls rest) h
    where
      go :
          (b : Bool) (r : Result BookError (List (Level fl)))
          → bad_level fl l ≡ b
          → ((rest : List (Level fl)) → r ≡ ok rest → AllValid ls × (rest ≡ positive ls))
          → (raise_if b invalid_level
              >> (r >>= λ rest. ok (if less (of_nat 0) l.size then l ∷ rest else rest)))
            ≡ ok clean
          → AllValid (l ∷ ls) × (clean ≡ positive (l ∷ ls))
      go true r e p k = cc
      go false (err x) e p k = cc
      go false (ok rest) e p k = ground (arith, p rest refl)

  -- One side of a normalised book.
  pub record IsSide (bids : Bool) (raw side : List (Level fl)) : Type 0 where
    pub valid : AllValid raw
    pub kept : Perm side (positive raw)
    pub ordered : IsSorted (ahead fl bids) side

  module _ (law : IsOrdered fl) where
    ahead_asymmetric :
        (bids : Bool) (a b : Level fl) → ahead fl bids a b ≡ true → ahead fl bids b a ≡ false
    unfolding ahead
    ahead_asymmetric true a b e = law.less_asymmetric b.price a.price e
    ahead_asymmetric false a b e = law.less_asymmetric a.price b.price e

    validated_levels-IsSide :
        (bids : Bool) (raw side : List (Level fl))
        → validated_levels fl raw bids ≡ ok side
        → IsSide bids raw side
    unfolding validated_levels
    validated_levels-IsSide bids raw side h = go (clean_levels fl raw) refl h
      where
        go :
            (r : Result BookError (List (Level fl)))
            → clean_levels fl raw ≡ r
            → (r >>= λ clean. ok (sorted (ahead fl bids) clean)) ≡ ok side
            → IsSide bids raw side
        go (err x) e k = cc
        go (ok clean) e k =
            let (valid, same) = clean_levels-ok raw clean e in
            let shape : side ≡ sorted (ahead fl bids) (positive raw) = cc same in
            record {
              valid = valid;
              kept = rw shape (sorted-Perm (ahead fl bids) (positive raw));
              ordered =
                  rw shape (sorted-IsSorted (ahead fl bids) (ahead_asymmetric bids) (positive raw));
            }

    -- Over ordered floats, a book that comes back holds exactly the levels with a size, each side
    -- best price first, and is not crossed; every level that went in was valid.
    pub normalize_order_book-IsSide :
        (bids asks nb na : List (Level fl))
        → normalize_order_book fl bids asks ≡ ok (nb, na)
        → IsSide true bids nb × IsSide false asks na × (crossed fl nb na ≡ false)
    unfolding normalize_order_book
    normalize_order_book-IsSide bids asks nb na h =
        go (validated_levels fl bids true) (validated_levels fl asks false) refl refl h
      where
        both :
            List (Level fl) → List (Level fl) → Result BookError (List (Level fl) × List (Level fl))
        both x y = ok (x, y)

        go :
            (b a : Result BookError (List (Level fl)))
            → validated_levels fl bids true ≡ b
            → validated_levels fl asks false ≡ a
            → (b >>= λ x. a >>= λ y. (raise_if (crossed fl x y) crossed_book >> both x y))
              ≡ ok (nb, na)
            → IsSide true bids nb × IsSide false asks na × (crossed fl nb na ≡ false)
        go (err x) a p q k = cc
        go (ok x) (err y) p q k = cc
        go (ok x) (ok y) p q k = elim (Bool-cases (crossed fl x y)) [
          | inl bad ↦ cc (rw bad at k)
          | inr good ↦
              let e : (x ≡ nb) × (y ≡ na) = ground arith in
              (
                validated_levels-IsSide true bids nb (p ∙ ap ok e.0),
                validated_levels-IsSide false asks na (q ∙ ap ok e.1),
                rw (← e.0, ← e.1) good,
              )
        ]
