-- ===== src/Venue/Mapping.antt =====
-- kairos_quant/runtime_venue_gate.py: which pairs of books are measured.
use kairos_quant_scouts.Prelude.{
  ◌≡◌, refl, Bool, false, not, ◌||◌, Option, none, some, String, str_eq, eq_iff, ◌⊎◌, inl, inr,
  arith,
}
use kairos_quant_scouts.Prelude.Int.{ℤ}
use kairos_quant_scouts.Prelude.Result.{Result, ok, err, raise_if, then_ok, passed, not_raised}
use kairos_quant_scouts.Floats.{Floats}
use kairos_quant_scouts.Venue.Book.{VenueError, bad_symbol, bad_mapping, wrong_order, BookSnapshot}
use kairos_quant_scouts.Venue.Quality.{
  Profile, dev, prod, another_profile, no_profile, VenueGatePolicy, VenueQuality, prod_symbol,
  validate_prod, validate_book_pair, build_venue_quality,
}

equal : (s t : String) → not (str_eq s t) ≡ false → s ≡ t
equal s t h = (eq_iff s t).0 (ground (arith, h))

both_false : (a b : Bool) → a || b ≡ false → (a ≡ false) × (b ≡ false)
both_false a b h = ground (arith, h)

module _ (fl : Floats) (normalized : String → String) (binance evedex : BookSnapshot fl)
    (symbol : String) where
  -- Both books come from their venue, and on PROD the three symbols are an entry of the map.
  abbrev pub IsMapped : Profile → Type 0
  IsMapped profile =
      (binance.source ≡ "binance")
      × (evedex.source ≡ "evedex")
      × ((profile ≡ dev)
          ⊎ ((profile ≡ prod)
              × (prod_symbol binance.symbol ≡ some symbol)
              × (evedex.symbol ≡ symbol)))

  validate_prod_ok :
      (u : Unit {0})
      → validate_prod fl normalized binance evedex symbol ≡ ok u
      → (prod_symbol binance.symbol ≡ some symbol) × (evedex.symbol ≡ symbol)
  unfolding validate_prod
  validate_prod_ok u h =
      let (plain, h1) =
        passed (not (str_eq binance.symbol (normalized binance.symbol))) bad_symbol _ u h in
      go (prod_symbol (normalized binance.symbol)) refl
        (equal binance.symbol (normalized binance.symbol) plain) h1
    where
      go :
          (o : Option String)
          → prod_symbol (normalized binance.symbol) ≡ o
          → binance.symbol ≡ normalized binance.symbol
          → elim o as (λ _. Result VenueError (Unit {0})) [
            | none ↦ err bad_symbol
            | some expected ↦
                raise_if
                  (not (str_eq symbol expected) || not (str_eq evedex.symbol expected))
                  bad_mapping
          ]
            ≡ ok u
          → (prod_symbol binance.symbol ≡ some symbol) × (evedex.symbol ≡ symbol)
      go none e p k = cc
      go (some expected) e p k =
          let (x, y) =
            both_false (not (str_eq symbol expected)) (not (str_eq evedex.symbol expected))
              (not_raised _ bad_mapping u k) in
          let s = equal symbol expected x in
          let t = equal evedex.symbol expected y in (cc (e, p, s), cc (s, t))

  ordered_ok :
      (profile : Profile) (u : Unit {0})
      → validate_book_pair fl normalized binance evedex symbol profile ≡ ok u
      → IsMapped profile
  unfolding validate_book_pair
  ordered_ok dev u h =
      let (x, y) = both_false _ _ (not_raised _ wrong_order u h) in
      (equal binance.source "binance" x, equal evedex.source "evedex" y, inl refl)
  ordered_ok prod u h =
      let (c, h1) = passed _ wrong_order (validate_prod fl normalized binance evedex symbol) u h in
      let (x, y) = both_false _ _ c in
      (
        equal binance.source "binance" x,
        equal evedex.source "evedex" y,
        let (mapped, same) = validate_prod_ok u h1 in inr (refl, mapped, same),
      )
  ordered_ok another_profile u h = cc
  ordered_ok no_profile u h = cc

  -- A measurement is only ever of an approved pair: the first book is Binance's and the second is
  -- EVEDEX's, the profile is DEV or PROD, and on PROD the symbol of the Binance book is in the fixed
  -- map, whose entry is both the requested symbol and the symbol of the EVEDEX book.
  pub build_venue_quality-IsMapped :
      (accepts : VenueQuality fl → Bool) (now latency : ℤ) (policy : VenueGatePolicy fl)
      (profile : Profile) (source : String) (q : VenueQuality fl)
      → build_venue_quality fl normalized accepts binance evedex symbol now latency policy profile
          source
        ≡ ok q
      → IsMapped profile
  unfolding build_venue_quality
  build_venue_quality-IsMapped accepts now latency policy profile source q h =
      let ((u, valid), _) =
        then_ok (validate_book_pair fl normalized binance evedex symbol profile) _ q h in
      ordered_ok profile u valid
