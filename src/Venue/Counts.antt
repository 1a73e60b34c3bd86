-- ===== src/Venue/Counts.antt =====
-- kairos_quant/venue_comparison.py: how many samples a comparison takes of a symbol.
use kairos_quant_scouts.Prelude.{
  ℕ, zero, suc, ◌+◌, ◌*◌, ◌≤◌, ◌≡◌, refl, sym, Bool, true, false, not, ◌||◌, List, [], ◌∷◌, ◌++◌,
  Option, none, some, String, str_eq, length, length-append, if◌then◌else◌, arith, ap, Bool-cases,
  inl, inr,
}
use kairos_quant_scouts.Prelude.Int.{ℤ}
use kairos_quant_scouts.Prelude.Result.{Result, ok, ◌>>=◌, ok_injective, bind_ok, passed}
use kairos_quant_scouts.Floats.{Floats}
use kairos_quant_scouts.Venue.Book.{
  VenueError, wrong_order, BookSnapshot, mid, divided, spread_bps, market_slippage_bps,
}
use kairos_quant_scouts.Venue.Compare.{VenueSample, Thresholds, VenueComparisonReport}
use kairos_quant_scouts.Venue.Rounds.{
  Market, sample_of, sample_in, round, rounds, samples_of, compare_venues,
}
use kairos_quant_scouts.Venue.Verdict.{compared}

-- How often a symbol is a key of the map.
abbrev pub occurrences : String → List (String × String) → ℕ
occurrences k [] = 0
occurrences k (item ∷ items) =
    let rest = occurrences k items in if str_eq item.0 k then suc rest else rest

module _ (fl : Floats) where
  open fl use {F, sub, mul, of_nat}

  samples_of-append :
      (k : String) (xs ys : List (VenueSample fl))
      → samples_of fl k (xs ++ ys) ≡ samples_of fl k xs ++ samples_of fl k ys
  unfolding samples_of
  samples_of-append k [] ys = refl
  samples_of-append k (x ∷ xs) ys = elim (Bool-cases (str_eq x.logical_symbol k)) [
    | inl e ↦ rw e (ap (λ zs. x ∷ zs) (samples_of-append k xs ys))
    | inr e ↦ rw e (samples_of-append k xs ys)
  ]

  sample_of-named :
      (logical at : String) (ms : ℤ) (evedex binance : BookSnapshot fl) (notional : F)
      (s : VenueSample fl)
      → sample_of fl logical at ms evedex binance notional ≡ ok s
      → s.logical_symbol ≡ logical
  unfolding sample_of
  sample_of-named logical at ms evedex binance notional s h =
      let (_, h1) =
        passed (not (str_eq evedex.source "evedex") || not (str_eq binance.source "binance"))
          wrong_order _ s h in
      let (_, _, h2) =
        bind_ok (divided fl (sub (mid fl evedex) (mid fl binance)) (mid fl binance)) _ s h1 in
      let (_, _, h3) = bind_ok (spread_bps fl evedex) _ s h2 in
      let (_, _, h4) = bind_ok (spread_bps fl binance) _ s h3 in
      let (_, _, h5) = bind_ok (market_slippage_bps fl evedex true notional) _ s h4 in
      let (_, _, h6) = bind_ok (market_slippage_bps fl evedex false notional) _ s h5 in
      let (_, _, h7) = bind_ok (market_slippage_bps fl binance true notional) _ s h6 in
      let (_, _, h8) = bind_ok (market_slippage_bps fl binance false notional) _ s h7 in
      ap (λ z. z.logical_symbol) (sym (ok_injective h8))

  module _ (k : String) where
    count : List (VenueSample fl) → ℕ
    count ss = length (samples_of fl k ss)

    count-[] : count [] ≡ 0
    unfolding count samples_of
    count-[] = refl

    count-append : (xs ys : List (VenueSample fl)) → count (xs ++ ys) ≡ count xs + count ys
    unfolding count
    count-append xs ys =
        rw (samples_of-append k xs ys) (length-append (samples_of fl k xs) (samples_of fl k ys))

    count-one : (s : VenueSample fl) → count (s ∷ []) ≡ (if str_eq s.logical_symbol k then 1 else 0)
    unfolding count samples_of
    count-one s = elim (Bool-cases (str_eq s.logical_symbol k)) [
      | inl e ↦ rw e refl
      | inr e ↦ rw e refl
    ]

  module _ (market : Market fl) (notional : F) (k : String) where
    sample_in-occurrences :
        (n : ℕ) (item : String × String) (ss : List (VenueSample fl))
        → sample_in fl market notional n item ≡ ok ss
        → count k ss ≤ (if str_eq item.0 k then 1 else 0)
    unfolding sample_in
    sample_in-occurrences n (logical, venue) ss h = go (market.fetch_pair n logical venue) h
      where
        go :
            (o : Option (BookSnapshot fl × BookSnapshot fl))
            → elim o as (λ _. Result VenueError (List (VenueSample fl))) [
              | none ↦ ok []
              | some (evedex, binance) ↦
                  sample_of fl logical
                    (market.captured_at n)
                    (market.captured_ms n)
                    evedex
                    binance
                    notional
                  >>= λ sample. ok (sample ∷ [])
            ]
              ≡ ok ss
            → count k ss ≤ (if str_eq logical k then 1 else 0)
        go none e = let eq = ok_injective e in rw (← eq) (omega (arith, count-[] k))
        go (some (evedex, binance)) e =
            let (s, hs, e1) =
              bind_ok
                (sample_of fl logical (market.captured_at n) (market.captured_ms n) evedex binance
                  notional)
                _ ss e in
            let eq = ok_injective e1 in
            let named =
              sample_of-named logical (market.captured_at n) (market.captured_ms n) evedex binance
                notional s hs in
            let one = ap {B = ℕ} (λ z. if str_eq z k then 1 else 0) named in
            rw (← eq) (omega (arith, count-one k s, one))

    round-occurrences :
        (n : ℕ) (items : List (String × String)) (ss : List (VenueSample fl))
        → round fl market notional n items ≡ ok ss
        → count k ss ≤ occurrences k items
    unfolding round
    round-occurrences n [] ss h = let eq = ok_injective h in rw (← eq) (omega (arith, count-[] k))
    round-occurrences n (item ∷ items) ss h =
        let (first, hf, h1) = bind_ok (sample_in fl market notional n item) _ ss h in
        let (rest, hr, h2) = bind_ok (round fl market notional n items) _ ss h1 in
        let eq = ok_injective h2 in
        let head = sample_in-occurrences n item first hf in
        let tail = round-occurrences n items rest hr in
        rw (← eq) (occurs (str_eq item.0 k) first rest head tail)
      where
        occurs :
            (b : Bool) (first rest : List (VenueSample fl))
            → count k first ≤ (if b then 1 else 0)
            → count k rest ≤ occurrences k items
            → count k (first ++ rest)
              ≤ (if b then suc (occurrences k items) else occurrences k items)
        occurs true first rest p q = omega (arith, p, q, count-append k first rest)
        occurs false first rest p q = omega (arith, p, q, count-append k first rest)

    rounds-occurrences :
        (left n : ℕ) (items : List (String × String)) (ss : List (VenueSample fl))
        → rounds fl market notional left n items ≡ ok ss
        → count k ss ≤ left * occurrences k items
    unfolding rounds
    rounds-occurrences zero n items ss h =
        let eq = ok_injective h in rw (← eq) (omega (arith, count-[] k))
    rounds-occurrences (suc left) n items ss h =
        let (first, hf, h1) = bind_ok (round fl market notional n items) _ ss h in
        let (rest, hr, h2) = bind_ok (rounds fl market notional left (suc n) items) _ ss h1 in
        let eq = ok_injective h2 in
        let head = round-occurrences n items first hf in
        let tail = rounds-occurrences left (suc n) items rest hr in
        rw (← eq) (step left (occurrences k items) (count-append k first rest) head tail)
      where
        step : {a b c : ℕ} (m o : ℕ) → c ≡ a + b → a ≤ o → b ≤ m * o → c ≤ suc m * o
        step m o e p q = omega (arith, e, p, q)

  -- A comparison never counts a symbol more often than it was asked: over a map in which every symbol
  -- is a key once, as the keys of a dict are, a symbol has at most one sample for each requested round.
  pub compare_venues-bounded :
      (market : Market fl) (items : List (String × String)) (requested : ℕ) (interval notional : F)
      (limits : Thresholds fl) (report : VenueComparisonReport fl) (k : String)
      → occurrences k items ≤ 1
      → compare_venues fl market items requested interval notional limits ≡ ok report
      → length (samples_of fl k report.samples) ≤ requested
  unfolding count
  compare_venues-bounded market items requested interval notional limits report k once h =
      within (occurrences k items)
        (rounds-occurrences market notional k requested 0 items report.samples
          (compared fl market items requested interval notional limits report h).0)
        once
    where
      within : {a : ℕ} (o : ℕ) → a ≤ requested * o → o ≤ 1 → a ≤ requested
      within zero p q = omega (arith, p)
      within (suc zero) p q = omega (arith, p)
      within (suc (suc o)) p q = omega (arith, q)
