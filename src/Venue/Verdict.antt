-- ===== src/Venue/Verdict.antt =====
-- kairos_quant/venue_comparison.py: what the report of a comparison says of each symbol.
use kairos_quant_scouts.Prelude.{
  ℕ, ◌≡◌, ◌≢◌, refl, sym, Bool, true, false, not, ◌||◌, List, [], ◌∷◌, map, String, length, ◌==◌,
  if◌then◌else◌, arith, ap,
}
use kairos_quant_scouts.Prelude.Result.{ok, ok_injective, bind_ok, then_ok, passed}
use kairos_quant_scouts.Floats.{Floats}
use kairos_quant_scouts.Venue.Book.{bad_request, positive}
use kairos_quant_scouts.Venue.Quality.{raised, no_reason}
use kairos_quant_scouts.Venue.Admission.{raised-AllFalse}
use kairos_quant_scouts.Venue.Qualified.{IsQualified, shortfall_tests-IsQualified}
use kairos_quant_scouts.Venue.Compare.{
  ComparisonStatus, pass, blocked, fail, Shortfall, status_of, VenueSample, SymbolComparison,
  Thresholds, VenueComparisonReport, present, shortfall_tests, percentile, summary,
}
use kairos_quant_scouts.Venue.Rounds.{
  Market, is_fail, is_blocked, any, status, rounds, samples_of, summaries, check_limits,
  compare_venues,
}

status_of-fail : (rs : List Shortfall) → is_fail (status_of rs) ≡ false
unfolding status_of is_fail
status_of-fail [] = refl
status_of-fail (r ∷ rs) = refl

status_of-blocked : (rs : List Shortfall) → is_blocked (status_of rs) ≡ false → no_reason rs ≡ true
unfolding status_of is_blocked no_reason
status_of-blocked [] h = refl
status_of-blocked (r ∷ rs) h = cc

neither : (a b : Bool) → a || b ≡ false → (a ≡ false) × (b ≡ false)
neither a b h = ground (arith, h)

worst : Bool → Bool → ComparisonStatus
worst failed held = if failed then fail else if held then blocked else pass

worst-pass :
    (failed held : Bool)
    → failed ≡ false
    → (worst failed held ≢ fail) × (worst failed held ≡ pass → held ≡ false)
unfolding worst
worst-pass true held h = cc
worst-pass false true h = (λ e. cc e, λ e. cc e)
worst-pass false false h = (λ e. cc e, λ e. refl)

module _ (fl : Floats) where
  open fl use {F, finite, less, div, of_nat, floor, absolute}

  -- The comparison of one symbol, made of these samples.
  pub record IsVerdict (symbol : String) (samples : List (VenueSample fl)) (requested : ℕ)
      (limits : Thresholds fl) (s : SymbolComparison fl) : Type 0 where
    pub named : s.logical_symbol ≡ symbol
    pub counted : s.samples ≡ length samples
    pub not_failed : is_fail s.status ≡ false
    pub qualified : is_blocked s.status ≡ false → IsQualified fl samples requested limits

  summary-IsVerdict :
      (symbol : String) (samples : List (VenueSample fl)) (requested : ℕ) (limits : Thresholds fl)
      (s : SymbolComparison fl)
      → summary fl symbol samples requested limits ≡ ok s
      → IsVerdict symbol samples requested limits s
  unfolding summary
  summary-IsVerdict symbol samples requested limits s h =
      let basis = map (λ x. absolute x.basis_bps) samples in
      let p95 = div (of_nat 95) (of_nat 100) in
      let (b, hb, h1) = bind_ok (percentile fl basis p95) _ s h in
      let (e, he, h2) =
        bind_ok (percentile fl (map (λ x. x.evedex_spread_bps) samples) p95) _ s h1 in
      let (y, hy, h3) =
        bind_ok (percentile fl (present (map (λ x. x.evedex_buy_slippage_bps) samples)) p95) _ s
          h2 in
      let (z, hz, h4) =
        bind_ok (percentile fl (present (map (λ x. x.evedex_sell_slippage_bps) samples)) p95) _ s
          h3 in
      let (m, _, h5) = bind_ok (percentile fl basis (div (of_nat 1) (of_nat 2))) _ s h4 in
      let eq = ok_injective h5 in
      let tests = shortfall_tests fl samples requested limits b e y z in
      let at : status_of (raised tests) ≡ s.status = ap (λ c. c.status) eq in
      record {
        named = ap (λ c. c.logical_symbol) (sym eq);
        counted = ap (λ c. c.samples) (sym eq);
        not_failed = rw (← at) (status_of-fail (raised tests));
        qualified = λ q.
            shortfall_tests-IsQualified fl samples requested limits b e y z hb he hy hz
              ((raised-AllFalse tests).0 (status_of-blocked (raised tests) (rw at q)));
      }

  module _ (captured : List (VenueSample fl)) (requested : ℕ) (limits : Thresholds fl) where
    -- One verdict for each symbol of the map, in its order, from that symbol's samples.
    abbrev pub AllJudged : List (String × String) → List (SymbolComparison fl) → Type 0
    AllJudged [] [] = Unit
    AllJudged (item ∷ items) (s ∷ ss) =
        IsVerdict item.0 (samples_of fl item.0 captured) requested limits s × AllJudged items ss
    AllJudged _ _ = ⊥

    abbrev pub AllQualified : List (String × String) → Type 0
    AllQualified [] = Unit
    AllQualified (item ∷ items) =
        IsQualified fl (samples_of fl item.0 captured) requested limits × AllQualified items

    summaries-AllJudged :
        (items : List (String × String)) (ss : List (SymbolComparison fl))
        → summaries fl captured requested limits items ≡ ok ss
        → AllJudged items ss
    unfolding summaries
    summaries-AllJudged [] ss h = let eq : [] ≡ ss = cc h in rw (← eq) tt
    summaries-AllJudged (item ∷ items) ss h =
        let (s, hs, h1) =
          bind_ok (summary fl item.0 (samples_of fl item.0 captured) requested limits) _ ss h in
        let (rest, hr, h2) = bind_ok (summaries fl captured requested limits items) _ ss h1 in
        let eq : s ∷ rest ≡ ss = cc h2 in
        rw (← eq) (
          summary-IsVerdict item.0 (samples_of fl item.0 captured) requested limits s hs,
          summaries-AllJudged items rest hr,
        )

    no_fail :
        (items : List (String × String)) (ss : List (SymbolComparison fl))
        → AllJudged items ss
        → any (λ s. is_fail s.status) ss ≡ false
    unfolding any
    no_fail [] [] h = refl
    no_fail [] (s ∷ ss) h = absurd h
    no_fail (i ∷ is) [] h = absurd h
    no_fail (i ∷ is) (s ∷ ss) (v, rest) = rw v.not_failed (no_fail is ss rest)

    all_qualified :
        (items : List (String × String)) (ss : List (SymbolComparison fl))
        → AllJudged items ss
        → any (λ s. is_blocked s.status) ss ≡ false
        → AllQualified items
    unfolding any
    all_qualified [] [] h e = tt
    all_qualified [] (s ∷ ss) h e = absurd h
    all_qualified (i ∷ is) [] h e = absurd h
    all_qualified (i ∷ is) (s ∷ ss) (v, rest) e =
        let (first, others) = neither (is_blocked s.status) (any (λ x. is_blocked x.status) ss) e in
        (v.qualified first, all_qualified is ss rest others)

  module _ (market : Market fl) (items : List (String × String)) (requested : ℕ)
      (interval notional : F) (limits : Thresholds fl) (report : VenueComparisonReport fl)
      (done : compare_venues fl market items requested interval notional limits ≡ ok report) where
    -- What a comparison that returned has run.
    pub compared :
        (rounds fl market notional requested 0 items ≡ ok report.samples)
        × (summaries fl report.samples requested limits items ≡ ok report.symbols)
    unfolding compare_venues
    compared =
        let (_, h1) = passed (requested == 0) bad_request _ report done in
        let (_, h2) =
          passed (less interval (of_nat 0) || not (finite interval)) bad_request _ report h1 in
        let (_, h3) = then_ok (positive fl notional) _ report h2 in
        let (_, h4) = then_ok (check_limits fl limits) _ report h3 in
        let (captured, hc, h5) =
          bind_ok (rounds fl market notional requested 0 items) _ report h4 in
        let (symbols, hs, h6) =
          bind_ok (summaries fl captured requested limits items) _ report h5 in
        let eq = ok_injective h6 in
        let samples : captured ≡ report.samples = ap (λ r. r.samples) eq in
        let verdicts : symbols ≡ report.symbols = ap (λ r. r.symbols) eq in
        (cc (hc, samples), cc (hs, samples, verdicts))

    -- The report of a comparison holds one verdict for each symbol of the map, in its order, made of
    -- that symbol's samples. Its status is never FAIL, and it is PASS only if every symbol is qualified:
    -- it has enough samples, enough of the requested rounds, and a fill of the notional on both sides in
    -- every sample; the 95th percentiles of its absolute basis, of its EVEDEX spread and of the two
    -- slippages, a missing one or a zero counting as infinite, are within their limits; and all its
    -- timestamp skews and book ages are at most a number within the limit.
    pub compare_venues-AllJudged :
        AllJudged report.samples requested limits items report.symbols
        × (status fl report ≢ fail)
        × (status fl report ≡ pass → AllQualified report.samples requested limits items)
    unfolding status worst
    compare_venues-AllJudged =
        let judged =
          summaries-AllJudged report.samples requested limits items report.symbols compared.1 in
        let (never, passing) =
          worst-pass (any (λ s. is_fail s.status) report.symbols)
            (any (λ s. is_blocked s.status) report.symbols)
            (no_fail report.samples requested limits items report.symbols judged) in
        (
          judged,
          never,
          λ p.
              all_qualified report.samples requested limits items report.symbols judged (passing p),
        )
