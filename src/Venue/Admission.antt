-- ===== src/Venue/Admission.antt =====
-- kairos_quant/runtime_venue_gate.py: when a measurement allows an entry.
use kairos_quant_scouts.Prelude.{
  ◌≡◌, refl, sym, Bool, true, false, not, ◌||◌, List, [], ◌∷◌, Option, none, some, String,
  if◌then◌else◌, ◌↔◌, arith, ap,
}
use kairos_quant_scouts.Prelude.Int.{ℤ, pos, ltb_ℤ, ◌-ℤ◌, ◌≤ℤ◌, max_ℤ, abs_ℤ, ltb_ℤ-≤ℤ, max_ℤ-≤ℤ}
use kairos_quant_scouts.Prelude.Result.{
  Result, ok, err, ◌>>=◌, guard_ok, unless_ok, bind_ok, then_ok, passed,
}
use kairos_quant_scouts.Floats.{Floats}
use kairos_quant_scouts.Venue.Book.{
  VenueError, late_timestamp, zero_division, rejected_contract, BookSnapshot, best, mid, divided,
  spread_bps, market_slippage_bps,
}
use kairos_quant_scouts.Venue.Quality.{
  Profile, Reason, raised, no_reason, VenueGatePolicy, VenueQuality, Measured, validate_book_pair,
  side_depth_usd, measure, is_none, exceeds, observed_at, checks, build_venue_quality,
}

abbrev pub AllFalse : {R : Type 0} → List (Bool × R) → Type 0
AllFalse [] = Unit
AllFalse (c ∷ cs) = (c.0 ≡ false) × AllFalse cs

pub raised-AllFalse :
    {R : Type 0} (cs : List (Bool × R)) → (no_reason (raised cs) ≡ true) ↔ AllFalse cs
unfolding raised no_reason
raised-AllFalse [] = (λ h. tt, λ h. refl)
raised-AllFalse ((true, r) ∷ cs) = (λ h. cc, λ h. cc (h.0))
raised-AllFalse ((false, r) ∷ cs) =
    let (there, back) = raised-AllFalse cs in (λ h. (refl, there h), λ h. back h.1)

no_reason_iff : {R : Type 0} (rs : List R) → (no_reason rs ≡ true) ↔ (rs ≡ [])
unfolding no_reason
no_reason_iff [] = (λ h. refl, λ h. refl)
no_reason_iff (r ∷ rs) = (λ h. cc, λ h. cc)

neither : (a b c : Bool) → (a || b || c ≡ false) ↔ ((a ≡ false) × (b ≡ false) × (c ≡ false))
neither a b c = ground arith

module _ (fl : Floats) where
  open fl use {F, less, same, sub, mul, div, of_nat, absolute}

  abbrev pub relative_bps : F → F → F
  relative_bps difference base = mul (div difference base) (of_nat 10_000)

  -- A fill of the whole assessed notional exists, within the limit.
  abbrev pub IsFilled : BookSnapshot fl → VenueGatePolicy fl → Bool → Type 0
  IsFilled evedex policy buy =
      (bps : F) × (market_slippage_bps fl evedex buy policy.assessed_notional_usd ≡ ok (some bps))
      × (less policy.maximum_slippage_bps bps ≡ false)

  abbrev pub lesser_depth : BookSnapshot fl → F
  lesser_depth evedex =
      if less (side_depth_usd fl evedex true) (side_depth_usd fl evedex false)
      then side_depth_usd fl evedex true
      else side_depth_usd fl evedex false

  -- What an entry asks of the two books, the clock and the latency.
  pub record IsAdmissible (binance evedex : BookSnapshot fl) (now latency : ℤ)
      (policy : VenueGatePolicy fl) : Type 0 where
    pub clock :
        max_ℤ binance.timestamp_ms evedex.timestamp_ms -ℤ now ≤ℤ policy.maximum_timestamp_skew_ms
    pub basis :
        less policy.maximum_abs_basis_bps
          (absolute (relative_bps (sub (mid fl evedex) (mid fl binance)) (mid fl binance)))
        ≡ false
    pub spread :
        less policy.maximum_spread_bps
          (relative_bps (sub (best fl evedex.asks) (best fl evedex.bids)) (mid fl evedex))
        ≡ false
    pub depth : less (lesser_depth evedex) policy.assessed_notional_usd ≡ false
    pub buys : IsFilled evedex policy true
    pub sells : IsFilled evedex policy false
    pub reference_fresh :
        observed_at fl binance evedex now -ℤ binance.timestamp_ms ≤ℤ policy.maximum_book_age_ms
    pub book_fresh :
        observed_at fl binance evedex now -ℤ evedex.timestamp_ms ≤ℤ policy.maximum_book_age_ms
    pub skew :
        abs_ℤ (binance.timestamp_ms -ℤ evedex.timestamp_ms) ≤ℤ policy.maximum_timestamp_skew_ms
    pub prompt : latency ≤ℤ policy.maximum_latency_ms

  divided_ok : (a b q : F) → divided fl a b ≡ ok q → q ≡ div a b
  unfolding divided
  divided_ok a b q h = sym (unless_ok (same b (of_nat 0)) zero_division (div a b) q h).1

  module _ (binance evedex : BookSnapshot fl) (now latency : ℤ) (policy : VenueGatePolicy fl) where
    record IsMeasured (m : Measured fl) : Type 0 where
      basis : m.basis_bps ≡ relative_bps (sub (mid fl evedex) (mid fl binance)) (mid fl binance)
      spread :
          m.spread_bps
          ≡ relative_bps (sub (best fl evedex.asks) (best fl evedex.bids)) (mid fl evedex)
      depth : m.depth_usd ≡ lesser_depth evedex
      buys : market_slippage_bps fl evedex true policy.assessed_notional_usd ≡ ok m.buy_slippage
      sells : market_slippage_bps fl evedex false policy.assessed_notional_usd ≡ ok m.sell_slippage

    spread_ok :
        (s : F)
        → spread_bps fl evedex ≡ ok s
        → s ≡ relative_bps (sub (best fl evedex.asks) (best fl evedex.bids)) (mid fl evedex)
    unfolding spread_bps
    spread_ok s h =
        let (r, e, k) =
          bind_ok (divided fl (sub (best fl evedex.asks) (best fl evedex.bids)) (mid fl evedex))
            (λ ratio. ok (mul ratio (of_nat 10_000))) s h in
        cc (divided_ok (sub (best fl evedex.asks) (best fl evedex.bids)) (mid fl evedex) r e, k)

    measure-IsMeasured : (m : Measured fl) → measure fl binance evedex policy ≡ ok m → IsMeasured m
    unfolding measure
    measure-IsMeasured m h =
        go (divided fl (sub (mid fl evedex) (mid fl binance)) (mid fl binance))
          (market_slippage_bps fl evedex true policy.assessed_notional_usd)
          (market_slippage_bps fl evedex false policy.assessed_notional_usd) (spread_bps fl evedex)
          refl refl refl refl h
      where
        whole : F → Option F → Option F → F → Measured fl
        whole ratio buy sell spread = record {
          basis_bps = mul ratio (of_nat 10_000);
          spread_bps = spread;
          depth_usd = lesser_depth evedex;
          buy_slippage = buy;
          sell_slippage = sell;
        }

        go :
            (r : Result VenueError F) (buy sell : Result VenueError (Option F))
            (s : Result VenueError F)
            → divided fl (sub (mid fl evedex) (mid fl binance)) (mid fl binance) ≡ r
            → market_slippage_bps fl evedex true policy.assessed_notional_usd ≡ buy
            → market_slippage_bps fl evedex false policy.assessed_notional_usd ≡ sell
            → spread_bps fl evedex ≡ s
            → (r >>= λ ratio. buy >>= λ b. sell >>= λ a. s >>= λ x. ok (whole ratio b a x)) ≡ ok m
            → IsMeasured m
        go (ok ratio) (ok buy) (ok sell) (ok s) er eb es ex k =
            let eq : whole ratio buy sell s ≡ m = cc k in
            rw (← eq) (record {
              basis = ap (λ x. mul x (of_nat 10_000)) (divided_ok _ _ ratio er);
              spread = spread_ok s ex;
              depth = refl;
              buys = eb;
              sells = es;
            })
        go (err e) buy sell s er eb es ex k = cc
        go (ok ratio) (err e) sell s er eb es ex k = cc
        go (ok ratio) (ok buy) (err e) s er eb es ex k = cc
        go (ok ratio) (ok buy) (ok sell) (err e) er eb es ex k = cc

    market_slippage-IsFilled :
        (buy : Bool) (o : Option F)
        → market_slippage_bps fl evedex buy policy.assessed_notional_usd ≡ ok o
        → ((is_none fl o ≡ false) × (exceeds fl policy.maximum_slippage_bps o ≡ false))
          ↔ IsFilled evedex policy buy
    market_slippage-IsFilled buy none e = (λ h. cc (h.0), λ (x, f, k). cc (e, f))
    market_slippage-IsFilled buy (some x) e =
        (λ h. (x, e, h.1), λ (y, f, k). (refl, let eq : x ≡ y = cc (e, f) in rw eq k))

    newest : ℤ
    newest = max_ℤ binance.timestamp_ms evedex.timestamp_ms

    age : BookSnapshot fl → ℤ
    age book = observed_at fl binance evedex now -ℤ book.timestamp_ms

    skew : ℤ
    skew = abs_ℤ (binance.timestamp_ms -ℤ evedex.timestamp_ms)

    checks-IsAdmissible :
        (m : Measured fl)
        → IsMeasured m
        → AllFalse (checks fl binance evedex now latency policy m)
        → IsAdmissible binance evedex now latency policy
    unfolding checks newest age skew
    checks-IsAdmissible m h
          (clock, (basis, (spread, (depth, (buy, (sell, (stale, (apart, (late, _))))))))) =
        let (deep, bought, sold) = (neither _ _ _).0 depth in
        let (old_reference, old_book) =
          (max_ℤ-≤ℤ (age binance) (age evedex) policy.maximum_book_age_ms).0
            ((ltb_ℤ-≤ℤ policy.maximum_book_age_ms (max_ℤ (age binance) (age evedex))).0 stale) in
        record {
          clock = (ltb_ℤ-≤ℤ policy.maximum_timestamp_skew_ms (newest -ℤ now)).0 clock;
          basis = rw (← h.basis) basis;
          spread = rw (← h.spread) spread;
          depth = rw (← h.depth) deep;
          buys = (market_slippage-IsFilled true m.buy_slippage h.buys).0 (bought, buy);
          sells = (market_slippage-IsFilled false m.sell_slippage h.sells).0 (sold, sell);
          reference_fresh = old_reference;
          book_fresh = old_book;
          skew = (ltb_ℤ-≤ℤ policy.maximum_timestamp_skew_ms skew).0 apart;
          prompt = (ltb_ℤ-≤ℤ policy.maximum_latency_ms latency).0 late;
        }

    IsAdmissible-checks :
        (m : Measured fl)
        → IsMeasured m
        → IsAdmissible binance evedex now latency policy
        → AllFalse (checks fl binance evedex now latency policy m)
    unfolding checks newest age skew
    IsAdmissible-checks m h a =
        let (bought, buy) = (market_slippage-IsFilled true m.buy_slippage h.buys).1 a.buys in
        let (sold, sell) = (market_slippage-IsFilled false m.sell_slippage h.sells).1 a.sells in
        let old =
          (max_ℤ-≤ℤ (age binance) (age evedex) policy.maximum_book_age_ms).1
            (a.reference_fresh, a.book_fresh) in
        (
          (ltb_ℤ-≤ℤ policy.maximum_timestamp_skew_ms (newest -ℤ now)).1 a.clock,
          (
            rw h.basis a.basis,
            (
              rw h.spread a.spread,
              (
                (neither _ _ _).1 (rw h.depth a.depth, bought, sold),
                (
                  buy,
                  (
                    sell,
                    (
                      (ltb_ℤ-≤ℤ policy.maximum_book_age_ms (max_ℤ (age binance) (age evedex))).1
                          old,
                      (
                        (ltb_ℤ-≤ℤ policy.maximum_timestamp_skew_ms skew).1 a.skew,
                        ((ltb_ℤ-≤ℤ policy.maximum_latency_ms latency).1 a.prompt, tt),
                      ),
                    ),
                  ),
                ),
              ),
            ),
          ),
        )

    admission :
        (m : Measured fl)
        → measure fl binance evedex policy ≡ ok m
        → (allowed : Bool) (reasons : List Reason)
        → no_reason (raised (checks fl binance evedex now latency policy m)) ≡ allowed
        → raised (checks fl binance evedex now latency policy m) ≡ reasons
        → ((allowed ≡ true) ↔ IsAdmissible binance evedex now latency policy)
          × ((allowed ≡ true) ↔ (reasons ≡ []))
    admission m h allowed reasons e k =
        let met = measure-IsMeasured m h in
        let (to, from) = raised-AllFalse (checks fl binance evedex now latency policy m) in
        let (none_to, none_from) = no_reason_iff reasons in
        (
          (
            λ t. checks-IsAdmissible m met (to (cc (e, t))),
            λ a. let t = from (IsAdmissible-checks m met a) in cc (e, t),
          ),
          (λ t. none_to (cc (e, k, t)), λ z. let t = none_from z in cc (e, k, t)),
        )

  module _ (normalized : String → String) (accepts : VenueQuality fl → Bool)
      (binance evedex : BookSnapshot fl) (symbol : String) (now latency : ℤ)
      (policy : VenueGatePolicy fl) (profile : Profile) (source : String) where
    -- A measurement that is built allows an entry exactly if the two books, the clock and the latency
    -- meet every condition: the clock is not behind either book by more than the skew, the basis, the
    -- spread and both slippages are within their limits, a fill of the assessed notional exists on
    -- both sides, both books are fresh and close in time, and the answer was prompt. It carries a
    -- reason exactly if it does not.
    pub build_venue_quality-entry_allowed :
        (q : VenueQuality fl)
        → build_venue_quality fl normalized accepts binance evedex symbol now latency policy profile
            source
          ≡ ok q
        → ((q.entry_allowed ≡ true) ↔ IsAdmissible binance evedex now latency policy)
          × ((q.entry_allowed ≡ true) ↔ (q.reason_codes ≡ []))
    unfolding build_venue_quality
    build_venue_quality-entry_allowed q h =
        let (_, h) =
          then_ok (validate_book_pair fl normalized binance evedex symbol profile) _ q h in
        let (_, h) = passed (not (ltb_ℤ (pos 0) now)) late_timestamp _ q h in
        let (m, measured, h) = bind_ok (measure fl binance evedex policy) _ q h in
        admission binance evedex now latency policy m measured q.entry_allowed q.reason_codes
          (ap (λ z. z.entry_allowed) (guard_ok (accepts _) rejected_contract _ q h).1)
          (ap (λ z. z.reason_codes) (guard_ok (accepts _) rejected_contract _ q h).1)
