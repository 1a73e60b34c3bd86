-- ===== src/Recovery/Budget.antt =====
-- The bar budget of `_recover_with_lease` (kairos_quant/long_gap_recovery.py), and the histories that
-- `load_anchor` accepts.
use kairos_quant_scouts.Prelude.{
  ℕ, ◌+◌, ◌-◌, ◌*◌, ◌≤◌, ◌≡◌, refl, min, Bool, true, false, Option, none, some, List, [], ◌∷◌,
  String, ◌==◌, length, last_time-eq, arith, Bool-cases, inl, inr, ◌⊎◌,
}
use kairos_quant_scouts.Prelude.Result.{Result, ok, err}
use kairos_quant_scouts.Prelude.Action.{◌>>◌, resume}
use kairos_quant_scouts.Prelude.Triple.{After, After-resume, After-weaken}
use kairos_quant_scouts.Floats.{Floats}
use kairos_quant_scouts.Collector.Kline.{one_minute_ms}
use kairos_quant_scouts.Recovery.Contract.{Contract, IsContract, Outside, IsDurable}
use kairos_quant_scouts.Recovery.Status.{Phase, RecoveryError, Run, at_phase, confirmed}
use kairos_quant_scouts.Recovery.Symbol.{answer, recover_symbol}
use kairos_quant_scouts.Recovery.Publishing.{IsPartial, IsKept}
use kairos_quant_scouts.Recovery.Complete.{IsComplete, recover_symbol-IsComplete}
use kairos_quant_scouts.Recovery.Lease.{last_of, anchored, fetch_rows, load_anchor, recover_all}

module _ {fl : Floats} {ct : Contract fl} {out : Outside ct} where
  -- The counted bars are within `limit`.
  abbrev pub IsWithin : ℕ → Run out → Type 0
  IsWithin limit t = t.status.total_appended_bars ≤ limit

module _ {fl : Floats} {ct : Contract fl} {out : Outside ct} (law : IsContract ct)
    (durable : IsDurable out) where
  -- What the repair of one symbol may add, once its end is bounded.
  complete-IsWithin :
      (limit : ℕ) (anchor : ct.E) (end_exclusive : ℕ) (s t : Run out) (n : ℕ)
      → IsWithin limit s
      → IsComplete s.published anchor
          (min end_exclusive
            (ct.close_time_ms anchor + 1 + (limit - s.status.total_appended_bars) * one_minute_ms))
          s.status.total_appended_bars
          n
          t
      → IsWithin limit t
  complete-IsWithin limit anchor end_exclusive s t n w (last, v, full) =
      omega (arith, w, v.counted, full)

  partial-IsWithin :
      (limit : ℕ) (anchor : ct.E) (end_exclusive : ℕ) (s t : Run out)
      → IsWithin limit s
      → IsPartial s.published anchor
          (min end_exclusive
            (ct.close_time_ms anchor + 1 + (limit - s.status.total_appended_bars) * one_minute_ms))
          s.status.total_appended_bars
          t
      → IsWithin limit t
  partial-IsWithin limit anchor end_exclusive s t w v = elim v.counted [
    | inl exact ↦ omega (arith, exact, bars, w)
    | inr one_less ↦ omega (arith, one_less.0, bars, w)
  ]
    where
      bars : length v.new ≤ limit - s.status.total_appended_bars
      bars = omega (
        arith,
        v.within,
        law.minute anchor,
        last_time-eq ct.open_time_ms one_minute_ms (ct.open_time_ms anchor) v.new v.follows,
      )

  -- Given a contract that keeps the values it is given and makes whole minutes, and a writer that
  -- returns only after it has stored the bar: if the bars counted so far are within the append
  -- limit, they still are after the repair of any anchors, whether it returns or raises, whatever
  -- the REST endpoint, the writer and the clock answer.
  pub recover_all-IsWithin :
      (anchors : List ct.E) (append_limit end_exclusive : ℕ) (s : Run out)
      → s.status.total_appended_bars ≤ append_limit
      → After
          (λ done t. IsWithin append_limit t)
          (λ x t. IsWithin append_limit t)
          (recover_all out append_limit end_exclusive anchors s)
  unfolding recover_all
  recover_all-IsWithin [] limit end_exclusive s w = w
  recover_all-IsWithin (anchor ∷ anchors) limit end_exclusive s w =
      go (limit - s.status.total_appended_bars == 0)
        (recover_all-IsWithin anchors limit end_exclusive)
    where
      R : RecoveryError → Run out → Type 0
      R x t = IsWithin limit t

      bound : ℕ
      bound =
          min end_exclusive
            (ct.close_time_ms anchor + 1 + (limit - s.status.total_appended_bars) * one_minute_ms)

      repaired : After (λ n t. IsWithin limit t) R (recover_symbol out anchor bound 200 s)
      repaired =
          After-weaken (λ n t. IsComplete s.published anchor bound s.status.total_appended_bars n t)
            (λ n t. IsWithin limit t)
            (λ x t. IsKept s t ⊎ IsPartial s.published anchor bound s.status.total_appended_bars t)
            R _ (recover_symbol-IsComplete law durable anchor bound 200 s)
            (λ n t p. complete-IsWithin limit anchor end_exclusive s t n w p)
            (λ x t p. elim p [
              | inl kept ↦ omega (arith, kept.1, w)
              | inr part ↦ partial-IsWithin limit anchor end_exclusive s t w part
            ])

      go :
          (b : Bool)
          → ((t : Run out)
              → IsWithin limit t
              → After
                  (λ (done : Unit {0}) t. IsWithin limit t)
                  R
                  (recover_all out limit end_exclusive anchors t))
          → After
              (λ (done : Unit {0}) t. IsWithin limit t)
              R
              (elim b as (λ _. Result RecoveryError (Unit {0}) × Run out) [
                | true ↦ (ok tt, s)
                | false ↦
                    (recover_symbol out anchor bound 200
                        >> recover_all out limit end_exclusive anchors)
                      s
              ])
      go true ih = w
      go false ih =
          After-resume (λ n t. IsWithin limit t) (λ done t. IsWithin limit t) R _ _ repaired
            (λ n t p. ih t p)

module _ {fl : Floats} (ct : Contract fl) where
  -- The bars follow one another, each opening after the one before it closes.
  abbrev pub IsChain : ct.E → List ct.E → Type 0
  IsChain p [] = Unit
  IsChain p (e ∷ es) = (ct.open_time_ms e ≡ ct.close_time_ms p + 1) × IsChain e es

  abbrev pub last_event : ct.E → List ct.E → ct.E
  last_event p [] = p
  last_event p (e ∷ es) = last_event e es

  abbrev pub somes : List ct.E → List (Option ct.E)
  somes [] = []
  somes (e ∷ es) = some e ∷ somes es

  last_of-IsChain :
      (p : ct.E) (rows : List (Option ct.E)) (a : ct.E)
      → last_of ct (some p) rows ≡ ok (some a)
      → (es : List ct.E) × (rows ≡ somes es) × IsChain p es × (a ≡ last_event p es)
  unfolding last_of
  last_of-IsChain p [] a h = ([], refl, tt, cc)
  last_of-IsChain p (none ∷ rows) a h = cc
  last_of-IsChain p (some e ∷ rows) a h =
      elim (Bool-cases (ct.open_time_ms e == ct.close_time_ms p + 1)) [
        | inl next ↦
            let k : last_of ct (some e) rows ≡ ok (some a) = rw next at h in
            let (es, same, chain, last) = last_of-IsChain e rows a k in
            (e ∷ es, rw same refl, (ground (arith, next), chain), last)
        | inr gap ↦ cc (rw gap at h)
      ]

  -- What `load_anchor` accepted: the rows that were read are all valid, each opens one millisecond
  -- after the one before it closes, there is one at least, and `a` is the last of them.
  abbrev pub IsHistory : List (Option ct.E) → ct.E → Type 0
  IsHistory rows a =
      (first : ct.E) × (es : List ct.E) × (rows ≡ some first ∷ somes es)
      × IsChain first es
      × (a ≡ last_event first es)

  last_of-IsHistory :
      (rows : List (Option ct.E)) (a : ct.E) → last_of ct none rows ≡ ok (some a) → IsHistory rows a
  unfolding last_of
  last_of-IsHistory [] a h = cc
  last_of-IsHistory (none ∷ rows) a h = cc
  last_of-IsHistory (some e ∷ rows) a h =
      let (es, same, chain, last) = last_of-IsChain e rows a h in (e, es, rw same refl, chain, last)

module _ {fl : Floats} {ct : Contract fl} (out : Outside ct) where
  -- An anchor that is returned is the last bar of a gapless history: the rows that the repository gave
  -- back for the symbol are all valid bars, there is one at least, each after the first opens one
  -- millisecond after the one before it closes, and the anchor is the last of them. Nothing is
  -- published, whether it returns or raises.
  pub load_anchor-IsHistory :
      (symbol : String) (s : Run out)
      → After
          (λ a t.
            ((rows : List (Option ct.E)) × (out.rows symbol s.world ≡ (some rows, t.world))
              × IsHistory ct rows a)
            × IsKept s t)
          (λ e t. IsKept s t)
          (load_anchor out symbol s)
  unfolding load_anchor fetch_rows at_phase confirmed
  load_anchor-IsHistory symbol s = go (out.rows symbol s.world) refl
    where
      Q : ct.E → Run out → Type 0
      Q a t =
          ((rows : List (Option ct.E)) × (out.rows symbol s.world ≡ (some rows, t.world))
            × IsHistory ct rows a)
          × IsKept s t

      validated :
          (rows : List (Option ct.E)) (t : Run out)
          → out.rows symbol s.world ≡ (some rows, t.world)
          → IsKept s t
          → (r : Result RecoveryError (Option ct.E)) → last_of ct none rows ≡ r
          → After Q (λ e t. IsKept s t) (anchored out r t)
      validated rows t e k (err x) p = k
      validated rows t e k (ok none) p = k
      validated rows t e k (ok (some a)) p = ((rows, e, last_of-IsHistory ct rows a p), k)

      go :
          (r : Option (List (Option ct.E)) × out.W)
          → out.rows symbol s.world ≡ r
          → After Q
              (λ e t. IsKept s t)
              (resume
                (answer out r (at_phase out Phase.restore_read (some symbol) none none s))
                (λ rows t.
                  anchored out
                    (last_of ct none rows)
                    (at_phase out Phase.restore_validate (some symbol) none none t)))
      go (none, w) e = (refl, refl)
      go (some rows, w) e =
          validated rows
            (at_phase out Phase.restore_validate (some symbol) none none
              (record (at_phase out Phase.restore_read (some symbol) none none s) { world = w }))
            e (refl, refl) (last_of ct none rows) refl
