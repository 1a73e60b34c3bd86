-- ===== src/Recovery/Reread.antt =====
-- `recover_symbol` (kairos_quant/long_gap_recovery.py): a window is fetched twice, with a pause between.
use kairos_quant_scouts.Prelude.{
  ℕ, ◌≡◌, refl, Bool, true, false, not, ◌||◌, Option, none, some, List, String, arith, Bool-cases,
  inl, inr,
}
use kairos_quant_scouts.Prelude.Result.{Result, ok, err}
use kairos_quant_scouts.Prelude.Action.{resume, raise_if, pure}
use kairos_quant_scouts.Prelude.Triple.{After, After-resume, After-both, After-weaken}
use kairos_quant_scouts.Floats.{Floats}
use kairos_quant_scouts.Recovery.Contract.{RawPage, Contract, IsContract, Outside}
use kairos_quant_scouts.Recovery.Status.{Phase, RecoveryError, confirmation_conflict, Run, at_phase}
use kairos_quant_scouts.Recovery.Page.{parse_page}
use kairos_quant_scouts.Recovery.Symbol.{
  same_events, answer, fetch, fetch_page, returned, pause, parsed, starts_at, confirm_page,
}
use kairos_quant_scouts.Recovery.Publishing.{IsKept}
use kairos_quant_scouts.Recovery.Repair.{IsConfirmed, confirm_page-IsConfirmed}

module _ {fl : Floats} {ct : Contract fl} (out : Outside ct) where
  -- A call of the endpoint took the world from `w` to `v`, and its page was accepted as `es`.
  abbrev pub IsFetched : String → ℕ → ℕ → List ct.E → out.W → out.W → Type 0
  IsFetched symbol start end es w v =
      (page : RawPage ct.V) × (out.fetch symbol start end w ≡ (some page, v))
      × (parse_page ct page symbol start end ≡ ok es)

  -- The endpoint was called, then the pause, then the endpoint again, and the first page is `es`.
  abbrev pub IsReread : ct.E → ℕ → ℕ → Run out → List ct.E → Run out → Type 0
  IsReread current start end s es t =
      (second : List ct.E) × (w : out.W) × (v : out.W) × IsFetched (ct.symbol current) start end es
        s.world w
      × (out.pause w ≡ (true, v))
      × IsFetched (ct.symbol current) start end second v t.world
      × (same_events ct es second ≡ true)

  abbrev Anything : RecoveryError → Run out → Type 0
  Anything e t = Unit

  fetch-page :
      (symbol : String) (start end : ℕ) (s : Run out)
      → After
          (λ page t. out.fetch symbol start end s.world ≡ (some page, t.world))
          Anything
          (fetch out symbol start end s)
  unfolding fetch
  fetch-page symbol start end s = go (out.fetch symbol start end s.world) refl
    where
      go :
          (r : Option (RawPage ct.V) × out.W)
          → out.fetch symbol start end s.world ≡ r
          → After
              (λ page t. out.fetch symbol start end s.world ≡ (some page, t.world))
              Anything
              (answer out r s)
      go (none, w) e = tt
      go (some page, w) e = e

  pause-done :
      (s : Run out) → After (λ done t. out.pause s.world ≡ (true, t.world)) Anything (pause out s)
  unfolding pause
  pause-done s = go (out.pause s.world) refl
    where
      go :
          (r : Bool × out.W)
          → out.pause s.world ≡ r
          → After (λ done t. out.pause s.world ≡ (true, t.world)) Anything (returned out r s)
      go (true, w) e = e
      go (false, w) e = tt

  fetch_page-IsFetched :
      (get validate : Phase) (current : ct.E) (start end : ℕ) (s : Run out)
      → After
          (λ es t. IsFetched (ct.symbol current) start end es s.world t.world)
          Anything
          (fetch_page out get validate current start end s)
  unfolding fetch_page at_phase
  fetch_page-IsFetched get validate current start end s =
      After-resume
        (λ page t. out.fetch (ct.symbol current) start end s.world ≡ (some page, t.world))
        (λ es t. IsFetched (ct.symbol current) start end es s.world t.world) Anything _ _
        (fetch-page (ct.symbol current) start end
          (at_phase out get (some (ct.symbol current)) (some start) (some end) s))
        (λ page t e. go page t e (parse_page ct page (ct.symbol current) start end) refl)
    where
      go :
          (page : RawPage ct.V) (t : Run out)
          → out.fetch (ct.symbol current) start end s.world ≡ (some page, t.world)
          → (r : Result RecoveryError (List ct.E))
          → parse_page ct page (ct.symbol current) start end ≡ r
          → After
              (λ es v. IsFetched (ct.symbol current) start end es s.world v.world)
              Anything
              (parsed out r
                (at_phase out validate (some (ct.symbol current)) (some start) (some end) t))
      go page t e (ok es) p = (page, e, p)
      go page t e (err x) p = tt

  IsReread-confirm_page :
      (current : ct.E) (start end : ℕ) (s : Run out)
      → After (IsReread current start end s) Anything (confirm_page out current start end s)
  unfolding confirm_page at_phase
  IsReread-confirm_page current start end s =
      After-resume (λ es t. IsFetched (ct.symbol current) start end es s.world t.world)
        (IsReread current start end s) Anything _ _
        (fetch_page-IsFetched Phase.rest_get_first Phase.rest_validate_first current start end s)
        (λ first t f.
          After-resume (λ done v. out.pause t.world ≡ (true, v.world))
            (IsReread current start end s) Anything _ _ (pause-done (at Phase.confirmation_delay t))
            (λ done v p.
              After-resume (λ es x. IsFetched (ct.symbol current) start end es v.world x.world)
                (IsReread current start end s) Anything _ _
                (fetch_page-IsFetched Phase.rest_get_second Phase.rest_validate_second current start
                  end v)
                (λ second x g. compared first second t.world v.world x f p g)))
    where
      at : Phase → Run out → Run out
      at phase t = at_phase out phase (some (ct.symbol current)) (some start) (some end) t

      compared :
          (first second : List ct.E) (w v : out.W) (x : Run out)
          → IsFetched (ct.symbol current) start end first s.world w
          → out.pause w ≡ (true, v)
          → IsFetched (ct.symbol current) start end second v x.world
          → After (IsReread current start end s) Anything (
              resume
                (raise_if
                  (not (same_events ct first second) || not (starts_at ct current first))
                  confirmation_conflict
                  (at_phase out Phase.confirmation_compare
                    (some (ct.symbol current))
                    (some start)
                    (some end)
                    x))
                (λ _. pure first))
      compared first second w v x f p g =
          elim (Bool-cases
            (not (same_events ct first second) || not (starts_at ct current first))) [
              | inl conflict ↦ rw conflict tt
              | inr agree ↦ rw agree (second, w, v, f, p, g, ground (arith, agree))
            ]

  -- Given a contract that keeps the values it is given and makes whole minutes: if the confirmation of
  -- a window returns, the endpoint was called for it, then the pause, then the endpoint again in the
  -- world that the pause left; both answers were accepted as pages, one event for each minute of the
  -- window, equal event by event, and the first event has the canonical bytes of the current bar.
  -- Nothing is published, whether it returns or raises.
  pub confirm_page-IsReread :
      (law : IsContract ct) (current : ct.E) (start end : ℕ) (s : Run out)
      → After
          (λ es t.
            IsReread current start end s es t × IsConfirmed ct current start end es × IsKept s t)
          (λ e t. IsKept s t)
          (confirm_page out current start end s)
  confirm_page-IsReread law current start end s =
      After-weaken
        (λ es t.
          IsReread current start end s es t × (IsConfirmed ct current start end es × IsKept s t))
        (λ es t.
          IsReread current start end s es t × IsConfirmed ct current start end es × IsKept s t)
        (λ e t. Unit × IsKept s t) (λ e t. IsKept s t) (confirm_page out current start end s)
        (After-both (IsReread current start end s)
          (λ es t. IsConfirmed ct current start end es × IsKept s t) Anything (λ e t. IsKept s t)
          (confirm_page out current start end s) (IsReread-confirm_page current start end s)
          (confirm_page-IsConfirmed law current start end s))
        (λ es t h. (h.0, h.1.0, h.1.1)) (λ e t h. h.1)
