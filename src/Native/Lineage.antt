-- ===== src/Native/Lineage.antt =====
-- kairos_quant/native_capture.py: flushed sources are persisted, and a failure is final.
use kairos_quant_scouts.Prelude.{
  ◌≡◌, refl, ap, Bool, true, false, List, [], ◌∷◌, Option, none, some, String, eq_iff,
  if◌then◌else◌, arith, Bool-cases, inl, inr, ◌⊎◌,
}
use kairos_quant_scouts.Prelude.Text.{one_of}
use kairos_quant_scouts.Prelude.Result.{Result, ok, err}
use kairos_quant_scouts.Prelude.Action.{resume, modify}
use kairos_quant_scouts.Prelude.Triple.{After, After-resume}
use kairos_quant_scouts.Native.Text.{PyText, Parsers}
use kairos_quant_scouts.Native.State.{
  CaptureError, latched, Answer, stored, returned_value, raised, Codec, Session, staged, fail,
  wanted, ensure_healthy, written, answered, in_world, persist_reserved,
}
use kairos_quant_scouts.Native.Calls.{SourceCall, DerivedCall}
use kairos_quant_scouts.Native.Capture.{
  capture_source, unstaging, flush_staged, flush_one, flush_all, selected, flush_sources,
  capture_derived_payload, Call, source, flush, derived, step, run,
}

module _ (cd : Codec) where
  -- What was persisted stays so, and the session is as healthy as before.
  abbrev pub IsLater : Session cd → Session cd → Type 0
  IsLater s t =
      ((j : String) → one_of j s.persisted_ids ≡ true → one_of j t.persisted_ids ≡ true)
      × (t.failed ≡ s.failed)

  abbrev pub AllPersisted : List String → Session cd → Type 0
  AllPersisted [] s = Unit
  AllPersisted (id ∷ ids) s = (one_of id s.persisted_ids ≡ true) × AllPersisted ids s

  AllPersisted-IsLater :
      (ids : List String) (s t : Session cd) → AllPersisted ids s → IsLater s t → AllPersisted ids t
  AllPersisted-IsLater [] s t h l = tt
  AllPersisted-IsLater (id ∷ ids) s t (p, h) l = (l.0 id p, AllPersisted-IsLater ids s t h l)

  abbrev IsFlushed : String → Session cd → Session cd → Type 0
  IsFlushed id s t = (one_of id t.persisted_ids ≡ true) × IsLater s t

  abbrev Anyhow : CaptureError → Session cd → Type 0
  Anyhow e t = Unit

  one_of-own : (id : String) (ids : List String) → one_of id (id ∷ ids) ≡ true
  one_of-own id ids = rw ((eq_iff id id).1 refl) refl

  one_of-more :
      (j id : String) (ids : List String) → one_of j ids ≡ true → one_of j (id ∷ ids) ≡ true
  one_of-more j id ids h = ground (arith, h)

  added : (id : String) (s : Session cd) (x : cd.B) → IsFlushed id s (written cd id x s)
  unfolding written
  added id s x = go (one_of id s.persisted_ids) refl
    where
      go :
          (b : Bool)
          → one_of id s.persisted_ids ≡ b
          → (one_of id (if b then s.persisted_ids else id ∷ s.persisted_ids) ≡ true)
            × (((j : String)
                  → one_of j s.persisted_ids ≡ true
                  → one_of j (if b then s.persisted_ids else id ∷ s.persisted_ids) ≡ true)
                × (s.failed ≡ s.failed))
      go true e = (e, (λ j h. h, refl))
      go false e =
          (one_of-own id s.persisted_ids, (λ j h. one_of-more j id s.persisted_ids h, refl))

  answered-IsFlushed :
      (a : Answer) (id : String) (x : cd.B) (s : Session cd)
      → After
          (λ u t. IsFlushed id s t)
          Anyhow
          (resume (answered cd a id x s) (λ u. modify (unstaging cd id)))
  unfolding answered fail unstaging
  answered-IsFlushed stored id x s = added id s x
  answered-IsFlushed returned_value id x s = tt
  answered-IsFlushed raised id x s = tt

  flush_staged-IsFlushed :
      (id : String) (o : Option cd.B) (s : Session cd)
      → After (λ u t. IsFlushed id s t) Anyhow (flush_staged cd id o s)
  unfolding flush_staged fail persist_reserved in_world
  flush_staged-IsFlushed id none s = tt
  flush_staged-IsFlushed id (some x) s =
      let (answer, w) = cd.create_only id x s.world in
      answered-IsFlushed answer id x (in_world cd w s)

  flush_one-IsFlushed :
      (id : String) (s : Session cd) → After (λ u t. IsFlushed id s t) Anyhow (flush_one cd id s)
  unfolding flush_one
  flush_one-IsFlushed id s = go (one_of id s.persisted_ids) refl
    where
      go :
          (b : Bool)
          → one_of id s.persisted_ids ≡ b
          → After
              (λ u t. IsFlushed id s t)
              Anyhow
              (if b then (ok tt, s) else flush_staged cd id (staged cd id s.pending_sources) s)
      go true e = (e, (λ j h. h, refl))
      go false e = flush_staged-IsFlushed id (staged cd id s.pending_sources) s

  flush_all-AllPersisted :
      (ids : List String) (s : Session cd)
      → After (λ u t. AllPersisted ids t × IsLater s t) Anyhow (flush_all cd ids s)
  unfolding flush_all
  flush_all-AllPersisted [] s = (tt, (λ j h. h, refl))
  flush_all-AllPersisted (id ∷ ids) s =
      After-resume (λ u t. IsFlushed id s t) (λ u t. AllPersisted (id ∷ ids) t × IsLater s t) Anyhow
        (flush_one cd id s) (λ u. flush_all cd ids) (flush_one-IsFlushed id s)
        (λ u t (here, later).
          joined t (flush_all cd ids t) here later (flush_all-AllPersisted ids t))
    where
      joined :
          (t : Session cd) (r : Result CaptureError (Unit {0}) × Session cd)
          → one_of id t.persisted_ids ≡ true
          → IsLater s t
          → After (λ u v. AllPersisted ids v × IsLater t v) Anyhow r
          → After (λ u v. AllPersisted (id ∷ ids) v × IsLater s v) Anyhow r
      joined t (ok u, v) here later (rest, more) =
          ((more.0 id here, rest), (λ j h. more.0 j (later.0 j h), cc (more.1, later.1)))
      joined t (err e, v) here later h = tt

  flush_all-again :
      (ids : List String) (s : Session cd) → AllPersisted ids s → flush_all cd ids s ≡ (ok tt, s)
  unfolding flush_all flush_one
  flush_all-again [] s h = refl
  flush_all-again (id ∷ ids) s (p, h) = rw p (flush_all-again ids s h)

  healthy_ok : (s : Session cd) → s.failed ≡ false → ensure_healthy cd s ≡ (ok tt, s)
  unfolding ensure_healthy
  healthy_ok s h =
      ap {B = Result CaptureError (Unit {0}) × Session cd}
        (λ b. if b then (err latched, s) else (ok tt, s)) h

  healthy-latched : (s : Session cd) → s.failed ≡ true → ensure_healthy cd s ≡ (err latched, s)
  unfolding ensure_healthy
  healthy-latched s h =
      ap {B = Result CaptureError (Unit {0}) × Session cd}
        (λ b. if b then (err latched, s) else (ok tt, s)) h

  flushing :
      (ids : Option (List PyText)) (names : List String) (s : Session cd)
      → s.failed ≡ false
      → selected cd ids ≡ some names
      → flush_sources cd ids s ≡ flush_all cd names s
  unfolding flush_sources wanted
  flushing ids names s h e = rw (healthy_ok s h, e) refl

  flush_sources-failed :
      (ids : Option (List PyText)) (s : Session cd)
      → s.failed ≡ true
      → flush_sources cd ids s ≡ (err latched, s)
  unfolding flush_sources
  flush_sources-failed ids s h = rw (healthy-latched s h) refl

  capture_derived_payload-failed :
      (c : DerivedCall cd.P) (s : Session cd)
      → s.failed ≡ true
      → capture_derived_payload cd c s ≡ (err latched, s)
  unfolding capture_derived_payload
  capture_derived_payload-failed c s h = rw (healthy-latched s h) refl

  -- When `flush_sources` returns, every selected source is marked, and the same flush changes nothing.
  pub flush_sources-AllPersisted :
      (ids : Option (List PyText)) (names : List String) (s t : Session cd)
      → selected cd ids ≡ some names
      → flush_sources cd ids s ≡ (ok tt, t)
      → AllPersisted names t × (flush_sources cd ids t ≡ (ok tt, t))
  flush_sources-AllPersisted ids names s t e k = go (Bool-cases s.failed)
    where
      finished :
          (r : Result CaptureError (Unit {0}) × Session cd)
          → r ≡ (ok tt, t)
          → After (λ u v. AllPersisted names v × IsLater s v) Anyhow r
          → AllPersisted names t × IsLater s t
      finished (ok u, v) p h = let same : v ≡ t = cc p in rw (← same) h
      finished (err x, v) p h = cc p

      go :
          (s.failed ≡ true) ⊎ (s.failed ≡ false)
          → AllPersisted names t × (flush_sources cd ids t ≡ (ok tt, t))
      go (inl h) = cc (flush_sources-failed ids s h, k)
      go (inr h) =
          let done : flush_all cd names s ≡ (ok tt, t) = cc (flushing ids names s h e, k) in
          let (kept, later) =
            finished (flush_all cd names s) done (flush_all-AllPersisted names s) in
          let well : t.failed ≡ false = cc (later.1, h) in
          (kept, cc (flushing ids names t well e, flush_all-again names t kept))

module _ (cd : Codec) (ps : Parsers) where
  capture_source-failed :
      (c : SourceCall cd.B) (s : Session cd)
      → s.failed ≡ true
      → capture_source cd ps c s ≡ (err latched, s)
  unfolding capture_source
  capture_source-failed c s h = rw (healthy-latched cd s h) refl

  step-failed : (c : Call cd ps) (s : Session cd) → s.failed ≡ true → step cd ps c s ≡ s
  unfolding step
  step-failed (source c) s h = ap (λ r. r.1) (capture_source-failed c s h)
  step-failed (flush ids) s h = ap (λ r. r.1) (flush_sources-failed cd ids s h)
  step-failed (derived c) s h = ap (λ r. r.1) (capture_derived_payload-failed cd c s h)

  run-failed : (cs : List (Call cd ps)) (s : Session cd) → s.failed ≡ true → run cd ps cs s ≡ s
  unfolding run
  run-failed [] s h = refl
  run-failed (c ∷ cs) s h = rw (step-failed c s h) (run-failed cs s h)

  -- A failure is final. Once a session has failed, each of its three calls raises at once, and no
  -- sequence of calls changes anything: nothing more is staged, reserved or written.
  pub run-latched :
      (s : Session cd) (cs : List (Call cd ps))
      → s.failed ≡ true
      → (run cd ps cs s ≡ s)
        × ((c : SourceCall cd.B) → capture_source cd ps c s ≡ (err latched, s))
        × ((ids : Option (List PyText)) → flush_sources cd ids s ≡ (err latched, s))
        × ((c : DerivedCall cd.P) → capture_derived_payload cd c s ≡ (err latched, s))
  run-latched s cs h = (
    run-failed cs s h,
    λ c. capture_source-failed c s h,
    λ ids. flush_sources-failed cd ids s h,
    λ c. capture_derived_payload-failed cd c s h,
  )
