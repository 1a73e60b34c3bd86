-- ===== src/Native/Budget.antt =====
-- kairos_quant/native_capture.py: the budgets of a capture session.
use kairos_quant_scouts.Prelude.{
  ℕ, ◌+◌, ◌≤◌, ◌<◌, ◌≡◌, refl, Bool, true, false, Option, none, some, String, ltb, leb, length,
  if◌then◌else◌, arith, inl, ◌⊎◌,
}
use kairos_quant_scouts.Prelude.Result.{ok, err}
use kairos_quant_scouts.Prelude.Triple.{After, After-resume}
use kairos_quant_scouts.Native.State.{
  no_mapping, CaptureError, records_exhausted, bytes_exhausted, latched, sink_returned, sink_failed,
  maximum_capture_records, maximum_capture_bytes, Answer, stored, returned_value, raised, Codec,
  Session, total_size, fail, fail_if, wanted, ensure_healthy, next_sequence, reserved, reserve,
  written, answered, in_world, persist_reserved, persist,
}

not_leb : (a b : ℕ) → leb a b ≡ false → b < a
not_leb a b h = ground (arith, h)

not_ltb : (a b : ℕ) → ltb a b ≡ false → b ≤ a
not_ltb a b h = ground (arith, h)

module _ (cd : Codec) where
  -- The records and the bytes that are written or staged are within what is reserved, with room for
  -- `k` more records and `b` more bytes, what is reserved is within the limits of
  -- the session, and these are within the fixed ones.
  pub record HasRoom (k b : ℕ) (s : Session cd) : Type 0 where
    pub counted : s.records_written + length s.pending_sources + k ≤ s.records
    pub limited : s.records ≤ s.maximum_records
    pub stored : s.bytes_written + total_size cd s.pending_sources + b ≤ s.bytes_reserved
    pub bounded : s.bytes_reserved ≤ s.maximum_bytes
    pub few : s.maximum_records ≤ maximum_capture_records
    pub small : s.maximum_bytes ≤ maximum_capture_bytes

  abbrev pub IsBudgeted : Session cd → Type 0
  IsBudgeted s = HasRoom 0 0 s

  -- A call that raised has latched the session, but for a payload that is no mapping, and its budgets
  -- still hold.
  abbrev pub IsLatched : CaptureError → Session cd → Type 0
  IsLatched e t = IsBudgeted t × ((t.failed ≡ true) ⊎ (e ≡ no_mapping))

  pub HasRoom-IsBudgeted : (k b : ℕ) (s : Session cd) → HasRoom k b s → IsBudgeted s
  HasRoom-IsBudgeted k b s h = record {
    counted = omega (arith, h.counted);
    limited = h.limited;
    stored = omega (arith, h.stored);
    bounded = h.bounded;
    few = h.few;
    small = h.small;
  }

  pub fail-IsLatched :
      {A : Type 0} (Q : A → Session cd → Type 0) (k b : ℕ) (e : CaptureError) (s : Session cd)
      → HasRoom k b s
      → After Q IsLatched (fail cd {A = A} e s)
  unfolding fail
  fail-IsLatched Q k b e s h =
      let w = HasRoom-IsBudgeted k b s h in
      (
        record {
          counted = w.counted;
          limited = w.limited;
          stored = w.stored;
          bounded = w.bounded;
          few = w.few;
          small = w.small;
        },
        inl refl,
      )

  pub fail_if-HasRoom :
      (k b : ℕ) (c : Bool) (e : CaptureError) (s : Session cd)
      → HasRoom k b s
      → After (λ u t. HasRoom k b t × (c ≡ false) × (s ≡ t)) IsLatched (fail_if cd c e s)
  unfolding fail_if
  fail_if-HasRoom k b true e s h =
      fail-IsLatched {A = Unit {0}} (λ u t. HasRoom k b t × (true ≡ false) × (s ≡ t)) k b e s h
  fail_if-HasRoom k b false e s h = (h, refl, refl)

  pub wanted-HasRoom :
      {A : Type 0} (k b : ℕ) (o : Option A) (e : CaptureError) (s : Session cd)
      → HasRoom k b s
      → After (λ a t. HasRoom k b t) IsLatched (wanted cd o e s)
  unfolding wanted
  wanted-HasRoom {A} k b none e s h = fail-IsLatched {A = A} (λ a t. HasRoom k b t) k b e s h
  wanted-HasRoom k b (some a) e s h = h

  pub ensure_healthy-IsBudgeted :
      (s : Session cd) → IsBudgeted s → After (λ u t. IsBudgeted t) IsLatched (ensure_healthy cd s)
  unfolding ensure_healthy
  ensure_healthy-IsBudgeted s h = go s.failed refl
    where
      go :
          (b : Bool)
          → s.failed ≡ b
          → After {A = Unit {0}}
              (λ u t. IsBudgeted t)
              IsLatched
              (if b then (err latched, s) else (ok tt, s))
      go true e = (h, inl e)
      go false e = h

  pub next_sequence-IsBudgeted :
      (s : Session cd) → IsBudgeted s → After (λ n t. IsBudgeted t) IsLatched (next_sequence cd s)
  unfolding next_sequence
  next_sequence-IsBudgeted s h =
      After-resume (λ u t. IsBudgeted t × (leb s.maximum_records s.records ≡ false) × (s ≡ t))
        (λ n t. IsBudgeted t) IsLatched
        (fail_if cd (leb s.maximum_records s.records) records_exhausted s) _
        (fail_if-HasRoom 0 0 (leb s.maximum_records s.records) records_exhausted s h)
        (λ u t k.
          let w = k.0 in
          record {
            counted = w.counted;
            limited = w.limited;
            stored = w.stored;
            bounded = w.bounded;
            few = w.few;
            small = w.small;
          })

  reserved-HasRoom :
      (x : cd.B) (s : Session cd)
      → IsBudgeted s
      → leb s.maximum_records s.records ≡ false
      → ltb s.maximum_bytes (s.bytes_reserved + cd.size x) ≡ false
      → HasRoom 1 (cd.size x) (reserved cd x s)
  unfolding reserved
  reserved-HasRoom x s h p q =
      let below = not_leb s.maximum_records s.records p in
      let fits = not_ltb s.maximum_bytes (s.bytes_reserved + cd.size x) q in
      record {
        counted = omega (arith, h.counted);
        limited = omega (arith, below);
        stored = omega (arith, h.stored);
        bounded = omega (arith, fits);
        few = h.few;
        small = h.small;
      }

  pub reserve-HasRoom :
      (x : cd.B) (s : Session cd)
      → IsBudgeted s
      → After (λ u t. HasRoom 1 (cd.size x) t) IsLatched (reserve cd x s)
  unfolding reserve
  reserve-HasRoom x s h =
      After-resume (λ u t. IsBudgeted t × (leb s.maximum_records s.records ≡ false) × (s ≡ t))
        (λ u t. HasRoom 1 (cd.size x) t) IsLatched
        (fail_if cd (leb s.maximum_records s.records) records_exhausted s) _
        (fail_if-HasRoom 0 0 (leb s.maximum_records s.records) records_exhausted s h)
        (λ u t (w, free, same).
          let still : leb t.maximum_records t.records ≡ false = rw (← same) free in
          After-resume
            (λ u v.
              IsBudgeted v × (ltb t.maximum_bytes (t.bytes_reserved + cd.size x) ≡ false) × (t ≡ v))
            (λ u v. HasRoom 1 (cd.size x) v) IsLatched
            (fail_if cd (ltb t.maximum_bytes (t.bytes_reserved + cd.size x)) bytes_exhausted t) _
            (fail_if-HasRoom 0 0 (ltb t.maximum_bytes (t.bytes_reserved + cd.size x))
              bytes_exhausted t w)
            (λ u v (y, fits, also). rw (← also) (reserved-HasRoom x t w still fits)))

  written-IsBudgeted :
      (id : String) (x : cd.B) (s : Session cd)
      → HasRoom 1 (cd.size x) s
      → IsBudgeted (written cd id x s)
  unfolding written
  written-IsBudgeted id x s h = record {
    counted = omega (arith, h.counted);
    limited = h.limited;
    stored = omega (arith, h.stored);
    bounded = h.bounded;
    few = h.few;
    small = h.small;
  }

  answered-IsBudgeted :
      (a : Answer) (id : String) (x : cd.B) (s : Session cd)
      → HasRoom 1 (cd.size x) s
      → After (λ u t. IsBudgeted t) IsLatched (answered cd a id x s)
  unfolding answered
  answered-IsBudgeted stored id x s h = written-IsBudgeted id x s h
  answered-IsBudgeted returned_value id x s h =
      fail-IsLatched {A = Unit {0}} (λ u t. IsBudgeted t) 1 (cd.size x) sink_returned s h
  answered-IsBudgeted raised id x s h =
      fail-IsLatched {A = Unit {0}} (λ u t. IsBudgeted t) 1 (cd.size x) sink_failed s h

  pub in_world-HasRoom :
      {k b : ℕ} (w : cd.W) (s : Session cd) → HasRoom k b s → HasRoom k b (in_world cd w s)
  unfolding in_world
  in_world-HasRoom w s h = record {
    counted = h.counted;
    limited = h.limited;
    stored = h.stored;
    bounded = h.bounded;
    few = h.few;
    small = h.small;
  }

  pub persist_reserved-IsBudgeted :
      (id : String) (x : cd.B) (s : Session cd)
      → HasRoom 1 (cd.size x) s
      → After (λ u t. IsBudgeted t) IsLatched (persist_reserved cd id x s)
  unfolding persist_reserved
  persist_reserved-IsBudgeted id x s h =
      let (answer, w) = cd.create_only id x s.world in
      answered-IsBudgeted answer id x (in_world cd w s) (in_world-HasRoom w s h)

  pub persist-IsBudgeted :
      (id : String) (x : cd.B) (s : Session cd)
      → IsBudgeted s
      → After (λ u t. IsBudgeted t) IsLatched (persist cd id x s)
  unfolding persist
  persist-IsBudgeted id x s h =
      After-resume (λ u t. HasRoom 1 (cd.size x) t) (λ u t. IsBudgeted t) IsLatched (reserve cd x s)
        _ (reserve-HasRoom x s h) (λ u t. persist_reserved-IsBudgeted id x t)
