-- ===== src/Tape/Invariant.antt =====
-- The invariant of the tape recorder (kairos_quant/simulation_book.py), and that every method keeps
-- it, whether it returns or raises.
use kairos_quant_scouts.Prelude.{
  ℕ, ◌+◌, ◌≤◌, ◌<◌, ◌≡◌, refl, ap, Bool, true, false, Option, none, some, List, [], ◌∷◌, ◌++◌,
  String, str_eq, ltb, length, length-append, if◌then◌else◌, arith, Bool-cases, Option-cases, inl,
  inr,
}
use kairos_quant_scouts.Prelude.Result.{Result, ok, err}
use kairos_quant_scouts.Prelude.Action.{◌>>=◌}
use kairos_quant_scouts.Prelude.Int.{pos, negsuc}
use kairos_quant_scouts.Floats.{Floats}
use kairos_quant_scouts.Tape.State.{
  PyInt, int, other, Continuity, unknown, TapeError, Frame, FrameFields, Host, Recorder, Tape,
  is_some,
}
use kairos_quant_scouts.Tape.Ops.{
  validate_timestamp, begin_public_stream, acknowledge, build_frame, barrier_fields, write_barrier,
  block_with_barrier, block_capture, normalize_symbol,
}

module _ {fl : Floats} where
  -- The frames carry consecutive sequence numbers, and `next` is the one after the last.
  abbrev pub Numbered : ℕ → List (Frame fl) → Type 0
  Numbered next [] = Unit
  Numbered next (f ∷ fs) = (f.tape_sequence + length (f ∷ fs) ≡ next) × Numbered next fs

  -- Each frame names the hash of the frame before it, and `last` is the hash of the last one.
  abbrev pub Linked : Option String → List (Frame fl) → Type 0
  Linked last [] = Unit
  Linked last (f ∷ []) = some f.frame_sha256 ≡ last
  Linked last (f ∷ g ∷ fs) = (g.previous_frame_sha256 ≡ some f.frame_sha256) × Linked last (g ∷ fs)

  -- One slot stays free for the source barrier until the tape is blocked, and no second stream
  -- epoch begins.
  pub record IsValid (r : Recorder fl) : Type 0 where
    pub bounded : length r.pending ≤ r.capacity
    pub reserved : r.blocked_reason ≡ none → length r.pending < r.capacity
    pub positive : 1 < r.capacity
    pub numbered : Numbered r.next_sequence r.pending
    pub linked : Linked r.previous_frame_sha256 r.pending
    pub one_epoch : r.blocked_reason ≡ none → r.stream_epoch ≡ none → r.epoch_number ≡ 0

  pub Numbered-append :
      (next : ℕ) (fs : List (Frame fl)) (f : Frame fl)
      → Numbered next fs
      → f.tape_sequence ≡ next
      → Numbered (next + 1) (fs ++ f ∷ [])
  Numbered-append next [] f h e = (omega arith, tt)
  Numbered-append next (g ∷ fs) f h e =
      (omega (arith, length-append {0} fs (f ∷ [])), Numbered-append next fs f h.1 e)

  pub Linked-append :
      (last : Option String) (fs : List (Frame fl)) (f : Frame fl)
      → Linked last fs
      → f.previous_frame_sha256 ≡ last
      → Linked (some f.frame_sha256) (fs ++ f ∷ [])
  Linked-append last [] f h e = refl
  Linked-append last (g ∷ []) f h e = (cc, refl)
  Linked-append last (g ∷ k ∷ fs) f h e = (h.0, Linked-append last (k ∷ fs) f h.1 e)

  Linked-tail :
      (last : Option String) (f : Frame fl) (fs : List (Frame fl))
      → Linked last (f ∷ fs)
      → Linked last fs
  Linked-tail last f [] h = tt
  Linked-tail last f (g ∷ fs) h = h.1

  acknowledge_queue :
      (sha : String) (r : Recorder fl) (fs : List (Frame fl))
      → r.pending ≡ fs
      → IsValid r
      → IsValid (acknowledge sha r).1
  unfolding acknowledge
  acknowledge_queue sha r [] e v = rw (e, acknowledge) v
  acknowledge_queue sha r (f ∷ fs) e v =
      let numbered : Numbered r.next_sequence (f ∷ fs) = rw e at v.numbered in
      let linked : Linked r.previous_frame_sha256 (f ∷ fs) = rw e at v.linked in
      let size : length r.pending ≡ length (f ∷ fs) = ap length e in
      rw (e, acknowledge)
        (elim (Bool-cases (str_eq sha f.frame_sha256)) [
          | inl match ↦ rw match (record {
            bounded = omega (arith, v.bounded);
            reserved = λ b. omega (arith, v.reserved b);
            positive = v.positive;
            numbered = numbered.1;
            linked = Linked-tail r.previous_frame_sha256 f fs linked;
            one_epoch = v.one_epoch;
          })
          | inr differs ↦ rw differs v
        ])

  -- Acknowledging keeps the invariant.
  pub acknowledge-IsValid :
      (sha : String) (r : Recorder fl) → IsValid r → IsValid (acknowledge sha r).1
  acknowledge-IsValid sha r v = acknowledge_queue sha r r.pending refl v

  pub begin_public_stream-IsValid :
      (t : PyInt) (r : Recorder fl) → IsValid r → IsValid (begin_public_stream t r).1
  unfolding begin_public_stream
  begin_public_stream-IsValid (int t) r v = ground arith
  begin_public_stream-IsValid other r v = v

  -- The state in which a capture, once its guards have passed, runs.
  pub record IsReady (r : Recorder fl) : Type 0 where
    pub valid : IsValid r
    pub unblocked : r.blocked_reason ≡ none
    pub started : is_some r.stream_epoch ≡ true

  -- As `IsReady`, with a slot for a frame beside the one for the barrier.
  pub record IsSpare (r : Recorder fl) : Type 0 where
    pub ready : IsReady r
    pub spare : length r.pending + 1 < r.capacity

  -- From a state with `P` the action ends in a valid one, whether it returns or raises.
  pub record Guarded {A : Type 0} (P : Recorder fl → Type 0) (m : Tape fl A) : Type 0 where
    pub at : (r : Recorder fl) → P r → IsValid (m r).1

  pub record Reads {A : Type 0} (m : Tape fl A) : Type 0 where
    pub same : (r : Recorder fl) → (m r).1 ≡ r

  bind_at :
      {A B : Type 0} (f : A → Tape fl B) (r : Recorder fl) (x : Result TapeError A × Recorder fl)
      → x.1 ≡ r
      → IsSpare r
      → ((a : A) → Guarded IsSpare (f a))
      → IsValid (((λ _. x) >>= f) r).1
  bind_at f r (ok a, s) e h g = rw e ((g a).at r h)
  bind_at f r (err x, s) e h g = rw e h.ready.valid

  pub Guarded-bind :
      {A B : Type 0} (m : Tape fl A) (f : A → Tape fl B)
      → Reads m
      → ((a : A) → Guarded IsSpare (f a))
      → Guarded IsSpare (m >>= f)
  Guarded-bind m f q g = record { at = λ r h. bind_at f r (m r) (q.same r) h g }

  pub Guarded-if :
      {A : Type 0} (b : Bool) (m n : Tape fl A)
      → Guarded IsSpare m
      → Guarded IsSpare n
      → Guarded IsSpare (if b then m else n)
  Guarded-if true m n h k = h
  Guarded-if false m n h k = k

  pub Guarded-elim :
      {A B : Type 0} (o : Option B) (m : Tape fl A) (n : B → Tape fl A)
      → Guarded IsSpare m
      → ((b : B) → Guarded IsSpare (n b))
      → Guarded IsSpare (elim o [ none ↦ m | some b ↦ n b ])
  Guarded-elim none m n h k = h
  Guarded-elim (some b) m n h k = k b

  pub validate_timestamp-Reads : (t : PyInt) → Reads (validate_timestamp {fl = fl} t)
  unfolding validate_timestamp
  validate_timestamp-Reads (int (pos n)) = record { same = λ r. refl }
  validate_timestamp-Reads (int (negsuc n)) = record { same = λ r. refl }
  validate_timestamp-Reads other = record { same = λ r. refl }

  module _ (host : Host fl) where
    pub build_frame-Reads : (fields : FrameFields fl) → Reads (build_frame host fields)
    unfolding build_frame
    build_frame-Reads fields = record { same = λ r. ground arith }

    pub normalize_symbol-Reads : (s : Option String) → Reads (normalize_symbol host s)
    unfolding normalize_symbol
    normalize_symbol-Reads none = record { same = λ r. refl }
    normalize_symbol-Reads (some s) = record { same = λ r. ground arith }

    -- A frame that stands for the next place keeps the invariant, if a slot is free.
    pub appended :
        (r : Recorder fl) (f : Frame fl)
        → IsValid r
        → length r.pending < r.capacity
        → f.tape_sequence ≡ r.next_sequence
        → f.previous_frame_sha256 ≡ r.previous_frame_sha256
        → (length (r.pending ++ f ∷ []) ≤ r.capacity)
          × Numbered (r.next_sequence + 1) (r.pending ++ f ∷ [])
          × Linked (some f.frame_sha256) (r.pending ++ f ∷ [])
    appended r f v room e k = (
      omega (arith, length-append {0} r.pending (f ∷ [])),
      Numbered-append r.next_sequence r.pending f v.numbered e,
      Linked-append r.previous_frame_sha256 r.pending f v.linked k,
    )

    pub bumped :
        (r : Recorder fl) → IsReady r → IsValid (record r { epoch_number = r.epoch_number + 1 })
    bumped r h = record {
      bounded = h.valid.bounded;
      reserved = h.valid.reserved;
      positive = h.valid.positive;
      numbered = h.valid.numbered;
      linked = h.valid.linked;
      one_epoch = λ b e. ground (arith, h.started);
    }

    -- A blocked tape with room for its frames needs no free slot and has had its one epoch.
    pub blocked_valid :
        (r : Recorder fl) (reason : String)
        → (length r.pending ≤ r.capacity)
          × Numbered r.next_sequence r.pending
          × Linked r.previous_frame_sha256 r.pending
        → 1 < r.capacity
        → r.blocked_reason ≡ some reason
        → IsValid r
    blocked_valid r reason q p b = record {
      bounded = q.0;
      reserved = λ e. cc;
      positive = p;
      numbered = q.1;
      linked = q.2;
      one_epoch = λ e. cc;
    }

    abbrev pub barrier_at : Recorder fl → Continuity → ℕ → String → ℕ → FrameFields fl
    barrier_at r c at reason n =
        barrier_fields host (record r { epoch_number = r.epoch_number + 1 }) c reason at n

    write_barrier_clock :
        (c : Continuity) (at : ℕ) (reason : String) (n : ℕ) (r : Recorder fl)
        → IsReady r
        → IsValid (write_barrier host c at reason (int (pos n)) r).1
    unfolding write_barrier
    write_barrier_clock c at reason n r h =
        elim (Bool-cases (host.contract_accepts (barrier_at r c at reason n))) [
          | inl accepted ↦ elim (Option-cases (host.contract_sha256 (barrier_at r c at reason n))) [
            | inl no_identity ↦ rw (accepted, build_frame) (rw no_identity (bumped r h))
            | inr (sha, found) ↦
                rw (accepted, build_frame)
                  (rw found (
                    blocked_valid _ reason
                      (appended (record r { epoch_number = r.epoch_number + 1 })
                        (record { fields = barrier_at r c at reason n; frame_sha256 = sha })
                        (bumped r h) (h.valid.reserved h.unblocked) refl refl)
                      h.valid.positive refl))
          ]
          | inr refused ↦ rw (refused, build_frame) (bumped r h)
        ]

    write_barrier-Guarded :
        (c : Continuity) (at : ℕ) (reason : String) (now : PyInt)
        → Guarded IsReady (write_barrier host c at reason now)
    unfolding write_barrier
    write_barrier-Guarded c at reason (int (pos n)) = record {
      at = λ r h. write_barrier_clock c at reason n r h;
    }
    write_barrier-Guarded c at reason (int (negsuc n)) = record { at = λ r h. bumped r h }
    write_barrier-Guarded c at reason other = record { at = λ r h. bumped r h }

    -- With a free slot the barrier fits.
    pub block_with_barrier-Guarded :
        (c : Continuity) (at : PyInt) (reason : String) (now : PyInt)
        → Guarded IsReady (block_with_barrier host c at reason now)
    unfolding block_with_barrier
    block_with_barrier-Guarded c (int (pos t)) reason now = record {
      at = λ r h. elim (Bool-cases (ltb r.capacity (length r.pending + 1))) [
        | inl full ↦ absurd (ground (arith, h.valid.reserved h.unblocked))
        | inr room ↦ rw room ((write_barrier-Guarded c t reason now).at r h)
      ];
    }
    block_with_barrier-Guarded c (int (negsuc t)) reason now = record { at = λ r h. h.valid }
    block_with_barrier-Guarded c other reason now = record { at = λ r h. h.valid }

    pub block_capture-Guarded :
        (at : PyInt) (reason : String) (now : PyInt)
        → Guarded IsSpare (block_capture host at reason now)
    unfolding block_capture
    block_capture-Guarded at reason now = record {
      at = λ r h. ground (arith, (block_with_barrier-Guarded unknown at reason now).at r h.ready);
    }
