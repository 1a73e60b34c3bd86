-- ===== src/Tape/Safety.antt =====
-- What single calls of the recorder (kairos_quant/simulation_book.py) promise.
use kairos_quant_scouts.Prelude.{
  ℕ, ◌+◌, ◌≤◌, ◌≡◌, ◌≢◌, refl, true, false, Option, none, some, List, [], ◌∷◌, ◌++◌, String, str_eq,
  ◌-◌, length, ltb, arith, if◌then◌else◌, Bool-cases, Option-cases, inl, inr, ap,
}
use kairos_quant_scouts.Prelude.Int.{pos, negsuc}
use kairos_quant_scouts.Prelude.Result.{Result, ok, err}
use kairos_quant_scouts.Prelude.Action.{raise, ◌>>=◌, ◌>>◌, resume}
use kairos_quant_scouts.Floats.{Floats}
use kairos_quant_scouts.OrderBook.{Level}
use kairos_quant_scouts.Tape.Book.{StrictError, normalize_simulation_book}
use kairos_quant_scouts.Tape.State.{
  PyInt, int, other, unknown, TapeError, tape_blocked, queue_overflow, Frame, Host, Recorder, Tape,
}
use kairos_quant_scouts.Tape.Ops.{
  begin_public_stream, validate_timestamp, acknowledge, block_with_barrier, block_capture,
  normalize_symbol, record_frame, capture_fields, update_number, regressed,
  reserve_capture_capacity, active_epoch,
}
use kairos_quant_scouts.Tape.Capture.{
  Depth, capture_book, capture_numbered, capture_update, capture_text, capture_payload,
  capture_depth,
}
use kairos_quant_scouts.Tape.Captures.{
  reserve_room, reserve_full, refuse_open, refuse_blocked_lem, active_some, active_none,
}
use kairos_quant_scouts.Tape.Invariant.{
  IsValid, Reads, normalize_symbol-Reads, validate_timestamp-Reads,
}

module _ {fl : Floats} where
  -- A begin that returns on a valid tape is its first: no epoch was counted before, the epoch is 1
  -- and active afterwards, and the tape was not blocked.
  pub begin_public_stream-first :
      (t : PyInt) (r : Recorder fl) {n : ℕ}
      → IsValid r
      → (begin_public_stream t r).0 ≡ ok n
      → (r.epoch_number ≡ 0)
        × (n ≡ 1)
        × ((begin_public_stream t r).1.stream_epoch ≡ some 1)
        × (r.blocked_reason ≡ none)
  unfolding begin_public_stream
  begin_public_stream-first (int t) r v h = ground (arith, v.one_epoch)
  begin_public_stream-first other r v h = cc

  -- An acknowledgement that returns has removed the head of the queue, and the hash was that
  -- frame's.
  pub acknowledge_head :
      (sha : String) (r : Recorder fl)
      → (acknowledge sha r).0 ≡ ok tt
      → (f : Frame fl) × (r.pending ≡ f ∷ (acknowledge sha r).1.pending)
        × (str_eq sha f.frame_sha256 ≡ true)
  unfolding acknowledge
  acknowledge_head sha r h = go r.pending refl
    where
      go :
          (fs : List (Frame fl))
          → r.pending ≡ fs
          → (f : Frame fl) × (r.pending ≡ f ∷ (acknowledge sha r).1.pending)
            × (str_eq sha f.frame_sha256 ≡ true)
      go [] e = ground arith
      go (f ∷ fs) e = (f, ground arith, ground arith)

module _ {fl : Floats} (host : Host fl) where
  block_capture-fails :
      (at : PyInt) (reason : String) (now : PyInt) (r : Recorder fl) (f : Frame fl)
      → (block_capture host at reason now r).0 ≢ ok f
  unfolding block_capture
  block_capture-fails at reason now r f h = go (block_with_barrier host unknown at reason now r) h
    where
      go :
          (x : Result TapeError (Frame fl) × Recorder fl)
          → (((λ _. x) >> raise {A = Frame fl} (tape_blocked reason)) r).0 ≡ ok f
          → ⊥
      go (ok g, s) e = cc
      go (err g, s) e = cc

  -- What a capture that returns `f` has done.
  pub record IsCaptured (d : Depth fl) (r : Recorder fl) (f : Frame fl) (s : Recorder fl)
      : Type 0 where
    pub queued : s.pending ≡ r.pending ++ f ∷ []
    pub numbered : (f.tape_sequence ≡ r.next_sequence) × (s.next_sequence ≡ r.next_sequence + 1)
    pub linked :
        (f.previous_frame_sha256 ≡ r.previous_frame_sha256)
        × (s.previous_frame_sha256 ≡ some f.frame_sha256)
    pub open_tape : s.blocked_reason ≡ r.blocked_reason
    pub advanced : regressed (r.last_update_id f.symbol) f.exchange_update_id ≡ false
    pub causal : (f.exchange_at_ms ≤ f.received_at_ms) × (f.received_at_ms ≤ f.persisted_at_ms)
    pub book : normalize_simulation_book fl d.bids d.asks 10 ≡ ok (f.bids, f.asks)

  record_frame-ok :
      (epoch : ℕ) (sha symbol : String) (id ex rec : ℕ) (book : List (Level fl) × List (Level fl))
      (now : PyInt) (r : Recorder fl) (d : Depth fl) (f : Frame fl)
      → regressed (r.last_update_id symbol) id ≡ false
      → ex ≤ rec
      → normalize_simulation_book fl d.bids d.asks 10 ≡ ok book
      → (record_frame host epoch sha symbol id ex rec book now r).0 ≡ ok f
      → IsCaptured d r f (record_frame host epoch sha symbol id ex rec book now r).1
  unfolding record_frame
  record_frame-ok epoch sha symbol id ex rec book (int (pos n)) r d f new causal b h =
      elim (Option-cases
        (host.contract_sha256 (capture_fields host r epoch sha symbol id ex rec book n))) [
          | inl bare ↦ ground arith
          | inr (identity, found) ↦ ground arith
        ]
  record_frame-ok epoch sha symbol id ex rec book (int (negsuc n)) r d f new causal b h = cc
  record_frame-ok epoch sha symbol id ex rec book other r d f new causal b h = cc

  capture_book-ok :
      (d : Depth fl) (epoch : ℕ) (payload symbol : String) (ex rec id : ℕ) (now : PyInt)
      (r : Recorder fl) (f : Frame fl)
      → regressed (r.last_update_id symbol) id ≡ false
      → ex ≤ rec
      → (capture_book host d epoch payload symbol ex rec id now r).0 ≡ ok f
      → IsCaptured d r f (capture_book host d epoch payload symbol ex rec id now r).1
  unfolding capture_book
  capture_book-ok d epoch payload symbol ex rec id now r f new causal h =
      go (normalize_simulation_book fl d.bids d.asks 10) (host.payload_sha256 payload) refl h
    where
      branch :
          Result StrictError (List (Level fl) × List (Level fl))
          → Option String
          → Tape fl (Frame fl)
      branch b o = elim b [
        | err _ ↦ block_capture host d.received_at_ms "INVALID_BOOK" now
        | ok book ↦ elim o [
          | none ↦ block_capture host d.received_at_ms "RAW_PAYLOAD_NOT_UTF8" now
          | some sha ↦ record_frame host epoch sha symbol id ex rec book now
        ]
      ]

      go :
          (b : Result StrictError (List (Level fl) × List (Level fl))) (o : Option String)
          → normalize_simulation_book fl d.bids d.asks 10 ≡ b
          → (branch b o r).0 ≡ ok f
          → IsCaptured d r f (branch b o r).1
      go (err x) o e k = absurd (block_capture-fails d.received_at_ms "INVALID_BOOK" now r f k)
      go (ok book) none e k =
          absurd (block_capture-fails d.received_at_ms "RAW_PAYLOAD_NOT_UTF8" now r f k)
      go (ok book) (some sha) e k =
          record_frame-ok epoch sha symbol id ex rec book now r d f new causal e k

  -- A step that reads and then goes on: where the block returned, the step did.
  Reads-bind :
      {A : Type 0} (m : Tape fl A) (k : A → Tape fl (Frame fl)) (r : Recorder fl) {f : Frame fl}
      → Reads m
      → ((m >>= k) r).0 ≡ ok f
      → (a : A) × ((m >>= k) r ≡ k a r)
  Reads-bind {A} m k r {f} reads h = go (m r) (reads.same r) h
    where
      go :
          (x : Result TapeError A × Recorder fl)
          → x.1 ≡ r
          → (resume x k).0 ≡ ok f
          → (a : A) × (resume x k ≡ k a r)
      go (ok a, s) e h = (a, ap (k a) e)
      go (err x, s) e h = cc

  capture_numbered-ok :
      (d : Depth fl) (epoch : ℕ) (payload symbol : String) (ex rec id : ℕ) (now : PyInt)
      (r : Recorder fl) (f : Frame fl)
      → ex ≤ rec
      → (capture_numbered host d epoch payload symbol ex rec id now r).0 ≡ ok f
      → IsCaptured d r f (capture_numbered host d epoch payload symbol ex rec id now r).1
  unfolding capture_numbered
  capture_numbered-ok d epoch payload symbol ex rec id now r f causal h =
      elim (Bool-cases (regressed (r.last_update_id symbol) id)) [
        | inl back ↦ absurd (
            block_capture-fails d.received_at_ms "UPDATE_ID_REGRESSION" now r f
              (rw (back, capture_numbered) at h))
        | inr new ↦ rw new (
            capture_book-ok d epoch payload symbol ex rec id now r f new causal
              (rw (new, capture_numbered) at h))
      ]

  capture_update-ok :
      (d : Depth fl) (epoch : ℕ) (payload symbol : String) (ex rec : ℕ) (now : PyInt)
      (r : Recorder fl) (f : Frame fl)
      → ex ≤ rec
      → (capture_update host d epoch payload symbol ex rec now r).0 ≡ ok f
      → IsCaptured d r f (capture_update host d epoch payload symbol ex rec now r).1
  unfolding capture_update
  capture_update-ok d epoch payload symbol ex rec now r f causal h =
      go (update_number d.exchange_update_id) h
    where
      branch : Option ℕ → Tape fl (Frame fl)
      branch none = block_capture host d.received_at_ms "INVALID_UPDATE_ID" now
      branch (some id) = capture_numbered host d epoch payload symbol ex rec id now

      go : (o : Option ℕ) → (branch o r).0 ≡ ok f → IsCaptured d r f (branch o r).1
      go none k = absurd (block_capture-fails d.received_at_ms "INVALID_UPDATE_ID" now r f k)
      go (some id) k = capture_numbered-ok d epoch payload symbol ex rec id now r f causal k

  capture_text-ok :
      (d : Depth fl) (epoch : ℕ) (payload : String) (now : PyInt) (r : Recorder fl) (f : Frame fl)
      → (capture_text host d epoch payload now r).0 ≡ ok f
      → IsCaptured d r f (capture_text host d epoch payload now r).1
  unfolding capture_text
  capture_text-ok d epoch payload now r f h =
      let (symbol, e) =
        Reads-bind (normalize_symbol host d.symbol) _ r (normalize_symbol-Reads host d.symbol) h in
      rw e (stamped symbol (rw e at h))
    where
      ordered : (ex rec : ℕ) (symbol : String) → Tape fl (Frame fl)
      ordered ex rec symbol =
          if ltb rec ex
          then block_capture host d.received_at_ms "SOURCE_CLOCK_REGRESSION" now
          else capture_update host d epoch payload symbol ex rec now

      timed :
          (ex : ℕ) (symbol : String)
          → ((validate_timestamp d.received_at_ms >>= λ rec. ordered ex rec symbol) r).0 ≡ ok f
          → IsCaptured d r f
              ((validate_timestamp d.received_at_ms >>= λ rec. ordered ex rec symbol) r).1
      timed ex symbol h =
          let (rec, e) =
            Reads-bind (validate_timestamp d.received_at_ms) (λ rec. ordered ex rec symbol) r
              (validate_timestamp-Reads d.received_at_ms) h in
          let k : (ordered ex rec symbol r).0 ≡ ok f = rw e at h in
          rw e (elim (Bool-cases (ltb rec ex)) [
            | inl back ↦ absurd (
                block_capture-fails d.received_at_ms "SOURCE_CLOCK_REGRESSION" now r f
                  (rw back at k))
            | inr forth ↦ rw forth (
                capture_update-ok d epoch payload symbol ex rec now r f (ground arith)
                  (rw forth at k))
          ])

      stamped :
          (symbol : String)
          → ((validate_timestamp d.exchange_at_ms >>= λ ex.
                validate_timestamp d.received_at_ms >>= λ rec. ordered ex rec symbol)
              r).0
            ≡ ok f
          → IsCaptured d r f
              ((validate_timestamp d.exchange_at_ms >>= λ ex.
                  validate_timestamp d.received_at_ms >>= λ rec. ordered ex rec symbol)
                r).1
      stamped symbol h =
          let (ex, e) =
            Reads-bind (validate_timestamp d.exchange_at_ms)
              (λ ex. validate_timestamp d.received_at_ms >>= λ rec. ordered ex rec symbol) r
              (validate_timestamp-Reads d.exchange_at_ms) h in
          rw e (timed ex symbol (rw e at h))

  capture_payload-ok :
      (d : Depth fl) (epoch : ℕ) (now : PyInt) (r : Recorder fl) (f : Frame fl)
      → (capture_payload host d epoch now r).0 ≡ ok f
      → IsCaptured d r f (capture_payload host d epoch now r).1
  unfolding capture_payload
  capture_payload-ok d epoch now r f h = go d.raw_payload h
    where
      branch : Option String → Tape fl (Frame fl)
      branch p = elim p [
        | none ↦ block_capture host d.received_at_ms "RAW_PAYLOAD_NOT_TEXT" now
        | some payload ↦ capture_text host d epoch payload now
      ]

      go : (p : Option String) → (branch p r).0 ≡ ok f → IsCaptured d r f (branch p r).1
      go none k = absurd (block_capture-fails d.received_at_ms "RAW_PAYLOAD_NOT_TEXT" now r f k)
      go (some payload) k = capture_text-ok d epoch payload now r f k

  reserved-ok :
      (d : Depth fl) (epoch : ℕ) (now : PyInt) (r : Recorder fl) (f : Frame fl)
      → ((reserve_capture_capacity >> capture_payload host d epoch now) r).0 ≡ ok f
      → IsCaptured d r f ((reserve_capture_capacity >> capture_payload host d epoch now) r).1
  reserved-ok d epoch now r f h = elim (Bool-cases (ltb (length r.pending) (r.capacity - 1))) [
    | inl room ↦
        rw (reserve_room r room)
          (capture_payload-ok d epoch now r f (rw (reserve_room r room) at h))
    | inr full ↦ absurd (never (rw (reserve_full r full) at h))
  ]
    where
      never : err queue_overflow ≡ ok f → ⊥
      never e = cc

  -- A capture that returns a frame has queued exactly that frame at the end: it has the next
  -- sequence number and the hash of the frame before it, a new update id for its symbol, times in
  -- causal order and the normalised book, and the tape is not blocked by it.
  pub capture_depth-IsCaptured :
      (d : Depth fl) (now : PyInt) (r : Recorder fl) (f : Frame fl)
      → (capture_depth host d now r).0 ≡ ok f
      → IsCaptured d r f (capture_depth host d now r).1
  unfolding capture_depth
  capture_depth-IsCaptured d now r f h = go r.blocked_reason r.stream_epoch refl refl
    where
      started : ℕ → Tape fl (Frame fl)
      started epoch = reserve_capture_capacity >> capture_payload host d epoch now

      go :
          (b : Option String) (e : Option ℕ)
          → r.blocked_reason ≡ b
          → r.stream_epoch ≡ e
          → IsCaptured d r f (capture_depth host d now r).1
      go (some reason) e p q = cc (rw (refuse_blocked_lem r reason p) at h)
      go none none p q =
          let k : ((active_epoch >>= started) r).0 ≡ ok f = rw (refuse_open r p) at h in
          cc (rw (active_none r q) at k)
      go none (some epoch) p q =
          let k : ((active_epoch >>= started) r).0 ≡ ok f = rw (refuse_open r p) at h in
          rw (refuse_open r p) (
            rw (active_some r epoch q)
              (reserved-ok d epoch now r f (rw (active_some r epoch q) at k)))
