-- ===== src/Tape/Captures.antt =====
-- The captures and the barriers of kairos_quant/simulation_book.py keep the recorder's invariant.
use kairos_quant_scouts.Prelude.{
  ℕ, ◌≤◌, ◌<◌, ◌≡◌, refl, true, false, Option, none, some, List, [], ◌∷◌, String, ltb, length,
  length-append, ◌-◌, not, arith, Bool-cases, Option-cases, inl, inr,
}
use kairos_quant_scouts.Prelude.Int.{pos, negsuc}
use kairos_quant_scouts.Prelude.Result.{Result, ok, err}
use kairos_quant_scouts.Prelude.Action.{◌>>◌, raise_if}
use kairos_quant_scouts.Floats.{Floats}
use kairos_quant_scouts.OrderBook.{Level}
use kairos_quant_scouts.Tape.Book.{StrictError, normalize_simulation_book}
use kairos_quant_scouts.Tape.State.{
  PyInt, int, other, Continuity, tape_blocked, queue_overflow, not_started, value_error,
  FrameFields, Frame, Host, Recorder,
}
use kairos_quant_scouts.Tape.Ops.{
  validate_timestamp, init, refuse_blocked, active_epoch, reserve_capture_capacity, build_frame,
  block_with_barrier, block_capture, capture_fields, record_frame, update_number, regressed,
}
use kairos_quant_scouts.Tape.Capture.{
  Depth, capture_book, capture_numbered, capture_update, capture_text, capture_payload,
  capture_depth, bad_reason, is_source_gap, record_source_barrier,
}
use kairos_quant_scouts.Tape.Invariant.{
  IsValid, IsReady, IsSpare, Guarded, Guarded-bind, Guarded-if, Guarded-elim,
  validate_timestamp-Reads, normalize_symbol-Reads, appended, block_with_barrier-Guarded,
  block_capture-Guarded, Numbered, Linked,
}

-- What each guard of a method does.
module _ {fl : Floats} where
  pub reserve_room :
      (r : Recorder fl)
      → ltb (length r.pending) (r.capacity - 1) ≡ true
      → reserve_capture_capacity r ≡ (ok tt, r)
  unfolding reserve_capture_capacity
  reserve_room r e = rw e

  pub reserve_full :
      (r : Recorder fl)
      → ltb (length r.pending) (r.capacity - 1) ≡ false
      → reserve_capture_capacity r
        ≡ (err queue_overflow, record r { blocked_reason = some "PENDING_QUEUE_OVERFLOW" })
  unfolding reserve_capture_capacity
  reserve_full r e = rw e

  pub refuse_open : (r : Recorder fl) → r.blocked_reason ≡ none → refuse_blocked r ≡ (ok tt, r)
  unfolding refuse_blocked
  refuse_open r e = ground arith

  pub refuse_blocked_lem :
      (r : Recorder fl) (reason : String)
      → r.blocked_reason ≡ some reason
      → refuse_blocked r ≡ (err (tape_blocked reason), r)
  unfolding refuse_blocked
  refuse_blocked_lem r reason e = ground arith

  pub active_some : (r : Recorder fl) (n : ℕ) → r.stream_epoch ≡ some n → active_epoch r ≡ (ok n, r)
  unfolding active_epoch
  active_some r n e = ground arith

  pub active_none :
      (r : Recorder fl) → r.stream_epoch ≡ none → active_epoch r ≡ (err not_started, r)
  unfolding active_epoch
  active_none r e = ground arith

module _ {fl : Floats} (host : Host fl) where
  -- The invariant reads neither the update identifiers nor the names.
  recorded_valid :
      (r s : Recorder fl)
      → IsReady r
      → s.capacity ≡ r.capacity
      → s.blocked_reason ≡ r.blocked_reason
      → s.stream_epoch ≡ r.stream_epoch
      → (length s.pending ≤ s.capacity)
        × Numbered s.next_sequence s.pending
        × Linked s.previous_frame_sha256 s.pending
      → length s.pending < s.capacity
      → IsValid s
  recorded_valid r s h c b e q room = record {
    bounded = q.0;
    reserved = λ _. room;
    positive = omega (arith, h.valid.positive);
    numbered = q.1;
    linked = q.2;
    one_epoch = λ _ ended. ground (arith, h.started);
  }

  record_frame_clock :
      (epoch : ℕ) (sha symbol : String) (id ex rec : ℕ) (book : List (Level fl) × List (Level fl))
      (n : ℕ) (r : Recorder fl)
      → IsSpare r
      → IsValid (record_frame host epoch sha symbol id ex rec book (int (pos n)) r).1
  unfolding record_frame
  record_frame_clock epoch sha symbol id ex rec book n r h =
      elim (Bool-cases (host.contract_accepts fields)) [
        | inl accepted ↦ elim (Option-cases (host.contract_sha256 fields)) [
          | inl no_identity ↦ rw (accepted, build_frame) (rw no_identity h.ready.valid)
          | inr (identity, found) ↦
              let frame : Frame fl = record { fields = fields; frame_sha256 = identity } in
              rw (accepted, build_frame)
                (rw found (
                  recorded_valid r _ h.ready refl refl refl
                    (appended host r frame h.ready.valid (omega arith) refl refl)
                    (omega (arith, h.spare, length-append {0} r.pending (frame ∷ [])))))
        ]
        | inr refused ↦ rw (refused, build_frame) h.ready.valid
      ]
    where
      fields : FrameFields fl
      fields = capture_fields host r epoch sha symbol id ex rec book n

  record_frame-Guarded :
      (epoch : ℕ) (sha symbol : String) (id ex rec : ℕ) (book : List (Level fl) × List (Level fl))
      (now : PyInt)
      → Guarded IsSpare (record_frame host epoch sha symbol id ex rec book now)
  unfolding record_frame
  record_frame-Guarded epoch sha symbol id ex rec book (int (pos n)) = record {
    at = λ r h. record_frame_clock epoch sha symbol id ex rec book n r h;
  }
  record_frame-Guarded epoch sha symbol id ex rec book (int (negsuc n)) = record {
    at = λ r h. h.ready.valid;
  }
  record_frame-Guarded epoch sha symbol id ex rec book other = record { at = λ r h. h.ready.valid }

  capture_book-Guarded :
      (d : Depth fl) (epoch : ℕ) (payload symbol : String) (ex rec id : ℕ) (now : PyInt)
      → Guarded IsSpare (capture_book host d epoch payload symbol ex rec id now)
  unfolding capture_book
  capture_book-Guarded d epoch payload symbol ex rec id now =
      go (normalize_simulation_book fl d.bids d.asks 10) (host.payload_sha256 payload)
    where
      go :
          (b : Result StrictError (List (Level fl) × List (Level fl))) (o : Option String)
          → Guarded {A = Frame fl} IsSpare (elim b [
            | err _ ↦ block_capture host d.received_at_ms "INVALID_BOOK" now
            | ok book ↦ elim o [
              | none ↦ block_capture host d.received_at_ms "RAW_PAYLOAD_NOT_UTF8" now
              | some sha ↦ record_frame host epoch sha symbol id ex rec book now
            ]
          ])
      go (err e) o = block_capture-Guarded host d.received_at_ms "INVALID_BOOK" now
      go (ok book) none = block_capture-Guarded host d.received_at_ms "RAW_PAYLOAD_NOT_UTF8" now
      go (ok book) (some sha) = record_frame-Guarded epoch sha symbol id ex rec book now

  capture_numbered-Guarded :
      (d : Depth fl) (epoch : ℕ) (payload symbol : String) (ex rec id : ℕ) (now : PyInt)
      → Guarded IsSpare (capture_numbered host d epoch payload symbol ex rec id now)
  unfolding capture_numbered
  capture_numbered-Guarded d epoch payload symbol ex rec id now = record {
    at = λ r h. elim (Bool-cases (regressed (r.last_update_id symbol) id)) [
      | inl back ↦
          rw back ((block_capture-Guarded host d.received_at_ms "UPDATE_ID_REGRESSION" now).at r h)
      | inr new ↦ rw new ((capture_book-Guarded d epoch payload symbol ex rec id now).at r h)
    ];
  }

  capture_update-Guarded :
      (d : Depth fl) (epoch : ℕ) (payload symbol : String) (ex rec : ℕ) (now : PyInt)
      → Guarded IsSpare (capture_update host d epoch payload symbol ex rec now)
  unfolding capture_update
  capture_update-Guarded d epoch payload symbol ex rec now =
      Guarded-elim (update_number d.exchange_update_id) _ _
        (block_capture-Guarded host d.received_at_ms "INVALID_UPDATE_ID" now)
        (λ id. capture_numbered-Guarded d epoch payload symbol ex rec id now)

  capture_text-Guarded :
      (d : Depth fl) (epoch : ℕ) (payload : String) (now : PyInt)
      → Guarded IsSpare (capture_text host d epoch payload now)
  unfolding capture_text
  capture_text-Guarded d epoch payload now =
      Guarded-bind _ _ (normalize_symbol-Reads host d.symbol) (λ symbol.
        Guarded-bind _ _ (validate_timestamp-Reads d.exchange_at_ms) (λ ex.
          Guarded-bind _ _ (validate_timestamp-Reads d.received_at_ms) (λ rec.
            Guarded-if (ltb rec ex) _ _
              (block_capture-Guarded host d.received_at_ms "SOURCE_CLOCK_REGRESSION" now)
              (capture_update-Guarded d epoch payload symbol ex rec now))))

  capture_payload-Guarded :
      (d : Depth fl) (epoch : ℕ) (now : PyInt) → Guarded IsSpare (capture_payload host d epoch now)
  unfolding capture_payload
  capture_payload-Guarded d epoch now =
      Guarded-elim d.raw_payload _ _
        (block_capture-Guarded host d.received_at_ms "RAW_PAYLOAD_NOT_TEXT" now)
        (λ payload. capture_text-Guarded d epoch payload now)

  overflown :
      (r : Recorder fl)
      → IsValid r
      → IsValid (record r { blocked_reason = some "PENDING_QUEUE_OVERFLOW" })
  overflown r v = record {
    bounded = v.bounded;
    reserved = λ e. cc;
    positive = v.positive;
    numbered = v.numbered;
    linked = v.linked;
    one_epoch = λ e. cc;
  }

  -- past the reserve a slot is free for the frame, and past the overflow the tape is blocked
  reserved_capture :
      (d : Depth fl) (epoch : ℕ) (now : PyInt) (r : Recorder fl)
      → IsReady r
      → IsValid ((reserve_capture_capacity >> capture_payload host d epoch now) r).1
  reserved_capture d epoch now r h = elim (Bool-cases (ltb (length r.pending) (r.capacity - 1))) [
    | inl room ↦
        rw (reserve_room r room)
          ((capture_payload-Guarded d epoch now).at r (record { ready = h; spare = ground arith }))
    | inr full ↦ rw (reserve_full r full) (overflown r h.valid)
  ]

  -- A capture keeps the invariant on every branch.
  pub capture_depth-IsValid :
      (d : Depth fl) (now : PyInt) (r : Recorder fl)
      → IsValid r
      → IsValid (capture_depth host d now r).1
  unfolding capture_depth
  capture_depth-IsValid d now r v = go r.blocked_reason r.stream_epoch refl refl
    where
      go :
          (b : Option String) (e : Option ℕ)
          → r.blocked_reason ≡ b
          → r.stream_epoch ≡ e
          → IsValid (capture_depth host d now r).1
      go (some reason) e p q = rw (refuse_blocked_lem r reason p) v
      go none none p q = rw (refuse_open r p) (rw (active_none r q) v)
      go none (some epoch) p q = rw (refuse_open r p) (
          rw (active_some r epoch q) (
            reserved_capture d epoch now r
              (record { valid = v; unblocked = p; started = simp q refl })))

  opened_barrier :
      (c : Continuity) (at : PyInt) (reason : String) (now : PyInt) (r : Recorder fl)
      → IsValid r
      → IsValid ((refuse_blocked >> (active_epoch >> block_with_barrier host c at reason now)) r).1
  opened_barrier c at reason now r v = go r.blocked_reason r.stream_epoch refl refl
    where
      go :
          (b : Option String) (e : Option ℕ)
          → r.blocked_reason ≡ b
          → r.stream_epoch ≡ e
          → IsValid
              ((refuse_blocked >> (active_epoch >> block_with_barrier host c at reason now)) r).1
      go (some why) e p q = rw (refuse_blocked_lem r why p) v
      go none none p q = rw (refuse_open r p) (rw (active_none r q) v)
      go none (some epoch) p q = rw (refuse_open r p) (
          rw (active_some r epoch q) (
            (block_with_barrier-Guarded host c at reason now).at r
              (record { valid = v; unblocked = p; started = simp q refl })))

  -- A source barrier keeps the invariant.
  pub record_source_barrier-IsValid :
      (c : Continuity) (at : PyInt) (reason : String) (now : PyInt) (r : Recorder fl)
      → IsValid r
      → IsValid (record_source_barrier host c at reason now r).1
  unfolding record_source_barrier validate_timestamp
  record_source_barrier-IsValid c at reason now r v = elim (Bool-cases (not (is_source_gap c))) [
    | inl refused ↦ rw refused v
    | inr accepted ↦ rw accepted (stamped at)
  ]
    where
      reasoned :
          (t : PyInt)
          → IsValid
              ((raise_if (bad_reason host reason) value_error
                  >> (refuse_blocked >> (active_epoch >> block_with_barrier host c t reason now)))
                r).1
      reasoned t = elim (Bool-cases (bad_reason host reason)) [
        | inl refused ↦ rw refused v
        | inr accepted ↦ rw accepted (opened_barrier c t reason now r v)
      ]

      stamped :
          (t : PyInt)
          → IsValid
              ((validate_timestamp t
                  >> (raise_if (bad_reason host reason) value_error
                      >> (refuse_blocked
                          >> (active_epoch >> block_with_barrier host c t reason now))))
                r).1
      stamped (int (pos n)) = reasoned (int (pos n))
      stamped (int (negsuc n)) = v
      stamped other = v

  -- A constructor that returns makes a valid recorder.
  pub init-IsValid :
      (tape_id : String) (normalized : List String → List String) (symbols : List String)
      (source : String) (size : PyInt) {r : Recorder fl}
      → init host tape_id normalized symbols source size ≡ ok r
      → IsValid r
  unfolding init
  init-IsValid tape_id normalized symbols source (int (pos n)) h = ground arith
  init-IsValid tape_id normalized symbols source (int (negsuc n)) h = cc
  init-IsValid tape_id normalized symbols source other h = cc
