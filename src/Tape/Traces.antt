-- ===== src/Tape/Traces.antt =====
-- Whole runs of the recorder (kairos_quant/simulation_book.py): any sequence of method calls, with
-- the exceptions caught by the caller.
use kairos_quant_scouts.Prelude.{
  ℕ, zero, suc, ◌≡◌, refl, some, List, [], ◌∷◌, String, str_eq, drop, arith, not, sym, ◌∙◌, ap,
  Bool-cases, inl, inr,
}
use kairos_quant_scouts.Prelude.Int.{pos, negsuc}
use kairos_quant_scouts.Prelude.Result.{Result, err}
use kairos_quant_scouts.Prelude.Action.{◌>>◌, raise_if}
use kairos_quant_scouts.Floats.{Floats}
use kairos_quant_scouts.Tape.State.{
  PyInt, int, other, Continuity, TapeError, tape_blocked, value_error, Tape, Frame, Host, Recorder,
}
use kairos_quant_scouts.Tape.Ops.{
  begin_public_stream, acknowledge, validate_timestamp, refuse_blocked, active_epoch,
  block_with_barrier,
}
use kairos_quant_scouts.Tape.Capture.{
  Depth, is_source_gap, bad_reason, capture_depth, record_source_barrier,
}
use kairos_quant_scouts.Tape.Invariant.{IsValid, begin_public_stream-IsValid, acknowledge-IsValid}
use kairos_quant_scouts.Tape.Captures.{
  capture_depth-IsValid, record_source_barrier-IsValid, refuse_blocked_lem,
}

-- A call of a public method, with what the wall clock returns to it.
pub data Call (fl : Floats) : Type 0 where
  begin : PyInt → Call fl
  capture : Depth fl → PyInt → Call fl
  barrier : Continuity → PyInt → String → PyInt → Call fl
  ack : String → Call fl

drop_tail {ℓ} :
    {A : Type ℓ} {x : A} {ys : List A} (n : ℕ) (xs : List A)
    → x ∷ ys ≡ drop n xs
    → ys ≡ drop (suc n) xs
drop_tail zero xs e = rw (← e) refl
drop_tail (suc n) [] e = cc
drop_tail (suc n) (z ∷ zs) e = drop_tail n zs e

module _ {fl : Floats} (host : Host fl) where
  unfoldable pub apply : Call fl → Recorder fl → Recorder fl
  apply (begin t) r = (begin_public_stream t r).1
  apply (capture d now) r = (capture_depth host d now r).1
  apply (barrier c at reason now) r = (record_source_barrier host c at reason now r).1
  apply (ack sha) r = (acknowledge sha r).1

  unfoldable pub run : List (Call fl) → Recorder fl → Recorder fl
  unfolding apply
  run [] r = r
  run (c ∷ cs) r = run cs (apply c r)

  -- Any sequence of begins, captures, barriers and acknowledgements, whatever each call returns or
  -- raises, keeps a valid tape valid: the queue is bounded, its last slot stays free until the tape
  -- is blocked, the sequence numbers follow one another and the frames are linked by their hashes.
  pub run-IsValid : (cs : List (Call fl)) (r : Recorder fl) → IsValid r → IsValid (run cs r)
  unfolding run
  run-IsValid [] r v = v
  run-IsValid (begin t ∷ cs) r v =
      run-IsValid cs (begin_public_stream t r).1 (begin_public_stream-IsValid t r v)
  run-IsValid (capture d now ∷ cs) r v =
      run-IsValid cs (capture_depth host d now r).1 (capture_depth-IsValid host d now r v)
  run-IsValid (barrier c at reason now ∷ cs) r v =
      run-IsValid cs (record_source_barrier host c at reason now r).1
        (record_source_barrier-IsValid host c at reason now r v)
  run-IsValid (ack sha ∷ cs) r v =
      run-IsValid cs (acknowledge sha r).1 (acknowledge-IsValid sha r v)

  -- What a blocked tape keeps: all but the frames that were acknowledged.
  pub record IsFrozen (r s : Recorder fl) : Type 0 where
    pub reason : s.blocked_reason ≡ r.blocked_reason
    pub sequence : s.next_sequence ≡ r.next_sequence
    pub chain : s.previous_frame_sha256 ≡ r.previous_frame_sha256
    pub epochs : s.epoch_number ≡ r.epoch_number
    pub dropped : ℕ
    pub queue : s.pending ≡ drop dropped r.pending

  capture_blocked :
      (d : Depth fl) (now : PyInt) (r : Recorder fl) (reason : String)
      → r.blocked_reason ≡ some reason
      → capture_depth host d now r ≡ (err (tape_blocked reason), r)
  unfolding capture_depth
  capture_blocked d now r reason e = rw (refuse_blocked_lem r reason e)

  begin_blocked :
      (t : PyInt) (r : Recorder fl) (reason : String)
      → r.blocked_reason ≡ some reason
      → (begin_public_stream t r).1 ≡ r
  unfolding begin_public_stream
  begin_blocked (int t) r reason e = ground arith
  begin_blocked other r reason e = refl

  barrier_blocked :
      (c : Continuity) (at : PyInt) (why : String) (now : PyInt) (r : Recorder fl) (reason : String)
      → r.blocked_reason ≡ some reason
      → (record_source_barrier host c at why now r).1 ≡ r
  unfolding record_source_barrier validate_timestamp
  barrier_blocked c at why now r reason e = elim (Bool-cases (not (is_source_gap c))) [
    | inl refused ↦ rw refused
    | inr accepted ↦ rw accepted (stamped at)
  ]
    where
      reasoned :
          (k : Tape fl (Frame fl))
          → ((raise_if (bad_reason host why) value_error >> (refuse_blocked >> k)) r).1 ≡ r
      reasoned k = elim (Bool-cases (bad_reason host why)) [
        | inl refused ↦ rw refused
        | inr accepted ↦ rw accepted (rw (refuse_blocked_lem r reason e))
      ]

      stamped :
          (t : PyInt)
          → ((validate_timestamp t
                >> (raise_if (bad_reason host why) value_error
                    >> (refuse_blocked >> (active_epoch >> block_with_barrier host c at why now))))
              r).1
            ≡ r
      stamped (int (pos n)) = reasoned (active_epoch >> block_with_barrier host c at why now)
      stamped (int (negsuc n)) = refl
      stamped other = refl

  IsFrozen-refl : (r : Recorder fl) → IsFrozen r r
  IsFrozen-refl r = record {
    reason = refl;
    sequence = refl;
    chain = refl;
    epochs = refl;
    dropped = 0;
    queue = refl;
  }

  acknowledge-IsFrozen :
      (sha : String) (r s : Recorder fl) → IsFrozen r s → IsFrozen r (acknowledge sha s).1
  unfolding acknowledge
  acknowledge-IsFrozen sha r s f = go s.pending refl
    where
      go : (fs : List (Frame fl)) → s.pending ≡ fs → IsFrozen r (acknowledge sha s).1
      go [] e = rw (e, acknowledge) f
      go (g ∷ fs) e =
          rw (e, acknowledge)
            (elim (Bool-cases (str_eq sha g.frame_sha256)) [
              | inl match ↦ rw match (record {
                reason = f.reason;
                sequence = f.sequence;
                chain = f.chain;
                epochs = f.epochs;
                dropped = suc f.dropped;
                queue = drop_tail f.dropped r.pending (sym e ∙ f.queue);
              })
              | inr differs ↦ rw differs f
            ])

  apply-IsFrozen :
      (c : Call fl) (r s : Recorder fl) (reason : String)
      → s.blocked_reason ≡ some reason
      → IsFrozen r s
      → IsFrozen r (apply c s)
  unfolding apply
  apply-IsFrozen (begin t) r s reason e f = rw (begin_blocked t s reason e) f
  apply-IsFrozen (capture d now) r s reason e f =
      rw
        (ap (λ (x : Result TapeError (Frame fl) × Recorder fl). x.1)
          (capture_blocked d now s reason e))
        f
  apply-IsFrozen (barrier c at why now) r s reason e f =
      rw (barrier_blocked c at why now s reason e) f
  apply-IsFrozen (ack sha) r s reason e f = acknowledge-IsFrozen sha r s f

  IsFrozen-run :
      (cs : List (Call fl)) (r s : Recorder fl) (reason : String)
      → r.blocked_reason ≡ some reason
      → IsFrozen r s
      → IsFrozen r (run cs s)
  unfolding run
  IsFrozen-run [] r s reason e f = f
  IsFrozen-run (c ∷ cs) r s reason e f =
      IsFrozen-run cs r (apply c s) reason e (apply-IsFrozen c r s reason (f.reason ∙ e) f)

  -- A tape with a reason to be blocked keeps it through any sequence of calls: its next sequence
  -- number, last hash and epoch number stay, and its queue only loses frames at its head.
  pub run-IsFrozen :
      (cs : List (Call fl)) (r : Recorder fl) (reason : String)
      → r.blocked_reason ≡ some reason
      → IsFrozen r (run cs r)
  run-IsFrozen cs r reason e = IsFrozen-run cs r r reason e (IsFrozen-refl r)
