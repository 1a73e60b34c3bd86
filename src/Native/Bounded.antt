-- ===== src/Native/Bounded.antt =====
-- kairos_quant/native_capture.py: every call keeps the budgets of its session.
use kairos_quant_scouts.Prelude.{
  ℕ, suc, ◌+◌, ◌≤◌, ◌≡◌, refl, ap, Bool, true, false, not, ◌&&◌, List, [], ◌∷◌, Option, none, some,
  String, str_eq, ltb, length, if◌then◌else◌, arith, Bool-cases, inl, inr,
}
use kairos_quant_scouts.Prelude.Int.{ℤ}
use kairos_quant_scouts.Prelude.Text.{one_of}
use kairos_quant_scouts.Prelude.Result.{Result, ok, err, ok_injective}
use kairos_quant_scouts.Prelude.Action.{resume, modify, pure, raise_if}
use kairos_quant_scouts.Prelude.Triple.{After, After-resume}
use kairos_quant_scouts.Native.Text.{is_id, is_ws, PyText, Parsers, fixed_source}
use kairos_quant_scouts.Native.State.{
  CaptureError, EventKind, Parent, bad_arguments, bad_defer, bad_ws_fields, bad_rest_fields,
  bad_source, oversized, bad_ids, never_staged, bad_output, bad_lineage, not_canonical, no_mapping,
  sink_failed, sink_returned, Answer, stored, returned_value, raised, maximum_record_bytes, Codec,
  Session, Capturing, stage, staged, unstage, total_size, fail_if, wanted, ensure_healthy,
  next_sequence, no_sink, bad_record_limit, bad_byte_limit, bad_epoch, maximum_capture_records,
  maximum_capture_bytes, fresh, out_of_bound, number_of, name_of, init, written, answered, in_world,
  persist_reserved, persist, reserve,
}
use kairos_quant_scouts.Native.Calls.{
  SourceCall, DerivedCall, good_ws_fields, good_rest_fields, parents_of, profile_of,
}
use kairos_quant_scouts.Native.Capture.{
  source_arguments, deferred, staging, keep, source_record, derived_record, persist_derived,
  persist_source, capture_source, unstaging, flush_staged, flush_one, flush_all, selected,
  flush_sources, output_of, capture_derived_payload, Call, source, flush, derived, step, run,
}
use kairos_quant_scouts.Native.Budget.{
  HasRoom, IsBudgeted, IsLatched, fail-IsLatched, wanted-HasRoom, ensure_healthy-IsBudgeted,
  next_sequence-IsBudgeted, reserve-HasRoom, persist_reserved-IsBudgeted, persist-IsBudgeted,
  in_world-HasRoom,
}

module _ (cd : Codec) where
  -- A call that keeps the budgets and, if it raises, latches the session, but for a payload that is no
  -- mapping.
  abbrev pub IsKept : {A : Type 0} → Result CaptureError A × Session cd → Type 0
  IsKept r = After (λ a t. IsBudgeted cd t) (IsLatched cd) r

  IsKept-bind :
      {A B : Type 0} (r : Result CaptureError A × Session cd) (f : A → Capturing cd B)
      → IsKept r
      → ((a : A) (t : Session cd) → IsBudgeted cd t → IsKept (f a t))
      → IsKept (resume r f)
  IsKept-bind r f h k =
      After-resume (λ a t. IsBudgeted cd t) (λ b t. IsBudgeted cd t) (IsLatched cd) r f h k

  fail_if-IsKept :
      (c : Bool) (e : CaptureError) (s : Session cd) → IsBudgeted cd s → IsKept (fail_if cd c e s)
  unfolding fail_if
  fail_if-IsKept true e s h = fail-IsLatched cd {A = Unit {0}} (λ u t. IsBudgeted cd t) 0 0 e s h
  fail_if-IsKept false e s h = h

  stage-length :
      (id : String) (x : cd.B) (items : List (String × cd.B))
      → (length (stage cd id x items) ≤ suc (length items))
        × (total_size cd (stage cd id x items) ≤ total_size cd items + cd.size x)
  unfolding stage total_size
  stage-length id x [] = (omega arith, omega arith)
  stage-length id x ((k, v) ∷ items) = elim (Bool-cases (str_eq k id)) [
    | inl e ↦ rw e (omega arith, omega arith)
    | inr e ↦ let (p, q) = stage-length id x items in rw e (omega (arith, p), omega (arith, q))
  ]

  keep-IsKept :
      (defer : Bool) (id : String) (x : cd.B) (s : Session cd)
      → HasRoom cd 1 (cd.size x) s
      → IsKept (keep cd defer id x s)
  unfolding keep staging
  keep-IsKept true id x s h =
      let (p, q) = stage-length id x s.pending_sources in
      record {
        counted = omega (arith, h.counted, p);
        limited = h.limited;
        stored = omega (arith, h.stored, q);
        bounded = h.bounded;
        few = h.few;
        small = h.small;
      }
  keep-IsKept false id x s h = persist_reserved-IsBudgeted cd id x s h

  sized : (v x : cd.B) → Path (Option cd.B) (some v) (some x) → cd.size v ≡ cd.size x
  sized v x e = let eq : v ≡ x = cc e in ap cd.size eq

  unstage-length :
      (id : String) (x : cd.B) (items : List (String × cd.B))
      → staged cd id items ≡ some x
      → (length (unstage cd id items) + 1 ≡ length items)
        × (total_size cd (unstage cd id items) + cd.size x ≡ total_size cd items)
  unfolding staged unstage total_size
  unstage-length id x [] h = cc
  unstage-length id x ((k, v) ∷ items) h = go (str_eq k id) h (λ e. unstage-length id x items e)
    where
      go :
          (b : Bool)
          → (if b then some v else staged cd id items) ≡ some x
          → (staged cd id items ≡ some x
              → (length (unstage cd id items) + 1 ≡ length items)
                × (total_size cd (unstage cd id items) + cd.size x ≡ total_size cd items))
          → (length (if b then items else (k, v) ∷ unstage cd id items) + 1 ≡ suc (length items))
            × (total_size cd (if b then items else (k, v) ∷ unstage cd id items) + cd.size x
                ≡ cd.size v + total_size cd items)
      go true e rest =
          let same : cd.size v ≡ cd.size x = sized v x e in (omega arith, omega (arith, same))
      go false e rest = let (p, q) = rest e in (omega (arith, p), omega (arith, q))

  answered-unstaging :
      (a : Answer) (id : String) (x : cd.B) (s : Session cd)
      → staged cd id s.pending_sources ≡ some x
      → IsBudgeted cd s
      → IsKept (resume (answered cd a id x s) (λ u. modify (unstaging cd id)))
  unfolding answered written unstaging
  answered-unstaging stored id x s e h =
      let (p, q) = unstage-length id x s.pending_sources e in
      record {
        counted = omega (arith, h.counted, p);
        limited = h.limited;
        stored = omega (arith, h.stored, q);
        bounded = h.bounded;
        few = h.few;
        small = h.small;
      }
  answered-unstaging returned_value id x s e h =
      fail-IsLatched cd {A = Unit {0}} (λ u t. IsBudgeted cd t) 0 0 sink_returned s h
  answered-unstaging raised id x s e h =
      fail-IsLatched cd {A = Unit {0}} (λ u t. IsBudgeted cd t) 0 0 sink_failed s h

  flush_staged-IsKept :
      (id : String) (o : Option cd.B) (s : Session cd)
      → staged cd id s.pending_sources ≡ o
      → IsBudgeted cd s
      → IsKept (flush_staged cd id o s)
  unfolding flush_staged persist_reserved in_world
  flush_staged-IsKept id none s e h =
      fail-IsLatched cd {A = Unit {0}} (λ u t. IsBudgeted cd t) 0 0 never_staged s h
  flush_staged-IsKept id (some x) s e h =
      let (answer, w) = cd.create_only id x s.world in
      answered-unstaging answer id x (in_world cd w s) e (in_world-HasRoom cd w s h)

  flush_one-IsKept : (id : String) (s : Session cd) → IsBudgeted cd s → IsKept (flush_one cd id s)
  unfolding flush_one
  flush_one-IsKept id s h = go (one_of id s.persisted_ids)
    where
      go :
          (b : Bool)
          → IsKept (if b then (ok tt, s) else flush_staged cd id (staged cd id s.pending_sources) s)
      go true = h
      go false = flush_staged-IsKept id (staged cd id s.pending_sources) s refl h

  flush_all-IsKept :
      (ids : List String) (s : Session cd) → IsBudgeted cd s → IsKept (flush_all cd ids s)
  unfolding flush_all
  flush_all-IsKept [] s h = h
  flush_all-IsKept (id ∷ ids) s h =
      IsKept-bind (flush_one cd id s) (λ u. flush_all cd ids) (flush_one-IsKept id s h)
        (λ u t. flush_all-IsKept ids t)

  pub flush_sources-IsKept :
      (ids : Option (List PyText)) (s : Session cd)
      → IsBudgeted cd s
      → IsKept (flush_sources cd ids s)
  unfolding flush_sources
  flush_sources-IsKept ids s h =
      IsKept-bind (ensure_healthy cd s) _ (ensure_healthy-IsBudgeted cd s h) (λ u t w.
        IsKept-bind (wanted cd (selected cd ids) bad_ids t) _
          (wanted-HasRoom cd 0 0 (selected cd ids) bad_ids t w)
          (λ names v. flush_all-IsKept names v))

  persist_derived-IsKept :
      (id : String) (x : cd.B) (s : Session cd)
      → IsBudgeted cd s
      → IsKept (persist_derived cd id x s)
  unfolding persist_derived
  persist_derived-IsKept id x s h =
      IsKept-bind (fail_if cd (ltb maximum_record_bytes (cd.size x)) oversized s) _
        (fail_if-IsKept (ltb maximum_record_bytes (cd.size x)) oversized s h)
        (λ u t w.
          IsKept-bind (persist cd id x t) (λ v. pure id) (persist-IsBudgeted cd id x t w)
            (λ v r k. k))

  capture_derived_payload-IsKept :
      (c : DerivedCall cd.P) (s : Session cd)
      → IsBudgeted cd s
      → IsKept (capture_derived_payload cd c s)
  unfolding capture_derived_payload
  capture_derived_payload-IsKept c s h =
      IsKept-bind (ensure_healthy cd s) _ (ensure_healthy-IsBudgeted cd s h) (λ u t w.
        IsKept-bind (wanted cd (output_of cd c) bad_output t) _
          (wanted-HasRoom cd 0 0 (output_of cd c) bad_output t w)
          (λ out t1 w1.
            IsKept-bind (wanted cd (parents_of c.parents) bad_lineage t1) _
              (wanted-HasRoom cd 0 0 (parents_of c.parents) bad_lineage t1 w1)
              (λ ps t2 w2.
                IsKept-bind (wanted cd (profile_of c.replay_profile) bad_lineage t2) _
                  (wanted-HasRoom cd 0 0 (profile_of c.replay_profile) bad_lineage t2 w2)
                  (λ pr t3 w3.
                    IsKept-bind (wanted cd (cd.encode_payload c.event_payload) not_canonical t3) _
                      (wanted-HasRoom cd 0 0 (cd.encode_payload c.event_payload) not_canonical t3
                        w3)
                      (λ b t4 w4.
                        IsKept-bind (raise_if (not (cd.is_mapping c.event_payload)) no_mapping t4) _
                          (mapped (not (cd.is_mapping c.event_payload)) t4 w4)
                          (λ u5 t5 w5.
                            IsKept-bind (wanted cd (encoded c out ps pr b) not_canonical t5)
                              (persist_derived cd (cd.derived_id out.0 out.1))
                              (wanted-HasRoom cd 0 0 (encoded c out ps pr b) not_canonical t5 w5)
                              (persist_derived-IsKept (cd.derived_id out.0 out.1))))))))
    where
      mapped :
          (c : Bool) (s : Session cd)
          → IsBudgeted cd s
          → IsKept (raise_if {S = Session cd} c no_mapping s)
      mapped true s h = (h, inr refl)
      mapped false s h = h

      encoded :
          (c : DerivedCall cd.P) (out : EventKind × String × ℤ) (ps : List (String × Parent))
          (pr : Option (List (String × ℕ))) (b : cd.B)
          → Option cd.B
      encoded c out ps pr b = cd.encode_derived (derived_record cd c.event_payload out ps pr b)

module _ (cd : Codec) (ps : Parsers) where
  persist_source-IsKept :
      (defer : Bool) (x : cd.B) (s : Session cd)
      → IsBudgeted cd s
      → IsKept cd (persist_source cd ps defer x s)
  unfolding persist_source
  persist_source-IsKept defer x s h =
      IsKept-bind cd (fail_if cd (ltb maximum_record_bytes (cd.size x)) oversized s) _
        (fail_if-IsKept cd (ltb maximum_record_bytes (cd.size x)) oversized s h)
        (λ u t w.
          After-resume (λ v r. HasRoom cd 1 (cd.size x) r) (λ a r. IsBudgeted cd r) (IsLatched cd)
            (reserve cd x t) _ (reserve-HasRoom cd x t w)
            (λ v r k.
              IsKept-bind cd (keep cd defer (cd.source_id x) x r) (λ y. pure (cd.source_id x))
                (keep-IsKept cd defer (cd.source_id x) x r k) (λ y q z. z)))

  capture_source-IsKept :
      (c : SourceCall cd.B) (s : Session cd)
      → IsBudgeted cd s
      → IsKept cd (capture_source cd ps c s)
  unfolding capture_source
  capture_source-IsKept c s h =
      IsKept-bind cd (ensure_healthy cd s) _ (ensure_healthy-IsBudgeted cd s h) (λ u t w.
        IsKept-bind cd (wanted cd (source_arguments cd c) bad_arguments t) _
          (wanted-HasRoom cd 0 0 (source_arguments cd c) bad_arguments t w)
          (λ (kind, url, body, at) t1 w1.
            let ws = is_ws kind && not (good_ws_fields c) in
            let rest = not (is_ws kind) && not (good_rest_fields c at) in
            let fixed = not (fixed_source ps kind url c.query_json c.route) in
            IsKept-bind cd (wanted cd (deferred cd kind c.defer_persist) bad_defer t1) _
              (wanted-HasRoom cd 0 0 (deferred cd kind c.defer_persist) bad_defer t1 w1)
              (λ defer t2 w2.
                IsKept-bind cd (fail_if cd ws bad_ws_fields t2) _
                  (fail_if-IsKept cd ws bad_ws_fields t2 w2)
                  (λ u3 t3 w3.
                    IsKept-bind cd (fail_if cd rest bad_rest_fields t3) _
                      (fail_if-IsKept cd rest bad_rest_fields t3 w3)
                      (λ u4 t4 w4.
                        IsKept-bind cd (fail_if cd fixed bad_source t4) _
                          (fail_if-IsKept cd fixed bad_source t4 w4)
                          (λ u5 t5 w5.
                            IsKept-bind cd (next_sequence cd t5) _
                              (next_sequence-IsBudgeted cd t5 w5)
                              (λ n t6 w6.
                                persist_source-IsKept defer
                                  (cd.encode_source
                                    (source_record cd c kind url body at t6.capture_epoch n))
                                  t6 w6)))))))

  -- What holds of the state after a call, whether it returned or raised.
  after : {A : Type 0} (r : Result CaptureError A × Session cd) → IsKept cd r → IsBudgeted cd r.1
  after (ok a, t) h = h
  after (err e, t) h = h.0

  step-IsBudgeted :
      (c : Call cd ps) (s : Session cd) → IsBudgeted cd s → IsBudgeted cd (step cd ps c s)
  unfolding step
  step-IsBudgeted (source c) s h = after (capture_source cd ps c s) (capture_source-IsKept c s h)
  step-IsBudgeted (flush ids) s h = after (flush_sources cd ids s) (flush_sources-IsKept cd ids s h)
  step-IsBudgeted (derived c) s h =
      after (capture_derived_payload cd c s) (capture_derived_payload-IsKept cd c s h)

  run-IsBudgeted :
      (cs : List (Call cd ps)) (s : Session cd) → IsBudgeted cd s → IsBudgeted cd (run cd ps cs s)
  unfolding run
  run-IsBudgeted [] s h = h
  run-IsBudgeted (c ∷ cs) s h = run-IsBudgeted cs (step cd ps c s) (step-IsBudgeted c s h)

  fresh-IsBudgeted :
      (epoch : String) (records bytes : ℕ) (w : cd.W)
      → records ≤ maximum_capture_records
      → bytes ≤ maximum_capture_bytes
      → IsBudgeted cd (fresh cd epoch records bytes w)
  unfolding fresh total_size
  fresh-IsBudgeted epoch records bytes w p q = record {
    counted = omega arith;
    limited = omega arith;
    stored = omega arith;
    bounded = omega arith;
    few = p;
    small = q;
  }

  in_bound : (bound : ℕ) (o : Option ℕ) → out_of_bound cd bound o ≡ false → number_of cd o ≤ bound
  unfolding out_of_bound
  in_bound bound none h = cc
  in_bound bound (some n) h = ground (arith, h)

  init-IsBudgeted :
      (has : Bool) (records bytes : Option ℕ) (epoch : PyText) (w : cd.W) (s : Session cd)
      → init cd has records bytes epoch w ≡ ok s
      → IsBudgeted cd s
  unfolding init
  init-IsBudgeted has records bytes epoch w s h =
      go (not has) (out_of_bound cd maximum_capture_records records)
        (out_of_bound cd maximum_capture_bytes bytes) (not (is_id epoch)) refl refl h
    where
      start : Session cd
      start = fresh cd (name_of cd epoch) (number_of cd records) (number_of cd bytes) w

      go :
          (a b c d : Bool)
          → out_of_bound cd maximum_capture_records records ≡ b
          → out_of_bound cd maximum_capture_bytes bytes ≡ c
          → (if a
              then err no_sink
              else if b
              then err bad_record_limit
              else if c
              then err bad_byte_limit
              else if d
              then err bad_epoch
              else ok start)
            ≡ ok s
          → IsBudgeted cd s
      go true b c d p q k = cc
      go false true c d p q k = cc
      go false false true d p q k = cc
      go false false false true p q k = cc
      go false false false false p q k =
          let eq = ok_injective k in
          rw (← eq) (
            fresh-IsBudgeted (name_of cd epoch) (number_of cd records) (number_of cd bytes) w
              (in_bound maximum_capture_records records p) (in_bound maximum_capture_bytes bytes q))

  -- A capture session stays within its budgets, whatever the sink, the sources and the events are. From
  -- the constructor on, through any sequence of captured sources, flushes and derived events, each of
  -- which may raise: the records and bytes that are written or staged are within the reserved ones,
  -- these are within the limits of the session, and the limits are within 8,000 records and 64 MiB.
  pub run-IsBudgeted-init :
      (has : Bool) (records bytes : Option ℕ) (epoch : PyText) (w : cd.W) (s : Session cd)
      (cs : List (Call cd ps))
      → init cd has records bytes epoch w ≡ ok s
      → IsBudgeted cd (run cd ps cs s)
  run-IsBudgeted-init has records bytes epoch w s cs h =
      run-IsBudgeted cs s (init-IsBudgeted has records bytes epoch w s h)
