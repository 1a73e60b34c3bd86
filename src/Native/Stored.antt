-- ===== src/Native/Stored.antt =====
-- kairos_quant/native_capture.py: what a session calls persisted, the sink holds.
use kairos_quant_scouts.Prelude.{
  ℕ, suc, ◌+◌, leb, ◌≡◌, refl, sym, Bool, true, false, not, ◌&&◌, List, [], ◌∷◌, Option, none, some,
  String, str_eq, eq_iff, if◌then◌else◌, arith, Bool-cases, inl, inr, ◌⊎◌, ltb,
}
use mathlib.Core.Path.{subst}
use kairos_quant_scouts.Prelude.Int.{ℤ}
use kairos_quant_scouts.Prelude.Text.{one_of}
use kairos_quant_scouts.Prelude.Result.{Result, ok, err}
use kairos_quant_scouts.Prelude.Action.{resume, modify, pure, raise_if}
use kairos_quant_scouts.Prelude.Triple.{After, After-resume}
use kairos_quant_scouts.Native.Text.{is_ws, PyText, Parsers, fixed_source}
use kairos_quant_scouts.Native.State.{
  CaptureError, EventKind, Parent, bad_arguments, bad_defer, bad_ws_fields, bad_rest_fields,
  bad_source, oversized, bad_ids, bad_output, bad_lineage, not_canonical, no_mapping, Answer,
  stored, returned_value, raised, maximum_record_bytes, Codec, Session, Capturing, staged, latched,
  records_exhausted, bytes_exhausted, fail, fail_if, wanted, ensure_healthy, next_sequence, fresh,
  written, answered, in_world, persist_reserved, persist, reserve, reserved,
}
use kairos_quant_scouts.Native.Calls.{
  SourceCall, DerivedCall, good_ws_fields, good_rest_fields, parents_of, profile_of,
}
use kairos_quant_scouts.Native.Capture.{
  source_arguments, deferred, staging, keep, source_record, derived_record, persist_derived,
  persist_source, capture_source, unstaging, flush_staged, flush_one, flush_all, selected,
  flush_sources, output_of, capture_derived_payload, Call, source, flush, derived, step, run,
}
use kairos_quant_scouts.Native.Lineage.{AllPersisted, flush_sources-AllPersisted}

-- What the code relies on of a create-only sink: once it has returned `None`, it holds a record under the
-- id, and it never loses one.
pub record IsSink (cd : Codec) (Holds : String → cd.W → Type 0) : Type 0 where
  pub storing :
      (id : String) (x : cd.B) (w v : cd.W) → cd.create_only id x w ≡ (stored, v) → Holds id v
  pub keeping :
      (id : String) (x : cd.B) (w v : cd.W) (a : Answer) (j : String)
      → cd.create_only id x w ≡ (a, v)
      → Holds j w
      → Holds j v

module _ {cd : Codec} {Holds : String → cd.W → Type 0} (law : IsSink cd Holds) where
  -- The sink holds what was persisted.
  abbrev pub IsBacked : Session cd → Type 0
  IsBacked s = (j : String) → one_of j s.persisted_ids ≡ true → Holds j s.world

  abbrev IsKept : {A : Type 0} → Result CaptureError A × Session cd → Type 0
  IsKept r = After (λ a t. IsBacked t) (λ e t. IsBacked t) r

  bound :
      {A B : Type 0} (r : Result CaptureError A × Session cd) (f : A → Capturing cd B)
      → IsKept r
      → ((a : A) (t : Session cd) → IsBacked t → IsKept (f a t))
      → IsKept (resume r f)
  bound r f h k = After-resume (λ a t. IsBacked t) (λ b t. IsBacked t) (λ e t. IsBacked t) r f h k

  fail_if-IsKept :
      (c : Bool) (e : CaptureError) (s : Session cd) → IsBacked s → IsKept (fail_if cd c e s)
  unfolding fail_if fail
  fail_if-IsKept true e s h = h
  fail_if-IsKept false e s h = h

  wanted-IsKept :
      {A : Type 0} (o : Option A) (e : CaptureError) (s : Session cd)
      → IsBacked s
      → IsKept (wanted cd o e s)
  unfolding wanted fail
  wanted-IsKept none e s h = h
  wanted-IsKept (some a) e s h = h

  ensure_healthy-IsKept : (s : Session cd) → IsBacked s → IsKept (ensure_healthy cd s)
  unfolding ensure_healthy
  ensure_healthy-IsKept s h = go s.failed
    where
      go : (b : Bool) → IsKept {A = Unit {0}} (if b then (err latched, s) else (ok tt, s))
      go true = h
      go false = h

  next_sequence-IsKept : (s : Session cd) → IsBacked s → IsKept (next_sequence cd s)
  unfolding next_sequence
  next_sequence-IsKept s h =
      let spent = leb s.maximum_records s.records in
      bound {B = ℕ} (fail_if cd spent records_exhausted s)
        (λ u t. (ok (suc t.sequence), record t { sequence = suc t.sequence }))
        (fail_if-IsKept spent records_exhausted s h) (λ u t k. k)

  reserve-IsKept : (x : cd.B) (s : Session cd) → IsBacked s → IsKept (reserve cd x s)
  unfolding reserve reserved
  reserve-IsKept x s h =
      let spent = leb s.maximum_records s.records in
      bound {B = Unit {0}} (fail_if cd spent records_exhausted s)
        (λ u t.
          resume (fail_if cd (ltb t.maximum_bytes (t.bytes_reserved + cd.size x)) bytes_exhausted t)
            (λ _. modify (reserved cd x)))
        (fail_if-IsKept spent records_exhausted s h)
        (λ u t k.
          let full = ltb t.maximum_bytes (t.bytes_reserved + cd.size x) in
          bound {B = Unit {0}} (fail_if cd full bytes_exhausted t) (λ _. modify (reserved cd x))
            (fail_if-IsKept full bytes_exhausted t k) (λ v r m. m))

  one_of-cases :
      (j id : String) (ids : List String)
      → one_of j (id ∷ ids) ≡ true
      → (j ≡ id) ⊎ (one_of j ids ≡ true)
  one_of-cases j id ids h = elim (Bool-cases (str_eq j id)) [
    | inl same ↦ inl ((eq_iff j id).0 same)
    | inr other ↦ inr (ground (arith, h, other))
  ]

  persist_reserved-IsKept :
      (id : String) (x : cd.B) (s : Session cd) → IsBacked s → IsKept (persist_reserved cd id x s)
  unfolding persist_reserved answered written in_world fail
  persist_reserved-IsKept id x s h = go (cd.create_only id x s.world) refl
    where
      put :
          (w : cd.W)
          → cd.create_only id x s.world ≡ (stored, w)
          → (b : Bool) (j : String)
          → one_of j (if b then s.persisted_ids else id ∷ s.persisted_ids) ≡ true
          → Holds j w
      put w e true j k = law.keeping id x s.world w stored j e (h j k)
      put w e false j k = elim (one_of-cases j id s.persisted_ids k) [
        | inl same ↦ subst (λ i. Holds i w) (sym same) (law.storing id x s.world w e)
        | inr before ↦ law.keeping id x s.world w stored j e (h j before)
      ]

      go :
          (r : Answer × cd.W)
          → cd.create_only id x s.world ≡ r
          → IsKept (answered cd r.0 id x (in_world cd r.1 s))
      go (stored, w) e = put w e (one_of id s.persisted_ids)
      go (returned_value, w) e = λ j k. law.keeping id x s.world w returned_value j e (h j k)
      go (raised, w) e = λ j k. law.keeping id x s.world w raised j e (h j k)

  persist-IsKept :
      (id : String) (x : cd.B) (s : Session cd) → IsBacked s → IsKept (persist cd id x s)
  unfolding persist
  persist-IsKept id x s h =
      bound (reserve cd x s) _ (reserve-IsKept x s h) (λ u t k. persist_reserved-IsKept id x t k)

  keep-IsKept :
      (defer : Bool) (id : String) (x : cd.B) (s : Session cd)
      → IsBacked s
      → IsKept (keep cd defer id x s)
  unfolding keep staging
  keep-IsKept true id x s h = h
  keep-IsKept false id x s h = persist_reserved-IsKept id x s h

  flush_one-IsKept : (id : String) (s : Session cd) → IsBacked s → IsKept (flush_one cd id s)
  unfolding flush_one flush_staged fail unstaging
  flush_one-IsKept id s h = go (one_of id s.persisted_ids) (staged cd id s.pending_sources)
    where
      go : (b : Bool) (o : Option cd.B) → IsKept (if b then (ok tt, s) else flush_staged cd id o s)
      go true o = h
      go false none = h
      go false (some x) =
          bound (persist_reserved cd id x s) (λ u. modify (unstaging cd id))
            (persist_reserved-IsKept id x s h) (λ u t k. k)

  flush_all-IsKept : (ids : List String) (s : Session cd) → IsBacked s → IsKept (flush_all cd ids s)
  unfolding flush_all
  flush_all-IsKept [] s h = h
  flush_all-IsKept (id ∷ ids) s h =
      bound (flush_one cd id s) (λ u. flush_all cd ids) (flush_one-IsKept id s h)
        (λ u t k. flush_all-IsKept ids t k)

  flush_sources-IsKept :
      (ids : Option (List PyText)) (s : Session cd) → IsBacked s → IsKept (flush_sources cd ids s)
  unfolding flush_sources
  flush_sources-IsKept ids s h = bound (ensure_healthy cd s) _ (ensure_healthy-IsKept s h) (λ u t k.
      bound (wanted cd (selected cd ids) bad_ids t) _ (wanted-IsKept (selected cd ids) bad_ids t k)
        (λ names v m. flush_all-IsKept names v m))

  persist_derived-IsKept :
      (id : String) (x : cd.B) (s : Session cd) → IsBacked s → IsKept (persist_derived cd id x s)
  unfolding persist_derived
  persist_derived-IsKept id x s h =
      let large = ltb maximum_record_bytes (cd.size x) in
      bound (fail_if cd large oversized s) _ (fail_if-IsKept large oversized s h)
        (λ u t k. bound (persist cd id x t) (λ v. pure id) (persist-IsKept id x t k) (λ v r m. m))

  capture_derived_payload-IsKept :
      (c : DerivedCall cd.P) (s : Session cd) → IsBacked s → IsKept (capture_derived_payload cd c s)
  unfolding capture_derived_payload
  capture_derived_payload-IsKept c s h =
      bound (ensure_healthy cd s) _ (ensure_healthy-IsKept s h) (λ u t k.
        bound (wanted cd (output_of cd c) bad_output t) _
          (wanted-IsKept (output_of cd c) bad_output t k)
          (λ out t1 k1.
            bound (wanted cd (parents_of c.parents) bad_lineage t1) _
              (wanted-IsKept (parents_of c.parents) bad_lineage t1 k1)
              (λ ps t2 k2.
                bound (wanted cd (profile_of c.replay_profile) bad_lineage t2) _
                  (wanted-IsKept (profile_of c.replay_profile) bad_lineage t2 k2)
                  (λ pr t3 k3.
                    bound (wanted cd (cd.encode_payload c.event_payload) not_canonical t3) _
                      (wanted-IsKept (cd.encode_payload c.event_payload) not_canonical t3 k3)
                      (λ b t4 k4.
                        bound (raise_if (not (cd.is_mapping c.event_payload)) no_mapping t4) _
                          (mapped (not (cd.is_mapping c.event_payload)) t4 k4)
                          (λ u5 t5 k5.
                            bound (wanted cd (encoded out ps pr b) not_canonical t5)
                              (persist_derived cd (cd.derived_id out.0 out.1))
                              (wanted-IsKept (encoded out ps pr b) not_canonical t5 k5)
                              (persist_derived-IsKept (cd.derived_id out.0 out.1))))))))
    where
      mapped :
          (b : Bool) (r : Session cd)
          → IsBacked r
          → IsKept (raise_if {S = Session cd} b no_mapping r)
      mapped true r k = k
      mapped false r k = k

      encoded :
          (out : EventKind × String × ℤ) (ps : List (String × Parent))
          (pr : Option (List (String × ℕ))) (b : cd.B)
          → Option cd.B
      encoded out ps pr b = cd.encode_derived (derived_record cd c.event_payload out ps pr b)

  module _ (ps : Parsers) where
    persist_source-IsKept :
        (defer : Bool) (x : cd.B) (s : Session cd)
        → IsBacked s
        → IsKept (persist_source cd ps defer x s)
    unfolding persist_source
    persist_source-IsKept defer x s h =
        let large = ltb maximum_record_bytes (cd.size x) in
        bound (fail_if cd large oversized s) _ (fail_if-IsKept large oversized s h) (λ u t k.
          bound (reserve cd x t) _ (reserve-IsKept x t k) (λ v r m.
            bound (keep cd defer (cd.source_id x) x r) (λ y. pure (cd.source_id x))
              (keep-IsKept defer (cd.source_id x) x r m) (λ y q z. z)))

    capture_source-IsKept :
        (c : SourceCall cd.B) (s : Session cd) → IsBacked s → IsKept (capture_source cd ps c s)
    unfolding capture_source
    capture_source-IsKept c s h =
        bound (ensure_healthy cd s) _ (ensure_healthy-IsKept s h) (λ u t k.
          bound (wanted cd (source_arguments cd c) bad_arguments t) _
            (wanted-IsKept (source_arguments cd c) bad_arguments t k)
            (λ (kind, url, body, at) t1 k1.
              let ws = is_ws kind && not (good_ws_fields c) in
              let rest = not (is_ws kind) && not (good_rest_fields c at) in
              let fixed = not (fixed_source ps kind url c.query_json c.route) in
              bound (wanted cd (deferred cd kind c.defer_persist) bad_defer t1) _
                (wanted-IsKept (deferred cd kind c.defer_persist) bad_defer t1 k1)
                (λ defer t2 k2.
                  bound (fail_if cd ws bad_ws_fields t2) _ (fail_if-IsKept ws bad_ws_fields t2 k2)
                    (λ u3 t3 k3.
                      bound (fail_if cd rest bad_rest_fields t3) _
                        (fail_if-IsKept rest bad_rest_fields t3 k3)
                        (λ u4 t4 k4.
                          bound (fail_if cd fixed bad_source t4) _
                            (fail_if-IsKept fixed bad_source t4 k4)
                            (λ u5 t5 k5.
                              bound (next_sequence cd t5) _ (next_sequence-IsKept t5 k5) (λ n t6 k6.
                                persist_source-IsKept defer
                                  (cd.encode_source
                                    (source_record cd c kind url body at t6.capture_epoch n))
                                  t6 k6)))))))

    after : {A : Type 0} (r : Result CaptureError A × Session cd) → IsKept r → IsBacked r.1
    after (ok a, t) h = h
    after (err e, t) h = h

    run-IsBacked :
        (cs : List (Call cd ps)) (s : Session cd) → IsBacked s → IsBacked (run cd ps cs s)
    unfolding run step
    run-IsBacked [] s h = h
    run-IsBacked (source c ∷ cs) s h =
        run-IsBacked cs _ (after (capture_source cd ps c s) (capture_source-IsKept c s h))
    run-IsBacked (flush ids ∷ cs) s h =
        run-IsBacked cs _ (after (flush_sources cd ids s) (flush_sources-IsKept ids s h))
    run-IsBacked (derived c ∷ cs) s h =
        run-IsBacked cs _
          (after (capture_derived_payload cd c s) (capture_derived_payload-IsKept c s h))

    fresh-IsBacked :
        (epoch : String) (records bytes : ℕ) (w : cd.W) → IsBacked (fresh cd epoch records bytes w)
    unfolding fresh
    fresh-IsBacked epoch records bytes w j h = cc h

    -- The sink holds a record under each of the names.
    abbrev pub AllHeld : List String → Session cd → Type 0
    AllHeld [] s = Unit
    AllHeld (id ∷ ids) s = Holds id s.world × AllHeld ids s

    held : (ids : List String) (s : Session cd) → IsBacked s → AllPersisted cd ids s → AllHeld ids s
    held [] s h p = tt
    held (id ∷ ids) s h (here, rest) = (h id here, held ids s h rest)

    returned :
        (r : Result CaptureError (Unit {0}) × Session cd) (t : Session cd)
        → r ≡ (ok tt, t)
        → IsKept r
        → IsBacked t
    returned (ok u, v) t e h = let eq : v ≡ t = cc e in subst (λ x. IsBacked x) eq h
    returned (err x, v) t e h = cc e

    -- Given a sink that holds a record under an id once it has returned `None` for it, and never loses
    -- one: after any sequence of calls in a new session, whether they returned or raised, when
    -- `flush_sources` returns, the sink holds a record under every selected id, and the same flush again
    -- returns at once and changes nothing, so it writes no record a second time.
    pub flush_sources-AllHeld :
        (epoch : String) (records bytes : ℕ) (w : cd.W) (cs : List (Call cd ps))
        (ids : Option (List PyText)) (names : List String) (t : Session cd)
        → selected cd ids ≡ some names
        → flush_sources cd ids (run cd ps cs (fresh cd epoch records bytes w)) ≡ (ok tt, t)
        → AllHeld names t × (flush_sources cd ids t ≡ (ok tt, t))
    flush_sources-AllHeld epoch records bytes w cs ids names t e k =
        let s = run cd ps cs (fresh cd epoch records bytes w) in
        let backed = returned (flush_sources cd ids s) t k (
          flush_sources-IsKept ids s (
            run-IsBacked cs (fresh cd epoch records bytes w)
              (fresh-IsBacked epoch records bytes w))) in
        let (kept, again) = flush_sources-AllPersisted cd ids names s t e k in
        (held names t backed kept, again)
