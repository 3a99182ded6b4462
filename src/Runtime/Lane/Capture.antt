-- ===== src/Runtime/Lane/Capture.antt =====
-- A run that succeeds on a lane with a graph id has captured its graph, and leaves the lane idle.
use st_zrt.Common.{
  ◌≡◌, refl, ◌∙◌, Bool, true, false, not, ◌&&◌, if◌then◌else◌, Result, ok, err, Bool-cases, inl,
  inr,
}
use st_zrt.Runtime.Lane.{
  Provider, Lane, LaneError, Outcome, is_ok, note_capture, clear_in_flight, or_device_fence,
  synchronize_completion, synchronize_outputs, settle_graph_run, run_bound_binding, mark_recorded,
  record_completion, enqueue_and_record, run_bound_binding_enqueued, prepare_inputs, and_then,
  run_then_synchronize, run_prepared, run, from_provider,
}

-- The lane has captured its graph and can be used.
pub record IsCaptured (l : Lane) : Type 0 where
  pub captured : l.graph_captured ≡ true
  pub idle : l.in_flight ≡ false

module _ {W E : Type 0} (p : Provider W E) where
  -- A call that succeeds leaves the lane with the property.
  unfoldable pub Succeeds : (Lane → Type 0) → Lane × W × Result (Unit {0}) (LaneError E) → Type 0
  Succeeds P o = is_ok o.2 ≡ true → P o.0

  settled_ok :
      (r : Result (Unit {0}) E) (l : Lane) (w : W) (guard retain : Bool) (P : Lane → Type 0)
      → P l
      → P (record l { in_flight_graph_guard = guard; in_flight = true })
      → Succeeds P (settle_graph_run p l w guard r retain)
  unfolding Succeeds settle_graph_run
  settled_ok (ok u) l w guard true P kept flying = λ _. flying
  settled_ok (ok u) l w guard false P kept flying = λ _. kept
  settled_ok (err e) l w guard retain P kept flying = λ h. absurd (cc (h))

  Succeeds-ok : (P : Lane → Type 0) (l : Lane) (w : W) → P l → Succeeds P (l, w, ok tt)
  unfolding Succeeds
  Succeeds-ok P l w h = λ _. h

  abbrev Captured : Lane → Type 0
  Captured l = l.graph_captured ≡ true

  noted_ok :
      (r : Result (Unit {0}) E) (l : Lane) (w : W) (guard : Bool)
      → l.graph_id ≡ true
      → Succeeds Captured (settle_graph_run p (note_capture l r) w guard r true)
  unfolding Succeeds settle_graph_run
  noted_ok (ok u) l w guard has = λ _. simp has
  noted_ok (err e) l w guard has = λ h. absurd (cc (h))

  completion_graph_id :
      (r : Result (Unit {0}) E) (l : Lane) (w : W)
      → (record_completion p l w r).0.graph_id ≡ l.graph_id
  unfolding record_completion mark_recorded
  completion_graph_id (err e) l w = refl
  completion_graph_id (ok u) l w = elim (Bool-cases (p.cuda && (l.device_inputs && l.graph_id))) [
    | inl event ↦ let (w', r) = p.record_event w in simp event (marked r w')
    | inr no_event ↦ simp no_event
  ]
    where
      marked : (r : Result (Unit {0}) E) (w' : W) → (mark_recorded p l w' r).0.graph_id ≡ l.graph_id
      marked (err e) w' = refl
      marked (ok u) w' = refl

  enqueued_ok :
      (l : Lane) (w : W)
      → l.graph_id ≡ true
      → l.in_flight ≡ false
      → Succeeds Captured (run_bound_binding_enqueued p l w)
  unfolding run_bound_binding_enqueued enqueue_and_record
  enqueued_ok l w has idle =
      let (w₁, r₁) = p.run_binding_unsynchronized w in
      let (l', w', r) = enqueue_and_record p l w in
      simp idle (noted_ok r l' w' l.graph_lease (completion_graph_id r₁ l w₁ ∙ has))

  -- The first part of `synchronize_outputs` gave `r`.
  fence_ok :
      (r : Result (Unit {0}) E) (l : Lane) (w : W)
      → l.graph_captured ≡ true
      → let (w', fenced) = or_device_fence p l w (is_ok r) in
        Succeeds IsCaptured (if fenced then clear_in_flight p.cuda l else l, w', from_provider p r)
  unfolding Succeeds or_device_fence
  fence_ok (ok u) l w captured = λ _. elim (Bool-cases p.cuda) [
    | inl on ↦ simp on (record { captured = captured; idle = refl })
    | inr off ↦ simp off (record { captured = captured; idle = refl })
  ]
  fence_ok (err e) l w captured = λ h. absurd (cc (h))

  synchronized_ok :
      (l : Lane) (w : W) → l.graph_captured ≡ true → Succeeds IsCaptured (synchronize_outputs p l w)
  unfolding synchronize_outputs
  synchronized_ok l w captured = elim (Bool-cases l.in_flight) [
    | inl flying ↦
        let (w₁, r) = synchronize_completion p l w in simp flying (fence_ok r l w₁ captured)
    | inr idle ↦
        simp idle (Succeeds-ok IsCaptured l w (record { captured = captured; idle = idle }))
  ]

  and_then_ok :
      (P Q : Lane → Type 0) (r : Result (Unit {0}) (LaneError E)) (l : Lane) (w : W)
      (next : Lane → W → Outcome p (Unit {0}))
      → (is_ok r ≡ true → P l)
      → (P l → Succeeds Q (next l w))
      → Succeeds Q (and_then p l w r next)
  unfolding Succeeds and_then
  and_then_ok P Q (ok u) l w next before after = after (before refl)
  and_then_ok P Q (err e) l w next before after = λ h. absurd (cc (h))

  enqueued_synchronized :
      (l : Lane) (w : W)
      → l.graph_id ≡ true
      → l.in_flight ≡ false
      → Succeeds IsCaptured (run_then_synchronize p l w)
  unfolding run_then_synchronize Succeeds
  enqueued_synchronized l w has idle =
      let (l', w', r) = run_bound_binding_enqueued p l w in
      and_then_ok Captured IsCaptured r l' w' (synchronize_outputs p) (enqueued_ok l w has idle)
        (synchronized_ok l' w')

  bound_ok :
      (r : Result (Unit {0}) E) (l : Lane) (w : W) (guard : Bool)
      → l.graph_id ≡ true
      → l.in_flight ≡ false
      → Succeeds IsCaptured (settle_graph_run p (note_capture l r) w guard r false)
  unfolding Succeeds settle_graph_run
  bound_ok (ok u) l w guard has idle = λ _. simp has (record { captured = refl; idle = idle })
  bound_ok (err e) l w guard has idle = λ h. absurd (cc (h))

  with_options :
      (b : Bool) (x y : Outcome p (Unit {0}))
      → b ≡ true
      → Succeeds IsCaptured y
      → Succeeds IsCaptured (if not b then x else y)
  with_options true x y e h = h
  with_options false x y e h = absurd (cc (e))

  bound_run :
      (l : Lane) (w : W)
      → l.graph_id ≡ true
      → l.run_opts ≡ true
      → l.in_flight ≡ false
      → Succeeds IsCaptured (run_bound_binding p l w)
  unfolding run_bound_binding
  bound_run l w has opts idle =
      let (w', r) = p.run_binding_with w in
      with_options l.run_opts _ _ opts (bound_ok r l w' l.graph_lease has idle)

  prepared_ok :
      (l : Lane) (w : W)
      → l.graph_id ≡ true
      → l.run_opts ≡ true
      → l.in_flight ≡ false
      → Succeeds IsCaptured (run_prepared p l w)
  unfolding run_prepared
  prepared_ok l w has opts idle = elim (Bool-cases (p.cuda && (l.device_inputs && l.graph_id))) [
    | inl event ↦ simp event (enqueued_synchronized l w has idle)
    | inr plain ↦ simp plain (bound_run l w has opts idle)
  ]

  -- A run that succeeds on an idle lane with a graph id and its run options, the capture run or a later
  -- one, leaves the lane idle and its graph captured.
  pub run-IsCaptured :
      (l : Lane) (w : W)
      → l.graph_id ≡ true
      → l.run_opts ≡ true
      → l.in_flight ≡ false
      → Succeeds IsCaptured (run p l w)
  unfolding run
  run-IsCaptured l w has opts idle =
      let (w', r) = prepare_inputs p l w in
      simp idle (
        and_then_ok (λ _. Unit {0}) IsCaptured r l w' (run_prepared p) (λ _. tt)
          (λ _. prepared_ok l w' has opts idle))
