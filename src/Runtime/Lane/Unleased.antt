-- ===== src/Runtime/Lane/Unleased.antt =====
-- The failing run of a lane that has no captured-graph lease.
use st_zrt.Common.{◌≡◌, refl, ◌∙◌, Bool, true, false, ◌&&◌, Result, ok, err, Bool-cases, inl, inr}
use st_zrt.Runtime.Lane.{
  Provider, Lane, LaneError, is_ok, note_capture, or_device_fence, settle_graph_run,
  fence_or_retain_graph_guard, record_completion, mark_recorded, enqueue_and_record,
  run_bound_binding_enqueued, run_enqueued, and_then, prepare_inputs,
}

module _ {W E : Type 0} (p : Provider W E) where
  -- A failed call has left the lane idle.
  IdleOnError : Lane × W × Result (Unit {0}) (LaneError E) → Type 0
  IdleOnError o = is_ok o.2 ≡ false → o.0.in_flight ≡ false

  settled_idle :
      (r : Result (Unit {0}) E) (l : Lane) (w : W) (guard : Bool)
      → l.in_flight ≡ false
      → guard ≡ false
      → IdleOnError (settle_graph_run p l w guard r true)
  unfolding settle_graph_run fence_or_retain_graph_guard IdleOnError
  settled_idle (ok u) l w guard idle no_guard failed = absurd (cc (failed))
  settled_idle (err e) l w guard idle no_guard failed =
      let (w', r) = p.synchronize_bound_outputs w in
      elim (Bool-cases (or_device_fence p l w' (is_ok r)).1) [
        | inl fenced ↦ simp fenced
        | inr unfenced ↦ simp (unfenced, no_guard) idle
      ]

  completion_in_flight :
      (r : Result (Unit {0}) E) (l : Lane) (w : W)
      → (record_completion p l w r).0.in_flight ≡ l.in_flight
  unfolding record_completion mark_recorded
  completion_in_flight (err e) l w = refl
  completion_in_flight (ok u) l w = elim (Bool-cases (p.cuda && (l.device_inputs && l.graph_id))) [
    | inl event ↦ let (w', r) = p.record_event w in simp event (marked r w')
    | inr no_event ↦ simp no_event
  ]
    where
      marked :
          (r : Result (Unit {0}) E) (w' : W) → (mark_recorded p l w' r).0.in_flight ≡ l.in_flight
      marked (err e) w' = refl
      marked (ok u) w' = refl

  noted_in_flight :
      (l : Lane) (r : Result (Unit {0}) E) → (note_capture l r).in_flight ≡ l.in_flight
  noted_in_flight l r = elim (Bool-cases (l.graph_id && is_ok r)) [
    | inl captured ↦ simp captured
    | inr same ↦ simp same
  ]

  enqueued_idle :
      (l : Lane) (w : W)
      → l.graph_lease ≡ false
      → l.in_flight ≡ false
      → IdleOnError (run_bound_binding_enqueued p l w)
  unfolding run_bound_binding_enqueued enqueue_and_record
  enqueued_idle l w unleased idle =
      let (w₁, r₁) = p.run_binding_unsynchronized w in
      let (l', w', r) = enqueue_and_record p l w in
      simp idle (
        settled_idle r (note_capture l' r) w' l.graph_lease
          (noted_in_flight l' r ∙ completion_in_flight r₁ l w₁ ∙ idle) unleased)

  and_then_idle :
      (r : Result (Unit {0}) (LaneError E)) (l : Lane) (w : W)
      → l.graph_lease ≡ false
      → l.in_flight ≡ false
      → IdleOnError (and_then p l w r (run_bound_binding_enqueued p))
  unfolding and_then IdleOnError
  and_then_idle (err e) l w unleased idle failed = idle
  and_then_idle (ok u) l w unleased idle failed = enqueued_idle l w unleased idle failed

  -- An enqueued run that fails on an idle lane without a graph lease leaves the lane idle, so that it
  -- can be used again, whether or not a fence after the failure succeeded.
  pub unleased_error_idle :
      (l : Lane) (w : W)
      → l.graph_lease ≡ false
      → l.in_flight ≡ false
      → is_ok (run_enqueued p l w).2 ≡ false
      → (run_enqueued p l w).0.in_flight ≡ false
  unfolding run_enqueued IdleOnError
  unleased_error_idle l w unleased idle failed =
      let (w', r) = prepare_inputs p l w in
      simp idle (and_then_idle r l w' unleased idle (simp idle at failed))
