-- ===== src/Runtime/Lane/Fence.antt =====
-- What is assumed of the provider, and when a fence of a lane has left no run behind.
use st_zrt.Common.{
  ℕ, zero, suc, ◌≡◌, Bool, true, not, ◌&&◌, ◌||◌, ok, Bool-cases, Result-cases, inl, inr,
}
use st_zrt.Runtime.Lane.{
  Provider, Lane, is_ok, try_device_fence_after_sync_error, or_device_fence, synchronize_completion,
  bind_inputs, copy_inputs, rebind_host_inputs_if_needed, refresh_device_inputs, prepare_inputs,
}

-- `Quiet w`: no run that was started on the lane still executes. `Recorded w`: the completion event
-- stands behind every run started.
pub record Fences {W E : Type 0} (p : Provider W E) (Quiet Recorded : W → Type 0) : Type 0 where
  -- A run with options synchronises the execution providers at its end.
  pub run_ends : (w : W) → is_ok (p.run_binding_with w).1 ≡ true → Quiet (p.run_binding_with w).0
  pub event_records : (w : W) → is_ok (p.record_event w).1 ≡ true → Recorded (p.record_event w).0
  pub event_waits :
      (w : W)
      → Recorded w
      → is_ok (p.synchronize_event w).1 ≡ true
      → Quiet (p.synchronize_event w).0
  pub event_stays : (w : W) → Recorded w → Recorded (p.synchronize_event w).0
  pub event_tells :
      (w : W) → Recorded w → (p.event_is_complete w).1 ≡ ok true → Quiet (p.event_is_complete w).0
  pub query_stays : (w : W) → Recorded w → Recorded (p.event_is_complete w).0
  pub outputs_wait :
      (w : W)
      → is_ok (p.synchronize_bound_outputs w).1 ≡ true
      → Quiet (p.synchronize_bound_outputs w).0
  pub device_waits :
      (w : W) → is_ok (p.device_synchronize w).1 ≡ true → Quiet (p.device_synchronize w).0
  pub device_stays : (w : W) → Recorded w → Recorded (p.device_synchronize w).0
  pub activate_stays : (w : W) → Recorded w → Recorded (p.activate_device w).0
  -- Nothing but a run starts a run.
  pub clear_quiet : (w : W) → Quiet w → Quiet (p.clear_inputs w)
  pub bind_quiet : (i : ℕ) (w : W) → Quiet w → Quiet (p.bind_input i w).0
  pub activate_quiet : (w : W) → Quiet w → Quiet (p.activate_device w).0
  pub copy_quiet : (i : ℕ) (w : W) → Quiet w → Quiet (p.copy_input i w).0

module _ {W E : Type 0} {p : Provider W E} {Quiet Recorded : W → Type 0}
    (f : Fences p Quiet Recorded) where
  device_fence-Quiet :
      (l : Lane) (w : W)
      → (try_device_fence_after_sync_error p l w).1 ≡ true
      → Quiet (try_device_fence_after_sync_error p l w).0
  unfolding try_device_fence_after_sync_error
  device_fence-Quiet l w e = elim (Bool-cases l.cuda_device_id) [
    | inr none_there ↦ absurd (cc (rw (try_device_fence_after_sync_error, none_there) at e))
    | inl there ↦ elim (Result-cases (p.activate_device w).1) [
      | inr (x, bad) ↦ absurd (cc (rw (try_device_fence_after_sync_error, there, bad) at e))
      | inl (u, good) ↦
          rw (try_device_fence_after_sync_error, there, good)
            (f.device_waits (p.activate_device w).0
              (rw (try_device_fence_after_sync_error, there, good) at e))
    ]
  ]

  device_fence_stays :
      (l : Lane) (w : W) → Recorded w → Recorded (try_device_fence_after_sync_error p l w).0
  unfolding try_device_fence_after_sync_error
  device_fence_stays l w r = elim (Bool-cases l.cuda_device_id) [
    | inr none_there ↦ rw (try_device_fence_after_sync_error, none_there) r
    | inl there ↦ elim (Result-cases (p.activate_device w).1) [
      | inr (x, bad) ↦ rw (try_device_fence_after_sync_error, there, bad) (f.activate_stays w r)
      | inl (u, good) ↦
          rw (try_device_fence_after_sync_error, there, good)
            (f.device_stays _ (f.activate_stays w r))
    ]
  ]

  pub fenced-Quiet :
      (l : Lane) (w : W) (synchronized : Bool)
      → (synchronized ≡ true → Quiet w)
      → (or_device_fence p l w synchronized).1 ≡ true
      → Quiet (or_device_fence p l w synchronized).0
  unfolding or_device_fence
  fenced-Quiet l w synchronized q e = elim (Bool-cases (not p.cuda || synchronized)) [
    | inl skipped ↦ rw (or_device_fence, skipped) (q (rw (or_device_fence, skipped) at e))
    | inr tried ↦
        rw (or_device_fence, tried) (device_fence-Quiet l w (rw (or_device_fence, tried) at e))
  ]

  pub fence_stays :
      (l : Lane) (w : W) (synchronized : Bool)
      → Recorded w
      → Recorded (or_device_fence p l w synchronized).0
  unfolding or_device_fence
  fence_stays l w synchronized r = elim (Bool-cases (not p.cuda || synchronized)) [
    | inl skipped ↦ rw (or_device_fence, skipped) r
    | inr tried ↦ rw (or_device_fence, tried) (device_fence_stays l w r)
  ]

  -- The wait at the start of a synchronisation leaves no run behind when it succeeds.
  pub completion-Quiet :
      (l : Lane) (w : W)
      → ((p.cuda && l.completion_event_recorded) ≡ true → Recorded w)
      → is_ok (synchronize_completion p l w).1 ≡ true
      → Quiet (synchronize_completion p l w).0
  unfolding synchronize_completion
  completion-Quiet l w r e = elim (Bool-cases (p.cuda && l.completion_event_recorded)) [
    | inl by_event ↦ simp by_event (f.event_waits w (r by_event) (simp by_event at e))
    | inr by_outputs ↦ simp by_outputs (f.outputs_wait w (simp by_outputs at e))
  ]

  pub completion_stays :
      (l : Lane) (w : W)
      → ((p.cuda && l.completion_event_recorded) ≡ true → Recorded w)
      → (p.cuda && l.completion_event_recorded) ≡ true
      → Recorded (synchronize_completion p l w).0
  unfolding synchronize_completion
  completion_stays l w r by_event = simp by_event (f.event_stays w (r by_event))

  bind_inputs-Quiet : (n i : ℕ) (w : W) → Quiet w → Quiet (bind_inputs p n i w).0
  unfolding bind_inputs
  bind_inputs-Quiet zero i w q = q
  bind_inputs-Quiet (suc n) i w q = elim (Result-cases (p.bind_input i w).1) [
    | inl (u, good) ↦ rw (bind_inputs, good) (bind_inputs-Quiet n (suc i) _ (f.bind_quiet i w q))
    | inr (x, bad) ↦ rw (bind_inputs, bad) (f.bind_quiet i w q)
  ]

  copy_inputs-Quiet : (n i : ℕ) (w : W) → Quiet w → Quiet (copy_inputs p n i w).0
  unfolding copy_inputs
  copy_inputs-Quiet zero i w q = q
  copy_inputs-Quiet (suc n) i w q = elim (Result-cases (p.copy_input i w).1) [
    | inl (u, good) ↦ rw (copy_inputs, good) (copy_inputs-Quiet n (suc i) _ (f.copy_quiet i w q))
    | inr (x, bad) ↦ rw (copy_inputs, bad) (f.copy_quiet i w q)
  ]

  rebind-Quiet : (l : Lane) (w : W) → Quiet w → Quiet (rebind_host_inputs_if_needed p l w).0
  unfolding rebind_host_inputs_if_needed
  rebind-Quiet l w q = elim (Bool-cases (l.rebind_inputs_each_run && not l.device_inputs)) [
    | inl needed ↦ simp needed (bind_inputs-Quiet l.inputs 0 _ (f.clear_quiet w q))
    | inr skipped ↦ simp skipped q
  ]

  refresh-Quiet : (l : Lane) (w : W) → Quiet w → Quiet (refresh_device_inputs p l w).0
  unfolding refresh_device_inputs
  refresh-Quiet l w q = elim (Bool-cases l.device_inputs) [
    | inr skipped ↦ rw (refresh_device_inputs, skipped) q
    | inl needed ↦ elim (Bool-cases p.cuda) [
      | inr off ↦ rw (refresh_device_inputs, needed, off) q
      | inl on ↦ elim (Bool-cases l.cuda_device_id) [
        | inr missing ↦ rw (refresh_device_inputs, needed, on, missing) q
        | inl there ↦ elim (Result-cases (p.activate_device w).1) [
          | inr (x, bad) ↦ rw (refresh_device_inputs, needed, on, there, bad) (f.activate_quiet w q)
          | inl (u, good) ↦
              rw (refresh_device_inputs, needed, on, there, good)
                (copy_inputs-Quiet l.inputs 0 _ (f.activate_quiet w q))
        ]
      ]
    ]
  ]

  -- Preparing the inputs starts no run.
  pub prepare-Quiet : (l : Lane) (w : W) → Quiet w → Quiet (prepare_inputs p l w).0
  unfolding prepare_inputs
  prepare-Quiet l w q = elim (Result-cases (rebind_host_inputs_if_needed p l w).1) [
    | inl (u, good) ↦ rw (prepare_inputs, good) (refresh-Quiet l _ (rebind-Quiet l w q))
    | inr (x, bad) ↦ rw (prepare_inputs, bad) (rebind-Quiet l w q)
  ]
