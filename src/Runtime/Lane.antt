-- ===== src/Runtime/Lane.antt =====
-- `ServingLane`: one lane with its static buffers and binding, and the runs on it. What ONNX Runtime
-- and CUDA do is the parameter `Provider`; each call of it takes the state of the device and gives
-- the next one. Inputs, outputs and names are left out: no decision reads them.
pub mod Fence
pub mod Safe
pub mod Settle
pub mod Run
pub mod Calls
pub mod Unleased
pub mod Capture
use st_zrt.Common.{
  ℕ, zero, suc, Bool, true, false, not, ◌&&◌, ◌||◌, Option, none, some, if◌then◌else◌, Result, ok,
  err,
}

pub data LaneError (E : Type 0) : Type 0 where
  already_in_flight missing_cuda_device cuda_feature_required no_completion_event : LaneError E
  graph_needs_device_inputs : LaneError E
  provider : E → LaneError E

pub data CompletionStatus : Type 0 where
  pending ready : CompletionStatus

-- The calls of the session, of the binding and of CUDA that a lane makes, on a device state `W` and
-- with errors `E`, and whether the `cuda` feature is on.
pub record Provider (W E : Type 0) : Type 0 where
  pub cuda : Bool
  pub clear_inputs : W → W
  pub bind_input : ℕ → W → W × Result (Unit {0}) E
  pub activate_device : W → W × Result (Unit {0}) E
  pub copy_input : ℕ → W → W × Result (Unit {0}) E
  pub run_binding : W → W × Result (Unit {0}) E
  pub run_binding_with : W → W × Result (Unit {0}) E
  pub run_binding_unsynchronized : W → W × Result (Unit {0}) E
  pub record_event : W → W × Result (Unit {0}) E
  pub synchronize_event : W → W × Result (Unit {0}) E
  pub event_is_complete : W → W × Result Bool E
  pub synchronize_bound_outputs : W → W × Result (Unit {0}) E
  pub device_synchronize : W → W × Result (Unit {0}) E

-- `graph_lease`, `in_flight_graph_guard` and the like are optional; only whether they are there is
-- read.
pub record Lane : Type 0 where
  pub inputs : ℕ
  pub rebind_inputs_each_run : Bool
  pub run_opts : Bool
  pub graph_id : Bool
  pub graph_captured : Bool
  pub graph_lease : Bool
  pub in_flight_graph_guard : Bool
  pub completion_event_recorded : Bool
  pub in_flight : Bool
  pub recovery_slot : Option ℕ
  pub device_inputs : Bool
  pub cuda_device_id : Bool

abbrev pub is_ok {ℓ κ} : {A : Type ℓ} {E : Type κ} → Result A E → Bool
is_ok (ok a) = true
is_ok (err e) = false

abbrev pub clear_in_flight : Bool → Lane → Lane
clear_in_flight cuda l = record l {
  in_flight = false;
  in_flight_graph_guard = false;
  completion_event_recorded = if cuda then false else l.completion_event_recorded;
}

-- The first run with a graph id that succeeds is the capture.
abbrev pub note_capture {ℓ} : {E : Type ℓ} → Lane → Result (Unit {0}) E → Lane
note_capture l r = if l.graph_id && is_ok r then record l { graph_captured = true } else l

module _ {W E : Type 0} (p : Provider W E) where
  open p use {
    cuda, clear_inputs, bind_input, activate_device, copy_input, run_binding, run_binding_with,
    run_binding_unsynchronized, record_event, synchronize_event, event_is_complete,
    synchronize_bound_outputs, device_synchronize,
  }

  -- What a call on a lane gives: the lane, the device and the result.
  abbrev pub Outcome : Type 0 → Type 0
  Outcome A = Lane × W × Result A (LaneError E)

  abbrev pub from_provider {ℓ} : {A : Type ℓ} → Result A E → Result A (LaneError E)
  from_provider (ok a) = ok a
  from_provider (err e) = err (provider e)

  unfoldable pub try_device_fence_after_sync_error : Lane → W → W × Bool
  try_device_fence_after_sync_error l w =
      if not l.cuda_device_id
      then (w, false)
      else let (w', r) = activate_device w in
        elim r [
          | err _ ↦ (w', false)
          | ok _ ↦ let (w'', r') = device_synchronize w' in (w'', is_ok r')
        ]

  -- Whether `synchronized` holds, or with CUDA the fence of the whole device succeeds.
  unfoldable pub or_device_fence : Lane → W → Bool → W × Bool
  unfolding try_device_fence_after_sync_error
  or_device_fence l w synchronized =
      if not cuda || synchronized then (w, synchronized) else try_device_fence_after_sync_error l w

  -- The wait that `finish_in_flight_best_effort` and `synchronize_outputs` start with.
  unfoldable pub synchronize_completion : Lane → W → W × Result (Unit {0}) E
  synchronize_completion l w =
      if cuda && l.completion_event_recorded
      then synchronize_event w
      else synchronize_bound_outputs w

  unfoldable pub finish_in_flight_best_effort : Lane → W → Lane × W
  unfolding or_device_fence synchronize_completion
  finish_in_flight_best_effort l w =
      if not l.in_flight
      then (l, w)
      else let (w₁, r) = synchronize_completion l w in
        let (w₂, fenced) = or_device_fence l w₁ (is_ok r) in
        (if fenced then clear_in_flight cuda l else l, w₂)

  unfoldable pub synchronize_outputs : Lane → W → Outcome (Unit {0})
  unfolding or_device_fence synchronize_completion
  synchronize_outputs l w =
      if not l.in_flight
      then (l, w, ok tt)
      else let (w₁, r) = synchronize_completion l w in
        let (w₂, fenced) = or_device_fence l w₁ (is_ok r) in
        (if fenced then clear_in_flight cuda l else l, w₂, from_provider r)

  unfoldable pub try_complete : Lane → W → Outcome CompletionStatus
  try_complete l w =
      if not l.in_flight
      then (l, w, ok ready)
      else if not (cuda && l.completion_event_recorded)
      then (l, w, err no_completion_event)
      else let (w', r) = event_is_complete w in
        elim r [
          | err e ↦ (l, w', err (provider e))
          | ok true ↦ (clear_in_flight cuda l, w', ok ready)
          | ok false ↦ (l, w', ok CompletionStatus.pending)
        ]

  -- Input `i` on, with `n` left.
  unfoldable pub bind_inputs : ℕ → ℕ → W → W × Result (Unit {0}) E
  bind_inputs zero i w = (w, ok tt)
  bind_inputs (suc n) i w =
      let (w', r) = bind_input i w in
      elim r [ err e ↦ (w', err e) | ok _ ↦ bind_inputs n (suc i) w' ]

  unfoldable pub rebind_host_inputs_if_needed : Lane → W → W × Result (Unit {0}) (LaneError E)
  unfolding bind_inputs
  rebind_host_inputs_if_needed l w =
      if l.rebind_inputs_each_run && not l.device_inputs
      then (let (w', r) = bind_inputs l.inputs 0 (clear_inputs w) in (w', from_provider r))
      else (w, ok tt)

  unfoldable pub copy_inputs : ℕ → ℕ → W → W × Result (Unit {0}) E
  copy_inputs zero i w = (w, ok tt)
  copy_inputs (suc n) i w =
      let (w', r) = copy_input i w in
      elim r [ err e ↦ (w', err e) | ok _ ↦ copy_inputs n (suc i) w' ]

  unfoldable pub refresh_device_inputs : Lane → W → W × Result (Unit {0}) (LaneError E)
  unfolding copy_inputs
  refresh_device_inputs l w =
      if not l.device_inputs
      then (w, ok tt)
      else if not cuda
      then (w, err cuda_feature_required)
      else if not l.cuda_device_id
      then (w, err missing_cuda_device)
      else let (w', r) = activate_device w in
        elim r [
          | err e ↦ (w', err (provider e))
          | ok _ ↦ let (w'', r') = copy_inputs l.inputs 0 w' in (w'', from_provider r')
        ]

  -- `graph_guard` is whether there is one.
  unfoldable pub fence_or_retain_graph_guard : Lane → W → Bool → Lane × W × Bool
  unfolding or_device_fence
  fence_or_retain_graph_guard l w graph_guard =
      let (w₁, r) = synchronize_bound_outputs w in
      let (w₂, fenced) = or_device_fence l w₁ (is_ok r) in
      (
        if fenced
            then clear_in_flight cuda l
            else if graph_guard
            then record l { in_flight_graph_guard = true; in_flight = true }
            else l,
        w₂,
        fenced,
      )

  unfoldable pub settle_graph_run :
      Lane → W → Bool → Result (Unit {0}) E → Bool → Outcome (Unit {0})
  unfolding fence_or_retain_graph_guard
  settle_graph_run l w graph_guard (ok _) retain_on_success = (
    if retain_on_success
        then record l { in_flight_graph_guard = graph_guard; in_flight = true }
        else l,
    w,
    ok tt,
  )
  settle_graph_run l w graph_guard (err e) retain_on_success =
      let (l', w', fenced) = fence_or_retain_graph_guard l w graph_guard in
      (l', w', err (provider e))

  unfoldable pub run_bound_binding : Lane → W → Outcome (Unit {0})
  unfolding settle_graph_run
  run_bound_binding l w =
      if not l.run_opts
      then (let (w', r) = run_binding w in (l, w', from_provider r))
      else let (w', r) = run_binding_with w in
        settle_graph_run (note_capture l r) w' l.graph_lease r false

  unfoldable pub mark_recorded : Lane → W → Result (Unit {0}) E → Lane × W × Result (Unit {0}) E
  mark_recorded l w (err e) = (l, w, err e)
  mark_recorded l w (ok _) = (record l { completion_event_recorded = true }, w, ok tt)

  unfoldable pub record_completion : Lane → W → Result (Unit {0}) E → Lane × W × Result (Unit {0}) E
  unfolding mark_recorded
  record_completion l w (err e) = (l, w, err e)
  record_completion l w (ok _) =
      if cuda && (l.device_inputs && l.graph_id)
      then (let (w', r) = record_event w in mark_recorded l w' r)
      else (l, w, ok tt)

  -- The run and, for a captured graph on device inputs, the record of the completion event.
  unfoldable pub enqueue_and_record : Lane → W → Lane × W × Result (Unit {0}) E
  unfolding record_completion
  enqueue_and_record l w = let (w', r) = run_binding_unsynchronized w in record_completion l w' r

  unfoldable pub run_bound_binding_enqueued : Lane → W → Outcome (Unit {0})
  unfolding enqueue_and_record settle_graph_run
  run_bound_binding_enqueued l w =
      if l.in_flight
      then (l, w, err already_in_flight)
      else let (l', w', r) = enqueue_and_record l w in
        settle_graph_run (note_capture l' r) w' l.graph_lease r true

  -- What `run` and `run_enqueued` do before the run.
  unfoldable pub prepare_inputs : Lane → W → W × Result (Unit {0}) (LaneError E)
  unfolding rebind_host_inputs_if_needed refresh_device_inputs
  prepare_inputs l w =
      let (w', r) = rebind_host_inputs_if_needed l w in
      elim r [ err e ↦ (w', err e) | ok _ ↦ refresh_device_inputs l w' ]

  -- The `?` after a step that gave the device `w` and a result.
  unfoldable pub and_then :
      Lane
      → W
      → Result (Unit {0}) (LaneError E)
      → (Lane → W → Outcome (Unit {0}))
      → Outcome (Unit {0})
  and_then l w (err e) next = (l, w, err e)
  and_then l w (ok _) next = next l w

  unfoldable pub run_enqueued : Lane → W → Outcome (Unit {0})
  unfolding and_then prepare_inputs run_bound_binding_enqueued
  run_enqueued l w =
      if l.in_flight
      then (l, w, err already_in_flight)
      else (let (w', r) = prepare_inputs l w in and_then l w' r run_bound_binding_enqueued)

  unfoldable pub run_then_synchronize : Lane → W → Outcome (Unit {0})
  unfolding and_then run_bound_binding_enqueued synchronize_outputs
  run_then_synchronize l w =
      let (l', w', r) = run_bound_binding_enqueued l w in and_then l' w' r synchronize_outputs

  unfoldable pub run_prepared : Lane → W → Outcome (Unit {0})
  unfolding run_bound_binding run_then_synchronize
  run_prepared l w =
      if cuda && (l.device_inputs && l.graph_id)
      then run_then_synchronize l w
      else run_bound_binding l w

  unfoldable pub run : Lane → W → Outcome (Unit {0})
  unfolding and_then prepare_inputs run_prepared
  run l w =
      if l.in_flight
      then (l, w, err already_in_flight)
      else (let (w', r) = prepare_inputs l w in and_then l w' r run_prepared)
