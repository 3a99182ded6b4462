-- ===== src/Runtime/Tests.antt =====
-- Concrete tables and lanes of runtime.rs, and the theorems at them.
use st_zrt.Common.{
  ◌≡◌, ◌↔◌, ◌&&◌, arith, refl, Bool, true, false, not, none, some, List, [], ◌∷◌, get_elem?, Result,
  ok, err, swap_remove, Bool-cases, inl, inr,
}
use st_zrt.Runtime.{PreparedBucketId}
use st_zrt.Runtime.Handles.{
  Handles, no_handles, allocate_prepared_bucket_id, prepared_bucket_index,
  retire_prepared_bucket_id, retire_entry, forget_at, repair_prepared_bucket_indices_from,
  repair_rest, repair_one,
}
use st_zrt.Runtime.Handles.Linked.{at, entry, no_handles-Linked}
use st_zrt.Runtime.Handles.Stale.{Later, here, adds, Later-Linked, stale_handle, handle_resolves}
use st_zrt.Runtime.Lane.{Provider, Lane, is_ok, run_enqueued}
use st_zrt.Runtime.Lane.Fence.{Fences}
use st_zrt.Runtime.Lane.Calls.{calls, leased_lane_safe, runs, enqueues, queries}
use st_zrt.Runtime.Lane.Unleased.{unleased_error_idle}

-- Two buckets.
abbrev pub two_handles : Handles
two_handles = record { slots = entry 1 (some 0) ∷ entry 1 (some 1) ∷ []; free = [] }

abbrev two_ids : List PreparedBucketId
two_ids = at 0 1 ∷ at 1 1 ∷ []

pub two_Later : Later no_handles [] two_handles two_ids
unfolding allocate_prepared_bucket_id
two_Later = adds (at 1 1) (adds (at 0 1) here refl) refl

-- The first is removed, and its slot used again.
abbrev reused_handles : Handles
reused_handles = record { slots = entry 2 (some 1) ∷ entry 1 (some 0) ∷ []; free = [] }

reused_Later :
    Later
      (forget_at two_handles two_ids 0 (at 0 1))
      (swap_remove two_ids 0)
      reused_handles
      (at 1 1 ∷ at 0 2 ∷ [])
unfolding allocate_prepared_bucket_id forget_at swap_remove repair_prepared_bucket_indices_from
    repair_rest repair_one retire_prepared_bucket_id retire_entry
reused_Later = adds (at 0 2) here refl

stale_handle_example : prepared_bucket_index reused_handles (at 1 1 ∷ at 0 2 ∷ []) (at 0 1) ≡ none
stale_handle_example =
    stale_handle 0 (at 0 1) (Later-Linked no_handles-Linked two_Later) refl reused_Later

handle_resolves_example :
    (prepared_bucket_index two_handles two_ids (at 1 1) ≡ some 1)
    ↔ (get_elem? two_ids 1 ≡ some (at 1 1))
handle_resolves_example = handle_resolves (at 1 1) 1 two_Later

-- A device on which every call succeeds until it breaks; a failed run may go on executing.
pub record Gpu : Type 0 where
  pub executing : Bool
  pub recorded : Bool
  pub broken : Bool

abbrev answer : Bool → Result (Unit {0}) (Unit {0})
answer true = err tt
answer false = ok tt

abbrev wait : Gpu → Gpu × Result (Unit {0}) (Unit {0})
wait g = (record g { executing = g.executing && g.broken }, answer g.broken)

abbrev pub gpu_provider : Provider Gpu (Unit {0})
gpu_provider = record {
  cuda = true;
  clear_inputs = λ g. g;
  bind_input = λ i g. (g, ok tt);
  activate_device = λ g. (g, ok tt);
  copy_input = λ i g. (g, ok tt);
  run_binding = λ g. (record g { executing = g.broken }, answer g.broken);
  run_binding_with = λ g. (record g { executing = g.broken }, answer g.broken);
  run_binding_unsynchronized =
      λ g. (record g { executing = true; recorded = false }, answer g.broken);
  record_event = λ g. (record g { recorded = true }, ok tt);
  synchronize_event = wait;
  event_is_complete = λ g. (record g { executing = g.executing && g.broken }, ok (not g.broken));
  synchronize_bound_outputs = wait;
  device_synchronize = wait;
}

abbrev Quiet : Gpu → Type 0
Quiet g = g.executing ≡ false

abbrev Recorded : Gpu → Type 0
Recorded g = g.recorded ≡ true

wait-Quiet : (g : Gpu) → is_ok (wait g).1 ≡ true → Quiet (wait g).0
wait-Quiet g e = elim (Bool-cases g.broken) [
  | inl bad ↦ absurd (ground (arith, bad, e))
  | inr fine ↦ ground (arith, fine)
]

gpu_Fences : Fences gpu_provider Quiet Recorded
gpu_Fences = record {
  run_ends = λ g e. ground (arith, e);
  event_records = λ g e. refl;
  event_waits = λ g r e. wait-Quiet g e;
  event_stays = λ g r. r;
  event_tells = λ g r e. ground (arith, e);
  query_stays = λ g r. r;
  outputs_wait = wait-Quiet;
  device_waits = wait-Quiet;
  device_stays = λ g r. r;
  activate_stays = λ g r. r;
  clear_quiet = λ g q. q;
  bind_quiet = λ i g q. q;
  activate_quiet = λ g q. q;
  copy_quiet = λ i g q. q;
}

abbrev graph_lane : Lane
graph_lane = record {
  inputs = 2;
  rebind_inputs_each_run = false;
  run_opts = true;
  graph_id = true;
  graph_captured = false;
  graph_lease = true;
  in_flight_graph_guard = false;
  completion_event_recorded = false;
  in_flight = false;
  recovery_slot = some 0;
  device_inputs = true;
  cuda_device_id = true;
}

abbrev pub plain_lane : Lane
plain_lane = record graph_lane {
  graph_id = false;
  graph_lease = false;
  run_opts = false;
  device_inputs = false;
}

abbrev pub idle_gpu : Gpu
idle_gpu = record { executing = false; recorded = false; broken = false }

leased_lane_safe_example :
    let (l', w') =
      calls gpu_provider (enqueues ∷ queries ∷ runs ∷ enqueues ∷ []) graph_lane idle_gpu in
    (l'.in_flight ≡ false → Quiet w') × (l'.in_flight ≡ true → l'.in_flight_graph_guard ≡ true)
leased_lane_safe_example =
    leased_lane_safe gpu_Fences (enqueues ∷ queries ∷ runs ∷ enqueues ∷ []) graph_lane idle_gpu refl
      refl refl refl refl

-- The run of a plain lane on a broken device fails, and goes on executing.
broken_fails : run_enqueued gpu_provider plain_lane (record idle_gpu { broken = true }) ≡ (
  plain_lane,
  record { executing = true; recorded = false; broken = true },
  err (st_zrt.Runtime.Lane.provider tt),
)
unfolding run_enqueued
broken_fails = refl

broken_not_ok :
    is_ok (run_enqueued gpu_provider plain_lane (record idle_gpu { broken = true })).2 ≡ false
unfolding run_enqueued
broken_not_ok = refl

unleased_error_idle_example :
    (run_enqueued gpu_provider plain_lane (record idle_gpu { broken = true })).0.in_flight ≡ false
unleased_error_idle_example =
    unleased_error_idle gpu_provider plain_lane (record idle_gpu { broken = true }) refl refl
      broken_not_ok
