-- ===== src/Runtime/Cache/BucketTests.antt =====
-- A bucket for new shapes, with captured graphs and without, and the clearing of a cache.
use st_zrt.Common.{◌≡◌, refl, true, false, none, some, [], ◌∷◌, ok, pos, arith}
use st_zrt.ShapePlan.{Shapes}
use st_zrt.ShapePlan.Tests.{hundredths}
use st_zrt.Session.{allocate_captured_graph_id}
use st_zrt.Runtime.Lane.{
  Lane, run, prepare_inputs, and_then, run_prepared, run_then_synchronize,
  run_bound_binding_enqueued, synchronize_outputs, rebind_host_inputs_if_needed,
  refresh_device_inputs, copy_inputs, enqueue_and_record, record_completion, mark_recorded,
  settle_graph_run, or_device_fence, synchronize_completion,
}
use st_zrt.Runtime.Tests.{Gpu, gpu_provider, idle_gpu, plain_lane}
use st_zrt.Runtime.Cache.Runs.{reclaim_dropped_runs_inner}
use st_zrt.Runtime.Cache.Planned.{validate_planned_shape}
use st_zrt.Runtime.Cache.Accounts.{CacheInv}
use st_zrt.Runtime.Cache.Sizes.{IsSized}
use st_zrt.Runtime.Cache.Tests.{two_buckets, two_CacheInv, two-HasArity, eight, sixteen}
use st_zrt.Runtime.Cache.Lanes.{Setup, World, new_lanes}
use st_zrt.Runtime.Cache.Captured.{Ready, BuildsLanes, new_lanes_captured}
use st_zrt.Runtime.Cache.Buckets.{get_or_create_bucket_inner}
use st_zrt.Runtime.Cache.Demand.{Answers, get_or_create_bucket_lem}
use st_zrt.Runtime.Cache.Clear.{clear_buckets, Clears, clear_buckets_lem}

abbrev device_lane : Lane
device_lane = record plain_lane { device_inputs = true }

-- Lane sets of one lane are built, on device inputs; nothing else of the set-up matters here.
abbrev gpu_setup : Setup Gpu (Unit {0})
gpu_setup = record {
  build_lane_set = λ i o g. (g, ok (device_lane ∷ []));
  materialize_run_options = λ id l g. (g, ok tt);
  release_captured_graph = λ id g. g;
  release_done = λ id g. true;
}

abbrev gpu_world : World Gpu
gpu_world = record { device = idle_gpu; next_graph_id = 1 }

one_built : (i o : Shapes) → BuildsLanes gpu_provider gpu_setup 1 i o
one_built i o w ls e = cc (e)

abbrev captured_lane : Lane
captured_lane = record device_lane {
  run_opts = true;
  graph_id = true;
  graph_lease = true;
  graph_captured = true;
}

one_captured :
    (new_lanes gpu_provider gpu_setup true gpu_world eight eight).1
    ≡ ok (captured_lane ∷ [], some 1)
unfolding new_lanes run prepare_inputs and_then run_prepared run_then_synchronize
    run_bound_binding_enqueued synchronize_outputs rebind_host_inputs_if_needed
    refresh_device_inputs copy_inputs enqueue_and_record record_completion mark_recorded
    settle_graph_run or_device_fence synchronize_completion allocate_captured_graph_id
one_captured = refl

new_lanes_captured_example : Ready gpu_provider gpu_setup 1 true (captured_lane ∷ [], some 1)
new_lanes_captured_example =
    new_lanes_captured gpu_provider gpu_setup 1 true gpu_world eight eight (one_built eight eight)
      one_captured

abbrev thirty_two : Shapes
thirty_two = (pos 1 ∷ pos 32 ∷ []) ∷ []

no_plan : validate_planned_shape hundredths none false thirty_two sixteen ≡ some (ok tt)
unfolding validate_planned_shape
no_plan = refl

two-IsSized : IsSized 1 2 false two_buckets
two-IsSized = record { lanes = refl; limit = refl; graphs = refl; within = omega arith }

get_or_create_bucket_lem_example :
    Answers gpu_provider gpu_setup hundredths 1 2 false thirty_two sixteen (
      get_or_create_bucket_inner gpu_provider gpu_setup hundredths none two_buckets gpu_world
        thirty_two sixteen true)
get_or_create_bucket_lem_example =
    get_or_create_bucket_lem gpu_provider gpu_setup hundredths 1 2 false thirty_two sixteen
      (one_built thirty_two sixteen) none two_buckets gpu_world true two_CacheInv two-IsSized
      two-HasArity no_plan

clear_buckets_lem_example :
    let (rt', w', r) = clear_buckets gpu_provider gpu_setup two_buckets idle_gpu in
    CacheInv rt'
    × Clears gpu_provider gpu_setup (reclaim_dropped_runs_inner two_buckets).0.buckets rt' r
clear_buckets_lem_example =
    clear_buckets_lem gpu_provider gpu_setup two_buckets idle_gpu two_CacheInv
