-- ===== src/Runtime/Cache/Tests.antt =====
-- A cache with two buckets of one lane, and the theorems at it.
use st_zrt.Common.{
  ℕ, zero, suc, ◌+◌, ◌≡◌, ◌↔◌, ◌⊎◌, refl, subst, true, false, none, some, List, [], ◌∷◌, length,
  get_elem?, ok, err, pos,
}
use st_zrt.ShapePlan.{Shapes, CanonicalShape, host_buffer, strict}
use st_zrt.ShapePlan.Hash.{from_slices, index_get, index_push}
use st_zrt.ShapePlan.Compare.{shapes_eqb, shape_eqb}
use st_zrt.ShapePlan.Plan.{Plan}
use st_zrt.ShapePlan.Builder.{
  Builder, builder, add_shape, canonical, build, check_builder, validate_shapes, is_duplicate,
}
use st_zrt.ShapePlan.Tests.{hundredths}
use st_zrt.Runtime.Cache.Planned.{
  install_shape_plan, validate_planned_shape, validate_planned_shape_iff,
}
use st_zrt.Runtime.{PreparedBucketId}
use st_zrt.Runtime.Handles.Linked.{at, no_handles-Linked}
use st_zrt.Runtime.Handles.Stale.{Later-Linked}
use st_zrt.Runtime.Tests.{two_handles, two_Later, Gpu, gpu_provider, idle_gpu, plain_lane}
use st_zrt.Runtime.Cache.{ShapeBucket, Runtime, find_bucket_index, oldest_from}
use st_zrt.Runtime.Cache.Accounts.{CacheInv}
use st_zrt.Runtime.Cache.Lookup.{HasArity, find_bucket_index_lem, Oldest, oldest_from-Oldest}
use st_zrt.Runtime.Cache.Calls.{
  CacheCall, enqueues_on, makes_room, removes_shapes, cache_calls, accounts_kept,
}

abbrev pub eight : Shapes
eight = (pos 1 ∷ pos 8 ∷ []) ∷ []

abbrev pub sixteen : Shapes
sixteen = (pos 1 ∷ pos 16 ∷ []) ∷ []

abbrev pub bucket_of : Shapes → PreparedBucketId → ℕ → ShapeBucket
bucket_of shapes id used = record {
  inputs = shapes;
  outputs = shapes;
  id = id;
  lanes = plain_lane ∷ [];
  last_used = used;
  detached_lanes = 0;
  graph_id = none;
}

abbrev pub two_buckets : Runtime
two_buckets = record {
  buckets = bucket_of eight (at 0 1) 5 ∷ bucket_of sixteen (at 1 1) 4 ∷ [];
  retired_buckets = [];
  max_buckets = 2;
  cuda_graph = false;
  lane_count = 1;
  hot_bucket = some 0;
  handles = two_handles;
  tick = 5;
  recovered = [];
}

two_accounted :
    (i : ℕ) (b : ShapeBucket)
    → get_elem? two_buckets.buckets i ≡ some b
    → b.detached_lanes + length b.lanes ≡ 1
two_accounted zero b e =
    let same : bucket_of eight (at 0 1) 5 ≡ b = cc (e) in
    subst (λ (x : ShapeBucket). x.detached_lanes + length x.lanes ≡ 1) same refl
two_accounted (suc zero) b e =
    let same : bucket_of sixteen (at 1 1) 4 ≡ b = cc (e) in
    subst (λ (x : ShapeBucket). x.detached_lanes + length x.lanes ≡ 1) same refl
two_accounted (suc (suc i)) b e = absurd (cc (e))

pub two_CacheInv : CacheInv two_buckets
two_CacheInv = record {
  known = Later-Linked no_handles-Linked two_Later;
  accounted = two_accounted;
}

abbrev some_calls : List (CacheCall (Unit {0}))
some_calls =
    enqueues_on (at 0 1) (λ l. (l, ok tt))
    ∷ makes_room
    ∷ removes_shapes eight eight
    ∷ enqueues_on (at 1 1) (λ l. (l, err tt))
    ∷ []

accounts_kept_example :
    (rt' : Runtime) × (w' : Gpu) × (cache_calls gpu_provider some_calls two_buckets idle_gpu
      ≡ some (rt', w'))
    × CacheInv rt'
accounts_kept_example = accounts_kept gpu_provider some_calls two_buckets idle_gpu two_CacheInv

pub two-HasArity : HasArity 1 1 two_buckets
two-HasArity zero b e =
    let same : bucket_of eight (at 0 1) 5 ≡ b = cc (e) in
    subst (λ (x : ShapeBucket). (length x.inputs ≡ 1) × (length x.outputs ≡ 1)) same (refl, refl)
two-HasArity (suc zero) b e =
    let same : bucket_of sixteen (at 1 1) 4 ≡ b = cc (e) in
    subst (λ (x : ShapeBucket). (length x.inputs ≡ 1) × (length x.outputs ≡ 1)) same (refl, refl)
two-HasArity (suc (suc i)) b e = absurd (cc (e))

find_bucket_index_lem_example :
    ((i : ℕ) × (b : ShapeBucket) × (find_bucket_index two_buckets sixteen sixteen ≡ some i)
      × (get_elem? two_buckets.buckets i ≡ some b)
      × (b.inputs ≡ sixteen)
      × (b.outputs ≡ sixteen))
    ⊎ ((find_bucket_index two_buckets sixteen sixteen ≡ none)
        × ((i : ℕ) (b : ShapeBucket)
            → get_elem? two_buckets.buckets i ≡ some b
            → ¬ ((b.inputs ≡ sixteen) × (b.outputs ≡ sixteen))))
find_bucket_index_lem_example = find_bucket_index_lem two_buckets sixteen sixteen two-HasArity

oldest_from-Oldest_example : Oldest two_buckets.buckets (oldest_from 0 two_buckets.buckets) 0
oldest_from-Oldest_example = oldest_from-Oldest two_buckets.buckets 0

abbrev one_shape : Builder hundredths
one_shape = add_shape hundredths (builder hundredths) eight sixteen host_buffer

abbrev one_plan : Plan hundredths
one_plan = record {
  buckets = canonical hundredths 0 (eight, sixteen, host_buffer) ∷ [];
  index = (from_slices eight, 0 ∷ []) ∷ [];
  fallback = strict;
}

one_built : build hundredths one_shape ≡ some (ok one_plan)
unfolding build check_builder validate_shapes is_duplicate index_get index_push from_slices
    shapes_eqb shape_eqb
one_built = refl

one_installed : install_shape_plan hundredths 0 0 4 1 1 false one_plan ≡ ok one_plan
unfolding install_shape_plan
one_installed = refl

validate_planned_shape_iff_example :
    (validate_planned_shape hundredths (some one_plan) true eight sixteen ≡ some (ok tt)) ↔ (
      (i : ℕ) × (c : CanonicalShape) × (get_elem? one_plan.buckets i ≡ some c)
      × (c.input_shapes ≡ eight)
      × (c.output_shapes ≡ sixteen))
validate_planned_shape_iff_example =
    validate_planned_shape_iff hundredths one_shape one_plan 0 0 4 false true eight sixteen
      one_built one_installed
