-- ===== src/Runtime/Cache.antt =====
-- The cache of shape buckets of a `DynamicIoRuntime`: its state, the lookup, and the way of a lane out
-- of its bucket and back; Cache/Runs has the owned runs, Cache/Retirement the removal of buckets.
-- A vector of lanes has its last lane at the head of the list. Printing, and the
-- release of captured graphs in the session, are left out.
pub mod Runs
pub mod Retirement
pub mod Lookup
pub mod Arity
pub mod Ids
pub mod Accounts
pub mod Moves
pub mod Calls
pub mod Planned
pub mod Creation
pub mod Lanes
pub mod Captured
pub mod Sizes
pub mod Buckets
pub mod Inserted
pub mod Reap
pub mod Demand
pub mod Clear
mod Tests
mod BucketTests
use st_zrt.Common.{
  ℕ, zero, suc, ◌+◌, ◌-◌, ◌%◌, Bool, true, false, not, ◌&&◌, Option, none, some, List, [], ◌∷◌,
  ◌++◌, map, ltb, leb, ◌==◌, max, if◌then◌else◌, length, get_elem?, set, any, swap_remove,
  checked_add, usize_mod, wrapping_add, Result, ok, err,
}
use st_zrt.ShapePlan.{Shapes}
use st_zrt.ShapePlan.Compare.{zip_all_equal}
use st_zrt.Runtime.{PreparedBucketId}
use st_zrt.Runtime.Handles.{Handles, prepared_bucket_index, retire_prepared_bucket_id, forget_at}
use st_zrt.Runtime.Lane.{
  Provider, Lane, LaneError, run_enqueued, synchronize_outputs, finish_in_flight_best_effort,
}

-- `key` is the two lists of shapes.
pub record ShapeBucket : Type 0 where
  pub inputs : Shapes
  pub outputs : Shapes
  pub id : PreparedBucketId
  pub lanes : List Lane
  pub last_used : ℕ
  pub detached_lanes : ℕ
  pub graph_id : Option ℕ

pub record OwnedDynamicIoRun : Type 0 where
  pub lane : Lane
  pub bucket_id : PreparedBucketId

-- `recovered` is what the recovery slots hold, in the order in which `pop_ready` gives it.
pub record Runtime : Type 0 where
  pub buckets : List ShapeBucket
  pub retired_buckets : List ShapeBucket
  pub max_buckets : ℕ
  pub cuda_graph : Bool
  pub lane_count : ℕ
  pub hot_bucket : Option ℕ
  pub handles : Handles
  pub tick : ℕ
  pub recovered : List OwnedDynamicIoRun

pub data CacheError (E : Type 0) : Type 0 where
  bucket_unavailable accounting_diverged all_lanes_in_flight bucket_retired : CacheError E
  graph_cache_full all_buckets_busy eviction_refused : CacheError E
  user : E → CacheError E
  lane_error : LaneError E → CacheError E

abbrev pub bucket_ids : List ShapeBucket → List PreparedBucketId
bucket_ids [] = []
bucket_ids (b ∷ bs) = b.id ∷ bucket_ids bs

-- `ShapeKey::matches`; both sides have as many shapes as the model has inputs and outputs.
abbrev pub key_matches : Shapes → Shapes → ShapeBucket → Bool
key_matches inputs outputs b = zip_all_equal b.inputs inputs && zip_all_equal b.outputs outputs

-- `Iterator::position`, counted from `i`.
unfoldable pub position_from {ℓ} : {A : Type ℓ} → (A → Bool) → ℕ → List A → Option ℕ
position_from test i [] = none
position_from test i (x ∷ xs) =
    let rest = position_from test (suc i) xs in if test x then some i else rest

-- The hot bucket, if it has the shapes.
unfoldable pub hot_match : List ShapeBucket → Option ℕ → Shapes → Shapes → Option ℕ
hot_match buckets none inputs outputs = none
hot_match buckets (some i) inputs outputs = elim (get_elem? buckets i) [
  | none ↦ none
  | some b ↦ if key_matches inputs outputs b then some i else none
]

unfoldable pub find_bucket_index : Runtime → Shapes → Shapes → Option ℕ
unfolding position_from hot_match
find_bucket_index rt inputs outputs =
    let searched = position_from (key_matches inputs outputs) 0 rt.buckets in
    if ltb 1 (length rt.buckets)
    then elim (hot_match rt.buckets rt.hot_bucket inputs outputs) [
      | some i ↦ some i
      | none ↦ searched
    ]
    else searched

unfoldable pub next_tick : Runtime → Runtime × ℕ
next_tick rt = let tick = max (wrapping_add rt.tick 1) 1 in (record rt { tick = tick }, tick)

-- `min_by_key` over the buckets without detached lanes, from index `i` on: the first least one.
abbrev pub earlier : ShapeBucket → ℕ → Option (ℕ × ℕ) → Option (ℕ × ℕ)
earlier b i none = some (i, b.last_used)
earlier b i (some (j, used)) =
    if ltb used b.last_used then some (j, used) else some (i, b.last_used)

unfoldable pub oldest_from : ℕ → List ShapeBucket → Option (ℕ × ℕ)
oldest_from i [] = none
oldest_from i (b ∷ bs) =
    let rest = oldest_from (suc i) bs in if b.detached_lanes == 0 then earlier b i rest else rest

abbrev pub with_bucket : Runtime → ℕ → ShapeBucket → Runtime
with_bucket rt i b = record rt { buckets = set rt.buckets i b }

-- The bucket of a handle, with its index.
unfoldable pub resolve : Runtime → PreparedBucketId → Option (ℕ × ShapeBucket)
resolve rt id = elim (prepared_bucket_index rt.handles (bucket_ids rt.buckets) id) [
  | none ↦ none
  | some i ↦ elim (get_elem? rt.buckets i) [ none ↦ none | some b ↦ some (i, b) ]
]

module _ {E : Type 0} where
  unfoldable pub return_detached_lane :
      Runtime → PreparedBucketId → Lane → Runtime × Result (Unit {0}) (CacheError E)
  unfolding resolve
  return_detached_lane rt id lane = elim (resolve rt id) [
    | none ↦ (rt, err bucket_retired)
    | some (i, b) ↦
        if b.detached_lanes == 0
        then (rt, err accounting_diverged)
        else if leb rt.lane_count (length b.lanes)
        then (rt, err accounting_diverged)
        else (
          with_bucket rt i
              (record b { lanes = lane ∷ b.lanes; detached_lanes = b.detached_lanes - 1 }),
          ok tt,
        )
  ]

  -- The last lane of a bucket is taken out.
  unfoldable pub pop_lane :
      Runtime → ℕ → ShapeBucket → List Lane → Runtime × Result Lane (CacheError E)
  pop_lane rt i b [] = (rt, err all_lanes_in_flight)
  pop_lane rt i b (lane ∷ rest) =
      (with_bucket rt i (record b { lanes = rest; detached_lanes = suc b.detached_lanes }), ok lane)

  -- The first block of `enqueue_prepared`.
  unfoldable pub detach_lane : Runtime → PreparedBucketId → Runtime × Result Lane (CacheError E)
  unfolding resolve pop_lane
  detach_lane rt id = elim (resolve rt id) [
    | none ↦ (rt, err bucket_unavailable)
    | some (i, b) ↦ elim (checked_add usize_mod b.detached_lanes (length b.lanes)) [
      | none ↦ (rt, err accounting_diverged)
      | some n ↦
          if not (n == rt.lane_count)
          then (rt, err accounting_diverged)
          else pop_lane rt i b b.lanes
    ]
  ]
