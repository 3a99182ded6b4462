-- ===== src/Runtime/Cache/Buckets.antt =====
-- `get_or_create_bucket_inner` and its callers.
use st_zrt.Common.{
  ℕ, zero, suc, Bool, true, false, not, ◌&&◌, ◌||◌, Option, none, some, List, [], ◌∷◌, length,
  get_elem?, any, ◌==◌, if◌then◌else◌, swap_remove, Result, ok, err,
}
use st_zrt.ShapePlan.{Floats, Shapes}
use st_zrt.ShapePlan.Plan.{Plan}
use st_zrt.Runtime.{PreparedBucketId}
use st_zrt.Runtime.Lane.{Provider, Lane}
use st_zrt.Runtime.Cache.{
  ShapeBucket, OwnedDynamicIoRun, Runtime, CacheError, find_bucket_index, next_tick, with_bucket,
}
use st_zrt.Runtime.Cache.Runs.{reclaim_dropped_runs_inner, enqueue_prepared}
use st_zrt.Runtime.Cache.Retirement.{evict_one_bucket_if_full}
use st_zrt.Runtime.Cache.Planned.{PlannedError, validate_planned_shape}
use st_zrt.Runtime.Cache.Creation.{CreateError, insert_bucket}
use st_zrt.Runtime.Cache.Lanes.{Setup, World, LanesError, new_lanes}

pub data BucketError (E : Type 0) (fl : Floats) : Type 0 where
  planned : PlannedError fl → BucketError E fl
  strict_cache_miss capture_overlaps_replay : BucketError E fl
  no_room : CacheError E → BucketError E fl
  no_lanes : LanesError E → BucketError E fl
  not_inserted : CreateError → BucketError E fl

-- The bucket at `i` is used now.
abbrev pub touched : Runtime → ℕ → ShapeBucket → Runtime
touched rt i b =
    let (rt', tick) = next_tick rt in
    with_bucket (record rt' { hot_bucket = some i }) i (record b { last_used = tick })

-- `refuse_graph_bucket_creation_while_in_flight`
abbrev pub is_busy : ShapeBucket → Bool
is_busy b = not (b.detached_lanes == 0) || any (λ (l : Lane). l.in_flight) b.lanes

unfoldable pub any_busy : List ShapeBucket → Bool
any_busy bs = any is_busy bs

module _ {W E : Type 0} (p : Provider W E) (s : Setup W E) (fl : Floats) where
  -- The release of the bucket's graph has ended.
  abbrev pub is_released : W → ShapeBucket → Bool
  is_released w b = elim b.graph_id [ none ↦ true | some id ↦ s.release_done id w ]

  -- The loop of `reap_retired_buckets` from place `i` on, at most `fuel` turns.
  unfoldable pub reap_from : (ShapeBucket → Bool) → ℕ → ℕ → List ShapeBucket → List ShapeBucket
  reap_from done zero i bs = bs
  reap_from done (suc fuel) i bs = elim (get_elem? bs i) [
    | none ↦ bs
    | some b ↦ elim (done b) [
      | true ↦ reap_from done fuel i (swap_remove bs i)
      | false ↦ reap_from done fuel (suc i) bs
    ]
  ]

  unfoldable pub reap_retired_buckets : Runtime → W → Runtime
  unfolding reap_from
  reap_retired_buckets rt w = record rt {
    retired_buckets = reap_from (is_released w) (length rt.retired_buckets) 0 rt.retired_buckets;
  }

  -- What a call gives, with the place of the bucket; `none` is a panic.
  abbrev pub Answer : Type 0
  Answer = Option (Runtime × World W × Result ℕ (BucketError E fl))

  -- The new bucket is put at the end.
  unfoldable pub with_lanes :
      Runtime → Shapes → Shapes → World W → Result (List Lane × Option ℕ) (LanesError E) → Answer
  with_lanes rt inputs outputs world (err e) = some (rt, world, err (no_lanes e))
  with_lanes rt inputs outputs world (ok (lanes, graph_id)) =
      let (rt', r) = insert_bucket rt inputs outputs lanes graph_id in
      some (rt', world, elim r [ err e ↦ err (not_inserted e) | ok _ ↦ ok (length rt.buckets) ])

  unfoldable pub with_room :
      Shapes → Shapes → World W → Option (Runtime × W × Result (Unit {0}) (CacheError E)) → Answer
  unfolding with_lanes
  with_room inputs outputs world none = none
  with_room inputs outputs world (some (rt, w, err e)) =
      some (rt, record world { device = w }, err (no_room e))
  with_room inputs outputs world (some (rt, w, ok _)) =
      let (world', r) = new_lanes p s rt.cuda_graph (record world { device = w }) inputs outputs in
      with_lanes rt inputs outputs world' r

  unfoldable pub on_miss : Runtime → World W → Shapes → Shapes → Bool → Answer
  unfolding with_room any_busy
  on_miss rt world inputs outputs allow_create =
      if not allow_create
      then some (rt, world, err strict_cache_miss)
      else if rt.cuda_graph && any_busy rt.buckets
      then some (rt, world, err capture_overlaps_replay)
      else with_room inputs outputs world (evict_one_bucket_if_full p rt world.device)

  -- The lookup gave a place or none.
  unfoldable pub look_up : Runtime → World W → Shapes → Shapes → Bool → Option ℕ → Answer
  unfolding on_miss
  look_up rt world inputs outputs allow_create none = on_miss rt world inputs outputs allow_create
  look_up rt world inputs outputs allow_create (some i) = elim (get_elem? rt.buckets i) [
    | none ↦ none
    | some b ↦ some (touched rt i b, world, ok i)
  ]

  -- The plan admits the shapes, or not.
  unfoldable pub admitted :
      Runtime
      → World W
      → Shapes
      → Shapes
      → Bool
      → Option (Result (Unit {0}) (PlannedError fl))
      → Answer
  unfolding reap_retired_buckets look_up find_bucket_index
  admitted rt world inputs outputs allow_create none = none
  admitted rt world inputs outputs allow_create (some (err e)) = some (rt, world, err (planned e))
  admitted rt world inputs outputs allow_create (some (ok _)) =
      let rt' = reap_retired_buckets rt world.device in
      look_up rt' world inputs outputs allow_create (find_bucket_index rt' inputs outputs)

  unfoldable pub get_or_create_bucket_inner :
      Option (Plan fl) → Runtime → World W → Shapes → Shapes → Bool → Answer
  unfolding reclaim_dropped_runs_inner admitted
  get_or_create_bucket_inner plan rt world inputs outputs allow_create =
      let (rt₁, n) = reclaim_dropped_runs_inner rt in
      admitted rt₁ world inputs outputs allow_create
        (validate_planned_shape fl plan rt₁.cuda_graph inputs outputs)

  -- `bucket_mut`
  unfoldable pub bucket_mut : Runtime → Shapes → Shapes → Option (Runtime × Option ℕ)
  unfolding reclaim_dropped_runs_inner find_bucket_index
  bucket_mut rt inputs outputs =
      let (rt₁, n) = reclaim_dropped_runs_inner rt in
      elim (find_bucket_index rt₁ inputs outputs) [
        | none ↦ some (rt₁, none)
        | some i ↦ elim (get_elem? rt₁.buckets i) [
          | none ↦ none
          | some b ↦ some (touched rt₁ i b, some i)
        ]
      ]

  -- `get_or_create_bucket` creates unless the cache is strict.
  unfoldable pub get_or_create_bucket :
      Option (Plan fl) → Bool → Runtime → World W → Shapes → Shapes → Answer
  unfolding get_or_create_bucket_inner
  get_or_create_bucket plan strict_shape_cache rt world inputs outputs =
      get_or_create_bucket_inner plan rt world inputs outputs (not strict_shape_cache)

  -- The number of specs processed.
  unfoldable pub prebuild_buckets :
      Option (Plan fl)
      → List (Shapes × Shapes)
      → ℕ
      → Runtime
      → World W
      → Option (Runtime × World W × Result ℕ (BucketError E fl))
  unfolding get_or_create_bucket_inner
  prebuild_buckets plan [] count rt world = some (rt, world, ok count)
  prebuild_buckets plan ((inputs, outputs) ∷ specs) count rt world =
      elim (get_or_create_bucket_inner plan rt world inputs outputs true) [
        | none ↦ none
        | some (rt', world', err e) ↦ some (rt', world', err e)
        | some (rt', world', ok i) ↦ prebuild_buckets plan specs (suc count) rt' world'
      ]

  -- `prepared_bucket_id`; the outer `none` is a panic.
  unfoldable pub prepared_bucket_id : Runtime → Shapes → Shapes → Option (Option PreparedBucketId)
  unfolding find_bucket_index
  prepared_bucket_id rt inputs outputs = elim (find_bucket_index rt inputs outputs) [
    | none ↦ some none
    | some i ↦ elim (get_elem? rt.buckets i) [ none ↦ none | some b ↦ some (some b.id) ]
  ]

  -- `enqueue_owned`: a bucket that could not be given, or the enqueue's own result.
  unfoldable pub enqueue_owned :
      Option (Plan fl)
      → Bool
      → Runtime
      → World W
      → Shapes
      → Shapes
      → (Lane → Lane × Result (Unit {0}) E)
      → Option
          (Runtime × World W × Result (Result OwnedDynamicIoRun (CacheError E)) (BucketError E fl))
  unfolding get_or_create_bucket
  enqueue_owned plan strict_shape_cache rt world inputs outputs prepare =
      elim (get_or_create_bucket plan strict_shape_cache rt world inputs outputs) [
        | none ↦ none
        | some (rt', world', err e) ↦ some (rt', world', err e)
        | some (rt', world', ok i) ↦ elim (get_elem? rt'.buckets i) [
          | none ↦ none
          | some b ↦
              let (rt'', w, r) = enqueue_prepared p rt' world'.device b.id prepare in
              some (rt'', record world' { device = w }, ok r)
        ]
      ]
