-- ===== src/Runtime/Cache/Retirement.antt =====
-- `retire_bucket_at`, `evict_one_bucket_if_full` and `remove_bucket`.
use st_zrt.Common.{
  ℕ, Bool, true, false, not, Option, none, some, List, [], ◌∷◌, ◌++◌, ltb, ◌==◌, if◌then◌else◌,
  length, get_elem?, any, swap_remove, Result, ok, err,
}
use st_zrt.ShapePlan.{Shapes}
use st_zrt.Runtime.Handles.{forget_at}
use st_zrt.Runtime.Lane.{Provider, Lane, finish_in_flight_best_effort}
use st_zrt.Runtime.Cache.{
  ShapeBucket, Runtime, CacheError, graph_cache_full, all_buckets_busy, eviction_refused,
  bucket_ids, find_bucket_index, oldest_from,
}
use st_zrt.Runtime.Cache.Runs.{reclaim_dropped_runs_inner}

-- The bucket is taken out of the list and of the handle table.
abbrev pub take_out : Runtime → ℕ → ShapeBucket → Runtime
take_out rt index b = record rt {
  buckets = swap_remove rt.buckets index;
  handles = forget_at rt.handles (bucket_ids rt.buckets) index b.id;
}

abbrev pub cold : Runtime → Runtime
cold rt = record rt { hot_bucket = none }

-- A bucket with a graph is kept while its graph is released.
unfoldable pub keep_for_release : Option ℕ → Runtime → ShapeBucket → Runtime
keep_for_release none rt b = rt
keep_for_release (some _) rt b = record rt { retired_buckets = rt.retired_buckets ++ b ∷ [] }

module _ {W E : Type 0} (p : Provider W E) where
  unfoldable pub finish_lanes : List Lane → W → List Lane × W
  finish_lanes [] w = ([], w)
  finish_lanes (l ∷ ls) w =
      let (l', w₁) = finish_in_flight_best_effort p l w in
      let (ls', w₂) = finish_lanes ls w₁ in (l' ∷ ls', w₂)

  -- `none` is the panic of an index out of range. A bucket with a lane that could not be fenced is
  -- leaked; one with a graph is kept until its graph is released.
  unfoldable pub retire_bucket_at : Runtime → W → ℕ → Option (Runtime × W × Bool)
  unfolding finish_lanes keep_for_release
  retire_bucket_at rt w index = elim (get_elem? rt.buckets index) [
    | none ↦ none
    | some b ↦
        if not (b.detached_lanes == 0)
        then some (rt, w, false)
        else (let (lanes, w') = finish_lanes b.lanes w in
            let finished = record b { lanes = lanes } in
            let left = take_out rt index b in
            some (
              if any (λ (l : Lane). l.in_flight) lanes
                  then left
                  else keep_for_release b.graph_id left finished,
              w',
              true,
            ))
  ]

  -- The eviction of the bucket that was found, if one was.
  unfoldable pub evict_found :
      Option (ℕ × ℕ) → Runtime → W → Option (Runtime × W × Result (Unit {0}) (CacheError E))
  unfolding retire_bucket_at
  evict_found none rt w = some (rt, w, err all_buckets_busy)
  evict_found (some (oldest, _)) rt w = elim (retire_bucket_at rt w oldest) [
    | none ↦ none
    | some (rt', w', retired) ↦ some (rt', w', if retired then ok tt else err eviction_refused)
  ]

  unfoldable pub evict_one_bucket_if_full :
      Runtime → W → Option (Runtime × W × Result (Unit {0}) (CacheError E))
  unfolding oldest_from evict_found
  evict_one_bucket_if_full rt w =
      if ltb (length rt.buckets) rt.max_buckets
      then some (rt, w, ok tt)
      else if rt.cuda_graph
      then some (rt, w, err graph_cache_full)
      else evict_found (oldest_from 0 rt.buckets) (cold rt) w

  unfoldable pub remove_bucket : Runtime → W → Shapes → Shapes → Option (Runtime × W × Bool)
  unfolding reclaim_dropped_runs_inner find_bucket_index retire_bucket_at
  remove_bucket rt w inputs outputs =
      let (rt₁, n) = reclaim_dropped_runs_inner rt in
      elim (find_bucket_index rt₁ inputs outputs) [
        | none ↦ some (rt₁, w, false)
        | some i ↦ elim (get_elem? rt₁.buckets i) [
          | none ↦ none
          | some b ↦
              if not (b.detached_lanes == 0)
              then some (rt₁, w, false)
              else retire_bucket_at (cold rt₁) w i
        ]
      ]
