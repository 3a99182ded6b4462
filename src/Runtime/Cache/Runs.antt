-- ===== src/Runtime/Cache/Runs.antt =====
-- `enqueue_prepared`, `complete_owned`, the drop of an owned run and the recovery of its lane.
use st_zrt.Common.{ℕ, ◌+◌, ◌-◌, none, some, List, [], ◌∷◌, ◌==◌, if◌then◌else◌, Result, ok, err}
use st_zrt.Runtime.{PreparedBucketId}
use st_zrt.Runtime.Lane.{
  Provider, Lane, LaneError, run_enqueued, synchronize_outputs, finish_in_flight_best_effort,
}
use st_zrt.Runtime.Cache.{
  OwnedDynamicIoRun, Runtime, CacheError, user, lane_error, with_bucket, resolve,
  return_detached_lane, detach_lane,
}

-- One lane of a dropped run, put back into its bucket; the flag says whether it was.
unfoldable pub reclaim_one : Runtime → OwnedDynamicIoRun → Runtime × ℕ
unfolding resolve
reclaim_one rt r = elim (resolve rt r.bucket_id) [
  | none ↦ (rt, 0)
  | some (i, b) ↦ if b.detached_lanes == 0 then (rt, 0) else (
    with_bucket rt i (record b { lanes = r.lane ∷ b.lanes; detached_lanes = b.detached_lanes - 1 }),
    1,
  )
]

unfoldable pub reclaim_each : List OwnedDynamicIoRun → Runtime → Runtime × ℕ
unfolding reclaim_one
reclaim_each [] rt = (rt, 0)
reclaim_each (r ∷ rs) rt =
    let (rt₁, n) = reclaim_one rt r in let (rt₂, m) = reclaim_each rs rt₁ in (rt₂, n + m)

unfoldable pub reclaim_dropped_runs_inner : Runtime → Runtime × ℕ
unfolding reclaim_each
reclaim_dropped_runs_inner rt = reclaim_each rt.recovered (record rt { recovered = [] })

module _ {W E : Type 0} (p : Provider W E) where
  -- A lane that could not be fenced is leaked.
  unfoldable pub drop_owned_run : Runtime → W → OwnedDynamicIoRun → Runtime × W
  drop_owned_run rt w r =
      let (lane, w') = finish_in_flight_best_effort p r.lane w in
      elim lane.recovery_slot [
        | none ↦ (rt, w')
        | some _ ↦ (
          if lane.in_flight then rt else record rt {
            recovered = record { lane = lane; bucket_id = r.bucket_id } ∷ rt.recovered;
          },
          w',
        )
      ]

  -- A lane whose run failed goes back, unless it could not be fenced.
  unfoldable pub put_back_failed : Runtime → W → PreparedBucketId → Lane → Runtime × W
  unfolding return_detached_lane
  put_back_failed rt w id lane =
      let (lane', w') = finish_in_flight_best_effort p lane w in
      (
        if lane'.in_flight
            then rt
            else (let (rt', r) = return_detached_lane {E = E} rt id lane' in rt'),
        w',
      )

  -- The rest of `enqueue_prepared`, on a lane that was taken out and prepared.
  unfoldable pub enqueue_lane :
      Runtime
      → W
      → PreparedBucketId
      → Lane × W × Result (Unit {0}) (LaneError E)
      → Runtime × W × Result OwnedDynamicIoRun (CacheError E)
  unfolding put_back_failed
  enqueue_lane rt w id (lane, w', ok _) = (rt, w', ok (record { lane = lane; bucket_id = id }))
  enqueue_lane rt w id (lane, w', err e) =
      let (rt', w'') = put_back_failed rt w' id lane in (rt', w'', err (lane_error e))

  unfoldable pub enqueue_detached :
      Runtime
      → W
      → PreparedBucketId
      → Lane × Result (Unit {0}) E
      → Runtime × W × Result OwnedDynamicIoRun (CacheError E)
  unfolding enqueue_lane return_detached_lane
  enqueue_detached rt w id (lane, ok _) = enqueue_lane rt w id (run_enqueued p lane w)
  enqueue_detached rt w id (lane, err e) =
      let (rt', r) = return_detached_lane {E = E} rt id lane in (rt', w, err (user e))

  unfoldable pub enqueue_prepared :
      Runtime
      → W
      → PreparedBucketId
      → (Lane → Lane × Result (Unit {0}) E)
      → Runtime × W × Result OwnedDynamicIoRun (CacheError E)
  unfolding detach_lane enqueue_detached reclaim_dropped_runs_inner
  enqueue_prepared rt w id prepare =
      let (rt₁, n) = reclaim_dropped_runs_inner rt in
      let (rt₂, r) = detach_lane rt₁ id in
      elim r [ err e ↦ (rt₂, w, err e) | ok lane ↦ enqueue_detached rt₂ w id (prepare lane) ]

  abbrev pub both :
      {R : Type 0}
      → Result R (CacheError E)
      → Result (Unit {0}) (CacheError E)
      → Result R (CacheError E)
  both (err e) _ = err e
  both (ok _) (err e) = err e
  both (ok v) (ok _) = ok v

  abbrev pub consumed :
      {R : Type 0}
      → (Lane → Result R E)
      → Lane
      → Result (Unit {0}) (LaneError E)
      → Result R (CacheError E)
  consumed consume lane (err e) = err (lane_error e)
  consumed consume lane (ok _) = elim (consume lane) [ ok v ↦ ok v | err e ↦ err (user e) ]

  unfoldable pub complete_owned :
      {R : Type 0}
      → Runtime
      → W
      → OwnedDynamicIoRun
      → (Lane → Result R E)
      → Runtime × W × Result R (CacheError E)
  unfolding return_detached_lane
  complete_owned rt w run consume =
      let (lane, w', sync_result) = synchronize_outputs p run.lane w in
      let consume_result = consumed consume lane sync_result in
      if lane.in_flight
      then (rt, w', consume_result)
      else (let (rt', return_result) = return_detached_lane rt run.bucket_id lane in
          (rt', w', both consume_result return_result))
