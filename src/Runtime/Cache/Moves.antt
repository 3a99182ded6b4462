-- ===== src/Runtime/Cache/Moves.antt =====
-- The operations of the cache keep its accounts.
use st_zrt.Common.{
  ℕ, ◌≡◌, refl, sym, ap, ◌∙◌, inl, inr, Bool, true, false, Option, none, some, length, get_elem?,
  arith, ltb, ◌==◌, any, Option-cases, Bool-cases, Result-cases, Result, ok, err, if◌then◌else◌,
}
use st_zrt.ShapePlan.{Shapes}
use st_zrt.Runtime.{PreparedBucketId}
use st_zrt.Runtime.Lane.{
  Provider, Lane, LaneError, run_enqueued, synchronize_outputs, finish_in_flight_best_effort,
}
use st_zrt.Runtime.Cache.{
  ShapeBucket, OwnedDynamicIoRun, Runtime, CacheError, graph_cache_full, all_buckets_busy,
  eviction_refused, oldest_from, detach_lane,
}
use st_zrt.Runtime.Cache.Runs.{
  reclaim_dropped_runs_inner, drop_owned_run, put_back_failed, enqueue_lane, enqueue_detached,
  enqueue_prepared, complete_owned,
}
use st_zrt.Runtime.Cache.Retirement.{
  cold, evict_found, keep_for_release, take_out, finish_lanes, retire_bucket_at,
  evict_one_bucket_if_full, remove_bucket,
}
use st_zrt.Runtime.Cache.Lookup.{lookup_cases, Oldest, oldest_from-Oldest}
use st_zrt.Runtime.Cache.Accounts.{
  CacheInv, take_out-CacheInv, return-CacheInv, detach-CacheInv, reclaim-CacheInv,
}

kept-CacheInv :
    (g : Option ℕ) (rt : Runtime) (b : ShapeBucket)
    → CacheInv rt
    → CacheInv (keep_for_release g rt b)
unfolding keep_for_release
kept-CacheInv none rt b inv = inv
kept-CacheInv (some _) rt b inv = record { known = inv.known; accounted = inv.accounted }

pub cold-CacheInv : (rt : Runtime) → CacheInv rt → CacheInv (cold rt)
cold-CacheInv rt inv = record { known = inv.known; accounted = inv.accounted }

module _ {W E : Type 0} (p : Provider W E) where
  choose-CacheInv :
      (b : Bool) (x y : Runtime) → CacheInv x → CacheInv y → CacheInv (if b then x else y)
  choose-CacheInv true x y i j = i
  choose-CacheInv false x y i j = j

  pub drop-CacheInv :
      (rt : Runtime) (w : W) (r : OwnedDynamicIoRun)
      → CacheInv rt
      → CacheInv (drop_owned_run p rt w r).0
  unfolding drop_owned_run
  drop-CacheInv rt w r inv =
      let (lane, w') = finish_in_flight_best_effort p r.lane w in
      elim (Option-cases lane.recovery_slot) [
        | inl missing ↦ rw (drop_owned_run, missing) inv
        | inr (slot, there) ↦
            rw (drop_owned_run, there)
              (choose-CacheInv lane.in_flight rt _ inv
                (record { known = inv.known; accounted = inv.accounted }))
      ]

  put_back-CacheInv :
      (rt : Runtime) (w : W) (id : PreparedBucketId) (lane : Lane)
      → CacheInv rt
      → CacheInv (put_back_failed p rt w id lane).0
  unfolding put_back_failed
  put_back-CacheInv rt w id lane inv =
      let (lane', w') = finish_in_flight_best_effort p lane w in
      choose-CacheInv lane'.in_flight rt _ inv (return-CacheInv E rt id lane' inv)

  enqueue_lane-CacheInv :
      (r : Result (Unit {0}) (LaneError E)) (rt : Runtime) (w : W) (id : PreparedBucketId)
      (lane : Lane) (w' : W)
      → CacheInv rt
      → CacheInv (enqueue_lane p rt w id (lane, w', r)).0
  unfolding enqueue_lane
  enqueue_lane-CacheInv (ok u) rt w id lane w' inv = inv
  enqueue_lane-CacheInv (err e) rt w id lane w' inv = put_back-CacheInv rt w' id lane inv

  enqueue_detached-CacheInv :
      (r : Result (Unit {0}) E) (rt : Runtime) (w : W) (id : PreparedBucketId) (lane : Lane)
      → CacheInv rt
      → CacheInv (enqueue_detached p rt w id (lane, r)).0
  unfolding enqueue_detached
  enqueue_detached-CacheInv (ok u) rt w id lane inv =
      let (l, w', r) = run_enqueued p lane w in enqueue_lane-CacheInv r rt w id l w' inv
  enqueue_detached-CacheInv (err e) rt w id lane inv = return-CacheInv E rt id lane inv

  pub enqueue_prepared-CacheInv :
      (rt : Runtime) (w : W) (id : PreparedBucketId) (prepare : Lane → Lane × Result (Unit {0}) E)
      → CacheInv rt
      → CacheInv (enqueue_prepared p rt w id prepare).0
  unfolding enqueue_prepared
  enqueue_prepared-CacheInv rt w id prepare inv =
      let (rt₁, n) = reclaim_dropped_runs_inner rt in
      let detached = detach-CacheInv E rt₁ id (reclaim-CacheInv rt inv) in
      elim (Result-cases (detach_lane {E = E} rt₁ id).1) [
        | inr (e, bad) ↦ rw (enqueue_prepared, bad) detached
        | inl (lane, good) ↦
            let (lane', r) = prepare lane in
            rw (enqueue_prepared, good) (enqueue_detached-CacheInv r _ w id lane' detached)
      ]

  pub complete-CacheInv :
      {R : Type 0} (rt : Runtime) (w : W) (run : OwnedDynamicIoRun) (consume : Lane → Result R E)
      → CacheInv rt
      → CacheInv (complete_owned p rt w run consume).0
  unfolding complete_owned
  complete-CacheInv rt w run consume inv =
      let (lane, w', r) = synchronize_outputs p run.lane w in
      elim (Bool-cases lane.in_flight) [
        | inl unfenced ↦ rw (complete_owned, unfenced) inv
        | inr fenced ↦ rw (complete_owned, fenced) (return-CacheInv E rt run.bucket_id lane inv)
      ]

  -- A bucket whose retirement is tried is in the cache: nothing panics.
  pub retire-CacheInv :
      (rt : Runtime) (w : W) (index : ℕ) (b : ShapeBucket)
      → CacheInv rt
      → get_elem? rt.buckets index ≡ some b
      → (rt' : Runtime) × (w' : W) × (done : Bool) × (retire_bucket_at p rt w index
          ≡ some (rt', w', done))
        × CacheInv rt'
  unfolding retire_bucket_at
  retire-CacheInv rt w index b inv there = elim (Bool-cases (b.detached_lanes == 0)) [
    | inr busy ↦ (rt, w, false, rw (retire_bucket_at, there, busy), inv)
    | inl idle ↦
        let (lanes, w') = finish_lanes p b.lanes w in
        let left = take_out-CacheInv rt index b inv there in
        let kept = keep_for_release b.graph_id (take_out rt index b) (record b { lanes = lanes }) in
        (
          if any (λ (l : Lane). l.in_flight) lanes then take_out rt index b else kept,
          w',
          true,
          rw (retire_bucket_at, there, idle),
          choose-CacheInv (any (λ (l : Lane). l.in_flight) lanes) (take_out rt index b) kept left
              (kept-CacheInv b.graph_id (take_out rt index b) (record b { lanes = lanes }) left),
        )
  ]

  evict_found-CacheInv :
      (found : Option (ℕ × ℕ)) (rt : Runtime) (w : W)
      → CacheInv rt
      → Oldest rt.buckets found 0
      → (rt' : Runtime) × (w' : W) × (r : Result (Unit {0}) (CacheError E)) × (evict_found p found
            rt w
          ≡ some (rt', w', r))
        × CacheInv rt'
  unfolding evict_found Oldest
  evict_found-CacheInv none rt w inv o = (rt, w, err all_buckets_busy, refl, inv)
  evict_found-CacheInv (some (oldest, used)) rt w inv (k, b, place, there, _, _, _) =
      let same : k ≡ oldest = omega (arith, place) in
      let (rt', w', done, retired, inv') =
        retire-CacheInv rt w oldest b inv (ap (get_elem? rt.buckets) (sym same) ∙ there) in
      (rt', w', if done then ok tt else err eviction_refused, rw (evict_found, retired), inv')

  pub evict-CacheInv :
      (rt : Runtime) (w : W)
      → CacheInv rt
      → (rt' : Runtime) × (w' : W) × (r : Result (Unit {0}) (CacheError E))
        × (evict_one_bucket_if_full p rt w ≡ some (rt', w', r))
        × CacheInv rt'
  unfolding evict_one_bucket_if_full
  evict-CacheInv rt w inv = elim (Bool-cases (ltb (length rt.buckets) rt.max_buckets)) [
    | inl room ↦ (rt, w, ok tt, rw (evict_one_bucket_if_full, room), inv)
    | inr full ↦ elim (Bool-cases rt.cuda_graph) [
      | inl graphs ↦ (rt, w, err graph_cache_full, simp (full, graphs), inv)
      | inr plain ↦
          let (rt', w', r, e, inv') =
            evict_found-CacheInv (oldest_from 0 rt.buckets) (cold rt) w (cold-CacheInv rt inv)
              (oldest_from-Oldest rt.buckets 0) in
          (rt', w', r, full_cache rt w full plain ∙ e, inv')
    ]
  ]
    where
      full_cache :
          (rt : Runtime) (w : W)
          → ltb (length rt.buckets) rt.max_buckets ≡ false
          → rt.cuda_graph ≡ false
          → evict_one_bucket_if_full p rt w ≡ evict_found p (oldest_from 0 rt.buckets) (cold rt) w
      full_cache rt w full plain = rw (evict_one_bucket_if_full, full, plain)

  pub remove-CacheInv :
      (rt : Runtime) (w : W) (inputs outputs : Shapes)
      → CacheInv rt
      → (rt' : Runtime) × (w' : W) × (done : Bool) × (remove_bucket p rt w inputs outputs
          ≡ some (rt', w', done))
        × CacheInv rt'
  unfolding remove_bucket
  remove-CacheInv rt w inputs outputs inv =
      let (rt₁, n) = reclaim_dropped_runs_inner rt in
      let reclaimed = reclaim-CacheInv rt inv in
      elim (lookup_cases rt₁ inputs outputs) [
        | inr (missed, _) ↦ (rt₁, w, false, rw (remove_bucket, missed), reclaimed)
        | inl (i, b, found, there, _) ↦ elim (Bool-cases (b.detached_lanes == 0)) [
          | inr busy ↦ (rt₁, w, false, rw (remove_bucket, found, there, busy), reclaimed)
          | inl idle ↦
              let (rt', w', done, retired, inv') =
                retire-CacheInv (cold rt₁) w i b (cold-CacheInv rt₁ reclaimed) there in
              (rt', w', done, rw (remove_bucket, found, there, idle) retired, inv')
        ]
      ]
