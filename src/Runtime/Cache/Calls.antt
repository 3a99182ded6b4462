-- ===== src/Runtime/Cache/Calls.antt =====
-- Any sequence of calls on the cache.
use st_zrt.Common.{◌≡◌, refl, Option, none, some, List, [], ◌∷◌, Result}
use st_zrt.ShapePlan.{Shapes}
use st_zrt.Runtime.{PreparedBucketId}
use st_zrt.Runtime.Lane.{Provider, Lane}
use st_zrt.Runtime.Cache.{OwnedDynamicIoRun, Runtime}
use st_zrt.Runtime.Cache.Runs.{drop_owned_run, enqueue_prepared, complete_owned}
use st_zrt.Runtime.Cache.Retirement.{evict_one_bucket_if_full, remove_bucket}
use st_zrt.Runtime.Cache.Accounts.{CacheInv}
use st_zrt.Runtime.Cache.Moves.{
  drop-CacheInv, enqueue_prepared-CacheInv, complete-CacheInv, evict-CacheInv, remove-CacheInv,
}

pub data CacheCall (E : Type 0) : Type 0 where
  enqueues_on : PreparedBucketId → (Lane → Lane × Result (Unit {0}) E) → CacheCall E
  completes : OwnedDynamicIoRun → (Lane → Result (Unit {0}) E) → CacheCall E
  drops : OwnedDynamicIoRun → CacheCall E
  makes_room : CacheCall E
  removes_shapes : Shapes → Shapes → CacheCall E

module _ {W E : Type 0} (p : Provider W E) where
  abbrev pub without_result : {A : Type 0} → Option (Runtime × W × A) → Option (Runtime × W)
  without_result none = none
  without_result (some (rt, w, a)) = some (rt, w)

  -- `none` is a panic.
  unfoldable pub cache_call : CacheCall E → Runtime → W → Option (Runtime × W)
  cache_call (enqueues_on id prepare) rt w =
      let (rt', w', r) = enqueue_prepared p rt w id prepare in some (rt', w')
  cache_call (completes run consume) rt w =
      let (rt', w', r) = complete_owned p rt w run consume in some (rt', w')
  cache_call (drops run) rt w = some (drop_owned_run p rt w run)
  cache_call makes_room rt w = without_result (evict_one_bucket_if_full p rt w)
  cache_call (removes_shapes inputs outputs) rt w =
      without_result (remove_bucket p rt w inputs outputs)

  unfoldable pub cache_calls : List (CacheCall E) → Runtime → W → Option (Runtime × W)
  unfolding cache_call
  cache_calls [] rt w = some (rt, w)
  cache_calls (c ∷ cs) rt w = elim (cache_call c rt w) [
    | none ↦ none
    | some (rt', w') ↦ cache_calls cs rt' w'
  ]

  call-CacheInv :
      (c : CacheCall E) (rt : Runtime) (w : W)
      → CacheInv rt
      → (rt' : Runtime) × (w' : W) × (cache_call c rt w ≡ some (rt', w')) × CacheInv rt'
  unfolding cache_call
  call-CacheInv (enqueues_on id prepare) rt w inv =
      let (rt', w', r) = enqueue_prepared p rt w id prepare in
      (rt', w', refl, enqueue_prepared-CacheInv p rt w id prepare inv)
  call-CacheInv (completes run consume) rt w inv =
      let (rt', w', r) = complete_owned p rt w run consume in
      (rt', w', refl, complete-CacheInv p rt w run consume inv)
  call-CacheInv (drops run) rt w inv =
      let (rt', w') = drop_owned_run p rt w run in (rt', w', refl, drop-CacheInv p rt w run inv)
  call-CacheInv makes_room rt w inv =
      let (rt', w', r, e, inv') = evict-CacheInv p rt w inv in (rt', w', rw e, inv')
  call-CacheInv (removes_shapes inputs outputs) rt w inv =
      let (rt', w', r, e, inv') = remove-CacheInv p rt w inputs outputs inv in (rt', w', rw e, inv')

  -- Whatever runs are enqueued, completed or dropped, and whatever buckets are evicted or removed,
  -- with whatever failures of the provider: no call panics on an index out of range, in every bucket
  -- the lanes in it and those detached number the lanes of the runtime, and every bucket is known to
  -- the handle table at its index, if that was so at the start.
  pub accounts_kept :
      (cs : List (CacheCall E)) (rt : Runtime) (w : W)
      → CacheInv rt
      → (rt' : Runtime) × (w' : W) × (cache_calls cs rt w ≡ some (rt', w')) × CacheInv rt'
  unfolding cache_calls
  accounts_kept [] rt w inv = (rt, w, refl, inv)
  accounts_kept (c ∷ cs) rt w inv =
      let (rt₁, w₁, e, inv₁) = call-CacheInv c rt w inv in
      let (rt₂, w₂, rest, inv₂) = accounts_kept cs rt₁ w₁ inv₁ in
      (rt₂, w₂, rw (cache_calls, e) rest, inv₂)
