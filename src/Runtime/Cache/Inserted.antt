-- ===== src/Runtime/Cache/Inserted.antt =====
-- What the insertion of a bucket at the end of `get_or_create_bucket_inner` leaves, on every branch.
use st_zrt.Common.{
  ℕ, ◌≡◌, refl, subst, inl, inr, Option, some, List, [], ◌∷◌, ◌++◌, length, arith, checked_mul,
  usize_mod, Option-cases, Result, ok, err,
}
use st_zrt.ShapePlan.{Shapes}
use st_zrt.Runtime.{PreparedBucketId}
use st_zrt.Runtime.Handles.{Handles, slots_exhausted, allocate_prepared_bucket_id}
use st_zrt.Runtime.Handles.Linked.{Linked}
use st_zrt.Runtime.Handles.Allocate.{allocate-Linked}
use st_zrt.Runtime.Lane.{Lane}
use st_zrt.Runtime.Cache.{ShapeBucket, Runtime, bucket_ids, next_tick}
use st_zrt.Runtime.Cache.Ids.{length-bucket_ids}
use st_zrt.Runtime.Cache.Accounts.{CacheInv}
use st_zrt.Runtime.Cache.Creation.{
  CreateError, handle_error, recovery_slot_overflow, new_bucket, push_bucket, insert_bucket,
  snoc-CacheInv, length-number_lanes,
}

-- What the insertion of lanes into `rt` leaves.
unfoldable pub Pushed :
    Runtime → Shapes → Shapes → Runtime → Result PreparedBucketId CreateError → Type 0
Pushed rt inputs outputs rt' (ok id) =
    CacheInv rt'
    × ((b : ShapeBucket) × (rt'.buckets ≡ rt.buckets ++ b ∷ [])
        × (b.inputs ≡ inputs)
        × (b.outputs ≡ outputs))
Pushed rt inputs outputs rt' (err (handle_error x)) = CacheInv rt' × (rt'.buckets ≡ rt.buckets)
Pushed rt inputs outputs rt' (err recovery_slot_overflow) = rt'.buckets ≡ rt.buckets

module _ (rt : Runtime) (inputs outputs : Shapes) (lanes : List Lane) (graph_id : Option ℕ)
    (inv : CacheInv rt) (full : length lanes ≡ rt.lane_count) where
  push-Pushed :
      (h : Handles) (id : PreparedBucketId) (tick : ℕ)
      → Linked h (bucket_ids rt.buckets ++ id ∷ []) (length (bucket_ids rt.buckets ++ id ∷ []))
      → let (rt', r) =
          push_bucket
            (record rt { handles = h; tick = tick })
            inputs
            outputs
            lanes
            tick
            graph_id
            (ok id) in
        Pushed rt inputs outputs rt' r
  unfolding push_bucket Pushed
  push-Pushed h id tick l = elim (Option-cases (checked_mul usize_mod id.slot rt.lane_count)) [
    | inl over ↦ rw (push_bucket, over) refl
    | inr (base, fits) ↦
        let b = new_bucket inputs outputs id base lanes tick graph_id in
        let rt₁ : Runtime = record rt { tick = tick } in
        let inv₁ : CacheInv rt₁ = record { known = inv.known; accounted = inv.accounted } in
        rw (push_bucket, fits)
          (
            snoc-CacheInv rt₁ h b (some (length rt.buckets)) inv₁ l
                (omega (arith, length-number_lanes base lanes, full)),
            (b, refl, refl, refl),
          )
  ]

  pub insert-Pushed :
      let (rt', r) = insert_bucket rt inputs outputs lanes graph_id in
      Pushed rt inputs outputs rt' r
  unfolding insert_bucket next_tick push_bucket Pushed
  insert-Pushed =
      let (rt₁, tick) = next_tick rt in
      let size = length-bucket_ids rt.buckets in
      elim (allocate-Linked rt.handles (bucket_ids rt.buckets) inv.known) [
        | inr (refused, _) ↦
            let refused' =
              subst
                (λ n. allocate_prepared_bucket_id rt.handles n ≡ (rt.handles, err slots_exhausted))
                size refused in
            rw (insert_bucket, refused')
              (record { known = inv.known; accounted = inv.accounted }, refl)
        | inl (h, given, allocated, l) ↦
            let allocated' =
              subst (λ n. allocate_prepared_bucket_id rt.handles n ≡ (h, ok given)) size
                allocated in
            rw (insert_bucket, allocated') (push-Pushed h given tick l)
      ]
