-- ===== src/Runtime/Cache/Creation.antt =====
-- The end of `get_or_create_bucket_inner`: lanes that were built become a bucket of the cache.
use st_zrt.Common.{
  ℕ, suc, ◌+◌, ◌≡◌, refl, sym, ap, subst, inl, inr, Option, none, some, List, [], ◌∷◌, ◌++◌, length,
  get_elem?-snoc_cases, checked_mul, usize_mod, Result, ok, err,
}
use st_zrt.ShapePlan.{Shapes}
use st_zrt.Runtime.{PreparedBucketId}
use st_zrt.Runtime.Handles.{Handles, HandleError, allocate_prepared_bucket_id}
use st_zrt.Runtime.Handles.Linked.{Linked}
use st_zrt.Runtime.Lane.{Lane}
use st_zrt.Runtime.Cache.{ShapeBucket, Runtime, bucket_ids, next_tick}
use st_zrt.Runtime.Cache.Accounts.{CacheInv}

pub data CreateError : Type 0 where
  handle_error : HandleError → CreateError
  recovery_slot_overflow : CreateError

-- The last lane, at the head, has the highest recovery slot.
unfoldable pub number_lanes : ℕ → List Lane → List Lane
number_lanes slot_base [] = []
number_lanes slot_base (l ∷ ls) =
    record l { recovery_slot = some (slot_base + length ls) } ∷ number_lanes slot_base ls

abbrev pub new_bucket :
    Shapes → Shapes → PreparedBucketId → ℕ → List Lane → ℕ → Option ℕ → ShapeBucket
new_bucket inputs outputs id slot_base lanes tick graph_id = record {
  inputs = inputs;
  outputs = outputs;
  id = id;
  lanes = number_lanes slot_base lanes;
  last_used = tick;
  detached_lanes = 0;
  graph_id = graph_id;
}

-- What follows the allocation of a handle, with the runtime that has the new table.
unfoldable pub push_bucket :
    Runtime
    → Shapes
    → Shapes
    → List Lane
    → ℕ
    → Option ℕ
    → Result PreparedBucketId HandleError
    → Runtime × Result PreparedBucketId CreateError
push_bucket rt inputs outputs lanes tick graph_id (err x) = (rt, err (handle_error x))
push_bucket rt inputs outputs lanes tick graph_id (ok id) =
    elim (checked_mul usize_mod id.slot rt.lane_count) [
      | none ↦ (rt, err recovery_slot_overflow)
      | some base ↦ (
        record rt {
          buckets = rt.buckets ++ new_bucket inputs outputs id base lanes tick graph_id ∷ [];
          hot_bucket = some (length rt.buckets);
        },
        ok id,
      )
    ]

unfoldable pub insert_bucket :
    Runtime → Shapes → Shapes → List Lane → Option ℕ → Runtime × Result PreparedBucketId CreateError
unfolding next_tick push_bucket
insert_bucket rt inputs outputs lanes graph_id =
    let (rt₁, tick) = next_tick rt in
    let (h, r) = allocate_prepared_bucket_id rt₁.handles (length rt₁.buckets) in
    push_bucket (record rt₁ { handles = h }) inputs outputs lanes tick graph_id r

pub length-number_lanes : (base : ℕ) (ls : List Lane) → length (number_lanes base ls) ≡ length ls
unfolding number_lanes
length-number_lanes base [] = refl
length-number_lanes base (l ∷ ls) = ap suc (length-number_lanes base ls)

bucket_ids-snoc :
    (bs : List ShapeBucket) (b : ShapeBucket)
    → bucket_ids (bs ++ b ∷ []) ≡ bucket_ids bs ++ b.id ∷ []
bucket_ids-snoc [] b = refl
bucket_ids-snoc (x ∷ bs) b = ap (λ (ks : List PreparedBucketId). x.id ∷ ks) (bucket_ids-snoc bs b)

-- A new bucket with all its lanes, at the end of the buckets of a runtime whose table knows them.
pub snoc-CacheInv :
    (rt : Runtime) (h : Handles) (b : ShapeBucket) (hot : Option ℕ)
    → CacheInv rt
    → Linked h (bucket_ids rt.buckets ++ b.id ∷ []) (length (bucket_ids rt.buckets ++ b.id ∷ []))
    → b.detached_lanes + length b.lanes ≡ rt.lane_count
    → CacheInv (record rt { handles = h; buckets = rt.buckets ++ b ∷ []; hot_bucket = hot })
snoc-CacheInv rt h b hot inv l sum = record {
  known =
      subst (λ (ids : List PreparedBucketId). Linked h ids (length ids))
        (sym (bucket_ids-snoc rt.buckets b)) l;
  accounted = λ i c e. elim (get_elem?-snoc_cases rt.buckets b i e) [
    | inl old ↦ inv.accounted i c old
    | inr (_, same) ↦
        subst (λ (x : ShapeBucket). x.detached_lanes + length x.lanes ≡ rt.lane_count) same sum
  ];
}

pub ticked-CacheInv : (rt : Runtime) → CacheInv rt → CacheInv (next_tick rt).0
unfolding next_tick
ticked-CacheInv rt inv = record { known = inv.known; accounted = inv.accounted }
