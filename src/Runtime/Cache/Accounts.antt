-- ===== src/Runtime/Cache/Accounts.antt =====
-- The accounts of the cache: every lane of a bucket is in it or detached, and every bucket is known
-- under its handle.
use st_zrt.Common.{
  ℕ, suc, ◌+◌, ◌-◌, ◌≡◌, refl, sym, ap, subst, inl, inr, some, List, [], ◌∷◌, length, get_elem?,
  arith, Option-cases, Bool-cases, get_elem?-set_cases, swap_remove_cases, checked_add, usize_mod,
  leb, ◌==◌,
}
use st_zrt.Runtime.{PreparedBucketId}
use st_zrt.Runtime.Handles.Linked.{Linked}
use st_zrt.Runtime.Handles.Repair.{forget_at-Linked}
use st_zrt.Runtime.Lane.{Lane}
use st_zrt.Runtime.Cache.{
  ShapeBucket, OwnedDynamicIoRun, Runtime, bucket_ids, with_bucket, resolve, return_detached_lane,
  pop_lane, detach_lane,
}
use st_zrt.Runtime.Cache.Runs.{reclaim_one, reclaim_each, reclaim_dropped_runs_inner}
use st_zrt.Runtime.Cache.Retirement.{take_out}
use st_zrt.Runtime.Cache.Ids.{
  get_elem?-bucket_ids, bucket_ids-set, bucket_ids-swap_remove, resolve-some,
}

abbrev pub Known : Runtime → List ShapeBucket → Type 0
Known rt bs = Linked rt.handles (bucket_ids bs) (length (bucket_ids bs))

pub record CacheInv (rt : Runtime) : Type 0 where
  pub known : Known rt rt.buckets
  pub accounted :
      (i : ℕ) (b : ShapeBucket)
      → get_elem? rt.buckets i ≡ some b
      → b.detached_lanes + length b.lanes ≡ rt.lane_count

pub with_bucket-CacheInv :
    (rt : Runtime) (i : ℕ) (b b' : ShapeBucket)
    → CacheInv rt
    → get_elem? rt.buckets i ≡ some b
    → b'.id ≡ b.id
    → b'.detached_lanes + length b'.lanes ≡ rt.lane_count
    → CacheInv (with_bucket rt i b')
with_bucket-CacheInv rt i b b' inv e same sum = record {
  known =
      subst (λ (ids : List PreparedBucketId). Linked rt.handles ids (length ids))
        (sym (bucket_ids-set rt.buckets i b b' e same)) inv.known;
  accounted = λ j c f. elim (get_elem?-set_cases rt.buckets i j b' f) [
    | inl (_, equal) ↦
        subst (λ (x : ShapeBucket). x.detached_lanes + length x.lanes ≡ rt.lane_count) equal sum
    | inr (_, old) ↦ inv.accounted j c old
  ];
}

pub take_out-CacheInv :
    (rt : Runtime) (i : ℕ) (b : ShapeBucket)
    → CacheInv rt
    → get_elem? rt.buckets i ≡ some b
    → CacheInv (take_out rt i b)
take_out-CacheInv rt i b inv e = record {
  known =
      subst (λ (ids : List PreparedBucketId). Linked (take_out rt i b).handles ids (length ids))
        (sym (bucket_ids-swap_remove rt.buckets i))
        (forget_at-Linked rt.handles (bucket_ids rt.buckets) i b.id inv.known
          (get_elem?-bucket_ids rt.buckets i e));
  accounted = λ j c f. elim (swap_remove_cases rt.buckets i j f).1 [
    | inl (_, last) ↦ inv.accounted (length rt.buckets - 1) c last
    | inr (_, old) ↦ inv.accounted j c old
  ];
}

-- A lane that is put back was detached before.
pub return-CacheInv :
    (E : Type 0) (rt : Runtime) (id : PreparedBucketId) (lane : Lane)
    → CacheInv rt
    → CacheInv (return_detached_lane {E = E} rt id lane).0
unfolding return_detached_lane
return-CacheInv E rt id lane inv = elim (Option-cases (resolve rt id)) [
  | inl gone ↦ rw (return_detached_lane, gone) inv
  | inr ((i, b), found) ↦ elim (Bool-cases (b.detached_lanes == 0)) [
    | inl none_out ↦ rw (return_detached_lane, found, none_out) inv
    | inr some_out ↦ elim (Bool-cases (leb rt.lane_count (length b.lanes))) [
      | inl full ↦ rw (return_detached_lane, found, some_out, full) inv
      | inr room ↦
          let there = resolve-some rt id found in
          rw (return_detached_lane, found, some_out, room)
            (with_bucket-CacheInv rt i b
              (record b { lanes = lane ∷ b.lanes; detached_lanes = b.detached_lanes - 1 }) inv there
              refl (ground (arith, some_out, inv.accounted i b there)))
    ]
  ]
]

pop-CacheInv :
    (E : Type 0) (rt : Runtime) (i : ℕ) (b : ShapeBucket) (lanes : List Lane)
    → CacheInv rt
    → get_elem? rt.buckets i ≡ some b
    → b.lanes ≡ lanes
    → CacheInv (pop_lane {E = E} rt i b lanes).0
unfolding pop_lane
pop-CacheInv E rt i b [] inv there filled = inv
pop-CacheInv E rt i b (lane ∷ rest) inv there filled =
    with_bucket-CacheInv rt i b (record b { lanes = rest; detached_lanes = suc b.detached_lanes })
      inv there refl (omega (arith, inv.accounted i b there, ap length filled))

pub detach-CacheInv :
    (E : Type 0) (rt : Runtime) (id : PreparedBucketId)
    → CacheInv rt
    → CacheInv (detach_lane {E = E} rt id).0
unfolding detach_lane
detach-CacheInv E rt id inv = elim (Option-cases (resolve rt id)) [
  | inl gone ↦ rw (detach_lane, gone) inv
  | inr ((i, b), found) ↦
      elim (Option-cases (checked_add usize_mod b.detached_lanes (length b.lanes))) [
        | inl over ↦ rw (detach_lane, found, over) inv
        | inr (n, sum) ↦ elim (Bool-cases (n == rt.lane_count)) [
          | inr diverged ↦ rw (detach_lane, found, sum, diverged) inv
          | inl agrees ↦
              rw (detach_lane, found, sum, agrees)
                (pop-CacheInv E rt i b b.lanes inv (resolve-some rt id found) refl)
        ]
      ]
]

reclaim_one-CacheInv :
    (rt : Runtime) (r : OwnedDynamicIoRun) → CacheInv rt → CacheInv (reclaim_one rt r).0
unfolding reclaim_one
reclaim_one-CacheInv rt r inv = elim (Option-cases (resolve rt r.bucket_id)) [
  | inl gone ↦ rw (reclaim_one, gone) inv
  | inr ((i, b), found) ↦ elim (Bool-cases (b.detached_lanes == 0)) [
    | inl none_out ↦ rw (reclaim_one, found, none_out) inv
    | inr some_out ↦
        let there = resolve-some rt r.bucket_id found in
        rw (reclaim_one, found, some_out)
          (with_bucket-CacheInv rt i b
            (record b { lanes = r.lane ∷ b.lanes; detached_lanes = b.detached_lanes - 1 }) inv there
            refl (ground (arith, some_out, inv.accounted i b there)))
  ]
]

reclaim_each-CacheInv :
    (rs : List OwnedDynamicIoRun) (rt : Runtime) → CacheInv rt → CacheInv (reclaim_each rs rt).0
unfolding reclaim_each
reclaim_each-CacheInv [] rt inv = inv
reclaim_each-CacheInv (r ∷ rs) rt inv =
    reclaim_each-CacheInv rs (reclaim_one rt r).0 (reclaim_one-CacheInv rt r inv)

pub reclaim-CacheInv : (rt : Runtime) → CacheInv rt → CacheInv (reclaim_dropped_runs_inner rt).0
unfolding reclaim_dropped_runs_inner
reclaim-CacheInv rt inv =
    reclaim_each-CacheInv rt.recovered (record rt { recovered = [] })
      (record { known = inv.known; accounted = inv.accounted })
