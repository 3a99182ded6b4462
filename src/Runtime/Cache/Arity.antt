-- ===== src/Runtime/Cache/Arity.antt =====
-- Recovered lanes leave the shapes of the buckets as they are.
use st_zrt.Common.{
  ℕ, ◌≡◌, refl, subst, inl, inr, List, [], ◌∷◌, some, length, get_elem?, get_elem?-set_cases, ◌==◌,
  Option-cases, Bool-cases,
}
use st_zrt.Runtime.Cache.{ShapeBucket, OwnedDynamicIoRun, Runtime, resolve, with_bucket}
use st_zrt.Runtime.Cache.Runs.{reclaim_one, reclaim_each, reclaim_dropped_runs_inner}
use st_zrt.Runtime.Cache.Ids.{resolve-some}
use st_zrt.Runtime.Cache.Lookup.{HasArity}

module _ {n m : ℕ} where
  with_bucket-HasArity :
      (rt : Runtime) (i : ℕ) (b b' : ShapeBucket)
      → get_elem? rt.buckets i ≡ some b
      → b'.inputs ≡ b.inputs
      → b'.outputs ≡ b.outputs
      → HasArity n m rt
      → HasArity n m (with_bucket rt i b')
  with_bucket-HasArity rt i b b' there ins outs arity j c at =
      elim (get_elem?-set_cases rt.buckets i j b' at) [
        | inl (same, now) ↦
            let (k, l) = arity i b there in
            subst (λ (x : ShapeBucket). (length x.inputs ≡ n) × (length x.outputs ≡ m)) now
              (rw ins k, rw outs l)
        | inr (apart, old) ↦ arity j c old
      ]

  reclaim_one-HasArity :
      (rt : Runtime) (r : OwnedDynamicIoRun) → HasArity n m rt → HasArity n m (reclaim_one rt r).0
  unfolding reclaim_one
  reclaim_one-HasArity rt r arity = elim (Option-cases (resolve rt r.bucket_id)) [
    | inl gone ↦ rw (reclaim_one, gone) arity
    | inr ((i, b), found) ↦ elim (Bool-cases (b.detached_lanes == 0)) [
      | inl none_out ↦ rw (reclaim_one, found, none_out) arity
      | inr some_out ↦
          let there = resolve-some rt r.bucket_id found in
          rw (reclaim_one, found, some_out) (with_bucket-HasArity rt i b _ there refl refl arity)
    ]
  ]

  reclaim_each-HasArity :
      (rs : List OwnedDynamicIoRun) (rt : Runtime)
      → HasArity n m rt
      → HasArity n m (reclaim_each rs rt).0
  unfolding reclaim_each
  reclaim_each-HasArity [] rt arity = arity
  reclaim_each-HasArity (r ∷ rs) rt arity =
      reclaim_each-HasArity rs (reclaim_one rt r).0 (reclaim_one-HasArity rt r arity)

  pub reclaim-HasArity :
      (rt : Runtime) → HasArity n m rt → HasArity n m (reclaim_dropped_runs_inner rt).0
  unfolding reclaim_dropped_runs_inner
  reclaim-HasArity rt arity =
      reclaim_each-HasArity rt.recovered (record rt { recovered = [] }) arity
