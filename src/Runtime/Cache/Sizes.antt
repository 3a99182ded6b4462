-- ===== src/Runtime/Cache/Sizes.antt =====
-- The number of buckets stays within its bound, and the settings of the runtime stay as they are.
use st_zrt.Common.{
  ℕ, ◌≤◌, ◌<◌, ◌≡◌, sym, subst, ◌∙◌, inl, inr, Bool, true, false, Option, none, some, List, [], ◌∷◌,
  length, get_elem?, arith, ltb, ltb→lt, ◌==◌, any, if◌then◌else◌, Option-cases, Bool-cases, Result,
  ok, length-set, length-swap_remove, lt_of_get_elem?,
}
use st_zrt.Runtime.Lane.{Provider, Lane}
use st_zrt.Runtime.Cache.{
  ShapeBucket, OwnedDynamicIoRun, Runtime, CacheError, oldest_from, resolve, with_bucket,
}
use st_zrt.Runtime.Cache.Runs.{reclaim_one, reclaim_each, reclaim_dropped_runs_inner}
use st_zrt.Runtime.Cache.Retirement.{
  cold, take_out, keep_for_release, finish_lanes, retire_bucket_at, evict_found,
  evict_one_bucket_if_full,
}

-- The settings, and at most `max` buckets.
pub record IsSized (n max : ℕ) (cuda_graph : Bool) (rt : Runtime) : Type 0 where
  pub lanes : rt.lane_count ≡ n
  pub limit : rt.max_buckets ≡ max
  pub graphs : rt.cuda_graph ≡ cuda_graph
  pub within : length rt.buckets ≤ max

module _ (n max : ℕ) (g : Bool) where
  with_bucket-IsSized :
      (rt : Runtime) (i : ℕ) (b : ShapeBucket)
      → IsSized n max g rt
      → IsSized n max g (with_bucket rt i b)
  with_bucket-IsSized rt i b z = record {
    lanes = z.lanes;
    limit = z.limit;
    graphs = z.graphs;
    within = rw (length-set rt.buckets i b) z.within;
  }

  reclaim_one-IsSized :
      (rt : Runtime) (r : OwnedDynamicIoRun)
      → IsSized n max g rt
      → IsSized n max g (reclaim_one rt r).0
  unfolding reclaim_one
  reclaim_one-IsSized rt r z = elim (Option-cases (resolve rt r.bucket_id)) [
    | inl gone ↦ rw (reclaim_one, gone) z
    | inr ((i, b), found) ↦ elim (Bool-cases (b.detached_lanes == 0)) [
      | inl none_out ↦ rw (reclaim_one, found, none_out) z
      | inr some_out ↦ rw (reclaim_one, found, some_out) (with_bucket-IsSized rt i _ z)
    ]
  ]

  reclaim_each-IsSized :
      (rs : List OwnedDynamicIoRun) (rt : Runtime)
      → IsSized n max g rt
      → IsSized n max g (reclaim_each rs rt).0
  unfolding reclaim_each
  reclaim_each-IsSized [] rt z = z
  reclaim_each-IsSized (r ∷ rs) rt z =
      reclaim_each-IsSized rs (reclaim_one rt r).0 (reclaim_one-IsSized rt r z)

  pub reclaim-IsSized :
      (rt : Runtime) → IsSized n max g rt → IsSized n max g (reclaim_dropped_runs_inner rt).0
  unfolding reclaim_dropped_runs_inner
  reclaim-IsSized rt z =
      reclaim_each-IsSized rt.recovered (record rt { recovered = [] })
        (record { lanes = z.lanes; limit = z.limit; graphs = z.graphs; within = z.within })

  -- Room for one more bucket.
  abbrev pub HasRoom : Runtime → Type 0
  HasRoom rt = IsSized n max g rt × (length rt.buckets < max)

  kept-HasRoom :
      (graph_id : Option ℕ) (rt : Runtime) (b : ShapeBucket)
      → HasRoom rt
      → HasRoom (keep_for_release graph_id rt b)
  unfolding keep_for_release
  kept-HasRoom none rt b h = h
  kept-HasRoom (some id) rt b (z, room) =
      (record { lanes = z.lanes; limit = z.limit; graphs = z.graphs; within = z.within }, room)

  take_out-HasRoom :
      (rt : Runtime) (i : ℕ) (b : ShapeBucket)
      → IsSized n max g rt
      → get_elem? rt.buckets i ≡ some b
      → HasRoom (take_out rt i b)
  take_out-HasRoom rt i b z there =
      let fewer = length-swap_remove rt.buckets i in
      let some_bucket = lt_of_get_elem? rt.buckets i there in
      (
        record {
          lanes = z.lanes;
          limit = z.limit;
          graphs = z.graphs;
          within = omega (arith, fewer, z.within);
        },
        omega (arith, fewer, z.within),
      )

  choose-HasRoom : (b : Bool) (x y : Runtime) → HasRoom x → HasRoom y → HasRoom (if b then x else y)
  choose-HasRoom true x y i j = i
  choose-HasRoom false x y i j = j

  module _ {W E : Type 0} (p : Provider W E) where
    retire-HasRoom :
        (rt : Runtime) (w : W) (i : ℕ) {rt' : Runtime} {w' : W}
        → IsSized n max g rt
        → retire_bucket_at p rt w i ≡ some (rt', w', true)
        → HasRoom rt'
    unfolding retire_bucket_at
    retire-HasRoom rt w i {rt'} {w'} z e = elim (Option-cases (get_elem? rt.buckets i)) [
      | inl out ↦ absurd (cc (rw (retire_bucket_at, out) at e))
      | inr (b, there) ↦ elim (Bool-cases (b.detached_lanes == 0)) [
        | inr busy ↦
            let refused : some (rt, w, false) ≡ some (rt', w', true) =
              rw (retire_bucket_at, there, busy) at e in
            absurd (cc (refused))
        | inl free ↦
            let (lanes, w₁) = finish_lanes p b.lanes w in
            let left = take_out rt i b in
            let kept = keep_for_release b.graph_id left (record b { lanes = lanes }) in
            let after : Runtime = if any (λ (l : Lane). l.in_flight) lanes then left else kept in
            let done : some (after, w₁, true) ≡ some (rt', w', true) =
              rw (retire_bucket_at, there, free) at e in
            let same : after ≡ rt' = cc (done) in
            let room = take_out-HasRoom rt i b z there in
            subst HasRoom same (
              choose-HasRoom (any (λ (l : Lane). l.in_flight) lanes) left kept room
                (kept-HasRoom b.graph_id left (record b { lanes = lanes }) room))
      ]
    ]

    cold-IsSized : (rt : Runtime) → IsSized n max g rt → IsSized n max g (cold rt)
    cold-IsSized rt z = record {
      lanes = z.lanes;
      limit = z.limit;
      graphs = z.graphs;
      within = z.within;
    }

    evict_found-HasRoom :
        (found : Option (ℕ × ℕ)) (rt : Runtime) (w : W) {rt' : Runtime} {w' : W}
        → IsSized n max g rt
        → evict_found {E = E} p found rt w ≡ some (rt', w', ok tt)
        → HasRoom rt'
    unfolding evict_found
    evict_found-HasRoom none rt w z e = absurd (cc (e))
    evict_found-HasRoom (some (i, used)) rt w {rt'} {w'} z e =
        elim (Option-cases (retire_bucket_at p rt w i)) [
          | inl panics ↦ absurd (cc (rw (evict_found, panics) at e))
          | inr ((rt₁, w₁, true), retired) ↦
              let answer : Result (Unit {0}) (CacheError E) = ok tt in
              let done : some (rt₁, w₁, answer) ≡ some (rt', w', answer) =
                rw (evict_found, retired) at e in
              let same : rt₁ ≡ rt' = cc (done) in
              subst HasRoom same (retire-HasRoom rt w i z retired)
          | inr ((rt₁, w₁, false), retired) ↦ absurd (cc (rw (evict_found, retired) at e))
        ]

    -- An eviction without an error leaves room for a bucket.
    pub evict-HasRoom :
        (rt : Runtime) (w : W) {rt' : Runtime} {w' : W}
        → IsSized n max g rt
        → evict_one_bucket_if_full {E = E} p rt w ≡ some (rt', w', ok tt)
        → IsSized n max g rt' × (length rt'.buckets < max)
    unfolding evict_one_bucket_if_full
    evict-HasRoom rt w {rt'} {w'} z e = elim (Bool-cases (ltb (length rt.buckets) rt.max_buckets)) [
      | inl room ↦
          let answer : Result (Unit {0}) (CacheError E) = ok tt in
          let done : some (rt, w, answer) ≡ some (rt', w', answer) =
            rw (evict_one_bucket_if_full, room) at e in
          let same : rt ≡ rt' = cc (done) in
          subst HasRoom same (z, omega (arith, ltb→lt _ _ room, z.limit))
      | inr full ↦ elim (Bool-cases rt.cuda_graph) [
        | inl graphs ↦ absurd (cc (simp (full, graphs) at e))
        | inr plain ↦
            evict_found-HasRoom (oldest_from 0 rt.buckets) (cold rt) w (cold-IsSized rt z)
              (sym (full_cache full plain) ∙ e)
      ]
    ]
      where
        full_cache :
            ltb (length rt.buckets) rt.max_buckets ≡ false
            → rt.cuda_graph ≡ false
            → evict_one_bucket_if_full {E = E} p rt w
              ≡ evict_found p (oldest_from 0 rt.buckets) (cold rt) w
        full_cache full plain = rw (evict_one_bucket_if_full, full, plain)
