-- ===== src/Runtime/Cache/Clear.antt =====
-- The clearing of the cache, and the drop of a runtime.
use st_zrt.Common.{
  ℕ, ◌≡◌, refl, Bool, true, false, not, none, some, List, [], ◌∷◌, any, ◌==◌, if◌then◌else◌, Result,
  ok, err, Bool-cases, inl, inr,
}
use st_zrt.Runtime.Handles.{retire_each}
use st_zrt.Runtime.Handles.Retire.{retire_each-Linked}
use st_zrt.Runtime.Handles.Stale.{forget_indices}
use st_zrt.Runtime.Lane.{Provider, Lane}
use st_zrt.Runtime.Cache.{ShapeBucket, Runtime, bucket_ids}
use st_zrt.Runtime.Cache.Runs.{reclaim_dropped_runs_inner}
use st_zrt.Runtime.Cache.Retirement.{cold, finish_lanes}
use st_zrt.Runtime.Cache.Accounts.{CacheInv, reclaim-CacheInv}
use st_zrt.Runtime.Cache.Lanes.{Setup}

pub data ClearError : Type 0 where
  owned_runs_in_flight lanes_not_fenced : ClearError

module _ {W E : Type 0} (p : Provider W E) (s : Setup W E) where
  -- The buckets of `drain_active_buckets_and_release_graphs`: the device after the fences, the graphs
  -- to release, and whether every lane was fenced.
  unfoldable pub drain_buckets : List ShapeBucket → W → W × List ℕ × Bool
  unfolding finish_lanes
  drain_buckets [] w = (w, [], true)
  drain_buckets (b ∷ bs) w =
      let (lanes, w₁) = finish_lanes p b.lanes w in
      let (w₂, ids, fenced) = drain_buckets bs w₁ in
      if any (λ (l : Lane). l.in_flight) lanes then (w₂, ids, false) else (
        w₂,
        if b.detached_lanes == 0
            then (elim b.graph_id [ none ↦ ids | some id ↦ id ∷ ids ])
            else ids,
        fenced,
      )

  unfoldable pub release_each : List ℕ → W → W
  release_each [] w = w
  release_each (id ∷ ids) w = release_each ids (s.release_captured_graph id w)

  unfoldable pub drain_active_buckets_and_release_graphs : Runtime → W → Runtime × W × Bool
  unfolding drain_buckets release_each
  drain_active_buckets_and_release_graphs rt w =
      let (w', ids, fenced) = drain_buckets rt.buckets w in
      (
        record rt { buckets = []; handles = retire_each rt.handles (bucket_ids rt.buckets) },
        release_each ids w',
        fenced,
      )

  -- Retired buckets go once their releases have ended.
  abbrev pub wait_for_retired_buckets : Runtime → Runtime
  wait_for_retired_buckets rt = record rt { retired_buckets = [] }

  abbrev pub cleared : Runtime × W × Bool → Runtime × W × Result (Unit {0}) ClearError
  cleared (rt, w, fenced) = (rt, w, if fenced then ok tt else err lanes_not_fenced)

  unfoldable pub clear_buckets : Runtime → W → Runtime × W × Result (Unit {0}) ClearError
  unfolding reclaim_dropped_runs_inner drain_active_buckets_and_release_graphs
  clear_buckets rt w =
      let (rt₁, n) = reclaim_dropped_runs_inner rt in
      if any (λ (b : ShapeBucket). not (b.detached_lanes == 0)) rt₁.buckets
      then (rt₁, w, err owned_runs_in_flight)
      else cleared (drain_active_buckets_and_release_graphs (wait_for_retired_buckets (cold rt₁)) w)

  -- The drop of the runtime
  unfoldable pub drop_runtime : Runtime → W → Runtime × W × Bool
  unfolding reclaim_dropped_runs_inner drain_active_buckets_and_release_graphs
  drop_runtime rt w =
      let (rt₁, n) = reclaim_dropped_runs_inner rt in
      drain_active_buckets_and_release_graphs (wait_for_retired_buckets rt₁) w

  drained-CacheInv :
      (rt : Runtime) (w : W)
      → CacheInv rt
      → CacheInv (drain_active_buckets_and_release_graphs rt w).0
  unfolding drain_active_buckets_and_release_graphs
  drained-CacheInv rt w inv = record {
    known = retire_each-Linked (bucket_ids rt.buckets) rt.handles (forget_indices inv.known);
    accounted = λ i b e. absurd (cc (e));
  }

  abbrev pub Emptied : List ShapeBucket → Runtime → Type 0
  Emptied held rt =
      (any (λ (b : ShapeBucket). not (b.detached_lanes == 0)) held ≡ false)
      × (rt.buckets ≡ [])
      × (rt.retired_buckets ≡ [])

  -- What a call of `clear_buckets` leaves, by its result; `held` are the buckets after the lanes of
  -- dropped runs have come back.
  abbrev pub Clears : List ShapeBucket → Runtime → Result (Unit {0}) ClearError → Type 0
  Clears held rt (err owned_runs_in_flight) =
      (rt.buckets ≡ held) × (any (λ (b : ShapeBucket). not (b.detached_lanes == 0)) held ≡ true)
  Clears held rt (err lanes_not_fenced) = Emptied held rt
  Clears held rt (ok u) = Emptied held rt

  cleared-Clears :
      (held : List ShapeBucket) (rt : Runtime) (w : W) (fenced : Bool)
      → Emptied held rt
      → let (rt', w', r) = cleared (rt, w, fenced) in Clears held rt' r
  cleared-Clears held rt w true h = h
  cleared-Clears held rt w false h = h

  -- Clearing keeps the accounts of the cache, with every handle of a cleared bucket retired. It is
  -- refused, with no bucket changed, exactly when lanes are still detached after dropped runs have come
  -- back; otherwise no bucket and no retired bucket is left, fenced or not.
  pub clear_buckets_lem :
      (rt : Runtime) (w : W)
      → CacheInv rt
      → let (rt', w', r) = clear_buckets rt w in
        CacheInv rt' × Clears (reclaim_dropped_runs_inner rt).0.buckets rt' r
  unfolding clear_buckets drain_active_buckets_and_release_graphs
  clear_buckets_lem rt w inv =
      let (rt₁, n) = reclaim_dropped_runs_inner rt in
      let inv₁ = reclaim-CacheInv rt inv in
      let before : Runtime = wait_for_retired_buckets (cold rt₁) in
      let ready : CacheInv before = record { known = inv₁.known; accounted = inv₁.accounted } in
      let (after, w', fenced) = drain_active_buckets_and_release_graphs before w in
      elim (Bool-cases (any (λ (b : ShapeBucket). not (b.detached_lanes == 0)) rt₁.buckets)) [
        | inl owned ↦ rw (clear_buckets, owned) (inv₁, (refl, owned))
        | inr free ↦
            rw (clear_buckets, free)
              (
                drained-CacheInv before w ready,
                cleared-Clears rt₁.buckets after w' fenced (free, refl, refl),
              )
      ]
