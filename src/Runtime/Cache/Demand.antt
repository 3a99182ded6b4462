-- ===== src/Runtime/Cache/Demand.antt =====
-- `get_or_create_bucket_inner` gives a bucket with the shapes asked for, within the bound of the cache.
use st_zrt.Common.{
  ℕ, ◌≤◌, ◌<◌, ◌≡◌, refl, sym, subst, ap, ◌∙◌, inl, inr, Bool, true, false, ◌&&◌, Option, none,
  some, List, [], ◌∷◌, length, length-append, get_elem?, get_elem?-append_last, get_elem?-set_self,
  lt_of_get_elem?, arith, if◌then◌else◌, Result, ok, err, length-set,
}
use st_zrt.ShapePlan.{Floats, Shapes}
use st_zrt.ShapePlan.Plan.{Plan}
use st_zrt.Runtime.{PreparedBucketId}
use st_zrt.Runtime.Lane.{Provider, Lane}
use st_zrt.Runtime.Cache.{ShapeBucket, Runtime, CacheError, find_bucket_index, next_tick}
use st_zrt.Runtime.Cache.Runs.{reclaim_dropped_runs_inner}
use st_zrt.Runtime.Cache.Retirement.{evict_one_bucket_if_full}
use st_zrt.Runtime.Cache.Accounts.{CacheInv, with_bucket-CacheInv, reclaim-CacheInv}
use st_zrt.Runtime.Cache.Moves.{evict-CacheInv}
use st_zrt.Runtime.Cache.Lookup.{HasArity, find_bucket_index_lem}
use st_zrt.Runtime.Cache.Planned.{PlannedError, validate_planned_shape}
use st_zrt.Runtime.Cache.Creation.{CreateError, handle_error, recovery_slot_overflow, insert_bucket}
use st_zrt.Runtime.Cache.Lanes.{Setup, World, LanesError, new_lanes}
use st_zrt.Runtime.Cache.Captured.{Ready, BuildsLanes, new_lanes_captured}
use st_zrt.Runtime.Cache.Sizes.{IsSized, reclaim-IsSized, evict-HasRoom}
use st_zrt.Runtime.Cache.Arity.{reclaim-HasArity}
use st_zrt.Runtime.Cache.Buckets.{
  BucketError, planned, strict_cache_miss, capture_overlaps_replay, no_room, no_lanes, not_inserted,
  touched, any_busy, reap_retired_buckets, Answer, with_lanes, with_room, on_miss, look_up,
  admitted, get_or_create_bucket_inner,
}
use st_zrt.Runtime.Cache.Inserted.{Pushed, insert-Pushed}

module _ {W E : Type 0} (p : Provider W E) (s : Setup W E) (fl : Floats) (n max : ℕ) (g : Bool)
    (inputs outputs : Shapes) where
  -- The accounts are kept, unless a recovery slot number overflows; a bucket that is given has the
  -- shapes, in a cache within its bound.
  unfoldable pub Leaves : Runtime → Result ℕ (BucketError E fl) → Type 0
  Leaves rt (err (not_inserted recovery_slot_overflow)) = Unit {0}
  Leaves rt (err (not_inserted (handle_error x))) = CacheInv rt
  Leaves rt (err (planned x)) = CacheInv rt
  Leaves rt (err strict_cache_miss) = CacheInv rt
  Leaves rt (err capture_overlaps_replay) = CacheInv rt
  Leaves rt (err (no_room x)) = CacheInv rt
  Leaves rt (err (no_lanes x)) = CacheInv rt
  Leaves rt (ok i) =
      CacheInv rt
      × (length rt.buckets ≤ max)
      × ((b : ShapeBucket) × (get_elem? rt.buckets i ≡ some b)
          × (b.inputs ≡ inputs)
          × (b.outputs ≡ outputs))

  unfoldable pub Answers : Answer p s fl → Type 0
  unfolding Leaves
  Answers none = ⊥
  Answers (some (rt, world, r)) = Leaves rt r

  Pushed-Leaves :
      (rt rt' : Runtime) (r : Result PreparedBucketId CreateError)
      → length rt.buckets < max
      → Pushed rt inputs outputs rt' r
      → Leaves rt' (elim r [ err e ↦ err (not_inserted e) | ok _ ↦ ok (length rt.buckets) ])
  unfolding Pushed Leaves
  Pushed-Leaves rt rt' (err (handle_error x)) room (inv, same) = inv
  Pushed-Leaves rt rt' (err recovery_slot_overflow) room same = tt
  Pushed-Leaves rt rt' (ok id) room (inv, (b, same, i, o)) = (
    inv,
    omega (arith, ap length same, length-append rt.buckets (b ∷ [])),
    (
      b,
      subst (λ (bs : List ShapeBucket). get_elem? bs (length rt.buckets) ≡ some b) (sym same)
          (get_elem?-append_last rt.buckets b),
      i,
      o,
    ),
  )

  lanes-Ready :
      (cuda_graph : Bool) (lanes : List Lane) (graph_id : Option ℕ)
      → Ready p s n cuda_graph (lanes, graph_id)
      → length lanes ≡ n
  lanes-Ready cuda_graph lanes none (e, size) = size
  lanes-Ready cuda_graph lanes (some id) (e, size, all) = size

  with_lanes-Answers :
      (rt : Runtime) (world : World W) (r : Result (List Lane × Option ℕ) (LanesError E))
      → CacheInv rt
      → IsSized n max g rt
      → length rt.buckets < max
      → ((made : List Lane × Option ℕ) → r ≡ ok made → Ready p s n rt.cuda_graph made)
      → Answers (with_lanes p s fl rt inputs outputs world r)
  unfolding with_lanes Answers Leaves
  with_lanes-Answers rt world (err e) inv z room ready = inv
  with_lanes-Answers rt world (ok (lanes, graph_id)) inv z room ready =
      let full = lanes-Ready rt.cuda_graph lanes graph_id (ready (lanes, graph_id) refl) in
      let (rt', r) = insert_bucket rt inputs outputs lanes graph_id in
      Pushed-Leaves rt rt' r room
        (insert-Pushed rt inputs outputs lanes graph_id inv (full ∙ sym z.lanes))

  with_room-Answers :
      (rt : Runtime) (w : W) (r : Result (Unit {0}) (CacheError E)) (world : World W)
      → BuildsLanes p s n inputs outputs
      → CacheInv rt
      → (r ≡ ok tt → IsSized n max g rt × (length rt.buckets < max))
      → Answers (with_room p s fl inputs outputs world (some (rt, w, r)))
  unfolding with_room Answers Leaves
  with_room-Answers rt w (err e) world builds inv sized = inv
  with_room-Answers rt w (ok u) world builds inv sized =
      let (z, room) = sized refl in
      let world₁ : World W = record world { device = w } in
      let (world', r) = new_lanes p s rt.cuda_graph world₁ inputs outputs in
      with_lanes-Answers rt world' r inv z room
        (λ made e. new_lanes_captured p s n rt.cuda_graph world₁ inputs outputs builds e)

  module _ (builds : BuildsLanes p s n inputs outputs) where
    room_made :
        (rt : Runtime) (world : World W)
        → CacheInv rt
        → IsSized n max g rt
        → Answers
            (with_room p s fl inputs outputs world (evict_one_bucket_if_full p rt world.device))
    room_made rt world inv z =
        let (rt', w', r, e, inv') = evict-CacheInv p rt world.device inv in
        subst (λ o. Answers (with_room p s fl inputs outputs world o)) (sym e)
          (with_room-Answers rt' w' r world builds inv' (λ good.
            evict-HasRoom n max g p rt world.device z (e ∙ ap (λ x. some (rt', w', x)) good)))

    miss-Answers :
        (rt : Runtime) (world : World W) (allow_create : Bool)
        → CacheInv rt
        → IsSized n max g rt
        → Answers (on_miss p s fl rt world inputs outputs allow_create)
    unfolding on_miss Answers Leaves
    miss-Answers rt world false inv z = inv
    miss-Answers rt world true inv z = choose (rt.cuda_graph && any_busy rt.buckets)
      where
        choose :
            (b : Bool)
            → Answers (
                if b
                then some (rt, world, err capture_overlaps_replay)
                else with_room p s fl inputs outputs world
                    (evict_one_bucket_if_full p rt world.device))
        choose true = inv
        choose false = room_made rt world inv z

    touched-CacheInv :
        (rt : Runtime) (i : ℕ) (b : ShapeBucket)
        → CacheInv rt
        → get_elem? rt.buckets i ≡ some b
        → CacheInv (touched rt i b)
    unfolding next_tick
    touched-CacheInv rt i b inv there =
        let (rt', tick) = next_tick rt in
        with_bucket-CacheInv (record rt' { hot_bucket = some i }) i b
          (record b { last_used = tick }) (record { known = inv.known; accounted = inv.accounted })
          there refl (inv.accounted i b there)

    hit-Answers :
        (rt : Runtime) (world : World W) (allow_create : Bool) (i : ℕ) (b : ShapeBucket)
        → CacheInv rt
        → IsSized n max g rt
        → get_elem? rt.buckets i ≡ some b
        → b.inputs ≡ inputs
        → b.outputs ≡ outputs
        → Answers (look_up p s fl rt world inputs outputs allow_create (some i))
    unfolding look_up Answers Leaves next_tick
    hit-Answers rt world allow_create i b inv z there ins outs =
        let (rt', tick) = next_tick rt in
        let b' : ShapeBucket = record b { last_used = tick } in
        rw (look_up, there)
          (
            touched-CacheInv rt i b inv there,
            omega (arith, z.within, length-set rt.buckets i b'),
            (
              b',
              get_elem?-set_self rt.buckets i b' (lt_of_get_elem? rt.buckets i there),
              ins,
              outs,
            ),
          )

    found-Answers :
        (rt : Runtime) (world : World W) (allow_create : Bool)
        → CacheInv rt
        → IsSized n max g rt
        → HasArity (length inputs) (length outputs) rt
        → Answers (
            look_up p s fl rt world inputs outputs allow_create
              (find_bucket_index rt inputs outputs))
    unfolding look_up
    found-Answers rt world allow_create inv z arity =
        elim (find_bucket_index_lem rt inputs outputs arity) [
          | inl (i, b, found, there, ins, outs) ↦
              subst (λ o. Answers (look_up p s fl rt world inputs outputs allow_create o))
                (sym found) (hit-Answers rt world allow_create i b inv z there ins outs)
          | inr (missed, _) ↦
              subst (λ o. Answers (look_up p s fl rt world inputs outputs allow_create o))
                (sym missed) (miss-Answers rt world allow_create inv z)
        ]

    admitted-Answers :
        (v : Result (Unit {0}) (PlannedError fl)) (rt : Runtime) (world : World W)
        (allow_create : Bool)
        → CacheInv rt
        → IsSized n max g rt
        → HasArity (length inputs) (length outputs) rt
        → Answers (admitted p s fl rt world inputs outputs allow_create (some v))
    unfolding admitted reap_retired_buckets Answers Leaves
    admitted-Answers (err e) rt world allow_create inv z arity = inv
    admitted-Answers (ok u) rt world allow_create inv z arity =
        found-Answers (reap_retired_buckets p s fl rt world.device) world allow_create
          (record { known = inv.known; accounted = inv.accounted })
          (record { lanes = z.lanes; limit = z.limit; graphs = z.graphs; within = z.within }) arity

    -- On a cache whose accounts are in order, that is within its bound and whose buckets have as many
    -- input and output shapes as the request, when the plan can be asked: the call does not panic; on
    -- success the bucket at the place that it gives has the input and output shapes asked for, and the
    -- cache is within its bound; and on success or error the accounts are in order, unless the number
    -- of a recovery slot overflows.
    pub get_or_create_bucket_lem :
        (plan : Option (Plan fl)) (rt : Runtime) (world : World W) (allow_create : Bool)
        {v : Result (Unit {0}) (PlannedError fl)}
        → CacheInv rt
        → IsSized n max g rt
        → HasArity (length inputs) (length outputs) rt
        → validate_planned_shape fl plan g inputs outputs ≡ some v
        → Answers (get_or_create_bucket_inner p s fl plan rt world inputs outputs allow_create)
    unfolding get_or_create_bucket_inner
    get_or_create_bucket_lem plan rt world allow_create {v} inv z arity asked =
        let (rt₁, k) = reclaim_dropped_runs_inner rt in
        let z₁ = reclaim-IsSized n max g rt z in
        subst (λ o. Answers (admitted p s fl rt₁ world inputs outputs allow_create o))
          (sym
            (ap (λ (b : Bool). validate_planned_shape fl plan b inputs outputs) z₁.graphs ∙ asked))
          (admitted-Answers v rt₁ world allow_create (reclaim-CacheInv rt inv) z₁
            (reclaim-HasArity rt arity))
