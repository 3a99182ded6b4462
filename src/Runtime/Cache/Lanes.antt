-- ===== src/Runtime/Cache/Lanes.antt =====
-- What `get_or_create_bucket_inner` does with the lanes of a new bucket: they are built, and with
-- captured graphs they get the bucket's graph id and capture their graph by a first run.
use st_zrt.Common.{
  ℕ, Bool, true, false, not, Option, none, some, List, [], ◌∷◌, if◌then◌else◌, Result, ok, err,
  ◌>>◌,
}
use st_zrt.ShapePlan.{Shapes}
use st_zrt.Session.{allocate_captured_graph_id}
use st_zrt.Runtime.Lane.{
  Provider, Lane, LaneError, provider, already_in_flight, graph_needs_device_inputs, Outcome, run,
}

-- The calls of the session that set lanes up and release graphs: the constructors of a lane set, the
-- run options of a graph id, `release_captured_graph`, and whether a release that was started has
-- ended.
pub record Setup (W E : Type 0) : Type 0 where
  pub build_lane_set : Shapes → Shapes → W → W × Result (List Lane) E
  pub materialize_run_options : ℕ → Lane → W → W × Result (Unit {0}) E
  pub release_captured_graph : ℕ → W → W
  pub release_done : ℕ → W → Bool

-- The device, and the process's counter of graph ids.
pub record World (W : Type 0) : Type 0 where
  pub device : W
  pub next_graph_id : ℕ

pub data LanesError (E : Type 0) : Type 0 where
  build_error : E → LanesError E
  graph_ids_exhausted : LanesError E
  assign_error capture_error : LaneError E → LanesError E

module _ {W E : Type 0} (p : Provider W E) (s : Setup W E) where
  -- `ensure_idle` and `ensure_graph_id_assignable`
  unfoldable pub ensure_assignable : Lane → Result (Unit {0}) (LaneError E)
  ensure_assignable l =
      if l.in_flight
      then err already_in_flight
      else if not l.device_inputs
      then err graph_needs_device_inputs
      else ok tt

  abbrev pub with_graph_id : Lane → Lane
  with_graph_id l = record l {
    run_opts = true;
    graph_lease = true;
    graph_id = true;
    graph_captured = false;
  }

  -- The run options of the graph id were made, or not.
  unfoldable pub take_options : Lane → W × Result (Unit {0}) E → Outcome p (Unit {0})
  take_options l (w, err e) = (l, w, err (provider e))
  take_options l (w, ok _) = (with_graph_id l, w, ok tt)

  unfoldable pub set_checked : ℕ → Lane → W → Result (Unit {0}) (LaneError E) → Outcome p (Unit {0})
  unfolding take_options
  set_checked id l w (err e) = (l, w, err e)
  set_checked id l w (ok _) = take_options l (s.materialize_run_options id l w)

  -- `ServingLane::set_gpu_graph_id`
  unfoldable pub set_gpu_graph_id : ℕ → Lane → W → Outcome p (Unit {0})
  unfolding ensure_assignable set_checked
  set_gpu_graph_id id l w = set_checked id l w (ensure_assignable l)

  -- What a loop over the lanes has done so far: the lanes, the device and the result.
  abbrev pub Lanes : Type 0
  Lanes = List Lane × W × Result (Unit {0}) (LaneError E)

  -- The turn of the loop for a lane after the others.
  unfoldable pub next_lane : (Lane → W → Outcome p (Unit {0})) → Lane → Lanes → Lanes
  next_lane f l (ls, w, err e) = (l ∷ ls, w, err e)
  next_lane f l (ls, w, ok _) = let (l', w', r) = f l w in (l' ∷ ls, w', r)

  -- A loop over the lanes that stops at the first error; the first lane is the last of the list.
  unfoldable pub each_lane : (Lane → W → Outcome p (Unit {0})) → List Lane → W → Lanes
  unfolding next_lane
  each_lane f [] w = ([], w, ok tt)
  each_lane f (l ∷ ls) w = next_lane f l (each_lane f ls w)

  unfoldable pub all_assignable : List Lane → Result (Unit {0}) (LaneError E)
  unfolding ensure_assignable
  all_assignable [] = ok tt
  all_assignable (l ∷ ls) = all_assignable ls >> ensure_assignable l

  unfoldable pub set_all : ℕ → List Lane → W → Result (Unit {0}) (LaneError E) → Lanes
  unfolding each_lane set_gpu_graph_id
  set_all id ls w (err e) = (ls, w, err e)
  set_all id ls w (ok _) = each_lane (set_gpu_graph_id id) ls w

  -- `StaticIoRuntime::set_gpu_graph_id`: every lane is checked before the first is changed.
  unfoldable pub set_lanes_gpu_graph_id : ℕ → List Lane → W → Lanes
  unfolding all_assignable set_all
  set_lanes_gpu_graph_id id ls w = set_all id ls w (all_assignable ls)

  abbrev pub NewLanes : Type 0
  NewLanes = World W × Result (List Lane × Option ℕ) (LanesError E)

  -- The eager capture of every lane has ended.
  unfoldable pub captured_lanes : ℕ → World W → Lanes → NewLanes
  captured_lanes id world (ls, w, err e) = (record world { device = w }, err (capture_error e))
  captured_lanes id world (ls, w, ok _) = (record world { device = w }, ok (ls, some id))

  -- The lanes have got their graph id.
  unfoldable pub assigned_lanes : ℕ → World W → Lanes → NewLanes
  unfolding captured_lanes each_lane
  assigned_lanes id world (ls, w, err e) = (record world { device = w }, err (assign_error e))
  assigned_lanes id world (ls, w, ok _) = captured_lanes id world (each_lane (run p) ls w)

  unfoldable pub graph_lanes : World W → List Lane → ℕ × Result ℕ (Unit {0}) → NewLanes
  unfolding set_lanes_gpu_graph_id assigned_lanes
  graph_lanes world ls (next_id, err _) =
      (record world { next_graph_id = next_id }, err graph_ids_exhausted)
  graph_lanes world ls (next_id, ok id) =
      assigned_lanes id (record world { next_graph_id = next_id })
        (set_lanes_gpu_graph_id id ls world.device)

  unfoldable pub built_lanes : Bool → World W → Result (List Lane) E → NewLanes
  unfolding graph_lanes
  built_lanes cuda_graph world (err e) = (world, err (build_error e))
  built_lanes false world (ok ls) = (world, ok (ls, none))
  built_lanes true world (ok ls) =
      graph_lanes world ls (allocate_captured_graph_id world.next_graph_id)

  unfoldable pub new_lanes : Bool → World W → Shapes → Shapes → NewLanes
  unfolding built_lanes
  new_lanes cuda_graph world inputs outputs =
      let (w, r) = s.build_lane_set inputs outputs world.device in
      built_lanes cuda_graph (record world { device = w }) r
