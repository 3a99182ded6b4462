-- ===== src/Runtime/Cache/Captured.antt =====
-- The lanes of a new bucket: as many as were built, and with captured graphs every one captured.
use st_zrt.Common.{
  ℕ, suc, ◌≡◌, refl, ap, ◌∙◌, Bool, true, false, Option, none, some, List, [], ◌∷◌, length, All,
  Result, ok, err, inl, inr, Bool-cases,
}
use st_zrt.ShapePlan.{Shapes}
use st_zrt.Session.{allocate_captured_graph_id}
use st_zrt.Runtime.Lane.{Provider, Lane, LaneError, Outcome, is_ok, run}
use st_zrt.Runtime.Lane.Capture.{IsCaptured, Succeeds, run-IsCaptured}
use st_zrt.Runtime.Cache.Lanes.{
  Setup, World, LanesError, ensure_assignable, take_options, set_checked, set_gpu_graph_id,
  next_lane, each_lane, all_assignable, set_all, set_lanes_gpu_graph_id, captured_lanes,
  assigned_lanes, graph_lanes, built_lanes, new_lanes,
}

-- The lane has a graph id and can make its capture run.
record IsAssigned (l : Lane) : Type 0 where
  id : l.graph_id ≡ true
  opts : l.run_opts ≡ true
  idle : l.in_flight ≡ false

module _ {W E : Type 0} (p : Provider W E) (s : Setup W E) where
  module _ (f : Lane → W → Outcome p (Unit {0})) (P Q : Lane → Type 0)
      (step : (l : Lane) (w : W) → P l → Succeeds p Q (f l w)) where
    -- The loop ended without an error.
    next_ok :
        (r : Result (Unit {0}) (LaneError E)) (l : Lane) (ls : List Lane) (w : W)
        → P l
        → (is_ok r ≡ true → All Q ls)
        → is_ok (next_lane p s f l (ls, w, r)).2 ≡ true
        → All Q (next_lane p s f l (ls, w, r)).0
    unfolding next_lane Succeeds
    next_ok (ok u) l ls w first rest good = (step l w first good, rest refl)
    next_ok (err e) l ls w first rest good = absurd (cc (good))

    each_ok :
        (ls : List Lane) (w : W)
        → All P ls
        → is_ok (each_lane p s f ls w).2 ≡ true
        → All Q (each_lane p s f ls w).0
    unfolding each_lane
    each_ok [] w all good = tt
    each_ok (l ∷ ls) w (first, rest) good =
        let (ls', w', r) = each_lane p s f ls w in next_ok r l ls' w' first (each_ok ls w rest) good

  assignable_idle : (l : Lane) → is_ok (ensure_assignable p s l) ≡ true → l.in_flight ≡ false
  unfolding ensure_assignable
  assignable_idle l good = elim (Bool-cases l.in_flight) [
    | inl flying ↦ absurd (cc (simp flying at good))
    | inr idle ↦ idle
  ]

  options_ok :
      (r : Result (Unit {0}) E) (l : Lane) (w : W)
      → l.in_flight ≡ false
      → Succeeds p IsAssigned (take_options p s l (w, r))
  unfolding take_options Succeeds
  options_ok (ok u) l w idle = λ _. record { id = refl; opts = refl; idle = idle }
  options_ok (err e) l w idle = λ h. absurd (cc (h))

  checked_ok :
      (r : Result (Unit {0}) (LaneError E)) (id : ℕ) (l : Lane) (w : W)
      → (is_ok r ≡ true → l.in_flight ≡ false)
      → Succeeds p IsAssigned (set_checked p s id l w r)
  unfolding set_checked Succeeds
  checked_ok (ok u) id l w idle =
      let (w', r) = s.materialize_run_options id l w in options_ok r l w' (idle refl)
  checked_ok (err e) id l w idle = λ h. absurd (cc (h))

  set_ok :
      (id : ℕ) (l : Lane) (w : W) → Unit {0} → Succeeds p IsAssigned (set_gpu_graph_id p s id l w)
  unfolding set_gpu_graph_id
  set_ok id l w u = checked_ok (ensure_assignable p s l) id l w (assignable_idle l)

  capture_ok : (l : Lane) (w : W) → IsAssigned l → Succeeds p IsCaptured (run p l w)
  capture_ok l w a = run-IsCaptured p l w a.id a.opts a.idle

  All-units : (ls : List Lane) → All (λ _. Unit {0}) ls
  All-units [] = tt
  All-units (l ∷ ls) = (tt, All-units ls)

  -- The lanes of a bucket with a graph id are captured, and there are as many as were built.
  abbrev pub Ready : ℕ → Bool → List Lane × Option ℕ → Type 0
  Ready n cuda_graph (ls, none) = (cuda_graph ≡ false) × (length ls ≡ n)
  Ready n cuda_graph (ls, some id) = (cuda_graph ≡ true) × (length ls ≡ n) × All IsCaptured ls

  Yields : ℕ → Bool → Result (List Lane × Option ℕ) (LanesError E) → Type 0
  Yields n cuda_graph (ok made) = Ready n cuda_graph made
  Yields n cuda_graph (err e) = Unit {0}

  length-next_lane :
      (f : Lane → W → Outcome p (Unit {0})) (r : Result (Unit {0}) (LaneError E)) (l : Lane)
      (ls : List Lane) (w : W)
      → length (next_lane p s f l (ls, w, r)).0 ≡ suc (length ls)
  unfolding next_lane
  length-next_lane f (ok u) l ls w = refl
  length-next_lane f (err e) l ls w = refl

  length-each_lane :
      (f : Lane → W → Outcome p (Unit {0})) (ls : List Lane) (w : W)
      → length (each_lane p s f ls w).0 ≡ length ls
  unfolding each_lane
  length-each_lane f [] w = refl
  length-each_lane f (l ∷ ls) w =
      let (ls', w', r) = each_lane p s f ls w in
      length-next_lane f r l ls' w' ∙ ap suc (length-each_lane f ls w)

  captured_Yields :
      (r : Result (Unit {0}) (LaneError E)) (n id : ℕ) (world : World W) (ls : List Lane) (w : W)
      → length ls ≡ n
      → (is_ok r ≡ true → All IsCaptured ls)
      → Yields n true (captured_lanes p s id world (ls, w, r)).1
  unfolding captured_lanes Yields
  captured_Yields (ok u) n id world ls w size all = (refl, size, all refl)
  captured_Yields (err e) n id world ls w size all = tt

  assigned_Yields :
      (r : Result (Unit {0}) (LaneError E)) (n id : ℕ) (world : World W) (ls : List Lane) (w : W)
      → length ls ≡ n
      → (is_ok r ≡ true → All IsAssigned ls)
      → Yields n true (assigned_lanes p s id world (ls, w, r)).1
  unfolding assigned_lanes Yields
  assigned_Yields (ok u) n id world ls w size all =
      let (ls', w', r) = each_lane p s (run p) ls w in
      captured_Yields r n id world ls' w' (length-each_lane (run p) ls w ∙ size)
        (each_ok (run p) IsAssigned IsCaptured capture_ok ls w (all refl))
  assigned_Yields (err e) n id world ls w size all = tt

  set_all_ok :
      (r : Result (Unit {0}) (LaneError E)) (id : ℕ) (ls : List Lane) (w : W)
      → (length (set_all p s id ls w r).0 ≡ length ls)
        × (is_ok (set_all p s id ls w r).2 ≡ true → All IsAssigned (set_all p s id ls w r).0)
  unfolding set_all
  set_all_ok (err e) id ls w = (refl, λ h. absurd (cc (h)))
  set_all_ok (ok u) id ls w = (
    length-each_lane (set_gpu_graph_id p s id) ls w,
    each_ok (set_gpu_graph_id p s id) (λ _. Unit {0}) IsAssigned (set_ok id) ls w (All-units ls),
  )

  graph_Yields :
      (r : Result ℕ (Unit {0})) (n next_id : ℕ) (world : World W) (ls : List Lane)
      → length ls ≡ n
      → Yields n true (graph_lanes p s world ls (next_id, r)).1
  unfolding graph_lanes set_lanes_gpu_graph_id Yields
  graph_Yields (err e) n next_id world ls size = tt
  graph_Yields (ok id) n next_id world ls size =
      let (ls', w', r) = set_lanes_gpu_graph_id p s id ls world.device in
      let (same, all) = set_all_ok (all_assignable p s ls) id ls world.device in
      assigned_Yields r n id (record world { next_graph_id = next_id }) ls' w' (same ∙ size) all

  built_Yields :
      (cuda_graph : Bool) (r : Result (List Lane) E) (n : ℕ) (world : World W)
      → ((ls : List Lane) → r ≡ ok ls → length ls ≡ n)
      → Yields n cuda_graph (built_lanes p s cuda_graph world r).1
  unfolding built_lanes Yields
  built_Yields true (err e) n world sized = tt
  built_Yields false (err e) n world sized = tt
  built_Yields false (ok ls) n world sized = (refl, sized ls refl)
  built_Yields true (ok ls) n world sized =
      let (next_id, r) = allocate_captured_graph_id world.next_graph_id in
      graph_Yields r n next_id world ls (sized ls refl)

  -- Each set of lanes that is built for a bucket has `n` lanes.
  abbrev pub BuildsLanes : ℕ → Shapes → Shapes → Type 0
  BuildsLanes n inputs outputs =
      (w : W) (ls : List Lane) → (s.build_lane_set inputs outputs w).1 ≡ ok ls → length ls ≡ n

  -- Where the lanes of a new bucket are got without an error: there are as many as are built, they have
  -- a graph id exactly when graphs are captured, and then each of them is idle and has captured its
  -- graph, so that no later run of it captures.
  pub new_lanes_captured :
      (n : ℕ) (cuda_graph : Bool) (world : World W) (inputs outputs : Shapes)
      {made : List Lane × Option ℕ}
      → BuildsLanes n inputs outputs
      → (new_lanes p s cuda_graph world inputs outputs).1 ≡ ok made
      → Ready n cuda_graph made
  unfolding new_lanes Yields
  new_lanes_captured n cuda_graph world inputs outputs {made} sized e =
      let (w, r) = s.build_lane_set inputs outputs world.device in
      let y = built_Yields cuda_graph r n (record world { device = w }) (sized world.device) in
      rw e at y
