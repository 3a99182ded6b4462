-- ===== src/Runtime/Lane/Calls.antt =====
-- Any sequence of calls on a lane.
use st_zrt.Common.{◌≡◌, true, false, List, [], ◌∷◌, arith}
use st_zrt.Runtime.Lane.{
  Provider, Lane, run, run_enqueued, synchronize_outputs, try_complete,
  finish_in_flight_best_effort,
}
use st_zrt.Runtime.Lane.Fence.{Fences}
use st_zrt.Runtime.Lane.Safe.{LaneInv, finish-Inv, synchronize-Inv, try_complete-Inv}
use st_zrt.Runtime.Lane.Run.{run-Inv, run_enqueued-Inv}

pub data LaneCall : Type 0 where
  runs enqueues synchronizes queries finishes : LaneCall

module _ {W E : Type 0} (p : Provider W E) where
  unfoldable pub call : LaneCall → Lane → W → Lane × W
  call runs l w = let (l', w', r) = run p l w in (l', w')
  call enqueues l w = let (l', w', r) = run_enqueued p l w in (l', w')
  call synchronizes l w = let (l', w', r) = synchronize_outputs p l w in (l', w')
  call queries l w = let (l', w', r) = try_complete p l w in (l', w')
  call finishes l w = finish_in_flight_best_effort p l w

  unfoldable pub calls : List LaneCall → Lane → W → Lane × W
  unfolding call
  calls [] l w = (l, w)
  calls (c ∷ cs) l w = let (l', w') = call c l w in calls cs l' w'

module _ {W E : Type 0} {p : Provider W E} {Quiet Recorded : W → Type 0}
    (f : Fences p Quiet Recorded) where
  abbrev Inv : Lane → W → Type 0
  Inv = LaneInv p Quiet Recorded

  call-Inv : (c : LaneCall) (l : Lane) (w : W) → Inv l w → let (l', w') = call p c l w in Inv l' w'
  unfolding call
  call-Inv runs l w i = run-Inv f l w i
  call-Inv enqueues l w i = run_enqueued-Inv f l w i
  call-Inv synchronizes l w i = synchronize-Inv f l w i
  call-Inv queries l w i = try_complete-Inv f l w i
  call-Inv finishes l w i = finish-Inv f l w i

  calls-Inv :
      (cs : List LaneCall) (l : Lane) (w : W) → Inv l w → let (l', w') = calls p cs l w in Inv l' w'
  unfolding calls
  calls-Inv [] l w i = i
  calls-Inv (c ∷ cs) l w i = let (l', w') = call p c l w in calls-Inv cs l' w' (call-Inv c l w i)

  -- Whatever runs, enqueues, waits and queries are made on a lane with a graph lease that starts
  -- idle on a device without runs, and however the provider's calls fail: whenever the lane is idle,
  -- and so can be used again, no run of it still executes, and whenever it is in flight it holds the
  -- guard that keeps its graph from being released.
  pub leased_lane_safe :
      (cs : List LaneCall) (l : Lane) (w : W)
      → l.graph_lease ≡ true
      → l.run_opts ≡ true
      → l.in_flight ≡ false
      → l.completion_event_recorded ≡ false
      → Quiet w
      → let (l', w') = calls p cs l w in
        (l'.in_flight ≡ false → Quiet w') × (l'.in_flight ≡ true → l'.in_flight_graph_guard ≡ true)
  leased_lane_safe cs l w leased opts idle unset q =
      let i = calls-Inv cs l w (record {
        quiet = λ _. q;
        recorded = λ e. absurd (ground (arith, e, unset));
        flag = λ e. absurd (cc (e, unset));
        guarded = λ e. absurd (cc (e, idle));
        leased = leased;
        opts = opts;
      }) in
      (i.quiet, i.guarded)
