-- ===== src/Runtime/Lane/Settle.antt =====
-- The end of a run call, and the run that synchronises at its end.
use st_zrt.Common.{
  ◌≡◌, refl, Bool, true, false, ◌&&◌, Result, ok, err, Bool-cases, inl, inr, sym, ◌∙◌, subst, arith,
}
use st_zrt.Runtime.Lane.{
  Provider, Lane, LaneError, is_ok, note_capture, fence_or_retain_graph_guard, settle_graph_run,
  run_bound_binding,
}
use st_zrt.Runtime.Lane.Fence.{Fences}
use st_zrt.Runtime.Lane.Safe.{LaneInv, after_fence}

module _ {W E : Type 0} {p : Provider W E} {Quiet Recorded : W → Type 0}
    (f : Fences p Quiet Recorded) where
  abbrev Inv : Lane → W → Type 0
  Inv = LaneInv p Quiet Recorded

  pub idle_flag :
      (l : Lane) (w : W) → Inv l w → l.in_flight ≡ false → l.completion_event_recorded ≡ false
  idle_flag l w i idle = elim (Bool-cases l.completion_event_recorded) [
    | inl set ↦ absurd (cc ((i.flag set).1, idle))
    | inr unset ↦ unset
  ]

  -- What is kept of a lane and its device while a run on it starts.
  pub record Started (l : Lane) (w : W) : Type 0 where
    pub idle : l.in_flight ≡ false
    pub recorded : (p.cuda && l.completion_event_recorded) ≡ true → Recorded w
    pub flag : l.completion_event_recorded ≡ true → p.cuda ≡ true
    pub leased : l.graph_lease ≡ true
    pub opts : l.run_opts ≡ true

  pub settled_err-Inv :
      (l : Lane) (w : W) (guard : Bool) (e : E) (retain : Bool)
      → Started l w
      → guard ≡ true
      → l.completion_event_recorded ≡ false
      → let (l', w', r) = settle_graph_run p l w guard (err e) retain in Inv l' w'
  unfolding settle_graph_run fence_or_retain_graph_guard
  settled_err-Inv l w guard e retain s held unset = simp held (
      after_fence f l (record l { in_flight_graph_guard = true; in_flight = true }) _ _
        (f.outputs_wait w) s.flag s.leased s.opts (λ q. absurd (ground (arith, q, unset))) s.flag
        refl refl s.leased s.opts)

  pub retained-Inv :
      (l : Lane) (w : W) (guard : Bool)
      → Started l w
      → guard ≡ true
      → let (l', w', r) = settle_graph_run p l w guard (ok tt) true in Inv l' w'
  unfolding settle_graph_run
  retained-Inv l w guard s held = record {
    quiet = λ idle. absurd (cc (idle));
    recorded = s.recorded;
    flag = λ e. (s.flag e, refl);
    guarded = λ _. held;
    leased = s.leased;
    opts = s.opts;
  }

  pub started : (l : Lane) (w w' : W) → Inv l w → l.in_flight ≡ false → Started l w'
  started l w w' i idle = record {
    idle = idle;
    recorded = λ e. absurd (ground (arith, e, idle_flag l w i idle));
    flag = λ e. (i.flag e).0;
    leased = i.leased;
    opts = i.opts;
  }

  pub noted-Started :
      (l : Lane) (w : W) (r : Result (Unit {0}) E) → Started l w → Started (note_capture l r) w
  noted-Started l w r s = elim (Bool-cases (l.graph_id && is_ok r)) [
    | inl captured ↦ simp captured (record {
      idle = s.idle;
      recorded = s.recorded;
      flag = s.flag;
      leased = s.leased;
      opts = s.opts;
    })
    | inr same ↦ simp same s
  ]

  pub noted_flag :
      (l : Lane) (r : Result (Unit {0}) E)
      → (note_capture l r).completion_event_recorded ≡ l.completion_event_recorded
  noted_flag l r = elim (Bool-cases (l.graph_id && is_ok r)) [
    | inl captured ↦ simp captured
    | inr same ↦ simp same
  ]

  ended-Inv :
      (l : Lane) (w : W) (guard : Bool)
      → Started l w
      → l.completion_event_recorded ≡ false
      → Quiet w
      → let (l', w', r) = settle_graph_run p l w guard (ok tt) false in Inv l' w'
  unfolding settle_graph_run
  ended-Inv l w guard s unset q = record {
    quiet = λ _. q;
    recorded = s.recorded;
    flag = λ e. absurd (cc (e, unset));
    guarded = λ e. absurd (cc (e, s.idle));
    leased = s.leased;
    opts = s.opts;
  }

  settled-Inv :
      (r : Result (Unit {0}) E) (l : Lane) (w : W) (guard : Bool)
      → Started l w
      → guard ≡ true
      → l.completion_event_recorded ≡ false
      → (is_ok r ≡ true → Quiet w)
      → let (l', w', r') = settle_graph_run p l w guard r false in Inv l' w'
  settled-Inv (ok u) l w guard s held unset q = ended-Inv l w guard s unset (q refl)
  settled-Inv (err e) l w guard s held unset q = settled_err-Inv l w guard e false s held unset

  with_opts :
      (l : Lane) (w : W)
      → l.run_opts ≡ true
      → let (w', r) = p.run_binding_with w in
        run_bound_binding p l w ≡ settle_graph_run p (note_capture l r) w' l.graph_lease r false
  unfolding run_bound_binding
  with_opts l w opts = rw (run_bound_binding, opts)

  pub run_bound_binding-Inv :
      (l : Lane) (w : W)
      → Inv l w
      → l.in_flight ≡ false
      → let (l', w', r) = run_bound_binding p l w in Inv l' w'
  run_bound_binding-Inv l w i idle =
      let (w', r) = p.run_binding_with w in
      subst (λ (o : Lane × W × Result (Unit {0}) (LaneError E)). Inv o.0 o.1)
        (sym (with_opts l w i.opts))
        (settled-Inv r (note_capture l r) w' l.graph_lease
          (noted-Started l w' r (started l w w' i idle)) i.leased
          (noted_flag l r ∙ idle_flag l w i idle) (f.run_ends w))
