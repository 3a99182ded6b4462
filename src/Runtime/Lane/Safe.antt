-- ===== src/Runtime/Lane/Safe.antt =====
-- A lane with a captured-graph lease is idle only while no run of it executes: the operations that
-- wait or ask.
use st_zrt.Common.{
  ◌≡◌, Bool, true, false, ◌&&◌, if◌then◌else◌, ok, Bool-cases, Result-cases, inl, inr, ap, ◌∙◌,
  arith,
}
use st_zrt.Runtime.Lane.{
  Provider, Lane, is_ok, clear_in_flight, or_device_fence, synchronize_completion,
  finish_in_flight_best_effort, synchronize_outputs, try_complete,
}
use st_zrt.Runtime.Lane.Fence.{
  Fences, fenced-Quiet, fence_stays, completion-Quiet, completion_stays,
}

-- A lane with a graph lease and its run options, on a device in state `w`.
pub record LaneInv {W E : Type 0} (p : Provider W E) (Quiet Recorded : W → Type 0) (l : Lane)
    (w : W) : Type 0 where
  pub quiet : l.in_flight ≡ false → Quiet w
  pub recorded : (p.cuda && l.completion_event_recorded) ≡ true → Recorded w
  pub flag : l.completion_event_recorded ≡ true → (p.cuda ≡ true) × (l.in_flight ≡ true)
  pub guarded : l.in_flight ≡ true → l.in_flight_graph_guard ≡ true
  pub leased : l.graph_lease ≡ true
  pub opts : l.run_opts ≡ true

module _ {W E : Type 0} {p : Provider W E} {Quiet Recorded : W → Type 0}
    (f : Fences p Quiet Recorded) where
  abbrev Inv : Lane → W → Type 0
  Inv = LaneInv p Quiet Recorded

  cleared_flag :
      (l : Lane)
      → (l.completion_event_recorded ≡ true → p.cuda ≡ true)
      → (clear_in_flight p.cuda l).completion_event_recorded ≡ false
  cleared_flag l flag = elim (Bool-cases p.cuda) [
    | inl on ↦ simp on
    | inr off ↦ elim (Bool-cases l.completion_event_recorded) [
      | inl set ↦ absurd (cc (flag set, off))
      | inr unset ↦ simp (off, unset)
    ]
  ]

  pub clear-Inv :
      (l : Lane) (w : W)
      → Quiet w
      → (l.completion_event_recorded ≡ true → p.cuda ≡ true)
      → l.graph_lease ≡ true
      → l.run_opts ≡ true
      → Inv (clear_in_flight p.cuda l) w
  clear-Inv l w q flag leased opts = record {
    quiet = λ _. q;
    recorded = λ e. absurd (ground (arith, e, cleared_flag l flag));
    flag = λ e. absurd (cc (e, cleared_flag l flag));
    guarded = λ e. absurd (cc (e));
    leased = leased;
    opts = opts;
  }

  -- A lane is cleared after a fence that succeeded, and else kept as one in flight.
  pub after_fence :
      (l kept : Lane) (w : W) (synchronized : Bool)
      → (synchronized ≡ true → Quiet w)
      → (l.completion_event_recorded ≡ true → p.cuda ≡ true)
      → l.graph_lease ≡ true
      → l.run_opts ≡ true
      → ((p.cuda && kept.completion_event_recorded) ≡ true → Recorded w)
      → (kept.completion_event_recorded ≡ true → p.cuda ≡ true)
      → (kept.in_flight ≡ true)
      → (kept.in_flight_graph_guard ≡ true)
      → (kept.graph_lease ≡ true)
      → (kept.run_opts ≡ true)
      → let (w', fenced) = or_device_fence p l w synchronized in
        Inv (if fenced then clear_in_flight p.cuda l else kept) w'
  after_fence l kept w synchronized q flag leased opts recorded kept_flag busy guard kept_leased
        kept_opts =
      elim (Bool-cases (or_device_fence p l w synchronized).1) [
        | inl fenced ↦
            simp fenced (clear-Inv l _ (fenced-Quiet f l w synchronized q fenced) flag leased opts)
        | inr unfenced ↦ simp unfenced (record {
          quiet = λ idle. absurd (cc (idle, busy));
          recorded = λ e. fence_stays f l w synchronized (recorded e);
          flag = λ e. (kept_flag e, busy);
          guarded = λ _. guard;
          leased = kept_leased;
          opts = kept_opts;
        })
      ]

  synchronized-Inv :
      (l : Lane) (w : W)
      → Inv l w
      → l.in_flight ≡ true
      → let (w₁, r) = synchronize_completion p l w in
        let (w₂, fenced) = or_device_fence p l w₁ (is_ok r) in
        Inv (if fenced then clear_in_flight p.cuda l else l) w₂
  synchronized-Inv l w i busy =
      after_fence l l _ _ (completion-Quiet f l w i.recorded) (λ e. (i.flag e).0) i.leased i.opts
        (completion_stays f l w i.recorded) (λ e. (i.flag e).0) busy (i.guarded busy) i.leased
        i.opts

  pub finish-Inv :
      (l : Lane) (w : W) → Inv l w → let (l', w') = finish_in_flight_best_effort p l w in Inv l' w'
  unfolding finish_in_flight_best_effort
  finish-Inv l w i = elim (Bool-cases l.in_flight) [
    | inr idle ↦ simp idle i
    | inl busy ↦ simp busy (synchronized-Inv l w i busy)
  ]

  pub synchronize-Inv :
      (l : Lane) (w : W) → Inv l w → let (l', w', r) = synchronize_outputs p l w in Inv l' w'
  unfolding synchronize_outputs
  synchronize-Inv l w i = elim (Bool-cases l.in_flight) [
    | inr idle ↦ simp idle i
    | inl busy ↦ simp busy (synchronized-Inv l w i busy)
  ]

  pub try_complete-Inv :
      (l : Lane) (w : W) → Inv l w → let (l', w', r) = try_complete p l w in Inv l' w'
  unfolding try_complete
  try_complete-Inv l w i = elim (Bool-cases l.in_flight) [
    | inr idle ↦ simp idle i
    | inl busy ↦ elim (Bool-cases (p.cuda && l.completion_event_recorded)) [
      | inr no_event ↦ simp (busy, no_event) i
      | inl event ↦ elim (Result-cases (p.event_is_complete w).1) [
        | inr (x, bad) ↦ simp (busy, event, bad) (still w busy event (i.recorded event))
        | inl (done, good) ↦ elim (Bool-cases done) [
          | inr not_done ↦
              simp (busy, event, good, not_done) (still w busy event (i.recorded event))
          | inl is_done ↦
              simp (busy, event, good, is_done)
                (clear-Inv l _ (f.event_tells w (i.recorded event) (good ∙ ap ok is_done))
                  (λ e. (i.flag e).0) i.leased i.opts)
        ]
      ]
    ]
  ]
    where
      still :
          (w : W)
          → l.in_flight ≡ true
          → (p.cuda && l.completion_event_recorded) ≡ true
          → Recorded w
          → Inv l (p.event_is_complete w).0
      still w busy event r = record {
        quiet = λ idle. absurd (cc (idle, busy));
        recorded = λ _. f.query_stays w r;
        flag = i.flag;
        guarded = i.guarded;
        leased = i.leased;
        opts = i.opts;
      }
