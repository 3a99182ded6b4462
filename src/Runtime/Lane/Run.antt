-- ===== src/Runtime/Lane/Run.antt =====
-- The runs of a lane keep it safe.
use st_zrt.Common.{
  ◌≡◌, refl, Bool, true, false, ◌&&◌, if◌then◌else◌, Result, ok, err, Bool-cases, inl, inr, ◌∙◌,
  arith,
}
use st_zrt.Runtime.Lane.{
  Provider, Lane, LaneError, is_ok, prepare_inputs, note_capture, synchronize_outputs,
  settle_graph_run, enqueue_and_record, mark_recorded, record_completion, and_then, run_prepared,
  run_bound_binding_enqueued, run_enqueued, run_then_synchronize, run,
}
use st_zrt.Runtime.Lane.Fence.{Fences, prepare-Quiet}
use st_zrt.Runtime.Lane.Safe.{LaneInv, synchronize-Inv}
use st_zrt.Runtime.Lane.Settle.{
  Started, idle_flag, settled_err-Inv, retained-Inv, started, noted-Started, noted_flag,
  run_bound_binding-Inv,
}

module _ {W E : Type 0} {p : Provider W E} {Quiet Recorded : W → Type 0}
    (f : Fences p Quiet Recorded) where
  abbrev Inv : Lane → W → Type 0
  Inv = LaneInv p Quiet Recorded

  -- What the enqueued run leaves: a failed one has set no flag.
  Enqueued : Lane × W × Result (Unit {0}) E → Type 0
  Enqueued o = Started f o.0 o.1 × (is_ok o.2 ≡ false → o.0.completion_event_recorded ≡ false)

  marked-Enqueued :
      (r : Result (Unit {0}) E) (l : Lane) (w : W)
      → Started f l w
      → l.completion_event_recorded ≡ false
      → p.cuda ≡ true
      → (is_ok r ≡ true → Recorded w)
      → Enqueued (mark_recorded p l w r)
  unfolding mark_recorded Enqueued
  marked-Enqueued (err e) l w s unset on recorded = (s, λ _. unset)
  marked-Enqueued (ok u) l w s unset on recorded = (
    record {
      idle = s.idle;
      recorded = λ _. recorded refl;
      flag = λ _. on;
      leased = s.leased;
      opts = s.opts;
    },
    λ q. absurd (cc (q)),
  )

  completion-Enqueued :
      (r : Result (Unit {0}) E) (l : Lane) (w w₀ : W)
      → Inv l w₀
      → l.in_flight ≡ false
      → Enqueued (record_completion p l w r)
  unfolding record_completion Enqueued
  completion-Enqueued (err e) l w w₀ i idle =
      (started f l w₀ w i idle, λ _. idle_flag f l w₀ i idle)
  completion-Enqueued (ok u) l w w₀ i idle =
      elim (Bool-cases (p.cuda && (l.device_inputs && l.graph_id))) [
        | inr no_event ↦ simp no_event (started f l w₀ w i idle, λ _. idle_flag f l w₀ i idle)
        | inl event ↦
            let (w', r) = p.record_event w in
            simp event (
              marked-Enqueued r l w' (started f l w₀ w' i idle) (idle_flag f l w₀ i idle)
                (ground (arith, event)) (f.event_records w))
      ]

  retained_or_fenced-Inv :
      (r : Result (Unit {0}) E) (l : Lane) (w : W) (guard : Bool)
      → Started f l w
      → guard ≡ true
      → (is_ok r ≡ false → l.completion_event_recorded ≡ false)
      → let (l', w', r') = settle_graph_run p l w guard r true in Inv l' w'
  retained_or_fenced-Inv (ok u) l w guard s held unset = retained-Inv f l w guard s held
  retained_or_fenced-Inv (err e) l w guard s held unset =
      settled_err-Inv f l w guard e true s held (unset refl)

  Holds : {A : Type 0} → Lane × W × Result A (LaneError E) → Type 0
  Holds o = Inv o.0 o.1

  choose-Holds :
      {A : Type 0} (b : Bool) (x y : Lane × W × Result A (LaneError E))
      → (b ≡ true → Holds x)
      → (b ≡ false → Holds y)
      → Holds (if b then x else y)
  choose-Holds true x y yes_case no_case = yes_case refl
  choose-Holds false x y yes_case no_case = no_case refl

  and_then-Holds :
      (r : Result (Unit {0}) (LaneError E)) (l : Lane) (w : W)
      (next : Lane → W → Lane × W × Result (Unit {0}) (LaneError E))
      → Inv l w
      → (Inv l w → Holds (next l w))
      → Holds (and_then p l w r next)
  unfolding and_then Holds
  and_then-Holds (err e) l w next i h = i
  and_then-Holds (ok u) l w next i h = h i

  run_bound_binding_enqueued-Inv :
      (l : Lane) (w : W) → Inv l w → Holds (run_bound_binding_enqueued p l w)
  unfolding run_bound_binding_enqueued enqueue_and_record Holds Enqueued
  run_bound_binding_enqueued-Inv l w i =
      choose-Holds l.in_flight _ _ (λ _. i)
        (λ idle.
          let (w₁, r₁) = p.run_binding_unsynchronized w in
          let (l', w', r) = enqueue_and_record p l w in
          let (s, unset) = completion-Enqueued r₁ l w₁ w i idle in
          retained_or_fenced-Inv r (note_capture l' r) w' l.graph_lease (noted-Started f l' w' r s)
            i.leased (λ q. noted_flag f l' r ∙ unset q))

  -- The inputs are prepared.
  prepared-Inv : (l : Lane) (w : W) → Inv l w → l.in_flight ≡ false → Inv l (prepare_inputs p l w).0
  prepared-Inv l w i idle = record {
    quiet = λ _. prepare-Quiet f l w (i.quiet idle);
    recorded = λ e. absurd (ground (arith, e, idle_flag f l w i idle));
    flag = i.flag;
    guarded = i.guarded;
    leased = i.leased;
    opts = i.opts;
  }

  pub run_enqueued-Inv :
      (l : Lane) (w : W) → Inv l w → let (l', w', r) = run_enqueued p l w in Inv l' w'
  unfolding run_enqueued Holds
  run_enqueued-Inv l w i =
      choose-Holds l.in_flight _ _ (λ _. i)
        (λ idle.
          let (w', r) = prepare_inputs p l w in
          and_then-Holds r l w' (run_bound_binding_enqueued p) (prepared-Inv l w i idle)
            (run_bound_binding_enqueued-Inv l w'))

  run_then_synchronize-Inv : (l : Lane) (w : W) → Inv l w → Holds (run_then_synchronize p l w)
  unfolding run_then_synchronize Holds
  run_then_synchronize-Inv l w i =
      let (l', w', r) = run_bound_binding_enqueued p l w in
      and_then-Holds r l' w' (synchronize_outputs p) (run_bound_binding_enqueued-Inv l w i)
        (synchronize-Inv f l' w')

  run_prepared-Inv : (l : Lane) (w : W) → Inv l w → l.in_flight ≡ false → Holds (run_prepared p l w)
  unfolding run_prepared Holds
  run_prepared-Inv l w i idle =
      choose-Holds (p.cuda && (l.device_inputs && l.graph_id)) _ _
        (λ _. run_then_synchronize-Inv l w i) (λ _. run_bound_binding-Inv f l w i idle)

  pub run-Inv : (l : Lane) (w : W) → Inv l w → let (l', w', r) = run p l w in Inv l' w'
  unfolding run Holds
  run-Inv l w i =
      choose-Holds l.in_flight _ _ (λ _. i)
        (λ idle.
          let (w', r) = prepare_inputs p l w in
          and_then-Holds r l w' (run_prepared p) (prepared-Inv l w i idle)
            (λ j. run_prepared-Inv l w' j idle))
