-- ===== src/Runtime/Cache/Planned.antt =====
-- `install_shape_plan` and `validate_planned_shape`: the sealed serving plan in front of the cache.
use st_zrt.Common.{
  ℕ, ◌≡◌, ◌↔◌, refl, sym, ap, ◌∙◌, subst, inl, inr, Bool, false, not, ◌&&◌, ◌||◌, Option, none,
  some, List, [], ◌∷◌, length, get_elem?, arith, ltb, ◌==◌, if◌then◌else◌, Result, ok, err,
  Option-cases, Bool-cases, Result-cases, zero, suc,
}
use st_zrt.ShapePlan.{
  Floats, Shapes, CanonicalShape, ClassifyError, OutputPolicy, host_buffer, cuda_pinned,
  device_resident,
}
use st_zrt.ShapePlan.Compare.{zip_all_equal, zip_equal, zip_refl}
use st_zrt.ShapePlan.Plan.{Plan, classify, bucket}
use st_zrt.ShapePlan.Builder.{Builder, build}
use st_zrt.ShapePlan.Builder.RoundTrip.{classify-build}

pub data InstallError : Type 0 where
  buckets_exist plan_too_large arity_mismatch placement_mismatch : InstallError

pub data PlannedError (fl : Floats) : Type 0 where
  plan_required invalid_shape_id not_canonical : PlannedError fl
  rejected : ClassifyError fl → PlannedError fl

abbrev pub policy_matches : Bool → OutputPolicy → Bool
policy_matches device_outputs host_buffer = not device_outputs
policy_matches device_outputs cuda_pinned = false
policy_matches device_outputs device_resident = device_outputs

-- The loop over the plan's buckets, for a runtime of `n` inputs and `m` outputs.
unfoldable pub check_buckets : ℕ → ℕ → Bool → List CanonicalShape → Result (Unit {0}) InstallError
check_buckets n m device_outputs [] = ok tt
check_buckets n m device_outputs (b ∷ bs) =
    let rest = check_buckets n m device_outputs bs in
    if not (length b.input_shapes == n) || not (length b.output_shapes == m)
    then err arity_mismatch
    else if policy_matches device_outputs b.output_policy
    then rest
    else err placement_mismatch

module _ (fl : Floats) where
  -- `used` and `retired` are the numbers of buckets and of retired buckets.
  unfoldable pub install_shape_plan :
      ℕ → ℕ → ℕ → ℕ → ℕ → Bool → Plan fl → Result (Plan fl) InstallError
  unfolding check_buckets
  install_shape_plan used retired max_buckets n m device_outputs plan =
      if not (used == 0) || not (retired == 0)
      then err buckets_exist
      else if ltb max_buckets (length plan.buckets)
      then err plan_too_large
      else elim (check_buckets n m device_outputs plan.buckets) [ err x ↦ err x | ok _ ↦ ok plan ]

  -- The check of the bucket that the classification gave.
  unfoldable pub check_canonical :
      Option CanonicalShape → Shapes → Shapes → Result (Unit {0}) (PlannedError fl)
  check_canonical none inputs outputs = err invalid_shape_id
  check_canonical (some b) inputs outputs =
      if zip_all_equal b.input_shapes inputs && zip_all_equal b.output_shapes outputs
      then ok tt
      else err not_canonical

  -- `none` is a panic.
  unfoldable pub validate_planned_shape :
      Option (Plan fl) → Bool → Shapes → Shapes → Option (Result (Unit {0}) (PlannedError fl))
  unfolding check_canonical
  validate_planned_shape none cuda_graph inputs outputs =
      some (if cuda_graph then err plan_required else ok tt)
  validate_planned_shape (some plan) cuda_graph inputs outputs = elim (classify fl plan inputs) [
    | none ↦ none
    | some (err x) ↦ some (err (rejected x))
    | some (ok id) ↦ some (check_canonical (bucket fl plan id) inputs outputs)
  ]

  same_arity :
      (n m : ℕ) (device_outputs : Bool) (bs : List CanonicalShape) (i : ℕ) {b : CanonicalShape}
      {u : Unit {0}}
      → check_buckets n m device_outputs bs ≡ ok u
      → get_elem? bs i ≡ some b
      → (length b.input_shapes ≡ n) × (length b.output_shapes ≡ m)
  unfolding check_buckets
  same_arity n m d [] i e at = absurd (cc (at))
  same_arity n m d (c ∷ bs) i {b} {u} e at =
      elim (Bool-cases (not (length c.input_shapes == n) || not (length c.output_shapes == m))) [
        | inl differs ↦ absurd (cc (rw (check_buckets, differs) at e))
        | inr agrees ↦ elim (Bool-cases (policy_matches d c.output_policy)) [
          | inr misplaced ↦ absurd (cc (rw (check_buckets, agrees, misplaced) at e))
          | inl placed ↦ at_index i at agrees (λ j there.
              same_arity n m d bs j {u = u} (rw (check_buckets, agrees, placed) at e) there)
        ]
      ]
    where
      at_index :
          (i : ℕ)
          → get_elem? (c ∷ bs) i ≡ some b
          → (not (length c.input_shapes == n) || not (length c.output_shapes == m)) ≡ false
          → ((j : ℕ)
              → get_elem? bs j ≡ some b
              → (length b.input_shapes ≡ n) × (length b.output_shapes ≡ m))
          → (length b.input_shapes ≡ n) × (length b.output_shapes ≡ m)
      at_index zero at agrees rest =
          let same : c ≡ b = cc (at) in
          subst (λ (x : CanonicalShape). (length x.input_shapes ≡ n) × (length x.output_shapes ≡ m))
            same (ground (arith, agrees), ground (arith, agrees))
      at_index (suc i) at agrees rest = rest i at

  canonical_iff :
      (o : Option CanonicalShape) (inputs outputs : Shapes)
      → ((c : CanonicalShape)
          → o ≡ some c
          → (length c.input_shapes ≡ length inputs) × (length c.output_shapes ≡ length outputs))
      → check_canonical o inputs outputs ≡ ok tt
      → (c : CanonicalShape) × (o ≡ some c)
        × (c.input_shapes ≡ inputs)
        × (c.output_shapes ≡ outputs)
  unfolding check_canonical
  canonical_iff none inputs outputs arity e = absurd (cc (e))
  canonical_iff (some c) inputs outputs arity e =
      elim (Bool-cases
        (zip_all_equal c.input_shapes inputs && zip_all_equal c.output_shapes outputs)) [
          | inr different ↦ absurd (cc (rw (check_canonical, different) at e))
          | inl both ↦
              let (ins, outs) = arity c refl in
              (
                c,
                refl,
                zip_equal c.input_shapes inputs ins (ground (arith, both)),
                zip_equal c.output_shapes outputs outs (ground (arith, both)),
              )
        ]

  -- With a built plan that was installed, a request of as many input and output shapes as the runtime
  -- has is let through exactly when its shapes are the input and output shapes of one bucket of the
  -- plan, whatever the fallback policy: a padded classification lets nothing else through.
  pub validate_planned_shape_iff :
      (b : Builder fl) (plan : Plan fl) (used retired max_buckets : ℕ)
      (device_outputs cuda_graph : Bool) (inputs outputs : Shapes)
      → build fl b ≡ some (ok plan)
      → install_shape_plan used retired max_buckets
          (length inputs)
          (length outputs)
          device_outputs
          plan
        ≡ ok plan
      → (validate_planned_shape (some plan) cuda_graph inputs outputs ≡ some (ok tt)) ↔ (
          (i : ℕ) × (c : CanonicalShape) × (get_elem? plan.buckets i ≡ some c)
          × (c.input_shapes ≡ inputs)
          × (c.output_shapes ≡ outputs))
  unfolding validate_planned_shape check_canonical install_shape_plan
  validate_planned_shape_iff b plan used retired max_buckets d g inputs outputs built installed = (
    λ e. elim (Option-cases (classify fl plan inputs)) [
      | inl panics ↦ absurd (cc (rw (validate_planned_shape, panics) at e))
      | inr (r, classified) ↦ elim (Result-cases r) [
        | inr (x, bad) ↦ absurd (cc (rw (validate_planned_shape, classified, bad) at e))
        | inl (id, good) ↦
            let checked : some (check_canonical (bucket fl plan id) inputs outputs) ≡ some (ok tt) =
              rw (validate_planned_shape, classified, good) at e in
            let (c, found, ins, outs) =
              canonical_iff (bucket fl plan id) inputs outputs (λ c there. arity id there)
                (cc (checked)) in
            (id, c, found, ins, outs)
      ]
    ],
    λ (i, c, there, ins, outs).
        let classified : classify fl plan inputs ≡ some (ok i) =
          ap (classify fl plan) (sym ins) ∙ (classify-build fl b plan i c built there).0 in
        rw (
          validate_planned_shape,
          classified,
          there,
          zip_refl c.input_shapes inputs ins,
          zip_refl c.output_shapes outputs outs,
        ),
  )
    where
      arity :
          (i : ℕ) {c : CanonicalShape}
          → get_elem? plan.buckets i ≡ some c
          → (length c.input_shapes ≡ length inputs) × (length c.output_shapes ≡ length outputs)
      arity i there =
          elim (Result-cases (check_buckets (length inputs) (length outputs) d plan.buckets)) [
            | inl (u, good) ↦
                same_arity (length inputs) (length outputs) d plan.buckets i {u = u} good there
            | inr (x, bad) ↦ absurd (ground (arith, installed, bad))
          ]
