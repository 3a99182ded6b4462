-- ===== src/Runtime/Options/Valid.antt =====
-- Which options a runtime is built with.
use st_zrt.Common.{
  ℕ, ◌<◌, ◌≤◌, ◌≡◌, ◌↔◌, refl, ◌⊎◌, inl, inr, Bool, true, false, not, ◌&&◌, ltb, ◌==◌, length,
  Result, ok, guard, ◌>>◌, Bool-cases, Result-cases, arith, ap,
}
use st_zrt.Runtime.Options.{
  DynamicIoOptions, RuntimeMode, is_none, is_replicated, no_streams, check_device_inputs,
  check_options, validate, validate_runtime_mode,
}

-- What everything on the device needs: a device, no rebinding, the feature, and a stream.
abbrev pub OnDevice : {B : Type 0} → Bool → DynamicIoOptions B → Type 0
OnDevice cuda o =
    (is_none o.device_id ≡ false)
    × (o.rebind_inputs_each_run ≡ false)
    × (cuda ≡ true)
    × ((no_streams o.lane_streams && is_none o.stream) ≡ false)

abbrev pub Valid : {B : Type 0} → Bool → DynamicIoOptions B → Type 0
Valid cuda o =
    (0 < o.max_buckets)
    × (o.cuda_graph ≡ true → OnDevice cuda o)
    × (o.device_outputs ≡ true → OnDevice cuda o)
    × (is_none o.device_id ≡ false → OnDevice cuda o)

guarded :
    {A E : Type 0} (b : Bool) (e : E) (k : Result A E) (a : A)
    → guard b e >> k ≡ ok a
    → (b ≡ true) × (k ≡ ok a)
guarded true e k a h = (refl, h)
guarded false e k a h = absurd (cc (h))

guarded_last : {E : Type 0} (b : Bool) (e : E) → guard b e ≡ ok tt → b ≡ true
guarded_last true e h = refl
guarded_last false e h = absurd (cc (h))

pass :
    {A E : Type 0} (b : Bool) (e : E) (k : Result A E) (a : A)
    → b ≡ true
    → k ≡ ok a
    → guard b e >> k ≡ ok a
pass true e k a q h = h
pass false e k a q h = absurd (cc (q))

module _ {B : Type 0} (cuda : Bool) (o : DynamicIoOptions B) where
  checked_device :
      check_device_inputs cuda o ≡ ok tt → is_none o.device_id ≡ false → OnDevice cuda o
  unfolding check_device_inputs
  checked_device e there =
      let (no_rebind, e₁) =
        guarded (not o.rebind_inputs_each_run) _ _ tt (rw (check_device_inputs, there) at e) in
      let (on, e₂) = guarded cuda _ _ tt e₁ in
      let streams = guarded_last (not (no_streams o.lane_streams && is_none o.stream)) _ e₂ in
      (there, ground (arith, no_rebind), on, ground (arith, streams))

  checked : check_options cuda o ≡ ok tt → Valid cuda o
  unfolding check_options
  checked e =
      let (nonzero, e₁) = guarded (not (o.max_buckets == 0)) _ _ tt e in
      let (g₁, e₂) = guarded (not (o.cuda_graph && o.rebind_inputs_each_run)) _ _ tt e₁ in
      let (g₂, e₃) = guarded (not (o.cuda_graph && is_none o.device_id)) _ _ tt e₂ in
      let (g₃, e₄) = guarded (not (o.device_outputs && is_none o.device_id)) _ _ tt e₃ in
      let (g₄, e₅) = guarded (not (o.device_outputs && not cuda)) _ _ tt e₄ in
      (
        ground (arith, nonzero),
        λ graph. checked_device e₅ (ground (arith, graph, g₂)),
        λ outputs. checked_device e₅ (ground (arith, outputs, g₃)),
        checked_device e₅,
      )

  checks_device :
      (is_none o.device_id ≡ false → OnDevice cuda o) → check_device_inputs cuda o ≡ ok tt
  unfolding check_device_inputs
  checks_device h = elim (Bool-cases (is_none o.device_id)) [
    | inl missing ↦ rw (check_device_inputs, missing)
    | inr there ↦
        let (_, no_rebind, on, streams) = h there in
        rw (check_device_inputs, there, no_rebind, on, streams)
  ]

  checks : Valid cuda o → check_options cuda o ≡ ok tt
  unfolding check_options
  checks (nonzero, graph, outputs, inputs) = pass _ _ _ tt (ground (arith, nonzero)) (
      pass _ _ _ tt (implies o.cuda_graph o.rebind_inputs_each_run (λ q. (graph q).1)) (
        pass _ _ _ tt (implies o.cuda_graph (is_none o.device_id) (λ q. (graph q).0)) (
          pass _ _ _ tt (implies o.device_outputs (is_none o.device_id) (λ q. (outputs q).0)) (
            pass _ _ _ tt (implies o.device_outputs (not cuda) (λ q. ground (arith, (outputs q).2)))
              (checks_device inputs)))))
    where
      implies : (a b : Bool) → (a ≡ true → b ≡ false) → not (a && b) ≡ true
      implies true b h = ap not (h refl)
      implies false b h = refl

  -- Options are accepted, and then unchanged, exactly when there is room for a bucket, and captured
  -- graphs, device outputs and device inputs each come with a device, without rebinding of inputs,
  -- with the `cuda` feature and with a stream.
  pub validate_iff : (validate cuda o ≡ ok o) ↔ Valid cuda o
  unfolding validate
  validate_iff = (
    λ e. elim (Result-cases (check_options cuda o)) [
      | inl (u, good) ↦ checked good
      | inr (x, bad) ↦ absurd (cc (rw (validate, bad) at e))
    ],
    λ h. rw (validate, checks h),
  )

  -- When both checks accept options with captured graphs, the runtime has one lane per bucket or
  -- replicated sessions, and the lanes have a stream each, or all the one stream.
  pub accepted_graph_lanes :
      (mode : RuntimeMode) (lane_count : ℕ)
      → validate cuda o ≡ ok o
      → validate_runtime_mode cuda o mode lane_count ≡ ok tt
      → o.cuda_graph ≡ true
      → ((lane_count ≤ 1) ⊎ (is_replicated mode ≡ true))
        × (((is_replicated mode ≡ true) × (length o.lane_streams ≡ lane_count))
            ⊎ ((no_streams o.lane_streams ≡ true) × (is_none o.stream ≡ false)))
  unfolding validate_runtime_mode
  accepted_graph_lanes mode lane_count valid e graph =
      let (_, _, on, streams) = (validate_iff.0 valid).1 graph in
      elim (Bool-cases (ltb 1 lane_count && not (is_replicated mode))) [
        | inl refused ↦ absurd (cc (rw (validate_runtime_mode, graph, refused) at e))
        | inr topology ↦ (
          one_or_replicated (is_replicated mode) topology,
          elim (Bool-cases (no_streams o.lane_streams)) [
            | inl shared ↦ inr (shared, ground (arith, shared, streams))
            | inr each ↦
                let (replicated, e₁) =
                  guarded (is_replicated mode) _ _ tt
                    (rw (validate_runtime_mode, graph, topology, on, each) at e) in
                inl (
                  replicated,
                  ground (arith, guarded_last (length o.lane_streams == lane_count) _ e₁),
                )
          ],
        )
      ]
    where
      one_or_replicated :
          (r : Bool) → (ltb 1 lane_count && not r) ≡ false → (lane_count ≤ 1) ⊎ (r ≡ true)
      one_or_replicated true h = inr refl
      one_or_replicated false h = inl (ground (arith, h))
