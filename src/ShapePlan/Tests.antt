-- ===== src/ShapePlan/Tests.antt =====
-- Concrete plans of shape_plan.rs, and the theorems at them.
use st_zrt.Common.{
  ℕ, ◌-◌, ◌≤◌, ◌<◌, ◌≡◌, ◌↔◌, refl, ◌≢◌, ◌⊎◌, true, false, some, [], ◌∷◌, arith, ok, err, pos, ltb,
  ◌*◌, get_elem?, u128_mod, ◌^◌, none,
}
use st_zrt.ShapePlan.{
  Shapes, Floats, CanonicalShape, FallbackPolicy, strict, pad_to_nearest, host_buffer,
  device_resident, ShapePlanError, duplicate_shape, not_in_plan, no_fitting_shape,
}
use st_zrt.ShapePlan.Hash.{from_slices, index_get, index_push}
use st_zrt.ShapePlan.Compare.{shapes_eqb, shape_eqb}
use st_zrt.ShapePlan.Counts.{fitting_element_counts, requested_element_count, Fits, elements}
use st_zrt.ShapePlan.Counts.Complete.{fitting_element_counts_iff}
use st_zrt.ShapePlan.Counts.Requested.{requested_element_count_lem}
use st_zrt.ShapePlan.Plan.{Plan, classify, classify_padded}
use st_zrt.ShapePlan.Plan.Exact.{Indexes, classify_by_equality, classify_exact}
use st_zrt.ShapePlan.Plan.Padded.{classify_padded-best, classify_padded-none_iff}
use st_zrt.ShapePlan.Builder.{
  Builder, builder, add_shape, fallback_policy, build, canonical, check_builder, validate_shapes,
  is_duplicate,
}
use st_zrt.ShapePlan.Builder.Refine.{build_by_equality, build_refines}
use st_zrt.ShapePlan.Builder.WellFormed.{IsSealed, build-IsSealed}
use st_zrt.ShapePlan.Builder.RoundTrip.{built_Indexes, classify-build, classify_strict}

-- Ratios in hundredths: `25` stands for `0.25`.
abbrev pub hundredths : Floats
hundredths = record {
  F32 = ℕ;
  F64 = ℕ × ℕ;
  is_finite = λ _. true;
  is_negative = λ _. false;
  ratio = λ w n. (w, n);
  exceeds = λ r m. ltb (m * r.1) (100 * r.0);
}

abbrev small : Shapes
small = (pos 1 ∷ pos 8 ∷ []) ∷ (pos 1 ∷ pos 8 ∷ []) ∷ []

abbrev large : Shapes
large = (pos 32 ∷ pos 64 ∷ []) ∷ (pos 32 ∷ pos 64 ∷ []) ∷ []

abbrev middle : Shapes
middle = (pos 16 ∷ pos 32 ∷ []) ∷ (pos 16 ∷ pos 32 ∷ []) ∷ []

abbrev two_shapes : FallbackPolicy hundredths → Builder hundredths
two_shapes policy =
    add_shape hundredths
      (add_shape hundredths (fallback_policy hundredths (builder hundredths) policy) small
        ((pos 1 ∷ pos 384 ∷ []) ∷ []) host_buffer)
      large ((pos 32 ∷ pos 384 ∷ []) ∷ []) device_resident

abbrev two_plan : FallbackPolicy hundredths → Plan hundredths
two_plan policy = record {
  buckets =
      canonical hundredths 0 (small, (pos 1 ∷ pos 384 ∷ []) ∷ [], host_buffer)
      ∷ canonical hundredths 1 (large, (pos 32 ∷ pos 384 ∷ []) ∷ [], device_resident)
      ∷ [];
  index = (from_slices small, 0 ∷ []) ∷ (from_slices large, 1 ∷ []) ∷ [];
  fallback = policy;
}

strict_built : build hundredths (two_shapes strict) ≡ some (ok (two_plan strict))
unfolding build check_builder validate_shapes is_duplicate index_get index_push from_slices
    shapes_eqb shape_eqb
strict_built = refl

padded_built :
    build hundredths (two_shapes (pad_to_nearest 300)) ≡ some (ok (two_plan (pad_to_nearest 300)))
unfolding build check_builder validate_shapes is_duplicate index_get index_push from_slices
    shapes_eqb shape_eqb
padded_built = refl

duplicate_refused :
    build hundredths (add_shape hundredths (two_shapes strict) small [] host_buffer)
    ≡ some (err duplicate_shape)
unfolding build check_builder validate_shapes is_duplicate index_get index_push from_slices
    shapes_eqb shape_eqb
duplicate_refused = refl

middle_padded : classify hundredths (two_plan (pad_to_nearest 300)) middle ≡ some (ok 1)
unfolding classify classify_padded fitting_element_counts requested_element_count index_get
    from_slices
middle_padded = refl

two_Indexes : Indexes (two_plan strict).index (two_plan strict).buckets
two_Indexes = built_Indexes hundredths (two_shapes strict) (two_plan strict) strict_built

classify_exact_example :
    classify hundredths (two_plan strict) large
    ≡ some (classify_by_equality hundredths (two_plan strict) large)
classify_exact_example = classify_exact hundredths (two_plan strict) large two_Indexes

build_refines_example :
    let b = two_shapes strict in
    ((x : ShapePlanError hundredths) × (build hundredths b ≡ some (err x))
      × (build_by_equality hundredths b ≡ err x))
    ⊎ ((plan : Plan hundredths) × (build hundredths b ≡ some (ok plan))
        × (build_by_equality hundredths b ≡ ok plan.buckets)
        × Indexes plan.index plan.buckets
        × (plan.fallback ≡ b.fallback))
build_refines_example = build_refines hundredths (two_shapes strict)

build-IsSealed_example : IsSealed (two_plan strict).buckets
build-IsSealed_example =
    build-IsSealed hundredths (two_shapes strict) (two_plan strict) strict_built

abbrev second : CanonicalShape
second = canonical hundredths 1 (large, (pos 32 ∷ pos 384 ∷ []) ∷ [], device_resident)

classify-build_example :
    (classify hundredths (two_plan strict) large ≡ some (ok 1)) × (second.id ≡ 1)
classify-build_example =
    classify-build hundredths (two_shapes strict) (two_plan strict) 1 second strict_built refl

classify_strict_example :
    ((id : ℕ) × (c : CanonicalShape) × (classify hundredths (two_plan strict) middle ≡ some (ok id))
      × (get_elem? (two_plan strict).buckets id ≡ some c)
      × (c.input_shapes ≡ middle))
    ⊎ ((classify hundredths (two_plan strict) middle ≡ some (err not_in_plan))
        × ((i : ℕ) (c : CanonicalShape)
            → get_elem? (two_plan strict).buckets i ≡ some c
            → c.input_shapes ≢ middle))
classify_strict_example =
    classify_strict hundredths (two_shapes strict) (two_plan strict) middle strict_built refl

fitting_element_counts_iff_example :
    (fitting_element_counts middle large ≡ some (1024, 4096))
    ↔ (Fits middle large × (1024 ≡ elements middle) × (4096 ≡ elements large) × (4096 < u128_mod))
fitting_element_counts_iff_example = fitting_element_counts_iff middle large 1024 4096

middle_counts : fitting_element_counts middle large ≡ some (1024, 4096)
unfolding fitting_element_counts
middle_counts = refl

requested_element_count_lem_example : requested_element_count middle ≡ some 1024
requested_element_count_lem_example =
    requested_element_count_lem middle large middle_counts (omega arith)

middle_chosen : classify_padded hundredths (two_plan (pad_to_nearest 300)) middle 300 ≡ ok 1
unfolding classify_padded fitting_element_counts requested_element_count
middle_chosen = refl

classify_padded-best_example :
    let plan = two_plan (pad_to_nearest 300) in
    (i : ℕ) × (b : CanonicalShape) × (r : ℕ) × (c : ℕ) × (n : ℕ) × (get_elem? plan.buckets i
      ≡ some b)
    × (1 ≡ b.id)
    × (fitting_element_counts middle b.input_shapes ≡ some (r, c))
    × (requested_element_count middle ≡ some n)
    × (ltb (300 * n) (100 * (c - r)) ≡ false)
    × ((j : ℕ) (d : CanonicalShape) (r' c' : ℕ)
        → get_elem? plan.buckets j ≡ some d
        → fitting_element_counts middle d.input_shapes ≡ some (r', c')
        → (c - r < c' - r') ⊎ ((c - r ≡ c' - r') × (c ≤ c')))
classify_padded-best_example =
    classify_padded-best hundredths (two_plan (pad_to_nearest 300)) middle 300 1 middle_chosen

two_IsSealed : IsSealed (two_plan (pad_to_nearest 300)).buckets
two_IsSealed =
    build-IsSealed hundredths (two_shapes (pad_to_nearest 300)) (two_plan (pad_to_nearest 300))
      padded_built

classify_padded-none_iff_example :
    (classify_padded hundredths (two_plan (pad_to_nearest 300)) middle 300 ≡ err no_fitting_shape)
    ↔ ((i : ℕ) (b : CanonicalShape)
        → get_elem? (two_plan (pad_to_nearest 300)).buckets i ≡ some b
        → ¬ (Fits middle b.input_shapes × (elements b.input_shapes < u128_mod)))
classify_padded-none_iff_example =
    classify_padded-none_iff hundredths (two_plan (pad_to_nearest 300)) middle 300
      two_IsSealed.has_input

-- A bucket whose shapes fit, but whose elements are no `u128`.
overflows :
    fitting_element_counts
      ((pos 1 ∷ pos 1 ∷ pos 1 ∷ []) ∷ [])
      ((pos (2 ^ 63 - 1) ∷ pos (2 ^ 63 - 1) ∷ pos (2 ^ 63 - 1) ∷ []) ∷ [])
    ≡ none
unfolding fitting_element_counts
overflows = refl
