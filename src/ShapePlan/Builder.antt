-- ===== src/ShapePlan/Builder.antt =====
-- `ServingShapePlanBuilder` of shape_plan.rs.
pub mod Refine
pub mod WellFormed
pub mod RoundTrip
use st_zrt.Common.{
  ℕ, suc, ◌+◌, ◌≡◌, Bool, true, false, Option, none, some, List, [], ◌∷◌, ◌++◌, ltb, leb,
  if◌then◌else◌, length, not, ◌||◌, get_elem?, Result, ok, err, ◌>>=◌, ◌>>◌, ℤ, pos, ltb_ℤ, u32_max,
}
use st_zrt.ShapePlan.{
  Shape, Shapes, Floats, CanonicalShape, OutputPolicy, FallbackPolicy, strict, fallback_session,
  pad_to_nearest, ShapePlanError, empty_plan, empty_input_set, duplicate_shape, too_many_shapes,
  non_positive_dimension, invalid_padding_waste_ratio, DimensionKind, input, output,
}
use st_zrt.ShapePlan.Compare.{shapes_eqb}
use st_zrt.ShapePlan.Hash.{ShapeIndex, from_slices, index_get, index_push}
use st_zrt.ShapePlan.Plan.{Plan}

abbrev pub Entry : Type 0
Entry = Shapes × Shapes × OutputPolicy

pub record Builder (fl : Floats) : Type 0 where
  pub entries : List Entry
  pub fallback : FallbackPolicy fl

-- Whether the inputs of some bucket among the ids are the given ones; `none` is a panic.
unfoldable pub any_same : List CanonicalShape → List ℕ → Shapes → Option Bool
any_same buckets [] inputs = some false
any_same buckets (id ∷ ids) inputs = elim (get_elem? buckets id) [
  | none ↦ none
  | some b ↦
      let rest = any_same buckets ids inputs in
      if shapes_eqb b.input_shapes inputs then some true else rest
]

unfoldable pub is_duplicate : List CanonicalShape → ShapeIndex → Shapes → Option Bool
unfolding any_same
is_duplicate buckets index inputs = elim (index_get (from_slices inputs) index) [
  | none ↦ some false
  | some ids ↦ any_same buckets ids inputs
]

module _ (fl : Floats) where
  open fl use {F32, is_finite, is_negative}

  abbrev pub builder : Builder fl
  builder = record { entries = []; fallback = strict }

  abbrev pub fallback_policy : Builder fl → FallbackPolicy fl → Builder fl
  fallback_policy b policy = record b { fallback = policy }

  abbrev pub add_shape : Builder fl → Shapes → Shapes → OutputPolicy → Builder fl
  add_shape b inputs outputs policy = record b {
    entries = b.entries ++ (inputs, outputs, policy) ∷ [];
  }

  -- The first dimension that is not positive is an error.
  unfoldable pub check_dims : DimensionKind → Shape → Result (Unit {0}) (ShapePlanError fl)
  check_dims kind [] = ok tt
  check_dims kind (d ∷ ds) =
      if ltb_ℤ (pos 0) d then check_dims kind ds else err (non_positive_dimension kind d)

  unfoldable pub check_shapes : DimensionKind → Shapes → Result (Unit {0}) (ShapePlanError fl)
  unfolding check_dims
  check_shapes kind [] = ok tt
  check_shapes kind (s ∷ ss) = check_dims kind s >> check_shapes kind ss

  unfoldable pub check_nonempty : Shapes → Result (Unit {0}) (ShapePlanError fl)
  check_nonempty [] = err empty_input_set
  check_nonempty (s ∷ ss) = ok tt

  unfoldable pub validate_shapes : Shapes → Shapes → Result (Unit {0}) (ShapePlanError fl)
  unfolding check_shapes check_nonempty
  validate_shapes inputs outputs = do
    check_nonempty inputs
    check_shapes input inputs
    check_shapes output outputs

  unfoldable pub check_ratio : FallbackPolicy fl → Result (Unit {0}) (ShapePlanError fl)
  check_ratio strict = ok tt
  check_ratio fallback_session = ok tt
  check_ratio (pad_to_nearest r) =
      if not (is_finite r) || is_negative r then err (invalid_padding_waste_ratio r) else ok tt

  abbrev pub canonical : ℕ → Entry → CanonicalShape
  canonical position (inputs, outputs, policy) = record {
    id = position;
    input_shapes = inputs;
    output_shapes = outputs;
    output_policy = policy;
  }

  -- The loop of `build`, at `position`. `ShapeId::from_index` panics above `u32::MAX`.
  unfoldable pub build_from :
      ℕ
      → List CanonicalShape
      → ShapeIndex
      → List Entry
      → Option (Result (List CanonicalShape × ShapeIndex) (ShapePlanError fl))
  build_from position buckets index [] = some (ok (buckets, index))
  build_from position buckets index (e ∷ rest) = elim (validate_shapes e.0 e.1) [
    | err x ↦ some (err x)
    | ok _ ↦ elim (is_duplicate buckets index e.0) [
      | none ↦ none
      | some true ↦ some (err duplicate_shape)
      | some false ↦ elim (leb position u32_max) [
        | false ↦ none
        | true ↦
            build_from (suc position) (buckets ++ canonical position e ∷ [])
              (index_push (from_slices e.0) position index) rest
      ]
    ]
  ]

  unfoldable pub check_builder : Builder fl → Result (Unit {0}) (ShapePlanError fl)
  unfolding check_ratio
  check_builder b =
      if ltb 0 (length b.entries)
      then if ltb u32_max (length b.entries) then err too_many_shapes else check_ratio b.fallback
      else err empty_plan

  -- `none` is a panic.
  unfoldable pub build : Builder fl → Option (Result (Plan fl) (ShapePlanError fl))
  unfolding build_from
  build b = elim (check_builder b) [
    | err x ↦ some (err x)
    | ok _ ↦ elim (build_from 0 [] [] b.entries) [
      | none ↦ none
      | some (err x) ↦ some (err x)
      | some (ok (buckets, index)) ↦
          some (ok (record { buckets = buckets; index = index; fallback = b.fallback }))
    ]
  ]
