-- ===== src/ShapePlan.antt =====
-- st-zrt/src/shape_plan.rs: the sealed plan of serving shapes. This file has its data; the children
-- have the hash index, the builder, the exact and the padded classification.
pub mod Compare
pub mod Hash
pub mod Counts
pub mod Plan
pub mod Builder
pub mod Tests
use st_zrt.Common.{ℕ, ◌≤◌, Bool, List, ℤ}

-- `Vec<i64>` and `Vec<Vec<i64>>`; a dimension is the value of the `i64`.
abbrev pub Shape : Type 0
Shape = List ℤ

abbrev pub Shapes : Type 0
Shapes = List Shape

-- The floats of the plan, with the operations that the code applies to them: `f32::is_finite`,
-- `x < 0.0`, `waste as f64 / requested as f64`, and `actual > f64::from(maximum)`.
pub record Floats : Type 1 where
  pub F32 : Type 0
  pub F64 : Type 0
  pub is_finite : F32 → Bool
  pub is_negative : F32 → Bool
  pub ratio : ℕ → ℕ → F64
  pub exceeds : F64 → F32 → Bool

pub data OutputPolicy : Type 0 where
  host_buffer cuda_pinned device_resident : OutputPolicy

-- A `ShapeId` is the `u32` that it wraps.
pub record CanonicalShape : Type 0 where
  pub id : ℕ
  pub input_shapes : Shapes
  pub output_shapes : Shapes
  pub output_policy : OutputPolicy

pub data FallbackPolicy (fl : Floats) : Type 0 where
  strict fallback_session : FallbackPolicy fl
  pad_to_nearest : fl.F32 → FallbackPolicy fl

pub data ClassifyError (fl : Floats) : Type 0 where
  not_in_plan no_fitting_shape : ClassifyError fl
  padding_waste_exceeded : fl.F64 → fl.F32 → ClassifyError fl

pub data DimensionKind : Type 0 where
  input output : DimensionKind

pub data ShapePlanError (fl : Floats) : Type 0 where
  empty_plan empty_input_set duplicate_shape too_many_shapes : ShapePlanError fl
  non_positive_dimension : DimensionKind → ℤ → ShapePlanError fl
  invalid_padding_waste_ratio : fl.F32 → ShapePlanError fl
