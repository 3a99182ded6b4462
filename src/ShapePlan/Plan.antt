-- ===== src/ShapePlan/Plan.antt =====
-- `ServingShapePlan` of shape_plan.rs: the sealed plan and its classification of requests.
pub mod Exact
pub mod Padded
use st_zrt.Common.{
  ℕ, ◌-◌, ◌≡◌, Bool, true, false, ◌&&◌, ◌||◌, Option, none, some, List, [], ◌∷◌, ltb, ◌==◌,
  if◌then◌else◌, length, get_elem?, Result, ok, err,
}
use st_zrt.ShapePlan.{
  Shapes, Floats, CanonicalShape, FallbackPolicy, strict, fallback_session, pad_to_nearest,
  ClassifyError, not_in_plan, no_fitting_shape, padding_waste_exceeded,
}
use st_zrt.ShapePlan.Compare.{shapes_equal}
use st_zrt.ShapePlan.Hash.{ShapeIndex, from_slices, index_get}
use st_zrt.ShapePlan.Counts.{fitting_element_counts, requested_element_count}

pub record Plan (fl : Floats) : Type 0 where
  pub buckets : List CanonicalShape
  pub index : ShapeIndex
  pub fallback : FallbackPolicy fl

-- The loop over the candidate ids of a hash: the outer `none` is a panic on an id out of range.
unfoldable pub find_candidate : List CanonicalShape → List ℕ → Shapes → Option (Option ℕ)
find_candidate buckets [] req = some none
find_candidate buckets (id ∷ ids) req = elim (get_elem? buckets id) [
  | none ↦ none
  | some b ↦
      let rest = find_candidate buckets ids req in
      if shapes_equal b.input_shapes req then some (some id) else rest
]

-- The best bucket so far: its waste, its elements, its id.
abbrev pub Best : Type 0
Best = Option (ℕ × ℕ × ℕ)

abbrev pub improves : ℕ → ℕ → Best → Bool
improves waste total none = true
improves waste total (some (w, t, _)) = ltb waste w || ((waste == w) && ltb total t)

-- One round of the padding loop, on the counts of the bucket.
abbrev pub consider : Option (ℕ × ℕ) → ℕ → Best → Best
consider none id best = best
consider (some (requested, canonical)) id best =
    if improves (canonical - requested) canonical best
    then some (canonical - requested, canonical, id)
    else best

unfoldable pub best_fit : Shapes → List CanonicalShape → Best → Best
best_fit req [] best = best
best_fit req (b ∷ bs) best =
    best_fit req bs (consider (fitting_element_counts req b.input_shapes) b.id best)

module _ (fl : Floats) where
  open fl use {F32, ratio, exceeds}

  unfoldable pub classify_padded : Plan fl → Shapes → F32 → Result ℕ (ClassifyError fl)
  unfolding best_fit
  classify_padded plan req maximum = elim (best_fit req plan.buckets none) [
    | none ↦ err no_fitting_shape
    | some (waste, _, id) ↦ elim (requested_element_count req) [
      | none ↦ err no_fitting_shape
      | some n ↦
          if exceeds (ratio waste n) maximum
          then err (padding_waste_exceeded (ratio waste n) maximum)
          else ok id
    ]
  ]

  -- What follows when no bucket is equal to the request.
  unfoldable pub fall_back : Plan fl → FallbackPolicy fl → Shapes → Result ℕ (ClassifyError fl)
  fall_back plan strict req = err not_in_plan
  fall_back plan fallback_session req = err not_in_plan
  fall_back plan (pad_to_nearest maximum) req = classify_padded plan req maximum

  -- `none` is a panic.
  unfoldable pub classify : Plan fl → Shapes → Option (Result ℕ (ClassifyError fl))
  unfolding find_candidate fall_back
  classify plan req = elim (index_get (from_slices req) plan.index) [
    | none ↦ some (fall_back plan plan.fallback req)
    | some candidates ↦ elim (find_candidate plan.buckets candidates req) [
      | none ↦ none
      | some none ↦ some (fall_back plan plan.fallback req)
      | some (some id) ↦ some (ok id)
    ]
  ]

  abbrev pub bucket : Plan fl → ℕ → Option CanonicalShape
  bucket plan id = get_elem? plan.buckets id
