-- ===== src/ShapePlan/Plan/Exact.antt =====
-- Exact classification through the hash index is a search by full equality.
use native.Mathlib.Nat.{add-zero}
use st_zrt.Common.{
  ℕ, suc, ◌+◌, ◌≡◌, refl, ap, ◌∙◌, Option, none, some, List, [], ◌∷◌, ◌++◌, ◌==◌, length, arith,
  if◌then◌else◌, get_elem?, Result, ok, Bool-cases, Option-cases, inl, inr,
}
use st_zrt.ShapePlan.{Shapes, Floats, CanonicalShape, ClassifyError}
use st_zrt.ShapePlan.Compare.{shapes_eqb, shapes_eqb_iff, shapes_equal_lem}
use st_zrt.ShapePlan.Hash.{ShapeIndex, from_slices, index_get, or_empty}
use st_zrt.ShapePlan.Plan.{Plan, find_candidate, fall_back, classify}

-- The ids, from `p` on, of the buckets whose inputs have the hash `h`.
unfoldable pub positions : ℕ → ℕ → List CanonicalShape → List ℕ
positions h p [] = []
positions h p (b ∷ bs) =
    let rest = positions h (suc p) bs in if from_slices b.input_shapes == h then p ∷ rest else rest

-- The index lists, under every hash, the buckets with that hash in order.
abbrev pub Indexes : ShapeIndex → List CanonicalShape → Type 0
Indexes index buckets = (h : ℕ) → or_empty (index_get h index) ≡ positions h 0 buckets

-- The first bucket, from `p` on, whose inputs are equal to the request.
unfoldable pub find_equal : ℕ → List CanonicalShape → Shapes → Option ℕ
find_equal p [] req = none
find_equal p (b ∷ bs) req =
    let rest = find_equal (suc p) bs req in if shapes_eqb b.input_shapes req then some p else rest

pub positions-append :
    (h p : ℕ) (bs : List CanonicalShape) (b : CanonicalShape)
    → positions h p (bs ++ b ∷ []) ≡ (
        if from_slices b.input_shapes == h
        then positions h p bs ++ (p + length bs) ∷ []
        else positions h p bs)
unfolding positions
positions-append h p [] b = ground (arith, add-zero p)
positions-append h p (c ∷ bs) b = ground (arith, positions-append h (suc p) bs b)

-- `rest` is what stands in `buckets` from `p` on.
abbrev Suffix : List CanonicalShape → ℕ → List CanonicalShape → Type 0
Suffix buckets p [] = Unit
Suffix buckets p (b ∷ bs) = (get_elem? buckets p ≡ some b) × Suffix buckets (suc p) bs

Suffix-cons :
    (a : CanonicalShape) (buckets : List CanonicalShape) (p : ℕ) (rest : List CanonicalShape)
    → Suffix buckets p rest
    → Suffix (a ∷ buckets) (suc p) rest
Suffix-cons a buckets p [] s = tt
Suffix-cons a buckets p (b ∷ bs) s = (s.0, Suffix-cons a buckets (suc p) bs s.1)

Suffix-whole : (buckets : List CanonicalShape) → Suffix buckets 0 buckets
Suffix-whole [] = tt
Suffix-whole (b ∷ bs) = (refl, Suffix-cons b bs 0 bs (Suffix-whole bs))

-- Skipping the buckets with another hash misses none that is equal.
find_candidate-positions :
    (buckets : List CanonicalShape) (req : Shapes) (p : ℕ) (rest : List CanonicalShape)
    → Suffix buckets p rest
    → find_candidate buckets (positions (from_slices req) p rest) req ≡ some (find_equal p rest req)
unfolding find_candidate positions find_equal
find_candidate-positions buckets req p [] s = refl
find_candidate-positions buckets req p (b ∷ bs) s =
    let later = find_candidate-positions buckets req (suc p) bs s.1 in
    elim (Bool-cases (shapes_eqb b.input_shapes req)) [
      | inl same ↦
          let equal : b.input_shapes ≡ req = (shapes_eqb_iff b.input_shapes req).0 same in
          ground (arith, s.0, same, ap from_slices equal, shapes_equal_lem b.input_shapes req)
      | inr other ↦ ground (arith, s.0, other, later, shapes_equal_lem b.input_shapes req)
    ]

-- So the candidates of the request's hash give what the search by equality gives.
pub found_by_hash :
    (buckets : List CanonicalShape) (index : ShapeIndex) (req : Shapes)
    → Indexes index buckets
    → find_candidate buckets (or_empty (index_get (from_slices req) index)) req
      ≡ some (find_equal 0 buckets req)
found_by_hash buckets index req ix =
    ap (λ ids. find_candidate buckets ids req) (ix (from_slices req))
    ∙ find_candidate-positions buckets req 0 buckets (Suffix-whole buckets)

module _ (fl : Floats) where
  -- The specification: look for an equal bucket by comparing whole shapes, else fall back.
  unfoldable pub classify_by_equality : Plan fl → Shapes → Result ℕ (ClassifyError fl)
  classify_by_equality plan req = elim (find_equal 0 plan.buckets req) [
    | none ↦ fall_back fl plan plan.fallback req
    | some id ↦ ok id
  ]

  -- On a plan whose index lists its buckets, classification never panics and answers as the search
  -- by full equality does: hash collisions misroute no request.
  pub classify_exact :
      (plan : Plan fl) (req : Shapes)
      → Indexes plan.index plan.buckets
      → classify fl plan req ≡ some (classify_by_equality plan req)
  unfolding classify classify_by_equality find_candidate
  classify_exact plan req ix =
      let found = found_by_hash plan.buckets plan.index req ix in
      elim (Option-cases (index_get (from_slices req) plan.index)) [
        | inl absent ↦ ground (arith, absent, found)
        | inr (ids, present) ↦ ground (arith, present, found)
      ]
