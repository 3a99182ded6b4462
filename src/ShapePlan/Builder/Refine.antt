-- ===== src/ShapePlan/Builder/Refine.antt =====
-- `build` with its hash index against a builder that compares every new bucket with all earlier ones.
use st_zrt.Common.{
  ℕ, suc, ◌+◌, ◌≤◌, ◌≡◌, refl, ap, subst, ◌∙◌, Bool, true, false, Option, none, some, List, [], ◌∷◌,
  ◌++◌, length, get_elem?, arith, Result, ok, err, Bool-cases, Option-cases, Result-cases, inl, inr,
  ◌⊎◌, any, u32_max, leb, length-append,
}
use st_zrt.ShapePlan.{Shapes, Floats, CanonicalShape, ShapePlanError, duplicate_shape}
use st_zrt.ShapePlan.Compare.{shapes_eqb, shapes_equal_lem}
use st_zrt.ShapePlan.Hash.{ShapeIndex, from_slices, index_get, index_push, index_get-push}
use st_zrt.ShapePlan.Plan.{Plan, find_candidate}
use st_zrt.ShapePlan.Plan.Exact.{Indexes, positions, positions-append, find_equal, found_by_hash}
use st_zrt.ShapePlan.Builder.{
  Entry, Builder, any_same, is_duplicate, validate_shapes, canonical, build_from, check_builder,
  build,
}

abbrev pub same_inputs : Shapes → CanonicalShape → Bool
same_inputs inputs b = shapes_eqb b.input_shapes inputs

-- A new bucket keeps the index in step.
Indexes-push :
    (index : ShapeIndex) (buckets : List CanonicalShape) (b : CanonicalShape)
    → Indexes index buckets
    → Indexes (index_push (from_slices b.input_shapes) (length buckets) index) (buckets ++ b ∷ [])
Indexes-push index buckets b ix h = ground (
  arith,
  ix h,
  index_get-push h (from_slices b.input_shapes) (length buckets) index,
  positions-append h 0 buckets b,
)

abbrev is_found : Option ℕ → Bool
is_found none = false
is_found (some id) = true

any_same_lem :
    (buckets : List CanonicalShape) (ids : List ℕ) (inputs : Shapes) {found : Option ℕ}
    → find_candidate buckets ids inputs ≡ some found
    → any_same buckets ids inputs ≡ some (is_found found)
unfolding find_candidate any_same
any_same_lem buckets [] inputs e = ground arith
any_same_lem buckets (id ∷ ids) inputs {found} e = elim (Option-cases (get_elem? buckets id)) [
  | inl out ↦ ground (arith, out)
  | inr (b, at) ↦ ground (
    arith,
    at,
    shapes_equal_lem b.input_shapes inputs,
    any_same_lem buckets ids inputs {found = found},
  )
]

any-find_equal :
    (p : ℕ) (buckets : List CanonicalShape) (inputs : Shapes)
    → is_found (find_equal p buckets inputs) ≡ any (same_inputs inputs) buckets
unfolding find_equal
any-find_equal p [] inputs = refl
any-find_equal p (b ∷ bs) inputs = ground (arith, any-find_equal (suc p) bs inputs)

-- The hash lookup finds a duplicate exactly when some earlier bucket has the same inputs.
is_duplicate_lem :
    (buckets : List CanonicalShape) (index : ShapeIndex) (inputs : Shapes)
    → Indexes index buckets
    → is_duplicate buckets index inputs ≡ some (any (same_inputs inputs) buckets)
unfolding is_duplicate any_same find_candidate
is_duplicate_lem buckets index inputs ix =
    let found = found_by_hash buckets index inputs ix in
    let listed = any_same_lem buckets _ inputs found ∙ ap some (any-find_equal 0 buckets inputs) in
    elim (Option-cases (index_get (from_slices inputs) index)) [
      | inl absent ↦ ground (arith, absent, listed)
      | inr (ids, present) ↦ ground (arith, present, listed)
    ]

module _ (fl : Floats) where
  -- The specification of the loop: validate, then compare with every earlier bucket.
  unfoldable pub place :
      List CanonicalShape → List Entry → Result (List CanonicalShape) (ShapePlanError fl)
  place buckets [] = ok buckets
  place buckets (e ∷ rest) = elim (validate_shapes fl e.0 e.1) [
    | err x ↦ err x
    | ok _ ↦ elim (any (same_inputs e.0) buckets) [
      | true ↦ err duplicate_shape
      | false ↦ place (buckets ++ canonical fl (length buckets) e ∷ []) rest
    ]
  ]

  unfoldable pub build_by_equality : Builder fl → Result (List CanonicalShape) (ShapePlanError fl)
  build_by_equality b = elim (check_builder fl b) [ err x ↦ err x | ok _ ↦ place [] b.entries ]

  -- What the loop returns, against what the specification returns.
  data LoopAgrees
      : Option (Result (List CanonicalShape × ShapeIndex) (ShapePlanError fl))
        → Result (List CanonicalShape) (ShapePlanError fl)
        → Type 0 where
    fails : (x : ShapePlanError fl) → LoopAgrees (some (err x)) (err x)
    builds :
        (buckets : List CanonicalShape) (index : ShapeIndex)
        → Indexes index buckets
        → LoopAgrees (some (ok (buckets, index))) (ok buckets)

  build_from-LoopAgrees :
      (buckets : List CanonicalShape) (index : ShapeIndex) (entries : List Entry)
      → Indexes index buckets
      → length buckets + length entries ≤ u32_max
      → LoopAgrees (build_from fl (length buckets) buckets index entries) (place buckets entries)
  unfolding build_from place
  build_from-LoopAgrees buckets index [] ix h = builds buckets index ix
  build_from-LoopAgrees buckets index (e ∷ rest) ix h =
      let dup = is_duplicate_lem buckets index e.0 ix in
      elim (Result-cases (validate_shapes fl e.0 e.1)) [
        | inr (x, bad) ↦ rw (bad, build_from, place) (fails x)
        | inl (u, good) ↦ elim (Bool-cases (any (same_inputs e.0) buckets)) [
          | inl again ↦ rw (good, build_from, place, dup, again) (fails duplicate_shape)
          | inr new ↦
              rw (good, build_from, place, dup, new, small)
                (subst
                  (λ n.
                    LoopAgrees
                      (build_from fl n (buckets ++ canonical fl (length buckets) e ∷ [])
                        (index_push (from_slices e.0) (length buckets) index) rest)
                      (place (buckets ++ canonical fl (length buckets) e ∷ []) rest))
                  one_more
                  (build_from-LoopAgrees (buckets ++ canonical fl (length buckets) e ∷ []) _ rest
                    (Indexes-push index buckets (canonical fl (length buckets) e) ix)
                    (omega (arith, one_more))))
        ]
      ]
    where
      one_more : length (buckets ++ canonical fl (length buckets) e ∷ []) ≡ suc (length buckets)
      one_more = omega (arith, length-append buckets (canonical fl (length buckets) e ∷ []))

      small : leb (length buckets) u32_max ≡ true
      small = ground arith

  LoopAgrees-cases :
      {r : Option (Result (List CanonicalShape × ShapeIndex) (ShapePlanError fl))}
      {t : Result (List CanonicalShape) (ShapePlanError fl)}
      → LoopAgrees r t
      → ((x : ShapePlanError fl) × (r ≡ some (err x)) × (t ≡ err x))
        ⊎ ((buckets : List CanonicalShape) × (index : ShapeIndex) × Indexes index buckets
            × (r ≡ some (ok (buckets, index)))
            × (t ≡ ok buckets))
  LoopAgrees-cases (fails x) = inl (x, refl, refl)
  LoopAgrees-cases (builds buckets index ix) = inr (buckets, index, ix, refl, refl)

  empty_Indexes : Indexes [] []
  unfolding index_get positions
  empty_Indexes h = refl

  few : (b : Builder fl) {u : Unit {0}} → check_builder fl b ≡ ok u → length b.entries ≤ u32_max
  unfolding check_builder
  few b e = ground arith

  -- `build` never panics. It fails exactly when, and as, comparing each new bucket with all earlier
  -- ones fails; else it gives the same buckets, with an index that lists each under its hash.
  pub build_refines :
      (b : Builder fl)
      → ((x : ShapePlanError fl) × (build fl b ≡ some (err x)) × (build_by_equality b ≡ err x))
        ⊎ ((plan : Plan fl) × (build fl b ≡ some (ok plan))
            × (build_by_equality b ≡ ok plan.buckets)
            × Indexes plan.index plan.buckets
            × (plan.fallback ≡ b.fallback))
  unfolding build build_by_equality
  build_refines b = elim (Result-cases (check_builder fl b)) [
    | inr (x, bad) ↦ inl (x, rw (bad, build), rw (bad, build_by_equality))
    | inl (u, good) ↦
        let agrees =
          build_from-LoopAgrees [] [] b.entries empty_Indexes (omega (arith, few b good)) in
        elim (LoopAgrees-cases agrees) [
          | inl (x, loop, spec) ↦
              inl (x, rw (good, build, loop), rw (good, build_by_equality, spec))
          | inr (buckets, index, ix, loop, spec) ↦ inr (
            record { buckets = buckets; index = index; fallback = b.fallback },
            rw (good, build, loop),
            rw (good, build_by_equality, spec),
            ix,
            refl,
          )
        ]
  ]
