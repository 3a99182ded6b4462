-- ===== src/ShapePlan/Builder/RoundTrip.antt =====
-- From the buckets of a plan that was built to their ids and back, through `classify`.

use st_zrt.Common.{
  ℕ, zero, suc, ◌+◌, ◌≡◌, ◌≢◌, refl, sym, ap, ◌∙◌, none, some, List, [], ◌∷◌, arith, get_elem?, ok,
  err, Bool-cases, Option-cases, inl, inr, ◌⊎◌, subst,
}
use st_zrt.ShapePlan.{Shapes, Floats, CanonicalShape, strict, not_in_plan}
use st_zrt.ShapePlan.Compare.{shapes_eqb, shapes_eqb_iff}
use st_zrt.ShapePlan.Plan.{Plan, classify, fall_back}
use st_zrt.ShapePlan.Plan.Exact.{find_equal, classify_exact, classify_by_equality, Indexes}
use st_zrt.ShapePlan.Builder.{Builder, build}
use st_zrt.ShapePlan.Builder.Refine.{build_refines}
use st_zrt.ShapePlan.Builder.WellFormed.{build-IsSealed}

-- What the search by equality finds, from `p` on.
find_equal_sound :
    (p : ℕ) (buckets : List CanonicalShape) (req : Shapes) {id : ℕ}
    → find_equal p buckets req ≡ some id
    → (i : ℕ) × (b : CanonicalShape) × (id ≡ p + i)
      × (get_elem? buckets i ≡ some b)
      × (b.input_shapes ≡ req)
unfolding find_equal
find_equal_sound p [] req e = absurd (cc)
find_equal_sound p (b ∷ bs) req {id} e = elim (Bool-cases (shapes_eqb b.input_shapes req)) [
  | inl same ↦ (0, b, ground (arith, same), refl, (shapes_eqb_iff b.input_shapes req).0 same)
  | inr other ↦
      let (i, c, at, found, equal) =
        find_equal_sound (suc p) bs req {id = id} (rw (other, find_equal) at e) in
      (suc i, c, omega (arith, at), found, equal)
]

find_equal-none :
    (p : ℕ) (buckets : List CanonicalShape) (req : Shapes)
    → find_equal p buckets req ≡ none
    → (i : ℕ) (b : CanonicalShape) → get_elem? buckets i ≡ some b
    → b.input_shapes ≢ req
unfolding find_equal
find_equal-none p [] req e i b at same = cc
find_equal-none p (c ∷ bs) req e zero b at same =
    let first : c ≡ b = cc in
    let hit = (shapes_eqb_iff c.input_shapes req).1 (ap (λ x. x.input_shapes) first ∙ same) in
    ground (arith, hit)
find_equal-none p (c ∷ bs) req e (suc i) b at same =
    find_equal-none (suc p) bs req (ground arith) i b at same

module _ (fl : Floats) where
  pub built_Indexes :
      (b : Builder fl) (plan : Plan fl)
      → build fl b ≡ some (ok plan)
      → Indexes plan.index plan.buckets
  built_Indexes b plan e = elim (build_refines fl b) [
    | inl (x, failed, _) ↦ absurd (cc (failed, e))
    | inr (plan', built, _, ix, _) ↦
        let same : plan' ≡ plan = cc (built, e) in
        subst (λ (p : Plan fl). Indexes p.index p.buckets) same ix
  ]

  -- In a plan that was built, classifying the input shapes of a bucket gives that bucket's id, also
  -- when other buckets' shapes have the same hash.
  pub classify-build :
      (b : Builder fl) (plan : Plan fl) (i : ℕ) (bucket : CanonicalShape)
      → build fl b ≡ some (ok plan)
      → get_elem? plan.buckets i ≡ some bucket
      → (classify fl plan bucket.input_shapes ≡ some (ok i)) × (bucket.id ≡ i)
  unfolding classify_by_equality
  classify-build b plan i bucket e at =
      let exact = classify_exact fl plan bucket.input_shapes (built_Indexes b plan e) in
      let s = build-IsSealed fl b plan e in
      elim (Option-cases (find_equal 0 plan.buckets bucket.input_shapes)) [
        | inl missed ↦
            absurd (find_equal-none 0 plan.buckets bucket.input_shapes missed i bucket at refl)
        | inr (id, hit) ↦
            let (j, c, place, found, equal) =
              find_equal_sound 0 plan.buckets bucket.input_shapes hit in
            let same : j ≡ i = s.distinct j i c bucket found at equal in
            (ground (arith, exact, hit, place, same), s.placed i bucket at)
      ]

  -- In a plan that was built with the strict policy, classification never panics: it gives the id of a
  -- bucket whose input shapes are those of the request, or says that the request is not in the plan,
  -- and then no bucket has its shapes.
  pub classify_strict :
      (b : Builder fl) (plan : Plan fl) (req : Shapes)
      → build fl b ≡ some (ok plan)
      → plan.fallback ≡ strict
      → ((id : ℕ) × (c : CanonicalShape) × (classify fl plan req ≡ some (ok id))
          × (get_elem? plan.buckets id ≡ some c)
          × (c.input_shapes ≡ req))
        ⊎ ((classify fl plan req ≡ some (err not_in_plan))
            × ((i : ℕ) (c : CanonicalShape)
                → get_elem? plan.buckets i ≡ some c
                → c.input_shapes ≢ req))
  unfolding classify_by_equality fall_back
  classify_strict b plan req e policy =
      let exact = classify_exact fl plan req (built_Indexes b plan e) in
      elim (Option-cases (find_equal 0 plan.buckets req)) [
        | inl missed ↦
            inr (ground (arith, exact, missed, policy), find_equal-none 0 plan.buckets req missed)
        | inr (id, hit) ↦
            let (j, c, place, found, equal) = find_equal_sound 0 plan.buckets req hit in
            let same : j ≡ id = omega (arith, place) in
            inl (
              id,
              c,
              ground (arith, exact, hit),
              ap (get_elem? plan.buckets) (sym same) ∙ found,
              equal,
            )
      ]
