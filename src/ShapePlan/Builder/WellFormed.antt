-- ===== src/ShapePlan/Builder/WellFormed.antt =====
-- What a plan that was built satisfies, and the round trip from its buckets to their ids.
use st_zrt.Common.{
  ℕ, ◌<◌, ◌≡◌, refl, sym, ap, ◌∙◌, ◌≢◌, subst, false, some, List, [], ◌∷◌, ◌++◌, length, get_elem?,
  arith, ok, Bool-cases, Result-cases, inl, inr, any, any-false, get_elem?-snoc_cases, All,
  pos_part,
}
use st_zrt.ShapePlan.{Shape, Shapes, Floats, CanonicalShape, DimensionKind, input, output}
use st_zrt.ShapePlan.Compare.{shapes_eqb_iff}
use st_zrt.ShapePlan.Plan.{Plan}
use st_zrt.ShapePlan.Builder.{
  Entry, Builder, check_nonempty, check_dims, check_shapes, validate_shapes, canonical, build,
  check_builder,
}
use st_zrt.ShapePlan.Builder.Refine.{same_inputs, place, build_by_equality, build_refines}

-- Every dimension is positive.
abbrev pub PositiveDims : Shape → Type 0
PositiveDims = All (λ d. 0 < pos_part d)

abbrev pub Positive : Shapes → Type 0
Positive = All PositiveDims

-- The buckets stand at their ids, have an input, have positive dimensions, and differ in their inputs.
pub record IsSealed (buckets : List CanonicalShape) : Type 0 where
  pub placed : (i : ℕ) (b : CanonicalShape) → get_elem? buckets i ≡ some b → b.id ≡ i
  pub has_input :
      (i : ℕ) (b : CanonicalShape) → get_elem? buckets i ≡ some b → 0 < length b.input_shapes
  pub positive :
      (i : ℕ) (b : CanonicalShape)
      → get_elem? buckets i ≡ some b
      → Positive b.input_shapes × Positive b.output_shapes
  pub distinct :
      (i j : ℕ) (b c : CanonicalShape)
      → get_elem? buckets i ≡ some b
      → get_elem? buckets j ≡ some c
      → b.input_shapes ≡ c.input_shapes
      → i ≡ j

module _ (fl : Floats) where
  check_dims-PositiveDims :
      (kind : DimensionKind) (s : Shape) {u : Unit {0}}
      → check_dims fl kind s ≡ ok u
      → PositiveDims s
  unfolding check_dims
  check_dims-PositiveDims kind [] e = tt
  check_dims-PositiveDims kind (d ∷ ds) {u} e =
      ground (arith, check_dims-PositiveDims kind ds {u = u})

  check_shapes-Positive :
      (kind : DimensionKind) (ss : Shapes) {u : Unit {0}}
      → check_shapes fl kind ss ≡ ok u
      → Positive ss
  unfolding check_shapes
  check_shapes-Positive kind [] e = tt
  check_shapes-Positive kind (s ∷ ss) {u} e = elim (Result-cases (check_dims fl kind s)) [
    | inl (w, good) ↦
        (check_dims-PositiveDims kind s good, check_shapes-Positive kind ss {u = u} (rw good at e))
    | inr (x, bad) ↦ absurd (cc (bad, e))
  ]

  validate_shapes-ok :
      (inputs outputs : Shapes) {u : Unit {0}}
      → validate_shapes fl inputs outputs ≡ ok u
      → (0 < length inputs) × Positive inputs × Positive outputs
  unfolding validate_shapes check_nonempty
  validate_shapes-ok [] outputs e = absurd (cc)
  validate_shapes-ok (s ∷ ss) outputs {u} e = elim (Result-cases (check_shapes fl input (s ∷ ss))) [
    | inl (w, good) ↦ (
      omega arith,
      check_shapes-Positive input (s ∷ ss) good,
      check_shapes-Positive output outputs {u = u} (rw good at e),
    )
    | inr (x, bad) ↦ absurd (cc (bad, e))
  ]

  IsSealed-snoc :
      (buckets : List CanonicalShape) (c : CanonicalShape)
      → IsSealed buckets
      → c.id ≡ length buckets
      → 0 < length c.input_shapes
      → Positive c.input_shapes
      → Positive c.output_shapes
      → any (same_inputs c.input_shapes) buckets ≡ false
      → IsSealed (buckets ++ c ∷ [])
  IsSealed-snoc buckets c s at_end nonempty pos_in pos_out new = record {
    placed = λ i b e. elim (get_elem?-snoc_cases buckets c i e) [
      | inl old ↦ s.placed i b old
      | inr (last, same) ↦ ap (λ x. x.id) (sym same) ∙ at_end ∙ sym last
    ];
    has_input = λ i b e. elim (get_elem?-snoc_cases buckets c i e) [
      | inl old ↦ s.has_input i b old
      | inr (last, same) ↦ subst (λ x. 0 < length x.input_shapes) same nonempty
    ];
    positive = λ i b e. elim (get_elem?-snoc_cases buckets c i e) [
      | inl old ↦ s.positive i b old
      | inr (last, same) ↦
          subst (λ x. Positive x.input_shapes × Positive x.output_shapes) same (pos_in, pos_out)
    ];
    distinct = λ i j b d at_i at_j eq. elim (get_elem?-snoc_cases buckets c i at_i) [
      | inl old_i ↦ elim (get_elem?-snoc_cases buckets c j at_j) [
        | inl old_j ↦ s.distinct i j b d old_i old_j eq
        | inr (last, same) ↦ absurd (differs i b old_i (eq ∙ ap (λ x. x.input_shapes) (sym same)))
      ]
      | inr (last_i, same_i) ↦ elim (get_elem?-snoc_cases buckets c j at_j) [
        | inl old_j ↦ absurd (differs j d old_j (sym eq ∙ ap (λ x. x.input_shapes) (sym same_i)))
        | inr (last_j, same_j) ↦ last_i ∙ sym last_j
      ]
    ];
  }
    where
      differs :
          (i : ℕ) (b : CanonicalShape)
          → get_elem? buckets i ≡ some b
          → b.input_shapes ≢ c.input_shapes
      differs i b e same = cc (
        any-false (same_inputs c.input_shapes) buckets i new e,
        (shapes_eqb_iff b.input_shapes c.input_shapes).1 same,
      )

  place-IsSealed :
      (buckets : List CanonicalShape) (entries : List Entry) {built : List CanonicalShape}
      → IsSealed buckets
      → place fl buckets entries ≡ ok built
      → IsSealed built
  unfolding place
  place-IsSealed buckets [] {built} s e = let same : buckets ≡ built = cc in subst IsSealed same s
  place-IsSealed buckets (e ∷ rest) {built} s done =
      elim (Result-cases (validate_shapes fl e.0 e.1)) [
        | inr (x, bad) ↦ absurd (cc (rw (bad, place) at done))
        | inl (u, good) ↦ elim (Bool-cases (any (same_inputs e.0) buckets)) [
          | inl again ↦ absurd (cc (rw (good, place, again) at done))
          | inr new ↦
              let (nonempty, pos_in, pos_out) = validate_shapes-ok e.0 e.1 good in
              let c = canonical fl (length buckets) e in
              place-IsSealed (buckets ++ c ∷ []) rest {built = built}
                (IsSealed-snoc buckets c s refl nonempty pos_in pos_out new)
                (rw (good, place, new) at done)
        ]
      ]

  empty-IsSealed : IsSealed []
  empty-IsSealed = record {
    placed = λ i b e. absurd (cc);
    has_input = λ i b e. absurd (cc);
    positive = λ i b e. absurd (cc);
    distinct = λ i j b c e d q. absurd (cc);
  }

  build_by_equality-IsSealed :
      (b : Builder fl) {buckets : List CanonicalShape}
      → build_by_equality fl b ≡ ok buckets
      → IsSealed buckets
  unfolding build_by_equality
  build_by_equality-IsSealed b e = elim (Result-cases (check_builder fl b)) [
    | inr (x, bad) ↦ absurd (cc (rw (bad, build_by_equality) at e))
    | inl (u, good) ↦ place-IsSealed [] b.entries empty-IsSealed (rw (good, build_by_equality) at e)
  ]

  -- In a plan that was built every bucket stands at its id, has an input and only positive
  -- dimensions, and no two buckets have the same input shapes.
  pub build-IsSealed :
      (b : Builder fl) (plan : Plan fl) → build fl b ≡ some (ok plan) → IsSealed plan.buckets
  build-IsSealed b plan e = elim (build_refines fl b) [
    | inl (x, failed, _) ↦ absurd (cc (failed, e))
    | inr (plan', built, spec, _, _) ↦
        let same : plan' ≡ plan = cc (built, e) in
        subst (λ (p : Plan fl). IsSealed p.buckets) same (build_by_equality-IsSealed b spec)
  ]
