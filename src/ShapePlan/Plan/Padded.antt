-- ===== src/ShapePlan/Plan/Padded.antt =====
-- What the padded classification chooses.

use st_zrt.Common.{
  ℕ, zero, suc, ◌-◌, ◌≤◌, ◌<◌, ◌≡◌, ◌↔◌, length, refl, sym, ap, ◌∙◌, false, Option, none, some,
  List, [], ◌∷◌, arith, get_elem?, Result, ok, err, Bool-cases, Option-cases, inl, inr, ◌⊎◌,
  if◌then◌else◌, subst, u128_mod,
}
use st_zrt.ShapePlan.{
  Shapes, Floats, CanonicalShape, ClassifyError, no_fitting_shape, padding_waste_exceeded,
}
use st_zrt.ShapePlan.Counts.Requested.{requested_element_count_lem}
use st_zrt.ShapePlan.Counts.Complete.{fitting_element_counts_iff}
use st_zrt.ShapePlan.Counts.{fitting_element_counts, requested_element_count, Fits, elements}
use st_zrt.ShapePlan.Plan.{Plan, Best, improves, consider, best_fit, classify_padded}

-- A choice is no worse than a pair of waste and elements: less waste, or as much and no more elements.
abbrev pub NoWorse : Best → ℕ → ℕ → Type 0
NoWorse none waste total = ⊥
NoWorse (some (w, t, _)) waste total = (w < waste) ⊎ ((w ≡ waste) × (t ≤ total))

NoWorse-consider :
    (counts : Option (ℕ × ℕ)) (id : ℕ) (best : Best) (waste total : ℕ)
    → NoWorse best waste total
    → NoWorse (consider counts id best) waste total
NoWorse-consider none id best waste total h = h
NoWorse-consider (some (r, c)) id none waste total h = absurd h
NoWorse-consider (some (r, c)) id (some (w, t, i)) waste total h = grind arith

NoWorse-best_fit :
    (req : Shapes) (bs : List CanonicalShape) (best : Best) (waste total : ℕ)
    → NoWorse best waste total
    → NoWorse (best_fit req bs best) waste total
unfolding best_fit
NoWorse-best_fit req [] best waste total h = h
NoWorse-best_fit req (b ∷ bs) best waste total h =
    NoWorse-best_fit req bs (consider (fitting_element_counts req b.input_shapes) b.id best) waste
      total (NoWorse-consider (fitting_element_counts req b.input_shapes) b.id best waste total h)

-- A bucket that fits is not better than what the loop chooses once it has been considered.
considered : (r c id : ℕ) (best : Best) → NoWorse (consider (some (r, c)) id best) (c - r) c
considered r c id none = ground arith
considered r c id (some (w, t, i)) = grind arith

best_fit-NoWorse :
    (req : Shapes) (bs : List CanonicalShape) (best : Best) (i : ℕ) (b : CanonicalShape) (r c : ℕ)
    → get_elem? bs i ≡ some b
    → fitting_element_counts req b.input_shapes ≡ some (r, c)
    → NoWorse (best_fit req bs best) (c - r) c
unfolding best_fit
best_fit-NoWorse req [] best i b r c at fits = absurd (cc)
best_fit-NoWorse req (d ∷ bs) best zero b r c at fits =
    let first : d ≡ b = cc in
    NoWorse-best_fit req bs (consider (fitting_element_counts req d.input_shapes) d.id best) (c - r)
      c
      (rw (ap (λ x. fitting_element_counts req x.input_shapes) first ∙ fits)
        (considered r c d.id best))
best_fit-NoWorse req (d ∷ bs) best (suc i) b r c at fits =
    best_fit-NoWorse req bs (consider (fitting_element_counts req d.input_shapes) d.id best) i b r c
      at fits

-- Where the loop's choice comes from: what it started with, or a bucket that fits.
abbrev Chosen : Shapes → List CanonicalShape → ℕ → ℕ → ℕ → Type 0
Chosen req bs w t id =
    (i : ℕ) × (b : CanonicalShape) × (r : ℕ) × (get_elem? bs i ≡ some b)
    × (fitting_element_counts req b.input_shapes ≡ some (r, t))
    × (w ≡ t - r)
    × (id ≡ b.id)

consider-eq :
    (counts : Option (ℕ × ℕ)) (id : ℕ) (best : Best)
    → (consider counts id best ≡ best)
      ⊎ ((r : ℕ) × (c : ℕ) × (counts ≡ some (r, c))
          × (consider counts id best ≡ some (c - r, c, id)))
consider-eq none id best = inl refl
consider-eq (some (r, c)) id best = elim (Bool-cases (improves (c - r) c best)) [
  | inl better ↦ inr (r, c, refl, rw better)
  | inr not_better ↦ inl (rw not_better)
]

best_fit-Chosen :
    (req : Shapes) (bs : List CanonicalShape) (best : Best) {w t id : ℕ}
    → best_fit req bs best ≡ some (w, t, id)
    → (best ≡ some (w, t, id)) ⊎ Chosen req bs w t id
unfolding best_fit
best_fit-Chosen req [] best e = inl e
best_fit-Chosen req (b ∷ bs) best {w} {t} {id} e =
    elim (best_fit-Chosen req bs (consider (fitting_element_counts req b.input_shapes) b.id best)
      {w = w} {t = t} {id = id} e) [
        | inr (i, d, r, at, fits, waste, same) ↦ inr (suc i, d, r, at, fits, waste, same)
        | inl now ↦ elim (consider-eq (fitting_element_counts req b.input_shapes) b.id best) [
          | inl kept ↦ inl (sym kept ∙ now)
          | inr (r, c, fits, taken) ↦
              let new : some (c - r, c, b.id) ≡ some (w, t, id) = sym taken ∙ now in
              inr
                (0, b, r, refl, ground (arith, fits, new), ground (arith, new), ground (arith, new))
        ]
      ]

module _ (fl : Floats) where
  open fl use {F32, ratio, exceeds}

  -- A padded classification that succeeds gives the id of a bucket that fits the request with at most
  -- the allowed waste, and no bucket that fits wastes less, or as much with fewer elements.
  pub classify_padded-best :
      (plan : Plan fl) (req : Shapes) (maximum : F32) (id : ℕ)
      → classify_padded fl plan req maximum ≡ ok id
      → (i : ℕ) × (b : CanonicalShape) × (r : ℕ) × (c : ℕ) × (n : ℕ) × (get_elem? plan.buckets i
          ≡ some b)
        × (id ≡ b.id)
        × (fitting_element_counts req b.input_shapes ≡ some (r, c))
        × (requested_element_count req ≡ some n)
        × (exceeds (ratio (c - r) n) maximum ≡ false)
        × ((j : ℕ) (d : CanonicalShape) (r' c' : ℕ)
            → get_elem? plan.buckets j ≡ some d
            → fitting_element_counts req d.input_shapes ≡ some (r', c')
            → (c - r < c' - r') ⊎ ((c - r ≡ c' - r') × (c ≤ c')))
  unfolding classify_padded
  classify_padded-best plan req maximum id e =
      elim (Option-cases (best_fit req plan.buckets none)) [
        | inl nothing ↦ absurd (cc (rw (nothing, classify_padded) at e))
        | inr ((w, t, chosen), best) ↦ elim (Option-cases (requested_element_count req)) [
          | inl uncounted ↦ absurd (cc (rw (best, classify_padded, uncounted) at e))
          | inr (n, counted) ↦ elim (Bool-cases (exceeds (ratio w n) maximum)) [
            | inl over ↦ absurd (cc (rw (best, classify_padded, counted, over) at e))
            | inr within ↦ elim (best_fit-Chosen req plan.buckets none best) [
              | inl absurdity ↦ absurd (cc)
              | inr (i, b, r, at, fits, waste, same) ↦
                  let chose : ok chosen ≡ ok id =
                    rw (best, classify_padded, counted, within) at e in
                  (
                    i,
                    b,
                    r,
                    t,
                    n,
                    at,
                    ground (arith, chose, same),
                    fits,
                    counted,
                    ap (λ x. exceeds (ratio x n) maximum) (sym waste) ∙ within,
                    λ j d r' c' at' fits'.
                        let better : NoWorse (some (w, t, chosen)) (c' - r') c' =
                          subst (λ x. NoWorse x (c' - r') c') best
                            (best_fit-NoWorse req plan.buckets none j d r' c' at' fits') in
                        ground (arith, better, waste),
                  )
            ]
          ]
        ]
      ]

  -- On a plan all of whose buckets have an input, a padded classification fails for want of a bucket
  -- exactly when the request fits no bucket whose elements are fewer than `2 ^ 128`.
  pub classify_padded-none_iff :
      (plan : Plan fl) (req : Shapes) (maximum : F32)
      → ((i : ℕ) (b : CanonicalShape)
          → get_elem? plan.buckets i ≡ some b
          → 0 < length b.input_shapes)
      → (classify_padded fl plan req maximum ≡ err no_fitting_shape) ↔ (
          (i : ℕ) (b : CanonicalShape)
          → get_elem? plan.buckets i ≡ some b
          → ¬ (Fits req b.input_shapes × (elements b.input_shapes < u128_mod)))
  unfolding classify_padded
  classify_padded-none_iff plan req maximum inputs =
      elim (Option-cases (best_fit req plan.buckets none)) [
        | inl nothing ↦ (
          λ _ i b at (fits, below).
              let counts =
                (fitting_element_counts_iff req b.input_shapes _ _).1 (fits, refl, refl, below) in
              subst
                (λ x. NoWorse x (elements b.input_shapes - elements req) (elements b.input_shapes))
                nothing (best_fit-NoWorse req plan.buckets none i b _ _ at counts),
          λ _. rw (nothing, classify_padded),
        )
        | inr ((w, t, chosen), best) ↦ elim (best_fit-Chosen req plan.buckets none best) [
          | inl absurdity ↦ absurd (cc)
          | inr (i, b, r, at, fits, waste, same) ↦
              let counted = requested_element_count_lem req b.input_shapes fits (inputs i b at) in
              (
                λ e. absurd (refused w r chosen (rw (best, classify_padded, counted) at e)),
                λ unfit.
                    let (inside, asked, whole, below) =
                      (fitting_element_counts_iff req b.input_shapes r t).0 fits in
                    absurd (unfit i b at (inside, rw whole at below)),
              )
        ]
      ]
    where
      refused :
          (w n id : ℕ)
          → (if exceeds (ratio w n) maximum
              then err (padding_waste_exceeded (ratio w n) maximum)
              else ok id)
            ≡ (let r : Result ℕ (ClassifyError fl) = err no_fitting_shape in r)
          → ⊥
      refused w n id e = ground (arith, e)
