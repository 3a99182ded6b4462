-- ===== src/ShapePlan/Counts.antt =====
-- Element counts of shape_plan.rs, in checked `u128` arithmetic.
pub mod Sound
pub mod Complete
pub mod Requested
use st_zrt.Common.{
  ℕ, suc, ◌+◌, ◌*◌, ◌≤◌, ◌<◌, ◌^◌, ◌≡◌, refl, Bool, true, false, ◌||◌, ◌&&◌, Option, none, some,
  List, [], ◌∷◌, ◌==◌, if◌then◌else◌, ℤ, pos, negsuc, pos_part, ltb_ℤ, length, checked_add,
  checked_mul, u128_mod, arith, ltb, not,
}
use st_zrt.ShapePlan.{Shape, Shapes}

-- `u128::try_from(dimension).ok().filter(|&d| d != 0)`
abbrev pub positive : ℤ → Option ℕ
positive (pos n) = if n == 0 then none else some n
positive (negsuc n) = none

unfoldable pub dims_product : ℕ → Shape → Option ℕ
dims_product product [] = some product
dims_product product (d ∷ ds) = elim (positive d) [
  | none ↦ none
  | some n ↦ elim (checked_mul u128_mod product n) [ none ↦ none | some p ↦ dims_product p ds ]
]

unfoldable pub shapes_sum : ℕ → Shapes → Option ℕ
unfolding dims_product
shapes_sum sum [] = some sum
shapes_sum sum (s ∷ ss) = elim (dims_product 1 s) [
  | none ↦ none
  | some p ↦ elim (checked_add u128_mod sum p) [ none ↦ none | some t ↦ shapes_sum t ss ]
]

unfoldable pub requested_element_count : Shapes → Option ℕ
unfolding shapes_sum
requested_element_count shapes = elim (shapes_sum 0 shapes) [
  | none ↦ none
  | some sum ↦ if sum == 0 then none else some sum
]

-- The products of one pair of shapes; `none` where a planned dimension is too small.
unfoldable pub fit_dims : ℕ → ℕ → Shape → Shape → Option (ℕ × ℕ)
fit_dims rp bp [] planned = some (rp, bp)
fit_dims rp bp (a ∷ as') [] = some (rp, bp)
fit_dims rp bp (a ∷ as') (p ∷ ps) =
    if not (ltb_ℤ (pos 0) a) || ltb_ℤ p a
    then none
    else elim (checked_mul u128_mod rp (pos_part a)) [
      | none ↦ none
      | some rp' ↦ elim (checked_mul u128_mod bp (pos_part p)) [
        | none ↦ none
        | some bp' ↦ fit_dims rp' bp' as' ps
      ]
    ]

unfoldable pub fit_shapes : ℕ → ℕ → Shapes → Shapes → Option (ℕ × ℕ)
unfolding fit_dims
fit_shapes rs cs [] canonical = some (rs, cs)
fit_shapes rs cs (r ∷ rest) [] = some (rs, cs)
fit_shapes rs cs (r ∷ rest) (b ∷ bs) =
    if length r == length b
    then elim (fit_dims 1 1 r b) [
      | none ↦ none
      | some (rp, bp) ↦ elim (checked_add u128_mod rs rp) [
        | none ↦ none
        | some rs' ↦ elim (checked_add u128_mod cs bp) [
          | none ↦ none
          | some cs' ↦ fit_shapes rs' cs' rest bs
        ]
      ]
    ]
    else none

unfoldable pub fitting_element_counts : Shapes → Shapes → Option (ℕ × ℕ)
unfolding fit_shapes
fitting_element_counts requested canonical =
    if length requested == length canonical then fit_shapes 0 0 requested canonical else none

-- Each planned dimension is at least the requested one, which is positive.
abbrev pub FitsDims : Shape → Shape → Type 0
FitsDims [] [] = Unit
FitsDims [] (p ∷ ps) = ⊥
FitsDims (a ∷ as') [] = ⊥
FitsDims (a ∷ as') (p ∷ ps) = (0 < pos_part a) × (pos_part a ≤ pos_part p) × FitsDims as' ps

abbrev pub Fits : Shapes → Shapes → Type 0
Fits [] [] = Unit
Fits [] (b ∷ bs) = ⊥
Fits (r ∷ rs) [] = ⊥
Fits (r ∷ rs) (b ∷ bs) = FitsDims r b × Fits rs bs

-- The number of elements, unbounded.
unfoldable pub product_of : Shape → ℕ
product_of [] = 1
product_of (d ∷ ds) = pos_part d * product_of ds

unfoldable pub elements : Shapes → ℕ
unfolding product_of
elements [] = 0
elements (s ∷ ss) = product_of s + elements ss
