-- ===== src/ShapePlan/Counts/Requested.antt =====
-- `requested_element_count` on a request that fits some bucket.
use native.Mathlib.Nat.{mul_assoc}
use st_zrt.Common.{ℕ, ◌+◌, ◌*◌, ◌≤◌, ◌<◌, ◌≡◌, some, [], ◌∷◌, pos, negsuc, length, u128_mod, arith}
use st_zrt.ShapePlan.{Shape, Shapes}
use st_zrt.ShapePlan.Counts.{
  requested_element_count, shapes_sum, dims_product, FitsDims, Fits, product_of, elements,
  fitting_element_counts,
}
use st_zrt.ShapePlan.Counts.Sound.{fitting_element_counts_sound}
use st_zrt.ShapePlan.Counts.Complete.{product_pos, le-mul_of_pos}

dims_product_complete :
    (product : ℕ) (req planned : Shape)
    → FitsDims req planned
    → product * product_of req < u128_mod
    → dims_product product req ≡ some (product * product_of req)
unfolding dims_product product_of
dims_product_complete product [] [] f lt = ground arith
dims_product_complete product [] (p ∷ ps) f lt = absurd f
dims_product_complete product (a ∷ rest) [] f lt = absurd f
dims_product_complete product (negsuc n ∷ rest) (p ∷ ps) f lt = absurd (omega (arith, f.0))
dims_product_complete product (pos n ∷ rest) (p ∷ ps) f lt =
    let lt' : product * n * product_of rest < u128_mod = rw (mul_assoc product) lt in
    let below : product * n < u128_mod =
      omega (arith, le-mul_of_pos (product * n) (product_of rest) (product_pos rest ps f.2).0) in
    ground (
      arith,
      f.0,
      below,
      dims_product_complete (product * n) rest ps f.2 lt',
      mul_assoc product n (product_of rest),
    )

shapes_sum_complete :
    (sum : ℕ) (req planned : Shapes)
    → Fits req planned
    → sum + elements req < u128_mod
    → shapes_sum sum req ≡ some (sum + elements req)
unfolding shapes_sum elements
shapes_sum_complete sum [] [] f lt = ground arith
shapes_sum_complete sum [] (p ∷ ps) f lt = absurd f
shapes_sum_complete sum (r ∷ rest) [] f lt = absurd f
shapes_sum_complete sum (r ∷ rest) (b ∷ bs) f lt = ground (
  arith,
  dims_product_complete 1 r b f.0 (omega arith),
  shapes_sum_complete (sum + product_of r) rest bs f.1 (omega arith),
)

pub elements_le : (req planned : Shapes) → Fits req planned → elements req ≤ elements planned
unfolding elements
elements_le [] [] f = omega arith
elements_le [] (p ∷ ps) f = absurd f
elements_le (r ∷ rest) [] f = absurd f
elements_le (r ∷ rest) (b ∷ bs) f = omega (arith, product_pos r b f.0, elements_le rest bs f.1)

pub elements_pos : (req planned : Shapes) → Fits req planned → 0 < length planned → 0 < elements req
unfolding elements
elements_pos [] [] f h = absurd (omega arith)
elements_pos [] (p ∷ ps) f h = absurd f
elements_pos (r ∷ rest) [] f h = absurd f
elements_pos (r ∷ rest) (b ∷ bs) f h = omega (arith, product_pos r b f.0)

-- When the count of a request against a bucket that has an input succeeds, the count of the request
-- alone succeeds with the same number.
pub requested_element_count_lem :
    (req planned : Shapes) {r c : ℕ}
    → fitting_element_counts req planned ≡ some (r, c)
    → 0 < length planned
    → requested_element_count req ≡ some r
unfolding requested_element_count
requested_element_count_lem req planned {r} {c} e h =
    let (fits, er, ec, lt) = fitting_element_counts_sound req planned e in
    ground (
      arith,
      er,
      shapes_sum_complete 0 req planned fits (omega (arith, elements_le req planned fits)),
      elements_pos req planned fits h,
    )
