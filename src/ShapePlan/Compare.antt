-- ===== src/ShapePlan/Compare.antt =====
-- Equality of shapes: `==` on slices and vectors, and `shapes_equal` of shape_plan.rs.
use st_zrt.Common.{
  ◌≡◌, refl, sym, ◌∙◌, Bool, true, false, ◌&&◌, [], ◌∷◌, ◌==◌, ==_refl, eqb_ℤ, eqb_ℤ_iff, length,
  ◌↔◌, arith,
}
use st_zrt.ShapePlan.{Shape, Shapes}

-- `==` on `[i64]`, and on `Vec<Vec<i64>>`.
unfoldable pub shape_eqb : Shape → Shape → Bool
shape_eqb [] [] = true
shape_eqb [] (y ∷ ys) = false
shape_eqb (x ∷ xs) [] = false
shape_eqb (x ∷ xs) (y ∷ ys) = eqb_ℤ x y && shape_eqb xs ys

unfoldable pub shapes_eqb : Shapes → Shapes → Bool
shapes_eqb [] [] = true
shapes_eqb [] (y ∷ ys) = false
shapes_eqb (x ∷ xs) [] = false
shapes_eqb (x ∷ xs) (y ∷ ys) = shape_eqb x y && shapes_eqb xs ys

-- `a.iter().zip(b).all(|(left, right)| left == right)`: the longer side's rest is not looked at.
unfoldable pub zip_all_equal : Shapes → Shapes → Bool
zip_all_equal [] ys = true
zip_all_equal (x ∷ xs) [] = true
zip_all_equal (x ∷ xs) (y ∷ ys) = shape_eqb x y && zip_all_equal xs ys

unfoldable pub shapes_equal : Shapes → Shapes → Bool
unfolding zip_all_equal
shapes_equal canonical requested =
    (length canonical == length requested) && zip_all_equal canonical requested

pub shape_eqb_iff : (a b : Shape) → (shape_eqb a b ≡ true) ↔ (a ≡ b)
unfolding shape_eqb
shape_eqb_iff [] [] = (λ _. refl, λ _. refl)
shape_eqb_iff [] (y ∷ ys) = (λ h. absurd (cc), λ h. absurd (cc))
shape_eqb_iff (x ∷ xs) [] = (λ h. absurd (cc), λ h. absurd (cc))
shape_eqb_iff (x ∷ xs) (y ∷ ys) = ground (arith, eqb_ℤ_iff x y, shape_eqb_iff xs ys)

pub shapes_eqb_iff : (a b : Shapes) → (shapes_eqb a b ≡ true) ↔ (a ≡ b)
unfolding shapes_eqb
shapes_eqb_iff [] [] = (λ _. refl, λ _. refl)
shapes_eqb_iff [] (y ∷ ys) = (λ h. absurd (cc), λ h. absurd (cc))
shapes_eqb_iff (x ∷ xs) [] = (λ h. absurd (cc), λ h. absurd (cc))
shapes_eqb_iff (x ∷ xs) (y ∷ ys) = ground (arith, shape_eqb_iff x y, shapes_eqb_iff xs ys)

-- With the lengths compared first, the zipped comparison is equality.
pub shapes_equal_lem : (a b : Shapes) → shapes_equal a b ≡ shapes_eqb a b
unfolding shapes_equal shapes_eqb
shapes_equal_lem [] [] = refl
shapes_equal_lem [] (y ∷ ys) = ground arith
shapes_equal_lem (x ∷ xs) [] = ground arith
shapes_equal_lem (x ∷ xs) (y ∷ ys) = ground (arith, shapes_equal_lem xs ys)

-- On sides of one length, the zipped comparison is equality.
pub zip_equal : (a b : Shapes) → length a ≡ length b → zip_all_equal a b ≡ true → a ≡ b
unfolding shapes_equal
zip_equal a b same zipped =
    (shapes_eqb_iff a b).0
      (sym (shapes_equal_lem a b) ∙ ground (arith, same, zipped, ==_refl (length b)))

pub zip_refl : (a b : Shapes) → a ≡ b → zip_all_equal a b ≡ true
unfolding shapes_equal
zip_refl a b same =
    let equal : shapes_equal a b ≡ true = shapes_equal_lem a b ∙ (shapes_eqb_iff a b).1 same in
    ground (arith, equal)
