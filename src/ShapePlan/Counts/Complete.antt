-- ===== src/ShapePlan/Counts/Complete.antt =====
-- When the element counts of shape_plan.rs succeed.
use native.Mathlib.Nat.{mul_assoc}
use st_zrt.Common.{
  ℕ, suc, ◌+◌, ◌*◌, ◌≤◌, ◌<◌, ◌≡◌, refl, ap, some, [], ◌∷◌, pos_part, length, u128_mod, arith, ◌↔◌,
}
use st_zrt.ShapePlan.{Shape, Shapes}
use st_zrt.ShapePlan.Counts.{
  fit_dims, fit_shapes, fitting_element_counts, FitsDims, Fits, product_of, elements,
}
use st_zrt.ShapePlan.Counts.Sound.{fitting_element_counts_sound}

pub product_pos :
    (req planned : Shape)
    → FitsDims req planned
    → (0 < product_of req) × (product_of req ≤ product_of planned)
unfolding product_of
product_pos [] [] f = omega arith
product_pos [] (p ∷ ps) f = absurd f
product_pos (a ∷ rest) [] f = absurd f
product_pos (a ∷ rest) (p ∷ ps) f =
    let rest_pos = product_pos rest ps f.2 in grind (arith, f.0, f.1, rest_pos)

planned_pos : (req planned : Shape) → FitsDims req planned → 0 < product_of planned
planned_pos req planned f = omega (arith, product_pos req planned f)

FitsDims-length : (req planned : Shape) → FitsDims req planned → length req ≡ length planned
FitsDims-length [] [] f = refl
FitsDims-length [] (p ∷ ps) f = absurd f
FitsDims-length (a ∷ rest) [] f = absurd f
FitsDims-length (a ∷ rest) (p ∷ ps) f = ap suc (FitsDims-length rest ps f.2)

Fits-length : (req planned : Shapes) → Fits req planned → length req ≡ length planned
Fits-length [] [] f = refl
Fits-length [] (p ∷ ps) f = absurd f
Fits-length (r ∷ rest) [] f = absurd f
Fits-length (r ∷ rest) (b ∷ bs) f = ap suc (Fits-length rest bs f.1)

pub le-mul_of_pos : (x n : ℕ) → 0 < n → x ≤ x * n
le-mul_of_pos x n h = grind arith

mul-le-mul : {a b c d : ℕ} → a ≤ b → c ≤ d → a * c ≤ b * d
mul-le-mul {a} {b} {c} {d} h k = grind arith

fit_dims_complete :
    (rp bp : ℕ) (req planned : Shape)
    → FitsDims req planned
    → rp ≤ bp
    → bp * product_of planned < u128_mod
    → fit_dims rp bp req planned ≡ some (rp * product_of req, bp * product_of planned)
unfolding fit_dims product_of
fit_dims_complete rp bp [] [] f le lt = ground arith
fit_dims_complete rp bp [] (p ∷ ps) f le lt = absurd f
fit_dims_complete rp bp (a ∷ rest) [] f le lt = absurd f
fit_dims_complete rp bp (a ∷ rest) (p ∷ ps) f le lt =
    let lt' : bp * pos_part p * product_of ps < u128_mod = rw (mul_assoc bp) lt in
    let wider : rp * pos_part a ≤ bp * pos_part p = mul-le-mul le f.1 in
    let below : bp * pos_part p < u128_mod =
      omega (arith, le-mul_of_pos (bp * pos_part p) (product_of ps) (planned_pos rest ps f.2)) in
    ground (
      arith,
      wider,
      below,
      fit_dims_complete (rp * pos_part a) (bp * pos_part p) rest ps f.2 wider lt',
      mul_assoc rp (pos_part a) (product_of rest),
      mul_assoc bp (pos_part p) (product_of ps),
    )

fit_shapes_complete :
    (rs cs : ℕ) (req planned : Shapes)
    → Fits req planned
    → rs ≤ cs
    → cs + elements planned < u128_mod
    → fit_shapes rs cs req planned ≡ some (rs + elements req, cs + elements planned)
unfolding fit_shapes elements
fit_shapes_complete rs cs [] [] f le lt = ground arith
fit_shapes_complete rs cs [] (p ∷ ps) f le lt = absurd f
fit_shapes_complete rs cs (r ∷ rest) [] f le lt = absurd f
fit_shapes_complete rs cs (r ∷ rest) (b ∷ bs) f le lt = ground (
  arith,
  FitsDims-length r b f.0,
  fit_dims_complete 1 1 r b f.0 (omega arith) (omega arith),
  product_pos r b f.0,
  fit_shapes_complete (rs + product_of r) (cs + product_of b) rest bs f.1
      (omega (arith, product_pos r b f.0)) (omega arith),
  Fits-length rest bs f.1,
)

-- The count of a request against a planned bucket succeeds exactly when the request fits and the
-- planned elements fit in a `u128`; then it gives both sides' exact numbers of elements.
pub fitting_element_counts_iff :
    (req planned : Shapes) (r c : ℕ)
    → (fitting_element_counts req planned ≡ some (r, c))
      ↔ (Fits req planned × (r ≡ elements req) × (c ≡ elements planned) × (c < u128_mod))
unfolding fitting_element_counts
fitting_element_counts_iff req planned r c = (
  fitting_element_counts_sound req planned,
  λ h. ground (
    arith,
    h.0,
    Fits-length req planned h.0,
    fit_shapes_complete 0 0 req planned h.0 (omega arith) (omega (arith, h.2, h.3)),
  ),
)
