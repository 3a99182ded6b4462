-- ===== src/ShapePlan/Counts/Sound.antt =====
-- What a successful element count of shape_plan.rs says.
use native.Mathlib.Nat.{mul_assoc}
use st_zrt.Common.{
  ℕ, ◌+◌, ◌*◌, ◌<◌, ◌≡◌, some, [], ◌∷◌, pos_part, length, u128_mod, arith, Option-cases, inl, inr,
}
use st_zrt.ShapePlan.{Shape, Shapes}
use st_zrt.ShapePlan.Counts.{
  fit_dims, fit_shapes, fitting_element_counts, FitsDims, Fits, product_of, elements,
}

fit_dims_sound :
    (rp bp : ℕ) (req planned : Shape) {r b : ℕ}
    → length req ≡ length planned
    → fit_dims rp bp req planned ≡ some (r, b)
    → FitsDims req planned × (r ≡ rp * product_of req) × (b ≡ bp * product_of planned)
unfolding fit_dims product_of
fit_dims_sound rp bp [] [] l e = ground arith
fit_dims_sound rp bp [] (p ∷ ps) l e = absurd (omega arith)
fit_dims_sound rp bp (a ∷ rest) [] l e = absurd (omega arith)
fit_dims_sound rp bp (a ∷ rest) (p ∷ ps) {r} {b} l e = ground (
  arith,
  fit_dims_sound (rp * pos_part a) (bp * pos_part p) rest ps {r = r} {b = b},
  mul_assoc rp (pos_part a) (product_of rest),
  mul_assoc bp (pos_part p) (product_of ps),
)

fit_shapes_sound :
    (rs cs : ℕ) (req planned : Shapes) {r c : ℕ}
    → length req ≡ length planned
    → cs < u128_mod
    → fit_shapes rs cs req planned ≡ some (r, c)
    → Fits req planned × (r ≡ rs + elements req) × (c ≡ cs + elements planned) × (c < u128_mod)
unfolding fit_shapes elements
fit_shapes_sound rs cs [] [] l lt e = ground arith
fit_shapes_sound rs cs [] (p ∷ ps) l lt e = absurd (omega arith)
fit_shapes_sound rs cs (a ∷ rest) [] l lt e = absurd (omega arith)
fit_shapes_sound rs cs (a ∷ rest) (b ∷ bs) {r} {c} l lt e = elim (Option-cases (fit_dims 1 1 a b)) [
  | inl none_fits ↦ ground (arith, none_fits)
  | inr ((rp, bp), fits) ↦ ground (
    arith,
    fits,
    fit_dims_sound 1 1 a b {r = rp} {b = bp},
    fit_shapes_sound (rs + rp) (cs + bp) rest bs {r = r} {c = c},
  )
]

-- A successful count means that the request fits the planned shapes, and gives both sides' exact
-- numbers of elements.
pub fitting_element_counts_sound :
    (req planned : Shapes) {r c : ℕ}
    → fitting_element_counts req planned ≡ some (r, c)
    → Fits req planned × (r ≡ elements req) × (c ≡ elements planned) × (c < u128_mod)
unfolding fitting_element_counts
fitting_element_counts_sound req planned {r} {c} e =
    ground (arith, fit_shapes_sound 0 0 req planned {r = r} {c = c})
