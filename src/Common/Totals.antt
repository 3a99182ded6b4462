-- ===== src/Common/Totals.antt =====
-- Weights summed over a list, and what a write of one element does to the sum.
use Prim.Native.Nat.{ℕ, zero, suc, ◌+◌, ◌≤◌, ◌<◌}
use mathlib.Core.Path.{◌≡◌, refl}
use mathlib.Core.Logic.{◌⊎◌, inl, inr}
use mathlib.Core.List.{List, [], ◌∷◌, map}
use mathlib.Core.Option.{some}
use native.Mathlib.Omega.{arith}
use st_zrt.Common.Lists.{get_elem?, replicate}
use st_zrt.Common.Update.{set}

module _ {ℓ} {A : Type ℓ} where
  unfoldable pub total : (A → ℕ) → List A → ℕ
  total w [] = 0
  total w (x ∷ xs) = w x + total w xs

  pub total-set :
      (w : A → ℕ) (xs : List A) (i : ℕ) (y : A) {x : A}
      → get_elem? xs i ≡ some x
      → total w (set xs i y) + w x ≡ total w xs + w y
  unfolding total
  total-set w [] i y e = absurd (cc)
  total-set w (z ∷ xs) zero y {x} e = let same : w z ≡ w x = cc in omega (arith, same)
  total-set w (z ∷ xs) (suc i) y e = omega (arith, total-set w xs i y e)

  pub le-total :
      (w : A → ℕ) (xs : List A) (i : ℕ) {x : A} → get_elem? xs i ≡ some x → w x ≤ total w xs
  unfolding total
  le-total w [] i e = absurd (cc)
  le-total w (z ∷ xs) zero {x} e = let same : w z ≡ w x = cc in omega (arith, same)
  le-total w (z ∷ xs) (suc i) e = omega (arith, le-total w xs i e)

  -- Two elements at different places weigh no more than all.
  pub two-le-total :
      (w : A → ℕ) (xs : List A) (i j : ℕ) {x y : A}
      → i < j
      → get_elem? xs i ≡ some x
      → get_elem? xs j ≡ some y
      → w x + w y ≤ total w xs
  unfolding total
  two-le-total w [] i j h e f = absurd (cc)
  two-le-total w (z ∷ xs) zero zero h e f = elim h [ ]
  two-le-total w (z ∷ xs) (suc i) zero h e f = elim h [ ]
  two-le-total w (z ∷ xs) zero (suc j) {x} h e f =
      let same : w z ≡ w x = cc in omega (arith, same, le-total w xs j f)
  two-le-total w (z ∷ xs) (suc i) (suc j) h e f =
      omega (arith, two-le-total w xs i j (omega arith) e f)

  pub total_mono : (v w : A → ℕ) (xs : List A) → ((x : A) → v x ≤ w x) → total v xs ≤ total w xs
  unfolding total
  total_mono v w [] h = omega arith
  total_mono v w (x ∷ xs) h = omega (arith, h x, total_mono v w xs h)

  pub total-add : (v w : A → ℕ) (xs : List A) → total (λ x. v x + w x) xs ≡ total v xs + total w xs
  unfolding total
  total-add v w [] = refl
  total-add v w (x ∷ xs) = omega (arith, total-add v w xs)

  pub total-map :
      (w : A → ℕ) (f : A → A) (xs : List A) → total w (map f xs) ≡ total (λ x. w (f x)) xs
  unfolding total
  total-map w f [] = refl
  total-map w f (x ∷ xs) = omega (arith, total-map w f xs)

  pub total-replicate : (w : A → ℕ) (n : ℕ) (x : A) → w x ≡ 0 → total w (replicate n x) ≡ 0
  unfolding total
  total-replicate w zero x e = refl
  total-replicate w (suc n) x e = omega (arith, e, total-replicate w n x e)

  -- A sum that is not zero has an element with a weight.
  pub total-pos :
      (w : A → ℕ) (xs : List A)
      → 0 < total w xs
      → (i : ℕ) × (x : A) × (get_elem? xs i ≡ some x) × (0 < w x)
  unfolding total
  total-pos w [] h = absurd (omega arith)
  total-pos w (x ∷ xs) h = elim (pos_cases (w x)) [
    | inl heavy ↦ (0, x, refl, heavy)
    | inr light ↦ let (i, y, e, g) = total-pos w xs (omega arith) in (suc i, y, e, g)
  ]
    where
      pos_cases : (n : ℕ) → (0 < n) ⊎ (n ≡ 0)
      pos_cases zero = inr refl
      pos_cases (suc n) = inl (omega arith)
