-- ===== src/Common/Remove.antt =====
-- The removal of one place of a list, the last element put there.
use Prim.Native.Nat.{ℕ, zero, suc, ◌-◌, ◌<◌}
use mathlib.Core.Path.{◌≡◌, refl, ap, ◌∙◌}
use mathlib.Core.Logic.{◌≢◌, ◌⊎◌, inl, inr}
use mathlib.Core.List.{List, [], ◌∷◌}
use mathlib.Core.Option.{none, some}
use native.Mathlib.Omega.{arith}
use native.Mathlib.Decide.{ℕ_discrete}
use st_zrt.Common.Lists.{length, get_elem?, get_elem?-some, lt_of_get_elem?}
use st_zrt.Common.Update.{
  set, length-set, get_elem?-set_self, get_elem?-set_ne, get_elem?-set_cases,
}

module _ {ℓ} {A : Type ℓ} where
  abbrev pub drop_last : List A → List A
  drop_last [] = []
  drop_last (x ∷ []) = []
  drop_last (x ∷ y ∷ ys) = x ∷ drop_last (y ∷ ys)

  -- `Vec::swap_remove`, which panics when the place is out of range.
  unfoldable pub swap_remove : List A → ℕ → List A
  swap_remove xs i = elim (get_elem? xs (length xs - 1)) [
    | none ↦ []
    | some last ↦ set (drop_last xs) i last
  ]

  length-drop_last : (xs : List A) → length (drop_last xs) ≡ length xs - 1
  length-drop_last [] = refl
  length-drop_last (x ∷ []) = refl
  length-drop_last (x ∷ y ∷ ys) = omega (arith, length-drop_last (y ∷ ys))

  get_elem?-drop_last :
      (xs : List A) (j : ℕ) → suc j < length xs → get_elem? (drop_last xs) j ≡ get_elem? xs j
  get_elem?-drop_last [] j h = absurd (omega arith)
  get_elem?-drop_last (x ∷ []) j h = absurd (omega arith)
  get_elem?-drop_last (x ∷ y ∷ ys) zero h = refl
  get_elem?-drop_last (x ∷ y ∷ ys) (suc j) h = get_elem?-drop_last (y ∷ ys) j (omega arith)

  drop_last_before :
      (xs : List A) (j : ℕ) {a : A} → get_elem? (drop_last xs) j ≡ some a → suc j < length xs
  drop_last_before xs j e = omega (arith, lt_of_get_elem? (drop_last xs) j e, length-drop_last xs)

  pub length-swap_remove : (xs : List A) (i : ℕ) → length (swap_remove xs i) ≡ length xs - 1
  unfolding swap_remove
  length-swap_remove [] i = refl
  length-swap_remove (x ∷ xs) i =
      let (last, e) = get_elem?-some (x ∷ xs) (length (x ∷ xs) - 1) (omega arith) in
      rw (swap_remove, e, length-set (drop_last (x ∷ xs)) i last) (length-drop_last (x ∷ xs))

  -- Each element left was at its place before, or was the last and stands at the place removed.
  pub swap_remove_cases :
      (xs : List A) (i j : ℕ) {a : A}
      → get_elem? (swap_remove xs i) j ≡ some a
      → (suc j < length xs)
        × (((i ≡ j) × (get_elem? xs (length xs - 1) ≡ some a))
            ⊎ ((i ≢ j) × (get_elem? xs j ≡ some a)))
  unfolding swap_remove
  swap_remove_cases [] i j e = absurd (cc)
  swap_remove_cases (x ∷ xs) i j {a} e =
      let (last, at) = get_elem?-some (x ∷ xs) (length (x ∷ xs) - 1) (omega arith) in
      let e' : get_elem? (set (drop_last (x ∷ xs)) i last) j ≡ some a = rw (swap_remove, at) at e in
      let before : suc j < length (x ∷ xs) = omega (
        arith,
        lt_of_get_elem? (set (drop_last (x ∷ xs)) i last) j e',
        length-set (drop_last (x ∷ xs)) i last,
        length-drop_last (x ∷ xs),
      ) in
      (
        before,
        elim (get_elem?-set_cases (drop_last (x ∷ xs)) i j last e') [
          | inl (here, same) ↦ inl (here, at ∙ ap some same)
          | inr (away, old) ↦ inr (away, cc (old, get_elem?-drop_last (x ∷ xs) j before))
        ],
      )

  -- Each element at another place is still there.
  pub swap_remove_kept :
      (xs : List A) (i k : ℕ) {a : A}
      → i < length xs
      → get_elem? xs k ≡ some a
      → i ≢ k
      → (j : ℕ) × (get_elem? (swap_remove xs i) j ≡ some a)
  unfolding swap_remove
  swap_remove_kept [] i k h e ne = absurd (cc)
  swap_remove_kept (x ∷ xs) i k {a} h e ne =
      let (last, at) = get_elem?-some (x ∷ xs) (length (x ∷ xs) - 1) (omega arith) in
      elim (ℕ_discrete k (length (x ∷ xs) - 1)) [
        | yes same ↦ (
          i,
          let inside : i < length (drop_last (x ∷ xs)) =
                omega (arith, length-drop_last (x ∷ xs), lt_of_get_elem? (x ∷ xs) k e, ne) in
              rw (swap_remove, at)
                (get_elem?-set_self (drop_last (x ∷ xs)) i last inside
                  ∙ cc (at, e, ap (get_elem? (x ∷ xs)) same)),
        )
        | no away ↦ (
          k,
          rw (swap_remove, at)
              (get_elem?-set_ne (drop_last (x ∷ xs)) i k last ne
                ∙ get_elem?-drop_last (x ∷ xs) k (omega (arith, lt_of_get_elem? (x ∷ xs) k e, away))
                ∙ e),
        )
      ]
