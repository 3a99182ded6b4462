-- ===== src/ShapePlan/Hash.antt =====
-- `ShapeHash` and the `ShapeIndex` of shape_plan.rs. The map is an association list: only its
-- contents are used, never its order.
use st_zrt.Common.{
  ℕ, ◌*◌, ◌-◌, ◌%◌, ◌^◌, ◌≡◌, Option, none, some, List, [], ◌∷◌, ◌++◌, ◌==◌, if◌then◌else◌, ℤ, pos,
  negsuc, length, bit_xor, arith,
}
use st_zrt.ShapePlan.{Shape, Shapes}

abbrev pub offset : ℕ
offset = 0xcbf29ce484222325

abbrev pub prime : ℕ
prime = 0x100000001b3

-- `dim as u64`
abbrev pub as_u64 : ℤ → ℕ
as_u64 (pos n) = n % 2 ^ 64
as_u64 (negsuc n) = 2 ^ 64 - 1 - n % 2 ^ 64

-- `(hash ^ x).wrapping_mul(PRIME)`
unfoldable pub mix : ℕ → ℕ → ℕ
mix hash x = bit_xor hash x * prime % 2 ^ 64

unfoldable pub mix_dims : ℕ → Shape → ℕ
unfolding mix
mix_dims hash [] = hash
mix_dims hash (d ∷ ds) = mix_dims (mix hash (as_u64 d)) ds

unfoldable pub mix_shapes : ℕ → Shapes → ℕ
unfolding mix_dims
mix_shapes hash [] = hash
mix_shapes hash (s ∷ ss) = mix_shapes (mix_dims (mix hash (length s)) s) ss

unfoldable pub from_slices : Shapes → ℕ
unfolding mix_shapes
from_slices shapes = mix_shapes (mix offset (length shapes)) shapes

abbrev pub ShapeIndex : Type 0
ShapeIndex = List (ℕ × List ℕ)

unfoldable pub index_get : ℕ → ShapeIndex → Option (List ℕ)
index_get h [] = none
index_get h ((k, ids) ∷ rest) = if k == h then some ids else index_get h rest

-- `index.entry(hash).or_default().push(id)`
unfoldable pub index_push : ℕ → ℕ → ShapeIndex → ShapeIndex
index_push h id [] = (h, id ∷ []) ∷ []
index_push h id ((k, ids) ∷ rest) =
    if k == h then (k, ids ++ id ∷ []) ∷ rest else (k, ids) ∷ index_push h id rest

abbrev pub or_empty : Option (List ℕ) → List ℕ
or_empty none = []
or_empty (some ids) = ids

-- The ids under a hash after a push.
pub index_get-push :
    (h h' id : ℕ) (index : ShapeIndex)
    → or_empty (index_get h (index_push h' id index))
      ≡ (if h' == h then or_empty (index_get h index) ++ id ∷ [] else or_empty (index_get h index))
unfolding index_get index_push
index_get-push h h' id [] = ground arith
index_get-push h h' id ((k, ids) ∷ rest) = ground (arith, index_get-push h h' id rest)
