-- ===== src/Tensor/Packed.antt =====
-- Element counts and the byte lengths of packed tensors, against the product of the dimensions.
use native.Mathlib.Nat.{mul_assoc, mul-one, one-mul}
use st_zrt.Common.{
  ℕ, zero, suc, ◌+◌, ◌*◌, ◌/◌, ◌≤◌, ◌<◌, ◌≡◌, refl, sym, ap, ◌∙◌, ◌↔◌, true, false, Bool-cases,
  some, List, [], ◌∷◌, ◌==◌, ==_iff, if◌then◌else◌, ltb, lt→ltb, ltb→lt, ℤ, pos, negsuc, usize_mod,
  Result-cases, ok, err, arith, inl, inr,
}
use st_zrt.Tensor.Elements.{
  ElementType, TensorError, count_overflows, bytes_overflow, packed_element_bits, tensor_byte_len,
  count_from, checked_element_count, validate_packed_bytes_len,
}

abbrev pub product : List ℤ → ℕ
product [] = 1
product (pos d ∷ ds) = d * product ds
product (negsuc d ∷ ds) = 0

abbrev pub NonNegative : List ℤ → Type 0
NonNegative [] = Unit
NonNegative (pos d ∷ ds) = NonNegative ds
NonNegative (negsuc d ∷ ds) = ⊥

abbrev pub take : ℕ → List ℤ → List ℤ
take zero ds = []
take (suc i) [] = []
take (suc i) (d ∷ ds) = d ∷ take i ds

-- No dimension is negative, and the product of no prefix needs more than a word.
abbrev pub Countable : List ℤ → Type 0
Countable ds = NonNegative ds × ((i : ℕ) → product (take i ds) < usize_mod)

CountableFrom : ℕ → List ℤ → Type 0
CountableFrom c ds = NonNegative ds × ((i : ℕ) → c * product (take i ds) < usize_mod)

count_fits :
    (c d : ℕ) (ds : List ℤ) → c * d < usize_mod → count_from c (pos d ∷ ds) ≡ count_from (c * d) ds
unfolding count_from
count_fits c d ds h =
    let t = lt→ltb (c * d) usize_mod h in
    let nn : ltb (d + 0) 0 ≡ false = ground arith in rw (nn, t) refl

count_over :
    (c d : ℕ) (ds : List ℤ)
    → ltb (c * d) usize_mod ≡ false
    → count_from c (pos d ∷ ds) ≡ err count_overflows
unfolding count_from
count_over c d ds h = let nn : ltb (d + 0) 0 ≡ false = ground arith in rw (nn, h) refl

prefixes_nil : (c : ℕ) → c < usize_mod → (i : ℕ) → c * product (take i []) < usize_mod
prefixes_nil c small zero = rw mul-one small
prefixes_nil c small (suc i) = rw mul-one small

prefixes_cons :
    (c d : ℕ) (ds : List ℤ)
    → c < usize_mod
    → ((j : ℕ) → c * d * product (take j ds) < usize_mod)
    → (i : ℕ) → c * product (take i (pos d ∷ ds)) < usize_mod
prefixes_cons c d ds small h zero = rw mul-one small
prefixes_cons c d ds small h (suc i) = rw mul_assoc at (h i)

count_from_ok :
    (c : ℕ) (ds : List ℤ) (n : ℕ)
    → c < usize_mod
    → count_from c ds ≡ ok n
    → CountableFrom c ds × (n ≡ c * product ds)
unfolding count_from CountableFrom
count_from_ok c [] n small h = ((tt, prefixes_nil c small), rw mul-one (cc))
count_from_ok c (negsuc d ∷ ds) n small h =
    let t : ltb 0 (0 + suc d) ≡ true = ground arith in let clash = rw t at h in absurd (cc)
count_from_ok c (pos d ∷ ds) n small h = elim (Bool-cases (ltb (c * d) usize_mod)) [
  | inl fits ↦
      let lt = ltb→lt _ _ fits in
      let ((nn, prefixes), e) = count_from_ok (c * d) ds n lt (sym (count_fits c d ds lt) ∙ h) in
      ((nn, prefixes_cons c d ds small prefixes), e ∙ mul_assoc c d (product ds))
  | inr over ↦ let clash = sym (count_over c d ds over) ∙ h in absurd (cc)
]

count_from_complete :
    (c : ℕ) (ds : List ℤ) → CountableFrom c ds → count_from c ds ≡ ok (c * product ds)
unfolding count_from CountableFrom
count_from_complete c [] h = ap ok (sym (mul-one c))
count_from_complete c (negsuc d ∷ ds) h = absurd (h.0)
count_from_complete c (pos d ∷ ds) (nn, prefixes) =
    let lt : c * d < usize_mod = rw mul-one at (prefixes 1) in
    count_fits c d ds lt
    ∙ count_from_complete (c * d) ds (nn, λ i. rw (mul_assoc) (prefixes (suc i)))
    ∙ ap ok (mul_assoc c d (product ds))

-- The count that is accepted is the product of the dimensions.
pub checked_element_count_iff :
    (shape : List ℤ) (n : ℕ)
    → (checked_element_count shape ≡ ok n) ↔ (Countable shape × (n ≡ product shape))
unfolding checked_element_count CountableFrom
checked_element_count_iff shape n = (
  λ h.
      let ((nn, prefixes), e) = count_from_ok 1 shape n (omega arith) h in
      ((nn, λ i. rw one-mul at (prefixes i)), rw one-mul at e),
  λ h.
      let ((nn, prefixes), e) = h in
      count_from_complete 1 shape (nn, λ i. rw one-mul (prefixes i)) ∙ rw (one-mul, e) refl,
)

accepted : (a b : ℕ) (x : TensorError) → ((if a == b then ok (tt {0}) else err x) ≡ ok tt) ↔ (a ≡ b)
accepted a b x = elim (Bool-cases (a == b)) [
  | inl same ↦ rw same (λ _. (==_iff a b).0 same, λ _. refl)
  | inr apart ↦
      rw apart (λ h. absurd (cc), λ h. let clash = sym apart ∙ (==_iff a b).1 h in absurd (cc))
]

module _ (e : ElementType) (bits : ℕ) (packed : packed_element_bits e ≡ some bits) where
  packed_bytes :
      (count : ℕ)
      → count * bits + 7 < usize_mod
      → tensor_byte_len e count ≡ ok ((count * bits + 7) / 8)
  unfolding tensor_byte_len
  packed_bytes count lt =
      let t = lt→ltb (count * bits) usize_mod (omega (arith, lt)) in
      let t' = lt→ltb (count * bits + 7) usize_mod lt in rw (tensor_byte_len, packed, t, t') refl

  packed_overflow :
      (count : ℕ)
      → ltb (count * bits + 7) usize_mod ≡ false
      → tensor_byte_len e count ≡ err bytes_overflow
  unfolding tensor_byte_len
  packed_overflow count over = elim (Bool-cases (ltb (count * bits) usize_mod)) [
    | inl fits ↦ rw (tensor_byte_len, packed, fits, over) refl
    | inr wide ↦ rw (tensor_byte_len, packed, wide) refl
  ]

  packed_cases :
      (shape : List ℤ) (len : ℕ)
      → (checked_element_count shape ≡ ok (product shape))
      → (validate_packed_bytes_len shape e len ≡ ok tt) ↔ (
          (product shape * bits + 7 < usize_mod)
          × (product shape * bits ≤ len * 8)
          × (len * 8 < product shape * bits + 8))
  unfolding validate_packed_bytes_len
  packed_cases shape len counted = elim (Bool-cases (ltb (product shape * bits + 7) usize_mod)) [
    | inl fits ↦
        let lt = ltb→lt _ _ fits in
        rw (validate_packed_bytes_len, packed, counted, packed_bytes _ lt)
          (
            λ h. let q = (accepted _ len _).0 h in (lt, omega (arith, q), omega (arith, q)),
            λ h. (accepted _ len _).1 (omega (arith, h.1, h.2)),
          )
    | inr wide ↦
        rw (validate_packed_bytes_len, packed, counted, packed_overflow _ wide)
          (λ h. absurd (cc), λ h. let clash = sym wide ∙ lt→ltb _ _ (h.0) in absurd (cc))
  ]

-- For an element type below a byte, the length is accepted exactly when no dimension is negative, no
-- prefix of the shape counts more elements than a word holds, the bits and seven more fit in a word,
-- and the length is the least number of bytes that holds the bits of all elements.
pub validate_packed_bytes_len_iff :
    (e : ElementType) (bits : ℕ) (shape : List ℤ) (len : ℕ)
    → packed_element_bits e ≡ some bits
    → (validate_packed_bytes_len shape e len ≡ ok tt) ↔ (
        Countable shape
        × (product shape * bits + 7 < usize_mod)
        × (product shape * bits ≤ len * 8)
        × (len * 8 < product shape * bits + 8))
unfolding validate_packed_bytes_len
validate_packed_bytes_len_iff e bits shape len packed = (
  λ h. elim (Result-cases (checked_element_count shape)) [
    | inl (n, counted) ↦
        let (fits, same) = (checked_element_count_iff shape n).0 counted in
        let (wide, above, least) =
          (packed_cases e bits packed shape len (counted ∙ ap ok same)).0 h in
        (fits, wide, above, least)
    | inr (x, failed) ↦
        let clash = rw (validate_packed_bytes_len, packed, failed) at h in absurd (cc)
  ],
  λ h.
      let counted = (checked_element_count_iff shape (product shape)).1 (h.0, refl) in
      (packed_cases e bits packed shape len counted).1 (h.1, h.2, h.3),
)
