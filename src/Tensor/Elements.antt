-- ===== src/Tensor/Elements.antt =====
-- Element types, element counts and byte lengths: `element_size`, `packed_element_bits` and
-- `tensor_byte_len` of lib.rs, `checked_element_count` of type_info.rs, and the validations of tensor.rs.
use st_zrt.Common.{
  ℕ, ◌/◌, Option, none, some, List, [], ◌∷◌, ◌==◌, if◌then◌else◌, ℤ, pos, pos_part, ltb_ℤ,
  checked_add, checked_mul, usize_mod, Result, ok, err, ◌>>=◌,
}

pub data ElementType : Type 0 where
  undefined float uint8 int8 uint16 int16 int32 int64 string bool float16 double uint32 uint64 :
      ElementType
  complex64 complex128 bfloat16 float8_e4m3fn float8_e4m3fnuz float8_e5m2 float8_e5m2fnuz :
      ElementType
  uint4 int4 float4_e2m1 uint2 int2 float8_e8m0 : ElementType

pub data TensorError : Type 0 where
  dynamic_dimension : ℤ → TensorError
  count_overflows bytes_overflow not_packed : TensorError
  elements_expected bytes_expected : ℕ → ℕ → TensorError

-- Bytes of one element, 0 for a string and for the types below a byte.
unfoldable pub element_size : ElementType → ℕ
element_size float = 4
element_size int32 = 4
element_size uint32 = 4
element_size double = 8
element_size int64 = 8
element_size uint64 = 8
element_size complex64 = 8
element_size complex128 = 16
element_size uint16 = 2
element_size int16 = 2
element_size float16 = 2
element_size bfloat16 = 2
element_size uint8 = 1
element_size int8 = 1
element_size bool = 1
element_size float8_e4m3fn = 1
element_size float8_e4m3fnuz = 1
element_size float8_e5m2 = 1
element_size float8_e5m2fnuz = 1
element_size float8_e8m0 = 1
element_size uint4 = 0
element_size int4 = 0
element_size uint2 = 0
element_size int2 = 0
element_size float4_e2m1 = 0
element_size undefined = 0
element_size string = 0

unfoldable pub packed_element_bits : ElementType → Option ℕ
packed_element_bits uint4 = some 4
packed_element_bits int4 = some 4
packed_element_bits float4_e2m1 = some 4
packed_element_bits uint2 = some 2
packed_element_bits int2 = some 2
packed_element_bits _ = none

abbrev pub or_overflow : Option ℕ → Result ℕ TensorError
or_overflow none = err bytes_overflow
or_overflow (some n) = ok n

unfoldable pub tensor_byte_len : ElementType → ℕ → Result ℕ TensorError
tensor_byte_len e count = elim (packed_element_bits e) [
  | some bits ↦ or_overflow (elim (checked_mul usize_mod count bits) [
    | none ↦ none
    | some all_bits ↦ elim (checked_add usize_mod all_bits 7) [
      | none ↦ none
      | some rounded ↦ some (rounded / 8)
    ]
  ])
  | none ↦ or_overflow (checked_mul usize_mod count (element_size e))
]

unfoldable pub count_from : ℕ → List ℤ → Result ℕ TensorError
count_from count [] = ok count
count_from count (dim ∷ dims) =
    if ltb_ℤ dim (pos 0)
    then err (dynamic_dimension dim)
    else elim (checked_mul usize_mod count (pos_part dim)) [
      | none ↦ err count_overflows
      | some count' ↦ count_from count' dims
    ]

unfoldable pub checked_element_count : List ℤ → Result ℕ TensorError
unfolding count_from
checked_element_count dims = count_from 1 dims

unfoldable pub validate_shape_len : List ℤ → ℕ → Result (Unit {0}) TensorError
validate_shape_len shape len = checked_element_count shape >>= λ expected.
    if expected == len then ok tt else err (elements_expected expected len)

unfoldable pub validate_packed_bytes_len : List ℤ → ElementType → ℕ → Result (Unit {0}) TensorError
validate_packed_bytes_len shape e len = elim (packed_element_bits e) [
  | none ↦ err not_packed
  | some _ ↦ checked_element_count shape >>= λ count. tensor_byte_len e count >>= λ expected.
      if expected == len then ok tt else err (bytes_expected expected len)
]
