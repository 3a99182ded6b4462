-- ===== src/Tensor/Tests.antt =====
-- Concrete tensors of tensor.rs, and the theorems at them.
use mathlib.Core.List.{Mem}
use st_zrt.Common.{
  ℕ, ◌+◌, ◌*◌, ◌/◌, ◌^◌, ◌≤◌, ◌<◌, ◌≡◌, refl, ◌↔◌, true, false, Bool-cases, none, some, [], ◌∷◌,
  ltb, ltb→lt, if◌then◌else◌, arith, ok, err, pos, negsuc, usize_mod, inl, inr,
}
use st_zrt.Tensor.Elements.{
  uint4, dynamic_dimension, count_overflows, packed_element_bits, checked_element_count,
  tensor_byte_len, validate_packed_bytes_len,
}
use st_zrt.Tensor.Packed.{Countable, product, validate_packed_bytes_len_iff}
use st_zrt.Tensor.Prefault.{page_or_default, prefault_slice, AllBelow, prefault_slice_lem}
use st_zrt.Tensor.Mapping.{
  System, Memory, MmapTensorOptions, map_file, misaligned, lock_failed, range_exceeds_file,
}
use st_zrt.Tensor.Mapped.{IsPosix, Maps, map_file_lem}
use st_zrt.Tensor.Spec.{
  Host, BufferSpec, vec_spec, aligned_spec, cuda_pinned_spec, with_prefault, with_hugepage,
  with_alignment, aligned, resolve, zeros_with, needs_cuda, not_power_of_two, has_modifiers,
}
use st_zrt.Tensor.Honoured.{Honours, vec_built, prefault_built, alignment_built, zeros_with_lem}

rounded : tensor_byte_len uint4 5 ≡ ok 3
unfolding tensor_byte_len packed_element_bits
rounded = refl

dynamic : checked_element_count (pos 2 ∷ negsuc 0 ∷ []) ≡ err (dynamic_dimension (negsuc 0))
unfolding checked_element_count
dynamic = refl

-- The product is 0, but that of the first two dimensions needs more than a word.
too_many : checked_element_count (pos (2 ^ 40) ∷ pos (2 ^ 40) ∷ pos 0 ∷ []) ≡ err count_overflows
unfolding checked_element_count
too_many = refl

uint4-bits : packed_element_bits uint4 ≡ some 4
unfolding packed_element_bits
uint4-bits = refl

validate_packed_bytes_len_iff_example :
    (validate_packed_bytes_len (pos 1 ∷ pos 5 ∷ []) uint4 3 ≡ ok tt) ↔ (
      Countable (pos 1 ∷ pos 5 ∷ [])
      × (product (pos 1 ∷ pos 5 ∷ []) * 4 + 7 < usize_mod)
      × (product (pos 1 ∷ pos 5 ∷ []) * 4 ≤ 24)
      × (24 < product (pos 1 ∷ pos 5 ∷ []) * 4 + 8))
validate_packed_bytes_len_iff_example =
    validate_packed_bytes_len_iff uint4 4 (pos 1 ∷ pos 5 ∷ []) 3 uint4-bits

touched : prefault_slice none 1024 10 ≡ 0 ∷ 4 ∷ 8 ∷ 9 ∷ []
unfolding prefault_slice
touched = refl

prefault_slice_lem_example :
    AllBelow 10 (prefault_slice none 1024 10)
    × (i : ℕ) × Mem i (prefault_slice none 1024 10)
    × ((3 * 1024 + i * 1024) / page_or_default none ≡ (3 * 1024 + 10000) / page_or_default none)
prefault_slice_lem_example =
    prefault_slice_lem none 4 1024 3 10 10000 refl (omega arith) (omega arith) (omega arith)

-- A file of 10000 bytes, pages of 4096, and mappings of at most a page, each at 2^20.
abbrev system : System
system = record {
  opens = true;
  file_len = some 10000;
  page_size = some 4096;
  mmap = λ n o. if ltb n 4097 then some (2 ^ 20) else none;
  mlock = λ a n. false;
}

abbrev no_memory : Memory
no_memory = record { mapped = []; locked = [] }

abbrev from_4200 : MmapTensorOptions
from_4200 = record { byte_offset = 4200; sequential = true; hugepage = false; locked = false }

unlockable :
    map_file system (record from_4200 { locked = true }) 4 4 100 no_memory
    ≡ (no_memory, err lock_failed)
unfolding map_file
unlockable = refl

unaligned :
    map_file system (record from_4200 { byte_offset = 4201 }) 4 4 100 no_memory
    ≡ (no_memory, err misaligned)
unfolding map_file
unaligned = refl

outside :
    map_file system from_4200 4 4 2000 no_memory
    ≡ (no_memory, err (range_exceeds_file 4200 12200 10000))
unfolding map_file
outside = refl

placed : (n o a : ℕ) → system.mmap n o ≡ some a → (0 < a) × (a + n < usize_mod)
placed n o a e = elim (Bool-cases (ltb n 4097)) [
  | inl small ↦
      let given : some (2 ^ 20) ≡ some a = rw small at e in
      let at : 2 ^ 20 ≡ a = cc in (omega (arith, at), omega (arith, at, ltb→lt n 4097 small))
  | inr large ↦ let clash = rw large at e in absurd (cc)
]

system-IsPosix : IsPosix system
system-IsPosix = record { page_pow = λ p e. (12, omega arith, cc); mmap_in = placed }

map_file_lem_example :
    Maps system from_4200 4 4 100 no_memory (map_file system from_4200 4 4 100 no_memory)
map_file_lem_example = map_file_lem system from_4200 4 4 100 no_memory system-IsPosix

abbrev host : Host
host = record { cuda = false; locks = true; pins = true }

-- `BufferSpec::vec().alignment(64).prefault()`, for 3 elements of 4 bytes.
abbrev prefaulted_64 : BufferSpec
prefaulted_64 = with_prefault (with_alignment 64 vec_spec)

zeros_with_lem_example :
    Honours 4 4 3 (resolve prefaulted_64 12) (zeros_with host 4 4 (pos 3 ∷ []) prefaulted_64)
zeros_with_lem_example =
    zeros_with_lem host 4 4 (pos 3 ∷ []) prefaulted_64
      (prefault_built (alignment_built 64 vec_built))

without_cuda : zeros_with host 4 4 (pos 3 ∷ []) cuda_pinned_spec ≡ some (err needs_cuda)
unfolding zeros_with checked_element_count has_modifiers
without_cuda = refl

odd_alignment : zeros_with host 4 4 (pos 3 ∷ []) (aligned_spec 48) ≡ some (err not_power_of_two)
unfolding zeros_with checked_element_count
odd_alignment = refl

-- No element: nothing is allocated, and nothing is advised or touched.
nothing_allocated :
    zeros_with host 4 4 (pos 0 ∷ []) (with_prefault (with_hugepage (aligned_spec 64)))
    ≡ some (
        ok (record {
          kind = aligned;
          len = 0;
          alignment = 4;
          prefaulted = false;
          advised = false;
          locked = false;
        }))
unfolding zeros_with checked_element_count
nothing_allocated = refl

-- `isize::MAX` bytes and one.
vec_panics : zeros_with host 8 8 (pos (2 ^ 60) ∷ []) vec_spec ≡ none
unfolding zeros_with checked_element_count has_modifiers
vec_panics = refl
