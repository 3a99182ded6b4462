-- ===== src/Tensor/Spec.antt =====
-- `BufferSpec` of tensor.rs, and the storage that `TensorBuffer::zeros_with` allocates for it.
-- The wrapping of the storage as a value of ONNX Runtime, `from_storage`, is left out.
use st_zrt.Common.{
  ℕ, ◌+◌, ◌-◌, ◌*◌, ◌^◌, Bool, true, false, not, ◌&&◌, ◌||◌, Option, none, some, List, ◌==◌,
  if◌then◌else◌, leb, ltb, max, bit_and, checked_mul, usize_mod, ℤ, Result, ok, err, ◌>>=◌, ◌>>◌,
  guard,
}
use st_zrt.Tensor.Elements.{TensorError, checked_element_count}

pub data BufferStorage : Type 0 where
  vec aligned cuda_pinned : BufferStorage

pub record BufferSpec : Type 0 where
  pub storage : BufferStorage
  pub alignment : ℕ
  pub prefault : Bool
  pub hugepage : Bool
  pub mlock : Bool
  pub auto : Bool

-- `BufferSpec::vec`, `aligned`, `cuda_pinned` and `auto`.
abbrev plain : BufferStorage → ℕ → BufferSpec
plain storage alignment = record {
  storage = storage;
  alignment = alignment;
  prefault = false;
  hugepage = false;
  mlock = false;
  auto = false;
}

abbrev pub vec_spec : BufferSpec
vec_spec = plain vec 0

abbrev pub aligned_spec : ℕ → BufferSpec
aligned_spec alignment = plain aligned alignment

abbrev pub cuda_pinned_spec : BufferSpec
cuda_pinned_spec = plain cuda_pinned 0

abbrev pub auto_spec : BufferSpec
auto_spec = record vec_spec { auto = true }

-- The modifiers `prefault`, `hugepage`, `mlock` and `alignment`.
abbrev pub aligned_at_least : BufferStorage → BufferStorage
aligned_at_least vec = aligned
aligned_at_least s = s

abbrev pub with_prefault : BufferSpec → BufferSpec
with_prefault s = record s { prefault = true; auto = false }

abbrev pub with_hugepage : BufferSpec → BufferSpec
with_hugepage s = record s { storage = aligned_at_least s.storage; hugepage = true; auto = false }

abbrev pub with_mlock : BufferSpec → BufferSpec
with_mlock s = record s { storage = aligned_at_least s.storage; mlock = true; auto = false }

abbrev pub with_alignment : ℕ → BufferSpec → BufferSpec
with_alignment alignment s = record s { storage = aligned; alignment = alignment; auto = false }

-- `BufferSpec::THROUGHPUT_LARGE`
abbrev pub throughput_large : BufferSpec
throughput_large = with_prefault (with_hugepage (aligned_spec (2 * 2 ^ 20)))

-- Aligned from 1 MiB, with huge pages from 2 MiB.
unfoldable pub resolve : BufferSpec → ℕ → BufferSpec
resolve s bytes =
    if not s.auto
    then s
    else if leb (2 * 2 ^ 20) bytes
    then throughput_large
    else if leb (2 ^ 20) bytes
    then with_prefault (aligned_spec 4096)
    else vec_spec

pub data SpecError : Type 0 where
  bad_shape : TensorError → SpecError
  length_overflows vec_modifiers pinned_modifiers needs_cuda : SpecError
  not_power_of_two bad_layout lock_refused pinned_failed : SpecError

-- What is allocated: `Vec`, `AlignedBuffer` with its alignment, or pinned host memory.
pub record Storage : Type 0 where
  pub kind : BufferStorage
  pub len : ℕ
  pub alignment : ℕ
  pub prefaulted : Bool
  pub advised : Bool
  pub locked : Bool

-- The feature `cuda`, and the answers of `mlock` and of the pinned allocation.
pub record Host : Type 0 where
  pub cuda : Bool
  pub locks : Bool
  pub pins : Bool

unfoldable pub is_power_of_two : ℕ → Bool
is_power_of_two n = not (n == 0) && (bit_and n (n - 1) == 0)

-- `Layout::from_size_align`: the size rounded up to the alignment is at most `isize::MAX`.
abbrev pub layout_fits : ℕ → ℕ → Bool
layout_fits bytes alignment = ltb (bytes + (alignment - 1)) (2 ^ 63)

-- `AlignedBuffer::zeroed`; without elements nothing is allocated, and the dangling pointer has the
-- alignment of the element only.
unfoldable pub zeroed : (elem_size elem_align len alignment : ℕ) → Result Storage SpecError
unfolding is_power_of_two
zeroed elem_size elem_align len alignment =
    let chosen = max alignment elem_align in
    let storage : Storage = record {
      kind = aligned;
      len = len;
      alignment = if len == 0 then elem_align else chosen;
      prefaulted = false;
      advised = false;
      locked = false;
    } in
    if not (is_power_of_two chosen)
    then err not_power_of_two
    else if len == 0
    then ok storage
    else elim (checked_mul usize_mod len elem_size) [
      | none ↦ err length_overflows
      | some bytes ↦ if layout_fits bytes chosen then ok storage else err bad_layout
    ]

-- `zeros_aligned_flags`; a buffer without elements has no layout, and there is nothing to advise, to
-- touch or to lock.
unfoldable pub zeros_aligned_flags :
    Host
    → (elem_size elem_align len alignment : ℕ) (hugepage prefault mlock : Bool)
    → Result Storage SpecError
unfolding zeroed
zeros_aligned_flags host elem_size elem_align len alignment hugepage prefault mlock =
    zeroed elem_size elem_align len alignment >>= λ buffer.
    if mlock && not (len == 0) && not host.locks
    then err lock_refused
    else ok (record buffer {
      advised = hugepage && not (len * elem_size == 0);
      prefaulted = prefault && not (len == 0);
      locked = mlock && not (len == 0);
    })

unfoldable pub has_modifiers : BufferSpec → Bool
has_modifiers s = not (s.alignment == 0) || s.hugepage || s.mlock

-- `none` is the panic of `vec!` when the bytes exceed `isize::MAX`.
unfoldable pub zeros_storage :
    Host
    → (elem_size elem_align len : ℕ) → BufferSpec
    → BufferStorage
    → Option (Result Storage SpecError)
unfolding zeros_aligned_flags has_modifiers
zeros_storage host elem_size elem_align len s vec =
    if has_modifiers s
    then some (err vec_modifiers)
    else if leb (2 ^ 63) (len * elem_size)
    then none
    else some (
        ok (record {
          kind = vec;
          len = len;
          alignment = elem_align;
          prefaulted = s.prefault && not (len == 0);
          advised = false;
          locked = false;
        }))
zeros_storage host elem_size elem_align len s aligned = some (
    zeros_aligned_flags host elem_size elem_align len (max s.alignment elem_align) s.hugepage
      s.prefault s.mlock)
zeros_storage host elem_size elem_align len s cuda_pinned = some (
    guard (not (has_modifiers s)) pinned_modifiers
    >> guard host.cuda needs_cuda
    >> guard host.pins pinned_failed
    >> ok (record {
      kind = cuda_pinned;
      len = len;
      alignment = elem_align;
      prefaulted = s.prefault && not (len == 0);
      advised = false;
      locked = false;
    }))

unfoldable pub zeros_with :
    Host → (elem_size elem_align : ℕ) → List ℤ → BufferSpec → Option (Result Storage SpecError)
unfolding zeros_storage resolve
zeros_with host elem_size elem_align shape spec = elim (checked_element_count shape) [
  | err e ↦ some (err (bad_shape e))
  | ok len ↦ elim (checked_mul usize_mod len elem_size) [
    | none ↦ some (err length_overflows)
    | some bytes ↦
        let s = resolve spec bytes in zeros_storage host elem_size elem_align len s s.storage
  ]
]
