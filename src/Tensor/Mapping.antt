-- ===== src/Tensor/Mapping.antt =====
-- `MmapBuffer` of tensor.rs: a range of a file mapped into memory for a tensor, and its release. The
-- mappings and locked ranges of the process are the state; the advice to the system changes neither.
use st_zrt.Common.{
  ℕ, ◌+◌, ◌-◌, ◌%◌, Bool, true, false, ◌&&◌, Option, none, some, List, [], ◌∷◌, ◌==◌, if◌then◌else◌,
  ltb, bit_and, checked_add, checked_mul, usize_mod, Result, ok, err,
}

pub data MapError : Type 0 where
  size_overflows open_failed stat_failed range_overflows no_page_size length_overflows : MapError
  mmap_failed null_mapping misaligned null_data lock_failed : MapError
  range_exceeds_file : ℕ → ℕ → ℕ → MapError

-- What the system answers: whether the file opens, its length, the page size, and for `mmap` a
-- length and an offset, for `mlock` an address and a length.
pub record System : Type 0 where
  pub opens : Bool
  pub file_len : Option ℕ
  pub page_size : Option ℕ
  pub mmap : ℕ → ℕ → Option ℕ
  pub mlock : ℕ → ℕ → Bool

-- Address and length.
abbrev pub Range : Type 0
Range = ℕ × ℕ

pub record Memory : Type 0 where
  pub mapped : List Range
  pub locked : List Range

pub record MmapTensorOptions : Type 0 where
  pub byte_offset : ℕ
  pub sequential : Bool
  pub hugepage : Bool
  pub locked : Bool

pub record MappedRange : Type 0 where
  pub ptr : ℕ
  pub len : ℕ
  pub data_offset : ℕ

pub record MmapBuffer : Type 0 where
  pub mapping_ptr : ℕ
  pub mapping_len : ℕ
  pub data_ptr : ℕ
  pub len : ℕ
  pub locked : Bool

abbrev pub remove_range : Range → List Range → List Range
remove_range r [] = []
remove_range (a, n) ((b, m) ∷ rs) =
    let rest = remove_range (a, n) rs in if (a == b) && (n == m) then rs else (b, m) ∷ rest

abbrev pub unmap_raw : ℕ → ℕ → Memory → Memory
unmap_raw ptr len w = record w { mapped = remove_range (ptr, len) w.mapped }

abbrev pub unlock_pages_raw : ℕ → ℕ → Memory → Memory
unlock_pages_raw ptr len w = record w { locked = remove_range (ptr, len) w.locked }

-- `Drop` of a buffer.
unfoldable pub drop_buffer : MmapBuffer → Memory → Memory
drop_buffer b w =
    if b.mapping_len == 0
    then w
    else unmap_raw b.mapping_ptr b.mapping_len
        (if b.locked then unlock_pages_raw b.mapping_ptr b.mapping_len w else w)

abbrev pub Mapping : Type 0 → Type 0
Mapping A = Memory × Result A MapError

-- `byte_offset & !page_mask`
abbrev pub page_start : ℕ → ℕ → ℕ
page_start page byte_offset = bit_and byte_offset (usize_mod - 1 - (page - 1))

unfoldable pub map_file_range : System → ℕ → ℕ → Memory → Mapping MappedRange
map_file_range os byte_offset bytes w = elim os.page_size [
  | none ↦ (w, err no_page_size)
  | some page ↦
      let map_offset = page_start page byte_offset in
      let data_offset = byte_offset - map_offset in
      elim (checked_add usize_mod data_offset bytes) [
        | none ↦ (w, err length_overflows)
        | some map_len ↦ elim (os.mmap map_len map_offset) [
          | none ↦ (w, err mmap_failed)
          | some ptr ↦
              let w' = record w { mapped = (ptr, map_len) ∷ w.mapped } in
              if ptr == 0
              then (w', err null_mapping)
              else (w', ok (record { ptr = ptr; len = map_len; data_offset = data_offset }))
        ]
      ]
]

-- `options.locked`: where the pages cannot be locked, the buffer is dropped.
unfoldable pub lock_mapped : System → MmapTensorOptions → MmapBuffer → Memory → Mapping MmapBuffer
unfolding drop_buffer
lock_mapped os options out w =
    if options.locked
    then if os.mlock out.mapping_ptr out.mapping_len
      then (
        record w { locked = (out.mapping_ptr, out.mapping_len) ∷ w.locked },
        ok (record out { locked = true }),
      )
      else (drop_buffer out w, err lock_failed)
    else (w, ok out)

unfoldable pub wrap_mapped :
    System → MmapTensorOptions → ℕ → ℕ → Mapping MappedRange → Mapping MmapBuffer
unfolding lock_mapped
wrap_mapped os options align len (w, err e) = (w, err e)
wrap_mapped os options align len (w, ok mapping) =
    let data_addr = (mapping.ptr + mapping.data_offset) % usize_mod in
    if data_addr % align == 0
    then if data_addr == 0
      then (w, err null_data)
      else lock_mapped os options
          (record {
            mapping_ptr = mapping.ptr;
            mapping_len = mapping.len;
            data_ptr = data_addr;
            len = len;
            locked = false;
          })
          w
    else (unmap_raw mapping.ptr mapping.len w, err misaligned)

-- The buffer of an empty tensor: no mapping, and pointers that dangle.
abbrev pub dangling : ℕ → ℕ → MmapBuffer
dangling align len = record {
  mapping_ptr = 1;
  mapping_len = 0;
  data_ptr = align;
  len = len;
  locked = false;
}

unfoldable pub map_file :
    System → MmapTensorOptions → (elem_size align len : ℕ) → Memory → Mapping MmapBuffer
unfolding map_file_range wrap_mapped
map_file os options elem_size align len w = elim (checked_mul usize_mod len elem_size) [
  | none ↦ (w, err size_overflows)
  | some bytes ↦
      if os.opens
      then elim os.file_len [
        | none ↦ (w, err stat_failed)
        | some file_len ↦ elim (checked_add usize_mod options.byte_offset bytes) [
          | none ↦ (w, err range_overflows)
          | some end ↦
              if ltb file_len end
              then (w, err (range_exceeds_file options.byte_offset end file_len))
              else if bytes == 0
              then (w, ok (dangling align len))
              else wrap_mapped os options align len (map_file_range os options.byte_offset bytes w)
        ]
      ]
      else (w, err open_failed)
]
