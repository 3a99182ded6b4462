-- ===== src/Tensor/Mapped.antt =====
-- What `MmapBuffer::map_file` of tensor.rs gives, and that an error leaves nothing mapped or locked.
use native.Mathlib.Nat.{mod-add-div, mul-mod_right, mod-eq_of_lt}
use st_zrt.Common.{
  ℕ, ◌+◌, ◌-◌, ◌*◌, ◌/◌, ◌%◌, ◌^◌, ◌≤◌, ◌<◌, ◌≡◌, refl, ap, ◌∙◌, Bool, true, false, Bool-cases,
  some, Option-cases, ◌∷◌, ◌==◌, ==_iff, ==_refl, if◌then◌else◌, ltb, ltb→lt, ltb→ge, bit_and,
  arith, usize_mod, ok, err, ◌⊎◌, inl, inr, and_high, pow-pos,
}
use st_zrt.Tensor.Mapping.{
  System, Memory, MmapTensorOptions, MmapBuffer, Mapping, map_file, map_file_range, dangling,
  wrap_mapped, lock_mapped, drop_buffer, page_start,
}

-- Pages have a power of two bytes, and a mapping is not at address 0 and ends within the addresses.
pub record IsPosix (os : System) : Type 0 where
  pub page_pow : (p : ℕ) → os.page_size ≡ some p → (k : ℕ) × (k ≤ 63) × (p ≡ 2 ^ k)
  pub mmap_in : (n o a : ℕ) → os.mmap n o ≡ some a → (0 < a) × (a + n < usize_mod)

-- The buffer's bytes are those of the file from `offset` on: the mapping begins at a page of the
-- file, and the data as far into the mapping as `offset` is after the page's start.
pub record Shows (os : System) (offset bytes align : ℕ) (b : MmapBuffer) : Type 0 where
  pub page : ℕ
  pub map_offset : ℕ
  pub paged : os.page_size ≡ some page
  pub page_aligned : map_offset % page ≡ 0
  pub mapped_there : os.mmap b.mapping_len map_offset ≡ some b.mapping_ptr
  pub begins : b.data_ptr + map_offset ≡ b.mapping_ptr + offset
  pub not_before : b.mapping_ptr ≤ b.data_ptr
  pub ends : b.data_ptr + bytes ≡ b.mapping_ptr + b.mapping_len
  pub aligned : b.data_ptr % align ≡ 0

-- The range of the tensor lies within the file.
abbrev pub InFile : System → MmapTensorOptions → ℕ → Type 0
InFile os options bytes = (n : ℕ) × (os.file_len ≡ some n) × (options.byte_offset + bytes ≤ n)

-- On an error memory is as before. A buffer lies within the file, shows its bytes unless it has none,
-- and memory is as before once it is dropped.
abbrev pub Maps :
    System → MmapTensorOptions → (elem_size align len : ℕ) → Memory → Mapping MmapBuffer → Type 0
Maps os options elem_size align len w (w', err e) = w' ≡ w
Maps os options elem_size align len w (w', ok b) =
    (b.len ≡ len)
    × InFile os options (len * elem_size)
    × ((len * elem_size ≡ 0) ⊎ Shows os options.byte_offset (len * elem_size) align b)
    × (drop_buffer b w' ≡ w)

page_start_lem :
    (k a : ℕ)
    → k ≤ 63
    → a < usize_mod
    → (page_start (2 ^ k) a + a % 2 ^ k ≡ a) × (page_start (2 ^ k) a % 2 ^ k ≡ 0)
page_start_lem k a le small =
    let mask : usize_mod - 1 - (2 ^ k - 1) ≡ 2 ^ 64 - 2 ^ k = omega (arith, pow-pos k) in
    let e : page_start (2 ^ k) a + a % 2 ^ k ≡ a =
      ap (λ m. bit_and a m + a % 2 ^ k) mask ∙ and_high 64 k a (omega arith) small in
    let whole : page_start (2 ^ k) a ≡ 2 ^ k * (a / 2 ^ k) =
      omega (arith, e, mod-add-div a (2 ^ k)) in
    (e, ap (λ t. t % 2 ^ k) whole ∙ mul-mod_right (2 ^ k) (a / 2 ^ k))

-- Memory with a new mapping.
abbrev with_mapping : Memory → ℕ → ℕ → Memory
with_mapping w ptr n = record w { mapped = (ptr, n) ∷ w.mapped }

abbrev buffer : ℕ → ℕ → ℕ → ℕ → Bool → MmapBuffer
buffer ptr n d len locked = record {
  mapping_ptr = ptr;
  mapping_len = n;
  data_ptr = d;
  len = len;
  locked = locked;
}

-- The mapping of a buffer that is dropped goes, and its lock.
drop_mapped :
    (w : Memory) (ptr n d len : ℕ)
    → (n == 0) ≡ false
    → drop_buffer (buffer ptr n d len false) (with_mapping w ptr n) ≡ w
unfolding drop_buffer
drop_mapped w ptr n d len some_bytes = rw (some_bytes, ==_refl ptr, ==_refl n) refl

drop_locked :
    (w : Memory) (ptr n d len : ℕ)
    → (n == 0) ≡ false
    → drop_buffer
        (buffer ptr n d len true)
        (record (with_mapping w ptr n) { locked = (ptr, n) ∷ w.locked })
      ≡ w
unfolding drop_buffer
drop_locked w ptr n d len some_bytes = rw (some_bytes, ==_refl ptr, ==_refl n) refl

module _ (os : System) (options : MmapTensorOptions) (elem_size align len : ℕ) (w : Memory)
    (in_file : InFile os options (len * elem_size)) where
  abbrev bytes : ℕ
  bytes = len * elem_size

  -- The lock does not change what a buffer shows.
  Shows-locked :
      {ptr n d : ℕ}
      → Shows os options.byte_offset bytes align (buffer ptr n d len false)
      → Shows os options.byte_offset bytes align (buffer ptr n d len true)
  Shows-locked s = record {
    page = s.page;
    map_offset = s.map_offset;
    paged = s.paged;
    page_aligned = s.page_aligned;
    mapped_there = s.mapped_there;
    begins = s.begins;
    not_before = s.not_before;
    ends = s.ends;
    aligned = s.aligned;
  }

  lock-Maps :
      (ptr n d : ℕ)
      → (n == 0) ≡ false
      → Shows os options.byte_offset bytes align (buffer ptr n d len false)
      → Maps os options elem_size align len w
          (lock_mapped os options (buffer ptr n d len false) (with_mapping w ptr n))
  unfolding lock_mapped
  lock-Maps ptr n d some_bytes shows = elim (Bool-cases options.locked) [
    | inl asked ↦ elim (Bool-cases (os.mlock ptr n)) [
      | inl done ↦
          rw (lock_mapped, asked, done)
            (refl, in_file, inr (Shows-locked shows), drop_locked w ptr n d len some_bytes)
      | inr refused ↦ rw (lock_mapped, asked, refused) (drop_mapped w ptr n d len some_bytes)
    ]
    | inr unasked ↦
        rw (lock_mapped, unasked) (refl, in_file, inr shows, drop_mapped w ptr n d len some_bytes)
  ]

  wrap-Maps :
      (page map_offset ptr off n : ℕ)
      → os.page_size ≡ some page
      → map_offset % page ≡ 0
      → os.mmap n map_offset ≡ some ptr
      → map_offset + off ≡ options.byte_offset
      → n ≡ off + bytes
      → (bytes == 0) ≡ false
      → 0 < ptr
      → ptr + n < usize_mod
      → Maps os options elem_size align len w (
          wrap_mapped os options align len
            (with_mapping w ptr n, ok (record { ptr = ptr; len = n; data_offset = off })))
  unfolding wrap_mapped
  wrap-Maps page map_offset ptr off n paged at_page there split total some_bytes pos within =
      let exact : (ptr + off) % usize_mod ≡ ptr + off =
        mod-eq_of_lt (omega (arith, within, total)) in
      let not_null : (ptr + off == 0) ≡ false = ground (arith, pos) in
      let mapped_some : (n == 0) ≡ false = ground (arith, total, some_bytes) in
      elim (Bool-cases ((ptr + off) % align == 0)) [
        | inl fits ↦
            rw (wrap_mapped, exact, fits, not_null)
              (lock-Maps ptr n (ptr + off) mapped_some (record {
                page = page;
                map_offset = map_offset;
                paged = paged;
                page_aligned = at_page;
                mapped_there = there;
                begins = omega (arith, split);
                not_before = omega arith;
                ends = omega (arith, total);
                aligned = (==_iff _ _).0 fits;
              }))
        | inr off_align ↦ rw (wrap_mapped, exact, off_align, ==_refl ptr, ==_refl n) refl
      ]

  -- The call of `mmap` that succeeds.
  range_ok :
      {page : ℕ} (ptr : ℕ)
      → let map_offset = page_start page options.byte_offset in
        let off = options.byte_offset - map_offset in
        os.page_size ≡ some page
        → ltb (off + bytes) usize_mod ≡ true
        → os.mmap (off + bytes) map_offset ≡ some ptr
        → (ptr == 0) ≡ false
        → map_file_range os options.byte_offset bytes w ≡ (
          with_mapping w ptr (off + bytes),
          ok (record { ptr = ptr; len = off + bytes; data_offset = off }),
        )
  unfolding map_file_range
  range_ok ptr paged fits there somewhere = rw (map_file_range, paged, fits, there, somewhere) refl

  range-Maps :
      IsPosix os
      → (bytes == 0) ≡ false
      → options.byte_offset < usize_mod
      → Maps os options elem_size align len w
          (wrap_mapped os options align len (map_file_range os options.byte_offset bytes w))
  unfolding map_file_range wrap_mapped
  range-Maps posix some_bytes small = elim (Option-cases os.page_size) [
    | inl unknown ↦ simp (map_file_range, unknown) refl
    | inr (page, paged) ↦
        let (k, le, pow) = posix.page_pow page paged in
        let (start, at_page) = page_start_lem k options.byte_offset le small in
        let map_offset = page_start page options.byte_offset in
        let off = options.byte_offset - map_offset in
        elim (Bool-cases (ltb (off + bytes) usize_mod)) [
          | inr wide ↦ simp (map_file_range, paged, wide) refl
          | inl fits ↦ elim (Option-cases (os.mmap (off + bytes) map_offset)) [
            | inl failed ↦ simp (map_file_range, paged, fits, failed) refl
            | inr (ptr, there) ↦
                let (pos, within) = posix.mmap_in _ _ ptr there in
                let mapped_at : (ptr == 0) ≡ false = ground (arith, pos) in
                rw (range_ok ptr paged fits there mapped_at) (
                  wrap-Maps page map_offset ptr off (off + bytes) paged (rw pow at_page) there
                    (rw pow (omega (arith, start))) refl some_bytes pos within)
          ]
        ]
  ]

-- A range that is inside the file.
map_inside :
    (os : System) (options : MmapTensorOptions) (elem_size align len n : ℕ) (w : Memory)
    → ltb (len * elem_size) usize_mod ≡ true
    → os.opens ≡ true
    → os.file_len ≡ some n
    → ltb (options.byte_offset + len * elem_size) usize_mod ≡ true
    → ltb n (options.byte_offset + len * elem_size) ≡ false
    → map_file os options elem_size align len w ≡ (
        if len * elem_size == 0
        then (w, ok (dangling align len))
        else wrap_mapped os options align len
            (map_file_range os options.byte_offset (len * elem_size) w))
unfolding map_file
map_inside os options elem_size align len n w counted opened known summed inside =
    simp (map_file, counted, opened, known, summed, inside) refl

-- On a POSIX system, mapping the elements of a tensor from a file gives a buffer whose bytes are the
-- file's from the offset on, aligned and within the file, with one more mapping, which its drop takes
-- away again; and an error, a refused lock included, leaves nothing mapped and nothing locked.
pub map_file_lem :
    (os : System) (options : MmapTensorOptions) (elem_size align len : ℕ) (w : Memory)
    → IsPosix os
    → Maps os options elem_size align len w (map_file os options elem_size align len w)
unfolding map_file drop_buffer
map_file_lem os options elem_size align len w posix =
    elim (Bool-cases (ltb (len * elem_size) usize_mod)) [
      | inr wide ↦ simp (map_file, wide) refl
      | inl counted ↦ elim (Bool-cases os.opens) [
        | inr closed ↦ simp (map_file, counted, closed) refl
        | inl opened ↦ elim (Option-cases os.file_len) [
          | inl unknown ↦ simp (map_file, counted, opened, unknown) refl
          | inr (n, known) ↦
              elim (Bool-cases (ltb (options.byte_offset + len * elem_size) usize_mod)) [
                | inr beyond ↦ simp (map_file, counted, opened, known, beyond) refl
                | inl summed ↦ elim (Bool-cases (ltb n (options.byte_offset + len * elem_size))) [
                  | inl outside ↦ simp (map_file, counted, opened, known, summed, outside) refl
                  | inr inside ↦
                      let in_file : InFile os options (len * elem_size) =
                        (n, known, ltb→ge _ _ inside) in
                      elim (Bool-cases (len * elem_size == 0)) [
                        | inl nothing ↦
                            rw
                              (
                                map_inside os options elem_size align len n w counted opened known
                                    summed inside,
                                nothing,
                              )
                              (refl, in_file, inl ((==_iff _ _).0 nothing), refl)
                        | inr some_bytes ↦
                            rw
                              (
                                map_inside os options elem_size align len n w counted opened known
                                    summed inside,
                                some_bytes,
                              )
                              (range-Maps os options elem_size align len w in_file posix some_bytes
                                (omega (arith, ltb→lt _ _ summed)))
                      ]
                ]
              ]
        ]
      ]
    ]
