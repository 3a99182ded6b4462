-- ===== src/Tensor/Honoured.antt =====
-- What `zeros_with` of tensor.rs makes of a spec that its constructors and modifiers give.
use st_zrt.Common.{
  ℕ, ◌*◌, ◌^◌, ◌≤◌, ◌≡◌, ◌≢◌, refl, sym, ◌∙◌, true, false, Bool-cases, not, ◌&&◌, List, Option,
  some, none, ◌⊎◌, Option-cases, ◌==◌, ==_iff, leb, ltb, ap, max, checked_mul, usize_mod, arith,
  if◌then◌else◌, ℤ, Result, Result-cases, ok, err, inl, inr,
}
use st_zrt.Tensor.Elements.{checked_element_count}
use st_zrt.Tensor.Packed.{product, checked_element_count_iff}
use st_zrt.Tensor.Spec.{
  BufferStorage, aligned_at_least, vec, aligned, cuda_pinned, BufferSpec, vec_spec, aligned_spec,
  cuda_pinned_spec, auto_spec, with_prefault, with_hugepage, with_mlock, with_alignment, resolve,
  SpecError, vec_modifiers, Storage, Host, is_power_of_two, layout_fits, zeroed,
  zeros_aligned_flags, has_modifiers, zeros_storage, zeros_with,
}

-- The specs that the constructors and modifiers give.
pub data Built : BufferSpec → Type 0 where
  vec_built : Built vec_spec
  aligned_built : (n : ℕ) → Built (aligned_spec n)
  cuda_pinned_built : Built cuda_pinned_spec
  auto_built : Built auto_spec
  prefault_built : {s : BufferSpec} → Built s → Built (with_prefault s)
  hugepage_built : {s : BufferSpec} → Built s → Built (with_hugepage s)
  mlock_built : {s : BufferSpec} → Built s → Built (with_mlock s)
  alignment_built : (n : ℕ) {s : BufferSpec} → Built s → Built (with_alignment n s)

-- Plain storage has no modifiers that only aligned storage has.
Sane : BufferSpec → Type 0
Sane s = s.storage ≡ vec → has_modifiers s ≡ false

never_vec : (b : BufferStorage) → aligned_at_least b ≢ vec
never_vec vec e = absurd (cc)
never_vec aligned e = absurd (cc)
never_vec cuda_pinned e = absurd (cc)

Built-Sane : {s : BufferSpec} → Built s → Sane s
unfolding Sane has_modifiers
Built-Sane vec_built e = refl
Built-Sane (aligned_built n) e = absurd (cc)
Built-Sane cuda_pinned_built e = refl
Built-Sane auto_built e = refl
Built-Sane (prefault_built b) e = Built-Sane b e
Built-Sane (hugepage_built {s} b) e = absurd (never_vec s.storage e)
Built-Sane (mlock_built {s} b) e = absurd (never_vec s.storage e)
Built-Sane (alignment_built n b) e = absurd (cc)

plain_vec : has_modifiers vec_spec ≡ false
unfolding has_modifiers
plain_vec = refl

-- The spec itself, or one of those that the automatic policy chooses.
resolve-Sane : (s : BufferSpec) (bytes : ℕ) → Sane s → Sane (resolve s bytes)
unfolding resolve Sane
resolve-Sane s bytes sane = elim (Bool-cases s.auto) [
  | inr fixed ↦ simp (resolve, fixed) sane
  | inl chosen ↦ elim (Bool-cases (leb (2 * 2 ^ 20) bytes)) [
    | inl large ↦ simp (resolve, chosen, large) (λ e. absurd (cc))
    | inr small ↦ elim (Bool-cases (leb (2 ^ 20) bytes)) [
      | inl middling ↦ simp (resolve, chosen, small, middling) (λ e. absurd (cc))
      | inr tiny ↦ simp (resolve, chosen, small, tiny) (λ e. plain_vec)
    ]
  ]
]

-- What a request for `len` elements with the resolved spec `s` is answered; `none` is a panic.
abbrev pub Honours :
    (elem_size elem_align len : ℕ) → BufferSpec → Option (Result Storage SpecError) → Type 0
Honours elem_size elem_align len s none = (s.storage ≡ vec) × (2 ^ 63 ≤ len * elem_size)
Honours elem_size elem_align len s (some (err e)) = e ≢ vec_modifiers
Honours elem_size elem_align len s (some (ok st)) =
    (st.kind ≡ s.storage)
    × (st.len ≡ len)
    × ((len ≡ 0) ⊎ (s.alignment ≤ st.alignment))
    × (elem_align ≤ st.alignment)
    × (st.prefaulted ≡ (s.prefault && not (len == 0)))
    × (st.advised ≡ (s.hugepage && not (len * elem_size == 0)))
    × (st.locked ≡ (s.mlock && not (len == 0)))

unmodified :
    (s : BufferSpec)
    → has_modifiers s ≡ false
    → (s.alignment ≡ 0) × (s.hugepage ≡ false) × (s.mlock ≡ false)
unfolding has_modifiers
unmodified s e = elim (Bool-cases (s.alignment == 0)) [
  | inr some_alignment ↦ let clash = rw some_alignment at e in absurd (cc)
  | inl none_given ↦ elim (Bool-cases s.hugepage) [
    | inl huge ↦ let clash = rw (none_given, huge) at e in absurd (cc)
    | inr small ↦ ((==_iff _ _).0 none_given, small, rw (none_given, small) at e)
  ]
]

-- The aligned buffer before its modifiers are applied.
Zeroed : (elem_align len alignment : ℕ) → Result Storage SpecError → Type 0
Zeroed elem_align len alignment (err e) = e ≢ vec_modifiers
Zeroed elem_align len alignment (ok st) =
    (st.kind ≡ aligned)
    × (st.len ≡ len)
    × ((len ≡ 0) ⊎ (alignment ≤ st.alignment))
    × (elem_align ≤ st.alignment)

zeroed-Zeroed :
    (elem_size elem_align len alignment : ℕ)
    → Zeroed elem_align len (max alignment elem_align) (zeroed elem_size elem_align len alignment)
unfolding zeroed Zeroed
zeroed-Zeroed elem_size elem_align len alignment =
    let chosen = max alignment elem_align in
    elim (Bool-cases (is_power_of_two chosen)) [
      | inr odd ↦ rw (zeroed, odd) (λ e. absurd (cc))
      | inl pow ↦ elim (Bool-cases (len == 0)) [
        | inl nothing ↦
            let at : (if len == 0 then elem_align else chosen) ≡ elem_align = rw nothing refl in
            rw (zeroed, pow, nothing) (refl, refl, inl ((==_iff _ _).0 nothing), omega (arith, at))
        | inr some_elements ↦ elim (Option-cases (checked_mul usize_mod len elem_size)) [
          | inl wide ↦ rw (zeroed, pow, some_elements, wide) (λ e. absurd (cc))
          | inr (bytes, sized) ↦ elim (Bool-cases (layout_fits bytes chosen)) [
            | inl fits ↦
                let at : (if len == 0 then elem_align else chosen) ≡ chosen =
                  rw some_elements refl in
                rw (zeroed, pow, some_elements, sized, fits)
                  (refl, refl, inr (omega (arith, at)), omega (arith, at))
            | inr large ↦ rw (zeroed, pow, some_elements, sized, large) (λ e. absurd (cc))
          ]
        ]
      ]
    ]

module _ (host : Host) (elem_size elem_align len : ℕ) (s : BufferSpec) where
  -- The alignment that the spec asks for is part of the one that is passed on.
  asked :
      (d : ℕ)
      → (len ≡ 0) ⊎ (max (max s.alignment elem_align) elem_align ≤ d)
      → (len ≡ 0) ⊎ (s.alignment ≤ d)
  asked d (inl nothing) = inl nothing
  asked d (inr large) = inr (omega arith)

  aligned-Honours :
      s.storage ≡ aligned
      → Honours elem_size elem_align len s (zeros_storage host elem_size elem_align len s aligned)
  unfolding zeros_storage zeros_aligned_flags Zeroed
  aligned-Honours there =
      let z = zeroed-Zeroed elem_size elem_align len (max s.alignment elem_align) in
      elim (Result-cases (zeroed elem_size elem_align len (max s.alignment elem_align))) [
        | inr (e, failed) ↦ simp (zeros_aligned_flags, failed) (rw failed at z)
        | inl (st, made) ↦
            let (kind, size, asked_for, alignment) = rw made at z in
            elim (Bool-cases (s.mlock && not (len == 0) && not host.locks)) [
              | inl refused ↦ simp (zeros_aligned_flags, made, refused) (λ e. absurd (cc))
              | inr lockable ↦
                  simp (zeros_aligned_flags, made, lockable)
                    (
                      kind ∙ sym there,
                      size,
                      asked st.alignment asked_for,
                      alignment,
                      refl,
                      refl,
                      refl,
                    )
            ]
      ]

  vec-Honours :
      s.storage ≡ vec
      → has_modifiers s ≡ false
      → Honours elem_size elem_align len s (zeros_storage host elem_size elem_align len s vec)
  unfolding zeros_storage
  vec-Honours there sane =
      let (unaligned, small, unlocked) = unmodified s sane in
      elim (Bool-cases (leb (2 ^ 63) (len * elem_size))) [
        | inl wide ↦ simp (zeros_storage, sane, wide) (there, ground arith)
        | inr sized ↦
            simp (zeros_storage, sane, sized)
              (
                sym there,
                refl,
                inr (omega (arith, unaligned)),
                omega arith,
                refl,
                simp small refl,
                simp unlocked refl,
              )
      ]

  cuda_pinned-Honours :
      s.storage ≡ cuda_pinned
      → Honours elem_size elem_align len s
          (zeros_storage host elem_size elem_align len s cuda_pinned)
  unfolding zeros_storage
  cuda_pinned-Honours there = elim (Bool-cases (has_modifiers s)) [
    | inl modified ↦ simp (zeros_storage, modified) (λ e. absurd (cc))
    | inr plain ↦
        let (unaligned, small, unlocked) = unmodified s plain in
        elim (Bool-cases host.cuda) [
          | inr without ↦ simp (zeros_storage, plain, without) (λ e. absurd (cc))
          | inl with_cuda ↦ elim (Bool-cases host.pins) [
            | inr failed ↦ simp (zeros_storage, plain, with_cuda, failed) (λ e. absurd (cc))
            | inl pinned ↦
                simp (zeros_storage, plain, with_cuda, pinned)
                  (
                    sym there,
                    refl,
                    inr (omega (arith, unaligned)),
                    omega arith,
                    refl,
                    simp small refl,
                    simp unlocked refl,
                  )
          ]
        ]
  ]

  storage-Honours :
      (b : BufferStorage)
      → s.storage ≡ b
      → Sane s
      → Honours elem_size elem_align len s (zeros_storage host elem_size elem_align len s b)
  unfolding Sane
  storage-Honours vec there sane = vec-Honours there (sane there)
  storage-Honours aligned there sane = aligned-Honours there
  storage-Honours cuda_pinned there sane = cuda_pinned-Honours there

zeros_with_ok :
    (host : Host) (elem_size elem_align : ℕ) (shape : List ℤ) (n : ℕ) (spec : BufferSpec)
    → checked_element_count shape ≡ ok n
    → ltb (n * elem_size) usize_mod ≡ true
    → zeros_with host elem_size elem_align shape spec
      ≡ zeros_storage host elem_size elem_align n
          (resolve spec (n * elem_size))
          (resolve spec (n * elem_size)).storage
unfolding zeros_with
zeros_with_ok host elem_size elem_align shape n spec counted sized =
    rw (zeros_with, counted, sized) refl

-- For a spec made by the constructors and modifiers, the modifiers are never refused as those of plain
-- storage, and what is allocated has what the resolved spec asks for: its kind of storage, as many
-- elements as the shape, the element's alignment, the spec's where there is an element, and each
-- modifier that it has and no other, but that a tensor without elements is not touched, advised or
-- locked (nor is one without bytes advised). The call panics only for plain storage of at least
-- `2 ^ 63` bytes.
pub zeros_with_lem :
    (host : Host) (elem_size elem_align : ℕ) (shape : List ℤ) (spec : BufferSpec)
    → Built spec
    → Honours elem_size elem_align
        (product shape)
        (resolve spec (product shape * elem_size))
        (zeros_with host elem_size elem_align shape spec)
unfolding zeros_with
zeros_with_lem host elem_size elem_align shape spec built =
    elim (Result-cases (checked_element_count shape)) [
      | inr (e, failed) ↦ simp (zeros_with, failed) (λ e. absurd (cc))
      | inl (n, counted) ↦
          let same = ((checked_element_count_iff shape n).0 counted).1 in
          let exact = counted ∙ ap ok same in
          elim (Bool-cases (ltb (product shape * elem_size) usize_mod)) [
            | inr wide ↦ rw (zeros_with, exact, wide) (λ e. absurd (cc))
            | inl sized ↦ rw (zeros_with_ok host elem_size elem_align shape _ spec exact sized) (
                storage-Honours host elem_size elem_align (product shape)
                  (resolve spec (product shape * elem_size)) _ refl
                  (resolve-Sane spec (product shape * elem_size) (Built-Sane built)))
          ]
    ]
