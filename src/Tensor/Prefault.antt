-- ===== src/Tensor/Prefault.antt =====
-- `prefault_slice` of tensor.rs: the elements that it reads and writes back, one per page.
use mathlib.Core.List.{Mem, mem-cons_self, mem-cons_of_mem, mem-append_left, mem-append_right}
use native.Mathlib.Nat.{
  add-mul, div-div-eq-div-mul, mul_comm, mul-div-mul_right, add-mul-div_right, mul-div_left,
  div-mul-le_self, le-div_iff_mul-le, mul-one, mul-le-mul_left, add-zero, zero-mul, zero-add,
  suc-mul, mul-add-div_right, div-lt_iff_lt-mul,
}
use st_zrt.Common.{
  ℕ, zero, suc, ◌+◌, ◌-◌, ◌*◌, ◌/◌, ◌≤◌, ◌<◌, ◌≡◌, refl, sym, ap, ◌∙◌, true, false, Bool-cases,
  Option, none, some, List, [], ◌∷◌, ◌++◌, ◌==◌, if◌then◌else◌, ltb, ltb→lt, lt→ltb, ltb→ge, max,
  arith, inl, inr,
}

-- `(i..len).step_by(stride)`.
unfoldable pub step_by : ℕ → ℕ → ℕ → ℕ → List ℕ
step_by zero i stride len = []
step_by (suc fuel) i stride len = elim (ltb i len) [
  | true ↦ i ∷ step_by fuel (i + stride) stride len
  | false ↦ []
]

-- The page size, 4096 where `sysconf` fails.
abbrev pub page_or_default : Option ℕ → ℕ
page_or_default none = 4096
page_or_default (some page) = page

-- The touched indices, in order. A stride is positive, so that `len` steps are enough.
unfoldable pub prefault_slice : Option ℕ → ℕ → ℕ → List ℕ
unfolding step_by
prefault_slice page_size elem_size len =
    if len == 0
    then []
    else step_by len 0 (max (page_or_default page_size / max elem_size 1) 1) len ++ (len - 1) ∷ []

abbrev pub AllBelow : ℕ → List ℕ → Type 0
AllBelow n [] = Unit
AllBelow n (i ∷ is) = (i < n) × AllBelow n is

AllBelow-append : (n : ℕ) (is js : List ℕ) → AllBelow n is → AllBelow n js → AllBelow n (is ++ js)
AllBelow-append n [] js h k = k
AllBelow-append n (i ∷ is) js h k = (h.0, AllBelow-append n is js h.1 k)

AllBelow-step_by : (fuel i stride len : ℕ) → AllBelow len (step_by fuel i stride len)
unfolding step_by
AllBelow-step_by zero i stride len = tt
AllBelow-step_by (suc fuel) i stride len = elim (Bool-cases (ltb i len)) [
  | inl lt ↦ rw (step_by, lt) (ltb→lt i len lt, AllBelow-step_by fuel (i + stride) stride len)
  | inr ge ↦ rw (step_by, ge) tt
]

step_by-Mem :
    (k fuel i stride len : ℕ)
    → k < fuel
    → i + k * stride < len
    → Mem (i + k * stride) (step_by fuel i stride len)
unfolding step_by
step_by-Mem k zero i stride len h lt = absurd (omega arith)
step_by-Mem zero (suc fuel) i stride len h lt =
    let here : i < len = omega (arith, zero-mul stride, lt) in
    rw (zero-mul, add-zero, step_by, lt→ltb i len here) mem-cons_self
step_by-Mem (suc k) (suc fuel) i stride len h lt =
    let step : suc k * stride ≡ stride + k * stride = omega (arith, suc-mul k stride) in
    let shift : i + suc k * stride ≡ i + stride + k * stride = omega (arith, step) in
    let here : i < len = omega (arith, step, lt) in
    rw (shift, step_by, lt→ltb i len here)
      (mem-cons_of_mem i
        (step_by-Mem k fuel (i + stride) stride len (omega arith) (rw shift at lt)))

div_mono : (s a b : ℕ) → 0 < s → a ≤ b → a / s ≤ b / s
div_mono s a b pos h = (le-div_iff_mul-le pos).1 (omega (arith, div-mul-le_self a s))

-- In elements: a page holds `s` of them, the slice starts at the element `b` of memory.
touched_in_page :
    (s b len y : ℕ)
    → 0 < s
    → y < len
    → (i : ℕ) × Mem i (step_by len 0 s len ++ (len - 1) ∷ [])
      × (i < len)
      × ((b + i) / s ≡ (b + y) / s)
touched_in_page s b len y pos below = elim (Bool-cases (ltb (j * s) len)) [
  | inl lt ↦ (
    j * s,
    mem-append_left _ (
        rw zero-add at
          (step_by-Mem j len 0 s len (j_below (ltb→lt _ _ lt)) (rw zero-add (ltb→lt _ _ lt)))),
    ltb→lt _ _ lt,
    same_page,
  )
  | inr ge ↦ (
    len - 1,
    mem-append_right _ mem-cons_self,
    omega arith,
    between (div_mono s (b + y) (b + (len - 1)) pos (omega arith))
        (div_mono s (b + (len - 1)) (b + j * s) pos (omega (arith, ltb→ge _ _ ge))),
  )
]
  where
    j : ℕ
    j = (b + y) / s - b / s

    same_page : (b + j * s) / s ≡ (b + y) / s
    same_page = add-mul-div_right b j pos ∙ omega (arith, div_mono s b (b + y) pos (omega arith))

    j_below : j * s < len → j < len
    j_below lt = omega (arith, lt, mul-le-mul_left j pos, mul-one j)

    between :
        (b + y) / s ≤ (b + (len - 1)) / s
        → (b + (len - 1)) / s ≤ (b + j * s) / s
        → (b + (len - 1)) / s ≡ (b + y) / s
    between lo hi = omega (arith, lo, hi, same_page)

sliced :
    (page_size : Option ℕ) (per_page elem_size len : ℕ)
    → page_or_default page_size ≡ per_page * elem_size
    → 0 < per_page
    → 0 < elem_size
    → 0 < len
    → prefault_slice page_size elem_size len ≡ step_by len 0 per_page len ++ (len - 1) ∷ []
unfolding prefault_slice
sliced page_size per_page elem_size len paged pos pos' some_left =
    let sized : max elem_size 1 ≡ elem_size = omega arith in
    let quotient : page_or_default page_size / elem_size ≡ per_page =
      ap (λ t. t / elem_size) paged ∙ mul-div_left per_page pos' in
    let stride : max per_page 1 ≡ per_page = omega arith in
    let nonempty : (len == 0) ≡ false = ground arith in rw (nonempty, sized, quotient, stride) refl

-- Pages in bytes are pages in elements.
page_of_element : (s e b i : ℕ) → 0 < e → (b * e + i * e) / (s * e) ≡ (b + i) / s
page_of_element s e b i pos = rw (← add-mul b i e) (mul-div-mul_right (b + i) s pos)

page_of_byte : (s e b x : ℕ) → 0 < e → (b * e + x) / (s * e) ≡ (b + x / e) / s
page_of_byte s e b x pos =
    ap (λ t. (b * e + x) / t) (mul_comm s e)
    ∙ (sym (div-div-eq-div-mul (b * e + x) e s))
    ∙ ap (λ t. t / s) (mul-add-div_right pos b x)

-- A slice of `len` elements of `elem_size` bytes at an address that its elements divide, where a page
-- is a whole number of elements: every index that is touched is inside the slice, and for every byte
-- of the slice, on its page an element is touched.
pub prefault_slice_lem :
    (page_size : Option ℕ) (per_page elem_size start len x : ℕ)
    → page_or_default page_size ≡ per_page * elem_size
    → 0 < per_page
    → 0 < elem_size
    → x < len * elem_size
    → AllBelow len (prefault_slice page_size elem_size len)
      × (i : ℕ) × Mem i (prefault_slice page_size elem_size len)
      × ((start * elem_size + i * elem_size) / page_or_default page_size
          ≡ (start * elem_size + x) / page_or_default page_size)
unfolding prefault_slice
prefault_slice_lem page_size per_page elem_size start len x paged pos pos' inside =
    let y_below = (div-lt_iff_lt-mul pos').1 inside in
    let nonempty : 0 < len = omega (arith, y_below) in
    let (i, m, below, same) = touched_in_page per_page start len (x / elem_size) pos y_below in
    rw (sliced page_size per_page elem_size len paged pos pos' nonempty, paged)
      (
        AllBelow-append len _ _ (AllBelow-step_by len 0 per_page len) (omega arith, tt),
        i,
        m,
        page_of_element per_page elem_size start i pos'
            ∙ same
            ∙ sym (page_of_byte per_page elem_size start x pos'),
      )
