-- ===== src/Spsc/Release.antt =====
-- `Drop for Inner`: which elements are dropped when both halves are gone.
use st_zrt.Common.{
  ℕ, zero, suc, ◌+◌, ◌-◌, ◌^◌, ◌≡◌, refl, Option, none, some, List, [], ◌∷◌, bit_and, arith, length,
  get_elem?, usize_mod, leb, if◌then◌else◌, Bool-cases, inl, inr, and_mask,
}
use st_zrt.Spsc.Queue.{Fifo}
use st_zrt.Spsc.Represents.{Represents, Holds, pow-le-half}
use st_zrt.Spsc.{Inner, Slot}

module _ {ℓ} {A : Type ℓ} where
  -- `for idx in head..tail`, with `n` rounds left: the values dropped, oldest first. `none` is a
  -- panic, or the drop of a slot that holds no value.
  pub drop_slots : List (Slot A) → ℕ → ℕ → ℕ → Option (List A)
  drop_slots slots mask idx zero = some []
  drop_slots slots mask idx (suc n) =
      let rest = drop_slots slots mask (suc idx) n in
      elim (get_elem? slots (bit_and idx mask)) [
        | none ↦ none
        | some none ↦ none
        | some (some v) ↦ elim rest [ none ↦ none | some vs ↦ some (v ∷ vs) ]
      ]

  -- A range whose start is not below its end is empty: `-` stops at 0.
  pub drop_inner : Inner A → Option (List A)
  unfolding drop_slots
  drop_inner q = drop_slots q.slots q.mask q.head (q.tail - q.head)

  drop_slots_lem :
      (slots : List (Slot A)) (k p : ℕ) (xs : List A)
      → Holds slots (2 ^ k) p xs
      → drop_slots slots (2 ^ k - 1) p (length xs) ≡ some xs
  unfolding drop_slots
  drop_slots_lem slots k p [] h = refl
  drop_slots_lem slots k p (x ∷ xs) h =
      rw (drop_slots, and_mask k p, h.0, drop_slots_lem slots k (suc p) xs h.1)

  -- Dropping a ring that represents a FIFO drops exactly the elements that it still holds, in order,
  -- as long as the counters have not wrapped between them; if `tail` has wrapped past `head`, nothing
  -- is dropped.
  pub drop_inner_lem :
      {k : ℕ} {q : Inner A} {f : Fifo A}
      → Represents k q f
      → drop_inner q ≡ some (if leb usize_mod (q.head + length f.items) then [] else f.items)
  unfolding drop_inner
  drop_inner_lem {k} {q} {f} r = elim (Bool-cases (leb usize_mod (q.head + length f.items))) [
    | inl wrapped ↦
        let none_left : q.tail - q.head ≡ 0 =
          ground (arith, r.tail_at, r.head_in, r.fits, pow-le-half k r.small) in
        rw (wrapped, none_left)
    | inr straight ↦
        let all_left : q.tail - q.head ≡ length f.items = ground (arith, r.tail_at) in
        rw (straight, all_left, r.masked) (drop_slots_lem q.slots k q.head f.items r.holds)
  ]
