-- ===== src/Spsc/Threads/Safety.antt =====
-- What holds in every reachable state of the interleaved ring.
use st_zrt.Common.{
  ℕ, ◌+◌, ◌%◌, ◌^◌, ◌≤◌, ◌<◌, ◌≡◌, ◌≢◌, none, some, List, [], ◌++◌, length, bit_and, arith, inl,
  inr, get_elem?, ap, ◌∙◌, sym, set, lt→ltb, List-cases, append_assoc, length-append,
}
use st_zrt.Spsc.{Inner, write_slot, take_slot}
use st_zrt.Spsc.Represents.{Represents, ahead_ne}
use st_zrt.Spsc.Create.{empty_fifo}
use st_zrt.Spsc.Threads.{System, room, reading, Reach, here, later, Step, sends, receives, Event}
use st_zrt.Spsc.Threads.Invariant.{
  Inv, held, claims, start-Inv, tail_slot, tail_low, head_slot, slot_in,
}
use st_zrt.Spsc.Threads.Send.{SenderStep-Inv}
use st_zrt.Spsc.Threads.Receive.{ReceiverStep-Inv, oldest_readable}

module _ {ℓ} {A : Type ℓ} where
  Step-Inv :
      {k : ℕ} {s t : System A} {e : Event A} {xs : List A}
      → Inv k s xs
      → Step s e t
      → (ys : List A) × Inv k t ys
  Step-Inv inv (sends st) = SenderStep-Inv inv st
  Step-Inv inv (receives st) = ReceiverStep-Inv inv st

  pub Reach-Inv :
      {k : ℕ} {q : Inner A} {s : System A}
      → Represents k q empty_fifo
      → Reach q s
      → (xs : List A) × Inv k s xs
  Reach-Inv r here = ([], start-Inv r)
  Reach-Inv r (later p st) = let (xs, inv) = Reach-Inv r p in Step-Inv inv st

  -- However the two threads interleave on a ring that starts empty, the elements delivered are the
  -- first elements published, in the order in which they were published, and the rest of those
  -- published number at most the capacity.
  pub interleaved_fifo :
      {k : ℕ} {q : Inner A} {s : System A}
      → Represents k q empty_fifo
      → Reach q s
      → (rest : List A) × (s.history ≡ s.delivered ++ rest) × (length rest ≤ 2 ^ k)
  interleaved_fifo {s = s} r p =
      let (xs, inv) = Reach-Inv r p in
      (
        held s.receiver ++ xs,
        inv.fifo ∙ append_assoc s.delivered (held s.receiver) xs,
        rw (length-append (held s.receiver) xs) inv.fits,
      )

  write_slot-some :
      (q : Inner A) (i : ℕ) (v : A)
      → i < length q.slots
      → write_slot q i (some v) ≡ some (record q { slots = set q.slots i (some v) })
  unfolding write_slot
  write_slot-some q i v lt = rw (lt→ltb i (length q.slots) lt)

  take_slot-some :
      (q : Inner A) (i : ℕ) (v : A)
      → get_elem? q.slots i ≡ some (some v)
      → take_slot q i ≡ some (v, record q { slots = set q.slots i none })
  unfolding take_slot
  take_slot-some q i v e = rw (e, take_slot)

  module _ {k : ℕ} {s : System A} {xs : List A} (inv : Inv k s xs) where
    can_write :
        (v : A)
        → s.sender ≡ room v
        → (q' : Inner A) × (write_slot s.ring (bit_and s.ring.tail s.ring.mask) (some v) ≡ some q')
    can_write v at = (_, write_slot-some s.ring _ v (rw (tail_slot inv) (slot_in inv s.ring.tail)))

    can_read :
        s.receiver ≡ reading
        → (x : A) × (q' : Inner A) × (take_slot s.ring (bit_and s.ring.head s.ring.mask)
            ≡ some (x, q'))
    can_read at = elim (List-cases xs) [
      | inl none_left ↦ absurd (inv.available at none_left)
      | inr (x, ys, split) ↦ (x, _, take_slot-some s.ring _ x (oldest_readable inv x ys at split))
    ]

    apart :
        (v : A)
        → s.sender ≡ room v
        → s.receiver ≡ reading
        → bit_and s.ring.tail s.ring.mask ≢ bit_and s.ring.head s.ring.mask
    apart v sends_at at same = elim (List-cases xs) [
      | inl none_left ↦ inv.available at none_left
      | inr (x, ys, split) ↦
          ahead_ne (2 ^ k) s.ring.head 0 (length (held s.receiver) + length xs)
            (omega (arith, ap length split)) (omega (arith, inv.space (ap claims sends_at)))
            (ap (λ t. t % 2 ^ k) (omega arith)
              ∙ sym (head_slot inv)
              ∙ sym same
              ∙ tail_slot inv
              ∙ tail_low inv)
    ]

  -- However the two threads interleave on a ring that starts empty: a sender that is about to write
  -- has a slot in range, a receiver that is about to read finds a value in its slot, and when both
  -- are about to do so the slots differ.
  pub slots_race_free :
      {k : ℕ} {q : Inner A} {s : System A}
      → Represents k q empty_fifo
      → Reach q s
      → ((v : A)
          → s.sender ≡ room v
          → (q' : Inner A) × (write_slot s.ring (bit_and s.ring.tail s.ring.mask) (some v)
              ≡ some q'))
        × (s.receiver ≡ reading
            → (x : A) × (q' : Inner A) × (take_slot s.ring (bit_and s.ring.head s.ring.mask)
                ≡ some (x, q')))
        × ((v : A)
            → s.sender ≡ room v
            → s.receiver ≡ reading
            → bit_and s.ring.tail s.ring.mask ≢ bit_and s.ring.head s.ring.mask)
  slots_race_free r p = let (xs, inv) = Reach-Inv r p in (can_write inv, can_read inv, apart inv)
