-- ===== src/Spsc/Threads/Receive.antt =====
-- Every step of the receiver keeps the invariant of the interleaved ring.
use native.Mathlib.Nat.{mod-lt}
use st_zrt.Common.{
  ℕ, suc, ◌+◌, ◌%◌, ◌^◌, ◌<◌, ◌≡◌, none, some, List, [], ◌∷◌, ◌++◌, length, get_elem?, ◌≢◌, arith,
  bit_and, low_bits_of_word, ap, ◌∙◌, sym, true, false, set, append_assoc, length-set,
  get_elem?-set_ne, inl, inr, wrapping_add, subst, List-cases, ◌==◌, append-nil,
}
use st_zrt.Spsc.{Inner, take_slot}
use st_zrt.Spsc.Represents.{Holds, Holds-mod, Holds-set_ne, ahead_ne}
use st_zrt.Spsc.Threads.{
  System, written, ReceiverAt, maybe_empty, reading, taken, ReceiverStep, Event,
}
use st_zrt.Spsc.Threads.Invariant.{Inv, held, claims, tail_low, head_slot}

module _ {ℓ} {A : Type ℓ} where
  take_slot-eq_some :
      (q : Inner A) (i : ℕ) {v : A} {q' : Inner A}
      → take_slot q i ≡ some (v, q')
      → (get_elem? q.slots i ≡ some (some v)) × (record q { slots = set q.slots i none } ≡ q')
  unfolding take_slot
  take_slot-eq_some q i e = ground arith

module _ {ℓ} {A : Type ℓ} {k : ℕ} {s : System A} {xs : List A} (inv : Inv k s xs) where
  -- A move of the receiver that stores nothing and holds what it held.
  receiver_moves :
      (p : ReceiverAt A)
      → held p ≡ held s.receiver
      → (p ≡ reading → xs ≢ [])
      → Inv k (record s { receiver = p }) xs
  receiver_moves p same more = record {
    small = inv.small;
    size = inv.size;
    masked = inv.masked;
    head_in = inv.head_in;
    tail_at = rw same inv.tail_at;
    fits = rw same inv.fits;
    holds = rw same inv.holds;
    space = rw same inv.space;
    stored = inv.stored;
    available = more;
    fifo = rw same inv.fifo;
  }

  nonempty : s.receiver ≡ ReceiverAt.idle → (s.ring.head == s.ring.tail) ≡ false → xs ≢ []
  nonempty at e n =
      let holds_none : length (held s.receiver) ≡ 0 = ap (λ r. length (held r)) at in
      let left_none : length xs ≡ 0 = ap length n in
      ground (arith, inv.tail_at, inv.head_in, holds_none, left_none)

  module _ (v : A) (ys : List A) (at : s.receiver ≡ reading) (split : xs ≡ v ∷ ys) where
    held_none : length (held s.receiver) ≡ 0
    held_none = ap (λ r. length (held r)) at

    one_more : length xs ≡ suc (length ys)
    one_more = ap length split

    rest-Holds : Holds s.ring.slots (2 ^ k) (suc s.ring.head) ys
    rest-Holds =
        let all =
          subst (Holds s.ring.slots (2 ^ k) (s.ring.head + length (held s.receiver))) split
            inv.holds in
        Holds-mod s.ring.slots (2 ^ k) _ (suc s.ring.head) ys
          (ap (λ t. t % 2 ^ k) (omega (arith, held_none))) all.1

    read-Inv :
        Inv k
          (record s {
            ring = record (s.ring) {
              slots = set s.ring.slots (bit_and s.ring.head s.ring.mask) none;
            };
            receiver = taken v;
          })
          ys
    read-Inv = record {
      small = inv.small;
      size = length-set s.ring.slots _ none ∙ inv.size;
      masked = inv.masked;
      head_in = inv.head_in;
      tail_at = omega (arith, inv.tail_at, held_none, one_more);
      fits = omega (arith, inv.fits, held_none, one_more);
      holds =
          Holds-mod _ (2 ^ k) (suc s.ring.head) (s.ring.head + 1) ys
            (ap (λ t. t % 2 ^ k) (omega arith))
            (Holds-set_ne s.ring.slots (2 ^ k) (suc s.ring.head) _ none ys away rest-Holds);
      space = λ e. omega (arith, inv.space e, held_none, one_more);
      stored = λ w e. get_elem?-set_ne s.ring.slots _ _ none (apart w e) ∙ inv.stored w e;
      available = λ e. absurd (cc);
      fifo =
          inv.fifo
          ∙ ap (λ r. s.delivered ++ held r ++ xs) at
          ∙ ap (λ l. s.delivered ++ [] ++ l) split
          ∙ ap (λ l. l ++ v ∷ ys) (append-nil s.delivered)
          ∙ sym (append_assoc s.delivered (v ∷ []) ys);
    }
      where
        away :
            (j : ℕ)
            → j < length ys
            → (suc s.ring.head + j) % 2 ^ k ≢ bit_and s.ring.head s.ring.mask
        away j lt same =
            ahead_ne (2 ^ k) s.ring.head 0 (suc j) (omega arith) (omega (arith, inv.fits, one_more))
              (ap (λ t. t % 2 ^ k) (omega arith)
                ∙ sym (head_slot inv)
                ∙ sym same
                ∙ ap (λ t. t % 2 ^ k) (omega arith))

        apart :
            (w : A) → s.sender ≡ written w → bit_and s.ring.head s.ring.mask ≢ s.ring.tail % 2 ^ k
        apart w e same =
            ahead_ne (2 ^ k) s.ring.head 0 (length (held s.receiver) + length xs)
              (omega (arith, one_more)) (omega (arith, inv.space (ap claims e)))
              (ap (λ t. t % 2 ^ k) (omega arith) ∙ sym (head_slot inv) ∙ same ∙ tail_low inv)

  release-Inv :
      (v : A)
      → s.receiver ≡ taken v
      → Inv k
          (record s {
            ring = record (s.ring) { head = wrapping_add s.ring.head 1 };
            receiver = ReceiverAt.idle;
            delivered = s.delivered ++ v ∷ [];
          })
          xs
  release-Inv v at = record {
    small = inv.small;
    size = inv.size;
    masked = inv.masked;
    head_in = mod-lt (s.ring.head + 1) (omega arith);
    tail_at = omega (arith, inv.tail_at, one);
    fits = omega (arith, inv.fits);
    holds = Holds-mod s.ring.slots (2 ^ k) _ _ xs next inv.holds;
    space = λ e. omega (arith, inv.space e);
    stored = inv.stored;
    available = λ e. absurd (cc);
    fifo =
        inv.fifo
        ∙ ap (λ r. s.delivered ++ held r ++ xs) at
        ∙ ap (λ l. l ++ xs) (sym (append-nil (s.delivered ++ v ∷ [])));
  }
    where
      one : length (held s.receiver) ≡ 1
      one = ap (λ r. length (held r)) at

      next :
          (s.ring.head + length (held s.receiver)) % 2 ^ k
          ≡ (wrapping_add s.ring.head 1 + 0) % 2 ^ k
      next =
          ap (λ t. t % 2 ^ k) (omega (arith, one))
          ∙ sym (low_bits_of_word k (s.ring.head + 1) (omega (arith, inv.small)))
          ∙ ap (λ t. t % 2 ^ k) (omega arith)

  shut-Inv : Inv k (record s { ring = record (s.ring) { receiver_closed = true } }) xs
  shut-Inv = record {
    small = inv.small;
    size = inv.size;
    masked = inv.masked;
    head_in = inv.head_in;
    tail_at = inv.tail_at;
    fits = inv.fits;
    holds = inv.holds;
    space = inv.space;
    stored = inv.stored;
    available = inv.available;
    fifo = inv.fifo;
  }

  -- A receiver that has seen an element finds the oldest unread one in its slot.
  pub oldest_readable :
      (x : A) (ys : List A)
      → s.receiver ≡ reading
      → xs ≡ x ∷ ys
      → get_elem? s.ring.slots (bit_and s.ring.head s.ring.mask) ≡ some (some x)
  oldest_readable x ys at split =
      ap (get_elem? s.ring.slots)
        (head_slot inv ∙ ap (λ t. t % 2 ^ k) (omega (arith, held_none x ys at split)))
      ∙ (subst (Holds s.ring.slots (2 ^ k) (s.ring.head + length (held s.receiver))) split
          inv.holds).0

  -- So what it reads is that element.
  read_oldest :
      (v : A)
      → s.receiver ≡ reading
      → get_elem? s.ring.slots (bit_and s.ring.head s.ring.mask) ≡ some (some v)
      → (ys : List A) × (xs ≡ v ∷ ys)
  read_oldest v at e = elim (List-cases xs) [
    | inl none_left ↦ absurd (inv.available at none_left)
    | inr (x, ys, split) ↦ (ys, split ∙ ap (λ a. a ∷ ys) (cc (oldest_readable x ys at split, e)))
  ]

  -- A step of the receiver keeps the invariant, perhaps with the oldest element read.
  pub ReceiverStep-Inv :
      {e : Event A} {t : System A} → ReceiverStep s e t → (ys : List A) × Inv k t ys
  ReceiverStep-Inv (ReceiverStep.see_empty at c) =
      (xs, receiver_moves maybe_empty (sym (ap held at)) (λ e. absurd (cc)))
  ReceiverStep-Inv (ReceiverStep.see_some at c) =
      (xs, receiver_moves reading (sym (ap held at)) (λ _. nonempty at c))
  ReceiverStep-Inv (ReceiverStep.report_closed at c) =
      (xs, receiver_moves ReceiverAt.idle (sym (ap held at)) (λ e. absurd (cc)))
  ReceiverStep-Inv (ReceiverStep.report_empty at c) =
      (xs, receiver_moves ReceiverAt.idle (sym (ap held at)) (λ e. absurd (cc)))
  ReceiverStep-Inv (ReceiverStep.read v q at c) =
      let (got, same) = take_slot-eq_some s.ring _ c in
      let (ys, split) = read_oldest v at got in
      let P = λ (r : Inner A). Inv k (record s { ring = r; receiver = taken v }) ys in
      (ys, subst P same (read-Inv v ys at split))
  ReceiverStep-Inv (ReceiverStep.release v at) = (xs, release-Inv v at)
  ReceiverStep-Inv (ReceiverStep.shut at) = (xs, shut-Inv)
