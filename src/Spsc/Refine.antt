-- ===== src/Spsc/Refine.antt =====
-- The try operations of spsc.rs do to the ring what `Queue` does to the queue that it holds.
use native.Mathlib.Nat.{mod-lt, mod-add-mod}
use st_zrt.Common.{
  ℕ, suc, ◌+◌, ◌%◌, ◌^◌, ◌≤◌, ◌<◌, ◌≡◌, sym, ap, ◌∙◌, ◌≢◌, inl, inr, true, false, none, some, List,
  [], ◌∷◌, ◌++◌, bit_and, arith, length, length-append, get_elem?, set, length-set,
  get_elem?-set_self, low_bits_of_word, usize_mod, wrapping_add, ltb, lt→ltb, ◌==◌, if◌then◌else◌,
  ◌||◌, ok, err, Bool-cases, List-cases, subst,
}
use st_zrt.Spsc.Queue.{Fifo, push, pop}
use st_zrt.Spsc.Represents.{
  Represents, Holds, Holds-mod, Holds-set_ne, Holds-append, ahead_ne, pow-le-half, len_lem,
  tail_slot, head_slot, slot_in,
}
use st_zrt.Spsc.{Inner, TryRecvError, empty, len, try_send, try_recv}

module _ {ℓ} {A : Type ℓ} {k : ℕ} {q : Inner A} {f : Fifo A} (r : Represents k q f) where
  -- The ring after a write at the tail.
  abbrev pub sent : A → Inner A
  sent v = record q {
    slots = set q.slots (bit_and q.tail q.mask) (some v);
    tail = wrapping_add q.tail 1;
  }

  pub sent-Represents :
      (v : A)
      → length f.items < 2 ^ k
      → Represents k (sent v) (record f { items = f.items ++ v ∷ [] })
  sent-Represents v room = record {
    small = r.small;
    size = length-set q.slots (bit_and q.tail q.mask) (some v) ∙ r.size;
    masked = r.masked;
    head_in = r.head_in;
    tail_at =
        rw (r.tail_at, length-append f.items (v ∷ []))
          (mod-add-mod (q.head + length f.items) usize_mod 1
            ∙ ap (λ t. t % usize_mod) (omega arith));
    fits = rw (length-append f.items (v ∷ [])) (omega arith);
    holds = rw (tail_slot r) (
        Holds-append _ (2 ^ k) q.head v f.items
          (Holds-set_ne q.slots (2 ^ k) q.head _ (some v) f.items
            (λ j lt. ahead_ne (2 ^ k) q.head j (length f.items) lt (omega arith)) r.holds)
          (get_elem?-set_self q.slots _ (some v) (slot_in r _)));
    sender = r.sender;
    receiver = r.receiver;
  }

  pub tail_slot-lt : ltb (bit_and q.tail q.mask) (length q.slots) ≡ true
  tail_slot-lt = lt→ltb _ _ (rw (tail_slot r) (slot_in r (q.head + length f.items)))

  -- On a ring that represents a bounded FIFO, `try_send` answers as the FIFO does and leaves the ring
  -- representing what the FIFO then is; it never panics.
  pub try_send_refines :
      (v : A)
      → (q' : Inner A) × (try_send q v ≡ some (q', (push (2 ^ k) f v).1))
        × Represents k q' (push (2 ^ k) f v).0
  unfolding try_send push len
  try_send_refines v = elim (Bool-cases (f.sender_closed || f.receiver_closed)) [
    | inl shut ↦ (q, rw (r.sender, r.receiver, shut), rw shut r)
    | inr opened ↦ elim (Bool-cases (length f.items == 2 ^ k)) [
      | inl filled ↦
          (q, rw (r.sender, r.receiver, opened, len_lem r, r.size, filled), rw (opened, filled) r)
      | inr room ↦ (
        sent v,
        rw (r.sender, r.receiver, opened, len_lem r, tail_slot-lt, r.size, room),
        rw (opened, room) (sent-Represents v (ground (arith, r.fits))),
      )
    ]
  ]

  -- The ring after the element at the head has been moved out.
  abbrev pub received : Inner A
  received = record q {
    slots = set q.slots (bit_and q.head q.mask) none;
    head = wrapping_add q.head 1;
  }

  module _ (x : A) (xs : List A) (e : f.items ≡ x ∷ xs) where
    head-Holds : Holds q.slots (2 ^ k) q.head (x ∷ xs)
    head-Holds = subst (Holds q.slots (2 ^ k) q.head) e r.holds

    fits_cons : length xs + 1 ≤ 2 ^ k
    fits_cons = ground (arith, r.fits)

    pub head_slot_holds : get_elem? q.slots (bit_and q.head q.mask) ≡ some (some x)
    head_slot_holds = rw (head_slot r) head-Holds.0

    pub head-ne-tail : (q.head == q.tail) ≡ false
    head-ne-tail = ground (arith, len_lem r, r.tail_at, r.head_in, fits_cons, pow-le-half k r.small)

    pub received-Represents : Represents k received (record f { items = xs })
    received-Represents = record {
      small = r.small;
      size = length-set q.slots (bit_and q.head q.mask) none ∙ r.size;
      masked = r.masked;
      head_in = mod-lt (q.head + 1) (omega arith);
      tail_at =
          r.tail_at
          ∙ ap (λ ys. (q.head + length ys) % usize_mod) e
          ∙ ap (λ t. t % usize_mod) (omega arith)
          ∙ sym (mod-add-mod (q.head + 1) usize_mod (length xs));
      fits = omega (arith, fits_cons);
      holds = rw (head_slot r) (
          Holds-mod _ (2 ^ k) (suc q.head) (wrapping_add q.head 1) xs next
            (Holds-set_ne q.slots (2 ^ k) (suc q.head) _ none xs away head-Holds.1));
      sender = r.sender;
      receiver = r.receiver;
    }
      where
        next : suc q.head % 2 ^ k ≡ wrapping_add q.head 1 % 2 ^ k
        next =
            ap (λ t. t % 2 ^ k) (omega arith)
            ∙ sym (low_bits_of_word k (q.head + 1) (omega (arith, r.small)))

        away : (j : ℕ) → j < length xs → (suc q.head + j) % 2 ^ k ≢ q.head % 2 ^ k
        away j lt same =
            ahead_ne (2 ^ k) q.head 0 (suc j) (omega arith) (omega (arith, fits_cons))
              (ap (λ t. t % 2 ^ k) (omega arith) ∙ sym same ∙ ap (λ t. t % 2 ^ k) (omega arith))

    pub try_recv-some : try_recv q ≡ some (received, ok x)
    unfolding try_recv
    try_recv-some = rw (head-ne-tail, head_slot_holds)

  pub head-eq-tail : f.items ≡ [] → (q.head == q.tail) ≡ true
  head-eq-tail e = ground (arith, r.tail_at, r.head_in)

  try_recv-none :
      f.items ≡ []
      → try_recv q ≡ some (q, err (if f.sender_closed then TryRecvError.closed else empty))
  unfolding try_recv
  try_recv-none e = ground (arith, r.sender, r.tail_at, r.head_in)

  -- On a ring that represents a bounded FIFO, `try_recv` answers as the FIFO does and leaves the ring
  -- representing what the FIFO then is; it never reads a slot that holds no value.
  pub try_recv_refines :
      (q' : Inner A) × (try_recv q ≡ some (q', (pop f).1)) × Represents k q' (pop f).0
  unfolding pop
  try_recv_refines = elim (List-cases f.items) [
    | inl e ↦ (q, simp e (try_recv-none e), simp e r)
    | inr (x, xs, e) ↦ (received, rw e (try_recv-some x xs e), rw e (received-Represents x xs e))
  ]
