-- ===== src/Spsc/Threads/Send.antt =====
-- Every step of the sender keeps the invariant of the interleaved ring.
use native.Mathlib.Nat.{mod-add-mod}
use st_zrt.Common.{
  ℕ, ◌+◌, ◌%◌, ◌^◌, ◌<◌, ◌≡◌, some, List, [], ◌∷◌, ◌++◌, length, get_elem?, usize_mod, arith,
  bit_and, ap, ◌∙◌, sym, true, false, set, length-append, append_assoc, length-set,
  get_elem?-set_self, wrapping_add, wrapping_sub, subst, ◌==◌,
}
use st_zrt.Spsc.{Inner, Slot, write_slot, capacity}
use st_zrt.Spsc.Represents.{Holds-append, Holds-set_ne, pow-le-half}
use st_zrt.Spsc.Threads.{System, SenderAt, opened, room, written, SenderStep, Event}
use st_zrt.Spsc.Threads.Invariant.{Inv, held, claims, tail_slot, tail_low, slot_in, away_from_tail}

module _ {ℓ} {A : Type ℓ} where
  write_slot-eq_some :
      (q : Inner A) (i : ℕ) (v : Slot A) {q' : Inner A}
      → write_slot q i v ≡ some q'
      → record q { slots = set q.slots i v } ≡ q'
  unfolding write_slot
  write_slot-eq_some q i v e = ground arith

module _ {ℓ} {A : Type ℓ} {k : ℕ} {s : System A} {xs : List A} (inv : Inv k s xs) where
  -- A move of the sender that stores nothing.
  sender_moves :
      (p : SenderAt A)
      → (claims p ≡ true → length (held s.receiver) + length xs < 2 ^ k)
      → ((v : A) → p ≡ written v → ⊥)
      → Inv k (record s { sender = p }) xs
  sender_moves p space fresh = record {
    small = inv.small;
    size = inv.size;
    masked = inv.masked;
    head_in = inv.head_in;
    tail_at = inv.tail_at;
    fits = inv.fits;
    holds = inv.holds;
    space = space;
    stored = λ v e. absurd (fresh v e);
    available = inv.available;
    fifo = inv.fifo;
  }

  has_room :
      (wrapping_sub s.ring.tail s.ring.head == capacity s.ring) ≡ false
      → length (held s.receiver) + length xs < 2 ^ k
  has_room e = ground (arith, inv.tail_at, inv.size, inv.fits, inv.head_in, pow-le-half k inv.small)

  write-Inv :
      (v : A)
      → s.sender ≡ room v
      → Inv k
          (record s {
            ring = record (s.ring) {
              slots = set s.ring.slots (bit_and s.ring.tail s.ring.mask) (some v);
            };
            sender = written v;
          })
          xs
  write-Inv v at = record {
    small = inv.small;
    size = length-set s.ring.slots _ (some v) ∙ inv.size;
    masked = inv.masked;
    head_in = inv.head_in;
    tail_at = inv.tail_at;
    fits = inv.fits;
    holds =
        Holds-set_ne s.ring.slots (2 ^ k) _ _ (some v) xs
          (λ j lt e. away_from_tail inv left j lt (e ∙ tail_slot inv ∙ tail_low inv)) inv.holds;
    space = λ _. left;
    stored = λ w e.
        rw (tail_slot inv)
          (get_elem?-set_self s.ring.slots (s.ring.tail % 2 ^ k) (some v) (slot_in inv _) ∙ cc);
    available = inv.available;
    fifo = inv.fifo;
  }
    where
      left : length (held s.receiver) + length xs < 2 ^ k
      left = inv.space (ap claims at)

  publish-Inv :
      (v : A)
      → s.sender ≡ written v
      → Inv k
          (record s {
            ring = record (s.ring) { tail = wrapping_add s.ring.tail 1 };
            sender = SenderAt.idle;
            history = s.history ++ v ∷ [];
          })
          (xs ++ v ∷ [])
  publish-Inv v at = record {
    small = inv.small;
    size = inv.size;
    masked = inv.masked;
    head_in = inv.head_in;
    tail_at =
        rw (length-append xs (v ∷ []), inv.tail_at)
          (mod-add-mod _ usize_mod 1 ∙ ap (λ t. t % usize_mod) (omega arith));
    fits = rw (length-append xs (v ∷ [])) (omega (arith, inv.space (ap claims at)));
    holds = Holds-append s.ring.slots (2 ^ k) _ v xs inv.holds last;
    space = λ e. absurd (cc);
    stored = λ w e. absurd (cc);
    available = λ e n. omega (arith, length-append xs (v ∷ []), ap length n);
    fifo = rw (inv.fifo) (append_assoc _ xs (v ∷ []));
  }
    where
      last :
          get_elem? s.ring.slots ((s.ring.head + length (held s.receiver) + length xs) % 2 ^ k)
          ≡ some (some v)
      last =
          ap (get_elem? s.ring.slots) (ap (λ t. t % 2 ^ k) (omega arith) ∙ sym (tail_low inv))
          ∙ inv.stored v at

  shut-Inv : Inv k (record s { ring = record (s.ring) { sender_closed = true } }) xs
  shut-Inv = record {
    small = inv.small;
    size = inv.size;
    masked = inv.masked;
    head_in = inv.head_in;
    tail_at = inv.tail_at;
    fits = inv.fits;
    holds = inv.holds;
    space = inv.space;
    stored = inv.stored;
    available = inv.available;
    fifo = inv.fifo;
  }

  -- A step of the sender keeps the invariant, perhaps with one more element published.
  pub SenderStep-Inv : {e : Event A} {t : System A} → SenderStep s e t → (ys : List A) × Inv k t ys
  SenderStep-Inv (SenderStep.refuse v at c) = (xs, inv)
  SenderStep-Inv (SenderStep.begin v at c) =
      (xs, sender_moves (opened v) (λ e. absurd (cc)) (λ w e. cc))
  SenderStep-Inv (SenderStep.see_full v at c) =
      (xs, sender_moves SenderAt.idle (λ e. absurd (cc)) (λ w e. cc))
  SenderStep-Inv (SenderStep.see_room v at c) =
      (xs, sender_moves (room v) (λ _. has_room c) (λ w e. cc))
  SenderStep-Inv (SenderStep.write v q at c) =
      let P = λ (r : Inner A). Inv k (record s { ring = r; sender = written v }) xs in
      (xs, subst P (write_slot-eq_some s.ring _ (some v) c) (write-Inv v at))
  SenderStep-Inv (SenderStep.publish v at) = (xs ++ v ∷ [], publish-Inv v at)
  SenderStep-Inv (SenderStep.shut at) = (xs, shut-Inv)
