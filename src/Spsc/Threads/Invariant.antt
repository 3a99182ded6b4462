-- ===== src/Spsc/Threads/Invariant.antt =====
-- The invariant of the interleaved ring.
use st_zrt.Common.{
  ℕ, ◌+◌, ◌-◌, ◌%◌, ◌^◌, ◌≤◌, ◌<◌, ◌≡◌, some, List, [], ◌∷◌, ◌++◌, length, get_elem?, usize_mod,
  ◌≢◌, arith, refl, bit_and, and_mask, low_bits_of_word, ap, ◌∙◌, pow-pos, Bool, true, false,
}
use st_zrt.Spsc.{Inner}
use native.Mathlib.Nat.{mod-lt}
use st_zrt.Spsc.Represents.{Holds, Represents, ahead_ne}
use st_zrt.Spsc.Create.{empty_fifo}
use st_zrt.Spsc.Threads.{
  System, SenderAt, opened, room, written, ReceiverAt, maybe_empty, reading, taken, start,
}

module _ {ℓ} {A : Type ℓ} where
  -- The value that the receiver has moved out and not yet released.
  abbrev pub held : ReceiverAt A → List A
  held ReceiverAt.idle = []
  held maybe_empty = []
  held reading = []
  held (taken v) = v ∷ []

  -- Whether the sender has seen room that it has not used up yet.
  abbrev pub claims : SenderAt A → Bool
  claims SenderAt.idle = false
  claims (opened v) = false
  claims (room v) = true
  claims (written v) = true

  -- `xs` are the elements published and not yet read.
  pub record Inv (k : ℕ) (s : System A) (xs : List A) : Type ℓ where
    pub small : k ≤ 63
    pub size : length s.ring.slots ≡ 2 ^ k
    pub masked : s.ring.mask ≡ 2 ^ k - 1
    pub head_in : s.ring.head < usize_mod
    pub tail_at : s.ring.tail ≡ (s.ring.head + (length (held s.receiver) + length xs)) % usize_mod
    pub fits : length (held s.receiver) + length xs ≤ 2 ^ k
    pub holds : Holds s.ring.slots (2 ^ k) (s.ring.head + length (held s.receiver)) xs
    pub space : claims s.sender ≡ true → length (held s.receiver) + length xs < 2 ^ k
    pub stored :
        (v : A)
        → s.sender ≡ written v
        → get_elem? s.ring.slots (s.ring.tail % 2 ^ k) ≡ some (some v)
    pub available : s.receiver ≡ reading → xs ≢ []
    pub fifo : s.history ≡ s.delivered ++ held s.receiver ++ xs

  pub start-Inv : {k : ℕ} {q : Inner A} → Represents k q empty_fifo → Inv k (start q) []
  start-Inv r = record {
    small = r.small;
    size = r.size;
    masked = r.masked;
    head_in = r.head_in;
    tail_at = r.tail_at;
    fits = omega arith;
    holds = tt;
    space = λ e. absurd (cc);
    stored = λ v e. absurd (cc);
    available = λ e. absurd (cc);
    fifo = refl;
  }

  module _ {k : ℕ} {s : System A} {xs : List A} (inv : Inv k s xs) where
    abbrev occupied : ℕ
    occupied = length (held s.receiver) + length xs

    pub tail_low : s.ring.tail % 2 ^ k ≡ (s.ring.head + occupied) % 2 ^ k
    tail_low =
        rw inv.tail_at (low_bits_of_word k (s.ring.head + occupied) (omega (arith, inv.small)))

    pub tail_slot : bit_and s.ring.tail s.ring.mask ≡ s.ring.tail % 2 ^ k
    tail_slot = rw inv.masked (and_mask k s.ring.tail)

    pub head_slot : bit_and s.ring.head s.ring.mask ≡ s.ring.head % 2 ^ k
    head_slot = rw inv.masked (and_mask k s.ring.head)

    pub slot_in : (a : ℕ) → a % 2 ^ k < length s.ring.slots
    slot_in a = rw inv.size (mod-lt a (pow-pos k))

    -- The two threads' slots: nothing published is where the sender writes.
    pub away_from_tail :
        length (held s.receiver) + length xs < 2 ^ k
        → (j : ℕ) → j < length xs
        → (s.ring.head + length (held s.receiver) + j) % 2 ^ k ≢ (s.ring.head + occupied) % 2 ^ k
    away_from_tail lt j below same =
        ahead_ne (2 ^ k) s.ring.head (length (held s.receiver) + j) occupied (omega arith)
          (omega arith) (ap (λ t. t % 2 ^ k) (omega arith) ∙ same)
