-- ===== src/Spsc/Represents.antt =====
-- When the ring of spsc.rs holds a queue, and what the two try operations do to it.
use native.Mathlib.Nat.{mod-lt, add-zero, suc-mod, pow-le-pow_right}
use st_zrt.Common.{
  ℕ, suc, ◌+◌, ◌-◌, ◌%◌, ◌^◌, ◌≤◌, ◌<◌, ◌≡◌, sym, ap, ◌∙◌, ◌≢◌, some, List, [], ◌∷◌, ◌++◌, bit_and,
  arith, length, get_elem?, set, get_elem?-set_ne, and_mask, low_bits_of_word, pow-pos, usize_mod,
}
use st_zrt.Spsc.Queue.{Fifo}
use st_zrt.Spsc.{Inner, Slot, len}

module _ {ℓ} {A : Type ℓ} where
  -- The slots from position `p` on, going round at `m`, hold `xs`.
  abbrev pub Holds : List (Slot A) → ℕ → ℕ → List A → Type ℓ
  Holds slots m p [] = Unit
  Holds slots m p (x ∷ xs) = (get_elem? slots (p % m) ≡ some (some x)) × Holds slots m (suc p) xs

  -- A ring of `2 ^ k` slots holds the queue `f`, its flags included.
  pub record Represents (k : ℕ) (q : Inner A) (f : Fifo A) : Type ℓ where
    pub small : k ≤ 63
    pub size : length q.slots ≡ 2 ^ k
    pub masked : q.mask ≡ 2 ^ k - 1
    pub head_in : q.head < usize_mod
    pub tail_at : q.tail ≡ (q.head + length f.items) % usize_mod
    pub fits : length f.items ≤ 2 ^ k
    pub holds : Holds q.slots (2 ^ k) q.head f.items
    pub sender : q.sender_closed ≡ f.sender_closed
    pub receiver : q.receiver_closed ≡ f.receiver_closed

  -- The same positions modulo `m` are the same slots.
  pub Holds-mod :
      (slots : List (Slot A)) (m p q : ℕ) (xs : List A)
      → p % m ≡ q % m
      → Holds slots m p xs
      → Holds slots m q xs
  Holds-mod slots m p q [] e h = tt
  Holds-mod slots m p q (x ∷ xs) e h =
      let next = suc-mod p m ∙ ap (λ t. suc t % m) e ∙ sym (suc-mod q m) in
      (rw (← e) h.0, Holds-mod slots m (suc p) (suc q) xs next h.1)

  -- A write outside the window leaves it alone.
  pub Holds-set_ne :
      (slots : List (Slot A)) (m p i : ℕ) (v : Slot A) (xs : List A)
      → ((j : ℕ) → j < length xs → (p + j) % m ≢ i)
      → Holds slots m p xs
      → Holds (set slots i v) m p xs
  Holds-set_ne slots m p i v [] away h = tt
  Holds-set_ne slots m p i v (x ∷ xs) away h = (
    get_elem?-set_ne slots i (p % m) v (λ e. away 0 (omega arith) (rw add-zero (sym e))) ∙ h.0,
    Holds-set_ne slots m (suc p) i v xs
        (λ j lt e. away (suc j) (omega arith) (ap (λ t. t % m) (omega arith) ∙ e)) h.1,
  )

  pub Holds-append :
      (slots : List (Slot A)) (m p : ℕ) (v : A) (xs : List A)
      → Holds slots m p xs
      → get_elem? slots ((p + length xs) % m) ≡ some (some v)
      → Holds slots m p (xs ++ v ∷ [])
  Holds-append slots m p v [] h e = (rw add-zero at e, tt)
  Holds-append slots m p v (x ∷ xs) h e = (
    h.0,
    Holds-append slots m (suc p) v xs h.1 (ap (λ t. get_elem? slots (t % m)) (omega arith) ∙ e),
  )

-- Fewer than `m` steps round the ring do not come back.
pub ahead_ne : (m p i j : ℕ) → i < j → j < i + m → (p + i) % m ≢ (p + j) % m
ahead_ne m p i j h g e = grind arith

-- `2 ^ k` slots leave room in a word for every count of elements.
pub pow-le-half : (k : ℕ) → k ≤ 63 → 2 ^ k ≤ 2 ^ 63
pow-le-half k h = pow-le-pow_right {n = 2} (omega arith) h

module _ {ℓ} {A : Type ℓ} {k : ℕ} {q : Inner A} {f : Fifo A} (r : Represents k q f) where
  -- `tail - head` on wrapped counters is the number of elements.
  pub len_lem : len q ≡ length f.items
  unfolding len
  len_lem = rw r.tail_at (omega (arith, r.head_in, r.fits, pow-le-half k r.small))

  -- The slot that the sender writes and the one that the receiver reads.
  pub tail_slot : bit_and q.tail q.mask ≡ (q.head + length f.items) % 2 ^ k
  tail_slot =
      rw (r.masked, and_mask k q.tail, r.tail_at)
        (low_bits_of_word k (q.head + length f.items) (omega (arith, r.small)))

  pub head_slot : bit_and q.head q.mask ≡ q.head % 2 ^ k
  head_slot = rw r.masked (and_mask k q.head)

  pub slot_in : (a : ℕ) → a % 2 ^ k < length q.slots
  slot_in a = rw r.size (mod-lt a (pow-pos k))
