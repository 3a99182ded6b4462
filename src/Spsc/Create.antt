-- ===== src/Spsc/Create.antt =====
-- `Inner::new`: the capacity that spsc.rs allocates and the empty queue that it starts with.
use native.Mathlib.Nat.{pow-le-pow_right}
use st_zrt.Common.{
  ℕ, zero, suc, ◌+◌, ◌*◌, ◌^◌, Option, ◌⊎◌, ◌≤◌, ◌<◌, ◌≡◌, refl, inl, inr, true, false, none, some,
  [], arith, length-replicate, leb, Bool-cases, pow-pos, lt→ltb, ℕ_discrete, dec_lt,
}
use st_zrt.Spsc.Queue.{Fifo}
use st_zrt.Spsc.Represents.{Represents}
use st_zrt.Spsc.{Inner, next_power_from, fresh, new}

abbrev pub empty_fifo {ℓ} : {A : Type ℓ} → Fifo A
empty_fifo = record { items = []; sender_closed = false; receiver_closed = false }

fuel_left : (fuel k n : ℕ) → k + suc fuel ≡ 64 → n ≤ 2 ^ 63 → 2 ^ k < n → 0 < fuel
fuel_left fuel k n e h below = elim (dec_lt k 63) [
  | yes early ↦ omega arith
  | no late ↦
      absurd (omega (arith, pow-le-pow_right {n = 2} (omega arith) {i = 63} {j = k} (omega arith)))
]

-- The least exponent from `k` on whose power is not below `n`.
next_power_from_lem :
    (fuel k n : ℕ)
    → k + fuel ≡ 64
    → 0 < fuel
    → n ≤ 2 ^ 63
    → (j : ℕ) × (next_power_from fuel k n ≡ some (2 ^ j))
      × (j ≤ 63)
      × (n ≤ 2 ^ j)
      × ((i : ℕ) → k ≤ i → i < j → 2 ^ i < n)
unfolding next_power_from
next_power_from_lem zero k n e pos h = absurd (omega arith)
next_power_from_lem (suc fuel) k n e pos h = elim (Bool-cases (leb n (2 ^ k))) [
  | inl fits ↦ (k, rw fits, omega arith, ground arith, λ i a b. absurd (omega arith))
  | inr small ↦
      let below : 2 ^ k < n = ground arith in
      let (j, found, top, above, least) =
        next_power_from_lem fuel (suc k) n (omega arith) (fuel_left fuel k n e h below) h in
      (
        j,
        rw small found,
        top,
        above,
        λ i a b. elim (ℕ_discrete i k) [
          | yes same ↦ rw same below
          | no other ↦ least i (omega arith) b
        ],
      )
]

leb→le : {a b : ℕ} → leb a b ≡ true → a ≤ b
leb→le e = ground arith

not_leb→lt : {a b : ℕ} → leb a b ≡ false → b < a
not_leb→lt e = ground arith

module _ {ℓ} {A : Type ℓ} where
  pub fresh-Represents :
      (j spins : ℕ) → j ≤ 63 → Represents {A = A} j (fresh (2 ^ j) spins) empty_fifo
  fresh-Represents j spins h = record {
    small = h;
    size = length-replicate (2 ^ j) none;
    masked = refl;
    head_in = omega arith;
    tail_at = omega arith;
    fits = omega (arith, pow-pos j);
    holds = tt;
    sender = refl;
    receiver = refl;
  }

  -- What `new` does with slots of that size when the capacity is `2 ^ j`.
  abbrev pub Made : (j slot_size : ℕ) → Option (Inner A) → (Inner A → Type ℓ) → Type ℓ
  Made j slot_size made Post =
      ((2 ^ 63 ≤ 2 ^ j * slot_size) × (made ≡ none))
      ⊎ ((2 ^ j * slot_size < 2 ^ 63) × (q : Inner A) × (made ≡ some q) × Post q)

  -- A capacity from 1 to `2 ^ 63` is rounded up to the least power of two that is not below it, and
  -- the ring starts with the empty open queue, if its slots have less than `2 ^ 63` bytes.
  pub new-Represents :
      (slot_size n spins : ℕ)
      → 0 < n
      → n ≤ 2 ^ 63
      → (j : ℕ) × (n ≤ 2 ^ j)
        × ((i : ℕ) → i < j → 2 ^ i < n)
        × Made j slot_size (new slot_size n spins) (λ q. Represents j q empty_fifo)
  unfolding new
  new-Represents slot_size n spins pos h =
      let (j, found, top, above, least) = next_power_from_lem 64 0 n refl (omega arith) h in
      (
        j,
        above,
        λ i lt. least i (omega arith) lt,
        elim (Bool-cases (leb (2 ^ 63) (2 ^ j * slot_size))) [
          | inl wide ↦ inl (leb→le wide, rw (lt→ltb 0 n pos, found, wide) refl)
          | inr sized ↦ inr (
            not_leb→lt sized,
            fresh (2 ^ j) spins,
            rw (lt→ltb 0 n pos, found, sized) refl,
            fresh-Represents j spins top,
          )
        ],
      )
