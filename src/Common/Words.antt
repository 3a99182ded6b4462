-- ===== src/Common/Words.antt =====
-- Machine words, and `x & mask` for a mask of ones as a remainder.
use Prim.Native.Nat.{
  ℕ, zero, suc, ◌+◌, ◌-◌, ◌*◌, ◌/◌, ◌%◌, ◌^◌, ◌≤◌, ◌<◌, ◌∣◌, min, max, bit_and, bit_or, digits,
  bit_and-bitwise, bit_or-bitwise,
}
use mathlib.Core.Path.{◌≡◌, refl, ap}
use mathlib.Core.Option.{Option, none, some}
use native.Mathlib.Omega.{arith}
use native.Mathlib.Nat.{pow-suc, dvd_refl, dvd-mul_right_of_dvd, mod-mod_of_dvd, mod-eq_of_lt}
use native.Mathlib.Decide.{ℕ_discrete}
use st_zrt.Common.Tests.{ltb, if◌then◌else◌}

abbrev pub u32_max : ℕ
u32_max = 2 ^ 32 - 1

abbrev pub usize_mod : ℕ
usize_mod = 2 ^ 64

abbrev pub u128_mod : ℕ
u128_mod = 2 ^ 128

-- `usize::MAX`
abbrev pub usize_max : ℕ
usize_max = 2 ^ 64 - 1

-- `wrapping_add` and `wrapping_sub` on `usize`.
abbrev pub wrapping_add : ℕ → ℕ → ℕ
wrapping_add a b = (a + b) % usize_mod

abbrev pub wrapping_sub : ℕ → ℕ → ℕ
wrapping_sub a b = (a + usize_mod - b) % usize_mod

-- `checked_add` and `checked_mul` in a type with the given modulus.
abbrev pub checked_add : ℕ → ℕ → ℕ → Option ℕ
checked_add modulus a b = if ltb (a + b) modulus then some (a + b) else none

abbrev pub checked_mul : ℕ → ℕ → ℕ → Option ℕ
checked_mul modulus a b = if ltb (a * b) modulus then some (a * b) else none

-- The digit recursion behind `bit_and` and `bit_or` does not depend on its depth, once that is enough.
depth_irrelevant :
    (z : ℕ → ℕ) (f : ℕ → ℕ → ℕ) (n m a b : ℕ) → a ≤ n → a ≤ m → digits z f n a b ≡ digits z f m a b
depth_irrelevant z f zero zero a b p q = refl
depth_irrelevant z f zero (suc m) zero b p q = refl
depth_irrelevant z f zero (suc m) (suc a) b p q = absurd (omega arith)
depth_irrelevant z f (suc n) zero zero b p q = refl
depth_irrelevant z f (suc n) zero (suc a) b p q = absurd (omega arith)
depth_irrelevant z f (suc n) (suc m) zero b p q = refl
depth_irrelevant z f (suc n) (suc m) (suc a) b p q =
    ap (λ (t : ℕ). t * 2 + f (suc a % 2) (b % 2))
      (depth_irrelevant z f n m (suc a / 2) (b / 2) (omega arith) (omega arith))

-- `&` and `|` digit by digit.
pub and_halves : (a b : ℕ) → bit_and a b ≡ bit_and (a / 2) (b / 2) * 2 + min (a % 2) (b % 2)
and_halves zero b = omega (arith, bit_and-bitwise 0 b, bit_and-bitwise 0 (b / 2))
and_halves (suc a) b =
    let deeper =
      depth_irrelevant (λ _. zero) min a (suc a / 2) (suc a / 2) (b / 2) (omega arith)
        (omega arith) in
    omega (arith, bit_and-bitwise (suc a) b, bit_and-bitwise (suc a / 2) (b / 2), deeper)

pub or_halves : (a b : ℕ) → bit_or a b ≡ bit_or (a / 2) (b / 2) * 2 + max (a % 2) (b % 2)
or_halves zero b = omega (arith, bit_or-bitwise 0 b, bit_or-bitwise 0 (b / 2))
or_halves (suc a) b =
    let deeper =
      depth_irrelevant (λ b. b) max a (suc a / 2) (suc a / 2) (b / 2) (omega arith) (omega arith) in
    omega (arith, bit_or-bitwise (suc a) b, bit_or-bitwise (suc a / 2) (b / 2), deeper)

and_zero_below : (n a : ℕ) → a ≤ n → bit_and a 0 ≡ 0
and_zero_below n zero h = refl
and_zero_below zero (suc a) h = absurd (omega arith)
and_zero_below (suc n) (suc a) h =
    omega (arith, and_halves (suc a) 0, and_zero_below n (suc a / 2) (omega arith))

pub pow-pos : (k : ℕ) → 0 < 2 ^ k
pow-pos zero = omega arith
pow-pos (suc k) = rw pow-suc (omega (arith, pow-pos k))

-- A remainder by an even number, one binary digit at a time.
mod_double : (m a : ℕ) → 0 < m → a % (m * 2) ≡ (a / 2) % m * 2 + a % 2
mod_double m a h = grind arith

-- `a & (2^k - 1)` is `a mod 2^k`.
pub and_mask : (k a : ℕ) → bit_and a (2 ^ k - 1) ≡ a % 2 ^ k
and_mask zero a = omega (arith, and_zero_below a a (omega arith))
and_mask (suc k) a =
    rw (pow-suc 2 k, and_halves a (2 ^ k * 2 - 1), mod_double (2 ^ k) a (pow-pos k))
      (omega (arith, and_mask k (a / 2), pow-pos k, halved))
  where
    halved : bit_and (a / 2) ((2 ^ k * 2 - 1) / 2) ≡ bit_and (a / 2) (2 ^ k - 1)
    halved = ap (bit_and (a / 2)) (omega (arith, pow-pos k))

pow-dvd-pow : (k n : ℕ) → k ≤ n → 2 ^ k ∣ 2 ^ n
pow-dvd-pow zero zero h = dvd_refl (2 ^ 0)
pow-dvd-pow (suc k) zero h = absurd (omega arith)
pow-dvd-pow k (suc n) h = elim (ℕ_discrete k (suc n)) [
  | yes e ↦ rw e (dvd_refl (2 ^ suc n))
  | no ne ↦ rw (pow-suc 2 n) (dvd-mul_right_of_dvd (2 ^ k) (pow-dvd-pow k n (omega arith)) 2)
]

-- Reducing an index modulo the word size does not change its low bits.
pub low_bits_of_word : (k a : ℕ) → k ≤ 64 → a % usize_mod % 2 ^ k ≡ a % 2 ^ k
low_bits_of_word k a h = mod-mod_of_dvd (2 ^ k) a (pow-dvd-pow k 64 h)

-- `a & !(2^k - 1)` in a word of `n` bits takes the low bits away.
pub and_high : (n k a : ℕ) → k ≤ n → a < 2 ^ n → bit_and a (2 ^ n - 2 ^ k) + a % 2 ^ k ≡ a
and_high n zero a le h = omega (arith, and_mask n a, mod-eq_of_lt h)
and_high zero (suc k) a le h = absurd (omega arith)
and_high (suc n) (suc k) a le h =
    rw
      (
        pow-suc 2 k,
        pow-suc 2 n,
        and_halves a (2 ^ n * 2 - 2 ^ k * 2),
        mod_double (2 ^ k) a (pow-pos k),
      )
      (omega (arith, halved, and_high n k (a / 2) (omega arith) (omega (arith, pow-suc 2 n))))
  where
    halved : bit_and (a / 2) ((2 ^ n * 2 - 2 ^ k * 2) / 2) ≡ bit_and (a / 2) (2 ^ n - 2 ^ k)
    halved = ap (bit_and (a / 2)) (omega arith)
