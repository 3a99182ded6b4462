-- ===== src/Common/Flags.antt =====
-- The top bit of a word as a flag beside a number in the bits below.
use Prim.Native.Nat.{ℕ, zero, suc, ◌+◌, ◌/◌, ◌%◌, ◌^◌, ◌<◌, bit_and, bit_or}
use mathlib.Core.Path.{◌≡◌, refl, ap, ap₂}
use native.Mathlib.Omega.{arith}
use native.Mathlib.Nat.{pow-suc}
use st_zrt.Common.Words.{and_halves, or_halves}

-- `a & 2^k` where the flag is clear, and where it is set.
pub and_flag_clear : (k a : ℕ) → a < 2 ^ k → bit_and a (2 ^ k) ≡ 0
and_flag_clear zero zero h = refl
and_flag_clear zero (suc a) h = absurd (omega arith)
and_flag_clear (suc k) a h =
    let half : 2 ^ suc k / 2 ≡ 2 ^ k = rw pow-suc (omega arith) in
    let low : 2 ^ suc k % 2 ≡ 0 = rw pow-suc (omega arith) in
    let below : a / 2 < 2 ^ k = omega (arith, pow-suc 2 k) in
    omega (
      arith,
      and_halves a (2 ^ suc k),
      ap (bit_and (a / 2)) half,
      and_flag_clear k (a / 2) below,
      low,
    )

pub and_flag_set : (k a : ℕ) → a < 2 ^ k → bit_and (2 ^ k + a) (2 ^ k) ≡ 2 ^ k
and_flag_set zero zero h = refl
and_flag_set zero (suc a) h = absurd (omega arith)
and_flag_set (suc k) a h =
    let half : 2 ^ suc k / 2 ≡ 2 ^ k = rw pow-suc (omega arith) in
    let low : 2 ^ suc k % 2 ≡ 0 = rw pow-suc (omega arith) in
    let below : a / 2 < 2 ^ k = omega (arith, pow-suc 2 k) in
    let above : (2 ^ suc k + a) / 2 ≡ 2 ^ k + a / 2 = omega (arith, pow-suc 2 k) in
    omega (
      arith,
      and_halves (2 ^ suc k + a) (2 ^ suc k),
      ap₂ bit_and above half,
      and_flag_set k (a / 2) below,
      low,
      pow-suc 2 k,
    )

-- `a | 2^k` sets the flag.
pub or_flag : (k a : ℕ) → a < 2 ^ k → bit_or a (2 ^ k) ≡ 2 ^ k + a
or_flag zero zero h = refl
or_flag zero (suc a) h = absurd (omega arith)
or_flag (suc k) a h =
    let half : 2 ^ suc k / 2 ≡ 2 ^ k = rw pow-suc (omega arith) in
    let low : 2 ^ suc k % 2 ≡ 0 = rw pow-suc (omega arith) in
    let below : a / 2 < 2 ^ k = omega (arith, pow-suc 2 k) in
    omega (
      arith,
      or_halves a (2 ^ suc k),
      ap (bit_or (a / 2)) half,
      or_flag k (a / 2) below,
      low,
      pow-suc 2 k,
    )
