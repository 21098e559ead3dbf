-- ===== src/Base/Bits.antt =====
-- `&` and `|` at variables: they act on the high and the low part of a number apart, and
-- a mask of ones is a remainder.
mod Digits
pub mod Fields
use Digits.{bit_and_digit, bit_or_digit}
use Prim.Native.Nat.{bit_and, bit_or, bit_and-bitwise, bit_or-bitwise, zero, suc, ℕ}
use Prim.Native.Nat.{◌<◌, ◌≤◌, ◌^◌, ◌%◌, ◌/◌, ◌*◌, ◌-◌, ◌+◌}
use mathlib.Core.Path.{ap, refl, ◌≡◌}
use native.Mathlib.Nat.{div-add-mod', mod-lt, one-le-pow, pow-suc}
use native.Mathlib.Omega.{arith}

-- Masks and joins with zero.
pub zero-bit_and : (b : ℕ) → bit_and 0 b ≡ 0
zero-bit_and b = bit_and-bitwise 0 b

pub zero-bit_or : (b : ℕ) → bit_or 0 b ≡ b
zero-bit_or b = bit_or-bitwise 0 b

and_or_zero : (bound x : ℕ) → x ≤ bound → (bit_and x 0 ≡ 0) × (bit_or x 0 ≡ x)
and_or_zero bound zero h = (zero-bit_and 0, zero-bit_or 0)
and_or_zero zero (suc x) h = absurd (omega arith)
and_or_zero (suc bound) (suc x) h =
    let (masked, joined) = and_or_zero bound (suc x / 2) (omega arith) in
    (omega (arith, bit_and_digit (suc x) 0, masked), omega (arith, bit_or_digit (suc x) 0, joined))

pub bit_and-zero : (x : ℕ) → bit_and x 0 ≡ 0
bit_and-zero x = (and_or_zero x x (omega arith)).0

pub bit_or-zero : (x : ℕ) → bit_or x 0 ≡ x
bit_or-zero x = (and_or_zero x x (omega arith)).1

double-pow : (q k : ℕ) → q * 2 ^ suc k ≡ 2 * (q * 2 ^ k)
double-pow q k = let two = pow-suc 2 k in omega (arith, ap (λ (power : ℕ). q * power) two)

-- A number that is written in two parts, halved.
halve_parts : (k q r : ℕ) → (q * 2 ^ suc k + r) / 2 ≡ q * 2 ^ k + r / 2
halve_parts k q r = omega (arith, double-pow q k)

low_digit : (k q r : ℕ) → (q * 2 ^ suc k + r) % 2 ≡ r % 2
low_digit k q r = omega (arith, double-pow q k)

low_half : (k r : ℕ) → r < 2 ^ suc k → r / 2 < 2 ^ k
low_half k r h = omega (arith, pow-suc 2 k)

pub bit_and_parts :
    (k q r s t : ℕ)
    → r < 2 ^ k
    → t < 2 ^ k
    → bit_and (q * 2 ^ k + r) (s * 2 ^ k + t) ≡ bit_and q s * 2 ^ k + bit_and r t
bit_and_parts zero q zero s zero hr ht = rw (unary q, unary s) (omega arith)
  where
    unary : (n : ℕ) → n * 2 ^ 0 + 0 ≡ n
    unary n = omega arith
bit_and_parts zero q zero s (suc t) hr ht = absurd (omega arith)
bit_and_parts zero q (suc r) s t hr ht = absurd (omega arith)
bit_and_parts (suc k) q r s t hr ht =
    rw
      (
        bit_and_digit (q * 2 ^ suc k + r) (s * 2 ^ suc k + t),
        halve_parts k q r,
        halve_parts k s t,
        low_digit k q r,
        low_digit k s t,
        bit_and_parts k q (r / 2) s (t / 2) (low_half k r hr) (low_half k t ht),
      )
      (omega (arith, bit_and_digit r t, double-pow (bit_and q s) k))

pub bit_or_parts :
    (k q r s t : ℕ)
    → r < 2 ^ k
    → t < 2 ^ k
    → bit_or (q * 2 ^ k + r) (s * 2 ^ k + t) ≡ bit_or q s * 2 ^ k + bit_or r t
bit_or_parts zero q zero s zero hr ht = rw (unary q, unary s) (omega arith)
  where
    unary : (n : ℕ) → n * 2 ^ 0 + 0 ≡ n
    unary n = omega arith
bit_or_parts zero q zero s (suc t) hr ht = absurd (omega arith)
bit_or_parts zero q (suc r) s t hr ht = absurd (omega arith)
bit_or_parts (suc k) q r s t hr ht =
    rw
      (
        bit_or_digit (q * 2 ^ suc k + r) (s * 2 ^ suc k + t),
        halve_parts k q r,
        halve_parts k s t,
        low_digit k q r,
        low_digit k s t,
        bit_or_parts k q (r / 2) s (t / 2) (low_half k r hr) (low_half k t ht),
      )
      (omega (arith, bit_or_digit r t, double-pow (bit_or q s) k))

ones_below : (k a : ℕ) → a < 2 ^ k → bit_and a (2 ^ k - 1) ≡ a
ones_below zero zero h = refl
ones_below zero (suc a) h = absurd (omega arith)
ones_below (suc k) a h =
    let mask : (2 ^ suc k - 1) / 2 ≡ 2 ^ k - 1 = omega (arith, pow-suc 2 k, one-le-pow k 2) in
    let half : bit_and (a / 2) ((2 ^ suc k - 1) / 2) ≡ a / 2 =
      rw mask (ones_below k (a / 2) (low_half k a h)) in
    omega (arith, bit_and_digit a (2 ^ suc k - 1), half, pow-suc 2 k, one-le-pow k 2)

-- A mask of `k` ones keeps the remainder by `2 ^ k`.
pub bit_and-ones : (k a : ℕ) → bit_and a (2 ^ k - 1) ≡ a % 2 ^ k
bit_and-ones k a =
    let split = bit_and_parts k (a / 2 ^ k) (a % 2 ^ k) 0 (2 ^ k - 1) (mod-lt _ pos) below in
    let mask : 0 * 2 ^ k + (2 ^ k - 1) ≡ 2 ^ k - 1 = omega arith in
    let low = ones_below k (a % 2 ^ k) (mod-lt _ pos) in
    let split' = rw (div-add-mod' a (2 ^ k), mask) at split in
    omega (arith, split', low, ap (λ (t : ℕ). t * 2 ^ k) (bit_and-zero (a / 2 ^ k)))
  where
    pos : 0 < 2 ^ k
    pos = one-le-pow k 2 (omega arith)

    below : 2 ^ k - 1 < 2 ^ k
    below = omega (arith, pos)

-- An odd modulus
pub bit_or-one : (x : ℕ) → (0 < bit_or x 1) × (bit_or x 1 ≤ x + 1)
bit_or-one x =
    let d : bit_or x 1 ≡ 1 + 2 * (x / 2) = omega (arith, bit_or_digit x 1, bit_or-zero (x / 2)) in
    (omega arith, omega arith)
