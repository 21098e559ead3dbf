-- ===== src/Base/Bits/Digits.antt =====
-- The native `&` and `|` by their lowest digit: the fuel of their definition is dropped.
use Prim.Native.Nat.{digits, bit_and-bitwise, bit_or-bitwise, bit_and, bit_or, max, min}
use Prim.Native.Nat.{◌%◌, ◌/◌, ◌*◌, ◌+◌, ◌≤◌, suc, zero, ℕ}
use mathlib.Core.Logic.{inl, inr, ◌⊎◌}
use mathlib.Core.Path.{refl, ◌≡◌, ◌∙◌}
use native.Mathlib.Omega.{arith}

-- With enough fuel, one unit more changes no digit.
digits_more :
    (z : ℕ → ℕ) (f : ℕ → ℕ → ℕ) (n x y : ℕ) → x ≤ n → digits z f (suc n) x y ≡ digits z f n x y
digits_more z f zero zero y h = refl
digits_more z f zero (suc x) y h = absurd (omega arith)
digits_more z f (suc n) zero y h = refl
digits_more z f (suc n) (suc x) y h = rw (digits_more z f n (suc x / 2) (y / 2) (omega arith))

-- So the fuel may be the number itself.
digits_self : (z : ℕ → ℕ) (f : ℕ → ℕ → ℕ) (n x y : ℕ) → x ≤ n → digits z f n x y ≡ digits z f x x y
digits_self z f zero zero y h = refl
digits_self z f zero (suc x) y h = absurd (omega arith)
digits_self z f (suc n) x y h = elim (last h) [
  | inl e ↦ rw e
  | inr le ↦ digits_more z f n x y le ∙ digits_self z f n x y le
]
  where
    last : x ≤ suc n → (x ≡ suc n) ⊎ (x ≤ n)
    last h = omega arith

pub bit_and_digit : (x y : ℕ) → bit_and x y ≡ min (x % 2) (y % 2) + 2 * bit_and (x / 2) (y / 2)
bit_and_digit zero y = rw (bit_and-bitwise, bit_and-bitwise) (omega arith)
bit_and_digit (suc x) y =
    let half = digits_self (λ _. 0) min x (suc x / 2) (y / 2) (omega arith) in
    rw (bit_and-bitwise (suc x) y, bit_and-bitwise (suc x / 2) (y / 2)) (omega (arith, half))

pub bit_or_digit : (x y : ℕ) → bit_or x y ≡ max (x % 2) (y % 2) + 2 * bit_or (x / 2) (y / 2)
bit_or_digit zero y = rw (bit_or-bitwise, bit_or-bitwise) (omega arith)
bit_or_digit (suc x) y =
    let half = digits_self (λ r. r) max x (suc x / 2) (y / 2) (omega arith) in
    rw (bit_or-bitwise (suc x) y, bit_or-bitwise (suc x / 2) (y / 2)) (omega (arith, half))
