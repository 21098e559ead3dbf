-- ===== src/Base/Bits/Fields.antt =====
-- A bit field of `n` bits at position `p` of a word: read by shift and mask, and replaced.
use mathlib.Core.Path.{◌≡◌, ap, ◌∙◌}
use Prim.Native.Nat.{ℕ, ◌+◌, ◌-◌, ◌*◌, ◌/◌, ◌%◌, ◌^◌, ◌<◌, bit_and, bit_or}
use native.Mathlib.Nat.{
  one-le-pow, mod-lt, mod-eq_of_lt, div-add-mod', add-zero, zero-mul, zero-add,
}
use native.Mathlib.Omega.{arith}
use unitu_lua_test.Base.Bits.{
  bit_and_parts, bit_or_parts, bit_and-ones, bit_and-zero, bit_or-zero, zero-bit_or,
}

pow_pos : (k : ℕ) → 0 < 2 ^ k
pow_pos k = one-le-pow k 2 (omega arith)

-- `x & (ones << p)`
pub mask_field : (n p x : ℕ) → bit_and x ((2 ^ n - 1) * 2 ^ p) ≡ x / 2 ^ p % 2 ^ n * 2 ^ p
mask_field n p x =
    let whole = div-add-mod' x (2 ^ p) in
    let law =
      bit_and_parts p (x / 2 ^ p) (x % 2 ^ p) (2 ^ n - 1) 0 (mod-lt _ (pow_pos p)) (pow_pos p) in
    let law' = rw (whole, add-zero) at law in
    let ones = bit_and-ones n (x / 2 ^ p) in
    omega (arith, law', bit_and-zero (x % 2 ^ p), ap (λ (t : ℕ). t * 2 ^ p) ones)

-- `x & ~(ones << p)` in a word of `m + n + p` bits
pub clear_field :
    (m n p x : ℕ)
    → x / 2 ^ p / 2 ^ n < 2 ^ m
    → bit_and x ((2 ^ m - 1) * 2 ^ n * 2 ^ p + (2 ^ p - 1))
      ≡ x / 2 ^ p / 2 ^ n * 2 ^ n * 2 ^ p + x % 2 ^ p
clear_field m n p x h =
    let q = x / 2 ^ p in
    let whole = div-add-mod' x (2 ^ p) in
    let low = bit_and-ones p (x % 2 ^ p) in
    let law =
      bit_and_parts p q (x % 2 ^ p) ((2 ^ m - 1) * 2 ^ n) (2 ^ p - 1) (mod-lt _ (pow_pos p))
        (omega (arith, pow_pos p)) in
    let law' = rw whole at law in
    omega
      (arith, law', low, mod-eq_of_lt (mod-lt x (pow_pos p)), ap (λ (t : ℕ). t * 2 ^ p) (upper q h))
  where
    upper : (q : ℕ) → q / 2 ^ n < 2 ^ m → bit_and q ((2 ^ m - 1) * 2 ^ n) ≡ q / 2 ^ n * 2 ^ n
    upper q h = mask_field m n q ∙ ap (λ (t : ℕ). t * 2 ^ n) (mod-eq_of_lt h)

-- `high | (u << p)`, where the field is clear
pub join_field :
    (n p a r u : ℕ)
    → u < 2 ^ n
    → r < 2 ^ p
    → bit_or (a * 2 ^ n * 2 ^ p + r) (u * 2 ^ p) ≡ (a * 2 ^ n + u) * 2 ^ p + r
join_field n p a r u hu hr =
    let upper = bit_or_parts n a 0 0 u (pow_pos n) hu in
    let upper' = rw (add-zero, zero-mul, zero-add, bit_or-zero, zero-bit_or) at upper in
    let law = bit_or_parts p (a * 2 ^ n) r u 0 hr (pow_pos p) in
    let law' = rw (add-zero, bit_or-zero, upper') at law in law'

-- `r | (u << p)`, where `r` fits below
pub bit_or-above : (p r u : ℕ) → r < 2 ^ p → bit_or r (u * 2 ^ p) ≡ u * 2 ^ p + r
bit_or-above p r u hr =
    let law = bit_or_parts p 0 r u 0 hr (pow_pos p) in
    rw (zero-mul, zero-add, add-zero, zero-bit_or, bit_or-zero) at law

-- `(q << p) | r`, where `r` fits below
pub bit_or-below : (p q r : ℕ) → r < 2 ^ p → bit_or (q * 2 ^ p) r ≡ q * 2 ^ p + r
bit_or-below p q r hr =
    let law = bit_or_parts p q 0 0 r (pow_pos p) hr in
    rw (zero-mul, zero-add, add-zero, zero-bit_or, bit_or-zero) at law
