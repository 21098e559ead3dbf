-- ===== src/Object/FloatByte.antt =====
-- The "floating point byte" of lua-5.1.5/src/lobject.c, (eeeeexxx), which sizes table constructors.
use unitu_lua_test.Base.{
  ℕ, zero, suc, ◌+◌, ◌-◌, ◌*◌, ◌/◌, ◌%◌, ◌^◌, ◌≤◌, ◌<◌, ◌≡◌, ap, ◌∙◌, false, leb, leb→le, ltb, ◌==◌,
  if◌then◌else◌, ◌⊎◌, inl, inr, Bool-cases, arith, bit_and,
}
use unitu_lua_test.Base.Int.{pos}
use unitu_lua_test.Base.Bits.{bit_and-ones}
use unitu_lua_test.Base.Bits.Fields.{bit_or-below}
use unitu_lua_test.Object.{int2fb_loop, float_byte, int2fb, as_int, fb2int}
use native.Mathlib.Nat.{pow-suc, pow-le-pow_right, mul-le-mul_right}
use native.Mathlib.Numerals.{towards_suc}

-- The mantissa is the argument divided by a power of two, rounded up; the power is the least one that
-- brings it below 16.
record Mantissa (x : ℕ) (r : ℕ × ℕ) : Type 0 where
  small : r.0 < 16
  normal : 0 < r.1 → 8 ≤ r.0
  enough : x ≤ r.0 * 2 ^ r.1
  tight : r.0 * 2 ^ r.1 < x + 2 ^ r.1
  least : 0 < r.1 → 15 * 2 ^ (r.1 - 1) < x

-- One round: the mantissa is halved, rounding up.
halve_up :
    (n x e : ℕ)
    → n ≤ x * 2 ^ e
    → x * 2 ^ e < n + 2 ^ e
    → (n ≤ (x + 1) / 2 * 2 ^ (e + 1)) × ((x + 1) / 2 * 2 ^ (e + 1) < n + 2 ^ (e + 1))
halve_up n x e enough tight =
    let y = (x + 1) / 2 in
    let double : 2 ^ (e + 1) ≡ 2 * 2 ^ e = simp towards_suc (omega (arith, pow-suc 2 e)) in
    let scaled : y * 2 ^ (e + 1) ≡ 2 * y * 2 ^ e = omega (arith, ap (λ (t : ℕ). y * t) double) in
    let round : (2 * y ≡ x) ⊎ (2 * y ≡ x + 1) = omega arith in
    elim round [
      | inl even ↦ omega (arith, scaled, double, ap (λ (t : ℕ). t * 2 ^ e) even)
      | inr odd ↦ omega (arith, scaled, double, ap (λ (t : ℕ). t * 2 ^ e) odd)
    ]

int2fb_loop-Mantissa :
    (fuel n x e : ℕ)
    → x ≤ 2 ^ fuel
    → x + 1 < 2 ^ 32
    → (0 < e → 8 ≤ x)
    → n ≤ x * 2 ^ e
    → x * 2 ^ e < n + 2 ^ e
    → (0 < e → 15 * 2 ^ (e - 1) < n)
    → Mantissa n (int2fb_loop fuel x e)
unfolding int2fb_loop
int2fb_loop-Mantissa zero n x e hf hx normal enough tight least = record {
  small = omega (arith, hf);
  normal = normal;
  enough = enough;
  tight = tight;
  least = least;
}
int2fb_loop-Mantissa (suc fuel) n x e hf hx normal enough tight least =
    elim (Bool-cases (leb 16 x)) [
      | inl big ↦
          let wide = leb→le 16 x big in
          let wrap : (x + 1) % 2 ^ 32 ≡ x + 1 = omega arith in
          let step = halve_up n x e enough tight in
          let share = mul-le-mul_right (2 ^ e) wide in
          let back : e + 1 - 1 ≡ e = omega arith in
          let above : 15 * 2 ^ (e + 1 - 1) < n = rw back (omega (arith, share, tight)) in
          rw (big, int2fb_loop, wrap)
            (int2fb_loop-Mantissa fuel n ((x + 1) / 2) (e + 1) (omega (arith, pow-suc 2 fuel))
              (omega arith) (λ _. omega arith) step.0 step.1 (λ _. above))
      | inr done ↦
          rw (done, int2fb_loop)
            (record {
              small = ground arith;
              normal = normal;
              enough = enough;
              tight = tight;
              least = least;
            })
    ]

-- A size up to 15 * 2 ^ 27 is coded with an exponent up to 27, so that it is decoded within an int.
Mantissa-fits : (x m e : ℕ) → Mantissa x (m, e) → x ≤ 15 * 2 ^ 27 → (e ≤ 27) × (m * 2 ^ e < 2 ^ 31)
Mantissa-fits x m e t short = elim (Bool-cases (leb e 27)) [
  | inl le ↦
      let low = leb→le e 27 le in
      let power : 2 ^ e ≤ 2 ^ 27 = pow-le-pow_right (omega arith) low in
      let most : m ≤ 15 = omega (arith, t.small) in
      (low, omega (arith, power, mul-le-mul_right (2 ^ e) most))
  | inr gt ↦
      let above : 28 ≤ e = ground arith in
      let before : 27 ≤ e - 1 = omega arith in
      let wide : 2 ^ 27 ≤ 2 ^ (e - 1) = pow-le-pow_right (omega arith) before in
      absurd (omega (arith, wide, short, t.least (omega arith)))
]

-- Rounding up adds at most a seventh.
Mantissa-le : (x m e : ℕ) → Mantissa x (m, e) → 7 * (m * 2 ^ e) ≤ 8 * x
Mantissa-le x m zero t = omega (arith, t.tight)
Mantissa-le x m (suc e) t =
    omega (arith, t.tight, mul-le-mul_right (2 ^ suc e) (t.normal (omega arith)))

as_int-pos : (n : ℕ) → n < 2 ^ 31 → as_int (n % 2 ^ 32) ≡ pos n
unfolding as_int
as_int-pos n h = let same : n % 2 ^ 32 ≡ n = omega arith in rw same (ground arith)

-- `luaO_fb2int` as arithmetic.
fb2int-eq :
    (v : ℕ)
    → v < 256
    → fb2int v ≡ (if v / 8 == 0 then pos v else as_int ((v % 8 + 8) * 2 ^ (v / 8 - 1) % 2 ^ 32))
unfolding fb2int
fb2int-eq v h =
    let e : bit_and (v / 2 ^ 3) 31 ≡ v / 8 = bit_and-ones 5 (v / 8) ∙ omega arith in
    let m : bit_and v 7 ≡ v % 8 = bit_and-ones 3 v in rw (e, m)

-- A mantissa and an exponent in range survive the byte.
fb2int-float_byte :
    (m e : ℕ)
    → m < 16
    → (0 < e → 8 ≤ m)
    → e ≤ 27
    → m * 2 ^ e < 2 ^ 31
    → (float_byte (m, e) < 256) × (fb2int (float_byte (m, e)) ≡ pos (m * 2 ^ e))
unfolding float_byte
fb2int-float_byte m e small normal low fits = elim (Bool-cases (ltb m 8)) [
  | inl sub ↦
      let no_exponent : e ≡ 0 = ground arith in
      let eq = fb2int-eq m (omega arith) in rw (sub, eq, no_exponent) (ground arith)
  | inr norm ↦
      let v : ℕ = (e + 1) * 2 ^ 3 + (m - 8) in
      let join = bit_or-below 3 (e + 1) (m - 8) (omega arith) in
      let wide : 8 ≤ m = ground arith in
      let eq = fb2int-eq v (omega arith) in
      let quotient : v / 8 ≡ e + 1 = omega arith in
      let remainder : v % 8 + 8 ≡ m = omega arith in
      let back : e + 1 - 1 ≡ e = omega arith in
      let nonzero : (e + 1 == 0) ≡ false = ground arith in
      rw (norm, join)
        (omega arith, rw (eq, quotient, remainder, back, nonzero) (as_int-pos (m * 2 ^ e) fits))
]

-- Coding a size and decoding it gives an int that is not negative, never loses room, and adds at most
-- a seventh; the code is a byte. The size is 15 * 2 ^ 27 at most: a larger one may be rounded up to 2 ^ 31
-- or more, which is no int.
pub fb2int-int2fb :
    (x : ℕ)
    → x ≤ 15 * 2 ^ 27
    → (int2fb x < 256) × ((y : ℕ) × (fb2int (int2fb x) ≡ pos y) × (x ≤ y) × (7 * y ≤ 8 * x))
unfolding int2fb
fb2int-int2fb x h = close (int2fb_loop 32 x 0) (
    int2fb_loop-Mantissa 32 x x 0 (omega arith) (omega arith) (λ z. absurd (omega arith))
      (omega arith) (omega arith) (λ z. absurd (omega arith)))
  where
    close :
        (r : ℕ × ℕ)
        → Mantissa x r
        → (float_byte r < 256)
          × ((y : ℕ) × (fb2int (float_byte r) ≡ pos y) × (x ≤ y) × (7 * y ≤ 8 * x))
    close (m, e) t =
        let (low, fits) = Mantissa-fits x m e t h in
        let (byte, back) = fb2int-float_byte m e t.small t.normal low fits in
        (byte, (m * 2 ^ e, back, t.enough, Mantissa-le x m e t))
