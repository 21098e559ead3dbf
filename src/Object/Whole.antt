-- ===== src/Object/Whole.antt =====
-- A non-negative int as a lua_Number and back: cast_num and lua_number2int of lua-5.1.5/src/luaconf.h and llimits.h.
use unitu_lua_test.Base.{
  ℕ, zero, suc, ◌+◌, ◌-◌, ◌*◌, ◌/◌, ◌%◌, ◌^◌, ◌<◌, ◌≤◌, ◌≡◌, refl, ap, sym, ◌∙◌, arith, ltb, leb,
  leb→le, ◌==◌, true, false, inl, inr, Bool-cases,
}
use unitu_lua_test.Base.Int.{pos}
use unitu_lua_test.Object.Log.{IsLog, exponent-lt, two_pow}
use unitu_lua_test.Object.Value.{is_nan, high_digit, double_of, cast_num, truncated, number2int}
use native.Mathlib.Nat.{one-le-pow, pow-suc, mul-div_cancel, mul-lt-mul_of_pos_right, add-mul}

high_digit-IsLog :
    (k n : ℕ) → 1 ≤ n → n < 2 ^ (k + 1) → IsLog n (high_digit k n) × (high_digit k n ≤ k)
unfolding high_digit
high_digit-IsLog zero n lo hi = (record { low = omega arith; high = hi }, omega arith)
high_digit-IsLog (suc k) n lo hi = elim (Bool-cases (leb (2 ^ suc k) n)) [
  | inl more ↦
      rw (high_digit, more)
        (
          record { low = leb→le (2 ^ suc k) n more; high = hi },
          (let le : suc k ≤ suc k = omega arith in le),
        )
  | inr less ↦
      let below : n < 2 ^ (k + 1) = ground arith in
      let (log, le) = high_digit-IsLog k n lo below in
      rw (high_digit, less) (log, (let le' : high_digit k n ≤ suc k = omega arith in le'))
]

-- The digits of a double: the exponent is `1023 + e`, the fraction `r` times the unit `q`.
module _ (e r q : ℕ) (le : e ≤ 30) (r_q : r * q < 2 ^ 52) (unit : 2 ^ e * q ≡ 2 ^ 52)
    (positive : 1 ≤ q) where
  bits : ℕ
  bits = (1023 + e) * 2 ^ 52 + r * q

  exponent : bits / 2 ^ 52 % 2 ^ 11 ≡ 1023 + e
  unfolding bits
  exponent = omega arith

  fraction : bits % 2 ^ 52 ≡ r * q
  unfolding bits
  fraction = omega arith

  not_negative : ltb bits (2 ^ 63) ≡ true
  unfolding bits
  not_negative = ground arith

pow_sum : (e d : ℕ) → 2 ^ e * 2 ^ d ≡ 2 ^ (e + d)
pow_sum e zero = (let same : e + 0 ≡ e = omega arith in rw (same) (omega arith))
pow_sum e (suc d) =
    let next : e + suc d ≡ suc (e + d) = omega arith in
    rw (next, pow-suc 2 (e + d), pow-suc 2 d) (omega (arith, pow_sum e d))

-- The digits of a whole number give it back.
whole_number :
    (e r n : ℕ)
    → e ≤ 30
    → 2 ^ e + r ≡ n
    → r < 2 ^ e
    → number2int ((1023 + e) * 2 ^ 52 + r * 2 ^ (52 - e)) ≡ pos n
unfolding number2int truncated bits
whole_number e r n le whole small =
    let q = 2 ^ (52 - e) in
    let sum : e + (52 - e) ≡ 52 = omega arith in
    let unit : 2 ^ e * q ≡ 2 ^ 52 = pow_sum e (52 - e) ∙ ap (λ x. 2 ^ x) sum in
    let positive : 1 ≤ q = one-le-pow (52 - e) 2 (omega arith) in
    let less : r * q < 2 ^ e * q = mul-lt-mul_of_pos_right small positive in
    let fits : r * q < 2 ^ 52 = omega arith in
    let small_exponent : ltb 1053 (1023 + e) ≡ false = ground arith in
    let big_exponent : ltb (1023 + e) 1023 ≡ false = ground arith in
    let shift : 1075 - (1023 + e) ≡ 52 - e = omega arith in
    let product : 2 ^ 52 + r * q ≡ n * q =
      sym (ap (λ x. x * q) (sym whole) ∙ add-mul (2 ^ e) r q ∙ ap (λ x. x + r * q) unit) in
    rw
      (
        number2int,
        exponent e r q le fits unit positive,
        small_exponent,
        not_negative e r q le fits unit positive,
        truncated,
        big_exponent,
        fraction e r q le fits unit positive,
        shift,
        product,
        mul-div_cancel n positive,
      )
      refl

-- An int that is not negative is the whole part of its number.
pub number2int-cast_num : (n : ℕ) → n < 2 ^ 31 → number2int (cast_num (pos n)) ≡ pos n
unfolding cast_num double_of number2int
number2int-cast_num zero hi = refl
number2int-cast_num (suc m) hi =
    let e = high_digit 31 (suc m) in
    let (log, _) = high_digit-IsLog 31 (suc m) (omega arith) (omega arith) in
    let low : 2 ^ e ≤ suc m = log.low in
    let high : suc m < 2 ^ (e + 1) = log.high in
    let double : 2 ^ (e + 1) ≡ 2 * 2 ^ e = two_pow e in
    let below : 2 ^ e < 2 ^ 31 = omega arith in
    let e_le : e ≤ 30 = (let less = exponent-lt e 31 below in omega arith) in
    let rest : 2 ^ e + (suc m - 2 ^ e) ≡ suc m = omega arith in
    let small : suc m - 2 ^ e < 2 ^ e = omega arith in
    let some_n : (suc m == 0) ≡ false = ground arith in
    let same : cast_num (pos (suc m)) ≡ (1023 + e) * 2 ^ 52 + (suc m - 2 ^ e) * 2 ^ (52 - e) =
      rw (cast_num, double_of, some_n) refl in
    ap number2int same ∙ whole_number e (suc m - 2 ^ e) (suc m) e_le rest small

double_of-lt : (n : ℕ) → n < 2 ^ 31 → double_of n < 2047 * 2 ^ 52
unfolding double_of bits
double_of-lt zero hi = omega arith
double_of-lt (suc m) hi =
    let e = high_digit 31 (suc m) in
    let (log, _) = high_digit-IsLog 31 (suc m) (omega arith) (omega arith) in
    let low : 2 ^ e ≤ suc m = log.low in
    let high : suc m < 2 ^ (e + 1) = log.high in
    let double : 2 ^ (e + 1) ≡ 2 * 2 ^ e = two_pow e in
    let below : 2 ^ e < 2 ^ 31 = omega arith in
    let e_le : e ≤ 30 = (let less = exponent-lt e 31 below in omega arith) in
    let small : suc m - 2 ^ e < 2 ^ e = omega arith in
    let some_n : (suc m == 0) ≡ false = ground arith in
    let sum : e + (52 - e) ≡ 52 = omega arith in
    let unit : 2 ^ e * 2 ^ (52 - e) ≡ 2 ^ 52 = pow_sum e (52 - e) ∙ ap (λ x. 2 ^ x) sum in
    let positive : 1 ≤ 2 ^ (52 - e) = one-le-pow (52 - e) 2 (omega arith) in
    let less : (suc m - 2 ^ e) * 2 ^ (52 - e) < 2 ^ e * 2 ^ (52 - e) =
      mul-lt-mul_of_pos_right small positive in
    rw (double_of, some_n) (omega arith)

-- The number of an int is no NaN.
pub cast_num-is_nan : (n : ℕ) → n < 2 ^ 31 → is_nan (cast_num (pos n)) ≡ false
unfolding is_nan cast_num
cast_num-is_nan n hi = (let less = double_of-lt n hi in ground arith)
