-- ===== src/Object/Value.antt =====
-- Values: TValue of lua-5.1.5/src/lobject.h and luaO_rawequalObj of lobject.c (rawequal), with the numbers as
-- luaconf.h has them. A lua_Number is the 64 bits of a double, and an address is a number.
use unitu_lua_test.Base.{
  ℕ, zero, suc, ◌+◌, ◌-◌, ◌*◌, ◌/◌, ◌%◌, ◌^◌, ltb, leb, ◌==◌, if◌then◌else◌, ◌&&◌, ◌||◌, not, Bool,
  true, false,
}
use unitu_lua_test.Base.Int.{ℤ, pos, negsuc}

-- A collectable value has its tag, from LUA_TSTRING to LUA_TDEADKEY, and an address.
pub data TValue : Type 0 where
  nil : TValue
  boolean : ℕ → TValue
  lightuserdata : ℕ → TValue
  number : ℕ → TValue
  object : ℕ → ℕ → TValue

abbrev pub lua_tstring : ℕ
lua_tstring = 4

abbrev pub lua_tdeadkey : ℕ
lua_tdeadkey = 11

abbrev pub ttisnil : TValue → Bool
ttisnil nil = true
ttisnil (boolean b) = false
ttisnil (lightuserdata p) = false
ttisnil (number n) = false
ttisnil (object tt a) = false

-- `==` of doubles: a NaN is equal to nothing, and 0 to -0
unfoldable pub is_nan : ℕ → Bool
is_nan n = ltb (0x7ff * 2 ^ 52) (n % 2 ^ 63)

unfoldable pub is_zero : ℕ → Bool
is_zero n = n % 2 ^ 63 == 0

unfoldable pub numeq : ℕ → ℕ → Bool
unfolding is_nan is_zero
numeq a b = not (is_nan a) && (a == b || (is_zero a && is_zero b))

-- `cast_num` of an int: the exponent is the place of the highest digit.
unfoldable pub high_digit : ℕ → ℕ → ℕ
high_digit zero n = 0
high_digit (suc k) n = let rest = high_digit k n in if leb (2 ^ suc k) n then suc k else rest

unfoldable pub double_of : ℕ → ℕ
unfolding high_digit
double_of n =
    let e = high_digit 31 n in
    if n == 0 then 0 else (1023 + e) * 2 ^ 52 + (n - 2 ^ e) * 2 ^ (52 - e)

unfoldable pub cast_num : ℤ → ℕ
unfolding double_of
cast_num (pos n) = double_of n
cast_num (negsuc n) = 2 ^ 63 + double_of (suc n)

-- `lua_number2int`, `(int)(d)`. Beyond the range of an int, C leaves the result open; here it is the least int.
unfoldable pub truncated : ℕ → ℕ
truncated n =
    let e = n / 2 ^ 52 % 2 ^ 11 in if ltb e 1023 then 0 else (2 ^ 52 + n % 2 ^ 52) / 2 ^ (1075 - e)

unfoldable pub number2int : ℕ → ℤ
unfolding truncated
number2int n =
    if ltb 1053 (n / 2 ^ 52 % 2 ^ 11)
    then negsuc (2 ^ 31 - 1)
    else if ltb n (2 ^ 63)
    then pos (truncated n)
    else if truncated n == 0
    then pos 0
    else negsuc (truncated n - 1)

unfoldable pub rawequal : TValue → TValue → Bool
unfolding numeq
rawequal nil nil = true
rawequal (boolean a) (boolean b) = a == b
rawequal (lightuserdata a) (lightuserdata b) = a == b
rawequal (number a) (number b) = numeq a b
rawequal (object s a) (object t b) = s == t && a == b
rawequal s t = false
