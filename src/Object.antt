-- ===== src/Object.antt =====
-- Generic functions over objects: lua-5.1.5/src/lobject.c and the macros of lobject.h that go with
-- it. An unsigned int is a number below 2 ^ 32, with its wrap-around written out.
pub mod Value
pub mod Whole
pub mod FloatByte
pub mod Log
pub mod ChunkId
use Prim.Native.Nat.{ℕ, zero, suc, ◌+◌, ◌-◌, ◌*◌, ◌/◌, ◌%◌, ◌^◌, bit_and, bit_or}
use unitu_lua_test.Base.{
  ltb, leb, ◌==◌, if◌then◌else◌, ◌||◌, List, [], ◌∷◌, ◌++◌, get_or, length, take, drop, replicate,
  true, false, Bool,
}
use unitu_lua_test.Base.Int.{ℤ, pos, negsuc, ◌+ℤ◌}
use unitu_lua_test.Base.Text.{codes}

-- The loop of `luaO_int2fb`: `x` and the exponent.
unfoldable pub int2fb_loop : ℕ → ℕ → ℕ → ℕ × ℕ
int2fb_loop zero x e = (x, e)
int2fb_loop (suc fuel) x e = elim (leb 16 x) [
  | true ↦ int2fb_loop fuel ((x + 1) % 2 ^ 32 / 2) (e + 1)
  | false ↦ (x, e)
]

-- What `luaO_int2fb` returns behind its loop.
unfoldable pub float_byte : ℕ × ℕ → ℕ
float_byte (x, e) = if ltb x 8 then x else bit_or ((e + 1) * 2 ^ 3) (x - 8)

-- 32 rounds are enough for every unsigned int.
unfoldable pub int2fb : ℕ → ℕ
int2fb x = float_byte (int2fb_loop 32 x 0)

-- The 32 bits of an int.
unfoldable pub as_int : ℕ → ℤ
as_int w = if ltb w (2 ^ 31) then pos w else negsuc (2 ^ 32 - w - 1)

-- The shift is one of an int. C leaves open what a shift beyond the largest int gives; here it wraps around.
unfoldable pub fb2int : ℕ → ℤ
fb2int x =
    let e = bit_and (x / 2 ^ 3) 31 in
    if e == 0 then pos x else as_int ((bit_and x 7 + 8) * 2 ^ (e - 1) % 2 ^ 32)

-- The table `log_2`; a run of equal entries is written once.
abbrev pub log_2 : List ℕ
log_2 =
    0 ∷ 1 ∷ replicate 2 2
    ++ replicate 4 3
    ++ replicate 8 4
    ++ replicate 16 5
    ++ replicate 32 6
    ++ replicate 64 7
    ++ replicate 128 8

-- The loop of `luaO_log2`, and what follows it.
unfoldable pub log2_loop : ℕ → ℕ → ℤ → ℤ
log2_loop zero x l = l +ℤ pos (get_or log_2 x 0)
log2_loop (suc fuel) x l = elim (leb 256 x) [
  | true ↦ log2_loop fuel (x / 2 ^ 8) (l +ℤ pos 8)
  | false ↦ l +ℤ pos (get_or log_2 x 0)
]

-- Three rounds bring every unsigned int below 256.
unfoldable pub log2 : ℕ → ℤ
log2 x = log2_loop 3 x (negsuc 0)

-- `ceillog2(x)`; `x - 1` is computed in an unsigned int
unfoldable pub ceillog2 : ℕ → ℤ
ceillog2 x = log2 ((x + 2 ^ 32 - 1) % 2 ^ 32) +ℤ pos 1

-- `strcspn(source, "\n\r")`
unfoldable pub line_length : List ℕ → ℕ
line_length [] = 0
line_length (c ∷ s) = let rest = line_length s in if (c == 10) || (c == 13) then 0 else rest + 1

-- `luaO_chunkid`: the C string that it leaves in `out`, without the zero byte that ends it.
-- A subtraction from `bufflen`, of type size_t, wraps around.
unfoldable pub chunkid_file : List ℕ → ℕ → List ℕ
chunkid_file source bufflen =
    let room = (bufflen + 2 ^ 64 - 8) % 2 ^ 64 in
    let l = length source in if ltb room l then codes "..." ++ drop (l - room) source else source

unfoldable pub chunkid_text : List ℕ → ℕ → List ℕ
chunkid_text source bufflen =
    let len = line_length source in
    let room = (bufflen + 2 ^ 64 - 17) % 2 ^ 64 in
    let len' = if ltb room len then room else len in
    codes "[string \""
    ++ ((if ltb len' (length source) then take len' source ++ codes "..." else source)
        ++ codes "\"]")

unfoldable pub chunkid : List ℕ → ℕ → List ℕ
unfolding chunkid_file chunkid_text
chunkid [] bufflen = chunkid_text [] bufflen
chunkid (c ∷ source) bufflen =
    if c == b'='
    then take (bufflen - 1) source
    else if c == b'@'
    then chunkid_file source bufflen
    else chunkid_text (c ∷ source) bufflen
