-- ===== src/Tests/Objects.antt =====
-- Functions over objects (lua-5.1.5/src/lobject.c) at concrete values.
use unitu_lua_test.Base.{ℕ, ◌+◌, ◌-◌, ◌^◌, ◌*◌, ◌≤◌, ◌<◌, ◌≡◌, refl, arith, length, All}
use unitu_lua_test.Base.Int.{pos, negsuc, ◌+ℤ◌}
use unitu_lua_test.Base.Text.{codes}
use unitu_lua_test.Object.{
  int2fb_loop, float_byte, int2fb, as_int, fb2int, log2_loop, log2, chunkid,
}
use unitu_lua_test.Object.FloatByte.{fb2int-int2fb}
use unitu_lua_test.Object.ChunkId.{IsInLine, chunkid-fits, chunkid-IsInLine}

int2fb_1000 : int2fb 1000 ≡ 64
unfolding int2fb int2fb_loop float_byte
int2fb_1000 = refl

-- 15 * 2 ^ 27 + 1 is rounded up to 2 ^ 31, which is no int.
fb2int_wraps : fb2int (int2fb (15 * 2 ^ 27 + 1)) ≡ negsuc (2 ^ 31 - 1)
unfolding fb2int as_int int2fb int2fb_loop float_byte
fb2int_wraps = refl

fb2int-int2fb_example :
    (int2fb 1000 < 256)
    × ((y : ℕ) × (fb2int (int2fb 1000) ≡ pos y) × (1000 ≤ y) × (7 * y ≤ 8 * 1000))
fb2int-int2fb_example = fb2int-int2fb 1000 (omega arith)

log2_of_zero : log2 0 ≡ negsuc 0
unfolding log2 log2_loop ◌+ℤ◌
log2_of_zero = refl

short_name : chunkid (codes "@/a/long/path/of/a/file.lua") 24 ≡ codes "...th/of/a/file.lua"
unfolding chunkid
short_name = refl

chunkid-fits_example : length (chunkid (codes "x = 1") 60) < 60
chunkid-fits_example = chunkid-fits (codes "x = 1") 60 (omega arith) (omega arith)

chunkid-IsInLine_example : All IsInLine (chunkid (codes "x = 1") 60)
chunkid-IsInLine_example = chunkid-IsInLine b'x' (codes " = 1") 60 (omega arith) (omega arith)
