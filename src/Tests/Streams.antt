-- ===== src/Tests/Streams.antt =====
-- Input streams (lua-5.1.5/src/lzio.c) at concrete values.
use unitu_lua_test.Base.{◌≡◌, refl, arith, [], ◌∷◌, take, drop}
use unitu_lua_test.Zio.{Zio, fill, lookahead, zgetc, init, read_loop, read}
use unitu_lua_test.Zio.Read.{IsValid, content, stream, read_enough}

abbrev two_blocks : Zio
two_blocks = record { n = 1; buff = 7 ∷ 8 ∷ []; p = 1; blocks = (9 ∷ 10 ∷ []) ∷ [] }

valid : IsValid two_blocks
valid = record { rest = omega arith }

read_across : (read two_blocks 2).1 ≡ 8 ∷ 9 ∷ []
unfolding read read_loop lookahead fill
read_across = refl

-- Behind the end of the input `n` has wrapped around.
zgetc_past_end :
    (zgetc (init [])).1 ≡ record { n = 0xffff_ffff_ffff_ffff; buff = []; p = 0; blocks = [] }
unfolding zgetc init fill
zgetc_past_end = refl

read_enough_example :
    ((read two_blocks 2).0 ≡ 0)
    × ((read two_blocks 2).1 ≡ take 2 (content two_blocks))
    × IsValid (read two_blocks 2).2
    × (content (read two_blocks 2).2 ≡ drop 2 (content two_blocks))
unfolding content stream
read_enough_example = read_enough two_blocks 2 valid (omega arith)
