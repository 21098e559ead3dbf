-- ===== src/Tests/Finds.antt =====
-- The search for a plain text (lua-5.1.5/src/lstrlib.c) at concrete texts.
use unitu_lua_test.Base.{◌≡◌, refl, some, none}
use unitu_lua_test.Base.Text.{codes}
use unitu_lua_test.Chunk.Dump.{same_bytes}
use unitu_lua_test.Strlib.{memchr, find_loop, lmemfind}
use unitu_lua_test.Strlib.First.{IsFirst, lmemfind-IsFirst}

third : lmemfind (codes "aaab") (codes "ab") ≡ some 2
unfolding lmemfind find_loop memchr same_bytes
third = refl

too_short : lmemfind (codes "a") (codes "ab") ≡ none
unfolding lmemfind
too_short = refl

lmemfind-IsFirst_example :
    IsFirst (codes "ab") (codes "aaab") (lmemfind (codes "aaab") (codes "ab"))
lmemfind-IsFirst_example = lmemfind-IsFirst (codes "aaab") (codes "ab")
