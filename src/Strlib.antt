-- ===== src/Strlib.antt =====
-- The library of strings: lua-5.1.5/src/lstrlib.c. Here are the format %q and the search for a plain text. A buffer (luaL_Buffer) is the list of
-- what was added to it.
pub mod First
use unitu_lua_test.Base.{
  ℕ, zero, suc, ◌+◌, ◌-◌, ltb, ◌==◌, if◌then◌else◌, ◌||◌, List, [], ◌∷◌, ◌++◌, length, take, drop,
  Option, none, some,
}
use unitu_lua_test.Base.Text.{codes}
use unitu_lua_test.Chunk.Dump.{same_bytes}
use mathlib.Core.Option.{map}

-- `switch (*s)`
unfoldable pub quote_char : ℕ → List ℕ
quote_char c =
    if c == 34 || c == 92 || c == 10
    then 92 ∷ c ∷ []
    else if c == 13
    then codes "\\r"
    else if c == 0
    then codes "\\000"
    else c ∷ []

unfoldable pub quote_chars : List ℕ → List ℕ
quote_chars [] = []
quote_chars (c ∷ s) = quote_char c ++ quote_chars s

unfoldable pub addquoted : List ℕ → List ℕ → List ℕ
addquoted b s = b ++ (34 ∷ (quote_chars s ++ (34 ∷ [])))

-- `memchr` of the C library: where `c` is among the first `n` characters
unfoldable pub memchr : ℕ → ℕ → List ℕ → Option ℕ
memchr c zero s = none
memchr c (suc n) [] = none
memchr c (suc n) (d ∷ s) = let rest = map suc (memchr c n s) in if d == c then some 0 else rest

-- The loop of `lmemfind`, for the text `c` ∷ `s2`. `s1` starts at the position `start`, and `l1` characters of it may be
-- the first one.
unfoldable pub find_loop : ℕ → ℕ → List ℕ → ℕ → ℕ → List ℕ → Option ℕ
find_loop zero c s2 start l1 s1 = none
find_loop (suc fuel) c s2 start l1 s1 = elim (memchr c l1 s1) [
  | none ↦ none
  | some i ↦
      let init = drop (suc i) s1 in
      let rest = find_loop fuel c s2 (start + suc i) (l1 - suc i) init in
      if same_bytes (take (length s2) init) s2 then some (start + i) else rest
]

unfoldable pub lmemfind : List ℕ → List ℕ → Option ℕ
lmemfind s1 [] = some 0
lmemfind s1 (c ∷ s2) =
    let l1 = length s1 - length s2 in
    if ltb (length s1) (suc (length s2)) then none else find_loop (suc l1) c s2 0 l1 s1
