-- ===== src/Zio.antt =====
-- Buffered input streams: lua-5.1.5/src/lzio.c and lzio.h. The reader is the caller's: what it is
-- going to return is a list of blocks, behind which it returns NULL; a block of size 0 ends the
-- input as well. `p` is an index into the block that was read last. The end of the stream, EOZ, is `none`.
pub mod Read
use Prim.Native.Nat.{ℕ, zero, suc, ◌+◌, ◌-◌, ◌%◌, ◌^◌}
use unitu_lua_test.Base.{
  ltb, leb, ◌==◌, if◌then◌else◌, List, [], ◌∷◌, ◌++◌, get_or, length, take, drop, Option, none,
  some, true, false,
}

pub record Zio : Type 0 where
  pub n : ℕ
  pub buff : List ℕ
  pub p : ℕ
  pub blocks : List (List ℕ)

-- `z->reader(L, z->data, &size)` followed by the rest of `luaZ_fill`
fill_from : Zio → List (List ℕ) → Option ℕ × Zio
fill_from z [] = (none, z)
fill_from z ([] ∷ bs) = (none, record z { blocks = bs })
fill_from z ((c ∷ cs) ∷ bs) = (some c, record { n = length cs; buff = c ∷ cs; p = 1; blocks = bs })

unfoldable pub fill : Zio → Option ℕ × Zio
unfolding fill_from
fill z = fill_from z z.blocks

-- `luaZ_fill` removed the first byte; put back it.
put_back : Option ℕ × Zio → Option ℕ × Zio
put_back (none, z) = (none, z)
put_back (some _, z) =
    let z' = record z { n = z.n + 1; p = z.p - 1 } in (some (get_or z'.buff z'.p 0), z')

unfoldable pub lookahead : Zio → Option ℕ × Zio
unfolding put_back
lookahead z = if z.n == 0 then put_back (fill z) else (some (get_or z.buff z.p 0), z)

-- `zgetc`; `n--` is computed in a size_t
unfoldable pub zgetc : Zio → Option ℕ × Zio
zgetc z =
    let z' = record z { n = (z.n + 2 ^ 64 - 1) % 2 ^ 64 } in
    if ltb 0 z.n then (some (get_or z.buff z.p 0), record z' { p = z.p + 1 }) else fill z'

unfoldable pub init : List (List ℕ) → Zio
init blocks = record { n = 0; buff = []; p = 0; blocks = blocks }

-- The loop of `luaZ_read`: the number of missing bytes, what was written to `b` so far, and the
-- stream. Each round takes a byte at least, so `n` rounds are enough.
unfoldable pub read_loop : ℕ → Zio → List ℕ → ℕ → ℕ × List ℕ × Zio
unfolding lookahead
read_loop zero z b n = (n, b, z)
read_loop (suc fuel) z b n = elim (n == 0) [
  | true ↦ (0, b, z)
  | false ↦
      let (c, z') = lookahead z in
      elim c [
        | none ↦ (n, b, z')
        | some _ ↦
            let m = if leb n z'.n then n else z'.n in
            read_loop fuel (record z' { n = z'.n - m; p = z'.p + m })
              (b ++ take m (drop z'.p z'.buff)) (n - m)
      ]
]

unfoldable pub read : Zio → ℕ → ℕ × List ℕ × Zio
unfolding read_loop
read z n = read_loop n z [] n
