-- ===== src/Tests/Chunks.antt =====
-- A function with one function inside it, dumped and loaded (lua-5.1.5/src/ldump.c, lundump.c).
use unitu_lua_test.Base.{
  ℕ, ◌≡◌, refl, arith, Bool, true, false, List, [], ◌∷◌, ◌++◌, take, length, some, none,
}
use unitu_lua_test.Base.Text.{codes}
use unitu_lua_test.Chunk.{
  boolean, number, string, nil, Info, Proto, proto, none_left, one_more, to_bytes, array_bytes,
  header,
}
use unitu_lua_test.Chunk.Dump.{
  dump, append_writer, dump_function, dump_prefix, dump_header, dump_block, dump_char, dump_int,
  dump_number, dump_vector, dump_string, dump_constant, dump_each, dump_locvar, dump_debug,
  same_string,
}
use unitu_lua_test.Chunk.Load.{undump, ok, chunk_source}
use unitu_lua_test.Chunk.Encode.{source_left, function_blocks}
use unitu_lua_test.Chunk.Feed.{feed, dump-feed}
use unitu_lua_test.Chunk.Received.{received, IsLoadable, IsNamed, source_got}
use unitu_lua_test.Chunk.RoundTrip.{undump-dump, undump-dump_named}
use unitu_lua_test.Zio.{Zio, init}
use unitu_lua_test.Zio.Read.{stream, content}

abbrev inner : Info
inner = record {
  source = some (codes "@a");
  linedefined = 2;
  lastlinedefined = 3;
  nups = 0;
  numparams = 1;
  is_vararg = 0;
  maxstacksize = 2;
  code = 30 ∷ [];
  k = nil ∷ [];
  lineinfo = 3 ∷ [];
  locvars = record { varname = some (codes "x"); startpc = 0; endpc = 1 } ∷ [];
  upvalues = [];
}

abbrev outer : Info
outer = record {
  source = some (codes "@a");
  linedefined = 0;
  lastlinedefined = 0;
  nups = 0;
  numparams = 0;
  is_vararg = 2;
  maxstacksize = 2;
  code = 36 ∷ 30 ∷ [];
  k = boolean true ∷ number 5 ∷ string (some (codes "f")) ∷ [];
  lineinfo = 1 ∷ 1 ∷ [];
  locvars = [];
  upvalues = [];
}

abbrev two_functions : Proto
two_functions = proto outer (one_more (proto inner none_left) none_left)

abbrev accept_all : Proto → Bool
accept_all f = true

loadable : IsLoadable accept_all false two_functions 200 none chunk_source
unfolding IsLoadable source_left source_got same_string
loadable = (omega arith, omega arith, refl, ((omega arith, omega arith, refl, tt), tt))

all : Unit {0}
unfolding dump append_writer dump_function dump_prefix dump_header dump_block dump_char dump_int
    dump_number dump_vector dump_string dump_constant dump_each dump_locvar dump_debug same_string
    to_bytes array_bytes header
all = tt

abbrev dumped : List ℕ
dumped = (dump append_writer two_functions [] false).1

size_dumped : length dumped ≡ 168
unfolding all
size_dumped = refl

one_block : stream (dumped ∷ []) ≡ dumped
unfolding all stream
one_block = refl

undump-dump_example :
    (z : Zio) × (undump accept_all 200 (init (dumped ∷ []))
      ≡ ok (received false two_functions none chunk_source) z)
    × (content z ≡ [])
undump-dump_example =
    undump-dump accept_all 200 false two_functions (dumped ∷ []) loadable one_block

named : IsNamed two_functions
unfolding IsNamed
named = (λ e. cc, ((λ e. cc, tt), tt))

undump-dump_named_example :
    (z : Zio) × (undump accept_all 200 (init (dumped ∷ [])) ≡ ok two_functions z) × (content z ≡ [])
undump-dump_named_example =
    undump-dump_named accept_all 200 two_functions (dumped ∷ []) loadable named one_block

-- The chunk without its last byte.
abbrev most : List ℕ
most = take 167 dumped

-- A writer that fails at once is called once.
dump_failing : dump (λ b s. (1, b ++ s)) two_functions [] false ≡ (1, header)
unfolding all
dump_failing = refl

dump-feed_example :
    dump append_writer two_functions [] false
    ≡ feed append_writer (header ∷ function_blocks false two_functions none) []
dump-feed_example = dump-feed append_writer two_functions [] false
