-- ===== src/Chunk/Encode.antt =====
-- The format of a precompiled chunk, as the blocks of bytes that make it up; it is the one of
-- lua-5.1.5/src/ldump.c and lundump.c.
use unitu_lua_test.Base.{
  ℕ, ◌+◌, if◌then◌else◌, ◌||◌, true, false, Bool, List, [], ◌∷◌, ◌++◌, length, none, some,
}
use unitu_lua_test.Chunk.{
  TString, Constant, nil, boolean, number, string, LocVar, Info, Proto, proto, Protos, none_left,
  one_more, to_bytes, array_bytes,
}
use unitu_lua_test.Chunk.Dump.{same_string, number_protos}

abbrev pub Blocks : Type 0
Blocks = List (List ℕ)

unfoldable pub vector_blocks : List ℕ → Blocks
vector_blocks xs = to_bytes 4 (length xs) ∷ array_bytes 4 xs ∷ []

unfoldable pub string_blocks : TString → Blocks
string_blocks none = to_bytes 8 0 ∷ []
string_blocks (some s) = to_bytes 8 (length s + 1) ∷ (s ++ 0 ∷ []) ∷ []

unfoldable pub constant_blocks : Constant → Blocks
constant_blocks nil = to_bytes 1 0 ∷ []
constant_blocks (boolean b) = to_bytes 1 1 ∷ to_bytes 1 (if b then 1 else 0) ∷ []
constant_blocks (number x) = to_bytes 1 3 ∷ to_bytes 8 x ∷ []
constant_blocks (string s) = to_bytes 1 4 ∷ string_blocks s

unfoldable pub each_blocks : {A : Type 0} → (A → Blocks) → List A → Blocks
each_blocks f [] = []
each_blocks f (x ∷ xs) = f x ++ each_blocks f xs

unfoldable pub locvar_blocks : LocVar → Blocks
locvar_blocks v = string_blocks v.varname ++ (to_bytes 4 v.startpc ∷ to_bytes 4 v.endpc ∷ [])

-- an array: its size, and its elements
unfoldable pub array_blocks : {A : Type 0} → (A → Blocks) → List A → Blocks
array_blocks f xs = to_bytes 4 (length xs) ∷ each_blocks f xs

-- The debug information; a stripped chunk has none.
unfoldable pub shown_debug : {A : Type 0} → Bool → List A → List A
shown_debug true xs = []
shown_debug false xs = xs

unfoldable pub debug_blocks : Bool → Info → Blocks
debug_blocks strip f =
    vector_blocks (shown_debug strip f.lineinfo)
    ++ (array_blocks locvar_blocks (shown_debug strip f.locvars)
        ++ array_blocks string_blocks (shown_debug strip f.upvalues))

-- The name of the source is left out where it is that of the enclosing function.
unfoldable pub source_left : Bool → TString → TString → TString
source_left strip source p = if same_string source p || strip then none else source

-- A function up to the number of the functions inside it.
unfoldable pub prefix_blocks : Bool → Info → TString → ℕ → Blocks
prefix_blocks strip f p n =
    string_blocks (source_left strip f.source p)
    ++ (to_bytes 4 f.linedefined
        ∷ to_bytes 4 f.lastlinedefined
        ∷ to_bytes 1 f.nups
        ∷ to_bytes 1 f.numparams
        ∷ to_bytes 1 f.is_vararg
        ∷ to_bytes 1 f.maxstacksize
        ∷ (vector_blocks f.code ++ (array_blocks constant_blocks f.k ++ (to_bytes 4 n ∷ []))))

unfoldable mutual
  pub function_blocks : Bool → Proto → TString → Blocks
  function_blocks strip (proto f fs) p =
      prefix_blocks strip f p (number_protos fs)
      ++ (protos_blocks strip fs f.source ++ debug_blocks strip f)

  pub protos_blocks : Bool → Protos → TString → Blocks
  protos_blocks strip none_left source = []
  protos_blocks strip (one_more f fs) source =
      function_blocks strip f source ++ protos_blocks strip fs source
