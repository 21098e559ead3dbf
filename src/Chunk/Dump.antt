-- ===== src/Chunk/Dump.antt =====
-- Saving a function as a precompiled chunk: lua-5.1.5/src/ldump.c. The writer is the caller's: it
-- takes a block of bytes and its own state, and returns a status and its next state. It is not
-- called again once a status is not 0.
use Prim.Native.Nat.{ℕ, suc, ◌+◌}
use unitu_lua_test.Base.{
  List, [], ◌∷◌, ◌++◌, Bool, true, false, none, some, length, take, ◌==◌, if◌then◌else◌, ◌&&◌, ◌||◌,
}
use unitu_lua_test.Chunk.{
  TString, Constant, nil, boolean, number, string, LocVar, Info, Proto, proto, Protos, none_left,
  one_more, to_bytes, array_bytes, header,
}

-- Strings are interned: two of them are the same object if they have the same bytes.
unfoldable pub same_bytes : List ℕ → List ℕ → Bool
same_bytes [] [] = true
same_bytes (x ∷ xs) (y ∷ ys) = (x == y) && same_bytes xs ys
same_bytes _ _ = false

unfoldable pub same_string : TString → TString → Bool
unfolding same_bytes
same_string none none = true
same_string (some a) (some b) = same_bytes a b
same_string _ _ = false

pub record DumpState (S : Type 0) : Type 0 where
  pub sink : S
  pub strip : Bool
  pub status : ℕ

abbrev pub Dump : Type 0 → Type 0
Dump S = DumpState S → DumpState S

infixr 6 ◌>>◌
abbrev pub ◌>>◌ : {S : Type 0} → Dump S → Dump S → Dump S
◌>>◌ f g d = g (f d)

abbrev pub number_protos : Protos → ℕ
number_protos none_left = 0
number_protos (one_more f fs) = suc (number_protos fs)

module _ {S : Type 0} (writer : List ℕ → S → ℕ × S) where
  unfoldable pub dump_block : List ℕ → Dump S
  dump_block b d =
      if d.status == 0
      then record d { sink = (writer b d.sink).1; status = (writer b d.sink).0 }
      else d

  unfoldable pub dump_char : ℕ → Dump S
  dump_char y = dump_block (to_bytes 1 y)

  unfoldable pub dump_int : ℕ → Dump S
  dump_int x = dump_block (to_bytes 4 x)

  unfoldable pub dump_number : ℕ → Dump S
  dump_number x = dump_block (to_bytes 8 x)

  -- the first `n` elements of an array whose elements have 4 bytes
  unfoldable pub dump_vector : List ℕ → ℕ → Dump S
  dump_vector b n = dump_int n >> dump_block (array_bytes 4 (take n b))

  unfoldable pub dump_string : TString → Dump S
  dump_string none = dump_block (to_bytes 8 0)
  dump_string (some s) = dump_block (to_bytes 8 (length s + 1)) >> dump_block (s ++ (0 ∷ []))

  unfoldable pub dump_constant : Constant → Dump S
  dump_constant nil = dump_char 0
  dump_constant (boolean b) = dump_char 1 >> dump_char (if b then 1 else 0)
  dump_constant (number x) = dump_char 3 >> dump_number x
  dump_constant (string s) = dump_char 4 >> dump_string s

  -- `for (i=0; i<n; i++)` over an array
  unfoldable pub dump_each : {A : Type 0} → (A → Dump S) → List A → Dump S
  dump_each dump [] d = d
  dump_each dump (x ∷ xs) d = dump_each dump xs (dump x d)

  unfoldable pub dump_locvar : LocVar → Dump S
  dump_locvar v = dump_string v.varname >> dump_int v.startpc >> dump_int v.endpc

  unfoldable pub dump_debug : Info → Dump S
  dump_debug f d =
      let n : ℕ = if d.strip then 0 else length f.lineinfo in
      let m : ℕ = if d.strip then 0 else length f.locvars in
      let u : ℕ = if d.strip then 0 else length f.upvalues in
      (dump_vector f.lineinfo n
          >> dump_int m
          >> dump_each dump_locvar (take m f.locvars)
          >> dump_int u
          >> dump_each dump_string (take u f.upvalues))
        d

  -- What `DumpFunction` writes before the prototypes inside the function, whose number is `n`: its
  -- own fields, the code, and the first half of `DumpConstants`.
  unfoldable pub dump_prefix : Info → TString → ℕ → Dump S
  dump_prefix f p n d =
      (dump_string (if same_string f.source p || d.strip then none else f.source)
          >> dump_int f.linedefined
          >> dump_int f.lastlinedefined
          >> dump_char f.nups
          >> dump_char f.numparams
          >> dump_char f.is_vararg
          >> dump_char f.maxstacksize
          >> dump_vector f.code (length f.code)
          >> dump_int (length f.k)
          >> dump_each dump_constant f.k
          >> dump_int n)
        d

  unfoldable mutual
    pub dump_function : Proto → TString → Dump S
    dump_function (proto f fs) p d =
        dump_debug f (dump_protos fs f.source (dump_prefix f p (number_protos fs) d))

    pub dump_protos : Protos → TString → Dump S
    dump_protos none_left source d = d
    dump_protos (one_more f fs) source d = dump_protos fs source (dump_function f source d)

  unfoldable pub dump_header : Dump S
  dump_header = dump_block header

  -- `luaU_dump`: the status, and the writer's last state
  unfoldable pub dump : Proto → S → Bool → ℕ × S
  dump f w strip =
      let d = dump_function f none (dump_header (record { sink = w; strip = strip; status = 0 })) in
      (d.status, d.sink)

-- The writer of `string.dump` (`writer` in lua-5.1.5/src/lstrlib.c), which adds the block to a buffer.
unfoldable pub append_writer : List ℕ → List ℕ → ℕ × List ℕ
append_writer b buffer = (0, buffer ++ b)
