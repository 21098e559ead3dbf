-- ===== src/Chunk/Load.antt =====
-- Loading a precompiled chunk: lua-5.1.5/src/lundump.c. A run ends in a value with the rest of the
-- input, or in an error, which the program raises. Memory does not run out.
use Prim.Native.Nat.{ℕ, zero, suc, ◌*◌, ◌-◌, ◌^◌}
use unitu_lua_test.Base.{
  List, [], ◌∷◌, ◌++◌, Bool, none, some, take, drop, ◌==◌, ltb, if◌then◌else◌, ◌||◌, not,
}
use unitu_lua_test.Base.Text.{codes}
use unitu_lua_test.Chunk.{
  TString, Constant, nil, boolean, number, string, LocVar, Proto, proto, Protos, none_left,
  one_more, from_bytes, header,
}
use unitu_lua_test.Chunk.Dump.{same_string}
use unitu_lua_test.Zio.{Zio, read}

pub data Error : Type 0 where
  unexpected_end bad_integer bad_constant code_too_deep bad_code bad_header : Error

pub data Result (A : Type 0) : Type 0 where
  ok : A → Zio → Result A
  err : Error → Result A

abbrev pub Load : Type 0 → Type 0
Load A = Zio → Result A

infixl 5 ◌>>=◌
abbrev pub ◌>>=◌ : {A B : Type 0} → Load A → (A → Load B) → Load B
◌>>=◌ m f z = elim (m z) [ ok a z' ↦ f a z' | err e ↦ err e ]

abbrev pub return : {A : Type 0} → A → Load A
return a z = ok a z

abbrev pub fail : {A : Type 0} → Error → Load A
fail e z = err e

-- The message that `error` raises: the name of the chunk and the reason.
abbrev reason : Error → List ℕ
reason unexpected_end = codes "unexpected end"
reason bad_integer = codes "bad integer"
reason bad_constant = codes "bad constant"
reason code_too_deep = codes "code too deep"
reason bad_code = codes "bad code"
reason bad_header = codes "bad header"

unfoldable pub message : List ℕ → Error → List ℕ
message name e = name ++ (codes ": " ++ (reason e ++ codes " in precompiled chunk"))

unfoldable pub load_block : ℕ → Load (List ℕ)
load_block size z = let (r, b, z') = read z size in if r == 0 then ok b z' else err unexpected_end

-- A char, by its bit pattern.
unfoldable pub load_char : Load ℕ
load_char = load_block 1 >>= λ b. return (from_bytes b)

-- `IF (x<0, "bad integer")`, on the bit pattern of an int
unfoldable pub check_int : ℕ → Load ℕ
check_int x = if ltb x (2 ^ 31) then return x else fail bad_integer

unfoldable pub load_int : Load ℕ
load_int = load_block 4 >>= λ b. check_int (from_bytes b)

unfoldable pub load_number : Load ℕ
load_number = load_block 8 >>= λ b. return (from_bytes b)

-- `LoadString` behind the size; the last byte is dropped.
unfoldable pub load_sized : ℕ → Load TString
load_sized size =
    if size == 0 then return none else (load_block size >>= λ s. return (some (take (size - 1) s)))

unfoldable pub load_string : Load TString
load_string = load_block 8 >>= λ v. load_sized (from_bytes v)

-- The elements, of 4 bytes each, of an array in memory.
unfoldable pub elements : ℕ → List ℕ → List ℕ
elements zero b = []
elements (suc n) b = from_bytes (take 4 b) ∷ elements n (drop 4 b)

unfoldable pub load_vector : ℕ → Load (List ℕ)
load_vector n = load_block (n * 4) >>= λ b. return (elements n b)

unfoldable pub load_code : Load (List ℕ)
load_code = load_int >>= load_vector

-- `switch (t)`
unfoldable pub load_value : ℕ → Load Constant
load_value t =
    if t == 0
    then return nil
    else if t == 1
    then (load_char >>= λ b. return (boolean (not (b == 0))))
    else if t == 3
    then (load_number >>= λ x. return (number x))
    else if t == 4
    then (load_string >>= λ s. return (string s))
    else fail bad_constant

unfoldable pub load_constant : Load Constant
load_constant = load_char >>= load_value

-- `for (i=0; i<n; i++)` over an array that is filled
unfoldable pub load_each : {A : Type 0} → Load A → ℕ → Load (List A)
load_each load zero = return []
load_each load (suc n) = load >>= λ x. load_each load n >>= λ xs. return (x ∷ xs)

unfoldable pub load_protos : Load Proto → ℕ → Load Protos
load_protos load zero = return none_left
load_protos load (suc n) = load >>= λ f. load_protos load n >>= λ fs. return (one_more f fs)

unfoldable pub load_locvar : Load LocVar
load_locvar = do
  name ← load_string
  start ← load_int
  end ← load_int
  return (record { varname = name; startpc = start; endpc = end })

unfoldable pub load_header : Load (Unit {0})
load_header =
    load_block 12 >>= λ s. if same_string (some s) (some header) then return tt else fail bad_header

-- The source of a chunk that has none, `luaS_newliteral(L,"=?")`.
abbrev pub chunk_source : TString
chunk_source = some (codes "=?")

-- `luaG_checkcode` of lua-5.1.5/src/ldebug.c decides which code is accepted.
module _ (checkcode : Proto → Bool) where
  -- `left` calls of C functions may be nested in the run before LUAI_MAXCCALLS is passed.
  unfoldable pub load_function : ℕ → TString → Load Proto
  load_function zero p = fail code_too_deep
  load_function (suc left) p = do
    s ← load_string
    let source : TString = if same_string s none then p else s
    linedefined ← load_int
    lastlinedefined ← load_int
    nups ← load_char
    numparams ← load_char
    is_vararg ← load_char
    maxstacksize ← load_char
    code ← load_code
    n_k ← load_int
    k ← load_each load_constant n_k
    n_p ← load_int
    fs ← load_protos (load_function left source) n_p
    lineinfo ← load_code
    n_locvars ← load_int
    locvars ← load_each load_locvar n_locvars
    n_upvalues ← load_int
    upvalues ← load_each load_string n_upvalues
    let f =
        proto
          (record {
            source = source;
            linedefined = linedefined;
            lastlinedefined = lastlinedefined;
            nups = nups;
            numparams = numparams;
            is_vararg = is_vararg;
            maxstacksize = maxstacksize;
            code = code;
            k = k;
            lineinfo = lineinfo;
            locvars = locvars;
            upvalues = upvalues;
          })
          fs
    if checkcode f then return f else fail bad_code

  -- `luaU_undump`
  unfoldable pub undump : ℕ → Load Proto
  undump left = load_header >>= λ _. load_function left chunk_source

-- The name of the chunk in messages.
unfoldable pub chunk_name : List ℕ → List ℕ
chunk_name [] = []
chunk_name (c ∷ name) =
    if (c == b'@') || (c == b'=') then name else if c == 27 then codes "binary string" else c ∷ name
