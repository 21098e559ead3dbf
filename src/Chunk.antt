-- ===== src/Chunk.antt =====
-- Precompiled chunks. The prototype of a function as lua-5.1.5/src/lobject.h declares it; dumping
-- it is in Chunk/Dump, loading it in Chunk/Load. The machine is one of 64 bits, little-endian, with an int
-- and an Instruction of 4 bytes, and a size_t and a lua_Number of 8: an object in memory is the
-- list of its bytes. A lua_Number is the number whose binary digits are those of the double.
pub mod Dump
pub mod Load
pub mod Encode
pub mod Feed
pub mod Decodes
pub mod Parts
pub mod Received
pub mod Function
pub mod RoundTrip
use Prim.Native.Nat.{ℕ, zero, suc, ◌+◌, ◌*◌, ◌/◌, ◌%◌}
use unitu_lua_test.Base.{List, [], ◌∷◌, ◌++◌, Bool, Option}
use unitu_lua_test.Base.Text.{codes}

-- The bytes of a Lua string, without the zero byte that ends it. `none` is the pointer NULL.
abbrev pub TString : Type 0
TString = Option (List ℕ)

-- The values that a compiler leaves in a table of constants.
pub data Constant : Type 0 where
  nil : Constant
  boolean : Bool → Constant
  number : ℕ → Constant
  string : TString → Constant

pub record LocVar : Type 0 where
  pub varname : TString
  pub startpc : ℕ
  pub endpc : ℕ

-- The fields of a `Proto` but for the prototypes inside it. A size is the length of its array.
pub record Info : Type 0 where
  pub source : TString
  pub linedefined : ℕ
  pub lastlinedefined : ℕ
  pub nups : ℕ
  pub numparams : ℕ
  pub is_vararg : ℕ
  pub maxstacksize : ℕ
  pub code : List ℕ
  pub k : List Constant
  pub lineinfo : List ℕ
  pub locvars : List LocVar
  pub upvalues : List TString

mutual
  pub data Proto : Type 0 where
    proto : Info → Protos → Proto

  -- the array `p` of a prototype
  pub data Protos : Type 0 where
    none_left : Protos
    one_more : Proto → Protos → Protos

abbrev pub info : Proto → Info
info (proto i ps) = i

-- The `w` bytes of a number in memory, and the number that they stand for.
unfoldable pub to_bytes : ℕ → ℕ → List ℕ
to_bytes zero x = []
to_bytes (suc w) x = (x % 256) ∷ to_bytes w (x / 256)

unfoldable pub from_bytes : List ℕ → ℕ
from_bytes [] = 0
from_bytes (b ∷ bs) = b + 256 * from_bytes bs

-- An array of numbers of `w` bytes each.
unfoldable pub array_bytes : ℕ → List ℕ → List ℕ
array_bytes w [] = []
array_bytes w (x ∷ xs) = to_bytes w x ++ array_bytes w xs

-- `luaU_header`: the signature, version 5.1, the official format, little-endian, the sizes of int, size_t,
-- Instruction and lua_Number, and that a lua_Number is no integer.
unfoldable pub header : List ℕ
header = 27 ∷ codes "Lua" ++ 0x51 ∷ 0 ∷ 1 ∷ 4 ∷ 8 ∷ 4 ∷ 8 ∷ 0 ∷ []
