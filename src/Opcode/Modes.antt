-- ===== src/Opcode/Modes.antt =====
-- The opcodes in the order of their numbers (lua-5.1.5/src/lopcodes.h) and the table of their modes
-- (lua-5.1.5/src/lopcodes.c), with the macros that take an entry of the table apart.
use native.Mathlib.Omega.{arith}
use unitu_lua_test.Base.{
  ℕ, ◌*◌, ◌^◌, ◌<◌, ◌≡◌, refl, bit_and, bit_or, List, [], ◌∷◌, get_or, length, Bool, true, false,
}
use unitu_lua_test.Opcode.{shift_right}

pub data OpCode : Type 0 where
  op_move op_loadk op_loadbool op_loadnil op_getupval op_getglobal op_gettable : OpCode
  op_setglobal op_setupval op_settable op_newtable op_self op_add op_sub op_mul op_div : OpCode
  op_mod op_pow op_unm op_not op_len op_concat op_jmp op_eq op_lt op_le op_test : OpCode
  op_testset op_call op_tailcall op_return op_forloop op_forprep op_tforloop op_setlist : OpCode
  op_close op_closure op_vararg : OpCode

pub data OpMode : Type 0 where
  iabc iabx iasbx : OpMode

-- not used, used, a register or a jump offset, a constant or register
pub data OpArgMask : Type 0 where
  arg_n arg_u arg_r arg_k : OpArgMask

unfoldable pub opcode_number : OpCode → ℕ
opcode_number op_move = 0
opcode_number op_loadk = 1
opcode_number op_loadbool = 2
opcode_number op_loadnil = 3
opcode_number op_getupval = 4
opcode_number op_getglobal = 5
opcode_number op_gettable = 6
opcode_number op_setglobal = 7
opcode_number op_setupval = 8
opcode_number op_settable = 9
opcode_number op_newtable = 10
opcode_number op_self = 11
opcode_number op_add = 12
opcode_number op_sub = 13
opcode_number op_mul = 14
opcode_number op_div = 15
opcode_number op_mod = 16
opcode_number op_pow = 17
opcode_number op_unm = 18
opcode_number op_not = 19
opcode_number op_len = 20
opcode_number op_concat = 21
opcode_number op_jmp = 22
opcode_number op_eq = 23
opcode_number op_lt = 24
opcode_number op_le = 25
opcode_number op_test = 26
opcode_number op_testset = 27
opcode_number op_call = 28
opcode_number op_tailcall = 29
opcode_number op_return = 30
opcode_number op_forloop = 31
opcode_number op_forprep = 32
opcode_number op_tforloop = 33
opcode_number op_setlist = 34
opcode_number op_close = 35
opcode_number op_closure = 36
opcode_number op_vararg = 37

abbrev pub mode_number : OpMode → ℕ
mode_number iabc = 0
mode_number iabx = 1
mode_number iasbx = 2

abbrev pub arg_number : OpArgMask → ℕ
arg_number arg_n = 0
arg_number arg_u = 1
arg_number arg_r = 2
arg_number arg_k = 3

unfoldable pub opmode : ℕ → ℕ → ℕ → ℕ → ℕ → ℕ
opmode t a b c m =
    bit_or (bit_or (bit_or (bit_or (t * 2 ^ 7) (a * 2 ^ 6)) (b * 2 ^ 4)) (c * 2 ^ 2)) m

unfoldable pub opmodes : List ℕ
unfolding opmode
opmodes =
    opmode 0 1 (arg_number arg_r) (arg_number arg_n) (mode_number iabc)
    ∷ opmode 0 1 (arg_number arg_k) (arg_number arg_n) (mode_number iabx)
    ∷ opmode 0 1 (arg_number arg_u) (arg_number arg_u) (mode_number iabc)
    ∷ opmode 0 1 (arg_number arg_r) (arg_number arg_n) (mode_number iabc)
    ∷ opmode 0 1 (arg_number arg_u) (arg_number arg_n) (mode_number iabc)
    ∷ opmode 0 1 (arg_number arg_k) (arg_number arg_n) (mode_number iabx)
    ∷ opmode 0 1 (arg_number arg_r) (arg_number arg_k) (mode_number iabc)
    ∷ opmode 0 0 (arg_number arg_k) (arg_number arg_n) (mode_number iabx)
    ∷ opmode 0 0 (arg_number arg_u) (arg_number arg_n) (mode_number iabc)
    ∷ opmode 0 0 (arg_number arg_k) (arg_number arg_k) (mode_number iabc)
    ∷ opmode 0 1 (arg_number arg_u) (arg_number arg_u) (mode_number iabc)
    ∷ opmode 0 1 (arg_number arg_r) (arg_number arg_k) (mode_number iabc)
    ∷ opmode 0 1 (arg_number arg_k) (arg_number arg_k) (mode_number iabc)
    ∷ opmode 0 1 (arg_number arg_k) (arg_number arg_k) (mode_number iabc)
    ∷ opmode 0 1 (arg_number arg_k) (arg_number arg_k) (mode_number iabc)
    ∷ opmode 0 1 (arg_number arg_k) (arg_number arg_k) (mode_number iabc)
    ∷ opmode 0 1 (arg_number arg_k) (arg_number arg_k) (mode_number iabc)
    ∷ opmode 0 1 (arg_number arg_k) (arg_number arg_k) (mode_number iabc)
    ∷ opmode 0 1 (arg_number arg_r) (arg_number arg_n) (mode_number iabc)
    ∷ opmode 0 1 (arg_number arg_r) (arg_number arg_n) (mode_number iabc)
    ∷ opmode 0 1 (arg_number arg_r) (arg_number arg_n) (mode_number iabc)
    ∷ opmode 0 1 (arg_number arg_r) (arg_number arg_r) (mode_number iabc)
    ∷ opmode 0 0 (arg_number arg_r) (arg_number arg_n) (mode_number iasbx)
    ∷ opmode 1 0 (arg_number arg_k) (arg_number arg_k) (mode_number iabc)
    ∷ opmode 1 0 (arg_number arg_k) (arg_number arg_k) (mode_number iabc)
    ∷ opmode 1 0 (arg_number arg_k) (arg_number arg_k) (mode_number iabc)
    ∷ opmode 1 1 (arg_number arg_r) (arg_number arg_u) (mode_number iabc)
    ∷ opmode 1 1 (arg_number arg_r) (arg_number arg_u) (mode_number iabc)
    ∷ opmode 0 1 (arg_number arg_u) (arg_number arg_u) (mode_number iabc)
    ∷ opmode 0 1 (arg_number arg_u) (arg_number arg_u) (mode_number iabc)
    ∷ opmode 0 0 (arg_number arg_u) (arg_number arg_n) (mode_number iabc)
    ∷ opmode 0 1 (arg_number arg_r) (arg_number arg_n) (mode_number iasbx)
    ∷ opmode 0 1 (arg_number arg_r) (arg_number arg_n) (mode_number iasbx)
    ∷ opmode 1 0 (arg_number arg_n) (arg_number arg_u) (mode_number iabc)
    ∷ opmode 0 0 (arg_number arg_u) (arg_number arg_u) (mode_number iabc)
    ∷ opmode 0 0 (arg_number arg_n) (arg_number arg_n) (mode_number iabc)
    ∷ opmode 0 1 (arg_number arg_u) (arg_number arg_n) (mode_number iabx)
    ∷ opmode 0 1 (arg_number arg_u) (arg_number arg_n) (mode_number iabc)
    ∷ []

unfoldable pub get_op_mode : ℕ → ℕ
get_op_mode m = bit_and (get_or opmodes m 0) 3

unfoldable pub get_b_mode : ℕ → ℕ
get_b_mode m = bit_and (shift_right (get_or opmodes m 0) 4) 3

unfoldable pub get_c_mode : ℕ → ℕ
get_c_mode m = bit_and (shift_right (get_or opmodes m 0) 2) 3

unfoldable pub test_a_mode : ℕ → ℕ
test_a_mode m = bit_and (get_or opmodes m 0) (2 ^ 6)

unfoldable pub test_t_mode : ℕ → ℕ
test_t_mode m = bit_and (get_or opmodes m 0) (2 ^ 7)

-- The format that the comment behind each opcode in the header gives: Bx, sBx, or A, B and C.
unfoldable pub format : OpCode → OpMode
format op_loadk = iabx
format op_getglobal = iabx
format op_setglobal = iabx
format op_jmp = iasbx
format op_forloop = iasbx
format op_forprep = iasbx
format op_closure = iabx
format _ = iabc

-- The opcodes whose comment says that the next instruction may be skipped and stays a jump.
unfoldable pub is_test : OpCode → Bool
is_test op_eq = true
is_test op_lt = true
is_test op_le = true
is_test op_test = true
is_test op_testset = true
is_test op_tforloop = true
is_test _ = false

abbrev pub flag : Bool → ℕ
flag true = 2 ^ 7
flag false = 0

-- For every opcode the table has an entry, whose format is the one that the opcode's comment in the
-- header gives (Bx, sBx, or A, B and C), and whose test bit is set exactly for the six opcodes
-- that may skip the next instruction.
pub opmodes-format :
    (op : OpCode)
    → (opcode_number op < length opmodes)
      × (get_op_mode (opcode_number op) ≡ mode_number (format op))
      × (test_t_mode (opcode_number op) ≡ flag (is_test op))
unfolding opcode_number opmodes get_op_mode test_t_mode format is_test
opmodes-format op_move = (omega arith, refl, refl)
opmodes-format _ = (omega arith, refl, refl)
