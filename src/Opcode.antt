-- ===== src/Opcode.antt =====
-- Instructions of the virtual machine: lua-5.1.5/src/lopcodes.h (the fields of an instruction) and
-- lopcodes.c (the table of opcode modes). An instruction is an unsigned number of 32 bits.
pub mod Fields
pub mod Modes
use unitu_lua_test.Base.{ℕ, ◌+◌, ◌-◌, ◌*◌, ◌/◌, ◌%◌, ◌^◌, bit_and, bit_or}
use unitu_lua_test.Base.Int.{ℤ, pos, negsuc, ◌+ℤ◌, ◌-ℤ◌}

-- Machine operations on 32-bit words.
abbrev pub complement : ℕ → ℕ
complement x = 2 ^ 32 - 1 - x

abbrev pub shift_left : ℕ → ℕ → ℕ
shift_left x n = x * 2 ^ n % 2 ^ 32

abbrev pub shift_right : ℕ → ℕ → ℕ
shift_right x n = x / 2 ^ n

-- `cast(unsigned int, b)` of an int
abbrev pub to_unsigned : ℤ → ℕ
to_unsigned (pos n) = n % 2 ^ 32
to_unsigned (negsuc n) = 2 ^ 32 - 1 - n % 2 ^ 32

abbrev pub size_c : ℕ
size_c = 9

abbrev pub size_b : ℕ
size_b = 9

abbrev pub size_bx : ℕ
size_bx = size_c + size_b

abbrev pub size_a : ℕ
size_a = 8

abbrev pub size_op : ℕ
size_op = 6

abbrev pub pos_op : ℕ
pos_op = 0

abbrev pub pos_a : ℕ
pos_a = pos_op + size_op

abbrev pub pos_c : ℕ
pos_c = pos_a + size_a

abbrev pub pos_b : ℕ
pos_b = pos_c + size_c

abbrev pub pos_bx : ℕ
pos_bx = pos_c

abbrev pub maxarg_bx : ℕ
maxarg_bx = 2 ^ size_bx - 1

abbrev pub maxarg_sbx : ℕ
maxarg_sbx = maxarg_bx / 2

-- `n` ones at position `p`, and its complement
abbrev pub mask1 : ℕ → ℕ → ℕ
mask1 n p = shift_left (complement (shift_left (complement 0) n)) p

abbrev pub mask0 : ℕ → ℕ → ℕ
mask0 n p = complement (mask1 n p)

unfoldable pub get_opcode : ℕ → ℕ
get_opcode i = bit_and (shift_right i pos_op) (mask1 size_op 0)

unfoldable pub set_opcode : ℕ → ℕ → ℕ
set_opcode i o =
    bit_or (bit_and i (mask0 size_op pos_op)) (bit_and (shift_left o pos_op) (mask1 size_op pos_op))

unfoldable pub getarg_a : ℕ → ℕ
getarg_a i = bit_and (shift_right i pos_a) (mask1 size_a 0)

unfoldable pub setarg_a : ℕ → ℕ → ℕ
setarg_a i u =
    bit_or (bit_and i (mask0 size_a pos_a)) (bit_and (shift_left u pos_a) (mask1 size_a pos_a))

unfoldable pub getarg_b : ℕ → ℕ
getarg_b i = bit_and (shift_right i pos_b) (mask1 size_b 0)

unfoldable pub setarg_b : ℕ → ℕ → ℕ
setarg_b i b =
    bit_or (bit_and i (mask0 size_b pos_b)) (bit_and (shift_left b pos_b) (mask1 size_b pos_b))

unfoldable pub getarg_c : ℕ → ℕ
getarg_c i = bit_and (shift_right i pos_c) (mask1 size_c 0)

unfoldable pub setarg_c : ℕ → ℕ → ℕ
setarg_c i b =
    bit_or (bit_and i (mask0 size_c pos_c)) (bit_and (shift_left b pos_c) (mask1 size_c pos_c))

unfoldable pub getarg_bx : ℕ → ℕ
getarg_bx i = bit_and (shift_right i pos_bx) (mask1 size_bx 0)

unfoldable pub setarg_bx : ℕ → ℕ → ℕ
setarg_bx i b =
    bit_or (bit_and i (mask0 size_bx pos_bx)) (bit_and (shift_left b pos_bx) (mask1 size_bx pos_bx))

unfoldable pub getarg_sbx : ℕ → ℤ
getarg_sbx i = pos (getarg_bx i) -ℤ pos maxarg_sbx

unfoldable pub setarg_sbx : ℕ → ℤ → ℕ
setarg_sbx i b = setarg_bx i (to_unsigned (b +ℤ pos maxarg_sbx))

unfoldable pub create_abc : ℕ → ℕ → ℕ → ℕ → ℕ
create_abc o a b c =
    bit_or (bit_or (bit_or (shift_left o pos_op) (shift_left a pos_a)) (shift_left b pos_b))
      (shift_left c pos_c)

unfoldable pub create_abx : ℕ → ℕ → ℕ → ℕ
create_abx o a bc =
    bit_or (bit_or (shift_left o pos_op) (shift_left a pos_a)) (shift_left bc pos_bx)

-- Register or constant operands.
abbrev pub bitrk : ℕ
bitrk = 2 ^ (size_b - 1)

abbrev pub maxindexrk : ℕ
maxindexrk = bitrk - 1

unfoldable pub isk : ℕ → ℕ
isk x = bit_and x bitrk

unfoldable pub indexk : ℕ → ℕ
indexk r = bit_and r (complement bitrk)

unfoldable pub rkask : ℕ → ℕ
rkask x = bit_or x bitrk
