-- ===== src/Debug.antt =====
-- The checker of bytecode: `symbexec` of lua-5.1.5/src/ldebug.c with the functions that it calls. An instruction
-- is a number; its opcode is one of `OpCode`. A sum or difference that C computes in an int is
-- written so that it stays natural: `a+b-1 < n` is `a + b < n + 1`.
pub mod Outcome
pub mod Opcodes
pub mod Visited
pub mod Step
pub mod Effect
pub mod Flow
pub mod Round
pub mod Loop
pub mod Safety
pub mod Loaded
use unitu_lua_test.Base.{
  ℕ, zero, suc, ◌+◌, ◌-◌, ltb, leb, ◌==◌, if◌then◌else◌, not, ◌&&◌, ◌||◌, Bool, true, false,
  bit_and, List, [], ◌∷◌, length, get_elem?, Option, none, some,
}
use unitu_lua_test.Base.Int.{ℤ, pos, negsuc, ◌+ℤ◌}
use unitu_lua_test.Opcode.{
  getarg_a, getarg_b, getarg_c, getarg_bx, getarg_sbx, get_opcode, isk, indexk,
}
use unitu_lua_test.Opcode.Modes.{
  OpCode, op_move, op_loadbool, op_loadnil, op_getupval, op_setupval, op_getglobal, op_setglobal,
  op_self, op_concat, op_jmp, op_call, op_tailcall, op_return, op_forloop, op_forprep, op_tforloop,
  op_setlist, op_closure, op_vararg, opcode_number, get_op_mode, get_b_mode, get_c_mode,
  test_a_mode, test_t_mode,
}
use unitu_lua_test.Chunk.{Constant, string, Info, Proto, proto, info, Protos, none_left, one_more}
use unitu_lua_test.Debug.Outcome.{Check, ok, refuse, fault, ◌>>=◌, ◌>>◌, check, fetch}
use unitu_lua_test.Debug.Opcodes.{opcode_of}

-- `MAXSTACK` of llimits.h and `NO_REG` of lopcodes.h
abbrev pub maxstack : ℕ
maxstack = 250

abbrev pub no_reg : ℕ
no_reg = 255

-- `nups` of every prototype in the array `p`
unfoldable pub nups_of : Protos → List ℕ
nups_of none_left = []
nups_of (one_more (proto i fs) ps) = i.nups ∷ nups_of ps

unfoldable pub is_string : Constant → Bool
is_string (string s) = true
is_string _ = false

unfoldable pub precheck : Info → Check (Unit {0})
precheck pt = do
  check (leb pt.maxstacksize maxstack)
  check (leb (pt.numparams + bit_and pt.is_vararg 1) pt.maxstacksize)
  check (bit_and pt.is_vararg 4 == 0 || not (bit_and pt.is_vararg 1 == 0))
  check (leb (length pt.upvalues) pt.nups)
  check (length pt.lineinfo == length pt.code || length pt.lineinfo == 0)
  check (ltb 0 (length pt.code))
  end ← fetch pt.code (length pt.code - 1)
  check (get_opcode end == opcode_number op_return)

-- `luaG_checkopenop`
unfoldable pub checkopenop : ℕ → Bool
checkopenop i =
    let op = get_opcode i in
    (op == opcode_number op_call
      || op == opcode_number op_tailcall
      || op == opcode_number op_return
      || op == opcode_number op_setlist)
    && getarg_b i == 0

unfoldable pub check_arg_mode : Info → ℕ → ℕ → Bool
check_arg_mode pt r mode =
    if mode == 0
    then r == 0
    else if mode == 1
    then true
    else if mode == 2
    then ltb r pt.maxstacksize
    else if isk r == 0
    then ltb r pt.maxstacksize
    else ltb (indexk r) (length pt.k)

-- A list store whose count is in the word behind it.
unfoldable pub is_wide : ℕ → Bool
is_wide d = get_opcode d == opcode_number op_setlist && getarg_c d == 0

-- `for (j = 0; j < dest; j++)`: the number of such words in front of `dest`.
unfoldable pub wide_before : List ℕ → ℕ → Check ℕ
wide_before code zero = ok 0
wide_before code (suc n) = do
  d ← fetch code n
  if is_wide d then (wide_before code n >>= λ j. ok (suc j)) else ok 0

-- `pc+1+b`
unfoldable pub jump_dest : ℕ → ℕ → ℤ
jump_dest pc i = pos (pc + 1) +ℤ getarg_sbx i

unfoldable pub check_dest : Info → ℤ → Check (Unit {0})
check_dest pt (negsuc n) = refuse
check_dest pt (pos dest) = do
  check (ltb dest (length pt.code))
  j ← wide_before pt.code dest
  check (bit_and j 1 == 0)

-- `switch (getOpMode(op))`
unfoldable pub check_operands : Info → ℕ → ℕ → ℕ → Check (Unit {0})
check_operands pt pc op i =
    if get_op_mode op == 0
    then (check (check_arg_mode pt (getarg_b i) (get_b_mode op))
        >> check (check_arg_mode pt (getarg_c i) (get_c_mode op)))
    else if get_op_mode op == 1
    then (if get_b_mode op == 3 then check (ltb (getarg_bx i) (length pt.k)) else ok tt)
    else if get_b_mode op == 2
    then check_dest pt (jump_dest pc i)
    else ok tt

-- `if (testTMode(op))`
unfoldable pub check_skip : Info → ℕ → ℕ → Check (Unit {0})
check_skip pt pc op =
    if test_t_mode op == 0
    then ok tt
    else (check (ltb (pc + 2) (length pt.code))
        >> (fetch pt.code (pc + 1) >>= λ next. check (get_opcode next == opcode_number op_jmp)))

-- The pseudo-instructions behind OP_CLOSURE, the last one first.
unfoldable pub check_captures : List ℕ → ℕ → ℕ → Check (Unit {0})
check_captures code pc zero = ok tt
check_captures code pc (suc n) = do
  check_captures code pc n
  i ← fetch code (pc + suc n)
  check (get_opcode i == opcode_number op_getupval || get_opcode i == opcode_number op_move)

-- The state of the loop: `pc` and `last`.
abbrev pub Place : Type 0
Place = ℕ × ℕ

-- The case OP_JMP.
unfoldable pub follow : ℕ → ℕ → ℤ → ℕ → ℕ
follow lastpc reg (negsuc n) pc = pc
follow lastpc reg (pos dest) pc =
    if not (reg == no_reg) && (ltb pc dest && leb dest lastpc) then dest - 1 else pc

-- OP_LOADBOOL that skips the next instruction
unfoldable pub check_past : Info → ℕ → Check (Unit {0})
check_past pt pc = do
  check (ltb (pc + 2) (length pt.code))
  next ← fetch pt.code (pc + 1)
  check (not (get_opcode next == opcode_number op_setlist) || not (getarg_c next == 0))

-- `n` - 1 values; LUA_MULTRET if `n` is 0
unfoldable pub open_values : Info → ℕ → ℕ → Check (Unit {0})
open_values pt pc n =
    if n == 0 then (fetch pt.code (pc + 1) >>= λ next. check (checkopenop next)) else ok tt

-- `switch (op)`, of the instruction `i` at `pc`
module _ (pt : Info) (nups : List ℕ) (lastpc reg i : ℕ) where
  -- OP_CALL and OP_TAILCALL
  unfoldable pub check_call : ℕ → ℕ → Check Place
  check_call pc last = do
    check (getarg_b i == 0 || ltb (getarg_a i + getarg_b i) (pt.maxstacksize + 1))
    open_values pt pc (getarg_c i)
    check (leb (getarg_c i) 1 || ltb (getarg_a i + getarg_c i) (pt.maxstacksize + 2))
    ok (pc, if leb (getarg_a i) reg then pc else last)

  unfoldable pub check_op : OpCode → ℕ → ℕ → Check Place
  check_op op_loadbool pc last =
      (if getarg_c i == 1 then check_past pt pc else ok tt) >> ok (pc, last)
  check_op op_loadnil pc last =
      ok (pc, if leb (getarg_a i) reg && leb reg (getarg_b i) then pc else last)
  check_op op_getupval pc last = check (ltb (getarg_b i) pt.nups) >> ok (pc, last)
  check_op op_setupval pc last = check (ltb (getarg_b i) pt.nups) >> ok (pc, last)
  check_op op_getglobal pc last = do
    name ← fetch pt.k (getarg_bx i)
    check (is_string name)
    ok (pc, last)
  check_op op_setglobal pc last = do
    name ← fetch pt.k (getarg_bx i)
    check (is_string name)
    ok (pc, last)
  check_op op_self pc last =
      check (ltb (getarg_a i + 1) pt.maxstacksize)
      >> ok (pc, if reg == getarg_a i + 1 then pc else last)
  check_op op_concat pc last = check (ltb (getarg_b i) (getarg_c i)) >> ok (pc, last)
  check_op op_tforloop pc last = do
    check (leb 1 (getarg_c i))
    check (ltb (getarg_a i + 2 + getarg_c i) pt.maxstacksize)
    ok (pc, if leb (getarg_a i + 2) reg then pc else last)
  check_op op_forloop pc last =
      check (ltb (getarg_a i + 3) pt.maxstacksize)
      >> ok (follow lastpc reg (jump_dest pc i) pc, last)
  check_op op_forprep pc last =
      check (ltb (getarg_a i + 3) pt.maxstacksize)
      >> ok (follow lastpc reg (jump_dest pc i) pc, last)
  check_op op_jmp pc last = ok (follow lastpc reg (jump_dest pc i) pc, last)
  check_op op_call pc last = check_call pc last
  check_op op_tailcall pc last = check_call pc last
  check_op op_return pc last =
      check (leb (getarg_b i) 1 || ltb (getarg_a i + getarg_b i) (pt.maxstacksize + 2))
      >> ok (pc, last)
  check_op op_setlist pc last =
      check (getarg_b i == 0 || ltb (getarg_a i + getarg_b i) pt.maxstacksize)
      >> (if getarg_c i == 0
          then (check (ltb (pc + 2) (length pt.code)) >> ok (pc + 1, last))
          else ok (pc, last))
  check_op op_closure pc last = do
    check (ltb (getarg_bx i) (length nups))
    nup ← fetch nups (getarg_bx i)
    check (ltb (pc + nup) (length pt.code))
    check_captures pt.code pc nup
    ok (if reg == no_reg then pc else pc + nup, last)
  check_op op_vararg pc last = do
    check (not (bit_and pt.is_vararg 2 == 0) && bit_and pt.is_vararg 4 == 0)
    open_values pt pc (getarg_b i)
    check (ltb (getarg_a i + getarg_b i) (pt.maxstacksize + 2))
    ok (pc, last)
  check_op _ pc last = ok (pc, last)

-- `check(op < NUM_OPCODES)`
unfoldable pub decode : ℕ → Check OpCode
decode n = elim (opcode_of n) [ none ↦ refuse | some op ↦ ok op ]

unfoldable pub children : Proto → List ℕ
children (proto i ps) = nups_of ps

module _ (lastpc reg : ℕ) where
  -- One round of the loop, without the `pc++` at its end.
  unfoldable pub step : Info → List ℕ → ℕ → ℕ → Check Place
  step pt nups pc last = do
    i ← fetch pt.code pc
    op ← decode (get_opcode i)
    check (ltb (getarg_a i) pt.maxstacksize)
    check_operands pt pc (get_opcode i) i
    let last' = if not (test_a_mode (get_opcode i) == 0) && getarg_a i == reg then pc else last
    check_skip pt pc (get_opcode i)
    check_op pt nups lastpc reg i op pc last'

module _ (f : Proto) (lastpc reg : ℕ) where
  unfoldable pub symbexec_loop : ℕ → ℕ → ℕ → Check ℕ
  symbexec_loop zero pc last = if ltb pc lastpc then fault else ok last
  symbexec_loop (suc fuel) pc last = elim (ltb pc lastpc) [
    | false ↦ ok last
    | true ↦ step lastpc reg (info f) (children f) pc last >>= λ s. symbexec_loop fuel (suc s.0) s.1
  ]

  -- Every round moves `pc` forward, so that `lastpc` rounds are enough.
  unfoldable pub symbexec : Check ℕ
  symbexec = do
    precheck (info f)
    last ← symbexec_loop lastpc 0 (length (info f).code - 1)
    fetch (info f).code last

-- `luaG_checkcode`
unfoldable pub accepted : Check ℕ → Bool
accepted (ok i) = not (i == 0)
accepted refuse = false
accepted fault = false

unfoldable pub checkcode : Proto → Bool
checkcode f = accepted (symbexec f (length (info f).code) no_reg)
