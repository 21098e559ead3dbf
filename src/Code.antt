-- ===== src/Code.antt =====
-- The lists of jumps of the code generator: lua-5.1.5/src/lcode.c, without the prefix luaK_.
--
-- A list of jumps is threaded through the instructions: each jump of it goes to the next one, and the last one to
-- itself. It is given by the position of its first jump, or by NO_JUMP.
pub mod Jumps
pub mod Lists
pub mod Patch
pub mod Here
use unitu_lua_test.Base.{
  ℕ, zero, suc, ◌+◌, ◌-◌, ltb, leb, ◌==◌, if◌then◌else◌, ◌&&◌, not, Bool, true, false, List, [],
  ◌∷◌, length, get_or, set,
}
use unitu_lua_test.Base.Int.{ℤ, pos, negsuc, ◌-ℤ◌}
use unitu_lua_test.Debug.{jump_dest, no_reg}
use unitu_lua_test.Opcode.{
  get_opcode, getarg_b, getarg_c, getarg_sbx, setarg_a, setarg_sbx, create_abc, maxarg_sbx,
}
use unitu_lua_test.Opcode.Modes.{opcode_number, test_t_mode, op_test, op_testset}

-- `too_long` is the error "control structure too long"; `fault` is a read outside of the code, which C leaves undefined,
-- and also a loop that runs out of its rounds.
pub data Outcome {ℓ} (A : Type ℓ) : Type ℓ where
  ok : A → Outcome A
  too_long : Outcome A
  fault : Outcome A

infixl 5 ◌>>=◌
abbrev pub ◌>>=◌ {ℓ κ} : {A : Type ℓ} {B : Type κ} → Outcome A → (A → Outcome B) → Outcome B
ok a >>= f = f a
too_long >>= f = too_long
fault >>= f = fault

abbrev pub no_jump : ℤ
no_jump = negsuc 0

abbrev pub is_no_jump : ℤ → Bool
is_no_jump (pos n) = false
is_no_jump (negsuc n) = n == 0

abbrev pub abs : ℤ → ℕ
abs (pos n) = n
abs (negsuc n) = suc n

abbrev pub instruction_at : List ℕ → ℕ → ℕ
instruction_at code pc = get_or code pc 0

unfoldable pub fixjump : List ℕ → ℕ → ℤ → Outcome (List ℕ)
fixjump code pc dest =
    let offset = dest -ℤ pos (pc + 1) in
    if ltb maxarg_sbx (abs offset)
    then too_long
    else ok (set code pc (setarg_sbx (instruction_at code pc) offset))

unfoldable pub getjump : List ℕ → ℕ → ℤ
getjump code pc =
    let i = instruction_at code pc in if is_no_jump (getarg_sbx i) then no_jump else jump_dest pc i

-- The position of the instruction that controls a jump
unfoldable pub getjumpcontrol : List ℕ → ℕ → ℕ
getjumpcontrol code pc =
    if leb 1 pc && not (test_t_mode (get_opcode (instruction_at code (pc - 1))) == 0)
    then pc - 1
    else pc

-- A loop over a list has as many rounds as there are instructions, and one more for its end.
unfoldable pub need_value_loop : ℕ → List ℕ → ℤ → Outcome Bool
need_value_loop zero code list = fault
need_value_loop (suc fuel) code (negsuc n) = if n == 0 then ok false else fault
need_value_loop (suc fuel) code (pos pc) =
    let rest = need_value_loop fuel code (getjump code pc) in
    if not (ltb pc (length code))
    then fault
    else if not
        (get_opcode (instruction_at code (getjumpcontrol code pc)) == opcode_number op_testset)
    then ok true
    else rest

unfoldable pub need_value : List ℕ → ℤ → Outcome Bool
need_value code list = need_value_loop (suc (length code)) code list

unfoldable pub patchtestreg : List ℕ → ℕ → ℕ → Bool × List ℕ
patchtestreg code node reg =
    let at = getjumpcontrol code node in
    let i = instruction_at code at in
    if not (get_opcode i == opcode_number op_testset)
    then (false, code)
    else if not (reg == no_reg) && not (reg == getarg_b i)
    then (true, set code at (setarg_a i reg))
    else (true, set code at (create_abc (opcode_number op_test) (getarg_b i) 0 (getarg_c i)))

unfoldable pub find_last : ℕ → List ℕ → ℤ → Outcome ℕ
find_last zero code list = fault
find_last (suc fuel) code (negsuc n) = fault
find_last (suc fuel) code (pos pc) =
    let rest = find_last fuel code (getjump code pc) in
    if not (ltb pc (length code))
    then fault
    else if is_no_jump (getjump code pc)
    then ok pc
    else rest

-- `luaK_concat`: the joined list, and the code
unfoldable pub concat : List ℕ → ℤ → ℤ → Outcome (ℤ × List ℕ)
concat code l1 l2 =
    if is_no_jump l2
    then ok (l1, code)
    else if is_no_jump l1
    then ok (l2, code)
    else (find_last (length code) code l1 >>= λ last.
        fixjump code last l2 >>= λ code'. ok (l1, code'))

unfoldable pub patchlist_loop : ℕ → List ℕ → ℤ → ℤ → ℕ → ℤ → Outcome (List ℕ)
patchlist_loop zero code list vtarget reg dtarget = fault
patchlist_loop (suc fuel) code (negsuc n) vtarget reg dtarget = if n == 0 then ok code else fault
patchlist_loop (suc fuel) code (pos pc) vtarget reg dtarget =
    let (patched, code') = patchtestreg code pc reg in
    let rest : List ℕ → Outcome (List ℕ) =
      λ code''. patchlist_loop fuel code'' (getjump code pc) vtarget reg dtarget in
    if ltb pc (length code)
    then (fixjump code' pc (if patched then vtarget else dtarget) >>= rest)
    else fault

unfoldable pub patchlistaux : List ℕ → ℤ → ℤ → ℕ → ℤ → Outcome (List ℕ)
patchlistaux code list vtarget reg dtarget =
    patchlist_loop (suc (length code)) code list vtarget reg dtarget

-- `fs->f->code`, of which the first `fs->pc` instructions are there: `pc` is their number
pub record FuncState : Type 0 where
  pub code : List ℕ
  pub lasttarget : ℕ
  pub jpc : ℤ

abbrev pub pc : FuncState → ℕ
pc fs = length fs.code

unfoldable pub getlabel : FuncState → ℕ × FuncState
getlabel fs = (pc fs, record fs { lasttarget = pc fs })

unfoldable pub dischargejpc : FuncState → Outcome FuncState
dischargejpc fs = patchlistaux fs.code fs.jpc (pos (pc fs)) no_reg (pos (pc fs)) >>= λ code.
    ok (record fs { code = code; jpc = no_jump })

unfoldable pub patchtohere : ℤ → FuncState → Outcome FuncState
patchtohere list fs =
    let fs' = (getlabel fs).1 in
    concat fs'.code fs'.jpc list >>= λ (jpc, code). ok (record fs' { code = code; jpc = jpc })

unfoldable pub patchlist : ℤ → ℕ → FuncState → Outcome FuncState
patchlist list target fs =
    if target == pc fs
    then patchtohere list fs
    else (patchlistaux fs.code list (pos target) no_reg (pos target) >>= λ code.
        ok (record fs { code = code }))
