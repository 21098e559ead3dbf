-- ===== src/Debug/Flow.antt =====
-- Where the virtual machine goes on behind an instruction: the effect of each opcode on `pc` in `luaV_execute`
-- (lua-5.1.5/src/lvm.c), apart from errors. A test that does not skip goes on with the jump behind it.
use unitu_lua_test.Base.{ℕ, suc, ◌+◌, ◌≡◌, ◌⊎◌, ◌==◌, if◌then◌else◌, List, get_or}
use unitu_lua_test.Base.Int.{pos}
use unitu_lua_test.Opcode.{get_opcode, getarg_c, getarg_bx}
use unitu_lua_test.Opcode.Modes.{
  OpCode, op_loadbool, op_jmp, op_eq, op_lt, op_le, op_test, op_testset, op_return, op_forloop,
  op_forprep, op_tforloop, op_setlist, op_closure, opcode_number,
}
use unitu_lua_test.Debug.{jump_dest}

-- The next instruction is at `pc'`, where the instruction `i` at `pc` has the given opcode.
unfoldable pub GoesOn : List ℕ → ℕ → ℕ → OpCode → ℕ → Type 0
GoesOn nups pc i op_jmp pc' = jump_dest pc i ≡ pos pc'
GoesOn nups pc i op_forprep pc' = jump_dest pc i ≡ pos pc'
GoesOn nups pc i op_forloop pc' = (pc' ≡ suc pc) ⊎ (jump_dest pc i ≡ pos pc')
GoesOn nups pc i op_eq pc' = (pc' ≡ suc pc) ⊎ (pc' ≡ suc (suc pc))
GoesOn nups pc i op_lt pc' = (pc' ≡ suc pc) ⊎ (pc' ≡ suc (suc pc))
GoesOn nups pc i op_le pc' = (pc' ≡ suc pc) ⊎ (pc' ≡ suc (suc pc))
GoesOn nups pc i op_test pc' = (pc' ≡ suc pc) ⊎ (pc' ≡ suc (suc pc))
GoesOn nups pc i op_testset pc' = (pc' ≡ suc pc) ⊎ (pc' ≡ suc (suc pc))
GoesOn nups pc i op_tforloop pc' = (pc' ≡ suc pc) ⊎ (pc' ≡ suc (suc pc))
GoesOn nups pc i op_loadbool pc' = pc' ≡ (if getarg_c i == 0 then suc pc else suc (suc pc))
GoesOn nups pc i op_setlist pc' = pc' ≡ (if getarg_c i == 0 then suc (suc pc) else suc pc)
GoesOn nups pc i op_closure pc' = pc' ≡ suc pc + get_or nups (getarg_bx i) 0
GoesOn nups pc i op_return pc' = ⊥
GoesOn nups pc i _ pc' = pc' ≡ suc pc

-- A step from one instruction of a function to the next, and a run of such steps from its start.
pub data Step (code nups : List ℕ) (pc pc' : ℕ) : Type 0 where
  step :
      (op : OpCode)
      → get_opcode (get_or code pc 0) ≡ opcode_number op
      → GoesOn nups pc (get_or code pc 0) op pc'
      → Step code nups pc pc'

pub data Reaches (code nups : List ℕ) : ℕ → Type 0 where
  entry : Reaches code nups 0
  later : {pc pc' : ℕ} → Reaches code nups pc → Step code nups pc pc' → Reaches code nups pc'
