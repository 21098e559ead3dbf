-- ===== src/Tests/Codes.antt =====
-- Lists of jumps (lua-5.1.5/src/lcode.c) at a concrete function.
use unitu_lua_test.Base.{ℕ, zero, suc, ◌≡◌, refl, arith, List, [], ◌∷◌}
use unitu_lua_test.Base.Int.{pos, ◌+ℤ◌, ◌-ℤ◌}
use unitu_lua_test.Debug.{jump_dest, no_reg}
use unitu_lua_test.Opcode.{
  get_opcode, getarg_b, getarg_c, getarg_sbx, setarg_sbx, getarg_bx, setarg_bx, create_abc,
  setarg_a,
}
use unitu_lua_test.Opcode.Modes.{opcode_number, op_jmp, test_t_mode, opmodes}
use unitu_lua_test.Code.{
  ok, no_jump, fixjump, getjump, getjumpcontrol, patchtestreg, find_last, concat, patchlist_loop,
  patchlistaux,
}
use unitu_lua_test.Code.{FuncState, patchlist, patchtohere, dischargejpc, ◌>>=◌}
use unitu_lua_test.Code.Here.{GoHere, patchtohere-GoHere}
use unitu_lua_test.Code.Jumps.{AreWords}
use unitu_lua_test.Code.Lists.{Joins, concat-Joins}
use unitu_lua_test.Code.Patch.{Patches, patchlistaux-Patches}

-- OP_TESTSET 5 1 0, and the jump behind it; another jump. Each of the two jumps is a list.
abbrev two_jumps : List ℕ
two_jumps = 8388955 ∷ 2147450902 ∷ 2147450902 ∷ []

joined : concat two_jumps (pos 1) (pos 2) ≡ ok (pos 1, 8388955 ∷ 2147467286 ∷ 2147450902 ∷ [])
unfolding concat find_last getjump fixjump jump_dest getarg_sbx getarg_bx setarg_sbx setarg_bx ◌+ℤ◌
    ◌-ℤ◌
joined = refl

-- Both jumps go to the end, and the test puts no value into a register.
patched :
    patchlistaux (8388955 ∷ 2147467286 ∷ 2147450902 ∷ []) (pos 1) (pos 3) no_reg (pos 3)
    ≡ ok (90 ∷ 2147483670 ∷ 2147467286 ∷ [])
unfolding patchlistaux patchlist_loop patchtestreg getjumpcontrol test_t_mode opmodes opcode_number
    get_opcode getarg_b getarg_c create_abc setarg_a getjump fixjump jump_dest getarg_sbx getarg_bx
    setarg_sbx setarg_bx ◌+ℤ◌ ◌-ℤ◌
patched = refl

two_jumps-AreWords : AreWords two_jumps
two_jumps-AreWords zero = omega arith
two_jumps-AreWords (suc zero) = omega arith
two_jumps-AreWords (suc (suc zero)) = omega arith
two_jumps-AreWords (suc (suc (suc p))) = omega arith

one_ends : getjump two_jumps 1 ≡ no_jump
unfolding getjump getarg_sbx getarg_bx ◌-ℤ◌
one_ends = refl

two_ends : getjump two_jumps 2 ≡ no_jump
unfolding getjump getarg_sbx getarg_bx ◌-ℤ◌
two_ends = refl

concat-Joins_example : Joins (1 ∷ []) (pos 2) (2 ∷ []) (concat two_jumps (pos 1) (pos 2))
concat-Joins_example =
    concat-Joins two_jumps (pos 1) (pos 2) (1 ∷ []) (2 ∷ []) two_jumps-AreWords
      (refl, omega arith, one_ends) (refl, omega arith, two_ends) ((omega arith, tt), tt)
      (omega arith)

one_jumps : get_opcode 2147450902 ≡ opcode_number op_jmp
unfolding get_opcode opcode_number
one_jumps = refl

patchlistaux-Patches_example :
    Patches two_jumps 3 (2 ∷ []) (patchlistaux two_jumps (pos 2) (pos 3) no_reg (pos 3))
patchlistaux-Patches_example =
    patchlistaux-Patches two_jumps (pos 2) (2 ∷ []) 3 no_reg (refl, omega arith, two_ends)
      ((omega arith, one_jumps), tt) (tt, tt) (omega arith)

-- One jump is on hold, and the other one is patched to the end.
abbrev on_hold : FuncState
on_hold = record { code = two_jumps; lasttarget = 0; jpc = pos 1 }

patchtohere-GoHere_example : GoHere 3 (1 ∷ 2 ∷ []) (patchtohere (pos 2) on_hold >>= dischargejpc)
patchtohere-GoHere_example =
    patchtohere-GoHere on_hold (pos 2) (1 ∷ []) (2 ∷ []) two_jumps-AreWords
      (refl, omega arith, one_ends) (refl, omega arith, two_ends) ((omega arith, one_jumps), tt)
      ((omega arith, one_jumps), tt) ((omega arith, tt), (tt, tt)) (omega arith)

patched_here : patchlist (pos 2) 3 on_hold ≡ patchtohere (pos 2) on_hold
unfolding patchlist
patched_here = refl
