-- ===== src/Debug/Opcodes.antt =====
-- The number of an opcode read back (the enum OpCode of lua-5.1.5/src/lopcodes.h).
use unitu_lua_test.Base.{
  ℕ, zero, suc, ◌+◌, ◌≡◌, refl, sym, ap, ◌∙◌, arith, List, [], ◌∷◌, Option, some, get_elem?, Bool,
  true, false, ◌==◌, ==_iff, ◌&&◌,
}
use unitu_lua_test.Opcode.Modes.{
  OpCode, op_move, op_loadk, op_loadbool, op_loadnil, op_getupval, op_getglobal, op_gettable,
  op_setglobal, op_setupval, op_settable, op_newtable, op_self, op_add, op_sub, op_mul, op_div,
  op_mod, op_pow, op_unm, op_not, op_len, op_concat, op_jmp, op_eq, op_lt, op_le, op_test,
  op_testset, op_call, op_tailcall, op_return, op_forloop, op_forprep, op_tforloop, op_setlist,
  op_close, op_closure, op_vararg, opcode_number,
}

unfoldable pub opcodes : List OpCode
opcodes =
    op_move ∷ op_loadk ∷ op_loadbool ∷ op_loadnil ∷ op_getupval ∷ op_getglobal ∷ op_gettable
    ∷ op_setglobal ∷ op_setupval ∷ op_settable ∷ op_newtable ∷ op_self ∷ op_add ∷ op_sub ∷ op_mul
    ∷ op_div ∷ op_mod ∷ op_pow ∷ op_unm ∷ op_not ∷ op_len ∷ op_concat ∷ op_jmp ∷ op_eq ∷ op_lt
    ∷ op_le ∷ op_test ∷ op_testset ∷ op_call ∷ op_tailcall ∷ op_return ∷ op_forloop ∷ op_forprep
    ∷ op_tforloop ∷ op_setlist ∷ op_close ∷ op_closure ∷ op_vararg ∷ []

-- `none` for a number that is no opcode
unfoldable pub opcode_of : ℕ → Option OpCode
unfolding opcodes
opcode_of n = get_elem? opcodes n

pub opcode_of-opcode_number : (op : OpCode) → opcode_of (opcode_number op) ≡ some op
unfolding opcode_of opcode_number
opcode_of-opcode_number op_move = refl
opcode_of-opcode_number _ = refl

numbered : ℕ → List OpCode → Bool
numbered k [] = true
numbered k (op ∷ ops) = (opcode_number op == k) && numbered (suc k) ops

and_left : (a b : Bool) → (a && b) ≡ true → a ≡ true
and_left true b h = refl
and_left false b h = absurd cc

and_right : (a b : Bool) → (a && b) ≡ true → b ≡ true
and_right true b h = h
and_right false b h = absurd cc

numbered-get_elem? :
    (k n : ℕ) (ops : List OpCode) (op : OpCode)
    → numbered k ops ≡ true
    → get_elem? ops n ≡ some op
    → opcode_number op ≡ k + n
unfolding numbered
numbered-get_elem? k n [] op h e = absurd cc
numbered-get_elem? k zero (o ∷ ops) op h e =
    let same : o ≡ op = cc in
    ap opcode_number (sym same) ∙ (==_iff (opcode_number o) k).0 (and_left _ _ h) ∙ omega arith
numbered-get_elem? k (suc n) (o ∷ ops) op h e =
    omega (arith, numbered-get_elem? (suc k) n ops op (and_right _ _ h) e)

opcodes-numbered : numbered 0 opcodes ≡ true
unfolding numbered opcodes opcode_number
opcodes-numbered = refl

pub opcode_of-some : (n : ℕ) (op : OpCode) → opcode_of n ≡ some op → n ≡ opcode_number op
unfolding opcode_of
opcode_of-some n op e = omega (arith, numbered-get_elem? 0 n opcodes op opcodes-numbered e)

pub opcode_number_inj : (o p : OpCode) → opcode_number o ≡ opcode_number p → o ≡ p
opcode_number_inj o p e =
    let both : some o ≡ some p =
      sym (opcode_of-opcode_number o) ∙ ap opcode_of e ∙ opcode_of-opcode_number p in
    cc
