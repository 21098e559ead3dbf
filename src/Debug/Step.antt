-- ===== src/Debug/Step.antt =====
-- One round of `symbexec` (lua-5.1.5/src/ldebug.c): it has no fault, and what it accepts is known.
use unitu_lua_test.Base.{
  ℕ, zero, suc, ◌+◌, ◌<◌, ◌≡◌, ap, ◌∙◌, sym, arith, inl, inr, ltb, ltb→lt, ◌==◌, ==_iff, length,
  get_or, Bool, true, ◌||◌, Bool-cases,
}
use unitu_lua_test.Opcode.{get_opcode, getarg_b, getarg_c, getarg_bx}
use unitu_lua_test.Opcode.Modes.{
  OpCode, op_move, op_getupval, op_getglobal, op_setglobal, op_jmp, op_eq, op_lt, op_le, op_test,
  op_testset, op_forloop, op_forprep, op_tforloop, opcode_number, opmodes, get_op_mode, get_b_mode,
  get_c_mode, test_t_mode, opmode,
}
use unitu_lua_test.Chunk.{Info}
use unitu_lua_test.Debug.Outcome.{
  Check, check, fetch, Post, Post-bind, Post-weaken, Post-check, Post-check_end, Post-fetch, ◌>>=◌,
  ◌>>◌,
}
use unitu_lua_test.Debug.{
  check_dest, jump_dest, check_operands, check_arg_mode, check_skip, check_captures,
}
use unitu_lua_test.Debug.Visited.{Lands, check_dest-Lands}

-- The words that OP_CLOSURE takes behind it.
abbrev pub is_capture : ℕ → Bool
is_capture i = get_opcode i == opcode_number op_getupval || get_opcode i == opcode_number op_move

module _ (pt : Info) where
  -- What the operands of a jump and of an access to a global are checked for.
  abbrev pub OperandsOk : ℕ → ℕ → OpCode → Type 0
  OperandsOk pc i op_jmp = Lands pt.code (jump_dest pc i)
  OperandsOk pc i op_forloop = Lands pt.code (jump_dest pc i)
  OperandsOk pc i op_forprep = Lands pt.code (jump_dest pc i)
  OperandsOk pc i op_getglobal = getarg_bx i < length pt.k
  OperandsOk pc i op_setglobal = getarg_bx i < length pt.k
  OperandsOk pc i _ = Unit {0}

  NoFault : Check (Unit {0}) → Type 0
  NoFault m = Post (λ _. Unit {0}) m

  check-NoFault : (b : Bool) → Post (λ _. Unit {0}) (check b)
  check-NoFault b = Post-check_end (Unit {0}) b (λ _. tt)

  check_operands-safe : (pc op i : ℕ) → Post (λ _. Unit {0}) (check_operands pt pc op i)
  unfolding check_operands
  check_operands-safe pc op i = elim (Bool-cases (get_op_mode op == 0)) [
    | inl abc ↦ rw (abc) (
        Post-check (λ _. Unit {0}) (check_arg_mode pt (getarg_b i) (get_b_mode op))
          (check (check_arg_mode pt (getarg_c i) (get_c_mode op)))
          λ _. check-NoFault (check_arg_mode pt (getarg_c i) (get_c_mode op)))
    | inr other ↦ elim (Bool-cases (get_op_mode op == 1)) [
      | inl abx ↦ elim (Bool-cases (get_b_mode op == 3)) [
        | inl k ↦ rw (other, abx, k) (check-NoFault (ltb (getarg_bx i) (length pt.k)))
        | inr k ↦ rw (other, abx, k) tt
      ]
      | inr asbx ↦ elim (Bool-cases (get_b_mode op == 2)) [
        | inl r ↦
            rw (other, asbx, r)
              (Post-weaken (λ _. Lands pt.code (jump_dest pc i)) (λ _. Unit {0})
                (check_dest pt (jump_dest pc i)) (check_dest-Lands pt (jump_dest pc i)) (λ _ _. tt))
        | inr r ↦ rw (other, asbx, r) tt
      ]
    ]
  ]

  pub check_operands-OperandsOk :
      (pc i : ℕ) (op : OpCode)
      → Post (λ _. OperandsOk pc i op) (check_operands pt pc (opcode_number op) i)
  unfolding opcode_number check_operands get_op_mode get_b_mode opmodes opmode
  check_operands-OperandsOk pc i op_jmp = check_dest-Lands pt (jump_dest pc i)
  check_operands-OperandsOk pc i op_forloop = check_dest-Lands pt (jump_dest pc i)
  check_operands-OperandsOk pc i op_forprep = check_dest-Lands pt (jump_dest pc i)
  check_operands-OperandsOk pc i op_getglobal =
      Post-check_end (getarg_bx i < length pt.k) _ λ e. ltb→lt _ _ e
  check_operands-OperandsOk pc i op_setglobal =
      Post-check_end (getarg_bx i < length pt.k) _ λ e. ltb→lt _ _ e
  check_operands-OperandsOk pc i op_move = check_operands-safe pc (opcode_number op_move) i
  check_operands-OperandsOk pc i op = check_operands-safe pc (opcode_number op) i

  -- A test keeps two instructions behind it, the first of them a jump.
  abbrev pub Skips : ℕ → Type 0
  Skips pc =
      (pc + 2 < length pt.code) × (get_opcode (get_or pt.code (pc + 1) 0) ≡ opcode_number op_jmp)

  abbrev pub SkipOk : ℕ → OpCode → Type 0
  SkipOk pc op_eq = Skips pc
  SkipOk pc op_lt = Skips pc
  SkipOk pc op_le = Skips pc
  SkipOk pc op_test = Skips pc
  SkipOk pc op_testset = Skips pc
  SkipOk pc op_tforloop = Skips pc
  SkipOk pc _ = Unit {0}

  test-Skips :
      (pc : ℕ)
      → Post
          (λ _. Skips pc)
          (check (ltb (pc + 2) (length pt.code))
            >> (fetch pt.code (pc + 1) >>= λ next. check (get_opcode next == opcode_number op_jmp)))
  test-Skips pc =
      Post-check (λ _. Skips pc) _ _
        λ lt.
          let inside = ltb→lt _ _ lt in
          Post-bind (λ next. next ≡ get_or pt.code (pc + 1) 0) (λ _. Skips pc)
            (fetch pt.code (pc + 1)) _ (Post-fetch pt.code (pc + 1) 0 (omega arith))
            λ next e.
              Post-check_end (Skips pc) _
                λ jump. (inside, ap get_opcode (sym e) ∙ (==_iff _ _).0 jump)

  pub check_skip-SkipOk :
      (pc : ℕ) (op : OpCode) → Post (λ _. SkipOk pc op) (check_skip pt pc (opcode_number op))
  unfolding check_skip test_t_mode opmodes opmode opcode_number
  check_skip-SkipOk pc op_eq = unfold opcode_number in test-Skips pc
  check_skip-SkipOk pc op_lt = unfold opcode_number in test-Skips pc
  check_skip-SkipOk pc op_le = unfold opcode_number in test-Skips pc
  check_skip-SkipOk pc op_test = unfold opcode_number in test-Skips pc
  check_skip-SkipOk pc op_testset = unfold opcode_number in test-Skips pc
  check_skip-SkipOk pc op_tforloop = unfold opcode_number in test-Skips pc
  check_skip-SkipOk pc _ = tt

  abbrev pub Captures : ℕ → ℕ → Type 0
  Captures pc n = (j : ℕ) → j < n → is_capture (get_or pt.code (pc + suc j) 0) ≡ true

  pub check_captures-Captures :
      (pc n : ℕ) → pc + n < length pt.code → Post (λ _. Captures pc n) (check_captures pt.code pc n)
  unfolding check_captures
  check_captures-Captures pc zero h = λ j lt. absurd (omega arith)
  check_captures-Captures pc (suc n) h =
      Post-bind (λ _. Captures pc n) (λ _. Captures pc (suc n)) (check_captures pt.code pc n) _
        (check_captures-Captures pc n (omega arith))
        λ _ before.
          Post-bind (λ i. i ≡ get_or pt.code (pc + suc n) 0) (λ _. Captures pc (suc n))
            (fetch pt.code (pc + suc n)) _ (Post-fetch pt.code (pc + suc n) 0 h)
            λ i e. Post-check_end (Captures pc (suc n)) (is_capture i) λ here j lt.
              elim (Bool-cases (j == n)) [
                | inl same ↦
                    let at : n ≡ j = ground arith in
                    ap (λ m. is_capture (get_or pt.code (pc + suc m) 0)) (sym at)
                    ∙ ap is_capture (sym e)
                    ∙ here
                | inr early ↦ before j (ground arith)
              ]
