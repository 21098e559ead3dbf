-- ===== src/Debug/Round.antt =====
-- A round of the loop of `symbexec` (lua-5.1.5/src/ldebug.c), and `precheck`.
use mathlib.Core.Path.{subst}
use unitu_lua_test.Base.{
  ℕ, suc, ◌+◌, ◌-◌, ◌<◌, ◌≤◌, ◌≡◌, ◌≢◌, ap, ◌∙◌, sym, arith, inl, inr, ltb, leb, ltb→lt, ◌==◌,
  ==_iff, List, length, get_or, bit_and, not, ◌&&◌, ◌||◌, Bool-cases, if◌then◌else◌, Option-cases,
}
use unitu_lua_test.Opcode.{get_opcode, getarg_a}
use unitu_lua_test.Opcode.Modes.{OpCode, op_return, opcode_number, test_a_mode}
use unitu_lua_test.Chunk.{Info}
use unitu_lua_test.Debug.Outcome.{
  fetch, Post, Post-bind, Post-weaken, Post-check, Post-check_end, Post-fetch,
}
use unitu_lua_test.Debug.Opcodes.{opcode_of, opcode_of-some}
use unitu_lua_test.Debug.{
  check_operands, check_skip, check_op, decode, step, Place, precheck, maxstack,
}
use unitu_lua_test.Debug.Step.{OperandsOk, SkipOk, check_operands-OperandsOk, check_skip-SkipOk}
use unitu_lua_test.Debug.Effect.{OpOk, Leaves, Result, check_op-Result}

decode-opcode_number : (n : ℕ) → Post (λ op. n ≡ opcode_number op) (decode n)
unfolding decode opcode_of
decode-opcode_number n = elim (Option-cases (opcode_of n)) [
  | inl bad ↦ rw (bad) tt
  | inr (op, e) ↦ rw (e) (opcode_of-some n op e)
]

-- A function that may be run: it is not empty, and ends with OP_RETURN.
pub record EndsInReturn (pt : Info) : Type 0 where
  pub not_empty : 0 < length pt.code
  pub returns : get_opcode (get_or pt.code (length pt.code - 1) 0) ≡ opcode_number op_return

pub precheck-EndsInReturn : (pt : Info) → Post (λ _. EndsInReturn pt) (precheck pt)
unfolding precheck
precheck-EndsInReturn pt = Post-check P (leb pt.maxstacksize maxstack) _ λ _.
    Post-check P (leb (pt.numparams + bit_and pt.is_vararg 1) pt.maxstacksize) _ λ _.
      Post-check P (bit_and pt.is_vararg 4 == 0 || not (bit_and pt.is_vararg 1 == 0)) _ λ _.
        Post-check P (leb (length pt.upvalues) pt.nups) _ λ _.
          Post-check P (length pt.lineinfo == length pt.code || length pt.lineinfo == 0) _ λ _.
            Post-check P (ltb 0 (length pt.code)) _ λ some_code.
              let lt = ltb→lt _ _ some_code in
              Post-bind (λ i. i ≡ get_or pt.code (length pt.code - 1) 0) P
                (fetch pt.code (length pt.code - 1)) _
                (Post-fetch pt.code (length pt.code - 1) 0 (omega arith))
                λ i e.
                  Post-check_end (EndsInReturn pt) (get_opcode i == opcode_number op_return) λ r.
                    record { not_empty = lt; returns = ap get_opcode (sym e) ∙ (==_iff _ _).0 r }
  where
    P : Unit {0} → Type 0
    P _ = EndsInReturn pt

module _ (pt : Info) (nups : List ℕ) where
  -- What a round of the loop has checked of the instruction at `pc`.
  pub record IsChecked (pc : ℕ) : Type 0 where
    pub op : OpCode
    pub is_op : get_opcode (get_or pt.code pc 0) ≡ opcode_number op
    pub operands : OperandsOk pt pc (get_or pt.code pc 0) op
    pub skip : SkipOk pt pc op
    pub by_op : OpOk pt nups (get_or pt.code pc 0) pc op

  module _ (r : EndsInReturn pt) (lastpc reg : ℕ) where
    unfoldable pub Round : ℕ → Place → Type 0
    Round pc s = IsChecked pc × Leaves pt nups lastpc reg (get_or pt.code pc 0) pc s

    pub step-Round :
        (pc last : ℕ)
        → pc < length pt.code
        → last < length pt.code
        → Post (Round pc) (step lastpc reg pt nups pc last)
    unfolding step Round
    step-Round pc last lt last_in =
        Post-bind (λ i. i ≡ get_or pt.code pc 0) (Round pc) (fetch pt.code pc) _
          (Post-fetch pt.code pc 0 lt)
          λ i at.
            Post-bind (λ op. get_opcode i ≡ opcode_number op) (Round pc) (decode (get_opcode i)) _
              (decode-opcode_number (get_opcode i))
              λ op is_op. Post-check (Round pc) (ltb (getarg_a i) pt.maxstacksize) _ λ _.
                Post-bind (λ _. OperandsOk pt pc i op) (Round pc)
                  (check_operands pt pc (get_opcode i) i) _
                  (rw (is_op) (check_operands-OperandsOk pt pc i op))
                  λ _ operands.
                    Post-bind (λ _. SkipOk pt pc op) (Round pc) (check_skip pt pc (get_opcode i)) _
                      (rw (is_op) (check_skip-SkipOk pt pc op))
                      λ _ skip.
                        Post-weaken (Result pt nups lastpc reg i pc op) (Round pc)
                          (check_op pt nups lastpc reg i op pc (changed i last pc))
                          (check_op-Result pt nups lastpc reg i pc lt (changed i last pc)
                            (changed_inside i) (room i at) op is_op operands)
                          λ s (by_op, leaves). (
                            record {
                              op = op;
                              is_op = ap get_opcode (sym at) ∙ is_op;
                              operands = subst (λ x. OperandsOk pt pc x op) at operands;
                              skip = skip;
                              by_op = subst (λ x. OpOk pt nups x pc op) at by_op;
                            },
                            subst (λ x. Leaves pt nups lastpc reg x pc s) at leaves,
                          )
      where
        changed : ℕ → ℕ → ℕ → ℕ
        changed i last pc =
            if not (test_a_mode (get_opcode i) == 0) && getarg_a i == reg then pc else last

        changed_inside : (i : ℕ) → changed i last pc < length pt.code
        changed_inside i =
            elim (Bool-cases (not (test_a_mode (get_opcode i) == 0) && getarg_a i == reg)) [
              | inl yes' ↦ rw (yes') lt
              | inr no' ↦ rw (no') last_in
            ]

        room :
            (i : ℕ)
            → i ≡ get_or pt.code pc 0
            → get_opcode i ≢ opcode_number op_return
            → suc pc < length pt.code
        room i at other = elim (Bool-cases (pc == length pt.code - 1)) [
          | inl final ↦
              let place = (==_iff _ _).0 final in
              absurd (
                other
                  (ap get_opcode at ∙ ap (λ q. get_opcode (get_or pt.code q 0)) place ∙ r.returns))
          | inr before ↦ ground arith
        ]

    pub Round-bounds : (pc : ℕ) (s : Place) → Round pc s → (pc ≤ s.0) × (s.1 < length pt.code)
    unfolding Round
    Round-bounds pc s (checked, leaves) = (leaves.forward, leaves.last_inside)
