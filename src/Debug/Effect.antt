-- ===== src/Debug/Effect.antt =====
-- The switch of `symbexec` over the opcodes (lua-5.1.5/src/ldebug.c): no fault, what is checked, and where `pc` is
-- left.
use mathlib.Core.Path.{subst}
use unitu_lua_test.Base.{
  ℕ, suc, ◌+◌, ◌<◌, ◌≤◌, ◌≡◌, refl, ap, ◌∙◌, sym, arith, inl, inr, ltb, leb, ltb→lt, ◌==◌, List,
  length, get_or, bit_and, ◌≢◌, Bool, true, false, not, ◌&&◌, ◌||◌, Bool-cases, if◌then◌else◌,
}
use unitu_lua_test.Base.Int.{ℤ, pos, negsuc}
use unitu_lua_test.Opcode.{get_opcode, getarg_a, getarg_b, getarg_c, getarg_bx}
use unitu_lua_test.Opcode.Modes.{
  OpCode, op_move, op_loadbool, op_loadnil, op_getupval, op_setupval, op_getglobal, op_setglobal,
  op_self, op_concat, op_jmp, op_call, op_tailcall, op_return, op_forloop, op_forprep, op_tforloop,
  op_setlist, op_closure, op_vararg, opcode_number,
}
use unitu_lua_test.Chunk.{Info, nil}
use unitu_lua_test.Debug.Outcome.{
  Check, check, ok, fetch, Post, Post-bind, Post-weaken, Post-check, Post-check_end, Post-fetch,
  ◌>>=◌, ◌>>◌,
}
use unitu_lua_test.Debug.{
  is_wide, jump_dest, check_captures, check_past, open_values, check_call, checkopenop, is_string,
  check_op, follow, no_reg, Place,
}
use unitu_lua_test.Debug.Step.{OperandsOk, Captures, check_captures-Captures}

pub narrow : (i n : ℕ) → get_opcode i ≡ n → (n == 34) ≡ false → is_wide i ≡ false
unfolding is_wide opcode_number
narrow i n e h = rw (e, h) refl

one_fails : (a b : Bool) → (not a || not b) ≡ true → (a && b) ≡ false
one_fails true true h = absurd cc
one_fails true false h = refl
one_fails false b h = refl

pub follow_bounds :
    (lastpc reg : ℕ) (z : ℤ) (pc : ℕ)
    → (reg ≡ no_reg → follow lastpc reg z pc ≡ pc) × (pc ≤ follow lastpc reg z pc)
unfolding follow
follow_bounds lastpc reg (negsuc n) pc = (λ _. refl, omega arith)
follow_bounds lastpc reg (pos dest) pc = (λ e. ground arith, ground arith)

module _ (pt : Info) (pc : ℕ) where
  open_values-safe : (n : ℕ) → suc pc < length pt.code → Post (λ _. Unit {0}) (open_values pt pc n)
  unfolding open_values
  open_values-safe n room = elim (Bool-cases (n == 0)) [
    | inl multiple ↦ rw (multiple) (
        Post-bind (λ _. Unit {0}) (λ _. Unit {0}) (fetch pt.code (pc + 1))
          (λ next. check (checkopenop next))
          (Post-weaken (λ x. x ≡ get_or pt.code (pc + 1) 0) (λ _. Unit {0}) (fetch pt.code (pc + 1))
            (Post-fetch pt.code (pc + 1) 0 (omega arith)) (λ _ _. tt))
          λ next _. Post-check_end (Unit {0}) (checkopenop next) (λ _. tt))
    | inr fixed ↦ rw (fixed) tt
  ]

  abbrev pub SkipsInto : Type 0
  SkipsInto = (pc + 2 < length pt.code) × (is_wide (get_or pt.code (pc + 1) 0) ≡ false)

  check_past-SkipsInto : Post (λ _. SkipsInto) (check_past pt pc)
  unfolding check_past
  check_past-SkipsInto =
      Post-check (λ _. SkipsInto) (ltb (pc + 2) (length pt.code)) _
        λ lt.
          let inside = ltb→lt _ _ lt in
          Post-bind (λ next. next ≡ get_or pt.code (pc + 1) 0) (λ _. SkipsInto)
            (fetch pt.code (pc + 1)) _ (Post-fetch pt.code (pc + 1) 0 (omega arith))
            λ next e.
              Post-check_end SkipsInto
                (not (get_opcode next == opcode_number op_setlist) || not (getarg_c next == 0))
                λ k. (inside, ap is_wide (sym e) ∙ unfold is_wide in one_fails _ _ k)

module _ (pt : Info) (nups : List ℕ) (i pc : ℕ) where
  -- What the switch checks of an opcode.
  abbrev pub OpOk : OpCode → Type 0
  OpOk op_loadbool =
      getarg_c i ≡ 1 → (pc + 2 < length pt.code) × (is_wide (get_or pt.code (pc + 1) 0) ≡ false)
  OpOk op_setlist = getarg_c i ≡ 0 → pc + 2 < length pt.code
  OpOk op_closure =
      (getarg_bx i < length nups)
      × (pc + get_or nups (getarg_bx i) 0 < length pt.code)
      × Captures pt pc (get_or nups (getarg_bx i) 0)
  OpOk _ = Unit {0}

module _ (pt : Info) (nups : List ℕ) (lastpc reg i pc : ℕ) where
  -- The place that the round leaves, before `pc++`.
  pub record Leaves (s : Place) : Type 0 where
    pub exact : reg ≡ no_reg → s.0 ≡ (if is_wide i then suc pc else pc)
    pub forward : pc ≤ s.0
    pub last_inside : s.1 < length pt.code

  abbrev pub Result : OpCode → Place → Type 0
  Result op s = OpOk pt nups i pc op × Leaves s

  module _ (inside : pc < length pt.code) (last : ℕ) (last_in : last < length pt.code) where
    plain_stay : is_wide i ≡ false → (b : Bool) → Leaves (pc, if b then pc else last)
    plain_stay e true = record {
      exact = λ _. rw (e) refl;
      forward = omega arith;
      last_inside = inside;
    }
    plain_stay e false = record {
      exact = λ _. rw (e) refl;
      forward = omega arith;
      last_inside = last_in;
    }

    stay : is_wide i ≡ false → Leaves (pc, last)
    stay e = plain_stay e false

    kept : (b : Bool) → is_wide i ≡ false → Post Leaves (check b >> ok (pc, last))
    kept b e = Post-check Leaves b (ok (pc, last)) λ _. stay e

    check_call-Leaves :
        suc pc < length pt.code
        → is_wide i ≡ false
        → Post Leaves (check_call pt nups lastpc reg i pc last)
    unfolding check_call
    check_call-Leaves room e =
        Post-check Leaves (getarg_b i == 0 || ltb (getarg_a i + getarg_b i) (pt.maxstacksize + 1)) _
          λ _.
            Post-bind (λ _. Unit {0}) Leaves (open_values pt pc (getarg_c i)) _
              (open_values-safe pt pc (getarg_c i) room)
              λ _ _.
                Post-check Leaves
                  (leb (getarg_c i) 1 || ltb (getarg_a i + getarg_c i) (pt.maxstacksize + 2)) _
                  λ _. plain_stay e (leb (getarg_a i) reg)

    global-Leaves :
        getarg_bx i < length pt.k
        → is_wide i ≡ false
        → Post Leaves
            (fetch pt.k (getarg_bx i) >>= λ name. (check (is_string name) >> ok (pc, last)))
    global-Leaves lt e =
        Post-bind (λ _. Unit {0}) Leaves (fetch pt.k (getarg_bx i)) _
          (Post-weaken (λ x. x ≡ get_or pt.k (getarg_bx i) nil) (λ _. Unit {0})
            (fetch pt.k (getarg_bx i)) (Post-fetch pt.k (getarg_bx i) nil lt) (λ _ _. tt))
          λ name _. kept (is_string name) e

    jump-Leaves : is_wide i ≡ false → Leaves (follow lastpc reg (jump_dest pc i) pc, last)
    jump-Leaves e =
        let (exact, forward) = follow_bounds lastpc reg (jump_dest pc i) pc in
        record { exact = λ k. rw (e) (exact k); forward = forward; last_inside = last_in }

    closure-Leaves :
        (n : ℕ) → is_wide i ≡ false → Leaves (if reg == no_reg then pc else pc + n, last)
    closure-Leaves n e = elim (Bool-cases (reg == no_reg)) [
      | inl checking ↦ rw (checking) (stay e)
      | inr tracing ↦ rw (tracing) (record {
        exact = λ k. absurd (ground arith);
        forward = omega arith;
        last_inside = last_in;
      })
    ]

    module _ (room : get_opcode i ≢ opcode_number op_return → suc pc < length pt.code) where
      Leaves-Result :
          (op : OpCode) (m : Check Place)
          → OpOk pt nups i pc op
          → Post Leaves m
          → Post (Result op) m
      Leaves-Result op m k l = Post-weaken Leaves (Result op) m l (λ s h. (k, h))

      pub check_op-Result :
          (op : OpCode)
          → get_opcode i ≡ opcode_number op
          → OperandsOk pt pc i op
          → Post (Result op) (check_op pt nups lastpc reg i op pc last)
      unfolding check_op opcode_number
      check_op-Result op_loadbool e k =
          let thin = narrow i _ e refl in
          elim (Bool-cases (getarg_c i == 1)) [
            | inl jumps ↦ rw (jumps) (
                Post-bind (λ _. SkipsInto pt pc) (Result op_loadbool) (check_past pt pc)
                  (λ _. ok (pc, last)) (check_past-SkipsInto pt pc) (λ _ h. (λ _. h, stay thin)))
            | inr no_jump ↦ rw (no_jump) (λ one. absurd (ground arith), stay thin)
          ]
      check_op-Result op_loadnil e k =
          (tt, plain_stay (narrow i _ e refl) (leb (getarg_a i) reg && leb reg (getarg_b i)))
      check_op-Result op_getupval e k =
          Leaves-Result op_getupval _ tt (kept (ltb (getarg_b i) pt.nups) (narrow i _ e refl))
      check_op-Result op_setupval e k =
          Leaves-Result op_setupval _ tt (kept (ltb (getarg_b i) pt.nups) (narrow i _ e refl))
      check_op-Result op_getglobal e k =
          Leaves-Result op_getglobal _ tt (global-Leaves k (narrow i _ e refl))
      check_op-Result op_setglobal e k =
          Leaves-Result op_setglobal _ tt (global-Leaves k (narrow i _ e refl))
      check_op-Result op_self e k =
          Post-check (Result op_self) (ltb (getarg_a i + 1) pt.maxstacksize) _
            λ _. (tt, plain_stay (narrow i _ e refl) (reg == getarg_a i + 1))
      check_op-Result op_concat e k =
          Leaves-Result op_concat _ tt (kept (ltb (getarg_b i) (getarg_c i)) (narrow i _ e refl))
      check_op-Result op_tforloop e k = Post-check (Result op_tforloop) (leb 1 (getarg_c i)) _ λ _.
          Post-check (Result op_tforloop) (ltb (getarg_a i + 2 + getarg_c i) pt.maxstacksize) _
            λ _. (tt, plain_stay (narrow i _ e refl) (leb (getarg_a i + 2) reg))
      check_op-Result op_forloop e k =
          Post-check (Result op_forloop) (ltb (getarg_a i + 3) pt.maxstacksize) _
            λ _. (tt, jump-Leaves (narrow i _ e refl))
      check_op-Result op_forprep e k =
          Post-check (Result op_forprep) (ltb (getarg_a i + 3) pt.maxstacksize) _
            λ _. (tt, jump-Leaves (narrow i _ e refl))
      check_op-Result op_jmp e k = (tt, jump-Leaves (narrow i _ e refl))
      check_op-Result op_call e k =
          Leaves-Result op_call _ tt
            (check_call-Leaves (room (λ r. absurd (omega arith))) (narrow i _ e refl))
      check_op-Result op_tailcall e k =
          Leaves-Result op_tailcall _ tt
            (check_call-Leaves (room (λ r. absurd (omega arith))) (narrow i _ e refl))
      check_op-Result op_return e k = Leaves-Result op_return _ tt (kept _ (narrow i _ e refl))
      check_op-Result op_setlist e k =
          Post-check (Result op_setlist)
            (getarg_b i == 0 || ltb (getarg_a i + getarg_b i) pt.maxstacksize) _
            λ _. elim (Bool-cases (getarg_c i == 0)) [
              | inl wide ↦
                  let wide' : is_wide i ≡ true = unfold is_wide in rw (e, wide) refl in
                  rw (wide) (
                    Post-check (Result op_setlist) (ltb (pc + 2) (length pt.code))
                      (ok (pc + 1, last))
                      λ lt. (
                        λ _. ltb→lt _ _ lt,
                        record {
                          exact = λ _. rw (wide') (omega arith);
                          forward = omega arith;
                          last_inside = last_in;
                        },
                      ))
              | inr single ↦
                  let thin : is_wide i ≡ false = unfold is_wide in rw (e, single) refl in
                  rw (single) (λ zero_c. absurd (ground arith), stay thin)
            ]
      check_op-Result op_closure e k =
          Post-check (Result op_closure) (ltb (getarg_bx i) (length nups)) _ λ lt.
            let child = ltb→lt _ _ lt in
            Post-bind (λ n. n ≡ get_or nups (getarg_bx i) 0) (Result op_closure)
              (fetch nups (getarg_bx i)) _ (Post-fetch nups (getarg_bx i) 0 child)
              λ n at. Post-check (Result op_closure) (ltb (pc + n) (length pt.code)) _ λ fits.
                let space = ltb→lt _ _ fits in
                Post-bind (λ _. Captures pt pc n) (Result op_closure) (check_captures pt.code pc n)
                  _ (check_captures-Captures pt pc n space)
                  λ _ c. (
                    (child, omega (arith, at), subst (Captures pt pc) at c),
                    closure-Leaves n (narrow i _ e refl),
                  )
      check_op-Result op_vararg e k =
          Post-check (Result op_vararg)
            (not (bit_and pt.is_vararg 2 == 0) && bit_and pt.is_vararg 4 == 0) _
            λ _.
              Post-bind (λ _. Unit {0}) (Result op_vararg) (open_values pt pc (getarg_b i)) _
                (open_values-safe pt pc (getarg_b i) (room (λ r. absurd (omega arith))))
                λ _ _.
                  Post-check (Result op_vararg)
                    (ltb (getarg_a i + getarg_b i) (pt.maxstacksize + 2)) _
                    λ _. (tt, stay (narrow i _ e refl))
      check_op-Result op_move e k = (tt, stay (narrow i _ e refl))
      check_op-Result _ e k = (tt, stay (narrow i _ e refl))
