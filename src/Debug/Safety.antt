-- ===== src/Debug/Safety.antt =====
-- What the code checker (lua-5.1.5/src/ldebug.c) is for: the virtual machine stays inside the code of a function
-- that it accepts, where no OP_LOADBOOL has a C above 1.
use mathlib.Core.Path.{subst}
use unitu_lua_test.Base.{
  ℕ, zero, suc, ◌+◌, ◌-◌, ◌<◌, ◌≤◌, ◌≡◌, ◌≢◌, ◌⊎◌, refl, ap, ◌∙◌, sym, arith, inl, inr, ◌==◌,
  ==_iff, List, length, get_or, true, false, Bool-cases, if◌then◌else◌,
}
use unitu_lua_test.Base.Int.{ℤ, pos, negsuc}
use unitu_lua_test.Opcode.{get_opcode, getarg_c}
use unitu_lua_test.Opcode.Modes.{
  OpCode, op_move, op_loadbool, op_jmp, op_eq, op_lt, op_le, op_test, op_testset, op_return,
  op_forloop, op_forprep, op_tforloop, op_setlist, op_closure, opcode_number,
}
use unitu_lua_test.Chunk.{Info, Proto, info}
use unitu_lua_test.Debug.Opcodes.{opcode_number_inj}
use unitu_lua_test.Debug.{is_wide, checkcode, children}
use unitu_lua_test.Debug.Visited.{IsVisited, start, next, past_count, Lands}
use unitu_lua_test.Debug.Step.{OperandsOk, SkipOk, Skips, Captures, is_capture}
use unitu_lua_test.Debug.Effect.{OpOk, narrow}
use unitu_lua_test.Debug.Flow.{GoesOn, Step, step, Reaches, entry, later}
use unitu_lua_test.Debug.Round.{EndsInReturn, IsChecked}
use unitu_lua_test.Debug.Loop.{checkcode-EndsInReturn, checkcode-IsChecked}

-- The machine skips an instruction behind OP_LOADBOOL if C is not 0, the checker looks at C = 1 only. The compiler
-- writes no other.
unfoldable pub HasFlags : List ℕ → Type 0
HasFlags code =
    (pc : ℕ)
    → get_opcode (get_or code pc 0) ≡ opcode_number op_loadbool
    → getarg_c (get_or code pc 0) ≤ 1

-- A place where the machine may go on.
abbrev pub Inside : List ℕ → ℕ → Type 0
Inside code pc = (pc < length code) × IsVisited code pc

capture-narrow : (i : ℕ) → is_capture i ≡ true → is_wide i ≡ false
unfolding is_wide opcode_number
capture-narrow i h = ground arith

capture-ne-return : (i : ℕ) → is_capture i ≡ true → get_opcode i ≢ opcode_number op_return
unfolding opcode_number
capture-ne-return i h e = ground arith

module _ (pt : Info) (nups : List ℕ) (pc : ℕ) (v : IsVisited pt.code pc) where
  after :
      is_wide (get_or pt.code pc 0) ≡ false
      → suc pc < length pt.code
      → (pc' : ℕ) → pc' ≡ suc pc
      → Inside pt.code pc'
  after plain room pc' e = subst (Inside pt.code) (sym e) (room, next v plain)

  lands : (z : ℤ) → Lands pt.code z → (pc' : ℕ) → z ≡ pos pc' → Inside pt.code pc'
  unfolding Lands
  lands (negsuc n) h pc' e = absurd h
  lands (pos dest) h pc' e = let same : dest ≡ pc' = cc in subst (Inside pt.code) same h

  skips :
      is_wide (get_or pt.code pc 0) ≡ false
      → suc (suc pc) < length pt.code
      → is_wide (get_or pt.code (suc pc) 0) ≡ false
      → (pc' : ℕ) → pc' ≡ suc (suc pc)
      → Inside pt.code pc'
  skips plain room plain' pc' e = subst (Inside pt.code) (sym e) (room, next (next v plain) plain')

  test_or_skip :
      is_wide (get_or pt.code pc 0) ≡ false
      → Skips pt pc
      → (pc' : ℕ) → (pc' ≡ suc pc) ⊎ (pc' ≡ suc (suc pc))
      → Inside pt.code pc'
  test_or_skip plain (room, jump) pc' (inl e) = after plain (omega arith) pc' e
  test_or_skip plain (room, jump) pc' (inr e) =
      let one : pc + 1 ≡ suc pc = omega arith in
      let jump' = ap (λ q. get_opcode (get_or pt.code q 0)) (sym one) ∙ jump in
      skips plain (omega arith) (narrow _ _ jump' (unfold opcode_number in refl)) pc' e

  -- The words that OP_CLOSURE takes are instructions of their own for the checker.
  over_captures :
      is_wide (get_or pt.code pc 0) ≡ false
      → (n : ℕ) → Captures pt pc n
      → IsVisited pt.code (suc pc + n)
  over_captures plain zero c = subst (IsVisited pt.code) (omega arith) (next v plain)
  over_captures plain (suc n) c =
      let before = over_captures plain n (λ j lt. c j (omega arith)) in
      let place : suc pc + n ≡ pc + suc n = omega arith in
      let thin =
        ap (λ q. is_wide (get_or pt.code q 0)) place ∙ capture-narrow _ (c n (omega arith)) in
      subst (IsVisited pt.code) (omega arith) (next before thin)

  module _ (r : EndsInReturn pt) where
    room_at :
        (q : ℕ)
        → q < length pt.code
        → get_opcode (get_or pt.code q 0) ≢ opcode_number op_return
        → suc q < length pt.code
    room_at q lt other = elim (Bool-cases (q == length pt.code - 1)) [
      | inl final ↦
          let place = (==_iff _ _).0 final in
          absurd (other (ap (λ k. get_opcode (get_or pt.code k 0)) place ∙ r.returns))
      | inr before ↦ ground arith
    ]

    Captures-room :
        (n : ℕ)
        → suc pc < length pt.code
        → pc + n < length pt.code
        → Captures pt pc n
        → suc pc + n < length pt.code
    Captures-room zero room lt c = omega arith
    Captures-room (suc n) room lt c =
        let behind = room_at (pc + suc n) lt (capture-ne-return _ (c n (omega arith))) in
        omega (arith, behind)

  module _ (flags : HasFlags pt.code) (plain : is_wide (get_or pt.code pc 0) ≡ false) where
    flag_skips :
        get_opcode (get_or pt.code pc 0) ≡ opcode_number op_loadbool
        → suc pc < length pt.code
        → OpOk pt nups (get_or pt.code pc 0) pc op_loadbool
        → (pc' : ℕ) → pc' ≡ (if getarg_c (get_or pt.code pc 0) == 0 then suc pc else suc (suc pc))
        → Inside pt.code pc'
    unfolding HasFlags
    flag_skips is_op room k pc' e = elim (Bool-cases (getarg_c (get_or pt.code pc 0) == 0)) [
      | inl no_skip ↦ after plain room pc' (e ∙ rw (no_skip) refl)
      | inr skip ↦
          let small = flags pc is_op in
          let one_c : getarg_c (get_or pt.code pc 0) ≡ 1 = ground arith in
          let (space, plain') = k one_c in
          let one : pc + 1 ≡ suc pc = omega arith in
          skips plain (omega arith) (ap (λ q. is_wide (get_or pt.code q 0)) (sym one) ∙ plain') pc'
            (e ∙ rw (skip) refl)
    ]

  Safe : OpCode → Type 0
  Safe op =
      get_opcode (get_or pt.code pc 0) ≡ opcode_number op
      → OperandsOk pt pc (get_or pt.code pc 0) op
      → SkipOk pt pc op
      → OpOk pt nups (get_or pt.code pc 0) pc op
      → (pc' : ℕ) → GoesOn nups pc (get_or pt.code pc 0) op pc'
      → Inside pt.code pc'

  module _ (r : EndsInReturn pt) (flags : HasFlags pt.code) (lt : pc < length pt.code) where
    room : (n : ℕ) → get_opcode (get_or pt.code pc 0) ≡ n → n ≢ 30 → suc pc < length pt.code
    unfolding opcode_number
    room n e other = room_at r pc lt (λ k. other (sym e ∙ k))

    all-Safe : (op : OpCode) → Safe op
    unfolding Safe GoesOn opcode_number
    all-Safe op_jmp e operands skip by_op pc' g = lands _ operands pc' g
    all-Safe op_forprep e operands skip by_op pc' g = lands _ operands pc' g
    all-Safe op_forloop e operands skip by_op pc' (inl g) =
        after (narrow _ _ e refl) (room _ e (λ k. absurd (omega arith))) pc' g
    all-Safe op_forloop e operands skip by_op pc' (inr g) = lands _ operands pc' g
    all-Safe op_eq e operands skip by_op pc' g = test_or_skip (narrow _ _ e refl) skip pc' g
    all-Safe op_lt e operands skip by_op pc' g = test_or_skip (narrow _ _ e refl) skip pc' g
    all-Safe op_le e operands skip by_op pc' g = test_or_skip (narrow _ _ e refl) skip pc' g
    all-Safe op_test e operands skip by_op pc' g = test_or_skip (narrow _ _ e refl) skip pc' g
    all-Safe op_testset e operands skip by_op pc' g = test_or_skip (narrow _ _ e refl) skip pc' g
    all-Safe op_tforloop e operands skip by_op pc' g = test_or_skip (narrow _ _ e refl) skip pc' g
    all-Safe op_loadbool e operands skip by_op pc' g =
        flag_skips flags (narrow _ _ e refl) e (room _ e (λ k. absurd (omega arith))) by_op pc' g
    all-Safe op_setlist e operands skip by_op pc' g =
        elim (Bool-cases (getarg_c (get_or pt.code pc 0) == 0)) [
          | inl wide ↦
              let space = by_op ((==_iff _ _).0 wide) in
              let wide' : is_wide (get_or pt.code pc 0) ≡ true =
                unfold is_wide in rw (e, wide) refl in
              let place : pc' ≡ suc (suc pc) = g ∙ rw (wide) refl in
              subst (Inside pt.code) (sym place) (omega arith, past_count v wide')
          | inr single ↦
              let thin : is_wide (get_or pt.code pc 0) ≡ false =
                unfold is_wide in rw (e, single) refl in
              after thin (room _ e (λ k. absurd (omega arith))) pc' (g ∙ rw (single) refl)
        ]
    all-Safe op_closure e operands skip (child, space, c) pc' g =
        let here = room _ e (λ k. absurd (omega arith)) in
        subst (Inside pt.code) (sym g)
          (Captures-room r _ here space c, over_captures (narrow _ _ e refl) _ c)
    all-Safe op_return e operands skip by_op pc' g = absurd g
    all-Safe op_move e operands skip by_op pc' g =
        after (narrow _ _ e refl) (room _ e (λ k. absurd (omega arith))) pc' g
    all-Safe _ e operands skip by_op pc' g =
        after (narrow _ _ e refl) (room _ e (λ k. absurd (omega arith))) pc' g

    checked-Inside :
        IsChecked pt nups pc → (pc' : ℕ) → Step pt.code nups pc pc' → Inside pt.code pc'
    unfolding Safe
    checked-Inside c pc' (step op is_op g) =
        let same : op ≡ c.op = opcode_number_inj op c.op (sym is_op ∙ c.is_op) in
        let g' = subst (λ o. GoesOn nups pc (get_or pt.code pc 0) o pc') same g in
        all-Safe c.op c.is_op c.operands c.skip c.by_op pc' g'

-- In a function that the checker accepts, every step of the machine from an instruction inside the code leads to
-- an instruction inside the code, and never into the count behind a list store. OP_LOADBOOL has 0 or 1 as its C.
pub checkcode-Inside :
    (f : Proto) (pc pc' : ℕ)
    → checkcode f ≡ true
    → HasFlags (info f).code
    → IsVisited (info f).code pc
    → pc < length (info f).code
    → Step (info f).code (children f) pc pc'
    → (pc' < length (info f).code) × IsVisited (info f).code pc'
checkcode-Inside f pc pc' h flags v lt s =
    checked-Inside (info f) (children f) pc v (checkcode-EndsInReturn f h) flags lt
      (checkcode-IsChecked f pc h v lt) pc' s

-- In a function that the checker accepts, and in which every OP_LOADBOOL has 0 or 1 as its C, the machine, started
-- at the first instruction, never leaves the code.
pub checkcode-Reaches :
    (f : Proto) (pc : ℕ)
    → checkcode f ≡ true
    → HasFlags (info f).code
    → Reaches (info f).code (children f) pc
    → (pc < length (info f).code) × IsVisited (info f).code pc
checkcode-Reaches f pc h flags entry =
    let end = checkcode-EndsInReturn f h in (end.not_empty, start)
checkcode-Reaches f pc h flags (later before s) =
    let (lt, v) = checkcode-Reaches f _ h flags before in checkcode-Inside f _ pc h flags v lt s
