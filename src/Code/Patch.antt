-- ===== src/Code/Patch.antt =====
-- `patchlistaux` (lua-5.1.5/src/lcode.c) makes every jump of a list go to the target.
use unitu_lua_test.Base.Distinct.{IsApart, AreDistinct}
use unitu_lua_test.Base.{
  ℕ, zero, suc, ◌+◌, ◌<◌, ◌≤◌, ◌≡◌, ◌≢◌, refl, ap, sym, ◌∙◌, arith, ltb, ltb→lt, ◌==◌, ==_iff, ◌⊎◌,
  if◌then◌else◌, not, ◌&&◌, Bool, true, false, Bool-cases, inl, inr, List, [], ◌∷◌, length, set,
  length-set, get_or-set_self, get_or-set_ne,
}
use unitu_lua_test.Base.Int.{ℤ, pos, ◌-ℤ◌}
use unitu_lua_test.Debug.{jump_dest, no_reg}
use unitu_lua_test.Opcode.{
  get_opcode, getarg_b, getarg_c, setarg_a, setarg_sbx, create_abc, maxarg_sbx,
}
use unitu_lua_test.Opcode.Fields.{IsWord, getarg_sbx-setarg_sbx}
use unitu_lua_test.Opcode.Modes.{opcode_number, op_test, op_testset, op_jmp}
use unitu_lua_test.Code.{
  Outcome, ok, too_long, fault, abs, instruction_at, fixjump, getjump, getjumpcontrol, patchtestreg,
  patchlist_loop, patchlistaux,
}
use unitu_lua_test.Code.Jumps.{offset-jump, offset-in_range}
use unitu_lua_test.Code.Lists.{IsJumps}
use mathlib.Core.Path.{subst}

-- An instruction OP_JMP
abbrev pub IsJump : List ℕ → ℕ → Type 0
IsJump code p =
    IsWord (instruction_at code p) × (get_opcode (instruction_at code p) ≡ opcode_number op_jmp)

abbrev pub AreJumps : List ℕ → List ℕ → Type 0
AreJumps code [] = Unit {0}
AreJumps code (p ∷ ps) = IsJump code p × AreJumps code ps

testset-ne-jmp : (o : ℕ) → o ≡ opcode_number op_testset → o ≢ opcode_number op_jmp
unfolding opcode_number
testset-ne-jmp o a b = omega arith

-- `patchtestreg` keeps every jump.
patchtestreg-IsJump :
    (code : List ℕ) (node reg q : ℕ)
    → get_opcode (instruction_at code q) ≡ opcode_number op_jmp
    → instruction_at (patchtestreg code node reg).1 q ≡ instruction_at code q
unfolding patchtestreg
patchtestreg-IsJump code node reg q jump =
    let at = getjumpcontrol code node in
    let i = instruction_at code at in
    elim (Bool-cases (get_opcode i == opcode_number op_testset)) [
      | inr e ↦ rw e refl
      | inl e ↦
          let ne : at ≢ q = λ same.
            testset-ne-jmp _
              (subst (λ p. get_opcode (instruction_at code p) ≡ opcode_number op_testset) same
                ((==_iff _ _).0 e))
              jump in
          rw e elim (Bool-cases (not (reg == no_reg) && not (reg == getarg_b i))) [
            | inl y ↦ rw y (get_or-set_ne code at q (setarg_a i reg) 0 ne)
            | inr y ↦ rw y (
                get_or-set_ne code at q
                  (create_abc (opcode_number op_test) (getarg_b i) 0 (getarg_c i)) 0 ne)
          ]
    ]

length-patchtestreg :
    (code : List ℕ) (node reg : ℕ) → length (patchtestreg code node reg).1 ≡ length code
unfolding patchtestreg
length-patchtestreg code node reg =
    let at = getjumpcontrol code node in
    let i = instruction_at code at in
    elim (Bool-cases (get_opcode i == opcode_number op_testset)) [
      | inr e ↦ rw e refl
      | inl e ↦ rw e elim (Bool-cases (not (reg == no_reg) && not (reg == getarg_b i))) [
        | inl y ↦ rw y (length-set code at (setarg_a i reg))
        | inr y ↦
            rw y
              (length-set code at (create_abc (opcode_number op_test) (getarg_b i) 0 (getarg_c i)))
      ]
    ]

-- The instructions at `ps` are the same in both codes.
abbrev pub AreSame : List ℕ → List ℕ → List ℕ → Type 0
AreSame code code' [] = Unit {0}
AreSame code code' (p ∷ ps) =
    (instruction_at code' p ≡ instruction_at code p) × AreSame code code' ps

same-IsJumps :
    (code code' : List ℕ) (l : ℤ) (ps : List ℕ)
    → length code' ≡ length code
    → AreSame code code' ps
    → IsJumps code l ps
    → IsJumps code' l ps
unfolding getjump
same-IsJumps code code' l [] size same h = h
same-IsJumps code code' l (p ∷ ps) size (here, same) (l_p, lt, rest) =
    (l_p, (rw size lt), (rw here (same-IsJumps code code' (getjump code p) ps size same rest)))

same-AreJumps :
    (code code' ps : List ℕ) → AreSame code code' ps → AreJumps code ps → AreJumps code' ps
same-AreJumps code code' [] same h = h
same-AreJumps code code' (p ∷ ps) (here, same) (jump, rest) =
    (rw here jump, same-AreJumps code code' ps same rest)

-- One round: the instruction of the jump is set.
module _ (code : List ℕ) (p reg d : ℕ) where
  abbrev step : List ℕ
  step =
      set (patchtestreg code p reg).1 p
        (setarg_sbx (instruction_at (patchtestreg code p reg).1 p) (pos d -ℤ pos (p + 1)))

  length-step : length step ≡ length code
  length-step =
      length-set (patchtestreg code p reg).1 p
        (setarg_sbx (instruction_at (patchtestreg code p reg).1 p) (pos d -ℤ pos (p + 1)))
      ∙ length-patchtestreg code p reg

  -- Another jump stays.
  step_ne :
      (q : ℕ)
      → p ≢ q
      → get_opcode (instruction_at code q) ≡ opcode_number op_jmp
      → instruction_at step q ≡ instruction_at code q
  step_ne q ne jump =
      get_or-set_ne (patchtestreg code p reg).1 p q _ 0 ne ∙ patchtestreg-IsJump code p reg q jump

  step-AreSame : (ps : List ℕ) → IsApart p ps → AreJumps code ps → AreSame code step ps
  step-AreSame [] apart jumps = tt
  step-AreSame (q ∷ ps) (ne, apart) ((_, jump), jumps) =
      (step_ne q ne jump, step-AreSame ps apart jumps)

  -- The jump goes to the target, and stays a jump.
  step-target :
      p < length code
      → IsJump code p
      → ltb maxarg_sbx (abs (pos d -ℤ pos (p + 1))) ≡ false
      → (jump_dest p (instruction_at step p) ≡ pos d)
        × (get_opcode (instruction_at step p) ≡ opcode_number op_jmp)
  unfolding jump_dest
  step-target lt (word, jump) near =
      let offset = pos d -ℤ pos (p + 1) in
      let (lo, hi) = offset-in_range offset near in
      let (read, opcode, _) = getarg_sbx-setarg_sbx (instruction_at code p) offset word lo hi in
      let lt' : p < length (patchtestreg code p reg).1 = rw (length-patchtestreg code p reg) lt in
      let here : instruction_at step p ≡ setarg_sbx (instruction_at code p) offset =
        get_or-set_self (patchtestreg code p reg).1 p _ 0 lt'
        ∙ ap (λ i. setarg_sbx i offset) (patchtestreg-IsJump code p reg p jump) in
      ((rw (here, read) (offset-jump d p)), (rw here (opcode ∙ jump)))

-- Every jump of `ps` goes to `d`.
abbrev pub AllGoTo : List ℕ → ℕ → List ℕ → Type 0
AllGoTo code d [] = Unit {0}
AllGoTo code d (p ∷ ps) = (jump_dest p (instruction_at code p) ≡ pos d) × AllGoTo code d ps

-- A jump of `ps` is too far from `d` for an offset.
abbrev pub AnyTooFar : ℕ → List ℕ → Type 0
AnyTooFar d [] = ⊥
AnyTooFar d (p ∷ ps) = (maxarg_sbx < abs (pos d -ℤ pos (p + 1))) ⊎ AnyTooFar d ps

-- The jumps that are not of the list stay.
abbrev pub KeepsOthers : List ℕ → List ℕ → List ℕ → Type 0
KeepsOthers code code' ps =
    (q : ℕ)
    → get_opcode (instruction_at code q) ≡ opcode_number op_jmp
    → IsApart q ps
    → instruction_at code' q ≡ instruction_at code q

-- The outcome of patching the jumps of `ps`
unfoldable pub Patches : List ℕ → ℕ → List ℕ → Outcome (List ℕ) → Type 0
Patches code d ps (ok code') = AllGoTo code' d ps × KeepsOthers code code' ps
Patches code d ps too_long = AnyTooFar d ps
Patches code d ps fault = ⊥

-- The rest of the loop, behind a round for the jump `p`
Patches-step :
    (code : List ℕ) (p reg d : ℕ) (ps : List ℕ) (o : Outcome (List ℕ))
    → IsApart p ps
    → (jump_dest p (instruction_at (step code p reg d) p) ≡ pos d)
      × (get_opcode (instruction_at (step code p reg d) p) ≡ opcode_number op_jmp)
    → Patches (step code p reg d) d ps o
    → Patches code d (p ∷ ps) o
unfolding Patches
Patches-step code p reg d ps (ok code') apart (there, jump) (all, keeps) = (
  ((ap (jump_dest p) (keeps p jump apart) ∙ there), all),
  (λ q q_jump (ne, q_apart).
      let same = step_ne code p reg d q (λ e. ne (sym e)) q_jump in
      keeps q (ap get_opcode same ∙ q_jump) q_apart ∙ same),
)
Patches-step code p reg d ps too_long apart there h = inr h
Patches-step code p reg d ps fault apart there h = h

if_same : (b : Bool) (l : ℤ) → (if b then l else l) ≡ l
if_same true l = refl
if_same false l = refl

patchlist_loop-Patches :
    (fuel : ℕ) (code : List ℕ) (l : ℤ) (ps : List ℕ) (d reg : ℕ)
    → length ps < fuel
    → IsJumps code l ps
    → AreJumps code ps
    → AreDistinct ps
    → Patches code d ps (patchlist_loop fuel code l (pos d) reg (pos d))
unfolding patchlist_loop Patches fixjump
patchlist_loop-Patches zero code l ps d reg enough h jumps distinct = absurd (omega arith)
patchlist_loop-Patches (suc fuel) code l [] d reg enough end jumps distinct =
    rw end (tt, (λ q _ _. refl))
patchlist_loop-Patches (suc fuel) code l (p ∷ ps) d reg enough (here, lt, rest) (jump, jumps)
      (apart, distinct) =
    let within : ltb p (length code) ≡ true = ground arith in
    let code' = step code p reg d in
    let same = step-AreSame code p reg d ps apart jumps in
    rw (here, within, if_same (patchtestreg code p reg).0 (pos d))
      elim (Bool-cases (ltb maxarg_sbx (abs (pos d -ℤ pos (p + 1))))) [
        | inl far ↦ rw far (inl (ltb→lt _ _ far))
        | inr near ↦ rw near (
            Patches-step code p reg d ps
              (patchlist_loop fuel code' (getjump code p) (pos d) reg (pos d)) apart
              (step-target code p reg d lt jump near)
              (patchlist_loop-Patches fuel code' (getjump code p) ps d reg (omega arith)
                (same-IsJumps code code' (getjump code p) ps (length-step code p reg d) same rest)
                (same-AreJumps code code' ps same jumps) distinct))
      ]

-- `patchlistaux` with one target makes every jump of a list go there, whatever instructions control them, and keeps
-- the other jumps. It fails only where a jump is too far from the target, and ends without reading outside of the code.
-- The list has instructions OP_JMP, each once.
pub patchlistaux-Patches :
    (code : List ℕ) (l : ℤ) (ps : List ℕ) (d reg : ℕ)
    → IsJumps code l ps
    → AreJumps code ps
    → AreDistinct ps
    → length ps ≤ length code
    → Patches code d ps (patchlistaux code l (pos d) reg (pos d))
unfolding patchlistaux
patchlistaux-Patches code l ps d reg h jumps distinct fits =
    patchlist_loop-Patches (suc (length code)) code l ps d reg (omega arith) h jumps distinct
