-- ===== src/Code/Here.antt =====
-- The jumps that `luaK_patchtohere` (lua-5.1.5/src/lcode.c) keeps on hold go to the next instruction, once `dischargejpc`
-- has patched them.
use unitu_lua_test.Base.Distinct.{eq_or_ne, AreDistinct}
use unitu_lua_test.Base.{
  ℕ, ◌+◌, ◌<◌, ◌≤◌, ◌≡◌, refl, ◌∙◌, arith, ltb, false, Bool-cases, inl, inr, List, [], ◌∷◌, ◌++◌,
  length, length-append, length-set, get_or-set_self, get_or-set_ne,
}
use unitu_lua_test.Base.Int.{ℤ, pos, ◌-ℤ◌}
use unitu_lua_test.Debug.{no_reg}
use unitu_lua_test.Opcode.{setarg_sbx, maxarg_sbx}
use unitu_lua_test.Opcode.Fields.{setarg_sbx-IsWord, getarg_sbx-setarg_sbx}
use unitu_lua_test.Code.{
  Outcome, ok, too_long, fault, ◌>>=◌, no_jump, abs, instruction_at, FuncState, pc, getlabel,
  dischargejpc, patchtohere, concat, fixjump, patchlistaux,
}
use unitu_lua_test.Code.Jumps.{AreWords, fixed, offset-in_range}
use unitu_lua_test.Code.Lists.{IsJumps, AreApart, Joins, last, concat-Joins, find_last-IsJumps}
use unitu_lua_test.Code.Patch.{IsJump, AreJumps, AllGoTo, Patches, patchlistaux-Patches}
use mathlib.Core.Path.{subst}

-- A jump that is set stays a jump.
fixed-IsJump :
    (code : List ℕ) (at d q : ℕ)
    → at < length code
    → IsJump code at
    → ltb maxarg_sbx (abs (pos d -ℤ pos (at + 1))) ≡ false
    → IsJump code q
    → IsJump (fixed code at d) q
fixed-IsJump code at d q lt (word, jump) near other =
    let offset = pos d -ℤ pos (at + 1) in
    let i = instruction_at code at in
    let (lo, hi) = offset-in_range offset near in
    let (_, opcode, _) = getarg_sbx-setarg_sbx i offset word lo hi in
    elim (eq_or_ne at q) [
      | inl e ↦ subst (IsJump (fixed code at d)) e (
          rw (get_or-set_self code at (setarg_sbx i offset) 0 lt)
            (setarg_sbx-IsWord i offset word lo hi, opcode ∙ jump))
      | inr ne ↦ rw (get_or-set_ne code at q (setarg_sbx i offset) 0 ne) other
    ]

fixed-AreJumps :
    (code : List ℕ) (at d : ℕ) (qs : List ℕ)
    → at < length code
    → IsJump code at
    → ltb maxarg_sbx (abs (pos d -ℤ pos (at + 1))) ≡ false
    → AreJumps code qs
    → AreJumps (fixed code at d) qs
fixed-AreJumps code at d [] lt jump near jumps = tt
fixed-AreJumps code at d (q ∷ qs) lt jump near (other, jumps) =
    (fixed-IsJump code at d q lt jump near other, fixed-AreJumps code at d qs lt jump near jumps)

append-AreJumps :
    (code ps qs : List ℕ) → AreJumps code ps → AreJumps code qs → AreJumps code (ps ++ qs)
append-AreJumps code [] qs one two = two
append-AreJumps code (p ∷ ps) qs (jump, one) two = (jump, append-AreJumps code ps qs one two)

-- The last jump of a list is a jump of the code.
last-IsJump :
    (code : List ℕ) (p : ℕ) (ps : List ℕ)
    → IsJumps code (pos p) (p ∷ ps)
    → AreJumps code (p ∷ ps)
    → (last p ps < length code) × IsJump code (last p ps)
last-IsJump code p [] (_, lt, _) (jump, _) = (lt, jump)
last-IsJump code p (q ∷ ps) (_, _, (_, lt, rest)) (_, jumps) =
    last-IsJump code q ps (refl, lt, rest) jumps

-- Joining lists of jumps keeps the jumps and the size of the code.
KeepsJumps : List ℕ → List ℕ → Outcome (ℤ × List ℕ) → Type 0
KeepsJumps code ps (ok (l, code')) = AreJumps code' ps × (length code' ≡ length code)
KeepsJumps code ps too_long = Unit {0}
KeepsJumps code ps fault = Unit {0}

concat-KeepsJumps :
    (code : List ℕ) (l1 l2 : ℤ) (ps qs : List ℕ)
    → IsJumps code l1 ps
    → IsJumps code l2 qs
    → AreJumps code (ps ++ qs)
    → AreJumps code ps
    → length ps ≤ length code
    → KeepsJumps code (ps ++ qs) (concat code l1 l2)
unfolding concat KeepsJumps fixjump
concat-KeepsJumps code l1 l2 ps [] first end jumps ones fits = rw end (jumps, refl)
concat-KeepsJumps code l1 l2 [] (q ∷ qs) end (there, _, _) jumps ones fits =
    rw (there, end) (jumps, refl)
concat-KeepsJumps code l1 l2 (p ∷ ps) (q ∷ qs) (here, p_lt, first) (there, _, _) jumps ones fits =
    let whole : IsJumps code (pos p) (p ∷ ps) = (refl, p_lt, first) in
    let (lt, jump) = last-IsJump code p ps whole ones in
    let offset = pos q -ℤ pos (last p ps + 1) in
    rw (here, there, find_last-IsJumps (length code) code p ps (omega arith) whole)
      elim (Bool-cases (ltb maxarg_sbx (abs (pos q -ℤ pos (last p ps + 1))))) [
        | inl e ↦ rw e tt
        | inr e ↦ rw e (
          fixed-AreJumps code (last p ps) q ((p ∷ ps) ++ (q ∷ qs)) lt jump e jumps,
          length-set code (last p ps) (setarg_sbx (instruction_at code (last p ps)) offset),
        )
      ]

AreDistinct-AreApart : (ps qs : List ℕ) → AreDistinct (ps ++ qs) → AreApart ps qs
AreDistinct-AreApart [] qs h = tt
AreDistinct-AreApart (p ∷ ps) qs (apart, h) = (apart, AreDistinct-AreApart ps qs h)

-- The jumps of `ps` go to `d`, and none is on hold.
unfoldable pub GoHere : ℕ → List ℕ → Outcome FuncState → Type 0
GoHere d ps (ok fs) = AllGoTo fs.code d ps × (fs.jpc ≡ no_jump)
GoHere d ps too_long = Unit {0}
GoHere d ps fault = ⊥

dischargejpc-GoHere :
    (fs : FuncState) (ps : List ℕ)
    → IsJumps fs.code fs.jpc ps
    → AreJumps fs.code ps
    → AreDistinct ps
    → length ps ≤ length fs.code
    → GoHere (pc fs) ps (dischargejpc fs)
unfolding dischargejpc GoHere Patches
dischargejpc-GoHere fs ps list jumps distinct fits =
    patched (patchlistaux fs.code fs.jpc (pos (pc fs)) no_reg (pos (pc fs)))
      (patchlistaux-Patches fs.code fs.jpc ps (pc fs) no_reg list jumps distinct fits)
  where
    patched :
        (o : Outcome (List ℕ))
        → Patches fs.code (pc fs) ps o
        → GoHere (pc fs) ps (o >>= λ code. ok (record fs { code = code; jpc = no_jump }))
    patched (ok code) (all, _) = (all, refl)
    patched too_long h = tt
    patched fault h = h

-- `luaK_patchtohere`, and `dischargejpc` when the next instruction is emitted: the jumps that were on hold and those of
-- the given list all go to that instruction, and no jump is on hold then. A jump may be too far; nothing outside of
-- the code is read. The two lists have instructions OP_JMP, each once.
pub patchtohere-GoHere :
    (fs : FuncState) (list : ℤ) (ps qs : List ℕ)
    → AreWords fs.code
    → IsJumps fs.code fs.jpc ps
    → IsJumps fs.code list qs
    → AreJumps fs.code ps
    → AreJumps fs.code qs
    → AreDistinct (ps ++ qs)
    → length (ps ++ qs) ≤ length fs.code
    → GoHere (pc fs) (ps ++ qs) (patchtohere list fs >>= dischargejpc)
unfolding patchtohere getlabel GoHere Joins KeepsJumps
patchtohere-GoHere fs list ps qs words first second ones twos distinct fits =
    let room : length ps ≤ length fs.code = (let e = length-append ps qs in omega arith) in
    joined (concat fs.code fs.jpc list)
      (concat-Joins fs.code fs.jpc list ps qs words first second
        (AreDistinct-AreApart ps qs distinct) room)
      (concat-KeepsJumps fs.code fs.jpc list ps qs first second
        (append-AreJumps fs.code ps qs ones twos) ones room)
  where
    joined :
        (o : Outcome (ℤ × List ℕ))
        → Joins ps list qs o
        → KeepsJumps fs.code (ps ++ qs) o
        → GoHere (pc fs) (ps ++ qs) (
            (o >>= λ (jpc, code). ok (record fs { code = code; lasttarget = pc fs; jpc = jpc }))
            >>= dischargejpc)
    joined (ok (jpc, code)) list' (jumps, size) =
        let fs' : FuncState = record fs { code = code; lasttarget = pc fs; jpc = jpc } in
        subst (λ n. GoHere n (ps ++ qs) (dischargejpc fs')) size
          (dischargejpc-GoHere fs' (ps ++ qs) list' jumps distinct (rw size fits))
    joined too_long h k = tt
    joined fault h k = h
