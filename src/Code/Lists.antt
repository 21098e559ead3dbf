-- ===== src/Code/Lists.antt =====
-- `luaK_concat` and `need_value` (lua-5.1.5/src/lcode.c) against the list of the jumps.
use unitu_lua_test.Base.Distinct.{IsApart}
use unitu_lua_test.Base.{
  ℕ, zero, suc, ◌+◌, ◌<◌, ◌≤◌, ◌≡◌, ◌≢◌, refl, sym, arith, ltb, ltb→lt, ◌==◌, if◌then◌else◌, ◌||◌,
  not, Bool, true, false, Bool-cases, inl, inr, List, [], ◌∷◌, ◌++◌, length, length-set,
}
use unitu_lua_test.Base.Int.{ℤ, pos, ◌-ℤ◌}
use unitu_lua_test.Opcode.{get_opcode, setarg_sbx, maxarg_sbx}
use unitu_lua_test.Opcode.Modes.{opcode_number, op_testset}
use unitu_lua_test.Code.{
  Outcome, ok, too_long, fault, no_jump, abs, instruction_at, fixjump, getjump, getjumpcontrol,
  need_value_loop, need_value, find_last, concat,
}
use unitu_lua_test.Code.Jumps.{AreWords, fixed, getjump-fixed, getjump-fixed_ne}
use mathlib.Core.List.{append-nil}

-- The jumps of the list `l` are at `ps`.
abbrev pub IsJumps : List ℕ → ℤ → List ℕ → Type 0
IsJumps code l [] = l ≡ no_jump
IsJumps code l (p ∷ ps) = (l ≡ pos p) × (p < length code) × IsJumps code (getjump code p) ps

-- No jump of `ps` is one of `qs`, and none stands twice in `ps`.
abbrev pub AreApart : List ℕ → List ℕ → Type 0
AreApart [] qs = Unit {0}
AreApart (p ∷ ps) qs = IsApart p (ps ++ qs) × AreApart ps qs

-- The last of the jumps `p`, `ps`
abbrev pub last : ℕ → List ℕ → ℕ
last p [] = p
last p (q ∷ ps) = last q ps

pub find_last-IsJumps :
    (fuel : ℕ) (code : List ℕ) (p : ℕ) (ps : List ℕ)
    → length ps < fuel
    → IsJumps code (pos p) (p ∷ ps)
    → find_last fuel code (pos p) ≡ ok (last p ps)
unfolding find_last
find_last-IsJumps zero code p ps enough h = absurd (omega arith)
find_last-IsJumps (suc fuel) code p [] enough (_, lt, end) =
    let within : ltb p (length code) ≡ true = ground arith in rw (within, end) refl
find_last-IsJumps (suc fuel) code p (q ∷ ps) enough (_, lt, (next, q_lt, rest)) =
    let within : ltb p (length code) ≡ true = ground arith in
    rw (within, next) (find_last-IsJumps fuel code q ps (omega arith) (refl, q_lt, rest))

-- A jump apart from the list does not matter for it.
fixed-IsJumps :
    (code : List ℕ) (at d : ℕ) (l : ℤ) (qs : List ℕ)
    → IsApart at qs
    → IsJumps code l qs
    → IsJumps (fixed code at d) l qs
fixed-IsJumps code at d l [] apart h = h
fixed-IsJumps code at d l (q ∷ qs) (ne, apart) (here, lt, rest) =
    let i = setarg_sbx (instruction_at code at) (pos d -ℤ pos (at + 1)) in
    (
      here,
      (rw (length-set code at i) lt),
      (rw (getjump-fixed_ne code at q d ne)
          (fixed-IsJumps code at d (getjump code q) qs apart rest)),
    )

IsApart-last : (p r : ℕ) (ps qs : List ℕ) → IsApart p ((r ∷ ps) ++ qs) → p ≢ last r ps
IsApart-last p r [] qs (ne, _) = ne
IsApart-last p r (s ∷ ps) qs (_, apart) = IsApart-last p s ps qs apart

-- The last jump of a list, set to the first one of another, joins them.
joined-IsJumps :
    (code : List ℕ) (p q : ℕ) (ps qs : List ℕ)
    → AreWords code
    → IsJumps code (pos p) (p ∷ ps)
    → IsJumps code (pos q) (q ∷ qs)
    → AreApart (p ∷ ps) (q ∷ qs)
    → ltb maxarg_sbx (abs (pos q -ℤ pos (last p ps + 1))) ≡ false
    → IsJumps (fixed code (last p ps) q) (pos p) ((p ∷ ps) ++ (q ∷ qs))
joined-IsJumps code p q [] qs words (_, lt, _) second ((ne, apart), _) near =
    let i = setarg_sbx (instruction_at code p) (pos q -ℤ pos (p + 1)) in
    (
      refl,
      (rw (length-set code p i) lt),
      (rw (getjump-fixed code p q words lt (λ e. ne (sym e)) near)
          (fixed-IsJumps code p q (pos q) (q ∷ qs) (ne, apart) second)),
    )
joined-IsJumps code p q (r ∷ ps) qs words (_, lt, (next, r_lt, rest)) second (apart, others) near =
    let z = last r ps in
    let i = setarg_sbx (instruction_at code z) (pos q -ℤ pos (z + 1)) in
    let ne : z ≢ p = λ e. IsApart-last p r ps (q ∷ qs) apart (sym e) in
    (
      refl,
      (rw (length-set code z i) lt),
      (rw (getjump-fixed_ne code z p q ne, next)
          (joined-IsJumps code r q ps qs words (refl, r_lt, rest) second others near)),
    )

-- The last jump of `ps` is too far from `l` for an offset.
unfoldable pub IsTooFar : List ℕ → ℤ → Type 0
IsTooFar [] l = ⊥
IsTooFar (p ∷ ps) l = maxarg_sbx < abs (l -ℤ pos (last p ps + 1))

-- The outcome of joining the lists at `ps` and at `qs`, of which `l2` is the second
unfoldable pub Joins : List ℕ → ℤ → List ℕ → Outcome (ℤ × List ℕ) → Type 0
Joins ps l2 qs (ok (l, code)) = IsJumps code l (ps ++ qs)
Joins ps l2 qs too_long = IsTooFar ps l2
Joins ps l2 qs fault = ⊥

concat-Joins_both :
    (code : List ℕ) (p q : ℕ) (ps qs : List ℕ)
    → AreWords code
    → IsJumps code (pos p) (p ∷ ps)
    → IsJumps code (pos q) (q ∷ qs)
    → AreApart (p ∷ ps) (q ∷ qs)
    → length (p ∷ ps) ≤ length code
    → Joins (p ∷ ps) (pos q) (q ∷ qs) (concat code (pos p) (pos q))
unfolding concat Joins IsTooFar fixjump
concat-Joins_both code p q ps qs words first second apart fits =
    rw (find_last-IsJumps (length code) code p ps (omega arith) first)
      elim (Bool-cases (ltb maxarg_sbx (abs (pos q -ℤ pos (last p ps + 1))))) [
        | inl e ↦ rw e (ltb→lt _ _ e)
        | inr e ↦ rw e (joined-IsJumps code p q ps qs words first second apart e)
      ]

-- `luaK_concat` joins two lists of jumps that have none in common: the jumps of the new list are those of the first
-- one and then those of the second. It fails only where the last jump of the first list is too far from the second
-- one, and never reads outside of the code or runs out of its rounds.
pub concat-Joins :
    (code : List ℕ) (l1 l2 : ℤ) (ps qs : List ℕ)
    → AreWords code
    → IsJumps code l1 ps
    → IsJumps code l2 qs
    → AreApart ps qs
    → length ps ≤ length code
    → Joins ps l2 qs (concat code l1 l2)
unfolding concat Joins
concat-Joins code l1 l2 ps [] words first end apart fits = rw (end, append-nil ps) first
concat-Joins code l1 l2 [] (q ∷ qs) words end (there, lt, second) apart fits =
    rw (there, end) (refl, lt, second)
concat-Joins code l1 l2 (p ∷ ps) (q ∷ qs) words (here, p_lt, first) (there, q_lt, second) apart
      fits =
    rw (here, there)
      (concat-Joins_both code p q ps qs words (refl, p_lt, first) (refl, q_lt, second) apart fits)

-- Whether a jump at `ps` is controlled by another instruction than OP_TESTSET
unfoldable pub any_other : List ℕ → List ℕ → Bool
any_other code [] = false
any_other code (p ∷ ps) =
    not (get_opcode (instruction_at code (getjumpcontrol code p)) == opcode_number op_testset)
    || any_other code ps

or-ok : (b r : Bool) → (if b then ok true else ok r) ≡ ok (b || r)
or-ok true r = refl
or-ok false r = refl

need_value_loop-IsJumps :
    (fuel : ℕ) (code : List ℕ) (l : ℤ) (ps : List ℕ)
    → length ps < fuel
    → IsJumps code l ps
    → need_value_loop fuel code l ≡ ok (any_other code ps)
unfolding need_value_loop any_other
need_value_loop-IsJumps zero code l ps enough h = absurd (omega arith)
need_value_loop-IsJumps (suc fuel) code l [] enough end = rw end refl
need_value_loop-IsJumps (suc fuel) code l (p ∷ ps) enough (here, lt, rest) =
    let within : ltb p (length code) ≡ true = ground arith in
    let later = need_value_loop-IsJumps fuel code (getjump code p) ps (omega arith) rest in
    let other =
      not (get_opcode (instruction_at code (getjumpcontrol code p)) == opcode_number op_testset) in
    rw (here, within, later) (or-ok other (any_other code ps))

-- `need_value` says of every list of jumps whether one of them is controlled by another instruction than OP_TESTSET,
-- and ends.
pub need_value-any_other :
    (code : List ℕ) (l : ℤ) (ps : List ℕ)
    → IsJumps code l ps
    → length ps ≤ length code
    → need_value code l ≡ ok (any_other code ps)
unfolding need_value
need_value-any_other code l ps h fits =
    need_value_loop-IsJumps (suc (length code)) code l ps (omega arith) h
