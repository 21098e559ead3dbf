-- ===== src/Func/Names.antt =====
-- `luaF_getlocalname` (lua-5.1.5/src/lfunc.c): the names of the local variables that are active.
use unitu_lua_test.Base.{
  ℕ, zero, suc, ◌-◌, ◌≤◌, ◌≡◌, refl, ap, ◌∙◌, arith, List, [], ◌∷◌, All, get_elem?, Option, none,
  some, leb, ltb, ◌==◌, ◌&&◌, if◌then◌else◌, inl, inr, false, Bool-cases,
}
use unitu_lua_test.Chunk.{TString, LocVar}

-- `local_number` counts down to the variable that is looked for; a caller passes a positive number. A
-- variable has a name, its string or NULL, so that the result is none only where nothing is found.
unfoldable pub getlocalname : List LocVar → ℕ → ℕ → Option TString
getlocalname [] local_number pc = none
getlocalname (v ∷ vs) local_number pc =
    let counted = ltb pc v.endpc in
    let next = getlocalname vs (if counted then local_number - 1 else local_number) pc in
    if leb v.startpc pc
    then (if counted && local_number == 1 then some v.varname else next)
    else none

-- The variables that are active at `pc`, in the order of their declaration.
unfoldable pub active : List LocVar → ℕ → List TString
active [] pc = []
active (v ∷ vs) pc =
    let rest = active vs pc in if leb v.startpc pc && ltb pc v.endpc then v.varname ∷ rest else rest

-- The compiler lists the variables by the point where they start.
unfoldable pub IsSorted : List LocVar → Type 0
IsSorted [] = Unit {0}
IsSorted (v ∷ vs) = All (λ (w : LocVar). v.startpc ≤ w.startpc) vs × IsSorted vs

late_none :
    (vs : List LocVar) (start pc : ℕ)
    → leb start pc ≡ false
    → All (λ (w : LocVar). start ≤ w.startpc) vs
    → active vs pc ≡ []
unfolding active
late_none [] start pc late above = refl
late_none (v ∷ vs) start pc late (le, above) =
    let late' : leb v.startpc pc ≡ false = ground arith in
    rw (late') (late_none vs start pc late above)

-- In a list that is sorted by the start of its variables, variable `n + 1` is the one at place `n` of
-- those that are active at `pc`, and is missing where there are not so many.
pub getlocalname-active :
    (vs : List LocVar) (n pc : ℕ)
    → IsSorted vs
    → getlocalname vs (suc n) pc ≡ get_elem? (active vs pc) n
unfolding getlocalname active IsSorted
getlocalname-active [] n pc h = refl
getlocalname-active (v ∷ vs) n pc (above, h) = elim (Bool-cases (leb v.startpc pc)) [
  | inr late ↦ rw (late, late_none vs v.startpc pc late above) refl
  | inl started ↦ elim (Bool-cases (ltb pc v.endpc)) [
    | inr ended ↦ rw (started, ended) (getlocalname-active vs n pc h)
    | inl now ↦ rw (started, now) (counted_down n (λ m. getlocalname-active vs m pc h))
  ]
]
  where
    counted_down :
        (n : ℕ)
        → ((m : ℕ) → getlocalname vs (suc m) pc ≡ get_elem? (active vs pc) m)
        → (if (suc n == 1) then some v.varname else getlocalname vs (suc n - 1) pc)
          ≡ get_elem? (v.varname ∷ active vs pc) n
    counted_down zero rest = refl
    counted_down (suc m) rest =
        let no : (suc (suc m) == 1) ≡ false = ground arith in
        let less : suc (suc m) - 1 ≡ suc m = omega arith in
        rw (no) (ap (λ k. getlocalname vs k pc) less ∙ rest m)
