-- ===== src/Debug/Loop.antt =====
-- The loop of `symbexec` (lua-5.1.5/src/ldebug.c): it ends, reads nothing outside of an array, and meets every
-- instruction of an accepted function.
use mathlib.Core.Path.{subst}
use unitu_lua_test.Base.{
  ℕ, zero, suc, ◌+◌, ◌-◌, ◌<◌, ◌≤◌, ◌≡◌, ◌≢◌, refl, ap, ◌∙◌, sym, arith, inl, inr, ltb, leb, ◌==◌,
  ==_iff, List, length, get_or, true, false, Bool-cases,
}
use unitu_lua_test.Chunk.{Info, Proto, info}
use unitu_lua_test.Debug.Outcome.{
  Check, ok, refuse, fault, fetch, Post, Post-bind, Post-weaken, Post-fetch, ◌>>=◌,
}
use unitu_lua_test.Debug.{
  is_wide, no_reg, step, Place, precheck, symbexec_loop, symbexec, children, checkcode, accepted,
}
use unitu_lua_test.Debug.Visited.{IsVisited, start, next, past_count, count-not-IsVisited}
use unitu_lua_test.Debug.Round.{
  EndsInReturn, precheck-EndsInReturn, IsChecked, Round, step-Round, Round-bounds,
}

module _ (pt : Info) (nups : List ℕ) where
  -- Every instruction from `pc` on has been checked, where the loop runs over the whole function.
  unfoldable Covers : ℕ → ℕ → ℕ → Type 0
  Covers lastpc reg pc =
      reg ≡ no_reg
      → lastpc ≡ length pt.code
      → IsVisited pt.code pc
      → (q : ℕ) → pc ≤ q
      → q < length pt.code
      → IsVisited pt.code q
      → IsChecked pt nups q

  Covers-end : (lastpc reg pc : ℕ) → lastpc ≤ pc → Covers lastpc reg pc
  unfolding Covers
  Covers-end lastpc reg pc done none_traced whole v q le lt vq = absurd (omega arith)

  Covers-round :
      (r : EndsInReturn pt) (lastpc reg pc : ℕ) (s : Place)
      → Round pt nups r lastpc reg pc s
      → Covers lastpc reg (suc s.0)
      → Covers lastpc reg pc
  unfolding Covers Round
  Covers-round r lastpc reg pc s (checked, leaves) rest none_traced whole v q le lt vq =
      elim (Bool-cases (is_wide (get_or pt.code pc 0))) [
        | inl wide ↦
            let at : s.0 ≡ suc pc = leaves.exact none_traced ∙ rw (wide) refl in
            let v' = subst (IsVisited pt.code) (ap suc (sym at)) (past_count v wide) in
            elim (Bool-cases (leb (suc (suc pc)) q)) [
              | inl far ↦ rest none_traced whole v' q (ground arith) lt vq
              | inr near ↦ elim (Bool-cases (pc == q)) [
                | inl here ↦ subst (IsChecked pt nups) ((==_iff _ _).0 here) checked
                | inr other ↦
                    let count : suc pc ≡ q = ground arith in
                    absurd (
                      count-not-IsVisited pt.code pc v wide
                        (subst (IsVisited pt.code) (sym count) vq))
              ]
            ]
        | inr plain ↦
            let at : s.0 ≡ pc = leaves.exact none_traced ∙ rw (plain) refl in
            let v' = subst (IsVisited pt.code) (ap suc (sym at)) (next v plain) in
            elim (Bool-cases (pc == q)) [
              | inl here ↦ subst (IsChecked pt nups) ((==_iff _ _).0 here) checked
              | inr other ↦ rest none_traced whole v' q (ground arith) lt vq
            ]
      ]

module _ (f : Proto) (lastpc reg : ℕ) where
  loop_round :
      (fuel pc last : ℕ)
      → ltb pc lastpc ≡ true
      → symbexec_loop f lastpc reg (suc fuel) pc last ≡ (
          step lastpc reg (info f) (children f) pc last >>= λ s.
          symbexec_loop f lastpc reg fuel (suc s.0) s.1)
  unfolding symbexec_loop
  loop_round fuel pc last more = rw (more, symbexec_loop) refl

  loop_ends :
      (fuel pc last : ℕ) → ltb pc lastpc ≡ false → symbexec_loop f lastpc reg fuel pc last ≡ ok last
  unfolding symbexec_loop
  loop_ends zero pc last done = rw (done, symbexec_loop) refl
  loop_ends (suc fuel) pc last done = rw (done, symbexec_loop) refl

  -- The result of the loop from `pc` on.
  Result : ℕ → ℕ → Type 0
  Result pc l = (l < length (info f).code) × Covers (info f) (children f) lastpc reg pc

  symbexec_loop-Covers :
      EndsInReturn (info f)
      → lastpc ≤ length (info f).code
      → (fuel pc last : ℕ) → lastpc ≤ pc + fuel
      → last < length (info f).code
      → Post (Result pc) (symbexec_loop f lastpc reg fuel pc last)
  unfolding Result
  symbexec_loop-Covers r inside zero pc last enough last_in =
      rw (loop_ends zero pc last (ground arith))
        (last_in, Covers-end (info f) (children f) lastpc reg pc (omega arith))
  symbexec_loop-Covers r inside (suc fuel) pc last enough last_in =
      elim (Bool-cases (ltb pc lastpc)) [
        | inr stop ↦
            rw (loop_ends (suc fuel) pc last stop)
              (last_in, Covers-end (info f) (children f) lastpc reg pc (ground arith))
        | inl more ↦
            let round = Round (info f) (children f) r lastpc reg pc in
            rw (loop_round fuel pc last more) (
              Post-bind round (Result pc) (step lastpc reg (info f) (children f) pc last) _
                (step-Round (info f) (children f) r lastpc reg pc last (ground arith) last_in)
                λ s passed.
                  let bounds = Round-bounds (info f) (children f) r lastpc reg pc s passed in
                  Post-weaken (Result (suc s.0)) (Result pc)
                    (symbexec_loop f lastpc reg fuel (suc s.0) s.1)
                    (symbexec_loop-Covers r inside fuel (suc s.0) s.1 (omega arith) bounds.1)
                    (λ l rest.
                      (rest.0, Covers-round (info f) (children f) r lastpc reg pc s passed rest.1)))
      ]

  Accepts : Type 0
  Accepts = EndsInReturn (info f) × Covers (info f) (children f) lastpc reg 0

  symbexec-Accepts : lastpc ≤ length (info f).code → Post (λ _. Accepts) (symbexec f lastpc reg)
  unfolding symbexec Result Accepts
  symbexec-Accepts inside =
      Post-bind (λ _. EndsInReturn (info f)) (λ _. Accepts) (precheck (info f)) _
        (precheck-EndsInReturn (info f))
        λ _ r.
          let some_code = r.not_empty in
          Post-bind (Result 0) (λ _. Accepts)
            (symbexec_loop f lastpc reg lastpc 0 (length (info f).code - 1)) _
            (symbexec_loop-Covers r inside lastpc 0 (length (info f).code - 1) (omega arith)
              (omega arith))
            λ l (l_in, covers).
              Post-weaken (λ i. i ≡ get_or (info f).code l 0) (λ _. Accepts) (fetch (info f).code l)
                (Post-fetch (info f).code l 0 l_in) (λ _ _. (r, covers))

-- `symbexec` ends and reads nothing outside of the arrays of the function, whatever the function is; only
-- `lastpc` has to be within its code.
pub symbexec-ne-fault :
    (f : Proto) (lastpc reg : ℕ) → lastpc ≤ length (info f).code → symbexec f lastpc reg ≢ fault
symbexec-ne-fault f lastpc reg inside e =
    subst (Post (λ _. Accepts f lastpc reg)) e (symbexec-Accepts f lastpc reg inside)

accepted-Post : (P : Type 0) (m : Check ℕ) → Post (λ _. P) m → accepted m ≡ true → P
unfolding accepted
accepted-Post P (ok i) h e = h
accepted-Post P refuse h e = absurd cc
accepted-Post P fault h e = absurd h

pub checkcode-EndsInReturn : (f : Proto) → checkcode f ≡ true → EndsInReturn (info f)
unfolding checkcode Accepts
checkcode-EndsInReturn f h =
    let whole = length (info f).code in
    (accepted-Post (Accepts f whole no_reg) (symbexec f whole no_reg)
      (symbexec-Accepts f whole no_reg (omega arith)) h).0

-- Every instruction of an accepted function has been checked.
pub checkcode-IsChecked :
    (f : Proto) (pc : ℕ)
    → checkcode f ≡ true
    → IsVisited (info f).code pc
    → pc < length (info f).code
    → IsChecked (info f) (children f) pc
unfolding checkcode Accepts Covers
checkcode-IsChecked f pc h v lt =
    let whole = length (info f).code in
    (accepted-Post (Accepts f whole no_reg) (symbexec f whole no_reg)
        (symbexec-Accepts f whole no_reg (omega arith)) h).1
      refl refl start pc (omega arith) lt v
