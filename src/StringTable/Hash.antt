-- ===== src/StringTable/Hash.antt =====
-- The loop of `luaS_newlstr` (lua-5.1.5/src/lstring.c) that computes a hash ends within its fuel.
use unitu_lua_test.Base.{
  ℕ, zero, suc, ◌-◌, ◌<◌, ◌≤◌, ◌≡◌, refl, arith, Bool-cases, inl, inr, List, get_or, leb, leb→le,
}
use unitu_lua_test.StringTable.{hash_loop, hash_step}

-- Any two fuels that are larger than the number of characters give the same hash.
pub hash_loop_enough :
    (fuel fuel' : ℕ) (str : List ℕ) (step l1 h : ℕ)
    → 1 ≤ step
    → l1 < fuel
    → l1 < fuel'
    → hash_loop fuel str step l1 h ≡ hash_loop fuel' str step l1 h
unfolding hash_loop
hash_loop_enough zero fuel' str step l1 h positive enough enough' = absurd (omega arith)
hash_loop_enough (suc fuel) zero str step l1 h positive enough enough' = absurd (omega arith)
hash_loop_enough (suc fuel) (suc fuel') str step l1 h positive enough enough' =
    elim (Bool-cases (leb step l1)) [
      | inl e ↦
          let below = leb→le step l1 e in
          let h' = hash_step h (get_or str (l1 - 1) 0) in
          rw e (
            hash_loop_enough fuel fuel' str step (l1 - step) h' positive (omega arith)
              (omega arith))
      | inr e ↦ rw e refl
    ]
