-- ===== src/Debug/Visited.antt =====
-- The instructions that a linear scan meets, as in `symbexec` (lua-5.1.5/src/ldebug.c), and the targets of jumps: the
-- count behind a list store is no instruction, even where its bits look like one.
use unitu_lua_test.Base.{
  ℕ, zero, suc, ◌%◌, ◌<◌, ◌≤◌, ◌≡◌, ◌⊎◌, ap, ◌∙◌, sym, arith, inl, inr, ltb, ltb→lt, ◌==◌, List,
  length, get_or, true, false, Bool-cases, bit_and,
}
use unitu_lua_test.Base.Bits.{bit_and-ones}
use unitu_lua_test.Base.Int.{ℤ, pos, negsuc}
use unitu_lua_test.Chunk.{Info}
use unitu_lua_test.Debug.Outcome.{fetch, Post, Post-bind, Post-check, Post-check_end, Post-fetch}
use unitu_lua_test.Debug.{is_wide, wide_before, check_dest}

pub data IsVisited (code : List ℕ) : ℕ → Type 0 where
  start : IsVisited code 0
  next : {pc : ℕ} → IsVisited code pc → is_wide (get_or code pc 0) ≡ false → IsVisited code (suc pc)
  past_count :
      {pc : ℕ}
      → IsVisited code pc
      → is_wide (get_or code pc 0) ≡ true
      → IsVisited code (suc (suc pc))

-- Of two neighbours one is an instruction.
pub IsVisited-cases : (code : List ℕ) (pc : ℕ) → IsVisited code pc ⊎ IsVisited code (suc pc)
IsVisited-cases code zero = inl start
IsVisited-cases code (suc pc) = elim (IsVisited-cases code pc) [
  | inl v ↦ elim (Bool-cases (is_wide (get_or code pc 0))) [
    | inl wide ↦ inr (past_count v wide)
    | inr plain ↦ inl (next v plain)
  ]
  | inr v ↦ inl v
]

pub plain_then-IsVisited :
    (code : List ℕ) (pc : ℕ) → is_wide (get_or code pc 0) ≡ false → IsVisited code (suc pc)
plain_then-IsVisited code pc plain = elim (IsVisited-cases code pc) [
  | inl v ↦ next v plain
  | inr v ↦ v
]

-- Behind `j` words that look like list stores, and that follow one that does not.
record Follows (code : List ℕ) (n j : ℕ) : Type 0 where
  even : j % 2 ≡ 0 → IsVisited code n
  odd : j % 2 ≡ 1 → IsVisited code (suc n)

wide_before-Follows :
    (code : List ℕ) (n : ℕ) → n ≤ length code → Post (Follows code n) (wide_before code n)
unfolding wide_before
wide_before-Follows code zero h = record { even = λ _. start; odd = λ e. absurd (omega arith) }
wide_before-Follows code (suc n) h =
    Post-bind (λ d. d ≡ get_or code n 0) (Follows code (suc n)) (fetch code n) _
      (Post-fetch code n 0 (omega arith))
      λ d e. elim (Bool-cases (is_wide d)) [
        | inl wide ↦
            let wide' = ap is_wide (sym e) ∙ wide in
            rw (wide) (
              Post-bind (Follows code n) (Follows code (suc n)) (wide_before code n) _
                (wide_before-Follows code n (omega arith))
                λ j f. record {
                  even = λ k. f.odd (omega arith);
                  odd = λ k. past_count (f.even (omega arith)) wide';
                })
        | inr plain ↦
            let v = plain_then-IsVisited code n (ap is_wide (sym e) ∙ plain) in
            rw (plain) (record { even = λ _. v; odd = λ k. absurd (omega arith) })
      ]

-- A jump that the checker accepts lands on an instruction.
unfoldable pub Lands : List ℕ → ℤ → Type 0
Lands code (negsuc n) = ⊥
Lands code (pos dest) = (dest < length code) × IsVisited code dest

even-bit : (j : ℕ) → (bit_and j 1 == 0) ≡ true → j % 2 ≡ 0
even-bit j h = let last = bit_and-ones 1 j in ground (arith, last)

pub check_dest-Lands : (pt : Info) (z : ℤ) → Post (λ _. Lands pt.code z) (check_dest pt z)
unfolding check_dest Lands
check_dest-Lands pt (negsuc n) = tt
check_dest-Lands pt (pos dest) =
    Post-check (λ _. Lands pt.code (pos dest)) (ltb dest (length pt.code)) _
      λ lt.
        let inside = ltb→lt _ _ lt in
        Post-bind (Follows pt.code dest) (λ _. Lands pt.code (pos dest)) (wide_before pt.code dest)
          _ (wide_before-Follows pt.code dest (omega arith))
          λ j f.
            Post-check_end (Lands pt.code (pos dest)) (bit_and j 1 == 0)
              λ e. (inside, f.even (even-bit j e))

-- What follows a list store is its count, and no instruction.
pub count-not-IsVisited :
    (code : List ℕ) (pc : ℕ)
    → IsVisited code pc
    → is_wide (get_or code pc 0) ≡ true
    → IsVisited code (suc pc)
    → ⊥
count-not-IsVisited code pc v wide (next v' plain) = cc
count-not-IsVisited code (suc pc) v wide (past_count v' wide') =
    count-not-IsVisited code pc v' wide' v
