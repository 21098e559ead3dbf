-- ===== src/Table/Sizes.antt =====
-- `computesizes` (lua-5.1.5/src/ltable.c) finds the largest array part that is more than half full.
use native.Mathlib.Nat.{pow-suc, pow-le-pow_right}
use unitu_lua_test.Base.{
  ℕ, zero, suc, ◌+◌, ◌*◌, ◌/◌, ◌^◌, ◌≤◌, ◌<◌, ◌≡◌, ◌⊎◌, ◌≢◌, refl, ap, ◌∙◌, sym, arith, ltb, ltb→lt,
  ◌==◌, ◌&&◌, List, length, get_or, take, inl, inr, Bool-cases,
}
use unitu_lua_test.Table.{sizes_loop, computesizes}
use unitu_lua_test.Table.Counts.{
  total, used, total-take-suc, total-take_le, total-take_all, half_mono, late_half, own_key,
  round_n, round_na, round_n-more, round_n-le, sizes_loop-exit, sizes_loop-all, sizes_loop-rest,
}

module _ (nums : List ℕ) (fits : (k : ℕ) → used nums k ≤ 2 ^ k) where
  -- An exponent whose power of two is more than half used, and below `i` only if `n` is as large.
  record Waits (j i n : ℕ) : Type 0 where
    half_used : 2 ^ j / 2 < used nums j
    reached : j < i → 2 ^ j ≤ n

  round-Waits :
      (j i n : ℕ)
      → Waits j i n
      → Waits j (suc i) (round_n (get_or nums i 0) (total (take i nums)) (2 ^ i) n)
  round-Waits j i n w = record {
    half_used = w.half_used;
    reached = λ lt. elim (Bool-cases (j == i)) [
      | inl now ↦
          let j_i : j ≡ i = ground arith in
          let half_i = ap (λ k. 2 ^ k / 2) j_i in
          let used_i = ap (used nums) j_i in
          let more : 2 ^ i / 2 < used nums i = omega (arith, w.half_used, half_i, used_i) in
          let sum : used nums i ≡ total (take i nums) + get_or nums i 0 =
            unfold used in total-take-suc nums i in
          let round =
            round_n-more (get_or nums i 0) (total (take i nums)) (2 ^ i) n
              (own_key nums i fits more) (omega (arith, more, sum)) in
          omega (arith, round, ap (λ k. 2 ^ k) j_i)
      | inr early ↦
          let before : j < i = ground arith in
          round_n-le (2 ^ j) _ _ (2 ^ i) n (pow-le-pow_right (omega arith) (omega arith))
            (w.reached before)
    ];
  }

  sizes_loop-optimal :
      (fuel i n na j : ℕ)
      → i + fuel ≡ 27
      → length nums ≤ 27
      → (i ≡ 0) ⊎ (total (take i nums) ≢ total nums)
      → Waits j i n
      → 2 ^ j ≤ (sizes_loop fuel nums i (2 ^ i) (total (take i nums)) na n (total nums)).0
  sizes_loop-optimal zero i n na j round size going w =
      unfold sizes_loop in
      elim going [
        | inl start ↦ absurd (omega arith)
        | inr left ↦ absurd (left (total-take_all nums i (omega arith)))
      ]
  sizes_loop-optimal (suc fuel) i n na j round size going w =
      let c = get_or nums i 0 in
      let a = total (take i nums) in
      let w' = round-Waits j i n w in
      let sum : used nums i ≡ a + c = unfold used in total-take-suc nums i in
      let most : used nums j ≤ total nums = unfold used in total-take_le nums (suc j) in
      elim (Bool-cases (ltb (2 ^ i / 2) (total nums))) [
        | inr done ↦
            rw (sizes_loop-exit fuel nums i (2 ^ i) a na n (total nums) done)
              (elim (Bool-cases (ltb j i)) [
                | inl early ↦ w.reached (ltb→lt j i early)
                | inr late ↦
                    let mono = half_mono i j (ground arith) in
                    let stop : total nums ≤ 2 ^ i / 2 = ground arith in
                    absurd (omega (arith, w.half_used, mono, stop, most))
              ])
        | inl more ↦ elim (Bool-cases (a + c == total nums)) [
          | inl all ↦
              rw (sizes_loop-all fuel nums i (2 ^ i) a na n (total nums) more all)
                (elim (Bool-cases (ltb j (suc i))) [
                  | inl early ↦ w'.reached (ltb→lt j (suc i) early)
                  | inr late ↦
                      let half_full = late_half nums i j (fits i) (ground arith) in
                      let every : a + c ≡ total nums = ground arith in
                      absurd (omega (arith, w.half_used, half_full, every, sum, most))
                ])
          | inr rest ↦
              let two : 2 ^ i * 2 ≡ 2 ^ suc i = omega (arith, pow-suc 2 i) in
              let apart : a + c ≢ total nums = λ e. ground arith in
              rw (sizes_loop-rest fuel nums i (2 ^ i) a na n (total nums) more rest) (
                rw (two, sym (total-take-suc nums i))
                  (sizes_loop-optimal fuel (suc i) (round_n c a (2 ^ i) n) (round_na c a (2 ^ i) na)
                    j (omega arith) size
                    (inr (λ e. absurd (apart (sym (total-take-suc nums i) ∙ e)))) w'))
        ]
      ]

module _ (nums : List ℕ) where
  -- The size `n` is nothing, or a power of two that is more than half used, by `na` keys.
  unfoldable pub IsHalfUsed : ℕ × ℕ → Type 0
  IsHalfUsed (n, na) =
      ((n ≡ 0) × (na ≡ 0))
      ⊎ ((k : ℕ) × (n ≡ 2 ^ k) × (na ≡ used nums k) × (2 ^ k / 2 < na) × (na ≤ total nums))

  round-IsHalfUsed :
      (i n na : ℕ)
      → IsHalfUsed (n, na)
      → IsHalfUsed (
        round_n (get_or nums i 0) (total (take i nums)) (2 ^ i) n,
        round_na (get_or nums i 0) (total (take i nums)) (2 ^ i) na,
      )
  unfolding IsHalfUsed round_n round_na
  round-IsHalfUsed i n na h =
      let c = get_or nums i 0 in
      let a = total (take i nums) in
      elim (Bool-cases (ltb 0 c && ltb (2 ^ i / 2) (a + c))) [
        | inl more ↦
            let sum : a + c ≡ used nums i = unfold used in sym (total-take-suc nums i) in
            let all : used nums i ≤ total nums = unfold used in total-take_le nums (suc i) in
            rw (more) (inr (i, refl, sum, ground arith, omega (arith, sum, all)))
        | inr less ↦ rw (less) h
      ]

  sizes_loop-IsHalfUsed :
      (fuel i n na : ℕ)
      → IsHalfUsed (n, na)
      → IsHalfUsed (sizes_loop fuel nums i (2 ^ i) (total (take i nums)) na n (total nums))
  sizes_loop-IsHalfUsed zero i n na h = unfold sizes_loop in h
  sizes_loop-IsHalfUsed (suc fuel) i n na h =
      let c = get_or nums i 0 in
      let a = total (take i nums) in
      let h' = round-IsHalfUsed i n na h in
      elim (Bool-cases (ltb (2 ^ i / 2) (total nums))) [
        | inr done ↦ rw (sizes_loop-exit fuel nums i (2 ^ i) a na n (total nums) done) h
        | inl more ↦ elim (Bool-cases (a + c == total nums)) [
          | inl all ↦ rw (sizes_loop-all fuel nums i (2 ^ i) a na n (total nums) more all) h'
          | inr rest ↦
              let two : 2 ^ i * 2 ≡ 2 ^ suc i = omega (arith, pow-suc 2 i) in
              rw (sizes_loop-rest fuel nums i (2 ^ i) a na n (total nums) more rest) (
                rw (two, sym (total-take-suc nums i))
                  (sizes_loop-IsHalfUsed fuel (suc i) (round_n c a (2 ^ i) n)
                    (round_na c a (2 ^ i) na) h'))
        ]
      ]

-- The array part that `computesizes` chooses is empty, or a power of two more than half of which is
-- used; the second result counts the keys that go there, at most all of them.
pub computesizes-IsHalfUsed : (nums : List ℕ) → IsHalfUsed nums (computesizes nums (total nums))
unfolding computesizes
computesizes-IsHalfUsed nums =
    let start = sizes_loop-IsHalfUsed nums 27 0 0 0 (unfold IsHalfUsed in inl (refl, refl)) in
    unfold total in start

-- No larger size would do: every power of two more than half of which is used is at most the chosen
-- one. `nums` counts the keys of each slice, in 27 slices at most, and there are never more than 2 ^ k
-- keys from 1 to 2 ^ k.
pub computesizes_largest :
    (nums : List ℕ) (j : ℕ)
    → length nums ≤ 27
    → ((k : ℕ) → used nums k ≤ 2 ^ k)
    → 2 ^ j / 2 < used nums j
    → 2 ^ j ≤ (computesizes nums (total nums)).0
unfolding computesizes
computesizes_largest nums j size fits half_used =
    let start =
      sizes_loop-optimal nums fits 27 0 0 0 j refl size (inl refl)
        (record { half_used = half_used; reached = λ lt. absurd (omega arith) }) in
    unfold total in start
