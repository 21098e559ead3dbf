-- ===== src/Object/Log.antt =====
-- `luaO_log2` and `ceillog2` (lua-5.1.5/src/lobject.c, lobject.h): the table and its loop.
use native.Mathlib.Nat.{pow-suc, pow-le-pow_right}
use native.Mathlib.Numerals.{towards_suc}
use unitu_lua_test.Base.{
  ℕ, zero, suc, ◌+◌, ◌-◌, ◌*◌, ◌/◌, ◌%◌, ◌^◌, ◌≤◌, ◌<◌, ◌≡◌, refl, ap, ◌∙◌, ltb, leb, ltb→lt,
  leb→le, ◌&&◌, ◌||◌, ◌==◌, inl, inr, Bool, true, Bool-cases, arith, get_or,
}
use unitu_lua_test.Base.Int.{ℤ, pos, sub_ℕ, ◌+ℤ◌}
use unitu_lua_test.Object.{log_2, log2_loop, log2, ceillog2}

-- `k` is the number of the highest binary digit of `x`.
pub record IsLog (x k : ℕ) : Type 0 where
  pub low : 2 ^ k ≤ x
  pub high : x < 2 ^ (k + 1)

-- The table, entry by entry.
entry_fits : ℕ → Bool
entry_fits x =
    (x == 0)
    || (leb 1 (get_or log_2 x 0)
        && leb (2 ^ (get_or log_2 x 0 - 1)) x
        && ltb x (2 ^ get_or log_2 x 0))

entries_fit : ℕ → Bool
entries_fit zero = true
entries_fit (suc n) = entry_fits n && entries_fit n

entries_fit-entry_fits : (n x : ℕ) → entries_fit n ≡ true → x < n → entry_fits x ≡ true
unfolding entries_fit
entries_fit-entry_fits zero x h lt = absurd (omega arith)
entries_fit-entry_fits (suc n) x h lt = ground (arith, entries_fit-entry_fits n x)

table_fits : entries_fit 256 ≡ true
unfolding entries_fit entry_fits
table_fits = refl

entry-IsLog : (x : ℕ) → 0 < x → x < 256 → (1 ≤ get_or log_2 x 0) × IsLog x (get_or log_2 x 0 - 1)
entry-IsLog x lo hi =
    read (get_or log_2 x 0) (unfold entry_fits in entries_fit-entry_fits 256 x table_fits hi)
  where
    read :
        (t : ℕ)
        → ((x == 0) || (leb 1 t && leb (2 ^ (t - 1)) x && ltb x (2 ^ t))) ≡ true
        → (1 ≤ t) × IsLog x (t - 1)
    read t h =
        let one : 1 ≤ t = ground arith in
        let back : t - 1 + 1 ≡ t = omega arith in
        (one, record { low = ground arith; high = rw back (ground arith) })

-- A sum that starts one below zero.
add_shifted : (n t : ℕ) → sub_ℕ n 1 +ℤ pos t ≡ sub_ℕ (n + t) 1
unfolding ◌+ℤ◌
add_shifted n t = ground arith

shifted_pos : (n t : ℕ) → 1 ≤ t → sub_ℕ (n + t) 1 ≡ pos (n + (t - 1))
shifted_pos n t h = ground arith

table_step :
    (x n : ℕ)
    → 0 < x
    → x < 256
    → (k : ℕ) × (sub_ℕ n 1 +ℤ pos (get_or log_2 x 0) ≡ pos (n + k)) × IsLog x k
table_step x n lo hi =
    let t = get_or log_2 x 0 in
    let (one, fits) = entry-IsLog x lo hi in (t - 1, add_shifted n t ∙ shifted_pos n t one, fits)

IsLog-shift : (x k : ℕ) → IsLog (x / 2 ^ 8) k → IsLog x (k + 8)
IsLog-shift x k h =
    let eight : 2 ^ (k + 8) ≡ 256 * 2 ^ k = simp towards_suc (omega arith) in
    let nine : 2 ^ (k + 8 + 1) ≡ 256 * 2 ^ (k + 1) = simp towards_suc (omega arith) in
    record { low = omega (arith, h.low, eight); high = omega (arith, h.high, nine) }

log2_loop-IsLog :
    (fuel x n : ℕ)
    → 0 < x
    → x < 256 * 256 ^ fuel
    → (k : ℕ) × (log2_loop fuel x (sub_ℕ n 1) ≡ pos (n + k)) × IsLog x k
unfolding log2_loop
log2_loop-IsLog zero x n lo hi = table_step x n lo hi
log2_loop-IsLog (suc fuel) x n lo hi = elim (Bool-cases (leb 256 x)) [
  | inl big ↦
      let wide = leb→le 256 x big in
      let (k, run, fits) =
        log2_loop-IsLog fuel (x / 2 ^ 8) (n + 8) (omega arith) (omega (arith, pow-suc 256 fuel)) in
      (k + 8, rw (big, log2_loop, add_shifted) (run ∙ ap pos (omega arith)), IsLog-shift x k fits)
  | inr small ↦
      let (k, run, fits) = table_step x n lo (ground arith) in (k, rw (small, log2_loop) run, fits)
]

-- For a positive unsigned int the result is the exponent of the highest power of two that is not above it.
pub log2-IsLog : (x : ℕ) → 0 < x → x < 2 ^ 32 → (k : ℕ) × (log2 x ≡ pos k) × IsLog x k
unfolding log2
log2-IsLog x lo hi =
    let (k, run, fits) = log2_loop-IsLog 3 x 0 lo (omega arith) in
    (k, run ∙ ap pos (omega arith), fits)

pub two_pow : (k : ℕ) → 2 ^ (k + 1) ≡ 2 * 2 ^ k
two_pow k = simp towards_suc (omega arith)

pub exponent-lt : (k n : ℕ) → 2 ^ k < 2 ^ n → suc k ≤ n
exponent-lt k n h = elim (Bool-cases (ltb k n)) [
  | inl lt ↦ ltb→lt k n lt
  | inr ge ↦
      let above : 2 ^ n ≤ 2 ^ k = pow-le-pow_right (omega arith) (ground arith) in
      absurd (omega arith)
]

pos_add : (a b : ℕ) → pos a +ℤ pos b ≡ pos (a + b)
unfolding ◌+ℤ◌
pos_add a b = ground arith

-- For a size from 1 to 2 ^ 31, `ceillog2` is the least exponent of a power of two that holds it.
pub ceillog2_least :
    (x : ℕ)
    → 1 ≤ x
    → x ≤ 2 ^ 31
    → (k : ℕ) × (ceillog2 x ≡ pos k) × (x ≤ 2 ^ k) × (2 ^ k < 2 * x) × (k < 32)
unfolding ceillog2
ceillog2_least zero lo hi = absurd (omega arith)
ceillog2_least (suc zero) lo hi =
    (0, unfold log2 log2_loop ◌+ℤ◌ in refl, omega arith, omega arith, omega arith)
ceillog2_least (suc (suc y)) lo hi =
    let wrap : (suc (suc y) + 2 ^ 32 - 1) % 2 ^ 32 ≡ suc y = omega arith in
    let (k, run, fits) = log2-IsLog (suc y) (omega arith) (omega arith) in
    let below : 2 ^ (k + 1) < 2 ^ 32 = omega (arith, fits.low, two_pow k) in
    (
      k + 1,
      ap (λ (v : ℕ). log2 v +ℤ pos 1) wrap ∙ ap (λ (v : ℤ). v +ℤ pos 1) run ∙ pos_add k 1,
      omega (arith, fits.high),
      omega (arith, fits.low, two_pow k),
      exponent-lt (k + 1) 32 below,
    )
