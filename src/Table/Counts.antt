-- ===== src/Table/Counts.antt =====
-- Rounds of `computesizes` (lua-5.1.5/src/ltable.c), and sums of what `nums` counts.
use native.Mathlib.Nat.{pow-suc, pow-le-pow_right}
use unitu_lua_test.Base.{
  ℕ, zero, suc, ◌+◌, ◌*◌, ◌/◌, ◌^◌, ◌≤◌, ◌<◌, ◌≡◌, refl, ap, arith, ltb, ◌==◌, ◌&&◌, if◌then◌else◌,
  List, [], ◌∷◌, length, get_or, take, true, false,
}
use unitu_lua_test.Table.{sizes_loop}

unfoldable pub total : List ℕ → ℕ
total [] = 0
total (x ∷ xs) = x + total xs

-- The number of keys from 1 to 2 ^ i.
unfoldable pub used : List ℕ → ℕ → ℕ
used nums i = total (take (suc i) nums)

pub total-take-suc :
    (xs : List ℕ) (i : ℕ) → total (take (suc i) xs) ≡ total (take i xs) + get_or xs i 0
unfolding total
total-take-suc [] zero = refl
total-take-suc [] (suc i) = refl
total-take-suc (x ∷ xs) zero = omega arith
total-take-suc (x ∷ xs) (suc i) = omega (arith, total-take-suc xs i)

pub total-take_le : (xs : List ℕ) (i : ℕ) → total (take i xs) ≤ total xs
unfolding total
total-take_le xs zero = omega arith
total-take_le [] (suc i) = omega arith
total-take_le (x ∷ xs) (suc i) = omega (arith, total-take_le xs i)

pub total-take_all : (xs : List ℕ) (i : ℕ) → length xs ≤ i → total (take i xs) ≡ total xs
unfolding total
total-take_all [] zero h = refl
total-take_all [] (suc i) h = refl
total-take_all (x ∷ xs) zero h = absurd (omega arith)
total-take_all (x ∷ xs) (suc i) h = ap (λ t. x + t) (total-take_all xs i (omega arith))

pub half : (i : ℕ) → 2 ^ suc i / 2 ≡ 2 ^ i
half i = omega (arith, pow-suc 2 i)

pub half_mono : (i j : ℕ) → i ≤ j → 2 ^ i / 2 ≤ 2 ^ j / 2
half_mono i j h = let le : 2 ^ i ≤ 2 ^ j = pow-le-pow_right (omega arith) h in omega arith

-- Behind the last key, the slices are half empty.
pub late_half : (nums : List ℕ) (i j : ℕ) → used nums i ≤ 2 ^ i → i < j → used nums i ≤ 2 ^ j / 2
late_half nums i zero fits lt = absurd (omega arith)
late_half nums i (suc j) fits lt =
    let le : 2 ^ i ≤ 2 ^ j = pow-le-pow_right (omega arith) (omega arith) in omega (arith, half j)

-- A slice that holds more than half its size has a key of its own.
pub own_key :
    (nums : List ℕ) (i : ℕ)
    → ((k : ℕ) → used nums k ≤ 2 ^ k)
    → 2 ^ i / 2 < used nums i
    → 0 < get_or nums i 0
unfolding used
own_key nums zero fits more =
    let before : total (take 0 nums) ≡ 0 = unfold total in refl in
    omega (arith, total-take-suc nums 0, before)
own_key nums (suc i) fits more = omega (arith, total-take-suc nums (suc i), fits i, half i)

-- What a round of the loop of `computesizes` makes of `n`.
unfoldable pub round_n : ℕ → ℕ → ℕ → ℕ → ℕ
round_n c a twotoi n = if ltb 0 c && ltb (twotoi / 2) (a + c) then twotoi else n

pub round_n-more : (c a twotoi n : ℕ) → 0 < c → twotoi / 2 < a + c → round_n c a twotoi n ≡ twotoi
unfolding round_n
round_n-more c a twotoi n h k = ground arith

pub round_n-le : (m c a twotoi n : ℕ) → m ≤ twotoi → m ≤ n → m ≤ round_n c a twotoi n
unfolding round_n
round_n-le m c a twotoi n h k = ground arith

unfoldable pub round_na : ℕ → ℕ → ℕ → ℕ → ℕ
round_na c a twotoi na = if ltb 0 c && ltb (twotoi / 2) (a + c) then a + c else na

-- The three ends of a round.
module _ (fuel : ℕ) (nums : List ℕ) (i twotoi a na n narray : ℕ) where
  pub sizes_loop-exit :
      ltb (twotoi / 2) narray ≡ false → sizes_loop (suc fuel) nums i twotoi a na n narray ≡ (n, na)
  unfolding sizes_loop
  sizes_loop-exit e = rw (e, sizes_loop) refl

  pub sizes_loop-all :
      ltb (twotoi / 2) narray ≡ true
      → (a + get_or nums i 0 == narray) ≡ true
      → sizes_loop (suc fuel) nums i twotoi a na n narray
        ≡ (round_n (get_or nums i 0) a twotoi n, round_na (get_or nums i 0) a twotoi na)
  unfolding round_n round_na sizes_loop
  sizes_loop-all e f = rw (e, f, sizes_loop) refl

  pub sizes_loop-rest :
      ltb (twotoi / 2) narray ≡ true
      → (a + get_or nums i 0 == narray) ≡ false
      → sizes_loop (suc fuel) nums i twotoi a na n narray
        ≡ sizes_loop fuel nums
            (suc i)
            (twotoi * 2)
            (a + get_or nums i 0)
            (round_na (get_or nums i 0) a twotoi na)
            (round_n (get_or nums i 0) a twotoi n)
            narray
  unfolding round_n round_na sizes_loop
  sizes_loop-rest e f = rw (e, f, sizes_loop) refl
