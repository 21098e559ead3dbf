-- ===== src/Tests/Tables.antt =====
-- Tables (lua-5.1.5/src/ltable.c) at concrete values.
use native.Mathlib.Nat.{pow-le-pow_right}
use unitu_lua_test.Base.{
  [], Bool, ◌==◌, ℕ, zero, suc, ◌^◌, ◌≤◌, ◌≡◌, refl, arith, List, ◌∷◌, take, get_or, replicate,
}
use unitu_lua_test.Table.{sizes_loop, computesizes, slice_loop, numusearray_loop, numusearray}
use unitu_lua_test.Table.Slices.{in_use, slice}
use unitu_lua_test.Table.Use.{numusearray-in_use}
use unitu_lua_test.Table.Counts.{total, used, total-take_le}
use unitu_lua_test.Table.Sizes.{IsHalfUsed, computesizes-IsHalfUsed, computesizes_largest}

-- The keys 1 to 4, and one of those from 9 to 16.
abbrev four_and_one : List ℕ
four_and_one = 1 ∷ 1 ∷ 2 ∷ 0 ∷ 1 ∷ replicate 22 0

four_chosen : computesizes four_and_one 5 ≡ (4, 4)
unfolding computesizes sizes_loop
four_chosen = refl

four_and_one-fits : (k : ℕ) → used four_and_one k ≤ 2 ^ k
unfolding used total
four_and_one-fits zero = omega arith
four_and_one-fits (suc zero) = omega arith
four_and_one-fits (suc (suc zero)) = omega arith
four_and_one-fits (suc (suc (suc k))) =
    let up : 3 ≤ suc (suc (suc k)) = omega arith in
    let eight : 2 ^ 3 ≤ 2 ^ suc (suc (suc k)) = pow-le-pow_right (omega arith) up in
    let most : total (take (suc (suc (suc (suc k)))) four_and_one) ≤ 5 =
      total-take_le four_and_one (suc (suc (suc (suc k)))) in
    omega arith

computesizes-IsHalfUsed_example : IsHalfUsed four_and_one (computesizes four_and_one 5)
unfolding total
computesizes-IsHalfUsed_example = computesizes-IsHalfUsed four_and_one

computesizes_largest_example : 2 ^ 2 ≤ (computesizes four_and_one 5).0
unfolding total used
computesizes_largest_example =
    computesizes_largest four_and_one 2 (omega arith) four_and_one-fits (omega arith)

is_nought : ℕ → Bool
is_nought n = n == 0

-- An array part with values at 1, 3, 4 and 5.
abbrev five_places : List ℕ
five_places = 7 ∷ 0 ∷ 7 ∷ 7 ∷ 7 ∷ []

five_counted :
    numusearray is_nought 0 five_places (replicate 27 0) ≡ (4, 1 ∷ 0 ∷ 2 ∷ 1 ∷ replicate 23 0)
unfolding numusearray numusearray_loop slice_loop is_nought
five_counted = refl

numusearray-in_use_example :
    let (ause, nums) = numusearray is_nought 0 five_places (replicate 27 0) in
    (ause ≡ 4) × (total nums ≡ 4) × (get_or nums 2 0 ≡ 2)
unfolding in_use slice is_nought
numusearray-in_use_example =
    numusearray-in_use is_nought 0 five_places 2 (omega arith) (omega arith)
