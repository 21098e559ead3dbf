-- ===== src/Table.antt =====
-- Tables: lua-5.1.5/src/ltable.c. Here is how `rehash` counts the array part and chooses
-- its new size.
pub mod Counts
pub mod Sizes
pub mod Slices
pub mod Use
pub mod Node
pub mod Chained
pub mod Settle
pub mod Link
pub mod Move
pub mod Positions
pub mod Ways
pub mod Find
pub mod Keep
pub mod Writes
pub mod Free
pub mod Room
pub mod Insert
pub mod Store
pub mod Access
pub mod Slot
pub mod Map
pub mod Assign
pub mod Resize
pub mod Refill
pub mod Regrow
pub mod New
pub mod Border
pub mod Next
use unitu_lua_test.Base.{
  ℕ, zero, suc, ◌+◌, ◌*◌, ◌/◌, ltb, ◌==◌, ◌&&◌, if◌then◌else◌, List, get_or, length, set, Bool,
  true, false, ◌-◌,
}

-- The loop of `computesizes`; the result is the size of the array part and `na`.
unfoldable pub sizes_loop : ℕ → List ℕ → (i twotoi a na n narray : ℕ) → ℕ × ℕ
sizes_loop zero nums i twotoi a na n narray = (n, na)
sizes_loop (suc fuel) nums i twotoi a na n narray = elim (ltb (twotoi / 2) narray) [
  | false ↦ (n, na)
  | true ↦
      let c = get_or nums i 0 in
      let a' = a + c in
      let more = ltb 0 c && ltb (twotoi / 2) a' in
      let n' = if more then twotoi else n in
      let na' = if more then a' else na in
      elim (a' == narray) [
        | true ↦ (n', na')
        | false ↦ sizes_loop fuel nums (suc i) (twotoi * 2) a' na' n' narray
      ]
]

-- `MAXBITS` + 1 rounds, one for each entry of `nums`, are enough where `narray` counts the entries.
unfoldable pub computesizes : List ℕ → ℕ → ℕ × ℕ
computesizes nums narray = sizes_loop 27 nums 0 1 0 0 0 narray

-- `isnil` stands for ttisnil, and `d` for what lies beyond the array.
module _ {V : Type 0} (isnil : V → Bool) (d : V) where
  -- The counting of a slice: `n` rounds of the inner loop from `i`.
  unfoldable pub slice_loop : ℕ → List V → ℕ → ℕ → ℕ
  slice_loop zero array i lc = lc
  slice_loop (suc n) array i lc =
      slice_loop n array (suc i) (if isnil (get_or array (i - 1) d) then lc else suc lc)

  -- `i`, `ause` and `nums` behind a slice.
  unfoldable pub numusearray_loop : ℕ → List V → (lg ttlg i ause : ℕ) → List ℕ → ℕ × List ℕ
  numusearray_loop zero array lg ttlg i ause nums = (ause, nums)
  numusearray_loop (suc fuel) array lg ttlg i ause nums =
      let lim = if ltb (length array) ttlg then length array else ttlg in
      elim (ltb (length array) ttlg && ltb lim i) [
        | true ↦ (ause, nums)
        | false ↦
            let rounds = suc lim - i in
            let lc = slice_loop rounds array i 0 in
            numusearray_loop fuel array (suc lg) (ttlg * 2) (i + rounds) (ause + lc)
              (set nums lg (get_or nums lg 0 + lc))
      ]

  -- The loop runs for `lg` up to MAXBITS.
  unfoldable pub numusearray : List V → List ℕ → ℕ × List ℕ
  numusearray array nums = numusearray_loop 27 array 0 1 1 0 nums
