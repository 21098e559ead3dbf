-- ===== src/Table/Use.antt =====
-- `numusearray` (lua-5.1.5/src/ltable.c) counts every value of the array part once.
use native.Mathlib.Nat.{pow-suc}
use unitu_lua_test.Base.{
  ℕ, zero, suc, ◌+◌, ◌-◌, ◌*◌, ◌/◌, ◌^◌, ◌≤◌, ◌<◌, ◌≡◌, refl, ap, ◌∙◌, sym, arith, min, ltb, ◌&&◌,
  if◌then◌else◌, List, [], ◌∷◌, length, length-set, get_or, set, take, replicate, inl, inr, true,
  false, Bool, Bool-cases,
}
use unitu_lua_test.Table.{slice_loop, numusearray_loop, numusearray}
use unitu_lua_test.Table.Counts.{total, half}
use unitu_lua_test.Table.Slices.{
  in_use, one_more, in_use-take_all, slice, Entered, noughts-Entered, set-Entered, Entered-slice,
}

total-set :
    (xs : List ℕ) (i c : ℕ) → i < length xs → total (set xs i (get_or xs i 0 + c)) ≡ total xs + c
unfolding total
total-set [] i c h = absurd (omega arith)
total-set (x ∷ xs) zero c h = omega arith
total-set (x ∷ xs) (suc i) c h = omega (arith, total-set xs i c (omega arith))

module _ {V : Type 0} (isnil : V → Bool) (d : V) where
  slice_loop-in_use :
      (n m lc : ℕ) (xs : List V)
      → m + n ≤ length xs
      → slice_loop isnil d n xs (suc m) lc + in_use isnil d (take m xs)
        ≡ lc + in_use isnil d (take (m + n) xs)
  unfolding slice_loop
  slice_loop-in_use zero m lc xs h =
      let same : m + 0 ≡ m = omega arith in ap (λ k. lc + in_use isnil d (take k xs)) (sym same)
  slice_loop-in_use (suc n) m lc xs h =
      let more = one_more isnil d xs m (omega arith) in
      let here : suc m - 1 ≡ m = omega arith in
      let far : m + suc n ≡ suc m + n = omega arith in
      rw (here, far)
        (elim (Bool-cases (isnil (get_or xs m d))) [
          | inl gone ↦
              let rest = slice_loop-in_use n (suc m) lc xs (omega arith) in
              let count = more ∙ ap (λ b. in_use isnil d (take m xs) + (if b then 0 else 1)) gone in
              rw (gone) (omega (arith, rest, count))
          | inr there ↦
              let rest = slice_loop-in_use n (suc m) (suc lc) xs (omega arith) in
              let count =
                more ∙ ap (λ b. in_use isnil d (take m xs) + (if b then 0 else 1)) there in
              rw (there) (omega (arith, rest, count))
        ])

  record Counted (xs : List V) (r : ℕ × List ℕ) : Type 0 where
    count : r.0 ≡ in_use isnil d xs
    sum : total r.1 ≡ r.0
    entries : (k : ℕ) → k < 27 → get_or r.1 k 0 ≡ in_use isnil d (slice isnil d k xs)

  limit : List V → ℕ → ℕ
  limit xs ttlg = if ltb (length xs) ttlg then length xs else ttlg

  limit-min : (xs : List V) (ttlg : ℕ) → limit xs ttlg ≡ min (length xs) ttlg
  unfolding limit
  limit-min xs ttlg = ground arith

  -- A round of the loop.
  module _ (fuel : ℕ) (xs : List V) (lg ttlg i ause : ℕ) (nums : List ℕ) where
    loop_stops :
        (ltb (length xs) ttlg && ltb (limit xs ttlg) i) ≡ true
        → numusearray_loop isnil d (suc fuel) xs lg ttlg i ause nums ≡ (ause, nums)
    unfolding numusearray_loop limit
    loop_stops e = rw (e, numusearray_loop) refl

    loop_goes_on :
        (ltb (length xs) ttlg && ltb (limit xs ttlg) i) ≡ false
        → let rounds = suc (limit xs ttlg) - i in
          let lc = slice_loop isnil d rounds xs i 0 in
          numusearray_loop isnil d (suc fuel) xs lg ttlg i ause nums
          ≡ numusearray_loop isnil d fuel xs
              (suc lg)
              (ttlg * 2)
              (i + rounds)
              (ause + lc)
              (set nums lg (get_or nums lg 0 + lc))
    unfolding numusearray_loop limit
    loop_goes_on e = rw (e, numusearray_loop) refl

  behind :
      (size ttlg lim m : ℕ)
      → lim ≡ min size ttlg
      → (ltb size ttlg && ltb lim (suc m)) ≡ true
      → size ≤ m
  behind size ttlg lim m e h = ground arith

  stopped :
      (lg m ause : ℕ) (xs : List V) (nums : List ℕ)
      → length xs ≤ 2 ^ lg / 2
      → length xs ≤ m
      → ause ≡ in_use isnil d (take m xs)
      → total nums ≡ ause
      → Entered isnil d xs lg nums
      → Counted xs (ause, nums)
  stopped lg m ause xs nums short past a t entered = record {
    count = a ∙ in_use-take_all isnil d xs m past;
    sum = t;
    entries = λ k _. Entered-slice isnil d xs nums lg k entered short;
  }

  numusearray_loop-Counted :
      (fuel lg m ause : ℕ) (xs : List V) (nums : List ℕ)
      → lg + fuel ≡ 27
      → length nums ≡ 27
      → length xs ≤ 2 ^ 26
      → m ≡ min (length xs) (2 ^ lg / 2)
      → ause ≡ in_use isnil d (take m xs)
      → total nums ≡ ause
      → Entered isnil d xs lg nums
      → Counted xs (numusearray_loop isnil d fuel xs lg (2 ^ lg) (suc m) ause nums)
  numusearray_loop-Counted zero lg m ause xs nums round size short at a t entered =
      let last : lg ≡ 27 = omega arith in
      let full : 2 ^ lg / 2 ≡ 2 ^ 26 = ap (λ k. 2 ^ k / 2) last in
      unfold numusearray_loop in
      stopped lg m ause xs nums (omega (arith, full)) (omega (arith, at, full)) a t entered
  numusearray_loop-Counted (suc fuel) lg m ause xs nums round size short at a t entered =
      let lim = limit xs (2 ^ lg) in
      let lim_min = limit-min xs (2 ^ lg) in
      let rounds = suc lim - suc m in
      let lc = slice_loop isnil d rounds xs (suc m) 0 in
      elim (Bool-cases (ltb (length xs) (2 ^ lg) && ltb lim (suc m))) [
        | inl stop ↦
            let past = behind (length xs) (2 ^ lg) lim m lim_min stop in
            rw (loop_stops fuel xs lg (2 ^ lg) (suc m) ause nums stop)
              (stopped lg m ause xs nums (omega (arith, past, at)) past a t entered)
        | inr on ↦
            let two : 2 ^ lg * 2 ≡ 2 ^ suc lg = omega (arith, pow-suc 2 lg) in
            let next : suc m + rounds ≡ suc lim = omega (arith, lim_min, at) in
            let sum : lc + in_use isnil d (take m xs) ≡ in_use isnil d (take (m + rounds) xs) =
              omega (arith, slice_loop-in_use rounds m 0 xs (omega (arith, lim_min, at))) in
            let reach : m + rounds ≡ lim = omega (arith, next) in
            let upto = sum ∙ ap (λ k. in_use isnil d (take k xs)) reach in
            let ends : lc + in_use isnil d (take (min (length xs) (2 ^ lg / 2)) xs)
                ≡ in_use isnil d (take (min (length xs) (2 ^ lg)) xs) =
              ap (λ k. lc + in_use isnil d (take k xs)) (sym at)
              ∙ upto
              ∙ ap (λ k. in_use isnil d (take k xs)) lim_min in
            let entered' = set-Entered isnil d xs nums lg lc entered (omega (arith, size)) ends in
            rw (loop_goes_on fuel xs lg (2 ^ lg) (suc m) ause nums on) (
              rw (two, next)
                (numusearray_loop-Counted fuel (suc lg) lim (ause + lc) xs
                  (set nums lg (get_or nums lg 0 + lc)) (omega arith) (length-set nums lg _ ∙ size)
                  short (lim_min ∙ ap (min (length xs)) (sym (half lg))) (omega (arith, a, upto))
                  (omega (arith, total-set nums lg lc (omega (arith, size)), t)) entered'))
      ]

  -- `numusearray` counts every value of the array part that is not nil, and leaves in `nums`, which is zero before, as
  -- many as it counts: the entry of a slice is the number of those values among the places of the slice. The array part has
  -- 2 ^ 26 places at most (MAXASIZE).
  pub numusearray-in_use :
      (array : List V) (lg : ℕ)
      → length array ≤ 2 ^ 26
      → lg < 27
      → let (ause, nums) = numusearray isnil d array (replicate 27 0) in
        (ause ≡ in_use isnil d array)
        × (total nums ≡ in_use isnil d array)
        × (get_or nums lg 0 ≡ in_use isnil d (slice isnil d lg array))
  unfolding numusearray
  numusearray-in_use array lg short below =
      let start : 0 ≡ min (length array) 0 = omega arith in
      let c =
        numusearray_loop-Counted 27 0 0 0 array (replicate 27 0) refl refl short start
          (unfold in_use in refl) (unfold total in refl) (noughts-Entered isnil d array 27) in
      (c.count, c.sum ∙ c.count, c.entries lg below)
