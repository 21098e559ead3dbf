-- ===== src/Table/Slices.antt =====
-- What `nums` holds for a slice of the array part (lua-5.1.5/src/ltable.c), and the rounds that enter it.
use unitu_lua_test.Base.{
  ℕ, zero, suc, ◌+◌, ◌/◌, ◌^◌, ◌≤◌, ◌<◌, ◌≡◌, refl, ap, ◌∙◌, sym, arith, min, leb, leb→le, ◌==◌,
  ==_iff, if◌then◌else◌, List, [], ◌∷◌, length, get_or, set, take, drop, replicate, inl, inr, Bool,
  Bool-cases, get_or-set_self, get_or-set_ne,
}
use unitu_lua_test.Table.Counts.{half_mono}

module _ {V : Type 0} (isnil : V → Bool) (d : V) where
  -- The number of values that are not nil.
  unfoldable pub in_use : List V → ℕ
  in_use [] = 0
  in_use (x ∷ xs) = (if isnil x then 0 else 1) + in_use xs

  pub one_more :
      (xs : List V) (m : ℕ)
      → m < length xs
      → in_use (take (suc m) xs) ≡ in_use (take m xs) + (if isnil (get_or xs m d) then 0 else 1)
  unfolding in_use
  one_more [] m h = absurd (omega arith)
  one_more (x ∷ xs) zero h = omega arith
  one_more (x ∷ xs) (suc m) h = omega (arith, one_more xs m (omega arith))

  take-length_le : (xs : List V) (m : ℕ) → length xs ≤ m → take m xs ≡ xs
  take-length_le [] zero h = refl
  take-length_le [] (suc m) h = refl
  take-length_le (x ∷ xs) zero h = absurd (omega arith)
  take-length_le (x ∷ xs) (suc m) h = ap (λ t. x ∷ t) (take-length_le xs m (omega arith))

  pub in_use-take_all : (xs : List V) (m : ℕ) → length xs ≤ m → in_use (take m xs) ≡ in_use xs
  in_use-take_all xs m h = ap in_use (take-length_le xs m h)

  in_use-take-min :
      (xs : List V) (m : ℕ) → in_use (take (min (length xs) m) xs) ≡ in_use (take m xs)
  in_use-take-min xs m = elim (Bool-cases (leb (length xs) m)) [
    | inl le ↦
        let short = leb→le (length xs) m le in
        in_use-take_all xs (min (length xs) m) (omega (arith, short))
        ∙ sym (in_use-take_all xs m short)
    | inr gt ↦ let same : min (length xs) m ≡ m = ground arith in ap (λ k. in_use (take k xs)) same
  ]

  -- The places of the keys from 2 ^ (lg - 1) + 1 to 2 ^ lg; for 0, that of the key 1.
  unfoldable pub slice : ℕ → List V → List V
  slice lg xs = drop (2 ^ lg / 2) (take (2 ^ lg) xs)

  in_use-drop :
      (xs : List V) (m n : ℕ)
      → m ≤ n
      → in_use (take m xs) + in_use (drop m (take n xs)) ≡ in_use (take n xs)
  unfolding in_use
  in_use-drop xs zero n h = omega arith
  in_use-drop xs (suc m) zero h = absurd (omega arith)
  in_use-drop [] (suc m) (suc n) h = refl
  in_use-drop (x ∷ xs) (suc m) (suc n) h = omega (arith, in_use-drop xs m n (omega arith))

  in_use-slice :
      (xs : List V) (lg c : ℕ)
      → c + in_use (take (2 ^ lg / 2) xs) ≡ in_use (take (2 ^ lg) xs)
      → c ≡ in_use (slice lg xs)
  unfolding slice
  in_use-slice xs lg c h = omega (arith, h, in_use-drop xs (2 ^ lg / 2) (2 ^ lg) (omega arith))

  -- The slices before `lg` are entered, and no other.
  pub record Entered (xs : List V) (lg : ℕ) (nums : List ℕ) : Type 0 where
    slices : (k : ℕ) → k < lg → get_or nums k 0 ≡ in_use (slice k xs)
    pub later : (k : ℕ) → lg ≤ k → get_or nums k 0 ≡ 0

  get_or-noughts : (n k : ℕ) → get_or {A = ℕ} (replicate n 0) k 0 ≡ 0
  get_or-noughts zero k = refl
  get_or-noughts (suc n) zero = refl
  get_or-noughts (suc n) (suc k) = get_or-noughts n k

  pub noughts-Entered : (xs : List V) (n : ℕ) → Entered xs 0 (replicate n 0)
  noughts-Entered xs n = record {
    slices = λ k h. absurd (omega arith);
    later = λ k _. get_or-noughts n k;
  }

  pub set-Entered :
      (xs : List V) (nums : List ℕ) (lg lc : ℕ)
      → Entered xs lg nums
      → lg < length nums
      → lc + in_use (take (min (length xs) (2 ^ lg / 2)) xs)
        ≡ in_use (take (min (length xs) (2 ^ lg)) xs)
      → Entered xs (suc lg) (set nums lg (get_or nums lg 0 + lc))
  set-Entered xs nums lg lc before inside count =
      let c = get_or nums lg 0 + lc in
      let whole : c + in_use (take (2 ^ lg / 2) xs) ≡ in_use (take (2 ^ lg) xs) = omega (
        arith,
        count,
        before.later lg (omega arith),
        in_use-take-min xs (2 ^ lg / 2),
        in_use-take-min xs (2 ^ lg),
      ) in
      record {
        slices = λ k h. elim (Bool-cases (k == lg)) [
          | inl here ↦
              let same = (==_iff k lg).0 here in
              rw same (get_or-set_self nums lg c 0 inside ∙ in_use-slice xs lg c whole)
          | inr there ↦
              get_or-set_ne nums lg k c 0 (λ e. ground arith) ∙ before.slices k (ground arith)
        ];
        later =
            λ k h. get_or-set_ne nums lg k c 0 (λ e. omega arith) ∙ before.later k (omega arith);
      }

  -- Where the array part ends before a slice, the slice is empty.
  pub Entered-slice :
      (xs : List V) (nums : List ℕ) (lg k : ℕ)
      → Entered xs lg nums
      → length xs ≤ 2 ^ lg / 2
      → get_or nums k 0 ≡ in_use (slice k xs)
  Entered-slice xs nums lg k e short = elim (Bool-cases (leb lg k)) [
    | inl le ↦
        let above = leb→le lg k le in
        let wide = half_mono lg k above in
        let start = in_use-take_all xs (2 ^ k / 2) (omega (arith, short, wide)) in
        let end = in_use-take_all xs (2 ^ k) (omega (arith, short, wide)) in
        in_use-slice xs k (get_or nums k 0) (omega (arith, e.later k above, start, end))
    | inr gt ↦ e.slices k (ground arith)
  ]
