-- ===== src/Table/Border/Present.antt =====
-- No more indices have a value than a table has places (lua-5.1.5/src/ltable.c, the linear search of unbound_search).
use unitu_lua_test.Base.{
  ℕ, zero, suc, ◌+◌, ◌-◌, ◌^◌, ◌<◌, ◌≤◌, ◌≡◌, ◌≢◌, refl, ap, sym, ◌∙◌, arith, ltb, ltb→lt,
  if◌then◌else◌, Bool, true, false, ◌⊎◌, inl, inr, List, [], ◌∷◌, length, Option, none, some,
  Bool-cases, Option-cases,
}
use unitu_lua_test.Base.Distinct.{IsApart, AreDistinct, AreBelow, length-le_of_distinct}
use unitu_lua_test.Base.Int.{pos, pos_part}
use unitu_lua_test.Object.Value.{
  TValue, nil, boolean, lightuserdata, number, object, ttisnil, numeq, cast_num, number2int,
}
use unitu_lua_test.Object.Whole.{number2int-cast_num}
use unitu_lua_test.Table.Node.{
  Table, Place, in_array, in_node, value_at, gnode, getnum, find_number, is_number, place_of,
}
use unitu_lua_test.Table.Border.{nil_at, linear_search}
use unitu_lua_test.Table.Chained.{IsUsed}
use unitu_lua_test.Table.Map.{used-lt}
use unitu_lua_test.Table.Positions.{same_bits, both_zero, numeq-cases, numeq-sym, numeq_trans}
use unitu_lua_test.Table.Slot.{zero-number2int}
use unitu_lua_test.Table.Ways.{find_node_sound}
use mathlib.Core.Path.{subst}
use mathlib.Core.Option.{none-ne-some}

numeq-number2int : (a b : ℕ) → numeq a b ≡ true → number2int a ≡ number2int b
numeq-number2int a b h = elim ((numeq-cases a b h).0) [
  | same_bits e ↦ ap number2int e
  | both_zero y z ↦ zero-number2int a y ∙ sym (zero-number2int b z)
]

-- Two indices with equal numbers are equal.
index-injective :
    (k m : ℕ) → k < 2 ^ 31 → m < 2 ^ 31 → numeq (cast_num (pos k)) (cast_num (pos m)) ≡ true → k ≡ m
index-injective k m hk hm h =
    ap pos_part (sym (number2int-cast_num k hk) ∙ numeq-number2int _ _ h ∙ number2int-cast_num m hm)

-- Both numbers are that of one key.
one_key :
    (a b : ℕ) (key : TValue) → is_number a key ≡ true → is_number b key ≡ true → numeq a b ≡ true
one_key a b nil h h' = cc
one_key a b (boolean c) h h' = cc
one_key a b (lightuserdata p) h h' = cc
one_key a b (number n) h h' = numeq_trans a n b (numeq-sym n a h) h'
one_key a b (object tt p) h h' = cc

is_number-IsUsed : (a : ℕ) (key : TValue) → is_number a key ≡ true → IsUsed key
is_number-IsUsed a nil h = cc
is_number-IsUsed a (boolean c) h = refl
is_number-IsUsed a (lightuserdata p) h = refl
is_number-IsUsed a (number n) h = refl
is_number-IsUsed a (object tt p) h = refl

-- Where the value of an index is
data IsAt (t : Table) (k : ℕ) : ℕ → Type 0 where
  at_slot : (m : ℕ) → k ≡ suc m → m < length t.array → IsAt t k m
  at_its_node :
      (i : ℕ)
      → i < length t.node
      → is_number (cast_num (pos k)) (gnode t.node i).key ≡ true
      → IsAt t k (length t.array + i)

module _ (t : Table) where
  -- The number of a place
  position_of : Option Place → ℕ
  position_of none = 0
  position_of (some (in_array k)) = k
  position_of (some (in_node i)) = length t.array + i

  index_at : ℕ → ℕ
  unfolding position_of
  index_at k = position_of (getnum t (pos k))

  found-IsAt :
      (k : ℕ) (o : Option ℕ)
      → find_number t (cast_num (pos k)) ≡ o
      → (elim (place_of o) as (λ _. Bool) [ none ↦ true | some p ↦ ttisnil (value_at t p) ] ≡ false)
      → IsAt t k (position_of (place_of o))
  unfolding position_of find_number
  found-IsAt k none e h = cc
  found-IsAt k (some i) e h =
      let same = find_node_sound (length t.node) t.node (is_number (cast_num (pos k))) _ i e in
      at_its_node i (used-lt t.node i (is_number-IsUsed _ _ same)) same

  held-IsAt : (k : ℕ) → nil_at t k ≡ false → IsAt t k (index_at k)
  unfolding nil_at index_at position_of getnum
  held-IsAt zero h = found-IsAt zero (find_number t (cast_num (pos zero))) refl h
  held-IsAt (suc m) h = elim (Bool-cases (ltb m (length t.array))) [
    | inl inside ↦ rw (index_at, getnum, inside) (at_slot m refl (ltb→lt m _ inside))
    | inr outside ↦
        rw (index_at, getnum, outside)
          (found-IsAt (suc m) (find_number t (cast_num (pos (suc m)))) refl (
            subst
              (λ (b : Bool).
                elim (if b
                    then some (in_array m)
                    else place_of (find_number t (cast_num (pos (suc m)))))
                  as (λ _. Bool) [ none ↦ true | some p ↦ ttisnil (value_at t p) ]
                ≡ false)
              outside h))
  ]

  IsAt-lt : (k p : ℕ) → IsAt t k p → p < length t.array + length t.node
  IsAt-lt k _ (at_slot m e lt) = omega arith
  IsAt-lt k _ (at_its_node i lt same) = omega arith

  IsAt-injective : (k m p q : ℕ) → k < 2 ^ 31 → m < 2 ^ 31 → IsAt t k p → IsAt t m q → p ≡ q → k ≡ m
  IsAt-injective k m _ _ hk hm (at_slot x e lt) (at_slot y e' lt') same = omega arith
  IsAt-injective k m _ _ hk hm (at_slot x e lt) (at_its_node i lt' n) same = absurd (omega arith)
  IsAt-injective k m _ _ hk hm (at_its_node i lt n) (at_slot x e lt') same = absurd (omega arith)
  IsAt-injective k m _ _ hk hm (at_its_node i lt n) (at_its_node j lt' n') same =
      let e : j ≡ i = omega arith in
      index-injective k m hk hm (
        one_key _ _ (gnode t.node i).key n
          (subst (λ x. is_number (cast_num (pos m)) (gnode t.node x).key ≡ true) e n'))

  -- The places of the indices from `n` down to 1
  places : ℕ → List ℕ
  places zero = []
  places (suc n) = index_at (suc n) ∷ places n

  length-places : (n : ℕ) → length (places n) ≡ n
  unfolding places
  length-places zero = refl
  length-places (suc n) = ap suc (length-places n)

  module _ (held : (k : ℕ) → 1 ≤ k → k ≤ length t.array + length t.node + 1 → nil_at t k ≡ false)
      (size : length t.array + length t.node + 1 < 2 ^ 31) where
    abbrev bound : ℕ
    bound = length t.array + length t.node + 1

    places-IsApart : (k n : ℕ) → n < k → k ≤ bound → IsApart (index_at k) (places n)
    unfolding places
    places-IsApart k zero lt le = tt
    places-IsApart k (suc n) lt le =
        let apart : index_at k ≢ index_at (suc n) = λ e.
          (let same =
              IsAt-injective k (suc n) _ _ (omega arith) (omega arith)
                (held-IsAt k (held k (omega arith) le))
                (held-IsAt (suc n) (held (suc n) (omega arith) (omega arith))) e in
            omega arith) in
        (apart, places-IsApart k n (omega arith) le)

    places-AreDistinct : (n : ℕ) → n ≤ bound → AreDistinct (places n)
    unfolding places
    places-AreDistinct zero le = tt
    places-AreDistinct (suc n) le =
        (places-IsApart (suc n) n (omega arith) le, places-AreDistinct n (omega arith))

    places-AreBelow : (n : ℕ) → n ≤ bound → AreBelow (length t.array + length t.node) (places n)
    unfolding places
    places-AreBelow zero le = tt
    places-AreBelow (suc n) le = (
      IsAt-lt (suc n) _ (held-IsAt (suc n) (held (suc n) (omega arith) le)),
      places-AreBelow n (omega arith),
    )

    too_many : ⊥
    too_many =
        let most =
          length-le_of_distinct (length t.array + length t.node) (places bound)
            (places-AreDistinct bound (omega arith)) (places-AreBelow bound (omega arith)) in
        let all = length-places bound in absurd (omega arith)

  linear_search-held :
      (fuel i : ℕ)
      → linear_search (nil_at t) fuel i ≡ none
      → (k : ℕ) → i ≤ k
      → k < i + fuel
      → nil_at t k ≡ false
  unfolding linear_search
  linear_search-held zero i h k lo hi = absurd (omega arith)
  linear_search-held (suc fuel) i h k lo hi = elim (Bool-cases (nil_at t i)) [
    | inl empty ↦ absurd (none-ne-some (i - 1) (sym h ∙ rw (linear_search, empty) refl))
    | inr held ↦ elim (from_here i k lo) [
      | inl e ↦ subst (λ x. nil_at t x ≡ false) e held
      | inr more ↦
          linear_search-held fuel (suc i) (sym (rw (linear_search, held) refl) ∙ h) k more
            (omega arith)
    ]
  ]
    where
      from_here : (i k : ℕ) → i ≤ k → (i ≡ k) ⊎ (suc i ≤ k)
      from_here i k lo = ground arith

  -- The linear search ends: the places are used up.
  pub linear_search-some :
      length t.array + length t.node + 1 < 2 ^ 31
      → (n : ℕ) × (linear_search (nil_at t) (length t.array + length t.node + 1) 1 ≡ some n)
  linear_search-some size =
      elim (Option-cases (linear_search (nil_at t) (length t.array + length t.node + 1) 1)) [
        | inr found ↦ found
        | inl out ↦
            absurd (too_many (λ k lo hi. linear_search-held _ 1 out k lo (omega arith)) size)
      ]
