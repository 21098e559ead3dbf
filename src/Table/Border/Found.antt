-- ===== src/Table/Border/Found.antt =====
-- The length of a table (lua-5.1.5/src/ltable.c, luaH_getn) is a boundary.
use unitu_lua_test.Base.{
  ℕ, zero, suc, ◌+◌, ◌-◌, ◌*◌, ◌^◌, ◌<◌, ◌≤◌, ◌≡◌, refl, ap, sym, ◌∙◌, arith, ltb, if◌then◌else◌,
  ◌&&◌, Bool, true, false, ◌⊎◌, inl, inr, length, get_or, Option, some, Bool-cases,
}
use unitu_lua_test.Base.Int.{pos}
use unitu_lua_test.Object.Value.{nil, ttisnil, cast_num}
use unitu_lua_test.StringTable.{max_int}
use unitu_lua_test.Table.Border.{
  nil_at, binary_search, linear_search, doubling, unbound_search, getn, IsBorder,
  binary_search-IsBorder, linear_search-IsBorder,
}
use unitu_lua_test.Table.Border.Present.{linear_search-some}
use unitu_lua_test.Table.New.{AreFree}
use unitu_lua_test.Table.Node.{Table, getnum, value_at, find_number, is_number, hashnum}
use unitu_lua_test.Table.Positions.{and-true}
use unitu_lua_test.Table.Ways.{find_node-none}
use mathlib.Core.Path.{subst}
use native.Mathlib.Numerals.{unary_clauses}

-- `o` is a boundary.
abbrev pub HasBorder : Table → Option ℕ → Type 0
HasBorder t o = (n : ℕ) × (o ≡ some n) × IsBorder (nil_at t) n

module _ (t : Table) where
  nil_at-array : (k : ℕ) → k < length t.array → nil_at t (suc k) ≡ ttisnil (get_or t.array k nil)
  unfolding nil_at getnum value_at
  nil_at-array k lt =
      let inside : ltb k (length t.array) ≡ true = ground arith in rw (nil_at, getnum, inside) refl

  -- The search of the array part, whose last element is nil
  array-IsBorder :
      (j : ℕ)
      → length t.array ≡ suc j
      → ttisnil (get_or t.array j nil) ≡ true
      → IsBorder
          (nil_at t)
          (binary_search (λ m. ttisnil (get_or t.array (m - 1) nil)) (suc j) 0 (suc j))
  array-IsBorder j e last =
      let minus : suc j - 1 ≡ j = omega arith in
      let (border, lt) =
        binary_search-IsBorder (λ m. ttisnil (get_or t.array (m - 1) nil)) (suc j) 0 (suc j)
          (omega arith) (omega arith) (inl refl)
          (subst (λ x. ttisnil (get_or t.array x nil) ≡ true) (sym minus) last) in
      of_array _ lt border
    where
      of_array :
          (n : ℕ)
          → n < suc j
          → IsBorder (λ m. ttisnil (get_or t.array (m - 1) nil)) n
          → IsBorder (nil_at t) n
      of_array zero lt (present, missing) = (inl refl, nil_at-array 0 (omega arith) ∙ missing)
      of_array (suc n) lt (present, missing) =
          let up : suc (suc n) - 1 ≡ suc n = omega arith in
          let down : suc n - 1 ≡ n = omega arith in
          (
            inr (nil_at-array n (omega arith) ∙ here present down),
            nil_at-array (suc n) (omega arith)
                ∙ ap (λ x. ttisnil (get_or t.array x nil)) (sym up)
                ∙ missing,
          )
        where
          here :
              (suc n ≡ 0) ⊎ (ttisnil (get_or t.array (suc n - 1) nil) ≡ false)
              → suc n - 1 ≡ n
              → ttisnil (get_or t.array n nil) ≡ false
          here (inl e) down = absurd (omega arith)
          here (inr held) down = ap (λ x. ttisnil (get_or t.array x nil)) (sym down) ∙ held

  module _ (size : length t.array + length t.node + 1 < max_int) where
    linear-HasBorder : HasBorder t (linear_search (nil_at t) (length t.array + length t.node + 1) 1)
    linear-HasBorder =
        let (n, e) = linear_search-some t (omega arith) in
        (n, e, linear_search-IsBorder (nil_at t) _ 1 n (omega arith) (inl refl) e)

    doubling-HasBorder :
        (fuel i j : ℕ)
        → max_int < j * 2 ^ fuel
        → j ≤ max_int
        → i < j
        → (i ≡ 0) ⊎ (nil_at t i ≡ false)
        → HasBorder t (doubling (nil_at t) (length t.array + length t.node + 1) fuel i j)
    unfolding doubling
    doubling-HasBorder zero i j far le lt present = absurd (omega arith)
    doubling-HasBorder (suc fuel) i j far le lt present = elim (Bool-cases (nil_at t j)) [
      | inl empty ↦
          rw (doubling, empty)
            (
              _,
              refl,
              (binary_search-IsBorder (nil_at t) (j - i) i j (omega arith) lt present empty).0,
            )
      | inr held ↦ elim (Bool-cases (ltb max_int (j * 2))) [
        | inl over ↦ rw (doubling, held, over) linear-HasBorder
        | inr fits ↦
            let next : j * 2 ≤ max_int = ground arith in
            let less : j < j * 2 = omega arith in
            rw (doubling, held, fits)
              (doubling-HasBorder fuel j (j * 2) (further fuel j far) next less (inr held))
      ]
    ]
      where
        further : (fuel j : ℕ) → max_int < j * 2 ^ suc fuel → max_int < j * 2 * 2 ^ fuel
        further fuel j h =
            let e : j * 2 ^ suc fuel ≡ j * 2 * 2 ^ fuel = simp unary_clauses (omega arith) in
            omega arith

    unbound_search-HasBorder :
        (j : ℕ) → j < max_int → (j ≡ 0) ⊎ (nil_at t j ≡ false) → HasBorder t (unbound_search t j)
    unfolding unbound_search
    unbound_search-HasBorder j lt present =
        doubling-HasBorder 32 j (j + 1) (omega arith) (omega arith) (omega arith) present

    -- A table without nodes has no element behind the array part.
    bare-IsBorder :
        AreFree t.node
        → (length t.array ≡ 0) ⊎ (nil_at t (length t.array) ≡ false)
        → IsBorder (nil_at t) (length t.array)
    unfolding nil_at getnum find_number
    bare-IsBorder free present =
        let outside : ltb (length t.array) (length t.array) ≡ false = ground arith in
        let missing =
          find_node-none (length t.node) t.node (is_number (cast_num (pos (suc (length t.array)))))
            (hashnum (length t.node) (cast_num (pos (suc (length t.array)))))
            (λ j. ap (λ n. is_number (cast_num (pos (suc (length t.array)))) n.key) (free j)) in
        (present, rw (nil_at, getnum, outside, find_number, missing) refl)

    last_present :
        (ltb 0 (length t.array) && ttisnil (get_or t.array (length t.array - 1) nil)) ≡ false
        → (length t.array ≡ 0) ⊎ (nil_at t (length t.array) ≡ false)
    last_present h = by_length (length t.array) refl h
      where
        by_length :
            (n : ℕ)
            → length t.array ≡ n
            → (ltb 0 n && ttisnil (get_or t.array (n - 1) nil)) ≡ false
            → (n ≡ 0) ⊎ (nil_at t n ≡ false)
        by_length zero e h = inl refl
        by_length (suc n) e h =
            let some_slot : ltb 0 (suc n) ≡ true = ground arith in
            let down : suc n - 1 ≡ n = omega arith in
            let held : ttisnil (get_or t.array (suc n - 1) nil) ≡ false =
              subst (λ (b : Bool). (b && ttisnil (get_or t.array (suc n - 1) nil)) ≡ false)
                some_slot h in
            inr (
              nil_at-array n (omega arith)
              ∙ ap (λ x. ttisnil (get_or t.array x nil)) (sym down)
              ∙ held)

    -- In a table of less than MAX_INT - 1 places, where `dummynode` is free, luaH_getn ends with a boundary: 0 or an
    -- index with a value, behind which there is none.
    pub getn-HasBorder : (t.isdummy ≡ true → AreFree t.node) → HasBorder t (getn t)
    unfolding getn
    getn-HasBorder free =
        elim (Bool-cases
          (ltb 0 (length t.array) && ttisnil (get_or t.array (length t.array - 1) nil))) [
            | inl inside ↦ rw (getn, inside) (_, refl, in_array_part (length t.array) refl inside)
            | inr outside ↦ elim (Bool-cases t.isdummy) [
              | inl dummy ↦
                  rw (getn, outside)
                    (subst
                      (λ (b : Bool).
                        HasBorder t
                          (if b then some (length t.array) else unbound_search t (length t.array)))
                      (sym dummy) (_, refl, bare-IsBorder (free dummy) (last_present outside)))
              | inr live ↦
                  rw (getn, outside)
                    (subst
                      (λ (b : Bool).
                        HasBorder t
                          (if b then some (length t.array) else unbound_search t (length t.array)))
                      (sym live)
                      (unbound_search-HasBorder (length t.array) (omega arith)
                        (last_present outside)))
            ]
          ]
      where
        in_array_part :
            (n : ℕ)
            → length t.array ≡ n
            → (ltb 0 n && ttisnil (get_or t.array (n - 1) nil)) ≡ true
            → IsBorder (nil_at t) (binary_search (λ m. ttisnil (get_or t.array (m - 1) nil)) n 0 n)
        in_array_part zero e h = absurd (let absurd_case = h in cc)
        in_array_part (suc n) e h =
            let down : suc n - 1 ≡ n = omega arith in
            array-IsBorder n e (
              ap (λ x. ttisnil (get_or t.array x nil)) (sym down)
              ∙ (and-true (ltb 0 (suc n)) _ h).1)
