-- ===== src/Table/Border.antt =====
-- The length operator: luaH_getn (getn) and unbound_search of lua-5.1.5/src/ltable.c.
pub mod Present
pub mod Found
use unitu_lua_test.Base.{
  ℕ, zero, suc, ◌+◌, ◌-◌, ◌*◌, ◌/◌, ◌^◌, ◌<◌, ◌≤◌, ◌≡◌, refl, ap, sym, ◌∙◌, arith, ltb, ltb→lt,
  if◌then◌else◌, ◌&&◌, Bool, true, false, ◌⊎◌, inl, inr, List, length, get_or, Option, none, some,
  Bool-cases,
}
use unitu_lua_test.Base.Int.{ℤ, pos}
use unitu_lua_test.Object.Value.{TValue, nil, ttisnil}
use unitu_lua_test.StringTable.{max_int}
use unitu_lua_test.Table.Node.{Table, Place, value_at, getnum}
use mathlib.Core.Path.{subst}
use mathlib.Core.Option.{some-injective, none-ne-some}

-- `ttisnil(luaH_getnum(t, k))`
unfoldable pub nil_at : Table → ℕ → Bool
nil_at t k = elim (getnum t (pos k)) [ none ↦ true | some p ↦ ttisnil (value_at t p) ]

-- The binary searches, `while (j - i > 1)`
unfoldable pub binary_search : (ℕ → Bool) → ℕ → (i j : ℕ) → ℕ
binary_search is_nil zero i j = i
binary_search is_nil (suc fuel) i j =
    let m = (i + j) / 2 in
    elim (ltb 1 (j - i)) [
      | false ↦ i
      | true ↦ elim (is_nil m) [
        | true ↦ binary_search is_nil fuel i m
        | false ↦ binary_search is_nil fuel m j
      ]
    ]

-- The linear search from `i`; `none` is for the rounds that are used up.
unfoldable pub linear_search : (ℕ → Bool) → ℕ → ℕ → Option ℕ
linear_search is_nil zero i = none
linear_search is_nil (suc fuel) i = elim (is_nil i) [
  | true ↦ some (i - 1)
  | false ↦ linear_search is_nil fuel (suc i)
]

-- The loop that doubles `j`, and what follows it; `rounds` are those of the linear search.
unfoldable pub doubling : (ℕ → Bool) → (rounds fuel i j : ℕ) → Option ℕ
unfolding binary_search linear_search
doubling is_nil rounds zero i j = none
doubling is_nil rounds (suc fuel) i j = elim (is_nil j) [
  | true ↦ some (binary_search is_nil (j - i) i j)
  | false ↦ elim (ltb max_int (j * 2)) [
    | true ↦ linear_search is_nil rounds 1
    | false ↦ doubling is_nil rounds fuel j (j * 2)
  ]
]

unfoldable pub unbound_search : Table → ℕ → Option ℕ
unfolding doubling nil_at
unbound_search t j = doubling (nil_at t) (length t.array + length t.node + 1) 32 j (j + 1)

unfoldable pub getn : Table → Option ℕ
unfolding binary_search unbound_search
getn t =
    let j = length t.array in
    if ltb 0 j && ttisnil (get_or t.array (j - 1) nil)
    then some (binary_search (λ m. ttisnil (get_or t.array (m - 1) nil)) j 0 j)
    else if t.isdummy
    then some j
    else unbound_search t j

-- A boundary: an index with a value, or 0, and none behind it
abbrev pub IsBorder : (ℕ → Bool) → ℕ → Type 0
IsBorder is_nil n = ((n ≡ 0) ⊎ (is_nil n ≡ false)) × (is_nil (suc n) ≡ true)

pub binary_search-IsBorder :
    (is_nil : ℕ → Bool) (fuel i j : ℕ)
    → j - i ≤ fuel
    → i < j
    → (i ≡ 0) ⊎ (is_nil i ≡ false)
    → is_nil j ≡ true
    → IsBorder is_nil (binary_search is_nil fuel i j) × (binary_search is_nil fuel i j < j)
unfolding binary_search
binary_search-IsBorder is_nil zero i j short lt present missing = absurd (omega arith)
binary_search-IsBorder is_nil (suc fuel) i j short lt present missing =
    elim (Bool-cases (ltb 1 (j - i))) [
      | inr near ↦
          let next : j ≡ suc i = ground arith in
          rw (binary_search, near) ((present, subst (λ x. is_nil x ≡ true) next missing), lt)
      | inl far ↦
          let gap = ltb→lt 1 (j - i) far in
          let low : i < (i + j) / 2 = omega arith in
          let high : (i + j) / 2 < j = omega arith in
          elim (Bool-cases (is_nil ((i + j) / 2))) [
            | inl empty ↦
                let (border, less) =
                  binary_search-IsBorder is_nil fuel i ((i + j) / 2) (omega arith) low present
                    empty in
                rw (binary_search, far, empty)
                  (
                    border,
                    (let less' : binary_search is_nil fuel i ((i + j) / 2) < j = omega arith in
                        less'),
                  )
            | inr held ↦
                rw (binary_search, far, held)
                  (binary_search-IsBorder is_nil fuel ((i + j) / 2) j (omega arith) high (inr held)
                    missing)
          ]
    ]

-- A result of the linear search is a boundary.
pub linear_search-IsBorder :
    (is_nil : ℕ → Bool) (fuel i n : ℕ)
    → 1 ≤ i
    → (i ≡ 1) ⊎ (is_nil (i - 1) ≡ false)
    → linear_search is_nil fuel i ≡ some n
    → IsBorder is_nil n
unfolding linear_search
linear_search-IsBorder is_nil zero i n lo present h = absurd (none-ne-some n h)
linear_search-IsBorder is_nil (suc fuel) zero n lo present h = absurd (omega arith)
linear_search-IsBorder is_nil (suc fuel) (suc i) n lo present h =
    elim (Bool-cases (is_nil (suc i))) [
      | inl empty ↦
          let e : i ≡ n = some-injective _ _ (sym (rw (linear_search, empty) (ap some same)) ∙ h) in
          subst (IsBorder is_nil) e (here present, empty)
      | inr held ↦
          linear_search-IsBorder is_nil fuel (suc (suc i)) n (omega arith)
            (inr (subst (λ x. is_nil x ≡ false) (sym same') held))
            (subst
              (λ (b : Bool).
                elim b as (λ _. Option ℕ) [
                  | true ↦ some (suc i - 1)
                  | false ↦ linear_search is_nil fuel (suc (suc i))
                ]
                ≡ some n)
              held h)
    ]
  where
    same : suc i - 1 ≡ i
    same = omega arith

    same' : suc (suc i) - 1 ≡ suc i
    same' = omega arith

    here : (suc i ≡ 1) ⊎ (is_nil (suc i - 1) ≡ false) → (i ≡ 0) ⊎ (is_nil i ≡ false)
    here (inl e) = inl (omega arith)
    here (inr e) = inr (subst (λ x. is_nil x ≡ false) same e)
