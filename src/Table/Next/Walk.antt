-- ===== src/Table/Next/Walk.antt =====
-- A traversal (lua-5.1.5/src/ltable.c, luaH_next) visits every element of a table once.
use unitu_lua_test.Base.{
  ℕ, zero, suc, ◌+◌, ◌-◌, ◌<◌, ◌≤◌, ◌≡◌, refl, ap, sym, ◌∙◌, arith, ltb, if◌then◌else◌, true, false,
  ◌⊎◌, inl, inr, List, [], ◌∷◌, length, get_or, Option, none, some, Bool-cases,
}
use unitu_lua_test.Base.Int.{pos}
use unitu_lua_test.Object.Value.{TValue, nil, number, ttisnil, cast_num}
use unitu_lua_test.Table.Node.{Table, gnode}
use unitu_lua_test.Table.Next.{next_slot, next_node, next_from, next}

-- An element: where its value stands, with its key
abbrev pub entry_at : Table → ℕ → TValue × TValue
entry_at t e =
    if ltb e (length t.array)
    then (number (cast_num (pos (e + 1))), get_or t.array e nil)
    else ((gnode t.node (e - length t.array)).key, (gnode t.node (e - length t.array)).val)

-- The elements with a value among `n` from the index `e`
unfoldable pub entries : Table → (n e : ℕ) → List (TValue × TValue)
entries t zero e = []
entries t (suc n) e = elim (ttisnil (entry_at t e).1) [
  | true ↦ entries t n (suc e)
  | false ↦ entry_at t e ∷ entries t n (suc e)
]

-- `next` from a key on, until there are no more
unfoldable pub walk : (ℕ → ℕ) → ℕ → Table → TValue → Option (List (TValue × TValue))
walk hash_str zero t key = none
walk hash_str (suc fuel) t key = elim (next hash_str t key) [
  | none ↦ none
  | some none ↦ some []
  | some (some entry) ↦ elim (walk hash_str fuel t entry.0) [
    | none ↦ none
    | some rest ↦ some (entry ∷ rest)
  ]
]

-- The first element with a value among `n` from the index `e`
unfoldable pub first : Table → (n e : ℕ) → Option (TValue × TValue)
first t zero e = none
first t (suc n) e = elim (ttisnil (entry_at t e).1) [
  | true ↦ first t n (suc e)
  | false ↦ some (entry_at t e)
]

module _ (t : Table) where
  pub entry_slot :
      (e : ℕ)
      → e < length t.array
      → entry_at t e ≡ (number (cast_num (pos (e + 1))), get_or t.array e nil)
  entry_slot e lt = (let inside : ltb e (length t.array) ≡ true = ground arith in rw (inside) refl)

  pub entry_node :
      (i : ℕ) → entry_at t (i + length t.array) ≡ ((gnode t.node i).key, (gnode t.node i).val)
  entry_node i =
      let outside : ltb (i + length t.array) (length t.array) ≡ false = ground arith in
      let minus : i + length t.array - length t.array ≡ i = omega arith in rw (outside, minus) refl

  next_node-first : (n i : ℕ) → next_node t n i ≡ first t n (i + length t.array)
  unfolding next_node first
  next_node-first zero i = refl
  next_node-first (suc n) i = elim (Bool-cases (ttisnil (gnode t.node i).val)) [
    | inl empty ↦
        let next : suc i + length t.array ≡ suc (i + length t.array) = omega arith in
        rw (next_node, first, entry_node i, empty) (next_node-first n (suc i) ∙ ap (first t n) next)
    | inr held ↦ rw (next_node, first, entry_node i, held) (ap some (sym (entry_node i)))
  ]

  -- The loop over the slots, then that over the nodes
  loops : (n i m j : ℕ) → Option (TValue × TValue)
  loops n i m j = elim (next_slot t n i) [ some entry ↦ some entry | none ↦ next_node t m j ]

  next_slot-first :
      (n i : ℕ)
      → i + n ≡ length t.array
      → loops n i (length t.node) 0 ≡ first t (n + length t.node) i
  unfolding next_slot first loops
  next_slot-first zero i e =
      let same : 0 + length t.array ≡ i = omega arith in
      let none_more : 0 + length t.node ≡ length t.node = omega arith in
      rw (none_more) (next_node-first (length t.node) 0 ∙ ap (first t (length t.node)) same)
  next_slot-first (suc n) i e =
      let more : suc n + length t.node ≡ suc (n + length t.node) = omega arith in
      elim (Bool-cases (ttisnil (get_or t.array i nil))) [
        | inl empty ↦
            rw (more, loops, next_slot, first, entry_slot i (omega arith), empty)
              (next_slot-first n (suc i) (omega arith))
        | inr held ↦
            rw (more, loops, next_slot, first, entry_slot i (omega arith), held)
              (ap some (sym (entry_slot i (omega arith))))
      ]

  abbrev pub last : ℕ
  last = length t.array + length t.node

  -- The two loops find the first element from an index.
  pub next_from-first : (n e : ℕ) → e + n ≡ last → next_from t e ≡ first t n e
  unfolding next_from next_slot loops
  next_from-first n e sum = elim (inside_or_not e) [
    | inl le ↦
        let up : e + (length t.array - e) ≡ length t.array = omega arith in
        let from_0 : e - length t.array ≡ 0 = omega arith in
        let all : length t.node - (e - length t.array) ≡ length t.node = omega arith in
        let count : length t.array - e + length t.node ≡ n = omega arith in
        ap (loops (length t.array - e) e (length t.node - (e - length t.array))) from_0
        ∙ ap (λ m. loops (length t.array - e) e m 0) all
        ∙ next_slot-first (length t.array - e) e up
        ∙ ap (λ m. first t m e) count
    | inr lt ↦
        let no_slots : length t.array - e ≡ 0 = omega arith in
        let count : length t.node - (e - length t.array) ≡ n = omega arith in
        let back : e - length t.array + length t.array ≡ e = omega arith in
        ap (λ m. loops m e (length t.node - (e - length t.array)) (e - length t.array)) no_slots
        ∙ ap (λ m. next_node t m (e - length t.array)) count
        ∙ next_node-first n (e - length t.array)
        ∙ ap (first t n) back
  ]
    where
      inside_or_not : (e : ℕ) → (e ≤ length t.array) ⊎ (length t.array < e)
      inside_or_not e = ground arith
