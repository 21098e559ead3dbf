-- ===== src/Table/Next.antt =====
-- The traversal of a table: findindex and luaH_next (next) of lua-5.1.5/src/ltable.c.
pub mod Walk
pub mod Visits
use unitu_lua_test.Base.{
  ℕ, zero, suc, ◌+◌, ◌-◌, ltb, leb, ◌==◌, if◌then◌else◌, ◌&&◌, ◌||◌, Bool, true, false, List, [],
  ◌∷◌, length, get_or, Option, none, some,
}
use unitu_lua_test.Base.Int.{ℤ, pos, negsuc, pos_part}
use unitu_lua_test.Object.Value.{
  TValue, nil, boolean, lightuserdata, number, object, lua_tdeadkey, ttisnil, cast_num, rawequal,
}
use unitu_lua_test.Table.Node.{Table, gnode, mainposition, find_node}
use unitu_lua_test.Table.Access.{arrayindex}

-- A dead key with the address of the key
abbrev pub is_dead : TValue → TValue → Bool
is_dead (object s a) (object t b) = s == lua_tdeadkey && a == b
is_dead k key = false

abbrev pub is_entry : TValue → TValue → Bool
is_entry key k = rawequal k key || is_dead k key

abbrev pub after_array : ℕ → Option ℕ → Option ℤ
after_array size none = none
after_array size (some i) = some (pos (i + size))

-- The index of a key, -1 for nil; `none` is the error "invalid key to 'next'".
module _ (hash_str : ℕ → ℕ) where
  unfoldable pub find_index : Table → TValue → Option ℤ
  find_index t key =
      let i = pos_part (arrayindex key) in
      if ttisnil key
      then some (negsuc 0)
      else if ltb 0 i && leb i (length t.array)
      then some (pos (i - 1))
      else after_array (length t.array) (
          find_node (length t.node) t.node (is_entry key)
            (mainposition hash_str (length t.node) key))

-- The first element with a value in `n` slots from `i`
unfoldable pub next_slot : Table → (n i : ℕ) → Option (TValue × TValue)
next_slot t zero i = none
next_slot t (suc n) i = elim (ttisnil (get_or t.array i nil)) [
  | true ↦ next_slot t n (suc i)
  | false ↦ some (number (cast_num (pos (i + 1))), get_or t.array i nil)
]

-- The first node with a value in `n` nodes from `i`
unfoldable pub next_node : Table → (n i : ℕ) → Option (TValue × TValue)
next_node t zero i = none
next_node t (suc n) i = elim (ttisnil (gnode t.node i).val) [
  | true ↦ next_node t n (suc i)
  | false ↦ some ((gnode t.node i).key, (gnode t.node i).val)
]

-- The two loops from the index `i`
unfoldable pub next_from : Table → ℕ → Option (TValue × TValue)
unfolding next_slot next_node
next_from t i =
    let j = i - length t.array in
    elim (next_slot t (length t.array - i) i) [
      | some entry ↦ some entry
      | none ↦ next_node t (length t.node - j) j
    ]

-- The index behind the key: that of the key, plus 1
abbrev pub index_after : ℤ → ℕ
index_after (pos i) = suc i
index_after (negsuc i) = 0

-- The next key and its value, if there are more; the outer `none` is the error of findindex.
module _ (hash_str : ℕ → ℕ) where
  unfoldable pub next : Table → TValue → Option (Option (TValue × TValue))
  unfolding find_index next_from
  next t key = elim (find_index hash_str t key) [
    | none ↦ none
    | some i ↦ some (next_from t (index_after i))
  ]
