-- ===== src/Table/Find.antt =====
-- What the searches for a key in lua-5.1.5/src/ltable.c find in a table whose nodes are in order.
use unitu_lua_test.Base.{
  ℕ, ◌^◌, ◌<◌, ◌≤◌, ◌≡◌, refl, sym, ◌∙◌, true, false, inl, inr, length, none, some, Bool-cases,
  Option-cases,
}
use unitu_lua_test.Object.Value.{
  TValue, nil, boolean, lightuserdata, number, object, ttisnil, rawequal,
}
use unitu_lua_test.Table.Node.{Node, Table, gnode, mainposition, find_key}
use unitu_lua_test.Table.Chained.{IsAlive, IsUsed, IsChained, Leads}
use unitu_lua_test.Table.Positions.{
  rawequal-sym, rawequal_trans, rawequal-IsAlive, rawequal-mainposition, mainposition-lt,
}
use unitu_lua_test.Table.Ways.{find_node-found, find_node-none, find_node_sound}
use mathlib.Core.Path.{subst}

-- A table whose number of nodes is a power of 2, whose nodes are in order, and where no node from `lastfree` on is
-- free; `dummynode` has no free node.
pub record IsHash (hash_str : ℕ → ℕ) (t : Table) : Type 0 where
  pub lsizenode : ℕ
  pub sizenode : length t.node ≡ 2 ^ lsizenode
  pub chained : IsChained (mainposition hash_str (length t.node)) (length t.node) (gnode t.node)
  pub lastfree_le : t.lastfree ≤ length t.node
  pub packed :
      t.isdummy ≡ false → (i : ℕ) → t.lastfree ≤ i → i < length t.node → IsUsed (gnode t.node i).key
  pub dummy : t.isdummy ≡ true → t.lastfree ≡ 0

-- What the hash part holds for a key
unfoldable pub lookup : (ℕ → ℕ) → Table → TValue → TValue
unfolding find_key
lookup hash_str t key = elim (find_key hash_str t key) [
  | none ↦ nil
  | some i ↦ (gnode t.node i).val
]

module _ (hash_str : ℕ → ℕ) (t : Table) (hash : IsHash hash_str t) where
  pub position-lt : (key : TValue) → mainposition hash_str (length t.node) key < length t.node
  position-lt key =
      subst (λ n. mainposition hash_str n key < n) (sym hash.sizenode)
        (mainposition-lt hash_str hash.lsizenode key)

  -- A search for an alive key finds the node that has it.
  pub find_key-found :
      (key : TValue)
      → IsAlive key
      → (j : ℕ) → rawequal (gnode t.node j).key key ≡ true
      → find_key hash_str t key ≡ some j
  unfolding find_key
  find_key-found key alive j same =
      let alive_j = rawequal-IsAlive (gnode t.node j).key key same alive in
      let way : Leads (gnode t.node) (mainposition hash_str (length t.node) key) j =
        subst (λ x. Leads (gnode t.node) x j)
          (rawequal-mainposition hash_str (length t.node) (gnode t.node j).key key same)
          (hash.chained.leads j alive_j) in
      find_node-found (mainposition hash_str (length t.node)) (length t.node) t.node hash.chained
        (λ k. rawequal k key) way (position-lt key) same
        (λ x e.
          hash.chained.unique x (rawequal-IsAlive (gnode t.node x).key key e alive) j alive_j (
            rawequal_trans (gnode t.node x).key key (gnode t.node j).key e
              (rawequal-sym (gnode t.node j).key key same)))

  pub lookup-found :
      (key : TValue)
      → IsAlive key
      → (j : ℕ) → rawequal (gnode t.node j).key key ≡ true
      → lookup hash_str t key ≡ (gnode t.node j).val
  unfolding lookup
  lookup-found key alive j same = rw (lookup, find_key-found key alive j same) refl

  pub find_key_sound :
      (key : TValue) (j : ℕ)
      → find_key hash_str t key ≡ some j
      → rawequal (gnode t.node j).key key ≡ true
  unfolding find_key
  find_key_sound key j e = find_node_sound (length t.node) t.node (λ k. rawequal k key) _ j e

  -- A search for a key that no node has finds none.
  pub find_key-none :
      (key : TValue)
      → ((j : ℕ) → rawequal (gnode t.node j).key key ≡ false)
      → find_key hash_str t key ≡ none
  unfolding find_key
  find_key-none key h = find_node-none (length t.node) t.node (λ k. rawequal k key) _ h

-- What a key is found to be, and the node where it is
pub data Found (hash_str : ℕ → ℕ) (t : Table) (key : TValue) : Type 0 where
  absent : lookup hash_str t key ≡ nil → Found hash_str t key
  at_node :
      (j : ℕ)
      → rawequal (gnode t.node j).key key ≡ true
      → IsUsed (gnode t.node j).val
      → Found hash_str t key

ttisnil-nil : (v : TValue) → ttisnil v ≡ true → v ≡ nil
ttisnil-nil nil h = refl
ttisnil-nil (boolean b) h = cc
ttisnil-nil (lightuserdata p) h = cc
ttisnil-nil (number n) h = cc
ttisnil-nil (object tt a) h = cc

pub find_key-Found : (hash_str : ℕ → ℕ) (t : Table) (key : TValue) → Found hash_str t key
unfolding lookup find_key
find_key-Found hash_str t key = elim (Option-cases (find_key hash_str t key)) [
  | inl e ↦ absent (rw (lookup, e) refl)
  | inr (j, e) ↦ elim (Bool-cases (ttisnil (gnode t.node j).val)) [
    | inl empty ↦ absent (rw (lookup, e) (ttisnil-nil _ empty))
    | inr used ↦ at_node j (find_node_sound (length t.node) t.node (λ k. rawequal k key) _ j e) used
  ]
]

-- Some node has the key and the value.
abbrev pub Stands : (ℕ → Node) → TValue → TValue → Type 0
Stands f key val = (j : ℕ) × ((f j).key ≡ key) × ((f j).val ≡ val)

-- The values that are kept with an equal key of `key`
abbrev pub IsKept : (f g : ℕ → Node) → TValue → Type 0
IsKept f g key =
    (j : ℕ) → rawequal (f j).key key ≡ true → IsUsed (f j).val → Stands g (f j).key (f j).val

module _ (hash_str : ℕ → ℕ) (t t' : Table) (hash : IsHash hash_str t)
    (hash' : IsHash hash_str t') where
  Stands-lookup :
      (key : TValue)
      → IsAlive key
      → (j : ℕ) → rawequal (gnode t.node j).key key ≡ true
      → Stands (gnode t'.node) (gnode t.node j).key (gnode t.node j).val
      → lookup hash_str t' key ≡ lookup hash_str t key
  Stands-lookup key alive j same (j', e, e') =
      lookup-found hash_str t' hash' key alive j' (subst (λ k. rawequal k key ≡ true) (sym e) same)
      ∙ e'
      ∙ sym (lookup-found hash_str t hash key alive j same)

-- A key is found to have the same value in two tables that keep each other's values of it.
pub kept-lookup :
    (hash_str : ℕ → ℕ) (t t' : Table) (hash : IsHash hash_str t) (hash' : IsHash hash_str t')
    (key : TValue)
    → IsAlive key
    → IsKept (gnode t.node) (gnode t'.node) key
    → IsKept (gnode t'.node) (gnode t.node) key
    → lookup hash_str t' key ≡ lookup hash_str t key
kept-lookup hash_str t t' hash hash' key alive keeps origin = elim (find_key-Found hash_str t key) [
  | at_node j same used ↦
      Stands-lookup hash_str t t' hash hash' key alive j same (keeps j same used)
  | absent e ↦ elim (find_key-Found hash_str t' key) [
    | absent e' ↦ e' ∙ sym e
    | at_node j same used ↦
        sym (Stands-lookup hash_str t' t hash' hash key alive j same (origin j same used))
  ]
]
