-- ===== src/Table/Node.antt =====
-- The hash part of a table: lua-5.1.5/src/ltable.c without the prefix luaH_, and the macros of ltable.h. A pointer to a
-- node is its number in the node array; a pointer to a value that a table holds is a Place. The write barrier of
-- the collector is left out.
use unitu_lua_test.Base.{
  ℕ, zero, suc, ◌+◌, ◌-◌, ◌/◌, ◌%◌, ◌^◌, ltb, ◌==◌, if◌then◌else◌, ◌&&◌, ◌||◌, not, Bool, true,
  false, bit_or, List, length, get_or, set, Option, none, some,
}
use unitu_lua_test.Base.Int.{ℤ, pos, negsuc}
use unitu_lua_test.Object.Value.{
  TValue, nil, boolean, lightuserdata, number, object, lua_tstring, ttisnil, numeq, cast_num,
  number2int, rawequal,
}
use unitu_lua_test.StringTable.{lmod}

pub record Node : Type 0 where
  pub val : TValue
  pub key : TValue
  pub next : Option ℕ

-- `sizearray` is the length of the array, and `sizenode` that of the node array. `isdummy` says that the nodes are
-- `dummynode`, which all tables share. The metatable and the list of the collector are left out.
pub record Table : Type 0 where
  pub flags : ℕ
  pub array : List TValue
  pub node : List Node
  pub lastfree : ℕ
  pub isdummy : Bool

abbrev pub free_node : Node
free_node = record { val = nil; key = nil; next = none }

abbrev pub gnode : List Node → ℕ → Node
gnode nodes i = get_or nodes i free_node

pub data Place : Type 0 where
  in_array : ℕ → Place
  in_node : ℕ → Place

-- What a pointer to a value of the table reads, and a write through it
unfoldable pub value_at : Table → Place → TValue
value_at t (in_array i) = get_or t.array i nil
value_at t (in_node i) = (gnode t.node i).val

unfoldable pub put : Table → Place → TValue → Table
put t (in_array i) v = record t { array = set t.array i v }
put t (in_node i) v = record t { node = set t.node i (record (gnode t.node i) { val = v }) }

-- `hashmod`
unfoldable pub hashmod : ℕ → ℕ → ℕ
hashmod size n = n % bit_or (size - 1) 1

-- The two ints of the number, added
unfoldable pub hashnum : ℕ → ℕ → ℕ
unfolding hashmod
hashnum size n = if numeq n 0 then 0 else hashmod size ((n % 2 ^ 32 + n / 2 ^ 32 % 2 ^ 32) % 2 ^ 32)

-- `hash_str` is the field `hash` of the string at an address.
module _ (hash_str : ℕ → ℕ) where
  -- `IntPoint` cuts an address to an unsigned int. No key is nil here.
  unfoldable pub mainposition : ℕ → TValue → ℕ
  unfolding hashnum hashmod lmod
  mainposition size nil = 0
  mainposition size (boolean b) = lmod b size
  mainposition size (lightuserdata p) = hashmod size (p % 2 ^ 32)
  mainposition size (number n) = hashnum size n
  mainposition size (object tt a) =
      if tt == lua_tstring then lmod (hash_str a) size else hashmod size (a % 2 ^ 32)

-- `do { if (p(gkey(n))) return n; else n = gnext(n); } while (n)`, in as many rounds as there are nodes
unfoldable pub find_node : ℕ → List Node → (TValue → Bool) → ℕ → Option ℕ
find_node zero nodes p i = none
find_node (suc fuel) nodes p i = elim (p (gnode nodes i).key) [
  | true ↦ some i
  | false ↦ elim ((gnode nodes i).next) [ none ↦ none | some j ↦ find_node fuel nodes p j ]
]

-- `return gval(n)`, or luaO_nilobject
abbrev pub place_of : Option ℕ → Option Place
place_of none = none
place_of (some i) = some (in_node i)

abbrev pub is_number : ℕ → TValue → Bool
is_number n nil = false
is_number n (boolean b) = false
is_number n (lightuserdata p) = false
is_number n (number m) = numeq m n
is_number n (object tt a) = false

abbrev pub is_string : ℕ → TValue → Bool
is_string a nil = false
is_string a (boolean b) = false
is_string a (lightuserdata p) = false
is_string a (number n) = false
is_string a (object tt b) = tt == lua_tstring && b == a

unfoldable pub find_number : Table → ℕ → Option ℕ
find_number t n = find_node (length t.node) t.node (is_number n) (hashnum (length t.node) n)

unfoldable pub getnum : Table → ℤ → Option Place
getnum t (pos zero) = place_of (find_number t (cast_num (pos zero)))
getnum t (pos (suc k)) =
    if ltb k (length t.array)
    then some (in_array k)
    else place_of (find_number t (cast_num (pos (suc k))))
getnum t (negsuc k) = place_of (find_number t (cast_num (negsuc k)))

-- `while (t->lastfree-- > t->node)`: the free node, and `lastfree` behind the loop. A `lastfree` at or below the
-- first node is 0.
unfoldable pub free_loop : List Node → ℕ → Option ℕ × ℕ
free_loop nodes zero = (none, 0)
free_loop nodes (suc i) =
    let rest = free_loop nodes i in if ttisnil (gnode nodes i).key then (some i, i) else rest

unfoldable pub getfreepos : Table → Option ℕ × Table
unfolding free_loop
getfreepos t =
    let (n, lastfree) = free_loop t.node t.lastfree in (n, record t { lastfree = lastfree })

abbrev pub points_to : Option ℕ → ℕ → Bool
points_to none j = false
points_to (some i) j = i == j

-- `while (gnext(othern) != mp) othern = gnext(othern)`
unfoldable pub find_previous : ℕ → List Node → ℕ → ℕ → Option ℕ
find_previous zero nodes othern mp = none
find_previous (suc fuel) nodes othern mp = elim (points_to (gnode nodes othern).next mp) [
  | true ↦ some othern
  | false ↦ elim ((gnode nodes othern).next) [
    | none ↦ none
    | some next ↦ find_previous fuel nodes next mp
  ]
]

unfoldable pub set_next : List Node → ℕ → Option ℕ → List Node
set_next nodes i next = set nodes i (record (gnode nodes i) { next = next })

unfoldable pub set_key : List Node → ℕ → TValue → List Node
set_key nodes i key = set nodes i (record (gnode nodes i) { key = key })

-- The colliding node goes from `mp` to `n`, behind the node before it; `mp` is free then.
unfoldable pub move_node : List Node → ℕ → ℕ → ℕ → List Node
unfolding set_next
move_node nodes previous mp n =
    let linked = set_next nodes previous (some n) in
    let copied = set linked n (gnode linked mp) in
    set copied mp (record (gnode copied mp) { next = none; val = nil })

-- The node `n` is linked in behind `mp`.
unfoldable pub link_node : List Node → ℕ → ℕ → List Node
unfolding set_next
link_node nodes mp n = set_next (set_next nodes n (gnode nodes mp).next) mp (some n)

-- What `newkey` does: it puts the key into a node, finds no free node (and then calls `rehash`), or follows a
-- chain that does not lead to the colliding node, which C leaves undefined.
pub data Insertion : Type 0 where
  placed : ℕ → Table → Insertion
  full : Table → Insertion
  fault : Insertion

module _ (hash_str : ℕ → ℕ) where
  unfoldable pub getstr : Table → ℕ → Option Place
  getstr t a =
      place_of (find_node (length t.node) t.node (is_string a) (lmod (hash_str a) (length t.node)))

  unfoldable pub find_key : Table → TValue → Option ℕ
  find_key t key =
      find_node (length t.node) t.node (λ k. rawequal k key)
        (mainposition hash_str (length t.node) key)

  unfoldable pub get : Table → TValue → Option Place
  get t nil = none
  get t (boolean b) = place_of (find_key t (boolean b))
  get t (lightuserdata p) = place_of (find_key t (lightuserdata p))
  get t (number n) =
      if numeq (cast_num (number2int n)) n
      then getnum t (number2int n)
      else place_of (find_key t (number n))
  get t (object tt a) =
      if tt == lua_tstring then getstr t a else place_of (find_key t (object tt a))

  -- The colliding node is in the way: `n` is the free node.
  unfoldable pub collide : Table → TValue → ℕ → ℕ → Insertion
  unfolding set_key
  collide t key mp n =
      let othern = mainposition hash_str (length t.node) (gnode t.node mp).key in
      if othern == mp
      then placed n (record t { node = set_key (link_node t.node mp n) n key })
      else elim (find_previous (length t.node) t.node othern mp) [
        | none ↦ fault
        | some previous ↦
            placed mp (record t { node = set_key (move_node t.node previous mp n) mp key })
      ]

  unfoldable pub insert : Table → TValue → Insertion
  unfolding set_key
  insert t key =
      let mp = mainposition hash_str (length t.node) key in
      if not (ttisnil (gnode t.node mp).val) || t.isdummy
      then (let (n, t') = getfreepos t in elim n [ none ↦ full t' | some i ↦ collide t' key mp i ])
      else placed mp (record t { node = set_key t.node mp key })
