-- ===== src/Table/Map.antt =====
-- A table (lua-5.1.5/src/ltable.c) as a map: what an assignment changes of what luaH_get returns.
use unitu_lua_test.Base.{
  ℕ, ◌<◌, ◌≡◌, ◌≢◌, refl, ap, sym, ◌∙◌, if◌then◌else◌, inl, inr, List, [], ◌∷◌, zero, suc, arith,
  length, get_or, length-set, get_or-set_self, get_or-set_ne, Option, none, some, Bool-cases,
  Option-cases,
}
use unitu_lua_test.Object.Value.{TValue, nil, rawequal}
use unitu_lua_test.Table.Node.{
  Node, Table, gnode, Place, in_array, in_node, value_at, put, place_of, get, find_key,
}
use unitu_lua_test.Table.Access.{read}
use unitu_lua_test.Table.Chained.{IsAlive, IsUsed, IsAlive-IsUsed}
use unitu_lua_test.Table.Find.{IsHash, lookup, find_key_sound}
use unitu_lua_test.Table.Room.{TakesOne}
use unitu_lua_test.Table.Store.{stored-TakesOne, stored-IsHash, stored-lookup}
use unitu_lua_test.Table.Slot.{
  slot, place_in, get-find_key, same_slot-rawequal, slot-lt, rawequal-slot, true_iff,
}
use unitu_lua_test.Table.Positions.{rawequal-IsAlive, rawequal-sym, rawequal_trans}
use mathlib.Core.Path.{subst}
use mathlib.Core.Option.{some-injective, none-ne-some}

-- Where the slot is known
abbrev pub read_slot : (ℕ → ℕ) → Table → TValue → Option ℕ → TValue
read_slot hash_str t key none = lookup hash_str t key
read_slot hash_str t key (some k) = get_or t.array k nil

value_of : Table → Option Place → TValue
value_of t none = nil
value_of t (some p) = value_at t p

module _ (hash_str : ℕ → ℕ) (t : Table) where
  read-value_of : (key : TValue) → read hash_str t key ≡ value_of t (get hash_str t key)
  unfolding read value_of
  read-value_of key = elim (Option-cases (get hash_str t key)) [
    | inl e ↦ rw (read, e) refl
    | inr (p, e) ↦ rw (read, e) refl
  ]

  value_of-node :
      (key : TValue) → value_of t (place_of (find_key hash_str t key)) ≡ lookup hash_str t key
  unfolding value_of lookup value_at
  value_of-node key = elim (Option-cases (find_key hash_str t key)) [
    | inl e ↦ rw (lookup, e) refl
    | inr (i, e) ↦ rw (lookup, e) refl
  ]

  value_of-place :
      (key : TValue) (o : Option ℕ)
      → value_of t (place_in o (place_of (find_key hash_str t key))) ≡ read_slot hash_str t key o
  unfolding value_of value_at
  value_of-place key none = value_of-node key
  value_of-place key (some k) = refl

  pub read-read_slot :
      (key : TValue)
      → IsAlive key
      → read hash_str t key ≡ read_slot hash_str t key (slot (length t.array) key)
  read-read_slot key alive =
      read-value_of key
      ∙ ap (value_of t) (get-find_key hash_str t key alive)
      ∙ value_of-place key (slot (length t.array) key)

-- The value written to the place, and that nothing else changes for a reader.
pub record IsWritten (hash_str : ℕ → ℕ) (t : Table) (key v : TValue) (p : Place) (t' : Table)
    : Type 0 where
  pub hash : IsHash hash_str (put t' p v)
  pub reads :
      (other : TValue)
      → IsAlive other
      → read hash_str (put t' p v) other ≡ (if rawequal key other then v else read hash_str t other)
  pub takes_one : TakesOne t (put t' p v)

pub put_node-array : (t : Table) (i : ℕ) (v : TValue) → (put t (in_node i) v).array ≡ t.array
unfolding put
put_node-array t i v = refl

pub array-IsHash :
    (hash_str : ℕ → ℕ) (t : Table)
    → IsHash hash_str t
    → (k : ℕ) (v : TValue) → IsHash hash_str (put t (in_array k) v)
unfolding put
array-IsHash hash_str t hash k v = record {
  lsizenode = hash.lsizenode;
  sizenode = hash.sizenode;
  chained = hash.chained;
  lastfree_le = hash.lastfree_le;
  packed = hash.packed;
  dummy = hash.dummy;
}

pub used-lt : (nodes : List Node) (i : ℕ) → IsUsed (gnode nodes i).key → i < length nodes
used-lt [] i h = cc
used-lt (x ∷ xs) zero h = omega arith
used-lt (x ∷ xs) (suc i) h = (let less = used-lt xs i h in omega arith)

module _ (hash_str : ℕ → ℕ) (t : Table) (hash : IsHash hash_str t) (key : TValue)
    (alive : IsAlive key) (v : TValue) where
  -- A write to the array part
  array_reads :
      (k : ℕ)
      → slot (length t.array) key ≡ some k
      → (other : TValue) → IsAlive other
      → read hash_str (put t (in_array k) v) other
        ≡ (if rawequal key other then v else read hash_str t other)
  unfolding put lookup find_key
  array_reads k at other other_alive =
      let old = read-read_slot hash_str t other other_alive in
      let new : read hash_str (put t (in_array k) v) other
          ≡ read_slot hash_str (put t (in_array k) v) other (slot (length t.array) other) =
        read-read_slot hash_str (put t (in_array k) v) other other_alive
        ∙ ap (λ n. read_slot hash_str (put t (in_array k) v) other (slot n other))
            (length-set t.array k v) in
      new ∙ elim (Bool-cases (rawequal key other)) [
        | inl same ↦
            rw (same, sym (rawequal-slot (length t.array) key other same) ∙ at)
              (get_or-set_self t.array k v nil (slot-lt (length t.array) k key at))
        | inr ne ↦
            rw (ne, old)
              (elim (Option-cases (slot (length t.array) other)) [
                | inl e ↦ rw (e) refl
                | inr (k', e) ↦
                    let apart : k ≢ k' = λ k_k'.
                      (let same =
                          same_slot-rawequal (length t.array) k key other at
                            (subst (λ x. slot (length t.array) other ≡ some x) (sym k_k') e) in
                        cc) in
                    rw (e) (get_or-set_ne t.array k k' v nil apart)
              ])
      ]

  -- A write to a node
  pub node_reads :
      (t' : Table)
      → t'.array ≡ t.array
      → slot (length t.array) key ≡ none
      → ((other : TValue)
          → IsAlive other
          → lookup hash_str t' other ≡ (if rawequal key other then v else lookup hash_str t other))
      → (other : TValue) → IsAlive other
      → read hash_str t' other ≡ (if rawequal key other then v else read hash_str t other)
  node_reads t' same_array no_slot lookups other other_alive =
      let old = read-read_slot hash_str t other other_alive in
      let new : read hash_str t' other ≡ read_slot hash_str t' other (slot (length t.array) other) =
        read-read_slot hash_str t' other other_alive
        ∙ ap (λ a. read_slot hash_str t' other (slot (length a) other)) same_array in
      new ∙ elim (Option-cases (slot (length t.array) other)) [
        | inl e ↦ rw (old, e) (lookups other other_alive)
        | inr (k, e) ↦ elim (Bool-cases (rawequal key other)) [
          | inl same ↦
              absurd
                (none-ne-some k (sym no_slot ∙ rawequal-slot (length t.array) key other same ∙ e))
          | inr ne ↦ rw (old, e, ne) (ap (λ a. get_or a k nil) same_array)
        ]
      ]

  -- The key is found at a node.
  found_lookups :
      (i : ℕ)
      → find_key hash_str t key ≡ some i
      → IsHash hash_str (put t (in_node i) v)
        × ((other : TValue)
            → IsAlive other
            → lookup hash_str (put t (in_node i) v) other
              ≡ (if rawequal key other then v else lookup hash_str t other))
  found_lookups i e =
      let same = find_key_sound hash_str t hash key i e in
      let alive_i = rawequal-IsAlive (gnode t.node i).key key same alive in
      let lt = used-lt t.node i (IsAlive-IsUsed (gnode t.node i).key alive_i) in
      (
        stored-IsHash hash_str t hash i v lt alive_i,
        (λ other other_alive.
            stored-lookup hash_str t hash i v lt alive_i other other_alive
            ∙ ap (λ b. if b then v else lookup hash_str t other)
                (true_iff (rawequal (gnode t.node i).key other) (rawequal key other)
                  (rawequal_trans key (gnode t.node i).key other
                    (rawequal-sym (gnode t.node i).key key same))
                  (rawequal_trans (gnode t.node i).key key other same))),
      )

  found-TakesOne : (i : ℕ) → find_key hash_str t key ≡ some i → TakesOne t (put t (in_node i) v)
  found-TakesOne i e =
      let same = find_key_sound hash_str t hash key i e in
      let alive_i = rawequal-IsAlive (gnode t.node i).key key same alive in
      let lt = used-lt t.node i (IsAlive-IsUsed (gnode t.node i).key alive_i) in
      stored-TakesOne hash_str t hash i v lt alive_i t
        (record { count = omega arith; same_size = refl; same_dummy = refl })

  array-TakesOne : (k : ℕ) → TakesOne t (put t (in_array k) v)
  unfolding put
  array-TakesOne k = record { count = omega arith; same_size = refl; same_dummy = refl }

  pub found-IsWritten : (p : Place) → get hash_str t key ≡ some p → IsWritten hash_str t key v p t
  found-IsWritten p e = elim (Option-cases (slot (length t.array) key)) [
    | inr (k, at) ↦
        let here : in_array k ≡ p = some-injective _ _ (
          sym (
            get-find_key hash_str t key alive
            ∙ ap (λ o. place_in o (place_of (find_key hash_str t key))) at)
          ∙ e) in
        subst (λ q. IsWritten hash_str t key v q t) here
          (record {
            hash = array-IsHash hash_str t hash k v;
            reads = array_reads k at;
            takes_one = array-TakesOne k;
          })
    | inl no_slot ↦
        let at : place_of (find_key hash_str t key) ≡ some p =
          sym (
            get-find_key hash_str t key alive
            ∙ ap (λ o. place_in o (place_of (find_key hash_str t key))) no_slot)
          ∙ e in
        elim (Option-cases (find_key hash_str t key)) [
          | inl missing ↦ absurd (none-ne-some p (sym (ap place_of missing) ∙ at))
          | inr (i, node) ↦
              let here : in_node i ≡ p = some-injective _ _ (sym (ap place_of node) ∙ at) in
              let (hash', lookups) = found_lookups i node in
              subst (λ q. IsWritten hash_str t key v q t) here
                (record {
                  hash = hash';
                  reads = node_reads (put t (in_node i) v) (node_array i) no_slot lookups;
                  takes_one = found-TakesOne i node;
                })
        ]
  ]
    where
      node_array : (i : ℕ) → (put t (in_node i) v).array ≡ t.array
      node_array i = put_node-array t i v
