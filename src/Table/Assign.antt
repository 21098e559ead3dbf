-- ===== src/Table/Assign.antt =====
-- What luaH_set of lua-5.1.5/src/ltable.c does with a key that may be assigned to.
use unitu_lua_test.Base.{
  ℕ, ◌==◌, ◌≡◌, refl, ap, sym, ◌∙◌, if◌then◌else◌, not, Bool, true, false, ◌⊎◌, inl, inr, length,
  Option, none, some, Option-cases,
}
use unitu_lua_test.Object.Value.{
  TValue, nil, boolean, lightuserdata, number, object, lua_tdeadkey, is_nan, rawequal,
}
use unitu_lua_test.Table.Node.{
  Table, Place, in_node, put, place_of, get, find_key, Insertion, placed, full, fault, insert,
}
use unitu_lua_test.Table.Access.{Access, place, failed, broken_chain, newkey, set_new, set, read}
use unitu_lua_test.Table.Chained.{IsAlive}
use unitu_lua_test.Table.Find.{IsHash, lookup}
use unitu_lua_test.Table.Insert.{IsFull}
use unitu_lua_test.Table.Store.{Stored, insert-lookup}
use unitu_lua_test.Table.Slot.{slot, place_in, get-find_key}
use unitu_lua_test.Table.Map.{
  IsWritten, read_slot, read-read_slot, found-IsWritten, node_reads, put_node-array,
}
use mathlib.Core.Option.{none-ne-some}

-- Neither nil, nor NaN, nor dead
abbrev pub is_key : TValue → Bool
is_key nil = false
is_key (boolean b) = true
is_key (lightuserdata p) = true
is_key (number n) = not (is_nan n)
is_key (object tt a) = not (tt == lua_tdeadkey)

abbrev pub IsKey : TValue → Type 0
IsKey key = is_key key ≡ true

pub IsKey-IsAlive : (key : TValue) → IsKey key → IsAlive key
IsKey-IsAlive nil h = h
IsKey-IsAlive (boolean b) h = refl
IsKey-IsAlive (lightuserdata p) h = refl
IsKey-IsAlive (number n) h = refl
IsKey-IsAlive (object tt a) h = h

-- A place for the value, such that a value written to it is read for the key, and nothing else changes for a
-- reader; or no node is free, and the table grows.
unfoldable pub Assigned : (ℕ → ℕ) → (Table → TValue → Access) → Table → TValue → Access → Type 0
Assigned hash_str grow t key r =
    ((p : Place) × (t' : Table) × (r ≡ place p t')
      × ((v : TValue) → IsWritten hash_str t key v p t'))
    ⊎ ((t' : Table) × IsFull t t' × (r ≡ grow t' key))

abbrev unflagged : Table → Table
unflagged t = record t { flags = 0 }

pub not_nan : (b : Bool) → not b ≡ true → b ≡ false
not_nan true h = sym h
not_nan false h = refl

unflagged-IsHash :
    (hash_str : ℕ → ℕ) (t : Table) → IsHash hash_str t → IsHash hash_str (unflagged t)
unflagged-IsHash hash_str t hash = record {
  lsizenode = hash.lsizenode;
  sizenode = hash.sizenode;
  chained = hash.chained;
  lastfree_le = hash.lastfree_le;
  packed = hash.packed;
  dummy = hash.dummy;
}

module _ (hash_str : ℕ → ℕ) (grow : Table → TValue → Access) (t : Table) (hash : IsHash hash_str t)
    (key : TValue) (valid : IsKey key) where
  alive : IsAlive key
  alive = IsKey-IsAlive key valid

  unflagged-find_key : find_key hash_str (unflagged t) key ≡ find_key hash_str t key
  unfolding find_key
  unflagged-find_key = refl

  unflagged-get : get hash_str (unflagged t) key ≡ get hash_str t key
  unflagged-get =
      get-find_key hash_str (unflagged t) key alive
      ∙ ap (λ o. place_in (slot (length t.array) key) (place_of o)) unflagged-find_key
      ∙ sym (get-find_key hash_str t key alive)

  unflagged-read :
      (other : TValue) → IsAlive other → read hash_str (unflagged t) other ≡ read hash_str t other
  unfolding lookup find_key
  unflagged-read other other_alive =
      read-read_slot hash_str (unflagged t) other other_alive
      ∙ same_slot (slot (length t.array) other)
      ∙ sym (read-read_slot hash_str t other other_alive)
    where
      same_slot :
          (o : Option ℕ) → read_slot hash_str (unflagged t) other o ≡ read_slot hash_str t other o
      same_slot none = refl
      same_slot (some k) = refl

  unflagged-IsWritten :
      (v : TValue) (p : Place) (t' : Table)
      → IsWritten hash_str (unflagged t) key v p t'
      → IsWritten hash_str t key v p t'
  unflagged-IsWritten v p t' w = record {
    hash = w.hash;
    reads = λ other other_alive.
        w.reads other other_alive
        ∙ ap (λ x. if rawequal key other then v else x) (unflagged-read other other_alive);
    takes_one = record {
      count = w.takes_one.count;
      same_size = w.takes_one.same_size;
      same_dummy = w.takes_one.same_dummy;
    };
  }

  no_place :
      get hash_str t key ≡ none
      → (slot (length t.array) key ≡ none) × (find_key hash_str t key ≡ none)
  no_place e =
      neither (slot (length t.array) key) (find_key hash_str t key)
        (sym (get-find_key hash_str t key alive) ∙ e)
    where
      neither : (o o' : Option ℕ) → place_in o (place_of o') ≡ none → (o ≡ none) × (o' ≡ none)
      neither none none h = (refl, refl)
      neither none (some i) h = absurd (none-ne-some _ (sym h))
      neither (some k) o' h = absurd (none-ne-some _ (sym h))

  set_new-newkey : (t' : Table) → set_new hash_str grow t' key ≡ newkey hash_str grow t' key
  unfolding set_new
  set_new-newkey t' = by_type key valid
    where
      by_type : (k : TValue) → IsKey k → set_new hash_str grow t' k ≡ newkey hash_str grow t' k
      by_type nil h = cc
      by_type (boolean b) h = refl
      by_type (lightuserdata p) h = refl
      by_type (number n) h = rw (set_new, not_nan (is_nan n) h) refl
      by_type (object tt a) h = refl

  unflagged-Assigned :
      (r : Access) → Assigned hash_str grow (unflagged t) key r → Assigned hash_str grow t key r
  unfolding Assigned
  unflagged-Assigned r (inl (p, t', e, w)) = inl (p, t', e, (λ v. unflagged-IsWritten v p t' (w v)))
  unflagged-Assigned r (inr (t', all, e)) =
      inr (t', record { same_nodes = all.same_nodes; none_free = all.none_free }, e)

  of_insertion :
      slot (length t.array) key ≡ none
      → (r : Insertion) → ((v : TValue) → Stored hash_str t key v r)
      → Assigned hash_str grow t key (elim r [
        | placed i t' ↦ place (in_node i) t'
        | full t' ↦ grow t' key
        | fault ↦ failed broken_chain
      ])
  unfolding Assigned Stored
  of_insertion no_slot (placed i t') stored = inl (
    in_node i,
    t',
    refl,
    (λ v.
        (let (hash', same_array, one, lookups) = stored v in
          record {
            hash = hash';
            reads =
                node_reads hash_str t hash key alive v (put t' (in_node i) v)
                  (put_node-array t' i v ∙ same_array) no_slot lookups;
            takes_one = one;
          })),
  )
  of_insertion no_slot (full t') stored = inr (t', stored nil, refl)
  of_insertion no_slot fault stored = absurd (stored nil)

  newkey-Assigned :
      get hash_str t key ≡ none → Assigned hash_str grow t key (newkey hash_str grow t key)
  unfolding newkey
  newkey-Assigned e =
      let (no_slot, no_node) = no_place e in
      of_insertion no_slot (insert hash_str t key)
        (λ v. insert-lookup hash_str t hash key alive v no_node)

  place-Assigned :
      (p : Place)
      → get hash_str t key ≡ some p
      → Assigned hash_str grow t key (place p (unflagged t))
  unfolding Assigned
  place-Assigned p e =
      inl (p, unflagged t, refl, (λ v. unflagged-IsWritten v p (unflagged t) (found v)))
    where
      found : (v : TValue) → IsWritten hash_str (unflagged t) key v p (unflagged t)
      found v =
          found-IsWritten hash_str (unflagged t) (unflagged-IsHash hash_str t hash) key alive v p
            (unflagged-get ∙ e)

-- luaH_set of a key that is not nil, NaN or dead, in a table whose nodes are in order, gives a place such that a
-- value that is written there is read for this key, every other key reads as before, and the nodes stay in order;
-- or no node is free, and the table grows. It does not fail.
pub set-Assigned :
    (hash_str : ℕ → ℕ) (grow : Table → TValue → Access) (t : Table) (key : TValue)
    → IsHash hash_str t
    → IsKey key
    → Assigned hash_str grow t key (set hash_str grow t key)
unfolding set
set-Assigned hash_str grow t key hash valid = elim (Option-cases (get hash_str t key)) [
  | inr (p, e) ↦ rw (set, e) (place-Assigned hash_str grow t hash key valid p e)
  | inl e ↦
      let hash' = unflagged-IsHash hash_str t hash in
      let e' = unflagged-get hash_str grow t hash key valid ∙ e in
      rw (set, e, set_new-newkey hash_str grow t hash key valid (unflagged t))
        (unflagged-Assigned hash_str grow t hash key valid _
          (newkey-Assigned hash_str grow (unflagged t) hash' key valid e'))
]
