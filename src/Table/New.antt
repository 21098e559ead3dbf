-- ===== src/Table/New.antt =====
-- A new table, luaH_new of lua-5.1.5/src/ltable.c, is empty and its nodes are in order.
use unitu_lua_test.Base.{
  ℕ, zero, suc, ◌-◌, ◌*◌, ◌^◌, ◌<◌, ◌≤◌, ◌≡◌, ◌⊎◌, refl, ap, sym, ◌∙◌, arith, ltb, ltb→lt, ◌==◌,
  if◌then◌else◌, true, false, inl, inr, List, [], ◌∷◌, ◌++◌, length, take, replicate,
  length-replicate, get_or, some, Bool-cases, Option-cases,
}
use unitu_lua_test.Base.Int.{pos_part}
use unitu_lua_test.Object.Log.{ceillog2_least}
use unitu_lua_test.Object.Value.{TValue, nil, boolean, lightuserdata, number, object, rawequal}
use unitu_lua_test.Table.Node.{Node, Table, free_node, gnode, mainposition}
use unitu_lua_test.Table.Access.{table_overflow, read}
use unitu_lua_test.Table.Chained.{IsAlive, IsUsed, IsChained}
use unitu_lua_test.Table.Find.{IsHash, lookup, find_key-none}
use unitu_lua_test.Table.Map.{read-read_slot}
use unitu_lua_test.Table.Slot.{slot}
use unitu_lua_test.Table.Resize.{
  maxbits, Outcome, done, stopped, setarrayvector, setnodevector, new,
}
use mathlib.Core.Path.{subst}
use mathlib.Core.Option.{none-ne-some}
use native.Mathlib.Nat.{pow-le-pow_right}

-- All nodes are free.
abbrev pub AreFree : List Node → Type 0
AreFree nodes = (i : ℕ) → gnode nodes i ≡ free_node

pub replicate-AreFree : (n : ℕ) → AreFree (replicate n free_node)
replicate-AreFree zero i = refl
replicate-AreFree (suc n) zero = refl
replicate-AreFree (suc n) (suc i) = replicate-AreFree n i

enough_nodes : (k size : ℕ) → size ≤ 2 ^ k → size ≤ length (replicate (2 ^ k) free_node)
enough_nodes k size enough = subst (λ m. size ≤ m) (sym (length-replicate (2 ^ k) free_node)) enough

free-IsChained :
    (mp : TValue → ℕ) (size : ℕ) (nodes : List Node)
    → AreFree nodes
    → IsChained mp size (gnode nodes)
free-IsChained mp size nodes free = record {
  rank = λ i. 0;
  ranked = λ i j e. absurd (leads_nowhere i j e);
  inside = λ i j e. absurd (leads_nowhere i j e);
  ends = λ i _. ap (λ n. n.next) (free i);
  one_way = λ i i' j e _. absurd (leads_nowhere i j e);
  leads = λ j h. absurd (no_key j h);
  home = λ j h. absurd (no_key j h);
  unique = λ i h j h' e. absurd (no_key i h);
  live = λ i used. absurd (no_value i used);
}
  where
    leads_nowhere : (i j : ℕ) → (gnode nodes i).next ≡ some j → ⊥
    leads_nowhere i j e = none-ne-some j (sym (ap (λ n. n.next) (free i)) ∙ e)

    no_key : (j : ℕ) → IsAlive (gnode nodes j).key → ⊥
    no_key j h = (let dead = subst (λ n. IsAlive n.key) (free j) h in cc)

    no_value : (i : ℕ) → IsUsed (gnode nodes i).val → ⊥
    no_value i used = (let empty = subst (λ n. IsUsed n.val) (free i) used in cc)

-- Nodes for `size` elements, or more elements than a table may have
unfoldable pub NewNodes : (ℕ → ℕ) → Table → ℕ → Outcome → Type 0
NewNodes hash_str t size (done t') =
    IsHash hash_str t'
    × AreFree t'.node
    × (size ≤ length t'.node)
    × (t'.array ≡ t.array)
    × ((size ≡ 0) ⊎ (t'.isdummy ≡ false))
NewNodes hash_str t size (stopped e) = (e ≡ table_overflow) × (2 ^ maxbits < size)

module _ (hash_str : ℕ → ℕ) (t : Table) where
  dummy-IsHash : IsHash hash_str (record t { node = free_node ∷ []; lastfree = 0; isdummy = true })
  dummy-IsHash = record {
    lsizenode = 0;
    sizenode = refl;
    chained = free-IsChained (mainposition hash_str 1) 1 (free_node ∷ []) (replicate-AreFree 1);
    lastfree_le = omega arith;
    packed = λ live. absurd (let both = live in cc);
    dummy = λ _. refl;
  }

  free-IsHash :
      (k : ℕ)
      → IsHash hash_str
          (record t { node = replicate (2 ^ k) free_node; lastfree = 2 ^ k; isdummy = false })
  free-IsHash k = record {
    lsizenode = k;
    sizenode = length-replicate (2 ^ k) free_node;
    chained = free-IsChained _ _ (replicate (2 ^ k) free_node) (replicate-AreFree (2 ^ k));
    lastfree_le = (let e = length-replicate (2 ^ k) free_node in omega arith);
    packed = λ _ j more lt. absurd (let e = length-replicate (2 ^ k) free_node in omega arith);
    dummy = λ h. absurd (let both = h in cc);
  }

  -- setnodevector
  pub setnodevector-NewNodes :
      (size : ℕ) → size ≤ 2 ^ 31 → NewNodes hash_str t size (setnodevector t size)
  unfolding NewNodes setnodevector
  setnodevector-NewNodes zero hi = (dummy-IsHash, replicate-AreFree 1, omega arith, refl, inl refl)
  setnodevector-NewNodes (suc n) hi =
      let (k, e, enough, least, _) = ceillog2_least (suc n) (omega arith) hi in
      let some_size : (suc n == 0) ≡ false = ground arith in
      rw (setnodevector, some_size)
        (subst (λ l. NewNodes hash_str t (suc n) (chosen l)) (sym (ap pos_part e))
          (of_size k enough least))
    where
      chosen : ℕ → Outcome
      chosen lsize =
          if ltb maxbits lsize
          then stopped table_overflow
          else done (record t {
            node = replicate (2 ^ lsize) free_node;
            lastfree = 2 ^ lsize;
            isdummy = false;
          })

      of_size : (k : ℕ) → suc n ≤ 2 ^ k → 2 ^ k < 2 * suc n → NewNodes hash_str t (suc n) (chosen k)
      of_size k enough least = elim (Bool-cases (ltb maxbits k)) [
        | inl more ↦
            let over : 2 ^ 27 ≤ 2 ^ k = pow-le-pow_right (omega arith) (ltb→lt maxbits k more) in
            rw (more) (refl, omega arith)
        | inr fits ↦ rw (fits) (
          free-IsHash k,
          replicate-AreFree (2 ^ k),
          enough_nodes k (suc n) enough,
          refl,
          inr refl,
        )
      ]

-- A table that has no value for any key
unfoldable pub IsEmptyTable : (ℕ → ℕ) → (narray nhash : ℕ) → Outcome → Type 0
IsEmptyTable hash_str narray nhash (done t) =
    IsHash hash_str t
    × (length t.array ≡ narray)
    × (nhash ≤ length t.node)
    × ((key : TValue) → IsAlive key → read hash_str t key ≡ nil)
IsEmptyTable hash_str narray nhash (stopped e) = (e ≡ table_overflow) × (2 ^ maxbits < nhash)

pub nil-rawequal : (key : TValue) → IsAlive key → rawequal nil key ≡ false
unfolding rawequal
nil-rawequal nil h = cc
nil-rawequal (boolean b) h = refl
nil-rawequal (lightuserdata p) h = refl
nil-rawequal (number n) h = refl
nil-rawequal (object tt a) h = refl

take-nil : (n : ℕ) → take n [] ++ replicate (n - 0) nil ≡ replicate n nil
take-nil zero = refl
take-nil (suc n) = (let same : suc n - 0 ≡ suc n = omega arith in ap (λ m. replicate m nil) same)

pub get_or-replicate : (n k : ℕ) → get_or (replicate n nil) k nil ≡ nil
get_or-replicate zero k = refl
get_or-replicate (suc n) zero = refl
get_or-replicate (suc n) (suc k) = get_or-replicate n k

module _ (hash_str : ℕ → ℕ) where
  empty-read :
      (t : Table) (narray : ℕ)
      → IsHash hash_str t
      → AreFree t.node
      → t.array ≡ replicate narray nil
      → (key : TValue) → IsAlive key
      → read hash_str t key ≡ nil
  unfolding lookup
  empty-read t narray hash free nils key alive =
      read-read_slot hash_str t key alive ∙ elim (Option-cases (slot (length t.array) key)) [
        | inl e ↦
            rw
              (
                e,
                lookup,
                find_key-none hash_str t hash key (λ j.
                    subst (λ n. rawequal n.key key ≡ false) (sym (free j))
                      (nil-rawequal key alive)),
              )
              refl
        | inr (k, e) ↦ rw (e) (ap (λ a. get_or a k nil) nils ∙ get_or-replicate narray k)
      ]

  empty_table :
      (t : Table) (narray nhash : ℕ) (o : Outcome)
      → t.array ≡ replicate narray nil
      → NewNodes hash_str t nhash o
      → IsEmptyTable hash_str narray nhash o
  unfolding NewNodes IsEmptyTable
  empty_table t narray nhash (done t') nils (hash, free, enough, same, live) = (
    hash,
    ap length (same ∙ nils) ∙ length-replicate narray nil,
    enough,
    empty-read t' narray hash free (same ∙ nils),
  )
  empty_table t narray nhash (stopped e) nils overflow = overflow

  -- luaH_new, for at most 2 ^ 31 nodes, makes an array part of the size asked for and at least as many nodes, in order,
  -- and the table has no value for any alive key; or it raises "table overflow", for more than 2 ^ 26 nodes.
  pub new-IsEmptyTable :
      (narray nhash : ℕ) → nhash ≤ 2 ^ 31 → IsEmptyTable hash_str narray nhash (new narray nhash)
  unfolding new setarrayvector
  new-IsEmptyTable narray nhash hi =
      empty_table (setarrayvector bare narray) narray nhash
        (setnodevector (setarrayvector bare narray) nhash) (take-nil narray)
        (setnodevector-NewNodes hash_str (setarrayvector bare narray) nhash hi)
    where
      bare : Table
      bare = record { flags = 255; array = []; node = free_node ∷ []; lastfree = 0; isdummy = true }
