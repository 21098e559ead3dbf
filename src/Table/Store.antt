-- ===== src/Table/Store.antt =====
-- A value that is written to a node of a table (lua-5.1.5/src/ltable.c): what a search finds then.
use unitu_lua_test.Base.{
  ℕ, ◌<◌, ◌≤◌, ◌≡◌, ◌≢◌, refl, ap, sym, ◌∙◌, arith, if◌then◌else◌, Bool, true, false, inl, inr,
  length, length-set, none, Bool-cases,
}
use unitu_lua_test.Base.Distinct.{eq_or_ne}
use unitu_lua_test.Object.Value.{TValue, ttisnil, rawequal}
use unitu_lua_test.Table.Node.{
  Node, Table, gnode, mainposition, find_key, put, in_node, Insertion, placed, full, fault, insert,
}
use unitu_lua_test.Table.Chained.{IsAlive, IsUsed, IsHome, IsChained, IsNew, Leads, same-Leads}
use unitu_lua_test.Table.Positions.{rawequal-sym}
use unitu_lua_test.Table.Find.{IsHash, lookup, find_key-found, lookup-found, IsKept, kept-lookup}
use unitu_lua_test.Table.Room.{TakesOne, used_count, used_count-put}
use unitu_lua_test.Table.Writes.{written, unwritten, same_field}
use unitu_lua_test.Table.Insert.{IsPlaced, IsFull, Inserted, insert-Inserted}
use mathlib.Core.Path.{subst}
use mathlib.Core.Option.{none-ne-some}

-- The order of the nodes is that of the keys.
same-IsChained :
    (mp : TValue → ℕ) (size : ℕ) (f g : ℕ → Node)
    → ((j : ℕ) → (g j).key ≡ (f j).key)
    → ((j : ℕ) → (g j).next ≡ (f j).next)
    → ((j : ℕ) → IsUsed (g j).val → IsAlive (g j).key)
    → IsChained mp size f
    → IsChained mp size g
same-IsChained mp size f g keys nexts live c = record {
  rank = c.rank;
  ranked = λ i j e. c.ranked i j (sym (nexts i) ∙ e);
  inside = λ i j e.
      let (lt, used) = c.inside i j (sym (nexts i) ∙ e) in (lt, subst IsUsed (sym (keys j)) used);
  ends = λ i h. nexts i ∙ c.ends i (ap ttisnil (sym (keys i)) ∙ h);
  one_way = λ i i' j e e'. c.one_way i i' j (sym (nexts i) ∙ e) (sym (nexts i') ∙ e');
  leads = λ j h.
      subst (λ k. Leads g (mp k) j) (sym (keys j))
        (same-Leads f g nexts (c.leads j (subst IsAlive (keys j) h)));
  home = λ j h.
      subst (λ k. IsHome mp g (mp k)) (sym (keys j))
        (home_at (mp (f j).key) (c.home j (subst IsAlive (keys j) h)));
  unique = λ i h j h' e. c.unique i (subst IsAlive (keys i) h) j (subst IsAlive (keys j) h') (
      subst (λ k. rawequal (f i).key k ≡ true) (keys j)
        (subst (λ k. rawequal k (g j).key ≡ true) (keys i) e));
  live = live;
}
  where
    home_at : (x : ℕ) → IsHome mp f x → IsHome mp g x
    home_at x h = subst (λ k. IsUsed k × (IsAlive k → mp k ≡ x)) (sym (keys x)) h

module _ (hash_str : ℕ → ℕ) (t : Table) (hash : IsHash hash_str t) (i : ℕ) (v : TValue)
    (lt : i < length t.node) (alive : IsAlive (gnode t.node i).key) where
  stored : Table
  stored = put t (in_node i) v

  stored_keys : (j : ℕ) → (gnode stored.node j).key ≡ (gnode t.node j).key
  unfolding stored put
  stored_keys = same_field (λ n. n.key) t.node i (record (gnode t.node i) { val = v }) lt refl

  stored_nexts : (j : ℕ) → (gnode stored.node j).next ≡ (gnode t.node j).next
  unfolding stored put
  stored_nexts = same_field (λ n. n.next) t.node i (record (gnode t.node i) { val = v }) lt refl

  stored_val : (gnode stored.node i).val ≡ v
  unfolding stored put
  stored_val = ap (λ n. n.val) (written t.node i (record (gnode t.node i) { val = v }) lt)

  stored_vals : (j : ℕ) → i ≢ j → (gnode stored.node j).val ≡ (gnode t.node j).val
  unfolding stored put
  stored_vals j ne = ap (λ n. n.val) (unwritten t.node i j (record (gnode t.node i) { val = v }) ne)

  length-stored : length stored.node ≡ length t.node
  unfolding stored put
  length-stored = length-set t.node i (record (gnode t.node i) { val = v })

  pub stored-used_count : used_count (put t (in_node i) v).node ≡ used_count t.node
  unfolding put
  stored-used_count = used_count-put t.node i v lt

  pub stored-TakesOne : (t0 : Table) → TakesOne t0 t → TakesOne t0 (put t (in_node i) v)
  unfolding put stored
  stored-TakesOne t0 one = record {
    count = (let same = stored-used_count in let le = one.count in omega arith);
    same_size = length-stored ∙ one.same_size;
    same_dummy = one.same_dummy;
  }

  stored-live : (j : ℕ) → IsUsed (gnode stored.node j).val → IsAlive (gnode stored.node j).key
  stored-live j used = subst IsAlive (sym (stored_keys j)) (elim (eq_or_ne i j) [
    | inl e ↦ subst (λ x. IsAlive (gnode t.node x).key) e alive
    | inr ne ↦ hash.chained.live j (subst IsUsed (stored_vals j ne) used)
  ])

  pub stored-IsHash : IsHash hash_str (put t (in_node i) v)
  unfolding stored put
  stored-IsHash = record {
    lsizenode = hash.lsizenode;
    sizenode = length-stored ∙ hash.sizenode;
    chained =
        subst (λ n. IsChained (mainposition hash_str n) n (gnode stored.node)) (sym length-stored)
          (same-IsChained (mainposition hash_str (length t.node)) (length t.node) (gnode t.node)
            (gnode stored.node) stored_keys stored_nexts stored-live hash.chained);
    lastfree_le = subst (λ n. t.lastfree ≤ n) (sym length-stored) hash.lastfree_le;
    packed = λ live j more less.
        subst IsUsed (sym (stored_keys j))
          (hash.packed live j more (subst (λ n. j < n) length-stored less));
    dummy = hash.dummy;
  }

  -- Elsewhere, a node with an equal key of `other` keeps its value.
  module _ (other : TValue) (ne_other : rawequal (gnode t.node i).key other ≡ false) where
    away : (j : ℕ) → rawequal (gnode t.node j).key other ≡ true → i ≢ j
    away j same e =
        let here = subst (λ x. rawequal (gnode t.node x).key other ≡ true) (sym e) same in cc

    stored-keeps : IsKept (gnode t.node) (gnode (put t (in_node i) v).node) other
    unfolding stored
    stored-keeps j same used = (j, stored_keys j, stored_vals j (away j same))

    stored-origin : IsKept (gnode (put t (in_node i) v).node) (gnode t.node) other
    unfolding stored
    stored-origin j same used =
        let same' = subst (λ k. rawequal k other ≡ true) (stored_keys j) same in
        (j, sym (stored_keys j), sym (stored_vals j (away j same')))

  -- What is found behind the write: the value for an equal key, and for another what was found before.
  pub stored-lookup :
      (other : TValue)
      → IsAlive other
      → lookup hash_str (put t (in_node i) v) other
        ≡ (if rawequal (gnode t.node i).key other then v else lookup hash_str t other)
  unfolding stored
  stored-lookup other other_alive = elim (Bool-cases (rawequal (gnode t.node i).key other)) [
    | inl same ↦ rw same (
        lookup-found hash_str (put t (in_node i) v) stored-IsHash other other_alive i
          (subst (λ k. rawequal k other ≡ true) (sym (stored_keys i)) same)
        ∙ stored_val)
    | inr ne ↦ rw ne (
        kept-lookup hash_str t (put t (in_node i) v) hash stored-IsHash other other_alive
          (stored-keeps other ne) (stored-origin other ne))
  ]

-- A table behind `insert`, with the value written to the node that it returns
unfoldable pub Stored : (ℕ → ℕ) → Table → TValue → TValue → Insertion → Type 0
Stored hash_str t key v (placed i t') =
    IsHash hash_str (put t' (in_node i) v)
    × (t'.array ≡ t.array)
    × TakesOne t (put t' (in_node i) v)
    × ((other : TValue)
        → IsAlive other
        → lookup hash_str (put t' (in_node i) v) other
          ≡ (if rawequal key other then v else lookup hash_str t other))
Stored hash_str t key v (full t') = IsFull t t'
Stored hash_str t key v fault = ⊥

not-true-false : (b : Bool) → b ≢ true → b ≡ false
not-true-false true h = absurd (h refl)
not-true-false false h = refl

module _ (hash_str : ℕ → ℕ) (t : Table) (hash : IsHash hash_str t) (key : TValue)
    (alive : IsAlive key) where
  -- A key that the search does not find is no node's.
  pub none-IsNew : find_key hash_str t key ≡ none → IsNew (gnode t.node) key
  none-IsNew e j alive_j =
      let away =
        not-true-false (rawequal (gnode t.node j).key key)
          (λ same. none-ne-some j (sym e ∙ find_key-found hash_str t hash key alive j same)) in
      (
        away,
        not-true-false (rawequal key (gnode t.node j).key)
            (λ same. (let back = rawequal-sym key (gnode t.node j).key same in cc)),
      )

  placed-lookup :
      (v : TValue) (i : ℕ) (t' : Table)
      → IsPlaced hash_str t key i t'
      → Stored hash_str t key v (placed i t')
  unfolding Stored
  placed-lookup v i t' p =
      let alive_i = subst IsAlive (sym p.has_key) alive in
      (
        stored-IsHash hash_str t' p.hash i v p.within alive_i,
        p.same_array,
        stored-TakesOne hash_str t' p.hash i v p.within alive_i t p.takes_one,
        (λ other other_alive.
            stored-lookup hash_str t' p.hash i v p.within alive_i other other_alive
            ∙ ap (λ k. if rawequal k other then v else lookup hash_str t' other) p.has_key
            ∙ ap (λ r. if rawequal key other then v else r)
                (kept-lookup hash_str t t' hash p.hash other other_alive (λ j _. p.keeps j)
                  (λ j _. p.origin j))),
      )

  Stored-result :
      (v : TValue) (r : Insertion) → Inserted hash_str t key r → Stored hash_str t key v r
  unfolding Stored Inserted
  Stored-result v (placed i t') p = placed-lookup v i t' p
  Stored-result v (full t') p = p
  Stored-result v fault p = p

  -- A new key: the insertion follows no broken chain; it fails only where no node is free; and the value that is
  -- then written is found for the key, and every other key is found as before.
  pub insert-lookup :
      (v : TValue)
      → find_key hash_str t key ≡ none
      → Stored hash_str t key v (insert hash_str t key)
  insert-lookup v e =
      Stored-result v (insert hash_str t key)
        (insert-Inserted hash_str t hash key alive (none-IsNew e))
