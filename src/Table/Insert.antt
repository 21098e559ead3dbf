-- ===== src/Table/Insert.antt =====
-- The insertion of a new key, newkey of lua-5.1.5/src/ltable.c: what it does to a table whose nodes are in order.
use unitu_lua_test.Base.{
  ℕ, ◌<◌, ◌≤◌, ◌≡◌, ◌≢◌, refl, ap, sym, ◌∙◌, arith, if◌then◌else◌, Bool, true, false, not, ◌||◌,
  ◌==◌, ==_iff, ◌⊎◌, inl, inr, List, length, Option, none, some, Bool-cases,
}
use unitu_lua_test.Object.Value.{TValue, ttisnil}
use unitu_lua_test.Table.Node.{
  Node, Table, gnode, mainposition, free_loop, getfreepos, set_key, link_node, move_node, Insertion,
  placed, full, fault, collide, insert,
}
use unitu_lua_test.Table.Chained.{IsAlive, IsUsed, IsAlive-IsUsed, IsHome, IsChained, IsNew}
use unitu_lua_test.Table.Settle.{IsSettled, settled-IsChained, settled-IsUsed}
use unitu_lua_test.Table.Link.{IsLinked, linked-IsChained, linked-IsUsed}
use unitu_lua_test.Table.Move.{IsMoved, moved-IsChained, moved-IsUsed}
use unitu_lua_test.Table.Keep.{Keeps, settled-Keeps, linked-Keeps, moved-Keeps}
use unitu_lua_test.Table.Find.{IsHash, position-lt}
use unitu_lua_test.Table.Room.{
  TakesOne, used_count-set_key, used_count-link_node, used_count-move_node,
}
use unitu_lua_test.Table.Ways.{find_previous-found}
use unitu_lua_test.Table.Writes.{
  length-set_key, set_key-IsSettled, length-link_node, link_node-IsLinked,
}
use unitu_lua_test.Table.Writes.Moved.{length-move_node, move_node-IsMoved}
use unitu_lua_test.Table.Free.{FreeFrom, below_or_from, free_loop-FreeFrom, next-lt}
use mathlib.Core.Path.{subst}
use mathlib.Core.Option.{none-ne-some}

-- The table with the key at the node `i`, whose value is nil: its nodes are in order, and the values are kept.
pub record IsPlaced (hash_str : ℕ → ℕ) (t : Table) (key : TValue) (i : ℕ) (t' : Table)
    : Type 0 where
  pub hash : IsHash hash_str t'
  pub within : i < length t'.node
  pub has_key : (gnode t'.node i).key ≡ key
  pub no_value : ttisnil (gnode t'.node i).val ≡ true
  pub keeps : Keeps (gnode t.node) (gnode t'.node)
  pub origin : Keeps (gnode t'.node) (gnode t.node)
  pub same_array : t'.array ≡ t.array
  pub takes_one : TakesOne t t'

-- No node is free, or all are `dummynode`.
pub record IsFull (t t' : Table) : Type 0 where
  pub same_nodes : t'.node ≡ t.node
  pub none_free : (t.isdummy ≡ true) ⊎ ((j : ℕ) → j < length t.node → IsUsed (gnode t.node j).key)

unfoldable pub Inserted : (ℕ → ℕ) → Table → TValue → Insertion → Type 0
Inserted hash_str t key (placed i t') = IsPlaced hash_str t key i t'
Inserted hash_str t key (full t') = IsFull t t'
Inserted hash_str t key fault = ⊥

module _ (hash_str : ℕ → ℕ) (t : Table) (hash : IsHash hash_str t) (key : TValue)
    (alive : IsAlive key) (new : IsNew (gnode t.node) key) where
  position : ℕ
  position = mainposition hash_str (length t.node) key

  position_lt : position < length t.node
  unfolding position
  position_lt = position-lt hash_str t hash key

  -- A table whose nodes change, with `lastfree`
  abbrev changed : List Node → ℕ → Table
  changed nodes lastfree = record t { node = nodes; lastfree = lastfree }

  -- What is to show of the nodes of the result
  changed-IsHash :
      (nodes : List Node) (lastfree : ℕ)
      → length nodes ≡ length t.node
      → IsChained (mainposition hash_str (length t.node)) (length t.node) (gnode nodes)
      → lastfree ≤ length t.node
      → (t.isdummy ≡ false
          → (j : ℕ) → lastfree ≤ j
          → j < length t.node
          → IsUsed (gnode nodes j).key)
      → (t.isdummy ≡ true → lastfree ≡ 0)
      → IsHash hash_str (changed nodes lastfree)
  changed-IsHash nodes lastfree e chained le packed dummy = record {
    lsizenode = hash.lsizenode;
    sizenode = e ∙ hash.sizenode;
    chained = subst (λ n. IsChained (mainposition hash_str n) n (gnode nodes)) (sym e) chained;
    lastfree_le = subst (λ n. lastfree ≤ n) (sym e) le;
    packed = λ live j more lt. packed live j more (subst (λ n. j < n) e lt);
    dummy = dummy;
  }

  -- The main position is free.
  settle :
      ttisnil (gnode t.node position).val ≡ true
      → IsPlaced hash_str t key position (record t { node = set_key t.node position key })
  unfolding position
  settle free =
      let f = gnode t.node in
      let g = gnode (set_key t.node position key) in
      let s : IsSettled f g position key = set_key-IsSettled t.node position key position_lt free in
      let mp = mainposition hash_str (length t.node) in
      let (keeps, origin) = settled-Keeps f g position key s in
      record {
        hash =
            changed-IsHash (set_key t.node position key) t.lastfree
              (length-set_key t.node position key)
              (settled-IsChained mp (length t.node) f g hash.chained position key s refl alive new)
              hash.lastfree_le
              (λ live j more lt.
                settled-IsUsed mp (length t.node) f g hash.chained position key s refl alive new j
                  (hash.packed live j more lt))
              hash.dummy;
        within = subst (λ n. position < n) (sym (length-set_key t.node position key)) position_lt;
        has_key = s.at_key;
        no_value = ap ttisnil s.at_val ∙ free;
        keeps = keeps;
        origin = origin;
        same_array = refl;
        takes_one = record {
          count = used_count-set_key t.node position key position_lt;
          same_size = length-set_key t.node position key;
          same_dummy = refl;
        };
      }

  -- The main position is taken; `n` is the last free node.
  module _ (used : IsUsed (gnode t.node position).val) (n : ℕ) (n_lt : n < length t.node)
      (free : ttisnil (gnode t.node n).key ≡ true)
      (above : (j : ℕ) → n < j → j < length t.node → IsUsed (gnode t.node j).key)
      (live : t.isdummy ≡ false) where
    mp-IsAlive : IsAlive (gnode t.node position).key
    mp-IsAlive = hash.chained.live position used

    apart : n ≢ position
    apart e =
        let taken = IsAlive-IsUsed (gnode t.node position).key mp-IsAlive in
        let nil_key = subst (λ x. ttisnil (gnode t.node x).key ≡ true) e free in cc

    -- The nodes from `n` on are used if those that were used stay so, and `n` is.
    from_n :
        (g : ℕ → Node)
        → IsUsed (g n).key
        → ((x : ℕ) → IsUsed (gnode t.node x).key → IsUsed (g x).key)
        → (j : ℕ) → n ≤ j
        → j < length t.node
        → IsUsed (g j).key
    from_n g n_used stay j le lt = elim (here_or_above j le) [
      | inl e ↦ subst (λ x. IsUsed (g x).key) e n_used
      | inr more ↦ stay j (above j more lt)
    ]
      where
        here_or_above : (j : ℕ) → n ≤ j → (n ≡ j) ⊎ (n < j)
        here_or_above j le = ground arith

    not_dummy : t.isdummy ≡ true → n ≡ 0
    not_dummy e = cc

    link :
        mainposition hash_str (length t.node) (gnode t.node position).key ≡ position
        → IsPlaced hash_str t key n (changed (set_key (link_node t.node position n) n key) n)
    unfolding position
    link own =
        let f = gnode t.node in
        let nodes = set_key (link_node t.node position n) n key in
        let g = gnode nodes in
        let mp = mainposition hash_str (length t.node) in
        let same = length-link_node t.node position n key position_lt n_lt apart in
        let s : IsLinked f g position n key =
          link_node-IsLinked t.node position n key position_lt n_lt apart free in
        let at_home : IsHome mp f position =
          subst (IsHome mp f) own (hash.chained.home position mp-IsAlive) in
        let (keeps, origin) = linked-Keeps mp (length t.node) f g hash.chained position n key s in
        record {
          hash =
              changed-IsHash nodes n same
                (linked-IsChained mp (length t.node) f g hash.chained position n key s n_lt refl
                  at_home alive new)
                (let le : n ≤ length t.node = omega arith in le)
                (λ _. from_n g (subst IsUsed (sym s.n_key) (IsAlive-IsUsed key alive)) (
                  linked-IsUsed mp (length t.node) f g hash.chained position n key s n_lt refl
                    at_home alive new))
                not_dummy;
          within = subst (λ m. n < m) (sym same) n_lt;
          has_key = s.n_key;
          no_value = no_value s.n_val;
          keeps = keeps;
          origin = origin;
          same_array = refl;
          takes_one = record {
            count = used_count-link_node t.node position n key position_lt n_lt;
            same_size = same;
            same_dummy = refl;
          };
        }
      where
        no_value : {v : TValue} → v ≡ (gnode t.node n).val → ttisnil v ≡ true
        no_value e = elim (Bool-cases (ttisnil (gnode t.node n).val)) [
          | inl empty ↦ ap ttisnil e ∙ empty
          | inr held ↦
              let taken = IsAlive-IsUsed (gnode t.node n).key (hash.chained.live n held) in cc
        ]

    move :
        mainposition hash_str (length t.node) (gnode t.node position).key ≢ position
        → (previous : ℕ) → (gnode t.node previous).next ≡ some position
        → IsPlaced hash_str t key position
            (changed (set_key (move_node t.node previous position n) position key) n)
    unfolding position
    move foreign previous leads =
        let f = gnode t.node in
        let nodes = set_key (move_node t.node previous position n) position key in
        let g = gnode nodes in
        let mp = mainposition hash_str (length t.node) in
        let previous_lt = next-lt t.node previous position leads in
        let apart_at : previous ≢ position = λ e.
          (let less = hash.chained.ranked previous position leads in
            let equal = ap hash.chained.rank e in omega arith) in
        let apart_n : n ≢ previous = λ e. none-ne-some position (
          sym (hash.chained.ends n free) ∙ subst (λ x. (f x).next ≡ some position) (sym e) leads) in
        let same =
          length-move_node t.node previous position n key previous_lt position_lt n_lt apart
            apart_at apart_n in
        let s : IsMoved f g previous position n key =
          move_node-IsMoved t.node previous position n key previous_lt position_lt n_lt apart
            apart_at apart_n leads free in
        let (keeps, origin) =
          moved-Keeps mp (length t.node) f g hash.chained previous position n key s in
        record {
          hash =
              changed-IsHash nodes n same
                (moved-IsChained mp (length t.node) f g hash.chained previous position n key s n_lt
                  refl mp-IsAlive foreign alive new)
                (let le : n ≤ length t.node = omega arith in le)
                (λ _.
                  from_n g (subst IsUsed (sym s.n_key) (IsAlive-IsUsed (f position).key mp-IsAlive))
                    (moved-IsUsed mp (length t.node) f g hash.chained previous position n key s n_lt
                      refl mp-IsAlive foreign alive new))
                not_dummy;
          within = subst (λ m. position < m) (sym same) position_lt;
          has_key = s.at_key;
          no_value = ap ttisnil s.at_val;
          keeps = keeps;
          origin = origin;
          same_array = refl;
          takes_one = record {
            count =
                used_count-move_node t.node previous position n key previous_lt position_lt n_lt
                  apart (IsAlive-IsUsed (f position).key mp-IsAlive);
            same_size = same;
            same_dummy = refl;
          };
        }

    abbrev mp : TValue → ℕ
    mp = mainposition hash_str (length t.node)

    collided : Inserted hash_str t key (collide hash_str (record t { lastfree = n }) key position n)
    unfolding Inserted position collide
    collided = elim (Bool-cases (mp (gnode t.node position).key == position)) [
      | inl own ↦ rw (collide, own) (link ((==_iff _ position).0 own))
      | inr foreign ↦
          let ne : mp (gnode t.node position).key ≢ position =
            λ e. (let own = (==_iff _ position).1 e in cc) in
          let (previous, found, leads) =
            find_previous-found mp (length t.node) t.node hash.chained
              (hash.chained.leads position mp-IsAlive)
              (position-lt hash_str t hash (gnode t.node position).key) (λ e. ne (sym e)) in
          rw (collide, foreign, found) (move ne previous leads)
    ]

  -- The main position is taken, or it is `dummynode`.
  after_search :
      (t.isdummy ≡ true) ⊎ ((t.isdummy ≡ false) × IsUsed (gnode t.node position).val)
      → (r : Option ℕ × ℕ) → FreeFrom t.node t.lastfree r
      → Inserted hash_str t key (elim r.0 [
        | none ↦ full (record t { lastfree = r.1 })
        | some i ↦ collide hash_str (record t { lastfree = r.1 }) key position i
      ])
  unfolding FreeFrom Inserted
  after_search (inl dummy) (none, lastfree) (e, all) = record {
    same_nodes = refl;
    none_free = inl dummy;
  }
  after_search (inl dummy) (some i, lastfree) (e, lt, free, above) =
      let zero_free = hash.dummy dummy in absurd (omega arith)
  after_search (inr (live, used)) (none, lastfree) (e, all) = record {
    same_nodes = refl;
    none_free = inr (λ j lt. below_or_above live all j lt);
  }
    where
      below_or_above :
          t.isdummy ≡ false
          → ((j : ℕ) → j < t.lastfree → IsUsed (gnode t.node j).key)
          → (j : ℕ) → j < length t.node
          → IsUsed (gnode t.node j).key
      below_or_above live all j lt = elim (below_or_from j t.lastfree) [
        | inl less ↦ all j less
        | inr more ↦ hash.packed live j more lt
      ]
  after_search (inr (live, used)) (some i, lastfree) (e, lt, free, above) =
      subst
        (λ l. Inserted hash_str t key (collide hash_str (record t { lastfree = l }) key position i))
        (sym e) (collided used i (let less = hash.lastfree_le in omega arith) free above_i live)
    where
      above_i : (j : ℕ) → i < j → j < length t.node → IsUsed (gnode t.node j).key
      above_i j more lt = elim (below_or_from j t.lastfree) [
        | inl less ↦ above j more less
        | inr le ↦ hash.packed live j le lt
      ]

  searched : Insertion
  unfolding position
  searched =
      let (n, t') = getfreepos t in
      elim n [ none ↦ full t' | some i ↦ collide hash_str t' key position i ]

  -- The two branches of `insert`
  branch :
      (b : Bool)
      → (b ≡ true → (t.isdummy ≡ true) ⊎ ((t.isdummy ≡ false) × IsUsed (gnode t.node position).val))
      → (b ≡ false → ttisnil (gnode t.node position).val ≡ true)
      → Inserted hash_str t key (
          if b then searched else placed position (record t { node = set_key t.node position key }))
  unfolding Inserted getfreepos searched
  branch true taken free =
      after_search (taken refl) (free_loop t.node t.lastfree) (free_loop-FreeFrom t.node t.lastfree)
  branch false taken free = settle (free refl)

  condition-true :
      (nil_val dummy : Bool)
      → (not nil_val || dummy) ≡ true
      → (dummy ≡ true) ⊎ ((dummy ≡ false) × (nil_val ≡ false))
  condition-true true true h = inl refl
  condition-true false true h = inl refl
  condition-true true false h = cc
  condition-true false false h = inr (refl, refl)

  condition-false : (nil_val dummy : Bool) → (not nil_val || dummy) ≡ false → nil_val ≡ true
  condition-false true dummy h = refl
  condition-false false dummy h = cc

  -- A new, alive key in a table whose nodes are in order: newkey never follows a chain that does not lead to the
  -- colliding node. It returns a node that has the key and the value nil, keeps the nodes in order, the values with
  -- their keys and the array; or it finds no node free, and then every node is used or they are `dummynode`.
  pub insert-Inserted : Inserted hash_str t key (insert hash_str t key)
  unfolding insert position searched
  insert-Inserted =
      branch (not (ttisnil (gnode t.node position).val) || t.isdummy)
        (condition-true (ttisnil (gnode t.node position).val) t.isdummy)
        (condition-false (ttisnil (gnode t.node position).val) t.isdummy)
