-- ===== src/Table/Room.antt =====
-- How many nodes of a table have a key (lua-5.1.5/src/ltable.c): newkey takes at most one more.
use unitu_lua_test.Base.{
  ℕ, zero, suc, ◌+◌, ◌<◌, ◌≤◌, ◌≡◌, ◌≢◌, refl, ap, ◌∙◌, arith, if◌then◌else◌, Bool, true, false,
  List, [], ◌∷◌, length, set, replicate, Option, none, some,
}
use unitu_lua_test.Object.Value.{TValue, nil, ttisnil}
use unitu_lua_test.Table.Chained.{IsUsed}
use unitu_lua_test.Table.Node.{
  Node, Table, free_node, gnode, set_next, set_key, move_node, link_node,
}
use unitu_lua_test.Table.Writes.{written, unwritten, written_lt, same_field}

abbrev flag : TValue → ℕ
flag key = if ttisnil key then 0 else 1

unfoldable pub used_count : List Node → ℕ
used_count [] = 0
used_count (n ∷ nodes) = flag n.key + used_count nodes

used_count-set :
    (nodes : List Node) (i : ℕ) (x : Node)
    → i < length nodes
    → used_count (set nodes i x) + flag (gnode nodes i).key ≡ used_count nodes + flag x.key
unfolding used_count
used_count-set [] i x lt = absurd (omega arith)
used_count-set (n ∷ nodes) zero x lt = omega arith
used_count-set (n ∷ nodes) (suc i) x lt = omega (arith, used_count-set nodes i x (omega arith))

flag_le : (key : TValue) → flag key ≤ 1
flag_le key = by_test (ttisnil key)
  where
    by_test : (b : Bool) → (if b then 0 else 1) ≤ 1
    by_test true = omega arith
    by_test false = omega arith

flag_used : (key : TValue) → IsUsed key → flag key ≡ 1
flag_used key h = rw (h) refl

module _ (nodes : List Node) where
  pub used_count-set_key :
      (i : ℕ) (key : TValue)
      → i < length nodes
      → used_count (set_key nodes i key) ≤ used_count nodes + 1
  unfolding set_key
  used_count-set_key i key lt =
      omega (arith, used_count-set nodes i (record (gnode nodes i) { key = key }) lt, flag_le key)

  -- A key in place of another one
  pub used_count-set_key_over :
      (i : ℕ) (key : TValue)
      → i < length nodes
      → IsUsed (gnode nodes i).key
      → used_count (set_key nodes i key) ≤ used_count nodes
  unfolding set_key
  used_count-set_key_over i key lt used = omega (
    arith,
    used_count-set nodes i (record (gnode nodes i) { key = key }) lt,
    flag_le key,
    flag_used (gnode nodes i).key used,
  )

  pub used_count-set_next :
      (i : ℕ) (next : Option ℕ)
      → i < length nodes
      → used_count (set_next nodes i next) ≡ used_count nodes
  unfolding set_next
  used_count-set_next i next lt =
      omega (arith, used_count-set nodes i (record (gnode nodes i) { next = next }) lt)

  pub used_count-put :
      (i : ℕ) (v : TValue)
      → i < length nodes
      → used_count (set nodes i (record (gnode nodes i) { val = v })) ≡ used_count nodes
  used_count-put i v lt =
      omega (arith, used_count-set nodes i (record (gnode nodes i) { val = v }) lt)

pub used_count-link_node :
    (nodes : List Node) (at n : ℕ) (key : TValue)
    → at < length nodes
    → n < length nodes
    → used_count (set_key (link_node nodes at n) n key) ≤ used_count nodes + 1
unfolding link_node set_next
used_count-link_node nodes at n key lt n_lt =
    let first = set_next nodes n (gnode nodes at).next in
    let at_lt =
      written_lt nodes n at (record (gnode nodes n) { next = (gnode nodes at).next }) lt in
    let n_lt' =
      written_lt nodes n n (record (gnode nodes n) { next = (gnode nodes at).next }) n_lt in
    omega (
      arith,
      used_count-set_next nodes n (gnode nodes at).next n_lt,
      used_count-set_next first at (some n) at_lt,
      used_count-set_key (link_node nodes at n) n key
          (written_lt first at n (record (gnode first at) { next = some n }) n_lt'),
    )

module _ (nodes : List Node) (previous at n : ℕ) (key : TValue)
    (previous_lt : previous < length nodes) (lt : at < length nodes) (n_lt : n < length nodes)
    (apart : n ≢ at) (used : IsUsed (gnode nodes at).key) where
  linked : List Node
  linked = set_next nodes previous (some n)

  copied : List Node
  unfolding linked
  copied = set linked n (gnode linked at)

  moved : List Node
  unfolding copied linked
  moved = set copied at (record (gnode copied at) { next = none; val = nil })

  linked_lt : (j : ℕ) → j < length nodes → j < length linked
  unfolding linked set_next
  linked_lt j h = written_lt nodes previous j _ h

  copied_lt : (j : ℕ) → j < length nodes → j < length copied
  unfolding copied
  copied_lt j h = written_lt linked n j _ (linked_lt j h)

  moved_lt : (j : ℕ) → j < length nodes → j < length moved
  unfolding moved
  moved_lt j h = written_lt copied at j _ (copied_lt j h)

  moved_key : (gnode moved at).key ≡ (gnode nodes at).key
  unfolding moved copied linked set_next
  moved_key =
      ap (λ x. x.key) (written copied at _ (copied_lt at lt))
      ∙ ap (λ x. x.key) (unwritten linked n at _ apart)
      ∙ same_field (λ x. x.key) nodes previous (record (gnode nodes previous) { next = some n })
          previous_lt refl at

  used_count-copied : used_count copied ≤ used_count nodes + 1
  unfolding copied linked
  used_count-copied = omega (
    arith,
    used_count-set_next nodes previous (some n) previous_lt,
    used_count-set linked n (gnode linked at) (linked_lt n n_lt),
    flag_le (gnode linked at).key,
  )

  used_count-moved : used_count moved ≡ used_count copied
  unfolding moved
  used_count-moved = omega (
    arith,
    used_count-set copied at (record (gnode copied at) { next = none; val = nil })
        (copied_lt at lt),
  )

  pub used_count-move_node :
      used_count (set_key (move_node nodes previous at n) at key) ≤ used_count nodes + 1
  unfolding move_node moved copied linked
  used_count-move_node = omega (
    arith,
    used_count-copied,
    used_count-moved,
    used_count-set_key_over moved at key (moved_lt at lt) (ap ttisnil moved_key ∙ used),
  )

pub used_count-free : (n : ℕ) → used_count (replicate n free_node) ≡ 0
unfolding used_count
used_count-free zero = refl
used_count-free (suc n) = omega (arith, used_count-free n)

pub used_count_le : (nodes : List Node) → used_count nodes ≤ length nodes
unfolding used_count
used_count_le [] = omega arith
used_count_le (n ∷ nodes) = omega (arith, used_count_le nodes, flag_le n.key)

-- Where fewer nodes have a key than there are, one is free.
pub all_used :
    (nodes : List Node)
    → ((j : ℕ) → j < length nodes → IsUsed (gnode nodes j).key)
    → used_count nodes ≡ length nodes
unfolding used_count
all_used [] h = refl
all_used (n ∷ nodes) h =
    let lt : 0 < suc (length nodes) = omega arith in
    let first = flag_used n.key (h 0 lt) in
    let rest = all_used nodes (λ j less. h (suc j) (omega arith)) in omega arith

-- At most one node more has a key, and the nodes are as many as before.
pub record TakesOne (t t' : Table) : Type 0 where
  pub count : used_count t'.node ≤ used_count t.node + 1
  pub same_size : length t'.node ≡ length t.node
  pub same_dummy : t'.isdummy ≡ t.isdummy
