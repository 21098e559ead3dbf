-- ===== src/Table/Writes/Moved.antt =====
-- What the move of a colliding node in newkey (lua-5.1.5/src/ltable.c) changes.
use unitu_lua_test.Base.{
  ℕ, ◌<◌, ◌≡◌, ◌≢◌, refl, ap, sym, ◌∙◌, true, List, length, length-set, set, none, some,
}
use unitu_lua_test.Object.Value.{TValue, nil, ttisnil}
use unitu_lua_test.Table.Node.{Node, gnode, set_next, set_key, move_node}
use unitu_lua_test.Table.Move.{IsMoved}
use unitu_lua_test.Table.Writes.{with_key, with_next, written, unwritten, written_lt, same_field}

abbrev emptied : Node → Node
emptied x = record x { next = none; val = nil }

-- The node `at` goes to `n`, behind `previous`, and gets a key.
module _ (nodes : List Node) (previous at n : ℕ) (key : TValue)
    (previous_lt : previous < length nodes) (lt : at < length nodes) (n_lt : n < length nodes)
    (apart : n ≢ at) (apart_at : previous ≢ at) (apart_n : n ≢ previous) where
  linked : List Node
  linked = set nodes previous (with_next (some n) (gnode nodes previous))

  copied : List Node
  unfolding linked
  copied = set linked n (gnode linked at)

  moved : List Node
  unfolding copied linked
  moved = set copied at (emptied (gnode copied at))

  abbrev result : List Node
  result = set_key (move_node nodes previous at n) at key

  result_self : result ≡ set moved at (with_key key (gnode moved at))
  unfolding set_key move_node set_next linked copied moved
  result_self = refl

  linked_lt : (j : ℕ) → j < length nodes → j < length linked
  unfolding linked
  linked_lt j h = written_lt nodes previous j _ h

  copied_lt : (j : ℕ) → j < length nodes → j < length copied
  unfolding copied
  copied_lt j h = written_lt linked n j _ (linked_lt j h)

  moved_lt : (j : ℕ) → j < length nodes → j < length moved
  unfolding moved
  moved_lt j h = written_lt copied at j _ (copied_lt j h)

  result-at : gnode result at ≡ record { val = nil; key = key; next = none }
  unfolding moved
  result-at =
      ap (λ r. gnode r at) result_self
      ∙ written moved at _ (moved_lt at lt)
      ∙ ap (with_key key) (written copied at _ (copied_lt at lt))

  result-ne : (j : ℕ) → at ≢ j → gnode result j ≡ gnode copied j
  unfolding moved
  result-ne j ne =
      ap (λ r. gnode r j) result_self ∙ unwritten moved at j _ ne ∙ unwritten copied at j _ ne

  result-n : gnode result n ≡ gnode nodes at
  unfolding copied linked
  result-n =
      result-ne n (λ e. apart (sym e))
      ∙ written linked n _ (linked_lt n n_lt)
      ∙ unwritten nodes previous at _ apart_at

  result_other : (j : ℕ) → n ≢ j → at ≢ j → gnode result j ≡ gnode linked j
  unfolding copied
  result_other j ne ne' = result-ne j ne' ∙ unwritten linked n j _ ne

  result-previous : gnode result previous ≡ with_next (some n) (gnode nodes previous)
  unfolding linked
  result-previous =
      result_other previous apart_n (λ e. apart_at (sym e)) ∙ written nodes previous _ previous_lt

  -- A field that is not `next`
  result-field :
      {A : Type 0} (field : Node → A)
      → field (with_next (some n) (gnode nodes previous)) ≡ field (gnode nodes previous)
      → (j : ℕ) → n ≢ j
      → at ≢ j
      → field (gnode result j) ≡ field (gnode nodes j)
  unfolding linked
  result-field field same j ne ne' =
      ap field (result_other j ne ne')
      ∙ same_field field nodes previous (with_next (some n) (gnode nodes previous)) previous_lt same
          j

  pub length-move_node : length result ≡ length nodes
  unfolding linked copied moved
  length-move_node =
      ap length result_self
      ∙ length-set moved at _
      ∙ length-set copied at _
      ∙ length-set linked n _
      ∙ length-set nodes previous _

  pub move_node-IsMoved :
      (gnode nodes previous).next ≡ some at
      → ttisnil (gnode nodes n).key ≡ true
      → IsMoved (gnode nodes) (gnode result) previous at n key
  unfolding linked
  move_node-IsMoved leads free = record {
    leads_at = leads;
    apart = apart;
    n_free = free;
    at_key = ap (λ x. x.key) result-at;
    at_val = ap (λ x. x.val) result-at;
    at_next = ap (λ x. x.next) result-at;
    n_key = ap (λ x. x.key) result-n;
    n_val = ap (λ x. x.val) result-n;
    n_next = ap (λ x. x.next) result-n;
    previous_next = ap (λ x. x.next) result-previous;
    keys = result-field (λ x. x.key) refl;
    vals = result-field (λ x. x.val) refl;
    nexts = λ j ne ne' ne''.
        ap (λ x. x.next) (result_other j ne ne' ∙ unwritten nodes previous j _ ne'');
  }
