-- ===== src/Table/Writes.antt =====
-- What the writes to the nodes in newkey (lua-5.1.5/src/ltable.c) change.
pub mod Moved
use unitu_lua_test.Base.{
  ℕ, ◌<◌, ◌≡◌, ◌≢◌, refl, ap, sym, ◌∙◌, Bool, true, false, ◌⊎◌, inl, inr, List, length, length-set,
  set, get_or, get_or-set_self, get_or-set_ne, Option, none, some,
}
use unitu_lua_test.Base.Distinct.{eq_or_ne}
use unitu_lua_test.Object.Value.{TValue, nil, ttisnil}
use unitu_lua_test.Table.Node.{Node, gnode, free_node, set_next, set_key, link_node, move_node}
use unitu_lua_test.Table.Settle.{IsSettled}
use unitu_lua_test.Table.Link.{IsLinked}
use unitu_lua_test.Table.Move.{IsMoved}
use mathlib.Core.Path.{subst}

abbrev pub with_key : TValue → Node → Node
with_key key x = record x { key = key }

abbrev pub with_next : Option ℕ → Node → Node
with_next next x = record x { next = next }

pub written :
    (nodes : List Node) (i : ℕ) (x : Node) → i < length nodes → gnode (set nodes i x) i ≡ x
written nodes i x lt = get_or-set_self nodes i x free_node lt

pub unwritten :
    (nodes : List Node) (i j : ℕ) (x : Node) → i ≢ j → gnode (set nodes i x) j ≡ gnode nodes j
unwritten nodes i j x ne = get_or-set_ne nodes i j x free_node ne

pub written_lt :
    (nodes : List Node) (i j : ℕ) (x : Node) → j < length nodes → j < length (set nodes i x)
written_lt nodes i j x lt = subst (λ n. j < n) (sym (length-set nodes i x)) lt

-- A field that a write keeps
pub same_field :
    {A : Type 0} (field : Node → A) (nodes : List Node) (i : ℕ) (x : Node)
    → i < length nodes
    → field x ≡ field (gnode nodes i)
    → (j : ℕ) → field (gnode (set nodes i x) j) ≡ field (gnode nodes j)
same_field field nodes i x lt same j = elim (eq_or_ne i j) [
  | inl e ↦
      subst (λ y. field (gnode (set nodes i x) y) ≡ field (gnode nodes y)) e
        (ap field (written nodes i x lt) ∙ same)
  | inr ne ↦ ap field (unwritten nodes i j x ne)
]

module _ (nodes : List Node) where
  pub length-set_key : (i : ℕ) (key : TValue) → length (set_key nodes i key) ≡ length nodes
  unfolding set_key
  length-set_key i key = length-set nodes i _

  pub set_key-IsSettled :
      (at : ℕ) (key : TValue)
      → at < length nodes
      → ttisnil (gnode nodes at).val ≡ true
      → IsSettled (gnode nodes) (gnode (set_key nodes at key)) at key
  unfolding set_key
  set_key-IsSettled at key lt free =
      let x : Node = record (gnode nodes at) { key = key } in
      record {
        free = free;
        at_key = ap (λ n. n.key) (written nodes at x lt);
        at_val = ap (λ n. n.val) (written nodes at x lt);
        nexts = same_field (λ n. n.next) nodes at x lt refl;
        others = λ j ne. unwritten nodes at j x ne;
      }

  -- The node `n` gets a key, and goes between `at` and what follows it.
  module _ (at n : ℕ) (key : TValue) (lt : at < length nodes) (n_lt : n < length nodes)
      (apart : n ≢ at) where
    linked : List Node
    linked = set nodes n (record (gnode nodes n) { next = (gnode nodes at).next })

    behind : List Node
    unfolding linked
    behind = set linked at (record (gnode linked at) { next = some n })

    apart' : at ≢ n
    apart' e = apart (sym e)

    linked-n :
        gnode (set_key (link_node nodes at n) n key) n
        ≡ record { val = (gnode nodes n).val; key = key; next = (gnode nodes at).next }
    unfolding set_key link_node set_next linked behind
    linked-n =
        written behind n _ (written_lt linked at n _ (written_lt nodes n n _ n_lt))
        ∙ ap (with_key key) (unwritten linked at n _ apart' ∙ written nodes n _ n_lt)

    linked-ne :
        (j : ℕ) → n ≢ j → at ≢ j → gnode (set_key (link_node nodes at n) n key) j ≡ gnode nodes j
    unfolding set_key link_node set_next linked behind
    linked-ne j ne ne' =
        unwritten behind n j _ ne ∙ unwritten linked at j _ ne' ∙ unwritten nodes n j _ ne

    linked-at :
        gnode (set_key (link_node nodes at n) n key) at ≡ record (gnode nodes at) { next = some n }
    unfolding set_key link_node set_next linked behind
    linked-at =
        unwritten behind n at _ apart
        ∙ written linked at _ (written_lt nodes n at _ lt)
        ∙ ap (with_next (some n)) (unwritten nodes n at _ apart)

    -- A field that is not `next`
    linked-field :
        {A : Type 0} (field : Node → A)
        → ((x : Node) (next : Option ℕ) → field (record x { next = next }) ≡ field x)
        → (j : ℕ) → n ≢ j
        → field (gnode (set_key (link_node nodes at n) n key) j) ≡ field (gnode nodes j)
    linked-field field apart_from_next j ne = elim (eq_or_ne at j) [
      | inl e ↦
          subst
            (λ y. field (gnode (set_key (link_node nodes at n) n key) y) ≡ field (gnode nodes y)) e
            (ap field linked-at ∙ apart_from_next (gnode nodes at) (some n))
      | inr ne' ↦ ap field (linked-ne j ne ne')
    ]

    pub length-link_node : length (set_key (link_node nodes at n) n key) ≡ length nodes
    unfolding set_key link_node set_next linked behind
    length-link_node = length-set behind n _ ∙ length-set linked at _ ∙ length-set nodes n _

    pub link_node-IsLinked :
        ttisnil (gnode nodes n).key ≡ true
        → IsLinked (gnode nodes) (gnode (set_key (link_node nodes at n) n key)) at n key
    link_node-IsLinked free = record {
      apart = apart;
      n_free = free;
      n_key = ap (λ x. x.key) linked-n;
      n_val = ap (λ x. x.val) linked-n;
      n_next = ap (λ x. x.next) linked-n;
      at_next = ap (λ x. x.next) linked-at;
      keys = linked-field (λ x. x.key) (λ _ _. refl);
      vals = linked-field (λ x. x.val) (λ _ _. refl);
      nexts = λ j ne ne'. ap (λ x. x.next) (linked-ne j ne ne');
    }
