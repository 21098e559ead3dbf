-- ===== src/Table/Ways.antt =====
-- The searches along `next` of lua-5.1.5/src/ltable.c: there are enough rounds to go from a main position to each
-- of its nodes.
use unitu_lua_test.Base.{
  ℕ, zero, suc, ◌<◌, ◌≤◌, ◌≡◌, ◌≢◌, refl, ap, sym, ◌∙◌, arith, Bool, true, false, ◌==◌, ==_iff, inl,
  inr, List, [], ◌∷◌, length, Option, none, some, Bool-cases, Option-cases,
}
use unitu_lua_test.Base.Distinct.{eq_or_ne, IsApart, AreDistinct, AreBelow, length-le_of_distinct}
use unitu_lua_test.Object.Value.{TValue}
use unitu_lua_test.Table.Node.{Node, gnode, find_node, find_previous}
use unitu_lua_test.Table.Chained.{Leads, here, step, IsChained}
use mathlib.Core.Path.{subst}

-- The nodes on a way
trail : {f : ℕ → Node} {i j : ℕ} → Leads f i j → List ℕ
trail (here {i}) = i ∷ []
trail (step {i} e l) = i ∷ trail l

module _ (mp : TValue → ℕ) (size : ℕ) (f : ℕ → Node) (c : IsChained mp size f) where
  trail-IsApart : {i j : ℕ} (l : Leads f i j) (q : ℕ) → c.rank i < c.rank q → IsApart q (trail l)
  unfolding trail
  trail-IsApart (here {i}) q h =
      (let apart : q ≢ i = λ e. (let same = ap c.rank e in omega arith) in (apart, tt))
  trail-IsApart (step {i} {k} e l) q h =
      let less = c.ranked i k e in
      let apart : q ≢ i = λ e. (let same = ap c.rank e in omega arith) in
      (apart, trail-IsApart l q (omega arith))

  trail-AreDistinct : {i j : ℕ} (l : Leads f i j) → AreDistinct (trail l)
  unfolding trail
  trail-AreDistinct here = (tt, tt)
  trail-AreDistinct (step {i} {k} e l) = (trail-IsApart l i (c.ranked i k e), trail-AreDistinct l)

  trail-AreBelow : {i j : ℕ} (l : Leads f i j) → i < size → AreBelow size (trail l)
  unfolding trail
  trail-AreBelow here h = (h, tt)
  trail-AreBelow (step {i} {k} e l) h = (h, trail-AreBelow l (c.inside i k e).0)

  -- No way is longer than there are nodes.
  length-trail : {i j : ℕ} (l : Leads f i j) → i < size → length (trail l) ≤ size
  length-trail l h = length-le_of_distinct size (trail l) (trail-AreDistinct l) (trail-AreBelow l h)

-- What a search finds is what it looks for.
Sound : (nodes : List Node) (p : TValue → Bool) → Option ℕ → Type 0
Sound nodes p none = Unit {0}
Sound nodes p (some j) = p (gnode nodes j).key ≡ true

find_node-Sound :
    (fuel : ℕ) (nodes : List Node) (p : TValue → Bool) (i : ℕ)
    → Sound nodes p (find_node fuel nodes p i)
unfolding find_node Sound
find_node-Sound zero nodes p i = tt
find_node-Sound (suc fuel) nodes p i = elim (Bool-cases (p (gnode nodes i).key)) [
  | inl found ↦ rw (find_node, found) found
  | inr other ↦ elim (Option-cases (gnode nodes i).next) [
    | inl stop ↦ rw (find_node, other, stop) tt
    | inr (k, e) ↦ rw (find_node, other, e) (find_node-Sound fuel nodes p k)
  ]
]

pub find_node_sound :
    (fuel : ℕ) (nodes : List Node) (p : TValue → Bool) (i j : ℕ)
    → find_node fuel nodes p i ≡ some j
    → p (gnode nodes j).key ≡ true
unfolding Sound
find_node_sound fuel nodes p i j e = subst (Sound nodes p) e (find_node-Sound fuel nodes p i)

pub find_node-none :
    (fuel : ℕ) (nodes : List Node) (p : TValue → Bool) (i : ℕ)
    → ((j : ℕ) → p (gnode nodes j).key ≡ false)
    → find_node fuel nodes p i ≡ none
find_node-none fuel nodes p i h = elim (Option-cases (find_node fuel nodes p i)) [
  | inl e ↦ e
  | inr (j, e) ↦ let found = find_node_sound fuel nodes p i j e in let other = h j in cc
]

way_found :
    (nodes : List Node) (p : TValue → Bool) {i j : ℕ} (l : Leads (gnode nodes) i j) (fuel : ℕ)
    → length (trail l) ≤ fuel
    → p (gnode nodes j).key ≡ true
    → ((x : ℕ) → p (gnode nodes x).key ≡ true → x ≡ j)
    → find_node fuel nodes p i ≡ some j
unfolding find_node trail
way_found nodes p here zero short found only = absurd (omega arith)
way_found nodes p here (suc fuel) short found only = rw (find_node, found) refl
way_found nodes p (step e l) zero short found only = absurd (omega arith)
way_found nodes p (step {i} {k} e l) (suc fuel) short found only =
    elim (Bool-cases (p (gnode nodes i).key)) [
      | inl this ↦ rw (find_node, this) (ap some (only i this))
      | inr other ↦ rw (find_node, other, e) (way_found nodes p l fuel (omega arith) found only)
    ]

way_previous :
    (nodes : List Node) {i j : ℕ} (l : Leads (gnode nodes) i j) (fuel : ℕ)
    → length (trail l) ≤ fuel
    → j ≢ i
    → (previous : ℕ) × (find_previous fuel nodes i j ≡ some previous)
      × ((gnode nodes previous).next ≡ some j)
unfolding find_previous trail
way_previous nodes here fuel short apart = absurd (apart refl)
way_previous nodes (step e l) zero short apart = absurd (omega arith)
way_previous nodes (step {i} {k} {j} e l) (suc fuel) short apart = elim (eq_or_ne j k) [
  | inl same ↦ (i, rw (find_previous, e, (==_iff k j).1 (sym same)) refl, e ∙ ap some (sym same))
  | inr ne ↦
      let (previous, found, leads) = way_previous nodes l fuel (omega arith) ne in
      let other : (k == j) ≡ false = ground arith in
      (previous, rw (find_previous, e, other, e) found, leads)
]

module _ (mp : TValue → ℕ) (size : ℕ) (nodes : List Node)
    (c : IsChained mp size (gnode nodes)) where
  -- `size` rounds are enough for the way to a node.
  pub find_node-found :
      (p : TValue → Bool) {i j : ℕ}
      → Leads (gnode nodes) i j
      → i < size
      → p (gnode nodes j).key ≡ true
      → ((x : ℕ) → p (gnode nodes x).key ≡ true → x ≡ j)
      → find_node size nodes p i ≡ some j
  find_node-found p l h = way_found nodes p l size (length-trail mp size (gnode nodes) c l h)

  pub find_previous-found :
      {i j : ℕ}
      → Leads (gnode nodes) i j
      → i < size
      → j ≢ i
      → (previous : ℕ) × (find_previous size nodes i j ≡ some previous)
        × ((gnode nodes previous).next ≡ some j)
  find_previous-found l h = way_previous nodes l size (length-trail mp size (gnode nodes) c l h)
