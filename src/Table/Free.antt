-- ===== src/Table/Free.antt =====
-- What getfreepos of lua-5.1.5/src/ltable.c finds.
use unitu_lua_test.Base.{
  ℕ, zero, suc, ◌<◌, ◌≤◌, ◌≡◌, refl, sym, arith, true, ◌⊎◌, inl, inr, List, [], ◌∷◌, length, Option,
  none, some, Bool-cases,
}
use unitu_lua_test.Object.Value.{ttisnil}
use unitu_lua_test.Table.Node.{Node, gnode, free_loop}
use unitu_lua_test.Table.Chained.{IsUsed}
use mathlib.Core.Path.{subst}
use mathlib.Core.Option.{none-ne-some}

-- The search for a free node below `lastfree`: the nodes that it passes over are used.
unfoldable pub FreeFrom : List Node → ℕ → Option ℕ × ℕ → Type 0
FreeFrom nodes l (none, lastfree) = (lastfree ≡ 0) × ((j : ℕ) → j < l → IsUsed (gnode nodes j).key)
FreeFrom nodes l (some i, lastfree) =
    (lastfree ≡ i)
    × (i < l)
    × (ttisnil (gnode nodes i).key ≡ true)
    × ((j : ℕ) → i < j → j < l → IsUsed (gnode nodes j).key)

below_suc : (j l : ℕ) → j < suc l → (j ≡ l) ⊎ (j < l)
below_suc j l lt = ground arith

pub below_or_from : (j l : ℕ) → (j < l) ⊎ (l ≤ j)
below_or_from j l = ground arith

more-FreeFrom :
    (nodes : List Node) (l : ℕ) (r : Option ℕ × ℕ)
    → IsUsed (gnode nodes l).key
    → FreeFrom nodes l r
    → FreeFrom nodes (suc l) r
unfolding FreeFrom
more-FreeFrom nodes l (none, lastfree) used (e, all) = (e, (λ j lt. at_last j lt))
  where
    at_last : (j : ℕ) → j < suc l → IsUsed (gnode nodes j).key
    at_last j lt = elim (below_suc j l lt) [
      | inl e ↦ subst (λ x. IsUsed (gnode nodes x).key) (sym e) used
      | inr less ↦ all j less
    ]
more-FreeFrom nodes l (some i, lastfree) used (e, lt, free, all) =
    (e, (let less : i < suc l = omega arith in less), free, at_last)
  where
    at_last : (j : ℕ) → i < j → j < suc l → IsUsed (gnode nodes j).key
    at_last j more lt = elim (below_suc j l lt) [
      | inl e ↦ subst (λ x. IsUsed (gnode nodes x).key) (sym e) used
      | inr less ↦ all j more less
    ]

pub free_loop-FreeFrom : (nodes : List Node) (l : ℕ) → FreeFrom nodes l (free_loop nodes l)
unfolding FreeFrom free_loop
free_loop-FreeFrom nodes zero = (refl, (λ j lt. absurd (omega arith)))
free_loop-FreeFrom nodes (suc i) = elim (Bool-cases (ttisnil (gnode nodes i).key)) [
  | inl free ↦
      rw (free_loop, free)
        (
          refl,
          (let less : i < suc i = omega arith in less),
          free,
          (λ j more lt. absurd (omega arith)),
        )
  | inr used ↦
      rw (free_loop, used)
        (more-FreeFrom nodes i (free_loop nodes i) used (free_loop-FreeFrom nodes i))
]

pub next-lt : (nodes : List Node) (i j : ℕ) → (gnode nodes i).next ≡ some j → i < length nodes
next-lt [] i j e = absurd (none-ne-some j e)
next-lt (x ∷ xs) zero j e = omega arith
next-lt (x ∷ xs) (suc i) j e = (let less = next-lt xs i j e in omega arith)
