-- ===== src/Table/Keep.antt =====
-- No value is lost where a key is put into a table (lua-5.1.5/src/ltable.c, newkey).
use unitu_lua_test.Base.{ℕ, ◌≡◌, ◌≢◌, ap, sym, true, inl, inr}
use unitu_lua_test.Base.Distinct.{eq_or_ne}
use unitu_lua_test.Object.Value.{TValue, nil, ttisnil}
use unitu_lua_test.Table.Node.{Node}
use unitu_lua_test.Table.Chained.{IsUsed, IsAlive-IsUsed, IsChained}
use unitu_lua_test.Table.Settle.{IsSettled}
use unitu_lua_test.Table.Link.{IsLinked}
use unitu_lua_test.Table.Move.{IsMoved}
use unitu_lua_test.Table.Find.{Stands}
use mathlib.Core.Path.{subst}

-- Every value of `f` stands in `g` under its key.
abbrev pub Keeps : (f g : ℕ → Node) → Type 0
Keeps f g = (j : ℕ) → IsUsed (f j).val → Stands g (f j).key (f j).val

unused : (v : TValue) → v ≡ nil → IsUsed v → ⊥
unused v e used = (let absurd_case : ttisnil v ≡ true = ap ttisnil e in cc)

nil-IsUsed : (v : TValue) → ttisnil v ≡ true → IsUsed v → ⊥
nil-IsUsed v e used = cc

module _ (f g : ℕ → Node) (at : ℕ) (key : TValue) (s : IsSettled f g at key) where
  pub settled-Keeps : Keeps f g × Keeps g f
  settled-Keeps = (
    (λ j used. elim (eq_or_ne at j) [
      | inl e ↦ absurd (nil-IsUsed (f at).val s.free (subst (λ x. IsUsed (f x).val) (sym e) used))
      | inr ne ↦ (j, ap (λ n. n.key) (s.others j ne), ap (λ n. n.val) (s.others j ne))
    ]),
    (λ j used. elim (eq_or_ne at j) [
      | inl e ↦ absurd (
          nil-IsUsed (f at).val s.free
            (subst IsUsed s.at_val (subst (λ x. IsUsed (g x).val) (sym e) used)))
      | inr ne ↦ (j, ap (λ n. n.key) (sym (s.others j ne)), ap (λ n. n.val) (sym (s.others j ne)))
    ]),
  )

module _ (mp : TValue → ℕ) (size : ℕ) (f g : ℕ → Node) (c : IsChained mp size f) where
  free-val : (n : ℕ) → ttisnil (f n).key ≡ true → IsUsed (f n).val → ⊥
  free-val n free used = nil-IsUsed (f n).key free (IsAlive-IsUsed (f n).key (c.live n used))

  value-ne : (n j : ℕ) → ttisnil (f n).key ≡ true → IsUsed (f j).val → n ≢ j
  value-ne n j free used e = free-val n free (subst (λ x. IsUsed (f x).val) (sym e) used)

  pub linked-Keeps : (at n : ℕ) (key : TValue) → IsLinked f g at n key → Keeps f g × Keeps g f
  linked-Keeps at n key s = (
    (λ j used. let ne = value-ne n j s.n_free used in (j, s.keys j ne, s.vals j ne)),
    (λ j used. elim (eq_or_ne n j) [
      | inl e ↦
          absurd (
            free-val n s.n_free (subst IsUsed s.n_val (subst (λ x. IsUsed (g x).val) (sym e) used)))
      | inr ne ↦ (j, sym (s.keys j ne), sym (s.vals j ne))
    ]),
  )

  pub moved-Keeps :
      (previous at n : ℕ) (key : TValue) → IsMoved f g previous at n key → Keeps f g × Keeps g f
  moved-Keeps previous at n key s = (
    (λ j used. elim (eq_or_ne at j) [
      | inl e ↦ subst (λ x. Stands g (f x).key (f x).val) e (n, s.n_key, s.n_val)
      | inr ne ↦ let ne' = value-ne n j s.n_free used in (j, s.keys j ne' ne, s.vals j ne' ne)
    ]),
    (λ j used. elim (eq_or_ne at j) [
      | inl e ↦ absurd (unused (g at).val s.at_val (subst (λ x. IsUsed (g x).val) (sym e) used))
      | inr ne ↦ elim (eq_or_ne n j) [
        | inl e ↦ subst (λ x. Stands f (g x).key (g x).val) e (at, sym s.n_key, sym s.n_val)
        | inr ne' ↦ (j, sym (s.keys j ne' ne), sym (s.vals j ne' ne))
      ]
    ]),
  )
