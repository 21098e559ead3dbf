-- ===== src/Table/Settle.antt =====
-- A key that is put into its main position keeps the order of the nodes (lua-5.1.5/src/ltable.c, newkey).
use unitu_lua_test.Base.{ℕ, ◌≡◌, ◌≢◌, refl, ap, sym, ◌∙◌, Bool, true, false, inl, inr, none}
use unitu_lua_test.Base.Distinct.{eq_or_ne}
use unitu_lua_test.Object.Value.{TValue, ttisnil, rawequal}
use unitu_lua_test.Table.Node.{Node}
use unitu_lua_test.Table.Chained.{
  IsAlive, IsUsed, IsAlive-IsUsed, Leads, here, IsHome, IsChained, IsNew, same-Leads,
}
use mathlib.Core.Path.{subst}

pub differ : {a b : Bool} → a ≡ b → b ≡ false → a ≢ true
differ e other h = cc

-- `g` is `f` with the key at `at`.
pub record IsSettled (f g : ℕ → Node) (at : ℕ) (key : TValue) : Type 0 where
  pub free : ttisnil (f at).val ≡ true
  pub at_key : (g at).key ≡ key
  pub at_val : (g at).val ≡ (f at).val
  pub nexts : (i : ℕ) → (g i).next ≡ (f i).next
  pub others : (j : ℕ) → at ≢ j → g j ≡ f j

module _ (mp : TValue → ℕ) (size : ℕ) (f g : ℕ → Node) (c : IsChained mp size f) (at : ℕ)
    (key : TValue) (s : IsSettled f g at key) (at_mp : mp key ≡ at) (alive : IsAlive key)
    (new : IsNew f key) where
  pub settled-IsUsed : (x : ℕ) → IsUsed (f x).key → IsUsed (g x).key
  settled-IsUsed x h = elim (eq_or_ne at x) [
    | inl e ↦
        subst (λ y. IsUsed (g y).key) e (subst IsUsed (sym s.at_key) (IsAlive-IsUsed key alive))
    | inr ne ↦ subst (λ n. IsUsed n.key) (sym (s.others x ne)) h
  ]

  at-IsHome : IsHome mp g at
  at-IsHome =
      (subst IsUsed (sym s.at_key) (IsAlive-IsUsed key alive), (λ _. ap mp s.at_key ∙ at_mp))

  settled-IsHome : (x : ℕ) → IsHome mp f x → IsHome mp g x
  settled-IsHome x h = elim (eq_or_ne at x) [
    | inl e ↦ subst (IsHome mp g) e at-IsHome
    | inr ne ↦ subst (λ n. IsUsed n.key × (IsAlive n.key → mp n.key ≡ x)) (sym (s.others x ne)) h
  ]

  -- What holds of a key holds of all keys, if it holds of the new one and of the old ones elsewhere.
  by_key :
      (P : ℕ → Node → Type 0) → P at (g at) → ((j : ℕ) → at ≢ j → P j (f j)) → (j : ℕ) → P j (g j)
  by_key P one all j = elim (eq_or_ne at j) [
    | inl e ↦ subst (λ x. P x (g x)) e one
    | inr ne ↦ subst (P j) (sym (s.others j ne)) (all j ne)
  ]

  pub settled-IsChained : IsChained mp size g
  settled-IsChained = record {
    rank = c.rank;
    ranked = λ i j e. c.ranked i j (sym (s.nexts i) ∙ e);
    inside =
        λ i j e. let (lt, used) = c.inside i j (sym (s.nexts i) ∙ e) in (lt, settled-IsUsed j used);
    ends = λ i h.
        s.nexts i
        ∙ by_key (λ i n. ttisnil n.key ≡ true → (f i).next ≡ none)
            (λ h. (let used = at-IsHome.0 in cc)) (λ j _. c.ends j) i h;
    one_way = λ i i' j e e'. c.one_way i i' j (sym (s.nexts i) ∙ e) (sym (s.nexts i') ∙ e');
    leads =
        by_key (λ j n. IsAlive n.key → Leads g (mp n.key) j)
          (λ _. subst (λ x. Leads g x at) (sym (ap mp s.at_key ∙ at_mp)) here)
          (λ j _ h. same-Leads f g s.nexts (c.leads j h));
    home =
        by_key (λ j n. IsAlive n.key → IsHome mp g (mp n.key))
          (λ _. subst (IsHome mp g) (sym (ap mp s.at_key ∙ at_mp)) at-IsHome)
          (λ j _ h. settled-IsHome (mp (f j).key) (c.home j h));
    unique =
        by_key
          (λ i n.
            IsAlive n.key → (j : ℕ) → IsAlive (g j).key → rawequal n.key (g j).key ≡ true → i ≡ j)
          (λ _.
            by_key (λ j n. IsAlive n.key → rawequal (g at).key n.key ≡ true → at ≡ j) (λ _ _. refl)
              (λ j _ h e.
                (absurd (differ (ap (λ k. rawequal k (f j).key) s.at_key) (new j h).1 e))))
          (λ i _ h.
            by_key (λ j n. IsAlive n.key → rawequal (f i).key n.key ≡ true → i ≡ j)
              (λ _ e. absurd (differ (ap (rawequal (f i).key) s.at_key) (new i h).0 e))
              (λ j _ h'. c.unique i h j h'));
    live =
        by_key (λ j n. IsUsed n.val → IsAlive n.key) (λ _. subst IsAlive (sym s.at_key) alive)
          (λ j _. c.live j);
  }
