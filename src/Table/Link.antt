-- ===== src/Table/Link.antt =====
-- A key that goes into a free node, linked in behind its main position, keeps the order of the nodes
-- (lua-5.1.5/src/ltable.c, newkey).
use unitu_lua_test.Base.{
  ℕ, ◌+◌, ◌*◌, ◌<◌, ◌≡◌, ◌≢◌, refl, ap, sym, ◌∙◌, arith, true, inl, inr, none, some,
}
use unitu_lua_test.Base.Distinct.{eq_or_ne}
use unitu_lua_test.Object.Value.{TValue, ttisnil, rawequal}
use unitu_lua_test.Table.Node.{Node}
use unitu_lua_test.Table.Chained.{
  IsAlive, IsUsed, IsAlive-IsUsed, Leads, here, step, IsHome, IsChained, IsNew,
}
use unitu_lua_test.Table.Settle.{differ}
use mathlib.Core.Path.{subst}
use mathlib.Core.Option.{some-injective, none-ne-some}

-- `g` is `f` with the key at `n`, behind `at`.
pub record IsLinked (f g : ℕ → Node) (at n : ℕ) (key : TValue) : Type 0 where
  pub apart : n ≢ at
  pub n_free : ttisnil (f n).key ≡ true
  pub n_key : (g n).key ≡ key
  pub n_val : (g n).val ≡ (f n).val
  pub n_next : (g n).next ≡ (f at).next
  pub at_next : (g at).next ≡ some n
  pub keys : (j : ℕ) → n ≢ j → (g j).key ≡ (f j).key
  pub vals : (j : ℕ) → n ≢ j → (g j).val ≡ (f j).val
  pub nexts : (j : ℕ) → n ≢ j → at ≢ j → (g j).next ≡ (f j).next

-- Where a node of `g` leads
data Next (f : ℕ → Node) (at n i j : ℕ) : Type 0 where
  from_new : n ≡ i → (f at).next ≡ some j → Next f at n i j
  to_new : at ≡ i → j ≡ n → Next f at n i j
  as_before : n ≢ i → at ≢ i → (f i).next ≡ some j → Next f at n i j

module _ (mp : TValue → ℕ) (size : ℕ) (f g : ℕ → Node) (c : IsChained mp size f) (at n : ℕ)
    (key : TValue) (s : IsLinked f g at n key) (n_lt : n < size) (at_mp : mp key ≡ at)
    (at_home : IsHome mp f at) (alive : IsAlive key) (new : IsNew f key) where
  next_cases : (i j : ℕ) → (g i).next ≡ some j → Next f at n i j
  next_cases i j e = elim (eq_or_ne n i) [
    | inl n_i ↦ from_new n_i (sym s.n_next ∙ subst (λ x. (g x).next ≡ some j) (sym n_i) e)
    | inr ne ↦ elim (eq_or_ne at i) [
      | inl at_i ↦
          to_new at_i (some-injective _ _ (sym e ∙ subst (λ x. (g x).next ≡ some n) at_i s.at_next))
      | inr ne' ↦ as_before ne ne' (sym (s.nexts i ne ne') ∙ e)
    ]
  ]

  -- No old node leads to the free one.
  used-ne : (j : ℕ) → IsUsed (f j).key → n ≢ j
  used-ne j used e = (let nil_key = subst (λ x. ttisnil (f x).key ≡ true) e s.n_free in cc)

  by_key :
      (P : ℕ → TValue → TValue → Type 0)
      → P n (g n).val key
      → ((j : ℕ) → n ≢ j → P j (f j).val (f j).key)
      → (j : ℕ) → P j (g j).val (g j).key
  by_key P one all j = elim (eq_or_ne n j) [
    | inl e ↦ subst (λ x. P x (g x).val (g x).key) e (subst (P n (g n).val) (sym s.n_key) one)
    | inr ne ↦
        subst (P j (g j).val) (sym (s.keys j ne))
          (subst (λ v. P j v (f j).key) (sym (s.vals j ne)) (all j ne))
  ]

  -- The new node stands between its main position and what follows it.
  new_rank : ℕ → ℕ
  new_rank i = elim (eq_or_ne n i) [ inl _ ↦ 2 * c.rank at | inr _ ↦ 2 * c.rank i + 1 ]

  new_rank-n : new_rank n ≡ 2 * c.rank at
  unfolding new_rank
  new_rank-n =
      elim (eq_or_ne n n)
        as (λ e.
          elim e as (λ _. ℕ) [ inl _ ↦ 2 * c.rank at | inr _ ↦ 2 * c.rank n + 1 ] ≡ 2 * c.rank at) [
            | inl _ ↦ refl
            | inr ne ↦ absurd (ne refl)
          ]

  new_rank-ne : (i : ℕ) → n ≢ i → new_rank i ≡ 2 * c.rank i + 1
  unfolding new_rank
  new_rank-ne i h =
      elim (eq_or_ne n i)
        as (λ e.
          elim e as (λ _. ℕ) [ inl _ ↦ 2 * c.rank at | inr _ ↦ 2 * c.rank i + 1 ]
          ≡ 2 * c.rank i + 1) [ inl e ↦ absurd (h e) | inr ne ↦ refl ]

  linked-ranked : (i j : ℕ) → (g i).next ≡ some j → new_rank j < new_rank i
  linked-ranked i j e = elim (next_cases i j e) [
    | from_new n_i e' ↦
        let less = c.ranked at j e' in
        let other = new_rank-ne j (used-ne j (c.inside at j e').1) in
        let this = subst (λ x. new_rank x ≡ 2 * c.rank at) n_i new_rank-n in omega arith
    | to_new at_i j_n ↦
        let this = subst (λ x. new_rank x ≡ 2 * c.rank at) (sym j_n) new_rank-n in
        let other = subst (λ x. new_rank x ≡ 2 * c.rank x + 1) at_i (new_rank-ne at s.apart) in
        let same = ap c.rank at_i in omega arith
    | as_before ne ne' e' ↦
        let less = c.ranked i j e' in
        let one = new_rank-ne i ne in
        let two = new_rank-ne j (used-ne j (c.inside i j e').1) in omega arith
  ]

  pub linked-IsUsed : (x : ℕ) → IsUsed (f x).key → IsUsed (g x).key
  linked-IsUsed x h = subst IsUsed (sym (s.keys x (used-ne x h))) h

  linked-IsHome : (x : ℕ) → IsHome mp f x → IsHome mp g x
  linked-IsHome x (used, own) =
      subst (λ k. IsUsed k × (IsAlive k → mp k ≡ x)) (sym (s.keys x (used-ne x used))) (used, own)

  linked-inside : (i j : ℕ) → (g i).next ≡ some j → (j < size) × IsUsed (g j).key
  linked-inside i j e = elim (next_cases i j e) [
    | from_new _ e' ↦ (let (lt, used) = c.inside at j e' in (lt, linked-IsUsed j used))
    | to_new _ j_n ↦
        subst (λ x. (x < size) × IsUsed (g x).key) (sym j_n)
          (n_lt, subst IsUsed (sym s.n_key) (IsAlive-IsUsed key alive))
    | as_before _ _ e' ↦ (let (lt, used) = c.inside i j e' in (lt, linked-IsUsed j used))
  ]

  linked-one_way : (i i' j : ℕ) → (g i).next ≡ some j → (g i').next ≡ some j → i ≡ i'
  linked-one_way i i' j e e' = elim (next_cases i j e) [
    | from_new n_i a ↦ elim (next_cases i' j e') [
      | from_new n_i' b ↦ sym n_i ∙ n_i'
      | to_new _ j_n ↦ absurd (used-ne j (c.inside at j a).1 (sym j_n))
      | as_before _ ne b ↦ absurd (ne (c.one_way at i' j a b))
    ]
    | to_new at_i j_n ↦ elim (next_cases i' j e') [
      | from_new _ b ↦ absurd (used-ne j (c.inside at j b).1 (sym j_n))
      | to_new at_i' _ ↦ sym at_i ∙ at_i'
      | as_before _ _ b ↦ absurd (used-ne j (c.inside i' j b).1 (sym j_n))
    ]
    | as_before _ ne a ↦ elim (next_cases i' j e') [
      | from_new _ b ↦ absurd (ne (c.one_way at i j b a))
      | to_new _ j_n ↦ absurd (used-ne j (c.inside i j a).1 (sym j_n))
      | as_before _ _ b ↦ c.one_way i i' j a b
    ]
  ]

  linked-Leads : {i j : ℕ} → Leads f i j → Leads g i j
  linked-Leads here = here
  linked-Leads (step {i} {k} e l) = elim (eq_or_ne at i) [
    | inl at_i ↦
        step (subst (λ x. (g x).next ≡ some n) at_i s.at_next)
          (step (s.n_next ∙ subst (λ x. (f x).next ≡ some k) (sym at_i) e) (linked-Leads l))
    | inr ne ↦
        let ne' : n ≢ i = λ n_i.
          none-ne-some k (sym (c.ends n s.n_free) ∙ subst (λ x. (f x).next ≡ some k) (sym n_i) e) in
        step (s.nexts i ne' ne ∙ e) (linked-Leads l)
  ]

  pub linked-IsChained : IsChained mp size g
  linked-IsChained = record {
    rank = new_rank;
    ranked = linked-ranked;
    inside = linked-inside;
    ends =
        by_key (λ i _ k. ttisnil k ≡ true → (g i).next ≡ none)
          (λ h. (let used = IsAlive-IsUsed key alive in cc))
          (λ j ne h.
            s.nexts j ne (λ e. (let used = subst (λ x. IsUsed (f x).key) e at_home.0 in cc))
            ∙ c.ends j h);
    one_way = linked-one_way;
    leads =
        by_key (λ j _ k. IsAlive k → Leads g (mp k) j)
          (λ _. subst (λ x. Leads g x n) (sym at_mp) (step s.at_next here))
          (λ j _ h. linked-Leads (c.leads j h));
    home =
        by_key (λ j _ k. IsAlive k → IsHome mp g (mp k))
          (λ _. subst (IsHome mp g) (sym at_mp) (linked-IsHome at at_home))
          (λ j _ h. linked-IsHome (mp (f j).key) (c.home j h));
    unique =
        by_key
          (λ i _ k. IsAlive k → (j : ℕ) → IsAlive (g j).key → rawequal k (g j).key ≡ true → i ≡ j)
          (λ _.
            by_key (λ j _ k. IsAlive k → rawequal key k ≡ true → n ≡ j) (λ _ _. refl)
              (λ j _ h e. absurd (differ refl (new j h).1 e)))
          (λ i _ h.
            by_key (λ j _ k. IsAlive k → rawequal (f i).key k ≡ true → i ≡ j)
              (λ _ e. absurd (differ refl (new i h).0 e)) (λ j _ h'. c.unique i h j h'));
    live = by_key (λ j v k. IsUsed v → IsAlive k) (λ _. alive) (λ j _. c.live j);
  }
