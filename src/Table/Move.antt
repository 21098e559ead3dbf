-- ===== src/Table/Move.antt =====
-- A colliding node that moves to a free one, away from the main position of a new key, keeps the order of the nodes
-- (lua-5.1.5/src/ltable.c, newkey).
use unitu_lua_test.Base.{ℕ, ◌<◌, ◌≡◌, ◌≢◌, refl, ap, sym, ◌∙◌, arith, true, inl, inr, none, some}
use unitu_lua_test.Base.Distinct.{eq_or_ne}
use unitu_lua_test.Object.Value.{TValue, nil, ttisnil, rawequal}
use unitu_lua_test.Table.Node.{Node}
use unitu_lua_test.Table.Chained.{
  IsAlive, IsUsed, IsAlive-IsUsed, Leads, here, step, IsHome, IsChained, IsNew,
}
use unitu_lua_test.Table.Settle.{differ}
use mathlib.Core.Path.{subst}
use mathlib.Core.Option.{some-injective, none-ne-some}

-- `g` is `f` with the node `at` moved to `n` behind `previous`, and the key at `at`.
pub record IsMoved (f g : ℕ → Node) (previous at n : ℕ) (key : TValue) : Type 0 where
  pub leads_at : (f previous).next ≡ some at
  pub apart : n ≢ at
  pub n_free : ttisnil (f n).key ≡ true
  pub at_key : (g at).key ≡ key
  pub at_val : (g at).val ≡ nil
  pub at_next : (g at).next ≡ none
  pub n_key : (g n).key ≡ (f at).key
  pub n_val : (g n).val ≡ (f at).val
  pub n_next : (g n).next ≡ (f at).next
  pub previous_next : (g previous).next ≡ some n
  pub keys : (j : ℕ) → n ≢ j → at ≢ j → (g j).key ≡ (f j).key
  pub vals : (j : ℕ) → n ≢ j → at ≢ j → (g j).val ≡ (f j).val
  pub nexts : (j : ℕ) → n ≢ j → at ≢ j → previous ≢ j → (g j).next ≡ (f j).next

-- Where a node of `g` leads
data Next (f : ℕ → Node) (previous at n i j : ℕ) : Type 0 where
  from_new : n ≡ i → (f at).next ≡ some j → Next f previous at n i j
  to_new : previous ≡ i → j ≡ n → Next f previous at n i j
  as_before : n ≢ i → at ≢ i → previous ≢ i → (f i).next ≡ some j → Next f previous at n i j

module _ (mp : TValue → ℕ) (size : ℕ) (f g : ℕ → Node) (c : IsChained mp size f) (previous at n : ℕ)
    (key : TValue) (s : IsMoved f g previous at n key) (n_lt : n < size) (at_mp : mp key ≡ at)
    (at_alive : IsAlive (f at).key) (foreign : mp (f at).key ≢ at) (alive : IsAlive key)
    (new : IsNew f key) where
  used-ne : (j : ℕ) → IsUsed (f j).key → n ≢ j
  used-ne j used e = (let nil_key = subst (λ x. ttisnil (f x).key ≡ true) e s.n_free in cc)

  -- A node that leads on is not the free one.
  leads-ne : (i j : ℕ) → (f i).next ≡ some j → n ≢ i
  leads-ne i j e n_i =
      none-ne-some j (sym (c.ends n s.n_free) ∙ subst (λ x. (f x).next ≡ some j) (sym n_i) e)

  previous-ne : at ≢ previous
  previous-ne e =
      let less = c.ranked previous at s.leads_at in let same = ap c.rank e in omega arith

  next_cases : (i j : ℕ) → (g i).next ≡ some j → Next f previous at n i j
  next_cases i j e = elim (eq_or_ne n i) [
    | inl n_i ↦ from_new n_i (sym s.n_next ∙ subst (λ x. (g x).next ≡ some j) (sym n_i) e)
    | inr ne ↦ elim (eq_or_ne at i) [
      | inl at_i ↦
          absurd (none-ne-some j (sym s.at_next ∙ subst (λ x. (g x).next ≡ some j) (sym at_i) e))
      | inr ne' ↦ elim (eq_or_ne previous i) [
        | inl p_i ↦
            to_new p_i
              (some-injective _ _ (sym e ∙ subst (λ x. (g x).next ≡ some n) p_i s.previous_next))
        | inr ne'' ↦ as_before ne ne' ne'' (sym (s.nexts i ne ne' ne'') ∙ e)
      ]
    ]
  ]

  by_key :
      (P : ℕ → TValue → TValue → Type 0)
      → P at (g at).val key
      → P n (f at).val (f at).key
      → ((j : ℕ) → n ≢ j → at ≢ j → P j (f j).val (f j).key)
      → (j : ℕ) → P j (g j).val (g j).key
  by_key P one two all j = elim (eq_or_ne n j) [
    | inl e ↦
        subst (λ x. P x (g x).val (g x).key) e
          (subst (P n (g n).val) (sym s.n_key) (subst (λ v. P n v (f at).key) (sym s.n_val) two))
    | inr ne ↦ elim (eq_or_ne at j) [
      | inl e ↦ subst (λ x. P x (g x).val (g x).key) e (subst (P at (g at).val) (sym s.at_key) one)
      | inr ne' ↦
          subst (P j (g j).val) (sym (s.keys j ne ne'))
            (subst (λ v. P j v (f j).key) (sym (s.vals j ne ne')) (all j ne ne'))
    ]
  ]

  -- The moved node takes the rank that it had.
  new_rank : ℕ → ℕ
  new_rank i = elim (eq_or_ne n i) [ inl _ ↦ c.rank at | inr _ ↦ c.rank i ]

  new_rank-n : new_rank n ≡ c.rank at
  unfolding new_rank
  new_rank-n =
      elim (eq_or_ne n n)
        as (λ e. elim e as (λ _. ℕ) [ inl _ ↦ c.rank at | inr _ ↦ c.rank n ] ≡ c.rank at) [
          | inl _ ↦ refl
          | inr ne ↦ absurd (ne refl)
        ]

  new_rank-ne : (i : ℕ) → n ≢ i → new_rank i ≡ c.rank i
  unfolding new_rank
  new_rank-ne i h =
      elim (eq_or_ne n i)
        as (λ e. elim e as (λ _. ℕ) [ inl _ ↦ c.rank at | inr _ ↦ c.rank i ] ≡ c.rank i) [
          | inl e ↦ absurd (h e)
          | inr ne ↦ refl
        ]

  moved-ranked : (i j : ℕ) → (g i).next ≡ some j → new_rank j < new_rank i
  moved-ranked i j e = elim (next_cases i j e) [
    | from_new n_i e' ↦
        let less = c.ranked at j e' in
        let other = new_rank-ne j (used-ne j (c.inside at j e').1) in
        let this = subst (λ x. new_rank x ≡ c.rank at) n_i new_rank-n in omega arith
    | to_new p_i j_n ↦
        let this = subst (λ x. new_rank x ≡ c.rank at) (sym j_n) new_rank-n in
        let other =
          subst (λ x. new_rank x ≡ c.rank x) p_i
            (new_rank-ne previous (leads-ne previous at s.leads_at)) in
        let less = c.ranked previous at s.leads_at in let same = ap c.rank p_i in omega arith
    | as_before ne _ _ e' ↦
        let less = c.ranked i j e' in
        let one = new_rank-ne i ne in
        let two = new_rank-ne j (used-ne j (c.inside i j e').1) in omega arith
  ]

  pub moved-IsUsed : (x : ℕ) → IsUsed (f x).key → IsUsed (g x).key
  moved-IsUsed x h = elim (eq_or_ne at x) [
    | inl e ↦
        subst (λ x. IsUsed (g x).key) e (subst IsUsed (sym s.at_key) (IsAlive-IsUsed key alive))
    | inr ne ↦ subst IsUsed (sym (s.keys x (used-ne x h) ne)) h
  ]

  at-IsHome : IsHome mp g at
  at-IsHome =
      (subst IsUsed (sym s.at_key) (IsAlive-IsUsed key alive), (λ _. ap mp s.at_key ∙ at_mp))

  -- No key has the main position `at` but the new one.
  home-ne : (j : ℕ) → IsAlive (f j).key → at ≢ mp (f j).key
  home-ne j h e =
      let own = (c.home j h).1 in
      foreign (subst (λ x. IsAlive (f x).key → mp (f x).key ≡ x) (sym e) own at_alive)

  moved-IsHome : (j : ℕ) → IsAlive (f j).key → IsHome mp g (mp (f j).key)
  moved-IsHome j h =
      let (used, own) = c.home j h in
      subst (λ k. IsUsed k × (IsAlive k → mp k ≡ mp (f j).key))
        (sym (s.keys (mp (f j).key) (used-ne _ used) (home-ne j h))) (used, own)

  -- A successor is not the moved node, but for that of `previous`.
  successor-ne : (i j : ℕ) → (f i).next ≡ some j → previous ≢ i → at ≢ j
  successor-ne i j e ne at_j =
      ne (c.one_way previous i j (subst (λ x. (f previous).next ≡ some x) at_j s.leads_at) e)

  moved-inside : (i j : ℕ) → (g i).next ≡ some j → (j < size) × IsUsed (g j).key
  moved-inside i j e = elim (next_cases i j e) [
    | from_new _ e' ↦ (let (lt, used) = c.inside at j e' in (lt, moved-IsUsed j used))
    | to_new _ j_n ↦
        subst (λ x. (x < size) × IsUsed (g x).key) (sym j_n)
          (n_lt, subst IsUsed (sym s.n_key) (IsAlive-IsUsed (f at).key at_alive))
    | as_before _ _ _ e' ↦ (let (lt, used) = c.inside i j e' in (lt, moved-IsUsed j used))
  ]

  moved-one_way : (i i' j : ℕ) → (g i).next ≡ some j → (g i').next ≡ some j → i ≡ i'
  moved-one_way i i' j e e' = elim (next_cases i j e) [
    | from_new n_i a ↦ elim (next_cases i' j e') [
      | from_new n_i' b ↦ sym n_i ∙ n_i'
      | to_new _ j_n ↦ absurd (used-ne j (c.inside at j a).1 (sym j_n))
      | as_before _ ne _ b ↦ absurd (ne (c.one_way at i' j a b))
    ]
    | to_new p_i j_n ↦ elim (next_cases i' j e') [
      | from_new _ b ↦ absurd (used-ne j (c.inside at j b).1 (sym j_n))
      | to_new p_i' _ ↦ sym p_i ∙ p_i'
      | as_before _ _ _ b ↦ absurd (used-ne j (c.inside i' j b).1 (sym j_n))
    ]
    | as_before _ ne _ a ↦ elim (next_cases i' j e') [
      | from_new _ b ↦ absurd (ne (c.one_way at i j b a))
      | to_new _ j_n ↦ absurd (used-ne j (c.inside i j a).1 (sym j_n))
      | as_before _ _ _ b ↦ c.one_way i i' j a b
    ]
  ]

  -- A way that does not start at the moved node goes on through its new place.
  mutual
    moved-Leads : {i j : ℕ} → Leads f i j → at ≢ i → at ≢ j → Leads g i j
    moved-Leads here apart apart' = here
    moved-Leads (step {i} {k} e l) apart apart' = elim (eq_or_ne previous i) [
      | inl p_i ↦ step (subst (λ x. (g x).next ≡ some n) p_i s.previous_next) (
          through l
            (some-injective _ _ (sym s.leads_at ∙ subst (λ x. (f x).next ≡ some k) (sym p_i) e))
            apart')
      | inr ne ↦
          step (s.nexts i (leads-ne i k e) apart ne ∙ e)
            (moved-Leads l (successor-ne i k e ne) apart')
    ]

    through : {i j : ℕ} → Leads f i j → at ≡ i → at ≢ j → Leads g n j
    through here at_i apart' = absurd (apart' at_i)
    through (step {i} {k} e l) at_i apart' =
        let e' : (f at).next ≡ some k = subst (λ x. (f x).next ≡ some k) (sym at_i) e in
        step (s.n_next ∙ e')
          (moved-Leads l (successor-ne at k e' (λ p. previous-ne (sym p))) apart')

  -- A way to the moved node leads to its new place.
  to_moved : {i j : ℕ} → Leads f i j → j ≡ at → at ≢ i → Leads g i n
  to_moved here j_at apart = absurd (apart (sym j_at))
  to_moved (step {i} {k} e l) j_at apart = elim (eq_or_ne previous i) [
    | inl p_i ↦ step (subst (λ x. (g x).next ≡ some n) p_i s.previous_next) here
    | inr ne ↦
        step (s.nexts i (leads-ne i k e) apart ne ∙ e) (to_moved l j_at (successor-ne i k e ne))
  ]

  moved-ends : (j : ℕ) → n ≢ j → at ≢ j → ttisnil (f j).key ≡ true → (g j).next ≡ none
  moved-ends j ne ne' h =
      let stop = c.ends j h in
      let apart : previous ≢ j =
        λ p_j. none-ne-some at (sym stop ∙ subst (λ x. (f x).next ≡ some at) p_j s.leads_at) in
      s.nexts j ne ne' apart ∙ stop

  pub moved-IsChained : IsChained mp size g
  moved-IsChained = record {
    rank = new_rank;
    ranked = moved-ranked;
    inside = moved-inside;
    ends =
        by_key (λ i _ k. ttisnil k ≡ true → (g i).next ≡ none)
          (λ h. (let used = IsAlive-IsUsed key alive in cc))
          (λ h. (let used = IsAlive-IsUsed (f at).key at_alive in cc)) moved-ends;
    one_way = moved-one_way;
    leads =
        by_key (λ j _ k. IsAlive k → Leads g (mp k) j)
          (λ _. subst (λ x. Leads g x at) (sym at_mp) here)
          (λ _. to_moved (c.leads at at_alive) refl (home-ne at at_alive))
          (λ j _ ne h. moved-Leads (c.leads j h) (home-ne j h) ne);
    home =
        by_key (λ j _ k. IsAlive k → IsHome mp g (mp k))
          (λ _. subst (IsHome mp g) (sym at_mp) at-IsHome) (λ h. moved-IsHome at h)
          (λ j _ _ h. moved-IsHome j h);
    unique =
        by_key
          (λ i _ k. IsAlive k → (j : ℕ) → IsAlive (g j).key → rawequal k (g j).key ≡ true → i ≡ j)
          (λ _.
            by_key (λ j _ k. IsAlive k → rawequal key k ≡ true → at ≡ j) (λ _ _. refl)
              (λ h e. absurd (differ refl (new at h).1 e))
              (λ j _ _ h e. absurd (differ refl (new j h).1 e)))
          (λ h.
            by_key (λ j _ k. IsAlive k → rawequal (f at).key k ≡ true → n ≡ j)
              (λ _ e. absurd (differ refl (new at h).0 e)) (λ _ _. refl)
              (λ j _ ne h' e. absurd (ne (c.unique at h j h' e))))
          (λ i _ ne h.
            by_key (λ j _ k. IsAlive k → rawequal (f i).key k ≡ true → i ≡ j)
              (λ _ e. absurd (differ refl (new i h).0 e))
              (λ h' e. absurd (ne (sym (c.unique i h at h' e)))) (λ j _ _ h'. c.unique i h j h'));
    live = by_key (λ j v k. IsUsed v → IsAlive k) (λ _. alive) (λ _. at_alive) (λ j _ _. c.live j);
  }
