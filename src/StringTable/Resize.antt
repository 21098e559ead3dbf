-- ===== src/StringTable/Resize.antt =====
-- `luaS_resize` (lua-5.1.5/src/lstring.c) moves every string to the chain of its hash, and keeps them all.
use unitu_lua_test.Base.{
  ℕ, zero, suc, ◌^◌, ◌<◌, ◌≡◌, refl, ap, sym, ◌∙◌, ◌==◌, Bool-cases, ◌⊎◌, inl, inr, List, [], ◌∷◌,
  length, replicate,
}
use unitu_lua_test.StringTable.{
  TString, GlobalState, string_at, lmod, push, rehash_chain, rehash, resize, gcs_sweepstring,
  hash_of,
}
use unitu_lua_test.StringTable.Chains.{
  In, InChain, length-push, push-new, push-old, push-only, empty-In, length-replicate, lmod-lt,
}
use mathlib.Core.Path.{subst}

-- The string at `a` is in one of the chains.
abbrev pub IsHeld : List (List ℕ) → ℕ → Type 0
IsHeld chains a = (i : ℕ) × InChain chains i a

module _ (heap : List TString) (k : ℕ) where
  abbrev place : ℕ → ℕ
  place a = lmod (string_at heap a).hash (2 ^ k)

  length-rehash_chain :
      (new : List (List ℕ)) (chain : List ℕ)
      → length (rehash_chain heap (2 ^ k) new chain) ≡ length new
  unfolding rehash_chain
  length-rehash_chain new [] = refl
  length-rehash_chain new (a ∷ chain) =
      length-rehash_chain (push new (place a) a) chain ∙ length-push new (place a) a

  -- `place a` is a chain of the new table, and stays one.
  place-lt : (new : List (List ℕ)) (a : ℕ) → length new ≡ 2 ^ k → place a < length new
  place-lt new a e = rw e (lmod-lt k (string_at heap a).hash)

  rehash_chain-old :
      (new : List (List ℕ)) (chain : List ℕ) (i b : ℕ)
      → length new ≡ 2 ^ k
      → InChain new i b
      → InChain (rehash_chain heap (2 ^ k) new chain) i b
  unfolding rehash_chain
  rehash_chain-old new [] i b e h = h
  rehash_chain-old new (a ∷ chain) i b e h =
      rehash_chain-old (push new (place a) a) chain i b (length-push new (place a) a ∙ e)
        (push-old new (place a) a i b (place-lt new a e) h)

  rehash_chain-new :
      (new : List (List ℕ)) (chain : List ℕ) (b : ℕ)
      → length new ≡ 2 ^ k
      → In b chain
      → InChain (rehash_chain heap (2 ^ k) new chain) (place b) b
  unfolding rehash_chain
  rehash_chain-new new [] b e h = absurd h
  rehash_chain-new new (a ∷ chain) b e (inl b_a) =
      subst (λ c. InChain (rehash_chain heap (2 ^ k) new (a ∷ chain)) (place c) c) (sym b_a)
        (rehash_chain-old (push new (place a) a) chain (place a) a (length-push new (place a) a ∙ e)
          (push-new new (place a) a (place-lt new a e)))
  rehash_chain-new new (a ∷ chain) b e (inr h) =
      rehash_chain-new (push new (place a) a) chain b (length-push new (place a) a ∙ e) h

  rehash_chain-only :
      (new : List (List ℕ)) (chain : List ℕ) (i b : ℕ)
      → length new ≡ 2 ^ k
      → InChain (rehash_chain heap (2 ^ k) new chain) i b
      → (In b chain × (i ≡ place b)) ⊎ InChain new i b
  unfolding rehash_chain
  rehash_chain-only new [] i b e h = inr h
  rehash_chain-only new (a ∷ chain) i b e h =
      elim (rehash_chain-only (push new (place a) a) chain i b (length-push new (place a) a ∙ e)
        h) [
          | inl (b_in, i_b) ↦ inl (inr b_in, i_b)
          | inr pushed ↦ elim (push-only new (place a) a i b (place-lt new a e) pushed) [
            | inl (b_a, i_a) ↦ inl (inl b_a, i_a ∙ ap place (sym b_a))
            | inr older ↦ inr older
          ]
        ]

  length-rehash :
      (new chains : List (List ℕ)) → length (rehash heap (2 ^ k) new chains) ≡ length new
  unfolding rehash
  length-rehash new [] = refl
  length-rehash new (chain ∷ chains) =
      length-rehash (rehash_chain heap (2 ^ k) new chain) chains ∙ length-rehash_chain new chain

  rehash-old :
      (new chains : List (List ℕ)) (i b : ℕ)
      → length new ≡ 2 ^ k
      → InChain new i b
      → InChain (rehash heap (2 ^ k) new chains) i b
  unfolding rehash
  rehash-old new [] i b e h = h
  rehash-old new (chain ∷ chains) i b e h =
      rehash-old (rehash_chain heap (2 ^ k) new chain) chains i b
        (length-rehash_chain new chain ∙ e) (rehash_chain-old new chain i b e h)

  rehash-new :
      (new chains : List (List ℕ)) (j b : ℕ)
      → length new ≡ 2 ^ k
      → InChain chains j b
      → InChain (rehash heap (2 ^ k) new chains) (place b) b
  unfolding rehash
  rehash-new new [] j b e h = absurd h
  rehash-new new (chain ∷ chains) zero b e h =
      rehash-old (rehash_chain heap (2 ^ k) new chain) chains (place b) b
        (length-rehash_chain new chain ∙ e) (rehash_chain-new new chain b e h)
  rehash-new new (chain ∷ chains) (suc j) b e h =
      rehash-new (rehash_chain heap (2 ^ k) new chain) chains j b
        (length-rehash_chain new chain ∙ e) h

  rehash-only :
      (new chains : List (List ℕ)) (i b : ℕ)
      → length new ≡ 2 ^ k
      → InChain (rehash heap (2 ^ k) new chains) i b
      → (IsHeld chains b × (i ≡ place b)) ⊎ InChain new i b
  unfolding rehash
  rehash-only new [] i b e h = inr h
  rehash-only new (chain ∷ chains) i b e h =
      elim (rehash-only (rehash_chain heap (2 ^ k) new chain) chains i b
        (length-rehash_chain new chain ∙ e) h) [
          | inl ((j, b_in), i_b) ↦ inl ((suc j, b_in), i_b)
          | inr one ↦ elim (rehash_chain-only new chain i b e one) [
            | inl (b_in, i_b) ↦ inl ((zero, b_in), i_b)
            | inr older ↦ inr older
          ]
        ]

  -- What the new table has, once it has taken the strings of the old one.
  abbrev new_chains : List (List ℕ) → List (List ℕ)
  new_chains chains = rehash heap (2 ^ k) (replicate (2 ^ k) []) chains

  moved-only :
      (chains : List (List ℕ)) (i b : ℕ)
      → InChain (new_chains chains) i b
      → IsHeld chains b × (i ≡ place b)
  moved-only chains i b h =
      elim (rehash-only (replicate (2 ^ k) []) chains i b (length-replicate (2 ^ k)) h) [
        | inl moved ↦ moved
        | inr empty ↦ absurd (empty-In (2 ^ k) i b empty)
      ]

  moved-IsHeld : (chains : List (List ℕ)) (b : ℕ) → IsHeld chains b → IsHeld (new_chains chains) b
  moved-IsHeld chains b (j, h) =
      (place b, rehash-new (replicate (2 ^ k) []) chains j b (length-replicate (2 ^ k)) h)

-- The table of strings is in order: its size is a power of two, every string is in the chain of its hash, and no two
-- of its strings have the same bytes.
pub record IsTable (g : GlobalState) : Type 0 where
  pub k : ℕ
  pub size-pow : g.size ≡ 2 ^ k
  pub size-chains : length g.chains ≡ g.size
  pub in_heap : (i a : ℕ) → InChain g.chains i a → a < length g.heap
  pub hashed :
      (i a : ℕ)
      → InChain g.chains i a
      → (string_at g.heap a).hash ≡ hash_of (string_at g.heap a).value
  pub placed : (i a : ℕ) → InChain g.chains i a → i ≡ lmod (string_at g.heap a).hash g.size
  pub unique :
      (i j a b : ℕ)
      → InChain g.chains i a
      → InChain g.chains j b
      → (string_at g.heap a).value ≡ (string_at g.heap b).value
      → a ≡ b

moved-IsTable :
    (g : GlobalState) (n : ℕ)
    → IsTable g
    → IsTable (record g { chains = new_chains g.heap n g.chains; size = 2 ^ n })
moved-IsTable g n t =
    let old : (i a : ℕ) → InChain (new_chains g.heap n g.chains) i a → IsHeld g.chains a =
      λ i a h. (moved-only g.heap n g.chains i a h).0 in
    record {
      k = n;
      size-pow = refl;
      size-chains =
          length-rehash g.heap n (replicate (2 ^ n) []) g.chains ∙ length-replicate (2 ^ n);
      in_heap = λ i a h. t.in_heap (old i a h).0 a (old i a h).1;
      hashed = λ i a h. t.hashed (old i a h).0 a (old i a h).1;
      placed = λ i a h. (moved-only g.heap n g.chains i a h).1;
      unique = λ i j a b ha hb e.
          t.unique (old i a ha).0 (old j b hb).0 a b (old i a ha).1 (old j b hb).1 e;
    }

-- `luaS_resize` to any power of two keeps the table in order.
pub resize-IsTable : (g : GlobalState) (n : ℕ) → IsTable g → IsTable (resize (2 ^ n) g)
unfolding resize
resize-IsTable g n t = elim (Bool-cases (g.gcstate == gcs_sweepstring)) [
  | inl e ↦ rw e t
  | inr e ↦ rw e (moved-IsTable g n t)
]

-- `luaS_resize` to any power of two loses no string of the table, and adds none.
pub resize-IsHeld :
    (g : GlobalState) (n a : ℕ)
    → (IsHeld g.chains a → IsHeld (resize (2 ^ n) g).chains a)
      × (IsHeld (resize (2 ^ n) g).chains a → IsHeld g.chains a)
unfolding resize
resize-IsHeld g n a = elim (Bool-cases (g.gcstate == gcs_sweepstring)) [
  | inl e ↦ rw e ((λ h. h), (λ h. h))
  | inr e ↦
      rw e ((moved-IsHeld g.heap n g.chains a), (λ (i, h). (moved-only g.heap n g.chains i a h).0))
]

pub resize-heap : (g : GlobalState) (n : ℕ) → (resize n g).heap ≡ g.heap
unfolding resize
resize-heap g n = elim (Bool-cases (g.gcstate == gcs_sweepstring)) [
  | inl e ↦ rw e refl
  | inr e ↦ rw e refl
]
