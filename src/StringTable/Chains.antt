-- ===== src/StringTable/Chains.antt =====
-- Which addresses the chains of the table of strings (lua-5.1.5/src/lstring.c) have.
use unitu_lua_test.Base.Distinct.{eq_or_ne}
use unitu_lua_test.Base.{
  ℕ, zero, suc, ◌^◌, ◌<◌, ◌≡◌, refl, ap, sym, ◌∙◌, arith, ◌⊎◌, inl, inr, List, [], ◌∷◌, length,
  length-set, set, get_or-set_self, get_or-set_ne, replicate,
}
use unitu_lua_test.Base.Bits.{bit_and-ones}
use unitu_lua_test.StringTable.{lmod, chain_at, push}
use mathlib.Core.Path.{subst}
use native.Mathlib.Nat.{mod-lt, one-le-pow}

-- `a` is in a chain.
abbrev pub In : ℕ → List ℕ → Type 0
In a [] = ⊥
In a (b ∷ bs) = (a ≡ b) ⊎ In a bs

-- `a` is in the chain `i`.
abbrev pub InChain : List (List ℕ) → ℕ → ℕ → Type 0
InChain chains i a = In a (chain_at chains i)

pub length-push : (chains : List (List ℕ)) (h a : ℕ) → length (push chains h a) ≡ length chains
unfolding push
length-push chains h a = length-set chains h (a ∷ chain_at chains h)

-- What `push` adds, and that it adds nothing else.
pub push-new :
    (chains : List (List ℕ)) (h a : ℕ) → h < length chains → InChain (push chains h a) h a
unfolding push
push-new chains h a lt = rw (get_or-set_self chains h (a ∷ chain_at chains h) [] lt) (inl refl)

pub push-old :
    (chains : List (List ℕ)) (h a i b : ℕ)
    → h < length chains
    → InChain chains i b
    → InChain (push chains h a) i b
unfolding push
push-old chains h a i b lt b_in = elim (eq_or_ne h i) [
  | inl e ↦
      subst (λ j. InChain (set chains h (a ∷ chain_at chains h)) j b) e
        (rw (get_or-set_self chains h (a ∷ chain_at chains h) [] lt)
          (inr (subst (λ j. InChain chains j b) (sym e) b_in)))
  | inr ne ↦ rw (get_or-set_ne chains h i (a ∷ chain_at chains h) [] ne) b_in
]

pub push-only :
    (chains : List (List ℕ)) (h a i b : ℕ)
    → h < length chains
    → InChain (push chains h a) i b
    → ((b ≡ a) × (i ≡ h)) ⊎ InChain chains i b
unfolding push
push-only chains h a i b lt b_in = elim (eq_or_ne h i) [
  | inl e ↦ elim (head e) [
    | inl b_a ↦ inl (b_a, sym e)
    | inr older ↦ inr (subst (λ j. InChain chains j b) e older)
  ]
  | inr ne ↦ inr (subst (In b) (get_or-set_ne chains h i (a ∷ chain_at chains h) [] ne) b_in)
]
  where
    head : h ≡ i → In b (a ∷ chain_at chains h)
    head e =
        subst (In b)
          (ap (chain_at (set chains h (a ∷ chain_at chains h))) (sym e)
            ∙ get_or-set_self chains h (a ∷ chain_at chains h) [] lt)
          b_in

-- An empty table
pub empty-In : (n i a : ℕ) → InChain (replicate n []) i a → ⊥
empty-In zero i a h = h
empty-In (suc n) zero a h = h
empty-In (suc n) (suc i) a h = empty-In n i a h

pub length-replicate : (n : ℕ) → length (replicate {A = List ℕ} n []) ≡ n
length-replicate zero = refl
length-replicate (suc n) = ap suc (length-replicate n)

pub lmod-lt : (k s : ℕ) → lmod s (2 ^ k) < 2 ^ k
unfolding lmod
lmod-lt k s = rw (bit_and-ones k s) (mod-lt s (one-le-pow k 2 (omega arith)))
