-- ===== src/StringTable/Added.antt =====
-- A search in the table of strings (lua-5.1.5/src/lstring.c), and a new string in it.
use unitu_lua_test.Base.Distinct.{eq_or_ne}
use unitu_lua_test.Base.{
  ℕ, ◌+◌, ◌%◌, ◌^◌, ◌<◌, ◌≤◌, ◌≡◌, ◌≢◌, refl, ap, sym, ◌∙◌, arith, ==_iff, true, false, Bool-cases,
  ◌⊎◌, inl, inr, List, [], ◌∷◌, ◌++◌, length, length-append, length-set, set, get_or-set_self,
  get_or-set_ne, none, some,
}
use unitu_lua_test.Chunk.Dump.{same_bytes}
use unitu_lua_test.Chunk.Received.{same_bytes-eq}
use unitu_lua_test.Func.Open.{get_or-append_lt, get_or-append_end}
use unitu_lua_test.StringTable.{
  TString, GlobalState, nowhere, string_at, lmod, push, hash_of, search,
}
use unitu_lua_test.StringTable.Chains.{In, InChain, length-push, push-old, push-only, lmod-lt}
use unitu_lua_test.StringTable.Resize.{IsHeld, IsTable}
use mathlib.Core.Path.{subst}
use mathlib.Core.Option.{some-injective, none-ne-some}

-- The bytes of the string at an address
abbrev pub value_at : GlobalState → ℕ → List ℕ
value_at g a = (string_at g.heap a).value

pub same_bytes_self : (a : List ℕ) → same_bytes a a ≡ true
unfolding same_bytes
same_bytes_self [] = refl
same_bytes_self (x ∷ a) = rw ((==_iff x x).1 refl, same_bytes_self a) refl

search-hit :
    (heap : List TString) (str chain : List ℕ) (b : ℕ)
    → same_bytes str (string_at heap b).value ≡ true
    → search heap str (b ∷ chain) ≡ some b
unfolding search
search-hit heap str chain b e = rw e refl

search-miss :
    (heap : List TString) (str chain : List ℕ) (b : ℕ)
    → same_bytes str (string_at heap b).value ≡ false
    → search heap str (b ∷ chain) ≡ search heap str chain
unfolding search
search-miss heap str chain b e = rw e refl

-- What the search in a chain finds, and what it does not.
pub search-some :
    (heap : List TString) (str chain : List ℕ) (a : ℕ)
    → search heap str chain ≡ some a
    → In a chain × ((string_at heap a).value ≡ str)
unfolding search
search-some heap str [] a h = cc
search-some heap str (b ∷ chain) a h = elim (Bool-cases (same_bytes str (string_at heap b).value)) [
  | inl e ↦
      let b_a = some-injective b a (sym (search-hit heap str chain b e) ∙ h) in
      (
        inl (sym b_a),
        sym (
            same_bytes-eq str (string_at heap a).value
              (subst (λ c. same_bytes str (string_at heap c).value ≡ true) b_a e)),
      )
  | inr e ↦
      let (a_in, same) = search-some heap str chain a (sym (search-miss heap str chain b e) ∙ h) in
      (inr a_in, same)
]

pub search-none :
    (heap : List TString) (str chain : List ℕ) (a : ℕ)
    → search heap str chain ≡ none
    → In a chain
    → (string_at heap a).value ≢ str
unfolding search
search-none heap str [] a h a_in = absurd a_in
search-none heap str (b ∷ chain) a h a_in =
    elim (Bool-cases (same_bytes str (string_at heap b).value)) [
      | inl e ↦ absurd (none-ne-some b (sym h ∙ search-hit heap str chain b e))
      | inr e ↦ elim a_in [
        | inl a_b ↦ λ same.
            let f : same_bytes str str ≡ false =
              subst (λ v. same_bytes str v ≡ false)
                (ap (λ c. (string_at heap c).value) (sym a_b) ∙ same) e in
            let t = same_bytes_self str in cc
        | inr later ↦ search-none heap str chain a (sym (search-miss heap str chain b e) ∙ h) later
      ]
    ]

-- What a step on the heap of strings leaves as it was.
pub record SameStrings (heap heap' : List TString) : Type 0 where
  pub kept_length : length heap ≤ length heap'
  pub kept_hash : (b : ℕ) → b < length heap → (string_at heap' b).hash ≡ (string_at heap b).hash
  pub kept_value : (b : ℕ) → b < length heap → (string_at heap' b).value ≡ (string_at heap b).value

pub set-SameStrings :
    (heap : List TString) (a m : ℕ)
    → a < length heap
    → SameStrings heap (set heap a (record (string_at heap a) { marked = m }))
set-SameStrings heap a m lt =
    let ts = record (string_at heap a) { marked = m } in
    record {
      kept_length = rw (length-set heap a ts) (omega arith);
      kept_hash = λ b _. elim (eq_or_ne a b) [
        | inl e ↦
            ap (λ (t : TString). t.hash)
              (ap (string_at (set heap a ts)) (sym e) ∙ get_or-set_self heap a ts nowhere lt)
            ∙ ap (λ b. (string_at heap b).hash) e
        | inr ne ↦ ap (λ (t : TString). t.hash) (get_or-set_ne heap a b ts nowhere ne)
      ];
      kept_value = λ b _. elim (eq_or_ne a b) [
        | inl e ↦
            ap (λ (t : TString). t.value)
              (ap (string_at (set heap a ts)) (sym e) ∙ get_or-set_self heap a ts nowhere lt)
            ∙ ap (λ b. (string_at heap b).value) e
        | inr ne ↦ ap (λ (t : TString). t.value) (get_or-set_ne heap a b ts nowhere ne)
      ];
    }

pub append-SameStrings : (heap : List TString) (ts : TString) → SameStrings heap (heap ++ (ts ∷ []))
append-SameStrings heap ts = record {
  kept_length = rw (length-append heap (ts ∷ [])) (omega arith);
  kept_hash = λ b lt. ap (λ (t : TString). t.hash) (get_or-append_lt heap (ts ∷ []) b nowhere lt);
  kept_value = λ b lt. ap (λ (t : TString). t.value) (get_or-append_lt heap (ts ∷ []) b nowhere lt);
}

module _ (g : GlobalState) (t : IsTable g) where
  -- Strings with other marks, and more of them
  pub same-IsTable :
      (heap : List TString) → SameStrings g.heap heap → IsTable (record g { heap = heap })
  same-IsTable heap same =
      let old = t.in_heap in
      record {
        k = t.k;
        size-pow = t.size-pow;
        size-chains = t.size-chains;
        in_heap = λ i a h. (let lt = old i a h in let more = same.kept_length in omega arith);
        hashed = λ i a h.
            same.kept_hash a (old i a h)
            ∙ t.hashed i a h
            ∙ ap hash_of (sym (same.kept_value a (old i a h)));
        placed =
            λ i a h. t.placed i a h ∙ ap (λ s. lmod s g.size) (sym (same.kept_hash a (old i a h)));
        unique = λ i j a b ha hb e.
            t.unique i j a b ha hb
              (sym (same.kept_value a (old i a ha)) ∙ e ∙ same.kept_value b (old j b hb));
      }

  -- The chain of a string that is held
  pub found-IsHeld :
      (str : List ℕ) (i a : ℕ)
      → InChain g.chains i a
      → value_at g a ≡ str
      → InChain g.chains (lmod (hash_of str) g.size) a
  found-IsHeld str i a h e =
      subst (λ j. InChain g.chains j a)
        (t.placed i a h ∙ ap (λ s. lmod s g.size) (t.hashed i a h ∙ ap hash_of e)) h

  -- The string is new, and gets the next address.
  module _ (ts : TString) (new : (b : ℕ) → IsHeld g.chains b → value_at g b ≢ ts.value)
      (hashed : ts.hash ≡ hash_of ts.value) where
    abbrev pub added : GlobalState
    added = record g {
      heap = g.heap ++ (ts ∷ []);
      chains = push g.chains (lmod ts.hash g.size) (length g.heap);
      nuse = (g.nuse + 1) % 2 ^ 32;
    }

    pub place_lt : lmod ts.hash g.size < length g.chains
    place_lt = rw (t.size-chains, t.size-pow) (lmod-lt t.k ts.hash)

    added-only :
        (i b : ℕ)
        → InChain added.chains i b
        → ((b ≡ length g.heap) × (i ≡ lmod ts.hash g.size)) ⊎ InChain g.chains i b
    added-only i b = push-only g.chains (lmod ts.hash g.size) (length g.heap) i b place_lt

    pub added-IsHeld : (b : ℕ) → IsHeld g.chains b → IsHeld added.chains b
    added-IsHeld b (i, h) =
        (i, push-old g.chains (lmod ts.hash g.size) (length g.heap) i b place_lt h)

    pub at_end : (b : ℕ) → b ≡ length g.heap → string_at added.heap b ≡ ts
    at_end b e = ap (string_at added.heap) e ∙ get_or-append_end g.heap ts nowhere

    -- The new string differs from each that is held.
    added-ne :
        (i a b : ℕ) → InChain g.chains i a → b ≡ length g.heap → value_at added a ≢ value_at added b
    added-ne i a b h e same =
        new a (i, h)
          (sym ((append-SameStrings g.heap ts).kept_value a (t.in_heap i a h))
            ∙ same
            ∙ ap (λ (s : TString). s.value) (at_end b e))

    pub added-IsTable : IsTable added
    added-IsTable =
        let same = append-SameStrings g.heap ts in
        let t' = same-IsTable (g.heap ++ (ts ∷ [])) same in
        record {
          k = t.k;
          size-pow = t.size-pow;
          size-chains = length-push g.chains (lmod ts.hash g.size) (length g.heap) ∙ t.size-chains;
          in_heap = λ i b h. elim (added-only i b h) [
            | inl (e, _) ↦ rw (length-append g.heap (ts ∷ [])) (omega arith)
            | inr old ↦ t'.in_heap i b old
          ];
          hashed = λ i b h. elim (added-only i b h) [
            | inl (e, _) ↦
                ap (λ (s : TString). s.hash) (at_end b e)
                ∙ hashed
                ∙ ap (λ (s : TString). hash_of s.value) (sym (at_end b e))
            | inr old ↦ t'.hashed i b old
          ];
          placed = λ i b h. elim (added-only i b h) [
            | inl (e, i_b) ↦ i_b ∙ ap (λ (s : TString). lmod s.hash g.size) (sym (at_end b e))
            | inr old ↦ t'.placed i b old
          ];
          unique = λ i j a b ha hb e. elim (added-only i a ha) [
            | inl (a_new, _) ↦ elim (added-only j b hb) [
              | inl (b_new, _) ↦ a_new ∙ sym b_new
              | inr b_old ↦ absurd (added-ne j b a b_old a_new (sym e))
            ]
            | inr a_old ↦ elim (added-only j b hb) [
              | inl (b_new, _) ↦ absurd (added-ne i a b a_old b_new e)
              | inr b_old ↦ t'.unique i j a b a_old b_old e
            ]
          ];
        }
