-- ===== src/StringTable/Intern.antt =====
-- `luaS_newlstr` (lua-5.1.5/src/lstring.c) gives equal strings one address, and different strings different ones.
use unitu_lua_test.Base.{
  ℕ, suc, ◌+◌, ◌-◌, ◌*◌, ◌/◌, ◌^◌, ◌<◌, ◌≡◌, ◌≢◌, ◌↔◌, refl, ap, sym, ◌∙◌, arith, false, Bool-cases,
  inl, inr, ltb, leb, ◌&&◌, List, length, Option, none, some,
}
use unitu_lua_test.Func.{isdead, changewhite, white}
use unitu_lua_test.StringTable.{
  TString, GlobalState, string_at, chain_at, lmod, resize, hash_of, too_big, grow, newlstr, search,
  revive, max_int, luas_newlstr,
}
use unitu_lua_test.StringTable.Chains.{InChain, push-new}
use unitu_lua_test.StringTable.Resize.{IsHeld, IsTable, resize-IsTable, resize-IsHeld, resize-heap}
use unitu_lua_test.StringTable.Added.{
  value_at, search-some, search-none, set-SameStrings, append-SameStrings, same-IsTable,
  found-IsHeld, added, place_lt, added-IsHeld, added-IsTable, at_end,
}
use mathlib.Core.Path.{subst}
use native.Mathlib.Nat.{pow-suc}

-- `a` is the address of `str` in a table that is in order, and every string that was in the table `g` still is, with
-- its bytes.
pub record IsInterned (str : List ℕ) (g : GlobalState) (a : ℕ) (g' : GlobalState) : Type 0 where
  pub in_order : IsTable g'
  pub held : IsHeld g'.chains a
  pub value : value_at g' a ≡ str
  pub keeps : (b : ℕ) → IsHeld g.chains b → IsHeld g'.chains b × (value_at g' b ≡ value_at g b)

resize-IsInterned :
    (str : List ℕ) (g g' : GlobalState) (a n : ℕ)
    → IsInterned str g a g'
    → IsInterned str g a (resize (2 ^ n) g')
resize-IsInterned str g g' a n h =
    let same : (b : ℕ) → value_at (resize (2 ^ n) g') b ≡ value_at g' b =
      λ b. ap (λ heap. (string_at heap b).value) (resize-heap g' (2 ^ n)) in
    record {
      in_order = resize-IsTable g' n h.in_order;
      held = (resize-IsHeld g' n a).0 h.held;
      value = same a ∙ h.value;
      keeps = λ b b_in. ((resize-IsHeld g' n b).0 (h.keeps b b_in).0, same b ∙ (h.keeps b b_in).1);
    }

grow-IsInterned :
    (str : List ℕ) (g g' : GlobalState) (a : ℕ)
    → IsInterned str g a g'
    → IsInterned str g a (grow g')
unfolding grow
grow-IsInterned str g g' a h =
    let double : g'.size * 2 ≡ 2 ^ suc h.in_order.k =
      (let e = h.in_order.size-pow in let p = pow-suc 2 h.in_order.k in omega arith) in
    elim (Bool-cases (ltb g'.size g'.nuse && leb g'.size (max_int / 2))) [
      | inl e ↦ rw (e, double) (resize-IsInterned str g g' a (suc h.in_order.k) h)
      | inr e ↦ rw e h
    ]

found-IsInterned :
    (str : List ℕ) (g : GlobalState) (i a : ℕ)
    → IsTable g
    → InChain g.chains i a
    → value_at g a ≡ str
    → IsInterned str g a (revive a g)
unfolding revive
found-IsInterned str g i a t a_in e =
    let ts = string_at g.heap a in
    let same = set-SameStrings g.heap a (changewhite ts.marked) (t.in_heap i a a_in) in
    elim (Bool-cases (isdead g.currentwhite ts.marked)) [
      | inl dead ↦ rw dead (record {
        in_order = same-IsTable g t _ same;
        held = (i, a_in);
        value = same.kept_value a (t.in_heap i a a_in) ∙ e;
        keeps = λ b (j, b_in). ((j, b_in), same.kept_value b (t.in_heap j b b_in));
      })
      | inr alive ↦
          rw alive
            (record { in_order = t; held = (i, a_in); value = e; keeps = λ b b_in. (b_in, refl) })
    ]

module _ (g : GlobalState) (t : IsTable g) where
  added-IsInterned :
      (ts : TString) (new : (b : ℕ) → IsHeld g.chains b → value_at g b ≢ ts.value)
      (hashed : ts.hash ≡ hash_of ts.value)
      → IsInterned ts.value g (length g.heap) (added g t ts new hashed)
  added-IsInterned ts new hashed = record {
    in_order = added-IsTable g t ts new hashed;
    held = (
      lmod ts.hash g.size,
      push-new g.chains (lmod ts.hash g.size) (length g.heap) (place_lt g t ts new hashed),
    );
    value = ap (λ (s : TString). s.value) (at_end g t ts new hashed (length g.heap) refl);
    keeps = λ b (i, b_in). (
      added-IsHeld g t ts new hashed b (i, b_in),
      (append-SameStrings g.heap ts).kept_value b (t.in_heap i b b_in),
    );
  }

-- The outcome of interning
unfoldable pub Interns : List ℕ → GlobalState → Option (ℕ × GlobalState) → Type 0
Interns str g none = ⊥
Interns str g (some (a, g')) = IsInterned str g a g'

Interns-search :
    (str : List ℕ) (g : GlobalState) (o : Option ℕ) (other : Option (ℕ × GlobalState))
    → ((a : ℕ) → o ≡ some a → IsInterned str g a (revive a g))
    → (o ≡ none → Interns str g other)
    → Interns str g (elim o [ some a ↦ some (a, revive a g) | none ↦ other ])
unfolding Interns
Interns-search str g none other found missing = missing refl
Interns-search str g (some a) other found missing = found a refl

newlstr-Interns :
    (str : List ℕ) (g : GlobalState)
    → IsTable g
    → length str < 2 ^ 64 - 27
    → ((b : ℕ) → IsHeld g.chains b → value_at g b ≢ str)
    → Interns str g (newlstr str (hash_of str) g)
unfolding newlstr Interns too_big
newlstr-Interns str g t fits new =
    let ts : TString = record {
      marked = white g.currentwhite;
      reserved = 0;
      hash = hash_of str;
      value = str;
    } in
    let small : ltb (2 ^ 64 - 3 - 24) (length str + 1) ≡ false = ground arith in
    rw small (
      grow-IsInterned str g (added g t ts new refl) (length g.heap)
        (added-IsInterned g t ts new refl))

-- In a table that is in order, `luaS_newlstr` returns the address of a string with the given bytes, unless they are
-- too many for an object of memory. The table is in order afterwards, so no other of its strings has these bytes,
-- and all the strings that were in it stay, with their bytes.
pub luas_newlstr-IsInterned :
    (str : List ℕ) (g : GlobalState)
    → IsTable g
    → length str < 2 ^ 64 - 27
    → Interns str g (luas_newlstr str g)
unfolding luas_newlstr
luas_newlstr-IsInterned str g t fits =
    let chain = chain_at g.chains (lmod (hash_of str) g.size) in
    Interns-search str g (search g.heap str chain) (newlstr str (hash_of str) g)
      (λ a found.
        let (a_in, same) = search-some g.heap str chain a found in
        found-IsInterned str g (lmod (hash_of str) g.size) a t a_in same)
      (λ missing. newlstr-Interns str g t fits (λ b (i, b_in) same.
        search-none g.heap str chain b missing (found-IsHeld g t str i b b_in same) same))

-- Of two strings that `luaS_newlstr` returns one after the other, from a table that is in order, the addresses are
-- equal just if the strings are. Neither is too long for an object of memory.
pub luas_newlstr-eq :
    (s t : List ℕ) (g g1 g2 : GlobalState) (a b : ℕ)
    → IsTable g
    → length s < 2 ^ 64 - 27
    → length t < 2 ^ 64 - 27
    → luas_newlstr s g ≡ some (a, g1)
    → luas_newlstr t g1 ≡ some (b, g2)
    → (a ≡ b) ↔ (s ≡ t)
unfolding Interns
luas_newlstr-eq s t g g1 g2 a b table s_fits t_fits first second =
    let i1 : IsInterned s g a g1 =
      subst (Interns s g) first (luas_newlstr-IsInterned s g table s_fits) in
    let i2 : IsInterned t g1 b g2 =
      subst (Interns t g1) second (luas_newlstr-IsInterned t g1 i1.in_order t_fits) in
    let (a_in, a_same) = i2.keeps a i1.held in
    (
      (λ e. sym (a_same ∙ i1.value) ∙ ap (value_at g2) e ∙ i2.value),
      (λ e.
          i2.in_order.unique a_in.0 i2.held.0 a b a_in.1 i2.held.1
            (a_same ∙ i1.value ∙ e ∙ sym i2.value)),
    )
