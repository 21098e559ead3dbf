-- ===== src/Func/Colour.antt =====
-- `luaF_findupval` (lua-5.1.5/src/lfunc.c) and the marks of the collector (lua-5.1.5/src/lgc.h).
use unitu_lua_test.Base.{
  ℕ, zero, suc, ◌<◌, ◌≡◌, ◌≢◌, ◌⊎◌, refl, ap, ◌∙◌, sym, arith, length, get_or, set, Option, none,
  some, leb, ◌==◌, ◌&&◌, ◌||◌, not, inl, inr, Bool, true, false, Bool-cases, bit_and,
  get_or-set_self,
}
use unitu_lua_test.Func.{
  UpVal, State, Search, hit, place, isdead, changewhite, white, whitebits, mark_of, dead_at,
  resurrect, search_open, found, findupval, on_stack,
}
use unitu_lua_test.Func.Open.{get_or-append_end, get_or-past}

-- Of a mark with one white at most: the other white makes a dead object live.
turns_live : ℕ → Bool
turns_live m =
    (bit_and m whitebits == 3)
    || ((not (isdead 33 m) || not (isdead 33 (changewhite m)))
        && (not (isdead 34 m) || not (isdead 34 (changewhite m))))

all_turn_live : ℕ → Bool
all_turn_live zero = true
all_turn_live (suc n) = turns_live n && all_turn_live n

all_turn_live-turns_live : (n m : ℕ) → all_turn_live n ≡ true → m < n → turns_live m ≡ true
unfolding all_turn_live
all_turn_live-turns_live zero m h lt = absurd (omega arith)
all_turn_live-turns_live (suc n) m h lt = ground (arith, all_turn_live-turns_live n m)

bytes_turn_live : all_turn_live 256 ≡ true
unfolding all_turn_live turns_live isdead changewhite
bytes_turn_live = refl

-- What `g->currentwhite` holds: one of the two whites, and the bit FIXEDBIT, which lua_newstate sets and
-- otherwhite keeps.
abbrev pub IsCurrentWhite : ℕ → Type 0
IsCurrentWhite w = (w ≡ 33) ⊎ (w ≡ 34)

-- A mark is a byte, and never has both whites.
pub record IsMark (m : ℕ) : Type 0 where
  pub byte : m < 256
  pub one_white : bit_and m whitebits ≢ 3

pub record IsColoured {V : Type 0} (s : State V) : Type 0 where
  pub current : IsCurrentWhite s.currentwhite
  pub marks : (q : ℕ) → IsMark (mark_of (get_or s.heap q none))

ne_test : (a : ℕ) → a ≢ 3 → (a == 3) ≡ false
ne_test a h = ground arith

read_turns :
    (both a b c d : Bool)
    → (both || ((not a || not b) && (not c || not d))) ≡ true
    → both ≡ false
    → ((a ≡ true) → b ≡ false) × ((c ≡ true) → d ≡ false)
read_turns true a b c d h e = absurd cc
read_turns false true true c d h e = absurd cc
read_turns false true false true true h e = absurd cc
read_turns false true false true false h e = (λ _. refl, λ _. refl)
read_turns false true false false d h e = (λ _. refl, λ k. absurd cc)
read_turns false false b true true h e = absurd cc
read_turns false false b true false h e = (λ k. absurd cc, λ _. refl)
read_turns false false b false d h e = (λ k. absurd cc, λ k. absurd cc)

changewhite-isdead :
    (white m : ℕ)
    → IsCurrentWhite white
    → IsMark m
    → isdead white m ≡ true
    → isdead white (changewhite m) ≡ false
changewhite-isdead white m current mark dead =
    let not_both : (bit_and m whitebits == 3) ≡ false =
      ne_test (bit_and m whitebits) mark.one_white in
    let (at_33, at_34) =
      read_turns (bit_and m whitebits == 3) (isdead 33 m) (isdead 33 (changewhite m)) (isdead 34 m)
        (isdead 34 (changewhite m))
        (unfold turns_live in all_turn_live-turns_live 256 m bytes_turn_live mark.byte) not_both in
    elim current [
      | inl first ↦
          ap (λ w. isdead w (changewhite m)) first ∙ at_33 (ap (λ w. isdead w m) (sym first) ∙ dead)
      | inr second ↦
          ap (λ w. isdead w (changewhite m)) second
          ∙ at_34 (ap (λ w. isdead w m) (sym second) ∙ dead)
    ]

new_live : (white' : ℕ) → IsCurrentWhite white' → isdead white' (white white') ≡ false
unfolding isdead white
new_live w (inl e) = rw (e) refl
new_live w (inr e) = rw (e) refl

zero_live : (w : ℕ) → IsCurrentWhite w → isdead w 0 ≡ false
unfolding isdead
zero_live w (inl e) = rw (e) refl
zero_live w (inr e) = rw (e) refl

module _ {V : Type 0} where
  -- A place that is not in use is not dead.
  dead_at-lt :
      (s : State V) (p : ℕ) → IsCurrentWhite s.currentwhite → dead_at s p ≡ true → p < length s.heap
  unfolding dead_at mark_of
  dead_at-lt s p current dead = elim (Bool-cases (leb (length s.heap) p)) [
    | inl past ↦
        let gone : get_or s.heap p none ≡ none = get_or-past s.heap p none (ground arith) in
        absurd (
          let both : true ≡ false =
            sym dead ∙ ap (λ o. isdead s.currentwhite (mark_of o)) gone ∙ zero_live _ current in
          cc)
    | inr inside ↦ ground arith
  ]

  resurrect-mark_of :
      (p : ℕ) (uv : UpVal V) → mark_of (resurrect p (some uv)) ≡ changewhite (mark_of (some uv))
  unfolding mark_of resurrect
  resurrect-mark_of p uv = refl

  resurrect-dead_at :
      (s : State V) (p : ℕ)
      → IsColoured s
      → dead_at s p ≡ true
      → dead_at (record s { heap = set s.heap p (resurrect p (get_or s.heap p none)) }) p ≡ false
  unfolding dead_at
  resurrect-dead_at s p coloured dead =
      let lt = dead_at-lt s p coloured.current dead in
      ap (λ o. isdead s.currentwhite (mark_of o)) (get_or-set_self s.heap p _ none lt)
      ∙ by_entry (get_or s.heap p none) (coloured.marks p) dead
    where
      by_entry :
          (o : Option (UpVal V))
          → IsMark (mark_of o)
          → isdead s.currentwhite (mark_of o) ≡ true
          → isdead s.currentwhite (mark_of (resurrect p o)) ≡ false
      by_entry none mark e = unfold resurrect mark_of in zero_live s.currentwhite coloured.current
      by_entry (some uv) mark e =
          ap (isdead s.currentwhite) (resurrect-mark_of p uv)
          ∙ changewhite-isdead s.currentwhite _ coloured.current mark e

  found-dead_at :
      (s : State V) (level : ℕ) (r : Search)
      → IsColoured s
      → dead_at (found s level r).1 (found s level r).0 ≡ false
  unfolding found
  found-dead_at s level (hit p) coloured = elim (Bool-cases (dead_at s p)) [
    | inl dead ↦ rw (dead) (resurrect-dead_at s p coloured dead)
    | inr live ↦ rw (live) live
  ]
  found-dead_at s level (place before after) coloured =
      unfold dead_at mark_of in
      ap (λ o. isdead s.currentwhite (mark_of o))
        (get_or-append_end s.heap
          (some (record { marked = white s.currentwhite; v = on_stack level })) none)
      ∙ new_live s.currentwhite coloured.current

  -- The upvalue that `luaF_findupval` returns is not dead for the collector, even where the one that it
  -- found in the list was. The current white is one of the two whites with the bit FIXEDBIT, as lua_newstate sets it and the
  -- collector flips it (not while luaC_freeall runs), and no object has both whites.
  pub findupval-dead_at :
      (s : State V) (level : ℕ)
      → IsColoured s
      → dead_at (findupval s level).1 (findupval s level).0 ≡ false
  unfolding findupval
  findupval-dead_at s level coloured =
      found-dead_at s level (search_open s.heap level s.openupval) coloured
