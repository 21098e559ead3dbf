-- ===== src/Func/Values.antt =====
-- `luaF_close` (lua-5.1.5/src/lfunc.c) and the values that closures see.
use mathlib.Core.Path.{subst}
use unitu_lua_test.Base.{
  ℕ, zero, suc, ◌≤◌, ◌<◌, ◌≡◌, ◌≢◌, ◌⊎◌, refl, ap, ◌∙◌, sym, arith, List, [], ◌∷◌, length, get_or,
  get_elem?, Option, none, some, leb, ◌==◌, inl, inr, false, Bool-cases, leb→le,
}
use unitu_lua_test.Func.{
  Slot, on_stack, own, Heap, State, slot_at, slot_level, open_level, dead_at, close_one, close_loop,
  close,
}
use unitu_lua_test.Func.Open.{Descends, IsValid, open_level-slot_at}
use unitu_lua_test.Func.Close.{
  Writes, closed_slot, close_one-Writes, close_loop-above, close_loop-below, lower_ne,
  Writes-Descends,
}

module _ {V : Type 0} where
  -- What an upvalue reads: `*uv->v`, or nothing for a freed one.
  unfoldable pub slot_value : V → List V → Option (Slot V) → Option V
  slot_value d stack none = none
  slot_value d stack (some (on_stack l)) = some (get_or stack l d)
  slot_value d stack (some (own x)) = some x

  unfoldable pub value_at : V → State V → ℕ → Option V
  value_at d s p = slot_value d s.stack (slot_at s.heap p)

  slot_level-inv : (o : Option (Slot V)) (l : ℕ) → slot_level o ≡ some l → o ≡ some (on_stack l)
  unfolding slot_level
  slot_level-inv none l e = absurd cc
  slot_level-inv (some (on_stack k)) l e = cc
  slot_level-inv (some (own x)) l e = absurd cc

  -- An upvalue that `luaF_close` does not free.
  Stays : State V → ℕ → Type 0
  Stays s p = (dead_at s p ≡ false) ⊎ (open_level s.heap p ≡ none)

  record Step (d : V) (s s' : State V) (p : ℕ) : Type 0 where
    value : value_at d s' p ≡ value_at d s p
    stays : Stays s' p

  own-Step :
      (d : V) (s s' : State V) (uv l : ℕ)
      → open_level s.heap uv ≡ some l
      → slot_at s'.heap uv ≡ some (own (get_or s.stack l d))
      → Step d s s' uv
  unfolding value_at Stays
  own-Step d s s' uv l at_l here =
      let before : slot_at s.heap uv ≡ some (on_stack l) =
        slot_level-inv _ l (unfold open_level in at_l) in
      record {
        value = rw (here, before) (unfold slot_value in refl);
        stays = inr (unfold open_level slot_level in ap slot_level here);
      }

  other-Step :
      (d : V) (s s' : State V) (uv p : ℕ) (next : List ℕ) (x : Option (Slot V))
      → Writes s uv next x s'
      → uv ≢ p
      → Stays s p
      → Step d s s' p
  unfolding value_at Stays
  other-Step d s s' uv p next x w ne stays = record {
    value = rw (w.others p ne, w.stack) refl;
    stays = elim stays [
      | inl live ↦ inl (w.other_dead p ne ∙ live)
      | inr shut ↦ inr (open_level-slot_at s.heap s'.heap p (w.others p ne) ∙ shut)
    ];
  }

  live_slot :
      (d : V) (s : State V) (uv l : ℕ)
      → dead_at s uv ≡ false
      → closed_slot d s uv l ≡ some (own (get_or s.stack l d))
  unfolding closed_slot
  live_slot d s uv l live = rw (live) refl

  self-Step :
      (d : V) (s : State V) (uv l p : ℕ) (next : List ℕ)
      → uv ≡ p
      → open_level s.heap uv ≡ some l
      → Stays s p
      → Step d s (close_one d s uv next) p
  unfolding Stays
  self-Step d s uv l p next e at_l (inl live) =
      let w = close_one-Writes d s uv l next at_l in
      let live' : dead_at s uv ≡ false = ap (dead_at s) e ∙ live in
      subst (λ q. Step d s (close_one d s uv next) q) e
        (own-Step d s _ uv l at_l (w.here ∙ live_slot d s uv l live'))
  self-Step d s uv l p next e at_l (inr shut) =
      absurd (let both : some l ≡ none = sym at_l ∙ ap (open_level s.heap) e ∙ shut in cc)

  close_one-Step :
      (d : V) (s : State V) (uv l p : ℕ) (next : List ℕ)
      → open_level s.heap uv ≡ some l
      → Stays s p
      → Step d s (close_one d s uv next) p
  close_one-Step d s uv l p next at_l stays =
      let w = close_one-Writes d s uv l next at_l in
      elim (Bool-cases (uv == p)) [
        | inl same ↦ self-Step d s uv l p next (ground arith) at_l stays
        | inr other ↦ other-Step d s _ uv p next _ w (ground arith) stays
      ]

  close_loop-value_at :
      (d : V) (s : State V) (level bound : ℕ) (ps : List ℕ) (p : ℕ)
      → Descends s.heap bound ps
      → Stays s p
      → value_at d (close_loop d s level ps) p ≡ value_at d s p
  unfolding Descends
  close_loop-value_at d s level bound [] p desc stays = unfold close_loop in refl
  close_loop-value_at d s level bound (uv ∷ next) p (l, at_l, lt, desc) stays =
      elim (Bool-cases (leb level l)) [
        | inl above ↦
            let w = close_one-Writes d s uv l next at_l in
            let step = close_one-Step d s uv l p next at_l stays in
            rw (close_loop-above d s level uv l next at_l (leb→le level l above)) (
              close_loop-value_at d (close_one d s uv next) level l next p
                (Writes-Descends s _ uv l next _ w at_l desc) step.stays
              ∙ step.value)
        | inr below ↦ rw (close_loop-below d s level uv l next at_l (ground arith)) refl
      ]

  -- Closing does not change what a closure reads: an upvalue that the collector has not found dead
  -- has the value that it had. The list of open upvalues is sorted before.
  pub close-value_at :
      (d : V) (s : State V) (level p : ℕ)
      → IsValid s
      → dead_at s p ≡ false
      → value_at d (close d s level) p ≡ value_at d s p
  unfolding close
  close-value_at d s level p v live =
      close_loop-value_at d s level (length s.stack) s.openupval p v.sorted
        (unfold Stays in inl live)

  -- A closed upvalue is not written again.
  close_loop-shut :
      (d : V) (s : State V) (level bound : ℕ) (ps : List ℕ) (p : ℕ)
      → Descends s.heap bound ps
      → open_level s.heap p ≡ none
      → slot_at (close_loop d s level ps).heap p ≡ slot_at s.heap p
  unfolding Descends
  close_loop-shut d s level bound [] p desc shut = unfold close_loop in refl
  close_loop-shut d s level bound (uv ∷ next) p (l, at_l, lt, desc) shut =
      elim (Bool-cases (leb level l)) [
        | inl above ↦
            let w = close_one-Writes d s uv l next at_l in
            let ne : uv ≢ p = λ e.
              absurd
                (let both : some l ≡ none = sym at_l ∙ ap (open_level s.heap) e ∙ shut in cc) in
            rw (close_loop-above d s level uv l next at_l (leb→le level l above)) (
              close_loop-shut d (close_one d s uv next) level l next p
                (Writes-Descends s _ uv l next _ w at_l desc)
                (open_level-slot_at s.heap _ p (w.others p ne) ∙ shut)
              ∙ w.others p ne)
        | inr below ↦ rw (close_loop-below d s level uv l next at_l (ground arith)) refl
      ]

  listed-lt :
      (h : Heap V) (bound : ℕ) (ps : List ℕ) (i p k : ℕ)
      → Descends h bound ps
      → get_elem? ps i ≡ some p
      → open_level h p ≡ some k
      → k < bound
  unfolding Descends
  listed-lt h bound [] i p k desc at_i at_p = absurd cc
  listed-lt h bound (q ∷ ps) zero p k (l, at_l, lt, desc) at_i at_p =
      let q_p : q ≡ p = cc in
      let same : some l ≡ some k = sym at_l ∙ ap (open_level h) q_p ∙ at_p in
      let l_k : l ≡ k = cc in omega arith
  listed-lt h bound (q ∷ ps) (suc i) p k (l, at_l, lt, desc) at_i at_p =
      let below = listed-lt h l ps i p k desc at_i at_p in omega arith

  close_head-own :
      (d : V) (s : State V) (level q l : ℕ) (ps : List ℕ)
      → open_level s.heap q ≡ some l
      → Descends s.heap l ps
      → level ≤ l
      → dead_at s q ≡ false
      → slot_at (close_loop d s level (q ∷ ps)).heap q ≡ some (own (get_or s.stack l d))
  close_head-own d s level q l ps at_l desc le live =
      let w = close_one-Writes d s q l ps at_l in
      let here = w.here ∙ live_slot d s q l live in
      rw (close_loop-above d s level q l ps at_l le) (
        close_loop-shut d (close_one d s q ps) level l ps q
          (Writes-Descends s _ q l ps _ w at_l desc)
          (unfold open_level slot_level in ap slot_level here)
        ∙ here)

  close_loop-own :
      (d : V) (s : State V) (level bound : ℕ) (ps : List ℕ) (i p k : ℕ)
      → Descends s.heap bound ps
      → get_elem? ps i ≡ some p
      → open_level s.heap p ≡ some k
      → level ≤ k
      → dead_at s p ≡ false
      → slot_at (close_loop d s level ps).heap p ≡ some (own (get_or s.stack k d))
  unfolding Descends
  close_loop-own d s level bound [] i p k desc at_i at_p le live = absurd cc
  close_loop-own d s level bound (q ∷ ps) zero p k (l, at_l, lt, desc) at_i at_p le live =
      let q_p : q ≡ p = cc in
      let same : some l ≡ some k = sym at_l ∙ ap (open_level s.heap) q_p ∙ at_p in
      let l_k : l ≡ k = cc in
      let own_q =
        close_head-own d s level q l ps at_l desc (omega arith) (ap (dead_at s) q_p ∙ live) in
      ap (λ r. slot_at (close_loop d s level (q ∷ ps)).heap r) (sym q_p)
      ∙ own_q
      ∙ ap (λ r. some (own (get_or s.stack r d))) l_k
  close_loop-own d s level bound (q ∷ ps) (suc i) p k (l, at_l, lt, desc) at_i at_p le live =
      let w = close_one-Writes d s q l ps at_l in
      let below = listed-lt s.heap l ps i p k desc at_i at_p in
      let ne = lower_ne s.heap q p l k at_l at_p below in
      rw (close_loop-above d s level q l ps at_l (omega arith)) (
        close_loop-own d (close_one d s q ps) level l ps i p k
          (Writes-Descends s _ q l ps _ w at_l desc) at_i
          (open_level-slot_at s.heap _ p (w.others p ne) ∙ at_p) le (w.other_dead p ne ∙ live)
        ∙ ap (λ (v : List V). some (own (get_or v k d))) w.stack)

  -- Every live upvalue of the sorted list that is at the given slot or above it gets its own copy of
  -- the value on the stack.
  pub close-slot_at :
      (d : V) (s : State V) (level i p k : ℕ)
      → IsValid s
      → get_elem? s.openupval i ≡ some p
      → open_level s.heap p ≡ some k
      → level ≤ k
      → dead_at s p ≡ false
      → slot_at (close d s level).heap p ≡ some (own (get_or s.stack k d))
  unfolding close
  close-slot_at d s level i p k v at_i at_p le live =
      close_loop-own d s level (length s.stack) s.openupval i p k v.sorted at_i at_p le live
