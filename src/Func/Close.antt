-- ===== src/Func/Close.antt =====
-- `luaF_close` (lua-5.1.5/src/lfunc.c): the upvalues from a slot of the stack upwards get values of their own.
use unitu_lua_test.Base.{
  ℕ, ◌≤◌, ◌<◌, ◌≡◌, ◌≢◌, refl, ap, ◌∙◌, sym, arith, List, [], ◌∷◌, length, get_or, set, Option,
  none, some, leb, ◌==◌, if◌then◌else◌, inl, inr, true, false, Bool-cases, leb→le, get_or-set_ne,
}
use unitu_lua_test.Func.{
  UpVal, Slot, own, Heap, State, slot_of, slot_at, open_level, level_of, mark_of, isdead, dead_at,
  isgray, freeupval, unlinkupval, linkupval, close_one, close_loop, close, is_open,
}
use unitu_lua_test.Func.Open.{
  Descends, IsValid, Descends-keep, level_of-open, open_level-lt, slot_at-set_ne, slot_at-set_self,
  open_level-slot_at,
}

module _ {V : Type 0} where
  -- A write into the place `uv` of the heap, with the stack as it was.
  pub record Writes (s : State V) (uv : ℕ) (next : List ℕ) (x : Option (Slot V)) (s' : State V)
      : Type 0 where
    pub stack : s'.stack ≡ s.stack
    pub openupval : s'.openupval ≡ next
    pub others : (q : ℕ) → uv ≢ q → slot_at s'.heap q ≡ slot_at s.heap q
    pub other_dead : (q : ℕ) → uv ≢ q → dead_at s' q ≡ dead_at s q
    pub here : slot_at s'.heap uv ≡ x

  mark_of-set_ne :
      (h : Heap V) (uv : ℕ) (x : Option (UpVal V)) (q : ℕ)
      → uv ≢ q
      → mark_of (get_or (set h uv x) q none) ≡ mark_of (get_or h q none)
  mark_of-set_ne h uv x q ne = ap mark_of (get_or-set_ne h uv q x none ne)

  set-Writes :
      (s s' : State V) (uv : ℕ) (x : Option (UpVal V))
      → uv < length s.heap
      → s'.stack ≡ s.stack
      → s'.currentwhite ≡ s.currentwhite
      → s'.heap ≡ set s.heap uv x
      → Writes s uv s'.openupval (slot_of x) s'
  set-Writes s s' uv x lt stack white heap = record {
    stack = stack;
    openupval = refl;
    others = λ q ne. ap (λ (h : Heap V). slot_at h q) heap ∙ slot_at-set_ne s.heap uv x q ne;
    other_dead = λ q ne.
        unfold dead_at in
        rw (heap, white) (ap (isdead s.currentwhite) (mark_of-set_ne s.heap uv x q ne));
    here = ap (λ (h : Heap V). slot_at h uv) heap ∙ slot_at-set_self s.heap uv x lt;
  }

  freeupval-Writes :
      (s : State V) (uv : ℕ) → uv < length s.heap → Writes s uv s.openupval none (freeupval s uv)
  unfolding freeupval unlinkupval slot_of
  freeupval-Writes s uv lt = elim (Bool-cases (is_open (open_level s.heap uv))) [
    | inl opened ↦ rw (opened) (set-Writes s _ uv none lt refl refl refl)
    | inr shut ↦ rw (shut) (set-Writes s _ uv none lt refl refl refl)
  ]

  linkupval-Writes :
      (s : State V) (uv marked : ℕ) (x : V)
      → uv < length s.heap
      → Writes s uv s.openupval (some (own x)) (linkupval s uv marked x)
  unfolding linkupval slot_of
  linkupval-Writes s uv marked x lt = elim (Bool-cases (isgray marked)) [
    | inl gray ↦ elim (Bool-cases (s.gcstate == 1)) [
      | inl propagate ↦ rw (gray, propagate) (set-Writes s _ uv (some _) lt refl refl refl)
      | inr sweep ↦ rw (gray, sweep) (set-Writes s _ uv (some _) lt refl refl refl)
    ]
    | inr other ↦ rw (other) (set-Writes s _ uv (some _) lt refl refl refl)
  ]

  -- `Writes` says nothing of the lists of `s`.
  rebase :
      (s t : State V) (uv : ℕ) (x : Option (Slot V)) {s' : State V}
      → t.stack ≡ s.stack
      → t.heap ≡ s.heap
      → t.currentwhite ≡ s.currentwhite
      → Writes t uv t.openupval x s'
      → Writes s uv t.openupval x s'
  rebase s t uv x stack heap white w = record {
    stack = w.stack ∙ stack;
    openupval = w.openupval;
    others = λ q ne. w.others q ne ∙ ap (λ (h : Heap V). slot_at h q) heap;
    other_dead = λ q ne. w.other_dead q ne ∙ unfold dead_at in rw (heap, white) refl;
    here = w.here;
  }

  -- The slot that the loop of `luaF_close` leaves.
  unfoldable pub closed_slot : V → State V → ℕ → ℕ → Option (Slot V)
  closed_slot d s uv l = if dead_at s uv then none else some (own (get_or s.stack l d))

  pub close_one-Writes :
      (d : V) (s : State V) (uv l : ℕ) (next : List ℕ)
      → open_level s.heap uv ≡ some l
      → Writes s uv next (closed_slot d s uv l) (close_one d s uv next)
  unfolding close_one closed_slot unlinkupval dead_at
  close_one-Writes d s uv l next e =
      let lt = open_level-lt s.heap uv l e in
      let s' : State V = record s { openupval = next } in
      elim (Bool-cases (isdead s.currentwhite (mark_of (get_or s.heap uv none)))) [
        | inl dead ↦ rw (dead) (rebase s s' _ _ refl refl refl (freeupval-Writes s' uv lt))
        | inr live ↦
            rw (live, level_of-open s.heap uv l e)
              (rebase s (unlinkupval s' uv) _ _ refl refl refl
                (linkupval-Writes (unlinkupval s' uv) uv _ _ lt))
      ]

  pub close_loop-above :
      (d : V) (s : State V) (level uv l : ℕ) (next : List ℕ)
      → open_level s.heap uv ≡ some l
      → level ≤ l
      → close_loop d s level (uv ∷ next) ≡ close_loop d (close_one d s uv next) level next
  unfolding close_loop
  close_loop-above d s level uv l next e le =
      let test : leb level (level_of s.heap uv) ≡ true =
        rw (level_of-open s.heap uv l e) (ground arith) in
      rw (test, close_loop) refl

  pub close_loop-below :
      (d : V) (s : State V) (level uv l : ℕ) (next : List ℕ)
      → open_level s.heap uv ≡ some l
      → l < level
      → close_loop d s level (uv ∷ next) ≡ s
  unfolding close_loop
  close_loop-below d s level uv l next e lt =
      let test : leb level (level_of s.heap uv) ≡ false =
        rw (level_of-open s.heap uv l e) (ground arith) in
      rw (test, close_loop) refl

  -- The entries behind `uv` are at lower slots, so they are other places.
  pub lower_ne :
      (h : Heap V) (uv q l k : ℕ)
      → open_level h uv ≡ some l
      → open_level h q ≡ some k
      → k < l
      → uv ≢ q
  lower_ne h uv q l k e f lt same = absurd (
      let e' : some l ≡ some k = sym e ∙ ap (open_level h) same ∙ f in
      let k' : l ≡ k = cc in omega arith)

  pub Writes-Descends :
      (s s' : State V) (uv l : ℕ) (next : List ℕ) (x : Option (Slot V))
      → Writes s uv next x s'
      → open_level s.heap uv ≡ some l
      → Descends s.heap l next
      → Descends s'.heap l next
  Writes-Descends s s' uv l next x w e d =
      Descends-keep s.heap s'.heap l next
        (λ q k at_k lt.
          open_level-slot_at s.heap s'.heap q (w.others q (lower_ne s.heap uv q l k e at_k lt))
          ∙ at_k)
        d

  close_loop-Descends :
      (d : V) (s : State V) (level bound : ℕ) (ps : List ℕ)
      → s.openupval ≡ ps
      → Descends s.heap bound ps
      → Descends (close_loop d s level ps).heap level (close_loop d s level ps).openupval
  unfolding Descends
  close_loop-Descends d s level bound [] e desc = unfold close_loop in rw (e) tt
  close_loop-Descends d s level bound (uv ∷ next) e (l, at_l, lt, desc) =
      elim (Bool-cases (leb level l)) [
        | inl above ↦
            let w = close_one-Writes d s uv l next at_l in
            rw (close_loop-above d s level uv l next at_l (leb→le level l above)) (
              close_loop-Descends d (close_one d s uv next) level l next w.openupval
                (Writes-Descends s _ uv l next _ w at_l desc))
        | inr below ↦
            rw (close_loop-below d s level uv l next at_l (ground arith), e)
              ((l, at_l, ground arith, desc))
      ]

  -- `luaF_close` leaves a sorted list of open upvalues, all of them below the given slot.
  pub close-Descends :
      (d : V) (s : State V) (level : ℕ)
      → IsValid s
      → Descends (close d s level).heap level (close d s level).openupval
  unfolding close
  close-Descends d s level v =
      close_loop-Descends d s level (length s.stack) s.openupval refl v.sorted
