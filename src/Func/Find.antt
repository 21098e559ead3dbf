-- ===== src/Func/Find.antt =====
-- `luaF_findupval` (lua-5.1.5/src/lfunc.c): one open upvalue for each slot of the stack.
use unitu_lua_test.Base.{
  ℕ, ◌<◌, ◌≡◌, ◌⊎◌, refl, ap, ◌∙◌, sym, arith, List, [], ◌∷◌, ◌++◌, length, get_or, set, Option,
  none, some, leb, ◌==◌, if◌then◌else◌, inl, inr, Bool-cases,
}
use unitu_lua_test.Func.{
  UpVal, Heap, State, Search, hit, place, past, slot_of, slot_level, slot_at, open_level, level_of,
  search_open, found, findupval, resurrect, dead_at, white, on_stack,
}
use unitu_lua_test.Func.Open.{
  Descends, IsValid, Descends-keep, level_of-open, open_level-lt, level_of-same, slot_at-set_same,
  slot_at-append, slot_at-append_end, open_level-slot_at,
}

-- The two tests of the loop.
module _ {ℓ} {A : Type ℓ} where
  test_equal :
      (a b : ℕ) (x y z : A) → b ≡ a → (if leb a b then (if b == a then x else y) else z) ≡ x
  test_equal a b x y z h = ground arith

  test_above :
      (a b : ℕ) (x y z : A) → a < b → (if leb a b then (if b == a then x else y) else z) ≡ y
  test_above a b x y z h = ground arith

  test_below :
      (a b : ℕ) (x y z : A) → b < a → (if leb a b then (if b == a then x else y) else z) ≡ z
  test_below a b x y z h = ground arith

compare-cases : (a b : ℕ) → (a < b) ⊎ ((a ≡ b) ⊎ (b < a))
compare-cases a b = elim (Bool-cases (leb b a)) [
  | inl le ↦ elim (Bool-cases (b == a)) [
    | inl e ↦ inr (inl (ground arith))
    | inr ne ↦ inr (inr (ground arith))
  ]
  | inr gt ↦ inl (ground arith)
]

module _ {V : Type 0} where
  -- What the search finds: the upvalue of the slot, or the place that keeps the order.
  unfoldable Finds : Heap V → ℕ → ℕ → List ℕ → Search → Type 0
  Finds h bound level ps (hit p) = open_level h p ≡ some level
  Finds h bound level ps (place before after) =
      (h' : Heap V) (uv : ℕ)
      → ((q l : ℕ) → open_level h q ≡ some l → open_level h' q ≡ some l)
      → open_level h' uv ≡ some level
      → Descends h' bound (before ++ (uv ∷ after))
        × (search_open h' level (before ++ (uv ∷ after)) ≡ hit uv)

  past-Finds :
      (h : Heap V) (bound level p l : ℕ) (ps : List ℕ) (r : Search)
      → open_level h p ≡ some l
      → l < bound
      → level < l
      → Finds h l level ps r
      → Finds h bound level (p ∷ ps) (past p r)
  unfolding Finds past
  past-Finds h bound level p l ps (hit q) at_l lt up f = f
  past-Finds h bound level p l ps (place before after) at_l lt up f = λ h' uv keep new.
      let (d, again) = f h' uv keep new in
      let here = level_of-open h' p l (keep p l at_l) in
      (
        unfold Descends in (l, keep p l at_l, lt, d),
        unfold search_open in
            test_above level (level_of h' p) _ _ _ (omega (arith, here)) ∙ ap (past p) again,
      )

  search_open-Finds :
      (h : Heap V) (bound level : ℕ) (ps : List ℕ)
      → level < bound
      → Descends h bound ps
      → Finds h bound level ps (search_open h level ps)
  unfolding search_open Finds Descends
  search_open-Finds h bound level [] lt d = λ h' uv keep new. (
    (level, new, lt, tt),
    test_equal level (level_of h' uv) _ _ _ (level_of-open h' uv level new),
  )
  search_open-Finds h bound level (p ∷ ps) lt (l, at_l, l_lt, d) =
      let here = level_of-open h p l at_l in
      let rest = search_open h level ps in
      elim (compare-cases level l) [
        | inl below ↦
            rw
              (test_above level (level_of h p) (hit p) (past p rest) (place [] (p ∷ ps))
                (omega (arith, here)))
              (past-Finds h bound level p l ps rest at_l l_lt below
                (search_open-Finds h l level ps below d))
        | inr (inl same) ↦
            rw
              (test_equal level (level_of h p) (hit p) (past p rest) (place [] (p ∷ ps))
                (omega (arith, here)))
              (at_l ∙ ap some (sym same))
        | inr (inr above) ↦
            rw
              (test_below level (level_of h p) (hit p) (past p rest) (place [] (p ∷ ps))
                (omega (arith, here)))
              (λ h' uv keep new. (
                (
                  level,
                  new,
                  lt,
                  (
                    l,
                    keep p l at_l,
                    above,
                    Descends-keep h h' l ps (λ q k at_k _. keep q k at_k) d,
                  ),
                ),
                test_equal level (level_of h' uv) _ _ _ (level_of-open h' uv level new),
              ))
      ]

  search_open-same :
      (h h' : Heap V) (level : ℕ) (ps : List ℕ)
      → ((q : ℕ) → open_level h' q ≡ open_level h q)
      → search_open h' level ps ≡ search_open h level ps
  unfolding search_open
  search_open-same h h' level [] e = refl
  search_open-same h h' level (p ∷ ps) e =
      rw (level_of-same h h' p (e p), search_open-same h h' level ps e) refl

  resurrect-slot_of : (p : ℕ) (o : Option (UpVal V)) → slot_of (resurrect p o) ≡ slot_of o
  unfolding slot_of resurrect
  resurrect-slot_of p none = refl
  resurrect-slot_of p (some uv) = refl

  -- What a caller of `luaF_findupval` gets.
  Shares : (s : State V) (level : ℕ) → ℕ × State V → Type 0
  Shares s level (p, s') =
      IsValid s' × (open_level s'.heap p ≡ some level) × ((findupval s' level).0 ≡ p)

  hit-Shares :
      (s : State V) (level p : ℕ) (h' : Heap V)
      → IsValid s
      → search_open s.heap level s.openupval ≡ hit p
      → open_level s.heap p ≡ some level
      → ((q : ℕ) → open_level h' q ≡ open_level s.heap q)
      → Shares s level (p, record s { heap = h' })
  unfolding Shares findupval found
  hit-Shares s level p h' v e at_level same = (
    record {
      sorted = Descends-keep s.heap h' _ s.openupval (λ q k at_k _. same q ∙ at_k) v.sorted;
    },
    same p ∙ at_level,
    rw (search_open-same s.heap h' level s.openupval same, e) refl,
  )

  found-Shares :
      (s : State V) (level : ℕ) (r : Search)
      → IsValid s
      → search_open s.heap level s.openupval ≡ r
      → Finds s.heap (length s.stack) level s.openupval r
      → Shares s level (found s level r)
  unfolding Shares found Finds
  found-Shares s level (hit p) v e f = elim (Bool-cases (dead_at s p)) [
    | inl dead ↦ rw (dead) (
        hit-Shares s level p (set s.heap p (resurrect p (get_or s.heap p none))) v e f (λ q.
          open_level-slot_at s.heap (set s.heap p (resurrect p (get_or s.heap p none))) q (
            slot_at-set_same s.heap p _ q
              (unfold slot_at in resurrect-slot_of p (get_or s.heap p none)))))
    | inr live ↦ rw (live) (hit-Shares s level p s.heap v e f (λ q. refl))
  ]
  found-Shares s level (place before after) v e f =
      let uv = length s.heap in
      let x : Option (UpVal V) =
        some (record { marked = white s.currentwhite; v = on_stack level }) in
      let h' : Heap V = s.heap ++ (x ∷ []) in
      let at_uv : open_level h' uv ≡ some level =
        unfold open_level slot_level slot_of in ap slot_level (slot_at-append_end s.heap x) in
      let keep : (q l : ℕ) → open_level s.heap q ≡ some l → open_level h' q ≡ some l = λ q l at_q.
        open_level-slot_at s.heap h' q (slot_at-append s.heap x q (open_level-lt s.heap q l at_q))
        ∙ at_q in
      let (d, again) = f h' uv keep at_uv in
      (record { sorted = d }, at_uv, unfold findupval found in rw (again) refl)

  -- In a sorted list of open upvalues, and for a slot of the stack, `luaF_findupval` returns an open
  -- upvalue of that slot, keeps the list sorted, and returns the same upvalue when it is called again.
  pub findupval-Shares :
      (s : State V) (level : ℕ)
      → IsValid s
      → level < length s.stack
      → IsValid (findupval s level).1
        × (open_level (findupval s level).1.heap (findupval s level).0 ≡ some level)
        × ((findupval (findupval s level).1 level).0 ≡ (findupval s level).0)
  findupval-Shares s level v lt =
      unfold Shares findupval in
      found-Shares s level (search_open s.heap level s.openupval) v refl
        (search_open-Finds s.heap (length s.stack) level s.openupval lt v.sorted)

  found-slot_at :
      (s : State V) (level : ℕ) (r : Search) (q : ℕ)
      → q < length s.heap
      → slot_at (found s level r).1.heap q ≡ slot_at s.heap q
  unfolding found
  found-slot_at s level (hit p) q lt = elim (Bool-cases (dead_at s p)) [
    | inl dead ↦ rw (dead) (
        slot_at-set_same s.heap p _ q
          (unfold slot_at in resurrect-slot_of p (get_or s.heap p none)))
    | inr live ↦ rw (live) refl
  ]
  found-slot_at s level (place before after) q lt = slot_at-append s.heap _ q lt

  -- Every upvalue that was there keeps its slot or its value.
  pub findupval-slot_at :
      (s : State V) (level q : ℕ)
      → q < length s.heap
      → slot_at (findupval s level).1.heap q ≡ slot_at s.heap q
  unfolding findupval
  findupval-slot_at s level q lt = found-slot_at s level (search_open s.heap level s.openupval) q lt
