-- ===== src/Func/Open.antt =====
-- The list of open upvalues (lua-5.1.5/src/lfunc.c): sorted, the highest slot of the stack first.
use unitu_lua_test.Base.{
  ℕ, zero, suc, ◌≤◌, ◌<◌, ◌≡◌, ◌≢◌, refl, ap, ◌∙◌, sym, arith, List, [], ◌∷◌, ◌++◌, length, get_or,
  set, Option, none, some, leb, inl, inr, Bool-cases, get_or-set_self, get_or-set_ne,
}
use unitu_lua_test.Func.{UpVal, Heap, State, slot_of, slot_at, slot_level, open_level, level_of}

module _ {ℓ} {A : Type ℓ} where
  pub get_or-append_lt :
      (xs ys : List A) (i : ℕ) (d : A) → i < length xs → get_or (xs ++ ys) i d ≡ get_or xs i d
  get_or-append_lt [] ys i d h = absurd (omega arith)
  get_or-append_lt (x ∷ xs) ys zero d h = refl
  get_or-append_lt (x ∷ xs) ys (suc i) d h = get_or-append_lt xs ys i d (omega arith)

  pub get_or-append_end : (xs : List A) (y d : A) → get_or (xs ++ (y ∷ [])) (length xs) d ≡ y
  get_or-append_end [] y d = refl
  get_or-append_end (x ∷ xs) y d = get_or-append_end xs y d

  pub get_or-past : (xs : List A) (i : ℕ) (d : A) → length xs ≤ i → get_or xs i d ≡ d
  get_or-past [] i d h = refl
  get_or-past (x ∷ xs) zero d h = absurd (omega arith)
  get_or-past (x ∷ xs) (suc i) d h = get_or-past xs i d (omega arith)

module _ {V : Type 0} where
  -- The upvalues are open, at slots below `bound` that go down.
  unfoldable pub Descends : Heap V → ℕ → List ℕ → Type 0
  Descends h bound [] = Unit {0}
  Descends h bound (p ∷ ps) = (l : ℕ) × (open_level h p ≡ some l) × (l < bound) × Descends h l ps

  pub record IsValid (s : State V) : Type 0 where
    pub sorted : Descends s.heap (length s.stack) s.openupval

  pub Descends-keep :
      (h h' : Heap V) (bound : ℕ) (ps : List ℕ)
      → ((p l : ℕ) → open_level h p ≡ some l → l < bound → open_level h' p ≡ some l)
      → Descends h bound ps
      → Descends h' bound ps
  unfolding Descends
  Descends-keep h h' bound [] keep d = d
  Descends-keep h h' bound (p ∷ ps) keep (l, at_l, lt, d) = (
    l,
    keep p l at_l lt,
    lt,
    Descends-keep h h' l ps (λ q k at_k small. keep q k at_k (omega arith)) d,
  )

  pub Descends-raise :
      (h : Heap V) (low high : ℕ) (ps : List ℕ)
      → low ≤ high
      → Descends h low ps
      → Descends h high ps
  unfolding Descends
  Descends-raise h low high [] le d = d
  Descends-raise h low high (p ∷ ps) le (l, at_l, lt, d) = (l, at_l, omega arith, d)

  pub level_of-open : (h : Heap V) (p l : ℕ) → open_level h p ≡ some l → level_of h p ≡ l
  unfolding level_of
  level_of-open h p l e = rw (e, level_of) refl

  pub slot_at-past : (h : Heap V) (p : ℕ) → length h ≤ p → slot_at h p ≡ none
  unfolding slot_at slot_of
  slot_at-past h p le = ap slot_of (get_or-past h p none le)

  pub open_level-lt : (h : Heap V) (p l : ℕ) → open_level h p ≡ some l → p < length h
  unfolding open_level slot_level
  open_level-lt h p l e = elim (Bool-cases (leb (length h) p)) [
    | inl past ↦
        let gone = ap (slot_level {V = V}) (slot_at-past h p (ground arith)) in
        absurd (let none_there : none ≡ some l = sym gone ∙ e in cc)
    | inr inside ↦ ground arith
  ]

  -- A write that keeps the slot of the place.
  pub slot_at-set_same :
      (h : Heap V) (p : ℕ) (x : Option (UpVal V)) (q : ℕ)
      → slot_of x ≡ slot_at h p
      → slot_at (set h p x) q ≡ slot_at h q
  unfolding slot_at slot_of
  slot_at-set_same [] p x q e = refl
  slot_at-set_same (y ∷ h) zero x zero e = e
  slot_at-set_same (y ∷ h) zero x (suc q) e = refl
  slot_at-set_same (y ∷ h) (suc p) x zero e = refl
  slot_at-set_same (y ∷ h) (suc p) x (suc q) e = slot_at-set_same h p x q e

  pub slot_at-set_ne :
      (h : Heap V) (p : ℕ) (x : Option (UpVal V)) (q : ℕ)
      → p ≢ q
      → slot_at (set h p x) q ≡ slot_at h q
  unfolding slot_at
  slot_at-set_ne h p x q ne = ap slot_of (get_or-set_ne h p q x none ne)

  pub slot_at-set_self :
      (h : Heap V) (p : ℕ) (x : Option (UpVal V)) → p < length h → slot_at (set h p x) p ≡ slot_of x
  unfolding slot_at
  slot_at-set_self h p x lt = ap slot_of (get_or-set_self h p x none lt)

  pub open_level-slot_at :
      (h h' : Heap V) (p : ℕ) → slot_at h' p ≡ slot_at h p → open_level h' p ≡ open_level h p
  unfolding open_level
  open_level-slot_at h h' p e = ap slot_level e

  pub level_of-same :
      (h h' : Heap V) (p : ℕ) → open_level h' p ≡ open_level h p → level_of h' p ≡ level_of h p
  unfolding level_of
  level_of-same h h' p e = rw (e, level_of) refl

  pub slot_at-append :
      (h : Heap V) (x : Option (UpVal V)) (p : ℕ)
      → p < length h
      → slot_at (h ++ (x ∷ [])) p ≡ slot_at h p
  unfolding slot_at
  slot_at-append h x p lt = ap slot_of (get_or-append_lt h (x ∷ []) p none lt)

  pub slot_at-append_end :
      (h : Heap V) (x : Option (UpVal V)) → slot_at (h ++ (x ∷ [])) (length h) ≡ slot_of x
  unfolding slot_at
  slot_at-append_end h x = ap slot_of (get_or-append_end h x none)
