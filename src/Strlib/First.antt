-- ===== src/Strlib/First.antt =====
-- `lmemfind` (lua-5.1.5/src/lstrlib.c) finds the first place of a text.
use unitu_lua_test.Base.{
  ℕ, zero, suc, ◌+◌, ◌-◌, ◌<◌, ◌≤◌, ◌≡◌, refl, sym, ◌∙◌, arith, ltb, ltb→lt, ◌==◌, if◌then◌else◌,
  Bool, false, Bool-cases, inl, inr, List, [], ◌∷◌, length, take, drop, Option, none, some,
}
use unitu_lua_test.Chunk.Dump.{same_bytes}
use unitu_lua_test.Chunk.Received.{same_bytes-eq}
use unitu_lua_test.StringTable.Added.{same_bytes_self}
use unitu_lua_test.Strlib.{memchr, find_loop, lmemfind}
use mathlib.Core.Option.{map}
use mathlib.Core.Path.{subst}

-- The text `p` starts at the head of `s`.
abbrev starts : List ℕ → List ℕ → Bool
starts p s = same_bytes (take (length p) s) p

-- The first place of `p` among the first `n` ones of `s`, tried one after the other
first : List ℕ → ℕ → ℕ → List ℕ → Option ℕ
first p zero start s = none
first p (suc n) start s =
    let rest = first p n (start + 1) (drop 1 s) in if starts p s then some start else rest

module _ (c : ℕ) (s2 : List ℕ) where
  -- What is left to try behind a search for `c`
  after : ℕ → ℕ → List ℕ → Option ℕ → Option ℕ
  after n start s none = none
  after n start s (some i) =
      if starts s2 (drop (suc i) s)
      then some (start + i)
      else first (c ∷ s2) (n - suc i) (start + suc i) (drop (suc i) s)

  after-suc :
      (n start d : ℕ) (s : List ℕ) (o : Option ℕ)
      → after (suc n) start (d ∷ s) (map suc o) ≡ after n (start + 1) s o
  unfolding after
  after-suc n start d s none = refl
  after-suc n start d s (some i) =
      let e : start + suc i ≡ start + 1 + i = omega arith in
      let e' : start + suc (suc i) ≡ start + 1 + suc i = omega arith in
      let e'' : suc n - suc (suc i) ≡ n - suc i = omega arith in rw (e, e', e'') refl

  first-empty : (n start : ℕ) → first (c ∷ s2) n start [] ≡ none
  unfolding first same_bytes
  first-empty zero start = refl
  first-empty (suc n) start = first-empty n (start + 1)

  -- Places where the first character differs need not be tried.
  first-after :
      (n start : ℕ) (s : List ℕ) → first (c ∷ s2) n start s ≡ after n start s (memchr c n s)
  unfolding first memchr same_bytes after
  first-after zero start s = refl
  first-after (suc n) start [] = first-empty n (start + 1)
  first-after (suc n) start (d ∷ s) = elim (Bool-cases (d == c)) [
    | inl e ↦
        let e0 : start + 0 ≡ start = omega arith in
        let e1 : suc n - 1 ≡ n = omega arith in rw e (rw (e0, e1) refl)
    | inr e ↦ rw e (first-after n (start + 1) s ∙ sym (after-suc n start d s (memchr c n s)))
  ]

  found-after :
      (fuel n start : ℕ) (s : List ℕ) (o : Option ℕ)
      → ((i : ℕ)
          → find_loop fuel c s2 (start + suc i) (n - suc i) (drop (suc i) s)
            ≡ first (c ∷ s2) (n - suc i) (start + suc i) (drop (suc i) s))
      → (elim o [
        | none ↦ none
        | some i ↦
            let init = drop (suc i) s in
            let rest = find_loop fuel c s2 (start + suc i) (n - suc i) init in
            if same_bytes (take (length s2) init) s2 then some (start + i) else rest
      ])
        ≡ after n start s o
  unfolding after
  found-after fuel n start s none h = refl
  found-after fuel n start s (some i) h = rw (h i) refl

  find_loop-first :
      (fuel n start : ℕ) (s : List ℕ)
      → n < fuel
      → find_loop fuel c s2 start n s ≡ first (c ∷ s2) n start s
  unfolding find_loop first memchr
  find_loop-first zero n start s enough = absurd (omega arith)
  find_loop-first (suc fuel) zero start s enough = refl
  find_loop-first (suc fuel) (suc n) start s enough =
      found-after fuel (suc n) start s (memchr c (suc n) s)
        (λ i. find_loop-first fuel (suc n - suc i) (start + suc i) (drop (suc i) s) (omega arith))
      ∙ sym (first-after (suc n) start s)

-- The text `p` is at the place `i` of `s`.
abbrev pub IsAt : List ℕ → List ℕ → ℕ → Type 0
IsAt p s i = take (length p) (drop i s) ≡ p

-- What trying `n` places shows
Finds : List ℕ → ℕ → ℕ → List ℕ → Option ℕ → Type 0
Finds p n start s none = (j : ℕ) → j < n → ¬ IsAt p s j
Finds p n start s (some k) =
    (i : ℕ) × (k ≡ start + i) × (i < n) × IsAt p s i × ((j : ℕ) → j < i → ¬ IsAt p s j)

drop-drop : (j : ℕ) (s : List ℕ) → drop j (drop 1 s) ≡ drop (suc j) s
drop-drop zero [] = refl
drop-drop (suc j) [] = refl
drop-drop zero (d ∷ s) = refl
drop-drop (suc j) (d ∷ s) = refl

starts_not : (p s : List ℕ) → starts p s ≡ false → ¬ IsAt p s 0
starts_not p s e here =
    let f : same_bytes p p ≡ false = subst (λ t. same_bytes t p ≡ false) here e in
    let t = same_bytes_self p in cc

-- No earlier place, one character further
none_before :
    (p s : List ℕ) (n : ℕ)
    → ¬ IsAt p s 0
    → ((j : ℕ) → j < n → ¬ IsAt p (drop 1 s) j)
    → (j : ℕ) → j < suc n
    → ¬ IsAt p s j
none_before p s n here h zero lt = here
none_before p s n here h (suc j) lt =
    λ at. h j (omega arith) (subst (λ t. take (length p) t ≡ p) (sym (drop-drop j s)) at)

Finds-step :
    (p s : List ℕ) (n start : ℕ) (o : Option ℕ)
    → ¬ IsAt p s 0
    → Finds p n (start + 1) (drop 1 s) o
    → Finds p (suc n) start s o
unfolding Finds
Finds-step p s n start none here h = none_before p s n here h
Finds-step p s n start (some k) here (i, e, lt, at, before) = (
  suc i,
  (omega arith),
  (omega arith),
  (subst (λ t. take (length p) t ≡ p) (drop-drop i s) at),
  none_before p s i here before,
)

first-Finds : (p : List ℕ) (n start : ℕ) (s : List ℕ) → Finds p n start s (first p n start s)
unfolding first Finds
first-Finds p zero start s = λ j lt. absurd (omega arith)
first-Finds p (suc n) start s = elim (Bool-cases (starts p s)) [
  | inl e ↦
      rw e (0, (omega arith), (omega arith), same_bytes-eq _ _ e, (λ j lt. absurd (omega arith)))
  | inr e ↦ rw e (
      Finds-step p s n start (first p n (start + 1) (drop 1 s)) (starts_not p s e)
        (first-Finds p n (start + 1) (drop 1 s)))
]

ltb-false : (a b : ℕ) → ltb a b ≡ false → b ≤ a
ltb-false a b h = ground arith

-- `o` is the first place of `p` in `s`, if it has one.
unfoldable pub IsFirst : List ℕ → List ℕ → Option ℕ → Type 0
IsFirst p s none = (j : ℕ) → j + length p ≤ length s → ¬ IsAt p s j
IsFirst p s (some i) = (i + length p ≤ length s) × IsAt p s i × ((j : ℕ) → j < i → ¬ IsAt p s j)

Finds-IsFirst :
    (p s : List ℕ) (n : ℕ) (o : Option ℕ)
    → length p ≤ length s
    → n ≡ length s + 1 - length p
    → Finds p n 0 s o
    → IsFirst p s o
unfolding Finds IsFirst
Finds-IsFirst p s n none fits size h = λ j lt. h j (omega arith)
Finds-IsFirst p s n (some k) fits size (i, e, lt, at, before) =
    let k_i : i ≡ k = omega arith in
    ((omega arith), (subst (IsAt p s) k_i at), (λ j below. before j (omega arith)))

-- `lmemfind` gives the first place of a text in another one, and none just where there is none; the empty text is at
-- the start.
pub lmemfind-IsFirst : (s p : List ℕ) → IsFirst p s (lmemfind s p)
unfolding lmemfind IsFirst
lmemfind-IsFirst s [] = (omega arith, refl, (λ j lt. absurd (omega arith)))
lmemfind-IsFirst s (c ∷ s2) = elim (Bool-cases (ltb (length s) (suc (length s2)))) [
  | inl e ↦ rw e (λ j lt. absurd (let below = ltb→lt _ _ e in omega arith))
  | inr e ↦
      let n = length s - length s2 in
      let fits : suc (length s2) ≤ length s = ltb-false _ _ e in
      rw (e, find_loop-first c s2 (suc n) n 0 s (omega arith))
        (Finds-IsFirst (c ∷ s2) s n (first (c ∷ s2) n 0 s) fits (omega arith)
          (first-Finds (c ∷ s2) n 0 s))
]
