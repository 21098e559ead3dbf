-- ===== src/Base/Distinct.antt =====
-- Lists of different numbers.
use Prim.Native.Nat.{ℕ, zero, suc, ◌+◌, ◌≤◌, ◌<◌}
use mathlib.Core.Path.{◌≡◌}
use mathlib.Core.Logic.{◌≢◌, ◌⊎◌, inl, inr}
use mathlib.Core.List.{List, [], ◌∷◌}
use native.Mathlib.Omega.{arith}
use unitu_lua_test.Base.Lists.{length}

pub eq_or_ne : (a b : ℕ) → (a ≡ b) ⊎ (a ≢ b)
eq_or_ne a b = ground arith

-- `p` is not in the list.
abbrev pub IsApart : ℕ → List ℕ → Type 0
IsApart p [] = Unit {0}
IsApart p (q ∷ qs) = (p ≢ q) × IsApart p qs

-- No number stands twice in the list.
abbrev pub AreDistinct : List ℕ → Type 0
AreDistinct [] = Unit {0}
AreDistinct (p ∷ ps) = IsApart p ps × AreDistinct ps

abbrev pub AreBelow : ℕ → List ℕ → Type 0
AreBelow n [] = Unit {0}
AreBelow n (p ∷ ps) = (p < n) × AreBelow n ps

apart-AreBelow : (n : ℕ) (ps : List ℕ) → IsApart n ps → AreBelow (suc n) ps → AreBelow n ps
apart-AreBelow n [] apart below = tt
apart-AreBelow n (p ∷ ps) (ne, apart) (lt, below) = (omega arith, apart-AreBelow n ps apart below)

-- A list without its occurrence of `n`
without : ℕ → List ℕ → List ℕ
without n [] = []
without n (p ∷ ps) = elim (eq_or_ne n p) [ inl _ ↦ ps | inr _ ↦ p ∷ without n ps ]

without-IsApart : (n q : ℕ) (ps : List ℕ) → IsApart q ps → IsApart q (without n ps)
unfolding without
without-IsApart n q [] apart = tt
without-IsApart n q (p ∷ ps) (ne, apart) =
    elim (eq_or_ne n p) as (λ e. IsApart q (elim e [ inl _ ↦ ps | inr _ ↦ p ∷ without n ps ])) [
      | inl e ↦ apart
      | inr e ↦ (ne, without-IsApart n q ps apart)
    ]

without-AreDistinct : (n : ℕ) (ps : List ℕ) → AreDistinct ps → AreDistinct (without n ps)
unfolding without
without-AreDistinct n [] distinct = tt
without-AreDistinct n (p ∷ ps) (apart, distinct) =
    elim (eq_or_ne n p) as (λ e. AreDistinct (elim e [ inl _ ↦ ps | inr _ ↦ p ∷ without n ps ])) [
      | inl e ↦ distinct
      | inr e ↦ (without-IsApart n p ps apart, without-AreDistinct n ps distinct)
    ]

without-AreBelow :
    (n : ℕ) (ps : List ℕ) → AreDistinct ps → AreBelow (suc n) ps → AreBelow n (without n ps)
unfolding without
without-AreBelow n [] distinct below = tt
without-AreBelow n (p ∷ ps) (apart, distinct) (lt, below) =
    elim (eq_or_ne n p) as (λ e. AreBelow n (elim e [ inl _ ↦ ps | inr _ ↦ p ∷ without n ps ])) [
      | inl e ↦ apart-AreBelow n ps (rw e apart) below
      | inr e ↦ (omega arith, without-AreBelow n ps distinct below)
    ]

length-without : (n : ℕ) (ps : List ℕ) → length ps ≤ length (without n ps) + 1
unfolding without
length-without n [] = omega arith
length-without n (p ∷ ps) =
    elim (eq_or_ne n p)
      as (λ e. suc (length ps) ≤ length (elim e [ inl _ ↦ ps | inr _ ↦ p ∷ without n ps ]) + 1) [
        | inl e ↦ omega arith
        | inr e ↦ (let h = length-without n ps in omega arith)
      ]

-- A list of different numbers below `n` has at most `n` of them.
pub length-le_of_distinct : (n : ℕ) (ps : List ℕ) → AreDistinct ps → AreBelow n ps → length ps ≤ n
length-le_of_distinct zero [] distinct below = omega arith
length-le_of_distinct zero (p ∷ ps) distinct (lt, _) = absurd (omega arith)
length-le_of_distinct (suc n) ps distinct below =
    let h =
      length-le_of_distinct n (without n ps) (without-AreDistinct n ps distinct)
        (without-AreBelow n ps distinct below) in
    let k = length-without n ps in omega arith
