-- ===== src/Debug/Outcome.antt =====
-- The outcomes of the code checker of lua-5.1.5/src/ldebug.c. `refuse` is `return 0`; `fault` is what C leaves undefined,
-- a read beyond the end of an array, and also a loop that runs out of its rounds.
use unitu_lua_test.Base.{
  ℕ, zero, suc, ◌<◌, ◌≡◌, refl, arith, List, [], ◌∷◌, length, get_or, Bool, true, false,
}

pub data Check {ℓ} (A : Type ℓ) : Type ℓ where
  ok : A → Check A
  refuse : Check A
  fault : Check A

infixl 5 ◌>>=◌ ◌>>◌
abbrev pub ◌>>=◌ {ℓ κ} : {A : Type ℓ} {B : Type κ} → Check A → (A → Check B) → Check B
ok a >>= f = f a
refuse >>= f = refuse
fault >>= f = fault

abbrev pub ◌>>◌ {ℓ} : {B : Type ℓ} → Check (Unit {0}) → Check B → Check B
m >> k = m >>= λ _. k

-- The macro `check`.
abbrev pub check : Bool → Check (Unit {0})
check true = ok tt
check false = refuse

-- Reading an array.
unfoldable pub fetch {ℓ} : {A : Type ℓ} → List A → ℕ → Check A
fetch [] i = fault
fetch (x ∷ xs) zero = ok x
fetch (x ∷ xs) (suc i) = fetch xs i

-- There is no fault, and `P` holds of what is accepted.
abbrev pub Post {ℓ} : {A : Type ℓ} → (A → Type 0) → Check A → Type 0
Post P (ok a) = P a
Post P refuse = Unit {0}
Post P fault = ⊥

pub Post-bind {ℓ κ} :
    {A : Type ℓ} {B : Type κ} (P : A → Type 0) (Q : B → Type 0) (m : Check A) (f : A → Check B)
    → Post P m
    → ((a : A) → P a → Post Q (f a))
    → Post Q (m >>= f)
Post-bind P Q (ok a) f h k = k a h
Post-bind P Q refuse f h k = tt
Post-bind P Q fault f h k = h

pub Post-weaken {ℓ} :
    {A : Type ℓ} (P Q : A → Type 0) (m : Check A) → Post P m → ((a : A) → P a → Q a) → Post Q m
Post-weaken P Q (ok a) h k = k a h
Post-weaken P Q refuse h k = tt
Post-weaken P Q fault h k = h

pub Post-check {ℓ} :
    {B : Type ℓ} (Q : B → Type 0) (b : Bool) (m : Check B)
    → (b ≡ true → Post Q m)
    → Post Q (check b >> m)
Post-check Q true m k = k refl
Post-check Q false m k = tt

pub Post-check_end : (P : Type 0) (b : Bool) → (b ≡ true → P) → Post (λ _. P) (check b)
Post-check_end P true k = k refl
Post-check_end P false k = tt

pub Post-fetch :
    {A : Type 0} (xs : List A) (i : ℕ) (d : A)
    → i < length xs
    → Post (λ x. x ≡ get_or xs i d) (fetch xs i)
unfolding fetch
Post-fetch [] i d h = absurd (omega arith)
Post-fetch (x ∷ xs) zero d h = refl
Post-fetch (x ∷ xs) (suc i) d h = Post-fetch xs i d (omega arith)
