-- ===== src/Table/Positions.antt =====
-- The main position of a key (lua-5.1.5/src/ltable.c): it is a node of the table, and equal keys have the same.
use unitu_lua_test.Base.{
  ℕ, ◌-◌, ◌%◌, ◌^◌, ◌==◌, if◌then◌else◌, ◌&&◌, ◌||◌, not, Bool, true, false, ◌<◌, ◌≡◌, refl, ap,
  sym, arith, inl, inr, ==_iff, Bool-cases,
}
use unitu_lua_test.Base.Bits.{bit_or-one}
use unitu_lua_test.Object.Value.{
  TValue, nil, boolean, lightuserdata, number, object, lua_tstring, is_nan, is_zero, numeq,
  rawequal,
}
use unitu_lua_test.StringTable.Chains.{lmod-lt}
use unitu_lua_test.Table.Node.{hashmod, hashnum, mainposition}
use unitu_lua_test.Table.Chained.{IsAlive}
use mathlib.Core.Path.{subst}
use native.Mathlib.Nat.{mod-lt, one-le-pow}

pub and-true : (a b : Bool) → (a && b) ≡ true → (a ≡ true) × (b ≡ true)
and-true true true h = (refl, refl)
and-true true false h = cc
and-true false b h = cc

hashmod-lt : (size n : ℕ) → 0 < size → hashmod size n < size
unfolding hashmod
hashmod-lt size n h =
    let (more, less) = bit_or-one (size - 1) in let lt = mod-lt n more in omega arith

-- What the cases of `==` of numbers are
pub data AreEqual (a b : ℕ) : Type 0 where
  same_bits : a ≡ b → AreEqual a b
  both_zero : is_zero a ≡ true → is_zero b ≡ true → AreEqual a b

pub numeq-cases : (a b : ℕ) → numeq a b ≡ true → AreEqual a b × (is_nan a ≡ false)
unfolding numeq
numeq-cases a b h =
    let (no_nan, equal) = and-true (not (is_nan a)) _ h in
    (of_parts equal, nan_false (is_nan a) no_nan)
  where
    nan_false : (x : Bool) → not x ≡ true → x ≡ false
    nan_false true e = sym e
    nan_false false e = refl

    of_parts : (a == b || (is_zero a && is_zero b)) ≡ true → AreEqual a b
    of_parts e = elim (Bool-cases (a == b)) [
      | inl same ↦ same_bits ((==_iff a b).0 same)
      | inr other ↦
          let zeros : (is_zero a && is_zero b) ≡ true =
            subst (λ x. (x || (is_zero a && is_zero b)) ≡ true) other e in
          let (one, two) = and-true (is_zero a) (is_zero b) zeros in both_zero one two
    ]

zero-is_nan : (a : ℕ) → is_zero a ≡ true → is_nan a ≡ false
unfolding is_zero is_nan
zero-is_nan a h = rw ((==_iff (a % 2 ^ 63) 0).0 h) refl

AreEqual-is_nan : (a b : ℕ) → AreEqual a b → is_nan a ≡ false → is_nan b ≡ false
AreEqual-is_nan a b (same_bits e) h = subst (λ x. is_nan x ≡ false) e h
AreEqual-is_nan a b (both_zero _ z) h = zero-is_nan b z

or_true : (x : Bool) → (x || true) ≡ true
or_true true = refl
or_true false = refl

pub numeq_intro : (a b : ℕ) → AreEqual a b → is_nan a ≡ false → numeq a b ≡ true
unfolding numeq
numeq_intro a b (same_bits e) h = rw (h, (==_iff a b).1 e) refl
numeq_intro a b (both_zero y z) h = rw (h, y, z) (or_true (a == b))

AreEqual-sym : (a b : ℕ) → AreEqual a b → AreEqual b a
AreEqual-sym a b (same_bits e) = same_bits (sym e)
AreEqual-sym a b (both_zero y z) = both_zero z y

AreEqual-trans : (a b c : ℕ) → AreEqual a b → AreEqual b c → AreEqual a c
AreEqual-trans a b c (same_bits e) h = subst (λ x. AreEqual x c) (sym e) h
AreEqual-trans a b c (both_zero y z) (same_bits e) = both_zero y (subst (λ x. is_zero x ≡ true) e z)
AreEqual-trans a b c (both_zero y z) (both_zero y' z') = both_zero y z'

pub numeq-sym : (a b : ℕ) → numeq a b ≡ true → numeq b a ≡ true
numeq-sym a b h =
    let (equal, no_nan) = numeq-cases a b h in
    numeq_intro b a (AreEqual-sym a b equal) (AreEqual-is_nan a b equal no_nan)

pub numeq_trans : (a b c : ℕ) → numeq a b ≡ true → numeq b c ≡ true → numeq a c ≡ true
numeq_trans a b c h h' =
    let (equal, no_nan) = numeq-cases a b h in
    let (equal', _) = numeq-cases b c h' in
    numeq_intro a c (AreEqual-trans a b c equal equal') no_nan

zero-numeq : (a : ℕ) → is_zero a ≡ true → numeq a 0 ≡ true
unfolding is_zero
zero-numeq a z = numeq_intro a 0 (both_zero z refl) (zero-is_nan a z)

pub numeq-hashnum : (size a b : ℕ) → numeq a b ≡ true → hashnum size a ≡ hashnum size b
unfolding hashnum
numeq-hashnum size a b h = elim ((numeq-cases a b h).0) [
  | same_bits e ↦ ap (hashnum size) e
  | both_zero y z ↦ rw (zero-numeq a y, zero-numeq b z) refl
]

-- The values that are equal; a NaN is equal to nothing.
pub data Same : TValue → TValue → Type 0 where
  nils : Same nil nil
  booleans : {b : ℕ} → Same (boolean b) (boolean b)
  pointers : {p : ℕ} → Same (lightuserdata p) (lightuserdata p)
  numbers : {a b : ℕ} → numeq a b ≡ true → Same (number a) (number b)
  objects : {t a : ℕ} → Same (object t a) (object t a)

pub rawequal-Same : (a b : TValue) → rawequal a b ≡ true → Same a b
unfolding rawequal
rawequal-Same nil nil h = nils
rawequal-Same nil (boolean b) h = cc
rawequal-Same nil (lightuserdata b) h = cc
rawequal-Same nil (number b) h = cc
rawequal-Same nil (object t b) h = cc
rawequal-Same (boolean a) nil h = cc
rawequal-Same (boolean a) (boolean b) h =
    subst (λ x. Same (boolean a) (boolean x)) ((==_iff a b).0 h) booleans
rawequal-Same (boolean a) (lightuserdata b) h = cc
rawequal-Same (boolean a) (number b) h = cc
rawequal-Same (boolean a) (object t b) h = cc
rawequal-Same (lightuserdata a) nil h = cc
rawequal-Same (lightuserdata a) (boolean b) h = cc
rawequal-Same (lightuserdata a) (lightuserdata b) h =
    subst (λ x. Same (lightuserdata a) (lightuserdata x)) ((==_iff a b).0 h) pointers
rawequal-Same (lightuserdata a) (number b) h = cc
rawequal-Same (lightuserdata a) (object t b) h = cc
rawequal-Same (number a) nil h = cc
rawequal-Same (number a) (boolean b) h = cc
rawequal-Same (number a) (lightuserdata b) h = cc
rawequal-Same (number a) (number b) h = numbers h
rawequal-Same (number a) (object t b) h = cc
rawequal-Same (object s a) nil h = cc
rawequal-Same (object s a) (boolean b) h = cc
rawequal-Same (object s a) (lightuserdata b) h = cc
rawequal-Same (object s a) (number b) h = cc
rawequal-Same (object s a) (object t b) h =
    let (one, two) = and-true (s == t) (a == b) h in
    subst (λ x. Same (object s a) (object x b)) ((==_iff s t).0 one)
      (subst (λ x. Same (object s a) (object s x)) ((==_iff a b).0 two) objects)

self-eq : (a : ℕ) → (a == a) ≡ true
self-eq a = (==_iff a a).1 refl

Same-rawequal : (a b : TValue) → Same a b → rawequal a b ≡ true
unfolding rawequal
Same-rawequal _ _ nils = refl
Same-rawequal _ _ (booleans {b}) = self-eq b
Same-rawequal _ _ (pointers {p}) = self-eq p
Same-rawequal _ _ (numbers h) = h
Same-rawequal _ _ (objects {t} {a}) = rw (self-eq t, self-eq a) refl

Same-sym : {a b : TValue} → Same a b → Same b a
Same-sym nils = nils
Same-sym booleans = booleans
Same-sym pointers = pointers
Same-sym (numbers {a} {b} h) = numbers (numeq-sym a b h)
Same-sym objects = objects

Same-trans : {a b c : TValue} → Same a b → Same b c → Same a c
Same-trans nils h = h
Same-trans booleans h = h
Same-trans pointers h = h
Same-trans (numbers h) (numbers h') = numbers (numeq_trans _ _ _ h h')
Same-trans objects h = h

pub rawequal-sym : (a b : TValue) → rawequal a b ≡ true → rawequal b a ≡ true
rawequal-sym a b h = Same-rawequal b a (Same-sym (rawequal-Same a b h))

pub rawequal_trans :
    (a b c : TValue) → rawequal a b ≡ true → rawequal b c ≡ true → rawequal a c ≡ true
rawequal_trans a b c h h' =
    Same-rawequal a c (Same-trans (rawequal-Same a b h) (rawequal-Same b c h'))

Same-IsAlive : {a b : TValue} → Same a b → IsAlive b → IsAlive a
Same-IsAlive nils h = h
Same-IsAlive booleans h = h
Same-IsAlive pointers h = h
Same-IsAlive (numbers _) h = refl
Same-IsAlive objects h = h

pub rawequal-IsAlive : (a b : TValue) → rawequal a b ≡ true → IsAlive b → IsAlive a
rawequal-IsAlive a b h = Same-IsAlive (rawequal-Same a b h)

module _ (hash_str : ℕ → ℕ) (size : ℕ) where
  Same-mainposition :
      {a b : TValue} → Same a b → mainposition hash_str size a ≡ mainposition hash_str size b
  unfolding mainposition
  Same-mainposition nils = refl
  Same-mainposition booleans = refl
  Same-mainposition pointers = refl
  Same-mainposition (numbers {a} {b} h) = numeq-hashnum size a b h
  Same-mainposition objects = refl

  -- A search for a key starts where an equal key was put.
  pub rawequal-mainposition :
      (a b : TValue)
      → rawequal a b ≡ true
      → mainposition hash_str size a ≡ mainposition hash_str size b
  rawequal-mainposition a b h = Same-mainposition (rawequal-Same a b h)

if-lt : (b : Bool) (x y n : ℕ) → x < n → y < n → (if b then x else y) < n
if-lt true x y n h h' = h
if-lt false x y n h h' = h'

pub mainposition-lt :
    (hash_str : ℕ → ℕ) (k : ℕ) (key : TValue) → mainposition hash_str (2 ^ k) key < 2 ^ k
unfolding mainposition hashnum
mainposition-lt hash_str k nil = one-le-pow k 2 (omega arith)
mainposition-lt hash_str k (boolean b) = lmod-lt k b
mainposition-lt hash_str k (lightuserdata p) = hashmod-lt _ _ (one-le-pow k 2 (omega arith))
mainposition-lt hash_str k (number n) =
    let some_node = one-le-pow k 2 (omega arith) in
    if-lt (numeq n 0) _ _ _ some_node (hashmod-lt _ _ some_node)
mainposition-lt hash_str k (object tt a) =
    if-lt (tt == lua_tstring) _ _ _ (lmod-lt k (hash_str a))
      (hashmod-lt _ _ (one-le-pow k 2 (omega arith)))
