-- ===== src/Table/Slot.antt =====
-- Where lua-5.1.5/src/ltable.c looks for a key: in the array part, or in the hash part by its main position.
use unitu_lua_test.Base.{
  ℕ, zero, suc, ◌/◌, ◌%◌, ◌^◌, ◌<◌, ◌≡◌, refl, ap, sym, ◌∙◌, arith, ltb, ltb→lt, ◌==◌, ==_iff,
  if◌then◌else◌, Bool, true, false, inl, inr, List, length, Option, none, some, Bool-cases,
}
use unitu_lua_test.Base.Int.{ℤ, pos, negsuc}
use unitu_lua_test.Object.Value.{
  TValue, nil, boolean, lightuserdata, number, object, lua_tstring, is_zero, truncated, numeq,
  cast_num, number2int, rawequal,
}
use unitu_lua_test.Table.Node.{
  Node, Table, Place, in_array, place_of, is_number, is_string, mainposition, find_node,
  find_number, getnum, getstr, find_key, get,
}
use unitu_lua_test.Table.Access.{arrayindex}
use unitu_lua_test.Table.Chained.{IsAlive}
use unitu_lua_test.Table.Positions.{
  numeq-sym, numeq_trans, numeq-hashnum, AreEqual, same_bits, both_zero, numeq-cases, Same, nils,
  booleans, pointers, numbers, objects, rawequal-Same,
}
use mathlib.Core.Path.{subst}
use mathlib.Core.Option.{some-injective, none-ne-some}

-- The place of an index in the array part
abbrev pub slot_index : ℕ → ℤ → Option ℕ
slot_index size (pos zero) = none
slot_index size (pos (suc k)) = if ltb k size then some k else none
slot_index size (negsuc k) = none

unfoldable pub slot : ℕ → TValue → Option ℕ
unfolding arrayindex
slot size key = slot_index size (arrayindex key)

abbrev pub place_in : Option ℕ → Option Place → Option Place
place_in none other = other
place_in (some k) other = some (in_array k)

pub true_iff : (a b : Bool) → (a ≡ true → b ≡ true) → (b ≡ true → a ≡ true) → a ≡ b
true_iff true b h h' = sym (h refl)
true_iff false true h h' = absurd (let e = h' refl in cc)
true_iff false false h h' = refl

-- The searches of the types and the general one agree.
is_number-rawequal :
    (c n : ℕ) → numeq c n ≡ true → (k : TValue) → is_number c k ≡ rawequal k (number n)
unfolding rawequal
is_number-rawequal c n h nil = refl
is_number-rawequal c n h (boolean b) = refl
is_number-rawequal c n h (lightuserdata p) = refl
is_number-rawequal c n h (number m) =
    true_iff (numeq m c) (numeq m n) (λ e. numeq_trans m c n e h)
      (λ e. numeq_trans m n c e (numeq-sym c n h))
is_number-rawequal c n h (object tt a) = refl

is_string-rawequal : (a : ℕ) (k : TValue) → is_string a k ≡ rawequal k (object lua_tstring a)
unfolding rawequal
is_string-rawequal a nil = refl
is_string-rawequal a (boolean b) = refl
is_string-rawequal a (lightuserdata p) = refl
is_string-rawequal a (number n) = refl
is_string-rawequal a (object tt b) = refl

same-find_node :
    (fuel : ℕ) (nodes : List Node) (p q : TValue → Bool) (i : ℕ)
    → ((k : TValue) → p k ≡ q k)
    → find_node fuel nodes p i ≡ find_node fuel nodes q i
same-find_node fuel nodes p q i h = λ x. find_node fuel nodes (λ k. h k x) i

module _ (hash_str : ℕ → ℕ) (t : Table) where
  find_number-find_key :
      (c n : ℕ) → numeq c n ≡ true → find_number t c ≡ find_key hash_str t (number n)
  unfolding find_number find_key mainposition
  find_number-find_key c n h =
      same-find_node (length t.node) t.node (is_number c) (λ k. rawequal k (number n)) _
        (is_number-rawequal c n h)
      ∙ ap (find_node (length t.node) t.node (λ k. rawequal k (number n)))
          (numeq-hashnum (length t.node) c n h)

  getnum-find_key :
      (key : ℤ) (n : ℕ)
      → numeq (cast_num key) n ≡ true
      → getnum t key
        ≡ place_in (slot_index (length t.array) key) (place_of (find_key hash_str t (number n)))
  unfolding getnum
  getnum-find_key (pos zero) n h = ap place_of (find_number-find_key _ n h)
  getnum-find_key (pos (suc k)) n h = elim (Bool-cases (ltb k (length t.array))) [
    | inl inside ↦ rw (getnum, inside) refl
    | inr outside ↦ rw (getnum, outside) (ap place_of (find_number-find_key _ n h))
  ]
  getnum-find_key (negsuc k) n h = ap place_of (find_number-find_key _ n h)

  getstr-find_key :
      (a : ℕ) → getstr hash_str t a ≡ place_of (find_key hash_str t (object lua_tstring a))
  unfolding getstr find_key mainposition
  getstr-find_key a = ap place_of (
      same-find_node (length t.node) t.node (is_string a) (λ k. rawequal k (object lua_tstring a)) _
        (is_string-rawequal a))

  -- For an alive key, luaH_get, which searches by the type of the key, looks at its place in the array part, or else
  -- finds what the search from the main position over the nodes finds.
  pub get-find_key :
      (key : TValue)
      → IsAlive key
      → get hash_str t key
        ≡ place_in (slot (length t.array) key) (place_of (find_key hash_str t key))
  unfolding get slot arrayindex
  get-find_key nil h = cc
  get-find_key (boolean b) h = refl
  get-find_key (lightuserdata p) h = refl
  get-find_key (number n) h = elim (Bool-cases (numeq (cast_num (number2int n)) n)) [
    | inl whole ↦ rw (get, whole) (getnum-find_key (number2int n) n whole)
    | inr other ↦ rw (get, other) refl
  ]
  get-find_key (object tt a) h = elim (Bool-cases (tt == lua_tstring)) [
    | inl string ↦
        let same = (==_iff tt lua_tstring).0 string in
        rw (get, string)
          (getstr-find_key a ∙ ap (λ x. place_of (find_key hash_str t (object x a))) (sym same))
    | inr other ↦ rw (get, other) refl
  ]

-- A slot of the array part is that of one number, as an int.
data IsSlot (size k : ℕ) (key : TValue) : Type 0 where
  index :
      (n : ℕ)
      → key ≡ number n
      → numeq (cast_num (pos (suc k))) n ≡ true
      → k < size
      → IsSlot size k key

no_slot : (k : ℕ) → slot_index 0 (negsuc 0) ≡ some k → ⊥
no_slot k h = none-ne-some k h

slot-IsSlot : (size k : ℕ) (key : TValue) → slot size key ≡ some k → IsSlot size k key
unfolding slot arrayindex
slot-IsSlot size k nil h = absurd (no_slot k h)
slot-IsSlot size k (boolean b) h = absurd (no_slot k h)
slot-IsSlot size k (lightuserdata p) h = absurd (no_slot k h)
slot-IsSlot size k (number n) h = elim (Bool-cases (numeq (cast_num (number2int n)) n)) [
  | inl whole ↦
      let h' =
        subst (λ (b : Bool). slot_index size (if b then number2int n else negsuc 0) ≡ some k) whole
          h in
      let (e, lt) = at_int (number2int n) h' in
      index n refl (subst (λ (i : ℤ). numeq (cast_num i) n ≡ true) e whole) lt
  | inr other ↦ absurd (
      no_slot k (
        subst (λ (b : Bool). slot_index size (if b then number2int n else negsuc 0) ≡ some k) other
          h))
]
  where
    at_int : (i : ℤ) → slot_index size i ≡ some k → (i ≡ pos (suc k)) × (k < size)
    at_int (pos zero) e = absurd (no_slot k e)
    at_int (pos (suc m)) e = elim (Bool-cases (ltb m size)) [
      | inl inside ↦
          let same =
            some-injective _ _
              (subst (λ (b : Bool). (if b then some m else none) ≡ some k) inside e) in
          (ap (λ x. pos (suc x)) same, subst (λ x. x < size) same (ltb→lt m size inside))
      | inr outside ↦
          absurd
            (none-ne-some k (subst (λ (b : Bool). (if b then some m else none) ≡ some k) outside e))
    ]
    at_int (negsuc m) e = absurd (no_slot k e)
slot-IsSlot size k (object tt a) h = absurd (no_slot k h)

-- Two keys in one slot are equal.
pub same_slot-rawequal :
    (size k : ℕ) (key other : TValue)
    → slot size key ≡ some k
    → slot size other ≡ some k
    → rawequal key other ≡ true
unfolding rawequal
same_slot-rawequal size k key other h h' = elim (slot-IsSlot size k key h) [
  | index n e equal lt ↦ elim (slot-IsSlot size k other h') [
    | index m e' equal' lt' ↦ rw (e, e') (numeq_trans n _ m (numeq-sym _ n equal) equal')
  ]
]

pub slot-lt : (size k : ℕ) (key : TValue) → slot size key ≡ some k → k < size
slot-lt size k key h = elim (slot-IsSlot size k key h) [ index n e equal lt ↦ lt ]

pub zero-number2int : (a : ℕ) → is_zero a ≡ true → number2int a ≡ pos 0
unfolding is_zero number2int truncated
zero-number2int a z =
    let whole : a % 2 ^ 63 ≡ 0 = (==_iff (a % 2 ^ 63) 0).0 z in
    let e : a / 2 ^ 52 % 2 ^ 11 ≡ 0 = omega arith in rw (e) (if_same (ltb a (2 ^ 63)) (pos 0))
  where
    if_same : (b : Bool) (i : ℤ) → (if b then i else i) ≡ i
    if_same true i = refl
    if_same false i = refl

zero-slot : (size a : ℕ) → is_zero a ≡ true → slot size (number a) ≡ none
unfolding slot arrayindex
zero-slot size a z = rw (zero-number2int a z) (none_of (numeq (cast_num (pos 0)) a))
  where
    none_of : (b : Bool) → slot_index size (if b then pos 0 else negsuc 0) ≡ none
    none_of true = refl
    none_of false = refl

-- Equal keys have one slot.
pub rawequal-slot :
    (size : ℕ) (key other : TValue) → rawequal key other ≡ true → slot size key ≡ slot size other
rawequal-slot size key other h = same (rawequal-Same key other h)
  where
    same_number : (a b : ℕ) → AreEqual a b → slot size (number a) ≡ slot size (number b)
    same_number a b (same_bits e) = ap (λ n. slot size (number n)) e
    same_number a b (both_zero y z) = zero-slot size a y ∙ sym (zero-slot size b z)

    same : {a b : TValue} → Same a b → slot size a ≡ slot size b
    same nils = refl
    same booleans = refl
    same pointers = refl
    same (numbers {a} {b} e) = same_number a b (numeq-cases a b e).0
    same objects = refl
