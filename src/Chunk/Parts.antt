-- ===== src/Chunk/Parts.antt =====
-- The loaders of strings, arrays, constants and variables (lua-5.1.5/src/lundump.c) on the blocks of the
-- format that belong to each.
use unitu_lua_test.Base.{
  ℕ, ◌+◌, ◌-◌, ◌*◌, ◌^◌, ◌<◌, ◌≡◌, refl, sym, true, false, ◌==◌, arith, List, [], ◌∷◌, ◌++◌, length,
  take, drop, length-append, none, some, All,
}
use mathlib.Core.List.{append-nil, append_assoc}
use unitu_lua_test.Chunk.{
  TString, Constant, nil, boolean, number, string, LocVar, to_bytes, from_bytes, array_bytes,
}
use unitu_lua_test.Chunk.Load.{
  Load, elements, load_sized, load_string, load_vector, load_code, load_value, load_constant,
  load_each, load_locvar,
}
use unitu_lua_test.Chunk.Encode.{
  Blocks, string_blocks, vector_blocks, constant_blocks, each_blocks, locvar_blocks,
}
use unitu_lua_test.Chunk.Decodes.{
  Decodes, take_prefix, drop_prefix, return-Decodes, bind-Decodes, map-Decodes, block-Decodes,
  length-to_bytes, from_bytes-to_bytes, char-Decodes, int-Decodes, number-Decodes,
}

pub bytes : Blocks → List ℕ
bytes [] = []
bytes (b ∷ bs) = b ++ bytes bs

pub bytes-append : (xs ys : Blocks) → bytes (xs ++ ys) ≡ bytes xs ++ bytes ys
unfolding bytes
bytes-append [] ys = refl
bytes-append (x ∷ xs) ys = rw (bytes-append xs ys) (sym (append_assoc x (bytes xs) (bytes ys)))

pub bytes-cons : (b : List ℕ) (bs : Blocks) → bytes (b ∷ bs) ≡ b ++ bytes bs
unfolding bytes
bytes-cons b bs = refl

pub bytes-nil : bytes [] ≡ []
unfolding bytes
bytes-nil = refl

pub bytes-one : (b : List ℕ) → bytes (b ∷ []) ≡ b
unfolding bytes
bytes-one b = append-nil b

-- A string has a length that a size_t can count, with its last byte.
abbrev pub IsStorable : TString → Type 0
IsStorable none = Unit {0}
IsStorable (some s) = length s + 1 < 2 ^ 64

-- Numbers that fit an int, an Instruction and a double.
abbrev pub IsInt : ℕ → Type 0
IsInt x = x < 2 ^ 31

abbrev pub IsWord : ℕ → Type 0
IsWord x = x < 2 ^ 32

abbrev pub IsValue : Constant → Type 0
IsValue nil = Unit {0}
IsValue (boolean b) = Unit {0}
IsValue (number x) = x < 2 ^ 64
IsValue (string s) = IsStorable s

abbrev pub IsVariable : LocVar → Type 0
IsVariable v = IsStorable v.varname × IsInt v.startpc × IsInt v.endpc

sized-Decodes :
    (n : ℕ) (s : List ℕ) → n ≡ length s + 1 → Decodes (load_sized n) (s ++ 0 ∷ []) (some s)
unfolding load_sized
sized-Decodes n s e =
    let positive : (n == 0) ≡ false = ground arith in
    let size : n ≡ length (s ++ 0 ∷ []) = omega (arith, length-append s (0 ∷ [])) in
    let d = map-Decodes (λ b. some (take (n - 1) b)) (block-Decodes n (s ++ 0 ∷ []) size) in
    let front : take (n - 1) (s ++ 0 ∷ []) ≡ s = take_prefix (n - 1) s (0 ∷ []) (omega arith) in
    rw positive (rw front at d)

empty-Decodes : (n : ℕ) → n ≡ 0 → Decodes (load_sized n) [] none
unfolding load_sized
empty-Decodes n e = rw e (return-Decodes none)

pub string-Decodes : (s : TString) → IsStorable s → Decodes load_string (bytes (string_blocks s)) s
unfolding load_string string_blocks
string-Decodes none h =
    let d = block-Decodes 8 (to_bytes 8 0) (sym (length-to_bytes 8 0)) in
    let zero_size = from_bytes-to_bytes 8 0 (omega arith) in
    rw bytes-cons
      (bind-Decodes (λ v. load_sized (from_bytes v)) d (unfold bytes in empty-Decodes _ zero_size))
string-Decodes (some s) h =
    let n = length s + 1 in
    let d = block-Decodes 8 (to_bytes 8 n) (sym (length-to_bytes 8 n)) in
    let size = from_bytes-to_bytes 8 n (omega arith) in
    rw (bytes-cons, bytes-one)
      (bind-Decodes (λ v. load_sized (from_bytes v)) d (sized-Decodes _ s size))

array-elements : (xs : List ℕ) → All IsWord xs → elements (length xs) (array_bytes 4 xs) ≡ xs
unfolding elements array_bytes
array-elements [] h = refl
array-elements (x ∷ xs) (h, hs) =
    let four = length-to_bytes 4 x in
    let first : take 4 (to_bytes 4 x ++ array_bytes 4 xs) ≡ to_bytes 4 x =
      take_prefix 4 _ _ (sym four) in
    let later : drop 4 (to_bytes 4 x ++ array_bytes 4 xs) ≡ array_bytes 4 xs =
      drop_prefix 4 (to_bytes 4 x) _ (sym four) in
    rw (first, later, from_bytes-to_bytes 4 x h, array-elements xs hs)

length-array_bytes : (w : ℕ) (xs : List ℕ) → length (array_bytes w xs) ≡ length xs * w
unfolding array_bytes
length-array_bytes w [] = omega arith
length-array_bytes w (x ∷ xs) = omega (
  arith,
  length-append (to_bytes w x) (array_bytes w xs),
  length-to_bytes w x,
  length-array_bytes w xs,
)

vector-Decodes :
    (n : ℕ) (xs : List ℕ)
    → n ≡ length xs
    → All IsWord xs
    → Decodes (load_vector n) (array_bytes 4 xs) xs
unfolding load_vector
vector-Decodes n xs e h =
    let size : n * 4 ≡ length (array_bytes 4 xs) = omega (arith, length-array_bytes 4 xs) in
    let d = map-Decodes (elements n) (block-Decodes (n * 4) (array_bytes 4 xs) size) in
    let back : elements n (array_bytes 4 xs) ≡ xs = rw e (array-elements xs h) in rw back at d

pub code-Decodes :
    (xs : List ℕ)
    → IsInt (length xs)
    → All IsWord xs
    → Decodes load_code (bytes (vector_blocks xs)) xs
unfolding load_code vector_blocks
code-Decodes xs n h =
    rw (bytes-cons, bytes-one)
      (bind-Decodes load_vector (int-Decodes (length xs) n) (vector-Decodes (length xs) xs refl h))

pub constant-Decodes :
    (k : Constant) → IsValue k → Decodes load_constant (bytes (constant_blocks k)) k
unfolding load_constant load_value constant_blocks
constant-Decodes nil h =
    rw bytes-cons
      (bind-Decodes load_value (char-Decodes 0 (omega arith)) (unfold bytes in return-Decodes nil))
constant-Decodes (boolean true) h =
    rw (bytes-cons, bytes-one)
      (bind-Decodes load_value (char-Decodes 1 (omega arith))
        (map-Decodes _ (char-Decodes 1 (omega arith))))
constant-Decodes (boolean false) h =
    rw (bytes-cons, bytes-one)
      (bind-Decodes load_value (char-Decodes 1 (omega arith))
        (map-Decodes _ (char-Decodes 0 (omega arith))))
constant-Decodes (number x) h =
    rw (bytes-cons, bytes-one)
      (bind-Decodes load_value (char-Decodes 3 (omega arith)) (map-Decodes _ (number-Decodes x h)))
constant-Decodes (string s) h =
    rw bytes-cons
      (bind-Decodes load_value (char-Decodes 4 (omega arith)) (map-Decodes _ (string-Decodes s h)))

pub each-Decodes :
    {A : Type 0} (load : Load A) (g : A → Blocks) (P : A → Type 0)
    → ((x : A) → P x → Decodes load (bytes (g x)) x)
    → (xs : List A) → All P xs
    → Decodes (load_each load (length xs)) (bytes (each_blocks g xs)) xs
unfolding load_each each_blocks
each-Decodes load g P h [] p = unfold bytes in return-Decodes []
each-Decodes load g P h (x ∷ xs) (p, ps) =
    rw bytes-append
      (bind-Decodes _ (h x p) (map-Decodes (λ t. x ∷ t) (each-Decodes load g P h xs ps)))

pub locvar-Decodes : (v : LocVar) → IsVariable v → Decodes load_locvar (bytes (locvar_blocks v)) v
unfolding load_locvar locvar_blocks
locvar-Decodes v (h, i, j) =
    rw (bytes-append, bytes-cons, bytes-one)
      (bind-Decodes _ (string-Decodes v.varname h)
        (bind-Decodes _ (int-Decodes v.startpc i) (map-Decodes _ (int-Decodes v.endpc j))))
