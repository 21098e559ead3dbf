-- ===== src/Opcode/Fields.antt =====
-- The fields of an instruction (lua-5.1.5/src/lopcodes.h): reading, replacing, composing.
use native.Mathlib.Omega.{arith}
use unitu_lua_test.Base.{ℕ, ◌+◌, ◌-◌, ◌*◌, ◌/◌, ◌%◌, ◌^◌, ◌<◌, ◌≡◌, ◌∙◌}
use unitu_lua_test.Base.Int.{ℤ, pos, negsuc, ◌≤ℤ◌, ◌+ℤ◌, ◌-ℤ◌}
use unitu_lua_test.Base.Bits.{bit_and-ones}
use unitu_lua_test.Base.Bits.Fields.{mask_field, clear_field, join_field, bit_or-above}
use unitu_lua_test.Opcode.{
  get_opcode, set_opcode, getarg_a, setarg_a, getarg_b, setarg_b, getarg_c, setarg_c, getarg_bx,
  setarg_bx, getarg_sbx, setarg_sbx, create_abc, shift_left, to_unsigned, maxarg_sbx,
}

abbrev pub IsWord : ℕ → Type 0
IsWord i = i < 2 ^ 32

-- The getters as arithmetic.
get_opcode-eq : (i : ℕ) → get_opcode i ≡ i % 64
unfolding get_opcode
get_opcode-eq i = bit_and-ones 6 (i / 1) ∙ omega arith

getarg_a-eq : (i : ℕ) → getarg_a i ≡ i / 2 ^ 6 % 2 ^ 8
unfolding getarg_a
getarg_a-eq i = bit_and-ones 8 (i / 2 ^ 6)

getarg_b-eq : (i : ℕ) → getarg_b i ≡ i / 2 ^ 23 % 2 ^ 9
unfolding getarg_b
getarg_b-eq i = bit_and-ones 9 (i / 2 ^ 23)

getarg_c-eq : (i : ℕ) → getarg_c i ≡ i / 2 ^ 14 % 2 ^ 9
unfolding getarg_c
getarg_c-eq i = bit_and-ones 9 (i / 2 ^ 14)

getarg_bx-eq : (i : ℕ) → getarg_bx i ≡ i / 2 ^ 14 % 2 ^ 18
unfolding getarg_bx
getarg_bx-eq i = bit_and-ones 18 (i / 2 ^ 14)

setarg_a-eq :
    (i u : ℕ)
    → IsWord i
    → u < 2 ^ 8
    → setarg_a i u ≡ (i / 2 ^ 6 / 2 ^ 8 * 2 ^ 8 + u) * 2 ^ 6 + i % 2 ^ 6
unfolding setarg_a
setarg_a-eq i u hi hu =
    let clear = clear_field 18 8 6 i (omega arith) in
    let pick = mask_field 8 6 (shift_left u 6) in
    let u' : shift_left u 6 / 2 ^ 6 % 2 ^ 8 * 2 ^ 6 ≡ u * 2 ^ 6 = omega arith in
    rw (clear, pick, u') (join_field 8 6 (i / 2 ^ 6 / 2 ^ 8) (i % 2 ^ 6) u hu (omega arith))

set_opcode-eq : (i o : ℕ) → IsWord i → o < 2 ^ 6 → set_opcode i o ≡ i / 2 ^ 6 * 2 ^ 6 + o
unfolding set_opcode
set_opcode-eq i o hi ho =
    let clear = clear_field 26 6 0 i (omega arith) in
    let pick = mask_field 6 0 (shift_left o 0) in
    let o' : shift_left o 0 / 2 ^ 0 % 2 ^ 6 * 2 ^ 0 ≡ o * 2 ^ 0 = omega arith in
    rw (clear, pick, o')
      (join_field 6 0 (i / 2 ^ 0 / 2 ^ 6) (i % 2 ^ 0) o ho (omega arith) ∙ omega arith)

setarg_c-eq :
    (i u : ℕ)
    → IsWord i
    → u < 2 ^ 9
    → setarg_c i u ≡ (i / 2 ^ 14 / 2 ^ 9 * 2 ^ 9 + u) * 2 ^ 14 + i % 2 ^ 14
unfolding setarg_c
setarg_c-eq i u hi hu =
    let clear = clear_field 9 9 14 i (omega arith) in
    let pick = mask_field 9 14 (shift_left u 14) in
    let u' : shift_left u 14 / 2 ^ 14 % 2 ^ 9 * 2 ^ 14 ≡ u * 2 ^ 14 = omega arith in
    rw (clear, pick, u') (join_field 9 14 (i / 2 ^ 14 / 2 ^ 9) (i % 2 ^ 14) u hu (omega arith))

setarg_b-eq : (i u : ℕ) → IsWord i → u < 2 ^ 9 → setarg_b i u ≡ u * 2 ^ 23 + i % 2 ^ 23
unfolding setarg_b
setarg_b-eq i u hi hu =
    let clear = clear_field 0 9 23 i (omega arith) in
    let pick = mask_field 9 23 (shift_left u 23) in
    let u' : shift_left u 23 / 2 ^ 23 % 2 ^ 9 * 2 ^ 23 ≡ u * 2 ^ 23 = omega arith in
    rw (clear, pick, u')
      (join_field 9 23 (i / 2 ^ 23 / 2 ^ 9) (i % 2 ^ 23) u hu (omega arith) ∙ omega arith)

setarg_bx-eq : (i u : ℕ) → IsWord i → u < 2 ^ 18 → setarg_bx i u ≡ u * 2 ^ 14 + i % 2 ^ 14
unfolding setarg_bx
setarg_bx-eq i u hi hu =
    let clear = clear_field 0 18 14 i (omega arith) in
    let pick = mask_field 18 14 (shift_left u 14) in
    let u' : shift_left u 14 / 2 ^ 14 % 2 ^ 18 * 2 ^ 14 ≡ u * 2 ^ 14 = omega arith in
    rw (clear, pick, u')
      (join_field 18 14 (i / 2 ^ 14 / 2 ^ 18) (i % 2 ^ 14) u hu (omega arith) ∙ omega arith)

ruleset getters = (arith, get_opcode-eq, getarg_a-eq, getarg_b-eq, getarg_c-eq, getarg_bx-eq)

-- The four fields of an instruction of the format ABC.
abbrev pub Fields : ℕ → ℕ → ℕ → ℕ → ℕ → Type 0
Fields i o a b c = (get_opcode i ≡ o) × (getarg_a i ≡ a) × (getarg_b i ≡ b) × (getarg_c i ≡ c)

-- Replacing one field by a value that fits keeps the instruction a 32-bit word, gives that value
-- to the field, and leaves the three other fields as they were. This holds for the opcode and for
-- the arguments A, B and C.
pub set_field-Fields :
    (i o a b c : ℕ)
    → IsWord i
    → o < 2 ^ 6
    → a < 2 ^ 8
    → b < 2 ^ 9
    → c < 2 ^ 9
    → (IsWord (set_opcode i o) × Fields (set_opcode i o) o (getarg_a i) (getarg_b i) (getarg_c i))
      × (IsWord (setarg_a i a) × Fields (setarg_a i a) (get_opcode i) a (getarg_b i) (getarg_c i))
      × (IsWord (setarg_b i b) × Fields (setarg_b i b) (get_opcode i) (getarg_a i) b (getarg_c i))
      × (IsWord (setarg_c i c) × Fields (setarg_c i c) (get_opcode i) (getarg_a i) (getarg_b i) c)
set_field-Fields i o a b c hi ho ha hb hc = (
  rw (set_opcode-eq i o hi ho) (omega getters),
  rw (setarg_a-eq i a hi ha) (omega getters),
  rw (setarg_b-eq i b hi hb) (omega getters),
  rw (setarg_c-eq i c hi hc) (omega getters),
)

create_abc-eq :
    (o a b c : ℕ)
    → o < 2 ^ 6
    → a < 2 ^ 8
    → b < 2 ^ 9
    → c < 2 ^ 9
    → create_abc o a b c ≡ (b * 2 ^ 9 + c) * 2 ^ 14 + (a * 2 ^ 6 + o)
unfolding create_abc
create_abc-eq o a b c ho ha hb hc =
    let o' : shift_left o 0 ≡ o = omega arith in
    let a' : shift_left a 6 ≡ a * 2 ^ 6 = omega arith in
    let b' : shift_left b 23 ≡ b * 2 ^ 23 = omega arith in
    let c' : shift_left c 14 ≡ c * 2 ^ 14 = omega arith in
    let regroup : b * 2 ^ 23 + (a * 2 ^ 6 + o) ≡ b * 2 ^ 9 * 2 ^ 14 + (a * 2 ^ 6 + o) =
      omega arith in
    let low = bit_or-above 6 o a ho in
    let high = bit_or-above 23 (a * 2 ^ 6 + o) b (omega arith) in
    let last = join_field 9 14 b (a * 2 ^ 6 + o) c hc (omega arith) in
    rw (o', a', b', c', low, high, regroup) last

-- An instruction built from fields that fit is a 32-bit word whose fields read back as given.
pub create_abc-Fields :
    (o a b c : ℕ)
    → o < 2 ^ 6
    → a < 2 ^ 8
    → b < 2 ^ 9
    → c < 2 ^ 9
    → IsWord (create_abc o a b c) × Fields (create_abc o a b c) o a b c
create_abc-Fields o a b c ho ha hb hc = rw (create_abc-eq o a b c ho ha hb hc) (omega getters)

-- The excess-K form of a signed argument.
excess :
    (b : ℤ)
    → negsuc 131070 ≤ℤ b
    → b ≤ℤ pos 131072
    → (u : ℕ) × (u < 2 ^ 18)
      × (to_unsigned (b +ℤ pos maxarg_sbx) ≡ u)
      × (pos u -ℤ pos maxarg_sbx ≡ b)
unfolding ◌+ℤ◌ ◌-ℤ◌
excess (pos n) lo hi = (n + 131071, omega arith, ground arith, ground arith)
excess (negsuc n) lo hi = (131071 - (n + 1), omega arith, ground arith, ground arith)

-- A signed argument from -131071 to 131072 reads back after it is set, and the opcode and the
-- argument A stay.
pub getarg_sbx-setarg_sbx :
    (i : ℕ) (b : ℤ)
    → IsWord i
    → negsuc 131070 ≤ℤ b
    → b ≤ℤ pos 131072
    → (getarg_sbx (setarg_sbx i b) ≡ b)
      × (get_opcode (setarg_sbx i b) ≡ get_opcode i)
      × (getarg_a (setarg_sbx i b) ≡ getarg_a i)
unfolding setarg_sbx getarg_sbx
getarg_sbx-setarg_sbx i b hi lo hi' =
    let (u, fits, encoded, decoded) = excess b lo hi' in
    let back : getarg_bx (setarg_bx i u) ≡ u = rw (setarg_bx-eq i u hi fits) (omega getters) in
    (
      rw (encoded, back) decoded,
      rw (encoded, setarg_bx-eq i u hi fits) (omega getters),
      rw (encoded, setarg_bx-eq i u hi fits) (omega getters),
    )

-- Setting a signed argument in range gives a word of 32 bits.
pub setarg_sbx-IsWord :
    (i : ℕ) (b : ℤ) → IsWord i → negsuc 131070 ≤ℤ b → b ≤ℤ pos 131072 → IsWord (setarg_sbx i b)
unfolding setarg_sbx
setarg_sbx-IsWord i b hi lo hi' =
    let (u, fits, encoded, _) = excess b lo hi' in
    rw (encoded, setarg_bx-eq i u hi fits) (omega arith)
