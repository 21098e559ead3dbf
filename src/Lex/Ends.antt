-- ===== src/Lex/Ends.antt =====
-- How much of the input the functions of lua-5.1.5/src/llex.c take: the loops of the lexer end.
use unitu_lua_test.Base.{
  ℕ, leb, ltb, ◌^◌, ◌*◌, zero, suc, ◌+◌, ◌-◌, ◌<◌, ◌≤◌, ◌≡◌, refl, ap, arith, ◌==◌, if◌then◌else◌,
  ◌&&◌, not, Bool, true, false, Bool-cases, take, drop, inl, inr, List, [], ◌∷◌, ◌++◌, Option, none,
  some, length,
}
use unitu_lua_test.Lex.{
  isdigit, is_newline, string, LexState, Message, out_of_fuel, Result, ok, err, ◌>>=◌,
}
use unitu_lua_test.Lex.Scan.{
  next, tail_of, save, save_and_next, sees, skip_newline, inclinenumber, seen_in, check_next, grab,
  save_while, sep_loop, skip_sep, escape_char, decimal_loop, numeric_escape, other_escape, escape,
  string_round, string_loop, read_string,
}

-- An error of the program, not of the model.
unfoldable pub IsReported : Message → Type 0
IsReported out_of_fuel = ⊥
IsReported m = Unit {0}

-- `P` holds of a result, and an error is one that the program reports.
abbrev pub Post {ℓ} : {A : Type ℓ} → (A → Type 0) → Result A → Type 0
Post P (ok a) = P a
Post P (err m k) = IsReported m

pub Post-bind {ℓ κ} :
    {A : Type ℓ} {B : Type κ} (P : A → Type 0) (Q : B → Type 0) (m : Result A) (f : A → Result B)
    → Post P m
    → ((a : A) → P a → Post Q (f a))
    → Post Q (m >>= f)
Post-bind P Q (ok a) f h k = k a h
Post-bind P Q (err m n) f h k = h

pub Post-if {ℓ} :
    {A : Type ℓ} (P : A → Type 0) (b : Bool) (x y : Result A)
    → Post P x
    → Post P y
    → Post P (if b then x else y)
Post-if P true x y hx hy = hx
Post-if P false x y hx hy = hy

pub Post-weaken {ℓ} :
    {A : Type ℓ} (P Q : A → Type 0) (m : Result A) → Post P m → ((a : A) → P a → Q a) → Post Q m
Post-weaken P Q (ok a) h k = k a h
Post-weaken P Q (err m n) h k = h

pub Post-bool {ℓ} :
    {A : Type ℓ} (P : A → Type 0) (b : Bool) (x y : Result A)
    → Post P x
    → Post P y
    → Post P (elim b [ true ↦ x | false ↦ y ])
Post-bool P true x y hx hy = hx
Post-bool P false x y hx hy = hy

pub Post-option {ℓ κ} :
    {A : Type ℓ} {B : Type κ} (P : B → Type 0) (o : Option A) (x : Result B) (f : A → Result B)
    → Post P x
    → ((a : A) → Post P (f a))
    → Post P (elim o [ some a ↦ f a | none ↦ x ])
Post-option P none x f hx hf = hx
Post-option P (some a) x f hx hf = hf a

-- The number of characters that are left.
abbrev pub left : LexState → ℕ
left st = length st.input

-- At most `n` are left.
abbrev pub Within : ℕ → LexState → Type 0
Within n st = left st ≤ n

length-tail_of : (xs : List ℕ) → length (tail_of xs) ≡ length xs - 1
unfolding tail_of
length-tail_of [] = refl
length-tail_of (c ∷ cs) = omega arith

pub left-next : (st : LexState) → left (next st) ≡ left st - 1
unfolding next
left-next st = length-tail_of st.input

pub left-save_and_next : (st : LexState) → left (save_and_next st) ≡ left st - 1
unfolding save_and_next next save
left-save_and_next st = length-tail_of st.input

length-skip_newline : (xs : List ℕ) → length (skip_newline xs) ≤ length xs - 1
unfolding skip_newline
length-skip_newline [] = omega arith
length-skip_newline (c ∷ []) = omega arith
length-skip_newline (c ∷ d ∷ cs) = elim (Bool-cases (is_newline d && not (d == c))) [
  | inl e ↦ rw e (omega arith)
  | inr e ↦ rw e (omega arith)
]

pub inclinenumber-Within : (st : LexState) → Post (Within (left st - 1)) (inclinenumber st)
unfolding inclinenumber IsReported
inclinenumber-Within st = elim (Bool-cases (leb (2 ^ 31 - 3) (st.linenumber + 1))) [
  | inl e ↦ rw e tt
  | inr e ↦ rw e (length-skip_newline st.input)
]

pub check_next-Within : (set : List ℕ) (st : LexState) → Within (left st) (check_next set st).1
unfolding check_next
check_next-Within set st = elim (Bool-cases (seen_in set st.input)) [
  | inl e ↦ rw e (let h = left-save_and_next st in omega arith)
  | inr e ↦ rw e (omega arith)
]

length-grab : (p : ℕ → Bool) (xs buff : List ℕ) → length (grab p xs buff).0 ≤ length xs
unfolding grab
length-grab p [] buff = omega arith
length-grab p (c ∷ cs) buff = elim (Bool-cases (p c)) [
  | inl e ↦ rw e (let h = length-grab p cs (buff ++ (c ∷ [])) in omega arith)
  | inr e ↦ rw e (omega arith)
]

pub save_while-Within : (p : ℕ → Bool) (st : LexState) → Within (left st) (save_while p st)
unfolding save_while
save_while-Within p st = length-grab p st.input st.buff

length-sep_loop : (xs buff : List ℕ) (n : ℕ) → length (sep_loop xs buff n).0 ≤ length xs
unfolding sep_loop
length-sep_loop [] buff n = omega arith
length-sep_loop (c ∷ cs) buff n = elim (Bool-cases (c == b'=')) [
  | inl e ↦ rw e (let h = length-sep_loop cs (buff ++ (c ∷ [])) (n + 1) in omega arith)
  | inr e ↦ rw e (omega arith)
]

pub skip_sep-Within : (st : LexState) → Within (left st - 1) (skip_sep st).1
unfolding skip_sep
skip_sep-Within st =
    let h = length-sep_loop (save_and_next st).input (save_and_next st).buff 0 in
    let e = left-save_and_next st in omega arith

length-decimal_loop : (n c : ℕ) (xs : List ℕ) → length (decimal_loop n c xs).1 ≤ length xs
unfolding decimal_loop
length-decimal_loop zero c xs = omega arith
length-decimal_loop (suc n) c [] = omega arith
length-decimal_loop (suc n) c (d ∷ ds) = elim (Bool-cases (isdigit d)) [
  | inl e ↦ rw e (let h = length-decimal_loop n (10 * c + (d - 48)) ds in omega arith)
  | inr e ↦ rw e (omega arith)
]

numeric_escape-Within : (st : LexState) → Post (Within (left st)) (numeric_escape st)
unfolding numeric_escape save IsReported
numeric_escape-Within st = elim (Bool-cases (ltb 255 (decimal_loop 3 0 st.input).0)) [
  | inl e ↦ rw e tt
  | inr e ↦ rw e (length-decimal_loop 3 0 st.input)
]

other_escape-Within : (st : LexState) (c : ℕ) → Post (Within (left st)) (other_escape st c)
unfolding other_escape save
other_escape-Within st c = elim (Bool-cases (is_newline c)) [
  | inl e ↦ rw e (
      Post-weaken (Within (left st - 1)) (Within (left st)) (inclinenumber (save 10 st))
        (inclinenumber-Within (save 10 st)) (λ _ h. omega arith))
  | inr n ↦ elim (Bool-cases (isdigit c)) [
    | inl e ↦ rw (n, e) (numeric_escape-Within st)
    | inr e ↦ rw (n, e) (let h = left-save_and_next st in omega arith)
  ]
]

escape-Within : (st : LexState) (xs : List ℕ) → Post (Within (left st)) (escape st xs)
unfolding escape save
escape-Within st [] = omega arith
escape-Within st (c ∷ cs) =
    Post-option (Within (left st)) (escape_char c) (other_escape st c) (λ v. ok (next (save v st)))
      (other_escape-Within st c) (λ v. (let h = left-next (save v st) in omega arith))

-- A round of the loop of `read_string` takes a character.
string_round-Within :
    (st : LexState) (xs : List ℕ)
    → st.input ≡ xs
    → Post (λ st'. left st' < left st) (string_round st xs)
unfolding string_round IsReported
string_round-Within st [] h = tt
string_round-Within st (c ∷ cs) h =
    let some_left : left st ≡ suc (length cs) = ap length h in
    elim (Bool-cases (is_newline c)) [
      | inl e ↦ rw e tt
      | inr n ↦ elim (Bool-cases (c == 92)) [
        | inl e ↦
            rw (n, e)
              (Post-weaken (Within (left (next st))) (λ st'. left st' < left st)
                (escape (next st) cs) (escape-Within (next st) cs)
                (λ _ h. (let e = left-next st in omega arith)))
        | inr e ↦ rw (n, e) (let h = left-save_and_next st in omega arith)
      ]
    ]

string_loop-Within :
    (fuel del : ℕ) (st : LexState)
    → left st < fuel
    → Post (Within (left st)) (string_loop fuel del st)
unfolding string_loop
string_loop-Within zero del st enough = absurd (omega arith)
string_loop-Within (suc fuel) del st enough =
    Post-bool (Within (left st)) (sees st del) (ok st)
      (string_round st st.input >>= string_loop fuel del) (omega arith)
      (Post-bind (λ st'. left st' < left st) (Within (left st)) (string_round st st.input)
        (string_loop fuel del) (string_round-Within st st.input refl)
        (λ st' h.
          Post-weaken (Within (left st')) (Within (left st)) (string_loop fuel del st')
            (string_loop-Within fuel del st' (omega arith)) (λ _ g. omega arith)))

pub read_string-Within :
    (del : ℕ) (st : LexState) → Post (λ r. Within (left st - 1) r.1) (read_string del st)
unfolding read_string
read_string-Within del st =
    let st1 = save_and_next st in
    Post-bind (Within (left st1)) (λ r. Within (left st - 1) r.1)
      (string_loop (suc (length st1.input)) del st1)
      (λ st2. ok (
        string (take (length (save_and_next st2).buff - 2) (drop 1 (save_and_next st2).buff)),
        save_and_next st2,
      ))
      (string_loop-Within (suc (left st1)) del st1 (omega arith))
      (λ st2 h. (let e = left-save_and_next st in let e2 = left-save_and_next st2 in omega arith))
