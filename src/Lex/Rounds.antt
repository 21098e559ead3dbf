-- ===== src/Lex/Rounds.antt =====
-- A round of the loop of `llex` (lua-5.1.5/src/llex.c) takes a character, if there is one.
use unitu_lua_test.Base.{
  ℕ, ◌-◌, ◌<◌, ◌≤◌, ◌≡◌, refl, arith, ◌==◌, ◌||◌, true, false, Bool-cases, inl, inr, List, [], ◌∷◌,
  Option, length,
}
use unitu_lua_test.Base.Int.{ℤ, pos, negsuc}
use unitu_lua_test.Lex.{
  isdigit, isalpha, isspace, is_newline, LexState, tk_eq, tk_ge, tk_le, tk_ne, tk_number, tk_string,
  ok, ◌>>=◌,
}
use unitu_lua_test.Lex.Scan.{
  next, save_and_next, sees, inclinenumber, check_next, word_char, read_numeral, read_long_string,
  read_string, resetbuffer,
}
use unitu_lua_test.Lex.Next.{
  Step, again, token, drop_line, short_comment, comment, minus, bracket, with_equal, word,
  starts_digit, numeral, point, lex_round,
}
use unitu_lua_test.Lex.Ends.{
  IsReported, Post, Post-bind, left, Within, left-next, left-save_and_next, inclinenumber-Within,
  check_next-Within, save_while-Within, skip_sep-Within, read_string-Within,
}
use unitu_lua_test.Lex.Lines.{Passed, read_long_string-Within, read_numeral-Within}

-- Less than `n` characters are left behind a round.
unfoldable pub StepWithin : ℕ → Step → Type 0
StepWithin n (again st) = left st < n
StepWithin n (token k info st) = left st < n

length-drop_line : (xs : List ℕ) → length (drop_line xs) ≤ length xs
unfolding drop_line
length-drop_line [] = omega arith
length-drop_line (c ∷ cs) = elim (Bool-cases (is_newline c)) [
  | inl e ↦ rw e (omega arith)
  | inr e ↦ rw e (let h = length-drop_line cs in omega arith)
]

pub left-resetbuffer : (st : LexState) → left (resetbuffer st) ≡ left st
unfolding resetbuffer
left-resetbuffer st = refl

short_comment-StepWithin : (n : ℕ) (st : LexState) → left st < n → StepWithin n (short_comment st)
unfolding short_comment StepWithin
short_comment-StepWithin n st h = (let e = length-drop_line st.input in omega arith)

comment-StepWithin :
    (n : ℕ) (k : ℤ) (st : LexState) → left st < n → Post (StepWithin n) (comment k st)
unfolding comment StepWithin
comment-StepWithin n (pos sep) st h =
    Post-bind (Passed (left (resetbuffer st) - 1)) (StepWithin n)
      (read_long_string true sep (resetbuffer st)) (λ r. ok (again (resetbuffer r.1)))
      (read_long_string-Within true sep (resetbuffer st))
      (λ r g. (let e = left-resetbuffer st in let e' = left-resetbuffer r.1 in omega arith))
comment-StepWithin n (negsuc k) st h =
    short_comment-StepWithin n (resetbuffer st) (let e = left-resetbuffer st in omega arith)

minus-StepWithin : (st : LexState) → 1 ≤ left st → Post (StepWithin (left st)) (minus st)
unfolding minus StepWithin
minus-StepWithin st h =
    let e1 = left-next st in
    let e2 = left-next (next st) in
    let e3 = skip_sep-Within (next (next st)) in
    elim (Bool-cases (sees (next st) b'-')) [
      | inl e ↦ rw e elim (Bool-cases (sees (next (next st)) b'[')) [
        | inl y ↦ rw y (comment-StepWithin (left st) _ _ (omega arith))
        | inr y ↦ rw y (short_comment-StepWithin (left st) (next (next st)) (omega arith))
      ]
      | inr e ↦ rw e (omega arith)
    ]

bracket-StepWithin :
    (n : ℕ) (k : ℤ) (st : LexState) → left st < n → Post (StepWithin n) (bracket k st)
unfolding bracket StepWithin IsReported
bracket-StepWithin n (pos sep) st h =
    Post-bind (Passed (left st - 1)) (StepWithin n) (read_long_string false sep st)
      (λ r. ok (token tk_string r.0 r.1)) (read_long_string-Within false sep st)
      (λ r g. (omega arith))
bracket-StepWithin n (negsuc k) st h = elim (Bool-cases (k == 0)) [
  | inl e ↦ rw e h
  | inr e ↦ rw e tt
]

with_equal-StepWithin :
    (c two : ℕ) (st : LexState) → 1 ≤ left st → Post (StepWithin (left st)) (with_equal c two st)
unfolding with_equal StepWithin
with_equal-StepWithin c two st h =
    let e1 = left-next st in
    let e2 = left-next (next st) in
    elim (Bool-cases (sees (next st) b'=')) [
      | inl e ↦ rw e (omega arith)
      | inr e ↦ rw e (omega arith)
    ]

word-StepWithin : (st : LexState) → 1 ≤ left st → Post (StepWithin (left st)) (word st)
unfolding word StepWithin
word-StepWithin st h =
    let e = left-save_and_next st in
    let g = save_while-Within word_char (save_and_next st) in omega arith

module _ (str2d : List ℕ → Option ℕ) where
  numeral-StepWithin :
      (n : ℕ) (st : LexState) → left st < n → Post (StepWithin n) (numeral str2d st)
  unfolding numeral StepWithin
  numeral-StepWithin n st h =
      Post-bind (Passed (left st - 1)) (StepWithin n) (read_numeral str2d st)
        (λ r. ok (token tk_number r.0 r.1)) (read_numeral-Within str2d st) (λ r g. (omega arith))

  numeral-Within : (st : LexState) → 1 ≤ left st → Post (StepWithin (left st)) (numeral str2d st)
  unfolding numeral StepWithin
  numeral-Within st h =
      Post-bind (Passed (left st - 1)) (StepWithin (left st)) (read_numeral str2d st)
        (λ r. ok (token tk_number r.0 r.1)) (read_numeral-Within str2d st) (λ r g. (omega arith))

  point-StepWithin : (st : LexState) → 1 ≤ left st → Post (StepWithin (left st)) (point str2d st)
  unfolding point StepWithin
  point-StepWithin st h =
      let dots = b'.' ∷ [] in
      let e = left-save_and_next st in
      let two = (check_next dots (save_and_next st)).0 in
      let st1 = (check_next dots (save_and_next st)).1 in
      let h1 = check_next-Within dots (save_and_next st) in
      let h2 = check_next-Within dots st1 in
      elim (Bool-cases two) [
        | inl e' ↦ rw e' (omega arith)
        | inr e' ↦ rw e' elim (Bool-cases (starts_digit st1.input)) [
          | inl y ↦ rw y (numeral-StepWithin (left st) st1 (omega arith))
          | inr y ↦ rw y (omega arith)
        ]
      ]

  -- A string, or a token of one character
  quoted-StepWithin :
      (del : ℕ) (st : LexState)
      → 1 ≤ left st
      → Post
          (StepWithin (left st))
          (read_string del st >>= λ (info, st'). ok (token tk_string info st'))
  unfolding StepWithin
  quoted-StepWithin del st h =
      Post-bind (Passed (left st - 1)) (StepWithin (left st)) (read_string del st)
        (λ r. ok (token tk_string r.0 r.1)) (read_string-Within del st) (λ r g. (omega arith))

  newline-StepWithin :
      (st : LexState)
      → 1 ≤ left st
      → Post (StepWithin (left st)) (inclinenumber st >>= λ st'. ok (again st'))
  unfolding StepWithin
  newline-StepWithin st h =
      Post-bind (Within (left st - 1)) (StepWithin (left st)) (inclinenumber st)
        (λ st'. ok (again st')) (inclinenumber-Within st) (λ st' g. (omega arith))

  -- A round takes a character, if there is one.
  pub lex_round-StepWithin :
      (st : LexState) (c : ℕ) (cs : List ℕ)
      → 1 ≤ left st
      → Post (StepWithin (left st)) (lex_round str2d st (c ∷ cs))
  unfolding lex_round StepWithin
  lex_round-StepWithin st c cs h =
      let passed = left-next st in
      let sep = skip_sep-Within st in
      elim (Bool-cases (is_newline c)) [
        | inl e ↦ rw e (newline-StepWithin st h)
        | inr n ↦ rw n elim (Bool-cases (c == b'-')) [
          | inl e ↦ rw e (minus-StepWithin st h)
          | inr n ↦ rw n elim (Bool-cases (c == b'[')) [
            | inl e ↦ rw e (bracket-StepWithin (left st) _ _ (omega arith))
            | inr n ↦ rw n elim (Bool-cases (c == b'=')) [
              | inl e ↦ rw e (with_equal-StepWithin c tk_eq st h)
              | inr n ↦ rw n elim (Bool-cases (c == b'<')) [
                | inl e ↦ rw e (with_equal-StepWithin c tk_le st h)
                | inr n ↦ rw n elim (Bool-cases (c == b'>')) [
                  | inl e ↦ rw e (with_equal-StepWithin c tk_ge st h)
                  | inr n ↦ rw n elim (Bool-cases (c == b'~')) [
                    | inl e ↦ rw e (with_equal-StepWithin c tk_ne st h)
                    | inr n ↦ rw n elim (Bool-cases (c == 34 || c == 39)) [
                      | inl e ↦ rw e (quoted-StepWithin c st h)
                      | inr n ↦ rw n elim (Bool-cases (c == b'.')) [
                        | inl e ↦ rw e (point-StepWithin st h)
                        | inr n ↦ rw n elim (Bool-cases (isspace c)) [
                          | inl e ↦ rw e (omega arith)
                          | inr n ↦ rw n elim (Bool-cases (isdigit c)) [
                            | inl e ↦ rw e (numeral-Within st h)
                            | inr n ↦ rw n elim (Bool-cases (isalpha c || c == b'_')) [
                              | inl e ↦ rw e (word-StepWithin st h)
                              | inr n ↦ rw n (omega arith)
                            ]
                          ]
                        ]
                      ]
                    ]
                  ]
                ]
              ]
            ]
          ]
        ]
      ]
