-- ===== src/Lex/Lines.antt =====
-- The loops of long strings and numerals in lua-5.1.5/src/llex.c end.
use unitu_lua_test.Base.{
  ℕ, zero, suc, ◌-◌, ◌<◌, ◌≡◌, refl, ap, arith, ◌==◌, if◌then◌else◌, ◌||◌, Bool, true, false,
  Bool-cases, inl, inr, List, [], ◌∷◌, ◌++◌, Option, length,
}
use unitu_lua_test.Lex.{
  isdigit, is_newline, SemInfo, number, LexState, malformed_number, tk_number, Result, ok, err,
}
use unitu_lua_test.Lex.Scan.{
  next, save, save_and_next, sees, inclinenumber, check_next, save_while, word_char, buffreplace,
  trydecpoint, convert, read_numeral, skip_sep, is_sep, Round, again, done, long_round, long_loop,
  read_long_string, resetbuffer,
}
use unitu_lua_test.Lex.Ends.{
  IsReported, Post, Post-bind, Post-weaken, Post-option, left, Within, left-next,
  left-save_and_next, inclinenumber-Within, check_next-Within, save_while-Within, skip_sep-Within,
}

-- A round that goes on has taken a character, and none gives one back.
RoundWithin : ℕ → Round → Type 0
RoundWithin n (again st) = left st < n
RoundWithin n (done st) = left st < n

left-resetbuffer : (b : Bool) (st : LexState) → left (if b then resetbuffer st else st) ≡ left st
unfolding resetbuffer
left-resetbuffer true st = refl
left-resetbuffer false st = refl

left-skip :
    (b : Bool) (st : LexState) → left (if b then next st else save_and_next st) ≡ left st - 1
left-skip true st = left-next st
left-skip false st = left-save_and_next st

long_round-RoundWithin :
    (comment : Bool) (sep : ℕ) (st : LexState) (xs : List ℕ)
    → st.input ≡ xs
    → Post (RoundWithin (left st)) (long_round comment sep st xs)
unfolding long_round RoundWithin IsReported resetbuffer save
long_round-RoundWithin true sep st [] h = tt
long_round-RoundWithin false sep st [] h = tt
long_round-RoundWithin comment sep st (c ∷ cs) h =
    let some_left : left st ≡ suc (length cs) = ap length h in
    let k = (skip_sep st).0 in
    let st' = (skip_sep st).1 in
    let fewer = skip_sep-Within st in
    let saved = left-save_and_next st' in
    elim (Bool-cases (c == b'[')) [
      | inl e ↦ rw e elim (Bool-cases (is_sep k sep)) [
        | inl y ↦ rw y elim (Bool-cases (sep == 0)) [ inl z ↦ rw z tt | inr z ↦ rw z (omega arith) ]
        | inr y ↦ rw y (omega arith)
      ]
      | inr n ↦ elim (Bool-cases (c == b']')) [
        | inl e ↦
            rw (n, e)
              elim (Bool-cases (is_sep k sep)) [
                | inl y ↦ rw y (omega arith)
                | inr y ↦ rw y (omega arith)
              ]
        | inr n' ↦ elim (Bool-cases (is_newline c)) [
          | inl e ↦
              rw (n, n', e)
                (Post-bind (Within (left st - 1)) (RoundWithin (left st))
                  (inclinenumber (save 10 st))
                  (λ st'. ok (again (if comment then resetbuffer st' else st')))
                  (inclinenumber-Within (save 10 st))
                  (λ st' h. (let e = left-resetbuffer comment st' in omega arith)))
          | inr e ↦ rw (n, n', e) (let e = left-skip comment st in omega arith)
        ]
      ]
    ]

Post-round :
    (Q : LexState → Type 0) (f : LexState → Result LexState) (n : ℕ) (r : Round)
    → RoundWithin n r
    → ((st : LexState) → left st < n → Post Q (f st))
    → ((st : LexState) → left st < n → Q st)
    → Post Q (elim r [ again st ↦ f st | done st ↦ ok st ])
unfolding RoundWithin
Post-round Q f n (again st) h goes_on stops = goes_on st h
Post-round Q f n (done st) h goes_on stops = stops st h

long_loop-Within :
    (fuel : ℕ) (comment : Bool) (sep : ℕ) (st : LexState)
    → left st < fuel
    → Post (Within (left st)) (long_loop fuel comment sep st)
unfolding long_loop
long_loop-Within zero comment sep st enough = absurd (omega arith)
long_loop-Within (suc fuel) comment sep st enough =
    Post-bind (RoundWithin (left st)) (Within (left st)) (long_round comment sep st st.input)
      (λ r. elim r [ again st' ↦ long_loop fuel comment sep st' | done st' ↦ ok st' ])
      (long_round-RoundWithin comment sep st st.input refl)
      (λ r h.
        Post-round (Within (left st)) (long_loop fuel comment sep) (left st) r h
          (λ st' g.
            Post-weaken (Within (left st')) (Within (left st)) (long_loop fuel comment sep st')
              (long_loop-Within fuel comment sep st' (omega arith)) (λ _ w. omega arith))
          (λ st' g. omega arith))

-- What is left behind a token.
abbrev pub Passed : ℕ → SemInfo × LexState → Type 0
Passed n r = Within n r.1

-- A newline behind the opening bracket.
first_line-Within :
    (st : LexState) (b : Bool) → Post (Within (left st)) (if b then inclinenumber st else ok st)
first_line-Within st true =
    Post-weaken (Within (left st - 1)) (Within (left st)) (inclinenumber st)
      (inclinenumber-Within st) (λ _ h. omega arith)
first_line-Within st false = omega arith

pub read_long_string-Within :
    (comment : Bool) (sep : ℕ) (st : LexState)
    → Post (Passed (left st - 1)) (read_long_string comment sep st)
unfolding read_long_string
read_long_string-Within comment sep st =
    let st1 = save_and_next st in
    let b = sees st1 10 || sees st1 13 in
    Post-bind (Within (left st1)) (Passed (left st - 1)) (if b then inclinenumber st1 else ok st1) _
      (first_line-Within st1 b)
      (λ st2 h.
        Post-bind (Within (left st2)) (Passed (left st - 1))
          (long_loop (suc (length st2.input)) comment sep st2) _
          (long_loop-Within (suc (left st2)) comment sep st2 (omega arith))
          (λ st3 g. (let e = left-save_and_next st in omega arith)))

module _ (str2d : List ℕ → Option ℕ) where
  trydecpoint-Within : (st : LexState) → Post (Passed (left st)) (trydecpoint str2d st)
  unfolding trydecpoint IsReported
  trydecpoint-Within st =
      Post-option (Passed (left st)) (str2d (buffreplace st.decpoint b'.' st.buff))
        (err malformed_number tk_number)
        (λ r.
          ok (number r, record st { buff = buffreplace st.decpoint b'.' st.buff; decpoint = b'.' }))
        tt (λ r. (omega arith))

  convert-Within : (st : LexState) → Post (Passed (left st)) (convert str2d st)
  unfolding convert
  convert-Within st =
      let st' = record st { buff = buffreplace b'.' st.decpoint (st.buff ++ (0 ∷ [])) } in
      Post-option (Passed (left st)) (str2d st'.buff) (trydecpoint str2d st')
        (λ r. ok (number r, st')) (trydecpoint-Within st') (λ r. (omega arith))

  exponent-Within :
      (b : Bool) (set : List ℕ) (st : LexState)
      → Within (left st) (if b then (check_next set st).1 else st)
  exponent-Within true set st = check_next-Within set st
  exponent-Within false set st = omega arith

  pub read_numeral-Within : (st : LexState) → Post (Passed (left st - 1)) (read_numeral str2d st)
  unfolding read_numeral
  read_numeral-Within st =
      let p : ℕ → Bool = λ c. isdigit c || c == b'.' in
      let st1 = save_while p (save_and_next st) in
      let st2 = (check_next (b'E' ∷ b'e' ∷ []) st1).1 in
      let b = (check_next (b'E' ∷ b'e' ∷ []) st1).0 in
      let st3 = if b then (check_next (b'+' ∷ b'-' ∷ []) st2).1 else st2 in
      let st4 = save_while word_char st3 in
      let h0 = left-save_and_next st in
      let h1 = save_while-Within p (save_and_next st) in
      let h2 = check_next-Within (b'E' ∷ b'e' ∷ []) st1 in
      let h3 = exponent-Within b (b'+' ∷ b'-' ∷ []) st2 in
      let h4 = save_while-Within word_char st3 in
      Post-weaken (Passed (left st4)) (Passed (left st - 1)) (convert str2d st4)
        (convert-Within st4) (λ r h. (omega arith))
