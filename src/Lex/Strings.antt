-- ===== src/Lex/Strings.antt =====
-- `read_string` (lua-5.1.5/src/llex.c) reads back what the format %q (lua-5.1.5/src/lstrlib.c) writes.
use mathlib.Core.Path.{subst, ap₂}
use mathlib.Core.List.{append_assoc, append-nil}
use unitu_lua_test.Base.{
  ℕ, zero, suc, ◌+◌, ◌-◌, ◌^◌, ◌<◌, ◌≤◌, ◌≡◌, refl, ap, ◌∙◌, sym, arith, leb, ◌==◌, ==_iff,
  if◌then◌else◌, false, Bool-cases, Option, take-append_left, inl, inr, List, [], ◌∷◌, ◌++◌, length,
  take, length-append,
}
use unitu_lua_test.Strlib.{quote_char, quote_chars, addquoted}
use unitu_lua_test.Lex.{isdigit, is_newline, tk_string, string, LexState, ok}
use unitu_lua_test.Lex.Next.{llex, lex_loop, lex_round}
use unitu_lua_test.Lex.Scan.{
  resetbuffer, next, tail_of, save, save_and_next, current_char, sees, sees_in, skip_newline,
  inclinenumber, escape_char, decimal_loop, numeric_escape, other_escape, escape, string_round,
  string_loop, read_string,
}

-- The number of line feeds.
unfoldable pub newlines : List ℕ → ℕ
newlines [] = 0
newlines (c ∷ s) = (if c == 10 then 1 else 0) + newlines s

abbrev goes_to : LexState → List ℕ → List ℕ → ℕ → LexState
goes_to st input buff line = record st { input = input; buff = buff; linenumber = line }

abbrev line_of : ℕ → ℕ → ℕ
line_of c n = if c == 10 then n + 1 else n

leb-false : (a b : ℕ) → b < a → leb a b ≡ false
leb-false a b h = ground arith

skip_newline-feed : (d : ℕ) (ds : List ℕ) → (d == 13) ≡ false → skip_newline (10 ∷ d ∷ ds) ≡ d ∷ ds
unfolding skip_newline is_newline
skip_newline-feed d ds h = elim (Bool-cases (d == 10)) [
  | inl e ↦ rw e refl
  | inr e ↦ rw (e, h) refl
]

-- `inclinenumber` takes a line feed alone, if no carriage return is behind it.
inclinenumber-feed :
    (st : LexState) (cs buff : List ℕ) (line : ℕ)
    → sees_in cs 13 ≡ false
    → line + 1 < 2 ^ 31 - 3
    → inclinenumber (goes_to st (10 ∷ cs) buff line) ≡ ok (goes_to st cs buff (line + 1))
unfolding inclinenumber skip_newline sees_in is_newline
inclinenumber-feed st [] buff line h room = rw (leb-false _ _ room) refl
inclinenumber-feed st (d ∷ ds) buff line h room =
    rw (leb-false _ _ room, skip_newline-feed d ds h) refl

-- The characters that the format %q treats apart, and the others.
quoted_cases {ℓ} :
    (P : ℕ → Type ℓ)
    → P 34 × P 92 × P 10 × P 13 × P 0
    → ((c : ℕ)
        → (c == 34) ≡ false
        → (c == 92) ≡ false
        → (c == 10) ≡ false
        → (c == 13) ≡ false
        → (c == 0) ≡ false
        → P c)
    → (c : ℕ) → P c
quoted_cases P (p34, p92, p10, p13, p0) other c = elim (Bool-cases (c == 34)) [
  | inl e ↦ subst P (sym ((==_iff _ _).0 e)) p34
  | inr n34 ↦ elim (Bool-cases (c == 92)) [
    | inl e ↦ subst P (sym ((==_iff _ _).0 e)) p92
    | inr n92 ↦ elim (Bool-cases (c == 10)) [
      | inl e ↦ subst P (sym ((==_iff _ _).0 e)) p10
      | inr n10 ↦ elim (Bool-cases (c == 13)) [
        | inl e ↦ subst P (sym ((==_iff _ _).0 e)) p13
        | inr n13 ↦ elim (Bool-cases (c == 0)) [
          | inl e ↦ subst P (sym ((==_iff _ _).0 e)) p0
          | inr n0 ↦ other c n34 n92 n10 n13 n0
        ]
      ]
    ]
  ]
]

module _ (st : LexState) (tail buff : List ℕ) (line : ℕ) where
  -- One round reads what `quote_char` wrote for `c`.
  abbrev Reads : ℕ → Type 0
  Reads c =
      string_round (goes_to st (quote_char c ++ tail) buff line) (quote_char c ++ tail)
      ≡ ok (goes_to st tail (buff ++ (c ∷ [])) (line_of c line))

  plain-Reads :
      (c : ℕ)
      → (c == 34) ≡ false
      → (c == 92) ≡ false
      → (c == 10) ≡ false
      → (c == 13) ≡ false
      → (c == 0) ≡ false
      → Reads c
  unfolding string_round quote_char save_and_next next save tail_of current_char is_newline
  plain-Reads c quote backslash feed return zero_byte =
      rw (quote, backslash, feed, return, zero_byte) (rw (feed, return, backslash) refl)

  quote-Reads : Reads 34
  unfolding string_round quote_char save_and_next next save tail_of current_char is_newline escape
      escape_char other_escape isdigit
  quote-Reads = refl

  backslash-Reads : Reads 92
  unfolding string_round quote_char save_and_next next save tail_of current_char is_newline escape
      escape_char other_escape isdigit
  backslash-Reads = refl

  return-Reads : Reads 13
  unfolding string_round quote_char save_and_next next save tail_of current_char is_newline escape
      escape_char other_escape isdigit
  return-Reads = refl

  zero-Reads : Reads 0
  unfolding string_round quote_char save_and_next next save tail_of current_char is_newline escape
      escape_char other_escape isdigit numeric_escape decimal_loop
  zero-Reads = refl

  -- A line feed is not joined with a carriage return behind it, since none stands there.
  feed-Reads : sees_in tail 13 ≡ false → line + 1 < 2 ^ 31 - 3 → Reads 10
  unfolding string_round quote_char save_and_next next save tail_of current_char is_newline escape
      escape_char other_escape isdigit
  feed-Reads h room = inclinenumber-feed st tail (buff ++ (10 ∷ [])) line h room

  char-Reads : (c : ℕ) → sees_in tail 13 ≡ false → line_of c line < 2 ^ 31 - 3 → Reads c
  char-Reads c h =
      quoted_cases (λ c. line_of c line < 2 ^ 31 - 3 → Reads c)
        (
          (λ _. quote-Reads),
          (λ _. backslash-Reads),
          (λ room. feed-Reads h room),
          (λ _. return-Reads),
          (λ _. zero-Reads),
        )
        (λ c n34 n92 n10 n13 n0 _. plain-Reads c n34 n92 n10 n13 n0) c

-- What is written for a character starts with neither a quote nor a carriage return.
sees_in-quote_char :
    (c : ℕ) (rest : List ℕ)
    → (sees_in (quote_char c ++ rest) 34 ≡ false) × (sees_in (quote_char c ++ rest) 13 ≡ false)
unfolding sees_in quote_char
sees_in-quote_char c rest =
    quoted_cases
      (λ c.
        (sees_in (quote_char c ++ rest) 34 ≡ false) × (sees_in (quote_char c ++ rest) 13 ≡ false))
      ((refl, refl), (refl, refl), (refl, refl), (refl, refl), (refl, refl))
      (λ c n34 n92 n10 n13 n0. rw (n34, n92, n10, n13, n0) (n34, n13)) c

sees_in-quote_chars : (s rest : List ℕ) → sees_in (quote_chars s ++ (34 ∷ rest)) 13 ≡ false
unfolding sees_in quote_chars
sees_in-quote_chars [] rest = refl
sees_in-quote_chars (c ∷ s) rest =
    rw (append_assoc (quote_char c) (quote_chars s) (34 ∷ rest))
      (sees_in-quote_char c (quote_chars s ++ (34 ∷ rest))).1

line_of-add :
    (c : ℕ) (s : List ℕ) (line : ℕ) → line_of c line + newlines s ≡ line + newlines (c ∷ s)
unfolding newlines
line_of-add c s line = elim (Bool-cases (c == 10)) [
  | inl e ↦ rw e (omega arith)
  | inr e ↦ rw e (omega arith)
]

string_loop-goes_on :
    (fuel del : ℕ) (st st' : LexState)
    → sees_in st.input del ≡ false
    → string_round st st.input ≡ ok st'
    → string_loop (suc fuel) del st ≡ string_loop fuel del st'
unfolding string_loop sees
string_loop-goes_on fuel del st st' h e = rw (h, e, string_loop, sees) refl

-- The loop reads what was written, and stops at the quote behind it.
string_loop-quote_chars :
    (fuel : ℕ) (s : List ℕ) (st : LexState) (rest buff : List ℕ) (line : ℕ)
    → length s < fuel
    → line + newlines s < 2 ^ 31 - 3
    → string_loop fuel 34 (goes_to st (quote_chars s ++ (34 ∷ rest)) buff line)
      ≡ ok (goes_to st (34 ∷ rest) (buff ++ s) (line + newlines s))
unfolding string_loop sees sees_in quote_chars newlines
string_loop-quote_chars zero s st rest buff line enough room = absurd (omega arith)
string_loop-quote_chars (suc fuel) [] st rest buff line enough room =
    ap ok (ap₂ (λ b n. goes_to st (34 ∷ rest) b n) (sym (append-nil buff)) (omega arith))
string_loop-quote_chars (suc fuel) (c ∷ s) st rest buff line enough room =
    let tail = quote_chars s ++ (34 ∷ rest) in
    let room' : line_of c line + newlines s < 2 ^ 31 - 3 =
      subst (λ n. n < 2 ^ 31 - 3) (sym (line_of-add c s line)) room in
    let below : line_of c line < 2 ^ 31 - 3 = omega arith in
    let round = char-Reads st tail buff line c (sees_in-quote_chars s rest) below in
    rw (append_assoc (quote_char c) (quote_chars s) (34 ∷ rest)) (
      string_loop-goes_on fuel 34 (goes_to st (quote_char c ++ tail) buff line)
        (goes_to st tail (buff ++ (c ∷ [])) (line_of c line)) (sees_in-quote_char c tail).0 round
      ∙ string_loop-quote_chars fuel s st rest (buff ++ (c ∷ [])) (line_of c line) (omega arith)
          room'
      ∙ ap ok (ap₂ (goes_to st (34 ∷ rest)) (append_assoc buff (c ∷ []) s) (line_of-add c s line)))

one_le-length-quote_char : (c : ℕ) → 1 ≤ length (quote_char c)
unfolding quote_char
one_le-length-quote_char c =
    quoted_cases (λ c. 1 ≤ length (quote_char c))
      (omega arith, omega arith, omega arith, omega arith, omega arith)
      (λ c n34 n92 n10 n13 n0. rw (n34, n92, n10, n13, n0) (omega arith)) c

length-quote_chars : (s : List ℕ) → length s ≤ length (quote_chars s)
unfolding quote_chars
length-quote_chars [] = omega arith
length-quote_chars (c ∷ s) =
    rw (length-append (quote_char c) (quote_chars s))
      (let head = one_le-length-quote_char c in let tail = length-quote_chars s in omega arith)

-- What the loop leaves in the buffer, without its quotes.
unquoted : (s : List ℕ) → take (length (34 ∷ (s ++ (34 ∷ []))) - 2) (s ++ (34 ∷ [])) ≡ s
unquoted s =
    let e : length (34 ∷ (s ++ (34 ∷ []))) - 2 ≡ length s =
      rw (length-append s (34 ∷ [])) (omega arith) in
    rw e (take-append_left s (34 ∷ []))

read_string-addquoted :
    (st : LexState) (s rest : List ℕ) (line : ℕ)
    → line + newlines s < 2 ^ 31 - 3
    → read_string 34 (goes_to st (34 ∷ (quote_chars s ++ (34 ∷ rest))) [] line)
      ≡ ok (string s, goes_to st rest (34 ∷ (s ++ (34 ∷ []))) (line + newlines s))
unfolding read_string save_and_next save next tail_of current_char
read_string-addquoted st s rest line room =
    let tail = quote_chars s ++ (34 ∷ rest) in
    let enough : length s < suc (length tail) =
      rw (length-append (quote_chars s) (34 ∷ rest))
        (let h = length-quote_chars s in omega arith) in
    rw (string_loop-quote_chars (suc (length tail)) s st rest (34 ∷ []) line enough room) (
      ap (λ t. ok (string t, goes_to st rest (34 ∷ (s ++ (34 ∷ []))) (line + newlines s)))
        (unquoted s))

module _ (str2d : List ℕ → Option ℕ) where
  -- The lexer reads what the format %q wrote for a string as one token: that string. What follows is left to be
  -- read, and the line number grows by the line feeds in the string. It must stay below the limit of lines.
  pub llex-addquoted :
      (st : LexState) (s rest : List ℕ)
      → st.linenumber + newlines s < 2 ^ 31 - 3
      → llex str2d (record st { input = addquoted [] s ++ rest })
        ≡ ok (
          record { token = tk_string; seminfo = string s },
          goes_to st rest (34 ∷ (s ++ (34 ∷ []))) (st.linenumber + newlines s),
        )
  unfolding llex lex_loop lex_round is_newline addquoted resetbuffer
  llex-addquoted st s rest room =
      rw
        (
          append_assoc (quote_chars s) (34 ∷ []) rest,
          read_string-addquoted st s rest st.linenumber room,
        )
        refl
