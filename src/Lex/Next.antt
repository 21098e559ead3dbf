-- ===== src/Lex/Next.antt =====
-- `llex`, `luaX_next` and `luaX_lookahead` of lua-5.1.5/src/llex.c.
use unitu_lua_test.Base.{
  ℕ, zero, suc, ◌+◌, ◌==◌, if◌then◌else◌, ◌||◌, Bool, true, false, List, [], ◌∷◌, Option, length,
}
use unitu_lua_test.Base.Int.{ℤ, pos, negsuc}
use unitu_lua_test.Chunk.Dump.{same_bytes}
use unitu_lua_test.Lex.{
  isdigit, isalpha, isspace, is_newline, SemInfo, no_info, string, Token, LexState, bad_delimiter,
  out_of_fuel, Result, ok, err, ◌>>=◌, first_reserved, tk_concat, tk_dots, tk_eq, tk_ge, tk_le,
  tk_ne, tk_number, tk_name, tk_string, tk_eos, reserved_words,
}
use unitu_lua_test.Lex.Scan.{
  next, save_and_next, resetbuffer, sees, inclinenumber, check_next, save_while, word_char,
  read_numeral, skip_sep, read_long_string, read_string,
}

-- A round of the loop of `llex`: it goes on, or returns a token.
pub data Step : Type 0 where
  again : LexState → Step
  token : ℕ → SemInfo → LexState → Step

-- The rest of a line.
unfoldable pub drop_line : List ℕ → List ℕ
drop_line [] = []
drop_line (c ∷ cs) = let rest = drop_line cs in if is_newline c then c ∷ cs else rest

unfoldable pub short_comment : LexState → Step
short_comment st = again (record st { input = drop_line st.input })

-- Behind `--[`
unfoldable pub comment : ℤ → LexState → Result Step
comment (pos sep) st =
    read_long_string true sep (resetbuffer st) >>= λ (info, st'). ok (again (resetbuffer st'))
comment (negsuc n) st = ok (short_comment (resetbuffer st))

unfoldable pub minus : LexState → Result Step
minus st =
    let st1 = next st in
    let st2 = next st1 in
    if sees st1 b'-'
    then (if sees st2 b'['
        then (let (k, st3) = skip_sep st2 in comment k st3)
        else ok (short_comment st2))
    else ok (token b'-' no_info st1)

unfoldable pub bracket : ℤ → LexState → Result Step
bracket (pos sep) st =
    read_long_string false sep st >>= λ (info, st'). ok (token tk_string info st')
bracket (negsuc n) st = if n == 0 then ok (token b'[' no_info st) else err bad_delimiter tk_string

-- `c`, or `c=`
unfoldable pub with_equal : ℕ → ℕ → LexState → Result Step
with_equal c two st =
    let st1 = next st in
    if sees st1 b'=' then ok (token two no_info (next st1)) else ok (token c no_info st1)

-- `s->tsv.reserved`, and TK_NAME for a name
unfoldable pub word_token : List (List ℕ) → ℕ → List ℕ → ℕ
word_token [] k ts = tk_name
word_token (w ∷ ws) k ts =
    let rest = word_token ws (k + 1) ts in if same_bytes w ts then k else rest

unfoldable pub word : LexState → Result Step
word st =
    let st1 = save_while word_char (save_and_next st) in
    let k = word_token reserved_words first_reserved st1.buff in
    ok (token k (if k == tk_name then string st1.buff else no_info) st1)

unfoldable pub starts_digit : List ℕ → Bool
starts_digit [] = false
starts_digit (c ∷ cs) = isdigit c

module _ (str2d : List ℕ → Option ℕ) where
  unfoldable pub numeral : LexState → Result Step
  numeral st = read_numeral str2d st >>= λ (info, st'). ok (token tk_number info st')

  -- A point, two or three of them, or a numeral
  unfoldable pub point : LexState → Result Step
  point st =
      let (two, st1) = check_next (b'.' ∷ []) (save_and_next st) in
      let (three, st2) = check_next (b'.' ∷ []) st1 in
      if two
      then ok (token (if three then tk_dots else tk_concat) no_info st2)
      else if starts_digit st1.input
      then numeral st1
      else ok (token b'.' no_info st1)

  unfoldable pub lex_round : LexState → List ℕ → Result Step
  lex_round st [] = ok (token tk_eos no_info st)
  lex_round st (c ∷ cs) =
      if is_newline c
      then (inclinenumber st >>= λ st'. ok (again st'))
      else if c == b'-'
      then minus st
      else if c == b'['
      then (let (k, st') = skip_sep st in bracket k st')
      else if c == b'='
      then with_equal c tk_eq st
      else if c == b'<'
      then with_equal c tk_le st
      else if c == b'>'
      then with_equal c tk_ge st
      else if c == b'~'
      then with_equal c tk_ne st
      else if c == 34 || c == 39
      then (read_string c st >>= λ (info, st'). ok (token tk_string info st'))
      else if c == b'.'
      then point st
      else if isspace c
      then ok (again (next st))
      else if isdigit c
      then numeral st
      else if isalpha c || c == b'_'
      then word st
      else ok (token c no_info (next st))

  unfoldable pub lex_loop : ℕ → LexState → Result (Token × LexState)
  lex_loop zero st = err out_of_fuel 0
  lex_loop (suc fuel) st = lex_round st st.input >>= λ s. elim s [
    | again st' ↦ lex_loop fuel st'
    | token k info st' ↦ ok (record { token = k; seminfo = info }, st')
  ]

  -- Every round but the last one takes a character at least.
  unfoldable pub llex : LexState → Result (Token × LexState)
  llex st = lex_loop (suc (length st.input)) (resetbuffer st)

  -- `luaX_next` and `luaX_lookahead`
  unfoldable pub next_token : LexState → Result LexState
  next_token st =
      let st' = record st { lastline = st.linenumber } in
      if st.ahead.token == tk_eos
      then (llex st' >>= λ (k, st1). ok (record st1 { t = k }))
      else ok (record st' { t = st.ahead; ahead = record st.ahead { token = tk_eos } })

  unfoldable pub lookahead_token : LexState → Result LexState
  lookahead_token st = llex st >>= λ (k, st'). ok (record st' { ahead = k })
