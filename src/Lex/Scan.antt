-- ===== src/Lex/Scan.antt =====
-- The functions of lua-5.1.5/src/llex.c. A loop of C over the input is a recursion on it, or takes as fuel the
-- number of characters that are left.
use unitu_lua_test.Base.{
  ℕ, zero, suc, ◌+◌, ◌-◌, ◌*◌, ◌^◌, ltb, leb, ◌==◌, if◌then◌else◌, ◌&&◌, ◌||◌, not, Bool, true,
  false, List, [], ◌∷◌, ◌++◌, Option, none, some, length, take, drop,
}
use unitu_lua_test.Base.Int.{ℤ, pos, negsuc}
use unitu_lua_test.Lex.{
  isdigit, isalnum, is_newline, SemInfo, no_info, number, string, LexState, too_many_lines,
  malformed_number, unfinished_long_string, unfinished_long_comment, nesting_deprecated,
  unfinished_string, escape_too_large, out_of_fuel, Result, ok, err, ◌>>=◌, tk_number, tk_string,
  tk_eos,
}

-- `next`, `save`, `save_and_next`; a char holds EOZ as 255
unfoldable pub tail_of : List ℕ → List ℕ
tail_of [] = []
tail_of (c ∷ cs) = cs

unfoldable pub next : LexState → LexState
next st = record st { input = tail_of st.input }

unfoldable pub save : ℕ → LexState → LexState
save c st = record st { buff = st.buff ++ (c ∷ []) }

unfoldable pub current_char : List ℕ → ℕ
current_char [] = 255
current_char (c ∷ cs) = c

unfoldable pub save_and_next : LexState → LexState
save_and_next st = next (save (current_char st.input) st)

unfoldable pub resetbuffer : LexState → LexState
resetbuffer st = record st { buff = [] }

-- `ls->current == c`
unfoldable pub sees_in : List ℕ → ℕ → Bool
sees_in [] c = false
sees_in (d ∷ ds) c = d == c

unfoldable pub sees : LexState → ℕ → Bool
unfolding sees_in
sees st c = sees_in st.input c

-- The input behind a newline, or behind two different characters for one.
unfoldable pub skip_newline : List ℕ → List ℕ
skip_newline [] = []
skip_newline (c ∷ []) = []
skip_newline (c ∷ d ∷ cs) = if is_newline d && not (d == c) then cs else d ∷ cs

unfoldable pub inclinenumber : LexState → Result LexState
inclinenumber st =
    let st' = record st { input = skip_newline st.input; linenumber = st.linenumber + 1 } in
    if leb (2 ^ 31 - 3) (st.linenumber + 1) then err too_many_lines st.t.token else ok st'

-- `strchr(set, c)` finds the zero byte that ends the set, too.
unfoldable pub strchr : List ℕ → ℕ → Bool
strchr [] c = c == 0
strchr (d ∷ ds) c = let rest = strchr ds c in d == c || rest

unfoldable pub seen_in : List ℕ → List ℕ → Bool
unfolding strchr
seen_in set [] = false
seen_in set (c ∷ cs) = strchr set c

unfoldable pub check_next : List ℕ → LexState → Bool × LexState
unfolding seen_in
check_next set st = if seen_in set st.input then (true, save_and_next st) else (false, st)

-- `while (p(ls->current)) save_and_next(ls)`: the input and the buffer
unfoldable pub grab : (ℕ → Bool) → List ℕ → List ℕ → List ℕ × List ℕ
grab p [] buff = ([], buff)
grab p (c ∷ cs) buff =
    let rest = grab p cs (buff ++ (c ∷ [])) in if p c then rest else (c ∷ cs, buff)

unfoldable pub save_while : (ℕ → Bool) → LexState → LexState
save_while p st = record st {
  input = (grab p st.input st.buff).0;
  buff = (grab p st.input st.buff).1;
}

unfoldable pub buffreplace : ℕ → ℕ → List ℕ → List ℕ
buffreplace from to [] = []
buffreplace from to (c ∷ cs) = (if c == from then to else c) ∷ buffreplace from to cs

abbrev pub word_char : ℕ → Bool
word_char c = isalnum c || c == b'_'

-- `luaO_str2d` of a C string: its number, if it is one.
module _ (str2d : List ℕ → Option ℕ) where
  unfoldable pub trydecpoint : LexState → Result (SemInfo × LexState)
  trydecpoint st =
      let st' = record st { buff = buffreplace st.decpoint b'.' st.buff; decpoint = b'.' } in
      elim (str2d st'.buff) [ none ↦ err malformed_number tk_number | some r ↦ ok (number r, st') ]

  unfoldable pub convert : LexState → Result (SemInfo × LexState)
  convert st =
      let st' = record st { buff = buffreplace b'.' st.decpoint (st.buff ++ (0 ∷ [])) } in
      elim (str2d st'.buff) [ none ↦ trydecpoint st' | some r ↦ ok (number r, st') ]

  unfoldable pub read_numeral : LexState → Result (SemInfo × LexState)
  read_numeral st =
      let st1 = save_while (λ c. isdigit c || c == b'.') (save_and_next st) in
      let (has_exponent, st2) = check_next (b'E' ∷ b'e' ∷ []) st1 in
      let st3 = if has_exponent then (check_next (b'+' ∷ b'-' ∷ []) st2).1 else st2 in
      convert (save_while word_char st3)

-- `while (ls->current == '=')`: the input, the buffer and the count
unfoldable pub sep_loop : List ℕ → List ℕ → ℕ → List ℕ × List ℕ × ℕ
sep_loop [] buff count = ([], buff, count)
sep_loop (c ∷ cs) buff count =
    let rest = sep_loop cs (buff ++ (c ∷ [])) (count + 1) in
    if c == b'=' then rest else (c ∷ cs, buff, count)

unfoldable pub skip_sep : LexState → ℤ × LexState
skip_sep st =
    let s = current_char st.input in
    let st1 = save_and_next st in
    let (input, buff, count) = sep_loop st1.input st1.buff 0 in
    (if sees_in input s then pos count else negsuc count, record st1 { input = input; buff = buff })

abbrev pub is_sep : ℤ → ℕ → Bool
is_sep (pos n) sep = n == sep
is_sep (negsuc n) sep = false

-- A round of the loop of `read_long_string`. `comment` says that there is no `seminfo`.
pub data Round : Type 0 where
  again : LexState → Round
  done : LexState → Round

unfoldable pub long_round : Bool → ℕ → LexState → List ℕ → Result Round
long_round comment sep st [] =
    err (if comment then unfinished_long_comment else unfinished_long_string) tk_eos
long_round comment sep st (c ∷ cs) =
    if c == b'['
    then (let (k, st') = skip_sep st in
        if is_sep k sep
        then (if sep == 0 then err nesting_deprecated b'[' else ok (again (save_and_next st')))
        else ok (again st'))
    else if c == b']'
    then (let (k, st') = skip_sep st in
        if is_sep k sep then ok (done (save_and_next st')) else ok (again st'))
    else if is_newline c
    then (inclinenumber (save 10 st) >>= λ st'.
        ok (again (if comment then resetbuffer st' else st')))
    else ok (again (if comment then next st else save_and_next st))

unfoldable pub long_loop : ℕ → Bool → ℕ → LexState → Result LexState
long_loop zero comment sep st = err out_of_fuel 0
long_loop (suc fuel) comment sep st = long_round comment sep st st.input >>= λ r. elim r [
  | again st' ↦ long_loop fuel comment sep st'
  | done st' ↦ ok st'
]

unfoldable pub read_long_string : Bool → ℕ → LexState → Result (SemInfo × LexState)
read_long_string comment sep st = do
  let st1 = save_and_next st
  st2 ← if sees st1 10 || sees st1 13 then inclinenumber st1 else ok st1
  st3 ← long_loop (suc (length st2.input)) comment sep st2
  let n = length st3.buff - 2 * (2 + sep)
  ok (if comment then no_info else string (take n (drop (2 + sep) st3.buff)), st3)

-- `switch (ls->current)` behind a backslash
unfoldable pub escape_char : ℕ → Option ℕ
escape_char c =
    if c == b'a'
    then some 7
    else if c == b'b'
    then some 8
    else if c == b'f'
    then some 12
    else if c == b'n'
    then some 10
    else if c == b'r'
    then some 13
    else if c == b't'
    then some 9
    else if c == b'v'
    then some 11
    else none

-- Three decimal digits at most.
unfoldable pub decimal_loop : ℕ → ℕ → List ℕ → ℕ × List ℕ
decimal_loop zero c input = (c, input)
decimal_loop (suc n) c [] = (c, [])
decimal_loop (suc n) c (d ∷ ds) =
    let rest = decimal_loop n (10 * c + (d - 48)) ds in if isdigit d then rest else (c, d ∷ ds)

unfoldable pub numeric_escape : LexState → Result LexState
numeric_escape st =
    let (c, input) = decimal_loop 3 0 st.input in
    if ltb 255 c then err escape_too_large tk_string else ok (save c (record st { input = input }))

unfoldable pub other_escape : LexState → ℕ → Result LexState
other_escape st c =
    if is_newline c
    then inclinenumber (save 10 st)
    else if isdigit c
    then numeric_escape st
    else ok (save_and_next st)

unfoldable pub escape : LexState → List ℕ → Result LexState
escape st [] = ok st
escape st (c ∷ cs) = elim (escape_char c) [
  | some v ↦ ok (next (save v st))
  | none ↦ other_escape st c
]

-- A round of the loop of `read_string`
unfoldable pub string_round : LexState → List ℕ → Result LexState
string_round st [] = err unfinished_string tk_eos
string_round st (c ∷ cs) =
    if is_newline c
    then err unfinished_string tk_string
    else if c == 92
    then escape (next st) cs
    else ok (save_and_next st)

unfoldable pub string_loop : ℕ → ℕ → LexState → Result LexState
string_loop zero del st = err out_of_fuel 0
string_loop (suc fuel) del st = elim (sees st del) [
  | true ↦ ok st
  | false ↦ string_round st st.input >>= string_loop fuel del
]

unfoldable pub read_string : ℕ → LexState → Result (SemInfo × LexState)
read_string del st = do
  let st1 = save_and_next st
  st2 ← string_loop (suc (length st1.input)) del st1
  let st3 = save_and_next st2
  ok (string (take (length st3.buff - 2) (drop 1 st3.buff)), st3)
