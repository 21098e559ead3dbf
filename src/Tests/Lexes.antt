-- ===== src/Tests/Lexes.antt =====
-- The lexer (lua-5.1.5/src/llex.c) at concrete texts.
use unitu_lua_test.Base.{
  ℕ, zero, suc, ◌+◌, ◌-◌, ◌≡◌, refl, arith, List, [], ◌∷◌, ◌++◌, if◌then◌else◌, Option, some, none,
  length,
}
use unitu_lua_test.Base.Text.{codes}
use unitu_lua_test.Chunk.Dump.{same_bytes}
use unitu_lua_test.Strlib.{addquoted}
use unitu_lua_test.Lex.{
  isdigit, isalpha, isalnum, isspace, is_newline, string, no_info, LexState, ok, err, setinput,
  tk_string, tk_eos, tk_concat, tk_name, tk_number, unfinished_string,
}
use unitu_lua_test.Lex.Scan.{
  next, tail_of, save, save_and_next, current_char, resetbuffer, sees, sees_in, skip_newline,
  inclinenumber, strchr, seen_in, check_next, grab, save_while, buffreplace, convert, read_numeral,
  sep_loop, skip_sep, long_round, long_loop, read_long_string, string_round, string_loop,
  read_string,
}
use unitu_lua_test.Lex.Next.{
  drop_line, short_comment, comment, minus, bracket, with_equal, word_token, word, starts_digit,
  numeral, point, lex_round, lex_loop, llex,
}
use unitu_lua_test.Lex.Ends.{Post}
use unitu_lua_test.Lex.Strings.{llex-addquoted, newlines}
use unitu_lua_test.Lex.Progress.{llex-Advances, nth_token, nth_token-eos, Advances}

-- A number, for the tests: of its first digit, and nothing for a point alone.
digit_of : List ℕ → Option ℕ
digit_of [] = none
digit_of (c ∷ cs) = if isdigit c then some (c - 48) else none

-- The tokens of a text, up to an error or the end.
kinds : ℕ → LexState → List ℕ
unfolding llex lex_loop
kinds zero st = []
kinds (suc n) st = elim (llex digit_of st) [ ok r ↦ r.0.token ∷ kinds n r.1 | err m k ↦ [] ]

-- local x=1--[[c
-- ]]..
tokens :
    kinds 6 (setinput (codes "local x=1--[[c" ++ (10 ∷ codes "]]..")))
    ≡ 268 ∷ tk_name ∷ 61 ∷ tk_number ∷ tk_concat ∷ tk_eos ∷ []
unfolding kinds llex lex_loop lex_round word numeral minus point with_equal comment bracket setinput
    digit_of isdigit isalpha isalnum isspace is_newline same_bytes drop_line short_comment
    word_token starts_digit next tail_of save save_and_next current_char resetbuffer sees sees_in
    skip_newline inclinenumber strchr seen_in check_next grab save_while buffreplace convert
    read_numeral sep_loop skip_sep long_round long_loop read_long_string
tokens = refl

-- The C string of the set "." ends with a zero byte, which strchr finds: the text of a point and a zero byte is
-- the token TK_CONCAT, as two points are.
zero_taken : kinds 1 (setinput (b'.' ∷ 0 ∷ [])) ≡ tk_concat ∷ []
unfolding kinds llex lex_loop lex_round point setinput isdigit isspace is_newline starts_digit next
    tail_of save save_and_next current_char resetbuffer strchr seen_in check_next
zero_taken = refl

unfinished : llex digit_of (setinput (34 ∷ 97 ∷ 10 ∷ 34 ∷ [])) ≡ err unfinished_string tk_string
unfolding llex lex_loop lex_round setinput is_newline next tail_of save save_and_next current_char
    resetbuffer sees sees_in read_string string_loop string_round
unfinished = refl

abbrev start : LexState
start = record {
  input = [];
  linenumber = 1;
  lastline = 1;
  t = record { token = 0; seminfo = no_info };
  ahead = record { token = tk_eos; seminfo = no_info };
  buff = [];
  decpoint = b'.';
}

-- A quote, a line feed, a zero byte and a carriage return
abbrev odd : List ℕ
odd = 97 ∷ 34 ∷ 10 ∷ 0 ∷ 13 ∷ 49 ∷ []

llex-addquoted_example :
    llex digit_of (record start { input = addquoted [] odd ++ codes ".." })
    ≡ ok (
      record { token = tk_string; seminfo = string odd },
      record start {
        input = codes "..";
        buff = 34 ∷ (odd ++ (34 ∷ []));
        linenumber = 1 + newlines odd;
      },
    )
unfolding newlines
llex-addquoted_example = llex-addquoted digit_of start odd (codes "..") (omega arith)

llex-Advances_example :
    Post
      (Advances digit_of (length (codes "x = 1")))
      (llex digit_of (record start { input = codes "x = 1" }))
llex-Advances_example = llex-Advances digit_of (record start { input = codes "x = 1" })

nth_token-eos_example :
    Post (λ r. r.0.token ≡ tk_eos) (nth_token digit_of 5 (record start { input = codes "x = 1" }))
nth_token-eos_example =
    nth_token-eos digit_of 5 (record start { input = codes "x = 1" }) (omega arith)
