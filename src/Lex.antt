-- ===== src/Lex.antt =====
-- The lexer: lua-5.1.5/src/llex.c and llex.h. `input` is what is left to read, the current character first; at the
-- end of the stream it is empty. The buffer is a list; memory does not run out. Characters are bytes, classified as
-- the C locale does.
pub mod Scan
pub mod Next
pub mod Strings
pub mod Ends
pub mod Lines
pub mod Rounds
pub mod Progress
use Prim.Native.Nat.{compare}
use unitu_lua_test.Base.{
  ℕ, zero, suc, ◌+◌, ◌-◌, ◌^◌, leb, ◌==◌, if◌then◌else◌, ◌&&◌, ◌||◌, not, Bool, true, false, List,
  [], ◌∷◌, ◌++◌, Option, none, some,
}
use unitu_lua_test.Base.Text.{codes}

-- The numbers of the tokens that are no characters.
abbrev pub first_reserved : ℕ
first_reserved = 257

abbrev pub tk_concat : ℕ
tk_concat = 278

abbrev pub tk_dots : ℕ
tk_dots = 279

abbrev pub tk_eq : ℕ
tk_eq = 280

abbrev pub tk_ge : ℕ
tk_ge = 281

abbrev pub tk_le : ℕ
tk_le = 282

abbrev pub tk_ne : ℕ
tk_ne = 283

abbrev pub tk_number : ℕ
tk_number = 284

abbrev pub tk_name : ℕ
tk_name = 285

abbrev pub tk_string : ℕ
tk_string = 286

abbrev pub tk_eos : ℕ
tk_eos = 287

-- The reserved words, in the order of their tokens.
abbrev pub reserved_words : List (List ℕ)
reserved_words =
    codes "and"
    ∷ codes "break"
    ∷ codes "do"
    ∷ codes "else"
    ∷ codes "elseif"
    ∷ codes "end"
    ∷ codes "false"
    ∷ codes "for"
    ∷ codes "function"
    ∷ codes "if"
    ∷ codes "in"
    ∷ codes "local"
    ∷ codes "nil"
    ∷ codes "not"
    ∷ codes "or"
    ∷ codes "repeat"
    ∷ codes "return"
    ∷ codes "then"
    ∷ codes "true"
    ∷ codes "until"
    ∷ codes "while"
    ∷ []

-- The classes of <ctype.h>.
unfoldable pub isdigit : ℕ → Bool
isdigit c = leb 48 c && leb c 57

unfoldable pub isalpha : ℕ → Bool
isalpha c = (leb 65 c && leb c 90) || (leb 97 c && leb c 122)

unfoldable pub isalnum : ℕ → Bool
unfolding isdigit isalpha
isalnum c = isdigit c || isalpha c

unfoldable pub isspace : ℕ → Bool
isspace c = c == 32 || (leb 9 c && leb c 13)

unfoldable pub is_newline : ℕ → Bool
is_newline c = c == 10 || c == 13

-- What a token carries: nothing, the bits of a number, or a string.
pub data SemInfo : Type 0 where
  no_info : SemInfo
  number : ℕ → SemInfo
  string : List ℕ → SemInfo

pub record Token : Type 0 where
  pub token : ℕ
  pub seminfo : SemInfo

pub record LexState : Type 0 where
  pub input : List ℕ
  pub linenumber : ℕ
  pub lastline : ℕ
  pub t : Token
  pub ahead : Token
  pub buff : List ℕ
  pub decpoint : ℕ

-- The messages of `luaX_lexerror`. `out_of_fuel` is the model's own.
pub data Message : Type 0 where
  too_many_lines malformed_number unfinished_long_string unfinished_long_comment : Message
  nesting_deprecated unfinished_string escape_too_large bad_delimiter out_of_fuel : Message

-- An error has its message and the token that is shown with it; 0 for none.
pub data Result {ℓ} (A : Type ℓ) : Type ℓ where
  ok : A → Result A
  err : Message → ℕ → Result A

infixl 5 ◌>>=◌
abbrev pub ◌>>=◌ {ℓ κ} : {A : Type ℓ} {B : Type κ} → Result A → (A → Result B) → Result B
ok a >>= f = f a
err m k >>= f = err m k

-- `luaX_setinput`; the character that it reads first is the head of the input
unfoldable pub setinput : List ℕ → LexState
setinput input = record {
  input = input;
  linenumber = 1;
  lastline = 1;
  t = record { token = 0; seminfo = no_info };
  ahead = record { token = tk_eos; seminfo = no_info };
  buff = [];
  decpoint = b'.';
}
