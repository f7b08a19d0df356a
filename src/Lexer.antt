-- ===== src/Lexer.antt =====
-- src/lexer.c with the token types of include/ast.h: `tokenizer_init`, `is_digits`,
-- `get_next_token` and the loop of `debug_tokens`. A `const char *` into the SQL text is the
-- suffix of the text that starts there; line and column are `int`s that never overflow on a line
-- read from the terminal.
pub mod Splits
pub mod Progress
pub mod Loop
pub mod Weight
pub mod Spell
pub mod Names
pub mod Types
use database_in_c.Prelude.{
  ℕ, zero, suc, ◌+◌, ◌-◌, Bool, true, false, not, ◌&&◌, ◌||◌, List, [], ◌∷◌, Option, none, some,
  length, ◌==◌, if◌then◌else◌, ℤ, pos,
}
use mathlib.Core.Option
use database_in_c.Chars.{Bytes, codes, is_digit, is_alnum, eq_ignoring_case, strtol}
pub use database_in_c.Lexer.Types.{
  TokenType, token_none, token_select, token_from, token_where, token_insert, token_into,
  token_value, token_set, token_identifier, token_integer, token_string, token_update, token_comma,
  token_lparen, token_rparen, token_semicolon, token_equal, token_star, token_eof, token_invalid,
  token_create, token_table, token_type_text, token_type_boolean, token_type_integer, token_primary,
  token_key, token_true, token_false, token_delete, type_code, type_is,
}

-- `text` holds the `text_length` bytes at the token's text pointer.
pub record Token : Type 0 where
  pub type : TokenType
  pub text : Bytes
  pub int_value : ℤ
  pub byte_offset : ℕ
  pub line : ℕ
  pub column : ℕ

pub record Tokenizer : Type 0 where
  pub text : Bytes
  pub cursor : Bytes
  pub line : ℕ
  pub column : ℕ

unfoldable pub tokenizer_init : Bytes → Tokenizer
tokenizer_init sql = record { text = sql; cursor = sql; line = 1; column = 1 }

unfoldable pub is_digits : Bytes → Bool
is_digits [] = true
is_digits (c ∷ s) = is_digit c && is_digits s

abbrev pub is_blank : ℕ → Bool
is_blank c = c == b' ' || c == b'\t' || c == b'\r' || c == b'\n'

-- The loop over the blanks, on the cursor, the line and the column.
pub skip_blanks : Bytes → ℕ → ℕ → Bytes × ℕ × ℕ
skip_blanks [] line column = ([], line, column)
skip_blanks (c ∷ rest) line column =
    let newline = c == b'\n' in
    let skipped =
      skip_blanks rest (if newline then line + 1 else line) (if newline then 1 else column + 1) in
    if is_blank c then skipped else (c ∷ rest, line, column)

-- The switch on the one-character tokens, `token_none` where no case applies.
unfoldable pub punctuation : ℕ → TokenType
punctuation c =
    if c == b','
    then token_comma
    else if c == b';'
    then token_semicolon
    else if c == b'('
    then token_lparen
    else if c == b')'
    then token_rparen
    else if c == b'='
    then token_equal
    else if c == b'*'
    then token_star
    else token_none

-- The loop to the closing quote: what stands before it, and the text from the quote on.
pub until_quote : Bytes → Bytes × Bytes
until_quote [] = ([], [])
until_quote (c ∷ rest) =
    let (body, after) = until_quote rest in if c == b'\'' then ([], c ∷ rest) else (c ∷ body, after)

abbrev pub is_word : ℕ → Bool
is_word c = is_alnum c || c == b'_'

-- The loop over the bytes of an identifier, keyword or number.
pub span_word : Bytes → Bytes × Bytes
span_word [] = ([], [])
span_word (c ∷ rest) =
    let (word, after) = span_word rest in if is_word c then (c ∷ word, after) else ([], c ∷ rest)

-- The chain of IS_KEYWORD tests.
unfoldable pub keyword : Bytes → Option TokenType
keyword w =
    if eq_ignoring_case w (codes "SELECT")
    then some token_select
    else if eq_ignoring_case w (codes "FROM")
    then some token_from
    else if eq_ignoring_case w (codes "WHERE")
    then some token_where
    else if eq_ignoring_case w (codes "INSERT")
    then some token_insert
    else if eq_ignoring_case w (codes "INTO")
    then some token_into
    else if eq_ignoring_case w (codes "VALUES")
    then some token_value
    else if eq_ignoring_case w (codes "TABLE")
    then some token_table
    else if eq_ignoring_case w (codes "CREATE")
    then some token_create
    else if eq_ignoring_case w (codes "INTEGER")
    then some token_type_integer
    else if eq_ignoring_case w (codes "TEXT")
    then some token_type_text
    else if eq_ignoring_case w (codes "BOOLEAN")
    then some token_type_boolean
    else if eq_ignoring_case w (codes "PRIMARY")
    then some token_primary
    else if eq_ignoring_case w (codes "KEY")
    then some token_key
    else if eq_ignoring_case w (codes "TRUE")
    then some token_true
    else if eq_ignoring_case w (codes "FALSE")
    then some token_false
    else if eq_ignoring_case w (codes "SET")
    then some token_set
    else if eq_ignoring_case w (codes "UPDATE")
    then some token_update
    else if eq_ignoring_case w (codes "DELETE")
    then some token_delete
    else none

-- The type of a word, with the number that an integer sets and any other word leaves alone.
unfoldable pub classify : Bytes → ℤ → TokenType × ℤ
unfolding keyword is_digits strtol
classify w int_value = elim (keyword w) [
  | some type ↦ (type, int_value)
  | none ↦ if is_digits w then (token_integer, pos (strtol w)) else (token_identifier, int_value)
]

-- A quoted string, `rest` being the text behind the opening quote. At the end of the text the
-- quote is missing.
pub lex_string : Bytes → Tokenizer → Token → Tokenizer × Token
unfolding until_quote
lex_string rest t out =
    let (body, after) = until_quote rest in
    elim after [
      | [] ↦ (
        record t { cursor = []; column = t.column + (length body + 1) },
        record out { type = token_invalid; text = body },
      )
      | _ ∷ after' ↦ (
        record t { cursor = after'; column = t.column + (length body + 2) },
        record out { type = token_string; text = body },
      )
    ]

pub lex_word : Tokenizer → Token → Tokenizer × Token
unfolding span_word classify
lex_word t out =
    let (word, after) = span_word t.cursor in
    let (type, int_value) = classify word out.int_value in
    (
      record t { cursor = after; column = t.column + length word },
      record out { type = type; text = word; int_value = int_value },
    )

-- The branches behind the blanks, on the cursor that is reached.
pub lex_at : Bytes → Tokenizer → Token → Tokenizer × Token
unfolding punctuation lex_string lex_word
lex_at [] t out = (t, record out { type = token_eof; text = [] })
lex_at (c ∷ rest) t out =
    if not (type_is (punctuation c) token_none)
    then (
      record t { cursor = rest; column = t.column + 1 },
      record out { type = punctuation c; text = c ∷ [] },
    )
    else if c == b'\''
    then lex_string rest t out
    else lex_word t out

-- The tokenizer behind the blanks.
abbrev pub skip : Tokenizer → Tokenizer
skip t =
    let (cursor, line, column) = skip_blanks t.cursor t.line t.column in
    record t { cursor = cursor; line = line; column = column }

-- The position that a token gets.
abbrev pub stamp : Tokenizer → Token → Token
stamp t out = record out {
  byte_offset = length t.text - length t.cursor;
  line = t.line;
  column = t.column;
}

-- The token keeps the `int_value` of `out` where the code does not set it.
pub get_next_token : Tokenizer → Token → Tokenizer × Token
unfolding skip_blanks lex_at
get_next_token t out = lex_at (skip t).cursor (skip t) (stamp (skip t) out)

abbrev pub no_token : Token
no_token = record {
  type = token_none;
  text = [];
  int_value = pos 0;
  byte_offset = 0;
  line = 0;
  column = 0;
}

-- The loop of `debug_tokens`: the tokens it prints, `none` where the fuel runs out.
pub tokens_loop : ℕ → Tokenizer → Token → Option (List Token)
unfolding get_next_token
tokens_loop zero t out = none
tokens_loop (suc fuel) t out =
    let (t', out') = get_next_token t out in
    let rest = tokens_loop fuel t' out' in
    if type_is out'.type token_eof then some (out' ∷ []) else Option.map (λ ts. out' ∷ ts) rest

-- Fuel for one token a byte, and the end.
pub debug_tokens : Bytes → Option (List Token)
unfolding tokens_loop tokenizer_init
debug_tokens sql = tokens_loop (length sql + 1) (tokenizer_init sql) no_token
