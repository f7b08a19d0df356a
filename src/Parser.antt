-- ===== src/Parser.antt =====
-- The parser of src/parser.c and include/parser.h: `parser_init`, `parser_advance`, the errors, and
-- `parse_primary_expression`, `parse_column_type` and `parse_expression`. A function that returns a
-- null pointer leaves its error, so a result is a tree with the parser behind it, or the error.
pub mod Query
pub mod Define
pub mod Post
pub mod Reads
pub mod Print
pub mod RoundTrip
pub mod Shape
use database_in_c.Prelude.{
  ◌++◌, ℕ, zero, suc, ◌+◌, Bool, true, false, ◌||◌, Option, none, some, length, leb, if◌then◌else◌,
}
use database_in_c.Chars.{Bytes, codes, digits}
use database_in_c.Lexer.Names.{snprintf_256, token_type_name}
use database_in_c.Lexer.{
  TokenType, token_none, token_integer, token_string, token_identifier, token_true, token_false,
  token_equal, token_type_text, token_type_boolean, token_type_integer, type_is, Token, Tokenizer,
  tokenizer_init, get_next_token, no_token,
}
use database_in_c.Ast.{
  Expr, literal_int, literal_string, literal_boolean, column, equals, ColumnType, column_text,
  column_boolean, column_integer,
}

-- The error is in the result. The first token's memory, which `parser_init` does not set, is
-- `no_token`: `get_next_token` sets its type before it reads it.
pub record Parser : Type 0 where
  pub tokenizer : Tokenizer
  pub current : Token

-- What `parser_set_error` puts into the text: the place of the current token, what was expected, and the
-- token, whose name `token_type_name` gives.
pub record ParseError : Type 0 where
  pub line : ℕ
  pub column : ℕ
  pub expected : Bytes
  pub found : Token

-- `parse_undefined` is an `ast_destroy` of a node that was not initialised in full.
pub data Parsed {ℓ} (A : Type ℓ) : Type ℓ where
  parsed : A → Parser → Parsed A
  failed : ParseError → Parsed A
  parse_undefined parse_out_of_fuel : Parsed A

abbrev pub Parse {ℓ} : Type ℓ → Type ℓ
Parse A = Parser → Parsed A

infixl 5 ◌>>=◌ ◌>>◌
abbrev pub ◌>>=◌ {ℓ κ} : {A : Type ℓ} {B : Type κ} → Parse A → (A → Parse B) → Parse B
◌>>=◌ m f p = elim (m p) [
  | parsed a p' ↦ f a p'
  | failed e ↦ failed e
  | parse_undefined ↦ parse_undefined
  | parse_out_of_fuel ↦ parse_out_of_fuel
]

abbrev pub ◌>>◌ {ℓ} : {B : Type ℓ} → Parse (Unit {0}) → Parse B → Parse B
m >> k = m >>= λ _. k

abbrev pub pure {ℓ} : {A : Type ℓ} → A → Parse A
pure a p = parsed a p

unfoldable pub parser_set_error : Parser → Bytes → ParseError
parser_set_error p expected = record {
  line = p.current.line;
  column = p.current.column;
  expected = expected;
  found = p.current;
}

-- The text of the error.
unfoldable pub error_text : ParseError → Bytes
error_text e = snprintf_256 (
    codes "Parse error at line "
    ++ digits e.line
    ++ codes ", column "
    ++ digits e.column
    ++ codes ": expected "
    ++ e.expected
    ++ codes ", found "
    ++ token_type_name e.found)

unfoldable pub parser_init : Bytes → Parser
parser_init sql =
    let (t, out) = get_next_token (tokenizer_init sql) no_token in
    record { tokenizer = t; current = out }

unfoldable pub parser_advance : Parser → Parser
parser_advance p =
    let (t, out) = get_next_token p.tokenizer (record p.current { type = token_none }) in
    record { tokenizer = t; current = out }

-- `parser->current.type == type`.
abbrev pub sees : Parser → TokenType → Bool
sees p type = type_is p.current.type type

abbrev pub fail {ℓ} : {A : Type ℓ} → Bytes → Parse A
fail expected p = failed (parser_set_error p expected)

-- The test `if (parser->current.type != type)` that sets an error and returns.
unfoldable pub require : TokenType → Bytes → Parse (Unit {0})
require type expected p = if sees p type then parsed tt p else fail expected p

abbrev pub max_table_columns : ℕ
max_table_columns = 8

-- The test `if (count >= MAX_TABLE_COLUMNS)` that sets an error and returns.
unfoldable pub below_limit : ℕ → Bytes → Parse (Unit {0})
below_limit count expected p = if leb max_table_columns count then fail expected p else parsed tt p

-- `parser_advance` as a step.
abbrev pub advance : Parse (Unit {0})
advance p = parsed tt (parser_advance p)

abbrev pub current_text : Parse Bytes
current_text p = parsed p.current.text p

-- The switch on the type of a token, by its number and text.
unfoldable pub primary_of : Token → Option Expr
primary_of token =
    if type_is token.type token_integer
    then some (literal_int token.int_value)
    else if type_is token.type token_string
    then some (literal_string token.text)
    else if type_is token.type token_identifier
    then some (column token.text)
    else if type_is token.type token_true
    then some (literal_boolean true)
    else if type_is token.type token_false
    then some (literal_boolean false)
    else none

unfoldable pub parse_primary_expression : Parse Expr
unfolding primary_of
parse_primary_expression p = elim (primary_of p.current) [
  | some e ↦ parsed e (parser_advance p)
  | none ↦ fail (codes "a literal or column reference") p
]

unfoldable pub parse_column_type : Parser → ColumnType
parse_column_type p =
    if sees p token_type_text
    then column_text
    else if sees p token_type_boolean
    then column_boolean
    else column_integer

unfoldable pub parse_expression : Parse Expr
unfolding parse_primary_expression
parse_expression = do
  left ← parse_primary_expression
  λ p.
      if sees p token_equal
      then (parse_primary_expression >>= λ right. pure (equals left right)) (parser_advance p)
      else parsed left p

-- Fuel for the loops: a round takes a byte of the text or adds an element, and the last one ends.
abbrev pub loop_fuel : Parser → ℕ
loop_fuel p = length p.tokenizer.cursor + 10
