-- ===== src/Lexer/Types.antt =====
-- The token types of include/ast.h, as src/lexer.c compares them.
use database_in_c.Prelude.{ℕ, Bool, ◌==◌}

pub data TokenType : Type 0 where
  token_none token_select token_from token_where token_insert token_into token_value : TokenType
  token_set token_identifier token_integer token_string token_update : TokenType
  token_comma token_lparen token_rparen token_semicolon token_equal token_star : TokenType
  token_eof token_invalid token_create token_table : TokenType
  token_type_text token_type_boolean token_type_integer : TokenType
  token_primary token_key token_true token_false token_delete : TokenType

-- The number that the enumeration gives a type.
abbrev pub type_code : TokenType → ℕ
type_code token_none = 0
type_code token_select = 1
type_code token_from = 2
type_code token_where = 3
type_code token_insert = 4
type_code token_into = 5
type_code token_value = 6
type_code token_set = 7
type_code token_identifier = 8
type_code token_integer = 9
type_code token_string = 10
type_code token_update = 11
type_code token_comma = 12
type_code token_lparen = 13
type_code token_rparen = 14
type_code token_semicolon = 15
type_code token_equal = 16
type_code token_star = 17
type_code token_eof = 18
type_code token_invalid = 19
type_code token_create = 20
type_code token_table = 21
type_code token_type_text = 22
type_code token_type_boolean = 23
type_code token_type_integer = 24
type_code token_primary = 25
type_code token_key = 26
type_code token_true = 27
type_code token_false = 28
type_code token_delete = 29

-- `a == b` on token types.
abbrev pub type_is : TokenType → TokenType → Bool
type_is a b = type_code a == type_code b
