-- ===== src/Lexer/Names.antt =====
-- `token_type_name` of src/lexer.c.
use database_in_c.Prelude.{ℤ, ◌++◌, take}
use database_in_c.Chars.{Bytes, codes, signed_digits}
use database_in_c.Lexer.{
  TokenType, Token, token_none, token_select, token_from, token_where, token_insert, token_into,
  token_value, token_comma, token_lparen, token_rparen, token_semicolon, token_equal, token_star,
  token_eof, token_invalid, token_create, token_table, token_type_text, token_type_boolean,
  token_type_integer, token_primary, token_key, token_true, token_false, token_identifier,
  token_integer, token_string, token_set, token_update, token_delete,
}

-- `snprintf(buff, sizeof(buff), …)` on a buffer of 256 bytes, with the NUL.
abbrev pub snprintf_256 : Bytes → Bytes
snprintf_256 text = take 255 text

-- The switch; the types without a case have the name behind it.
unfoldable pub type_name_of : TokenType → Bytes → ℤ → Bytes
type_name_of token_none text int_value = codes "TOKEN_NONE"
type_name_of token_select text int_value = codes "TOKEN_SELECT"
type_name_of token_from text int_value = codes "TOKEN_FROM"
type_name_of token_where text int_value = codes "TOKEN_WHERE"
type_name_of token_insert text int_value = codes "TOKEN_INSERT"
type_name_of token_into text int_value = codes "TOKEN_INTO"
type_name_of token_value text int_value = codes "TOKEN_VALUE"
type_name_of token_comma text int_value = codes "TOKEN_COMMA"
type_name_of token_lparen text int_value = codes "TOKEN_LPAREN"
type_name_of token_rparen text int_value = codes "TOKEN_RPAREN"
type_name_of token_semicolon text int_value = codes "TOKEN_SEMICOLON"
type_name_of token_equal text int_value = codes "TOKEN_EQUAL"
type_name_of token_star text int_value = codes "TOKEN_STAR"
type_name_of token_eof text int_value = codes "TOKEN_EOF"
type_name_of token_invalid text int_value = codes "TOKEN_INVALID"
type_name_of token_create text int_value = codes "TOKEN_CREATE"
type_name_of token_table text int_value = codes "TOKEN_TABLE"
type_name_of token_type_text text int_value = codes "TOKEN_TYPE_TEXT"
type_name_of token_type_boolean text int_value = codes "TOKEN_TYPE_BOOLEAN"
type_name_of token_type_integer text int_value = codes "TOKEN_TYPE_INTEGER"
type_name_of token_primary text int_value = codes "TOKEN_PRIMARY"
type_name_of token_key text int_value = codes "TOKEN_KEY"
type_name_of token_true text int_value = codes "TOKEN_TRUE"
type_name_of token_false text int_value = codes "TOKEN_FALSE"
type_name_of token_identifier text int_value =
    snprintf_256 (codes "TOKEN_IDENTIFIER(" ++ text ++ codes ")")
type_name_of token_integer text int_value =
    snprintf_256 (codes "TOKEN_INTEGER(" ++ signed_digits int_value ++ codes ")")
type_name_of token_string text int_value = snprintf_256 (codes "TOKEN_STRING(" ++ text ++ codes ")")
type_name_of token_set text int_value = codes "TOKEN_UNKNOWN"
type_name_of token_update text int_value = codes "TOKEN_UNKNOWN"
type_name_of token_delete text int_value = codes "TOKEN_UNKNOWN"

unfoldable pub token_type_name : Token → Bytes
unfolding type_name_of
token_type_name token = type_name_of token.type token.text token.int_value
