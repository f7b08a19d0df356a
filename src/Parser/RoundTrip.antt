-- ===== src/Parser/RoundTrip.antt =====
-- The parser of src/parser.c reads back the expressions and conditions that were printed.
pub mod Select
pub mod Update
pub mod Insert
pub mod Create
use database_in_c.Prelude.{
  ℕ, zero, suc, ◌+◌, ◌-◌, ◌≤◌, ◌<◌, ◌≡◌, refl, ap, sym, ◌∙◌, Bool, true, false, not, ◌||◌, List, [],
  ◌∷◌, ◌++◌, Option, none, some, arith, length, All, if◌then◌else◌, ℤ, pos, negsuc, append_assoc,
  append-nil, subst, Bool-cases, inl, inr,
}
use database_in_c.Chars.{Bytes, codes, strtol, eq_ignoring_case, to_lower}
use database_in_c.Ast.{
  Expr, literal_int, literal_string, literal_boolean, column, equals, Statement, select,
  delete_table,
}
use database_in_c.Lexer.{
  Token, TokenType, token_integer, token_identifier, token_true, token_false, token_equal,
  token_eof, token_from, token_comma, token_star, token_where, token_select, token_delete, type_is,
  keyword, is_digits, classify, punctuation,
}
use database_in_c.Lexer.Spell.{Lexeme, mark, word, quoted, word_type, Is, lexeme_type}
use database_in_c.Parser.{
  Parser, Parsed, Parse, parsed, ◌>>=◌, ◌>>◌, pure, parser_advance, sees, primary_of,
  parse_primary_expression, parse_expression, max_table_columns, loop_fuel, require, advance,
  current_text,
}
use database_in_c.Parser.Reads.{
  At, Reads, At-type, parser_advance-At, parsed-Reads, seen-Reads, unseen-Reads, >>=-Reads,
  require-Reads, below_limit-Reads,
}
use database_in_c.Parser.Print.{
  expr_lexeme, comma, items, expr_items, condition_lexemes, where_lexemes, select_lexemes, HasText,
  statement_lexemes, IsName, IsSayable, IsSayableCondition, IsSayableOption, AreNames,
}
use database_in_c.Parser.Print.Numbers.{digits-number, strtol-digits}
use database_in_c.Parser.Shape.{IsColumn}
use database_in_c.Parser.Query.{
  select_columns, select_list, optional_where, parse_select_statement, parse_delete_statement,
}

primary_of-expr_lexeme :
    (e : Expr) (token : Token) → IsSayable e → Is (expr_lexeme e) token → primary_of token ≡ some e
unfolding primary_of word_type classify keyword is_digits eq_ignoring_case to_lower
primary_of-expr_lexeme (literal_int (pos n)) token h is =
    let (w, type) = digits-number n in rw (is.0, type, is.1.1 type, strtol-digits n h) refl
primary_of-expr_lexeme (literal_int (negsuc n)) token h is = absurd h
primary_of-expr_lexeme (literal_string text) token h is = rw (is.0, is.1) refl
primary_of-expr_lexeme (literal_boolean true) token h is = rw (is.0) refl
primary_of-expr_lexeme (literal_boolean false) token h is = rw (is.0) refl
primary_of-expr_lexeme (column name) token h is = rw (is.0, h.1, is.1.0) refl
primary_of-expr_lexeme (equals l r) token h is = absurd h

pub parse_primary_expression-Reads :
    (e : Expr) (ls : List Lexeme) (p : Parser)
    → IsSayable e
    → At (expr_lexeme e ∷ ls) p
    → Reads e ls (parse_primary_expression p)
unfolding parse_primary_expression
parse_primary_expression-Reads e ls p h at =
    rw (primary_of-expr_lexeme e p.current h at.0.0, parse_primary_expression)
      (parsed-Reads (parser_advance-At (expr_lexeme e) ls p at))

-- A condition is the last of a statement.
parse_expression-one :
    (e : Expr) (p : Parser)
    → IsSayable e
    → At (expr_lexeme e ∷ []) p
    → Reads e [] (parse_expression p)
unfolding parse_expression
parse_expression-one e p h at =
    >>=-Reads parse_primary_expression _ p (parse_primary_expression-Reads e [] p h at)
      λ p₁ at₁. unseen-Reads _ _ _ (ap (λ t. type_is t token_equal) at₁.0.0) (parsed-Reads at₁)

pub parse_expression-Reads :
    (e : Expr) (p : Parser)
    → IsSayableCondition e
    → At (condition_lexemes e) p
    → Reads e [] (parse_expression p)
unfolding parse_expression punctuation
parse_expression-Reads (equals l r) p h at =
    >>=-Reads parse_primary_expression _ p (parse_primary_expression-Reads l _ p h.0 at) λ p₁ at₁.
      seen-Reads _ _ _ (ap (λ t. type_is t token_equal) at₁.0.0.0) (
        >>=-Reads parse_primary_expression _ (parser_advance p₁)
          (parse_primary_expression-Reads r [] (parser_advance p₁) h.1
            (parser_advance-At (mark b'=') _ p₁ at₁))
          λ p₂ at₂. parsed-Reads at₂)
parse_expression-Reads (literal_int n) p h at = parse_expression-one (literal_int n) p h at
parse_expression-Reads (literal_string t) p h at = parse_expression-one (literal_string t) p h at
parse_expression-Reads (literal_boolean b) p h at = parse_expression-one (literal_boolean b) p h at
parse_expression-Reads (column name) p h at = parse_expression-one (column name) p h at

pub optional_where-Reads :
    (condition : Option Expr) (p : Parser)
    → IsSayableOption condition
    → At (where_lexemes condition) p
    → Reads condition [] (optional_where p)
unfolding optional_where word_type classify keyword eq_ignoring_case to_lower
optional_where-Reads none p h at =
    unseen-Reads _ _ _ (ap (λ t. type_is t token_where) at.0.0) (parsed-Reads at)
optional_where-Reads (some e) p h at = seen-Reads _ _ _ (ap (λ t. type_is t token_where) at.0.0.0) (
    >>=-Reads parse_expression _ (parser_advance p)
      (parse_expression-Reads e (parser_advance p) h
        (parser_advance-At (word (codes "WHERE")) _ p at))
      λ p₁ at₁. parsed-Reads at₁)

-- A table's name, and what is behind it.
pub table_name-Reads :
    {B : Type 0} {b : B} {rest : List Lexeme} (expected : Bytes) (k : Bytes → Parse B)
    (table : Bytes) (ls : List Lexeme) (p : Parser)
    → IsName table
    → At (word table ∷ ls) p
    → (At ls (parser_advance p) → Reads b rest (k table (parser_advance p)))
    → Reads b rest ((require token_identifier expected >> (current_text >>= λ t. advance >> k t)) p)
table_name-Reads {b} {rest} expected k table ls p name at h =
    require-Reads expected _ p token_identifier (word table) ls at
      (ap (λ t. type_is t token_identifier) name.1)
      (subst (λ t. Reads b rest (k t (parser_advance p))) (sym at.0.0.1.0)
        (h (parser_advance-At (word table) ls p at)))
