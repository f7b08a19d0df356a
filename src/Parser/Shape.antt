-- ===== src/Parser/Shape.antt =====
-- The shape of the trees that the parser of src/parser.c makes, and what it promises of SELECT and
-- DELETE.
pub mod Lists
pub mod Columns
use database_in_c.Prelude.{
  ℕ, zero, suc, ◌+◌, ◌≤◌, ◌<◌, ◌≡◌, refl, Bool, true, false, ◌||◌, List, [], ◌∷◌, Option, none,
  some, arith, length, All, inl, inr, Bool-cases, Option-cases, if◌then◌else◌,
}
use database_in_c.Chars.{Bytes}
use database_in_c.Lexer.{
  TokenType, Token, token_comma, token_identifier, token_integer, token_string, token_true,
  token_false, token_equal, type_is,
}
use database_in_c.Ast.{
  Expr, literal_int, literal_string, literal_boolean, column, equals, Statement,
}
use database_in_c.Parser.{
  Parser, Parsed, Parse, parsed, ◌>>=◌, ◌>>◌, pure, parser_advance, sees, primary_of,
  parse_primary_expression, parse_expression,
}
use database_in_c.Parser.Post.{
  Post, weight, parsed-Post, fail-Post, >>=-Post, weight-parser_advance,
}

abbrev pub IsColumn : Expr → Type 0
IsColumn (column name) = Unit
IsColumn (literal_int n) = ⊥
IsColumn (literal_string text) = ⊥
IsColumn (literal_boolean b) = ⊥
IsColumn (equals l r) = ⊥

-- A literal or a column.
abbrev pub IsPrimary : Expr → Type 0
IsPrimary (column name) = Unit
IsPrimary (literal_int n) = Unit
IsPrimary (literal_string text) = Unit
IsPrimary (literal_boolean b) = Unit
IsPrimary (equals l r) = ⊥

-- One literal or column, or two of them around `=`.
abbrev pub IsCondition : Expr → Type 0
IsCondition (equals l r) = IsPrimary l × IsPrimary r
IsCondition (column name) = Unit
IsCondition (literal_int n) = Unit
IsCondition (literal_string text) = Unit
IsCondition (literal_boolean b) = Unit

abbrev pub IsConditionOption : Option Expr → Type 0
IsConditionOption none = Unit
IsConditionOption (some e) = IsCondition e

-- What a step over one expression keeps: no byte comes back.
abbrev pub After {ℓ} : {A : Type ℓ} → Parser → (A → Type 0) → A → Parser → Type 0
After p P a p' = P a × (weight p' ≤ length p.tokenizer.cursor)

abbrev pub IsOperand : Parser → Expr → Type 0
IsOperand p e = IsPrimary e × (sees p token_identifier ≡ true → IsColumn e)

primary_of-IsOperand :
    (token : Token) (e : Expr)
    → primary_of token ≡ some e
    → IsPrimary e × (type_is token.type token_identifier ≡ true → IsColumn e)
unfolding primary_of
primary_of-IsOperand token e h = ground arith

pub parse_primary_expression-Post :
    (unset : Bool) (p : Parser) → Post unset (After p (IsOperand p)) (parse_primary_expression p)
unfolding parse_primary_expression
parse_primary_expression-Post unset p = elim (Option-cases (primary_of p.current)) [
  | inl other ↦ rw (other, parse_primary_expression) (fail-Post _ p)
  | inr (e, operand) ↦
      rw (operand, parse_primary_expression)
        (parsed-Post (primary_of-IsOperand p.current e operand, weight-parser_advance p))
]

IsPrimary-IsCondition : (e : Expr) → IsPrimary e → IsCondition e
IsPrimary-IsCondition (column name) h = tt
IsPrimary-IsCondition (literal_int n) h = tt
IsPrimary-IsCondition (literal_string text) h = tt
IsPrimary-IsCondition (literal_boolean b) h = tt
IsPrimary-IsCondition (equals l r) h = absurd h

pub parse_expression-Post :
    (unset : Bool) (p : Parser) → Post unset (After p IsCondition) (parse_expression p)
unfolding parse_expression
parse_expression-Post unset p =
    >>=-Post parse_primary_expression _ p (parse_primary_expression-Post unset p) λ left p₁ h₁.
      elim (Bool-cases (sees p₁ token_equal)) [
        | inl equal ↦ rw equal (
            >>=-Post parse_primary_expression _ (parser_advance p₁)
              (parse_primary_expression-Post unset (parser_advance p₁))
              λ right p₂ h₂.
                parsed-Post ((h₁.0.0, h₂.0.0), omega (arith, h₁.1, h₂.1, weight-parser_advance p₁)))
        | inr other ↦ rw other (parsed-Post (IsPrimary-IsCondition left h₁.0.0, h₁.1))
      ]
