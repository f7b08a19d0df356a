-- ===== src/Parser/RoundTrip/Select.antt =====
-- `parse_select_statement` and `parse_delete_statement` of src/parser.c read back what was printed.
use database_in_c.Prelude.{
  ℕ, zero, suc, ◌+◌, ◌≤◌, ◌≡◌, refl, ap, ◌∙◌, Bool, true, false, not, ◌||◌, List, [], ◌∷◌, ◌++◌,
  Option, arith, length, All,
}
use database_in_c.Chars.{Bytes, codes, eq_ignoring_case, to_lower}
use database_in_c.Ast.{
  Expr, literal_int, literal_string, literal_boolean, column, equals, select, delete_table,
}
use database_in_c.Lexer.{
  token_identifier, token_eof, token_from, token_comma, token_star, token_select, token_delete,
  type_is, keyword, classify, punctuation,
}
use database_in_c.Lexer.Spell.{Lexeme, mark, word, word_type}
use database_in_c.Parser.{
  Parser, ◌>>=◌, pure, parser_advance, sees, parse_primary_expression, max_table_columns, loop_fuel,
}
use database_in_c.Parser.Reads.{
  At, Reads, parser_advance-At, parsed-Reads, seen-Reads, unseen-Reads, >>=-Reads, require-Reads,
  below_limit-Reads,
}
use database_in_c.Parser.Print.{
  comma, items, expr_items, select_lexemes, HasText, statement_lexemes, IsSayable, AreNames,
}
use database_in_c.Parser.Shape.{IsColumn}
use database_in_c.Parser.Query.{
  select_columns, select_list, optional_where, parse_select_statement, parse_delete_statement,
}
use database_in_c.Parser.RoundTrip.{
  parse_primary_expression-Reads, optional_where-Reads, table_name-Reads,
}

-- The column list in front of FROM, `later` if columns stand before it.
select_columns-Reads :
    (fuel count : ℕ) (later : Bool) (es : List Expr) (ls : List Lexeme) (p : Parser)
    → All (λ e. IsColumn e × IsSayable e) es
    → count + length es ≤ max_table_columns
    → At (expr_items later es ++ word (codes "FROM") ∷ ls) p
    → Reads es (word (codes "FROM") ∷ ls) (select_columns fuel count p)
unfolding select_columns items word_type classify keyword eq_ignoring_case to_lower punctuation
select_columns-Reads zero count later es ls p h room at = record { returns = tt }
select_columns-Reads (suc fuel) count true [] ls p h room at =
    seen-Reads _ _ _ (ap (λ t. type_is t token_eof || type_is t token_from) at.0.0.0)
      (parsed-Reads at)
select_columns-Reads (suc fuel) count false [] ls p h room at =
    seen-Reads _ _ _ (ap (λ t. type_is t token_eof || type_is t token_from) at.0.0.0)
      (parsed-Reads at)
select_columns-Reads (suc fuel) count true (e ∷ es) ls p h room at =
    unseen-Reads _ _ _ (ap (λ t. type_is t token_eof || type_is t token_from) at.0.0.0) (
      seen-Reads _ _ _ (ap (λ t. type_is t token_comma) at.0.0.0) (
        select_columns-Reads fuel count false (e ∷ es) ls (parser_advance p) h room
          (parser_advance-At comma _ p at)))
select_columns-Reads (suc fuel) count false (column name ∷ es) ls p h room at =
    let type : p.current.type ≡ token_identifier = at.0.0.0 ∙ h.0.1.1 in
    unseen-Reads _ _ _ (ap (λ t. type_is t token_eof || type_is t token_from) type) (
      unseen-Reads _ _ _ (ap (λ t. type_is t token_comma) type) (
        unseen-Reads _ _ _ (ap (λ t. not (type_is t token_identifier)) type) (
          below_limit-Reads _ _ p count (omega arith) (
            >>=-Reads parse_primary_expression _ p
              (parse_primary_expression-Reads (column name) _ p h.0.1 at)
              λ p₁ at₁.
                >>=-Reads (select_columns fuel (count + 1)) _ p₁
                  (select_columns-Reads fuel (count + 1) true es ls p₁ h.1 (omega arith) at₁)
                  λ p₂ at₂. parsed-Reads at₂))))
select_columns-Reads (suc fuel) count false (literal_int n ∷ es) ls p h room at = absurd h.0.0
select_columns-Reads (suc fuel) count false (literal_string t ∷ es) ls p h room at = absurd h.0.0
select_columns-Reads (suc fuel) count false (literal_boolean b ∷ es) ls p h room at = absurd h.0.0
select_columns-Reads (suc fuel) count false (equals l r ∷ es) ls p h room at = absurd h.0.0

select_list-Reads :
    (is_star : Bool) (columns : List Expr) (ls : List Lexeme) (p : Parser)
    → AreNames columns
    → (is_star ≡ true → columns ≡ [])
    → At (select_lexemes is_star columns ++ word (codes "FROM") ∷ ls) p
    → Reads (is_star, columns) (word (codes "FROM") ∷ ls) (select_list p)
unfolding select_list word_type classify keyword eq_ignoring_case to_lower punctuation items
select_list-Reads true columns ls p names star at =
    seen-Reads _ _ _ (ap (λ t. type_is t token_star) at.0.0.0)
      (record { returns = (rw (star refl) refl, parser_advance-At (mark b'*') _ p at) })
select_list-Reads false columns ls p names star at = unseen-Reads _ _ _ (no_star columns names at) (
    >>=-Reads (select_columns (loop_fuel p) 0) _ p
      (select_columns-Reads (loop_fuel p) 0 false columns ls p names.0 (omega (arith, names.1)) at)
      λ p₁ at₁. parsed-Reads at₁)
  where
    no_star :
        (columns : List Expr)
        → AreNames columns
        → At (expr_items false columns ++ word (codes "FROM") ∷ ls) p
        → sees p token_star ≡ false
    no_star [] names at = ap (λ t. type_is t token_star) at.0.0.0
    no_star (column name ∷ es) names at = ap (λ t. type_is t token_star) (at.0.0.0 ∙ names.0.0.1.1)
    no_star (literal_int n ∷ es) names at = absurd names.0.0.0
    no_star (literal_string t ∷ es) names at = absurd names.0.0.0
    no_star (literal_boolean b ∷ es) names at = absurd names.0.0.0
    no_star (equals l r ∷ es) names at = absurd names.0.0.0

pub parse_select_statement-Reads :
    (table : Bytes) (is_star : Bool) (columns : List Expr) (condition : Option Expr) (p : Parser)
    → HasText (select table is_star columns condition)
    → At (statement_lexemes (select table is_star columns condition)) p
    → Reads (select table is_star columns condition) [] (parse_select_statement p)
unfolding parse_select_statement statement_lexemes word_type classify keyword eq_ignoring_case
    to_lower
parse_select_statement-Reads table is_star columns condition p h at =
    require-Reads _ _ p token_select (word (codes "SELECT")) _ at refl (
      let p₁ = parser_advance p in
      >>=-Reads select_list _ p₁
        (select_list-Reads is_star columns _ p₁ h.1 h.2
          (parser_advance-At (word (codes "SELECT")) _ p at))
        λ p₂ at₂. require-Reads _ _ p₂ token_from (word (codes "FROM")) _ at₂ refl (
          let p₃ = parser_advance p₂ in
          table_name-Reads _ (λ t. optional_where >>= λ c. pure (select t is_star columns c)) table
            _ p₃ h.0 (parser_advance-At (word (codes "FROM")) _ p₂ at₂)
            λ at₄.
              >>=-Reads optional_where (λ c. pure (select table is_star columns c))
                (parser_advance p₃) (optional_where-Reads condition (parser_advance p₃) h.3 at₄)
                λ p₅ at₅. parsed-Reads at₅))

pub parse_delete_statement-Reads :
    (table : Bytes) (condition : Option Expr) (p : Parser)
    → HasText (delete_table table condition)
    → At (statement_lexemes (delete_table table condition)) p
    → Reads (delete_table table condition) [] (parse_delete_statement p)
unfolding parse_delete_statement statement_lexemes word_type classify keyword eq_ignoring_case
    to_lower
parse_delete_statement-Reads table condition p h at =
    require-Reads _ _ p token_delete (word (codes "DELETE")) _ at refl (
      let p₁ = parser_advance p in
      let at₁ = parser_advance-At (word (codes "DELETE")) _ p at in
      require-Reads _ _ p₁ token_from (word (codes "FROM")) _ at₁ refl (
        let p₂ = parser_advance p₁ in
        table_name-Reads _ (λ t. optional_where >>= λ c. pure (delete_table t c)) table _ p₂ h.0
          (parser_advance-At (word (codes "FROM")) _ p₁ at₁)
          λ at₃.
            >>=-Reads optional_where (λ c. pure (delete_table table c)) (parser_advance p₂)
              (optional_where-Reads condition (parser_advance p₂) h.1 at₃)
              λ p₄ at₄. parsed-Reads at₄))
