-- ===== src/Parser/RoundTrip/Insert.antt =====
-- `parse_insert_statement` of src/parser.c reads back the INSERTs that were printed.
use database_in_c.Prelude.{
  ℕ, zero, suc, ◌+◌, ◌≤◌, ◌≡◌, refl, ap, sym, subst, ◌∙◌, Bool, true, false, ◌||◌, List, [], ◌∷◌,
  ◌++◌, arith, length, All, pos, negsuc,
}
use database_in_c.Chars.{Bytes, codes, eq_ignoring_case, to_lower}
use database_in_c.Ast.{Expr, literal_int, literal_string, literal_boolean, column, equals, insert}
use database_in_c.Lexer.{
  TokenType, token_eof, token_comma, token_rparen, token_lparen, token_insert, token_into,
  token_value, type_is, keyword, classify, punctuation,
}
use database_in_c.Lexer.Spell.{Lexeme, mark, word, word_type, lexeme_type}
use database_in_c.Parser.{
  Parser, Parse, ◌>>=◌, ◌>>◌, pure, parser_advance, parse_primary_expression, max_table_columns,
  loop_fuel, require,
}
use database_in_c.Parser.Reads.{
  At, Reads, parser_advance-At, parsed-Reads, seen-Reads, unseen-Reads, >>=-Reads, require-Reads,
  below_limit-Reads,
}
use database_in_c.Parser.Print.{
  expr_lexeme, comma, items, expr_items, HasText, statement_lexemes, IsSayable,
}
use database_in_c.Parser.Print.Numbers.{digits-number}
use database_in_c.Parser.RoundTrip.{parse_primary_expression-Reads, table_name-Reads}
use database_in_c.Parser.Define.{insert_values, parse_insert_statement}

-- The token of a literal or name ends no list and is no comma.
IsElement : TokenType → Type 0
IsElement t =
    ((type_is t token_eof || type_is t token_rparen) ≡ false) × (type_is t token_comma ≡ false)

lexeme_type-IsElement : (e : Expr) → IsSayable e → IsElement (lexeme_type (expr_lexeme e))
unfolding IsElement word_type classify keyword eq_ignoring_case to_lower
lexeme_type-IsElement (literal_int (pos n)) h =
    subst IsElement (sym (digits-number n).1) (refl, refl)
lexeme_type-IsElement (literal_int (negsuc n)) h = absurd h
lexeme_type-IsElement (literal_string t) h = (refl, refl)
lexeme_type-IsElement (literal_boolean true) h = (refl, refl)
lexeme_type-IsElement (literal_boolean false) h = (refl, refl)
lexeme_type-IsElement (column name) h = subst IsElement (sym h.1) (refl, refl)
lexeme_type-IsElement (equals l r) h = absurd h

-- The values in front of the closing parenthesis, `later` if values stand before them.
insert_values-Reads :
    (fuel i : ℕ) (later : Bool) (es : List Expr) (ls : List Lexeme) (p : Parser)
    → All IsSayable es
    → i + length es ≤ max_table_columns
    → At (expr_items later es ++ mark b')' ∷ ls) p
    → Reads es (mark b')' ∷ ls) (insert_values fuel i p)
unfolding insert_values items IsElement punctuation
insert_values-Reads zero i later es ls p h room at = record { returns = tt }
insert_values-Reads (suc fuel) i true [] ls p h room at =
    seen-Reads _ _ _ (ap (λ t. type_is t token_eof || type_is t token_rparen) at.0.0.0)
      (parsed-Reads at)
insert_values-Reads (suc fuel) i false [] ls p h room at =
    seen-Reads _ _ _ (ap (λ t. type_is t token_eof || type_is t token_rparen) at.0.0.0)
      (parsed-Reads at)
insert_values-Reads (suc fuel) i true (e ∷ es) ls p h room at =
    unseen-Reads _ _ _ (ap (λ t. type_is t token_eof || type_is t token_rparen) at.0.0.0) (
      seen-Reads _ _ _ (ap (λ t. type_is t token_comma) at.0.0.0) (
        insert_values-Reads fuel i false (e ∷ es) ls (parser_advance p) h room
          (parser_advance-At comma _ p at)))
insert_values-Reads (suc fuel) i false (e ∷ es) ls p h room at =
    let element = lexeme_type-IsElement e h.0 in
    unseen-Reads _ _ _
      (ap (λ t. type_is t token_eof || type_is t token_rparen) at.0.0.0 ∙ element.0)
      (unseen-Reads _ _ _ (ap (λ t. type_is t token_comma) at.0.0.0 ∙ element.1) (
        below_limit-Reads _ _ p i (omega arith) (
          >>=-Reads parse_primary_expression _ p (parse_primary_expression-Reads e _ p h.0 at)
            λ p₁ at₁.
              >>=-Reads (insert_values fuel (i + 1)) _ p₁
                (insert_values-Reads fuel (i + 1) true es ls p₁ h.1 (omega arith) at₁)
                λ p₂ at₂. parsed-Reads at₂)))

pub parse_insert_statement-Reads :
    (table : Bytes) (values : List Expr) (p : Parser)
    → HasText (insert table values)
    → At (statement_lexemes (insert table values)) p
    → Reads (insert table values) [] (parse_insert_statement p)
unfolding parse_insert_statement statement_lexemes word_type classify keyword eq_ignoring_case
    to_lower punctuation
parse_insert_statement-Reads table values p h at =
    let list : Parse (List Expr) = λ q. insert_values (loop_fuel q) 0 q in
    require-Reads _ _ p token_insert (word (codes "INSERT")) _ at refl (
      let p₁ = parser_advance p in
      let at₁ = parser_advance-At (word (codes "INSERT")) _ p at in
      require-Reads _ _ p₁ token_into (word (codes "INTO")) _ at₁ refl (
        let p₂ = parser_advance p₁ in
        table_name-Reads _
          (λ t. require token_value (codes "VALUES") >> (λ q.
            (require token_lparen (codes "'('") >> (λ q'.
                (list >>= λ es.
                require token_rparen (codes "')'")
                >> (λ q''. pure (insert t es) (parser_advance q'')))
                  (parser_advance q')))
              (parser_advance q)))
          table _ p₂ h.0 (parser_advance-At (word (codes "INTO")) _ p₁ at₁)
          λ at₃.
            let p₃ = parser_advance p₂ in
            require-Reads _ _ p₃ token_value (word (codes "VALUES")) _ at₃ refl (
              let p₄ = parser_advance p₃ in
              let at₄ = parser_advance-At (word (codes "VALUES")) _ p₃ at₃ in
              require-Reads _ _ p₄ token_lparen (mark b'(') _ at₄ refl (
                let p₅ = parser_advance p₄ in
                >>=-Reads list
                  (λ es.
                    require token_rparen (codes "')'")
                    >> (λ q. pure (insert table es) (parser_advance q)))
                  p₅
                  (insert_values-Reads (loop_fuel p₅) 0 false values [] p₅ h.1 (omega (arith, h.2))
                    (parser_advance-At (mark b'(') _ p₄ at₄))
                  λ p₆ at₆.
                    require-Reads _ _ p₆ token_rparen (mark b')') _ at₆ refl
                      (parsed-Reads (parser_advance-At (mark b')') _ p₆ at₆))))))
