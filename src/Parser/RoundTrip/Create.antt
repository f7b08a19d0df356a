-- ===== src/Parser/RoundTrip/Create.antt =====
-- `parse_create_statement` of src/parser.c reads back the CREATE TABLEs that were printed.
use database_in_c.Prelude.{
  ℕ, zero, suc, ◌+◌, ◌≤◌, ◌<◌, ◌≡◌, refl, ap, sym, subst, ◌∙◌, Bool, true, false, not, ◌||◌, ◌&&◌,
  List, [], ◌∷◌, ◌++◌, arith, length, All, ltb, lt→ltb, ◌==◌, if◌then◌else◌,
}
use database_in_c.Chars.{Bytes, codes, eq_ignoring_case, to_lower}
use database_in_c.Ast.{
  Statement, create_table, ColumnDefinition, ColumnType, column_integer, column_text,
  column_boolean,
}
use database_in_c.Lexer.{
  TokenType, token_eof, token_comma, token_rparen, token_lparen, token_create, token_table,
  token_primary, token_key, token_type_text, token_type_integer, token_type_boolean, type_is,
  keyword, classify, punctuation,
}
use database_in_c.Lexer.Spell.{Lexeme, mark, word, word_type}
use database_in_c.Parser.{
  Parser, Parse, ◌>>=◌, ◌>>◌, pure, parser_advance, parse_column_type, max_table_columns, loop_fuel,
  require, sees,
}
use database_in_c.Parser.Reads.{
  At, Reads, parser_advance-At, parsed-Reads, seen-Reads, unseen-Reads, >>=-Reads, require-Reads,
  below_limit-Reads,
}
use database_in_c.Parser.Print.{
  comma, items, type_name, definition_lexemes, HasText, statement_lexemes, IsName,
}
use database_in_c.Parser.RoundTrip.{table_name-Reads}
use database_in_c.Parser.Shape.Columns.{HasIntegerKey, count_primary-one}
use database_in_c.Parser.Define.{
  column_separator, definition_type, definition_key, column_definition, create_columns,
  count_primary, check_primary, parse_create_statement, is_integer,
}

-- What stands behind a definition: more of them and the closing parenthesis.
abbrev pub behind : List ColumnDefinition → List Lexeme → List Lexeme
behind columns ls = items definition_lexemes true columns ++ mark b')' ∷ ls

column_separator-Reads :
    (count : ℕ) (later : Bool) (c : ColumnDefinition) (columns : List ColumnDefinition)
    (ls : List Lexeme) (p : Parser)
    → ltb 0 count ≡ later
    → At (items definition_lexemes later (c ∷ columns) ++ mark b')' ∷ ls) p
    → Reads tt
        ((definition_lexemes c ++ items definition_lexemes true columns) ++ mark b')' ∷ ls)
        (column_separator count p)
unfolding column_separator items punctuation
column_separator-Reads count true c columns ls p h at = seen-Reads _ _ _ h (
    require-Reads _ _ p token_comma comma _ at refl (parsed-Reads (parser_advance-At comma _ p at)))
column_separator-Reads count false c columns ls p h at = unseen-Reads _ _ _ h (parsed-Reads at)

-- What `definition_type` decides by the type of a token: that it is no column type, and the type.
abbrev type_tests : TokenType → Bool × ColumnType
type_tests t = (
  not (type_is t token_type_text)
      && not (type_is t token_type_integer)
      && not (type_is t token_type_boolean),
  if type_is t token_type_text
      then column_text
      else if type_is t token_type_boolean
      then column_boolean
      else column_integer,
)

type_tests_lem : (type : ColumnType) → type_tests (word_type (type_name type)) ≡ (false, type)
unfolding word_type classify keyword eq_ignoring_case to_lower
type_tests_lem column_integer = refl
type_tests_lem column_text = refl
type_tests_lem column_boolean = refl

definition_type-Reads :
    (type : ColumnType) (ls : List Lexeme) (p : Parser)
    → At (word (type_name type) ∷ ls) p
    → Reads type ls (definition_type p)
unfolding definition_type parse_column_type
definition_type-Reads type ls p at =
    let e : type_tests p.current.type ≡ (false, type) =
      ap type_tests at.0.0.0 ∙ type_tests_lem type in
    unseen-Reads _ _ _ (ap (λ (r : Bool × ColumnType). r.0) e) (record {
      returns = (
        ap (λ (r : Bool × ColumnType). r.1) e,
        parser_advance-At (word (type_name type)) ls p at,
      );
    })

definition_key-Reads :
    (b : Bool) (columns : List ColumnDefinition) (ls : List Lexeme) (p : Parser)
    → At
        (((if b then word (codes "PRIMARY") ∷ word (codes "KEY") ∷ [] else [])
            ++ items definition_lexemes true columns)
          ++ mark b')' ∷ ls)
        p
    → Reads b (behind columns ls) (definition_key p)
unfolding definition_key items word_type classify keyword eq_ignoring_case to_lower punctuation
definition_key-Reads true columns ls p at =
    let p₁ = parser_advance p in
    let at₁ = parser_advance-At (word (codes "PRIMARY")) _ p at in
    seen-Reads _ _ _ (ap (λ t. type_is t token_primary) at.0.0.0) (
      require-Reads _ _ p₁ token_key (word (codes "KEY")) _ at₁ refl
        (parsed-Reads (parser_advance-At (word (codes "KEY")) _ p₁ at₁)))
definition_key-Reads false [] ls p at =
    unseen-Reads _ _ _ (ap (λ t. type_is t token_primary) at.0.0.0) (parsed-Reads at)
definition_key-Reads false (c ∷ columns) ls p at =
    unseen-Reads _ _ _ (ap (λ t. type_is t token_primary) at.0.0.0) (parsed-Reads at)

column_definition-Reads :
    (count : ℕ) (c : ColumnDefinition) (columns : List ColumnDefinition) (ls : List Lexeme)
    (p : Parser)
    → IsName c.name
    → count < max_table_columns
    → At (items definition_lexemes (ltb 0 count) (c ∷ columns) ++ mark b')' ∷ ls) p
    → Reads c (behind columns ls) (column_definition count p)
unfolding column_definition
column_definition-Reads count c columns ls p name room at =
    >>=-Reads (column_separator count) _ p
      (column_separator-Reads count (ltb 0 count) c columns ls p refl at)
      λ p₁ at₁. below_limit-Reads _ _ p₁ count room (
        table_name-Reads _
          (λ t. definition_type >>= λ type. definition_key >>= λ key.
            pure (record { name = t; column_type = type; is_primary = key }))
          c.name _ p₁ name at₁
          λ at₂.
            let p₂ = parser_advance p₁ in
            >>=-Reads definition_type _ p₂ (definition_type-Reads c.column_type _ p₂ at₂) λ p₃ at₃.
              >>=-Reads definition_key _ p₃ (definition_key-Reads c.is_primary columns ls p₃ at₃)
                λ p₄ at₄. parsed-Reads at₄)

items-nil :
    (later : Bool) (ls : List Lexeme) (p : Parser)
    → At (items definition_lexemes later [] ++ mark b')' ∷ ls) p
    → At (mark b')' ∷ ls) p
unfolding items
items-nil true ls p at = at
items-nil false ls p at = at

ends :
    (ls : List Lexeme) (p : Parser)
    → At (mark b')' ∷ ls) p
    → (sees p token_eof || sees p token_rparen) ≡ true
unfolding punctuation
ends ls p at = ap (λ t. type_is t token_eof || type_is t token_rparen) at.0.0.0

goes_on :
    (later : Bool) (c : ColumnDefinition) (columns : List ColumnDefinition) (ls : List Lexeme)
    (p : Parser)
    → IsName c.name
    → At (items definition_lexemes later (c ∷ columns) ++ mark b')' ∷ ls) p
    → (sees p token_eof || sees p token_rparen) ≡ false
unfolding items punctuation
goes_on true c columns ls p name at =
    ap (λ t. type_is t token_eof || type_is t token_rparen) at.0.0.0
goes_on false c columns ls p name at =
    ap (λ t. type_is t token_eof || type_is t token_rparen) (at.0.0.0 ∙ name.1)

create_columns-Reads :
    (fuel count : ℕ) (columns : List ColumnDefinition) (ls : List Lexeme) (p : Parser)
    → All (λ c. IsName c.name) columns
    → count + length columns ≤ max_table_columns
    → At (items definition_lexemes (ltb 0 count) columns ++ mark b')' ∷ ls) p
    → Reads columns (mark b')' ∷ ls) (create_columns fuel count p)
unfolding create_columns
create_columns-Reads zero count columns ls p h room at = record { returns = tt }
create_columns-Reads (suc fuel) count [] ls p h room at =
    let here = items-nil (ltb 0 count) ls p at in
    seen-Reads _ _ _ (ends ls p here) (parsed-Reads here)
create_columns-Reads (suc fuel) count (c ∷ columns) ls p h room at =
    unseen-Reads _ _ _ (goes_on (ltb 0 count) c columns ls p h.0 at) (
      >>=-Reads (column_definition count) _ p
        (column_definition-Reads count c columns ls p h.0 (omega arith) at)
        λ p₁ at₁.
          >>=-Reads (create_columns fuel (count + 1)) _ p₁
            (create_columns-Reads fuel (count + 1) columns ls p₁ h.1 (omega arith) (
              subst (λ b. At (items definition_lexemes b columns ++ mark b')' ∷ ls) p₁)
                (sym (lt→ltb 0 (count + 1) (omega arith))) at₁))
            λ p₂ at₂. parsed-Reads at₂)

check_primary-Reads :
    (columns : List ColumnDefinition) (ls : List Lexeme) (p : Parser)
    → HasIntegerKey columns
    → At ls p
    → Reads tt ls (check_primary columns p)
unfolding check_primary
check_primary-Reads columns ls p (k, one, integer) at =
    let counted : count_primary columns 0 true ≡ (1, true) =
      count_primary-one columns 0 true k one ∙ ap (λ t. (1, is_integer t)) integer in
    unseen-Reads _ _ _ (ap (λ (r : ℕ × Bool). not (r.0 == 1)) counted)
      (unseen-Reads _ _ _ (ap (λ (r : ℕ × Bool). not r.1) counted) (parsed-Reads at))

pub parse_create_statement-Reads :
    (table : Bytes) (columns : List ColumnDefinition) (p : Parser)
    → HasText (create_table table columns)
    → At (statement_lexemes (create_table table columns)) p
    → Reads (create_table table columns) [] (parse_create_statement p)
unfolding parse_create_statement statement_lexemes word_type classify keyword eq_ignoring_case
    to_lower punctuation
parse_create_statement-Reads table columns p h at =
    let list : Parse (List ColumnDefinition) = λ q. create_columns (loop_fuel q) 0 q in
    let end : Bytes → List ColumnDefinition → Parse Statement = λ t cs.
      require token_rparen (codes "')'")
      >> (λ q. (check_primary cs >> pure (create_table t cs)) (parser_advance q)) in
    require-Reads _ _ p token_create (word (codes "CREATE")) _ at refl (
      let p₁ = parser_advance p in
      let at₁ = parser_advance-At (word (codes "CREATE")) _ p at in
      require-Reads _ _ p₁ token_table (word (codes "TABLE")) _ at₁ refl (
        let p₂ = parser_advance p₁ in
        table_name-Reads _
          (λ t. require token_lparen (codes "'('") >> (λ q. (list >>= end t) (parser_advance q)))
          table _ p₂ h.0 (parser_advance-At (word (codes "TABLE")) _ p₁ at₁)
          λ at₃.
            let p₃ = parser_advance p₂ in
            require-Reads _ _ p₃ token_lparen (mark b'(') _ at₃ refl (
              let p₄ = parser_advance p₃ in
              >>=-Reads list (end table) p₄
                (create_columns-Reads (loop_fuel p₄) 0 columns [] p₄ h.1 (omega (arith, h.2))
                  (parser_advance-At (mark b'(') _ p₃ at₃))
                λ p₅ at₅. require-Reads _ _ p₅ token_rparen (mark b')') _ at₅ refl (
                  let p₆ = parser_advance p₅ in
                  >>=-Reads (check_primary columns) _ p₆
                    (check_primary-Reads columns [] p₆ h.3 (parser_advance-At (mark b')') _ p₅ at₅))
                    λ p₇ at₇. parsed-Reads at₇))))
