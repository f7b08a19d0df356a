-- ===== src/Parser/RoundTrip/Update.antt =====
-- `parse_update_statement` of src/parser.c reads back the UPDATEs that were printed.
use database_in_c.Prelude.{
  ℕ, zero, suc, ◌+◌, ◌≤◌, ◌≡◌, refl, ap, sym, subst, ◌∙◌, Bool, true, false, not, ◌||◌, List, [],
  ◌∷◌, ◌++◌, some, arith, length, All,
}
use database_in_c.Chars.{Bytes, codes, eq_ignoring_case, to_lower}
use database_in_c.Ast.{
  Expr, literal_int, literal_string, literal_boolean, column, equals, update_table,
}
use database_in_c.Lexer.{
  token_identifier, token_equal, token_eof, token_comma, token_where, token_update, token_set,
  type_is, keyword, classify, punctuation,
}
use database_in_c.Lexer.Spell.{Lexeme, mark, word, word_type}
use database_in_c.Parser.{
  Parser, Parsed, Parse, parsed, failed, parse_undefined, parse_out_of_fuel, ◌>>=◌, ◌>>◌, pure,
  parser_advance, parse_primary_expression, parse_expression, max_table_columns, loop_fuel, require,
  sees,
}
use database_in_c.Parser.Reads.{
  At, Reads, parser_advance-At, parsed-Reads, seen-Reads, unseen-Reads, >>=-Reads, require-Reads,
  below_limit-Reads,
}
use database_in_c.Parser.Print.{
  IsSayableCondition, IsSayableOption, comma, pair_items, where_lexemes, HasText, statement_lexemes,
  IsSayable,
}
use database_in_c.Parser.RoundTrip.{
  parse_primary_expression-Reads, parse_expression-Reads, table_name-Reads,
}
use database_in_c.Parser.Shape.{IsColumn}
use database_in_c.Parser.Query.{update_list, update_head, destroying, parse_update_statement}

-- The list behind SET, in front of lexemes that end it, `later` if pairs stand before it.
pub update_list-Reads :
    (fuel count : ℕ) (later : Bool) (columns values : List Expr) (ls : List Lexeme) (p : Parser)
    → All (λ e. IsColumn e × IsSayable e) columns
    → All IsSayable values
    → length values ≡ length columns
    → count + length columns ≤ max_table_columns
    → ((q : Parser) → At ls q → (sees q token_eof || sees q token_where) ≡ true)
    → At (pair_items later columns values ++ ls) p
    → Reads (columns, values) ls (update_list fuel count p)
unfolding update_list pair_items word_type classify keyword eq_ignoring_case to_lower punctuation
update_list-Reads zero count later columns values ls p h g same room stop at = record {
  returns = tt;
}
update_list-Reads (suc fuel) count later [] [] ls p h g same room stop at =
    seen-Reads _ _ _ (stop p at) (parsed-Reads at)
update_list-Reads (suc fuel) count later [] (v ∷ values) ls p h g same room stop at =
    absurd (omega arith)
update_list-Reads (suc fuel) count later (c ∷ columns) [] ls p h g same room stop at =
    absurd (omega arith)
update_list-Reads (suc fuel) count true (c ∷ columns) (v ∷ values) ls p h g same room stop at =
    unseen-Reads _ _ _ (ap (λ t. type_is t token_eof || type_is t token_where) at.0.0.0) (
      seen-Reads _ _ _ (ap (λ t. type_is t token_comma) at.0.0.0) (
        update_list-Reads fuel count false (c ∷ columns) (v ∷ values) ls (parser_advance p) h g same
          room stop (parser_advance-At comma _ p at)))
update_list-Reads (suc fuel) count false (column name ∷ columns) (v ∷ values) ls p h g same room
      stop at =
    let type : p.current.type ≡ token_identifier = at.0.0.0 ∙ h.0.1.1 in
    unseen-Reads _ _ _ (ap (λ t. type_is t token_eof || type_is t token_where) type) (
      unseen-Reads _ _ _ (ap (λ t. type_is t token_comma) type) (
        unseen-Reads _ _ _ (ap (λ t. not (type_is t token_identifier)) type) (
          below_limit-Reads _ _ p count (omega arith) (
            >>=-Reads parse_primary_expression _ p
              (parse_primary_expression-Reads (column name) _ p h.0.1 at)
              λ p₁ at₁. require-Reads _ _ p₁ token_equal (mark b'=') _ at₁ refl (
                let p₂ = parser_advance p₁ in
                below_limit-Reads _ _ p₂ count (omega arith) (
                  >>=-Reads parse_primary_expression _ p₂
                    (parse_primary_expression-Reads v _ p₂ g.0
                      (parser_advance-At (mark b'=') _ p₁ at₁))
                    λ p₃ at₃.
                      >>=-Reads (update_list fuel (count + 1)) _ p₃
                        (update_list-Reads fuel (count + 1) true columns values ls p₃ h.1 g.1
                          (omega arith) (omega arith) stop at₃)
                        λ p₄ at₄. parsed-Reads at₄))))))
update_list-Reads (suc fuel) count false (literal_int n ∷ columns) (v ∷ values) ls p h g same room
      stop at =
    absurd h.0.0
update_list-Reads (suc fuel) count false (literal_string t ∷ columns) (v ∷ values) ls p h g same
      room stop at =
    absurd h.0.0
update_list-Reads (suc fuel) count false (literal_boolean b ∷ columns) (v ∷ values) ls p h g same
      room stop at =
    absurd h.0.0
update_list-Reads (suc fuel) count false (equals l r ∷ columns) (v ∷ values) ls p h g same room stop
      at =
    absurd h.0.0

update_head-Reads :
    (table : Bytes) (columns values : List Expr) (e : Expr) (p : Parser)
    → HasText (update_table table columns values (some e))
    → At
        (word table
          ∷ word (codes "SET")
          ∷ (pair_items false columns values ++ where_lexemes (some e)))
        p
    → Reads (table, columns, values) (where_lexemes (some e)) (update_head p)
unfolding update_head word_type classify keyword eq_ignoring_case to_lower
update_head-Reads table columns values e p h at =
    let lists : Parse (List Expr × List Expr) = λ q. update_list (loop_fuel q) 0 q in
    let end : List Expr × List Expr → Parse (Bytes × List Expr × List Expr) =
      λ r. require token_where (codes "WHERE keyword") >> pure (table, r.0, r.1) in
    table_name-Reads _
      (λ t. require token_set (codes "SET keyword") >> (λ q.
        (lists >>= λ r. require token_where (codes "WHERE keyword") >> pure (t, r.0, r.1))
          (parser_advance q)))
      table _ p h.0 at
      λ at₁.
        let p₁ = parser_advance p in
        require-Reads _ _ p₁ token_set (word (codes "SET")) _ at₁ refl (
          let p₂ = parser_advance p₁ in
          >>=-Reads lists end p₂
            (update_list-Reads (loop_fuel p₂) 0 false columns values _ p₂ h.1.0 h.2 h.3
              (omega (arith, h.1.1))
              (λ q at. ap (λ t. type_is t token_eof || type_is t token_where) at.0.0.0)
              (parser_advance-At (word (codes "SET")) _ p₁ at₁))
            λ p₃ at₃.
              require-Reads _ _ p₃ token_where (word (codes "WHERE")) _ at₃ refl (parsed-Reads at₃))

destroying-Reads :
    {A : Type 0} {a : A} {rest : List Lexeme} (m : Parse A) (p : Parser)
    → Reads a rest (m p)
    → Reads a rest (destroying m p)
unfolding destroying
destroying-Reads {A} {a} {rest} m p h = go (m p) h
  where
    go : (r : Parsed A) → Reads a rest r → Reads a rest (destroying (λ _. r) p)
    go (parsed a' p') h = h
    go (failed e) h = absurd h.returns
    go parse_undefined h = h
    go parse_out_of_fuel h = h

pub parse_update_statement-Reads :
    (table : Bytes) (columns values : List Expr) (e : Expr) (p : Parser)
    → HasText (update_table table columns values (some e))
    → At (statement_lexemes (update_table table columns values (some e))) p
    → Reads (update_table table columns values (some e)) [] (parse_update_statement p)
unfolding parse_update_statement statement_lexemes word_type classify keyword eq_ignoring_case
    to_lower
parse_update_statement-Reads table columns values e p h at =
    require-Reads _ _ p token_update (word (codes "UPDATE")) _ at refl (
      let p₁ = parser_advance p in
      let at₁ = parser_advance-At (word (codes "UPDATE")) _ p at in
      >>=-Reads (destroying update_head)
        (λ head q.
          (parse_expression >>= λ c. pure (update_table head.0 head.1 head.2 (some c)))
            (parser_advance q))
        p₁ (destroying-Reads update_head p₁ (update_head-Reads table columns values e p₁ h at₁))
        λ p₂ at₂.
          let p₃ = parser_advance p₂ in
          >>=-Reads parse_expression (λ c. pure (update_table table columns values (some c))) p₃
            (parse_expression-Reads e p₃ (sayable h)
              (parser_advance-At (word (codes "WHERE")) _ p₂ at₂))
            λ p₄ at₄. parsed-Reads at₄)
  where
    sayable : HasText (update_table table columns values (some e)) → IsSayableCondition e
    sayable h = subst IsSayableOption (sym h.5) h.6
