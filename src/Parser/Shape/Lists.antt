-- ===== src/Parser/Shape/Lists.antt =====
-- What `parse_select_statement`, `parse_update_statement` and `parse_delete_statement` of
-- src/parser.c make of any text.
use database_in_c.Prelude.{
  ℕ, zero, suc, ◌+◌, ◌-◌, ◌≤◌, ◌<◌, ◌≡◌, refl, Bool, true, false, not, ◌||◌, List, [], some, arith,
  length, All,
}
use database_in_c.Lexer.{
  token_eof, token_from, token_comma, token_identifier, token_select, token_star, token_where,
  token_update, token_set, token_equal, token_delete,
}
use database_in_c.Ast.{Expr, Statement, select, update_table, delete_table, insert, create_table}
use database_in_c.Parser.{
  Parser, Parsed, Parse, parsed, failed, parse_undefined, parse_out_of_fuel, parser_advance, sees,
  parse_primary_expression, parse_expression, max_table_columns, loop_fuel,
}
use database_in_c.Parser.Post.{
  Post, weight, parsed-Post, fail-Post, if-Post, >>=-Post, require-Post, below_limit-Post,
  weight-parser_advance, weight_comma, weight_fuel,
}
use database_in_c.Parser.Shape.{
  IsColumn, IsPrimary, IsCondition, IsConditionOption, parse_primary_expression-Post,
  parse_expression-Post,
}
use database_in_c.Parser.Query.{
  select_columns, select_list, optional_where, parse_select_statement, update_list, update_head,
  destroying, parse_update_statement, parse_delete_statement,
}

-- At most eight columns in all, `count` of them read before.
abbrev pub FitsFrom : ℕ → (Expr → Type 0) → List Expr → Type 0
FitsFrom count P es = All P es × (count + length es ≤ max_table_columns)

select_columns-Post :
    (fuel count : ℕ) (p : Parser)
    → count ≤ max_table_columns
    → weight p + (max_table_columns - count) < fuel
    → Post false (λ es _. FitsFrom count IsColumn es) (select_columns fuel count p)
unfolding select_columns
select_columns-Post zero count p small long = absurd (omega arith)
select_columns-Post (suc fuel) count p small long =
    if-Post (sees p token_eof || sees p token_from) (λ _. parsed-Post (tt, omega arith))
      λ _.
        if-Post (sees p token_comma)
          (λ comma.
            select_columns-Post fuel count (parser_advance p) small
              (omega (arith, weight_comma p comma)))
          λ _.
            if-Post (not (sees p token_identifier)) (λ _. fail-Post _ p)
              λ name. below_limit-Post _ _ p count λ room.
                >>=-Post parse_primary_expression _ p (parse_primary_expression-Post false p)
                  λ e p₁ h₁.
                    >>=-Post (select_columns fuel (count + 1)) _ p₁
                      (select_columns-Post fuel (count + 1) p₁ (omega arith) (omega (arith, h₁.1)))
                      λ es p₂ h₂. parsed-Post ((h₁.0.1 (ground arith), h₂.0), omega (arith, h₂.1))

abbrev pub IsList : Bool × List Expr → Type 0
IsList (is_star, columns) = FitsFrom 0 IsColumn columns × (is_star ≡ true → columns ≡ [])

select_list-Post : (p : Parser) → Post false (λ list _. IsList list) (select_list p)
unfolding select_list
select_list-Post p =
    if-Post (sees p token_star) (λ _. parsed-Post ((tt, omega arith), λ _. refl))
      λ _.
        >>=-Post (select_columns (loop_fuel p) 0) _ p
          (select_columns-Post (loop_fuel p) 0 p (omega arith) (weight_fuel p))
          λ columns p₁ h. parsed-Post (h, λ star. absurd (ground arith))

optional_where-Post :
    (p : Parser) → Post false (λ condition _. IsConditionOption condition) (optional_where p)
unfolding optional_where
optional_where-Post p =
    if-Post (sees p token_where)
      (λ _.
        >>=-Post parse_expression _ (parser_advance p) (parse_expression-Post false _)
          λ e p₁ h. parsed-Post h.0)
      λ _. parsed-Post tt

-- A SELECT of `*` or of at most eight columns, with a condition or none.
abbrev pub IsSelect : Statement → Type 0
IsSelect (select table is_star columns condition) =
    IsList (is_star, columns) × IsConditionOption condition
IsSelect (insert table values) = ⊥
IsSelect (create_table table columns) = ⊥
IsSelect (update_table table columns values condition) = ⊥
IsSelect (delete_table table condition) = ⊥

-- On any text `parse_select_statement` ends, with an error or with a SELECT of `*` or of at most
-- eight columns that are all names, with no condition, one literal or name, or two of these
-- around `=`.
pub parse_select_statement-IsSelect :
    (p : Parser) → Post false (λ s _. IsSelect s) (parse_select_statement p)
unfolding parse_select_statement
parse_select_statement-IsSelect p = require-Post _ _ p token_select λ _.
    let p₁ = parser_advance p in
    >>=-Post select_list _ p₁ (select_list-Post p₁) λ list p₂ h₂.
      require-Post _ _ p₂ token_from λ _.
        let p₃ = parser_advance p₂ in
        require-Post _ _ p₃ token_identifier λ _.
          let p₄ = parser_advance p₃ in
          >>=-Post optional_where _ p₄ (optional_where-Post p₄)
            λ condition p₅ h₅. parsed-Post (h₂, h₅)

-- Also a condition is one of the three kinds.
abbrev pub IsDelete : Statement → Type 0
IsDelete (delete_table table condition) = IsConditionOption condition
IsDelete (insert table values) = ⊥
IsDelete (create_table table columns) = ⊥
IsDelete (update_table table columns values condition) = ⊥
IsDelete (select table is_star columns condition) = ⊥

pub parse_delete_statement-IsDelete :
    (p : Parser) → Post false (λ s _. IsDelete s) (parse_delete_statement p)
unfolding parse_delete_statement
parse_delete_statement-IsDelete p = require-Post _ _ p token_delete λ _.
    let p₁ = parser_advance p in
    require-Post _ _ p₁ token_from λ _.
      let p₂ = parser_advance p₁ in
      require-Post _ _ p₂ token_identifier λ _.
        let p₃ = parser_advance p₂ in
        >>=-Post optional_where _ p₃ (optional_where-Post p₃) λ condition p₄ h. parsed-Post h

-- As many values as columns.
abbrev pub ArePairs : ℕ → List Expr × List Expr → Type 0
ArePairs count (columns, values) =
    FitsFrom count IsColumn columns × All IsPrimary values × (length values ≡ length columns)

pub update_list-Post :
    (fuel count : ℕ) (p : Parser)
    → count ≤ max_table_columns
    → weight p + (max_table_columns - count) < fuel
    → Post false (λ lists _. ArePairs count lists) (update_list fuel count p)
unfolding update_list
update_list-Post zero count p small long = absurd (omega arith)
update_list-Post (suc fuel) count p small long =
    if-Post (sees p token_eof || sees p token_where)
      (λ _. parsed-Post ((tt, omega arith), tt, refl))
      λ _.
        if-Post (sees p token_comma)
          (λ comma.
            update_list-Post fuel count (parser_advance p) small
              (omega (arith, weight_comma p comma)))
          λ _.
            if-Post (not (sees p token_identifier)) (λ _. fail-Post _ p)
              λ name. below_limit-Post _ _ p count λ room.
                >>=-Post parse_primary_expression _ p (parse_primary_expression-Post false p)
                  λ e p₁ h₁. require-Post _ _ p₁ token_equal λ _.
                    let p₂ = parser_advance p₁ in
                    below_limit-Post _ _ p₂ count λ _.
                      >>=-Post parse_primary_expression _ p₂
                        (parse_primary_expression-Post false p₂)
                        λ v p₃ h₃.
                          >>=-Post (update_list fuel (count + 1)) _ p₃
                            (update_list-Post fuel (count + 1) p₃ (omega arith)
                              (omega (arith, h₁.1, h₃.1, weight-parser_advance p₁)))
                            λ lists p₄ h₄. parsed-Post (
                              ((h₁.0.1 (ground arith), h₄.0.0), omega (arith, h₄.0.1)),
                              (h₃.0.0, h₄.1),
                              omega (arith, h₄.2),
                            )

update_head-Post : (p : Parser) → Post false (λ head _. ArePairs 0 (head.1, head.2)) (update_head p)
unfolding update_head
update_head-Post p = require-Post _ _ p token_identifier λ _.
    let p₁ = parser_advance p in
    require-Post _ _ p₁ token_set λ _.
      let p₂ = parser_advance p₁ in
      >>=-Post (λ q. update_list (loop_fuel q) 0 q) _ p₂
        (update_list-Post (loop_fuel p₂) 0 p₂ (omega arith) (weight_fuel p₂))
        λ lists p₃ h. require-Post _ _ p₃ token_where λ _. parsed-Post h

destroying-Post :
    {A : Type 0} {P : A → Parser → Type 0} (m : Parse A) (p : Parser)
    → Post false P (m p)
    → Post true P (destroying m p)
unfolding destroying
destroying-Post {A} {P} m p h = go (m p) h
  where
    go : (r : Parsed A) → Post false P r → Post true P (destroying (λ _. r) p)
    go (parsed a p') h = parsed-Post h.holds
    go (failed e) h = record { holds = refl }
    go parse_undefined h = record { holds = refl }
    go parse_out_of_fuel h = absurd h.holds

abbrev pub IsUpdate : Statement → Type 0
IsUpdate (update_table table columns values condition) =
    ArePairs 0 (columns, values) × (e : Expr) × (condition ≡ some e) × IsCondition e
IsUpdate (insert table values) = ⊥
IsUpdate (create_table table columns) = ⊥
IsUpdate (delete_table table condition) = ⊥
IsUpdate (select table is_star columns condition) = ⊥

-- On any text `parse_update_statement` ends: with an error, with the destruction of a node whose
-- `where` was never written, or with an UPDATE of at most eight columns that are all names, of as
-- many values that are literals or names, and with a condition.
pub parse_update_statement-IsUpdate :
    (p : Parser) → Post true (λ s _. IsUpdate s) (parse_update_statement p)
unfolding parse_update_statement
parse_update_statement-IsUpdate p = require-Post _ _ p token_update λ _.
    let p₁ = parser_advance p in
    >>=-Post (destroying update_head) _ p₁ (destroying-Post update_head p₁ (update_head-Post p₁))
      λ head p₂ h₂.
        let p₃ = parser_advance p₂ in
        >>=-Post parse_expression _ p₃ (parse_expression-Post true p₃)
          λ e p₄ h₄. parsed-Post (h₂, e, refl, h₄.0)
