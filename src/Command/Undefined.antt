-- ===== src/Command/Undefined.antt =====
-- Lines on which `process_command` of src/command.c has undefined behaviour: the destruction of a
-- node that was not initialised in full, and a read of the wrong member of a union.
use database_in_c.Prelude.{
  ℕ, ◌≡◌, refl, ap, ◌∙◌, Bool, true, false, ◌||◌, List, [], ◌∷◌, ◌++◌, none, some, arith, length,
  All, ◌==◌,
}
use database_in_c.Chars.{Bytes, codes, eq_ignoring_case, to_lower}
use database_in_c.Ast.{
  Expr, literal_int, literal_string, literal_boolean, column, equals, Statement, select,
  update_table,
}
use database_in_c.Pager.{Pager}
use database_in_c.Catalog.{catalog_node_find_table, uint32_max}
use database_in_c.Table.{Table, catalog_of}
use database_in_c.Lexer.{
  token_eof, token_where, token_update, token_set, token_identifier, type_is, keyword, classify,
}
use database_in_c.Lexer.Spell.{Lexeme, word, spell, word_type}
use database_in_c.Delete.{undefined}
use database_in_c.Cursor.Scan.{IsCached, pager_get_page-cached}
use database_in_c.Plan.{where_plan, build_plan, select_rows}
use database_in_c.Parser.{
  Parser, Parsed, parsed, failed, parse_undefined, parser_init, parser_advance, parser_set_error,
  parse_expression, ParseError, sees, require, Parse, ◌>>=◌, ◌>>◌, pure, loop_fuel,
}
use database_in_c.Parser.Post.{weight_fuel}
use database_in_c.Parser.Reads.{
  At, Reads-Post, require_then, require_else, bind_parsed, bind_undefined, parser_init-At,
  parser_advance-At,
}
use database_in_c.Parser.Print.{pair_items, IsName, IsSayable, AreNames, HasText, print}
use database_in_c.Parser.Print.Spelled.{head-AreSpelled}
use database_in_c.Parser.RoundTrip.Update.{update_list-Reads}
use database_in_c.Parser.Shape.Lists.{update_list-Post}
use database_in_c.Parser.Query.{update_list, update_head, destroying, parse_update_statement}
use database_in_c.Command.{
  parse_statement, execute, on_catalog, find_and_run, run_on_table, run_parsed, process_command,
}
use database_in_c.Command.Text.{switch, process_command-print}

-- UPDATE, the table and the SET list, and nothing behind it.
abbrev pub head_lexemes : Bytes → List Expr → List Expr → List Lexeme
head_lexemes table columns values =
    word (codes "UPDATE")
    ∷ word table
    ∷ word (codes "SET")
    ∷ (pair_items false columns values ++ [])

update_head_lem :
    (p q : Parser) (lists : List Expr × List Expr)
    → sees p token_identifier ≡ true
    → sees (parser_advance p) token_set ≡ true
    → (let p₂ = parser_advance (parser_advance p) in
        update_list (loop_fuel p₂) 0 p₂ ≡ parsed lists q)
    → sees q token_where ≡ false
    → update_head p ≡ failed (parser_set_error q (codes "WHERE keyword"))
unfolding update_head
update_head_lem p q lists first second e third =
    let p₁ = parser_advance p in
    let p₂ = parser_advance p₁ in
    let table = p.current.text in
    let end : List Expr × List Expr → Parse (Bytes × List Expr × List Expr) =
      λ r. require token_where (codes "WHERE keyword") >> pure (table, r.0, r.1) in
    let set_list : Parse (Bytes × List Expr × List Expr) =
      λ r. ((λ r'. update_list (loop_fuel r') 0 r') >>= end) (parser_advance r) in
    require_then (codes "a table name")
      (λ r.
        (require token_set (codes "SET keyword") >> (λ r'.
            ((λ r''. update_list (loop_fuel r'') 0 r'') >>= (λ l.
                require token_where (codes "WHERE keyword") >> pure (r.current.text, l.0, l.1)))
              (parser_advance r')))
          (parser_advance r))
      p token_identifier first
    ∙ require_then (codes "SET keyword") set_list p₁ token_set second
    ∙ bind_parsed (λ r. update_list (loop_fuel r) 0 r) end p₂ lists q e
    ∙ require_else (codes "WHERE keyword") (pure (table, lists.0, lists.1)) q token_where third

destroying-failed :
    {A : Type 0} (m : Parse A) (p : Parser) (error : ParseError)
    → m p ≡ failed error
    → destroying m p ≡ parse_undefined
unfolding destroying
destroying-failed m p error e = rw (e, destroying) refl

module _ (table : Bytes) (columns values : List Expr) (name : IsName table)
    (names : AreNames columns) (sayable : All IsSayable values)
    (same : length values ≡ length columns) where
  update_head-unset :
      (p : Parser)
      → At (word table ∷ word (codes "SET") ∷ (pair_items false columns values ++ [])) p
      → (q : Parser) × (update_head p ≡ failed (parser_set_error q (codes "WHERE keyword")))
  unfolding update_head require word_type classify keyword eq_ignoring_case to_lower
  update_head-unset p at =
      let p₁ = parser_advance p in
      let at₁ = parser_advance-At (word table) _ p at in
      let p₂ = parser_advance p₁ in
      let at₂ = parser_advance-At (word (codes "SET")) _ p₁ at₁ in
      let first : sees p token_identifier ≡ true =
        ap (λ t. type_is t token_identifier) (at.0.0.0 ∙ name.1) in
      let second : sees p₁ token_set ≡ true = ap (λ t. type_is t token_set) at₁.0.0.0 in
      let (p₃, e, at₃) =
        Reads-Post false (columns, values) [] (update_list (loop_fuel p₂) 0 p₂)
          (update_list-Reads (loop_fuel p₂) 0 false columns values [] p₂ names.0 sayable same
            (omega (arith, names.1))
            (λ q end. ap (λ t. type_is t token_eof || type_is t token_where) end.0.0) at₂)
          (update_list-Post (loop_fuel p₂) 0 p₂ (omega arith) (weight_fuel p₂)) in
      let third : sees p₃ token_where ≡ false = ap (λ t. type_is t token_where) at₃.0.0 in
      (p₃, update_head_lem p p₃ (columns, values) first second e third)

  -- On the text of an UPDATE with its table and SET list and no WHERE, `process_command` has
  -- undefined behaviour. The table and the columns are names, at most eight, and the values, as
  -- many, are literals or names that have a text.
  pub process_command-unset_where :
      (fuel : ℕ) (pager : Pager)
      → process_command fuel (spell (head_lexemes table columns values)) pager ≡ undefined
  unfolding process_command parse_statement parse_update_statement word_type classify keyword
      eq_ignoring_case to_lower
  process_command-unset_where fuel pager =
      let text = spell (head_lexemes table columns values) in
      let p = parser_init text in
      let at =
        parser_init-At (head_lexemes table columns values)
          (head-AreSpelled table columns values name names sayable) in
      let p₁ = parser_advance p in
      let (q, e) = update_head-unset p₁ (parser_advance-At (word (codes "UPDATE")) _ p at) in
      let undefined_p : parse_update_statement p ≡ parse_undefined =
        require_then (codes "UPDATE")
          (λ r.
            (destroying update_head >>= λ head r'.
            (parse_expression >>= λ c. pure (update_table head.0 head.1 head.2 (some c)))
              (parser_advance r'))
              (parser_advance r))
          p token_update (ap (λ t. type_is t token_update) at.0.0.0)
        ∙ bind_undefined (destroying update_head) _ p₁ (destroying-failed update_head p₁ _ e) in
      let chosen : parse_statement p ≡ some parse_undefined =
        ap (switch p) at.0.0.0 ∙ ap (λ (r : Parsed Statement). some r) undefined_p in
      rw (chosen, process_command, run_parsed) refl

abbrev pub IsEquation : Expr → Type 0
IsEquation (equals l r) = Unit
IsEquation (column name) = ⊥
IsEquation (literal_int n) = ⊥
IsEquation (literal_string text) = ⊥
IsEquation (literal_boolean b) = ⊥

where_plan-none :
    (pager : Pager) (table : Table) (e : Expr)
    → (IsEquation e → ⊥)
    → where_plan pager table (some e) ≡ none
unfolding where_plan
where_plan-none pager table (equals l r) h = absurd (h tt)
where_plan-none pager table (column name) h = refl
where_plan-none pager table (literal_int n) h = refl
where_plan-none pager table (literal_string text) h = refl
where_plan-none pager table (literal_boolean b) h = refl

build_plan-none :
    (pager : Pager) (table : Table) (name : Bytes) (is_star : Bool) (columns : List Expr) (e : Expr)
    → (IsEquation e → ⊥)
    → build_plan pager table (select name is_star columns (some e)) ≡ none
unfolding build_plan
build_plan-none pager table name is_star [] e h = where_plan-none pager table e h
build_plan-none pager table name is_star (c ∷ columns) e h =
    rw (where_plan-none pager table e h, build_plan) refl

select_rows-no_equation :
    (fuel : ℕ) (name : Bytes) (is_star : Bool) (columns : List Expr) (e : Expr) (pager : Pager)
    (table : Table)
    → (IsEquation e → ⊥)
    → select_rows fuel pager table (select name is_star columns (some e)) ≡ undefined
unfolding select_rows
select_rows-no_equation fuel name is_star columns e pager table h =
    rw (build_plan-none pager table name is_star columns e h, select_rows) refl

execute-no_equation :
    (fuel : ℕ) (name : Bytes) (is_star : Bool) (columns : List Expr) (e : Expr) (pager : Pager)
    → (IsEquation e → ⊥)
    → IsCached pager 0
    → (catalog_node_find_table (catalog_of pager) name == uint32_max) ≡ false
    → execute fuel (select name is_star columns (some e)) pager ≡ undefined
unfolding execute on_catalog find_and_run run_on_table
execute-no_equation fuel name is_star columns e pager h cached known =
    rw
      (
        execute,
        pager_get_page-cached pager 0 cached,
        execute,
        known,
        run_on_table,
        select_rows-no_equation fuel name is_star columns e pager _ h,
      )
      refl

-- On the text of a SELECT from a table of the catalog, with page 0 cached and a condition that is
-- one literal or name and no equation, `process_command` reads the wrong member of a union.
pub process_command-no_equation :
    (fuel : ℕ) (name : Bytes) (is_star : Bool) (columns : List Expr) (e : Expr) (pager : Pager)
    → HasText (select name is_star columns (some e))
    → (IsEquation e → ⊥)
    → IsCached pager 0
    → (catalog_node_find_table (catalog_of pager) name == uint32_max) ≡ false
    → process_command fuel (print (select name is_star columns (some e))) pager ≡ undefined
process_command-no_equation fuel name is_star columns e pager text h cached known =
    process_command-print fuel (select name is_star columns (some e)) pager text
    ∙ execute-no_equation fuel name is_star columns e pager h cached known
