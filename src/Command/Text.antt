-- ===== src/Command/Text.antt =====
-- What `process_command` of src/command.c does with the text of a statement.
use database_in_c.Prelude.{
  ℕ, ◌≡◌, refl, ap, ◌∙◌, Bool, true, false, [], arith, Option, none, some, if◌then◌else◌,
}
use database_in_c.Chars.{eq_ignoring_case, to_lower}
use database_in_c.Ast.{Statement, insert, select, create_table, update_table, delete_table}
use database_in_c.Pager.{Pager}
use database_in_c.Lexer.{
  TokenType, token_select, token_create, token_insert, token_update, token_delete, type_is, keyword,
  classify,
}
use database_in_c.Lexer.Spell.{word_type}
use database_in_c.Parser.{Parser, Parsed, parsed, parser_init}
use database_in_c.Parser.Query.{
  parse_select_statement, parse_update_statement, parse_delete_statement,
}
use database_in_c.Parser.Define.{parse_insert_statement, parse_create_statement}
use database_in_c.Parser.Post.{Post}
use database_in_c.Parser.Reads.{At, Reads, Reads-Post, parser_init-At}
use database_in_c.Parser.Print.{HasText, statement_lexemes, print}
use database_in_c.Parser.Print.Spelled.{statement_lexemes-IsSpelled}
use database_in_c.Parser.Shape.Lists.{
  parse_select_statement-IsSelect, parse_update_statement-IsUpdate, parse_delete_statement-IsDelete,
}
use database_in_c.Parser.Shape.Columns.{
  parse_insert_statement-IsInsert, parse_create_statement-IsCreate,
}
use database_in_c.Parser.RoundTrip.Select.{
  parse_select_statement-Reads, parse_delete_statement-Reads,
}
use database_in_c.Parser.RoundTrip.Update.{parse_update_statement-Reads}
use database_in_c.Parser.RoundTrip.Insert.{parse_insert_statement-Reads}
use database_in_c.Parser.RoundTrip.Create.{parse_create_statement-Reads}
use database_in_c.Command.{parse_statement, execute, run_parsed, process_command}

-- A parser that reads the statement and ends returns it.
reads_lem :
    {P : Statement → Parser → Type 0} (unset : Bool) (s : Statement) (r : Parsed Statement)
    → Reads s [] r
    → Post unset P r
    → (p : Parser) × (some r ≡ some (parsed s p))
reads_lem unset s r h g =
    let (p, e, end) = Reads-Post unset s [] r h g in (p, ap (λ (r : Parsed Statement). some r) e)

-- By the type of the first token the switch takes the parser of the statement's kind.
abbrev pub switch : Parser → TokenType → Option (Parsed Statement)
switch p t =
    if type_is t token_select
    then some (parse_select_statement p)
    else if type_is t token_create
    then some (parse_create_statement p)
    else if type_is t token_insert
    then some (parse_insert_statement p)
    else if type_is t token_update
    then some (parse_update_statement p)
    else if type_is t token_delete
    then some (parse_delete_statement p)
    else none

statement-At :
    (s : Statement) (p : Parser)
    → HasText s
    → At (statement_lexemes s) p
    → (p' : Parser) × (parse_statement p ≡ some (parsed s p'))
unfolding parse_statement statement_lexemes word_type classify keyword eq_ignoring_case to_lower
statement-At (select table is_star columns condition) p h at =
    let (p', e) =
      reads_lem false _ (parse_select_statement p)
        (parse_select_statement-Reads table is_star columns condition p h at)
        (parse_select_statement-IsSelect p) in
    (p', ap (switch p) at.0.0.0 ∙ e)
statement-At (insert table values) p h at =
    let (p', e) =
      reads_lem false _ (parse_insert_statement p)
        (parse_insert_statement-Reads table values p h at) (parse_insert_statement-IsInsert p) in
    (p', ap (switch p) at.0.0.0 ∙ e)
statement-At (create_table table columns) p h at =
    let (p', e) =
      reads_lem false _ (parse_create_statement p)
        (parse_create_statement-Reads table columns p h at) (parse_create_statement-IsCreate p) in
    (p', ap (switch p) at.0.0.0 ∙ e)
statement-At (update_table table columns values none) p h at = absurd (ground (arith, h.5))
statement-At (update_table table columns values (some c)) p h at =
    let (p', e) =
      reads_lem true _ (parse_update_statement p)
        (parse_update_statement-Reads table columns values c p h at)
        (parse_update_statement-IsUpdate p) in
    (p', ap (switch p) at.0.0.0 ∙ e)
statement-At (delete_table table condition) p h at =
    let (p', e) =
      reads_lem false _ (parse_delete_statement p)
        (parse_delete_statement-Reads table condition p h at) (parse_delete_statement-IsDelete p) in
    (p', ap (switch p) at.0.0.0 ∙ e)

-- The parser that the switch takes on the text of a statement returns the statement: one whose
-- names are words that are neither a keyword nor a number, whose strings have no quote, whose
-- integers are from 0 to LONG_MAX and whose lists have at most eight elements; a SELECT of `*`
-- has no columns, a CREATE TABLE one primary key, an INTEGER, and an UPDATE a condition and as
-- many values as columns.
pub parse_statement-print :
    (s : Statement)
    → HasText s
    → (p : Parser) × (parse_statement (parser_init (print s)) ≡ some (parsed s p))
parse_statement-print s h =
    statement-At s (parser_init (print s)) h
      (parser_init-At (statement_lexemes s) (statement_lexemes-IsSpelled s h))

-- On the text of such a statement `process_command` does what it does with the statement itself.
pub process_command-print :
    (fuel : ℕ) (s : Statement) (pager : Pager)
    → HasText s
    → process_command fuel (print s) pager ≡ execute fuel s pager
unfolding process_command
process_command-print fuel s pager h =
    let (p, e) = parse_statement-print s h in rw (e, process_command, run_parsed) refl
