-- ===== src/Command.antt =====
-- `process_command` of src/command.c: the parser is chosen by the first token, the table is looked
-- up in the catalog of page 0, and the statement is run on it.
pub mod Statements
pub mod Text
pub mod Select
pub mod Undefined
pub mod Meta
pub mod Schema
use database_in_c.Prelude.{
  ℕ, ◌+◌, Bool, true, false, not, List, [], ◌∷◌, Option, none, some, ◌==◌, if◌then◌else◌,
}
use database_in_c.Chars.{Bytes}
use database_in_c.Row.{Row}
use database_in_c.Ast.{Statement, insert, select, create_table, update_table, delete_table}
use database_in_c.Page.{Catalog}
use database_in_c.Pager.{Pager, pager_get_page}
use database_in_c.Catalog.{catalog_node_find_table, uint32_max}
use database_in_c.Table.{CommandResult, command_success, failure, Table}
use database_in_c.Lexer.{token_select, token_create, token_insert, token_update, token_delete}
use database_in_c.Parser.{
  Parser, ParseError, Parsed, parsed, failed, parse_undefined, parse_out_of_fuel, parser_init, sees,
}
use database_in_c.Parser.Query.{
  parse_select_statement, parse_update_statement, parse_delete_statement,
}
use database_in_c.Parser.Define.{parse_insert_statement, parse_create_statement}
use database_in_c.Delete.{Outcome, done, undefined, out_of_fuel, and_then, delete_command}
use database_in_c.Insert.{insert_command}
use database_in_c.Update.{update_command}
use database_in_c.Create
use database_in_c.Plan.{select_rows}

-- What `process_command` prints; what the commands that it calls print is left out.
pub data Output : Type 0 where
  no_message not_supported table_exists table_not_found unknown_column : Output
  parse_message : ParseError → Output
  rows : List Row → Output

abbrev pub Reply : Type 0
Reply = Outcome (Pager × Output × CommandResult)

-- The switch on the first token. `none` is the default.
unfoldable pub parse_statement : Parser → Option (Parsed Statement)
parse_statement p =
    if sees p token_select
    then some (parse_select_statement p)
    else if sees p token_create
    then some (parse_create_statement p)
    else if sees p token_insert
    then some (parse_insert_statement p)
    else if sees p token_update
    then some (parse_update_statement p)
    else if sees p token_delete
    then some (parse_delete_statement p)
    else none

-- `tree->as.select.table` or `tree->as.insert.table`: the name stands first in every member.
abbrev pub table_of : Statement → Bytes
table_of (insert table values) = table
table_of (select table is_star columns condition) = table
table_of (create_table table columns) = table
table_of (update_table table columns values condition) = table
table_of (delete_table table condition) = table

-- A command that prints nothing itself.
abbrev pub quiet : Outcome (Pager × CommandResult) → Reply
quiet r = and_then r λ (pager, result). done (pager, no_message, result)

abbrev pub select_output : Option (List Row) → Output
select_output none = unknown_column
select_output (some rs) = rows rs

-- The dispatch on a table that was found.
unfoldable pub run_on_table : ℕ → Statement → Table → Pager → Reply
run_on_table fuel (insert name values) table pager =
    quiet (insert_command fuel table name values pager)
run_on_table fuel (update_table name columns values condition) table pager =
    quiet (update_command fuel table name columns values condition pager)
run_on_table fuel (delete_table name condition) table pager =
    quiet (delete_command fuel table name condition pager)
run_on_table fuel (select name is_star columns condition) table pager =
    and_then (select_rows fuel pager table (select name is_star columns condition))
      λ (pager', o). done (pager', select_output o, command_success)
run_on_table fuel (create_table name columns) table pager = undefined

-- The handle of a table that was found.
abbrev pub found_table : Catalog → Bytes → Table
found_table catalog name = record {
  root_page_num = (catalog.tables (catalog_node_find_table catalog name)).root_page;
  table_name = name;
}

-- Any statement but CREATE TABLE.
unfoldable pub find_and_run : ℕ → Statement → Pager → Catalog → Reply
unfolding run_on_table
find_and_run fuel statement pager catalog =
    let table_num = catalog_node_find_table catalog (table_of statement) in
    if table_num == uint32_max
    then done (pager, table_not_found, command_success)
    else run_on_table fuel statement (found_table catalog (table_of statement)) pager

unfoldable pub on_catalog : ℕ → Statement → Pager → Catalog → Reply
unfolding find_and_run
on_catalog fuel (create_table name columns) pager catalog =
    if not (catalog_node_find_table catalog name == uint32_max)
    then done (pager, table_exists, command_success)
    else quiet (Create.create_table pager name columns)
on_catalog fuel (insert name values) pager catalog =
    find_and_run fuel (insert name values) pager catalog
on_catalog fuel (select name is_star columns condition) pager catalog =
    find_and_run fuel (select name is_star columns condition) pager catalog
on_catalog fuel (update_table name columns values condition) pager catalog =
    find_and_run fuel (update_table name columns values condition) pager catalog
on_catalog fuel (delete_table name condition) pager catalog =
    find_and_run fuel (delete_table name condition) pager catalog

-- From the syntax tree on. A null pointer for page 0 is read.
unfoldable pub execute : ℕ → Statement → Pager → Reply
unfolding on_catalog
execute fuel statement pager = elim (pager_get_page pager 0) [
  | none ↦ undefined
  | some (pager', page) ↦ on_catalog fuel statement pager' page.catalog
]

unfoldable pub run_parsed : ℕ → Pager → Parsed Statement → Reply
run_parsed fuel pager (parsed statement p) = execute fuel statement pager
run_parsed fuel pager (failed e) = done (pager, parse_message e, command_success)
run_parsed fuel pager parse_undefined = undefined
run_parsed fuel pager parse_out_of_fuel = out_of_fuel

-- The fuel is for the walks over pages; that of the parser comes from the text.
unfoldable pub process_command : ℕ → Bytes → Pager → Reply
unfolding parse_statement run_parsed
process_command fuel buffer pager = elim (parse_statement (parser_init buffer)) [
  | none ↦ done (pager, not_supported, failure)
  | some r ↦ run_parsed fuel pager r
]
