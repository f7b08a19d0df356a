-- ===== src/Command/Meta.antt =====
-- `do_meta_command` of src/command.c, with `debug_ast` of src/lexer.c, the list of tables and
-- `print_table_schema` of src/ast.c. The output is the data that is printed, and `lines_of` gives
-- its lines.
use database_in_c.Prelude.{
  ℕ, zero, suc, ◌+◌, Bool, true, false, ◌||◌, ◌&&◌, List, [], ◌∷◌, Option, none, some, ◌==◌,
  if◌then◌else◌, length, take, drop, range, map, ◌++◌,
}
use database_in_c.Chars.{Bytes, codes, eq_ignoring_case}
use database_in_c.Ast.{Statement, ColumnType}
use database_in_c.Ast.Print.{ast_print, print_statement, column_type_name}
use database_in_c.Plan.Print.{plan_print, plan_print_node}
use database_in_c.Lexer.Names.{token_type_name}
use database_in_c.Page.{TableEntry, ColumnSlot}
use database_in_c.Pager.{Pager}
use database_in_c.Catalog.{catalog_node_find_table, uint32_max, c_string}
use database_in_c.Table.{
  CommandResult, command_success, unrecognized_command, debugs_tokens_success, debug_ast_success,
  catalog_of,
}
use database_in_c.Lexer.{
  Token, Tokenizer, token_select, token_create, token_insert, token_identifier, token_eof, type_is,
  tokenizer_init, get_next_token, no_token, debug_tokens,
}
use database_in_c.Parser.{
  ParseError, error_text, Parsed, parsed, failed, parse_undefined, parse_out_of_fuel, parser_init,
  sees,
}
use database_in_c.Parser.Query.{parse_select_statement}
use database_in_c.Parser.Define.{parse_insert_statement, parse_create_statement}
use database_in_c.Delete.{Outcome, done, undefined, out_of_fuel}
use database_in_c.Plan.{PlanNode, build_plan}
use database_in_c.Command.{table_of, found_table}

pub data MetaOutput : Type 0 where
  silent : MetaOutput
  meta_message : Bytes → MetaOutput
  meta_parse_message : ParseError → MetaOutput
  tokens : List Token → MetaOutput
  tree : Statement → MetaOutput
  table_names : List Bytes → MetaOutput
  schema : List (Bytes × ColumnType) → MetaOutput
  plan : PlanNode → MetaOutput

abbrev pub MetaReply : Type 0
MetaReply = Outcome (Pager × MetaOutput × CommandResult)

-- `strcmp(s, t) == 0`.
abbrev pub equal_bytes : Bytes → Bytes → Bool
equal_bytes [] [] = true
equal_bytes [] (c ∷ t) = false
equal_bytes (c ∷ s) [] = false
equal_bytes (c ∷ s) (d ∷ t) = c == d && equal_bytes s t

-- `strncasecmp(s, t, strlen(t)) == 0`.
abbrev pub starts_with : Bytes → Bytes → Bool
starts_with s t = eq_ignoring_case (take (length t) s) t

-- What a parser that was chosen leaves to print.
abbrev pub print_parsed : Parsed Statement → (Statement → Outcome MetaOutput) → Outcome MetaOutput
print_parsed (parsed s p) f = f s
print_parsed (failed e) f = done (meta_parse_message e)
print_parsed parse_undefined f = undefined
print_parsed parse_out_of_fuel f = out_of_fuel

unfoldable pub debug_ast : Bytes → Outcome MetaOutput
debug_ast sql =
    let p = parser_init sql in
    if sees p token_select
    then print_parsed (parse_select_statement p) (λ s. done (tree s))
    else if sees p token_create
    then print_parsed (parse_create_statement p) (λ s. done (tree s))
    else if sees p token_insert
    then print_parsed (parse_insert_statement p) (λ s. done (tree s))
    else done (meta_message (codes "Statement is not supported"))

-- The loop to the first identifier or the end.
unfoldable pub name_loop : ℕ → Tokenizer → Token → Option Token
name_loop zero t out = none
name_loop (suc fuel) t out =
    let (t', out') = get_next_token t out in
    let rest = name_loop fuel t' out' in
    if type_is out'.type token_identifier || type_is out'.type token_eof then some out' else rest

-- The name and the type of each column, as they are stored.
abbrev pub columns_of : TableEntry → List (Bytes × ColumnType)
columns_of entry =
    map (λ (slot : ColumnSlot). (slot.name, slot.type)) (range entry.columns 0 entry.column_count)

unfoldable pub print_table_schema : Pager → Bytes → Outcome MetaOutput
unfolding name_loop
print_table_schema pager text =
    let catalog = catalog_of pager in
    elim (name_loop (length text + 1) (tokenizer_init text) no_token) [
      | none ↦ out_of_fuel
      | some token ↦
          let table_num = catalog_node_find_table catalog token.text in
          if type_is token.type token_identifier
          then (if table_num == uint32_max
              then done (meta_message (codes "The table does not exist! "))
              else done (schema (columns_of (catalog.tables table_num))))
          else done (meta_message (codes "Not a real table name, please try again!"))
    ]

unfoldable pub tables_list : Pager → List Bytes
tables_list pager =
    let catalog = catalog_of pager in
    map (λ (entry : TableEntry). entry.name) (range catalog.tables 0 catalog.num_tables)

-- The plan of a parsed SELECT or INSERT.
unfoldable pub plan_of : Pager → Statement → Outcome MetaOutput
plan_of pager s =
    let catalog = catalog_of pager in
    let table_num = catalog_node_find_table catalog (table_of s) in
    let table = found_table catalog (table_of s) in
    if table_num == uint32_max
    then done (meta_message (codes "Table is not found"))
    else elim (build_plan pager table s) [ none ↦ undefined | some node ↦ done (plan node) ]

unfoldable pub debug_plan : Pager → Bytes → Outcome MetaOutput
unfolding plan_of
debug_plan pager sql =
    let p = parser_init sql in
    if sees p token_select
    then print_parsed (parse_select_statement p) (plan_of pager)
    else if sees p token_insert
    then print_parsed (parse_insert_statement p) (plan_of pager)
    else done (meta_message (codes ".plan only supports SELECT/INSERT statements"))

-- A command that only prints.
abbrev pub printing : Pager → CommandResult → Outcome MetaOutput → MetaReply
printing pager result (done output) = done (pager, output, result)
printing pager result undefined = undefined
printing pager result out_of_fuel = out_of_fuel

abbrev pub tokens_output : Option (List Token) → Outcome MetaOutput
tokens_output none = out_of_fuel
tokens_output (some ts) = done (tokens ts)

-- `debug_btree` is what `.btree` does, which walks over the bytes of the catalog page as if they
-- were a node of a tree. The catalog page is cached.
unfoldable pub do_meta_command : (Pager → MetaReply) → Bytes → Pager → MetaReply
unfolding debug_ast print_table_schema tables_list debug_plan
do_meta_command debug_btree buffer pager =
    if equal_bytes buffer (codes ".exit")
    then done (pager, silent, command_success)
    else if equal_bytes buffer (codes ".btree")
    then debug_btree pager
    else if starts_with buffer (codes ".tokens")
    then printing pager debugs_tokens_success (tokens_output (debug_tokens (drop 7 buffer)))
    else if starts_with buffer (codes ".ast")
    then printing pager debug_ast_success (debug_ast (drop 4 buffer))
    else if starts_with buffer (codes ".tables")
    then done (pager, table_names (tables_list pager), debug_ast_success)
    else if starts_with buffer (codes ".schema")
    then printing pager debug_ast_success (print_table_schema pager (drop 7 buffer))
    else if starts_with buffer (codes ".plan")
    then printing pager debug_ast_success (debug_plan pager (drop 5 buffer))
    else done (pager, silent, unrecognized_command)

-- The lines of the output, without their newlines.
unfoldable pub lines_of : MetaOutput → List Bytes
unfolding error_text token_type_name c_string print_statement plan_print_node
lines_of silent = []
lines_of (meta_message text) = text ∷ []
lines_of (meta_parse_message e) = error_text e ∷ []
lines_of (tokens ts) = map token_type_name ts
lines_of (tree s) = ast_print s
lines_of (table_names names) =
    codes "The list of tables is the following : "
    ∷ map (λ name. codes "Table " ++ c_string name) names
lines_of (schema columns) =
    map
      (λ (name, type).
        codes "Column Name " ++ c_string name ++ codes ", its type is " ++ column_type_name type)
      columns
lines_of (plan node) = plan_print node
