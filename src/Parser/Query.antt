-- ===== src/Parser/Query.antt =====
-- `parse_select_statement`, `parse_update_statement` and `parse_delete_statement` of src/parser.c.
use database_in_c.Prelude.{
  ℕ, zero, suc, ◌+◌, Bool, true, false, not, ◌||◌, List, [], ◌∷◌, Option, none, some, if◌then◌else◌,
}
use database_in_c.Chars.{Bytes, codes}
use database_in_c.Lexer.{
  token_eof, token_from, token_comma, token_identifier, token_select, token_star, token_where,
  token_update, token_set, token_equal, token_delete,
}
use database_in_c.Ast.{Expr, Statement, select, update_table, delete_table}
use database_in_c.Parser.{
  Parse, parsed, failed, parse_undefined, parse_out_of_fuel, ◌>>=◌, ◌>>◌, pure, parser_advance,
  sees, fail, require, advance, current_text, parse_primary_expression, parse_expression,
  below_limit, loop_fuel,
}

-- The loop over the column list of a SELECT.
unfoldable pub select_columns : ℕ → ℕ → Parse (List Expr)
select_columns zero column_count p = parse_out_of_fuel
select_columns (suc fuel) column_count p =
    let next = select_columns fuel column_count (parser_advance p) in
    let add : Parse (List Expr) = (do
      below_limit column_count (codes "at most 8 columns")
      e ← parse_primary_expression
      es ← select_columns fuel (column_count + 1)
      pure (e ∷ es)) in
    if sees p token_eof || sees p token_from
    then parsed [] p
    else if sees p token_comma
    then next
    else if not (sees p token_identifier)
    then fail (codes "a column name or ','") p
    else add p

unfoldable pub select_list : Parse (Bool × List Expr)
unfolding select_columns
select_list p =
    if sees p token_star
    then parsed (true, []) (parser_advance p)
    else (select_columns (loop_fuel p) 0 >>= λ columns. pure (false, columns)) p

-- The WHERE clause of SELECT and DELETE.
unfoldable pub optional_where : Parse (Option Expr)
optional_where p =
    if sees p token_where
    then (parse_expression >>= λ e. pure (some e)) (parser_advance p)
    else parsed none p

unfoldable pub parse_select_statement : Parse Statement
unfolding require select_list optional_where
parse_select_statement = do
  require token_select (codes "SELECT")
  advance
  list ← select_list
  require token_from (codes "FROM")
  advance
  require token_identifier (codes "a table name")
  table ← current_text
  advance
  condition ← optional_where
  pure (select table list.0 list.1 condition)

-- The loop over `column = value`, which counts the columns and the values together.
unfoldable pub update_list : ℕ → ℕ → Parse (List Expr × List Expr)
update_list zero count p = parse_out_of_fuel
update_list (suc fuel) count p =
    let next = update_list fuel count (parser_advance p) in
    let add : Parse (List Expr × List Expr) = (do
      below_limit count (codes "at most 8 columns")
      column ← parse_primary_expression
      require token_equal (codes "=")
      advance
      below_limit count (codes "at most 8 columns")
      value ← parse_primary_expression
      rest ← update_list fuel (count + 1)
      pure (column ∷ rest.0, value ∷ rest.1)) in
    if sees p token_eof || sees p token_where
    then parsed ([], []) p
    else if sees p token_comma
    then next
    else if not (sees p token_identifier)
    then fail (codes "a column name or ','") p
    else add p

-- An error calls `ast_destroy` on the node, which reads its `where`; before `parse_expression` has
-- returned nothing has written it.
unfoldable pub destroying : {A : Type 0} → Parse A → Parse A
destroying m p = elim (m p) [
  | parsed a p' ↦ parsed a p'
  | failed e ↦ parse_undefined
  | parse_undefined ↦ parse_undefined
  | parse_out_of_fuel ↦ parse_out_of_fuel
]

unfoldable pub update_head : Parse (Bytes × List Expr × List Expr)
unfolding update_list
update_head = do
  require token_identifier (codes "a table name")
  table ← current_text
  advance
  require token_set (codes "SET keyword")
  advance
  lists ← λ p. update_list (loop_fuel p) 0 p
  require token_where (codes "WHERE keyword")
  pure (table, lists.0, lists.1)

unfoldable pub parse_update_statement : Parse Statement
unfolding destroying update_head
parse_update_statement = do
  require token_update (codes "UPDATE")
  advance
  head ← destroying update_head
  advance
  condition ← parse_expression
  pure (update_table head.0 head.1 head.2 (some condition))

unfoldable pub parse_delete_statement : Parse Statement
parse_delete_statement = do
  require token_delete (codes "DELETE")
  advance
  require token_from (codes "FROM")
  advance
  require token_identifier (codes "a table name")
  table ← current_text
  advance
  condition ← optional_where
  pure (delete_table table condition)
