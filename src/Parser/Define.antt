-- ===== src/Parser/Define.antt =====
-- `parse_insert_statement` and `parse_create_statement` of src/parser.c.
use database_in_c.Prelude.{
  ℕ, zero, suc, ◌+◌, Bool, true, false, not, ◌&&◌, ◌||◌, List, [], ◌∷◌, ltb, ◌==◌, if◌then◌else◌,
}
use database_in_c.Chars.{codes}
use database_in_c.Lexer.{
  token_eof, token_comma, token_identifier, token_insert, token_into, token_value, token_lparen,
  token_rparen, token_create, token_table, token_primary, token_key, token_type_text,
  token_type_integer, token_type_boolean,
}
use database_in_c.Ast.{
  Expr, Statement, insert, create_table, ColumnDefinition, ColumnType, column_integer, column_text,
  column_boolean,
}
use database_in_c.Parser.{
  Parse, parsed, parse_out_of_fuel, ◌>>=◌, ◌>>◌, pure, parser_advance, sees, fail, require, advance,
  current_text, parse_primary_expression, parse_column_type, below_limit, loop_fuel,
}

-- The loop over the values.
unfoldable pub insert_values : ℕ → ℕ → Parse (List Expr)
insert_values zero i p = parse_out_of_fuel
insert_values (suc fuel) i p =
    let next = insert_values fuel i (parser_advance p) in
    let add : Parse (List Expr) = (do
      below_limit i (codes "at most 8 values")
      value ← parse_primary_expression
      values ← insert_values fuel (i + 1)
      pure (value ∷ values)) in
    if sees p token_eof || sees p token_rparen
    then parsed [] p
    else if sees p token_comma
    then next
    else add p

unfoldable pub parse_insert_statement : Parse Statement
unfolding require insert_values
parse_insert_statement = do
  require token_insert (codes "INSERT")
  advance
  require token_into (codes "INTO")
  advance
  require token_identifier (codes "a table name")
  table ← current_text
  advance
  require token_value (codes "VALUES")
  advance
  require token_lparen (codes "'('")
  advance
  values ← λ p. insert_values (loop_fuel p) 0 p
  require token_rparen (codes "')'")
  advance
  pure (insert table values)

-- The comma in front of every column but the first.
unfoldable pub column_separator : ℕ → Parse (Unit {0})
column_separator column_count p =
    if ltb 0 column_count
    then (require token_comma (codes "',' or ')'") >> advance) p
    else parsed tt p

unfoldable pub definition_type : Parse ColumnType
unfolding parse_column_type
definition_type p =
    if not (sees p token_type_text)
      && not (sees p token_type_integer)
      && not (sees p token_type_boolean)
    then fail (codes "TEXT, INTEGER, or BOOLEAN") p
    else parsed (parse_column_type p) (parser_advance p)

unfoldable pub definition_key : Parse Bool
definition_key p =
    if sees p token_primary
    then (do require token_key (codes "KEY"); advance; pure true) (parser_advance p)
    else parsed false p

-- One round of the loop over the columns.
unfoldable pub column_definition : ℕ → Parse ColumnDefinition
unfolding column_separator definition_type definition_key
column_definition column_count = do
  column_separator column_count
  below_limit column_count (codes "at most 8 columns")
  require token_identifier (codes "a column name")
  name ← current_text
  advance
  type ← definition_type
  is_primary ← definition_key
  pure (record { name = name; column_type = type; is_primary = is_primary })

unfoldable pub create_columns : ℕ → ℕ → Parse (List ColumnDefinition)
unfolding column_definition
create_columns zero column_count p = parse_out_of_fuel
create_columns (suc fuel) column_count p =
    let add : Parse (List ColumnDefinition) = (do
      column ← column_definition column_count
      columns ← create_columns fuel (column_count + 1)
      pure (column ∷ columns)) in
    if sees p token_eof || sees p token_rparen then parsed [] p else add p

abbrev pub is_integer : ColumnType → Bool
is_integer column_integer = true
is_integer column_text = false
is_integer column_boolean = false

-- The loop that counts the primary keys and keeps whether the last one is an integer.
unfoldable pub count_primary : List ColumnDefinition → ℕ → Bool → ℕ × Bool
count_primary [] count integer = (count, integer)
count_primary (c ∷ columns) count integer =
    count_primary columns (if c.is_primary then count + 1 else count)
      (if c.is_primary then is_integer c.column_type else integer)

-- The tests behind the closing parenthesis.
unfoldable pub check_primary : List ColumnDefinition → Parse (Unit {0})
unfolding count_primary
check_primary columns p =
    let (count, integer) = count_primary columns 0 true in
    if not (count == 1)
    then fail (codes "exactly one PRIMARY KEY column") p
    else if not integer
    then fail (codes "an INTEGER type for the PRIMARY KEY column") p
    else parsed tt p

unfoldable pub parse_create_statement : Parse Statement
unfolding create_columns check_primary
parse_create_statement = do
  require token_create (codes "CREATE")
  advance
  require token_table (codes "TABLE")
  advance
  require token_identifier (codes "a table name")
  table ← current_text
  advance
  require token_lparen (codes "'('")
  advance
  columns ← λ p. create_columns (loop_fuel p) 0 p
  require token_rparen (codes "')'")
  advance
  check_primary columns
  pure (create_table table columns)
