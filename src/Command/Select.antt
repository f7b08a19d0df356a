-- ===== src/Command/Select.antt =====
-- The text of a SELECT, through `process_command` of src/command.c.
use database_in_c.Prelude.{
  ℕ, ◌<◌, ◌≡◌, refl, ◌∙◌, Bool, true, false, List, ◌∷◌, ◌++◌, Option, some, All, length, map, ◌==◌,
}
use database_in_c.Chars.{Bytes}
use database_in_c.Row.{Row, deserialize_row}
use database_in_c.Ast.{Expr, column, equals, select}
use database_in_c.Page.{LeafCell}
use database_in_c.Pager.{Pager}
use database_in_c.Catalog.{catalog_node_find_table, is_primary_key, uint32_max}
use database_in_c.Table.{Table, command_success, deref, catalog_of, table_types}
use database_in_c.Btree.Leaf.Insert.{cells_of}
use database_in_c.Where.{row_matches_where}
use database_in_c.Delete.{done}
use database_in_c.Cursor.{project_columns, entry_of}
use database_in_c.Cursor.Filter.{keep_rows}
use database_in_c.Cursor.Scan.{IsCached, IsLeftmost, IsChain, pager_get_page-cached}
use database_in_c.Plan.{validate_columns, select_rows}
use database_in_c.Plan.Select.{select_rows-filter}
use database_in_c.Parser.Print.{HasText, print}
use database_in_c.Command.{
  found_table, rows, execute, on_catalog, find_and_run, run_on_table, process_command,
}
use database_in_c.Command.Text.{process_command-print}

execute-select :
    (fuel : ℕ) (name : Bytes) (is_star : Bool) (columns : List Expr) (condition : Option Expr)
    (pager pager' : Pager) (found : List Row)
    → IsCached pager 0
    → (catalog_node_find_table (catalog_of pager) name == uint32_max) ≡ false
    → select_rows fuel pager
        (found_table (catalog_of pager) name)
        (select name is_star columns condition)
      ≡ done (pager', some found)
    → execute fuel (select name is_star columns condition) pager
      ≡ done (pager', rows found, command_success)
unfolding execute on_catalog find_and_run run_on_table
execute-select fuel name is_star columns condition pager pager' found cached known e =
    rw (execute, pager_get_page-cached pager 0 cached, execute, known, run_on_table, e) refl

module _ (fuel : ℕ) (pager : Pager) (table_name : Bytes) where
  abbrev table : Table
  table = found_table (catalog_of pager) table_name

  -- On the text of a SELECT of columns from a table of the catalog, with a condition that a column,
  -- not the primary key, equals a value, `process_command` prints the projections of the rows on
  -- which the condition holds, in the order of the leaves, and no others, and leaves the pager as it
  -- is. The statement has a text; page 0 and the tree are cached, and no leaf behind the first is
  -- empty; the columns are valid, the condition and the projection are defined on the rows, and the
  -- fuel exceeds their number and the levels of the tree.
  pub process_command-select :
      (leaf levels : ℕ) (behind : List LeafCell) (name : Bytes) (is_star : Bool) (value e : Expr)
      (columns : List Expr) (f : Row → Bool) (g : Row → Row)
      → IsCached pager 0
      → (catalog_node_find_table (catalog_of pager) table_name == uint32_max) ≡ false
      → IsCached pager table.root_page_num
      → IsLeftmost pager leaf table.root_page_num levels
      → IsChain pager leaf behind
      → let found =
          map
            (λ cell. deserialize_row (table_types pager table) cell.value)
            (cells_of (deref pager leaf) ++ behind) in
        let condition = equals (column name) value in
        HasText (select table_name is_star (e ∷ columns) (some condition))
        → levels < fuel
        → length found < fuel
        → is_primary_key
            (catalog_of pager)
            (catalog_node_find_table (catalog_of pager) table_name)
            name
          ≡ false
        → validate_columns (entry_of pager table) (e ∷ columns) (some condition) ≡ some true
        → All
            (λ row. row_matches_where (some condition) row (entry_of pager table) ≡ some (f row))
            found
        → All
            (λ row. project_columns (entry_of pager table) row (e ∷ columns) ≡ some (g row))
            (keep_rows f found)
        → process_command fuel
            (print (select table_name is_star (e ∷ columns) (some condition)))
            pager
          ≡ done (pager, rows (map g (keep_rows f found)), command_success)
  process_command-select leaf levels behind name is_star value e columns f g catalog known cached
        down chain text deep long other valid decided projected =
      let statement = select table_name is_star (e ∷ columns) (some (equals (column name) value)) in
      process_command-print fuel statement pager text
      ∙ execute-select fuel table_name is_star (e ∷ columns) _ pager pager _ catalog known (
          select_rows-filter fuel table pager leaf levels behind table_name name is_star value e
            columns f g cached down chain deep long other valid decided projected)
