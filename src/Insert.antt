-- ===== src/Insert.antt =====
-- `insert_command` of src/table.c.
pub mod Values
pub mod LeafRoot
use database_in_c.Prelude.{
  ℕ, zero, suc, ◌-◌, Bool, true, false, ◌&&◌, List, [], ◌∷◌, ◌++◌, Option, none, some, ◌==◌, ltb,
  if◌then◌else◌, ℤ, pos, eqb_ℤ, length, replicate, get_elem?, not,
}
use mathlib.Core.Option
use database_in_c.Chars.{Bytes}
use database_in_c.Ast.{
  ColumnType, column_integer, column_text, column_boolean, Expr, literal_int, literal_string,
  literal_boolean, as_literal_int,
}
use database_in_c.Row.{Value, Row, integer, text, boolean, value_text_max_len}
use database_in_c.Page.{Page, TableEntry}
use database_in_c.Pager.{Pager, pager_get_page}
use database_in_c.Catalog.{catalog_node_find_table, catalog_node_row_size, column_types}
use database_in_c.Table.{
  CommandResult, command_success, id_duplicate_error, leaf_full_error, failure, Table, deref,
  catalog_of, table_types,
}
use database_in_c.Btree.Search.{leaf_node_find}
use database_in_c.Btree.Leaf.{leaf_node_insert}
use database_in_c.Btree.Split.{split_leaf_node}
use database_in_c.Btree.Descent.{leaf_node_for_key}
use database_in_c.Delete.{Outcome, done, undefined, out_of_fuel}

-- The test of a literal against a stored column type, which `update_command` makes as well.
unfoldable pub value_matches_type : ColumnType → Expr → Bool
value_matches_type column_integer (literal_int n) = true
value_matches_type column_text (literal_string s) = true
value_matches_type column_boolean (literal_boolean b) = true
value_matches_type type value = false

-- The loop of tests, on the columns of the table and the values, of which there are as many.
unfoldable pub values_match : List ColumnType → List Expr → Bool
unfolding value_matches_type
values_match (type ∷ types) (value ∷ values) =
    value_matches_type type value && values_match types values
values_match types values = true

-- The switch on one value: its slot of the row, zeroed before, or none for a text that is too long.
-- An expression that is no literal leaves the slot zero.
unfoldable pub row_value : Expr → Option Value
row_value (literal_int n) = some (integer n)
row_value (literal_string s) =
    if ltb value_text_max_len (length s)
    then none
    else some (text (s ++ replicate (value_text_max_len - length s) 0) (length s))
row_value (literal_boolean b) = some (boolean b)
row_value value = some (integer (pos 0))

unfoldable pub row_values : List Expr → Option Row
unfolding row_value
row_values [] = some []
row_values (value ∷ values) =
    let rest = row_values values in
    elim (row_value value) [ none ↦ none | some v ↦ Option.map (λ row. v ∷ row) rest ]

-- What `leaf_node_insert` returned, or the split of the leaf that it found full.
unfoldable pub split_if_full :
    ℕ → List ColumnType → ℕ → ℤ → Row → ℕ → Pager × CommandResult → Outcome (Pager × CommandResult)
split_if_full fuel types leaf_num key row row_size (pager, leaf_full_error) =
    elim (split_leaf_node fuel types pager leaf_num key row row_size) [
      | none ↦ out_of_fuel
      | some r ↦ done r
    ]
split_if_full fuel types leaf_num key row row_size (pager, result) = done (pager, result)

-- The part behind the descent: the leaf has page number `leaf_num`.
unfoldable pub insert_in_leaf :
    ℕ → List ColumnType → ℕ → List Expr → Pager → ℕ → ℤ → Outcome (Pager × CommandResult)
unfolding row_values
insert_in_leaf fuel types row_size values pager leaf_num key =
    let page = deref pager leaf_num in
    let cell_num = leaf_node_find page key in
    if ltb cell_num page.num_cells && eqb_ℤ (page.leaf_cells cell_num).key key
    then done (pager, id_duplicate_error)
    else elim (row_values values) [
      | none ↦ done (pager, failure)
      | some row ↦
          split_if_full fuel types leaf_num key row row_size
            (leaf_node_insert pager leaf_num cell_num key row row_size)
    ]

-- `undefined` reads a key that is no integer literal, or searches from a root that does not load.
unfoldable pub insert_command :
    ℕ → Table → Bytes → List Expr → Pager → Outcome (Pager × CommandResult)
unfolding values_match insert_in_leaf
insert_command fuel table name values pager =
    let catalog = catalog_of pager in
    let table_num = catalog_node_find_table catalog name in
    let entry = catalog.tables table_num in
    if not (entry.column_count == length values)
    then done (pager, failure)
    else (if not (values_match (column_types entry) values)
        then done (pager, failure)
        else elim (get_elem? values entry.primary_key_column) [
          | none ↦ undefined
          | some value ↦ elim (as_literal_int value) [
            | none ↦ undefined
            | some key ↦ elim (pager_get_page pager table.root_page_num) [
              | none ↦ undefined
              | some (pager₁, _) ↦ elim (leaf_node_for_key fuel pager₁ table.root_page_num key) [
                | none ↦ out_of_fuel
                | some (pager₂, none) ↦ done (pager₂, failure)
                | some (pager₂, some leaf_num) ↦
                    insert_in_leaf fuel (table_types pager₂ table)
                      (catalog_node_row_size catalog table_num) values pager₂ leaf_num key
              ]
            ]
          ]
        ])
