-- ===== src/Plan.antt =====
-- `build_plan` and `build_cursor` of src/ast.c, `validate_columns` of src/btree.c, and the part of
-- `process_command` of src/command.c that answers a SELECT.
pub mod Select
pub mod Print
use database_in_c.Prelude.{
  ℕ, zero, suc, ◌+◌, Bool, true, false, ◌&&◌, List, [], ◌∷◌, Option, none, some, if◌then◌else◌, ℤ,
  ltb, length, not, ◌==◌, ◌||◌,
}
use mathlib.Core.Option
use database_in_c.Chars.{Bytes}
use database_in_c.Ast.{
  Expr, as_equals, as_column, as_literal_int, Statement, insert, select, create_table, update_table,
  delete_table,
}
use database_in_c.Row.{Row}
use database_in_c.Page.{TableEntry}
use database_in_c.Pager.{Pager}
use database_in_c.Catalog.{
  uint32_max, first_index, catalog_node_find_table, catalog_node_row_size, is_primary_key,
}
use database_in_c.Table.{Table, catalog_of}
use database_in_c.Where.{column_name_is}
use database_in_c.Delete.{Outcome, done, undefined, out_of_fuel}
use database_in_c.Cursor.{
  Cursor, table_scan, pk_lookup, filter, projection, entry_of, cursor_next, run_rows,
}

pub data PlanNode : Type 0 where
  plan_table_scan : (root_page_num row_size : ℕ) → PlanNode
  plan_pk_lookup : (root_page_num : ℕ) → (key : ℤ) → (row_size : ℕ) → PlanNode
  plan_filter : (child : PlanNode) → (condition : Expr) → PlanNode
  plan_projection : (child : PlanNode) → (columns : List Expr) → PlanNode
  plan_insert : (root_page_num : ℕ) → (values : List Expr) → PlanNode

-- The plan below a projection, which is also the plan without one.
unfoldable pub where_plan : Pager → Table → Option Expr → Option PlanNode
where_plan pager table condition =
    let catalog = catalog_of pager in
    let table_num = catalog_node_find_table catalog table.table_name in
    let row_size = catalog_node_row_size catalog table_num in
    let scan = plan_table_scan table.root_page_num row_size in
    elim condition [
      | none ↦ some scan
      | some e ↦ elim (as_equals e) [
        | none ↦ none
        | some (left, right) ↦ elim (as_column left) [
          | none ↦ none
          | some name ↦ elim (is_primary_key catalog table_num name) [
            | true ↦
                Option.map (λ key. plan_pk_lookup table.root_page_num key row_size)
                  (as_literal_int right)
            | false ↦ some (plan_filter scan e)
          ]
        ]
      ]
    ]

-- `none` is undefined behaviour: a condition that is no equation of a column, a lookup of the
-- primary key by a literal that is no integer, or a statement for which no plan is made.
unfoldable pub build_plan : Pager → Table → Statement → Option PlanNode
unfolding where_plan
build_plan pager table (insert name values) = some (plan_insert table.root_page_num values)
build_plan pager table (select name is_star [] condition) = where_plan pager table condition
build_plan pager table (select name is_star (e ∷ columns) condition) =
    Option.map (λ child. plan_projection child (e ∷ columns)) (where_plan pager table condition)
build_plan pager table (create_table name columns) = none
build_plan pager table (update_table name columns values condition) = none
build_plan pager table (delete_table name condition) = none

-- For an insertion no cursor is made.
unfoldable pub build_cursor : PlanNode → Option Cursor
build_cursor (plan_table_scan root row_size) = some (table_scan root 0 row_size false)
build_cursor (plan_pk_lookup root key row_size) = some (pk_lookup root key row_size false)
build_cursor (plan_filter child condition) =
    Option.map (λ cursor. filter cursor condition) (build_cursor child)
build_cursor (plan_projection child columns) =
    Option.map (λ cursor. projection cursor columns) (build_cursor child)
build_cursor (plan_insert root values) = none

-- The loop over the columns of the table: whether one has the name.
unfoldable pub has_column : TableEntry → Bytes → ℕ → ℕ → Bool
has_column entry name j zero = false
has_column entry name j (suc n) =
    column_name_is name (entry.columns j).name || has_column entry name (j + 1) n

unfoldable pub validate_selected : TableEntry → List Expr → Option Bool
unfolding has_column
validate_selected entry [] = some true
validate_selected entry (e ∷ columns) =
    let rest = validate_selected entry columns in
    elim (as_column e) [
      | none ↦ none
      | some name ↦ if has_column entry name 0 entry.column_count then rest else some false
    ]

-- `validate_columns` on the fields of a SELECT. `none` reads a member of the wrong union.
unfoldable pub validate_columns : TableEntry → List Expr → Option Expr → Option Bool
unfolding validate_selected
validate_columns entry columns none = validate_selected entry columns
validate_columns entry columns (some e) = elim (as_equals e) [
  | none ↦ none
  | some (left, right) ↦ elim (as_column left) [
    | none ↦ none
    | some name ↦
        if has_column entry name 0 entry.column_count
        then validate_selected entry columns
        else some false
  ]
]

-- The guard on the call: a SELECT of all columns without a condition is not validated.
abbrev pub select_is_valid : TableEntry → List Expr → Option Expr → Option Bool
select_is_valid entry [] none = some true
select_is_valid entry columns condition = validate_columns entry columns condition

abbrev pub cursor_depth : ℕ
cursor_depth = 3

-- From `build_plan` to the last row: the rows, or none if a column does not exist.
unfoldable pub select_rows : ℕ → Pager → Table → Statement → Outcome (Pager × Option (List Row))
select_rows fuel pager table (select name is_star columns condition) =
    let statement = select name is_star columns condition in
    elim (build_plan pager table statement) [
      | none ↦ undefined
      | some plan ↦ elim (select_is_valid (entry_of pager table) columns condition) [
        | none ↦ undefined
        | some false ↦ done (pager, none)
        | some true ↦ elim (build_cursor plan) [
          | none ↦ undefined
          | some cursor ↦ elim (run_rows fuel (cursor_next fuel cursor_depth table) pager cursor) [
            | done (pager', rows) ↦ done (pager', some rows)
            | undefined ↦ undefined
            | out_of_fuel ↦ out_of_fuel
          ]
        ]
      ]
    ]
select_rows fuel pager table statement = undefined
