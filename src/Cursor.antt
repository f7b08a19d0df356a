-- ===== src/Cursor.antt =====
-- The cursors of include/ast.h and the functions of src/table.c that pull rows from them. The
-- rows printed by `process_command` of src/command.c are the list that `run_rows` gives.
pub mod Yields
pub mod Filter
pub mod Named
pub mod Scan
pub mod Lookup
use database_in_c.Prelude.{
  ℕ, zero, suc, ◌+◌, Bool, true, false, List, [], ◌∷◌, Option, none, some, ◌==◌, leb, ltb,
  if◌then◌else◌, ℤ, eqb_ℤ, ◌&&◌,
}
use mathlib.Core.Option
use database_in_c.Chars.{Bytes}
use database_in_c.Ast.{Expr, as_column}
use database_in_c.Row.{Value, Row, deserialize_row}
use database_in_c.Page.{Page, TableEntry, NodeType, node_leaf, node_internal}
use database_in_c.Pager.{Pager, pager_get_page}
use database_in_c.Catalog.{catalog_node_find_table}
use database_in_c.Table.{Table, deref, catalog_of, table_types}
use database_in_c.Btree.Search.{leaf_node_find}
use database_in_c.Btree.Descent.{leaf_node_for_key}
use database_in_c.Where.{column_name_is, row_matches_where}
use database_in_c.Delete.{Outcome, done, undefined, out_of_fuel}

pub data Cursor : Type 0 where
  table_scan : (current_page_num current_cell_num row_size : ℕ) → (done : Bool) → Cursor
  pk_lookup : (root_page_num : ℕ) → (key : ℤ) → (row_size : ℕ) → (done : Bool) → Cursor
  filter : (child : Cursor) → (condition : Expr) → Cursor
  projection : (child : Cursor) → (columns : List Expr) → Cursor

-- What one call of a cursor function leaves: the pager, the cursor, and the row if it returned
-- true.
abbrev pub Pull : Type 0
Pull = Outcome (Pager × Cursor × Option Row)

-- The entry of the table in the catalog.
abbrev pub entry_of : Pager → Table → TableEntry
entry_of pager table =
    let catalog = catalog_of pager in
    catalog.tables (catalog_node_find_table catalog table.table_name)

-- The descent of `table_scan_next` over the first children, with the cell number, which a step
-- resets. `none` is a child that does not load.
unfoldable pub scan_descent : ℕ → Pager → ℕ → ℕ → Outcome (Pager × Option (ℕ × ℕ))
scan_descent zero pager page_num cell_num = out_of_fuel
scan_descent (suc fuel) pager page_num cell_num =
    let page = deref pager page_num in
    elim page.node_type [
      | node_leaf ↦ done (pager, some (page_num, cell_num))
      | node_internal ↦
          let child = (page.internal_cells 0).child in
          elim (pager_get_page pager child) [
            | none ↦ done (pager, none)
            | some (pager', _) ↦ scan_descent fuel pager' child 0
          ]
    ]

-- The end of `table_scan_next`: the row at the place, and the cursor behind it.
unfoldable pub scan_row : Table → ℕ → Pager → ℕ → ℕ → Pull
unfolding deserialize_row
scan_row table row_size pager page_num cell_num =
    let row =
      deserialize_row (table_types pager table)
        ((deref pager page_num).leaf_cells cell_num).value in
    done (pager, table_scan page_num (cell_num + 1) row_size false, some row)

-- The part of `table_scan_next` behind the descent, with the cursor as it is and as it ends.
unfoldable pub scan_leaf : Table → ℕ → Cursor → Cursor → Pager → ℕ → ℕ → Pull
unfolding scan_row
scan_leaf table row_size cursor finished pager leaf_num cell_num =
    let page = deref pager leaf_num in
    elim (ltb cell_num page.num_cells) [
      | true ↦ scan_row table row_size pager leaf_num cell_num
      | false ↦ elim (page.link == 0) [
        | true ↦ done (pager, finished, none)
        | false ↦ elim (pager_get_page pager page.link) [
          | none ↦ done (pager, cursor, none)
          | some (pager', _) ↦ scan_row table row_size pager' page.link 0
        ]
      ]
    ]

unfoldable pub table_scan_next : ℕ → Table → Pager → ℕ → ℕ → ℕ → Bool → Pull
unfolding scan_descent scan_leaf
table_scan_next fuel table pager page_num cell_num row_size true =
    done (pager, table_scan page_num cell_num row_size true, none)
table_scan_next fuel table pager page_num cell_num row_size false =
    let cursor = table_scan page_num cell_num row_size false in
    let finished = table_scan page_num cell_num row_size true in
    elim (pager_get_page pager page_num) [
      | none ↦ done (pager, cursor, none)
      | some (pager₁, _) ↦ elim (scan_descent fuel pager₁ page_num cell_num) [
        | done (pager₂, some (leaf_num, first)) ↦
            scan_leaf table row_size cursor finished pager₂ leaf_num first
        | done (pager₂, none) ↦ done (pager₂, cursor, none)
        | undefined ↦ undefined
        | out_of_fuel ↦ out_of_fuel
      ]
    ]

-- The part of `pk_lookup_next` behind the descent.
unfoldable pub lookup_leaf : Table → Cursor → Pager → ℕ → ℤ → Pull
unfolding leaf_node_find deserialize_row
lookup_leaf table finished pager leaf_num key =
    let page = deref pager leaf_num in
    let cell_num = leaf_node_find page key in
    let cell = page.leaf_cells cell_num in
    if ltb cell_num page.num_cells && eqb_ℤ cell.key key
    then done (pager, finished, some (deserialize_row (table_types pager table) cell.value))
    else done (pager, finished, none)

-- A null pointer from the descent is searched without a test, which is undefined.
unfoldable pub pk_lookup_next : ℕ → Table → Pager → ℕ → ℤ → ℕ → Bool → Pull
unfolding leaf_node_for_key lookup_leaf
pk_lookup_next fuel table pager root_page_num key row_size true =
    done (pager, pk_lookup root_page_num key row_size true, none)
pk_lookup_next fuel table pager root_page_num key row_size false =
    let finished = pk_lookup root_page_num key row_size true in
    elim (pager_get_page pager root_page_num) [
      | none ↦ done (pager, pk_lookup root_page_num key row_size false, none)
      | some (pager₁, _) ↦ elim (leaf_node_for_key fuel pager₁ root_page_num key) [
        | none ↦ out_of_fuel
        | some (_, none) ↦ undefined
        | some (pager₂, some leaf_num) ↦ lookup_leaf table finished pager₂ leaf_num key
      ]
    ]

-- The loop of `filter_next` over the child, whose step is given.
unfoldable pub filter_next : ℕ → (Pager → Cursor → Pull) → Table → Pager → Cursor → Expr → Pull
filter_next zero step table pager child condition = out_of_fuel
filter_next (suc fuel) step table pager child condition = elim (step pager child) [
  | done (pager', child', none) ↦ done (pager', filter child' condition, none)
  | done (pager', child', some row) ↦
      elim (row_matches_where (some condition) row (entry_of pager table)) [
        | none ↦ undefined
        | some true ↦ done (pager', filter child' condition, some row)
        | some false ↦ filter_next fuel step table pager' child' condition
      ]
  | undefined ↦ undefined
  | out_of_fuel ↦ out_of_fuel
]

-- The inner loop of `projection_next`: the value of the first column with the name. Where there is
-- none the slot of the row stays as it was, which is not initialised.
unfoldable pub project_column : TableEntry → Bytes → ℕ → Row → Option Value
project_column entry name j [] = none
project_column entry name j (v ∷ row) =
    let rest = project_column entry name (j + 1) row in
    if column_name_is name (entry.columns j).name then some v else rest

unfoldable pub project_columns : TableEntry → Row → List Expr → Option Row
unfolding project_column
project_columns entry row [] = some []
project_columns entry row (e ∷ columns) =
    let rest = project_columns entry row columns in
    elim (as_column e) [
      | none ↦ none
      | some name ↦ elim (project_column entry name 0 row) [
        | none ↦ none
        | some v ↦ Option.map (λ values. v ∷ values) rest
      ]
    ]

unfoldable pub projection_next : (Pager → Cursor → Pull) → Table → Pager → Cursor → List Expr → Pull
unfolding project_columns
projection_next step table pager child columns = elim (step pager child) [
  | done (pager', child', none) ↦ done (pager', projection child' columns, none)
  | done (pager', child', some row) ↦ elim (project_columns (entry_of pager' table) row columns) [
    | none ↦ undefined
    | some values ↦ done (pager', projection child' columns, some values)
  ]
  | undefined ↦ undefined
  | out_of_fuel ↦ out_of_fuel
]

-- `depth` is one more than the depth of the cursor; every loop has the same fuel.
unfoldable pub cursor_next : ℕ → ℕ → Table → Pager → Cursor → Pull
cursor_next fuel zero table pager cursor = out_of_fuel
cursor_next fuel (suc depth) table pager (table_scan page_num cell_num row_size finished) =
    table_scan_next fuel table pager page_num cell_num row_size finished
cursor_next fuel (suc depth) table pager (pk_lookup root_page_num key row_size finished) =
    pk_lookup_next fuel table pager root_page_num key row_size finished
cursor_next fuel (suc depth) table pager (filter child condition) =
    filter_next fuel (cursor_next fuel depth table) table pager child condition
cursor_next fuel (suc depth) table pager (projection child columns) =
    projection_next (cursor_next fuel depth table) table pager child columns

-- The loop of `process_command` over the rows, in the order in which it prints them.
unfoldable pub run_rows : ℕ → (Pager → Cursor → Pull) → Pager → Cursor → Outcome (Pager × List Row)
run_rows zero step pager cursor = out_of_fuel
run_rows (suc fuel) step pager cursor = elim (step pager cursor) [
  | done (pager', cursor', none) ↦ done (pager', [])
  | done (pager', cursor', some row) ↦ elim (run_rows fuel step pager' cursor') [
    | done (pager'', rows) ↦ done (pager'', row ∷ rows)
    | undefined ↦ undefined
    | out_of_fuel ↦ out_of_fuel
  ]
  | undefined ↦ undefined
  | out_of_fuel ↦ out_of_fuel
]
