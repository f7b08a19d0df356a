-- ===== src/Update.antt =====
-- `update_command` of src/table.c.
pub mod Cells
use database_in_c.Prelude.{
  ℕ, zero, suc, ◌+◌, Bool, true, false, List, [], ◌∷◌, Option, none, some, ◌==◌, ltb, if◌then◌else◌,
  length, get_elem?, not, update,
}
use database_in_c.Chars.{Bytes}
use database_in_c.Ast.{
  ColumnType, Expr, as_column, as_literal_int, as_literal_string, as_literal_boolean,
}
use database_in_c.Row.{
  Value, Row, integer, text, boolean, value_text_max_len, overlay, serialize_row, deserialize_row,
}
use database_in_c.Page.{Page, LeafCell, TableEntry, Catalog}
use database_in_c.Pager.{Pager, pager_get_page, set_page, pager_mark_dirty}
use database_in_c.Catalog.{uint32_max, catalog_node_find_table, catalog_node_find_column}
use database_in_c.Table.{
  CommandResult, command_success, failure, Table, deref, catalog_of, table_types,
}
use database_in_c.Where.{row_matches_where}
use database_in_c.Delete.{Outcome, done, undefined, out_of_fuel, leftmost_leaf, and_then}
use database_in_c.Insert.{value_matches_type}

-- The first loop: the index of each column in the catalog, beside its value. The inner `none` is a
-- column that is not found or a value of another type, the outer one a read of the wrong member.
unfoldable pub resolve_columns :
    Catalog → ℕ → List Expr → List Expr → Option (Option (List (ℕ × Expr)))
resolve_columns catalog table_num (e ∷ columns) (value ∷ values) =
    let rest = resolve_columns catalog table_num columns values in
    elim (as_column e) [
      | none ↦ none
      | some name ↦
          let idx = catalog_node_find_column catalog table_num name in
          let type = ((catalog.tables table_num).columns idx).type in
          if idx == uint32_max
          then some none
          else (if not (value_matches_type type value) then some none else elim rest [
            | none ↦ none
            | some none ↦ some none
            | some (some entries) ↦ some (some ((idx, value) ∷ entries))
          ])
    ]
resolve_columns catalog table_num columns values = some (some [])

-- The switch on the type of the row's value. The inner `none` is a text that is too long. The
-- characters of a text are copied over the old ones.
unfoldable pub update_value : Value → Expr → Option (Option Value)
update_value (integer n) e = elim (as_literal_int e) [
  | none ↦ none
  | some m ↦ some (some (integer m))
]
update_value (text t n) e = elim (as_literal_string e) [
  | none ↦ none
  | some s ↦
      if ltb value_text_max_len (length s)
      then some none
      else some (some (text (overlay s t) (length s)))
]
update_value (boolean b) e = elim (as_literal_boolean e) [
  | none ↦ none
  | some c ↦ some (some (boolean c))
]

unfoldable pub set_value : Row → ℕ → Value → Row
set_value [] i v = []
set_value (u ∷ row) zero v = v ∷ row
set_value (u ∷ row) (suc i) v = u ∷ set_value row i v

-- The loop over the columns to be set.
unfoldable pub assign_row : List (ℕ × Expr) → Row → Option (Option Row)
unfolding update_value set_value
assign_row [] row = some (some row)
assign_row ((idx, e) ∷ entries) row = elim (get_elem? row idx) [
  | none ↦ none
  | some v ↦ elim (update_value v e) [
    | none ↦ none
    | some none ↦ some none
    | some (some u) ↦ assign_row entries (set_value row idx u)
  ]
]

-- What one round of the loop does to its cell.
pub data CellStep : Type 0 where
  keep_cell too_long undefined_cell : CellStep
  write_cell : Bytes → CellStep

unfoldable pub cell_step :
    List ColumnType → TableEntry → Option Expr → List (ℕ × Expr) → LeafCell → CellStep
unfolding assign_row
cell_step types entry condition entries cell =
    let row = deserialize_row types cell.value in
    elim (row_matches_where condition row entry) [
      | none ↦ undefined_cell
      | some false ↦ keep_cell
      | some true ↦ elim (assign_row entries row) [
        | none ↦ undefined_cell
        | some none ↦ too_long
        | some (some row') ↦ write_cell (serialize_row row' cell.value)
      ]
    ]

-- The loop over the cells of a leaf, with `rounds` cells left: the cells, whether the page is
-- dirty, and whether the loop ran to its end.
unfoldable pub update_cells :
    (LeafCell → CellStep) → ℕ → ℕ → (ℕ → LeafCell) → Bool → Option ((ℕ → LeafCell) × Bool × Bool)
update_cells step zero i cells dirty = some (cells, dirty, true)
update_cells step (suc rounds) i cells dirty = elim (step (cells i)) [
  | undefined_cell ↦ none
  | too_long ↦ some (cells, dirty, false)
  | keep_cell ↦ update_cells step rounds (i + 1) cells dirty
  | write_cell value ↦
      update_cells step rounds (i + 1)
        (update cells i (record { key = (cells i).key; value = value })) true
]

-- The walk along the chain of leaves. A text that is too long ends it with the rows behind and
-- before in the cache, and the page not marked.
unfoldable pub update_loop : ℕ → (LeafCell → CellStep) → Pager → ℕ → Outcome (Pager × CommandResult)
unfolding update_cells
update_loop zero step pager page_num = out_of_fuel
update_loop (suc fuel) step pager page_num =
    let page = deref pager page_num in
    elim (update_cells step page.num_cells 0 page.leaf_cells false) [
      | none ↦ undefined
      | some (cells, dirty, false) ↦
          done (set_page pager page_num (record page { leaf_cells = cells }), failure)
      | some (cells, dirty, true) ↦
          let pager₁ = set_page pager page_num (record page { leaf_cells = cells }) in
          let pager₂ = if dirty then pager_mark_dirty pager₁ page_num else pager₁ in
          if page.link == 0
          then done (pager₂, command_success)
          else elim (pager_get_page pager₂ page.link) [
            | none ↦ done (pager₂, command_success)
            | some (pager₃, _) ↦ update_loop fuel step pager₃ page.link
          ]
    ]

unfoldable pub update_command :
    ℕ
    → Table
    → Bytes
    → List Expr
    → List Expr
    → Option Expr
    → Pager
    → Outcome (Pager × CommandResult)
unfolding resolve_columns cell_step update_loop
update_command fuel table name columns values condition pager =
    let catalog = catalog_of pager in
    let table_num = catalog_node_find_table catalog name in
    let entry = catalog.tables table_num in
    if not (length columns == length values)
    then done (pager, failure)
    else elim (resolve_columns catalog table_num columns values) [
      | none ↦ undefined
      | some none ↦ done (pager, failure)
      | some (some entries) ↦
          let step = cell_step (table_types pager table) entry condition entries in
          elim (pager_get_page pager table.root_page_num) [
            | none ↦ done (pager, failure)
            | some (pager₁, _) ↦
                and_then (leftmost_leaf fuel pager₁ table.root_page_num)
                  λ (pager₂, first). update_loop fuel step pager₂ first
          ]
    ]
