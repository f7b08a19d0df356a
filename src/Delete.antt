-- ===== src/Delete.antt =====
-- `delete_command` of src/table.c: the walk over the leaves from the leftmost one, and in each
-- leaf the loop that closes the gap of a matching row.
pub mod Cells
pub mod Stale
use database_in_c.Prelude.{
  ℕ, zero, suc, ◌+◌, ◌-◌, Bool, true, false, ◌||◌, List, Option, none, some, ◌==◌, if◌then◌else◌,
  memmove,
}
use mathlib.Core.Option
use database_in_c.Chars.{Bytes}
use database_in_c.Ast.{ColumnType, Expr}
use database_in_c.Row.{Row, deserialize_row}
use database_in_c.Page.{Page, LeafCell, TableEntry, NodeType, node_leaf, node_internal}
use database_in_c.Pager.{Pager, pager_get_page, set_page, pager_mark_dirty}
use database_in_c.Table.{
  CommandResult, command_success, failure, Table, deref, catalog_of, table_types,
}
use database_in_c.Catalog.{catalog_node_find_table}
use database_in_c.Where.{row_matches_where}

-- What is left of a command: a result with the pager, undefined behaviour, or fuel that ran out.
pub data Outcome {ℓ} (A : Type ℓ) : Type ℓ where
  done : A → Outcome A
  undefined out_of_fuel : Outcome A

-- The test of a command on a stored row, by the table's column types and the where clause.
abbrev pub RowTest : Type 0
RowTest = LeafCell → Option Bool

abbrev pub where_test : List ColumnType → TableEntry → Option Expr → RowTest
where_test types entry condition cell =
    row_matches_where condition (deserialize_row types cell.value) entry

-- The loop over the cells of a leaf, with `rounds` cells left to look at: the array, the number of
-- cells and whether the page is dirty. A cell that goes is overwritten by the ones behind it.
unfoldable pub delete_cells :
    RowTest → ℕ → ℕ → (ℕ → LeafCell) → ℕ → Bool → Option ((ℕ → LeafCell) × ℕ × Bool)
delete_cells test zero i cells num_cells dirty = some (cells, num_cells, dirty)
delete_cells test (suc rounds) i cells num_cells dirty =
    let keep = delete_cells test rounds (i + 1) cells num_cells dirty in
    let drop_cell =
      delete_cells test rounds i (memmove cells i (i + 1) (num_cells - i - 1)) (num_cells - 1)
        true in
    elim (test (cells i)) [ none ↦ none | some true ↦ drop_cell | some false ↦ keep ]

-- One leaf of the walk.
unfoldable pub delete_in_page : RowTest → Page → Option (Page × Bool)
delete_in_page test page =
    Option.map (λ r. (record page { leaf_cells = r.0; num_cells = r.1 }, r.2))
      (delete_cells test page.num_cells 0 page.leaf_cells page.num_cells false)

-- The descent to the leftmost leaf, over the first children. The code reads the type of the page
-- without a test for a null pointer.
unfoldable pub leftmost_leaf : ℕ → Pager → ℕ → Outcome (Pager × ℕ)
leftmost_leaf zero pager page_num = out_of_fuel
leftmost_leaf (suc fuel) pager page_num =
    let page = deref pager page_num in
    elim page.node_type [
      | node_leaf ↦ done (pager, page_num)
      | node_internal ↦
          let child = (page.internal_cells 0).child in
          elim (pager_get_page pager child) [
            | none ↦ undefined
            | some (pager', _) ↦ leftmost_leaf fuel pager' child
          ]
    ]

-- The walk along the chain of leaves.
unfoldable pub delete_loop : ℕ → RowTest → Pager → ℕ → Outcome Pager
delete_loop zero test pager page_num = out_of_fuel
delete_loop (suc fuel) test pager page_num = elim (delete_in_page test (deref pager page_num)) [
  | none ↦ undefined
  | some (page, dirty) ↦
      let pager₁ = set_page pager page_num page in
      let pager₂ = if dirty then pager_mark_dirty pager₁ page_num else pager₁ in
      if page.link == 0 then done pager₂ else elim (pager_get_page pager₂ page.link) [
        | none ↦ done pager₂
        | some (pager₃, _) ↦ delete_loop fuel test pager₃ page.link
      ]
]

abbrev pub and_then {ℓ κ} : {A : Type ℓ} {B : Type κ} → Outcome A → (A → Outcome B) → Outcome B
and_then (done a) f = f a
and_then undefined f = undefined
and_then out_of_fuel f = out_of_fuel

unfoldable pub delete_command :
    ℕ → Table → Bytes → Option Expr → Pager → Outcome (Pager × CommandResult)
delete_command fuel table name condition pager =
    let catalog = catalog_of pager in
    let entry = catalog.tables (catalog_node_find_table catalog name) in
    let test = where_test (table_types pager table) entry condition in
    elim (pager_get_page pager table.root_page_num) [
      | none ↦ done (pager, failure)
      | some (pager₁, _) ↦
          and_then (leftmost_leaf fuel pager₁ table.root_page_num) λ (pager₂, first).
            and_then (delete_loop fuel test pager₂ first) λ pager₃. done (pager₃, command_success)
    ]
