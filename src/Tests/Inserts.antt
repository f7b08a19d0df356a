-- ===== src/Tests/Inserts.antt =====
-- `insert_command` of src/table.c on the table of long rows.
use database_in_c.Prelude.{
  true, ℕ, ◌^◌, ◌<◌, ◌≤◌, ◌≡◌, refl, some, List, [], ◌∷◌, pos, arith, subst, get_elem?, sym, ap,
  map,
}
use database_in_c.Chars.{codes}
use database_in_c.Ast.{Expr, literal_int, literal_string}
use database_in_c.Row.{Row, serialize_row, row_size}
use database_in_c.Row.RoundTrip.{HasTypes}
use database_in_c.Page.{leaf_node_max_cells, node_leaf}
use database_in_c.Pager.{Pager}
use database_in_c.Catalog.{catalog_node_find_table, c_string}
use database_in_c.Table.{Table, deref, table_types, command_success, id_duplicate_error}
use database_in_c.Btree.Search.Bound.{leaf_key}
use database_in_c.Btree.Leaf.Insert.{IsLeaf, leaf_cell, cells_of, insert_cell}
use database_in_c.Btree.Split.Root.{IsRootOver}
use database_in_c.Delete.{done}
use database_in_c.Cursor.{entry_of}
use database_in_c.Cursor.Scan.{IsCached}
use database_in_c.Insert.{row_values, insert_command}
use database_in_c.Insert.Values.{AreLiterals, literal_of, row_values-HasTypes}
use database_in_c.Insert.LeafRoot.{
  insert_command-present, insert_command-insert_cell, insert_command-IsRootOver,
}
use database_in_c.Tests.Trees.{
  long_types, pager_with, max_cells_two, pager_with-IsLeaf, pager_with-IsAbsent, pager_with-IsFresh,
  full_num_cells, half_num_cells, full_is_root,
}

abbrev pub long_table : Table
long_table = record { root_page_num = 1; table_name = codes "T" }

abbrev pub long_values : ℕ → List Expr
long_values n =
    let blank = literal_string [] in
    literal_int (pos n) ∷ blank ∷ blank ∷ blank ∷ blank ∷ blank ∷ blank ∷ blank ∷ []

long_values-AreLiterals : (n : ℕ) → n < 2 ^ 63 → AreLiterals long_types (long_values n)
long_values-AreLiterals n h = (
  h,
  (
    (omega arith, tt),
    (
      (omega arith, tt),
      (
        (omega arith, tt),
        ((omega arith, tt), ((omega arith, tt), ((omega arith, tt), ((omega arith, tt), tt)))),
      ),
    ),
  ),
)

row_values-HasTypes_example :
    (row : Row) × (row_values (long_values 20) ≡ some row)
    × HasTypes long_types row
    × (map literal_of row ≡ long_values 20)
row_values-HasTypes_example =
    row_values-HasTypes long_types (long_values 20) (long_values-AreLiterals 20 (omega arith))

module _ (n : ℕ) where
  long_table-types : table_types (pager_with n) long_table ≡ long_types
  unfolding deref catalog_node_find_table c_string
  long_table-types = refl

  pub long_table-IsCached : IsCached (pager_with n) 1
  unfolding deref
  long_table-IsCached = (omega arith, refl)

  pub long_table-leaf : (deref (pager_with n) 1).node_type ≡ node_leaf
  unfolding deref
  long_table-leaf = refl

  pub long_table-literals :
      (k : ℕ) → k < 2 ^ 63 → AreLiterals (table_types (pager_with n) long_table) (long_values k)
  long_table-literals k h =
      subst (λ types. AreLiterals types (long_values k)) (sym long_table-types)
        (long_values-AreLiterals k h)

  pub long_table-key :
      (k : ℕ)
      → get_elem? (long_values k) (entry_of (pager_with n) long_table).primary_key_column
        ≡ some (literal_int (pos k))
  unfolding deref catalog_node_find_table c_string
  long_table-key k = refl

  pub long_table-IsLeaf :
      n ≤ 2 → IsLeaf (table_types (pager_with n) long_table) (deref (pager_with n) 1)
  long_table-IsLeaf small =
      subst (λ types. IsLeaf types (deref (pager_with n) 1)) (sym long_table-types)
        (pager_with-IsLeaf n small)

first-inside : 0 < (deref (pager_with 1) 1).num_cells
unfolding deref
first-inside = omega arith

first-key : leaf_key (deref (pager_with 1) 1) 0 ≡ pos 10
unfolding deref
first-key = refl

insert_command-present_example :
    insert_command 5 long_table (codes "T") (long_values 10) (pager_with 1)
    ≡ done (pager_with 1, id_duplicate_error)
insert_command-present_example =
    insert_command-present 5 long_table (long_values 10) (pos 10) (pager_with 1) (omega arith)
      (long_table-IsCached 1) (long_table-leaf 1) (long_table-literals 1 10 (omega arith))
      (long_table-key 1 10) 0 (long_table-IsLeaf 1 (omega arith)) first-inside first-key

module _ (n : ℕ) where
  pub long_table-max :
      leaf_node_max_cells (row_size (table_types (pager_with n) long_table))
      ≡ leaf_node_max_cells (row_size long_types)
  long_table-max = ap (λ types. leaf_node_max_cells (row_size types)) (long_table-types n)

insert_command-insert_cell_example :
    (row : Row) × (pager' : Pager) × (row_values (long_values 20) ≡ some row)
    × (insert_command 5 long_table (codes "T") (long_values 20) (pager_with 1)
        ≡ done (pager', command_success))
    × (cells_of (deref pager' 1)
        ≡ insert_cell
            (leaf_cell (pos 20) (serialize_row row []))
            (cells_of (deref (pager_with 1) 1)))
    × IsLeaf (table_types (pager_with 1) long_table) (deref pager' 1)
    × (pager'.page_dirty 1 ≡ true)
    × IsCached pager' 1
insert_command-insert_cell_example =
    insert_command-insert_cell 5 long_table (long_values 20) (pos 20) (pager_with 1) (omega arith)
      (long_table-IsCached 1) (long_table-leaf 1) (long_table-literals 1 20 (omega arith))
      (long_table-key 1 20) (long_table-IsLeaf 1 (omega arith))
      (pager_with-IsAbsent 1 (omega arith)) (omega (arith, half_num_cells, long_table-max 1))

insert_command-IsRootOver_example :
    (row : Row) × (pager' : Pager) × (row_values (long_values 20) ≡ some row)
    × (insert_command 5 long_table (codes "T") (long_values 20) (pager_with 2)
        ≡ done (pager', command_success))
    × IsRootOver
        (table_types (pager_with 2) long_table)
        (insert_cell
          (leaf_cell (pos 20) (serialize_row row []))
          (cells_of (deref (pager_with 2) 1)))
        pager'
        1
        3
        2
insert_command-IsRootOver_example =
    insert_command-IsRootOver 5 long_table (long_values 20) (pos 20) (pager_with 2) (omega arith)
      (long_table-IsCached 2) (long_table-leaf 2) (long_table-literals 2 20 (omega arith))
      (long_table-key 2 20) (long_table-IsLeaf 2 (omega arith))
      (pager_with-IsAbsent 2 (omega arith)) (omega (arith, full_num_cells, long_table-max 2))
      (omega (arith, max_cells_two, long_table-max 2)) full_is_root (pager_with-IsFresh 2)
      (omega arith) (omega arith)
