-- ===== src/Insert/LeafRoot.antt =====
-- `insert_command` of src/table.c on a table whose tree is one leaf.
use database_in_c.Prelude.{
  ℕ, zero, suc, ◌+◌, ◌<◌, ◌≤◌, ◌≡◌, refl, true, false, ◌&&◌, List, [], some, arith, length,
  length-map, length-range, ◌==◌, ltb, leb, ℤ, eqb_ℤ, get_elem?, ap, range, ◌∙◌, sym,
}
use database_in_c.Ast.{ColumnType, Expr, literal_int}
use database_in_c.Row.{Row, serialize_row, row_size}
use database_in_c.Page.{Page, ColumnSlot, node_leaf, leaf_node_max_cells, TableEntry}
use database_in_c.Pager.{Pager, tables_max_pages, set_page, pager_mark_dirty}
use database_in_c.Pager.Fresh.{IsFresh}
use database_in_c.Catalog.{catalog_node_row_size, column_types}
use database_in_c.Table.{
  Table, CommandResult, command_success, id_duplicate_error, leaf_full_error, deref, table_types,
}
use database_in_c.Btree.Search.{leaf_node_find}
use database_in_c.Btree.Search.Bound.{leaf_key, leaf_node_find-Splits}
use database_in_c.Btree.Leaf.{leaf_node_insert}
use database_in_c.Btree.Leaf.Insert.{
  IsLeaf, IsAbsent, leaf_cell, cells_of, insert_cell, leaf_node_insert_lem,
}
use database_in_c.Btree.Split.{split_leaf_node}
use database_in_c.Btree.Split.Root.{IsRootOver, split_leaf_node-IsRootOver}
use database_in_c.Btree.Descent.{leaf_node_for_key}
use database_in_c.Delete.{done}
use database_in_c.Cursor.{entry_of}
use database_in_c.Cursor.Scan.{IsCached, pager_get_page-cached}
use database_in_c.Insert.{row_values, split_if_full, insert_in_leaf, insert_command}
use database_in_c.Insert.Values.{AreLiterals, row_values-HasTypes, values_match-AreLiterals}

length-column_types : (entry : TableEntry) → length (column_types entry) ≡ entry.column_count
length-column_types entry = omega (
  arith,
  length-map {0} (λ (slot : ColumnSlot). slot.type) (range entry.columns 0 entry.column_count),
  length-range {0} entry.columns 0 entry.column_count,
)

leaf_node_for_key-here :
    (fuel : ℕ) (pager : Pager) (n : ℕ) (key : ℤ)
    → 0 < fuel
    → (deref pager n).node_type ≡ node_leaf
    → leaf_node_for_key fuel pager n key ≡ some (pager, some n)
unfolding leaf_node_for_key
leaf_node_for_key-here zero pager n key b t = absurd (omega arith)
leaf_node_for_key-here (suc fuel) pager n key b t = rw (t, leaf_node_for_key) refl

written-IsCached :
    (pager : Pager) (n : ℕ) (page : Page)
    → n < tables_max_pages
    → IsCached (pager_mark_dirty (set_page pager n page) n) n
unfolding pager_mark_dirty set_page deref
written-IsCached pager n page inside = (inside, ground arith)

leaf_node_insert-IsCached :
    (pager : Pager) (n cell_num : ℕ) (key : ℤ) (row : Row) (row_size : ℕ)
    → n < tables_max_pages
    → (deref pager n).num_cells < leaf_node_max_cells row_size
    → IsCached (leaf_node_insert pager n cell_num key row row_size).0 n
unfolding leaf_node_insert
leaf_node_insert-IsCached pager n cell_num key row row_size inside room =
    let test : leb (leaf_node_max_cells row_size) (deref pager n).num_cells ≡ false =
      ground arith in
    rw test (written-IsCached pager n _ inside)

module _ (fuel : ℕ) (types : List ColumnType) (values : List Expr) (row : Row) (pager : Pager)
    (n : ℕ) (key : ℤ) (made : row_values values ≡ some row)
    (leaf : IsLeaf types (deref pager n)) where
  abbrev page : Page
  page = deref pager n

  insert_in_leaf-present :
      (i : ℕ)
      → i < page.num_cells
      → leaf_key page i ≡ key
      → insert_in_leaf fuel types (row_size types) values pager n key
        ≡ done (pager, id_duplicate_error)
  unfolding insert_in_leaf
  insert_in_leaf-present i inside e =
      let found = leaf_node_find page key in
      let splits = leaf_node_find-Splits page key leaf.sorted in
      let place : found ≡ i =
        ground (arith, splits.below i, splits.above found, leaf.sorted found i, e, splits.within) in
      let test : (ltb i page.num_cells && eqb_ℤ (page.leaf_cells i).key key) ≡ true =
        ground (arith, e) in
      rw (place, test) refl

  insert_in_leaf-absent :
      IsAbsent key page
      → insert_in_leaf fuel types (row_size types) values pager n key
        ≡ split_if_full fuel types n key row
            (row_size types)
            (leaf_node_insert pager n (leaf_node_find page key) key row (row_size types))
  unfolding insert_in_leaf
  insert_in_leaf-absent absent =
      let found = leaf_node_find page key in
      let test : (ltb found page.num_cells && eqb_ℤ (page.leaf_cells found).key key) ≡ false =
        ground (arith, absent found) in
      rw (test, made) refl

  split_if_full-success :
      (r : Pager × CommandResult)
      → r.1 ≡ command_success
      → split_if_full fuel types n key row (row_size types) r ≡ done r
  unfolding split_if_full
  split_if_full-success r e =
      ap (λ c. split_if_full fuel types n key row (row_size types) (r.0, c)) e
      ∙ ap (λ c. done (r.0, c)) (sym e)

  split_if_full-full :
      (s : Pager × CommandResult)
      → split_leaf_node fuel types pager n key row (row_size types) ≡ some s
      → split_if_full fuel types n key row (row_size types) (pager, leaf_full_error) ≡ done s
  unfolding split_if_full
  split_if_full-full s e = rw (e, split_if_full) refl

module _ (fuel : ℕ) (table : Table) (values : List Expr) (key : ℤ) (pager : Pager)
    (enough : 0 < fuel) (cached : IsCached pager table.root_page_num)
    (is_leaf : (deref pager table.root_page_num).node_type ≡ node_leaf)
    (literals : AreLiterals (table_types pager table) values)
    (keyed : get_elem? values (entry_of pager table).primary_key_column
      ≡ some (literal_int key)) where
  insert_command-leaf :
      insert_command fuel table table.table_name values pager
      ≡ insert_in_leaf fuel
          (table_types pager table)
          (row_size (table_types pager table))
          values
          pager
          table.root_page_num
          key
  unfolding insert_command catalog_node_row_size
  insert_command-leaf =
      let (matched, size) = values_match-AreLiterals (table_types pager table) values literals in
      let entry = entry_of pager table in
      let count : (entry.column_count == length values) ≡ true =
        ground (arith, length-column_types entry, size) in
      rw
        (
          count,
          matched,
          keyed,
          pager_get_page-cached pager table.root_page_num cached,
          leaf_node_for_key-here fuel pager table.root_page_num key enough is_leaf,
        )
        refl

  abbrev root_page : Page
  root_page = deref pager table.root_page_num

  abbrev types : List ColumnType
  types = table_types pager table

  -- An INSERT of literals of the columns' types, with an integer for the primary key, into a table
  -- whose tree is one cached leaf that has the key returns ID_DUPLICATE_ERROR and leaves the pager
  -- as it is.
  pub insert_command-present :
      (i : ℕ)
      → IsLeaf types root_page
      → i < root_page.num_cells
      → leaf_key root_page i ≡ key
      → insert_command fuel table table.table_name values pager ≡ done (pager, id_duplicate_error)
  insert_command-present i leaf inside e =
      let (row, made, typed, _) = row_values-HasTypes types values literals in
      insert_command-leaf
      ∙ insert_in_leaf-present fuel types values row pager table.root_page_num key made leaf i
          inside e

  -- An INSERT of literals of the columns' types, with an integer for the primary key, into a table
  -- whose tree is one cached leaf that has room and does not have the key succeeds; the cells are
  -- the old ones with the row of the literals inserted in order of the keys, and the page is again a
  -- leaf of the table, cached and dirty.
  pub insert_command-insert_cell :
      IsLeaf types root_page
      → IsAbsent key root_page
      → root_page.num_cells < leaf_node_max_cells (row_size types)
      → (row : Row) × (pager' : Pager) × (row_values values ≡ some row)
        × (insert_command fuel table table.table_name values pager ≡ done (pager', command_success))
        × (cells_of (deref pager' table.root_page_num)
            ≡ insert_cell (leaf_cell key (serialize_row row [])) (cells_of root_page))
        × IsLeaf types (deref pager' table.root_page_num)
        × (pager'.page_dirty table.root_page_num ≡ true)
        × IsCached pager' table.root_page_num
  insert_command-insert_cell leaf absent room =
      let n = table.root_page_num in
      let (row, made, typed, _) = row_values-HasTypes types values literals in
      let r = leaf_node_insert pager n (leaf_node_find root_page key) key row (row_size types) in
      let (success, contents, leaf', dirty, others) =
        (leaf_node_insert_lem types pager n key row leaf typed absent).0 room in
      (
        row,
        r.0,
        made,
        insert_command-leaf
            ∙ insert_in_leaf-absent fuel types values row pager n key made leaf absent
            ∙ split_if_full-success fuel types values row pager n key made leaf r success
            ∙ ap (λ c. done (r.0, c)) success,
        contents,
        leaf',
        dirty,
        leaf_node_insert-IsCached pager n _ key row (row_size types) cached.0 room,
      )

  -- An INSERT of literals of the columns' types, with an integer for the primary key, into a table
  -- whose tree is one cached root leaf that is full and does not have the key, with two free page
  -- numbers, succeeds, and the root is then an internal node over two leaves that hold the old cells
  -- with the row of the literals inserted in order of the keys.
  pub insert_command-IsRootOver :
      IsLeaf types root_page
      → IsAbsent key root_page
      → root_page.num_cells ≡ leaf_node_max_cells (row_size types)
      → 0 < leaf_node_max_cells (row_size types)
      → root_page.is_root ≡ true
      → IsFresh pager
      → table.root_page_num < pager.num_pages
      → pager.num_pages + 2 ≤ tables_max_pages
      → (row : Row) × (pager' : Pager) × (row_values values ≡ some row)
        × (insert_command fuel table table.table_name values pager ≡ done (pager', command_success))
        × IsRootOver types
            (insert_cell (leaf_cell key (serialize_row row [])) (cells_of root_page))
            pager'
            table.root_page_num
            (pager.num_pages + 1)
            pager.num_pages
  insert_command-IsRootOver leaf absent full some_cell is_root fresh inside room =
      let n = table.root_page_num in
      let (row, made, typed, _) = row_values-HasTypes types values literals in
      let refused =
        (leaf_node_insert_lem types pager n key row leaf typed absent).1 (omega (arith, full)) in
      let (pager', splits, over) =
        split_leaf_node-IsRootOver fuel types pager n key row fresh inside room leaf typed absent
          full some_cell is_root in
      (
        row,
        pager',
        made,
        insert_command-leaf
            ∙ insert_in_leaf-absent fuel types values row pager n key made leaf absent
            ∙ ap (split_if_full fuel types n key row (row_size types)) refused
            ∙ split_if_full-full fuel types values row pager n key made leaf
                (pager', command_success) splits,
        over,
      )
