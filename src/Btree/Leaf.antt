-- ===== src/Btree/Leaf.antt =====
-- `leaf_node_insert` and `split_leaf_node` of src/btree.c, up to the call that hands the promoted
-- key to the parent.
pub mod Insert
use database_in_c.Prelude.{
  ℕ, zero, suc, ◌+◌, ◌-◌, ◌/◌, Bool, true, false, List, ltb, leb, if◌then◌else◌, ℤ, ltb_ℤ, update,
  memmove, Option, none, some,
}
use database_in_c.Ast.{ColumnType}
use database_in_c.Row.{Row, serialize_row, deserialize_row}
use database_in_c.Page.{
  Page, LeafCell, InternalCell, node_leaf, node_internal, leaf_node_init, clear_cells,
  leaf_node_max_cells,
}
use database_in_c.Pager.{Pager, pager_get_page, set_page, pager_mark_dirty}
use database_in_c.Table.{CommandResult, command_success, leaf_full_error, failure, deref}

-- The writes of `leaf_node_insert` to a page with room.
unfoldable pub insert_leaf_cell : Page → ℕ → ℤ → Row → Page
unfolding serialize_row
insert_leaf_cell page cell_num key row =
    let moved = memmove page.leaf_cells (cell_num + 1) cell_num (page.num_cells - cell_num) in
    let cell : LeafCell = record { key = key; value = serialize_row row (moved cell_num).value } in
    record page { leaf_cells = update moved cell_num cell; num_cells = page.num_cells + 1 }

unfoldable pub leaf_node_insert : Pager → ℕ → ℕ → ℤ → Row → ℕ → Pager × CommandResult
leaf_node_insert pager leaf_page_num cell_num key row row_size =
    let page = deref pager leaf_page_num in
    if leb (leaf_node_max_cells row_size) page.num_cells then (pager, leaf_full_error) else (
      pager_mark_dirty (set_page pager leaf_page_num (insert_leaf_cell page cell_num key row))
          leaf_page_num,
      command_success,
    )

-- `NodeEntry` of `split_leaf_node`.
pub record NodeEntry : Type 0 where
  pub row : Row
  pub key : ℤ

-- The first loop: the cells of the page, read as rows.
unfoldable pub read_entries : List ColumnType → Page → ℕ → NodeEntry
unfolding deserialize_row
read_entries types page i = record {
  row = deserialize_row types (page.leaf_cells i).value;
  key = (page.leaf_cells i).key;
}

-- The loop that shifts the entries with a greater key to the right, and its last `i`.
unfoldable pub shift_entries : ℕ → (ℕ → NodeEntry) → ℤ → (ℕ → NodeEntry) × ℕ
shift_entries zero temp new_key = (temp, 0)
shift_entries (suc i) temp new_key =
    let next = shift_entries i (update temp (suc i) (temp i)) new_key in
    if ltb_ℤ new_key (temp i).key then next else (temp, suc i)

unfoldable pub insert_entry : ℕ → (ℕ → NodeEntry) → ℤ → Row → ℕ → NodeEntry
unfolding shift_entries
insert_entry max_cells temp new_key new_row =
    let (shifted, i) = shift_entries max_cells temp new_key in
    update shifted i (record { row = new_row; key = new_key })

-- A loop that writes `count` entries to the cells of a page, each on its own.
unfoldable pub write_entries : ℕ → (ℕ → NodeEntry) → (ℕ → LeafCell) → ℕ → LeafCell
unfolding serialize_row
write_entries count entries cells i =
    if ltb i count
    then record { key = (entries i).key; value = serialize_row (entries i).row (cells i).value }
    else cells i

-- A new leaf with `count` entries.
unfoldable pub new_leaf : Page → ℕ → ℕ → (ℕ → NodeEntry) → ℕ → Page
unfolding leaf_node_init write_entries
new_leaf page parent count entries next_leaf = record (leaf_node_init page) {
  is_root = false;
  parent = parent;
  num_cells = count;
  link = next_leaf;
  leaf_cells = write_entries count entries page.leaf_cells;
}

-- The root, a leaf before, as the parent of the two halves.
unfoldable pub new_root : Page → ℤ → ℕ → ℕ → Page
unfolding leaf_node_init clear_cells
new_root page promoted left right =
    let page' = leaf_node_init (clear_cells page) in
    record page' {
      node_type = node_internal;
      num_cells = 1;
      link = right;
      internal_cells = update page'.internal_cells 0 (record { key = promoted; child = left });
    }

-- The old leaf with the left half.
unfoldable pub keep_left : Page → ℕ → (ℕ → NodeEntry) → ℕ → Page
unfolding clear_cells write_entries
keep_left page mid entries right =
    let page' = clear_cells page in
    record page' {
      num_cells = mid;
      link = right;
      leaf_cells = write_entries mid entries page'.leaf_cells;
    }
