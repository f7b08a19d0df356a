-- ===== src/Btree/Split.antt =====
-- `split_leaf_node` of src/btree.c.
pub mod Entries
pub mod Halves
pub mod Root
use database_in_c.Prelude.{
  ℕ, zero, suc, ◌+◌, ◌-◌, ◌/◌, Bool, true, false, List, if◌then◌else◌, ℤ, Option, none, some,
}
use database_in_c.Ast.{ColumnType}
use database_in_c.Row.{Row}
use database_in_c.Page.{Page, leaf_node_max_cells}
use database_in_c.Pager.{Pager, pager_get_page, set_page, pager_mark_dirty}
use database_in_c.Table.{CommandResult, command_success, failure, deref}
use database_in_c.Btree.Leaf.{NodeEntry, read_entries, insert_entry, new_leaf, new_root, keep_left}
use database_in_c.Btree.Internal.{insert_in_parent}

-- The branch for a root that is a leaf, with the right half at `right_num`.
unfoldable pub split_leaf_root : Pager → ℕ → (ℕ → NodeEntry) → ℕ → ℕ → Pager × CommandResult
split_leaf_root pager old_page_num temp mid right_num =
    let left_num = pager.num_pages in
    elim (pager_get_page pager left_num) [
      | none ↦ (pager, failure)
      | some (pager₁, left) ↦
          let pager₂ =
            pager_mark_dirty
              (set_page pager₁ left_num (new_leaf left old_page_num mid temp right_num)) left_num in
          let root = new_root (deref pager₂ old_page_num) (temp mid).key left_num right_num in
          (pager_mark_dirty (set_page pager₂ old_page_num root) old_page_num, command_success)
    ]

-- The branch for another leaf, up to the insertion of the promoted key in the parent.
unfoldable pub split_leaf_child : Pager → ℕ → (ℕ → NodeEntry) → ℕ → ℕ → Pager
split_leaf_child pager old_page_num temp mid right_num =
    let old = deref pager old_page_num in
    let pager₁ =
      pager_mark_dirty (set_page pager old_page_num (keep_left old mid temp right_num))
        old_page_num in
    set_page pager₁ right_num (record (deref pager₁ right_num) { link = old.link })

-- `types` are the table's column types, which the reads of the rows take from the catalog; the
-- flag is `is_root_split`.
unfoldable pub split_leaf_by :
    Bool → ℕ → List ColumnType → Pager → ℕ → ℤ → Row → ℕ → Option (Pager × CommandResult)
split_leaf_by is_root_split fuel types pager old_page_num new_key new_row row_size =
    let max_cells = leaf_node_max_cells row_size in
    let old = deref pager old_page_num in
    let temp = insert_entry max_cells (read_entries types old) new_key new_row in
    let mid = (max_cells + 1) / 2 in
    let right_num = pager.num_pages in
    elim (pager_get_page pager right_num) [
      | none ↦ some (pager, failure)
      | some (pager₁, right) ↦
          let parent = if is_root_split then old_page_num else old.parent in
          let entries = λ (i : ℕ). temp (mid + i) in
          let pager₂ =
            pager_mark_dirty
              (set_page pager₁ right_num (new_leaf right parent (max_cells - mid + 1) entries 0))
              right_num in
          elim is_root_split [
            | true ↦ some (split_leaf_root pager₂ old_page_num temp mid right_num)
            | false ↦
                let pager₃ = split_leaf_child pager₂ old_page_num temp mid right_num in
                elim (pager_get_page pager₃ old.parent) [
                  | none ↦ some (pager₃, failure)
                  | some (pager₄, _) ↦
                      insert_in_parent fuel pager₄ old.parent (temp mid).key old_page_num right_num
                ]
          ]
    ]

unfoldable pub split_leaf_node :
    ℕ → List ColumnType → Pager → ℕ → ℤ → Row → ℕ → Option (Pager × CommandResult)
split_leaf_node fuel types pager old_page_num =
    split_leaf_by (deref pager old_page_num).is_root fuel types pager old_page_num
