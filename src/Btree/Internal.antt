-- ===== src/Btree/Internal.antt =====
-- `internal_node_insert` and `split_internal_node` of src/btree.c. A promoted key goes to the
-- parent, which may split in turn: each level takes a unit of fuel, and `none` is fuel that ran
-- out.
pub mod Lists
pub mod Adopt
pub mod Root
use database_in_c.Prelude.{
  ℕ, zero, suc, ◌+◌, ◌-◌, ◌/◌, Bool, true, false, ltb, leb, ◌==◌, if◌then◌else◌, ℤ, update, memmove,
  Option, none, some,
}
use database_in_c.Page.{Page, InternalCell, internal_node_init, clear_cells, internal_node_max_keys}
use database_in_c.Pager.{Pager, pager_get_page, set_page, pager_mark_dirty}
use database_in_c.Table.{CommandResult, command_success, internal_node_full_error, failure, deref}
use database_in_c.Btree.Search.{internal_node_find}

abbrev pub internal_cell : ℤ → ℕ → InternalCell
internal_cell key child = record { key = key; child = child }

-- The writes of `internal_node_insert` to a page with room. The right child becomes the
-- rightmost one, or the child of the cell behind the new one.
unfoldable pub insert_internal_cell : Page → ℕ → ℤ → ℕ → ℕ → Page
insert_internal_cell page cell_num key left right =
    let moved = memmove page.internal_cells (cell_num + 1) cell_num (page.num_cells - cell_num) in
    let last = cell_num == page.num_cells in
    let behind = internal_cell (moved (cell_num + 1)).key right in
    let relinked = if last then moved else update moved (cell_num + 1) behind in
    record page {
      link = if last then right else page.link;
      internal_cells = update relinked cell_num (internal_cell key left);
      num_cells = page.num_cells + 1;
    }

unfoldable pub internal_node_insert : Pager → ℕ → ℕ → ℤ → ℕ → ℕ → Pager × CommandResult
internal_node_insert pager page_num cell_num key left right =
    let page = deref pager page_num in
    if leb internal_node_max_keys page.num_cells then (pager, internal_node_full_error) else (
      pager_mark_dirty (set_page pager page_num (insert_internal_cell page cell_num key left right))
          page_num,
      command_success,
    )

-- `temp_keys` and `temp_children` of `split_internal_node`.
pub record Spread : Type 0 where
  pub keys : ℕ → ℤ
  pub children : ℕ → ℕ

-- The keys and children of a full node with the new key and its two children among them.
unfoldable pub spread : Page → ℤ → ℕ → ℕ → Spread
spread page new_key left right =
    let cell_num = internal_node_find page new_key in
    let keys = λ (i : ℕ). (page.internal_cells i).key in
    let children = update (λ i. (page.internal_cells i).child) internal_node_max_keys page.link in
    let moved_keys = memmove keys (cell_num + 1) cell_num (internal_node_max_keys - cell_num) in
    let moved_children =
      memmove children (cell_num + 1) cell_num (internal_node_max_keys - cell_num + 1) in
    record {
      keys = update moved_keys cell_num new_key;
      children = update (update moved_children cell_num left) (cell_num + 1) right;
    }

abbrev pub middle : ℕ
middle = internal_node_max_keys / 2

-- A loop that writes `count` keys and children, from index `from` of the spread on.
unfoldable pub write_cells : ℕ → ℕ → Spread → (ℕ → InternalCell) → ℕ → InternalCell
write_cells count from temp cells i =
    if ltb i count then internal_cell (temp.keys (from + i)) (temp.children (from + i)) else cells i

-- The halves: [0, middle) with the child at `middle`, and the cells behind `middle`.
unfoldable pub left_half : Page → ℕ → Spread → Page
left_half page parent temp = record (internal_node_init page false) {
  internal_cells = write_cells middle 0 temp page.internal_cells;
  link = temp.children middle;
  num_cells = middle;
  parent = parent;
}

unfoldable pub right_half : Page → ℕ → Spread → Page
right_half page parent temp = record (internal_node_init page false) {
  internal_cells =
      write_cells (internal_node_max_keys - middle) (middle + 1) temp page.internal_cells;
  link = temp.children (internal_node_max_keys + 1);
  num_cells = internal_node_max_keys - middle;
  parent = parent;
}

-- The loop that gives `count` children from index `j` on their new parent. The pages are not
-- marked dirty; `false` is a page that does not load.
unfoldable pub adopt : ℕ → ℕ → (ℕ → ℕ) → (ℕ → ℕ) → Pager → Pager × Bool
adopt zero j children new_parent pager = (pager, true)
adopt (suc count) j children new_parent pager = elim (pager_get_page pager (children j)) [
  | none ↦ (pager, false)
  | some (pager', child) ↦
      adopt count (j + 1) children new_parent
        (set_page pager' (children j) (record child { parent = new_parent j }))
]

-- The root rewritten as the parent of both halves.
unfoldable pub root_over : Page → ℤ → ℕ → ℕ → Page
root_over page promoted left right =
    let page' = internal_node_init (clear_cells page) true in
    record page' {
      internal_cells = update page'.internal_cells 0 (internal_cell promoted left);
      num_cells = 1;
      link = right;
    }

-- The branch for the root: both halves go to new pages.
unfoldable pub split_internal_root : Pager → ℕ → Spread → Pager × CommandResult
split_internal_root pager old_page_num temp =
    let left_num = pager.num_pages in
    elim (pager_get_page pager left_num) [
      | none ↦ (pager, failure)
      | some (pager₁, left) ↦
          let right_num = pager₁.num_pages in
          elim (pager_get_page pager₁ right_num) [
            | none ↦ (pager₁, failure)
            | some (pager₂, right) ↦
                let pager₃ =
                  set_page (set_page pager₂ left_num (left_half left old_page_num temp)) right_num
                    (right_half right old_page_num temp) in
                let adopted =
                  adopt (internal_node_max_keys + 2) 0 temp.children
                    (λ j. if leb j middle then left_num else right_num) pager₃ in
                if adopted.1
                then (
                  pager_mark_dirty
                      (pager_mark_dirty
                        (pager_mark_dirty
                          (set_page adopted.0 old_page_num (
                            root_over (deref adopted.0 old_page_num) (temp.keys middle) left_num
                              right_num))
                          left_num)
                        right_num)
                      old_page_num,
                  command_success,
                )
                else (adopted.0, failure)
          ]
    ]

-- The branch for another node, up to the insertion of the promoted key in the parent: the left
-- half stays, the right half goes to a new page, whose number comes first.
unfoldable pub split_internal_child : Pager → ℕ → Spread → Pager × Option ℕ
split_internal_child pager old_page_num temp =
    let old = clear_cells (deref pager old_page_num) in
    let pager₀ = set_page pager old_page_num old in
    let right_num = pager.num_pages in
    elim (pager_get_page pager₀ right_num) [
      | none ↦ (pager₀, none)
      | some (pager₁, right) ↦
          let pager₂ =
            set_page (set_page pager₁ right_num (right_half right old.parent temp)) old_page_num
              (left_half old old.parent temp) in
          let adopted =
            adopt (internal_node_max_keys + 1 - middle) (middle + 1) temp.children (λ _. right_num)
              pager₂ in
          if adopted.1 then (adopted.0, some right_num) else (adopted.0, none)
    ]

-- Inserts a promoted key and its children in the parent, which splits if it is full.
unfoldable mutual
  pub split_internal_node : ℕ → Pager → ℕ → ℤ → ℕ → ℕ → Option (Pager × CommandResult)
  split_internal_node zero pager old_page_num new_key left right = none
  split_internal_node (suc fuel) pager old_page_num new_key left right =
      let old = deref pager old_page_num in
      let temp = spread old new_key left right in
      let promoted = temp.keys middle in
      elim old.is_root [
        | true ↦ some (split_internal_root pager old_page_num temp)
        | false ↦
            let (pager₁, split) = split_internal_child pager old_page_num temp in
            elim split [
              | none ↦ some (pager₁, failure)
              | some right_num ↦ elim (pager_get_page pager₁ old.parent) [
                | none ↦ some (pager₁, failure)
                | some (pager₂, parent) ↦
                    insert_in_parent fuel
                      (pager_mark_dirty (pager_mark_dirty pager₂ old_page_num) right_num) old.parent
                      promoted old_page_num right_num
              ]
            ]
      ]

  -- `internal_node_insert` at the place of the key and, where that is full, the split.
  pub insert_in_parent : ℕ → Pager → ℕ → ℤ → ℕ → ℕ → Option (Pager × CommandResult)
  insert_in_parent zero pager parent_num key left right = none
  insert_in_parent (suc fuel) pager parent_num key left right =
      let (pager', result) =
        internal_node_insert pager parent_num (internal_node_find (deref pager parent_num) key) key
          left right in
      let deeper = split_internal_node fuel pager' parent_num key left right in
      elim result [ internal_node_full_error ↦ deeper | _ ↦ some (pager', command_success) ]
