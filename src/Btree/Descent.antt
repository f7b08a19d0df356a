-- ===== src/Btree/Descent.antt =====
-- `leaf_node_for_key` of src/btree.c.
use database_in_c.Prelude.{ℕ, zero, suc, ◌==◌, if◌then◌else◌, ℤ, ltb_ℤ, Option, none, some}
use database_in_c.Page.{Page, node_leaf, node_internal}
use database_in_c.Pager.{Pager, pager_get_page}
use database_in_c.Table.{deref}

-- The inner loop: from `i` down while the separator in front is greater than the key.
unfoldable pub child_index : Page → ℤ → ℕ → ℕ
child_index page key zero = 0
child_index page key (suc i) =
    let down = child_index page key i in
    if ltb_ℤ key (page.internal_cells i).key then down else suc i

unfoldable pub child_for_key : Page → ℤ → ℕ
unfolding child_index
child_for_key page key =
    let i = child_index page key page.num_cells in
    if i == page.num_cells then page.link else (page.internal_cells i).child

-- The page number of the leaf, from a page that is cached. One unit of fuel a level; the outer
-- `none` is fuel that ran out, the inner one a child that does not load.
unfoldable pub leaf_node_for_key : ℕ → Pager → ℕ → ℤ → Option (Pager × Option ℕ)
leaf_node_for_key zero pager page_num key = none
leaf_node_for_key (suc fuel) pager page_num key =
    let page = deref pager page_num in
    elim page.node_type [
      | node_leaf ↦ some (pager, some page_num)
      | node_internal ↦
          let child = child_for_key page key in
          elim (pager_get_page pager child) [
            | none ↦ some (pager, none)
            | some (pager', _) ↦ leaf_node_for_key fuel pager' child key
          ]
    ]
