-- ===== src/Btree/Split/Root.antt =====
-- `split_leaf_node` of src/btree.c on a root that is a full leaf.
use native.Mathlib.Nat.{zero-add, add-zero}
use database_in_c.Prelude.{
  ap₂, fun_ext, ltb, ℕ, ◌+◌, ◌-◌, ◌/◌, ◌<◌, ◌≤◌, ◌≡◌, ◌≢◌, refl, ap, sym, ◌∙◌, true, List, [], ◌++◌,
  arith, length, ℤ, subst, some,
}
use database_in_c.Ast.{ColumnType}
use database_in_c.Row.{Row, serialize_row, row_size}
use database_in_c.Row.RoundTrip.{HasTypes}
use database_in_c.Page.{
  Page, LeafCell, node_leaf, node_internal, leaf_node_init, leaf_node_max_cells, zero_page,
}
use database_in_c.Pager.{Pager, tables_max_pages, cache_page, set_page, pager_mark_dirty}
use database_in_c.Pager.Fresh.{
  IsFresh, pager_get_page-new, cache_page-IsFresh, set_page-IsFresh, pager_mark_dirty-IsFresh,
  num_pages-cache_page,
}
use database_in_c.Table.{command_success, deref}
use database_in_c.Table.Deref.{
  deref-set_page_self, deref-set_page_ne, deref-pager_mark_dirty, deref-cache_page_ne,
  num_pages-set_page, num_pages-pager_mark_dirty,
}
use database_in_c.Btree.Search.Bound.{leaf_key}
use database_in_c.Btree.Leaf.{
  NodeEntry, read_entries, insert_entry, write_entries, new_leaf, new_root,
}
use database_in_c.Btree.Leaf.Insert.{IsLeaf, IsAbsent, leaf_cell, cells_of, insert_cell}
use database_in_c.Btree.Split.{split_leaf_root, split_leaf_by, split_leaf_node}
use database_in_c.Btree.Split.Halves.{half-IsLeaf, half-cells, halves-insert_cell}

-- Page `root` is an internal root over the leaves `left` and `right`, which hold `cells`.
pub record IsRootOver (types : List ColumnType) (cells : List LeafCell) (pager : Pager)
    (root left right : ℕ) : Type 0 where
  pub root_type : (deref pager root).node_type ≡ node_internal
  pub root_flag : (deref pager root).is_root ≡ true
  pub one_key : (deref pager root).num_cells ≡ 1
  pub left_child : ((deref pager root).internal_cells 0).child ≡ left
  pub right_child : (deref pager root).link ≡ right
  pub separator : ((deref pager root).internal_cells 0).key ≡ leaf_key (deref pager right) 0
  pub left_type : (deref pager left).node_type ≡ node_leaf
  pub right_type : (deref pager right).node_type ≡ node_leaf
  pub left_leaf : IsLeaf types (deref pager left)
  pub right_leaf : IsLeaf types (deref pager right)
  pub contents : cells_of (deref pager left) ++ cells_of (deref pager right) ≡ cells
  pub left_next : (deref pager left).link ≡ right
  pub right_next : (deref pager right).link ≡ 0
  pub left_parent : (deref pager left).parent ≡ root
  pub right_parent : (deref pager right).parent ≡ root

module _ (types : List ColumnType) (pager : Pager) (root : ℕ) (key : ℤ) (row : Row)
    (fresh : IsFresh pager) (cached : root < pager.num_pages)
    (room : pager.num_pages + 2 ≤ tables_max_pages) (leaf : IsLeaf types (deref pager root))
    (typed : HasTypes types row) (absent : IsAbsent key (deref pager root)) where
  abbrev page : Page
  page = deref pager root

  abbrev max_cells : ℕ
  max_cells = leaf_node_max_cells (row_size types)

  abbrev mid : ℕ
  mid = (max_cells + 1) / 2

  abbrev temp : ℕ → NodeEntry
  temp = insert_entry max_cells (read_entries types page) key row

  abbrev right_page : Page
  right_page = new_leaf zero_page root (max_cells - mid + 1) (λ i. temp (mid + i)) 0

  abbrev right_num : ℕ
  right_num = pager.num_pages

  -- The pager with the right half.
  abbrev pager₂ : Pager
  pager₂ =
      pager_mark_dirty (set_page (cache_page pager right_num zero_page) right_num right_page)
        right_num

  pager₂-num_pages : pager₂.num_pages ≡ right_num + 1
  pager₂-num_pages =
      num_pages-pager_mark_dirty _ right_num
      ∙ num_pages-set_page _ right_num right_page
      ∙ num_pages-cache_page pager zero_page

  pager₂-IsFresh : IsFresh pager₂
  pager₂-IsFresh =
      pager_mark_dirty-IsFresh _
        (set_page-IsFresh _ (cache_page-IsFresh pager fresh zero_page) right_num right_page
          (omega (arith, num_pages-cache_page pager zero_page)))
        right_num

  abbrev left_num : ℕ
  left_num = pager₂.num_pages

  abbrev left_page : Page
  left_page = new_leaf zero_page root mid temp right_num

  -- The pager with both halves.
  abbrev pager₃ : Pager
  pager₃ =
      pager_mark_dirty (set_page (cache_page pager₂ left_num zero_page) left_num left_page) left_num

  abbrev root_page : Page
  root_page = new_root (deref pager₃ root) (temp mid).key left_num right_num

  abbrev pager₄ : Pager
  pager₄ = pager_mark_dirty (set_page pager₃ root root_page) root

  split_leaf_node-runs :
      (fuel : ℕ)
      → page.is_root ≡ true
      → split_leaf_node fuel types pager root key row (row_size types)
        ≡ some (pager₄, command_success)
  unfolding split_leaf_node split_leaf_by split_leaf_root
  split_leaf_node-runs fuel is_root =
      let first = pager_get_page-new pager fresh (omega arith) in
      let second = pager_get_page-new pager₂ pager₂-IsFresh (omega (arith, pager₂-num_pages)) in
      ap (λ b. split_leaf_by b fuel types pager root key row (row_size types)) is_root
      ∙ rw (first, split_leaf_by) (rw (second, split_leaf_root))

  apart_right : root ≢ right_num
  apart_right = omega arith

  apart_left : root ≢ left_num
  apart_left = omega (arith, pager₂-num_pages)

  apart : right_num ≢ left_num
  apart = omega (arith, pager₂-num_pages)

  deref-root : deref pager₄ root ≡ root_page
  deref-root = rw (deref-pager_mark_dirty, deref-set_page_self pager₃ root root_page)

  deref-left : deref pager₄ left_num ≡ left_page
  deref-left = rw (
    deref-pager_mark_dirty,
    deref-set_page_ne pager₃ root root_page left_num (λ e. apart_left (sym e)),
    deref-pager_mark_dirty,
    deref-set_page_self _ left_num left_page,
  )

  deref-right : deref pager₄ right_num ≡ right_page
  deref-right = rw (
    deref-pager_mark_dirty,
    deref-set_page_ne pager₃ root root_page right_num (λ e. apart_right (sym e)),
    deref-pager_mark_dirty,
    deref-set_page_ne _ left_num left_page right_num apart,
    deref-cache_page_ne pager₂ left_num zero_page right_num apart,
    deref-pager_mark_dirty,
    deref-set_page_self _ right_num right_page,
  )

  module _ (full : page.num_cells ≡ max_cells) (some_cell : 0 < max_cells) where
    empty_cells : (i : ℕ) → length (zero_page.leaf_cells i).value ≤ row_size types
    unfolding zero_page
    empty_cells i = omega arith

    left_same : left_page.leaf_cells ≡ write_entries mid (λ i. temp (0 + i)) zero_page.leaf_cells
    unfolding new_leaf
    left_same =
        ap (λ f. write_entries mid f zero_page.leaf_cells) (fun_ext λ i. ap temp (sym (zero-add i)))

    right_same :
        right_page.leaf_cells
        ≡ write_entries (max_cells - mid + 1) (λ i. temp (mid + i)) zero_page.leaf_cells
    unfolding new_leaf
    right_same = refl

    left_size : left_page.num_cells ≡ mid
    unfolding new_leaf
    left_size = refl

    right_size : right_page.num_cells ≡ max_cells - mid + 1
    unfolding new_leaf
    right_size = refl

    left-IsLeaf : IsLeaf types left_page
    left-IsLeaf =
        half-IsLeaf types page key row leaf typed absent max_cells full 0 mid (omega arith)
          (omega arith) zero_page.leaf_cells empty_cells left_page left_size left_same

    right-IsLeaf : IsLeaf types right_page
    right-IsLeaf =
        half-IsLeaf types page key row leaf typed absent max_cells full mid (max_cells - mid + 1)
          (omega arith) (omega arith) zero_page.leaf_cells empty_cells right_page right_size
          right_same

    contents :
        cells_of left_page ++ cells_of right_page
        ≡ insert_cell (leaf_cell key (serialize_row row [])) (cells_of page)
    contents =
        ap₂ (λ l m. l ++ m)
          (half-cells types page key row leaf typed absent max_cells full 0 mid (omega arith)
            (omega arith) zero_page.leaf_cells empty_cells left_page left_size left_same)
          (half-cells types page key row leaf typed absent max_cells full mid (max_cells - mid + 1)
            (omega arith) (omega arith) zero_page.leaf_cells empty_cells right_page right_size
            right_same)
        ∙ halves-insert_cell types page key row leaf typed absent max_cells full mid
            (max_cells - mid + 1) (omega arith)

    separator : (temp mid).key ≡ leaf_key right_page 0
    unfolding new_leaf write_entries
    separator =
        let test : ltb 0 (max_cells - mid + 1) ≡ true = ground arith in
        rw (test, leaf_key) (ap (λ i. (temp i).key) (sym (add-zero mid)))

    pager₄-IsRootOver :
        IsRootOver types
          (insert_cell (leaf_cell key (serialize_row row [])) (cells_of page))
          pager₄
          root
          left_num
          right_num
    unfolding new_leaf new_root leaf_node_init
    pager₄-IsRootOver = record {
      root_type = ap (λ (p : Page). p.node_type) deref-root;
      root_flag = ap (λ (p : Page). p.is_root) deref-root;
      one_key = ap (λ (p : Page). p.num_cells) deref-root;
      left_child = ap (λ (p : Page). (p.internal_cells 0).child) deref-root;
      right_child = ap (λ (p : Page). p.link) deref-root;
      separator =
          ap (λ (p : Page). (p.internal_cells 0).key) deref-root
          ∙ separator
          ∙ sym (ap (λ (p : Page). leaf_key p 0) deref-right);
      left_type = ap (λ (p : Page). p.node_type) deref-left;
      right_type = ap (λ (p : Page). p.node_type) deref-right;
      left_leaf = subst (IsLeaf types) (sym deref-left) left-IsLeaf;
      right_leaf = subst (IsLeaf types) (sym deref-right) right-IsLeaf;
      contents = ap₂ (λ p q. cells_of p ++ cells_of q) deref-left deref-right ∙ contents;
      left_next = ap (λ (p : Page). p.link) deref-left;
      right_next = ap (λ (p : Page). p.link) deref-right;
      left_parent = ap (λ (p : Page). p.parent) deref-left;
      right_parent = ap (λ (p : Page). p.parent) deref-right;
    }

-- On a root that is a full leaf without the key, with two free page numbers, `split_leaf_node`
-- succeeds: the root page becomes an internal root with one separator over two new leaves of the
-- table, which are chained and hold, one behind the other, the old cells with the new one
-- inserted in order; the separator is the first key of the right leaf.
pub split_leaf_node-IsRootOver :
    (fuel : ℕ) (types : List ColumnType) (pager : Pager) (root : ℕ) (key : ℤ) (row : Row)
    → IsFresh pager
    → root < pager.num_pages
    → pager.num_pages + 2 ≤ tables_max_pages
    → IsLeaf types (deref pager root)
    → HasTypes types row
    → IsAbsent key (deref pager root)
    → (deref pager root).num_cells ≡ leaf_node_max_cells (row_size types)
    → 0 < leaf_node_max_cells (row_size types)
    → (deref pager root).is_root ≡ true
    → (pager' : Pager) × (split_leaf_node fuel types pager root key row (row_size types)
        ≡ some (pager', command_success))
      × IsRootOver types
          (insert_cell (leaf_cell key (serialize_row row [])) (cells_of (deref pager root)))
          pager'
          root
          (pager.num_pages + 1)
          pager.num_pages
split_leaf_node-IsRootOver fuel types pager root key row fresh cached room leaf typed absent full
      some_cell is_root =
    let pager' = pager₄ types pager root key row fresh cached room leaf typed absent in
    (
      pager',
      split_leaf_node-runs types pager root key row fresh cached room leaf typed absent fuel
          is_root,
      subst
          (λ left.
            IsRootOver types
              (insert_cell (leaf_cell key (serialize_row row [])) (cells_of (deref pager root)))
              pager' root left pager.num_pages)
          (pager₂-num_pages types pager root key row fresh cached room leaf typed absent)
          (pager₄-IsRootOver types pager root key row fresh cached room leaf typed absent full
            some_cell),
    )
