-- ===== src/Tests/Nodes.antt =====
-- Internal nodes of src/btree.c with many keys.
use database_in_c.Prelude.{
  ℕ, ◌*◌, ◌+◌, ◌<◌, ◌≡◌, refl, true, false, ltb, ◌≤◌, some, none, pos, arith, ◌==◌, if◌then◌else◌,
}
use database_in_c.Page.{Page, zero_page, node_internal, internal_node_max_keys}
use database_in_c.Pager.{Pager}
use database_in_c.Table.{command_success, deref}
use database_in_c.Btree.Search.{internal_node_find}
use database_in_c.Btree.Search.Bound.{IsSorted, Splits}
use database_in_c.Btree.Internal.{internal_node_insert, split_internal_node}
use database_in_c.Btree.Internal.Lists.{
  key_at, child_at, keys_of, children_of, put_keys, put_children, internal_node_insert-put,
}
use database_in_c.Btree.Internal.Root.{IsRootOverNodes, split_internal_node-IsRootOverNodes}
use database_in_c.Btree.Internal.Root.Children.{parent-split_internal_node}
use database_in_c.Cursor.Scan.{IsCached}
use database_in_c.Pager.Fresh.{IsFresh}

-- Keys 0, 10, 20, … over the pages from 2 on.
abbrev node : ℕ → Page
node n = record zero_page {
  node_type = node_internal;
  num_cells = n;
  internal_cells = λ i. record { key = pos (10 * i); child = i + 2 };
  link = n + 2;
}

abbrev nodes_pager : Pager
nodes_pager = record {
  file = record { content = λ _. zero_page; bytes_read = λ _. 0 };
  file_length = 0;
  pages = λ m. if m == 1 then some (node 5) else none;
  page_dirty = λ _. false;
  num_pages = 2;
}

node-IsSorted : (n : ℕ) → IsSorted (key_at (node n)) n
node-IsSorted n i j p q = ground arith

nodes_pager-IsSorted : IsSorted (key_at (deref nodes_pager 1)) (deref nodes_pager 1).num_cells
unfolding deref
nodes_pager-IsSorted = node-IsSorted 5

nodes_pager-room : (deref nodes_pager 1).num_cells < internal_node_max_keys
unfolding deref
nodes_pager-room = omega arith

internal_node_insert-put_example :
    let page = deref nodes_pager 1 in
    let c = internal_node_find page (pos 25) in
    let r = internal_node_insert nodes_pager 1 c (pos 25) 3 9 in
    (r.1 ≡ command_success)
    × Splits (key_at page) (pos 25) page.num_cells c
    × (keys_of (deref r.0 1) ≡ put_keys page c (pos 25))
    × (children_of (deref r.0 1) ≡ put_children page c 3 9)
internal_node_insert-put_example =
    internal_node_insert-put nodes_pager 1 (pos 25) 3 9 nodes_pager-IsSorted nodes_pager-room

-- A full root, page 1, over cached pages.
abbrev full_pager : Pager
full_pager = record nodes_pager {
  pages = λ m.
      if m == 1
      then some (record (node internal_node_max_keys) { is_root = true })
      else if ltb m 400
      then some zero_page
      else none;
  num_pages = 400;
}

full_pager-IsFresh : IsFresh full_pager
full_pager-IsFresh = record { uncached = λ m p. ground arith; beyond = omega arith }

full_pager-IsSorted : IsSorted (key_at (deref full_pager 1)) (deref full_pager 1).num_cells
unfolding deref
full_pager-IsSorted = node-IsSorted internal_node_max_keys

full_pager-root : (deref full_pager 1).is_root ≡ true
unfolding deref
full_pager-root = refl

full_pager-full : (deref full_pager 1).num_cells ≡ internal_node_max_keys
unfolding deref
full_pager-full = refl

full_pager-IsCached : (m : ℕ) → m < 400 → IsCached full_pager m
unfolding deref
full_pager-IsCached m inside = (omega arith, ground arith)

full_pager-children :
    (i : ℕ) → i ≤ (deref full_pager 1).num_cells → child_at (deref full_pager 1) i < 400
unfolding deref
full_pager-children i inside = ground arith

split_internal_node-IsRootOverNodes_example :
    (pager' : Pager) × (c : ℕ) × (split_internal_node 1 full_pager 1 (pos 25) 4 399
      ≡ some (pager', command_success))
    × Splits (key_at (deref full_pager 1)) (pos 25) (deref full_pager 1).num_cells c
    × IsRootOverNodes
        (put_keys (deref full_pager 1) c (pos 25))
        (put_children (deref full_pager 1) c 4 399)
        pager'
        1
        400
        401
split_internal_node-IsRootOverNodes_example =
    split_internal_node-IsRootOverNodes 0 full_pager 1 (pos 25) 4 399 full_pager-IsFresh
      (omega arith) (omega arith) full_pager-root full_pager-IsSorted full_pager-full
      (full_pager-IsCached 4 (omega arith)) (full_pager-IsCached 399 (omega arith))
      (λ i p. full_pager-IsCached _ (full_pager-children i p))

full_pager-child :
    (i : ℕ) → i ≤ (deref full_pager 1).num_cells → child_at (deref full_pager 1) i ≡ i + 2
unfolding deref
full_pager-child i inside = ground arith

parent-split_internal_node_example :
    (pager' : Pager) × (split_internal_node 1 full_pager 1 (pos 25) 398 399
      ≡ some (pager', command_success))
    × ((i : ℕ)
        → i ≤ (deref pager' 400).num_cells
        → (deref pager' (child_at (deref pager' 400) i)).parent ≡ 400)
    × ((i : ℕ)
        → i ≤ (deref pager' 401).num_cells
        → (deref pager' (child_at (deref pager' 401) i)).parent ≡ 401)
parent-split_internal_node_example =
    parent-split_internal_node 0 full_pager 1 (pos 25) 398 399 full_pager-IsFresh (omega arith)
      (omega arith) full_pager-root full_pager-IsSorted full_pager-full
      (full_pager-IsCached 398 (omega arith)) (full_pager-IsCached 399 (omega arith))
      (λ i p. full_pager-IsCached _ (full_pager-children i p))
      (λ i k p q e.
        absurd (omega (arith, e, full_pager-child i (omega arith), full_pager-child k q)))
      (λ i p e. absurd (omega (arith, e, p, full_pager-full, full_pager-child i p)))
      (λ i p e. omega (arith, e, p, full_pager-full, full_pager-child i p)) (λ e. ground arith)
      (λ e. ground arith) (λ e. ground arith) (λ i p e. omega (arith, e, full_pager-child i p))
