-- ===== src/Delete/Stale.antt =====
-- A scan by `table_scan_next` of src/table.c behind a DELETE by `delete_command` that empties a leaf.
use database_in_c.Prelude.{
  ℕ, zero, suc, ◌-◌, ◌<◌, ◌≡◌, ◌≢◌, refl, ap, ap₂, sym, ◌∙◌, subst, Bool, true, false, some, arith,
  ◌==◌, memmove,
}
use database_in_c.Row.{deserialize_row}
use database_in_c.Page.{Page, LeafCell, node_leaf}
use database_in_c.Pager.{Pager, set_page, pager_mark_dirty}
use database_in_c.Table.{Table, deref, table_types}
use database_in_c.Table.Deref.{deref-set_page_self, deref-set_page_ne, deref-pager_mark_dirty}
use database_in_c.Delete.{RowTest, done, delete_cells, delete_in_page, delete_loop}
use database_in_c.Btree.Internal.Adopt.{set_page-IsCached}
use database_in_c.Cursor.{cursor_next, table_scan}
use database_in_c.Cursor.Scan.{IsCached, table_scan_next-behind}

delete_cells-first :
    (test : RowTest) (k : ℕ) (cells : ℕ → LeafCell) (dirty : Bool)
    → test (cells 0) ≡ some true
    → delete_cells test (suc k) 0 cells (suc k) dirty
      ≡ delete_cells test k 0 (memmove cells 0 1 k) k true
unfolding delete_cells
delete_cells-first test k cells dirty first =
    let count : suc k - 0 - 1 ≡ k = omega arith in
    let size : suc k - 1 ≡ k = omega arith in
    rw (first, delete_cells)
      (ap (λ n. delete_cells test k 0 (memmove cells 0 1 n) (suc k - 1) true) count
        ∙ ap (λ n. delete_cells test k 0 (memmove cells 0 1 k) n true) size)

-- Where the test holds on all cells, the loop leaves none, and the first slot holds the last cell.
delete_cells-all :
    (test : RowTest) (k : ℕ) (cells : ℕ → LeafCell) (dirty : Bool)
    → ((j : ℕ) → j < suc k → test (cells j) ≡ some true)
    → (cells' : ℕ → LeafCell) × (delete_cells test (suc k) 0 cells (suc k) dirty
        ≡ some (cells', 0, true))
      × (cells' 0 ≡ cells k)
unfolding delete_cells
delete_cells-all test zero cells dirty all =
    (memmove cells 0 1 0, delete_cells-first test 0 cells dirty (all 0 (omega arith)), refl)
delete_cells-all test (suc k) cells dirty all =
    let moved = memmove cells 0 1 (suc k) in
    let shift : (j : ℕ) → j < suc k → moved j ≡ cells (suc j) = λ j p. ground arith in
    let (cells', runs, last) =
      delete_cells-all test k moved true (λ j p. ap test (shift j p) ∙ all (suc j) (omega arith)) in
    (
      cells',
      delete_cells-first test (suc k) cells dirty (all 0 (omega arith)) ∙ runs,
      last ∙ shift k (omega arith),
    )

module _ (test : RowTest) (pager : Pager) (m k : ℕ) (size : (deref pager m).num_cells ≡ suc k)
    (last : (deref pager m).link ≡ 0)
    (all : (j : ℕ) → j < suc k → test ((deref pager m).leaf_cells j) ≡ some true) where
  -- The leaf that is left.
  emptied :
      (page : Page) × (delete_in_page test (deref pager m) ≡ some (page, true))
      × (page.num_cells ≡ 0)
      × (page.leaf_cells 0 ≡ (deref pager m).leaf_cells k)
      × (page.link ≡ 0)
  unfolding delete_in_page
  emptied =
      let page = deref pager m in
      let (cells, runs, first) = delete_cells-all test k page.leaf_cells false all in
      (
        record page { leaf_cells = cells; num_cells = 0 },
        rw (size, delete_in_page) (rw runs refl),
        refl,
        first,
        last,
      )

  delete_loop-emptied :
      (fuel : ℕ)
      → delete_loop (suc fuel) test pager m ≡ done (pager_mark_dirty (set_page pager m emptied.0) m)
  unfolding delete_loop
  delete_loop-emptied fuel =
      let over : (emptied.0.link == 0) ≡ true = ground (arith, emptied.4) in
      rw (emptied.1, delete_loop) (rw over refl)

pager_mark_dirty-IsCached :
    (pager : Pager) (n m : ℕ) → IsCached pager m → IsCached (pager_mark_dirty pager n) m
unfolding pager_mark_dirty deref
pager_mark_dirty-IsCached pager n m cached = cached

-- DELETE on the last leaf of a chain, `m`, that has `k + 1` rows, which all match: the walk of
-- `delete_command` ends there, with a pager in which the leaf has no cells. But a table scan in that
-- pager that stands at the end of the leaf `n` before it does not end: it gives the row of the last
-- cell that was deleted. Both leaves are cached.
pub delete_loop-table_scan_next :
    (test : RowTest) (pager : Pager) (table : Table) (n m k fuel depth row_size : ℕ)
    → 0 < fuel
    → n ≢ m
    → m ≢ 0
    → IsCached pager n
    → (deref pager n).node_type ≡ node_leaf
    → (deref pager n).link ≡ m
    → IsCached pager m
    → (deref pager m).num_cells ≡ suc k
    → (deref pager m).link ≡ 0
    → ((j : ℕ) → j < suc k → test ((deref pager m).leaf_cells j) ≡ some true)
    → (pager' : Pager) × (delete_loop fuel test pager m ≡ done pager')
      × ((deref pager' m).num_cells ≡ 0)
      × (cursor_next fuel
            (suc depth)
            table
            pager'
            (table_scan n (deref pager n).num_cells row_size false)
          ≡ done (
            pager',
            table_scan m 1 row_size false,
            some (deserialize_row (table_types pager' table) ((deref pager m).leaf_cells k).value),
          ))
delete_loop-table_scan_next test pager table n m k zero depth row_size enough apart m_some n_cached
      n_leaf next m_cached size last all =
    absurd (omega arith)
delete_loop-table_scan_next test pager table n m k (suc fuel) depth row_size enough apart m_some
      n_cached n_leaf next m_cached size last all =
    let (page, runs, none_left, first, chain) = emptied test pager m k size last all in
    let after = pager_mark_dirty (set_page pager m page) m in
    let n_after : deref after n ≡ deref pager n =
      deref-pager_mark_dirty _ m n ∙ deref-set_page_ne pager m page n apart in
    let m_after : deref after m ≡ page =
      deref-pager_mark_dirty _ m m ∙ deref-set_page_self pager m page in
    let keeps : (i : ℕ) → IsCached pager i → IsCached after i =
      λ i c. pager_mark_dirty-IsCached _ m i (set_page-IsCached pager m i page c) in
    let link_after : (deref after n).link ≡ m = ap (λ (p : Page). p.link) n_after ∙ next in
    let slot : (deref after (deref after n).link).leaf_cells 0 ≡ (deref pager m).leaf_cells k =
      ap (λ i. (deref after i).leaf_cells 0) link_after
      ∙ ap (λ (p : Page). p.leaf_cells 0) m_after
      ∙ first in
    let pulls =
      table_scan_next-behind (suc fuel) depth row_size table after (omega arith) n
        (keeps n n_cached) (ap (λ (p : Page). p.node_type) n_after ∙ n_leaf)
        (λ e. m_some (sym link_after ∙ e))
        (subst (IsCached after) (sym link_after) (keeps m m_cached)) in
    (
      after,
      delete_loop-emptied test pager m k size last all fuel,
      ap (λ (p : Page). p.num_cells) m_after ∙ none_left,
      ap
            (λ (p : Page).
              cursor_next (suc fuel) (suc depth) table after
                (table_scan n p.num_cells row_size false))
            (sym n_after)
          ∙ pulls
          ∙ ap₂
              (λ i (c : LeafCell). done (
                after,
                table_scan i 1 row_size false,
                some (deserialize_row (table_types after table) c.value),
              ))
              link_after slot,
    )
