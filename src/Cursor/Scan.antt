-- ===== src/Cursor/Scan.antt =====
-- `table_scan_next` of src/table.c on a tree whose pages are cached.
pub mod Chains
use database_in_c.Prelude.{
  ℕ, zero, suc, ◌+◌, ◌-◌, ◌<◌, ◌≤◌, ◌≡◌, ◌≢◌, refl, true, false, List, [], ◌∷◌, ◌++◌, none, some,
  arith, ◌==◌, ltb, leb, map, range, ap, subst, ◌∙◌, sym, zero-add,
}
use database_in_c.Row.{Row, deserialize_row}
use database_in_c.Page.{LeafCell, node_leaf, node_internal}
use database_in_c.Pager.{Pager, tables_max_pages, pager_get_page}
use database_in_c.Table.{Table, deref, table_types}
use database_in_c.Btree.Leaf.Insert.{cells_of}
use database_in_c.Delete.{done}
use database_in_c.Cursor.{
  Cursor, Pull, cursor_next, table_scan, table_scan_next, scan_descent, scan_leaf, scan_row,
}
use database_in_c.Cursor.Yields.{Yields, ends, gives}
pub use database_in_c.Cursor.Scan.Chains.{
  IsCached, pager_get_page-cached, IsChain, last_leaf, before_leaf, IsLeftmost, at_leaf, above,
  scan_descent-leftmost, scan_descent-here, chain-IsCached, leaf-IsChain,
}

module _ (fuel depth row_size : ℕ) (table : Table) (pager : Pager) where
  abbrev pub stored_row : LeafCell → Row
  stored_row cell = deserialize_row (table_types pager table) cell.value

  abbrev step : Pager → Cursor → Pull
  step = cursor_next fuel (suc depth) table

  abbrev at : ℕ → ℕ → Cursor
  at n c = table_scan n c row_size false

  step-scan_leaf :
      (n c leaf c' : ℕ)
      → IsCached pager n
      → scan_descent fuel pager n c ≡ done (pager, some (leaf, c'))
      → step pager (at n c)
        ≡ scan_leaf table row_size (at n c) (table_scan n c row_size true) pager leaf c'
  unfolding cursor_next table_scan_next
  step-scan_leaf n c leaf c' cached goes =
      rw (pager_get_page-cached pager n cached, table_scan_next, goes) refl

  module _ (cursor finished : Cursor) (n c : ℕ) where
    scan_leaf-row :
        c < (deref pager n).num_cells
        → scan_leaf table row_size cursor finished pager n c
          ≡ done (pager, at n (c + 1), some (stored_row ((deref pager n).leaf_cells c)))
    unfolding scan_leaf scan_row
    scan_leaf-row inside =
        let test : ltb c (deref pager n).num_cells ≡ true = ground arith in
        rw (test, scan_leaf) refl

    scan_leaf-next :
        (deref pager n).num_cells ≤ c
        → (deref pager n).link ≢ 0
        → IsCached pager (deref pager n).link
        → scan_leaf table row_size cursor finished pager n c
          ≡ done (
            pager,
            at (deref pager n).link 1,
            some (stored_row ((deref pager (deref pager n).link).leaf_cells 0)),
          )
    unfolding scan_leaf scan_row
    scan_leaf-next outside more cached =
        let test : ltb c (deref pager n).num_cells ≡ false = ground arith in
        let next : ((deref pager n).link == 0) ≡ false = ground arith in
        rw (test, scan_leaf, next, pager_get_page-cached pager _ cached) refl

    scan_leaf-end :
        (deref pager n).num_cells ≤ c
        → (deref pager n).link ≡ 0
        → scan_leaf table row_size cursor finished pager n c ≡ done (pager, finished, none)
    unfolding scan_leaf
    scan_leaf-end outside last =
        let test : ltb c (deref pager n).num_cells ≡ false = ground arith in
        let next : ((deref pager n).link == 0) ≡ true = ground arith in
        rw (test, scan_leaf, next) refl

module _ (fuel depth row_size : ℕ) (table : Table) (pager : Pager) (enough : 0 < fuel) where
  abbrev row_of : LeafCell → Row
  row_of = stored_row fuel depth row_size table pager

  abbrev Gives : ℕ → ℕ → List LeafCell → Type 0
  Gives n c cells =
      Yields (cursor_next fuel (suc depth) table) pager (table_scan n c row_size false)
        (map row_of cells)

  -- The place from which a pull looks at cell `c` of leaf `n`.
  abbrev Reaches : ℕ → ℕ → ℕ → ℕ → Type 0
  Reaches start j n c = scan_descent fuel pager start j ≡ done (pager, some (n, c))

  -- Whichever place leads behind the last cell of leaf `n`, the rows behind it are given.
  abbrev GivesBehind : ℕ → List LeafCell → Type 0
  GivesBehind n behind =
      (start j : ℕ)
      → IsCached pager start
      → Reaches start j n (deref pager n).num_cells
      → Gives start j behind

  within-leaf :
      (n k c : ℕ) (behind : List LeafCell)
      → IsCached pager n
      → (deref pager n).node_type ≡ node_leaf
      → c + k ≡ (deref pager n).num_cells
      → GivesBehind n behind
      → (start j : ℕ) → IsCached pager start
      → Reaches start j n c
      → Gives start j (range (deref pager n).leaf_cells c k ++ behind)
  within-leaf n zero c behind cached t e y start j here reach =
      let same : c ≡ (deref pager n).num_cells = omega arith in
      y start j here (reach ∙ ap (λ i. done (pager, some (n, i))) same)
  within-leaf n (suc k) c behind cached t e y start j here reach =
      let next : suc c ≡ c + 1 = omega arith in
      let tail =
        within-leaf n k (suc c) behind cached t (omega arith) y n (suc c) cached
          (scan_descent-here pager n (suc c) fuel t enough) in
      gives {cursor' = table_scan n (c + 1) row_size false}
        (step-scan_leaf fuel depth row_size table pager start j n c here reach
          ∙ scan_leaf-row fuel depth row_size table pager _ _ n c (omega arith))
        (subst (λ i. Gives n i (range (deref pager n).leaf_cells (suc c) k ++ behind)) next tail)

  behind-leaf : (n : ℕ) (behind : List LeafCell) → IsChain pager n behind → GivesBehind n behind
  behind-leaf n [] (last_leaf cached t last) start j here reach =
      ends {cursor' = table_scan start j row_size true} (
        step-scan_leaf fuel depth row_size table pager start j n _ here reach
        ∙ scan_leaf-end fuel depth row_size table pager _ _ n _ (omega arith) last)
  behind-leaf n behind (before_leaf {rest = rest} cached t more some_cell chain eq) start j here
        reach =
      let m = (deref pager n).link in
      let page = deref pager m in
      let leaf = leaf-IsChain chain in
      let tail =
        within-leaf m (page.num_cells - 1) 1 rest (chain-IsCached chain) leaf (omega arith)
          (behind-leaf m rest chain) m 1 (chain-IsCached chain)
          (scan_descent-here pager m 1 fuel leaf enough) in
      let shape : page.num_cells ≡ suc (page.num_cells - 1) = omega arith in
      let all : behind ≡ page.leaf_cells 0 ∷ range page.leaf_cells 1 (page.num_cells - 1) ++ rest =
        eq ∙ ap (λ i. range page.leaf_cells 0 i ++ rest) shape in
      subst (λ l. Gives start j l) (sym all)
        (gives {cursor' = table_scan m 1 row_size false}
          (step-scan_leaf fuel depth row_size table pager start j n _ here reach
            ∙ scan_leaf-next fuel depth row_size table pager _ _ n _ (omega arith) more
                (chain-IsCached chain))
          tail)

  -- Over a cached tree whose leftmost leaf is fewer levels down than the fuel, and none of whose
  -- leaves behind that one is empty, the cursor that `build_cursor` makes yields the rows of all
  -- cells in the order of the chain of leaves.
  pub table_scan-Yields :
      (root leaf levels : ℕ) (behind : List LeafCell)
      → IsCached pager root
      → IsLeftmost pager leaf root levels
      → levels < fuel
      → IsChain pager leaf behind
      → Yields (cursor_next fuel (suc depth) table) pager (table_scan root 0 row_size false) (
          map
            (λ cell. deserialize_row (table_types pager table) cell.value)
            (cells_of (deref pager leaf) ++ behind))
  table_scan-Yields root leaf levels behind cached down small chain =
      within-leaf leaf (deref pager leaf).num_cells 0 behind (chain-IsCached chain)
        (leaf-IsChain chain) (zero-add _) (behind-leaf leaf behind chain) root 0 cached
        (scan_descent-leftmost pager leaf root levels fuel down small)

  -- At the end of a leaf the scan takes the first slot of the next one, without a look at its number
  -- of cells.
  pub table_scan_next-behind :
      (n : ℕ)
      → IsCached pager n
      → (deref pager n).node_type ≡ node_leaf
      → (deref pager n).link ≢ 0
      → IsCached pager (deref pager n).link
      → cursor_next fuel
          (suc depth)
          table
          pager
          (table_scan n (deref pager n).num_cells row_size false)
        ≡ done (
          pager,
          table_scan (deref pager n).link 1 row_size false,
          some (
              deserialize_row
                (table_types pager table)
                ((deref pager (deref pager n).link).leaf_cells 0).value),
        )
  table_scan_next-behind n cached t more next =
      step-scan_leaf fuel depth row_size table pager n _ n _ cached
        (scan_descent-here pager n _ fuel t enough)
      ∙ scan_leaf-next fuel depth row_size table pager _ _ n _ (omega arith) more next
