-- ===== src/Cursor/Scan/Chains.antt =====
-- The pages that `table_scan_next` of src/table.c walks: cached pages, the leftmost leaf below a
-- page, the chain of leaves behind it, and the descent of the scan to them.
use database_in_c.Prelude.{
  ℕ, zero, suc, ◌<◌, ◌≡◌, ◌≢◌, refl, false, List, [], ◌++◌, some, arith, leb,
}
use database_in_c.Page.{LeafCell, node_leaf, node_internal}
use database_in_c.Pager.{Pager, tables_max_pages, pager_get_page}
use database_in_c.Table.{deref}
use database_in_c.Btree.Leaf.Insert.{cells_of}
use database_in_c.Delete.{done}
use database_in_c.Cursor.{scan_descent}

-- A page number that the code may use and whose page is in the cache.
abbrev pub IsCached : Pager → ℕ → Type 0
IsCached pager n = (n < tables_max_pages) × (pager.pages n ≡ some (deref pager n))

pub pager_get_page-cached :
    (pager : Pager) (n : ℕ)
    → IsCached pager n
    → pager_get_page pager n ≡ some (pager, deref pager n)
unfolding pager_get_page
pager_get_page-cached pager n (inside, cached) =
    let small : leb tables_max_pages n ≡ false = ground arith in rw (small, cached)

-- Page `n` is a cached leaf, and `behind` are the cells of the leaves that its chain leads to,
-- none of which is empty.
pub data IsChain (pager : Pager) : ℕ → List LeafCell → Type 0 where
  last_leaf :
      {n : ℕ}
      → IsCached pager n
      → (deref pager n).node_type ≡ node_leaf
      → (deref pager n).link ≡ 0
      → IsChain pager n []
  before_leaf :
      {n : ℕ} {rest behind : List LeafCell}
      → IsCached pager n
      → (deref pager n).node_type ≡ node_leaf
      → (deref pager n).link ≢ 0
      → 0 < (deref pager (deref pager n).link).num_cells
      → IsChain pager (deref pager n).link rest
      → behind ≡ cells_of (deref pager (deref pager n).link) ++ rest
      → IsChain pager n behind

-- From page `n`, `levels` first children down, the leaf is `leaf`, over cached pages.
pub data IsLeftmost (pager : Pager) (leaf : ℕ) : ℕ → ℕ → Type 0 where
  at_leaf :
      {n levels : ℕ}
      → n ≡ leaf
      → (deref pager n).node_type ≡ node_leaf
      → IsLeftmost pager leaf n levels
  above :
      {n levels : ℕ}
      → (deref pager n).node_type ≡ node_internal
      → IsCached pager ((deref pager n).internal_cells 0).child
      → IsLeftmost pager leaf ((deref pager n).internal_cells 0).child levels
      → IsLeftmost pager leaf n (suc levels)

pub scan_descent-leftmost :
    (pager : Pager) (leaf n levels fuel : ℕ)
    → IsLeftmost pager leaf n levels
    → levels < fuel
    → scan_descent fuel pager n 0 ≡ done (pager, some (leaf, 0))
unfolding scan_descent
scan_descent-leftmost pager leaf n levels zero h b = absurd (omega arith)
scan_descent-leftmost pager leaf n levels (suc fuel) (at_leaf e t) b =
    rw (t, scan_descent) (rw e refl)
scan_descent-leftmost pager leaf n (suc levels) (suc fuel) (above t c h) b =
    rw
      (
        t,
        scan_descent,
        pager_get_page-cached pager _ c,
        scan_descent-leftmost pager leaf ((deref pager n).internal_cells 0).child levels fuel h
            (omega arith),
      )
      refl

pub scan_descent-here :
    (pager : Pager) (n c fuel : ℕ)
    → (deref pager n).node_type ≡ node_leaf
    → 0 < fuel
    → scan_descent fuel pager n c ≡ done (pager, some (n, c))
unfolding scan_descent
scan_descent-here pager n c zero t b = absurd (omega arith)
scan_descent-here pager n c (suc fuel) t b = rw (t, scan_descent) refl

pub chain-IsCached :
    {pager : Pager} {n : ℕ} {behind : List LeafCell} → IsChain pager n behind → IsCached pager n
chain-IsCached (last_leaf c t e) = c
chain-IsCached (before_leaf c t e f h eq) = c

pub leaf-IsChain :
    {pager : Pager} {n : ℕ} {behind : List LeafCell}
    → IsChain pager n behind
    → (deref pager n).node_type ≡ node_leaf
leaf-IsChain (last_leaf c t e) = t
leaf-IsChain (before_leaf c t e f h eq) = t
