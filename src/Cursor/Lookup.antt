-- ===== src/Cursor/Lookup.antt =====
-- `pk_lookup_next` of src/table.c on the leaf to which `leaf_node_for_key` descends.
use database_in_c.Prelude.{
  ℕ, suc, ◌<◌, ◌≡◌, refl, true, false, ◌&&◌, [], ◌∷◌, none, some, arith, ltb, ℤ, eqb_ℤ, ◌∙◌,
}
use database_in_c.Row.{deserialize_row}
use database_in_c.Page.{Page}
use database_in_c.Pager.{Pager}
use database_in_c.Table.{Table, deref, table_types}
use database_in_c.Btree.Search.{leaf_node_find}
use database_in_c.Btree.Search.Bound.{IsSorted, leaf_key, leaf_node_find-Splits}
use database_in_c.Btree.Leaf.Insert.{IsAbsent}
use database_in_c.Btree.Descent.{leaf_node_for_key}
use database_in_c.Delete.{done}
use database_in_c.Cursor.{Cursor, Pull, cursor_next, pk_lookup, pk_lookup_next, lookup_leaf}
use database_in_c.Cursor.Yields.{Yields, ends, gives}
use database_in_c.Cursor.Scan.{IsCached, pager_get_page-cached}

module _ (fuel depth row_size : ℕ) (table : Table) (pager : Pager) (root leaf : ℕ) (key : ℤ)
    (cached : IsCached pager root)
    (reaches : leaf_node_for_key fuel pager root key ≡ some (pager, some leaf))
    (sorted : IsSorted (leaf_key (deref pager leaf)) (deref pager leaf).num_cells) where
  abbrev page : Page
  page = deref pager leaf

  abbrev step : Pager → Cursor → Pull
  step = cursor_next fuel (suc depth) table

  abbrev finished : Cursor
  finished = pk_lookup root key row_size true

  step-finished : step pager finished ≡ done (pager, finished, none)
  unfolding cursor_next pk_lookup_next
  step-finished = refl

  step-lookup_leaf :
      step pager (pk_lookup root key row_size false) ≡ lookup_leaf table finished pager leaf key
  unfolding cursor_next pk_lookup_next
  step-lookup_leaf = rw (pager_get_page-cached pager root cached, pk_lookup_next, reaches) refl

  lookup_leaf-present :
      (i : ℕ)
      → i < page.num_cells
      → leaf_key page i ≡ key
      → lookup_leaf table finished pager leaf key
        ≡ done (
          pager,
          finished,
          some (deserialize_row (table_types pager table) (page.leaf_cells i).value),
        )
  unfolding lookup_leaf
  lookup_leaf-present i inside e =
      let found = leaf_node_find page key in
      let splits = leaf_node_find-Splits page key sorted in
      let place : found ≡ i =
        ground (arith, splits.below i, splits.above found, sorted found i, e, splits.within) in
      let test : (ltb i page.num_cells && eqb_ℤ (page.leaf_cells i).key key) ≡ true =
        ground (arith, e) in
      rw (place, test) refl

  lookup_leaf-absent :
      IsAbsent key page → lookup_leaf table finished pager leaf key ≡ done (pager, finished, none)
  unfolding lookup_leaf
  lookup_leaf-absent absent =
      let found = leaf_node_find page key in
      let test : (ltb found page.num_cells && eqb_ℤ (page.leaf_cells found).key key) ≡ false =
        ground (arith, absent found) in
      rw test refl

  -- Where the descent for the key leads over cached pages to a leaf with ascending keys that has
  -- the key, the cursor of a primary key lookup yields the row of that cell, once.
  pub pk_lookup-present :
      (i : ℕ)
      → i < page.num_cells
      → leaf_key page i ≡ key
      → Yields
          (cursor_next fuel (suc depth) table)
          pager
          (pk_lookup root key row_size false)
          (deserialize_row (table_types pager table) (page.leaf_cells i).value ∷ [])
  pk_lookup-present i inside e =
      gives {cursor' = finished} (step-lookup_leaf ∙ lookup_leaf-present i inside e)
        (ends {cursor' = finished} step-finished)

  -- Where the descent for the key leads over cached pages to a leaf with ascending keys that does
  -- not have the key, the cursor of a primary key lookup yields no row.
  pub pk_lookup-absent :
      IsAbsent key page
      → Yields (cursor_next fuel (suc depth) table) pager (pk_lookup root key row_size false) []
  pk_lookup-absent absent = ends {cursor' = finished} (step-lookup_leaf ∙ lookup_leaf-absent absent)
