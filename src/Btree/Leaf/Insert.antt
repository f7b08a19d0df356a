-- ===== src/Btree/Leaf/Insert.antt =====
-- `leaf_node_insert` of src/btree.c, at the index that `leaf_node_find` gives, inserts into the
-- sorted list of the leaf's cells.
use database_in_c.Prelude.{
  ℕ, zero, suc, ◌+◌, ◌-◌, ◌<◌, ◌≤◌, ◌≡◌, ◌≢◌, refl, ap, sym, ◌∙◌, true, false, List, [], ◌∷◌, ◌++◌,
  arith, length, leb, if◌then◌else◌, ℤ, ltb_ℤ, ◌<ℤ◌, memmove, range, range-insert, eq_of_parts, inl,
  inr, subst, lt→ltb, insert_cases,
}
use native.Mathlib.Nat.{zero-add}
use database_in_c.Chars.{Bytes}
use database_in_c.Ast.{ColumnType}
use database_in_c.Row.{Row, serialize_row, row_size}
use database_in_c.Row.RoundTrip.{HasTypes, IsStored, IsStored-serialize_row, serialize_row-fresh}
use database_in_c.Page.{Page, LeafCell, leaf_node_max_cells}
use database_in_c.Pager.{Pager}
use database_in_c.Table.{command_success, leaf_full_error, deref}
use database_in_c.Table.Deref.{
  deref-set_page_self, deref-set_page_ne, deref-pager_mark_dirty, page_dirty-pager_mark_dirty,
}
use database_in_c.Btree.Search.{leaf_node_find}
use database_in_c.Btree.Search.Bound.{IsSorted, Splits, leaf_key, leaf_node_find-Splits}
use database_in_c.Btree.Leaf.{insert_leaf_cell, leaf_node_insert}

abbrev pub leaf_cell : ℤ → Bytes → LeafCell
leaf_cell key value = record { key = key; value = value }

-- The cells of a leaf, in order.
abbrev pub cells_of : Page → List LeafCell
cells_of page = range page.leaf_cells 0 page.num_cells

-- The reference insertion into a list that ascends by key: before the first greater key.
pub insert_cell : LeafCell → List LeafCell → List LeafCell
insert_cell c [] = c ∷ []
insert_cell c (x ∷ xs) = if ltb_ℤ c.key x.key then c ∷ x ∷ xs else x ∷ insert_cell c xs

pub insert_cell-range :
    (cells : ℕ → LeafCell) (c : LeafCell) (i r n : ℕ)
    → r ≤ n
    → ((j : ℕ) → i ≤ j → j < i + r → (cells j).key <ℤ c.key)
    → (r < n → c.key <ℤ (cells (i + r)).key)
    → insert_cell c (range cells i n) ≡ range cells i r ++ c ∷ range cells (i + r) (n - r)
unfolding insert_cell
insert_cell-range cells c i zero zero h b a = refl
insert_cell-range cells c i zero (suc n) h b a =
    let e : i + 0 ≡ i = omega arith in
    let f : suc n - 0 ≡ suc n = omega arith in
    let test : ltb_ℤ c.key (cells i).key ≡ true =
      lt→ltb _ _ (subst (λ x. c.key <ℤ (cells x).key) e (a (omega arith))) in
    rw (test, e, f)
insert_cell-range cells c i (suc r) zero h b a = absurd (omega arith)
insert_cell-range cells c i (suc r) (suc n) h b a =
    let e : i + suc r ≡ suc i + r = omega arith in
    let f : suc n - suc r ≡ n - r = omega arith in
    let test : ltb_ℤ c.key (cells i).key ≡ false = ground (arith, b i) in
    let ih =
      insert_cell-range cells c (suc i) r n (omega arith) (λ j p q. b j (omega arith) (omega arith))
        (λ p. subst (λ x. c.key <ℤ (cells x).key) e (a (omega arith))) in
    rw (test, e, f) (ap (λ l. cells i ∷ l) ih)

-- A leaf that the code may hold for a table with the column types: its keys ascend, its rows are
-- rows of the table, and it is not over-full.
pub record IsLeaf (types : List ColumnType) (page : Page) : Type 0 where
  pub sorted : IsSorted (leaf_key page) page.num_cells
  pub fits : page.num_cells ≤ leaf_node_max_cells (row_size types)
  pub stored : (i : ℕ) → i < page.num_cells → IsStored types (page.leaf_cells i).value
  pub sized : (i : ℕ) → length (page.leaf_cells i).value ≤ row_size types

abbrev pub IsAbsent : ℤ → Page → Type 0
IsAbsent key page = (i : ℕ) → i < page.num_cells → leaf_key page i ≢ key

module _ (types : List ColumnType) (page : Page) (key : ℤ) (row : Row) (leaf : IsLeaf types page)
    (typed : HasTypes types row) (absent : IsAbsent key page) where
  splits : Splits (leaf_key page) key page.num_cells (leaf_node_find page key)
  splits = leaf_node_find-Splits page key leaf.sorted

  -- An absent key is strictly below the keys behind the index.
  above_strictly :
      (i : ℕ) → leaf_node_find page key ≤ i → i < page.num_cells → key <ℤ leaf_key page i
  above_strictly i p q =
      ground (arith, splits.above i p q, absent i q, eq_of_parts (leaf_key page i) key)

  fresh :
      (destination : Bytes)
      → length destination ≤ row_size types
      → serialize_row row destination ≡ serialize_row row []
  fresh destination h = serialize_row-fresh types row destination [] typed h (omega arith)

  -- The new list of cells is the old one with the new cell inserted in order.
  pub insert_leaf_cell-insert_cell :
      cells_of (insert_leaf_cell page (leaf_node_find page key) key row)
      ≡ insert_cell (leaf_cell key (serialize_row row [])) (cells_of page)
  unfolding insert_leaf_cell
  insert_leaf_cell-insert_cell =
      let r = leaf_node_find page key in
      let n = page.num_cells in
      let cells = page.leaf_cells in
      let d = (memmove cells (r + 1) r (n - r) r).value in
      let written = fresh d (ground (arith, leaf.sized r)) in
      range-insert cells r n (leaf_cell key (serialize_row row d)) splits.within
      ∙ ap (λ v. range cells 0 r ++ leaf_cell key v ∷ range cells r (n - r)) written
      ∙ sym (
          subst
            (λ x.
              insert_cell (leaf_cell key (serialize_row row [])) (range cells 0 n)
              ≡ range cells 0 r ++ leaf_cell key (serialize_row row []) ∷ range cells x (n - r))
            (zero-add r)
            (insert_cell-range cells (leaf_cell key (serialize_row row [])) 0 r n splits.within
              (λ j p q. splits.below j (omega arith))
              (λ p. above_strictly (0 + r) (omega arith) (omega arith))))

  IsStored-cell : IsStored types (serialize_row row [])
  IsStored-cell = IsStored-serialize_row types row typed

  insert_leaf_cell-IsLeaf :
      page.num_cells < leaf_node_max_cells (row_size types)
      → IsLeaf types (insert_leaf_cell page (leaf_node_find page key) key row)
  unfolding insert_leaf_cell
  insert_leaf_cell-IsLeaf room =
      let r = leaf_node_find page key in
      let n = page.num_cells in
      let d = (memmove page.leaf_cells (r + 1) r (n - r) r).value in
      let written = fresh d (ground (arith, leaf.sized r)) in
      let cases = λ (i : ℕ).
        insert_cases page.leaf_cells r n (leaf_cell key (serialize_row row d)) i splits.within in
      record {
        sorted = λ i j p q. ground (
          arith,
          splits.within,
          leaf.sorted i j,
          leaf.sorted i (r + (j - (r + 1))),
          leaf.sorted (r + (i - (r + 1))) (r + (j - (r + 1))),
          splits.below i,
          above_strictly (r + (j - (r + 1))),
        );
        fits = omega arith;
        stored = λ i p. elim (cases i) [
          | inl new ↦ rw (new, written) IsStored-cell
          | inr (j, old, inside) ↦ rw old (leaf.stored j (inside p))
        ];
        sized = λ i. elim (cases i) [
          | inl new ↦ rw (new, written) (omega (arith, IsStored-cell.0))
          | inr (j, old, inside) ↦ rw old (leaf.sized j)
        ];
      }

-- Both cases of `leaf_node_insert`, on a leaf with room and on a full one.
pub leaf_node_insert_lem :
    (types : List ColumnType) (pager : Pager) (page_num : ℕ) (key : ℤ) (row : Row)
    → IsLeaf types (deref pager page_num)
    → HasTypes types row
    → IsAbsent key (deref pager page_num)
    → let page = deref pager page_num in
      let r = leaf_node_insert pager page_num (leaf_node_find page key) key row (row_size types) in
      (page.num_cells < leaf_node_max_cells (row_size types)
        → (r.1 ≡ command_success)
          × (cells_of (deref r.0 page_num)
              ≡ insert_cell (leaf_cell key (serialize_row row [])) (cells_of page))
          × IsLeaf types (deref r.0 page_num)
          × (r.0.page_dirty page_num ≡ true)
          × ((m : ℕ) → m ≢ page_num → deref r.0 m ≡ deref pager m))
      × (leaf_node_max_cells (row_size types) ≤ page.num_cells → r ≡ (pager, leaf_full_error))
unfolding leaf_node_insert
leaf_node_insert_lem types pager page_num key row leaf typed absent =
    let page = deref pager page_num in
    let r = leaf_node_find page key in
    let new = insert_leaf_cell page r key row in
    (
      λ room.
          let test : leb (leaf_node_max_cells (row_size types)) page.num_cells ≡ false =
            ground arith in
          rw (test, deref-pager_mark_dirty, deref-set_page_self pager page_num new)
            (
              refl,
              insert_leaf_cell-insert_cell types page key row leaf typed absent,
              insert_leaf_cell-IsLeaf types page key row leaf typed absent room,
              page_dirty-pager_mark_dirty _ page_num,
              λ m ne. rw deref-pager_mark_dirty (deref-set_page_ne pager page_num new m ne),
            ),
      λ full.
          let test : leb (leaf_node_max_cells (row_size types)) page.num_cells ≡ true =
            ground arith in
          rw test,
    )

-- On a well-formed leaf with room and without the key, `leaf_node_insert` of a row of the column
-- types at the index that `leaf_node_find` gives succeeds: the cells become the old ones with the new cell inserted in order of the keys, the
-- page is again a leaf of the table and is dirty, and no other page changes.
pub leaf_node_insert-insert_cell :
    (types : List ColumnType) (pager : Pager) (page_num : ℕ) (key : ℤ) (row : Row)
    → IsLeaf types (deref pager page_num)
    → HasTypes types row
    → IsAbsent key (deref pager page_num)
    → (deref pager page_num).num_cells < leaf_node_max_cells (row_size types)
    → let page = deref pager page_num in
      let r = leaf_node_insert pager page_num (leaf_node_find page key) key row (row_size types) in
      (r.1 ≡ command_success)
      × (cells_of (deref r.0 page_num)
          ≡ insert_cell (leaf_cell key (serialize_row row [])) (cells_of page))
      × IsLeaf types (deref r.0 page_num)
      × (r.0.page_dirty page_num ≡ true)
      × ((m : ℕ) → m ≢ page_num → deref r.0 m ≡ deref pager m)
leaf_node_insert-insert_cell types pager page_num key row leaf typed absent room =
    (leaf_node_insert_lem types pager page_num key row leaf typed absent).0 room

-- A full leaf is refused, whatever the index and the key, and nothing changes.
pub leaf_node_insert-full :
    (pager : Pager) (page_num cell_num : ℕ) (key : ℤ) (row : Row) (row_size : ℕ)
    → leaf_node_max_cells row_size ≤ (deref pager page_num).num_cells
    → leaf_node_insert pager page_num cell_num key row row_size ≡ (pager, leaf_full_error)
unfolding leaf_node_insert
leaf_node_insert-full pager page_num cell_num key row row_size full =
    let test : leb (leaf_node_max_cells row_size) (deref pager page_num).num_cells ≡ true =
      ground arith in
    rw test
