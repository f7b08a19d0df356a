-- ===== src/Btree/Split/Halves.antt =====
-- The two leaves that `split_leaf_node` of src/btree.c writes.
use database_in_c.Prelude.{
  ℕ, ◌+◌, ◌<◌, ◌≤◌, ◌≡◌, ap, ap₂, sym, ◌∙◌, true, List, [], ◌++◌, arith, length, ltb, ℤ, ◌<ℤ◌,
  range, range-append, range-shift, subst, subst₂, Bool-cases, inl, inr,
}
use database_in_c.Ast.{ColumnType}
use database_in_c.Row.{Row, serialize_row, row_size}
use database_in_c.Row.RoundTrip.{HasTypes, IsStored-serialize_row, serialize_row-fresh}
use database_in_c.Page.{Page, LeafCell, leaf_node_max_cells}
use database_in_c.Btree.Leaf.{NodeEntry, read_entries, insert_entry, write_entries}
use database_in_c.Btree.Leaf.Insert.{IsLeaf, IsAbsent, leaf_cell, cells_of, insert_cell}
use database_in_c.Btree.Split.Entries.{
  entry_cell, insert_entry-insert_cell, typed-buffer, sorted-buffer,
}

module _ (types : List ColumnType) (entries : ℕ → NodeEntry) (count : ℕ)
    (typed : (i : ℕ) → i < count → HasTypes types (entries i).row) (cells : ℕ → LeafCell)
    (sized : (i : ℕ) → length (cells i).value ≤ row_size types) where
  written : (i : ℕ) → i < count → write_entries count entries cells i ≡ entry_cell (entries i)
  unfolding write_entries
  written i p =
      let test : ltb i count ≡ true = ground arith in
      rw (
        test,
        serialize_row-fresh types (entries i).row (cells i).value [] (typed i p) (sized i)
            (omega arith),
      )

  written_sized : (i : ℕ) → length (write_entries count entries cells i).value ≤ row_size types
  written_sized i = elim (Bool-cases (ltb i count)) [
    | inl inside ↦
        let p : i < count = ground arith in
        rw (written i p)
          (omega (arith, (IsStored-serialize_row types (entries i).row (typed i p)).0))
    | inr outside ↦ unfold write_entries in rw outside (sized i)
  ]

  written_range :
      range (write_entries count entries cells) 0 count
      ≡ range (λ i. entry_cell (entries i)) 0 count
  written_range = range-shift _ _ 0 0 count (λ k p. written (0 + k) (omega arith))

-- The cells and the leaf that a half of the buffer makes, on a page whose old cells are no longer
-- than a row.
module _ (types : List ColumnType) (page : Page) (key : ℤ) (row : Row) (leaf : IsLeaf types page)
    (typed : HasTypes types row) (absent : IsAbsent key page) (n : ℕ) (full : page.num_cells ≡ n)
    (from count : ℕ) (inside : from + count ≤ n + 1)
    (fits : count ≤ leaf_node_max_cells (row_size types)) (cells : ℕ → LeafCell)
    (sized : (i : ℕ) → length (cells i).value ≤ row_size types) where
  abbrev entries : ℕ → NodeEntry
  entries i = insert_entry n (read_entries types page) key row (from + i)

  typed_entries : (i : ℕ) → i < count → HasTypes types (entries i).row
  typed_entries i p =
      subst (λ m. HasTypes types (insert_entry m (read_entries types page) key row (from + i)).row)
        full (typed-buffer types page key row leaf typed absent (from + i) (omega arith))

  sorted_entries : (i j : ℕ) → i < j → j < count → (entries i).key <ℤ (entries j).key
  sorted_entries i j p q =
      subst
        (λ m.
          (insert_entry m (read_entries types page) key row (from + i)).key
          <ℤ (insert_entry m (read_entries types page) key row (from + j)).key)
        full
        (sorted-buffer types page key row leaf typed absent (from + i) (from + j) (omega arith)
          (omega arith))

  at_cell :
      (half : Page)
      → half.leaf_cells ≡ write_entries count entries cells
      → (i : ℕ) → i < count
      → half.leaf_cells i ≡ entry_cell (entries i)
  at_cell half same i p =
      ap (λ (f : ℕ → LeafCell). f i) same
      ∙ written types entries count typed_entries cells sized i p

  pub half-IsLeaf :
      (half : Page)
      → half.num_cells ≡ count
      → half.leaf_cells ≡ write_entries count entries cells
      → IsLeaf types half
  half-IsLeaf half size same = record {
    sorted = λ i j p q.
        subst₂ (λ x y. x <ℤ y)
          (sym (ap (λ (c : LeafCell). c.key) (at_cell half same i (omega arith))))
          (sym (ap (λ (c : LeafCell). c.key) (at_cell half same j (omega arith))))
          (sorted_entries i j p (omega arith));
    fits = omega arith;
    stored = λ i p.
        rw (at_cell half same i (omega arith))
          (IsStored-serialize_row types (entries i).row (typed_entries i (omega arith)));
    sized = λ i. rw same (written_sized types entries count typed_entries cells sized i);
  }

  pub half-cells :
      (half : Page)
      → half.num_cells ≡ count
      → half.leaf_cells ≡ write_entries count entries cells
      → cells_of half ≡ range (λ i. entry_cell (entries i)) 0 count
  half-cells half size same =
      rw (size, same) (written_range types entries count typed_entries cells sized)

-- The halves [0, mid) and [mid, n + 1) of the buffer hold, one behind the other, the cells of the
-- full leaf with the new one inserted in order.
module _ (types : List ColumnType) (page : Page) (key : ℤ) (row : Row) (leaf : IsLeaf types page)
    (typed : HasTypes types row) (absent : IsAbsent key page) where
  pub halves-insert_cell :
      (n : ℕ) (full : page.num_cells ≡ n) (mid count : ℕ)
      → mid + count ≡ n + 1
      → let temp = insert_entry n (read_entries types page) key row in
        range (λ i. entry_cell (temp (0 + i))) 0 mid
          ++ range (λ i. entry_cell (temp (mid + i))) 0 count
        ≡ insert_cell (leaf_cell key (serialize_row row [])) (cells_of page)
  halves-insert_cell n full mid count h =
      let temp = insert_entry n (read_entries types page) key row in
      let list = λ (m : ℕ).
        range (λ i. entry_cell (insert_entry m (read_entries types page) key row i)) 0 (m + 1) in
      ap₂ (λ l m. l ++ m)
        (range-shift _ (λ i. entry_cell (temp i)) 0 0 mid
          λ k p. ap (λ i. entry_cell (temp i)) (omega arith))
        (range-shift _ (λ i. entry_cell (temp i)) 0 (0 + mid) count
          λ k p. ap (λ i. entry_cell (temp i)) (omega arith))
      ∙ sym (range-append (λ i. entry_cell (temp i)) 0 mid count)
      ∙ ap (range (λ i. entry_cell (temp i)) 0) h
      ∙ sym (ap list full)
      ∙ insert_entry-insert_cell types page key row leaf typed absent
