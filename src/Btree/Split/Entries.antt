-- ===== src/Btree/Split/Entries.antt =====
-- The buffer of `split_leaf_node` in src/btree.c: the cells of a full leaf with the new entry in
-- its place.
use native.Mathlib.Nat.{zero-add}
use database_in_c.Prelude.{
  ℕ, zero, suc, ◌+◌, ◌-◌, ◌<◌, ◌≤◌, ◌≡◌, ap, sym, ◌∙◌, List, [], ◌∷◌, ◌++◌, arith, ℤ, ltb_ℤ, ◌<ℤ◌,
  ◌≤ℤ◌, update, memmove, range, range-insert, range-shift, eq_of_parts, inl, inr, Bool-cases, subst,
  insert_cases,
}
use database_in_c.Ast.{ColumnType}
use database_in_c.Row.{Row, serialize_row, deserialize_row}
use database_in_c.Row.RoundTrip.{
  HasTypes, deserialize_row-serialize_row, serialize_row-deserialize_row,
}
use database_in_c.Page.{Page, LeafCell}
use database_in_c.Btree.Search.Bound.{Splits, leaf_key}
use database_in_c.Btree.Leaf.{NodeEntry, read_entries, shift_entries, insert_entry}
use database_in_c.Btree.Leaf.Insert.{
  IsLeaf, IsAbsent, leaf_cell, cells_of, insert_cell, insert_cell-range,
}

-- One more round moves one more entry.
memmove_further :
    (t : ℕ → NodeEntry) (n i j : ℕ)
    → i ≤ n
    → memmove (update t (suc n) (t n)) (i + 1) i (n - i) j ≡ memmove t (i + 1) i (suc n - i) j
memmove_further t n i j h = ground arith

memmove_none : (t : ℕ → NodeEntry) (n j : ℕ) → t j ≡ memmove t (n + 1) n (n - n) j
memmove_none t n j = ground arith

module _ (k : ℤ) where
  shift-le : (n : ℕ) (t : ℕ → NodeEntry) → (shift_entries n t k).1 ≤ n
  unfolding shift_entries
  shift-le zero t = omega arith
  shift-le (suc n) t = ground (arith, shift-le n (update t (suc n) (t n)))

  shift-memmove :
      (n : ℕ) (t : ℕ → NodeEntry) (j : ℕ)
      → let i = (shift_entries n t k).1 in (shift_entries n t k).0 j ≡ memmove t (i + 1) i (n - i) j
  unfolding shift_entries
  shift-memmove zero t j = ground arith
  shift-memmove (suc n) t j = elim (Bool-cases (ltb_ℤ k (t n).key)) [
    | inl more ↦ rw more (
        shift-memmove n (update t (suc n) (t n)) j
        ∙ memmove_further t n _ j (shift-le n (update t (suc n) (t n))))
    | inr stop ↦ rw stop (memmove_none t (suc n) j)
  ]

  shift-below :
      (n : ℕ) (t : ℕ → NodeEntry) (m : ℕ) → suc m ≡ (shift_entries n t k).1 → (t m).key ≤ℤ k
  unfolding shift_entries
  shift-below zero t m e = absurd (omega arith)
  shift-below (suc n) t m e =
      ground (arith, shift-below n (update t (suc n) (t n)) m, shift-le n (update t (suc n) (t n)))

  shift-above :
      (n : ℕ) (t : ℕ → NodeEntry) (j : ℕ) → (shift_entries n t k).1 ≤ j → j < n → k <ℤ (t j).key
  unfolding shift_entries
  shift-above zero t j p q = absurd (omega arith)
  shift-above (suc n) t j p q =
      ground (arith, shift-above n (update t (suc n) (t n)) j, shift-le n (update t (suc n) (t n)))

-- The cell that an entry is written to.
abbrev pub entry_cell : NodeEntry → LeafCell
entry_cell e = leaf_cell e.key (serialize_row e.row [])

insert_entry-update :
    (n : ℕ) (t : ℕ → NodeEntry) (k : ℤ) (row : Row) (j : ℕ)
    → let i = (shift_entries n t k).1 in
      insert_entry n t k row j
      ≡ update (memmove t (i + 1) i (n - i)) i (record { row = row; key = k }) j
unfolding insert_entry
insert_entry-update n t k row j = ground (arith, shift-memmove k n t j)

entry_cell-update :
    (t : ℕ → NodeEntry) (c m : ℕ) (e : NodeEntry) (j : ℕ)
    → entry_cell (update (memmove t (c + 1) c m) c e j)
      ≡ update (memmove (λ i. entry_cell (t i)) (c + 1) c m) c (entry_cell e) j
entry_cell-update t c m e j = ground arith

module _ (types : List ColumnType) (page : Page) (key : ℤ) (row : Row) (leaf : IsLeaf types page)
    (typed : HasTypes types row) (absent : IsAbsent key page) where
  abbrev old : ℕ → NodeEntry
  old = read_entries types page

  abbrev place : ℕ
  place = (shift_entries page.num_cells old key).1

  -- The loop stops where the search of `leaf_node_find` does.
  place-Splits : Splits (leaf_key page) key page.num_cells place
  unfolding read_entries
  place-Splits = record {
    within = shift-le key page.num_cells old;
    below = λ i p. ground (
      arith,
      shift-below key page.num_cells old (place - 1),
      shift-le key page.num_cells old,
      leaf.sorted i (place - 1),
      absent i,
      eq_of_parts (leaf_key page i) key,
    );
    above = λ i p q. ground (arith, shift-above key page.num_cells old i p q);
  }

  above_strictly : place < page.num_cells → key <ℤ leaf_key page place
  unfolding read_entries
  above_strictly p = shift-above key page.num_cells old place (omega arith) p

  -- A stored cell is read and written as itself.
  entry_cell-old : (i : ℕ) → i < page.num_cells → entry_cell (old i) ≡ page.leaf_cells i
  unfolding read_entries
  entry_cell-old i p =
      ap (λ v. leaf_cell (leaf_key page i) v)
        (serialize_row-deserialize_row types (page.leaf_cells i).value [] (leaf.stored i p)
          (omega arith))

  abbrev entry : NodeEntry
  entry = record { row = row; key = key }

  -- The cells of the buffer are the cells of the leaf with the new one inserted in order.
  pub insert_entry-insert_cell :
      range
        (λ i. entry_cell (insert_entry page.num_cells (read_entries types page) key row i))
        0
        (page.num_cells + 1)
      ≡ insert_cell (leaf_cell key (serialize_row row [])) (cells_of page)
  unfolding read_entries
  insert_entry-insert_cell =
      let n = page.num_cells in
      let r = place in
      let cells = λ (i : ℕ). entry_cell (old i) in
      let new = leaf_cell key (serialize_row row []) in
      let same =
        range-shift cells page.leaf_cells 0 0 n (λ k p. entry_cell-old (0 + k) (omega arith)) in
      range-shift _ (update (memmove cells (r + 1) r (n - r)) r new) 0 0 (n + 1) (λ k p.
        ap entry_cell (insert_entry-update n old key row (0 + k))
        ∙ entry_cell-update old r (n - r) entry (0 + k))
      ∙ range-insert cells r n new place-Splits.within
      ∙ sym (
          subst
            (λ x.
              insert_cell new (range cells 0 n) ≡ range cells 0 r ++ new ∷ range cells x (n - r))
            (zero-add r)
            (insert_cell-range cells new 0 r n place-Splits.within
              (λ j p q. place-Splits.below j (omega arith))
              (λ p. subst (λ x. key <ℤ leaf_key page x) (sym (zero-add r)) (above_strictly p))))
      ∙ ap (insert_cell new) same

  abbrev pub buffer : ℕ → NodeEntry
  buffer = insert_entry page.num_cells (read_entries types page) key row

  typed-old : (i : ℕ) → i < page.num_cells → HasTypes types (old i).row
  unfolding read_entries
  typed-old i p =
      let (size, (row', typed', same)) = leaf.stored i p in
      subst (λ v. HasTypes types (deserialize_row types v)) same
        (rw (deserialize_row-serialize_row types row' (page.leaf_cells i).value typed') typed')

  pub typed-buffer : (i : ℕ) → i < page.num_cells + 1 → HasTypes types (buffer i).row
  typed-buffer i p =
      rw (insert_entry-update page.num_cells old key row i)
        (elim (insert_cases old place page.num_cells entry i place-Splits.within) [
          | inl new ↦ rw new typed
          | inr (j, same, inside) ↦ rw same (typed-old j (inside p))
        ])

  pub sorted-buffer : (i j : ℕ) → i < j → j < page.num_cells + 1 → (buffer i).key <ℤ (buffer j).key
  unfolding read_entries
  sorted-buffer i j p q =
      let r = place in
      rw
        (
          insert_entry-update page.num_cells old key row i,
          insert_entry-update page.num_cells old key row j,
        )
        (ground (
          arith,
          place-Splits.within,
          leaf.sorted i j,
          leaf.sorted i (r + (j - (r + 1))),
          leaf.sorted (r + (i - (r + 1))) (r + (j - (r + 1))),
          place-Splits.below i,
          place-Splits.above (r + (j - (r + 1))),
          absent (r + (j - (r + 1))),
          eq_of_parts (leaf_key page (r + (j - (r + 1)))) key,
        ))
