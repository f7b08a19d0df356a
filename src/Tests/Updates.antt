-- ===== src/Tests/Updates.antt =====
-- `update_command` of src/table.c and `pager_close` of src/pager.c on concrete cells and pages.
use database_in_c.Prelude.{
  ℕ, ◌+◌, ◌<◌, ◌≡◌, refl, true, false, Bool, some, [], ◌++◌, pos, eqb_ℤ, arith, replicate,
  if◌then◌else◌, drop, none, ◌==◌,
}
use database_in_c.Chars.{Bytes, codes}
use database_in_c.Ast.{literal_string, column_text}
use database_in_c.Row.{Value, text, strlen, read_value, value_bytes}
use database_in_c.Page.{LeafCell, page_size, zero_page}
use database_in_c.Pager.{Pager, pager_open, pager_close, pager_get_page, cache_page}
use database_in_c.Pager.Close.{pager_close-clean, pager_close-hole, pager_get_page-pager_close}
use database_in_c.Btree.Leaf.Insert.{leaf_cell}
use database_in_c.Update.{CellStep, keep_cell, write_cell, update_cells, update_value}
use database_in_c.Update.Cells.{update_cells-edited, update_value-tail}
use database_in_c.Tests.Trees.{pager_with, leaf_page}

abbrev numbered : ℕ → LeafCell
numbered i = leaf_cell (pos i) []

abbrev is_one : LeafCell → Bool
is_one cell = eqb_ℤ cell.key (pos 1)

abbrev one_step : LeafCell → CellStep
one_step cell = if is_one cell then write_cell (codes "x") else keep_cell

update_cells-edited_example :
    (out : ℕ → LeafCell) × (flag : Bool) × (update_cells one_step 3 0 numbered false
      ≡ some (out, flag, true))
    × ((j : ℕ)
        → j < 3
        → out j
          ≡ (if is_one (numbered j) then leaf_cell (numbered j).key (codes "x") else numbered j))
    × ((j : ℕ) → j < 3 → is_one (numbered j) ≡ true → flag ≡ true)
update_cells-edited_example =
    update_cells-edited one_step is_one (λ _. codes "x") (λ c. refl) numbered 3

abbrev alice : Bytes
alice = codes "alice" ++ replicate 250 0

-- 'bob' over 'alice' reads back as 'bobce'.
update_value-tail_example :
    (v : Value) × (update_value (text alice 5) (literal_string (codes "bob")) ≡ some (some v))
    × (read_value column_text (value_bytes v)
        ≡ text (codes "bob" ++ drop 3 alice) (3 + strlen (drop 3 alice)))
update_value-tail_example =
    update_value-tail alice (codes "bob") 5 refl (omega arith)
      ((λ e. ground arith), ((λ e. ground arith), ((λ e. ground arith), tt)))

-- Page 1 is in the file in full and is not dirty, page 2 is.
abbrev clean_pager : Pager
clean_pager = record (pager_with 1) {
  file = record { content = λ _. leaf_page 2; bytes_read = λ m. if m == 1 then page_size else 0 };
  pages = λ m. if m == 2 then some (leaf_page 1) else none;
  page_dirty = λ m. m == 2;
}

pager_close-clean_example :
    let opened = pager_open (pager_close clean_pager) 12288 in
    pager_get_page opened 1 ≡ some (cache_page opened 1 (leaf_page 2), leaf_page 2)
pager_close-clean_example =
    pager_close-clean clean_pager 1 (leaf_page 2) 12288 (omega arith) refl (refl, refl)
      (omega arith)

pager_close-hole_example :
    let opened = pager_open (pager_close clean_pager) 12288 in
    pager_get_page opened 0 ≡ some (cache_page opened 0 zero_page, zero_page)
pager_close-hole_example =
    pager_close-hole clean_pager 0 2 (leaf_page 1) 12288 refl refl (omega arith) (omega arith) refl
      refl (omega arith)

pager_get_page-pager_close_example :
    let opened = pager_open (pager_close (pager_with 1)) 8192 in
    pager_get_page opened 1 ≡ some (cache_page opened 1 (leaf_page 1), leaf_page 1)
pager_get_page-pager_close_example =
    pager_get_page-pager_close (pager_with 1) 1 (leaf_page 1) 8192 (omega arith) refl refl
      (omega arith)
