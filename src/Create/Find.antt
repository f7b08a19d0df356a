-- ===== src/Create/Find.antt =====
-- The catalog behind `create_table` of src/table.c.
use database_in_c.Prelude.{
  ℕ, zero, suc, ◌+◌, ◌<◌, ◌≤◌, ◌≡◌, ◌≢◌, refl, Bool, true, false, List, [], ◌∷◌, ◌++◌, some, arith,
  length, replicate, update, All, ap, ◌∙◌, sym, take, drop, take-append, ltb, leb, Bool-cases, inl,
  inr, zero-add,
}
use database_in_c.Chars.{Bytes, eq_ignoring_case}
use database_in_c.Row.{strlen, overlay}
use database_in_c.Row.Strlen.{strlen-append, strlen-drop-replicate}
use database_in_c.Ast.{ColumnDefinition}
use database_in_c.Page.{
  Page, TableEntry, Catalog, column_name_size, max_catalog_tables, leaf_node_init,
}
use database_in_c.Catalog.{c_string, name_is, first_index, catalog_node_find_table}
use database_in_c.Pager.{Pager, pager_allocate_page, pager_get_page, set_page, pager_mark_dirty}
use database_in_c.Table.{command_success, catalog_of}
use database_in_c.Table.Deref.{deref-pager_mark_dirty, deref-set_page_self}
use database_in_c.Delete.{done}
use database_in_c.Create.{write_columns, named_entry, set_catalog, create_table}

first_index-found :
    (test : ℕ → Bool) (k i : ℕ)
    → ((j : ℕ) → i ≤ j → j < i + k → test j ≡ false)
    → test (i + k) ≡ true
    → first_index test i (k + 1) ≡ i + k
unfolding first_index
first_index-found test zero i below here =
    let e : i + 0 ≡ i = omega arith in
    let here' : test i ≡ true = ap test (sym e) ∙ here in rw here' (sym e)
first_index-found test (suc k) i below here =
    let e : i + 1 + k ≡ i + suc k = omega arith in
    let n : suc k + 1 ≡ suc (k + 1) = omega arith in
    let first : test i ≡ false = below i (omega arith) (omega arith) in
    let rest =
      first_index-found test k (i + 1) (λ j p q. below j (omega arith) (omega arith))
        (ap test e ∙ here) in
    rw (n, first) (rest ∙ e)

eq_ignoring_case_self : (s : Bytes) → eq_ignoring_case s s ≡ true
unfolding eq_ignoring_case
eq_ignoring_case_self [] = refl
eq_ignoring_case_self (c ∷ s) = ground (arith, eq_ignoring_case_self s)

name-write_columns :
    (i : ℕ) (columns : List ColumnDefinition) (entry : TableEntry)
    → (write_columns i columns entry).0.name ≡ entry.name
unfolding write_columns
name-write_columns i [] entry = refl
name-write_columns i (definition ∷ columns) entry =
    elim (Bool-cases (ltb column_name_size (length definition.name))) [
      | inl long ↦ rw long refl
      | inr fits ↦ rw fits (name-write_columns (i + 1) columns _)
    ]

-- A name without a NUL that fits into a field of zeros is read back from it.
name_is-overlay :
    (name : Bytes) → All (λ c. c ≢ 0) name → name_is name (overlay name (replicate 32 0)) ≡ true
unfolding name_is c_string
name_is-overlay name clean =
    let rest = drop (length name) (replicate 32 0) in
    let size : strlen (name ++ rest) ≡ length name =
      omega (arith, strlen-append name rest clean, strlen-drop-replicate (length name) 32) in
    let read : take (strlen (name ++ rest)) (name ++ rest) ≡ name =
      take-append name rest (strlen (name ++ rest)) size in
    ap (eq_ignoring_case name) read ∙ eq_ignoring_case_self name

whole-write_columns :
    (i : ℕ) (columns : List ColumnDefinition) (entry : TableEntry)
    → All (λ (d : ColumnDefinition). length d.name ≤ column_name_size) columns
    → (write_columns i columns entry).1 ≡ true
unfolding write_columns
whole-write_columns i [] entry h = refl
whole-write_columns i (definition ∷ columns) entry (h, hs) =
    let fits : ltb column_name_size (length definition.name) ≡ false = ground arith in
    rw fits (whole-write_columns (i + 1) columns _ hs)

-- The catalog with the entry `create_table` writes.
abbrev pub with_table : Pager → Bytes → List ColumnDefinition → Catalog
with_table pager name columns =
    let catalog = catalog_of pager in
    let n = catalog.num_tables in
    let named = named_entry (catalog.tables n) name pager.num_pages (length columns) in
    record {
      num_tables = n + 1;
      tables = update catalog.tables n (write_columns 0 columns named).0;
    }

find-with_table :
    (pager : Pager) (name : Bytes) (columns : List ColumnDefinition)
    → All (λ c. c ≢ 0) name
    → ((catalog_of pager).tables (catalog_of pager).num_tables).name ≡ replicate 32 0
    → ((i : ℕ)
        → i < (catalog_of pager).num_tables
        → name_is name ((catalog_of pager).tables i).name ≡ false)
    → catalog_node_find_table (with_table pager name columns) name ≡ (catalog_of pager).num_tables
unfolding catalog_node_find_table named_entry
find-with_table pager name columns clean empty absent =
    let n = (catalog_of pager).num_tables in
    let tables = (with_table pager name columns).tables in
    let named = named_entry ((catalog_of pager).tables n) name pager.num_pages (length columns) in
    let here : tables n ≡ (write_columns 0 columns named).0 = ground arith in
    let stored : (tables n).name ≡ overlay name (replicate 32 0) =
      ap (λ (entry : TableEntry). entry.name) here
      ∙ name-write_columns 0 columns named
      ∙ ap (overlay name) empty in
    let start : 0 + n ≡ n = zero-add n in
    first_index-found (λ i. name_is name (tables i).name) n 0
      (λ j p q.
        let other : tables j ≡ (catalog_of pager).tables j = ground arith in
        ap (λ (entry : TableEntry). name_is name entry.name) other ∙ absent j (omega arith))
      (ap (λ i. name_is name (tables i).name) start
        ∙ ap (name_is name) stored
        ∙ name_is-overlay name clean)
    ∙ start

-- CREATE TABLE of a name that no table has, with room in the catalog and in the cache, a name that
-- is shorter than its field, names of columns that fit, and an entry whose name is still zero, succeeds: the catalog has one
-- table more, and a lookup of the name finds the new one.
pub create_table-catalog_node_find_table :
    (pager pager₂ : Pager) (page : Page) (name : Bytes) (columns : List ColumnDefinition)
    → (catalog_of pager).num_tables < max_catalog_tables
    → pager_get_page (pager_allocate_page pager).0 (pager_allocate_page pager).1
      ≡ some (pager₂, page)
    → All (λ c. c ≢ 0) name
    → length name < column_name_size
    → All (λ (d : ColumnDefinition). length d.name ≤ column_name_size) columns
    → ((catalog_of pager).tables (catalog_of pager).num_tables).name ≡ replicate 32 0
    → ((i : ℕ)
        → i < (catalog_of pager).num_tables
        → name_is name ((catalog_of pager).tables i).name ≡ false)
    → (pager' : Pager) × (create_table pager name columns ≡ done (pager', command_success))
      × ((catalog_of pager').num_tables ≡ (catalog_of pager).num_tables + 1)
      × (catalog_node_find_table (catalog_of pager') name ≡ (catalog_of pager).num_tables)
unfolding create_table pager_allocate_page
create_table-catalog_node_find_table pager pager₂ page name columns room loads clean short fit empty
      absent =
    let n = (catalog_of pager).num_tables in
    let page_num = pager.num_pages in
    let complete = with_table pager name columns in
    let named = named_entry ((catalog_of pager).tables n) name page_num (length columns) in
    let pager₄ = set_catalog (set_page pager₂ page_num (leaf_node_init page)) complete in
    let pager' = pager_mark_dirty (pager_mark_dirty pager₄ 0) page_num in
    let roomy : leb max_catalog_tables n ≡ false = ground arith in
    let named_fits : ltb column_name_size (length name) ≡ false = ground arith in
    let whole = whole-write_columns 0 columns named fit in
    let same : catalog_of pager' ≡ complete =
      ap (λ (p : Page). p.catalog)
        (deref-pager_mark_dirty (pager_mark_dirty pager₄ 0) page_num 0
          ∙ deref-pager_mark_dirty pager₄ 0 0
          ∙ deref-set_page_self (set_page pager₂ page_num (leaf_node_init page)) 0 _) in
    (
      pager',
      rw (roomy, loads, named_fits, whole) refl,
      ap (λ (c : Catalog). c.num_tables) same,
      ap (λ c. catalog_node_find_table c name) same
          ∙ find-with_table pager name columns clean empty absent,
    )
