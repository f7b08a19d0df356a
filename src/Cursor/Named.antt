-- ===== src/Cursor/Named.antt =====
-- `projection_next` of src/table.c: the values that stand in the columns with the names.
use database_in_c.Prelude.{
  ℕ, zero, suc, ◌+◌, ◌<◌, ◌≡◌, refl, true, false, List, [], ◌∷◌, none, some, arith, length,
  get_elem?, map, All, ap, ◌∙◌, sym, Option, zero-add,
}
use database_in_c.Chars.{Bytes}
use database_in_c.Ast.{Expr, as_column}
use database_in_c.Row.{Row, Value}
use database_in_c.Page.{TableEntry}
use database_in_c.Pager.{Pager}
use database_in_c.Table.{Table}
use database_in_c.Where.{column_name_is}
use database_in_c.Cursor.{
  Cursor, cursor_next, projection, project_column, project_columns, entry_of,
}
use database_in_c.Cursor.Yields.{Yields}
use database_in_c.Cursor.Filter.{projection-Yields}

-- Column `j` of the table is the first one with the name, and there is one.
abbrev pub IsColumn : TableEntry → Bytes → ℕ → Type 0
IsColumn entry name j =
    (j < entry.column_count)
    × (column_name_is name (entry.columns j).name ≡ true)
    × ((i : ℕ) → i < j → column_name_is name (entry.columns i).name ≡ false)

-- The expressions name the columns of the table with the numbers.
abbrev pub AreColumns : TableEntry → List Expr → List ℕ → Type 0
AreColumns entry [] [] = Unit
AreColumns entry (e ∷ columns) (j ∷ places) =
    ((name : Bytes) × (as_column e ≡ some name) × IsColumn entry name j)
    × AreColumns entry columns places
AreColumns _ _ _ = ⊥

-- The values of a row at the places.
abbrev pub with_value : Option Value → Row → Row
with_value none values = values
with_value (some v) values = v ∷ values

abbrev pub values_at : Row → List ℕ → Row
values_at row [] = []
values_at row (j ∷ places) = with_value (get_elem? row j) (values_at row places)

project_column-place :
    (entry : TableEntry) (name : Bytes) (start k : ℕ) (row : Row)
    → k < length row
    → column_name_is name (entry.columns (start + k)).name ≡ true
    → ((i : ℕ) → i < k → column_name_is name (entry.columns (start + i)).name ≡ false)
    → (v : Value) × (get_elem? row k ≡ some v) × (project_column entry name start row ≡ some v)
unfolding project_column
project_column-place entry name start k [] inside here before = absurd (omega arith)
project_column-place entry name start zero (v ∷ row) inside here before =
    let same : start ≡ start + 0 = omega arith in
    let first : column_name_is name (entry.columns start).name ≡ true =
      ap (λ i. column_name_is name (entry.columns i).name) same ∙ here in
    (v, refl, rw (first, project_column) refl)
project_column-place entry name start (suc k) (v ∷ row) inside here before =
    let same : start ≡ start + 0 = omega arith in
    let first : column_name_is name (entry.columns start).name ≡ false =
      ap (λ i. column_name_is name (entry.columns i).name) same ∙ before 0 (omega arith) in
    let shift : (i : ℕ) → start + 1 + i ≡ start + suc i = λ i. omega arith in
    let (w, read, runs) =
      project_column-place entry name (start + 1) k row (omega arith)
        (ap (λ i. column_name_is name (entry.columns i).name) (shift k) ∙ here)
        (λ i p.
          ap (λ i. column_name_is name (entry.columns i).name) (shift i)
          ∙ before (suc i) (omega arith)) in
    (w, read, rw (first, project_column) runs)

project_columns-values_at :
    (entry : TableEntry) (row : Row) (columns : List Expr) (places : List ℕ)
    → length row ≡ entry.column_count
    → AreColumns entry columns places
    → project_columns entry row columns ≡ some (values_at row places)
unfolding project_columns
project_columns-values_at entry row [] [] size named = refl
project_columns-values_at entry row [] (j ∷ places) size named = absurd named
project_columns-values_at entry row (e ∷ columns) [] size named = absurd named
project_columns-values_at entry row (e ∷ columns) (j ∷ places) size
      ((name, eq, (inside, here, before)), named) =
    let from : (i : ℕ) → 0 + i ≡ i = λ i. zero-add i in
    let (v, read, runs) =
      project_column-place entry name 0 j row (omega arith)
        (ap (λ i. column_name_is name (entry.columns i).name) (from j) ∙ here)
        (λ i p. ap (λ i. column_name_is name (entry.columns i).name) (from i) ∙ before i p) in
    let rest = project_columns-values_at entry row columns places size named in
    rw (eq, project_columns, runs, rest)
      (ap (λ o. some (with_value o (values_at row places))) (sym read))

map-project_columns :
    (entry : TableEntry) (columns : List Expr) (places : List ℕ) (rows : List Row)
    → AreColumns entry columns places
    → All (λ row. length row ≡ entry.column_count) rows
    → All (λ row. project_columns entry row columns ≡ some (values_at row places)) rows
map-project_columns entry columns places [] named sizes = tt
map-project_columns entry columns places (row ∷ rows) named (size, sizes) = (
  project_columns-values_at entry row columns places size named,
  map-project_columns entry columns places rows named sizes,
)

-- If the expressions of a projection name columns of the table, each the first one with its name, and
-- the rows that its child yields have a value for each column of the table, a projection cursor yields
-- the rows of the values in the named columns, in the order of the expressions and of the rows.
pub projection-values_at :
    (fuel depth : ℕ) (table : Table) (pager : Pager) (columns : List Expr) (places : List ℕ)
    (child : Cursor) (rows : List Row)
    → AreColumns (entry_of pager table) columns places
    → All (λ row. length row ≡ (entry_of pager table).column_count) rows
    → Yields (cursor_next fuel depth table) pager child rows
    → Yields
        (cursor_next fuel (suc depth) table)
        pager
        (projection child columns)
        (map (λ row. values_at row places) rows)
projection-values_at fuel depth table pager columns places child rows named sizes yields =
    projection-Yields fuel depth table pager columns (λ row. values_at row places) child rows yields
      (map-project_columns (entry_of pager table) columns places rows named sizes)
