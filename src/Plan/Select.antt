-- ===== src/Plan/Select.antt =====
-- The answer of src/command.c to a SELECT with columns and a condition.
use database_in_c.Prelude.{
  sym, subst, if◌then◌else◌, ℕ, ◌+◌, ◌<◌, ◌≡◌, refl, Bool, true, false, List, [], ◌∷◌, ◌++◌, Option,
  some, arith, length, length-map, map, All, ap, ◌∙◌, inl, inr, Bool-cases,
}
use mathlib.Core.Option
use database_in_c.Chars.{Bytes}
use database_in_c.Ast.{Expr, column, equals, literal_int, literal_string, literal_boolean, select}
use database_in_c.Row.{Value, Row, deserialize_row}
use database_in_c.Page.{LeafCell, TableEntry}
use database_in_c.Pager.{Pager}
use database_in_c.Catalog.{catalog_node_find_table, catalog_node_row_size, is_primary_key}
use database_in_c.Table.{Table, deref, catalog_of, table_types}
use database_in_c.Btree.Leaf.Insert.{cells_of}
use database_in_c.Where.{column_name_is, row_matches_where}
use database_in_c.Delete.{done}
use database_in_c.Cursor.{cursor_next, entry_of, project_column, project_columns}
use database_in_c.Cursor.Yields.{run_rows-Yields}
use database_in_c.Cursor.Filter.{keep_rows, length-keep_rows, filter-Yields, projection-Yields}
use database_in_c.Cursor.Scan.{IsCached, IsLeftmost, IsChain, table_scan-Yields}
use database_in_c.Plan.{
  build_plan, build_cursor, where_plan, has_column, validate_selected, validate_columns,
  select_rows, plan_table_scan, plan_filter, plan_projection,
}

project_column-has_column :
    (entry : TableEntry) (name : Bytes) (j : ℕ) (row : Row)
    → has_column entry name j (length row) ≡ true
    → (v : Value) × (project_column entry name j row ≡ some v)
unfolding has_column project_column
project_column-has_column entry name j [] h = absurd (ground arith)
project_column-has_column entry name j (v ∷ row) h =
    elim (Bool-cases (column_name_is name (entry.columns j).name)) [
      | inl hit ↦ (v, rw hit)
      | inr miss ↦
          let (u, e) = project_column-has_column entry name (j + 1) row (ground (arith, miss)) in
          (u, rw miss e)
    ]

-- Columns that `validate_columns` accepts are all found by `projection_next` in a row of the
-- table, so that no value of the projected row is left as it was.
pub project_columns-validate_selected :
    (entry : TableEntry) (row : Row) (columns : List Expr)
    → length row ≡ entry.column_count
    → validate_selected entry columns ≡ some true
    → (values : Row) × (project_columns entry row columns ≡ some values)
      × (length values ≡ length columns)
unfolding project_columns validate_selected
project_columns-validate_selected entry row [] size h = ([], refl, refl)
project_columns-validate_selected entry row (column name ∷ columns) size h =
    let step : Bool → Option Bool =
      λ b. if b then validate_selected entry columns else some false in
    elim (Bool-cases (has_column entry name 0 entry.column_count)) [
      | inl has ↦
          let (v, found) =
            project_column-has_column entry name 0 row
              (subst (λ n. has_column entry name 0 n ≡ true) (sym size) has) in
          let (values, rest, count) =
            project_columns-validate_selected entry row columns size (ap step (sym has) ∙ h) in
          (v ∷ values, rw (found, project_columns, rest) refl, omega arith)
      | inr lacks ↦
          let bad : some false ≡ some true = ap step (sym lacks) ∙ h in absurd (ground (arith, bad))
    ]
project_columns-validate_selected entry row (literal_int n ∷ columns) size h = absurd (ground arith)
project_columns-validate_selected entry row (literal_string t ∷ columns) size h =
    absurd (ground arith)
project_columns-validate_selected entry row (literal_boolean b ∷ columns) size h =
    absurd (ground arith)
project_columns-validate_selected entry row (equals l r ∷ columns) size h = absurd (ground arith)

module _ (fuel : ℕ) (table : Table) (pager : Pager) where
  abbrev table_num : ℕ
  table_num = catalog_node_find_table (catalog_of pager) table.table_name

  where_plan-filter :
      (name : Bytes) (value : Expr)
      → is_primary_key (catalog_of pager) table_num name ≡ false
      → where_plan pager table (some (equals (column name) value))
        ≡ some (
            plan_filter
              (plan_table_scan table.root_page_num
                (catalog_node_row_size (catalog_of pager) table_num))
              (equals (column name) value))
  unfolding where_plan
  where_plan-filter name value other = rw (other, where_plan) refl

  build_plan-filter :
      (table_name name : Bytes) (is_star : Bool) (value e : Expr) (columns : List Expr)
      → is_primary_key (catalog_of pager) table_num name ≡ false
      → build_plan pager table
          (select table_name is_star (e ∷ columns) (some (equals (column name) value)))
        ≡ some (
            plan_projection
              (plan_filter
                (plan_table_scan table.root_page_num
                  (catalog_node_row_size (catalog_of pager) table_num))
                (equals (column name) value))
              (e ∷ columns))
  unfolding build_plan
  build_plan-filter table_name name is_star value e columns other =
      ap (Option.map (λ child. plan_projection child (e ∷ columns)))
        (where_plan-filter name value other)

  -- Over a cached tree none of whose leaves behind the first is empty, a SELECT of valid columns
  -- with a condition on a column that is not the primary key returns, and gives the projections of
  -- the rows on which the condition holds, in the order of the leaves, and no other row; the
  -- condition and the projection are defined on the rows, and the fuel exceeds their number and the
  -- levels of the tree.
  pub select_rows-filter :
      (leaf levels : ℕ) (behind : List LeafCell) (table_name name : Bytes) (is_star : Bool)
      (value e : Expr) (columns : List Expr) (f : Row → Bool) (g : Row → Row)
      → IsCached pager table.root_page_num
      → IsLeftmost pager leaf table.root_page_num levels
      → IsChain pager leaf behind
      → let rows =
          map
            (λ cell. deserialize_row (table_types pager table) cell.value)
            (cells_of (deref pager leaf) ++ behind) in
        let condition = equals (column name) value in
        levels < fuel
        → length rows < fuel
        → is_primary_key (catalog_of pager) table_num name ≡ false
        → validate_columns (entry_of pager table) (e ∷ columns) (some condition) ≡ some true
        → All
            (λ row. row_matches_where (some condition) row (entry_of pager table) ≡ some (f row))
            rows
        → All
            (λ row. project_columns (entry_of pager table) row (e ∷ columns) ≡ some (g row))
            (keep_rows f rows)
        → select_rows fuel pager table (select table_name is_star (e ∷ columns) (some condition))
          ≡ done (pager, some (map g (keep_rows f rows)))
  unfolding select_rows build_cursor
  select_rows-filter leaf levels behind table_name name is_star value e columns f g cached down
        chain deep long other valid decided projected =
      let row_size = catalog_node_row_size (catalog_of pager) table_num in
      let scan =
        table_scan-Yields fuel 0 row_size table pager (omega arith) table.root_page_num leaf levels
          behind cached down deep chain in
      let filtered =
        filter-Yields fuel 1 table pager (equals (column name) value) f _ _ scan decided long in
      let all = projection-Yields fuel 2 table pager (e ∷ columns) g _ _ filtered projected in
      let count : length (map g (keep_rows f _)) < fuel =
        omega (arith, length-map {0} g (keep_rows f _), length-keep_rows f _, long) in
      let runs = run_rows-Yields fuel (cursor_next fuel 3 table) pager _ _ all count in
      rw (build_plan-filter table_name name is_star value e columns other, select_rows, valid, runs)
        refl
