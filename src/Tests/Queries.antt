-- ===== src/Tests/Queries.antt =====
-- The cursors of src/table.c and a SELECT on a table of users with two rows.
use database_in_c.Prelude.{
  ℕ, zero, suc, ◌<◌, ◌≡◌, refl, true, false, Bool, some, List, [], ◌∷◌, ◌++◌, length, arith, sym,
  subst, map, All,
}
use database_in_c.Chars.{codes}
use database_in_c.Ast.{Expr, column, equals, literal_boolean, select}
use database_in_c.Row.{Row, boolean, deserialize_row}
use database_in_c.Page.{LeafCell}
use database_in_c.Catalog.{name_is, catalog_node_find_table, is_primary_key, c_string}
use database_in_c.Table.{deref, table_types, catalog_of}
use database_in_c.Btree.Leaf.Insert.{cells_of}
use database_in_c.Where.{column_name_is, row_matches_where, value_matches}
use database_in_c.Delete.{done}
use database_in_c.Cursor.{cursor_next, table_scan, filter, projection, entry_of, project_columns}
use database_in_c.Cursor.Yields.{Yields}
use database_in_c.Cursor.Named.{AreColumns, values_at, projection-values_at}
use database_in_c.Cursor.Filter.{keep_rows, filter-Yields}
use database_in_c.Cursor.Scan.{at_leaf, table_scan-Yields}
use database_in_c.Plan.{select_rows, validate_columns, validate_selected}
use database_in_c.Plan.Select.{select_rows-filter, project_columns-validate_selected}
use database_in_c.Tests.Users.{
  user_slot, ann, bob, users_pager, users, users-IsCached, users-leaf, users-IsChain, stored_rows,
  stored_rows-users,
}

table_scan-Yields_example : Yields (cursor_next 5 1 users) users_pager (table_scan 1 0 264 false) (
    map
      (λ (cell : LeafCell). deserialize_row (table_types users_pager users) cell.value)
      (cells_of (deref users_pager 1) ++ []))
table_scan-Yields_example =
    table_scan-Yields 5 0 264 users users_pager (omega arith) 1 1 0 [] users-IsCached
      (at_leaf refl users-leaf) (omega arith) users-IsChain

users-scan : Yields (cursor_next 5 1 users) users_pager (table_scan 1 0 264 false) (ann ∷ bob ∷ [])
users-scan =
    subst (λ rows. Yields (cursor_next 5 1 users) users_pager (table_scan 1 0 264 false) rows)
      stored_rows-users
      (table_scan-Yields 5 0 264 users users_pager (omega arith) 1 1 0 [] users-IsCached
        (at_leaf refl users-leaf) (omega arith) users-IsChain)

abbrev pub active_condition : Expr
active_condition = equals (column (codes "ACTIVE")) (literal_boolean true)

abbrev pub is_active : Row → Bool
is_active (id ∷ name ∷ boolean b ∷ row) = b
is_active _ = false

abbrev pub name_column : List Expr
name_column = column (codes "Name") ∷ []

abbrev pub second_value : Row → Row
second_value (id ∷ name ∷ row) = name ∷ []
second_value _ = []

users-decided :
    All
      (λ row.
        row_matches_where (some active_condition) row (entry_of users_pager users)
        ≡ some (is_active row))
      (ann ∷ bob ∷ [])
unfolding row_matches_where deref catalog_node_find_table c_string value_matches
users-decided = (refl, (refl, tt))

users-projected :
    All
      (λ row.
        project_columns (entry_of users_pager users) row name_column ≡ some (second_value row))
      (ann ∷ [])
unfolding project_columns deref catalog_node_find_table c_string
users-projected = (refl, tt)

users-filter :
    Yields
      (cursor_next 5 2 users)
      users_pager
      (filter (table_scan 1 0 264 false) active_condition)
      (keep_rows is_active (ann ∷ bob ∷ []))
users-filter =
    filter-Yields 5 1 users users_pager active_condition is_active (table_scan 1 0 264 false)
      (ann ∷ bob ∷ []) users-scan users-decided (omega arith)

filter-Yields_example :
    Yields
      (cursor_next 5 2 users)
      users_pager
      (filter (table_scan 1 0 264 false) active_condition)
      (keep_rows is_active (ann ∷ bob ∷ []))
filter-Yields_example =
    filter-Yields 5 1 users users_pager active_condition is_active (table_scan 1 0 264 false)
      (ann ∷ bob ∷ []) users-scan users-decided (omega arith)

before-Name : (i : ℕ) → i < 1 → column_name_is (codes "Name") (user_slot i).name ≡ false
unfolding c_string name_is
before-Name zero p = refl
before-Name (suc i) p = absurd (omega arith)

name-AreColumns : AreColumns (entry_of users_pager users) name_column (1 ∷ [])
unfolding deref catalog_node_find_table c_string
name-AreColumns = ((codes "Name", refl, (omega arith, refl, before-Name)), tt)

users-sizes : All (λ row. length row ≡ (entry_of users_pager users).column_count) (ann ∷ bob ∷ [])
unfolding deref catalog_node_find_table c_string
users-sizes = (refl, (refl, tt))

projection-values_at_example :
    Yields
      (cursor_next 5 2 users)
      users_pager
      (projection (table_scan 1 0 264 false) name_column)
      (map (λ row. values_at row (1 ∷ [])) (ann ∷ bob ∷ []))
projection-values_at_example =
    projection-values_at 5 1 users users_pager name_column (1 ∷ []) (table_scan 1 0 264 false)
      (ann ∷ bob ∷ []) name-AreColumns users-sizes users-scan

users-valid : validate_selected (entry_of users_pager users) name_column ≡ some true
unfolding validate_selected deref catalog_node_find_table c_string
users-valid = refl

users-size : length ann ≡ (entry_of users_pager users).column_count
unfolding deref catalog_node_find_table c_string
users-size = refl

project_columns-validate_selected_example :
    (values : Row) × (project_columns (entry_of users_pager users) ann name_column ≡ some values)
    × (length values ≡ length name_column)
project_columns-validate_selected_example =
    project_columns-validate_selected (entry_of users_pager users) ann name_column users-size
      users-valid

pub active-other :
    is_primary_key
      (catalog_of users_pager)
      (catalog_node_find_table (catalog_of users_pager) (codes "Users"))
      (codes "ACTIVE")
    ≡ false
unfolding is_primary_key deref catalog_node_find_table c_string
active-other = refl

pub active-valid :
    validate_columns (entry_of users_pager users) name_column (some active_condition) ≡ some true
unfolding validate_columns deref catalog_node_find_table c_string
active-valid = refl

pub stored_rows-decided :
    All
      (λ row.
        row_matches_where (some active_condition) row (entry_of users_pager users)
        ≡ some (is_active row))
      stored_rows
stored_rows-decided =
    subst
      (All (λ row.
        row_matches_where (some active_condition) row (entry_of users_pager users)
        ≡ some (is_active row)))
      (sym stored_rows-users) users-decided

pub stored_rows-projected :
    All
      (λ row.
        project_columns (entry_of users_pager users) row name_column ≡ some (second_value row))
      (keep_rows is_active stored_rows)
unfolding keep_rows
stored_rows-projected =
    subst
      (λ rows.
        All
          (λ row.
            project_columns (entry_of users_pager users) row name_column ≡ some (second_value row))
          (keep_rows is_active rows))
      (sym stored_rows-users) users-projected

pub stored_rows-short : length stored_rows < 5
stored_rows-short = subst (λ rows. length rows < 5) (sym stored_rows-users) (omega arith)

-- SELECT Name FROM Users WHERE ACTIVE = true
select_rows-filter_example :
    select_rows 5 users_pager users
      (select (codes "Users") false name_column (some active_condition))
    ≡ done (users_pager, some (map second_value (keep_rows is_active stored_rows)))
select_rows-filter_example =
    select_rows-filter 5 users users_pager 1 0 [] (codes "Users") (codes "ACTIVE") false
      (literal_boolean true) (column (codes "Name")) [] is_active second_value users-IsCached
      (at_leaf refl users-leaf) users-IsChain (omega arith) stored_rows-short active-other
      active-valid stored_rows-decided stored_rows-projected
