-- ===== src/Tests/Lookups.antt =====
-- The lookup of a key and the scan behind a DELETE that empties a leaf, on a table of users with two rows.
use database_in_c.Prelude.{
  ℕ, zero, suc, true, ◌<◌, ◌≡◌, refl, false, some, none, [], ◌∷◌, pos, arith, ◌==◌, if◌then◌else◌,
}
use database_in_c.Row.{deserialize_row}
use database_in_c.Page.{node_leaf}
use database_in_c.Pager.{Pager}
use database_in_c.Table.{deref, table_types}
use database_in_c.Btree.Search.Bound.{leaf_key}
use database_in_c.Btree.Leaf.Insert.{IsAbsent}
use database_in_c.Btree.Descent.{leaf_node_for_key}
use database_in_c.Delete.{done, RowTest, where_test, delete_loop}
use database_in_c.Cursor.{cursor_next, table_scan, pk_lookup, entry_of}
use database_in_c.Cursor.Yields.{Yields}
use database_in_c.Cursor.Scan.{IsCached}
use database_in_c.Delete.Stale.{delete_loop-table_scan_next}
use database_in_c.Where.{row_matches_where}
use database_in_c.Cursor.Lookup.{pk_lookup-present, pk_lookup-absent}
use database_in_c.Tests.Users.{
  catalog_page, users_page, users_pager, users, users-IsCached, users-IsSorted,
}

users-key : leaf_node_for_key 5 users_pager 1 (pos 2) ≡ some (users_pager, some 1)
unfolding leaf_node_for_key deref
users-key = refl

second-inside : 1 < (deref users_pager 1).num_cells
unfolding deref
second-inside = omega arith

second-key : leaf_key (deref users_pager 1) 1 ≡ pos 2
unfolding deref
second-key = refl

pk_lookup-present_example :
    Yields (cursor_next 5 1 users) users_pager (pk_lookup 1 (pos 2) 264 false) (
      deserialize_row (table_types users_pager users) ((deref users_pager 1).leaf_cells 1).value
      ∷ [])
pk_lookup-present_example =
    pk_lookup-present 5 0 264 users users_pager 1 1 (pos 2) users-IsCached users-key users-IsSorted
      1 second-inside second-key

users-key_7 : leaf_node_for_key 5 users_pager 1 (pos 7) ≡ some (users_pager, some 1)
unfolding leaf_node_for_key deref
users-key_7 = refl

users-IsAbsent : IsAbsent (pos 7) (deref users_pager 1)
unfolding deref
users-IsAbsent zero p e = ground arith
users-IsAbsent (suc i) p e = ground arith

pk_lookup-absent_example :
    Yields (cursor_next 5 1 users) users_pager (pk_lookup 1 (pos 7) 264 false) []
pk_lookup-absent_example =
    pk_lookup-absent 5 0 264 users users_pager 1 1 (pos 7) users-IsCached users-key_7 users-IsSorted
      users-IsAbsent

-- Two leaves of users, in a chain.
abbrev chain_pager : Pager
chain_pager = record users_pager {
  pages = λ m.
      if m == 0
      then some catalog_page
      else if m == 1
      then some (users_page 1 2)
      else if m == 2
      then some (users_page 2 0)
      else none;
}

chain-IsCached : (m : ℕ) → m < 3 → IsCached chain_pager m
unfolding deref
chain-IsCached m inside = (omega arith, ground arith)

first-leaf : (deref chain_pager 1).node_type ≡ node_leaf
unfolding deref
first-leaf = refl

first-next : (deref chain_pager 1).link ≡ 2
unfolding deref
first-next = refl

last-size : (deref chain_pager 2).num_cells ≡ 2
unfolding deref
last-size = refl

last-next : (deref chain_pager 2).link ≡ 0
unfolding deref
last-next = refl

-- DELETE FROM users
abbrev every_user : RowTest
every_user = where_test (table_types chain_pager users) (entry_of chain_pager users) none

every_user-matches : (j : ℕ) → j < 2 → every_user ((deref chain_pager 2).leaf_cells j) ≡ some true
unfolding row_matches_where
every_user-matches j inside = refl

delete_loop-table_scan_next_example :
    (pager' : Pager) × (delete_loop 5 every_user chain_pager 2 ≡ done pager')
    × ((deref pager' 2).num_cells ≡ 0)
    × (cursor_next 5 1 users pager' (table_scan 1 (deref chain_pager 1).num_cells 264 false)
        ≡ done (
          pager',
          table_scan 2 1 264 false,
          some (
              deserialize_row
                (table_types pager' users)
                ((deref chain_pager 2).leaf_cells 1).value),
        ))
delete_loop-table_scan_next_example =
    delete_loop-table_scan_next every_user chain_pager users 1 2 1 5 0 264 (omega arith)
      (λ e. ground arith) (λ e. ground arith) (chain-IsCached 1 (omega arith)) first-leaf first-next
      (chain-IsCached 2 (omega arith)) last-size last-next every_user-matches
