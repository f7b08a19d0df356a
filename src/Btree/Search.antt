-- ===== src/Btree/Search.antt =====
-- `leaf_node_find` and `internal_node_find` of src/btree.c. Indices stay below 2 ^ 32: a node has
-- at most 510 cells.
pub mod Bound
use database_in_c.Prelude.{
  ℕ, zero, suc, ◌+◌, ◌-◌, ◌/◌, Bool, true, false, ltb, if◌then◌else◌, ℤ, ltb_ℤ, eqb_ℤ,
}
use database_in_c.Page.{Page}

-- The loop of both searches over the keys at [low, high), with fuel for the rounds. With fuel
-- `high - low` it ends by its test.
unfoldable pub find_loop : (ℕ → ℤ) → ℤ → ℕ → ℕ → ℕ → ℕ
find_loop keys key zero low high = low
find_loop keys key (suc fuel) low high =
    let mid = low + (high - low) / 2 in
    let right = find_loop keys key fuel (mid + 1) high in
    let left = find_loop keys key fuel low mid in
    if ltb low high
    then (if eqb_ℤ (keys mid) key then mid else if ltb_ℤ (keys mid) key then right else left)
    else low

unfoldable pub leaf_node_find : Page → ℤ → ℕ
unfolding find_loop
leaf_node_find page key =
    find_loop (λ i. (page.leaf_cells i).key) key page.num_cells 0 page.num_cells

unfoldable pub internal_node_find : Page → ℤ → ℕ
unfolding find_loop
internal_node_find page key =
    find_loop (λ i. (page.internal_cells i).key) key page.num_cells 0 page.num_cells
