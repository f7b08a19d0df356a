-- ===== src/Btree/Search/Bound.antt =====
-- The binary searches of src/btree.c find the first key that is not below the one sought.
use database_in_c.Prelude.{
  ℕ, zero, suc, ◌+◌, ◌-◌, ◌/◌, ◌<◌, ◌≤◌, ◌≡◌, ltb, arith, ℤ, ltb_ℤ, eqb_ℤ, ◌<ℤ◌, ◌≤ℤ◌, Bool-cases,
  inl, inr, ◌↔◌,
}
use database_in_c.Page.{Page}
use database_in_c.Btree.Search.{find_loop, leaf_node_find, internal_node_find}

-- Keys at [0, n) strictly ascend.
abbrev pub IsSorted : (ℕ → ℤ) → ℕ → Type 0
IsSorted keys n = (i j : ℕ) → i < j → j < n → keys i <ℤ keys j

-- `r` splits the keys at [0, n) into those below `key` and those not below it.
pub record Splits (keys : ℕ → ℤ) (key : ℤ) (n r : ℕ) : Type 0 where
  pub within : r ≤ n
  pub below : (i : ℕ) → i < r → keys i <ℤ key
  pub above : (i : ℕ) → r ≤ i → i < n → key ≤ℤ keys i

module _ (keys : ℕ → ℤ) (key : ℤ) (n : ℕ) (sorted : IsSorted keys n) where
  find_loop-Splits :
      (fuel low high : ℕ)
      → low ≤ high
      → high ≤ n
      → high - low ≤ fuel
      → ((i : ℕ) → i < low → keys i <ℤ key)
      → ((i : ℕ) → high ≤ i → i < n → key ≤ℤ keys i)
      → Splits keys key n (find_loop keys key fuel low high)
  unfolding find_loop
  find_loop-Splits zero low high o w f b a = record {
    within = omega arith;
    below = b;
    above = λ i p. a i (omega arith);
  }
  find_loop-Splits (suc fuel) low high o w f b a = elim (Bool-cases (ltb low high)) [
    | inr end ↦
        rw end (record { within = omega arith; below = b; above = λ i p. a i (ground arith) })
    | inl more ↦
        let mid = low + (high - low) / 2 in
        let inside : (low ≤ mid) × (mid < high) = ground arith in
        elim (Bool-cases (eqb_ℤ (keys mid) key)) [
          | inl hit ↦
              rw (more, hit)
                (record {
                  within = omega arith;
                  below = λ i p. ground (arith, sorted i mid);
                  above = λ i p q. ground (arith, sorted mid i);
                })
          | inr miss ↦ elim (Bool-cases (ltb_ℤ (keys mid) key)) [
            | inl right ↦
                rw (more, miss, right)
                  (find_loop-Splits fuel (mid + 1) high (omega arith) w (omega arith)
                    (λ i p. ground (arith, sorted i mid)) a)
            | inr left ↦
                rw (more, miss, left)
                  (find_loop-Splits fuel low mid (omega arith) (omega arith) (omega arith) b
                    (λ i p q. ground (arith, sorted mid i)))
          ]
        ]
  ]

abbrev pub leaf_key : Page → ℕ → ℤ
leaf_key page i = (page.leaf_cells i).key

abbrev pub internal_key : Page → ℕ → ℤ
internal_key page i = (page.internal_cells i).key

-- On a leaf with ascending keys `leaf_node_find` returns the index that splits them at the key.
pub leaf_node_find-Splits :
    (page : Page) (key : ℤ)
    → IsSorted (leaf_key page) page.num_cells
    → Splits (leaf_key page) key page.num_cells (leaf_node_find page key)
unfolding leaf_node_find
leaf_node_find-Splits page key sorted =
    find_loop-Splits (leaf_key page) key page.num_cells sorted page.num_cells 0 page.num_cells
      (omega arith) (omega arith) (omega arith) (λ i p. absurd (omega arith))
      (λ i p q. absurd (omega arith))

-- On an internal node with ascending separators `internal_node_find` returns the index that splits
-- them at the key.
pub internal_node_find-Splits :
    (page : Page) (key : ℤ)
    → IsSorted (internal_key page) page.num_cells
    → Splits (internal_key page) key page.num_cells (internal_node_find page key)
unfolding internal_node_find
internal_node_find-Splits page key sorted =
    find_loop-Splits (internal_key page) key page.num_cells sorted page.num_cells 0 page.num_cells
      (omega arith) (omega arith) (omega arith) (λ i p. absurd (omega arith))
      (λ i p q. absurd (omega arith))

-- Only one index splits ascending keys at a key.
pub Splits-unique :
    (keys : ℕ → ℤ) (key : ℤ) (n r s : ℕ) → Splits keys key n r → Splits keys key n s → r ≡ s
Splits-unique keys key n r s p q = ground (arith, p.below s, p.above r, q.below r, q.above s)

-- The test of `insert_command` and `pk_lookup_next` behind the search: the key is in a leaf with
-- ascending keys exactly when the cell at the index found holds it.
pub leaf_node_find-present_iff :
    (page : Page) (key : ℤ)
    → IsSorted (leaf_key page) page.num_cells
    → ((leaf_node_find page key < page.num_cells) × (leaf_key page (leaf_node_find page key) ≡ key))
      ↔ ((i : ℕ) × (i < page.num_cells) × (leaf_key page i ≡ key))
leaf_node_find-present_iff page key sorted =
    let found = leaf_node_find page key in
    let splits = leaf_node_find-Splits page key sorted in
    (
      λ h. (found, h.0, h.1),
      λ (i, inside, e).
          let eq_found : i ≡ found =
            ground (arith, splits.below i, splits.above found, sorted found i, e, splits.within) in
          rw (← eq_found) (inside, e),
    )
