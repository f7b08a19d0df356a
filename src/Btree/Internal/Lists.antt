-- ===== src/Btree/Internal/Lists.antt =====
-- `internal_node_insert` and `split_internal_node` of src/btree.c on the lists of keys and children
-- of a node.
use database_in_c.Prelude.{
  ℕ, suc, ◌+◌, ◌-◌, ◌<◌, ◌≤◌, ◌≡◌, refl, ap, ap₂, sym, ◌∙◌, false, List, ◌∷◌, ◌++◌, arith, leb,
  ◌==◌, if◌then◌else◌, ℤ, range, range-shift, range-append, subst,
}
use native.Mathlib.Nat.{zero-add}
use database_in_c.Page.{Page, internal_node_max_keys, internal_node_init}
use database_in_c.Pager.{Pager}
use database_in_c.Table.{command_success, deref}
use database_in_c.Table.Deref.{deref-set_page_self, deref-pager_mark_dirty}
use database_in_c.Btree.Search.{internal_node_find}
use database_in_c.Btree.Search.Bound.{IsSorted, Splits, internal_node_find-Splits}
use database_in_c.Btree.Internal.{
  insert_internal_cell, internal_node_insert, Spread, spread, middle, write_cells, left_half,
  right_half,
}

abbrev pub key_at : Page → ℕ → ℤ
key_at page i = (page.internal_cells i).key

-- The child left of key `i`, and behind the last key the rightmost one.
abbrev pub child_at : Page → ℕ → ℕ
child_at page i = if i == page.num_cells then page.link else (page.internal_cells i).child

abbrev pub keys_of : Page → List ℤ
keys_of page = range (key_at page) 0 page.num_cells

abbrev pub children_of : Page → List ℕ
children_of page = range (child_at page) 0 (page.num_cells + 1)

module _ {A : Type 0} (a b : ℕ → A) (c n : ℕ) (inside : c ≤ n) where
  -- An array with a value put in at `c`, as a list.
  range-put :
      ((k : ℕ) → k < c → b k ≡ a k)
      → ((k : ℕ) → k < n - c → b (c + 1 + k) ≡ a (c + k))
      → range b 0 (n + 1) ≡ range a 0 c ++ b c ∷ range a c (n - c)
  range-put before after =
      let e : n + 1 ≡ c + suc (n - c) = omega arith in
      let f : suc c ≡ c + 1 = omega arith in
      rw (e, range-append b 0 c (suc (n - c)), zero-add)
        (ap₂ (λ l m. l ++ b c ∷ m) (range-shift b a 0 0 c λ k p. ground (arith, before k))
          (range-shift b a (suc c) c (n - c)
            λ k p. subst (λ i. b i ≡ a (c + k)) (ap (λ j. j + k) (sym f)) (after k p)))

  -- The value at `c` replaced by two.
  range-put_two :
      ((k : ℕ) → k < c → b k ≡ a k)
      → ((k : ℕ) → k < n - c → b (c + 2 + k) ≡ a (c + 1 + k))
      → range b 0 (n + 2) ≡ range a 0 c ++ b c ∷ b (c + 1) ∷ range a (c + 1) (n - c)
  range-put_two before after =
      let e : n + 2 ≡ c + suc (suc (n - c)) = omega arith in
      let f : suc c ≡ c + 1 = omega arith in
      let g : suc (suc c) ≡ c + 2 = omega arith in
      rw (e, range-append b 0 c (suc (suc (n - c))), zero-add)
        (ap₂ (λ l m. l ++ b c ∷ m) (range-shift b a 0 0 c λ k p. ground (arith, before k))
          (ap₂ (λ x m. x ∷ m) (ap b f)
            (range-shift b a (suc (suc c)) (c + 1) (n - c)
              λ k p. subst (λ i. b i ≡ a (c + 1 + k)) (ap (λ j. j + k) (sym g)) (after k p))))

-- A key and its two children put in at `c`: the keys and the children that the node then has.
abbrev pub put_keys : Page → ℕ → ℤ → List ℤ
put_keys page c key = range (key_at page) 0 c ++ key ∷ range (key_at page) c (page.num_cells - c)

abbrev pub put_children : Page → ℕ → ℕ → ℕ → List ℕ
put_children page c left right =
    range (child_at page) 0 c ++ left ∷ right ∷ range (child_at page) (c + 1) (page.num_cells - c)

module _ (page : Page) (c : ℕ) (key : ℤ) (left right : ℕ) (inside : c ≤ page.num_cells) where
  insert_internal_cell-keys :
      keys_of (insert_internal_cell page c key left right) ≡ put_keys page c key
  unfolding insert_internal_cell
  insert_internal_cell-keys =
      let n = page.num_cells in
      let new = insert_internal_cell page c key left right in
      let here : key_at new c ≡ key = ground arith in
      range-put (key_at page) (key_at new) c n inside (λ k p. ground arith) (λ k p. ground arith)
      ∙ ap (λ x. range (key_at page) 0 c ++ x ∷ range (key_at page) c (n - c)) here

  insert_internal_cell-children :
      children_of (insert_internal_cell page c key left right) ≡ put_children page c left right
  unfolding insert_internal_cell
  insert_internal_cell-children =
      let n = page.num_cells in
      let new = insert_internal_cell page c key left right in
      let here : child_at new c ≡ left = ground arith in
      let next : child_at new (c + 1) ≡ right = ground arith in
      let count : n + 1 + 1 ≡ n + 2 = omega arith in
      ap (λ m. range (child_at new) 0 m) count
      ∙ range-put_two (child_at page) (child_at new) c n inside (λ k p. ground arith)
          (λ k p. ground arith)
      ∙ ap₂ (λ x y. range (child_at page) 0 c ++ x ∷ y ∷ range (child_at page) (c + 1) (n - c)) here
          next

-- A node that was filled from index `from` of a spread.
abbrev pub IsFilled : Page → Spread → ℕ → ℕ → Type 0
IsFilled page temp from count =
    (page.num_cells ≡ count)
    × ((i : ℕ) → i < count → key_at page i ≡ temp.keys (from + i))
    × ((i : ℕ) → i < count + 1 → child_at page i ≡ temp.children (from + i))

keys_of-IsFilled :
    (page : Page) (temp : Spread) (from count : ℕ)
    → IsFilled page temp from count
    → keys_of page ≡ range temp.keys from count
keys_of-IsFilled page temp from count (size, keys, children) =
    ap (λ n. range (key_at page) 0 n) size
    ∙ range-shift (key_at page) temp.keys 0 from count λ k p. ground (arith, keys k p)

children_of-IsFilled :
    (page : Page) (temp : Spread) (from count : ℕ)
    → IsFilled page temp from count
    → children_of page ≡ range temp.children from (count + 1)
children_of-IsFilled page temp from count (size, keys, children) =
    ap (λ n. range (child_at page) 0 (n + 1)) size
    ∙ range-shift (child_at page) temp.children 0 from (count + 1)
        λ k p. ground (arith, children k p)

-- Two nodes filled one behind the other hold the spread, but for the key between them.
join-IsFilled :
    (l r : Page) (temp : Spread) (m n : ℕ)
    → IsFilled l temp 0 m
    → IsFilled r temp (m + 1) n
    → (keys_of l ++ temp.keys m ∷ keys_of r ≡ range temp.keys 0 (m + suc n))
      × (children_of l ++ children_of r ≡ range temp.children 0 ((m + 1) + (n + 1)))
join-IsFilled l r temp m n hl hr =
    let e : suc m ≡ m + 1 = omega arith in
    (
      rw
          (
            keys_of-IsFilled l temp 0 m hl,
            keys_of-IsFilled r temp (m + 1) n hr,
            range-append temp.keys 0 m (suc n),
            zero-add,
            e,
          )
          refl,
      rw
          (
            children_of-IsFilled l temp 0 m hl,
            children_of-IsFilled r temp (m + 1) n hr,
            range-append temp.children 0 (m + 1) (n + 1),
            zero-add,
          )
          refl,
    )

module _ (page : Page) (parent : ℕ) (temp : Spread) where
  pub left_half-IsFilled : IsFilled (left_half page parent temp) temp 0 middle
  unfolding left_half write_cells internal_node_init
  left_half-IsFilled = (refl, λ i p. ground arith, λ i p. ground arith)

  pub right_half-IsFilled :
      IsFilled (right_half page parent temp) temp (middle + 1) (internal_node_max_keys - middle)
  unfolding right_half write_cells internal_node_init
  right_half-IsFilled = (refl, λ i p. ground arith, λ i p. ground arith)

module _ (page : Page) (key : ℤ) (left right : ℕ) (full : page.num_cells ≡ internal_node_max_keys)
    (inside : internal_node_find page key ≤ page.num_cells) where
  abbrev place : ℕ
  place = internal_node_find page key

  abbrev temp : Spread
  temp = spread page key left right

  spread-keys : range temp.keys 0 (page.num_cells + 1) ≡ put_keys page place key
  unfolding spread
  spread-keys =
      let here : temp.keys place ≡ key = ground arith in
      range-put (key_at page) temp.keys place page.num_cells inside (λ k p. ground arith)
        (λ k p. ground arith)
      ∙ ap
          (λ x.
            range (key_at page) 0 place ++ x ∷ range (key_at page) place (page.num_cells - place))
          here

  spread-children : range temp.children 0 (page.num_cells + 2) ≡ put_children page place left right
  unfolding spread
  spread-children =
      let here : temp.children place ≡ left = ground arith in
      let next : temp.children (place + 1) ≡ right = ground arith in
      range-put_two (child_at page) temp.children place page.num_cells inside (λ k p. ground arith)
        (λ k p. ground arith)
      ∙ ap₂
          (λ x y.
            range (child_at page) 0 place
            ++ x ∷ y ∷ range (child_at page) (place + 1) (page.num_cells - place))
          here next

-- Into a cached node with room and ascending keys, `internal_node_insert` at the index that
-- `internal_node_find` gives succeeds: the index splits the keys at the new one, which is put in
-- there, and the child that stood there gives way to the two children, left and right of the key.
pub internal_node_insert-put :
    (pager : Pager) (n : ℕ) (key : ℤ) (left right : ℕ)
    → IsSorted (key_at (deref pager n)) (deref pager n).num_cells
    → (deref pager n).num_cells < internal_node_max_keys
    → let page = deref pager n in
      let c = internal_node_find page key in
      let r = internal_node_insert pager n c key left right in
      (r.1 ≡ command_success)
      × Splits (key_at page) key page.num_cells c
      × (keys_of (deref r.0 n) ≡ put_keys page c key)
      × (children_of (deref r.0 n) ≡ put_children page c left right)
unfolding internal_node_insert
internal_node_insert-put pager n key left right sorted room =
    let page = deref pager n in
    let c = internal_node_find page key in
    let splits = internal_node_find-Splits page key sorted in
    let test : leb internal_node_max_keys page.num_cells ≡ false = ground arith in
    let new = insert_internal_cell page c key left right in
    rw (test, deref-pager_mark_dirty, deref-set_page_self pager n new)
      (
        refl,
        splits,
        insert_internal_cell-keys page c key left right splits.within,
        insert_internal_cell-children page c key left right splits.within,
      )

-- The halves that `split_internal_node` makes of a full node with ascending keys, on any two
-- pages: the keys of the left one, the key that is promoted and the keys of the right one are the
-- old keys with the new one put in, and their children are the old ones with the two new ones in
-- place of the one that was split.
pub spread-halves :
    (page l r : Page) (parent parent' : ℕ) (key : ℤ) (left right : ℕ)
    → IsSorted (key_at page) page.num_cells
    → page.num_cells ≡ internal_node_max_keys
    → let temp = spread page key left right in
      let c = internal_node_find page key in
      let low = left_half l parent temp in
      let high = right_half r parent' temp in
      (keys_of low ++ temp.keys middle ∷ keys_of high ≡ put_keys page c key)
      × (children_of low ++ children_of high ≡ put_children page c left right)
spread-halves page l r parent parent' key left right sorted full =
    let temp = spread page key left right in
    let within = (internal_node_find-Splits page key sorted).within in
    let (keys, children) =
      join-IsFilled (left_half l parent temp) (right_half r parent' temp) temp middle
        (internal_node_max_keys - middle) (left_half-IsFilled l parent temp)
        (right_half-IsFilled r parent' temp) in
    let all_keys : middle + suc (internal_node_max_keys - middle) ≡ page.num_cells + 1 =
      omega arith in
    let all_children : (middle + 1) + (internal_node_max_keys - middle + 1) ≡ page.num_cells + 2 =
      omega arith in
    (
      keys ∙ ap (λ m. range temp.keys 0 m) all_keys ∙ spread-keys page key left right full within,
      children
          ∙ ap (λ m. range temp.children 0 m) all_children
          ∙ spread-children page key left right full within,
    )
