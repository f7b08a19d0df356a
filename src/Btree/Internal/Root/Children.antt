-- ===== src/Btree/Internal/Root/Children.antt =====
-- The parents of the children behind a split of the root by `split_internal_node` of src/btree.c.
use database_in_c.Prelude.{
  ℕ, suc, ◌+◌, ◌-◌, ◌<◌, ◌≤◌, ◌≡◌, ◌≢◌, ap, sym, ◌∙◌, true, Bool-cases, inl, inr, ◌⊎◌, arith, ltb,
  ◌==◌, ℤ, some, subst,
}
use database_in_c.Page.{Page, internal_node_max_keys}
use database_in_c.Pager.{Pager, tables_max_pages}
use database_in_c.Pager.Fresh.{IsFresh}
use database_in_c.Table.{command_success, deref}
use database_in_c.Btree.Search.{internal_node_find}
use database_in_c.Btree.Search.Bound.{IsSorted, internal_node_find-Splits}
use database_in_c.Btree.Internal.{spread, split_internal_node, middle}
use database_in_c.Btree.Internal.Lists.{key_at, child_at}
use database_in_c.Btree.Internal.Root.{
  spread-child, p₅, spread-parent, left-child, right-child, left-size, right-size,
  split_internal_node-runs, right_num-next, new_parent, r_num,
}
use database_in_c.Cursor.Scan.{IsCached}

module _ (page : Page) (key : ℤ) (left right : ℕ) (full : page.num_cells ≡ internal_node_max_keys)
    (within : internal_node_find page key ≤ page.num_cells) where
  abbrev c : ℕ
  c = internal_node_find page key

  abbrev child : ℕ → ℕ
  child = (spread page key left right).children

  -- What stands at index `i` of the spread: an old child in front of the new ones, one of these, or an
  -- old child behind them.
  spread-kinds :
      (i : ℕ)
      → i < internal_node_max_keys + 2
      → ((i < c) × (child i ≡ child_at page i))
        ⊎ ((i ≡ c) × (child i ≡ left))
        ⊎ ((i ≡ c + 1) × (child i ≡ right))
        ⊎ ((c + 1 < i) × (child i ≡ child_at page (i - 1)))
  unfolding spread
  spread-kinds i inside = elim (Bool-cases (ltb i c)) [
    | inl before ↦ inl (ground arith, ground arith)
    | inr not_before ↦ elim (Bool-cases (i == c)) [
      | inl here ↦ inr (inl (ground arith, ground arith))
      | inr not_here ↦ elim (Bool-cases (i == c + 1)) [
        | inl next ↦ inr (inr (inl (ground arith, ground arith)))
        | inr not_next ↦ inr (inr (inr (ground arith, ground arith)))
      ]
    ]
  ]

  module _ (apart : (i k : ℕ) → i < k → k ≤ page.num_cells → child_at page i ≢ child_at page k)
      (left_place : (i : ℕ) → i ≤ page.num_cells → child_at page i ≡ left → i ≡ c)
      (right_new : (i : ℕ) → i ≤ page.num_cells → child_at page i ≢ right)
      (two : left ≢ right) where
    spread-distinct : (i k : ℕ) → i < k → k < internal_node_max_keys + 2 → child i ≢ child k
    spread-distinct i k below inside same = elim (spread-kinds i (omega arith)) [
      | inl (p, e) ↦ elim (spread-kinds k inside) [
        | inl (q, f) ↦ apart i k below (omega arith) (sym e ∙ same ∙ f)
        | inr (inl (q, f)) ↦
            let at = left_place i (omega arith) (sym e ∙ same ∙ f) in absurd (omega arith)
        | inr (inr (inl (q, f))) ↦ right_new i (omega arith) (sym e ∙ same ∙ f)
        | inr (inr (inr (q, f))) ↦ apart i (k - 1) (omega arith) (omega arith) (sym e ∙ same ∙ f)
      ]
      | inr (inl (p, e)) ↦ elim (spread-kinds k inside) [
        | inl (q, f) ↦ absurd (omega arith)
        | inr (inl (q, f)) ↦ absurd (omega arith)
        | inr (inr (inl (q, f))) ↦ two (sym e ∙ same ∙ f)
        | inr (inr (inr (q, f))) ↦
            let at = left_place (k - 1) (omega arith) (sym f ∙ sym same ∙ e) in absurd (omega arith)
      ]
      | inr (inr (inl (p, e))) ↦ elim (spread-kinds k inside) [
        | inl (q, f) ↦ absurd (omega arith)
        | inr (inl (q, f)) ↦ absurd (omega arith)
        | inr (inr (inl (q, f))) ↦ absurd (omega arith)
        | inr (inr (inr (q, f))) ↦ right_new (k - 1) (omega arith) (sym f ∙ sym same ∙ e)
      ]
      | inr (inr (inr (p, e))) ↦ elim (spread-kinds k inside) [
        | inl (q, f) ↦ absurd (omega arith)
        | inr (inl (q, f)) ↦ absurd (omega arith)
        | inr (inr (inl (q, f))) ↦ absurd (omega arith)
        | inr (inr (inr (q, f))) ↦
            apart (i - 1) (k - 1) (omega arith) (omega arith) (sym e ∙ same ∙ f)
      ]
    ]

-- Where the root's children, which are cached, are all different, and the new ones are cached, differ
-- from each other and from the old ones, but for the left one, which may be the child at the index
-- that the search for the key gives, and none is the root: behind the split of a full root with
-- ascending keys the parent of every child of a half is that half.
pub parent-split_internal_node :
    (fuel : ℕ) (pager : Pager) (root : ℕ) (key : ℤ) (left right : ℕ)
    → IsFresh pager
    → root < pager.num_pages
    → pager.num_pages + 2 ≤ tables_max_pages
    → (deref pager root).is_root ≡ true
    → IsSorted (key_at (deref pager root)) (deref pager root).num_cells
    → (deref pager root).num_cells ≡ internal_node_max_keys
    → IsCached pager left
    → IsCached pager right
    → ((i : ℕ) → i ≤ (deref pager root).num_cells → IsCached pager (child_at (deref pager root) i))
    → ((i k : ℕ)
        → i < k
        → k ≤ (deref pager root).num_cells
        → child_at (deref pager root) i ≢ child_at (deref pager root) k)
    → ((i : ℕ)
        → i ≤ (deref pager root).num_cells
        → child_at (deref pager root) i ≡ left
        → i ≡ internal_node_find (deref pager root) key)
    → ((i : ℕ) → i ≤ (deref pager root).num_cells → child_at (deref pager root) i ≢ right)
    → left ≢ right
    → left ≢ root
    → right ≢ root
    → ((i : ℕ) → i ≤ (deref pager root).num_cells → child_at (deref pager root) i ≢ root)
    → (pager' : Pager) × (split_internal_node (suc fuel) pager root key left right
        ≡ some (pager', command_success))
      × ((i : ℕ)
          → i ≤ (deref pager' pager.num_pages).num_cells
          → (deref pager' (child_at (deref pager' pager.num_pages) i)).parent ≡ pager.num_pages)
      × ((i : ℕ)
          → i ≤ (deref pager' (pager.num_pages + 1)).num_cells
          → (deref pager' (child_at (deref pager' (pager.num_pages + 1)) i)).parent
            ≡ pager.num_pages + 1)
parent-split_internal_node fuel pager root key left right fresh inside room is_root sorted full
      left_cached right_cached cached apart left_place right_new two left_root right_root no_root =
    let page = deref pager root in
    let pager' =
      p₅ pager root key left right fresh room inside sorted full left_cached right_cached cached in
    let next : r_num pager root key left right fresh room inside sorted full left_cached
          right_cached cached
        ≡ pager.num_pages + 1 =
      right_num-next pager root key left right fresh room in
    let within = (internal_node_find-Splits page key sorted).within in
    let parent : (j : ℕ)
        → j < internal_node_max_keys + 2
        → (deref pager' ((spread page key left right).children j)).parent
          ≡ new_parent pager root key left right fresh room j =
      λ j p.
        spread-parent pager root key left right fresh room inside sorted full left_cached
          right_cached cached
          (spread-distinct page key left right full within apart left_place right_new two) j p
          (spread-child (λ m. m ≢ root) page key left right j full within left_root right_root
            no_root p) in
    (
      pager',
      split_internal_node-runs pager root key left right fresh room inside sorted full left_cached
          right_cached cached fuel is_root,
      λ i p.
          let inside' : i < middle + 1 = omega (
            arith,
            p,
            left-size pager root key left right fresh room inside sorted full left_cached
                right_cached cached,
          ) in
          ap (λ m. (deref pager' m).parent)
            (left-child pager root key left right fresh room inside sorted full left_cached
              right_cached cached i inside')
          ∙ parent i (omega arith)
          ∙ ground arith,
      subst
          (λ n.
            (i : ℕ)
            → i ≤ (deref pager' n).num_cells
            → (deref pager' (child_at (deref pager' n) i)).parent ≡ n)
          next
          (λ i p.
            let inside' : i < internal_node_max_keys - middle + 1 = omega (
              arith,
              p,
              right-size pager root key left right fresh room inside sorted full left_cached
                  right_cached cached,
            ) in
            ap (λ m. (deref pager' m).parent)
              (right-child pager root key left right fresh room inside sorted full left_cached
                right_cached cached i inside')
            ∙ parent (middle + 1 + i) (omega arith)
            ∙ ground arith),
    )
