-- ===== src/Btree/Internal/Root.antt =====
-- `split_internal_node` of src/btree.c on a root that is full.
pub mod Children
use database_in_c.Prelude.{
  ℕ, suc, ◌+◌, ◌-◌, ◌<◌, ◌≤◌, ◌≡◌, ◌≢◌, refl, ap, ap₂, sym, ◌∙◌, true, false, Bool-cases, inl, inr,
  List, [], ◌∷◌, ◌++◌, arith, leb, ltb, ◌==◌, if◌then◌else◌, ℤ, some, subst, subst₂, zero-add,
}
use native.Mathlib.Decide.{dec_lt}
use database_in_c.Page.{Page, internal_node_max_keys, internal_node_init, zero_page, node_internal}
use database_in_c.Pager.{Pager, tables_max_pages, cache_page, set_page, pager_mark_dirty}
use database_in_c.Pager.Fresh.{
  IsFresh, pager_get_page-new, cache_page-IsFresh, num_pages-cache_page,
}
use database_in_c.Table.{command_success, deref}
use database_in_c.Table.Deref.{deref-set_page_self, deref-set_page_ne, deref-pager_mark_dirty}
use database_in_c.Btree.Search.{internal_node_find}
use database_in_c.Btree.Search.Bound.{IsSorted, Splits, internal_node_find-Splits}
use database_in_c.Btree.Internal.{
  Spread, spread, middle, left_half, right_half, root_over, adopt, split_internal_root,
  split_internal_node,
}
use database_in_c.Btree.Internal.Lists.{
  key_at, child_at, keys_of, children_of, put_keys, put_children, spread-halves, left_half-IsFilled,
  right_half-IsFilled,
}
use database_in_c.Btree.Internal.Adopt.{
  set_page-IsCached, cache_page-IsCached, AreCached, parent-adopt, adopt-others,
}
use database_in_c.Cursor.Scan.{IsCached}

-- A child of a spread is one of the two new ones or an old one.
pub spread-child :
    (P : ℕ → Type 0) (page : Page) (key : ℤ) (left right j : ℕ)
    → page.num_cells ≡ internal_node_max_keys
    → internal_node_find page key ≤ page.num_cells
    → P left
    → P right
    → ((i : ℕ) → i ≤ page.num_cells → P (child_at page i))
    → j < internal_node_max_keys + 2
    → P ((spread page key left right).children j)
unfolding spread
spread-child P page key left right j full within l r old inside =
    let c = internal_node_find page key in
    let children = (spread page key left right).children in
    elim (Bool-cases (j == c + 1)) [
      | inl e ↦ let at : children j ≡ right = ground (arith, e) in subst P (sym at) r
      | inr e ↦ elim (Bool-cases (j == c)) [
        | inl f ↦ let at : children j ≡ left = ground (arith, f) in subst P (sym at) l
        | inr f ↦ elim (Bool-cases (ltb j c)) [
          | inl g ↦
              let at : children j ≡ child_at page j = ground arith in
              subst P (sym at) (old j (ground arith))
          | inr g ↦
              let at : children j ≡ child_at page (j - 1) = ground arith in
              subst P (sym at) (old (j - 1) (ground arith))
        ]
      ]
    ]

module _ (pager : Pager) (root : ℕ) (key : ℤ) (left right : ℕ) (fresh : IsFresh pager)
    (room : pager.num_pages + 2 ≤ tables_max_pages) where
  abbrev page : Page
  page = deref pager root

  abbrev temp : Spread
  temp = spread page key left right

  abbrev left_num : ℕ
  left_num = pager.num_pages

  abbrev pager₁ : Pager
  pager₁ = cache_page pager left_num zero_page

  abbrev right_num : ℕ
  right_num = pager₁.num_pages

  abbrev pager₂ : Pager
  pager₂ = cache_page pager₁ right_num zero_page

  abbrev low : Page
  low = left_half zero_page root temp

  abbrev high : Page
  high = right_half zero_page root temp

  abbrev pager₃ : Pager
  pager₃ = set_page (set_page pager₂ left_num low) right_num high

  abbrev pub new_parent : ℕ → ℕ
  new_parent j = if leb j middle then left_num else right_num

  abbrev pager₄ : Pager
  pager₄ = (adopt (internal_node_max_keys + 2) 0 temp.children new_parent pager₃).0

  abbrev new_root : Page
  new_root = root_over (deref pager₄ root) (temp.keys middle) left_num right_num

  abbrev pager₅ : Pager
  pager₅ =
      pager_mark_dirty
        (pager_mark_dirty (pager_mark_dirty (set_page pager₄ root new_root) left_num) right_num)
        root

  pub right_num-next : right_num ≡ pager.num_pages + 1
  right_num-next = num_pages-cache_page pager zero_page

  pager₃-IsCached : (m : ℕ) → IsCached pager m → IsCached pager₃ m
  pager₃-IsCached m cached = set_page-IsCached _ right_num m high (
      set_page-IsCached pager₂ left_num m low (
        cache_page-IsCached pager₁ right_num m zero_page
          (cache_page-IsCached pager left_num m zero_page cached)))

  split_internal_root-runs :
      (adopt (internal_node_max_keys + 2) 0 temp.children new_parent pager₃).1 ≡ true
      → split_internal_root pager root temp ≡ (pager₅, command_success)
  unfolding split_internal_root
  split_internal_root-runs whole =
      let first = pager_get_page-new pager fresh (omega arith) in
      let second =
        pager_get_page-new pager₁ (cache_page-IsFresh pager fresh zero_page)
          (omega (arith, right_num-next)) in
      rw (first, split_internal_root) (rw (second, split_internal_root) (rw whole refl))

  pub deref-pager₅ : (m : ℕ) → deref pager₅ m ≡ deref (set_page pager₄ root new_root) m
  deref-pager₅ m =
      deref-pager_mark_dirty _ root m
      ∙ deref-pager_mark_dirty _ right_num m
      ∙ deref-pager_mark_dirty _ left_num m

  deref-left : deref pager₃ left_num ≡ low
  deref-left =
      deref-set_page_ne _ right_num high left_num (omega (arith, right_num-next))
      ∙ deref-set_page_self pager₂ left_num low

  deref-right : deref pager₃ right_num ≡ high
  deref-right = deref-set_page_self _ right_num high

-- Page `root` is an internal root over the internal nodes `left` and `right`, which hold the keys but
-- for the one between them, and the children, each with the node it is in as its parent.
pub record IsRootOverNodes (keys : List ℤ) (children : List ℕ) (pager : Pager) (root left right : ℕ)
    : Type 0 where
  pub promoted : ℤ
  pub root_type : (deref pager root).node_type ≡ node_internal
  pub root_flag : (deref pager root).is_root ≡ true
  pub root_keys : keys_of (deref pager root) ≡ promoted ∷ []
  pub root_children : children_of (deref pager root) ≡ left ∷ right ∷ []
  pub left_type : (deref pager left).node_type ≡ node_internal
  pub right_type : (deref pager right).node_type ≡ node_internal
  pub left_flag : (deref pager left).is_root ≡ false
  pub right_flag : (deref pager right).is_root ≡ false
  pub left_parent : (deref pager left).parent ≡ root
  pub right_parent : (deref pager right).parent ≡ root
  pub all_keys : keys_of (deref pager left) ++ promoted ∷ keys_of (deref pager right) ≡ keys
  pub all_children : children_of (deref pager left) ++ children_of (deref pager right) ≡ children
  pub dirty :
      (pager.page_dirty root ≡ true)
      × (pager.page_dirty left ≡ true)
      × (pager.page_dirty right ≡ true)

module _ (pager : Pager) (root : ℕ) (key : ℤ) (left right : ℕ) (fresh : IsFresh pager)
    (room : pager.num_pages + 2 ≤ tables_max_pages) (inside : root < pager.num_pages)
    (sorted : IsSorted (key_at (deref pager root)) (deref pager root).num_cells)
    (full : (deref pager root).num_cells ≡ internal_node_max_keys)
    (left_cached : IsCached pager left) (right_cached : IsCached pager right)
    (cached : (i : ℕ)
      → i ≤ (deref pager root).num_cells
      → IsCached pager (child_at (deref pager root) i)) where
  abbrev pub p₅ : Pager
  p₅ = pager₅ pager root key left right fresh room

  abbrev pub p₃ : Pager
  p₃ = pager₃ pager root key left right fresh room

  abbrev pub r_num : ℕ
  r_num = right_num pager root key left right fresh room

  abbrev spread_children : ℕ → ℕ
  spread_children = (spread (deref pager root) key left right).children

  abbrev parents : ℕ → ℕ
  parents = new_parent pager root key left right fresh room

  within : internal_node_find (deref pager root) key ≤ (deref pager root).num_cells
  within = (internal_node_find-Splits (deref pager root) key sorted).within

  spread-IsCached : (j : ℕ) → j < internal_node_max_keys + 2 → IsCached pager (spread_children j)
  spread-IsCached j p =
      spread-child (IsCached pager) (deref pager root) key left right j full within left_cached
        right_cached cached p

  below : (m : ℕ) → IsCached pager m → m < pager.num_pages
  below m (small, here) = elim (dec_lt m pager.num_pages) [
    | yes under ↦ under
    | no over ↦ absurd (ground (arith, here, fresh.uncached m (omega arith)))
  ]

  pub spread-AreCached : AreCached spread_children parents (internal_node_max_keys + 2) 0 p₃
  spread-AreCached i p =
      subst (λ j. IsCached p₃ (spread_children j)) (sym (zero-add i))
        (pager₃-IsCached pager root key left right fresh room (spread_children i)
          (spread-IsCached i p))

  old_child :
      (m : ℕ)
      → pager.num_pages ≤ m
      → (i : ℕ) → i < internal_node_max_keys + 2
      → m ≢ spread_children (0 + i)
  old_child m new i p e =
      let child = below (spread_children i) (spread-IsCached i p) in
      let same : m ≡ spread_children i = e ∙ ap spread_children (zero-add i) in omega arith

  pub left-kept : deref p₅ pager.num_pages ≡ low pager root key left right fresh room
  left-kept =
      let (ends, others) =
        adopt-others spread_children parents (internal_node_max_keys + 2) 0 p₃ spread-AreCached in
      deref-pager₅ pager root key left right fresh room pager.num_pages
      ∙ deref-set_page_ne _ root _ pager.num_pages (omega arith)
      ∙ others pager.num_pages (old_child pager.num_pages (omega arith))
      ∙ deref-left pager root key left right fresh room

  pub right-kept : deref p₅ r_num ≡ high pager root key left right fresh room
  right-kept =
      let next = right_num-next pager root key left right fresh room in
      let (ends, others) =
        adopt-others spread_children parents (internal_node_max_keys + 2) 0 p₃ spread-AreCached in
      deref-pager₅ pager root key left right fresh room r_num
      ∙ deref-set_page_ne _ root _ r_num (omega arith)
      ∙ others r_num (old_child r_num (omega arith))
      ∙ deref-right pager root key left right fresh room

  root-kept : deref p₅ root ≡ new_root pager root key left right fresh room
  root-kept = deref-pager₅ pager root key left right fresh room root ∙ deref-set_page_self _ root _

  split-IsRootOverNodes :
      IsRootOverNodes
        (put_keys (deref pager root) (internal_node_find (deref pager root) key) key)
        (put_children (deref pager root) (internal_node_find (deref pager root) key) left right)
        p₅
        root
        pager.num_pages
        r_num
  unfolding left_half right_half root_over internal_node_init pager_mark_dirty
  split-IsRootOverNodes =
      let (keys, children) =
        spread-halves (deref pager root) zero_page zero_page root root key left right sorted full in
      record {
        promoted = (spread (deref pager root) key left right).keys middle;
        root_type = ap (λ (p : Page). p.node_type) root-kept;
        root_flag = ap (λ (p : Page). p.is_root) root-kept;
        root_keys = ap keys_of root-kept;
        root_children = ap children_of root-kept;
        left_type = ap (λ (p : Page). p.node_type) left-kept;
        right_type = ap (λ (p : Page). p.node_type) right-kept;
        left_flag = ap (λ (p : Page). p.is_root) left-kept;
        right_flag = ap (λ (p : Page). p.is_root) right-kept;
        left_parent = ap (λ (p : Page). p.parent) left-kept;
        right_parent = ap (λ (p : Page). p.parent) right-kept;
        all_keys =
            ap₂
              (λ p q.
                keys_of p ++ (spread (deref pager root) key left right).keys middle ∷ keys_of q)
              left-kept right-kept
            ∙ keys;
        all_children = ap₂ (λ p q. children_of p ++ children_of q) left-kept right-kept ∙ children;
        dirty = (ground arith, ground arith, ground arith);
      }

  pub split_internal_node-runs :
      (fuel : ℕ)
      → (deref pager root).is_root ≡ true
      → split_internal_node (suc fuel) pager root key left right ≡ some (p₅, command_success)
  unfolding split_internal_node deref
  split_internal_node-runs fuel is_root =
      let (ends, others) =
        adopt-others spread_children parents (internal_node_max_keys + 2) 0 p₃ spread-AreCached in
      let runs = split_internal_root-runs pager root key left right fresh room ends in
      rw (is_root, split_internal_node) (ap some runs)

  pub left-child :
      (i : ℕ) → i < middle + 1 → child_at (deref p₅ pager.num_pages) i ≡ spread_children i
  left-child i p =
      ap (λ page. child_at page i) left-kept
      ∙ (left_half-IsFilled zero_page root (spread (deref pager root) key left right)).2 i p
      ∙ ap spread_children (zero-add i)

  pub right-child :
      (i : ℕ)
      → i < internal_node_max_keys - middle + 1
      → child_at (deref p₅ r_num) i ≡ spread_children (middle + 1 + i)
  right-child i p =
      ap (λ page. child_at page i) right-kept
      ∙ (right_half-IsFilled zero_page root (spread (deref pager root) key left right)).2 i p

  pub left-size : (deref p₅ pager.num_pages).num_cells ≡ middle
  left-size =
      ap (λ (p : Page). p.num_cells) left-kept
      ∙ (left_half-IsFilled zero_page root (spread (deref pager root) key left right)).0

  pub right-size : (deref p₅ r_num).num_cells ≡ internal_node_max_keys - middle
  right-size =
      ap (λ (p : Page). p.num_cells) right-kept
      ∙ (right_half-IsFilled zero_page root (spread (deref pager root) key left right)).0

  pub spread-parent :
      ((i k : ℕ) → i < k → k < internal_node_max_keys + 2 → spread_children i ≢ spread_children k)
      → (j : ℕ) → j < internal_node_max_keys + 2
      → spread_children j ≢ root
      → (deref p₅ (spread_children j)).parent ≡ parents j
  spread-parent apart j p other =
      let z : (i : ℕ) → 0 + i ≡ i = λ i. zero-add i in
      ap (λ (page : Page). page.parent)
        (deref-pager₅ pager root key left right fresh room (spread_children j)
          ∙ deref-set_page_ne _ root _ (spread_children j) other)
      ∙ subst
          (λ i.
            (deref (pager₄ pager root key left right fresh room) (spread_children i)).parent
            ≡ parents i)
          (z j)
          (parent-adopt spread_children parents (internal_node_max_keys + 2) 0 p₃ spread-AreCached
            (λ i k b q.
              subst₂ (λ i k. spread_children i ≢ spread_children k) (sym (z i)) (sym (z k))
                (apart i k b q))
            j p)

-- On a root that is a full internal node with ascending keys, with two free page numbers, and whose
-- children and the two new ones are cached, `split_internal_node` succeeds: the root page becomes a
-- root with one key over two new nodes, which are its children in order and all dirty; the keys of the
-- left node, the key of the root and the keys of the right one are the old keys with the new one put in
-- at the index that splits them at it, and the children of both nodes are the old ones with the two new
-- ones in place of the one at that index.
pub split_internal_node-IsRootOverNodes :
    (fuel : ℕ) (pager : Pager) (root : ℕ) (key : ℤ) (left right : ℕ)
    → IsFresh pager
    → root < pager.num_pages
    → pager.num_pages + 2 ≤ tables_max_pages
    → (deref pager root).is_root ≡ true
    → IsSorted (key_at (deref pager root)) (deref pager root).num_cells
    → (deref pager root).num_cells ≡ internal_node_max_keys
    → IsCached pager left
    → IsCached pager right
    → ((i : ℕ) → i ≤ (deref pager root).num_cells → IsCached pager (child_at (deref pager root) i))
    → (pager' : Pager) × (c : ℕ) × (split_internal_node (suc fuel) pager root key left right
        ≡ some (pager', command_success))
      × Splits (key_at (deref pager root)) key (deref pager root).num_cells c
      × IsRootOverNodes
          (put_keys (deref pager root) c key)
          (put_children (deref pager root) c left right)
          pager'
          root
          pager.num_pages
          (pager.num_pages + 1)
split_internal_node-IsRootOverNodes fuel pager root key left right fresh inside room is_root sorted
      full left_cached right_cached cached =
    let page = deref pager root in
    let c = internal_node_find page key in
    let pager' =
      p₅ pager root key left right fresh room inside sorted full left_cached right_cached cached in
    (
      pager',
      c,
      split_internal_node-runs pager root key left right fresh room inside sorted full left_cached
          right_cached cached fuel is_root,
      internal_node_find-Splits page key sorted,
      subst
          (IsRootOverNodes (put_keys page c key) (put_children page c left right) pager' root
            pager.num_pages)
          (right_num-next pager root key left right fresh room)
          (split-IsRootOverNodes pager root key left right fresh room inside sorted full left_cached
            right_cached cached),
    )
