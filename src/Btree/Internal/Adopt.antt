-- ===== src/Btree/Internal/Adopt.antt =====
-- The loop of `split_internal_node` in src/btree.c that gives children their new parent.
use database_in_c.Prelude.{
  ℕ, zero, suc, ◌+◌, ◌<◌, ◌≡◌, ◌≢◌, refl, Bool, true, arith, ◌∙◌, ap, sym, subst, subst₂,
}
use database_in_c.Page.{Page}
use database_in_c.Pager.{Pager, set_page, cache_page}
use database_in_c.Table.{deref}
use database_in_c.Table.Deref.{deref-set_page_self, deref-set_page_ne}
use database_in_c.Btree.Internal.{adopt}
use database_in_c.Cursor.Scan.{IsCached, pager_get_page-cached}

pub set_page-IsCached :
    (pager : Pager) (n m : ℕ) (page : Page) → IsCached pager m → IsCached (set_page pager n page) m
unfolding set_page deref
set_page-IsCached pager n m page (inside, cached) = (inside, ground (arith, cached))

pub cache_page-IsCached :
    (pager : Pager) (n m : ℕ) (page : Page)
    → IsCached pager m
    → IsCached (cache_page pager n page) m
unfolding cache_page deref
cache_page-IsCached pager n m page (inside, cached) = (inside, ground (arith, cached))

module _ (children new_parent : ℕ → ℕ) where
  -- The pager behind one round.
  abbrev adopted : Pager → ℕ → Pager
  adopted pager j =
      set_page pager (children j) (record (deref pager (children j)) { parent = new_parent j })

  -- The children from index `j` on are cached.
  abbrev pub AreCached : ℕ → ℕ → Pager → Type 0
  AreCached count j pager = (i : ℕ) → i < count → IsCached pager (children (j + i))

  from : (j : ℕ) → j + 0 ≡ j
  from j = omega arith

  shift : (j i : ℕ) → j + suc i ≡ j + 1 + i
  shift j i = omega arith

  adopt-adopted :
      (count j : ℕ) (pager : Pager)
      → AreCached (suc count) j pager
      → (adopt (suc count) j children new_parent pager
          ≡ adopt count (j + 1) children new_parent (adopted pager j))
        × AreCached count (j + 1) (adopted pager j)
  unfolding adopt
  adopt-adopted count j pager cached =
      let first : IsCached pager (children j) =
        subst (λ i. IsCached pager (children i)) (from j) (cached 0 (omega arith)) in
      (
        rw (pager_get_page-cached pager (children j) first, adopt) refl,
        λ i p.
            set_page-IsCached pager (children j) _ _
              (subst (λ i. IsCached pager (children i)) (shift j i) (cached (suc i) (omega arith))),
      )

  adopt-zero : (j : ℕ) (pager : Pager) → (adopt 0 j children new_parent pager).1 ≡ true
  unfolding adopt
  adopt-zero j pager = refl

  deref-adopt_zero :
      (j : ℕ) (pager : Pager) (m : ℕ)
      → deref (adopt 0 j children new_parent pager).0 m ≡ deref pager m
  unfolding adopt
  deref-adopt_zero j pager m = refl

  -- Over cached children the loop ends well, and a page that is none of them is as before.
  pub adopt-others :
      (count j : ℕ) (pager : Pager)
      → AreCached count j pager
      → ((adopt count j children new_parent pager).1 ≡ true)
        × ((m : ℕ)
            → ((i : ℕ) → i < count → m ≢ children (j + i))
            → deref (adopt count j children new_parent pager).0 m ≡ deref pager m)
  adopt-others zero j pager cached = (adopt-zero j pager, λ m apart. deref-adopt_zero j pager m)
  adopt-others (suc count) j pager cached =
      let (step, cached') = adopt-adopted count j pager cached in
      let (ends, others) = adopt-others count (j + 1) (adopted pager j) cached' in
      (
        ap (λ (r : Pager × Bool). r.1) step ∙ ends,
        λ m apart.
            ap (λ (r : Pager × Bool). deref r.0 m) step
            ∙ others m
                (λ i p. subst (λ i. m ≢ children i) (shift j i) (apart (suc i) (omega arith)))
            ∙ deref-set_page_ne pager (children j) _ m
                (subst (λ i. m ≢ children i) (from j) (apart 0 (omega arith))),
      )

  -- Behind the loop over cached children, of which no two are the same, the parent of each is the
  -- new one.
  pub parent-adopt :
      (count j : ℕ) (pager : Pager)
      → AreCached count j pager
      → ((i k : ℕ) → i < k → k < count → children (j + i) ≢ children (j + k))
      → (i : ℕ) → i < count
      → (deref (adopt count j children new_parent pager).0 (children (j + i))).parent
        ≡ new_parent (j + i)
  parent-adopt zero j pager cached apart i inside = absurd (omega arith)
  parent-adopt (suc count) j pager cached apart zero inside =
      let (step, cached') = adopt-adopted count j pager cached in
      let kept = (adopt-others count (j + 1) (adopted pager j) cached').1 (children j) (λ i p.
        subst₂ (λ i k. children i ≢ children k) (from j) (shift j i)
          (apart 0 (suc i) (omega arith) (omega arith))) in
      ap (λ i. (deref (adopt (suc count) j children new_parent pager).0 (children i)).parent)
        (from j)
      ∙ ap (λ (r : Pager × Bool). (deref r.0 (children j)).parent) step
      ∙ ap (λ (p : Page). p.parent) (kept ∙ deref-set_page_self pager (children j) _)
      ∙ ap new_parent (sym (from j))
  parent-adopt (suc count) j pager cached apart (suc i) inside =
      let (step, cached') = adopt-adopted count j pager cached in
      ap (λ (r : Pager × Bool). (deref r.0 (children (j + suc i))).parent) step
      ∙ subst
          (λ k.
            (deref (adopt count (j + 1) children new_parent (adopted pager j)).0
              (children k)).parent
            ≡ new_parent k)
          (sym (shift j i))
          (parent-adopt count (j + 1) (adopted pager j) cached'
            (λ i k p q.
              subst₂ (λ i k. children i ≢ children k) (shift j i) (shift j k)
                (apart (suc i) (suc k) (omega arith) (omega arith)))
            i (omega arith))
