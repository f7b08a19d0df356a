-- ===== src/Table/Deref.antt =====
-- Reading a page of src/pager.c's cache behind a write to it.
use database_in_c.Prelude.{ℕ, ◌≡◌, ◌≢◌, refl, true, arith}
use database_in_c.Page.{Page}
use database_in_c.Pager.{Pager, cache_page, set_page, pager_mark_dirty}
use database_in_c.Table.{deref}

module _ (pager : Pager) (n : ℕ) where
  pub deref-set_page_self : (page : Page) → deref (set_page pager n page) n ≡ page
  unfolding deref set_page
  deref-set_page_self page = ground arith

  pub deref-set_page_ne :
      (page : Page) (m : ℕ) → m ≢ n → deref (set_page pager n page) m ≡ deref pager m
  unfolding deref set_page
  deref-set_page_ne page m h = ground arith

  pub deref-pager_mark_dirty : (m : ℕ) → deref (pager_mark_dirty pager n) m ≡ deref pager m
  unfolding deref pager_mark_dirty
  deref-pager_mark_dirty m = refl

  pub page_dirty-pager_mark_dirty : (pager_mark_dirty pager n).page_dirty n ≡ true
  unfolding pager_mark_dirty
  page_dirty-pager_mark_dirty = ground arith

pub ruleset deref_laws = (deref-set_page_self, deref-pager_mark_dirty, page_dirty-pager_mark_dirty)

module _ (pager : Pager) (n : ℕ) (page : Page) where
  pub deref-cache_page_self : deref (cache_page pager n page) n ≡ page
  unfolding deref cache_page
  deref-cache_page_self = ground arith

  pub deref-cache_page_ne : (m : ℕ) → m ≢ n → deref (cache_page pager n page) m ≡ deref pager m
  unfolding deref cache_page
  deref-cache_page_ne m h = ground arith

  pub num_pages-set_page : (set_page pager n page).num_pages ≡ pager.num_pages
  unfolding set_page
  num_pages-set_page = refl

pub num_pages-pager_mark_dirty :
    (pager : Pager) (n : ℕ) → (pager_mark_dirty pager n).num_pages ≡ pager.num_pages
unfolding pager_mark_dirty
num_pages-pager_mark_dirty pager n = refl
