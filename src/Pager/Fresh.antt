-- ===== src/Pager/Fresh.antt =====
-- New pages at the end of src/pager.c's cache: what `pager_get_page` gives for the page number
-- `num_pages`.
use database_in_c.Prelude.{ℕ, ◌+◌, ◌-◌, ◌*◌, ◌/◌, ◌<◌, ◌≤◌, ◌≡◌, false, arith, ltb, leb, some, none}
use database_in_c.Page.{Page, page_size, zero_page}
use database_in_c.Pager.{
  Pager, tables_max_pages, load_page, cache_page, pager_get_page, set_page, pager_mark_dirty,
}

-- No page is cached, and the file holds none, from `num_pages` on.
pub record IsFresh (pager : Pager) : Type 0 where
  pub uncached : (m : ℕ) → pager.num_pages ≤ m → pager.pages m ≡ none
  pub beyond : pager.file_length ≤ page_size * pager.num_pages

-- Where no page is cached and the file holds none from `num_pages` on, and that number is below the
-- limit, `pager_get_page` of it gives a zero page and caches it.
pub pager_get_page-new :
    (pager : Pager)
    → IsFresh pager
    → pager.num_pages < tables_max_pages
    → pager_get_page pager pager.num_pages
      ≡ some (cache_page pager pager.num_pages zero_page, zero_page)
unfolding pager_get_page load_page
pager_get_page-new pager fresh room =
    let small : leb tables_max_pages pager.num_pages ≡ false = ground arith in
    let empty = fresh.uncached pager.num_pages (omega arith) in
    let outside : ltb pager.num_pages ((pager.file_length + page_size - 1) / page_size) ≡ false =
      ground (arith, fresh.beyond) in
    rw (small, empty, outside)

module _ (pager : Pager) (fresh : IsFresh pager) where
  pub cache_page-IsFresh : (page : Page) → IsFresh (cache_page pager pager.num_pages page)
  unfolding cache_page
  cache_page-IsFresh page = record {
    uncached = λ m p. ground (arith, fresh.uncached m);
    beyond = ground (arith, fresh.beyond);
  }

  pub set_page-IsFresh :
      (n : ℕ) (page : Page) → n < pager.num_pages → IsFresh (set_page pager n page)
  unfolding set_page
  set_page-IsFresh n page h = record {
    uncached = λ m p. ground (arith, fresh.uncached m);
    beyond = fresh.beyond;
  }

  pub pager_mark_dirty-IsFresh : (n : ℕ) → IsFresh (pager_mark_dirty pager n)
  unfolding pager_mark_dirty
  pager_mark_dirty-IsFresh n = record { uncached = fresh.uncached; beyond = fresh.beyond }

pub num_pages-cache_page :
    (pager : Pager) (page : Page)
    → (cache_page pager pager.num_pages page).num_pages ≡ pager.num_pages + 1
unfolding cache_page
num_pages-cache_page pager page = ground arith
