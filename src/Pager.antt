-- ===== src/Pager.antt =====
-- src/pager.c: the page cache over a file. A page number that the code turns into a pointer stays
-- a number here, since a page that was loaded is never evicted or moved. The file is what the
-- operating system gives: `content` is the buffer of zeros that a read of a page fills and
-- `bytes_read` what that read returns.
pub mod Fresh
pub mod Close
use database_in_c.Prelude.{
  ℕ, zero, suc, ◌+◌, ◌-◌, ◌*◌, ◌/◌, ◌%◌, ◌^◌, ◌&&◌, Bool, true, false, Option, none, some, ltb, leb,
  ◌==◌, if◌then◌else◌, update,
}
use database_in_c.Page.{Page, page_size, zero_page}

abbrev pub tables_max_pages : ℕ
tables_max_pages = 20000

pub record File : Type 0 where
  pub content : ℕ → Page
  pub bytes_read : ℕ → ℕ

pub record Pager : Type 0 where
  pub file : File
  pub file_length : ℕ
  pub pages : ℕ → Option Page
  pub page_dirty : ℕ → Bool
  pub num_pages : ℕ

-- `pager_open` on a file that opens, with its length, an `off_t` that goes into a `uint32_t`. The exits
-- for a call that fails are left out.
pub pager_open : File → ℕ → Pager
pager_open file file_length = record {
  file = file;
  file_length = file_length % 2 ^ 32;
  pages = λ _. none;
  page_dirty = λ _. false;
  num_pages = file_length / page_size % 2 ^ 32;
}

unfoldable pub pager_allocate_page : Pager → Pager × ℕ
pager_allocate_page pager = (record pager { num_pages = pager.num_pages + 1 }, pager.num_pages)

-- The branch that loads a page: from the file if the file reaches that far, else a zero page.
-- `none` is a file whose read is short.
unfoldable pub load_page : Pager → ℕ → Option Page
load_page pager page_number =
    let offset = page_size * page_number in
    let left = pager.file_length - offset in
    let expected = if ltb left page_size then left else page_size in
    if ltb page_number ((pager.file_length + page_size - 1) / page_size)
    then (if pager.file.bytes_read page_number == expected
        then some (pager.file.content page_number)
        else none)
    else some zero_page

-- The pager with a page put into its cache.
unfoldable pub cache_page : Pager → ℕ → Page → Pager
cache_page pager page_number page = record pager {
  pages = update pager.pages page_number (some page);
  num_pages = if leb pager.num_pages page_number then page_number + 1 else pager.num_pages;
}

-- `none` is the null pointer, after which the pager is as before.
unfoldable pub pager_get_page : Pager → ℕ → Option (Pager × Page)
unfolding load_page cache_page
pager_get_page pager page_number =
    if leb tables_max_pages page_number then none else elim (pager.pages page_number) [
      | some page ↦ some (pager, page)
      | none ↦ elim (load_page pager page_number) [
        | none ↦ none
        | some page ↦ some (cache_page pager page_number page, page)
      ]
    ]

-- A write through the pointer that `pager_get_page` gave.
unfoldable pub set_page : Pager → ℕ → Page → Pager
set_page pager page_number page = record pager {
  pages = update pager.pages page_number (some page);
}

unfoldable pub pager_mark_dirty : Pager → ℕ → Pager
pager_mark_dirty pager page_number = record pager {
  page_dirty = update pager.page_dirty page_number true;
}

-- The file behind a `write` of page `n` that the system completes. Where the file ended before the
-- page, the system fills the gap with zeros: a page in it reads in full, and one of which the file
-- had nothing reads as zeros.
abbrev pub write_page : File → ℕ → Page → File
write_page file n page = record {
  content = λ m.
      if m == n
      then page
      else if ltb m n && file.bytes_read m == 0
      then zero_page
      else file.content m;
  bytes_read = λ m. if leb m n then page_size else file.bytes_read m;
}

-- An `lseek` or a `write` that fails is left out; the bytes behind a null pointer are not modelled,
-- and dirty pages are cached ones.
unfoldable pub pager_flush : Pager → ℕ → Pager
pager_flush pager page_number = elim (pager.pages page_number) [
  | none ↦ pager
  | some page ↦ record pager { file = write_page pager.file page_number page }
]

-- The loop of `pager_close` over the pages below `n`.
unfoldable pub flush_dirty : ℕ → Pager → Pager
flush_dirty zero pager = pager
flush_dirty (suc n) pager =
    let before = flush_dirty n pager in if before.page_dirty n then pager_flush before n else before

-- The file that `pager_close` leaves.
unfoldable pub pager_close : Pager → File
unfolding flush_dirty
pager_close pager = (flush_dirty tables_max_pages pager).file
