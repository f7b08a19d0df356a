-- ===== src/Pager/Close.antt =====
-- What `pager_close` of src/pager.c leaves in the file, and what a pager that is opened on that file
-- reads.
use database_in_c.Prelude.{
  ℕ, zero, suc, ◌+◌, ◌-◌, ◌*◌, ◌/◌, ◌%◌, ◌^◌, ◌<◌, ◌≤◌, ◌≡◌, ◌≢◌, refl, true, false, arith, ◌==◌,
  ◌⊎◌, ltb, leb, some, Bool-cases, Option-cases, inl, inr, ◌∙◌, ap, sym,
}
use native.Mathlib.Decide.{dec_lt}
use database_in_c.Page.{Page, page_size, zero_page}
use database_in_c.Pager.{
  Pager, File, tables_max_pages, pager_open, pager_flush, flush_dirty, pager_close, load_page,
  pager_get_page, cache_page,
}

pages-pager_flush : (pager : Pager) (n m : ℕ) → (pager_flush pager n).pages m ≡ pager.pages m
unfolding pager_flush
pages-pager_flush pager n m = elim (Option-cases (pager.pages n)) [
  | inl gone ↦ rw (gone, pager_flush) refl
  | inr (page, here) ↦ rw (here, pager_flush) refl
]

page_dirty-pager_flush :
    (pager : Pager) (n m : ℕ) → (pager_flush pager n).page_dirty m ≡ pager.page_dirty m
unfolding pager_flush
page_dirty-pager_flush pager n m = elim (Option-cases (pager.pages n)) [
  | inl gone ↦ rw (gone, pager_flush) refl
  | inr (page, here) ↦ rw (here, pager_flush) refl
]

flush_dirty-keeps :
    (n : ℕ) (pager : Pager) (m : ℕ)
    → ((flush_dirty n pager).pages m ≡ pager.pages m)
      × ((flush_dirty n pager).page_dirty m ≡ pager.page_dirty m)
unfolding flush_dirty
flush_dirty-keeps zero pager m = (refl, refl)
flush_dirty-keeps (suc n) pager m =
    let before = flush_dirty n pager in
    let (pages, dirty) = flush_dirty-keeps n pager m in
    elim (Bool-cases (before.page_dirty n)) [
      | inl flushed ↦
          rw flushed
            (pages-pager_flush before n m ∙ pages, page_dirty-pager_flush before n m ∙ dirty)
      | inr kept ↦ rw kept (pages, dirty)
    ]

-- Page `n` of the file reads in full as `page`.
abbrev pub IsWritten : File → ℕ → Page → Type 0
IsWritten file n page = (file.content n ≡ page) × (file.bytes_read n ≡ page_size)

pager_flush-IsWritten :
    (pager : Pager) (n : ℕ) (page : Page)
    → pager.pages n ≡ some page
    → IsWritten (pager_flush pager n).file n page
unfolding pager_flush
pager_flush-IsWritten pager n page here = rw (here, pager_flush) (ground arith, ground arith)

-- A flush of another page leaves a page that reads in full.
pager_flush-others :
    (pager : Pager) (n m : ℕ) (page : Page)
    → m ≢ n
    → IsWritten pager.file m page
    → IsWritten (pager_flush pager n).file m page
unfolding pager_flush
pager_flush-others pager n m page ne (content, size) = elim (Option-cases (pager.pages n)) [
  | inl gone ↦ rw (gone, pager_flush) (content, size)
  | inr (other, here) ↦
      let full : (pager.file.bytes_read m == 0) ≡ false = ground (arith, size) in
      rw (here, pager_flush) (ground (arith, full, content), ground (arith, size))
]

flush_dirty-IsWritten :
    (k : ℕ) (pager : Pager) (n : ℕ) (page : Page)
    → n < k
    → pager.page_dirty n ≡ true
    → pager.pages n ≡ some page
    → IsWritten (flush_dirty k pager).file n page
unfolding flush_dirty
flush_dirty-IsWritten zero pager n page inside dirty here = absurd (omega arith)
flush_dirty-IsWritten (suc k) pager n page inside dirty here =
    let before = flush_dirty k pager in
    elim (dec_lt n k) [
      | yes below ↦
          let written = flush_dirty-IsWritten k pager n page below dirty here in
          elim (Bool-cases (before.page_dirty k)) [
            | inl flushed ↦ rw flushed (pager_flush-others before k n page (omega arith) written)
            | inr kept ↦ rw kept written
          ]
      | no above ↦
          let same : n ≡ k = omega arith in
          let (pages, flags) = flush_dirty-keeps k pager k in
          let flushed : before.page_dirty k ≡ true =
            flags ∙ ap pager.page_dirty (sym same) ∙ dirty in
          let cached : before.pages k ≡ some page = pages ∙ ap pager.pages (sym same) ∙ here in
          rw (flushed, same) (pager_flush-IsWritten before k page cached)
    ]

-- A page that is not dirty is not the one that a flush writes.
clean-apart :
    (k : ℕ) (pager : Pager) (n : ℕ)
    → pager.page_dirty n ≡ false
    → (flush_dirty k pager).page_dirty k ≡ true
    → n ≢ k
clean-apart k pager n clean flushed same =
    let both : true ≡ false =
      sym flushed ∙ (flush_dirty-keeps k pager k).1 ∙ ap pager.page_dirty (sym same) ∙ clean in
    ground (arith, both)

flush_dirty-clean :
    (k : ℕ) (pager : Pager) (n : ℕ) (page : Page)
    → pager.page_dirty n ≡ false
    → IsWritten pager.file n page
    → IsWritten (flush_dirty k pager).file n page
unfolding flush_dirty
flush_dirty-clean zero pager n page clean written = written
flush_dirty-clean (suc k) pager n page clean written =
    let before = flush_dirty k pager in
    let written' = flush_dirty-clean k pager n page clean written in
    elim (Bool-cases (before.page_dirty k)) [
      | inl flushed ↦
          rw flushed
            (pager_flush-others before k n page (clean-apart k pager n clean flushed) written')
      | inr kept ↦ rw kept written'
    ]

-- Of a page that is not dirty and of which the file has nothing, a flush leaves that, or it makes it
-- a page of zeros if it writes one behind it.
pager_flush-hole :
    (pager : Pager) (n m : ℕ) (page : Page)
    → m ≢ n
    → pager.file.bytes_read m ≡ 0
    → pager.pages n ≡ some page
    → ((n < m) × ((pager_flush pager n).file.bytes_read m ≡ 0))
      ⊎ IsWritten (pager_flush pager n).file m zero_page
unfolding pager_flush
pager_flush-hole pager n m page ne hole here = elim (dec_lt n m) [
  | yes behind ↦ inl (behind, rw (here, pager_flush) (ground (arith, hole)))
  | no above ↦ inr (
      rw (here, pager_flush)
        (let first : ltb m n ≡ true = ground arith in (ground (arith, first, hole), ground arith)))
]

-- What becomes of a page that is not dirty and of which the file has nothing.
abbrev IsHole : Pager → ℕ → Type 0
IsHole pager n = (pager.file.bytes_read n ≡ 0) ⊎ IsWritten pager.file n zero_page

step-IsHole : (pager : Pager) (k n : ℕ) → n ≢ k → IsHole pager n → IsHole (pager_flush pager k) n
unfolding pager_flush
step-IsHole pager k n ne (inr written) = inr (pager_flush-others pager k n zero_page ne written)
step-IsHole pager k n ne (inl hole) = elim (Option-cases (pager.pages k)) [
  | inl gone ↦ rw (gone, pager_flush) (inl hole)
  | inr (page, here) ↦ elim (pager_flush-hole pager k n page ne hole here) [
    | inl (behind, still) ↦ inl still
    | inr written ↦ inr written
  ]
]

flush_dirty-IsHole :
    (k : ℕ) (pager : Pager) (n : ℕ)
    → pager.page_dirty n ≡ false
    → pager.file.bytes_read n ≡ 0
    → IsHole (flush_dirty k pager) n
unfolding flush_dirty
flush_dirty-IsHole zero pager n clean hole = inl hole
flush_dirty-IsHole (suc k) pager n clean hole =
    let before = flush_dirty k pager in
    let rest = flush_dirty-IsHole k pager n clean hole in
    elim (Bool-cases (before.page_dirty k)) [
      | inl flushed ↦ rw flushed (step-IsHole before k n (clean-apart k pager n clean flushed) rest)
      | inr kept ↦ rw kept rest
    ]

flush_dirty-filled :
    (k : ℕ) (pager : Pager) (n m : ℕ) (page : Page)
    → pager.page_dirty n ≡ false
    → pager.file.bytes_read n ≡ 0
    → n < m
    → m < k
    → pager.page_dirty m ≡ true
    → pager.pages m ≡ some page
    → IsWritten (flush_dirty k pager).file n zero_page
unfolding flush_dirty
flush_dirty-filled zero pager n m page clean hole above inside dirty here = absurd (omega arith)
flush_dirty-filled (suc k) pager n m page clean hole above inside dirty here =
    let before = flush_dirty k pager in
    elim (dec_lt m k) [
      | yes below ↦
          let written = flush_dirty-filled k pager n m page clean hole above below dirty here in
          elim (Bool-cases (before.page_dirty k)) [
            | inl flushed ↦
                rw flushed (pager_flush-others before k n zero_page (omega arith) written)
            | inr kept ↦ rw kept written
          ]
      | no last ↦
          let same : m ≡ k = omega arith in
          let (pages, flags) = flush_dirty-keeps k pager k in
          let flushed : before.page_dirty k ≡ true =
            flags ∙ ap pager.page_dirty (sym same) ∙ dirty in
          let cached : before.pages k ≡ some page = pages ∙ ap pager.pages (sym same) ∙ here in
          rw flushed (elim (flush_dirty-IsHole k pager n clean hole) [
            | inr written ↦ pager_flush-others before k n zero_page (omega arith) written
            | inl still ↦ elim (pager_flush-hole before k n page (omega arith) still cached) [
              | inl (behind, _) ↦ absurd (omega arith)
              | inr written ↦ written
            ]
          ])
    ]

covered-tests :
    (n file_length : ℕ)
    → n < tables_max_pages
    → page_size * (n + 1) ≤ file_length
    → (leb tables_max_pages n ≡ false)
      × (ltb n ((file_length + page_size - 1) / page_size) ≡ true)
      × (ltb (file_length - page_size * n) page_size ≡ false)
covered-tests n file_length inside covered =
    let reach : n < (file_length + page_size - 1) / page_size = omega arith in
    let rest : page_size ≤ file_length - page_size * n = omega arith in
    (ground arith, ground (arith, reach), ground (arith, rest))

pager_close-IsWritten :
    (pager : Pager) (n : ℕ) (page : Page)
    → n < tables_max_pages
    → pager.page_dirty n ≡ true
    → pager.pages n ≡ some page
    → IsWritten (pager_close pager) n page
unfolding pager_close
pager_close-IsWritten pager n page = flush_dirty-IsWritten tables_max_pages pager n page

pager_get_page-pager_open :
    (file : File) (n : ℕ) (page : Page) (file_length : ℕ)
    → n < tables_max_pages
    → IsWritten file n page
    → page_size * (n + 1) ≤ file_length % 2 ^ 32
    → pager_get_page (pager_open file file_length) n
      ≡ some (cache_page (pager_open file file_length) n page, page)
unfolding pager_get_page load_page pager_open
pager_get_page-pager_open file n page file_length inside (content, size) covered =
    let (small, old, whole) = covered-tests n (file_length % 2 ^ 32) inside covered in
    rw (small, old, whole, size, content) refl

-- A cached page that is dirty when the pager is closed is the page that a pager opened on the file
-- then gives for its number, if the length of the file, as a `uint32_t`, covers the page.
pub pager_get_page-pager_close :
    (pager : Pager) (n : ℕ) (page : Page) (file_length : ℕ)
    → n < tables_max_pages
    → pager.page_dirty n ≡ true
    → pager.pages n ≡ some page
    → page_size * (n + 1) ≤ file_length % 2 ^ 32
    → let opened = pager_open (pager_close pager) file_length in
      pager_get_page opened n ≡ some (cache_page opened n page, page)
pager_get_page-pager_close pager n page file_length inside dirty here covered =
    pager_get_page-pager_open (pager_close pager) n page file_length inside
      (pager_close-IsWritten pager n page inside dirty here) covered

-- A page that is not dirty when the pager is closed and that read in full before is the page that a
-- pager opened on the file then gives for its number, if the length of the file, as a `uint32_t`,
-- covers the page.
pub pager_close-clean :
    (pager : Pager) (n : ℕ) (page : Page) (file_length : ℕ)
    → n < tables_max_pages
    → pager.page_dirty n ≡ false
    → IsWritten pager.file n page
    → page_size * (n + 1) ≤ file_length % 2 ^ 32
    → let opened = pager_open (pager_close pager) file_length in
      pager_get_page opened n ≡ some (cache_page opened n page, page)
unfolding pager_close
pager_close-clean pager n page file_length inside clean written covered =
    pager_get_page-pager_open (pager_close pager) n page file_length inside
      (flush_dirty-clean tables_max_pages pager n page clean written) covered

-- A page that is not dirty and of which the file has nothing, such as one that a failed command
-- allocated, is a page of zeros for a pager opened on the file that `pager_close` leaves, if a cached
-- page behind it is dirty and the length of the file, as a `uint32_t`, covers the page.
pub pager_close-hole :
    (pager : Pager) (n m : ℕ) (page : Page) (file_length : ℕ)
    → pager.page_dirty n ≡ false
    → pager.file.bytes_read n ≡ 0
    → n < m
    → m < tables_max_pages
    → pager.page_dirty m ≡ true
    → pager.pages m ≡ some page
    → page_size * (n + 1) ≤ file_length % 2 ^ 32
    → let opened = pager_open (pager_close pager) file_length in
      pager_get_page opened n ≡ some (cache_page opened n zero_page, zero_page)
unfolding pager_close
pager_close-hole pager n m page file_length clean hole above inside dirty here covered =
    pager_get_page-pager_open (pager_close pager) n zero_page file_length (omega arith)
      (flush_dirty-filled tables_max_pages pager n m page clean hole above inside dirty here)
      covered
