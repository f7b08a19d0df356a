-- ===== src/Btree.antt =====
-- src/btree.c: the searches in a node, the descent to a leaf, and insertion with its splits. The
-- functions that take a `void *page` and its page number take the number here and read the page
-- from the pager; a page that the C code holds a pointer to is cached.
pub mod Search
pub mod Leaf
pub mod Internal
pub mod Descent
pub mod Split
