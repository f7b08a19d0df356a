-- ===== src/Delete/Cells.antt =====
-- The loop of `delete_command` in src/table.c over one leaf keeps the cells that do not match.
use database_in_c.Prelude.{
  ℕ, zero, suc, ◌+◌, ◌-◌, ◌<◌, ◌≡◌, refl, ap, ap₂, sym, ◌∙◌, Bool, true, false, ◌&&◌, ◌||◌, List,
  [], ◌∷◌, ◌++◌, arith, if◌then◌else◌, range, range-append, range-shift, some, memmove, Bool-cases,
  inl, inr, append-nil, append_assoc, zero-add, leb, ltb,
}
use mathlib.Core.Option
use database_in_c.Page.{Page, LeafCell}
use database_in_c.Btree.Leaf.Insert.{cells_of}
use database_in_c.Delete.{RowTest, delete_cells, delete_in_page}

-- The cells for which the test fails, and whether it holds for one.
pub reject : (LeafCell → Bool) → List LeafCell → List LeafCell
reject f [] = []
reject f (c ∷ cs) = let rest = reject f cs in if f c then rest else c ∷ rest

pub any_of : (LeafCell → Bool) → List LeafCell → Bool
any_of f [] = false
any_of f (c ∷ cs) = if f c then true else any_of f cs

-- The test is defined on every cell, as `f`.
abbrev pub Decides : RowTest → (LeafCell → Bool) → Type 0
Decides test f = (c : LeafCell) → test c ≡ some (f c)

or-true : (b : Bool) → (b || true) ≡ true
or-true true = refl
or-true false = refl

range_snoc :
    (cells : ℕ → LeafCell) (i : ℕ) → range cells 0 (i + 1) ≡ range cells 0 i ++ cells i ∷ []
range_snoc cells i =
    range-append cells 0 i 1 ∙ ap (λ j. range cells 0 i ++ cells j ∷ []) (zero-add i)

memmove-down :
    (cells : ℕ → LeafCell) (i n j : ℕ)
    → i + j + 1 < n
    → memmove cells i (i + 1) (n - i - 1) (i + j) ≡ cells (suc i + j)
memmove-down cells i n j h =
    let inside : (leb i (i + j) && ltb (i + j) (i + (n - i - 1))) ≡ true = ground arith in
    let place : i + 1 + (i + j - i) ≡ suc i + j = omega arith in
    ap (λ b. if b then cells (i + 1 + (i + j - i)) else cells (i + j)) inside ∙ ap cells place

module _ (test : RowTest) (f : LeafCell → Bool) (decides : Decides test f) where
  delete_cells-gone :
      (k i : ℕ) (cells : ℕ → LeafCell) (n : ℕ) (dirty : Bool)
      → f (cells i) ≡ true
      → delete_cells test (suc k) i cells n dirty
        ≡ delete_cells test k i (memmove cells i (i + 1) (n - i - 1)) (n - 1) true
  unfolding delete_cells
  delete_cells-gone k i cells n dirty gone =
      let e : test (cells i) ≡ some true = decides (cells i) ∙ ap some gone in
      rw (e, delete_cells) refl

  delete_cells-kept :
      (k i : ℕ) (cells : ℕ → LeafCell) (n : ℕ) (dirty : Bool)
      → f (cells i) ≡ false
      → delete_cells test (suc k) i cells n dirty ≡ delete_cells test k (i + 1) cells n dirty
  unfolding delete_cells
  delete_cells-kept k i cells n dirty kept =
      let e : test (cells i) ≡ some false = decides (cells i) ∙ ap some kept in
      rw (e, delete_cells) refl

  delete_cells-reject :
      (k i : ℕ) (cells : ℕ → LeafCell) (n : ℕ) (dirty : Bool)
      → i + k ≡ n
      → (r : (ℕ → LeafCell) × ℕ × Bool) × (delete_cells test k i cells n dirty ≡ some r)
        × (range r.0 0 r.1 ≡ range cells 0 i ++ reject f (range cells i k))
        × (r.2 ≡ (dirty || any_of f (range cells i k)))
  unfolding delete_cells reject any_of
  delete_cells-reject zero i cells n dirty e =
      let same : n ≡ i = omega arith in
      (
        (cells, n, dirty),
        refl,
        ap (range cells 0) same ∙ sym (append-nil (range cells 0 i)),
        ground arith,
      )
  delete_cells-reject (suc k) i cells n dirty e = elim (Bool-cases (f (cells i))) [
    | inl gone ↦
        let moved = memmove cells i (i + 1) (n - i - 1) in
        let (r, runs, contents, flag) = delete_cells-reject k i moved (n - 1) true (omega arith) in
        let front = range-shift moved cells 0 0 i (λ j p. ground arith) in
        let back =
          range-shift moved cells i (suc i) k (λ j p. memmove-down cells i n j (omega arith)) in
        (
          r,
          delete_cells-gone k i cells n dirty gone ∙ runs,
          contents
              ∙ ap₂ (λ l m. l ++ reject f m) front back
              ∙ ap
                  (λ b.
                    range cells 0 i
                    ++ (if b
                        then reject f (range cells (suc i) k)
                        else cells i ∷ reject f (range cells (suc i) k)))
                  (sym gone),
          flag
              ∙ sym (or-true dirty)
              ∙ ap (λ b. dirty || (if b then true else any_of f (range cells (suc i) k)))
                  (sym gone),
        )
    | inr kept ↦
        let (r, runs, contents, flag) = delete_cells-reject k (i + 1) cells n dirty (omega arith) in
        let next : i + 1 ≡ suc i = omega arith in
        let tail = ap (λ j. range cells j k) next in
        (
          r,
          delete_cells-kept k i cells n dirty kept ∙ runs,
          contents
              ∙ ap₂ (λ l m. l ++ reject f m) (range_snoc cells i) tail
              ∙ append_assoc (range cells 0 i) (cells i ∷ []) (reject f (range cells (suc i) k))
              ∙ ap
                  (λ b.
                    range cells 0 i
                    ++ (if b
                        then reject f (range cells (suc i) k)
                        else cells i ∷ reject f (range cells (suc i) k)))
                  (sym kept),
          flag
              ∙ ap (λ l. dirty || any_of f l) tail
              ∙ ap (λ b. dirty || (if b then true else any_of f (range cells (suc i) k)))
                  (sym kept),
        )
  ]

  -- When the test is defined on every cell, the loop of `delete_command` over one leaf returns, the
  -- leaf keeps the cells on which the test fails, in their order, and no others, and the page is
  -- marked dirty if and only if the test holds on one of its cells.
  pub delete_in_page-reject :
      (page : Page)
      → (out : Page) × (delete_in_page test page ≡ some (out, any_of f (cells_of page)))
        × (cells_of out ≡ reject f (cells_of page))
        × (out.link ≡ page.link)
  unfolding delete_in_page
  delete_in_page-reject page =
      let (r, runs, contents, flag) =
        delete_cells-reject page.num_cells 0 page.leaf_cells page.num_cells false
          (zero-add page.num_cells) in
      let out = record page { leaf_cells = r.0; num_cells = r.1 } in
      (
        out,
        ap (Option.map (λ s. (record page { leaf_cells = s.0; num_cells = s.1 }, s.2))) runs
            ∙ ap (λ b. some (out, b)) flag,
        contents,
        refl,
      )
