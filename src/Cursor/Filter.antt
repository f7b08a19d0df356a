-- ===== src/Cursor/Filter.antt =====
-- `filter_next` and `projection_next` of src/table.c on the rows of their child.
use database_in_c.Prelude.{
  ℕ, zero, suc, ◌<◌, ◌≤◌, ◌≡◌, refl, Bool, List, [], ◌∷◌, none, some, arith, length, if◌then◌else◌,
  Bool-cases, inl, inr, ◌⊎◌, ◌∙◌, ap, map, All,
}
use database_in_c.Ast.{Expr}
use database_in_c.Row.{Row}
use database_in_c.Pager.{Pager}
use database_in_c.Table.{Table}
use database_in_c.Where.{row_matches_where}
use database_in_c.Delete.{done}
use database_in_c.Cursor.{
  Cursor, Pull, cursor_next, filter, projection, filter_next, projection_next, project_columns,
  entry_of,
}
use database_in_c.Cursor.Yields.{Yields, ends, gives}

-- The rows on which the test holds.
unfoldable pub keep_rows : (Row → Bool) → List Row → List Row
keep_rows f [] = []
keep_rows f (row ∷ rows) = let rest = keep_rows f rows in if f row then row ∷ rest else rest

pub length-keep_rows : (f : Row → Bool) (rows : List Row) → length (keep_rows f rows) ≤ length rows
unfolding keep_rows
length-keep_rows f [] = omega arith
length-keep_rows f (row ∷ rows) = ground (arith, length-keep_rows f rows)

module _ (inner : Pager → Cursor → Pull) (table : Table) (pager : Pager) (condition : Expr)
    (f : Row → Bool) where
  -- The condition is defined on the rows, as `f`.
  abbrev pub Decided : List Row → Type 0
  Decided rows =
      All (λ row. row_matches_where (some condition) row (entry_of pager table) ≡ some (f row)) rows

  filter_next-cases :
      (rounds : ℕ) (child : Cursor) (rows : List Row)
      → Yields inner pager child rows
      → Decided rows
      → length rows < rounds
      → (((child' : Cursor) × (filter_next rounds inner table pager child condition
              ≡ done (pager, filter child' condition, none))
            × (keep_rows f rows ≡ []))
          ⊎ ((child' : Cursor) × (row : Row) × (rest : List Row) × (filter_next rounds inner table
                  pager child condition
                ≡ done (pager, filter child' condition, some row))
              × Yields inner pager child' rest
              × Decided rest
              × (length rest < length rows)
              × (keep_rows f rows ≡ row ∷ keep_rows f rest)))
  unfolding filter_next keep_rows
  filter_next-cases zero child rows y d h = absurd (omega arith)
  filter_next-cases (suc rounds) child [] (ends {cursor' = c} e) d h =
      inl (c, rw (e, filter_next) refl, refl)
  filter_next-cases (suc rounds) child (row ∷ rows) (gives {cursor' = c} e y) (test, d) h =
      elim (Bool-cases (f row)) [
        | inl hit ↦
            let t = test ∙ ap some hit in
            inr (c, row, rows, rw (e, filter_next, t) refl, y, d, omega arith, rw hit)
        | inr miss ↦
            let t = test ∙ ap some miss in
            let skips : filter_next (suc rounds) inner table pager child condition
                ≡ filter_next rounds inner table pager c condition =
              rw (e, filter_next, t) refl in
            elim (filter_next-cases rounds c rows y d (omega arith)) [
              | inl (c', runs, none_left) ↦ inl (c', skips ∙ runs, rw miss none_left)
              | inr (c', row', rest, runs, y', d', shorter, first) ↦
                  inr (c', row', rest, skips ∙ runs, y', d', omega arith, rw miss first)
            ]
      ]

module _ (fuel depth : ℕ) (table : Table) (pager : Pager) where
  abbrev inner_next : Pager → Cursor → Pull
  inner_next = cursor_next fuel depth table

  filter-bounded :
      (condition : Expr) (f : Row → Bool) (bound : ℕ) (child : Cursor) (rows : List Row)
      → Yields inner_next pager child rows
      → Decided inner_next table pager condition f rows
      → length rows < fuel
      → length rows < bound
      → Yields
          (cursor_next fuel (suc depth) table)
          pager
          (filter child condition)
          (keep_rows f rows)
  unfolding cursor_next
  filter-bounded condition f zero child rows y d h b = absurd (omega arith)
  filter-bounded condition f (suc bound) child rows y d h b =
      elim (filter_next-cases inner_next table pager condition f fuel child rows y d h) [
        | inl (c, runs, none_left) ↦ rw none_left (ends runs)
        | inr (c, row, rest, runs, y', d', shorter, first) ↦
            rw first (
              gives runs
                (filter-bounded condition f bound c rest y' d' (omega arith) (omega arith)))
      ]

  -- A filter cursor over a cursor that yields the rows yields the ones on which its condition
  -- holds, in their order, if the condition is defined on the rows and the fuel exceeds their
  -- number.
  pub filter-Yields :
      (condition : Expr) (f : Row → Bool) (child : Cursor) (rows : List Row)
      → Yields (cursor_next fuel depth table) pager child rows
      → All
          (λ row. row_matches_where (some condition) row (entry_of pager table) ≡ some (f row))
          rows
      → length rows < fuel
      → Yields
          (cursor_next fuel (suc depth) table)
          pager
          (filter child condition)
          (keep_rows f rows)
  filter-Yields condition f child rows y d h =
      filter-bounded condition f (suc (length rows)) child rows y d h (omega arith)

  -- Where the projection is defined on the rows that its child yields, a projection cursor yields the
  -- projected rows, in their order.
  pub projection-Yields :
      (columns : List Expr) (g : Row → Row) (child : Cursor) (rows : List Row)
      → Yields (cursor_next fuel depth table) pager child rows
      → All (λ row. project_columns (entry_of pager table) row columns ≡ some (g row)) rows
      → Yields (cursor_next fuel (suc depth) table) pager (projection child columns) (map g rows)
  unfolding cursor_next projection_next
  projection-Yields columns g child [] (ends {cursor' = c} e) d =
      ends {cursor' = projection c columns} (rw (e, projection_next) refl)
  projection-Yields columns g child (row ∷ rows) (gives {cursor' = c} e y) (t, d) =
      gives {cursor' = projection c columns} (rw (e, projection_next, t) refl)
        (projection-Yields columns g c rows y d)
