-- ===== src/Cursor/Yields.antt =====
-- What a cursor of src/table.c gives when it is pulled until it returns false.
use database_in_c.Prelude.{ℕ, zero, suc, ◌<◌, ◌≡◌, refl, List, [], ◌∷◌, none, some, arith, length}
use database_in_c.Row.{Row}
use database_in_c.Pager.{Pager}
use database_in_c.Delete.{done}
use database_in_c.Cursor.{Cursor, Pull, run_rows}

-- Pulled until it returns false, the step gives the rows in order and leaves the pager as it is.
pub data Yields (step : Pager → Cursor → Pull) (pager : Pager) : Cursor → List Row → Type 0 where
  ends :
      {cursor cursor' : Cursor}
      → step pager cursor ≡ done (pager, cursor', none)
      → Yields step pager cursor []
  gives :
      {cursor cursor' : Cursor} {row : Row} {rows : List Row}
      → step pager cursor ≡ done (pager, cursor', some row)
      → Yields step pager cursor' rows
      → Yields step pager cursor (row ∷ rows)

-- The loop of `process_command` prints the rows that the cursor yields, with fuel for one round a
-- row and the last one.
pub run_rows-Yields :
    (fuel : ℕ) (step : Pager → Cursor → Pull) (pager : Pager) (cursor : Cursor) (rows : List Row)
    → Yields step pager cursor rows
    → length rows < fuel
    → run_rows fuel step pager cursor ≡ done (pager, rows)
unfolding run_rows
run_rows-Yields zero step pager cursor rows y h = absurd (omega arith)
run_rows-Yields (suc fuel) step pager cursor [] (ends e) h = rw (e, run_rows) refl
run_rows-Yields (suc fuel) step pager cursor (row ∷ rows) (gives {cursor' = c} e y) h =
    rw (e, run_rows, run_rows-Yields fuel step pager c rows y (omega arith)) refl
