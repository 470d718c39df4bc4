-- ===== src/Cell/Copies.antt =====
-- The copies of a PostgresCell in include/PostgresResult.h. Where `storage` is not empty, `data_`
-- points into it.
use wf_postgres.Cell.Access.{string_of}
use wf_postgres.Cell.{PostgresCell}
use wf_postgres.Common.{
  Bool, true, false, not, ◌&&◌, List, [], ◌∷◌, Option, none, some, Run, ok, ◌>>=◌, Bytes, ltb,
  if◌then◌else◌, is_empty,
}

abbrev points_somewhere : Option Bytes → Bool
points_somewhere none = false
points_somewhere (some _) = true

abbrev pub own : PostgresCell → Bytes → PostgresCell
own c s = record c { storage = s; contents = some s }

unfoldable pub detach : PostgresCell → Run PostgresCell
detach c =
    if not c.is_null && points_somewhere c.contents && is_empty c.storage && ltb 0 c.length
    then (do s ← string_of c.contents c.length; ok (own c s))
    else ok c

abbrev pub is_detached : PostgresCell → Bool
is_detached c = not (is_empty c.storage)

-- The copy constructor and the copy assignment to another cell.
unfoldable pub copy_cell : PostgresCell → PostgresCell
copy_cell other = if is_empty other.storage then other else own other other.storage

-- The move constructor and the move assignment: the cell, and what is left of the other; the
-- library says nothing of a string that was moved from, so `left` is any.
unfoldable pub move_cell : PostgresCell → Bytes → PostgresCell × PostgresCell
unfolding copy_cell
move_cell other left =
    (copy_cell other, record other { contents = none; length = 0; is_null = true; storage = left })

-- for (auto& cell : row) cell.detach();
unfoldable pub detach_row : List PostgresCell → Run (List PostgresCell)
unfolding detach
detach_row [] = ok []
detach_row (c ∷ row) = do d ← detach c; rest ← detach_row row; ok (d ∷ rest)

unfoldable pub detach_rows : List (List PostgresCell) → Run (List (List PostgresCell))
unfolding detach_row
detach_rows [] = ok []
detach_rows (r ∷ rows) = do d ← detach_row r; rest ← detach_rows rows; ok (d ∷ rest)
