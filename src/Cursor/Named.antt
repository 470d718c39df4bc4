-- ===== src/Cursor/Named.antt =====
-- The overloads of fetch_row by the names of the columns, and the copies of rows, in
-- src/protocol/PostgresResult.cc.
use wf_postgres.Cell.Copies.{detach, detach_row, detach_rows}
use wf_postgres.Cell.{PostgresCell}
use wf_postgres.Common.{
  List, [], ◌∷◌, Option, none, some, Run, ok, fault, ◌>>=◌, Bytes, length, ltb, if◌then◌else◌,
  str_eq,
}
use wf_postgres.Cursor.{PostgresResultCursor, Fetched, fetch_row, fetch_all}
use wf_postgres.Types.{PostgresField, str_lt}

abbrev pub RowMap : Type 0
RowMap = List (Bytes × PostgresCell)

-- std::map::insert: a key that is there keeps its value.
unfoldable pub insert : Bytes → PostgresCell → RowMap → RowMap
insert k v [] = (k, v) ∷ []
insert k v ((j, w) ∷ m) =
    if str_eq j k
    then (j, w) ∷ m
    else if str_lt k j
    then (k, v) ∷ (j, w) ∷ m
    else (j, w) ∷ insert k v m

-- std::unordered_map::insert; the order of the pairs means nothing.
unfoldable pub insert_unordered : Bytes → PostgresCell → RowMap → RowMap
insert_unordered k v [] = (k, v) ∷ []
insert_unordered k v ((j, w) ∷ m) =
    if str_eq j k then (j, w) ∷ m else (j, w) ∷ insert_unordered k v m

-- The `for` loop; `fields_[i]` is the head of the fields that are left.
unfoldable pub name_cells :
    (Bytes → PostgresCell → RowMap → RowMap)
    → List PostgresField
    → List PostgresCell
    → RowMap
    → Run RowMap
name_cells put fields [] m = ok m
name_cells put [] (x ∷ row) m = fault
name_cells put (f ∷ fields) (x ∷ row) m = name_cells put fields row (put f.name x m)

-- What both overloads do with the row.
abbrev pub named :
    (Bytes → PostgresCell → RowMap → RowMap)
    → Fetched
    → PostgresResultCursor
    → Run (Option RowMap × PostgresResultCursor)
named put none c = ok (none, c)
named put (some row) c =
    if ltb (length c.fields) (length row)
    then ok (none, c)
    else (do m ← name_cells put c.fields row []; ok (some m, c))

unfoldable pub fetch_row_map : PostgresResultCursor → Run (Option RowMap × PostgresResultCursor)
unfolding name_cells insert
fetch_row_map c = do (row, c') ← fetch_row c; named insert row c'

unfoldable pub fetch_row_unordered_map :
    PostgresResultCursor → Run (Option RowMap × PostgresResultCursor)
unfolding name_cells insert_unordered
fetch_row_unordered_map c = do (row, c') ← fetch_row c; named insert_unordered row c'

unfoldable pub detach_values : RowMap → Run RowMap
unfolding detach
detach_values [] = ok []
detach_values ((k, v) ∷ m) = do d ← detach v; rest ← detach_values m; ok ((k, d) ∷ rest)

unfoldable pub fetch_row_copy : PostgresResultCursor → Run (Fetched × PostgresResultCursor)
unfolding detach_row
fetch_row_copy c = do
  (row, c') ← fetch_row c
  elim row [ none ↦ ok (none, c') | some r ↦ do d ← detach_row r; ok (some d, c') ]

abbrev pub detached_map :
    Option RowMap × PostgresResultCursor → Run (Option RowMap × PostgresResultCursor)
detached_map (none, c) = ok (none, c)
detached_map (some m, c) = do d ← detach_values m; ok (some d, c)

unfoldable pub fetch_row_map_copy :
    PostgresResultCursor → Run (Option RowMap × PostgresResultCursor)
unfolding detach_values
fetch_row_map_copy c = do r ← fetch_row_map c; detached_map r

unfoldable pub fetch_row_unordered_map_copy :
    PostgresResultCursor → Run (Option RowMap × PostgresResultCursor)
unfolding detach_values
fetch_row_unordered_map_copy c = do r ← fetch_row_unordered_map c; detached_map r

-- No row is `return false`, and there is nothing to detach.
unfoldable pub fetch_all_copy :
    PostgresResultCursor → Run (List (List PostgresCell) × PostgresResultCursor)
unfolding detach_rows
fetch_all_copy c = do (rows, c') ← fetch_all c; d ← detach_rows rows; ok (d, c')
