-- ===== src/Parser/DataRow.antt =====
-- PostgresParser::parse_data_row in src/protocol/PostgresParser.cc.
use wf_postgres.Cell.{PostgresCell, cell}
use wf_postgres.Common.{
  ℕ, zero, suc, Bool, true, false, ◌||◌, List, [], ◌∷◌, ◌++◌, Option, none, some, Run, ok, fault,
  ◌>>=◌, Bytes, ℤ, pos, negsuc, length, take, drop, ltb, if◌then◌else◌,
}
use wf_postgres.Parser.{rounds_of}
use wf_postgres.Types.{PostgresField}
use wf_postgres.Wire.{read_int16, read_int32}

-- The value that a column's length announces; `none` is `return -1`.
unfoldable pub read_column : ℤ → Bytes → PostgresField → Option (PostgresCell × Bytes)
read_column (negsuc zero) p f = some (cell none 0 true (some f), p)
read_column (negsuc (suc _)) p f = none
read_column (pos n) p f =
    if ltb (length p) n then none else some (cell (some (take n p)) n false (some f), drop n p)

-- The `for` loop over `n` columns; `fields[i]` is the head of the fields that are left.
unfoldable pub read_columns :
    ℕ → Bytes → List PostgresField → List PostgresCell → Run (ℤ × List PostgresCell)
read_columns zero p fields row = ok (pos 0, row)
read_columns (suc n) p [] row = fault
read_columns (suc n) p (f ∷ fields) row = if ltb (length p) 4 then ok (negsuc 0, row) else do
  col_len ← read_int32 p
  elim (read_column col_len (drop 4 p) f) [
    | none ↦ ok (negsuc 0, row)
    | some (c, p') ↦ read_columns n p' fields (row ++ c ∷ [])
  ]

-- num_cols < 0
abbrev pub is_negative : ℤ → Bool
is_negative (pos n) = false
is_negative (negsuc n) = true

-- The guard on the announced count, and the loop.
unfoldable pub row_for :
    ℤ → Bytes → List PostgresCell → List PostgresField → Run (ℤ × List PostgresCell)
row_for num_cols p row fields =
    if is_negative num_cols || ltb (length fields) (rounds_of num_cols)
    then ok (negsuc 0, row)
    else read_columns (rounds_of num_cols) p fields row

unfoldable pub parse_data_row :
    Bytes → List PostgresCell → List PostgresField → Run (ℤ × List PostgresCell)
parse_data_row p row fields =
    if ltb (length p) 2
    then ok (negsuc 0, row)
    else do num_cols ← read_int16 p; row_for num_cols (drop 2 p) row fields
