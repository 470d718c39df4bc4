-- ===== src/Parser/Rows.antt =====
-- DataRow payloads as the protocol's documentation lays them out, and what
-- PostgresParser::parse_data_row makes of them.
use wf_postgres.Cell.{PostgresCell, cell}
use wf_postgres.Common.{
  ℕ, suc, ◌<◌, ◌≤◌, ◌^◌, ◌≡◌, refl, ap, ◌∙◌, true, false, List, [], ◌∷◌, ◌++◌, Option, none, some,
  ok, Bytes, ℤ, pos, negsuc, word32, length, drop, All, append-nil, append_assoc, length-append,
  take-length-append, drop-length-append, le→not-ltb, arith,
}
use wf_postgres.Parser.DataRow.{parse_data_row, row_for, read_columns, read_column}
use wf_postgres.Types.{PostgresField}
use wf_postgres.Wire.RoundTrip.{be16, be32, read_int16-be16, read_int32-be32}
use wf_postgres.Wire.{read_int32, read_uint32}

-- DataRow: the count of columns, and for each the length of its value and the value; NULL has the
-- length -1 and no value.
abbrev pub value_payload : Option Bytes → Bytes → Bytes
value_payload none rest = be32 (word32 (negsuc 0)) ++ rest
value_payload (some v) rest = be32 (length v) ++ (v ++ rest)

abbrev pub values_payload : List (Option Bytes) → Bytes → Bytes
values_payload [] rest = rest
values_payload (v ∷ vs) rest = value_payload v (values_payload vs rest)

abbrev pub FitsValue : Option Bytes → Type 0
FitsValue none = Unit
FitsValue (some v) = length v < 2 ^ 31

abbrev pub cell_of : Option Bytes → PostgresField → PostgresCell
cell_of none f = cell none 0 true (some f)
cell_of (some v) f = cell (some v) (length v) false (some f)

-- Each value with the field that describes its column.
abbrev pub cells_of : List (Option Bytes) → List PostgresField → List PostgresCell
cells_of [] fs = []
cells_of (v ∷ vs) [] = []
cells_of (v ∷ vs) (f ∷ fs) = cell_of v f ∷ cells_of vs fs

read_int32-minus_one :
    (rest : Bytes) → read_int32 (be32 (word32 (negsuc 0)) ++ rest) ≡ ok (negsuc 0)
unfolding read_int32 read_uint32
read_int32-minus_one rest = refl

read_column-value :
    (v rest : Bytes) (f : PostgresField)
    → read_column (pos (length v)) (v ++ rest) f ≡ some (cell_of (some v) f, rest)
unfolding read_column
read_column-value v rest f = rw (
  le→not-ltb (length (v ++ rest)) (length v) (omega (arith, length-append v rest)),
  take-length-append v rest,
  drop-length-append v rest,
)

read_column-null :
    (rest : Bytes) (f : PostgresField) → read_column (negsuc 0) rest f ≡ some (cell_of none f, rest)
unfolding read_column
read_column-null rest f = refl

-- A round of the loop that finds a value.
read_columns_step :
    (n : ℕ) (p : Bytes) (f : PostgresField) (fs : List PostgresField) (row : List PostgresCell)
    (col_len : ℤ) (c : PostgresCell) (p' : Bytes)
    → 4 ≤ length p
    → read_int32 p ≡ ok col_len
    → read_column col_len (drop 4 p) f ≡ some (c, p')
    → read_columns (suc n) p (f ∷ fs) row ≡ read_columns n p' fs (row ++ c ∷ [])
unfolding read_columns
read_columns_step n p f fs row col_len c p' h e k = ground arith

-- A column is read back, and the pointer stands behind it.
read_column-payload :
    (n : ℕ) (v : Option Bytes) (rest : Bytes) (f : PostgresField) (fs : List PostgresField)
    (row : List PostgresCell)
    → FitsValue v
    → read_columns (suc n) (value_payload v rest) (f ∷ fs) row
      ≡ read_columns n rest fs (row ++ cell_of v f ∷ [])
read_column-payload n none rest f fs row h =
    read_columns_step n (value_payload none rest) f fs row (negsuc 0) _ _ (omega arith)
      (read_int32-minus_one rest) (read_column-null rest f)
read_column-payload n (some v) rest f fs row h =
    read_columns_step n (value_payload (some v) rest) f fs row (pos (length v)) _ _ (omega arith)
      (read_int32-be32 (length v) (v ++ rest) h) (read_column-value v rest f)

read_columns-payload :
    (vs : List (Option Bytes)) (fs : List PostgresField) (rest : Bytes) (row : List PostgresCell)
    → length vs ≤ length fs
    → All FitsValue vs
    → read_columns (length vs) (values_payload vs rest) fs row ≡ ok (pos 0, row ++ cells_of vs fs)
read_columns-payload [] fs rest row n h = unfold read_columns in rw append-nil
read_columns-payload (v ∷ vs) [] rest row n h = absurd (omega arith)
read_columns-payload (v ∷ vs) (f ∷ fs) rest row n h =
    read_column-payload (length vs) v (values_payload vs rest) f fs row h.0
    ∙ read_columns-payload vs fs rest (row ++ cell_of v f ∷ []) (omega arith) h.1
    ∙ ap (λ x. ok (pos 0, x)) (append_assoc row (cell_of v f ∷ []) (cells_of vs fs))

abbrev pub data_row_payload : List (Option Bytes) → Bytes → Bytes
data_row_payload vs rest = be16 (length vs) ++ values_payload vs rest

-- A DataRow with less than 2 ^ 15 columns, no more than there are fields, and no value of 2 ^ 31
-- bytes or more, gives each value's cell in order, NULL included, whatever bytes stand behind
-- it.
pub parse_data_row-payload :
    (vs : List (Option Bytes)) (fs : List PostgresField) (rest : Bytes)
    → length vs ≤ length fs
    → length vs < 2 ^ 15
    → All FitsValue vs
    → parse_data_row (data_row_payload vs rest) [] fs ≡ ok (pos 0, cells_of vs fs)
unfolding parse_data_row row_for
parse_data_row-payload vs fs rest n small h =
    rw
      (
        le→not-ltb (length (data_row_payload vs rest)) 2 (omega arith),
        read_int16-be16 (length vs) (values_payload vs rest) small,
        le→not-ltb (length fs) (length vs) n,
      )
      (read_columns-payload vs fs rest [] n h)
