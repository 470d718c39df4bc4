-- ===== src/Cell/Arrays.antt =====
-- PostgresCell::as_array, as_string_array and as_bigint_array of src/protocol/PostgresResult.cc.
use wf_postgres.Cell.Access.{is_binary, reach}
use wf_postgres.Cell.Numbers.{as_bigint}
use wf_postgres.Cell.Texts.{as_string}
use wf_postgres.Cell.{PostgresCell, cell}
use wf_postgres.Common.{
  ℕ, zero, suc, ◌+◌, ◌-◌, ◌*◌, ◌^◌, true, false, not, ◌||◌, List, [], ◌∷◌, ◌++◌, Option, none, some,
  Run, ok, fault, ◌>>=◌, Bytes, ℤ, pos, negsuc, u32, length, take, drop, ltb, leb, ◌==◌,
  if◌then◌else◌,
}
use wf_postgres.Libc.{Errno, Errs}
use wf_postgres.Types.{PostgresField}
use wf_postgres.Wire.{read_uint32, read_int32}

-- An int of the bit pattern `w`, as a size_t.
abbrev pub size_of : ℕ → ℕ
size_of w = if ltb w (2 ^ 31) then w else w + (2 ^ 64 - 2 ^ 32)

-- The index behind the dimensions, p + 8 * ndim for a pointer `p` to the index 12, where the
-- product is an int of 32 bits; `none` is in front of the bytes.
abbrev pub behind_dims : ℕ → Option ℕ
behind_dims ndim =
    let step = u32 (8 * ndim) in
    if ltb step (2 ^ 31)
    then some (12 + step)
    else if leb (2 ^ 32 - step) 12
    then some (12 - (2 ^ 32 - step))
    else none

-- The element that a length announces, and what stands behind it; `none` leaves the loop.
unfoldable pub read_element : ℤ → Bytes → Option PostgresField → Option (PostgresCell × Bytes)
read_element (negsuc zero) p f = some (cell none 0 true f, p)
read_element (negsuc (suc _)) p f = none
read_element (pos n) p f =
    if ltb (length p) n then none else some (cell (some (take n p)) n false f, drop n p)

-- The `for` loop with the rounds that are left; `p` holds the bytes from `p` to `end`.
unfoldable pub read_elements :
    ℕ → Bytes → Option PostgresField → List PostgresCell → Run (List PostgresCell)
read_elements zero p f elements = ok elements
read_elements (suc n) p f elements = if ltb (length p) 4 then ok elements else do
  elem_len ← read_int32 p
  elim (read_element elem_len (drop 4 p) f) [
    | none ↦ ok elements
    | some (e, p') ↦ read_elements n p' f (elements ++ e ∷ [])
  ]

abbrev pub rounds : ℤ → ℕ
rounds (pos n) = n
rounds (negsuc n) = 0

-- A pointer in front of the bytes faults in its first read; with no element there is none.
abbrev pub elements_from : Option ℕ → ℤ → Bytes → Option PostgresField → Run (List PostgresCell)
elements_from none dim_size p f = if rounds dim_size == 0 then ok [] else fault
elements_from (some i) dim_size p f = read_elements (rounds dim_size) (drop i p) f []

-- Behind the three words of the head; `ndim` is its bit pattern.
unfoldable pub read_dims : ℕ → ℕ → Bytes → Option PostgresField → Run (List PostgresCell)
read_dims ndim n p f = if ndim == 0 || ltb n (size_of (u32 (12 + 8 * ndim))) then ok [] else do
  dim_size ← read_int32 (drop 12 p)
  _ ← read_int32 (drop 16 p)
  elements_from (behind_dims ndim) dim_size (take n p) f

unfoldable pub as_array : PostgresCell → Run (List PostgresCell)
unfolding read_dims
as_array c = if c.is_null || ltb c.length 12 || not (is_binary c) then ok [] else do
  p ← reach c.contents
  ndim ← read_uint32 p
  _ ← read_uint32 (drop 4 p)
  _ ← read_uint32 (drop 8 p)
  read_dims ndim c.length p c.field

unfoldable pub strings_of : List PostgresCell → Run (List Bytes)
strings_of [] = ok []
strings_of (c ∷ cells) = do s ← as_string c; rest ← strings_of cells; ok (s ∷ rest)

unfoldable pub as_string_array : PostgresCell → Run (List Bytes)
unfolding strings_of
as_string_array c = do cells ← as_array c; strings_of cells

-- errno keeps the last value that was stored.
abbrev pub latest : Option Errno → Option Errno → Option Errno
latest e none = e
latest e (some e') = some e'

unfoldable pub bigints_of : List PostgresCell → Run (Errs (List ℤ))
bigints_of [] = ok ([], none)
bigints_of (c ∷ cells) = do
  (v, e) ← as_bigint c
  (rest, e') ← bigints_of cells
  ok (v ∷ rest, latest e e')

unfoldable pub as_bigint_array : PostgresCell → Run (Errs (List ℤ))
unfolding bigints_of
as_bigint_array c = do cells ← as_array c; bigints_of cells
