-- ===== src/Cell/Numbers.antt =====
-- PostgresCell::as_bool, as_int and as_bigint of src/protocol/PostgresResult.cc, with what they
-- leave in errno.
use wf_postgres.Cell.Access.{is_binary, reach, text_of}
use wf_postgres.Cell.{PostgresCell}
use wf_postgres.Common.{
  ℕ, Bool, false, not, ◌||◌, [], ◌∷◌, none, some, Run, ok, fault, ◌>>=◌, map_run, Bytes, ℤ, pos,
  signed32, signed64, is_empty, ◌==◌, if◌then◌else◌,
}
use wf_postgres.Libc.{Errs, einval, c_text, strtoll}
use wf_postgres.Wire.{read_uint16, read_uint32, read_uint64}

abbrev pub first_byte : Bytes → Run ℕ
first_byte [] = fault
first_byte (b ∷ _) = ok b

abbrev is_true_letter : ℕ → Bool
is_true_letter c = c == b't' || c == b'T' || c == b'1' || c == b'y' || c == b'Y'

unfoldable pub as_bool : PostgresCell → Run Bool
as_bool c = if c.is_null || c.length == 0 then ok false else (do
  p ← reach c.contents
  b ← first_byte p
  ok (if is_binary c then not (b == 0) else is_true_letter b))

-- strtoll on the text, and `if (*end != '\0') errno = EINVAL`.
unfoldable pub parse_number : Bytes → Errs ℤ
parse_number tmp =
    let (v, end) = strtoll (c_text tmp) in if is_empty end then v else (v.0, some einval)

-- The three widths of a binary integer.
unfoldable pub binary_int : ℕ → Bytes → Run (Errs ℤ)
binary_int n p =
    if n == 2
    then map_run (λ v. (pos v, none)) (read_uint16 p)
    else if n == 4
    then map_run (λ v. (signed32 v, none)) (read_uint32 p)
    else if n == 8
    then map_run (λ v. (signed64 v, none)) (read_uint64 p)
    else ok (pos 0, some einval)

unfoldable pub as_int : PostgresCell → Run (Errs ℤ)
as_int c =
    if c.is_null || c.length == 0
    then ok (pos 0, none)
    else if is_binary c
    then (do p ← reach c.contents; binary_int c.length p)
    else map_run parse_number (text_of c)

unfoldable pub as_bigint : PostgresCell → Run (Errs ℤ)
as_bigint c =
    if c.is_null
    then ok (pos 0, none)
    else if is_binary c
    then (if c.length == 8
        then (do p ← reach c.contents; map_run (λ v. (signed64 v, none)) (read_uint64 p))
        else ok (pos 0, some einval))
    else map_run parse_number (text_of c)
