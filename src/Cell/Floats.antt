-- ===== src/Cell/Floats.antt =====
-- PostgresCell::as_double and as_float of src/protocol/PostgresResult.cc. The floating point numbers
-- are an argument: zero, the number of a bit pattern, and strtod or strtof, with the text at the
-- pointer that it stores and the value of errno behind it.
use wf_postgres.Cell.Access.{is_binary, reach, text_of}
use wf_postgres.Cell.{PostgresCell}
use wf_postgres.Common.{ℕ, [], ◌∷◌, none, some, Run, ok, ◌>>=◌, map_run, Bytes, ◌==◌, if◌then◌else◌}
use wf_postgres.Libc.{Errs, einval, c_text}
use wf_postgres.Wire.{read_uint32, read_uint64}

-- `if (*end != '\0') errno = EINVAL`
abbrev pub whole_number : {A : Type 0} → Errs A × Bytes → Errs A
whole_number (r, []) = r
whole_number ((val, e), _ ∷ _) = (val, some einval)

module _ {Float : Type 0} (zero : Float) (of_bits : ℕ → Float)
    (strtod : Bytes → Errs Float × Bytes) where
  -- A binary value of `size` bytes, which `read` reads, or text.
  abbrev pub floating : PostgresCell → ℕ → (Bytes → Run ℕ) → Run (Errs Float)
  floating c size read =
      if c.is_null
      then ok (zero, none)
      else if is_binary c
      then (if c.length == size
          then (do p ← reach c.contents; map_run (λ w. (of_bits w, none)) (read p))
          else ok (zero, some einval))
      else map_run (λ s. whole_number (strtod (c_text s))) (text_of c)

  unfoldable pub as_double : PostgresCell → Run (Errs Float)
  as_double c = floating c 8 read_uint64

  unfoldable pub as_float : PostgresCell → Run (Errs Float)
  as_float c = floating c 4 read_uint32
