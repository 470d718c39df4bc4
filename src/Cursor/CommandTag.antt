-- ===== src/Cursor/CommandTag.antt =====
-- parse_command_tag_parts of src/protocol/PostgresResult.cc, and the members that call it.
pub mod Words
use wf_postgres.Common.{
  ℕ, zero, suc, ◌+◌, ◌≤◌, Bool, true, false, ◌&&◌, List, [], ◌∷◌, ◌++◌, Option, none, some, Run, ok,
  diverged, ◌>>=◌, map_run, Bytes, codes, length, leb, ◌==◌, if◌then◌else◌, str_eq, is_empty,
  is_digit,
}
use wf_postgres.Cursor.{PostgresResultCursor}
use wf_postgres.Libc.{Errno, Errs, einval, cleared, strtoull}

unfoldable pub skip_blanks : Bytes → Bytes
skip_blanks [] = []
skip_blanks (c ∷ s) = if c == b' ' then skip_blanks s else c ∷ s

-- The text up to the next blank, and from there on.
unfoldable pub to_blank : Bytes → Bytes
to_blank [] = []
to_blank (c ∷ s) = if c == b' ' then [] else c ∷ to_blank s

unfoldable pub from_blank : Bytes → Bytes
from_blank [] = []
from_blank (c ∷ s) = if c == b' ' then c ∷ s else from_blank s

-- The outer loop over what is behind `start`.
unfoldable pub tokens_loop : ℕ → Bytes → List Bytes → Run (List Bytes)
tokens_loop zero s tokens = diverged
tokens_loop (suc rounds) s tokens =
    let s' = skip_blanks s in
    let more = tokens_loop rounds (from_blank s') (tokens ++ to_blank s' ∷ []) in
    if is_empty s' then ok tokens else more

unfoldable pub tokens_of : Bytes → Run (List Bytes)
unfolding tokens_loop skip_blanks to_blank from_blank
tokens_of tag = tokens_loop (length tag + 1) tag []

unfoldable pub all_digits : Bytes → Bool
all_digits [] = true
all_digits (c ∷ s) = is_digit c && all_digits s

-- `errno == 0 && *end_ptr == '\0'` behind strtoull.
abbrev pub checked : Errs ℕ × Bytes → Errs ℕ
checked ((val, none), []) = (val, some cleared)
checked ((val, none), _ ∷ _) = (0, some einval)
checked ((val, some _), _) = (0, some einval)

-- A token that is a number of 64 bits; 0 for any other.
unfoldable pub token_number : Bytes → Errs ℕ
unfolding all_digits
token_number [] = (0, none)
token_number (c ∷ s) = if all_digits (c ∷ s) then checked (strtoull (c ∷ s)) else (0, none)

abbrev pub first_token : List Bytes → Bytes
first_token [] = []
first_token (t ∷ _) = t

abbrev pub last_token : Bytes → List Bytes → Bytes
last_token t [] = t
last_token t (t' ∷ tokens) = last_token t' tokens

-- `*affected_rows`
unfoldable pub affected_of : List Bytes → Errs ℕ
unfolding token_number
affected_of [] = (0, none)
affected_of (t ∷ tokens) = token_number (last_token t tokens)

-- `*oid`: the second of three tokens at least behind INSERT.
unfoldable pub oid_of : List Bytes → Errs ℕ
unfolding token_number str_eq
oid_of (t ∷ oid_str ∷ _ ∷ _) = if str_eq t (codes "INSERT") then token_number oid_str else (0, none)
oid_of _ = (0, none)

unfoldable pub get_command : PostgresResultCursor → Run Bytes
unfolding tokens_of
get_command c = map_run first_token (tokens_of c.command_tag)

unfoldable pub get_insert_oid : PostgresResultCursor → Run (Errs ℕ)
unfolding tokens_of oid_of
get_insert_oid c = map_run oid_of (tokens_of c.command_tag)

unfoldable pub get_affected_rows : PostgresResultCursor → Run (Errs ℕ)
unfolding tokens_of affected_of
get_affected_rows c = map_run affected_of (tokens_of c.command_tag)
