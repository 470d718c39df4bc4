-- ===== src/Cursor.antt =====
-- PostgresResultCursor of include/PostgresResult.h and src/protocol/PostgresResult.cc: the rows and
-- the result sets in the bytes of a response. `cursor` is the offset of `cursor_` behind `head_`, and
-- `bytes` are those from `head_` to `end_`.
pub mod Rows
pub mod Safety
pub mod ResultSets
pub mod Metadata
pub mod CommandTag
pub mod Named
pub mod NamedRows
pub mod Answers
pub mod Sets
use wf_postgres.Cell.{PostgresCell, cell}
use wf_postgres.Common.{
  ℕ, zero, suc, ◌+◌, ◌-◌, Bool, true, false, not, ◌||◌, List, [], ◌∷◌, ◌++◌, Option, none, some,
  Run, ok, fault, diverged, ◌>>=◌, Bytes, ℤ, pos, negsuc, length, leb, ◌==◌, if◌then◌else◌,
}
use wf_postgres.Parser.DataRow.{parse_data_row}
use wf_postgres.Parser.{
  PostgresBackendEventType, row_description, data_row, command_complete, ready, copy_data,
  event_type, parse_row_description, parse_command_complete,
}
use wf_postgres.Stream.{PostgresFrame, PostgresStream, next_frame, payload_bytes}
use wf_postgres.Types.{PostgresField}

pub record PostgresResultCursor : Type 0 where
  pub bytes : Bytes
  pub cursor : ℕ
  pub fields : List PostgresField
  pub command_tag : Bytes
  pub current_result_set_done : Bool

abbrev pub stream_at : PostgresResultCursor → PostgresStream
stream_at c = record { owned = false; bytes = c.bytes; cursor = c.cursor }

abbrev pub move_to : PostgresResultCursor → PostgresStream → PostgresResultCursor
move_to c s = record c { cursor = s.cursor }

abbrev pub end_set : PostgresResultCursor → Bytes → PostgresResultCursor
end_set c tag = record c { command_tag = tag; current_result_set_done = true }

-- A frame takes five bytes at least.
abbrev pub rounds_for : PostgresResultCursor → ℕ
rounds_for c = length c.bytes + 1

-- What a round says: the function returns, or the loop goes on.
pub data Step {ℓ} (A : Type ℓ) : Type ℓ where
  returns : A → PostgresResultCursor → Step A
  looks_on : Step A

-- A row, or `false`.
abbrev pub Fetched : Type 0
Fetched = Option (List PostgresCell)

abbrev pub fetched_row :
    ℤ × List PostgresCell → PostgresResultCursor → PostgresResultCursor → Step Fetched
fetched_row (pos zero, row) c moved = returns (some row) moved
fetched_row (_, row) c moved = returns none c

-- A round of fetch_row; `s` is the stream behind the frame.
unfoldable pub fetch_event :
    PostgresBackendEventType
    → Run Bytes
    → PostgresStream
    → PostgresResultCursor
    → Run (Step Fetched)
fetch_event data_row payload s c = do
  p ← payload
  row ← parse_data_row p [] c.fields
  ok (fetched_row row c (move_to c s))
fetch_event copy_data payload s c = do
  p ← payload
  ok (returns (some (cell (some p) (length p) false none ∷ [])) (move_to c s))
fetch_event command_complete payload s c = do
  p ← payload
  ok (returns none (move_to (end_set c (parse_command_complete p c.command_tag)) s))
fetch_event ready payload s c =
    ok (returns none (move_to (record c { current_result_set_done = true }) s))
fetch_event _ payload s c = ok looks_on

unfoldable pub fetch_frame :
    PostgresStream → PostgresFrame → PostgresStream → PostgresResultCursor → Run (Step Fetched)
fetch_frame s frame s' c = elim frame.payload [
  | none ↦ ok (returns none c)
  | some _ ↦ fetch_event (event_type frame.type) (payload_bytes s frame) s' c
]

unfoldable pub fetch_loop :
    ℕ → PostgresStream → PostgresResultCursor → Run (Fetched × PostgresResultCursor)
fetch_loop zero s c = diverged
fetch_loop (suc rounds) s c = do
  next ← next_frame s false
  elim next [
    | none ↦ ok (none, move_to c s)
    | some (frame, s') ↦ do
      step ← fetch_frame s frame s' c
      elim step [ returns row c' ↦ ok (row, c') | looks_on ↦ fetch_loop rounds s' c ]
  ]

unfoldable pub fetch_row : PostgresResultCursor → Run (Fetched × PostgresResultCursor)
fetch_row c =
    if c.current_result_set_done || leb (length c.bytes) c.cursor
    then ok (none, c)
    else fetch_loop (rounds_for c) (stream_at c) c

unfoldable pub fetch_all_loop :
    ℕ
    → PostgresResultCursor
    → List (List PostgresCell)
    → Run (List (List PostgresCell) × PostgresResultCursor)
fetch_all_loop zero c rows = diverged
fetch_all_loop (suc rounds) c rows = do
  (row, c') ← fetch_row c
  elim row [ none ↦ ok (rows, c') | some r ↦ fetch_all_loop rounds c' (rows ++ r ∷ []) ]

-- The rows; the function's result says whether there are any.
unfoldable pub fetch_all :
    PostgresResultCursor → Run (List (List PostgresCell) × PostgresResultCursor)
fetch_all c = fetch_all_loop (rounds_for c) c []

-- A round of parse_metadata.
unfoldable pub metadata_event :
    PostgresBackendEventType
    → Run Bytes
    → PostgresFrame
    → PostgresStream
    → PostgresResultCursor
    → Run (Step (Unit {0}))
metadata_event row_description payload frame s c = do
  p ← payload
  (_, fields) ← parse_row_description p c.fields
  ok (returns tt (move_to (record c { fields = fields }) s))
metadata_event command_complete payload frame s c = do
  p ← payload
  ok (returns tt (move_to (end_set c (parse_command_complete p c.command_tag)) s))
metadata_event data_row payload frame s c =
    ok (returns tt (record c { cursor = s.cursor - frame.frame_size }))
metadata_event copy_data payload frame s c =
    ok (returns tt (record c { cursor = s.cursor - frame.frame_size }))
metadata_event _ payload frame s c = ok looks_on

unfoldable pub metadata_loop : ℕ → PostgresStream → PostgresResultCursor → Run PostgresResultCursor
metadata_loop zero s c = diverged
metadata_loop (suc rounds) s c = do
  next ← next_frame s false
  elim next [
    | none ↦ ok (move_to c s)
    | some (frame, s') ↦ elim frame.payload [
      | none ↦ ok (move_to c s')
      | some _ ↦ do
        step ← metadata_event (event_type frame.type) (payload_bytes s frame) frame s' c
        elim step [ returns _ c' ↦ ok c' | looks_on ↦ metadata_loop rounds s' c ]
    ]
  ]

unfoldable pub parse_metadata : PostgresResultCursor → Run PostgresResultCursor
parse_metadata c =
    metadata_loop (rounds_for c) (stream_at c)
      (record c { fields = []; command_tag = []; current_result_set_done = false })

abbrev pub starts_set : PostgresBackendEventType → Bool
starts_set row_description = true
starts_set data_row = true
starts_set command_complete = true
starts_set _ = false

abbrev pub is_ready : PostgresBackendEventType → Bool
is_ready ready = true
is_ready _ = false

-- The second loop of next_result_set.
unfoldable pub seek_loop :
    ℕ → PostgresStream → PostgresResultCursor → Run (Bool × PostgresResultCursor)
seek_loop zero s c = diverged
seek_loop (suc rounds) s c = do
  next ← next_frame s false
  elim next [
    | none ↦ ok (false, move_to c s)
    | some (frame, s') ↦ elim frame.payload [
      | none ↦ ok (false, c)
      | some _ ↦
          let more = seek_loop rounds s' c in
          if is_ready (event_type frame.type)
          then ok (false, move_to c s')
          else if starts_set (event_type frame.type)
          then (do
            c' ← parse_metadata (record c { cursor = s'.cursor - frame.frame_size })
            ok (true, c'))
          else more
    ]
  ]

-- A round of the first loop: `returns` is `return false`, and `left` leaves the loop.
pub data Skip : Type 0 where
  skip_returns : PostgresResultCursor → Skip
  left : PostgresResultCursor → Skip
  skips_on : Skip

unfoldable pub skip_event :
    PostgresBackendEventType → Run Bytes → PostgresStream → PostgresResultCursor → Run Skip
skip_event command_complete payload s c = do
  p ← payload
  ok (left (end_set c (parse_command_complete p c.command_tag)))
skip_event ready payload s c =
    ok (skip_returns (move_to (record c { current_result_set_done = true }) s))
skip_event _ payload s c = ok skips_on

unfoldable pub skip_loop :
    ℕ → PostgresStream → PostgresResultCursor → Run (Bool × PostgresResultCursor)
skip_loop zero s c = diverged
skip_loop (suc rounds) s c = do
  next ← next_frame s false
  elim next [
    | none ↦ seek_loop (rounds_for c) s c
    | some (frame, s') ↦ elim frame.payload [
      | none ↦ ok (false, c)
      | some _ ↦ do
        skip ← skip_event (event_type frame.type) (payload_bytes s frame) s' c
        elim skip [
          | skip_returns c' ↦ ok (false, c')
          | left c' ↦ seek_loop (rounds_for c) s' c'
          | skips_on ↦ skip_loop rounds s' c
        ]
    ]
  ]

unfoldable pub next_result_set : PostgresResultCursor → Run (Bool × PostgresResultCursor)
next_result_set c =
    if c.current_result_set_done
    then seek_loop (rounds_for c) (stream_at c) c
    else skip_loop (rounds_for c) (stream_at c) c
