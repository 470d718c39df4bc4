-- ===== src/Response/Copy.antt =====
-- get_copy_data, is_copy_done and get_warning_count of src/protocol/PostgresResponse.cc, which read
-- a finished response.
pub mod Messages
use wf_postgres.Common.{
  ℕ, zero, suc, ◌+◌, Bool, true, false, not, List, [], ◌∷◌, ◌++◌, Option, none, some, Run, ok,
  fault, diverged, ◌>>=◌, Bytes, codes, length, if◌then◌else◌, str_eq,
}
use wf_postgres.Parser.{
  PostgresBackendEventType, copy_data, copy_done, command_complete, ready, event_type,
}
use wf_postgres.Response.{PostgresResponse}
use wf_postgres.Stream.{PostgresFrame, PostgresStream, next_frame, payload_bytes}
use wf_postgres.Types.{PostgresError}

-- A stream of its own over the buffer, from its start.
abbrev pub copy_stream : PostgresResponse → PostgresStream
copy_stream r = record { owned = true; bytes = r.buf; cursor = 0 }

-- What a round of get_copy_data does with the event.
pub data CopyStep : Type 0 where
  pushes stops passes_over : CopyStep

unfoldable pub copy_step : PostgresBackendEventType → CopyStep
copy_step copy_data = pushes
copy_step copy_done = stops
copy_step command_complete = stops
copy_step ready = stops
copy_step _ = passes_over

-- What the round does with its payload and the rest of the loop.
unfoldable pub after_step :
    CopyStep → Run Bytes → (List Bytes → Run (List Bytes)) → List Bytes → Run (List Bytes)
after_step pushes payload go_on row = do p ← payload; go_on (row ++ p ∷ [])
after_step stops payload go_on row = ok row
after_step passes_over payload go_on row = go_on row

unfoldable pub copy_loop : ℕ → PostgresStream → List Bytes → Run (List Bytes)
copy_loop zero s row = diverged
copy_loop (suc rounds) s row = do
  next ← next_frame s false
  elim next [
    | none ↦ ok row
    | some (frame, s') ↦ elim frame.payload [
      | none ↦ ok row
      | some _ ↦
          after_step (copy_step (event_type frame.type)) (payload_bytes s frame)
            (copy_loop rounds s') row
    ]
  ]

-- A frame takes five bytes at least.
unfoldable pub get_copy_data : PostgresResponse → Run (List Bytes)
get_copy_data r =
    if not r.is_copy_out then ok [] else copy_loop (length r.buf + 1) (copy_stream r) []

unfoldable pub ends_copy : PostgresBackendEventType → Bool
ends_copy copy_done = true
ends_copy ready = true
ends_copy _ = false

unfoldable pub done_loop : ℕ → PostgresStream → Run Bool
done_loop zero s = diverged
done_loop (suc rounds) s = do
  next ← next_frame s false
  elim next [
    | none ↦ ok false
    | some (frame, s') ↦ elim frame.payload [
      | none ↦ ok false
      | some _ ↦
          let more = done_loop rounds s' in
          if ends_copy (event_type frame.type) then ok true else more
    ]
  ]

unfoldable pub is_copy_done : PostgresResponse → Run Bool
is_copy_done r =
    if not r.is_copy_out then ok false else done_loop (length r.buf + 1) (copy_stream r)

unfoldable pub count_warnings : List PostgresError → ℕ → ℕ
count_warnings [] count = count
count_warnings (notice ∷ notices) count =
    count_warnings notices (if str_eq notice.severity (codes "WARNING") then count + 1 else count)

unfoldable pub get_warning_count : PostgresResponse → ℕ
get_warning_count r = count_warnings r.notices 0
