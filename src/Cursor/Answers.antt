-- ===== src/Cursor/Answers.antt =====
-- From a response to its rows: the constructor of PostgresResultCursor in
-- src/protocol/PostgresResult.cc, fetch_all and the copies.
use wf_postgres.Cell.Copies.{own, detach, detach_row, detach_rows}
use wf_postgres.Cell.RoundTrip.{string_of-all}
use wf_postgres.Cell.{PostgresCell}
use wf_postgres.Common.{
  suc, ◌+◌, ◌^◌, ◌<◌, false, List, [], ◌∷◌, ◌++◌, map, Option, none, some, Run, ok, ◌>>=◌, Bytes,
  All, length, if◌then◌else◌, ◌≡◌, ◌≤◌, refl, arith, is_empty, lt→ltb,
}
use wf_postgres.Cursor.{
  PostgresResultCursor, stream_at, rounds_for, metadata_event, metadata_loop, parse_metadata,
}
use wf_postgres.Parser.Messages.{row_description_payload, IsField, parse_row_description-payload}
use wf_postgres.Parser.Rows.{cell_of, cells_of}
use wf_postgres.Parser.{event_type}
use wf_postgres.Response.{PostgresResponse}
use wf_postgres.Stream.Frames.{rest_of, message, FitsFrame, skip, next_frame-message}
use wf_postgres.Types.{PostgresField}

-- PostgresResultCursor(PostgresResponse *resp)
unfoldable pub open_cursor : PostgresResponse → Run PostgresResultCursor
open_cursor resp = parse_metadata (record {
  bytes = resp.buf;
  cursor = 0;
  fields = [];
  command_tag = [];
  current_result_set_done = false;
})

-- The copy of a cell owns the bytes of its value.
abbrev pub owned_of : Option Bytes → PostgresField → PostgresCell
owned_of none f = cell_of none f
owned_of (some v) f = if is_empty v then cell_of (some v) f else own (cell_of (some v) f) v

abbrev pub owned_cells : List (Option Bytes) → List PostgresField → List PostgresCell
owned_cells [] fs = []
owned_cells (v ∷ vs) [] = []
owned_cells (v ∷ vs) (f ∷ fs) = owned_of v f ∷ owned_cells vs fs

detach-owned_of : (v : Option Bytes) (f : PostgresField) → detach (cell_of v f) ≡ ok (owned_of v f)
unfolding detach
detach-owned_of none f = refl
detach-owned_of (some []) f = refl
detach-owned_of (some (b ∷ v)) f =
    rw (detach, lt→ltb 0 (suc (length v)) (omega arith), string_of-all (b ∷ v)) refl

detach_row-owned :
    (vs : List (Option Bytes)) (fs : List PostgresField)
    → detach_row (cells_of vs fs) ≡ ok (owned_cells vs fs)
unfolding detach_row
detach_row-owned [] fs = refl
detach_row-owned (v ∷ vs) [] = refl
detach_row-owned (v ∷ vs) (f ∷ fs) = rw (detach-owned_of v f, detach_row-owned vs fs) refl

pub detach_rows-owned :
    (rows : List (List (Option Bytes))) (fs : List PostgresField)
    → detach_rows (map (λ vs. cells_of vs fs) rows) ≡ ok (map (λ vs. owned_cells vs fs) rows)
unfolding detach_rows
detach_rows-owned [] fs = refl
detach_rows-owned (vs ∷ rows) fs = rw (detach_row-owned vs fs, detach_rows-owned rows fs) refl

-- RowDescription at the cursor.
pub parse_metadata_fields :
    (c : PostgresResultCursor) (fs : List PostgresField) (rest : Bytes)
    → c.cursor ≤ length c.bytes
    → FitsFrame (row_description_payload fs [])
    → (length fs < 2 ^ 15) × All IsField fs
    → rest_of (stream_at c) ≡ message b'T' (row_description_payload fs []) ++ rest
    → (c' : PostgresResultCursor) × (parse_metadata c ≡ ok c')
      × (c'.fields ≡ fs)
      × (c'.current_result_set_done ≡ false)
      × (c'.cursor ≤ length c'.bytes)
      × (rest_of (stream_at c') ≡ rest)
unfolding parse_metadata metadata_loop metadata_event event_type
parse_metadata_fields c fs rest v fits h e =
    let p = row_description_payload fs [] in
    let (next, payload, behind, valid) = next_frame-message (stream_at c) b'T' p rest v fits e in
    let one : rounds_for c ≡ suc (length c.bytes) = omega arith in
    (
      record {
        bytes = c.bytes;
        cursor = (skip (stream_at c) (5 + length p)).cursor;
        fields = fs;
        command_tag = [];
        current_result_set_done = false;
      },
      rw (one, next, ◌>>=◌, payload, parse_row_description-payload fs [] [] h.0 h.1) refl,
      refl,
      refl,
      valid,
      behind,
    )
