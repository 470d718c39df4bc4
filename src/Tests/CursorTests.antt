-- ===== src/Tests/CursorTests.antt =====
-- Inputs for src/protocol/PostgresResult.cc.
use wf_postgres.Common.{
  ◌≡◌, refl, true, false, List, [], ◌∷◌, Option, none, some, ok, map, Returns, Bytes, codes, pos,
  negsuc, arith,
}
use wf_postgres.Cursor.Answers.{open_cursor}
use wf_postgres.Cursor.Sets.{ResultSet, sets_messages, read_of, read_sets, read_sets-sets}
use wf_postgres.Common.{◌>>=◌}
use wf_postgres.Cursor.CommandTag.Words.{
  words_from, tokens_of-words, rows_tag, insert_tag, command_tag-parts,
}
use wf_postgres.Cursor.CommandTag.{tokens_of, get_command, get_affected_rows, get_insert_oid}
use wf_postgres.Cursor.Named.{RowMap, fetch_row_map, fetch_row_unordered_map}
use wf_postgres.Cursor.NamedRows.{find, column_named, fetch_row_maps-columns}
use wf_postgres.Libc.{cleared}
use wf_postgres.Response.{PostgresResponse, new_response}
use wf_postgres.Response.Copy.{copy_step, get_copy_data, is_copy_done}
use wf_postgres.Response.Copy.Messages.{copies_of, copy_done_in, copies-messages}
use wf_postgres.Cursor.Rows.{rows_messages, tag_payload}
use wf_postgres.Cursor.ResultSets.{cursor-Returns}
use wf_postgres.Cursor.{
  PostgresResultCursor, fetch_row, fetch_loop, fetch_frame, fetch_event, parse_metadata,
  next_result_set,
}
use wf_postgres.Wire.Bounds.{Any}
use wf_postgres.Parser.Rows.{cells_of}
use wf_postgres.Request.Frames.{Message, on_wire}
use wf_postgres.Parser.{event_type}
use wf_postgres.Parser.DataRow.{parse_data_row, row_for, read_columns, read_column}
use wf_postgres.Stream.{next_frame, next_message, buffered_size, load, payload_bytes}
use wf_postgres.Wire.{read_uint32, read_int16, read_uint16, read_int32}
use wf_postgres.Stream.FrameBounds.{ends, frame}
use wf_postgres.Types.{PostgresField}

abbrev one_field : PostgresField
one_field = record {
  name = codes "id";
  table_oid = pos 0;
  column_attr = pos 1;
  type_oid = pos 23;
  type_size = pos 4;
  type_modifier = negsuc 0;
  format = pos 0;
}

abbrev two_rows : List (List (Option Bytes))
two_rows = (some (codes "7") ∷ []) ∷ (none ∷ []) ∷ []

abbrev at_rows : PostgresResultCursor
at_rows = record {
  bytes =
      on_wire
        (rows_messages two_rows ((b'C', tag_payload (codes "SELECT 2")) ∷ (b'Z', b'I' ∷ []) ∷ []));
  cursor = 0;
  fields = one_field ∷ [];
  command_tag = [];
  current_result_set_done = false;
}

-- Two statements: the rows, and a command without rows.
abbrev first_set : ResultSet
first_set = record { fields = one_field ∷ []; rows = two_rows; tag = codes "SELECT 2" }

abbrev second_set : ResultSet
second_set = record { fields = []; rows = []; tag = codes "SHOW" }

abbrev whole_answer : PostgresResponse
whole_answer = record (new_response []) {
  buf = on_wire (sets_messages (first_set ∷ second_set ∷ []) b'I');
}

read_sets-sets_example :
    (do c ← open_cursor whole_answer; read_sets 2 c)
    ≡ ok (map read_of (first_set ∷ second_set ∷ []))
read_sets-sets_example =
    read_sets-sets whole_answer first_set (second_set ∷ []) b'I' refl (omega arith) (omega arith)

-- The first of the two rows, which has been read.
abbrev behind_row : PostgresResultCursor
behind_row = record at_rows { cursor = 12 }

fetch_row_maps-columns_example :
    (m m' : RowMap) × (fetch_row_map at_rows ≡ ok (some m, behind_row))
    × (fetch_row_unordered_map at_rows ≡ ok (some m', behind_row))
    × ((k : Bytes)
        → (find k m
            ≡ column_named k (one_field ∷ []) (cells_of (some (codes "7") ∷ []) (one_field ∷ [])))
          × (find k m'
              ≡ column_named k
                  (one_field ∷ [])
                  (cells_of (some (codes "7") ∷ []) (one_field ∷ []))))
unfolding fetch_row fetch_loop next_frame next_message buffered_size load read_uint32 fetch_frame
    fetch_event event_type payload_bytes parse_data_row read_int16 read_uint16 row_for read_columns
    read_int32 read_column
fetch_row_maps-columns_example =
    fetch_row_maps-columns at_rows behind_row (cells_of (some (codes "7") ∷ []) (one_field ∷ []))
      refl (omega arith)

tokens_of-words_example : tokens_of (codes " a  bc ") ≡ ok (words_from [] (codes " a  bc "))
tokens_of-words_example = tokens_of-words (codes " a  bc ")

words_from_test : words_from [] (codes " a  bc ") ≡ codes "a" ∷ codes "bc" ∷ []
unfolding words_from
words_from_test = refl

abbrev selected : PostgresResultCursor
selected = record at_rows { command_tag = rows_tag (codes "SELECT") 2 }

abbrev inserted : PostgresResultCursor
inserted = record at_rows { command_tag = insert_tag 16384 2 }

command_tag-parts_example :
    (get_command selected ≡ ok (codes "SELECT"))
    × (get_affected_rows selected ≡ ok (2, some cleared))
    × (get_insert_oid selected ≡ ok (0, none))
    × (get_command inserted ≡ ok (codes "INSERT"))
    × (get_affected_rows inserted ≡ ok (2, some cleared))
    × (get_insert_oid inserted ≡ ok (16384, some cleared))
command_tag-parts_example =
    command_tag-parts selected inserted (codes "SELECT") 2 16384 refl refl (omega arith)
      (omega arith) (omega arith)

-- A copy of two rows.
abbrev copy_messages : List Message
copy_messages =
    (b'H', 0 ∷ 0 ∷ 0 ∷ [])
    ∷ (b'd', codes "1")
    ∷ (b'd', codes "2")
    ∷ (b'c', [])
    ∷ (b'Z', b'I' ∷ [])
    ∷ []

abbrev copied : PostgresResponse
copied = record (new_response []) { buf = on_wire copy_messages; is_copy_out = true }

copies-messages_example :
    (get_copy_data copied ≡ ok (copies_of copy_messages))
    × (is_copy_done copied ≡ ok (copy_done_in copy_messages))
copies-messages_example = copies-messages copied copy_messages refl (omega arith) refl

copies_test : copies_of copy_messages ≡ codes "1" ∷ codes "2" ∷ []
unfolding copy_step event_type
copies_test = refl

-- A frame whose length field is too small, and the start of another.
abbrev short_bytes : PostgresResultCursor
short_bytes = record at_rows { bytes = b'D' ∷ 0 ∷ 0 ∷ 0 ∷ 2 ∷ 0 ∷ [] }

cursor-Returns_example :
    Returns (fetch_row short_bytes) Any
    × Returns (parse_metadata short_bytes) Any
    × Returns (next_result_set short_bytes) Any
cursor-Returns_example =
    cursor-Returns short_bytes (omega arith)
      (frame b'D' 0 0 0 2 (0 ∷ []) refl (omega arith) (ends (omega arith)))
