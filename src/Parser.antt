-- ===== src/Parser.antt =====
-- src/protocol/PostgresParser.h and PostgresParser.cc. Each parser gets the bytes of a payload:
-- `data` and `len` together. The output pointers are set at every call in the repository, so an
-- output is the value before and the value after; 0 and -1 are `pos 0` and `negsuc 0`.
pub mod DataRow
pub mod Messages
pub mod RowBounds
pub mod Rows
pub mod Safety
use wf_postgres.Common.{
  ℕ, zero, suc, ◌+◌, ◌-◌, Bool, true, false, List, [], ◌∷◌, ◌++◌, Option, none, some, Run, ok,
  fault, diverged, ◌>>=◌, Bytes, ℤ, pos, negsuc, signed16, signed32, length, take, drop, ltb, leb,
  ◌==◌, if◌then◌else◌,
}
use wf_postgres.Stream.{PostgresFrame, load}
use wf_postgres.Libc.{std_string}
use wf_postgres.Types.{PostgresError, PostgresNotification, PostgresField, StringMap, assign}
use wf_postgres.Wire.{read_uint16, read_uint32, read_int16, read_int32, read_cstring, memchr}

pub data PostgresBackendEventType : Type 0 where
  auth error parameter_status backend_key negotiate_protocol ready : PostgresBackendEventType
  notification row_description data_row command_complete : PostgresBackendEventType
  copy_in copy_out copy_data copy_done copy_fail notice : PostgresBackendEventType
  empty_query parse_complete bind_complete close_complete : PostgresBackendEventType
  parameter_description no_data unknown : PostgresBackendEventType

pub record PostgresBackendEvent : Type 0 where
  pub type : PostgresBackendEventType
  pub payload : Option ℕ
  pub payload_size : ℕ

unfoldable pub event_type : ℕ → PostgresBackendEventType
event_type c =
    if c == b'R'
    then auth
    else if c == b'E'
    then error
    else if c == b'S'
    then parameter_status
    else if c == b'K'
    then backend_key
    else if c == b'v'
    then negotiate_protocol
    else if c == b'Z'
    then ready
    else if c == b'A'
    then notification
    else if c == b'T'
    then row_description
    else if c == b'D'
    then data_row
    else if c == b'C'
    then command_complete
    else if c == b'G'
    then copy_in
    else if c == b'H'
    then copy_out
    else if c == b'W'
    then copy_out
    else if c == b'd'
    then copy_data
    else if c == b'c'
    then copy_done
    else if c == b'f'
    then copy_fail
    else if c == b'N'
    then notice
    else if c == b'I'
    then empty_query
    else if c == b'1'
    then parse_complete
    else if c == b'2'
    then bind_complete
    else if c == b'3'
    then close_complete
    else if c == b't'
    then parameter_description
    else if c == b'n'
    then no_data
    else unknown

unfoldable pub parse_backend_event : PostgresFrame → PostgresBackendEvent
parse_backend_event frame = record {
  type = event_type frame.type;
  payload = frame.payload;
  payload_size = frame.payload_size;
}

-- One field of an ErrorResponse or a NoticeResponse.
unfoldable pub set_error_field : ℕ → Bytes → PostgresError → PostgresError
set_error_field type value err =
    if type == b'S'
    then record err { severity = value }
    else if type == b'V'
    then (if length err.severity == 0 then record err { severity = value } else err)
    else if type == b'C'
    then record err { sql_state = value }
    else if type == b'M'
    then record err { message = value }
    else if type == b'D'
    then record err { detail = value }
    else if type == b'H'
    then record err { hint = value }
    else if type == b'P'
    then record err { position = value }
    else err

-- The `while` loop. Each round takes at least the type byte.
unfoldable pub error_fields : ℕ → Bytes → PostgresError → Run PostgresError
error_fields zero p err = diverged
error_fields (suc rounds) [] err = ok err
error_fields (suc rounds) (type ∷ p) err = if type == 0 then ok err else elim (read_cstring p) [
  | none ↦ ok err
  | some (value, p') ↦ error_fields rounds p' (set_error_field type value err)
]

unfoldable pub parse_error_response : Bytes → PostgresError → Run PostgresError
parse_error_response p err = error_fields (length p + 1) p err

unfoldable pub parse_parameter_status : Bytes → StringMap → StringMap
parse_parameter_status p parameters = elim (read_cstring p) [
  | none ↦ parameters
  | some (key, p') ↦ elim (read_cstring p') [
    | none ↦ parameters
    | some (value, _) ↦ assign key value parameters
  ]
]

pub record BackendKey : Type 0 where
  pub pid : ℤ
  pub secret_key : ℤ
  pub secret_data : Bytes

unfoldable pub parse_backend_key_data : Bytes → BackendKey → Run BackendKey
parse_backend_key_data p key =
    if leb 8 (length p)
    then (do
      pid ← read_uint32 p
      secret ← read_uint32 (drop 4 p)
      bytes ← std_string (drop 4 p) (length p - 4)
      ok (record { pid = signed32 pid; secret_key = signed32 secret; secret_data = bytes }))
    else ok key

unfoldable pub parse_notification :
    Bytes → List PostgresNotification → Run (List PostgresNotification)
parse_notification p notifications =
    if leb 4 (length p)
    then (do
      pid ← read_uint32 p
      ok (elim (read_cstring (drop 4 p)) [
        | none ↦ notifications
        | some (channel, p') ↦ elim (read_cstring p') [
          | none ↦ notifications
          | some (payload, _) ↦
              notifications
              ++ (record { backend_pid = pid; channel = channel; payload = payload } ∷ [])
        ]
      ]))
    else ok notifications

-- The `for` loop over at most `n` options.
unfoldable pub read_options : ℕ → Bytes → List Bytes → List Bytes
read_options zero p options = options
read_options (suc n) [] options = options
read_options (suc n) (b ∷ bs) options = elim (read_cstring (b ∷ bs)) [
  | none ↦ options
  | some (option, p') ↦ read_options n p' (options ++ option ∷ [])
]

pub record Negotiation : Type 0 where
  pub version : ℕ
  pub unsupported_options : List Bytes

unfoldable pub parse_negotiation_response : Bytes → Negotiation → Run Negotiation
parse_negotiation_response p n =
    if leb 8 (length p)
    then (do
      version ← read_uint32 p
      num_options ← read_uint32 (drop 4 p)
      ok (record {
        version = version;
        unsupported_options = read_options num_options (drop 8 p) n.unsupported_options;
      }))
    else ok n

-- The six numbers behind a field's name.
unfoldable pub read_field : Bytes → Bytes → Run PostgresField
read_field name p = do
  table_oid ← read_uint32 p
  column_attr ← read_uint16 (drop 4 p)
  type_oid ← read_uint32 (drop 6 p)
  type_size ← read_uint16 (drop 10 p)
  type_modifier ← read_uint32 (drop 12 p)
  format ← read_uint16 (drop 16 p)
  ok (record {
    name = name;
    table_oid = signed32 table_oid;
    column_attr = signed16 column_attr;
    type_oid = signed32 type_oid;
    type_size = signed16 type_size;
    type_modifier = signed32 type_modifier;
    format = signed16 format;
  })

-- The `for` loop over `n` fields.
unfoldable pub read_fields : ℕ → Bytes → List PostgresField → Run (ℤ × List PostgresField)
read_fields zero p fields = ok (pos 0, fields)
read_fields (suc n) p fields = elim (read_cstring p) [
  | none ↦ ok (negsuc 0, [])
  | some (name, ptr) ↦
      if ltb (length ptr) 18
      then ok (negsuc 0, [])
      else do f ← read_field name ptr; read_fields n (drop 18 ptr) (fields ++ f ∷ [])
]

-- A `for` loop from 0 below a signed bound has this many rounds.
abbrev pub rounds_of : ℤ → ℕ
rounds_of (pos n) = n
rounds_of (negsuc n) = 0

unfoldable pub parse_row_description : Bytes → List PostgresField → Run (ℤ × List PostgresField)
parse_row_description p fields =
    if ltb (length p) 2
    then ok (negsuc 0, fields)
    else do num_fields ← read_int16 p; read_fields (rounds_of num_fields) (drop 2 p) []

unfoldable pub parse_command_complete : Bytes → Bytes → Bytes
parse_command_complete p command_tag = elim (memchr 0 p) [
  | none ↦ command_tag
  | some null_pos ↦ take null_pos p
]

unfoldable pub parse_ready_for_query : Bytes → ℕ → Run ℕ
parse_ready_for_query p transaction_state = if length p == 1 then load p else ok transaction_state
