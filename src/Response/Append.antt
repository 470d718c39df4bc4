-- ===== src/Response/Append.antt =====
-- PostgresResponse::append of src/protocol/PostgresResponse.cc: the loop over the frames that have
-- arrived.
use wf_postgres.Auth.{process_auth_request}
use wf_postgres.Common.{
  ℕ, zero, suc, ◌+◌, ◌-◌, Bool, true, false, ◌&&◌, ◌||◌, [], ◌∷◌, ◌++◌, none, some, Run, ok,
  diverged, ◌>>=◌, Bytes, codes, length, ◌==◌, if◌then◌else◌,
}
use wf_postgres.Parser.{
  PostgresBackendEventType, auth, error, parameter_status, backend_key, negotiate_protocol, ready,
  notification, notice, copy_in, copy_out, event_type, parse_error_response, parse_parameter_status,
  parse_backend_key_data, parse_notification, parse_negotiation_response, parse_ready_for_query,
}
use wf_postgres.Response.{PostgresResponse, set_error_fatal}
use wf_postgres.Scram.{Crypto}
use wf_postgres.Stream
use wf_postgres.Stream.{
  PostgresFrame, PostgresStream, next_frame, payload_bytes, buffered_size, truncate_unconsumed,
}
use wf_postgres.Types.{no_error}

-- The stream over `buf_` and `cursor_`.
abbrev pub stream_of : PostgresResponse → PostgresStream
stream_of r = record { owned = true; bytes = r.buf; cursor = r.cursor }

abbrev pub with_stream : PostgresResponse → PostgresStream → PostgresResponse
with_stream r s = record r { buf = s.bytes; cursor = s.cursor }

-- A round of the loop: go on, or leave it with `finished` set.
pub data Round : Type 0 where
  goes_on : PostgresResponse → Round
  finished : PostgresResponse → Round

abbrev finish_if : Bool → PostgresResponse → Round
finish_if b r = if b then finished r else goes_on r

abbrev pub is_transaction_state : ℕ → Bool
is_transaction_state c = c == b'I' || c == b'T' || c == b'E'

-- The loop takes a frame of five bytes at least in a round that moves.
abbrev pub rounds_for : PostgresResponse → ℕ
rounds_for r = length r.buf + 1

-- The end of append: the return value, `*size`, and the state.
unfoldable pub end_append : ℕ → Bool × PostgresResponse → Bool × ℕ × PostgresResponse
end_append len (false, r) = (false, len, r)
end_append len (true, r) =
    (true, len - buffered_size (stream_of r), with_stream r (truncate_unconsumed (stream_of r)))

module _ (crypto : Crypto) where
  -- What a round does with an event of this type and its payload.
  unfoldable pub handle_event : PostgresBackendEventType → Run Bytes → PostgresResponse → Run Round
  handle_event error payload r = do
    p ← payload
    e ← parse_error_response p r.error
    ok (finish_if r.is_startup (record r { is_error = true; error = e }))
  handle_event parameter_status payload r = do
    p ← payload
    ok (goes_on (record r { parameters = parse_parameter_status p r.parameters }))
  handle_event negotiate_protocol payload r = do
    p ← payload
    n ← parse_negotiation_response p r.negotiated
    ok (goes_on (record r { negotiated = n }))
  handle_event backend_key payload r = do
    p ← payload
    k ← parse_backend_key_data p r.backend_key
    ok (goes_on (record r { backend_key = k }))
  handle_event notification payload r = do
    p ← payload
    ns ← parse_notification p r.notifications
    ok (finish_if r.notify_mode (record r { notifications = ns }))
  handle_event notice payload r = do
    p ← payload
    n ← parse_error_response p no_error
    ok (goes_on (record r { notices = r.notices ++ n ∷ [] }))
  handle_event auth payload r = do
    p ← payload
    let r' = record r {
      auth = elim r.auth [ none ↦ some (record { scram_auth = none }) | some a ↦ some a ];
    }
    (accepted, r'') ← process_auth_request crypto p r'
    ok (if accepted then goes_on r'' else finished r'')
  handle_event ready payload r = do
    p ← payload
    state ← parse_ready_for_query p r.transaction_state
    ok (
        finished (record r {
          transaction_state = state;
          ready_for_query = length p == 1 && is_transaction_state state;
        }))
  handle_event copy_in payload r = ok (finished (record r { is_copy_in = true }))
  handle_event copy_out payload r = ok (goes_on (record r { is_copy_out = true }))
  handle_event _ payload r = ok (goes_on r)

  -- A round with a frame; a frame with no payload has an invalid length.
  unfoldable pub handle_frame : PostgresStream → PostgresFrame → PostgresResponse → Run Round
  handle_frame s frame r = elim frame.payload [
    | none ↦ ok (finished (set_error_fatal r (codes "Invalid frame length < 4")))
    | some _ ↦ handle_event (event_type frame.type) (payload_bytes s frame) r
  ]

  -- The `while` loop; the flag is `finished`.
  unfoldable pub frames_loop : ℕ → PostgresResponse → Run (Bool × PostgresResponse)
  frames_loop zero r = diverged
  frames_loop (suc rounds) r = do
    next ← next_frame (stream_of r) false
    elim next [
      | none ↦ ok (false, r)
      | some (frame, s) ↦ do
        round ← handle_frame (stream_of r) frame (with_stream r s)
        elim round [ goes_on r' ↦ frames_loop rounds r' | finished r' ↦ ok (true, r') ]
    ]

  unfoldable pub append : PostgresResponse → Bytes → Run (Bool × ℕ × PostgresResponse)
  append r more =
      let r' = with_stream r (Stream.append (stream_of r) more) in
      do done ← frames_loop (rounds_for r') r'; ok (end_append (length more) done)
