-- ===== src/Task/Guards.antt =====
-- The checks before a request is sent and the record of what its answer left, in
-- src/factory/PostgresTaskImpl.cc.
use wf_postgres.Common.{
  ℕ, Bool, false, not, ◌&&◌, ◌||◌, Option, none, some, Bytes, ℤ, pos, ◌==◌, if◌then◌else◌,
}
use wf_postgres.Request.{PostgresRequest}
use wf_postgres.Response.{PostgresResponse}
use wf_postgres.Task.{
  PostgresProtocolState, protocol_ready, protocol_copy_in, protocol_notify_wait, protocol_broken,
  TaskState, is_success, is_task_error, PostgresConnection, continuity_new, continuity_idle,
  continuity_unknown, int_eq, ebadf, eproto, econnreset,
}

-- `passes` with the connection, or `stops` with the error and the target's state.
pub data Guard : Type 0 where
  passes : Option PostgresConnection → Guard
  stops : ℕ → Option ℤ → Guard

-- The target's state does not let a new connection take over.
abbrev pub has_history : Bool → Bool → Option ℤ → Bool
has_history is_fixed_conn allow_idle_reconnect none = false
has_history is_fixed_conn allow_idle_reconnect (some s) =
    is_fixed_conn
    && not (int_eq s continuity_new)
    && not (allow_idle_reconnect && int_eq s continuity_idle)

unfoldable pub check_reconnect_guard : Bool → Bool → Option ℤ → Option PostgresConnection → Guard
check_reconnect_guard is_fixed_conn allow_idle_reconnect target none = passes none
check_reconnect_guard is_fixed_conn allow_idle_reconnect target (some conn) =
    if conn.state == 3
    then if has_history is_fixed_conn allow_idle_reconnect target
      then stops econnreset (some continuity_unknown)
      else passes (some (record conn { state = 4 }))
    else passes (some conn)

abbrev pub is_copy_task : PostgresRequest → Bool
is_copy_task req = req.is_copy || req.copy_done || req.copy_fail

-- `none` and the error that refuses, else the connection.
unfoldable pub validate_connected :
    PostgresProtocolState → PostgresRequest → PostgresConnection → Guard
validate_connected protocol_broken req conn = stops ebadf none
validate_connected protocol_copy_in req conn =
    if not (is_copy_task req) && not req.is_disconnect
    then stops eproto none
    else passes (some conn)
validate_connected protocol_notify_wait req conn =
    if not req.is_disconnect then stops eproto none else passes (some conn)
validate_connected protocol_ready req conn =
    if is_copy_task req
    then stops eproto none
    else if req.wait_notification
    then passes (some (record conn { protocol_state = protocol_notify_wait }))
    else passes (some conn)

unfoldable pub validate_request : Option PostgresConnection → PostgresRequest → Guard
validate_request none req = passes none
validate_request (some conn) req = validate_connected conn.protocol_state req conn

abbrev pub is_transaction_state : ℕ → Bool
is_transaction_state c = c == b'I' || c == b'T' || c == b'E'

abbrev pub next_protocol_state :
    PostgresProtocolState → PostgresRequest → PostgresResponse → TaskState → PostgresProtocolState
next_protocol_state p req resp task_state =
    if not (is_success task_state) && not (is_task_error task_state && resp.is_error)
    then protocol_broken
    else if resp.is_copy_in
    then protocol_copy_in
    else if req.wait_notification
    then protocol_ready
    else if is_transaction_state resp.transaction_state
    then protocol_ready
    else p

-- The setters of the backend's key. `resp` is the task's own response, and never null.
unfoldable pub update_after_response :
    Option PostgresConnection
    → PostgresRequest
    → PostgresResponse
    → TaskState
    → Option PostgresConnection × PostgresResponse
update_after_response none req resp task_state = (none, resp)
update_after_response (some conn) req resp task_state = (
  some (record conn {
    protocol_state = next_protocol_state conn.protocol_state req resp task_state;
  }),
  record resp {
    backend_key = record {
      pid = conn.backend_pid;
      secret_key = conn.backend_secret;
      secret_data = conn.backend_secret_data;
    };
  },
)

abbrev response_credentials : PostgresResponse → Option (ℤ × Bytes)
response_credentials resp =
    if not (int_eq resp.backend_key.pid (pos 0))
    then some (resp.backend_key.pid, resp.backend_key.secret_data)
    else none

-- The key of the connection if it has one, else the response's.
unfoldable pub get_backend_credentials :
    Option PostgresConnection → PostgresResponse → Option (ℤ × Bytes)
get_backend_credentials none resp = response_credentials resp
get_backend_credentials (some conn) resp =
    if not (int_eq conn.backend_pid (pos 0))
    then some (conn.backend_pid, conn.backend_secret_data)
    else response_credentials resp
