-- ===== src/Task/Finish.antt =====
-- The end of a round in src/factory/PostgresTaskImpl.cc: keep_alive_timeout, finish_once and handle.
use wf_postgres.Common.{
  ℕ, ◌/◌, ◌^◌, Bool, true, false, not, ◌&&◌, ◌||◌, Option, none, some, Run, ok, fault, codes, ℤ,
  pos, ◌==◌, [], if◌then◌else◌, str_eq,
}
use wf_postgres.Errors.{
  auth_failed, protocol_error, protocol_not_supported, ssl_init_failed, ssl_not_supported,
}
use wf_postgres.Response.{PostgresResponse}
use wf_postgres.Task.Guards.{update_after_response}
use wf_postgres.Task.Messages.{conn_state_is}
use wf_postgres.Task.{
  TaskState, state_success, state_task_error, is_success, is_sys_error, PostgresConnection,
  new_connection, ConnectionHandle, ComplexPostgresTask, continuity_new, continuity_unknown,
  econnreset,
}

-- In milliseconds.
abbrev pub keepalive_default : ℤ
keepalive_default = pos 30000

unfoldable pub keep_alive_timeout : ComplexPostgresTask → ℤ
keep_alive_timeout t =
    if not (is_success t.state)
    then pos 0
    else if not t.is_user_request
    then keepalive_default
    else if t.req.is_disconnect || t.req.is_cancel
    then pos 0
    else if t.resp.transaction_state == b'E'
    then pos 0
    else if t.resp.transaction_state == b'T' && not t.is_fixed_conn
    then pos 0
    else t.keep_alive_timeo

abbrev pub failed : ComplexPostgresTask → ℕ → Bool × ComplexPostgresTask
failed t error = (true, record t { state = state_task_error; error = error })

-- `creates` is whether OpenSSL gave create_ssl what it asked for.
unfoldable pub handle_starttls_transition :
    Bool → ℕ → ComplexPostgresTask → Bool × ComplexPostgresTask
handle_starttls_transition creates ssl_byte t =
    if ssl_byte == b'S'
    then if not creates
      then failed t ssl_init_failed
      else (false, record t { conn = some (record (new_connection true) { state = 1 }) })
    else failed t ssl_not_supported

abbrev pub login_error : PostgresResponse → ℕ
login_error resp =
    if not (resp.internal_error == 0)
    then resp.internal_error
    else if str_eq resp.error.sql_state (codes "28P01")
        || str_eq resp.error.sql_state (codes "28000")
    then auth_failed
    else protocol_error

-- The connection that is ready: the backend's key, and no request sent yet.
abbrev pub ready_connection : Option PostgresConnection → PostgresResponse → PostgresConnection
ready_connection conn resp = record (elim conn [ none ↦ new_connection false | some c ↦ c ]) {
  backend_pid = resp.backend_key.pid;
  backend_secret = resp.backend_key.secret_key;
  backend_secret_data = resp.backend_key.secret_data;
  state = 3;
}

unfoldable pub handle_startup_auth_completion :
    PostgresResponse → ComplexPostgresTask → Bool × ComplexPostgresTask
handle_startup_auth_completion startup_resp t =
    if startup_resp.is_error
    then failed t (login_error startup_resp)
    else if not (startup_resp.negotiated.version == 0)
        && not (startup_resp.negotiated.version / 2 ^ 16 == 3)
    then failed t protocol_not_supported
    else (
      false,
      record t { conn = some (ready_connection t.conn startup_resp); is_user_request = true },
    )

-- A null `startup_resp_` or `ssl_resp_` is a fault.
abbrev pub complete_login : ComplexPostgresTask → Run (Bool × ComplexPostgresTask)
complete_login t = elim t.startup_resp [
  | none ↦ fault
  | some startup_resp ↦ ok (handle_startup_auth_completion startup_resp t)
]

abbrev pub start_tls : Bool → ComplexPostgresTask → Run (Bool × ComplexPostgresTask)
start_tls creates t = elim t.ssl_resp [
  | none ↦ fault
  | some ssl_byte ↦ ok (handle_starttls_transition creates ssl_byte t)
]

-- `conn->state = 2`
abbrev startup_next : ComplexPostgresTask → ComplexPostgresTask
startup_next t = record t {
  conn = elim t.conn [ none ↦ none | some conn ↦ some (record conn { state = 2 }) ];
}

-- `true` is the end of the task.
unfoldable pub finish_once : Bool → ComplexPostgresTask → Run (Bool × ComplexPostgresTask)
finish_once creates t =
    if not (is_success t.state)
    then ok (true, t)
    else if t.seq == 0 && t.is_ssl
    then start_tls creates t
    else if t.is_ssl && conn_state_is t.conn 1
    then ok (false, startup_next t)
    else if t.is_ssl && conn_state_is t.conn 2
    then complete_login t
    else if not t.is_user_request
    then complete_login t
    else ok (true, t)

-- The first two tests of handle: the state and the error that the task ends with.
abbrev pub settle_disconnect : ComplexPostgresTask → TaskState × ℕ → TaskState × ℕ
settle_disconnect t (state, error) =
    if (t.req.is_disconnect || t.req.is_cancel)
      && is_sys_error state
      && (error == econnreset || error == 0)
    then (state_success, 0)
    else (state, error)

abbrev pub settle_error : ComplexPostgresTask → TaskState × ℕ → TaskState × ℕ
settle_error t (state, error) =
    if is_success state && t.resp.is_error && not (t.resp.internal_error == 0)
    then (state_task_error, t.resp.internal_error)
    else (state, error)

-- What the task leaves on the handle.
abbrev disconnected_handle : ConnectionHandle → ConnectionHandle
disconnected_handle h = record h {
  last_tx_state = b'I';
  backend_pid = pos 0;
  backend_secret_data = [];
}

abbrev answered_handle : PostgresResponse → ConnectionHandle → ConnectionHandle
answered_handle resp h = record h {
  last_tx_state = if resp.ready_for_query then resp.transaction_state else h.last_tx_state;
  backend_pid = resp.backend_key.pid;
  backend_secret_data = resp.backend_key.secret_data;
}

abbrev lost_handle : ConnectionHandle → ConnectionHandle
lost_handle h = record h { backend_pid = pos 0; backend_secret_data = [] }

abbrev map_handle :
    (ConnectionHandle → ConnectionHandle) → Option ConnectionHandle → Option ConnectionHandle
map_handle f none = none
map_handle f (some h) = some (f h)

-- The part for a fixed connection with a target.
unfoldable pub record_continuity : TaskState → ComplexPostgresTask → ComplexPostgresTask
record_continuity state t =
    if t.req.is_disconnect && is_success state
    then record t {
      target = some continuity_new;
      connection_handle = map_handle disconnected_handle t.connection_handle;
    }
    else if t.user_request_started && is_success state
    then record t {
      target =
          some
            (if t.resp.ready_for_query then pos t.resp.transaction_state else continuity_unknown);
      connection_handle = map_handle (answered_handle t.resp) t.connection_handle;
    }
    else if t.user_request_started
    then record t { connection_handle = map_handle lost_handle t.connection_handle }
    else t

-- The record of the answer on the connection.
abbrev pub answered_task : TaskState → ComplexPostgresTask → ComplexPostgresTask
answered_task state t =
    let u = update_after_response t.conn t.req t.resp state in
    if t.is_user_request then record t { conn = u.0; resp = u.1 } else t

-- And on the route, for a request of the user on a fixed connection with a target.
unfoldable pub settle_target : TaskState → ComplexPostgresTask → ComplexPostgresTask
settle_target state t =
    if t.is_user_request && t.is_fixed_conn
    then elim t.target [ none ↦ t | some _ ↦ record_continuity state t ]
    else t

-- What handle gives to the base class, and the task.
unfoldable pub handle : TaskState → ℕ → ComplexPostgresTask → (TaskState × ℕ) × ComplexPostgresTask
handle state error t =
    let ending = settle_error t (settle_disconnect t (state, error)) in
    (ending, settle_target ending.0 (answered_task ending.0 t))
