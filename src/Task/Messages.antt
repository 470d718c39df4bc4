-- ===== src/Task/Messages.antt =====
-- ComplexPostgresTask::message_out and message_in of src/factory/PostgresTaskImpl.cc.
use wf_postgres.Common.{
  ℕ, Bool, true, false, not, ◌&&◌, Option, none, some, ◌==◌, ltb, if◌then◌else◌, [], ◌∷◌, Bytes,
}
use wf_postgres.Request.{new_request}
use wf_postgres.Response.{new_response, clear_buffer, set_auth}
use wf_postgres.Task.Guards.{Guard, passes, stops, check_reconnect_guard, validate_request}
use wf_postgres.Task.{
  Message, ssl_request, startup_request, user_request, ssl_response, startup_response,
  user_response, ssl_handshaker, ssl_wrapper, PostgresConnection, ComplexPostgresTask,
  continuity_unknown,
}

-- The wrapper that the connection has, or a new one around the message.
unfoldable pub wrap_ssl : PostgresConnection → Message → Message × PostgresConnection
wrap_ssl conn msg = elim conn.wrapper [
  | some first ↦ (ssl_wrapper first, conn)
  | none ↦ (ssl_wrapper msg, record conn { wrapper = some msg })
]

abbrev pub wrap_on :
    ComplexPostgresTask → PostgresConnection → Message → Message × ComplexPostgresTask
wrap_on t conn msg = let w = wrap_ssl conn msg in (w.0, record t { conn = some w.1 })

-- `startup_req_`, made if there is none.
abbrev pub with_startup_req : ComplexPostgresTask → ComplexPostgresTask
with_startup_req t = elim t.startup_req [
  | some _ ↦ t
  | none ↦ record t {
    startup_req = some (record new_request {
      is_startup = true;
      protocol_version = t.target_protocol_version;
      user = t.user;
      db = t.db;
      pass = t.pass;
      startup_params = t.startup_params;
    });
  }
]

-- A message to send, or the null pointer and `errno`.
pub data Outgoing : Type 0 where
  sends : Message → ComplexPostgresTask → Outgoing
  refuses : ℕ → ComplexPostgresTask → Outgoing

abbrev pub sends_on : Message × ComplexPostgresTask → Outgoing
sends_on (msg, t) = sends msg t

-- `conn && conn->state == n`
abbrev pub conn_state_is : Option PostgresConnection → ℕ → Bool
conn_state_is none n = false
conn_state_is (some conn) n = conn.state == n

-- `!conn || (is_ssl_ && conn->state < 3)`
abbrev pub needs_login : Bool → Option PostgresConnection → Bool
needs_login is_ssl none = true
needs_login is_ssl (some conn) = is_ssl && ltb conn.state 3

-- The target is marked before a request leaves.
abbrev pub mark_target : ComplexPostgresTask → ComplexPostgresTask
mark_target t =
    if t.is_fixed_conn && not t.req.is_cancel && not t.req.is_disconnect
    then record t { target = elim t.target [ none ↦ none | some _ ↦ some continuity_unknown ] }
    else t

abbrev pub send_request : ComplexPostgresTask → Outgoing
send_request t = elim t.conn [
  | none ↦ sends user_request t
  | some conn ↦
      if conn.has_ssl then sends_on (wrap_on t conn user_request) else sends user_request t
]

abbrev after_guard : ComplexPostgresTask → Guard → Outgoing
after_guard t (stops error_code none) = refuses error_code t
after_guard t (stops error_code (some s)) = refuses error_code (record t { target = some s })
after_guard t (passes conn) =
    send_request (mark_target (record t { conn = conn; user_request_started = true }))

abbrev validated : ComplexPostgresTask → Guard → Outgoing
validated t (stops error_code none) = refuses error_code t
validated t (stops error_code (some s)) = refuses error_code (record t { target = some s })
validated t (passes conn) = after_guard (record t { conn = conn }) (validate_request conn t.req)

-- The part behind `req = this->get_req()`.
unfoldable pub user_message_out : ComplexPostgresTask → Outgoing
user_message_out t0 =
    let t = record t0 { is_user_request = true } in
    let allow_idle_reconnect = not t.req.wait_notification && not t.req.is_copy in
    validated t (
      if t.req.is_disconnect
      then passes t.conn
      else check_reconnect_guard t.is_fixed_conn allow_idle_reconnect t.target t.conn)

-- `conn->state == 2`, so the connection is there: the startup packet through SSL.
abbrev wrap_startup : ComplexPostgresTask → Option PostgresConnection → Outgoing
wrap_startup t none = refuses 0 t
wrap_startup t (some conn) = sends_on (wrap_on (with_startup_req t) conn startup_request)

unfoldable pub message_out : ComplexPostgresTask → Outgoing
message_out t0 =
    let t = record t0 { is_user_request = false } in
    if t.seq == 0 && not t.req.is_cancel && needs_login t.is_ssl t.conn
    then if t.is_ssl then sends ssl_request t else sends startup_request (with_startup_req t)
    else if t.is_ssl && conn_state_is t.conn 1
    then sends ssl_handshaker (record t { has_handshaker = true })
    else if t.is_ssl && conn_state_is t.conn 2
    then wrap_startup t t.conn
    else user_message_out t

-- `startup_resp_`, made if there is none.
abbrev pub with_startup_resp : ComplexPostgresTask → ComplexPostgresTask
with_startup_resp t = elim t.startup_resp [
  | some _ ↦ t
  | none ↦ record t {
    startup_resp =
        some (record (set_auth (clear_buffer (new_response t.resp.entropy)) t.user t.pass) {
          is_startup = true;
        });
  }
]

abbrev wrapped_in : Bool → ComplexPostgresTask → Message → Message × ComplexPostgresTask
wrapped_in may_wrap t msg = elim t.conn [
  | none ↦ (msg, t)
  | some conn ↦ if may_wrap && conn.has_ssl then wrap_on t conn msg else (msg, t)
]

-- `!conn || conn->state == 0`
abbrev is_unconnected : Option PostgresConnection → Bool
is_unconnected none = true
is_unconnected (some conn) = conn.state == 0

abbrev some_message : Message × ComplexPostgresTask → Option Message × ComplexPostgresTask
some_message (msg, t) = (some msg, t)

-- `ssl_resp_`, made if there is none.
abbrev pub with_ssl_resp : ComplexPostgresTask → ComplexPostgresTask
with_ssl_resp t = elim t.ssl_resp [ some _ ↦ t | none ↦ record t { ssl_resp = some 0 } ]

-- PostgresSSLResponse::append: the byte, the size that it took, and whether it is complete.
unfoldable pub ssl_response_append : ℕ → Bytes → Bool × ℕ × ℕ
ssl_response_append byte [] = (false, 0, byte)
ssl_response_append byte (b ∷ _) = (true, 1, b)

-- `none` is the handshaker that was never made.
unfoldable pub message_in : ComplexPostgresTask → Option Message × ComplexPostgresTask
message_in t =
    if not t.is_user_request
    then (if t.is_ssl && is_unconnected t.conn
        then (some ssl_response, with_ssl_resp t)
        else if conn_state_is t.conn 1
        then (if t.has_handshaker then some ssl_handshaker else none, t)
        else some_message (wrapped_in true (with_startup_resp t) startup_response))
    else let resp = record (set_auth (clear_buffer t.resp) t.user t.pass) { is_startup = false } in
      some_message (wrapped_in t.is_ssl (record t { resp = resp }) user_response)
