-- ===== src/Task/Login.antt =====
-- Login in src/factory/PostgresTaskImpl.cc: the startup packet, its answer, and the request that
-- follows on the same connection.
use wf_postgres.Common.{
  ℕ, Option, ◌+◌, ◌/◌, ◌^◌, ◌≡◌, ◌≢◌, ◌⊎◌, inl, inr, refl, ap, ◌∙◌, Bool, true, false, not, ◌&&◌,
  none, some, ok, ◌==◌, Bool-cases, arith,
}
use wf_postgres.Response.{PostgresResponse}
use wf_postgres.Task.Finish.{
  login_error, ready_connection, handle_startup_auth_completion, finish_once,
}
use wf_postgres.Task.Guards.{
  check_reconnect_guard, validate_request, validate_connected, has_history,
}
use wf_postgres.Task.Messages.{
  sends, message_out, user_message_out, message_in, with_startup_req, with_startup_resp,
  mark_target, send_request,
}
use wf_postgres.Task.Transactions.{message_out-user, and-false}
use wf_postgres.Task.{
  startup_request, user_request, startup_response, state_success, state_task_error,
  PostgresConnection, ComplexPostgresTask, protocol_ready,
}

-- The connection behind a login: the server's key, member by member, in the given state; the rest
-- is as the connection was, or new.
pub record HasKey (resp : PostgresResponse) (old : Option PostgresConnection) (state : ℕ)
    (c : PostgresConnection) : Type 0 where
  pub at_state : c.state ≡ state
  pub pid : c.backend_pid ≡ resp.backend_key.pid
  pub secret : c.backend_secret ≡ resp.backend_key.secret_key
  pub secret_data : c.backend_secret_data ≡ resp.backend_key.secret_data
  pub ssl : c.has_ssl ≡ elim old [ none ↦ false | some o ↦ o.has_ssl ]
  pub protocol : c.protocol_state ≡ elim old [ none ↦ protocol_ready | some o ↦ o.protocol_state ]
  pub same_wrapper : c.wrapper ≡ elim old [ none ↦ none | some o ↦ o.wrapper ]

ready_connection-HasKey :
    (old : Option PostgresConnection) (resp : PostgresResponse)
    → HasKey resp old 3 (ready_connection old resp)
ready_connection-HasKey none resp = record {
  at_state = refl;
  pid = refl;
  secret = refl;
  secret_data = refl;
  ssl = refl;
  protocol = refl;
  same_wrapper = refl;
}
ready_connection-HasKey (some o) resp = record {
  at_state = refl;
  pid = refl;
  secret = refl;
  secret_data = refl;
  ssl = refl;
  protocol = refl;
  same_wrapper = refl;
}

-- The outcome of a login: the connection is ready with the server's key, or the task fails with an
-- error.
pub record LoggedIn (resp : PostgresResponse) (t t' : ComplexPostgresTask) : Type 0 where
  pub accepted : resp.is_error ≡ false
  pub version : (resp.negotiated.version ≡ 0) ⊎ (resp.negotiated.version / 2 ^ 16 ≡ 3)
  pub conn : PostgresConnection
  pub there : t'.conn ≡ some conn
  pub key : HasKey resp t.conn 3 conn
  pub then_user : t'.is_user_request ≡ true
  pub same_state : t'.state ≡ t.state

pub record LoginFailed (resp : PostgresResponse) (t' : ComplexPostgresTask) : Type 0 where
  pub refused :
      (resp.is_error ≡ true)
      ⊎ ((resp.negotiated.version ≢ 0) × (resp.negotiated.version / 2 ^ 16 ≢ 3))
  pub ends : t'.state ≡ state_task_error
  pub says_why : t'.error ≢ 0

abbrev pub LoginOutcome :
    PostgresResponse → ComplexPostgresTask → Bool × ComplexPostgresTask → Type 0
LoginOutcome resp t (true, t') = LoginFailed resp t'
LoginOutcome resp t (false, t') = LoggedIn resp t t'

login_error-nonzero : (resp : PostgresResponse) → login_error resp ≢ 0
login_error-nonzero resp = ground arith

-- The end of a login: an answer that is an error, or that names another major version, fails the
-- task with an error that is not zero; every other answer makes the connection ready for a
-- request, with the process id and the secret of the answer, member by member, and with the SSL
-- and the wrapper that it had.
pub handle_startup_auth_completion-LoginOutcome :
    (resp : PostgresResponse) (t : ComplexPostgresTask)
    → LoginOutcome resp t (handle_startup_auth_completion resp t)
unfolding handle_startup_auth_completion
handle_startup_auth_completion-LoginOutcome resp t = elim (Bool-cases resp.is_error) [
  | inl e ↦ rw e (record { refused = inl refl; ends = refl; says_why = login_error-nonzero resp })
  | inr e ↦
      elim (Bool-cases
        (not (resp.negotiated.version == 0) && not (resp.negotiated.version / 2 ^ 16 == 3))) [
          | inl v ↦
              rw (e, v)
                (record { refused = inr (ground arith); ends = refl; says_why = ground arith })
          | inr v ↦
              rw (e, v)
                (record {
                  accepted = refl;
                  version = ground arith;
                  conn = ready_connection t.conn resp;
                  there = refl;
                  key = ready_connection-HasKey t.conn (record resp { is_error = false });
                  then_user = refl;
                  same_state = refl;
                })
        ]
]

-- A task at its start, without SSL.
abbrev pub begins_login : ComplexPostgresTask → ComplexPostgresTask
begins_login t = record t {
  conn = none;
  seq = 0;
  is_ssl = false;
  startup_req = none;
  startup_resp = none;
}

-- The round that follows: Workflow counts it, and the answer is there.
abbrev pub next_round : ComplexPostgresTask → ComplexPostgresTask
next_round t = record t { seq = t.seq + 1 }

abbrev pub received : ComplexPostgresTask → PostgresResponse → ComplexPostgresTask
received t resp = record t { state = state_success; startup_resp = some resp }

-- An ordinary request, whose session has no history that forbids a new connection.
pub record IsOrdinary (t : ComplexPostgresTask) : Type 0 where
  pub no_cancel : t.req.is_cancel ≡ false
  pub no_disconnect : t.req.is_disconnect ≡ false
  pub no_copy : t.req.is_copy ≡ false
  pub no_copy_done : t.req.copy_done ≡ false
  pub no_copy_fail : t.req.copy_fail ≡ false
  pub no_wait : t.req.wait_notification ≡ false
  pub no_history : has_history t.is_fixed_conn true t.target ≡ false

login_out :
    (t : ComplexPostgresTask)
    → t.req.is_cancel ≡ false
    → message_out (begins_login t)
      ≡ sends startup_request
          (with_startup_req (record (begins_login t) { is_user_request = false }))
unfolding message_out
login_out t c = rw c refl

login_finish :
    (creates : Bool) (t : ComplexPostgresTask) (resp : PostgresResponse)
    → t.is_ssl ≡ false
    → t.is_user_request ≡ false
    → finish_once creates (received t resp)
      ≡ ok (handle_startup_auth_completion resp (received t resp))
unfolding finish_once
login_finish creates t resp s u = rw (s, u, and-false (t.seq == 0)) refl

mark_target-conn : (t : ComplexPostgresTask) → (mark_target t).conn ≡ t.conn
mark_target-conn t =
    elim (Bool-cases (t.is_fixed_conn && not t.req.is_cancel && not t.req.is_disconnect)) [
      | inl e ↦ rw e refl
      | inr e ↦ rw e refl
    ]

send_request-plain :
    (t : ComplexPostgresTask) {c : PostgresConnection}
    → t.conn ≡ some c
    → c.has_ssl ≡ false
    → send_request t ≡ sends user_request t
send_request-plain t e h = rw (e, h) refl

user_message_out-ordinary :
    (t : ComplexPostgresTask) {c : PostgresConnection}
    → IsOrdinary t
    → t.conn ≡ some c
    → (c.state ≡ 3) × (c.protocol_state ≡ protocol_ready)
    → user_message_out t
      ≡ send_request (
          mark_target (record t {
            is_user_request = true;
            conn = some (record c { state = 4 });
            user_request_started = true;
          }))
unfolding user_message_out check_reconnect_guard validate_request validate_connected
user_message_out-ordinary t o e h =
    rw
      (
        o.no_disconnect, o.no_wait, o.no_copy, o.no_copy_done, o.no_copy_fail, e, h.0, h.1,
        o.no_history,
      )
      refl

request_out :
    (t : ComplexPostgresTask) {c : PostgresConnection}
    → IsOrdinary t
    → t.conn ≡ some c
    → (c.state ≡ 3) × (c.protocol_state ≡ protocol_ready) × (c.has_ssl ≡ false)
    → (t' : ComplexPostgresTask) × (message_out t ≡ sends user_request t')
      × (t'.conn ≡ some (record c { state = 4 }))
request_out t {c} o e h =
    let t1 : ComplexPostgresTask = record t {
      is_user_request = true;
      conn = some (record c { state = 4 });
      user_request_started = true;
    } in
    (
      mark_target t1,
      message_out-user t e h.0
          ∙ user_message_out-ordinary t o e (h.0, h.1)
          ∙ send_request-plain (mark_target t1) (mark_target-conn t1) h.2,
      mark_target-conn t1,
    )

completion-accepted :
    (resp : PostgresResponse) (t : ComplexPostgresTask)
    → resp.is_error ≡ false
    → (resp.negotiated.version ≡ 0) ⊎ (resp.negotiated.version / 2 ^ 16 ≡ 3)
    → handle_startup_auth_completion resp t
      ≡ (false, record t { conn = some (ready_connection t.conn resp); is_user_request = true })
unfolding handle_startup_auth_completion
completion-accepted resp t good version =
    let fine : (not (resp.negotiated.version == 0) && not (resp.negotiated.version / 2 ^ 16 == 3))
        ≡ false =
      ground arith in
    rw (good, fine) refl

-- A login without SSL, from its start to the request: the startup packet goes out, the startup
-- response takes the answer, and if that is neither an error nor of another major version, the
-- task's own request goes out next, on a connection that is busy, without SSL and outside any
-- COPY, and that has the process id and the secret of the startup response, member by member.
-- The request is an ordinary one, and the session has no history.
pub login-request :
    (creates : Bool) (t : ComplexPostgresTask) (resp : PostgresResponse)
    → IsOrdinary t
    → resp.is_error ≡ false
    → (resp.negotiated.version ≡ 0) ⊎ (resp.negotiated.version / 2 ^ 16 ≡ 3)
    → (t1 t2 t3 t4 : ComplexPostgresTask) × (message_out (begins_login t)
        ≡ sends startup_request t1)
      × (message_in t1 ≡ (some startup_response, t2))
      × (finish_once creates (received t2 resp) ≡ ok (false, t3))
      × (message_out (next_round t3) ≡ sends user_request t4)
      × (c : PostgresConnection) × (t4.conn ≡ some c)
      × HasKey resp none 4 c
unfolding message_in
login-request creates t resp o good version =
    let t1 = with_startup_req (record (begins_login t) { is_user_request = false }) in
    let t2 = with_startup_resp t1 in
    let t3 : ComplexPostgresTask = record (received t2 resp) {
      conn = some (ready_connection none resp);
      is_user_request = true;
    } in
    let (t4, goes, on_conn) =
      request_out (next_round t3) {c = ready_connection none resp}
        (record {
          no_cancel = o.no_cancel;
          no_disconnect = o.no_disconnect;
          no_copy = o.no_copy;
          no_copy_done = o.no_copy_done;
          no_copy_fail = o.no_copy_fail;
          no_wait = o.no_wait;
          no_history = o.no_history;
        })
        refl (refl, refl, refl) in
    (
      t1,
      t2,
      t3,
      t4,
      login_out t o.no_cancel,
      refl,
      login_finish creates t2 resp refl refl
          ∙ ap ok (completion-accepted resp (received t2 resp) good version),
      goes,
      record (ready_connection none resp) { state = 4 },
      on_conn,
      record {
        at_state = refl;
        pid = refl;
        secret = refl;
        secret_data = refl;
        ssl = refl;
        protocol = refl;
        same_wrapper = refl;
      },
    )
