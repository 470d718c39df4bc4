-- ===== src/Tests/TaskTests.antt =====
-- Inputs for src/factory/PostgresTaskImpl.cc.
use wf_postgres.Common.{
  ◌≡◌, refl, true, false, [], ◌∷◌, All, none, some, inl, inr, ok, pos, negsuc, codes, arith,
}
use wf_postgres.Request.{new_request, set_query}
use wf_postgres.Response.{PostgresResponse, new_response}
use wf_postgres.Task.Finish.{
  handle_startup_auth_completion, finish_once, handle, settle_target, record_continuity,
}
use wf_postgres.Task.Guards.{
  stops, passes, validate_connected, validate_request, update_after_response,
}
use wf_postgres.Task.Login.{
  HasKey, LoginOutcome, begins_login, next_round, received,
  handle_startup_auth_completion-LoginOutcome, login-request,
}
use wf_postgres.Task.Wrapper.{message_in-wrapped}
use wf_postgres.Task.Messages.{sends, message_out, message_in}
use wf_postgres.Task.Protocol.{
  answered, begins, goes_on, IsBetween, Session-IsBetween, refused-broken,
}
use wf_postgres.Task.Transactions.{OnNewConnection, IsRefused, refused_task, message_out-handle}
use wf_postgres.Task.{
  startup_request, user_request, startup_response, ssl_wrapper, state_success, state_sys_error,
  PostgresConnection, ComplexPostgresTask, new_connection, protocol_notify_wait, protocol_broken,
  ebadf, eproto, econnreset,
}

abbrev query_task : ComplexPostgresTask
query_task = record {
  req = set_query new_request (codes "SELECT 1");
  resp = new_response [];
  state = state_success;
  error = 0;
  seq = 0;
  is_fixed_conn = true;
  target = some (pos 0);
  keep_alive_timeo = pos 60000;
  conn = none;
  user = codes "ada";
  pass = [];
  db = [];
  startup_params = [];
  is_user_request = true;
  connection_handle = none;
  user_request_started = true;
  is_ssl = false;
  startup_req = none;
  has_handshaker = false;
  startup_resp = none;
  ssl_resp = none;
  target_protocol_version = 196610;
}

abbrev ready : PostgresConnection
ready = record (new_connection false) { state = 3 }

-- A BEGIN whose answer has come.
abbrev after_begin : ComplexPostgresTask
after_begin = record query_task {
  conn = some (record ready { state = 4 });
  resp = record (new_response []) { ready_for_query = true; transaction_state = b'T' };
}

-- The next request of the session, on a connection that replaced the lost one.
abbrev after_loss : ComplexPostgresTask
after_loss = record query_task {
  conn = some ready;
  target = some (pos b'T');
  seq = 1;
  user_request_started = false;
}

-- And the one behind it.
abbrev after_refusal : ComplexPostgresTask
after_refusal = record after_loss { target = some (negsuc 0) }

abbrev on_ready : OnNewConnection after_loss
on_ready = record { fixed = refl; goes_on = refl; conn = ready; there = refl; logged_in = refl }

after_begin-target : some (pos b'T') ≡ (handle state_success 0 after_begin).1.target
unfolding handle settle_target record_continuity update_after_response
after_begin-target = refl

after_loss-target :
    some (negsuc 0) ≡ (handle state_sys_error econnreset (refused_task after_loss)).1.target
unfolding handle settle_target record_continuity update_after_response
after_loss-target = refl

message_out-handle_example : All IsRefused (after_loss ∷ after_refusal ∷ [])
message_out-handle_example =
    message_out-handle after_begin (after_loss ∷ after_refusal ∷ [])
      (record {
        fixed = refl;
        goes_on = refl;
        is_user = refl;
        started = refl;
        old_target = pos 0;
        routed = refl;
        clean = refl;
        open_end = inr (inl refl);
      })
      (
        on_ready,
        refl,
        after_begin-target,
        (
          record { fixed = refl; goes_on = refl; conn = ready; there = refl; logged_in = refl },
          refl,
          after_loss-target,
          tt,
        ),
      )

-- A wait for notifications, and what a successful answer leaves.
abbrev listening : PostgresConnection
listening = record ready { protocol_state = protocol_notify_wait }

listening_test :
    validate_request (some ready) (record new_request { wait_notification = true })
    ≡ passes (some listening)
unfolding validate_request validate_connected
listening_test = refl

listened_test :
    update_after_response
      (some listening)
      (record new_request { wait_notification = true })
      (new_response [])
      state_success
    ≡ (some ready, new_response [])
unfolding update_after_response
listened_test = refl

Session-IsBetween_example : IsBetween ready.protocol_state
Session-IsBetween_example = Session-IsBetween ready ready tt (
    goes_on (record new_request { wait_notification = true }) begins
      (answered (new_response []) state_success listening_test listened_test))

-- COPY data where no COPY is open.
abbrev broken : PostgresConnection
broken = record ready { protocol_state = protocol_broken }

copy_test :
    validate_request (some ready) (record new_request { is_copy = true }) ≡ stops eproto none
unfolding validate_request validate_connected
copy_test = refl

copy_broken_test :
    update_after_response
      (some ready)
      (record new_request { is_copy = true })
      (new_response [])
      state_sys_error
    ≡ (some broken, new_response [])
unfolding update_after_response
copy_broken_test = refl

refused-broken_example : validate_request (some broken) new_request ≡ stops ebadf none
refused-broken_example =
    refused-broken ready broken broken (record new_request { is_copy = true }) new_request
      (new_response []) state_sys_error (refl, refl) copy_test copy_broken_test begins

-- An answer with the backend's key.
abbrev keyed : PostgresResponse
keyed = record (new_response []) {
  backend_key = record { pid = pos 77; secret_key = pos 5; secret_data = codes "key" };
}

handle_startup_auth_completion-LoginOutcome_example :
    LoginOutcome keyed query_task (handle_startup_auth_completion keyed query_task)
handle_startup_auth_completion-LoginOutcome_example =
    handle_startup_auth_completion-LoginOutcome keyed query_task

abbrev over_ssl : ComplexPostgresTask
over_ssl = record query_task {
  is_ssl = true;
  seq = 2;
  conn = some (record (new_connection true) { state = 2 });
}

message_in-wrapped_example :
    (t' : ComplexPostgresTask) × (message_out over_ssl ≡ sends (ssl_wrapper startup_request) t')
    × ((message_in t').0 ≡ some (ssl_wrapper startup_request))
message_in-wrapped_example = message_in-wrapped over_ssl refl (refl, refl, refl) refl (omega arith)

login-request_example :
    (t1 t2 t3 t4 : ComplexPostgresTask) × (message_out (begins_login query_task)
      ≡ sends startup_request t1)
    × (message_in t1 ≡ (some startup_response, t2))
    × (finish_once true (received t2 keyed) ≡ ok (false, t3))
    × (message_out (next_round t3) ≡ sends user_request t4)
    × (c : PostgresConnection) × (t4.conn ≡ some c)
    × HasKey keyed none 4 c
login-request_example =
    login-request true query_task keyed
      (record {
        no_cancel = refl;
        no_disconnect = refl;
        no_copy = refl;
        no_copy_done = refl;
        no_copy_fail = refl;
        no_wait = refl;
        no_history = refl;
      })
      refl (inl refl)
