-- ===== src/Task.antt =====
-- src/factory/PostgresTaskImpl.cc: the task that logs in, sends one request and takes its answer.
-- The connection's context, the route target and the connection handle are shared with later tasks,
-- and stand in the task's record while it runs. The states of a task and the error numbers of the
-- C library are Workflow's and Linux's.
pub mod Guards
pub mod Messages
pub mod Finish
pub mod Transactions
pub mod Protocol
pub mod Login
pub mod Wrapper
pub mod Uri
pub mod Factory
use wf_postgres.Common.{
  ℕ, Bool, true, false, Option, none, some, Bytes, ℤ, pos, negsuc, ◌==◌, [], ◌&&◌, ◌||◌, not,
}
use wf_postgres.Request.{PostgresRequest, new_request}
use wf_postgres.Response.{PostgresResponse}
use wf_postgres.Types.{StringMap}

-- PostgresProtocolState
pub data PostgresProtocolState : Type 0 where
  protocol_ready protocol_copy_in protocol_notify_wait protocol_broken : PostgresProtocolState

-- PostgresContinuityState: what the route knows of the session, else its transaction state.
abbrev pub continuity_new : ℤ
continuity_new = pos 0

abbrev pub continuity_idle : ℤ
continuity_idle = pos b'I'

abbrev pub continuity_unknown : ℤ
continuity_unknown = negsuc 0

abbrev pub int_eq : ℤ → ℤ → Bool
int_eq (pos a) (pos b) = a == b
int_eq (negsuc a) (negsuc b) = a == b
int_eq _ _ = false

-- WFT_STATE_SUCCESS, WFT_STATE_TASK_ERROR, WFT_STATE_SYS_ERROR, and those not named in the code.
pub data TaskState : Type 0 where
  state_success state_task_error state_sys_error state_other : TaskState

abbrev pub is_success : TaskState → Bool
is_success state_success = true
is_success _ = false

abbrev pub is_task_error : TaskState → Bool
is_task_error state_task_error = true
is_task_error _ = false

abbrev pub is_sys_error : TaskState → Bool
is_sys_error state_sys_error = true
is_sys_error _ = false

abbrev pub ebadf : ℕ
ebadf = 9

abbrev pub eproto : ℕ
eproto = 71

abbrev pub econnreset : ℕ
econnreset = 104

-- What a task gives to the communicator; a wrapper holds the message it was made for.
pub data Message : Type 0 where
  ssl_request startup_request user_request : Message
  ssl_response startup_response user_response : Message
  ssl_handshaker : Message
  ssl_wrapper : Message → Message

-- `has_ssl` says that `ssl` is not null, `wrapper` holds the message of the wrapper.
pub record PostgresConnection : Type 0 where
  pub has_ssl : Bool
  pub state : ℕ
  pub protocol_state : PostgresProtocolState
  pub wrapper : Option Message
  pub backend_pid : ℤ
  pub backend_secret : ℤ
  pub backend_secret_data : Bytes

-- PostgresConnection(s)
abbrev pub new_connection : Bool → PostgresConnection
new_connection has_ssl = record {
  has_ssl = has_ssl;
  state = 0;
  protocol_state = protocol_ready;
  wrapper = none;
  backend_pid = pos 0;
  backend_secret = pos 0;
  backend_secret_data = [];
}

-- What the task writes of the WFPostgresConnection that it belongs to.
pub record ConnectionHandle : Type 0 where
  pub last_tx_state : ℕ
  pub backend_pid : ℤ
  pub backend_secret_data : Bytes

-- ComplexPostgresTask with the members of WFComplexClientTask that it uses. `target` is the state of
-- the route target, `ssl_resp` the byte of the answer to an SSL request.
pub record ComplexPostgresTask : Type 0 where
  pub req : PostgresRequest
  pub resp : PostgresResponse
  pub state : TaskState
  pub error : ℕ
  pub seq : ℕ
  pub is_fixed_conn : Bool
  pub target : Option ℤ
  pub keep_alive_timeo : ℤ
  pub conn : Option PostgresConnection
  pub user : Bytes
  pub pass : Bytes
  pub db : Bytes
  pub startup_params : StringMap
  pub is_user_request : Bool
  pub connection_handle : Option ConnectionHandle
  pub user_request_started : Bool
  pub is_ssl : Bool
  pub startup_req : Option PostgresRequest
  pub has_handshaker : Bool
  pub startup_resp : Option PostgresResponse
  pub ssl_resp : Option ℕ
  pub target_protocol_version : ℕ
