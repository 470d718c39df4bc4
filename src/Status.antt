-- ===== src/Status.antt =====
-- include/PostgresStatus.h: what a finished task has come to.
pub mod Classes
use wf_postgres.Common.{
  ℕ, Bool, true, false, not, [], ◌++◌, Option, none, some, Bytes, codes, ℤ, pos, is_empty, ◌==◌,
  if◌then◌else◌,
}
use wf_postgres.Libc.{to_string_ℤ}
use wf_postgres.Response.{PostgresResponse}
use wf_postgres.Task.{int_eq}
use wf_postgres.Types.{PostgresError, no_error}

pub data PostgresStatusKind : Type 0 where
  success transport_error server_error empty_response : PostgresStatusKind

pub record PostgresStatus : Type 0 where
  pub kind : PostgresStatusKind
  pub transport_state : ℤ
  pub transport_error : ℤ
  pub sqlstate : Bytes
  pub error_message : Bytes
  pub server_error : PostgresError

-- get_state, get_error and get_resp of the task; WFT_STATE_SUCCESS is 0 in Workflow.
pub record FinishedTask : Type 0 where
  pub state : ℤ
  pub error : ℤ
  pub resp : Option PostgresResponse

-- PostgresStatus()
abbrev pub success_status : PostgresStatus
success_status = record {
  kind = success;
  transport_state = pos 0;
  transport_error = pos 0;
  sqlstate = [];
  error_message = [];
  server_error = no_error;
}

unfoldable pub from_transport_error : ℤ → ℤ → PostgresStatus
from_transport_error state error = record success_status {
  kind = PostgresStatusKind.transport_error;
  transport_state = state;
  transport_error = error;
  error_message =
      codes "Transport error (state="
      ++ (to_string_ℤ state ++ (codes ", error=" ++ (to_string_ℤ error ++ codes ")")));
}

unfoldable pub from_server_error : PostgresError → PostgresStatus
from_server_error err = record success_status {
  kind = PostgresStatusKind.server_error;
  server_error = err;
  sqlstate = err.sql_state;
  error_message = err.message;
}

abbrev pub empty_status : Bytes → PostgresStatus
empty_status message = record success_status { kind = empty_response; error_message = message }

abbrev pub from_response : Option PostgresResponse → PostgresStatus
from_response none = empty_status (codes "Response is null")
from_response (some resp) = if resp.is_error then from_server_error resp.error else success_status

-- get_status and PostgresStatus::from_task; `none` is a null pointer.
unfoldable pub from_task : Option FinishedTask → PostgresStatus
unfolding from_transport_error from_server_error
from_task none = empty_status (codes "Task is null")
from_task (some task) =
    if not (int_eq task.state (pos 0))
    then from_transport_error task.state task.error
    else from_response task.resp

abbrev pub is_ok : PostgresStatusKind → Bool
is_ok success = true
is_ok _ = false

abbrev labelled : Bytes → Bytes → Bytes
labelled label s = if not (is_empty s) then label ++ s else []

abbrev pub print_kind : PostgresStatusKind → PostgresStatus → Bytes
print_kind success s = codes "OK"
print_kind server_error s =
    (codes "[Server Error]" ++ labelled (codes " SQLSTATE: ") s.sqlstate)
    ++ labelled (codes " ") s.error_message
print_kind transport_error s =
    codes "[Transport Error] state="
    ++ (to_string_ℤ s.transport_state
        ++ (codes " error="
            ++ (to_string_ℤ s.transport_error ++ (codes " (" ++ (s.error_message ++ codes ")")))))
print_kind empty_response s = codes "[Empty/Invalid Response] " ++ s.error_message

-- PostgresStatus::to_string
unfoldable pub to_text : PostgresStatus → Bytes
to_text s = print_kind s.kind s
