-- ===== src/Task/Factory.antt =====
-- WFPostgresTaskFactory of src/factory/PostgresTaskImpl.cc: the tasks before they are started.
use wf_postgres.Common.{
  ℕ, Bool, true, false, [], ◌++◌, Option, none, some, Bytes, codes, ℤ, pos, if◌then◌else◌,
}
use wf_postgres.Request.{PostgresRequest, new_request, set_cancel}
use wf_postgres.Response.{PostgresResponse}
use wf_postgres.Task.Guards.{get_backend_credentials}
use wf_postgres.Task.Uri.Init.{TaskOptions, Init, init_ok, init_failed, init_success}
use wf_postgres.Task.Uri.{ParsedUri}
use wf_postgres.Task.{PostgresConnection}
use wf_postgres.Types.{StringMap}

-- A task as a factory returns it; `init` is what task->init(uri) makes of the URL.
pub record NewTask : Type 0 where
  pub uri : ParsedUri
  pub init : Init
  pub req : PostgresRequest
  pub keep_alive_timeo : ℤ
  pub has_connection_handle : Bool

-- The members of ComplexPostgresTask() that init_success sets.
abbrev pub new_options : TaskOptions
new_options = record {
  is_ssl = false;
  verify_full = false;
  login = ([], [], []);
  startup_params = [];
  ssl_ctx = none;
  is_fixed = false;
  info = [];
}

abbrev pub options_of : Init → TaskOptions
options_of (init_ok o) = o
options_of (init_failed _ o) = o

-- POSTGRES_KEEPALIVE_TRANSACTION and POSTGRES_KEEPALIVE_DEFAULT
abbrev pub keep_alive_for : Init → ℤ
keep_alive_for i = if (options_of i).is_fixed then pos 3600000 else pos 30000

abbrev pub cancel_query : Option Bytes → Bytes
cancel_query none = codes "cancel=1"
cancel_query (some query) = query ++ codes "&cancel=1"

abbrev pub or_none : Option (ℤ × Bytes) → ℤ × Bytes
or_none none = (pos 0, [])
or_none (some credentials) = credentials

module _ (url_decode : Bytes → Bytes) (split_query : Bytes → StringMap) (creates : Bool)
    (loads : Bytes → Bool) (uri_scheme_invalid : ℕ) where
  unfoldable pub create_postgres_task : ParsedUri → NewTask
  create_postgres_task uri =
      let i =
        init_success url_decode split_query creates loads uri_scheme_invalid uri new_options in
      record {
        uri = uri;
        init = i;
        req = new_request;
        keep_alive_timeo = keep_alive_for i;
        has_connection_handle = false;
      }

  unfoldable pub create_cancel_task : ParsedUri → ℤ → Bytes → NewTask
  unfolding create_postgres_task
  create_cancel_task uri pid secret_data =
      let task = create_postgres_task (record uri { query = some (cancel_query uri.query) }) in
      record task { req = set_cancel task.req pid secret_data; keep_alive_timeo = pos 0 }

  -- By the task of the query: its connection, its response and its URL.
  unfoldable pub create_cancel_task_of :
      Option (Option PostgresConnection × PostgresResponse × ParsedUri) → Option NewTask
  unfolding create_cancel_task
  create_cancel_task_of none = none
  create_cancel_task_of (some (conn, resp, uri)) =
      let (pid, secret) = or_none (get_backend_credentials conn resp) in
      some (create_cancel_task uri pid secret)

  unfoldable pub create_disconnect_task : ParsedUri → NewTask
  unfolding create_postgres_task
  create_disconnect_task uri =
      let task = create_postgres_task uri in
      record task { req = record task.req { is_disconnect = true }; keep_alive_timeo = pos 0 }
