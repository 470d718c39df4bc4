-- ===== src/Connection.antt =====
-- WFPostgresConnection of include/WFPostgresConnection.h and src/client/WFPostgresConnection.cc: a
-- session, by the name of a transaction in the URL of its tasks.
pub mod Options
pub mod Separate
use wf_postgres.Common.{
  ℕ, Bool, true, false, ◌&&◌, List, [], ◌∷◌, ◌++◌, Option, none, some, Bytes, codes, ℤ, pos, ◌==◌,
  if◌then◌else◌,
}
use wf_postgres.Errors.{ssl_init_failed}
use wf_postgres.Libc.{to_string_ℤ}
use wf_postgres.Request.{set_query, set_query_params}
use wf_postgres.Task.Factory.{
  NewTask, create_postgres_task, create_cancel_task, create_disconnect_task, options_of,
}
use wf_postgres.Task.Uri.Init.{TaskOptions, Init, init_ok, init_failed}
use wf_postgres.Task.Uri.{
  ParsedUri, SslCtx, SslSetup, setup_done, setup_failed, is_ssl_required, setup_ssl_ctx,
  parse_query,
}
use wf_postgres.Types.{PostgresParameter, StringMap}

pub record WfPostgresConnection : Type 0 where
  pub uri : Option ParsedUri
  pub ssl_ctx : Option SslCtx
  pub owns_ssl_ctx : Bool
  pub id : ℤ
  pub last_tx_state : ℕ
  pub backend_pid : ℤ
  pub backend_secret_data : Bytes

-- WFPostgresConnection(id)
abbrev pub new_session : ℤ → WfPostgresConnection
new_session id = record {
  uri = none;
  ssl_ctx = none;
  owns_ssl_ctx = false;
  id = id;
  last_tx_state = b'I';
  backend_pid = pos 0;
  backend_secret_data = [];
}

-- What URIParser::parse says of a URL.
pub data Parsed : Type 0 where
  parsed : ParsedUri → Parsed
  uri_invalid parse_error : Parsed

-- `none` is 0, and `some e` is -1; e says whether errno is EINVAL.
abbrev pub Initialised : Type 0
Initialised = Option Bool × WfPostgresConnection

abbrev pub session_name : ℤ → Bytes
session_name id = codes "INTERNAL_CONN_ID_" ++ to_string_ℤ id

abbrev pub prefix : Option Bytes → Bytes
prefix none = []
prefix (some query) = query ++ b'&' ∷ []

abbrev pub session_uri : ParsedUri → ℤ → ParsedUri
session_uri uri id = record uri {
  query = some (prefix uri.query ++ (codes "transaction=" ++ session_name id));
}

abbrev owns_free : Bool → Option SslCtx → Bool
owns_free owns none = false
owns_free owns (some _) = owns

unfoldable pub deinit : WfPostgresConnection → WfPostgresConnection
deinit c =
    if owns_free c.owns_ssl_ctx c.ssl_ctx
    then record c { ssl_ctx = none; owns_ssl_ctx = false }
    else c

unfoldable pub in_transaction : WfPostgresConnection → Bool
in_transaction c = c.last_tx_state == b'T'

unfoldable pub is_transaction_failed : WfPostgresConnection → Bool
is_transaction_failed c = c.last_tx_state == b'E'

module _ (url_decode : Bytes → Bytes) (split_query : Bytes → StringMap) (creates : Bool)
    (loads : Bytes → Bool) (uri_scheme_invalid : ℕ) where
  -- Whether the context is there. SSL_CTX_new stores its result also where it is null.
  abbrev pub own_ssl : WfPostgresConnection → SslSetup → Bool × WfPostgresConnection
  own_ssl c (setup_failed error) = (
    false,
    record c {
      ssl_ctx = none;
      owns_ssl_ctx = if error == ssl_init_failed then c.owns_ssl_ctx else false;
    },
  )
  own_ssl c (setup_done ctx) = (true, record c { ssl_ctx = ctx; owns_ssl_ctx = true })

  -- The context of the caller, or one of its own for SSL.
  abbrev pub session_ssl :
      WfPostgresConnection → Option SslCtx → ParsedUri → Bool × WfPostgresConnection
  session_ssl c (some ctx) uri = (true, record c { ssl_ctx = some ctx; owns_ssl_ctx = false })
  session_ssl c none uri =
      let query_map = parse_query url_decode split_query uri.query [] in
      if is_ssl_required uri query_map
      then own_ssl c (setup_ssl_ctx creates loads c.ssl_ctx uri query_map true)
      else (true, c)

  abbrev pub finish_session : ParsedUri → Bool × WfPostgresConnection → Initialised
  finish_session uri (false, c) = (some true, c)
  finish_session uri (true, c) = (none, record c { uri = some (session_uri uri c.id) })

  unfoldable pub init_session : WfPostgresConnection → Parsed → Option SslCtx → Initialised
  init_session c uri_invalid ctx = (some true, c)
  init_session c parse_error ctx = (some false, c)
  init_session c (parsed uri) ctx = finish_session uri (session_ssl c ctx uri)

  -- set_ssl_ctx and postgres_task_set_connection_handle on a new task. The context is in the
  -- options that the task's init has left.
  abbrev pub with_ctx : Option SslCtx → Init → Init
  with_ctx ctx (init_ok o) = init_ok (record o { ssl_ctx = ctx })
  with_ctx ctx (init_failed e o) = init_failed e (record o { ssl_ctx = ctx })

  abbrev pub handled : WfPostgresConnection → NewTask → NewTask
  handled c task = record task { init = with_ctx c.ssl_ctx task.init; has_connection_handle = true }

  unfoldable pub create_query_task : WfPostgresConnection → ParsedUri → Bytes → NewTask
  unfolding create_postgres_task
  create_query_task c uri query =
      let task =
        handled c
          (create_postgres_task url_decode split_query creates loads uri_scheme_invalid uri) in
      record task { req = set_query task.req query }

  unfoldable pub create_query_params_task :
      WfPostgresConnection → ParsedUri → Bytes → List PostgresParameter → NewTask
  unfolding create_postgres_task
  create_query_params_task c uri query params =
      let task =
        handled c
          (create_postgres_task url_decode split_query creates loads uri_scheme_invalid uri) in
      record task { req = set_query_params task.req query params }

  unfoldable pub create_session_disconnect_task : WfPostgresConnection → ParsedUri → NewTask
  unfolding create_disconnect_task
  create_session_disconnect_task c uri =
      handled c (create_disconnect_task url_decode split_query creates loads uri_scheme_invalid uri)

  -- The task of a cancel request belongs to no session.
  unfoldable pub create_session_cancel_task : WfPostgresConnection → ParsedUri → NewTask
  unfolding create_cancel_task
  create_session_cancel_task c uri =
      let task =
        create_cancel_task url_decode split_query creates loads uri_scheme_invalid uri c.backend_pid
          c.backend_secret_data in
      record task { init = with_ctx c.ssl_ctx task.init }
