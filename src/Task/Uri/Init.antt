-- ===== src/Task/Uri/Init.antt =====
-- ComplexPostgresTask::init_success of src/factory/PostgresTaskImpl.cc.
use wf_postgres.Common.{
  ℕ, Bool, true, false, not, ◌&&◌, ◌||◌, [], ◌++◌, Option, none, some, Bytes, codes, if◌then◌else◌,
}
use wf_postgres.Task.Uri.{
  ParsedUri, same_word, sslmode_is, is_ssl_required, SslCtx, SslSetup, setup_done, setup_failed,
  setup_ssl_ctx, is_there, extract_startup_params, Login, extract_auth_info, parse_query,
}
use wf_postgres.Types.{StringMap, lookup}

-- The members that init_success sets. `is_fixed` stands for the fixed address and connection, and
-- `info` is the key of the connection pool.
pub record TaskOptions : Type 0 where
  pub is_ssl : Bool
  pub verify_full : Bool
  pub login : Login
  pub startup_params : StringMap
  pub ssl_ctx : Option SslCtx
  pub is_fixed : Bool
  pub info : Bytes

-- `true`, or `false` with the task's error.
pub data Init : Type 0 where
  init_ok : TaskOptions → Init
  init_failed : ℕ → TaskOptions → Init

abbrev pub is_scheme : Option Bytes → Bool
is_scheme none = false
is_scheme (some s) =
    same_word s (codes "postgres")
    || same_word s (codes "postgresql")
    || same_word s (codes "postgresqls")

-- "|name:value" where there is a value.
abbrev labelled : Bytes → Option Bytes → Bytes
labelled label none = []
labelled label (some value) = label ++ value

-- The key of the pool, up to the transaction.
abbrev pub pool_key : ParsedUri → StringMap → TaskOptions → Bytes
pool_key uri query_map o =
    let (user, pass, db) = o.login in
    let scheme = if o.is_ssl then codes "postgresqls" else codes "postgres" in
    let login = codes "|user:" ++ (user ++ (codes "|pass:" ++ (pass ++ (codes "|db:" ++ db)))) in
    let i1 = (scheme ++ login) ++ labelled (codes "|host:") uri.host in
    let i2 = i1 ++ labelled (codes "|port:") uri.port in
    let i3 =
      i2 ++ labelled (codes "|application_name:") (lookup (codes "application_name") query_map) in
    let i4 = i3 ++ labelled (codes "|options:") (lookup (codes "options") query_map) in
    let i5 = i4 ++ labelled (codes "|sslmode:") (lookup (codes "sslmode") query_map) in
    i5 ++ (if is_there (lookup (codes "cancel") query_map) then codes "|cancel:1" else [])

abbrev pub pool_info : ParsedUri → StringMap → TaskOptions → Bytes
pool_info uri query_map o =
    pool_key uri query_map o ++ labelled (codes "|txn:") (lookup (codes "transaction") query_map)

module _ (url_decode : Bytes → Bytes) (split_query : Bytes → StringMap) (creates : Bool)
    (loads : Bytes → Bool) (uri_scheme_invalid : ℕ) where
  abbrev pub options_from : ParsedUri → StringMap → TaskOptions → TaskOptions
  options_from uri query_map o = record o {
    is_ssl = is_ssl_required uri query_map;
    verify_full =
        if sslmode_is (codes "verify-full") query_map && is_there uri.host
        then true
        else o.verify_full;
    login = extract_auth_info url_decode split_query uri o.login;
    startup_params = extract_startup_params query_map o.startup_params;
  }

  abbrev pub finish_init : ParsedUri → StringMap → TaskOptions → Init
  finish_init uri query_map o = init_ok (record o {
    is_fixed = is_there (lookup (codes "transaction") query_map) || o.is_fixed;
    info = pool_info uri query_map o;
  })

  abbrev pub with_ssl : ParsedUri → StringMap → TaskOptions → SslSetup → Init
  with_ssl uri query_map o (setup_failed error) = init_failed error o
  with_ssl uri query_map o (setup_done ctx) = finish_init uri query_map (record o { ssl_ctx = ctx })

  -- A context that the task was given is kept.
  abbrev pub setup_for : ParsedUri → StringMap → TaskOptions → SslSetup
  setup_for uri query_map o = elim o.ssl_ctx [
    | some ctx ↦ setup_done (some ctx)
    | none ↦
        if o.is_ssl then setup_ssl_ctx creates loads none uri query_map false else setup_done none
  ]

  unfoldable pub init_success : ParsedUri → TaskOptions → Init
  init_success uri o0 =
      if not (is_scheme uri.scheme)
      then init_failed uri_scheme_invalid o0
      else let query_map = parse_query url_decode split_query uri.query [] in
        let o = options_from uri query_map o0 in
        with_ssl uri query_map o (setup_for uri query_map o)
