-- ===== src/Task/Uri.antt =====
-- What a task takes from its URL: parse_query, is_ssl_required, setup_ssl_ctx, extract_auth_info,
-- extract_startup_params and init_success of src/factory/PostgresTaskImpl.cc.
pub mod Init
pub mod Options
use wf_postgres.Common.{
  ℕ, suc, ◌+◌, ◌-◌, Bool, true, false, not, ◌&&◌, ◌||◌, List, [], ◌∷◌, ◌++◌, Option, none, some,
  Bytes, codes, length, take, drop, ltb, leb, ◌==◌, if◌then◌else◌, str_eq,
}
use wf_postgres.Errors.{ssl_init_failed, ssl_cert_failed}
use wf_postgres.Types.{StringMap, lookup, assign}
use wf_postgres.Wire.{memchr}

-- ParsedURI; `none` is a null pointer.
pub record ParsedUri : Type 0 where
  pub scheme : Option Bytes
  pub userinfo : Option Bytes
  pub host : Option Bytes
  pub port : Option Bytes
  pub path : Option Bytes
  pub query : Option Bytes

-- tolower in the C locale.
abbrev to_lower : ℕ → ℕ
to_lower c = if leb b'A' c && leb c b'Z' then c + 32 else c

unfoldable pub lower : Bytes → Bytes
lower [] = []
lower (c ∷ cs) = to_lower c ∷ lower cs

-- strcasecmp(a, b) == 0
abbrev pub same_word : Bytes → Bytes → Bool
same_word a b = str_eq (lower a) (lower b)

abbrev pub option_is : Bytes → Bytes → StringMap → Bool
option_is key value query_map = elim (lookup key query_map) [
  | none ↦ false
  | some v ↦ str_eq v value
]

abbrev pub sslmode_is : Bytes → StringMap → Bool
sslmode_is value query_map = option_is (codes "sslmode") value query_map

unfoldable pub is_ssl_required : ParsedUri → StringMap → Bool
is_ssl_required uri query_map =
    elim uri.scheme [ none ↦ false | some s ↦ same_word s (codes "postgresqls") ]
    || (sslmode_is (codes "require") query_map
        || sslmode_is (codes "verify-ca") query_map
        || sslmode_is (codes "verify-full") query_map)

-- What the calls of OpenSSL leave in a context.
pub record SslCtx : Type 0 where
  pub verify_peer : Bool
  pub no_partial_wildcards : Bool
  pub roots : Option Bytes

-- The context, or the task's error.
pub data SslSetup : Type 0 where
  setup_done : Option SslCtx → SslSetup
  setup_failed : ℕ → SslSetup

abbrev pub verifies : StringMap → Bool
verifies query_map =
    sslmode_is (codes "verify-full") query_map || sslmode_is (codes "verify-ca") query_map

abbrev pub is_there : Option Bytes → Bool
is_there none = false
is_there (some _) = true

-- Whether SSL_CTX_new succeeds, and on which files SSL_CTX_load_verify_locations does.
module _ (creates : Bool) (loads : Bytes → Bool) where
  unfoldable pub setup_ssl_ctx : Option SslCtx → ParsedUri → StringMap → Bool → SslSetup
  setup_ssl_ctx ssl_ctx uri query_map default_verify_none =
      if not (verifies query_map || default_verify_none)
      then setup_done ssl_ctx
      else if not creates
      then setup_failed ssl_init_failed
      else if not (verifies query_map)
      then setup_done
          (some (record { verify_peer = false; no_partial_wildcards = false; roots = none }))
      else let strict = sslmode_is (codes "verify-full") query_map && is_there uri.host in
        elim (lookup (codes "sslrootcert") query_map) [
          | none ↦
              setup_done
                (some (record { verify_peer = true; no_partial_wildcards = strict; roots = none }))
          | some file ↦
              if loads file
              then setup_done (
                  some (record {
                    verify_peer = true;
                    no_partial_wildcards = strict;
                    roots = some file;
                  }))
              else setup_failed ssl_cert_failed
        ]

-- One option of the URL, by its name in lower case.
unfoldable pub startup_param : Bytes → Bytes → StringMap → StringMap
startup_param key value params =
    if str_eq key (codes "client_encoding")
    then assign (codes "client_encoding") value params
    else if str_eq key (codes "application_name") || str_eq key (codes "options")
    then assign key value params
    else if str_eq key (codes "timezone")
    then assign (codes "TimeZone") value params
    else if ltb 8 (length key) && str_eq (take 8 key) (codes "pgparam.")
    then assign (drop 8 key) value params
    else params

unfoldable pub startup_params_of : StringMap → StringMap → StringMap
startup_params_of [] params = params
startup_params_of ((key, value) ∷ m) params = startup_params_of m (startup_param key value params)

unfoldable pub extract_startup_params : StringMap → StringMap → StringMap
extract_startup_params query_map params =
    startup_params_of query_map (assign (codes "client_encoding") (codes "UTF8") params)

-- user, pass, db
abbrev pub Login : Type 0
Login = Bytes × Bytes × Bytes

-- strchr(userinfo, ':')
unfoldable pub split_userinfo : Option Bytes → Login → Login
split_userinfo none l = l
split_userinfo (some info) (user, pass, db) = elim (memchr b':' info) [
  | none ↦ (info, pass, db)
  | some colon ↦ (take colon info, drop (colon + 1) info, db)
]

unfoldable pub split_path : Option Bytes → Login → Login
split_path (some (s ∷ x ∷ rest)) (user, pass, db) =
    if s == b'/' then (user, pass, x ∷ rest) else (user, pass, db)
split_path _ l = l

-- Workflow's StringUtil::url_decode and URIParser::split_query.
module _ (url_decode : Bytes → Bytes) (split_query : Bytes → StringMap) where
  unfoldable pub extract_auth_info : ParsedUri → Login → Login
  extract_auth_info uri l =
      let (user, pass, db) = split_path uri.path (split_userinfo uri.userinfo l) in
      (url_decode user, url_decode pass, url_decode db)

  unfoldable pub decode_options : StringMap → StringMap → StringMap
  decode_options [] query_map = query_map
  decode_options ((key, value) ∷ m) query_map =
      decode_options m (assign (lower key) (url_decode value) query_map)

  unfoldable pub parse_query : Option Bytes → StringMap → StringMap
  parse_query none query_map = query_map
  parse_query (some query) query_map = decode_options (split_query query) query_map
