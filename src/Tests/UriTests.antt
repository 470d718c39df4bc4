-- ===== src/Tests/UriTests.antt =====
-- URLs for src/factory/PostgresTaskImpl.cc.
use wf_postgres.Common.{
  ℕ, ◌+◌, ◌-◌, ◌≡◌, ◌≢◌, refl, ap₂, true, false, [], ◌∷◌, ◌++◌, none, some, Bytes, All, str_eq,
  codes, arith,
}
use wf_postgres.Task.Uri.Init.{TaskOptions, init_ok, init_success, pool_info}
use wf_postgres.Task.Uri.Options.{
  IsVerifying, options_of, init_success-IsVerifying, extract_auth_info-encoded,
}
use wf_postgres.Task.Uri.{
  ParsedUri, lower, is_ssl_required, setup_ssl_ctx, startup_param, startup_params_of,
  extract_startup_params, split_userinfo, split_path, extract_auth_info, decode_options,
  parse_query,
}
use wf_postgres.Types.{StringMap, lookup, assign, str_lt}
use wf_postgres.Wire.{memchr}

-- An encoding with no colon, and back.
shift : Bytes → Bytes
shift [] = []
shift (c ∷ cs) = (c + 59) ∷ shift cs

unshift : Bytes → Bytes
unshift [] = []
unshift (c ∷ cs) = (c - 59) ∷ unshift cs

unshift-shift : (b : Bytes) → unshift (shift b) ≡ b
unfolding shift unshift
unshift-shift [] = refl
unshift-shift (c ∷ cs) = ap₂ ◌∷◌ (omega arith) (unshift-shift cs)

shift-no_colon : (b : Bytes) → All (λ (c : ℕ). c ≢ b':') (shift b)
unfolding shift
shift-no_colon [] = tt
shift-no_colon (c ∷ cs) = (omega arith, shift-no_colon cs)

abbrev two_options : Bytes → StringMap
two_options query =
    (codes "SSLMode", codes "verify-full") ∷ (codes "sslrootcert", codes "ca.pem") ∷ []

abbrev example_uri : ParsedUri
example_uri = record {
  scheme = some (codes "Postgres");
  userinfo = some (shift (codes "ada") ++ b':' ∷ shift (codes "a:b"));
  host = some (codes "db");
  port = none;
  path = some (b'/' ∷ shift (codes "shop"));
  query = some (codes "SSLMode=verify-full&sslrootcert=ca.pem");
}

extract_auth_info-encoded_example :
    extract_auth_info unshift two_options example_uri ([], [], [])
    ≡ (codes "ada", codes "a:b", codes "shop")
unfolding shift
extract_auth_info-encoded_example =
    extract_auth_info-encoded unshift shift two_options unshift-shift shift-no_colon example_uri
      ([], [], []) (codes "ada") (codes "a:b") (codes "shop") refl refl (omega arith)

abbrev no_options : TaskOptions
no_options = record {
  is_ssl = false;
  verify_full = false;
  login = ([], [], []);
  startup_params = [];
  ssl_ctx = none;
  is_fixed = false;
  info = [];
}

abbrev example_options : TaskOptions
example_options = record {
  is_ssl = true;
  verify_full = true;
  login = (shift (codes "ada"), shift (codes "a:b"), shift (codes "shop"));
  startup_params = (codes "client_encoding", codes "UTF8") ∷ [];
  ssl_ctx =
      some
        (record { verify_peer = true; no_partial_wildcards = true; roots = some (codes "ca.pem") });
  is_fixed = false;
  info =
      codes "postgresqls|user:"
      ++ (shift (codes "ada")
          ++ (codes "|pass:"
              ++ (shift (codes "a:b")
                  ++ (codes "|db:"
                      ++ (shift (codes "shop") ++ codes "|host:db|sslmode:verify-full")))));
}

init_test :
    init_success (λ b. b) two_options true (λ file. true) 1000 example_uri no_options
    ≡ init_ok example_options
unfolding init_success parse_query decode_options lower assign lookup str_lt str_eq is_ssl_required
    setup_ssl_ctx extract_startup_params startup_params_of startup_param extract_auth_info
    split_userinfo split_path memchr shift
init_test = refl

init_success-IsVerifying_example :
    (example_options.is_ssl ≡ true)
    × IsVerifying
        (options_of (λ b. b) two_options true (λ file. true) 1000 example_uri)
        example_options.ssl_ctx
unfolding parse_query decode_options lower assign lookup str_lt str_eq
init_success-IsVerifying_example =
    init_success-IsVerifying (λ b. b) two_options true (λ file. true) 1000 example_uri no_options
      example_options refl refl init_test

-- Two logins with the same key of the connection pool.
pool_info_test :
    pool_info example_uri [] (record no_options { login = (codes "a", codes "b|pass:c", []) })
    ≡ pool_info example_uri [] (record no_options { login = (codes "a|pass:b", codes "c", []) })
unfolding lookup
pool_info_test = refl
