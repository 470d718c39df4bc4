-- ===== src/Task/Uri/Options.antt =====
-- What the options of a URL promise: the certificate of the server, and the login.
use wf_postgres.Common.{
  ℕ, suc, ◌+◌, ◌<◌, ◌≡◌, ◌≢◌, inl, inr, refl, sym, subst, Bool, true, false, [], ◌∷◌, ◌++◌, Option,
  none, some, Bytes, All, codes, length, drop, take-length-append, Bool-cases, Option-cases, arith,
}
use wf_postgres.Task.Uri.Init.{
  is_scheme, TaskOptions, Init, init_ok, init_failed, options_from, with_ssl, init_success,
}
use wf_postgres.Task.Uri.{
  ParsedUri, is_ssl_required, SslCtx, SslSetup, setup_done, setup_failed, setup_ssl_ctx, verifies,
  Login, split_userinfo, split_path, extract_auth_info, parse_query,
}
use wf_postgres.Types.{StringMap, lookup}
use wf_postgres.Wire.{memchr}

-- A context that checks the server's certificate, against the file of the URL if it names one.
pub record IsVerifying (query_map : StringMap) (ssl_ctx : Option SslCtx) : Type 0 where
  pub ctx : SslCtx
  pub there : ssl_ctx ≡ some ctx
  pub verify_peer : ctx.verify_peer ≡ true
  pub roots : ctx.roots ≡ lookup (codes "sslrootcert") query_map

abbrev pub SetupVerifies : StringMap → SslSetup → Type 0
SetupVerifies query_map (setup_failed error) = Unit
SetupVerifies query_map (setup_done ctx) = IsVerifying query_map ctx

setup_ssl_ctx-SetupVerifies :
    (creates : Bool) (loads : Bytes → Bool) (uri : ParsedUri) (query_map : StringMap)
    → verifies query_map ≡ true
    → SetupVerifies query_map (setup_ssl_ctx creates loads none uri query_map false)
unfolding setup_ssl_ctx
setup_ssl_ctx-SetupVerifies creates loads uri query_map v = elim (Bool-cases creates) [
  | inr c ↦ rw (v, c) tt
  | inl c ↦ elim (Option-cases (lookup (codes "sslrootcert") query_map)) [
    | inl e ↦ rw (v, c, e) (record { ctx = _; there = refl; verify_peer = refl; roots = sym e })
    | inr (file, e) ↦ elim (Bool-cases (loads file)) [
      | inl l ↦
          rw (v, c, e, l) (record { ctx = _; there = refl; verify_peer = refl; roots = sym e })
      | inr l ↦ rw (v, c, e, l) tt
    ]
  ]
]

required :
    (uri : ParsedUri) (query_map : StringMap)
    → verifies query_map ≡ true
    → is_ssl_required uri query_map ≡ true
unfolding is_ssl_required
required uri query_map v = ground arith

module _ (url_decode : Bytes → Bytes) (split_query : Bytes → StringMap) (creates : Bool)
    (loads : Bytes → Bool) (uri_scheme_invalid : ℕ) where
  abbrev pub options_of : ParsedUri → StringMap
  options_of uri = parse_query url_decode split_query uri.query []

  abbrev InitVerifies : StringMap → Init → Type 0
  InitVerifies query_map (init_failed error o) = Unit
  InitVerifies query_map (init_ok o) = (o.is_ssl ≡ true) × IsVerifying query_map o.ssl_ctx

  with_ssl-InitVerifies :
      (uri : ParsedUri) (query_map : StringMap) (o : TaskOptions) (setup : SslSetup)
      → o.is_ssl ≡ true
      → SetupVerifies query_map setup
      → InitVerifies query_map
          (with_ssl url_decode split_query creates loads uri_scheme_invalid uri query_map o setup)
  with_ssl-InitVerifies uri query_map o (setup_failed error) s v = tt
  with_ssl-InitVerifies uri query_map o (setup_done ctx) s v = (s, v)

  init_success-InitVerifies :
      (uri : ParsedUri) (o0 : TaskOptions)
      → o0.ssl_ctx ≡ none
      → verifies (options_of uri) ≡ true
      → InitVerifies
          (options_of uri)
          (init_success url_decode split_query creates loads uri_scheme_invalid uri o0)
  unfolding init_success
  init_success-InitVerifies uri o0 n v = elim (Bool-cases (is_scheme uri.scheme)) [
    | inr e ↦ rw e tt
    | inl e ↦ rw e (
        with_ssl-InitVerifies uri (options_of uri)
          (options_from url_decode split_query creates loads uri_scheme_invalid uri (options_of uri)
            o0)
          _ (required uri (options_of uri) v)
          (rw (n, required uri (options_of uri) v)
            (setup_ssl_ctx-SetupVerifies creates loads uri (options_of uri) v)))
  ]

  pub init_success-IsVerifying :
      (uri : ParsedUri) (o0 o : TaskOptions)
      → o0.ssl_ctx ≡ none
      → verifies (options_of uri) ≡ true
      → init_success url_decode split_query creates loads uri_scheme_invalid uri o0 ≡ init_ok o
      → (o.is_ssl ≡ true) × IsVerifying (options_of uri) o.ssl_ctx
  init_success-IsVerifying uri o0 o n v h =
      subst (InitVerifies (options_of uri)) h (init_success-InitVerifies uri o0 n v)

memchr-first :
    (c : ℕ) (s rest : Bytes) → All (λ (b : ℕ). b ≢ c) s → memchr c (s ++ c ∷ rest) ≡ some (length s)
unfolding memchr
memchr-first c [] rest h = ground arith
memchr-first c (x ∷ s) rest h = ground (arith, memchr-first c s rest h.1)

drop_behind : (s rest : Bytes) (c : ℕ) → drop (length s + 1) (s ++ c ∷ rest) ≡ rest
drop_behind [] rest c = refl
drop_behind (x ∷ s) rest c =
    let e : suc (length s) + 1 ≡ suc (length s + 1) = omega arith in rw e (drop_behind s rest c)

split_userinfo-colon :
    (user pass : Bytes) (l : Login)
    → All (λ (b : ℕ). b ≢ b':') user
    → split_userinfo (some (user ++ b':' ∷ pass)) l ≡ (user, pass, l.2)
unfolding split_userinfo
split_userinfo-colon user pass l h =
    rw
      (
        memchr-first b':' user pass h,
        split_userinfo,
        take-length-append user (b':' ∷ pass),
        drop_behind user pass b':',
      )
      refl

split_path-slash :
    (path user pass db : Bytes)
    → 0 < length path
    → split_path (some (b'/' ∷ path)) (user, pass, db) ≡ (user, pass, path)
unfolding split_path
split_path-slash [] user pass db h = absurd (omega arith)
split_path-slash (x ∷ path) user pass db h = refl

-- Workflow's url_decode undoes an encoding that leaves no colon in a text.
module _ (url_decode url_encode : Bytes → Bytes) (split_query : Bytes → StringMap)
    (decodes : (b : Bytes) → url_decode (url_encode b) ≡ b)
    (no_colon : (b : Bytes) → All (λ (c : ℕ). c ≢ b':') (url_encode b)) where
  -- The user, the password and the database that a URL holds in an encoding that url_decode
  -- undoes and that leaves no colon are the ones that the task logs in with, colons of the
  -- password included. The database's text is not empty.
  pub extract_auth_info-encoded :
      (uri : ParsedUri) (l : Login) (user pass db : Bytes)
      → uri.userinfo ≡ some (url_encode user ++ b':' ∷ url_encode pass)
      → uri.path ≡ some (b'/' ∷ url_encode db)
      → 0 < length (url_encode db)
      → extract_auth_info url_decode split_query uri l ≡ (user, pass, db)
  unfolding extract_auth_info
  extract_auth_info-encoded uri l user pass db u p n =
      rw
        (
          u,
          p,
          split_userinfo-colon (url_encode user) (url_encode pass) l (no_colon user),
          split_path-slash (url_encode db) (url_encode user) (url_encode pass) l.2 n,
          decodes user,
          decodes pass,
          decodes db,
        )
        refl
