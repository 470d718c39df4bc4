-- ===== src/Connection/Separate.antt =====
-- Sessions do not share connections: the key of the connection pool in
-- src/factory/PostgresTaskImpl.cc ends with the name that src/client/WFPostgresConnection.cc gives.
use wf_postgres.Common.{
  ℕ, ◌≡◌, refl, sym, ap, ◌∙◌, Bool, true, false, ◌&&◌, [], ◌∷◌, ◌++◌, subst, some, Bytes, codes,
  pos, if◌then◌else◌, Bool-cases, inl, inr, is_digit, leading_number, arith, to_string,
}
use wf_postgres.Connection.Options.{KeepsWords, Splits, HasNoTransaction, session_uri-name}
use wf_postgres.Connection.{session_name, session_uri}
use wf_postgres.Libc.Numbers.{
  AreDigits, AreDigits-of, to_string-IsNumeral, leading_number-to_string,
}
use wf_postgres.Libc.{to_string_ℤ}
use wf_postgres.Task.Uri.Init.{
  is_scheme, options_from, setup_for, TaskOptions, Init, init_ok, init_failed, pool_info, pool_key,
  with_ssl, init_success,
}
use wf_postgres.Task.Uri.{ParsedUri, SslSetup, setup_done, setup_failed, parse_query}
use wf_postgres.Types.{StringMap, lookup}

all_digits : Bytes → Bool
all_digits [] = true
all_digits (c ∷ s) = is_digit c && all_digits s

-- The digits that a text ends with.
last_digits : Bytes → Bytes
last_digits [] = []
last_digits (c ∷ s) = let later = last_digits s in if all_digits (c ∷ s) then c ∷ s else later

all_digits-of : (s : Bytes) → AreDigits s → all_digits s ≡ true
unfolding all_digits
all_digits-of [] h = refl
all_digits-of (c ∷ s) h = ground (arith, all_digits-of s h.1)

last_digits_all : (s : Bytes) → AreDigits s → last_digits s ≡ s
unfolding last_digits
last_digits_all [] h = refl
last_digits_all (c ∷ s) h = rw (all_digits-of (c ∷ s) h) refl

false_right : (b : Bool) → b && false ≡ false
false_right true = refl
false_right false = refl

all_digits-append : (p s : Bytes) → all_digits s ≡ false → all_digits (p ++ s) ≡ false
unfolding all_digits
all_digits-append [] s h = h
all_digits-append (x ∷ p) s h = rw (all_digits-append p s h) (false_right (is_digit x))

last_digits-append : (p s : Bytes) → all_digits s ≡ false → last_digits (p ++ s) ≡ last_digits s
unfolding last_digits
last_digits-append [] s h = refl
last_digits-append (x ∷ p) s h = rw (all_digits-append (x ∷ p) s h) (last_digits-append p s h)

-- A key of the pool ends with the number of its session.
pool_info_id :
    (uri : ParsedUri) (query_map : StringMap) (o : TaskOptions) (n : ℕ)
    → lookup (codes "transaction") query_map ≡ some (session_name (pos n))
    → last_digits (pool_info uri query_map o) ≡ to_string n
unfolding to_string_ℤ all_digits last_digits
pool_info_id uri query_map o n h = rw h (
    last_digits-append (pool_key uri query_map o) (codes "|txn:" ++ session_name (pos n)) refl
    ∙ last_digits_all (to_string n) (AreDigits-of _ (to_string-IsNumeral n)))

module _ (url_decode : Bytes → Bytes) (split_query : Bytes → StringMap) (creates : Bool)
    (loads : Bytes → Bool) (uri_scheme_invalid : ℕ) where
  abbrev start : ParsedUri → TaskOptions → Init
  start = init_success url_decode split_query creates loads uri_scheme_invalid

  abbrev options_of : ParsedUri → StringMap
  options_of uri = parse_query url_decode split_query uri.query []

  abbrev EndsWith : ℕ → Init → Type 0
  EndsWith n (init_failed error o) = Unit
  EndsWith n (init_ok o) = last_digits o.info ≡ to_string n

  with_ssl-EndsWith :
      (uri : ParsedUri) (o : TaskOptions) (setup : SslSetup) (n : ℕ)
      → lookup (codes "transaction") (options_of uri) ≡ some (session_name (pos n))
      → EndsWith n (
          with_ssl url_decode split_query creates loads uri_scheme_invalid uri
            (options_of uri)
            o
            setup)
  with_ssl-EndsWith uri o (setup_failed error) n h = tt
  with_ssl-EndsWith uri o (setup_done ctx) n h =
      pool_info_id uri (options_of uri) (record o { ssl_ctx = ctx }) n h

  init_success-EndsWith :
      (uri : ParsedUri) (o0 : TaskOptions) (n : ℕ)
      → lookup (codes "transaction") (options_of uri) ≡ some (session_name (pos n))
      → EndsWith n (start uri o0)
  unfolding init_success
  init_success-EndsWith uri o0 n h = elim (Bool-cases (is_scheme uri.scheme)) [
    | inr e ↦ rw e tt
    | inl e ↦
        let o =
          options_from url_decode split_query creates loads uri_scheme_invalid uri (options_of uri)
            o0 in
        let setup =
          setup_for url_decode split_query creates loads uri_scheme_invalid uri (options_of uri)
            o in
        rw e (with_ssl-EndsWith uri o setup n h)
  ]

  -- Sessions whose URLs hold no option `transaction` of their own, in whatever case, never share
  -- a pooled connection: where the tasks of the sessions n and m start, and the keys of the
  -- connection pool are the same, n is m. Workflow's split_query reads `transaction=` and a word
  -- as that option, and `&transaction=` and a word behind a query without that option as one
  -- option more; url_decode leaves a word of digits, capital letters and `_` as it is; and the
  -- numbers are not negative.
  pub sessions-separate :
      (u v : ParsedUri) (n m : ℕ) (o0 o1 o o' : TaskOptions)
      → KeepsWords url_decode
      → Splits split_query
      → HasNoTransaction url_decode split_query u
      → HasNoTransaction url_decode split_query v
      → start (session_uri u (pos n)) o0 ≡ init_ok o
      → start (session_uri v (pos m)) o1 ≡ init_ok o'
      → o.info ≡ o'.info
      → n ≡ m
  sessions-separate u v n m o0 o1 o o' keeps splits hu hv e e' same =
      let hn = session_uri-name url_decode split_query u n keeps splits hu in
      let hm = session_uri-name url_decode split_query v m keeps splits hv in
      sym (leading_number-to_string n)
      ∙ ap (leading_number 0) (
          sym (subst (EndsWith n) e (init_success-EndsWith _ o0 n hn))
          ∙ (ap last_digits same ∙ subst (EndsWith m) e' (init_success-EndsWith _ o1 m hm)))
      ∙ leading_number-to_string m
