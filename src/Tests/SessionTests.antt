-- ===== src/Tests/SessionTests.antt =====
-- Inputs for the sessions of src/client/WFPostgresConnection.cc.
use wf_postgres.Common.{
  ℕ, ◌≡◌, refl, subst, true, false, List, [], ◌∷◌, ◌++◌, none, some, Bytes, take, drop, codes, ◌+◌,
  ◌==◌, if◌then◌else◌, is_empty, str_eq, str_eq_iff, Bool-cases, inl, inr, arith, to_string, ◌∙◌,
}
use wf_postgres.Connection.Options.{IsWord, txn, NoTransaction, Splits}
use wf_postgres.Connection.Separate.{sessions-separate}
use wf_postgres.Libc.{to_string_ℤ}
use wf_postgres.Task.Uri.Init.{TaskOptions, init_success}
use wf_postgres.Task.Uri.{
  ParsedUri, lower, is_ssl_required, startup_param, startup_params_of, extract_startup_params,
  split_userinfo, split_path, extract_auth_info, decode_options, parse_query,
}
use wf_postgres.Types.{StringMap, lookup, assign, str_lt}
use wf_postgres.Wire.{memchr}

-- A query cut at each `&`, and an option at its `=`; the first of several options of a name stays.
unfoldable pieces : Bytes → Bytes × List Bytes
pieces [] = ([], [])
pieces (c ∷ s) = let (p, ps) = pieces s in if c == b'&' then ([], p ∷ ps) else (c ∷ p, ps)

abbrev option_of : Bytes → Bytes × Bytes
option_of p = elim (memchr b'=' p) [ none ↦ (p, []) | some i ↦ (take i p, drop (i + 1) p) ]

abbrev store : StringMap → Bytes × Bytes → StringMap
store m (k, v) = elim (lookup k m) [ none ↦ if is_empty k then m else assign k v m | some _ ↦ m ]

unfoldable store_all : StringMap → List Bytes → StringMap
store_all m [] = m
store_all m (p ∷ ps) = store_all (store m (option_of p)) ps

unfoldable cut_query : Bytes → StringMap
cut_query s = let (p, ps) = pieces s in store_all [] (p ∷ ps)

pieces-append :
    (q s : Bytes)
    → pieces (q ++ b'&' ∷ s) ≡ ((pieces q).0, (pieces q).1 ++ (pieces s).0 ∷ (pieces s).1)
unfolding pieces
pieces-append [] s = refl
pieces-append (c ∷ q) s = elim (Bool-cases (c == b'&')) [
  | inl e ↦ rw (pieces-append q s, e) refl
  | inr e ↦ rw (pieces-append q s, e) refl
]

pieces_word : (v : Bytes) → IsWord v → pieces v ≡ (v, [])
unfolding pieces
pieces_word [] h = refl
pieces_word (c ∷ v) h =
    let other : (c == b'&') ≡ false = ground (arith, h.0) in rw (pieces_word v h.1, other) refl

store_all-append :
    (m : StringMap) (ps : List Bytes) (p : Bytes)
    → store_all m (ps ++ p ∷ []) ≡ store (store_all m ps) (option_of p)
unfolding store_all
store_all-append m [] p = refl
store_all-append m (x ∷ ps) p = store_all-append (store m (option_of x)) ps p

no_transaction : (m : StringMap) → NoTransaction m → lookup txn m ≡ none
unfolding lookup lower str_eq
no_transaction [] h = refl
no_transaction ((k, w) ∷ m) h = elim (Bool-cases (str_eq k txn)) [
  | inr e ↦ rw e (no_transaction m h.1)
  | inl e ↦
      let same : str_eq (lower txn) txn ≡ false =
        subst (λ j. str_eq (lower j) txn ≡ false) ((str_eq_iff k txn).0 e) h.0 in
      absurd (ground (arith, same))
]

pieces_option :
    (v : Bytes) → IsWord v → pieces (codes "transaction=" ++ v) ≡ (codes "transaction=" ++ v, [])
unfolding pieces
pieces_option v h = rw (pieces_word v h) refl

store_transaction :
    (m : StringMap) (v : Bytes)
    → NoTransaction m
    → store m (option_of (codes "transaction=" ++ v)) ≡ assign txn v m
unfolding memchr
store_transaction m v h = rw (store, no_transaction m h) refl

cut_query-append :
    (q v : Bytes)
    → IsWord v
    → NoTransaction (cut_query q)
    → cut_query (q ++ (codes "&transaction=" ++ v)) ≡ assign txn v (cut_query q)
unfolding cut_query
cut_query-append q v h n =
    rw (pieces-append q (codes "transaction=" ++ v), pieces_option v h)
      (store_all-append [] ((pieces q).0 ∷ (pieces q).1) (codes "transaction=" ++ v)
        ∙ store_transaction (store_all [] ((pieces q).0 ∷ (pieces q).1)) v n)

cut_query-Splits : Splits cut_query
unfolding cut_query store_all memchr assign lookup
cut_query-Splits v h = (rw (pieces_option v h) refl, λ q n. cut_query-append q v h n)

abbrev plain_uri : ParsedUri
plain_uri = record {
  scheme = some (codes "postgres");
  userinfo = some (codes "ada");
  host = some (codes "db");
  port = none;
  path = none;
  query = some (codes "Application_Name=a&x");
}

abbrev unset : TaskOptions
unset = record {
  is_ssl = false;
  verify_full = false;
  login = ([], [], []);
  startup_params = [];
  ssl_ctx = none;
  is_fixed = false;
  info = [];
}

abbrev set : TaskOptions
set = record unset {
  login = (codes "ada", [], []);
  startup_params =
      (codes "application_name", codes "a") ∷ (codes "client_encoding", codes "UTF8") ∷ [];
  is_fixed = true;
  info = codes "postgres|user:ada|pass:|db:|host:db|application_name:a|txn:INTERNAL_CONN_ID_7";
}

abbrev session_id : ℕ
session_id = 7

sessions-separate_example : session_id ≡ session_id
unfolding init_success parse_query decode_options lower lookup assign is_ssl_required split_userinfo
    split_path extract_auth_info extract_startup_params startup_params_of startup_param to_string_ℤ
    to_string str_eq memchr cut_query pieces store_all str_lt
sessions-separate_example =
    sessions-separate (λ b. b) cut_query true (λ _. true) 1020 plain_uri plain_uri session_id
      session_id unset unset set set (λ v h. refl) cut_query-Splits (refl, (refl, tt))
      (refl, (refl, tt)) refl refl refl
