-- ===== src/Connection/Options.antt =====
-- The option `transaction` in the URL of a session: what Workflow's StringUtil::url_decode and
-- URIParser::split_query give parse_query of src/factory/PostgresTaskImpl.cc to store.
use wf_postgres.Common.{
  ℕ, ◌≡◌, refl, ap, ◌∙◌, Bool, true, false, ◌||◌, ◌&&◌, All, All-append, [], ◌∷◌, ◌++◌, Option,
  none, some, Bytes, codes, pos, leb, ◌==◌, if◌then◌else◌, Bool-cases, inl, inr, is_digit, str_eq,
  arith, to_string, append_assoc,
}
use wf_postgres.Connection.{session_name, session_uri, prefix}
use wf_postgres.Libc.Numbers.{AreDigits, AreDigits-of, to_string-IsNumeral}
use wf_postgres.Libc.{to_string_ℤ}
use wf_postgres.Task.Uri.{ParsedUri, lower, decode_options, parse_query}
use wf_postgres.Types.{StringMap, lookup, assign, str_lt, lookup-assign}

abbrev is_word_code : ℕ → Bool
is_word_code c = is_digit c || ((leb b'A' c && leb c b'Z') || c == b'_')

-- Digits, capital letters and `_`, which no URL encodes.
abbrev pub IsWord : Bytes → Type 0
IsWord = All (λ c. is_word_code c ≡ true)

abbrev pub txn : Bytes
txn = codes "transaction"

-- No option of a map is `transaction`, in whatever case.
abbrev pub NoTransaction : StringMap → Type 0
NoTransaction = All (λ o. str_eq (lower o.0) txn ≡ false)

-- url_decode leaves a word as it is.
abbrev pub KeepsWords : (Bytes → Bytes) → Type 0
KeepsWords url_decode = (v : Bytes) → IsWord v → url_decode v ≡ v

-- split_query reads `transaction=` and a word as one option, and behind `&` as one option more.
abbrev pub Splits : (Bytes → StringMap) → Type 0
Splits split_query =
    (v : Bytes)
    → IsWord v
    → (split_query (codes "transaction=" ++ v) ≡ (txn, v) ∷ [])
      × ((q : Bytes)
          → NoTransaction (split_query q)
          → split_query (q ++ (codes "&transaction=" ++ v)) ≡ assign txn v (split_query q))

AreDigits-IsWord : (s : Bytes) → AreDigits s → IsWord s
AreDigits-IsWord [] h = tt
AreDigits-IsWord (c ∷ s) h = (ground arith, AreDigits-IsWord s h.1)

session_name-IsWord : (n : ℕ) → IsWord (session_name (pos n))
unfolding to_string_ℤ
session_name-IsWord n =
    All-append _ (codes "INTERNAL_CONN_ID_") (to_string n) (ground arith)
      (AreDigits-IsWord (to_string n) (AreDigits-of _ (to_string-IsNumeral n)))

module _ (url_decode : Bytes → Bytes) (split_query : Bytes → StringMap) where
  -- Other options leave it.
  decode_options-keeps :
      (m acc : StringMap)
      → NoTransaction m
      → lookup txn (decode_options url_decode split_query m acc) ≡ lookup txn acc
  unfolding decode_options
  decode_options-keeps [] acc h = refl
  decode_options-keeps ((k, w) ∷ m) acc h =
      decode_options-keeps m (assign (lower k) (url_decode w) acc) h.1
      ∙ (lookup-assign txn (lower k) (url_decode w) acc
          ∙ ap (λ (b : Bool). if b then some (url_decode w) else lookup txn acc) h.0)

  decode_options-first :
      (m acc : StringMap) (v : Bytes)
      → NoTransaction m
      → lookup txn (decode_options url_decode split_query ((txn, v) ∷ m) acc) ≡ some (url_decode v)
  unfolding decode_options lower
  decode_options-first m acc v h =
      decode_options-keeps m (assign txn (url_decode v) acc) h
      ∙ (lookup-assign txn txn (url_decode v) acc ∙ unfold str_eq in refl)

  -- It is found wherever the map keeps it.
  decode_options-assign :
      (m acc : StringMap) (v : Bytes)
      → NoTransaction m
      → lookup txn (decode_options url_decode split_query (assign txn v m) acc)
        ≡ some (url_decode v)
  unfolding assign decode_options
  decode_options-assign [] acc v h = decode_options-first [] acc v tt
  decode_options-assign ((k, w) ∷ m) acc v h = elim (Bool-cases (str_eq k txn)) [
    | inl e ↦ rw e (decode_options-first m acc v h.1)
    | inr e ↦ elim (Bool-cases (str_lt txn k)) [
      | inl before ↦ rw (e, before) (decode_options-first ((k, w) ∷ m) acc v h)
      | inr behind ↦
          rw (e, behind) (decode_options-assign m (assign (lower k) (url_decode w) acc) v h.1)
    ]
  ]

  abbrev OwnNone : Option Bytes → Type 0
  OwnNone none = Unit
  OwnNone (some q) = NoTransaction (split_query q)

  -- The URL has no such option of its own.
  abbrev pub HasNoTransaction : ParsedUri → Type 0
  HasNoTransaction uri = OwnNone uri.query

  query_name :
      (q : Option Bytes) (v : Bytes)
      → KeepsWords url_decode
      → Splits split_query
      → OwnNone q
      → IsWord v
      → lookup txn
          (parse_query url_decode split_query (some (prefix q ++ (codes "transaction=" ++ v))) [])
        ≡ some v
  unfolding parse_query
  query_name none v keeps splits h is_word =
      rw (splits v is_word).0 (decode_options-first [] [] v tt ∙ ap some (keeps v is_word))
  query_name (some q) v keeps splits h is_word =
      rw (append_assoc q (b'&' ∷ []) (codes "transaction=" ++ v), (splits v is_word).1 q h)
        (decode_options-assign (split_query q) [] v h ∙ ap some (keeps v is_word))

  -- Such a URL gets the name of its session.
  pub session_uri-name :
      (uri : ParsedUri) (n : ℕ)
      → KeepsWords url_decode
      → Splits split_query
      → HasNoTransaction uri
      → lookup txn (parse_query url_decode split_query (session_uri uri (pos n)).query [])
        ≡ some (session_name (pos n))
  session_uri-name uri n keeps splits h =
      query_name uri.query (session_name (pos n)) keeps splits h (session_name-IsWord n)
