-- ===== src/Scram.antt =====
-- src/auth/ScramAuth.cc: the client side of SCRAM-SHA-256. What OpenSSL computes is a parameter.
pub mod Xor
pub mod Agreement
use Prim.Native.Nat.{bit_xor}
use wf_postgres.Common.{
  ℕ, zero, suc, ◌+◌, ◌-◌, ◌*◌, Bool, true, false, not, ◌&&◌, ◌||◌, List, [], ◌∷◌, ◌++◌, Option,
  none, some, Run, ok, fault, ◌>>=◌, Bytes, ℤ, pos, negsuc, codes, length, take, drop, ltb, leb,
  ◌==◌, if◌then◌else◌, str_eq, is_empty, stoi,
}

-- The functions of OpenSSL. `none` is the failure that the function's result reports.
pub record Crypto : Type 0 where
  pub md5 : Bytes → Bytes
  pub sha256 : Bytes → Bytes
  pub hmac : Bytes → Bytes → Bytes
  pub encode_block : Bytes → Bytes
  pub decode_block : Bytes → Option Bytes
  pub pbkdf2 : Bytes → Bytes → ℕ → Option Bytes

pub record ScramAuth : Type 0 where
  pub user : Bytes
  pub password : Bytes
  pub client_nonce : Bytes
  pub client_first_message_bare : Bytes
  pub auth_message : Bytes
  pub salted_password_cache : Bytes

-- new ScramAuth()
abbrev pub new_scram : ScramAuth
new_scram = record {
  user = [];
  password = [];
  client_nonce = [];
  client_first_message_bare = [];
  auth_message = [];
  salted_password_cache = [];
}

unfoldable pub init : ScramAuth → Bytes → Bytes → ScramAuth
init s user pass = record s { user = user; password = pass }

-- The bytes at the end of a string that are padding: of the last two, those that are `=`.
unfoldable pub pad_length : Bytes → ℕ
pad_length [] = 0
pad_length (x ∷ []) = if x == b'=' then 1 else 0
pad_length (x ∷ y ∷ []) = (if y == b'=' then 1 else 0) + (if x == b'=' then 1 else 0)
pad_length (x ∷ y ∷ z ∷ r) = pad_length (y ∷ z ∷ r)

-- What the attributes of a server-first-message give: r, s and i.
pub record ServerFirst : Type 0 where
  pub server_nonce : Bytes
  pub salt_b64 : Bytes
  pub iterations : ℤ

abbrev pub no_attributes : ServerFirst
no_attributes = record { server_nonce = []; salt_b64 = []; iterations = negsuc 0 }

-- One part between commas; `none` is the exception of std::stoi.
unfoldable pub read_attribute : Bytes → ServerFirst → Option ServerFirst
read_attribute [] a = some a
read_attribute (_ ∷ []) a = some a
read_attribute (_ ∷ _ ∷ []) a = some a
read_attribute (k ∷ e ∷ c ∷ value) a =
    if k == b'r' && e == b'='
    then some (record a { server_nonce = c ∷ value })
    else if k == b's' && e == b'='
    then some (record a { salt_b64 = c ∷ value })
    else if k == b'i' && e == b'='
    then elim (stoi (c ∷ value)) [ none ↦ none | some n ↦ some (record a { iterations = n }) ]
    else some a

-- The `while` loop: the parts that `find` and `substr` cut at the commas, in order. `part` holds
-- the bytes since the last comma.
unfoldable pub read_attributes : Bytes → Bytes → ServerFirst → Option ServerFirst
read_attributes part [] a = read_attribute part a
read_attributes part (b ∷ bs) a =
    if b == b','
    then elim (read_attribute part a) [ none ↦ none | some a' ↦ read_attributes [] bs a' ]
    else read_attributes (part ++ b ∷ []) bs a

abbrev pub is_positive : ℤ → Bool
is_positive (pos n) = ltb 0 n
is_positive (negsuc n) = false

abbrev pub to_ℕ : ℤ → ℕ
to_ℕ (pos n) = n
to_ℕ (negsuc n) = 0

-- The loop over 32 bytes of key and signature.
unfoldable pub xor_bytes : Bytes → Bytes → Bytes
xor_bytes (a ∷ as') (b ∷ bs) = bit_xor a b ∷ xor_bytes as' bs
xor_bytes _ _ = []

-- server_final_message.substr(2), if the text begins with "v=".
abbrev pub signature_text : Bytes → Option Bytes
signature_text (v ∷ e ∷ text) = if v == b'v' && e == b'=' then some text else none
signature_text _ = none

module _ (crypto : Crypto) where
  open crypto use {sha256, hmac, encode_block, decode_block, pbkdf2}

  unfoldable pub base64_encode : Bytes → Bytes
  base64_encode buffer = encode_block buffer

  -- `ret - pad_len` below zero is no length of a string.
  unfoldable pub base64_decode : Bytes → Run Bytes
  base64_decode b64 = if is_empty b64 then ok [] else elim (decode_block b64) [
    | none ↦ ok []
    | some out ↦
        if ltb (length out) (pad_length b64)
        then fault
        else ok (take (length out - pad_length b64) out)
  ]

  -- The random bytes are what RAND_bytes wrote, `none` if it failed. An empty text is a failure.
  unfoldable pub generate_client_first_message : ScramAuth → Option Bytes → Bytes × ScramAuth
  generate_client_first_message s none = ([], s)
  generate_client_first_message s (some rand_bytes) =
      let nonce = base64_encode rand_bytes in
      let bare = codes "n=" ++ (s.user ++ (codes ",r=" ++ nonce)) in
      (bare, record s { client_nonce = nonce; client_first_message_bare = bare })

  -- The part behind the checks: keys, signature and proof.
  unfoldable pub prove : ScramAuth → Bytes → Bytes → Bytes → Bytes × ScramAuth
  prove s server_first_message server_nonce salted_password =
      let client_key = hmac salted_password (codes "Client Key") in
      let stored_key = sha256 client_key in
      let without_proof = codes "c=biws,r=" ++ server_nonce in
      let message =
        s.client_first_message_bare
        ++ (codes "," ++ (server_first_message ++ (codes "," ++ without_proof))) in
      let client_signature = hmac stored_key message in
      let client_proof = xor_bytes client_key client_signature in
      (
        without_proof ++ (codes ",p=" ++ base64_encode client_proof),
        record s { salted_password_cache = salted_password; auth_message = message },
      )

  -- With the attributes read.
  unfoldable pub answer : ScramAuth → Bytes → ServerFirst → Run (Bytes × ScramAuth)
  answer s server_first_message a =
      if is_empty a.server_nonce || is_empty a.salt_b64 || not (is_positive a.iterations)
      then ok ([], s)
      else if not (str_eq (take (length s.client_nonce) a.server_nonce) s.client_nonce)
      then ok ([], s)
      else do
        salt ← base64_decode a.salt_b64
        ok (
            if is_empty salt && not (is_empty a.salt_b64)
            then ([], s)
            else elim (pbkdf2 s.password salt (to_ℕ a.iterations)) [
              | none ↦ ([], s)
              | some salted_password ↦ prove s server_first_message a.server_nonce salted_password
            ])

  unfoldable pub generate_client_final_message : ScramAuth → Bytes → Run (Bytes × ScramAuth)
  generate_client_final_message s server_first_message =
      elim (read_attributes [] server_first_message no_attributes) [
        | none ↦ ok ([], s)
        | some a ↦ answer s server_first_message a
      ]

  abbrev pub server_signature_of : Bytes → Bytes → Bytes
  server_signature_of salted_password message =
      hmac (hmac salted_password (codes "Server Key")) message

  unfoldable pub verify_server_signature : ScramAuth → Bytes → Run Bool
  verify_server_signature s server_final_message =
      if not (length s.salted_password_cache == 32) || is_empty s.auth_message
      then ok false
      else elim (signature_text server_final_message) [
        | none ↦ ok false
        | some text ↦ do
          server_signature ← base64_decode text
          ok (
              length server_signature == 32
              && str_eq server_signature
                  (server_signature_of s.salted_password_cache s.auth_message))
      ]
