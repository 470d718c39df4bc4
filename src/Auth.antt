-- ===== src/Auth.antt =====
-- src/auth/PostgresAuth.cc: the answers to the server's authentication requests.
pub mod Frame
pub mod Requests
use wf_postgres.Common.{
  ℕ, zero, suc, ◌+◌, ◌*◌, ◌/◌, ◌%◌, ◌^◌, Bool, true, false, not, List, [], ◌∷◌, ◌++◌, Option, none,
  some, Run, ok, ◌>>=◌, Bytes, codes, length, take, drop, ltb, ◌==◌, if◌then◌else◌, str_eq,
  is_empty, to_string,
}
use wf_postgres.Errors.{unsupported_auth}
use wf_postgres.Libc.{to_hex, std_string}
use wf_postgres.Response.{
  PostgresAuth, PostgresResponse, set_error_fatal, set_internal_error, feedback,
}
use wf_postgres.Scram.{
  Crypto, ScramAuth, new_scram, init, generate_client_first_message, generate_client_final_message,
  verify_server_signature,
}
use wf_postgres.Wire.{read_uint32, read_cstring, write_uint32}

-- "p", the length, and the payload.
unfoldable pub password_message : Bytes → Bytes
password_message auth_payload = write_uint32 (codes "p") (4 + length auth_payload) ++ auth_payload

-- The `while` loop over the mechanisms that the server offers. Each round takes a byte at least.
unfoldable pub offers_scram : ℕ → Bytes → Bool → Bool
offers_scram zero p found = found
offers_scram (suc rounds) [] found = found
offers_scram (suc rounds) (b ∷ bs) found = if b == 0 then found else elim (read_cstring (b ∷ bs)) [
  | none ↦ found
  | some (mech, p') ↦
      offers_scram rounds p' (if str_eq mech (codes "SCRAM-SHA-256") then true else found)
]

-- The state of RAND_bytes: its next outcome, and those after it.
unfoldable pub next_entropy : List (Option Bytes) → Option Bytes × List (Option Bytes)
next_entropy [] = (none, [])
next_entropy (e ∷ es) = (e, es)

abbrev pub scram_of : Option PostgresAuth → Option ScramAuth
scram_of none = none
scram_of (some a) = a.scram_auth

abbrev pub with_scram : PostgresResponse → ScramAuth → PostgresResponse
with_scram r s = record r { auth = some (record { scram_auth = some s }) }

module _ (crypto : Crypto) where
  unfoldable pub pg_md5_encrypt : Bytes → Bytes → Bytes → Bytes
  pg_md5_encrypt user pass salt =
      let hex1 = to_hex (take 16 (crypto.md5 (pass ++ user))) in
      codes "md5" ++ to_hex (take 16 (crypto.md5 (hex1 ++ salt)))

  -- 0 is `true`, -1 is `false`.
  unfoldable pub start_scram : PostgresResponse → ScramAuth → Bool × PostgresResponse
  start_scram r s0 =
      let s1 = init s0 r.user r.pass in
      let (e, es) = next_entropy r.entropy in
      let (bare, s2) = generate_client_first_message crypto s1 e in
      let r' = record (with_scram r s2) { entropy = es } in
      if is_empty bare
      then (
        false,
        set_error_fatal r' (codes "Failed to generate SCRAM client first message (RNG failure)"),
      )
      else let full = codes "n,," ++ bare in
        let auth_payload = write_uint32 (codes "SCRAM-SHA-256" ++ 0 ∷ []) (length full) ++ full in
        (true, feedback r' (password_message auth_payload))

  -- case 10
  unfoldable pub sasl : Bytes → PostgresResponse → Bool × PostgresResponse
  sasl p r =
      if not (offers_scram (length p) p false)
      then (
        false,
        set_internal_error (set_error_fatal r (codes "Server does not support SCRAM-SHA-256"))
            unsupported_auth,
      )
      else start_scram r (elim (scram_of r.auth) [ none ↦ new_scram | some s ↦ s ])

  -- case 11
  unfoldable pub sasl_continue : Bytes → PostgresResponse → Run (Bool × PostgresResponse)
  sasl_continue p r = elim (scram_of r.auth) [
    | none ↦ ok (false, set_error_fatal r (codes "Unexpected SASLContinue without SCRAM state"))
    | some s ↦ do
      (client_final_message, s') ← generate_client_final_message crypto s p
      ok (
          if is_empty client_final_message
          then (
            false,
            set_error_fatal (with_scram r s') (
                codes
                  "SCRAM client final message generation failed (invalid server nonce or PBKDF2 error)"),
          )
          else (true, feedback (with_scram r s') (password_message client_final_message)))
  ]

  -- case 12
  unfoldable pub sasl_final : Bytes → PostgresResponse → Run (Bool × PostgresResponse)
  sasl_final p r = elim (scram_of r.auth) [
    | none ↦ ok (false, set_error_fatal r (codes "Unexpected SASLFinal without SCRAM state"))
    | some s ↦ do
      verified ← verify_server_signature crypto s p
      ok (
          if not verified
          then (false, set_error_fatal r (codes "SCRAM server signature verification failed"))
          else (true, r))
  ]

  -- The chain of `if` on the request's type; `p` are the bytes behind it.
  unfoldable pub answer_request : ℕ → Bytes → PostgresResponse → Run (Bool × PostgresResponse)
  answer_request auth_type p r =
      if auth_type == 0
      then ok (true, r)
      else if auth_type == 3
      then ok (true, feedback r (password_message (r.pass ++ 0 ∷ [])))
      else if auth_type == 5
      then (if ltb (length p) 4
          then ok (false, set_error_fatal r (codes "AuthenticationMD5Password frame too short"))
          else do
            salt ← std_string p 4
            ok (true, feedback r (password_message (pg_md5_encrypt r.user r.pass salt ++ 0 ∷ []))))
      else if auth_type == 10
      then ok (sasl p r)
      else if auth_type == 11
      then sasl_continue p r
      else if auth_type == 12
      then sasl_final p r
      else ok (
        false,
        set_internal_error
            (set_error_fatal r
              (codes "Unsupported authentication request type: " ++ to_string auth_type))
            unsupported_auth,
      )

  unfoldable pub process_auth_request : Bytes → PostgresResponse → Run (Bool × PostgresResponse)
  process_auth_request payload r =
      if ltb (length payload) 4
      then ok (false, set_error_fatal r (codes "Authentication frame too short"))
      else do auth_type ← read_uint32 payload; answer_request auth_type (drop 4 payload) r
