-- ===== src/Auth/Requests.antt =====
-- The outcome of each authentication request of src/auth/PostgresAuth.cc.
use wf_postgres.Auth.{
  password_message, offers_scram, next_entropy, start_scram, sasl, sasl_continue, sasl_final,
  answer_request, process_auth_request, scram_of,
}
use wf_postgres.Common.{
  Bool, true, false, ◌⊎◌, ◌++◌, ◌+◌, refl, ap, codes, ℕ, ◌≤◌, ◌≡◌, [], ◌∷◌, le→not-ltb, some, inl,
  inr, Returns, >>=-Returns, Bytes, length, drop, ltb, ◌==◌, Bool-cases, Option-cases, tests,
  is_empty, not, ◌||◌, take, str_eq,
}
use wf_postgres.Libc.{std_string}
use wf_postgres.Response.{PostgresResponse, set_error_fatal, set_internal_error, feedback}
use wf_postgres.Stream.Frames.{message}
use wf_postgres.Wire.RoundTrip.{write_uint32-be32}
use wf_postgres.Scram.{
  init, generate_client_first_message, Crypto, ScramAuth, ServerFirst, no_attributes, pad_length,
  base64_decode, read_attributes, is_positive, answer, generate_client_final_message,
  verify_server_signature, signature_text,
}
use wf_postgres.Wire.Bounds.{Any, read_uint32-Returns, std_string-Returns}
use wf_postgres.Wire.{read_uint32}

-- EVP_DecodeBlock counts the bytes that the padding stands for: its result is no shorter than
-- the padding.
abbrev pub Decodes : Crypto → Type 0
Decodes crypto =
    (b64 out : Bytes) → crypto.decode_block b64 ≡ some out → pad_length b64 ≤ length out

-- What an answer leaves of the response: `true` sends nothing, or one password message whole, and
-- reports no error; `false` reports a fatal error and sends nothing.
abbrev pub Replies : PostgresResponse → Bool × PostgresResponse → Type 0
Replies r (true, r') =
    (r'.is_error ≡ r.is_error)
    × ((r'.sent ≡ r.sent) ⊎ ((m : Bytes) × (r'.sent ≡ r.sent ++ message b'p' m ∷ [])))
Replies r (false, r') = (r'.is_error ≡ true) × (r'.sent ≡ r.sent)

password_message-message : (m : Bytes) → password_message m ≡ message b'p' m
unfolding password_message
password_message-message m =
    ap (λ (b : Bytes). b ++ m) (write_uint32-be32 (codes "p") (4 + length m))

feedback-Replies :
    (r : PostgresResponse) (m : Bytes) → Replies r (true, feedback r (password_message m))
unfolding feedback
feedback-Replies r m = (refl, inr (m, ap (λ n. r.sent ++ n ∷ []) (password_message-message m)))

fatal-Replies : (r : PostgresResponse) (text : Bytes) → Replies r (false, set_error_fatal r text)
unfolding set_error_fatal
fatal-Replies r text = (refl, refl)

module _ (crypto : Crypto) (decodes : Decodes crypto) where
  base64_decode-Returns : (b64 : Bytes) → Returns (base64_decode crypto b64) Any
  unfolding base64_decode
  base64_decode-Returns [] = tt
  base64_decode-Returns (x ∷ b64) = elim (Option-cases (crypto.decode_block (x ∷ b64))) [
    | inl e ↦ rw e tt
    | inr (out, e) ↦ rw (e, le→not-ltb _ _ (decodes (x ∷ b64) out e)) tt
  ]

  answer-Returns : (s : ScramAuth) (m : Bytes) (a : ServerFirst) → Returns (answer crypto s m a) Any
  unfolding answer
  answer-Returns s m a =
      elim (Bool-cases
        (is_empty a.server_nonce || is_empty a.salt_b64 || not (is_positive a.iterations))) [
          | inl e ↦ rw e tt
          | inr e ↦
              elim (Bool-cases
                (str_eq (take (length s.client_nonce) a.server_nonce) s.client_nonce)) [
                  | inl same ↦
                      rw (e, same)
                        (>>=-Returns (base64_decode crypto a.salt_b64) _ Any Any
                          (base64_decode-Returns a.salt_b64) λ _ _. tt)
                  | inr other ↦ rw (e, other) tt
                ]
        ]

  generate_client_final_message-Returns :
      (s : ScramAuth) (m : Bytes) → Returns (generate_client_final_message crypto s m) Any
  unfolding generate_client_final_message
  generate_client_final_message-Returns s m =
      elim (Option-cases (read_attributes [] m no_attributes)) [
        | inl e ↦ rw (e, generate_client_final_message) tt
        | inr (a, e) ↦ rw (e, generate_client_final_message) (answer-Returns s m a)
      ]

  verify_server_signature-Returns :
      (s : ScramAuth) (m : Bytes) → Returns (verify_server_signature crypto s m) Any
  unfolding verify_server_signature
  verify_server_signature-Returns s m =
      elim (Bool-cases (not (length s.salted_password_cache == 32) || is_empty s.auth_message)) [
        | inl e ↦ rw e tt
        | inr e ↦ elim (Option-cases (signature_text m)) [
          | inl n ↦ rw (e, n) tt
          | inr (text, n) ↦
              rw (e, n)
                (>>=-Returns (base64_decode crypto text) _ Any Any (base64_decode-Returns text)
                  λ _ _. tt)
        ]
      ]

  start_scram-Replies : (r : PostgresResponse) (s : ScramAuth) → Replies r (start_scram crypto r s)
  unfolding start_scram set_error_fatal feedback
  start_scram-Replies r s =
      let s1 = init s r.user r.pass in
      let (e, es) = next_entropy r.entropy in
      elim (Bool-cases (is_empty (generate_client_first_message crypto s1 e).0)) [
        | inl k ↦ rw k (refl, refl)
        | inr k ↦ rw k (refl, inr (_, ap (λ m. r.sent ++ m ∷ []) (password_message-message _)))
      ]

  sasl-Replies : (p : Bytes) (r : PostgresResponse) → Replies r (sasl crypto p r)
  unfolding sasl set_error_fatal set_internal_error
  sasl-Replies p r = elim (Bool-cases (offers_scram (length p) p false)) [
    | inl k ↦ rw k (start_scram-Replies r _)
    | inr k ↦ rw k (refl, refl)
  ]

  sasl_continue-Returns :
      (p : Bytes) (r : PostgresResponse) → Returns (sasl_continue crypto p r) (Replies r)
  unfolding sasl_continue set_error_fatal feedback
  sasl_continue-Returns p r = elim (Option-cases (scram_of r.auth)) [
    | inl e ↦ rw (e, sasl_continue) (refl, refl)
    | inr (s, e) ↦
        rw (e, sasl_continue)
          (>>=-Returns (generate_client_final_message crypto s p) _ Any (Replies r)
            (generate_client_final_message-Returns s p)
            λ (m, s') _. elim (Bool-cases (is_empty m)) [
              | inl k ↦ rw k (refl, refl)
              | inr k ↦
                  rw k (refl, inr (m, ap (λ n. r.sent ++ n ∷ []) (password_message-message m)))
            ])
  ]

  sasl_final-Returns :
      (p : Bytes) (r : PostgresResponse) → Returns (sasl_final crypto p r) (Replies r)
  unfolding sasl_final set_error_fatal
  sasl_final-Returns p r = elim (Option-cases (scram_of r.auth)) [
    | inl e ↦ rw (e, sasl_final) (refl, refl)
    | inr (s, e) ↦
        rw (e, sasl_final)
          (>>=-Returns (verify_server_signature crypto s p) _ Any (Replies r)
            (verify_server_signature-Returns s p)
            λ v _. elim (Bool-cases v) [
              | inl k ↦ rw k (refl, inl refl)
              | inr k ↦ rw k (refl, refl)
            ])
  ]

  answer_request-Returns :
      (t : ℕ) (p : Bytes) (r : PostgresResponse) → Returns (answer_request crypto t p r) (Replies r)
  unfolding answer_request
  answer_request-Returns t p r = elim (Bool-cases (t == 0)) [
    | inl k ↦ rw k (refl, inl refl)
    | inr n0 ↦ elim (Bool-cases (t == 3)) [
      | inl k ↦ rw (n0, k) (feedback-Replies r _)
      | inr n3 ↦ elim (Bool-cases (t == 5)) [
        | inl k ↦ elim (Bool-cases (ltb (length p) 4)) [
          | inl short ↦ rw (n0, n3, k, short) (fatal-Replies r _)
          | inr enough ↦
              rw (n0, n3, k, enough)
                (>>=-Returns (std_string p 4) _ Any (Replies r)
                  (std_string-Returns p 4 (omega (tests, enough))) λ salt _. feedback-Replies r _)
        ]
        | inr n5 ↦ elim (Bool-cases (t == 10)) [
          | inl k ↦ rw (n0, n3, n5, k) (sasl-Replies p r)
          | inr n10 ↦ elim (Bool-cases (t == 11)) [
            | inl k ↦ rw (n0, n3, n5, n10, k) (sasl_continue-Returns p r)
            | inr n11 ↦ elim (Bool-cases (t == 12)) [
              | inl k ↦ rw (n0, n3, n5, n10, n11, k) (sasl_final-Returns p r)
              | inr n12 ↦
                  rw (n0, n3, n5, n10, n11, n12)
                    (unfold set_error_fatal set_internal_error in (refl, refl))
            ]
          ]
        ]
      ]
    ]
  ]

  -- Every authentication request is answered, whatever bytes it holds: no read leaves the
  -- payload, the salt of an MD5 request included. If the answer is `true`, nothing is sent or
  -- one whole password message, and no new error is reported; if it is `false`, a fatal error is
  -- reported and nothing is sent. The base64 decoder counts the bytes of the padding.
  pub process_auth_request-Returns :
      (p : Bytes) (r : PostgresResponse) → Returns (process_auth_request crypto p r) (Replies r)
  unfolding process_auth_request
  process_auth_request-Returns p r = elim (Bool-cases (ltb (length p) 4)) [
    | inl e ↦ rw e (fatal-Replies r _)
    | inr e ↦ rw e (
        >>=-Returns (read_uint32 p) _ Any (Replies r) (read_uint32-Returns p (omega (tests, e)))
          λ t _. answer_request-Returns t (drop 4 p) r)
  ]
