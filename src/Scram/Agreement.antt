-- ===== src/Scram/Agreement.antt =====
-- src/auth/ScramAuth.cc against a server that follows RFC 5802.
use wf_postgres.Common.{
  ℕ, ◌∷◌, ap₂, ◌≡◌, ◌↔◌, refl, sym, ap, ◌∙◌, subst, true, false, not, ◌&&◌, ◌||◌, [], ◌++◌, some,
  inl, inr, Run, ok, Run-cases, ok-injective, Bytes, codes, length, take, ◌==◌, str_eq, str_eq_iff,
  is_empty, Option-cases, Bool-cases, arith,
}
use wf_postgres.Scram.Xor.{xor_bytes_twice}
use wf_postgres.Scram.{
  Crypto, ScramAuth, ServerFirst, no_attributes, read_attributes, is_positive, to_ℕ, xor_bytes,
  signature_text, base64_encode, base64_decode, prove, answer, generate_client_final_message,
  server_signature_of, verify_server_signature,
}

module _ (crypto : Crypto) where
  -- What a server that holds StoredKey recovers from a proof: ClientProof XOR ClientSignature.
  abbrev pub recovered_key : Bytes → Bytes → Bytes → Bytes
  recovered_key stored_key auth_message proof =
      xor_bytes proof (crypto.hmac stored_key auth_message)

  -- A client-final-message: which attributes it answers, the keys it stands on, its text, and that
  -- the server finds the client's key in the proof.
  pub record Proves (s : ScramAuth) (server_first final : Bytes) (s' : ScramAuth) : Type 0 where
    pub attributes : ServerFirst
    pub salt : Bytes
    pub proof : Bytes
    pub read : read_attributes [] server_first no_attributes ≡ some attributes
    pub nonce_bound : take (length s.client_nonce) attributes.server_nonce ≡ s.client_nonce
    pub counted : is_positive attributes.iterations ≡ true
    pub salted : base64_decode crypto attributes.salt_b64 ≡ ok salt
    pub derived :
        crypto.pbkdf2 s.password salt (to_ℕ attributes.iterations) ≡ some s'.salted_password_cache
    pub message :
        s'.auth_message
        ≡ s.client_first_message_bare
          ++ (codes ","
              ++ (server_first ++ (codes "," ++ (codes "c=biws,r=" ++ attributes.server_nonce))))
    pub text :
        final
        ≡ (codes "c=biws,r=" ++ attributes.server_nonce)
          ++ (codes ",p=" ++ base64_encode crypto proof)
    pub accepted :
        recovered_key
          (crypto.sha256 (crypto.hmac s'.salted_password_cache (codes "Client Key")))
          s'.auth_message
          proof
        ≡ crypto.hmac s'.salted_password_cache (codes "Client Key")

  nothing_said :
      {s s' : ScramAuth} {final : Bytes}
      → ◌≡◌ {A = Run (Bytes × ScramAuth)} (ok ([], s)) (ok (final, s'))
      → is_empty final ≡ false
      → ⊥
  nothing_said h n = let z = ap (λ (y : Bytes × ScramAuth). is_empty y.0) (ok-injective h) in cc

  module _ (size : (key m : Bytes) → length (crypto.hmac key m) ≡ 32) where
    prove-Proves :
        (s : ScramAuth) (m : Bytes) (a : ServerFirst) (salt : Bytes) {salted : Bytes}
        → read_attributes [] m no_attributes ≡ some a
        → take (length s.client_nonce) a.server_nonce ≡ s.client_nonce
        → is_positive a.iterations ≡ true
        → base64_decode crypto a.salt_b64 ≡ ok salt
        → crypto.pbkdf2 s.password salt (to_ℕ a.iterations) ≡ some salted
        → Proves s m
            (prove crypto s m a.server_nonce salted).0
            (prove crypto s m a.server_nonce salted).1
    unfolding prove
    prove-Proves s m a salt {salted} e b c d k = record {
      attributes = a;
      salt = salt;
      proof = xor_bytes (crypto.hmac salted (codes "Client Key")) (
          crypto.hmac (crypto.sha256 (crypto.hmac salted (codes "Client Key")))
            (prove crypto s m a.server_nonce salted).1.auth_message);
      read = e;
      nonce_bound = b;
      counted = c;
      salted = d;
      derived = k;
      message = refl;
      text = refl;
      accepted = xor_bytes_twice _ _ (
          size salted (codes "Client Key")
          ∙ sym (
              size (crypto.sha256 (crypto.hmac salted (codes "Client Key")))
                (prove crypto s m a.server_nonce salted).1.auth_message));
    }

    answer-Proves :
        (s : ScramAuth) (m : Bytes) (a : ServerFirst) {final : Bytes} {s' : ScramAuth}
        → read_attributes [] m no_attributes ≡ some a
        → answer crypto s m a ≡ ok (final, s')
        → is_empty final ≡ false
        → Proves s m final s'
    unfolding answer
    answer-Proves s m a {final} {s'} e h n =
        elim (Bool-cases
          (is_empty a.server_nonce || is_empty a.salt_b64 || not (is_positive a.iterations))) [
            | inl missing ↦ absurd (nothing_said (rw missing at h) n)
            | inr there ↦
                elim (Bool-cases
                  (str_eq (take (length s.client_nonce) a.server_nonce) s.client_nonce)) [
                    | inl same ↦ elim (Run-cases (base64_decode crypto a.salt_b64)) [
                      | inl (salt, d) ↦
                          elim (Bool-cases (is_empty salt && not (is_empty a.salt_b64))) [
                            | inl bad ↦ absurd (nothing_said (rw (there, same, d, bad) at h) n)
                            | inr good ↦
                                elim (Option-cases
                                  (crypto.pbkdf2 s.password salt (to_ℕ a.iterations))) [
                                    | inl k ↦
                                        absurd (nothing_said (rw (there, same, d, good, k) at h) n)
                                    | inr (salted, k) ↦
                                        let z : prove crypto s m a.server_nonce salted
                                            ≡ (final, s') =
                                          ok-injective (rw (there, same, d, good, k) at h) in
                                        subst (λ (y : Bytes × ScramAuth). Proves s m y.0 y.1) z
                                          (prove-Proves s m a salt e ((str_eq_iff _ _).0 same)
                                            (ground (arith, there)) d k)
                                  ]
                          ]
                      | inr (inl d) ↦ let z = rw (there, same, d) at h in cc
                      | inr (inr d) ↦ let z = rw (there, same, d) at h in cc
                    ]
                    | inr other ↦ absurd (nothing_said (rw (there, other) at h) n)
                  ]
          ]

    -- A client-final-message that is not empty is an answer that a server accepts: if HMAC gives
    -- 32 bytes, the nonce begins with the client's, the key is derived from the server's salt
    -- and a positive count of iterations, and the server's own computation over the same
    -- messages finds the client's key in the proof.
    pub generate_client_final_message-Proves :
        (s : ScramAuth) (m : Bytes) {final : Bytes} {s' : ScramAuth}
        → generate_client_final_message crypto s m ≡ ok (final, s')
        → is_empty final ≡ false
        → Proves s m final s'
    unfolding generate_client_final_message
    generate_client_final_message-Proves s m h n =
        elim (Option-cases (read_attributes [] m no_attributes)) [
          | inl e ↦ absurd (nothing_said (rw (e, generate_client_final_message) at h) n)
          | inr (a, e) ↦ answer-Proves s m a e (rw (e, generate_client_final_message) at h) n
        ]

  -- ServerSignature of RFC 5802, section 3, from SaltedPassword and AuthMessage.
  abbrev pub rfc_signature : Bytes → Bytes → Bytes
  rfc_signature salted_password auth_message =
      let server_key = crypto.hmac salted_password (codes "Server Key") in
      crypto.hmac server_key auth_message

  -- The verdict on a server-final-message: the verifier's base64 text is behind "v=".
  abbrev pub IsSigned : ScramAuth → Bytes → Type 0
  IsSigned s server_final_message =
      (length s.salted_password_cache ≡ 32)
      × (is_empty s.auth_message ≡ false)
      × (text : Bytes) × (server_final_message ≡ codes "v=" ++ text)
      × (base64_decode crypto text ≡ ok (rfc_signature s.salted_password_cache s.auth_message))
      × (length (rfc_signature s.salted_password_cache s.auth_message) ≡ 32)

  signature_text-eq :
      (m : Bytes) {text : Bytes} → signature_text m ≡ some text → m ≡ codes "v=" ++ text
  signature_text-eq [] e = cc
  signature_text-eq (v ∷ []) e = cc
  signature_text-eq (v ∷ b ∷ t) {text} e = elim (Bool-cases (v == b'v' && b == b'=')) [
    | inl k ↦
        let same : t ≡ text = (let z = rw k at e in cc) in
        ap₂ (λ (x y : ℕ). x ∷ y ∷ t) (ground (arith, k)) (ground (arith, k))
        ∙ ap (λ r. codes "v=" ++ r) same
    | inr k ↦ let z = rw k at e in cc
  ]

  verify-IsSigned :
      (s : ScramAuth) (m : Bytes) → verify_server_signature crypto s m ≡ ok true → IsSigned s m
  unfolding verify_server_signature
  verify-IsSigned s m h =
      elim (Bool-cases (not (length s.salted_password_cache == 32) || is_empty s.auth_message)) [
        | inl off ↦ let z = rw off at h in cc
        | inr on ↦ elim (Option-cases (signature_text m)) [
          | inl not_there ↦ let z = rw (on, not_there) at h in cc
          | inr (text, t) ↦ elim (Run-cases (base64_decode crypto text)) [
            | inl (sig, d) ↦
                let same : (length sig == 32
                      && str_eq sig
                          (server_signature_of crypto s.salted_password_cache s.auth_message))
                    ≡ true =
                  ok-injective (rw (on, t, d) at h) in
                let e =
                  (str_eq_iff sig
                      (server_signature_of crypto s.salted_password_cache s.auth_message)).0
                    (ground (arith, same)) in
                (
                  ground (arith, on),
                  ground (arith, on),
                  text,
                  signature_text-eq m t,
                  d ∙ ap ok e,
                  ground (arith, ap length e, same),
                )
            | inr (inl d) ↦ let z = rw (on, t, d) at h in cc
            | inr (inr d) ↦ let z = rw (on, t, d) at h in cc
          ]
        ]
      ]

  IsSigned-verify :
      (s : ScramAuth) (m : Bytes) → IsSigned s m → verify_server_signature crypto s m ≡ ok true
  unfolding verify_server_signature
  IsSigned-verify s m (c, n, text, t, d, l) =
      rw
        (
          c,
          n,
          t,
          d,
          l,
          (str_eq_iff (server_signature_of crypto s.salted_password_cache s.auth_message) _).1 refl,
        )
        refl

  -- The server's signature is accepted exactly where an exchange took place (a salted password
  -- of 32 bytes and an auth message are kept) and the message is `v=` and a text that decodes to
  -- the 32 bytes that RFC 5802 prescribes, HMAC(HMAC(SaltedPassword, "Server Key"),
  -- AuthMessage).
  pub verify_server_signature_iff :
      (s : ScramAuth) (m : Bytes) → (verify_server_signature crypto s m ≡ ok true) ↔ IsSigned s m
  verify_server_signature_iff s m = (verify-IsSigned s m, IsSigned-verify s m)
