-- ===== src/Auth/Frame.antt =====
-- What src/auth/PostgresAuth.cc leaves alone: it reads and writes neither the buffer nor the cursor
-- of the response.
use wf_postgres.Auth.{
  start_scram, sasl, sasl_continue, sasl_final, answer_request, process_auth_request, scram_of,
}
use wf_postgres.Common.{
  ℕ, ◌≡◌, Bool, none, some, inl, inr, map_run, Bytes, length, drop, ltb, Bool-cases, Run-cases,
  arith,
}
use wf_postgres.Response.{PostgresResponse, set_error_fatal, set_internal_error, feedback}
use wf_postgres.Scram.{Crypto, ScramAuth, new_scram}
use wf_postgres.Wire.{read_uint32}

-- The same response over another buffer.
abbrev pub over : Bytes → ℕ → PostgresResponse → PostgresResponse
over buf cursor r = record r { buf = buf; cursor = cursor }

abbrev pub over_snd : Bytes → ℕ → Bool × PostgresResponse → Bool × PostgresResponse
over_snd buf cursor (b, r) = (b, over buf cursor r)

module _ (crypto : Crypto) (buf : Bytes) (cursor : ℕ) where
  start_scram-over :
      (r : PostgresResponse) (s : ScramAuth)
      → start_scram crypto (over buf cursor r) s ≡ over_snd buf cursor (start_scram crypto r s)
  unfolding start_scram set_error_fatal feedback
  start_scram-over r s = ground arith

  sasl-over :
      (p : Bytes) (r : PostgresResponse)
      → sasl crypto p (over buf cursor r) ≡ over_snd buf cursor (sasl crypto p r)
  unfolding sasl set_error_fatal set_internal_error
  sasl-over p r =
      ground (arith, start_scram-over r (elim (scram_of r.auth) [ none ↦ new_scram | some s ↦ s ]))

  sasl_continue-over :
      (p : Bytes) (r : PostgresResponse)
      → sasl_continue crypto p (over buf cursor r)
        ≡ map_run (over_snd buf cursor) (sasl_continue crypto p r)
  unfolding sasl_continue set_error_fatal feedback
  sasl_continue-over p r = ground arith

  sasl_final-over :
      (p : Bytes) (r : PostgresResponse)
      → sasl_final crypto p (over buf cursor r)
        ≡ map_run (over_snd buf cursor) (sasl_final crypto p r)
  unfolding sasl_final set_error_fatal
  sasl_final-over p r = ground arith

  answer_request-over :
      (t : ℕ) (p : Bytes) (r : PostgresResponse)
      → answer_request crypto t p (over buf cursor r)
        ≡ map_run (over_snd buf cursor) (answer_request crypto t p r)
  unfolding answer_request set_error_fatal set_internal_error feedback
  answer_request-over t p r =
      ground (arith, sasl-over p r, sasl_continue-over p r, sasl_final-over p r)

  -- The answer to a request does not depend on what is buffered, and leaves it alone.
  pub process_auth_request-over :
      (p : Bytes) (r : PostgresResponse)
      → process_auth_request crypto p (over buf cursor r)
        ≡ map_run (over_snd buf cursor) (process_auth_request crypto p r)
  unfolding process_auth_request set_error_fatal
  process_auth_request-over p r = elim (Bool-cases (ltb (length p) 4)) [
    | inl e ↦ rw e
    | inr e ↦ rw e (elim (Run-cases (read_uint32 p)) [
      | inl (t, k) ↦ rw k (answer_request-over t (drop 4 p) r)
      | inr (inl k) ↦ rw k
      | inr (inr k) ↦ rw k
    ])
  ]
