-- ===== src/Task/Wrapper.antt =====
-- The SSL wrapper in src/factory/PostgresTaskImpl.cc: which message it holds at the startup.
use wf_postgres.Common.{
  ◌≡◌, ◌≢◌, inl, inr, refl, true, false, none, some, ◌==◌, Option-cases, ne→not-==,
}
use wf_postgres.Task.Messages.{sends, wrap_ssl, message_out, message_in, with_startup_req}
use wf_postgres.Task.Transactions.{and-false}
use wf_postgres.Task.{
  Message, startup_request, ssl_wrapper, PostgresConnection, ComplexPostgresTask,
}

-- What takes the answer on an SSL connection that has its wrapper.
message_in-wrapper :
    (t : ComplexPostgresTask) {c : PostgresConnection} {first : Message}
    → t.is_user_request ≡ false
    → t.conn ≡ some c
    → (c.state ≡ 2) × (c.has_ssl ≡ true) × (c.wrapper ≡ some first)
    → (message_in t).0 ≡ some (ssl_wrapper first)
unfolding message_in wrap_ssl
message_in-wrapper t u e h = elim (Option-cases t.startup_resp) [
  | inl r ↦ rw (u, r, e, h.0, and-false t.is_ssl, h.1, h.2) refl
  | inr (resp, r) ↦ rw (u, r, e, h.0, and-false t.is_ssl, h.1, h.2) refl
]

with_startup_req-keeps :
    (t : ComplexPostgresTask) → (with_startup_req t).is_user_request ≡ t.is_user_request
with_startup_req-keeps t = elim (Option-cases t.startup_req) [
  | inl r ↦ rw r refl
  | inr (req, r) ↦ rw r refl
]

message_out-startup :
    (t : ComplexPostgresTask) {c : PostgresConnection}
    → t.conn ≡ some c
    → (c.state ≡ 2) × (c.wrapper ≡ none)
    → t.is_ssl ≡ true
    → t.seq ≢ 0
    → message_out t
      ≡ sends
          (ssl_wrapper startup_request)
          (record (with_startup_req (record t { is_user_request = false })) {
            conn = some (record c { wrapper = some startup_request });
          })
unfolding message_out wrap_ssl
message_out-startup t e h s n =
    let first : (t.seq == 0) ≡ false = ne→not-== t.seq 0 n in rw (first, s, e, h.0, h.1) refl

-- On an SSL connection the wrapper that is made for the startup packet is the one that is to
-- take the server's answer: it holds the request, and not the startup response. The connection
-- is in the startup state behind its handshake, with no wrapper yet.
pub message_in-wrapped :
    (t : ComplexPostgresTask) {c : PostgresConnection}
    → t.conn ≡ some c
    → (c.state ≡ 2) × (c.has_ssl ≡ true) × (c.wrapper ≡ none)
    → t.is_ssl ≡ true
    → t.seq ≢ 0
    → (t' : ComplexPostgresTask) × (message_out t ≡ sends (ssl_wrapper startup_request) t')
      × ((message_in t').0 ≡ some (ssl_wrapper startup_request))
message_in-wrapped t {c} e h s n =
    let t' : ComplexPostgresTask =
      record (with_startup_req (record t { is_user_request = false })) {
        conn = some (record c { wrapper = some startup_request });
      } in
    (
      t',
      message_out-startup t e (h.0, h.2) s n,
      message_in-wrapper t' (with_startup_req-keeps (record t { is_user_request = false })) refl
          (h.0, h.1, refl),
    )
