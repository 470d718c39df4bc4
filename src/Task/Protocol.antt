-- ===== src/Task/Protocol.antt =====
-- The protocol state of a connection over the requests that it carries, one after the other:
-- validate_request and update_after_response of src/factory/PostgresTaskImpl.cc.
use wf_postgres.Common.{
  ℕ, ◌≡◌, ◌⊎◌, inl, inr, refl, sym, ap, ◌∙◌, subst, Bool, true, false, not, ◌&&◌, Option, none,
  some, Bool-cases, if◌then◌else◌,
}
use wf_postgres.Request.{PostgresRequest}
use wf_postgres.Response.{PostgresResponse}
use wf_postgres.Task.Guards.{
  Guard, passes, stops, is_copy_task, validate_connected, validate_request, is_transaction_state,
  next_protocol_state, update_after_response,
}
use wf_postgres.Task.{
  PostgresProtocolState, protocol_ready, protocol_copy_in, protocol_notify_wait, protocol_broken,
  TaskState, is_success, is_task_error, PostgresConnection, ebadf, eproto,
}

-- One request on a connection: it is sent and something comes back, or it is refused, and the task
-- ends as one that never reached the server.
pub data Exchange (c : PostgresConnection) (req : PostgresRequest) (c' : PostgresConnection)
    : Type 0 where
  answered :
      (resp : PostgresResponse) (st : TaskState) {sent : PostgresConnection}
      {resp' : PostgresResponse}
      → validate_request (some c) req ≡ passes (some sent)
      → update_after_response (some sent) req resp st ≡ (some c', resp')
      → Exchange c req c'
  refused :
      (resp : PostgresResponse) (st : TaskState) {e : ℕ} {resp' : PostgresResponse}
      → (is_success st ≡ false) × (is_task_error st ≡ false)
      → validate_request (some c) req ≡ stops e none
      → update_after_response (some c) req resp st ≡ (some c', resp')
      → Exchange c req c'

-- Any number of requests.
pub data Session (c : PostgresConnection) : PostgresConnection → Type 0 where
  begins : Session c c
  goes_on :
      {c1 c2 : PostgresConnection} (req : PostgresRequest)
      → Session c c1
      → Exchange c1 req c2
      → Session c c2

protocol_of : Option PostgresConnection → PostgresProtocolState
protocol_of none = protocol_broken
protocol_of (some c) = c.protocol_state

-- The protocol state that an update leaves.
updated :
    (c : PostgresConnection) {c' : PostgresConnection} (req : PostgresRequest)
    (resp : PostgresResponse) (st : TaskState) {resp' : PostgresResponse}
    → update_after_response (some c) req resp st ≡ (some c', resp')
    → c'.protocol_state ≡ next_protocol_state c.protocol_state req resp st
unfolding update_after_response protocol_of
updated c {c'} req resp st {resp'} h =
    sym (ap (λ (y : Option PostgresConnection × PostgresResponse). protocol_of y.0) h)

-- A state between two requests: no wait for notifications is left over.
abbrev pub IsBetween : PostgresProtocolState → Type 0
IsBetween protocol_notify_wait = ⊥
IsBetween _ = Unit

next-IsBetween :
    (p : PostgresProtocolState) (req : PostgresRequest) (resp : PostgresResponse) (st : TaskState)
    → IsBetween p ⊎ (req.wait_notification ≡ true)
    → IsBetween (next_protocol_state p req resp st)
next-IsBetween p req resp st h =
    elim (Bool-cases (not (is_success st) && not (is_task_error st && resp.is_error))) [
      | inl e ↦ rw e tt
      | inr e ↦ elim (Bool-cases resp.is_copy_in) [
        | inl k ↦ rw (e, k) tt
        | inr k ↦ elim (Bool-cases req.wait_notification) [
          | inl w ↦ rw (e, k, w) tt
          | inr w ↦ elim (Bool-cases (is_transaction_state resp.transaction_state)) [
            | inl t ↦ rw (e, k, w, t) tt
            | inr t ↦ elim h [ inl b ↦ rw (e, k, w, t) b | inr x ↦ cc ]
          ]
        ]
      ]
    ]

next-broken :
    (p : PostgresProtocolState) (req : PostgresRequest) (resp : PostgresResponse) (st : TaskState)
    → (is_success st ≡ false) × (is_task_error st ≡ false)
    → next_protocol_state p req resp st ≡ protocol_broken
next-broken p req resp st h = rw (h.0, h.1) refl

guard_protocol : Guard → PostgresProtocolState
guard_protocol (passes c) = protocol_of c
guard_protocol (stops e s) = protocol_broken

kept_unless :
    (b : Bool) (c sent : PostgresConnection)
    → (if b then stops eproto none else passes (some c)) ≡ passes (some sent)
    → sent.protocol_state ≡ c.protocol_state
unfolding guard_protocol protocol_of
kept_unless true c sent h = cc
kept_unless false c sent h = sym (ap guard_protocol h)

passes-kept :
    (c sent : PostgresConnection) (p : PostgresProtocolState) (req : PostgresRequest)
    → c.protocol_state ≡ p
    → validate_connected p req c ≡ passes (some sent)
    → (sent.protocol_state ≡ p) ⊎ (req.wait_notification ≡ true)
unfolding validate_connected
passes-kept c sent protocol_broken req e h = cc
passes-kept c sent protocol_copy_in req e h =
    inl (kept_unless (not (is_copy_task req) && not req.is_disconnect) c sent h ∙ e)
passes-kept c sent protocol_notify_wait req e h =
    inl (kept_unless (not req.is_disconnect) c sent h ∙ e)
passes-kept c sent protocol_ready req e h = elim (Bool-cases req.wait_notification) [
  | inl w ↦ inr w
  | inr w ↦ inl (kept_unless (is_copy_task req) c sent (rw w at h) ∙ e)
]

sent-IsBetween :
    (c sent : PostgresConnection) (req : PostgresRequest)
    → IsBetween c.protocol_state
    → validate_request (some c) req ≡ passes (some sent)
    → IsBetween sent.protocol_state ⊎ (req.wait_notification ≡ true)
unfolding validate_request
sent-IsBetween c sent req b h = elim (passes-kept c sent c.protocol_state req refl h) [
  | inl e ↦ inl (subst IsBetween (sym e) b)
  | inr w ↦ inr w
]

Exchange-IsBetween :
    (c c' : PostgresConnection) (req : PostgresRequest)
    → IsBetween c.protocol_state
    → Exchange c req c'
    → IsBetween c'.protocol_state
Exchange-IsBetween c c' req b (answered resp st {sent = sent} v u) =
    subst IsBetween (sym (updated sent req resp st u))
      (next-IsBetween sent.protocol_state req resp st (sent-IsBetween c sent req b v))
Exchange-IsBetween c c' req b (refused resp st f v u) =
    subst IsBetween (sym (updated c req resp st u))
      (next-IsBetween c.protocol_state req resp st (inl b))

-- Whatever requests a connection carries, one after the other, no wait for notifications is left
-- over between two of them, if none was at the start.
pub Session-IsBetween :
    (c c' : PostgresConnection)
    → IsBetween c.protocol_state
    → Session c c'
    → IsBetween c'.protocol_state
Session-IsBetween c c' b begins = b
Session-IsBetween c c' b (goes_on {c1 = c1} req before e) =
    Exchange-IsBetween c1 c' req (Session-IsBetween c c1 b before) e

broken-stops :
    (c : PostgresConnection) (req : PostgresRequest)
    → c.protocol_state ≡ protocol_broken
    → validate_request (some c) req ≡ stops ebadf none
unfolding validate_request validate_connected
broken-stops c req e = rw e refl

Exchange-broken :
    (c c' : PostgresConnection) (req : PostgresRequest)
    → c.protocol_state ≡ protocol_broken
    → Exchange c req c'
    → c'.protocol_state ≡ protocol_broken
Exchange-broken c c' req b (answered resp st v u) = cc (broken-stops c req b)
Exchange-broken c c' req b (refused resp st f v u) =
    updated c req resp st u ∙ next-broken c.protocol_state req resp st f

stays_broken :
    (c c' : PostgresConnection)
    → c.protocol_state ≡ protocol_broken
    → Session c c'
    → c'.protocol_state ≡ protocol_broken
stays_broken c c' b begins = b
stays_broken c c' b (goes_on {c1 = c1} req before e) =
    Exchange-broken c1 c' req (stays_broken c c1 b before) e

-- A connection that is broken sends no request any more: whatever requests are tried on it, one
-- after the other, the next is refused with EBADF.
pub Session-broken :
    (c c' : PostgresConnection) (req : PostgresRequest)
    → c.protocol_state ≡ protocol_broken
    → Session c c'
    → validate_request (some c') req ≡ stops ebadf none
Session-broken c c' req b s = broken-stops c' req (stays_broken c c' b s)

-- A request that is refused breaks the connection, if its task ends neither in success nor in a
-- task error: whatever requests are tried on it after that, one after the other, the next is
-- refused with EBADF.
pub refused-broken :
    (c c1 c' : PostgresConnection) (req next : PostgresRequest) (resp : PostgresResponse)
    (st : TaskState) {e : ℕ} {resp' : PostgresResponse}
    → (is_success st ≡ false) × (is_task_error st ≡ false)
    → validate_request (some c) req ≡ stops e none
    → update_after_response (some c) req resp st ≡ (some c1, resp')
    → Session c1 c'
    → validate_request (some c') next ≡ stops ebadf none
refused-broken c c1 c' req next resp st f v u s =
    Session-broken c1 c' next (updated c req resp st u ∙ next-broken c.protocol_state req resp st f)
      s
