-- ===== src/Task/Transactions.antt =====
-- A session's transaction and the connection under it, over the tasks of
-- src/factory/PostgresTaskImpl.cc.
use wf_postgres.Common.{
  ℕ, ◌≡◌, ◌⊎◌, inl, inr, refl, ap, ap₂, ◌∙◌, Bool, true, false, not, ◌&&◌, Option, none, some, ℤ,
  pos, ◌==◌, List, [], ◌∷◌, All, subst, Bool-cases, if◌then◌else◌, arith,
}
use wf_postgres.Request.{PostgresRequest}
use wf_postgres.Response.{PostgresResponse}
use wf_postgres.Task.Finish.{
  settle_disconnect, settle_error, record_continuity, answered_task, settle_target, handle,
}
use wf_postgres.Task.Guards.{check_reconnect_guard, update_after_response}
use wf_postgres.Task.Messages.{refuses, message_out, user_message_out}
use wf_postgres.Task.{
  TaskState, state_success, state_sys_error, PostgresConnection, ComplexPostgresTask,
  continuity_new, continuity_idle, continuity_unknown, int_eq, econnreset,
}

-- A connection that has just logged in, for a task of a session: a fixed connection, and a request
-- that does not end the session.
pub record OnNewConnection (t : ComplexPostgresTask) : Type 0 where
  pub fixed : t.is_fixed_conn ≡ true
  pub goes_on : t.req.is_disconnect ≡ false
  pub conn : PostgresConnection
  pub there : t.conn ≡ some conn
  pub logged_in : conn.state ≡ 3

-- What the task is when its request was refused.
abbrev pub refused_task : ComplexPostgresTask → ComplexPostgresTask
refused_task t = record t { is_user_request = true; target = some continuity_unknown }

-- A session with a transaction, or one whose state is not known.
abbrev pub IsOpen : ℤ → Type 0
IsOpen s = (int_eq s continuity_new ≡ false) × (int_eq s continuity_idle ≡ false)

pub and-false : (b : Bool) → (b && false) ≡ false
and-false true = refl
and-false false = refl

-- On a connection that is logged in, message_out comes to the user's request.
pub message_out-user :
    (t : ComplexPostgresTask) {c : PostgresConnection}
    → t.conn ≡ some c
    → c.state ≡ 3
    → message_out t ≡ user_message_out t
unfolding message_out user_message_out
message_out-user t {c} e three =
    rw (e, three, and-false t.is_ssl, and-false (t.seq == 0 && not t.req.is_cancel)) refl

user_message_out-refuses :
    (t : ComplexPostgresTask) (s : ℤ)
    → OnNewConnection t
    → t.target ≡ some s
    → IsOpen s
    → user_message_out t ≡ refuses econnreset (refused_task t)
unfolding user_message_out check_reconnect_guard
user_message_out-refuses t s n e open_session =
    rw
      (
        n.there,
        n.goes_on,
        n.fixed,
        n.logged_in,
        e,
        open_session.0,
        open_session.1,
        and-false (not t.req.wait_notification && not t.req.is_copy),
      )
      refl

-- The task whose answer has just arrived, and the session that it leaves behind: the answer ended
-- without ReadyForQuery, or inside a transaction that is open or has failed.
pub record LeavesOpen (t : ComplexPostgresTask) : Type 0 where
  pub fixed : t.is_fixed_conn ≡ true
  pub goes_on : t.req.is_disconnect ≡ false
  pub is_user : t.is_user_request ≡ true
  pub started : t.user_request_started ≡ true
  pub old_target : ℤ
  pub routed : t.target ≡ some old_target
  pub clean : t.resp.internal_error ≡ 0
  pub open_end :
      (t.resp.ready_for_query ≡ false)
      ⊎ ((t.resp.transaction_state ≡ b'T') ⊎ (t.resp.transaction_state ≡ b'E'))

update-keeps :
    (c : Option PostgresConnection) (req : PostgresRequest) (resp : PostgresResponse)
    (st : TaskState)
    → ((update_after_response c req resp st).1.ready_for_query ≡ resp.ready_for_query)
      × ((update_after_response c req resp st).1.transaction_state ≡ resp.transaction_state)
unfolding update_after_response
update-keeps none req resp st = (refl, refl)
update-keeps (some c) req resp st = (refl, refl)

-- What the route keeps of an answer.
abbrev session_state : PostgresResponse → ℤ
session_state resp = if resp.ready_for_query then pos resp.transaction_state else continuity_unknown

session_state-IsOpen :
    (resp : PostgresResponse)
    → (resp.ready_for_query ≡ false)
      ⊎ ((resp.transaction_state ≡ b'T') ⊎ (resp.transaction_state ≡ b'E'))
    → IsOpen (session_state resp)
session_state-IsOpen resp (inl e) = rw e (refl, refl)
session_state-IsOpen resp (inr h) = elim (Bool-cases resp.ready_for_query) [
  | inl r ↦ elim h [ inl e ↦ rw (r, e) (refl, refl) | inr e ↦ rw (r, e) (refl, refl) ]
  | inr r ↦ rw r (refl, refl)
]

settled :
    (t : ComplexPostgresTask)
    → t.resp.internal_error ≡ 0
    → settle_error t (settle_disconnect t (state_success, 0)) ≡ (state_success, 0)
settled t clean = ground arith

settle_target-target :
    (t : ComplexPostgresTask) {s : ℤ}
    → (t.is_user_request ≡ true) × (t.is_fixed_conn ≡ true) × (t.target ≡ some s)
    → t.req.is_disconnect ≡ false
    → t.user_request_started ≡ true
    → (settle_target state_success t).target ≡ some (session_state t.resp)
unfolding settle_target record_continuity
settle_target-target t h goes_on started = rw (h.0, h.1, h.2, goes_on, started) refl

answered_task-target :
    (t : ComplexPostgresTask)
    → LeavesOpen t
    → (settle_target state_success (answered_task state_success t)).target
      ≡ some (session_state t.resp)
answered_task-target t l =
    let k = update-keeps t.conn t.req t.resp state_success in
    let u = update_after_response t.conn t.req t.resp state_success in
    let t' : ComplexPostgresTask = record t { conn = u.0; resp = u.1 } in
    let same : answered_task state_success t ≡ t' = ap (λ b. if b then t' else t) l.is_user in
    ap (λ z. (settle_target state_success z).target) same
    ∙ settle_target-target t' (l.is_user, l.fixed, l.routed) l.goes_on l.started
    ∙ ap₂ (λ b (c : ℕ). some (if b then pos c else continuity_unknown)) k.0 k.1

handle-target :
    (t : ComplexPostgresTask)
    → LeavesOpen t
    → (handle state_success 0 t).1.target ≡ some (session_state t.resp)
unfolding handle
handle-target t l =
    ap (λ (e : TaskState × ℕ). (settle_target e.0 (answered_task e.0 t)).target) (settled t l.clean)
    ∙ answered_task-target t l

-- A refused request leaves the state of the session unknown.
handle-refused :
    (u : ComplexPostgresTask)
    → u.req.is_disconnect ≡ false
    → u.user_request_started ≡ false
    → (handle state_sys_error econnreset (refused_task u)).1.target ≡ some continuity_unknown
unfolding handle settle_target record_continuity
handle-refused u goes_on fresh = elim (Bool-cases u.is_fixed_conn) [
  | inl k ↦ rw (k, goes_on, fresh) refl
  | inr k ↦ rw k refl
]

-- Requests of a session, one after the other: each finds a connection that has just logged in, and
-- the session's state as the one before left it, which was refused.
abbrev pub FollowOn : Option ℤ → List ComplexPostgresTask → Type 0
FollowOn s [] = Unit
FollowOn s (u ∷ us) =
    OnNewConnection u
    × (u.user_request_started ≡ false)
    × (u.target ≡ s)
    × FollowOn (handle state_sys_error econnreset (refused_task u)).1.target us

abbrev pub IsRefused : ComplexPostgresTask → Type 0
IsRefused u = message_out u ≡ refuses econnreset (refused_task u)

FollowOn-IsRefused :
    (s : ℤ) (us : List ComplexPostgresTask) → IsOpen s → FollowOn (some s) us → All IsRefused us
FollowOn-IsRefused s [] open_session h = tt
FollowOn-IsRefused s (u ∷ us) open_session (n, fresh, e, later) = (
  message_out-user u n.there n.logged_in ∙ user_message_out-refuses u s n e open_session,
  FollowOn-IsRefused continuity_unknown us (refl, refl)
      (subst (λ x. FollowOn x us) (handle-refused u n.goes_on fresh) later),
)

pub message_out-handle :
    (t : ComplexPostgresTask) (us : List ComplexPostgresTask)
    → LeavesOpen t
    → FollowOn (handle state_success 0 t).1.target us
    → All IsRefused us
message_out-handle t us l h =
    FollowOn-IsRefused (session_state t.resp) us (session_state-IsOpen t.resp l.open_end)
      (subst (λ x. FollowOn x us) (handle-target t l) h)
