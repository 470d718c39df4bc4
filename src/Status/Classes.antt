-- ===== src/Status/Classes.antt =====
-- Which finished tasks have which status.
use wf_postgres.Common.{
  true, false, Option, none, some, ℤ, pos, negsuc, ◌≡◌, ◌≢◌, ◌↔◌, refl, ap, ◌∙◌, subst, Bool-cases,
  inl, inr, arith,
}
use wf_postgres.Response.{PostgresResponse}
use wf_postgres.Status.{
  from_response, PostgresStatus, PostgresStatusKind, success, transport_error, server_error,
  empty_response, FinishedTask, from_task, from_transport_error, from_server_error,
}
use wf_postgres.Task.{int_eq}

-- The response of the task, where the task is there.
abbrev pub response_of : Option FinishedTask → Option PostgresResponse
response_of none = none
response_of (some task) = task.resp

-- There is an answer to the request, and it is no error.
abbrev pub Answered : Option PostgresResponse → Type 0
Answered none = ⊥
Answered (some resp) = resp.is_error ≡ false

abbrev pub Refused : Option PostgresResponse → Type 0
Refused none = ⊥
Refused (some resp) = resp.is_error ≡ true

-- The classes of finished tasks.
abbrev pub IsClass : PostgresStatusKind → Option FinishedTask → Type 0
IsClass empty_response none = Unit
IsClass _ none = ⊥
IsClass success (some task) = (task.state ≡ pos 0) × Answered task.resp
IsClass transport_error (some task) = task.state ≢ pos 0
IsClass server_error (some task) = (task.state ≡ pos 0) × Refused task.resp
IsClass empty_response (some task) = (task.state ≡ pos 0) × (task.resp ≡ none)

int_eq_zero : (a : ℤ) → (int_eq a (pos 0) ≡ true) ↔ (a ≡ pos 0)
int_eq_zero (pos n) = ground arith
int_eq_zero (negsuc n) = ground arith

response-IsClass :
    (task : FinishedTask) → task.state ≡ pos 0 → IsClass (from_response task.resp).kind (some task)
response-IsClass task h = split task.resp refl
  where
    split :
        (r : Option PostgresResponse) → task.resp ≡ r → IsClass (from_response r).kind (some task)
    split none e = (h, e)
    split (some resp) e = elim (Bool-cases resp.is_error) [
      | inl b ↦ rw b (unfold from_server_error in (h, rw e b))
      | inr b ↦ rw b (h, rw e b)
    ]

from_task-IsClass : (task : Option FinishedTask) → IsClass (from_task task).kind task
from_task-IsClass none = unfold from_task in tt
from_task-IsClass (some task) = elim (Bool-cases (int_eq task.state (pos 0))) [
  | inl e ↦ unfold from_task in rw e (response-IsClass task ((int_eq_zero task.state).0 e))
  | inr e ↦ unfold from_task from_transport_error in rw e λ z. cc (e, (int_eq_zero task.state).1 z)
]

from_task_zero :
    (task : FinishedTask) → task.state ≡ pos 0 → from_task (some task) ≡ from_response task.resp
unfolding from_task
from_task_zero task h = rw ((int_eq_zero task.state).1 h) refl

from_response-Answered :
    (r : Option PostgresResponse) → Answered r → (from_response r).kind ≡ success
from_response-Answered none h = absurd h
from_response-Answered (some resp) h = rw h refl

from_response-Refused :
    (r : Option PostgresResponse) → Refused r → (from_response r).kind ≡ server_error
unfolding from_server_error
from_response-Refused none h = absurd h
from_response-Refused (some resp) h = rw h refl

class-kind :
    (k : PostgresStatusKind) (task : Option FinishedTask)
    → IsClass k task
    → (from_task task).kind ≡ k
class-kind success none h = absurd h
class-kind success (some task) h =
    ap (λ (s : PostgresStatus). s.kind) (from_task_zero task h.0)
    ∙ from_response-Answered task.resp h.1
class-kind transport_error none h = absurd h
class-kind transport_error (some task) h = elim (Bool-cases (int_eq task.state (pos 0))) [
  | inl e ↦ absurd (h ((int_eq_zero task.state).0 e))
  | inr e ↦ unfold from_task from_transport_error in rw e refl
]
class-kind server_error none h = absurd h
class-kind server_error (some task) h =
    ap (λ (s : PostgresStatus). s.kind) (from_task_zero task h.0)
    ∙ from_response-Refused task.resp h.1
class-kind empty_response none h = unfold from_task in refl
class-kind empty_response (some task) h =
    ap (λ (s : PostgresStatus). s.kind) (from_task_zero task h.0)
    ∙ ap (λ r. (from_response r).kind) h.1

-- The class of a finished task, in both directions: success where its state is that of success
-- and its response is no error; a transport error for every other state; a server error where
-- the state is that of success and the response is an error; and an empty response where there
-- is no task, or no response in the state of success.
pub from_task_iff :
    (k : PostgresStatusKind) (task : Option FinishedTask)
    → ((from_task task).kind ≡ k) ↔ IsClass k task
from_task_iff k task =
    (λ e. subst (λ x. IsClass x task) e (from_task-IsClass task), class-kind k task)
