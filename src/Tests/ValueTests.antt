-- ===== src/Tests/ValueTests.antt =====
-- Inputs for include/PostgresValue.h, include/PostgresStatus.h and
-- src/client/WFPostgresConnection.cc.
use wf_postgres.Common.{◌≡◌, ◌↔◌, refl, [], ◌∷◌, map, some, codes, pos, negsuc, to_string}
use wf_postgres.Libc.{to_string_ℤ}
use wf_postgres.Response.{new_response}
use wf_postgres.Status.Classes.{IsClass, from_task_iff}
use wf_postgres.Status.{success, FinishedTask, from_task, to_text, from_transport_error}
use wf_postgres.Value.ArrayElements.{read_array-of_arrays}
use wf_postgres.Value.ArrayText.{read_array}
use wf_postgres.Value.{of_int32_array, of_int64_array, of_texts}

read_array-of_arrays_example :
    (read_array (of_int32_array (pos 1 ∷ negsuc 1 ∷ [])).contents
      ≡ some (map (λ v. some (to_string_ℤ v)) (pos 1 ∷ negsuc 1 ∷ [])))
    × (read_array (of_int64_array (pos 1 ∷ negsuc 1 ∷ [])).contents
        ≡ some (map (λ v. some (to_string_ℤ v)) (pos 1 ∷ negsuc 1 ∷ [])))
    × (read_array (of_texts (codes "a,b" ∷ [] ∷ codes "NULL" ∷ [])).contents
        ≡ some (map some (codes "a,b" ∷ [] ∷ codes "NULL" ∷ [])))
read_array-of_arrays_example =
    read_array-of_arrays (pos 1 ∷ negsuc 1 ∷ []) (codes "a,b" ∷ [] ∷ codes "NULL" ∷ [])

abbrev done_task : FinishedTask
done_task = record { state = pos 0; error = pos 0; resp = some (new_response []) }

from_task_iff_example :
    ((from_task (some done_task)).kind ≡ success) ↔ IsClass success (some done_task)
from_task_iff_example = from_task_iff success (some done_task)

status_test :
    to_text (from_transport_error (pos 1) (negsuc 0))
    ≡ codes "[Transport Error] state=1 error=-1 (Transport error (state=1, error=-1))"
unfolding to_text from_transport_error to_string_ℤ to_string
status_test = refl
