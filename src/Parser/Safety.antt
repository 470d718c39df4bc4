-- ===== src/Parser/Safety.antt =====
-- The parsers of src/protocol/PostgresParser.cc on payloads of any bytes.
use wf_postgres.Common.{
  ℕ, zero, suc, ◌+◌, ◌-◌, ◌<◌, ◌≤◌, ◌≡◌, refl, List, [], ◌∷◌, ◌++◌, ◌⊎◌, inl, inr, length-append,
  subst, le→not-ltb, Returns-weaken, ok, Returns, >>=-Returns, Bytes, ℤ, pos, negsuc, length, drop,
  length-drop, ltb, leb, ◌==◌, Bool-cases, Option-cases, arith, tests,
}
use wf_postgres.Parser.{
  BackendKey, Negotiation, error_fields, set_error_field, parse_error_response,
  parse_backend_key_data, parse_notification, parse_negotiation_response, read_field, read_fields,
  rounds_of, parse_row_description, parse_ready_for_query,
}
use wf_postgres.Libc.{std_string}
use wf_postgres.Stream.{load}
use wf_postgres.Types.{PostgresError, PostgresNotification, PostgresField}
use wf_postgres.Wire.Bounds.{
  Any, read_uint16-Returns, read_uint32-Returns, read_int16-Returns, length-read_cstring,
  std_string-Returns,
}
use wf_postgres.Wire.{read_cstring, read_uint16, read_uint32, read_int16}

error_fields-Returns :
    (rounds : ℕ) (p : Bytes) (err : PostgresError)
    → length p < rounds
    → Returns (error_fields rounds p err) Any
unfolding error_fields
error_fields-Returns zero p err h = absurd (omega arith)
error_fields-Returns (suc rounds) [] err h = tt
error_fields-Returns (suc rounds) (type ∷ p) err h = elim (Bool-cases (type == 0)) [
  | inl e ↦ rw e tt
  | inr e ↦ elim (Option-cases (read_cstring p)) [
    | inl c ↦ rw (e, c, error_fields) tt
    | inr ((value, p'), c) ↦
        rw (e, c, error_fields)
          (error_fields-Returns rounds p' (set_error_field type value err)
            (omega (arith, length-read_cstring p c)))
  ]
]

parse_error_response-Returns :
    (p : Bytes) (err : PostgresError) → Returns (parse_error_response p err) Any
unfolding parse_error_response
parse_error_response-Returns p err = error_fields-Returns (length p + 1) p err (omega arith)

parse_backend_key_data-Returns :
    (p : Bytes) (key : BackendKey) → Returns (parse_backend_key_data p key) Any
unfolding parse_backend_key_data
parse_backend_key_data-Returns p key = elim (Bool-cases (leb 8 (length p))) [
  | inl e ↦ rw e (
      >>=-Returns (read_uint32 p) _ Any Any (read_uint32-Returns p (ground arith)) λ pid _.
        >>=-Returns (read_uint32 (drop 4 p)) _ Any Any
          (read_uint32-Returns (drop 4 p) (ground (arith, length-drop 4 p)))
          λ _ _.
            >>=-Returns (std_string (drop 4 p) (length p - 4)) _ Any Any
              (std_string-Returns (drop 4 p) (length p - 4) (omega (arith, length-drop 4 p)))
              λ _ _. tt)
  | inr e ↦ rw e tt
]

parse_notification-Returns :
    (p : Bytes) (ns : List PostgresNotification) → Returns (parse_notification p ns) Any
unfolding parse_notification
parse_notification-Returns p ns = elim (Bool-cases (leb 4 (length p))) [
  | inl e ↦
      rw e (>>=-Returns (read_uint32 p) _ Any Any (read_uint32-Returns p (ground arith)) λ _ _. tt)
  | inr e ↦ rw e tt
]

read_uint32_at : (n : ℕ) (p : Bytes) → n + 4 ≤ length p → Returns (read_uint32 (drop n p)) Any
read_uint32_at n p h = read_uint32-Returns (drop n p) (omega (arith, length-drop n p))

read_uint16_at : (n : ℕ) (p : Bytes) → n + 2 ≤ length p → Returns (read_uint16 (drop n p)) Any
read_uint16_at n p h = read_uint16-Returns (drop n p) (omega (arith, length-drop n p))

parse_negotiation_response-Returns :
    (p : Bytes) (n : Negotiation) → Returns (parse_negotiation_response p n) Any
unfolding parse_negotiation_response
parse_negotiation_response-Returns p n = elim (Bool-cases (leb 8 (length p))) [
  | inl e ↦ rw e (
      >>=-Returns (read_uint32 p) _ Any Any (read_uint32-Returns p (ground arith)) λ _ _.
        >>=-Returns (read_uint32 (drop 4 p)) _ Any Any (read_uint32_at 4 p (ground arith))
          λ _ _. tt)
  | inr e ↦ rw e tt
]

parse_ready_for_query-Returns :
    (p : Bytes) (state : ℕ) → Returns (parse_ready_for_query p state) Any
unfolding parse_ready_for_query load
parse_ready_for_query-Returns [] state = tt
parse_ready_for_query-Returns (b ∷ p) state = elim (Bool-cases (length (b ∷ p) == 1)) [
  | inl e ↦ rw e tt
  | inr e ↦ rw e tt
]

pub read_field-Returns : (name p : Bytes) → 18 ≤ length p → Returns (read_field name p) Any
unfolding read_field
read_field-Returns name p h = >>=-Returns _ _ Any Any (read_uint32-Returns p (omega arith)) λ _ _.
    >>=-Returns _ _ Any Any (read_uint16_at 4 p (omega arith)) λ _ _.
      >>=-Returns _ _ Any Any (read_uint32_at 6 p (omega arith)) λ _ _.
        >>=-Returns _ _ Any Any (read_uint16_at 10 p (omega arith)) λ _ _.
          >>=-Returns _ _ Any Any (read_uint32_at 12 p (omega arith))
            λ _ _. >>=-Returns _ _ Any Any (read_uint16_at 16 p (omega arith)) λ _ _. tt

-- Either all fields that were announced, behind the ones before them, or -1 and no field.
abbrev pub AllOrNone : ℕ → ℤ × List PostgresField → Type 0
AllOrNone n (status, fields) =
    ((status ≡ pos 0) × (length fields ≡ n)) ⊎ ((status ≡ negsuc 0) × (fields ≡ []))

read_fields-AllOrNone :
    (n : ℕ) (p : Bytes) (fields : List PostgresField)
    → Returns (read_fields n p fields) (AllOrNone (length fields + n))
unfolding read_fields
read_fields-AllOrNone zero p fields = inl (refl, omega arith)
read_fields-AllOrNone (suc n) p fields = elim (Option-cases (read_cstring p)) [
  | inl e ↦ rw (e, read_fields) (inr (refl, refl))
  | inr ((name, ptr), e) ↦ elim (Bool-cases (ltb (length ptr) 18)) [
    | inl short ↦ rw (e, read_fields, short) (inr (refl, refl))
    | inr enough ↦
        rw (e, read_fields, enough)
          (>>=-Returns (read_field name ptr) _ Any _
            (read_field-Returns name ptr (omega (tests, enough)))
            λ f _.
              subst (λ k. Returns (read_fields n (drop 18 ptr) (fields ++ f ∷ [])) (AllOrNone k))
                (omega (arith, length-append fields (f ∷ [])))
                (read_fields-AllOrNone n (drop 18 ptr) (fields ++ f ∷ [])))
  ]
]

-- A RowDescription of two bytes at least gives all the fields that its count announces and 0, or
-- no field and -1.
pub parse_row_description-AllOrNone :
    (p : Bytes) (fields : List PostgresField) (num_fields : ℤ)
    → 2 ≤ length p
    → read_int16 p ≡ ok num_fields
    → Returns (parse_row_description p fields) (AllOrNone (rounds_of num_fields))
unfolding parse_row_description
parse_row_description-AllOrNone p fields num_fields h e =
    rw (le→not-ltb (length p) 2 h, e)
      (subst (λ k. Returns (read_fields (rounds_of num_fields) (drop 2 p) []) (AllOrNone k))
        (omega arith) (read_fields-AllOrNone (rounds_of num_fields) (drop 2 p) []))

pub parse_row_description-Returns :
    (p : Bytes) (fields : List PostgresField) → Returns (parse_row_description p fields) Any
unfolding parse_row_description
parse_row_description-Returns p fields = elim (Bool-cases (ltb (length p) 2)) [
  | inl e ↦ rw e tt
  | inr e ↦ rw e (
      >>=-Returns (read_int16 p) _ Any Any (read_int16-Returns p (omega (tests, e)))
        λ n _. Returns-weaken _ _ (read_fields-AllOrNone (rounds_of n) (drop 2 p) []))
]

-- Whatever bytes a payload holds, each of these parsers returns: no read leaves the payload, and
-- the loop over the fields of an error ends.
pub parsers-Returns :
    (p : Bytes) (err : PostgresError) (key : BackendKey) (ns : List PostgresNotification)
    (n : Negotiation) (fields : List PostgresField) (state : ℕ)
    → Returns (parse_error_response p err) Any
      × Returns (parse_backend_key_data p key) Any
      × Returns (parse_notification p ns) Any
      × Returns (parse_negotiation_response p n) Any
      × Returns (parse_row_description p fields) Any
      × Returns (parse_ready_for_query p state) Any
parsers-Returns p err key ns n fields state = (
  parse_error_response-Returns p err,
  parse_backend_key_data-Returns p key,
  parse_notification-Returns p ns,
  parse_negotiation_response-Returns p n,
  parse_row_description-Returns p fields,
  parse_ready_for_query-Returns p state,
)
