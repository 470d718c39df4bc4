-- ===== src/Request/Frames.antt =====
-- What PostgresRequest::encode puts on the wire, read back with PostgresStream::next_frame.
use wf_postgres.Common.{
  ℕ, zero, suc, ◌+◌, ◌≡◌, refl, sym, ap, ◌∙◌, Bool, true, false, not, List, [], ◌∷◌, ◌++◌, some, ok,
  Bytes, All, Bool-cases, inl, inr, length, append-nil, append_assoc, if◌then◌else◌, is_empty,
  arith,
}
use wf_postgres.Request.{
  PostgresRequest, push_frame, encode_terminate, copy_buf, encode_copy, encode_simple_query,
  encode_extended_query, parse_payload, bind_payload, encode,
}
use wf_postgres.Stream.Frames.{
  IsValid, rest_of, message, FitsFrame, frame_of, skip, next_frame-message,
}
use wf_postgres.Stream.{PostgresFrame, PostgresStream, next_frame, payload_bytes}
use wf_postgres.Wire.RoundTrip.{be32, write_uint32-be32}
use wf_postgres.Wire.{write_uint32}

-- A message by its type and its payload, and the bytes of several.
abbrev pub Message : Type 0
Message = ℕ × Bytes

abbrev pub on_wire : List Message → Bytes
on_wire [] = []
on_wire ((t, p) ∷ ms) = message t p ++ on_wire ms

-- The stream gives these messages, one frame after the other, and then no byte is left.
pub data Reads : PostgresStream → List Message → Type 0 where
  all_read : {s : PostgresStream} → rest_of s ≡ [] → Reads s []
  one_read :
      {s : PostgresStream} (f : PostgresFrame) (s' : PostgresStream) {t : ℕ} {p : Bytes}
      {ms : List Message}
      → next_frame s false ≡ ok (some (f, s'))
      → f.type ≡ t
      → payload_bytes s f ≡ ok p
      → Reads s' ms
      → Reads s ((t, p) ∷ ms)

abbrev pub FitsAll : List Message → Type 0
FitsAll ms = All (λ (m : Message). FitsFrame m.1) ms

pub on_wire-Reads :
    (s : PostgresStream) (ms : List Message)
    → IsValid s
    → FitsAll ms
    → rest_of s ≡ on_wire ms
    → Reads s ms
on_wire-Reads s [] v fits e = all_read e
on_wire-Reads s ((t, p) ∷ ms) v fits e =
    let (frame, payload, rest, valid) = next_frame-message s t p (on_wire ms) v fits.0 e in
    one_read (frame_of s t p) (skip s (5 + length p)) frame refl payload
      (on_wire-Reads (skip s (5 + length p)) ms valid fits.1 rest)

-- The messages that a request which is neither a startup nor a cancel stands for.
abbrev extended_messages : PostgresRequest → List Message
extended_messages r =
    (b'B', bind_payload r)
    ∷ (b'D', b'P' ∷ (r.portal_name ++ 0 ∷ []))
    ∷ (b'E', (r.portal_name ++ 0 ∷ []) ++ be32 0)
    ∷ (b'S', [])
    ∷ []

abbrev copy_end : Bool → List Message
copy_end is_done = if is_done then (b'c', []) ∷ [] else []

abbrev copy_messages : PostgresRequest → List Message
copy_messages r =
    if r.copy_fail
    then (b'f', r.copy_data ++ 0 ∷ []) ∷ []
    else if is_empty r.copy_data
    then copy_end r.copy_done
    else (b'd', r.copy_data) ∷ copy_end r.copy_done

abbrev pub messages_of : PostgresRequest → List Message
messages_of r =
    if r.is_disconnect
    then (b'X', []) ∷ []
    else if r.is_copy
    then copy_messages r
    else if r.wait_notification
    then []
    else if not r.has_params
    then (b'Q', r.query ++ 0 ∷ []) ∷ []
    else if not r.skip_parse
    then (b'P', parse_payload r) ∷ extended_messages r
    else extended_messages r

-- What a call of encode hands out: nothing, or the buffer.
abbrev pub sent_bytes : ℕ × PostgresRequest → Bytes
sent_bytes (zero, r) = []
sent_bytes (suc n, r) = r.buf

pub push_frame-message : (buf : Bytes) (t : ℕ) (p : Bytes) → push_frame buf t p ≡ buf ++ message t p
push_frame-message buf t p = rw (write_uint32-be32, append_assoc, append_assoc) refl

encode_terminate-on_wire :
    (r : PostgresRequest) → sent_bytes (encode_terminate r) ≡ on_wire ((b'X', []) ∷ [])
unfolding encode_terminate write_uint32
encode_terminate-on_wire r = refl

-- A message with no payload is written as its type and its length.
push_frame-empty : (buf : Bytes) (t : ℕ) → write_uint32 (buf ++ t ∷ []) 4 ≡ push_frame buf t []
push_frame-empty buf t = sym (append-nil (write_uint32 (buf ++ t ∷ []) 4))

-- Messages that are pushed one after the other.
abbrev push_all : Bytes → List Message → Bytes
push_all buf [] = buf
push_all buf ((t, p) ∷ ms) = push_all (push_frame buf t p) ms

push_all-on_wire : (buf : Bytes) (ms : List Message) → push_all buf ms ≡ buf ++ on_wire ms
push_all-on_wire buf [] = sym (append-nil buf)
push_all-on_wire buf ((t, p) ∷ ms) =
    push_all-on_wire (push_frame buf t p) ms
    ∙ ap (λ b. b ++ on_wire ms) (push_frame-message buf t p)
    ∙ append_assoc buf (message t p) (on_wire ms)

copy_end-on_wire :
    (b1 : Bytes) (is_done : Bool)
    → (if is_done then write_uint32 (b1 ++ b'c' ∷ []) 4 else b1) ≡ b1 ++ on_wire (copy_end is_done)
copy_end-on_wire b1 true = push_frame-empty b1 b'c' ∙ push_all-on_wire b1 ((b'c', []) ∷ [])
copy_end-on_wire b1 false = sym (append-nil b1)

copy_buf-on_wire : (r : PostgresRequest) → copy_buf r ≡ on_wire (copy_messages r)
unfolding copy_buf
copy_buf-on_wire r = elim (Bool-cases r.copy_fail) [
  | inl e ↦ rw (e, push_frame-message [] b'f' (r.copy_data ++ 0 ∷ [])) (sym (append-nil _))
  | inr e ↦ elim (Bool-cases (is_empty r.copy_data)) [
    | inl n ↦ rw (e, n) (copy_end-on_wire [] r.copy_done)
    | inr n ↦
        rw (e, n)
          (copy_end-on_wire (push_frame [] b'd' r.copy_data) r.copy_done
            ∙ ap (λ b. b ++ on_wire (copy_end r.copy_done))
                (push_frame-message [] b'd' r.copy_data))
  ]
]

is_empty-nil : (b : Bytes) → is_empty b ≡ true → b ≡ []
is_empty-nil [] h = refl
is_empty-nil (x ∷ b) h = cc

encode_copy-on_wire : (r : PostgresRequest) → sent_bytes (encode_copy r) ≡ on_wire (copy_messages r)
unfolding encode_copy
encode_copy-on_wire r = elim (Bool-cases (is_empty (copy_buf r))) [
  | inl e ↦ rw e (sym (is_empty-nil (copy_buf r) e) ∙ copy_buf-on_wire r)
  | inr e ↦ rw e (copy_buf-on_wire r)
]

encode_simple_query-on_wire :
    (r : PostgresRequest)
    → sent_bytes (encode_simple_query r) ≡ on_wire ((b'Q', r.query ++ 0 ∷ []) ∷ [])
unfolding encode_simple_query
encode_simple_query-on_wire r = push_all-on_wire [] ((b'Q', r.query ++ 0 ∷ []) ∷ [])

abbrev query_messages : PostgresRequest → List Message
query_messages r =
    if not r.skip_parse then (b'P', parse_payload r) ∷ extended_messages r else extended_messages r

encode_extended_query-on_wire :
    (r : PostgresRequest) → sent_bytes (encode_extended_query r) ≡ on_wire (query_messages r)
unfolding encode_extended_query
encode_extended_query-on_wire r =
    let zero_rows : write_uint32 (r.portal_name ++ 0 ∷ []) 0 ≡ (r.portal_name ++ 0 ∷ []) ++ be32 0 =
      write_uint32-be32 (r.portal_name ++ 0 ∷ []) 0 in
    elim (Bool-cases (not r.skip_parse)) [
      | inl e ↦
          rw (e, zero_rows)
            (push_frame-empty
                (push_all [] (
                  (b'P', parse_payload r)
                  ∷ (b'B', bind_payload r)
                  ∷ (b'D', b'P' ∷ (r.portal_name ++ 0 ∷ []))
                  ∷ (b'E', (r.portal_name ++ 0 ∷ []) ++ be32 0)
                  ∷ []))
                b'S'
              ∙ push_all-on_wire [] ((b'P', parse_payload r) ∷ extended_messages r))
      | inr e ↦
          rw (e, zero_rows)
            (push_frame-empty
                (push_all [] (
                  (b'B', bind_payload r)
                  ∷ (b'D', b'P' ∷ (r.portal_name ++ 0 ∷ []))
                  ∷ (b'E', (r.portal_name ++ 0 ∷ []) ++ be32 0)
                  ∷ []))
                b'S'
              ∙ push_all-on_wire [] (extended_messages r))
    ]

encode-on_wire :
    (r : PostgresRequest)
    → r.is_startup ≡ false
    → r.is_cancel ≡ false
    → sent_bytes (encode r) ≡ on_wire (messages_of r)
unfolding encode
encode-on_wire r s c = ground (
  arith,
  encode_terminate-on_wire r,
  encode_copy-on_wire r,
  encode_simple_query-on_wire r,
  encode_extended_query-on_wire r,
)

-- What a request puts on the wire is read back frame by frame: for a request that is neither the
-- startup nor a cancel, and whose messages fit in a length field, the frames are its messages in
-- their order, and no byte is left.
pub encode-Reads :
    (r : PostgresRequest)
    → r.is_startup ≡ false
    → r.is_cancel ≡ false
    → FitsAll (messages_of r)
    → Reads (record { owned = true; bytes = sent_bytes (encode r); cursor = 0 }) (messages_of r)
encode-Reads r s c fits =
    on_wire-Reads (record { owned = true; bytes = sent_bytes (encode r); cursor = 0 })
      (messages_of r) (omega arith) fits (encode-on_wire r s c)
