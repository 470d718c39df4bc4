-- ===== src/Request/Startup.antt =====
-- The startup packet of PostgresRequest::encode_startup, as a server reads it.
use wf_postgres.Common.{
  ℕ, zero, suc, ◌+◌, ◌-◌, ◌<◌, ◌^◌, ◌≡◌, refl, ap, ◌∙◌, true, not, ◌&&◌, [], ◌∷◌, ◌++◌, Option,
  none, some, ok, inl, inr, Bytes, NoNul, codes, u32, length, take, drop, All, append_assoc,
  take_all, drop_all, Bool-cases, if◌then◌else◌, is_empty, str_eq, arith,
}
use wf_postgres.Request.{PostgresRequest, push_pair, push_params, startup_payload, encode_startup}
use wf_postgres.Stream.Frames.{rest_of}
use wf_postgres.Stream.{
  PostgresFrame, PostgresStream, next_frame, next_startup, payload_bytes, buffered_size,
}
use wf_postgres.Types.{StringMap}
use wf_postgres.Wire.RoundTrip.{be32, read_uint32-be32, write_uint32-be32}
use wf_postgres.Wire.Strings.{read_cstring-append}
use wf_postgres.Wire.{read_cstring, read_uint32, write_uint32}

-- A server's reading: names and values in turn, up to an empty name.
pub read_pairs : ℕ → Bytes → Option StringMap
read_pairs zero p = none
read_pairs (suc rounds) p = elim (read_cstring p) [
  | none ↦ none
  | some ([], _) ↦ some []
  | some (x ∷ key, p') ↦ elim (read_cstring p') [
    | none ↦ none
    | some (value, p'') ↦ elim (read_pairs rounds p'') [
      | none ↦ none
      | some m ↦ some ((x ∷ key, value) ∷ m)
    ]
  ]
]

abbrev pub pairs_payload : StringMap → Bytes → Bytes
pairs_payload [] rest = rest
pairs_payload ((key, value) ∷ m) rest = key ++ 0 ∷ (value ++ 0 ∷ pairs_payload m rest)

-- Those of the parameters that are neither the user nor the database.
unfoldable pub others : StringMap → StringMap
others [] = []
others ((key, value) ∷ m) =
    if not (str_eq key (codes "user")) && not (str_eq key (codes "database"))
    then (key, value) ∷ others m
    else others m

abbrev pub startup_pairs : PostgresRequest → StringMap
startup_pairs r =
    (codes "user", r.user)
    ∷ (if is_empty r.db
        then others r.startup_params
        else (codes "database", r.db) ∷ others r.startup_params)

-- A name is not empty, and no text holds a zero byte.
abbrev pub IsPair : Bytes × Bytes → Type 0
IsPair (key, value) = (0 < length key) × NoNul key × NoNul value

push_pair-payload :
    (params key value rest : Bytes)
    → push_pair params key value ++ rest ≡ params ++ (key ++ 0 ∷ (value ++ 0 ∷ rest))
push_pair-payload params key value rest =
    append_assoc ((params ++ key) ++ 0 ∷ []) (value ++ 0 ∷ []) rest
    ∙ append_assoc (params ++ key) (0 ∷ []) ((value ++ 0 ∷ []) ++ rest)
    ∙ append_assoc params key (0 ∷ ((value ++ 0 ∷ []) ++ rest))
    ∙ ap (λ b. params ++ (key ++ 0 ∷ b)) (append_assoc value (0 ∷ []) rest)

push_params-payload :
    (params rest : Bytes) (m : StringMap)
    → push_params params m ++ rest ≡ params ++ pairs_payload (others m) rest
unfolding push_params others
push_params-payload params rest [] = refl
push_params-payload params rest ((key, value) ∷ m) =
    elim (Bool-cases (not (str_eq key (codes "user")) && not (str_eq key (codes "database")))) [
      | inl e ↦ rw e (
          push_params-payload (push_pair params key value) rest m
          ∙ push_pair-payload params key value (pairs_payload (others m) rest))
      | inr e ↦ rw e (push_params-payload params rest m)
    ]

startup_payload-pairs :
    (r : PostgresRequest) → startup_payload r ≡ pairs_payload (startup_pairs r) (0 ∷ [])
unfolding startup_payload
startup_payload-pairs r =
    let p1 = push_pair [] (codes "user") r.user in
    let tail = pairs_payload (others r.startup_params) (0 ∷ []) in
    elim (Bool-cases (is_empty r.db)) [
      | inl e ↦ rw e (
          push_params-payload p1 (0 ∷ []) r.startup_params
          ∙ push_pair-payload [] (codes "user") r.user tail)
      | inr e ↦ rw e (
          push_params-payload (push_pair p1 (codes "database") r.db) (0 ∷ []) r.startup_params
          ∙ push_pair-payload p1 (codes "database") r.db tail
          ∙ push_pair-payload [] (codes "user") r.user (codes "database" ++ 0 ∷ (r.db ++ 0 ∷ tail)))
    ]

read_pairs-payload :
    (rounds : ℕ) (m : StringMap) (rest : Bytes)
    → All IsPair m
    → length m < rounds
    → read_pairs rounds (pairs_payload m (0 ∷ rest)) ≡ some m
unfolding read_pairs
read_pairs-payload zero m rest h n = absurd (omega arith)
read_pairs-payload (suc rounds) [] rest h n = rw (read_cstring-append [] rest tt, read_pairs) refl
read_pairs-payload (suc rounds) (([], value) ∷ m) rest h n = absurd (omega (arith, h.0.0))
read_pairs-payload (suc rounds) ((x ∷ key, value) ∷ m) rest h n =
    rw
      (
        read_cstring-append (x ∷ key) (value ++ 0 ∷ pairs_payload m (0 ∷ rest)) h.0.1,
        read_pairs,
        read_cstring-append value (pairs_payload m (0 ∷ rest)) h.0.2,
        read_pairs-payload rounds m rest h.1 (omega arith),
      )
      refl

-- A startup packet in a stream.
abbrev pub startup_stream : PostgresRequest → PostgresStream
startup_stream r = record { owned = true; bytes = (encode_startup r).1.buf; cursor = 0 }

encode_startup-buf :
    (r : PostgresRequest)
    → (encode_startup r).1.buf
      ≡ be32 (8 + length (startup_payload r)) ++ (be32 r.protocol_version ++ startup_payload r)
unfolding encode_startup
encode_startup-buf r =
    ap (λ b. b ++ startup_payload r)
      (write_uint32-be32 (write_uint32 [] (8 + length (startup_payload r))) r.protocol_version)
    ∙ ap (λ b. (b ++ be32 r.protocol_version) ++ startup_payload r)
        (write_uint32-be32 [] (8 + length (startup_payload r)))

-- The server takes the startup packet as one frame that leaves no byte: the protocol version,
-- and the parameters, which it reads as the user, the database if there is one, and the other
-- parameters in their order. The names are not empty, no text holds a zero byte, and the packet
-- fits in its length field.
pub encode_startup-Reads :
    (r : PostgresRequest)
    → All IsPair (startup_pairs r)
    → 8 + length (startup_payload r) < 2 ^ 32
    → (f : PostgresFrame) × (s : PostgresStream) × (next_frame (startup_stream r) true
        ≡ ok (some (f, s)))
      × (rest_of s ≡ [])
      × (payload_bytes (startup_stream r) f ≡ ok (be32 r.protocol_version ++ startup_payload r))
      × (read_pairs (length (startup_pairs r) + 1) (startup_payload r) ≡ some (startup_pairs r))
unfolding next_frame next_startup buffered_size payload_bytes
encode_startup-Reads r h fits =
    let n = length (startup_payload r) in
    let bytes = (encode_startup r).1.buf in
    let shown = encode_startup-buf r in
    let size : length bytes ≡ 8 + n = omega (arith, ap length shown) in
    let header : read_uint32 bytes ≡ ok (8 + n) =
      rw shown (read_uint32-be32 (8 + n) (be32 r.protocol_version ++ startup_payload r) fits) in
    let wraps : u32 (8 + n + 2 ^ 32 - 4) ≡ 4 + n = omega arith in
    let behind : drop 4 bytes ≡ be32 r.protocol_version ++ startup_payload r = ap (drop 4) shown in
    (
      record { type = 0; payload = some 4; payload_size = 4 + n; frame_size = 8 + n },
      record (startup_stream r) { cursor = 8 + n },
      ground (arith, size, header, wraps),
      drop_all (8 + n) bytes (omega arith),
      ground (
        arith,
        size,
        ap (take (4 + n)) behind,
        take_all (4 + n) (be32 r.protocol_version ++ startup_payload r) (omega arith),
      ),
      rw (startup_payload-pairs r) (read_pairs-payload _ (startup_pairs r) [] h (omega arith)),
    )
