-- ===== src/Stream/Frames.antt =====
-- What PostgresStream::next_frame finds in a buffer.
use wf_postgres.Common.{
  ℕ, ◌+◌, ◌-◌, ◌*◌, ◌^◌, ◌<◌, ◌≤◌, ◌≡◌, refl, sym, ap, ◌∙◌, false, [], ◌∷◌, ◌++◌, Option, none,
  some, ok, Bytes, u32, ◌⊎◌, inl, inr, length, take, drop, ltb, if◌then◌else◌, length-drop,
  length-append, arith, drop-drop, ◌/◌, ◌%◌, take-length-append, drop-length-append,
}
use wf_postgres.Stream.{
  PostgresFrame, PostgresStream, buffered_size, next_frame, next_message, payload_bytes, load,
}
use wf_postgres.Wire.RoundTrip.{be32}
use wf_postgres.Wire.{read_uint32}

abbrev pub word : ℕ → ℕ → ℕ → ℕ → ℕ
word a b c d = a * 2 ^ 24 + b * 2 ^ 16 + c * 256 + d

-- The bytes that are not consumed yet.
abbrev pub rest_of : PostgresStream → Bytes
rest_of s = drop s.cursor s.bytes

abbrev pub IsValid : PostgresStream → Type 0
IsValid s = s.cursor ≤ length s.bytes

pub buffered_size-length : (s : PostgresStream) → IsValid s → buffered_size s ≡ length (rest_of s)
unfolding buffered_size
buffered_size-length s v = ground (arith, length-drop s.cursor s.bytes)

-- What stands at the cursor: too little for a header, or the five bytes of one.
pub record Header (rem : Bytes) : Type 0 where
  pub t : ℕ
  pub a : ℕ
  pub b : ℕ
  pub c : ℕ
  pub d : ℕ
  pub behind : Bytes
  pub at : rem ≡ t ∷ a ∷ b ∷ c ∷ d ∷ behind

pub Header-cases : (rem : Bytes) → (length rem < 5) ⊎ Header rem
Header-cases (t ∷ a ∷ b ∷ c ∷ d ∷ r) =
    inr (record { t = t; a = a; b = b; c = c; d = d; behind = r; at = refl })
Header-cases [] = inl (omega arith)
Header-cases (_ ∷ []) = inl (omega arith)
Header-cases (_ ∷ _ ∷ []) = inl (omega arith)
Header-cases (_ ∷ _ ∷ _ ∷ []) = inl (omega arith)
Header-cases (_ ∷ _ ∷ _ ∷ _ ∷ []) = inl (omega arith)

-- The outcome of next_frame once the header is read.
abbrev pub framed : PostgresStream → ℕ → ℕ → ℕ → Option (PostgresFrame × PostgresStream)
framed s t len avail =
    if ltb len 4
    then some (
      record { type = t; payload = none; payload_size = 0; frame_size = 5 },
      record s { cursor = s.cursor + 5 },
    )
    else if ltb avail (u32 (1 + len))
    then none
    else some (
      record {
        type = t;
        payload = some (s.cursor + 5);
        payload_size = len - 4;
        frame_size = u32 (1 + len);
      },
      record s { cursor = s.cursor + u32 (1 + len) },
    )

pub next_frame_short :
    (s : PostgresStream) → IsValid s → length (rest_of s) < 5 → next_frame s false ≡ ok none
unfolding next_frame next_message
next_frame_short s v h = ground (arith, buffered_size-length s v)

pub next_frame_header :
    (s : PostgresStream) (t a b c d : ℕ) (r : Bytes)
    → IsValid s
    → rest_of s ≡ t ∷ a ∷ b ∷ c ∷ d ∷ r
    → next_frame s false ≡ ok (framed s t (word a b c d) (length r + 5))
unfolding next_frame next_message load read_uint32
next_frame_header s t a b c d r v e =
    let e1 : drop (s.cursor + 1) s.bytes ≡ a ∷ b ∷ c ∷ d ∷ r =
      sym (drop-drop s.cursor 1 s.bytes) ∙ ap (drop 1) e in
    let n : buffered_size s ≡ length r + 5 = omega (arith, buffered_size-length s v, ap length e) in
    rw (e, e1, n) (ground arith)

-- The bytes of a message: its type, its length with the length field itself, its payload.
abbrev pub message : ℕ → Bytes → Bytes
message t p = t ∷ (be32 (4 + length p) ++ p)

-- A payload whose length field neither overflows nor is the one length that wraps.
abbrev pub FitsFrame : Bytes → Type 0
FitsFrame p = 4 + length p < 2 ^ 32 - 1

be32-word :
    (v : ℕ)
    → v < 2 ^ 32
    → word (u32 v / 2 ^ 24) (u32 v / 2 ^ 16 % 256) (u32 v / 256 % 256) (u32 v % 256) ≡ v
be32-word v h = omega arith

-- The frame that a message at the cursor gives, and the stream behind it.
abbrev pub frame_of : PostgresStream → ℕ → Bytes → PostgresFrame
frame_of s t p = record {
  type = t;
  payload = some (s.cursor + 5);
  payload_size = length p;
  frame_size = 5 + length p;
}

abbrev pub skip : PostgresStream → ℕ → PostgresStream
skip s n = record s { cursor = s.cursor + n }

next_frame_at_message :
    (s : PostgresStream) (t : ℕ) (p rest : Bytes)
    → IsValid s
    → FitsFrame p
    → rest_of s ≡ message t p ++ rest
    → next_frame s false ≡ ok (some (frame_of s t p, skip s (5 + length p)))
next_frame_at_message s t p rest v fits e =
    next_frame_header s t _ _ _ _ (p ++ rest) v e
    ∙ rw (be32-word (4 + length p) (omega arith)) (ground (arith, length-append p rest))

payload_bytes-message :
    (s : PostgresStream) (t : ℕ) (p rest : Bytes)
    → IsValid s
    → rest_of s ≡ message t p ++ rest
    → (payload_bytes s (frame_of s t p) ≡ ok p)
      × (rest_of (skip s (5 + length p)) ≡ rest)
      × IsValid (skip s (5 + length p))
unfolding payload_bytes
payload_bytes-message s t p rest v e =
    let len : length s.bytes ≡ s.cursor + 5 + length p + length rest =
      omega (arith, ap length e, length-drop s.cursor s.bytes, length-append p rest) in
    let behind : drop (s.cursor + 5) s.bytes ≡ p ++ rest =
      sym (drop-drop s.cursor 5 s.bytes) ∙ ap (drop 5) e in
    let sum : s.cursor + (5 + length p) ≡ s.cursor + 5 + length p = omega arith in
    (
      ground (arith, len, ap (take (length p)) behind, take-length-append p rest),
      rw sum (
          sym (drop-drop (s.cursor + 5) (length p) s.bytes)
          ∙ ap (drop (length p)) behind
          ∙ drop-length-append p rest),
      omega (arith, len),
    )

-- A complete message at the cursor of a stream whose cursor lies in its buffer, with a length
-- field below 2 ^ 32 - 1, is taken as one frame: its type, its payload behind the pointer, and
-- the stream stands at what follows the message.
pub next_frame-message :
    (s : PostgresStream) (t : ℕ) (p rest : Bytes)
    → IsValid s
    → FitsFrame p
    → rest_of s ≡ message t p ++ rest
    → (next_frame s false ≡ ok (some (frame_of s t p, skip s (5 + length p))))
      × (payload_bytes s (frame_of s t p) ≡ ok p)
      × (rest_of (skip s (5 + length p)) ≡ rest)
      × IsValid (skip s (5 + length p))
next_frame-message s t p rest v fits e =
    let shown = payload_bytes-message s t p rest v e in
    (next_frame_at_message s t p rest v fits e, shown.0, shown.1, shown.2)
