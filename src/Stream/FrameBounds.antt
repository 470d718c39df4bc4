-- ===== src/Stream/FrameBounds.antt =====
-- Frames of a buffer of any bytes, in src/protocol/PostgresStream.h and PostgresStream.cc.
use wf_postgres.Common.{
  ℕ, ◌+◌, ◌-◌, ◌^◌, ◌<◌, ◌≤◌, ◌≡◌, refl, sym, ap, ◌∙◌, false, ◌∷◌, ◌++◌, Option, none, some, ok,
  Returns, Bytes, u32, ◌⊎◌, inl, inr, length, take, drop, ltb, if◌then◌else◌, length-drop,
  length-append, length-take, Bool-cases, le-cases, drop_all, drop-append_le, tests, subst, arith,
  drop-drop,
}
use wf_postgres.Stream.{PostgresFrame, PostgresStream, next_frame, payload_bytes}
use wf_postgres.Stream.Frames.{
  IsValid, rest_of, Header-cases, framed, word, next_frame_short, next_frame_header,
}

-- No frame of the buffer, followed one after the other, announces the length 2 ^ 32 - 1.
pub data Framing : Bytes → Type 0 where
  ends : {rem : Bytes} → length rem < 5 → Framing rem
  frame :
      {rem : Bytes} (t a b c d : ℕ) (r : Bytes)
      → rem ≡ t ∷ a ∷ b ∷ c ∷ d ∷ r
      → word a b c d < 2 ^ 32 - 1
      → Framing (drop (if ltb (word a b c d) 4 then 5 else 1 + word a b c d) rem)
      → Framing rem

-- A frame was taken: the cursor moved on by its size and stays in the buffer, and a payload
-- pointer shows as many bytes as the frame says.
pub record Took (s : PostgresStream) (f : PostgresFrame) (s' : PostgresStream) : Type 0 where
  pub same_bytes : s'.bytes ≡ s.bytes
  pub same_owner : s'.owned ≡ s.owned
  pub moved : s'.cursor ≡ s.cursor + f.frame_size
  pub progress : 5 ≤ f.frame_size
  pub inside : s'.cursor ≤ length s.bytes
  pub payload :
      (f.payload ≡ none) ⊎ ((p : Bytes) × (payload_bytes s f ≡ ok p) × (length p ≡ f.payload_size))
  pub framing : Framing (rest_of s')

abbrev pub Outcome : PostgresStream → Option (PostgresFrame × PostgresStream) → Type 0
Outcome s none = Unit
Outcome s (some (f, s')) = Took s f s'

-- The payload of a complete frame lies in the buffer.
payload-inside :
    (s : PostgresStream) (t len size : ℕ)
    → 4 ≤ len
    → s.cursor + 1 + len ≤ length s.bytes
    → (p : Bytes) × (payload_bytes s (record {
      type = t;
      payload = some (s.cursor + 5);
      payload_size = len - 4;
      frame_size = size;
    })
        ≡ ok p)
      × (length p ≡ len - 4)
unfolding payload_bytes
payload-inside s t len size l h = (
  take (len - 4) (drop (s.cursor + 5) s.bytes),
  ground arith,
  omega (
    arith,
    length-take (len - 4) (drop (s.cursor + 5) s.bytes),
    length-drop (s.cursor + 5) s.bytes,
  ),
)

framed-Outcome :
    (s : PostgresStream) (t len avail : ℕ)
    → IsValid s
    → avail ≡ length s.bytes - s.cursor
    → 5 ≤ avail
    → len < 2 ^ 32 - 1
    → Framing (drop (if ltb len 4 then 5 else 1 + len) (rest_of s))
    → Outcome s (framed s t len avail)
framed-Outcome s t len avail v n five w f = elim (Bool-cases (ltb len 4)) [
  | inl e ↦ rw e (record {
    same_bytes = refl;
    same_owner = refl;
    moved = refl;
    progress = omega arith;
    inside = omega arith;
    payload = inl refl;
    framing = subst Framing (drop-drop s.cursor 5 s.bytes) (rw e at f);
  })
  | inr e ↦
      let size : u32 (1 + len) ≡ 1 + len = omega arith in
      elim (Bool-cases (ltb avail (1 + len))) [
        | inl short ↦ rw (e, size, short) tt
        | inr full ↦
            rw (e, size, full)
              (record {
                same_bytes = refl;
                same_owner = refl;
                moved = refl;
                progress = omega (tests, e);
                inside = omega (tests, full);
                payload =
                    inr (payload-inside s t len (1 + len) (omega (tests, e)) (omega (tests, full)));
                framing = subst Framing (drop-drop s.cursor (1 + len) s.bytes) (rw e at f);
              })
      ]
]

-- On a stream whose cursor lies in its buffer, and where no frame announces the length 2 ^ 32 -
-- 1, next_frame returns and reads nothing outside the buffer; a frame that it takes moves the
-- cursor by the frame's size of five bytes at least, and the frame's payload lies in the buffer.
pub next_frame-Outcome :
    (s : PostgresStream)
    → IsValid s
    → Framing (rest_of s)
    → Returns (next_frame s false) (Outcome s)
next_frame-Outcome s v (ends h) = rw (next_frame_short s v h) tt
next_frame-Outcome s v (frame t a b c d r e w f) = rw (next_frame_header s t a b c d r v e) (
    framed-Outcome s t (word a b c d) (length r + 5) v
      (omega (arith, ap length e, length-drop s.cursor s.bytes)) (omega arith) w f)

-- The frames of the first bytes are frames of the whole.
pub Framing-prefix : (xs ys : Bytes) {rem : Bytes} → rem ≡ xs ++ ys → Framing rem → Framing xs
Framing-prefix xs ys e (ends h) = ends (omega (arith, ap length e, length-append xs ys))
Framing-prefix xs ys e (frame {rem} t a b c d r at w f) = elim (Header-cases xs) [
  | inl short ↦ ends short
  | inr x ↦
      let n : ℕ = if ltb (word a b c d) 4 then 5 else 1 + word a b c d in
      let same : x.t ∷ x.a ∷ x.b ∷ x.c ∷ x.d ∷ (x.behind ++ ys) ≡ t ∷ a ∷ b ∷ c ∷ d ∷ r =
        ap (λ z. z ++ ys) (sym x.at) ∙ sym e ∙ at in
      frame {rem = xs} t a b c d x.behind (cc) w (elim (le-cases (length xs) n) [
        | inl past ↦ rw (drop_all n xs (omega arith)) (ends (omega arith))
        | inr within ↦
            Framing-prefix (drop n xs) ys (ap (drop n) e ∙ drop-append_le n xs ys within) f
      ])
]
