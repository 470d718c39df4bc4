-- ===== src/Response/Invariant.antt =====
-- PostgresResponse::append as a whole: what a call consumes and what it leaves.
use wf_postgres.Auth.Requests.{Decodes}
use wf_postgres.Common.{
  ℕ, ◌-◌, ◌<◌, ◌≤◌, ◌≡◌, refl, sym, ap, ◌∙◌, subst, Bool, true, false, ◌++◌, none, ok, Returns,
  >>=-Returns, Bytes, length, take, take_all, take-append_ge, length-drop, length-append,
  drop-append_le, arith,
}
use wf_postgres.Response.Append.{stream_of, frames_loop, end_append, rounds_for, append}
use wf_postgres.Response.Loop.{Done, IsDone, frames_loop-IsDone}
use wf_postgres.Response.{PostgresResponse}
use wf_postgres.Scram.{Crypto}
use wf_postgres.Stream
use wf_postgres.Stream.FrameBounds.{Framing}
use wf_postgres.Stream.Frames.{IsValid, rest_of, buffered_size-length}
use wf_postgres.Stream.Growth.{truncate_unconsumed_lem, next_frame-late}
use wf_postgres.Stream.{PostgresStream, next_frame, truncate_unconsumed, buffered_size}

-- Between two calls no complete frame is left.
abbrev pub IsWaiting : PostgresResponse → Type 0
IsWaiting r = IsValid (stream_of r) × (next_frame (stream_of r) false ≡ ok none)

-- After a call that asks for more, all bytes are kept and no frame is complete. After a call that
-- finishes, the buffer ends at the cursor, and the size says which of the new bytes it took.
pub record Appended (r : PostgresResponse) (more : Bytes) (fin : Bool) (size : ℕ)
    (r' : PostgresResponse) : Type 0 where
  pub asks : fin ≡ false → (size ≡ length more) × (r'.buf ≡ r.buf ++ more) × IsWaiting r'
  pub takes :
      fin ≡ true
      → (r'.buf ≡ r.buf ++ take size more)
        × (size ≤ length more)
        × (0 < size)
        × (r'.cursor ≡ length r'.buf)

abbrev pub IsAppended : PostgresResponse → Bytes → Bool × ℕ × PostgresResponse → Type 0
IsAppended r more (fin, size, r') = Appended r more fin size r'

abbrev pub grow : PostgresResponse → Bytes → PostgresResponse
grow r more = record r { buf = r.buf ++ more }

module _ (crypto : Crypto) (decodes : Decodes crypto) where
  end_append-IsAppended :
      (r : PostgresResponse) (more : Bytes) (fin : Bool) (r' : PostgresResponse)
      → IsWaiting r
      → Done (grow r more) fin r'
      → IsAppended r more (end_append (length more) (fin, r'))
  unfolding end_append
  end_append-IsAppended r more false r' w d = record {
    asks =
        λ _. (refl, d.same_bytes, (omega (arith, d.inside, ap length d.same_bytes), d.waits refl));
    takes = λ x. cc;
  }
  end_append-IsAppended r more true r' w d =
      let (f, s, e, t, forward) = d.first refl in
      let late = next_frame-late (stream_of r) more w.0 w.1 e t in
      let size = ap length d.same_bytes in
      let valid : IsValid (stream_of r') = omega (arith, d.inside, size) in
      let cut = truncate_unconsumed_lem (stream_of r') valid refl in
      let taken : length more - buffered_size (stream_of r') ≡ r'.cursor - length r.buf = omega (
        arith,
        buffered_size-length (stream_of r') valid,
        length-drop r'.cursor r'.buf,
        size,
        length-append r.buf more,
        d.inside,
      ) in
      record {
        asks = λ x. cc;
        takes = λ _. (
          sym (take_all r'.cursor (truncate_unconsumed (stream_of r')).bytes (omega (arith, cut.3)))
              ∙ cut.1
              ∙ ap (take r'.cursor) d.same_bytes
              ∙ take-append_ge r'.cursor r.buf more (omega (arith, late, forward))
              ∙ ap (λ (n : ℕ). r.buf ++ take n more) (sym taken),
          omega (arith, taken, d.inside, length-append r.buf more),
          omega (arith, taken, late, forward),
          cut.2 ∙ sym cut.3,
        );
      }

  -- A call of append on a waiting response returns: it reads nothing outside the buffer and its
  -- loop ends. If it asks for more it keeps all bytes and waits again; if it finishes, it takes
  -- the new bytes up to the end of the frame that finishes it. No frame announces the length 2 ^
  -- 32 - 1, and the base64 decoder counts the bytes of the padding.
  pub append-IsAppended :
      (r : PostgresResponse) (more : Bytes)
      → IsWaiting r
      → Framing (rest_of (stream_of r) ++ more)
      → Returns (append crypto r more) (IsAppended r more)
  unfolding append Stream.append
  append-IsAppended r more w f =
      >>=-Returns (frames_loop crypto (rounds_for (grow r more)) (grow r more)) _
        (IsDone (grow r more)) _
        (frames_loop-IsDone crypto decodes (rounds_for (grow r more)) (grow r more)
          (omega (arith, length-append r.buf more))
          (subst Framing (sym (drop-append_le r.cursor r.buf more w.0)) f) (omega arith))
        (λ (fin, r') d. end_append-IsAppended r more fin r' w d)
