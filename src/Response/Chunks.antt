-- ===== src/Response/Chunks.antt =====
-- PostgresResponse::append on bytes that arrive in pieces.
use wf_postgres.Auth.Requests.{Decodes}
use wf_postgres.Common.{
  ℕ, ◌+◌, ◌-◌, ◌<◌, ◌≡◌, refl, sym, ap, ◌∙◌, subst, Bool, true, false, ◌++◌, ok, Returns-ok,
  Returns-at, ok-injective, Bytes, length, length-append, drop-append_le, append_assoc, arith,
}
use wf_postgres.Response.Append.{stream_of, frames_loop, end_append, rounds_for, append}
use wf_postgres.Response.Invariant.{IsWaiting, IsAppended, grow, append-IsAppended}
use wf_postgres.Response.Loop.{frames_loop-more, frames_loop-IsDone}
use wf_postgres.Response.{PostgresResponse}
use wf_postgres.Scram.{Crypto}
use wf_postgres.Stream
use wf_postgres.Stream.FrameBounds.{Framing, Framing-prefix}
use wf_postgres.Stream.Frames.{IsValid, rest_of}
use wf_postgres.Stream.{PostgresFrame, PostgresStream, next_frame, payload_bytes, buffered_size}
use wf_postgres.Response.Growth.{frames_loop-grow, frames_loop-Framing}

module _ (crypto : Crypto) where
  -- Two runs of the loop that return agree.
  frames_loop-same :
      (n k : ℕ) (r : PostgresResponse) {x y : Bool × PostgresResponse}
      → frames_loop crypto n r ≡ ok x
      → frames_loop crypto k r ≡ ok y
      → x ≡ y
  frames_loop-same n k r {x} {y} h g =
      let swapped =
        subst (λ m. frames_loop crypto m r ≡ ok y) (let e : k + n ≡ n + k = omega arith in e)
          (frames_loop-more crypto k n r g) in
      ok-injective (sym (frames_loop-more crypto n k r h) ∙ swapped)

  pub append-of_loop :
      (r : PostgresResponse) (more : Bytes) (x : Bool × PostgresResponse)
      → frames_loop crypto (rounds_for (grow r more)) (grow r more) ≡ ok x
      → append crypto r more ≡ ok (end_append (length more) x)
  unfolding append Stream.append
  append-of_loop r more x e = rw e

  end_append-false :
      (len : ℕ) (x : Bool × PostgresResponse) {n : ℕ} {r : PostgresResponse}
      → end_append len x ≡ (false, n, r)
      → x ≡ (false, r)
  unfolding end_append
  end_append-false len (false, r') h = cc
  end_append-false len (true, r') h = cc

  -- The size that a call reports counts from the bytes of this call.
  end_append-add :
      (k len : ℕ) (x : Bool × PostgresResponse) {fin : Bool} {m : ℕ} {r : PostgresResponse}
      → end_append len x ≡ (fin, m, r)
      → (fin ≡ true → 0 < m)
      → end_append (k + len) x ≡ (fin, k + m, r)
  unfolding end_append
  end_append-add k len (false, r') h small = ground arith
  end_append-add k len (true, r') {fin} {m} {r} h small =
      let f : true ≡ fin = ap (λ (y : Bool × ℕ × PostgresResponse). y.0) h in
      let n : len - buffered_size (stream_of r') ≡ m =
        ap (λ (y : Bool × ℕ × PostgresResponse). y.1) h in
      let moved : (k + len) - buffered_size (stream_of r') ≡ k + m =
        omega (arith, n, small (sym f)) in
      λ i. (f i, moved i, (h i).2)

  module _ (decodes : Decodes crypto) where
    -- What a call of append did: the loop, and then its end.
    append-loop :
        (r : PostgresResponse) (more : Bytes) {y : Bool × ℕ × PostgresResponse}
        → IsValid (stream_of r)
        → Framing (rest_of (stream_of r) ++ more)
        → append crypto r more ≡ ok y
        → (x : Bool × PostgresResponse) × (frames_loop crypto
              (rounds_for (grow r more))
              (grow r more)
            ≡ ok x)
          × (end_append (length more) x ≡ y)
    unfolding append Stream.append
    append-loop r more v f h =
        let (x, e, d) = Returns-ok _ _ (
          frames_loop-IsDone crypto decodes (rounds_for (grow r more)) (grow r more)
            (omega (arith, length-append r.buf more))
            (subst Framing (sym (drop-append_le r.cursor r.buf more v)) f) (omega arith)) in
        (x, e, ok-injective (rw e at h))

    -- What PostgresResponse::append does with bytes does not depend on where they were cut: if a
    -- first call asks for more, the second call ends as one call with all the bytes. The
    -- response waits between calls, no frame announces the length 2 ^ 32 - 1, and the base64
    -- decoder counts the bytes of the padding.
    pub append-append :
        (r : PostgresResponse) (a b : Bytes) {n m : ℕ} {fin : Bool} {r1 r2 : PostgresResponse}
        → IsWaiting r
        → Framing (rest_of (stream_of r) ++ (a ++ b))
        → append crypto r a ≡ ok (false, n, r1)
        → append crypto r1 b ≡ ok (fin, m, r2)
        → append crypto r (a ++ b) ≡ ok (fin, length a + m, r2)
    append-append r a b {n} {m} {fin} {r1} {r2} w f h k =
        let all : Framing ((rest_of (stream_of r) ++ a) ++ b) =
          subst Framing (sym (append_assoc (rest_of (stream_of r)) a b)) f in
        let fa = Framing-prefix (rest_of (stream_of r) ++ a) b refl all in
        let v : IsValid (stream_of (grow r a)) = omega (arith, length-append r.buf a) in
        let front = drop-append_le r.cursor r.buf a w.0 in
        let fab : Framing (rest_of (stream_of (grow r a)) ++ b) =
          subst (λ z. Framing (z ++ b)) (sym front) all in
        let (x1, e1, q1) = append-loop r a w.0 fa h in
        let stop : frames_loop crypto (rounds_for (grow r a)) (grow r a) ≡ ok (false, r1) =
          e1 ∙ ap ok (end_append-false (length a) x1 q1) in
        let first = Returns-at (IsAppended r a) (append-IsAppended crypto decodes r a w fa) h in
        let w1 : IsWaiting r1 = (first.asks refl).2 in
        let f1 = frames_loop-Framing crypto (rounds_for (grow r a)) (grow r a) b v fab stop in
        let (x2, e2, q2) = append-loop r1 b w1.0 f1 k in
        let second = Returns-at (IsAppended r1 b) (append-IsAppended crypto decodes r1 b w1 f1) k in
        let together : grow (grow r a) b ≡ grow r (a ++ b) =
          λ i. record r { buf = append_assoc r.buf a b i } in
        let big =
          frames_loop-grow crypto (rounds_for (grow r a)) (rounds_for (grow r1 b)) (grow r a) b v
            fab stop e2 in
        let whole : frames_loop crypto (rounds_for (grow r a) + rounds_for (grow r1 b))
              (grow r (a ++ b))
            ≡ ok x2 =
          subst (λ z. frames_loop crypto (rounds_for (grow r a) + rounds_for (grow r1 b)) z ≡ ok x2)
            together big in
        let (x3, e3, d3) = Returns-ok _ _ (
          frames_loop-IsDone crypto decodes (rounds_for (grow r (a ++ b))) (grow r (a ++ b))
            (omega (arith, length-append r.buf (a ++ b)))
            (subst Framing (sym (drop-append_le r.cursor r.buf (a ++ b) w.0)) f) (omega arith)) in
        let same : x3 ≡ x2 = frames_loop-same _ _ (grow r (a ++ b)) e3 whole in
        append-of_loop r (a ++ b) x2 (e3 ∙ ap ok same)
        ∙ ap ok (
            ap (λ n. end_append n x2) (length-append a b)
            ∙ end_append-add (length a) (length b) x2 q2 (λ e. (second.takes e).2))
