-- ===== src/Wire/Strings.antt =====
-- C strings of src/protocol/PostgresWireUtil.h: read_cstring finds exactly a text and its end.
use wf_postgres.Common.{
  ℕ, suc, ◌+◌, ◌≡◌, ◌↔◌, refl, sym, ap, ◌∙◌, [], ◌∷◌, ◌++◌, some, none, Bytes, NoNul, inl, inr,
  length, drop, take-length-append, arith, Option-cases, Bool-cases, ◌==◌, some-pair,
}
use wf_postgres.Wire.{memchr, read_cstring}

-- Strings.
pub memchr-append : (s rest : Bytes) → NoNul s → memchr 0 (s ++ 0 ∷ rest) ≡ some (length s)
unfolding memchr
memchr-append [] rest h = refl
memchr-append (x ∷ s) rest h = ground (arith, memchr-append s rest h.1)

-- The bytes before the first zero byte, and those behind it.
record SplitsAt (p : Bytes) (n : ℕ) : Type 0 where
  text : Bytes
  behind : Bytes
  parts : p ≡ text ++ 0 ∷ behind
  no_nul : NoNul text
  index : n ≡ length text

memchr-SplitsAt : (p : Bytes) {n : ℕ} → memchr 0 p ≡ some n → SplitsAt p n
unfolding memchr
memchr-SplitsAt [] h = cc
memchr-SplitsAt (x ∷ p) h = elim (Bool-cases (x == 0)) [
  | inl e ↦ record {
    text = [];
    behind = p;
    parts = ground arith;
    no_nul = tt;
    index = ground arith;
  }
  | inr e ↦ elim (Option-cases (memchr 0 p)) [
    | inl m ↦ ground arith
    | inr (k, m) ↦
        let r = memchr-SplitsAt p m in
        record {
          text = x ∷ r.text;
          behind = r.behind;
          parts = ap (◌∷◌ x) r.parts;
          no_nul = (ground arith, r.no_nul);
          index = ground (arith, r.index);
        }
  ]
]

drop_text : (s rest : Bytes) → drop (length s + 1) (s ++ 0 ∷ rest) ≡ rest
drop_text [] rest = refl
drop_text (x ∷ s) rest =
    let e : suc (length s) + 1 ≡ suc (length s + 1) = omega arith in rw e (drop_text s rest)

pub read_cstring-append : (s rest : Bytes) → NoNul s → read_cstring (s ++ 0 ∷ rest) ≡ some (s, rest)
unfolding read_cstring
read_cstring-append s rest h =
    rw (memchr-append s rest h, read_cstring)
      (cc (take-length-append s (0 ∷ rest), drop_text s rest))

read_cstring-none : (p : Bytes) → memchr 0 p ≡ none → read_cstring p ≡ none
unfolding read_cstring
read_cstring-none p m = rw (m, read_cstring)

pub read_cstring-eq-some :
    (p : Bytes) {s rest : Bytes} → read_cstring p ≡ some (s, rest) → (p ≡ s ++ 0 ∷ rest) × NoNul s
read_cstring-eq-some p {s} {rest} h = elim (Option-cases (memchr 0 p)) [
  | inl m ↦ cc (read_cstring-none p m)
  | inr (n, m) ↦
      let r = memchr-SplitsAt p m in
      let e =
        some-pair
          (sym h ∙ ap read_cstring r.parts ∙ read_cstring-append r.text r.behind r.no_nul) in
      rw (e.0, e.1) (r.parts, r.no_nul)
]

-- A C string is read exactly where a text without zero bytes and its terminator stand.
pub read_cstring_iff :
    (p s rest : Bytes) → (read_cstring p ≡ some (s, rest)) ↔ ((p ≡ s ++ 0 ∷ rest) × NoNul s)
read_cstring_iff p s rest = (read_cstring-eq-some p, λ h. rw h.0 (read_cstring-append s rest h.1))
