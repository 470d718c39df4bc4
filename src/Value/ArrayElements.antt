-- ===== src/Value/ArrayElements.antt =====
-- The elements of the arrays of include/PostgresValue.h, as the server reads them.
use wf_postgres.Common.{
  ℕ, ◌+◌, ◌≡◌, refl, sym, ap, ◌∙◌, ◌⊎◌, false, ◌||◌, List, [], ◌∷◌, ◌++◌, map, append-nil,
  append_assoc, some, Bytes, codes, ℤ, pos, negsuc, to_string, All, ◌==◌, if◌then◌else◌, str_eq,
  inl, inr, Bool-cases, arith,
}
use wf_postgres.Libc.Numbers.{IsDigit, AreDigits, IsNumeral, to_string-IsNumeral, AreDigits-of}
use wf_postgres.Libc.{to_string_ℤ}
use wf_postgres.Value.{
  separate, format_items, format_array, push_escaped, push_texts, text_array, of_int32_array,
  of_int64_array, of_texts,
}
use wf_postgres.Value.ArrayText.{
  Items, Scan, quoted, behind, bare, ReadsAs, scan, scan_all, first_of, after_item, scan_all-append,
  read_array, format_array-reads,
}

-- A quoted element.
quote : Bytes → Bytes
quote text = b'"' ∷ (push_escaped text [] ++ b'"' ∷ [])

push_escaped-append : (text s : Bytes) → push_escaped text s ≡ s ++ push_escaped text []
unfolding push_escaped
push_escaped-append [] s = sym (append-nil s)
push_escaped-append (c ∷ text) s = elim (Bool-cases (c == b'"' || c == b'\\')) [
  | inl e ↦
      rw
        (
          e,
          push_escaped-append text ((s ++ b'\\' ∷ []) ++ c ∷ []),
          push_escaped-append text (b'\\' ∷ c ∷ []),
          append_assoc,
          append_assoc,
        )
        refl
  | inr e ↦
      rw
        (e, push_escaped-append text (s ++ c ∷ []), push_escaped-append text (c ∷ []), append_assoc)
        refl
]

push_char-scan :
    (c : ℕ) (items : Items) (cur s : Bytes) (st : Scan)
    → scan_all st s ≡ quoted items cur
    → scan_all st ((if c == b'"' || c == b'\\' then s ++ b'\\' ∷ [] else s) ++ c ∷ [])
      ≡ quoted items (cur ++ c ∷ [])
push_char-scan c items cur s st h = elim (Bool-cases (c == b'"' || c == b'\\')) [
  | inl e ↦
      rw (e, scan_all-append st (s ++ b'\\' ∷ []) (c ∷ []), scan_all-append st s (b'\\' ∷ []), h)
        (unfold scan_all scan in refl)
  | inr e ↦ rw (e, scan_all-append st s (c ∷ []), h) (unfold scan_all scan in ground arith)
]

-- The escaped text brings back the text.
scan_all-escaped :
    (text : Bytes) (items : Items) (cur s : Bytes) (st : Scan)
    → scan_all st s ≡ quoted items cur
    → scan_all st (push_escaped text s) ≡ quoted items (cur ++ text)
unfolding push_escaped
scan_all-escaped [] items cur s st h = h ∙ ap (quoted items) (sym (append-nil cur))
scan_all-escaped (c ∷ text) items cur s st h =
    scan_all-escaped text items (cur ++ c ∷ [])
      ((if c == b'"' || c == b'\\' then s ++ b'\\' ∷ [] else s) ++ c ∷ []) st
      (push_char-scan c items cur s st h)
    ∙ ap (quoted items) (append_assoc cur (c ∷ []) text)

quote-ReadsAs : (text : Bytes) → ReadsAs (quote text) (some text)
unfolding quote
quote-ReadsAs text st items h =
    let opening : scan_all st (b'"' ∷ []) ≡ quoted items [] =
      unfold scan_all first_of in h b'"' refl in
    let inside : scan_all st (b'"' ∷ push_escaped text []) ≡ quoted items text =
      scan_all-append st (b'"' ∷ []) (push_escaped text [])
      ∙ ap (λ u. scan_all u (push_escaped text [])) opening
      ∙ scan_all-escaped text items [] [] (quoted items []) (unfold scan_all in refl) in
    let whole : scan_all st (b'"' ∷ (push_escaped text [] ++ b'"' ∷ [])) ≡ behind items text =
      scan_all-append st (b'"' ∷ push_escaped text []) (b'"' ∷ [])
      ∙ ap (λ u. scan_all u (b'"' ∷ [])) inside
      ∙ (unfold scan_all scan in refl) in
    rw whole (unfold scan after_item in (refl, refl))

push_texts-format :
    (vec : List Bytes) (i : ℕ) (s : Bytes) → push_texts vec i s ≡ format_items quote vec i s
unfolding push_texts format_items quote
push_texts-format [] i s = refl
push_texts-format (text ∷ vec) i s =
    rw (push_escaped-append text (separate i s ++ b'"' ∷ []), append_assoc, append_assoc)
      (push_texts-format vec (i + 1) _)

-- A number that is printed needs no quotes.
abbrev IsPlain : ℕ → Type 0
IsPlain c = (c ≡ b'-') ⊎ IsDigit c

scan_bare :
    (s : Bytes) (items : Items) (cur : Bytes)
    → All IsPlain s
    → scan_all (bare items cur) s ≡ bare items (cur ++ s)
unfolding scan_all scan
scan_bare [] items cur h = ap (bare items) (sym (append-nil cur))
scan_bare (c ∷ s) items cur h =
    let step : scan (bare items cur) c ≡ bare items (cur ++ c ∷ []) = elim h.0 [
      | inl e ↦ rw e refl
      | inr d ↦ ground arith
    ] in
    ap (λ st. scan_all st s) step
    ∙ scan_bare s items (cur ++ c ∷ []) h.1
    ∙ ap (bare items) (append_assoc cur (c ∷ []) s)

AreDigits-IsPlain : (s : Bytes) → AreDigits s → All IsPlain s
AreDigits-IsPlain [] h = tt
AreDigits-IsPlain (c ∷ s) h = (inr h.0, AreDigits-IsPlain s h.1)

plain-ReadsAs : (c : ℕ) (s : Bytes) → IsPlain c → All IsPlain s → ReadsAs (c ∷ s) (some (c ∷ s))
plain-ReadsAs c s p h st items open_ =
    let not_end : (c == b'}') ≡ false = elim p [ inl e ↦ rw e refl | inr d ↦ ground arith ] in
    let begins : first_of items c ≡ bare items (c ∷ []) =
      unfold first_of in elim p [ inl e ↦ rw e refl | inr d ↦ ground arith ] in
    let no_null : str_eq (c ∷ s) (codes "NULL") ≡ false =
      unfold str_eq in elim p [ inl e ↦ rw e refl | inr d ↦ ground arith ] in
    let whole : scan_all st (c ∷ s) ≡ bare items (c ∷ s) =
      unfold scan_all in
      ap (λ u. scan_all u s) (open_ c not_end ∙ begins) ∙ scan_bare s items (c ∷ []) h in
    rw (whole) (unfold scan after_item in rw no_null (refl, refl))

numeral-ReadsAs : (s : Bytes) → IsNumeral s → ReadsAs s (some s)
numeral-ReadsAs [] h = absurd h
numeral-ReadsAs (c ∷ s) h = plain-ReadsAs c s (inr h.0) (AreDigits-IsPlain s h.1)

to_string_ℤ-ReadsAs : (v : ℤ) → ReadsAs (to_string_ℤ v) (some (to_string_ℤ v))
unfolding to_string_ℤ
to_string_ℤ-ReadsAs (pos n) = numeral-ReadsAs (to_string n) (to_string-IsNumeral n)
to_string_ℤ-ReadsAs (negsuc n) =
    plain-ReadsAs b'-' (to_string (n + 1)) (inl refl)
      (AreDigits-IsPlain _ (AreDigits-of _ (to_string-IsNumeral (n + 1))))

-- The text of an array of integers or of strings is read by the rules of the server's array_in
-- as exactly its elements in order: quotes, backslashes, commas, braces, empty strings and the
-- word NULL included.
pub read_array-of_arrays :
    (vec : List ℤ) (texts : List Bytes)
    → (read_array (of_int32_array vec).contents ≡ some (map (λ v. some (to_string_ℤ v)) vec))
      × (read_array (of_int64_array vec).contents ≡ some (map (λ v. some (to_string_ℤ v)) vec))
      × (read_array (of_texts texts).contents ≡ some (map some texts))
unfolding of_int32_array of_int64_array of_texts text_array
read_array-of_arrays vec texts =
    let ints = format_array-reads to_string_ℤ (λ v. some (to_string_ℤ v)) to_string_ℤ-ReadsAs vec in
    (
      ints,
      ints,
      rw (push_texts-format texts 0 (b'{' ∷ []))
          (unfold format_array in format_array-reads quote some quote-ReadsAs texts),
    )
