-- ===== src/Cursor/CommandTag/Words.antt =====
-- The tags of a server, and tags of any bytes.
use wf_postgres.Common.{
  ℕ, zero, suc, ◌+◌, ◌^◌, ◌≤◌, ◌<◌, ◌≡◌, ◌≢◌, refl, sym, ap, ◌∙◌, true, false, List, [], ◌∷◌, ◌++◌,
  none, some, ok, Bytes, codes, length, ◌==◌, if◌then◌else◌, is_empty, All, append-nil,
  append_assoc, to_string, Bool-cases, inl, inr, arith, leading_number,
}
use wf_postgres.Cursor.{PostgresResultCursor}
use wf_postgres.Cursor.CommandTag.{
  skip_blanks, to_blank, from_blank, tokens_loop, tokens_of, all_digits, token_number, affected_of,
  oid_of, get_command, get_insert_oid, get_affected_rows,
}
use wf_postgres.Libc.Numbers.{
  IsNumeral, AreDigits, to_string-IsNumeral, leading_number-to_string, strtoull-IsNumeral,
}
use wf_postgres.Libc.{cleared}

-- No blank in it, and not empty.
abbrev pub IsWord : Bytes → Type 0
IsWord [] = ⊥
IsWord (c ∷ s) = All (λ (b : ℕ). b ≢ b' ') (c ∷ s)

-- A word that has ended, unless there is none.
abbrev pub flush : Bytes → List Bytes → List Bytes
flush [] words = words
flush (c ∷ cur) words = (c ∷ cur) ∷ words

-- The words of a text, byte by byte; `cur` is the one that is being read.
unfoldable pub words_from : Bytes → Bytes → List Bytes
words_from cur [] = flush cur []
words_from cur (c ∷ s) =
    let next = flush cur (words_from [] s) in
    let longer = words_from (cur ++ c ∷ []) s in if c == b' ' then next else longer

words_from-skip_blanks : (s : Bytes) → words_from [] (skip_blanks s) ≡ words_from [] s
unfolding skip_blanks words_from
words_from-skip_blanks [] = refl
words_from-skip_blanks (c ∷ s) = ground (arith, words_from-skip_blanks s)

words_from-to_blank :
    (s cur : Bytes) → words_from cur s ≡ flush (cur ++ to_blank s) (words_from [] (from_blank s))
unfolding words_from to_blank from_blank
words_from-to_blank [] cur = rw append-nil refl
words_from-to_blank (c ∷ s) cur = elim (Bool-cases (c == b' ')) [
  | inl e ↦ rw (e, append-nil) (unfold words_from in rw e refl)
  | inr e ↦ rw e (
      words_from-to_blank s (cur ++ c ∷ [])
      ∙ ap (λ x. flush x (words_from [] (from_blank s))) (append_assoc cur (c ∷ []) _))
]

from_blank_size : (s : Bytes) → length (from_blank s) ≤ length s
unfolding from_blank
from_blank_size [] = omega arith
from_blank_size (c ∷ s) = ground (arith, from_blank_size s)

skip_blanks_size : (s : Bytes) → length (skip_blanks s) ≤ length s
unfolding skip_blanks
skip_blanks_size [] = omega arith
skip_blanks_size (c ∷ s) = ground (arith, skip_blanks_size s)

abbrev StartsWord : Bytes → Type 0
StartsWord [] = Unit
StartsWord (c ∷ s) = (c == b' ') ≡ false

skip_blanks-StartsWord : (s : Bytes) → StartsWord (skip_blanks s)
unfolding skip_blanks
skip_blanks-StartsWord [] = tt
skip_blanks-StartsWord (c ∷ s) = elim (Bool-cases (c == b' ')) [
  | inl e ↦ rw e (skip_blanks-StartsWord s)
  | inr e ↦ rw e e
]

-- A word at the start of a text.
words_from_word :
    (c : ℕ) (s : Bytes)
    → (c == b' ') ≡ false
    → (words_from [] (c ∷ s) ≡ to_blank (c ∷ s) ∷ words_from [] (from_blank (c ∷ s)))
      × (length (from_blank (c ∷ s)) ≤ length s)
words_from_word c s e = (
  words_from-to_blank (c ∷ s) [] ∙ (unfold to_blank in rw e refl),
  unfold from_blank in rw e (from_blank_size s),
)

tokens_round-words :
    (n : ℕ) (s' : Bytes) (tokens : List Bytes)
    → StartsWord s'
    → length s' < suc n
    → ((s : Bytes) (ts : List Bytes)
        → length s < n
        → tokens_loop n s ts ≡ ok (ts ++ words_from [] s))
    → (if is_empty s'
        then ok tokens
        else tokens_loop n (from_blank s') (tokens ++ to_blank s' ∷ []))
      ≡ ok (tokens ++ words_from [] s')
tokens_round-words n [] tokens h k ih = unfold words_from in rw append-nil refl
tokens_round-words n (c ∷ s) tokens h k ih =
    let (word, less) = words_from_word c s h in
    ih (from_blank (c ∷ s)) (tokens ++ to_blank (c ∷ s) ∷ []) (omega (arith, less))
    ∙ ap ok (append_assoc tokens (to_blank (c ∷ s) ∷ []) _ ∙ ap (◌++◌ tokens) (sym word))

tokens_loop-words :
    (n : ℕ) (s : Bytes) (tokens : List Bytes)
    → length s < n
    → tokens_loop n s tokens ≡ ok (tokens ++ words_from [] s)
unfolding tokens_loop
tokens_loop-words zero s tokens h = absurd (omega arith)
tokens_loop-words (suc n) s tokens h =
    tokens_round-words n (skip_blanks s) tokens (skip_blanks-StartsWord s)
      (omega (arith, skip_blanks_size s)) (tokens_loop-words n)
    ∙ ap (λ (w : List Bytes). ok (tokens ++ w)) (words_from-skip_blanks s)

-- The loop that cuts a command tag into tokens ends for every tag, and gives the words between
-- its blanks.
pub tokens_of-words : (tag : Bytes) → tokens_of tag ≡ ok (words_from [] tag)
unfolding tokens_of
tokens_of-words tag = tokens_loop-words (length tag + 1) tag [] (omega arith)

-- A word, and a blank or the end behind it.
words_from-append :
    (w cur rest : Bytes)
    → All (λ (b : ℕ). b ≢ b' ') w
    → words_from cur (w ++ rest) ≡ words_from (cur ++ w) rest
unfolding words_from
words_from-append [] cur rest h = rw append-nil refl
words_from-append (c ∷ w) cur rest h =
    let no_blank : (c == b' ') ≡ false = ground (arith, h.0) in
    rw no_blank (
      words_from-append w (cur ++ c ∷ []) rest h.1
      ∙ ap (λ x. words_from x rest) (append_assoc cur (c ∷ []) w))

words_from-words :
    (w rest : Bytes) → IsWord w → words_from [] (w ++ b' ' ∷ rest) ≡ w ∷ words_from [] rest
words_from-words [] rest h = absurd h
words_from-words (c ∷ w) rest h =
    words_from-append (c ∷ w) [] (b' ' ∷ rest) h ∙ (unfold words_from in refl)

words_from_last : (w : Bytes) → IsWord w → words_from [] w ≡ w ∷ []
words_from_last [] h = absurd h
words_from_last (c ∷ w) h =
    ap (words_from []) (sym (append-nil (c ∷ w)))
    ∙ words_from-append (c ∷ w) [] [] h
    ∙ (unfold words_from in refl)

numeral-IsWord : (s : Bytes) → IsNumeral s → IsWord s
numeral-IsWord [] h = absurd h
numeral-IsWord (c ∷ s) h = digits (c ∷ s) h
  where
    digits : (t : Bytes) → AreDigits t → All (λ (b : ℕ). b ≢ b' ') t
    digits [] k = tt
    digits (d ∷ t) k = (ground arith, digits t k.1)

all_digits-AreDigits : (s : Bytes) → AreDigits s → all_digits s ≡ true
unfolding all_digits
all_digits-AreDigits [] h = refl
all_digits-AreDigits (c ∷ s) h = ground (arith, all_digits-AreDigits s h.1)

token_number-IsNumeral :
    (s : Bytes)
    → IsNumeral s
    → leading_number 0 s < 2 ^ 64
    → token_number s ≡ (leading_number 0 s, some cleared)
unfolding token_number
token_number-IsNumeral [] h k = absurd h
token_number-IsNumeral (c ∷ s) h k =
    rw (all_digits-AreDigits (c ∷ s) h, strtoull-IsNumeral (c ∷ s) h k) refl

token_number-to_string : (n : ℕ) → n < 2 ^ 64 → token_number (to_string n) ≡ (n, some cleared)
token_number-to_string n h =
    let e = leading_number-to_string n in
    token_number-IsNumeral (to_string n) (to_string-IsNumeral n) (omega (arith, e))
    ∙ ap (λ (m : ℕ). (m, some cleared)) e

-- The tags of the server: a command with the number of rows, an INSERT, and two words.
abbrev pub rows_tag : Bytes → ℕ → Bytes
rows_tag command rows = command ++ b' ' ∷ to_string rows

abbrev pub insert_tag : ℕ → ℕ → Bytes
insert_tag oid rows = codes "INSERT" ++ b' ' ∷ (to_string oid ++ b' ' ∷ to_string rows)

rows_tag-words :
    (command : Bytes) (rows : ℕ)
    → IsWord command
    → tokens_of (rows_tag command rows) ≡ ok (command ∷ to_string rows ∷ [])
rows_tag-words command rows w =
    tokens_of-words (rows_tag command rows)
    ∙ ap ok (
        words_from-words command (to_string rows) w
        ∙ ap (◌∷◌ command)
            (words_from_last (to_string rows) (numeral-IsWord _ (to_string-IsNumeral rows))))

insert_tag-words :
    (oid rows : ℕ)
    → tokens_of (insert_tag oid rows) ≡ ok (codes "INSERT" ∷ to_string oid ∷ to_string rows ∷ [])
insert_tag-words oid rows =
    let number = λ (n : ℕ). numeral-IsWord (to_string n) (to_string-IsNumeral n) in
    tokens_of-words (insert_tag oid rows)
    ∙ ap ok (
        words_from-words (codes "INSERT") (to_string oid ++ b' ' ∷ to_string rows) (omega arith)
        ∙ ap (◌∷◌ (codes "INSERT")) (
            words_from-words (to_string oid) (to_string rows) (number oid)
            ∙ ap (◌∷◌ (to_string oid)) (words_from_last (to_string rows) (number rows))))

-- What the server says in its command tag is what the cursor reports: of a command with a number
-- of rows, the command, the rows, and no oid; of an INSERT with an oid and rows, all three. The
-- command holds no blank and is not empty, and the numbers are below 2 ^ 64.
pub command_tag-parts :
    (c d : PostgresResultCursor) (command : Bytes) (rows oid : ℕ)
    → c.command_tag ≡ rows_tag command rows
    → d.command_tag ≡ insert_tag oid rows
    → IsWord command
    → rows < 2 ^ 64
    → oid < 2 ^ 64
    → (get_command c ≡ ok command)
      × (get_affected_rows c ≡ ok (rows, some cleared))
      × (get_insert_oid c ≡ ok (0, none))
      × (get_command d ≡ ok (codes "INSERT"))
      × (get_affected_rows d ≡ ok (rows, some cleared))
      × (get_insert_oid d ≡ ok (oid, some cleared))
unfolding get_command get_affected_rows get_insert_oid
command_tag-parts c d command rows oid tc td w hr ho = (
  rw (tc, rows_tag-words command rows w) refl,
  rw (tc, rows_tag-words command rows w)
      (unfold affected_of in ap ok (token_number-to_string rows hr)),
  rw (tc, rows_tag-words command rows w) (unfold oid_of in refl),
  rw (td, insert_tag-words oid rows) refl,
  rw (td, insert_tag-words oid rows) (unfold affected_of in ap ok (token_number-to_string rows hr)),
  rw (td, insert_tag-words oid rows) (unfold oid_of in ap ok (token_number-to_string oid ho)),
)
