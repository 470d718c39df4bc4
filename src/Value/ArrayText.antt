-- ===== src/Value/ArrayText.antt =====
-- The text of an array of include/PostgresValue.h, and the server that reads it.
use native.Mathlib.Numerals.{add-one}
use wf_postgres.Common.{
  ℕ, zero, suc, ◌≡◌, refl, sym, ap, ◌∙◌, false, ◌||◌, List, [], ◌∷◌, ◌++◌, map, append-nil,
  append_assoc, Option, none, some, Bytes, codes, ◌==◌, if◌then◌else◌, str_eq, arith,
}
use wf_postgres.Value.{separate, format_items, format_array}

abbrev pub Items : Type 0
Items = List (Option Bytes)

-- What the server's array_in has read of a one-dimensional array. An element that is being read
-- stands behind the finished ones.
pub data Scan : Type 0 where
  at_start opened : Scan
  at_item ended : Items → Scan
  quoted escaped behind bare : Items → Bytes → Scan
  failed : Scan

-- An unquoted NULL is the null.
abbrev pub bare_item : Bytes → Option Bytes
bare_item cur = if str_eq cur (codes "NULL") then none else some cur

-- The byte behind an element.
unfoldable pub after_item : Items → ℕ → Scan
after_item items c = if c == b',' then at_item items else if c == b'}' then ended items else failed

-- The first byte of an element.
unfoldable pub first_of : Items → ℕ → Scan
first_of items c =
    if c == b'"'
    then quoted items []
    else if c == b',' || c == b'}' || c == b'{' || c == b'\\'
    then failed
    else bare items (c ∷ [])

-- One byte.
unfoldable pub scan : Scan → ℕ → Scan
unfolding after_item first_of
scan at_start c = if c == b'{' then opened else failed
scan opened c = if c == b'}' then ended [] else first_of [] c
scan (at_item items) c = first_of items c
scan (quoted items cur) c =
    if c == b'"'
    then behind items cur
    else if c == b'\\'
    then escaped items cur
    else quoted items (cur ++ c ∷ [])
scan (escaped items cur) c = quoted items (cur ++ c ∷ [])
scan (behind items cur) c = after_item (items ++ some cur ∷ []) c
scan (bare items cur) c =
    if c == b',' || c == b'}'
    then after_item (items ++ bare_item cur ∷ []) c
    else if c == b'"' || c == b'{' || c == b'\\'
    then failed
    else bare items (cur ++ c ∷ [])
scan (ended items) c = failed
scan failed c = failed

unfoldable pub scan_all : Scan → Bytes → Scan
scan_all st [] = st
scan_all st (c ∷ s) = scan_all (scan st c) s

abbrev items_of : Scan → Option Items
items_of (ended items) = some items
items_of _ = none

-- The elements that the server reads; `none` is its error.
unfoldable pub read_array : Bytes → Option Items
unfolding scan scan_all
read_array s = items_of (scan_all at_start s)

pub scan_all-append : (st : Scan) (s t : Bytes) → scan_all st (s ++ t) ≡ scan_all (scan_all st s) t
unfolding scan_all
scan_all-append st [] t = refl
scan_all-append st (c ∷ s) t = scan_all-append (scan st c) s t

-- An element may begin here, behind `items`.
abbrev pub Opens : Scan → Items → Type 0
Opens st items = (c : ℕ) → (c == b'}') ≡ false → scan st c ≡ first_of items c

-- An element has ended here, and `items` are those up to it.
abbrev pub Closes : Scan → Items → Type 0
Closes st items = (scan st b',' ≡ at_item items) × (scan st b'}' ≡ ended items)

-- Where the text `e` stands for an element, the server reads it as `x`.
abbrev pub ReadsAs : Bytes → Option Bytes → Type 0
ReadsAs e x =
    (st : Scan) (items : Items) → Opens st items → Closes (scan_all st e) (items ++ x ∷ [])

-- Behind the first `i` elements.
abbrev Stands : ℕ → Items → Scan → Type 0
Stands zero items st = (st ≡ opened) × (items ≡ [])
Stands (suc i) items st = Closes st items

Stands-ended : (i : ℕ) (items : Items) (st : Scan) → Stands i items st → scan st b'}' ≡ ended items
unfolding scan
Stands-ended zero items st h = rw h.0 (ap ended (sym h.1))
Stands-ended (suc i) items st h = h.1

separate-suc : (i : ℕ) (s : Bytes) → separate (suc i) s ≡ s ++ b',' ∷ []
separate-suc i s = ground arith

Stands-Opens :
    (i : ℕ) (items : Items) (s : Bytes)
    → Stands i items (scan_all at_start s)
    → Opens (scan_all at_start (separate i s)) items
Stands-Opens zero items s h c k = rw (h.0, h.1) (unfold scan in rw k refl)
Stands-Opens (suc i) items s h c k =
    rw (separate-suc i s, scan_all-append at_start s (b',' ∷ []))
      (unfold scan_all in rw h.0 (unfold scan in refl))

format_items-Stands {ℓ} :
    {A : Type ℓ} (print : A → Bytes) (item : A → Option Bytes)
    (reads : (x : A) → ReadsAs (print x) (item x)) (vec : List A) (i : ℕ) (items : Items)
    (s : Bytes)
    → Stands i items (scan_all at_start s)
    → scan (scan_all at_start (format_items print vec i s)) b'}' ≡ ended (items ++ map item vec)
unfolding format_items
format_items-Stands print item reads [] i items s h =
    Stands-ended i items _ h ∙ ap ended (sym (append-nil items))
format_items-Stands print item reads (x ∷ vec) i items s h =
    let next : Stands (suc i) (items ++ item x ∷ []) (scan_all at_start (separate i s ++ print x)) =
      rw (scan_all-append at_start (separate i s) (print x))
        (reads x _ items (Stands-Opens i items s h)) in
    rw (add-one i) (
      format_items-Stands print item reads vec (suc i) (items ++ item x ∷ [])
        (separate i s ++ print x) next
      ∙ ap ended (append_assoc items (item x ∷ []) (map item vec)))

-- An array is read element by element if each print is.
pub format_array-reads {ℓ} :
    {A : Type ℓ} (print : A → Bytes) (item : A → Option Bytes)
    → ((x : A) → ReadsAs (print x) (item x))
    → (vec : List A) → read_array (format_array print vec) ≡ some (map item vec)
unfolding read_array format_array
format_array-reads print item reads vec =
    rw (scan_all-append at_start (format_items print vec 0 (b'{' ∷ [])) (b'}' ∷ [])) (
      unfold scan_all in
      ap items_of
        (format_items-Stands print item reads vec 0 [] (b'{' ∷ []) (unfold scan in (refl, refl))))
