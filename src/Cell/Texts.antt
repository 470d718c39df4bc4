-- ===== src/Cell/Texts.antt =====
-- PostgresCell::as_string, as_jsonb_string, as_uuid_string and as_bytea of
-- src/protocol/PostgresResult.cc.
use wf_postgres.Cell.Access.{is_binary, reach, string_of, text_of}
use wf_postgres.Cell.Numbers.{first_byte}
use wf_postgres.Cell.{PostgresCell}
use wf_postgres.Libc.{to_hex}
use wf_postgres.Common.{
  ℕ, ◌+◌, ◌-◌, ◌*◌, Bool, ◌&&◌, ◌||◌, false, none, [], ◌∷◌, ◌++◌, Run, ok, fault, ◌>>=◌, Bytes,
  length, take, drop, leb, ◌==◌, if◌then◌else◌, some,
}

unfoldable pub as_string : PostgresCell → Run Bytes
as_string c = if c.is_null then ok [] else text_of c

-- The version byte of a binary jsonb is left out.
unfoldable pub as_jsonb_string : PostgresCell → Run Bytes
as_jsonb_string c =
    if c.is_null || c.length == 0
    then ok []
    else if is_binary c
    then (do
      p ← reach c.contents
      version ← first_byte p
      if version == 1 then string_of (some (drop 1 p)) (c.length - 1) else text_of c)
    else text_of c

-- The groups of "%02x" with a dash between them.
abbrev pub uuid_text : Bytes → Bytes
uuid_text u =
    to_hex (take 4 u)
    ++ b'-'
      ∷ (to_hex (take 2 (drop 4 u))
          ++ b'-'
            ∷ (to_hex (take 2 (drop 6 u))
                ++ b'-' ∷ (to_hex (take 2 (drop 8 u)) ++ b'-' ∷ to_hex (take 6 (drop 10 u)))))

unfoldable pub as_uuid_string : PostgresCell → Run Bytes
as_uuid_string c =
    if c.is_null
    then ok []
    else if is_binary c
    then (if c.length == 16
        then (do
          p ← reach c.contents
          if leb 16 (length p) then ok (uuid_text (take 16 p)) else fault)
        else ok [])
    else text_of c

unfoldable pub hex_val : ℕ → ℕ
hex_val c =
    if leb b'0' c && leb c b'9'
    then c - b'0'
    else if leb b'a' c && leb c b'f'
    then c - b'a' + 10
    else if leb b'A' c && leb c b'F'
    then c - b'A' + 10
    else 0

-- The `for` loop: two digits make a byte, and a last single one is left out.
unfoldable pub hex_bytes : Bytes → Bytes
unfolding hex_val
hex_bytes [] = []
hex_bytes (a ∷ []) = []
hex_bytes (a ∷ b ∷ s) = (hex_val a * 16 + hex_val b) ∷ hex_bytes s

-- Starts with "\x" or "\X".
abbrev pub is_hex_format : Bytes → Bool
is_hex_format (a ∷ b ∷ _) = a == b'\\' && (b == b'x' || b == b'X')
is_hex_format _ = false

abbrev pub bytea_text : Bytes → Bytes
bytea_text s = if is_hex_format s then hex_bytes (drop 2 s) else s

-- A null pointer gives no bytes.
unfoldable pub as_bytea : PostgresCell → Run Bytes
unfolding hex_bytes
as_bytea c = if c.is_null || c.length == 0 then ok [] else elim c.contents [
  | none ↦ ok []
  | some p ↦ do s ← text_of c; ok (if is_binary c then s else bytea_text s)
]
