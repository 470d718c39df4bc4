-- ===== src/Cell/Access.antt =====
-- What the conversions of src/protocol/PostgresResult.cc read of a cell: `field_ && field_->format
-- == 1`, the memory behind `data_`, and the text of `length_` bytes there.
use wf_postgres.Cell.{PostgresCell}
use wf_postgres.Common.{
  ℕ, Bool, false, [], Option, none, some, Run, ok, fault, Bytes, ℤ, pos, negsuc, length, take, ◌≡◌,
  leb, ◌==◌, if◌then◌else◌,
}
use wf_postgres.Types.{PostgresField}

abbrev is_one : ℤ → Bool
is_one (pos n) = n == 1
is_one (negsuc n) = false

abbrev pub is_binary_field : Option PostgresField → Bool
is_binary_field none = false
is_binary_field (some f) = is_one f.format

abbrev pub is_binary : PostgresCell → Bool
is_binary c = is_binary_field c.field

-- The bytes that a read through `data_` may reach.
abbrev pub reach : Option Bytes → Run Bytes
reach none = fault
reach (some p) = ok p

-- std::string(data, n). The library takes a null pointer for n = 0 only.
abbrev pub string_of : Option Bytes → ℕ → Run Bytes
string_of none n = if n == 0 then ok [] else fault
string_of (some p) n = if leb n (length p) then ok (take n p) else fault

abbrev pub text_of : PostgresCell → Run Bytes
text_of c = string_of c.contents c.length

-- The cell's bytes are there.
abbrev pub Holds : PostgresCell → Bytes → Type 0
Holds c p = (c.contents ≡ some p) × (c.length ≡ length p) × (c.is_null ≡ false)
