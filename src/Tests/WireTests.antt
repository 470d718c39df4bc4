-- ===== src/Tests/WireTests.antt =====
-- Inputs for src/protocol/PostgresWireUtil.h.
use wf_postgres.Common.{◌≡◌, ◌++◌, ◌+◌, ◌*◌, ◌^◌, refl, [], ◌∷◌, ok, some, codes}
use wf_postgres.Wire.{read_uint32, write_uint32, read_cstring, memchr}

read_uint32_test : read_uint32 (write_uint32 (7 ∷ []) 258) ≡ ok (7 * 2 ^ 24 + 1)
unfolding read_uint32 write_uint32
read_uint32_test = refl

read_cstring_test : read_cstring (codes "ab" ++ 0 ∷ 7 ∷ []) ≡ some (codes "ab", 7 ∷ [])
unfolding read_cstring memchr
read_cstring_test = refl
