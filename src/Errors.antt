-- ===== src/Errors.antt =====
-- include/WFPostgresError.h: the error codes of the plugin.
use wf_postgres.Common.{ℕ, ◌+◌}

abbrev pub base : ℕ
base = 14000

abbrev pub ssl_not_supported : ℕ
ssl_not_supported = base + 1

abbrev pub ssl_init_failed : ℕ
ssl_init_failed = base + 2

abbrev pub auth_failed : ℕ
auth_failed = base + 3

abbrev pub unsupported_auth : ℕ
unsupported_auth = base + 4

abbrev pub protocol_not_supported : ℕ
protocol_not_supported = base + 5

abbrev pub protocol_error : ℕ
protocol_error = base + 6

abbrev pub bad_response : ℕ
bad_response = base + 7

abbrev pub ssl_cert_failed : ℕ
ssl_cert_failed = base + 8
