-- ===== src/Tests/CellTests.antt =====
-- Cells for the conversions of src/protocol/PostgresResult.cc.
use wf_postgres.Cell.ArrayBounds.{Within, as_array-Within, as_array_minus_one}
use wf_postgres.Cell.ArrayMessages.{element_cell, array_bytes, as_array-array_bytes}
use wf_postgres.Cell.Arrays.{as_array}
use wf_postgres.Cell.Numbers.{as_int, as_bigint}
use wf_postgres.Cell.RoundTrip.{as_bigint-of_int64, as_bytea-of_bytes}
use wf_postgres.Cell.Texts.{as_bytea}
use wf_postgres.Cell.Times.Filled.{
  filled, as_date, as_time, as_datetime, from_micros, as_time_point,
}
use wf_postgres.Cell.Times.Structs.{as_times-of_tm}
use wf_postgres.Cell.Times.Points.{as_time_point-of_time_point}
use wf_postgres.Value.Times.{split_point, point_text, of_time_point, of_tm}
use wf_postgres.Cell.Times.RoundTrip.{as_datetime-as_datetime_string}
use wf_postgres.Cell.Times.{split_micros, datetime_text, as_datetime_string}
use wf_postgres.Cell.{PostgresCell, cell}
use wf_postgres.Common.{
  ◌≡◌, refl, true, false, List, [], ◌∷◌, Option, map, none, some, ok, fault, Returns, Bytes, codes,
  ℤ, pos, negsuc, pos_part, length, inl, arith, to_string,
}
use wf_postgres.Libc.Calendar.{Tm, zero_tm, gmtime, civil_of_day}
use wf_postgres.Libc.Formats.{print_date, print_clock, strftime_date}
use wf_postgres.Types.{PostgresField}
use wf_postgres.Value.{of_int64, of_bytes}
use wf_postgres.Wire.{write_int64, read_uint32}

abbrev binary_field : PostgresField
binary_field = record {
  name = codes "v";
  table_oid = pos 0;
  column_attr = pos 0;
  type_oid = pos 0;
  type_size = negsuc 0;
  type_modifier = negsuc 0;
  format = pos 1;
}

abbrev in_binary : Bytes → PostgresCell
in_binary p = cell (some p) (length p) false (some binary_field)

abbrev in_text : Bytes → PostgresCell
in_text p = cell (some p) (length p) false none

-- A second and a half before the year 2000.
abbrev moment : ℤ
moment = negsuc 1499999

as_datetime-as_datetime_string_example :
    (as_datetime_string (in_binary (write_int64 [] moment)) ≡ ok (datetime_text moment, none))
    × (as_datetime (in_binary (write_int64 [] moment)) true
        ≡ ok (filled (gmtime (split_micros moment).0, pos_part (split_micros moment).1)))
    × (as_datetime (in_text (datetime_text moment)) true
        ≡ ok (filled (gmtime (split_micros moment).0, pos_part (split_micros moment).1)))
unfolding gmtime civil_of_day split_micros
as_datetime-as_datetime_string_example =
    as_datetime-as_datetime_string moment 1999 (in_binary (write_int64 [] moment))
      (in_text (datetime_text moment)) (omega arith) (refl, refl, refl) refl refl (omega arith)
      (refl, refl, refl) refl

datetime_text_test : datetime_text moment ≡ codes "1999-12-31 23:59:58.500000"
unfolding datetime_text split_micros print_date gmtime civil_of_day print_clock
datetime_text_test = refl

as_bigint-of_int64_example :
    (as_bigint (in_text (of_int64 (negsuc 41)).contents) ≡ ok (negsuc 41, none))
    × (as_int (in_text (of_int64 (negsuc 41)).contents) ≡ ok (negsuc 41, none))
    × (as_bigint (in_binary (write_int64 [] (negsuc 41))) ≡ ok (negsuc 41, none))
    × (as_int (in_binary (write_int64 [] (negsuc 41))) ≡ ok (negsuc 41, none))
as_bigint-of_int64_example =
    as_bigint-of_int64 (negsuc 41) (in_text (of_int64 (negsuc 41)).contents)
      (in_binary (write_int64 [] (negsuc 41))) (omega arith) (refl, refl, refl) refl
      (refl, refl, refl) refl

as_bytea-of_bytes_example :
    as_bytea (in_text (of_bytes (0 ∷ 171 ∷ 255 ∷ [])).contents) ≡ ok (0 ∷ 171 ∷ 255 ∷ [])
as_bytea-of_bytes_example =
    as_bytea-of_bytes (0 ∷ 171 ∷ 255 ∷ []) (in_text (of_bytes (0 ∷ 171 ∷ 255 ∷ [])).contents)
      (omega arith) (refl, refl, refl) refl

abbrev three_items : List (Option Bytes)
three_items = some (codes "a") ∷ none ∷ some [] ∷ []

as_array-array_bytes_example :
    as_array (in_binary (array_bytes 1 25 1 three_items))
    ≡ ok (map (element_cell (some binary_field)) three_items)
as_array-array_bytes_example =
    as_array-array_bytes (in_binary (array_bytes 1 25 1 three_items)) 1 25 1 three_items
      (refl, refl, refl) refl (omega arith) (omega arith)

-- Two dimensions, and nothing behind the first.
abbrev cut_array : Bytes
cut_array =
    0 ∷ 0 ∷ 0 ∷ 1 ∷ 0 ∷ 0 ∷ 0 ∷ 0 ∷ 0 ∷ 0 ∷ 0 ∷ 25 ∷ 0 ∷ 0 ∷ 0 ∷ 9 ∷ 0 ∷ 0 ∷ 0 ∷ 1 ∷ 0 ∷ 0 ∷ []

as_array-Within_example : Returns (as_array (in_binary cut_array)) (Within 22)
unfolding read_uint32
as_array-Within_example =
    as_array-Within (in_binary cut_array) cut_array 1 (refl, refl, refl) refl (omega arith) refl
      (inl (omega arith)) (omega arith)

as_array_minus_one_example :
    as_array (in_binary (255 ∷ 255 ∷ 255 ∷ 255 ∷ 0 ∷ 0 ∷ 0 ∷ 0 ∷ 0 ∷ 0 ∷ 0 ∷ 25 ∷ [])) ≡ fault
as_array_minus_one_example =
    as_array_minus_one (in_binary (255 ∷ 255 ∷ 255 ∷ 255 ∷ 0 ∷ 0 ∷ 0 ∷ 0 ∷ 0 ∷ 0 ∷ 0 ∷ 25 ∷ []))
      (0 ∷ 0 ∷ 0 ∷ 0 ∷ 0 ∷ 0 ∷ 0 ∷ 25 ∷ []) (refl, refl, refl) refl refl

-- A second and a half behind the year 2024, and 123 nanoseconds.
abbrev point : ℤ
point = pos 1704067201500000123

as_time_point-of_time_point_example :
    as_time_point (in_text (of_time_point point).contents) ≡ ok (pos 1704067201500000000, none)
unfolding split_point
as_time_point-of_time_point_example =
    as_time_point-of_time_point point (in_text (of_time_point point).contents) (omega arith)
      (refl, refl, refl) refl

-- The microseconds of the year 3000 are too many for the nanoseconds of a time point.
from_micros_test : from_micros (pos 32503680000000000) ≡ negsuc 4389808147419103231
from_micros_test = refl

point_text_test : point_text point ≡ codes "2024-01-01 00:00:01.500000+00"
unfolding point_text split_point strftime_date print_clock gmtime civil_of_day to_string
point_text_test = refl

abbrev leap_day : Tm
leap_day = record { year = pos 2024; mon = 2; mday = 29; hour = 23; min = 5; sec = 9 }

as_times-of_tm_example :
    (as_date (in_text (of_tm leap_day (pos 1082)).contents) true
      ≡ ok (filled (record leap_day { hour = 0; min = 0; sec = 0 })))
    × (as_time (in_text (of_tm leap_day (pos 1083)).contents) true
        ≡ ok (filled (record zero_tm { hour = 23; min = 5; sec = 9 }, 0)))
    × (as_datetime (in_text (of_tm leap_day (pos 1114)).contents) true ≡ ok (filled (leap_day, 0)))
as_times-of_tm_example =
    as_times-of_tm leap_day 2024 (in_text (of_tm leap_day (pos 1082)).contents)
      (in_text (of_tm leap_day (pos 1083)).contents) (in_text (of_tm leap_day (pos 1114)).contents)
      (
        2024,
        refl,
        (omega arith, (omega arith, omega arith), (omega arith, omega arith)),
        (omega arith, omega arith, omega arith),
      )
      refl (omega arith, omega arith) ((refl, refl, refl), refl) ((refl, refl, refl), refl)
      ((refl, refl, refl), refl)
