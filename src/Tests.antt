-- ===== src/Tests.antt =====
-- Tests by evaluation, and each theorem at an input that meets its hypotheses.
mod WireTests
mod StreamTests
mod ParserTests
mod ResponseTests
mod RequestTests
mod ScramTests
mod TaskTests
mod UriTests
mod CursorTests
mod CellTests
mod ValueTests
mod SessionTests
