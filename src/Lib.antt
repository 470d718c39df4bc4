-- ===== src/Lib.antt =====
-- wf_postgres: a model of the PostgreSQL client for the Workflow framework, and what it does.
--
-- The program is a plugin that speaks the PostgreSQL frontend/backend protocol. Workflow reads
-- and writes a socket; it asks the task for a message to send
-- (ComplexPostgresTask::message_out), the message for its bytes (PostgresRequest::encode), the
-- task for a message to fill (message_in), and that for as many bytes as it wants
-- (PostgresResponse::append). append cuts the bytes into frames with PostgresStream, reads the
-- payloads with PostgresParser, and answers authentication requests with PostgresAuth and
-- ScramAuth. When a message is complete, Workflow asks the task whether it goes on
-- (finish_once), how long the connection may be kept (keep_alive_timeout), and in the end calls
-- handle. The task keeps the protocol's state on the connection, and the state of a session's
-- transaction on the route.
--
-- Common: helpers. Common/Outcome has Run, the outcome of code that follows pointers and loops:
--   ok, fault (a read outside the bytes that a pointer may reach) or diverged (the rounds of a
--   loop ran out). Common/Int has bytes and machine words, Common/Decimal the numbers of the C++
--   library, Common/Tests the Boolean tests.
-- Wire: src/protocol/PostgresWireUtil.h. A pointer is the list of bytes from it to the end of
--   what it may reach. Wire/Bounds, Wire/RoundTrip and Wire/Strings: its reads in bounds, and
--   reading back the words and the strings that were written.
-- Stream: src/protocol/PostgresStream.h and PostgresStream.cc. A stream is its bytes and its
--   cursor; next_frame is next_startup or next_message. Stream/Frames, Stream/FrameBounds: what
--   a frame is, of whole messages and of any bytes. Stream/Growth: the stream as bytes arrive
--   and are dropped.
-- Types: include/PostgresTypes.h. A std::map is its list of pairs in the order of the keys.
-- Libc: what the code uses of the C and C++ libraries: strtoll, strtoull, std::to_string, and
--   the value of errno behind them (Errs is a result with it). Libc/Calendar: gmtime_r and
--   timegm; Libc/Formats: snprintf of dates and strptime; Libc/Numbers, Libc/Calendar/Days and
--   Libc/Formats/RoundTrip: reading back what was printed.
-- Cell: the cell of include/PostgresResult.h and its conversions in
--   src/protocol/PostgresResult.cc. Cell/Access: the bytes of a cell; Cell/Numbers, Cell/Texts,
--   Cell/Arrays, Cell/Times and Cell/Times/Filled: as_int to as_time_point; Cell/Floats:
--   as_double and as_float; Cell/Copies: copies, moves and detach. Cell/RoundTrip,
--   Cell/Times/RoundTrip, Cell/Times/Micros, Cell/Times/Points, Cell/Times/Structs,
--   Cell/ArrayMessages, Cell/ArrayBounds: their theorems.
-- Value: include/PostgresValue.h; Value/Times: of a struct tm and of a time point.
--   Value/ArrayText: the server's reader of an array; Value/ArrayElements: the arrays of a
--   parameter.
-- Parser, Parser/DataRow: src/protocol/PostgresParser.h and PostgresParser.cc, one function for
--   each parser. Parser/Safety, Parser/RowBounds: payloads of any bytes. Parser/Messages,
--   Parser/Rows: payloads as the protocol lays them out.
-- Scram: src/auth/ScramAuth.cc; what OpenSSL computes is the record Crypto. Scram/Xor,
--   Scram/Agreement: the client against a server that follows RFC 5802.
-- Auth: src/auth/PostgresAuth.cc. Auth/Frame: an answer does not depend on the buffer.
--   Auth/Requests: every request is answered.
-- Errors: include/WFPostgresError.h.
-- Response: include/PostgresResponse.h. Response/Append: PostgresResponse::append of
--   src/protocol/PostgresResponse.cc, as handle_event (the branches on an event), handle_frame
--   (a round), frames_loop (the loop) and end_append. Response/Rounds, Response/Loop,
--   Response/Invariant, Response/Growth, Response/Chunks: one round, the loop, one call, a
--   buffer that grows, and several calls. Response/Messages: append against the messages without
--   a buffer. Response/Copy: get_copy_data, is_copy_done and get_warning_count;
--   Response/Copy/Messages: on whole messages.
-- Request: include/PostgresRequest.h and src/protocol/PostgresRequest.cc, one function for each
--   encode. Request/Frames, Request/Startup, Request/Bind: what a server reads.
-- Task: the records of src/factory/PostgresTaskImpl.cc. Task/Guards: check_reconnect_guard,
--   validate_request, update_after_response. Task/Messages: message_out and message_in.
--   Task/Finish: keep_alive_timeout, finish_once and handle. Task/Uri and Task/Uri/Init: the
--   URL, and init_success. Task/Uri/Options: what its options promise. Task/Factory:
--   WFPostgresTaskFactory. Task/Transactions, Task/Protocol, Task/Login, Task/Wrapper: a session
--   over several tasks, a connection over several requests, a login, and the SSL wrapper.
-- Cursor: PostgresResultCursor of include/PostgresResult.h and src/protocol/PostgresResult.cc;
--   fetch_row is fetch_loop with its rounds fetch_event, next_result_set the loops skip_loop and
--   seek_loop. Cursor/Named: rows by name, and copies; Cursor/CommandTag: the parts of a command
--   tag. Cursor/Rows, Cursor/NamedRows, Cursor/Answers, Cursor/Sets: a result set of whole
--   messages, rows by name, the start of an answer, and a whole answer of several statements;
--   Cursor/CommandTag/Words: the words of a tag. Cursor/Safety, Cursor/Metadata,
--   Cursor/ResultSets: bytes of any kind.
-- Status: include/PostgresStatus.h. Status/Classes: which task has which status.
-- Connection: include/WFPostgresConnection.h and src/client/WFPostgresConnection.cc.
--   Connection/Options: the option that names a session; Connection/Separate: the pool of
--   connections and the sessions.
-- Tests: runs on concrete inputs, and each theorem at an input that meets its hypotheses.
--
-- Loops are on rounds. frames_loop gets one round more than the buffer has bytes, since a frame
-- takes five bytes at least; error_fields one more than the payload has bytes; the loops of the
-- cursor one more than it has bytes; read_fields, read_columns and read_elements the counts that
-- the bytes announce; tokens_loop one more than the tag has bytes. Results named Returns say
-- that the rounds are enough and that no read leaves its bytes. A frame that announces the
-- length 2 ^ 32 - 1 wraps a sum of 32 bits to zero; the predicate Framing excludes it, and what
-- it does otherwise is stated on its own.
--
-- Outside the model: Workflow's scheduling, its states and the SSL wrapper's bytes; OpenSSL, by
-- the record Crypto and the arguments that say whether its calls succeed; Workflow's url_decode
-- and split_query, which are arguments; Workflow's URIParser::parse, whose result is an argument
-- of a session's init; floating point numbers, which are an argument, and so are strtod and the
-- print of one; the moves of a response and of a cursor; the pointer of a cell to its field,
-- except in Cursor/Sets: a cell holds the field that the pointer gives while its result set is
-- the current one. A time_point counts nanoseconds in an int64_t, as in libstdc++. `new` does
-- not fail. Signed sums and products that overflow wrap around. A null pointer that the task
-- would follow is a fault.
pub mod Common
pub mod Wire
pub mod Stream
pub mod Types
pub mod Cell
pub mod Libc
pub mod Value
pub mod Parser
pub mod Scram
pub mod Errors
pub mod Response
pub mod Auth
pub mod Request
pub mod Task
pub mod Cursor
pub mod Status
pub mod Connection
mod Tests
