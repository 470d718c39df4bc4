-- ===== src/Cursor/Sets.antt =====
-- An answer of several statements, read set by set with fetch_all_copy and next_result_set of
-- src/protocol/PostgresResult.cc.
use wf_postgres.Cell.{PostgresCell}
use wf_postgres.Common.{
  ℕ, zero, suc, ◌+◌, ◌-◌, ◌^◌, ◌<◌, Bool, true, false, List, [], ◌∷◌, ◌++◌, map, Option, none, some,
  Run, ok, diverged, ◌>>=◌, Bytes, NoNul, All, length, if◌then◌else◌, ◌≡◌, ◌≤◌, refl, ap, ap₂, ◌∙◌,
  arith, length-drop,
}
use wf_postgres.Cursor.Answers.{open_cursor, owned_cells, parse_metadata_fields, detach_rows-owned}
use wf_postgres.Cursor.Named.{fetch_all_copy}
use wf_postgres.Cursor.Rows.{IsRow, rows_messages, tag_payload, fetch_all-rows}
use wf_postgres.Cursor.{
  PostgresResultCursor, stream_at, rounds_for, seek_loop, skip_loop, next_result_set,
}
use wf_postgres.Parser.Messages.{row_description_payload, IsField}
use wf_postgres.Parser.{event_type}
use wf_postgres.Request.Frames.{Message, on_wire}
use wf_postgres.Response.{PostgresResponse}
use wf_postgres.Stream.Frames.{rest_of, message, FitsFrame, next_frame-message}
use wf_postgres.Types.{PostgresField}

-- What the server answers to one statement.
pub record ResultSet : Type 0 where
  pub fields : List PostgresField
  pub rows : List (List (Option Bytes))
  pub tag : Bytes

-- The messages of the sets, and ReadyForQuery with its byte.
abbrev pub sets_messages : List ResultSet → ℕ → List Message
sets_messages [] status = (b'Z', status ∷ []) ∷ []
sets_messages (r ∷ sets) status =
    (b'T', row_description_payload r.fields [])
    ∷ rows_messages r.rows ((b'C', tag_payload r.tag) ∷ sets_messages sets status)

-- What the messages of a set can hold.
abbrev pub IsResultSet : ResultSet → Type 0
IsResultSet r =
    FitsFrame (row_description_payload r.fields [])
    × ((length r.fields < 2 ^ 15) × All IsField r.fields)
    × All (IsRow r.fields) r.rows
    × (FitsFrame (tag_payload r.tag) × NoNul r.tag)

-- What a cell gives at a time: what its pointer to a field points at, whether it is NULL, what
-- its pointer to the bytes points at, and its own copy of them.
abbrev pub Snapshot : Type 0
Snapshot = PostgresField × Bool × Option Bytes × Bytes

-- The cell of a column points at the field of that column among those of the cursor.
unfoldable pub snapshots : List PostgresField → List PostgresCell → List Snapshot
snapshots fs [] = []
snapshots [] (c ∷ cs) = []
snapshots (f ∷ fs) (c ∷ cs) = (f, c.is_null, c.contents, c.storage) ∷ snapshots fs cs

-- The snapshots of the cells, and the tag of a set.
abbrev pub ReadSet : Type 0
ReadSet = List (List Snapshot) × Bytes

-- NULL, or the bytes in a copy of the cell's own.
abbrev column : PostgresField → Option Bytes → Snapshot
column f none = (f, true, none, [])
column f (some v) = (f, false, some v, v)

abbrev columns : List PostgresField → List (Option Bytes) → List Snapshot
columns fs [] = []
columns [] (v ∷ vs) = []
columns (f ∷ fs) (v ∷ vs) = column f v ∷ columns fs vs

abbrev pub read_of : ResultSet → ReadSet
read_of r = (map (columns r.fields) r.rows, r.tag)

-- A caller that reads each set, its cells included, before next_result_set looks for one more.
unfoldable pub read_sets : ℕ → PostgresResultCursor → Run (List ReadSet)
read_sets zero c = diverged
read_sets (suc rounds) c = do
  (rows, c') ← fetch_all_copy c
  let seen : ReadSet = (map (snapshots c'.fields) rows, c'.command_tag)
  (more, c'') ← next_result_set c'
  elim more [ true ↦ do sets ← read_sets rounds c''; ok (seen ∷ sets) | false ↦ ok (seen ∷ []) ]

snapshots-owned :
    (fs : List PostgresField) (vs : List (Option Bytes))
    → snapshots fs (owned_cells vs fs) ≡ columns fs vs
unfolding snapshots
snapshots-owned fs [] = refl
snapshots-owned [] (v ∷ vs) = refl
snapshots-owned (f ∷ fs) (none ∷ vs) = rw (snapshots-owned fs vs) refl
snapshots-owned (f ∷ fs) (some [] ∷ vs) = rw (snapshots-owned fs vs) refl
snapshots-owned (f ∷ fs) (some (b ∷ v) ∷ vs) = rw (snapshots-owned fs vs) refl

snapshots-rows :
    (fs : List PostgresField) (rows : List (List (Option Bytes)))
    → map (snapshots fs) (map (λ vs. owned_cells vs fs) rows) ≡ map (columns fs) rows
snapshots-rows fs [] = refl
snapshots-rows fs (vs ∷ rows) = rw (snapshots-owned fs vs, snapshots-rows fs rows) refl

-- Bytes are left only inside the buffer.
rest_inside :
    (c : PostgresResultCursor) (b : ℕ) (rest : Bytes)
    → rest_of (stream_at c) ≡ b ∷ rest
    → c.cursor ≤ length c.bytes
rest_inside c b rest e = omega (arith, ap length e, length-drop c.cursor c.bytes)

next_result_set_done :
    (c : PostgresResultCursor)
    → c.current_result_set_done ≡ true
    → next_result_set c ≡ seek_loop (rounds_for c) (stream_at c) c
unfolding next_result_set
next_result_set_done c d =
    ap
      (λ (b : Bool).
        if b
        then seek_loop (rounds_for c) (stream_at c) c
        else skip_loop (rounds_for c) (stream_at c) c)
      d

-- Behind a set that is done, the next one begins.
next_result_set-more :
    (c : PostgresResultCursor) (fs : List PostgresField) (rest : Bytes)
    → c.current_result_set_done ≡ true
    → FitsFrame (row_description_payload fs [])
    → (length fs < 2 ^ 15) × All IsField fs
    → rest_of (stream_at c) ≡ message b'T' (row_description_payload fs []) ++ rest
    → (c' : PostgresResultCursor) × (next_result_set c ≡ ok (true, c'))
      × (c'.fields ≡ fs)
      × (c'.current_result_set_done ≡ false)
      × (c'.cursor ≤ length c'.bytes)
      × (rest_of (stream_at c') ≡ rest)
unfolding seek_loop event_type
next_result_set-more c fs rest d fits h e =
    let p = row_description_payload fs [] in
    let valid = rest_inside c b'T' _ e in
    let (next, _, _, _) = next_frame-message (stream_at c) b'T' p rest valid fits e in
    let (c', found, same, more, inside, behind) = parse_metadata_fields c fs rest valid fits h e in
    let back : c.cursor + (5 + length p) - (5 + length p) ≡ c.cursor = omega arith in
    let one : rounds_for c ≡ suc (length c.bytes) = omega arith in
    (
      c',
      next_result_set_done c d ∙ rw (one, next, ◌>>=◌, back, found) refl,
      same,
      more,
      inside,
      behind,
    )

-- ReadyForQuery ends the answer.
next_result_set-ready :
    (c : PostgresResultCursor) (status : ℕ)
    → c.current_result_set_done ≡ true
    → rest_of (stream_at c) ≡ message b'Z' (status ∷ [])
    → (c' : PostgresResultCursor) × (next_result_set c ≡ ok (false, c'))
unfolding seek_loop event_type
next_result_set-ready c status d e =
    let valid = rest_inside c b'Z' _ e in
    let (next, _, _, _) =
      next_frame-message (stream_at c) b'Z' (status ∷ []) [] valid (omega arith) e in
    let one : rounds_for c ≡ suc (length c.bytes) = omega arith in
    (
      record c { cursor = c.cursor + (5 + length (status ∷ [])) },
      next_result_set_done c d ∙ rw (one, next, ◌>>=◌) refl,
    )

-- The rows of a set, with copies of their bytes.
fetch_all_copy-rows :
    (c : PostgresResultCursor) (r : ResultSet) (ms : List Message)
    → IsResultSet r
    → c.fields ≡ r.fields
    → c.current_result_set_done ≡ false
    → c.cursor ≤ length c.bytes
    → rest_of (stream_at c) ≡ on_wire (rows_messages r.rows ((b'C', tag_payload r.tag) ∷ ms))
    → (c' : PostgresResultCursor) × (fetch_all_copy c
        ≡ ok (map (λ vs. owned_cells vs r.fields) r.rows, c'))
      × (c'.current_result_set_done ≡ true)
      × (c'.command_tag ≡ r.tag)
      × (rest_of (stream_at c') ≡ on_wire ms)
      × (c'.fields ≡ r.fields)
unfolding fetch_all_copy
fetch_all_copy-rows c r ms (fits, described, rows, tag) same d valid e =
    let (c', all, done, last, rest, kept) =
      fetch_all-rows c r.rows r.tag ms d valid (rw same rows) tag e in
    (
      c',
      rw (all, same) (rw (detach_rows-owned r.rows r.fields) refl),
      done,
      last,
      rest,
      kept ∙ same,
    )

-- What the caller sees of a set while it is the cursor's.
seen_as :
    (c : PostgresResultCursor) (r : ResultSet)
    → c.fields ≡ r.fields
    → c.command_tag ≡ r.tag
    → (map (snapshots c.fields) (map (λ vs. owned_cells vs r.fields) r.rows), c.command_tag)
      ≡ read_of r
seen_as c r same tag =
    ap₂ (λ (x : List (List Snapshot)) (t : Bytes). (x, t))
      (ap
          (λ (fs : List PostgresField).
            map (snapshots fs) (map (λ vs. owned_cells vs r.fields) r.rows))
          same
        ∙ snapshots-rows r.fields r.rows)
      tag

-- One set after the other, from the rows of the first.
read_sets-behind :
    (r : ResultSet) (sets : List ResultSet) (status : ℕ) (c : PostgresResultCursor)
    → IsResultSet r
    → All IsResultSet sets
    → c.fields ≡ r.fields
    → c.current_result_set_done ≡ false
    → c.cursor ≤ length c.bytes
    → rest_of (stream_at c)
      ≡ on_wire (rows_messages r.rows ((b'C', tag_payload r.tag) ∷ sets_messages sets status))
    → read_sets (suc (length sets)) c ≡ ok (map read_of (r ∷ sets))
unfolding read_sets
read_sets-behind r [] status c is_set hs same d valid e =
    let (c1, all, done, tag, rest, kept) =
      fetch_all_copy-rows c r (sets_messages [] status) is_set same d valid e in
    let (c2, stop) = next_result_set-ready c1 status done rest in
    rw (all, ◌>>=◌, stop) (ap (λ (x : ReadSet). ok (x ∷ [])) (seen_as c1 r kept tag))
read_sets-behind r (r' ∷ sets) status c is_set (is_next, hs) same d valid e =
    let (c1, all, done, tag, rest, kept) =
      fetch_all_copy-rows c r (sets_messages (r' ∷ sets) status) is_set same d valid e in
    let (c2, more, same', d', inside, behind) =
      next_result_set-more c1 r'.fields
        (on_wire (rows_messages r'.rows ((b'C', tag_payload r'.tag) ∷ sets_messages sets status)))
        done is_next.0 is_next.1 rest in
    rw (all, ◌>>=◌, more, read_sets-behind r' sets status c2 is_next hs same' d' inside behind)
      (ap (λ (x : ReadSet). ok (x ∷ map read_of (r' ∷ sets))) (seen_as c1 r kept tag))

pub read_sets-sets :
    (resp : PostgresResponse) (r : ResultSet) (sets : List ResultSet) (status : ℕ)
    → resp.buf ≡ on_wire (sets_messages (r ∷ sets) status)
    → IsResultSet r
    → All IsResultSet sets
    → (do c ← open_cursor resp; read_sets (length (r ∷ sets)) c) ≡ ok (map read_of (r ∷ sets))
unfolding open_cursor
read_sets-sets resp r sets status e is_set hs =
    let start : PostgresResultCursor = record {
      bytes = resp.buf;
      cursor = 0;
      fields = [];
      command_tag = [];
      current_result_set_done = false;
    } in
    let (c, opened, same, more, inside, behind) =
      parse_metadata_fields start r.fields
        (on_wire (rows_messages r.rows ((b'C', tag_payload r.tag) ∷ sets_messages sets status)))
        (omega arith) is_set.0 is_set.1 e in
    rw (opened, ◌>>=◌) (read_sets-behind r sets status c is_set hs same more inside behind)
