-- ===== src/SqlServer/Batch.antt =====
-- crates/rustium-sqlserver/src/source.rs: `read_change_batch`, one page of the change tables. An
-- error is either raised before the state changes, and the page is read again, or it ends the
-- source, so no state goes with an error.
pub mod Paging
pub mod Order
pub mod Cursor
pub mod Restart
pub mod Page
pub mod Drain
use rustium.Common.{
  ℕ, zero, suc, ◌+◌, ◌-◌, ◌^◌, Bool, true, false, not, Option, none, some, List, [], ◌∷◌, ◌++◌,
  get_elem?, min, ltb, if◌then◌else◌, length, is_empty, str_eq, map,
}
use rustium.Core.Error.{Result, ok, err, source, ◌>>=◌}
use rustium.Core.Event.{SourceRecord, heartbeat}
use rustium.SqlServer.Lsn.{Bytes, max_lsn_bytes, sqlserver_position}
use rustium.SqlServer.Stream.{
  CaptureTable, commit_serial, at_snapshot, RawChange, StreamingState, commit_record,
}
use rustium.SqlServer.Change.{
  TdsRow, Parts, Stream, Images, required_binary, capture_in_map, known, cursor_at, images_of,
  ends_commit, raw_change, data_record,
}

abbrev pub Step : Type 0
Step = Result (List SourceRecord × StreamingState)

abbrev pub after : List SourceRecord → Step → Step
after records (err e) = err e
after records (ok (more, s)) = ok (records ++ more, s)

-- What follows a step, with the step's records before its own.
infixl 5 ◌then◌
abbrev pub ◌then◌ : Step → (StreamingState → Step) → Step
err e then next = err e
ok (records, s) then next = after records (next s)

abbrev pub listed : {A : Type 0} → Option A → List A
listed none = []
listed (some a) = a ∷ []

unfoldable pub take : {A : Type 0} → ℕ → List A → List A
take zero rows = []
take (suc n) [] = []
take (suc n) (row ∷ rows) = row ∷ take n rows

abbrev pub differs : Option RawChange → Bytes → Bool
differs none lookahead = false
differs (some last) lookahead = not (str_eq last.commit_lsn lookahead)

abbrev pub last : List RawChange → Option RawChange
last [] = none
last (change ∷ []) = some change
last (change ∷ following ∷ rest) = last (following ∷ rest)

-- Whether the commit of the page's last change ends with the page.
unfoldable pub complete_last_commit : List RawChange → Option Bytes → Bool
complete_last_commit changes none = true
complete_last_commit changes (some lookahead) = differs (last changes) lookahead

module _ (parts : Parts) (stream : Stream) where
  -- The cursor moves on, and the commit's own record ends it.
  unfoldable pub end_change :
      RawChange → Bool → List SourceRecord → StreamingState → List SourceRecord × StreamingState
  unfolding commit_record
  end_change change ends records s =
      let moved : StreamingState = record s { cursor = cursor_at change } in
      let (commit, left) = commit_record parts.hex stream.database change.commit_lsn moved in
      if ends
      then (records ++ listed commit, record left { cursor = at_snapshot change.commit_lsn })
      else (records, moved)

  unfoldable pub emit :
      CaptureTable
      → RawChange
      → Bool
      → Option Images × StreamingState
      → List SourceRecord × StreamingState
  unfolding data_record end_change
  emit table change ends (none, s) = ([], s)
  emit table change ends (some images, s) =
      let (records, left) = data_record parts stream change table images s in
      end_change change ends records left

  unfoldable pub process_change : RawChange → Bool → StreamingState → Step
  unfolding capture_in_map images_of emit
  process_change change ends s = do
    table ←
        known "unknown SQL Server capture instance"
          (capture_in_map change.capture_instance stream.captures)
    images ← images_of change.raw_operation change s
    ok (emit table change ends images)

  -- The loop over a page.
  unfoldable pub process_changes : Bool → List RawChange → StreamingState → Step
  unfolding process_change
  process_changes complete [] s = ok ([], s)
  process_changes complete (change ∷ rest) s =
      process_change change (ends_commit change rest complete) s then λ t.
      process_changes complete rest t

  unfoldable pub raw_changes : List TdsRow → Result (List RawChange)
  unfolding raw_change
  raw_changes [] = ok []
  raw_changes (row ∷ rows) = do
    change ← raw_change parts stream row
    changes ← raw_changes rows
    ok (change ∷ changes)

  unfoldable pub lookahead_commit : Option TdsRow → Result (Option Bytes)
  unfolding required_binary
  lookahead_commit none = ok none
  lookahead_commit (some row) = do commit_lsn ← required_binary row.commit_lsn; ok (some commit_lsn)

  unfoldable pub end_of_log : Bytes → StreamingState → List SourceRecord × StreamingState
  end_of_log max_lsn s =
      if is_empty s.pending_updates
      then (
        record {
          event = none;
          position =
              sqlserver_position parts.hex stream.database max_lsn max_lsn_bytes commit_serial
                false;
          boundary = heartbeat;
          connector_state = none;
          signal_acknowledgements = [];
        }
            ∷ [],
        record s { cursor = at_snapshot max_lsn },
      )
      else ([], s)

  -- A page of `fetch_size` rows, and the row read ahead of the next one.
  unfoldable pub process_rows : List TdsRow → StreamingState → Step
  unfolding take raw_changes lookahead_commit complete_last_commit process_changes
  process_rows rows s = do
    changes ← raw_changes (take stream.fetch_size rows)
    lookahead ← lookahead_commit (get_elem? rows stream.fetch_size)
    process_changes (complete_last_commit changes lookahead) changes s

  unfoldable pub read_change_batch : Bytes → StreamingState → Step
  unfolding end_of_log process_rows
  read_change_batch max_lsn s = do
    rows ← parts.query s.cursor max_lsn (min (stream.fetch_size + 1) (2 ^ 64 - 1))
    if is_empty rows then ok (end_of_log max_lsn s) else process_rows rows s
