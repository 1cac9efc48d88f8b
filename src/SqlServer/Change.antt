-- ===== src/SqlServer/Change.antt =====
-- crates/rustium-sqlserver/src/source.rs: the event of one row of the change tables.
--
-- A row of the driver is what `try_get` answers for each of its columns. The driver's query, the
-- conversion of a row's JSON text, the column transformer, the hash of an event's identity, the
-- clock and the crate `hex` are `Parts`, and a theorem holds whatever they answer.
use rustium.Common.{
  ℕ, Bool, false, not, Option, none, some, List, [], ◌∷◌, ◌++◌, ◌==◌, String, if◌then◌else◌, length,
  codes, Str, str_eq,
}
use rustium.Common.Int.{ℤ, pos, negsuc}
use rustium.Common.Assoc.{find, remove, insert, TableKey, same_table}
use rustium.Core.Error.{Result, ok, err, source, ◌>>=◌}
use rustium.Core.Position.{SourcePosition}
use rustium.Core.Json.{Json, text, natural, negative}
use rustium.Core.Event.{
  Row, Operation, EventSchema, TransactionMetadata, SourceMetadata, ChangeEvent, SourceRecord,
  RecordBoundary,
}
use rustium.SqlServer.Lsn.{Bytes, Hex, lsn_size, sqlserver_position}
use rustium.SqlServer.Stream.{
  CaptureTable, key, CdcCursor, RawChange, UpdateKey, same_update, StreamingState,
  ActiveTransaction, should_skip, transaction_metadata,
}

pub record TdsRow : Type 0 where
  pub commit_lsn : Result (Option Bytes)
  pub change_lsn : Result (Option Bytes)
  pub operation : Result (Option ℤ)
  pub capture_instance : Result (Option Str)
  pub row_data : Result (Option Str)
  pub source_time : Result (Option ℕ)

pub record Parts : Type 0 where
  pub hex : Hex
  pub query : CdcCursor → Bytes → ℕ → Result (List TdsRow)
  pub convert_json_row : Str → EventSchema → Result Row
  pub transform_event : Str → CaptureTable → ChangeEvent → ChangeEvent
  pub event_id : Str → Str → SourcePosition → Str → ℕ → Str
  pub observed_time : RawChange → ℕ
  pub connector_version : Str

pub record Stream : Type 0 where
  pub database : Str
  pub connector_name : Str
  pub captures : List CaptureTable
  pub fetch_size : ℕ
  pub signal_table : Option TableKey

abbrev pub present : {A : Type 0} → Option A → Result A
present none = err (source "SQL Server result is null")
present (some a) = ok a

unfoldable pub required : {A : Type 0} → Result (Option A) → Result A
required column = do value ← column; present value

unfoldable pub required_binary : Result (Option Bytes) → Result Bytes
unfolding required
required_binary column = do
  value ← required column
  if length value == lsn_size then ok value else err (source "SQL Server column has another size")

-- `captures.iter().find(..)`: the first of that instance.
unfoldable pub first_capture : Str → List CaptureTable → Option CaptureTable
first_capture instance_name [] = none
first_capture instance_name (c ∷ rest) =
    let later = first_capture instance_name rest in
    if str_eq c.capture_instance instance_name then some c else later

abbrev pub or_else : {A : Type 0} → Option A → Option A → Option A
or_else none b = b
or_else (some a) b = some a

-- `capture_map.get(..)`: of two captures with one instance the map keeps the last.
unfoldable pub capture_in_map : Str → List CaptureTable → Option CaptureTable
capture_in_map instance_name [] = none
capture_in_map instance_name (c ∷ rest) =
    let later = capture_in_map instance_name rest in
    or_else later (if str_eq c.capture_instance instance_name then some c else none)

abbrev pub known : String → Option CaptureTable → Result CaptureTable
known message none = err (source message)
known message (some c) = ok c

-- The images that an event takes from a change, and its serial number.
pub record Images : Type 0 where
  pub operation : Operation
  pub before : Option Row
  pub after : Option Row
  pub event_serial : ℕ

abbrev pub cursor_at : RawChange → CdcCursor
cursor_at change = record {
  commit_lsn = change.commit_lsn;
  change_lsn = change.change_lsn;
  raw_operation = change.raw_operation;
}

abbrev pub update_key : RawChange → UpdateKey
update_key change = (change.commit_lsn, (change.change_lsn, change.capture_instance))

abbrev pub made : Operation → Option Row → Option Row → ℕ → Images
made operation before after event_serial = record {
  operation = operation;
  before = before;
  after = after;
  event_serial = event_serial;
}

-- An update's after-image takes the before-image that waits for it.
abbrev pub paired :
    Option Row → RawChange → StreamingState → Result (Option Images × StreamingState)
paired none change s = err (source "SQL Server update after-image has no before-image")
paired (some before) change s = ok (
  some (made Operation.update (some before) (some change.row) 4),
  record s { pending_updates = remove same_update (update_key change) s.pending_updates },
)

-- No images: the before-image of an update, which is kept until its after-image comes.
unfoldable pub images_of : ℤ → RawChange → StreamingState → Result (Option Images × StreamingState)
unfolding find remove insert same_update
images_of (negsuc n) change s = err (source "unsupported SQL Server CDC operation")
images_of (pos n) change s =
    if n == 1
    then ok (some (made Operation.delete (some change.row) none 1), s)
    else if n == 2
    then ok (some (made Operation.create none (some change.row) 2), s)
    else if n == 3
    then ok (
      none,
      record s {
        pending_updates = insert same_update (update_key change) change.row s.pending_updates;
        cursor = cursor_at change;
      },
    )
    else if n == 4
    then paired (find same_update (update_key change) s.pending_updates) change s
    else err (source "unsupported SQL Server CDC operation")

abbrev integer : ℤ → Json
integer (pos n) = natural n
integer (negsuc n) = negative n

abbrev pub is_table : Option TableKey → TableKey → Bool
is_table none k = false
is_table (some signal) k = same_table signal k

abbrev active_time : Option ActiveTransaction → Option ℕ
active_time none = none
active_time (some t) = t.source_time

-- `raw_changes.get(index + 1)`, or the row that was read ahead, decides whether a commit ends here.
abbrev pub ends_commit : RawChange → List RawChange → Bool → Bool
ends_commit change [] complete_last_commit = complete_last_commit
ends_commit change (following ∷ _) complete_last_commit =
    not (str_eq following.commit_lsn change.commit_lsn)

module _ (parts : Parts) (stream : Stream) where
  unfoldable pub raw_change : TdsRow → Result RawChange
  unfolding required required_binary first_capture
  raw_change row = do
    capture_instance ← required row.capture_instance
    capture ←
        known "SQL Server returned unknown capture instance"
          (first_capture capture_instance stream.captures)
    json ← required row.row_data
    commit_lsn ← required_binary row.commit_lsn
    change_lsn ← required_binary row.change_lsn
    raw_operation ← required row.operation
    converted ← parts.convert_json_row json capture.event_schema
    source_time ← row.source_time
    ok (record {
      commit_lsn = commit_lsn;
      change_lsn = change_lsn;
      raw_operation = raw_operation;
      capture_instance = capture_instance;
      row = converted;
      source_time = source_time;
    })

  unfoldable pub source_metadata : CaptureTable → Bool → SourceMetadata
  source_metadata capture snapshot = record {
    connector = codes "sqlserver";
    connector_name = stream.connector_name;
    database = stream.database;
    schema = some capture.schema;
    table = some capture.table;
    snapshot = snapshot;
    version = parts.connector_version;
    attributes =
        (codes "capture_instance", text capture.capture_instance)
        ∷ (codes "source_object_id", integer capture.source_object_id)
        ∷ [];
  }

  abbrev pub position_at : RawChange → ℕ → SourcePosition
  position_at change serial =
      sqlserver_position parts.hex stream.database change.commit_lsn change.change_lsn serial false

  unfoldable pub event_of :
      RawChange → CaptureTable → Images → TransactionMetadata → Option ℕ → ChangeEvent
  unfolding source_metadata same_table
  event_of change table images transaction active =
      let position = position_at change images.event_serial in
      let event : ChangeEvent = record {
        id =
            parts.event_id stream.connector_name stream.database position
              (stream.database ++ codes "." ++ table.schema ++ codes "." ++ table.table)
              images.event_serial;
        source = source_metadata table false;
        position = position;
        transaction = some transaction;
        operation = images.operation;
        before = images.before;
        after = images.after;
        schema = table.event_schema;
        source_time = or_else active change.source_time;
        observed_time = parts.observed_time change;
      } in
      if is_table stream.signal_table (key table)
      then event
      else parts.transform_event stream.database table event

  -- The record of an event, unless a checkpoint is past it.
  unfoldable pub data_record :
      RawChange → CaptureTable → Images → StreamingState → List SourceRecord × StreamingState
  unfolding should_skip transaction_metadata event_of
  data_record change table images s =
      let (metadata, counted) = transaction_metadata parts.hex change table s in
      let event = event_of change table images metadata (active_time counted.transaction) in
      let position = event.position in
      let (skipped, left) = should_skip position counted in
      (
        if skipped
            then []
            else record {
              event = some event;
              position = position;
              boundary = RecordBoundary.data_record;
              connector_state = none;
              signal_acknowledgements = [];
            }
              ∷ [],
        left,
      )
