-- ===== src/SqlServer/Stream.antt =====
-- crates/rustium-sqlserver/src/source.rs: the cursor and the state of a running stream.
use rustium.Common.{
  ℕ, Bool, false, ◌&&◌, ◌||◌, Option, none, some, List, [], ◌==◌, if◌then◌else◌, Str, str_eq,
}
use rustium.Common.Int.{ℤ, pos, negsuc}
use rustium.Common.Assoc.{find, insert, count, add_one, TableKey, same_table}
use rustium.Core.Error.{Result, ok, ◌>>=◌}
use rustium.Core.Position.{SourcePosition, SqlServerPosition, sql_server}
use rustium.Core.Event.{Row, EventSchema, TransactionMetadata, SourceRecord, transaction_commit}
use rustium.Sources.Resume.{skip_resumed}
use rustium.SqlServer.Lsn.{
  Bytes, Hex, zero_lsn_bytes, max_lsn_bytes, parse_lsn, format_lsn, sqlserver_position,
}

abbrev pub commit_serial : ℕ
commit_serial = 5

pub record CaptureTable : Type 0 where
  pub schema : Str
  pub table : Str
  pub capture_instance : Str
  pub source_object_id : ℤ
  pub event_schema : EventSchema

abbrev pub key : CaptureTable → TableKey
key c = (c.schema, c.table)

pub record CdcCursor : Type 0 where
  pub commit_lsn : Bytes
  pub change_lsn : Bytes
  pub raw_operation : ℤ

abbrev pub at_snapshot : Bytes → CdcCursor
at_snapshot commit_lsn = record {
  commit_lsn = commit_lsn;
  change_lsn = max_lsn_bytes;
  raw_operation = pos commit_serial;
}

abbrev is_commit : ℤ → Bool
is_commit (pos n) = n == commit_serial
is_commit (negsuc n) = false

unfoldable pub commit_complete : CdcCursor → Bool
commit_complete c = is_commit c.raw_operation && str_eq c.change_lsn max_lsn_bytes

pub record RawChange : Type 0 where
  pub commit_lsn : Bytes
  pub change_lsn : Bytes
  pub raw_operation : ℤ
  pub capture_instance : Str
  pub row : Row
  pub source_time : Option ℕ

pub record ActiveTransaction : Type 0 where
  pub commit_lsn : Bytes
  pub source_time : Option ℕ
  pub total_order : ℕ
  pub collection_order : List (TableKey × ℕ)

-- The change that an update belongs to: its commit, its number and its capture instance.
abbrev pub UpdateKey : Type 0
UpdateKey = Bytes × (Bytes × Str)

unfoldable pub same_update : UpdateKey → UpdateKey → Bool
same_update (c, (h, i)) (d, (k, j)) = str_eq c d && (str_eq h k && str_eq i j)

pub record StreamingState : Type 0 where
  pub cursor : CdcCursor
  pub transaction : Option ActiveTransaction
  pub pending_updates : List (UpdateKey × Row)
  pub resume_position : Option SourcePosition

unfoldable pub new : CdcCursor → Option SourcePosition → StreamingState
new cursor resume_position = record {
  cursor = cursor;
  transaction = none;
  pending_updates = [];
  resume_position = resume_position;
}

unfoldable pub should_skip : SourcePosition → StreamingState → Bool × StreamingState
unfolding skip_resumed
should_skip position s =
    let (skipped, left) = skip_resumed s.resume_position position in
    (skipped, record s { resume_position = left })

abbrev begun : RawChange → ActiveTransaction
begun change = record {
  commit_lsn = change.commit_lsn;
  source_time = change.source_time;
  total_order = 0;
  collection_order = [];
}

-- The transaction of the change: the active one, unless that is of another commit.
unfoldable pub transaction_for : Option ActiveTransaction → RawChange → ActiveTransaction
transaction_for none change = begun change
transaction_for (some t) change = if str_eq t.commit_lsn change.commit_lsn then t else begun change

abbrev pub counted : TableKey → ActiveTransaction → ActiveTransaction
counted k t = record t {
  total_order = add_one t.total_order;
  collection_order = count same_table k t.collection_order;
}

module _ (hex : Hex) where
  unfoldable pub from_position :
      SqlServerPosition → Bool → Result (CdcCursor × Option SourcePosition)
  unfolding parse_lsn
  from_position position connector_state_boundary =
      if position.snapshot || position.event_serial == commit_serial || connector_state_boundary
      then (do commit_lsn ← parse_lsn hex position.commit_lsn; ok (at_snapshot commit_lsn, none))
      else (do
        commit_lsn ← parse_lsn hex position.commit_lsn
        ok (
          record { commit_lsn = commit_lsn; change_lsn = zero_lsn_bytes; raw_operation = pos 0 },
          some (sql_server position),
        ))

  unfoldable pub transaction_metadata :
      RawChange → CaptureTable → StreamingState → TransactionMetadata × StreamingState
  unfolding transaction_for find insert same_table format_lsn
  transaction_metadata change table s =
      let t = counted (key table) (transaction_for s.transaction change) in
      (
        record {
          id = format_lsn hex change.commit_lsn;
          total_order = some t.total_order;
          collection_order = find same_table (key table) t.collection_order;
        },
        record s { transaction = some t },
      )

  abbrev pub commit_of : Str → Bytes → SourceRecord
  commit_of database commit_lsn = record {
    event = none;
    position = sqlserver_position hex database commit_lsn max_lsn_bytes commit_serial false;
    boundary = transaction_commit;
    connector_state = none;
    signal_acknowledgements = [];
  }

  unfoldable pub commit_record : Str → Bytes → StreamingState → Option SourceRecord × StreamingState
  unfolding should_skip
  commit_record database commit_lsn s =
      let made = commit_of database commit_lsn in
      let (skipped, left) = should_skip made.position (record s { transaction = none }) in
      (if skipped then none else some made, left)

  unfoldable pub safe_position : Str → StreamingState → SourcePosition
  safe_position database s =
      sqlserver_position hex database s.cursor.commit_lsn s.cursor.change_lsn commit_serial false
