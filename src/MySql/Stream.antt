-- ===== src/MySql/Stream.antt =====
-- crates/rustium-mysql/src/source.rs: the state of a running stream, and the records of its events.
--
-- The events are those of the crate `mysql_async`; a row of it is converted by `Parts`, as are the
-- tests of the configuration, the hash of an event's identity, the clock and the transformer.
pub mod Rows
pub mod Order
pub mod Serial
use rustium.Common.{
  ℕ, ◌%◌, Bool, true, false, not, ◌&&◌, ◌||◌, ◌==◌, Option, none, some, List, [], ◌∷◌, ◌++◌,
  if◌then◌else◌, Str, str_eq, codes,
}
use rustium.Common.Assoc.{find, insert, count, add_one, TableKey, same_table}
use rustium.Common.Text.{decimal}
use rustium.Core.Position.{SourcePosition, MySqlPosition, my_sql}
use rustium.Core.Event.{EventSchema, TransactionMetadata, SourceRecord, transaction_commit}
use rustium.Sources.Resume.{skip_resumed}
use rustium.MySql.Query.{QueryKind, begins, rolls_back, commits, other, kind_of}

pub record BinlogCoordinates : Type 0 where
  pub filename : Str
  pub position : ℕ
  pub gtid_set : Option Str
  pub gtid_set_is_complete : Bool
  pub source_server_id : ℕ

pub record ActiveTransaction : Type 0 where
  pub id : Str
  pub source_time : Option ℕ
  pub total_order : ℕ
  pub collection_order : List (TableKey × ℕ)
  pub ignore_dml : Bool

pub record StreamingState : Type 0 where
  pub current_filename : Str
  pub schemas : List (TableKey × EventSchema)
  pub table_anchors : List (ℕ × ℕ)
  pub transaction : Option ActiveTransaction
  pub previous_position : Option (Str × ℕ)
  pub event_serial : ℕ
  pub resume_position : Option SourcePosition

abbrev pub begun : Str → Option ℕ → Bool → ActiveTransaction
begun id source_time ignore_dml = record {
  id = id;
  source_time = source_time;
  total_order = 0;
  collection_order = [];
  ignore_dml = ignore_dml;
}

abbrev resumed : Bool → Option Str → Option ActiveTransaction
resumed true gtid = none
resumed false none = none
resumed false (some gtid) = some (begun gtid none false)

unfoldable pub transaction_from_resume : Option SourcePosition → Option ActiveTransaction
transaction_from_resume (some (my_sql position)) = resumed position.snapshot position.gtid_set
transaction_from_resume _ = none

unfoldable pub binlog_coordinates_from_position : SourcePosition → Option BinlogCoordinates
binlog_coordinates_from_position (my_sql position) = some (record {
  filename = position.binlog_filename;
  position = position.binlog_position;
  gtid_set = position.gtid_set;
  gtid_set_is_complete = position.snapshot;
  source_server_id = position.server_id;
})
binlog_coordinates_from_position _ = none

unfoldable pub new : Str → List (TableKey × EventSchema) → Option SourcePosition → StreamingState
unfolding transaction_from_resume
new current_filename schemas resume_position = record {
  current_filename = current_filename;
  schemas = schemas;
  table_anchors = [];
  transaction = transaction_from_resume resume_position;
  previous_position = none;
  event_serial = 0;
  resume_position = resume_position;
}

unfoldable pub rewind : BinlogCoordinates → Option SourcePosition → StreamingState → StreamingState
unfolding transaction_from_resume
rewind coordinates resume_position s = record s {
  current_filename = coordinates.filename;
  table_anchors = [];
  transaction = transaction_from_resume resume_position;
  previous_position = none;
  event_serial = 0;
  resume_position = resume_position;
}

unfoldable pub rotate : Str → StreamingState → StreamingState
rotate filename s = record s {
  current_filename = filename;
  table_anchors = [];
  previous_position = none;
  event_serial = 0;
}

abbrev pub same_id : ℕ → ℕ → Bool
same_id i j = i == j

unfoldable pub register_table_map : ℕ → ℕ → StreamingState → StreamingState
unfolding insert
register_table_map table_id event_start s = record s {
  table_anchors = insert same_id table_id event_start s.table_anchors;
}

-- The text of a transaction's identity; `sid` is the text of its uuid.
abbrev gtid_of : Str → Option Str → ℕ → Str
gtid_of sid none gno = sid ++ codes ":" ++ decimal gno
gtid_of sid (some tag) gno = sid ++ codes ":" ++ tag ++ codes ":" ++ decimal gno

unfoldable pub begin_gtid : Str → Option Str → ℕ → Option ℕ → Bool → StreamingState → StreamingState
unfolding decimal
begin_gtid sid tag gno source_time ignore_dml s = record s {
  transaction = some (begun (gtid_of sid tag gno) source_time ignore_dml);
}

abbrev pub is_at : Option (Str × ℕ) → Str → ℕ → Bool
is_at none filename position = false
is_at (some (f, p)) filename position = str_eq f filename && p == position

unfoldable pub next_serial : ℕ → StreamingState → ℕ × StreamingState
next_serial position s =
    let serial =
      if is_at s.previous_position s.current_filename position then add_one s.event_serial else 1 in
    (
      serial,
      record s { previous_position = some (s.current_filename, position); event_serial = serial },
    )

unfoldable pub should_skip : SourcePosition → StreamingState → Bool × StreamingState
unfolding skip_resumed
should_skip position s =
    let (skipped, left) = skip_resumed s.resume_position position in
    (skipped, record s { resume_position = left })

unfoldable pub mysql_position : Str → ℕ → Option Str → ℕ → ℕ → Bool → SourcePosition
mysql_position filename position gtid_set server_id event_serial snapshot = my_sql (record {
  binlog_filename = filename;
  binlog_position = position;
  gtid_set = gtid_set;
  server_id = server_id;
  event_serial = event_serial;
  snapshot = snapshot;
})

abbrev pub id_of : Option ActiveTransaction → Option Str
id_of none = none
id_of (some t) = some t.id

abbrev or_fallback : Option Str → Option Str → Option Str
or_fallback none fallback = fallback
or_fallback (some id) fallback = some id

unfoldable pub commit_record :
    ℕ → ℕ → Option Str → StreamingState → Option SourceRecord × StreamingState
unfolding next_serial mysql_position should_skip
commit_record event_start source_server_id fallback_id s =
    let (event_serial, numbered) = next_serial event_start s in
    let position =
      mysql_position s.current_filename event_start (or_fallback (id_of s.transaction) fallback_id)
        source_server_id event_serial false in
    let (skipped, left) = should_skip position (record numbered { transaction = none }) in
    (
      if skipped
          then none
          else some (record {
            event = none;
            position = position;
            boundary = transaction_commit;
            connector_state = none;
            signal_acknowledgements = [];
          }),
      left,
    )

abbrev pub or_time : Option ℕ → Option ℕ → Option ℕ
or_time none time = time
or_time (some t) time = some t

-- `get_or_insert_with`, and the event's time where the transaction has none.
unfoldable pub joined : Option ActiveTransaction → Str → Option ℕ → ActiveTransaction
joined none id source_time = begun id source_time false
joined (some t) id source_time = record t { source_time = or_time t.source_time source_time }

abbrev pub fallback_id : Str → ℕ → Str
fallback_id filename position = filename ++ codes ":" ++ decimal position

abbrev handled :
    QueryKind → ℕ → ℕ → Option ℕ → StreamingState → Option SourceRecord × StreamingState
handled begins event_start source_server_id source_time s = (
  none,
  record s {
    transaction =
        some (joined s.transaction (fallback_id s.current_filename event_start) source_time);
  },
)
handled rolls_back event_start source_server_id source_time s =
    (none, record s { transaction = none })
handled commits event_start source_server_id source_time s =
    commit_record event_start source_server_id none s
handled other event_start source_server_id source_time s = (none, s)

unfoldable pub handle_query :
    Str → ℕ → ℕ → Option ℕ → StreamingState → Option SourceRecord × StreamingState
unfolding kind_of joined commit_record decimal
handle_query query = handled (kind_of query)
