-- ===== src/Postgres/Stream/Message.antt =====
-- crates/rustium-postgresql/src/source.rs: the record of a logical decoding message.
use rustium.Common.{
  ℕ, ◌%◌, Bool, true, false, ◌==◌, Option, none, some, List, [], ◌∷◌, ◌++◌, if◌then◌else◌, Str,
  codes,
}
use rustium.Common.Assoc.{TableKey}
use rustium.Core.Json.{boolean}
use rustium.Core.Position.{SourcePosition}
use rustium.Core.Event.{
  DataValue, bytes, Operation, FieldSchema, TransactionMetadata, ChangeEvent, SourceRecord,
  RecordBoundary, transaction_commit,
}
use rustium.Postgres.Stream.{StreamingState, id_of, next_serial, should_skip, transaction_metadata}
use rustium.Postgres.Stream.Events.{Parts, Stream, time_of, position_at}

module _ (parts : Parts) (stream : Stream) where
  abbrev message_key : TableKey
  message_key = (codes "", codes "message")

  abbrev or_now : Option ℕ → Option ℕ
  or_now none = some parts.utc_now
  or_now (some t) = some t

  abbrev message_field : Str → Str → Bool → FieldSchema
  message_field name type_name key = record {
    name = name;
    type_name = type_name;
    optional = true;
    primary_key = key;
  }

  unfoldable pub message_event :
      Bool → Str → List ℕ → SourcePosition → ℕ → Option TransactionMetadata → Option ℕ → ChangeEvent
  message_event transactional prefix content position serial transaction source_time = record {
    id =
        parts.event_id stream.connector_name stream.database position
          (stream.database ++ codes ".message") serial;
    source = record {
      connector = codes "postgresql";
      connector_name = stream.connector_name;
      database = stream.database;
      schema = some [];
      table = some [];
      snapshot = false;
      version = parts.connector_version;
      attributes =
          (codes "rustium.logical_decoding_message", boolean true)
          ∷ (codes "transactional", boolean transactional)
          ∷ [];
    };
    position = position;
    transaction = transaction;
    operation = Operation.message;
    before = none;
    after = some ((codes "prefix", DataValue.text prefix) ∷ (codes "content", bytes content) ∷ []);
    schema = record {
      name = stream.connector_name ++ codes ".Message";
      version = 1;
      fields =
          message_field (codes "prefix") (codes "text") true
          ∷ message_field (codes "content") (codes "bytea") false
          ∷ [];
    };
    source_time = or_now source_time;
    observed_time = parts.utc_now;
  }

  abbrev boundary_of : Bool → RecordBoundary
  boundary_of true = RecordBoundary.data_record
  boundary_of false = transaction_commit

  abbrev marked : SourcePosition → RecordBoundary → Option ChangeEvent → SourceRecord
  marked position boundary event = record {
    event = event;
    position = position;
    boundary = boundary;
    connector_state = none;
    signal_acknowledgements = [];
  }

  unfoldable pub logical_decoding_message_record :
      ℕ → ℕ → Str → List ℕ → StreamingState → Option SourceRecord × StreamingState
  unfolding next_serial should_skip transaction_metadata message_event
  logical_decoding_message_record lsn flags prefix content s =
      let transactional = flags % 2 == 1 in
      let (event_serial, numbered) = next_serial lsn s in
      let position =
        position_at lsn (if transactional then none else some lsn)
          (if transactional then id_of s.transaction else none) s.xmin event_serial in
      let (skipped, left) = should_skip position numbered in
      let (metadata, counted) = transaction_metadata message_key left in
      let event =
        message_event transactional prefix content position event_serial metadata
          (time_of counted.transaction) in
      if skipped
      then (none, left)
      else if parts.includes_message_prefix prefix
      then (some (marked position (boundary_of transactional) (some event)), counted)
      else (if transactional then none else some (marked position transaction_commit none), left)
