-- ===== src/Postgres/Stream/Convert.antt =====
-- crates/rustium-postgresql/src/source.rs: the records of the events of the stream.
use rustium.Common.{ℕ, Option, none, some, List, [], ◌∷◌, if◌then◌else◌, Str, str_eq}
use rustium.Common.Assoc.{TableKey}
use rustium.Core.Error.{ok}
use rustium.Core.Event.{Operation}
use rustium.Postgres.Controller.{TableSchema}
use rustium.Postgres.Stream.{ActiveTransaction, StreamingState, begun, or_begun, commit_record}
use rustium.Postgres.Stream.Events.{
  WalEventType, begin, insert_row, update_row, delete_row, commit, stream_start, stream_commit,
  stream_abort, rollback_prepared, truncate, message, Parts, Stream,
}
use rustium.Postgres.Stream.Records.{Step, data_record}
use rustium.Postgres.Stream.Message.{logical_decoding_message_record}

module _ (parts : Parts) (stream : Stream) where
  -- `self.schemas.values().find(..)`.
  unfoldable pub table_named : Str → List (TableKey × TableSchema) → Option TableSchema
  table_named name [] = none
  table_named name ((_, schema) ∷ rest) =
      let later = table_named name rest in if str_eq schema.table name then some schema else later

  unfoldable pub truncate_record : ℕ → Option TableSchema → StreamingState → Step
  unfolding data_record
  truncate_record lsn none s = ok (none, s)
  truncate_record lsn (some schema) s =
      data_record parts stream lsn (schema.schema, schema.table)
        (record {
          relation_oid = 0;
          operation = Operation.truncate;
          old_data = none;
          new_data = none;
          key_columns = none;
        })
        s

  abbrev with_transaction : Option ActiveTransaction → StreamingState → StreamingState
  with_transaction t s = record s { transaction = t }

  unfoldable pub convert_event : ℕ → WalEventType parts.RowData → StreamingState → Step
  unfolding data_record commit_record logical_decoding_message_record table_named truncate_record
  convert_event lsn (begin transaction_id commit_timestamp) s =
      ok (none, with_transaction (some (begun transaction_id commit_timestamp)) s)
  convert_event lsn (insert_row schema table relation_oid row) s =
      data_record parts stream lsn (schema, table)
        (record {
          relation_oid = relation_oid;
          operation = Operation.create;
          old_data = none;
          new_data = some row;
          key_columns = none;
        })
        s
  convert_event lsn (update_row schema table relation_oid old_data new_data key_columns) s =
      data_record parts stream lsn (schema, table)
        (record {
          relation_oid = relation_oid;
          operation = Operation.update;
          old_data = old_data;
          new_data = some new_data;
          key_columns = some key_columns;
        })
        s
  convert_event lsn (delete_row schema table relation_oid old_data key_columns) s =
      data_record parts stream lsn (schema, table)
        (record {
          relation_oid = relation_oid;
          operation = Operation.delete;
          old_data = some old_data;
          new_data = none;
          key_columns = some key_columns;
        })
        s
  convert_event lsn (commit commit_lsn end_lsn) s = ok (commit_record commit_lsn end_lsn s)
  convert_event lsn (stream_start transaction_id) s = ok (
    none,
    with_transaction (some (or_begun s.transaction (begun transaction_id parts.utc_now))) s,
  )
  convert_event lsn (stream_commit transaction_id commit_lsn end_lsn commit_timestamp) s = ok (
      commit_record commit_lsn end_lsn (
        with_transaction (some (or_begun s.transaction (begun transaction_id commit_timestamp))) s))
  convert_event lsn stream_abort s = ok (none, with_transaction none s)
  convert_event lsn rollback_prepared s = ok (none, with_transaction none s)
  convert_event lsn (truncate []) s = ok (none, s)
  convert_event lsn (truncate (table ∷ _)) s = truncate_record lsn (table_named table s.schemas) s
  convert_event lsn (message flags prefix content) s =
      ok (logical_decoding_message_record parts stream lsn flags prefix content s)
  convert_event lsn _ s = ok (none, s)

  unfoldable pub convert : ℕ → WalEventType parts.RowData → Option ℕ → StreamingState → Step
  unfolding convert_event
  convert lsn event xmin s = convert_event lsn event (record s { xmin = xmin })
