-- ===== src/Formats/Json/Encode.antt =====
-- crates/rustium-format-json/src/lib.rs: `DebeziumJsonEncoder`.
use rustium.Common.{
  ℕ, Bool, true, false, ◌&&◌, Option, none, some, List, [], ◌∷◌, ◌++◌, Str, codes, str_eq, get,
  if◌then◌else◌,
}
use rustium.Core.Json.{
  Json, Members, null, boolean, natural, text, array, object, nil, item, end, member,
}
use rustium.Core.Error.{Result, ok, err, encoding, ◌>>=◌}
use rustium.Core.Position.{
  SourcePosition, postgres, my_sql, sql_server, oracle, mongo_db, debezium, unwrap_or,
}
use rustium.Core.Event.{
  Operation, read, create, update, delete, truncate, message, TransactionMetadata, ChangeEvent,
  EncodedEvent, Row,
}
use rustium.Formats.Json.{JsonCrates, row_to_json, logical_message_to_json, event_key}

pub record JsonEncoderConfig : Type 0 where
  pub topic_prefix : Str
  pub unavailable_value : Str
  pub tombstones_on_delete : Bool
  pub heartbeat_topics_prefix : Str
  pub heartbeat_topic_name : Option Str

abbrev pub is_true : Option Json → Bool
is_true (some (boolean b)) = b
is_true _ = false

unfoldable pub is_heartbeat : ChangeEvent → Bool
unfolding get
is_heartbeat event = is_true (get (codes "rustium.heartbeat") event.source.attributes)

unfoldable pub is_logical_decoding_message : ChangeEvent → Bool
unfolding get
is_logical_decoding_message event =
    is_true (get (codes "rustium.logical_decoding_message") event.source.attributes)

abbrev is_incremental : Option Json → Bool
unfolding str_eq
is_incremental (some (text kind)) = str_eq kind (codes "incremental")
is_incremental _ = false

unfoldable pub snapshot_marker : ChangeEvent → Str
unfolding get is_incremental
snapshot_marker event =
    if is_incremental (get (codes "rustium.snapshot.kind") event.source.attributes)
    then codes "incremental"
    else if event.source.snapshot
    then codes "true"
    else codes "false"

unfoldable pub operation_code : Operation → Str
operation_code read = codes "r"
operation_code create = codes "c"
operation_code update = codes "u"
operation_code delete = codes "d"
operation_code truncate = codes "t"
operation_code message = codes "m"

abbrev text_or_null : Option Str → Json
text_or_null none = null
text_or_null (some s) = text s

abbrev number_or_null : Option ℕ → Json
number_or_null none = null
number_or_null (some n) = natural n

-- The topic: that of the heartbeats, that of the messages, or that of the table.
abbrev pub table_topic : Str → Str → Option Str → Option Str → Result Str
table_topic prefix database schema none = err (encoding "event has no source table")
table_topic prefix database none (some table) =
    ok (prefix ++ codes "." ++ database ++ codes "." ++ table)
table_topic prefix database (some schema) (some table) =
    ok (prefix ++ codes "." ++ database ++ codes "." ++ schema ++ codes "." ++ table)

abbrev or_topic : Option Str → Str → Str
or_topic none topic = topic
or_topic (some name) topic = name

unfoldable pub destination : JsonEncoderConfig → ChangeEvent → Result Str
unfolding is_heartbeat is_logical_decoding_message
destination config event =
    if is_heartbeat event
    then ok (
        or_topic config.heartbeat_topic_name
          (config.heartbeat_topics_prefix ++ codes "." ++ config.topic_prefix))
    else if is_logical_decoding_message event
    then ok (config.topic_prefix ++ codes ".message")
    else table_topic config.topic_prefix event.source.database event.source.schema
        event.source.table

-- `event.after.as_ref().or(event.before.as_ref())`.
abbrev pub key_row : Option Row → Option Row → Option Row
key_row none before = before
key_row (some row) before = some row

module _ (crates : JsonCrates) (config : JsonEncoderConfig) where
  unfoldable pub position_members : SourcePosition → Members
  position_members (postgres p) =
      member (codes "sequence")
        (text (
          crates.to_string (
            array (
              item (text (crates.decimal_text (unwrap_or p.commit_lsn p.lsn)))
                (item (text (crates.decimal_text p.lsn)) nil)))))
        (member (codes "txId") (number_or_null p.transaction_id) (
          member (codes "lsn") (natural p.lsn) (member (codes "xmin") (number_or_null p.xmin) end)))
  position_members (my_sql p) = member (codes "server_id") (natural p.server_id) (
      member (codes "gtid") (text_or_null p.gtid_set) (
        member (codes "file") (text p.binlog_filename) (
          member (codes "pos") (natural p.binlog_position) (
            member (codes "row") (natural p.event_serial)
              (member (codes "thread") null (member (codes "query") null end))))))
  position_members (sql_server p) = member (codes "change_lsn") (text p.change_lsn) (
      member (codes "commit_lsn") (text p.commit_lsn)
        (member (codes "event_serial_no") (natural p.event_serial) end))
  position_members (oracle p) = member (codes "scn") (natural p.scn) (
      member (codes "commit_scn") (number_or_null p.commit_scn) (
        member (codes "txId") (text_or_null p.transaction_id) (
          member (codes "rs_id") (text_or_null p.rs_id) (
            member (codes "ssn") (number_or_null p.ssn)
              (member (codes "event_serial_no") (natural p.event_serial) end)))))
  position_members (mongo_db p) = member (codes "resume_token") (text_or_null p.resume_token) (
      member (codes "cluster_time_seconds") (number_or_null p.cluster_time_seconds) (
        member (codes "cluster_time_increment") (number_or_null p.cluster_time_increment)
          (member (codes "event_serial_no") (natural p.event_serial) end)))
  position_members (debezium p) =
      member (codes "source_offset") (text (crates.to_string (object p.source))) (
        member (codes "record_id") (text p.record_id)
          (member (codes "event_serial_no") (natural p.event_serial) end))

  -- The members that every source has, before those of its position.
  unfoldable pub debezium_source : ChangeEvent → Json
  unfolding position_members snapshot_marker
  debezium_source event = object (
      member (codes "version") (text event.source.version) (
        member (codes "connector") (text event.source.connector) (
          member (codes "name") (text event.source.connector_name) (
            member (codes "ts_ms") (number_or_null event.source_time) (
              member (codes "snapshot") (text (snapshot_marker event)) (
                member (codes "db") (text event.source.database) (
                  member (codes "schema") (text_or_null event.source.schema) (
                    member (codes "table") (text_or_null event.source.table)
                      (position_members event.position)))))))))

  abbrev transaction_json : Option TransactionMetadata → Json
  transaction_json none = null
  transaction_json (some t) = object (
      member (codes "id") (text t.id) (
        member (codes "total_order") (number_or_null t.total_order)
          (member (codes "data_collection_order") (number_or_null t.collection_order) end)))

  abbrev pub row_json : Option Row → Json
  unfolding row_to_json
  row_json none = null
  row_json (some row) = row_to_json crates config.unavailable_value row

  unfoldable pub envelope : ChangeEvent → Json
  unfolding row_json debezium_source operation_code
  envelope event = object (
      member (codes "before") (row_json event.before) (
        member (codes "after") (row_json event.after) (
          member (codes "source") (debezium_source event) (
            member (codes "op") (text (operation_code event.operation)) (
              member (codes "ts_ms") (natural event.observed_time)
                (member (codes "transaction") (transaction_json event.transaction) end))))))

  abbrev pub message_payload : ChangeEvent → Option Row → Result Json
  unfolding debezium_source operation_code logical_message_to_json
  message_payload event none = err (encoding "PostgreSQL logical decoding message has no content")
  message_payload event (some row) = ok (
      object (
        member (codes "source") (debezium_source event) (
          member (codes "op") (text (operation_code event.operation)) (
            member (codes "ts_ms") (natural event.observed_time) (
              member (codes "transaction") (transaction_json event.transaction) (
                member (codes "message")
                  (logical_message_to_json crates config.unavailable_value row) end))))))

  abbrev pub key_bytes : Option Json → Option (List ℕ)
  key_bytes none = none
  key_bytes (some key) = some (crates.to_vec key)

  abbrev pub row_key : ChangeEvent → Option Row → Option (List ℕ)
  unfolding event_key
  row_key event none = none
  row_key event (some row) =
      key_bytes (event_key crates config.unavailable_value row event.schema.fields)

  unfoldable pub record_key : ChangeEvent → Option (List ℕ)
  unfolding is_heartbeat row_key
  record_key event =
      if is_heartbeat event
      then some (
          crates.to_vec
            (object (member (codes "serverName") (text event.source.connector_name) end)))
      else row_key event (key_row event.after event.before)

  -- The headers in the order of their names.
  abbrev pub headers_of : ChangeEvent → List (Str × Str)
  unfolding is_heartbeat is_logical_decoding_message
  headers_of event =
      (codes "rustium.content.type", codes "application/json")
      ∷ (codes "rustium.event.id", event.id)
      ∷ (if is_heartbeat event
          then (codes "rustium.record.type", codes "heartbeat") ∷ []
          else if is_logical_decoding_message event
          then (codes "rustium.record.type", codes "logical-decoding-message") ∷ []
          else [])

  unfoldable pub record_at : ChangeEvent → Json → Str → EncodedEvent
  unfolding record_key headers_of
  record_at event payload topic = record {
    id = event.id;
    destination = topic;
    key = record_key event;
    key_schema = none;
    payload = some (crates.to_vec payload);
    payload_schema = none;
    headers = headers_of event;
  }

  unfoldable pub build_encoded : ChangeEvent → Json → Result EncodedEvent
  unfolding destination record_at
  build_encoded event payload = do
    topic ← destination config event
    ok (record_at event payload topic)

  unfoldable pub encode : ChangeEvent → Result EncodedEvent
  unfolding is_heartbeat is_logical_decoding_message envelope message_payload build_encoded
  encode event =
      if is_heartbeat event
      then build_encoded event (object (member (codes "ts_ms") (natural event.observed_time) end))
      else if is_logical_decoding_message event
      then message_payload event event.after >>= build_encoded event
      else build_encoded event (envelope event)

  abbrev pub is_delete : Operation → Bool
  is_delete delete = true
  is_delete _ = false

  -- The headers with the id of the tombstone and its type last.
  abbrev pub tombstone_headers : Str → List (Str × Str)
  tombstone_headers id =
      (codes "rustium.content.type", codes "application/json")
      ∷ (codes "rustium.event.id", id)
      ∷ (codes "rustium.record.type", codes "tombstone")
      ∷ []

  unfoldable pub tombstone : ChangeEvent → EncodedEvent → EncodedEvent
  tombstone event encoded =
      let id = crates.derived_id event.id (codes "debezium-tombstone") in
      record {
        id = id;
        destination = encoded.destination;
        key = encoded.key;
        key_schema = encoded.key_schema;
        payload = none;
        payload_schema = none;
        headers = tombstone_headers id;
      }

  unfoldable pub with_tombstone : ChangeEvent → EncodedEvent → List EncodedEvent
  unfolding tombstone
  with_tombstone event encoded =
      if is_delete event.operation && config.tombstones_on_delete
      then encoded ∷ tombstone event encoded ∷ []
      else encoded ∷ []

  unfoldable pub encode_batch : ChangeEvent → Result (List EncodedEvent)
  unfolding encode with_tombstone
  encode_batch event = do encoded ← encode event; ok (with_tombstone event encoded)
