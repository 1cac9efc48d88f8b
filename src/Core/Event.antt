-- ===== src/Core/Event.antt =====
-- crates/rustium-core/src/event.rs, traits.rs and signal.rs: the data that flows from a source to
-- a sink. A timestamp is its milliseconds, a uuid its number, and a signal's acknowledgement the
-- identity of its shared cell.
use rustium.Common.{ℕ, Bool, Option, some, Str, List, ◌++◌, codes}
use rustium.Common.Int.{ℤ}
use rustium.Core.Json.{Json}
use rustium.Core.Position.{SourcePosition}

pub record ConnectorStateEnvelope : Type 0 where
  pub format : Str
  pub version : ℕ
  pub payload : Json

-- A nested value: `Array` and `Map` hold values, so the three lists are declared together.
mutual
  pub data DataValue : Type 0 where
    null : DataValue
    boolean : Bool → DataValue
    int32 int64 : ℤ → DataValue
    uint64 float64 : ℕ → DataValue
    decimal text : Str → DataValue
    bytes : List ℕ → DataValue
    date time timestamp : Str → DataValue
    uuid : ℕ → DataValue
    json : Json → DataValue
    array : Values → DataValue
    map : Entries → DataValue
    unavailable : DataValue

  pub data Values : Type 0 where
    nil : Values
    value : DataValue → Values → Values

  pub data Entries : Type 0 where
    end : Entries
    entry : Str → DataValue → Entries → Entries

abbrev pub Row : Type 0
Row = List (Str × DataValue)

pub record ConnectorIdentity : Type 0 where
  pub name : Str
  pub generation : ℕ

pub data Operation : Type 0 where
  read create update delete truncate message : Operation

pub record SourceMetadata : Type 0 where
  pub connector : Str
  pub connector_name : Str
  pub database : Str
  pub schema : Option Str
  pub table : Option Str
  pub snapshot : Bool
  pub version : Str
  pub attributes : List (Str × Json)

-- The collection's name: `database.schema.table`, or the database alone.
unfoldable pub qualified : Str → Option Str → Option Str → Str
qualified database (some schema) (some table) =
    database ++ codes "." ++ schema ++ codes "." ++ table
qualified database _ _ = database

unfoldable pub collection : SourceMetadata → Str
unfolding qualified
collection m = qualified m.database m.schema m.table

pub record TransactionMetadata : Type 0 where
  pub id : Str
  pub total_order : Option ℕ
  pub collection_order : Option ℕ

pub record FieldSchema : Type 0 where
  pub name : Str
  pub type_name : Str
  pub optional : Bool
  pub primary_key : Bool

pub record EventSchema : Type 0 where
  pub name : Str
  pub version : ℕ
  pub fields : List FieldSchema

pub record ChangeEvent : Type 0 where
  pub id : Str
  pub source : SourceMetadata
  pub position : SourcePosition
  pub transaction : Option TransactionMetadata
  pub operation : Operation
  pub before : Option Row
  pub after : Option Row
  pub schema : EventSchema
  pub source_time : Option ℕ
  pub observed_time : ℕ

pub data RecordBoundary : Type 0 where
  data_record transaction_commit snapshot_complete heartbeat : RecordBoundary

pub record SourceRecord : Type 0 where
  pub event : Option ChangeEvent
  pub position : SourcePosition
  pub boundary : RecordBoundary
  pub connector_state : Option ConnectorStateEnvelope
  pub signal_acknowledgements : List ℕ

pub data WireSchemaType : Type 0 where
  avro json protobuf : WireSchemaType

pub record WireSchema : Type 0 where
  pub subject : Str
  pub schema_type : WireSchemaType
  pub definition : Str

pub record EncodedEvent : Type 0 where
  pub id : Str
  pub destination : Str
  pub key : Option (List ℕ)
  pub key_schema : Option WireSchema
  pub payload : Option (List ℕ)
  pub payload_schema : Option WireSchema
  pub headers : List (Str × Str)

pub record DeliveryBatch : Type 0 where
  pub events : List EncodedEvent
  pub highest_position : SourcePosition

abbrev pub checkpoint_schema_version : ℕ
checkpoint_schema_version = 2

pub record Checkpoint : Type 0 where
  pub schema_version : ℕ
  pub connector_name : Str
  pub generation : ℕ
  pub source_position : SourcePosition
  pub snapshot_completed : Bool
  pub config_fingerprint : Str
  pub updated_at : ℕ
  pub connector_state : Option ConnectorStateEnvelope
