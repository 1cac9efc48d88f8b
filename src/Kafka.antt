-- ===== src/Kafka.antt =====
-- crates/rustium-sink-kafka/src/lib.rs: `KafkaSink` with its `SchemaRegistryFramer`. The registry and
-- the producer answer a call by the calls before it.
pub mod Contract
pub mod Framed
pub mod Sent
use rustium.Common.{
  ℕ, ◌+◌, Bool, true, false, not, ◌&&◌, ◌||◌, Option, none, some, List, [], ◌∷◌, ◌++◌, Str, codes,
  str_eq, is_empty, ltb, leb, ◌==◌, ◌^◌, ◌-◌, if◌then◌else◌,
}
use rustium.Core.Error.{Result, ok, err, sink, retryable_sink}
use rustium.Core.Event.{WireSchemaType, avro, json, protobuf, WireSchema, EncodedEvent}
use rustium.Cache.{Cache, get_cached, put}
use rustium.Columns.Hash.{be_bytes}

unfoldable pub same_type : WireSchemaType → WireSchemaType → Bool
same_type avro avro = true
same_type json json = true
same_type protobuf protobuf = true
same_type _ _ = false

-- The derived equality of `WireSchema`.
unfoldable pub same_schema : WireSchema → WireSchema → Bool
unfolding same_type
same_schema s t =
    str_eq s.subject t.subject
    && same_type s.schema_type t.schema_type
    && str_eq s.definition t.definition

pub record KafkaRecord : Type 0 where
  pub topic : Str
  pub key : Option (List ℕ)
  pub payload : Option (List ℕ)
  pub headers : List (Str × Str)

-- The id that the registry gives to a schema at its n-th call, and what the producer answers to a
-- record after those that were sent: `post_schema` says whether an error is retriable.
pub record Cluster : Type 0 where
  pub post_schema : ℕ → WireSchema → Result ℕ
  pub send : List KafkaRecord → KafkaRecord → Bool

pub record KafkaSink : Type 0 where
  pub schema_ids : Option (Cache WireSchema ℕ)
  pub requests : ℕ
  pub sent : List KafkaRecord

unfoldable pub confluent_frame : ℕ → List ℕ → List ℕ
unfolding be_bytes
confluent_frame schema_id value = 0 ∷ be_bytes 4 schema_id ++ value

module _ (cluster : Cluster) where
  unfoldable pub after_post :
      List ℕ → WireSchema → Cache WireSchema ℕ → Result ℕ → KafkaSink → Result (List ℕ) × KafkaSink
  unfolding put same_schema confluent_frame
  after_post value schema ids (err e) s = (err e, s)
  after_post value schema ids (ok id) s = (
    ok (confluent_frame id value),
    record s { schema_ids = some (put same_schema schema id ids) },
  )

  unfoldable pub register :
      List ℕ → WireSchema → Option ℕ × Cache WireSchema ℕ → KafkaSink → Result (List ℕ) × KafkaSink
  unfolding after_post confluent_frame
  register value schema (some id, ids) s =
      (ok (confluent_frame id value), record s { schema_ids = some ids })
  register value schema (none, ids) s =
      after_post value schema ids (cluster.post_schema s.requests schema)
        (record s { requests = s.requests + 1 })

  -- `SchemaRegistryFramer::frame`.
  unfoldable pub frame :
      List ℕ → WireSchema → Cache WireSchema ℕ → KafkaSink → Result (List ℕ) × KafkaSink
  unfolding register get_cached same_schema
  frame value schema ids s = register value schema (get_cached same_schema schema ids) s

  abbrev pub framed : Result (List ℕ) × KafkaSink → Result (Option (List ℕ)) × KafkaSink
  framed (err e, s) = (err e, s)
  framed (ok bytes, s) = (ok (some bytes), s)

  abbrev pub required_registry :
      List ℕ
      → WireSchema
      → Option (Cache WireSchema ℕ)
      → KafkaSink
      → Result (Option (List ℕ)) × KafkaSink
  unfolding frame
  required_registry value schema none s =
      (err (sink "Kafka component requires Schema Registry settings"), s)
  required_registry value schema (some ids) s = framed (frame value schema ids s)

  unfoldable pub frame_component :
      Option (List ℕ) → Option WireSchema → KafkaSink → Result (Option (List ℕ)) × KafkaSink
  unfolding frame
  frame_component none schema s = (ok none, s)
  frame_component (some value) none s = (ok (some value), s)
  frame_component (some value) (some schema) s = required_registry value schema s.schema_ids s

  infixl 5 ◌then◌
  abbrev pub ◌then◌ :
      {A B : Type 0}
      → Result A × KafkaSink
      → (A → KafkaSink → Result B × KafkaSink)
      → Result B × KafkaSink
  ◌then◌ (err e, s) next = (err e, s)
  ◌then◌ (ok a, s) next = next a s

  unfoldable pub send_record : KafkaRecord → KafkaSink → Result (Unit {0}) × KafkaSink
  send_record r s =
      if cluster.send s.sent r
      then (ok tt, record s { sent = s.sent ++ (r ∷ []) })
      else (err (retryable_sink "Kafka delivery failed"), s)

  abbrev pub record_of : EncodedEvent → Option (List ℕ) → Option (List ℕ) → KafkaRecord
  record_of event key payload = record {
    topic = event.destination;
    key = key;
    payload = payload;
    headers = event.headers;
  }

  unfoldable pub write_event : EncodedEvent → KafkaSink → Result (Unit {0}) × KafkaSink
  unfolding frame_component send_record
  write_event event s = frame_component event.key event.key_schema s then λ key t.
      frame_component event.payload event.payload_schema t then λ payload u.
      send_record (record_of event key payload) u

  -- `Sink::write`.
  unfoldable pub write : List EncodedEvent → KafkaSink → Result (Unit {0}) × KafkaSink
  unfolding write_event
  write [] s = (ok tt, s)
  write (event ∷ events) s = write_event event s then λ _ t. write events t
