-- ===== src/Tests/Kafka.antt =====
-- A sink with a cache for two schema ids, whose registry numbers its answers.
use rustium.Common.{
  ℕ, ◌+◌, ◌≡◌, refl, Bool, true, false, Option, none, some, List, [], ◌∷◌, Str, codes, str_eq,
  length, ltb, inl,
}
use rustium.Core.Error.{ok}
use rustium.Core.Event.{WireSchema, avro, EncodedEvent}
use rustium.Cache.{new}
use rustium.Kafka.{Cluster, KafkaSink, write}
use rustium.Kafka.Contract.{client_config, IsDurable, client_config-IsDurable}
use rustium.Kafka.Sent.{Sends, write-Sends}

abbrev cluster : Cluster
cluster = record { post_schema = λ n schema. ok (n + 100); send = λ sent r. ltb (length sent) 2 }

abbrev schema : WireSchema
schema = record { subject = codes "orders-value"; schema_type = avro; definition = codes "{}" }

abbrev event : ℕ → EncodedEvent
event n = record {
  id = codes "e";
  destination = codes "orders";
  key = none;
  key_schema = none;
  payload = some (n ∷ []);
  payload_schema = some schema;
  headers = [];
}

abbrev events : List EncodedEvent
events = event 1 ∷ event 2 ∷ event 3 ∷ []

abbrev start : KafkaSink
start = record { schema_ids = some (new 2); requests = 0; sent = [] }

write-Sends_example : Sends cluster events [] (write cluster events start)
unfolding new rustium.Common.Assoc.find
write-Sends_example = write-Sends cluster events [] start refl (λ s id e. cc)

-- The third record is refused.

two_sent : length (write cluster events start).1.sent ≡ 2
unfolding write new rustium.Common.Assoc.find rustium.Common.Assoc.insert rustium.Cache.put str_eq
two_sent = refl

abbrev settings : List (Str × Str)
settings = (codes "linger.ms", codes "5") ∷ []

abbrev made : List (Str × Str)
made =
    (codes "linger.ms", codes "5")
    ∷ (codes "message.timeout.ms", codes "5000")
    ∷ (codes "enable.idempotence", codes "true")
    ∷ (codes "compression.type", codes "lz4")
    ∷ (codes "acks", codes "all")
    ∷ (codes "bootstrap.servers", codes "b:9092")
    ∷ []

made_by : client_config (codes "b:9092" ∷ []) (codes "all") (codes "lz4") 5_000 settings ≡ ok made
unfolding client_config rustium.Common.Text.decimal str_eq
made_by = refl

client_config-IsDurable_example : IsDurable 5_000 made
client_config-IsDurable_example =
    client_config-IsDurable (codes "b:9092" ∷ []) (codes "all") (codes "lz4") 5_000 settings made
      made_by
