-- ===== src/Tests/Data.antt =====
-- The inputs that the tests share.
use rustium.Common.{ℕ, true, false, none, some, List, [], ◌∷◌, Str, codes}
use rustium.Common.Int.{pos}
use rustium.Core.Error.{Result, ok, err, retryable_sink}
use rustium.Core.Json.{end}
use rustium.Core.Position.{SourcePosition, postgres, my_sql, debezium}
use rustium.Core.Event.{
  ConnectorIdentity, create, int32, Row, SourceMetadata, FieldSchema, EventSchema, ChangeEvent,
  SourceRecord, RecordBoundary, EncodedEvent,
}
use rustium.Runtime.World.{RuntimeConfig, Action, write_failed, returned, Env}

abbrev pub at_lsn : ℕ → ℕ → SourcePosition
at_lsn lsn serial = postgres (record {
  lsn = lsn;
  commit_lsn = some lsn;
  transaction_id = some 7;
  xmin = none;
  event_serial = serial;
  snapshot = false;
})

abbrev pub in_binlog : ℕ → SourcePosition
in_binlog n = my_sql (record {
  binlog_filename = codes "bin.1";
  binlog_position = n;
  gtid_set = none;
  server_id = 1;
  event_serial = 0;
  snapshot = false;
})

abbrev pub in_debezium : Str → ℕ → SourcePosition
in_debezium connector serial = debezium (record {
  connector = connector;
  source = end;
  record_id = codes "r";
  event_serial = serial;
  snapshot = false;
})

abbrev pub id_field : FieldSchema
id_field = record {
  name = codes "id";
  type_name = codes "int4";
  optional = false;
  primary_key = true;
}

abbrev pub orders_schema : EventSchema
orders_schema = record { name = codes "orders"; version = 1; fields = id_field ∷ [] }

abbrev pub orders_source : SourceMetadata
orders_source = record {
  connector = codes "postgresql";
  connector_name = codes "shop";
  database = codes "shop";
  schema = some (codes "public");
  table = some (codes "orders");
  snapshot = false;
  version = codes "0.1";
  attributes = [];
}

abbrev pub order_row : ℕ → Row
order_row n = (codes "id", int32 (pos n)) ∷ []

abbrev pub order_created : ℕ → ℕ → ChangeEvent
order_created lsn n = record {
  id = codes "e";
  source = orders_source;
  position = at_lsn lsn n;
  transaction = none;
  operation = create;
  before = none;
  after = some (order_row n);
  schema = orders_schema;
  source_time = some 1_000;
  observed_time = 1_005;
}

abbrev pub order_record : ℕ → ℕ → RecordBoundary → SourceRecord
order_record lsn n boundary = record {
  event = some (order_created lsn n);
  position = at_lsn lsn n;
  boundary = boundary;
  connector_state = none;
  signal_acknowledgements = n ∷ [];
}

abbrev pub encoded_order : EncodedEvent
encoded_order = record {
  id = codes "e";
  destination = codes "shop.public.orders";
  key = none;
  key_schema = none;
  payload = some (1 ∷ []);
  payload_schema = none;
  headers = [];
}

abbrev pub two_retries : RuntimeConfig
two_retries = record {
  channel_capacity = 8;
  max_batch_size = 4;
  flush_interval = 100;
  shutdown_timeout = 30;
  errors_max_retries = pos 2;
  errors_retry_delay_initial = 300;
  errors_retry_delay_max = 500;
  config_fingerprint = codes "f";
}

abbrev pub shop : ConnectorIdentity
shop = record { name = codes "shop"; generation = 0 }

-- The first write is refused for a while, and the second one goes through.
abbrev pub busy_once : List Action → Result (Unit {0})
busy_once [] = err (retryable_sink "busy")
busy_once (write_failed batch e ∷ t) = ok tt
busy_once (_ ∷ t) = busy_once t

abbrev pub sample_env : Env
sample_env = record {
  source_validate = ok tt;
  sink_validate = λ t. ok tt;
  sink_write = λ t batch. busy_once t;
  sink_flush = λ t. ok tt;
  sink_shutdown = λ t. ok tt;
  store_load = λ t. ok none;
  store_save = λ t checkpoint. ok tt;
  ack_receiver_alive = λ t. true;
  encode_batch = λ event. ok (encoded_order ∷ []);
  cancelled_while_waiting = λ t. false;
  is_cancelled = λ t. false;
  source_exit = λ t. returned (ok tt);
  utc_now = λ t. 1_010;
}
