-- ===== src/Tests/Stream.antt =====
-- A PostgreSQL stream that resumes at 10 of a slot at 20, and what the sources share.
use rustium.Common.{
  ℕ, ◌+◌, ◌<◌, Bool, true, false, Option, none, some, List, [], ◌∷◌, ◌≡◌, refl, Str, codes, get,
  arith, min,
}
use rustium.Common.Int.{pos}
use rustium.Core.Error.{ok}
use rustium.Core.Position.{SourcePosition, PostgresPosition, postgres, is_at_or_before}
use rustium.Sources.Resume.{IsOrdered, replay, keep_new, replay-eq-keep_new}
use rustium.Sources.Fill.{fill_unavailable}
use rustium.Sources.Fill.Filled.{completed, get-fill_unavailable}
use rustium.Core.Event.{create}
use rustium.Postgres.Controller.{TableSchema}
use rustium.Postgres.Stream.{StreamingState, new}
use rustium.Postgres.Stream.Events.{Parts, Stream, Change}
use rustium.Postgres.Resume.{Server, trust_slot, ResumeSlotResolution, resolve_resume_slot}
use rustium.Postgres.Resume.Start.{IsContinuous, resolve_resume_slot-IsContinuous}
use rustium.Postgres.Resume.Retry.{RetryPolicy, retry_delay_budget}
use rustium.Postgres.Resume.Retry.Budget.{retry_delay_budget-eq-min}
use rustium.Tests.Data.{at_lsn, id_field, orders_schema, order_row}

abbrev server : Server
server = record {
  connected = ok tt;
  slot = ok (
      some (record {
        plugin = ok (codes "pgoutput");
        wal_status = ok (codes "reserved");
        lsn = ok 20;
      }));
  advance = λ lsn. ok lsn;
}

abbrev checkpoint : PostgresPosition
checkpoint = record {
  lsn = 10;
  commit_lsn = some 10;
  transaction_id = some 7;
  xmin = none;
  event_serial = 1;
  snapshot = false;
}

abbrev from_slot : ResumeSlotResolution
from_slot = record { start_lsn = 20; preserve_checkpoint_position = false }

resolve_resume_slot-IsContinuous_example : IsContinuous checkpoint from_slot
unfolding resolve_resume_slot rustium.Common.str_eq
resolve_resume_slot-IsContinuous_example =
    resolve_resume_slot-IsContinuous server checkpoint trust_slot from_slot refl

abbrev policy : RetryPolicy
policy = record { max_retries = pos 3; initial_delay = 300; max_delay = 500 }

retry_delay_budget-eq-min_example : retry_delay_budget policy ≡ 1_300
unfolding rustium.Runtime.Retry.next_delay
retry_delay_budget-eq-min_example = retry_delay_budget-eq-min policy (omega arith) (omega arith)

abbrev orders : TableSchema
orders = record {
  schema = codes "public";
  table = codes "orders";
  event_schema = orders_schema;
  column_types = [];
  opaque_columns = [];
}

abbrev stream : StreamingState
unfolding new
stream = new [] none false

-- An update that leaves `id` out takes it from the row before.
get-fill_unavailable_example :
    get (codes "id") (fill_unavailable (id_field ∷ []) (some (order_row 7)) [])
    ≡ completed (id_field ∷ []) (some (order_row 7)) (codes "id") none
unfolding rustium.Common.str_eq get
get-fill_unavailable_example =
    get-fill_unavailable (id_field ∷ []) (some (order_row 7)) [] (codes "id")

abbrev itself : SourcePosition → SourcePosition
itself p = p

replay-eq-keep_new_example :
    (replay itself (some (at_lsn 10 2)) (at_lsn 10 1 ∷ at_lsn 10 2 ∷ at_lsn 10 3 ∷ [])).0
    ≡ keep_new itself (some (at_lsn 10 2)) (at_lsn 10 1 ∷ at_lsn 10 2 ∷ at_lsn 10 3 ∷ [])
unfolding IsOrdered is_at_or_before rustium.Core.Position.eq_position rustium.Core.Position.is_after
replay-eq-keep_new_example =
    replay-eq-keep_new itself (some (at_lsn 10 2)) (at_lsn 10 1 ∷ at_lsn 10 2 ∷ at_lsn 10 3 ∷ [])
      ((refl, (refl, tt)), ((refl, tt), (tt, tt)))

abbrev client : Parts
client = record {
  RowData = ℕ;
  convert_row = λ n schema. order_row n;
  event_id = λ name database position collection serial. collection;
  transform_event = λ schema event. event;
  includes = λ schema table. true;
  includes_message_prefix = λ prefix. true;
  utc_now = 1_005;
  connector_version = codes "0.1";
}

abbrev source : Stream
source = record {
  connector_name = codes "shop";
  database = codes "shop";
  signal_data_collection = none;
}

abbrev resumed : StreamingState
unfolding new
resumed = new [] (some (postgres checkpoint)) false

abbrev inserted : Change ℕ
inserted = record {
  relation_oid = 16_384;
  operation = create;
  old_data = none;
  new_data = some 7;
  key_columns = none;
}
