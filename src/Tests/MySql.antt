-- ===== src/Tests/MySql.antt =====
-- A rows event of two rows in a transaction, and the offsets of one binary log.
use rustium.Common.{ℕ, true, false, Option, none, some, List, [], ◌∷◌, ◌≡◌, refl, codes, arith}
use rustium.Core.Error.{Result, ok}
use rustium.Core.Event.{create, SourceRecord}
use rustium.MySql.Stream.{ActiveTransaction, StreamingState, new}
use rustium.MySql.Stream.Rows.{Parts, Context, Step, rows_records}
use rustium.MySql.Stream.Order.{orders, within, orders-rows_records}
use rustium.Tests.Data.{orders_schema, order_row}

abbrev parts : Parts
parts = record {
  BinlogRow = ℕ;
  convert_binlog_row = λ n schema before. order_row n;
  event_id = λ name database position collection serial. collection;
  transform_event = λ schema event. event;
  is_business_table = λ database table. true;
  connector_version = codes "0.1";
  utc_now = 1_005;
}

abbrev context : Context
context = record {
  connector_name = codes "shop";
  database = codes "shop";
  table = codes "orders";
  operation = create;
  schema = orders_schema;
  anchor = 120;
  source_server_id = 1;
  source_time = some 1_000;
}

abbrev transaction : ActiveTransaction
transaction = record {
  id = codes "sid:7";
  source_time = none;
  total_order = 3;
  collection_order = [];
  ignore_dml = false;
}

abbrev start : StreamingState
unfolding new
start = new (codes "bin.1") [] none

abbrev two_rows : List (Result (Option ℕ × Option ℕ))
two_rows = ok (none, some 1) ∷ ok (none, some 2) ∷ []

abbrev records_of : Step → List SourceRecord
records_of (Result.err e) = []
records_of (ok (records, s)) = records

orders-rows_records_example :
    orders (records_of (rows_records parts context two_rows (within transaction start)))
    ≡ some 4 ∷ some 5 ∷ []
unfolding rows_records
orders-rows_records_example =
    orders-rows_records parts (λ schema event. refl) context two_rows transaction start _ _
      (omega arith) refl
