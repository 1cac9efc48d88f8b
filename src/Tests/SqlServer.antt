-- ===== src/Tests/SqlServer.antt =====
-- Two commits of one table's change log: an insert and an update, then a delete.
use rustium.Common.{
  ℕ, ◌+◌, ◌-◌, ◌*◌, ◌/◌, ◌%◌, ◌<◌, Bool, true, false, Option, none, some, List, [], ◌∷◌, ◌++◌, map,
  ltb, ◌≡◌, refl, arith, if◌then◌else◌, Str, codes, ap, ◌∙◌,
}
use rustium.Common.Int.{pos}
use rustium.Common.Ord.{nat_ord, list_ord, pair_ord}
use rustium.Core.Error.{Result, ok}
use rustium.Core.Position.{SourcePosition, is_after}
use rustium.Core.Event.{SourceRecord}
use rustium.SqlServer.Lsn.{
  Bytes, IsBytes, Hex, HexLaws, hex_digit, hex_text, format_lsn, sqlserver_position,
}
use rustium.SqlServer.Lsn.Order.{is_after-sqlserver_position}
use rustium.SqlServer.Stream.{CaptureTable, RawChange, StreamingState, new, at_snapshot}
use rustium.SqlServer.Change.{TdsRow, Parts, Stream}
use rustium.SqlServer.Batch.Drain.{Drains, reads-eq-process_changes}
use rustium.SqlServer.Batch.Page.{Answers, Decodes, next_page, read_change_batch-eq-next_page}
use rustium.SqlServer.Batch.{
  Step, take, process_changes, complete_last_commit, read_change_batch, ◌then◌,
}
use rustium.SqlServer.Batch.Paging.{process_changes-append}
use rustium.SqlServer.Batch.Restart.{with_resume, resumed, process_changes-replay}
use rustium.SqlServer.Batch.Cursor.{rows_after}
use rustium.SqlServer.Batch.Cursor.Rows.{IsLog, rows_after-process_changes}
use rustium.SqlServer.Batch.Order.Chain.{Passes}
use rustium.SqlServer.Batch.Order.Process.{IsSorted, process_changes-Passes}
use rustium.Tests.Data.{orders_schema}

abbrev digit_value : ℕ → ℕ
digit_value c = if ltb c 58 then c - 48 else c - 55

abbrev first_byte : ℕ → Option Bytes → Option Bytes
first_byte b none = none
first_byte b (some bytes) = some (b ∷ bytes)

abbrev decoded : Str → Option Bytes
decoded [] = some []
decoded (a ∷ []) = none
decoded (a ∷ b ∷ text) = first_byte (digit_value a * 16 + digit_value b) (decoded text)

abbrev plain_hex : Hex
unfolding hex_text
plain_hex = record { encode_upper = hex_text; decode = decoded }

digit_value-hex_digit : (d : ℕ) → d < 16 → digit_value (hex_digit d) ≡ d
digit_value-hex_digit d h = ground arith

decoded-hex_text : (bytes : Bytes) → IsBytes bytes → decoded (hex_text bytes) ≡ some bytes
unfolding hex_text
decoded-hex_text [] h = refl
decoded-hex_text (b ∷ bytes) (hb, h) =
    rw
      (
        digit_value-hex_digit (b / 16) (omega arith),
        digit_value-hex_digit (b % 16) (omega arith),
        decoded-hex_text bytes h,
      )
      (ap (λ n. some (n ∷ bytes)) (omega arith))

plain_hex-HexLaws : HexLaws plain_hex
unfolding hex_text plain_hex
plain_hex-HexLaws = record { encode-text = λ bytes h. refl; decode-encode = decoded-hex_text }

abbrev lsn : ℕ → Bytes
lsn n = 0 ∷ 0 ∷ 0 ∷ 0 ∷ 0 ∷ 0 ∷ 0 ∷ 0 ∷ 0 ∷ n ∷ []

abbrev change : ℕ → ℕ → ℕ → RawChange
change commit number operation = record {
  commit_lsn = lsn commit;
  change_lsn = lsn number;
  raw_operation = pos operation;
  capture_instance = codes "dbo_orders";
  row = [];
  source_time = some 1_000;
}

abbrev orders : CaptureTable
orders = record {
  schema = codes "dbo";
  table = codes "orders";
  capture_instance = codes "dbo_orders";
  source_object_id = pos 7;
  event_schema = orders_schema;
}

abbrev parts : Parts
unfolding plain_hex
parts = record {
  hex = plain_hex;
  query = λ cursor max_lsn limit. ok [];
  convert_json_row = λ text schema. ok [];
  transform_event = λ database table event. event;
  event_id = λ name database position collection serial. collection;
  observed_time = λ change. 1_005;
  connector_version = codes "0.1";
}

abbrev stream : Stream
stream = record {
  database = codes "shop";
  connector_name = codes "shop";
  captures = orders ∷ [];
  fetch_size = 2;
  signal_table = none;
}

abbrev start : StreamingState
unfolding new
start = new (at_snapshot (lsn 0)) none

abbrev update_rows : List RawChange
update_rows = change 1 2 4 ∷ change 2 1 1 ∷ []

later_commit :
    is_after
      (sqlserver_position plain_hex (codes "d") (lsn 2) (lsn 1) 4 false)
      (sqlserver_position plain_hex (codes "d") (lsn 1) (lsn 255) 5 false)
    ≡ true
later_commit =
    is_after-sqlserver_position plain_hex plain_hex-HexLaws (codes "d") (lsn 2) (lsn 1) (lsn 1)
      (lsn 255) 4 5 (ground arith) (ground arith) (ground arith) (ground arith)

process_changes-append_example :
    process_changes parts stream true (change 1 1 2 ∷ change 1 2 3 ∷ update_rows) start
    ≡ process_changes parts stream
        (complete_last_commit (change 1 1 2 ∷ change 1 2 3 ∷ []) (some (lsn 1)))
        (change 1 1 2 ∷ change 1 2 3 ∷ [])
        start
      then λ t. process_changes parts stream true update_rows t
process_changes-append_example =
    process_changes-append parts stream (change 1 1 2 ∷ change 1 2 3 ∷ []) (change 2 1 1 ∷ [])
      (change 1 2 4) true start

-- The checkpoint of a restart: the update, before the end of its commit.
abbrev checkpoint : Option SourcePosition
unfolding plain_hex sqlserver_position format_lsn hex_text
checkpoint = some (sqlserver_position plain_hex (codes "shop") (lsn 1) (lsn 2) 4 false)

abbrev all_rows : List RawChange
all_rows = change 1 1 2 ∷ change 1 2 3 ∷ update_rows

process_changes-replay_example :
    process_changes parts stream true all_rows (with_resume checkpoint start)
    ≡ resumed checkpoint (process_changes parts stream true all_rows (with_resume none start))
process_changes-replay_example = process_changes-replay parts stream true all_rows checkpoint start

abbrev two_commits : List RawChange
two_commits = change 1 1 2 ∷ change 2 1 1 ∷ []

two_commits-IsLog : IsLog two_commits
unfolding IsLog
two_commits-IsLog = ground arith

two_commits-IsSorted : IsSorted two_commits
unfolding IsSorted
two_commits-IsSorted = ground arith

abbrev records_of : Step → List SourceRecord
records_of (Result.err e) = []
records_of (ok (records, s)) = records

rows_after-process_changes_example :
    rows_after (at_snapshot (lsn 1)) two_commits ≡ change 2 1 1 ∷ []
unfolding process_changes rustium.Common.str_eq complete_last_commit
rows_after-process_changes_example =
    rows_after-process_changes parts stream (change 1 1 2) (change 2 1 1) [] [] start _ _
      two_commits-IsLog refl

process_changes-Passes_example :
    Passes none (records_of (process_changes parts stream true two_commits start))
unfolding process_changes parts rustium.Common.str_eq
process_changes-Passes_example =
    process_changes-Passes parts stream (λ database table event. refl) plain_hex-HexLaws true
      two_commits start _ _ two_commits-IsSorted refl

abbrev row_of : RawChange → TdsRow
row_of c = record {
  commit_lsn = ok (some c.commit_lsn);
  change_lsn = ok (some c.change_lsn);
  operation = ok (some c.raw_operation);
  capture_instance = ok (some c.capture_instance);
  row_data = ok (some []);
  source_time = ok c.source_time;
}

-- A server that answers from the log of two commits.
abbrev log_parts : Parts
log_parts = record parts {
  query = λ cursor max_lsn limit. ok (map row_of (take limit (rows_after cursor two_commits)));
}

two_commits-Answers : Answers log_parts stream row_of (lsn 2) two_commits
two_commits-Answers cursor limit = refl

two_commits-Decodes : Decodes log_parts stream row_of two_commits
unfolding rustium.SqlServer.Change.raw_change rustium.SqlServer.Change.required_binary
    rustium.Common.str_eq parts
two_commits-Decodes = (refl, (refl, (refl, (refl, tt))))

read_change_batch-eq-next_page_example :
    read_change_batch log_parts stream (lsn 2) start
    ≡ next_page log_parts stream row_of two_commits start
unfolding rows_after start
read_change_batch-eq-next_page_example =
    read_change_batch-eq-next_page log_parts stream row_of (lsn 2) two_commits start
      two_commits-Answers two_commits-Decodes (ground arith)

-- Three changes, which take two pages.
abbrev three_changes : List RawChange
three_changes = change 1 1 2 ∷ change 2 1 2 ∷ change 2 2 2 ∷ []

abbrev three_parts : Parts
three_parts = record parts {
  query = λ cursor max_lsn limit. ok (map row_of (take limit (rows_after cursor three_changes)));
}

three_changes-IsLog : IsLog three_changes
unfolding IsLog
three_changes-IsLog = ground arith

three_changes-Decodes : Decodes three_parts stream row_of three_changes
unfolding rustium.SqlServer.Change.raw_change rustium.SqlServer.Change.required_binary
    rustium.Common.str_eq parts
three_changes-Decodes = (refl, (refl, (refl, (refl, (refl, (refl, tt))))))

reads-eq-process_changes_example : Drains three_parts stream (lsn 2) three_changes start
unfolding rows_after start
reads-eq-process_changes_example =
    reads-eq-process_changes three_parts stream row_of (lsn 2) three_changes (ground arith)
      (ground arith) (λ cursor limit. refl) three_changes-IsLog [] (change 1 1 2)
      (change 2 1 2 ∷ change 2 2 2 ∷ []) start refl refl three_changes-Decodes
