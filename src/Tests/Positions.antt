-- ===== src/Tests/Positions.antt =====
-- Positions in the write-ahead log, the binlog and the Debezium bridge.
use rustium.Runtime.Consume.{moved_backwards}
use rustium.Common.{Str, none, some, ◌≡◌, refl, true, false, codes, str_eq}
use rustium.Core.Position.{SourcePosition, my_sql, is_after, is_at_or_before, eq_position}
use rustium.Tests.Data.{at_lsn, in_binlog, in_debezium}

later : is_after (at_lsn 30 0) (at_lsn 20 5) ≡ true
unfolding is_after
later = refl

earlier : is_after (at_lsn 20 5) (at_lsn 20 4) ≡ true
unfolding is_after
earlier = refl

before_later : is_at_or_before (at_lsn 20 5) (at_lsn 30 0) ≡ true
unfolding is_at_or_before is_after eq_position
before_later = refl

before_earlier : is_at_or_before (at_lsn 20 4) (at_lsn 20 5) ≡ true
unfolding is_at_or_before is_after eq_position
before_earlier = refl

same_place : is_at_or_before (in_binlog 4) (in_binlog 4) ≡ true
unfolding is_at_or_before is_after eq_position
same_place = refl

-- Positions of two connectors of the bridge are not comparable.
other_connector : is_after (in_debezium (codes "a") 2) (in_debezium (codes "b") 1) ≡ false
unfolding is_after str_eq
other_connector = refl

refused : moved_backwards (some (at_lsn 30 0)) (at_lsn 20 5) ≡ true
unfolding moved_backwards is_after eq_position
refused = refl

abbrev in_file : Str → SourcePosition
in_file name = my_sql (record {
  binlog_filename = name;
  binlog_position = 4;
  gtid_set = none;
  server_id = 1;
  event_serial = 0;
  snapshot = false;
})

-- Names of binary logs compare as text: the one after `bin.999999` comes before it.
next_log : is_after (in_file (codes "bin.1000000")) (in_file (codes "bin.999999")) ≡ false
unfolding is_after
next_log = refl

previous_log : is_after (in_file (codes "bin.999999")) (in_file (codes "bin.1000000")) ≡ true
unfolding is_after
previous_log = refl
