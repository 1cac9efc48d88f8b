-- ===== src/Core/Position.antt =====
-- crates/rustium-core/src/event.rs: source positions, their sort keys and their order.
pub mod Order
use rustium.Common.{
  ℕ, Bool, true, false, ◌&&◌, ◌||◌, Option, none, some, Str, str_eq, ◌≡◌, ◌↔◌, ℕ_discrete,
}
use rustium.Common.Ord.{Ord, nat_ord, list_ord, pair_ord, gt}
use rustium.Core.Json.{Members, Members-discrete}
use mathlib.Core.Bool.{decide, decide_iff}

pub record PostgresPosition : Type 0 where
  pub lsn : ℕ
  pub commit_lsn : Option ℕ
  pub transaction_id : Option ℕ
  pub xmin : Option ℕ
  pub event_serial : ℕ
  pub snapshot : Bool

pub record MySqlPosition : Type 0 where
  pub binlog_filename : Str
  pub binlog_position : ℕ
  pub gtid_set : Option Str
  pub server_id : ℕ
  pub event_serial : ℕ
  pub snapshot : Bool

pub record SqlServerPosition : Type 0 where
  pub database : Str
  pub commit_lsn : Str
  pub change_lsn : Str
  pub event_serial : ℕ
  pub snapshot : Bool

pub record OraclePosition : Type 0 where
  pub scn : ℕ
  pub commit_scn : Option ℕ
  pub transaction_id : Option Str
  pub rs_id : Option Str
  pub ssn : Option ℕ
  pub event_serial : ℕ
  pub snapshot : Bool

pub record MongoDbPosition : Type 0 where
  pub resume_token : Option Str
  pub cluster_time_seconds : Option ℕ
  pub cluster_time_increment : Option ℕ
  pub event_serial : ℕ
  pub snapshot : Bool

pub record DebeziumPosition : Type 0 where
  pub connector : Str
  pub source : Members
  pub record_id : Str
  pub event_serial : ℕ
  pub snapshot : Bool

pub data SourcePosition : Type 0 where
  postgres : PostgresPosition → SourcePosition
  my_sql : MySqlPosition → SourcePosition
  sql_server : SqlServerPosition → SourcePosition
  oracle : OraclePosition → SourcePosition
  mongo_db : MongoDbPosition → SourcePosition
  debezium : DebeziumPosition → SourcePosition

-- `u8::from(!snapshot)`: the snapshot's events come before the stream's.
abbrev pub streamed : Bool → ℕ
streamed true = 0
streamed false = 1

abbrev pub unwrap_or : Option ℕ → ℕ → ℕ
unwrap_or none d = d
unwrap_or (some n) d = n

unfoldable pub postgres_key : PostgresPosition → ℕ × (ℕ × ℕ)
postgres_key p = (p.lsn, (streamed p.snapshot, p.event_serial))

unfoldable pub my_sql_key : MySqlPosition → Str × (ℕ × (ℕ × ℕ))
my_sql_key p = (p.binlog_filename, (p.binlog_position, (streamed p.snapshot, p.event_serial)))

unfoldable pub sql_server_key : SqlServerPosition → Str × (Str × (Str × (ℕ × ℕ)))
sql_server_key p =
    (p.database, (p.commit_lsn, (p.change_lsn, (streamed p.snapshot, p.event_serial))))

unfoldable pub oracle_key : OraclePosition → ℕ × (ℕ × ℕ)
oracle_key p = (unwrap_or p.commit_scn p.scn, (streamed p.snapshot, p.event_serial))

unfoldable pub mongo_db_key : MongoDbPosition → ℕ × (ℕ × (ℕ × ℕ))
mongo_db_key p = (
  unwrap_or p.cluster_time_seconds 0,
  (unwrap_or p.cluster_time_increment 0, (streamed p.snapshot, p.event_serial)),
)

unfoldable pub debezium_key : DebeziumPosition → ℕ × ℕ
debezium_key p = (streamed p.snapshot, p.event_serial)

-- `==` on positions, as `#[derive(PartialEq)]` gives it.
unfoldable pub SourcePosition-discrete : Discrete SourcePosition
unfolding ℕ_discrete Members-discrete
SourcePosition-discrete = hlevel (ℕ_discrete, Members-discrete)

unfoldable pub eq_position : SourcePosition → SourcePosition → Bool
unfolding SourcePosition-discrete decide
eq_position p q = decide (SourcePosition-discrete p q)

pub eq_position_iff : (p q : SourcePosition) → (eq_position p q ≡ true) ↔ (p ≡ q)
unfolding eq_position
eq_position_iff p q = decide_iff (SourcePosition-discrete p q)

unfoldable pub is_after : SourcePosition → SourcePosition → Bool
unfolding postgres_key my_sql_key sql_server_key oracle_key mongo_db_key debezium_key
is_after (postgres l) (postgres r) = gt (postgres_key l) (postgres_key r)
is_after (my_sql l) (my_sql r) = gt (my_sql_key l) (my_sql_key r)
is_after (sql_server l) (sql_server r) = gt (sql_server_key l) (sql_server_key r)
is_after (oracle l) (oracle r) = gt (oracle_key l) (oracle_key r)
is_after (mongo_db l) (mongo_db r) = gt (mongo_db_key l) (mongo_db_key r)
is_after (debezium l) (debezium r) =
    str_eq l.connector r.connector && gt (debezium_key l) (debezium_key r)
is_after _ _ = false

unfoldable pub is_at_or_before : SourcePosition → SourcePosition → Bool
is_at_or_before p q = eq_position p q || is_after q p
