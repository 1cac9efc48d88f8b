-- ===== src/Store/Sql.antt =====
-- crates/rustium-state/src/lib.rs: the statements of the store, and what SQLite documents of them.
--
-- SQLite is a library: `Sqlite` has the calls that the code makes of it, each with the file that it
-- leaves, also where it fails. `SqliteLaws` says, of any statement of these forms, what it does to
-- the rows, that a transaction is seen in the file once it is committed and is rolled back where it
-- is dropped, and that a statement that fails does nothing.
use rustium.Common.{ℕ, Option, none, some, List, [], ◌∷◌, ◌≡◌, if◌then◌else◌, Str, str_eq}
use rustium.Common.Text.{decimal}
use rustium.Core.Error.{Result, ok, err}

-- A row of the table `checkpoints`, of which `connector_name` is the primary key.
pub record StoredCheckpoint : Type 0 where
  pub connector_name : Str
  pub schema_version : ℕ
  pub payload : Str
  pub updated_at_ms : ℕ

pub data Column : Type 0 where
  connector_name schema_version payload updated_at_ms : Column

-- `INSERT .. ON CONFLICT(connector_name) DO UPDATE SET column = excluded.column, ..` of a row and
-- the columns that are set, and `DELETE FROM checkpoints [WHERE connector_name = ..]`.
pub data Statement : Type 0 where
  insert_row : StoredCheckpoint → List Column → Statement
  delete_rows : Option Str → Statement

abbrev pub Rows : Type 0
Rows = Str → Option StoredCheckpoint

abbrev pub set_column : Column → StoredCheckpoint → StoredCheckpoint → StoredCheckpoint
set_column connector_name excluded old = record old { connector_name = excluded.connector_name }
set_column schema_version excluded old = record old { schema_version = excluded.schema_version }
set_column payload excluded old = record old { payload = excluded.payload }
set_column updated_at_ms excluded old = record old { updated_at_ms = excluded.updated_at_ms }

abbrev pub set_columns : List Column → StoredCheckpoint → StoredCheckpoint → StoredCheckpoint
set_columns [] excluded old = old
set_columns (column ∷ columns) excluded old =
    set_columns columns excluded (set_column column excluded old)

abbrev pub upserted : List Column → StoredCheckpoint → Option StoredCheckpoint → StoredCheckpoint
upserted columns row none = row
upserted columns row (some old) = set_columns columns row old

-- The rows after a statement.
abbrev pub effect : Statement → Rows → Rows
effect (insert_row row columns) rows name =
    if str_eq row.connector_name name then some (upserted columns row (rows name)) else rows name
effect (delete_rows none) rows name = none
effect (delete_rows (some key)) rows name = if str_eq key name then none else rows name

abbrev pub text_in : Column → Option StoredCheckpoint → Option Str
text_in column none = none
text_in connector_name (some row) = some row.connector_name
text_in schema_version (some row) = some (decimal row.schema_version)
text_in payload (some row) = some row.payload
text_in updated_at_ms (some row) = some (decimal row.updated_at_ms)

pub record Sqlite : Type 1 where
  pub File : Type 0
  pub Transaction : Type 0
  pub rows : File → Rows
  pub rows_in : Transaction → Rows
  pub create_parent : File → Result (Unit {0})
  pub open_connection : File → Result (Unit {0}) × File
  pub query_row : Column → Str → File → Result (Option Str)
  pub execute : Statement → File → Result (Unit {0}) × File
  pub begin : File → Result Transaction
  pub execute_in : Statement → Transaction → Result (Unit {0}) × Transaction
  pub commit : Transaction → Result (Unit {0}) × File
  pub dropped : Transaction → File
  pub user_version : File → Result ℕ
  pub create_checkpoints : File → Result (Unit {0}) × File
  pub set_user_version : ℕ → File → Result (Unit {0}) × File

-- What holds after a call that returned, and after one that failed.
abbrev pub After : {A : Type 0} → (A → Type 0) → (A → Type 0) → Result (Unit {0}) × A → Type 0
After P Q (ok u, a) = P a
After P Q (err e, a) = Q a

pub record SqliteLaws (sqlite : Sqlite) : Type 0 where
  pub rows-open :
      (f : sqlite.File) (name : Str)
      → sqlite.rows (sqlite.open_connection f).1 name ≡ sqlite.rows f name
  pub text_of_row :
      (column : Column) (name : Str) (f : sqlite.File) (text : Option Str)
      → sqlite.query_row column name f ≡ ok text
      → text ≡ text_in column (sqlite.rows f name)
  pub executed :
      (statement : Statement) (f : sqlite.File) (name : Str)
      → After
          (λ g. sqlite.rows g name ≡ effect statement (sqlite.rows f) name)
          (λ g. sqlite.rows g name ≡ sqlite.rows f name)
          (sqlite.execute statement f)
  pub begun :
      (f : sqlite.File) (t : sqlite.Transaction) (name : Str)
      → sqlite.begin f ≡ ok t
      → (sqlite.rows_in t name ≡ sqlite.rows f name)
        × (sqlite.rows (sqlite.dropped t) name ≡ sqlite.rows f name)
  pub executed_in :
      (statement : Statement) (t : sqlite.Transaction) (name : Str)
      → After
          (λ u. sqlite.rows_in u name ≡ effect statement (sqlite.rows_in t) name)
          (λ u. sqlite.rows_in u name ≡ sqlite.rows_in t name)
          (sqlite.execute_in statement t)
  pub rolled_back :
      (statement : Statement) (t : sqlite.Transaction) (name : Str)
      → sqlite.rows (sqlite.dropped (sqlite.execute_in statement t).1) name
        ≡ sqlite.rows (sqlite.dropped t) name
  pub committed :
      (t : sqlite.Transaction) (name : Str)
      → After
          (λ f. sqlite.rows f name ≡ sqlite.rows_in t name)
          (λ f. sqlite.rows f name ≡ sqlite.rows (sqlite.dropped t) name)
          (sqlite.commit t)
  pub version-open :
      (f : sqlite.File) → sqlite.user_version (sqlite.open_connection f).1 ≡ sqlite.user_version f
  pub version-create :
      (f : sqlite.File)
      → sqlite.user_version (sqlite.create_checkpoints f).1 ≡ sqlite.user_version f
  pub version-set :
      (n : ℕ) (f : sqlite.File)
      → After
          (λ g. sqlite.user_version g ≡ ok n)
          (λ g. sqlite.user_version g ≡ sqlite.user_version f)
          (sqlite.set_user_version n f)
