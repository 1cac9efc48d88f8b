-- ===== src/Store.antt =====
-- crates/rustium-state/src/lib.rs: `SqliteCheckpointStore`.
--
-- SQLite and `serde_json` are libraries: Store.Sql has the statements, `Serde` the text of a
-- checkpoint, and `SerdeLaws` that it is read back. A path is the state of its file, and a call
-- gives its result and the file that it leaves.
pub mod Sql
pub mod Map
pub mod Refine
pub mod Version
use rustium.Common.{
  ℕ, ◌%◌, ◌^◌, Bool, true, false, Option, none, some, List, [], ◌∷◌, ◌≡◌, ltb, if◌then◌else◌, Str,
  str_eq,
}
use rustium.Core.Error.{Result, ok, err, state, ◌>>=◌}
use rustium.Core.Event.{Checkpoint}
use rustium.Store.Sql.{
  StoredCheckpoint, Column, connector_name, schema_version, payload, updated_at_ms, Statement,
  insert_row, delete_rows, Sqlite,
}

abbrev pub sqlite_storage_schema_version : ℕ
sqlite_storage_schema_version = 1

pub record Serde : Type 0 where
  pub to_string : Checkpoint → Result Str
  pub from_str : Str → Result Checkpoint

pub record SerdeLaws (serde : Serde) : Type 0 where
  pub from_str-to_string :
      (c : Checkpoint) (text : Str) → serde.to_string c ≡ ok text → serde.from_str text ≡ ok c

-- The time of a checkpoint is in milliseconds since the epoch, so it is never before it. The cast to
-- `i64` keeps its low 64 bits, which are written here without a sign.
unfoldable pub row_of : Checkpoint → Str → StoredCheckpoint
row_of checkpoint text = record {
  connector_name = checkpoint.connector_name;
  schema_version = checkpoint.schema_version;
  payload = text;
  updated_at_ms = checkpoint.updated_at % 2 ^ 64;
}

unfoldable pub upsert : StoredCheckpoint → Statement
upsert row = insert_row row (schema_version ∷ payload ∷ updated_at_ms ∷ [])

unfoldable pub delete_from : Str → Statement
delete_from name = delete_rows (some name)

module _ (sqlite : Sqlite) where
  abbrev pub Answer : Type 0
  Answer = Result (Unit {0}) × sqlite.File

  -- An error ends the call with the file as it is then.
  infixl 5 ◌then◌
  abbrev pub ◌then◌ : Answer → (sqlite.File → Answer) → Answer
  ◌then◌ (err e, f) next = (err e, f)
  ◌then◌ (ok _, f) next = next f

  -- A transaction that is not committed is dropped.
  abbrev pub finished : Result (Unit {0}) × sqlite.Transaction → Answer
  finished (err e, t) = (err e, sqlite.dropped t)
  finished (ok _, t) = sqlite.commit t

  module _ (serde : Serde) where
    abbrev pub transposed : Option Str → Result (Option Checkpoint)
    transposed none = ok none
    transposed (some text) = do checkpoint ← serde.from_str text; ok (some checkpoint)

    abbrev pub loaded : Str → Answer → Result (Option Checkpoint)
    loaded name (err e, f) = err e
    loaded name (ok _, f) = sqlite.query_row payload name f >>= transposed

    unfoldable pub load : Str → sqlite.File → Result (Option Checkpoint)
    load name file = loaded name (sqlite.open_connection file)

    unfoldable pub save_text : Checkpoint → Result Str → sqlite.Transaction → Answer
    unfolding row_of upsert
    save_text checkpoint (err e) t = (err e, sqlite.dropped t)
    save_text checkpoint (ok text) t =
        finished (sqlite.execute_in (upsert (row_of checkpoint text)) t)

    unfoldable pub save_in : Checkpoint → Result sqlite.Transaction → sqlite.File → Answer
    unfolding save_text
    save_in checkpoint (err e) file = (err e, file)
    save_in checkpoint (ok t) file = save_text checkpoint (serde.to_string checkpoint) t

    unfoldable pub save : Checkpoint → sqlite.File → Answer
    unfolding save_in
    save checkpoint file =
        sqlite.open_connection file then λ opened. save_in checkpoint (sqlite.begin opened) opened

  unfoldable pub delete : Str → sqlite.File → Answer
  unfolding delete_from
  delete name file =
      sqlite.open_connection file then λ opened. sqlite.execute (delete_from name) opened

  unfoldable pub checked_version : ℕ → Result (Unit {0})
  checked_version storage_version =
      if ltb sqlite_storage_schema_version storage_version
      then err (state "SQLite state schema version is newer than the supported version")
      else ok tt

  unfoldable pub raised : ℕ → sqlite.File → Answer
  raised storage_version file =
      if ltb storage_version sqlite_storage_schema_version
      then sqlite.set_user_version sqlite_storage_schema_version file
      else (ok tt, file)

  unfoldable pub with_version : Result ℕ → sqlite.File → Answer
  unfolding checked_version raised
  with_version (err e) file = (err e, file)
  with_version (ok storage_version) file = (checked_version storage_version, file) then λ checked.
      sqlite.create_checkpoints checked then λ created. raised storage_version created

  unfoldable pub with_parent : Result (Unit {0}) → sqlite.File → Answer
  unfolding with_version
  with_parent (err e) file = (err e, file)
  with_parent (ok _) file =
      sqlite.open_connection file then λ opened. with_version (sqlite.user_version opened) opened

  unfoldable pub initialize : sqlite.File → Answer
  unfolding with_parent
  initialize file = with_parent (sqlite.create_parent file) file
