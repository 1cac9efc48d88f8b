-- ===== src/Postgres/Invariant.antt =====
-- crates/rustium-postgresql/src/incremental_snapshot.rs: what holds of the controller between calls.
pub mod Window
pub mod Sweep
pub mod Stop
pub mod Back
pub mod Prepare
pub mod Handle
pub mod Reach
use rustium.Common.{ℕ, ◌<◌, ◌≡◌, Bool, true, false, Option, none, some, length}
use rustium.Postgres.Controller.{IncrementalSnapshotProgress, Controller}
use rustium.Postgres.Controller.Completed.{IsHistory}

abbrev pub is_set {ℓ} : {A : Type ℓ} → Option A → Bool
is_set none = false
is_set (some a) = true

-- The current collection is one of the snapshot's.
abbrev pub InRange : Option IncrementalSnapshotProgress → Type 0
InRange none = Unit
InRange (some p) = p.current_collection < length p.data_collections

pub record Inv (c : Controller) : Type 0 where
  pub in_range : InRange c.progress
  pub history : IsHistory c.completed_signal_ids
  pub chunk : is_set c.current_chunk_id ≡ is_set c.current_schema
  pub opened : c.window_open ≡ true → is_set c.current_schema ≡ true
  pub watermarks : is_set c.read_only_watermarks ≡ true → is_set c.current_schema ≡ true
