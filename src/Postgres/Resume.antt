-- ===== src/Postgres/Resume.antt =====
-- crates/rustium-postgresql/src/source.rs: where a stream resumes, on the replication slot of a checkpoint.
pub mod Retry
pub mod Start
use rustium.Common.{
  ℕ, Bool, true, false, not, ◌&&◌, ◌||◌, ◌==◌, ltb, if◌then◌else◌, Option, none, some, String, Str,
  str_eq, codes,
}
use rustium.Core.Error.{Result, ok, err, state, ◌>>=◌}
use rustium.Core.Position.{PostgresPosition, unwrap_or}

pub data OffsetMismatchStrategy : Type 0 where
  no_validation trust_offset trust_greater_lsn trust_slot : OffsetMismatchStrategy

pub data ResumeSlotDecision : Type 0 where
  use_checkpoint advance_slot use_slot : ResumeSlotDecision

abbrev pub is_no_validation : OffsetMismatchStrategy → Bool
is_no_validation no_validation = true
is_no_validation _ = false

-- The checkpoint is ahead of the slot, and the slot ahead of the checkpoint.
abbrev pub checkpoint_ahead : OffsetMismatchStrategy → Result ResumeSlotDecision
checkpoint_ahead trust_slot = ok use_checkpoint
checkpoint_ahead _ = ok advance_slot

abbrev pub slot_ahead : OffsetMismatchStrategy → Result ResumeSlotDecision
slot_ahead trust_offset = err (state "PostgreSQL replication slot is ahead of the checkpoint")
slot_ahead _ = ok use_slot

unfoldable pub resume_slot_decision : ℕ → ℕ → OffsetMismatchStrategy → Result ResumeSlotDecision
resume_slot_decision checkpoint_lsn slot_lsn strategy =
    if checkpoint_lsn == slot_lsn || is_no_validation strategy
    then ok use_checkpoint
    else if ltb slot_lsn checkpoint_lsn
    then checkpoint_ahead strategy
    else slot_ahead strategy

-- The slot as the catalog has it: each column's text, and its log sequence number.
pub record Slot : Type 0 where
  pub plugin : Result Str
  pub wal_status : Result Str
  pub lsn : Result ℕ

-- The server: a connection, the slot of the name if there is one, and where the slot is after it
-- was advanced to a log sequence number.
pub record Server : Type 0 where
  pub connected : Result (Unit {0})
  pub slot : Result (Option Slot)
  pub advance : ℕ → Result ℕ

pub record ResumeSlotResolution : Type 0 where
  pub start_lsn : ℕ
  pub preserve_checkpoint_position : Bool

abbrev pub or_missing : Option Slot → Result Slot
or_missing none = err (state "PostgreSQL replication slot is missing")
or_missing (some slot) = ok slot

abbrev pub is_some : Option ℕ → Bool
is_some none = false
is_some (some n) = true

abbrev pub refuse_if : Bool → String → Result (Unit {0})
refuse_if true message = err (state message)
refuse_if false message = ok tt

abbrev pub checkpoint_lsn_of : PostgresPosition → ℕ
checkpoint_lsn_of checkpoint = unwrap_or checkpoint.commit_lsn checkpoint.lsn

abbrev resolution : ℕ → Bool → ResumeSlotResolution
resolution lsn preserve = record { start_lsn = lsn; preserve_checkpoint_position = preserve }

abbrev pub after_advance : PostgresPosition → ℕ → ResumeSlotResolution
after_advance checkpoint advanced_lsn =
    if advanced_lsn == checkpoint_lsn_of checkpoint
    then resolution checkpoint.lsn true
    else resolution advanced_lsn false

unfoldable pub resolve :
    Server → PostgresPosition → ℕ → ResumeSlotDecision → Result ResumeSlotResolution
resolve server checkpoint slot_lsn use_checkpoint = ok (resolution checkpoint.lsn true)
resolve server checkpoint slot_lsn use_slot = ok (resolution slot_lsn false)
resolve server checkpoint slot_lsn advance_slot = do
  let target = checkpoint_lsn_of checkpoint
  _ ←
      refuse_if (is_some checkpoint.transaction_id && not (is_some checkpoint.commit_lsn))
        "PostgreSQL checkpoint is inside a transaction; cannot safely advance the slot"
  advanced_lsn ← server.advance target
  _ ←
      refuse_if (ltb advanced_lsn target)
        "PostgreSQL replication slot advanced only to a position before the checkpoint"
  ok (after_advance checkpoint advanced_lsn)

unfoldable pub resolve_resume_slot :
    Server → OffsetMismatchStrategy → PostgresPosition → Result ResumeSlotResolution
unfolding resume_slot_decision resolve
resolve_resume_slot server strategy checkpoint = do
  _ ← server.connected
  found ← server.slot
  slot ← or_missing found
  plugin ← slot.plugin
  _ ←
      refuse_if (not (str_eq plugin (codes "pgoutput")))
        "PostgreSQL replication slot uses another plugin"
  wal_status ← slot.wal_status
  _ ←
      refuse_if (str_eq wal_status (codes "unreserved") || str_eq wal_status (codes "lost"))
        "PostgreSQL replication slot may have lost required WAL"
  slot_lsn ← slot.lsn
  decision ← resume_slot_decision (checkpoint_lsn_of checkpoint) slot_lsn strategy
  resolve server checkpoint slot_lsn decision
