-- ===== src/Postgres/Signal.antt =====
-- crates/rustium-postgresql/src/incremental_snapshot.rs: signals and their parsing.
--
-- The JSON text of a signal is read by `serde_json`: `Requests` is that reader, for the two shapes
-- that the code derives.
use rustium.Common.{
  Bool, true, false, not, ◌||◌, Option, none, some, List, [], ◌∷◌, Str, codes, str_eq,
  if◌then◌else◌, is_empty,
}
use rustium.Common.Text.{is_blank, eq_ignore_ascii_case}
use rustium.Core.Error.{Error, Result, ok, err, source, ◌>>=◌, ◌>>◌}

pub record AdditionalCondition : Type 0 where
  pub data_collection : Str
  pub filter : Str

pub data Signal : Type 0 where
  execute : Str → List Str → List AdditionalCondition → Option Str → Signal
  stop : Str → List Str → Signal
  pause resume window_open window_close : Str → Signal
  unsupported : Str → Str → Signal

pub record ExecuteSnapshotData : Type 0 where
  pub snapshot_type : Option Str
  pub data_collections : List Str
  pub additional_conditions : List AdditionalCondition
  pub surrogate_key : Option Str

pub record ControlSnapshotData : Type 0 where
  pub snapshot_type : Option Str
  pub data_collections : List Str

pub record Requests : Type 0 where
  pub execute_data : Str → Option ExecuteSnapshotData
  pub control_data : Str → Option ControlSnapshotData

abbrev pub or_fail : {A : Type 0} → Option A → Error → Result A
or_fail none e = err e
or_fail (some a) e = ok a

abbrev pub refuse_if : Bool → Error → Result (Unit {0})
refuse_if true e = err e
refuse_if false e = ok tt

-- A snapshot type that is given and is not `incremental`.
unfoldable pub is_other_type : Option Str → Bool
is_other_type none = false
is_other_type (some kind) = not (eq_ignore_ascii_case kind (codes "incremental"))

unfoldable pub has_empty_condition : List AdditionalCondition → Bool
has_empty_condition [] = false
has_empty_condition (c ∷ cs) =
    (is_blank c.data_collection || is_blank c.filter) || has_empty_condition cs

abbrev pub keep_nonblank : Option Str → Option Str
keep_nonblank none = none
keep_nonblank (some key) = if is_blank key then none else some key

module _ (requests : Requests) where
  unfoldable pub control_snapshot_data : Str → Result ControlSnapshotData
  unfolding is_other_type
  control_snapshot_data text = do
    request ← or_fail (requests.control_data text) (source "invalid JSON data")
    refuse_if (is_other_type request.snapshot_type) (source "supports only type=incremental")
    ok request

  unfoldable pub execute_signal : Str → Str → Result Signal
  unfolding is_other_type has_empty_condition
  execute_signal id text = do
    request ← or_fail (requests.execute_data text) (source "invalid JSON data")
    refuse_if (is_other_type request.snapshot_type) (source "supports only type=incremental")
    refuse_if (is_empty request.data_collections) (source "no data-collections")
    refuse_if (has_empty_condition request.additional_conditions)
        (source "an empty additional-condition")
    ok (
        execute id request.data_collections request.additional_conditions
          (keep_nonblank request.surrogate_key))

  unfoldable pub parse_signal_fields : Str → Str → Str → Result Signal
  unfolding execute_signal control_snapshot_data
  parse_signal_fields id kind text =
      if str_eq kind (codes "execute-snapshot")
      then execute_signal id text
      else if str_eq kind (codes "stop-snapshot")
      then (do request ← control_snapshot_data text; ok (stop id request.data_collections))
      else if str_eq kind (codes "pause-snapshot")
      then (do request ← control_snapshot_data text; ok (pause id))
      else if str_eq kind (codes "resume-snapshot")
      then (do request ← control_snapshot_data text; ok (resume id))
      else if str_eq kind (codes "snapshot-window-open")
      then ok (window_open id)
      else if str_eq kind (codes "snapshot-window-close")
      then ok (window_close id)
      else ok (unsupported id kind)

  abbrev pub is_window_signal : Signal → Bool
  is_window_signal (window_open id) = true
  is_window_signal (window_close id) = true
  is_window_signal _ = false

  -- A signal from outside the signal table: it cannot emit the controller's own watermarks.
  unfoldable pub parse_external_record : Str → Str → Str → Result Signal
  unfolding parse_signal_fields
  parse_external_record id kind text = do
    refuse_if (is_blank id || is_blank kind) (source "requires non-empty id and type")
    signal ← parse_signal_fields id kind text
    refuse_if (is_window_signal signal) (source "cannot emit internal snapshot watermarks")
    ok signal
