-- ===== src/Postgres/Snapshot.antt =====
-- crates/rustium-postgresql/src/incremental_snapshot.rs: `parse_pg_snapshot`.
pub mod Print
use rustium.Common.{
  ℕ, Bool, true, false, Option, none, some, List, [], ◌∷◌, Str, get_elem?, is_empty, if◌then◌else◌,
}
use rustium.Common.Text.{split, parse_u64}
use rustium.Core.Error.{Error, Result, ok, err, source, ◌>>=◌, ◌>>◌}
use rustium.Postgres.Signal.{or_fail, refuse_if}
use rustium.Postgres.Controller.{PgSnapshot}

unfoldable pub parse_snapshot_xid : Option Str → Result ℕ
parse_snapshot_xid none = err (source "invalid PostgreSQL snapshot: missing")
parse_snapshot_xid (some text) = or_fail (parse_u64 text) (source "invalid PostgreSQL snapshot")

abbrev pub add_xid : Option ℕ → Result (List ℕ) → Result (List ℕ)
add_xid none rest = err (source "invalid PostgreSQL snapshot in-progress xid")
add_xid (some xid) (ok xids) = ok (xid ∷ xids)
add_xid (some xid) (err e) = err e

-- The parts that are not empty, up to the first one that is no number.
unfoldable pub parse_in_progress : List Str → Result (List ℕ)
parse_in_progress [] = ok []
parse_in_progress (part ∷ parts) =
    let rest = parse_in_progress parts in
    if is_empty part then rest else add_xid (parse_u64 part) rest

abbrev pub or_empty : Option Str → Str
or_empty none = []
or_empty (some text) = text

abbrev pub is_present : Option Str → Bool
is_present none = false
is_present (some text) = true

unfoldable pub snapshot_of : List Str → Result PgSnapshot
unfolding parse_snapshot_xid parse_in_progress
snapshot_of parts = do
  xmin ← parse_snapshot_xid (get_elem? parts 0)
  xmax ← parse_snapshot_xid (get_elem? parts 1)
  in_progress ← parse_in_progress (split b',' (or_empty (get_elem? parts 2)))
  refuse_if (is_present (get_elem? parts 3)) (source "invalid PostgreSQL snapshot: too many fields")
  ok (record { xmin = xmin; xmax = xmax; in_progress = in_progress })

unfoldable pub parse_pg_snapshot : Str → Result PgSnapshot
unfolding snapshot_of
parse_pg_snapshot value = snapshot_of (split b':' value)
