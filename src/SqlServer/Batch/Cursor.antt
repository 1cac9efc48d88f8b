-- ===== src/SqlServer/Batch/Cursor.antt =====
-- crates/rustium-sqlserver/src/source.rs: the cursor that a page leaves, and the rows that the next
-- query selects with it.
pub mod Rows
use rustium.Common.{
  ℕ, ◌<◌, ◌==◌, str_eq_iff, Bool, true, false, not, Option, none, some, List, [], ◌∷◌, ◌++◌, ◌≡◌,
  refl, arith, ◌⊎◌, inl, inr, ap, if◌then◌else◌, str_eq, Bool-cases, subst, sym,
}
use rustium.Common.Int.{ℤ, pos, negsuc}
use rustium.Common.Ord.{
  nat_ord, list_ord, pair_ord, gt, gt_irrefl, gt_asymm, gt_trans, not_gt_trans,
}
use rustium.Core.Error.{Result, ok, err}
use rustium.Core.Error.Returns.{OnOk, holds_any, OnOk-bind}
use rustium.Core.Event.{Row}
use rustium.SqlServer.Lsn.Order.{Triple}
use rustium.SqlServer.Stream.{RawChange, StreamingState, CdcCursor, at_snapshot, CaptureTable}
use rustium.SqlServer.Change.{
  Parts, Stream, Images, cursor_at, images_of, known, capture_in_map, paired, ends_commit,
}
use rustium.SqlServer.Batch.{Step, ◌then◌, after, emit, end_change, process_change, process_changes}
use rustium.SqlServer.Batch.Order.{
  IsPlace, place, number, commit_place, place-commit_place, commit_place-next,
}

abbrev pub cursor_place : CdcCursor → Triple
cursor_place c = (c.commit_lsn, (c.change_lsn, number c.raw_operation))

-- The `WHERE` clause of `change_query`: the rows after the cursor.
unfoldable pub rows_after : CdcCursor → List RawChange → List RawChange
rows_after cursor [] = []
rows_after cursor (change ∷ rest) =
    let later = rows_after cursor rest in
    if gt (place change) (cursor_place cursor) then change ∷ later else later

-- The cursor is at the change, or at the end of its commit where the commit ends there.
abbrev pub IsPast : RawChange → Bool → CdcCursor → Type 0
IsPast change ends cursor =
    (cursor ≡ cursor_at change) ⊎ ((ends ≡ true) × (cursor ≡ at_snapshot change.commit_lsn))

abbrev WaitsAt : RawChange → Option Images × StreamingState → Type 0
WaitsAt change (none, s) = s.cursor ≡ cursor_at change
WaitsAt change (some images, s) = Unit

paired-WaitsAt :
    (waiting : Option Row) (change : RawChange) (s : StreamingState)
    → OnOk (WaitsAt change) (paired waiting change s)
paired-WaitsAt none change s = tt
paired-WaitsAt (some before) change s = tt

images_of-WaitsAt :
    (op : ℤ) (change : RawChange) (s : StreamingState)
    → OnOk (WaitsAt change) (images_of op change s)
unfolding images_of
images_of-WaitsAt (negsuc n) change s = tt
images_of-WaitsAt (pos n) change s = elim (Bool-cases (n == 1)) [
  | inl e ↦ rw e tt
  | inr a ↦ elim (Bool-cases (n == 2)) [
    | inl e ↦ rw (a, e) tt
    | inr b ↦ elim (Bool-cases (n == 3)) [
      | inl e ↦ rw (a, b, e) refl
      | inr c ↦ elim (Bool-cases (n == 4)) [
        | inl e ↦ rw (a, b, c, e) (paired-WaitsAt _ change s)
        | inr d ↦ rw (a, b, c, d) tt
      ]
    ]
  ]
]

module _ (parts : Parts) (stream : Stream) where
  emit-IsPast :
      (table : CaptureTable) (change : RawChange) (ends : Bool) (r : Option Images × StreamingState)
      → WaitsAt change r
      → IsPast change ends (emit parts stream table change ends r).1.cursor
  unfolding emit end_change
  emit-IsPast table change ends (none, s) h = inl h
  emit-IsPast table change true (some images, s) h = inr (refl, refl)
  emit-IsPast table change false (some images, s) h = inl refl

  pub process_change-IsPast :
      (change : RawChange) (ends : Bool) (s : StreamingState)
      → OnOk (λ r. IsPast change ends r.1.cursor) (process_change parts stream change ends s)
  unfolding process_change
  process_change-IsPast change ends s =
      OnOk-bind (λ _. Unit) _
        (known "unknown SQL Server capture instance"
          (capture_in_map change.capture_instance stream.captures))
        _ (holds_any _)
        (λ table _.
          OnOk-bind (WaitsAt change) _ (images_of change.raw_operation change s) _
            (images_of-WaitsAt change.raw_operation change s)
            (λ r w. emit-IsPast table change ends r w))
