-- ===== src/Postgres/Invariant/Back.antt =====
-- crates/rustium-postgresql/src/incremental_snapshot.rs: where a stop of the collection in hand and
-- of all later ones leaves the snapshot.
use rustium.Common.{
  ◌-◌, min, ◌≡◌, refl, ap, ◌∙◌, inl, inr, Bool, true, false, ◌||◌, some, List, [], ◌∷◌, ◌++◌, Str,
  arith, Bool-cases, length, length-append, get_elem?, is_empty,
}
use rustium.Core.Error.{ok}
use rustium.Postgres.Controller.{IncrementalSnapshotProgress, Controller}
use rustium.Postgres.Stop.{
  Regex, compile_patterns, Sweep, sweep, keep_rest, apply_sweep, stops_with, stop_snapshot,
  is_missing,
}
use rustium.Postgres.Invariant.Stop.{current_of, stop_snapshot-progress}
use rustium.Postgres.Invariant.Sweep.{
  unstopped, unstopped-append, sweep-retained, sweep-before, sweep-removed,
}

current-keep_rest :
    (s : Sweep) (missing : Bool) (p : IncrementalSnapshotProgress) (c : Controller)
    → current_of (keep_rest s missing p c).progress
      ≡ get_elem? s.retained (min s.retained_before_current (length s.retained - 1))
unfolding keep_rest
current-keep_rest s missing p c = elim (Bool-cases (s.removed_current || missing)) [
  | inl e ↦ rw e refl
  | inr e ↦ rw e refl
]

current-apply_sweep :
    (s : Sweep) (p : IncrementalSnapshotProgress) (c : Controller)
    → s.removed ≡ true
    → is_empty s.retained ≡ false
    → current_of (apply_sweep s p c).progress
      ≡ get_elem? s.retained (min s.retained_before_current (length s.retained - 1))
unfolding apply_sweep
current-apply_sweep s p c removed left =
    rw (removed, left)
      (current-keep_rest s (is_missing (get_elem? p.data_collections p.current_collection)) p c)

is_empty-last : (xs : List Str) (y : Str) → is_empty (xs ++ y ∷ []) ≡ false
is_empty-last [] y = refl
is_empty-last (x ∷ xs) y = refl

get_elem?-last : (xs : List Str) (y : Str) → get_elem? (xs ++ y ∷ []) (length xs) ≡ some y
get_elem?-last [] y = refl
get_elem?-last (x ∷ xs) y = get_elem?-last xs y

append-empty : (xs : List Str) → xs ++ [] ≡ xs
append-empty [] = refl
append-empty (x ∷ xs) = rw (append-empty xs) refl

module _ (stops : Str → Bool) (before after kept : List Str) (x y : Str) (here : stops x ≡ true)
    (rest : unstopped stops after ≡ []) (earlier : unstopped stops before ≡ kept ++ y ∷ []) where
  unstopped-all : unstopped stops (before ++ x ∷ after) ≡ kept ++ y ∷ []
  unstopped-all =
      unstopped-append stops before (x ∷ after)
      ∙ rw (here, rest) (append-empty (unstopped stops before) ∙ earlier)

  current-sweep :
      (p : IncrementalSnapshotProgress) (c : Controller)
      → current_of (apply_sweep (sweep stops (length before) 0 (before ++ x ∷ after)) p c).progress
        ≡ some y
  current-sweep p c =
      let s = sweep stops (length before) 0 (before ++ x ∷ after) in
      let kept_all : s.retained ≡ kept ++ y ∷ [] =
        sweep-retained stops (length before) 0 (before ++ x ∷ after) ∙ unstopped-all in
      let count : s.retained_before_current ≡ length (kept ++ y ∷ []) =
        sweep-before stops (length before) 0 before (x ∷ after) (omega arith)
        ∙ ap (λ xs. length xs) earlier in
      let last : min (length (kept ++ y ∷ [])) (length (kept ++ y ∷ []) - 1) ≡ length kept =
        omega (arith, length-append kept (y ∷ [])) in
      current-apply_sweep s p c (sweep-removed stops (length before) 0 before x after here)
        (ap (λ xs. is_empty xs) kept_all ∙ is_empty-last kept y)
      ∙ rw (kept_all, count, last) (get_elem?-last kept y)

-- A stop whose patterns compile and match the collection in hand and all later ones, but not all
-- earlier ones, goes back to the last earlier collection that is kept.
pub current-stop_snapshot :
    (regex : Regex) (patterns : List Str) (compiled : List (Str → Bool))
    (p : IncrementalSnapshotProgress) (c : Controller) (before after kept : List Str) (x y : Str)
    → compile_patterns regex patterns ≡ ok compiled
    → c.progress ≡ some p
    → p.data_collections ≡ before ++ x ∷ after
    → p.current_collection ≡ length before
    → stops_with compiled x ≡ true
    → unstopped (stops_with compiled) after ≡ []
    → unstopped (stops_with compiled) before ≡ kept ++ y ∷ []
    → current_of (stop_snapshot regex patterns c).1.progress ≡ some y
current-stop_snapshot regex patterns compiled p c before after kept x y fine e all at here rest
      earlier =
    rw (stop_snapshot-progress regex patterns p c e, fine, all, at)
      (current-sweep (stops_with compiled) before after kept x y here rest earlier _ c)
