-- ===== src/Postgres/Invariant/Stop.antt =====
-- crates/rustium-postgresql/src/incremental_snapshot.rs: `stop_snapshot` under the invariant, and
-- where it spares the collection in hand.
use rustium.Common.{
  ℕ, ◌-◌, ◌<◌, min, ◌≡◌, refl, ap, inl, inr, Bool, true, false, ◌||◌, Option, none, some, List, [],
  ◌∷◌, arith, Bool-cases, length, get_elem?, Str, is_empty,
}
use rustium.Core.Error.{Result, ok, err}
use rustium.Postgres.Controller.{
  IncrementalSnapshotProgress, Controller, remember_completed, clear_current_chunk,
}
use rustium.Postgres.Controller.Completed.{remembered-IsHistory}
use rustium.Postgres.Stop.{
  Regex, compile_patterns, Sweep, sweep, keep_rest, finish_all, swept_to, apply_sweep, stops_with,
  stop_with, stop_from, stop_snapshot,
}
use rustium.Postgres.Invariant.Sweep.{
  unstopped, sweep-retained, sweep-current, length-get_elem?, sweep-removed_current,
  sweep-unremoved,
}
use rustium.Postgres.Invariant.{Inv}

keep_rest-Inv :
    (s : Sweep) (missing : Bool) (p : IncrementalSnapshotProgress) (c : Controller)
    → is_empty s.retained ≡ false
    → Inv c
    → Inv (keep_rest s missing p c)
unfolding keep_rest clear_current_chunk
keep_rest-Inv s missing p c some_left h = elim (Bool-cases (s.removed_current || missing)) [
  | inl e ↦ rw e (record {
    in_range = min-InRange s.retained s.retained_before_current some_left;
    history = h.history;
    chunk = refl;
    opened = λ o. o;
    watermarks = λ o. o;
  })
  | inr e ↦ rw e (record {
    in_range = min-InRange s.retained s.retained_before_current some_left;
    history = h.history;
    chunk = h.chunk;
    opened = h.opened;
    watermarks = h.watermarks;
  })
]
  where
    min-InRange : (xs : List Str) (b : ℕ) → is_empty xs ≡ false → min b (length xs - 1) < length xs
    min-InRange [] b e = ground arith
    min-InRange (x ∷ xs) b e = omega arith

finish_all-Inv : (p : IncrementalSnapshotProgress) (c : Controller) → Inv c → Inv (finish_all p c)
unfolding finish_all clear_current_chunk remember_completed
finish_all-Inv p c h = record {
  in_range = tt;
  history = remembered-IsHistory p.signal_id c.completed_signal_ids h.history;
  chunk = refl;
  opened = λ o. o;
  watermarks = λ o. o;
}

dirty-Inv : (b : Bool) (c : Controller) → Inv c → Inv (record c { state_dirty = b })
dirty-Inv b c h = record {
  in_range = h.in_range;
  history = h.history;
  chunk = h.chunk;
  opened = h.opened;
  watermarks = h.watermarks;
}

apply_sweep-Inv :
    (s : Sweep) (p : IncrementalSnapshotProgress) (c : Controller) → Inv c → Inv (apply_sweep s p c)
unfolding apply_sweep
apply_sweep-Inv s p c h = elim (Bool-cases s.removed) [
  | inl e ↦ elim (Bool-cases (is_empty s.retained)) [
    | inl none_left ↦ rw (e, none_left) (dirty-Inv true _ (finish_all-Inv p c h))
    | inr some_left ↦ rw (e, some_left) (dirty-Inv true _ (keep_rest-Inv s _ p c some_left h))
  ]
  | inr e ↦ rw e h
]

stop_with-Inv :
    (r : Result (List (Str → Bool))) (p : IncrementalSnapshotProgress) (c : Controller)
    → Inv c
    → Inv (stop_with r p c).1
stop_with-Inv (err e) p c h = record {
  in_range = tt;
  history = h.history;
  chunk = h.chunk;
  opened = h.opened;
  watermarks = h.watermarks;
}
stop_with-Inv (ok patterns) p c h = apply_sweep-Inv _ p c h

stop_from-Inv :
    (o : Option IncrementalSnapshotProgress) (r : Result (List (Str → Bool))) (c : Controller)
    → Inv c
    → Inv (stop_from o r c).1
stop_from-Inv none r c h = h
stop_from-Inv (some p) r c h = stop_with-Inv r p c h

-- A stop keeps the controller's invariant, whether it succeeds or its patterns are refused.
pub stop_snapshot-Inv :
    (regex : Regex) (patterns : List Str) (c : Controller)
    → Inv c
    → Inv (stop_snapshot regex patterns c).1
unfolding stop_snapshot
stop_snapshot-Inv regex patterns c h =
    stop_from-Inv c.progress (compile_patterns regex patterns) c h

-- The collections of a snapshot, and the one in hand.
abbrev pub collections_of : Option IncrementalSnapshotProgress → List Str
collections_of none = []
collections_of (some p) = p.data_collections

abbrev pub current_of : Option IncrementalSnapshotProgress → Option Str
current_of none = none
current_of (some p) = get_elem? p.data_collections p.current_collection

-- The chunk of `before` is still in hand in `after`, and the snapshot is at the collection `x`.
pub record GoesOn (x : Str) (stops : Str → Bool) (before after : Controller) : Type 0 where
  pub current : current_of after.progress ≡ some x
  pub collections : collections_of after.progress ≡ unstopped stops (collections_of before.progress)
  pub window : after.window ≡ before.window
  pub schema : after.current_schema ≡ before.current_schema
  pub chunk_id : after.current_chunk_id ≡ before.current_chunk_id
  pub window_open : after.window_open ≡ before.window_open
  pub watermarks : after.read_only_watermarks ≡ before.read_only_watermarks

min-last : (xs : List Str) (b : ℕ) → b < length xs → min b (length xs - 1) ≡ b
min-last xs b h = omega (arith, h)

not_empty : (xs : List Str) (b : ℕ) (x : Str) → get_elem? xs b ≡ some x → is_empty xs ≡ false
not_empty [] b x e = ground arith
not_empty (y ∷ ys) b x e = refl

swept_to-GoesOn :
    (stops : Str → Bool) (s : Sweep) (p : IncrementalSnapshotProgress) (x : Str) (c : Controller)
    → c.progress ≡ some p
    → s.retained ≡ unstopped stops p.data_collections
    → get_elem? s.retained s.retained_before_current ≡ some x
    → s.removed_current ≡ false
    → get_elem? p.data_collections p.current_collection ≡ some x
    → GoesOn x stops c (swept_to s p c)
unfolding keep_rest
swept_to-GoesOn stops s p x c e kept at stays here =
    let left : is_empty s.retained ≡ false = not_empty s.retained _ x at in
    let same : min s.retained_before_current (length s.retained - 1) ≡ s.retained_before_current =
      min-last s.retained _ (length-get_elem? s.retained _ x at) in
    rw (left, stays, here)
      (record {
        current = rw same at;
        collections = rw (e, kept) refl;
        window = refl;
        schema = refl;
        chunk_id = refl;
        window_open = refl;
        watermarks = refl;
      })

apply_sweep-GoesOn :
    (stops : Str → Bool) (p : IncrementalSnapshotProgress) (x : Str) (c : Controller)
    → c.progress ≡ some p
    → get_elem? p.data_collections p.current_collection ≡ some x
    → stops x ≡ false
    → GoesOn x stops c (apply_sweep (sweep stops p.current_collection 0 p.data_collections) p c)
unfolding apply_sweep
apply_sweep-GoesOn stops p x c e here stays =
    let s = sweep stops p.current_collection 0 p.data_collections in
    elim (Bool-cases s.removed) [
      | inl r ↦ rw r (
          swept_to-GoesOn stops s p x c e
            (sweep-retained stops p.current_collection 0 p.data_collections)
            (sweep-current stops p.current_collection 0 p.current_collection p.data_collections x
              (omega arith) here stays)
            (sweep-removed_current stops p.current_collection 0 p.current_collection
              p.data_collections x (omega arith) here stays)
            here)
      | inr r ↦ rw r (record {
        current = rw e here;
        collections =
            rw (e, sweep-unremoved stops p.current_collection 0 p.data_collections r) refl;
        window = refl;
        schema = refl;
        chunk_id = refl;
        window_open = refl;
        watermarks = refl;
      })
    ]

pub stop_snapshot-progress :
    (regex : Regex) (patterns : List Str) (p : IncrementalSnapshotProgress) (c : Controller)
    → c.progress ≡ some p
    → stop_snapshot regex patterns c ≡ stop_with (compile_patterns regex patterns) p c
unfolding stop_snapshot
stop_snapshot-progress regex patterns p c e =
    ap (λ o. stop_from o (compile_patterns regex patterns) c) e

-- A stop whose patterns compile and do not match the collection in hand removes exactly the
-- collections that they match, in order, stays at the collection in hand, and leaves its chunk,
-- window and watermarks as they are.
pub stop_snapshot-GoesOn :
    (regex : Regex) (patterns : List Str) (compiled : List (Str → Bool))
    (p : IncrementalSnapshotProgress) (x : Str) (c : Controller)
    → compile_patterns regex patterns ≡ ok compiled
    → c.progress ≡ some p
    → get_elem? p.data_collections p.current_collection ≡ some x
    → stops_with compiled x ≡ false
    → GoesOn x (stops_with compiled) c (stop_snapshot regex patterns c).1
stop_snapshot-GoesOn regex patterns compiled p x c fine e here stays =
    let k = apply_sweep-GoesOn (stops_with compiled) p x c e here stays in
    rw (stop_snapshot-progress regex patterns p c e, fine) k
