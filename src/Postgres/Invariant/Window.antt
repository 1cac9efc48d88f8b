-- ===== src/Postgres/Invariant/Window.antt =====
-- crates/rustium-postgresql/src/incremental_snapshot.rs: closing and observing a window under the
-- invariant.
use rustium.Common.{
  ℕ, ◌≡◌, refl, inl, inr, Bool, true, false, Option, none, some, arith, Bool-cases, Option-cases,
  leb, length, if◌then◌else◌, not, ◌&&◌,
}
use rustium.Core.Error.{Result, ok, err}
use rustium.Postgres.Controller.{
  IncrementalSnapshotProgress, ClosedWindow, Controller, ReadOnlyWatermarks, remember_completed,
}
use rustium.Postgres.Controller.Completed.{remembered-IsHistory}
use rustium.Postgres.Window.{
  finish_if_done, advance_progress, closed, close_current_window, some_window, open_from,
  observe_event_with, observe_commit_with, observe_read_only_event, observe_read_only_commit,
}
use rustium.Postgres.Invariant.{is_set, Inv}

finish_if_done-Inv :
    (p : IncrementalSnapshotProgress) (c : Controller) → Inv c → Inv (finish_if_done p c)
unfolding remember_completed
finish_if_done-Inv p c h =
    elim (Bool-cases (leb (length p.data_collections) p.current_collection)) [
      | inl over ↦ rw over (record {
        in_range = tt;
        history = remembered-IsHistory p.signal_id c.completed_signal_ids h.history;
        chunk = h.chunk;
        opened = h.opened;
        watermarks = h.watermarks;
      })
      | inr left ↦ rw left (record {
        in_range = ground arith;
        history = h.history;
        chunk = h.chunk;
        opened = h.opened;
        watermarks = h.watermarks;
      })
    ]

advance_progress-Inv : (c : Controller) → Inv c → Inv (advance_progress c)
unfolding advance_progress
advance_progress-Inv c h = elim (Option-cases c.progress) [
  | inl e ↦ rw (e, advance_progress) h
  | inr (p, e) ↦
      rw (e, advance_progress)
        (finish_if_done-Inv _ _ (record {
          in_range = h.in_range;
          history = h.history;
          chunk = h.chunk;
          opened = h.opened;
          watermarks = h.watermarks;
        }))
]

closed-Inv : (c : Controller) → Inv c → Inv (closed c)
unfolding closed
closed-Inv c h =
    let k = advance_progress-Inv _ (record {
      in_range = h.in_range;
      history = h.history;
      chunk = refl;
      opened = λ e. cc;
      watermarks = λ e. cc;
    }) in
    record {
      in_range = k.in_range;
      history = k.history;
      chunk = k.chunk;
      opened = k.opened;
      watermarks = k.watermarks;
    }

-- A call that succeeds and keeps the invariant.
abbrev pub Keeps {ℓ} : {A : Type ℓ} → Result A × Controller → Type 0
Keeps (ok a, c) = Inv c
Keeps (err e, c) = ⊥

Keeps-some_window : (r : Result ClosedWindow × Controller) → Keeps r → Keeps (some_window r)
Keeps-some_window (ok w, c) k = k
Keeps-some_window (err e, c) k = k

pub close_current_window-Keeps :
    (c : Controller) → Inv c → is_set c.current_schema ≡ true → Keeps (close_current_window c)
unfolding close_current_window
close_current_window-Keeps c h set = elim (Option-cases c.current_schema) [
  | inl e ↦ ground arith
  | inr (schema, e) ↦ rw e (closed-Inv c h)
]

open_from-Inv :
    (xid : ℕ) (w : ReadOnlyWatermarks) (c : Controller)
    → Inv c
    → is_set c.current_schema ≡ true
    → Inv (open_from xid w c)
open_from-Inv xid w c h set = elim (Bool-cases (not c.window_open && leb w.low.xmin xid)) [
  | inl e ↦ rw e (record {
    in_range = h.in_range;
    history = h.history;
    chunk = h.chunk;
    opened = λ _. set;
    watermarks = h.watermarks;
  })
  | inr e ↦ rw e h
]

open_from-schema :
    (xid : ℕ) (w : ReadOnlyWatermarks) (c : Controller)
    → (open_from xid w c).current_schema ≡ c.current_schema
open_from-schema xid w c = elim (Bool-cases (not c.window_open && leb w.low.xmin xid)) [
  | inl e ↦ rw e refl
  | inr e ↦ rw e refl
]

close_if-Keeps :
    (b : Bool) (c : Controller)
    → Inv c
    → is_set c.current_schema ≡ true
    → Keeps (if b then some_window (close_current_window c) else (ok none, c))
close_if-Keeps true c h set =
    Keeps-some_window (close_current_window c) (close_current_window-Keeps c h set)
close_if-Keeps false c h set = h

observe_event_with-Keeps :
    (o : Option ReadOnlyWatermarks) (xid : ℕ) (c : Controller)
    → c.read_only_watermarks ≡ o
    → Inv c
    → Keeps (observe_event_with o xid c)
observe_event_with-Keeps none xid c e h = h
observe_event_with-Keeps (some w) xid c e h =
    let set : is_set c.current_schema ≡ true = h.watermarks (rw e refl) in
    close_if-Keeps _ (open_from xid w c) (open_from-Inv xid w c h set)
      (rw (open_from-schema xid w c) set)

observe_commit_with-Keeps :
    (o : Option ReadOnlyWatermarks) (xid : ℕ) (c : Controller)
    → c.read_only_watermarks ≡ o
    → Inv c
    → Keeps (observe_commit_with o xid c)
observe_commit_with-Keeps none xid c e h = h
observe_commit_with-Keeps (some w) xid c e h = close_if-Keeps _ c h (h.watermarks (rw e refl))

-- Where the controller's invariant holds, observing the transaction of a streamed event never
-- fails, and the invariant holds after it.
pub observe_read_only_event-Keeps :
    (xid : ℕ) (c : Controller) → Inv c → Keeps (observe_read_only_event xid c)
unfolding observe_read_only_event
observe_read_only_event-Keeps xid c h = observe_event_with-Keeps c.read_only_watermarks xid c refl h

-- Where the controller's invariant holds, observing a commit never fails, and the invariant holds
-- after it.
pub observe_read_only_commit-Keeps :
    (xid : ℕ) (c : Controller) → Inv c → Keeps (observe_read_only_commit xid c)
unfolding observe_read_only_commit
observe_read_only_commit-Keeps xid c h =
    observe_commit_with-Keeps c.read_only_watermarks xid c refl h
