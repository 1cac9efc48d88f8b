-- ===== src/Runtime/Durable/Flush.antt =====
-- crates/rustium-core/src/runtime.rs: `flush_batch` as the trace shows it.
use rustium.Common.{
  ℕ, ◌≡◌, refl, inl, inr, true, none, some, List, [], ◌∷◌, ◌++◌, append-nil, arith, Bool-cases,
  Option-cases, length, is_empty,
}
use rustium.Core.Error.{cancelled}
use rustium.Core.Position.{SourcePosition}
use rustium.Core.Event.{ConnectorIdentity}
use rustium.Runtime.World.{RuntimeConfig, Env, World, Outcome, done, fail, out_of_fuel}
use rustium.Runtime.Ends.{Ends, EndsAs, returns, Ends-bind, Ends-mono}
use rustium.Runtime.Flush.{
  was_acknowledged, acknowledge, acknowledge_all, after_write, deliver, save_checkpoint, send_ack,
  finish_flush, flush_at, flush_batch, increment_failed_events,
}
use rustium.Runtime.Durable.{
  consumed, delivered, last_received, last_saved, IsDurable, Inv, Flushed,
}
use rustium.Runtime.Durable.Write.{Frame, write-Ends}

-- After the write: nothing is pending, and all that was received up to `position` is delivered.
pub record Delivered (env : Env) (position : SourcePosition) (w : World) : Type 0 where
  pub durable : IsDurable env w.trace
  pub all : delivered w.trace ≡ consumed env w.trace
  pub received : last_received w.trace ≡ some position
  pub no_events : w.pending.encoded ≡ []
  pub no_position : w.pending.highest_position ≡ none

-- After the save, the position is in the store too.
pub record Stored (env : Env) (position : SourcePosition) (w : World) : Type 0 where
  pub before : Delivered env position w
  pub at_store : last_saved w.trace ≡ some position

module _ (env : Env) (position : SourcePosition) where
  acknowledge-Stored :
      (id : ℕ) (w : World) → Stored env position w → Stored env position (acknowledge id w)
  unfolding acknowledge
  acknowledge-Stored id w h = elim (Bool-cases (was_acknowledged id w.trace)) [
    | inl e ↦ rw e h
    | inr e ↦ rw e (ground arith)
  ]

  acknowledge_all-Stored :
      (ids : List ℕ) (w : World)
      → Stored env position w
      → Stored env position (acknowledge_all ids w)
  unfolding acknowledge_all
  acknowledge_all-Stored [] w h = h
  acknowledge_all-Stored (id ∷ ids) w h =
      acknowledge_all-Stored ids (acknowledge id w) (acknowledge-Stored id w h)

  finish_flush-Flushed :
      (n : ℕ) (w : World) → Stored env position w → Flushed env (finish_flush env position n w)
  unfolding finish_flush
  finish_flush-Flushed n w h =
      let k = acknowledge_all-Stored w.pending.signal_acknowledgements w h in ground (arith, k)

abbrev pub Durable : Env → World → Type 0
Durable env w = IsDurable env w.trace

after_write-Ends :
    (P Q : World → Type 0) (n : ℕ) (o : Outcome (Unit {0})) (w : World)
    → ((v : World) → P v → P (increment_failed_events n v))
    → EndsAs P Q o w
    → Ends P Q (after_write n (o, w))
unfolding after_write
after_write-Ends P Q n (done _) w keep h = record { ends = h }
after_write-Ends P Q n (fail cancelled) w keep h = record { ends = h }
after_write-Ends P Q n (fail e) w keep h = record { ends = keep w h }
after_write-Ends P Q n out_of_fuel w keep h = record { ends = h }

increment-Durable :
    (env : Env) (n : ℕ) (w : World) → Durable env w → Durable env (increment_failed_events n w)
unfolding increment_failed_events
increment-Durable env n w h = h

eq_of_is_empty {ℓ} : {A : Type ℓ} (xs : List A) → is_empty xs ≡ true → xs ≡ []
eq_of_is_empty [] h = refl
eq_of_is_empty (x ∷ xs) h = cc

abbrev taken : World → World
taken w = record w { pending = record w.pending { highest_position = none } }

module _ (env : Env) (position : SourcePosition) (w : World) where
  empty_batch :
      Inv env w
      → w.pending.highest_position ≡ some position
      → w.pending.encoded ≡ []
      → Delivered env position (taken w)
  empty_batch h e nothing = ground (arith, append-nil (delivered w.trace))

  written_batch :
      (v : World)
      → Inv env w
      → w.pending.highest_position ≡ some position
      → Frame env
          (record (taken w) { pending = record (taken w).pending { encoded = [] } })
          (delivered w.trace ++ w.pending.encoded)
          v
      → Delivered env position v
  written_batch v h e f = ground arith

nothing_taken :
    (env : Env) (w : World) → Inv env w → w.pending.highest_position ≡ none → Flushed env w
nothing_taken env w h e = ground (arith, append-nil (delivered w.trace))

pub Flushed-Inv : {env : Env} {w : World} → Flushed env w → Inv env w
Flushed-Inv {env} {w} h = ground (arith, append-nil (delivered w.trace))

module _ (env : Env) (config : RuntimeConfig) (identity : ConnectorIdentity) (fuel : ℕ) where
  deliver-Ends :
      (position : SourcePosition) (w : World)
      → Inv env w
      → w.pending.highest_position ≡ some position
      → Ends (Durable env) (Delivered env position) (deliver env config fuel position (taken w))
  unfolding deliver
  deliver-Ends position w h e = elim (Bool-cases (is_empty w.pending.encoded)) [
    | inl nothing ↦ rw nothing (returns (empty_batch env position w h e (eq_of_is_empty _ nothing)))
    | inr some_events ↦ rw some_events (
        after_write-Ends (Durable env) (Delivered env position) _ _ _
          (increment-Durable env (length w.pending.encoded))
          (Ends-mono _ (λ v f. f.durable) (λ v f. written_batch env position w v h e f)
            (write-Ends env config fuel _ _ h.durable)).ends)
  ]

  save-Ends :
      (position : SourcePosition) (w : World)
      → Delivered env position w
      → Ends (Durable env) (Stored env position) (save_checkpoint env config identity position w)
  unfolding save_checkpoint
  save-Ends position w h = ground arith

  send_ack-Ends :
      (position : SourcePosition) (w : World)
      → Stored env position w
      → Ends (Durable env) (Stored env position) (send_ack env position w)
  unfolding send_ack
  send_ack-Ends position w h = ground arith

  flush_at-Ends :
      (position : SourcePosition) (w : World)
      → Inv env w
      → w.pending.highest_position ≡ some position
      → Ends (Durable env) (Flushed env) (flush_at env config identity fuel position w)
  unfolding flush_at
  flush_at-Ends position w h e =
      Ends-bind (deliver env config fuel position) _ (taken w) (deliver-Ends position w h e) λ v d.
        Ends-bind (save_checkpoint env config identity position) _ v (save-Ends position v d) λ u s.
          Ends-bind (send_ack env position) _ u (send_ack-Ends position u s)
            λ t s'. returns (finish_flush-Flushed env position _ t s')

  -- A flush that returns has delivered and stored all that was received, and one that fails keeps
  -- the contract.
  pub flush_batch-Ends :
      (w : World)
      → Inv env w
      → Ends (Durable env) (Flushed env) (flush_batch env config identity fuel w)
  unfolding flush_batch
  flush_batch-Ends w h = elim (Option-cases w.pending.highest_position) [
    | inl e ↦ rw (e, flush_batch) (returns (nothing_taken env w h e))
    | inr (p, e) ↦ rw (e, flush_batch) (flush_at-Ends p w h e)
  ]
