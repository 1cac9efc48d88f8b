-- ===== src/Runtime/Durable/Consume.antt =====
-- crates/rustium-core/src/runtime.rs: `consume_record` as the trace shows it.
use rustium.Common.{
  ℕ, ◌≡◌, refl, ap, ◌∙◌, inl, inr, Bool, true, false, Option, none, some, List, ◌++◌, append_assoc,
  append-nil, arith, Bool-cases,
}
use rustium.Core.Error.{Result, ok, err}
use rustium.Core.Event.{
  ConnectorIdentity, ChangeEvent, SourceRecord, EncodedEvent, RecordBoundary, data_record,
  transaction_commit, snapshot_complete, heartbeat,
}
use rustium.Runtime.World.{RuntimeConfig, Env, World}
use rustium.Runtime.Ends.{Ends, returns, fails, Ends-bind, Ends-mono}
use rustium.Runtime.Flush.{flush_batch}
use rustium.Runtime.Consume.{
  moved_backwards, note_snapshot, extend_batch, encode_event, absorb_record, flush_if,
  complete_snapshot, at_boundary, consume_record,
}
use rustium.Runtime.Run.{on_record}
use rustium.Runtime.Durable.{
  ok_or_empty, encoded_event, consumed, delivered, last_received, IsDurable, Inv,
}
use rustium.Runtime.Durable.Flush.{Durable, Flushed-Inv, flush_batch-Ends}

-- A record was received, and `rest` of what it carries is not in the batch yet.
record Arrived (env : Env) (r : SourceRecord) (rest : List EncodedEvent) (w : World) : Type 0 where
  durable : IsDurable env w.trace
  split : consumed env w.trace ≡ (delivered w.trace ++ w.pending.encoded) ++ rest
  position : last_received w.trace ≡ some r.position

-- All of it is in the batch.
record Taken (env : Env) (r : SourceRecord) (w : World) : Type 0 where
  durable : IsDurable env w.trace
  split : consumed env w.trace ≡ delivered w.trace ++ w.pending.encoded
  position : last_received w.trace ≡ some r.position

note_snapshot-Arrived :
    (env : Env) (r : SourceRecord) (rest : List EncodedEvent) (event : ChangeEvent) (w : World)
    → Arrived env r rest w
    → Arrived env r rest (note_snapshot env event w)
unfolding note_snapshot
note_snapshot-Arrived env r rest event w h = ground arith

extend_batch-Ends :
    (env : Env) (r : SourceRecord) (event : ChangeEvent) (x : Result (List EncodedEvent))
    (w : World)
    → Arrived env r (ok_or_empty x) w
    → Ends (Durable env) (Taken env r) (extend_batch event x w)
unfolding extend_batch
extend_batch-Ends env r event (ok events) w h = returns (record {
  durable = h.durable;
  split = h.split ∙ append_assoc (delivered w.trace) w.pending.encoded events;
  position = h.position;
})
extend_batch-Ends env r event (err e) w h = fails h.durable

encode_event-Ends :
    (env : Env) (r : SourceRecord) (event : Option ChangeEvent) (w : World)
    → Arrived env r (encoded_event env event) w
    → Ends (Durable env) (Taken env r) (encode_event env event w)
unfolding encode_event
encode_event-Ends env r none w h = returns (record {
  durable = h.durable;
  split = h.split ∙ append-nil (delivered w.trace ++ w.pending.encoded);
  position = h.position;
})
encode_event-Ends env r (some event) w h =
    extend_batch-Ends env r event _ _ (note_snapshot-Arrived env r _ event w h)

absorb_record-Inv :
    (env : Env) (r : SourceRecord) (w : World) → Taken env r w → Inv env (absorb_record r w)
unfolding absorb_record
absorb_record-Inv env r w h = record {
  durable = h.durable;
  split = h.split;
  position = inl (r.position, refl, h.position);
}

complete_snapshot-Inv : (env : Env) (w : World) → Inv env w → Inv env (complete_snapshot env w)
unfolding complete_snapshot
complete_snapshot-Inv env w h = record {
  durable = (tt, h.durable);
  split = h.split;
  position = h.position;
}

module _ (env : Env) (config : RuntimeConfig) (identity : ConnectorIdentity) (fuel : ℕ) where
  pub flush_batch-Inv :
      (w : World)
      → Inv env w
      → Ends (Durable env) (Inv env) (flush_batch env config identity fuel w)
  flush_batch-Inv w h =
      Ends-mono _ (λ v d. d) (λ v f. Flushed-Inv f) (flush_batch-Ends env config identity fuel w h)

  flush_if-Ends :
      (b : Bool) (w : World)
      → Inv env w
      → Ends (Durable env) (Inv env) (flush_if env config identity fuel b w)
  flush_if-Ends true w h = flush_batch-Inv w h
  flush_if-Ends false w h = returns h

  at_boundary-Ends :
      (b : RecordBoundary) (w : World)
      → Inv env w
      → Ends (Durable env) (Inv env) (at_boundary env config identity fuel b w)
  unfolding at_boundary
  at_boundary-Ends data_record w h = flush_if-Ends _ w h
  at_boundary-Ends transaction_commit w h = flush_batch-Inv w h
  at_boundary-Ends snapshot_complete w h = flush_batch-Inv _ (complete_snapshot-Inv env w h)
  at_boundary-Ends heartbeat w h = flush_if-Ends _ w h

  consume_record-Ends :
      (r : SourceRecord) (w : World)
      → Arrived env r (encoded_event env r.event) w
      → Ends (Durable env) (Inv env) (consume_record env config identity fuel r w)
  unfolding consume_record
  consume_record-Ends r w h =
      elim (Bool-cases (moved_backwards w.pending.highest_position r.position)) [
        | inl e ↦ rw e (fails h.durable)
        | inr e ↦ rw e (
            Ends-bind (encode_event env r.event) _ w (encode_event-Ends env r r.event w h)
              λ v t. at_boundary-Ends r.boundary (absorb_record r v) (absorb_record-Inv env r v t))
      ]

  -- A round with a record keeps the invariant if it returns, and the contract in any case.
  pub on_record-Ends :
      (r : SourceRecord) (depth : ℕ) (w : World)
      → Inv env w
      → Ends (Durable env) (Inv env) (on_record env config identity fuel r depth w)
  unfolding on_record
  on_record-Ends r depth w h = consume_record-Ends r _ (record {
    durable = (tt, h.durable);
    split = ap (λ l. l ++ encoded_event env r.event) h.split;
    position = refl;
  })
