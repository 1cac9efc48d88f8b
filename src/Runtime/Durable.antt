-- ===== src/Runtime/Durable.antt =====
-- crates/rustium-core/src/runtime.rs: what a trace of the pipeline says about delivery.
--
-- Views of a trace, and the contract that they express: the sink has the events before the store
-- has the position, and the store has the position before the source is told.
pub mod Write
pub mod Flush
pub mod Consume
pub mod Loop
pub mod Run
use rustium.Common.{◌≡◌, ◌⊎◌, Option, none, some, List, [], ◌∷◌, ◌++◌}
use rustium.Core.Error.{Result, ok, err}
use rustium.Core.Position.{SourcePosition}
use rustium.Core.Event.{ChangeEvent, SourceRecord, EncodedEvent}
use rustium.Runtime.World.{
  Action, received, wrote, saved, acknowledged, signal_acknowledged, Env, World,
}

abbrev pub ok_or_empty : Result (List EncodedEvent) → List EncodedEvent
ok_or_empty (ok events) = events
ok_or_empty (err e) = []

-- What the encoder makes of a record's event.
abbrev pub encoded_event : Env → Option ChangeEvent → List EncodedEvent
encoded_event env none = []
encoded_event env (some event) = ok_or_empty (env.encode_batch event)

-- The encoded events of all records received so far, in order.
abbrev pub consumed : Env → List Action → List EncodedEvent
consumed env [] = []
consumed env (received r ∷ t) = consumed env t ++ encoded_event env r.event
consumed env (_ ∷ t) = consumed env t

-- The events of all successful writes so far, in order.
abbrev pub delivered : List Action → List EncodedEvent
delivered [] = []
delivered (wrote batch ∷ t) = delivered t ++ batch.events
delivered (_ ∷ t) = delivered t

abbrev pub last_received : List Action → Option SourcePosition
last_received [] = none
last_received (received r ∷ t) = some r.position
last_received (_ ∷ t) = last_received t

abbrev pub last_saved : List Action → Option SourcePosition
last_saved [] = none
last_saved (saved checkpoint ∷ t) = some checkpoint.source_position
last_saved (_ ∷ t) = last_saved t

-- What has to hold before an action.
abbrev pub Allowed : Env → Action → List Action → Type 0
Allowed env (saved checkpoint) t =
    (delivered t ≡ consumed env t) × (last_received t ≡ some checkpoint.source_position)
Allowed env (acknowledged position) t =
    (delivered t ≡ consumed env t)
    × (last_received t ≡ some position)
    × (last_saved t ≡ some position)
Allowed env (signal_acknowledged id) t =
    (delivered t ≡ consumed env t) × (last_saved t ≡ last_received t)
Allowed env _ t = Unit

abbrev pub IsDurable : Env → List Action → Type 0
IsDurable env [] = Unit
IsDurable env (a ∷ t) = Allowed env a t × IsDurable env t

-- Between two calls of the loop: what was received and not yet delivered is pending, under the
-- last position received; or nothing is pending and that position is in the store.
pub record Inv (env : Env) (w : World) : Type 0 where
  pub durable : IsDurable env w.trace
  pub split : consumed env w.trace ≡ delivered w.trace ++ w.pending.encoded
  pub position :
      ((p : SourcePosition) × (w.pending.highest_position ≡ some p)
        × (last_received w.trace ≡ some p))
      ⊎ ((w.pending.highest_position ≡ none)
          × (w.pending.encoded ≡ [])
          × (last_saved w.trace ≡ last_received w.trace))

-- After a flush: all that was received is delivered, and its position is in the store.
pub record Flushed (env : Env) (w : World) : Type 0 where
  pub durable : IsDurable env w.trace
  pub all : delivered w.trace ≡ consumed env w.trace
  pub stored : last_saved w.trace ≡ last_received w.trace
  pub no_events : w.pending.encoded ≡ []
  pub no_position : w.pending.highest_position ≡ none
