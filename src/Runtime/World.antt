-- ===== src/Runtime/World.antt =====
-- crates/rustium-core/src/runtime.rs: the state of a running connector.
--
-- The sink, the checkpoint store, the encoder, the clock and the cancellation token are behind
-- traits or belong to other crates. `Env` gives the answer of each to a call as a function of all
-- that happened before, `World.trace`, so a theorem over every `Env` holds whatever they answer.
use rustium.Common.{ℕ, ◌+◌, ◌-◌, ◌*◌, ◌%◌, ◌^◌, Bool, Option, none, List, [], ◌∷◌, Str}
use rustium.Common.Int.{ℤ}
use rustium.Core.Error.{Error, Result}
use rustium.Core.Position.{SourcePosition}
use rustium.Core.Event.{
  ConnectorStateEnvelope, ChangeEvent, SourceRecord, EncodedEvent, DeliveryBatch, Checkpoint,
}

-- Durations are in nanoseconds.
pub record RuntimeConfig : Type 0 where
  pub channel_capacity : ℕ
  pub max_batch_size : ℕ
  pub flush_interval : ℕ
  pub shutdown_timeout : ℕ
  pub errors_max_retries : ℤ
  pub errors_retry_delay_initial : ℕ
  pub errors_retry_delay_max : ℕ
  pub config_fingerprint : Str

pub data ConnectorState : Type 0 where
  created starting snapshotting streaming paused failed stopping stopped : ConnectorState

-- The reason of a state is an error, of which the code stores the text.
pub record StatusSnapshot : Type 0 where
  pub connector_name : Str
  pub state : ConnectorState
  pub state_since : ℕ
  pub state_reason : Option Error
  pub last_position : Option SourcePosition
  pub last_checkpoint_at : Option ℕ
  pub last_source_event_at : Option ℕ
  pub last_event_observed_at : Option ℕ
  pub source_lag_millis : Option ℕ
  pub delivered_events : ℕ
  pub failed_events : ℕ
  pub sink_retry_attempts : ℕ
  pub queue_depth : ℕ

pub record EventTiming : Type 0 where
  pub source_time : Option ℕ
  pub observed_time : ℕ

pub record PendingBatch : Type 0 where
  pub encoded : List EncodedEvent
  pub highest_position : Option SourcePosition
  pub latest_event_timing : Option EventTiming
  pub signal_acknowledgements : List ℕ

unfoldable pub new_batch : PendingBatch
new_batch = record {
  encoded = [];
  highest_position = none;
  latest_event_timing = none;
  signal_acknowledgements = [];
}

-- `Duration::MAX`.
abbrev pub max_duration : ℕ
max_duration = (2 ^ 64 - 1) * 1_000_000_000 + 999_999_999

pub record RetryState : Type 0 where
  pub attempts : ℕ
  pub delay : ℕ

unfoldable pub new_retry : ℕ → RetryState
new_retry initial_delay = record { attempts = 0; delay = initial_delay }

-- What the runtime does to the world around it, and what it receives.
pub data Action : Type 0 where
  transitioned : ConnectorState → Action
  received : SourceRecord → Action
  sink_validated sink_flushed : Result (Unit {0}) → Action
  wrote : DeliveryBatch → Action
  write_failed : DeliveryBatch → Error → Action
  slept : ℕ → Action
  saved : Checkpoint → Action
  save_failed : Checkpoint → Error → Action
  acknowledged : SourcePosition → Action
  signal_acknowledged : ℕ → Action
  source_stopped sink_shut_down : Result (Unit {0}) → Action

-- How the source task ended within the shutdown timeout, or that it did not.
pub data SourceExit : Type 0 where
  returned : Result (Unit {0}) → SourceExit
  panicked timed_out : SourceExit

-- The trace is newest first.
pub record Env : Type 0 where
  pub source_validate : Result (Unit {0})
  pub sink_validate : List Action → Result (Unit {0})
  pub sink_write : List Action → DeliveryBatch → Result (Unit {0})
  pub sink_flush : List Action → Result (Unit {0})
  pub sink_shutdown : List Action → Result (Unit {0})
  pub store_load : List Action → Result (Option Checkpoint)
  pub store_save : List Action → Checkpoint → Result (Unit {0})
  pub ack_receiver_alive : List Action → Bool
  pub encode_batch : ChangeEvent → Result (List EncodedEvent)
  pub cancelled_while_waiting : List Action → Bool
  pub is_cancelled : List Action → Bool
  pub source_exit : List Action → SourceExit
  pub utc_now : List Action → ℕ

-- The locals of `run_inner` that its callees borrow mutably stand beside the shared status.
pub record World : Type 0 where
  pub trace : List Action
  pub status : StatusSnapshot
  pub pending : PendingBatch
  pub snapshot_completed : Bool
  pub connector_state : Option ConnectorStateEnvelope

-- A call may return, fail, or not have returned within the fuel given to its retry loop.
pub data Outcome {ℓ} (A : Type ℓ) : Type ℓ where
  done : A → Outcome A
  fail : Error → Outcome A
  out_of_fuel : Outcome A

abbrev pub M : Type 0 → Type 0
M A = World → Outcome A × World

abbrev pub continue : {A B : Type 0} → Outcome A → (A → M B) → M B
continue (done a) f w = f a w
continue (fail e) f w = (fail e, w)
continue out_of_fuel f w = (out_of_fuel, w)

infixl 5 ◌>>◌ ◌>>=◌
-- `?` after a call that returned a value.
abbrev pub ◌>>=◌ : {T U : Type 0} → M T → (T → M U) → M U
◌>>=◌ call next w = let (result, after) = call w in continue result next after

-- `?` after a call that returned `()`.
abbrev pub ◌>>◌ : {U : Type 0} → M (Unit {0}) → M U → M U
call >> rest = call >>= λ _. rest

abbrev pub pure : {T : Type 0} → T → M T
pure value w = (done value, w)

abbrev pub raise : {A : Type 0} → Error → M A
raise e w = (fail e, w)

abbrev pub lift : {A : Type 0} → Result A → M A
lift (Result.ok a) w = (done a, w)
lift (Result.err e) w = (fail e, w)

abbrev pub modify : (World → World) → M (Unit {0})
modify f w = (done tt, f w)

abbrev pub log : Action → World → World
log a w = record w { trace = a ∷ w.trace }

-- A counter of type `u64`.
abbrev pub add_u64 : ℕ → ℕ → ℕ
add_u64 a b = (a + b) % 2 ^ 64
