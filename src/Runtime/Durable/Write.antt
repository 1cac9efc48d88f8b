-- ===== src/Runtime/Durable/Write.antt =====
-- crates/rustium-core/src/runtime.rs: a write with retries, as the trace shows it.
use rustium.Common.{ℕ, ◌≡◌, refl, List, ◌++◌, arith}
use rustium.Core.Event.{EncodedEvent, DeliveryBatch}
use rustium.Runtime.World.{RuntimeConfig, RetryState, Env, World}
use rustium.Runtime.Retry.{wait_for_sink_retry, sink_write, write_sink_with_retry}
use rustium.Runtime.Ends.{Ends, Attempts, retry_loop-Ends}
use rustium.Runtime.Durable.{consumed, delivered, last_received, IsDurable}

-- Since `w₀` the delivered events became `events`, and all else that counts is as it was.
pub record Frame (env : Env) (w₀ : World) (events : List EncodedEvent) (w : World) : Type 0 where
  pub durable : IsDurable env w.trace
  pub consumed_same : consumed env w.trace ≡ consumed env w₀.trace
  pub delivered_now : delivered w.trace ≡ events
  pub received_same : last_received w.trace ≡ last_received w₀.trace
  pub pending_same : w.pending ≡ w₀.pending

wait-Frame :
    (env : Env) (config : RuntimeConfig) (w₀ : World) (events : List EncodedEvent)
    → (r : RetryState) (w : World) → Frame env w₀ events w
    → Frame env w₀ events (wait_for_sink_retry env config r w).1
unfolding wait_for_sink_retry
wait-Frame env config w₀ events r w h = ground arith

write-Frame :
    (env : Env) (w₀ : World) (events : List EncodedEvent) (batch : DeliveryBatch) (w : World)
    → Frame env w₀ events w
    → Attempts
        (Frame env w₀ events)
        (Frame env w₀ (events ++ batch.events))
        (sink_write env batch w)
unfolding sink_write
write-Frame env w₀ events batch w h = ground arith

-- A write with retries delivers its batch once if it returns, and nothing if it fails.
pub write-Ends :
    (env : Env) (config : RuntimeConfig) (fuel : ℕ) (batch : DeliveryBatch) (w : World)
    → IsDurable env w.trace
    → Ends
        (Frame env w (delivered w.trace))
        (Frame env w (delivered w.trace ++ batch.events))
        (write_sink_with_retry env config fuel batch w)
unfolding write_sink_with_retry
write-Ends env config fuel batch w h =
    retry_loop-Ends env config _ _ (sink_write env batch) (write-Frame env w _ batch)
      (wait-Frame env config w _) fuel _ w
      (record {
        durable = h;
        consumed_same = refl;
        delivered_now = refl;
        received_same = refl;
        pending_same = refl;
      })
