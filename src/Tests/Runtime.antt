-- ===== src/Tests/Runtime.antt =====
-- The runtime: two records in one transaction, delivered at the second attempt.
use rustium.Runtime.Retry.Exhausted.{GivesUp, write_sink_with_retry-GivesUp}
use rustium.Core.Error.{err, retryable_sink}
use rustium.Runtime.Run.Status.{Final, run-Final}
use rustium.Runtime.World.{Env}
use rustium.Common.{◌≡◌, ◌≢◌, refl, inr, List, [], ◌∷◌, codes, arith}
use rustium.Core.Event.{data_record, transaction_commit, DeliveryBatch}
use rustium.Runtime.World.{World, done, out_of_fuel}
use rustium.Runtime.Run.{Round, record_arrived, tick, channel_closed, pipeline, run, initial}
use rustium.Runtime.Consume.{consume_record}
use rustium.Runtime.Flush.{flush_batch}
use rustium.Runtime.Retry.{write_sink_with_retry, flush_sink_with_retry, validate_sink_with_retry}
use rustium.Runtime.Retry.Bounds.{sleeps, Backs, write_sink_with_retry-Backs}
use rustium.Runtime.Total.{run-Answers}
use rustium.Runtime.Durable.{delivered, IsDurable, Inv, Flushed}
use rustium.Runtime.Durable.Loop.{pipeline_delivers}
use rustium.Runtime.Durable.Run.{run-IsDurable}
use rustium.Tests.Data.{at_lsn, order_record, encoded_order, two_retries, shop, sample_env}

abbrev rounds : List Round
rounds =
    record_arrived (order_record 10 0 data_record) 1
    ∷ tick
    ∷ record_arrived (order_record 10 1 transaction_commit) 0
    ∷ channel_closed
    ∷ []

abbrev start : World
start = initial (codes "shop") 1_000

abbrev one_order : DeliveryBatch
one_order = record { events = encoded_order ∷ []; highest_position = at_lsn 10 0 }

run-IsDurable_example :
    IsDurable sample_env (run sample_env two_retries shop 3 rounds start).1.trace
run-IsDurable_example = run-IsDurable sample_env two_retries shop 3 1_000 rounds

start-Inv : Inv sample_env start
unfolding initial
start-Inv = record { durable = tt; split = refl; position = inr (refl, refl, refl) }

pipeline_ends : (pipeline sample_env two_retries shop 3 rounds start).0 ≡ done tt
unfolding pipeline initial consume_record flush_batch write_sink_with_retry flush_sink_with_retry
pipeline_ends = refl

pipeline_delivers_example :
    Flushed sample_env (pipeline sample_env two_retries shop 3 rounds start).1
pipeline_delivers_example =
    pipeline_delivers sample_env two_retries shop 3 rounds start start-Inv pipeline_ends

run-Answers_example : (run sample_env two_retries shop 3 rounds start).0 ≢ out_of_fuel
run-Answers_example =
    run-Answers sample_env two_retries shop 2 3 refl (omega arith) (omega arith) rounds start

write_sink_with_retry-Backs_example :
    Backs two_retries 2 start (write_sink_with_retry sample_env two_retries 3 one_order start)
write_sink_with_retry-Backs_example =
    write_sink_with_retry-Backs sample_env two_retries 2 3 refl (omega arith) (omega arith) start
      one_order

-- The run of the sample ends normally, with both orders delivered once and the second write's
-- delay of the policy.
run_ends : (run sample_env two_retries shop 3 rounds start).0 ≡ done tt
unfolding run initial validate_sink_with_retry consume_record flush_batch write_sink_with_retry
    flush_sink_with_retry
run_ends = refl

delivered-run :
    delivered (run sample_env two_retries shop 3 rounds start).1.trace
    ≡ encoded_order ∷ encoded_order ∷ []
unfolding run initial validate_sink_with_retry consume_record flush_batch write_sink_with_retry
    flush_sink_with_retry
delivered-run = refl

sleeps-run : sleeps (run sample_env two_retries shop 3 rounds start).1.trace ≡ 300 ∷ []
unfolding run initial validate_sink_with_retry consume_record flush_batch write_sink_with_retry
    flush_sink_with_retry
sleeps-run = refl

-- A sink that is busy forever.
abbrev busy_env : Env
busy_env = record sample_env { sink_write = λ t batch. err (retryable_sink "busy") }

write_sink_with_retry-GivesUp_example :
    GivesUp two_retries 2 "busy" start
      (write_sink_with_retry busy_env two_retries 3 one_order start)
write_sink_with_retry-GivesUp_example =
    write_sink_with_retry-GivesUp busy_env two_retries 2 3 one_order "busy" start refl (omega arith)
      (omega arith) (λ t. refl) (λ t. refl)

run-Final_example : Final (run busy_env two_retries shop 3 rounds start)
run-Final_example = run-Final busy_env two_retries shop 3 rounds start
