-- ===== src/Kafka/Sent.antt =====
-- crates/rustium-sink-kafka/src/lib.rs: what `Sink::write` has sent.
use rustium.Common.{
  ℕ, ◌≡◌, refl, sym, ap, ◌∙◌, subst, Bool, true, false, Option, List, [], ◌∷◌, ◌++◌, append_assoc,
  append-nil, Bool-cases, inl, inr,
}
use rustium.Core.Error.{Result, ok, err}
use rustium.Core.Event.{EncodedEvent}
use rustium.Kafka.{
  KafkaRecord, Cluster, KafkaSink, frame_component, ◌then◌, record_of, send_record, write_event,
  write,
}
use rustium.Kafka.Framed.{AreRegistered, IsFramed, Gives, frame_component-Gives}

abbrev pub is_ok : {A : Type 0} → Result A → Bool
is_ok (err e) = false
is_ok (ok a) = true

module _ (cluster : Cluster) where
  pub record IsRecord (event : EncodedEvent) (r : KafkaRecord) : Type 0 where
    pub topic : r.topic ≡ event.destination
    pub headers : r.headers ≡ event.headers
    pub key : IsFramed cluster event.key event.key_schema r.key
    pub payload : IsFramed cluster event.payload event.payload_schema r.payload

  -- The records are those of the events, of all of them where the call returned.
  abbrev pub AreSent : Bool → List EncodedEvent → List KafkaRecord → Type 0
  AreSent returned [] [] = Unit
  AreSent returned [] (r ∷ rs) = ⊥
  AreSent returned (event ∷ events) [] = returned ≡ false
  AreSent returned (event ∷ events) (r ∷ rs) = IsRecord event r × AreSent returned events rs

  -- What a call has sent of the events after those sent before.
  abbrev pub Sends : List EncodedEvent → List KafkaRecord → Result (Unit {0}) × KafkaSink → Type 0
  Sends events before (result, t) =
      AreRegistered cluster t.schema_ids
      × ((records : List KafkaRecord) × ((t.sent ≡ before ++ records)
            × AreSent (is_ok result) events records))

  send_record-Sends :
      (event : EncodedEvent) (key payload : Option (List ℕ)) (before : List KafkaRecord)
      (s : KafkaSink)
      → s.sent ≡ before
      → AreRegistered cluster s.schema_ids
      → IsFramed cluster event.key event.key_schema key
      → IsFramed cluster event.payload event.payload_schema payload
      → Sends (event ∷ []) before (send_record cluster (record_of cluster event key payload) s)
  unfolding send_record
  send_record-Sends event key payload before s e h k p =
      elim (Bool-cases (cluster.send s.sent (record_of cluster event key payload))) [
        | inl sent ↦ rw sent (
          h,
          (
            record_of cluster event key payload ∷ [],
            (
              ap (◌++ (record_of cluster event key payload ∷ [])) e,
              (record { topic = refl; headers = refl; key = k; payload = p }, tt),
            ),
          ),
        )
        | inr failed ↦ rw failed (h, ([], (e ∙ sym (append-nil before), refl)))
      ]

  after_frame :
      {A : Type 0} (P : A → Type 0) (event : EncodedEvent) (before : List KafkaRecord)
      (call : Result A × KafkaSink) (next : A → KafkaSink → Result (Unit {0}) × KafkaSink)
      → Gives cluster before P call
      → ((a : A) (t : KafkaSink)
          → t.sent ≡ before
          → AreRegistered cluster t.schema_ids
          → P a
          → Sends (event ∷ []) before (next a t))
      → Sends (event ∷ []) before (◌then◌ cluster call next)
  after_frame P event before (err _, t) next (e, h) k =
      (h, ([], (e ∙ sym (append-nil before), refl)))
  after_frame P event before (ok a, t) next (e, (h, p)) k = k a t e h p

  write_event-Sends :
      (event : EncodedEvent) (before : List KafkaRecord) (s : KafkaSink)
      → s.sent ≡ before
      → AreRegistered cluster s.schema_ids
      → Sends (event ∷ []) before (write_event cluster event s)
  unfolding write_event
  write_event-Sends event before s e h =
      let key =
        subst
          (λ b.
            Gives cluster b (IsFramed cluster event.key event.key_schema)
              (frame_component cluster event.key event.key_schema s))
          e (frame_component-Gives cluster event.key event.key_schema s h) in
      after_frame (IsFramed cluster event.key event.key_schema) event before _ _ key
        (λ k t f g is_key.
          after_frame (IsFramed cluster event.payload event.payload_schema) event before _ _
            (subst
              (λ b.
                Gives cluster b (IsFramed cluster event.payload event.payload_schema)
                  (frame_component cluster event.payload event.payload_schema t))
              f (frame_component-Gives cluster event.payload event.payload_schema t g))
            (λ payload u i j is_payload.
              send_record-Sends event k payload before u i j is_key is_payload))

  AreSent-later :
      (event : EncodedEvent) (events : List EncodedEvent) (rs : List KafkaRecord)
      → AreSent false (event ∷ []) rs
      → AreSent false (event ∷ events) rs
  AreSent-later event events [] h = refl
  AreSent-later event [] (r ∷ rs) h = h
  AreSent-later event (next ∷ events) (r ∷ []) (h, k) = (h, refl)
  AreSent-later event (next ∷ events) (r ∷ q ∷ rs) (h, k) = absurd k

  after_event :
      (event : EncodedEvent) (events : List EncodedEvent) (before : List KafkaRecord)
      (call : Result (Unit {0}) × KafkaSink)
      → Sends (event ∷ []) before call
      → ((sent : List KafkaRecord) (t : KafkaSink)
          → t.sent ≡ sent
          → AreRegistered cluster t.schema_ids
          → Sends events sent (write cluster events t))
      → Sends (event ∷ events) before (◌then◌ cluster call (λ _ t. write cluster events t))
  after_event event events before (err _, t) (h, (rs, (e, a))) k =
      (h, (rs, (e, AreSent-later event events rs a)))
  after_event event events before (ok _, t) (h, ([], (e, a))) k = cc
  after_event event events before (ok _, t) (h, (r ∷ q ∷ rs, (e, (a, b)))) k = absurd b
  after_event event events before (ok _, t) (h, (r ∷ [], (e, (a, _)))) k =
      let (h', (rs, (e', b))) = k (before ++ (r ∷ [])) t e h in
      (h', (r ∷ rs, (e' ∙ append_assoc before (r ∷ []) rs, (a, b))))

  -- Where every id in the cache was given by the registry, a write to Kafka sends, after what was
  -- sent before, the records of a prefix of the batch in order, of all its events where it returns
  -- without an error: each with the topic and the headers of its event, and with its key and
  -- payload as they are or, where they have a schema, framed with an id that the registry gave to
  -- that schema. It leaves only such ids in the cache.
  pub write-Sends :
      (events : List EncodedEvent) (before : List KafkaRecord) (s : KafkaSink)
      → s.sent ≡ before
      → AreRegistered cluster s.schema_ids
      → Sends events before (write cluster events s)
  unfolding write
  write-Sends [] before s e h = (h, ([], (e ∙ sym (append-nil before), tt)))
  write-Sends (event ∷ events) before s e h =
      after_event event events before (write_event cluster event s)
        (write_event-Sends event before s e h) (λ sent t f g. write-Sends events sent t f g)
