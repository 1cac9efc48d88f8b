-- ===== src/Kafka/Framed.antt =====
-- crates/rustium-sink-kafka/src/lib.rs: keys and payloads as they are framed.
use rustium.Common.{
  ℕ, ◌+◌, ◌≡◌, ◌↔◌, refl, sym, ap, ◌∙◌, subst, true, Option, none, some, List, [], ◌∷◌, str_eq_iff,
  arith, length, ◌==◌, Bool-cases, Option-cases, inl, inr,
}
use rustium.Common.Assoc.{find, insert}
use rustium.Core.Error.{Result, ok, err}
use rustium.Core.Event.{WireSchemaType, avro, json, protobuf, WireSchema}
use rustium.Cache.{Cache, evict, touch, make_room, push, get_cached, put}
use rustium.Cache.Keys.{find-remove, find-insert}
use rustium.Kafka.{
  same_type, same_schema, KafkaRecord, Cluster, KafkaSink, confluent_frame, after_post, register,
  frame, framed, required_registry, frame_component,
}

some_inj : {A : Type 0} {a b : A} → some a ≡ some b → a ≡ b
some_inj h = cc

same_type_iff : (s t : WireSchemaType) → (same_type s t ≡ true) ↔ (s ≡ t)
unfolding same_type
same_type_iff avro avro = ground arith
same_type_iff avro json = ground arith
same_type_iff avro protobuf = ground arith
same_type_iff json avro = ground arith
same_type_iff json json = ground arith
same_type_iff json protobuf = ground arith
same_type_iff protobuf avro = ground arith
same_type_iff protobuf json = ground arith
same_type_iff protobuf protobuf = ground arith

same_schema_iff : (s t : WireSchema) → (same_schema s t ≡ true) ↔ (s ≡ t)
unfolding same_schema
same_schema_iff s t = ground (
  arith,
  str_eq_iff s.subject t.subject,
  str_eq_iff s.definition t.definition,
  same_type_iff s.schema_type t.schema_type,
)

module _ (cluster : Cluster) where
  -- The registry gave that id to the schema at one of its calls.
  abbrev pub Registered : WireSchema → ℕ → Type 0
  Registered schema id = (n : ℕ) × (cluster.post_schema n schema ≡ ok id)

  abbrev pub AreRegistered : Option (Cache WireSchema ℕ) → Type 0
  AreRegistered none = Unit
  AreRegistered (some ids) =
      (schema : WireSchema) (id : ℕ)
      → find same_schema schema ids.entries ≡ some id
      → Registered schema id

  -- A key or a payload as it was sent: framed with the id of its schema where it has one.
  abbrev pub IsFramed : Option (List ℕ) → Option WireSchema → Option (List ℕ) → Type 0
  IsFramed none schema sent = sent ≡ none
  IsFramed (some value) none sent = sent ≡ some value
  IsFramed (some value) (some schema) sent =
      (id : ℕ) × ((sent ≡ some (confluent_frame id value)) × Registered schema id)

  evict-AreRegistered :
      (order : List WireSchema) (ids : Cache WireSchema ℕ)
      → AreRegistered (some ids)
      → AreRegistered (some (evict same_schema order ids))
  unfolding evict
  evict-AreRegistered [] ids h schema id e = h schema id e
  evict-AreRegistered (oldest ∷ rest) ids h schema id e =
      h schema id
        (ground (arith, find-remove same_schema same_schema_iff schema oldest ids.entries))

  insert-AreRegistered :
      (schema : WireSchema) (id : ℕ) (entries : List (WireSchema × ℕ))
      → ((s : WireSchema) (i : ℕ) → find same_schema s entries ≡ some i → Registered s i)
      → Registered schema id
      → (s : WireSchema) (i : ℕ)
      → find same_schema s (insert same_schema schema id entries) ≡ some i
      → Registered s i
  insert-AreRegistered schema id entries h r s i e = elim (Bool-cases (same_schema schema s)) [
    | inl same ↦
        let found =
          sym (find-insert same_schema same_schema_iff s schema id entries ∙ (rw same refl)) ∙ e in
        subst (λ j. Registered s j) (some_inj found)
          (subst (λ t. Registered t id) ((same_schema_iff schema s).0 same) r)
    | inr other ↦
        h s i
          (sym (find-insert same_schema same_schema_iff s schema id entries ∙ (rw other refl)) ∙ e)
  ]

  make_room-AreRegistered :
      (ids : Cache WireSchema ℕ)
      → AreRegistered (some ids)
      → AreRegistered (some (make_room same_schema ids))
  unfolding make_room
  make_room-AreRegistered ids h = elim (Bool-cases (length ids.entries == ids.capacity)) [
    | inl full ↦ rw (full, make_room) (evict-AreRegistered ids.order ids h)
    | inr room ↦ rw (room, make_room) h
  ]

  put-AreRegistered :
      (schema : WireSchema) (id : ℕ) (ids : Cache WireSchema ℕ)
      → AreRegistered (some ids)
      → Registered schema id
      → AreRegistered (some (put same_schema schema id ids))
  unfolding put touch push
  put-AreRegistered schema id ids h r = elim (Option-cases (find same_schema schema ids.entries)) [
    | inl e ↦
        rw (e, put)
          (insert-AreRegistered schema id (make_room same_schema ids).entries
            (make_room-AreRegistered ids h) r)
    | inr (i, e) ↦ rw (e, put) (insert-AreRegistered schema id ids.entries h r)
  ]

  abbrev OnCached : WireSchema → Option ℕ × Cache WireSchema ℕ → Type 0
  OnCached schema (none, ids) = AreRegistered (some ids)
  OnCached schema (some id, ids) = Registered schema id × AreRegistered (some ids)

  get_cached-OnCached :
      (schema : WireSchema) (ids : Cache WireSchema ℕ)
      → AreRegistered (some ids)
      → OnCached schema (get_cached same_schema schema ids)
  unfolding get_cached touch
  get_cached-OnCached schema ids h = elim (Option-cases (find same_schema schema ids.entries)) [
    | inl e ↦ rw (e, get_cached) h
    | inr (i, e) ↦ rw (e, get_cached) (h schema i e, h)
  ]

  -- A call that leaves what was sent as it is, and whose value has the property.
  abbrev pub Gives : {A : Type 0} → List KafkaRecord → (A → Type 0) → Result A × KafkaSink → Type 0
  Gives sent P (err e, t) = (t.sent ≡ sent) × AreRegistered t.schema_ids
  Gives sent P (ok a, t) = (t.sent ≡ sent) × (AreRegistered t.schema_ids × P a)

  abbrev HasId : List ℕ → WireSchema → List ℕ → Type 0
  HasId value schema bytes = (id : ℕ) × ((bytes ≡ confluent_frame id value) × Registered schema id)

  after_post-Gives :
      (value : List ℕ) (schema : WireSchema) (ids : Cache WireSchema ℕ) (answer : Result ℕ) (n : ℕ)
      (s : KafkaSink)
      → AreRegistered s.schema_ids
      → AreRegistered (some ids)
      → cluster.post_schema n schema ≡ answer
      → Gives s.sent (HasId value schema) (after_post cluster value schema ids answer s)
  unfolding after_post
  after_post-Gives value schema ids (err _) n s h k e = (refl, h)
  after_post-Gives value schema ids (ok id) n s h k e =
      (refl, (put-AreRegistered schema id ids k (n, e), (id, (refl, (n, e)))))

  register-Gives :
      (value : List ℕ) (schema : WireSchema) (cached : Option ℕ × Cache WireSchema ℕ)
      (s : KafkaSink)
      → AreRegistered s.schema_ids
      → OnCached schema cached
      → Gives s.sent (HasId value schema) (register cluster value schema cached s)
  unfolding register
  register-Gives value schema (some id, ids) s h (r, k) = (refl, (k, (id, (refl, r))))
  register-Gives value schema (none, ids) s h k =
      after_post-Gives value schema ids (cluster.post_schema s.requests schema) s.requests
        (record s { requests = s.requests + 1 }) h k refl

  framed-Gives :
      (value : List ℕ) (schema : WireSchema) (sent : List KafkaRecord)
      (call : Result (List ℕ) × KafkaSink)
      → Gives sent (HasId value schema) call
      → Gives sent (IsFramed (some value) (some schema)) (framed cluster call)
  framed-Gives value schema sent (err _, t) h = h
  framed-Gives value schema sent (ok bytes, t) (u, (k, (id, (e, r)))) =
      (u, (k, (id, (ap some e, r))))

  required-Gives :
      (value : List ℕ) (schema : WireSchema) (ids : Option (Cache WireSchema ℕ)) (s : KafkaSink)
      → s.schema_ids ≡ ids
      → AreRegistered ids
      → Gives s.sent
          (IsFramed (some value) (some schema))
          (required_registry cluster value schema ids s)
  unfolding frame
  required-Gives value schema none s e h = (refl, subst AreRegistered (sym e) h)
  required-Gives value schema (some ids) s e h =
      framed-Gives value schema s.sent (frame cluster value schema ids s) (
        register-Gives value schema (get_cached same_schema schema ids) s
          (subst AreRegistered (sym e) h) (get_cached-OnCached schema ids h))

  pub frame_component-Gives :
      (value : Option (List ℕ)) (schema : Option WireSchema) (s : KafkaSink)
      → AreRegistered s.schema_ids
      → Gives s.sent (IsFramed value schema) (frame_component cluster value schema s)
  unfolding frame_component
  frame_component-Gives none schema s h = (refl, (h, refl))
  frame_component-Gives (some value) none s h = (refl, (h, refl))
  frame_component-Gives (some value) (some schema) s h =
      required-Gives value schema s.schema_ids s refl h
