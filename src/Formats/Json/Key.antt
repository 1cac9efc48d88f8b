-- ===== src/Formats/Json/Key.antt =====
-- crates/rustium-format-json/src/lib.rs: the keys and the topics of the records of one row.
use rustium.Common.{
  ℕ, ◌≡◌, subst, refl, sym, ap, ◌∙◌, Bool, true, false, ◌&&◌, codes, Option, none, some, List, [],
  ◌∷◌, Str, get, Bool-cases, inl, inr, if◌then◌else◌,
}
use rustium.Core.Error.{Result, ok, err, ◌>>=◌}
use rustium.Core.Error.Returns.{bind-ok, OnOk, OnOk-after}
use rustium.Core.Json.{Json, Members, object, member, text, end}
use rustium.Core.Event.{Row, FieldSchema, ChangeEvent, EncodedEvent}
use rustium.Formats.Json.{JsonCrates, put_present, key_members, event_key, not_empty}
use rustium.Formats.Json.Encode.{
  JsonEncoderConfig, is_heartbeat, is_logical_decoding_message, destination, key_row, row_key,
  record_key, key_bytes, record_at, build_encoded, message_payload, encode, is_delete,
  with_tombstone, tombstone, encode_batch,
}

abbrev pub Agree : Bool → Str → Row → Row → Type 0
Agree false name row other = Unit
Agree true name row other = get name row ≡ get name other

-- The rows have the same values in the columns of the primary key.
abbrev pub SameKey : List FieldSchema → Row → Row → Type 0
SameKey [] row other = Unit
SameKey (field ∷ rest) row other =
    Agree field.primary_key field.name row other × SameKey rest row other

abbrev pub SameRow : List FieldSchema → Option Row → Option Row → Type 0
SameRow fields none none = Unit
SameRow fields (some row) (some other) = SameKey fields row other
SameRow fields _ _ = ⊥

ok_inj : {A : Type 0} {a b : A} → ok a ≡ ok b → a ≡ b
ok_inj h = cc

either :
    (P : EncodedEvent → Type 0) (a b : Bool) (x y z : Result EncodedEvent)
    → OnOk P x
    → OnOk P y
    → OnOk P z
    → OnOk P (if a then x else if b then y else z)
either P true b x y z h k l = h
either P false true x y z h k l = k
either P false false x y z h k l = l

module _ (crates : JsonCrates) (config : JsonEncoderConfig) where
  key_members-SameKey :
      (u : Str) (fields : List FieldSchema) (row other : Row) (members : Members)
      → SameKey fields row other
      → key_members crates u fields row members ≡ key_members crates u fields other members
  unfolding key_members
  key_members-SameKey u [] row other members h = refl
  key_members-SameKey u (field ∷ rest) row other members (k, h) =
      key_members-SameKey u rest row other _ h
      ∙ ap (key_members crates u rest other) (step field.primary_key k)
    where
      step :
          (primary : Bool)
          → Agree primary field.name row other
          → (if primary
              then put_present crates u field.name (get field.name row) members
              else members)
            ≡ (if primary
                then put_present crates u field.name (get field.name other) members
                else members)
      step false a = refl
      step true a = ap (λ o. put_present crates u field.name o members) a

  row_key-SameRow :
      (event : ChangeEvent) (row other : Option Row)
      → SameRow event.schema.fields row other
      → row_key crates config event row ≡ row_key crates config event other
  unfolding event_key
  row_key-SameRow event none none h = refl
  row_key-SameRow event none (some other) h = absurd h
  row_key-SameRow event (some row) none h = absurd h
  row_key-SameRow event (some row) (some other) h =
      ap (λ m. key_bytes crates config (not_empty crates config.unavailable_value m))
        (key_members-SameKey config.unavailable_value event.schema.fields row other end h)

  -- The records go to the topic with the key.
  abbrev pub AreAt : Str → Option (List ℕ) → List EncodedEvent → Type 0
  AreAt topic key [] = Unit
  AreAt topic key (encoded ∷ rest) =
      (encoded.destination ≡ topic) × ((encoded.key ≡ key) × AreAt topic key rest)

  -- An encoder's record has the topic and the key of its event.
  abbrev IsFor : ChangeEvent → EncodedEvent → Type 0
  IsFor event encoded =
      (destination config event ≡ ok encoded.destination)
      × (encoded.key ≡ record_key crates config event)

  build_encoded-IsFor :
      (event : ChangeEvent) (payload : Json)
      → OnOk (IsFor event) (build_encoded crates config event payload)
  unfolding build_encoded record_at
  build_encoded-IsFor event payload = built (destination config event) refl
    where
      built :
          (r : Result Str)
          → destination config event ≡ r
          → OnOk (IsFor event) (r >>= λ topic. ok (record_at crates config event payload topic))
      built (err _) e = tt
      built (ok topic) e = (e, refl)

  encode-IsFor : (event : ChangeEvent) → OnOk (IsFor event) (encode crates config event)
  unfolding encode
  encode-IsFor event =
      either (IsFor event) (is_heartbeat event) (is_logical_decoding_message event) _ _ _
        (build_encoded-IsFor event _)
        (OnOk-after (IsFor event) (message_payload crates config event event.after) _
          (build_encoded-IsFor event))
        (build_encoded-IsFor event _)

  with_tombstone-AreAt :
      (event : ChangeEvent) (encoded : EncodedEvent)
      → AreAt encoded.destination encoded.key (with_tombstone crates config event encoded)
  unfolding with_tombstone tombstone
  with_tombstone-AreAt event encoded =
      elim (Bool-cases (is_delete crates config event.operation && config.tombstones_on_delete)) [
        | inl e ↦ rw e (refl, (refl, (refl, (refl, tt))))
        | inr e ↦ rw e (refl, (refl, tt))
      ]

  encode_batch-AreAt :
      (event : ChangeEvent) (records : List EncodedEvent)
      → encode_batch crates config event ≡ ok records
      → (topic : Str) × ((destination config event ≡ ok topic)
          × AreAt topic (record_key crates config event) records)
  unfolding encode_batch
  encode_batch-AreAt event records h =
      let (encoded, (e, made)) = bind-ok (encode crates config event) _ records h in
      let (d, k) = subst (OnOk (IsFor event)) e (encode-IsFor event) in
      (
        encoded.destination,
        (
          d,
          subst (λ key. AreAt encoded.destination key records) k
              (subst (AreAt encoded.destination encoded.key) (ok_inj made)
                (with_tombstone-AreAt event encoded)),
        ),
      )

  destination-source :
      (event other : ChangeEvent)
      → event.source ≡ other.source
      → destination config event ≡ destination config other
  unfolding destination
  destination-source event other s = rw s refl

  row_key-schema :
      (event other : ChangeEvent) (row : Option Row)
      → event.schema ≡ other.schema
      → row_key crates config event row ≡ row_key crates config other row
  unfolding event_key
  row_key-schema event other none c = refl
  row_key-schema event other (some row) c = rw c refl

  record_key-SameRow :
      (event other : ChangeEvent)
      → event.source ≡ other.source
      → event.schema ≡ other.schema
      → SameRow event.schema.fields
          (key_row event.after event.before)
          (key_row other.after other.before)
      → record_key crates config event ≡ record_key crates config other
  unfolding record_key
  record_key-SameRow event other s c h = rw s (
      ap
        (λ key.
          if is_heartbeat other
          then some (
              crates.to_vec
                (object (member (codes "serverName") (text other.source.connector_name) end)))
          else key)
        (row_key-SameRow event (key_row event.after event.before) (key_row other.after other.before)
            h
          ∙ row_key-schema event other (key_row other.after other.before) c))

  -- Where two events have the same source and the same schema, the rows that their keys are taken
  -- of agree in the columns of the primary key, and both are encoded, all records of both,
  -- tombstones included, go to one topic with one key.
  pub encode_batch-SameRow :
      (event other : ChangeEvent) (records others : List EncodedEvent)
      → event.source ≡ other.source
      → event.schema ≡ other.schema
      → SameRow event.schema.fields
          (key_row event.after event.before)
          (key_row other.after other.before)
      → encode_batch crates config event ≡ ok records
      → encode_batch crates config other ≡ ok others
      → (topic : Str) × ((key : Option (List ℕ)) × (AreAt topic key records
            × AreAt topic key others))
  encode_batch-SameRow event other records others s c h e f =
      let (topic, (d, a)) = encode_batch-AreAt event records e in
      let (topic', (d', b)) = encode_batch-AreAt other others f in
      let same_topic = ok_inj (sym d' ∙ sym (destination-source event other s) ∙ d) in
      let same_key = sym (record_key-SameRow event other s c h) in
      (
        topic,
        (
          record_key crates config event,
          (
            a,
            subst (λ t. AreAt t (record_key crates config event) others) same_topic
                (subst (λ key. AreAt topic' key others) same_key b),
          ),
        ),
      )
