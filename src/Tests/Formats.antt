-- ===== src/Tests/Formats.antt =====
-- A table with a column whose name is no identifier, and the records of one of its rows.
use rustium.Common.{
  ℕ, ◌≡◌, refl, true, false, Option, none, some, List, [], ◌∷◌, Str, codes, str_eq, get,
  if◌then◌else◌, length,
}
use rustium.Core.Error.{ok, err}
use rustium.Core.Event.{DataValue, Row, FieldSchema, ChangeEvent, EncodedEvent, create, delete}
use rustium.Formats.Names.{
  apart, all_adjusted, adjusted_fields, AreNames, collision, adjusted_fields-eq,
}
use rustium.Formats.Numbers.{numbered, numbered_fields, AreNew, AreAllowed, numbered_fields-AreNew}
use rustium.Formats.Json.{JsonCrates}
use rustium.Formats.Json.Encode.{JsonEncoderConfig, encode_batch}
use rustium.Formats.Json.Key.{AreAt, encode_batch-SameRow}
use rustium.Tests.Data.{at_lsn, orders_source, orders_schema}

abbrev field : Str → FieldSchema
field name = record { name = name; type_name = codes "int4"; optional = false; primary_key = false }

abbrev fields : List FieldSchema
fields = field (codes "id") ∷ field (codes "unit-price") ∷ field (codes "2nd") ∷ []

adjusted_fields-eq_example :
    (adjusted_fields fields ≡ (if apart [] fields then ok (all_adjusted fields) else err collision))
    × AreNames (all_adjusted fields)
adjusted_fields-eq_example = adjusted_fields-eq fields

-- A digest that is the text itself.
abbrev digest : Str → List ℕ
digest name = name

numbered_fields-AreNew_example :
    AreNew digest length [] [] (numbered digest length (field (codes "wage")) ∷ [])
    × AreAllowed digest length (numbered digest length (field (codes "wage")) ∷ [])
unfolding numbered_fields
numbered_fields-AreNew_example =
    numbered_fields-AreNew digest length (field (codes "wage") ∷ []) _ refl

abbrev crates : JsonCrates
crates = record {
  to_vec = λ value. 0 ∷ [];
  to_string = λ value. codes "{}";
  hex_encode = λ bytes. bytes;
  base64_encode = λ bytes. bytes;
  uuid_text = λ n. n ∷ [];
  from_f64 = λ bits. none;
  derived_id = λ id discriminator. discriminator;
  decimal_text = λ n. n ∷ [];
}

abbrev row : ℕ → Row
row total = (codes "id", DataValue.uint64 7) ∷ (codes "total", DataValue.uint64 total) ∷ []

abbrev config : JsonEncoderConfig
config = record {
  topic_prefix = codes "shop";
  unavailable_value = codes "n/a";
  tombstones_on_delete = true;
  heartbeat_topics_prefix = codes "beat";
  heartbeat_topic_name = none;
}

abbrev created : ChangeEvent
created = record {
  id = codes "1";
  source = orders_source;
  position = at_lsn 1 0;
  transaction = none;
  operation = create;
  before = none;
  after = some (row 5);
  schema = orders_schema;
  source_time = none;
  observed_time = 1;
}

abbrev deleted : ChangeEvent
deleted = record created {
  id = codes "2";
  position = at_lsn 2 0;
  operation = delete;
  before = some (row 6);
  after = none;
}

abbrev batch_of : ChangeEvent → List EncodedEvent
unfolding encode_batch str_eq
batch_of event = elim (encode_batch crates config event) [ err e ↦ [] | ok records ↦ records ]

encode_batch-SameRow_example :
    (topic : Str) × ((key : Option (List ℕ)) × (AreAt crates config topic key (batch_of created)
        × AreAt crates config topic key (batch_of deleted)))
unfolding batch_of get
encode_batch-SameRow_example =
    encode_batch-SameRow crates config created deleted (batch_of created) (batch_of deleted) refl
      refl (refl, tt) refl refl
