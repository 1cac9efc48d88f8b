-- ===== src/Config/Properties/Written.antt =====
-- crates/rustium-debezium/src/source.rs: `write_managed_config`, the properties file that is
-- written for a managed Debezium Server; what is written to the file is a text here.
use rustium.Common.{
  ℕ, Bool, false, ◌||◌, Option, none, some, List, [], ◌∷◌, ◌++◌, Str, codes, ◌==◌, str_eq,
  if◌then◌else◌,
}
use rustium.Core.Error.{Result, ok, err, configuration}

-- `text.replace(from, to)` for one character.
unfoldable pub replace : ℕ → Str → Str → Str
replace from to [] = []
replace from to (c ∷ s) = (if c == from then to else c ∷ []) ++ replace from to s

unfoldable pub properties_key : Str → Str
unfolding replace
properties_key value =
    replace b':' (codes "\\:") (replace b'=' (codes "\\=") (replace b'\\' (codes "\\\\") value))

unfoldable pub properties_value : Str → Str
unfolding replace
properties_value value =
    replace 13 (codes "\\r") (replace 10 (codes "\\n") (replace b'\\' (codes "\\\\") value))

-- The properties that the bridge sets itself.
abbrev pub owned_keys : List Str
owned_keys =
    codes "connector.class"
    ∷ codes "key.converter"
    ∷ codes "value.converter"
    ∷ codes "key.converter.schemas.enable"
    ∷ codes "value.converter.schemas.enable"
    ∷ codes "offset.storage"
    ∷ codes "offset.storage.file.filename"
    ∷ codes "offset.flush.interval.ms"
    ∷ codes "schema.history.internal"
    ∷ codes "schema.history.internal.file.filename"
    ∷ []

unfoldable pub one_of : Str → List Str → Bool
one_of s [] = false
one_of s (t ∷ rest) = str_eq s t || one_of s rest

unfoldable pub is_owned : Str → Bool
unfolding one_of
is_owned key = one_of key owned_keys

unfoldable pub source_lines : List (Str × Str) → List Str
source_lines [] = []
source_lines ((key, value) ∷ rest) =
    let line =
      codes "debezium.source." ++ properties_key key ++ codes "=" ++ properties_value value in
    let later = source_lines rest in if is_owned key then later else line ∷ later

unfoldable pub first_lines : Str → Str → Str → Str → List Str
unfolding properties_value
first_lines connector_class offset_file schema_history_file endpoint =
    codes "debezium.sink.type=http"
    ∷ (codes "debezium.sink.http.url=" ++ properties_value endpoint)
    ∷ codes "debezium.sink.http.batch.enabled=false"
    ∷ codes "debezium.format.key=json"
    ∷ codes "debezium.format.key.schemas.enable=false"
    ∷ codes "debezium.format.value=json"
    ∷ codes "debezium.format.value.schemas.enable=false"
    ∷ (codes "debezium.source.connector.class=" ++ properties_value connector_class)
    ∷ codes "debezium.source.offset.storage=org.apache.kafka.connect.storage.FileOffsetBackingStore"
    ∷ (codes "debezium.source.offset.storage.file.filename=" ++ properties_value offset_file)
    ∷ codes "debezium.source.offset.flush.interval.ms=0"
    ∷ codes
        "debezium.source.schema.history.internal=io.debezium.storage.file.history.FileSchemaHistory"
    ∷ (codes "debezium.source.schema.history.internal.file.filename="
        ++ properties_value schema_history_file)
    ∷ []

-- `lines.join("\n")`, where an empty line was pushed last.
unfoldable pub join_lines : List Str → Str
join_lines [] = []
join_lines (line ∷ rest) = line ++ (10 ∷ join_lines rest)

unfoldable pub managed_config : Option Str → List (Str × Str) → Str → Str → Str → Result Str
unfolding first_lines source_lines join_lines
managed_config none properties offset_file schema_history_file endpoint =
    err (configuration "source does not run through Debezium Server")
managed_config (some connector_class) properties offset_file schema_history_file endpoint = ok (
    join_lines (
      first_lines connector_class offset_file schema_history_file endpoint
      ++ source_lines properties))
