-- ===== src/Config/Properties/RoundTrip/Managed.antt =====
-- crates/rustium-debezium/src/source.rs, `write_managed_config`: what a reader finds in the file.
use rustium.Common.{
  ◌≡◌, refl, sym, ap, ◌∙◌, true, false, some, [], ◌∷◌, ◌++◌, append_assoc, Str, codes, arith,
  Bool-cases, inl, inr, if◌then◌else◌, str_eq, str_eq_iff,
}
use rustium.Common.Text.{is_whitespace}
use rustium.Common.Assoc.{find, insert}
use rustium.Cache.Keys.{find-insert}
use rustium.Core.Error.{ok, ◌>>=◌}
use rustium.Config.Properties.{PropertyMap, parse_properties, is_separator, is_comment}
use rustium.Config.Properties.Written.{
  is_owned, source_lines, first_lines, join_lines, managed_config,
}
use rustium.Config.Properties.RoundTrip.{
  has_no_separator, written_key, written_value, properties_key-eq-written,
  properties_value-eq-written,
}
use rustium.Config.Properties.RoundTrip.Lines.{
  starts_with_separator, ends_with_space, IsEntry, AreEntries, line_of, lines_of_entries,
  insert_all, parse_properties-entries,
}

-- A value that a line can hold: it neither starts with `=`, `:` or white space nor ends with white
-- space.
pub record IsValue (value : Str) : Type 0 where
  pub starts : starts_with_separator value ≡ false
  pub ends : ends_with_space value ≡ false

abbrev held :
    {key value : Str}
    → has_no_separator key ≡ true
    → is_comment key ≡ false
    → IsValue value
    → IsEntry key value
held k c v = record { key_apart = k; key_shown = c; value_starts = v.starts; value_ends = v.ends }

-- The keys have no separator, and the values are such.
abbrev pub AreProperties : PropertyMap → Type 0
AreProperties [] = Unit
AreProperties ((key, value) ∷ rest) =
    (has_no_separator key ≡ true) × (IsValue value × AreProperties rest)

abbrev pub source_entries : PropertyMap → PropertyMap
source_entries [] = []
source_entries ((key, value) ∷ rest) =
    let later = source_entries rest in
    if is_owned key then later else (codes "debezium.source." ++ key, value) ∷ later

abbrev pub first_entries : Str → Str → Str → Str → PropertyMap
first_entries connector_class offset_file schema_history_file endpoint =
    (codes "debezium.sink.type", codes "http")
    ∷ (codes "debezium.sink.http.url", endpoint)
    ∷ (codes "debezium.sink.http.batch.enabled", codes "false")
    ∷ (codes "debezium.format.key", codes "json")
    ∷ (codes "debezium.format.key.schemas.enable", codes "false")
    ∷ (codes "debezium.format.value", codes "json")
    ∷ (codes "debezium.format.value.schemas.enable", codes "false")
    ∷ (codes "debezium.source.connector.class", connector_class)
    ∷ (
      codes "debezium.source.offset.storage",
      codes "org.apache.kafka.connect.storage.FileOffsetBackingStore",
    )
    ∷ (codes "debezium.source.offset.storage.file.filename", offset_file)
    ∷ (codes "debezium.source.offset.flush.interval.ms", codes "0")
    ∷ (
      codes "debezium.source.schema.history.internal",
      codes "io.debezium.storage.file.history.FileSchemaHistory",
    )
    ∷ (codes "debezium.source.schema.history.internal.file.filename", schema_history_file)
    ∷ []

first_lines-entries :
    (c o h e : Str) → first_lines c o h e ≡ lines_of_entries (first_entries c o h e)
unfolding first_lines
first_lines-entries c o h e =
    rw
      (
        properties_value-eq-written c,
        properties_value-eq-written o,
        properties_value-eq-written h,
        properties_value-eq-written e,
      )
      refl

source_lines-entries :
    (properties : PropertyMap)
    → AreProperties properties
    → source_lines properties ≡ lines_of_entries (source_entries properties)
unfolding source_lines
source_lines-entries [] h = refl
source_lines-entries ((key, value) ∷ rest) (k, (v, h)) =
    rw (properties_key-eq-written key k, properties_value-eq-written value)
      (elim (Bool-cases (is_owned key)) [
        | inl owned ↦ rw owned (source_lines-entries rest h)
        | inr free ↦
            rw
              (
                free,
                append_assoc (codes "debezium.source." ++ written_key key) (codes "=")
                    (written_value value),
                append_assoc (codes "debezium.source.") (written_key key)
                    (codes "=" ++ written_value value),
              )
              (ap (line_of (codes "debezium.source." ++ key) value ∷◌)
                (source_lines-entries rest h))
      ])

has_no_separator-append :
    (s t : Str)
    → has_no_separator s ≡ true
    → has_no_separator t ≡ true
    → has_no_separator (s ++ t) ≡ true
has_no_separator-append [] t h k = k
has_no_separator-append (c ∷ s) t h k = ground (arith, has_no_separator-append s t)

first-AreEntries :
    (c o h e : Str)
    → IsValue c
    → IsValue o
    → IsValue h
    → IsValue e
    → AreEntries (first_entries c o h e)
unfolding is_separator is_whitespace
first-AreEntries c o h e vc vo vh ve = (
  held refl refl (record { starts = refl; ends = refl }),
  (
    held refl refl ve,
    (
      held refl refl (record { starts = refl; ends = refl }),
      (
        held refl refl (record { starts = refl; ends = refl }),
        (
          held refl refl (record { starts = refl; ends = refl }),
          (
            held refl refl (record { starts = refl; ends = refl }),
            (
              held refl refl (record { starts = refl; ends = refl }),
              (
                held refl refl vc,
                (
                  held refl refl (record { starts = refl; ends = refl }),
                  (
                    held refl refl vo,
                    (
                      held refl refl (record { starts = refl; ends = refl }),
                      (
                        held refl refl (record { starts = refl; ends = refl }),
                        (held refl refl vh, tt),
                      ),
                    ),
                  ),
                ),
              ),
            ),
          ),
        ),
      ),
    ),
  ),
)

source-AreEntries :
    (properties : PropertyMap) → AreProperties properties → AreEntries (source_entries properties)
unfolding is_separator is_whitespace
source-AreEntries [] h = tt
source-AreEntries ((key, value) ∷ rest) (k, (v, h)) = elim (Bool-cases (is_owned key)) [
  | inl owned ↦ rw owned (source-AreEntries rest h)
  | inr free ↦ rw free (
    held (has_no_separator-append (codes "debezium.source.") key refl k) refl v,
    source-AreEntries rest h,
  )
]

lines_of_entries-append :
    (xs ys : PropertyMap) → lines_of_entries (xs ++ ys) ≡ lines_of_entries xs ++ lines_of_entries ys
lines_of_entries-append [] ys = refl
lines_of_entries-append ((key, value) ∷ xs) ys =
    ap (line_of key value ∷◌) (lines_of_entries-append xs ys)

AreEntries-append : (xs ys : PropertyMap) → AreEntries xs → AreEntries ys → AreEntries (xs ++ ys)
AreEntries-append [] ys h k = k
AreEntries-append ((key, value) ∷ xs) ys (e, h) k = (e, AreEntries-append xs ys h k)

insert_all-append :
    (xs ys m : PropertyMap) → insert_all (xs ++ ys) m ≡ insert_all ys (insert_all xs m)
insert_all-append [] ys m = refl
insert_all-append ((key, value) ∷ xs) ys m = insert_all-append xs ys (insert str_eq key value m)

source_apart :
    (key other : Str)
    → is_owned key ≡ true
    → is_owned other ≡ false
    → str_eq (codes "debezium.source." ++ other) (codes "debezium.source." ++ key) ≡ false
source_apart key other h k =
    elim (Bool-cases
      (str_eq (codes "debezium.source." ++ other) (codes "debezium.source." ++ key))) [
        | inl e ↦ let same = (str_eq_iff _ _).0 e in cc
        | inr e ↦ e
      ]

find-source_entries :
    (key : Str) (properties m : PropertyMap)
    → is_owned key ≡ true
    → find str_eq (codes "debezium.source." ++ key) (insert_all (source_entries properties) m)
      ≡ find str_eq (codes "debezium.source." ++ key) m
find-source_entries key [] m h = refl
find-source_entries key ((other, value) ∷ rest) m h = elim (Bool-cases (is_owned other)) [
  | inl owned ↦ rw owned (find-source_entries key rest m h)
  | inr free ↦ rw free (
      find-source_entries key rest (insert str_eq (codes "debezium.source." ++ other) value m) h
      ∙ find-insert str_eq str_eq_iff (codes "debezium.source." ++ key)
          (codes "debezium.source." ++ other) value m
      ∙ (rw (source_apart key other h free) refl))
]

module _ (c o h e : Str) (properties : PropertyMap) (class_held : IsValue c)
    (offset_held : IsValue o) (history_held : IsValue h) (endpoint_held : IsValue e)
    (held_properties : AreProperties properties) where
  -- Where the keys of the properties have no separator and neither their values nor the class, the
  -- files and the endpoint start with a separator or end with white space, parsing the properties
  -- file that the bridge writes gives the map of its own settings and, over them, of the properties
  -- that it does not own.
  pub parse_properties-managed_config :
      (managed_config (some c) properties o h e >>= parse_properties)
      ≡ ok (insert_all (first_entries c o h e ++ source_entries properties) [])
  unfolding managed_config
  parse_properties-managed_config =
      let lines_eq =
        ap (◌++ source_lines properties) (first_lines-entries c o h e)
        ∙ ap (lines_of_entries (first_entries c o h e) ++◌)
            (source_lines-entries properties held_properties)
        ∙ sym (lines_of_entries-append (first_entries c o h e) (source_entries properties)) in
      ap (λ ls. parse_properties (join_lines ls)) lines_eq
      ∙ parse_properties-entries (first_entries c o h e ++ source_entries properties) (
          AreEntries-append (first_entries c o h e) (source_entries properties)
            (first-AreEntries c o h e class_held offset_held history_held endpoint_held)
            (source-AreEntries properties held_properties))

  -- Under the same conditions, a property that the bridge owns has in the file the value that the
  -- bridge gives to it, if any, whatever the properties of the user are.
  managed_config-owned :
      (key : Str)
      → is_owned key ≡ true
      → (m : PropertyMap) × (((managed_config (some c) properties o h e >>= parse_properties)
            ≡ ok m)
          × (find str_eq (codes "debezium.source." ++ key) m
              ≡ find str_eq
                  (codes "debezium.source." ++ key)
                  (insert_all (first_entries c o h e) [])))
  managed_config-owned key owned = (
    insert_all (first_entries c o h e ++ source_entries properties) [],
    (
      parse_properties-managed_config,
      ap (find str_eq (codes "debezium.source." ++ key))
            (insert_all-append (first_entries c o h e) (source_entries properties) [])
          ∙ find-source_entries key properties (insert_all (first_entries c o h e) []) owned,
    ),
  )
