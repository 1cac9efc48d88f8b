-- ===== src/Columns.antt =====
-- crates/rustium-column-transform/src/lib.rs: `ColumnTransformer`. The regular expressions and the
-- digests are parameters; a compiled selector is its test.
pub mod Hash
pub mod Types
pub mod Rules
pub mod Rows
pub mod Values
use rustium.Common.{
  ℕ, zero, suc, ◌+◌, ◌<◌, Bool, true, false, ◌&&◌, ◌||◌, Option, none, some, List, [], ◌∷◌, ◌++◌,
  map, min, Str, codes, leb, str_eq, length, if◌then◌else◌,
}
use rustium.Core.Error.{Result, ok, err, configuration, ◌>>=◌}
use rustium.Core.Event.{DataValue, Row, FieldSchema, EventSchema, ChangeEvent}
use rustium.Columns.Types.{is_character_type, declared_character_length}
use rustium.Columns.Hash.{
  ColumnHashAlgorithm, ColumnHashVersion, v1, v2, utf8, java_serialized_string,
}

pub data ColumnTransformRule : Type 0 where
  truncate mask : ℕ → List Str → ColumnTransformRule
  hash : ColumnHashAlgorithm → Str → ColumnHashVersion → List Str → ColumnTransformRule

unfoldable pub priority : ColumnTransformRule → ℕ
priority (truncate _ _) = 0
priority (mask _ _) = 1
priority (hash _ _ v1 _) = 2
priority (hash _ _ v2 _) = 3

unfoldable pub columns : ColumnTransformRule → List Str
columns (truncate _ selectors) = selectors
columns (mask _ selectors) = selectors
columns (hash _ _ _ selectors) = selectors

pub data TransformOperation : Type 0 where
  truncate_to : ℕ → TransformOperation
  mask_with : Str → TransformOperation
  hash_with : ColumnHashAlgorithm → List ℕ → ColumnHashVersion → TransformOperation

pub record CompiledRule : Type 0 where
  pub selectors : List (Str → Bool)
  pub operation : TransformOperation

pub record Crates : Type 0 where
  pub compile_regex : Str → Option (Str → Bool)
  pub digest : ColumnHashAlgorithm → List ℕ → List ℕ → Str

-- `sort_by_key(|(index, rule)| (rule.priority(), *index))`: the earlier of equal priority first.
unfoldable pub insert_rule :
    ColumnTransformRule → List ColumnTransformRule → List ColumnTransformRule
unfolding priority
insert_rule rule [] = rule ∷ []
insert_rule rule (next ∷ rest) =
    let later = insert_rule rule rest in
    if leb (priority rule) (priority next) then rule ∷ next ∷ rest else next ∷ later

unfoldable pub sort_rules : List ColumnTransformRule → List ColumnTransformRule
unfolding insert_rule
sort_rules [] = []
sort_rules (rule ∷ rest) = insert_rule rule (sort_rules rest)

abbrev repeat : ℕ → ℕ → Str
repeat c zero = []
repeat c (suc n) = c ∷ repeat c n

unfoldable pub operation_of : ColumnTransformRule → TransformOperation
unfolding utf8
operation_of (truncate length _) = truncate_to length
operation_of (mask length _) = mask_with (repeat b'*' length)
operation_of (hash algorithm salt version _) = hash_with algorithm (utf8 salt) version

unfoldable pub take : {A : Type 0} → ℕ → List A → List A
take zero s = []
take (suc n) [] = []
take (suc n) (c ∷ s) = c ∷ take n s

-- `schema.fields.iter().find(|field| field.name == column)`.
unfoldable pub find_field : Str → List FieldSchema → Option FieldSchema
find_field column [] = none
find_field column (field ∷ rest) =
    let later = find_field column rest in if str_eq field.name column then some field else later

unfoldable pub matches_any : List (Str → Bool) → Str → Bool
matches_any [] name = false
matches_any (selector ∷ rest) name = selector name || matches_any rest name

-- Whether the rule selects the column in one of the tables.
unfoldable pub selects : CompiledRule → Str → List Str → Bool
unfolding matches_any
selects rule column [] = false
selects rule column (table ∷ rest) =
    matches_any rule.selectors (table ++ codes "." ++ column) || selects rule column rest

unfoldable pub rule_for : Str → List Str → List CompiledRule → Option CompiledRule
unfolding selects
rule_for column tables [] = none
rule_for column tables (rule ∷ rest) =
    let later = rule_for column tables rest in
    if selects rule column tables then some rule else later

-- `row.get_mut(..)`: the column's entry, where there is one.
unfoldable pub update_column : Str → (DataValue → DataValue) → Row → Row
unfolding str_eq
update_column column f [] = []
update_column column f ((name, value) ∷ rest) =
    let later = update_column column f rest in
    if str_eq name column then (name, f value) ∷ rest else (name, value) ∷ later

unfoldable pub on_others : TransformOperation → DataValue → DataValue
unfolding take
on_others (truncate_to n) (DataValue.bytes value) = DataValue.bytes (take n value)
on_others operation value = value

module _ (crates : Crates) where
  unfoldable pub compile_selector : Str → Result (Str → Bool)
  compile_selector selector = elim (crates.compile_regex (codes "^(?:" ++ selector ++ codes ")$")) [
    | some is_match ↦ ok is_match
    | none ↦ err (configuration "invalid column transformation selector")
  ]

  unfoldable pub compile_selectors : List Str → Result (List (Str → Bool))
  unfolding compile_selector
  compile_selectors [] = ok []
  compile_selectors (selector ∷ rest) = do
    is_match ← compile_selector selector
    later ← compile_selectors rest
    ok (is_match ∷ later)

  unfoldable pub compile_rules : List ColumnTransformRule → Result (List CompiledRule)
  unfolding compile_selectors operation_of columns
  compile_rules [] = ok []
  compile_rules (rule ∷ rest) = do
    selectors ← compile_selectors (columns rule)
    later ← compile_rules rest
    ok (record { selectors = selectors; operation = operation_of rule } ∷ later)

  unfoldable pub new : List ColumnTransformRule → Result (List CompiledRule)
  unfolding compile_rules sort_rules
  new rules = compile_rules (sort_rules rules)

  unfoldable pub hash_string : ColumnHashAlgorithm → List ℕ → ColumnHashVersion → Str → Str
  unfolding java_serialized_string utf8
  hash_string algorithm salt v1 value = crates.digest algorithm salt (java_serialized_string value)
  hash_string algorithm salt v2 value = crates.digest algorithm salt (utf8 value)

  -- `hash.truncate(length.min(hash.len()))`, where a length is declared.
  unfoldable pub limited : Option ℕ → Str → Str
  unfolding take
  limited none digest = digest
  limited (some n) digest = take n digest

  abbrev or_else : Option ℕ → Option ℕ → Option ℕ
  or_else none b = b
  or_else (some a) b = some a

  -- The operation on a column whose type holds characters, and on any other.
  unfoldable pub on_characters : TransformOperation → Str → Option ℕ → DataValue → DataValue
  unfolding hash_string limited take declared_character_length
  on_characters (truncate_to n) type_name declared (DataValue.text value) =
      DataValue.text (take n value)
  on_characters (truncate_to n) type_name declared value = value
  on_characters (mask_with stars) type_name declared value = DataValue.text stars
  on_characters (hash_with algorithm salt version) type_name declared (DataValue.text value) =
      DataValue.text (
        limited (or_else declared (declared_character_length type_name))
          (hash_string algorithm salt version value))
  on_characters (hash_with algorithm salt version) type_name declared value = value

  unfoldable pub apply_rule : Option CompiledRule → Str → Option ℕ → DataValue → DataValue
  unfolding on_characters on_others is_character_type
  apply_rule none type_name declared value = value
  apply_rule (some rule) type_name declared value =
      if is_character_type type_name
      then on_characters rule.operation type_name declared value
      else on_others rule.operation value

  -- An undeclared column stays as it is.
  unfoldable pub transform_field :
      List CompiledRule → List Str → Str → Option FieldSchema → DataValue → Option ℕ → DataValue
  unfolding rule_for apply_rule
  transform_field rules tables column none value declared = value
  transform_field rules tables column (some field) value declared =
      apply_rule (rule_for column tables rules) field.type_name declared value

  unfoldable pub transform_value :
      List CompiledRule → List Str → EventSchema → Str → DataValue → Option ℕ → DataValue
  unfolding find_field transform_field
  transform_value rules tables schema column value declared =
      transform_field rules tables column (find_field column schema.fields) value declared

  unfoldable pub transform_fields :
      List CompiledRule → List Str → EventSchema → (Str → Option ℕ) → List FieldSchema → Row → Row
  unfolding update_column transform_value
  transform_fields rules tables schema lengths [] row = row
  transform_fields rules tables schema lengths (field ∷ rest) row =
      transform_fields rules tables schema lengths rest (
        update_column field.name
          (λ value. transform_value rules tables schema field.name value (lengths field.name)) row)

  unfoldable pub transform_row :
      List CompiledRule → List Str → EventSchema → (Str → Option ℕ) → Row → Row
  unfolding transform_fields
  transform_row rules tables schema lengths row =
      transform_fields rules tables schema lengths schema.fields row

  abbrev map_row : (Row → Row) → Option Row → Option Row
  map_row f none = none
  map_row f (some row) = some (f row)

  unfoldable pub transform_event :
      List CompiledRule → List Str → (Str → Option ℕ) → ChangeEvent → ChangeEvent
  unfolding transform_row
  transform_event rules tables lengths event = record event {
    before = map_row (transform_row rules tables event.schema lengths) event.before;
    after = map_row (transform_row rules tables event.schema lengths) event.after;
  }
