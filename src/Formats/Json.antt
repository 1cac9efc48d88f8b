-- ===== src/Formats/Json.antt =====
-- crates/rustium-format-json/src/lib.rs and crates/rustium-core/src/event.rs, `DataValue::to_json`:
-- values and rows as JSON. A `serde_json::Map` is its members.
pub mod Encode
pub mod Object
pub mod Key
use rustium.Common.{
  ℕ, Bool, true, false, Option, none, some, List, [], ◌∷◌, Str, codes, str_eq, get, if◌then◌else◌,
}
use rustium.Common.Int.{ℤ, pos, negsuc}
use rustium.Core.Json.{
  Json, Items, Members, null, boolean, natural, negative, float, text, array, object, nil, item,
  end, member,
}
use rustium.Core.Event.{DataValue, Values, Entries, Row, FieldSchema}

-- The texts and bytes that libraries make of values.
pub record JsonCrates : Type 0 where
  pub to_vec : Json → List ℕ
  pub to_string : Json → Str
  pub hex_encode : List ℕ → Str
  pub base64_encode : List ℕ → Str
  pub uuid_text : ℕ → Str
  pub from_f64 : ℕ → Option Json
  pub derived_id : Str → Str → Str
  pub decimal_text : ℕ → Str

-- `map.insert(..)`.
unfoldable pub put_member : Str → Json → Members → Members
unfolding str_eq
put_member key value end = member key value end
put_member key value (member k v rest) =
    let later = put_member key value rest in
    if str_eq k key then member k value rest else member k v later

unfoldable pub get_member : Str → Members → Option Json
unfolding str_eq
get_member key end = none
get_member key (member k v rest) =
    let later = get_member key rest in if str_eq k key then some v else later

abbrev pub integer : ℤ → Json
integer (pos n) = natural n
integer (negsuc n) = negative n

abbrev pub or_null : Option Json → Json
or_null none = null
or_null (some value) = value

module _ (crates : JsonCrates) (unavailable_value : Str) where
  unfoldable mutual
    unfolding put_member

    pub to_json : DataValue → Json
    to_json DataValue.null = null
    to_json (DataValue.boolean b) = boolean b
    to_json (DataValue.int32 n) = integer n
    to_json (DataValue.int64 n) = integer n
    to_json (DataValue.uint64 n) = natural n
    to_json (DataValue.float64 bits) = or_null (crates.from_f64 bits)
    to_json (DataValue.decimal s) = text s
    to_json (DataValue.text s) = text s
    to_json (DataValue.bytes b) = text (crates.hex_encode b)
    to_json (DataValue.date s) = text s
    to_json (DataValue.time s) = text s
    to_json (DataValue.timestamp s) = text s
    to_json (DataValue.uuid n) = text (crates.uuid_text n)
    to_json (DataValue.json value) = value
    to_json (DataValue.array values) = array (values_to_json values)
    to_json (DataValue.map entries) = object (entries_to_json entries)
    to_json DataValue.unavailable = text unavailable_value

    pub values_to_json : Values → Items
    values_to_json Values.nil = nil
    values_to_json (Values.value v rest) = item (to_json v) (values_to_json rest)

    pub entries_to_json : Entries → Members
    entries_to_json Entries.end = end
    entries_to_json (Entries.entry key v rest) = member key (to_json v) (entries_to_json rest)

  -- The row's columns in turn.
  unfoldable pub put_columns : Row → Members → Members
  unfolding put_member to_json
  put_columns [] members = members
  put_columns ((name, value) ∷ rest) members =
      put_columns rest (put_member name (to_json value) members)

  unfoldable pub row_to_json : Row → Json
  unfolding put_columns
  row_to_json row = object (put_columns row end)

  abbrev pub message_to_json : DataValue → Json
  unfolding to_json
  message_to_json (DataValue.bytes b) = text (crates.base64_encode b)
  message_to_json value = to_json value

  unfoldable pub put_messages : Row → Members → Members
  unfolding put_member to_json
  put_messages [] members = members
  put_messages ((name, value) ∷ rest) members =
      put_messages rest (put_member name (message_to_json value) members)

  unfoldable pub logical_message_to_json : Row → Json
  unfolding put_messages
  logical_message_to_json row = object (put_messages row end)

  abbrev pub put_present : Str → Option DataValue → Members → Members
  unfolding put_member to_json
  put_present name none members = members
  put_present name (some value) members = put_member name (to_json value) members

  unfoldable pub key_members : List FieldSchema → Row → Members → Members
  unfolding put_present get
  key_members [] row members = members
  key_members (field ∷ rest) row members =
      key_members rest row
        (if field.primary_key then put_present field.name (get field.name row) members else members)

  abbrev pub not_empty : Members → Option Json
  not_empty end = none
  not_empty (member k v rest) = some (object (member k v rest))

  -- `event_key`.
  unfoldable pub event_key : Row → List FieldSchema → Option Json
  unfolding key_members
  event_key row fields = not_empty (key_members fields row end)
