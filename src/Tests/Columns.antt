-- ===== src/Tests/Columns.antt =====
-- Rules that mask and truncate columns of a table.
use rustium.Common.{◌≡◌, refl, true, false, none, some, List, [], ◌∷◌, codes, str_eq, get, arith}
use rustium.Core.Event.{DataValue, Row, EventSchema}
use rustium.Columns.{
  ColumnTransformRule, truncate, mask, hash, Crates, CompiledRule, truncate_to, mask_with,
  sort_rules, transform_row,
}
use rustium.Columns.Hash.{md5, v2, modified_utf8, encode_utf16}
use rustium.Columns.Hash.Units.{start, read_from, read_from-modified_utf8}
use rustium.Columns.Rules.{grouped, sort_rules-eq-grouped}
use rustium.Columns.Rows.{map_value, value_of, get-transform_row}

abbrev rules : List ColumnTransformRule
rules =
    hash md5 (codes "salt") v2 (codes "a" ∷ [])
    ∷ mask 3 (codes "b" ∷ [])
    ∷ truncate 2 (codes "c" ∷ [])
    ∷ mask 1 (codes "d" ∷ [])
    ∷ []

sort_rules-eq-grouped_example : sort_rules rules ≡ grouped rules
sort_rules-eq-grouped_example = sort_rules-eq-grouped rules

read_from-modified_utf8_example :
    read_from start (modified_utf8 (encode_utf16 (0 ∷ 65 ∷ 233 ∷ 0x20ac ∷ 0x1f600 ∷ [])))
    ≡ some (0 ∷ 65 ∷ 233 ∷ 0x20ac ∷ 0xd83d ∷ 0xde00 ∷ [])
unfolding encode_utf16
read_from-modified_utf8_example =
    read_from-modified_utf8 (0 ∷ 65 ∷ 233 ∷ 0x20ac ∷ 0x1f600 ∷ []) (omega arith)

abbrev crates : Crates
crates = record {
  compile_regex = λ pattern. some (str_eq pattern);
  digest = λ algorithm salt value. salt;
}

abbrev compiled : List CompiledRule
compiled =
    record {
      selectors = str_eq (codes "shop.orders.name") ∷ [];
      operation = mask_with (codes "***");
    }
    ∷ []

abbrev schema : EventSchema
schema = record {
  name = codes "orders";
  version = 1;
  fields =
      record { name = codes "id"; type_name = codes "int"; optional = false; primary_key = true }
      ∷ record {
        name = codes "name";
        type_name = codes "varchar(20)";
        optional = true;
        primary_key = false;
      }
      ∷ [];
}

abbrev row : Row
row = (codes "id", DataValue.uint64 7) ∷ (codes "name", DataValue.text (codes "Ann")) ∷ []

get-transform_row_example :
    get
      (codes "name")
      (transform_row crates compiled (codes "shop.orders" ∷ []) schema (λ _. none) row)
    ≡ map_value
        (value_of crates compiled (codes "shop.orders" ∷ []) schema (λ _. none) (codes "name"))
        (get (codes "name") row)
unfolding str_eq
get-transform_row_example =
    get-transform_row crates compiled (codes "shop.orders" ∷ []) schema (λ _. none) (codes "name")
      row (refl, (refl, tt))

masked :
    get
      (codes "name")
      (transform_row crates compiled (codes "shop.orders" ∷ []) schema (λ _. none) row)
    ≡ some (DataValue.text (codes "***"))
unfolding transform_row str_eq get rustium.Columns.transform_value
masked = refl
