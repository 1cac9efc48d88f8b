-- ===== src/Postgres/History/Relation.antt =====
-- crates/rustium-postgresql/src/schema_history.rs: `schema_from_relation`. A column of a relation
-- message is what the driver has read of it.

use rustium.Common.{
  ℕ, ◌+◌, Bool, true, false, ◌&&◌, ◌||◌, Option, none, some, List, [], ◌∷◌, ◌++◌, Str, codes, ◌==◌,
  str_eq, length, if◌then◌else◌,
}
use rustium.Common.Int.{ℤ, pos, negsuc}
use rustium.Common.Text.{split, decimal}
use rustium.Core.Error.{Result, ok, err, invariant}
use rustium.Core.Event.{FieldSchema}
use rustium.Config.Properties.{trim, trim_start_matches}
use rustium.Config.Transformations.{strip_suffix}
use rustium.Columns.Types.{first_part, last_part, is_quote, trim_end_quotes}
use rustium.Columns.{find_field}
use rustium.Postgres.Controller.{TableSchema, PostgresColumnType}

pub record RelationColumn : Type 0 where
  pub name : Str
  pub type_id : ℕ
  pub type_modifier : ℤ
  pub is_key : Bool

abbrev integer_text : ℤ → Str
integer_text (pos n) = decimal n
integer_text (negsuc n) = b'-' ∷ decimal (n + 1)

unfoldable pub same_integer : ℤ → ℤ → Bool
same_integer (pos m) (pos n) = m == n
same_integer (negsuc m) (negsuc n) = m == n
same_integer _ _ = false

abbrev base_name : Str → Str
base_name scalar =
    trim_start_matches is_quote
      (trim_end_quotes (trim (last_part (split b'.' (trim (first_part (split b'(' scalar)))))))

abbrev money_name : Str → Str → Str → ℤ → Str
money_name type_name scalar suffix money_fraction_digits =
    if str_eq (base_name scalar) (codes "money")
    then codes "money(" ++ integer_text money_fraction_digits ++ codes ")" ++ suffix
    else type_name

unfoldable pub postgres_field_type_name : Str → ℤ → Str
unfolding trim strip_suffix
postgres_field_type_name type_name money_fraction_digits =
    elim (strip_suffix (codes "[]") (trim type_name)) [
      | some scalar ↦ money_name type_name scalar (codes "[]") money_fraction_digits
      | none ↦ money_name type_name (trim type_name) [] money_fraction_digits
    ]

unfoldable pub has_type : RelationColumn → List PostgresColumnType → Bool
unfolding same_integer
has_type column [] = false
has_type column (candidate ∷ rest) =
    (str_eq candidate.name column.name
      && candidate.type_oid == column.type_id
      && same_integer candidate.type_modifier column.type_modifier)
    || has_type column rest

unfoldable pub matching_field : Option TableSchema → RelationColumn → Option FieldSchema
unfolding has_type find_field
matching_field none column = none
matching_field (some schema) column =
    if has_type column schema.column_types
    then find_field column.name schema.event_schema.fields
    else none

abbrev pub one_of_names : Str → List Str → Bool
one_of_names name [] = false
one_of_names name (other ∷ rest) = str_eq other name || one_of_names name rest

abbrev pub is_opaque : Option TableSchema → Str → Bool
is_opaque none name = false
is_opaque (some schema) name = one_of_names name schema.opaque_columns

abbrev pub first_of : Option FieldSchema → Option FieldSchema → Option FieldSchema
first_of none field = field
first_of (some field) _ = some field

abbrev pub unless_opaque : Bool → Option FieldSchema → Option FieldSchema
unless_opaque true field = none
unless_opaque false field = field

abbrev pub is_optional : Option FieldSchema → Bool
is_optional none = true
is_optional (some field) = field.optional

abbrev pub type_of : Option FieldSchema → Str → Str
type_of none resolved = resolved
type_of (some field) resolved = field.type_name

unfoldable pub column_types_of : List RelationColumn → List PostgresColumnType
column_types_of [] = []
column_types_of (column ∷ columns) =
    record { name = column.name; type_oid = column.type_id; type_modifier = column.type_modifier }
    ∷ column_types_of columns

module _ (include_unknown_datatypes : Bool) (money_fraction_digits : ℤ)
    (previous catalog : Option TableSchema) where
  unfoldable pub field_of : RelationColumn → Str → FieldSchema
  unfolding matching_field postgres_field_type_name
  field_of column resolved =
      let catalog_field = matching_field catalog column in
      let previous_field = matching_field previous column in
      record {
        name = column.name;
        type_name =
            postgres_field_type_name
              (type_of
                (first_of catalog_field
                  (unless_opaque (is_opaque previous column.name) previous_field))
                resolved)
              money_fraction_digits;
        optional = is_optional (first_of catalog_field previous_field);
        primary_key = column.is_key;
      }

  unfoldable pub unknown_field : RelationColumn → FieldSchema
  unfolding matching_field
  unknown_field column = record {
    name = column.name;
    type_name = codes "bytea";
    optional =
        is_optional (first_of (matching_field catalog column) (matching_field previous column));
    primary_key = column.is_key;
  }

  -- The fields of the columns, of which those of an unknown type are left out or opaque.
  unfoldable pub fields_of : List RelationColumn → List (Str × Bool) → List FieldSchema
  unfolding field_of unknown_field
  fields_of [] resolved = []
  fields_of (column ∷ columns) [] = []
  fields_of (column ∷ columns) ((name, true) ∷ resolved) =
      field_of column name ∷ fields_of columns resolved
  fields_of (column ∷ columns) ((name, false) ∷ resolved) =
      if include_unknown_datatypes
      then unknown_field column ∷ fields_of columns resolved
      else fields_of columns resolved

  unfoldable pub opaque_of : List RelationColumn → List (Str × Bool) → List Str
  opaque_of [] resolved = []
  opaque_of (column ∷ columns) [] = []
  opaque_of (column ∷ columns) ((name, true) ∷ resolved) = opaque_of columns resolved
  opaque_of (column ∷ columns) ((name, false) ∷ resolved) =
      if include_unknown_datatypes
      then column.name ∷ opaque_of columns resolved
      else opaque_of columns resolved

  unfoldable pub schema_from_relation :
      Str → Str → Str → List RelationColumn → List (Str × Bool) → Result TableSchema
  unfolding fields_of opaque_of column_types_of
  schema_from_relation namespace relation_name schema_name columns resolved_types =
      if length columns == length resolved_types
      then ok (record {
        schema = namespace;
        table = relation_name;
        event_schema = record {
          name = schema_name;
          version = 1;
          fields = fields_of columns resolved_types;
        };
        column_types = column_types_of columns;
        opaque_columns = opaque_of columns resolved_types;
      })
      else err (
          invariant "PostgreSQL relation has another number of columns than of resolved type names")
