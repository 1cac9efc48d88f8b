-- ===== src/Postgres/History/Match.antt =====
-- crates/rustium-postgresql/src/schema_history.rs: a schema that was made from a relation message is
-- found again by the columns of the message.
use rustium.Common.{
  ◌≡◌, refl, ap, sym, ◌∙◌, Bool, true, false, ◌⊎◌, ◌||◌, Option, none, some, List, [], ◌∷◌, Str,
  ◌==◌, str_eq, str_eq_iff, length, if◌then◌else◌, arith, Bool-cases, inl, inr,
}
use rustium.Common.Int.{ℤ, pos, negsuc}
use rustium.Core.Error.{ok, err, invariant}
use rustium.Core.Event.{FieldSchema}
use rustium.Columns.{find_field}
use rustium.Postgres.Controller.{TableSchema}
use rustium.Postgres.History.Relation.{
  postgres_field_type_name, is_opaque, one_of_names, type_of, first_of, unless_opaque, is_optional,
  RelationColumn, same_integer, has_type, matching_field, field_of, unknown_field, fields_of,
  opaque_of, column_types_of, schema_from_relation,
}

abbrev pub is_listed : Str → List Str → Bool
is_listed name [] = false
is_listed name (other ∷ rest) = str_eq other name || is_listed name rest

abbrev pub is_named : Str → List RelationColumn → Bool
is_named name [] = false
is_named name (column ∷ rest) = str_eq column.name name || is_named name rest

abbrev pub AreDistinct : List RelationColumn → Type 0
AreDistinct [] = Unit
AreDistinct (column ∷ rest) = (is_named column.name rest ≡ false) × AreDistinct rest

-- The column is one of those, and its type is known and resolved to that name.
abbrev pub IsResolved : RelationColumn → Str → List RelationColumn → List (Str × Bool) → Type 0
IsResolved column name [] resolved = ⊥
IsResolved column name (other ∷ rest) [] = ⊥
IsResolved column name (other ∷ rest) (type ∷ resolved) =
    ((other ≡ column) × (type ≡ (name, true))) ⊎ IsResolved column name rest resolved

same_integer_refl : (n : ℤ) → same_integer n n ≡ true
unfolding same_integer
same_integer_refl (pos n) = ground arith
same_integer_refl (negsuc n) = ground arith

same_name : (s : Str) → str_eq s s ≡ true
same_name s = (str_eq_iff s s).1 refl

is_named-IsResolved :
    (column : RelationColumn) (name : Str) (columns : List RelationColumn)
    (resolved : List (Str × Bool))
    → IsResolved column name columns resolved
    → is_named column.name columns ≡ true
is_named-IsResolved column name [] resolved h = absurd h
is_named-IsResolved column name (other ∷ rest) [] h = absurd h
is_named-IsResolved column name (other ∷ rest) (type ∷ resolved) (inl (e, t)) =
    rw (e, same_name column.name) refl
is_named-IsResolved column name (other ∷ rest) (type ∷ resolved) (inr later) =
    ground (arith, is_named-IsResolved column name rest resolved later)

apart :
    (other column : RelationColumn) (name : Str) (rest : List RelationColumn)
    (resolved : List (Str × Bool))
    → is_named other.name rest ≡ false
    → IsResolved column name rest resolved
    → str_eq other.name column.name ≡ false
apart other column name rest resolved absent here =
    elim (Bool-cases (str_eq other.name column.name)) [
      | inl same ↦
          let e = (str_eq_iff other.name column.name).0 same in
          let found = is_named-IsResolved column name rest resolved here in
          absurd (false-true (sym absent ∙ ap (λ n. is_named n rest) e ∙ found))
      | inr d ↦ d
    ]
  where
    false-true : false ≡ true → ⊥
    false-true h = cc

-- Whether the earlier schema had the column as bytes of an unknown type.
abbrev pub was_opaque : Option TableSchema → Str → Bool
was_opaque none name = false
was_opaque (some schema) name = is_listed name schema.opaque_columns

-- What a field takes over from the catalog's field, from the earlier one, or from neither.
abbrev pub Describes :
    Str → ℤ → Option FieldSchema → Option FieldSchema → Bool → FieldSchema → Type 0
Describes name digits (some known) earlier opaque field =
    (field.type_name ≡ postgres_field_type_name known.type_name digits)
    × (field.optional ≡ known.optional)
Describes name digits none (some earlier) false field =
    (field.type_name ≡ postgres_field_type_name earlier.type_name digits)
    × (field.optional ≡ earlier.optional)
Describes name digits none (some earlier) true field =
    (field.type_name ≡ postgres_field_type_name name digits) × (field.optional ≡ earlier.optional)
Describes name digits none none opaque field =
    (field.type_name ≡ postgres_field_type_name name digits) × (field.optional ≡ true)

-- The column's field is found, and is such.
abbrev pub HasField :
    RelationColumn
    → Str
    → ℤ
    → Option FieldSchema
    → Option FieldSchema
    → Bool
    → Option FieldSchema
    → Type 0
HasField column name digits known earlier opaque found =
    (field : FieldSchema) × ((found ≡ some field)
      × ((field.name ≡ column.name)
          × ((field.primary_key ≡ column.is_key)
              × Describes name digits known earlier opaque field)))

is_opaque-was_opaque :
    (schema : Option TableSchema) (name : Str) → is_opaque schema name ≡ was_opaque schema name
is_opaque-was_opaque none name = refl
is_opaque-was_opaque (some schema) name = same_names schema.opaque_columns
  where
    same_names : (names : List Str) → one_of_names name names ≡ is_listed name names
    same_names [] = refl
    same_names (other ∷ rest) = ap (str_eq other name ||◌) (same_names rest)

described :
    (name : Str) (digits : ℤ) (known earlier : Option FieldSchema) (opaque : Bool)
    (column_name : Str) (is_key : Bool)
    → Describes name digits known earlier opaque (record {
      name = column_name;
      type_name =
          postgres_field_type_name
            (type_of (first_of known (unless_opaque opaque earlier)) name)
            digits;
      optional = is_optional (first_of known earlier);
      primary_key = is_key;
    })
described name digits (some known) earlier opaque column_name is_key = (refl, refl)
described name digits none (some earlier) false column_name is_key = (refl, refl)
described name digits none (some earlier) true column_name is_key = (refl, refl)
described name digits none none true column_name is_key = (refl, refl)
described name digits none none false column_name is_key = (refl, refl)

ok_inj : {A : Type 0} {a b : A} → ok a ≡ ok b → a ≡ b
ok_inj h = cc

find_field-skip :
    (name : Str) (b : Bool) (field : FieldSchema) (fields : List FieldSchema)
    → str_eq field.name name ≡ false
    → find_field name (if b then field ∷ fields else fields) ≡ find_field name fields
unfolding find_field
find_field-skip name true field fields h = rw h refl
find_field-skip name false field fields h = refl

module _ (include_unknown_datatypes : Bool) (money_fraction_digits : ℤ)
    (previous catalog : Option TableSchema) (column : RelationColumn) (name : Str) where
  field_here : FieldSchema
  field_here = field_of include_unknown_datatypes money_fraction_digits previous catalog column name

  has_type-columns :
      (columns : List RelationColumn) (resolved : List (Str × Bool))
      → IsResolved column name columns resolved
      → has_type column (column_types_of columns) ≡ true
  unfolding has_type column_types_of
  has_type-columns [] resolved h = absurd h
  has_type-columns (other ∷ rest) [] h = absurd h
  has_type-columns (other ∷ rest) (type ∷ resolved) (inl (e, t)) =
      rw (e, same_name column.name, same_integer_refl column.type_modifier) (ground arith)
  has_type-columns (other ∷ rest) (type ∷ resolved) (inr later) =
      ground (arith, has_type-columns rest resolved later)

  find_field-fields :
      (columns : List RelationColumn) (resolved : List (Str × Bool))
      → AreDistinct columns
      → IsResolved column name columns resolved
      → find_field column.name (
          fields_of include_unknown_datatypes money_fraction_digits previous catalog columns
            resolved)
        ≡ some field_here
  unfolding find_field fields_of field_here field_of unknown_field
  find_field-fields [] resolved d h = absurd h
  find_field-fields (other ∷ rest) [] d h = absurd h
  find_field-fields (other ∷ rest) ((resolved_name, false) ∷ resolved) (absent, d) (inl (e, t)) = cc
  find_field-fields (other ∷ rest) ((resolved_name, true) ∷ resolved) (absent, d) (inl (e, t)) =
      rw (e, ap (λ p. p.0) t, same_name column.name) refl
  find_field-fields (other ∷ rest) ((resolved_name, true) ∷ resolved) (absent, d) (inr later) =
      rw (apart other column name rest resolved absent later)
        (find_field-fields rest resolved d later)
  find_field-fields (other ∷ rest) ((resolved_name, false) ∷ resolved) (absent, d) (inr later) =
      find_field-skip column.name include_unknown_datatypes
        (unknown_field include_unknown_datatypes money_fraction_digits previous catalog other)
        (fields_of include_unknown_datatypes money_fraction_digits previous catalog rest resolved)
        (apart other column name rest resolved absent later)
      ∙ find_field-fields rest resolved d later

  matching_field-field_of :
      (namespace relation_name schema_name : Str) (columns : List RelationColumn)
      (resolved : List (Str × Bool)) (schema : TableSchema)
      → AreDistinct columns
      → IsResolved column name columns resolved
      → schema_from_relation include_unknown_datatypes money_fraction_digits previous catalog
          namespace relation_name schema_name columns resolved
        ≡ ok schema
      → matching_field (some schema) column
        ≡ some
            (field_of include_unknown_datatypes money_fraction_digits previous catalog column name)
  unfolding matching_field schema_from_relation field_here
  matching_field-field_of namespace relation_name schema_name columns resolved schema d here h =
      made (length columns == length resolved) schema h
    where
      made :
          (same : Bool) (schema : TableSchema)
          → (if same
              then ok (record {
                schema = namespace;
                table = relation_name;
                event_schema = record {
                  name = schema_name;
                  version = 1;
                  fields =
                      fields_of include_unknown_datatypes money_fraction_digits previous catalog
                        columns resolved;
                };
                column_types = column_types_of columns;
                opaque_columns =
                    opaque_of include_unknown_datatypes money_fraction_digits previous catalog
                      columns resolved;
              })
              else err (
                  invariant
                    "PostgreSQL relation has another number of columns than of resolved type names"))
            ≡ ok schema
          → matching_field (some schema) column
            ≡ some (
                field_of include_unknown_datatypes money_fraction_digits previous catalog column
                  name)
      made false schema e = cc
      made true schema e =
          ap (λ s. matching_field (some s) column) (sym (ok_inj e))
          ∙ (rw (has_type-columns columns resolved here)
              (find_field-fields columns resolved d here))

  described-field_here :
      (field_here.name ≡ column.name)
      × ((field_here.primary_key ≡ column.is_key)
          × Describes name money_fraction_digits
              (matching_field catalog column)
              (matching_field previous column)
              (was_opaque previous column.name)
              field_here)
  unfolding field_here field_of
  described-field_here = (
    refl,
    (
      refl,
      rw (is_opaque-was_opaque previous column.name) (
          described name money_fraction_digits (matching_field catalog column)
            (matching_field previous column) (was_opaque previous column.name) column.name
            column.is_key),
    ),
  )

  -- Where the columns of a relation message have different names, the schema that is made of the
  -- message has, for each column whose type is known, a field that is found by the name, the type
  -- and the modifier of the column, and that has the column's name and key. Its type name is that
  -- of the catalog's field, else that of the earlier schema's field unless the column was opaque
  -- there, else the resolved one, as postgres_field_type_name names it. Whether it is optional is
  -- that of the catalog's field, else that of the earlier one, else true.
  pub matching_field-schema_from_relation :
      (namespace relation_name schema_name : Str) (columns : List RelationColumn)
      (resolved : List (Str × Bool)) (schema : TableSchema)
      → AreDistinct columns
      → IsResolved column name columns resolved
      → schema_from_relation include_unknown_datatypes money_fraction_digits previous catalog
          namespace relation_name schema_name columns resolved
        ≡ ok schema
      → HasField column name money_fraction_digits
          (matching_field catalog column)
          (matching_field previous column)
          (was_opaque previous column.name)
          (matching_field (some schema) column)
  unfolding field_here
  matching_field-schema_from_relation namespace relation_name schema_name columns resolved schema d
        here h =
      (
        field_here,
        (
          matching_field-field_of namespace relation_name schema_name columns resolved schema d here
              h,
          described-field_here,
        ),
      )
