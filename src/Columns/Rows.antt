-- ===== src/Columns/Rows.antt =====
-- crates/rustium-column-transform/src/lib.rs: `transform_row` column by column.
use rustium.Common.{
  ℕ, ◌≡◌, refl, ◌∙◌, Bool, true, false, ◌||◌, Option, none, some, List, [], ◌∷◌, arith, Str, str_eq,
  str_eq_iff, get, subst, Bool-cases, inl, inr, if◌then◌else◌,
}
use rustium.Core.Event.{DataValue, Row, FieldSchema, EventSchema}
use rustium.Columns.{
  Crates, CompiledRule, transform_value, update_column, transform_fields, transform_row,
}

abbrev pub declares : Str → List FieldSchema → Bool
declares name [] = false
declares name (field ∷ rest) = str_eq field.name name || declares name rest

-- A schema that declares no column twice.
abbrev pub AreDistinct : List FieldSchema → Type 0
AreDistinct [] = Unit
AreDistinct (field ∷ rest) = (declares field.name rest ≡ false) × AreDistinct rest

abbrev pub map_value : (DataValue → DataValue) → Option DataValue → Option DataValue
map_value f none = none
map_value f (some v) = some (f v)

get-update_column :
    (name column : Str) (f : DataValue → DataValue) (row : Row)
    → get name (update_column column f row)
      ≡ (if str_eq column name then map_value f (get name row) else get name row)
unfolding get update_column
get-update_column name column f [] = ground arith
get-update_column name column f ((j, v) ∷ rest) = ground (
  arith,
  get-update_column name column f rest,
  str_eq_iff j name,
  str_eq_iff j column,
  str_eq_iff column name,
)

module _ (crates : Crates) (rules : List CompiledRule) (tables : List Str) (schema : EventSchema)
    (lengths : Str → Option ℕ) where
  abbrev pub value_of : Str → DataValue → DataValue
  value_of name v = transform_value crates rules tables schema name v (lengths name)

  get-updated :
      (name column : Str) (row : Row)
      → get name (update_column column (value_of column) row)
        ≡ (if str_eq column name then map_value (value_of name) (get name row) else get name row)
  get-updated name column row = elim (Bool-cases (str_eq column name)) [
    | inr e ↦ get-update_column name column (value_of column) row ∙ (rw e refl)
    | inl e ↦ rw e (
        subst
          (λ n.
            get n (update_column column (value_of column) row) ≡ map_value (value_of n) (get n row))
          ((str_eq_iff column name).0 e)
          (get-update_column column column (value_of column) row
            ∙ (rw ((str_eq_iff column column).1 refl) refl)))
  ]

  -- The field is of the column, or the rest may be.
  once :
      (same later : Bool) (f : DataValue → DataValue) (value : Option DataValue)
      → (same ≡ true → later ≡ false)
      → (if later
          then map_value f (if same then map_value f value else value)
          else if same
          then map_value f value
          else value)
        ≡ (if same || later then map_value f value else value)
  once true true f value h = let impossible = h refl in cc
  once true false f value h = refl
  once false true f value h = refl
  once false false f value h = refl

  get-transform_fields :
      (name : Str) (fields : List FieldSchema) (row : Row)
      → AreDistinct fields
      → get name (transform_fields crates rules tables schema lengths fields row)
        ≡ (if declares name fields then map_value (value_of name) (get name row) else get name row)
  unfolding transform_fields
  get-transform_fields name [] row d = refl
  get-transform_fields name (field ∷ rest) row (apart, d) =
      get-transform_fields name rest _ d
      ∙ (rw (get-updated name field.name row) (
          once (str_eq field.name name) (declares name rest) (value_of name) (get name row)
            (λ e. subst (λ n. declares n rest ≡ false) ((str_eq_iff field.name name).0 e) apart)))

  -- Where no two fields of the schema have the same name, a transformed row has the columns that it
  -- had before: those of the schema with the transformed value, and the others as they were.
  pub get-transform_row :
      (name : Str) (row : Row)
      → AreDistinct schema.fields
      → get name (transform_row crates rules tables schema lengths row) ≡ (
          if declares name schema.fields
          then map_value (value_of name) (get name row)
          else get name row)
  unfolding transform_row
  get-transform_row name row d = get-transform_fields name schema.fields row d
