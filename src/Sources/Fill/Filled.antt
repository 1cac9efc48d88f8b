-- ===== src/Sources/Fill/Filled.antt =====
-- crates/rustium-postgresql/src/source.rs and crates/rustium-mysql/src/source.rs: what `fill_unavailable` makes of a row.
use rustium.Common.{
  Bool, false, ◌||◌, Option, none, some, List, [], ◌∷◌, ◌++◌, ◌≡◌, refl, ap, ◌∙◌, Str, str_eq,
  str_eq_iff, get, if◌then◌else◌, Bool-cases, inl, inr, arith,
}
use rustium.Core.Event.{DataValue, Row, FieldSchema}
use rustium.Sources.Fill.{value_from, or_unavailable, filled, fill_unavailable}

abbrev pub names : List FieldSchema → Str → Bool
names [] k = false
names (field ∷ fields) k = str_eq field.name k || names fields k

-- The value of a column: the row's own, or else for a field of the schema that before the change.
abbrev pub completed : List FieldSchema → Option Row → Str → Option DataValue → Option DataValue
completed fields before k (some v) = some v
completed fields before k none =
    if names fields k then some (or_unavailable (value_from before k)) else none

abbrev added : Str → Str → DataValue → Option DataValue → Option DataValue
added name k v (some w) = some w
added name k v none = if str_eq name k then some v else none

get-added :
    (row : Row) (name k : Str) (v : DataValue)
    → get k (row ++ ((name, v) ∷ [])) ≡ added name k v (get k row)
unfolding get
get-added [] name k v = refl
get-added ((j, w) ∷ row) name k v = elim (Bool-cases (str_eq j k)) [
  | inl e ↦ rw e refl
  | inr e ↦ rw e (get-added row name k v)
]

completed_skips :
    (field : FieldSchema) (fields : List FieldSchema) (before : Option Row) (k : Str)
    (w : DataValue) (o : Option DataValue) (row : Row)
    → get field.name row ≡ some w
    → get k row ≡ o
    → completed fields before k o ≡ completed (field ∷ fields) before k o
completed_skips field fields before k w (some u) row h g = refl
completed_skips field fields before k w none row h g = elim (Bool-cases (str_eq field.name k)) [
  | inl e ↦ absurd (ground (arith, str_eq_iff field.name k))
  | inr e ↦ rw e refl
]

completed_adds :
    (field : FieldSchema) (fields : List FieldSchema) (before : Option Row) (k : Str)
    (o : Option DataValue)
    → completed fields before k
        (added field.name k (or_unavailable (value_from before field.name)) o)
      ≡ completed (field ∷ fields) before k o
completed_adds field fields before k (some u) = refl
completed_adds field fields before k none = elim (Bool-cases (str_eq field.name k)) [
  | inl e ↦
      rw e (ap (λ n. some (or_unavailable (value_from before n))) ((str_eq_iff field.name k).0 e))
  | inr e ↦ rw e refl
]

filled-completed :
    (field : FieldSchema) (fields : List FieldSchema) (before : Option Row) (row : Row) (k : Str)
    (o : Option DataValue)
    → get field.name row ≡ o
    → completed fields before k (get k (filled o field.name before row))
      ≡ completed (field ∷ fields) before k (get k row)
filled-completed field fields before row k (some w) h =
    completed_skips field fields before k w (get k row) row h refl
filled-completed field fields before row k none h =
    rw (get-added row field.name k (or_unavailable (value_from before field.name)))
      (completed_adds field fields before k (get k row))

-- A row that was filled has its own value where it had one, else for a column of the schema the
-- value before the change, or the mark that it is unavailable, and no other columns.
pub get-fill_unavailable :
    (fields : List FieldSchema) (before : Option Row) (row : Row) (k : Str)
    → get k (fill_unavailable fields before row) ≡ completed fields before k (get k row)
unfolding fill_unavailable
get-fill_unavailable [] before row k = unnamed before k (get k row)
  where
    unnamed : (before : Option Row) (k : Str) (o : Option DataValue) → o ≡ completed [] before k o
    unnamed before k none = refl
    unnamed before k (some v) = refl
get-fill_unavailable (field ∷ fields) before row k =
    get-fill_unavailable fields before (filled (get field.name row) field.name before row) k
    ∙ filled-completed field fields before row k (get field.name row) refl
