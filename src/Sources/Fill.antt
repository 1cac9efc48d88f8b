-- ===== src/Sources/Fill.antt =====
-- `fill_unavailable`, which the PostgreSQL and MySQL sources each have: a row after a change gets
-- the columns that it lacks.
pub mod Filled
use rustium.Common.{Option, none, some, List, [], ◌∷◌, ◌++◌, Str, get}
use rustium.Core.Event.{DataValue, Row, FieldSchema}

-- `contains_key` and `get` on a row, and its new last entry.
abbrev pub value_from : Option Row → Str → Option DataValue
value_from none name = none
value_from (some row) name = get name row

abbrev pub or_unavailable : Option DataValue → DataValue
or_unavailable none = DataValue.unavailable
or_unavailable (some v) = v

abbrev pub filled : Option DataValue → Str → Option Row → Row → Row
filled (some v) name before row = row
filled none name before row = row ++ ((name, or_unavailable (value_from before name)) ∷ [])

unfoldable pub fill_unavailable : List FieldSchema → Option Row → Row → Row
unfolding get
fill_unavailable [] before row = row
fill_unavailable (field ∷ fields) before row =
    fill_unavailable fields before (filled (get field.name row) field.name before row)
