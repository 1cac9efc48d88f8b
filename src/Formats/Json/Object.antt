-- ===== src/Formats/Json/Object.antt =====
-- crates/rustium-format-json/src/lib.rs: the members of a row's object.
use rustium.Common.{
  ◌≡◌, refl, ◌∙◌, Bool, false, ◌||◌, Option, none, some, [], ◌∷◌, arith, Str, str_eq, str_eq_iff,
  get, subst, Bool-cases, inl, inr, if◌then◌else◌,
}
use rustium.Core.Json.{Json, Members, end, member, object}
use rustium.Core.Event.{DataValue, Row}
use rustium.Formats.Json.{JsonCrates, put_member, get_member, to_json, put_columns, row_to_json}

abbrev pub has_column : Str → Row → Bool
has_column name [] = false
has_column name ((other, value) ∷ rest) = str_eq other name || has_column name rest

-- A row, where no column stands twice.
abbrev pub AreColumns : Row → Type 0
AreColumns [] = Unit
AreColumns ((name, value) ∷ rest) = (has_column name rest ≡ false) × AreColumns rest

abbrev pub member_of : Str → Json → Option Json
member_of name (object members) = get_member name members
member_of name _ = none

get-put_member :
    (name key : Str) (value : Json) (members : Members)
    → get_member name (put_member key value members)
      ≡ (if str_eq key name then some value else get_member name members)
unfolding get_member put_member
get-put_member name key value end = refl
get-put_member name key value (member k v rest) = ground (
  arith,
  get-put_member name key value rest,
  str_eq_iff k name,
  str_eq_iff k key,
  str_eq_iff key name,
)

get-absent : (name : Str) (row : Row) → has_column name row ≡ false → get name row ≡ none
unfolding get
get-absent name [] h = refl
get-absent name ((key, value) ∷ rest) h = ground (arith, get-absent name rest)

module _ (crates : JsonCrates) (unavailable_value : Str) where
  abbrev pub json_of : Option DataValue → Option Json → Option Json
  json_of none other = other
  json_of (some value) other = some (to_json crates unavailable_value value)

  get-put_columns :
      (name : Str) (row : Row) (members : Members)
      → AreColumns row
      → get_member name (put_columns crates unavailable_value row members)
        ≡ json_of (get name row) (get_member name members)
  unfolding put_columns get
  get-put_columns name [] members a = refl
  get-put_columns name ((key, value) ∷ rest) members (apart, a) =
      get-put_columns name rest (put_member key (to_json crates unavailable_value value) members) a
      ∙ (rw (get-put_member name key (to_json crates unavailable_value value) members)
          (elim (Bool-cases (str_eq key name)) [
            | inr e ↦ rw e refl
            | inl e ↦
                let absent =
                  subst (λ n. has_column n rest ≡ false) ((str_eq_iff key name).0 e) apart in
                rw (e, get-absent name rest absent) refl
          ]))

  -- Where no column occurs twice in a row, its JSON object has exactly the columns of the row, each
  -- with the JSON of its value.
  member_of-row_to_json :
      (name : Str) (row : Row)
      → AreColumns row
      → member_of name (row_to_json crates unavailable_value row) ≡ json_of (get name row) none
  unfolding row_to_json get_member
  member_of-row_to_json name row a = get-put_columns name row end a
