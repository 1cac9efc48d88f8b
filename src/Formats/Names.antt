-- ===== src/Formats/Names.antt =====
-- crates/rustium-format-avro/src/lib.rs: `adjust_avro_name` and `adjusted_fields`. The function
-- `adjust_protobuf_name` has the same text.
use rustium.Common.{
  ℕ, ◌≡◌, refl, Bool, true, false, not, ◌&&◌, ◌||◌, List, [], ◌∷◌, Str, leb, ◌==◌, str_eq, arith,
  if◌then◌else◌,
}
use rustium.Core.Error.{Result, Error, ok, err, encoding, ◌>>=◌}
use rustium.Core.Event.{FieldSchema}

abbrev pub is_letter : ℕ → Bool
is_letter c = (leb b'a' c && leb c b'z') || (leb b'A' c && leb c b'Z') || c == b'_'

abbrev pub is_digit : ℕ → Bool
is_digit c = leb b'0' c && leb c b'9'

abbrev is_valid_at : Bool → ℕ → Bool
is_valid_at first c = is_letter c || (not first && is_digit c)

unfoldable pub adjust_from : Bool → Str → Str
adjust_from first [] = []
adjust_from first (c ∷ s) = (if is_valid_at first c then c else b'_') ∷ adjust_from false s

unfoldable pub adjust_name : Str → Str
unfolding adjust_from
adjust_name [] = b'_' ∷ []
adjust_name (c ∷ s) = adjust_from true (c ∷ s)

pub record AdjustedField : Type 0 where
  pub source : FieldSchema
  pub name : Str

unfoldable pub owned : Str → List Str → Bool
unfolding str_eq
owned name [] = false
owned name (owner ∷ rest) = str_eq name owner || owned name rest

abbrev pub collision : Error
collision = encoding "Avro field name adjustment maps two fields to one name"

-- The loop of `adjusted_fields`, with the names that have an owner.
unfoldable pub adjust_fields : List Str → List FieldSchema → Result (List AdjustedField)
unfolding adjust_name owned
adjust_fields owners [] = ok []
adjust_fields owners (field ∷ rest) =
    let name = adjust_name field.name in
    let later = adjust_fields (name ∷ owners) rest >>= λ fields.
    ok (record { source = field; name = name } ∷ fields) in
    if owned name owners then err collision else later

unfoldable pub adjusted_fields : List FieldSchema → Result (List AdjustedField)
unfolding adjust_fields
adjusted_fields fields = adjust_fields [] fields

-- A name of Avro and of Protobuf: letters, digits and underscores, and no digit first.
abbrev pub all_valid : Str → Bool
all_valid [] = true
all_valid (c ∷ s) = (is_letter c || is_digit c) && all_valid s

abbrev pub is_name : Str → Bool
is_name [] = false
is_name (c ∷ s) = is_letter c && all_valid s

abbrev pub all_adjusted : List FieldSchema → List AdjustedField
all_adjusted [] = []
all_adjusted (field ∷ rest) =
    record { source = field; name = adjust_name field.name } ∷ all_adjusted rest

-- No two fields have one adjusted name, and none has one that has an owner.
abbrev pub apart : List Str → List FieldSchema → Bool
apart owners [] = true
apart owners (field ∷ rest) =
    not (owned (adjust_name field.name) owners) && apart (adjust_name field.name ∷ owners) rest

abbrev pub AreNames : List AdjustedField → Type 0
AreNames [] = Unit
AreNames (field ∷ rest) = (is_name field.name ≡ true) × AreNames rest

all_valid-adjust_from : (s : Str) → all_valid (adjust_from false s) ≡ true
unfolding adjust_from
all_valid-adjust_from [] = refl
all_valid-adjust_from (c ∷ s) = ground (arith, all_valid-adjust_from s)

is_name-adjust_name : (s : Str) → is_name (adjust_name s) ≡ true
unfolding adjust_name adjust_from
is_name-adjust_name [] = refl
is_name-adjust_name (c ∷ s) = ground (arith, all_valid-adjust_from s)

all_adjusted-AreNames : (fields : List FieldSchema) → AreNames (all_adjusted fields)
all_adjusted-AreNames [] = tt
all_adjusted-AreNames (field ∷ rest) = (is_name-adjust_name field.name, all_adjusted-AreNames rest)

adjust_fields-eq :
    (owners : List Str) (fields : List FieldSchema)
    → adjust_fields owners fields
      ≡ (if apart owners fields then ok (all_adjusted fields) else err collision)
unfolding adjust_fields
adjust_fields-eq owners [] = refl
adjust_fields-eq owners (field ∷ rest) =
    rw (adjust_fields-eq (adjust_name field.name ∷ owners) rest) (
      either (owned (adjust_name field.name) owners) (apart (adjust_name field.name ∷ owners) rest))
  where
    either :
        (taken free : Bool)
        → (if taken
            then err collision
            else (if free then ok (all_adjusted rest) else err collision) >>= λ fields.
                ok (record { source = field; name = adjust_name field.name } ∷ fields))
          ≡ (if not taken && free then ok (all_adjusted (field ∷ rest)) else err collision)
    either true free = refl
    either false true = refl
    either false false = refl

-- The fields of an Avro record are adjusted to their names as Avro names, of letters, digits and
-- underscores that do not start with a digit, where no two of them are adjusted to the same name,
-- and otherwise refused.
pub adjusted_fields-eq :
    (fields : List FieldSchema)
    → (adjusted_fields fields
        ≡ (if apart [] fields then ok (all_adjusted fields) else err collision))
      × AreNames (all_adjusted fields)
unfolding adjusted_fields
adjusted_fields-eq fields = (adjust_fields-eq [] fields, all_adjusted-AreNames fields)
