-- ===== src/Formats/Numbers.antt =====
-- crates/rustium-format-protobuf/src/lib.rs: `stable_field_number` and `adjusted_fields`. The digest
-- SHA-256 is a parameter.
use rustium.Common.{
  ℕ, ◌+◌, ◌-◌, ◌*◌, ◌%◌, ◌<◌, ◌≤◌, ◌≡◌, ◌⊎◌, inl, inr, refl, ltb→lt, Bool-cases, Bool, true, false,
  ◌&&◌, ◌||◌, List, [], ◌∷◌, Str, leb, ltb, ◌==◌, arith, if◌then◌else◌,
}
use rustium.Core.Error.{Error, Result, ok, err, encoding, ◌>>=◌}
use rustium.Core.Event.{FieldSchema}
use rustium.Formats.Names.{adjust_name, owned}

abbrev pub max_protobuf_field_number : ℕ
max_protobuf_field_number = 536_870_911

abbrev pub reserved_field_start : ℕ
reserved_field_start = 19_000

abbrev pub reserved_field_end : ℕ
reserved_field_end = 19_999

pub record NumberedField (Kind : Type 0) : Type 0 where
  pub source : FieldSchema
  pub name : Str
  pub number : ℕ
  pub kind : Kind

-- `u32::from_be_bytes` of the first four bytes of the digest.
unfoldable pub first_word : List ℕ → ℕ
first_word (a ∷ b ∷ c ∷ d ∷ rest) = ((a * 256 + b) * 256 + c) * 256 + d
first_word _ = 0

unfoldable pub field_number : ℕ → ℕ
field_number raw =
    let number = raw % max_protobuf_field_number + 1 in
    if leb reserved_field_start number && leb number reserved_field_end
    then number + (reserved_field_end - reserved_field_start + 1)
    else number

abbrev pub has_number : ℕ → List ℕ → Bool
has_number n [] = false
has_number n (m ∷ rest) = n == m || has_number n rest

abbrev pub name_collision : Error
name_collision = encoding "Protobuf field name adjustment maps two fields to one name"

abbrev pub number_collision : Error
number_collision = encoding "Protobuf field-number derivation maps two fields to one number"

field_number_bounds :
    (raw : ℕ)
    → (1 ≤ field_number raw)
      × ((field_number raw ≤ max_protobuf_field_number)
          × ((field_number raw < reserved_field_start) ⊎ (reserved_field_end < field_number raw)))
unfolding field_number
field_number_bounds raw = (
  ground arith,
  (
    ground arith,
    elim (Bool-cases (ltb (field_number raw) reserved_field_start)) [
      | inl below ↦ inl (ltb→lt _ _ below)
      | inr above ↦ inr (ground arith)
    ],
  ),
)

inverted :
    {A : Type 0} (taken used : Bool) (r : Result (List A)) (x : A) (result : List A)
    → (if taken
        then err name_collision
        else if used
        then err number_collision
        else r >>= λ fields. ok (x ∷ fields))
      ≡ ok result
    → (taken ≡ false) × ((used ≡ false) × ((xs : List A) × ((r ≡ ok xs) × (result ≡ x ∷ xs))))
inverted true used r x result h = cc
inverted false true r x result h = cc
inverted false false (err e) x result h = cc
inverted false false (ok xs) x result h = (refl, (refl, (xs, (refl, cc))))

module _ {Kind : Type 0} (sha256 : Str → List ℕ) (protobuf_kind : Str → Kind) where
  abbrev pub stable_field_number : Str → ℕ
  stable_field_number name = field_number (first_word (sha256 name))

  abbrev pub numbered : FieldSchema → NumberedField Kind
  numbered field = record {
    source = field;
    name = adjust_name field.name;
    number = stable_field_number field.name;
    kind = protobuf_kind field.type_name;
  }

  -- The loop of `adjusted_fields`, with the names and the numbers that have an owner.
  unfoldable pub number_fields :
      List Str → List ℕ → List FieldSchema → Result (List (NumberedField Kind))
  unfolding adjust_name owned field_number first_word
  number_fields names numbers [] = ok []
  number_fields names numbers (field ∷ rest) =
      let name = adjust_name field.name in
      let number = stable_field_number field.name in
      let later = number_fields (name ∷ names) (number ∷ numbers) rest >>= λ fields.
      ok (numbered field ∷ fields) in
      if owned name names
      then err name_collision
      else if has_number number numbers
      then err number_collision
      else later

  unfoldable pub numbered_fields : List FieldSchema → Result (List (NumberedField Kind))
  unfolding number_fields
  numbered_fields fields = number_fields [] [] fields

  -- Each name and each number is none of those before it.
  abbrev pub AreNew : List Str → List ℕ → List (NumberedField Kind) → Type 0
  AreNew names numbers [] = Unit
  AreNew names numbers (field ∷ rest) =
      (owned field.name names ≡ false)
      × ((has_number field.number numbers ≡ false)
          × AreNew (field.name ∷ names) (field.number ∷ numbers) rest)

  -- The numbers that Protobuf allows.
  abbrev pub AreAllowed : List (NumberedField Kind) → Type 0
  AreAllowed [] = Unit
  AreAllowed (field ∷ rest) =
      ((1 ≤ field.number)
        × ((field.number ≤ max_protobuf_field_number)
            × ((field.number < reserved_field_start) ⊎ (reserved_field_end < field.number))))
      × AreAllowed rest

  number_fields-AreNew :
      (names : List Str) (numbers : List ℕ) (fields : List FieldSchema)
      (result : List (NumberedField Kind))
      → number_fields names numbers fields ≡ ok result
      → AreNew names numbers result × AreAllowed result
  unfolding number_fields
  number_fields-AreNew names numbers [] [] h = (tt, tt)
  number_fields-AreNew names numbers [] (x ∷ xs) h = cc
  number_fields-AreNew names numbers (field ∷ rest) result h =
      let number = stable_field_number field.name in
      let later = number_fields (adjust_name field.name ∷ names) (number ∷ numbers) rest in
      let (free, (unused, (xs, (e, same)))) =
        inverted (owned (adjust_name field.name) names) (has_number number numbers) later
          (numbered field) result h in
      let (new, allowed) =
        number_fields-AreNew (adjust_name field.name ∷ names) (number ∷ numbers) rest xs e in
      rw same
        ((free, (unused, new)), (field_number_bounds (first_word (sha256 field.name)), allowed))

  -- The fields of a Protobuf message that are numbered without an error have different names and
  -- different numbers, and every number is between 1 and 2^29 - 1 and outside the range 19,000 to
  -- 19,999 that Protobuf reserves, whatever the digest is.
  pub numbered_fields-AreNew :
      (fields : List FieldSchema) (result : List (NumberedField Kind))
      → numbered_fields fields ≡ ok result
      → AreNew [] [] result × AreAllowed result
  unfolding numbered_fields
  numbered_fields-AreNew fields result h = number_fields-AreNew [] [] fields result h
