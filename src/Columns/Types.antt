-- ===== src/Columns/Types.antt =====
-- crates/rustium-column-transform/src/lib.rs: `is_character_type` and `declared_character_length`.
use rustium.Common.{
  ℕ, Bool, true, false, ◌&&◌, ◌||◌, Option, none, some, List, [], ◌∷◌, map, Str, codes, ◌==◌,
  str_eq, if◌then◌else◌,
}
use rustium.Common.Text.{to_ascii_lower, split, split_once, parse_u64}
use rustium.Config.Properties.{trim, trim_start_matches}

-- `text.ends_with("[]")`.
unfoldable pub is_array : Str → Bool
is_array [] = false
is_array (c ∷ s) = str_eq (c ∷ s) (codes "[]") || is_array s

abbrev pub first_part : List Str → Str
first_part [] = []
first_part (part ∷ parts) = part

abbrev pub last_part : List Str → Str
last_part [] = []
last_part (part ∷ []) = part
last_part (part ∷ next ∷ parts) = last_part (next ∷ parts)

abbrev pub is_quote : ℕ → Bool
is_quote c = c == b'"'

-- `text.trim_matches('"')`.
abbrev all_quotes : Str → Bool
all_quotes [] = true
all_quotes (c ∷ s) = is_quote c && all_quotes s

unfoldable pub trim_end_quotes : Str → Str
trim_end_quotes [] = []
trim_end_quotes (c ∷ s) =
    let rest = trim_end_quotes s in if all_quotes (c ∷ s) then [] else c ∷ rest

unfoldable pub one_of : Str → List Str → Bool
unfolding str_eq
one_of s [] = false
one_of s (t ∷ rest) = str_eq s t || one_of s rest

abbrev character_types : List Str
character_types =
    codes "char"
    ∷ codes "character"
    ∷ codes "bpchar"
    ∷ codes "varchar"
    ∷ codes "character varying"
    ∷ codes "nchar"
    ∷ codes "nvarchar"
    ∷ codes "text"
    ∷ codes "ntext"
    ∷ codes "tinytext"
    ∷ codes "mediumtext"
    ∷ codes "longtext"
    ∷ codes "name"
    ∷ []

-- The type's name, without its schema, quotes and arguments.
unfoldable pub base_type : Str → Str
unfolding trim trim_end_quotes trim_start_matches split to_ascii_lower
base_type type_name =
    let unqualified = trim (last_part (split b'.' (trim (first_part (split b'(' type_name))))) in
    map to_ascii_lower (trim_start_matches is_quote (trim_end_quotes unqualified))

unfoldable pub is_character_type : Str → Bool
unfolding is_array base_type one_of trim
is_character_type type_name =
    let trimmed = trim type_name in
    if is_array trimmed then false else one_of (base_type trimmed) character_types

abbrev in_parentheses : Option (Str × Str) → Option Str
in_parentheses none = none
in_parentheses (some (_, suffix)) = elim (split_once b')' suffix) [
  | none ↦ none
  | some (length, _) ↦ some length
]

abbrev parsed : Option Str → Option ℕ
unfolding trim parse_u64
parsed none = none
parsed (some length) = parse_u64 (trim length)

unfoldable pub declared_character_length : Str → Option ℕ
unfolding parsed split_once
declared_character_length type_name = parsed (in_parentheses (split_once b'(' type_name))
