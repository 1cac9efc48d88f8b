-- ===== src/Config/Transformations.antt =====
-- crates/rustium-config/src/debezium.rs: `column_transformations` and the names of its properties.
-- A map of properties is the list of its entries in the order of their names.
pub mod Names
pub mod Described
pub mod Matched
pub mod Rules
use rustium.Common.{
  ℕ, ◌+◌, ◌-◌, ◌^◌, Bool, true, false, not, ◌&&◌, ◌||◌, Option, none, some, List, [], ◌∷◌, ◌++◌,
  map, Str, codes, ltb, leb, ◌==◌, str_eq, is_empty, if◌then◌else◌,
}
use rustium.Common.Text.{parse_u64}
use rustium.Common.Text.Numbers.{all_digits}
use rustium.Core.Error.{Result, ok, err, configuration, ◌>>=◌}
use rustium.Columns.{ColumnTransformRule, truncate, mask, hash}
use rustium.Columns.Hash.{
  ColumnHashAlgorithm, ColumnHashVersion, v1, v2, md2, md5, sha1, sha224, sha256, sha384, sha512,
  sha512_224, sha512_256, sha3_224, sha3_256, sha3_384, sha3_512,
}
use rustium.Config.Properties.{PropertyMap}
use rustium.Config.Statements.{split_csv}

-- `text.strip_prefix(..)`, `text.strip_suffix(..)` and `text.split_once(..)` for a text.
unfoldable pub strip_prefix : Str → Str → Option Str
strip_prefix [] s = some s
strip_prefix (p ∷ prefix) [] = none
strip_prefix (p ∷ prefix) (c ∷ s) =
    let rest = strip_prefix prefix s in if c == p then rest else none

abbrev pub put : ℕ → Option Str → Option Str
put c none = none
put c (some s) = some (c ∷ s)

unfoldable pub strip_suffix : Str → Str → Option Str
strip_suffix suffix [] = if is_empty suffix then some [] else none
strip_suffix suffix (c ∷ s) =
    let rest = strip_suffix suffix s in if str_eq (c ∷ s) suffix then some [] else put c rest

abbrev pub put_left : ℕ → Option (Str × Str) → Option (Str × Str)
put_left c none = none
put_left c (some (l, r)) = some (c ∷ l, r)

unfoldable pub split_once_at : Str → Str → Option (Str × Str)
unfolding strip_prefix
split_once_at separator [] = elim (strip_prefix separator []) [
  | none ↦ none
  | some r ↦ some ([], r)
]
split_once_at separator (c ∷ s) = elim (strip_prefix separator (c ∷ s)) [
  | none ↦ put_left c (split_once_at separator s)
  | some r ↦ some ([], r)
]

unfoldable pub contains_dot : Str → Bool
contains_dot [] = false
contains_dot (c ∷ s) = (c == b'.') || contains_dot s

-- `value.parse::<u32>()` of digits.
abbrev pub parsed_length : Option ℕ → Result (Option ℕ)
parsed_length none = err (configuration "Debezium column transformation length is invalid")
parsed_length (some n) =
    if ltb n (2 ^ 32)
    then ok (some n)
    else err (configuration "Debezium column transformation length is invalid")

unfoldable pub length_in : Option Str → Result (Option ℕ)
unfolding parse_u64
length_in none = ok none
length_in (some value) =
    if is_empty value || not (all_digits value) then ok none else parsed_length (parse_u64 value)

unfoldable pub stripped_suffix : Str → Option Str → Option Str
unfolding strip_suffix
stripped_suffix suffix none = none
stripped_suffix suffix (some value) = strip_suffix suffix value

unfoldable pub dynamic_length : Str → Str → Str → Result (Option ℕ)
unfolding strip_prefix length_in stripped_suffix
dynamic_length name prefix suffix = length_in (stripped_suffix suffix (strip_prefix prefix name))

unfoldable pub algorithm_and_salt : Option (Str × Str) → Option (Str × Str)
unfolding contains_dot
algorithm_and_salt none = none
algorithm_and_salt (some (algorithm, salt)) =
    if not (is_empty algorithm) && (not (contains_dot algorithm) && not (is_empty salt))
    then some (algorithm, salt)
    else none

unfoldable pub hash_in : Option Str → Option (Str × Str)
unfolding split_once_at
hash_in none = none
hash_in (some value) = algorithm_and_salt (split_once_at (codes ".with.salt.") value)

unfoldable pub dynamic_hash : Str → Str → Option (Str × Str)
unfolding strip_prefix hash_in
dynamic_hash name prefix = hash_in (strip_prefix prefix name)

-- `char::to_uppercase` where the upper case may be in the name of an algorithm: U+017F is a long s.
abbrev to_uppercase : ℕ → ℕ
to_uppercase c = if leb b'a' c && leb c b'z' then c - 32 else if c == 0x17f then b'S' else c

unfoldable pub normalized : Str → Str
normalized [] = []
normalized (c ∷ s) =
    let rest = normalized s in
    if c == b'-' || c == b'_' || c == b'/' then rest else to_uppercase c ∷ rest

abbrev algorithms : List (Str × ColumnHashAlgorithm)
algorithms =
    (codes "MD2", md2)
    ∷ (codes "MD5", md5)
    ∷ (codes "SHA", sha1)
    ∷ (codes "SHA1", sha1)
    ∷ (codes "SHA224", sha224)
    ∷ (codes "SHA256", sha256)
    ∷ (codes "SHA384", sha384)
    ∷ (codes "SHA512", sha512)
    ∷ (codes "SHA512224", sha512_224)
    ∷ (codes "SHA512256", sha512_256)
    ∷ (codes "SHA3224", sha3_224)
    ∷ (codes "SHA3256", sha3_256)
    ∷ (codes "SHA3384", sha3_384)
    ∷ (codes "SHA3512", sha3_512)
    ∷ []

unfoldable pub algorithm_named : Str → List (Str × ColumnHashAlgorithm) → Result ColumnHashAlgorithm
unfolding str_eq
algorithm_named name [] = err (configuration "unsupported JCA column masking hash algorithm")
algorithm_named name ((known, algorithm) ∷ rest) =
    let later = algorithm_named name rest in if str_eq name known then ok algorithm else later

unfoldable pub column_hash_algorithm : Str → Result ColumnHashAlgorithm
unfolding normalized algorithm_named
column_hash_algorithm algorithm = algorithm_named (normalized algorithm) algorithms

unfoldable pub add_length :
    (ℕ → List Str → ColumnTransformRule)
    → Str
    → Option ℕ
    → List ColumnTransformRule
    → List ColumnTransformRule
unfolding split_csv
add_length rule value none rules = rules
add_length rule value (some length) rules = rule length (split_csv value) ∷ rules

-- The rules of one loop over the properties with a length.
unfoldable pub length_rules :
    (ℕ → List Str → ColumnTransformRule) → Str → PropertyMap → Result (List ColumnTransformRule)
unfolding dynamic_length add_length
length_rules rule prefix [] = ok []
length_rules rule prefix ((name, value) ∷ rest) = do
  length ← dynamic_length name prefix (codes ".chars")
  rules ← length_rules rule prefix rest
  ok (add_length rule value length rules)

abbrev pub hash_prefix : ColumnHashVersion → Str
hash_prefix v1 = codes "column.mask.hash."
hash_prefix v2 = codes "column.mask.hash.v2."

unfoldable pub add_hash :
    ColumnHashVersion
    → Str
    → Option (Str × Str)
    → Result (List ColumnTransformRule)
    → Result (List ColumnTransformRule)
unfolding column_hash_algorithm split_csv
add_hash version value none later = later
add_hash version value (some (name, salt)) later = do
  algorithm ← column_hash_algorithm name
  rules ← later
  ok (hash algorithm salt version (split_csv value) ∷ rules)

unfoldable pub hash_rules : ColumnHashVersion → PropertyMap → Result (List ColumnTransformRule)
unfolding dynamic_hash add_hash
hash_rules version [] = ok []
hash_rules version ((name, value) ∷ rest) =
    add_hash version value (dynamic_hash name (hash_prefix version)) (hash_rules version rest)

unfoldable pub column_transformations : PropertyMap → Result (List ColumnTransformRule)
unfolding length_rules hash_rules
column_transformations properties = do
  truncations ← length_rules truncate (codes "column.truncate.to.") properties
  masks ← length_rules mask (codes "column.mask.with.") properties
  hashes ← hash_rules v1 properties
  later_hashes ← hash_rules v2 properties
  ok (truncations ++ (masks ++ (hashes ++ later_hashes)))

abbrev pub is_length : Result (Option ℕ) → Bool
is_length (ok (some _)) = true
is_length _ = false

abbrev pub is_hash : Option (Str × Str) → Bool
is_hash (some _) = true
is_hash none = false

unfoldable pub is_column_transformation_property : Str → Bool
unfolding dynamic_length dynamic_hash
is_column_transformation_property name =
    is_length (dynamic_length name (codes "column.truncate.to.") (codes ".chars"))
    || is_length (dynamic_length name (codes "column.mask.with.") (codes ".chars"))
    || is_hash (dynamic_hash name (codes "column.mask.hash."))
    || is_hash (dynamic_hash name (codes "column.mask.hash.v2."))
