-- ===== src/Config/Properties/RoundTrip.antt =====
-- crates/rustium-config/src/debezium.rs and rustium-debezium/src/source.rs: lemmas on reading a line
-- that was written.
pub mod Lines
pub mod Managed
use rustium.Common.{
  ℕ, zero, suc, ◌+◌, ◌≡◌, refl, sym, ap, ◌∙◌, Bool, true, false, not, ◌&&◌, ◌||◌, Option, none,
  some, List, [], ◌∷◌, ◌++◌, append_assoc, Str, codes, arith, ◌==◌, leb, Bool-cases, inl, inr,
  is_empty, if◌then◌else◌,
}
use rustium.Common.Text.{is_whitespace, is_blank}
use rustium.Common.Text.Numbers.{lacks, lacks-append}
use rustium.Core.Error.{ok}
use rustium.Config.Properties.{
  trim_end, trim_start_matches, trim, flip_at, odd_slashes, unescape_from, unescape, plain, slash,
  is_separator, split_separator,
}
use rustium.Config.Properties.Written.{replace, properties_key, properties_value}

-- A character as it is written in a value.
abbrev pub value_char : ℕ → Str
value_char c =
    if c == b'\\'
    then codes "\\\\"
    else if c == 10
    then codes "\\n"
    else if c == 13
    then codes "\\r"
    else c ∷ []

abbrev pub key_char : ℕ → Str
key_char c = if c == b'\\' then codes "\\\\" else c ∷ []

-- The value as it is written, in one pass.
abbrev pub written_value : Str → Str
written_value [] = []
written_value (c ∷ s) = value_char c ++ written_value s

abbrev pub written_key : Str → Str
written_key [] = []
written_key (c ∷ s) = key_char c ++ written_key s

-- A text with no separator of keys and values.
abbrev pub has_no_separator : Str → Bool
has_no_separator [] = true
has_no_separator (c ∷ s) = not (is_separator c) && has_no_separator s

pub properties_value-eq-written : (s : Str) → properties_value s ≡ written_value s
unfolding properties_value replace
properties_value-eq-written [] = refl
properties_value-eq-written (c ∷ s) = ground (arith, properties_value-eq-written s)

pub properties_key-eq-written :
    (s : Str) → has_no_separator s ≡ true → properties_key s ≡ written_key s
unfolding properties_key replace is_separator is_whitespace
properties_key-eq-written [] h = refl
properties_key-eq-written (c ∷ s) h = ground (arith, properties_key-eq-written s)

pub unescape-written_value : (s : Str) → unescape (written_value s) ≡ ok s
unfolding unescape unescape_from
unescape-written_value [] = refl
unescape-written_value (c ∷ s) = ground (arith, unescape-written_value s)

pub unescape-written_key : (s : Str) → unescape (written_key s) ≡ ok s
unfolding unescape unescape_from
unescape-written_key [] = refl
unescape-written_key (c ∷ s) = ground (arith, unescape-written_key s)

-- An even number of backslashes ends what is written.
pub odd_slashes-written_value : (s : Str) → odd_slashes false (written_value s) ≡ false
unfolding odd_slashes
odd_slashes-written_value [] = refl
odd_slashes-written_value (c ∷ s) = ground (arith, odd_slashes-written_value s)

pub odd_slashes-separator :
    (odd : Bool) (s t : Str) → odd_slashes odd (s ++ (b'=' ∷ t)) ≡ odd_slashes false t
unfolding odd_slashes
odd_slashes-separator odd [] t = refl
odd_slashes-separator odd (c ∷ s) t = odd_slashes-separator (flip_at c odd) s t
