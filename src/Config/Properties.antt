-- ===== src/Config/Properties.antt =====
-- crates/rustium-config/src/debezium.rs: `parse_properties` and `unescape`. A property map is the
-- list of its entries, the one inserted last in front.
pub mod RoundTrip
pub mod Written
use rustium.Common.{
  ℕ, zero, suc, ◌+◌, ◌-◌, ◌*◌, ◌^◌, ◌%◌, Bool, true, false, not, ◌&&◌, ◌||◌, Option, none, some,
  List, [], ◌∷◌, ◌++◌, Str, codes, ltb, leb, ◌==◌, str_eq, is_empty, if◌then◌else◌,
}
use rustium.Common.Text.{is_whitespace, is_blank, split}
use rustium.Common.Assoc.{insert}
use rustium.Core.Error.{Result, ok, err, configuration, ◌>>=◌}

abbrev pub PropertyMap : Type 0
PropertyMap = List (Str × Str)

-- `text.trim_end()` and `text.trim_start_matches(..)`.
unfoldable pub trim_end : Str → Str
unfolding is_blank
trim_end [] = []
trim_end (c ∷ s) = let rest = trim_end s in if is_blank (c ∷ s) then [] else c ∷ rest

unfoldable pub trim_start_matches : (ℕ → Bool) → Str → Str
trim_start_matches test [] = []
trim_start_matches test (c ∷ s) =
    let rest = trim_start_matches test s in if test c then rest else c ∷ s

unfoldable pub trim : Str → Str
unfolding trim_end trim_start_matches is_whitespace
trim s = trim_start_matches is_whitespace (trim_end s)

-- `text.lines()`: no line after a last line feed; the carriage return before one goes.
unfoldable pub without_return : Str → Str
without_return [] = []
without_return (c ∷ []) = if c == 13 then [] else c ∷ []
without_return (c ∷ d ∷ s) = c ∷ without_return (d ∷ s)

unfoldable pub lines_of : List Str → List Str
unfolding without_return
lines_of [] = []
lines_of (last ∷ []) = if is_empty last then [] else last ∷ []
lines_of (line ∷ next ∷ rest) = without_return line ∷ lines_of (next ∷ rest)

unfoldable pub lines : Str → List Str
unfolding lines_of split
lines s = lines_of (split 10 s)

-- Whether an odd number of backslashes ends the text.
abbrev pub flip_at : ℕ → Bool → Bool
flip_at c odd = if c == b'\\' then not odd else false

unfoldable pub odd_slashes : Bool → Str → Bool
odd_slashes odd [] = odd
odd_slashes odd (c ∷ s) = odd_slashes (flip_at c odd) s

-- `trimmed.strip_suffix('\\').unwrap_or(trimmed)`, where a backslash ends the text.
unfoldable pub without_last : Str → Str
without_last [] = []
without_last (c ∷ []) = []
without_last (c ∷ d ∷ s) = c ∷ without_last (d ∷ s)

-- A line that ends in an odd number of backslashes goes on in the next.
unfoldable pub logical_lines : Str → List Str → List Str
unfolding trim_end odd_slashes without_last
logical_lines current [] = if is_empty current then [] else current ∷ []
logical_lines current (raw ∷ rest) =
    let trimmed = trim_end raw in
    let continued = logical_lines (current ++ without_last trimmed) rest in
    let ended = logical_lines [] rest in
    if odd_slashes false trimmed then continued else (current ++ trimmed) ∷ ended

-- `u32::from_str_radix(code, 16)`: a sign is allowed, and at least one digit is wanted.
unfoldable pub hex_digit : ℕ → Option ℕ
hex_digit c =
    if leb b'0' c && leb c b'9'
    then some (c - 48)
    else if leb b'a' c && leb c b'f'
    then some (c - 87)
    else if leb b'A' c && leb c b'F'
    then some (c - 55)
    else none

unfoldable pub hex_value : ℕ → Str → Option ℕ
unfolding hex_digit
hex_value n [] = some n
hex_value n (c ∷ s) = elim (hex_digit c) [ none ↦ none | some d ↦ hex_value (n * 16 + d) s ]

unfoldable pub from_radix_16 : Str → Option ℕ
unfolding hex_value
from_radix_16 [] = none
from_radix_16 (c ∷ s) =
    if c == b'+' then if is_empty s then none else hex_value 0 s else hex_value 0 (c ∷ s)

-- `char::from_u32`: not a surrogate; four digits are below the last character.
unfoldable pub code_point : Option ℕ → Result ℕ
code_point none = err (configuration "invalid Unicode property escape")
code_point (some n) =
    if leb 0xd800 n && leb n 0xdfff
    then err (configuration "invalid Unicode property code point")
    else ok n

-- What is read of an escape: nothing, the backslash, or the digits of `\u`.
pub data Escape : Type 0 where
  plain slash : Escape
  unicode : ℕ → Str → Escape

abbrev pub push : ℕ → Result Str → Result Str
push c rest = do s ← rest; ok (c ∷ s)

abbrev pub push_code : Str → Result Str → Result Str
unfolding code_point from_radix_16
push_code code rest = do c ← code_point (from_radix_16 code); s ← rest; ok (c ∷ s)

abbrev pub escaped : ℕ → ℕ
escaped c =
    if c == b'n'
    then 10
    else if c == b'r'
    then 13
    else if c == b't'
    then 9
    else if c == b'f'
    then 12
    else c

unfoldable pub unescape_from : Escape → Str → Result Str
unfolding code_point from_radix_16
unescape_from plain [] = ok []
unescape_from plain (c ∷ s) =
    let after_slash = unescape_from slash s in
    let rest = push c (unescape_from plain s) in if c == b'\\' then after_slash else rest
unescape_from slash [] = ok (b'\\' ∷ [])
unescape_from slash (c ∷ s) =
    let digits = unescape_from (unicode 3 []) s in
    let rest = push (escaped c) (unescape_from plain s) in if c == b'u' then digits else rest
unescape_from (unicode more code) [] = push_code code (ok [])
unescape_from (unicode zero code) (c ∷ s) = push_code (code ++ (c ∷ [])) (unescape_from plain s)
unescape_from (unicode (suc more) code) (c ∷ s) = unescape_from (unicode more (code ++ (c ∷ []))) s

unfoldable pub unescape : Str → Result Str
unfolding unescape_from
unescape s = unescape_from plain s

unfoldable pub is_separator : ℕ → Bool
unfolding is_whitespace
is_separator c = c == b'=' || c == b':' || is_whitespace c

-- The line before and from its first separator.
abbrev put_left : ℕ → Option (Str × Str) → Option (Str × Str)
put_left c none = none
put_left c (some (key, value)) = some (c ∷ key, value)

unfoldable pub split_separator : Str → Option (Str × Str)
unfolding is_separator
split_separator [] = none
split_separator (c ∷ s) =
    let rest = split_separator s in if is_separator c then some ([], c ∷ s) else put_left c rest

abbrev pub is_comment : Str → Bool
is_comment [] = true
is_comment (c ∷ s) = c == b'#' || c == b'!'

abbrev pub separated : Option (Str × Str) → Result (Str × Str)
separated none = err (configuration "invalid property line")
separated (some parts) = ok parts

unfoldable pub insert_entry : Str → PropertyMap → Result PropertyMap
unfolding split_separator is_separator unescape trim_start_matches insert str_eq
insert_entry line properties = do
  parts ← separated (split_separator line)
  key ← unescape parts.0
  value ← unescape (trim_start_matches is_separator parts.1)
  ok (insert str_eq key value properties)

-- One logical line.
unfoldable pub insert_line : Str → PropertyMap → Result PropertyMap
unfolding trim insert_entry
insert_line raw properties =
    let line = trim raw in if is_comment line then ok properties else insert_entry line properties

unfoldable pub insert_lines : List Str → PropertyMap → Result PropertyMap
unfolding insert_line
insert_lines [] properties = ok properties
insert_lines (line ∷ rest) properties = insert_line line properties >>= insert_lines rest

unfoldable pub parse_properties : Str → Result PropertyMap
unfolding insert_lines logical_lines lines
parse_properties input = insert_lines (logical_lines [] (lines input)) []
