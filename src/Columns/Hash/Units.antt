-- ===== src/Columns/Hash/Units.antt =====
-- crates/rustium-column-transform/src/lib.rs: Java's modified UTF-8 and a reader of it.
use rustium.Common.{
  ℕ, ◌+◌, ◌-◌, ◌*◌, ◌^◌, ◌<◌, ◌≡◌, refl, ap, ◌∙◌, Option, none, some, List, [], ◌∷◌, ◌++◌, arith,
  ltb, if◌then◌else◌, Str,
}
use rustium.Columns.Hash.{modified_unit, modified_utf8, utf16_char, encode_utf16}

abbrev pub IsUnits : List ℕ → Type 0
IsUnits [] = Unit
IsUnits (u ∷ units) = (u < 2 ^ 16) × IsUnits units

abbrev before_units : ℕ → Option (List ℕ) → Option (List ℕ)
before_units u none = none
before_units u (some units) = some (u ∷ units)

-- Unicode code points.
abbrev pub IsText : Str → Type 0
IsText [] = Unit
IsText (c ∷ s) = (c < 0x110000) × IsText s

-- What is read of a unit: nothing, or its high bits and how many bytes are left.
pub data Partial : Type 0 where
  start : Partial
  one_more two_more : ℕ → Partial

-- The units that Java's `DataInput.readUTF` makes of bytes that are well formed.
unfoldable pub read_from : Partial → List ℕ → Option (List ℕ)
read_from start [] = some []
read_from (one_more high) [] = none
read_from (two_more high) [] = none
read_from start (b ∷ bytes) =
    let single = before_units b (read_from start bytes) in
    let double = read_from (one_more (b - 0xc0)) bytes in
    let triple = read_from (two_more (b - 0xe0)) bytes in
    if ltb b 0x80 then single else if ltb b 0xe0 then double else triple
read_from (one_more high) (b ∷ bytes) =
    before_units (high * 64 + (b - 0x80)) (read_from start bytes)
read_from (two_more high) (b ∷ bytes) = read_from (one_more (high * 64 + (b - 0x80))) bytes

read_unit :
    (u : ℕ) (bytes : List ℕ)
    → u < 2 ^ 16
    → read_from start (modified_unit u ++ bytes) ≡ before_units u (read_from start bytes)
unfolding read_from modified_unit
read_unit u bytes h = ground arith

encode_utf16-IsUnits : (s : Str) → IsText s → IsUnits (encode_utf16 s)
unfolding encode_utf16 utf16_char
encode_utf16-IsUnits [] h = tt
encode_utf16-IsUnits (c ∷ s) (b, h) = ground (arith, encode_utf16-IsUnits s h)

read_from-units :
    (units : List ℕ) → IsUnits units → read_from start (modified_utf8 units) ≡ some units
unfolding modified_utf8 read_from
read_from-units [] h = refl
read_from-units (u ∷ units) (b, h) =
    read_unit u (modified_utf8 units) b ∙ ap (before_units u) (read_from-units units h)

-- Reading the modified UTF-8 that a string is serialized to for its hash gives back its UTF-16 code
-- units, where its code points are below 0x110000.
pub read_from-modified_utf8 :
    (s : Str) → IsText s → read_from start (modified_utf8 (encode_utf16 s)) ≡ some (encode_utf16 s)
read_from-modified_utf8 s h = read_from-units (encode_utf16 s) (encode_utf16-IsUnits s h)
