-- ===== src/Common/Text.antt =====
-- What the program uses of Rust's `str`, over code points.
pub mod Numbers
use rustium.Common.{
  ℕ, zero, suc, ◌+◌, ◌-◌, ◌*◌, ◌^◌, ◌/◌, ◌%◌, Bool, true, ◌&&◌, ◌||◌, [], ◌∷◌, ◌++◌, Option, List,
  false, is_empty, none, some, map, Str, ltb, leb, ◌==◌, if◌then◌else◌, str_eq,
}

-- `char::is_whitespace`: the code points with the Unicode property White_Space.
unfoldable pub is_whitespace : ℕ → Bool
is_whitespace c =
    (leb 9 c && leb c 13)
    || c == 32
    || c == 0x85
    || c == 0xa0
    || c == 0x1680
    || (leb 0x2000 c && leb c 0x200a)
    || c == 0x2028
    || c == 0x2029
    || c == 0x202f
    || c == 0x205f
    || c == 0x3000

-- `text.trim().is_empty()`.
unfoldable pub is_blank : Str → Bool
unfolding is_whitespace
is_blank [] = true
is_blank (c ∷ s) = is_whitespace c && is_blank s

unfoldable pub to_ascii_lower : ℕ → ℕ
to_ascii_lower c = if leb b'A' c && leb c b'Z' then c + 32 else c

unfoldable pub eq_ignore_ascii_case : Str → Str → Bool
unfolding to_ascii_lower
eq_ignore_ascii_case s t = str_eq (map to_ascii_lower s) (map to_ascii_lower t)

-- `text.split_once(separator)`.
abbrev put_first : ℕ → Option (Str × Str) → Option (Str × Str)
put_first c none = none
put_first c (some (l, r)) = some (c ∷ l, r)

unfoldable pub split_once : ℕ → Str → Option (Str × Str)
split_once sep [] = none
split_once sep (c ∷ s) = if c == sep then some ([], s) else put_first c (split_once sep s)

-- `n.to_string()`; twenty digits hold every `u64`.
unfoldable pub digits : ℕ → ℕ → Str
digits zero n = []
digits (suc fuel) n =
    let rest = digits fuel (n / 10) in
    if ltb n 10 then (48 + n) ∷ [] else rest ++ ((48 + n % 10) ∷ [])

unfoldable pub decimal : ℕ → Str
unfolding digits
decimal n = digits 20 n

-- `text.split(separator)`: one part more than there are separators.
abbrev pub put_head : ℕ → List Str → List Str
put_head c [] = (c ∷ []) ∷ []
put_head c (part ∷ parts) = (c ∷ part) ∷ parts

unfoldable pub split : ℕ → Str → List Str
split sep [] = [] ∷ []
split sep (c ∷ s) = let rest = split sep s in if c == sep then [] ∷ rest else put_head c rest

abbrev pub is_digit : ℕ → Bool
is_digit c = leb 48 c && leb c 57

-- The digits of a `u64` after those that were read, with the checks for overflow.
unfoldable pub parse_digits : ℕ → Str → Option ℕ
parse_digits value [] = some value
parse_digits value (c ∷ s) =
    let next = value * 10 + (c - 48) in
    let rest = parse_digits next s in if is_digit c && ltb next (2 ^ 64) then rest else none

-- `text.parse::<u64>()`: a sign is allowed, and at least one digit is wanted.
unfoldable pub parse_u64 : Str → Option ℕ
unfolding parse_digits
parse_u64 [] = none
parse_u64 (c ∷ s) =
    if c == b'+' then if is_empty s then none else parse_digits 0 s else parse_digits 0 (c ∷ s)
