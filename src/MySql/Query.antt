-- ===== src/MySql/Query.antt =====
-- crates/rustium-mysql/src/source.rs: what a query event of the binary log does to a transaction.
use rustium.Common.{
  ℕ, ◌-◌, Bool, true, false, ◌&&◌, ◌||◌, ◌==◌, [], ◌∷◌, map, leb, if◌then◌else◌, is_empty, Str,
  str_eq, codes,
}
use rustium.Common.Text.{is_whitespace}

unfoldable pub trim_start : Str → Str
unfolding is_whitespace
trim_start [] = []
trim_start (c ∷ s) = let rest = trim_start s in if is_whitespace c then rest else c ∷ s

-- Without the characters of the test at the end.
unfoldable pub trim_end_matches : (ℕ → Bool) → Str → Str
trim_end_matches f [] = []
trim_end_matches f (c ∷ s) =
    let rest = trim_end_matches f s in if is_empty rest && f c then [] else c ∷ rest

unfoldable pub trim : Str → Str
unfolding trim_start trim_end_matches is_whitespace
trim s = trim_end_matches is_whitespace (trim_start s)

abbrev to_ascii_upper : ℕ → ℕ
to_ascii_upper c = if leb b'a' c && leb c b'z' then c - 32 else c

unfoldable pub to_ascii_uppercase : Str → Str
to_ascii_uppercase = map to_ascii_upper

unfoldable pub starts_with : Str → Str → Bool
starts_with [] s = true
starts_with (p ∷ prefix) [] = false
starts_with (p ∷ prefix) (c ∷ s) = let rest = starts_with prefix s in p == c && rest

unfoldable pub normalized : Str → Str
unfolding trim to_ascii_uppercase
normalized query = to_ascii_uppercase (trim_end_matches (λ c. c == b';') (trim query))

unfoldable pub is_schema_change : Str → Bool
unfolding trim_start to_ascii_uppercase starts_with
is_schema_change query =
    let upper = to_ascii_uppercase (trim_start query) in
    starts_with (codes "ALTER TABLE") upper
    || starts_with (codes "CREATE TABLE") upper
    || starts_with (codes "DROP TABLE") upper
    || starts_with (codes "RENAME TABLE") upper
    || starts_with (codes "TRUNCATE TABLE") upper

pub data QueryKind : Type 0 where
  begins rolls_back commits other : QueryKind

-- The branches of `handle_query`.
unfoldable pub kind_of : Str → QueryKind
unfolding normalized is_schema_change
kind_of query =
    let text = normalized query in
    if str_eq text (codes "BEGIN") || str_eq text (codes "START TRANSACTION")
    then begins
    else if str_eq text (codes "ROLLBACK")
    then rolls_back
    else if str_eq text (codes "COMMIT") || is_schema_change query
    then commits
    else other
