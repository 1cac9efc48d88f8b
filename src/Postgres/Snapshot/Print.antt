-- ===== src/Postgres/Snapshot/Print.antt =====
-- crates/rustium-postgresql/src/incremental_snapshot.rs: `parse_pg_snapshot` against the text that
-- PostgreSQL documents, `xmin:xmax:xip,xip,...`.
use rustium.Common.{ℕ, ◌^◌, ◌<◌, ◌≡◌, refl, true, false, List, [], ◌∷◌, ◌++◌, Str}
use rustium.Common.Text.{decimal, is_digit, split}
use rustium.Common.Text.Numbers.{
  lacks, all_digits-decimal, is_empty-decimal, parse_u64-decimal, lacks-append, lacks-digits,
  split-lacks, split-append,
}
use rustium.Core.Error.{ok}
use rustium.Postgres.Controller.{PgSnapshot}
use rustium.Postgres.Snapshot.{parse_in_progress, parse_pg_snapshot}

abbrev pub print_xids : List ℕ → Str
print_xids [] = []
print_xids (x ∷ []) = decimal x
print_xids (x ∷ y ∷ xs) = decimal x ++ b',' ∷ print_xids (y ∷ xs)

-- The text of a `pg_snapshot`.
abbrev pub print_pg_snapshot : PgSnapshot → Str
print_pg_snapshot s =
    decimal s.xmin ++ (b':' ∷ (decimal s.xmax ++ (b':' ∷ print_xids s.in_progress)))

abbrev pub AreU64 : List ℕ → Type 0
AreU64 [] = Unit
AreU64 (x ∷ xs) = (x < 2 ^ 64) × AreU64 xs

lacks-decimal : (sep n : ℕ) → is_digit sep ≡ false → lacks sep (decimal n) ≡ true
lacks-decimal sep n h = lacks-digits sep (decimal n) h (all_digits-decimal n)

lacks-print_xids : (xs : List ℕ) → lacks b':' (print_xids xs) ≡ true
lacks-print_xids [] = refl
lacks-print_xids (x ∷ []) = lacks-decimal b':' x refl
lacks-print_xids (x ∷ y ∷ xs) =
    lacks-append b':' (decimal x) (b',' ∷ print_xids (y ∷ xs)) (lacks-decimal b':' x refl)
      (lacks-print_xids (y ∷ xs))

parse_in_progress-print :
    (xs : List ℕ) → AreU64 xs → parse_in_progress (split b',' (print_xids xs)) ≡ ok xs
unfolding parse_in_progress split
parse_in_progress-print [] h = refl
parse_in_progress-print (x ∷ []) h =
    rw
      (
        split-lacks b',' (decimal x) (lacks-decimal b',' x refl),
        is_empty-decimal x,
        parse_u64-decimal x h.0,
      )
      refl
parse_in_progress-print (x ∷ y ∷ xs) h =
    rw
      (
        split-append b',' (decimal x) (print_xids (y ∷ xs)) (lacks-decimal b',' x refl),
        is_empty-decimal x,
        parse_u64-decimal x h.0,
        parse_in_progress-print (y ∷ xs) h.1,
      )
      refl

split-print :
    (s : PgSnapshot)
    → split b':' (print_pg_snapshot s)
      ≡ decimal s.xmin ∷ decimal s.xmax ∷ print_xids s.in_progress ∷ []
split-print s =
    rw
      (
        split-append b':' (decimal s.xmin) (decimal s.xmax ++ (b':' ∷ print_xids s.in_progress))
            (lacks-decimal b':' s.xmin refl),
        split-append b':' (decimal s.xmax) (print_xids s.in_progress)
            (lacks-decimal b':' s.xmax refl),
        split-lacks b':' (print_xids s.in_progress) (lacks-print_xids s.in_progress),
      )
      refl

-- The text that PostgreSQL documents for a snapshot, xmin:xmax:xip,xip,..., is parsed to that
-- snapshot, where all its transaction ids are below 2^64.
pub parse_pg_snapshot-print :
    (s : PgSnapshot)
    → s.xmin < 2 ^ 64
    → s.xmax < 2 ^ 64
    → AreU64 s.in_progress
    → parse_pg_snapshot (print_pg_snapshot s) ≡ ok s
unfolding parse_pg_snapshot
parse_pg_snapshot-print s h k a =
    rw
      (
        split-print s,
        parse_u64-decimal s.xmin h,
        parse_u64-decimal s.xmax k,
        parse_in_progress-print s.in_progress a,
      )
      refl
