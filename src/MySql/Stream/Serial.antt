-- ===== src/MySql/Stream/Serial.antt =====
-- crates/rustium-mysql/src/source.rs: the positions of the records of one binary log.
use rustium.Common.{
  ℕ, ◌+◌, ◌≤◌, true, false, ◌==◌, some, Option, List, [], ◌∷◌, ◌≡◌, if◌then◌else◌, Str,
}
use rustium.Common.Ord.{nat_ord, list_ord, pair_ord}
use rustium.Common.Assoc.{add_one}
use rustium.Core.Position.{SourcePosition, is_after}
use rustium.MySql.Stream.{StreamingState, next_serial, mysql_position}

-- The positions of records at the offsets, one after the other.
unfoldable pub positions : Option Str → ℕ → List ℕ → StreamingState → List SourcePosition
unfolding next_serial mysql_position
positions gtid_set server_id [] s = []
positions gtid_set server_id (p ∷ offsets) s =
    let (serial, left) = next_serial p s in
    mysql_position s.current_filename p gtid_set server_id serial false
    ∷ positions gtid_set server_id offsets left

-- Each position is after the one before it.
abbrev pub Rises : SourcePosition → List SourcePosition → Type 0
Rises k [] = Unit
Rises k (l ∷ rest) = (is_after l k ≡ true) × Rises l rest

abbrev pub RisesFromFirst : List SourcePosition → Type 0
RisesFromFirst [] = Unit
RisesFromFirst (k ∷ rest) = Rises k rest

-- No offset is before the one before it.
abbrev pub FromOffset : ℕ → List ℕ → Type 0
FromOffset p [] = Unit
FromOffset p (q ∷ offsets) = (p ≤ q) × FromOffset q offsets

abbrev pub occurrences : ℕ → List ℕ → ℕ
occurrences p [] = 0
occurrences p (q ∷ seen) = (if q == p then 1 else 0) + occurrences p seen

-- The positions where the serial number of a record is the number of records at its offset up to
-- it.
abbrev pub numbered : Str → Option Str → ℕ → List ℕ → List ℕ → List SourcePosition
numbered filename gtid_set server_id seen [] = []
numbered filename gtid_set server_id seen (p ∷ offsets) =
    mysql_position filename p gtid_set server_id (1 + occurrences p seen) false
    ∷ numbered filename gtid_set server_id (p ∷ seen) offsets

-- The state after a record at the offset with the serial number.
abbrev at : ℕ → ℕ → StreamingState → StreamingState
at p n s = record s { previous_position = some (s.current_filename, p); event_serial = n }

serial_at : ℕ → ℕ → ℕ → ℕ
serial_at p n q = if p == q then add_one n else 1

AtMost : ℕ → List ℕ → Type 0
AtMost p [] = Unit
AtMost p (q ∷ seen) = (q ≤ p) × AtMost p seen

-- What holds from a record on, after those at the offsets that were seen.
abbrev Holds : Str → Option Str → ℕ → ℕ → List ℕ → List ℕ → List SourcePosition → Type 0
Holds filename gtid_set server_id p seen offsets found =
    (found ≡ numbered filename gtid_set server_id seen offsets)
    × Rises (mysql_position filename p gtid_set server_id (occurrences p seen) false) found
