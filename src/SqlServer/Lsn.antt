-- ===== src/SqlServer/Lsn.antt =====
-- crates/rustium-sqlserver/src/source.rs: log sequence numbers, their text and the positions made
-- of them. The hexadecimal text is the work of the crate `hex`, `Hex`; `HexLaws` is what its
-- documentation says of it.
pub mod Order
use rustium.Common.{
  ℕ, ◌+◌, ◌/◌, ◌%◌, ◌<◌, Bool, true, false, Option, none, some, List, [], ◌∷◌, ◌++◌, ◌≡◌, refl,
  arith, ltb, ◌==◌, if◌then◌else◌, length, Str, codes, Bool-cases, inl, inr,
}
use rustium.Core.Error.{Result, ok, err, state}
use rustium.Core.Position.{SourcePosition, sql_server}

abbrev pub Bytes : Type 0
Bytes = List ℕ

abbrev pub IsBytes : Bytes → Type 0
IsBytes [] = Unit
IsBytes (b ∷ bytes) = (b < 256) × IsBytes bytes

pub record Hex : Type 0 where
  pub encode_upper : Bytes → Str
  pub decode : Str → Option Bytes

abbrev pub hex_digit : ℕ → ℕ
hex_digit d = if ltb d 10 then b'0' + d else 55 + d

-- Two upper-case digits for each byte.
unfoldable pub hex_text : Bytes → Str
hex_text [] = []
hex_text (b ∷ bytes) = hex_digit (b / 16) ∷ hex_digit (b % 16) ∷ hex_text bytes

pub record HexLaws (hex : Hex) : Type 0 where
  pub encode-text : (bytes : Bytes) → IsBytes bytes → hex.encode_upper bytes ≡ hex_text bytes
  pub decode-encode :
      (bytes : Bytes) → IsBytes bytes → hex.decode (hex.encode_upper bytes) ≡ some bytes

abbrev pub lsn_size : ℕ
lsn_size = 10

abbrev pub zero_lsn_bytes : Bytes
zero_lsn_bytes = 0 ∷ 0 ∷ 0 ∷ 0 ∷ 0 ∷ 0 ∷ 0 ∷ 0 ∷ 0 ∷ 0 ∷ []

abbrev pub max_lsn_bytes : Bytes
max_lsn_bytes = 255 ∷ 255 ∷ 255 ∷ 255 ∷ 255 ∷ 255 ∷ 255 ∷ 255 ∷ 255 ∷ 255 ∷ []

-- `lsn.strip_prefix("0x").unwrap_or(lsn)`.
unfoldable pub without_prefix : Str → Str
without_prefix (a ∷ b ∷ rest) =
    if a == b'0' then if b == b'x' then rest else a ∷ b ∷ rest else a ∷ b ∷ rest
without_prefix lsn = lsn

unfoldable pub sized : Option Bytes → Result Bytes
sized none = err (state "invalid SQL Server checkpoint LSN")
sized (some bytes) =
    if length bytes == lsn_size
    then ok bytes
    else err (state "invalid SQL Server checkpoint LSN length")

module _ (hex : Hex) where
  unfoldable pub format_lsn : Bytes → Str
  format_lsn lsn = codes "0x" ++ hex.encode_upper lsn

  unfoldable pub parse_lsn : Str → Result Bytes
  unfolding without_prefix sized
  parse_lsn lsn = sized (hex.decode (without_prefix lsn))

  unfoldable pub sqlserver_position : Str → Bytes → Bytes → ℕ → Bool → SourcePosition
  unfolding format_lsn
  sqlserver_position database commit_lsn change_lsn event_serial snapshot = sql_server (record {
    database = database;
    commit_lsn = format_lsn commit_lsn;
    change_lsn = format_lsn change_lsn;
    event_serial = event_serial;
    snapshot = snapshot;
  })

  -- The text of a log sequence number is parsed to that number where it has ten bytes, and is
  -- refused for its length otherwise.
  parse_lsn-format_lsn :
      HexLaws hex
      → (lsn : Bytes) → IsBytes lsn
      → parse_lsn (format_lsn lsn) ≡ (
          if length lsn == lsn_size
          then ok lsn
          else err (state "invalid SQL Server checkpoint LSN length"))
  unfolding parse_lsn format_lsn without_prefix sized
  parse_lsn-format_lsn laws lsn h = rw (laws.decode-encode lsn h) refl
