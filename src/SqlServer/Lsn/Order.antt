-- ===== src/SqlServer/Lsn/Order.antt =====
-- crates/rustium-sqlserver/src/source.rs: positions compare as their log sequence numbers do.
use Prim.Native.Nat.{compare, Ordering}
use rustium.Common.{ℕ, ◌/◌, ◌%◌, ◌<◌, [], ◌∷◌, ◌≡◌, refl, arith, false, Str}
use rustium.Common.Ord.{nat_ord, list_ord, pair_ord, list_cmp, list_cmp_refl, then_with, gt}
use rustium.Core.Position.{is_after, sql_server_key}
use rustium.SqlServer.Lsn.{
  Bytes, IsBytes, Hex, HexLaws, hex_digit, hex_text, format_lsn, sqlserver_position,
}

digit_cmp : (a b : ℕ) → a < 16 → b < 16 → compare (hex_digit a) (hex_digit b) ≡ compare a b
digit_cmp a b h k = ground arith

byte_cmp :
    (a b : ℕ) → then_with (compare (a / 16) (b / 16)) (compare (a % 16) (b % 16)) ≡ compare a b
byte_cmp a b = ground arith

then_with_assoc : (o p q : Ordering) → then_with o (then_with p q) ≡ then_with (then_with o p) q
then_with_assoc Ordering.lt p q = refl
then_with_assoc Ordering.eq p q = refl
then_with_assoc Ordering.gt p q = refl

pub hex_text-cmp :
    (a b : Bytes) → IsBytes a → IsBytes b → list_cmp (hex_text a) (hex_text b) ≡ list_cmp a b
unfolding hex_text
hex_text-cmp [] [] h k = refl
hex_text-cmp [] (y ∷ b) h k = refl
hex_text-cmp (x ∷ a) [] h k = refl
hex_text-cmp (x ∷ a) (y ∷ b) (hx, h) (hy, k) =
    rw
      (
        hex_text-cmp a b h k,
        digit_cmp (x / 16) (y / 16) (omega arith) (omega arith),
        digit_cmp (x % 16) (y % 16) (omega arith) (omega arith),
        then_with_assoc,
        byte_cmp x y,
      )
      refl

-- The texts of two log sequence numbers compare as the numbers do.
pub format_lsn-cmp :
    (hex : Hex)
    → HexLaws hex
    → (a b : Bytes) → IsBytes a
    → IsBytes b
    → list_cmp (format_lsn hex a) (format_lsn hex b) ≡ list_cmp a b
unfolding format_lsn
format_lsn-cmp hex laws a b h k =
    rw (laws.encode-text a h, laws.encode-text b k) (hex_text-cmp a b h k)

-- A position's commit, change and serial number.
abbrev pub Triple : Type 0
Triple = Bytes × (Bytes × ℕ)

-- Streamed positions of one database are in the order of their commit, their change and their serial number.
pub is_after-sqlserver_position :
    (hex : Hex)
    → HexLaws hex
    → (database : Str) (c₁ h₁ c₂ h₂ : Bytes) (n₁ n₂ : ℕ) → IsBytes c₁
    → IsBytes h₁
    → IsBytes c₂
    → IsBytes h₂
    → is_after
        (sqlserver_position hex database c₁ h₁ n₁ false)
        (sqlserver_position hex database c₂ h₂ n₂ false)
      ≡ gt {A = Triple} (c₁, (h₁, n₁)) (c₂, (h₂, n₂))
unfolding is_after sqlserver_position sql_server_key
is_after-sqlserver_position hex laws database c₁ h₁ c₂ h₂ n₁ n₂ bc₁ bh₁ bc₂ bh₂ =
    rw
      (
        list_cmp_refl database,
        format_lsn-cmp hex laws c₁ c₂ bc₁ bc₂,
        format_lsn-cmp hex laws h₁ h₂ bh₁ bh₂,
      )
      refl
