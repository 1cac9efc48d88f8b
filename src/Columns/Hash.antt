-- ===== src/Columns/Hash.antt =====
-- crates/rustium-column-transform/src/lib.rs: the bytes that `hash_string` takes the digest of.
pub mod Units
use rustium.Common.{
  ℕ, zero, suc, ◌+◌, ◌-◌, ◌*◌, ◌/◌, ◌%◌, ◌^◌, ◌<◌, Bool, true, false, ◌&&◌, Option, none, some,
  List, [], ◌∷◌, ◌++◌, Str, ltb, leb, ◌==◌, length, if◌then◌else◌,
}

pub data ColumnHashAlgorithm : Type 0 where
  md2 md5 sha1 sha224 sha256 sha384 sha512 sha512_224 sha512_256 sha3_224 sha3_256 sha3_384
        sha3_512 :
      ColumnHashAlgorithm

pub data ColumnHashVersion : Type 0 where
  v1 v2 : ColumnHashVersion

-- `value.as_bytes()`.
unfoldable pub utf8_char : ℕ → List ℕ
utf8_char c =
    if ltb c 0x80
    then c ∷ []
    else if ltb c 0x800
    then (0xc0 + c / 64) ∷ (0x80 + c % 64) ∷ []
    else if ltb c 0x10000
    then (0xe0 + c / 4096) ∷ (0x80 + c / 64 % 64) ∷ (0x80 + c % 64) ∷ []
    else (0xf0 + c / 262144) ∷ (0x80 + c / 4096 % 64) ∷ (0x80 + c / 64 % 64) ∷ (0x80 + c % 64) ∷ []

unfoldable pub utf8 : Str → List ℕ
unfolding utf8_char
utf8 [] = []
utf8 (c ∷ s) = utf8_char c ++ utf8 s

-- `value.encode_utf16()`.
unfoldable pub utf16_char : ℕ → List ℕ
utf16_char c =
    if ltb c 0x10000
    then c ∷ []
    else (0xd800 + (c - 0x10000) / 1024) ∷ (0xdc00 + (c - 0x10000) % 1024) ∷ []

unfoldable pub encode_utf16 : Str → List ℕ
unfolding utf16_char
encode_utf16 [] = []
encode_utf16 (c ∷ s) = utf16_char c ++ encode_utf16 s

-- A code unit: zero takes two bytes, and a surrogate three.
unfoldable pub modified_unit : ℕ → List ℕ
modified_unit u =
    if u == 0
    then 0xc0 ∷ 0x80 ∷ []
    else if ltb u 0x80
    then u ∷ []
    else if ltb u 0x800
    then (0xc0 + u / 64) ∷ (0x80 + u % 64) ∷ []
    else (0xe0 + u / 4096) ∷ (0x80 + u / 64 % 64) ∷ (0x80 + u % 64) ∷ []

unfoldable pub modified_utf8 : List ℕ → List ℕ
unfolding modified_unit
modified_utf8 [] = []
modified_utf8 (u ∷ units) = modified_unit u ++ modified_utf8 units

-- `length.to_be_bytes()` of so many bytes.
unfoldable pub be_bytes : ℕ → ℕ → List ℕ
be_bytes zero n = []
be_bytes (suc width) n = (n / 256 ^ width % 256) ∷ be_bytes width n

unfoldable pub serialized_length : ℕ → List ℕ
unfolding be_bytes
serialized_length n = if ltb n (2 ^ 16) then 0x74 ∷ be_bytes 2 n else 0x7c ∷ be_bytes 8 n

unfoldable pub java_serialized_string : Str → List ℕ
unfolding encode_utf16 modified_utf8 serialized_length
java_serialized_string value =
    let bytes = modified_utf8 (encode_utf16 value) in
    0xac ∷ 0xed ∷ 0x00 ∷ 0x05 ∷ serialized_length (length bytes) ++ bytes
