-- ===== src/Hex.antt =====
-- `bytes.hex` and `bytes.fromhex`.
pub mod Laws
use ssync.Prelude.{
  ℕ, ◌+◌, ◌-◌, ◌*◌, ◌/◌, ◌%◌, Bool, ◌&&◌, ◌||◌, Option, none, some, [], ◌∷◌, ltb, leb, ◌==◌,
  if◌then◌else◌,
}
use ssync.Struct.{Bytes}
use ssync.Utf8.{Str}

-- The digit of a number below 16.
abbrev pub hex_digit : ℕ → ℕ
hex_digit n = if ltb n 10 then 48 + n else 87 + n

unfoldable pub hex : Bytes → Str
hex [] = []
hex (b ∷ bytes) = hex_digit (b / 16) ∷ hex_digit (b % 16) ∷ hex bytes

-- `str.isspace` of an ASCII character, as `bytes.fromhex` and `int` skip it
abbrev pub is_space : ℕ → Bool
is_space c = (leb 9 c && leb c 13) || (c == 32)

abbrev pub hex_value : ℕ → Option ℕ
hex_value c =
    if leb 48 c && leb c 57
    then some (c - 48)
    else if leb 97 c && leb c 102
    then some (c - 87)
    else if leb 65 c && leb c 70
    then some (c - 55)
    else none

abbrev pub put_byte : ℕ → Option Bytes → Option Bytes
put_byte b none = none
put_byte b (some bytes) = some (b ∷ bytes)

-- The high digit of a byte may have been read. Space stands between bytes only.
unfoldable pub read_hex : Option ℕ → Str → Option Bytes
read_hex none [] = some []
read_hex (some high) [] = none
read_hex none (c ∷ s) =
    let skipped = read_hex none s in
    if is_space c
    then skipped
    else elim (hex_value c) [ none ↦ none | some high ↦ read_hex (some high) s ]
read_hex (some high) (c ∷ s) = elim (hex_value c) [
  | none ↦ none
  | some low ↦ put_byte (high * 16 + low) (read_hex none s)
]

unfoldable pub from_hex : Str → Option Bytes
unfolding read_hex
from_hex s = read_hex none s
