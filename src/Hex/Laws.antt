-- ===== src/Hex/Laws.antt =====
-- Bytes survive the way through their hexadecimal digits.
use ssync.Prelude.{
  ℕ, ◌+◌, ◌*◌, ◌/◌, ◌%◌, ◌<◌, ◌≡◌, refl, ap, ◌∙◌, false, Option, none, some, [], ◌∷◌, arith,
  if◌then◌else◌, All,
}
use ssync.Struct.{Bytes}
use ssync.Utf8.{Str}
use ssync.Hex.{hex_digit, hex, is_space, hex_value, put_byte, read_hex, from_hex}

value-digit : (n : ℕ) → n < 16 → hex_value (hex_digit n) ≡ some n
value-digit n h = ground arith

digit_no_space : (n : ℕ) → n < 16 → is_space (hex_digit n) ≡ false
digit_no_space n h = ground arith

read_high :
    (n : ℕ) (rest : Str) → n < 16 → read_hex none (hex_digit n ∷ rest) ≡ read_hex (some n) rest
unfolding read_hex
read_high n rest h =
    ap (λ b. if b then read_hex none rest else first_digit (hex_value (hex_digit n)))
      (digit_no_space n h)
    ∙ ap first_digit (value-digit n h)
  where
    first_digit : Option ℕ → Option Bytes
    first_digit v = elim v [ none ↦ none | some high ↦ read_hex (some high) rest ]

read_low :
    (high n : ℕ) (rest : Str)
    → n < 16
    → read_hex (some high) (hex_digit n ∷ rest) ≡ put_byte (high * 16 + n) (read_hex none rest)
unfolding read_hex
read_low high n rest h = ap second_digit (value-digit n h)
  where
    second_digit : Option ℕ → Option Bytes
    second_digit v = elim v [
      | none ↦ none
      | some low ↦ put_byte (high * 16 + low) (read_hex none rest)
    ]

read_hex-hex : (bytes : Bytes) → All (λ b. b < 256) bytes → read_hex none (hex bytes) ≡ some bytes
unfolding hex
read_hex-hex [] h = unfold read_hex in refl
read_hex-hex (b ∷ bytes) h =
    read_high (b / 16) _ (omega (arith, h.0))
    ∙ read_low (b / 16) (b % 16) (hex bytes) (omega arith)
    ∙ ap (put_byte (b / 16 * 16 + b % 16)) (read_hex-hex bytes h.1)
    ∙ ap (λ x. some (x ∷ bytes)) (omega arith)

-- Every byte string comes back from its hexadecimal digits.
pub from_hex-hex : (bytes : Bytes) → All (λ b. b < 256) bytes → from_hex (hex bytes) ≡ some bytes
unfolding from_hex
from_hex-hex bytes h = read_hex-hex bytes h
