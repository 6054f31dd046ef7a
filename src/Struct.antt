-- ===== src/Struct.antt =====
-- The parts of Python's module `struct` that frames.py and ranges.py use: big-endian unsigned fields
-- (`!B`, `!H`, `!I`, `!Q`) and byte strings of a fixed size (`16s`). Bytes are numbers below 256.
pub mod Laws
use ssync.Prelude.{
  ℕ, zero, suc, ◌+◌, ◌-◌, ◌*◌, ◌/◌, ◌%◌, ◌^◌, Bool, true, ◌&&◌, List, [], ◌∷◌, ◌++◌, ltb,
  if◌then◌else◌, length, take, drop, replicate,
}
use ssync.Result.{Result, ok, err, struct_error}

abbrev pub Bytes : Type 0
Bytes = List ℕ

-- `uint n` is an unsigned integer of `n` bytes, `raw n` the format `{n}s`.
pub data Field : Type 0 where
  uint : ℕ → Field
  raw : ℕ → Field

abbrev pub Value : Field → Type 0
Value (uint n) = ℕ
Value (raw n) = Bytes

abbrev pub Values : List Field → Type 0
Values [] = Unit {0}
Values (f ∷ fs) = Value f × Values fs

abbrev pub width : Field → ℕ
width (uint n) = n
width (raw n) = n

-- `Struct.size`
abbrev pub size : List Field → ℕ
size [] = 0
size (f ∷ fs) = width f + size fs

-- The `n` low bytes of a number, highest first.
unfoldable pub be_bytes : ℕ → ℕ → Bytes
be_bytes zero v = []
be_bytes (suc n) v = be_bytes n (v / 256) ++ (v % 256 ∷ [])

from_be : ℕ → Bytes → ℕ
from_be acc [] = acc
from_be acc (b ∷ bs) = from_be (acc * 256 + b) bs

-- `int.from_bytes(bs, "big")`
unfoldable pub int_from_bytes : Bytes → ℕ
unfolding from_be
int_from_bytes bs = from_be 0 bs

abbrev pub field_fits : (f : Field) → Value f → Bool
field_fits (uint n) v = ltb v (256 ^ n)
field_fits (raw n) bs = true

abbrev pub fits : (fs : List Field) → Values fs → Bool
fits [] vs = true
fits (f ∷ fs) (v, vs) = field_fits f v && fits fs vs

-- A byte string is cut or padded with zero bytes to its size.
pub field_bytes : (f : Field) → Value f → Bytes
unfolding be_bytes
field_bytes (uint n) v = be_bytes n v
field_bytes (raw n) bs = take n bs ++ replicate (n - length bs) 0

unfoldable pub layout : (fs : List Field) → Values fs → Bytes
unfolding field_bytes
layout [] vs = []
layout (f ∷ fs) (v, vs) = field_bytes f v ++ layout fs vs

-- `Struct.pack`: an integer out of range raises `struct.error`.
unfoldable pub pack : (fs : List Field) → Values fs → Result Bytes
unfolding layout
pack fs vs = if fits fs vs then ok (layout fs vs) else err struct_error

pub field_value : (f : Field) → Bytes → Value f
unfolding int_from_bytes
field_value (uint n) bs = int_from_bytes (take n bs)
field_value (raw n) bs = take n bs

-- The values that the first `size fs` bytes stand for.
unfoldable pub field_values : (fs : List Field) → Bytes → Values fs
unfolding field_value
field_values [] bs = tt
field_values (f ∷ fs) bs = (field_value f bs, field_values fs (drop (width f) bs))

-- `Struct.unpack_from(bs, 0)`: a buffer that is too short raises `struct.error`.
unfoldable pub unpack : (fs : List Field) → Bytes → Result (Values fs)
unfolding field_values
unpack fs bs = if ltb (length bs) (size fs) then err struct_error else ok (field_values fs bs)
