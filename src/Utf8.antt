-- ===== src/Utf8.antt =====
-- `str.encode("utf-8")` and `bytes.decode("utf-8")`, with errors strict. A `str` is the list of its
-- code points.
pub mod Laws
use ssync.Prelude.{
  ℕ, zero, suc, ◌+◌, ◌-◌, ◌*◌, ◌/◌, ◌%◌, Bool, ◌&&◌, ◌||◌, List, [], ◌∷◌, ◌++◌, ltb, leb, ◌==◌,
  if◌then◌else◌,
}
use ssync.Result.{Result, ok, err, unicode_error, ◌>>=◌}
use ssync.Struct.{Bytes}

abbrev pub Str : Type 0
Str = List ℕ

-- A surrogate, which UTF-8 does not write.
abbrev pub is_surrogate : ℕ → Bool
is_surrogate c = leb 0xd800 c && ltb c 0xe000

abbrev pub is_scalar : ℕ → Bool
is_scalar c = ltb c 0xd800 || (leb 0xe000 c && ltb c 0x110000)

encode_char : ℕ → Bytes
encode_char c =
    if ltb c 0x80
    then c ∷ []
    else if ltb c 0x800
    then (0xc0 + c / 64) ∷ (0x80 + c % 64) ∷ []
    else if ltb c 0x10000
    then (0xe0 + c / 4096) ∷ (0x80 + c / 64 % 64) ∷ (0x80 + c % 64) ∷ []
    else (0xf0 + c / 262144) ∷ (0x80 + c / 4096 % 64) ∷ (0x80 + c / 64 % 64) ∷ (0x80 + c % 64) ∷ []

unfoldable pub encode_utf8 : Str → Result Bytes
unfolding encode_char
encode_utf8 [] = ok []
encode_utf8 (c ∷ s) =
    if is_scalar c then (do bs ← encode_utf8 s; ok (encode_char c ++ bs)) else err unicode_error

-- Between two code points, or inside one: the continuation bytes still to come, the bits read so
-- far, and the range of the next byte.
pub data Mode : Type 0 where
  start : Mode
  inside : ℕ → ℕ → ℕ → ℕ → Mode

pub data Step : Type 0 where
  emit : ℕ → Step
  go : Mode → Step
  fail : Step

lead : ℕ → Step
lead b =
    if ltb b 0x80
    then emit b
    else if ltb b 0xc2
    then fail
    else if ltb b 0xe0
    then go (inside 0 (b - 0xc0) 0x80 0xbf)
    else if b == 0xe0
    then go (inside 1 0 0xa0 0xbf)
    else if b == 0xed
    then go (inside 1 13 0x80 0x9f)
    else if ltb b 0xf0
    then go (inside 1 (b - 0xe0) 0x80 0xbf)
    else if b == 0xf0
    then go (inside 2 0 0x90 0xbf)
    else if ltb b 0xf4
    then go (inside 2 (b - 0xf0) 0x80 0xbf)
    else if b == 0xf4
    then go (inside 2 4 0x80 0x8f)
    else fail

-- `inside k` expects one byte and then `k` more.
pub step : Mode → ℕ → Step
unfolding lead
step start b = lead b
step (inside zero acc lo hi) b = if leb lo b && leb b hi then emit (acc * 64 + (b - 0x80)) else fail
step (inside (suc k) acc lo hi) b =
    if leb lo b && leb b hi then go (inside k (acc * 64 + (b - 0x80)) 0x80 0xbf) else fail

decode_loop : Mode → Bytes → Result Str
unfolding step
decode_loop start [] = ok []
decode_loop (inside k acc lo hi) [] = err unicode_error
decode_loop mode (b ∷ bs) = elim (step mode b) [
  | emit c ↦ (do s ← decode_loop start bs; ok (c ∷ s))
  | go next ↦ decode_loop next bs
  | fail ↦ err unicode_error
]

unfoldable pub decode_utf8 : Bytes → Result Str
unfolding decode_loop
decode_utf8 bs = decode_loop start bs
